-- ===== src/Operators/Configurations.antt =====
-- operators/configurations.py: the commands that run against installed hosts, in the order of
-- their dependencies. Here: how a Configuration and the resources that it refers to are read.
pub mod Order
pub mod Targets
pub mod Planning
pub mod Reports
pub mod Commands
pub mod Workspace
pub mod Execution
pub mod Quiet
pub mod Trace
pub mod Errors
pub mod Argv
pub mod Published
mod Runs
use ansible_roles.Prelude.{
  ℕ, ◌<>◌, String, Bool, true, false, not, ◌&&◌, ◌||◌, Option, none, some, List, [], ◌∷◌, length,
  leb, all, ◌==◌, string_eq, nat_eq, if◌then◌else◌,
}
use ansible_roles.Text.{codes, has_code}
use ansible_roles.Result
use ansible_roles.Result.{
  Error, Result, ok, err, operator_error, value_error, http_error, raise_if, map_result,
}
use ansible_roles.Json.{Json, null, str, arr, nil, list_of, Dict, object, get, get_or, truthy, eqb}
use ansible_roles.Operators.Effects.{
  Outside, Log, Exec, pure, raise, lift, catch, ◌>>=◌, ◌>>◌, refuse_if,
}
use ansible_roles.Operators.Resource.{Resource, json_object, json_string}
use ansible_roles.Operators.Api.{api_get}
use ansible_roles.Operators.Common.{is_terminating}

unfoldable pub mapping : Dict → String → Result Dict
mapping parent field = json_object (get parent field) field

unfoldable pub reference : Dict → String → Result Dict
reference parent field =
    Result.◌>>=◌ (mapping parent field)
      λ value. Result.◌>>=◌ (json_string (get value "name") (field <> ".name")) λ name. ok value

unfoldable pub pinned_reference : Dict → String → Result Dict
pinned_reference parent field =
    Result.◌>>=◌ (reference parent field)
      λ value. Result.◌>>=◌ (json_string (get value "uid") (field <> ".uid")) λ uid. ok value

unfoldable pub dependency_list : Json → Result (List Json)
dependency_list (arr xs) = ok (list_of xs)
dependency_list _ = err (value_error "dependsOn must be an array")

-- The references of `dependsOn`, in their order.
unfoldable pub dependencies : Resource → Result (List Dict)
dependencies configuration =
    Result.◌>>=◌ (dependency_list (get_or configuration.spec "dependsOn" (arr nil)))
      (map_result (λ v. json_object v "dependency"))

-- One argument: a nonempty text without NUL, of at most 8192 characters.
unfoldable pub command_argument : Json → Result String
command_argument (str s) =
    if s == "" || has_code 0 s || not (leb (length (codes s)) 8192)
    then err
        (operator_error "InvalidCommand" "Command arguments must be nonempty strings without NUL")
    else ok s
command_argument _ =
    err (operator_error "InvalidCommand" "Command arguments must be nonempty strings without NUL")

-- `isinstance(arguments, list)`, and 1 to 256 of them
unfoldable pub argument_list : Json → Result (List Json)
argument_list (arr xs) =
    if leb 1 (length (list_of xs)) && leb (length (list_of xs)) 256
    then ok (list_of xs)
    else err (operator_error "InvalidCommand" "command.argv requires 1 to 256 arguments")
argument_list _ = err (operator_error "InvalidCommand" "command.argv requires 1 to 256 arguments")

unfoldable pub command_argv : Resource → Result (List String)
command_argv configuration =
    Result.◌>>=◌ (mapping configuration.spec "command")
      λ command. Result.◌>>=◌ (argument_list (get command "argv")) (map_result command_argument)

-- HTTPError with code 404
unfoldable pub is_missing : Error → Bool
is_missing (http_error code) = code == 404
is_missing _ = false

-- Another lifetime than a pinned reference's, or a resource that is being deleted.
unfoldable pub is_replaced : Dict → Resource → Bool
is_replaced ref value =
    not (eqb (get ref "uid") null) && not (eqb (str value.metadata.uid) (get ref "uid"))
    || is_terminating value

unfoldable pub missing_reference : Error → Error
missing_reference e =
    if is_missing e
    then operator_error "ReferenceMissing" "Referenced resource is not available"
    else e

unfoldable pub fetch_reference : Outside → String → Dict → Exec Log Resource
fetch_reference outside collection ref = do
  value ←
      catch (lift (json_string (get ref "name") "reference name") >>= api_get outside collection)
        (λ e. raise (missing_reference e))
  refuse_if (is_replaced ref value)
      (operator_error "ReferenceChanged" "Referenced resource was replaced or deleted")
  pure value
