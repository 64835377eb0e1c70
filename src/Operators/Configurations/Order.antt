-- ===== src/Operators/Configurations/Order.antt =====
-- dependency_order of operators/configurations.py: a depth-first walk in which a Configuration
-- follows those that it depends on. `visiting` is the stack of calls of `visit`.
pub mod Indexed
pub mod Spec
pub mod Laid
pub mod Cycles
pub mod Total
use ansible_roles.Prelude.{
  ℕ, zero, suc, ◌<>◌, String, Bool, true, false, List, [], ◌∷◌, ◌++◌, Option, none, some, length,
  member, string_eq,
}
use ansible_roles.Text.{sort_texts}
use ansible_roles.Result.{Error, Result, ok, err, operator_error, key_error, recursion_error, ◌>>=◌}
use ansible_roles.Json.{Dict, get, lookup, insert, has, keys}
use ansible_roles.Operators.Resource.{Resource, json_string}
use ansible_roles.Operators.Configurations.{dependencies}

abbrev pub Index : Type 0
Index = List (String × Resource)

-- `{value['metadata']['name']: value for value in configurations}`
unfoldable pub index_from : Index → List Resource → Index
index_from indexed [] = indexed
index_from indexed (c ∷ cs) = index_from (insert c.metadata.name c indexed) cs

-- `visited` in the order of insertion, and `ordered`.
pub record Walk : Type 0 where
  pub visited : List String
  pub ordered : List Resource

unfoldable pub entry : Index → String → Result Resource
entry indexed name = elim (lookup name indexed) [ none ↦ err (key_error name) | some c ↦ ok c ]

-- The loop over the references; `down` is the recursive call.
unfoldable pub visit_all : Index → (String → Walk → Result Walk) → List Dict → Walk → Result Walk
visit_all indexed down [] w = ok w
visit_all indexed down (ref ∷ refs) w = do
  name ← json_string (get ref "name") "dependency name"
  next ← elim (has name indexed) [ true ↦ down name w | false ↦ ok w ]
  visit_all indexed down refs next

-- What follows the two tests of `visit`.
unfoldable pub enter : Index → (String → Walk → Result Walk) → String → Walk → Result Walk
enter indexed down name w = do
  configuration ← entry indexed name
  refs ← dependencies configuration
  after ← visit_all indexed down refs w
  ok (record {
    visited = after.visited ++ name ∷ [];
    ordered = after.ordered ++ configuration ∷ [];
  })

-- visit, with a bound on the depth of its calls.
unfoldable pub visit : ℕ → Index → List String → String → Walk → Result Walk
visit zero indexed visiting name w = err recursion_error
visit (suc n) indexed visiting name w = elim (member name visiting) [
  | true ↦ err (operator_error "DependencyCycle" ("Configuration dependency cycle at " <> name))
  | false ↦ elim (member name w.visited) [
    | true ↦ ok w
    | false ↦ enter indexed (visit n indexed (name ∷ visiting)) name w
  ]
]

unfoldable pub visit_each : ℕ → Index → List String → Walk → Result Walk
visit_each n indexed [] w = ok w
visit_each n indexed (name ∷ names) w = do
  next ← visit n indexed [] name w
  visit_each n indexed names next

-- The walk of an index; its depth is at most the number of the names, and one call more.
unfoldable pub walk : Index → Result Walk
walk indexed =
    visit_each (suc (length (keys indexed))) indexed (sort_texts (keys indexed))
      (record { visited = []; ordered = [] })

unfoldable pub dependency_order : List Resource → Result (List Resource)
dependency_order configurations = do w ← walk (index_from [] configurations); ok w.ordered
