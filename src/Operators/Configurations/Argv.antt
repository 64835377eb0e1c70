-- ===== src/Operators/Configurations/Argv.antt =====
-- The bounds of a command's arguments.
use ansible_roles.Prelude.{
  suc, ◌≤◌, ◌≡◌, ◌≢◌, refl, subst, ap, String, Bool, true, false, not, ◌&&◌, ◌||◌, List, [], ◌∷◌,
  All, length, arith, leb, leb→le, ◌==◌, string_eq, nat_eq, if◌then◌else◌,
}
use ansible_roles.Text.{codes, has_code}
use ansible_roles.Result.{operator_error, ok, err, ◌>>=◌, bind-eq-ok, ok_injective, map_result}
use ansible_roles.Json.{Json, null, bool, int, str, arr, obj, Dict, get, list_of}
use ansible_roles.Operators.Resource.{Resource}
use ansible_roles.Operators.Configurations.{mapping, command_argument, argument_list, command_argv}

-- A text that may be an argument.
abbrev pub IsArgument : String → Type 0
IsArgument s = (s ≢ "") × (has_code 0 s ≡ false) × (length (codes s) ≤ 8192)

text-IsArgument :
    (t s : String)
    → (if t == "" || has_code 0 t || not (leb (length (codes t)) 8192)
        then err (
            operator_error "InvalidCommand"
              "Command arguments must be nonempty strings without NUL")
        else ok t)
      ≡ ok s
    → (t ≡ s) × IsArgument t
text-IsArgument t s h =
    let (empty, rest) = tests (t == "") (has_code 0 t) (leb (length (codes t)) 8192) h in
    let (nul, more) = rest in
    let (fits, same) = more in
    (same, (λ e. differ empty e, nul, leb→le (length (codes t)) 8192 fits))
  where
    tests :
        (a b c : Bool)
        → (if a || b || not c
            then err (
                operator_error "InvalidCommand"
                  "Command arguments must be nonempty strings without NUL")
            else ok t)
          ≡ ok s
        → (a ≡ false) × ((b ≡ false) × ((c ≡ true) × (t ≡ s)))
    tests true b c k = cc
    tests false true c k = cc
    tests false false false k = cc
    tests false false true k = (refl, (refl, (refl, ok_injective k)))

    differ : (t == "") ≡ false → t ≡ "" → ⊥
    differ f e = cc ((string_eq.same_iff t "").1 e)

command_argument_lem :
    (v : Json) (s : String) → command_argument v ≡ ok s → (v ≡ str s) × IsArgument s
unfolding command_argument
command_argument_lem null s h = cc
command_argument_lem (bool b) s h = cc
command_argument_lem (int n) s h = cc
command_argument_lem (arr xs) s h = cc
command_argument_lem (obj fs) s h = cc
command_argument_lem (str t) s h =
    let (same, fits) = text-IsArgument t s h in (ap (λ x. str x) same, subst IsArgument same fits)

-- The values are these texts, one by one.
abbrev pub Holds : List Json → List String → Type 0
Holds [] [] = Unit
Holds [] (s ∷ ss) = ⊥
Holds (v ∷ vs) [] = ⊥
Holds (v ∷ vs) (s ∷ ss) = (v ≡ str s) × Holds vs ss

arguments_lem :
    (vs : List Json) (ss : List String)
    → map_result command_argument vs ≡ ok ss
    → Holds vs ss × All IsArgument ss × (length vs ≡ length ss)
arguments_lem [] ss h =
    subst (λ l. Holds [] l × All IsArgument l × (0 ≡ length l)) (ok_injective h) (tt, tt, refl)
arguments_lem (v ∷ vs) ss h =
    let (s, e, h1) =
      bind-eq-ok (command_argument v) (λ y. map_result command_argument vs >>= λ ys. ok (y ∷ ys))
        h in
    let (rest, f, h2) = bind-eq-ok (map_result command_argument vs) (λ ys. ok (s ∷ ys)) h1 in
    let (same, fits) = command_argument_lem v s e in
    let (holds, all_fit, long) = arguments_lem vs rest f in
    subst (λ l. Holds (v ∷ vs) l × All IsArgument l × (suc (length vs) ≡ length l))
      (ok_injective h2) ((same, holds), (fits, all_fit), omega (arith, long))

argument_list_lem :
    (v : Json) (vs : List Json) → argument_list v ≡ ok vs → (1 ≤ length vs) × (length vs ≤ 256)
unfolding argument_list
argument_list_lem null vs h = cc
argument_list_lem (bool b) vs h = cc
argument_list_lem (int n) vs h = cc
argument_list_lem (str s) vs h = cc
argument_list_lem (obj fs) vs h = cc
argument_list_lem (arr xs) vs h = go (list_of xs) h
  where
    go :
        (l : List Json)
        → (if leb 1 (length l) && leb (length l) 256
            then ok l
            else err (operator_error "InvalidCommand" "command.argv requires 1 to 256 arguments"))
          ≡ ok vs
        → (1 ≤ length vs) × (length vs ≤ 256)
    go l k =
        let (low, rest) = tests (leb 1 (length l)) (leb (length l) 256) k in
        let (high, same) = rest in
        subst (λ x. (1 ≤ length x) × (length x ≤ 256)) same
          (leb→le 1 (length l) low, leb→le (length l) 256 high)
      where
        tests :
            (a b : Bool)
            → (if a && b
                then ok l
                else err
                    (operator_error "InvalidCommand" "command.argv requires 1 to 256 arguments"))
              ≡ ok vs
            → (a ≡ true) × ((b ≡ true) × (l ≡ vs))
        tests true true k = (refl, (refl, ok_injective k))
        tests true false k = cc
        tests false b k = cc

-- The arguments that command_argv returns are 1 to 256 texts, each of them nonempty, without NUL and
-- of at most 8192 characters; they are the values of `command.argv`, in their order.
pub command_argv-IsArgument :
    (configuration : Resource) (argv : List String)
    → command_argv configuration ≡ ok argv
    → (1 ≤ length argv)
      × (length argv ≤ 256)
      × All IsArgument argv
      × ((command : Dict) × (values : List Json) × (mapping configuration.spec "command"
            ≡ ok command)
          × (argument_list (get command "argv") ≡ ok values)
          × Holds values argv)
unfolding command_argv
command_argv-IsArgument configuration argv h =
    let (command, e, h1) =
      bind-eq-ok (mapping configuration.spec "command")
        (λ c. argument_list (get c "argv") >>= map_result command_argument) h in
    let (values, f, h2) =
      bind-eq-ok (argument_list (get command "argv")) (map_result command_argument) h1 in
    let (low, high) = argument_list_lem (get command "argv") values f in
    let (holds, fits, long) = arguments_lem values argv h2 in
    (omega (arith, long, low), omega (arith, long, high), fits, (command, values, e, f, holds))
