-- ===== src/Operators/Configurations/Trace.antt =====
-- What one execution runs on the managed hosts, read off the log: the guard play and the command.
pub mod Executes
use ansible_roles.Prelude.{
  ◌≡◌, refl, sym, subst, String, Bool, true, false, Option, List, [], ◌∷◌, arith, ◌==◌, nat_eq,
  string_eq, member, zero, suc, if◌then◌else◌,
}
use ansible_roles.Result.{Error, Result, ok, err}
use ansible_roles.Json.{Json, ℤ, null, bool, int, str, arr, obj}
use ansible_roles.Operators.Effects.{Call, Log, Outside, Exec, lift, ◌>>=◌, request}
use ansible_roles.Operators.Effects.Keeps.{Keeps, keeps_rules}
use ansible_roles.Operators.Effects.Triple.{
  After, Triple, Triple-pure, Triple-raise, Triple-lift, Triple-catch, Triple-bind, Triple-choose,
  Triple-request, Triple-then, Triple-keeps,
}
use ansible_roles.Operators.Resource.{Resource}
use ansible_roles.Operators.Operation.{closing, protected, reservation}
use ansible_roles.Operators.Configurations.Planning.{Plan, Runner}
use ansible_roles.Operators.Configurations.Commands.{
  Tools, exit_code, is_uncertain, require_completed_command, run_guard, run_argv, execute_stage,
  all_stages, run_commands,
}
use ansible_roles.Operators.Configurations.Execution.{
  claim_all, claimed_plan, after_failure, execute_claimed, execute,
}
use ansible_roles.Operators.Configurations.Quiet.{Quiet, loud}
use ansible_roles.Operators.Configurations.Quiet.Around.{
  complete-Keeps, operation-Keeps, claimed-Keeps, report-Keeps, same_inputs-Keeps,
  observations-Keeps, checkout-Keeps, environment-Keeps, enter-Keeps, refresh-Keeps, prepared-Keeps,
  claims-Keeps, result-Keeps, publish-Keeps,
}

-- What was run, and whether it returned 0.
pub record Run : Type 0 where
  pub name : String
  pub succeeded : Bool

unfoldable pub is_zero : Result Json → Bool
is_zero (ok (int (ℤ.pos n))) = n == 0
is_zero _ = false

-- The runs of a log, the newest first.
unfoldable pub runs : Log → List Run
runs [] = []
runs (e ∷ log) = elim e.call [
  | Call.other name v ↦
      if member name loud
      then record { name = name; succeeded = is_zero e.answer } ∷ runs log
      else runs log
  | _ ↦ runs log
]

abbrev pub ran : String → Bool → Run
ran name succeeded = record { name = name; succeeded = succeeded }

-- The runs after an execution that found `before`: the guard comes first, the command only after a
-- guard that succeeded and once, the second guard only after a command that succeeded.
pub data Tried (before : List Run) : List Run → Type 0 where
  nothing : Tried before before
  guarded : (b : Bool) → Tried before (ran "guard" b ∷ before)
  commanded : (b : Bool) → Tried before (ran "command" b ∷ ran "guard" true ∷ before)
  checked :
      (b : Bool) → Tried before (ran "guard" b ∷ ran "command" true ∷ ran "guard" true ∷ before)

-- The runs after an execution that succeeded.
abbrev pub complete : List Run → List Run
complete before = ran "guard" true ∷ ran "command" true ∷ ran "guard" true ∷ before

abbrev pub Has : List Run → Log → Type 0
Has r log = runs log ≡ r

abbrev pub TriedIn : List Run → Log → Type 0
TriedIn before log = Tried before (runs log)

-- A quiet call runs nothing.
pub runs-Quiet : (Q : List Run → Type 0) → Quiet (λ log. Q (runs log))
unfolding runs
runs-Quiet Q = record {
  get = λ collection name log answer p. p;
  list = λ collection log answer p. p;
  create = λ collection kind name spec log answer p. p;
  patch = λ collection name uid version fields log answer p. p;
  other = λ name v h log answer p. subst Q (sym (quiet_other name v h log answer)) p;
}
  where
    quiet_other :
        (name : String) (v : Json)
        → member name loud ≡ false
        → (log : Log) (answer : Result Json)
        → runs (record { call = Call.other name v; answer = answer } ∷ log) ≡ runs log
    quiet_other name v h log answer = ground arith

pub Has-Quiet : (r : List Run) → Quiet (Has r)
Has-Quiet r = runs-Quiet (λ l. l ≡ r)

pub Has-Tried :
    (before r : List Run) → Tried before r → (log : Log) → Has r log → TriedIn before log
Has-Tried before r t log h = subst (Tried before) (sym h) t

completed-zero :
    (v : Json) (code : ℤ) (u : Unit {0})
    → exit_code v ≡ ok code
    → require_completed_command code ≡ ok u
    → is_zero (ok v) ≡ true
unfolding exit_code require_completed_command is_uncertain is_zero
completed-zero null code u e h = cc
completed-zero (bool b) code u e h = cc
completed-zero (str s) code u e h = cc
completed-zero (arr xs) code u e h = cc
completed-zero (obj fs) code u e h = cc
completed-zero (int n) code u e h =
    by_code n (subst (λ c. require_completed_command c ≡ ok u) (int_injective e) h)
  where
    int_injective : {m n : ℤ} → ok m ≡ ok n → n ≡ m
    int_injective p = cc

    by_code : (n : ℤ) → require_completed_command n ≡ ok u → is_zero (ok (int n)) ≡ true
    by_code (ℤ.pos zero) k = refl
    by_code (ℤ.pos (suc m)) k = ground arith
    by_code (ℤ.negsuc m) k = ground arith

module _ (outside : Outside) where
  -- A call that runs something, and the check of its exit code.
  unfoldable pub run_call : String → Json → Exec Log (Unit {0})
  run_call name v = do
    answer ← request outside (Call.other name v)
    code ← lift (exit_code answer)
    lift (require_completed_command code)

  pub run_call-Has :
      (name : String) (v : Json) (r : List Run) (E : List Run → Type 0)
      → member name loud ≡ true
      → ((b : Bool) → E (ran name b ∷ r))
      → Triple (Has r) (run_call name v) (λ _. Has (ran name true ∷ r)) (λ log. E (runs log))
  unfolding run_call runs
  run_call-Has name v r E is_loud fails =
      Triple-bind {Q = λ answer. Has (ran name (is_zero (ok answer)) ∷ r)} _ _
        (Triple-request outside _ (λ answer log p. logged (ok answer) log p)
          (λ e log p.
            to_error (err e) (record { call = Call.other name v; answer = err e } ∷ log)
              (logged (err e) log p)))
        λ answer.
          Triple-bind
            {Q = λ code log.
              Has (ran name (is_zero (ok answer)) ∷ r) log × (exit_code answer ≡ ok code)}
            _ _ (Triple-lift _ (λ code e log p. (p, e)) (λ log p. to_error (ok answer) log p))
            λ code.
              Triple-lift _
                (λ u h log p.
                  subst (λ b. runs log ≡ ran name b ∷ r) (completed-zero answer code u p.1 h) p.0)
                (λ log p. to_error (ok answer) log p.0)
    where
      logged :
          (answer : Result Json) (log : Log)
          → runs log ≡ r
          → runs (record { call = Call.other name v; answer = answer } ∷ log)
            ≡ ran name (is_zero answer) ∷ r
      logged answer log p = ground arith

      to_error :
          (answer : Result Json) (log : Log)
          → runs log ≡ ran name (is_zero answer) ∷ r
          → E (runs log)
      to_error answer log p = subst E (sym p) (fails (is_zero answer))
