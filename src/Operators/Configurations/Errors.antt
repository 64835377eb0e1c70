-- ===== src/Operators/Configurations/Errors.antt =====
-- Which errors the steps around a Configuration's command let out.
use ansible_roles.Prelude.{◌≡◌, Bool, true, ◌||◌, List, [], ◌∷◌}
use ansible_roles.Result.{Error, Result, ok, err}
use ansible_roles.Operators.Effects.{Log}
use ansible_roles.Operators.Effects.Raises.{Raises}
use ansible_roles.Operators.Resource.{Resource}
use ansible_roles.Operators.Configurations.Planning.{Runner}
use ansible_roles.Operators.Configurations.Commands.{Tools}
use ansible_roles.Operators.Configurations.Execution.{is_termination, attempt_configuration}

abbrev pub IsTermination : Error → Type 0
IsTermination e = is_termination e ≡ true

module _ (runner : Runner) (tools : Tools) where
  -- The loop over the Configurations, from one log to a result and a log: each is attempted from
  -- the log that the one before left, whether that one failed or not, until the end or until one is
  -- terminated.
  pub data Attempts : List Resource → Bool → Log → Result Bool × Log → Type 0 where
    finished : {failed : Bool} {log : Log} → Attempts [] failed log (ok failed, log)
    attempted :
        {c : Resource} {cs : List Resource} {failed now : Bool} {log next : Log}
        {out : Result Bool × Log}
        → attempt_configuration runner tools c log ≡ (ok now, next)
        → Attempts cs (failed || now) next out
        → Attempts (c ∷ cs) failed log out
    terminated :
        {c : Resource} {cs : List Resource} {failed : Bool} {log next : Log} {e : Error}
        → attempt_configuration runner tools c log ≡ (err e, next)
        → IsTermination e
        → Attempts (c ∷ cs) failed log (err e, next)
