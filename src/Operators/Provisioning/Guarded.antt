-- ===== src/Operators/Provisioning/Guarded.antt =====
-- What the steps of a pass keep true of the log of calls, from what each kind of call keeps.
pub mod Reads
pub mod Writes
pub mod Stages
pub mod Erasure
pub mod Refusals
pub mod Recovery
use ansible_roles.Prelude.{◌≡◌, refl, String, Bool, true, false, List, [], ◌∷◌}
use ansible_roles.Result.{Result, ok, err}
use ansible_roles.Operators.Effects.{Call, Log, Exec}
use ansible_roles.Operators.Effects.Keeps.{Keeps}
use ansible_roles.Operators.Effects.Triple.{After, Triple}
use ansible_roles.Operators.Provisioning.{View}
use ansible_roles.Operators.Provisioning.Bound.{World, api, with_view, become}

-- The condition on the log that a pass works on.
pub record On (P : Log → Type 0) (w : World) : Type 0 where
  pub of_log : P w.log

module _ {A : Type 0} {P : Log → Type 0} where
  pub Keeps-api : (m : Exec Log A) → Keeps P m → Keeps (On P) (api m)
  unfolding api
  Keeps-api m k = record { holds = λ w h. record { of_log = k.holds w.log h.of_log } }

  pub Keeps-with_view :
      (f : View → Exec World A) → ((v : View) → Keeps (On P) (f v)) → Keeps (On P) (with_view f)
  unfolding with_view
  Keeps-with_view f k = record { holds = λ w h. (k w.view).holds w h }

pub Keeps-become : {P : Log → Type 0} (v : View) → Keeps (On P) (become v)
unfolding become
Keeps-become v = record { holds = λ w h. record { of_log = h.of_log } }

pub ruleset world_rules = (Keeps-api, Keeps-with_view, Keeps-become)

module _ {A : Type 0} {P Q E : Log → Type 0} where
  pub Triple-api :
      (m : Exec Log A) → Triple P m (λ _. Q) E → Triple (On P) (api m) (λ _. On Q) (On E)
  unfolding api
  Triple-api m t = record {
    run = λ w h. let (r, log) = m w.log in go r log w.view (t.run w.log h.of_log);
  }
    where
      go :
          (r : Result A) (log : Log) (view : View)
          → After (λ (_ : A). Q) E (r, log)
          → After (λ (_ : A). On Q) (On E) (r, record { log = log; view = view })
      go (ok a) log view h = record { of_log = h }
      go (err e) log view h = record { of_log = h }

module _ {A : Type 0} {P E : World → Type 0} {Q : A → World → Type 0} where
  pub Triple-with_view :
      (f : View → Exec World A) → ((v : View) → Triple P (f v) Q E) → Triple P (with_view f) Q E
  unfolding with_view
  Triple-with_view f t = record { run = λ w h. (t w.view).run w h }

pub Triple-become :
    {P Q E : World → Type 0} (v : View)
    → ((w : World) → P w → Q (record { log = w.log; view = v }))
    → Triple P (become v) (λ _. Q) E
unfolding become
Triple-become v f = record { run = f }
