-- ===== src/Operators/Effects/Raises.antt =====
-- Which errors a program lets out, by one rule for each way to build a program.
use ansible_roles.Prelude.{◌≡◌, refl, Bool, true, false}
use ansible_roles.Result.{Error, Result, ok, err}
use ansible_roles.Operators.Effects.{Exec, pure, raise, catch, choose, handled, continue, ◌>>=◌}

abbrev pub OnError {ℓ} : {A : Type ℓ} → (Error → Type 0) → Result A → Type 0
OnError T (ok a) = Unit
OnError T (err e) = T e

-- From every state, what it raises satisfies `T`.
pub record Raises {S A : Type 0} (T : Error → Type 0) (m : Exec S A) : Type 0 where
  pub only : (s : S) → OnError T (m s).0

module _ {S A : Type 0} {T : Error → Type 0} where
  pub Raises-pure : (a : A) → Raises T (pure {S = S} a)
  unfolding pure
  Raises-pure a = record { only = λ s. tt }

  pub Raises-raise : (e : Error) → T e → Raises T (raise {S = S} {A = A} e)
  unfolding raise
  Raises-raise e t = record { only = λ s. t }

  -- Only the handler's errors come out.
  pub Raises-catch :
      (m : Exec S A) (handler : Error → Exec S A)
      → ((e : Error) → Raises T (handler e))
      → Raises T (catch m handler)
  unfolding catch
  Raises-catch m handler k = record { only = λ s. let (r, s') = m s in go r s' }
    where
      go : (r : Result A) (s' : S) → OnError T (handled r handler s').0
      go (ok a) s' = tt
      go (err e) s' = (k e).only s'

  pub Raises-choose :
      (b : Bool) (m n : Exec S A)
      → (b ≡ true → Raises T m)
      → (b ≡ false → Raises T n)
      → Raises T (choose b m n)
  unfolding choose
  Raises-choose true m n km kn = km refl
  Raises-choose false m n km kn = kn refl

pub Raises-bind :
    {S A B : Type 0} {T : Error → Type 0} (m : Exec S A) (f : A → Exec S B)
    → Raises T m
    → ((a : A) → Raises T (f a))
    → Raises T (m >>= f)
unfolding ◌>>=◌
Raises-bind {S} {A} {B} {T} m f km kf = record {
  only = λ s. let (r, s') = m s in go r s' (km.only s);
}
  where
    go : (r : Result A) (s' : S) → OnError T r → OnError T (continue r f s').0
    go (ok a) s' h = (kf a).only s'
    go (err e) s' h = h
