-- ===== src/Operators/Effects/Triple.antt =====
-- Programs between a condition before and conditions after: one for a return, one for a raise.
use ansible_roles.Prelude.{◌≡◌, refl, ap, subst, Bool, true, false, ◌∷◌}
use ansible_roles.Result.{Error, Result, ok, err}
use ansible_roles.Json.{Json}
use ansible_roles.Operators.Effects.{
  Call, Log, Outside, Exec, pure, raise, lift, catch, choose, handled, continue, ◌>>=◌, refuse_if,
  request,
}
use ansible_roles.Operators.Effects.Keeps.{Keeps}

module _ {S A : Type 0} where
  abbrev pub After : (A → S → Type 0) → (S → Type 0) → Result A × S → Type 0
  After Q E (ok a, s) = Q a s
  After Q E (err e, s) = E s

  pub record Triple (P : S → Type 0) (m : Exec S A) (Q : A → S → Type 0) (E : S → Type 0)
      : Type 0 where
    pub run : (s : S) → P s → After Q E (m s)

module _ {S A : Type 0} {P : S → Type 0} {Q : A → S → Type 0} {E : S → Type 0} where
  pub Triple-pure : (a : A) → ((s : S) → P s → Q a s) → Triple P (pure a) Q E
  unfolding pure
  Triple-pure a f = record { run = f }

  pub Triple-raise : (e : Error) → ((s : S) → P s → E s) → Triple P (raise e) Q E
  unfolding raise
  Triple-raise e f = record { run = f }

  pub Triple-lift :
      (r : Result A)
      → ((a : A) → r ≡ ok a → (s : S) → P s → Q a s)
      → ((s : S) → P s → E s)
      → Triple P (lift r) Q E
  unfolding lift
  Triple-lift (ok a) f g = record { run = f a refl }
  Triple-lift (err e) f g = record { run = g }

  pub Triple-weaken :
      (m : Exec S A) (P' : S → Type 0) (E' : S → Type 0)
      → ((s : S) → P s → P' s)
      → ((s : S) → E' s → E s)
      → Triple P' m Q E'
      → Triple P m Q E
  Triple-weaken m P' E' f g t = record {
    run = λ s p. let (r, s') = m s in go r s' (t.run s (f s p));
  }
    where
      go : (r : Result A) (s' : S) → After Q E' (r, s') → After Q E (r, s')
      go (ok a) s' h = h
      go (err e) s' h = g s' h

  pub Triple-forget :
      (m : Exec S A) {Q' : A → S → Type 0}
      → ((a : A) (s : S) → Q' a s → Q a s)
      → Triple P m Q' E
      → Triple P m Q E
  Triple-forget m {Q'} f t = record { run = λ s p. let (r, s') = m s in go r s' (t.run s p) }
    where
      go : (r : Result A) (s' : S) → After Q' E (r, s') → After Q E (r, s')
      go (ok a) s' h = f a s' h
      go (err e) s' h = h

  pub Triple-catch :
      (m : Exec S A) (handler : Error → Exec S A) (F : S → Type 0)
      → Triple P m Q F
      → ((e : Error) → Triple F (handler e) Q E)
      → Triple P (catch m handler) Q E
  unfolding catch
  Triple-catch m handler F t th = record { run = λ s p. let (r, s') = m s in go r s' (t.run s p) }
    where
      go : (r : Result A) (s' : S) → After Q F (r, s') → After Q E (handled r handler s')
      go (ok a) s' h = h
      go (err e) s' h = (th e).run s' h

  pub Triple-choose :
      (b : Bool) (m n : Exec S A) → Triple P m Q E → Triple P n Q E → Triple P (choose b m n) Q E
  unfolding choose
  Triple-choose true m n tm tn = tm
  Triple-choose false m n tm tn = tn

  -- The same, where the branches may use the test.
  pub Triple-branch :
      (b : Bool) (m n : Exec S A)
      → (b ≡ true → Triple P m Q E)
      → (b ≡ false → Triple P n Q E)
      → Triple P (choose b m n) Q E
  unfolding choose
  Triple-branch true m n tm tn = tm refl
  Triple-branch false m n tm tn = tn refl

-- A kept condition, with a weaker one after it.
pub Triple-keeps :
    {S A : Type 0} {P Q : S → Type 0} (m : Exec S A)
    → ((s : S) → P s → Q s)
    → Keeps P m
    → Triple P m (λ _. Q) Q
Triple-keeps {S} {A} {P} {Q} m f k = record {
  run = λ s p. let (r, s') = m s in go r s' (k.holds s p);
}
  where
    go : (r : Result A) (s' : S) → P s' → After (λ (_ : A). Q) Q (r, s')
    go (ok a) s' h = f s' h
    go (err e) s' h = f s' h

-- The same, with the condition kept after a return.
pub Triple-then :
    {S A : Type 0} {P Q : S → Type 0} (m : Exec S A)
    → ((s : S) → P s → Q s)
    → Keeps P m
    → Triple P m (λ _. P) Q
Triple-then {S} {A} {P} {Q} m f k = record {
  run = λ s p. let (r, s') = m s in go r s' (k.holds s p);
}
  where
    go : (r : Result A) (s' : S) → P s' → After (λ (_ : A). P) Q (r, s')
    go (ok a) s' h = h
    go (err e) s' h = f s' h

-- A condition that holds after a return and after a raise alike.
pub Triple-state :
    {S A : Type 0} {P R : S → Type 0} (m : Exec S A)
    → Triple P m (λ _. R) R
    → (s : S) → P s
    → R (m s).1
Triple-state {S} {A} {P} {R} m t s p = let (r, s') = m s in go r s' (t.run s p)
  where
    go : (r : Result A) (s' : S) → After (λ _. R) R (r, s') → R s'
    go (ok a) s' h = h
    go (err e) s' h = h

-- The condition after a return, where the program returns.
pub Triple-ok :
    {S A : Type 0} {P E : S → Type 0} {Q : A → S → Type 0} (m : Exec S A)
    → Triple P m Q E
    → (s s' : S) (a : A) → P s
    → m s ≡ (ok a, s')
    → Q a s'
Triple-ok {E} {Q} m t s s' a p e = subst (After Q E) e (t.run s p)

pub Triple-refuse_if :
    {S : Type 0} {P Q E : S → Type 0} (b : Bool) (e : Error)
    → (b ≡ false → (s : S) → P s → Q s)
    → ((s : S) → P s → E s)
    → Triple P (refuse_if b e) (λ _. Q) E
unfolding refuse_if
Triple-refuse_if true e f g = record { run = g }
Triple-refuse_if false e f g = record { run = f refl }

module _ {S A B : Type 0} {P : S → Type 0} {Q : A → S → Type 0} {R : B → S → Type 0}
    {E : S → Type 0} where
  pub Triple-bind :
      (m : Exec S A) (f : A → Exec S B)
      → Triple P m Q E
      → ((a : A) → Triple (Q a) (f a) R E)
      → Triple P (m >>= f) R E
  unfolding ◌>>=◌
  Triple-bind m f t tf = record { run = λ s p. let (r, s') = m s in go r s' (t.run s p) }
    where
      go : (r : Result A) (s' : S) → After Q E (r, s') → After R E (continue r f s')
      go (ok a) s' h = (tf a).run s' h
      go (err e) s' h = h

-- A call: the condition after holds of the log with the call and the answer on it.
pub Triple-request :
    {P E : Log → Type 0} {Q : Json → Log → Type 0} (outside : Outside) (call : Call)
    → ((v : Json) (log : Log) → P log → Q v (record { call = call; answer = ok v } ∷ log))
    → ((e : Error) (log : Log) → P log → E (record { call = call; answer = err e } ∷ log))
    → Triple P (request outside call) Q E
unfolding request
Triple-request {P} {E} {Q} outside call f g = record { run = λ log p. go log p (outside log call) }
  where
    go :
        (log : Log)
        → P log
        → (r : Result Json) → After Q E (r, record { call = call; answer = r } ∷ log)
    go log p (ok v) = f v log p
    go log p (err e) = g e log p

abbrev pub Anything : {S : Type 0} → S → Type 0
Anything s = Unit

-- Every program runs between conditions that say nothing.
pub Triple-Anything : {S A : Type 0} (m : Exec S A) → Triple Anything m (λ _. Anything) Anything
Triple-Anything {S} {A} m = record { run = λ s p. let (r, s') = m s in go r s' }
  where
    go : (r : Result A) (s' : S) → After {S = S} (λ (_ : A). Anything) Anything (r, s')
    go (ok a) s' = tt
    go (err e) s' = tt

-- Inversion of a run that returns, with the rest of the proof as a function of what is found.
module _ {S A B C : Type 0} {s s' : S} {b : B} where
  pub bind-returns :
      (m : Exec S A) (f : A → Exec S B)
      → (m >>= f) s ≡ (ok b, s')
      → ((a : A) (next : S) → m s ≡ (ok a, next) → f a next ≡ (ok b, s') → C)
      → C
  unfolding ◌>>=◌
  bind-returns m f h rest = let (r, next) = m s in go r next refl h
    where
      go : (r : Result A) (next : S) → m s ≡ (r, next) → continue r f next ≡ (ok b, s') → C
      go (ok a) next e h = rest a next e h
      go (err e) next p h = absurd (cc (ap (λ (x : Result B × S). x.0) h))

  pub lift-returns :
      (r : Result A) (f : A → Exec S B)
      → (lift r >>= f) s ≡ (ok b, s')
      → ((a : A) → r ≡ ok a → f a s ≡ (ok b, s') → C)
      → C
  unfolding ◌>>=◌ lift
  lift-returns (ok a) f h rest = rest a refl h
  lift-returns (err e) f h rest = absurd (cc (ap (λ (x : Result B × S). x.0) h))

pub refuse_if-returns :
    {S B C : Type 0} {s s' : S} {b : B} (test : Bool) (e : Error) (f : Unit {0} → Exec S B)
    → (refuse_if test e >>= f) s ≡ (ok b, s')
    → (test ≡ false → f tt s ≡ (ok b, s') → C)
    → C
unfolding ◌>>=◌ refuse_if
refuse_if-returns {S} {B} true e f h rest = absurd (cc (ap (λ (x : Result B × S). x.0) h))
refuse_if-returns false e f h rest = rest refl h
