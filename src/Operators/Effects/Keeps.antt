-- ===== src/Operators/Effects/Keeps.antt =====
-- Invariants of programs, by one rule for each way to build a program.
use ansible_roles.Prelude.{String, Bool, true, false, ◌∷◌, if◌then◌else◌, Option, none, some}
use ansible_roles.Result.{Error, Result, ok, err}
use ansible_roles.Json.{Json}
use ansible_roles.Operators.Effects.{
  Call, Log, Outside, Exec, pure, raise, lift, catch, choose, given, ◌>>=◌, refuse_if, request,
  continue, handled,
}

-- Whatever the program returns or raises, it leads from a state with `P` to one with `P`.
pub record Keeps {S A : Type 0} (P : S → Type 0) (m : Exec S A) : Type 0 where
  pub holds : (s : S) → P s → P (m s).1

module _ {S A : Type 0} {P : S → Type 0} where
  pub Keeps-pure : (a : A) → Keeps P (pure a)
  unfolding pure
  Keeps-pure a = record { holds = λ s h. h }

  pub Keeps-raise : (e : Error) → Keeps P (raise {A = A} e)
  unfolding raise
  Keeps-raise e = record { holds = λ s h. h }

  pub Keeps-lift : (r : Result A) → Keeps P (lift r)
  unfolding lift
  Keeps-lift r = record { holds = λ s h. h }

  pub Keeps-catch :
      (m : Exec S A) (handler : Error → Exec S A)
      → Keeps P m
      → ((e : Error) → Keeps P (handler e))
      → Keeps P (catch m handler)
  unfolding catch
  Keeps-catch m handler km kh = record {
    holds = λ s h. let (r, s') = m s in go r s' (km.holds s h);
  }
    where
      go : (r : Result A) (s' : S) → P s' → P (handled r handler s').1
      go (ok a) s' h = h
      go (err e) s' h = (kh e).holds s' h

  pub Keeps-if : (b : Bool) (m n : Exec S A) → Keeps P m → Keeps P n → Keeps P (if b then m else n)
  Keeps-if true m n km kn = km
  Keeps-if false m n km kn = kn

  pub Keeps-choose : (b : Bool) (m n : Exec S A) → Keeps P m → Keeps P n → Keeps P (choose b m n)
  unfolding choose
  Keeps-choose true m n km kn = km
  Keeps-choose false m n km kn = kn

  pub Keeps-given :
      {B : Type 0} (o : Option B) (m : Exec S A) (f : B → Exec S A)
      → Keeps P m
      → ((b : B) → Keeps P (f b))
      → Keeps P (given o m f)
  unfolding given
  Keeps-given none m f km kf = km
  Keeps-given (some b) m f km kf = kf b

pub Keeps-refuse_if :
    {S : Type 0} {P : S → Type 0} (b : Bool) (e : Error) → Keeps P (refuse_if {S = S} b e)
unfolding refuse_if
Keeps-refuse_if true e = record { holds = λ s h. h }
Keeps-refuse_if false e = record { holds = λ s h. h }

module _ {S A B : Type 0} {P : S → Type 0} where
  pub Keeps-bind :
      (first : Exec S A) (later : A → Exec S B)
      → Keeps P first
      → ((value : A) → Keeps P (later value))
      → Keeps P (first >>= later)
  unfolding ◌>>=◌
  Keeps-bind first later kept_first kept_later = record {
    holds = λ s h. let (r, s') = first s in go r s' (kept_first.holds s h);
  }
    where
      go : (r : Result A) (s' : S) → P s' → P (continue r later s').1
      go (ok value) s' h = (kept_later value).holds s' h
      go (err e) s' h = h

pub ruleset keeps_rules = (
  Keeps-pure, Keeps-raise, Keeps-lift, Keeps-catch, Keeps-if, Keeps-choose, Keeps-given,
  Keeps-refuse_if, Keeps-bind,
)

-- The condition stays true when `call` is logged, whatever the answer.
abbrev pub Tolerates : (Log → Type 0) → Call → Type 0
Tolerates P call =
    (log : Log) (answer : Result Json) → P log → P (record { call = call; answer = answer } ∷ log)

pub Keeps-request :
    {P : Log → Type 0} (outside : Outside) (call : Call)
    → Tolerates P call
    → Keeps P (request outside call)
unfolding request
Keeps-request outside call t = record { holds = λ log h. t log (outside log call) h }

-- A condition that reads, the probe and the other calls leave true.
pub record Tolerant (P : Log → Type 0) : Type 0 where
  pub get : (collection name : String) → Tolerates P (Call.get collection name)
  pub list : (collection : String) → Tolerates P (Call.list collection)
  pub inspect : Tolerates P Call.inspect
  pub other : (name : String) (v : Json) → Tolerates P (Call.other name v)
