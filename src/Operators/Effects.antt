-- ===== src/Operators/Effects.antt =====
-- What the operators do outside themselves, and programs that do it. The outside answers each call
-- from the whole log, so other writers may change anything between two calls.
pub mod Keeps
pub mod Raises
pub mod Triple
use ansible_roles.Prelude.{ℕ, String, Bool, true, false, Option, none, some, List, [], ◌∷◌}
use ansible_roles.Result.{Error, Result, ok, err, interrupted}
use ansible_roles.Json.{Json, Dict}

pub data Call : Type 0 where
  -- API.get, API.list, API.create: the collection, and the name, or the kind, name and spec
  get : String → String → Call
  list : String → Call
  create : String → String → String → Dict → Call
  -- API.patch_status: the collection, name, UID, resource version (If-Match) and status fields
  patch : String → String → String → String → Dict → Call
  -- an Ansible stage on the managed host, with the variables of its play
  stage : String → Dict → Call
  -- the read-only probe of the managed host
  inspect : Call
  -- any other call: its name and its input
  other : String → Json → Call

pub record Event : Type 0 where
  pub call : Call
  pub answer : Result Json

-- The newest event comes first.
abbrev pub Log : Type 0
Log = List Event

abbrev pub Outside : Type 0
Outside = Log → Call → Result Json

-- A program over a state that an exception leaves as it is.
abbrev pub Exec : Type 0 → Type 0 → Type 0
Exec S A = S → Result A × S

module _ {S A : Type 0} where
  unfoldable pub pure : A → Exec S A
  pure a s = (ok a, s)

  unfoldable pub raise : Error → Exec S A
  raise e s = (err e, s)

  -- A step that touches no state.
  unfoldable pub lift : Result A → Exec S A
  lift r s = (r, s)

  -- `try: m` with a handler for every error; the state is the one that `m` left.
  abbrev pub handled : Result A → (Error → Exec S A) → Exec S A
  handled (ok a) handler s = (ok a, s)
  handled (err e) handler s = handler e s

  unfoldable pub catch : Exec S A → (Error → Exec S A) → Exec S A
  catch m handler s = let (r, s') = m s in handled r handler s'

module _ {S A B : Type 0} where
  abbrev pub continue : Result A → (A → Exec S B) → Exec S B
  continue (ok a) f s = f a s
  continue (err e) f s = (err e, s)

  infixl 5 ◌>>=◌ ◌>>◌
  unfoldable pub ◌>>=◌ : Exec S A → (A → Exec S B) → Exec S B
  ◌>>=◌ m f s = let (r, s') = m s in continue r f s'

  abbrev pub ◌>>◌ : Exec S A → Exec S B → Exec S B
  m >> n = m >>= λ _. n

unfoldable pub is_exception : Error → Bool
is_exception interrupted = false
is_exception _ = true

module _ {S A : Type 0} where
  -- `if test: m` and `else: n`
  unfoldable pub choose : Bool → Exec S A → Exec S A → Exec S A
  choose true m n = m
  choose false m n = n

  -- `except Exception`, which an interrupt passes: it is a BaseException only.
  abbrev pub catch_exception : Exec S A → (Error → Exec S A) → Exec S A
  catch_exception m handler = catch m (λ e. choose (is_exception e) (handler e) (raise e))

  -- `if value is not None: f(value)` and `else: m`
  unfoldable pub given : {B : Type 0} → Option B → Exec S A → (B → Exec S A) → Exec S A
  given none m f = m
  given (some b) m f = f b

-- `if test: raise error`
unfoldable pub refuse_if : {S : Type 0} → Bool → Error → Exec S (Unit {0})
refuse_if true e s = (err e, s)
refuse_if false e s = (ok tt, s)

-- One call, logged with its answer.
unfoldable pub request : Outside → Call → Exec Log Json
request outside call log =
    let answer = outside log call in (answer, record { call = call; answer = answer } ∷ log)
