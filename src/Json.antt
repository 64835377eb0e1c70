-- ===== src/Json.antt =====
-- JSON values as Python holds them (operators/models.py, filter_plugins/kube_plan.py): the type
-- of values, dictionaries in insertion order, truth and `==`. Numbers are integers: no code that is
-- modelled reads a float.
pub mod Laws
use ansible_roles.Prelude.{
  ℕ, zero, suc, String, Bool, true, false, ◌&&◌, Option, none, some, List, [], ◌∷◌, ◌==◌, string_eq,
  nat_eq, if◌then◌else◌, length,
}
use ansible_roles.Result.{key_error, type_error, attribute_error, Result, ok, err}

-- `negsuc n` is -(n + 1).
pub data ℤ : Type 0 where
  pos : ℕ → ℤ
  negsuc : ℕ → ℤ

mutual
  pub data Json : Type 0 where
    null : Json
    bool : Bool → Json
    int : ℤ → Json
    str : String → Json
    arr : Items → Json
    obj : Fields → Json

  pub data Items : Type 0 where
    nil : Items
    cons : Json → Items → Items

  pub data Fields : Type 0 where
    end : Fields
    field : String → Json → Fields → Fields

-- dict[str, JSONValue]; JSONObject in the source.
abbrev pub Dict : Type 0
Dict = List (String × Json)

abbrev pub items_of : List Json → Items
items_of [] = nil
items_of (x ∷ xs) = cons x (items_of xs)

abbrev pub list_of : Items → List Json
list_of nil = []
list_of (cons x xs) = x ∷ list_of xs

abbrev pub fields_of : Dict → Fields
fields_of [] = end
fields_of ((k, v) ∷ d) = field k v (fields_of d)

abbrev pub dict_of : Fields → Dict
dict_of end = []
dict_of (field k v fs) = (k, v) ∷ dict_of fs

abbrev pub object : Dict → Json
object d = obj (fields_of d)

abbrev pub array : List Json → Json
array xs = arr (items_of xs)

module _ {ℓ} {V : Type ℓ} where
  abbrev pub lookup : String → List (String × V) → Option V
  lookup k [] = none
  lookup k ((j, v) ∷ d) = if k == j then some v else lookup k d

  -- `d[k] = v`: a known key keeps its place.
  abbrev pub insert : String → V → List (String × V) → List (String × V)
  insert k v [] = (k, v) ∷ []
  insert k v ((j, w) ∷ d) = if k == j then (j, v) ∷ d else (j, w) ∷ insert k v d

  -- `d.pop(k, None)`
  abbrev pub remove : String → List (String × V) → List (String × V)
  remove k [] = []
  remove k ((j, w) ∷ d) = let rest = remove k d in if k == j then rest else (j, w) ∷ rest

  -- `k in d`
  abbrev pub has : String → List (String × V) → Bool
  has k d = elim (lookup k d) [ none ↦ false | some _ ↦ true ]

  abbrev pub keys : List (String × V) → List String
  keys [] = []
  keys ((k, _) ∷ d) = k ∷ keys d

-- `d.get(k, v)` and `d.get(k)`
abbrev pub get_or : Dict → String → Json → Json
get_or d k v = elim (lookup k d) [ none ↦ v | some w ↦ w ]

abbrev pub get : Dict → String → Json
get d k = get_or d k null

-- `d[k]` on a dictionary, and on a value that need not be one.
abbrev pub index : Dict → String → Result Json
index d k = elim (lookup k d) [ none ↦ err (key_error k) | some v ↦ ok v ]

abbrev pub subscript : Json → String → Result Json
subscript (obj fs) k = index (dict_of fs) k
subscript v k = err type_error

-- `v.get(k)` on a value that need not be a dictionary.
abbrev pub attribute_get : Json → String → Json → Result Json
attribute_get (obj fs) k d = ok (get_or (dict_of fs) k d)
attribute_get v k d = err attribute_error

-- `bool(v)`
abbrev pub truthy : Json → Bool
truthy null = false
truthy (bool b) = b
truthy (int (pos zero)) = false
truthy (int (pos (suc n))) = true
truthy (int (negsuc n)) = true
truthy (str s) = if s == "" then false else true
truthy (arr nil) = false
truthy (arr (cons x xs)) = true
truthy (obj end) = false
truthy (obj (field k v fs)) = true

abbrev pub int_beq : ℤ → ℤ → Bool
int_beq (pos m) (pos n) = m == n
int_beq (negsuc m) (negsuc n) = m == n
int_beq _ _ = false

-- `True` is 1 and `False` is 0.
abbrev pub of_bool : Bool → ℤ
of_bool true = pos 1
of_bool false = pos 0

-- Python's `==`: arrays by position, dictionaries by key, whatever their order.
unfoldable mutual
  pub eqb : Json → Json → Bool
  eqb null null = true
  eqb null _ = false
  eqb (bool a) (bool b) = int_beq (of_bool a) (of_bool b)
  eqb (bool a) (int b) = int_beq (of_bool a) b
  eqb (bool a) _ = false
  eqb (int a) (int b) = int_beq a b
  eqb (int a) (bool b) = int_beq a (of_bool b)
  eqb (int a) _ = false
  eqb (str a) (str b) = a == b
  eqb (str a) _ = false
  eqb (arr a) (arr b) = eqb_items a b
  eqb (arr a) _ = false
  eqb (obj a) (obj b) = (length (dict_of a) == length (dict_of b)) && eqb_fields a (dict_of b)
  eqb (obj a) _ = false

  pub eqb_items : Items → Items → Bool
  eqb_items nil nil = true
  eqb_items nil (cons y ys) = false
  eqb_items (cons x xs) nil = false
  eqb_items (cons x xs) (cons y ys) = eqb x y && eqb_items xs ys

  pub eqb_fields : Fields → Dict → Bool
  eqb_fields end d = true
  eqb_fields (field k v fs) d =
      elim (lookup k d) [ none ↦ false | some w ↦ eqb v w ] && eqb_fields fs d
