-- ===== src/Json/Laws.antt =====
-- What `==` on JSON values and the dictionary operations give.
use ansible_roles.Prelude.{
  ◌≡◌, refl, ◌↔◌, String, true, List, [], ◌∷◌, none, some, arith, ◌==◌, string_eq, if◌then◌else◌,
  eq_self,
}
use ansible_roles.Json.{Json, null, bool, int, str, arr, obj, eqb, lookup, insert, remove}

pub eqb-str : (v : Json) (s : String) → eqb v (str s) ≡ true → v ≡ str s
unfolding eqb
eqb-str (str a) s h = ap_str (string_eq.same_iff a s) h
  where
    ap_str : {a s : String} → ((a == s) ≡ true) ↔ (a ≡ s) → (a == s) ≡ true → str a ≡ str s
    ap_str f h = cc (f.0 h)
eqb-str null s h = cc
eqb-str (bool b) s h = cc
eqb-str (int n) s h = cc
eqb-str (arr xs) s h = cc
eqb-str (obj fs) s h = cc

pub eqb-str_self : (s : String) → eqb (str s) (str s) ≡ true
unfolding eqb
eqb-str_self s = eq_self s

pub eqb-null : (v : Json) → eqb v null ≡ true → v ≡ null
unfolding eqb
eqb-null null h = refl
eqb-null (bool b) h = cc
eqb-null (int n) h = cc
eqb-null (str s) h = cc
eqb-null (arr xs) h = cc
eqb-null (obj fs) h = cc

module _ {ℓ} {V : Type ℓ} where
  pub lookup-insert :
      (k j : String) (v : V) (d : List (String × V))
      → lookup j (insert k v d) ≡ (if j == k then some v else lookup j d)
  lookup-insert k j v [] = refl
  lookup-insert k j v ((i, w) ∷ d) = ground (
    arith,
    string_eq.same_iff k j,
    string_eq.same_iff j k,
    string_eq.same_iff k i,
    string_eq.same_iff j i,
    lookup-insert k j v d,
  )

  pub lookup-remove :
      (k j : String) (d : List (String × V))
      → lookup j (remove k d) ≡ (if j == k then none else lookup j d)
  lookup-remove k j [] = ground arith
  lookup-remove k j ((i, w) ∷ d) = ground (
    arith,
    string_eq.same_iff j k,
    string_eq.same_iff k i,
    string_eq.same_iff j i,
    lookup-remove k j d,
  )
