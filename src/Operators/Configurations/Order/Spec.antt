-- ===== src/Operators/Configurations/Order/Spec.antt =====
-- What an order of the Configurations is: each follows those that its references name.
use ansible_roles.Prelude.{
  some, ◌≡◌, refl, sym, ap, subst, ◌⊎◌, inl, inr, Bool, true, false, String, List, [], ◌∷◌, ◌++◌,
  In, All,
}
use ansible_roles.Result.{Result, ok}
use ansible_roles.Json.{Dict, get, lookup}
use ansible_roles.Operators.Resource.{Resource, json_string}
use ansible_roles.Operators.Configurations.{dependencies}
use ansible_roles.Operators.Configurations.Order.{Walk, index_from}
use ansible_roles.Operators.Configurations.Order.Indexed.{name_of, names}

-- The Configuration that a reference names is among `seen`, where it is one of `wanted`.
abbrev pub Refers : List String → List String → Dict → Type 0
Refers wanted seen ref =
    (d : String) × (json_string (get ref "name") "dependency name" ≡ ok d)
    × (In d wanted → In d seen)

-- So do all the references of `c`.
abbrev pub Follows : List String → List String → Resource → Type 0
Follows wanted seen c =
    (refs : List Dict) × (dependencies c ≡ ok refs) × All (Refers wanted seen) refs

-- The Configuration that the index holds under its name.
abbrev pub Given : List Resource → Resource → Type 0
Given cs c = lookup (name_of c) (index_from [] cs) ≡ some c

-- Each Configuration follows `seen` and those before it, and none stands twice.
abbrev pub Ordered : List String → List String → List Resource → Type 0
Ordered wanted seen [] = Unit
Ordered wanted seen (c ∷ cs) =
    Follows wanted seen c × (In (name_of c) seen → ⊥) × Ordered wanted (seen ++ name_of c ∷ []) cs

pub In-append : (a : String) (xs ys : List String) → In a (xs ++ ys) → In a xs ⊎ In a ys
In-append a [] ys m = inr m
In-append a (x ∷ xs) ys (inl e) = inl (inl e)
In-append a (x ∷ xs) ys (inr m) = elim (In-append a xs ys m) [ inl p ↦ inl (inr p) | inr q ↦ inr q ]

pub In-left : (a : String) (xs ys : List String) → In a xs → In a (xs ++ ys)
In-left a [] ys m = absurd m
In-left a (x ∷ xs) ys (inl e) = inl e
In-left a (x ∷ xs) ys (inr m) = inr (In-left a xs ys m)

pub In-right : (a : String) (xs ys : List String) → In a ys → In a (xs ++ ys)
In-right a [] ys m = m
In-right a (x ∷ xs) ys m = inr (In-right a xs ys m)

append_assoc : (xs ys zs : List String) → (xs ++ ys) ++ zs ≡ xs ++ (ys ++ zs)
append_assoc [] ys zs = refl
append_assoc (x ∷ xs) ys zs = ap (λ l. x ∷ l) (append_assoc xs ys zs)

append_nil : (xs : List String) → xs ++ [] ≡ xs
append_nil [] = refl
append_nil (x ∷ xs) = ap (λ l. x ∷ l) (append_nil xs)

pub names-append :
    (xs : List Resource) (c : Resource) → names (xs ++ c ∷ []) ≡ names xs ++ name_of c ∷ []
names-append [] c = refl
names-append (x ∷ xs) c = ap (λ l. name_of x ∷ l) (names-append xs c)

pub Ordered-snoc :
    (wanted seen : List String) (cs : List Resource) (c : Resource)
    → Ordered wanted seen cs
    → Follows wanted (seen ++ names cs) c
    → (In (name_of c) (seen ++ names cs) → ⊥)
    → Ordered wanted seen (cs ++ c ∷ [])
Ordered-snoc wanted seen [] c o f fresh = (
  subst (λ l. Follows wanted l c) (append_nil seen) f,
  subst (λ l. In (name_of c) l → ⊥) (append_nil seen) fresh,
  tt,
)
Ordered-snoc wanted seen (b ∷ cs) c (first, new, o) f fresh =
    let same = append_assoc seen (name_of b ∷ []) (names cs) in
    (
      first,
      new,
      Ordered-snoc wanted (seen ++ name_of b ∷ []) cs c o
          (subst (λ l. Follows wanted l c) (sym same) f)
          (subst (λ l. In (name_of c) l → ⊥) (sym same) fresh),
    )

pub All-snoc :
    (P : Resource → Type 0) (cs : List Resource) (c : Resource)
    → All P cs
    → P c
    → All P (cs ++ c ∷ [])
All-snoc P [] c h p = (p, tt)
All-snoc P (b ∷ cs) c (q, h) p = (q, All-snoc P cs c h p)

-- One reference of the loop, by its test.
unfoldable pub down_if : (String → Walk → Result Walk) → String → Walk → Bool → Result Walk
down_if down d w b = elim b [ true ↦ down d w | false ↦ ok w ]
