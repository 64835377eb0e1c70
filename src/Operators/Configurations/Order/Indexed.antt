-- ===== src/Operators/Configurations/Order/Indexed.antt =====
-- What the index of the Configurations by their names holds.
use ansible_roles.Prelude.{
  ◌≡◌, sym, ap, subst, ◌∙◌, ◌⊎◌, inl, inr, ◌↔◌, String, true, false, List, [], ◌∷◌, none, some, In,
  arith, ◌==◌, string_eq, map, member, Bool-cases, Option-cases,
}
use ansible_roles.Result.{ok}
use ansible_roles.Json.{lookup, insert, has, keys}
use ansible_roles.Json.Laws.{lookup-insert}
use ansible_roles.Operators.Resource.{Resource}
use ansible_roles.Operators.Configurations.Order.{Index, index_from, entry}

abbrev pub name_of : Resource → String
name_of c = c.metadata.name

abbrev pub names : List Resource → List String
names = map name_of

pub member-In : (a : String) (xs : List String) → member a xs ≡ true → In a xs
member-In a [] h = cc
member-In a (x ∷ xs) h = ground (arith, string_eq.same_iff a x, member-In a xs)

pub In-member : (a : String) (xs : List String) → In a xs → member a xs ≡ true
In-member a [] m = absurd m
In-member a (x ∷ xs) (inl e) = ground (arith, string_eq.same_iff a x)
In-member a (x ∷ xs) (inr m) = ground (arith, In-member a xs m)

pub has-keys : (k : String) (d : Index) → has k d ≡ true → In k (keys d)
has-keys k [] h = cc
has-keys k ((j, c) ∷ d) h = ground (arith, string_eq.same_iff k j, has-keys k d)

pub keys-has : (k : String) (d : Index) → In k (keys d) → has k d ≡ true
keys-has k [] m = absurd m
keys-has k ((j, c) ∷ d) (inl e) = ground (arith, string_eq.same_iff k j)
keys-has k ((j, c) ∷ d) (inr m) = ground (arith, string_eq.same_iff k j, keys-has k d m)

-- What a successful entry is.
pub entry_lem : (d : Index) (k : String) (c : Resource) → entry d k ≡ ok c → lookup k d ≡ some c
unfolding entry
entry_lem d k c h = ground arith

pub has-lookup : (k : String) (d : Index) → has k d ≡ true → (c : Resource) × (lookup k d ≡ some c)
has-lookup k d h = elim (Option-cases (lookup k d)) [ inl e ↦ absurd (the_false e) | inr f ↦ f ]
  where
    the_false : lookup k d ≡ none → ⊥
    the_false e = cc

lookup-has : (k : String) (d : Index) (c : Resource) → lookup k d ≡ some c → has k d ≡ true
lookup-has k d c h = ground arith

has-insert :
    (k j : String) (c : Resource) (d : Index)
    → ((k ≡ j) ⊎ (has k d ≡ true))
    → has k (insert j c d) ≡ true
has-insert k j c d h = ground (arith, lookup-insert j k c d, string_eq.same_iff k j)

-- What is looked up was there before, or is one of the Configurations, under its name.
lookup-index_from :
    (k : String) (d : Index) (cs : List Resource) (c : Resource)
    → lookup k (index_from d cs) ≡ some c
    → (lookup k d ≡ some c) ⊎ ((name_of c ≡ k) × In c cs)
unfolding index_from
lookup-index_from k d [] c h = inl h
lookup-index_from k d (b ∷ cs) c h = elim (lookup-index_from k (insert (name_of b) b d) cs c h) [
  | inl e ↦ elim (Bool-cases (k == name_of b)) [
    | inl same ↦ inr (named_b e same, inl (is_b e same))
    | inr other ↦ inl (older e other)
  ]
  | inr (n, m) ↦ inr (n, inr m)
]
  where
    is_b : lookup k (insert (name_of b) b d) ≡ some c → (k == name_of b) ≡ true → c ≡ b
    is_b e same = ground (arith, lookup-insert (name_of b) k b d)

    named_b : lookup k (insert (name_of b) b d) ≡ some c → (k == name_of b) ≡ true → name_of c ≡ k
    named_b e same = ap name_of (is_b e same) ∙ sym ((string_eq.same_iff k (name_of b)).0 same)

    older :
        lookup k (insert (name_of b) b d) ≡ some c → (k == name_of b) ≡ false → lookup k d ≡ some c
    older e other = ground (arith, lookup-insert (name_of b) k b d)

has-index_from :
    (k : String) (d : Index) (cs : List Resource)
    → (has k d ≡ true) ⊎ In k (names cs)
    → has k (index_from d cs) ≡ true
unfolding index_from
has-index_from k d [] (inl h) = h
has-index_from k d [] (inr m) = absurd m
has-index_from k d (b ∷ cs) (inl h) =
    has-index_from k (insert (name_of b) b d) cs (inl (has-insert k (name_of b) b d (inr h)))
has-index_from k d (b ∷ cs) (inr (inl e)) =
    has-index_from k (insert (name_of b) b d) cs (inl (has-insert k (name_of b) b d (inl e)))
has-index_from k d (b ∷ cs) (inr (inr m)) = has-index_from k (insert (name_of b) b d) cs (inr m)

pub In-names : (c : Resource) (cs : List Resource) → In c cs → In (name_of c) (names cs)
In-names c [] m = absurd m
In-names c (b ∷ cs) (inl e) = inl (ap name_of e)
In-names c (b ∷ cs) (inr m) = inr (In-names c cs m)

-- The index of `cs`, from nothing.
pub lookup-indexed :
    (cs : List Resource) (k : String) (c : Resource)
    → lookup k (index_from [] cs) ≡ some c
    → (name_of c ≡ k) × In c cs
lookup-indexed cs k c h = elim (lookup-index_from k [] cs c h) [ inl e ↦ absurd (cc) | inr m ↦ m ]

pub indexed-has :
    (cs : List Resource) (k : String) → has k (index_from [] cs) ≡ true ↔ In k (names cs)
indexed-has cs k = (
  λ h.
      let (c, e) = has-lookup k (index_from [] cs) h in
      let (n, m) = lookup-indexed cs k c e in subst (λ j. In j (names cs)) n (In-names c cs m),
  λ m. has-index_from k [] cs (inr m),
)
