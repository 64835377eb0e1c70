-- ===== src/Operators/Configurations/Order/Cycles.antt =====
-- Cycles of dependence, and that an order of the Configurations excludes them.
use ansible_roles.Prelude.{
  ◌≡◌, refl, sym, subst, ap, ◌∙◌, inl, inr, String, true, List, [], ◌∷◌, ◌++◌, Option, some, In,
  All, All-In,
}
use ansible_roles.Result.{ok, ok_injective}
use ansible_roles.Json.{Dict, get, has, lookup}
use ansible_roles.Operators.Resource.{Resource, json_string}
use ansible_roles.Operators.Configurations.{dependencies}
use ansible_roles.Operators.Configurations.Order.{index_from, dependency_order}
use ansible_roles.Operators.Configurations.Order.Indexed.{name_of, names, indexed-has}
use ansible_roles.Operators.Configurations.Order.Spec.{
  Refers, Follows, Ordered, Given, In-append, In-left,
}
use ansible_roles.Operators.Configurations.Order.Laid.{dependency_order-Ordered}

-- The name of each reference can be read.
abbrev pub IsNamed : Dict → Type 0
IsNamed ref = (d : String) × (json_string (get ref "name") "dependency name" ≡ ok d)

abbrev pub IsReadable : Resource → Type 0
IsReadable c = (refs : List Dict) × (dependencies c ≡ ok refs) × All IsNamed refs

-- `from` names the given Configuration `to` in its `dependsOn`.
pub record DependsOn (cs : List Resource) (from to : String) : Type 0 where
  pub owner : Resource
  pub found : lookup from (index_from [] cs) ≡ some owner
  pub refs : List Dict
  pub reads : dependencies owner ≡ ok refs
  pub ref : Dict
  pub among : In ref refs
  pub names_it : json_string (get ref "name") "dependency name" ≡ ok to
  pub given : has to (index_from [] cs) ≡ true

-- One or more steps of dependence.
pub data Reaches (cs : List Resource) : String → String → Type 0 where
  one : {a b : String} → DependsOn cs a b → Reaches cs a b
  more : {a b c : String} → Reaches cs a b → DependsOn cs b c → Reaches cs a c

abbrev pub Cycle : List Resource → Type 0
Cycle cs = (a : String) × Reaches cs a a

owned : {o : Option Resource} {b c : Resource} → o ≡ some b → o ≡ some c → b ≡ c
owned e f = cc

module _ (cs : List Resource) where
  -- What the names in `seen` depend on is in `seen`.
  abbrev Closed : List String → Type 0
  Closed seen = (a b : String) → In a seen → DependsOn cs a b → In b seen

  -- What a Configuration that follows `seen` depends on is in `seen`.
  Follows-DependsOn :
      (seen : List String) (c : Resource) (b : String)
      → Given cs c
      → Follows (names cs) seen c
      → DependsOn cs (name_of c) b
      → In b seen
  Follows-DependsOn seen c b g (refs, reads, refers) d =
      let same : d.owner ≡ c = owned (d.found) g in
      let lists : d.refs ≡ refs = ok_injective (sym d.reads ∙ ap dependencies same ∙ reads) in
      let (t, named, within) =
        All-In (Refers (names cs) seen) d.ref refs refers (subst (In d.ref) lists d.among) in
      let target : t ≡ b = ok_injective (sym named ∙ d.names_it) in
      subst (λ x. In x seen) target
        (within (subst (λ x. In x (names cs)) (sym target) ((indexed-has cs b).0 d.given)))

  Reaches-Closed :
      (seen : List String) (c : Resource) (b : String)
      → Closed seen
      → Given cs c
      → Follows (names cs) seen c
      → Reaches cs (name_of c) b
      → In b seen
  Reaches-Closed seen c b closed g f r = walk_along r refl
    where
      walk_along : {x y : String} → Reaches cs x y → x ≡ name_of c → In y seen
      walk_along {x} {y} (one d) e =
          Follows-DependsOn seen c y g f (subst (λ z. DependsOn cs z y) e d)
      walk_along {x} {y} (more {b = m} s d) e = closed m y (walk_along s e) d

  Ordered-acyclic :
      (seen : List String) (os : List Resource) (a : String)
      → Closed seen
      → Ordered (names cs) seen os
      → All (Given cs) os
      → In a (names os)
      → Reaches cs a a
      → ⊥
  Ordered-acyclic seen [] a closed o g m r = absurd m
  Ordered-acyclic seen (c ∷ os) a closed (f, new, o) (g, gs) (inl e) r =
      new (Reaches-Closed seen c (name_of c) closed g f (subst (λ z. Reaches cs z z) e r))
  Ordered-acyclic seen (c ∷ os) a closed (f, new, o) (g, gs) (inr m) r =
      Ordered-acyclic (seen ++ name_of c ∷ []) os a wider o gs m r
    where
      wider : Closed (seen ++ name_of c ∷ [])
      wider x y i d = In-left y seen (name_of c ∷ []) (elim (In-append x seen (name_of c ∷ []) i) [
        | inl p ↦ closed x y p d
        | inr q ↦ elim q [
          | inl e ↦ Follows-DependsOn seen c y g f (subst (λ z. DependsOn cs z y) e d)
          | inr none_left ↦ absurd none_left
        ]
      ])

-- Where a Configuration depends on itself, by one step or more, dependency_order returns no order.
pub dependency_order-Cycle :
    (cs ordered : List Resource) → Cycle cs → ¬ (dependency_order cs ≡ ok ordered)
dependency_order-Cycle cs ordered (a, r) h =
    let (o, g, all_in) = dependency_order-Ordered cs ordered h in
    Ordered-acyclic cs [] ordered a (λ x y i d. absurd i) o g ((all_in a).0 (is_given r)) r
  where
    is_given : {x y : String} → Reaches cs x y → In y (names cs)
    is_given {x} {y} (one d) = (indexed-has cs y).0 d.given
    is_given {x} {y} (more s d) = (indexed-has cs y).0 d.given
