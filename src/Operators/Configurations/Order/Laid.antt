-- ===== src/Operators/Configurations/Order/Laid.antt =====
-- What a walk that returns has laid out: every Configuration behind those that it depends on.
use ansible_roles.Prelude.{
  ℕ, zero, suc, string_eq, ◌≡◌, refl, sym, ap, subst, ◌∙◌, inl, inr, ◌↔◌, String, Bool, true, false,
  List, [], ◌∷◌, ◌++◌, some, In, All, length, arith, member, Bool-cases,
}
use ansible_roles.Text.{sort_texts}
use ansible_roles.Text.Sorted.{sort_texts-In}
use ansible_roles.Result.{Result, ok, ◌>>=◌, bind-eq-ok, ok_injective}
use ansible_roles.Json.{Dict, get, has, keys, lookup}
use ansible_roles.Operators.Resource.{Resource, json_string}
use ansible_roles.Operators.Configurations.{dependencies}
use ansible_roles.Operators.Configurations.Order.{
  Index, Walk, index_from, entry, visit_all, enter, visit, visit_each, walk, dependency_order,
}
use ansible_roles.Operators.Configurations.Order.Spec.{
  down_if, Refers, Ordered, Given, In-append, In-left, In-right, names-append, Ordered-snoc,
  All-snoc,
}
use ansible_roles.Operators.Configurations.Order.Indexed.{
  name_of, names, member-In, In-member, has-keys, entry_lem, lookup-indexed, indexed-has, In-names,
}

module _ (cs : List Resource) where
  abbrev indexed : Index
  indexed = index_from [] cs

  -- `visited` names what `ordered` holds, which is in order and of the given Configurations.
  record Laid (w : Walk) : Type 0 where
    same : w.visited ≡ names w.ordered
    order : Ordered (names cs) [] w.ordered
    given : All (Given cs) w.ordered

  -- One walk goes on from another, and visits none of the names in `visiting`.
  record Goes (visiting : List String) (w next : Walk) : Type 0 where
    kept : (a : String) → In a w.visited → In a next.visited
    fresh : (a : String) → In a visiting → In a next.visited → In a w.visited
    laid : Laid w → Laid next

  Goes-same : (visiting : List String) (w : Walk) → Goes visiting w w
  Goes-same visiting w = record { kept = λ a m. m; fresh = λ a v m. m; laid = λ l. l }

  Goes-then :
      (visiting : List String) (u v w : Walk)
      → Goes visiting u v
      → Goes visiting v w
      → Goes visiting u w
  Goes-then visiting u v w g h = record {
    kept = λ a m. h.kept a (g.kept a m);
    fresh = λ a i m. g.fresh a i (h.fresh a i m);
    laid = λ l. h.laid (g.laid l);
  }

  -- What a call of `visit` establishes.
  abbrev Visits : List String → (String → Walk → Result Walk) → Type 0
  Visits visiting down =
      (name : String) (w next : Walk)
      → down name w ≡ ok next
      → Goes visiting w next × In name next.visited

  -- One reference of the loop.
  one_step :
      (visiting : List String) (down : String → Walk → Result Walk) (d : String) (w mid : Walk)
      → Visits visiting down
      → (b : Bool) → has d indexed ≡ b
      → down_if down d w b ≡ ok mid
      → Goes visiting w mid × (In d (names cs) → In d mid.visited)
  unfolding down_if
  one_step visiting down d w mid v true k h = let (g, m) = v d w mid h in (g, λ i. m)
  one_step visiting down d w mid v false k h =
      let e : w ≡ mid = ok_injective h in
      (
        subst (Goes visiting w) e (Goes-same visiting w),
        λ i. absurd (never ((indexed_has_lem d).1 i)),
      )
    where
      indexed_has_lem : (k : String) → has k indexed ≡ true ↔ In k (names cs)
      indexed_has_lem k = indexed-has cs k

      never : has d indexed ≡ true → ⊥
      never f = cc

  visit_all-Goes :
      (visiting : List String) (down : String → Walk → Result Walk) (refs : List Dict)
      (w next : Walk)
      → Visits visiting down
      → visit_all indexed down refs w ≡ ok next
      → Goes visiting w next × All (Refers (names cs) next.visited) refs
  unfolding visit_all down_if
  visit_all-Goes visiting down [] w next v h =
      (subst (Goes visiting w) (ok_injective h) (Goes-same visiting w), tt)
  visit_all-Goes visiting down (ref ∷ refs) w next v h =
      let (d, named, h1) =
        bind-eq-ok (json_string (get ref "name") "dependency name")
          (λ d. down_if down d w (has d indexed) >>= visit_all indexed down refs) h in
      let (mid, went, h2) =
        bind-eq-ok (down_if down d w (has d indexed)) (visit_all indexed down refs) h1 in
      let (g, here) = one_step visiting down d w mid v (has d indexed) refl went in
      let (later, others) = visit_all-Goes visiting down refs mid next v h2 in
      (Goes-then visiting w mid next g later, ((d, named, λ i. later.kept d (here i)), others))

  append_one : Walk → String → Resource → Walk
  append_one after name c = record {
    visited = after.visited ++ name ∷ [];
    ordered = after.ordered ++ c ∷ [];
  }

  -- A Configuration whose references are laid out may come next.
  Laid-append :
      (name : String) (c : Resource) (refs : List Dict) (after : Walk)
      → entry indexed name ≡ ok c
      → dependencies c ≡ ok refs
      → All (Refers (names cs) after.visited) refs
      → (In name after.visited → ⊥)
      → Laid after
      → Laid (append_one after name c)
  unfolding append_one
  Laid-append name c refs after e r refers new l =
      let found = entry_lem indexed name c e in
      let called = (lookup-indexed cs name c found).0 in
      record {
        same =
            subst (λ n. after.visited ++ n ∷ [] ≡ names (after.ordered ++ c ∷ [])) called
              (ap (λ vs. vs ++ name_of c ∷ []) l.same ∙ sym (names-append after.ordered c));
        order =
            Ordered-snoc (names cs) [] after.ordered c l.order
              (refs, r, subst (λ vs. All (Refers (names cs) vs) refs) l.same refers)
              (λ i.
                new
                  (subst (λ n. In n after.visited) called (subst (In (name_of c)) (sym l.same) i)));
        given =
            All-snoc (Given cs) after.ordered c l.given
              (subst (λ n. lookup n indexed ≡ some c) (sym called) found);
      }

  enter-Goes :
      (visiting : List String) (down : String → Walk → Result Walk) (name : String) (w next : Walk)
      → Visits (name ∷ visiting) down
      → (In name visiting → ⊥)
      → (In name w.visited → ⊥)
      → enter indexed down name w ≡ ok next
      → Goes visiting w next × In name next.visited
  unfolding enter append_one
  enter-Goes visiting down name w next v apart new h =
      let (c, e, h1) =
        bind-eq-ok (entry indexed name)
          (λ c. dependencies c >>= λ refs.
            visit_all indexed down refs w >>= λ after. ok (append_one after name c))
          h in
      let (refs, r, h2) =
        bind-eq-ok (dependencies c)
          (λ refs. visit_all indexed down refs w >>= λ after. ok (append_one after name c)) h1 in
      let (after, walked, h3) =
        bind-eq-ok (visit_all indexed down refs w) (λ after. ok (append_one after name c)) h2 in
      let (g, refers) = visit_all-Goes (name ∷ visiting) down refs w after v walked in
      let unseen : In name after.visited → ⊥ = λ i. new (g.fresh name (inl refl) i) in
      subst (λ x. Goes visiting w x × In name x.visited) (ok_injective h3)
        (
          record {
            kept = λ a m. In-left a after.visited (name ∷ []) (g.kept a m);
            fresh = λ a i m. elim (In-append a after.visited (name ∷ []) m) [
              | inl p ↦ g.fresh a (inr i) p
              | inr q ↦ elim q [
                | inl same ↦ absurd (apart (subst (λ b. In b visiting) same i))
                | inr none_left ↦ absurd none_left
              ]
            ];
            laid = λ l. Laid-append name c refs after e r refers unseen (g.laid l);
          },
          In-right name after.visited (name ∷ []) (inl refl),
        )

  entered :
      (n : ℕ) (visiting : List String) (name : String) (w next : Walk)
      → visit (suc n) indexed visiting name w ≡ ok next
      → member name w.visited ≡ false
      → (member name visiting ≡ false)
        × (enter indexed (visit n indexed (name ∷ visiting)) name w ≡ ok next)
  unfolding visit
  entered n visiting name w next h new = ground arith

  returned :
      (n : ℕ) (visiting : List String) (name : String) (w next : Walk)
      → visit (suc n) indexed visiting name w ≡ ok next
      → member name w.visited ≡ true
      → w ≡ next
  unfolding visit
  returned n visiting name w next h old = ground arith

  visit-Goes : (n : ℕ) (visiting : List String) → Visits visiting (visit n indexed visiting)
  unfolding visit
  visit-Goes zero visiting name w next h = cc
  visit-Goes (suc n) visiting name w next h = elim (Bool-cases (member name w.visited)) [
    | inl old ↦
        subst (λ x. Goes visiting w x × In name x.visited) (returned n visiting name w next h old)
          (Goes-same visiting w, member-In name w.visited old)
    | inr new ↦
        let (apart, h1) = entered n visiting name w next h new in
        enter-Goes visiting (visit n indexed (name ∷ visiting)) name w next
          (visit-Goes n (name ∷ visiting)) (absent name visiting apart) (absent name w.visited new)
          h1
  ]
    where
      absent : (a : String) (xs : List String) → member a xs ≡ false → In a xs → ⊥
      absent a xs f m = cc (In-member a xs m)

  visit_each-Goes :
      (n : ℕ) (ns : List String) (w next : Walk)
      → visit_each n indexed ns w ≡ ok next
      → Goes [] w next × ((a : String) → In a ns → In a next.visited)
  unfolding visit_each
  visit_each-Goes n [] w next h =
      (subst (Goes [] w) (ok_injective h) (Goes-same [] w), λ a m. absurd m)
  visit_each-Goes n (name ∷ ns) w next h =
      let (mid, went, h1) = bind-eq-ok (visit n indexed [] name w) (visit_each n indexed ns) h in
      let (g, here) = visit-Goes n [] name w mid went in
      let (later, others) = visit_each-Goes n ns mid next h1 in
      (
        Goes-then [] w mid next g later,
        λ a m. elim m [
          | inl e ↦ later.kept a (subst (λ b. In b mid.visited) (sym e) here)
          | inr i ↦ others a i
        ],
      )

-- Where dependency_order returns, its list holds for each given name the last Configuration of that
-- name, once, and nothing else; the references of each are readable, and each of them that names a given Configuration
-- names one that stands earlier.
pub dependency_order-Ordered :
    (cs ordered : List Resource)
    → dependency_order cs ≡ ok ordered
    → Ordered (names cs) [] ordered
      × All (Given cs) ordered
      × ((name : String) → In name (names cs) ↔ In name (names ordered))
unfolding dependency_order walk
dependency_order-Ordered cs ordered h =
    let (w, walked, h1) = bind-eq-ok (walk (index_from [] cs)) (λ w. ok w.ordered) h in
    let (g, all_in) =
      visit_each-Goes cs (suc (length (keys (index_from [] cs))))
        (sort_texts (keys (index_from [] cs))) (record { visited = []; ordered = [] }) w walked in
    let l : Laid cs w = g.laid (record { same = refl; order = tt; given = tt }) in
    subst
      (λ o.
        Ordered (names cs) [] o
        × All (Given cs) o
        × ((name : String) → In name (names cs) ↔ In name (names o)))
      (ok_injective h1)
      (
        l.order,
        l.given,
        λ name. (
          λ m. subst (In name) l.same (
              all_in name (
                (sort_texts-In name (keys (index_from [] cs))).1
                  (has-keys name (index_from [] cs) ((indexed-has cs name).1 m)))),
          λ m. within w.ordered l.given name m,
        ),
      )
  where
    within :
        (os : List Resource)
        → All (Given cs) os
        → (name : String) → In name (names os)
        → In name (names cs)
    within [] h name m = absurd m
    within (o ∷ os) (i, h) name (inl e) =
        subst (λ n. In n (names cs)) (sym e) (In-names o cs (lookup-indexed cs (name_of o) o i).1)
    within (o ∷ os) (i, h) name (inr m) = within os h name m
