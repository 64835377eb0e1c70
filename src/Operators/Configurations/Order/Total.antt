-- ===== src/Operators/Configurations/Order/Total.antt =====
-- The walk ends: a bound of one call more than there are names is never reached.
use ansible_roles.Prelude.{
  ℕ, zero, suc, ◌+◌, ◌≤◌, ◌≡◌, refl, sym, subst, ap, ◌∙◌, ◌<>◌, ◌⊎◌, inl, inr, ◌≢◌, String, Bool,
  true, false, List, [], ◌∷◌, some, In, All, All-In, All-of_In, Apart, length, arith, member,
  Bool-cases, pigeonhole, string_eq,
}
use ansible_roles.Text.{sort_texts}
use ansible_roles.Text.Sorted.{sort_texts-In}
use ansible_roles.Result.{
  Error, Result, Result-cases, ok, err, operator_error, ◌>>=◌, ok_injective, bind-eq-err,
}
use ansible_roles.Json.{Dict, get, has, keys, lookup}
use ansible_roles.Operators.Resource.{Resource, json_string}
use ansible_roles.Operators.Configurations.{dependencies}
use ansible_roles.Operators.Configurations.Order.{
  Index, Walk, index_from, entry, visit_all, enter, visit, visit_each, walk, dependency_order,
}
use ansible_roles.Operators.Configurations.Order.Cycles.{
  IsReadable, IsNamed, DependsOn, Reaches, one, more,
}
use ansible_roles.Operators.Configurations.Order.Spec.{down_if}
use ansible_roles.Operators.Configurations.Order.Indexed.{
  member-In, In-member, has-keys, keys-has, has-lookup, lookup-indexed,
}

abbrev Differs : String → String → Type 0
Differs a b = a ≢ b

-- More distinct names than there are cannot be.
crowded :
    (v : String) (vs ks : List String)
    → Apart Differs (v ∷ vs)
    → ((a : String) → In a (v ∷ vs) → In a ks)
    → length ks ≤ length vs
    → ⊥
crowded v vs ks (first, apart) within long =
    All-In (Differs v) v vs first
      (pigeonhole vs ks apart (λ b i. within b (inr i)) long v (within v (inl refl))) refl

-- The error names a Configuration that lies on a cycle.
abbrev pub Refused : List Resource → Error → Type 0
Refused cs e =
    (name : String) × Reaches cs name name
    × (e ≡ operator_error "DependencyCycle" ("Configuration dependency cycle at " <> name))

module _ (cs : List Resource) (readable : All IsReadable cs) where
  abbrev indexed : Index
  indexed = index_from [] cs

  -- The calls of `visit` under way: distinct names, each of which reaches the one now called.
  record Under (n : ℕ) (visiting : List String) (name : String) : Type 0 where
    enough : suc (length (keys indexed)) ≤ n + length visiting
    distinct : Apart Differs visiting
    within : (a : String) → In a visiting → In a (keys indexed)
    here : has name indexed ≡ true
    reaches : (a : String) → In a visiting → Reaches cs a name

  -- A failing call shows a cycle, where it is called on a Configuration that `name` depends on.
  abbrev Blames : String → (String → Walk → Result Walk) → Type 0
  Blames name down =
      (d : String) (w : Walk) (e : Error) → DependsOn cs name d → down d w ≡ err e → Refused cs e

  owner-IsReadable : (name : String) (c : Resource) → lookup name indexed ≡ some c → IsReadable c
  owner-IsReadable name c e = All-In IsReadable c cs readable (lookup-indexed cs name c e).1

  visit_all-Cycle :
      (name : String) (c : Resource) (all_refs refs : List Dict)
      (down : String → Walk → Result Walk) (w : Walk) (e : Error)
      → lookup name indexed ≡ some c
      → dependencies c ≡ ok all_refs
      → ((r : Dict) → In r refs → In r all_refs)
      → All IsNamed refs
      → Blames name down
      → visit_all indexed down refs w ≡ err e
      → Refused cs e
  unfolding visit_all down_if
  visit_all-Cycle name c all_refs [] down w e found r sub named blames h = absurd (cc)
  visit_all-Cycle name c all_refs (ref ∷ refs) down w e found r sub ((d, read), named) blames h =
      elim (bind-eq-err (json_string (get ref "name") "dependency name")
        (λ d. down_if down d w (has d indexed) >>= visit_all indexed down refs) h) [
          | inl failed ↦ absurd (cc)
          | inr (d2, read2, h1) ↦
              let same : d ≡ d2 = ok_injective (sym read ∙ read2) in
              elim (bind-eq-err (down_if down d2 w (has d2 indexed)) (visit_all indexed down refs)
                h1) [
                  | inl failed ↦ stopped d2 (has d2 indexed) refl read2 failed
                  | inr (next, went, h2) ↦
                      visit_all-Cycle name c all_refs refs down next e found r
                        (λ x i. sub x (inr i)) named blames h2
                ]
        ]
    where
      stopped :
          (t : String) (b : Bool)
          → has t indexed ≡ b
          → json_string (get ref "name") "dependency name" ≡ ok t
          → down_if down t w b ≡ err e
          → Refused cs e
      stopped t true k n f =
          blames t w e
            (record {
              owner = c;
              found = found;
              refs = all_refs;
              reads = r;
              ref = ref;
              among = sub ref (inl refl);
              names_it = n;
              given = k;
            })
            f
      stopped t false k n f = absurd (cc)

  enter-Cycle :
      (name : String) (down : String → Walk → Result Walk) (w : Walk) (e : Error)
      → has name indexed ≡ true
      → Blames name down
      → enter indexed down name w ≡ err e
      → Refused cs e
  unfolding enter entry
  enter-Cycle name down w e here blames h =
      let (c, found) = has-lookup name indexed here in
      let (refs, reads, named) = owner-IsReadable name c found in
      let walked : visit_all indexed down refs w ≡ err e = ground arith in
      visit_all-Cycle name c refs refs down w e found reads (λ r i. i) named blames walked

  visit-Cycle :
      (n : ℕ) (visiting : List String) (name : String) (w : Walk) (e : Error)
      → Under n visiting name
      → visit n indexed visiting name w ≡ err e
      → Refused cs e
  unfolding visit
  visit-Cycle zero [] name w e u h = absurd (omega (arith, u.enough))
  visit-Cycle zero (v ∷ vs) name w e u h =
      absurd (crowded v vs (keys indexed) u.distinct u.within (omega (arith, u.enough)))
  visit-Cycle (suc n) visiting name w e u h = elim (Bool-cases (member name visiting)) [
    | inl again ↦ (name, u.reaches name (member-In name visiting again), reported again)
    | inr apart ↦
        enter-Cycle name (visit n indexed (name ∷ visiting)) w e u.here
          (λ d x f depends h1. visit-Cycle n (name ∷ visiting) d x f (deeper apart d depends) h1)
          (entered apart)
  ]
    where
      reported :
          member name visiting ≡ true
          → e ≡ operator_error "DependencyCycle" ("Configuration dependency cycle at " <> name)
      reported again = ground arith

      entered :
          member name visiting ≡ false
          → enter indexed (visit n indexed (name ∷ visiting)) name w ≡ err e
      entered apart = ground arith

      differ : member name visiting ≡ false → (b : String) → In b visiting → name ≢ b
      differ apart b i same = cc (In-member name visiting (subst (λ x. In x visiting) (sym same) i))

      deeper :
          member name visiting ≡ false
          → (d : String) → DependsOn cs name d
          → Under n (name ∷ visiting) d
      deeper apart d depends = record {
        enough = omega (arith, u.enough);
        distinct = (All-of_In (Differs name) visiting (differ apart), u.distinct);
        within = λ a m. elim m [
          | inl same ↦ subst (λ x. In x (keys indexed)) (sym same) (has-keys name indexed u.here)
          | inr i ↦ u.within a i
        ];
        here = depends.given;
        reaches = λ a m. elim m [
          | inl same ↦ one (subst (λ x. DependsOn cs x d) (sym same) depends)
          | inr i ↦ more (u.reaches a i) depends
        ];
      }

  visit_each-Cycle :
      (n : ℕ) (ns : List String) (w : Walk) (e : Error)
      → length (keys indexed) ≤ n
      → ((a : String) → In a ns → has a indexed ≡ true)
      → visit_each (suc n) indexed ns w ≡ err e
      → Refused cs e
  unfolding visit_each
  visit_each-Cycle n [] w e enough given h = absurd (cc)
  visit_each-Cycle n (name ∷ ns) w e enough given h =
      elim (bind-eq-err (visit (suc n) indexed [] name w) (visit_each (suc n) indexed ns) h) [
        | inl failed ↦
            visit-Cycle (suc n) [] name w e
              (record {
                enough = omega arith;
                distinct = tt;
                within = λ a m. absurd m;
                here = given name (inl refl);
                reaches = λ a m. absurd m;
              })
              failed
        | inr (next, went, h1) ↦ visit_each-Cycle n ns next e enough (λ a m. given a (inr m)) h1
      ]

-- Of Configurations whose references can all be read, dependency_order returns an order, or it
-- raises DependencyCycle with the name of a Configuration that reaches itself along references: it
-- has no other outcome, so that the walk ends and its bound is never reached.
pub dependency_order-Total :
    (cs : List Resource)
    → All IsReadable cs
    → ((ordered : List Resource) × (dependency_order cs ≡ ok ordered))
      ⊎ ((e : Error) × (dependency_order cs ≡ err e) × Refused cs e)
unfolding dependency_order walk
dependency_order-Total cs readable = elim (Result-cases (walk (index_from [] cs))) [
  | inl (w, e) ↦ inl (w.ordered, returns w e)
  | inr (e, failed) ↦ inr (
    e,
    raises e failed,
    visit_each-Cycle cs readable (length (keys (index_from [] cs)))
        (sort_texts (keys (index_from [] cs))) (record { visited = []; ordered = [] }) e
        (omega arith)
        (λ a m. keys-has a (index_from [] cs) ((sort_texts-In a (keys (index_from [] cs))).0 m))
        failed,
  )
]
  where
    returns :
        (w : Walk)
        → visit_each
            (suc (length (keys (index_from [] cs))))
            (index_from [] cs)
            (sort_texts (keys (index_from [] cs)))
            (record { visited = []; ordered = [] })
          ≡ ok w
        → (visit_each
              (suc (length (keys (index_from [] cs))))
              (index_from [] cs)
              (sort_texts (keys (index_from [] cs)))
              (record { visited = []; ordered = [] })
            >>= λ w. ok w.ordered)
          ≡ ok w.ordered
    returns w e = ap (λ r. r >>= λ x. ok x.ordered) e

    raises :
        (e : Error)
        → visit_each
            (suc (length (keys (index_from [] cs))))
            (index_from [] cs)
            (sort_texts (keys (index_from [] cs)))
            (record { visited = []; ordered = [] })
          ≡ err e
        → (visit_each
              (suc (length (keys (index_from [] cs))))
              (index_from [] cs)
              (sort_texts (keys (index_from [] cs)))
              (record { visited = []; ordered = [] })
            >>= λ w. ok w.ordered)
          ≡ err e
    raises e failed = ap (λ r. r >>= λ x. ok x.ordered) failed
