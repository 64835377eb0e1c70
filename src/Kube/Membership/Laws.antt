-- ===== src/Kube/Membership/Laws.antt =====
-- membership_observation: the differences between the plan and the Nodes, and when it is ready.
use ansible_roles.Prelude.{
  ◌≡◌, refl, subst, sym, String, Bool, true, false, not, ◌&&◌, List, [], ◌∷◌, keep, In, All,
  All-of_In, if◌then◌else◌, inl, inr, ◌↔◌, arith,
}
use ansible_roles.Result.{ok, bind-eq-ok, ok_injective}
use ansible_roles.Json.{Json, Dict, get, has, keys}
use ansible_roles.Kube.{mapping, require_list}
use ansible_roles.Text.Sorted.{sort_texts-In}
use ansible_roles.Kube.Registration.{members_by_name}
use ansible_roles.Kube.Membership.{
  actual_nodes, only_in, in_both, inspect_members, Observation, is_empty, membership_observation,
}
use ansible_roles.Kube.Membership.Inspected.{
  IsInspected, inspect_members-Walked, Walked-IsInspected,
}

keep-In :
    (p : String → Bool) (t : String) (ts : List String)
    → In t (keep p ts) ↔ (In t ts × (p t ≡ true))
keep-In p t [] = (λ m. absurd m, λ m. m.0)
keep-In p t (u ∷ us) = go (keep-In p t us) (p u) refl
  where
    go :
        (In t (keep p us) ↔ (In t us × (p t ≡ true)))
        → (b : Bool) → p u ≡ b
        → In t (if b then u ∷ keep p us else keep p us) ↔ (In t (u ∷ us) × (p t ≡ true))
    go rest true e = (
      λ m. elim m [
        | inl q ↦ (inl q, subst (λ t. p t ≡ true) (sym q) e)
        | inr r ↦ let (i, h) = rest.0 r in (inr i, h)
      ],
      λ (m, h). elim m [ inl q ↦ inl q | inr r ↦ inr (rest.1 (r, h)) ],
    )
    go rest false e = (
      λ m. let (i, h) = rest.0 m in (inr i, h),
      λ (m, h). elim m [ inl q ↦ absurd (clash q h) | inr r ↦ rest.1 (r, h) ],
    )
      where
        clash : t ≡ u → p t ≡ true → ⊥
        clash q h = cc

-- A name of the plan that has a Node.
abbrev pub IsBoth : List (String × Dict) → List (String × Dict) → String → Type 0
IsBoth expected actual t = In t (keys expected) × (has t actual ≡ true)

-- The names of the first that the second does not have.
abbrev pub Only : List (String × Dict) → List (String × Dict) → List String → Type 0
Only a b names = (t : String) → In t names ↔ (In t (keys a) × (has t b ≡ false))

only_in-Only : (a b : List (String × Dict)) → Only a b (only_in a b)
unfolding only_in
only_in-Only a b t =
    let sorted = sort_texts-In t (keep (λ name. not (has name b)) (keys a)) in
    let kept = keep-In (λ name. not (has name b)) t (keys a) in
    (
      λ m. let (i, h) = kept.0 (sorted.0 m) in (i, ground arith),
      λ (i, h). sorted.1 (kept.1 (i, ground arith)),
    )

-- No list of the observation names anything.
abbrev pub IsSettled : Observation → Type 0
IsSettled o =
    (o.missing_members ≡ [])
    × (o.unexpected_nodes ≡ [])
    × (o.not_ready_members ≡ [])
    × (o.identity_conflicts ≡ [])

empty_iff : (ss : List String) → (is_empty ss ≡ true) ↔ (ss ≡ [])
empty_iff [] = (λ h. refl, λ h. refl)
empty_iff (s ∷ ss) = (λ h. cc, λ h. cc)

all_empty_iff :
    (a b c d : List String)
    → ((is_empty a && is_empty b && is_empty c && is_empty d) ≡ true)
      ↔ ((a ≡ []) × (b ≡ []) × (c ≡ []) × (d ≡ []))
all_empty_iff a b c d =
    let (fa, ta) = empty_iff a in
    let (fb, tb) = empty_iff b in
    let (fc, tc) = empty_iff c in
    let (fd, td) = empty_iff d in
    (
      λ h. (fa (ground arith), fb (ground arith), fc (ground arith), fd (ground arith)),
      λ (pa, pb, pc, pd). all_true (ta pa) (tb pb) (tc pc) (td pd),
    )
  where
    all_true :
        {x y z w : Bool} → x ≡ true → y ≡ true → z ≡ true → w ≡ true → (x && y && z && w) ≡ true
    all_true p q r s = ground arith

-- The expected and the actual Nodes of the observation, by name.
abbrev pub IsObservation : Json → Json → Observation → Type 0
IsObservation raw_plan raw_response o =
    (expected actual : List (String × Dict)) × (response : Dict) × (items : List Json)
    × (members_by_name raw_plan ≡ ok expected)
    × (mapping raw_response "Node list" ≡ ok response)
    × (require_list (get response "items") "Actual Nodes must be an array" ≡ ok items)
    × (actual_nodes items [] ≡ ok actual)
    × Only expected actual o.missing_members
    × Only actual expected o.unexpected_nodes
    × All (IsBoth expected actual) o.identity_conflicts
    × All (IsBoth expected actual) o.not_ready_members
    × All (IsInspected raw_plan expected actual o.identity_conflicts o.not_ready_members)
        (keep (λ name. has name actual) (keys expected))
    × ((o.ready ≡ true) ↔ IsSettled o)

-- If membership_observation returns, the missing members are exactly the plan's names without a
-- Node, and the unexpected Nodes exactly those that the plan does not name. The two other lists name
-- only members that have a Node. Such a member is in the list of conflicts exactly where its Node
-- has another value than the member's Server UID, the plan's cluster UID and the empty text for one
-- of the three labels, and it is unready exactly where no condition of its Node has the type Ready
-- and the status True. And `ready` holds exactly where all four lists are empty.
pub membership_observation-IsObservation :
    (raw_plan raw_response : Json) (o : Observation)
    → membership_observation raw_plan raw_response ≡ ok o
    → IsObservation raw_plan raw_response o
unfolding membership_observation in_both
membership_observation-IsObservation raw_plan raw_response o h =
    let (expected, e, h1) = bind-eq-ok (members_by_name raw_plan) _ h in
    let (response, r, h2) = bind-eq-ok (mapping raw_response "Node list") _ h1 in
    let (items, i, h3) =
      bind-eq-ok (require_list (get response "items") "Actual Nodes must be an array") _ h2 in
    let (actual, a, h4) = bind-eq-ok (actual_nodes items []) _ h3 in
    let (found, f, h5) =
      bind-eq-ok (inspect_members raw_plan expected actual (in_both expected actual)) _ h4 in
    let both = keep (λ name. has name actual) (keys expected) in
    let walked =
      inspect_members-Walked raw_plan expected actual (in_both expected actual) found.0 found.1 f in
    let member = λ (t : String). keep-In (λ name. has name actual) t (keys expected) in
    subst (IsObservation raw_plan raw_response) (ok_injective h5) (
      expected,
      actual,
      response,
      items,
      e,
      r,
      i,
      a,
      only_in-Only expected actual,
      only_in-Only actual expected,
      All-of_In (IsBoth expected actual) found.0
          (λ t m. (member t).0 ((sort_texts-In t both).0 ((walked t).1 m).0)),
      All-of_In (IsBoth expected actual) found.1
          (λ t m. (member t).0 ((sort_texts-In t both).0 ((walked t).2 m).0)),
      All-of_In (IsInspected raw_plan expected actual found.0 found.1) both (λ t m.
          Walked-IsInspected raw_plan expected actual (in_both expected actual) found.0 found.1 t
            (walked t) ((sort_texts-In t both).1 m)),
      all_empty_iff (only_in expected actual) (only_in actual expected) found.1 found.0,
    )
