-- ===== src/Kube/Members/Sort.antt =====
-- `sorted` keeps the members: none is lost, added or doubled.
use ansible_roles.Prelude.{
  ◌≡◌, refl, ◌∙◌, inl, inr, Bool, List, [], ◌∷◌, length, keep, All, Apart, In, arith, Bool-cases,
}
use ansible_roles.Text.{str_leb}
use ansible_roles.Kube.Members.{Member, insert_member, sort_members}

In-insert_member : (m n : Member) (ms : List Member) → In m (n ∷ ms) → In m (insert_member n ms)
unfolding insert_member
In-insert_member m n [] i = i
In-insert_member m n (k ∷ ks) i = ground (arith, In-insert_member m n ks)

pub In-sort_members : (m : Member) (ms : List Member) → In m ms → In m (sort_members ms)
unfolding sort_members
In-sort_members m [] i = i
In-sort_members m (n ∷ ns) (inl e) = In-insert_member m n (sort_members ns) (inl e)
In-sort_members m (n ∷ ns) (inr i) =
    In-insert_member m n (sort_members ns) (inr (In-sort_members m ns i))

In-of_insert_member : (m n : Member) (ms : List Member) → In m (insert_member n ms) → In m (n ∷ ms)
unfolding insert_member
In-of_insert_member m n [] i = i
In-of_insert_member m n (k ∷ ks) i = ground (arith, In-of_insert_member m n ks)

pub In-of_sort_members : (m : Member) (ms : List Member) → In m (sort_members ms) → In m ms
unfolding sort_members
In-of_sort_members m [] i = i
In-of_sort_members m (n ∷ ns) i = elim (In-of_insert_member m n (sort_members ns) i) [
  | inl e ↦ inl e
  | inr j ↦ inr (In-of_sort_members m ns j)
]

module _ (P : Member → Type 0) where
  All-insert_member : (m : Member) (ms : List Member) → P m → All P ms → All P (insert_member m ms)
  unfolding insert_member
  All-insert_member m [] p h = (p, tt)
  All-insert_member m (n ∷ ns) p h = elim (Bool-cases (str_leb m.name n.name)) [
    | inl e ↦ rw e (p, h)
    | inr e ↦ rw e (h.0, All-insert_member m ns p h.1)
  ]

  pub All-sort_members : (ms : List Member) → All P ms → All P (sort_members ms)
  unfolding sort_members
  All-sort_members [] h = tt
  All-sort_members (m ∷ ms) h = All-insert_member m (sort_members ms) h.0 (All-sort_members ms h.1)

module _ (R : Member → Member → Type 0) (symmetric : (m n : Member) → R m n → R n m) where
  Apart-insert_member :
      (m : Member) (ms : List Member) → All (R m) ms → Apart R ms → Apart R (insert_member m ms)
  unfolding insert_member
  Apart-insert_member m [] h a = (tt, tt)
  Apart-insert_member m (n ∷ ns) h a = elim (Bool-cases (str_leb m.name n.name)) [
    | inl e ↦ rw e (h, a)
    | inr e ↦
        rw e
          (All-insert_member (R n) m ns (symmetric m n h.0) a.0, Apart-insert_member m ns h.1 a.1)
  ]

  pub Apart-sort_members : (ms : List Member) → Apart R ms → Apart R (sort_members ms)
  unfolding sort_members
  Apart-sort_members [] a = tt
  Apart-sort_members (m ∷ ms) a =
      Apart-insert_member m (sort_members ms) (All-sort_members (R m) ms a.0)
        (Apart-sort_members ms a.1)

module _ (p : Member → Bool) where
  count-insert_member :
      (m : Member) (ms : List Member)
      → length (keep p (insert_member m ms)) ≡ length (keep p (m ∷ ms))
  unfolding insert_member
  count-insert_member m [] = refl
  count-insert_member m (n ∷ ns) = ground (arith, count-insert_member m ns)

  -- Sorting changes no count.
  pub count-sort_members :
      (ms : List Member) → length (keep p (sort_members ms)) ≡ length (keep p ms)
  unfolding sort_members
  count-sort_members [] = refl
  count-sort_members (m ∷ ms) =
      count-insert_member m (sort_members ms) ∙ (ground (arith, count-sort_members ms))
