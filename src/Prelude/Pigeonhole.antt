-- ===== src/Prelude/Pigeonhole.antt =====
-- A list without repetitions that lies in another list, and is as long, holds all of it.
use Prim.Native.Nat.{suc, ◌≤◌}
use mathlib.Core.Path.{◌≡◌, refl, sym, ◌∙◌}
use mathlib.Core.Logic.{◌≢◌, ◌⊎◌, inl, inr}
use mathlib.Core.List.{List, [], ◌∷◌}
use native.Mathlib.Omega.{arith}
use ansible_roles.Prelude.Lists.{length, All, Apart, In}

module _ {A : Type 0} where
  delete : (a : A) (ys : List A) → In a ys → List A
  delete a [] m = []
  delete a (y ∷ ys) (inl e) = ys
  delete a (y ∷ ys) (inr m) = y ∷ delete a ys m

  length-delete : (a : A) (ys : List A) (m : In a ys) → suc (length (delete a ys m)) ≡ length ys
  unfolding delete
  length-delete a [] m = absurd m
  length-delete a (y ∷ ys) (inl e) = refl
  length-delete a (y ∷ ys) (inr m) = omega (arith, length-delete a ys m)

  In-delete : (a b : A) (ys : List A) (m : In a ys) → b ≢ a → In b ys → In b (delete a ys m)
  unfolding delete
  In-delete a b [] m ne i = i
  In-delete a b (y ∷ ys) (inl e) ne (inl f) = absurd (ne (f ∙ sym e))
  In-delete a b (y ∷ ys) (inl e) ne (inr i) = i
  In-delete a b (y ∷ ys) (inr m) ne (inl f) = inl f
  In-delete a b (y ∷ ys) (inr m) ne (inr i) = inr (In-delete a b ys m ne i)

  In-of_delete : (a b : A) (ys : List A) (m : In a ys) → In b ys → (b ≡ a) ⊎ In b (delete a ys m)
  unfolding delete
  In-of_delete a b [] m i = absurd m
  In-of_delete a b (y ∷ ys) (inl e) (inl f) = inl (f ∙ sym e)
  In-of_delete a b (y ∷ ys) (inl e) (inr i) = inr i
  In-of_delete a b (y ∷ ys) (inr m) (inl f) = inr (inl f)
  In-of_delete a b (y ∷ ys) (inr m) (inr i) = elim (In-of_delete a b ys m i) [
    | inl f ↦ inl f
    | inr j ↦ inr (inr j)
  ]

  abbrev Differs : A → A → Type 0
  Differs x y = x ≢ y

  keep_others :
      (x : A) (xs ys : List A) (m : In x ys)
      → All (Differs x) xs
      → ((b : A) → In b xs → In b ys)
      → (b : A) → In b xs
      → In b (delete x ys m)
  keep_others x [] ys m apart within b i = absurd i
  keep_others x (z ∷ zs) ys m (ne, apart) within b (inl e) =
      In-delete x b ys m (λ f. ne (sym f ∙ e)) (within b (inl e))
  keep_others x (z ∷ zs) ys m (ne, apart) within b (inr i) =
      keep_others x zs ys m apart (λ c j. within c (inr j)) b i

  pub pigeonhole :
      (xs ys : List A)
      → Apart Differs xs
      → ((b : A) → In b xs → In b ys)
      → length ys ≤ length xs
      → (b : A) → In b ys
      → In b xs
  pigeonhole [] [] apart within short b i = i
  pigeonhole [] (y ∷ ys) apart within short b i = absurd (omega arith)
  pigeonhole (x ∷ xs) ys (first, apart) within short b i =
      let m : In x ys = within x (inl refl) in
      let rest : In b (delete x ys m) → In b xs =
        pigeonhole xs (delete x ys m) apart (keep_others x xs ys m first (λ c j. within c (inr j)))
          (omega (arith, length-delete x ys m)) b in
      elim (In-of_delete x b ys m i) [ inl e ↦ inl e | inr j ↦ inr (rest j) ]
