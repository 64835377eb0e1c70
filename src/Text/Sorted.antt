-- ===== src/Text/Sorted.antt =====
-- sorted: the sorted texts are the texts.
use ansible_roles.Prelude.{
  String, true, false, Bool, List, [], ◌∷◌, In, if◌then◌else◌, inl, inr, ◌⊎◌, ◌↔◌, ◌≡◌,
}
use ansible_roles.Text.{str_leb, insert_text, sort_texts}

insert_text-In : (s t : String) (ts : List String) → In t (insert_text s ts) ↔ ((t ≡ s) ⊎ In t ts)
unfolding insert_text
insert_text-In s t [] = (λ m. m, λ m. m)
insert_text-In s t (u ∷ us) = go (insert_text-In s t us) (str_leb s u)
  where
    go :
        (In t (insert_text s us) ↔ ((t ≡ s) ⊎ In t us))
        → (b : Bool)
        → In t (if b then s ∷ u ∷ us else u ∷ insert_text s us) ↔ ((t ≡ s) ⊎ In t (u ∷ us))
    go later true = (λ m. m, λ m. m)
    go later false = (
      λ m. elim m [
        | inl e ↦ inr (inl e)
        | inr r ↦ elim (later.0 r) [ inl e ↦ inl e | inr q ↦ inr (inr q) ]
      ],
      λ m. elim m [
        | inl e ↦ inr (later.1 (inl e))
        | inr r ↦ elim r [ inl e ↦ inl e | inr q ↦ inr (later.1 (inr q)) ]
      ],
    )

pub sort_texts-In : (t : String) (ts : List String) → In t (sort_texts ts) ↔ In t ts
unfolding sort_texts
sort_texts-In t [] = (λ m. m, λ m. m)
sort_texts-In t (u ∷ us) =
    let rest = sort_texts-In t us in
    let first = insert_text-In u t (sort_texts us) in
    (
      λ m. elim (first.0 m) [ inl e ↦ inl e | inr r ↦ inr (rest.0 r) ],
      λ m. elim m [ inl e ↦ first.1 (inl e) | inr r ↦ first.1 (inr (rest.1 r)) ],
    )
