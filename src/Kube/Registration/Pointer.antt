-- ===== src/Kube/Registration/Pointer.antt =====
-- The keys of the label patch are JSON Pointer tokens (RFC 6901).
use Prim.Native.String
use Prim.Native.String.append.{nil, cons}
use ansible_roles.Prelude.{
  ℕ, ◌≡◌, refl, sym, ap, ◌<>◌, map, ◌∙◌, String, code, Bool, true, false, List, [], ◌∷◌, ◌++◌,
  arith, any, ◌==◌, nat_eq, if◌then◌else◌,
}
use ansible_roles.Text.{codes, replace, has_code}
use ansible_roles.Result.{ok, bind-eq-ok, ok_injective}
use ansible_roles.Json.{Json, str, obj, end, Dict, get_or, index}
use ansible_roles.Kube.{mapping}
use ansible_roles.Kube.Registration.{
  PatchOp, test, add, escape, guard_ops, label_op, drop_ops, managed_label_patch,
}

-- How a token is read, by its code points: `~0` is `~` and `~1` is `/`. `pending` says that a `~`
-- was just read.
abbrev pub unescape : Bool → List ℕ → List ℕ
unescape pending [] = []
unescape true (d ∷ cs) = (if d == 48 then 126 else (if d == 49 then 47 else d)) ∷ unescape false cs
unescape false (c ∷ cs) = elim (c == 126) [
  | true ↦ unescape true cs
  | false ↦ c ∷ unescape false cs
]

-- What the two replacements write for the code points of a text.
abbrev hide_tilde : List ℕ → List ℕ
hide_tilde [] = []
hide_tilde (c ∷ cs) = let rest = hide_tilde cs in if c == 126 then 126 ∷ 48 ∷ rest else c ∷ rest

abbrev hide_slash : List ℕ → List ℕ
hide_slash [] = []
hide_slash (c ∷ cs) = let rest = hide_slash cs in if c == 47 then 126 ∷ 49 ∷ rest else c ∷ rest

codes-append : (s t : String) → codes (String.◌++◌ s t) ≡ codes s ++ codes t
codes-append String.[] t = λ i. codes (nil t i)
codes-append (String.◌∷◌ c s) t =
    (λ i. codes (cons c s t i)) ∙ ap (λ r. code c ∷ r) (codes-append s t)

codes-replace_tilde : (s : String) → codes (replace 126 "~0" s) ≡ hide_tilde (codes s)
unfolding replace
codes-replace_tilde String.[] = refl
codes-replace_tilde (String.◌∷◌ c s) = go (code c == 126) (codes-replace_tilde s)
  where
    go :
        (b : Bool)
        → codes (replace 126 "~0" s) ≡ hide_tilde (codes s)
        → codes
            (if b then String.◌++◌ "~0" (replace 126 "~0" s) else String.◌∷◌ c (replace 126 "~0" s))
          ≡ (if b then 126 ∷ 48 ∷ hide_tilde (codes s) else code c ∷ hide_tilde (codes s))
    go true h = codes-append "~0" (replace 126 "~0" s) ∙ ap (λ r. 126 ∷ 48 ∷ r) h
    go false h = ap (λ r. code c ∷ r) h

codes-replace_slash : (s : String) → codes (replace 47 "~1" s) ≡ hide_slash (codes s)
unfolding replace
codes-replace_slash String.[] = refl
codes-replace_slash (String.◌∷◌ c s) = go (code c == 47) (codes-replace_slash s)
  where
    go :
        (b : Bool)
        → codes (replace 47 "~1" s) ≡ hide_slash (codes s)
        → codes
            (if b then String.◌++◌ "~1" (replace 47 "~1" s) else String.◌∷◌ c (replace 47 "~1" s))
          ≡ (if b then 126 ∷ 49 ∷ hide_slash (codes s) else code c ∷ hide_slash (codes s))
    go true h = codes-append "~1" (replace 47 "~1" s) ∙ ap (λ r. 126 ∷ 49 ∷ r) h
    go false h = ap (λ r. code c ∷ r) h

unescape-hide : (cs : List ℕ) → unescape false (hide_slash (hide_tilde cs)) ≡ cs
unescape-hide [] = refl
unescape-hide (c ∷ cs) = ground (arith, unescape-hide cs)

hide-slash_free : (cs : List ℕ) → any (λ d. d == 47) (hide_slash cs) ≡ false
hide-slash_free [] = refl
hide-slash_free (c ∷ cs) = ground (arith, hide-slash_free cs)

unescape-escape :
    (key : String)
    → (has_code 47 (escape key) ≡ false) × (unescape false (codes (escape key)) ≡ codes key)
unfolding escape has_code
unescape-escape key =
    let tilde = codes-replace_tilde key in
    let slash = codes-replace_slash (replace 126 "~0" key) in
    (
      ap (any (λ d. d == 47)) slash ∙ hide-slash_free (codes (replace 126 "~0" key)),
      ap (unescape false) (slash ∙ ap hide_slash tilde) ∙ unescape-hide (codes key),
    )

-- The operation adds one label, at a path whose last token is without `/` and is read as the key.
abbrev pub Adds : String × String → PatchOp → Type 0
Adds (key, value) op =
    (token : String) × (op ≡ add ("/metadata/labels/" <> token) (str value))
    × (has_code 47 token ≡ false)
    × (unescape false (codes token) ≡ codes key)

-- One operation for each label, in order.
abbrev pub AddEach : List (String × String) → List PatchOp → Type 0
AddEach [] [] = Unit
AddEach [] (op ∷ ops) = ⊥
AddEach (label ∷ labels) [] = ⊥
AddEach (label ∷ labels) (op ∷ ops) = Adds label op × AddEach labels ops

label_op-AddEach : (labels : List (String × String)) → AddEach labels (map label_op labels)
label_op-AddEach [] = tt
label_op-AddEach ((key, value) ∷ labels) =
    let (whole, reads) = unescape-escape key in
    ((escape key, refl, whole, reads), label_op-AddEach labels)

abbrev pub WritesLabels : Dict → List (String × String) → String → List PatchOp → Type 0
WritesLabels metadata desired opposite patch =
    (labels : Dict) × (uid : Json) × (guards adds : List PatchOp) × (mapping
        (get_or metadata "labels" (obj end)) "Node labels"
      ≡ ok labels)
    × (guard_ops metadata labels ≡ ok guards)
    × (patch ≡ test "/metadata/uid" uid ∷ (guards ++ (adds ++ drop_ops opposite labels)))
    × AddEach desired adds

-- Between its guards and the removal of the opposite role, the patch that managed_label_patch
-- returns adds exactly the desired labels, in order, each with its value and at a JSON Pointer under
-- `/metadata/labels` of one token: the token holds no `/`, and unescaping it gives the code points of
-- the key, whatever these are.
pub managed_label_patch-WritesLabels :
    (metadata : Dict) (desired : List (String × String)) (opposite : String) (patch : List PatchOp)
    → managed_label_patch metadata desired opposite ≡ ok patch
    → WritesLabels metadata desired opposite patch
unfolding managed_label_patch
managed_label_patch-WritesLabels metadata desired opposite patch h =
    let (uid, u, h1) = bind-eq-ok (index metadata "uid") _ h in
    let (labels, l, h2) =
      bind-eq-ok (mapping (get_or metadata "labels" (obj end)) "Node labels") _ h1 in
    let (guards, g, h3) = bind-eq-ok (guard_ops metadata labels) _ h2 in
    (
      labels,
      uid,
      guards,
      map label_op desired,
      l,
      g,
      sym (ok_injective h3),
      label_op-AddEach desired,
    )
