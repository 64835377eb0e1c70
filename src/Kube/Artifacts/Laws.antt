-- ===== src/Kube/Artifacts/Laws.antt =====
-- installed_artifacts: exactly the reviewed binaries, with the checksums of the protected manifest.
use ansible_roles.Prelude.{
  ℕ, ◌≤◌, ◌≡◌, refl, sym, subst, ap, String, Bool, true, not, ◌&&◌, ◌||◌, ◌⊎◌, inl, inr, ◌↔◌, List,
  [], ◌∷◌, map, all, All, length, leb, arith, ◌==◌, nat_eq, string_eq, and_split, Bool-cases,
}
use ansible_roles.Text.{codes}
use ansible_roles.Result.{ok, bind-eq-ok, raise_if-eq-ok, ok_injective}
use ansible_roles.Json.{Json, str, Dict, get, has, index}
use ansible_roles.Kube.{mapping, text}
use ansible_roles.Kube.Boundary.{text-eq-ok}
use ansible_roles.Kube.Artifacts.{
  components, is_sha256, same_keys, Artifact, manifest, installed_artifacts,
}

-- 64 digits, each of 0 to 9 or a to f.
abbrev pub IsHex : ℕ → Type 0
IsHex c = ((48 ≤ c) × (c ≤ 57)) ⊎ ((97 ≤ c) × (c ≤ 102))

abbrev pub IsDigest : String → Type 0
IsDigest s = (length (codes s) ≡ 64) × All IsHex (codes s)

all-IsHex :
    (cs : List ℕ)
    → all (λ c. leb 48 c && leb c 57 || leb 97 c && leb c 102) cs ≡ true
    → All IsHex cs
all-IsHex [] h = tt
all-IsHex (c ∷ cs) h = (digit c (ground arith), all-IsHex cs (ground arith))
  where
    digit : (c : ℕ) → (leb 48 c && leb c 57 || leb 97 c && leb c 102) ≡ true → IsHex c
    digit c h = ground arith

is_sha256-IsDigest : (s : String) → is_sha256 s ≡ true → IsDigest s
unfolding is_sha256
is_sha256-IsDigest s h =
    let (long, digits) = and_split (length (codes s) == 64) _ h in
    ((nat_eq.same_iff (length (codes s)) 64).0 long, all-IsHex (codes s) digits)

-- The two list the same names.
abbrev pub SameNames : Dict → List (String × String) → Type 0
SameNames files wanted = (path : String) → (has path files ≡ true) ↔ (has path wanted ≡ true)

all-has :
    {V : Type 0} (p : String → Bool) (d : List (String × V)) (path : String)
    → all (λ (key, _). p key) d ≡ true
    → has path d ≡ true
    → p path ≡ true
all-has p [] path h m = cc
all-has p ((key, v) ∷ d) path h m = elim (Bool-cases (path == key)) [
  | inl e ↦
      subst (λ k. p k ≡ true) (sym ((string_eq.same_iff path key).0 e))
        (and_split (p key) (all (λ (key, _). p key) d) h).0
  | inr e ↦ all-has p d path (and_split (p key) (all (λ (key, _). p key) d) h).1 (ground arith)
]

same_keys-SameNames :
    (files : Dict) (wanted : List (String × String))
    → same_keys files wanted ≡ true
    → SameNames files wanted
unfolding same_keys
same_keys-SameNames files wanted h path =
    let (one, other) =
      and_split (all (λ (key, _). has key wanted) files) (all (λ (key, _). has key files) wanted)
        h in
    (
      all-has (λ key. has key wanted) files path one,
      all-has (λ key. has key files) wanted path other,
    )

-- The artifact carries the checksum that the manifest gives its path, 64 hexadecimal digits.
abbrev pub IsProtected : Dict → Artifact → Type 0
IsProtected files a = (index files a.dest ≡ ok (str a.checksum)) × IsDigest a.checksum

abbrev pub Lists : Dict → List (String × String) → List Artifact → Type 0
Lists files wanted artifacts =
    (map (λ (a : Artifact). (a.dest, a.component)) artifacts ≡ wanted)
    × All (IsProtected files) artifacts

manifest-Lists :
    (files : Dict) (wanted : List (String × String)) (artifacts : List Artifact)
    → manifest files wanted ≡ ok artifacts
    → Lists files wanted artifacts
unfolding manifest
manifest-Lists files [] artifacts h = subst (Lists files []) (ok_injective h) (refl, tt)
manifest-Lists files ((path, component) ∷ rest) artifacts h =
    let (value, i, h1) = bind-eq-ok (index files path) _ h in
    let (checksum, t, h2) = bind-eq-ok (text value "installed checksum") _ h1 in
    let (valid, h3) = raise_if-eq-ok (not (is_sha256 checksum)) _ _ h2 in
    let (others, o, h4) = bind-eq-ok (manifest files rest) _ h3 in
    let (names, protected) = manifest-Lists files rest others o in
    let is : value ≡ str checksum = text-eq-ok value "installed checksum" t in
    subst (Lists files ((path, component) ∷ rest)) (ok_injective h4) (
      ap (λ ws. (path, component) ∷ ws) names,
      (
        (subst (λ v. index files path ≡ ok v) is i, is_sha256-IsDigest checksum (ground arith)),
        protected,
      ),
    )

-- If installed_artifacts returns, a path is in the protected manifest exactly where it is the path
-- of a reviewed binary, and
-- the result lists each of them once, in the reviewed order and with its component, with the
-- checksum that the manifest gives, which has 64 digits of 0 to 9 and
-- a to f.
pub installed_artifacts-Lists :
    (raw_identity : Json) (artifacts : List Artifact)
    → installed_artifacts raw_identity ≡ ok artifacts
    → (identity files : Dict) × (mapping raw_identity "protected installation" ≡ ok identity)
      × (mapping (get identity "files") "protected binary manifest" ≡ ok files)
      × SameNames files components
      × Lists files components artifacts
unfolding installed_artifacts
installed_artifacts-Lists raw_identity artifacts h =
    let (identity, p, h1) = bind-eq-ok (mapping raw_identity "protected installation") _ h in
    let (files, q, h2) =
      bind-eq-ok (mapping (get identity "files") "protected binary manifest") _ h1 in
    let (exact, h3) = raise_if-eq-ok (not (same_keys files components)) _ _ h2 in
    (
      identity,
      files,
      p,
      q,
      same_keys-SameNames files components (ground arith),
      manifest-Lists files components artifacts h3,
    )
