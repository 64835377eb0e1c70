-- ===== src/Operators/Common/Keys.antt =====
-- Ed25519 host keys: public_key and fingerprint of operators/common.py, over a library that
-- decodes and encodes Base64 and computes SHA-256.
use ansible_roles.Prelude.{
  ℕ, zero, suc, ◌<>◌, String, code, Bool, true, false, not, ◌&&◌, ◌||◌, List, [], ◌∷◌, leb, ◌==◌,
  nat_eq, string_eq, if◌then◌else◌, any, length,
}
use ansible_roles.Text.{codes}
use ansible_roles.Result.{Result, ok, err, runtime_error, ◌>>=◌, ◌>>◌, raise_if}

pub record Crypto : Type 0 where
  pub decode64 : String → Result (List ℕ)
  pub encode64 : List ℕ → String
  pub sha256 : List ℕ → List ℕ

-- The characters that `str.split()` takes for space.
unfoldable pub is_space : ℕ → Bool
is_space c =
    leb 9 c && leb c 13
    || leb 28 c && leb c 32
    || any (λ d. d == c) (0x85 ∷ 0xA0 ∷ 0x1680 ∷ 0x2028 ∷ 0x2029 ∷ 0x202F ∷ 0x205F ∷ 0x3000 ∷ [])
    || leb 0x2000 c && leb c 0x200A

-- The pieces between single spaces; the empty ones stand between adjacent spaces.
unfoldable pub pieces : String → List String
pieces String.[] = String.[] ∷ []
pieces (String.◌∷◌ c s) =
    let rest = pieces s in if is_space (code c) then String.[] ∷ rest else on_first rest
  where
    on_first : List String → List String
    on_first [] = []
    on_first (p ∷ ps) = String.◌∷◌ c p ∷ ps

unfoldable pub nonempty : List String → List String
nonempty [] = []
nonempty (s ∷ ss) = let rest = nonempty ss in if s == "" then rest else s ∷ rest

-- `value.strip().split()`
unfoldable pub words : String → List String
words s = nonempty (pieces s)

-- `raw[:n]` and `raw[n:]`
unfoldable pub take : ℕ → List ℕ → List ℕ
take zero xs = []
take (suc n) [] = []
take (suc n) (x ∷ xs) = x ∷ take n xs

unfoldable pub drop : ℕ → List ℕ → List ℕ
drop zero xs = xs
drop (suc n) [] = []
drop (suc n) (x ∷ xs) = drop n xs

unfoldable pub same_bytes : List ℕ → List ℕ → Bool
same_bytes [] [] = true
same_bytes [] (y ∷ ys) = false
same_bytes (x ∷ xs) [] = false
same_bytes (x ∷ xs) (y ∷ ys) = x == y && same_bytes xs ys

abbrev algorithm : String
algorithm = "ssh-ed25519"

-- The wire format: a four-byte length and the algorithm, a four-byte length and 32 bytes.
unfoldable pub is_ed25519 : List ℕ → Bool
is_ed25519 raw =
    same_bytes (take 4 raw) (0 ∷ 0 ∷ 0 ∷ 11 ∷ [])
    && same_bytes (take 11 (drop 4 raw)) (codes algorithm)
    && same_bytes (take 4 (drop 15 raw)) (0 ∷ 0 ∷ 0 ∷ 32 ∷ [])
    && length raw == 51

module _ (crypto : Crypto) where
  unfoldable pub public_key_fields : List String → Result (String × List ℕ)
  public_key_fields (label ∷ body ∷ more) = do
    raise_if (not (label == algorithm)) (runtime_error "An Ed25519 host key is required")
    raw ← crypto.decode64 body
    raise_if (not (is_ed25519 raw)) (runtime_error "Invalid Ed25519 host key encoding")
    ok (label <> " " <> body, raw)
  public_key_fields _ = err (runtime_error "An Ed25519 host key is required")

  unfoldable pub public_key : String → Result String
  public_key value = do both ← public_key_fields (words value); ok both.0

  -- `text.rstrip("=")`
  unfoldable pub strip_equals : String → String
  strip_equals String.[] = String.[]
  strip_equals (String.◌∷◌ c s) =
      let rest = strip_equals s in
      if code c == 61 && rest == "" then String.[] else String.◌∷◌ c rest

  -- The fingerprint of a normalized key is that of its second field.
  unfoldable pub fingerprint : String → Result String
  fingerprint key = do
    normalized ← public_key key
    raw ← second_field (words normalized)
    ok ("SHA256:" <> strip_equals (crypto.encode64 (crypto.sha256 raw)))
    where
      second_field : List String → Result (List ℕ)
      second_field (label ∷ body ∷ more) = crypto.decode64 body
      second_field _ = err (runtime_error "An Ed25519 host key is required")
