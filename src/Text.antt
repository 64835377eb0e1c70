-- ===== src/Text.antt =====
-- The operations of Python's `str` and the regular expressions that the program matches, over the
-- code points of a text.
pub mod Sorted
use Prim.Native.Nat.{Ordering}
use Prim.Native.String
use Prim.Native.String.{count, compare}
use ansible_roles.Prelude.{
  ℕ, ◌+◌, ◌-◌, ◌*◌, String, code, Bool, true, false, ◌&&◌, ◌||◌, Option, none, some, List, [], ◌∷◌,
  ltb, leb, ◌==◌, nat_eq, if◌then◌else◌, any, all, last,
}
use ansible_roles.Result.{Result, ok, err, value_error, ◌>>◌, raise_if}

-- Python orders texts by their code points, and so does `compare`.
abbrev pub str_leb : String → String → Bool
str_leb a b = elim (compare a b) [ Ordering.gt ↦ false | _ ↦ true ]

-- sorted(texts)
unfoldable pub insert_text : String → List String → List String
insert_text s [] = s ∷ []
insert_text s (t ∷ ts) =
    let later = t ∷ insert_text s ts in if str_leb s t then s ∷ t ∷ ts else later

unfoldable pub sort_texts : List String → List String
sort_texts [] = []
sort_texts (s ∷ ss) = insert_text s (sort_texts ss)

abbrev pub codes : String → List ℕ
codes String.[] = []
codes (String.◌∷◌ c s) = code c ∷ codes s

-- One character more on the first piece.
abbrev on_first : List String → (String → String) → List String
on_first [] f = []
on_first (p ∷ ps) f = f p ∷ ps

-- `s.split(sep)` for a separator of one character
unfoldable pub split : ℕ → String → List String
split sep String.[] = String.[] ∷ []
split sep (String.◌∷◌ c s) =
    let rest = split sep s in
    if code c == sep then String.[] ∷ rest else on_first rest (String.◌∷◌ c)

-- `s.rpartition(sep)` for a separator of one character; `none` where it does not occur, which the
-- source reads off the empty `separator`.
unfoldable pub rpartition : ℕ → String → Option (String × String)
rpartition sep String.[] = none
rpartition sep (String.◌∷◌ c s) = elim (rpartition sep s) [
  | some (host, port) ↦ some (String.◌∷◌ c host, port)
  | none ↦ if code c == sep then some (String.[], s) else none
]

-- `s.startswith(t)`
unfoldable pub starts_with : String → String → Bool
starts_with s String.[] = true
starts_with String.[] (String.◌∷◌ d t) = false
starts_with (String.◌∷◌ c s) (String.◌∷◌ d t) = (code c == code d) && starts_with s t

-- `s.removeprefix(t)`
abbrev drop_text : String → String → String
drop_text s String.[] = s
drop_text String.[] (String.◌∷◌ d t) = String.[]
drop_text (String.◌∷◌ c s) (String.◌∷◌ d t) = drop_text s t

unfoldable pub remove_prefix : String → String → String
remove_prefix s t = if starts_with s t then drop_text s t else s

-- `s.replace(old, new)` for an `old` of one character
unfoldable pub replace : ℕ → String → String → String
replace old new String.[] = String.[]
replace old new (String.◌∷◌ c s) =
    if code c == old then String.◌++◌ new (replace old new s) else String.◌∷◌ c (replace old new s)

-- The first code point of each run of ten decimal digits in Unicode; 0x1D7CE begins five runs.
abbrev decimal_zeros : List ℕ
decimal_zeros =
    0x30 ∷ 0x660 ∷ 0x6F0 ∷ 0x7C0 ∷ 0x966 ∷ 0x9E6 ∷ 0xA66 ∷ 0xAE6 ∷ 0xB66 ∷ 0xBE6 ∷ 0xC66 ∷ 0xCE6
    ∷ 0xD66 ∷ 0xDE6 ∷ 0xE50 ∷ 0xED0 ∷ 0xF20 ∷ 0x1040 ∷ 0x1090 ∷ 0x17E0 ∷ 0x1810 ∷ 0x1946 ∷ 0x19D0
    ∷ 0x1A80 ∷ 0x1A90 ∷ 0x1B50 ∷ 0x1BB0 ∷ 0x1C40 ∷ 0x1C50 ∷ 0xA620 ∷ 0xA8D0 ∷ 0xA900 ∷ 0xA9D0
    ∷ 0xA9F0 ∷ 0xAA50 ∷ 0xABF0 ∷ 0xFF10 ∷ 0x104A0 ∷ 0x10D30 ∷ 0x11066 ∷ 0x110F0 ∷ 0x11136 ∷ 0x111D0
    ∷ 0x112F0 ∷ 0x11450 ∷ 0x114D0 ∷ 0x11650 ∷ 0x116C0 ∷ 0x11730 ∷ 0x118E0 ∷ 0x11950 ∷ 0x11C50
    ∷ 0x11D50 ∷ 0x11DA0 ∷ 0x11F50 ∷ 0x16A60 ∷ 0x16AC0 ∷ 0x16B50 ∷ 0x1D7CE ∷ 0x1D7D8 ∷ 0x1D7E2
    ∷ 0x1D7EC ∷ 0x1D7F6 ∷ 0x1E140 ∷ 0x1E2F0 ∷ 0x1E4F0 ∷ 0x1E950 ∷ 0x1FBF0 ∷ []

digit_in : List ℕ → ℕ → Option ℕ
digit_in [] c = none
digit_in (z ∷ zs) c =
    let rest = digit_in zs c in if leb z c && ltb c (z + 10) then some (c - z) else rest

-- The value of a decimal digit: what `\d` and `int` accept.
unfoldable pub digit_value : ℕ → Option ℕ
unfolding digit_in
digit_value c = digit_in decimal_zeros c

unfoldable pub is_decimal : ℕ → Bool
unfolding digit_value
is_decimal c = elim (digit_value c) [ none ↦ false | some _ ↦ true ]

-- `\d+` over the whole text
unfoldable pub all_decimal : String → Bool
unfolding is_decimal
all_decimal String.[] = false
all_decimal (String.◌∷◌ c s) = is_decimal (code c) && all is_decimal (codes s)

-- `re.fullmatch(r'\d+\.\d+\.\d+', s)`
unfoldable pub is_release : String → Bool
unfolding split all_decimal
is_release s = elim (split 46 s) [
  | [] ↦ false
  | major ∷ [] ↦ false
  | major ∷ minor ∷ [] ↦ false
  | major ∷ minor ∷ patch ∷ [] ↦ all_decimal major && all_decimal minor && all_decimal patch
  | major ∷ minor ∷ patch ∷ more ∷ rest ↦ false
]

abbrev value_from : ℕ → List ℕ → Option ℕ
value_from n [] = some n
value_from n (c ∷ cs) = elim (digit_value c) [ none ↦ none | some d ↦ value_from (n * 10 + d) cs ]

-- `int(s)` for a text of decimal digits. CPython refuses more than 4300 of them.
unfoldable pub int_of : String → Result ℕ
unfolding digit_value
int_of s = do
  raise_if (ltb 4300 (count s)) (value_error "Exceeds the limit for integer string conversion")
  elim (codes s) [
    | [] ↦ err (value_error "invalid literal for int() with base 10")
    | c ∷ cs ↦ elim (value_from 0 (c ∷ cs)) [
      | none ↦ err (value_error "invalid literal for int() with base 10")
      | some n ↦ ok n
    ]
  ]

abbrev is_lower_alnum : ℕ → Bool
is_lower_alnum c = leb 48 c && leb c 57 || leb 97 c && leb c 122

-- `re.fullmatch(r'[a-z0-9](?:[a-z0-9-]*[a-z0-9])?', label)`: the first and the last character are
-- letters or digits, and those between may be dashes too.
unfoldable pub label_matches : List ℕ → Bool
label_matches [] = false
label_matches (c ∷ cs) =
    is_lower_alnum c && all (λ d. is_lower_alnum d || d == 45) cs && is_lower_alnum (last cs c)

-- `any(member == c for c in s)` over the code points
unfoldable pub has_code : ℕ → String → Bool
has_code c s = any (λ d. d == c) (codes s)
