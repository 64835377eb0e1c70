-- ===== src/Ipv4.antt =====
-- Python's ipaddress.ip_network for IPv4, as filter_plugins/kube_plan.py uses it: the parser, and
-- `overlaps` and `subnet_of`. A text that names an IPv6 network is refused here, where the source
-- parses it and refuses it in the next line; both are a ValueError.
pub mod Laws
use Prim.Native.String.{count}
use ansible_roles.Prelude.{
  ℕ, zero, suc, ◌+◌, ◌-◌, ◌*◌, ◌%◌, ◌^◌, String, Bool, true, false, ◌&&◌, ◌||◌, Option, none, some,
  List, [], ◌∷◌, leb, ltb, ◌==◌, nat_eq, string_eq, if◌then◌else◌, all,
}
use ansible_roles.Result.{Result, ok, err, value_error}
use ansible_roles.Text.{codes, split}

-- IPv4Network: the network address and the length of the prefix.
pub record Ipv4Network : Type 0 where
  pub address : ℕ
  pub prefixlen : ℕ

-- The number of addresses in a network with this prefix.
unfoldable pub span : ℕ → ℕ
span p = 2 ^ (32 - p)

unfoldable pub size : Ipv4Network → ℕ
size n = span n.prefixlen

-- broadcast_address
unfoldable pub broadcast : Ipv4Network → ℕ
broadcast n = n.address + size n - 1

abbrev is_ascii_digit : ℕ → Bool
is_ascii_digit c = leb 48 c && leb c 57

abbrev ascii_value : ℕ → List ℕ → ℕ
ascii_value n [] = n
ascii_value n (c ∷ cs) = ascii_value (n * 10 + (c - 48)) cs

-- ASCII digits only, at least one
abbrev decimal : String → Option ℕ
decimal s = elim (codes s) [
  | [] ↦ none
  | c ∷ cs ↦ if all is_ascii_digit (c ∷ cs) then some (ascii_value 0 (c ∷ cs)) else none
]

-- _parse_octet: at most three digits, no leading zero, at most 255
parse_octet : String → Option ℕ
parse_octet s = elim (decimal s) [
  | none ↦ none
  | some n ↦
      if ltb 3 (count s)
        || elim (codes s) [ [] ↦ false | c ∷ cs ↦ c == 48 && (if s == "0" then false else true) ]
        || ltb 255 n
      then none
      else some n
]

abbrev four : Option ℕ → Option ℕ → Option ℕ → Option ℕ → Option ℕ
four (some a) (some b) (some c) (some d) = some (((a * 256 + b) * 256 + c) * 256 + d)
four _ _ _ _ = none

-- _ip_int_from_string
unfoldable pub parse_address : String → Option ℕ
unfolding parse_octet
parse_address s = elim (split 46 s) [
  | a ∷ b ∷ c ∷ d ∷ [] ↦ four (parse_octet a) (parse_octet b) (parse_octet c) (parse_octet d)
  | _ ↦ none
]

-- The least p ≤ n, counted from n down, for which the test holds.
abbrev find_prefix : (ℕ → Bool) → ℕ → Option ℕ
find_prefix test zero = if test 0 then some 0 else none
find_prefix test (suc n) =
    let rest = find_prefix test n in if test (suc n) then some (suc n) else rest

-- _prefix_from_ip_string: a netmask, or else a host mask
abbrev mask_prefix : ℕ → Option ℕ
mask_prefix m = elim (find_prefix (λ p. m == 2 ^ 32 - 2 ^ (32 - p)) 32) [
  | some p ↦ some p
  | none ↦ find_prefix (λ p. m == 2 ^ (32 - p) - 1) 32
]

-- _make_netmask: a prefix length, or a mask written as an address
unfoldable pub parse_mask : String → Option ℕ
parse_mask s = elim (decimal s) [
  | some p ↦ if leb p 32 then some p else none
  | none ↦ elim (parse_address s) [ none ↦ none | some m ↦ mask_prefix m ]
]

-- With `strict`, set host bits are refused; without it they are dropped.
unfoldable pub make_network : Bool → ℕ → ℕ → Result Ipv4Network
make_network strict a p =
    let host = a % span p in
    if strict && ltb 0 host
    then err (value_error "network has host bits set")
    else ok (record { address = a - host; prefixlen = p })

unfoldable pub build_network : Bool → Option ℕ → Option ℕ → Result Ipv4Network
build_network strict (some a) (some p) = make_network strict a p
build_network strict _ _ = err (value_error "not a valid IPv4 network")

-- An address alone is a network of one; more than one slash is refused.
unfoldable pub parts_network : Bool → List String → Result Ipv4Network
parts_network strict (a ∷ []) = build_network strict (parse_address a) (some 32)
parts_network strict (a ∷ m ∷ []) = build_network strict (parse_address a) (parse_mask m)
parts_network strict _ = err (value_error "not a valid IPv4 network")

-- ip_network(s, strict)
unfoldable pub ip_network : String → Bool → Result Ipv4Network
ip_network s strict = parts_network strict (split 47 s)

-- `ip in network`: the address, masked, is the network's.
unfoldable pub contains : Ipv4Network → ℕ → Bool
contains n ip = (ip - ip % size n) == n.address

-- a.overlaps(b)
unfoldable pub overlaps : Ipv4Network → Ipv4Network → Bool
overlaps a b =
    contains a b.address
    || contains a (broadcast b)
    || contains b a.address
    || contains b (broadcast a)

-- a.subnet_of(b)
unfoldable pub subnet_of : Ipv4Network → Ipv4Network → Bool
subnet_of a b = leb b.address a.address && leb (broadcast a) (broadcast b)
