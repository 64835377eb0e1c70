-- ===== src/Ipv4/Laws.antt =====
-- What `contains`, `overlaps` and `subnet_of` say of addresses, and that the parser builds aligned
-- networks.
use native.Mathlib.Nat.{
  div-add-mod, mod-lt, mul-add-mod_self_left, mod-eq_of_lt, mul-mod_right, mod-le, one-le-pow,
}
use native.Mathlib.Decide.{dec_le}
use ansible_roles.Prelude.{
  ℕ, ◌+◌, ◌-◌, ◌*◌, ◌/◌, ◌%◌, ◌≤◌, ◌<◌, ◌≡◌, sym, ◌∙◌, ap, ◌↔◌, inl, inr, String, Option, some,
  List, [], ◌∷◌, Bool, true, false, arith, Bool-cases, and_split, leb, leb→le,
}
use ansible_roles.Result.{ok}
use ansible_roles.Ipv4.{
  Ipv4Network, span, size, broadcast, ip_network, contains, overlaps, subnet_of, make_network,
  build_network, parts_network, parse_address, parse_mask,
}
use ansible_roles.Text.{split}

-- The address stands at a multiple of the size.
pub record IsAligned (n : Ipv4Network) : Type 0 where
  pub multiple : n.address % size n ≡ 0
  pub positive : 0 < size n

-- The address `ip` belongs to the network.
abbrev pub InNetwork : ℕ → Ipv4Network → Type 0
InNetwork ip n = (n.address ≤ ip) × (ip < n.address + size n)

-- An offset below the block's size is the remainder.
mod_of_block : (a r s : ℕ) → r < s → a % s ≡ 0 → (a + r) % s ≡ r
mod_of_block a r s h m =
    let e : s * (a / s) + r ≡ a + r = omega (arith, div-add-mod a s) in
    ap (λ t. t % s) (sym e) ∙ mul-add-mod_self_left s (a / s) r ∙ mod-eq_of_lt h

block_of_mask : (a ip s : ℕ) → 0 < s → ip - ip % s ≡ a → (a ≤ ip) × (ip < a + s)
block_of_mask a ip s p e = omega (arith, mod-lt ip p, mod-le ip s)

-- Masking an address gives the start of its block.
mask_of_block : (a ip s : ℕ) → a % s ≡ 0 → a ≤ ip → ip < a + s → ip - ip % s ≡ a
mask_of_block a ip s m h k =
    let e : a + (ip - a) ≡ ip = omega arith in
    omega (arith, ap (λ t. t % s) (sym e) ∙ mod_of_block a (ip - a) s (omega arith) m)

pub contains_iff :
    (n : Ipv4Network) (ip : ℕ) → IsAligned n → (contains n ip ≡ true) ↔ InNetwork ip n
unfolding contains
contains_iff n ip w = (
  λ h. block_of_mask n.address ip (size n) w.positive (ground arith),
  λ h. ground (arith, mask_of_block n.address ip (size n) w.multiple h.0 h.1),
)

contains-false : (n : Ipv4Network) (ip : ℕ) → IsAligned n → contains n ip ≡ false → ¬ InNetwork ip n
contains-false n ip w h k = cc ((contains_iff n ip w).1 k)

-- Two networks that do not overlap share no address.
pub overlaps_sound :
    (a b : Ipv4Network) (ip : ℕ)
    → IsAligned a
    → IsAligned b
    → overlaps a b ≡ false
    → InNetwork ip a
    → ¬ InNetwork ip b
unfolding overlaps broadcast
overlaps_sound a b ip v w h p q = elim (Bool-cases (contains a b.address)) [
  | inl e ↦ absurd (ground arith)
  | inr e ↦ elim (Bool-cases (contains b a.address)) [
    | inl f ↦ absurd (ground arith)
    | inr f ↦ elim (dec_le a.address b.address) [
      | yes l ↦ contains-false a b.address v e (l, omega arith)
      | no l ↦ contains-false b a.address w f (omega arith, omega arith)
    ]
  ]
]

-- Two networks that overlap share an address.
pub overlaps_complete :
    (a b : Ipv4Network)
    → IsAligned a
    → IsAligned b
    → overlaps a b ≡ true
    → (ip : ℕ) × InNetwork ip a × InNetwork ip b
unfolding overlaps broadcast
overlaps_complete a b v w h = elim (Bool-cases (contains a b.address)) [
  | inl e ↦ (b.address, (contains_iff a b.address v).0 e, omega arith)
  | inr e ↦ elim (Bool-cases (contains b a.address)) [
    | inl f ↦ (a.address, omega arith, (contains_iff b a.address w).0 f)
    | inr f ↦ elim (Bool-cases (contains a (broadcast b))) [
      | inl g ↦ (broadcast b, (contains_iff a (broadcast b) v).0 g, omega arith)
      | inr g ↦ (broadcast a, omega arith, (contains_iff b (broadcast a) w).0 (ground arith))
    ]
  ]
]

-- Every address of a subnet belongs to the network above it.
pub subnet_of_sound :
    (a b : Ipv4Network) (ip : ℕ)
    → IsAligned a
    → IsAligned b
    → subnet_of a b ≡ true
    → InNetwork ip a
    → InNetwork ip b
unfolding subnet_of broadcast
subnet_of_sound a b ip v w h p =
    let (lo, hi) = and_split (leb b.address a.address) (leb (broadcast a) (broadcast b)) h in
    let l = leb→le b.address a.address lo in
    let u = leb→le (broadcast a) (broadcast b) hi in omega (arith, l, u, v.positive, w.positive)

pub span-pos : (p : ℕ) → 0 < span p
unfolding span
span-pos p = omega (arith, one-le-pow (32 - p) 2 (omega arith))

make_network_fields :
    (strict : Bool) (a p : ℕ) (n : Ipv4Network)
    → make_network strict a p ≡ ok n
    → (n.address ≡ a - a % span p) × (size n ≡ span p)
unfolding make_network size
make_network_fields strict a p n h = ground arith

make_network-IsAligned :
    (strict : Bool) (a p : ℕ) (n : Ipv4Network) → make_network strict a p ≡ ok n → IsAligned n
make_network-IsAligned strict a p n h =
    let (start, same) = make_network_fields strict a p n h in
    let block : a - a % span p ≡ span p * (a / span p) = omega (arith, div-add-mod a (span p)) in
    let rest : (a - a % span p) % span p ≡ 0 = rw block (mul-mod_right (span p) (a / span p)) in
    record { multiple = cc (start, same, rest); positive = rw same (span-pos p) }

build_network-IsAligned :
    (strict : Bool) (a p : Option ℕ) {n : Ipv4Network}
    → build_network strict a p ≡ ok n
    → IsAligned n
unfolding build_network
build_network-IsAligned strict (some a) (some p) {n} h = make_network-IsAligned strict a p n h
build_network-IsAligned strict _ _ h = cc

parts_network-IsAligned :
    (strict : Bool) (parts : List String) {n : Ipv4Network}
    → parts_network strict parts ≡ ok n
    → IsAligned n
unfolding parts_network
parts_network-IsAligned strict (a ∷ []) h =
    build_network-IsAligned strict (parse_address a) (some 32) h
parts_network-IsAligned strict (a ∷ m ∷ []) h =
    build_network-IsAligned strict (parse_address a) (parse_mask m) h
parts_network-IsAligned strict _ h = cc

-- What the parser accepts is an aligned network.
pub ip_network-IsAligned :
    (s : String) (strict : Bool) {n : Ipv4Network} → ip_network s strict ≡ ok n → IsAligned n
unfolding ip_network
ip_network-IsAligned s strict h = parts_network-IsAligned strict (split 47 s) h
