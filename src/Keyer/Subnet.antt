-- ===== src/Keyer/Subnet.antt =====
-- `IPSubnet` of internal/limiter/keyer/keyer.go. An address is its bytes; `net.ParseIP`, which yields
-- sixteen, and `IP.String` are parameters.
use forwardlimit.Common.{
  ℕ, zero, suc, ◌-◌, ◌*◌, ◌/◌, ◌≤◌, ◌≡◌, refl, ◌&&◌, Option, none, some, List, [], ◌∷◌, ◌++◌,
  if◌then◌else◌, ltb, ◌==◌, length, take, drop, arith,
}
use forwardlimit.Common.Int.{ℤ, pos, negsuc}
use forwardlimit.Common.Text.{Text, trim_space, text_eq}
use forwardlimit.Common.Decimal.{format_int}
use forwardlimit.Keyer.{Normaliser}

abbrev pub Ip : Type 0
Ip = List ℕ

abbrev v4_in_v6 : Ip
v4_in_v6 = 0 ∷ 0 ∷ 0 ∷ 0 ∷ 0 ∷ 0 ∷ 0 ∷ 0 ∷ 0 ∷ 0 ∷ 255 ∷ 255 ∷ []

-- `IP.To4`: the last four bytes of an address that stands for one of IPv4.
unfoldable pub to4 : Ip → Option Ip
unfolding text_eq
to4 ip = if length ip == 16 && text_eq (take 12 ip) v4_in_v6 then some (drop 12 ip) else none

unfoldable pub pow2 : ℕ → ℕ
pow2 zero = 1
pow2 (suc n) = 2 * pow2 n

-- The first `n` bits of a byte, followed by zeros.
abbrev pub mask_byte : ℕ → ℕ → ℕ
mask_byte n b = b / pow2 (8 - n) * pow2 (8 - n)

-- `IP.Mask` at `net.CIDRMask` of `n` bits.
unfoldable pub mask : ℕ → Ip → Ip
unfolding pow2
mask n [] = []
mask n (b ∷ bs) = mask_byte n b ∷ mask (n - 8) bs

module _ (parse_ip : Text → Option Ip) (ip_string : Ip → Text) where
  -- The network of an address, with the number of its bits; the value itself if that is out of range.
  unfoldable pub network : Text → ℤ → Ip → Text
  unfolding mask
  network s (pos bits) addr =
      if ltb (length addr * 8) bits
      then s
      else ip_string (mask bits addr) ++ (b'/' ∷ format_int (pos bits))
  network s (negsuc bits) addr = s

  unfoldable pub ip_subnet : ℤ → ℤ → Normaliser
  unfolding to4 network trim_space
  ip_subnet v4_bits v6_bits s = elim (parse_ip (trim_space s)) [
    | none ↦ s
    | some addr ↦ elim (to4 addr) [ some v4 ↦ network s v4_bits v4 | none ↦ network s v6_bits addr ]
  ]

-- Two addresses of one length whose first `n` bits are the same.
abbrev pub SameNetwork : ℕ → Ip → Ip → Type 0
SameNetwork n [] [] = Unit
SameNetwork n (b ∷ bs) (c ∷ cs) = (b / pow2 (8 - n) ≡ c / pow2 (8 - n)) × SameNetwork (n - 8) bs cs
SameNetwork n [] (c ∷ cs) = ⊥
SameNetwork n (b ∷ bs) [] = ⊥

mask-SameNetwork : (n : ℕ) (x y : Ip) → SameNetwork n x y → mask n x ≡ mask n y
unfolding mask
mask-SameNetwork n [] [] h = refl
mask-SameNetwork n (b ∷ bs) (c ∷ cs) (h, t) = rw (h, mask-SameNetwork (n - 8) bs cs t) refl
mask-SameNetwork n [] (c ∷ cs) h = absurd h
mask-SameNetwork n (b ∷ bs) [] h = absurd h

length-drop : (n : ℕ) (ip : Ip) → length (drop n ip) ≡ length ip - n
length-drop zero ip = omega arith
length-drop (suc n) [] = omega arith
length-drop (suc n) (b ∷ ip) = ground (arith, length-drop n ip)

length-to4 : (x a : Ip) → to4 x ≡ some a → length a ≡ 4
unfolding to4
length-to4 x a e = ground (arith, length-drop 12 x)

module _ (parse_ip : Text → Option Ip) (ip_string : Ip → Text) where
  network-SameNetwork :
      (s t : Text) (bits : ℕ) (x y : Ip)
      → length x ≡ 4
      → length y ≡ 4
      → bits ≤ 32
      → SameNetwork bits x y
      → network parse_ip ip_string s (pos bits) x ≡ network parse_ip ip_string t (pos bits) y
  unfolding network
  network-SameNetwork s t bits x y l m h same = ground (arith, mask-SameNetwork bits x y same)

  -- Moving within a network does not yield a new bucket: two values that name addresses of IPv4, in
  -- whatever notation, whose first `v4_bits` bits are the same are normalised to the same text.
  pub ip_subnet-SameNetwork :
      (v4_bits : ℕ) (v6_bits : ℤ) (s t : Text) (x y a b : Ip)
      → v4_bits ≤ 32
      → parse_ip (trim_space s) ≡ some x
      → parse_ip (trim_space t) ≡ some y
      → to4 x ≡ some a
      → to4 y ≡ some b
      → SameNetwork v4_bits a b
      → ip_subnet parse_ip ip_string (pos v4_bits) v6_bits s
        ≡ ip_subnet parse_ip ip_string (pos v4_bits) v6_bits t
  unfolding ip_subnet
  ip_subnet-SameNetwork v4_bits v6_bits s t x y a b h p q u v same =
      rw (p, q, u, v, ip_subnet)
        (network-SameNetwork s t v4_bits a b (length-to4 x a u) (length-to4 y b v) h same)
