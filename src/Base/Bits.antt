-- ===== src/Base/Bits.antt =====
-- `|` of fields that do not overlap is their sum, and `&` with a low mask is a remainder.
use Prim.Native.Nat.{
  ℕ, zero, suc, ◌+◌, ◌-◌, ◌*◌, ◌/◌, ◌%◌, ◌^◌, ◌≤◌, ◌<◌, min, max, bit_and, bit_or, digits, bitwise,
  bit_and-bitwise, bit_or-bitwise,
}
use mathlib.Core.Path.{◌≡◌, refl, ap, ◌∙◌}
use native.Mathlib.Nat.{pow-suc, one-le-pow, div-div-eq-div-mul, mul_comm}
use native.Mathlib.Omega.{arith}

-- `digits` goes through as many rounds as its first operand allows; spare rounds change nothing.
spare_round :
    (rest : ℕ → ℕ) (op : ℕ → ℕ → ℕ) (v w n : ℕ)
    → v ≤ n
    → digits rest op (suc n) v w ≡ digits rest op n v w
spare_round rest op zero w zero fits = refl
spare_round rest op zero w (suc n) fits = refl
spare_round rest op (suc v) w zero fits = absurd (omega arith)
spare_round rest op (suc v) w (suc n) fits =
    rw (spare_round rest op (suc v / 2) (w / 2) n (omega arith))

spare_rounds :
    (rest : ℕ → ℕ) (op : ℕ → ℕ → ℕ) (v w spare n : ℕ)
    → n ≡ spare + v
    → digits rest op n v w ≡ bitwise rest op v w
spare_rounds rest op v w zero n count =
    let none_spare : n ≡ v = omega arith in ap (λ t. digits rest op t v w) none_spare
spare_rounds rest op v w (suc spare) n count =
    let one_spare : n ≡ suc (spare + v) = omega arith in
    ap (λ t. digits rest op t v w) one_spare
    ∙ spare_round rest op v w (spare + v) (omega arith)
    ∙ spare_rounds rest op v w spare (spare + v) refl

-- The rounds that are left after the first are `v`, and half of them are enough.
halves :
    (rest : ℕ → ℕ) (op : ℕ → ℕ → ℕ) (v w : ℕ)
    → digits rest op v (suc v / 2) (w / 2) ≡ bitwise rest op (suc v / 2) (w / 2)
halves rest op v w = spare_rounds rest op (suc v / 2) (w / 2) (v - suc v / 2) v (omega arith)

bit_or_step : (v w : ℕ) → bit_or v w ≡ bit_or (v / 2) (w / 2) * 2 + max (v % 2) (w % 2)
bit_or_step zero w = omega (arith, bit_or-bitwise 0 w, bit_or-bitwise 0 (w / 2))
bit_or_step (suc v) w =
    omega
      (arith, bit_or-bitwise (suc v) w, bit_or-bitwise (suc v / 2) (w / 2), halves (λ y. y) max v w)

bit_and_step : (v w : ℕ) → bit_and v w ≡ bit_and (v / 2) (w / 2) * 2 + min (v % 2) (w % 2)
bit_and_step zero w = omega (arith, bit_and-bitwise 0 w, bit_and-bitwise 0 (w / 2))
bit_and_step (suc v) w =
    omega (
      arith,
      bit_and-bitwise (suc v) w,
      bit_and-bitwise (suc v / 2) (w / 2),
      halves (λ _. 0) min v w,
    )

zero-bit_or : (b : ℕ) → bit_or 0 b ≡ b
zero-bit_or b = bit_or-bitwise 0 b

and-zero_fuel : (n a : ℕ) → a ≤ n → bit_and a 0 ≡ 0
and-zero_fuel n zero h = refl
and-zero_fuel zero (suc a) h = absurd (omega arith)
and-zero_fuel (suc n) (suc a) h =
    omega (arith, bit_and_step (suc a) 0, and-zero_fuel n (suc a / 2) (omega arith))

mul-pow-suc : (q k : ℕ) → q * 2 ^ suc k ≡ 2 * (q * 2 ^ k)
mul-pow-suc q k = omega (arith, ap (λ (t : ℕ). q * t) (pow-suc 2 k))

-- `r | (q << k)` is a sum when `r` fits `k` bits.
pub bit_or-shift : (k r q : ℕ) → r < 2 ^ k → bit_or r (q * 2 ^ k) ≡ r + q * 2 ^ k
bit_or-shift zero zero q h = zero-bit_or (q * 2 ^ 0) ∙ omega arith
bit_or-shift zero (suc r) q h = absurd (omega arith)
bit_or-shift (suc k) r q h =
    ground
      (arith, bit_or_step r (q * 2 ^ suc k), mul-pow-suc q k, bit_or-shift k (r / 2) q, pow-suc 2 k)

bit_and-field : (k q r : ℕ) → r < 2 ^ k → bit_and (q * 2 ^ k + r) (2 ^ k - 1) ≡ r
bit_and-field zero q r h = omega (arith, and-zero_fuel (q * 2 ^ 0 + r) (q * 2 ^ 0 + r))
bit_and-field (suc k) q r h = ground (
  arith,
  bit_and_step (q * 2 ^ suc k + r) (2 ^ suc k - 1),
  mul-pow-suc q k,
  pow-suc 2 k,
  bit_and-field k q (r / 2) (omega arith),
)

-- A mask of `k` low bits is the remainder by `2 ^ k`.
pub bit_and-mask : (k a : ℕ) → bit_and a (2 ^ k - 1) ≡ a % 2 ^ k
bit_and-mask k a = ground (arith, one-le-pow k 2, bit_and-field k (a / 2 ^ k) (a % 2 ^ k))

div-pow-suc : (v k : ℕ) → v / 2 ^ suc k ≡ v / 2 / 2 ^ k
div-pow-suc v k = rw (div-div-eq-div-mul, pow-suc, mul_comm 2 (2 ^ k))

-- A shifted mask selects the bits from `k` on.
pub bit_and-shift : (k v m : ℕ) → bit_and v (m * 2 ^ k) ≡ bit_and (v / 2 ^ k) m * 2 ^ k
bit_and-shift zero v m =
    let one : m * 1 ≡ m = omega arith in
    let whole : v / 1 ≡ v = omega arith in rw (one, whole) (omega arith)
bit_and-shift (suc k) v m = ground (
  arith,
  bit_and_step v (m * 2 ^ suc k),
  mul-pow-suc m k,
  mul-pow-suc (bit_and (v / 2 ^ suc k) m) k,
  div-pow-suc v k,
  bit_and-shift k (v / 2) m,
)

or-zero_fuel : (n a : ℕ) → a ≤ n → bit_or a 0 ≡ a
or-zero_fuel n zero h = refl
or-zero_fuel zero (suc a) h = absurd (omega arith)
or-zero_fuel (suc n) (suc a) h =
    omega (arith, bit_or_step (suc a) 0, or-zero_fuel n (suc a / 2) (omega arith))

-- The same with the operands in the other order: `(q << k) | r`.
pub shift-bit_or : (k q r : ℕ) → r < 2 ^ k → bit_or (q * 2 ^ k) r ≡ q * 2 ^ k + r
shift-bit_or zero q zero h = or-zero_fuel (q * 2 ^ 0) (q * 2 ^ 0) (omega arith) ∙ omega arith
shift-bit_or zero q (suc r) h = absurd (omega arith)
shift-bit_or (suc k) q r h =
    ground
      (arith, bit_or_step (q * 2 ^ suc k) r, mul-pow-suc q k, shift-bit_or k q (r / 2), pow-suc 2 k)

-- The little-endian number of four bytes.
abbrev pub le32 : ℕ → ℕ → ℕ → ℕ → ℕ
le32 a b c d = a + b * 2 ^ 8 + c * 2 ^ 16 + d * 2 ^ 24

module _ (a b c d : ℕ) (ha : a < 256) (hb : b < 256) (hc : c < 256) where
  -- The bytes put in from the low end, as buffer_helper.c does.
  pub or_up : bit_or (bit_or (bit_or a (b * 2 ^ 8)) (c * 2 ^ 16)) (d * 2 ^ 24) ≡ le32 a b c d
  or_up =
      let one : bit_or a (b * 2 ^ 8) ≡ a + b * 2 ^ 8 = bit_or-shift 8 a b ha in
      let two : bit_or (a + b * 2 ^ 8) (c * 2 ^ 16) ≡ a + b * 2 ^ 8 + c * 2 ^ 16 =
        bit_or-shift 16 (a + b * 2 ^ 8) c (omega arith) in
      rw (one, two) (bit_or-shift 24 (a + b * 2 ^ 8 + c * 2 ^ 16) d (omega arith))

  -- The bytes shifted in from the high end, as u_bstream.c does, on 64 bits.
  pub or_down :
      d < 256
      → bit_or (bit_or (bit_or (d * 2 ^ 8 % 2 ^ 64) c * 2 ^ 8 % 2 ^ 64) b * 2 ^ 8 % 2 ^ 64) a
        ≡ le32 a b c d
  or_down hd =
      let s1 : d * 2 ^ 8 % 2 ^ 64 ≡ d * 2 ^ 8 = omega arith in
      let s2 : (d * 2 ^ 8 + c) * 2 ^ 8 % 2 ^ 64 ≡ (d * 2 ^ 8 + c) * 2 ^ 8 = omega arith in
      let s3 : ((d * 2 ^ 8 + c) * 2 ^ 8 + b) * 2 ^ 8 % 2 ^ 64
          ≡ ((d * 2 ^ 8 + c) * 2 ^ 8 + b) * 2 ^ 8 =
        omega arith in
      rw
        (
          s1,
          shift-bit_or 8 d c hc,
          s2,
          shift-bit_or 8 (d * 2 ^ 8 + c) b hb,
          s3,
          shift-bit_or 8 ((d * 2 ^ 8 + c) * 2 ^ 8 + b) a ha,
        )
        (omega arith)

-- The four bytes of a 32-bit number make it up.
pub le32_bytes :
    (v : ℕ) → le32 (v % 256) (v / 2 ^ 8 % 256) (v / 2 ^ 16 % 256) (v / 2 ^ 24 % 256) ≡ v % 2 ^ 32
le32_bytes v = omega arith
