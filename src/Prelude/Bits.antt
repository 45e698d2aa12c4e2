-- ===== src/Prelude/Bits.antt =====
-- The binary operations of C on unsigned words: their law one digit at a time, and what the code's
-- masks, fields and shift registers need of them.
use climate_node.Prelude.{
  ℕ, zero, suc, ◌+◌, ◌*◌, ◌/◌, ◌%◌, ◌^◌, ◌≤◌, ◌<◌, ◌≡◌, refl, ◌∙◌, sym, ap, arith, ◌⊎◌, inl, inr,
}
use native.Mathlib.Nat.{mul_assoc}
use Prim.Native.Nat.{bit_or, bit_xor, bit_or-bitwise, bit_xor-bitwise, digits, differ, max}

-- Fuel that covers the number does not matter.
module _ (f : ℕ → ℕ → ℕ) where
  digits_fuel : (n m a b : ℕ) → a ≤ n → a ≤ m → digits (λ b. b) f n a b ≡ digits (λ b. b) f m a b
  digits_fuel zero zero a b h k = refl
  digits_fuel zero (suc m) zero b h k = refl
  digits_fuel zero (suc m) (suc a) b h k = absurd (omega arith)
  digits_fuel (suc n) zero zero b h k = refl
  digits_fuel (suc n) zero (suc a) b h k = absurd (omega arith)
  digits_fuel (suc n) (suc m) zero b h k = refl
  digits_fuel (suc n) (suc m) (suc a) b h k =
      ap (λ t. t * 2 + f (suc a % 2) (b % 2))
        (digits_fuel n m (suc a / 2) (b / 2) (omega arith) (omega arith))

zero-bit_xor : (b : ℕ) → bit_xor 0 b ≡ b
zero-bit_xor b = bit_xor-bitwise 0 b

zero-bit_or : (b : ℕ) → bit_or 0 b ≡ b
zero-bit_or b = bit_or-bitwise 0 b

digit_cases : (b : ℕ) → (b % 2 ≡ 0) ⊎ (b % 2 ≡ 1)
digit_cases b = ground arith

pub bit_xor_step : (a b : ℕ) → bit_xor a b ≡ bit_xor (a / 2) (b / 2) * 2 + differ (a % 2) (b % 2)
bit_xor_step zero b = omega (arith, zero-bit_xor b, zero-bit_xor (b / 2))
bit_xor_step (suc a) b =
    bit_xor-bitwise (suc a) b
    ∙ ap (λ t. t * 2 + differ (suc a % 2) (b % 2))
        (digits_fuel differ a (suc a / 2) (suc a / 2) (b / 2) (omega arith) (omega arith)
          ∙ sym (bit_xor-bitwise (suc a / 2) (b / 2)))

pub bit_or_step : (a b : ℕ) → bit_or a b ≡ bit_or (a / 2) (b / 2) * 2 + max (a % 2) (b % 2)
bit_or_step zero b = omega (arith, zero-bit_or b, zero-bit_or (b / 2))
bit_or_step (suc a) b =
    bit_or-bitwise (suc a) b
    ∙ ap (λ t. t * 2 + max (suc a % 2) (b % 2))
        (digits_fuel max a (suc a / 2) (suc a / 2) (b / 2) (omega arith) (omega arith)
          ∙ sym (bit_or-bitwise (suc a / 2) (b / 2)))

bit_or-zero_fuel : (n a : ℕ) → a ≤ n → bit_or a 0 ≡ a
bit_or-zero_fuel n zero h = zero-bit_or 0
bit_or-zero_fuel zero (suc a) h = absurd (omega arith)
bit_or-zero_fuel (suc n) (suc a) h =
    omega (arith, bit_or_step (suc a) 0, bit_or-zero_fuel n (suc a / 2) (omega arith))

-- Fields that do not overlap are added.
pub bit_or_fields : (k q r : ℕ) → r < 2 ^ k → bit_or r (q * 2 ^ k) ≡ q * 2 ^ k + r
bit_or_fields zero q r h =
    let e : r ≡ 0 = omega arith in rw e (zero-bit_or (q * 2 ^ 0) ∙ omega arith)
bit_or_fields (suc k) q r h =
    let power : 2 ^ suc k ≡ 2 ^ k * 2 = omega arith in
    let twice : q * 2 ^ suc k ≡ q * 2 ^ k * 2 = rw power (sym (mul_assoc q (2 ^ k) 2)) in
    let half : q * 2 ^ suc k / 2 ≡ q * 2 ^ k = omega arith in
    let even : q * 2 ^ suc k % 2 ≡ 0 = omega arith in
    let rest : bit_or (r / 2) (q * 2 ^ k) ≡ q * 2 ^ k + r / 2 =
      bit_or_fields k q (r / 2) (omega arith) in
    bit_or_step r (q * 2 ^ suc k) ∙ rw (half, even, rest) (ground arith)

pub differ_parity : (a b : ℕ) → differ (a % 2) (b % 2) ≡ (a + b) % 2
differ_parity a b = elim (digit_cases a) [
  | inl e ↦ rw e (omega arith)
  | inr e ↦ elim (digit_cases b) [
    | inl d ↦ rw (e, d) (omega arith)
    | inr d ↦ rw (e, d) (omega arith)
  ]
]

-- Two words of `k` bits give a word of `k` bits.
pub bit_xor_lt : (k a b : ℕ) → a < 2 ^ k → b < 2 ^ k → bit_xor a b < 2 ^ k
bit_xor_lt zero a b h k = let e : a ≡ 0 = omega arith in rw e (omega (arith, zero-bit_xor b))
bit_xor_lt (suc n) a b h k = omega (
  arith,
  bit_xor_step a b,
  differ_parity a b,
  bit_xor_lt n (a / 2) (b / 2) (omega arith) (omega arith),
)

-- A bit above the first word stays set.
pub bit_xor_ge : (k a b : ℕ) → a < 2 ^ k → 2 ^ k ≤ b → 2 ^ k ≤ bit_xor a b
bit_xor_ge zero a b h k = let e : a ≡ 0 = omega arith in rw e (omega (arith, zero-bit_xor b))
bit_xor_ge (suc n) a b h k =
    omega (arith, bit_xor_step a b, bit_xor_ge n (a / 2) (b / 2) (omega arith) (omega arith))

pub bit_xor_comm : (k a b : ℕ) → a < 2 ^ k → b < 2 ^ k → bit_xor a b ≡ bit_xor b a
bit_xor_comm zero a b h k =
    let e : a ≡ 0 = omega arith in let d : b ≡ 0 = omega arith in rw (e, d) refl
bit_xor_comm (suc n) a b h k = omega (
  arith,
  bit_xor_step a b,
  bit_xor_step b a,
  differ_parity a b,
  differ_parity b a,
  bit_xor_comm n (a / 2) (b / 2) (omega arith) (omega arith),
)

pub bit_xor_cancel : (k a b c : ℕ) → a < 2 ^ k → b < 2 ^ k → bit_xor a c ≡ bit_xor b c → a ≡ b
bit_xor_cancel zero a b c h k e = omega arith
bit_xor_cancel (suc n) a b c h k e =
    let pa = bit_xor_step a c in
    let pb = bit_xor_step b c in
    let la = differ_parity a c in
    let lb = differ_parity b c in
    let low : a % 2 ≡ b % 2 = omega arith in
    let high : a / 2 ≡ b / 2 =
      bit_xor_cancel n (a / 2) (b / 2) (c / 2) (omega arith) (omega arith) (omega arith) in
    omega arith

pub bit_xor_assoc :
    (k a b c : ℕ)
    → a < 2 ^ k
    → b < 2 ^ k
    → c < 2 ^ k
    → bit_xor (bit_xor a b) c ≡ bit_xor a (bit_xor b c)
bit_xor_assoc zero a b c h k l =
    let e : a ≡ 0 = omega arith in
    let d : b ≡ 0 = omega arith in let g : c ≡ 0 = omega arith in rw (e, d, g) refl
bit_xor_assoc (suc n) a b c h k l =
    let ih = bit_xor_assoc n (a / 2) (b / 2) (c / 2) (omega arith) (omega arith) (omega arith) in
    let ab = bit_xor_step a b in
    let bc = bit_xor_step b c in
    let pab = differ_parity a b in
    let pbc = differ_parity b c in
    let left_high : bit_xor a b / 2 ≡ bit_xor (a / 2) (b / 2) = omega arith in
    let right_high : bit_xor b c / 2 ≡ bit_xor (b / 2) (c / 2) = omega arith in
    let left = bit_xor_step (bit_xor a b) c in
    let right = bit_xor_step a (bit_xor b c) in
    let pl = differ_parity (bit_xor a b) c in
    let pr = differ_parity a (bit_xor b c) in
    let same : bit_xor (bit_xor a b / 2) (c / 2) ≡ bit_xor (a / 2) (bit_xor b c / 2) =
      rw (left_high, right_high) ih in
    omega arith

pub bit_xor_self : (k a : ℕ) → a < 2 ^ k → bit_xor a a ≡ 0
bit_xor_self zero a h = let e : a ≡ 0 = omega arith in rw e refl
bit_xor_self (suc n) a h =
    omega (arith, bit_xor_step a a, differ_parity a a, bit_xor_self n (a / 2) (omega arith))

-- Fields that do not overlap are added.
pub bit_xor_fields : (k q r : ℕ) → r < 2 ^ k → bit_xor r (q * 2 ^ k) ≡ q * 2 ^ k + r
bit_xor_fields zero q r h =
    let e : r ≡ 0 = omega arith in rw e (zero-bit_xor (q * 2 ^ 0) ∙ omega arith)
bit_xor_fields (suc k) q r h =
    let power : 2 ^ suc k ≡ 2 ^ k * 2 = omega arith in
    let twice : q * 2 ^ suc k ≡ q * 2 ^ k * 2 = rw power (sym (mul_assoc q (2 ^ k) 2)) in
    let half : q * 2 ^ suc k / 2 ≡ q * 2 ^ k = omega arith in
    let even : q * 2 ^ suc k % 2 ≡ 0 = omega arith in
    let rest : bit_xor (r / 2) (q * 2 ^ k) ≡ q * 2 ^ k + r / 2 =
      bit_xor_fields k q (r / 2) (omega arith) in
    bit_xor_step r (q * 2 ^ suc k)
    ∙ rw (half, rest) (omega (arith, differ_parity r (q * 2 ^ suc k)))
