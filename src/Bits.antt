-- ===== src/Bits.antt =====
-- The binary digits of a number, for the bit fields of the heaps.
pub mod Ops
use native.Mathlib.Nat.{
  pow-suc, pow-succ', div-div-eq-div-mul, div-one, mul-div_left, mod-one, zero-add, one-le-pow,
}
use allocator_builder.Base.{
  ℕ, zero, suc, ◌+◌, ◌-◌, ◌*◌, ◌/◌, ◌%◌, ◌^◌, ◌≤◌, ◌<◌, ◌≡◌, refl, arith, sym, ap, ◌∙◌,
}

-- Digit `i`, 0 or 1.
pub bit : ℕ → ℕ → ℕ
bit x zero = x % 2
bit x (suc i) = bit (x / 2) i

pub bit-lt_two : (x i : ℕ) → bit x i < 2
unfolding bit
bit-lt_two x zero = omega arith
bit-lt_two x (suc i) = bit-lt_two (x / 2) i

pub zero-bit : (i : ℕ) → bit 0 i ≡ 0
unfolding bit
zero-bit zero = refl
zero-bit (suc i) = zero-bit i

-- A number is its digits.
bits_ext_below : (n a b : ℕ) → a ≤ n → b ≤ n → ((i : ℕ) → bit a i ≡ bit b i) → a ≡ b
unfolding bit
bits_ext_below zero a b p q h = omega arith
bits_ext_below (suc n) a b p q h =
    omega
      (arith, h 0, bits_ext_below n (a / 2) (b / 2) (omega arith) (omega arith) (λ i. h (suc i)))

pub bits_ext : (a b : ℕ) → ((i : ℕ) → bit a i ≡ bit b i) → a ≡ b
bits_ext a b h = bits_ext_below (a + b) a b (omega arith) (omega arith) h

-- The digits from `m` on are those of the quotient by 2 ^ m.
pub bit-div_pow : (x m i : ℕ) → bit (x / 2 ^ m) i ≡ bit x (m + i)
unfolding bit
bit-div_pow x zero i = ap (λ k. bit k i) (div-one x) ∙ ap (bit x) (sym (zero-add i))
bit-div_pow x (suc m) i =
    rw (pow-succ', ← div-div-eq-div-mul) (bit-div_pow (x / 2) m i)
    ∙ ap (bit x) (let e : suc (m + i) ≡ suc m + i = omega arith in e)

mod_half : (x m : ℕ) → 0 < m → x % (m * 2) / 2 ≡ x / 2 % m
mod_half x m h = grind arith

mod_parity : (x m : ℕ) → x % (m * 2) % 2 ≡ x % 2
mod_parity x m = grind arith

half_shifted : (x m : ℕ) → x * (m * 2) / 2 ≡ x * m
half_shifted x m = grind arith

half_ones : (m : ℕ) → 1 ≤ m → (m * 2 - 1) / 2 ≡ m - 1
half_ones m h = omega arith

-- `% 2 ^ n` keeps the digits below `n`.
pub bit-mod_pow : (x n i : ℕ) → i < n → bit (x % 2 ^ n) i ≡ bit x i
unfolding bit
bit-mod_pow x zero i h = absurd (omega arith)
bit-mod_pow x (suc n) zero h = rw pow-suc (mod_parity x (2 ^ n))
bit-mod_pow x (suc n) (suc i) h =
    rw (pow-suc, mod_half x (2 ^ n) (one-le-pow n 2 (omega arith)))
      (bit-mod_pow (x / 2) n i (omega arith))

pub bit-mod_pow_high : (x n i : ℕ) → n ≤ i → bit (x % 2 ^ n) i ≡ 0
unfolding bit
bit-mod_pow_high x zero i h = ap (λ k. bit k i) (mod-one x) ∙ zero-bit i
bit-mod_pow_high x (suc n) zero h = absurd (omega arith)
bit-mod_pow_high x (suc n) (suc i) h =
    rw (pow-suc, mod_half x (2 ^ n) (one-le-pow n 2 (omega arith)))
      (bit-mod_pow_high (x / 2) n i (omega arith))

-- `* 2 ^ s` moves the digits up and fills with zeros.
pub bit-mul_pow_low : (x s i : ℕ) → i < s → bit (x * 2 ^ s) i ≡ 0
unfolding bit
bit-mul_pow_low x zero i h = absurd (omega arith)
bit-mul_pow_low x (suc s) zero h = rw pow-suc (omega arith)
bit-mul_pow_low x (suc s) (suc i) h =
    rw (pow-suc, half_shifted x (2 ^ s)) (bit-mul_pow_low x s i (omega arith))

pub bit-mul_pow_high : (x s i : ℕ) → bit (x * 2 ^ s) (s + i) ≡ bit x i
bit-mul_pow_high x s i =
    sym (bit-div_pow (x * 2 ^ s) s i)
    ∙ rw (mul-div_left x {n = 2 ^ s} (one-le-pow s 2 (omega arith)))

-- The digits of 2 ^ n - 1 are n ones.
pub bit-ones_low : (n i : ℕ) → i < n → bit (2 ^ n - 1) i ≡ 1
unfolding bit
bit-ones_low zero i h = absurd (omega arith)
bit-ones_low (suc n) zero h = rw pow-suc (omega (arith, one-le-pow n 2 (omega arith)))
bit-ones_low (suc n) (suc i) h =
    rw (pow-suc, half_ones (2 ^ n) (one-le-pow n 2 (omega arith))) (bit-ones_low n i (omega arith))

pub bit-ones_high : (n i : ℕ) → n ≤ i → bit (2 ^ n - 1) i ≡ 0
unfolding bit
bit-ones_high zero i h = zero-bit i
bit-ones_high (suc n) zero h = absurd (omega arith)
bit-ones_high (suc n) (suc i) h =
    rw (pow-suc, half_ones (2 ^ n) (one-le-pow n 2 (omega arith))) (bit-ones_high n i (omega arith))
