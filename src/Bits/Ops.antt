-- ===== src/Bits/Ops.antt =====
-- The digits of `&`, `|` and `^`.
use Prim.Native.Nat.{digits, differ, bit_and-bitwise, bit_or-bitwise, bit_xor-bitwise}
use allocator_builder.Base.{
  ℕ, zero, suc, ◌+◌, ◌*◌, ◌/◌, ◌%◌, ◌≤◌, ◌<◌, ◌≡◌, refl, arith, min, max, bit_and, bit_or, bit_xor,
}
use allocator_builder.Bits.{bit, zero-bit}

module _ (z : ℕ → ℕ) (f : ℕ → ℕ → ℕ) (at_end : (b i : ℕ) → bit (z b) i ≡ f 0 (bit b i))
    (digit : (x y : ℕ) → x < 2 → y < 2 → f x y < 2) where
  bit-digits : (n a b i : ℕ) → a ≤ n → bit (digits z f n a b) i ≡ f (bit a i) (bit b i)
  unfolding bit
  bit-digits zero zero b i h = rw zero-bit (at_end b i)
  bit-digits zero (suc a) b i h = absurd (omega arith)
  bit-digits (suc n) zero b i h = rw zero-bit (at_end b i)
  bit-digits (suc n) (suc a) b zero h =
      omega (arith, digit (suc a % 2) (b % 2) (omega arith) (omega arith))
  bit-digits (suc n) (suc a) b (suc i) h =
      rw (half) (bit-digits n (suc a / 2) (b / 2) i (omega arith))
    where
      half :
          (digits z f n (suc a / 2) (b / 2) * 2 + f (suc a % 2) (b % 2)) / 2
          ≡ digits z f n (suc a / 2) (b / 2)
      half = omega (arith, digit (suc a % 2) (b % 2) (omega arith) (omega arith))

pub bit-and : (a b i : ℕ) → bit (bit_and a b) i ≡ min (bit a i) (bit b i)
bit-and a b i = rw bit_and-bitwise (
    bit-digits (λ _. 0) min (λ b i. rw zero-bit (omega arith)) (λ x y p q. omega arith) a a b i
      (omega arith))

pub bit-or : (a b i : ℕ) → bit (bit_or a b) i ≡ max (bit a i) (bit b i)
bit-or a b i =
    rw bit_or-bitwise
      (bit-digits (λ y. y) max (λ b i. omega arith) (λ x y p q. omega arith) a a b i (omega arith))

differ-lt_two : (x y : ℕ) → x < 2 → y < 2 → differ x y < 2
differ-lt_two zero y p q = q
differ-lt_two (suc zero) zero p q = omega arith
differ-lt_two (suc zero) (suc y) p q = omega arith
differ-lt_two (suc (suc x)) y p q = absurd (omega arith)

pub bit-xor : (a b i : ℕ) → bit (bit_xor a b) i ≡ differ (bit a i) (bit b i)
bit-xor a b i =
    rw bit_xor-bitwise
      (bit-digits (λ y. y) differ (λ b i. refl) differ-lt_two a a b i (omega arith))
