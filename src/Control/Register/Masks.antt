-- ===== src/Control/Register/Masks.antt =====
-- The digits of the masks.
use native.Mathlib.Nat.{pow-le-pow_right, one-le-pow, add-zero}
use allocator_builder.Base.{
  ℕ, ◌+◌, ◌-◌, ◌*◌, ◌%◌, ◌^◌, ◌≤◌, ◌<◌, ◌≡◌, arith, ◌∙◌, sub64, dec_lt, ℕ_discrete, ◌⊎◌, ◌==◌, ◌≢◌,
  false, subst,
}
use allocator_builder.Bits.{
  bit, bit-mod_pow, bit-mod_pow_high, bit-mul_pow_low, bit-mul_pow_high, bit-ones_low,
  bit-ones_high,
}
use allocator_builder.Control.Register.{all_set, shl, low_mask, single_mask}

-- A shift moves the digits up, as long as they stay below 64.
pub bit-shl_low : (x n i : ℕ) → n < 64 → i < n → bit (shl x n) i ≡ 0
unfolding shl
bit-shl_low x n i h k =
    rw mod_small (bit-mod_pow (x * 2 ^ n) 64 i (omega arith) ∙ bit-mul_pow_low x n i k)
  where
    mod_small : n % 64 ≡ n
    mod_small = omega arith

pub bit-shl_high : (x n i : ℕ) → n + i < 64 → bit (shl x n) (n + i) ≡ bit x i
unfolding shl
bit-shl_high x n i h = rw mod_small (bit-mod_pow (x * 2 ^ n) 64 (n + i) h ∙ bit-mul_pow_high x n i)
  where
    mod_small : n % 64 ≡ n
    mod_small = omega arith

-- `(1 << n) - 1`
pub shl_ones : (n : ℕ) → n < 64 → sub64 (shl 1 n) 1 ≡ 2 ^ n - 1
unfolding shl
shl_ones n h = rw mod_small (omega (arith, small, one-le-pow n 2 (omega arith)))
  where
    mod_small : n % 64 ≡ n
    mod_small = omega arith

    small : 2 ^ n ≤ 2 ^ 63
    small = pow-le-pow_right {n = 2} (omega arith) {i = n} {j = 63} (omega arith)

bit-shl_beyond : (x n i : ℕ) → 64 ≤ i → bit (shl x n) i ≡ 0
unfolding shl
bit-shl_beyond x n i h = bit-mod_pow_high (x * 2 ^ (n % 64)) 64 i h

not_eq : (n : ℕ) → n ≢ 64 → (n == 64) ≡ false
not_eq n h = ground arith

-- The mask has ones from `lo` to below `hi`, and zeros elsewhere.
pub record Covers (mask lo hi : ℕ) : Type 0 where
  pub ones : (i : ℕ) → lo ≤ i → i < hi → bit mask i ≡ 1
  pub zeros : (i : ℕ) → (i < lo) ⊎ (hi ≤ i) → bit mask i ≡ 0
  pub within : hi ≤ 64

pub Covers-eq :
    {mask lo hi lo' hi' : ℕ} → lo ≡ lo' → hi ≡ hi' → Covers mask lo hi → Covers mask lo' hi'
Covers-eq p q c = rw (← p, ← q) c

ones-Covers : (n : ℕ) → n ≤ 64 → Covers (2 ^ n - 1) 0 n
ones-Covers n h = record {
  ones = λ i _ k. bit-ones_low n i k;
  zeros = λ i k. bit-ones_high n i (ground arith);
  within = h;
}

pub all_set-Covers : Covers all_set 0 64
all_set-Covers = ones-Covers 64 (omega arith)

pub shl_ones-Covers : (n : ℕ) → n < 64 → Covers (sub64 (shl 1 n) 1) 0 n
shl_ones-Covers n h = rw (shl_ones n h) (ones-Covers n (omega arith))

pub shl-Covers :
    {mask lo hi : ℕ} (n : ℕ)
    → n < 64
    → n + hi ≤ 64
    → Covers mask lo hi
    → Covers (shl mask n) (n + lo) (n + hi)
shl-Covers {mask} {lo} {hi} n small h c = record {
  ones = λ i p q.
      high i (i - n) (omega arith) (omega arith) ∙ c.ones (i - n) (omega arith) (omega arith);
  zeros = λ i p. elim (dec_lt i n) [
    | yes below ↦ bit-shl_low mask n i small below
    | no above ↦ elim (dec_lt i 64) [
      | yes inside ↦ high i (i - n) (omega arith) inside ∙ c.zeros (i - n) (ground arith)
      | no outside ↦ bit-shl_beyond mask n i (omega arith)
    ]
  ];
  within = h;
}
  where
    high : (i k : ℕ) → i ≡ n + k → i < 64 → bit (shl mask n) i ≡ bit mask k
    high i k e p = rw e (bit-shl_high mask n k (omega arith))

pub low_mask-Covers : (n : ℕ) → n ≤ 64 → Covers (low_mask n) 0 n
unfolding low_mask
low_mask-Covers n h = elim (ℕ_discrete n 64) [
  | yes e ↦ rw e all_set-Covers
  | no ne ↦ rw (not_eq n ne) (shl_ones-Covers n (omega arith))
]

pub single_mask-Covers : (n s : ℕ) → s < 64 → s + n ≤ 64 → Covers (single_mask n s) s (s + n)
unfolding single_mask
single_mask-Covers n s small h = elim (ℕ_discrete n 64) [
  | yes e ↦ let z : s ≡ 0 = omega arith in rw (e, z) all_set-Covers
  | no ne ↦ rw (not_eq n ne) (
      subst (λ lo. Covers (shl (sub64 (shl 1 n) 1) s) lo (s + n)) (add-zero s)
        (shl-Covers s small h (shl_ones-Covers n (omega arith))))
]
