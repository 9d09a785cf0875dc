-- ===== src/Control/Register/Ops.antt =====
-- `setUsed` and the test of a mask, digit by digit.
use Prim.Native.Nat.{differ}
use allocator_builder.Base.{
  ℕ, ◌≤◌, ◌<◌, ◌≡◌, refl, arith, ap, Bool, true, false, ◌⊎◌, inl, inr, bit_and, bit_xor, dec_lt,
}
use allocator_builder.Bits.{bit, bit-lt_two, bits_ext}
use allocator_builder.Bits.Ops.{bit-and, bit-or, bit-xor}
use allocator_builder.Control.Register.{all_set, set_used}
use allocator_builder.Control.Register.Masks.{Covers, all_set-Covers}

abbrev pub digit_of : Bool → ℕ
digit_of true = 1
digit_of false = 0

flipped : (a b : ℕ) → a ≡ 1 → b ≡ 1 → differ a b ≡ 0
flipped a b p q = rw (p, q) refl

kept : (a b : ℕ) → a ≡ 0 → b ≡ 1 → differ a b ≡ 1
kept a b p q = rw (p, q) refl

-- Under the mask, the digits take the wanted value.
pub set_used_inside :
    (used : Bool) (register i : ℕ) {mask lo hi : ℕ}
    → Covers mask lo hi
    → lo ≤ i
    → i < hi
    → bit (set_used used register mask) i ≡ digit_of used
unfolding set_used
set_used_inside true register i {mask} c p q =
    omega (arith, bit-or register mask i, c.ones i p q, bit-lt_two register i)
set_used_inside false register i {mask} c p q = omega (
  arith,
  bit-and register (bit_xor mask all_set) i,
  bit-xor mask all_set i,
  flipped (bit mask i) (bit all_set i) (c.ones i p q)
      (all_set-Covers.ones i (omega arith) (omega (arith, c.within))),
)

-- Outside of the mask, the digits of the register stay.
pub set_used_outside :
    (used : Bool) (register i : ℕ) {mask lo hi : ℕ}
    → Covers mask lo hi
    → (i < lo) ⊎ (hi ≤ i)
    → i < 64
    → bit (set_used used register mask) i ≡ bit register i
unfolding set_used
set_used_outside true register i {mask} c p q = omega (arith, bit-or register mask i, c.zeros i p)
set_used_outside false register i {mask} c p q = omega (
  arith,
  bit-and register (bit_xor mask all_set) i,
  bit-xor mask all_set i,
  bit-lt_two register i,
  kept (bit mask i) (bit all_set i) (c.zeros i p) (all_set-Covers.ones i (omega arith) q),
)

-- The test `(register & mask) == mask` holds exactly if all digits under the mask are ones.
pub test_mask_ones :
    (register i : ℕ) {mask lo hi : ℕ}
    → Covers mask lo hi
    → bit_and register mask ≡ mask
    → lo ≤ i
    → i < hi
    → bit register i ≡ 1
test_mask_ones register i {mask} c e p q =
    omega (arith, bit-and register mask i, ap (λ w. bit w i) e, c.ones i p q, bit-lt_two register i)

pub ones_test_mask :
    (register : ℕ) {mask lo hi : ℕ}
    → Covers mask lo hi
    → ((i : ℕ) → lo ≤ i → i < hi → bit register i ≡ 1)
    → bit_and register mask ≡ mask
ones_test_mask register {mask} {lo} {hi} c h = bits_ext (bit_and register mask) mask digit
  where
    digit : (i : ℕ) → bit (bit_and register mask) i ≡ bit mask i
    digit i = elim (dec_lt i lo) [
      | yes below ↦ omega (arith, bit-and register mask i, c.zeros i (inl below))
      | no above ↦ elim (dec_lt i hi) [
        | yes inside ↦ omega (
          arith,
          bit-and register mask i,
          c.ones i (omega arith) inside,
          h i (omega arith) inside,
        )
        | no beyond ↦ omega (arith, bit-and register mask i, c.zeros i (inr (omega arith)))
      ]
    ]
