-- ===== src/Block/Rounding.antt =====
-- `roundToAlignment`: the least multiple of the basis from the length on.
use allocator_builder.Base.{ℕ, ◌+◌, ◌-◌, ◌%◌, ◌≤◌, ◌<◌, ◌≡◌, arith, word_mod, ◌==◌, if◌then◌else◌}
use allocator_builder.Block.{round_to_alignment}

-- Without wrap-around the quotient is exact.
round_up-eq :
    (basis n : ℕ)
    → 0 < basis
    → n + basis ≤ word_mod
    → round_to_alignment basis n ≡ (n + (if (n % basis) == 0 then 0 else basis - n % basis))
unfolding round_to_alignment
round_up-eq basis n h k = ground arith

next_multiple : (basis n : ℕ) → 0 < basis → (n + (basis - n % basis)) % basis ≡ 0
next_multiple basis n h = grind arith

-- With no wrap-around of `size_t`, the result is a multiple of the basis, not below the length,
-- and exceeds it by less than the basis.
pub round_to_alignment_bounds :
    (basis n : ℕ)
    → 0 < basis
    → n + basis ≤ word_mod
    → (round_to_alignment basis n % basis ≡ 0)
      × (n ≤ round_to_alignment basis n)
      × (round_to_alignment basis n < n + basis)
round_to_alignment_bounds basis n h k =
    ground (arith, round_up-eq basis n h k, next_multiple basis n h)
