-- ===== src/Block.antt =====
-- alb/allocator_base.hpp and source/allocator_base.cpp: the block, rounding, and the copy of
-- contents between blocks. An address is a number below 2 ^ 64, and nullptr is 0.
pub mod Rounding
pub mod Copy
pub mod Bytes
mod Tests
use allocator_builder.Base.{
  ℕ, ◌+◌, ◌-◌, ◌%◌, ◌≤◌, ◌<◌, min, Bool, not, ◌&&◌, ◌==◌, leb, ltb, if◌then◌else◌, word_mod, add64,
}

pub record Block : Type 0 where
  pub ptr : ℕ
  pub length : ℕ

-- The default constructor; `reset` leaves the same value behind.
abbrev pub empty_block : Block
empty_block = record { ptr = 0; length = 0 }

abbrev pub reset : Block → Block
reset b = empty_block

-- The move assignment: what the target and the source hold afterwards.
pub move_assign : Block → Block → Block × Block
move_assign target x = (record { ptr = x.ptr; length = x.length }, reset x)

-- `explicit operator bool`
abbrev pub is_set : Block → Bool
is_set b = not (b.length == 0)

pub block_eq : Block → Block → Bool
block_eq b rhs = (b.ptr == rhs.ptr) && (b.length == rhs.length)

-- `internal::roundToAlignment`, in `size_t`
unfoldable pub round_to_alignment : ℕ → ℕ → ℕ
round_to_alignment basis n = add64 n (if (n % basis) == 0 then 0 else basis - n % basis)

-- The byte at each address.
abbrev pub Memory : Type 0
Memory = ℕ → ℕ

-- `internal::blockCopy`: `memcpy` of as many bytes as both blocks hold.
unfoldable pub block_copy : Block → Block → Memory → Memory
block_copy source destination m a =
    if leb destination.ptr a && ltb a (destination.ptr + min source.length destination.length)
    then m (source.ptr + (a - destination.ptr))
    else m a
