-- ===== src/Control/Register.antt =====
-- alb/internal/heap_helpers.hpp and the masks of alb/heap.hpp: operations on one 64-bit register.
pub mod Masks
pub mod Ops
use allocator_builder.Base.{
  ℕ, ◌*◌, ◌-◌, ◌%◌, ◌^◌, Bool, true, false, ◌==◌, if◌then◌else◌, bit_and, bit_or, bit_xor, word_mod,
  sub64,
}

-- `(uint64_t)-1`
abbrev pub all_set : ℕ
all_set = 2 ^ 64 - 1

-- `x << n`; a count of 64 and more is taken modulo 64, as x86-64 does.
unfoldable pub shl : ℕ → ℕ → ℕ
shl x n = (x * 2 ^ (n % 64)) % 2 ^ 64

-- `Helpers::setUsed`: `false` clears the bits of the mask, `true` sets them.
unfoldable pub set_used : Bool → ℕ → ℕ → ℕ
set_used false register mask = bit_and register (bit_xor mask all_set)
set_used true register mask = bit_or register mask

-- `(1uLL << n) - 1`, and all ones for 64
unfoldable pub low_mask : ℕ → ℕ
low_mask n = if n == 64 then all_set else sub64 (shl 1 n) 1

-- The mask of `n` chunks from `sub_index` on, within one register
unfoldable pub single_mask : ℕ → ℕ → ℕ
single_mask n sub_index = if n == 64 then all_set else shl (sub64 (shl 1 n) 1) sub_index
