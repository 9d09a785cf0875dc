-- ===== src/Heap/Layout.antt =====
-- Chunks and blocks: which bytes a run of chunks has.
use native.Mathlib.Nat.{mul-div_left}
use allocator_builder.Base.{
  ℕ, ◌+◌, ◌*◌, ◌/◌, ◌%◌, ◌≤◌, ◌<◌, ◌≡◌, arith, length, word_mod, sub64, true, int_max, int_of_small,
  div_int_small, rem_int_small, refl,
}
use allocator_builder.Block.{Block}
use allocator_builder.Control.{BlockContext}
use allocator_builder.Heap.{Heap, block_to_context, to_block, owns}

-- The bit field has a digit for each chunk, and the buffer holds the chunks and lies in the address
-- space, not at nullptr; the chunks can be counted in an `int`.
pub record IsValid (h : Heap) : Type 0 where
  pub chunky : 0 < h.chunk_size
  pub counted : h.number_of_chunks ≡ 64 * length h.control
  pub sized : h.buffer.length ≡ h.chunk_size * h.number_of_chunks
  pub nonnull : 0 < h.buffer.ptr
  pub fits : h.buffer.ptr + h.buffer.length < word_mod
  pub countable : h.number_of_chunks ≤ int_max

-- The block of the `n` chunks from `start` on
abbrev pub block_at : Heap → ℕ → ℕ → Block
block_at h start n = record { ptr = h.buffer.ptr + start * h.chunk_size; length = n * h.chunk_size }

abbrev pub context_at : ℕ → ℕ → BlockContext
context_at start n = record { register_index = start / 64; sub_index = start % 64; used_chunks = n }

pub chunks_fit : (a b c : ℕ) → a ≤ b → a * c ≤ b * c
chunks_fit a b c h = grind arith

module _ {h : Heap} (v : IsValid h) (start n : ℕ) (within : start + n ≤ h.number_of_chunks) where
  pub block_at_inside : (start * h.chunk_size + n * h.chunk_size ≤ h.buffer.length)
  block_at_inside =
      omega (arith, v.sized, chunks_fit (start + n) h.number_of_chunks h.chunk_size within)

  pub to_block-eq : to_block h n start ≡ block_at h start n
  unfolding to_block
  to_block-eq = ground (arith, block_at_inside, v.fits)

  pub block_to_context-eq : block_to_context h (block_at h start n) ≡ context_at start n
  unfolding block_to_context
  block_to_context-eq =
      rw
        (
          offset,
          mul-div_left start v.chunky,
          mul-div_left n v.chunky,
          int_of_small start (omega (arith, v.countable)),
          int_of_small n (omega (arith, v.countable)),
          div_int_small start 64 (omega (arith, v.countable)),
          rem_int_small start 64 (omega (arith, v.countable)),
        )
        refl
    where
      offset : sub64 (h.buffer.ptr + start * h.chunk_size) h.buffer.ptr ≡ start * h.chunk_size
      offset = omega (arith, block_at_inside, v.fits)

  pub owns-block_at : 0 < n → owns h (block_at h start n) ≡ true
  unfolding owns
  owns-block_at pos = ground (arith, block_at_inside, v.fits, chunks_fit 1 n h.chunk_size, v.chunky)
