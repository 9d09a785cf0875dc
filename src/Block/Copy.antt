-- ===== src/Block/Copy.antt =====
-- `blockCopy`: what it moves and what it leaves alone.
use allocator_builder.Base.{ℕ, ◌+◌, ◌≤◌, ◌<◌, min, ◌≡◌, ◌⊎◌, arith}
use allocator_builder.Block.{Block, Memory, block_copy}

-- The common prefix of the two blocks is copied.
pub block_copy_inside :
    (source destination : Block) (m : Memory) (i : ℕ)
    → i < min source.length destination.length
    → block_copy source destination m (destination.ptr + i) ≡ m (source.ptr + i)
unfolding block_copy
block_copy_inside source destination m i h = ground arith

-- Bytes outside of the destination stay as they were.
pub block_copy_outside :
    (source destination : Block) (m : Memory) (a : ℕ)
    → (a < destination.ptr) ⊎ (destination.ptr + destination.length ≤ a)
    → block_copy source destination m a ≡ m a
unfolding block_copy
block_copy_outside source destination m a h = ground arith
