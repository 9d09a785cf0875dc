-- ===== src/Mallocator/Tests.antt =====
-- A system that hands out one address after the other and has 100 bytes.
use allocator_builder.Base.{ℕ, ◌+◌, ◌≡◌, refl, false, leb, if◌then◌else◌}
use allocator_builder.Block.{Block, empty_block, Memory}
use allocator_builder.Op.{Op}
use allocator_builder.Reallocator.{is_handled_default}
use allocator_builder.Mallocator.{allocate, resize, reallocate}

abbrev memory : Memory
memory a = 0

abbrev malloc : ℕ → Op ℕ ℕ
malloc n s m = if leb (s + n) 100 then (1000 + s, s + n, m) else (0, s, m)

abbrev realloc : ℕ → ℕ → Op ℕ ℕ
realloc p n s m = malloc n s m

abbrev free : ℕ → Op ℕ (Unit {0})
free p s m = (tt, s, m)

abbrev block : Block
block = record { ptr = 1000; length = 60 }

allocate_runs_out : (allocate malloc realloc free 50 60 memory).0 ≡ empty_block
unfolding allocate
allocate_runs_out = refl

reallocate_fails : (reallocate malloc realloc free block 70 60 memory).0 ≡ (false, block)
unfolding reallocate resize is_handled_default
reallocate_fails = refl
