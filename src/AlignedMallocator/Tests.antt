-- ===== src/AlignedMallocator/Tests.antt =====
-- A system that has no memory at all.
use allocator_builder.Base.{refl, ℕ, ◌≡◌, refl, true}
use allocator_builder.Block.{Block, empty_block, is_set, Memory}
use allocator_builder.Op.{Op}
use allocator_builder.AlignedMallocator.{allocate, deallocate, reallocate}
use allocator_builder.Reallocator.{is_handled_default}

abbrev memory : Memory
memory a = 0

abbrev malloc : ℕ → ℕ → Op ℕ ℕ
malloc n alignment s m = (0, s, m)

abbrev realloc : ℕ → ℕ → ℕ → Op ℕ ℕ
realloc p n alignment s m = (0, s, m)

abbrev free : ℕ → Op ℕ (Unit {0})
free p s m = (tt, s, m)

abbrev nowhere : Block
nowhere = record { ptr = 0; length = 24 }

-- The system refuses each request here: the result is a set block at nullptr.
refused_block :
    (allocate malloc realloc free 16 24 7 memory ≡ (nowhere, 7, memory))
    × (is_set nowhere ≡ true)
    × (reallocate malloc realloc free 16 empty_block 24 7 memory ≡ ((true, nowhere), 7, memory))
    × (deallocate malloc realloc free 16 nowhere 7 memory ≡ (empty_block, 7, memory))
unfolding allocate reallocate deallocate is_handled_default
refused_block = (refl, refl, refl, refl)
