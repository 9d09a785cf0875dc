-- ===== src/Reallocator/Tests.antt =====
-- A reallocation between two bump allocators.
use allocator_builder.Base.{ℕ, ◌+◌, ◌<◌, min, ◌≡◌, ◌⊎◌, refl, true, false}
use allocator_builder.Block.{Block, empty_block, Memory, is_set}
use allocator_builder.Op.{Op}
use allocator_builder.Reallocator.{reallocate_with_copy}
use allocator_builder.Reallocator.Cases.{reallocate_with_copy_keeps_contents}

abbrev memory : Memory
memory a = a

abbrev old : Block
old = record { ptr = 100; length = 8 }

-- The state is the address of the next block.
abbrev next_block : ℕ → Op ℕ Block
next_block n s m = (record { ptr = s; length = n }, s + n, m)

abbrev forget : Block → Op ℕ Block
forget b s m = (empty_block, s, m)

reallocate_with_copy_keeps_contents_example :
    let ((done, b'), s', m') = reallocate_with_copy forget next_block old 16 1000 memory in
    ((done ≡ true)
      × (is_set b' ≡ true)
      × (b' ≡ record { ptr = 1000; length = 16 })
      × ((i : ℕ) → i < min 8 b'.length → m' (b'.ptr + i) ≡ 100 + i))
    ⊎ ((done ≡ false) × (b' ≡ old) × (m' ≡ memory))
reallocate_with_copy_keeps_contents_example =
    reallocate_with_copy_keeps_contents forget next_block old 16 1000 memory (λ s m. refl)
      (λ s m. refl)
