-- ===== src/FallbackAllocator/Tests.antt =====
-- A combination of two bump allocators, of 64 and 4096 bytes.
use allocator_builder.Base.{◌-◌, ◌≡◌, refl, arith, true, false, List, [], ◌∷◌, ◌⊎◌, inr}
use allocator_builder.Block.{Block, Memory, is_set, round_to_alignment}
use allocator_builder.Allocator.{Allocator}
use allocator_builder.Allocator.Blocks.{All, Pairwise, Apart}
use allocator_builder.Allocator.Contract.{Contract}
use allocator_builder.Allocator.Client.{Reach, begin, next, granted}
use allocator_builder.StackAllocator
use allocator_builder.StackAllocator.{Arena, stack_allocator}
use allocator_builder.StackAllocator.Serves.{stack-Contract, InArray, owns-held, owns-foreign}
use allocator_builder.Control.Register.{all_set, shl, set_used, low_mask}
use allocator_builder.Control.Search.{find_in_register, search_single}
use allocator_builder.Heap as Heap
use allocator_builder.Heap.{Heap as Members, heap}
use allocator_builder.Heap.Live.{Fits, InBuffer}
use allocator_builder.FallbackAllocator.OverHeap.{Elsewhere, heap_fallback-Pairwise}
use allocator_builder.FallbackAllocator.{State, fallback_allocator, allocate}
use allocator_builder.FallbackAllocator.Serves.{Given, fallback-Pairwise}

abbrev memory : Memory
memory a = 0

abbrev primary : Allocator
primary = stack_allocator 64 8

abbrev fallback : Allocator
fallback = stack_allocator 4096 8

abbrev fresh : State primary fallback
fresh = (record { base = 1000; p = 1000 }, record { base = 2000; p = 2000 })

allocate_primary :
    (allocate primary fallback 20 fresh memory).0 ≡ record { ptr = 1000; length = 24 }
unfolding allocate StackAllocator.allocate round_to_alignment
allocate_primary = refl

-- The primary allocator has no room for it.
allocate_fallback :
    (allocate primary fallback 65 fresh memory).0 ≡ record { ptr = 2000; length = 72 }
unfolding allocate StackAllocator.allocate round_to_alignment
allocate_fallback = refl

-- Afterwards 24 bytes of the first and 72 of the second are used.
abbrev used : State primary fallback
used = (record { base = 1000; p = 1024 }, record { base = 2000; p = 2072 })

abbrev blocks : List Block
blocks = record { ptr = 2000; length = 72 } ∷ record { ptr = 1000; length = 24 } ∷ []

primary-Contract : Contract primary
primary-Contract = stack-Contract 64 8 1000 (omega arith)

fallback-Contract : Contract fallback
fallback-Contract = stack-Contract 4096 8 2000 (omega arith)

separate : (b c : Block) → primary-Contract.Gives b → fallback-Contract.Gives c → Apart b c
unfolding primary-Contract fallback-Contract stack-Contract InArray
separate b c g h = ground arith

owned :
    (s : Arena) (held : List Block)
    → primary-Contract.Inv s held
    → All (λ b. StackAllocator.owns 64 8 s b ≡ true) held
unfolding primary-Contract stack-Contract
owned s held i = owns-held 64 8 1000 (omega arith) s held (omega arith) i

foreign :
    (s : Arena) (held : List Block) (b : Block)
    → primary-Contract.Inv s held
    → fallback-Contract.Gives b
    → is_set b ≡ true
    → StackAllocator.owns 64 8 s b ≡ false
unfolding primary-Contract fallback-Contract stack-Contract InArray
foreign s held b i g set =
    owns-foreign 64 8 1000 (omega arith) s held b (omega arith) i (ground (arith, g))

two_calls :
    Reach
      (fallback_allocator primary fallback)
      (λ n. primary-Contract.Fits n × fallback-Contract.Fits n)
      fresh
      used
      blocks
unfolding primary-Contract fallback-Contract stack-Contract allocate StackAllocator.allocate
    round_to_alignment
two_calls =
    next (next begin (granted 20 memory (omega arith, omega arith) refl))
      (granted 65 memory (omega arith, omega arith) refl)

fallback-Pairwise_example :
    Pairwise blocks
    × All (Given primary fallback primary-Contract fallback-Contract separate owned foreign) blocks
unfolding primary-Contract fallback-Contract stack-Contract
fallback-Pairwise_example =
    fallback-Pairwise primary fallback primary-Contract fallback-Contract separate owned foreign
      {s = fresh} {s' = used} {held = blocks}
      (record { valid = omega arith; there = refl; live = tt; pairwise = tt })
      (record { valid = omega arith; there = refl; live = tt; pairwise = tt }) two_calls

-- A heap of 128 chunks of 8 bytes, whose first three chunks are used afterwards
abbrev chunks : Members
chunks = record {
  number_of_chunks = 128;
  chunk_size = 8;
  buffer = record { ptr = 4096; length = 1024 };
  control_buffer = record { ptr = 4080; length = 16 };
  control = all_set ∷ all_set ∷ [];
}

stack : Contract fallback
stack = stack-Contract 4096 8 8192 (omega arith)

elsewhere : (b : Block) → stack.Gives b → Elsewhere chunks b
unfolding stack stack-Contract InArray
elsewhere b given = inr (omega arith)

abbrev mixed : List Block
mixed = record { ptr = 8192; length = 2000 } ∷ record { ptr = 4096; length = 24 } ∷ []

-- The second request is too large for the heap.
mixed_calls :
    Reach
      (fallback_allocator heap fallback)
      (λ n. Fits chunks n × stack.Fits n)
      (chunks, record { base = 8192; p = 8192 })
      (record chunks { control = (all_set - 7) ∷ all_set ∷ [] }, record { base = 8192; p = 10192 })
      mixed
unfolding Fits stack stack-Contract allocate StackAllocator.allocate round_to_alignment
    Heap.allocate Heap.allocate_blocks Heap.or_with_overlap Heap.of_found Heap.to_block
    search_single Heap.allocate_within_a_single_control_register find_in_register set_used low_mask
    shl
mixed_calls =
    next
      (next begin (granted 20 memory ((omega arith, λ k lo hi e. omega arith), omega arith) refl))
      (granted 2000 memory ((omega arith, λ k lo hi e. omega arith), omega arith) refl)

heap_fallback-Pairwise_example : Pairwise mixed × All (λ b. InBuffer chunks b ⊎ stack.Gives b) mixed
unfolding stack stack-Contract
heap_fallback-Pairwise_example =
    heap_fallback-Pairwise chunks fallback stack elsewhere
      {s' = (
        record chunks { control = (all_set - 7) ∷ all_set ∷ [] },
        record { base = 8192; p = 10192 },
      )}
      {t = record { base = 8192; p = 8192 }} {held = mixed}
      (record {
        chunky = omega arith;
        counted = refl;
        sized = refl;
        nonnull = omega arith;
        fits = omega arith;
        countable = omega arith;
      })
      (record { valid = omega arith; there = refl; live = tt; pairwise = tt }) mixed_calls
