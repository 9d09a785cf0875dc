-- ===== src/Segregator/Tests.antt =====
-- A segregator of two bump allocators, of 64 and 4096 bytes.
use allocator_builder.Base.{◌≤◌, ◌≡◌, refl, arith, List, [], ◌∷◌}
use allocator_builder.Block.{Block, Memory, round_to_alignment}
use allocator_builder.Allocator.{Allocator}
use allocator_builder.Allocator.Blocks.{All, Pairwise, Apart}
use allocator_builder.Allocator.Contract.{Contract}
use allocator_builder.Allocator.Client.{Reach, begin, next, granted}
use allocator_builder.StackAllocator
use allocator_builder.StackAllocator.{Arena, stack_allocator}
use allocator_builder.StackAllocator.Serves.{stack-Contract, InArray}
use allocator_builder.Segregator.{State, segregator, allocate}
use allocator_builder.Segregator.Serves.{Fitting, Given, segregator-Pairwise}

abbrev memory : Memory
memory a = 0

abbrev small : Allocator
small = stack_allocator 64 8

abbrev large : Allocator
large = stack_allocator 4096 8

abbrev fresh : State 64 small large
fresh = (record { base = 1000; p = 1000 }, record { base = 2000; p = 2000 })

allocate_small : (allocate 64 small large 20 fresh memory).0 ≡ record { ptr = 1000; length = 24 }
unfolding allocate StackAllocator.allocate round_to_alignment
allocate_small = refl

allocate_large : (allocate 64 small large 65 fresh memory).0 ≡ record { ptr = 2000; length = 72 }
unfolding allocate StackAllocator.allocate round_to_alignment
allocate_large = refl

-- Afterwards 24 bytes of the first and 72 of the second are used.
abbrev used : State 64 small large
used = (record { base = 1000; p = 1024 }, record { base = 2000; p = 2072 })

abbrev blocks : List Block
blocks = record { ptr = 2000; length = 72 } ∷ record { ptr = 1000; length = 24 } ∷ []

small-Contract : Contract small
small-Contract = stack-Contract 64 8 1000 (omega arith)

large-Contract : Contract large
large-Contract = stack-Contract 4096 8 2000 (omega arith)

sizes : (b : Block) → small-Contract.Gives b → b.length ≤ 64
unfolding small-Contract stack-Contract InArray
sizes b g = ground arith

separate : (b c : Block) → small-Contract.Gives b → large-Contract.Gives c → Apart b c
unfolding small-Contract large-Contract stack-Contract InArray
separate b c g h = ground arith

two_calls :
    Reach
      (segregator 64 small large)
      (Fitting 64 small large small-Contract large-Contract sizes separate)
      fresh
      used
      blocks
unfolding Fitting small-Contract large-Contract stack-Contract allocate StackAllocator.allocate
    round_to_alignment
two_calls =
    next (next begin (granted 20 memory (λ _. omega arith, λ _. omega arith) refl))
      (granted 65 memory (λ _. omega arith, λ _. omega arith) refl)

segregator-Pairwise_example :
    Pairwise blocks × All (Given 64 small large small-Contract large-Contract sizes separate) blocks
unfolding small-Contract large-Contract stack-Contract
segregator-Pairwise_example =
    segregator-Pairwise 64 small large small-Contract large-Contract sizes separate {s = fresh}
      {s' = used} {held = blocks}
      (record { valid = omega arith; there = refl; live = tt; pairwise = tt })
      (record { valid = omega arith; there = refl; live = tt; pairwise = tt }) two_calls
