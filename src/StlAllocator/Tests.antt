-- ===== src/StlAllocator/Tests.antt =====
-- Three objects of 8 bytes in a bump allocator, whose alignment leaves some bytes behind them.
use allocator_builder.Base.{◌≡◌, ◌⊎◌, refl, arith, true, false, none, some}
use allocator_builder.Block.{Block, is_set, Memory, round_to_alignment}
use allocator_builder.Allocator.{Allocator}
use allocator_builder.StackAllocator
use allocator_builder.StackAllocator.{Arena, stack_allocator}
use allocator_builder.StlAllocator.{allocate, deallocate, max_size}
use allocator_builder.StlAllocator.Lengths.{
  prefixed, prefix_of, kept_at, given_back, deallocate-allocate_objects,
}

abbrev parent : Allocator
parent = stack_allocator 256 8

abbrev memory : Memory
memory a = 0

abbrev later : Memory
later a = 99

abbrev arena : Arena
arena = record { base = 1000; p = 1000 }

abbrev inner : Block
inner = record { ptr = 1000; length = 32 }

largest : max_size 8 parent (λ b. 0) ≡ 2305843009213693951
unfolding max_size
largest = refl

deallocate-allocate_objects_example :
    let (r, s'', m'') = allocate 8 (prefixed 8 parent) (prefix_of 8 parent) 3 arena memory in
    let now = kept_at 1000 m'' later in
    (s'' ≡ record { base = 1000; p = 1032 })
    × (((is_set inner ≡ false) × (r ≡ none) × (m'' ≡ memory))
        ⊎ ((is_set inner ≡ true)
            × (r ≡ some 1004)
            × (deallocate 8
                  (prefixed 8 parent)
                  (prefix_of 8 parent)
                  1004
                  3
                  (record { base = 1000; p = 1032 })
                  now
                ≡ given_back 8 parent 1000 28 (record { base = 1000; p = 1032 }) now)))
unfolding StackAllocator.allocate round_to_alignment
deallocate-allocate_objects_example =
    deallocate-allocate_objects 8 parent 3 arena (record { base = 1000; p = 1032 }) memory later
      (omega arith) (omega arith) (omega arith) (λ set. (omega arith, omega arith))
