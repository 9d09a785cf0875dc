-- ===== src/Freelist/Tests.antt =====
-- A free list of at most 8 blocks of 16 to 32 bytes, in batches of 4, over a bump allocator.
use allocator_builder.Base.{◌≡◌, refl, arith, [], ◌∷◌, replicate}
use allocator_builder.Block.{Block, empty_block, Memory, round_to_alignment}
use allocator_builder.Allocator.{Allocator}
use allocator_builder.StackAllocator
use allocator_builder.StackAllocator.{Arena, stack_allocator}
use allocator_builder.Stack.{push, pop}
use allocator_builder.Stack.Refine.{Represents, bottom, above}
use allocator_builder.Freelist.{
  Freelist, allocate, deallocate, take, refill, allocate_batch, push_batch, owns, destroy,
}
use allocator_builder.Freelist.Reuse.{Pools, allocate-deallocate}
use allocator_builder.Freelist.Batch.{allocate_fills}
use allocator_builder.Freelist.Drain.{give_back, Drained, destroy-Drained}

abbrev memory : Memory
memory a = 0

abbrev parent : Allocator
parent = stack_allocator 1024 8

abbrev fresh : Freelist parent 8 4
fresh = record {
  parent = record { base = 4096; p = 4096 };
  root = record { elements = replicate 8 0; used = 0 };
  lower_bound = 16;
  upper_bound = 32;
}

abbrev block : Block
block = record { ptr = 8000; length = 32 }

fresh-Represents : Represents 8 fresh.root []
fresh-Represents = record { room = refl; countable = omega arith; holds = bottom }

-- The first block of a batch of 128 bytes; three addresses are left in the pool.
allocate-fresh :
    let (b, f, m) = allocate parent 8 4 20 fresh memory in
    (b ≡ record { ptr = 4096; length = 32 })
    × (f.parent.p ≡ 4224)
    × (f.root.elements ≡ 4128 ∷ 4160 ∷ 4192 ∷ replicate 5 0)
    × (f.root.used ≡ 3)
unfolding allocate take refill allocate_batch push_batch push pop StackAllocator.allocate
    round_to_alignment
allocate-fresh = (refl, refl, refl, refl)

allocate_outside : (allocate parent 8 4 33 fresh memory).0 ≡ empty_block
unfolding allocate
allocate_outside = refl

allocate-deallocate_example :
    let (b', f', m') = deallocate parent 8 4 block fresh memory in
    let (c, f'', m'') = allocate parent 8 4 20 f' m' in
    (b' ≡ empty_block)
    × (c ≡ record { ptr = 8000; length = 32 })
    × (m'' ≡ memory)
    × Pools parent 8 4 fresh f'' []
unfolding owns
allocate-deallocate_example =
    allocate-deallocate parent 8 4 fresh [] block 20 memory fresh-Represents (omega arith) refl
      (omega arith) (omega arith)

allocate_fills_example :
    let (b, f', m'') = allocate parent 8 4 20 fresh memory in
    (b ≡ record { ptr = 4096; length = 32 })
    × (m'' ≡ memory)
    × Pools parent 8 4
        (record fresh { parent = record { base = 4096; p = 4224 } })
        f'
        (4192 ∷ 4160 ∷ 4128 ∷ [])
unfolding StackAllocator.allocate round_to_alignment
allocate_fills_example =
    allocate_fills parent 8 4 fresh 20 memory refl fresh-Represents (omega arith) (omega arith)
      (omega arith) (omega arith) refl (omega arith)

-- Two blocks in the pool
abbrev pooled : Freelist parent 8 4
pooled = record {
  parent = record { base = 4096; p = 4160 };
  root = record { elements = 4096 ∷ 4128 ∷ replicate 6 0; used = 2 };
  lower_bound = 16;
  upper_bound = 32;
}

destroy-Drained_example :
    Drained parent 8 4
      (give_back parent 8 4 (4128 ∷ 4096 ∷ []) 32 (record { base = 4096; p = 4160 }) memory)
      (destroy parent 8 4 pooled memory)
destroy-Drained_example = destroy-Drained parent 8 4 (4128 ∷ 4096 ∷ []) pooled memory (record {
  room = refl;
  countable = omega arith;
  holds = above 4128 (omega arith) (λ d. refl) (above 4096 (omega arith) (λ d. refl) bottom);
})
