-- ===== src/Heap/Tests.antt =====
-- Runs of a heap of 128 chunks of 8 bytes at address 4096.
use allocator_builder.Base.{
  Bool, none, some, ℕ, ◌+◌, ◌-◌, ◌*◌, ◌≤◌, ◌<◌, ◌≡◌, ◌⊎◌, inl, refl, ap, arith, true, [], ◌∷◌,
}
use allocator_builder.Block.{Block, empty_block, Memory, round_to_alignment}
use allocator_builder.StackAllocator
use allocator_builder.StackAllocator.{Arena, stack_allocator}
use allocator_builder.Control.Register.{all_set, shl, set_used, low_mask, single_mask}
use allocator_builder.Control.Search.{find_in_register, search_single}
use allocator_builder.Control.{
  free_chunks, test_and_set_within_single_register, set_within_single_register,
}
use allocator_builder.Control.Chunks.{free, Sets}
use allocator_builder.Heap.{
  Heap, owns, block_to_context, to_block, of_found, allocate, deallocate, allocate_blocks,
  or_with_overlap, reallocate, expand, grown, behind, allocate_within_a_single_control_register,
}
use allocator_builder.Heap.Lifetime.{registers_in, construct, init, construct_lem}
use allocator_builder.Heap.Layout.{IsValid, block_at}
use allocator_builder.Heap.Granted.{Granted}
use allocator_builder.Control.Single.{search_single-Finds}
use allocator_builder.Heap.Allocate.{allocate_lem}
use allocator_builder.Heap.Deallocate.{deallocate_lem, deallocate_untidy, deallocate-allocate}
use allocator_builder.Heap.Expand.{Expanded, expand_lem}
use allocator_builder.Heap.Shrink.{Shrunk, reallocate_shrinks}
use allocator_builder.Heap.Client.{Run, block_of}
use allocator_builder.Control.Found.{Takes}

abbrev memory : Memory
memory a = 0

abbrev fresh : Heap
fresh = record {
  number_of_chunks = 128;
  chunk_size = 8;
  buffer = record { ptr = 4096; length = 1024 };
  control_buffer = record { ptr = 4080; length = 16 };
  control = all_set ∷ all_set ∷ [];
}

-- The first three chunks are used.
abbrev begun : Heap
begun = record fresh { control = (all_set - 7) ∷ all_set ∷ [] }

fresh-IsValid : IsValid fresh
fresh-IsValid = record {
  chunky = omega arith;
  counted = refl;
  sized = refl;
  nonnull = omega arith;
  fits = omega arith;
  countable = omega arith;
}

six-IsValid : IsValid (record fresh { control = (all_set - 63) ∷ all_set ∷ [] })
six-IsValid = record {
  chunky = omega arith;
  counted = refl;
  sized = refl;
  nonnull = omega arith;
  fits = omega arith;
  countable = omega arith;
}

allocate-fresh : allocate 20 fresh ≡ (record { ptr = 4096; length = 24 }, begun)
unfolding allocate allocate_blocks or_with_overlap of_found to_block round_to_alignment
    search_single allocate_within_a_single_control_register find_in_register set_used low_mask shl
allocate-fresh = refl

deallocate-begun : deallocate (record { ptr = 4096; length = 24 }) begun ≡ (empty_block, fresh)
unfolding deallocate owns block_to_context free_chunks set_within_single_register set_used
    single_mask shl
deallocate-begun = refl

deallocate_foreign :
    let b : Block = record { ptr = 5120; length = 24 } in (deallocate b begun ≡ (b, begun))
unfolding deallocate owns
deallocate_foreign = refl

expand-begun : expand (record { ptr = 4096; length = 24 }) 9 begun ≡ (
  (true, record { ptr = 4096; length = 40 }),
  record begun { control = (all_set - 31) ∷ all_set ∷ [] },
)
unfolding expand block_to_context behind grown test_and_set_within_single_register
    set_within_single_register round_to_alignment set_used single_mask shl
expand-begun = refl

-- The number of chunks does not fit into an `int`: the block stays as long as it is.
expand_huge :
    let b : Block = record { ptr = 4096; length = 24 } in
    (expand b (8 * 4294967296) begun ≡ ((true, b), begun))
unfolding expand block_to_context behind grown test_and_set_within_single_register
    set_within_single_register round_to_alignment set_used single_mask shl
expand_huge = refl

allocate_lem_example :
    let (b, h') = allocate 20 fresh in
    ((b ≡ empty_block) × (h' ≡ fresh))
    ⊎ ((k : ℕ) × (0 < k) × (20 ≤ k * 8) × (k * 8 < 20 + 8) × Granted k fresh b h')
allocate_lem_example = allocate_lem {h = fresh} 20 fresh-IsValid (omega arith)

begun-IsValid : IsValid begun
begun-IsValid = record {
  chunky = omega arith;
  counted = refl;
  sized = refl;
  nonnull = omega arith;
  fits = omega arith;
  countable = omega arith;
}

deallocate_lem_example :
    let (b, h') = deallocate (block_at begun 0 3) begun in
    (b ≡ empty_block)
    × Sets 1 0 3 begun.control h'.control
    × (h' ≡ record begun { control = h'.control })
deallocate_lem_example =
    deallocate_lem {h = begun} begun-IsValid 0 3 (omega arith) (omega arith) (inl (omega arith))

-- 64 chunks from the ninth on
deallocate_untidy_example :
    let (b, h') = deallocate (block_at begun 8 64) begun in Sets 1 0 64 begun.control h'.control
deallocate_untidy_example =
    deallocate_untidy {h = begun} begun-IsValid 8 64 (omega arith) (omega arith) (λ t. ground arith)

begun-Takes : Takes 3 0 fresh.control begun.control
unfolding search_single find_in_register set_used low_mask shl
begun-Takes = (search_single-Finds 3 0 fresh.control (omega arith)).1

begun-Granted : Granted 3 fresh (record { ptr = 4096; length = 24 }) begun
begun-Granted = record {
  start = 0;
  within = omega arith;
  placed = refl;
  takes = begun-Takes;
  others = refl;
}

deallocate-allocate_example :
    let (b, h') = allocate 20 fresh in
    let (b', h'') = deallocate b h' in
    (b' ≡ empty_block) × ((c : ℕ) → free h''.control c ≡ free fresh.control c)
deallocate-allocate_example =
    deallocate-allocate {h = fresh} 20 0 3 fresh-IsValid (omega arith) (omega arith)
      (ap (λ r. r.0) allocate-fresh) (inl (omega arith))

abbrev first : Run
first = record { start = 0; count = 3 }

abbrev second : Run
second = record { start = 64; count = 64 }

-- Both are used.
abbrev used : Heap
used = record fresh { control = (all_set - 7) ∷ 0 ∷ [] }

-- The first block grows by two chunks.
third : (Bool × Block) × Heap
third = expand (block_of used first) 16 used

abbrev arena : Arena
arena = record { base = 4096; p = 4096 }

-- 100 chunks of 7 bytes are asked for.
construct_lem_example :
    let (controls, s', m') = (stack_allocator 4096 8).allocate 16 arena memory in
    let (buffer, s'', m'') = (stack_allocator 4096 8).allocate 1024 s' m' in
    (h : Heap) × (construct (stack_allocator 4096 8) 100 7 arena memory ≡ (some h, s'', m''))
    × (h.buffer ≡ buffer)
    × (h.control_buffer ≡ controls)
    × IsValid h
    × (100 ≤ h.number_of_chunks)
    × (7 ≤ h.chunk_size)
    × ((c : ℕ) → c < h.number_of_chunks → free h.control c ≡ 1)
unfolding StackAllocator.allocate round_to_alignment
construct_lem_example =
    construct_lem (stack_allocator 4096 8) 100 7 arena memory (omega arith) (omega arith)
      (omega arith) (omega arith) (omega arith) (omega arith) refl (omega arith)

-- A control buffer that the allocator refuses
no_room : (construct (stack_allocator 8 8) 100 7 arena memory).0 ≡ none
unfolding construct init registers_in StackAllocator.allocate round_to_alignment
no_room = refl

-- Three chunks behind the three used ones
expand_lem_example :
    (20 ≤ 3 * 8) × (3 * 8 < 28) × Expanded begun 0 3 3 (expand (block_at begun 0 3) 20 begun)
unfolding round_to_alignment
expand_lem_example =
    expand_lem {h = begun} begun-IsValid 0 3 (omega arith) (omega arith) 20 (omega arith)
      (omega arith) (omega arith) (omega arith)

-- 40 of 48 bytes stay: the sixth chunk becomes free.
reallocate_shrinks_example :
    let six : Heap = record fresh { control = (all_set - 63) ∷ all_set ∷ [] } in
    Shrunk six 0 6 5 memory (reallocate (block_at six 0 6) 40 six memory)
unfolding round_to_alignment
reallocate_shrinks_example =
    reallocate_shrinks {h = record fresh { control = (all_set - 63) ∷ all_set ∷ [] }} six-IsValid 0
      6 (omega arith) 40 memory (omega arith) (omega arith) (inl (omega arith))
