-- ===== src/CascadingAllocator/Parts.antt =====
-- The allocators of alb/stack_allocator.hpp and alb/heap.hpp as the nodes of alb/cascading_allocator.hpp.
use allocator_builder.Base.{ℕ, ◌+◌, ◌≤◌, ◌<◌, ◌≡◌, inl, inr, arith, ap, ◌∙◌, word_mod}
use allocator_builder.StackAllocator
use allocator_builder.StackAllocator.{Arena, stack_allocator}
use allocator_builder.StackAllocator.Bounds.{allocate_cases}
use allocator_builder.StackAllocator.Bounds as Stack
use allocator_builder.Heap.{Heap, heap, allocate, owns}
use allocator_builder.Heap.Layout.{IsValid, block_at, owns-block_at}
use allocator_builder.Heap.Allocate.{allocate_lem, Granted-IsValid}
use allocator_builder.CascadingAllocator.Owned.{Gives}

-- An array that lies below the bound
abbrev pub Below : (max_size bound : ℕ) → Arena → Type 0
Below max_size bound s = Stack.IsValid max_size s × (s.base ≤ bound)

pub stack-Gives :
    (max_size alignment bound node_size n : ℕ) (create : ℕ → Arena)
    → 0 < alignment
    → n + alignment + (bound + max_size) ≤ word_mod
    → Gives (stack_allocator max_size alignment) node_size create (Below max_size bound) n
unfolding StackAllocator.owns
stack-Gives max_size alignment bound node_size n create aligned fits s m (valid, low) =
    elim (allocate_cases max_size alignment aligned n valid (omega (arith, valid.to_end))) [
      | inl (none_left, same) ↦ rw (none_left, same) ((valid, low), λ set. ground (arith, set))
      | inr (at, enough, tight, base_same, p_new, live, valid') ↦ (
        (valid', omega arith),
        λ set. ground (arith, live.set, live.above, live.used, valid'.to_end, valid'.fits),
      )
    ]

-- A heap whose chunks are not too large
abbrev pub Small : ℕ → Heap → Type 0
Small n h = IsValid h × (n + h.chunk_size ≤ word_mod)

pub heap-Gives :
    (node_size n bound : ℕ) (create : ℕ → Heap)
    → n ≤ bound
    → Gives heap node_size create (Small bound) n
heap-Gives node_size n bound create less h m (valid, fits) =
    elim (allocate_lem {h = h} n valid (omega arith)) [
      | inl (none_left, same) ↦ rw (none_left, same) ((valid, fits), λ set. ground (arith, set))
      | inr (k, pos, enough, tight, g) ↦
          let kept = Granted-IsValid {h = h} valid g in
          let here : (allocate n h).0 ≡ block_at (allocate n h).1 g.start k =
            ground (arith, g.placed, g.others) in
          let within : g.start + k ≤ (allocate n h).1.number_of_chunks =
            ground (arith, g.within, g.others) in
          (
            (kept, ground (arith, fits, g.others)),
            λ set. ap (owns (allocate n h).1) here ∙ owns-block_at kept g.start k within pos,
          )
    ]
