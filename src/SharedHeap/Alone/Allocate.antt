-- ===== src/SharedHeap/Alone/Allocate.antt =====
-- A thread that is alone on the shared heap: its allocations.
use allocator_builder.Base.{
  ℕ, suc, ◌/◌, ◌%◌, ◌<◌, ◌≡◌, refl, ap, subst, ◌∙◌, arith, Option, none, some, List, [], length,
  ◌==◌, eq→==, ne→==, Bool-cases, inl, inr, ℕ_discrete, ltb, lt→ltb, ge→ltb, dec_lt, max, mul64,
}
use allocator_builder.Block.{Block, empty_block, round_to_alignment}
use allocator_builder.Control.{BlockContext}
use allocator_builder.Control.Register.{all_set}
use allocator_builder.Control.Search.{
  Found, search_single, search_complete, search_registers, search_overlap,
}
use allocator_builder.Control.Found.{Finds}
use allocator_builder.Control.Single.{search_single-Finds}
use allocator_builder.Control.Complete.{search_complete-Finds, search_registers-Finds}
use allocator_builder.Heap.{Heap, to_block, mark_used, of_found}
use allocator_builder.Heap as Single
use allocator_builder.Heap.Layout.{IsValid}
use allocator_builder.Heap.Granted.{found-Granted, Granted-set}
use allocator_builder.SharedHeap.{
  SharedHeap, of_taken, or_with_overlap, allocate_blocks, allocate, block_to_context,
}
use allocator_builder.SharedHeap.Program.{Prog, ret, Shared, Mode, outside, run, ◌>>=◌}
use allocator_builder.SharedHeap.Searches.{take_single, take_complete, take_multiple, take_overlap}
use allocator_builder.SharedHeap.Alone.{continue, run-bind, with_control, single_heap}
use allocator_builder.SharedHeap.Alone.Searches.{outcome, take_single-run}
use allocator_builder.SharedHeap.Alone.Complete.{take_complete-run}
use allocator_builder.SharedHeap.Alone.Runs.{take_multiple-run}
use allocator_builder.SharedHeap.Alone.Overlap.{overlapped, take_overlap-run}

-- A block and the heap for one thread, as the return of a program
abbrev pub returned : Shared → Block × Heap → Option (Block × Mode × Shared)
returned s (b, h) = some (b, outside, with_control s h.control)

module _ (attempts : ℕ) (h : SharedHeap) (s : Shared) (valid : IsValid (single_heap h s))
    (sized : h.control_size ≡ length s.control) (member : s.all_set_member ≡ all_set) where
  -- The search with overlap
  overlap-run :
      (n : ℕ)
      → run (or_with_overlap (suc attempts) h n none) outside s
        ≡ returned s (Single.allocate_with_register_overlap n (single_heap h s))
  unfolding run or_with_overlap Single.allocate_with_register_overlap mark_used of_taken to_block
      block_to_context Single.block_to_context
  overlap-run n =
      run-bind (take_overlap h.control_size (suc attempts) context_of n)
        (λ start. ret (of_taken h n start)) outside s
      ∙ ap (continue (λ start. ret (of_taken h n start))) (
          ap (λ k. run (take_overlap k (suc attempts) context_of n) outside s) sized
          ∙ take_overlap-run n attempts context_of s member)
      ∙ blocks (search_overlap n s.control)
    where
      context_of : ℕ → BlockContext
      context_of i = block_to_context h (of_taken h n (some i))

      blocks :
          (found : Option ℕ)
          → continue (λ start. ret (of_taken h n start)) (overlapped context_of s found)
            ≡ returned s (elim found [
              | none ↦ (empty_block, single_heap h s)
              | some start ↦ (
                to_block (single_heap h s) n start,
                mark_used (single_heap h s) (to_block (single_heap h s) n start),
              )
            ])
      blocks none = refl
      blocks (some start) = refl

  taken-run :
      (n start : ℕ) (rest : List ℕ)
      → run (or_with_overlap (suc attempts) h n (some start)) outside (with_control s rest)
        ≡ some (to_block (single_heap h s) n start, outside, with_control s rest)
  unfolding run or_with_overlap of_taken to_block
  taken-run n start rest = refl

  -- What follows a search of whole registers or within one
  after_search-run :
      (n : ℕ) (found : Found)
      → 0 < n
      → Finds n 0 s.control found
      → continue (or_with_overlap (suc attempts) h n) (outcome outside s [] found)
        ≡ returned s (Single.or_with_overlap n (of_found (single_heap h s) n found))
  unfolding Single.or_with_overlap of_found
  after_search-run n none pos f = overlap-run n
  after_search-run n (some (start, rest)) pos f =
      rw
        (Granted-set {h = single_heap h s} valid pos
          (found-Granted {h = single_heap h s} n start rest valid pos f))
        (taken-run n start rest)

  search-run :
      (n : ℕ) (p : Prog (Option ℕ)) (found : Found)
      → 0 < n
      → Finds n 0 s.control found
      → run p outside s ≡ outcome outside s [] found
      → run (p >>= or_with_overlap (suc attempts) h n) outside s
        ≡ returned s (Single.or_with_overlap n (of_found (single_heap h s) n found))
  search-run n p found pos f e =
      run-bind p (or_with_overlap (suc attempts) h n) outside s
      ∙ ap (continue (or_with_overlap (suc attempts) h n)) e
      ∙ after_search-run n found pos f

  allocate_blocks-run :
      (n : ℕ)
      → 0 < n
      → run (allocate_blocks (suc attempts) h n) outside s
        ≡ returned s (Single.allocate_blocks n (single_heap h s))
  unfolding allocate_blocks Single.allocate_blocks Single.allocate_within_a_single_control_register
      Single.allocate_within_complete_control_register
      Single.allocate_multiple_complete_control_registers
  allocate_blocks-run n pos = elim (dec_lt n 64) [
    | yes few ↦ rw (lt→ltb n 64 few) (
        search-run n (take_single n h.control_size 0) (search_single n 0 s.control) pos
          (search_single-Finds n 0 s.control (omega arith))
          (ap (λ k. run (take_single n k 0) outside s) sized
            ∙ take_single-run n 0 [] s.control s (λ e. omega arith) (refl, refl)))
    | no many ↦ rw (ge→ltb n 64 (omega arith)) (elim (ℕ_discrete n 64) [
      | yes one ↦ rw (eq→== n 64 one) (
          search-run n (take_complete h.control_size (suc attempts)) (search_complete 0 s.control)
            pos (rw one (search_complete-Finds 0 s.control))
            (ap (λ k. run (take_complete k (suc attempts)) outside s) sized
              ∙ take_complete-run attempts s member))
      | no more ↦ rw (ne→== n 64 more) (elim (ℕ_discrete (n % 64) 0) [
        | yes whole ↦ rw (eq→== (n % 64) 0 whole) (
            search-run n (take_multiple h.control_size n) (search_registers (n / 64) 0 s.control)
              pos
              (subst (λ k. Finds k 0 s.control (search_registers (n / 64) 0 s.control))
                (omega arith) (search_registers-Finds (n / 64) 0 s.control))
              (ap (λ k. run (take_multiple k n) outside s) sized
                ∙ take_multiple-run n s (omega arith) member))
        | no part ↦ rw (ne→== (n % 64) 0 part) (overlap-run n)
      ])
    ])
  ]

  -- A thread that is alone on a valid heap, and outside of the mutex, returns from `allocate` with one
  -- attempt at each compare-exchange; the block and the registers are those that the heap for one
  -- thread gives.
  pub allocate-run :
      (n : ℕ)
      → run (allocate (suc attempts) h n) outside s
        ≡ some (
          (Single.allocate n (single_heap h s)).0,
          outside,
          record s { control = (Single.allocate n (single_heap h s)).1.control },
        )
  unfolding run allocate Single.allocate
  allocate-run n = elim (Bool-cases (n == 0)) [
    | inl nothing ↦ rw nothing refl
    | inr wanted ↦ elim (Bool-cases (ltb (mul64 h.chunk_size h.number_of_chunks) n)) [
      | inl huge ↦ rw (wanted, huge) refl
      | inr fitting ↦
          rw (wanted, fitting)
            (allocate_blocks-run (max 1 (round_to_alignment h.chunk_size n / h.chunk_size))
              (omega arith))
    ]
  ]
