-- ===== src/SharedHeap/Alone/Reallocate.antt =====
-- A thread that is alone on the shared heap: `reallocate`.
use allocator_builder.Base.{
  int_of, ℕ, suc, ◌-◌, ◌/◌, ◌≡◌, refl, ap, sym, ◌∙◌, arith, Bool, true, false, some, length, ◌==◌,
  ltb→lt, Bool-cases, inl, inr, if◌then◌else◌, ltb,
}
use allocator_builder.Block.{Block, Memory, is_set, round_to_alignment, block_copy}
use allocator_builder.Op.{pure}
use allocator_builder.Reallocator.{reallocate_with_copy}
use allocator_builder.Reallocator as Cases
use allocator_builder.Control.Register.{all_set}
use allocator_builder.Heap.{Heap, allocate_op, deallocate_op, expand_op}
use allocator_builder.Heap as Single
use allocator_builder.Heap.Layout.{IsValid}
use allocator_builder.Heap.Allocate.{allocate_others}
use allocator_builder.Heap.Expand.{expand_fails}
use allocator_builder.SharedHeap.{
  SharedHeap, allocate, deallocate, move, resize, is_handled_default, reallocate,
}
use allocator_builder.SharedHeap.Program.{Prog, ret, Shared, outside, copy, run, ◌>>◌}
use allocator_builder.SharedHeap.Alone.{continue, run-bind, single_heap}
use allocator_builder.SharedHeap.Alone.Frees.{deallocate-run}
use allocator_builder.SharedHeap.Alone.Allocate.{allocate-run}
use allocator_builder.SharedHeap.Alone.Resize.{returned_op, expand-run, cut-run}

module _ (attempts : ℕ) (h : SharedHeap) (s : Shared) (valid : IsValid (single_heap h s))
    (sized : h.control_size ≡ length s.control) (member : s.all_set_member ≡ all_set) where
  -- What follows the allocation of the new block
  abbrev move_to : Block → Block → Prog (Bool × Block)
  move_to b new_block =
      if is_set new_block
      then copy b new_block (ret tt) >> deallocate (suc attempts) h b >> ret (true, new_block)
      else ret (false, b)

  move_to-run :
      (b new_block : Block) (k : Heap)
      → is_set new_block ≡ true
      → k ≡ record (single_heap h s) { control = k.control }
      → run (move_to b new_block) outside (record s { control = k.control })
        ≡ returned_op s
            ((true, new_block), (Single.deallocate b k).1, block_copy b new_block s.memory)
  unfolding run
  move_to-run b new_block k set same =
      let copied : Shared = record s {
        control = k.control;
        memory = block_copy b new_block s.memory;
      } in
      rw set (
        run-bind (deallocate (suc attempts) h b) (λ _. ret (true, new_block)) outside copied
        ∙ ap (continue (λ _. ret (true, new_block))) (deallocate-run attempts h b copied member)
        ∙ ap
            (λ x. some (
              (true, new_block),
              outside,
              record copied { control = (Single.deallocate b x).1.control },
            ))
            (sym same))

  move-run :
      (b : Block) (n : ℕ)
      → run (move (suc attempts) h b n) outside s
        ≡ returned_op s
            (reallocate_with_copy deallocate_op allocate_op b n (single_heap h s) s.memory)
  unfolding move reallocate_with_copy run
  move-run b n =
      let (new_block, k) = Single.allocate n (single_heap h s) in
      run-bind (allocate (suc attempts) h n) (move_to b) outside s
      ∙ ap (continue (move_to b)) (allocate-run attempts h s valid sized member n)
      ∙ elim (Bool-cases (is_set new_block)) [
        | inl set ↦
            move_to-run b new_block k set (allocate_others {h = single_heap h s} n valid)
            ∙ rw (set, reallocate_with_copy) refl
        | inr unset ↦ rw (unset, reallocate_with_copy) refl
      ]

  resize-run :
      (b : Block) (n : ℕ)
      → run (resize (suc attempts) h b n) outside s
        ≡ returned_op s (Single.resize b n (single_heap h s) s.memory)
  unfolding resize Single.resize run
  resize-run b n =
      let needed = int_of (round_to_alignment h.chunk_size n / h.chunk_size) in
      elim (Bool-cases (int_of (b.length / h.chunk_size) == needed)) [
        | inl same ↦ rw same refl
        | inr other ↦ elim (Bool-cases (ltb n b.length)) [
          | inl shorter ↦ rw (other, shorter) (cut-run attempts h b needed s member)
          | inr longer ↦ rw (other, longer) (move-run b n)
        ]
      ]

  -- The cases that all allocators share, on the heap for one thread
  abbrev handled : Block → ℕ → (Bool × Block) × Heap × Memory
  handled b n =
      Cases.is_handled_default allocate_op deallocate_op (some expand_op) b n (single_heap h s)
        s.memory

  handled-run :
      (b : Block) (n : ℕ)
      → run (is_handled_default (suc attempts) h b n) outside s ≡ returned_op s (handled b n)
  unfolding is_handled_default Cases.is_handled_default run
  handled-run b n = elim (Bool-cases (b.length == n)) [
    | inl same ↦ rw same refl
    | inr other ↦ elim (Bool-cases (n == 0)) [
      | inl nothing ↦
          rw (other, nothing)
            (run-bind (deallocate (suc attempts) h b) (λ b'. ret (true, b')) outside s
              ∙ ap (continue (λ b'. ret (true, b'))) (deallocate-run attempts h b s member))
      | inr some_bytes ↦ elim (Bool-cases (is_set b)) [
        | inr unset ↦
            rw (other, some_bytes, unset)
              (run-bind (allocate (suc attempts) h n) (λ b'. ret (true, b')) outside s
                ∙ ap (continue (λ b'. ret (true, b')))
                    (allocate-run attempts h s valid sized member n))
        | inl set ↦ elim (Bool-cases (ltb b.length n)) [
          | inr smaller ↦ rw (other, some_bytes, set, smaller) refl
          | inl larger ↦
              rw (other, some_bytes, set, larger)
                (expand-run attempts h b (n - b.length) s
                  (λ e. omega (arith, ltb→lt b.length n larger)) sized member)
        ]
      ]
    ]
  ]

  handled_same :
      (b : Block) (n : ℕ)
      → (handled b n).0.0 ≡ false
      → handled b n ≡ ((false, b), single_heap h s, s.memory)
  unfolding Cases.is_handled_default
  handled_same b n e = elim (Bool-cases (b.length == n)) [
    | inl same ↦ absurd (cc (rw same at e))
    | inr other ↦ elim (Bool-cases (n == 0)) [
      | inl nothing ↦ absurd (cc (rw (other, nothing) at e))
      | inr some_bytes ↦ elim (Bool-cases (is_set b)) [
        | inr unset ↦ absurd (cc (rw (other, some_bytes, unset) at e))
        | inl set ↦ elim (Bool-cases (ltb b.length n)) [
          | inr smaller ↦ rw (other, some_bytes, set, smaller) refl
          | inl larger ↦
              rw (other, some_bytes, set, larger)
                (ap (λ r. (r.0, r.1, s.memory))
                  (expand_fails (single_heap h s) b (n - b.length)
                    (λ z. omega (arith, ltb→lt b.length n larger))
                    (rw (other, some_bytes, set, larger) at e)))
        ]
      ]
    ]
  ]

  -- What follows these cases
  abbrev after_handled : ℕ → Bool × Block → Prog (Bool × Block)
  after_handled n r = if r.0 then ret (true, r.1) else resize (suc attempts) h r.1 n

  abbrev single_after : ℕ → (Bool × Block) × Heap × Memory → (Bool × Block) × Heap × Memory
  single_after n (r, k, m) = if r.0 then ((true, r.1), k, m) else Single.resize r.1 n k m

  single_after-eq :
      (n : ℕ) (r : (Bool × Block) × Heap × Memory)
      → single_after n r ≡ (if r.0.0 then pure (true, r.0.1) else Single.resize r.0.1 n) r.1 r.2
  single_after-eq n ((true, b'), k, m) = refl
  single_after-eq n ((false, b'), k, m) = refl

  after_handled-run :
      (b : Block) (n : ℕ) (r : (Bool × Block) × Heap × Memory)
      → (r.0.0 ≡ false → r ≡ ((false, b), single_heap h s, s.memory))
      → continue (after_handled n) (returned_op s r) ≡ returned_op s (single_after n r)
  unfolding run
  after_handled-run b n ((true, b'), k, m) same = refl
  after_handled-run b n ((false, b'), k, m) same =
      let e = same refl in
      ap (λ r. continue (after_handled n) (returned_op s r)) e
      ∙ resize-run b n
      ∙ ap (λ r. returned_op s (single_after n r)) (sym e)

  -- A thread that is alone on a valid heap, and outside of the mutex, returns from `reallocate` with one
  -- attempt at each compare-exchange; the result, the registers and the memory are those that the
  -- heap for one thread gives.
  pub reallocate-run :
      (b : Block) (n : ℕ)
      → let (r, k, m) = Single.reallocate b n (single_heap h s) s.memory in
        run (reallocate (suc attempts) h b n) outside s
        ≡ some (r, outside, record s { control = k.control; memory = m })
  unfolding reallocate Single.reallocate
  reallocate-run b n =
      run-bind (is_handled_default (suc attempts) h b n) (after_handled n) outside s
      ∙ ap (continue (after_handled n)) (handled-run b n)
      ∙ after_handled-run b n (handled b n) (handled_same b n)
      ∙ ap (returned_op s) (single_after-eq n (handled b n))
