-- ===== src/SharedHeap/Alone/Resize.antt =====
-- A thread that is alone on the shared heap: blocks that grow and shrink in place.
use allocator_builder.Base.{
  ℕ, suc, ◌+◌, ◌/◌, ◌≡◌, ◌≢◌, refl, ap, sym, ◌∙◌, arith, Bool, true, false, Option, some, List,
  length, ne→==, Bool-cases, inl, inr, if◌then◌else◌, leb_int, sub_int, word_of, int_of, mul64,
}
use allocator_builder.Block.{Block, Memory, round_to_alignment}
use allocator_builder.Control as Field
use allocator_builder.Control.{BlockContext}
use allocator_builder.Control.Register.{all_set}
use allocator_builder.Heap.{Heap, allocate_op, deallocate_op, expand_op}
use allocator_builder.Heap as Single
use allocator_builder.Heap.Expand.{grown_at, expand-grown_at}
use allocator_builder.SharedHeap.{SharedHeap, block_to_context, behind, expand, cut, grown}
use allocator_builder.SharedHeap.Program.{Prog, ret, shared, Shared, Mode, outside, run, ◌>>=◌}
use allocator_builder.SharedHeap.Registers.{
  set_within_single_register, set_over_multiple_registers, test_and_set_within_single_register,
  test_and_set_over_multiple_registers,
}
use allocator_builder.SharedHeap.Alone.{
  continue, run-bind, with_control, shared-Passes, single_heap,
}
use allocator_builder.SharedHeap.Alone.Frees.{set_within-run}
use allocator_builder.SharedHeap.Alone.Expand.{
  tested, test_and_set_within-run, test_and_set_over-run, set_over-run,
}

-- What a program returns and leaves, by the same call on the heap for one thread
abbrev pub returned_op :
    Shared → (Bool × Block) × Heap × Memory → Option ((Bool × Block) × Mode × Shared)
returned_op s (r, k, m) = some (r, outside, record s { control = k.control; memory = m })

module _ (attempts : ℕ) (h : SharedHeap) where
  -- The result of a test-and-set that changes nothing when it fails
  grown-run :
      (b : Block) (n : ℕ) (s : Shared) (r : Bool × List ℕ)
      → (r.0 ≡ false → r.1 ≡ s.control)
      → continue (λ done. ret (grown (suc attempts) h b n done)) (tested outside s r)
        ≡ returned_op s (
          (Single.grown b n (single_heap h s) r).0,
          (Single.grown b n (single_heap h s) r).1,
          s.memory,
        )
  unfolding run Single.grown
  grown-run b n s (true, control) same = refl
  grown-run b n s (false, control) same =
      ap (λ c. some ((false, b), outside, with_control s c)) (same refl)

  within_same :
      (c : BlockContext) (control : List ℕ)
      → (Field.test_and_set_within_single_register false c control).0 ≡ false
      → (Field.test_and_set_within_single_register false c control).1 ≡ control
  unfolding Field.test_and_set_within_single_register
  within_same c control e = ground arith

  over_same :
      (c : BlockContext) (control : List ℕ)
      → (Field.test_and_set_over_multiple_registers false c control).0 ≡ false
      → (Field.test_and_set_over_multiple_registers false c control).1 ≡ control
  unfolding Field.test_and_set_over_multiple_registers
  over_same c control e = ground arith

  -- The test and set of `n` chunks behind the block, in a context
  abbrev grows_at : Block → ℕ → BlockContext → Prog (Bool × Block)
  grows_at b n c =
      if leb_int (c.sub_index + c.used_chunks + n) 64
      then (do
        done ← test_and_set_within_single_register (suc attempts) false (behind c c.used_chunks n)
        ret (grown (suc attempts) h b n done))
      else (do
        done ←
            test_and_set_over_multiple_registers h.control_size (suc attempts) false
              (behind c c.used_chunks n)
        ret (grown (suc attempts) h b n done))

  abbrev with_memory : Memory → (Bool × Block) × Heap → (Bool × Block) × Heap × Memory
  with_memory m (r, k) = (r, k, m)

  grows_at-run :
      (b : Block) (n : ℕ) (c : BlockContext) (s : Shared)
      → h.control_size ≡ length s.control
      → s.all_set_member ≡ all_set
      → run (grows_at b n c) outside s
        ≡ returned_op s (with_memory s.memory (grown_at (single_heap h s) b n c))
  unfolding behind Single.behind
  grows_at-run b n c s sized member =
      let rest : BlockContext = behind c c.used_chunks n in
      let next = λ (done : Bool). ret (grown (suc attempts) h b n done) in
      elim (Bool-cases (leb_int (c.sub_index + c.used_chunks + n) 64)) [
        | inl within ↦ rw within (
            run-bind (test_and_set_within_single_register (suc attempts) false rest) next outside s
            ∙ ap (continue next) (test_and_set_within-run attempts false rest s member)
            ∙ grown-run b n s (Field.test_and_set_within_single_register false rest s.control)
                (within_same rest s.control))
        | inr over ↦ rw over (
            run-bind (test_and_set_over_multiple_registers h.control_size (suc attempts) false rest)
              next outside s
            ∙ ap (continue next) (
                ap
                  (λ k.
                    run (test_and_set_over_multiple_registers k (suc attempts) false rest) outside
                      s)
                  sized
                ∙ test_and_set_over-run attempts false rest s member)
            ∙ grown-run b n s (Field.test_and_set_over_multiple_registers false rest s.control)
                (over_same rest s.control))
      ]

  expand_wanted-run :
      (b : Block) (delta : ℕ) (s : Shared)
      → delta ≢ 0
      → h.control_size ≡ length s.control
      → s.all_set_member ≡ all_set
      → run (expand (suc attempts) h b delta) outside s
        ≡ returned_op s (
            with_memory s.memory (
              grown_at
                (single_heap h s)
                b
                (int_of (round_to_alignment h.chunk_size delta / h.chunk_size))
                (block_to_context h b)))
  unfolding expand
  expand_wanted-run b delta s wanted sized member = rw (ne→== delta 0 wanted) (
      grows_at-run b (int_of (round_to_alignment h.chunk_size delta / h.chunk_size))
        (block_to_context h b) s sized member)

  pub expand-run :
      (b : Block) (delta : ℕ) (s : Shared)
      → delta ≢ 0
      → h.control_size ≡ length s.control
      → s.all_set_member ≡ all_set
      → run (expand (suc attempts) h b delta) outside s
        ≡ returned_op s (expand_op b delta (single_heap h s) s.memory)
  unfolding block_to_context Single.block_to_context
  expand-run b delta s wanted sized member =
      expand_wanted-run b delta s wanted sized member
      ∙ ap (λ r. returned_op s (with_memory s.memory r))
          (sym (expand-grown_at (single_heap h s) b delta wanted))

  pub cut-run :
      (b : Block) (n : ℕ) (s : Shared)
      → s.all_set_member ≡ all_set
      → run (cut (suc attempts) h b n) outside s
        ≡ returned_op s (
          (true, (Single.cut b n (single_heap h s)).0),
          (Single.cut b n (single_heap h s)).1,
          s.memory,
        )
  unfolding run cut behind block_to_context Single.cut Single.behind Single.block_to_context
      Field.deallocate_with_control_register_overlap
  cut-run b n s member =
      let c = block_to_context h b in
      let rest = behind c n (sub_int c.used_chunks n) in
      let next =
        λ (_ : Unit {0}). ret (true, record b { length = mul64 (word_of n) h.chunk_size }) in
      elim (Bool-cases (leb_int (c.sub_index + c.used_chunks) 64)) [
        | inl single ↦ rw single (
            run-bind (set_within_single_register (suc attempts) (some shared) true rest) next
              outside s
            ∙ ap (continue next) (set_within-run attempts rest s member))
        | inr more ↦ rw more (
            run-bind (set_over_multiple_registers (suc attempts) (some shared) true rest) next
              outside s
            ∙ ap (continue next)
                (set_over-run attempts (some shared) true outside rest s shared-Passes member))
      ]
