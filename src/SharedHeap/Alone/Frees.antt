-- ===== src/SharedHeap/Alone/Frees.antt =====
-- A thread that is alone on the shared heap: its releases.
use allocator_builder.Base.{
  ℕ, zero, suc, ◌+◌, ◌/◌, ◌%◌, ◌≡◌, refl, ap, ◌∙◌, arith, true, some, set, ◌==◌, ltb, leb,
  Bool-cases, inl, inr, add64, ◌&&◌,
}
use allocator_builder.Block.{Block, is_set, reset}
use allocator_builder.Control as Field
use allocator_builder.Control.{BlockContext, multiple_mask}
use allocator_builder.Control.Register.{all_set, single_mask}
use allocator_builder.Heap.{Heap}
use allocator_builder.Heap as Single
use allocator_builder.SharedHeap.{SharedHeap, owns, block_to_context, free_chunks, deallocate}
use allocator_builder.SharedHeap.Program.{ret, shared, Shared, outside, run}
use allocator_builder.SharedHeap.Registers.{
  run_mask, set_within_single_register, set_over_multiple_registers, free_registers,
}
use allocator_builder.SharedHeap.Alone.{
  continue, run-bind, with_control, shared-Passes, set_register-run, set_rounds-run, single_heap,
}

free_registers-run :
    (rounds i : ℕ) (s : Shared)
    → run (free_registers rounds i) outside s
      ≡ some (tt, outside, with_control s (Field.fill_registers rounds i all_set s.control))
unfolding run free_registers Field.fill_registers
free_registers-run zero i s = refl
free_registers-run (suc rounds) i s =
    free_registers-run rounds (i + 1) (with_control s (set s.control i all_set))

pub run_mask-run :
    (c : BlockContext) (s : Shared)
    → s.all_set_member ≡ all_set
    → run (run_mask c) outside s ≡ some (single_mask c.used_chunks c.sub_index, outside, s)
unfolding run single_mask
run_mask-run c s member = elim (Bool-cases (c.used_chunks == 64)) [
  | inl whole ↦ rw whole (ap (λ a. some (a, outside, s)) member)
  | inr part ↦ rw part refl
]

pub set_within-run :
    (attempts : ℕ) (c : BlockContext) (s : Shared)
    → s.all_set_member ≡ all_set
    → run (set_within_single_register (suc attempts) (some shared) true c) outside s
      ≡ some (tt, outside, with_control s (Field.set_within_single_register true c s.control))
unfolding set_within_single_register Field.set_within_single_register
set_within-run attempts c s member =
    run-bind (run_mask c) _ outside s
    ∙ ap (continue _) (run_mask-run c s member)
    ∙ set_register-run attempts (some shared) true c.register_index
        (single_mask c.used_chunks c.sub_index) outside s shared-Passes

free_chunks-run :
    (attempts : ℕ) (h : SharedHeap) (c : BlockContext) (s : Shared)
    → s.all_set_member ≡ all_set
    → run (free_chunks (suc attempts) h c) outside s
      ≡ some (tt, outside, with_control s (Field.free_chunks c s.control))
unfolding free_chunks Field.free_chunks set_over_multiple_registers
    Field.set_over_multiple_registers Field.deallocate_for_multiple_complete_control_register
    Field.deallocate_with_control_register_overlap
free_chunks-run attempts h c s member = elim (Bool-cases (leb (c.sub_index + c.used_chunks) 64)) [
  | inl single ↦ rw single (set_within-run attempts c s member)
  | inr more ↦ elim (Bool-cases ((c.used_chunks % 64) == 0)) [
    | inl whole ↦ rw (more, whole) (free_registers-run (c.used_chunks / 64) c.register_index s)
    | inr part ↦
        rw (more, part)
          (set_rounds-run attempts (some shared) true outside shared-Passes
            (c.sub_index + c.used_chunks) c.register_index c.sub_index c.used_chunks s member
            (omega arith))
  ]
]

-- A thread that is alone, and outside of the mutex, returns from `deallocate` with one attempt at each
-- compare-exchange; the block and the registers are what the heap for one thread leaves.
pub deallocate-run :
    (attempts : ℕ) (h : SharedHeap) (b : Block) (s : Shared)
    → s.all_set_member ≡ all_set
    → run (deallocate (suc attempts) h b) outside s
      ≡ some (
        (Single.deallocate b (single_heap h s)).0,
        outside,
        record s { control = (Single.deallocate b (single_heap h s)).1.control },
      )
unfolding run deallocate Single.deallocate owns Single.owns block_to_context Single.block_to_context
deallocate-run attempts h b s member = elim (Bool-cases (is_set b)) [
  | inr unset ↦ rw unset refl
  | inl set ↦
      elim (Bool-cases (leb h.buffer.ptr b.ptr && ltb b.ptr (add64 h.buffer.ptr h.buffer.length))) [
        | inr foreign ↦ rw (set, foreign) refl
        | inl own ↦
            rw (set, own)
              (run-bind (free_chunks (suc attempts) h (block_to_context h b)) (λ _. ret (reset b))
                  outside s
                ∙ ap (continue (λ _. ret (reset b)))
                    (free_chunks-run attempts h (block_to_context h b) s member))
      ]
]
