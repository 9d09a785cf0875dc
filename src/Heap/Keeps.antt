-- ===== src/Heap/Keeps.antt =====
-- No call of alb/heap.hpp changes any member but the bit field, nor the number of registers.
pub mod Resize
use allocator_builder.Base.{
  ℕ, ◌+◌, ◌-◌, ◌/◌, ◌≡◌, refl, ap, ◌∙◌, arith, Bool, true, false, ◌&&◌, inl, inr, some, List,
  length, Bool-cases, ltb, leb, ◌==◌, ℕ_discrete, max, mul64, add64,
}
use allocator_builder.Block.{Block, Memory, is_set, round_to_alignment}
use allocator_builder.Reallocator.{reallocate_with_copy, is_handled_default}
use allocator_builder.Control.{
  BlockContext, test_and_set_within_single_register, test_and_set_over_multiple_registers,
  deallocate_with_control_register_overlap,
}
use allocator_builder.Control.Lengths.{
  length-free_chunks, length-set_within_single_register, length-set_over_multiple_registers,
  length-test_and_set_within, length-test_and_set_over, length-set_all,
}
use allocator_builder.Heap.{
  Heap, block_to_context, behind, grown, allocate, deallocate, deallocate_all, expand, cut, resize,
  reallocate, allocate_op, deallocate_op, expand_op, allocate_blocks,
}
use allocator_builder.Heap.Layout.{IsValid}
use allocator_builder.Heap.Granted.{Outcome}
use allocator_builder.Heap.Allocate.{allocate_blocks-Outcome}
use allocator_builder.Heap.Expand.{grown_at, expand-grown_at}

abbrev with_registers : List ℕ → Heap → Heap
with_registers control h = record h { control = control }

pub record Keeps (h k : Heap) : Type 0 where
  pub others : k ≡ record h { control = k.control }
  pub same_length : length k.control ≡ length h.control

pub Keeps-refl : (h : Heap) → Keeps h h
Keeps-refl h = record { others = refl; same_length = refl }

pub Keeps-trans : {h k l : Heap} → Keeps h k → Keeps k l → Keeps h l
Keeps-trans {h} {k} {l} p q = record {
  others = q.others ∙ ap (with_registers l.control) p.others;
  same_length = q.same_length ∙ p.same_length;
}

pub IsValid-Keeps : {h k : Heap} → Keeps h k → IsValid h → IsValid k
IsValid-Keeps {h} {k} p v = rw p.others (record {
  chunky = v.chunky;
  counted = omega (arith, v.counted, p.same_length);
  sized = v.sized;
  nonnull = v.nonnull;
  fits = v.fits;
  countable = v.countable;
})

Outcome-Keeps : (h : Heap) {n : ℕ} (r : Block × Heap) → Outcome n h r → Keeps h r.1
Outcome-Keeps h (b, k) (inl (_, e)) = rw e (Keeps-refl h)
Outcome-Keeps h (b, k) (inr g) = record {
  others = g.others;
  same_length = g.takes.taken.same_length;
}

pub allocate-Keeps : {h : Heap} (n : ℕ) → IsValid h → Keeps h (allocate n h).1
unfolding allocate
allocate-Keeps {h} n v = elim (Bool-cases (n == 0)) [
  | inl nothing ↦ rw nothing (Keeps-refl h)
  | inr wanted ↦ elim (Bool-cases (ltb (mul64 h.chunk_size h.number_of_chunks) n)) [
    | inl huge ↦ rw (wanted, huge) (Keeps-refl h)
    | inr fitting ↦
        let blocks = max 1 (round_to_alignment h.chunk_size n / h.chunk_size) in
        rw (wanted, fitting)
          (Outcome-Keeps h (allocate_blocks blocks h)
            (allocate_blocks-Outcome blocks v (omega arith)))
  ]
]

pub deallocate-Keeps : (b : Block) (h : Heap) → Keeps h (deallocate b h).1
unfolding deallocate
deallocate-Keeps b h = elim (Bool-cases (is_set b)) [
  | inr unset ↦ rw unset (Keeps-refl h)
  | inl set ↦
      elim (Bool-cases (leb h.buffer.ptr b.ptr && ltb b.ptr (add64 h.buffer.ptr h.buffer.length))) [
        | inr foreign ↦ rw (set, foreign) (Keeps-refl h)
        | inl own ↦
            rw (set, own)
              (record {
                others = refl;
                same_length = length-free_chunks (block_to_context h b) h.control;
              })
      ]
]

pub deallocate_all-Keeps : (h : Heap) → Keeps h (deallocate_all h)
unfolding deallocate_all
deallocate_all-Keeps h = record { others = refl; same_length = length-set_all h.control }
