-- ===== src/Heap/Keeps/Resize.antt =====
-- `expand`, `reallocate` and `cut` of alb/heap.hpp change no member but the bit field.
use allocator_builder.Base.{
  ℕ, ◌+◌, ◌-◌, ◌/◌, ◌≡◌, refl, Bool, true, false, inl, inr, some, List, length, Bool-cases, ltb,
  leb_int, sub_int, int_of, ◌==◌, ℕ_discrete,
}
use allocator_builder.Block.{Block, Memory, is_set, round_to_alignment}
use allocator_builder.Reallocator.{reallocate_with_copy, is_handled_default}
use allocator_builder.Control.{
  BlockContext, test_and_set_within_single_register, test_and_set_over_multiple_registers,
  deallocate_with_control_register_overlap,
}
use allocator_builder.Control.Lengths.{
  length-set_within_single_register, length-set_over_multiple_registers, length-test_and_set_within,
  length-test_and_set_over,
}
use allocator_builder.Heap.{
  Heap, block_to_context, behind, grown, allocate, expand, cut, resize, reallocate, allocate_op,
  deallocate_op, expand_op,
}
use allocator_builder.Heap.Layout.{IsValid}
use allocator_builder.Heap.Expand.{grown_at, expand-grown_at}
use allocator_builder.Heap.Keeps.{
  Keeps, Keeps-refl, Keeps-trans, IsValid-Keeps, allocate-Keeps, deallocate-Keeps,
}

grown-Keeps :
    (b : Block) (n : ℕ) (h : Heap) (r : Bool × List ℕ)
    → length r.1 ≡ length h.control
    → Keeps h (grown b n h r).1
unfolding grown
grown-Keeps b n h (true, control) e = record { others = refl; same_length = e }
grown-Keeps b n h (false, control) e = Keeps-refl h

grown_at-Keeps : (h : Heap) (b : Block) (n : ℕ) (c : BlockContext) → Keeps h (grown_at h b n c).1
grown_at-Keeps h b n c = elim (Bool-cases (leb_int (c.sub_index + c.used_chunks + n) 64)) [
  | inl within ↦ rw within (
      grown-Keeps b n h
        (test_and_set_within_single_register false (behind c c.used_chunks n) h.control)
        (length-test_and_set_within false (behind c c.used_chunks n) h.control))
  | inr over ↦ rw over (
      grown-Keeps b n h
        (test_and_set_over_multiple_registers false (behind c c.used_chunks n) h.control)
        (length-test_and_set_over false (behind c c.used_chunks n) h.control))
]

expand_none : (b : Block) (h : Heap) → expand b 0 h ≡ ((true, b), h)
unfolding expand
expand_none b h = refl

pub expand-Keeps : (b : Block) (delta : ℕ) (h : Heap) → Keeps h (expand b delta h).1
expand-Keeps b delta h = elim (ℕ_discrete delta 0) [
  | yes nothing ↦ rw (nothing, expand_none b h) (Keeps-refl h)
  | no wanted ↦ rw (expand-grown_at h b delta wanted) (grown_at-Keeps h b _ (block_to_context h b))
]

cut-Keeps : (b : Block) (n : ℕ) (h : Heap) → Keeps h (cut b n h).1
unfolding cut deallocate_with_control_register_overlap
cut-Keeps b n h =
    let c = block_to_context h b in
    let rest = behind c n (sub_int c.used_chunks n) in
    record {
      others = refl;
      same_length = elim (Bool-cases (leb_int (c.sub_index + c.used_chunks) 64)) [
        | inl single ↦ rw single (length-set_within_single_register true rest h.control)
        | inr more ↦ rw more (length-set_over_multiple_registers true rest h.control)
      ];
    }

copy-Keeps :
    (b : Block) (n : ℕ) (h : Heap) (m : Memory)
    → IsValid h
    → Keeps h (reallocate_with_copy deallocate_op allocate_op b n h m).1
unfolding reallocate_with_copy
copy-Keeps b n h m v = elim (Bool-cases (is_set (allocate n h).0)) [
  | inl set ↦
      rw (set, reallocate_with_copy)
        (Keeps-trans (allocate-Keeps {h = h} n v) (deallocate-Keeps b (allocate n h).1))
  | inr unset ↦ rw (unset, reallocate_with_copy) (allocate-Keeps {h = h} n v)
]

resize-Keeps : (b : Block) (n : ℕ) (h : Heap) (m : Memory) → IsValid h → Keeps h (resize b n h m).1
unfolding resize
resize-Keeps b n h m v =
    let needed = int_of (round_to_alignment h.chunk_size n / h.chunk_size) in
    elim (Bool-cases (int_of (b.length / h.chunk_size) == needed)) [
      | inl same ↦ rw same (Keeps-refl h)
      | inr other ↦ elim (Bool-cases (ltb n b.length)) [
        | inl shorter ↦ rw (other, shorter) (cut-Keeps b needed h)
        | inr longer ↦ rw (other, longer) (copy-Keeps b n h m v)
      ]
    ]

handled-Keeps :
    (b : Block) (n : ℕ) (h : Heap) (m : Memory)
    → IsValid h
    → Keeps h (is_handled_default allocate_op deallocate_op (some expand_op) b n h m).1
unfolding is_handled_default
handled-Keeps b n h m v = elim (Bool-cases (b.length == n)) [
  | inl same ↦ rw same (Keeps-refl h)
  | inr other ↦ elim (Bool-cases (n == 0)) [
    | inl nothing ↦ rw (other, nothing) (deallocate-Keeps b h)
    | inr some_bytes ↦ elim (Bool-cases (is_set b)) [
      | inr unset ↦ rw (other, some_bytes, unset) (allocate-Keeps {h = h} n v)
      | inl set ↦ elim (Bool-cases (ltb b.length n)) [
        | inr smaller ↦ rw (other, some_bytes, set, smaller) (Keeps-refl h)
        | inl larger ↦ rw (other, some_bytes, set, larger) (expand-Keeps b (n - b.length) h)
      ]
    ]
  ]
]

pub reallocate-Keeps :
    (b : Block) (n : ℕ) (h : Heap) (m : Memory) → IsValid h → Keeps h (reallocate b n h m).1
unfolding reallocate
reallocate-Keeps b n h m v =
    let ((done, b'), k, m') =
      is_handled_default allocate_op deallocate_op (some expand_op) b n h m in
    let p : Keeps h k = handled-Keeps b n h m v in
    elim (Bool-cases done) [
      | inl handled ↦ rw handled p
      | inr not_yet ↦ rw not_yet (Keeps-trans p (resize-Keeps b' n k m' (IsValid-Keeps p v)))
    ]
