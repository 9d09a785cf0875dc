-- ===== src/Control/Lengths.antt =====
-- No operation on the bit field changes the number of its registers.
use allocator_builder.Base.{
  ℕ, zero, suc, ◌+◌, ◌-◌, ◌/◌, ◌%◌, ◌≡◌, refl, ◌∙◌, Bool, true, inl, inr, List, length, set,
  length-set, length-replicate, Bool-cases, ltb, leb, ◌==◌, get_or, bit_and,
}
use allocator_builder.Control.Register.{all_set, set_used, single_mask}
use allocator_builder.Control.{
  BlockContext, multiple_mask, set_within_single_register, test_and_set_within_single_register,
  set_rounds, set_over_multiple_registers, test_rounds, test_and_set_over_multiple_registers,
  fill_registers, free_chunks, deallocate_for_multiple_complete_control_register,
  deallocate_with_control_register_overlap, set_all,
}

length-set_rounds :
    (rounds : ℕ) (used : Bool) (r i n : ℕ) (control : List ℕ)
    → length (set_rounds rounds used r i n control) ≡ length control
unfolding set_rounds
length-set_rounds zero used r i n control = refl
length-set_rounds (suc rounds) used r i n control =
    let mask = multiple_mask n i in
    let v = set_used used (get_or control r 0) mask in
    elim (Bool-cases (ltb 64 (i + n))) [
      | inl more ↦ rw more (
          length-set_rounds rounds used (r + 1) 0 (i + n - 64) (set control r v)
          ∙ length-set control r v)
      | inr last ↦ rw last (length-set control r v)
    ]

pub length-set_over_multiple_registers :
    (used : Bool) (c : BlockContext) (control : List ℕ)
    → length (set_over_multiple_registers used c control) ≡ length control
unfolding set_over_multiple_registers
length-set_over_multiple_registers used c control =
    length-set_rounds (suc (c.sub_index + c.used_chunks)) used c.register_index c.sub_index
      c.used_chunks control

pub length-set_within_single_register :
    (used : Bool) (c : BlockContext) (control : List ℕ)
    → length (set_within_single_register used c control) ≡ length control
unfolding set_within_single_register
length-set_within_single_register used c control = length-set control c.register_index _

length-fill_registers :
    (rounds i v : ℕ) (control : List ℕ)
    → length (fill_registers rounds i v control) ≡ length control
unfolding fill_registers
length-fill_registers zero i v control = refl
length-fill_registers (suc rounds) i v control =
    length-fill_registers rounds (i + 1) v (set control i v) ∙ length-set control i v

pub length-free_chunks :
    (c : BlockContext) (control : List ℕ) → length (free_chunks c control) ≡ length control
unfolding free_chunks deallocate_for_multiple_complete_control_register
    deallocate_with_control_register_overlap
length-free_chunks c control = elim (Bool-cases (leb (c.sub_index + c.used_chunks) 64)) [
  | inl single ↦ rw single (length-set_within_single_register true c control)
  | inr more ↦ elim (Bool-cases ((c.used_chunks % 64) == 0)) [
    | inl whole ↦
        rw (more, whole)
          (length-fill_registers (c.used_chunks / 64) c.register_index all_set control)
    | inr part ↦ rw (more, part) (length-set_over_multiple_registers true c control)
  ]
]

pub length-test_and_set_within :
    (used : Bool) (c : BlockContext) (control : List ℕ)
    → length (test_and_set_within_single_register used c control).1 ≡ length control
unfolding test_and_set_within_single_register
length-test_and_set_within used c control =
    let mask = single_mask c.used_chunks c.sub_index in
    elim (Bool-cases (bit_and (get_or control c.register_index 0) mask == mask)) [
      | inl free ↦ rw free (length-set_within_single_register used c control)
      | inr taken ↦ rw taken refl
    ]

pub length-test_and_set_over :
    (used : Bool) (c : BlockContext) (control : List ℕ)
    → length (test_and_set_over_multiple_registers used c control).1 ≡ length control
unfolding test_and_set_over_multiple_registers
length-test_and_set_over used c control =
    elim (Bool-cases (
      test_rounds (suc (c.sub_index + c.used_chunks)) c.register_index c.sub_index c.used_chunks
        control)) [
          | inl free ↦ rw free (length-set_over_multiple_registers used c control)
          | inr taken ↦ rw taken refl
        ]

pub length-set_all : (control : List ℕ) → length (set_all control) ≡ length control
unfolding set_all
length-set_all control = length-replicate (length control) all_set
