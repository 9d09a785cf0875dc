-- ===== src/Control/Multiple.antt =====
-- The loops of heap.hpp over several registers.
use allocator_builder.Base.{
  ℕ, zero, suc, ◌+◌, ◌-◌, ◌*◌, ◌/◌, ◌%◌, ◌≤◌, ◌<◌, ◌≡◌, ◌≢◌, refl, arith, Bool, true, ◌⊎◌, inr, min,
  List, length, get_or, set, length-set, dec_lt, dec_le, ℕ_discrete, eq→==, ne→==, lt→ltb, ge→ltb,
  le→leb, gt→leb, sub64,
}
use allocator_builder.Control.Register.{all_set, set_used}
use allocator_builder.Control.Register.Masks.{
  Covers, Covers-eq, shl_ones-Covers, shl-Covers, all_set-Covers,
}
use allocator_builder.Control.Register.Ops.{digit_of}
use allocator_builder.Control.Chunks.{
  Sets, Sets-eq, Sets-trans, Sets-nil, write_register-Sets, set_within_single_register-Sets,
  set_register-Sets,
}
use allocator_builder.Control.{
  BlockContext, multiple_mask, set_rounds, set_over_multiple_registers, fill_registers, free_chunks,
  deallocate_with_control_register_overlap, deallocate_for_multiple_complete_control_register,
}

-- The mask of the first round, off a register's start: all chunks up to the end of the register.
pub multiple_mask_first : (n s : ℕ) → 0 < s → s < 64 → Covers (multiple_mask n s) s 64
unfolding multiple_mask
multiple_mask_first n s pos small =
    rw (lt→ltb 0 s pos, sub_exact)
      (Covers-eq (omega arith) (omega arith)
        (shl-Covers s small (omega arith) (shl_ones-Covers (64 - s) (omega arith))))
  where
    sub_exact : sub64 64 s ≡ 64 - s
    sub_exact = omega arith

-- The mask of a round at a register's start: the chunks that are left, 64 at most.
pub multiple_mask_next : (n : ℕ) → Covers (multiple_mask n 0) 0 (min 64 n)
unfolding multiple_mask
multiple_mask_next n = elim (dec_le 64 n) [
  | yes many ↦ rw (le→leb 64 n many) (Covers-eq refl (omega arith) all_set-Covers)
  | no few ↦
      rw (gt→leb 64 n (omega arith))
        (Covers-eq refl (omega arith) (shl_ones-Covers n (omega arith)))
]

abbrev with_mask : Bool → ℕ → ℕ → List ℕ → List ℕ
with_mask used r mask control = set control r (set_used used (get_or control r 0) mask)

set_rounds-Sets :
    (rounds : ℕ) (used : Bool) (r n : ℕ) (control : List ℕ)
    → 0 < n
    → n ≤ 64 * rounds
    → r * 64 + n ≤ 64 * length control
    → Sets (digit_of used) (r * 64) n control (set_rounds rounds used r 0 n control)
unfolding set_rounds
set_rounds-Sets zero used r n control pos enough fits = absurd (omega arith)
set_rounds-Sets (suc rounds) used r n control pos enough fits = elim (dec_lt 64 n) [
  | yes more ↦ rw (lt→ltb 64 (0 + n) (omega arith)) (
      Sets-eq refl (omega arith) (
        Sets-trans (first 64 (omega arith)) (
          Sets-eq (omega arith) refl (
            set_rounds-Sets rounds used (r + 1) (0 + n - 64)
              (with_mask used r (multiple_mask n 0) control) (omega arith) (omega arith)
              (omega (
                arith,
                length-set control r (set_used used (get_or control r 0) (multiple_mask n 0)),
              ))))))
  | no last ↦ rw (ge→ltb 64 (0 + n) (omega arith)) (first n (omega arith))
]
  where
    first :
        (k : ℕ)
        → k ≡ min 64 n
        → Sets (digit_of used) (r * 64) k control (with_mask used r (multiple_mask n 0) control)
    first k e =
        set_register-Sets used control r (r * 64) k (multiple_mask_next n) (omega arith)
          (omega arith) (omega arith)

-- A first round that is off a register's start, and reaches its end
set_rounds_first-Sets :
    (rounds : ℕ) (used : Bool) (r s n : ℕ) (control : List ℕ)
    → 0 < s
    → s < 64
    → 64 ≤ s + n
    → s + n ≤ 64 * suc rounds
    → r * 64 + s + n ≤ 64 * length control
    → Sets (digit_of used) (r * 64 + s) n control (set_rounds (suc rounds) used r s n control)
unfolding set_rounds
set_rounds_first-Sets rounds used r s n control pos small reach enough fits =
    elim (dec_lt 64 (s + n)) [
      | yes more ↦ rw (lt→ltb 64 (s + n) more) (
          Sets-eq refl (omega arith) (
            Sets-trans first (
              Sets-eq (omega arith) refl (
                set_rounds-Sets rounds used (r + 1) (s + n - 64)
                  (with_mask used r (multiple_mask n s) control) (omega arith) (omega arith)
                  (omega (
                    arith,
                    length-set control r (set_used used (get_or control r 0) (multiple_mask n s)),
                  ))))))
      | no last ↦ rw (ge→ltb 64 (s + n) (omega arith)) (Sets-eq refl (omega arith) first)
    ]
  where
    first :
        Sets
          (digit_of used)
          (r * 64 + s)
          (64 - s)
          control
          (with_mask used r (multiple_mask n s) control)
    first =
        set_register-Sets used control r (r * 64 + s) (64 - s) (multiple_mask_first n s pos small)
          (omega arith) refl (omega arith)

over_multiple :
    (used : Bool) (control : List ℕ) (r s n : ℕ)
    → 0 < n
    → s < 64
    → (s ≡ 0) ⊎ (64 ≤ s + n)
    → r * 64 + s + n ≤ 64 * length control
    → Sets (digit_of used) (r * 64 + s) n control (set_rounds (suc (s + n)) used r s n control)
over_multiple used control r zero n pos small reach fits =
    Sets-eq (omega arith) refl
      (set_rounds-Sets (suc (0 + n)) used r n control pos (omega arith) (omega arith))
over_multiple used control r (suc s) n pos small reach fits =
    set_rounds_first-Sets (suc s + n) used r (suc s) n control (omega arith) small (ground arith)
      (omega arith) fits

-- `setOverMultipleRegisters` sets the chunks of its context, if they start a register or reach its
-- end.
pub set_over_multiple_registers-Sets :
    (used : Bool) (c : BlockContext) (control : List ℕ)
    → 0 < c.used_chunks
    → c.sub_index < 64
    → (c.sub_index ≡ 0) ⊎ (64 ≤ c.sub_index + c.used_chunks)
    → c.register_index * 64 + c.sub_index + c.used_chunks ≤ 64 * length control
    → Sets
        (digit_of used)
        (c.register_index * 64 + c.sub_index)
        c.used_chunks
        control
        (set_over_multiple_registers used c control)
unfolding set_over_multiple_registers
set_over_multiple_registers-Sets used c control pos small reach fits =
    over_multiple used control c.register_index c.sub_index c.used_chunks pos small reach fits

fill_registers-Sets :
    (rounds r v : ℕ) (control : List ℕ)
    → v ≡ all_set
    → r + rounds ≤ length control
    → Sets 1 (r * 64) (rounds * 64) control (fill_registers rounds r v control)
unfolding fill_registers
fill_registers-Sets zero r v control e fits = Sets-nil 1 (r * 64) control
fill_registers-Sets (suc rounds) r v control e fits = Sets-eq refl (omega arith) (
    Sets-trans
      (write_register-Sets 1 v r control (λ i h. rw e (all_set-Covers.ones i (omega arith) h))
        (omega arith))
      (Sets-eq (omega arith) refl (
        fill_registers-Sets rounds (r + 1) v (set control r v) e
          (omega (arith, length-set control r v)))))

-- `deallocate` frees exactly the chunks of its context, if the block lies within one register, or
-- starts a register, or has no multiple of 64 chunks.
pub free_chunks-Sets :
    (c : BlockContext) (control : List ℕ)
    → 0 < c.used_chunks
    → c.sub_index < 64
    → (c.sub_index + c.used_chunks ≤ 64) ⊎ (c.sub_index ≡ 0) ⊎ (c.used_chunks % 64 ≢ 0)
    → c.register_index * 64 + c.sub_index + c.used_chunks ≤ 64 * length control
    → Sets 1 (c.register_index * 64 + c.sub_index) c.used_chunks control (free_chunks c control)
unfolding free_chunks deallocate_with_control_register_overlap
    deallocate_for_multiple_complete_control_register
free_chunks-Sets c control pos small tidy fits = elim (dec_le (c.sub_index + c.used_chunks) 64) [
  | yes single ↦
      rw (le→leb _ _ single)
        (set_within_single_register-Sets true c control (omega arith) small single)
  | no more ↦
      rw (gt→leb (c.sub_index + c.used_chunks) 64 (omega arith))
        (elim (ℕ_discrete (c.used_chunks % 64) 0) [
          | yes whole ↦
              let start : c.sub_index ≡ 0 = ground arith in
              rw (eq→== _ _ whole) (
                Sets-eq (omega arith) (omega arith) (
                  fill_registers-Sets (c.used_chunks / 64) c.register_index all_set control refl
                    (omega arith)))
          | no part ↦
              rw (ne→== _ _ part)
                (set_over_multiple_registers-Sets true c control pos small (inr (omega arith)) fits)
        ])
]

-- A multiple of 64 chunks that does not start a register: whole registers are freed from the first
-- one on, so the room that becomes free begins too early by the chunks before it.
pub free_chunks_untidy-Sets :
    (c : BlockContext) (control : List ℕ)
    → 64 < c.sub_index + c.used_chunks
    → c.used_chunks % 64 ≡ 0
    → c.register_index * 64 + c.sub_index + c.used_chunks ≤ 64 * length control
    → Sets 1 (c.register_index * 64) c.used_chunks control (free_chunks c control)
unfolding free_chunks deallocate_for_multiple_complete_control_register
free_chunks_untidy-Sets c control over whole fits =
    rw (gt→leb (c.sub_index + c.used_chunks) 64 over, eq→== (c.used_chunks % 64) 0 whole)
      (Sets-eq refl (omega arith) (
        fill_registers-Sets (c.used_chunks / 64) c.register_index all_set control refl
          (omega arith)))
