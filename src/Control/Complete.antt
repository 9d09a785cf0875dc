-- ===== src/Control/Complete.antt =====
-- `allocateWithinCompleteControlRegister` and `allocateMultipleCompleteControlRegisters`.
use allocator_builder.Base.{
  ℕ, zero, suc, ◌+◌, ◌-◌, ◌*◌, ◌<◌, ◌≡◌, refl, arith, ◌∙◌, inl, inr, List, [], ◌∷◌, dec_lt, true,
  Bool-cases, subst, ℕ_discrete, eq→==, ne→==,
}
use allocator_builder.Bits.{bit, zero-bit}
use allocator_builder.Control.Register.{all_set}
use allocator_builder.Control.Register.Masks.{all_set-Covers}
use allocator_builder.Control.Search.{search_complete, search_registers, all_free, clear_first}
use allocator_builder.Control.Chunks.{
  free_head, free_tail, Sets, Sets-nil, Sets-trans, Sets-eq, write_register-Sets,
}
use allocator_builder.Control.Found.{Takes, Finds, after-Finds, Sets-cons}

all_set-bit : (register c : ℕ) → register ≡ all_set → c < 64 → bit register c ≡ 1
all_set-bit register c e h = rw e (all_set-Covers.ones c (omega arith) h)

-- A free register in front, cleared
clear_head-Sets : (register : ℕ) (control : List ℕ) → Sets 0 0 64 (register ∷ control) (0 ∷ control)
clear_head-Sets register control =
    write_register-Sets 0 0 0 (register ∷ control) (λ i h. zero-bit i) (omega arith)

-- What the search gives is a register that was all free, and taken in the result.
pub search_complete-Finds :
    (index : ℕ) (control : List ℕ) → Finds 64 index control (search_complete index control)
unfolding search_complete
search_complete-Finds index [] = tt
search_complete-Finds index (register ∷ control) =
    let rest =
      after-Finds 64 index register control (search_complete (index + 1) control)
        (search_complete-Finds (index + 1) control) in
    elim (ℕ_discrete register all_set) [
      | yes found ↦ rw (eq→== _ _ found) (
        omega arith,
        subst (λ start. Takes 64 start (register ∷ control) (0 ∷ control)) (omega arith)
            (record {
              were_free = λ c p q.
                  free_head register control c (omega arith)
                  ∙ all_set-bit register c found (omega arith);
              taken = clear_head-Sets register control;
            }),
      )
      | no other ↦ rw (ne→== _ _ other) rest
    ]

clear_first-Takes :
    (needed : ℕ) (control : List ℕ)
    → all_free needed control ≡ true
    → Takes (needed * 64) 0 control (clear_first needed control)
unfolding all_free clear_first
clear_first-Takes zero control e = record {
  were_free = λ c p q. absurd (omega arith);
  taken = Sets-nil 0 0 control;
}
clear_first-Takes (suc needed) [] e = cc
clear_first-Takes (suc needed) (register ∷ control) e =
    let parts : (register ≡ all_set) × (all_free needed control ≡ true) = ground arith in
    let t = clear_first-Takes needed control parts.1 in
    record {
      were_free = λ c p q. elim (dec_lt c 64) [
        | yes first ↦ free_head register control c first ∙ all_set-bit register c parts.0 first
        | no later ↦
            free_tail register control c (omega arith)
            ∙ t.were_free (c - 64) (omega arith) (omega arith)
      ];
      taken = Sets-eq refl (omega arith) (
          Sets-trans (clear_head-Sets register control)
            (Sets-eq (omega arith) refl (Sets-cons 0 t.taken)));
    }

-- What the search gives are registers that were all free, and taken in the result.
pub search_registers-Finds :
    (needed index : ℕ) (control : List ℕ)
    → Finds (needed * 64) index control (search_registers needed index control)
unfolding search_registers
search_registers-Finds needed index [] = tt
search_registers-Finds needed index (register ∷ control) =
    let rest =
      after-Finds (needed * 64) index register control (search_registers needed (index + 1) control)
        (search_registers-Finds needed (index + 1) control) in
    elim (Bool-cases (all_free needed (register ∷ control))) [
      | inl found ↦ rw found (
        omega arith,
        subst
            (λ start.
              Takes (needed * 64) start (register ∷ control)
                (clear_first needed (register ∷ control)))
            (omega arith) (clear_first-Takes needed (register ∷ control) found),
      )
      | inr other ↦ rw other rest
    ]
