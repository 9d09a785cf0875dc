-- ===== src/SharedHeap/Alone/Expand.antt =====
-- A thread that is alone on the shared heap: `expand` and the test-and-set behind it.
use allocator_builder.Base.{
  ℕ, zero, suc, ◌+◌, ◌-◌, ◌*◌, ◌<◌, ◌≤◌, ◌≡◌, refl, ap, ◌∙◌, arith, Bool, true, false, not, Option,
  none, some, List, length, get_or, set, ◌==◌, eq→==, Bool-cases, inl, inr, if◌then◌else◌, ltb,
  lt→ltb, ge→ltb, bit_and, dec_lt,
}
use allocator_builder.Control as Field
use allocator_builder.Control.{BlockContext, multiple_mask}
use allocator_builder.Control.Register.{all_set, set_used, single_mask}
use allocator_builder.SharedHeap.Program.{
  Prog, ret, load, exchange, Lock, shared, unique, release, Shared, Mode, outside, writing, run,
  ◌>>◌,
}
use allocator_builder.SharedHeap.Registers.{
  guard, run_mask, round_mask, test_and_set_register, test_and_set_within_single_register,
  test_rounds, set_over_multiple_registers, test_and_set_over_multiple_registers,
}
use allocator_builder.SharedHeap.Alone.{
  continue, run-bind, with_control, none-Passes, Passes, round_mask-run, set_rounds-run,
}
use allocator_builder.SharedHeap.Alone.Frees.{run_mask-run}

-- The result and the registers that a test-and-set leaves
abbrev pub tested : Mode → Shared → Bool × List ℕ → Option (Bool × Mode × Shared)
tested mode s (done, control) = some (done, mode, with_control s control)

-- What follows the load of a register
abbrev set_loaded : (attempts : ℕ) → Bool → (r mask current : ℕ) → Prog Bool
set_loaded attempts used r mask current =
    if not (bit_and current mask == mask)
    then ret false
    else guard (some shared)
      >> exchange r current (set_used used current mask)
          λ done observed. if done then ret true else test_and_set_register attempts used r mask

abbrev set_if_free : Bool → (r mask current : ℕ) → List ℕ → Bool × List ℕ
set_if_free used r mask current control =
    if not (bit_and current mask == mask)
    then (false, control)
    else (true, set control r (set_used used current mask))

set_loaded-run :
    (attempts : ℕ) (used : Bool) (r mask current : ℕ) (s : Shared)
    → get_or s.control r 0 ≡ current
    → run (set_loaded attempts used r mask current) outside s
      ≡ tested outside s (set_if_free used r mask current s.control)
unfolding run
set_loaded-run attempts used r mask current s e = elim (Bool-cases (bit_and current mask == mask)) [
  | inr taken ↦ rw taken refl
  | inl free ↦ rw (free, eq→== (get_or s.control r 0) current e) refl
]

test_and_set_register-run :
    (attempts : ℕ) (used : Bool) (r mask : ℕ) (s : Shared)
    → run (test_and_set_register (suc attempts) used r mask) outside s
      ≡ tested outside s (set_if_free used r mask (get_or s.control r 0) s.control)
unfolding run test_and_set_register
test_and_set_register-run attempts used r mask s =
    set_loaded-run attempts used r mask (get_or s.control r 0) s refl

pub test_and_set_within-run :
    (attempts : ℕ) (used : Bool) (c : BlockContext) (s : Shared)
    → s.all_set_member ≡ all_set
    → run (test_and_set_within_single_register (suc attempts) used c) outside s
      ≡ tested outside s (Field.test_and_set_within_single_register used c s.control)
unfolding test_and_set_within_single_register Field.test_and_set_within_single_register
    Field.set_within_single_register
test_and_set_within-run attempts used c s member =
    run-bind (run_mask c) (λ mask. test_and_set_register (suc attempts) used c.register_index mask)
      outside s
    ∙ ap (continue (λ mask. test_and_set_register (suc attempts) used c.register_index mask))
        (run_mask-run c s member)
    ∙ test_and_set_register-run attempts used c.register_index
        (single_mask c.used_chunks c.sub_index) s

-- What follows the load of a round
abbrev test_loaded : (size rounds r i n mask current : ℕ) → Prog Bool
test_loaded size rounds r i n mask current =
    if not (bit_and current mask == mask)
    then ret false
    else if ltb size (r + 1)
    then ret false
    else if ltb 64 (i + n)
    then test_rounds size rounds (r + 1) 0 (i + n - 64)
    else ret true

abbrev loaded_passes : (control : List ℕ) → (rounds r i n mask current : ℕ) → Bool
loaded_passes control rounds r i n mask current =
    if not (bit_and current mask == mask)
    then false
    else if ltb (length control) (r + 1)
    then false
    else if ltb 64 (i + n)
    then Field.test_rounds rounds (r + 1) 0 (i + n - 64) control
    else true

abbrev test_round : (size rounds r i n mask : ℕ) → Prog Bool
test_round size rounds r i n mask = load r (test_loaded size rounds r i n mask)

module _ (mode : Mode) (s : Shared) (member : s.all_set_member ≡ all_set) where
  test_loaded-run :
      (rounds r i n mask current : ℕ)
      → (64 < i + n
          → run (test_rounds (length s.control) rounds (r + 1) 0 (i + n - 64)) mode s
            ≡ some (Field.test_rounds rounds (r + 1) 0 (i + n - 64) s.control, mode, s))
      → run (test_loaded (length s.control) rounds r i n mask current) mode s
        ≡ some (loaded_passes s.control rounds r i n mask current, mode, s)
  unfolding run
  test_loaded-run rounds r i n mask current later =
      elim (Bool-cases (bit_and current mask == mask)) [
        | inr miss ↦ rw miss refl
        | inl hit ↦ elim (Bool-cases (ltb (length s.control) (r + 1))) [
          | inl beyond ↦ rw (hit, beyond) refl
          | inr inside ↦ elim (dec_lt 64 (i + n)) [
            | yes more ↦ rw (hit, inside, lt→ltb 64 (i + n) more) (later more)
            | no last ↦ rw (hit, inside, ge→ltb 64 (i + n) (omega arith)) refl
          ]
        ]
      ]

  test_round-run :
      (rounds r i n : ℕ)
      → (64 < i + n
          → run (test_rounds (length s.control) rounds (r + 1) 0 (i + n - 64)) mode s
            ≡ some (Field.test_rounds rounds (r + 1) 0 (i + n - 64) s.control, mode, s))
      → run (test_rounds (length s.control) (suc rounds) r i n) mode s
        ≡ some (Field.test_rounds (suc rounds) r i n s.control, mode, s)
  unfolding test_rounds Field.test_rounds run
  test_round-run rounds r i n later =
      run-bind (round_mask n i) (test_round (length s.control) rounds r i n) mode s
      ∙ ap (continue (test_round (length s.control) rounds r i n))
          (round_mask-run n i mode s member)
      ∙ test_loaded-run rounds r i n (multiple_mask n i) (get_or s.control r 0) later

  test_rounds-run :
      (rounds r i n : ℕ)
      → i + n ≤ 64 * suc rounds
      → run (test_rounds (length s.control) (suc rounds) r i n) mode s
        ≡ some (Field.test_rounds (suc rounds) r i n s.control, mode, s)
  test_rounds-run zero r i n enough = test_round-run 0 r i n (λ more. absurd (omega arith))
  test_rounds-run (suc rounds) r i n enough =
      test_round-run (suc rounds) r i n
        (λ more. test_rounds-run rounds (r + 1) 0 (i + n - 64) (omega arith))

pub set_over-run :
    (attempts : ℕ) (policy : Option Lock) (used : Bool) (mode : Mode) (c : BlockContext)
    (s : Shared)
    → Passes policy mode
    → s.all_set_member ≡ all_set
    → run (set_over_multiple_registers (suc attempts) policy used c) mode s
      ≡ some (tt, mode, with_control s (Field.set_over_multiple_registers used c s.control))
unfolding set_over_multiple_registers Field.set_over_multiple_registers
set_over-run attempts policy used mode c s passes member =
    set_rounds-run attempts policy used mode passes (c.sub_index + c.used_chunks) c.register_index
      c.sub_index c.used_chunks s member (omega arith)

-- What follows the test of all registers
abbrev set_tested : (attempts : ℕ) → Bool → BlockContext → Bool → Prog Bool
set_tested attempts used c free =
    (if free then set_over_multiple_registers (suc attempts) none used c else ret tt)
    >> release unique (ret free)

pub test_and_set_over-run :
    (attempts : ℕ) (used : Bool) (c : BlockContext) (s : Shared)
    → s.all_set_member ≡ all_set
    → run (test_and_set_over_multiple_registers (length s.control) (suc attempts) used c) outside s
      ≡ tested outside s (Field.test_and_set_over_multiple_registers used c s.control)
unfolding run test_and_set_over_multiple_registers Field.test_and_set_over_multiple_registers
test_and_set_over-run attempts used c s member =
    let n = c.sub_index + c.used_chunks in
    run-bind (test_rounds (length s.control) (suc n) c.register_index c.sub_index c.used_chunks)
      (set_tested attempts used c) writing s
    ∙ ap (continue (set_tested attempts used c)) (
        test_rounds-run writing s member n c.register_index c.sub_index c.used_chunks (omega arith))
    ∙ elim (Bool-cases
        (Field.test_rounds (suc n) c.register_index c.sub_index c.used_chunks s.control)) [
          | inr miss ↦ rw miss refl
          | inl hit ↦ rw hit (
              run-bind (set_over_multiple_registers (suc attempts) none used c)
                (λ _. release unique (ret true)) writing s
              ∙ ap (continue (λ _. release unique (ret true)))
                  (set_over-run attempts none used writing c s (none-Passes writing) member))
        ]
