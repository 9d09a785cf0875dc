-- ===== src/SharedHeap/Alone.antt =====
-- A thread that is alone on the shared heap: its calls return, and do what those of alb/heap.hpp do.
pub mod Frees
pub mod Searches
pub mod Complete
pub mod Runs
pub mod Allocate
pub mod Overlap
pub mod Expand
pub mod Resize
pub mod Reallocate
pub mod Calls
use allocator_builder.Base.{
  ℕ, zero, suc, ◌+◌, ◌-◌, ◌*◌, ◌/◌, ◌%◌, ◌≤◌, ◌<◌, ◌≡◌, refl, ap, ◌∙◌, arith, Bool, true, false,
  Option, none, some, List, get_or, set, ◌==◌, ltb, leb, eq→==, lt→ltb, ge→ltb, Bool-cases, inl,
  inr, dec_lt, if◌then◌else◌, add64, ◌&&◌,
}
use allocator_builder.Block.{Block, is_set, reset}
use allocator_builder.Control as Field
use allocator_builder.Control.{BlockContext, multiple_mask}
use allocator_builder.Control.Register.{all_set, set_used, single_mask}
use allocator_builder.Heap.{Heap}
use allocator_builder.Heap as Single
use allocator_builder.SharedHeap.{SharedHeap, owns, block_to_context, free_chunks, deallocate}
use allocator_builder.SharedHeap.Program.{
  Lock, Prog, ret, spinning, load, exchange, exchange_all_set, get_all_set, store, acquire, release,
  copy, shared, Shared, Mode, outside, reading, writing, mode_of, run, ◌>>=◌, ◌>>◌,
}
use allocator_builder.SharedHeap.Registers.{
  guard, run_mask, round_mask, set_register, set_rounds, set_within_single_register,
  set_over_multiple_registers, free_registers,
}

-- What is done with the result of a run
abbrev pub continue :
    {A B : Type 0} → (A → Prog B) → Option (A × Mode × Shared) → Option (B × Mode × Shared)
continue f none = none
continue f (some (a, mode, s)) = run (f a) mode s

pub run-bind :
    {A B : Type 0} (p : Prog A) (f : A → Prog B) (mode : Mode) (s : Shared)
    → run (p >>= f) mode s ≡ continue f (run p mode s)
unfolding run
run-bind (ret a) f mode s = refl
run-bind spinning f mode s = refl
run-bind (load r k) f mode s = run-bind (k (get_or s.control r 0)) f mode s
run-bind (exchange r e d k) f mode s = elim (Bool-cases (get_or s.control r 0 == e)) [
  | inl same ↦ rw same (run-bind (k true e) f mode (record s { control = set s.control r d }))
  | inr other ↦ rw other (run-bind (k false (get_or s.control r 0)) f mode s)
]
run-bind (exchange_all_set r d k) f mode s =
    elim (Bool-cases (get_or s.control r 0 == s.all_set_member)) [
      | inl same ↦ rw same (run-bind (k true) f mode (record s { control = set s.control r d }))
      | inr other ↦
          rw other (run-bind (k false) f mode (record s { all_set_member = get_or s.control r 0 }))
    ]
run-bind (get_all_set k) f mode s = run-bind (k s.all_set_member) f mode s
run-bind (store r v k) f mode s = run-bind k f mode (record s { control = set s.control r v })
run-bind (acquire l k) f outside s = run-bind k f (mode_of l) s
run-bind (acquire l k) f reading s = refl
run-bind (acquire l k) f writing s = refl
run-bind (release l k) f mode s = run-bind k f outside s
run-bind (copy a b k) f mode s = run-bind k f mode _

-- The state with other registers
abbrev pub with_control : Shared → List ℕ → Shared
with_control s control = record s { control = control }

-- The lock policy does not stop a thread that holds this of the mutex.
abbrev pub Passes : Option Lock → Mode → Type 0
Passes policy mode = (t : Shared) → run (guard policy) mode t ≡ some (tt, mode, t)

pub shared-Passes : Passes (some shared) outside
unfolding run
shared-Passes t = refl

pub none-Passes : (mode : Mode) → Passes none mode
unfolding run
none-Passes mode t = refl

pub set_register-run :
    (attempts : ℕ) (policy : Option Lock) (used : Bool) (r mask : ℕ) (mode : Mode) (s : Shared)
    → Passes policy mode
    → run (set_register (suc attempts) policy used r mask) mode s
      ≡ some
          (tt, mode, with_control s (set s.control r (set_used used (get_or s.control r 0) mask)))
unfolding run set_register
set_register-run attempts policy used r mask mode s passes =
    run-bind (guard policy) (λ _. attempt) mode s
    ∙ ap (continue (λ _. attempt)) (passes s)
    ∙ rw (eq→== (get_or s.control r 0) (get_or s.control r 0) refl) refl
  where
    attempt : Prog (Unit {0})
    attempt =
        exchange r (get_or s.control r 0) (set_used used (get_or s.control r 0) mask)
          λ done observed. if done then ret tt else set_register attempts policy used r mask

pub round_mask-run :
    (n i : ℕ) (mode : Mode) (s : Shared)
    → s.all_set_member ≡ all_set
    → run (round_mask n i) mode s ≡ some (multiple_mask n i, mode, s)
unfolding run multiple_mask
round_mask-run n i mode s member = elim (Bool-cases (ltb 0 i)) [
  | inl off ↦ rw off refl
  | inr start ↦ elim (Bool-cases (leb 64 n)) [
    | inl many ↦ rw (start, many) (ap (λ a. some (a, mode, s)) member)
    | inr few ↦ rw (start, few) refl
  ]
]

-- The rounds over several registers, under a lock policy that lets the thread pass
module _ (attempts : ℕ) (policy : Option Lock) (used : Bool) (mode : Mode)
    (passes : Passes policy mode) where
  -- What follows the first round
  abbrev rounds_left : (rounds r i n : ℕ) → Prog (Unit {0})
  rounds_left rounds r i n =
      if ltb 64 (i + n)
      then set_rounds (suc attempts) rounds policy used (r + 1) 0 (i + n - 64)
      else ret tt

  -- A round, given what the rounds behind it do
  round-run :
      (rounds r i n : ℕ) (s : Shared)
      → s.all_set_member ≡ all_set
      → ((t : Shared)
          → 64 < i + n
          → t.all_set_member ≡ all_set
          → run (set_rounds (suc attempts) rounds policy used (r + 1) 0 (i + n - 64)) mode t
            ≡ some (
              tt,
              mode,
              with_control t (Field.set_rounds rounds used (r + 1) 0 (i + n - 64) t.control),
            ))
      → run (set_rounds (suc attempts) (suc rounds) policy used r i n) mode s
        ≡ some (tt, mode, with_control s (Field.set_rounds (suc rounds) used r i n s.control))
  unfolding set_rounds Field.set_rounds run
  round-run rounds r i n s member later =
      run-bind (round_mask n i)
        (λ mask. set_register (suc attempts) policy used r mask >> rounds_left rounds r i n) mode s
      ∙ ap
          (continue
            (λ mask. set_register (suc attempts) policy used r mask >> rounds_left rounds r i n))
          (round_mask-run n i mode s member)
      ∙ run-bind (set_register (suc attempts) policy used r (multiple_mask n i))
          (λ _. rounds_left rounds r i n) mode s
      ∙ ap (continue (λ _. rounds_left rounds r i n))
          (set_register-run attempts policy used r (multiple_mask n i) mode s passes)
      ∙ (elim (dec_lt 64 (i + n)) [
        | no last ↦ rw (ge→ltb 64 (i + n) (omega arith)) refl
        | yes more ↦ rw (lt→ltb 64 (i + n) more) (later _ more member)
      ])

  pub set_rounds-run :
      (rounds r i n : ℕ) (s : Shared)
      → s.all_set_member ≡ all_set
      → i + n ≤ 64 * suc rounds
      → run (set_rounds (suc attempts) (suc rounds) policy used r i n) mode s
        ≡ some (tt, mode, with_control s (Field.set_rounds (suc rounds) used r i n s.control))
  set_rounds-run zero r i n s member enough =
      round-run 0 r i n s member (λ t more same. absurd (omega arith))
  set_rounds-run (suc rounds) r i n s member enough =
      round-run (suc rounds) r i n s member
        (λ t more same. set_rounds-run rounds (r + 1) 0 (i + n - 64) t same (omega arith))

-- The heap for one thread that has these registers
abbrev pub single_heap : SharedHeap → Shared → Heap
single_heap h s = record {
  number_of_chunks = h.number_of_chunks;
  chunk_size = h.chunk_size;
  buffer = h.buffer;
  control_buffer = h.control_buffer;
  control = s.control;
}
