-- ===== src/SharedHeap/Alone/Overlap.antt =====
-- A thread that is alone: the search with overlap finds and takes what that of alb/heap.hpp does.
use native.Mathlib.Nat.{pow-suc, div-div-eq-div-mul, div-one, mul_comm, zero-div}
use allocator_builder.Base.{
  ℕ, zero, suc, ◌+◌, ◌-◌, ◌*◌, ◌/◌, ◌%◌, ◌^◌, ◌<◌, ◌≡◌, refl, ap, sym, ◌∙◌, arith, false, Option,
  none, some, List, [], ◌∷◌, ◌++◌, length, get_or, ◌==◌, Bool-cases, inl, inr, if◌then◌else◌, leb,
  dec_lt, get_or-append_left, get_or-append_right,
}
use allocator_builder.Control as Field
use allocator_builder.Control.{BlockContext}
use allocator_builder.Control.Register.{all_set}
use allocator_builder.Control.Search.{bytes_of, bytes, scan_bytes, start_or, search_overlap}
use allocator_builder.Control.Overlap.{length-bytes_of}
use allocator_builder.SharedHeap.Program.{
  Prog, ret, Shared, Mode, outside, writing, unique, release, run, ◌>>◌,
}
use allocator_builder.SharedHeap.Registers.{set_over_multiple_registers}
use allocator_builder.SharedHeap.Searches.{find_bytes, take_overlap}
use allocator_builder.SharedHeap.Alone.{
  continue, run-bind, with_control, none-Passes, set_rounds-run,
}

byte_of-register :
    (n register q : ℕ) → q < n → get_or (bytes_of n register) q 0 ≡ register / 256 ^ q % 256
unfolding bytes_of
byte_of-register zero register q h = absurd (omega arith)
byte_of-register (suc n) register zero h = rw div-one refl
byte_of-register (suc n) register (suc q) h =
    byte_of-register n (register / 256) q (omega arith)
    ∙ rw (div-div-eq-div-mul, pow-suc, mul_comm 256 (256 ^ q)) refl

-- The byte at a place of the array
abbrev byte_at : List ℕ → ℕ → ℕ
byte_at control p = get_or control (p / 8) 0 / 256 ^ (p % 8) % 256

get_or-bytes : (control : List ℕ) (p : ℕ) → get_or (bytes control) p 0 ≡ byte_at control p
unfolding bytes
get_or-bytes [] p = rw zero-div refl
get_or-bytes (register ∷ control) p = elim (dec_lt p 8) [
  | yes first ↦
      let q : p / 8 ≡ 0 = omega arith in
      let r : p % 8 ≡ p = omega arith in
      rw (q, r)
        (get_or-append_left (bytes_of 8 register) (bytes control) p 0
            (omega (arith, length-bytes_of 8 register))
          ∙ byte_of-register 8 register p first)
  | no later ↦
      let q : p / 8 ≡ suc ((p - 8) / 8) = omega arith in
      let r : p % 8 ≡ (p - 8) % 8 = omega arith in
      rw (q, r)
        (ap (λ k. get_or (bytes_of 8 register ++ bytes control) k 0)
            (omega (arith, length-bytes_of 8 register))
          ∙ get_or-append_right (bytes_of 8 register) (bytes control) (p - 8) 0
          ∙ get_or-bytes control (p - 8))
]

length-append : (xs ys : List ℕ) → length (xs ++ ys) ≡ length xs + length ys
length-append [] ys = omega arith
length-append (x ∷ xs) ys = omega (arith, length-append xs ys)

length-bytes : (control : List ℕ) → length (bytes control) ≡ length control * 8
unfolding bytes
length-bytes [] = refl
length-bytes (register ∷ control) = omega (
  arith,
  length-append (bytes_of 8 register) (bytes control),
  length-bytes_of 8 register,
  length-bytes control,
)

-- What follows the load of a byte
abbrev at_byte : (n left p free_blocks_count : ℕ) → Option ℕ → ℕ → Prog (Option ℕ)
at_byte n left p free_blocks_count chunk_start byte =
    if byte == 0xff
    then (if leb n (free_blocks_count + 8)
        then ret (some (start_or p chunk_start))
        else find_bytes n left (p + 1) (free_blocks_count + 8) (some (start_or p chunk_start)))
    else find_bytes n left (p + 1) 0 none

find_bytes-run :
    (n p count : ℕ) (start : Option ℕ) (rest : List ℕ) (mode : Mode) (s : Shared)
    → ((k : ℕ) → get_or rest k 0 ≡ byte_at s.control (p + k))
    → run (find_bytes n (length rest) p count start) mode s
      ≡ some (scan_bytes n p count start rest, mode, s)
unfolding run find_bytes scan_bytes
find_bytes-run n p count start [] mode s same = refl
find_bytes-run n p count start (byte ∷ rest) mode s same =
    let here : byte_at s.control p ≡ byte =
      ap (byte_at s.control) (let e : p ≡ p + 0 = omega arith in e) ∙ sym (same 0) in
    let shifted : (k : ℕ) → get_or rest k 0 ≡ byte_at s.control (p + 1 + k) =
      λ k. same (suc k) ∙ ap (byte_at s.control) (omega arith) in
    ap (λ v. run (at_byte n (length rest) p count start v) mode s) here
    ∙ elim (Bool-cases (byte == 255)) [
      | inl ones ↦ elim (Bool-cases (leb n (count + 8))) [
        | inl enough ↦ rw (ones, enough) refl
        | inr more ↦
            rw (ones, more)
              (find_bytes-run n (p + 1) (count + 8) (some (start_or p start)) rest mode s shifted)
      ]
      | inr used ↦ rw used (find_bytes-run n (p + 1) 0 none rest mode s shifted)
    ]

-- What the search with overlap returns and leaves, by what was found
abbrev pub overlapped : (ℕ → BlockContext) → Shared → Option ℕ → Option (Option ℕ × Mode × Shared)
overlapped context_of s none = some (none, outside, s)
overlapped context_of s (some start) = some (
  some start,
  outside,
  with_control s (Field.set_over_multiple_registers false (context_of start) s.control),
)

abbrev take_bytes : ℕ → (ℕ → BlockContext) → Option ℕ → Prog (Option ℕ)
take_bytes attempts context_of none = release unique (ret none)
take_bytes attempts context_of (some start) =
    set_over_multiple_registers (suc attempts) none false (context_of (start * 8))
    >> release unique (ret (some (start * 8)))

take_bytes-run :
    (attempts : ℕ) (context_of : ℕ → BlockContext) (s : Shared) (found : Option ℕ)
    → s.all_set_member ≡ all_set
    → run (take_bytes attempts context_of found) writing s
      ≡ overlapped context_of s (elim found [ none ↦ none | some start ↦ some (start * 8) ])
unfolding run set_over_multiple_registers Field.set_over_multiple_registers
take_bytes-run attempts context_of s none member = refl
take_bytes-run attempts context_of s (some start) member =
    let c = context_of (start * 8) in
    run-bind (set_over_multiple_registers (suc attempts) none false c)
      (λ _. release unique (ret (some (start * 8)))) writing s
    ∙ ap (continue (λ _. release unique (ret (some (start * 8))))) (
        set_rounds-run attempts none false writing (none-Passes writing)
          (c.sub_index + c.used_chunks) c.register_index c.sub_index c.used_chunks s member
          (omega arith))

pub take_overlap-run :
    (n attempts : ℕ) (context_of : ℕ → BlockContext) (s : Shared)
    → s.all_set_member ≡ all_set
    → run (take_overlap (length s.control) (suc attempts) context_of n) outside s
      ≡ overlapped context_of s (search_overlap n s.control)
unfolding run take_overlap search_overlap
take_overlap-run n attempts context_of s member =
    let found =
      find_bytes-run n 0 0 none (bytes s.control) writing s
        (λ k. get_or-bytes s.control k ∙ ap (byte_at s.control) (omega arith)) in
    run-bind (find_bytes n (length s.control * 8) 0 0 none) (take_bytes attempts context_of) writing
      s
    ∙ ap (continue (take_bytes attempts context_of)) (rw length-bytes at found)
    ∙ take_bytes-run attempts context_of s (scan_bytes n 0 0 none (bytes s.control)) member
