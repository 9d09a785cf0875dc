-- ===== src/SharedHeap/Alone/Runs.antt =====
-- A thread that is alone: the search for several whole registers finds what that of alb/heap.hpp finds.
use allocator_builder.Base.{
  ℕ, zero, suc, ◌+◌, ◌-◌, ◌*◌, ◌/◌, ◌<◌, ◌≤◌, ◌≡◌, refl, ap, sym, ◌∙◌, arith, Bool, true, false,
  Option, none, some, List, [], ◌∷◌, ◌++◌, length, get_or, set, ◌==◌, eq→==, Bool-cases, inl, inr,
  if◌then◌else◌, append_snoc, dec_le, get_or-append_right,
}
use allocator_builder.Control.Register.{all_set}
use allocator_builder.Control.Search.{Found, search_registers, all_free, clear_first}
use allocator_builder.SharedHeap.Program.{
  Prog, ret, Shared, Mode, outside, writing, unique, release, run, ◌>>=◌, ◌>>◌,
}
use allocator_builder.SharedHeap.Searches.{all_equal, find_run, clear_run, take_multiple}
use allocator_builder.SharedHeap.Alone.{continue, run-bind, with_control}
use allocator_builder.SharedHeap.Alone.Searches.{
  outcome, Behind, Behind-next, Behind-read, Behind-written,
}
use allocator_builder.SharedHeap.Alone.Complete.{At, At-after, register_of, register_of-after}

all_free-length : (needed : ℕ) (rest : List ℕ) → all_free needed rest ≡ true → needed ≤ length rest
unfolding all_free
all_free-length zero rest h = omega arith
all_free-length (suc needed) [] h = cc
all_free-length (suc needed) (register ∷ rest) h = ground (arith, all_free-length needed rest)

search_registers_short :
    (needed index : ℕ) (rest : List ℕ)
    → length rest < needed
    → search_registers needed index rest ≡ none
unfolding search_registers
search_registers_short needed index [] h = refl
search_registers_short needed index (register ∷ rest) h =
    elim (Bool-cases (all_free needed (register ∷ rest))) [
      | inl free ↦ absurd (omega (arith, all_free-length needed (register ∷ rest) free))
      | inr other ↦ rw (other, search_registers_short needed (index + 1) rest (omega arith)) refl
    ]

-- Behind the last register 0 is read.
Behind-end :
    (s : Shared) (index : ℕ) (before : List ℕ)
    → Behind s index before []
    → get_or s.control index 0 ≡ 0
Behind-end s index before (e, c) =
    rw c
      (ap (λ k. get_or (before ++ []) k 0) (omega (arith, e)) ∙ get_or-append_right before [] 0 0)

all_equal-run :
    (needed index : ℕ) (before rest : List ℕ) (mode : Mode) (s : Shared)
    → Behind s index before rest
    → run (all_equal needed index all_set) mode s ≡ some (all_free needed rest, mode, s)
unfolding run all_equal all_free
all_equal-run zero index before rest mode s b = refl
all_equal-run (suc needed) index before [] mode s b =
    ap (λ v. run (if v == all_set then all_equal needed (index + 1) all_set else ret false) mode s)
      (Behind-end s index before b)
all_equal-run (suc needed) index before (register ∷ rest) mode s b =
    ap (λ v. run (if v == all_set then all_equal needed (index + 1) all_set else ret false) mode s)
      (Behind-read s index before register rest b)
    ∙ elim (Bool-cases (register == all_set)) [
      | inl ones ↦ rw ones (
          all_equal-run needed (index + 1) (before ++ register ∷ []) rest mode s
            (Behind-next s index before register rest b))
      | inr other ↦ rw other refl
    ]

-- What follows the test of one place
abbrev or_next : (places needed index : ℕ) → Bool → Prog (Option ℕ)
or_next places needed index found =
    if found then ret (some index) else find_run places needed (index + 1) all_set

find_run-run :
    (needed index : ℕ) (before rest : List ℕ) (mode : Mode) (s : Shared)
    → 0 < needed
    → Behind s index before rest
    → run (find_run (length rest + 1 - needed) needed index all_set) mode s
      ≡ some (register_of (search_registers needed index rest), mode, s)
unfolding run find_run search_registers
find_run-run needed index before [] mode s pos b =
    let none_left : 0 + 1 - needed ≡ 0 = omega arith in rw none_left refl
find_run-run needed index before (register ∷ rest) mode s pos b =
    elim (dec_le needed (length rest + 1)) [
      | no short ↦
          let none_left : length (register ∷ rest) + 1 - needed ≡ 0 = omega arith in
          rw (none_left, search_registers_short needed index (register ∷ rest) (omega arith)) refl
      | yes fits ↦
          let one_more : length (register ∷ rest) + 1 - needed ≡ suc (length rest + 1 - needed) =
            omega arith in
          rw one_more (
            run-bind (all_equal needed index all_set)
              (or_next (length rest + 1 - needed) needed index) mode s
            ∙ ap (continue (or_next (length rest + 1 - needed) needed index))
                (all_equal-run needed index before (register ∷ rest) mode s b)
            ∙ elim (Bool-cases (all_free needed (register ∷ rest))) [
              | inl free ↦ let here : index * 64 / 64 ≡ index = omega arith in rw (free, here) refl
              | inr other ↦ rw other (
                  find_run-run needed (index + 1) (before ++ register ∷ []) rest mode s pos
                    (Behind-next s index before register rest b)
                  ∙ ap (λ o. some (o, mode, s))
                      (sym (register_of-after register (search_registers needed (index + 1) rest))))
            ])
    ]

clear_run-run :
    (needed index : ℕ) (before rest : List ℕ) (mode : Mode) (s : Shared)
    → s.all_set_member ≡ all_set
    → all_free needed rest ≡ true
    → Behind s index before rest
    → run (clear_run needed index) mode s
      ≡ some (tt, mode, with_control s (before ++ clear_first needed rest))
unfolding run clear_run clear_first all_free
clear_run-run zero index before rest mode s member free b =
    ap (λ c. some (tt, mode, with_control s c)) b.1
clear_run-run (suc needed) index before [] mode s member free b = cc
clear_run-run (suc needed) index before (register ∷ rest) mode s member free b =
    let ones : register ≡ all_set = ground arith in
    rw
      (eq→== (get_or s.control index 0) s.all_set_member
        (Behind-read s index before register rest b ∙ ones ∙ sym member))
      (clear_run-run needed (index + 1) (before ++ 0 ∷ []) rest mode
          (with_control s (set s.control index 0)) member (ground arith)
          (Behind-written s index 0 before register rest b)
        ∙ ap (λ c. some (tt, mode, with_control s c))
            (append_snoc before 0 (clear_first needed rest)))

-- Several registers of ones that are cleared
abbrev ClearsRun : ℕ → Shared → ℕ → List ℕ → Type 0
ClearsRun needed s start control' =
    (start / 64 * 64 ≡ start)
    × (run (clear_run needed (start / 64)) writing s ≡ some (tt, writing, with_control s control'))

search_registers-ClearsRun :
    (needed index : ℕ) (before rest : List ℕ) (s : Shared)
    → s.all_set_member ≡ all_set
    → Behind s index before rest
    → At (ClearsRun needed s) before (search_registers needed index rest)
unfolding search_registers
search_registers-ClearsRun needed index before [] s member b = tt
search_registers-ClearsRun needed index before (register ∷ rest) s member b =
    elim (Bool-cases (all_free needed (register ∷ rest))) [
      | inl free ↦
          let here : index * 64 / 64 ≡ index = omega arith in
          rw (free, here)
            (
              omega arith,
              clear_run-run needed index before (register ∷ rest) writing s member free b,
            )
      | inr other ↦ rw other (
          At-after (ClearsRun needed s) before register (search_registers needed (index + 1) rest) (
            search_registers-ClearsRun needed (index + 1) (before ++ register ∷ []) rest s member
              (Behind-next s index before register rest b)))
    ]

abbrev clear_found : ℕ → Option ℕ → Prog (Option ℕ)
clear_found needed none = release unique (ret none)
clear_found needed (some index) = clear_run needed index >> release unique (ret (some (index * 64)))

clear_found-run :
    (needed : ℕ) (s : Shared) (found : Found)
    → At (ClearsRun needed s) [] found
    → run (clear_found needed (register_of found)) writing s ≡ outcome outside s [] found
unfolding run
clear_found-run needed s none a = refl
clear_found-run needed s (some (start, rest)) (here, cleared) =
    run-bind (clear_run needed (start / 64)) (λ _. release unique (ret (some (start / 64 * 64))))
      writing s
    ∙ ap (continue (λ _. release unique (ret (some (start / 64 * 64))))) cleared
    ∙ ap (λ k. some (some k, outside, with_control s rest)) here

pub take_multiple-run :
    (n : ℕ) (s : Shared)
    → 64 ≤ n
    → s.all_set_member ≡ all_set
    → run (take_multiple (length s.control) n) outside s
      ≡ outcome outside s [] (search_registers (n / 64) 0 s.control)
unfolding run take_multiple
take_multiple-run n s many member =
    ap
      (λ all.
        run (find_run (length s.control + 1 - n / 64) (n / 64) 0 all >>= clear_found (n / 64))
          writing s)
      member
    ∙ run-bind (find_run (length s.control + 1 - n / 64) (n / 64) 0 all_set) (clear_found (n / 64))
        writing s
    ∙ ap (continue (clear_found (n / 64)))
        (find_run-run (n / 64) 0 [] s.control writing s (omega arith) (refl, refl))
    ∙ clear_found-run (n / 64) s (search_registers (n / 64) 0 s.control)
        (search_registers-ClearsRun (n / 64) 0 [] s.control s member (refl, refl))
