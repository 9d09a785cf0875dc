-- ===== src/SharedHeap/Alone/Complete.antt =====
-- A thread that is alone: the searches for whole registers find what those of alb/heap.hpp find.
use allocator_builder.Base.{
  ℕ, suc, ◌+◌, ◌*◌, ◌/◌, ◌≡◌, refl, ap, sym, subst, ◌∙◌, arith, Option, none, some, List, [], ◌∷◌,
  ◌++◌, length, get_or, set, ◌==◌, eq→==, ne→==, Bool-cases, inl, inr, ℕ_discrete, if◌then◌else◌,
  append_snoc,
}
use allocator_builder.Control.Register.{all_set}
use allocator_builder.Control.Search.{Found, after, search_complete}
use allocator_builder.SharedHeap.Program.{
  Prog, ret, Shared, Mode, outside, shared, acquire, release, exchange_all_set, run,
}
use allocator_builder.SharedHeap.Searches.{find_complete, take_complete}
use allocator_builder.SharedHeap.Alone.{continue, run-bind, with_control}
use allocator_builder.SharedHeap.Alone.Searches.{
  outcome, Behind, Behind-next, Behind-read, Behind-write,
}

-- What is found, with the registers before it, satisfies `P`.
abbrev pub At : (ℕ → List ℕ → Type 0) → List ℕ → Found → Type 0
At P before none = Unit {0}
At P before (some (start, rest)) = P start (before ++ rest)

pub At-after :
    (P : ℕ → List ℕ → Type 0) (before : List ℕ) (register : ℕ) (found : Found)
    → At P (before ++ register ∷ []) found
    → At P before (after register found)
At-after P before register none a = tt
At-after P before register (some (start, rest)) a =
    subst (P start) (append_snoc before register rest) a

-- The register of what is found
abbrev pub register_of : Found → Option ℕ
register_of none = none
register_of (some (start, rest)) = some (start / 64)

pub register_of-after :
    (register : ℕ) (found : Found) → register_of (after register found) ≡ register_of found
register_of-after register none = refl
register_of-after register (some (start, rest)) = refl

-- A register of ones that is cleared
abbrev Clears : Shared → ℕ → List ℕ → Type 0
Clears s start control' =
    (start / 64 * 64 ≡ start)
    × (get_or s.control (start / 64) 0 ≡ all_set)
    × (set s.control (start / 64) 0 ≡ control')

search_complete-Clears :
    (index : ℕ) (before rest : List ℕ) (s : Shared)
    → Behind s index before rest
    → At (Clears s) before (search_complete index rest)
unfolding search_complete
search_complete-Clears index before [] s b = tt
search_complete-Clears index before (register ∷ rest) s b = elim (ℕ_discrete register all_set) [
  | yes ones ↦
      let here : index * 64 / 64 ≡ index = omega arith in
      rw (eq→== register all_set ones, here)
        (
          omega arith,
          Behind-read s index before register rest b ∙ ones,
          Behind-write s index 0 before register rest b,
        )
  | no other ↦ rw (ne→== register all_set other) (
      At-after (Clears s) before register (search_complete (index + 1) rest) (
        search_complete-Clears (index + 1) (before ++ register ∷ []) rest s
          (Behind-next s index before register rest b)))
]

find_complete-run :
    (index : ℕ) (before rest : List ℕ) (mode : Mode) (s : Shared)
    → s.all_set_member ≡ all_set
    → Behind s index before rest
    → run (find_complete (length rest) index) mode s
      ≡ some (register_of (search_complete index rest), mode, s)
unfolding run find_complete search_complete
find_complete-run index before [] mode s member b = refl
find_complete-run index before (register ∷ rest) mode s member b =
    ap (λ v. run (after_load v s.all_set_member) mode s)
      (Behind-read s index before register rest b)
    ∙ ap (λ all. run (after_load register all) mode s) member
    ∙ elim (Bool-cases (register == all_set)) [
      | inl ones ↦ let here : index * 64 / 64 ≡ index = omega arith in rw (ones, here) refl
      | inr other ↦ rw other (
          find_complete-run (index + 1) (before ++ register ∷ []) rest mode s member
            (Behind-next s index before register rest b)
          ∙ ap (λ o. some (o, mode, s))
              (sym (register_of-after register (search_complete (index + 1) rest))))
    ]
  where
    after_load : ℕ → ℕ → Prog (Option ℕ)
    after_load v all =
        if v == all then ret (some index) else find_complete (length rest) (index + 1)

abbrev take_found : ℕ → ℕ → Option ℕ → Prog (Option ℕ)
take_found control_size attempts none = ret none
take_found control_size attempts (some index) = acquire shared (
    exchange_all_set index 0 λ done.
      release shared
        (if done then ret (some (index * 64)) else take_complete control_size attempts))

take_found-run :
    (attempts : ℕ) (s : Shared) (found : Found)
    → s.all_set_member ≡ all_set
    → At (Clears s) [] found
    → run (take_found (length s.control) attempts (register_of found)) outside s
      ≡ outcome outside s [] found
unfolding run
take_found-run attempts s none member a = refl
take_found-run attempts s (some (start, rest)) member (here, ones, cleared) =
    rw (eq→== (get_or s.control (start / 64) 0) s.all_set_member (ones ∙ sym member), here)
      (ap (λ c. some (some start, outside, with_control s c)) cleared)

pub take_complete-run :
    (attempts : ℕ) (s : Shared)
    → s.all_set_member ≡ all_set
    → run (take_complete (length s.control) (suc attempts)) outside s
      ≡ outcome outside s [] (search_complete 0 s.control)
unfolding take_complete
take_complete-run attempts s member =
    run-bind (find_complete (length s.control) 0) (take_found (length s.control) attempts) outside s
    ∙ ap (continue (take_found (length s.control) attempts))
        (find_complete-run 0 [] s.control outside s member (refl, refl))
    ∙ take_found-run attempts s (search_complete 0 s.control) member
        (search_complete-Clears 0 [] s.control s (refl, refl))
