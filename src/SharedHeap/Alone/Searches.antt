-- ===== src/SharedHeap/Alone/Searches.antt =====
-- A thread that is alone: the searches in single registers find what those of alb/heap.hpp find.
use allocator_builder.Base.{
  ℕ, zero, suc, ◌+◌, ◌-◌, ◌*◌, ◌≡◌, ◌≢◌, refl, ap, sym, ◌∙◌, false, Option, none, some, List, [],
  ◌∷◌, ◌++◌, length, get_or, set, ◌==◌, eq→==, ne→==, Bool-cases, inl, inr, if◌then◌else◌, bit_and,
  sub64, get_or-middle, set-middle, append_snoc, length-snoc,
}
use allocator_builder.Control.Register.{set_used, shl, low_mask}
use allocator_builder.Control.Search.{Found, after, find_in_register, search_single}
use allocator_builder.SharedHeap.Program.{Prog, ret, Shared, Mode, outside, run, ◌>>=◌}
use allocator_builder.SharedHeap.Searches.{first_mask, take_in_register, take_single}
use allocator_builder.SharedHeap.Alone.{continue, run-bind, with_control}

-- What a search that began behind the registers `before` returns and leaves, by what was found
abbrev pub outcome : Mode → Shared → List ℕ → Found → Option (Option ℕ × Mode × Shared)
outcome mode s before none = some (none, mode, s)
outcome mode s before (some (start, rest)) =
    some (some start, mode, with_control s (before ++ rest))

pub outcome-after :
    (mode : Mode) (s : Shared) (before : List ℕ) (register : ℕ) (found : Found)
    → outcome mode s (before ++ register ∷ []) found ≡ outcome mode s before (after register found)
outcome-after mode s before register none = refl
outcome-after mode s before register (some (start, rest)) =
    ap (λ c. some (some start, mode, with_control s c)) (append_snoc before register rest)

-- What the search within a register returns and leaves
abbrev hit : Shared → ℕ → ℕ → Option (ℕ × ℕ) → Option (Option ℕ × Mode × Shared)
hit s index current none = some (none, outside, s)
hit s index current (some (i, mask)) =
    some (some i, outside, with_control s (set s.control index (set_used false current mask)))

take_in_register-run :
    (rounds index i mask current : ℕ) (s : Shared)
    → get_or s.control index 0 ≡ current
    → run (take_in_register rounds index i mask current) outside s
      ≡ hit s index current (find_in_register rounds current mask i)
unfolding run take_in_register find_in_register
take_in_register-run zero index i mask current s e = refl
take_in_register-run (suc rounds) index i mask current s e =
    elim (Bool-cases (bit_and current mask == mask)) [
      | inl room ↦ rw (room, eq→== (get_or s.control index 0) current e) refl
      | inr full ↦ rw full (take_in_register-run rounds index (i + 1) (shl mask 1) current s e)
    ]

-- The rest of a search behind one more register
abbrev pub Behind : Shared → ℕ → List ℕ → List ℕ → Type 0
Behind s index before rest = (length before ≡ index) × (s.control ≡ before ++ rest)

pub Behind-next :
    (s : Shared) (index : ℕ) (before : List ℕ) (register : ℕ) (rest : List ℕ)
    → Behind s index before (register ∷ rest)
    → Behind s (index + 1) (before ++ register ∷ []) rest
Behind-next s index before register rest (e, c) =
    (length-snoc before register ∙ ap (λ k. k + 1) e, c ∙ sym (append_snoc before register rest))

pub Behind-read :
    (s : Shared) (index : ℕ) (before : List ℕ) (register : ℕ) (rest : List ℕ)
    → Behind s index before (register ∷ rest)
    → get_or s.control index 0 ≡ register
Behind-read s index before register rest (e, c) = rw (c, ← e) (get_or-middle before register rest 0)

pub Behind-write :
    (s : Shared) (index v : ℕ) (before : List ℕ) (register : ℕ) (rest : List ℕ)
    → Behind s index before (register ∷ rest)
    → set s.control index v ≡ before ++ v ∷ rest
Behind-write s index v before register rest (e, c) = rw (c, ← e) (set-middle before register v rest)

-- After a write, the rest is behind the register that was written.
pub Behind-written :
    (s : Shared) (index v : ℕ) (before : List ℕ) (register : ℕ) (rest : List ℕ)
    → Behind s index before (register ∷ rest)
    → Behind (with_control s (set s.control index v)) (index + 1) (before ++ v ∷ []) rest
Behind-written s index v before register rest b = (
  length-snoc before v ∙ ap (λ k. k + 1) b.0,
  Behind-write s index v before register rest b ∙ sym (append_snoc before v rest),
)

-- What follows the load of a register
abbrev in_single : (n registers index current : ℕ) → Prog (Option ℕ)
in_single n registers index current =
    if current == 0 then take_single n registers (index + 1) else (do
      mask ← first_mask n
      found ← take_in_register (65 - n) index 0 mask current
      elim found [
        | none ↦ take_single n registers (index + 1)
        | some i ↦ ret (some (index * 64 + i))
      ])

-- What follows the search in the register
abbrev in_found : (n registers index : ℕ) → Option ℕ → Prog (Option ℕ)
in_found n registers index none = take_single n registers (index + 1)
in_found n registers index (some i) = ret (some (index * 64 + i))

in_found-run :
    (n index register : ℕ) (before rest : List ℕ) (s : Shared)
    → Behind s index before (register ∷ rest)
    → (o : Option (ℕ × ℕ))
    → run (take_single n (length rest) (index + 1)) outside s
      ≡ outcome outside s before (after register (search_single n (index + 1) rest))
    → continue (in_found n (length rest) index) (hit s index register o)
      ≡ outcome outside s before (elim o [
        | none ↦ after register (search_single n (index + 1) rest)
        | some (i, mask) ↦ some (index * 64 + i, set_used false register mask ∷ rest)
      ])
unfolding run
in_found-run n index register before rest s b none later = later
in_found-run n index register before rest s b (some (i, mask)) later =
    ap (λ c. some (some (index * 64 + i), outside, with_control s c))
      (Behind-write s index (set_used false register mask) before register rest b)

pub take_single-run :
    (n index : ℕ) (before rest : List ℕ) (s : Shared)
    → n ≢ 64
    → Behind s index before rest
    → run (take_single n (length rest) index) outside s
      ≡ outcome outside s before (search_single n index rest)
unfolding run take_single search_single low_mask
take_single-run n index before [] s part b = refl
take_single-run n index before (register ∷ rest) s part b =
    let later =
      take_single-run n (index + 1) (before ++ register ∷ []) rest s part
        (Behind-next s index before register rest b)
      ∙ outcome-after outside s before register (search_single n (index + 1) rest) in
    ap (λ v. run (in_single n (length rest) index v) outside s)
      (Behind-read s index before register rest b)
    ∙ elim (Bool-cases (register == 0)) [
      | inl used ↦ rw used later
      | inr some_free ↦
          rw (some_free, ne→== n 64 part)
            (run-bind (take_in_register (65 - n) index 0 (sub64 (shl 1 n) 1) register)
                (in_found n (length rest) index) outside s
              ∙ ap (continue (in_found n (length rest) index)) (
                  take_in_register-run (65 - n) index 0 (sub64 (shl 1 n) 1) register s
                    (Behind-read s index before register rest b))
              ∙ in_found-run n index register before rest s b _ later)
    ]
