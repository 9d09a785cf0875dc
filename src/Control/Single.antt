-- ===== src/Control/Single.antt =====
-- `allocateWithinASingleControlRegister`: the runs of free chunks in one register.
use allocator_builder.Base.{
  ℕ, zero, suc, ◌+◌, ◌-◌, ◌*◌, ◌≤◌, ◌<◌, ◌≡◌, refl, arith, ◌∙◌, ◌⊎◌, inl, inr, List, [], ◌∷◌,
  Option, none, some, ap, sym, bit_and, false, subst, ℕ_discrete, eq→==, ne→==,
}
use allocator_builder.Bits.{bit, zero-bit}
use allocator_builder.Control.Register.{shl, low_mask, set_used}
use allocator_builder.Control.Register.Masks.{Covers, Covers-eq, shl-Covers, low_mask-Covers}
use allocator_builder.Control.Register.Ops.{test_mask_ones, ones_test_mask}
use allocator_builder.Control.Search.{Found, after, find_in_register, search_single}
use allocator_builder.Control.Chunks.{free, free_head, free_tail, free_in_range, set_register-Sets}
use allocator_builder.Control.Found.{Takes, Finds, after-Finds}

-- A hit within a register: the mask covers `n` ones of the register, from the given place on.
abbrev Hits : ℕ → ℕ → Option (ℕ × ℕ) → Type 0
Hits n register none = Unit {0}
Hits n register (some (i, mask)) = Covers mask i (i + n) × (bit_and register mask ≡ mask)

find_in_register-Hits :
    (n rounds register mask i : ℕ)
    → Covers mask i (i + n)
    → i + n + rounds ≤ 65
    → Hits n register (find_in_register rounds register mask i)
unfolding find_in_register
find_in_register-Hits n zero register mask i c h = tt
find_in_register-Hits n (suc zero) register mask i c h =
    elim (ℕ_discrete (bit_and register mask) mask) [
      | yes hit ↦ rw (eq→== _ _ hit) (c, hit)
      | no miss ↦ rw (ne→== _ _ miss) tt
    ]
find_in_register-Hits n (suc (suc rounds)) register mask i c h =
    elim (ℕ_discrete (bit_and register mask) mask) [
      | yes hit ↦ rw (eq→== _ _ hit) (c, hit)
      | no miss ↦ rw (ne→== _ _ miss) (
          find_in_register-Hits n (suc rounds) register (shl mask 1) (i + 1)
            (Covers-eq (omega arith) (omega arith) (shl-Covers 1 (omega arith) (omega arith) c))
            (omega arith))
    ]

-- The head register with the hit taken
head-Takes :
    (n register : ℕ) (control : List ℕ) (i mask : ℕ)
    → Covers mask i (i + n)
    → bit_and register mask ≡ mask
    → Takes n i (register ∷ control) (set_used false register mask ∷ control)
head-Takes n register control i mask c hit = record {
  were_free = λ x p q.
      free_head register control x (omega (arith, c.within)) ∙ test_mask_ones register x c hit p q;
  taken = set_register-Sets false (register ∷ control) 0 i n c (omega arith) (omega arith) refl;
}

-- One register of the search, given what the rest of it finds
module _ (n index register : ℕ) (control : List ℕ) (later : Found) where
  hit-Finds :
      Finds n index (register ∷ control) later
      → (o : Option (ℕ × ℕ)) → Hits n register o
      → Finds n index (register ∷ control) (elim o [
        | none ↦ later
        | some (i, mask) ↦ some (index * 64 + i, set_used false register mask ∷ control)
      ])
  hit-Finds rest none _ = rest
  hit-Finds rest (some (i, mask)) (c, e) = (
    omega arith,
    subst (λ start. Takes n start (register ∷ control) (set_used false register mask ∷ control))
        (omega arith) (head-Takes n register control i mask c e),
  )

  hit_none :
      (o : Option (ℕ × ℕ))
      → elim o [
        | none ↦ later
        | some (i, mask) ↦ some (index * 64 + i, set_used false register mask ∷ control)
      ]
        ≡ none
      → (o ≡ none) × (later ≡ none)
  hit_none none e = (refl, e)
  hit_none (some x) e = cc

-- What the search gives is room that was free, and taken in the result.
pub search_single-Finds :
    (n index : ℕ) (control : List ℕ)
    → n ≤ 64
    → Finds n index control (search_single n index control)
unfolding search_single
search_single-Finds n index [] h = tt
search_single-Finds n index (register ∷ control) h =
    let rest =
      after-Finds n index register control (search_single n (index + 1) control)
        (search_single-Finds n (index + 1) control h) in
    elim (ℕ_discrete register 0) [
      | yes full ↦ rw (eq→== _ _ full) rest
      | no some_free ↦ rw (ne→== _ _ some_free) (
          hit-Finds n index register control _ rest
            (find_in_register (65 - n) register (low_mask n) 0)
            (find_in_register-Hits n (65 - n) register (low_mask n) 0
              (Covers-eq refl (omega arith) (low_mask-Covers n h)) (omega arith)))
    ]

after-none : (register : ℕ) (found : Found) → after register found ≡ none → found ≡ none
after-none register none e = refl
after-none register (some (start, rest)) e = cc

-- Where no place of the register fits, none has `n` ones.
find_in_register-none :
    (n rounds register mask i : ℕ)
    → Covers mask i (i + n)
    → i + n + rounds ≤ 65
    → find_in_register rounds register mask i ≡ none
    → (j : ℕ) → i ≤ j
    → j < i + rounds
    → ¬ ((c : ℕ) → j ≤ c → c < j + n → bit register c ≡ 1)
unfolding find_in_register
find_in_register-none n zero register mask i c h e j p q ones = omega arith
find_in_register-none n (suc rounds) register mask i c h e j p q ones =
    elim (ℕ_discrete (bit_and register mask) mask) [
      | yes hit ↦ ground arith
      | no miss ↦ elim (ℕ_discrete i j) [
        | yes here ↦
            miss (ones_test_mask register c (λ x lo hi. ones x (omega arith) (omega arith)))
        | no later ↦
            find_in_register-none n rounds register (shl mask 1) (i + 1)
              (Covers-eq (omega arith) (omega arith) (shl-Covers 1 (omega arith) (omega arith) c))
              (omega arith) (ground arith) j (omega arith) (omega arith) ones
      ]
    ]

search_single_parts :
    (n index register : ℕ) (control : List ℕ)
    → search_single n index (register ∷ control) ≡ none
    → ((register ≡ 0) ⊎ (find_in_register (65 - n) register (low_mask n) 0 ≡ none))
      × (search_single n (index + 1) control ≡ none)
unfolding search_single
search_single_parts n index register control e = elim (ℕ_discrete register 0) [
  | yes full ↦ (inl full, after-none register _ (rw (eq→== _ _ full) at e))
  | no some_free ↦
      let parts =
        hit_none n index register control (after register (search_single n (index + 1) control))
          (find_in_register (65 - n) register (low_mask n) 0) (rw (ne→== _ _ some_free) at e) in
      (inr parts.0, after-none register _ parts.1)
]

-- No run of ones in a register that is zero or was searched in vain
no_run :
    (n register i : ℕ)
    → 0 < n
    → i + n ≤ 64
    → (register ≡ 0) ⊎ (find_in_register (65 - n) register (low_mask n) 0 ≡ none)
    → ¬ ((c : ℕ) → i ≤ c → c < i + n → bit register c ≡ 1)
no_run n register i pos fits (inl z) ones =
    omega (arith, ones i (omega arith) (omega arith), zero-bit i, ap (λ w. bit w i) z)
no_run n register i pos fits (inr e) ones =
    find_in_register-none n (65 - n) register (low_mask n) 0
      (Covers-eq refl (omega arith) (low_mask-Covers n (omega arith))) (omega arith) e i
      (omega arith) (omega arith) ones

-- The search fails only if no register has `n` free chunks in a row.
pub search_single_complete :
    (n index : ℕ) (control : List ℕ)
    → 0 < n
    → n ≤ 64
    → search_single n index control ≡ none
    → (r i : ℕ) → i + n ≤ 64
    → ¬ ((c : ℕ) → r * 64 + i ≤ c → c < r * 64 + i + n → free control c ≡ 1)
search_single_complete n index [] pos h e r i fits all =
    omega (arith, free_in_range [] (r * 64 + i) (all (r * 64 + i) (omega arith) (omega arith)))
search_single_complete n index (register ∷ control) pos h e zero i fits all =
    no_run n register i pos fits (search_single_parts n index register control e).0 (λ c p q.
      sym (free_head register control c (omega arith)) ∙ all c (omega arith) (omega arith))
search_single_complete n index (register ∷ control) pos h e (suc r) i fits all =
    search_single_complete n (index + 1) control pos h
      (search_single_parts n index register control e).1 r i fits
      (λ c p q. down c ∙ all (c + 64) (omega arith) (omega arith))
  where
    down : (c : ℕ) → free control c ≡ free (register ∷ control) (c + 64)
    down c =
        ap (free control) (omega arith) ∙ sym (free_tail register control (c + 64) (omega arith))
