-- ===== src/Control/Found.antt =====
-- What a search finds: room that was free, and is taken in the array that it gives back.
use allocator_builder.Base.{
  ℕ, suc, ◌+◌, ◌-◌, ◌*◌, ◌≤◌, ◌<◌, ◌≡◌, arith, ◌∙◌, List, ◌∷◌, none, some, dec_lt, ap, sym,
}
use allocator_builder.Control.Search.{Found, after}
use allocator_builder.Control.Chunks.{free, free_head, free_tail, Sets}

-- The `n` chunks from `start` on were free, and exactly they became used.
pub record Takes (n start : ℕ) (control control' : List ℕ) : Type 0 where
  pub were_free : (c : ℕ) → start ≤ c → c < start + n → free control c ≡ 1
  pub taken : Sets 0 start n control control'

-- The result of a search that began at register `index`, on the registers from there on
abbrev pub Finds : ℕ → ℕ → List ℕ → Found → Type 0
Finds n index control none = Unit {0}
Finds n index control (some (start, control')) =
    (index * 64 ≤ start) × Takes n (start - index * 64) control control'

-- A change further down, seen from one register earlier
pub Sets-cons :
    (register : ℕ) {v start n : ℕ} {control control' : List ℕ}
    → Sets v start n control control'
    → Sets v (start + 64) n (register ∷ control) (register ∷ control')
Sets-cons register {v} {start} {n} {control} {control'} s = record {
  inside = λ c p q.
      free_tail register control' c (omega arith) ∙ s.inside (c - 64) (omega arith) (omega arith);
  outside = λ c p. elim (dec_lt c 64) [
    | yes first ↦ free_head register control' c first ∙ sym (free_head register control c first)
    | no later ↦
        free_tail register control' c (omega arith)
        ∙ s.outside (c - 64) (ground arith)
        ∙ sym (free_tail register control c (omega arith))
  ];
  same_length = ap suc s.same_length;
}

pub Takes-cons :
    (register : ℕ) {n start : ℕ} {control control' : List ℕ}
    → Takes n start control control'
    → Takes n (start + 64) (register ∷ control) (register ∷ control')
Takes-cons register {n} {start} {control} t = record {
  were_free = λ c p q.
      free_tail register control c (omega arith) ∙ t.were_free (c - 64) (omega arith) (omega arith);
  taken = Sets-cons register t.taken;
}

pub after-Finds :
    (n index register : ℕ) (control : List ℕ) (found : Found)
    → Finds n (index + 1) control found
    → Finds n index (register ∷ control) (after register found)
after-Finds n index register control none f = tt
after-Finds n index register control (some (start, control')) (le, t) = (
  omega arith,
  let e : start - (index + 1) * 64 + 64 ≡ start - index * 64 = omega arith in
      rw e at (Takes-cons register t),
)
