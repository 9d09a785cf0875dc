-- ===== src/Control/Chunks.antt =====
-- The bit field as a set of free chunks, and what setting bits does to that set.
use allocator_builder.Base.{
  ℕ, suc, ◌+◌, ◌-◌, ◌*◌, ◌/◌, ◌%◌, ◌≤◌, ◌<◌, ◌≡◌, ◌≢◌, refl, arith, ◌∙◌, Bool, ◌⊎◌, inl, List, ◌∷◌,
  length, get_or, set, length-set, get_or-set_self, get_or-set_ne, get_or_beyond, replicate,
  get_or-replicate, dec_lt, ℕ_discrete,
}
use allocator_builder.Bits.{bit, zero-bit}
use allocator_builder.Control.Register.{all_set, set_used}
use allocator_builder.Control.Register.Masks.{Covers, all_set-Covers, single_mask-Covers}
use allocator_builder.Control.Register.Ops.{digit_of, set_used_inside, set_used_outside}
use allocator_builder.Control.{BlockContext, set_within_single_register}

-- 1 for a free chunk, 0 for a used one and for a number that is no chunk.
unfoldable pub free : List ℕ → ℕ → ℕ
free control chunk = bit (get_or control (chunk / 64) 0) (chunk % 64)

-- The chunks of an array with one more register in front
pub free_head :
    (register : ℕ) (control : List ℕ) (c : ℕ)
    → c < 64
    → free (register ∷ control) c ≡ bit register c
unfolding free
free_head register control c h =
    let first : c / 64 ≡ 0 = omega arith in
    let same : c % 64 ≡ c = omega arith in rw (first, same) refl

pub free_tail :
    (register : ℕ) (control : List ℕ) (c : ℕ)
    → 64 ≤ c
    → free (register ∷ control) c ≡ free control (c - 64)
unfolding free
free_tail register control c h =
    let next : c / 64 ≡ suc ((c - 64) / 64) = omega arith in
    let same : c % 64 ≡ (c - 64) % 64 = omega arith in rw (next, same) refl

pub free_in_range :
    (control : List ℕ) (chunk : ℕ) → free control chunk ≡ 1 → chunk < 64 * length control
unfolding free
free_in_range control chunk h = elim (dec_lt (chunk / 64) (length control)) [
  | yes inside ↦ omega arith
  | no beyond ↦
      let none_there : bit (get_or control (chunk / 64) 0) (chunk % 64) ≡ 0 =
        rw (get_or_beyond control (chunk / 64) 0 (omega arith)) (zero-bit (chunk % 64)) in
      absurd (omega arith)
]

-- All chunks of set registers are free.
pub free-replicate : (n c : ℕ) → c < n * 64 → free (replicate n all_set) c ≡ 1
unfolding free
free-replicate n c h =
    rw (get_or-replicate n (c / 64) all_set 0 (omega arith))
      (all_set-Covers.ones (c % 64) (omega arith) (omega arith))

-- Exactly the `n` chunks from `start` on take the value `v`.
pub record Sets (v start n : ℕ) (control control' : List ℕ) : Type 0 where
  pub inside : (c : ℕ) → start ≤ c → c < start + n → free control' c ≡ v
  pub outside : (c : ℕ) → (c < start) ⊎ (start + n ≤ c) → free control' c ≡ free control c
  pub same_length : length control' ≡ length control

pub Sets-eq :
    {v start n n' start' : ℕ} {control control' : List ℕ}
    → start ≡ start'
    → n ≡ n'
    → Sets v start n control control'
    → Sets v start' n' control control'
Sets-eq p q s = rw (← p, ← q) s

pub Sets-trans :
    {v start n k : ℕ} {a b c : List ℕ}
    → Sets v start n a b
    → Sets v (start + n) k b c
    → Sets v start (n + k) a c
Sets-trans {v} {start} {n} {k} {a} {b} {c} p q = record {
  inside = λ x lo hi. elim (dec_lt x (start + n)) [
    | yes first ↦ q.outside x (inl first) ∙ p.inside x lo first
    | no second ↦ q.inside x (omega arith) (omega arith)
  ];
  outside = λ x h. q.outside x (ground arith) ∙ p.outside x (ground arith);
  same_length = q.same_length ∙ p.same_length;
}

-- One register under a mask
pub set_register-Sets :
    (used : Bool) (control : List ℕ) (r start n : ℕ) {mask lo hi : ℕ}
    → Covers mask lo hi
    → r < length control
    → start ≡ r * 64 + lo
    → lo + n ≡ hi
    → Sets (digit_of used) start n control (set control r (set_used used (get_or control r 0) mask))
unfolding free
set_register-Sets used control r start n {mask} {lo} {hi} c in_range e e' = record {
  inside = λ x p q.
      let here : x / 64 ≡ r = omega (arith, c.within) in
      rw (here, get_or-set_self control r _ 0 in_range)
        (set_used_inside used (get_or control r 0) (x % 64) c (omega (arith, c.within))
          (omega (arith, c.within)));
  outside = λ x p. elim (ℕ_discrete r (x / 64)) [
    | yes here ↦
        rw (← here, get_or-set_self control r _ 0 in_range)
          (set_used_outside used (get_or control r 0) (x % 64) c (ground (arith, c.within))
            (omega arith))
    | no other ↦ rw (get_or-set_ne control r (x / 64) _ 0 other)
  ];
  same_length = length-set control r _;
}

-- A whole register overwritten
pub write_register-Sets :
    (v w r : ℕ) (control : List ℕ)
    → ((i : ℕ) → i < 64 → bit w i ≡ v)
    → r < length control
    → Sets v (r * 64) 64 control (set control r w)
unfolding free
write_register-Sets v w r control digits in_range = record {
  inside = λ x p q.
      let here : x / 64 ≡ r = omega arith in
      rw (here, get_or-set_self control r w 0 in_range) (digits (x % 64) (omega arith));
  outside = λ x p.
      let other : r ≢ x / 64 = λ e. ground arith in rw (get_or-set_ne control r (x / 64) w 0 other);
  same_length = length-set control r w;
}

pub Sets-nil : (v start : ℕ) (control : List ℕ) → Sets v start 0 control control
Sets-nil v start control = record {
  inside = λ x p q. absurd (omega arith);
  outside = λ x p. refl;
  same_length = refl;
}

-- `setWithinSingleRegister` sets the chunks of its context.
pub set_within_single_register-Sets :
    (used : Bool) (c : BlockContext) (control : List ℕ)
    → c.register_index < length control
    → c.sub_index < 64
    → c.sub_index + c.used_chunks ≤ 64
    → Sets
        (digit_of used)
        (c.register_index * 64 + c.sub_index)
        c.used_chunks
        control
        (set_within_single_register used c control)
unfolding set_within_single_register
set_within_single_register-Sets used c control p q h =
    set_register-Sets used control c.register_index _ c.used_chunks
      (single_mask-Covers c.used_chunks c.sub_index q h) p refl refl
