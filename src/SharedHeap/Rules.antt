-- ===== src/SharedHeap/Rules.antt =====
-- Rules of the logic for the loops that set chunks, whether they take or free them.
use allocator_builder.Base.{
  ℕ, zero, suc, ◌+◌, ◌-◌, ◌*◌, ◌≤◌, ◌<◌, ◌≡◌, ◌⊎◌, inl, inr, refl, sym, ◌∙◌, arith, Bool, not,
  Option, ltb, dec_lt, dec_le, lt→ltb, ge→ltb, le→leb, gt→leb, eq→==, ne→==, ℕ_discrete,
  if◌then◌else◌,
}
use allocator_builder.Control.{BlockContext, multiple_mask}
use allocator_builder.Control.Register.{single_mask}
use allocator_builder.Control.Register.Masks.{Covers, Covers-eq}
use allocator_builder.Control.Multiple.{multiple_mask_first, multiple_mask_next}
use allocator_builder.SharedHeap.Program.{Lock, ret, Mode}
use allocator_builder.SharedHeap.Registers.{
  run_mask, round_mask, set_register, set_rounds, set_over_multiple_registers,
}
use allocator_builder.SharedHeap.Logic.{View, Ok, Ok-bind, Ok-weaken}

-- From `p` to `q`, exactly the `n` chunks from `first` on came to the thread, or left it.
pub record Assigns (b : Bool) (first n : ℕ) (p q : ℕ → Bool) : Type 0 where
  pub before : (c : ℕ) → first ≤ c → c < first + n → p c ≡ not b
  pub inside : (c : ℕ) → first ≤ c → c < first + n → q c ≡ b
  pub outside : (c : ℕ) → (c < first) ⊎ (first + n ≤ c) → q c ≡ p c

pub Assigns-trans :
    {b : Bool} {first n k : ℕ} {u v w : ℕ → Bool}
    → Assigns b first n u v
    → Assigns b (first + n) k v w
    → Assigns b first (n + k) u w
Assigns-trans {b} {first} {n} {k} p q = record {
  before = λ c lo hi. elim (dec_lt c (first + n)) [
    | yes early ↦ p.before c lo early
    | no late ↦ sym (p.outside c (inr (omega arith))) ∙ q.before c (omega arith) (omega arith)
  ];
  inside = λ c lo hi. elim (dec_lt c (first + n)) [
    | yes early ↦ q.outside c (inl early) ∙ p.inside c lo early
    | no late ↦ q.inside c (omega arith) (omega arith)
  ];
  outside = λ c h. q.outside c (ground arith) ∙ p.outside c (ground arith);
}

-- The mask of a round is that of the heap for one thread.
pub round_mask-Ok :
    (size n s : ℕ) (mode : Mode) (v : View) (P : ℕ → Mode → View → Type 0)
    → P (multiple_mask n s) mode v
    → Ok size (round_mask n s) mode v P
unfolding multiple_mask
round_mask-Ok size n s mode v P h = elim (dec_lt 0 s) [
  | yes off ↦ rw (lt→ltb 0 s off) (rw (lt→ltb 0 s off) at h)
  | no start ↦ elim (dec_le 64 n) [
    | yes many ↦
        rw (ge→ltb 0 s (omega arith), le→leb 64 n many)
          (rw (ge→ltb 0 s (omega arith), le→leb 64 n many) at h)
    | no few ↦
        rw (ge→ltb 0 s (omega arith), gt→leb 64 n (omega arith))
          (rw (ge→ltb 0 s (omega arith), gt→leb 64 n (omega arith)) at h)
  ]
]

pub run_mask-Ok :
    (size : ℕ) (c : BlockContext) (mode : Mode) (v : View) (P : ℕ → Mode → View → Type 0)
    → P (single_mask c.used_chunks c.sub_index) mode v
    → Ok size (run_mask c) mode v P
unfolding single_mask
run_mask-Ok size c mode v P h = elim (ℕ_discrete c.used_chunks 64) [
  | yes e ↦ rw (eq→== c.used_chunks 64 e) (rw (eq→== c.used_chunks 64 e) at h)
  | no n ↦ rw (ne→== c.used_chunks 64 n) (rw (ne→== c.used_chunks 64 n) at h)
]

-- The loops over several registers, from what one register needs (`Ready`) and leaves (`Done`).
module _ (size : ℕ) (policy : Option Lock) (used : Bool) (mode : Mode)
    (Ready : ℕ → ℕ → View → Type 0) (Done : ℕ → ℕ → View → View → Type 0)
    (one : (attempts r lo n mask : ℕ) (v : View)
      → Covers mask lo (lo + n)
      → r < size
      → Ready (r * 64 + lo) n v
      → Ok size
          (set_register attempts policy used r mask)
          mode
          v
          (λ a m w. (m ≡ mode) × Done (r * 64 + lo) n v w))
    (front : (first n k : ℕ) (v : View) → Ready first (n + k) v → Ready first n v)
    (back : (first n k : ℕ) (v w : View)
      → Ready first (n + k) v
      → Done first n v w
      → Ready (first + n) k w)
    (join : (first n k : ℕ) (u v w : View)
      → Done first n u v
      → Done (first + n) k v w
      → Done first (n + k) u w) where
  abbrev Post : ℕ → ℕ → View → (Unit {0}) → Mode → View → Type 0
  Post first n v a m w = (m ≡ mode) × Done first n v w

  -- A round, and the rounds behind it
  round-Ok :
      (attempts rounds r s n k rest : ℕ) (v : View)
      → Covers (multiple_mask n s) s (s + k)
      → n ≡ k + rest
      → r < size
      → Ready (r * 64 + s) n v
      → (rest ≡ 0) × (s + n ≤ 64)
        ⊎ (64 < s + n)
          × (s + k ≡ 64)
          × (s + n - 64 ≡ rest)
          × ((w : View)
              → Ready ((r + 1) * 64) rest w
              → Ok size
                  (set_rounds attempts rounds policy used (r + 1) 0 rest)
                  mode
                  w
                  (Post ((r + 1) * 64) rest w))
      → Ok size (set_rounds attempts (suc rounds) policy used r s n) mode v (Post (r * 64 + s) n v)
  unfolding set_rounds
  round-Ok attempts rounds r s n k rest v c e h ready more =
      Ok-bind size (round_mask n s) _ mode v
        (λ m mode' w. (m ≡ multiple_mask n s) × (mode' ≡ mode) × (w ≡ v)) _
        (round_mask-Ok size n s mode v _ (refl, refl, refl))
        (λ m mode' w (em, emode, ew).
          rw (em, emode, ew)
            (Ok-bind size (set_register attempts policy used r (multiple_mask n s)) _ mode v _ _
              (one attempts r s k (multiple_mask n s) v c h
                (front (r * 64 + s) k rest v (rw e at ready)))
              (λ a mode' w (emode, done). rw emode (next w done))))
    where
      next :
          (w : View)
          → Done (r * 64 + s) k v w
          → Ok size
              (if ltb 64 (s + n)
                then set_rounds attempts rounds policy used (r + 1) 0 (s + n - 64)
                else ret tt)
              mode
              w
              (Post (r * 64 + s) n v)
      next w done = elim more [
        | inl (none_left, short) ↦
            let same : k ≡ n = omega arith in rw (ge→ltb 64 (s + n) short) (refl, rw same at done)
        | inr (long, full, left, later) ↦
            let here : r * 64 + s + k ≡ (r + 1) * 64 = omega arith in
            let ready' = back (r * 64 + s) k rest v w (rw e at ready) done in
            rw (lt→ltb 64 (s + n) long, left)
              (Ok-weaken size (set_rounds attempts rounds policy used (r + 1) 0 rest) mode w _ _
                (later w (rw here at ready'))
                (λ a m u (em, more_done).
                  (em, rw (e) (join (r * 64 + s) k rest v w u done (rw (← here) at more_done)))))
      ]

  rounds-Ok :
      (rounds attempts r n : ℕ) (v : View)
      → 0 < n
      → n ≤ 64 * rounds
      → r * 64 + n ≤ 64 * size
      → Ready (r * 64) n v
      → Ok size (set_rounds attempts rounds policy used r 0 n) mode v (Post (r * 64) n v)
  rounds-Ok zero attempts r n v pos enough fits ready = absurd (omega arith)
  rounds-Ok (suc rounds) attempts r n v pos enough fits ready =
      let start : r * 64 + 0 ≡ r * 64 = omega arith in
      rw (← start) (elim (dec_lt 64 n) [
        | yes more ↦
            round-Ok attempts rounds r 0 n 64 (n - 64) v
              (Covers-eq refl (omega arith) (multiple_mask_next n)) (omega arith) (omega arith)
              (rw start ready)
              (inr (
                omega arith,
                refl,
                omega arith,
                λ w ready'.
                    rounds-Ok rounds attempts (r + 1) (n - 64) w (omega arith) (omega arith)
                      (omega arith) ready',
              ))
        | no last ↦
            round-Ok attempts rounds r 0 n n 0 v
              (Covers-eq refl (omega arith) (multiple_mask_next n)) (omega arith) (omega arith)
              (rw start ready) (inl (refl, omega arith))
      ])

  -- Off the start of a register, the first round sets all chunks up to its end.
  pub set_rounds-Ok :
      (attempts : ℕ) (c : BlockContext) (v : View)
      → 0 < c.used_chunks
      → c.sub_index < 64
      → (c.sub_index ≡ 0) ⊎ (64 ≤ c.sub_index + c.used_chunks)
      → c.register_index * 64 + c.sub_index + c.used_chunks ≤ 64 * size
      → Ready (c.register_index * 64 + c.sub_index) c.used_chunks v
      → Ok size
          (set_over_multiple_registers attempts policy used c)
          mode
          v
          (Post (c.register_index * 64 + c.sub_index) c.used_chunks v)
  unfolding set_over_multiple_registers
  set_rounds-Ok attempts c v pos small reach fits ready = elim (ℕ_discrete c.sub_index 0) [
    | yes start ↦
        let here : c.register_index * 64 + c.sub_index ≡ c.register_index * 64 = omega arith in
        rw (here, start)
          (rounds-Ok (suc (0 + c.used_chunks)) attempts c.register_index c.used_chunks v pos
            (omega arith) (omega arith) (rw here at ready))
    | no off ↦
        round-Ok attempts (c.sub_index + c.used_chunks) c.register_index c.sub_index c.used_chunks
          (64 - c.sub_index) (c.sub_index + c.used_chunks - 64) v
          (Covers-eq refl (omega arith)
            (multiple_mask_first c.used_chunks c.sub_index (omega arith) small))
          (omega arith) (omega arith) ready
          (elim (dec_lt 64 (c.sub_index + c.used_chunks)) [
            | yes more ↦ inr (
              more,
              omega arith,
              refl,
              λ w ready'.
                  rounds-Ok (c.sub_index + c.used_chunks) attempts (c.register_index + 1)
                    (c.sub_index + c.used_chunks - 64) w (omega arith) (omega arith) (omega arith)
                    ready',
            )
            | no last ↦ inl (omega arith, omega arith)
          ])
  ]
