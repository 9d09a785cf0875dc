-- ===== src/SharedHeap/Takes.antt =====
-- A thread that takes chunks from inside of the mutex.
use native.Mathlib.Nat.{pow-suc}
use allocator_builder.Base.{
  ℕ, zero, suc, ◌+◌, ◌-◌, ◌*◌, ◌^◌, ◌≤◌, ◌<◌, ◌≡◌, ◌≢◌, ◌⊎◌, inl, inr, refl, sym, ap, ◌∙◌, arith,
  Bool, true, false, ◌&&◌, ◌||◌, none, dec_le, ge→ltb, ◌/◌, ◌%◌, ◌==◌, ℕ_discrete,
}
use allocator_builder.Bits.{bit, bit-div_pow}
use allocator_builder.Control.{BlockContext, multiple_mask}
use allocator_builder.Control.Register.Masks.{Covers, Covers-eq}
use allocator_builder.Control.Multiple.{multiple_mask_first}
use allocator_builder.Control.Register.Ops.{set_used_inside, set_used_outside}
use allocator_builder.Control.Overlap.{low_byte}
use allocator_builder.SharedHeap.Program.{outside, reading, writing}
use allocator_builder.SharedHeap.Registers.{
  round_mask, set_register, set_rounds, set_over_multiple_registers,
}
use allocator_builder.SharedHeap.Logic.{View, in_run, learned, takes, Ok, Ok-bind, Ok-weaken}
use allocator_builder.SharedHeap.Sound.{in_run-inside, in_run-outside}
use allocator_builder.SharedHeap.Rules.{Assigns, Assigns-trans, round_mask-Ok, set_rounds-Ok}

writing_inside : writing ≢ outside
writing_inside h = cc

pub reading_inside : reading ≢ outside
reading_inside h = cc

pow_bytes : (q : ℕ) → 256 ^ q ≡ 2 ^ (q * 8)
pow_bytes zero = refl
pow_bytes (suc q) =
    let next : suc q * 8 ≡ suc (suc (suc (suc (suc (suc (suc (suc (q * 8)))))))) = omega arith in
    rw (next, pow-suc, pow_bytes q) (omega arith)

-- A byte of ones in a register is eight free chunks.
pub byte_bits : (x q i : ℕ) → x / 256 ^ q % 256 ≡ 255 → q * 8 ≤ i → i < q * 8 + 8 → bit x i ≡ 1
byte_bits x q i e lo hi =
    let there : i ≡ q * 8 + (i - q * 8) = omega arith in
    ap (bit x) there
    ∙ sym (bit-div_pow x (q * 8) (i - q * 8))
    ∙ low_byte (x / 2 ^ (q * 8)) (i - q * 8) (rw (pow_bytes q) at e) (omega arith)

abbrev pub Seen : ℕ → ℕ → View → Type 0
Seen first n v = (c : ℕ) → first ≤ c → c < first + n → v.seen c ≡ true

-- The `n` chunks came to the thread, which still knows of the chunks behind the `k` that are used now.
abbrev pub Took : ℕ → ℕ → ℕ → View → View → Type 0
Took first n k v w =
    Assigns true first n v.mine w.mine
    × ((c : ℕ) → first + k ≤ c → v.seen c ≡ true → w.seen c ≡ true)

pub ||-true : (b : Bool) → (b || true) ≡ true
||-true true = refl
||-true false = refl

||-false : (b : Bool) → (b || false) ≡ b
||-false true = refl
||-false false = refl

pub taken_change :
    (first n : ℕ) (p q : ℕ → Bool)
    → ((c : ℕ) → first ≤ c → c < first + n → p c ≡ false)
    → ((c : ℕ) → q c ≡ (p c || in_run first n c))
    → Assigns true first n p q
taken_change first n p q new e = record {
  before = new;
  inside = λ c lo hi. e c ∙ rw (in_run-inside first n c lo hi) (||-true (p c));
  outside = λ c out. e c ∙ rw (in_run-outside first n c out) (||-false (p c));
}

pub still : {a : Bool} (b : Bool) → a ≡ true → (a || b) ≡ true
still b e = rw e refl

set_register-takes :
    (size attempts r lo n k mask : ℕ) (v : View)
    → Covers mask lo (lo + k)
    → n ≤ k
    → r < size
    → Seen (r * 64 + lo) n v
    → Ok size
        (set_register attempts none false r mask)
        writing
        v
        (λ a m w. (m ≡ writing) × Took (r * 64 + lo) n k v w)
unfolding set_register
set_register-takes size zero r lo n k mask v c le h seen = tt
set_register-takes size (suc attempts) r lo n k mask v c le h seen = λ x. (
  h,
  (
    takes lo n k writing_inside le c.within
        (λ i p q. inr (still _ (seen (r * 64 + i) (omega arith) (omega arith))))
        (λ i p q. set_used_inside false x i c p q) (λ i p out. set_used_outside false x i c out p),
    λ new. (
      refl,
      (
        taken_change (r * 64 + lo) n v.mine _ new (λ y. refl),
        λ y above known.
            rw
              (
                in_run-outside (r * 64 + lo) k y (inr above),
                still ((y / 64 == r) && (bit x (y % 64) == 1)) known,
              )
              refl,
      ),
    ),
  ),
  λ x'.
      Ok-weaken size (set_register attempts none false r mask) writing (learned writing r x v) _ _
        (set_register-takes size attempts r lo n k mask (learned writing r x v) c le h
          (λ y p q. still _ (seen y p q)))
        (λ a m w (em, (done, kept)). (em, (done, λ y above known. kept y above (still _ known)))),
)

-- A run that was seen free. Within one register, but not from its start on, all chunks up to the end of
-- the register become used.
pub set_over-takes :
    (size attempts : ℕ) (c : BlockContext) (v : View)
    → 0 < c.used_chunks
    → c.sub_index < 64
    → c.register_index * 64 + c.sub_index + c.used_chunks ≤ 64 * size
    → Seen (c.register_index * 64 + c.sub_index) c.used_chunks v
    → Ok size (set_over_multiple_registers attempts none false c) writing v (λ a m w.
      (m ≡ writing)
      × Assigns true (c.register_index * 64 + c.sub_index) c.used_chunks v.mine w.mine)
unfolding set_over_multiple_registers set_rounds
set_over-takes size attempts c v pos small fits seen = elim (ℕ_discrete c.sub_index 0) [
  | yes start ↦ far (inl start)
  | no off ↦ elim (dec_le 64 (c.sub_index + c.used_chunks)) [
    | yes reach ↦ far (inr reach)
    | no short ↦ near (omega arith) (omega arith)
  ]
]
  where
    far :
        (c.sub_index ≡ 0) ⊎ (64 ≤ c.sub_index + c.used_chunks)
        → Ok size (set_over_multiple_registers attempts none false c) writing v (λ a m w.
          (m ≡ writing)
          × Assigns true (c.register_index * 64 + c.sub_index) c.used_chunks v.mine w.mine)
    far reach =
        Ok-weaken size (set_over_multiple_registers attempts none false c) writing v _ _
          (set_rounds-Ok size none false writing Seen (λ first n u w. Took first n n u w)
            (λ a r lo n mask u covers k known.
              set_register-takes size a r lo n n mask u covers (omega arith) k known)
            (λ first n k u known x lo hi. known x lo (omega arith))
            (λ first n k u w known done x lo hi. done.1 x lo (known x (omega arith) (omega arith)))
            (λ first n k u w x p q. (
              Assigns-trans p.0 q.0,
              λ y above known. q.1 y (omega arith) (p.1 y (omega arith) known),
            ))
            attempts c v pos small reach fits seen)
          (λ a m w (em, (done, kept)). (em, done))

    near :
        0 < c.sub_index
        → c.sub_index + c.used_chunks < 64
        → Ok size (set_over_multiple_registers attempts none false c) writing v (λ a m w.
          (m ≡ writing)
          × Assigns true (c.register_index * 64 + c.sub_index) c.used_chunks v.mine w.mine)
    near off short =
        Ok-bind size (round_mask c.used_chunks c.sub_index) _ writing v
          (λ m mode w. (m ≡ multiple_mask c.used_chunks c.sub_index) × (mode ≡ writing) × (w ≡ v)) _
          (round_mask-Ok size c.used_chunks c.sub_index writing v _ (refl, refl, refl))
          (λ m mode w (em, emode, ew).
            rw (em, emode, ew)
              (Ok-bind size
                (set_register attempts none false c.register_index
                  (multiple_mask c.used_chunks c.sub_index))
                _ writing v _ _
                (set_register-takes size attempts c.register_index c.sub_index c.used_chunks
                  (64 - c.sub_index) (multiple_mask c.used_chunks c.sub_index) v
                  (Covers-eq refl (omega arith)
                    (multiple_mask_first c.used_chunks c.sub_index off small))
                  (omega arith) (omega arith) seen)
                (λ a mode w (emode, (done, kept)).
                  rw (emode, ge→ltb 64 (c.sub_index + c.used_chunks) (omega arith)) (refl, done))))
