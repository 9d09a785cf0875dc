-- ===== src/SharedHeap/Frees.antt =====
-- A thread that releases chunks of its own, from outside of the mutex.
use allocator_builder.Base.{
  ℕ, zero, suc, ◌+◌, ◌*◌, ◌≤◌, ◌<◌, ◌≡◌, ◌≢◌, ◌⊎◌, inr, refl, ◌∙◌, arith, Bool, true, false, not,
  ◌&&◌, some, dec_le, le→leb, gt→leb, ne→==, ◌%◌,
}
use allocator_builder.Control.{BlockContext}
use allocator_builder.Control.Register.{single_mask}
use allocator_builder.Control.Register.Masks.{Covers, single_mask-Covers}
use allocator_builder.Control.Register.Ops.{set_used_inside, set_used_outside}
use allocator_builder.SharedHeap.Program.{shared, Mode, outside}
use allocator_builder.SharedHeap.Registers.{run_mask, set_register, set_within_single_register}
use allocator_builder.SharedHeap.Logic.{View, in_run, forget, frees, Ok, Ok-bind}
use allocator_builder.SharedHeap.Sound.{in_run-inside, in_run-outside, &&-false}
use allocator_builder.SharedHeap.{SharedHeap, free_chunks}
use allocator_builder.SharedHeap.Rules.{Assigns, Assigns-trans, run_mask-Ok, set_rounds-Ok}

abbrev pub Owns : ℕ → ℕ → View → Type 0
Owns first n v = (c : ℕ) → first ≤ c → c < first + n → v.mine c ≡ true

abbrev pub Freed : ℕ → ℕ → View → {A : Type 0} → A → Mode → View → Type 0
Freed first n v a m w = (m ≡ outside) × Assigns false first n v.mine w.mine

&&-true : (b : Bool) → (b && true) ≡ b
&&-true true = refl
&&-true false = refl

freed_change :
    (first n : ℕ) (v w : ℕ → Bool)
    → ((c : ℕ) → first ≤ c → c < first + n → v c ≡ true)
    → ((c : ℕ) → w c ≡ (v c && not (in_run first n c)))
    → Assigns false first n v w
freed_change first n v w own e = record {
  before = own;
  inside = λ c lo hi. e c ∙ rw (in_run-inside first n c lo hi) (&&-false (v c));
  outside = λ c out. e c ∙ rw (in_run-outside first n c out) (&&-true (v c));
}

set_register-frees :
    (size attempts r lo n mask : ℕ) (v : View)
    → Covers mask lo (lo + n)
    → r < size
    → Owns (r * 64 + lo) n v
    → Ok size (set_register attempts (some shared) true r mask) outside v (Freed (r * 64 + lo) n v)
unfolding set_register
set_register-frees size zero r lo n mask v c h own = tt
set_register-frees size (suc attempts) r lo n mask v c h own = λ x. (
  refl,
  (
    h,
    (
      frees lo n c.within
          (λ i p q. (own (r * 64 + i) (omega arith) (omega arith), set_used_inside true x i c p q))
          (λ i p out. set_used_outside true x i c out p),
      λ new. (refl, freed_change (r * 64 + lo) n v.mine _ own (λ y. refl)),
    ),
    λ x'. set_register-frees size attempts r lo n mask (forget v) c h own,
  ),
)

-- The chunks of a block that lies in one register, or whose count is no multiple of 64
pub free_chunks-Ok :
    (attempts : ℕ) (h : SharedHeap) (c : BlockContext) (v : View)
    → 0 < c.used_chunks
    → c.sub_index < 64
    → (c.sub_index + c.used_chunks ≤ 64) ⊎ (c.used_chunks % 64 ≢ 0)
    → c.register_index * 64 + c.sub_index + c.used_chunks ≤ 64 * h.control_size
    → Owns (c.register_index * 64 + c.sub_index) c.used_chunks v
    → Ok h.control_size
        (free_chunks attempts h c)
        outside
        v
        (Freed (c.register_index * 64 + c.sub_index) c.used_chunks v)
unfolding free_chunks set_within_single_register
free_chunks-Ok attempts h c v pos small tidy fits own =
    elim (dec_le (c.sub_index + c.used_chunks) 64) [
      | yes single ↦ rw (le→leb _ _ single) (
          Ok-bind h.control_size (run_mask c) _ outside v
            (λ m mode w. (m ≡ single_mask c.used_chunks c.sub_index) × (mode ≡ outside) × (w ≡ v)) _
            (run_mask-Ok h.control_size c outside v _ (refl, refl, refl))
            (λ m mode w (em, emode, ew).
              rw (em, emode, ew)
                (set_register-frees h.control_size attempts c.register_index c.sub_index
                  c.used_chunks (single_mask c.used_chunks c.sub_index) v
                  (single_mask-Covers c.used_chunks c.sub_index small single) (omega arith) own)))
      | no more ↦
          let part : c.used_chunks % 64 ≢ 0 = ground arith in
          rw
            (
              gt→leb (c.sub_index + c.used_chunks) 64 (omega arith),
              ne→== (c.used_chunks % 64) 0 part,
            )
            (set_rounds-Ok h.control_size (some shared) true outside Owns
              (λ first n u w. Assigns false first n u.mine w.mine)
              (λ a r lo n mask u covers k mine.
                set_register-frees h.control_size a r lo n mask u covers k mine)
              (λ first n k u mine x lo hi. mine x lo (omega arith))
              (λ first n k u w mine done x lo hi.
                done.outside x (inr lo) ∙ mine x (omega arith) (omega arith))
              (λ first n k u w x p q. Assigns-trans p q) attempts c v pos small (inr (omega arith))
              fits own)
    ]
