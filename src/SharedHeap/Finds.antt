-- ===== src/SharedHeap/Finds.antt =====
-- The searches of a thread for chunks, and `allocate`.
use allocator_builder.Base.{
  ℕ, zero, suc, ◌+◌, ◌-◌, ◌*◌, ◌^◌, ◌≤◌, ◌<◌, ◌≡◌, inl, refl, subst, arith, Bool, true, false, none,
  some, Option, dec_le, dec_lt, le→leb, gt→leb, eq→==, ne→==, ◌/◌, ◌%◌, ℕ_discrete, bit_and, sub64,
}
use allocator_builder.Bits.{bit}
use allocator_builder.Control.{BlockContext}
use allocator_builder.Control.Register.{shl}
use allocator_builder.Control.Register.Masks.{Covers, Covers-eq, shl-Covers, shl_ones-Covers}
use allocator_builder.Control.Register.Ops.{set_used_inside, set_used_outside, test_mask_ones}
use allocator_builder.Control.Search.{start_or}
use allocator_builder.Heap.Layout.{context_at}
use allocator_builder.SharedHeap.Program.{ret, release, ◌>>◌, unique, Mode, outside, writing}
use allocator_builder.SharedHeap.Registers.{set_over_multiple_registers}
use allocator_builder.SharedHeap.Searches.{take_in_register, take_single, find_bytes, take_overlap}
use allocator_builder.SharedHeap.Logic.{View, learned, forget, takes, Ok, Ok-bind, Ok-weaken}
use allocator_builder.SharedHeap.Rules.{Assigns}
use allocator_builder.SharedHeap.Takes.{
  reading_inside, taken_change, byte_bits, still, ||-true, Seen, set_over-takes,
}

-- What a search within one register leaves
abbrev InRegister : ℕ → ℕ → (ℕ → Bool) → Option ℕ → Mode → View → Type 0
InRegister index n p none m w = (m ≡ outside) × (w.mine ≡ p)
InRegister index n p (some i) m w =
    (m ≡ outside) × (i + n ≤ 64) × Assigns true (index * 64 + i) n p w.mine

-- One place of the register, given what is done at the next ones
place-Ok :
    (size n rounds index i mask current : ℕ) (v : View)
    → Covers mask i (i + n)
    → index < size
    → ((x : ℕ) (w : View)
        → Ok size
            (take_in_register rounds index (i + 1) (shl mask 1) x)
            outside
            w
            (InRegister index n w.mine))
    → Ok size
        (take_in_register (suc rounds) index i mask current)
        outside
        v
        (InRegister index n v.mine)
unfolding take_in_register
place-Ok size n rounds index i mask current v c h later =
    elim (ℕ_discrete (bit_and current mask) mask) [
      | yes hit ↦ rw (eq→== _ _ hit) (
        refl,
        (
          h,
          (
            takes i n n reading_inside (omega arith) c.within
                (λ j p q. inl (test_mask_ones current j c hit p q))
                (λ j p q. set_used_inside false current j c p q)
                (λ j p out. set_used_outside false current j c out p),
            λ new. (refl, c.within, taken_change (index * 64 + i) n v.mine _ new (λ y. refl)),
          ),
          λ x. later x (forget v),
        ),
      )
      | no miss ↦ rw (ne→== _ _ miss) (later current v)
    ]

take_in_register-Ok :
    (rounds size n index i mask current : ℕ) (v : View)
    → Covers mask i (i + n)
    → i + n + rounds ≤ 65
    → index < size
    → Ok size (take_in_register rounds index i mask current) outside v (InRegister index n v.mine)
unfolding take_in_register
take_in_register-Ok zero size n index i mask current v c fits h = (refl, refl)
take_in_register-Ok (suc zero) size n index i mask current v c fits h =
    place-Ok size n 0 index i mask current v c h (λ x w. (refl, refl))
take_in_register-Ok (suc (suc rounds)) size n index i mask current v c fits h =
    place-Ok size n (suc rounds) index i mask current v c h (λ x w.
      take_in_register-Ok (suc rounds) size n index (i + 1) (shl mask 1) x w
        (Covers-eq (omega arith) (omega arith) (shl-Covers 1 (omega arith) (omega arith) c))
        (omega arith) h)

-- What a search leaves, from outside of the mutex to outside of it
abbrev pub Taken : ℕ → ℕ → (ℕ → Bool) → Option ℕ → Mode → View → Type 0
Taken size n p none m w = (m ≡ outside) × (w.mine ≡ p)
Taken size n p (some s) m w = (m ≡ outside) × (s + n ≤ 64 * size) × Assigns true s n p w.mine

-- The search goes on from a register, given what it does from the next one on.
after_register-Ok :
    (size n registers index : ℕ) (v : View)
    → index < size
    → ((w : View) → Ok size (take_single n registers (index + 1)) outside w (Taken size n w.mine))
    → (found : Option ℕ) (m : Mode) (w : View) → InRegister index n v.mine found m w
    → Ok size
        (elim found [
          | none ↦ take_single n registers (index + 1)
          | some i ↦ ret (some (index * 64 + i))
        ])
        m
        w
        (Taken size n v.mine)
after_register-Ok size n registers index v h later none m w (em, same) = rw em (
    Ok-weaken size (take_single n registers (index + 1)) outside w (Taken size n w.mine)
      (Taken size n v.mine) (later w) (λ o m' w' t. subst (λ p. Taken size n p o m' w') same t))
after_register-Ok size n registers index v h later (some i) m w (em, within, done) =
    (em, omega arith, done)

pub take_single-Ok :
    (size n registers index : ℕ) (v : View)
    → n < 64
    → index + registers ≡ size
    → Ok size (take_single n registers index) outside v (Taken size n v.mine)
unfolding take_single
take_single-Ok size n zero index v small e = (refl, refl)
take_single-Ok size n (suc registers) index v small e = λ x. elim (ℕ_discrete x 0) [
  | yes full ↦
      rw (eq→== x 0 full) (take_single-Ok size n registers (index + 1) v small (omega arith))
  | no room ↦
      rw (ne→== x 0 room, ne→== n 64 (omega arith))
        (Ok-bind size (take_in_register (65 - n) index 0 (sub64 (shl 1 n) 1) x) _ outside v
          (InRegister index n v.mine) (Taken size n v.mine)
          (take_in_register-Ok (65 - n) size n index 0 (sub64 (shl 1 n) 1) x v
            (Covers-eq refl (omega arith) (shl_ones-Covers n small)) (omega arith) (omega arith))
          (after_register-Ok size n registers index v (omega arith)
            (λ w. take_single-Ok size n registers (index + 1) w small (omega arith))))
]

-- What the scan over the bytes leaves
abbrev Scanned : ℕ → ℕ → (ℕ → Bool) → Option ℕ → Mode → View → Type 0
Scanned size n p none m w = (m ≡ writing) × (w.mine ≡ p)
Scanned size n p (some s) m w =
    (m ≡ writing) × (w.mine ≡ p) × (s * 8 + n ≤ 64 * size) × Seen (s * 8) n w

find_bytes-Ok :
    (size n left p count : ℕ) (start : Option ℕ) (v : View)
    → p + left ≡ size * 8
    → start_or p start * 8 + count ≡ p * 8
    → Seen (start_or p start * 8) count v
    → Ok size (find_bytes n left p count start) writing v (Scanned size n v.mine)
unfolding find_bytes start_or
find_bytes-Ok size n zero p count start v e counted seen = (refl, refl)
find_bytes-Ok size n (suc left) p count start v e counted seen = λ x.
    elim (ℕ_discrete (x / 256 ^ (p % 8) % 256) 255) [
      | yes ones ↦
          let known : Seen (start_or p start * 8) (count + 8) (learned writing (p / 8) x v) =
            seen_more x ones in
          elim (dec_le n (count + 8)) [
            | yes enough ↦
                rw (eq→== _ _ ones, le→leb _ _ enough)
                  (refl, refl, omega arith, λ c lo hi. known c lo (omega arith))
            | no more ↦
                rw (eq→== _ _ ones, gt→leb n (count + 8) (omega arith))
                  (find_bytes-Ok size n left (p + 1) (count + 8) (some (start_or p start))
                    (learned writing (p / 8) x v) (omega arith) (omega arith) known)
          ]
      | no used ↦ rw (ne→== _ _ used) (
          find_bytes-Ok size n left (p + 1) 0 none (learned writing (p / 8) x v) (omega arith)
            (omega arith) (λ c lo hi. absurd (omega arith)))
    ]
  where
    seen_more :
        (x : ℕ)
        → x / 256 ^ (p % 8) % 256 ≡ 255
        → Seen (start_or p start * 8) (count + 8) (learned writing (p / 8) x v)
    seen_more x ones c lo hi = elim (dec_lt c (start_or p start * 8 + count)) [
      | yes old ↦ still _ (seen c lo old)
      | no new ↦
          let place : c / 64 ≡ p / 8 = omega arith in
          let digit : bit x (c % 64) ≡ 1 =
            byte_bits x (p % 8) (c % 64) ones (omega arith) (omega arith) in
          rw (place, digit, eq→== (p / 8) (p / 8) refl) (||-true (v.seen c))
    ]

-- What the thread does inside of the mutex with the chunks that the scan gave
Scanned-Ok :
    (size attempts n : ℕ) (context_of : ℕ → BlockContext) (p : ℕ → Bool)
    → 0 < n
    → ((s : ℕ) → s + n ≤ 64 * size → context_of s ≡ context_at s n)
    → (found : Option ℕ) (m : Mode) (w : View) → Scanned size n p found m w
    → Ok size
        (elim found [
          | none ↦ release unique (ret none)
          | some start ↦
              set_over_multiple_registers attempts none false (context_of (start * 8))
              >> release unique (ret (some (start * 8)))
        ])
        m
        w
        (Taken size n p)
Scanned-Ok size attempts n context_of p pos ctx none m w (em, same) = (refl, same)
Scanned-Ok size attempts n context_of p pos ctx (some s) m w (em, same, within, seen) =
    let here : s * 8 / 64 * 64 + s * 8 % 64 ≡ s * 8 = omega arith in
    rw (em, ctx (s * 8) within, ← same)
      (Ok-bind size (set_over_multiple_registers attempts none false (context_at (s * 8) n)) _
        writing w _ (Taken size n w.mine)
        (set_over-takes size attempts (context_at (s * 8) n) w pos (omega arith) (omega arith)
          (rw here seen))
        (λ a m' w' (em', done). (refl, within, rw here at done)))

pub take_overlap-Ok :
    (size attempts n : ℕ) (context_of : ℕ → BlockContext) (v : View)
    → 0 < n
    → ((s : ℕ) → s + n ≤ 64 * size → context_of s ≡ context_at s n)
    → Ok size (take_overlap size attempts context_of n) outside v (Taken size n v.mine)
unfolding take_overlap start_or
take_overlap-Ok size attempts n context_of v pos ctx = (
  refl,
  Ok-bind size (find_bytes n (size * 8) 0 0 none) _ writing (forget v) (Scanned size n v.mine) _
      (find_bytes-Ok size n (size * 8) 0 0 none (forget v) (omega arith) refl
        (λ c lo hi. absurd (omega arith)))
      (Scanned-Ok size attempts n context_of v.mine pos ctx),
)
