-- ===== src/Control/Grow.antt =====
-- The test-and-set of heap.hpp: chunks are taken if all of them are free, and nothing changes otherwise.
use allocator_builder.Base.{
  ℕ, zero, suc, ◌+◌, ◌-◌, ◌*◌, ◌/◌, ◌%◌, ◌≤◌, ◌<◌, ◌≡◌, ◌↔◌, refl, arith, Bool, true, false, ◌⊎◌,
  inl, inr, min, List, length, get_or, dec_lt, ℕ_discrete, eq→==, ne→==, lt→ltb, ge→ltb,
  get_or_beyond, Bool-cases, bit_and,
}
use allocator_builder.Bits.{bit, zero-bit}
use allocator_builder.Control.Register.{single_mask}
use allocator_builder.Control.Register.Masks.{Covers, Covers-eq, single_mask-Covers}
use allocator_builder.Control.Register.Ops.{test_mask_ones, ones_test_mask}
use allocator_builder.Control.Chunks.{free, free_in_range, set_within_single_register-Sets}
use allocator_builder.Control.Found.{Takes}
use allocator_builder.Control.Multiple.{
  multiple_mask_first, multiple_mask_next, set_over_multiple_registers-Sets,
}
use allocator_builder.Control.{
  BlockContext, multiple_mask, test_rounds, test_and_set_within_single_register,
  test_and_set_over_multiple_registers,
}

abbrev pub AllFree : List ℕ → ℕ → ℕ → Type 0
AllFree control start n = (c : ℕ) → start ≤ c → c < start + n → free control c ≡ 1

-- The test of a register under a mask
module _ (control : List ℕ) (r : ℕ) {mask lo hi : ℕ} (covers : Covers mask lo hi) where
  tested_free :
      bit_and (get_or control r 0) mask ≡ mask
      → (c : ℕ) → r * 64 + lo ≤ c
      → c < r * 64 + hi
      → free control c ≡ 1
  unfolding free
  tested_free hit c p q =
      let here : c / 64 ≡ r = omega (arith, covers.within) in
      rw here (
        test_mask_ones (get_or control r 0) (c % 64) covers hit (omega (arith, covers.within))
          (omega (arith, covers.within)))

  free_tested :
      ((c : ℕ) → r * 64 + lo ≤ c → c < r * 64 + hi → free control c ≡ 1)
      → bit_and (get_or control r 0) mask ≡ mask
  unfolding free
  free_tested all = ones_test_mask (get_or control r 0) covers (λ i p q.
      let chunk : (r * 64 + i) / 64 ≡ r = omega (arith, covers.within) in
      let digit : (r * 64 + i) % 64 ≡ i = omega (arith, covers.within) in
      let one : bit (get_or control ((r * 64 + i) / 64) 0) ((r * 64 + i) % 64) ≡ 1 =
        all (r * 64 + i) (omega arith) (omega arith) in
      rw (chunk, digit) at one)

  tested_within : lo < hi → bit_and (get_or control r 0) mask ≡ mask → r < length control
  tested_within some_bits hit = elim (dec_lt r (length control)) [
    | yes inside ↦ inside
    | no beyond ↦
        let nothing : bit (get_or control r 0) lo ≡ 0 =
          rw (get_or_beyond control r 0 (omega arith)) (zero-bit lo) in
        absurd (
          omega (
            arith,
            test_mask_ones (get_or control r 0) lo covers hit (omega arith) some_bits,
            nothing,
          ))
  ]

-- One round, given what the rounds behind it test
test_round :
    (rounds r s n len : ℕ) (control : List ℕ)
    → Covers (multiple_mask n s) s (s + len)
    → 0 < len
    → len ≤ n
    → (64 < s + n) × (s + len ≡ 64) ⊎ ((s + n ≤ 64) × (len ≡ n))
    → (64 < s + n
        → (test_rounds rounds (r + 1) 0 (s + n - 64) control ≡ true)
          ↔ AllFree control ((r + 1) * 64) (s + n - 64))
    → (test_rounds (suc rounds) r s n control ≡ true) ↔ AllFree control (r * 64 + s) n
unfolding test_rounds
test_round rounds r s n len control covers pos part reach later =
    elim (ℕ_discrete (bit_and (get_or control r 0) (multiple_mask n s)) (multiple_mask n s)) [
      | no miss ↦ rw (ne→== _ _ miss) (
        λ e. cc,
        λ all.
            absurd
              (miss (free_tested control r covers (λ c p q. all c (omega arith) (omega arith)))),
      )
      | yes hit ↦
          rw
            (
              eq→== _ _ hit,
              ge→ltb (length control) (r + 1)
                  (omega (arith, tested_within control r covers (omega arith) hit)),
            )
            (elim reach [
              | inl (more, whole) ↦ rw (lt→ltb 64 (s + n) more) (
                λ e c p q. elim (dec_lt c (r * 64 + 64)) [
                  | yes first ↦ tested_free control r covers hit c p (omega arith)
                  | no second ↦ (later more).0 e c (omega arith) (omega arith)
                ],
                λ all. (later more).1 (λ c p q. all c (omega arith) (omega arith)),
              )
              | inr (last, same) ↦
                  rw (ge→ltb 64 (s + n) (omega arith))
                    (λ e c p q. tested_free control r covers hit c p (omega arith), λ all. refl)
            ])
    ]

test_rounds-AllFree :
    (rounds r n : ℕ) (control : List ℕ)
    → 0 < n
    → n ≤ 64 * rounds
    → (test_rounds rounds r 0 n control ≡ true) ↔ AllFree control (r * 64) n
test_rounds-AllFree zero r n control pos enough = absurd (omega arith)
test_rounds-AllFree (suc rounds) r n control pos enough =
    let start : r * 64 + 0 ≡ r * 64 = omega arith in
    rw start at (
      test_round rounds r 0 n (min 64 n) control
        (Covers-eq refl (omega arith) (multiple_mask_next n)) (omega arith) (omega arith)
        (elim (dec_lt 64 n) [
          | yes more ↦ inl (omega arith, omega arith)
          | no last ↦ inr (omega arith, omega arith)
        ])
        (λ more.
          test_rounds-AllFree rounds (r + 1) (0 + n - 64) control (omega arith) (omega arith)))

-- The test over several registers, for a run that leaves its first one
test_over_multiple :
    (r s n : ℕ) (control : List ℕ)
    → s < 64
    → 64 < s + n
    → (test_rounds (suc (s + n)) r s n control ≡ true) ↔ AllFree control (r * 64 + s) n
test_over_multiple r zero n control small over =
    let start : r * 64 ≡ r * 64 + 0 = omega arith in
    rw start at (test_rounds-AllFree (suc (0 + n)) r n control (omega arith) (omega arith))
test_over_multiple r (suc s) n control small over =
    test_round (suc s + n) r (suc s) n (64 - suc s) control
      (Covers-eq refl (omega arith) (multiple_mask_first n (suc s) (omega arith) small))
      (omega arith) (omega arith) (inl (over, omega arith))
      (λ more.
        test_rounds-AllFree (suc s + n) (r + 1) (suc s + n - 64) control (omega arith)
          (omega arith))

-- The run was taken, all of it free before, or it was not all free, and nothing changed.
abbrev pub Grown : List ℕ → ℕ → ℕ → Bool × List ℕ → Type 0
Grown control start n (done, control') =
    ((done ≡ true) × Takes n start control control')
    ⊎ ((done ≡ false) × (control' ≡ control) × ¬ (AllFree control start n))

pub test_and_set_within-Grown :
    (c : BlockContext) (control : List ℕ)
    → 0 < c.used_chunks
    → c.sub_index + c.used_chunks ≤ 64
    → Grown control
        (c.register_index * 64 + c.sub_index)
        c.used_chunks
        (test_and_set_within_single_register false c control)
unfolding test_and_set_within_single_register
test_and_set_within-Grown c control pos fits =
    let covers = single_mask-Covers c.used_chunks c.sub_index (omega arith) fits in
    elim (ℕ_discrete
      (bit_and (get_or control c.register_index 0) (single_mask c.used_chunks c.sub_index))
      (single_mask c.used_chunks c.sub_index)) [
        | no miss ↦ rw (ne→== _ _ miss) (
            inr (
              refl,
              refl,
              λ all. miss (
                  free_tested control c.register_index covers
                    (λ x p q. all x (omega arith) (omega arith))),
            ))
        | yes hit ↦ rw (eq→== _ _ hit) (
            inl (
              refl,
              record {
                were_free =
                    λ x p q. tested_free control c.register_index covers hit x p (omega arith);
                taken =
                    set_within_single_register-Sets false c control
                      (tested_within control c.register_index covers (omega arith) hit)
                      (omega arith) fits;
              },
            ))
      ]

pub test_and_set_over-Grown :
    (c : BlockContext) (control : List ℕ)
    → 0 < c.used_chunks
    → c.sub_index < 64
    → 64 < c.sub_index + c.used_chunks
    → Grown control
        (c.register_index * 64 + c.sub_index)
        c.used_chunks
        (test_and_set_over_multiple_registers false c control)
unfolding test_and_set_over_multiple_registers
test_and_set_over-Grown c control pos small over =
    let tested = test_over_multiple c.register_index c.sub_index c.used_chunks control small over in
    elim (Bool-cases (
      test_rounds (suc (c.sub_index + c.used_chunks)) c.register_index c.sub_index c.used_chunks
        control)) [
          | inr miss ↦ rw miss (inr (refl, refl, λ all. cc (miss, tested.1 all)))
          | inl hit ↦ rw hit (
              inl (
                refl,
                record {
                  were_free = tested.0 hit;
                  taken =
                      set_over_multiple_registers-Sets false c control pos small (inr (omega arith))
                        (omega (
                          arith,
                          free_in_range control
                              (c.register_index * 64 + c.sub_index + c.used_chunks - 1)
                              (tested.0 hit
                                (c.register_index * 64 + c.sub_index + c.used_chunks - 1)
                                (omega arith) (omega arith)),
                        ));
                },
              ))
        ]
