-- ===== src/AllocatorWithStats/Balance.antt =====
-- The counters of bytes against the blocks that are outstanding.
use allocator_builder.Base.{
  ℕ, ◌+◌, ◌≤◌, ◌<◌, ◌≡◌, refl, ◌∙◌, arith, Bool, true, ◌&&◌, List, [], ◌∷◌, max, ltb, ◌==◌,
  Bool-cases, inl, inr, word_mod, sub64, ◌^◌, dec_lt, lt→ltb, ge→ltb,
}
use allocator_builder.Block.{Block}
use allocator_builder.Allocator.Blocks.{Removes, here, there}
use allocator_builder.AllocatorWithStats.Counts.{
  StatsOption, Counters, update_high_tide, count_allocate, count_deallocate, count_in_place,
  count_moved, count_reallocate_ok, count_expand_ok,
}

-- The bytes of the blocks
abbrev pub total : List Block → ℕ
total [] = 0
total (b ∷ held) = b.length + total held

pub total-Removes : {b : Block} {l l' : List Block} → Removes b l l' → total l ≡ b.length + total l'
total-Removes here = refl
total-Removes {b} (there {c} r) = omega (arith, total-Removes r)

-- The bytes allocated exceed those deallocated by the outstanding ones, and the high tide is their peak.
pub record Balanced (k : Counters) (bytes peak : ℕ) : Type 0 where
  pub small : bytes < word_mod
  pub reached : bytes ≤ peak
  pub words : (k.bytes_allocated < word_mod) × (k.bytes_deallocated < word_mod)
  pub balance : sub64 k.bytes_allocated k.bytes_deallocated ≡ bytes
  pub tide : k.bytes_high_tide ≡ peak

-- The three counters are collected.
pub record Collects (flags : StatsOption → Bool) : Type 0 where
  pub allocated : flags StatsOption.bytes_allocated ≡ true
  pub deallocated : flags StatsOption.bytes_deallocated ≡ true
  pub high_tide : flags StatsOption.bytes_high_tide ≡ true

module _ {flags : StatsOption → Bool} (on : Collects flags) where
  update_high_tide-Balanced :
      (k : Counters) (bytes peak : ℕ)
      → bytes < word_mod
      → (k.bytes_allocated < word_mod) × (k.bytes_deallocated < word_mod)
      → sub64 k.bytes_allocated k.bytes_deallocated ≡ bytes
      → k.bytes_high_tide ≡ peak
      → Balanced (update_high_tide flags k) bytes (max peak bytes)
  unfolding update_high_tide
  update_high_tide-Balanced k bytes peak small words e t =
      rw on.high_tide
        (elim (dec_lt k.bytes_high_tide (sub64 k.bytes_allocated k.bytes_deallocated)) [
          | yes higher ↦ rw (lt→ltb _ _ higher) (record {
            small = small;
            reached = omega arith;
            words = words;
            balance = e;
            tide = omega arith;
          })
          | no lower ↦
              rw
                (ge→ltb k.bytes_high_tide (sub64 k.bytes_allocated k.bytes_deallocated)
                  (omega arith))
                (record {
                  small = small;
                  reached = omega arith;
                  words = words;
                  balance = e;
                  tide = omega arith;
                })
        ])

  pub count_allocate-Balanced :
      (n : ℕ) (b : Block) {k : Counters} {bytes peak : ℕ}
      → b.length + bytes < word_mod
      → Balanced k bytes peak
      → Balanced (count_allocate flags n b k) (b.length + bytes) (max peak (b.length + bytes))
  unfolding count_allocate
  count_allocate-Balanced n b {k} {bytes} {peak} small w =
      update_high_tide-Balanced _ (b.length + bytes) peak small
        (rw on.allocated (omega arith, w.words.1))
        (rw on.allocated (omega (arith, w.words, w.balance))) w.tide

  pub count_deallocate-Balanced :
      (b : Block) {k : Counters} {bytes rest peak : ℕ}
      → bytes ≡ b.length + rest
      → Balanced k bytes peak
      → Balanced (count_deallocate flags b k) rest peak
  unfolding count_deallocate
  count_deallocate-Balanced b {k} {bytes} {rest} {peak} e w = rw on.deallocated (record {
    small = omega (arith, w.small);
    reached = omega (arith, w.reached);
    words = (w.words.0, omega arith);
    balance = omega (arith, w.words, w.balance, w.small);
    tide = w.tide;
  })

  pub count_expand_ok-Balanced :
      (b original : Block) (rest : ℕ) {k : Counters} {bytes peak : ℕ}
      → bytes ≡ original.length + rest
      → b.length + rest < word_mod
      → Balanced k bytes peak
      → Balanced (count_expand_ok flags original b k) (b.length + rest) (max peak (b.length + rest))
  unfolding count_expand_ok
  count_expand_ok-Balanced b original rest {k} {bytes} {peak} e small w =
      update_high_tide-Balanced _ (b.length + rest) peak small
        (rw on.allocated (omega arith, w.words.1))
        (rw on.allocated (omega (arith, w.words, w.balance, w.small))) w.tide

  -- The two cases of a reallocation
  count_in_place-eq :
      (b original : Block) (rest : ℕ) {k : Counters} {bytes peak : ℕ}
      → bytes ≡ original.length + rest
      → b.length + rest < word_mod
      → Balanced k bytes peak
      → let k' = count_in_place flags (sub64 b.length original.length) k in
        ((k'.bytes_allocated < word_mod) × (k'.bytes_deallocated < word_mod))
        × (sub64 k'.bytes_allocated k'.bytes_deallocated ≡ b.length + rest)
        × (k'.bytes_high_tide ≡ k.bytes_high_tide)
  unfolding count_in_place
  count_in_place-eq b original rest {k} {bytes} e small w =
      elim (Bool-cases
        (ltb 0 (sub64 b.length original.length) && ltb (sub64 b.length original.length) (2 ^ 63))) [
          | inl grows ↦
              rw (grows, on.allocated)
                ((omega arith, w.words.1), omega (arith, w.words, w.balance, w.small), refl)
          | inr shrinks ↦
              rw (shrinks, on.deallocated)
                ((w.words.0, omega arith), omega (arith, w.words, w.balance, w.small), refl)
        ]

  pub count_reallocate_ok-Balanced :
      (b original : Block) (rest : ℕ) {k : Counters} {bytes peak : ℕ}
      → bytes ≡ original.length + rest
      → b.length + rest < word_mod
      → Balanced k bytes peak
      → Balanced
          (count_reallocate_ok flags original b k)
          (b.length + rest)
          (max peak (b.length + rest))
  unfolding count_reallocate_ok count_moved
  count_reallocate_ok-Balanced b original rest {k} {bytes} {peak} e small w =
      elim (Bool-cases (b.ptr == original.ptr)) [
        | inl same ↦ rw same (
            let (words, e', t) = count_in_place-eq b original rest {peak = peak} e small (record {
              small = w.small;
              reached = w.reached;
              words = w.words;
              balance = w.balance;
              tide = w.tide;
            }) in
            update_high_tide-Balanced _ (b.length + rest) peak small words e' (t ∙ w.tide))
        | inr other ↦ rw other (
            update_high_tide-Balanced _ (b.length + rest) peak small
              (rw (on.allocated, on.deallocated) (omega arith, omega arith))
              (rw (on.allocated, on.deallocated) (omega (arith, w.words, w.balance, w.small)))
              w.tide)
      ]
