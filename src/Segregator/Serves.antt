-- ===== src/Segregator/Serves.antt =====
-- The contract of an allocator for alb/segregator.hpp.
use allocator_builder.Base.{
  ℕ, ◌≤◌, ◌<◌, ◌≡◌, ◌⊎◌, inl, inr, arith, true, List, [], ◌∷◌, dec_le, le→leb, gt→leb,
}
use allocator_builder.Block.{Block, empty_block, is_set, Memory}
use allocator_builder.Allocator.{Allocator}
use allocator_builder.Allocator.Blocks.{
  All, All-implies, All-Merges, All-Removes, Apart, Pairwise, Pairwise-Merges, Removes,
  Removes-Merges, Merges, neither, left, right,
}
use allocator_builder.Allocator.Contract.{Contract}
use allocator_builder.Allocator.Client.{Reach, Reach-Inv}
use allocator_builder.Segregator.{State, segregator, allocate, deallocate}

module _ (threshold : ℕ) (Small Large : Allocator) (small : Contract Small) (large : Contract Large)
    (small_sizes : (b : Block) → small.Gives b → b.length ≤ threshold)
    (separate : (b c : Block) → small.Gives b → large.Gives c → Apart b c) where
  -- The held blocks are those of the two parts, and the larger ones are above the threshold.
  pub record Inv (s : State threshold Small Large) (held : List Block) : Type 0 where
    pub of_small : List Block
    pub of_large : List Block
    pub merges : Merges of_small of_large held
    pub holds_small : small.Inv s.0 of_small
    pub holds_large : large.Inv s.1 of_large
    pub above : All (λ b. threshold < b.length) of_large

  unfoldable pub Given : Block → Type 0
  Given b = small.Gives b ⊎ large.Gives b

  unfoldable pub Fitting : ℕ → Type 0
  Fitting n = (n ≤ threshold → small.Fits n) × (threshold < n → large.Fits n)

  Inv-Given : {s : State threshold Small Large} {held : List Block} → Inv s held → All Given held
  unfolding Given
  Inv-Given i =
      All-Merges Given i.merges (All-implies i.of_small (λ b g. inl g) (small.inside i.holds_small))
        (All-implies i.of_large (λ b g. inr g) (large.inside i.holds_large))

  Inv-Pairwise : {s : State threshold Small Large} {held : List Block} → Inv s held → Pairwise held
  Inv-Pairwise i =
      Pairwise-Merges separate i.merges (small.inside i.holds_small) (large.inside i.holds_large)
        (small.apart i.holds_small) (large.apart i.holds_large)

  Inv-set :
      {s : State threshold Small Large} {held : List Block}
      → Inv s held
      → All (λ b. is_set b ≡ true) held
  Inv-set i =
      All-Merges (λ b. is_set b ≡ true) i.merges (small.all_set i.holds_small)
        (large.all_set i.holds_large)

  allocate-Inv :
      {s : State threshold Small Large} {held : List Block} (n : ℕ) (m : Memory)
      → Fitting n
      → Inv s held
      → let (b, s', m') = allocate threshold Small Large n s m in
        (m' ≡ m)
        × (((b ≡ empty_block) × Inv s' held)
            ⊎ ((is_set b ≡ true) × (n ≤ b.length) × Inv s' (b ∷ held)))
  unfolding allocate Fitting
  allocate-Inv {s} {held} n m fits i = elim (dec_le n threshold) [
    | yes few ↦ rw (le→leb n threshold few) (
        let r = small.allocates n m (fits.0 few) i.holds_small in
        (
          r.0,
          elim r.1 [
            | inl (e, k) ↦ inl (
              e,
              record {
                of_small = i.of_small;
                of_large = i.of_large;
                merges = i.merges;
                holds_small = k;
                holds_large = i.holds_large;
                above = i.above;
              },
            )
            | inr (set, enough, k) ↦ inr (
              set,
              enough,
              record {
                of_small = _ ∷ i.of_small;
                of_large = i.of_large;
                merges = left i.merges;
                holds_small = k;
                holds_large = i.holds_large;
                above = i.above;
              },
            )
          ],
        ))
    | no many ↦ rw (gt→leb n threshold (omega arith)) (
        let r = large.allocates n m (fits.1 (omega arith)) i.holds_large in
        (
          r.0,
          elim r.1 [
            | inl (e, k) ↦ inl (
              e,
              record {
                of_small = i.of_small;
                of_large = i.of_large;
                merges = i.merges;
                holds_small = i.holds_small;
                holds_large = k;
                above = i.above;
              },
            )
            | inr (set, enough, k) ↦ inr (
              set,
              enough,
              record {
                of_small = i.of_small;
                of_large = _ ∷ i.of_large;
                merges = right i.merges;
                holds_small = i.holds_small;
                holds_large = k;
                above = (omega arith, i.above);
              },
            )
          ],
        ))
  ]

  deallocate-Inv :
      {s : State threshold Small Large} {b : Block} {held held' : List Block} (m : Memory)
      → Inv s held
      → Removes b held held'
      → let (b', s', m') = deallocate threshold Small Large b s m in
        (b' ≡ empty_block) × (m' ≡ m) × Inv s' held'
  unfolding deallocate
  deallocate-Inv {s} {b} {held} {held'} m i r =
      rw (All-Removes (λ c. is_set c ≡ true) r (Inv-set i)).0 (elim (Removes-Merges i.merges r) [
        | inl x ↦
            rw
              (le→leb b.length threshold
                (small_sizes b (All-Removes small.Gives x.removes (small.inside i.holds_small)).0))
              (let d = small.deallocates m i.holds_small x.removes in
                (
                  d.0,
                  d.1,
                  record {
                    of_small = x.rest;
                    of_large = i.of_large;
                    merges = x.merges;
                    holds_small = d.2;
                    holds_large = i.holds_large;
                    above = i.above;
                  },
                ))
        | inr x ↦
            let a = All-Removes (λ c. threshold < c.length) x.removes i.above in
            rw (gt→leb b.length threshold a.0) (
              let d = large.deallocates m i.holds_large x.removes in
              (
                d.0,
                d.1,
                record {
                  of_small = i.of_small;
                  of_large = x.rest;
                  merges = x.merges;
                  holds_small = i.holds_small;
                  holds_large = d.2;
                  above = a.1;
                },
              ))
      ])

  -- If both allocators keep the contract, the small one's blocks do not exceed the threshold, and
  -- the two share no memory, then the segregator keeps the contract.
  pub segregator-Contract : Contract (segregator threshold Small Large)
  segregator-Contract = record {
    Inv = Inv;
    Fits = Fitting;
    Gives = Given;
    inside = Inv-Given;
    apart = Inv-Pairwise;
    allocates = allocate-Inv;
    deallocates = deallocate-Inv;
    all_set = Inv-set;
  }

  -- If both allocators keep the contract and begin with no block held, the small one's blocks do not
  -- exceed the threshold, and the two share no memory, then no two blocks that a client of the
  -- segregator, which allocates and releases blocks, ever holds at a time share a byte, and each is a
  -- block of one of the two.
  pub segregator-Pairwise :
      {s s' : State threshold Small Large} {held : List Block}
      → small.Inv s.0 []
      → large.Inv s.1 []
      → Reach (segregator threshold Small Large) Fitting s s' held
      → Pairwise held × All Given held
  unfolding segregator-Contract
  segregator-Pairwise {s} {s'} {held} p q r =
      let i =
        Reach-Inv (segregator threshold Small Large) segregator-Contract {s = s} {s' = s'}
          {held = held}
          (record {
            of_small = [];
            of_large = [];
            merges = neither;
            holds_small = p;
            holds_large = q;
            above = tt;
          })
          r in
      (Inv-Pairwise i, Inv-Given i)
