-- ===== src/FallbackAllocator/Serves.antt =====
-- The contract of an allocator for alb/fallback_allocator.hpp.
use allocator_builder.Base.{
  ℕ, ◌≤◌, ◌≡◌, ◌⊎◌, inl, inr, refl, ◌∙◌, true, false, List, [], ◌∷◌, ℕ_discrete, eq→==, ne→==,
}
use allocator_builder.Block.{Block, empty_block, is_set, Memory}
use allocator_builder.Allocator.{Allocator}
use allocator_builder.Allocator.Blocks.{
  All, All-implies, All-Merges, All-Removes, Apart, Pairwise, Pairwise-Merges, Removes,
  Removes-Merges, Merges, neither, left, right,
}
use allocator_builder.Allocator.Contract.{Contract}
use allocator_builder.Allocator.Client.{Reach, Reach-Inv}
use allocator_builder.FallbackAllocator.{State, fallback_allocator, allocate, deallocate}

module _ (Primary Fallback : Allocator) (primary : Contract Primary) (fallback : Contract Fallback)
    (separate : (b c : Block) → primary.Gives b → fallback.Gives c → Apart b c)
    (owned : (s : Primary.State) (held : List Block)
      → primary.Inv s held
      → All (λ b. Primary.owns s b ≡ true) held)
    (foreign : (s : Primary.State) (held : List Block) (b : Block)
      → primary.Inv s held
      → fallback.Gives b
      → is_set b ≡ true
      → Primary.owns s b ≡ false) where
  -- The held blocks are those of the two parts.
  pub record Inv (s : State Primary Fallback) (held : List Block) : Type 0 where
    pub of_primary : List Block
    pub of_fallback : List Block
    pub merges : Merges of_primary of_fallback held
    pub holds_primary : primary.Inv s.0 of_primary
    pub holds_fallback : fallback.Inv s.1 of_fallback

  unfoldable pub Given : Block → Type 0
  Given b = primary.Gives b ⊎ fallback.Gives b

  Inv-Given : {s : State Primary Fallback} {held : List Block} → Inv s held → All Given held
  unfolding Given
  Inv-Given i =
      All-Merges Given i.merges
        (All-implies i.of_primary (λ b g. inl g) (primary.inside i.holds_primary))
        (All-implies i.of_fallback (λ b g. inr g) (fallback.inside i.holds_fallback))

  Inv-Pairwise : {s : State Primary Fallback} {held : List Block} → Inv s held → Pairwise held
  Inv-Pairwise i =
      Pairwise-Merges separate i.merges (primary.inside i.holds_primary)
        (fallback.inside i.holds_fallback) (primary.apart i.holds_primary)
        (fallback.apart i.holds_fallback)

  Inv-set :
      {s : State Primary Fallback} {held : List Block}
      → Inv s held
      → All (λ b. is_set b ≡ true) held
  Inv-set i =
      All-Merges (λ b. is_set b ≡ true) i.merges (primary.all_set i.holds_primary)
        (fallback.all_set i.holds_fallback)

  allocate-Inv :
      {s : State Primary Fallback} {held : List Block} (n : ℕ) (m : Memory)
      → primary.Fits n × fallback.Fits n
      → Inv s held
      → let (b, s', m') = allocate Primary Fallback n s m in
        (m' ≡ m)
        × (((b ≡ empty_block) × Inv s' held)
            ⊎ ((is_set b ≡ true) × (n ≤ b.length) × Inv s' (b ∷ held)))
  unfolding allocate
  allocate-Inv {s} {held} n m fits i = elim (ℕ_discrete n 0) [
    | yes nothing ↦ rw (eq→== n 0 nothing) (refl, inl (refl, i))
    | no wanted ↦ rw (ne→== n 0 wanted) (
        let r = primary.allocates n m fits.0 i.holds_primary in
        elim r.1 [
          | inr (set, enough, k) ↦ rw set (
            r.0,
            inr (
              set,
              enough,
              record {
                of_primary = _ ∷ i.of_primary;
                of_fallback = i.of_fallback;
                merges = left i.merges;
                holds_primary = k;
                holds_fallback = i.holds_fallback;
              },
            ),
          )
          | inl (e, k) ↦
              let unset : is_set (Primary.allocate n s.0 m).0 ≡ false = rw e refl in
              rw unset (
                let t = fallback.allocates n (Primary.allocate n s.0 m).2 fits.1 i.holds_fallback in
                (
                  t.0 ∙ r.0,
                  elim t.1 [
                    | inl (e', k') ↦ inl (
                      e',
                      record {
                        of_primary = i.of_primary;
                        of_fallback = i.of_fallback;
                        merges = i.merges;
                        holds_primary = k;
                        holds_fallback = k';
                      },
                    )
                    | inr (set, enough, k') ↦ inr (
                      set,
                      enough,
                      record {
                        of_primary = i.of_primary;
                        of_fallback = _ ∷ i.of_fallback;
                        merges = right i.merges;
                        holds_primary = k;
                        holds_fallback = k';
                      },
                    )
                  ],
                ))
        ])
  ]

  deallocate-Inv :
      {s : State Primary Fallback} {b : Block} {held held' : List Block} (m : Memory)
      → Inv s held
      → Removes b held held'
      → let (b', s', m') = deallocate Primary Fallback b s m in
        (b' ≡ empty_block) × (m' ≡ m) × Inv s' held'
  unfolding deallocate
  deallocate-Inv {s} {b} {held} {held'} m i r =
      let set : is_set b ≡ true = (All-Removes (λ c. is_set c ≡ true) r (Inv-set i)).0 in
      rw set (elim (Removes-Merges i.merges r) [
        | inl x ↦
            rw
              ((All-Removes (λ c. Primary.owns s.0 c ≡ true) x.removes
                (owned s.0 i.of_primary i.holds_primary)).0)
              (let d = primary.deallocates m i.holds_primary x.removes in
                (
                  d.0,
                  d.1,
                  record {
                    of_primary = x.rest;
                    of_fallback = i.of_fallback;
                    merges = x.merges;
                    holds_primary = d.2;
                    holds_fallback = i.holds_fallback;
                  },
                ))
        | inr x ↦
            rw
              (foreign s.0 i.of_primary b i.holds_primary
                (All-Removes fallback.Gives x.removes (fallback.inside i.holds_fallback)).0 set)
              (let d = fallback.deallocates m i.holds_fallback x.removes in
                (
                  d.0,
                  d.1,
                  record {
                    of_primary = i.of_primary;
                    of_fallback = x.rest;
                    merges = x.merges;
                    holds_primary = i.holds_primary;
                    holds_fallback = d.2;
                  },
                ))
      ])

  -- If both allocators keep the contract, share no memory, and the primary one owns its own blocks
  -- and none of the other's, then the combination keeps the contract.
  pub fallback-Contract : Contract (fallback_allocator Primary Fallback)
  fallback-Contract = record {
    Inv = Inv;
    Fits = λ n. primary.Fits n × fallback.Fits n;
    Gives = Given;
    inside = Inv-Given;
    apart = Inv-Pairwise;
    allocates = allocate-Inv;
    deallocates = deallocate-Inv;
    all_set = Inv-set;
  }

  -- If both allocators keep the contract and begin with no block held, share no memory, and the
  -- primary one owns its own blocks and none of the other's, then no two blocks that a client of the
  -- combination, which allocates and releases blocks, ever holds at a time share a byte, and each is a
  -- block of one of the two.
  pub fallback-Pairwise :
      {s s' : State Primary Fallback} {held : List Block}
      → primary.Inv s.0 []
      → fallback.Inv s.1 []
      → Reach
          (fallback_allocator Primary Fallback)
          (λ n. primary.Fits n × fallback.Fits n)
          s
          s'
          held
      → Pairwise held × All Given held
  unfolding fallback-Contract
  fallback-Pairwise {s} {s'} {held} p q r =
      let i =
        Reach-Inv (fallback_allocator Primary Fallback) fallback-Contract {s = s} {s' = s'}
          {held = held}
          (record {
            of_primary = [];
            of_fallback = [];
            merges = neither;
            holds_primary = p;
            holds_fallback = q;
          })
          r in
      (Inv-Pairwise i, Inv-Given i)
