-- ===== src/AllocatorWithStats/Client.antt =====
-- A client of an allocator with statistics: any sequence of calls, and what the counters say of it.
use allocator_builder.Base.{
  ℕ, ◌+◌, ◌<◌, ◌≡◌, ◌⊎◌, refl, sym, ap, ◌∙◌, arith, Bool, true, false, not, ◌&&◌, List, [], ◌∷◌,
  max, ◌==◌, Bool-cases, inl, inr, word_mod, sub64,
}
use allocator_builder.Block.{Block, Memory, is_set}
use allocator_builder.Allocator.{Allocator}
use allocator_builder.Allocator.Blocks.{Removes}
use allocator_builder.Op.{Op}
use allocator_builder.AllocatorWithStats.{
  Layout, State, initial, push, unlink, relink, has_per_allocation_state, allocate, deallocate,
  reallocated, reallocate, expand,
}
use allocator_builder.AllocatorWithStats.Counts.{
  StatsOption, Counters, count_allocate, count_deallocate, count_reallocate, count_reallocate_ok,
  count_expand, count_expand_ok,
}
use allocator_builder.AllocatorWithStats.Balance.{
  total, total-Removes, Balanced, Collects, count_allocate-Balanced, count_deallocate-Balanced,
  count_expand_ok-Balanced, count_reallocate_ok-Balanced,
}

-- The parts of the class, and the `expand` of the underlying allocator
module _ (A : Allocator) (flags : StatsOption → Bool) (layout : Layout) (info_at : Block → ℕ)
    (expand_inner : Block → ℕ → Op A.State (Bool × Block)) where
  abbrev pub S : Type 0
  S = State A flags layout info_at

  abbrev pub allocated : (n file function line now : ℕ) → Op S Block
  allocated = allocate A flags layout info_at

  abbrev pub released : Block → Op S Block
  released = deallocate A flags layout info_at

  abbrev pub resized : Block → ℕ → Op S (Bool × Block)
  resized = reallocate A flags layout info_at

  abbrev pub grown : Block → ℕ → Op S (Bool × Block)
  grown = expand A flags layout info_at expand_inner

  -- One call of the client, which holds the blocks; their bytes fit into the address space. The last
  -- number is the peak of the bytes held. The memory may hold anything, since the client writes to it.
  pub data Step (s : S) (held : List Block) (peak : ℕ) : S → List Block → ℕ → Type 0 where
    allocates :
        (n file function line now : ℕ) (m : Memory)
        → total ((allocated n file function line now s m).0 ∷ held) < word_mod
        → Step s held peak
            (allocated n file function line now s m).1
            ((allocated n file function line now s m).0 ∷ held)
            (max peak (total ((allocated n file function line now s m).0 ∷ held)))
    deallocates :
        {b : Block} {held' : List Block} (m : Memory)
        → Removes b held held'
        → Step s held peak (released b s m).1 held' peak
    reallocates :
        {b : Block} {held' : List Block} (n : ℕ) (m : Memory)
        → Removes b held held'
        → total ((resized b n s m).0.1 ∷ held') < word_mod
        → Step s held peak
            (resized b n s m).1
            ((resized b n s m).0.1 ∷ held')
            (max peak (total ((resized b n s m).0.1 ∷ held')))
    expands :
        {b : Block} {held' : List Block} (delta : ℕ) (m : Memory)
        → Removes b held held'
        → total ((grown b delta s m).0.1 ∷ held') < word_mod
        → Step s held peak
            (grown b delta s m).1
            ((grown b delta s m).0.1 ∷ held')
            (max peak (total ((grown b delta s m).0.1 ∷ held')))

  pub data Reach (s : A.State) : S → List Block → ℕ → Type 0 where
    begin : Reach s (initial A flags layout info_at s) [] 0
    next :
        {t t' : S} {held held' : List Block} {peak peak' : ℕ}
        → Reach s t held peak
        → Step t held peak t' held' peak'
        → Reach s t' held' peak'

  -- The list of infos is no part of the counters.
  push-counters :
      (stat n file function line now : ℕ) (s : S) (m : Memory)
      → (push A flags layout info_at stat n file function line now s m).1.1.counters ≡ s.1.counters
  unfolding push
  push-counters stat n file function line now s m = elim (Bool-cases (s.1.root == 0)) [
    | inl empty ↦ rw empty refl
    | inr filled ↦ rw filled refl
  ]

  allocate-counters :
      (n file function line now : ℕ) (s : S) (m : Memory)
      → let r = allocate A flags layout info_at n file function line now s m in
        r.1.1.counters ≡ count_allocate flags n r.0 s.1.counters
  unfolding allocate
  allocate-counters n file function line now s m =
      elim (Bool-cases
        (is_set (A.allocate n s.0 m).0 && has_per_allocation_state A flags layout info_at)) [
          | inl listed ↦ rw listed (push-counters _ n file function line now _ _)
          | inr plain ↦ rw plain refl
        ]

  deallocate-counters :
      (b : Block) (s : S) (m : Memory)
      → (deallocate A flags layout info_at b s m).1.1.counters
        ≡ count_deallocate flags b s.1.counters
  unfolding deallocate unlink
  deallocate-counters b s m =
      elim (Bool-cases (is_set b && has_per_allocation_state A flags layout info_at)) [
        | inl listed ↦ rw listed refl
        | inr plain ↦ rw plain refl
      ]

  -- A reallocation counts one success or none.
  reallocate-counters :
      (b : Block) (n : ℕ) (s : S) (m : Memory)
      → let r = reallocate A flags layout info_at b n s m in
        ((r.0.0 ≡ true)
          × (r.1.1.counters
              ≡ count_reallocate_ok flags b r.0.1 (count_reallocate flags s.1.counters)))
        ⊎ (((A.reallocate b n s.0 m).0.0 ≡ false)
            × (r.0.1 ≡ (A.reallocate b n s.0 m).0.1)
            × (r.1.1.counters ≡ count_reallocate flags s.1.counters))
  unfolding reallocate reallocated relink
  reallocate-counters b n s m = elim (Bool-cases (A.reallocate b n s.0 m).0.0) [
    | inl done ↦
        rw done
          (elim (Bool-cases (
            not ((A.reallocate b n s.0 m).0.1.ptr == b.ptr)
            && (is_set (A.reallocate b n s.0 m).0.1
                && has_per_allocation_state A flags layout info_at))) [
                  | inl listed ↦ rw listed (inl (refl, refl))
                  | inr plain ↦ rw plain (inl (refl, refl))
                ])
    | inr failed ↦ rw failed (inr (refl, refl, refl))
  ]

  expand-counters :
      (b : Block) (delta : ℕ) (s : S) (m : Memory)
      → let r = expand A flags layout info_at expand_inner b delta s m in
        (r.1.1.counters ≡ count_expand_ok flags b r.0.1 (count_expand flags s.1.counters))
        ⊎ (((expand_inner b delta s.0 m).0.0 ≡ false)
            × (r.0.1 ≡ (expand_inner b delta s.0 m).0.1)
            × (r.1.1.counters ≡ count_expand flags s.1.counters))
  unfolding expand
  expand-counters b delta s m = elim (Bool-cases (expand_inner b delta s.0 m).0.0) [
    | inl done ↦ rw done (inl refl)
    | inr failed ↦ rw failed (inr (refl, refl, refl))
  ]

  -- Other counters play no part.
  same-Balanced :
      {k k' : Counters} {bytes peak : ℕ}
      → k'.bytes_allocated ≡ k.bytes_allocated
      → k'.bytes_deallocated ≡ k.bytes_deallocated
      → k'.bytes_high_tide ≡ k.bytes_high_tide
      → Balanced k bytes peak
      → Balanced k' bytes peak
  same-Balanced p q r w = record {
    small = w.small;
    reached = w.reached;
    words = rw (p, q) w.words;
    balance = rw (p, q) w.balance;
    tide = r ∙ w.tide;
  }

  -- Where a call fails, the peak is what it was.
  failed-Balanced :
      {k : Counters} {b b' : Block} {held held' : List Block} {peak : ℕ}
      → Removes b held held'
      → b' ≡ b
      → Balanced k (total held) peak
      → Balanced k (total (b' ∷ held')) (max peak (total (b' ∷ held')))
  failed-Balanced {b = b} {b' = b'} {held' = held'} r e w =
      let same : total (b' ∷ held') ≡ _ =
        ap (λ x. x.length + total held') e ∙ sym (total-Removes r) in
      record {
        small = omega (arith, same, w.small);
        reached = omega arith;
        words = w.words;
        balance = w.balance ∙ sym same;
        tide = omega (arith, w.tide, same, w.reached);
      }

  module _ (on : Collects flags)
      (reallocate_fails : (b : Block) (n : ℕ) (s : A.State) (m : Memory)
        → (A.reallocate b n s m).0.0 ≡ false
        → (A.reallocate b n s m).0.1 ≡ b)
      (expand_fails : (b : Block) (n : ℕ) (s : A.State) (m : Memory)
        → (expand_inner b n s m).0.0 ≡ false
        → (expand_inner b n s m).0.1 ≡ b) where
    Step-Balanced :
        {s t : S} {held held' : List Block} {peak peak' : ℕ}
        → Step s held peak t held' peak'
        → Balanced s.1.counters (total held) peak
        → Balanced t.1.counters (total held') peak'
    unfolding count_reallocate count_expand
    Step-Balanced {s} (allocates n file function line now m small) w =
        rw (allocate-counters n file function line now s m)
          (count_allocate-Balanced on n (allocated n file function line now s m).0 small w)
    Step-Balanced {s} (deallocates {b} m r) w =
        rw (deallocate-counters b s m) (count_deallocate-Balanced on b (total-Removes r) w)
    Step-Balanced {s} (reallocates {b} {held'} n m r small) w = elim (reallocate-counters b n s m) [
      | inl (_, e) ↦ rw e (
          count_reallocate_ok-Balanced on (resized b n s m).0.1 b (total held') (total-Removes r)
            small (same-Balanced refl refl refl w))
      | inr (failed, e, e') ↦ rw e' (
          failed-Balanced r (e ∙ reallocate_fails b n s.0 m failed)
            (same-Balanced refl refl refl w))
    ]
    Step-Balanced {s} (expands {b} {held'} delta m r small) w = elim (expand-counters b delta s m) [
      | inl e ↦ rw e (
          count_expand_ok-Balanced on (grown b delta s m).0.1 b (total held') (total-Removes r)
            small (same-Balanced refl refl refl w))
      | inr (failed, e, e') ↦ rw e' (
          failed-Balanced r (e ∙ expand_fails b delta s.0 m failed)
            (same-Balanced refl refl refl w))
    ]

    Reach-keeps :
        {s : A.State} {t : S} {held : List Block} {peak : ℕ}
        → Reach s t held peak
        → Balanced t.1.counters (total held) peak
    unfolding initial
    Reach-keeps begin = record {
      small = omega arith;
      reached = omega arith;
      words = (omega arith, omega arith);
      balance = refl;
      tide = refl;
    }
    Reach-keeps (next r step) = Step-Balanced step (Reach-keeps r)

    -- After any calls of a client, the bytes allocated exceed those deallocated by the bytes of the
    -- blocks that it holds, and the high tide is their peak, if these three are collected and the
    -- underlying allocator leaves a block alone when it fails to reallocate or expand it.
    pub Reach-Balanced :
        {s : A.State} {t : S} {held : List Block} {peak : ℕ}
        → Reach s t held peak
        → (sub64 t.1.counters.bytes_allocated t.1.counters.bytes_deallocated ≡ total held)
          × (t.1.counters.bytes_high_tide ≡ peak)
    Reach-Balanced r = let w = Reach-keeps r in (w.balance, w.tide)
