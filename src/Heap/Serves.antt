-- ===== src/Heap/Serves.antt =====
-- The contract of an allocator for alb/heap.hpp.
use allocator_builder.Base.{
  ℕ, ◌+◌, ◌%◌, ◌≤◌, ◌<◌, ◌≡◌, ◌≢◌, ◌⊎◌, inl, inr, refl, sym, subst, ap, arith, true, false, List,
  [], ◌∷◌,
}
use allocator_builder.Block.{Block, empty_block, is_set}
use allocator_builder.Allocator.Blocks.{
  All, All-implies, All-Removes, Apart, Pairwise, Pairwise-Removes, Removes,
}
use allocator_builder.Allocator.Contract.{Contract}
use allocator_builder.Control.Chunks.{Sets}
use allocator_builder.Heap.{Heap, heap, allocate, deallocate, owns}
use allocator_builder.Heap.Layout.{IsValid, owns-block_at}
use allocator_builder.Heap.Granted.{Granted, Granted-set}
use allocator_builder.Heap.Allocate.{allocate_lem}
use allocator_builder.Heap.Deallocate.{IsTidy, deallocate_lem}
use allocator_builder.Heap.Client.{Run, block_of}
use allocator_builder.Heap.Client.Invariant.{Holds, Disjoint, free_run_Disjoint}
use allocator_builder.Heap.Client.Safety.{Disjoint-ByteApart}
use allocator_builder.Heap.Live.{
  with_registers, IsLive-InBuffer, IsLive-set, Apart-Disjoint, IsLive-Sets, IsLive, InBuffer, Inv,
  Fits,
}

module _ (base : Heap) where
  module _ {control : List ℕ} {h' : Heap} {b : Block} (k : ℕ) (pos : 0 < k) (part : k % 64 ≢ 0)
      (g : Granted k (with_registers base control) b h') where
    abbrev granted_run : Run
    granted_run = record { start = g.start; count = k }

    granted_Disjoint : (c : Block) (l : IsLive base control c) → Disjoint granted_run l.run
    granted_Disjoint c l =
        free_run_Disjoint {h = with_registers base control} granted_run l.run pos g.takes.were_free
          l.holds

    granted_Apart : (c : Block) → IsLive base control c → Apart b c
    granted_Apart c l =
        rw (g.placed, l.placed) (Disjoint-ByteApart base granted_run l.run (granted_Disjoint c l))

    granted-IsLive : IsLive base h'.control b
    granted-IsLive = record {
      run = granted_run;
      holds = record { counted = pos; within = g.within; used = g.takes.taken.inside };
      tidy = inr (inr part);
      placed = g.placed;
    }

    granted-Inv :
        {held : List Block} → Inv base (with_registers base control) held → Inv base h' (b ∷ held)
    granted-Inv {held} i = record {
      valid = record {
        chunky = i.valid.chunky;
        counted = omega (arith, i.valid.counted, g.takes.taken.same_length);
        sized = i.valid.sized;
        nonnull = i.valid.nonnull;
        fits = i.valid.fits;
        countable = i.valid.countable;
      };
      there = g.others;
      live = (
        granted-IsLive,
        All-implies held
            (λ c l. IsLive-Sets base granted_run c g.takes.taken l (granted_Disjoint c l)) i.live,
      );
      pairwise = (All-implies held granted_Apart i.live, i.pairwise);
    }

  allocate-Inv_at :
      (control : List ℕ) {held : List Block} (n : ℕ)
      → Fits base n
      → Inv base (with_registers base control) held
      → let (b, h') = allocate n (with_registers base control) in
        ((b ≡ empty_block) × Inv base h' held)
        ⊎ ((is_set b ≡ true) × (n ≤ b.length) × Inv base h' (b ∷ held))
  unfolding Fits
  allocate-Inv_at control {held} n (fits, part) i = elim (allocate_lem n i.valid fits) [
    | inl (e, same) ↦ inl (e, rw same i)
    | inr (k, pos, enough, tight, g) ↦ inr (
      Granted-set {h = with_registers base control} i.valid pos g,
      omega (arith, ap (λ x. x.length) g.placed, enough),
      granted-Inv k pos (part k enough tight) g i,
    )
  ]

  at_registers :
      {h : Heap} {held : List Block}
      → Inv base h held
      → Inv base (with_registers base h.control) held
  at_registers i = record { valid = i.valid; there = refl; live = i.live; pairwise = i.pairwise }

  pub allocate-Inv :
      {h : Heap} {held : List Block} (n : ℕ)
      → Fits base n
      → Inv base h held
      → let (b, h') = allocate n h in
        ((b ≡ empty_block) × Inv base h' held)
        ⊎ ((is_set b ≡ true) × (n ≤ b.length) × Inv base h' (b ∷ held))
  allocate-Inv {h} {held} n fits i =
      subst
        (λ x.
          let (b, h') = allocate n x in
          ((b ≡ empty_block) × Inv base h' held)
          ⊎ ((is_set b ≡ true) × (n ≤ b.length) × Inv base h' (b ∷ held)))
        (sym i.there) (allocate-Inv_at h.control n fits (at_registers i))

  -- The blocks that stay, when one that shares no byte with them is freed
  kept-IsLive :
      {control control' : List ℕ} (r : Run) (held : List Block)
      → 0 < base.chunk_size
      → Sets 1 r.start r.count control control'
      → All (IsLive base control) held
      → All (Apart (block_of base r)) held
      → All (IsLive base control') held
  kept-IsLive r [] pos s a p = tt
  kept-IsLive r (c ∷ held) pos s a p = (
    IsLive-Sets base r c s a.0 (Apart-Disjoint base r a.0.run pos (rw a.0.placed at p.0)),
    kept-IsLive r held pos s a.1 p.1,
  )

  freed-Inv :
      (control : List ℕ) (r : Run) {held' : List Block}
      → IsValid (with_registers base control)
      → Holds (with_registers base control) r
      → IsTidy r.start r.count
      → All (IsLive base control) held'
      → All (Apart (block_of base r)) held'
      → Pairwise held'
      → let (b', h') = deallocate (block_of base r) (with_registers base control) in
        (b' ≡ empty_block) × Inv base h' held'
  freed-Inv control r {held'} v holds tidy live apart pairwise =
      let (e, s, same) =
        deallocate_lem {h = with_registers base control} v r.start r.count holds.counted
          holds.within tidy in
      (
        e,
        record {
          valid = record {
            chunky = v.chunky;
            counted = omega (arith, v.counted, s.same_length);
            sized = v.sized;
            nonnull = v.nonnull;
            fits = v.fits;
            countable = v.countable;
          };
          there = same;
          live = kept-IsLive r held' v.chunky s live apart;
          pairwise = pairwise;
        },
      )

  pub deallocate-Inv :
      {h : Heap} {b : Block} {held held' : List Block}
      → Inv base h held
      → Removes b held held'
      → let (b', h') = deallocate b h in (b' ≡ empty_block) × Inv base h' held'
  deallocate-Inv {h} {b} {held} {held'} i r =
      let mine = All-Removes (IsLive base h.control) r i.live in
      let left = Pairwise-Removes r i.pairwise in
      subst (λ x. let (b', h') = deallocate b x in (b' ≡ empty_block) × Inv base h' held')
        (sym i.there)
        (subst
          (λ c.
            let (b', h') = deallocate c (with_registers base h.control) in
            (b' ≡ empty_block) × Inv base h' held')
          (sym mine.0.placed)
          (freed-Inv h.control mine.0.run i.valid mine.0.holds mine.0.tidy mine.1
            (subst (λ c. All (Apart c) held') mine.0.placed left.0) left.1))

  -- The contract of a heap, for requests whose number of chunks is no multiple of 64
  unfoldable pub heap-Contract : Contract heap
  heap-Contract = record {
    Inv = Inv base;
    Fits = Fits base;
    Gives = InBuffer base;
    inside = λ {s} {held} i. All-implies held (λ b l. IsLive-InBuffer base b i.valid l) i.live;
    apart = λ i. i.pairwise;
    allocates = λ n m fits i. (refl, allocate-Inv n fits i);
    deallocates = λ m i r. let d = deallocate-Inv i r in (d.0, refl, d.1);
    all_set = λ {s} {held} i. All-implies held (λ b l. IsLive-set base b i.valid l) i.live;
  }

  -- The heap owns the blocks that it handed out, and no set block that lies elsewhere.
  pub owns-held : (h : Heap) (held : List Block) → Inv base h held → All (λ b. owns h b ≡ true) held
  owns-held h held i =
      All-implies held
        (λ b l.
          subst (λ x. owns x b ≡ true) (sym i.there)
            (rw l.placed (
              owns-block_at {h = with_registers base h.control} i.valid l.run.start l.run.count
                l.holds.within l.holds.counted)))
        i.live

  pub owns-foreign :
      (h : Heap) (held : List Block) (b : Block)
      → Inv base h held
      → (b.ptr < base.buffer.ptr) ⊎ (base.buffer.ptr + base.buffer.length ≤ b.ptr)
      → owns h b ≡ false
  unfolding owns
  owns-foreign h held b i elsewhere =
      subst (λ x. owns x b ≡ false) (sym i.there) (ground (arith, i.valid.fits))
