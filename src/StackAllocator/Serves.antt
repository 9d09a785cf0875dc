-- ===== src/StackAllocator/Serves.antt =====
-- The contract of an allocator for alb/stack_allocator.hpp.
use allocator_builder.Base.{
  ℕ, ◌+◌, ◌≤◌, ◌<◌, ◌≡◌, ◌⊎◌, inl, inr, refl, arith, true, false, word_mod, List, [], ◌∷◌,
}
use allocator_builder.Block.{Block, empty_block, is_set}
use allocator_builder.Allocator.Blocks.{
  All, All-implies, All-Removes, Apart, Pairwise, Pairwise-Removes, Removes,
}
use allocator_builder.Allocator.Contract.{Contract}
use allocator_builder.StackAllocator.{Arena, stack_allocator, allocate, deallocate, owns}
use allocator_builder.StackAllocator.Bounds.{
  IsValid, IsLive, allocate_cases, deallocate_others, deallocate-IsValid,
}

module _ (max_size alignment base : ℕ) (aligned : 0 < alignment) where
  -- The held blocks are live and share no byte.
  pub record Inv (s : Arena) (held : List Block) : Type 0 where
    pub valid : IsValid max_size s
    pub there : s.base ≡ base
    pub live : All (IsLive alignment s) held
    pub pairwise : Pairwise held

  unfoldable pub InArray : Block → Type 0
  InArray b = (base ≤ b.ptr) × (b.ptr + b.length ≤ base + max_size)

  pub Inv-InArray : {s : Arena} {held : List Block} → Inv s held → All InArray held
  unfolding InArray
  Inv-InArray {s} {held} i =
      All-implies held
        (λ b l. (omega (arith, i.there, l.above), omega (arith, i.there, l.used, i.valid.to_end)))
        i.live

  pub Inv-set : {s : Arena} {held : List Block} → Inv s held → All (λ b. is_set b ≡ true) held
  Inv-set {s} {held} i = All-implies held (λ b l. ground (arith, l.set)) i.live

  pub allocate-Inv :
      {s : Arena} {held : List Block} (n : ℕ)
      → n + alignment + (base + max_size) ≤ word_mod
      → Inv s held
      → let (b, s') = allocate max_size alignment n s in
        ((b ≡ empty_block) × Inv s' held) ⊎ ((is_set b ≡ true) × (n ≤ b.length) × Inv s' (b ∷ held))
  allocate-Inv {s} {held} n fits i =
      elim (allocate_cases max_size alignment aligned n i.valid
        (omega (arith, i.valid.to_end, i.there))) [
          | inl (none_left, same) ↦ inl (none_left, rw same i)
          | inr (at, enough, tight, base_same, p_new, live, valid) ↦ inr (
            ground (arith, live.set),
            enough,
            record {
              valid = valid;
              there = omega (arith, base_same, i.there);
              live = (
                live,
                All-implies held (λ c l. kept c l (omega (arith, at, p_new)) base_same) i.live,
              );
              pairwise =
                  (All-implies held (λ c l. inr (omega (arith, l.used, at))) i.live, i.pairwise);
            },
          )
        ]
    where
      kept :
          (c : Block) {s' : Arena}
          → IsLive alignment s c
          → s.p ≤ s'.p
          → s'.base ≡ s.base
          → IsLive alignment s' c
      kept c l above e = record {
        set = l.set;
        whole = l.whole;
        above = omega (arith, l.above);
        used = omega (arith, l.used);
      }

  pub deallocate-Inv :
      {s : Arena} {b : Block} {held held' : List Block}
      → Inv s held
      → Removes b held held'
      → let (b', s') = deallocate max_size alignment b s in (b' ≡ empty_block) × Inv s' held'
  deallocate-Inv {s} {b} {held} {held'} i r = (
    freed.0,
    record {
      valid = freed.1;
      there = omega (arith, freed.2, i.there);
      live = kept held' mine.1 left.0;
      pairwise = left.1;
    },
  )
    where
      mine : IsLive alignment s b × All (IsLive alignment s) held'
      mine = All-Removes (IsLive alignment s) r i.live

      left : All (Apart b) held' × Pairwise held'
      left = Pairwise-Removes r i.pairwise

      freed :
          let (b', s') = deallocate max_size alignment b s in
          (b' ≡ empty_block) × IsValid max_size s' × (s'.base ≡ s.base)
      freed = deallocate-IsValid max_size alignment aligned i.valid mine.0

      kept :
          (l : List Block)
          → All (IsLive alignment s) l
          → All (Apart b) l
          → All (IsLive alignment (deallocate max_size alignment b s).1) l
      kept [] a p = tt
      kept (c ∷ l) a p =
          ((deallocate_others max_size alignment aligned i.valid mine.0 a.0 p.0).2, kept l a.1 p.1)

  -- The allocator owns the blocks that it handed out, and no set block that lies elsewhere.
  pub owns-held :
      (s : Arena) (held : List Block)
      → base + max_size < word_mod
      → Inv s held
      → All (λ b. owns max_size alignment s b ≡ true) held
  unfolding owns
  owns-held s held fits i =
      All-implies held (λ b l. ground (arith, l.set, l.above, l.used, i.there, i.valid.to_end))
        i.live

  pub owns-foreign :
      (s : Arena) (held : List Block) (b : Block)
      → base + max_size < word_mod
      → Inv s held
      → (b.ptr < base) ⊎ (base + max_size ≤ b.ptr)
      → owns max_size alignment s b ≡ false
  unfolding owns
  owns-foreign s held b fits i outside = ground (arith, i.there)

  -- The contract of a bump allocator over an array at `base`
  unfoldable pub stack-Contract : Contract (stack_allocator max_size alignment)
  stack-Contract = record {
    Inv = Inv;
    Fits = λ n. n + alignment + (base + max_size) ≤ word_mod;
    Gives = InArray;
    inside = Inv-InArray;
    apart = λ i. i.pairwise;
    allocates = λ n m fits i. (refl, allocate-Inv n fits i);
    deallocates = λ m i r. let d = deallocate-Inv i r in (d.0, refl, d.1);
    all_set = Inv-set;
  }
