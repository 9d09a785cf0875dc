-- ===== src/AffixAllocator/Around.antt =====
-- Where the block of the client lies in the block of the parent, for alb/affix_allocator.hpp.
use allocator_builder.Base.{
  ℕ, ◌+◌, ◌≤◌, ◌<◌, ◌≡◌, ◌≢◌, ◌⊎◌, inl, inr, refl, arith, true, false, add64, word_mod, Bool-cases,
  ne→==,
}
use allocator_builder.Block.{Block, empty_block, is_set, Memory}
use allocator_builder.Allocator.{Allocator}
use allocator_builder.AffixAllocator.{
  Affix, allocate, to_inner_block, to_outer_block, inner_to_sufix, outer_to_sufix,
}

module _ (A : Allocator) (prefix sufix : Affix) where
  -- What the client gets for a block of the parent that has room for the objects
  pub record Around (n : ℕ) (inner b : Block) : Type 0 where
    pub enough : n ≤ b.length
    pub behind_prefix : b.ptr ≡ inner.ptr + prefix.size
    pub before_sufix : b.ptr + b.length + sufix.size ≡ inner.ptr + inner.length
    pub sufix_found : outer_to_sufix A prefix sufix b ≡ inner_to_sufix A prefix sufix inner
    pub goes_back : to_inner_block A prefix sufix b ≡ inner

  to_outer_block-Around :
      (n : ℕ) (inner : Block)
      → 0 < n
      → prefix.size + n + sufix.size ≤ inner.length
      → inner.ptr + inner.length < word_mod
      → Around n inner (to_outer_block A prefix sufix inner)
  unfolding to_outer_block to_inner_block outer_to_sufix inner_to_sufix
  to_outer_block-Around n inner pos room fits = record {
    enough = omega arith;
    behind_prefix = omega arith;
    before_sufix = omega arith;
    sufix_found = ground arith;
    goes_back = ground arith;
  }

  -- Where a block that the parent gives for a request of the full size is of that size, in the
  -- address space, a request for some bytes is refused as the parent refuses it, or the client gets
  -- a block of as many bytes between the two objects, from which the parent's block and the object
  -- behind are found again.
  pub allocate-Around :
      (n : ℕ) (s : A.State) (m : Memory)
      → 0 < n
      → prefix.size + n + sufix.size < word_mod
      → let (inner, s', m') = A.allocate (prefix.size + n + sufix.size) s m in
        (is_set inner ≡ true
          → (prefix.size + n + sufix.size ≤ inner.length) × (inner.ptr + inner.length < word_mod))
        → let (b, s'', m'') = allocate A prefix sufix n s m in
          (s'' ≡ s')
          × (((is_set inner ≡ false) × (b ≡ empty_block) × (m'' ≡ m'))
              ⊎ ((is_set inner ≡ true) × Around n inner b))
  unfolding allocate
  allocate-Around n s m pos small serves =
      let plain : add64 (add64 prefix.size n) sufix.size ≡ prefix.size + n + sufix.size =
        omega arith in
      let given : n ≢ 0 = λ e. omega arith in
      let (inner, s', m') = A.allocate (prefix.size + n + sufix.size) s m in
      rw (ne→== n 0 given, plain)
        (elim (Bool-cases (is_set inner)) [
          | inl set ↦
              let whole = serves set in
              rw set (refl, inr (refl, to_outer_block-Around n inner pos whole.0 whole.1))
          | inr unset ↦ rw unset (refl, inl (refl, refl, refl))
        ])
