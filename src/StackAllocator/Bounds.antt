-- ===== src/StackAllocator/Bounds.antt =====
-- The blocks that a bump allocator hands out, and its free pointer.
use allocator_builder.Base.{ℕ, ◌+◌, ◌≤◌, ◌<◌, ◌≡◌, ◌⊎◌, arith, word_mod, ◌%◌, ◌∙◌, true, false}
use native.Mathlib.Nat.{add-mod, zero-mod}
use allocator_builder.Block.{Block, empty_block, round_to_alignment}
use allocator_builder.Allocator.Blocks.{Apart}
use allocator_builder.Block.Rounding.{round_to_alignment_bounds}
use allocator_builder.StackAllocator.{Arena, allocate, deallocate, expand}

-- The array lies in the address space, not at nullptr, and the free pointer inside or at its end.
pub record IsValid (max_size : ℕ) (s : Arena) : Type 0 where
  pub nonnull : 0 < s.base
  pub fits : s.base + max_size < word_mod
  pub from_base : s.base ≤ s.p
  pub to_end : s.p ≤ s.base + max_size

-- A block of the used part, of a size as the allocator hands them out.
pub record IsLive (alignment : ℕ) (s : Arena) (b : Block) : Type 0 where
  pub set : 0 < b.length
  pub whole : b.length % alignment ≡ 0
  pub above : s.base ≤ b.ptr
  pub used : b.ptr + b.length ≤ s.p

pub add-IsWhole : (k a b : ℕ) → a % k ≡ 0 → b % k ≡ 0 → (a + b) % k ≡ 0
add-IsWhole k a b p q = add-mod a b k ∙ rw (p, q) (zero-mod k)

module _ (max_size alignment : ℕ) (aligned : 0 < alignment) where
  -- A request that does not wrap around gets either nothing, and changes nothing, or a block of the
  -- rounded size that begins at the old free pointer and ends at the new one, inside the array.
  pub allocate_cases :
      (n : ℕ) {s : Arena}
      → IsValid max_size s
      → n + alignment + s.p ≤ word_mod
      → let (b, s') = allocate max_size alignment n s in
        ((b ≡ empty_block) × (s' ≡ s))
        ⊎ ((b.ptr ≡ s.p)
            × (n ≤ b.length)
            × (b.length < n + alignment)
            × (s'.base ≡ s.base)
            × (s'.p ≡ b.ptr + b.length)
            × IsLive alignment s' b
            × IsValid max_size s')
  unfolding allocate
  allocate_cases n {s} v h = ground (arith, round_to_alignment_bounds alignment n aligned)

  -- A request that does not wrap around gets nothing only if it asks for nothing, or its rounded size
  -- is more than what is left of the array.
  pub allocate_fails :
      (n : ℕ) {s : Arena}
      → IsValid max_size s
      → n + alignment + s.p ≤ word_mod
      → (allocate max_size alignment n s).0 ≡ empty_block
      → (n ≡ 0) ⊎ (s.base + max_size < s.p + round_to_alignment alignment n)
  unfolding allocate
  allocate_fails n {s} v h e = ground (arith, round_to_alignment_bounds alignment n aligned)

  -- A block that was handed out is owned, and freeing it at once restores the allocator.
  pub deallocate-allocate_last :
      (n : ℕ) {s : Arena}
      → IsValid max_size s
      → n + alignment + s.p ≤ word_mod
      → let (b, s') = allocate max_size alignment n s in
        (deallocate max_size alignment b s' ≡ (empty_block, s))
  unfolding allocate deallocate
  deallocate-allocate_last n {s} v h = ground (arith, round_to_alignment_bounds alignment n aligned)

  -- Freeing a live block resets it, keeps the invariant, and keeps every other live block live.
  pub deallocate_others :
      {s : Arena} {b c : Block}
      → IsValid max_size s
      → IsLive alignment s b
      → IsLive alignment s c
      → Apart b c
      → let (b', s') = deallocate max_size alignment b s in
        (b' ≡ empty_block) × IsValid max_size s' × IsLive alignment s' c
  unfolding deallocate
  deallocate_others v lb lc apart = ground arith

  pub deallocate-IsValid :
      {s : Arena} {b : Block}
      → IsValid max_size s
      → IsLive alignment s b
      → let (b', s') = deallocate max_size alignment b s in
        (b' ≡ empty_block) × IsValid max_size s' × (s'.base ≡ s.base)
  unfolding deallocate
  deallocate-IsValid v l = ground arith

  -- Growing a block in place keeps the invariant and its address; on success the block has the
  -- wanted bytes more and the other live blocks stay live and apart, on failure nothing changes.
  pub expand_in_place :
      {s : Arena} {b c : Block} (delta : ℕ)
      → IsValid max_size s
      → IsLive alignment s b
      → IsLive alignment s c
      → Apart b c
      → delta + alignment + s.p ≤ word_mod
      → let ((done, b'), s') = expand max_size alignment b delta s in
        IsValid max_size s'
        × IsLive alignment s' b'
        × IsLive alignment s' c
        × Apart b' c
        × (b'.ptr ≡ b.ptr)
        × (((done ≡ true) × (b.length + delta ≤ b'.length))
            ⊎ ((done ≡ false) × (b' ≡ b) × (s' ≡ s)))
  unfolding expand
  expand_in_place {s} {b} {c} delta v lb lc apart h = ground (
    arith,
    round_to_alignment_bounds alignment delta aligned,
    add-IsWhole alignment b.length (round_to_alignment alignment delta),
  )
