-- ===== src/StackAllocator/Resize.antt =====
-- `reallocate`: where the contents go, and what happens to the blocks of others.
use allocator_builder.Base.{
  ℕ, ◌+◌, ◌*◌, ◌%◌, ◌≤◌, ◌<◌, ◌≡◌, ◌⊎◌, arith, word_mod, true, false, Bool, min,
}
use allocator_builder.Block.{Block, Memory, round_to_alignment, block_copy}
use allocator_builder.Block.Rounding.{round_to_alignment_bounds}
use allocator_builder.Block.Copy.{block_copy_inside, block_copy_outside}
use allocator_builder.Allocator.Blocks.{Apart}
use allocator_builder.StackAllocator.{Arena, reallocate, move_to_end}
use allocator_builder.StackAllocator.Bounds.{IsValid, IsLive, allocate_cases}

-- A multiple of the alignment that is not below n is not below n rounded up.
round_up_le : (k n r l : ℕ) → 0 < k → r % k ≡ 0 → r < n + k → l % k ≡ 0 → n ≤ l → r ≤ l
round_up_le k n r l h hr hn hl le = grind arith

-- What a resize does to a live block: nothing, a new size where it stands, or a move.
abbrev Outcome : Block → ℕ → Arena → Memory → (Bool × Block) × Arena × Memory → Type 0
Outcome b n s m r =
    ((r.0.0 ≡ true) × (n ≤ b.length) × (r.0.1 ≡ b) × (r.1 ≡ s) × (r.2 ≡ m))
    ⊎ ((r.0.0 ≡ true)
        × (b.ptr + b.length ≡ s.p)
        × (n ≤ r.0.1.length)
        × (r.0.1.ptr ≡ b.ptr)
        × (r.1 ≡ record s { p = r.0.1.ptr + r.0.1.length })
        × (r.2 ≡ m))
    ⊎ ((r.0.0 ≡ true)
        × (n ≤ r.0.1.length)
        × (r.0.1.length ≤ b.length)
        × (r.0.1.ptr ≡ b.ptr)
        × (r.1 ≡ s)
        × (r.2 ≡ m))
    ⊎ ((r.0.0 ≡ true)
        × (n ≤ r.0.1.length)
        × (r.0.1.ptr ≡ s.p)
        × (r.1 ≡ record s { p = r.0.1.ptr + r.0.1.length })
        × (r.2 ≡ block_copy b r.0.1 m))
    ⊎ ((r.0.0 ≡ false) × (r.0.1 ≡ b) × (r.1 ≡ s) × (r.2 ≡ m))

contents_of :
    (b : Block) (n : ℕ) (s : Arena) (m : Memory) (r : (Bool × Block) × Arena × Memory)
    → Outcome b n s m r
    → (i : ℕ) → i < min b.length r.0.1.length
    → r.2 (r.0.1.ptr + i) ≡ m (b.ptr + i)
contents_of b n s m r o i h = ground (arith, block_copy_inside b r.0.1 m i h)

others_of :
    (b : Block) (n : ℕ) (s : Arena) (m : Memory) (r : (Bool × Block) × Arena × Memory)
    → Outcome b n s m r
    → (a : ℕ) → a < s.p
    → r.2 a ≡ m a
others_of b n s m r o a h = ground (arith, block_copy_outside b r.0.1 m a)

module _ (max_size alignment : ℕ) (aligned : 0 < alignment) where
  move_to_end-Outcome :
      {s : Arena} {b : Block} (n r : ℕ) (m : Memory)
      → 0 < r
      → n ≤ r
      → IsValid max_size s
      → IsLive alignment s b
      → r + alignment + s.p ≤ word_mod
      → let t = move_to_end max_size alignment b r s m in
        Outcome b n s m t × IsValid max_size t.1 × (t.0.1.length % alignment ≡ 0)
  unfolding move_to_end
  move_to_end-Outcome {s} {b} n r m pos le v lb h =
      ground (arith, allocate_cases max_size alignment aligned r v h)

  reallocate-Outcome :
      {s : Arena} {b : Block} (n : ℕ) (m : Memory)
      → 0 < n
      → IsValid max_size s
      → IsLive alignment s b
      → n + 2 * alignment + s.p ≤ word_mod
      → let r = reallocate max_size alignment b n s m in
        Outcome b n s m r × IsValid max_size r.1 × (r.0.1.length % alignment ≡ 0)
  unfolding reallocate
  reallocate-Outcome {s} {b} n m pos v lb h = ground (
    arith,
    round_to_alignment_bounds alignment n aligned,
    round_up_le alignment n (round_to_alignment alignment n) b.length aligned,
    move_to_end-Outcome {s = s} {b = b} n (round_to_alignment alignment n) m,
  )

  -- A live block is resized to `n` bytes, not zero: the invariant holds, the block and those of
  -- others are live and apart, and on success the result has at least `n` bytes, while on failure
  -- nothing changes.
  pub reallocate_others :
      {s : Arena} {b c : Block} (n : ℕ) (m : Memory)
      → 0 < n
      → IsValid max_size s
      → IsLive alignment s b
      → IsLive alignment s c
      → Apart b c
      → n + 2 * alignment + s.p ≤ word_mod
      → let ((done, b'), s', m') = reallocate max_size alignment b n s m in
        IsValid max_size s'
        × IsLive alignment s' b'
        × IsLive alignment s' c
        × Apart b' c
        × (((done ≡ true) × (n ≤ b'.length)) ⊎ ((done ≡ false) × (b' ≡ b) × (s' ≡ s)))
  reallocate_others {s} {b} {c} n m pos v lb lc apart h =
      ground (arith, reallocate-Outcome {s = s} {b = b} n m pos v lb h)

  -- The bytes that both sizes have in common are kept, and no byte of the used part is written.
  pub reallocate_contents :
      {s : Arena} {b : Block} (n : ℕ) (m : Memory)
      → 0 < n
      → IsValid max_size s
      → IsLive alignment s b
      → n + 2 * alignment + s.p ≤ word_mod
      → let ((done, b'), s', m') = reallocate max_size alignment b n s m in
        ((i : ℕ) → i < min b.length b'.length → m' (b'.ptr + i) ≡ m (b.ptr + i))
        × ((a : ℕ) → a < s.p → m' a ≡ m a)
  reallocate_contents {s} {b} n m pos v lb h =
      let r = reallocate max_size alignment b n s m in
      let o = (reallocate-Outcome {s = s} {b = b} n m pos v lb h).0 in
      (λ i hi. contents_of b n s m r o i hi, λ a ha. others_of b n s m r o a ha)
