-- ===== src/Heap/Deallocate.antt =====
-- `deallocate`: which chunks it frees.
use allocator_builder.Base.{
  ℕ, ◌+◌, ◌-◌, ◌*◌, ◌%◌, ◌≤◌, ◌<◌, ◌≡◌, ◌≢◌, refl, arith, ◌∙◌, sym, ◌⊎◌, inl, inr, dec_lt, dec_le,
  ℕ_discrete, ne→==, word_mod, ap,
}
use allocator_builder.Block.{Block, empty_block}
use allocator_builder.Control.{free_chunks}
use allocator_builder.Control.Chunks.{free, Sets, Sets-eq}
use allocator_builder.Control.Multiple.{free_chunks-Sets, free_chunks_untidy-Sets}
use allocator_builder.Heap.{Heap, allocate, deallocate}
use allocator_builder.Heap.Layout.{
  IsValid, block_at, context_at, block_to_context-eq, owns-block_at,
}
use allocator_builder.Heap.Granted.{Granted, same_run, product_pos}
use allocator_builder.Heap.Allocate.{allocate_lem, Granted-IsValid}

-- The runs of chunks that `deallocate` handles right: within a register, from a register's start on,
-- or of a number of chunks that is no multiple of 64.
abbrev pub IsTidy : ℕ → ℕ → Type 0
IsTidy start k = (start % 64 + k ≤ 64) ⊎ (start % 64 ≡ 0) ⊎ (k % 64 ≢ 0)

module _ {h : Heap} (v : IsValid h) (start k : ℕ) (pos : 0 < k)
    (within : start + k ≤ h.number_of_chunks) where
  -- A block of the heap is reset, and its context is that of its chunks.
  pub deallocate-eq :
      deallocate (block_at h start k) h
      ≡ (empty_block, record h { control = free_chunks (context_at start k) h.control })
  unfolding deallocate
  deallocate-eq = rw (
    owns-block_at v start k within pos,
    block_to_context-eq v start k within,
    ne→== (k * h.chunk_size) 0 (big),
  )
    where
      big : k * h.chunk_size ≢ 0
      big e = omega (arith, product_pos k h.chunk_size pos v.chunky)

  -- A tidy block of the heap is reset, and exactly its chunks become free.
  pub deallocate_lem :
      IsTidy start k
      → let (b, h') = deallocate (block_at h start k) h in
        (b ≡ empty_block)
        × Sets 1 start k h.control h'.control
        × (h' ≡ record h { control = h'.control })
  deallocate_lem tidy = rw deallocate-eq (
    refl,
    Sets-eq (omega arith) refl (
        free_chunks-Sets (context_at start k) h.control pos (omega arith) tidy
          (omega (arith, within, v.counted))),
    refl,
  )

  -- Any other block is not freed right: the chunks of others before it in its first register become
  -- free, and as many chunks at its end stay as they were.
  pub deallocate_untidy :
      ¬ (IsTidy start k)
      → let (b, h') = deallocate (block_at h start k) h in
        Sets 1 (start - start % 64) k h.control h'.control
  deallocate_untidy untidy = rw deallocate-eq (
      Sets-eq (omega arith) refl (
        free_chunks_untidy-Sets (context_at start k) h.control over whole
          (omega (arith, within, v.counted))))
    where
      over : 64 < start % 64 + k
      over = elim (dec_le (start % 64 + k) 64) [
        | yes fits ↦ absurd (untidy (inl fits))
        | no beyond ↦ omega arith
      ]

      whole : k % 64 ≡ 0
      whole = elim (ℕ_discrete (k % 64) 0) [
        | yes even ↦ even
        | no part ↦ absurd (untidy (inr (inr part)))
      ]

-- The same for a block that was handed out
freed_again :
    {h h' : Heap} {b : Block} (k : ℕ)
    → IsValid h
    → 0 < k
    → (g : Granted k h b h') → IsTidy g.start k
    → let (b', h'') = deallocate b h' in
      (b' ≡ empty_block) × ((c : ℕ) → free h''.control c ≡ free h.control c)
freed_again {h} {h'} {b} k v pos g tidy = rw placed' (
  freed.0,
  λ c. elim (dec_lt c g.start) [
    | yes before ↦ outside c (inl before)
    | no late ↦ elim (dec_lt c (g.start + k)) [
      | yes mine ↦
          freed.1.inside c (omega arith) mine ∙ sym (g.takes.were_free c (omega arith) mine)
      | no beyond ↦ outside c (inr (omega arith))
    ]
  ],
)
  where
    placed' : b ≡ block_at h' g.start k
    placed' = ground (arith, g.placed, g.others)

    within' : g.start + k ≤ h'.number_of_chunks
    within' = ground (arith, g.within, g.others)

    freed :
        let (b', h'') = deallocate (block_at h' g.start k) h' in
        (b' ≡ empty_block)
        × Sets 1 g.start k h'.control h''.control
        × (h'' ≡ record h' { control = h''.control })
    freed = deallocate_lem (Granted-IsValid v g) g.start k pos within' tidy

    outside :
        (c : ℕ)
        → (c < g.start) ⊎ (g.start + k ≤ c)
        → free (deallocate (block_at h' g.start k) h').1.control c ≡ free h.control c
    outside c p = freed.1.outside c p ∙ g.takes.taken.outside c p

-- If a request that does not wrap around gets a tidy block, and this is freed at once, then every chunk
-- is as free as before.
pub deallocate-allocate :
    {h : Heap} (n start k : ℕ)
    → IsValid h
    → n + h.chunk_size ≤ word_mod
    → 0 < k
    → (allocate n h).0 ≡ block_at h start k
    → IsTidy start k
    → let (b, h') = allocate n h in
      let (b', h'') = deallocate b h' in
      (b' ≡ empty_block) × ((c : ℕ) → free h''.control c ≡ free h.control c)
deallocate-allocate {h} n start k v fits pos e tidy = elim (allocate_lem {h = h} n v fits) [
  | inl (none_left, _) ↦ absurd (
      omega
        (arith, product_pos k h.chunk_size pos v.chunky, ap (λ b. b.length) (sym e ∙ none_left)))
  | inr (k', pos', enough, tight, g) ↦
      let same = same_run h g.start k' start k v.chunky (sym g.placed ∙ e) in
      freed_again k' v pos' g (rw (same.0, same.1) tidy)
]
