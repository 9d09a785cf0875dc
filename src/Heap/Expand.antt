-- ===== src/Heap/Expand.antt =====
-- `expand` of alb/heap.hpp: the chunks behind a block.
use allocator_builder.Base.{
  ℕ, ◌+◌, ◌-◌, ◌*◌, ◌/◌, ◌%◌, ◌≤◌, ◌<◌, ◌≡◌, ◌≢◌, refl, arith, ◌∙◌, ap, sym, true, false, ◌⊎◌, inl,
  inr, word_mod, int_max, int_of, leb_int, int_of_small, word_of_small, leb_int_le, leb_int_gt,
  add64, mul64, Bool, Bool-cases, if◌then◌else◌, dec_le, ne→==, List,
}
use allocator_builder.Block.{Block, round_to_alignment}
use allocator_builder.Control.{
  BlockContext, test_and_set_within_single_register, test_and_set_over_multiple_registers,
}
use allocator_builder.Control.Chunks.{free_in_range}
use allocator_builder.Control.Found.{Takes}
use allocator_builder.Control.Grow.{
  AllFree, Grown, test_and_set_within-Grown, test_and_set_over-Grown,
}
use allocator_builder.Heap.{Heap, expand, grown, behind, block_to_context}
use allocator_builder.Heap.Layout.{IsValid, block_at, block_to_context-eq, block_at_inside}
use allocator_builder.Heap.Allocate.{chunks_for}

-- The block is longer by `n` chunks that were free and became used, or nothing has changed, and not
-- all of these chunks were free.
abbrev pub Expanded : Heap → ℕ → ℕ → ℕ → (Bool × Block) × Heap → Type 0
Expanded h start k n ((done, b'), h') =
    ((done ≡ true)
      × (b' ≡ block_at h start (k + n))
      × Takes n (start + k) h.control h'.control
      × (h' ≡ record h { control = h'.control }))
    ⊎ ((done ≡ false) × (b' ≡ block_at h start k) × (h' ≡ h) × ¬ (AllFree h.control (start + k) n))

-- The test and set of `n` chunks in a context
abbrev pub grown_at : Heap → Block → ℕ → BlockContext → (Bool × Block) × Heap
grown_at h b n c =
    if leb_int (c.sub_index + c.used_chunks + n) 64
    then grown b n h
        (test_and_set_within_single_register false (behind c c.used_chunks n) h.control)
    else grown b n h
        (test_and_set_over_multiple_registers false (behind c c.used_chunks n) h.control)

pub expand-grown_at :
    (h : Heap) (b : Block) (delta : ℕ)
    → delta ≢ 0
    → expand b delta h
      ≡ grown_at h b
          (int_of (round_to_alignment h.chunk_size delta / h.chunk_size))
          (block_to_context h b)
unfolding expand behind grown
expand-grown_at h b delta wanted = rw (ne→== delta 0 wanted) refl

grown_fails :
    (b : Block) (n : ℕ) (h : Heap) (r : Bool × List ℕ)
    → (grown b n h r).0.0 ≡ false
    → grown b n h r ≡ ((false, b), h)
unfolding grown
grown_fails b n h (true, control) e = cc
grown_fails b n h (false, control) e = refl

grown_at_fails :
    (h : Heap) (b : Block) (n : ℕ) (c : BlockContext)
    → (grown_at h b n c).0.0 ≡ false
    → grown_at h b n c ≡ ((false, b), h)
grown_at_fails h b n c e = elim (Bool-cases (leb_int (c.sub_index + c.used_chunks + n) 64)) [
  | inl within ↦ rw within (
      grown_fails b n h
        (test_and_set_within_single_register false (behind c c.used_chunks n) h.control)
        (rw within at e))
  | inr over ↦ rw over (
      grown_fails b n h
        (test_and_set_over_multiple_registers false (behind c c.used_chunks n) h.control)
        (rw over at e))
]

-- An `expand` that fails changes nothing.
pub expand_fails :
    (h : Heap) (b : Block) (delta : ℕ)
    → delta ≢ 0
    → (expand b delta h).0.0 ≡ false
    → expand b delta h ≡ ((false, b), h)
expand_fails h b delta wanted e =
    let plain = expand-grown_at h b delta wanted in
    plain
    ∙ grown_at_fails h b (int_of (round_to_alignment h.chunk_size delta / h.chunk_size))
        (block_to_context h b) (ap (λ r. r.0.0) (sym plain) ∙ e)

module _ {h : Heap} (v : IsValid h) (start k : ℕ) (pos : 0 < k)
    (within : start + k ≤ h.number_of_chunks) where
  grown-Expanded :
      (n : ℕ) (r : Bool × List ℕ)
      → 0 < n
      → n ≤ int_max
      → n * h.chunk_size < word_mod
      → Grown h.control (start + k) n r
      → Expanded h start k n (grown (block_at h start k) n h r)
  unfolding grown
  grown-Expanded n (done, control') some_chunks few small (inl (e, t)) =
      let room : start + (k + n) ≤ h.number_of_chunks = omega (
        arith,
        v.counted,
        free_in_range h.control (start + k + n - 1)
            (t.were_free (start + k + n - 1) (omega arith) (omega arith)),
      ) in
      let bytes : add64 (k * h.chunk_size) (mul64 n h.chunk_size) ≡ (k + n) * h.chunk_size =
        omega (arith, block_at_inside v start (k + n) room, v.fits) in
      rw (e, word_of_small n few, bytes) (inl (refl, refl, t, refl))
  grown-Expanded n (done, control') some_chunks few small (inr (e, same, none_there)) =
      rw e (inr (refl, refl, refl, none_there))

  -- If a block ends inside of its first register, and the request does not wrap around, and an `int`
  -- can count its chunks and 64 more, then `expand` by some bytes makes the block longer by as many
  -- chunks as hold them, which all were free and become used; or it fails, because some of them are
  -- not free, and changes nothing.
  pub expand_lem :
      (delta : ℕ)
      → start % 64 + k < 64
      → 0 < delta
      → delta + h.chunk_size ≤ word_mod
      → let n = round_to_alignment h.chunk_size delta / h.chunk_size in
        n + 64 ≤ int_max
        → (delta ≤ n * h.chunk_size)
          × (n * h.chunk_size < delta + h.chunk_size)
          × Expanded h start k n (expand (block_at h start k) delta h)
  unfolding behind
  expand_lem delta first some_bytes fits few =
      let n = round_to_alignment h.chunk_size delta / h.chunk_size in
      let (some_chunks, enough, tight) = chunks_for delta h.chunk_size some_bytes v.chunky fits in
      let c : BlockContext = record {
        register_index = start / 64;
        sub_index = start % 64 + k;
        used_chunks = n;
      } in
      let at_end : start / 64 * 64 + (start % 64 + k) ≡ start + k = omega arith in
      (
        enough,
        tight,
        rw
            (
              expand-grown_at h (block_at h start k) delta (λ e. omega arith),
              block_to_context-eq v start k within,
              int_of_small n (omega arith),
            )
            (elim (dec_le (start % 64 + k + n) 64) [
              | yes single ↦ rw (leb_int_le (start % 64 + k + n) 64 single (omega arith)) (
                  grown-Expanded n (test_and_set_within_single_register false c h.control)
                    some_chunks (omega arith) (omega arith)
                    (rw at_end at (test_and_set_within-Grown c h.control some_chunks single)))
              | no more ↦ rw (leb_int_gt (start % 64 + k + n) 64 (omega arith) (omega arith)) (
                  grown-Expanded n (test_and_set_over_multiple_registers false c h.control)
                    some_chunks (omega arith) (omega arith)
                    (rw at_end at
                      (test_and_set_over-Grown c h.control some_chunks first (omega arith))))
            ]),
      )
