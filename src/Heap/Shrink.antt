-- ===== src/Heap/Shrink.antt =====
-- `reallocate` of alb/heap.hpp to fewer chunks.
use allocator_builder.Base.{
  ℕ, ◌+◌, ◌-◌, ◌*◌, ◌/◌, ◌%◌, ◌≤◌, ◌<◌, ◌≡◌, refl, ap, ◌∙◌, arith, true, false, ◌⊎◌, inr, some,
  mul64, Bool, if◌then◌else◌, dec_le, int_of_small, sub_int, sub_int_small, leb_int, leb_int_le,
  leb_int_gt, word_of, word_of_small, lt→ltb, ge→ltb, ne→==,
}
use native.Mathlib.Nat.{mul-div_left}
use allocator_builder.Block.{Block, Memory, round_to_alignment}
use allocator_builder.Op.{pure}
use allocator_builder.Reallocator.{is_handled_default}
use allocator_builder.Control.{
  BlockContext, set_within_single_register, deallocate_with_control_register_overlap,
}
use allocator_builder.Control.Chunks.{Sets, Sets-eq, set_within_single_register-Sets}
use allocator_builder.Control.Multiple.{set_over_multiple_registers-Sets}
use allocator_builder.Heap.{
  Heap, behind, block_to_context, cut, resize, reallocate, allocate_op, deallocate_op, expand_op,
}
use allocator_builder.Heap.Layout.{
  IsValid, block_at, block_at_inside, block_to_context-eq, chunks_fit, context_at,
}
use allocator_builder.Heap.Allocate.{chunks_for}

-- The block has `n` chunks left, and exactly the others became free.
abbrev pub Shrunk : Heap → (start k n : ℕ) → Memory → (Bool × Block) × Heap × Memory → Type 0
Shrunk h start k n m (r, h', m') =
    (r ≡ (true, block_at h start n))
    × Sets 1 (start + n) (k - n) h.control h'.control
    × (h' ≡ record h { control = h'.control })
    × (m' ≡ m)

-- The registers after `cut` in a context
abbrev cut_at : Heap → ℕ → BlockContext → Heap
cut_at h n c =
    let rest = behind c n (sub_int c.used_chunks n) in
    record h {
      control =
          if leb_int (c.sub_index + c.used_chunks) 64
          then set_within_single_register true rest h.control
          else deallocate_with_control_register_overlap rest h.control;
    }

cut-cut_at :
    (b : Block) (n : ℕ) (h : Heap)
    → cut b n h
      ≡ (record b { length = mul64 (word_of n) h.chunk_size }, cut_at h n (block_to_context h b))
unfolding cut behind
cut-cut_at b n h = refl

module _ {h : Heap} (v : IsValid h) (start k : ℕ) (within : start + k ≤ h.number_of_chunks) where
  cut-Sets :
      (n : ℕ)
      → n < k
      → (start % 64 + k ≤ 64) ⊎ (start % 64 + n < 64)
      → Sets 1 (start + n) (k - n) h.control (cut_at h n (context_at start k)).control
  unfolding behind deallocate_with_control_register_overlap
  cut-Sets n fewer first = elim (dec_le (start % 64 + k) 64) [
    | yes single ↦
        rw
          (
            leb_int_le (start % 64 + k) 64 single (omega arith),
            sub_int_small k n (omega arith) (omega (arith, within, v.countable)),
          )
          (Sets-eq (omega arith) refl (
            set_within_single_register-Sets true (behind (context_at start k) n (k - n)) h.control
              (omega (arith, v.counted, within)) (omega arith) (omega arith)))
    | no more ↦
        let inside : start % 64 + n < 64 = ground arith in
        rw
          (
            leb_int_gt (start % 64 + k) 64 (omega arith)
                (omega (arith, within, v.counted, v.countable)),
            sub_int_small k n (omega arith) (omega (arith, within, v.countable)),
          )
          (Sets-eq (omega arith) refl (
            set_over_multiple_registers-Sets true (behind (context_at start k) n (k - n)) h.control
              (omega arith) inside (inr (omega arith)) (omega (arith, v.counted, within))))
  ]

  cut-Shrunk :
      (n : ℕ) (m : Memory)
      → n < k
      → (start % 64 + k ≤ 64) ⊎ (start % 64 + n < 64)
      → Shrunk h start k n m
          ((true, (cut (block_at h start k) n h).0), (cut (block_at h start k) n h).1, m)
  cut-Shrunk n m fewer first =
      let room = chunks_fit n k h.chunk_size (omega arith) in
      let bytes : mul64 n h.chunk_size ≡ n * h.chunk_size =
        omega (arith, room, block_at_inside v start k within, v.fits) in
      rw
        (
          cut-cut_at (block_at h start k) n h,
          block_to_context-eq v start k within,
          word_of_small n (omega (arith, within, v.countable)),
          bytes,
        )
        (refl, cut-Sets n fewer first, refl, refl)

  module _ (n : ℕ) (m : Memory) (some_bytes : 0 < n)
      (shorter : n + h.chunk_size ≤ k * h.chunk_size) where
    abbrev left : ℕ
    left = round_to_alignment h.chunk_size n / h.chunk_size

    left-lt : left < k
    left-lt =
        let (_, enough, tight) =
          chunks_for n h.chunk_size some_bytes v.chunky
            (omega (arith, block_at_inside v start k within, v.fits)) in
        elim (dec_le k left) [
          | yes more ↦ absurd (omega (arith, chunks_fit k left h.chunk_size more))
          | no less ↦ omega arith
        ]

    -- Some chunks are left, and not all of them.
    pub left_bounds : (0 < left) × (left < k)
    left_bounds =
        let (some_chunks, _, _) =
          chunks_for n h.chunk_size some_bytes v.chunky
            (omega (arith, block_at_inside v start k within, v.fits)) in
        (some_chunks, left-lt)

    not_handled :
        is_handled_default allocate_op deallocate_op (some expand_op) (block_at h start k) n h m
        ≡ ((false, block_at h start k), h, m)
    unfolding is_handled_default
    not_handled =
        rw
          (
            ne→== (k * h.chunk_size) n (λ e. omega (arith, v.chunky)),
            ne→== n 0 (λ e. omega arith),
            ne→== (k * h.chunk_size) 0 (λ e. omega (arith, v.chunky)),
            ge→ltb (k * h.chunk_size) n (omega arith),
          )
          refl

    resize-cut :
        resize (block_at h start k) n h m
        ≡ ((true, (cut (block_at h start k) left h).0), (cut (block_at h start k) left h).1, m)
    unfolding resize
    resize-cut =
        rw
          (
            mul-div_left k v.chunky,
            int_of_small k (omega (arith, within, v.countable)),
            int_of_small left (omega (arith, left-lt, within, v.countable)),
            ne→== k left (λ e. omega (arith, left-lt)),
            lt→ltb n (k * h.chunk_size) (omega (arith, v.chunky)),
          )
          refl

    reallocate-cut :
        reallocate (block_at h start k) n h m
        ≡ ((true, (cut (block_at h start k) left h).0), (cut (block_at h start k) left h).1, m)
    unfolding reallocate
    reallocate-cut =
        ap (λ x. (if x.0.0 then pure (true, x.0.1) else resize x.0.1 n) x.1 x.2) not_handled
        ∙ resize-cut

  -- A block that is to hold some bytes, at least a chunk's size fewer than it has, keeps as many chunks as
  -- hold them, and exactly the others become free, if the block lies within one register or its new
  -- end lies inside of its first one.
  pub reallocate_shrinks :
      (n : ℕ) (m : Memory)
      → 0 < n
      → n + h.chunk_size ≤ k * h.chunk_size
      → let left = round_to_alignment h.chunk_size n / h.chunk_size in
        (start % 64 + k ≤ 64) ⊎ (start % 64 + left < 64)
        → Shrunk h start k left m (reallocate (block_at h start k) n h m)
  reallocate_shrinks n m some_bytes shorter first =
      rw (reallocate-cut n m some_bytes shorter)
        (cut-Shrunk (left n m some_bytes shorter) m (left-lt n m some_bytes shorter) first)
