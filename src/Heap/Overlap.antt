-- ===== src/Heap/Overlap.antt =====
-- The search with overlap.
use allocator_builder.Base.{
  ℕ, ◌+◌, ◌-◌, ◌/◌, ◌%◌, ◌≤◌, ◌<◌, ◌≡◌, refl, arith, ◌∙◌, ap, false, inl, inr, none, Option-cases,
  dec_lt,
}
use allocator_builder.Control.{set_over_multiple_registers}
use allocator_builder.Control.Search.{search_single, search_overlap}
use allocator_builder.Control.Chunks.{free, free_in_range, Sets, Sets-eq}
use allocator_builder.Control.Multiple.{set_over_multiple_registers-Sets}
use allocator_builder.Control.Single.{search_single_complete}
use allocator_builder.Control.Overlap.{search_overlap-free}
use allocator_builder.Heap.{
  Heap, to_block, mark_used, allocate_with_register_overlap, block_to_context,
}
use allocator_builder.Heap.Granted.{Granted, Outcome}
use allocator_builder.Heap.Layout.{IsValid, context_at, to_block-eq, block_to_context-eq}

-- Room found by the search with overlap leaves its first register, if no register alone has room.
module _ {h : Heap} (v : IsValid h) (n start : ℕ) (pos : 0 < n)
    (room : (c : ℕ) → start ≤ c → c < start + n → free h.control c ≡ 1)
    (single : n < 64 → search_single n 0 h.control ≡ none) where
  overlap_within : start + n ≤ h.number_of_chunks
  overlap_within = omega (
    arith,
    v.counted,
    free_in_range h.control (start + n - 1) (room (start + n - 1) (omega arith) (omega arith)),
  )

  overlap_reach : 64 ≤ start % 64 + n
  overlap_reach = elim (dec_lt (start % 64 + n) 64) [
    | yes short ↦ absurd (
        search_single_complete n 0 h.control pos (omega arith) (single (omega arith)) (start / 64)
          (start % 64) (omega arith) (λ c lo hi. room c (omega arith) (omega arith)))
    | no far ↦ omega arith
  ]

  overlap-Granted : Granted n h (to_block h n start) (mark_used h (to_block h n start))
  unfolding mark_used
  overlap-Granted = record {
    start = start;
    within = overlap_within;
    placed = to_block-eq v start n overlap_within;
    takes = record { were_free = room; taken = taken };
    others = refl;
  }
    where
      context : block_to_context h (to_block h n start) ≡ context_at start n
      context =
          ap (block_to_context h) (to_block-eq v start n overlap_within)
          ∙ block_to_context-eq v start n overlap_within

      taken :
          Sets 0 start n h.control
            (set_over_multiple_registers false (block_to_context h (to_block h n start)) h.control)
      taken = rw context (
          Sets-eq (omega arith) refl (
            set_over_multiple_registers-Sets false (context_at start n) h.control pos (omega arith)
              (inr overlap_reach) (omega (arith, overlap_within, v.counted))))

-- The search with overlap: for less than 64 chunks it must come after a search of each register.
pub overlap-Outcome :
    {h : Heap} (n : ℕ)
    → IsValid h
    → 0 < n
    → (n < 64 → search_single n 0 h.control ≡ none)
    → Outcome n h (allocate_with_register_overlap n h)
unfolding allocate_with_register_overlap
overlap-Outcome {h} n v pos single = elim (Option-cases (search_overlap n h.control)) [
  | inl nothing ↦ rw (nothing, allocate_with_register_overlap) (inl (refl, refl))
  | inr (start, found) ↦
      rw (found, allocate_with_register_overlap)
        (inr (overlap-Granted v n start pos (search_overlap-free n h.control start found).1 single))
]
