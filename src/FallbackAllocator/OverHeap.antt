-- ===== src/FallbackAllocator/OverHeap.antt =====
-- alb/fallback_allocator.hpp over alb/heap.hpp: what does not fit into the heap goes to another allocator.
use allocator_builder.Base.{◌+◌, ◌≤◌, ◌≡◌, refl, ◌⊎◌, inl, inr, arith, true, false, List, []}
use allocator_builder.Block.{Block, is_set}
use allocator_builder.Allocator.{Allocator}
use allocator_builder.Allocator.Blocks.{All, Apart, Pairwise}
use allocator_builder.Allocator.Contract.{Contract}
use allocator_builder.Allocator.Client.{Reach}
use allocator_builder.Heap.{Heap, heap, owns}
use allocator_builder.Heap.Layout.{IsValid}
use allocator_builder.Heap.Live.{Inv, Fits, InBuffer}
use allocator_builder.Heap.Serves.{heap-Contract, owns-held, owns-foreign}
use allocator_builder.FallbackAllocator.{fallback_allocator}
use allocator_builder.FallbackAllocator.Serves.{fallback-Pairwise, Given}

-- The other allocator's blocks lie outside of the heap's buffer.
abbrev pub Elsewhere : Heap → Block → Type 0
Elsewhere h b = (b.ptr + b.length ≤ h.buffer.ptr) ⊎ (h.buffer.ptr + h.buffer.length ≤ b.ptr)

module _ (h : Heap) (Fallback : Allocator) (fallback : Contract Fallback)
    (elsewhere : (b : Block) → fallback.Gives b → Elsewhere h b) where
  separate : (b c : Block) → InBuffer h b → fallback.Gives c → Apart b c
  unfolding InBuffer
  separate b c inside given = ground (arith, elsewhere c given)

  foreign :
      (s : Heap) (held : List Block) (b : Block)
      → Inv h s held
      → fallback.Gives b
      → is_set b ≡ true
      → owns s b ≡ false
  foreign s held b i given set =
      owns-foreign h s held b i
        (elim (elsewhere b given) [ inl before ↦ inl (ground arith) | inr behind ↦ inr behind ])

  -- If a valid heap falls back on an allocator that keeps its contract, begins with no block held and
  -- gives blocks outside of the heap's buffer, then no two blocks that a client of the combination,
  -- which allocates and releases blocks, ever holds at a time share a byte, as long as no request to
  -- it is for a multiple of 64 chunks.
  pub heap_fallback-Pairwise :
      {s' : Heap × Fallback.State} {t : Fallback.State} {held : List Block}
      → IsValid h
      → fallback.Inv t []
      → Reach (fallback_allocator heap Fallback) (λ n. Fits h n × fallback.Fits n) (h, t) s' held
      → Pairwise held × All (λ b. InBuffer h b ⊎ fallback.Gives b) held
  unfolding heap-Contract Given
  heap_fallback-Pairwise {s'} {t} {held} v empty r =
      fallback-Pairwise heap Fallback (heap-Contract h) fallback separate (owns-held h) foreign
        {s = (h, t)} {s' = s'} {held = held}
        (record { valid = v; there = refl; live = tt; pairwise = tt }) empty r
