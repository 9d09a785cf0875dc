-- ===== src/Heap/Live.antt =====
-- The blocks that a client of alb/heap.hpp holds.
use allocator_builder.Base.{
  ℕ, ◌+◌, ◌*◌, ◌%◌, ◌≤◌, ◌<◌, ◌≡◌, ◌≢◌, ◌∙◌, arith, true, word_mod, List, dec_le,
}
use allocator_builder.Block.{Block, is_set}
use allocator_builder.Allocator.Blocks.{All, Apart, Pairwise}
use allocator_builder.Control.Chunks.{Sets}
use allocator_builder.Heap.{Heap}
use allocator_builder.Heap.Layout.{IsValid, block_at_inside, chunks_fit}
use allocator_builder.Heap.Granted.{product_pos}
use allocator_builder.Heap.Deallocate.{IsTidy}
use allocator_builder.Heap.Client.{Run, block_of}
use allocator_builder.Heap.Client.Invariant.{Holds, Disjoint}

-- The members that no call changes are those of `base`.
module _ (base : Heap) where
  abbrev pub with_registers : List ℕ → Heap
  with_registers control = record base { control = control }

  -- A block of used chunks that `deallocate` handles right
  pub record IsLive (control : List ℕ) (b : Block) : Type 0 where
    pub run : Run
    pub holds : Holds (with_registers control) run
    pub tidy : IsTidy run.start run.count
    pub placed : b ≡ block_of base run

  pub record Inv (h : Heap) (held : List Block) : Type 0 where
    pub valid : IsValid (with_registers h.control)
    pub there : h ≡ with_registers h.control
    pub live : All (IsLive h.control) held
    pub pairwise : Pairwise held

  -- A request whose number of chunks is no multiple of 64
  unfoldable pub Fits : ℕ → Type 0
  Fits n =
      (n + base.chunk_size ≤ word_mod)
      × ((k : ℕ) → n ≤ k * base.chunk_size → k * base.chunk_size < n + base.chunk_size → k % 64 ≢ 0)

  unfoldable pub InBuffer : Block → Type 0
  InBuffer b = (base.buffer.ptr ≤ b.ptr) × (b.ptr + b.length ≤ base.buffer.ptr + base.buffer.length)

  pub IsLive-InBuffer :
      {control : List ℕ} (b : Block)
      → IsValid (with_registers control)
      → IsLive control b
      → InBuffer b
  unfolding InBuffer
  IsLive-InBuffer {control} b v l = rw l.placed (
    omega arith,
    omega (
      arith,
      block_at_inside {h = with_registers control} v l.run.start l.run.count l.holds.within,
    ),
  )

  pub IsLive-set :
      {control : List ℕ} (b : Block)
      → IsValid (with_registers control)
      → IsLive control b
      → is_set b ≡ true
  IsLive-set {control} b v l =
      ground (arith, l.placed, product_pos l.run.count base.chunk_size l.holds.counted v.chunky)

  -- Chunks are disjoint where their bytes are.
  fewer_chunks : (a b c : ℕ) → a * c ≤ b * c → 0 < c → a ≤ b
  fewer_chunks a b c h pos = elim (dec_le a b) [
    | yes p ↦ p
    | no over ↦ absurd (omega (arith, chunks_fit (b + 1) a c (omega arith)))
  ]

  pub Apart-Disjoint :
      (r t : Run) → 0 < base.chunk_size → Apart (block_of base r) (block_of base t) → Disjoint r t
  Apart-Disjoint r t pos a = ground (
    arith,
    fewer_chunks (r.start + r.count) t.start base.chunk_size,
    fewer_chunks (t.start + t.count) r.start base.chunk_size,
    pos,
  )

  -- Blocks stay live when chunks of others change.
  pub IsLive-Sets :
      {control control' : List ℕ} {v : ℕ} (r : Run) (b : Block)
      → Sets v r.start r.count control control'
      → (l : IsLive control b) → Disjoint r l.run
      → IsLive control' b
  IsLive-Sets {control} {control'} r b s l d = record {
    run = l.run;
    holds = record {
      counted = l.holds.counted;
      within = l.holds.within;
      used = λ c lo hi. s.outside c (ground arith) ∙ l.holds.used c lo hi;
    };
    tidy = l.tidy;
    placed = l.placed;
  }
