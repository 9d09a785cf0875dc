-- ===== src/Heap/Client.antt =====
-- A client of the heap: any sequence of allocations, of releases of tidy blocks, and of changes of the
-- size of a block in place.
pub mod Invariant
pub mod InPlace
pub mod Steps
pub mod Safety
use allocator_builder.Base.{
  ◌%◌, ◌/◌, int_max, Bool, if◌then◌else◌, ℕ, ◌+◌, ◌*◌, ◌≤◌, ◌<◌, ◌≡◌, refl, arith, ◌⊎◌, inl, inr,
  word_mod, List, [], ◌∷◌, ◌∙◌, dec_lt, dec_le, sym,
}
use allocator_builder.Block.{Block, Memory, empty_block, is_set, round_to_alignment}
use allocator_builder.Control.Chunks.{free, Sets}
use allocator_builder.Heap.{Heap, allocate, deallocate, expand, reallocate}
use allocator_builder.Heap.Layout.{IsValid, block_at}
use allocator_builder.Heap.Granted.{Granted, product_pos}
use allocator_builder.Heap.Allocate.{allocate_lem, Granted-IsValid}
use allocator_builder.Heap.Deallocate.{IsTidy, deallocate_lem}

-- A run of chunks that the client holds
pub record Run : Type 0 where
  pub start : ℕ
  pub count : ℕ

abbrev pub block_of : Heap → Run → Block
block_of h r = block_at h r.start r.count

-- `after` is `before` without the run `r`.
pub data Removes (r : Run) : List Run → List Run → Type 0 where
  here : {l : List Run} → Removes r (r ∷ l) l
  there : {s : Run} {l l' : List Run} → Removes r l l' → Removes r (s ∷ l) (s ∷ l')

-- The chunks that hold `n` bytes
abbrev pub chunks_of : Heap → ℕ → ℕ
chunks_of h n = round_to_alignment h.chunk_size n / h.chunk_size

-- The run with the `n` chunks behind it, where `expand` was successful
abbrev pub resized : Run → Bool → ℕ → Run
resized r done n = record r { count = if done then r.count + n else r.count }

-- One call of the client
pub data Step (h : Heap) (held : List Run) : Heap → List Run → Type 0 where
  refused :
      (n : ℕ)
      → n + h.chunk_size ≤ word_mod
      → (allocate n h).0 ≡ empty_block
      → Step h held (allocate n h).1 held
  granted :
      (n : ℕ) (r : Run)
      → n + h.chunk_size ≤ word_mod
      → 0 < r.count
      → (allocate n h).0 ≡ block_of h r
      → Step h held (allocate n h).1 (r ∷ held)
  released :
      {held' : List Run} (r : Run)
      → Removes r held held'
      → IsTidy r.start r.count
      → Step h held (deallocate (block_of h r) h).1 held'
  -- The two in which a block keeps its place are within the bounds of Heap/Expand and Heap/Shrink.
  expanded :
      {held' : List Run} (r : Run) (delta : ℕ)
      → Removes r held held'
      → r.start % 64 + r.count < 64
      → 0 < delta
      → delta + h.chunk_size ≤ word_mod
      → chunks_of h delta + 64 ≤ int_max
      → Step h held
          (expand (block_of h r) delta h).1
          (resized r (expand (block_of h r) delta h).0.0 (chunks_of h delta) ∷ held')
  shrunk :
      {held' : List Run} (r : Run) (n : ℕ) (m : Memory)
      → Removes r held held'
      → 0 < n
      → n + h.chunk_size ≤ r.count * h.chunk_size
      → (r.start % 64 + r.count ≤ 64) ⊎ (r.start % 64 + chunks_of h n < 64)
      → Step h held (reallocate (block_of h r) n h m).1 (record r { count = chunks_of h n } ∷ held')

pub data Reach (h : Heap) : Heap → List Run → Type 0 where
  begin : Reach h h []
  next :
      {k k' : Heap} {held held' : List Run}
      → Reach h k held
      → Step k held k' held'
      → Reach h k' held'
