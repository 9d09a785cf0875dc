-- ===== src/SharedHeap/Client.antt =====
-- Threads that make any sequence of requests of a shared heap and give back blocks that they hold.
pub mod Holdings
pub mod Serves
pub mod Disjointness
use allocator_builder.Base.{
  ℕ, zero, suc, ◌%◌, ◌≡◌, ◌≢◌, ◌≤◌, ◌+◌, Bool, Option, none, some, List, [], ◌∷◌, if◌then◌else◌,
}
use allocator_builder.Block.{Block, is_set}
use allocator_builder.SharedHeap.{SharedHeap, allocate, deallocate}
use allocator_builder.SharedHeap.Program.{Prog, ret, ◌>>=◌, ◌>>◌}
use allocator_builder.SharedHeap.Program.{Shared, outside}
use allocator_builder.SharedHeap.Threads.{System, thread}
use allocator_builder.SharedHeap.Requests.{chunks_for}

-- A request for a number of bytes, or the release of the block at a place of the thread's list
pub data Call : Type 0 where
  request : ℕ → Call
  give_back : ℕ → Call

abbrev pub keep : Block → Option (Block × List Block) → Option (Block × List Block)
keep b none = none
keep b (some (c, held)) = some (c, b ∷ held)

-- The block at a place, and the list without it
abbrev pub pick : ℕ → List Block → Option (Block × List Block)
pick i [] = none
pick zero (b ∷ held) = some (b, held)
pick (suc i) (b ∷ held) = keep b (pick i held)

-- The thread makes its calls, and returns the blocks that it holds then.
abbrev pub client : ℕ → SharedHeap → List Call → List Block → Prog (List Block)
client attempts h [] held = ret held
client attempts h (request n ∷ calls) held = do
  b ← allocate attempts h n
  client attempts h calls (if is_set b then b ∷ held else held)
client attempts h (give_back i ∷ calls) held = elim (pick i held) [
  | none ↦ client attempts h calls held
  | some (b, rest) ↦ deallocate attempts h b >> client attempts h calls rest
]

-- No request needs a multiple of 64 chunks.
abbrev pub Partial : SharedHeap → List Call → Type 0
Partial h [] = Unit {0}
Partial h (request n ∷ calls) = (chunks_for h n % 64 ≢ 0) × Partial h calls
Partial h (give_back i ∷ calls) = Partial h calls

-- Each thread begins outside of the mutex with no blocks; the registers may show chunks of others.
abbrev pub clients : ℕ → SharedHeap → (ℕ → List Call) → Shared → System (List Block)
clients attempts h calls s = record {
  mem = s;
  threads = λ i. thread (client attempts h (calls i) []) outside;
}

-- The bytes of the block lie in the buffer.
abbrev pub InBuffer : SharedHeap → Block → Type 0
InBuffer h b = (h.buffer.ptr ≤ b.ptr) × (b.ptr + b.length ≤ h.buffer.ptr + h.buffer.length)
