-- ===== src/Heap/Client/Safety.antt =====
-- What the invariant means for the memory of the client.
use allocator_builder.Base.{ℕ, ◌+◌, ◌*◌, ◌≤◌, arith, ◌⊎◌, List, [], ◌∷◌}
use allocator_builder.Heap.{Heap}
use allocator_builder.Heap.Layout.{chunks_fit}
use allocator_builder.Heap.Client.{Run, block_of}
use allocator_builder.Heap.Client.Invariant.{Disjoint}

-- The bytes of the block lie in the buffer.
abbrev pub InBuffer : Heap → Run → Type 0
InBuffer h r =
    let b = block_of h r in
    (h.buffer.ptr ≤ b.ptr) × (b.ptr + b.length ≤ h.buffer.ptr + h.buffer.length)

-- No byte belongs to both blocks.
abbrev pub ByteApart : Heap → Run → Run → Type 0
ByteApart h r s =
    let b = block_of h r in
    let c = block_of h s in (b.ptr + b.length ≤ c.ptr) ⊎ (c.ptr + c.length ≤ b.ptr)

abbrev pub ByteApartFrom : Heap → Run → List Run → Type 0
ByteApartFrom h r [] = Unit {0}
ByteApartFrom h r (s ∷ held) = ByteApart h r s × ByteApartFrom h r held

abbrev pub Separate : Heap → List Run → Type 0
Separate h [] = Unit {0}
Separate h (r ∷ held) = InBuffer h r × ByteApartFrom h r held × Separate h held

ends_before : (a k b c : ℕ) → a + k ≤ b → a * c + k * c ≤ b * c
ends_before a k b c h = omega (arith, chunks_fit (a + k) b c h)

pub Disjoint-ByteApart : (h : Heap) (r s : Run) → Disjoint r s → ByteApart h r s
Disjoint-ByteApart h r s d = ground (
  arith,
  ends_before r.start r.count s.start h.chunk_size,
  ends_before s.start s.count r.start h.chunk_size,
)
