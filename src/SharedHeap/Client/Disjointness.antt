-- ===== src/SharedHeap/Client/Disjointness.antt =====
-- The blocks of threads that share a heap, whatever the order of their steps.
use allocator_builder.Base.{
  ℕ, ◌+◌, ◌*◌, ◌≤◌, ◌≡◌, ◌≢◌, inl, inr, subst, arith, Bool, true, List, max, length, dec_le,
}
use allocator_builder.Block.{Block}
use allocator_builder.Allocator.Blocks.{Apart, All, Pairwise}
use allocator_builder.Control.Register.{all_set}
use allocator_builder.Heap.Client.{Run}
use allocator_builder.Heap.Client.Invariant.{Disjoint, DisjointFrom}
use allocator_builder.Heap.Layout.{chunks_fit}
use allocator_builder.SharedHeap.{SharedHeap}
use allocator_builder.SharedHeap.Program.{ret, Shared}
use allocator_builder.SharedHeap.Threads.{System, Reach}
use allocator_builder.SharedHeap.Logic.{Ok}
use allocator_builder.SharedHeap.Steps.{Reach-Inv}
use allocator_builder.SharedHeap.Requests.{IsValid, run_block}
use allocator_builder.SharedHeap.Client.{Call, Partial, clients, InBuffer}
use allocator_builder.SharedHeap.Client.Serves.{clients-Inv}
use allocator_builder.SharedHeap.Client.Holdings.{Own, Holds, nothing, more, Returns}

ends_before : (a k b c : ℕ) → a + k ≤ b → a * c + k * c ≤ b * c
ends_before a k b c h = omega (arith, chunks_fit (a + k) b c h)

Disjoint-Apart :
    (h : SharedHeap) (r s : Run)
    → Disjoint r s
    → Apart (run_block h r.start r.count) (run_block h s.start s.count)
Disjoint-Apart h r s d = ground (
  arith,
  ends_before r.start r.count s.start h.chunk_size,
  ends_before s.start s.count r.start h.chunk_size,
)

-- Runs of two threads
others-Disjoint :
    (h : SharedHeap) (r s : Run) (p q : ℕ → Bool)
    → ((c : ℕ) → p c ≡ true → q c ≡ true → ⊥)
    → Own h p r
    → Own h q s
    → Disjoint r s
others-Disjoint h r s p q differ o o' = elim (dec_le (r.start + r.count) s.start) [
  | yes before ↦ inl before
  | no late ↦ elim (dec_le (s.start + s.count) r.start) [
    | yes behind ↦ inr behind
    | no early ↦
        let c = max r.start s.start in
        absurd (
          differ c (o.own c (omega arith) (omega (arith, o.counted)))
            (o'.own c (omega arith) (omega (arith, o'.counted))))
  ]
]

DisjointFrom-All :
    (h : SharedHeap) (p : ℕ → Bool) (r : Run) {held : List Block} {runs : List Run}
    → DisjointFrom r runs
    → Holds h p held runs
    → All (Apart (run_block h r.start r.count)) held
DisjointFrom-All h p r d nothing = tt
DisjointFrom-All h p r d (more s o apart rest) =
    (Disjoint-Apart h r s d.0, DisjointFrom-All h p r d.1 rest)

Holds-Pairwise :
    (h : SharedHeap) (p : ℕ → Bool) {held : List Block} {runs : List Run}
    → Holds h p held runs
    → Pairwise held
Holds-Pairwise h p nothing = tt
Holds-Pairwise h p (more r o apart rest) =
    (DisjointFrom-All h p r apart rest, Holds-Pairwise h p rest)

Holds-InBuffer :
    (h : SharedHeap) (p : ℕ → Bool) {held : List Block} {runs : List Run}
    → IsValid h
    → Holds h p held runs
    → All (InBuffer h) held
Holds-InBuffer h p v nothing = tt
Holds-InBuffer h p v (more r o apart rest) = (
  (
    omega arith,
    omega (arith, v.sized, chunks_fit (r.start + r.count) h.number_of_chunks h.chunk_size o.within),
  ),
  Holds-InBuffer h p v rest,
)

other-All :
    (h : SharedHeap) (p q : ℕ → Bool) (r : Run) {held : List Block} {runs : List Run}
    → ((c : ℕ) → p c ≡ true → q c ≡ true → ⊥)
    → Own h p r
    → Holds h q held runs
    → All (Apart (run_block h r.start r.count)) held
other-All h p q r differ o nothing = tt
other-All h p q r differ o (more s o' apart rest) =
    (Disjoint-Apart h r s (others-Disjoint h r s p q differ o o'), other-All h p q r differ o rest)

others-All :
    (h : SharedHeap) (p q : ℕ → Bool) {held held' : List Block} {runs runs' : List Run}
    → ((c : ℕ) → p c ≡ true → q c ≡ true → ⊥)
    → Holds h p held runs
    → Holds h q held' runs'
    → All (λ b. All (Apart b) held') held
others-All h p q differ nothing holds = tt
others-All h p q differ (more r o apart rest) holds =
    (other-All h p q r differ o holds, others-All h p q differ rest holds)

-- Threads share a heap, and each allocates blocks and gives back blocks that it holds, in any order
-- and no request of a multiple of 64 chunks; no thread makes another call. The steps of all threads
-- are interleaved in any order. Then the blocks of a thread that has returned lie in the buffer and
-- are pairwise disjoint, and they share no byte with a block of another thread that has returned.
pub client-Apart :
    (attempts : ℕ) {h : SharedHeap} (calls : ℕ → List Call) (s : Shared) {t : System (List Block)}
    → IsValid h
    → length s.control ≡ h.control_size
    → s.all_set_member ≡ all_set
    → ((i : ℕ) → Partial h (calls i))
    → Reach (clients attempts h calls s) t
    → (i j : ℕ) (held held' : List Block) → i ≢ j
    → (t.threads i).code ≡ ret held
    → (t.threads j).code ≡ ret held'
    → All (InBuffer h) held × Pairwise held × All (λ b. All (Apart b) held') held
client-Apart attempts {h} calls s {t} v sized member part path i j held held' n e e' =
    let (views, inv) = Reach-Inv (clients-Inv attempts v calls s sized member part) path in
    let mine =
      subst (λ p. Ok h.control_size p (t.threads i).mode (views i) (Returns h)) e (inv.ok i) in
    let theirs =
      subst (λ p. Ok h.control_size p (t.threads j).mode (views j) (Returns h)) e' (inv.ok j) in
    (
      Holds-InBuffer h (views i).mine v mine.2,
      Holds-Pairwise h (views i).mine mine.2,
      others-All h (views i).mine (views j).mine (λ c a b. n (inv.apart i j c a b)) mine.2 theirs.2,
    )
