-- ===== src/Freelist/Batch.antt =====
-- A batch: one block of the parent becomes the result and the free blocks of the pool.
use allocator_builder.Base.{
  ℕ, zero, suc, ◌+◌, ◌-◌, ◌*◌, ◌≤◌, ◌<◌, ◌≡◌, refl, arith, Bool, true, false, List, [], ◌∷◌, le→leb,
  length, word_mod, add64, mul64,
}
use allocator_builder.Block.{is_set, Memory}
use allocator_builder.Allocator.{Allocator}
use allocator_builder.Stack.{push, pop}
use allocator_builder.Stack.Refine.{Represents, push_room, pop-Represents}
use allocator_builder.Freelist.{Freelist, allocate, allocate_batch, push_batch, refill, take}
use allocator_builder.Freelist.Reuse.{Pools}

-- The addresses of the blocks `i`, `i + 1`, … of a batch, put one by one on the list
abbrev pub stacked : ℕ → ℕ → ℕ → ℕ → List ℕ → List ℕ
stacked zero i start size l = l
stacked (suc rounds) i start size l = stacked rounds (i + 1) start size ((start + i * size) ∷ l)

block_inside : (i k size : ℕ) → i ≤ k → i * size ≤ k * size
block_inside i k size h = grind arith

module _ (A : Allocator) (pool_size batches : ℕ) where
  push_batch-Pools :
      (rounds i start size : ℕ) (f : Freelist A pool_size batches) (l : List ℕ) (m : Memory)
      → Represents pool_size f.root l
      → length l + rounds ≤ pool_size
      → start + (i + rounds) * size < word_mod
      → let (r, f', m') = push_batch A pool_size batches rounds i start size f m in
        (m' ≡ m) × Pools A pool_size batches f f' (stacked rounds i start size l)
  unfolding push_batch
  push_batch-Pools zero i start size f l m r room fits =
      (refl, record { same_parent = refl; same_lower = refl; same_upper = refl; pool = r })
  push_batch-Pools (suc rounds) i start size f l m r room fits =
      let plain : add64 start (mul64 i size) ≡ start + i * size =
        omega (arith, block_inside i (i + suc rounds) size (omega arith)) in
      let pushed = push_room (start + i * size) r (omega arith) in
      let same : i + 1 + rounds ≡ i + suc rounds = omega arith in
      rw (plain, pushed.0)
        (let rest =
            push_batch-Pools rounds (i + 1) start size
              (record f { root = (push pool_size (start + i * size) f.root).1 })
              ((start + i * size) ∷ l) m pushed.1 (omega arith) (rw same fits) in
          (
            rest.0,
            record {
              same_parent = rest.1.same_parent;
              same_lower = rest.1.same_lower;
              same_upper = rest.1.same_upper;
              pool = rest.1.pool;
            },
          ))

  refill-truncated :
      (supported : Bool) (size : ℕ)
      → supported ≡ true
      → refill A pool_size batches supported size ≡ allocate_batch A pool_size batches size
  unfolding refill
  refill-truncated true size e = refl
  refill-truncated false size e = absurd (ground arith)

  -- With an empty pool that has room for a batch, and a parent that supports truncated deallocation
  -- and gives a set block for the whole batch: the result is the first part of that block, the pool
  -- holds the addresses of the others, the last one on top, and the parent is called once.
  pub allocate_fills :
      (f : Freelist A pool_size batches) (n : ℕ) (m : Memory)
      → A.supports_truncated_deallocation ≡ true
      → Represents pool_size f.root []
      → f.lower_bound ≤ n
      → n ≤ f.upper_bound
      → 0 < batches
      → batches - 1 ≤ pool_size
      → let (whole, s, m') = A.allocate (mul64 f.upper_bound batches) f.parent m in
        is_set whole ≡ true
        → whole.ptr + batches * f.upper_bound < word_mod
        → let (b, f', m'') = allocate A pool_size batches n f m in
          (b ≡ record { ptr = whole.ptr; length = f.upper_bound })
          × (m'' ≡ m')
          × Pools A pool_size batches
              (record f { parent = s })
              f'
              (stacked (batches - 1) 1 whole.ptr f.upper_bound [])
  unfolding allocate take allocate_batch
  allocate_fills f n m truncated r low high some_blocks room set fits =
      let top = pop-Represents 0 r in
      let (whole, s, m') = A.allocate (mul64 f.upper_bound batches) f.parent m in
      let all : 1 + (batches - 1) ≡ batches = omega arith in
      let rest =
        push_batch-Pools (batches - 1) 1 whole.ptr f.upper_bound
          (record f { parent = s; root = (pop 0 f.root).1 }) [] m' top.1 (omega arith)
          (rw all fits) in
      rw
        (
          le→leb f.lower_bound n low,
          le→leb n f.upper_bound high,
          top.0,
          refill-truncated A.supports_truncated_deallocation f.upper_bound truncated,
          set,
        )
        (
          refl,
          rest.0,
          record {
            same_parent = rest.1.same_parent;
            same_lower = rest.1.same_lower;
            same_upper = rest.1.same_upper;
            pool = rest.1.pool;
          },
        )
