-- ===== src/Freelist.antt =====
-- alb/freelist.hpp: a pool of blocks of one size over another allocator, in the variant for one
-- thread, whose pool is the stack of alb/internal/stack.hpp. The bounds may be set at run time.
pub mod Reuse
pub mod Batch
pub mod Drain
mod Tests
use allocator_builder.Base.{
  ℕ, zero, suc, ◌+◌, ◌-◌, ◌%◌, ◌^◌, Bool, true, false, ◌&&◌, none, List, leb, if◌then◌else◌, add64,
  mul64,
}
use allocator_builder.Block.{Block, empty_block, reset, is_set}
use allocator_builder.Op.{Op, ◌>>=◌, ◌>>◌, pure}
use allocator_builder.Allocator.{Allocator}
use allocator_builder.Reallocator.{is_handled_default}
use allocator_builder.Stack
use allocator_builder.Stack.{Stack, push, pop}

-- The template parameters
module _ (A : Allocator) (pool_size batches : ℕ) where
  pub record Freelist : Type 0 where
    pub parent : A.State
    pub root : Stack ℕ
    pub lower_bound : ℕ
    pub upper_bound : ℕ

  -- The constructor with bounds; `cells` is what the array of the pool holds at first.
  unfoldable pub init : A.State → List ℕ → ℕ → ℕ → Freelist
  init parent cells min_size max_size = record {
    parent = parent;
    root = Stack.init cells;
    lower_bound = min_size;
    upper_bound = max_size;
  }

  unfoldable pub set_min_max : ℕ → ℕ → Freelist → Freelist
  set_min_max min_size max_size f = record f { lower_bound = min_size; upper_bound = max_size }

  -- A call of the parent allocator
  abbrev pub on_parent : {B : Type 0} → Op A.State B → Op Freelist B
  on_parent step f m = let (r, s, m') = step f.parent m in (r, record f { parent = s }, m')

  -- `_root.push`
  abbrev pub push_root : ℕ → Op Freelist Bool
  push_root p f m =
      let (done, root) = push pool_size p f.root in (done, record f { root = root }, m)

  -- `_root.pop`
  abbrev pub pop_root : ℕ → Op Freelist (Bool × ℕ)
  pop_root p f m = let (r, root) = pop p f.root in (r, record f { root = root }, m)

  -- The loop over the blocks of a batch but the first, by the rounds left
  unfoldable pub push_batch : ℕ → ℕ → ℕ → ℕ → Op Freelist (Unit {0})
  push_batch zero i start size = pure tt
  push_batch (suc rounds) i start size = do
    done ← push_root (add64 start (mul64 i size))
    if done
        then pure empty_block
        else on_parent (A.deallocate (record { ptr = add64 start (mul64 i size); length = size }))
    push_batch rounds (i + 1) start size

  -- A batch in one allocation of the parent
  unfoldable pub allocate_batch : ℕ → Op Freelist Block
  allocate_batch size = do
    batch ← on_parent (A.allocate (mul64 size batches))
    if is_set batch
        then push_batch (batches - 1) 1 batch.ptr size
          >> pure (record { ptr = batch.ptr; length = size })
        else on_parent (A.allocate size)

  -- A batch in single allocations, by the rounds left
  unfoldable pub allocate_each : ℕ → ℕ → Op Freelist Block
  allocate_each zero size = on_parent (A.allocate size)
  allocate_each (suc rounds) size = do
    b ← on_parent (A.allocate size)
    done ← push_root b.ptr
    if done then allocate_each rounds size else pure b

  -- A new batch, by what the parent supports. The unsigned `NumberOfBatchAllocations - 1` wraps.
  unfoldable pub refill : Bool → ℕ → Op Freelist Block
  refill true size = allocate_batch size
  refill false size = allocate_each ((batches + 2 ^ 32 - 1) % 2 ^ 32) size

  -- A block of the pool, or a new batch
  unfoldable pub take : ℕ → Op Freelist Block
  take size = do
    (found, p) ← pop_root 0
    if found
        then pure (record { ptr = p; length = size })
        else refill A.supports_truncated_deallocation size

  unfoldable pub allocate : ℕ → Op Freelist Block
  allocate n f m =
      if leb f.lower_bound n && leb n f.upper_bound
      then take f.upper_bound f m
      else (empty_block, f, m)

  unfoldable pub owns : Freelist → Block → Bool
  owns f b = is_set b && (leb f.lower_bound b.length && leb b.length f.upper_bound)

  unfoldable pub deallocate : Block → Op Freelist Block
  deallocate b f m =
      if is_set b && owns f b
      then (do done ← push_root b.ptr; if done then pure (reset b) else on_parent (A.deallocate b))
          f m
      else (b, f, m)

  pub reallocate : Block → ℕ → Op Freelist (Bool × Block)
  reallocate b n = is_handled_default allocate deallocate none b n

  -- The destructor, by the rounds left; there are at most as many as blocks in the pool.
  unfoldable pub drain : ℕ → Op Freelist (Unit {0})
  drain zero = pure tt
  drain (suc rounds) = do
    (found, p) ← pop_root 0
    f ← (λ f m. (f, f, m))
    if found
        then on_parent (A.deallocate (record { ptr = p; length = f.upper_bound })) >> drain rounds
        else pure tt

  unfoldable pub destroy : Op Freelist (Unit {0})
  destroy f m = drain (f.root.used + 1) f m

  -- The class as a template argument
  abbrev pub freelist : Allocator
  freelist = record {
    State = Freelist;
    supports_truncated_deallocation = A.supports_truncated_deallocation;
    allocate = allocate;
    deallocate = deallocate;
    reallocate = reallocate;
    owns = owns;
    expand = none;
    deallocate_all = none;
  }
