-- ===== src/FallbackAllocator.antt =====
-- alb/fallback_allocator.hpp: a request that the primary allocator cannot serve goes to another.
pub mod Serves
pub mod OverHeap
mod Tests
use allocator_builder.Base.{
  ℕ, Bool, true, false, ◌&&◌, ◌||◌, Option, none, some, not, ◌==◌, if◌then◌else◌,
}
use allocator_builder.Block.{Block, empty_block, is_set}
use allocator_builder.Op.{Op, ◌>>=◌, ◌>>◌, pure, on_first, on_second}
use allocator_builder.Allocator.{Allocator, has, expander, all_deallocator}
use allocator_builder.Reallocator.{reallocate_with_copy, is_handled_default}

-- The state has one part for each of the two base classes.
module _ (Primary Fallback : Allocator) where
  abbrev pub State : Type 0
  State = Primary.State × Fallback.State

  unfoldable pub allocate : ℕ → Op State Block
  allocate n = if n == 0 then pure empty_block else (do
    result ← on_first (Primary.allocate n)
    if not (is_set result) then on_second (Fallback.allocate n) else pure result)

  unfoldable pub deallocate : Block → Op State Block
  deallocate b (s, t) =
      if not (is_set b)
      then pure b (s, t)
      else if Primary.owns s b
      then on_first (Primary.deallocate b) (s, t)
      else on_second (Fallback.deallocate b) (s, t)

  -- The cases that all allocators share, by the one that owns the block
  pub is_handled : Block → ℕ → Op State (Bool × Block)
  is_handled b n (s, t) =
      if Primary.owns s b
      then on_first (is_handled_default Primary.allocate Primary.deallocate Primary.expand b n)
          (s, t)
      else on_second (is_handled_default Fallback.allocate Fallback.deallocate Fallback.expand b n)
          (s, t)

  -- The primary allocator reallocates, or the contents move to the other.
  pub reallocate_primary : Block → ℕ → Op State (Bool × Block)
  reallocate_primary b n = do
    (done, b') ← on_first (Primary.reallocate b n)
    if done
        then pure (true, b')
        else reallocate_with_copy (λ c. on_first (Primary.deallocate c))
            (λ k. on_second (Fallback.allocate k)) b' n

  unfoldable pub resize : Block → ℕ → Op State (Bool × Block)
  unfolding reallocate_primary
  resize b n (s, t) =
      if Primary.owns s b
      then reallocate_primary b n (s, t)
      else on_second (Fallback.reallocate b n) (s, t)

  unfoldable pub reallocate : Block → ℕ → Op State (Bool × Block)
  unfolding is_handled
  reallocate b n = do
    (handled, b') ← is_handled b n
    if handled then pure (true, b') else resize b' n

  unfoldable pub expand : Block → ℕ → Op State (Bool × Block)
  expand b delta (s, t) =
      if Primary.owns s b
      then on_first (expander Primary.expand b delta) (s, t)
      else on_second (expander Fallback.expand b delta) (s, t)

  pub owns : State → Block → Bool
  owns (s, t) b = Primary.owns s b || Fallback.owns t b

  -- `deallocateAll` is there if both have it.
  pub deallocate_all :
      Option (Op Primary.State (Unit {0}))
      → Option (Op Fallback.State (Unit {0}))
      → Option (Op State (Unit {0}))
  deallocate_all (some primary) (some fallback) = some (on_first primary >> on_second fallback)
  deallocate_all _ _ = none

  -- The class as a template argument
  abbrev pub fallback_allocator : Allocator
  fallback_allocator = record {
    State = State;
    supports_truncated_deallocation =
        Primary.supports_truncated_deallocation || Fallback.supports_truncated_deallocation;
    allocate = allocate;
    deallocate = deallocate;
    reallocate = reallocate;
    owns = owns;
    expand = if has Primary.expand || has Fallback.expand then some expand else none;
    deallocate_all = deallocate_all Primary.deallocate_all Fallback.deallocate_all;
  }
