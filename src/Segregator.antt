-- ===== src/Segregator.antt =====
-- alb/segregator.hpp: requests up to a threshold go to one allocator, larger ones to another.
pub mod Serves
mod Tests
use allocator_builder.Base.{
  ℕ, Bool, true, false, ◌&&◌, ◌||◌, Option, none, some, leb, not, if◌then◌else◌, add64,
}
use allocator_builder.Block.{Block, is_set}
use allocator_builder.Op.{Op, ◌>>=◌, ◌>>◌, pure, on_first, on_second}
use allocator_builder.Allocator.{Allocator, has, expander, all_deallocator}
use allocator_builder.Reallocator.{reallocate_with_copy, is_handled_default}

-- The state has one part for each of the two base classes.
module _ (threshold : ℕ) (Small Large : Allocator) where
  abbrev pub State : Type 0
  State = Small.State × Large.State

  unfoldable pub allocate : ℕ → Op State Block
  allocate n = if leb n threshold then on_first (Small.allocate n) else on_second (Large.allocate n)

  unfoldable pub deallocate : Block → Op State Block
  deallocate b =
      if not (is_set b)
      then pure b
      else if leb b.length threshold
      then on_first (Small.deallocate b)
      else on_second (Large.deallocate b)

  unfoldable pub expand : Block → ℕ → Op State (Bool × Block)
  expand b delta =
      if leb b.length threshold && not (leb (add64 b.length delta) threshold)
      then pure (false, b)
      else if leb b.length threshold
      then on_first (expander Small.expand b delta)
      else on_second (expander Large.expand b delta)

  -- The class has `expand` if one of the two has it.
  pub expand_member : Option (Block → ℕ → Op State (Bool × Block))
  expand_member = if has Small.expand || has Large.expand then some expand else none

  -- The part of `reallocate` behind the cases that all allocators share
  unfoldable pub resize : Block → ℕ → Op State (Bool × Block)
  resize b n =
      if leb b.length threshold
      then (if leb n threshold
          then on_first (Small.reallocate b n)
          else reallocate_with_copy deallocate (λ k. on_second (Large.allocate k)) b n)
      else if leb n threshold
      then reallocate_with_copy deallocate (λ k. on_first (Small.allocate k)) b n
      else on_second (Large.reallocate b n)

  pub reallocate : Block → ℕ → Op State (Bool × Block)
  reallocate b n = do
    (handled, b') ← is_handled_default allocate deallocate expand_member b n
    if handled then pure (true, b') else resize b' n

  pub owns : State → Block → Bool
  owns (s, t) b = if leb b.length threshold then Small.owns s b else Large.owns t b

  pub deallocate_all : Op State (Unit {0})
  deallocate_all = do
    on_first (all_deallocator Small.deallocate_all)
    on_second (all_deallocator Large.deallocate_all)

  -- The class as a template argument; `owns` and `deallocateAll` are there if `expand` is.
  abbrev pub segregator : Allocator
  segregator = record {
    State = State;
    supports_truncated_deallocation =
        Small.supports_truncated_deallocation && Large.supports_truncated_deallocation;
    allocate = allocate;
    deallocate = deallocate;
    reallocate = reallocate;
    owns = owns;
    expand = expand_member;
    deallocate_all = if has Small.expand || has Large.expand then some deallocate_all else none;
  }
