-- ===== src/Reallocator.antt =====
-- alb/internal/reallocator.hpp: the cases of a reallocation that all allocators share.
pub mod Cases
mod Tests
use allocator_builder.Base.{ℕ, ◌-◌, Bool, true, false, Option, none, some, ◌==◌, ltb, if◌then◌else◌}
use allocator_builder.Block.{Block, is_set, block_copy}
use allocator_builder.Op.{Op, ◌>>=◌, ◌>>◌, pure, on_memory}

-- `internal::reallocateWithCopy`: the new block from one allocator, the old one back to another.
-- Both are seen as operations on one state.
unfoldable pub reallocate_with_copy :
    {S : Type 0} → (Block → Op S Block) → (ℕ → Op S Block) → Block → ℕ → Op S (Bool × Block)
reallocate_with_copy {S} old_deallocate new_allocate b n = do
  new_block ← new_allocate n
  if is_set new_block then moved new_block else pure (false, b)
  where
    moved : Block → Op S (Bool × Block)
    moved new_block = do
      on_memory (block_copy b new_block)
      old_deallocate b
      pure (true, new_block)

-- `expand` is tried only by the specialisation for allocators that have it.
abbrev pub try_expand :
    {S : Type 0} → Option (Block → ℕ → Op S (Bool × Block)) → Block → ℕ → Op S (Bool × Block)
try_expand none b n = pure (false, b)
try_expand (some expand) b n = if ltb b.length n then expand b (n - b.length) else pure (false, b)

-- `internal::reallocator::isHandledDefault`, both specialisations
unfoldable pub is_handled_default :
    {S : Type 0}
    → (ℕ → Op S Block)
    → (Block → Op S Block)
    → Option (Block → ℕ → Op S (Bool × Block))
    → Block
    → ℕ
    → Op S (Bool × Block)
is_handled_default {S} allocate deallocate expand b n =
    if b.length == n
    then pure (true, b)
    else if n == 0
    then released
    else if is_set b
    then try_expand expand b n
    else fresh
  where
    released : Op S (Bool × Block)
    released = do b' ← deallocate b; pure (true, b')

    fresh : Op S (Bool × Block)
    fresh = do b' ← allocate n; pure (true, b')
