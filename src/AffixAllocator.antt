-- ===== src/AffixAllocator.antt =====
-- alb/affix_allocator.hpp: an object before and one behind each block.
pub mod Around
mod Tests
use allocator_builder.Base.{
  ℕ, ◌+◌, ◌-◌, max, Bool, true, false, ◌&&◌, not, Option, none, some, ◌==◌, ltb, if◌then◌else◌,
  add64, sub64,
}
use allocator_builder.Block.{Block, empty_block, is_set, Memory, block_copy}
use allocator_builder.Op.{Op, ◌>>=◌, ◌>>◌, pure, on_memory}
use allocator_builder.Allocator.{Allocator, has}
use allocator_builder.Reallocator.{is_handled_default}

-- A type `Prefix` or `Sufix` by its size, 0 for `no_affix`, and what its constructor and destructor
-- do at an address. The class asks for trivially copyable types: a copy is one of the bytes.
pub record Affix : Type 0 where
  pub size : ℕ
  pub construct : ℕ → Memory → Memory
  pub destroy : ℕ → Memory → Memory

-- The template parameters
module _ (A : Allocator) (prefix sufix : Affix) where
  unfoldable pub to_inner_block : Block → Block
  to_inner_block b = record {
    ptr = sub64 b.ptr prefix.size;
    length = add64 b.length (add64 prefix.size sufix.size);
  }

  unfoldable pub to_outer_block : Block → Block
  to_outer_block b = record {
    ptr = add64 b.ptr prefix.size;
    length = sub64 (sub64 b.length prefix.size) sufix.size;
  }

  unfoldable pub inner_to_prefix : Block → ℕ
  inner_to_prefix b = b.ptr

  unfoldable pub inner_to_sufix : Block → ℕ
  inner_to_sufix b = sub64 (add64 b.ptr b.length) sufix.size

  -- `sizeof(Prefix)` is 1 for `no_affix`, which takes no room.
  unfoldable pub outer_to_prefix : Block → ℕ
  outer_to_prefix b = if is_set b then sub64 b.ptr (max 1 prefix.size) else 0

  unfoldable pub outer_to_sufix : Block → ℕ
  outer_to_sufix b = if is_set b then add64 b.ptr b.length else 0

  -- `new (p) T{}` and `p->~T()`, only for a type with a size
  unfoldable pub construct_at : Affix → ℕ → Op A.State (Unit {0})
  construct_at t p = on_memory (λ m. if ltb 0 t.size then t.construct p m else m)

  unfoldable pub destroy_at : Affix → ℕ → Op A.State (Unit {0})
  destroy_at t p = on_memory (λ m. if ltb 0 t.size then t.destroy p m else m)

  unfoldable pub allocate : ℕ → Op A.State Block
  unfolding inner_to_prefix construct_at
  allocate n = if n == 0 then pure empty_block else (do
    inner ← A.allocate (add64 (add64 prefix.size n) sufix.size)
    if is_set inner
        then construct_at prefix (inner_to_prefix inner)
          >> construct_at sufix (inner_to_sufix inner)
          >> pure (to_outer_block inner)
        else pure empty_block)

  unfoldable pub deallocate : Block → Op A.State Block
  unfolding outer_to_prefix destroy_at
  deallocate b = if not (is_set b) then pure b else (do
    destroy_at prefix (outer_to_prefix b)
    destroy_at sufix (outer_to_sufix b)
    A.deallocate (to_inner_block b)
    pure empty_block)

  pub owns : A.State → Block → Bool
  owns s b = is_set b && A.owns s (to_inner_block b)

  -- The bytes of the object at `from`, as they were in the memory `old`, are copied to `to`.
  pub copy_sufix : Memory → ℕ → ℕ → Op A.State (Unit {0})
  copy_sufix old from to = on_memory (λ m a.
      if ltb a to then m a else if ltb a (to + sufix.size) then old (from + (a - to)) else m a)

  -- After a change of the inner block, the old object is placed behind the new one.
  pub resized : Block → Memory → Bool × Block → Op A.State (Bool × Block)
  unfolding copy_sufix
  resized b old (done, inner) =
      if done
      then copy_sufix old (outer_to_sufix b) (inner_to_sufix inner)
        >> pure (true, to_outer_block inner)
      else pure (false, b)

  -- `expand`, if the parent has it. The object is copied after the parent's call.
  unfoldable pub expand :
      (Block → ℕ → Op A.State (Bool × Block)) → Block → ℕ → Op A.State (Bool × Block)
  unfolding resized
  expand parent_expand b delta =
      if delta == 0
      then pure (true, b)
      else if not (is_set b)
      then (do b' ← allocate delta; pure (is_set b', b'))
      else (do
        r ← parent_expand (to_inner_block b) delta
        now ← (λ s m. (m, s, m))
        resized b now r)

  unfoldable pub expand_member :
      Option (Block → ℕ → Op A.State (Bool × Block))
      → Option (Block → ℕ → Op A.State (Bool × Block))
  expand_member none = none
  expand_member (some parent_expand) = some (expand parent_expand)

  -- The object behind the block is remembered before the parent's call.
  unfoldable pub reallocate : Block → ℕ → Op A.State (Bool × Block)
  unfolding resized
  reallocate b n = do
    (handled, b') ← is_handled_default allocate deallocate (expand_member A.expand) b n
    before ← (λ s m. (m, s, m))
    if handled then pure (true, b') else (do
      r ← A.reallocate (to_inner_block b') (add64 (add64 n prefix.size) sufix.size)
      resized b' before r)

  -- The class as a template argument
  abbrev pub affix_allocator : Allocator
  affix_allocator = record {
    State = A.State;
    supports_truncated_deallocation = A.supports_truncated_deallocation;
    allocate = allocate;
    deallocate = deallocate;
    reallocate = reallocate;
    owns = owns;
    expand = expand_member A.expand;
    deallocate_all = none;
  }
