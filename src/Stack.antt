-- ===== src/Stack.antt =====
-- alb/internal/stack.hpp: a stack in an array of fixed size, with the interface of the lock-free one.
pub mod Refine
mod Tests
use allocator_builder.Base.{
  ℕ, ◌+◌, ◌-◌, Bool, true, false, List, get_or, set, not, ltb, leb_int, int_of, ◌==◌, if◌then◌else◌,
}

-- `used` is `_pos + 1`: the position counts from -1 for the empty stack.
pub record Stack (T : Type 0) : Type 0 where
  pub elements : List T
  pub used : ℕ

module _ {T : Type 0} where
  unfoldable pub init : List T → Stack T
  init elements = record { elements = elements; used = 0 }

  -- The template parameter `MaxSize` comes first. The code compares `_pos` with its `int` less 1.
  unfoldable pub push : ℕ → T → Stack T → Bool × Stack T
  push max_size v s =
      if not (leb_int (int_of max_size) s.used)
      then (true, record { elements = set s.elements s.used v; used = s.used + 1 })
      else (false, s)

  -- The value that the reference argument holds goes in and comes out.
  unfoldable pub pop : T → Stack T → (Bool × T) × Stack T
  pop v s =
      if ltb 0 s.used
      then ((true, get_or s.elements (s.used - 1) v), record s { used = s.used - 1 })
      else ((false, v), s)

  pub empty : Stack T → Bool
  empty s = s.used == 0
