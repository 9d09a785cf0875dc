-- ===== src/StackAllocator.antt =====
-- alb/stack_allocator.hpp: a bump allocator over an array of its own.
pub mod Bounds
pub mod Resize
pub mod Serves
mod Tests
use allocator_builder.Base.{
  ℕ, ◌≤◌, ◌<◌, Bool, true, false, not, ◌&&◌, some, ◌==◌, leb, ltb, if◌then◌else◌, add64,
}
use allocator_builder.Block.{
  Block, empty_block, reset, is_set, round_to_alignment, Memory, block_copy,
}
use allocator_builder.Allocator.{Allocator}

-- `base` is the address of the array `_data`, which stays where it is.
pub record Arena : Type 0 where
  pub base : ℕ
  pub p : ℕ

-- The template parameters
module _ (max_size alignment : ℕ) where
  unfoldable pub init : ℕ → Arena
  init base = record { base = base; p = base }

  pub is_last_used_block : Arena → Block → Bool
  is_last_used_block s b = add64 b.ptr b.length == s.p

  unfoldable pub owns : Arena → Block → Bool
  owns s b = is_set b && (leb s.base b.ptr && ltb b.ptr (add64 s.base max_size))

  unfoldable pub allocate : ℕ → Arena → Block × Arena
  allocate n s =
      let aligned = round_to_alignment alignment n in
      if n == 0
      then (empty_block, s)
      else if ltb (add64 s.base max_size) (add64 aligned s.p)
      then (empty_block, s)
      else (record { ptr = s.p; length = aligned }, record s { p = add64 s.p aligned })

  pub deallocate : Block → Arena → Block × Arena
  unfolding owns is_last_used_block
  deallocate b s =
      if not (is_set b)
      then (b, s)
      else if not (owns s b)
      then (b, s)
      else (reset b, if is_last_used_block s b then record s { p = b.ptr } else s)

  -- The last used block grows or shrinks where it stands.
  resize_last : Block → ℕ → Arena → Memory → (Bool × Block) × Arena × Memory
  resize_last b aligned s m =
      if leb (add64 b.ptr aligned) (add64 s.base max_size)
      then ((true, record b { length = aligned }), record s { p = add64 b.ptr aligned }, m)
      else ((false, b), s, m)

  -- Any other block moves to the end of the used part.
  move_to_end : Block → ℕ → Arena → Memory → (Bool × Block) × Arena × Memory
  move_to_end b aligned s m =
      let (new_block, s') = allocate aligned s in
      if is_set new_block
      then ((true, new_block), s', block_copy b new_block m)
      else ((false, b), s', m)

  pub reallocate : Block → ℕ → Arena → Memory → (Bool × Block) × Arena × Memory
  unfolding is_last_used_block resize_last
  reallocate b n s m =
      let aligned = round_to_alignment alignment n in
      if b.length == n
      then ((true, b), s, m)
      else if n == 0
      then (let (b', s') = deallocate b s in ((true, b'), s', m))
      else if not (is_set b)
      then (let (b', s') = allocate n s in ((true, b'), s', m))
      else if is_last_used_block s b
      then resize_last b aligned s m
      else if ltb n b.length
      then ((true, record b { length = aligned }), s, m)
      else move_to_end b aligned s m

  -- The block grows only at the end of the used part.
  grow_last : Block → ℕ → Arena → (Bool × Block) × Arena
  grow_last b aligned s =
      if ltb (add64 s.base max_size) (add64 s.p aligned) then ((false, b), s) else (
        (true, record b { length = add64 b.length aligned }),
        record s { p = add64 s.p aligned },
      )

  pub expand : Block → ℕ → Arena → (Bool × Block) × Arena
  unfolding is_last_used_block grow_last
  expand b delta s =
      if delta == 0
      then ((true, b), s)
      else if not (is_set b)
      then (let (b', s') = allocate delta s in ((is_set b', b'), s'))
      else if not (is_last_used_block s b)
      then ((false, b), s)
      else grow_last b (round_to_alignment alignment delta) s

  pub deallocate_all : Arena → Arena
  deallocate_all s = record s { p = s.base }

  -- The class as a template argument
  abbrev pub stack_allocator : Allocator
  stack_allocator = record {
    State = Arena;
    supports_truncated_deallocation = true;
    allocate = λ n s m. let (b, s') = allocate n s in (b, s', m);
    deallocate = λ b s m. let (b', s') = deallocate b s in (b', s', m);
    reallocate = reallocate;
    owns = owns;
    expand = some (λ b delta s m. let (r, s') = expand b delta s in (r, s', m));
    deallocate_all = some (λ s m. (tt, deallocate_all s, m));
  }
