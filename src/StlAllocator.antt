-- ===== src/StlAllocator.antt =====
-- alb/stl_allocator.hpp and alb/global_allocator.hpp: an allocator for the containers of the standard
-- library. All objects of the class share the one instance that `global_allocator` holds, so its
-- state is the state here.
pub mod Lengths
mod Tests
use allocator_builder.Base.{
  ℕ, ◌-◌, ◌/◌, ◌%◌, ◌^◌, Option, none, some, if◌then◌else◌, word_mod, mul64,
}
use allocator_builder.Block.{Block, is_set}
use allocator_builder.Block.Bytes.{write_bytes, read_bytes}
use allocator_builder.Op.{Op, ◌>>=◌, ◌>>◌, pure, on_memory}
use allocator_builder.Allocator.{Allocator}
use allocator_builder.AffixAllocator.{Affix}

-- `length_prefix`: one `unsigned`, which `Prefix{}` sets to 0
abbrev pub length_prefix : Affix
length_prefix = record { size = 4; construct = λ p m. write_bytes 4 p 0 m; destroy = λ p m. m }

-- `T` by its size, and the allocator with its `outerToPrefix`
module _ (size : ℕ) (A : Allocator) (outer_to_prefix : Block → ℕ) where
  -- `none` is the exception `std::bad_alloc`.
  unfoldable pub allocate : ℕ → Op A.State (Option ℕ)
  allocate n = do
    b ← A.allocate (mul64 n size)
    if is_set b
        then on_memory (write_bytes 4 (outer_to_prefix b) (b.length % 2 ^ 32)) >> pure (some b.ptr)
        else pure none

  -- `n` is the number of objects, and the length of the block that the prefix is looked up for.
  unfoldable pub deallocate : ℕ → ℕ → Op A.State (Unit {0})
  deallocate ptr n = do
    length ← (λ s m. (read_bytes 4 (outer_to_prefix (record { ptr = ptr; length = n })) m, s, m))
    A.deallocate (record { ptr = ptr; length = length })
    pure tt

  unfoldable pub max_size : ℕ
  max_size = (word_mod - 1) / size
