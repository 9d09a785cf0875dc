-- ===== src/MemoryCorruptionDetector.antt =====
-- alb/memory_corruption_detector.hpp: a guard word with a pattern, before or behind a block. Its type is
-- taken to be unsigned.
pub mod Guard
mod Tests
use allocator_builder.Base.{ℕ, Bool, ◌==◌}
use allocator_builder.Block.{Memory}
use allocator_builder.Block.Bytes.{write_bytes, read_bytes}
use allocator_builder.AffixAllocator.{Affix}

-- The constructor: `_pattern` is of a type of `size` bytes, to which the pattern is cut.
unfoldable pub construct : (size pattern : ℕ) → ℕ → Memory → Memory
construct size pattern a = write_bytes size a pattern

-- What the destructor asserts
unfoldable pub holds : (size pattern : ℕ) → ℕ → Memory → Bool
holds size pattern a m = read_bytes size a m == pattern

-- The detector as an object of affix_allocator. The assertion of the destructor does nothing in a
-- release build.
abbrev pub detector : (size pattern : ℕ) → Affix
detector size pattern = record {
  size = size;
  construct = construct size pattern;
  destroy = λ a m. m;
}
