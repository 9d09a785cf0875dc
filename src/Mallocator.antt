-- ===== src/Mallocator.antt =====
-- alb/mallocator.hpp: the system's functions behind the interface of an allocator.
mod Tests
use allocator_builder.Base.{ℕ, Bool, true, false, not, none, ◌==◌, if◌then◌else◌}
use allocator_builder.Block.{Block, empty_block, reset, is_set}
use allocator_builder.Op.{Op, ◌>>=◌, ◌>>◌, pure}
use allocator_builder.Allocator.{Allocator}
use allocator_builder.Reallocator.{is_handled_default}

-- The system: its state and its three functions, which give 0 for `nullptr`
module _ {S : Type 0} (malloc : ℕ → Op S ℕ) (realloc : ℕ → ℕ → Op S ℕ)
    (free : ℕ → Op S (Unit {0})) where
  unfoldable pub allocate : ℕ → Op S Block
  allocate n = if n == 0 then pure empty_block else (do
    p ← malloc n
    if not (p == 0) then pure (record { ptr = p; length = n }) else pure empty_block)

  unfoldable pub deallocate : Block → Op S Block
  deallocate b = if is_set b then free b.ptr >> pure (reset b) else pure b

  -- The part of `reallocate` behind the cases that all allocators share
  unfoldable pub resize : Block → ℕ → Op S (Bool × Block)
  resize b n = do
    p ← realloc b.ptr n
    if not (p == 0) then pure (true, record { ptr = p; length = n }) else pure (false, b)

  unfoldable pub reallocate : Block → ℕ → Op S (Bool × Block)
  reallocate b n = do
    (handled, b') ← is_handled_default allocate deallocate none b n
    if handled then pure (true, b') else resize b' n

  -- The class as a template argument; it has no `owns`.
  abbrev pub mallocator : Allocator
  mallocator = record {
    State = S;
    supports_truncated_deallocation = false;
    allocate = allocate;
    deallocate = deallocate;
    reallocate = reallocate;
    owns = λ s b. false;
    expand = none;
    deallocate_all = none;
  }
