-- ===== src/AlignedMallocator.antt =====
-- alb/aligned_mallocator.hpp: the system's functions for aligned memory behind the interface of an
-- allocator. `realloc` is the branch for MSVC; the other one does not compile.
pub mod Cases
mod Tests
use allocator_builder.Base.{ℕ, Bool, true, false, not, none, ◌==◌, if◌then◌else◌}
use allocator_builder.Block.{Block, reset, is_set}
use allocator_builder.Op.{Op, ◌>>=◌, ◌>>◌, pure}
use allocator_builder.Allocator.{Allocator}
use allocator_builder.Reallocator.{is_handled_default}

-- The system: its state and its functions `_aligned_malloc` or `memalign`, `_aligned_realloc`, and
-- `_aligned_free` or `free`. They take the alignment last, and give 0 for `nullptr`.
module _ {S : Type 0} (malloc : ℕ → ℕ → Op S ℕ) (realloc : ℕ → ℕ → ℕ → Op S ℕ)
    (free : ℕ → Op S (Unit {0})) (alignment : ℕ) where
  -- The result of the system is not tested.
  unfoldable pub allocate : ℕ → Op S Block
  allocate n = do p ← malloc n alignment; pure (record { ptr = p; length = n })

  unfoldable pub deallocate : Block → Op S Block
  deallocate b = if is_set b then free b.ptr >> pure (reset b) else pure b

  unfoldable pub aligned_reallocate : Block → ℕ → Op S (Bool × Block)
  aligned_reallocate b n = do
    p ← realloc b.ptr n alignment
    if not (p == 0) then pure (true, record { ptr = p; length = n }) else pure (false, b)

  unfoldable pub reallocate : Block → ℕ → Op S (Bool × Block)
  reallocate b n = do
    (handled, b') ← is_handled_default allocate deallocate none b n
    if handled then pure (true, b') else aligned_reallocate b' n

  -- The class as a template argument; it has no `owns`.
  abbrev pub aligned_mallocator : Allocator
  aligned_mallocator = record {
    State = S;
    supports_truncated_deallocation = false;
    allocate = allocate;
    deallocate = deallocate;
    reallocate = reallocate;
    owns = λ s b. false;
    expand = none;
    deallocate_all = none;
  }
