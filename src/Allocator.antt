-- ===== src/Allocator.antt =====
-- What the combinators ask of the allocators that they are built from (their template parameters),
-- with the choices that alb/internal/traits.hpp makes at compile time.
pub mod Blocks
pub mod Contract
pub mod Client
use allocator_builder.Base.{ℕ, Bool, true, false, Option, none, some}
use allocator_builder.Block.{Block}
use allocator_builder.Op.{Op, pure}

-- `expand` and `deallocate_all` are `none` where the class has no such member, which is what
-- `has_expand` and `has_deallocateAll` test. `owns` of a class without it is never called.
pub record Allocator : Type 1 where
  pub State : Type 0
  pub supports_truncated_deallocation : Bool
  pub allocate : ℕ → Op State Block
  pub deallocate : Block → Op State Block
  pub reallocate : Block → ℕ → Op State (Bool × Block)
  pub owns : State → Block → Bool
  pub expand : Option (Block → ℕ → Op State (Bool × Block))
  pub deallocate_all : Option (Op State (Unit {0}))

abbrev pub has {ℓ} : {A : Type ℓ} → Option A → Bool
has none = false
has (some _) = true

-- `traits::Expander`
abbrev pub expander :
    {S : Type 0} → Option (Block → ℕ → Op S (Bool × Block)) → Block → ℕ → Op S (Bool × Block)
expander none b delta = pure (false, b)
expander (some expand) b delta = expand b delta

-- `traits::AllDeallocator`
abbrev pub all_deallocator : {S : Type 0} → Option (Op S (Unit {0})) → Op S (Unit {0})
all_deallocator none = pure tt
all_deallocator (some deallocate_all) = deallocate_all
