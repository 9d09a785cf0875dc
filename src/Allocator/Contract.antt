-- ===== src/Allocator/Contract.antt =====
-- What a client may rely on of an allocator: the interface between a combinator and its parts.
use allocator_builder.Base.{ℕ, ◌≤◌, ◌≡◌, true, ◌⊎◌, List, ◌∷◌}
use allocator_builder.Block.{Block, empty_block, is_set, Memory}
use allocator_builder.Allocator.{Allocator}
use allocator_builder.Allocator.Blocks.{All, Pairwise, Removes}

-- `Inv s held`: in the state `s` the client holds the blocks `held`.
pub record Contract (A : Allocator) : Type 1 where
  pub Inv : A.State → List Block → Type 0
  -- The requests for which nothing wraps around
  pub Fits : ℕ → Type 0
  -- What is known of every block of this allocator, such as where it lies
  pub Gives : Block → Type 0
  pub inside : {s : A.State} {held : List Block} → Inv s held → All Gives held
  pub apart : {s : A.State} {held : List Block} → Inv s held → Pairwise held
  pub allocates :
      {s : A.State} {held : List Block} (n : ℕ) (m : Memory)
      → Fits n
      → Inv s held
      → let (b, s', m') = A.allocate n s m in
        (m' ≡ m)
        × (((b ≡ empty_block) × Inv s' held)
            ⊎ ((is_set b ≡ true) × (n ≤ b.length) × Inv s' (b ∷ held)))
  pub deallocates :
      {s : A.State} {b : Block} {held held' : List Block} (m : Memory)
      → Inv s held
      → Removes b held held'
      → let (b', s', m') = A.deallocate b s m in (b' ≡ empty_block) × (m' ≡ m) × Inv s' held'
  pub all_set : {s : A.State} {held : List Block} → Inv s held → All (λ b. is_set b ≡ true) held
