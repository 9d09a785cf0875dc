-- ===== src/Allocator/Client.antt =====
-- A client of an allocator: any sequence of allocations and releases of blocks that it holds.
use allocator_builder.Base.{ℕ, ◌≡◌, inl, inr, true, List, [], ◌∷◌, arith}
use allocator_builder.Block.{Block, empty_block, is_set, Memory}
use allocator_builder.Allocator.{Allocator}
use allocator_builder.Allocator.Blocks.{Pairwise, Removes}
use allocator_builder.Allocator.Contract.{Contract}

module _ (A : Allocator) where
  -- One call; the memory may hold anything, since the client writes to it. `Fits` are the requests
  -- that the client makes.
  pub data Step (Fits : ℕ → Type 0) (s : A.State) (held : List Block)
      : A.State → List Block → Type 0 where
    refused :
        (n : ℕ) (m : Memory)
        → Fits n
        → (A.allocate n s m).0 ≡ empty_block
        → Step Fits s held (A.allocate n s m).1 held
    granted :
        (n : ℕ) (m : Memory)
        → Fits n
        → is_set (A.allocate n s m).0 ≡ true
        → Step Fits s held (A.allocate n s m).1 ((A.allocate n s m).0 ∷ held)
    released :
        {b : Block} {held' : List Block} (m : Memory)
        → Removes b held held'
        → Step Fits s held (A.deallocate b s m).1 held'

  pub data Reach (Fits : ℕ → Type 0) (s : A.State) : A.State → List Block → Type 0 where
    begin : Reach Fits s s []
    next :
        {t t' : A.State} {held held' : List Block}
        → Reach Fits s t held
        → Step Fits t held t' held'
        → Reach Fits s t' held'

  module _ (c : Contract A) where
    pub Step-Inv :
        {s s' : A.State} {held held' : List Block}
        → Step c.Fits s held s' held'
        → c.Inv s held
        → c.Inv s' held'
    Step-Inv (refused n m fits e) i = elim (c.allocates n m fits i).1 [
      | inl (_, k) ↦ k
      | inr (set, _, _) ↦ absurd (ground (arith, set, e))
    ]
    Step-Inv (granted n m fits e) i = elim (c.allocates n m fits i).1 [
      | inl (none_left, _) ↦ absurd (ground (arith, none_left, e))
      | inr (_, _, k) ↦ k
    ]
    Step-Inv (released m r) i = (c.deallocates m i r).2

    pub Reach-Inv :
        {s s' : A.State} {held : List Block} → c.Inv s [] → Reach c.Fits s s' held → c.Inv s' held
    Reach-Inv i begin = i
    Reach-Inv i (next r step) = Step-Inv step (Reach-Inv i r)

    -- Where the contract holds at the beginning, no two of the blocks that the client ever holds
    -- at a time share a byte.
    pub Reach-Pairwise :
        {s s' : A.State} {held : List Block} → c.Inv s [] → Reach c.Fits s s' held → Pairwise held
    Reach-Pairwise i r = c.apart (Reach-Inv i r)
