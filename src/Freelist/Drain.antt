-- ===== src/Freelist/Drain.antt =====
-- The destructor of alb/freelist.hpp.
use allocator_builder.Base.{ℕ, zero, suc, ◌+◌, ◌<◌, ◌≡◌, refl, arith, List, [], ◌∷◌, length}
use allocator_builder.Block.{Memory}
use allocator_builder.Allocator.{Allocator}
use allocator_builder.Stack.{pop}
use allocator_builder.Stack.Refine.{Represents, Holds-length, pop-Represents}
use allocator_builder.Freelist.{Freelist, drain, destroy}

module _ (A : Allocator) (pool_size batches : ℕ) where
  -- The blocks of `size` bytes at the addresses go back to the parent, one after the other.
  abbrev pub give_back : List ℕ → ℕ → A.State → Memory → A.State × Memory
  give_back [] size s m = (s, m)
  give_back (p ∷ l) size s m =
      let (_, s', m') = A.deallocate (record { ptr = p; length = size }) s m in
      give_back l size s' m'

  -- What is left behind: the parent and the memory are as given, and the pool is empty.
  abbrev pub Drained : A.State × Memory → Unit {0} × Freelist A pool_size batches × Memory → Type 0
  Drained (s, m) (_, f, m') = (f.parent ≡ s) × (m' ≡ m) × Represents pool_size f.root []

  drain-Drained :
      (l : List ℕ) (rounds : ℕ) (f : Freelist A pool_size batches) (m : Memory)
      → Represents pool_size f.root l
      → length l < rounds
      → Drained (give_back l f.upper_bound f.parent m) (drain A pool_size batches rounds f m)
  unfolding drain
  drain-Drained l zero f m r enough = absurd (omega arith)
  drain-Drained [] (suc rounds) f m r enough =
      let top = pop-Represents 0 r in rw top.0 (refl, refl, top.1)
  drain-Drained (p ∷ l) (suc rounds) f m r enough =
      let top = pop-Represents 0 r in
      let (_, s', m') = A.deallocate (record { ptr = p; length = f.upper_bound }) f.parent m in
      rw top.0 (
        drain-Drained l rounds (record f { parent = s'; root = (pop 0 f.root).1 }) m' top.1
          (omega arith))

  -- The destructor ends after as many rounds as the pool has blocks: each of them goes back to the
  -- parent once, the newest first, as a block of the full size of the list, and the pool is empty.
  pub destroy-Drained :
      (l : List ℕ) (f : Freelist A pool_size batches) (m : Memory)
      → Represents pool_size f.root l
      → Drained (give_back l f.upper_bound f.parent m) (destroy A pool_size batches f m)
  unfolding destroy
  destroy-Drained l f m r =
      drain-Drained l (f.root.used + 1) f m r (omega (arith, Holds-length r.holds))
