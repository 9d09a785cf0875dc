-- ===== src/CascadingAllocator/Lifetime.antt =====
-- The constructor, the move assignment and the destructor of alb/cascading_allocator.hpp.
use allocator_builder.Base.{◌≡◌, ℕ, refl, false, Option, none, some, [], not}
use allocator_builder.Block.{Memory}
use allocator_builder.Allocator.{Allocator}
use allocator_builder.CascadingAllocator.{
  Cascade, Act, result, then_do, deallocate_all, erase_node, is_empty,
}

module _ (A : Allocator) (node_size : ℕ) (create : ℕ → A.State) where
  -- `created` is how many allocators have been made by then.
  abbrev pub init : ℕ → Cascade A node_size create
  init created = record { nodes = []; dangling = false; created = created }

  -- `operator=`, also the move constructor. The source is none where it is the object itself, and
  -- what becomes of it is the result.
  unfoldable pub move_assign :
      Option (Cascade A node_size create)
      → Act A node_size create (Option (Cascade A node_size create))
  move_assign none s m = result A node_size create none s m
  move_assign (some x) s m =
      then_do A node_size create
        (λ _ t w. some (
          some (record x { nodes = []; dangling = false }),
          record t { nodes = x.nodes; dangling = x.dangling },
          w,
        ))
        (deallocate_all A node_size create s m)

  -- The destructor
  pub destroy : Act A node_size create (Unit {0})
  destroy s m = deallocate_all A node_size create s m

  -- An object takes the nodes of another one; its destructor then gives these back, after the ones
  -- that it had, and the other object has none left.
  destroy-move_assign :
      (s x : Cascade A node_size create) (m : Memory)
      → s.dangling ≡ false
      → x.dangling ≡ false
      → (then_do A node_size create
            (λ moved t w.
              then_do A node_size create (λ _. result A node_size create moved) (destroy t w))
            (move_assign (some x) s m)
          ≡ some (
            some (init x.created),
            record s { nodes = []; dangling = not (is_empty A node_size create x.nodes) },
            erase_node A node_size create x.nodes (erase_node A node_size create s.nodes m),
          ))
  unfolding move_assign destroy deallocate_all
  destroy-move_assign s x m sd xd = rw (sd, xd) refl

  -- The destructor of an object whose nodes `deallocateAll` has given back reads the first of them.
  pub destroy-deallocate_all :
      (s : Cascade A node_size create) (m : Memory)
      → s.dangling ≡ false
      → is_empty A node_size create s.nodes ≡ false
      → then_do A node_size create (λ _. destroy) (deallocate_all A node_size create s m) ≡ none
  unfolding destroy deallocate_all
  destroy-deallocate_all s m sd some_node = rw (sd, some_node) refl
