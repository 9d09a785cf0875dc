-- ===== src/CascadingAllocator/Tests.antt =====
-- A list of small bump allocators.
use allocator_builder.Base.{
  ℕ, min, ◌+◌, ◌*◌, ◌≡◌, ◌⊎◌, refl, arith, true, false, ◌&&◌, none, some, List, [], ◌∷◌, ◌++◌, leb,
  if◌then◌else◌,
}
use allocator_builder.Block.{Block, Memory, empty_block, round_to_alignment}
use allocator_builder.Op.{pure}
use allocator_builder.Allocator.{Allocator}
use allocator_builder.CascadingAllocator.{
  Node, Cascade, allocate_no_grow, create_node, try_nodes, append_node, grow, allocate,
  find_owning_node, owns, deallocate, deallocate_all, erase_node, then_do,
}
use allocator_builder.CascadingAllocator.Lifetime.{
  init, move_assign, destroy, destroy-deallocate_all,
}
use allocator_builder.CascadingAllocator.Owned.{AllGood}
use allocator_builder.CascadingAllocator.Parts.{Below, stack-Gives}
use allocator_builder.StackAllocator
use allocator_builder.StackAllocator.{Arena, stack_allocator}
use allocator_builder.CascadingAllocator.Serves.{owns-allocate, allocate_undefined}
use allocator_builder.CascadingAllocator.Routes.{NoOwner, deallocate-Owner}

-- The state is the next address and the end; blocks are given back in reverse only.
abbrev bump : Allocator
bump = record {
  State = ℕ × ℕ;
  supports_truncated_deallocation = false;
  allocate = λ n (p, end) m.
      if leb (p + n) end && leb end (p + 100)
      then (record { ptr = p; length = n }, (p + n, end), m)
      else (empty_block, (p, end), m);
  deallocate = λ b (p, end) m.
      (empty_block, (if leb p (b.ptr + b.length) then (b.ptr, end) else (p, end)), m);
  reallocate = λ b n. pure (false, b);
  owns = λ (p, end) b. leb (b.ptr + b.length) p && leb end (b.ptr + 100);
  expand = none;
  deallocate_all = none;
}

abbrev create : ℕ → ℕ × ℕ
create k = (1000 * (k + 1), 1000 * (k + 1) + 100)

abbrev memory : Memory
memory a = 0

abbrev new_list : Cascade bump 24 create
new_list = record { nodes = []; dangling = false; created = 0 }

abbrev node : ℕ → ℕ → Node bump 24 create
node at used = record { allocator = (at + used, at + 100); address = at; allocated_this_size = 24 }

-- Each of the two requests of 60 bytes makes a node.
first_request :
    allocate bump 24 create 60 new_list memory
    ≡ some (
      record { ptr = 1024; length = 60 },
      record { nodes = node 1000 84 ∷ []; dangling = false; created = 1 },
      memory,
    )
unfolding allocate try_nodes grow create_node append_node allocate_no_grow
first_request = refl

abbrev two_nodes : Cascade bump 24 create
two_nodes = record { nodes = node 1000 84 ∷ node 2000 84 ∷ []; dangling = false; created = 2 }

second_request :
    allocate bump 24 create 60
      (record { nodes = node 1000 84 ∷ []; dangling = false; created = 1 })
      memory
    ≡ some (record { ptr = 2024; length = 60 }, two_nodes, memory)
unfolding allocate try_nodes grow create_node append_node allocate_no_grow
second_request = refl

-- After `deallocateAll` every use of the list reads through the pointer that dangles.
use_after_deallocate_all :
    deallocate_all bump 24 create two_nodes memory
    ≡ some (tt, record { nodes = []; dangling = true; created = 2 }, memory)
unfolding deallocate_all erase_node
use_after_deallocate_all = refl

-- Its destructor is such a use.
destroyed_after_deallocate_all :
    then_do bump 24 create
      (λ _. destroy bump 24 create)
      (deallocate_all bump 24 create two_nodes memory)
    ≡ none
destroyed_after_deallocate_all = destroy-deallocate_all bump 24 create two_nodes memory refl refl

-- Nodes that are moved to an empty object leave the first one without any.
moved :
    move_assign bump 24 create (some two_nodes) new_list memory
    ≡ some (
      some (init bump 24 create 2),
      record { nodes = two_nodes.nodes; dangling = false; created = 0 },
      memory,
    )
unfolding move_assign deallocate_all erase_node
moved = refl

-- A list of arrays of 100 bytes
abbrev stacks : Allocator
stacks = stack_allocator 100 8

abbrev new_array : ℕ → Arena
new_array k = record { base = 1000 * (min k 9 + 1); p = 1000 * (min k 9 + 1) }

new_array-Below : (k : ℕ) → Below 100 10000 (new_array k)
new_array-Below k = (
  record {
    nonnull = omega arith;
    fits = omega arith;
    from_base = omega arith;
    to_end = omega arith;
  },
  omega arith,
)

abbrev no_stacks : Cascade stacks 24 new_array
no_stacks = record { nodes = []; dangling = false; created = 0 }

abbrev one_stack : Cascade stacks 24 new_array
one_stack = record {
  nodes =
      record {
        allocator = record { base = 1000; p = 1088 };
        address = 1000;
        allocated_this_size = 24;
      }
      ∷ [];
  dangling = false;
  created = 1;
}

first_stack :
    allocate stacks 24 new_array 60 no_stacks memory
    ≡ some (record { ptr = 1024; length = 64 }, one_stack, memory)
unfolding allocate try_nodes grow create_node append_node allocate_no_grow StackAllocator.allocate
    round_to_alignment
first_stack = refl

owns-allocate_example :
    (owns stacks 24 new_array (record { ptr = 1024; length = 64 }) one_stack memory
      ≡ some (true, one_stack, memory))
    × AllGood stacks 24 new_array (Below 100 10000) one_stack.nodes
owns-allocate_example =
    owns-allocate stacks 24 new_array (Below 100 10000) 60
      (stack-Gives 100 8 10000 24 60 new_array (omega arith) (omega arith))
      (stack-Gives 100 8 10000 24 24 new_array (omega arith) (omega arith)) new_array-Below
      no_stacks memory (record { ptr = 1024; length = 64 }) one_stack memory (omega arith) refl tt
      first_stack refl

-- An allocator that has no room for a node
abbrev full_create : ℕ → ℕ × ℕ
full_create k = (1000, 1010)

abbrev full_list : Cascade bump 24 full_create
full_list = record { nodes = []; dangling = false; created = 0 }

no_first_node : allocate bump 24 full_create 60 full_list memory ≡ none
unfolding allocate try_nodes grow create_node append_node allocate_no_grow
no_first_node = refl

allocate_undefined_example :
    (false ≡ true)
    ⊎ ((full_list.nodes ≡ []) × ((create_node bump 24 full_create 0 memory).0 ≡ none))
allocate_undefined_example =
    allocate_undefined bump 24 full_create 60 full_list memory no_first_node

deallocate-Owner_example :
    let b : Block = record { ptr = 2024; length = 60 } in
    (NoOwner bump 24 create b two_nodes.nodes
      × (find_owning_node bump 24 create two_nodes.nodes b ≡ none)
      × (deallocate bump 24 create b two_nodes memory ≡ some (b, two_nodes, memory)))
    ⊎ ((before : List (Node bump 24 create)) × (owner : Node bump 24 create) × (after : List
          (Node bump 24 create))
        × (two_nodes.nodes ≡ before ++ (owner ∷ after))
        × NoOwner bump 24 create b before
        × (bump.owns owner.allocator b ≡ true)
        × (find_owning_node bump 24 create two_nodes.nodes b ≡ some owner)
        × (deallocate bump 24 create b two_nodes memory
            ≡ some (
              (bump.deallocate b owner.allocator memory).0,
              record two_nodes {
                nodes =
                    before
                    ++ (record owner { allocator = (bump.deallocate b owner.allocator memory).1 }
                        ∷ after);
              },
              (bump.deallocate b owner.allocator memory).2,
            )))
deallocate-Owner_example =
    deallocate-Owner bump 24 create (record { ptr = 2024; length = 60 }) two_nodes memory refl refl
