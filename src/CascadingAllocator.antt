-- ===== src/CascadingAllocator.antt =====
-- alb/cascading_allocator.hpp: a list of allocators of one kind that grows on demand. Each node of the
-- list lies in memory of its own allocator. One thread uses it, and no exchange fails spuriously.
pub mod Owned
pub mod Parts
pub mod Serves
pub mod Routes
pub mod Lifetime
mod Tests
use allocator_builder.Base.{
  ℕ, zero, suc, ◌+◌, Bool, true, false, not, Option, none, some, List, [], ◌∷◌, ◌++◌, ◌==◌,
  if◌then◌else◌,
}
use allocator_builder.Block.{Block, empty_block, is_set, Memory, block_copy}
use allocator_builder.Op.{Op}
use allocator_builder.Allocator.{Allocator}

-- `sizeof(Node)`, and the allocators that the default constructor makes, one after another
module _ (A : Allocator) (node_size : ℕ) (create : ℕ → A.State) where
  pub record Node : Type 0 where
    pub allocator : A.State
    pub address : ℕ
    pub allocated_this_size : ℕ

  -- `_root` and the `next` of each node as a list. After `deallocateAll` the pointer `_root` still
  -- stands where the first node was: it dangles.
  pub record Cascade : Type 0 where
    pub nodes : List Node
    pub dangling : Bool
    pub created : ℕ

  -- An operation; none where it reads through a null pointer or one that dangles.
  abbrev pub Act : Type 0 → Type 0
  Act X = Cascade → Memory → Option (X × Cascade × Memory)

  abbrev pub result : {X : Type 0} → X → Act X
  result x s m = some (x, s, m)

  abbrev pub then_do :
      {X Y : Type 0} → (X → Act Y) → Option (X × Cascade × Memory) → Option (Y × Cascade × Memory)
  then_do f none = none
  then_do f (some (x, s, m)) = f x s m

  -- `allocateNoGrow`
  unfoldable pub allocate_no_grow : ℕ → List Node → Memory → Block × List Node × Memory
  allocate_no_grow n [] m = (empty_block, [], m)
  allocate_no_grow n (node ∷ []) m =
      let (b, s, m') = A.allocate n node.allocator m in (b, record node { allocator = s } ∷ [], m')
  allocate_no_grow n (node ∷ next ∷ rest) m =
      let (b, s, m') = A.allocate n node.allocator m in
      let (b', rest', m'') = allocate_no_grow n (next ∷ rest) m' in
      if is_set b
      then (b, record node { allocator = s } ∷ next ∷ rest, m')
      else (b', record node { allocator = s } ∷ rest', m'')

  -- `createNode`, none for nullptr
  unfoldable pub create_node : ℕ → Memory → Option Node × Memory
  create_node created m =
      let (b, s, m') = A.allocate node_size (create created) m in
      if b.ptr == 0
      then (none, m')
      else (some (record { allocator = s; address = b.ptr; allocated_this_size = b.length }), m')

  abbrev pub append : List Node → Option Node → List Node
  append nodes none = nodes
  append nodes (some node) = nodes ++ (node ∷ [])

  -- `allocateNoGrow` on the members
  unfoldable pub try_nodes : ℕ → Act Block
  try_nodes n s m =
      let (b, nodes, m') = allocate_no_grow n s.nodes m in some (b, record s { nodes = nodes }, m')

  -- A new node is made and put behind the last one, none if there is no first one to begin with.
  unfoldable pub append_node : Act (Unit {0})
  append_node s m =
      let (node, m') = create_node s.created m in
      elim s.nodes [
        | [] ↦ none
        | first ∷ rest ↦
            some (tt, record s { nodes = append (first ∷ rest) node; created = s.created + 1 }, m')
      ]

  -- The part of `allocate` behind the first search
  unfoldable pub grow : ℕ → Act Block
  grow n s m = elim s.nodes [
    | [] ↦
        let (node, m') = create_node s.created m in
        then_do
          (λ b. if is_set b then result b else λ t w. then_do (λ _. try_nodes n) (append_node t w))
          (try_nodes n (record s { nodes = append [] node; created = s.created + 1 }) m')
    | first ∷ rest ↦ then_do (λ _. try_nodes n) (append_node s m)
  ]

  unfoldable pub allocate : ℕ → Act Block
  allocate n s m =
      if n == 0
      then some (empty_block, s, m)
      else if s.dangling
      then none
      else then_do (λ b. if is_set b then result b else grow n) (try_nodes n s m)

  -- `findOwningNode`
  unfoldable pub find_owning_node : List Node → Block → Option Node
  find_owning_node [] b = none
  find_owning_node (node ∷ rest) b =
      let later = find_owning_node rest b in if A.owns node.allocator b then some node else later

  abbrev pub is_some : {X : Type 0} → Option X → Bool
  is_some none = false
  is_some (some x) = true

  unfoldable pub owns : Block → Act Bool
  owns b s m = if s.dangling then none else some (is_some (find_owning_node s.nodes b), s, m)

  -- A call on the allocator of the owning node, if there is one
  unfoldable pub on_owner :
      {X : Type 0} → Block → Op A.State X → List Node → Memory → Option (X × List Node × Memory)
  on_owner b step [] m = none
  on_owner b step (node ∷ rest) m =
      let (x, s, m') = step node.allocator m in
      let later = on_owner b step rest m in
      if A.owns node.allocator b
      then some (x, record node { allocator = s } ∷ rest, m')
      else elim later [ none ↦ none | some (y, rest', w) ↦ some (y, node ∷ rest', w) ]

  -- The same on the members, with the value for the case that no node owns the block
  unfoldable pub with_owner : {X : Type 0} → Block → Op A.State X → X → Act X
  with_owner b step x s m = if s.dangling then none else elim (on_owner b step s.nodes m) [
    | none ↦ some (x, s, m)
    | some (y, nodes, m') ↦ some (y, record s { nodes = nodes }, m')
  ]

  unfoldable pub deallocate : Block → Act Block
  deallocate b = if not (is_set b) then result b else with_owner b (A.deallocate b) b

  -- `isHandledDefault`; the class is passed on as a reference type, which `has_expand` does not see.
  unfoldable pub is_handled_default : Block → ℕ → Act (Bool × Block)
  is_handled_default b n s m =
      if b.length == n
      then some ((true, b), s, m)
      else if n == 0
      then then_do (λ b'. result (true, b')) (deallocate b s m)
      else if is_set b
      then some ((false, b), s, m)
      else then_do (λ b'. result (true, b')) (allocate n s m)

  -- `internal::reallocateWithCopy(*this, *this, b, n)`
  unfoldable pub move : Block → ℕ → Act (Bool × Block)
  move b n s m =
      then_do
        (λ new_block t w.
          if is_set new_block
          then then_do (λ _. result (true, new_block)) (deallocate b t (block_copy b new_block w))
          else some ((false, b), t, w))
        (allocate n s m)

  -- The owner's `reallocate`, and else a new block; without an owner it fails.
  unfoldable pub resize : Block → ℕ → Act (Bool × Block)
  resize b n s m = if s.dangling then none else elim (on_owner b (A.reallocate b n) s.nodes m) [
    | none ↦ some ((false, b), s, m)
    | some ((done, b'), nodes, m') ↦
        if done
        then some ((true, b'), record s { nodes = nodes }, m')
        else move b' n (record s { nodes = nodes }) m'
  ]

  unfoldable pub reallocate : Block → ℕ → Act (Bool × Block)
  reallocate b n s m =
      then_do (λ (handled, b'). if handled then result (true, b') else resize b' n)
        (is_handled_default b n s m)

  -- `expand_inner` is the `expand` of the nodes' allocators, without which there is none here.
  unfoldable pub expand : (Block → ℕ → Op A.State (Bool × Block)) → Block → ℕ → Act (Bool × Block)
  expand expand_inner b delta = with_owner b (expand_inner b delta) (false, b)

  -- `eraseNode`: the nodes behind first; each node is given back to its own allocator.
  unfoldable pub erase_node : List Node → Memory → Memory
  erase_node [] m = m
  erase_node (node ∷ rest) m =
      (A.deallocate (record { ptr = node.address; length = node.allocated_this_size })
        node.allocator (erase_node rest m)).2

  abbrev pub is_empty : List Node → Bool
  is_empty [] = true
  is_empty (node ∷ rest) = false

  -- `deallocateAll`, which is `shrink`: `_root` is not reset.
  unfoldable pub deallocate_all : Act (Unit {0})
  deallocate_all s m =
      if s.dangling
      then none
      else some
          (tt, record s { nodes = []; dangling = not (is_empty s.nodes) }, erase_node s.nodes m)
