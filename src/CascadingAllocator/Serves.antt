-- ===== src/CascadingAllocator/Serves.antt =====
-- What the list of allocators serves: who owns a new block, and when the code reads through a null
-- pointer.
use allocator_builder.Base.{
  ℕ, ◌+◌, ◌<◌, ◌≡◌, ◌⊎◌, inl, inr, refl, sym, subst, eq→==, ℕ_discrete, ◌∙◌, Bool, true, false,
  Option, none, some, List, [], ◌∷◌, Bool-cases, if◌then◌else◌,
}
use allocator_builder.Block.{Block, is_set, Memory}
use allocator_builder.Allocator.{Allocator}
use allocator_builder.CascadingAllocator.{
  Node, Cascade, result, then_do, allocate_no_grow, create_node, append, try_nodes, append_node,
  grow, allocate, owns,
}
use allocator_builder.CascadingAllocator.Owned.{
  Owned, AllGood, Gives, allocate_live, allocate-Owned,
}

module _ (A : Allocator) (node_size : ℕ) (create : ℕ → A.State) where
  -- Some states of the underlying allocator are good: a new one has such a state, and in such a state
  -- a request for `n` bytes, or for a node, leads to one in which it owns what it handed out. Then,
  -- from nodes with good states, the class owns each block that it hands out for `n` bytes, and the
  -- nodes have good states again.
  pub owns-allocate :
      (Good : A.State → Type 0) (n : ℕ)
      → Gives A node_size create Good n
      → Gives A node_size create Good node_size
      → ((k : ℕ) → Good (create k))
      → (s : Cascade A node_size create) (m : Memory) (b : Block) (t : Cascade A node_size create)
        (w : Memory)
      → 0 < n
      → s.dangling ≡ false
      → AllGood A node_size create Good s.nodes
      → allocate A node_size create n s m ≡ some (b, t, w)
      → is_set b ≡ true
      → (owns A node_size create b t w ≡ some (true, t, w))
        × AllGood A node_size create Good t.nodes
  unfolding owns
  owns-allocate Good n gives for_nodes new s m b t w pos live good e set =
      let (l, kept, o) =
        subst (Owned A node_size create Good) e
          (allocate-Owned A node_size create Good n gives for_nodes new s m pos live good) in
      (rw (l, o set) refl, kept)

  some-not : {X : Type 0} {x : X} → some x ≡ none → ⊥
  some-not e = cc

  -- A new first node is found again by the second part of `grow`.
  first_node-none :
      (n created : ℕ) (dangling : Bool) (node : Option (Node A node_size create)) (m : Memory)
      → then_do A node_size create
          (λ b. if is_set b then result A node_size create b else λ t w.
            then_do A node_size create
              (λ _. try_nodes A node_size create n)
              (append_node A node_size create t w))
          (try_nodes A node_size create n
            (record {
              nodes = append A node_size create [] node;
              dangling = dangling;
              created = created;
            })
            m)
        ≡ none
      → node ≡ none
  unfolding try_nodes allocate_no_grow append_node
  first_node-none n created dangling none m e = refl
  first_node-none n created dangling (some node) m e =
      elim (Bool-cases (is_set (A.allocate n node.allocator m).0)) [
        | inl here ↦ absurd (some-not (rw here at e))
        | inr full ↦ absurd (some-not (rw full at e))
      ]

  -- Where there is a node, one can be appended.
  some_node-grow :
      (n : ℕ) (first : Node A node_size create) (rest : List (Node A node_size create))
      (dangling : Bool) (created : ℕ) (b : Block) (m : Memory) (found : Bool)
      → (if found then result A node_size create b else grow A node_size create n)
          (record { nodes = first ∷ rest; dangling = dangling; created = created })
          m
        ≡ none
      → ⊥
  unfolding grow append_node try_nodes
  some_node-grow n first rest dangling created b m true e = some-not e
  some_node-grow n first rest dangling created b m false e = some-not e

  no_grow-cons :
      (n : ℕ) (node : Node A node_size create) (rest : List (Node A node_size create)) (m : Memory)
      → (first : Node A node_size create) × (others : List (Node A node_size create))
        × ((allocate_no_grow A node_size create n (node ∷ rest) m).1 ≡ first ∷ others)
  unfolding allocate_no_grow
  no_grow-cons n node [] m = (_, _, refl)
  no_grow-cons n node (next ∷ rest) m =
      elim (Bool-cases (is_set (A.allocate n node.allocator m).0)) [
        | inl here ↦ rw here (_, _, refl)
        | inr full ↦ rw full (_, _, refl)
      ]

  -- The search, and what comes after it, from a list of nodes
  search-none :
      (n : ℕ) (nodes : List (Node A node_size create)) (dangling : Bool) (created : ℕ) (m : Memory)
      → then_do A node_size create
          (λ b. if is_set b then result A node_size create b else grow A node_size create n)
          (try_nodes A node_size create n
            (record { nodes = nodes; dangling = dangling; created = created })
            m)
        ≡ none
      → (nodes ≡ []) × ((create_node A node_size create created m).0 ≡ none)
  unfolding try_nodes grow allocate_no_grow
  search-none n [] dangling created m e = (
    refl,
    first_node-none n (created + 1) dangling (create_node A node_size create created m).0 _ e,
  )
  search-none n (node ∷ rest) dangling created m e =
      let (first, others, same) = no_grow-cons n node rest m in
      let (b, nodes', m') = allocate_no_grow A node_size create n (node ∷ rest) m in
      absurd (some_node-grow n first others dangling created b m' (is_set b) (rw same at e))

  -- `allocate` of some bytes reads through a null pointer or one that dangles only after
  -- `deallocateAll`, or where there is no node and the first one cannot be made.
  pub allocate_undefined :
      (n : ℕ) (s : Cascade A node_size create) (m : Memory)
      → allocate A node_size create n s m ≡ none
      → (s.dangling ≡ true)
        ⊎ ((s.nodes ≡ []) × ((create_node A node_size create s.created m).0 ≡ none))
  unfolding allocate try_nodes grow
  allocate_undefined n s m e = elim (Bool-cases s.dangling) [
    | inl dead ↦ inl dead
    | inr live ↦ elim (ℕ_discrete n 0) [
      | yes nothing ↦ absurd (some-not (rw (eq→== n 0 nothing) at e))
      | no some_bytes ↦ inr (
          search-none n s.nodes s.dangling s.created m
            (sym (allocate_live A node_size create n s m some_bytes live) ∙ e))
    ]
  ]
