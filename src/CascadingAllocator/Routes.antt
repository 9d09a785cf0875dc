-- ===== src/CascadingAllocator/Routes.antt =====
-- Which node's allocator a release reaches.
use allocator_builder.Base.{
  ℕ, ◌≡◌, ◌⊎◌, inl, inr, refl, ap, ◌∙◌, true, false, Option, none, some, List, [], ◌∷◌, ◌++◌,
  Bool-cases, if◌then◌else◌,
}
use allocator_builder.Block.{Block, is_set, Memory}
use allocator_builder.Op.{Op}
use allocator_builder.Allocator.{Allocator}
use allocator_builder.CascadingAllocator.{
  Node, Cascade, find_owning_node, on_owner, with_owner, deallocate,
}

module _ (A : Allocator) (node_size : ℕ) (create : ℕ → A.State) where
  -- No node owns the block.
  abbrev pub NoOwner : Block → List (Node A node_size create) → Type 0
  NoOwner b [] = Unit {0}
  NoOwner b (node ∷ rest) = (A.owns node.allocator b ≡ false) × NoOwner b rest

  -- Either no node owns the block, or the step is made by the first one that does.
  Reaches : {X : Type 0} → Block → Op A.State X → List (Node A node_size create) → Memory → Type 0
  Reaches {X} b step nodes m =
      (NoOwner b nodes
        × (find_owning_node A node_size create nodes b ≡ none)
        × (on_owner A node_size create b step nodes m ≡ none))
      ⊎ ((before : List (Node A node_size create)) × (node : Node A node_size create)
          × (after : List (Node A node_size create)) × (nodes ≡ before ++ (node ∷ after))
          × NoOwner b before
          × (A.owns node.allocator b ≡ true)
          × (find_owning_node A node_size create nodes b ≡ some node)
          × (on_owner A node_size create b step nodes m
              ≡ some (
                (step node.allocator m).0,
                before ++ (record node { allocator = (step node.allocator m).1 } ∷ after),
                (step node.allocator m).2,
              )))

  on_owner-Reaches :
      {X : Type 0} (b : Block) (step : Op A.State X) (nodes : List (Node A node_size create))
      (m : Memory)
      → Reaches b step nodes m
  unfolding Reaches find_owning_node on_owner
  on_owner-Reaches b step [] m = inl (tt, refl, refl)
  on_owner-Reaches b step (node ∷ rest) m = elim (Bool-cases (A.owns node.allocator b)) [
    | inl here ↦ rw here (inr ([], node, rest, refl, tt, here, refl, refl))
    | inr other ↦ elim (on_owner-Reaches b step rest m) [
      | inl (nobody, found, nothing) ↦ rw (other, found, nothing) (inl ((refl, nobody), refl, refl))
      | inr (before, owner, after, e, not_yet, owned, found, done) ↦
          rw (other, found, done)
            (inr (
              node ∷ before,
              owner,
              after,
              ap (λ l. node ∷ l) e,
              (other, not_yet),
              owned,
              refl,
              refl,
            ))
    ]
  ]

  abbrev with_result :
      Block
      → Cascade A node_size create
      → Memory
      → Option (Block × List (Node A node_size create) × Memory)
      → Option (Block × Cascade A node_size create × Memory)
  with_result b s m none = some (b, s, m)
  with_result b s m (some (x, nodes, w)) = some (x, record s { nodes = nodes }, w)

  deallocate_live :
      (b : Block) (s : Cascade A node_size create) (m : Memory)
      → is_set b ≡ true
      → s.dangling ≡ false
      → deallocate A node_size create b s m
        ≡ with_result b s m (on_owner A node_size create b (A.deallocate b) s.nodes m)
  unfolding deallocate with_owner
  deallocate_live b s m set live = rw set (
      ap
        (λ d.
          if d
          then none
          else with_result b s m (on_owner A node_size create b (A.deallocate b) s.nodes m))
        live)

  -- The release of a block reaches the first node that owns it and no other node; if no node owns it,
  -- nothing changes.
  pub deallocate-Owner :
      (b : Block) (s : Cascade A node_size create) (m : Memory)
      → is_set b ≡ true
      → s.dangling ≡ false
      → (NoOwner b s.nodes
          × (find_owning_node A node_size create s.nodes b ≡ none)
          × (deallocate A node_size create b s m ≡ some (b, s, m)))
        ⊎ ((before : List (Node A node_size create)) × (node : Node A node_size create)
            × (after : List (Node A node_size create)) × (s.nodes ≡ before ++ (node ∷ after))
            × NoOwner b before
            × (A.owns node.allocator b ≡ true)
            × (find_owning_node A node_size create s.nodes b ≡ some node)
            × (deallocate A node_size create b s m
                ≡ some (
                  (A.deallocate b node.allocator m).0,
                  record s {
                    nodes =
                        before
                        ++ (record node { allocator = (A.deallocate b node.allocator m).1 }
                            ∷ after);
                  },
                  (A.deallocate b node.allocator m).2,
                )))
  unfolding Reaches
  deallocate-Owner b s m set live = elim (on_owner-Reaches b (A.deallocate b) s.nodes m) [
    | inl (nobody, found, nothing) ↦
        inl (nobody, found, deallocate_live b s m set live ∙ ap (with_result b s m) nothing)
    | inr (before, node, after, e, not_yet, owned, found, done) ↦ inr (
      before,
      node,
      after,
      e,
      not_yet,
      owned,
      found,
      deallocate_live b s m set live ∙ ap (with_result b s m) done,
    )
  ]
