-- ===== src/CascadingAllocator/Owned.antt =====
-- Which results of `allocate` a node of the list owns.
use allocator_builder.Base.{
  ◌++◌, ◌==◌, ℕ, ◌+◌, ◌<◌, ◌≡◌, ◌≢◌, inl, inr, refl, sym, ap, subst, ne→==, arith, true, false,
  Option, none, some, List, [], ◌∷◌, Bool-cases, if◌then◌else◌,
}
use allocator_builder.Block.{Block, is_set, Memory}
use allocator_builder.Allocator.{Allocator}
use allocator_builder.CascadingAllocator.{
  Node, Cascade, Act, result, then_do, allocate_no_grow, create_node, append, try_nodes,
  append_node, grow, allocate, find_owning_node, is_some,
}

module _ (A : Allocator) (node_size : ℕ) (create : ℕ → A.State) where
  pub allocate_live :
      (n : ℕ) (s : Cascade A node_size create) (m : Memory)
      → n ≢ 0
      → s.dangling ≡ false
      → allocate A node_size create n s m
        ≡ then_do A node_size create
            (λ b. if is_set b then result A node_size create b else grow A node_size create n)
            (try_nodes A node_size create n s m)
  unfolding allocate
  allocate_live n s m some_bytes live = rw (ne→== n 0 some_bytes) (
      ap
        (λ d.
          if d
          then none
          else then_do A node_size create
              (λ b. if is_set b then result A node_size create b else grow A node_size create n)
              (try_nodes A node_size create n s m))
        live)

-- `Good` states of the underlying allocator
module _ (A : Allocator) (node_size : ℕ) (create : ℕ → A.State) (Good : A.State → Type 0) where
  abbrev pub AllGood : List (Node A node_size create) → Type 0
  AllGood [] = Unit {0}
  AllGood (node ∷ rest) = Good node.allocator × AllGood rest

  -- A node owns the block, if it is one, nothing dangles, and all nodes are good.
  abbrev pub Owned : Option (Block × Cascade A node_size create × Memory) → Type 0
  Owned none = Unit {0}
  Owned (some (b, s, m)) =
      (s.dangling ≡ false)
      × AllGood s.nodes
      × (is_set b ≡ true
          → is_some A node_size create (find_owning_node A node_size create s.nodes b) ≡ true)

  -- A request for `n` bytes leaves a good allocator good, which then owns what it hands out.
  abbrev pub Gives : ℕ → Type 0
  Gives n =
      (s : A.State) (m : Memory)
      → Good s
      → let (b, s', m') = A.allocate n s m in Good s' × (is_set b ≡ true → A.owns s' b ≡ true)

  later_owner :
      (node : Node A node_size create) (rest : List (Node A node_size create)) (b : Block)
      → is_some A node_size create (find_owning_node A node_size create rest b) ≡ true
      → is_some A node_size create (find_owning_node A node_size create (node ∷ rest) b) ≡ true
  unfolding find_owning_node
  later_owner node rest b o = elim (Bool-cases (A.owns node.allocator b)) [
    | inl here ↦ rw here refl
    | inr other ↦ rw other o
  ]

  no_grow-Owned :
      (n : ℕ)
      → Gives n
      → (nodes : List (Node A node_size create)) (m : Memory) → AllGood nodes
      → let (b, nodes', m') = allocate_no_grow A node_size create n nodes m in
        AllGood nodes'
        × (is_set b ≡ true
            → is_some A node_size create (find_owning_node A node_size create nodes' b) ≡ true)
  unfolding allocate_no_grow find_owning_node
  no_grow-Owned n gives [] m good = (tt, λ set. ground (arith, set))
  no_grow-Owned n gives (node ∷ []) m good =
      let served = gives node.allocator m good.0 in ((served.0, tt), λ set. rw (served.1 set) refl)
  no_grow-Owned n gives (node ∷ next ∷ rest) m good =
      let served = gives node.allocator m good.0 in
      elim (Bool-cases (is_set (A.allocate n node.allocator m).0)) [
        | inl here ↦ rw here ((served.0, good.1), λ set. rw (served.1 here) refl)
        | inr full ↦
            let others =
              no_grow-Owned n gives (next ∷ rest) (A.allocate n node.allocator m).2 good.1 in
            rw full (
              (served.0, others.0),
              λ set.
                  later_owner (record node { allocator = (A.allocate n node.allocator m).1 }) _ _
                    (others.1 set),
            )
      ]

  AllGood-append :
      (nodes : List (Node A node_size create)) (node : Node A node_size create)
      → AllGood nodes
      → Good node.allocator
      → AllGood (nodes ++ (node ∷ []))
  AllGood-append [] node good new = (new, tt)
  AllGood-append (first ∷ rest) node good new = (good.0, AllGood-append rest node good.1 new)

  module _ (n : ℕ) (gives : Gives n) (for_nodes : Gives node_size)
      (new : (k : ℕ) → Good (create k)) where
    created-Good :
        (nodes : List (Node A node_size create)) (created : ℕ) (m : Memory)
        → AllGood nodes
        → AllGood (append A node_size create nodes (create_node A node_size create created m).0)
    unfolding create_node
    created-Good nodes created m good =
        let served = for_nodes (create created) m (new created) in
        elim (Bool-cases ((A.allocate node_size (create created) m).0.ptr == 0)) [
          | inl none_left ↦ rw none_left good
          | inr there ↦ rw there (AllGood-append nodes _ good served.0)
        ]

    try_nodes-Owned :
        (s : Cascade A node_size create) (m : Memory)
        → s.dangling ≡ false
        → AllGood s.nodes
        → Owned (try_nodes A node_size create n s m)
    unfolding try_nodes
    try_nodes-Owned s m live good =
        let (kept, o) = no_grow-Owned n gives s.nodes m good in (live, kept, o)

    append_node-Owned :
        (s : Cascade A node_size create) (m : Memory)
        → s.dangling ≡ false
        → AllGood s.nodes
        → Owned (
            then_do A node_size create
              (λ _. try_nodes A node_size create n)
              (append_node A node_size create s m))
    unfolding append_node
    append_node-Owned s m live good = by_nodes s.nodes good
      where
        by_nodes :
            (nodes : List (Node A node_size create))
            → AllGood nodes
            → Owned (
                then_do A node_size create
                  (λ _. try_nodes A node_size create n)
                  (elim nodes [
                    | [] ↦ none
                    | first ∷ rest ↦ some (
                      tt,
                      record s {
                        nodes =
                            append A node_size create
                              (first ∷ rest)
                              (create_node A node_size create s.created m).0;
                        created = s.created + 1;
                      },
                      (create_node A node_size create s.created m).1,
                    )
                  ]))
        by_nodes [] all = tt
        by_nodes (first ∷ rest) all =
            try_nodes-Owned _ _ live (created-Good (first ∷ rest) s.created m all)

    -- What comes after a search: its block, or more nodes.
    after_search-Owned :
        (next : Act A node_size create Block)
        (r : Option (Block × Cascade A node_size create × Memory))
        → ((s : Cascade A node_size create) (m : Memory)
            → s.dangling ≡ false
            → AllGood s.nodes
            → Owned (next s m))
        → Owned r
        → Owned (
            then_do A node_size create
              (λ b. if is_set b then result A node_size create b else next)
              r)
    after_search-Owned next none later o = tt
    after_search-Owned next (some (b, s, m)) later (live, good, o) = elim (Bool-cases (is_set b)) [
      | inl here ↦ rw here (live, good, λ set. o here)
      | inr full ↦ rw full (later s m live good)
    ]

    grow-Owned :
        (s : Cascade A node_size create) (m : Memory)
        → s.dangling ≡ false
        → AllGood s.nodes
        → Owned (grow A node_size create n s m)
    unfolding grow
    grow-Owned s m live good = by_nodes s.nodes
      where
        first_node : Cascade A node_size create
        first_node = record s {
          nodes = append A node_size create [] (create_node A node_size create s.created m).0;
          created = s.created + 1;
        }

        by_nodes :
            (nodes : List (Node A node_size create))
            → Owned (elim nodes [
              | [] ↦
                  then_do A node_size create
                    (λ b. if is_set b then result A node_size create b else λ t w.
                      then_do A node_size create
                        (λ _. try_nodes A node_size create n)
                        (append_node A node_size create t w))
                    (try_nodes A node_size create n first_node
                      (create_node A node_size create s.created m).1)
              | first ∷ rest ↦
                  then_do A node_size create
                    (λ _. try_nodes A node_size create n)
                    (append_node A node_size create s m)
            ])
        by_nodes [] =
            after_search-Owned _ _ append_node-Owned
              (try_nodes-Owned first_node _ live (created-Good [] s.created m tt))
        by_nodes (first ∷ rest) = append_node-Owned s m live good

    pub allocate-Owned :
        (s : Cascade A node_size create) (m : Memory)
        → 0 < n
        → s.dangling ≡ false
        → AllGood s.nodes
        → Owned (allocate A node_size create n s m)
    allocate-Owned s m pos live good =
        subst Owned (sym (allocate_live A node_size create n s m (λ e. omega (arith, pos)) live)) (
          after_search-Owned (grow A node_size create n) (try_nodes A node_size create n s m)
            grow-Owned (try_nodes-Owned s m live good))
