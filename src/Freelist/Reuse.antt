-- ===== src/Freelist/Reuse.antt =====
-- `deallocate` and the next `allocate` of alb/freelist.hpp.
use allocator_builder.Base.{ℕ, ◌≤◌, ◌<◌, ◌≡◌, refl, ap, arith, true, List, ◌∷◌, le→leb, length, ◌∙◌}
use allocator_builder.Block.{Block, empty_block, is_set, Memory}
use allocator_builder.Allocator.{Allocator}
use allocator_builder.Stack.Refine.{Represents, push_room, pop-Represents}
use allocator_builder.Freelist.{Freelist, allocate, deallocate, take, owns}

module _ (A : Allocator) (pool_size batches : ℕ) where
  -- The same parent and the same bounds, and a pool that stands for the list
  pub record Pools (f f' : Freelist A pool_size batches) (l : List ℕ) : Type 0 where
    pub same_parent : f'.parent ≡ f.parent
    pub same_lower : f'.lower_bound ≡ f.lower_bound
    pub same_upper : f'.upper_bound ≡ f.upper_bound
    pub pool : Represents pool_size f'.root l

  owns-set :
      (f : Freelist A pool_size batches) (b : Block)
      → owns A pool_size batches f b ≡ true
      → is_set b ≡ true
  unfolding owns
  owns-set f b h = ground arith

  -- A block that the pool has room for
  deallocate_pooled :
      (f : Freelist A pool_size batches) (l : List ℕ) (b : Block) (m : Memory)
      → Represents pool_size f.root l
      → length l < pool_size
      → owns A pool_size batches f b ≡ true
      → let (b', f', m') = deallocate A pool_size batches b f m in
        (b' ≡ empty_block) × (m' ≡ m) × Pools f f' (b.ptr ∷ l)
  unfolding deallocate
  deallocate_pooled f l b m r room mine =
      let pushed = push_room b.ptr r room in
      rw (owns-set f b mine, mine, pushed.0)
        (
          refl,
          refl,
          record { same_parent = refl; same_lower = refl; same_upper = refl; pool = pushed.1 },
        )

  -- A block that the pool has
  allocate_pooled :
      (f : Freelist A pool_size batches) (l : List ℕ) (n p : ℕ) (m : Memory)
      → Represents pool_size f.root (p ∷ l)
      → f.lower_bound ≤ n
      → n ≤ f.upper_bound
      → let (b, f', m') = allocate A pool_size batches n f m in
        (b ≡ record { ptr = p; length = f.upper_bound }) × (m' ≡ m) × Pools f f' l
  unfolding allocate take
  allocate_pooled f l n p m r low high =
      let top = pop-Represents 0 r in
      rw (le→leb f.lower_bound n low, le→leb n f.upper_bound high, top.0)
        (
          refl,
          refl,
          record { same_parent = refl; same_lower = refl; same_upper = refl; pool = top.1 },
        )

  -- While the pool has room, an owned block that is released is reset and kept in the pool, and the
  -- next request within the bounds gets its address again, with the full size of the list: neither
  -- call changes the parent allocator or the memory, and the pool is as before.
  pub allocate-deallocate :
      (f : Freelist A pool_size batches) (l : List ℕ) (b : Block) (n : ℕ) (m : Memory)
      → Represents pool_size f.root l
      → length l < pool_size
      → owns A pool_size batches f b ≡ true
      → f.lower_bound ≤ n
      → n ≤ f.upper_bound
      → let (b', f', m') = deallocate A pool_size batches b f m in
        let (c, f'', m'') = allocate A pool_size batches n f' m' in
        (b' ≡ empty_block)
        × (c ≡ record { ptr = b.ptr; length = f.upper_bound })
        × (m'' ≡ m)
        × Pools f f'' l
  allocate-deallocate f l b n m r room mine low high =
      let d = deallocate_pooled f l b m r room mine in
      let a =
        allocate_pooled (deallocate A pool_size batches b f m).1 l n b.ptr
          (deallocate A pool_size batches b f m).2 d.2.pool (omega (arith, d.2.same_lower))
          (omega (arith, d.2.same_upper)) in
      (
        d.0,
        a.0 ∙ ap (λ u. record { ptr = b.ptr; length = u }) d.2.same_upper,
        a.1 ∙ d.1,
        record {
          same_parent = a.2.same_parent ∙ d.2.same_parent;
          same_lower = a.2.same_lower ∙ d.2.same_lower;
          same_upper = a.2.same_upper ∙ d.2.same_upper;
          pool = a.2.pool;
        },
      )
