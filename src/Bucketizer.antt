-- ===== src/Bucketizer.antt =====
-- alb/bucketizer.hpp: equal allocators for steps of sizes, such as free lists with bounds.
pub mod Matching
mod Tests
use allocator_builder.Base.{
  ℕ, zero, suc, ◌+◌, ◌-◌, ◌*◌, ◌/◌, Bool, true, false, ◌&&◌, ◌||◌, not, Option, none, some, List,
  [], ◌∷◌, ◌==◌, leb, ltb, if◌then◌else◌, sub64, add64,
}
use mathlib.Core.Option
use allocator_builder.Block.{Block, empty_block, is_set, round_to_alignment}
use allocator_builder.Op.{Op, ◌>>=◌, ◌>>◌, pure}
use allocator_builder.Allocator.{Allocator, has, all_deallocator}
use allocator_builder.Reallocator.{reallocate_with_copy, is_handled_default}

-- What the class asks of its template parameter: an allocator with bounds that can be set.
pub record Bounded : Type 1 where
  pub allocator : Allocator
  pub set_min_max : ℕ → ℕ → allocator.State → allocator.State
  pub min_size : allocator.State → ℕ
  pub max_size : allocator.State → ℕ

-- A call of the `i`-th bucket; a call of a bucket that is not there, which the language leaves
-- undefined, gives `default` and changes nothing.
pub on_bucket : {S B : Type 0} → B → ℕ → Op S B → Op (List S) B
on_bucket default i step [] m = (default, [], m)
on_bucket default zero step (s ∷ buckets) m = let (r, s', m') = step s m in (r, s' ∷ buckets, m')
on_bucket default (suc i) step (s ∷ buckets) m =
    let (r, buckets', m') = on_bucket default i step buckets m in (r, s ∷ buckets', m')

-- A call of each bucket in turn
pub on_all : {S : Type 0} → Op S (Unit {0}) → Op (List S) (Unit {0})
on_all step [] m = (tt, [], m)
on_all step (s ∷ buckets) m =
    let (_, s', m') = step s m in
    let (_, buckets', m'') = on_all step buckets m' in (tt, s' ∷ buckets', m'')

-- The template parameters. The sizes are `unsigned`, so no bound of a bucket wraps in `size_t`.
module _ (B : Bounded) (min_size max_size step_size : ℕ) where
  abbrev pub State : Type 0
  State = List B.allocator.State

  pub number_of_buckets : ℕ
  number_of_buckets = (max_size - min_size + 1) / step_size

  -- The constructor sets the bounds of the buckets, from the `i`-th on.
  unfoldable pub construct_from : ℕ → State → State
  construct_from i [] = []
  construct_from i (s ∷ buckets) =
      B.set_min_max (min_size + i * step_size) (min_size + (i + 1) * step_size - 1) s
      ∷ construct_from (i + 1) buckets

  unfoldable pub construct : State → State
  construct buckets = construct_from 0 buckets

  -- The loop of `allocate` over the buckets, in their order
  unfoldable pub first_fitting : ℕ → State → Option ℕ
  first_fitting n [] = none
  first_fitting n (s ∷ buckets) =
      let rest = first_fitting n buckets in
      if leb (B.min_size s) n && leb n (B.max_size s) then some 0 else Option.map suc rest

  unfoldable pub allocate : ℕ → Op State Block
  allocate n buckets m = elim (first_fitting n buckets) [
    | none ↦ (empty_block, buckets, m)
    | some i ↦ on_bucket empty_block i (B.allocator.allocate n) buckets m
  ]

  pub owns : State → Block → Bool
  owns buckets b = is_set b && (leb min_size b.length && leb b.length max_size)

  -- `findMatchingAllocator`, as the index of the bucket
  unfoldable pub find_matching_allocator : ℕ → ℕ
  find_matching_allocator n = sub64 (round_to_alignment step_size n) min_size / step_size

  unfoldable pub deallocate : Block → Op State Block
  unfolding owns
  deallocate b buckets m =
      if not (is_set b)
      then (b, buckets, m)
      else if not (owns buckets b)
      then (b, buckets, m)
      else on_bucket b (find_matching_allocator b.length) (B.allocator.deallocate b) buckets m

  -- The part of `reallocate` behind the cases that all allocators share
  unfoldable pub resize : Block → ℕ → Op State (Bool × Block)
  resize b n =
      let aligned = round_to_alignment step_size n in
      let current = find_matching_allocator b.length in
      let new = find_matching_allocator aligned in
      if current == new
      then pure (true, b)
      else reallocate_with_copy (λ c. on_bucket c current (B.allocator.deallocate c))
          (λ k. on_bucket empty_block new (B.allocator.allocate k)) b aligned

  pub reallocate : Block → ℕ → Op State (Bool × Block)
  reallocate b n =
      if not (n == 0) && (ltb n min_size || ltb max_size n) then pure (false, b) else (do
        (handled, b') ← is_handled_default allocate deallocate none b n
        if handled then pure (true, b') else resize b' n)

  pub deallocate_all : Op State (Unit {0})
  deallocate_all = on_all (all_deallocator B.allocator.deallocate_all)

  -- The class as a template argument; `deallocateAll` is there if the buckets have it.
  abbrev pub bucketizer : Allocator
  bucketizer = record {
    State = State;
    supports_truncated_deallocation = false;
    allocate = allocate;
    deallocate = deallocate;
    reallocate = reallocate;
    owns = owns;
    expand = none;
    deallocate_all = if has B.allocator.deallocate_all then some deallocate_all else none;
  }
