-- ===== src/Bucketizer/Tests.antt =====
-- The example of the class comment: sizes 17 to 64 in steps of 16, in three free lists.
use allocator_builder.Base.{◌≡◌, refl, arith, some, [], ◌∷◌, replicate}
use allocator_builder.Block.{round_to_alignment}
use allocator_builder.Allocator.{Allocator}
use allocator_builder.StackAllocator.{stack_allocator}
use allocator_builder.Freelist.{Freelist, freelist, set_min_max}
use allocator_builder.Bucketizer.{Bounded, State, construct, first_fitting, find_matching_allocator}
use allocator_builder.Bucketizer.Matching.{first_fitting-find_matching_allocator}

abbrev parent : Allocator
parent = stack_allocator 1024 8

abbrev lists : Bounded
lists = record {
  allocator = freelist parent 8 4;
  set_min_max = set_min_max parent 8 4;
  min_size = λ f. f.lower_bound;
  max_size = λ f. f.upper_bound;
}

abbrev unbounded : Freelist parent 8 4
unbounded = record {
  parent = record { base = 4096; p = 4096 };
  root = record { elements = replicate 8 0; used = 0 };
  lower_bound = 0;
  upper_bound = 0;
}

abbrev buckets : State lists 17 64 16
buckets = unbounded ∷ unbounded ∷ unbounded ∷ []

find_matching_allocator_bounds :
    (find_matching_allocator lists 17 64 16 17 ≡ 0)
    × (find_matching_allocator lists 17 64 16 32 ≡ 0)
    × (find_matching_allocator lists 17 64 16 33 ≡ 1)
    × (find_matching_allocator lists 17 64 16 64 ≡ 2)
unfolding find_matching_allocator round_to_alignment
find_matching_allocator_bounds = (refl, refl, refl, refl)

-- With a lower bound that is not behind a multiple of the step, the size 16 belongs to the first of
-- the buckets for 10 to 41 bytes and the size 25, its largest, to the second.
find_matching_allocator_shifted :
    (find_matching_allocator lists 10 41 16 16 ≡ 0)
    × (find_matching_allocator lists 10 41 16 25 ≡ 1)
unfolding find_matching_allocator round_to_alignment
find_matching_allocator_shifted = (refl, refl)

first_fitting-find_matching_allocator_example :
    (first_fitting lists 17 64 16 40 (construct lists 17 64 16 buckets) ≡ some 1)
    × (find_matching_allocator lists 17 64 16 40 ≡ 1)
    × (find_matching_allocator lists 17 64 16 48 ≡ 1)
unfolding set_min_max
first_fitting-find_matching_allocator_example =
    first_fitting-find_matching_allocator lists 17 64 16 (λ a b s. refl) (λ a b s. refl) 1 40
      buckets (omega arith) refl (omega arith) (omega arith) (omega arith)
