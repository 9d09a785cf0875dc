-- ===== src/Bucketizer/Matching.antt =====
-- The bucket that serves a request, and the bucket that a block goes back to.
use native.Mathlib.Nat.{div-add-mod', mod-lt}
use allocator_builder.Base.{
  ℕ, ◌+◌, ◌-◌, ◌*◌, ◌/◌, ◌%◌, ◌≤◌, ◌<◌, ◌≡◌, ap, arith, some, List, [], ◌∷◌, length, ◌∙◌, word_mod,
  sub64, le→leb, gt→leb, ℕ_discrete, dec_lt,
}
use allocator_builder.Block.{round_to_alignment}
use allocator_builder.Block.Rounding.{round_to_alignment_bounds}
use allocator_builder.Bucketizer.{
  Bounded, construct_from, construct, first_fitting, find_matching_allocator,
}

times_le : (a b c : ℕ) → a ≤ b → a * c ≤ b * c
times_le a b c h = grind arith

next_times : (k c : ℕ) → (k + 1) * c ≡ k * c + c
next_times k c = grind arith

-- A quotient is known from its bounds.
same_quotient : (t u x c : ℕ) → t * c ≤ x → x < t * c + c → u * c ≤ x → x < u * c + c → t ≡ u
same_quotient t u x c a b d e = elim (dec_lt t u) [
  | yes less ↦ absurd (omega (arith, times_le (t + 1) u c (omega arith)))
  | no more ↦ elim (dec_lt u t) [
    | yes less ↦ absurd (omega (arith, times_le (u + 1) t c (omega arith)))
    | no same ↦ omega arith
  ]
]

-- A multiple of `c` is known from a range of `c` numbers.
next_quotient :
    (t u r c : ℕ) → 1 + u * c + r ≤ t * c → t * c < 1 + u * c + r + c → r < c → t ≡ u + 1
next_quotient t u r c a b h = elim (dec_lt u t) [
  | yes more ↦ elim (dec_lt (u + 1) t) [
    | yes much ↦ absurd (omega (arith, times_le (u + 2) t c (omega arith)))
    | no same ↦ omega arith
  ]
  | no less ↦ absurd (omega (arith, times_le t u c (omega arith)))
]

div-eq : (j r c : ℕ) → r < c → (j * c + r) / c ≡ j
div-eq j r c h =
    same_quotient ((j * c + r) / c) j (j * c + r) c (omega (arith, div-add-mod' (j * c + r) c))
      (omega (arith, div-add-mod' (j * c + r) c, mod-lt (j * c + r) {m = c} (omega arith)))
      (omega arith) (omega arith)

module _ (B : Bounded) (min_size max_size step_size : ℕ)
    (min_set : (a b : ℕ) (s : B.allocator.State) → B.min_size (B.set_min_max a b s) ≡ a)
    (max_set : (a b : ℕ) (s : B.allocator.State) → B.max_size (B.set_min_max a b s) ≡ b) where
  -- The loop over buckets from the `k`-th on
  first_fitting_from :
      (k j r n : ℕ) (buckets : List B.allocator.State)
      → n ≡ min_size + j * step_size + r
      → r < step_size
      → k ≤ j
      → j < k + length buckets
      → first_fitting B min_size max_size step_size n
          (construct_from B min_size max_size step_size k buckets)
        ≡ some (j - k)
  unfolding first_fitting construct_from
  first_fitting_from k j r n [] e small le lt = absurd (omega arith)
  first_fitting_from k j r n (s ∷ buckets) e small le lt = elim (ℕ_discrete k j) [
    | yes found ↦
        rw
          (
            min_set _ _ s,
            max_set _ _ s,
            le→leb (min_size + k * step_size) n (omega (arith, times_le k j step_size le)),
            le→leb n (min_size + (k + 1) * step_size - 1)
                (omega (arith, next_times k step_size, times_le j k step_size (omega arith))),
          )
          (ap some (omega arith))
    | no later ↦
        rw
          (
            min_set _ _ s,
            max_set _ _ s,
            le→leb (min_size + k * step_size) n (omega (arith, times_le k j step_size le)),
            gt→leb n (min_size + (k + 1) * step_size - 1)
                (omega (arith, next_times k step_size, times_le (k + 1) j step_size (omega arith))),
            first_fitting_from (k + 1) j r n buckets e small (omega arith) (omega arith),
          )
          (ap some (omega arith))
  ]

  -- What a request is rounded up to, if the first bucket begins right behind a multiple of the step
  rounded :
      (q j r n : ℕ)
      → min_size ≡ 1 + q * step_size
      → n ≡ min_size + j * step_size + r
      → r < step_size
      → n + step_size ≤ word_mod
      → sub64 (round_to_alignment step_size n) min_size ≡ j * step_size + (step_size - 1)
  rounded q j r n e f small fits =
      let (whole, above, below) = round_to_alignment_bounds step_size n (omega arith) fits in
      let quotient = div-add-mod' (round_to_alignment step_size n) step_size in
      let t = round_to_alignment step_size n / step_size in
      let same : t ≡ q + j + 1 =
        next_quotient t (q + j) r step_size (omega (arith, quotient, whole, above))
          (omega (arith, quotient, whole, below)) small in
      omega (arith, ap (λ x. x * step_size) same, quotient, whole)

  found_again :
      (q j r n : ℕ)
      → min_size ≡ 1 + q * step_size
      → n ≡ min_size + j * step_size + r
      → r < step_size
      → n + step_size ≤ word_mod
      → find_matching_allocator B min_size max_size step_size n ≡ j
  unfolding find_matching_allocator
  found_again q j r n e f small fits =
      rw (rounded q j r n e f small fits) (div-eq j (step_size - 1) step_size (omega arith))

  -- If the first bucket begins right behind a multiple of the step, then a request within the
  -- buckets' bounds is served by the bucket of its distance from the lower bound in steps, and
  -- `findMatchingAllocator` gives that bucket for the request and for the largest size of that
  -- bucket, which its blocks have: a block goes back to the bucket that it came from.
  pub first_fitting-find_matching_allocator :
      (q n : ℕ) (buckets : List B.allocator.State)
      → 0 < step_size
      → min_size ≡ 1 + q * step_size
      → min_size ≤ n
      → n < min_size + length buckets * step_size
      → min_size + length buckets * step_size + step_size ≤ word_mod
      → let bucket = (n - min_size) / step_size in
        (first_fitting B min_size max_size step_size n
            (construct B min_size max_size step_size buckets)
          ≡ some bucket)
        × (find_matching_allocator B min_size max_size step_size n ≡ bucket)
        × (find_matching_allocator B min_size max_size step_size
              (min_size + (bucket + 1) * step_size - 1)
            ≡ bucket)
  unfolding construct
  first_fitting-find_matching_allocator q n buckets pos e low high fits =
      let j = (n - min_size) / step_size in
      let r = (n - min_size) % step_size in
      let small : r < step_size = mod-lt (n - min_size) pos in
      let f : n ≡ min_size + j * step_size + r =
        omega (arith, div-add-mod' (n - min_size) step_size) in
      let here : j < length buckets = elim (dec_lt j (length buckets)) [
        | yes inside ↦ inside
        | no beyond ↦ absurd (omega (arith, f, times_le (length buckets) j step_size (omega arith)))
      ] in
      (
        first_fitting_from 0 j r n buckets f small (omega arith) (omega arith)
            ∙ ap some (omega arith),
        found_again q j r n e f small (omega arith),
        found_again q j (step_size - 1) (min_size + (j + 1) * step_size - 1) e
            (omega (arith, next_times j step_size)) (omega arith)
            (omega (arith, times_le (j + 1) (length buckets) step_size (omega (arith, here)))),
      )
