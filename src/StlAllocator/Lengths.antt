-- ===== src/StlAllocator/Lengths.antt =====
-- The length that alb/stl_allocator.hpp keeps before a block of alb/affix_allocator.hpp.
use allocator_builder.Base.{
  ℕ, ◌+◌, ◌-◌, ◌*◌, ◌%◌, ◌^◌, ◌≤◌, ◌<◌, ◌≡◌, ◌≢◌, refl, ◌∙◌, arith, true, false, ◌&&◌, none, some,
  ◌⊎◌, inl, inr, leb, ltb, ◌==◌, if◌then◌else◌, add64, sub64, mul64, word_mod, Bool-cases, ne→==,
  le→leb, lt→ltb,
}
use allocator_builder.Block.{Block, is_set, Memory}
use allocator_builder.Block.Bytes.{read_bytes, write_bytes, read-write_bytes, read_bytes_same}
use allocator_builder.Allocator.{Allocator}
use allocator_builder.AffixAllocator
use allocator_builder.AffixAllocator.{
  Affix, affix_allocator, outer_to_prefix, to_outer_block, to_inner_block,
}
use allocator_builder.StlAllocator.{length_prefix, allocate, deallocate}

-- `affix_allocator_helper::no_affix`
abbrev pub no_affix : Affix
no_affix = record { size = 0; construct = λ p m. m; destroy = λ p m. m }

-- The memory `later`, but with the four bytes at `p` as in `m`
abbrev pub kept_at : ℕ → Memory → Memory → Memory
kept_at p m later a = if leb p a && ltb a (p + 4) then m a else later a

product_pos : (a b : ℕ) → 0 < a → 0 < b → 0 < a * b
product_pos a b p q = grind arith

module _ (size : ℕ) (P : Allocator) where
  abbrev pub prefixed : Allocator
  prefixed = affix_allocator P length_prefix no_affix

  abbrev pub prefix_of : Block → ℕ
  prefix_of = outer_to_prefix P length_prefix no_affix

  -- Whatever is written behind the length of the block
  read_length :
      (p v : ℕ) (m later : Memory)
      → read_bytes 4 p (kept_at p (write_bytes 4 p v m) later) ≡ v % 2 ^ 32
  read_length p v m later =
      read_bytes_same 4 p (write_bytes 4 p v m) (kept_at p (write_bytes 4 p v m) later)
        (λ x lo hi. rw (le→leb p x lo, lt→ltb x (p + 4) hi) refl)
      ∙ read-write_bytes 4 p v m

  -- What `allocate` leaves: the pointer, and the length in front of it
  allocate_set :
      (n : ℕ) (s : P.State) (m : Memory)
      → 0 < n * size
      → 4 + n * size < word_mod
      → let (inner, s', m') = P.allocate (4 + n * size) s m in
        is_set inner ≡ true
        → 4 + n * size ≤ inner.length
        → inner.ptr + inner.length < word_mod
        → allocate size prefixed prefix_of n s m ≡ (
          some (inner.ptr + 4),
          s',
          write_bytes 4 inner.ptr ((inner.length - 4) % 2 ^ 32) (write_bytes 4 inner.ptr 0 m'),
        )
  unfolding allocate AffixAllocator.allocate AffixAllocator.inner_to_prefix
      AffixAllocator.construct_at to_outer_block outer_to_prefix
  allocate_set n s m pos small set room fits =
      let (inner, s', m') = P.allocate (4 + n * size) s m in
      let bytes : mul64 n size ≡ n * size = omega arith in
      let whole : add64 (add64 4 (n * size)) 0 ≡ 4 + n * size = omega arith in
      let given : n * size ≢ 0 = λ e. omega arith in
      let length : sub64 (sub64 inner.length 4) 0 ≡ inner.length - 4 = omega arith in
      let pointer : add64 inner.ptr 4 ≡ inner.ptr + 4 = omega arith in
      let back : sub64 (inner.ptr + 4) 4 ≡ inner.ptr = omega arith in
      let left : inner.length - 4 ≢ 0 = λ e. omega arith in
      rw
        (
          bytes,
          ne→== (n * size) 0 given,
          whole,
          set,
          length,
          pointer,
          ne→== (inner.length - 4) 0 left,
          back,
        )
        refl

  allocate_unset :
      (n : ℕ) (s : P.State) (m : Memory)
      → 0 < n * size
      → 4 + n * size < word_mod
      → let (inner, s', m') = P.allocate (4 + n * size) s m in
        is_set inner ≡ false → allocate size prefixed prefix_of n s m ≡ (none, s', m')
  unfolding allocate AffixAllocator.allocate
  allocate_unset n s m pos small unset =
      let bytes : mul64 n size ≡ n * size = omega arith in
      let whole : add64 (add64 4 (n * size)) 0 ≡ 4 + n * size = omega arith in
      let given : n * size ≢ 0 = λ e. omega arith in
      rw (bytes, ne→== (n * size) 0 given, whole, unset) refl

  -- The block that `deallocate` makes of the length in front of the pointer, if it is not empty, goes
  -- back to the parent.
  abbrev pub given_back : ℕ → ℕ → P.State → Memory → Unit {0} × P.State × Memory
  given_back p length s m =
      if length == 0
      then (tt, s, m)
      else (let (_, s', m') = P.deallocate (record { ptr = p; length = length + 4 }) s m in
          (tt, s', m'))

  deallocate-given_back :
      (p n length : ℕ) (s : P.State) (m : Memory)
      → 0 < n
      → p + 4 < word_mod
      → length < 2 ^ 32
      → read_bytes 4 p m ≡ length
      → deallocate size prefixed prefix_of (p + 4) n s m ≡ given_back p length s m
  unfolding deallocate AffixAllocator.deallocate AffixAllocator.destroy_at to_inner_block
      outer_to_prefix
  deallocate-given_back p n length s m pos fits short e =
      let set : n ≢ 0 = λ x. omega arith in
      let back : sub64 (p + 4) 4 ≡ p = omega arith in
      let whole : add64 length (add64 4 0) ≡ length + 4 = omega arith in
      elim (Bool-cases (length == 0)) [
        | inl none_left ↦ rw (ne→== n 0 set, back, e, none_left) refl
        | inr some_left ↦ rw (ne→== n 0 set, back, e, some_left, whole) refl
      ]

  -- If the parent's block for `n` objects and the length in front of them is of that size and in the
  -- address space, then: the exception is thrown exactly if the parent refuses; the objects lie
  -- behind the length, inside of the parent's block; and whatever else has been written since, the
  -- parent gets back its block with the length of the client's part reduced modulo 2 ^ 32, or
  -- nothing if that is 0.
  pub deallocate-allocate_objects :
      (n : ℕ) (s s2 : P.State) (m later : Memory)
      → 0 < n
      → 0 < size
      → 4 + n * size < word_mod
      → let (inner, s', m') = P.allocate (4 + n * size) s m in
        (is_set inner ≡ true
          → (4 + n * size ≤ inner.length) × (inner.ptr + inner.length < word_mod))
        → let (r, s'', m'') = allocate size prefixed prefix_of n s m in
          let now = kept_at inner.ptr m'' later in
          (s'' ≡ s')
          × (((is_set inner ≡ false) × (r ≡ none) × (m'' ≡ m'))
              ⊎ ((is_set inner ≡ true)
                  × (r ≡ some (inner.ptr + 4))
                  × (deallocate size prefixed prefix_of (inner.ptr + 4) n s2 now
                      ≡ given_back inner.ptr ((inner.length - 4) % 2 ^ 32) s2 now)))
  deallocate-allocate_objects n s s2 m later many sized small serves =
      let (inner, s', m') = P.allocate (4 + n * size) s m in
      let pos = product_pos n size many sized in
      elim (Bool-cases (is_set inner)) [
        | inr unset ↦ rw (allocate_unset n s m pos small unset) (refl, inl (unset, refl, refl))
        | inl set ↦
            let (room, fits) = serves set in
            rw (allocate_set n s m pos small set room fits) (
              refl,
              inr (
                set,
                refl,
                deallocate-given_back inner.ptr n ((inner.length - 4) % 2 ^ 32) s2 _ many
                    (omega arith) (omega arith)
                    (read_length inner.ptr ((inner.length - 4) % 2 ^ 32) _ later ∙ omega arith),
              ),
            )
      ]
