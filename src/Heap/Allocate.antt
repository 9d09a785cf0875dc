-- ===== src/Heap/Allocate.antt =====
-- `allocate`: what it hands out.
use native.Mathlib.Nat.{div-add-mod'}
use allocator_builder.Base.{
  ltb, ◌==◌, Bool-cases, ℕ, ◌+◌, ◌*◌, ◌/◌, ◌%◌, ◌≤◌, ◌<◌, ◌≡◌, refl, arith, word_mod, mul64, max,
  subst, ◌⊎◌, inl, inr, none, some, dec_lt, ℕ_discrete, lt→ltb, ge→ltb, eq→==, ne→==,
}
use allocator_builder.Block.{Block, empty_block, round_to_alignment}
use allocator_builder.Block.Rounding.{round_to_alignment_bounds}
use allocator_builder.Control.Search.{Found, search_single, search_complete, search_registers}
use allocator_builder.Control.Found.{Finds}
use allocator_builder.Control.Single.{search_single-Finds}
use allocator_builder.Control.Complete.{search_complete-Finds, search_registers-Finds}
use allocator_builder.Heap.{
  Heap, of_found, allocate_with_register_overlap, or_with_overlap, allocate_blocks, allocate,
  allocate_within_a_single_control_register, allocate_within_complete_control_register,
  allocate_multiple_complete_control_registers,
}
use allocator_builder.Heap.Granted.{Granted, Outcome, found-Granted, of_found-Outcome, Granted-set}
use allocator_builder.Heap.Overlap.{overlap-Outcome}
use allocator_builder.Heap.Layout.{IsValid}

-- A result that is set is passed on; after any other the search with overlap decides.
or_with_overlap-Outcome :
    {h : Heap} (n : ℕ) (r : Block × Heap)
    → IsValid h
    → 0 < n
    → Outcome n h r
    → (r ≡ (empty_block, h) → Outcome n h (allocate_with_register_overlap n h))
    → Outcome n h (or_with_overlap n r)
unfolding or_with_overlap
or_with_overlap-Outcome {h} n (result, h') v pos (inl (e, e')) next =
    rw (e, e') (next (ground arith))
or_with_overlap-Outcome {h} n (result, h') v pos (inr g) next =
    rw (Granted-set {h = h} v pos g) (inr g)

-- A search that hands out a block has found one.
of_found_empty :
    {h : Heap} (n : ℕ) (found : Found)
    → IsValid h
    → 0 < n
    → Finds n 0 h.control found
    → of_found h n found ≡ (empty_block, h)
    → found ≡ none
unfolding of_found
of_found_empty n none v pos f e = refl
of_found_empty {h} n (some (start, control')) v pos f e =
    absurd
      (ground (arith, Granted-set {h = h} v pos (found-Granted {h = h} n start control' v pos f)))

-- Each branch of `allocate` hands out free chunks, or nothing.
pub allocate_blocks-Outcome :
    {h : Heap} (n : ℕ) → IsValid h → 0 < n → Outcome n h (allocate_blocks n h)
unfolding allocate_blocks allocate_within_a_single_control_register
    allocate_within_complete_control_register allocate_multiple_complete_control_registers
allocate_blocks-Outcome {h} n v pos = elim (dec_lt n 64) [
  | yes few ↦ rw (lt→ltb n 64 few) (
      or_with_overlap-Outcome n _ v pos
        (of_found-Outcome n (search_single n 0 h.control) v pos (single few))
        (λ e.
          overlap-Outcome n v pos
            (λ _. of_found_empty n (search_single n 0 h.control) v pos (single few) e)))
  | no many ↦ rw (ge→ltb n 64 (omega arith)) (elim (ℕ_discrete n 64) [
    | yes one ↦ rw (eq→== n 64 one) (
        or_with_overlap-Outcome n _ v pos
          (of_found-Outcome n (search_complete 0 h.control) v pos
            (rw one (search_complete-Finds 0 h.control)))
          (λ _. plain many))
    | no more ↦ rw (ne→== n 64 more) (elim (ℕ_discrete (n % 64) 0) [
      | yes whole ↦ rw (eq→== (n % 64) 0 whole) (
          or_with_overlap-Outcome n _ v pos
            (of_found-Outcome n (search_registers (n / 64) 0 h.control) v pos (registers whole))
            (λ _. plain many))
      | no part ↦ rw (ne→== (n % 64) 0 part) (plain many)
    ])
  ])
]
  where
    single : n < 64 → Finds n 0 h.control (search_single n 0 h.control)
    single few = search_single-Finds n 0 h.control (omega arith)

    registers : n % 64 ≡ 0 → Finds n 0 h.control (search_registers (n / 64) 0 h.control)
    registers whole =
        subst (λ k. Finds k 0 h.control (search_registers (n / 64) 0 h.control)) (omega arith)
          (search_registers-Finds (n / 64) 0 h.control)

    plain : ¬ (n < 64) → Outcome n h (allocate_with_register_overlap n h)
    plain many = overlap-Outcome n v pos (λ few. absurd (many few))

-- The number of chunks for a request
pub chunks_for :
    (n chunk : ℕ)
    → 0 < n
    → 0 < chunk
    → n + chunk ≤ word_mod
    → let k = round_to_alignment chunk n / chunk in
      (0 < k) × (n ≤ k * chunk) × (k * chunk < n + chunk)
chunks_for n chunk pos chunky fits =
    let (whole, above, below) = round_to_alignment_bounds chunk n chunky fits in
    let exact : round_to_alignment chunk n / chunk * chunk ≡ round_to_alignment chunk n =
      omega (arith, div-add-mod' (round_to_alignment chunk n) chunk) in
    let some_chunk : 0 < round_to_alignment chunk n / chunk = grind arith in
    (some_chunk, omega arith, omega arith)

blocks_for :
    (n chunk : ℕ)
    → 0 < n
    → 0 < chunk
    → n + chunk ≤ word_mod
    → let k = max 1 (round_to_alignment chunk n / chunk) in
      (0 < k) × (n ≤ k * chunk) × (k * chunk < n + chunk)
blocks_for n chunk pos chunky fits =
    let (some_chunk, enough, tight) = chunks_for n chunk pos chunky fits in
    let same : max 1 (round_to_alignment chunk n / chunk) ≡ round_to_alignment chunk n / chunk =
      omega arith in
    rw same (some_chunk, enough, tight)

-- A request for `n` bytes that does not wrap around gets nothing, and changes nothing, or a block of
-- the bytes of as many free chunks as hold `n` bytes, and exactly those chunks become used.
pub allocate_lem :
    {h : Heap} (n : ℕ)
    → IsValid h
    → n + h.chunk_size ≤ word_mod
    → let (b, h') = allocate n h in
      ((b ≡ empty_block) × (h' ≡ h))
      ⊎ ((k : ℕ) × (0 < k)
          × (n ≤ k * h.chunk_size)
          × (k * h.chunk_size < n + h.chunk_size)
          × Granted k h b h')
unfolding allocate
allocate_lem {h} n v fits = elim (ℕ_discrete n 0) [
  | yes nothing ↦ rw (eq→== n 0 nothing) (inl (refl, refl))
  | no wanted ↦ rw (ne→== n 0 wanted) (elim (dec_lt (mul64 h.chunk_size h.number_of_chunks) n) [
    | yes huge ↦ rw (lt→ltb (mul64 h.chunk_size h.number_of_chunks) n huge) (inl (refl, refl))
    | no fitting ↦ rw (ge→ltb (mul64 h.chunk_size h.number_of_chunks) n (omega arith)) (
        let (pos, enough, tight) = blocks_for n h.chunk_size (omega arith) v.chunky fits in
        elim (allocate_blocks-Outcome (max 1 (round_to_alignment h.chunk_size n / h.chunk_size)) v
          pos) [
            | inl empty ↦ inl empty
            | inr g ↦
                inr
                  (max 1 (round_to_alignment h.chunk_size n / h.chunk_size), pos, enough, tight, g)
          ])
  ])
]

-- The heap stays valid.
pub Granted-IsValid : {k : ℕ} {h h' : Heap} {b : Block} → IsValid h → Granted k h b h' → IsValid h'
Granted-IsValid {h = h} {h' = h'} v g = ground (arith, g.others, g.takes.taken.same_length)

pub allocate-IsValid :
    {h : Heap} (n : ℕ) → IsValid h → n + h.chunk_size ≤ word_mod → IsValid (allocate n h).1
allocate-IsValid {h} n v fits = elim (allocate_lem n v fits) [
  | inl (_, e) ↦ rw e v
  | inr (k, _, _, _, g) ↦ Granted-IsValid v g
]

-- No member but the bit field is changed.
pub allocate_others :
    {h : Heap} (n : ℕ)
    → IsValid h
    → (allocate n h).1 ≡ record h { control = (allocate n h).1.control }
unfolding allocate
allocate_others {h} n v = elim (Bool-cases (n == 0)) [
  | inl nothing ↦ rw nothing refl
  | inr wanted ↦ elim (Bool-cases (ltb (mul64 h.chunk_size h.number_of_chunks) n)) [
    | inl huge ↦ rw (wanted, huge) refl
    | inr fitting ↦
        rw (wanted, fitting)
          (blocks (allocate_blocks (max 1 (round_to_alignment h.chunk_size n / h.chunk_size)) h) (
            allocate_blocks-Outcome (max 1 (round_to_alignment h.chunk_size n / h.chunk_size)) v
              (omega arith)))
  ]
]
  where
    blocks : (r : Block × Heap) {k : ℕ} → Outcome k h r → r.1 ≡ record h { control = r.1.control }
    blocks (b, h') (inl (_, e)) = rw e refl
    blocks (b, h') (inr g) = g.others
