-- ===== src/SharedHeap/Requests.antt =====
-- What `allocate` and `deallocate` of the shared heap take and free, in any interleaving.
use allocator_builder.Base.{
  ℕ, ◌+◌, ◌*◌, ◌≤◌, ◌<◌, ◌≡◌, ◌≢◌, inr, refl, sym, ap, subst, ◌∙◌, arith, Bool, true, none, some,
  Option, dec_lt, lt→ltb, ge→ltb, eq→==, ne→==, ◌/◌, ◌%◌, ℕ_discrete, max, word_mod, int_max,
  replicate, length-replicate, mul64,
}
use allocator_builder.Block.{Block, empty_block, round_to_alignment}
use allocator_builder.Control.Register.{all_set}
use allocator_builder.Heap.{Heap}
use allocator_builder.Heap as Single
use allocator_builder.Heap.Layout.{
  context_at, block_at, to_block-eq, block_to_context-eq, owns-block_at,
}
use allocator_builder.Heap.Granted.{product_pos}
use allocator_builder.SharedHeap.{
  SharedHeap, owns, block_to_context, of_taken, or_with_overlap, allocate_blocks, allocate,
  deallocate, free_chunks,
}
use allocator_builder.SharedHeap.Program.{ret, Mode, outside}
use allocator_builder.SharedHeap.Searches.{take_single, take_overlap}
use allocator_builder.SharedHeap.Logic.{View, Ok, Ok-bind}
use allocator_builder.SharedHeap.Rules.{Assigns}
use allocator_builder.SharedHeap.Frees.{Owns, Freed, free_chunks-Ok}
use allocator_builder.SharedHeap.Finds.{Taken, take_single-Ok, take_overlap-Ok}

-- The members as those of a heap for one thread
abbrev pub as_heap : SharedHeap → Heap
as_heap h = record {
  number_of_chunks = h.number_of_chunks;
  chunk_size = h.chunk_size;
  buffer = h.buffer;
  control_buffer = h.control_buffer;
  control = replicate h.control_size all_set;
}

pub record IsValid (h : SharedHeap) : Type 0 where
  pub chunky : 0 < h.chunk_size
  pub counted : h.number_of_chunks ≡ 64 * h.control_size
  pub sized : h.buffer.length ≡ h.chunk_size * h.number_of_chunks
  pub nonnull : 0 < h.buffer.ptr
  pub fits : h.buffer.ptr + h.buffer.length < word_mod
  pub countable : h.number_of_chunks ≤ int_max

-- The number of chunks for a request
abbrev pub chunks_for : SharedHeap → ℕ → ℕ
chunks_for h n = max 1 (round_to_alignment h.chunk_size n / h.chunk_size)

abbrev pub run_block : SharedHeap → ℕ → ℕ → Block
run_block h start n = block_at (as_heap h) start n

as_heap-IsValid : {h : SharedHeap} → IsValid h → Single.Layout.IsValid (as_heap h)
as_heap-IsValid {h} v = record {
  chunky = v.chunky;
  counted = rw (length-replicate h.control_size all_set) v.counted;
  sized = v.sized;
  nonnull = v.nonnull;
  fits = v.fits;
  countable = v.countable;
}

-- What a call of `allocate` that needs `n` chunks leaves
pub data Granted (h : SharedHeap) (n : ℕ) (p q : ℕ → Bool) : Block → Type 0 where
  refused : q ≡ p → Granted h n p q empty_block
  granted :
      (start : ℕ)
      → start + n ≤ h.number_of_chunks
      → Assigns true start n p q
      → Granted h n p q (run_block h start n)

module _ (attempts : ℕ) {h : SharedHeap} (v : IsValid h) where
  of_taken-eq :
      (start n : ℕ)
      → start + n ≤ h.number_of_chunks
      → of_taken h n (some start) ≡ run_block h start n
  unfolding of_taken Single.to_block
  of_taken-eq start n within = to_block-eq (as_heap-IsValid v) start n within

  context-eq :
      (start n : ℕ)
      → start + n ≤ h.number_of_chunks
      → block_to_context h (run_block h start n) ≡ context_at start n
  unfolding block_to_context Single.block_to_context
  context-eq start n within = block_to_context-eq (as_heap-IsValid v) start n within

  within_field : (start n : ℕ) → start + n ≤ 64 * h.control_size → start + n ≤ h.number_of_chunks
  within_field start n within = omega (arith, v.counted)

  Taken-Granted :
      (n : ℕ) (p : ℕ → Bool) (found : Option ℕ) (m : Mode) (w : View)
      → Taken h.control_size n p found m w
      → (m ≡ outside) × Granted h n p w.mine (of_taken h n found)
  unfolding of_taken
  Taken-Granted n p none m w (em, same) = (em, refused same)
  Taken-Granted n p (some start) m w (em, within, done) = (
    em,
    subst (Granted h n p w.mine) (sym (of_taken-eq start n (within_field start n within)))
        (granted start (within_field start n within) done),
  )

  or_with_overlap-Ok :
      (n : ℕ) (p : ℕ → Bool)
      → 0 < n
      → (found : Option ℕ) (m : Mode) (w : View) → Taken h.control_size n p found m w
      → Ok h.control_size
          (or_with_overlap attempts h n found)
          m
          w
          (λ b m' w'. (m' ≡ outside) × Granted h n p w'.mine b)
  unfolding or_with_overlap
  or_with_overlap-Ok n p pos (some start) m w taken = Taken-Granted n p (some start) m w taken
  or_with_overlap-Ok n p pos none m w (em, same) =
      rw (em, ← same)
        (Ok-bind h.control_size
          (take_overlap h.control_size attempts (λ i. block_to_context h (of_taken h n (some i))) n)
          (λ start. ret (of_taken h n start)) outside w (Taken h.control_size n w.mine) _
          (take_overlap-Ok h.control_size attempts n _ w pos (λ s within.
            ap (block_to_context h) (of_taken-eq s n (within_field s n within))
            ∙ context-eq s n (within_field s n within)))
          (Taken-Granted n w.mine))

  -- A request takes chunks that are its own, or gives a null block.
  pub allocate-Ok :
      (n : ℕ) (w : View)
      → chunks_for h n % 64 ≢ 0
      → Ok h.control_size
          (allocate attempts h n)
          outside
          w
          (λ b m w'. (m ≡ outside) × Granted h (chunks_for h n) w.mine w'.mine b)
  unfolding allocate allocate_blocks
  allocate-Ok n w part = elim (ℕ_discrete n 0) [
    | yes nothing ↦ rw (eq→== n 0 nothing) (refl, refused refl)
    | no some_bytes ↦
        rw (ne→== n 0 some_bytes) (elim (dec_lt (mul64 h.chunk_size h.number_of_chunks) n) [
          | yes too_many ↦
              rw (lt→ltb (mul64 h.chunk_size h.number_of_chunks) n too_many) (refl, refused refl)
          | no fitting ↦
              rw (ge→ltb (mul64 h.chunk_size h.number_of_chunks) n (omega arith))
                (elim (dec_lt (chunks_for h n) 64) [
                  | yes small ↦ rw (lt→ltb (chunks_for h n) 64 small) (
                      Ok-bind h.control_size (take_single (chunks_for h n) h.control_size 0) _
                        outside w _ _
                        (take_single-Ok h.control_size (chunks_for h n) h.control_size 0 w small
                          (omega arith))
                        (or_with_overlap-Ok (chunks_for h n) w.mine (omega arith)))
                  | no many ↦
                      let not_one : chunks_for h n ≢ 64 = λ e. ground arith in
                      rw
                        (
                          ge→ltb (chunks_for h n) 64 (omega arith),
                          ne→== (chunks_for h n) 64 not_one,
                          ne→== (chunks_for h n % 64) 0 part,
                        )
                        (or_with_overlap-Ok (chunks_for h n) w.mine (omega arith) none outside w
                          (refl, refl))
                ])
        ])
  ]

  owned :
      (start n : ℕ) → 0 < n → start + n ≤ h.number_of_chunks → owns h (run_block h start n) ≡ true
  unfolding owns Single.owns
  owned start n pos within = owns-block_at (as_heap-IsValid v) start n within pos

  -- A block of its own that a thread gives back
  pub deallocate-Ok :
      (start n : ℕ) (w : View)
      → 0 < n
      → n % 64 ≢ 0
      → start + n ≤ h.number_of_chunks
      → Owns start n w
      → Ok h.control_size
          (deallocate attempts h (run_block h start n))
          outside
          w
          (λ b. Freed start n w b)
  unfolding deallocate
  deallocate-Ok start n w pos part within own =
      let here : start / 64 * 64 + start % 64 ≡ start = omega arith in
      let big : n * h.chunk_size ≢ 0 =
        λ e. omega (arith, product_pos n h.chunk_size pos v.chunky) in
      rw (owned start n pos within, ne→== (n * h.chunk_size) 0 big, context-eq start n within)
        (Ok-bind h.control_size (free_chunks attempts h (context_at start n)) _ outside w
          (Freed (start / 64 * 64 + start % 64) n w) _
          (free_chunks-Ok attempts h (context_at start n) w pos (omega arith) (inr part)
            (omega (arith, v.counted)) (λ c lo hi. own c (omega arith) (omega arith)))
          (λ a m w' (em, freed). (em, rw here at freed)))
