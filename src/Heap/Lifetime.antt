-- ===== src/Heap/Lifetime.antt =====
-- The constructor of alb/heap.hpp and `shrink`, over the underlying allocator.
use allocator_builder.Base.{
  ℕ, ◌+◌, ◌*◌, ◌/◌, ◌≤◌, ◌<◌, ◌≡◌, refl, arith, Option, none, some, List, [], int_max, ltb, ge→ltb,
  ne→==, ◌==◌, if◌then◌else◌, ℕ_discrete, replicate, length-replicate, mul64, word_mod,
}
use mathlib.Core.Option
use allocator_builder.Block.{Block, Memory, round_to_alignment}
use allocator_builder.Block.Rounding.{round_to_alignment_bounds}
use allocator_builder.Op.{Op, ◌>>=◌, pure}
use allocator_builder.Allocator.{Allocator}
use allocator_builder.Control.Register.{all_set}
use allocator_builder.Control.Chunks.{free, free-replicate}
use allocator_builder.Heap.{Heap}
use allocator_builder.Heap.Layout.{IsValid}

-- `std::fill` of so many registers from the start of a buffer on; none where it has no room for them
unfoldable pub registers_in : Block → ℕ → Option (List ℕ)
registers_in b n =
    if n == 0
    then some []
    else if b.ptr == 0
    then none
    else if ltb b.length (8 * n)
    then none
    else some (replicate n all_set)

pub registers_in-fitting :
    (b : Block) (n : ℕ)
    → 0 < b.ptr
    → 8 * n ≤ b.length
    → registers_in b n ≡ some (replicate n all_set)
unfolding registers_in
registers_in-fitting b n nonnull room = elim (ℕ_discrete n 0) [
  | yes nothing ↦ rw nothing refl
  | no wanted ↦
      rw
        (
          ne→== n 0 wanted,
          ne→== b.ptr 0 (λ e. omega (arith, nonnull)),
          ge→ltb b.length (8 * n) (omega (arith, room)),
        )
        refl
]

-- The sizes that the constructor asks for
abbrev pub control_size : ℕ → ℕ
control_size number = 8 * (round_to_alignment 64 number / 64)

abbrev pub buffer_size : ℕ → ℕ → ℕ
buffer_size number chunk = round_to_alignment 4 chunk * round_to_alignment 64 number

pub control_bytes :
    (number : ℕ)
    → number + 64 ≤ word_mod
    → mul64 8 (round_to_alignment 64 number / 64) ≡ control_size number
control_bytes number few = omega (arith, round_to_alignment_bounds 64 number (omega arith) few)

module _ (A : Allocator) where
  open A use {State, allocate, deallocate}

  -- `init`: the registers stand in the control buffer, all set by `deallocateAll`. The asserted
  -- success of both allocations is not checked in a release build: where the control buffer has no
  -- room for the registers, the code writes outside of it, and there is no heap.
  unfoldable pub init : ℕ → ℕ → Op State (Option Heap)
  unfolding registers_in
  init number_of_chunks chunk_size = do
    control_buffer ← allocate (mul64 8 (number_of_chunks / 64))
    buffer ← allocate (mul64 chunk_size number_of_chunks)
    pure (
        Option.map
          (λ control. record {
            number_of_chunks = number_of_chunks;
            chunk_size = chunk_size;
            buffer = buffer;
            control_buffer = control_buffer;
            control = control;
          })
          (registers_in control_buffer (number_of_chunks / 64)))

  -- `heap(size_t numberOfChunks, size_t chunkSize)`
  unfoldable pub construct : ℕ → ℕ → Op State (Option Heap)
  unfolding init
  construct number_of_chunks chunk_size =
      init (round_to_alignment 64 number_of_chunks) (round_to_alignment 4 chunk_size)

  -- `shrink`; no registers are left behind.
  pub shrink : Heap → Op State Heap
  shrink h = do
    control_buffer ← deallocate h.control_buffer
    buffer ← deallocate h.buffer
    pure (record h { control_buffer = control_buffer; buffer = buffer; control = [] })

  -- A heap is made on the two buffers that the underlying allocator gives, the control buffer first.
  pub construct-buffers :
      (number chunk : ℕ) (s : State) (m : Memory)
      → number + 64 ≤ word_mod
      → buffer_size number chunk < word_mod
      → let (controls, s', m') = allocate (control_size number) s m in
        let (buffer, s'', m'') = allocate (buffer_size number chunk) s' m' in
        0 < controls.ptr
        → control_size number ≤ controls.length
        → construct number chunk s m ≡ (
          some (record {
            number_of_chunks = round_to_alignment 64 number;
            chunk_size = round_to_alignment 4 chunk;
            buffer = buffer;
            control_buffer = controls;
            control = replicate (round_to_alignment 64 number / 64) all_set;
          }),
          s'',
          m'',
        )
  unfolding construct init
  construct-buffers number chunk s m few fits nonnull room =
      rw
        (
          control_bytes number few,
          buffer_bytes,
          registers_in-fitting (allocate (control_size number) s m).0
              (round_to_alignment 64 number / 64) nonnull room,
        )
        refl
    where
      buffer_bytes :
          mul64 (round_to_alignment 4 chunk) (round_to_alignment 64 number)
          ≡ buffer_size number chunk
      buffer_bytes = omega (arith, fits)

  -- Where the underlying allocator gives buffers of the sizes that were asked for, and an `int` can
  -- count the chunks, there is a new heap on these buffers, which is valid, has at least the wanted
  -- number of chunks of at least the wanted size, and all of them are free.
  pub construct_lem :
      (number chunk : ℕ) (s : State) (m : Memory)
      → 0 < chunk
      → chunk + 4 ≤ word_mod
      → number + 64 ≤ int_max
      → let (controls, s', m') = allocate (control_size number) s m in
        let (buffer, s'', m'') = allocate (buffer_size number chunk) s' m' in
        0 < controls.ptr
        → control_size number ≤ controls.length
        → 0 < buffer.ptr
        → buffer.length ≡ buffer_size number chunk
        → buffer.ptr + buffer.length < word_mod
        → (h : Heap) × (construct number chunk s m ≡ (some h, s'', m''))
          × (h.buffer ≡ buffer)
          × (h.control_buffer ≡ controls)
          × IsValid h
          × (number ≤ h.number_of_chunks)
          × (chunk ≤ h.chunk_size)
          × ((c : ℕ) → c < h.number_of_chunks → free h.control c ≡ 1)
  construct_lem number chunk s m pos small few there room nonnull sized fits =
      let (whole, enough, tight) =
        round_to_alignment_bounds 64 number (omega arith) (omega arith) in
      let (_, large, _) = round_to_alignment_bounds 4 chunk (omega arith) small in
      let registers = length-replicate (round_to_alignment 64 number / 64) all_set in
      (
        _,
        construct-buffers number chunk s m (omega arith) (omega (arith, sized, fits)) there room,
        refl,
        refl,
        record {
          chunky = omega arith;
          counted = omega (arith, registers);
          sized = sized;
          nonnull = nonnull;
          fits = fits;
          countable = omega (arith, tight);
        },
        enough,
        large,
        λ c lt. free-replicate (round_to_alignment 64 number / 64) c (omega arith),
      )
