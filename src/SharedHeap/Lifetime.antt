-- ===== src/SharedHeap/Lifetime.antt =====
-- The constructor of alb/shared_heap.hpp and `shrink`, over the underlying allocator.
use allocator_builder.Base.{
  ℕ, ◌+◌, ◌/◌, ◌≤◌, ◌<◌, ◌≡◌, arith, List, [], length, replicate, length-replicate, mul64, word_mod,
  int_max, Option, some, refl,
}
use mathlib.Core.Option
use allocator_builder.Heap.Lifetime.{
  registers_in, registers_in-fitting, control_size, buffer_size, control_bytes,
}
use allocator_builder.Block.{Memory, round_to_alignment}
use allocator_builder.Block.Rounding.{round_to_alignment_bounds}
use allocator_builder.Op.{Op, ◌>>=◌, pure}
use allocator_builder.Allocator.{Allocator}
use allocator_builder.Control.Register.{all_set}
use allocator_builder.Control.Chunks.{free, free-replicate}
use allocator_builder.SharedHeap.{SharedHeap}
use allocator_builder.SharedHeap.Requests.{IsValid}

module _ (A : Allocator) where
  open A use {State, allocate, deallocate}

  -- `init`: the members, and the registers in the control buffer, which `deallocateAll` has set. The
  -- asserted success of both allocations is not checked in a release build: where the control buffer
  -- has no room for the registers, the code writes outside of it, and there is no heap.
  unfoldable pub init : ℕ → ℕ → Op State (Option (SharedHeap × List ℕ))
  unfolding registers_in
  init number_of_chunks chunk_size = do
    control_buffer ← allocate (mul64 8 (number_of_chunks / 64))
    buffer ← allocate (mul64 chunk_size number_of_chunks)
    pure (
        Option.map
          (λ control. (
            record {
              number_of_chunks = number_of_chunks;
              chunk_size = chunk_size;
              buffer = buffer;
              control_buffer = control_buffer;
              control_size = number_of_chunks / 64;
            },
            control,
          ))
          (registers_in control_buffer (number_of_chunks / 64)))

  -- `shared_heap(size_t numberOfChunks, size_t chunkSize)`
  unfoldable pub construct : ℕ → ℕ → Op State (Option (SharedHeap × List ℕ))
  unfolding init
  construct number_of_chunks chunk_size =
      init (round_to_alignment 64 number_of_chunks) (round_to_alignment 4 chunk_size)

  -- `shrink`; no registers are left behind.
  pub shrink : SharedHeap → Op State (SharedHeap × List ℕ)
  shrink h = do
    control_buffer ← deallocate h.control_buffer
    buffer ← deallocate h.buffer
    pure (record h { control_buffer = control_buffer; buffer = buffer }, [])

  -- A heap is made on the two buffers that the underlying allocator gives, the control buffer first.
  construct-buffers :
      (number chunk : ℕ) (s : State) (m : Memory)
      → number + 64 ≤ word_mod
      → buffer_size number chunk < word_mod
      → let (controls, s', m') = allocate (control_size number) s m in
        let (buffer, s'', m'') = allocate (buffer_size number chunk) s' m' in
        0 < controls.ptr
        → control_size number ≤ controls.length
        → construct number chunk s m ≡ (
          some (
            record {
              number_of_chunks = round_to_alignment 64 number;
              chunk_size = round_to_alignment 4 chunk;
              buffer = buffer;
              control_buffer = controls;
              control_size = round_to_alignment 64 number / 64;
            },
            replicate (round_to_alignment 64 number / 64) all_set,
          ),
          s'',
          m'',
        )
  unfolding construct init
  construct-buffers number chunk s m few fits nonnull room =
      rw
        (
          control_bytes number few,
          buffer_bytes,
          registers_in-fitting (allocate (control_size number) s m).0
              (round_to_alignment 64 number / 64) nonnull room,
        )
        refl
    where
      buffer_bytes :
          mul64 (round_to_alignment 4 chunk) (round_to_alignment 64 number)
          ≡ buffer_size number chunk
      buffer_bytes = omega (arith, fits)

  -- Where the underlying allocator gives buffers of the sizes that were asked for, and an `int` can
  -- count the chunks, there is a new shared heap on these buffers, which is valid, has at least the
  -- wanted number of chunks of at least the wanted size, a register for each 64 of them, and all
  -- chunks are free.
  pub construct-IsValid :
      (number chunk : ℕ) (s : State) (m : Memory)
      → 0 < chunk
      → chunk + 4 ≤ word_mod
      → number + 64 ≤ int_max
      → let (controls, s', m') = allocate (control_size number) s m in
        let (buffer, s'', m'') = allocate (buffer_size number chunk) s' m' in
        0 < controls.ptr
        → control_size number ≤ controls.length
        → 0 < buffer.ptr
        → buffer.length ≡ buffer_size number chunk
        → buffer.ptr + buffer.length < word_mod
        → (h : SharedHeap) × (control : List ℕ) × (construct number chunk s m
            ≡ (some (h, control), s'', m''))
          × (h.buffer ≡ buffer)
          × (h.control_buffer ≡ controls)
          × IsValid h
          × (length control ≡ h.control_size)
          × (number ≤ h.number_of_chunks)
          × (chunk ≤ h.chunk_size)
          × ((c : ℕ) → c < h.number_of_chunks → free control c ≡ 1)
  construct-IsValid number chunk s m pos small few there room nonnull sized fits =
      let (whole, enough, tight) =
        round_to_alignment_bounds 64 number (omega arith) (omega arith) in
      let (_, large, _) = round_to_alignment_bounds 4 chunk (omega arith) small in
      (
        _,
        _,
        construct-buffers number chunk s m (omega arith) (omega (arith, sized, fits)) there room,
        refl,
        refl,
        record {
          chunky = omega arith;
          counted = omega arith;
          sized = sized;
          nonnull = nonnull;
          fits = fits;
          countable = omega (arith, tight);
        },
        length-replicate (round_to_alignment 64 number / 64) all_set,
        enough,
        large,
        λ c lt. free-replicate (round_to_alignment 64 number / 64) c (omega arith),
      )
