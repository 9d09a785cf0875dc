-- ===== src/Heap.antt =====
-- alb/heap.hpp: a heap of equal chunks with a bit field of free ones (`Control`).
pub mod Lifetime
pub mod Layout
pub mod Granted
pub mod Overlap
pub mod Allocate
pub mod Deallocate
pub mod Client
pub mod Live
pub mod Serves
pub mod Expand
pub mod Keeps
pub mod Shrink
mod Tests
use allocator_builder.Base.{
  ℕ, ◌+◌, ◌-◌, ◌/◌, ◌%◌, max, Bool, true, false, not, ◌&&◌, List, Option, none, some, ◌==◌, leb,
  ltb, if◌then◌else◌, add64, sub64, mul64, int_of, sub_int, leb_int, word_of, div_int, rem_int,
}
use allocator_builder.Block.{Block, empty_block, reset, is_set, round_to_alignment}
use allocator_builder.Op.{Op, ◌>>=◌, pure}
use allocator_builder.Allocator.{Allocator}
use allocator_builder.Reallocator.{reallocate_with_copy, is_handled_default}
use allocator_builder.Control.{
  BlockContext, set_within_single_register, set_over_multiple_registers, set_all, free_chunks,
  deallocate_with_control_register_overlap, test_and_set_within_single_register,
  test_and_set_over_multiple_registers,
}
use allocator_builder.Control.Search.{
  Found, search_single, search_complete, search_registers, search_overlap,
}

-- The members but the underlying allocator. `_control` and `_controlSize` are the list of registers
-- and its length.
pub record Heap : Type 0 where
  pub number_of_chunks : ℕ
  pub chunk_size : ℕ
  pub buffer : Block
  pub control_buffer : Block
  pub control : List ℕ

unfoldable pub owns : Heap → Block → Bool
owns h b = is_set b && (leb h.buffer.ptr b.ptr && ltb b.ptr (add64 h.buffer.ptr h.buffer.length))

unfoldable pub block_to_context : Heap → Block → BlockContext
block_to_context h b =
    let block_index = int_of (sub64 b.ptr h.buffer.ptr / h.chunk_size) in
    record {
      register_index = div_int block_index 64;
      sub_index = rem_int block_index 64;
      used_chunks = int_of (b.length / h.chunk_size);
    }

-- The block of `n` chunks from `start` on
unfoldable pub to_block : Heap → ℕ → ℕ → Block
to_block h n start = record {
  ptr = add64 h.buffer.ptr (mul64 start h.chunk_size);
  length = mul64 n h.chunk_size;
}

-- The block for what a search of the bit field found
unfoldable pub of_found : Heap → ℕ → Found → Block × Heap
of_found h n none = (empty_block, h)
of_found h n (some (start, control)) = (to_block h n start, record h { control = control })

unfoldable pub allocate_within_a_single_control_register : ℕ → Heap → Block × Heap
unfolding of_found
allocate_within_a_single_control_register n h = of_found h n (search_single n 0 h.control)

unfoldable pub allocate_within_complete_control_register : ℕ → Heap → Block × Heap
unfolding of_found
allocate_within_complete_control_register n h = of_found h n (search_complete 0 h.control)

unfoldable pub allocate_multiple_complete_control_registers : ℕ → Heap → Block × Heap
unfolding of_found
allocate_multiple_complete_control_registers n h =
    of_found h n (search_registers (n / 64) 0 h.control)

-- `setOverMultipleRegisters<false>(blockToContext(result))`
unfoldable pub mark_used : Heap → Block → Heap
unfolding block_to_context
mark_used h b = record h {
  control = set_over_multiple_registers false (block_to_context h b) h.control;
}

unfoldable pub allocate_with_register_overlap : ℕ → Heap → Block × Heap
unfolding to_block mark_used
allocate_with_register_overlap n h = elim (search_overlap n h.control) [
  | none ↦ (empty_block, h)
  | some start ↦ (to_block h n start, mark_used h (to_block h n start))
]

-- `if (result) return result;`, and after it the search with overlap
unfoldable pub or_with_overlap : ℕ → Block × Heap → Block × Heap
or_with_overlap n (result, h) =
    if is_set result then (result, h) else allocate_with_register_overlap n h

-- The branches of `allocate` by the number of chunks
unfoldable pub allocate_blocks : ℕ → Heap → Block × Heap
allocate_blocks n h =
    if ltb n 64
    then or_with_overlap n (allocate_within_a_single_control_register n h)
    else if n == 64
    then or_with_overlap n (allocate_within_complete_control_register n h)
    else if (n % 64) == 0
    then or_with_overlap n (allocate_multiple_complete_control_registers n h)
    else allocate_with_register_overlap n h

unfoldable pub allocate : ℕ → Heap → Block × Heap
allocate n h =
    if n == 0
    then (empty_block, h)
    else if ltb (mul64 h.chunk_size h.number_of_chunks) n
    then (empty_block, h)
    else allocate_blocks (max 1 (round_to_alignment h.chunk_size n / h.chunk_size)) h

unfoldable pub deallocate : Block → Heap → Block × Heap
unfolding owns block_to_context
deallocate b h =
    if not (is_set b)
    then (b, h)
    else if not (owns h b)
    then (b, h)
    else (reset b, record h { control = free_chunks (block_to_context h b) h.control })

unfoldable pub deallocate_all : Heap → Heap
deallocate_all h = record h { control = set_all h.control }

-- The context of the `n` chunks of a block after its first `k`
unfoldable pub behind : BlockContext → ℕ → ℕ → BlockContext
behind c k n = record c { sub_index = c.sub_index + k; used_chunks = n }

-- The result of a test and set of `n` chunks behind the block
unfoldable pub grown : Block → ℕ → Heap → Bool × List ℕ → (Bool × Block) × Heap
grown b n h (done, control) =
    if done
    then (
      (true, record b { length = add64 b.length (mul64 (word_of n) h.chunk_size) }),
      record h { control = control },
    )
    else ((false, b), h)

unfoldable pub expand : Block → ℕ → Heap → (Bool × Block) × Heap
unfolding block_to_context behind grown
expand b delta h =
    let c = block_to_context h b in
    let n = int_of (round_to_alignment h.chunk_size delta / h.chunk_size) in
    if delta == 0
    then ((true, b), h)
    else if leb_int (c.sub_index + c.used_chunks + n) 64
    then grown b n h
        (test_and_set_within_single_register false (behind c c.used_chunks n) h.control)
    else grown b n h
        (test_and_set_over_multiple_registers false (behind c c.used_chunks n) h.control)

-- The chunks that a smaller block gives back
unfoldable pub cut : Block → ℕ → Heap → Block × Heap
unfolding block_to_context behind
cut b n h =
    let c = block_to_context h b in
    let rest = behind c n (sub_int c.used_chunks n) in
    (
      record b { length = mul64 (word_of n) h.chunk_size },
      record h {
        control =
            if leb_int (c.sub_index + c.used_chunks) 64
            then set_within_single_register true rest h.control
            else deallocate_with_control_register_overlap rest h.control;
      },
    )

-- The operations as steps, for the code that they share with other allocators
abbrev pub allocate_op : ℕ → Op Heap Block
allocate_op n h m = let (b, h') = allocate n h in (b, h', m)

abbrev pub deallocate_op : Block → Op Heap Block
deallocate_op b h m = let (b', h') = deallocate b h in (b', h', m)

abbrev pub expand_op : Block → ℕ → Op Heap (Bool × Block)
expand_op b delta h m = let (r, h') = expand b delta h in (r, h', m)

-- The part of `reallocate` behind the cases that all allocators share
unfoldable pub resize : Block → ℕ → Op Heap (Bool × Block)
unfolding cut
resize b n h m =
    let blocks = int_of (b.length / h.chunk_size) in
    let needed = int_of (round_to_alignment h.chunk_size n / h.chunk_size) in
    if blocks == needed
    then ((true, b), h, m)
    else if ltb n b.length
    then (let (b', h') = cut b needed h in ((true, b'), h', m))
    else reallocate_with_copy deallocate_op allocate_op b n h m

unfoldable pub reallocate : Block → ℕ → Op Heap (Bool × Block)
unfolding resize
reallocate b n = do
  (handled, b') ← is_handled_default allocate_op deallocate_op (some expand_op) b n
  if handled then pure (true, b') else resize b' n

-- The class as a template argument
abbrev pub heap : Allocator
heap = record {
  State = Heap;
  supports_truncated_deallocation = true;
  allocate = allocate_op;
  deallocate = deallocate_op;
  reallocate = reallocate;
  owns = owns;
  expand = some expand_op;
  deallocate_all = some (λ h m. (tt, deallocate_all h, m));
}
