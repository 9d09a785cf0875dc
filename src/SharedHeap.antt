-- ===== src/SharedHeap.antt =====
-- alb/shared_heap.hpp: the heap for several threads. Its operations are programs (`Program`) whose
-- steps the threads interleave; the registers, the mutex and the member `all_set` are shared.
pub mod Program
pub mod Registers
pub mod Searches
pub mod Threads
pub mod Schedule
pub mod Logic
pub mod Sound
pub mod Exchange
pub mod Steps
pub mod Rules
pub mod Frees
pub mod Takes
pub mod Finds
pub mod Requests
pub mod Client
pub mod Lifetime
pub mod Alone
mod Tests
use allocator_builder.Base.{
  ℕ, zero, suc, ◌+◌, ◌-◌, ◌/◌, ◌%◌, max, Bool, true, false, not, ◌&&◌, Option, none, some, ◌==◌,
  leb, ltb, if◌then◌else◌, add64, sub64, mul64, int_of, sub_int, leb_int, word_of, div_int, rem_int,
}
use allocator_builder.Block.{Block, empty_block, reset, is_set, round_to_alignment}
use allocator_builder.Control.{BlockContext}
use allocator_builder.Control.Register.{all_set}
use Program.{Prog, ret, shared, unique, acquire, release, store, copy, ◌>>=◌, ◌>>◌}
use Registers.{
  set_within_single_register, set_over_multiple_registers, test_and_set_within_single_register,
  test_and_set_over_multiple_registers, free_registers,
}
use Searches.{take_single, take_complete, take_multiple, take_overlap}

-- The members that no operation of a thread changes
pub record SharedHeap : Type 0 where
  pub number_of_chunks : ℕ
  pub chunk_size : ℕ
  pub buffer : Block
  pub control_buffer : Block
  pub control_size : ℕ

pub owns : SharedHeap → Block → Bool
owns h b = is_set b && (leb h.buffer.ptr b.ptr && ltb b.ptr (add64 h.buffer.ptr h.buffer.length))

unfoldable pub block_to_context : SharedHeap → Block → BlockContext
block_to_context h b =
    let block_index = int_of (sub64 b.ptr h.buffer.ptr / h.chunk_size) in
    record {
      register_index = div_int block_index 64;
      sub_index = rem_int block_index 64;
      used_chunks = int_of (b.length / h.chunk_size);
    }

-- The result for the first chunk that a search took
unfoldable pub of_taken : SharedHeap → ℕ → Option ℕ → Block
of_taken h n none = empty_block
of_taken h n (some start) = record {
  ptr = add64 h.buffer.ptr (mul64 start h.chunk_size);
  length = mul64 n h.chunk_size;
}

-- The context of the `n` chunks of a block after its first `k`
unfoldable pub behind : BlockContext → ℕ → ℕ → BlockContext
behind c k n = record c { sub_index = c.sub_index + k; used_chunks = n }

-- `attempts` are the rounds of each loop around a compare-exchange.
module _ (attempts : ℕ) (h : SharedHeap) where
  -- `if (result) return result;`, and after it the search with overlap
  unfoldable pub or_with_overlap : ℕ → Option ℕ → Prog Block
  or_with_overlap n (some start) = ret (of_taken h n (some start))
  or_with_overlap n none = do
    start ← take_overlap h.control_size attempts (λ i. block_to_context h (of_taken h n (some i))) n
    ret (of_taken h n start)

  unfoldable pub allocate_blocks : ℕ → Prog Block
  allocate_blocks n =
      if ltb n 64
      then take_single n h.control_size 0 >>= or_with_overlap n
      else if n == 64
      then take_complete h.control_size attempts >>= or_with_overlap n
      else if (n % 64) == 0
      then take_multiple h.control_size n >>= or_with_overlap n
      else or_with_overlap n none

  unfoldable pub allocate : ℕ → Prog Block
  allocate n =
      if n == 0
      then ret empty_block
      else if ltb (mul64 h.chunk_size h.number_of_chunks) n
      then ret empty_block
      else allocate_blocks (max 1 (round_to_alignment h.chunk_size n / h.chunk_size))

  -- What `deallocate` does with the chunks of a block
  unfoldable pub free_chunks : BlockContext → Prog (Unit {0})
  free_chunks c =
      if leb (c.sub_index + c.used_chunks) 64
      then set_within_single_register attempts (some shared) true c
      else if (c.used_chunks % 64) == 0
      then free_registers (c.used_chunks / 64) c.register_index
      else set_over_multiple_registers attempts (some shared) true c

  unfoldable pub deallocate : Block → Prog Block
  unfolding owns
  deallocate b =
      if not (is_set b)
      then ret b
      else if not (owns h b)
      then ret b
      else free_chunks (block_to_context h b) >> ret (reset b)

  -- `std::fill`, by the registers left
  unfoldable pub fill : ℕ → ℕ → Prog (Unit {0})
  fill zero index = ret tt
  fill (suc registers) index = store index all_set (fill registers (index + 1))

  unfoldable pub deallocate_all : Prog (Unit {0})
  deallocate_all = acquire unique (fill h.control_size 0) >> release unique (ret tt)

  -- The result of a test and set of `n` chunks behind the block
  abbrev pub grown : Block → ℕ → Bool → Bool × Block
  grown b n done =
      if done
      then (true, record b { length = add64 b.length (mul64 (word_of n) h.chunk_size) })
      else (false, b)

  unfoldable pub expand : Block → ℕ → Prog (Bool × Block)
  expand b delta =
      let c = block_to_context h b in
      let n = int_of (round_to_alignment h.chunk_size delta / h.chunk_size) in
      if delta == 0
      then ret (true, b)
      else if leb_int (c.sub_index + c.used_chunks + n) 64
      then (do
        done ← test_and_set_within_single_register attempts false (behind c c.used_chunks n)
        ret (grown b n done))
      else (do
        done ←
            test_and_set_over_multiple_registers h.control_size attempts false
              (behind c c.used_chunks n)
        ret (grown b n done))

  -- The chunks that a smaller block gives back
  unfoldable pub cut : Block → ℕ → Prog (Bool × Block)
  cut b n =
      let c = block_to_context h b in
      let rest = behind c n (sub_int c.used_chunks n) in
      (if leb_int (c.sub_index + c.used_chunks) 64
        then set_within_single_register attempts (some shared) true rest
        else set_over_multiple_registers attempts (some shared) true rest)
      >> ret (true, record b { length = mul64 (word_of n) h.chunk_size })

  -- `reallocateWithCopy(*this, *this, b, n)`
  unfoldable pub move : Block → ℕ → Prog (Bool × Block)
  move b n = do
    new_block ← allocate n
    if is_set new_block
        then copy b new_block (ret tt) >> deallocate b >> ret (true, new_block)
        else ret (false, b)

  -- The part of `reallocate` behind the cases that all allocators share
  unfoldable pub resize : Block → ℕ → Prog (Bool × Block)
  resize b n =
      let blocks = int_of (b.length / h.chunk_size) in
      let needed = int_of (round_to_alignment h.chunk_size n / h.chunk_size) in
      if blocks == needed then ret (true, b) else if ltb n b.length then cut b needed else move b n

  -- `isHandledDefault`, for a class that has `expand`
  unfoldable pub is_handled_default : Block → ℕ → Prog (Bool × Block)
  is_handled_default b n =
      if b.length == n
      then ret (true, b)
      else if n == 0
      then (do b' ← deallocate b; ret (true, b'))
      else if is_set b
      then (if ltb b.length n then expand b (n - b.length) else ret (false, b))
      else (do b' ← allocate n; ret (true, b'))

  unfoldable pub reallocate : Block → ℕ → Prog (Bool × Block)
  reallocate b n = do
    (handled, b') ← is_handled_default b n
    if handled then ret (true, b') else resize b' n
