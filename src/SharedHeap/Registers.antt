-- ===== src/SharedHeap/Registers.antt =====
-- The loops of alb/shared_heap.hpp that set and test runs of chunks. A loop that repeats a
-- compare-exchange until it succeeds is given `attempts` rounds, after which it spins.
use allocator_builder.Base.{
  ℕ, zero, suc, ◌+◌, ◌-◌, Bool, true, false, not, Option, none, some, ◌==◌, leb, ltb, if◌then◌else◌,
  bit_and, sub64,
}
use allocator_builder.Control.{BlockContext}
use allocator_builder.Control.Register.{all_set, set_used, shl}
use allocator_builder.SharedHeap.Program.{
  Lock, shared, unique, Prog, ret, spinning, load, exchange, get_all_set, store, acquire, release,
  ◌>>=◌, ◌>>◌,
}

-- `LockPolicy guard(_mutex);` at the end of a loop's body, which is left before the condition
abbrev pub guard : Option Lock → Prog (Unit {0})
guard none = ret tt
guard (some l) = acquire l (release l (ret tt))

-- The mask of a run of chunks in one register
abbrev pub run_mask : BlockContext → Prog ℕ
run_mask c =
    if c.used_chunks == 64
    then get_all_set ret
    else ret (shl (sub64 (shl 1 c.used_chunks) 1) c.sub_index)

-- The mask of a round over several registers
abbrev pub round_mask : ℕ → ℕ → Prog ℕ
round_mask chunks_to_test sub_index_start =
    if ltb 0 sub_index_start
    then ret (shl (sub64 (shl 1 (sub64 64 sub_index_start)) 1) sub_index_start)
    else if leb 64 chunks_to_test
    then get_all_set ret
    else ret (sub64 (shl 1 chunks_to_test) 1)

-- `do { … } while (!CAS(_control[index], …));`, as in all functions that set chunks
unfoldable pub set_register : ℕ → Option Lock → Bool → ℕ → ℕ → Prog (Unit {0})
set_register zero policy used index mask = spinning
set_register (suc attempts) policy used index mask = load index λ current.
    guard policy
    >> exchange index current (set_used used current mask)
        λ done observed. if done then ret tt else set_register attempts policy used index mask

-- The loop of `testAndSetWithinSingleRegister`
unfoldable pub test_and_set_register : ℕ → Bool → ℕ → ℕ → Prog Bool
test_and_set_register zero used index mask = spinning
test_and_set_register (suc attempts) used index mask = load index λ current.
    if not (bit_and current mask == mask)
    then ret false
    else guard (some shared)
      >> exchange index current (set_used used current mask)
          λ done observed. if done then ret true else test_and_set_register attempts used index mask

unfoldable pub test_and_set_within_single_register : ℕ → Bool → BlockContext → Prog Bool
test_and_set_within_single_register attempts used c = do
  mask ← run_mask c
  test_and_set_register attempts used c.register_index mask

unfoldable pub set_within_single_register : ℕ → Option Lock → Bool → BlockContext → Prog (Unit {0})
set_within_single_register attempts policy used c = do
  mask ← run_mask c
  set_register attempts policy used c.register_index mask

-- The outer loop of `setOverMultipleRegisters`, by the registers left
unfoldable pub set_rounds : ℕ → ℕ → Option Lock → Bool → ℕ → ℕ → ℕ → Prog (Unit {0})
set_rounds attempts zero policy used register_index sub_index_start chunks_to_test = spinning
set_rounds attempts (suc rounds) policy used register_index sub_index_start chunks_to_test = do
  mask ← round_mask chunks_to_test sub_index_start
  set_register attempts policy used register_index mask
  if ltb 64 (sub_index_start + chunks_to_test)
      then set_rounds attempts rounds policy used (register_index + 1) 0
          (sub_index_start + chunks_to_test - 64)
      else ret tt

unfoldable pub set_over_multiple_registers : ℕ → Option Lock → Bool → BlockContext → Prog (Unit {0})
set_over_multiple_registers attempts policy used c =
    set_rounds attempts (suc (c.sub_index + c.used_chunks)) policy used c.register_index c.sub_index
      c.used_chunks

-- The loop of `testAndSetOverMultipleRegisters`, by the registers left
unfoldable pub test_rounds : ℕ → ℕ → ℕ → ℕ → ℕ → Prog Bool
test_rounds control_size zero register_index sub_index_start chunks_to_test = spinning
test_rounds control_size (suc rounds) register_index sub_index_start chunks_to_test = do
  mask ← round_mask chunks_to_test sub_index_start
  current ← load register_index ret
  if not (bit_and current mask == mask)
      then ret false
      else if ltb control_size (register_index + 1)
      then ret false
      else if ltb 64 (sub_index_start + chunks_to_test)
      then test_rounds control_size rounds (register_index + 1) 0
          (sub_index_start + chunks_to_test - 64)
      else ret true

-- The lock is left at each `return`.
unfoldable pub test_and_set_over_multiple_registers : ℕ → ℕ → Bool → BlockContext → Prog Bool
test_and_set_over_multiple_registers control_size attempts used c = do
  acquire unique (ret tt)
  free ←
      test_rounds control_size (suc (c.sub_index + c.used_chunks)) c.register_index c.sub_index
        c.used_chunks
  if free then set_over_multiple_registers attempts none used c else ret tt
  release unique (ret free)

-- `deallocateForMultipleCompleteControlRegister`, by the registers left
unfoldable pub free_registers : ℕ → ℕ → Prog (Unit {0})
free_registers zero i = ret tt
free_registers (suc rounds) i =
    acquire shared (store i all_set (release shared (free_registers rounds (i + 1))))
