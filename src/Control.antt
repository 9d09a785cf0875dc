-- ===== src/Control.antt =====
-- The control bit field of alb/heap.hpp: an array of 64-bit registers, a set bit for each free
-- chunk. Register reads past the array give 0 and writes there do nothing.
pub mod Register
pub mod Search
pub mod Chunks
pub mod Multiple
pub mod Found
pub mod Single
pub mod Complete
pub mod Overlap
pub mod Grow
pub mod Lengths
mod Tests
use allocator_builder.Base.{
  ℕ, zero, suc, ◌+◌, ◌-◌, ◌*◌, ◌/◌, ◌%◌, ◌≤◌, ◌<◌, Bool, true, false, List, [], ◌∷◌, ◌==◌, not, leb,
  ltb, if◌then◌else◌, bit_and, length, get_or, set, replicate, sub64,
}
use Register.{all_set, set_used, shl, single_mask}

-- `BlockContext`
pub record BlockContext : Type 0 where
  pub register_index : ℕ
  pub sub_index : ℕ
  pub used_chunks : ℕ

-- The mask of a round of the loops over several registers
unfoldable pub multiple_mask : ℕ → ℕ → ℕ
multiple_mask chunks_to_test sub_index_start =
    if ltb 0 sub_index_start
    then shl (sub64 (shl 1 (sub64 64 sub_index_start)) 1) sub_index_start
    else if leb 64 chunks_to_test
    then all_set
    else sub64 (shl 1 chunks_to_test) 1

-- `setWithinSingleRegister`
unfoldable pub set_within_single_register : Bool → BlockContext → List ℕ → List ℕ
set_within_single_register used c control =
    set control c.register_index
      (set_used used (get_or control c.register_index 0) (single_mask c.used_chunks c.sub_index))

-- `testAndSetWithinSingleRegister`
unfoldable pub test_and_set_within_single_register : Bool → BlockContext → List ℕ → Bool × List ℕ
test_and_set_within_single_register used c control =
    let mask = single_mask c.used_chunks c.sub_index in
    if not (bit_and (get_or control c.register_index 0) mask == mask)
    then (false, control)
    else (true, set_within_single_register used c control)

-- The `do … while` of `setOverMultipleRegisters`; a round handles at least one chunk, so as many
-- rounds as chunks are enough.
unfoldable pub set_rounds : ℕ → Bool → ℕ → ℕ → ℕ → List ℕ → List ℕ
set_rounds zero used register_index sub_index_start chunks_to_test control = control
set_rounds (suc rounds) used register_index sub_index_start chunks_to_test control =
    let mask = multiple_mask chunks_to_test sub_index_start in
    let control' =
      set control register_index (set_used used (get_or control register_index 0) mask) in
    let rest =
      set_rounds rounds used (register_index + 1) 0 (sub_index_start + chunks_to_test - 64)
        control' in
    if ltb 64 (sub_index_start + chunks_to_test) then rest else control'

-- `setOverMultipleRegisters`
unfoldable pub set_over_multiple_registers : Bool → BlockContext → List ℕ → List ℕ
set_over_multiple_registers used c =
    set_rounds (suc (c.sub_index + c.used_chunks)) used c.register_index c.sub_index c.used_chunks

-- The `do … while` of `testAndSetOverMultipleRegisters`: may the chunks be set?
unfoldable pub test_rounds : ℕ → ℕ → ℕ → ℕ → List ℕ → Bool
test_rounds zero register_index sub_index_start chunks_to_test control = false
test_rounds (suc rounds) register_index sub_index_start chunks_to_test control =
    let mask = multiple_mask chunks_to_test sub_index_start in
    let rest =
      test_rounds rounds (register_index + 1) 0 (sub_index_start + chunks_to_test - 64) control in
    if not (bit_and (get_or control register_index 0) mask == mask)
    then false
    else if ltb (length control) (register_index + 1)
    then false
    else if ltb 64 (sub_index_start + chunks_to_test)
    then rest
    else true

-- `testAndSetOverMultipleRegisters`
unfoldable pub test_and_set_over_multiple_registers : Bool → BlockContext → List ℕ → Bool × List ℕ
test_and_set_over_multiple_registers used c control =
    if test_rounds (suc (c.sub_index + c.used_chunks)) c.register_index c.sub_index c.used_chunks
      control
    then (true, set_over_multiple_registers used c control)
    else (false, control)

-- `for (i = registerIndex; i < registerToFree; i++) _control[i] = -1;`, by the rounds left
unfoldable pub fill_registers : ℕ → ℕ → ℕ → List ℕ → List ℕ
fill_registers zero i v control = control
fill_registers (suc rounds) i v control = fill_registers rounds (i + 1) v (set control i v)

-- `deallocateForMultipleCompleteControlRegister`
unfoldable pub deallocate_for_multiple_complete_control_register : BlockContext → List ℕ → List ℕ
deallocate_for_multiple_complete_control_register c =
    fill_registers (c.used_chunks / 64) c.register_index all_set

-- `deallocateWithControlRegisterOverlap`
unfoldable pub deallocate_with_control_register_overlap : BlockContext → List ℕ → List ℕ
deallocate_with_control_register_overlap = set_over_multiple_registers true

-- `deallocateAll`: `std::fill`
unfoldable pub set_all : List ℕ → List ℕ
set_all control = replicate (length control) all_set

-- What `deallocate` does with the chunks of a block
unfoldable pub free_chunks : BlockContext → List ℕ → List ℕ
free_chunks c control =
    if leb (c.sub_index + c.used_chunks) 64
    then set_within_single_register true c control
    else if (c.used_chunks % 64) == 0
    then deallocate_for_multiple_complete_control_register c control
    else deallocate_with_control_register_overlap c control
