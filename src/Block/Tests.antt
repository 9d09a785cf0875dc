-- ===== src/Block/Tests.antt =====
-- Runs of the operations on blocks.
use allocator_builder.Base.{◌%◌, ◌≤◌, ◌<◌, ◌≡◌, inl, refl, arith, false}
use allocator_builder.Block.{
  Block, empty_block, move_assign, block_eq, round_to_alignment, Memory, block_copy,
}
use allocator_builder.Block.Rounding.{round_to_alignment_bounds}
use allocator_builder.Block.Copy.{block_copy_inside, block_copy_outside}

-- The memory that holds its own addresses
abbrev memory : Memory
memory a = a

abbrev source : Block
source = record { ptr = 100; length = 8 }

abbrev target : Block
target = record { ptr = 200; length = 16 }

round_up_seven : round_to_alignment 4 7 ≡ 8
unfolding round_to_alignment
round_up_seven = refl

move_assign_resets : move_assign target source ≡ (source, empty_block)
unfolding move_assign
move_assign_resets = refl

block_eq_other : block_eq source target ≡ false
unfolding block_eq
block_eq_other = refl

round_to_alignment_bounds_example :
    (round_to_alignment 4 7 % 4 ≡ 0) × (7 ≤ round_to_alignment 4 7) × (round_to_alignment 4 7 < 11)
round_to_alignment_bounds_example = round_to_alignment_bounds 4 7 (omega arith) (omega arith)

block_copy_inside_example : block_copy source target memory 207 ≡ 107
block_copy_inside_example = block_copy_inside source target memory 7 (omega arith)

block_copy_outside_example : block_copy source target memory 199 ≡ 199
block_copy_outside_example = block_copy_outside source target memory 199 (inl (omega arith))
