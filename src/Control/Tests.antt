-- ===== src/Control/Tests.antt =====
-- Runs on a bit field of two registers.
use allocator_builder.Base.{
  ℕ, ◌*◌, ◌%◌, ◌^◌, ◌≤◌, ◌<◌, ◌≡◌, inr, refl, arith, true, false, List, [], ◌∷◌, some,
}
use allocator_builder.Control.{
  BlockContext, set_over_multiple_registers, set_rounds, multiple_mask,
  test_and_set_over_multiple_registers, test_rounds,
}
use allocator_builder.Control.Register.{all_set, shl, set_used, low_mask}
use allocator_builder.Control.Search.{
  search_single, find_in_register, search_overlap, start_or, scan_bytes, bytes, bytes_of,
}
use allocator_builder.Control.Chunks.{free, Sets}
use allocator_builder.Control.Multiple.{set_over_multiple_registers-Sets}
use allocator_builder.Control.Single.{search_single_complete}
use allocator_builder.Control.Overlap.{search_overlap-free}

abbrev all_free_control : List ℕ
all_free_control = all_set ∷ all_set ∷ []

abbrev all_used : List ℕ
all_used = 0 ∷ 0 ∷ []

-- The chunks from the 60th on, ten of them
abbrev across : BlockContext
across = record { register_index = 0; sub_index = 60; used_chunks = 10 }

set_across : set_over_multiple_registers true across all_used ≡ 15 * 2 ^ 60 ∷ 63 ∷ []
unfolding set_over_multiple_registers set_rounds multiple_mask set_used shl
set_across = refl

test_across_used : test_and_set_over_multiple_registers false across all_used ≡ (false, all_used)
unfolding test_and_set_over_multiple_registers test_rounds multiple_mask set_used shl
test_across_used = refl

search_single_second : search_single 3 0 (1 ∷ 14 ∷ []) ≡ some (65, 1 ∷ 0 ∷ [])
unfolding search_single find_in_register set_used low_mask shl
search_single_second = refl

search_overlap_across : search_overlap 16 (255 * 2 ^ 56 ∷ 255 ∷ []) ≡ some 56
unfolding search_overlap scan_bytes start_or bytes bytes_of
search_overlap_across = refl

set_over_multiple_registers-Sets_example :
    Sets 0 60 10 all_free_control (set_over_multiple_registers false across all_free_control)
set_over_multiple_registers-Sets_example =
    set_over_multiple_registers-Sets false across all_free_control (omega arith) (omega arith)
      (inr (omega arith)) (omega arith)

-- No three free chunks in a row
search_single_complete_example : ¬ ((c : ℕ) → 65 ≤ c → c < 68 → free (1 ∷ 6 ∷ []) c ≡ 1)
unfolding search_single find_in_register low_mask shl
search_single_complete_example =
    search_single_complete 3 0 (1 ∷ 6 ∷ []) (omega arith) (omega arith) refl 1 1 (omega arith)

search_overlap-free_example :
    (56 % 8 ≡ 0) × ((c : ℕ) → 56 ≤ c → c < 72 → free (255 * 2 ^ 56 ∷ 255 ∷ []) c ≡ 1)
search_overlap-free_example =
    search_overlap-free 16 (255 * 2 ^ 56 ∷ 255 ∷ []) 56 search_overlap_across
