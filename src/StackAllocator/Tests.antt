-- ===== src/StackAllocator/Tests.antt =====
-- Runs of a bump allocator of 64 bytes, aligned to 8, at address 1000.
use allocator_builder.Base.{ℕ, ◌+◌, ◌≤◌, ◌<◌, ◌≡◌, ◌⊎◌, refl, arith, true, false, min}
use allocator_builder.Block.{Block, empty_block, Memory, round_to_alignment, block_copy}
use allocator_builder.Allocator.Blocks.{Apart}
use allocator_builder.StackAllocator.{
  Arena, init, allocate, deallocate, expand, reallocate, deallocate_all, is_last_used_block, owns,
  move_to_end,
}
use allocator_builder.StackAllocator.Bounds.{
  IsValid, IsLive, allocate_cases, allocate_fails, deallocate-allocate_last, deallocate_others,
  expand_in_place,
}
use allocator_builder.StackAllocator.Resize.{reallocate_others, reallocate_contents}

-- 24 bytes are in use.
abbrev arena : Arena
arena = record { base = 1000; p = 1024 }

-- The memory that holds its own addresses
abbrev memory : Memory
memory a = a

abbrev lower : Block
lower = record { ptr = 1000; length = 16 }

abbrev upper : Block
upper = record { ptr = 1016; length = 8 }

arena-IsValid : IsValid 64 arena
arena-IsValid = omega arith

lower-IsLive : IsLive 8 arena lower
lower-IsLive = omega arith

upper-IsLive : IsLive 8 arena upper
upper-IsLive = omega arith

allocate_rounds : allocate 64 8 13 (init 64 8 1000) ≡ (lower, record { base = 1000; p = 1016 })
unfolding allocate init round_to_alignment
allocate_rounds = refl

allocate_full : allocate 64 8 41 arena ≡ (empty_block, arena)
unfolding allocate round_to_alignment
allocate_full = refl

deallocate_lower : deallocate 64 8 lower arena ≡ (empty_block, arena)
unfolding deallocate owns is_last_used_block
deallocate_lower = refl

expand_lower : expand 64 8 lower 8 arena ≡ ((false, lower), arena)
unfolding expand is_last_used_block
expand_lower = refl

deallocate_all-arena : deallocate_all 64 8 arena ≡ init 64 8 1000
unfolding deallocate_all init
deallocate_all-arena = refl

reallocate_moves :
    let ((done, b), s, m) = reallocate 64 8 lower 17 arena memory in
    (done ≡ true) × (b ≡ record { ptr = 1024; length = 24 }) × (s.p ≡ 1048) × (m 1039 ≡ 1015)
unfolding reallocate move_to_end is_last_used_block allocate round_to_alignment block_copy
reallocate_moves = (refl, refl, refl, refl)

allocate_cases_example :
    let (b, s') = allocate 64 8 13 arena in
    ((b ≡ empty_block) × (s' ≡ arena))
    ⊎ ((b.ptr ≡ 1024)
        × (13 ≤ b.length)
        × (b.length < 21)
        × (s'.base ≡ 1000)
        × (s'.p ≡ b.ptr + b.length)
        × IsLive 8 s' b
        × IsValid 64 s')
allocate_cases_example = allocate_cases 64 8 (omega arith) 13 arena-IsValid (omega arith)

allocate_fails_example : let n : ℕ = 41 in (n ≡ 0) ⊎ (1064 < 1024 + 48)
unfolding allocate round_to_alignment
allocate_fails_example = allocate_fails 64 8 (omega arith) 41 arena-IsValid (omega arith) refl

deallocate-allocate_last_example :
    let (b, s') = allocate 64 8 13 arena in (deallocate 64 8 b s' ≡ (empty_block, arena))
deallocate-allocate_last_example =
    deallocate-allocate_last 64 8 (omega arith) 13 arena-IsValid (omega arith)

deallocate_others_example :
    let (b', s') = deallocate 64 8 upper arena in
    (b' ≡ empty_block) × IsValid 64 s' × IsLive 8 s' lower
deallocate_others_example =
    deallocate_others 64 8 (omega arith) arena-IsValid upper-IsLive lower-IsLive (ground arith)

expand_in_place_example :
    let ((done, b'), s') = expand 64 8 upper 10 arena in
    IsValid 64 s'
    × IsLive 8 s' b'
    × IsLive 8 s' lower
    × Apart b' lower
    × (b'.ptr ≡ 1016)
    × (((done ≡ true) × (8 + 10 ≤ b'.length)) ⊎ ((done ≡ false) × (b' ≡ upper) × (s' ≡ arena)))
expand_in_place_example =
    expand_in_place 64 8 (omega arith) 10 arena-IsValid upper-IsLive lower-IsLive (ground arith)
      (omega arith)

reallocate_others_example :
    let ((done, b'), s', m') = reallocate 64 8 lower 17 arena memory in
    IsValid 64 s'
    × IsLive 8 s' b'
    × IsLive 8 s' upper
    × Apart b' upper
    × (((done ≡ true) × (17 ≤ b'.length)) ⊎ ((done ≡ false) × (b' ≡ lower) × (s' ≡ arena)))
reallocate_others_example =
    reallocate_others 64 8 (omega arith) 17 memory (omega arith) arena-IsValid lower-IsLive
      upper-IsLive (ground arith) (omega arith)

reallocate_contents_example :
    let ((done, b'), s', m') = reallocate 64 8 lower 17 arena memory in
    ((i : ℕ) → i < min 16 b'.length → m' (b'.ptr + i) ≡ 1000 + i) × ((a : ℕ) → a < 1024 → m' a ≡ a)
reallocate_contents_example =
    reallocate_contents 64 8 (omega arith) 17 memory (omega arith) arena-IsValid lower-IsLive
      (omega arith)
