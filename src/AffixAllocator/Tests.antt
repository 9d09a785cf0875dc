-- ===== src/AffixAllocator/Tests.antt =====
-- A guard of 4 bytes before and one of 2 bytes behind each block of a bump allocator.
use allocator_builder.Base.{
  ℕ, ◌+◌, ◌≡◌, ◌⊎◌, refl, arith, true, false, ltb, leb, ◌&&◌, if◌then◌else◌,
}
use allocator_builder.Block.{Block, empty_block, is_set, Memory, round_to_alignment}
use allocator_builder.Allocator.{Allocator}
use allocator_builder.StackAllocator
use allocator_builder.StackAllocator.{Arena, stack_allocator}
use allocator_builder.AffixAllocator.{Affix, allocate, to_outer_block, inner_to_sufix}
use allocator_builder.AffixAllocator.Around.{Around, allocate-Around}

abbrev parent : Allocator
parent = stack_allocator 256 8

-- An object of `size` bytes, all of them `mark`
abbrev guard : ℕ → ℕ → Affix
guard size mark = record {
  size = size;
  construct = λ p m a. if leb p a && ltb a (p + size) then mark else m a;
  destroy = λ p m. m;
}

abbrev before : Affix
before = guard 4 171

abbrev behind : Affix
behind = guard 2 205

abbrev memory : Memory
memory a = 0

abbrev arena : Arena
arena = record { base = 1000; p = 1000 }

-- 24 bytes of the parent: the guards stand at 1000 and at 1022.
allocate_marks :
    let (b, s, m) = allocate parent before behind 12 arena memory in
    (b ≡ record { ptr = 1004; length = 18 })
    × (m 1003 ≡ 171)
    × (m 1004 ≡ 0)
    × (m 1021 ≡ 0)
    × (m 1022 ≡ 205)
unfolding allocate inner_to_sufix to_outer_block StackAllocator.allocate round_to_alignment
allocate_marks = (refl, refl, refl, refl, refl)

allocate-Around_example :
    let inner : Block = record { ptr = 1000; length = 24 } in
    let (b, s'', m'') = allocate parent before behind 12 arena memory in
    (s'' ≡ record { base = 1000; p = 1024 })
    × (((is_set inner ≡ false) × (b ≡ empty_block) × (m'' ≡ memory))
        ⊎ ((is_set inner ≡ true) × Around parent before behind 12 inner b))
unfolding StackAllocator.allocate round_to_alignment
allocate-Around_example =
    allocate-Around parent before behind 12 arena memory (omega arith) (omega arith)
      (λ set. (omega arith, omega arith))
