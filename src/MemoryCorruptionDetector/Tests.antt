-- ===== src/MemoryCorruptionDetector/Tests.antt =====
-- A guard of four bytes.
use allocator_builder.Base.{◌^◌, ◌<◌, ◌≡◌, ◌↔◌, refl, arith, true, ◌==◌, ne→==, if◌then◌else◌}
use allocator_builder.Block.{Memory}
use allocator_builder.Block.Bytes.{write_bytes}
use allocator_builder.MemoryCorruptionDetector.{construct, holds}
use allocator_builder.MemoryCorruptionDetector.Guard.{holds-construct}

abbrev memory : Memory
memory a = 7

-- The client has written behind the guard.
abbrev written : Memory
written x = if x == 104 then 1 else construct 4 0xdeadbeef 100 memory x

guard_bytes : construct 4 0xdeadbeef 100 memory 103 ≡ 0xde
unfolding construct write_bytes
guard_bytes = refl

holds-construct_example : (holds 4 0xdeadbeef 100 written ≡ true) ↔ (0xdeadbeef < 256 ^ 4)
holds-construct_example =
    holds-construct 4 0xdeadbeef 100 memory written (λ x p q. rw (ne→== x 104 (omega arith)) refl)
