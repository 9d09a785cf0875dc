-- ===== src/AllocatorWithStats/Tests.antt =====
-- The statistics of a bump allocator, and the list of its outstanding blocks.
use allocator_builder.Base.{
  ℕ, ◌+◌, ◌-◌, ◌≡◌, refl, arith, Bool, true, false, none, List, [], ◌∷◌, ◌==◌, leb, if◌then◌else◌,
  sub64, map,
}
use allocator_builder.Block.{Block, Memory, empty_block}
use allocator_builder.Op.{Op, pure}
use allocator_builder.Allocator.{Allocator}
use allocator_builder.Allocator.Blocks.{here, there}
use allocator_builder.AllocatorWithStats.{
  AllocationInfo, Layout, State, initial, push, unlink, relink, allocate, deallocate, reallocated,
  reallocate, infos,
}
use allocator_builder.AllocatorWithStats.Counts.{
  StatsOption, update_high_tide, count_allocate, count_deallocate, count_reallocate, count_in_place,
  count_reallocate_ok,
}
use allocator_builder.AllocatorWithStats.Balance.{Collects}
use allocator_builder.AllocatorWithStats.Client.{
  allocates, deallocates, reallocates, Reach, begin, next, Reach-Balanced,
}

-- It never takes anything back, and shrinks blocks in place.
abbrev bump_reallocate : Block → ℕ → Op ℕ (Bool × Block)
bump_reallocate b n = pure (if leb n b.length then (true, record b { length = n }) else (false, b))

abbrev bump_expand : Block → ℕ → Op ℕ (Bool × Block)
bump_expand b delta = pure (false, b)

abbrev bump : Allocator
bump = record {
  State = ℕ;
  supports_truncated_deallocation = false;
  allocate = λ n p m. (record { ptr = p + 64; length = n }, p + 64 + n, m);
  deallocate = λ b. pure empty_block;
  reallocate = bump_reallocate;
  owns = λ p b. true;
  expand = none;
  deallocate_all = none;
}

abbrev put : ℕ → ℕ → Memory → Memory
put a v m b = if a == b then v else m b

-- A cell for each member
abbrev cells : Layout
cells = record {
  read = λ a m. record {
    caller_size = m a;
    caller_file = m (a + 1);
    caller_function = m (a + 2);
    caller_line = m (a + 3);
    caller_time = m (a + 4);
    previous = m (a + 5);
    next = m (a + 6);
  };
  write = λ a i m. put a i.caller_size (
      put (a + 1) i.caller_file (
        put (a + 2) i.caller_function (
          put (a + 3) i.caller_line
            (put (a + 4) i.caller_time (put (a + 5) i.previous (put (a + 6) i.next m))))));
}

abbrev all_flags : StatsOption → Bool
all_flags o = true

abbrev info_at : Block → ℕ
info_at b = b.ptr - 32

abbrev memory : Memory
memory a = 0

abbrev start : State bump all_flags cells info_at
start = initial bump all_flags cells info_at 4096

-- Three blocks, the second one of which is released: the list has the third and the first.
abbrev without_second : List AllocationInfo
without_second =
    let (a, s, m) = allocate bump all_flags cells info_at 10 1 2 3 4 start memory in
    let (b, s', m') = allocate bump all_flags cells info_at 20 1 2 3 4 s m in
    let (c, s'', m'') = allocate bump all_flags cells info_at 30 1 2 3 4 s' m' in
    let (_, t, w) = deallocate bump all_flags cells info_at b s'' m'' in
    infos bump all_flags cells info_at 5 t.1.root w

second_leaves : map (λ i. i.caller_size) without_second ≡ 30 ∷ 10 ∷ []
unfolding allocate push deallocate unlink infos initial count_allocate count_deallocate
    update_high_tide
second_leaves = refl

-- If the newest block is released, all others are lost from the list.
abbrev without_newest : List AllocationInfo
without_newest =
    let (a, s, m) = allocate bump all_flags cells info_at 10 1 2 3 4 start memory in
    let (b, s', m') = allocate bump all_flags cells info_at 20 1 2 3 4 s m in
    let (_, t, w) = deallocate bump all_flags cells info_at b s' m' in
    infos bump all_flags cells info_at 5 t.1.root w

newest_takes_all : map (λ i. i.caller_size) without_newest ≡ []
unfolding allocate push deallocate unlink infos initial count_allocate count_deallocate
    update_high_tide
newest_takes_all = refl

collects : Collects all_flags
collects = record { allocated = refl; deallocated = refl; high_tide = refl }

-- 100 and 50 bytes, of which the first are released and the second shrink to 30
abbrev first : Block × State bump all_flags cells info_at × Memory
first = allocate bump all_flags cells info_at 100 1 2 3 4 start memory

abbrev second : Block × State bump all_flags cells info_at × Memory
second = allocate bump all_flags cells info_at 50 1 2 3 4 first.1 memory

abbrev third : Block × State bump all_flags cells info_at × Memory
third = deallocate bump all_flags cells info_at first.0 second.1 memory

abbrev fourth : (Bool × Block) × State bump all_flags cells info_at × Memory
fourth = reallocate bump all_flags cells info_at second.0 30 third.1 memory

fourth-Reach : Reach bump all_flags cells info_at bump_expand 4096 fourth.1 (fourth.0.1 ∷ []) 150
unfolding allocate push deallocate unlink reallocate reallocated relink initial count_allocate
    count_deallocate update_high_tide count_reallocate count_reallocate_ok count_in_place
fourth-Reach =
    next
      (next
        (next (next begin (allocates 100 1 2 3 4 memory (omega arith)))
          (allocates 50 1 2 3 4 memory (omega arith)))
        (deallocates memory (there here)))
      (reallocates 30 memory here (omega arith))

Reach-Balanced_example :
    (sub64 fourth.1.1.counters.bytes_allocated fourth.1.1.counters.bytes_deallocated ≡ 30)
    × (fourth.1.1.counters.bytes_high_tide ≡ 150)
unfolding allocate push deallocate unlink reallocate reallocated relink initial count_allocate
    count_deallocate update_high_tide count_reallocate count_reallocate_ok count_in_place
Reach-Balanced_example =
    Reach-Balanced bump all_flags cells info_at bump_expand collects (λ b n s m e. ground arith)
      (λ b n s m e. refl) fourth-Reach
