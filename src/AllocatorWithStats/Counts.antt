-- ===== src/AllocatorWithStats/Counts.antt =====
-- The counters of alb/allocator_with_stats.hpp and how each operation changes them; words of 64 bits.
use allocator_builder.Base.{ℕ, ◌^◌, Bool, ◌&&◌, ◌==◌, ltb, if◌then◌else◌, add64, sub64}
use allocator_builder.Block.{Block, is_set}

pub data StatsOption : Type 0 where
  num_owns : StatsOption
  num_allocate : StatsOption
  num_allocate_ok : StatsOption
  num_expand : StatsOption
  num_expand_ok : StatsOption
  num_reallocate : StatsOption
  num_reallocate_ok : StatsOption
  num_reallocate_in_place : StatsOption
  num_deallocate : StatsOption
  num_deallocate_all : StatsOption
  bytes_allocated : StatsOption
  bytes_deallocated : StatsOption
  bytes_expanded : StatsOption
  bytes_contracted : StatsOption
  bytes_moved : StatsOption
  bytes_slack : StatsOption
  bytes_high_tide : StatsOption
  caller_size : StatsOption
  caller_file : StatsOption
  caller_function : StatsOption
  caller_line : StatsOption
  caller_time : StatsOption

pub record Counters : Type 0 where
  pub num_owns : ℕ
  pub num_allocate : ℕ
  pub num_allocate_ok : ℕ
  pub num_expand : ℕ
  pub num_expand_ok : ℕ
  pub num_reallocate : ℕ
  pub num_reallocate_ok : ℕ
  pub num_reallocate_in_place : ℕ
  pub num_deallocate : ℕ
  pub num_deallocate_all : ℕ
  pub bytes_allocated : ℕ
  pub bytes_deallocated : ℕ
  pub bytes_expanded : ℕ
  pub bytes_contracted : ℕ
  pub bytes_moved : ℕ
  pub bytes_slack : ℕ
  pub bytes_high_tide : ℕ

abbrev pub zeros : Counters
zeros = record {
  num_owns = 0;
  num_allocate = 0;
  num_allocate_ok = 0;
  num_expand = 0;
  num_expand_ok = 0;
  num_reallocate = 0;
  num_reallocate_ok = 0;
  num_reallocate_in_place = 0;
  num_deallocate = 0;
  num_deallocate_all = 0;
  bytes_allocated = 0;
  bytes_deallocated = 0;
  bytes_expanded = 0;
  bytes_contracted = 0;
  bytes_moved = 0;
  bytes_slack = 0;
  bytes_high_tide = 0;
}

-- `up`, `upOK` and `add`; `on` is `Flags & option`.
abbrev pub up : Bool → ℕ → ℕ
up on value = if on then add64 value 1 else value

abbrev pub up_ok : Bool → ℕ → Bool → ℕ
up_ok on value ok = if on && ok then add64 value 1 else value

abbrev pub add : Bool → ℕ → ℕ → ℕ
add on value delta = if on then add64 value delta else value

module _ (flags : StatsOption → Bool) where
  -- `updateHighTide`
  unfoldable pub update_high_tide : Counters → Counters
  update_high_tide k =
      let currently_allocated = sub64 k.bytes_allocated k.bytes_deallocated in
      if flags StatsOption.bytes_high_tide
      then (if ltb k.bytes_high_tide currently_allocated
          then record k { bytes_high_tide = currently_allocated }
          else k)
      else k

  unfoldable pub count_owns : Counters → Counters
  count_owns k = record k { num_owns = up (flags StatsOption.num_owns) k.num_owns }

  unfoldable pub count_allocate : ℕ → Block → Counters → Counters
  count_allocate n result k = update_high_tide (record k {
    num_allocate = up (flags StatsOption.num_allocate) k.num_allocate;
    num_allocate_ok =
        up_ok (flags StatsOption.num_allocate_ok) k.num_allocate_ok (ltb 0 n && is_set result);
    bytes_allocated = add (flags StatsOption.bytes_allocated) k.bytes_allocated result.length;
  })

  unfoldable pub count_deallocate : Block → Counters → Counters
  count_deallocate b k = record k {
    num_deallocate = up (flags StatsOption.num_deallocate) k.num_deallocate;
    bytes_deallocated = add (flags StatsOption.bytes_deallocated) k.bytes_deallocated b.length;
  }

  unfoldable pub count_reallocate : Counters → Counters
  count_reallocate k = record k {
    num_reallocate = up (flags StatsOption.num_reallocate) k.num_reallocate;
  }

  -- The block stays where it is, and its length grows by `delta`, a signed number.
  unfoldable pub count_in_place : ℕ → Counters → Counters
  count_in_place delta k =
      if ltb 0 delta && ltb delta (2 ^ 63)
      then record k {
        num_reallocate_in_place =
            up (flags StatsOption.num_reallocate_in_place) k.num_reallocate_in_place;
        bytes_allocated = add (flags StatsOption.bytes_allocated) k.bytes_allocated delta;
        bytes_expanded = add (flags StatsOption.bytes_expanded) k.bytes_expanded delta;
      }
      else record k {
        num_reallocate_in_place =
            up (flags StatsOption.num_reallocate_in_place) k.num_reallocate_in_place;
        bytes_deallocated =
            add (flags StatsOption.bytes_deallocated) k.bytes_deallocated (sub64 0 delta);
        bytes_contracted =
            add (flags StatsOption.bytes_contracted) k.bytes_contracted (sub64 0 delta);
      }

  unfoldable pub count_moved : Block → Block → Counters → Counters
  count_moved original b k = record k {
    bytes_allocated = add (flags StatsOption.bytes_allocated) k.bytes_allocated b.length;
    bytes_moved = add (flags StatsOption.bytes_moved) k.bytes_moved original.length;
    bytes_deallocated =
        add (flags StatsOption.bytes_deallocated) k.bytes_deallocated original.length;
  }

  unfoldable pub count_reallocate_ok : Block → Block → Counters → Counters
  count_reallocate_ok original b k =
      let k' = record k {
        num_reallocate_ok = up (flags StatsOption.num_reallocate_ok) k.num_reallocate_ok;
      } in
      update_high_tide (
        if b.ptr == original.ptr
        then count_in_place (sub64 b.length original.length) k'
        else count_moved original b k')

  unfoldable pub count_expand : Counters → Counters
  count_expand k = record k { num_expand = up (flags StatsOption.num_expand) k.num_expand }

  unfoldable pub count_expand_ok : Block → Block → Counters → Counters
  count_expand_ok original b k = update_high_tide (record k {
    num_expand_ok = up (flags StatsOption.num_expand_ok) k.num_expand_ok;
    bytes_expanded =
        add (flags StatsOption.bytes_expanded) k.bytes_expanded (sub64 b.length original.length);
    bytes_allocated =
        add (flags StatsOption.bytes_allocated) k.bytes_allocated (sub64 b.length original.length);
  })
