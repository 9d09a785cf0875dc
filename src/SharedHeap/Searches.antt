-- ===== src/SharedHeap/Searches.antt =====
-- The searches of alb/shared_heap.hpp: each gives the number of the first chunk that it took.
use allocator_builder.Base.{
  ℕ, zero, suc, ◌+◌, ◌-◌, ◌*◌, ◌/◌, ◌%◌, ◌^◌, Bool, true, false, Option, none, some, ◌==◌, leb,
  if◌then◌else◌, bit_and, sub64,
}
use allocator_builder.Control.{BlockContext}
use allocator_builder.Control.Register.{set_used, shl}
use allocator_builder.Control.Search.{start_or}
use allocator_builder.SharedHeap.Program.{
  shared, unique, Prog, ret, spinning, load, exchange, exchange_all_set, get_all_set, acquire,
  release, ◌>>=◌, ◌>>◌,
}
use allocator_builder.SharedHeap.Registers.{set_over_multiple_registers}

abbrev pub first_mask : ℕ → Prog ℕ
first_mask n = if n == 64 then get_all_set ret else ret (sub64 (shl 1 n) 1)

-- `while (i <= 64 - numberOfBlocks)`, by the rounds left: the bit where the room was taken. A failed
-- exchange leaves the register's new value in `current`.
unfoldable pub take_in_register : ℕ → ℕ → ℕ → ℕ → ℕ → Prog (Option ℕ)
take_in_register zero index i mask current = ret none
take_in_register (suc rounds) index i mask current =
    if bit_and current mask == mask
    then acquire shared (
        exchange index current (set_used false current mask) λ done observed. release shared (
          if done
          then ret (some i)
          else take_in_register rounds index (i + 1) (shl mask 1) observed))
    else take_in_register rounds index (i + 1) (shl mask 1) current

-- `allocateWithinASingleControlRegister`, by the registers left
unfoldable pub take_single : ℕ → ℕ → ℕ → Prog (Option ℕ)
take_single n zero index = ret none
take_single n (suc registers) index = load index λ current.
    if current == 0 then take_single n registers (index + 1) else (do
      mask ← first_mask n
      found ← take_in_register (65 - n) index 0 mask current
      elim found [
        | none ↦ take_single n registers (index + 1)
        | some i ↦ ret (some (index * 64 + i))
      ])

-- `std::find_if` for a register that equals the member `all_set`, by the registers left
unfoldable pub find_complete : ℕ → ℕ → Prog (Option ℕ)
find_complete zero index = ret none
find_complete (suc registers) index = load index λ v.
    get_all_set λ all. if v == all then ret (some index) else find_complete registers (index + 1)

-- `allocateWithinCompleteControlRegister`, by the attempts left
unfoldable pub take_complete : ℕ → ℕ → Prog (Option ℕ)
take_complete control_size zero = spinning
take_complete control_size (suc attempts) = do
  found ← find_complete control_size 0
  elim found [
    | none ↦ ret none
    | some index ↦ acquire shared (
        exchange_all_set index 0 λ done.
          release shared
            (if done then ret (some (index * 64)) else take_complete control_size attempts))
  ]

-- Are the `needed` registers from `index` on all equal to the value?
unfoldable pub all_equal : ℕ → ℕ → ℕ → Prog Bool
all_equal zero index value = ret true
all_equal (suc needed) index value =
    load index λ v. if v == value then all_equal needed (index + 1) value else ret false

-- `std::search_n`, by the places left
unfoldable pub find_run : ℕ → ℕ → ℕ → ℕ → Prog (Option ℕ)
find_run zero needed index value = ret none
find_run (suc places) needed index value = do
  found ← all_equal needed index value
  if found then ret (some index) else find_run places needed (index + 1) value

-- `while (p < freeFirstChunk + neededChunks)`, by the registers left
unfoldable pub clear_run : ℕ → ℕ → Prog (Unit {0})
clear_run zero index = ret tt
clear_run (suc needed) index = exchange_all_set index 0 λ done. clear_run needed (index + 1)

-- `allocateMultipleCompleteControlRegisters`; a run of `needed` registers has as many places.
unfoldable pub take_multiple : ℕ → ℕ → Prog (Option ℕ)
take_multiple control_size n = do
  acquire unique (ret tt)
  all ← get_all_set ret
  found ← find_run (control_size + 1 - n / 64) (n / 64) 0 all
  elim found [
    | none ↦ release unique (ret none)
    | some index ↦ clear_run (n / 64) index >> release unique (ret (some (index * 64)))
  ]

-- The loop of `allocateWithRegisterOverlap` over the bytes, by those left
unfoldable pub find_bytes : ℕ → ℕ → ℕ → ℕ → Option ℕ → Prog (Option ℕ)
find_bytes n zero p free_blocks_count chunk_start = ret none
find_bytes n (suc left) p free_blocks_count chunk_start = load (p / 8) λ v.
    if (v / 256 ^ (p % 8) % 256) == 0xff
    then (if leb n (free_blocks_count + 8)
        then ret (some (start_or p chunk_start))
        else find_bytes n left (p + 1) (free_blocks_count + 8) (some (start_or p chunk_start)))
    else find_bytes n left (p + 1) 0 none

-- `allocateWithRegisterOverlap`; `context_of` gives the context of the block from a chunk on.
unfoldable pub take_overlap : ℕ → ℕ → (ℕ → BlockContext) → ℕ → Prog (Option ℕ)
take_overlap control_size attempts context_of n = do
  acquire unique (ret tt)
  found ← find_bytes n (control_size * 8) 0 0 none
  elim found [
    | none ↦ release unique (ret none)
    | some start ↦
        set_over_multiple_registers attempts none false (context_of (start * 8))
        >> release unique (ret (some (start * 8)))
  ]
