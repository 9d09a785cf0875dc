-- ===== src/Control/Search.antt =====
-- The searches of alb/heap.hpp for free chunks. Each gives the first chunk of the room that it found
-- and the control array with that room taken.
use allocator_builder.Base.{
  ℕ, zero, suc, ◌+◌, ◌-◌, ◌*◌, ◌/◌, ◌%◌, Bool, true, false, List, [], ◌∷◌, ◌++◌, Option, none, some,
  ◌==◌, leb, if◌then◌else◌, bit_and, ◌&&◌,
}
use allocator_builder.Control.Register.{all_set, set_used, shl, low_mask}

abbrev pub Found : Type 0
Found = Option (ℕ × List ℕ)

-- The part of the array before the room stays as it is.
abbrev pub after : ℕ → Found → Found
after register none = none
after register (some (start, rest)) = some (start, register ∷ rest)

-- `while (i <= 64 - numberOfBlocks)`, by the rounds left
unfoldable pub find_in_register : ℕ → ℕ → ℕ → ℕ → Option (ℕ × ℕ)
find_in_register zero register mask i = none
find_in_register (suc rounds) register mask i =
    let rest = find_in_register rounds register (shl mask 1) (i + 1) in
    if bit_and register mask == mask then some (i, mask) else rest

-- `allocateWithinASingleControlRegister`, from register `control_index` on
unfoldable pub search_single : ℕ → ℕ → List ℕ → Found
search_single n control_index [] = none
search_single n control_index (register ∷ control) =
    let rest = after register (search_single n (control_index + 1) control) in
    if register == 0 then rest else elim (find_in_register (65 - n) register (low_mask n) 0) [
      | none ↦ rest
      | some (i, mask) ↦ some (control_index * 64 + i, set_used false register mask ∷ control)
    ]

-- `allocateWithinCompleteControlRegister`: `std::find_if`
unfoldable pub search_complete : ℕ → List ℕ → Found
search_complete control_index [] = none
search_complete control_index (register ∷ control) =
    let rest = after register (search_complete (control_index + 1) control) in
    if register == all_set then some (control_index * 64, 0 ∷ control) else rest

-- Do the first `needed` registers exist, all of them free?
unfoldable pub all_free : ℕ → List ℕ → Bool
all_free zero control = true
all_free (suc needed) [] = false
all_free (suc needed) (register ∷ control) = (register == all_set) && all_free needed control

-- `while (p < freeFirstChunk + neededChunks) *p = 0;`
unfoldable pub clear_first : ℕ → List ℕ → List ℕ
clear_first zero control = control
clear_first (suc needed) [] = []
clear_first (suc needed) (register ∷ control) = 0 ∷ clear_first needed control

-- `allocateMultipleCompleteControlRegisters`: `std::search_n`, then the registers found are cleared
unfoldable pub search_registers : ℕ → ℕ → List ℕ → Found
search_registers needed control_index [] = none
search_registers needed control_index (register ∷ control) =
    let rest = after register (search_registers needed (control_index + 1) control) in
    if all_free needed (register ∷ control)
    then some (control_index * 64, clear_first needed (register ∷ control))
    else rest

-- The array as `unsigned char`s, in the byte order of x86-64
unfoldable pub bytes_of : ℕ → ℕ → List ℕ
bytes_of zero register = []
bytes_of (suc n) register = register % 256 ∷ bytes_of n (register / 256)

unfoldable pub bytes : List ℕ → List ℕ
bytes [] = []
bytes (register ∷ control) = bytes_of 8 register ++ bytes control

-- `if (!chunkStart) chunkStart = p;`
unfoldable pub start_or : ℕ → Option ℕ → ℕ
start_or p none = p
start_or p (some start) = start

-- The `while (p < lastp)` of `allocateWithRegisterOverlap`: the byte where the room starts.
-- `chunk_start` is null exactly while no free byte has been counted.
unfoldable pub scan_bytes : ℕ → ℕ → ℕ → Option ℕ → List ℕ → Option ℕ
scan_bytes n p free_blocks_count chunk_start [] = none
scan_bytes n p free_blocks_count chunk_start (byte ∷ rest) =
    let start = start_or p chunk_start in
    let longer = scan_bytes n (p + 1) (free_blocks_count + 8) (some start) rest in
    let over = scan_bytes n (p + 1) 0 none rest in
    if byte == 0xff then (if leb n (free_blocks_count + 8) then some start else longer) else over

-- The room of `allocateWithRegisterOverlap`: the number of its first chunk
unfoldable pub search_overlap : ℕ → List ℕ → Option ℕ
search_overlap n control = elim (scan_bytes n 0 0 none (bytes control)) [
  | none ↦ none
  | some start ↦ some (start * 8)
]
