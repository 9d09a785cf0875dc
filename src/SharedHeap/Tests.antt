-- ===== src/SharedHeap/Tests.antt =====
-- Runs of threads in a given order.
use allocator_builder.Base.{
  ℕ, ◌<◌, ◌≤◌, length, ℕ_discrete, ltb, arith, eq→==, ne→==, ◌-◌, ◌≡◌, refl, Option, none, some,
  List, [], ◌∷◌, ◌==◌, if◌then◌else◌,
}
use allocator_builder.Block.{Block, Memory, round_to_alignment}
use allocator_builder.Allocator.Blocks.{Apart, All, Pairwise}
use allocator_builder.Control.Chunks.{free}
use allocator_builder.Control.Register.{all_set, set_used, shl}
use allocator_builder.Control.Search.{start_or}
use allocator_builder.SharedHeap.Program.{ret, Shared, outside, run}
use allocator_builder.SharedHeap.Registers.{
  set_register, set_within_single_register, set_rounds, set_over_multiple_registers,
}
use allocator_builder.SharedHeap.Searches.{
  take_in_register, take_single, find_complete, take_complete, find_bytes, take_overlap,
}
use allocator_builder.SharedHeap.Threads.{System, thread, Reach}
use allocator_builder.SharedHeap.Schedule.{At, play}
use allocator_builder.SharedHeap.Requests.{IsValid}
use allocator_builder.SharedHeap.Client.{Call, request, give_back, clients, Partial, InBuffer}
use allocator_builder.StackAllocator
use allocator_builder.StackAllocator.{Arena, stack_allocator}
use allocator_builder.SharedHeap.Alone.{single_heap}
use allocator_builder.SharedHeap.Alone.Calls
use allocator_builder.SharedHeap.Alone.Calls.{single_calls, shared_calls, calls-run}
use allocator_builder.SharedHeap.Lifetime.{construct, construct-IsValid}
use allocator_builder.SharedHeap.Client.Disjointness.{client-Apart}
use allocator_builder.SharedHeap.{
  SharedHeap, owns, block_to_context, of_taken, or_with_overlap, allocate_blocks, allocate,
  free_chunks, deallocate,
}

abbrev start : List ℕ → Shared
start control = record { control = control; all_set_member = all_set; memory = λ a. 0 }

abbrev h : SharedHeap
h = record {
  number_of_chunks = 128;
  chunk_size = 8;
  buffer = record { ptr = 4096; length = 1024 };
  control_buffer = record { ptr = 4080; length = 16 };
  control_size = 2;
}

allocate_alone :
    run (allocate 3 h 20) outside (start (all_set ∷ all_set ∷ []))
    ≡ some (record { ptr = 4096; length = 24 }, outside, start ((all_set - 7) ∷ all_set ∷ []))
unfolding run allocate allocate_blocks or_with_overlap of_taken round_to_alignment take_single
    take_in_register set_used shl
allocate_alone = refl

abbrev first_two : {X : Type 0} → X → X → X → ℕ → X
first_two a b c i = if i == 0 then a else if i == 1 then b else c

abbrev two_complete : System (Option ℕ)
two_complete = record {
  mem = start (all_set ∷ 0 ∷ []);
  threads = λ i. thread (if ltb i 2 then take_complete 2 2 else ret none) outside;
}

abbrev at_two_complete : At two_complete
at_two_complete = record { now = two_complete; reach = Reach.start; open_to = λ j. tt }

-- Both threads find the first register free. The second one's exchange fails and leaves 0 in the
-- member `all_set`; then it takes the register with 0, whose chunks the first one has.
complete_twice :
    let s : System (Option ℕ) =
      (play (0 ∷ 0 ∷ 1 ∷ 1 ∷ 0 ∷ 0 ∷ 0 ∷ 1 ∷ 1 ∷ 1 ∷ 1 ∷ 1 ∷ 1 ∷ 1 ∷ 1 ∷ []) at_two_complete).now in
    ((s.threads 0).code ≡ ret (some 0))
    × ((s.threads 1).code ≡ ret (some 0))
    × (s.mem.all_set_member ≡ 0)
unfolding take_complete find_complete ℕ_discrete
complete_twice = (refl, refl, refl)

h-IsValid : IsValid h
h-IsValid = record {
  chunky = omega arith;
  counted = refl;
  sized = refl;
  nonnull = omega arith;
  fits = omega arith;
  countable = omega arith;
}

-- Thread 0 takes three chunks and thread 1 two, one of the two gives its own back.
abbrev calls : ℕ → List Call
calls i = first_two (request 20 ∷ []) (request 12 ∷ request 9 ∷ give_back 1 ∷ []) [] i

abbrev at_calls : At (clients 3 h calls (start (all_set ∷ all_set ∷ [])))
at_calls = record {
  now = clients 3 h calls (start (all_set ∷ all_set ∷ []));
  reach = Reach.start;
  open_to = λ j. tt;
}

abbrev after_calls : At (clients 3 h calls (start (all_set ∷ all_set ∷ [])))
after_calls =
    play (0 ∷ 1 ∷ 0 ∷ 0 ∷ 0 ∷ 1 ∷ 1 ∷ 1 ∷ 1 ∷ 1 ∷ 1 ∷ 1 ∷ 1 ∷ 1 ∷ 1 ∷ 1 ∷ 1 ∷ 1 ∷ 1 ∷ []) at_calls

calls-Partial : (i : ℕ) → Partial h (calls i)
unfolding round_to_alignment
calls-Partial i = elim (ℕ_discrete i 0) [
  | yes first ↦ rw (eq→== i 0 first) ((λ e. omega arith), tt)
  | no later ↦ elim (ℕ_discrete i 1) [
    | yes second ↦
        rw (ne→== i 0 later, eq→== i 1 second) ((λ e. omega arith), ((λ e. omega arith), tt))
    | no other ↦ rw (ne→== i 0 later, ne→== i 1 other) tt
  ]
]

first_returned : (after_calls.now.threads 0).code ≡ ret (record { ptr = 4096; length = 24 } ∷ [])
unfolding ℕ_discrete allocate allocate_blocks or_with_overlap of_taken round_to_alignment
    take_single take_in_register set_used shl deallocate owns free_chunks block_to_context
    set_within_single_register set_register
first_returned = refl

second_returned : (after_calls.now.threads 1).code ≡ ret (record { ptr = 4136; length = 16 } ∷ [])
unfolding ℕ_discrete allocate allocate_blocks or_with_overlap of_taken round_to_alignment
    take_single take_in_register set_used shl deallocate owns free_chunks block_to_context
    set_within_single_register set_register
second_returned = refl

client-Apart_example :
    let held : List Block = record { ptr = 4096; length = 24 } ∷ [] in
    let held' : List Block = record { ptr = 4136; length = 16 } ∷ [] in
    All (InBuffer h) held × Pairwise held × All (λ b. All (Apart b) held') held
client-Apart_example =
    client-Apart 3 calls (start (all_set ∷ all_set ∷ [])) h-IsValid refl refl calls-Partial
      after_calls.reach 0 1 (record { ptr = 4096; length = 24 } ∷ [])
      (record { ptr = 4136; length = 16 } ∷ []) (λ e. omega arith) first_returned second_returned

-- A thread that found no room for 12 chunks within a register goes on to the search over the bytes.
-- If the chunks 8 to 31 have been given back meanwhile, it takes 12 of them, but marks all chunks up
-- to 63 as used: the chunks 20 to 31 are lost.
overlap_loses :
    run (or_with_overlap 1 h 12 none) outside (start (0xffffff00 ∷ 0 ∷ []))
    ≡ some (record { ptr = 4160; length = 96 }, outside, start (0 ∷ 0 ∷ []))
unfolding run or_with_overlap of_taken take_overlap find_bytes start_or set_over_multiple_registers
    set_rounds set_register set_used shl block_to_context
overlap_loses = refl

abbrev arena : Arena
arena = record { base = 4096; p = 4096 }

abbrev memory : Memory
memory a = 0

construct-IsValid_example :
    let (controls, s', m') = (stack_allocator 4096 8).allocate 16 arena memory in
    let (buffer, s'', m'') = (stack_allocator 4096 8).allocate 1024 s' m' in
    (k : SharedHeap) × (control : List ℕ) × (construct (stack_allocator 4096 8) 100 7 arena memory
      ≡ (some (k, control), s'', m''))
    × (k.buffer ≡ buffer)
    × (k.control_buffer ≡ controls)
    × IsValid k
    × (length control ≡ k.control_size)
    × (100 ≤ k.number_of_chunks)
    × (7 ≤ k.chunk_size)
    × ((c : ℕ) → c < k.number_of_chunks → free control c ≡ 1)
unfolding StackAllocator.allocate round_to_alignment
construct-IsValid_example =
    construct-IsValid (stack_allocator 4096 8) 100 7 arena memory (omega arith) (omega arith)
      (omega arith) (omega arith) (omega arith) (omega arith) refl (omega arith)

abbrev three_calls : List Calls.Call
three_calls =
    Calls.allocates 20
    ∷ Calls.reallocates (record { ptr = 4096; length = 24 }) 40
    ∷ Calls.deallocates (record { ptr = 4096; length = 40 })
    ∷ []

calls-run_example :
    let s : Shared = start (all_set ∷ all_set ∷ []) in
    let (results, k, m) = single_calls three_calls (single_heap h s) s.memory in
    run (shared_calls 1 h three_calls) outside s
    ≡ some (results, outside, record s { control = k.control; memory = m })
calls-run_example = calls-run 0 h three_calls (start (all_set ∷ all_set ∷ [])) (record {
  valid = record {
    chunky = omega arith;
    counted = refl;
    sized = refl;
    nonnull = omega arith;
    fits = omega arith;
    countable = omega arith;
  };
  sized = refl;
  member = refl;
})
