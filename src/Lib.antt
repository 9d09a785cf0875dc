-- ===== src/Lib.antt =====
-- alb: composable memory allocators (alb/*.hpp). An allocator hands out blocks, pairs of an address
-- and a length, and combinators build allocators from others.
--
-- The parts, and the files that model them:
--
--   Block            alb/allocator_base.hpp, source/allocator_base.cpp: `block`, `roundToAlignment`,
--                    `blockCopy`; Block/Rounding and Block/Copy are their theorems.
--   Op               the form of a stateful operation: allocator state and memory in, result and both
--                    out. A `block &` argument is a block that goes in and one that comes out.
--   Allocator        alb/internal/traits.hpp: what a combinator asks of a template parameter, as a
--                    record of operations; optional members are options, as `has_expand` tests them.
--   Reallocator      alb/internal/reallocator.hpp: `reallocateWithCopy`, `isHandledDefault`.
--   StackAllocator   alb/stack_allocator.hpp: the array `_data` by its address and `_p`, with `allocate`,
--                    `deallocate`, `reallocate`, `expand`, `owns`, `deallocateAll`.
--   Bits             the binary digits of a number, for the masks.
--   Control          the bit field `_control` of alb/heap.hpp and alb/internal/heap_helpers.hpp as a list
--                    of registers: Control/Register the masks and `setUsed`, Control/Search the four
--                    searches, the other children what they change (Chunks, Multiple) and find (Single,
--                    Complete, Overlap).
--   Heap             alb/heap.hpp: the members and every operation over the bit field; Heap/Lifetime the
--                    constructor, `init` and `shrink` over an underlying allocator, none where the
--                    control buffer has no room for the registers; Heap/Layout the
--                    bytes of a run of chunks; Heap/Expand and Heap/Shrink blocks in place;
--                    Heap/Client sequences of calls; Heap/Serves the contract of an allocator.
--   SharedHeap       alb/shared_heap.hpp: the members and every operation as a program of a thread
--                    (SharedHeap/Program); SharedHeap/Registers and SharedHeap/Searches have the loops,
--                    SharedHeap/Threads the steps of all threads, SharedHeap/Logic the rules by which a
--                    thread takes and frees chunks, SharedHeap/Steps that these keep the invariant
--                    of SharedHeap/Sound, SharedHeap/Client threads that allocate and release, and
--                    SharedHeap/Alone a thread without others, compared with Heap.
--   Stack            alb/internal/stack.hpp: the array and the position; Stack/Refine the list it is.
--   Freelist         alb/freelist.hpp (the class for one thread): the pool and the parent, `allocate` with
--                    its batches, `deallocate`, `reallocate`, `owns`, the destructor (Freelist/Drain).
--   Dynastic         alb/internal/dynastic.hpp: a number fixed at compile time, or set at run time.
--   Segregator       alb/segregator.hpp: two parts and a threshold.
--   FallbackAllocator  alb/fallback_allocator.hpp: two parts and the ownership of the first.
--   Bucketizer       alb/bucketizer.hpp: an array of bounded allocators; Bucketizer/Matching compares the
--                    loop of `allocate` with `findMatchingAllocator`.
--   AffixAllocator   alb/affix_allocator.hpp: objects before and behind a block, as bytes in the memory.
--   MemoryCorruptionDetector  alb/memory_corruption_detector.hpp: a guard as bytes; an object for the affix
--                    allocator.
--   AlignedMallocator  alb/aligned_mallocator.hpp over the system's functions as parameters.
--   StlAllocator     alb/stl_allocator.hpp and alb/global_allocator.hpp; StlAllocator/Lengths with the
--                    affix allocator that keeps the length.
--   AllocatorWithStats  alb/allocator_with_stats.hpp: AllocatorWithStats/Counts has the counters, the
--                    module itself the operations and the list of infos; AllocatorWithStats/Client any
--                    sequence of calls.
--   CascadingAllocator  alb/cascading_allocator.hpp (one thread): the list of nodes and every operation;
--                    CascadingAllocator/Parts with the stack allocator and the heap as nodes,
--                    CascadingAllocator/Routes which node a call reaches, CascadingAllocator/Lifetime the
--                    constructor, the move assignment and the destructor.
--   Mallocator       alb/mallocator.hpp over `malloc`, `realloc` and `free`, which are parameters.
--
-- Interfaces. `Allocator` has the operations of a template parameter. Allocator/Contract has the laws that
-- a combinator relies on: an invariant of the state and the blocks that the client holds, which
-- allocations and releases keep. StackAllocator/Serves fills it; Segregator/Serves and
-- FallbackAllocator/Serves fill it from the contracts of their parts, Heap/Serves for requests of no
-- multiple of 64 chunks (FallbackAllocator/OverHeap puts a heap first); Allocator/Client draws the
-- conclusion for any sequence of calls.
--
-- Conventions. The build is a release build: BOOST_ASSERT does nothing. An address is a number below
-- 2^64 and nullptr is 0; `size_t` and pointer arithmetic wraps at 2^64, and theorems name the bound
-- that excludes it where they need one. An `int` is kept as its word of 32 bits (Base/Int), as the
-- casts of the source cut it; the loops over the registers take the counts of a context as they are,
-- which is right below 2^31, and a valid heap has no more chunks than that. A shift count is taken
-- modulo 64, as x86-64 does where the language leaves it undefined. Reading a register past the array
-- gives 0 and writing there does nothing. The bytes of a register are in little-endian order. The
-- memory maps an address to a byte, and `memcpy` reads the memory as it was.
--
-- Loops over the registers are recursion on the list. The two loops of `setOverMultipleRegisters` and
-- `testAndSetOverMultipleRegisters` are recursion on rounds: a round handles the rest of a register, so
-- offset + chunks + 1 rounds are enough, and the theorems on the result hold for that number.
--
-- The loop of the destructor of a free list runs on rounds, one more than the pool has blocks; the batch
-- loops run on their count.
--
-- The steps of the threads are interleaved in any order, with sequentially consistent registers, as the
-- code's atomic operations are by default. The loops around a compare-exchange run on a number of
-- attempts, any number; a thread that has used them up stands still, which any finite part of a run can
-- be read as.
--
-- Not modelled: shared_freelist and shared_cascading_allocator with several threads, and the atomic
-- helpers; the other move operations; the calls of the adapter to the standard library
-- that construct objects; compile-time checks; tests, build files and the vendored googletest.
mod Base
pub mod Block
pub mod Op
pub mod Allocator
pub mod Reallocator
pub mod StackAllocator
pub mod Bits
pub mod Control
pub mod Heap
pub mod Stack
pub mod Segregator
pub mod FallbackAllocator
pub mod Freelist
pub mod Bucketizer
pub mod AffixAllocator
pub mod Mallocator
pub mod SharedHeap
pub mod AllocatorWithStats
pub mod CascadingAllocator
pub mod MemoryCorruptionDetector
pub mod AlignedMallocator
pub mod StlAllocator
pub mod Dynastic
