-- ===== src/SharedHeap/Alone/Calls.antt =====
-- A thread that is alone on the shared heap: any sequence of calls of alb/shared_heap.hpp does what the same
-- calls of alb/heap.hpp do.
use allocator_builder.Base.{
  ℕ, suc, ◌+◌, ◌≡◌, refl, ap, sym, ◌∙◌, arith, Bool, true, some, List, [], ◌∷◌, ◌++◌, length, set,
  replicate, ℕ_discrete, append_snoc,
}
use allocator_builder.Block.{Block, Memory, empty_block}
use allocator_builder.Control.{set_all}
use allocator_builder.Control.Register.{all_set}
use allocator_builder.Heap.{Heap, expand_op}
use allocator_builder.Heap as Single
use allocator_builder.Heap.Layout.{IsValid}
use allocator_builder.Heap.Keeps.{
  Keeps, IsValid-Keeps, allocate-Keeps, deallocate-Keeps, deallocate_all-Keeps,
}
use allocator_builder.Heap.Keeps.Resize.{expand-Keeps, reallocate-Keeps}
use allocator_builder.SharedHeap.{
  SharedHeap, allocate, deallocate, deallocate_all, fill, expand, reallocate,
}
use allocator_builder.SharedHeap.Program.{
  Prog, ret, unique, release, Shared, Mode, outside, writing, run, ◌>>=◌, ◌>>◌,
}
use allocator_builder.SharedHeap.Alone.{continue, run-bind, with_control, single_heap}
use allocator_builder.SharedHeap.Alone.Searches.{Behind, Behind-written}
use allocator_builder.SharedHeap.Alone.Frees.{deallocate-run}
use allocator_builder.SharedHeap.Alone.Allocate.{allocate-run}
use allocator_builder.SharedHeap.Alone.Resize.{returned_op, expand-run}
use allocator_builder.SharedHeap.Alone.Reallocate.{reallocate-run}

-- A call of a member function
pub data Call : Type 0 where
  allocates : (n : ℕ) → Call
  deallocates : (b : Block) → Call
  reallocates : (b : Block) (n : ℕ) → Call
  expands : (b : Block) (delta : ℕ) → Call
  deallocates_all : Call

-- A call on the shared heap: whether it succeeded, for those that say so, and the block
unfoldable pub shared_call : ℕ → SharedHeap → Call → Prog (Bool × Block)
shared_call attempts h (allocates n) = allocate attempts h n >>= λ b. ret (true, b)
shared_call attempts h (deallocates b) = deallocate attempts h b >>= λ b'. ret (true, b')
shared_call attempts h (reallocates b n) = reallocate attempts h b n
shared_call attempts h (expands b delta) = expand attempts h b delta
shared_call attempts h deallocates_all = deallocate_all attempts h >> ret (true, empty_block)

-- The same call on the heap for one thread
unfoldable pub single_call : Call → Heap → Memory → (Bool × Block) × Heap × Memory
single_call (allocates n) h m = let (b, k) = Single.allocate n h in ((true, b), k, m)
single_call (deallocates b) h m = let (b', k) = Single.deallocate b h in ((true, b'), k, m)
single_call (reallocates b n) h m = Single.reallocate b n h m
single_call (expands b delta) h m = expand_op b delta h m
single_call deallocates_all h m = ((true, empty_block), Single.deallocate_all h, m)

-- All calls of a list, one after the other, with the list of their results
unfoldable pub shared_calls : ℕ → SharedHeap → List Call → Prog (List (Bool × Block))
shared_calls attempts h [] = ret []
shared_calls attempts h (c ∷ calls) = do
  r ← shared_call attempts h c
  rest ← shared_calls attempts h calls
  ret (r ∷ rest)

unfoldable pub single_calls : List Call → Heap → Memory → List (Bool × Block) × Heap × Memory
single_calls [] h m = ([], h, m)
single_calls (c ∷ calls) h m =
    let (r, k, m') = single_call c h m in
    let (rest, k', m'') = single_calls calls k m' in (r ∷ rest, k', m'')

abbrev calls_left : ℕ → SharedHeap → List Call → Bool × Block → Prog (List (Bool × Block))
calls_left attempts h calls r = do rest ← shared_calls (suc attempts) h calls; ret (r ∷ rest)

fill-run :
    (index : ℕ) (before rest : List ℕ) (mode : Mode) (s : Shared) (attempts : ℕ) (h : SharedHeap)
    → Behind s index before rest
    → run (fill attempts h (length rest) index) mode s
      ≡ some (tt, mode, with_control s (before ++ replicate (length rest) all_set))
unfolding run fill
fill-run index before [] mode s attempts h b = ap (λ c. some (tt, mode, with_control s c)) b.1
fill-run index before (register ∷ rest) mode s attempts h b =
    fill-run (index + 1) (before ++ all_set ∷ []) rest mode
      (with_control s (set s.control index all_set)) attempts h
      (Behind-written s index all_set before register rest b)
    ∙ ap (λ c. some (tt, mode, with_control s c))
        (append_snoc before all_set (replicate (length rest) all_set))

-- The registers are those of a valid heap, and no failed exchange has changed the member `all_set`.
pub record Ready (h : SharedHeap) (s : Shared) : Type 0 where
  pub valid : IsValid (single_heap h s)
  pub sized : h.control_size ≡ length s.control
  pub member : s.all_set_member ≡ all_set

expand_none-run :
    (attempts : ℕ) (h : SharedHeap) (b : Block) (s : Shared)
    → run (expand attempts h b 0) outside s
      ≡ returned_op s (expand_op b 0 (single_heap h s) s.memory)
unfolding run expand Single.expand
expand_none-run attempts h b s = refl

deallocate_all-run :
    (attempts : ℕ) (h : SharedHeap) (s : Shared)
    → h.control_size ≡ length s.control
    → run (deallocate_all attempts h) outside s
      ≡ some (tt, outside, with_control s (Single.deallocate_all (single_heap h s)).control)
unfolding run deallocate_all Single.deallocate_all set_all
deallocate_all-run attempts h s sized =
    run-bind (fill attempts h h.control_size 0) (λ _. release unique (ret tt)) writing s
    ∙ ap (continue (λ _. release unique (ret tt))) (
        ap (λ k. run (fill attempts h k 0) writing s) sized
        ∙ fill-run 0 [] s.control writing s attempts h (refl, refl))

call-run :
    (attempts : ℕ) (h : SharedHeap) (c : Call) (s : Shared)
    → Ready h s
    → run (shared_call (suc attempts) h c) outside s
      ≡ returned_op s (single_call c (single_heap h s) s.memory)
unfolding run shared_call single_call
call-run attempts h (allocates n) s ready =
    run-bind (allocate (suc attempts) h n) (λ b. ret (true, b)) outside s
    ∙ ap (continue (λ b. ret (true, b)))
        (allocate-run attempts h s ready.valid ready.sized ready.member n)
call-run attempts h (deallocates b) s ready =
    run-bind (deallocate (suc attempts) h b) (λ b'. ret (true, b')) outside s
    ∙ ap (continue (λ b'. ret (true, b'))) (deallocate-run attempts h b s ready.member)
call-run attempts h (reallocates b n) s ready =
    reallocate-run attempts h s ready.valid ready.sized ready.member b n
call-run attempts h (expands b delta) s ready = elim (ℕ_discrete delta 0) [
  | yes nothing ↦ rw nothing (expand_none-run (suc attempts) h b s)
  | no wanted ↦ expand-run attempts h b delta s wanted ready.sized ready.member
]
call-run attempts h deallocates_all s ready =
    run-bind (deallocate_all (suc attempts) h) (λ _. ret (true, empty_block)) outside s
    ∙ ap (continue (λ _. ret (true, empty_block)))
        (deallocate_all-run (suc attempts) h s ready.sized)

single_call-Keeps : (c : Call) (h : Heap) (m : Memory) → IsValid h → Keeps h (single_call c h m).1
unfolding single_call
single_call-Keeps (allocates n) h m v = allocate-Keeps {h = h} n v
single_call-Keeps (deallocates b) h m v = deallocate-Keeps b h
single_call-Keeps (reallocates b n) h m v = reallocate-Keeps b n h m v
single_call-Keeps (expands b delta) h m v = expand-Keeps b delta h
single_call-Keeps deallocates_all h m v = deallocate_all-Keeps h

Keeps-Ready :
    (h : SharedHeap) (s : Shared) {k : Heap} (m : Memory)
    → Ready h s
    → Keeps (single_heap h s) k
    → Ready h (record s { control = k.control; memory = m })
Keeps-Ready h s {k} m ready p = record {
  valid = rw p.others at (IsValid-Keeps p ready.valid);
  sized = omega (arith, ready.sized, p.same_length);
  member = ready.member;
}

-- A thread that is alone on a valid heap, and outside of the mutex, returns from any sequence of calls with
-- one attempt at each compare-exchange; all results, the registers and the memory are those that
-- the same calls give on the heap for one thread.
pub calls-run :
    (attempts : ℕ) (h : SharedHeap) (calls : List Call) (s : Shared)
    → Ready h s
    → let (results, k, m) = single_calls calls (single_heap h s) s.memory in
      run (shared_calls (suc attempts) h calls) outside s
      ≡ some (results, outside, record s { control = k.control; memory = m })
unfolding run shared_calls single_calls
calls-run attempts h [] s ready = refl
calls-run attempts h (c ∷ calls) s ready =
    let (r, k, m) = single_call c (single_heap h s) s.memory in
    let p : Keeps (single_heap h s) k =
      single_call-Keeps c (single_heap h s) s.memory ready.valid in
    let later : Shared = record s { control = k.control; memory = m } in
    run-bind (shared_call (suc attempts) h c) (calls_left attempts h calls) outside s
    ∙ ap (continue (calls_left attempts h calls)) (call-run attempts h c s ready)
    ∙ run-bind (shared_calls (suc attempts) h calls) (λ rest. ret (r ∷ rest)) outside later
    ∙ ap (continue (λ rest. ret (r ∷ rest)))
        (calls-run attempts h calls later (Keeps-Ready h s m ready p))
    ∙ ap
        (λ x.
          let (rest, k', m') = single_calls calls x m in
          some (r ∷ rest, outside, record s { control = k'.control; memory = m' }))
        (sym p.others)
