-- ===== src/AllocatorWithStats.antt =====
-- alb/allocator_with_stats.hpp: counters of an allocator's calls and bytes, and a list of the blocks
-- that are outstanding, with their callers.
pub mod Counts
pub mod Balance
pub mod Client
mod Tests
use allocator_builder.Base.{
  ℕ, zero, suc, List, [], ◌∷◌, Bool, true, false, ◌&&◌, ◌||◌, not, Option, none, some, ◌==◌, ltb,
  if◌then◌else◌, sub64,
}
use allocator_builder.Block.{Block, is_set, Memory}
use allocator_builder.Op.{Op, ◌>>=◌, ◌>>◌, pure, on_first, on_memory}
use allocator_builder.Allocator.{Allocator}
use Counts.{
  StatsOption, Counters, zeros, up, count_owns, count_allocate, count_deallocate, count_reallocate,
  count_reallocate_ok, count_expand, count_expand_ok,
}

-- `AllocationInfo`; the strings and the other objects are addresses, 0 for nullptr.
pub record AllocationInfo : Type 0 where
  pub caller_size : ℕ
  pub caller_file : ℕ
  pub caller_function : ℕ
  pub caller_line : ℕ
  pub caller_time : ℕ
  pub previous : ℕ
  pub next : ℕ

-- `operator==`; `same_string` is whether `strcmp` gives 0.
pub info_eq : (ℕ → ℕ → Bool) → AllocationInfo → AllocationInfo → Bool
info_eq same_string x y =
    (x.caller_size == y.caller_size)
    && (((x.caller_file == y.caller_file) || same_string x.caller_file y.caller_file)
        && ((x.caller_function == y.caller_function)
            || same_string x.caller_function y.caller_function))

-- What is kept beside the underlying allocator
pub record Tracking : Type 0 where
  pub counters : Counters
  pub root : ℕ

-- How the compiler lays out an object in memory
pub record Layout : Type 0 where
  pub read : ℕ → Memory → AllocationInfo
  pub write : ℕ → AllocationInfo → Memory → Memory

abbrev pub set_if : Bool → ℕ → ℕ → ℕ
set_if on value new = if on then new else value

-- `A` is the underlying allocator, wrapped in an affix_allocator if there is state for each block;
-- `info_at` is the address of a block's prefix.
module _ (A : Allocator) (flags : StatsOption → Bool) (layout : Layout) (info_at : Block → ℕ) where
  open layout use {read, write}

  abbrev pub State : Type 0
  State = A.State × Tracking

  unfoldable pub initial : A.State → State
  initial s = (s, record { counters = zeros; root = 0 })

  abbrev pub has_per_allocation_state : Bool
  has_per_allocation_state =
      flags StatsOption.caller_time
      || (flags StatsOption.caller_file || flags StatsOption.caller_line)

  abbrev pub counting : (Counters → Counters) → Op State (Unit {0})
  counting f (s, t) m = (tt, (s, record t { counters = f t.counters }), m)

  -- The caller's data, and the push onto the stack of infos
  unfoldable pub push : ℕ → (size file function line now : ℕ) → Op State (Unit {0})
  push stat size file function line now (s, t) m =
      let i = read stat m in
      let filled =
        write stat
          (record i {
            caller_size = set_if (flags StatsOption.caller_size) i.caller_size size;
            caller_file = set_if (flags StatsOption.caller_file) i.caller_file file;
            caller_function = set_if (flags StatsOption.caller_function) i.caller_function function;
            caller_line = set_if (flags StatsOption.caller_line) i.caller_line line;
            caller_time = set_if (flags StatsOption.caller_time) i.caller_time now;
          })
          m in
      let linked = write t.root (record (read t.root filled) { previous = stat }) filled in
      if not (t.root == 0)
      then (
        tt,
        (s, record t { root = stat }),
        write stat (record (read stat linked) { next = t.root; previous = 0 }) linked,
      )
      else (
        tt,
        (s, record t { root = stat }),
        write stat (record (read stat filled) { previous = 0; next = 0 }) filled,
      )

  unfoldable pub allocate : (n file function line now : ℕ) → Op State Block
  allocate n file function line now = do
    result ← on_first (A.allocate n)
    _ ← counting (count_allocate flags n result)
    _ ←
        if is_set result && has_per_allocation_state
        then push (info_at result) n file function line now
        else pure tt
    pure result

  -- The info leaves the stack.
  unfoldable pub unlink : ℕ → Op State (Unit {0})
  unlink stat (s, t) m =
      let i = read stat m in
      let m' =
        if not (i.previous == 0)
        then write i.previous (record (read i.previous m) { next = i.next }) m
        else m in
      let j = read stat m' in
      let m'' =
        if not (j.next == 0)
        then write j.next (record (read j.next m') { previous = j.previous }) m'
        else m' in
      (
        tt,
        (s, record t { root = if stat == t.root then (read stat m'').previous else t.root }),
        m'',
      )

  unfoldable pub deallocate : Block → Op State Block
  deallocate b = do
    _ ← counting (count_deallocate flags b)
    _ ← if is_set b && has_per_allocation_state then unlink (info_at b) else pure tt
    on_first (A.deallocate b)

  -- The neighbours of an info that has moved
  unfoldable pub relink : Bool → ℕ → Op State (Unit {0})
  relink was_root stat (s, t) m =
      let i = read stat m in
      let m' =
        if not (i.next == 0)
        then write i.next (record (read i.next m) { previous = stat }) m
        else m in
      let j = read stat m' in
      let m'' =
        if not (j.previous == 0)
        then write j.previous (record (read j.previous m') { next = stat }) m'
        else m' in
      (tt, (s, record t { root = if was_root then stat else t.root }), m'')

  unfoldable pub was_root_block : Block → State → Bool
  was_root_block b (s, t) = (is_set b && has_per_allocation_state) && (t.root == info_at b)

  -- What is done when the underlying allocator has changed the block `original` to `b`
  unfoldable pub reallocated : Bool → Block → Block → Op State (Bool × Block)
  reallocated was_root original b = do
    _ ← counting (count_reallocate_ok flags original b)
    _ ←
        if not (b.ptr == original.ptr) && (is_set b && has_per_allocation_state)
        then relink was_root (info_at b)
        else pure tt
    pure (true, b)

  unfoldable pub reallocate : Block → ℕ → Op State (Bool × Block)
  reallocate b n s m =
      let was_root = was_root_block b s in
      ((do
        _ ← counting (count_reallocate flags)
        (done, b') ← on_first (A.reallocate b n)
        if done then reallocated was_root b b' else pure (false, b'))
        s m)

  unfoldable pub owns : Block → Op State Bool
  owns b = do _ ← counting (count_owns flags); λ s m. (A.owns s.0 b, s, m)

  -- `expand_inner` is the underlying allocator's `expand`, without which there is none here.
  unfoldable pub expand :
      (Block → ℕ → Op A.State (Bool × Block)) → Block → ℕ → Op State (Bool × Block)
  expand expand_inner b delta = do
    _ ← counting (count_expand flags)
    (done, b') ← on_first (expand_inner b delta)
    _ ← if done then counting (count_expand_ok flags b b') else pure tt
    pure (done, b')

  -- The iterator over `allocations()`: the infos from an address on, by the steps taken
  unfoldable pub infos : ℕ → ℕ → Memory → List AllocationInfo
  infos zero stat m = []
  infos (suc steps) stat m =
      let rest = infos steps (read stat m).next m in if stat == 0 then [] else read stat m ∷ rest
