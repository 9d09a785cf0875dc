-- ===== src/SharedHeap/Threads.antt =====
-- Several threads that run programs on one heap, interleaved in any order.
use allocator_builder.Base.{ℕ, ◌≡◌, ◌≢◌, Bool, true, false, get_or, set, ◌==◌, if◌then◌else◌}
use allocator_builder.Block.{Block, block_copy}
use allocator_builder.SharedHeap.Program.{
  Lock, shared, unique, Prog, load, exchange, exchange_all_set, get_all_set, store, acquire,
  release, copy, Shared, Mode, outside, reading, writing, mode_of,
}

pub record Thread (A : Type 0) : Type 0 where
  pub code : Prog A
  pub mode : Mode

pub record System (A : Type 0) : Type 0 where
  pub mem : Shared
  pub threads : ℕ → Thread A

abbrev pub thread : {A : Type 0} → Prog A → Mode → Thread A
thread p m = record { code = p; mode = m }

abbrev pub update : {X : Type 0} → (ℕ → X) → ℕ → X → ℕ → X
update f i a j = if i == j then a else f j

-- The documented behaviour of `boost::shared_mutex`: whether a thread that holds it lets another in
abbrev pub Lets : Mode → Lock → Type 0
Lets outside l = Unit {0}
Lets reading shared = Unit {0}
Lets reading unique = ⊥
Lets writing l = ⊥

-- One step of a thread but on the mutex. What the register holds decides an exchange.
pub data Move {A : Type 0} (s : Shared) : Prog A → Shared → Prog A → Type 0 where
  loads : {r : ℕ} {k : ℕ → Prog A} → Move s (load r k) s (k (get_or s.control r 0))
  exchanges :
      {r e d : ℕ} {k : Bool → ℕ → Prog A}
      → get_or s.control r 0 ≡ e
      → Move s (exchange r e d k) (record s { control = set s.control r d }) (k true e)
  misses :
      {r e d : ℕ} {k : Bool → ℕ → Prog A}
      → get_or s.control r 0 ≢ e
      → Move s (exchange r e d k) s (k false (get_or s.control r 0))
  exchanges_all_set :
      {r d : ℕ} {k : Bool → Prog A}
      → get_or s.control r 0 ≡ s.all_set_member
      → Move s (exchange_all_set r d k) (record s { control = set s.control r d }) (k true)
  misses_all_set :
      {r d : ℕ} {k : Bool → Prog A}
      → get_or s.control r 0 ≢ s.all_set_member
      → Move s
          (exchange_all_set r d k)
          (record s { all_set_member = get_or s.control r 0 })
          (k false)
  gets_all_set : {k : ℕ → Prog A} → Move s (get_all_set k) s (k s.all_set_member)
  stores :
      {r v : ℕ} {k : Prog A} → Move s (store r v k) (record s { control = set s.control r v }) k
  copies :
      {a b : Block} {k : Prog A}
      → Move s (copy a b k) (record s { memory = block_copy a b s.memory }) k

-- Thread `i` makes a step.
pub data Step {A : Type 0} (s : System A) : System A → Type 0 where
  moves :
      (i : ℕ) {p : Prog A} {m : Shared}
      → Move s.mem (s.threads i).code m p
      → Step s (record { mem = m; threads = update s.threads i (thread p (s.threads i).mode) })
  locks :
      (i : ℕ) {l : Lock} {k : Prog A}
      → (s.threads i).code ≡ acquire l k
      → ((j : ℕ) → Lets (s.threads j).mode l)
      → Step s (record s { threads = update s.threads i (thread k (mode_of l)) })
  unlocks :
      (i : ℕ) {l : Lock} {k : Prog A}
      → (s.threads i).code ≡ release l k
      → Step s (record s { threads = update s.threads i (thread k outside) })

pub data Reach {A : Type 0} (s : System A) : System A → Type 0 where
  start : Reach s s
  later : {t u : System A} → Reach s t → Step t u → Reach s u
