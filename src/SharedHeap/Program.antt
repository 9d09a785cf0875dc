-- ===== src/SharedHeap/Program.antt =====
-- Programs of the threads that share a heap: each step is one access to an atomic register, to the
-- mutex, to the member `all_set`, or a copy between blocks.
use allocator_builder.Base.{
  ℕ, Bool, true, false, Option, none, some, List, get_or, set, ◌==◌, if◌then◌else◌,
}
use allocator_builder.Block.{Block, Memory, block_copy}

-- `shared_lock` and `unique_lock` of the `boost::shared_mutex`
pub data Lock : Type 0 where
  shared : Lock
  unique : Lock

-- `compare_exchange_strong` gives whether it succeeded, and the register's value, which it leaves in
-- the expected variable. `exchange_all_set` is the one whose expected variable is the member
-- `all_set` itself. `spinning` is a loop that has used up the rounds that it was given.
pub data Prog (A : Type 0) : Type 0 where
  ret : A → Prog A
  spinning : Prog A
  load : (index : ℕ) → (ℕ → Prog A) → Prog A
  exchange : (index expected desired : ℕ) → (Bool → ℕ → Prog A) → Prog A
  exchange_all_set : (index desired : ℕ) → (Bool → Prog A) → Prog A
  get_all_set : (ℕ → Prog A) → Prog A
  store : (index value : ℕ) → Prog A → Prog A
  acquire : Lock → Prog A → Prog A
  release : Lock → Prog A → Prog A
  copy : (source destination : Block) → Prog A → Prog A

infixl 5 ◌>>=◌ ◌>>◌
abbrev pub ◌>>=◌ : {A B : Type 0} → Prog A → (A → Prog B) → Prog B
(ret a) >>= f = f a
spinning >>= f = spinning
(load r k) >>= f = load r (λ v. k v >>= f)
(exchange r e d k) >>= f = exchange r e d (λ b v. k b v >>= f)
(exchange_all_set r d k) >>= f = exchange_all_set r d (λ b. k b >>= f)
(get_all_set k) >>= f = get_all_set (λ v. k v >>= f)
(store r v k) >>= f = store r v (k >>= f)
(acquire l k) >>= f = acquire l (k >>= f)
(release l k) >>= f = release l (k >>= f)
(copy s d k) >>= f = copy s d (k >>= f)

abbrev pub ◌>>◌ : {A B : Type 0} → Prog A → Prog B → Prog B
p >> q = p >>= λ _. q

-- What the threads share, but the mutex
pub record Shared : Type 0 where
  pub control : List ℕ
  pub all_set_member : ℕ
  pub memory : Memory

-- What a thread holds of the mutex
pub data Mode : Type 0 where
  outside : Mode
  reading : Mode
  writing : Mode

abbrev pub mode_of : Lock → Mode
mode_of shared = reading
mode_of unique = writing

-- All steps of a thread that runs alone, with what it holds of the mutex: none if it does not return.
-- A thread that already holds the mutex would wait for itself.
unfoldable pub run : {A : Type 0} → Prog A → Mode → Shared → Option (A × Mode × Shared)
run (ret a) mode s = some (a, mode, s)
run spinning mode s = none
run (load r k) mode s = run (k (get_or s.control r 0)) mode s
run (exchange r e d k) mode s =
    let v = get_or s.control r 0 in
    let done = run (k true e) mode (record s { control = set s.control r d }) in
    let failed = run (k false v) mode s in if v == e then done else failed
run (exchange_all_set r d k) mode s =
    let v = get_or s.control r 0 in
    let done = run (k true) mode (record s { control = set s.control r d }) in
    let failed = run (k false) mode (record s { all_set_member = v }) in
    if v == s.all_set_member then done else failed
run (get_all_set k) mode s = run (k s.all_set_member) mode s
run (store r v k) mode s = run k mode (record s { control = set s.control r v })
run (acquire l k) outside s = run k (mode_of l) s
run (acquire l k) reading s = none
run (acquire l k) writing s = none
run (release l k) mode s = run k outside s
run (copy a b k) mode s = run k mode (record s { memory = block_copy a b s.memory })
