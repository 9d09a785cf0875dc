-- ===== src/SharedHeap/Schedule.antt =====
-- The steps of threads in a given order, for threads that enter the mutex with `shared_lock` only.
use allocator_builder.Base.{
  ℕ, ◌≡◌, refl, sym, subst, List, [], ◌∷◌, get_or, ℕ_discrete, eq→==, ne→==,
}
use allocator_builder.SharedHeap.Program.{
  shared, unique, Prog, ret, spinning, load, exchange, exchange_all_set, get_all_set, store,
  acquire, release, copy, Shared, outside, reading,
}
use allocator_builder.SharedHeap.Threads.{
  Thread, System, thread, update, Lets, Move, loads, exchanges, misses, exchanges_all_set,
  misses_all_set, gets_all_set, stores, copies, moves, locks, unlocks, Reach, later,
}

-- A system that can be reached, where no thread keeps a `shared_lock` out
pub record At {A : Type 0} (s : System A) : Type 0 where
  pub now : System A
  pub reach : Reach s now
  pub open_to : (j : ℕ) → Lets (now.threads j).mode shared

pub update-Lets :
    {A : Type 0} (f : ℕ → Thread A) (i : ℕ) (a : Thread A)
    → Lets a.mode shared
    → ((j : ℕ) → Lets (f j).mode shared)
    → (j : ℕ) → Lets (update f i a j).mode shared
update-Lets f i a h g j = elim (ℕ_discrete i j) [
  | yes e ↦ rw (eq→== i j e) h
  | no n ↦ rw (ne→== i j n) (g j)
]

module _ {A : Type 0} {s : System A} (a : At s) (i : ℕ) where
  abbrev moved :
      {m : Shared} {q p : Prog A} → (a.now.threads i).code ≡ q → Move a.now.mem q m p → At s
  moved {m} {p = p} e step = record {
    now = record { mem = m; threads = update a.now.threads i (thread p (a.now.threads i).mode) };
    reach = later a.reach (moves i (subst (λ c. Move a.now.mem c m p) (sym e) step));
    open_to = update-Lets a.now.threads i _ (a.open_to i) a.open_to;
  }

  -- A step of thread `i`, if it can make one
  abbrev turn_of : (q : Prog A) → (a.now.threads i).code ≡ q → At s
  turn_of (ret x) e = a
  turn_of spinning e = a
  turn_of (load r k) e = moved e loads
  turn_of (exchange r x d k) e = elim (ℕ_discrete (get_or a.now.mem.control r 0) x) [
    | yes same ↦ moved e (exchanges same)
    | no other ↦ moved e (misses other)
  ]
  turn_of (exchange_all_set r d k) e =
      elim (ℕ_discrete (get_or a.now.mem.control r 0) a.now.mem.all_set_member) [
        | yes same ↦ moved e (exchanges_all_set same)
        | no other ↦ moved e (misses_all_set other)
      ]
  turn_of (get_all_set k) e = moved e gets_all_set
  turn_of (store r x k) e = moved e stores
  turn_of (acquire shared k) e = record {
    now = record a.now { threads = update a.now.threads i (thread k reading) };
    reach = later a.reach (locks i e a.open_to);
    open_to = update-Lets a.now.threads i _ tt a.open_to;
  }
  turn_of (acquire unique k) e = a
  turn_of (release l k) e = record {
    now = record a.now { threads = update a.now.threads i (thread k outside) };
    reach = later a.reach (unlocks i e);
    open_to = update-Lets a.now.threads i _ tt a.open_to;
  }
  turn_of (copy x y k) e = moved e copies

-- The threads whose turn it is, one after another
abbrev pub play : {A : Type 0} {s : System A} → List ℕ → At s → At s
play [] a = a
play (i ∷ order) a = play order (turn_of a i (a.now.threads i).code refl)
