-- ===== src/SharedHeap/Logic.antt =====
-- A program logic for the threads of a shared heap: which chunks a thread may take and free.
use allocator_builder.Base.{
  ℕ, ◌+◌, ◌*◌, ◌/◌, ◌%◌, ◌≤◌, ◌<◌, ◌≡◌, ◌≢◌, ◌⊎◌, Bool, true, false, ◌&&◌, ◌||◌, not, ◌==◌, leb,
  ltb,
}
use allocator_builder.Bits.{bit}
use allocator_builder.Control.Register.{all_set}
use allocator_builder.SharedHeap.Program.{
  Prog, ret, spinning, load, exchange, exchange_all_set, get_all_set, store, acquire, release, copy,
  ◌>>=◌, Mode, outside, writing, mode_of,
}

-- What a thread knows: the chunks that it has, and, while it is alone inside the mutex, chunks that
-- it has seen free.
pub record View : Type 0 where
  pub mine : ℕ → Bool
  pub seen : ℕ → Bool

abbrev pub in_run : ℕ → ℕ → ℕ → Bool
in_run first n c = leb first c && ltb c (first + n)

abbrev pub learned : Mode → ℕ → ℕ → View → View
learned writing r x v = record v {
  seen = λ c. v.seen c || (((c / 64) == r) && (bit x (c % 64) == 1));
}
learned _ r x v = v

abbrev pub forget : View → View
forget v = record v { seen = λ c. false }

-- An exchange of register `r` from `e` to `d` that a thread may make: it takes a run of chunks, which
-- are free in `e` or have been seen free, from inside the mutex, or it frees a run of its own. One that
-- takes `n` chunks may mark more of them, `k` in all, as used.
pub data Change (mode : Mode) (v : View) (r e d : ℕ) : Type 0 where
  takes :
      (lo n k : ℕ)
      → mode ≢ outside
      → n ≤ k
      → lo + k ≤ 64
      → ((i : ℕ) → lo ≤ i → i < lo + n → (bit e i ≡ 1) ⊎ (v.seen (r * 64 + i) ≡ true))
      → ((i : ℕ) → lo ≤ i → i < lo + k → bit d i ≡ 0)
      → ((i : ℕ) → i < 64 → (i < lo) ⊎ (lo + k ≤ i) → bit d i ≡ bit e i)
      → Change mode v r e d
  frees :
      (lo n : ℕ)
      → lo + n ≤ 64
      → ((i : ℕ) → lo ≤ i → i < lo + n → (v.mine (r * 64 + i) ≡ true) × (bit d i ≡ 1))
      → ((i : ℕ) → i < 64 → (i < lo) ⊎ (lo + n ≤ i) → bit d i ≡ bit e i)
      → Change mode v r e d

abbrev pub changed : {mode : Mode} {v : View} {r e d : ℕ} → Change mode v r e d → View
changed {v = v} {r = r} (takes lo n k _ _ _ _ _ _) = record {
  mine = λ c. v.mine c || in_run (r * 64 + lo) n c;
  seen = λ c. v.seen c && not (in_run (r * 64 + lo) k c);
}
changed {v = v} {r = r} (frees lo n _ _ _) = record {
  mine = λ c. v.mine c && not (in_run (r * 64 + lo) n c);
  seen = v.seen;
}

-- What a thread learns from a change that succeeds: it did not have the chunks that it takes.
abbrev pub Fresh : {mode : Mode} {v : View} {r e d : ℕ} → Change mode v r e d → Type 0
Fresh {v = v} {r = r} (takes lo n _ _ _ _ _ _ _) =
    (c : ℕ) → r * 64 + lo ≤ c → c < r * 64 + lo + n → v.mine c ≡ false
Fresh (frees _ _ _ _ _) = Unit {0}

-- Whatever the registers hold when it reads them, the program makes only such exchanges, on
-- registers that exist, enters the mutex only from outside and leaves it only from inside, and where
-- it returns, what it returns fits what the thread then has.
abbrev pub Ok : {A : Type 0} → ℕ → Prog A → Mode → View → (A → Mode → View → Type 0) → Type 0
Ok size (ret a) mode v Post = Post a mode v
Ok size spinning mode v Post = Unit {0}
Ok size (load r k) mode v Post = (x : ℕ) → Ok size (k x) mode (learned mode r x v) Post
Ok size (exchange r e d k) mode v Post =
    (r < size)
    × ((c : Change mode v r e d) × (Fresh c → Ok size (k true e) mode (changed c) Post))
    × ((x : ℕ) → Ok size (k false x) mode v Post)
Ok size (exchange_all_set r d k) mode v Post = ⊥
Ok size (get_all_set k) mode v Post = Ok size (k all_set) mode v Post
Ok size (store r x k) mode v Post = ⊥
Ok size (acquire l k) mode v Post = (mode ≡ outside) × Ok size k (mode_of l) (forget v) Post
Ok size (release l k) mode v Post = Ok size k outside (forget v) Post
Ok size (copy a b k) mode v Post = Ok size k mode v Post

-- One program after another
pub Ok-bind :
    {A B : Type 0} (size : ℕ) (p : Prog A) (f : A → Prog B) (mode : Mode) (v : View)
    (P : A → Mode → View → Type 0) (Q : B → Mode → View → Type 0)
    → Ok size p mode v P
    → ((a : A) (mode' : Mode) (v' : View) → P a mode' v' → Ok size (f a) mode' v' Q)
    → Ok size (p >>= f) mode v Q
Ok-bind size (ret a) f mode v P Q h g = g a mode v h
Ok-bind size spinning f mode v P Q h g = tt
Ok-bind size (load r k) f mode v P Q h g =
    λ x. Ok-bind size (k x) f mode (learned mode r x v) P Q (h x) g
Ok-bind size (exchange r e d k) f mode v P Q h g = (
  h.0,
  (h.1.0, λ new. Ok-bind size (k true e) f mode (changed h.1.0) P Q (h.1.1 new) g),
  λ x. Ok-bind size (k false x) f mode v P Q (h.2 x) g,
)
Ok-bind size (exchange_all_set r d k) f mode v P Q h g = h
Ok-bind size (get_all_set k) f mode v P Q h g = Ok-bind size (k all_set) f mode v P Q h g
Ok-bind size (store r x k) f mode v P Q h g = h
Ok-bind size (acquire l k) f mode v P Q h g =
    (h.0, Ok-bind size k f (mode_of l) (forget v) P Q h.1 g)
Ok-bind size (release l k) f mode v P Q h g = Ok-bind size k f outside (forget v) P Q h g
Ok-bind size (copy a b k) f mode v P Q h g = Ok-bind size k f mode v P Q h g

-- What is promised of a result may be weakened.
pub Ok-weaken :
    {A : Type 0} (size : ℕ) (p : Prog A) (mode : Mode) (v : View) (P Q : A → Mode → View → Type 0)
    → Ok size p mode v P
    → ((a : A) (mode' : Mode) (v' : View) → P a mode' v' → Q a mode' v')
    → Ok size p mode v Q
Ok-weaken size (ret a) mode v P Q h g = g a mode v h
Ok-weaken size spinning mode v P Q h g = tt
Ok-weaken size (load r k) mode v P Q h g =
    λ x. Ok-weaken size (k x) mode (learned mode r x v) P Q (h x) g
Ok-weaken size (exchange r e d k) mode v P Q h g = (
  h.0,
  (h.1.0, λ new. Ok-weaken size (k true e) mode (changed h.1.0) P Q (h.1.1 new) g),
  λ x. Ok-weaken size (k false x) mode v P Q (h.2 x) g,
)
Ok-weaken size (exchange_all_set r d k) mode v P Q h g = h
Ok-weaken size (get_all_set k) mode v P Q h g = Ok-weaken size (k all_set) mode v P Q h g
Ok-weaken size (store r x k) mode v P Q h g = h
Ok-weaken size (acquire l k) mode v P Q h g =
    (h.0, Ok-weaken size k (mode_of l) (forget v) P Q h.1 g)
Ok-weaken size (release l k) mode v P Q h g = Ok-weaken size k outside (forget v) P Q h g
Ok-weaken size (copy a b k) mode v P Q h g = Ok-weaken size k mode v P Q h g
