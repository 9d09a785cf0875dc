-- ===== src/Stack/Refine.antt =====
-- The array stack against a list of bounded length, newest element first.
use allocator_builder.Base.{
  ℕ, zero, suc, ◌+◌, ◌-◌, ◌≤◌, ◌<◌, ◌≡◌, refl, arith, ap, ◌∙◌, Bool, true, false, List, [], ◌∷◌,
  length, get_or, set, length-set, get_or-set_self, get_or-set_ne, ltb, if◌then◌else◌, dec_lt,
  int_max, int_of_small, leb_int_le, leb_int_gt, lt→ltb, ge→ltb,
}
use allocator_builder.Stack.{Stack, push, pop}

-- The specification: a list that takes `max_size` elements
abbrev pub push_list : {T : Type 0} → ℕ → T → List T → Bool × List T
push_list max_size v l = if ltb (length l) max_size then (true, v ∷ l) else (false, l)

abbrev pub pop_list : {T : Type 0} → T → List T → (Bool × T) × List T
pop_list v [] = ((false, v), [])
pop_list v (x ∷ l) = ((true, x), l)

pub data Command (T : Type 0) : Type 0 where
  put : T → Command T
  take : T → Command T

-- The results of a sequence of calls: what `push` returns, and what `pop` does with its argument.
abbrev pub run : {T : Type 0} → ℕ → List (Command T) → Stack T → List (Bool × T)
run max_size [] s = []
run max_size (put v ∷ commands) s =
    let (done, s') = push max_size v s in (done, v) ∷ run max_size commands s'
run max_size (take v ∷ commands) s = let (r, s') = pop v s in r ∷ run max_size commands s'

abbrev pub run_list : {T : Type 0} → ℕ → List (Command T) → List T → List (Bool × T)
run_list max_size [] l = []
run_list max_size (put v ∷ commands) l =
    let (done, l') = push_list max_size v l in (done, v) ∷ run_list max_size commands l'
run_list max_size (take v ∷ commands) l =
    let (r, l') = pop_list v l in r ∷ run_list max_size commands l'

module _ {T : Type 0} where
  -- The array holds the list in its first cells, the newest element last.
  pub data Holds (elements : List T) : ℕ → List T → Type 0 where
    bottom : Holds elements 0 []
    above :
        {n : ℕ} {l : List T} (x : T)
        → n < length elements
        → ((d : T) → get_or elements n d ≡ x)
        → Holds elements n l
        → Holds elements (suc n) (x ∷ l)

  -- A stack of an array of `max_size` cells, a number that an `int` can hold, and the list it stands for
  pub record Represents (max_size : ℕ) (s : Stack T) (l : List T) : Type 0 where
    pub room : length s.elements ≡ max_size
    pub countable : max_size ≤ int_max
    pub holds : Holds s.elements s.used l

  pub Holds-length : {elements : List T} {n : ℕ} {l : List T} → Holds elements n l → length l ≡ n
  Holds-length bottom = refl
  Holds-length (above x p q h) = ap suc (Holds-length h)

  -- The elements have room in the array.
  Holds-room :
      {max_size : ℕ} {elements : List T} {n : ℕ} {l : List T}
      → length elements ≡ max_size
      → Holds elements n l
      → n ≤ max_size
  Holds-room e bottom = omega arith
  Holds-room e (above x p q h) = omega (arith, p)

  -- A write above the used part
  Holds-set :
      {elements : List T} {n : ℕ} {l : List T} (i : ℕ) (v : T)
      → n ≤ i
      → Holds elements n l
      → Holds (set elements i v) n l
  Holds-set i v h bottom = bottom
  Holds-set {elements} i v h (above {n} x p q rest) =
      above x (omega (arith, length-set elements i v))
        (λ d. get_or-set_ne elements i n v d (λ e. omega arith) ∙ q d)
        (Holds-set i v (omega arith) rest)

  -- `push` puts the element on the list if there is room, and reports whether there was.
  pub push-Represents :
      {max_size : ℕ} {s : Stack T} {l : List T} (v : T)
      → Represents max_size s l
      → ((push max_size v s).0 ≡ (push_list max_size v l).0)
        × Represents max_size (push max_size v s).1 (push_list max_size v l).1
  unfolding push
  push-Represents {max_size} {s} {l} v r = elim (dec_lt s.used max_size) [
    | yes room ↦
        rw
          (
            Holds-length r.holds,
            lt→ltb s.used max_size room,
            int_of_small max_size r.countable,
            leb_int_gt max_size s.used room r.countable,
          )
          (
            refl,
            record {
              room = length-set s.elements s.used v ∙ r.room;
              countable = r.countable;
              holds = pushed room;
            },
          )
    | no full ↦
        rw
          (
            Holds-length r.holds,
            ge→ltb s.used max_size (omega arith),
            int_of_small max_size r.countable,
            leb_int_le max_size s.used (omega arith)
                (omega (arith, Holds-room r.room r.holds, r.countable)),
          )
          (refl, r)
  ]
    where
      pushed : s.used < max_size → Holds (set s.elements s.used v) (s.used + 1) (v ∷ l)
      pushed room =
          let e : s.used + 1 ≡ suc s.used = omega arith in
          rw e (
            above v (omega (arith, length-set s.elements s.used v, r.room))
              (λ d. get_or-set_self s.elements s.used v d (omega (arith, r.room)))
              (Holds-set s.used v (omega arith) r.holds))

  -- With room, the element goes on the list.
  pub push_room :
      {max_size : ℕ} {s : Stack T} {l : List T} (v : T)
      → Represents max_size s l
      → length l < max_size
      → ((push max_size v s).0 ≡ true) × Represents max_size (push max_size v s).1 (v ∷ l)
  push_room {max_size} {s} {l} v r room =
      rw (lt→ltb (length l) max_size room) at (push-Represents v r)

  popped :
      {max_size : ℕ} (elements : List T) (n : ℕ) (l : List T) (v : T)
      → length elements ≡ max_size
      → max_size ≤ int_max
      → Holds elements n l
      → let s : Stack T = record { elements = elements; used = n } in
        ((pop v s).0 ≡ (pop_list v l).0) × Represents max_size (pop v s).1 (pop_list v l).1
  unfolding pop
  popped elements zero [] v room countable bottom =
      (refl, record { room = room; countable = countable; holds = bottom })
  popped elements zero (x ∷ l) v room countable h = elim h [ ]
  popped elements (suc n) [] v room countable h = elim h [ ]
  popped elements (suc n) (x ∷ l) v room countable (above y p q h) =
      let back : suc n - 1 ≡ n = omega arith in
      rw (lt→ltb 0 (suc n) (omega arith), back)
        (ap (λ t. (true, t)) (q v), record { room = room; countable = countable; holds = h })

  -- `pop` takes the newest element of the list, and leaves its argument alone if there is none.
  pub pop-Represents :
      {max_size : ℕ} {s : Stack T} {l : List T} (v : T)
      → Represents max_size s l
      → ((pop v s).0 ≡ (pop_list v l).0) × Represents max_size (pop v s).1 (pop_list v l).1
  pop-Represents {s = s} {l = l} v r = popped s.elements s.used l v r.room r.countable r.holds

  -- On a stack that represents a list, every sequence of calls gives the results that it gives on
  -- the list.
  pub run-Represents :
      {max_size : ℕ} (commands : List (Command T)) {s : Stack T} {l : List T}
      → Represents max_size s l
      → run max_size commands s ≡ run_list max_size commands l
  run-Represents [] r = refl
  run-Represents {max_size} (put v ∷ commands) {s} {l} r =
      let step = push-Represents v r in
      ap (λ t. (t, v) ∷ run max_size commands (push max_size v s).1) step.0
      ∙ ap (λ t. ((push_list max_size v l).0, v) ∷ t) (run-Represents commands step.1)
  run-Represents {max_size} (take v ∷ commands) {s} {l} r =
      let step = pop-Represents v r in
      ap (λ t. t ∷ run max_size commands (pop v s).1) step.0
      ∙ ap (λ t. (pop_list v l).0 ∷ t) (run-Represents commands step.1)
