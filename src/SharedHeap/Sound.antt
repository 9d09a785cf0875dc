-- ===== src/SharedHeap/Sound.antt =====
-- The invariant of a system whose threads keep to the logic.
use allocator_builder.Base.{
  ℕ, ◌+◌, ◌*◌, ◌/◌, ◌%◌, ◌≤◌, ◌<◌, ◌≡◌, ◌≢◌, ◌⊎◌, inl, inr, refl, sym, ap, ◌∙◌, arith, Bool, true,
  false, ◌&&◌, leb, List, length, get_or, set, length-set, get_or-set_self, get_or-set_ne,
  ℕ_discrete, eq→==, ne→==, lt→ltb, ge→ltb, le→leb, gt→leb, dec_lt,
}
use allocator_builder.Bits.{bit}
use allocator_builder.Control.Register.{all_set}
use allocator_builder.Control.Chunks.{free, Sets}
use allocator_builder.SharedHeap.Program.{Prog, Shared, Mode, outside, writing}
use allocator_builder.SharedHeap.Threads.{Thread, System, thread, update}
use allocator_builder.SharedHeap.Logic.{View, in_run, Ok}

-- `views` are what the threads know.
pub record Inv {A : Type 0} (size : ℕ) (Post : A → Mode → View → Type 0) (s : System A)
    (views : ℕ → View) : Type 0 where
  pub sized : length s.mem.control ≡ size
  pub member : s.mem.all_set_member ≡ all_set
  pub used : (i c : ℕ) → (views i).mine c ≡ true → free s.mem.control c ≡ 0
  pub apart : (i j c : ℕ) → (views i).mine c ≡ true → (views j).mine c ≡ true → i ≡ j
  pub seen_free : (i c : ℕ) → (views i).seen c ≡ true → free s.mem.control c ≡ 1
  pub seen_alone : (i c : ℕ) → (views i).seen c ≡ true → (s.threads i).mode ≡ writing
  pub alone : (i j : ℕ) → i ≢ j → (s.threads i).mode ≡ writing → (s.threads j).mode ≡ outside
  pub ok : (i : ℕ) → Ok size (s.threads i).code (s.threads i).mode (views i) Post

free-set_here :
    (control : List ℕ) (r d c : ℕ)
    → r < length control
    → c / 64 ≡ r
    → free (set control r d) c ≡ bit d (c % 64)
unfolding free
free-set_here control r d c h e = rw (e, get_or-set_self control r d 0 h) refl

free-set_other :
    (control : List ℕ) (r d c : ℕ) → r ≢ c / 64 → free (set control r d) c ≡ free control c
unfolding free
free-set_other control r d c h = rw (get_or-set_ne control r (c / 64) d 0 h) refl

pub free-here :
    (control : List ℕ) (r c : ℕ) → c / 64 ≡ r → free control c ≡ bit (get_or control r 0) (c % 64)
unfolding free
free-here control r c e = rw e refl

update_mode :
    {A : Type 0} (f : ℕ → Thread A) (i j : ℕ) (p : Prog A)
    → (update f i (thread p (f i).mode) j).mode ≡ (f j).mode
update_mode f i j p = elim (ℕ_discrete i j) [
  | yes e ↦ rw (eq→== i j e) (ap (λ k. (f k).mode) e)
  | no n ↦ rw (ne→== i j n) refl
]

pub &&-false : (b : Bool) → (b && false) ≡ false
&&-false true = refl
&&-false false = refl

-- What a step of thread `i` outside of the mutex's functions must leave behind
pub record Moved {A : Type 0} (size : ℕ) (Post : A → Mode → View → Type 0) (s : System A)
    (views : ℕ → View) (i : ℕ) (m : Shared) (p : Prog A) (v : View) : Type 0 where
  pub sized : length m.control ≡ size
  pub member : m.all_set_member ≡ all_set
  pub mine_used : (c : ℕ) → v.mine c ≡ true → free m.control c ≡ 0
  pub others_used : (j c : ℕ) → i ≢ j → (views j).mine c ≡ true → free m.control c ≡ 0
  pub apart : (j c : ℕ) → i ≢ j → v.mine c ≡ true → (views j).mine c ≡ true → ⊥
  pub seen_free : (c : ℕ) → v.seen c ≡ true → free m.control c ≡ 1
  pub seen_alone : (c : ℕ) → v.seen c ≡ true → (s.threads i).mode ≡ writing
  pub others_seen : (j c : ℕ) → i ≢ j → (views j).seen c ≡ true → free m.control c ≡ 1
  pub ok : Ok size p (s.threads i).mode v Post

pub Moved-Inv :
    {A : Type 0} {size : ℕ} {Post : A → Mode → View → Type 0} {s : System A} {views : ℕ → View}
    (i : ℕ) {m : Shared} {p : Prog A} {v : View}
    → Inv size Post s views
    → Moved size Post s views i m p v
    → Inv size Post
        (record { mem = m; threads = update s.threads i (thread p (s.threads i).mode) })
        (update views i v)
Moved-Inv {s = s} {views = views} i {m = m} {p = p} {v = v} inv w = record {
  sized = w.sized;
  member = w.member;
  used = λ j c h. elim (ℕ_discrete i j) [
    | yes e ↦ w.mine_used c (rw (eq→== i j e) at h)
    | no n ↦ w.others_used j c n (rw (ne→== i j n) at h)
  ];
  apart = λ j k c h g. elim (ℕ_discrete i j) [
    | yes e ↦ elim (ℕ_discrete i k) [
      | yes e' ↦ sym e ∙ e'
      | no n' ↦ absurd (w.apart k c n' (rw (eq→== i j e) at h) (rw (ne→== i k n') at g))
    ]
    | no n ↦ elim (ℕ_discrete i k) [
      | yes e' ↦ absurd (w.apart j c n (rw (eq→== i k e') at g) (rw (ne→== i j n) at h))
      | no n' ↦ inv.apart j k c (rw (ne→== i j n) at h) (rw (ne→== i k n') at g)
    ]
  ];
  seen_free = λ j c h. elim (ℕ_discrete i j) [
    | yes e ↦ w.seen_free c (rw (eq→== i j e) at h)
    | no n ↦ w.others_seen j c n (rw (ne→== i j n) at h)
  ];
  seen_alone = λ j c h. update_mode s.threads i j p ∙ (elim (ℕ_discrete i j) [
    | yes e ↦ ap (λ k. (s.threads k).mode) (sym e) ∙ w.seen_alone c (rw (eq→== i j e) at h)
    | no n ↦ inv.seen_alone j c (rw (ne→== i j n) at h)
  ]);
  alone = λ j k n h.
      update_mode s.threads i k p ∙ inv.alone j k n (sym (update_mode s.threads i j p) ∙ h);
  ok = λ j. elim (ℕ_discrete i j) [
    | yes e ↦ rw (eq→== i j e) w.ok
    | no n ↦ rw (ne→== i j n) (inv.ok j)
  ];
}

pub in_run-cases :
    (first n c : ℕ)
    → (((first ≤ c) × (c < first + n)) × (in_run first n c ≡ true))
      ⊎ (((c < first) ⊎ (first + n ≤ c)) × (in_run first n c ≡ false))
in_run-cases first n c = elim (dec_lt c first) [
  | yes below ↦ inr (inl below, rw (gt→leb first c below) refl)
  | no from ↦ elim (dec_lt c (first + n)) [
    | yes inside ↦
        inl (
          (omega arith, inside),
          rw (le→leb first c (omega arith), lt→ltb c (first + n) inside) refl,
        )
    | no above ↦
        inr (inr (omega arith), rw (ge→ltb c (first + n) (omega arith)) (&&-false (leb first c)))
  ]
]

pub exchange-Sets :
    (v r d lo n : ℕ) (control : List ℕ)
    → r < length control
    → lo + n ≤ 64
    → ((i : ℕ) → lo ≤ i → i < lo + n → bit d i ≡ v)
    → ((i : ℕ) → i < 64 → (i < lo) ⊎ (lo + n ≤ i) → bit d i ≡ bit (get_or control r 0) i)
    → Sets v (r * 64 + lo) n control (set control r d)
exchange-Sets v r d lo n control h w inner outer = record {
  inside = λ c p q.
      let here : c / 64 ≡ r = omega arith in
      free-set_here control r d c h here ∙ inner (c % 64) (omega arith) (omega arith);
  outside = λ c p. elim (ℕ_discrete r (c / 64)) [
    | yes here ↦
        free-set_here control r d c h (sym here)
        ∙ outer (c % 64) (omega arith) (ground arith)
        ∙ sym (free-here control r c (sym here))
    | no other ↦ free-set_other control r d c other
  ];
  same_length = length-set control r d;
}

pub in_run-inside : (first n c : ℕ) → first ≤ c → c < first + n → in_run first n c ≡ true
in_run-inside first n c lo hi = rw (le→leb first c lo, lt→ltb c (first + n) hi) refl

pub in_run-outside : (first n c : ℕ) → (c < first) ⊎ (first + n ≤ c) → in_run first n c ≡ false
in_run-outside first n c (inl below) = rw (gt→leb first c below) refl
in_run-outside first n c (inr above) = rw (ge→ltb c (first + n) above) (&&-false (leb first c))
