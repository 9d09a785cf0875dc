-- ===== src/SharedHeap/Steps.antt =====
-- Each step of a thread that keeps to the logic preserves the invariant.
use allocator_builder.Base.{
  ℕ, ◌/◌, ◌%◌, ◌≡◌, ◌≢◌, ◌⊎◌, inl, inr, refl, sym, ap, ◌∙◌, subst, arith, true, length, get_or,
  ℕ_discrete, eq→==, ne→==, Bool-cases,
}
use allocator_builder.Bits.{bit}
use allocator_builder.Control.Chunks.{free}
use allocator_builder.SharedHeap.Program.{
  Lock, shared, unique, Prog, Shared, Mode, outside, reading, writing, mode_of,
}
use allocator_builder.SharedHeap.Threads.{
  System, thread, update, Lets, Move, loads, exchanges, misses, exchanges_all_set, misses_all_set,
  gets_all_set, stores, copies, Step, moves, locks, unlocks, Reach, start, later,
}
use allocator_builder.SharedHeap.Logic.{View, learned, forget, changed, Ok}
use allocator_builder.SharedHeap.Exchange.{not-both, Change-Fresh, Change-Moved}
use allocator_builder.SharedHeap.Sound.{Inv, Moved, Moved-Inv, free-here}

learned_mine : (mode : Mode) (r x : ℕ) (v : View) (c : ℕ) → (learned mode r x v).mine c ≡ v.mine c
learned_mine outside r x v c = refl
learned_mine reading r x v c = refl
learned_mine writing r x v c = refl

learned_seen :
    (mode : Mode) (r x : ℕ) (v : View) (c : ℕ)
    → (learned mode r x v).seen c ≡ true
    → (v.seen c ≡ true) ⊎ ((mode ≡ writing) × (c / 64 ≡ r) × (bit x (c % 64) ≡ 1))
learned_seen outside r x v c h = inl h
learned_seen reading r x v c h = inl h
learned_seen writing r x v c h = elim (Bool-cases (v.seen c)) [
  | inl seen ↦ inl seen
  | inr unseen ↦ inr (refl, ground (arith, h, unseen), ground (arith, h, unseen))
]

forget_mine :
    (views : ℕ → View) (i j c : ℕ)
    → (update views i (forget (views i)) j).mine c ≡ true
    → (views j).mine c ≡ true
forget_mine views i j c h = elim (ℕ_discrete i j) [
  | yes e ↦ ap (λ k. (views k).mine c) (sym e) ∙ (rw (eq→== i j e) at h)
  | no n ↦ rw (ne→== i j n) at h
]

forget_seen :
    (views : ℕ → View) (i j c : ℕ)
    → (update views i (forget (views i)) j).seen c ≡ true
    → (i ≢ j) × ((views j).seen c ≡ true)
forget_seen views i j c h = elim (ℕ_discrete i j) [
  | yes e ↦ absurd (not-both (rw (eq→== i j e) at h) refl)
  | no n ↦ (n, rw (ne→== i j n) at h)
]

outside-not : outside ≡ writing → ⊥
outside-not h = cc

-- A thread enters as a writer only where all others are outside, and no thread enters where one is
-- inside as a writer.
writing-alone : (l : Lock) (m : Mode) → mode_of l ≡ writing → Lets m l → m ≡ outside
writing-alone l outside h lets = refl
writing-alone shared reading h lets = cc
writing-alone unique reading h lets = absurd lets
writing-alone l writing h lets = absurd lets

writing-shut : (l : Lock) (m : Mode) → m ≡ writing → Lets m l → ⊥
writing-shut l outside h lets = outside-not h
writing-shut l reading h lets = cc
writing-shut l writing h lets = lets

module _ {A : Type 0} {size : ℕ} {Post : A → Mode → View → Type 0} where
  -- The thread has what it had, and may have learned of free chunks.
  same-Moved :
      (s : System A) (views : ℕ → View) (i : ℕ) (m : Shared) (p : Prog A) (v : View)
      → Inv size Post s views
      → m.control ≡ s.mem.control
      → m.all_set_member ≡ s.mem.all_set_member
      → ((c : ℕ) → v.mine c ≡ (views i).mine c)
      → ((c : ℕ) → v.seen c ≡ true → (free s.mem.control c ≡ 1) × ((s.threads i).mode ≡ writing))
      → Ok size p (s.threads i).mode v Post
      → Moved size Post s views i m p v
  same-Moved s views i m p v inv e e' mine seen ok = record {
    sized = ap length e ∙ inv.sized;
    member = e' ∙ inv.member;
    mine_used = λ c h. rw e (inv.used i c (sym (mine c) ∙ h));
    others_used = λ j c n h. rw e (inv.used j c h);
    apart = λ j c n h g. n (inv.apart i j c (sym (mine c) ∙ h) g);
    seen_free = λ c h. rw e (seen c h).0;
    seen_alone = λ c h. (seen c h).1;
    others_seen = λ j c n h. rw e (inv.seen_free j c h);
    ok = ok;
  }

  -- What a thread has seen is free while it has it.
  seen_known :
      (s : System A) (views : ℕ → View) (i : ℕ)
      → Inv size Post s views
      → (c : ℕ) → (views i).seen c ≡ true
      → (free s.mem.control c ≡ 1) × ((s.threads i).mode ≡ writing)
  seen_known s views i inv c h = (inv.seen_free i c h, inv.seen_alone i c h)

  -- A step but on the mutex
  Move-Moved :
      (s : System A) (views : ℕ → View) (i : ℕ) {m : Shared} {q p : Prog A}
      → Inv size Post s views
      → Move s.mem q m p
      → Ok size q (s.threads i).mode (views i) Post
      → (v : View) × Moved size Post s views i m p v
  Move-Moved s views i inv (loads {r}) ok = (
    learned (s.threads i).mode r (get_or s.mem.control r 0) (views i),
    same-Moved s views i s.mem _ _ inv refl refl
        (learned_mine (s.threads i).mode r (get_or s.mem.control r 0) (views i))
        (λ c h. elim (learned_seen (s.threads i).mode r (get_or s.mem.control r 0) (views i) c h) [
          | inl old ↦ seen_known s views i inv c old
          | inr (alone, here, digit) ↦ (free-here s.mem.control r c here ∙ digit, alone)
        ])
        (ok (get_or s.mem.control r 0)),
  )
  Move-Moved s views i inv (exchanges {r} {e} {d} now) ok = (
    changed ok.1.0,
    Change-Moved s views i r e d _ ok.1.0 inv ok.0 now
        (ok.1.1 (Change-Fresh s views i r e d ok.1.0 inv now)),
  )
  Move-Moved s views i inv (misses other) ok = (
    views i,
    same-Moved s views i s.mem _ _ inv refl refl (λ c. refl) (seen_known s views i inv) (ok.2 _),
  )
  Move-Moved s views i inv (exchanges_all_set now) ok = absurd ok
  Move-Moved s views i inv (misses_all_set other) ok = absurd ok
  Move-Moved s views i inv (gets_all_set {k}) ok = (
    views i,
    same-Moved s views i s.mem _ _ inv refl refl (λ c. refl) (seen_known s views i inv)
        (rw inv.member ok),
  )
  Move-Moved s views i inv stores ok = absurd ok
  Move-Moved s views i inv copies ok =
      (views i, same-Moved s views i _ _ _ inv refl refl (λ c. refl) (seen_known s views i inv) ok)

  -- A thread enters or leaves the mutex.
  forget-Inv :
      (s : System A) (views : ℕ → View) (i : ℕ) (k : Prog A) (mode : Mode)
      → Inv size Post s views
      → ((j : ℕ) → i ≢ j → mode ≡ writing → (s.threads j).mode ≡ outside)
      → ((j : ℕ) → i ≢ j → (s.threads j).mode ≡ writing → mode ≡ outside)
      → Ok size k mode (forget (views i)) Post
      → Inv size Post
          (record s { threads = update s.threads i (thread k mode) })
          (update views i (forget (views i)))
  forget-Inv s views i k mode inv first second ok = record {
    sized = inv.sized;
    member = inv.member;
    used = λ j c h. inv.used j c (forget_mine views i j c h);
    apart = λ j j' c h g. inv.apart j j' c (forget_mine views i j c h) (forget_mine views i j' c g);
    seen_free = λ j c h. inv.seen_free j c (forget_seen views i j c h).1;
    seen_alone = λ j c h.
        let (n, old) = forget_seen views i j c h in rw (ne→== i j n) (inv.seen_alone j c old);
    alone = λ j j' n h. elim (ℕ_discrete i j) [
      | yes e ↦
          let other : i ≢ j' = λ e'. n (sym e ∙ e') in
          rw (ne→== i j' other) (first j' other (rw (eq→== i j e) at h))
      | no m ↦ elim (ℕ_discrete i j') [
        | yes e' ↦ rw (eq→== i j' e') (second j m (rw (ne→== i j m) at h))
        | no m' ↦ rw (ne→== i j' m') (inv.alone j j' n (rw (ne→== i j m) at h))
      ]
    ];
    ok = λ j. elim (ℕ_discrete i j) [
      | yes e ↦ rw (eq→== i j e) ok
      | no n ↦ rw (ne→== i j n) (inv.ok j)
    ];
  }

  pub Step-Inv :
      {s t : System A} {views : ℕ → View}
      → Inv size Post s views
      → Step s t
      → (views' : ℕ → View) × Inv size Post t views'
  Step-Inv {s} {t} {views} inv (moves i m) =
      let (v, moved) = Move-Moved s views i inv m (inv.ok i) in
      (update views i v, Moved-Inv i inv moved)
  Step-Inv {s} {t} {views} inv (locks i {l} {k} e lets) =
      let (_, ok) = subst (λ p. Ok size p (s.threads i).mode (views i) Post) e (inv.ok i) in
      (
        update views i (forget (views i)),
        forget-Inv s views i k (mode_of l) inv
            (λ j n h. writing-alone l (s.threads j).mode h (lets j))
            (λ j n h. absurd (writing-shut l (s.threads j).mode h (lets j))) ok,
      )
  Step-Inv {s} {t} {views} inv (unlocks i {l} {k} e) =
      let ok = subst (λ p. Ok size p (s.threads i).mode (views i) Post) e (inv.ok i) in
      (
        update views i (forget (views i)),
        forget-Inv s views i k outside inv (λ j n h. absurd (outside-not h)) (λ j n h. refl) ok,
      )

  pub Reach-Inv :
      {s t : System A} {views : ℕ → View}
      → Inv size Post s views
      → Reach s t
      → (views' : ℕ → View) × Inv size Post t views'
  Reach-Inv inv start = (_, inv)
  Reach-Inv inv (later path step) = let (_, before) = Reach-Inv inv path in Step-Inv before step
