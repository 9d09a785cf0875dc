-- ===== src/SharedHeap/Exchange.antt =====
-- An exchange that succeeds preserves the invariant.
use allocator_builder.Base.{
  ℕ, ◌+◌, ◌-◌, ◌*◌, ◌%◌, ◌≤◌, ◌<◌, ◌≡◌, ◌⊎◌, inl, inr, refl, sym, ◌∙◌, arith, Bool, true, false,
  ◌&&◌, ◌||◌, not, get_or, set, Bool-cases,
}
use allocator_builder.Bits.{bit}
use allocator_builder.Control.Chunks.{free, Sets}
use allocator_builder.SharedHeap.Program.{Prog, Mode}
use allocator_builder.SharedHeap.Threads.{System}
use allocator_builder.SharedHeap.Logic.{View, in_run, Change, takes, frees, changed, Fresh, Ok}
use allocator_builder.SharedHeap.Sound.{
  Inv, Moved, exchange-Sets, in_run-cases, in_run-outside, free-here,
}

old_or_run : (a b : Bool) → (a || b) ≡ true → (a ≡ true) ⊎ (b ≡ true)
old_or_run true b h = inl refl
old_or_run false b h = inr h

old_but_run : (a b : Bool) → (a && not b) ≡ true → (a ≡ true) × (b ≡ false)
old_but_run true true h = absurd (ground arith)
old_but_run true false h = (refl, refl)
old_but_run false b h = absurd (ground arith)

pub not-both : {b : Bool} → b ≡ true → b ≡ false → ⊥
not-both h g = ground arith

module _ {A : Type 0} {size : ℕ} {Post : A → Mode → View → Type 0} where
  was_free_here :
      (s : System A) (views : ℕ → View) (i r e lo x : ℕ)
      → Inv size Post s views
      → get_or s.mem.control r 0 ≡ e
      → r * 64 + lo ≤ x
      → x < r * 64 + 64
      → (bit e (x - r * 64) ≡ 1) ⊎ ((views i).seen (r * 64 + (x - r * 64)) ≡ true)
      → free s.mem.control x ≡ 1
  was_free_here s views i r e lo x inv now a b (inl digit) =
      let place : x % 64 ≡ x - r * 64 = omega arith in
      free-here s.mem.control r x (omega arith) ∙ (rw (now, place) digit)
  was_free_here s views i r e lo x inv now a b (inr seen) =
      let same : r * 64 + (x - r * 64) ≡ x = omega arith in inv.seen_free i x (rw same at seen)

  pub Change-Fresh :
      (s : System A) (views : ℕ → View) (i r e d : ℕ)
      (c : Change (s.threads i).mode (views i) r e d)
      → Inv size Post s views
      → get_or s.mem.control r 0 ≡ e
      → Fresh c
  Change-Fresh s views i r e d (takes lo n k inside more within free_before cleared outer) inv now =
      λ x a b. elim (Bool-cases ((views i).mine x)) [
        | inl mine ↦
            let used = inv.used i x mine in
            let unused =
              was_free_here s views i r e lo x inv now a (omega arith)
                (free_before (x - r * 64) (omega arith) (omega arith)) in
            absurd (omega arith)
        | inr other ↦ other
      ]
  Change-Fresh s views i r e d (frees lo n within inner outer) inv now = tt

  -- An exchange that succeeds
  pub Change-Moved :
      (s : System A) (views : ℕ → View) (i r e d : ℕ) (p : Prog A)
      (c : Change (s.threads i).mode (views i) r e d)
      → Inv size Post s views
      → r < size
      → get_or s.mem.control r 0 ≡ e
      → Ok size p (s.threads i).mode (changed c) Post
      → Moved size Post s views i (record s.mem { control = set s.mem.control r d }) p (changed c)
  Change-Moved s views i r e d p (takes lo n k inside more within free_before cleared outer) inv h
        now ok =
      let done : Sets 0 (r * 64 + lo) k s.mem.control (set s.mem.control r d) =
        exchange-Sets 0 r d lo k s.mem.control (rw inv.sized h) within cleared
          (λ x a b. rw now (outer x a b)) in
      let was_free : (x : ℕ) → r * 64 + lo ≤ x → x < r * 64 + lo + n → free s.mem.control x ≡ 1 =
        λ x a b.
          was_free_here s views i r e lo x inv now a (omega arith)
            (free_before (x - r * 64) (omega arith) (omega arith)) in
      record {
        sized = done.same_length ∙ inv.sized;
        member = inv.member;
        mine_used = λ x h. elim (in_run-cases (r * 64 + lo) k x) [
          | inl (within, run) ↦ done.inside x within.0 within.1
          | inr (out, _) ↦ elim (old_or_run ((views i).mine x) (in_run (r * 64 + lo) n x) h) [
            | inl old ↦ done.outside x out ∙ inv.used i x old
            | inr run ↦ absurd (not-both run (in_run-outside (r * 64 + lo) n x (ground arith)))
          ]
        ];
        others_used = λ j x m h. elim (in_run-cases (r * 64 + lo) k x) [
          | inl (within, run) ↦ done.inside x within.0 within.1
          | inr (out, no_run) ↦ done.outside x out ∙ inv.used j x h
        ];
        apart = λ j x m h g. elim (old_or_run ((views i).mine x) (in_run (r * 64 + lo) n x) h) [
          | inl old ↦ m (inv.apart i j x old g)
          | inr run ↦ elim (in_run-cases (r * 64 + lo) n x) [
            | inl (within, run) ↦
                let used = inv.used j x g in
                let unused = was_free x within.0 within.1 in absurd (omega arith)
            | inr (out, no_run) ↦ not-both run no_run
          ]
        ];
        seen_free = λ x h.
            let (seen, no_run) = old_but_run ((views i).seen x) (in_run (r * 64 + lo) k x) h in
            elim (in_run-cases (r * 64 + lo) k x) [
              | inl (within, run) ↦ absurd (not-both run no_run)
              | inr (out, no_run) ↦ done.outside x out ∙ inv.seen_free i x seen
            ];
        seen_alone = λ x h.
            inv.seen_alone i x (old_but_run ((views i).seen x) (in_run (r * 64 + lo) k x) h).0;
        others_seen =
            λ j x m h. absurd (inside (inv.alone j i (λ e. m (sym e)) (inv.seen_alone j x h)));
        ok = ok;
      }
  Change-Moved s views i r e d p (frees lo n within inner outer) inv h now ok =
      let done : Sets 1 (r * 64 + lo) n s.mem.control (set s.mem.control r d) =
        exchange-Sets 1 r d lo n s.mem.control (rw inv.sized h) within (λ k a b. (inner k a b).1)
          (λ k a b. rw now (outer k a b)) in
      record {
        sized = done.same_length ∙ inv.sized;
        member = inv.member;
        mine_used = λ x h.
            let (old, no_run) = old_but_run ((views i).mine x) (in_run (r * 64 + lo) n x) h in
            elim (in_run-cases (r * 64 + lo) n x) [
              | inl (within, run) ↦ absurd (not-both run no_run)
              | inr (out, no_run) ↦ done.outside x out ∙ inv.used i x old
            ];
        others_used = λ j x m h. elim (in_run-cases (r * 64 + lo) n x) [
          | inl (within, run) ↦
              let own : (views i).mine (r * 64 + (x - r * 64)) ≡ true =
                (inner (x - r * 64) (omega arith) (omega arith)).0 in
              let same : r * 64 + (x - r * 64) ≡ x = omega arith in
              absurd (m (inv.apart i j x (rw same at own) h))
          | inr (out, no_run) ↦ done.outside x out ∙ inv.used j x h
        ];
        apart = λ j x m h g.
            m (inv.apart i j x (old_but_run ((views i).mine x) (in_run (r * 64 + lo) n x) h).0 g);
        seen_free = λ x h. elim (in_run-cases (r * 64 + lo) n x) [
          | inl (within, run) ↦ done.inside x within.0 within.1
          | inr (out, no_run) ↦ done.outside x out ∙ inv.seen_free i x h
        ];
        seen_alone = inv.seen_alone i;
        others_seen = λ j x m h. elim (in_run-cases (r * 64 + lo) n x) [
          | inl (within, run) ↦ done.inside x within.0 within.1
          | inr (out, no_run) ↦ done.outside x out ∙ inv.seen_free j x h
        ];
        ok = ok;
      }
