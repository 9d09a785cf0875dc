-- ===== src/Heap/Client/InPlace.antt =====
-- The invariant of a client of the heap, where a block changes its size in place.
use allocator_builder.Base.{
  ℕ, ◌+◌, ◌-◌, ◌≤◌, ◌<◌, ◌≡◌, arith, inl, inr, List, [], ◌∷◌, ◌∙◌, dec_lt, Bool,
}
use allocator_builder.Block.{Block, Memory}
use allocator_builder.Control.Found.{Takes}
use allocator_builder.Heap.{Heap}
use allocator_builder.Heap.Granted.{Takes-within}
use allocator_builder.Heap.Keeps.{IsValid-Keeps}
use allocator_builder.Heap.Expand.{Expanded}
use allocator_builder.Heap.Shrink.{Shrunk}
use allocator_builder.Heap.Client.{Run, Removes, resized}
use allocator_builder.Heap.Client.Invariant.{
  AllHold, DisjointFrom, Inv, AllHold-Sets, free_run_DisjointFrom, Removes-Inv,
}

-- A run with the `n` chunks behind it, and its first `n` chunks
abbrev pub longer : Run → ℕ → Run
longer r n = record r { count = r.count + n }

abbrev pub first : Run → ℕ → Run
first r n = record r { count = n }

longer-DisjointFrom :
    (h : Heap) (r : Run) (n : ℕ) (held : List Run)
    → AllHold h held
    → DisjointFrom r held
    → DisjointFrom (record { start = r.start + r.count; count = n }) held
    → DisjointFrom (longer r n) held
longer-DisjointFrom h r n [] a d e = tt
longer-DisjointFrom h r n (s ∷ held) a d e =
    (ground (arith, a.0.counted, d.0, e.0), longer-DisjointFrom h r n held a.1 d.1 e.1)

part-DisjointFrom :
    (r s : Run) (held : List Run)
    → r.start ≤ s.start
    → s.start + s.count ≤ r.start + r.count
    → DisjointFrom r held
    → DisjointFrom s held
part-DisjointFrom r s [] lo hi d = tt
part-DisjointFrom r s (t ∷ held) lo hi d = (ground arith, part-DisjointFrom r s held lo hi d.1)

module _ {h : Heap} {held held' : List Run} (r : Run) (m : Removes r held held')
    (inv : Inv h held) where
  taken-Inv :
      (n : ℕ) (h' : Heap)
      → 0 < n
      → Takes n (r.start + r.count) h.control h'.control
      → h' ≡ record h { control = h'.control }
      → Inv h' (longer r n ∷ held')
  taken-Inv n h' pos t same =
      let left = Removes-Inv h m inv.all inv.pairwise in
      let more : Run = record { start = r.start + r.count; count = n } in
      let chunks : h'.number_of_chunks ≡ h.number_of_chunks = ground (arith, same) in
      let apart = free_run_DisjointFrom h more held' pos t.were_free left.1 in
      record {
        valid =
            IsValid-Keeps (record { others = same; same_length = t.taken.same_length }) inv.valid;
        all = (
          record {
            counted = omega arith;
            within = omega (arith, chunks, Takes-within {h = h} inv.valid pos t);
            used = λ c lo hi. elim (dec_lt c (r.start + r.count)) [
              | yes old ↦ t.taken.outside c (inl old) ∙ left.0.used c lo old
              | no new ↦ t.taken.inside c (omega arith) (omega arith)
            ];
          },
          AllHold-Sets h h' more held' t.taken chunks apart left.1,
        );
        pairwise = (longer-DisjointFrom h r n held' left.1 left.2 apart, left.3);
      }

  back-Inv : Inv h (r ∷ held')
  back-Inv =
      let left = Removes-Inv h m inv.all inv.pairwise in
      record { valid = inv.valid; all = (left.0, left.1); pairwise = (left.2, left.3) }

  pub Expanded-Inv :
      (n : ℕ) (x : (Bool × Block) × Heap)
      → 0 < n
      → Expanded h r.start r.count n x
      → Inv x.1 (resized r x.0.0 n ∷ held')
  Expanded-Inv n ((done, b), h') pos (inl (e, at, t, same)) = rw e (taken-Inv n h' pos t same)
  Expanded-Inv n ((done, b), h') pos (inr (e, at, same, full)) = rw (e, same) back-Inv

  pub Shrunk-Inv :
      (n : ℕ) (w : Memory) (x : (Bool × Block) × Heap × Memory)
      → 0 < n
      → n < r.count
      → Shrunk h r.start r.count n w x
      → Inv x.1 (first r n ∷ held')
  Shrunk-Inv n w (y, h', w') pos fewer (at, freed, same, kept) =
      let left = Removes-Inv h m inv.all inv.pairwise in
      let rest : Run = record { start = r.start + n; count = r.count - n } in
      let chunks : h'.number_of_chunks ≡ h.number_of_chunks = ground (arith, same) in
      let apart = part-DisjointFrom r rest held' (omega arith) (omega arith) left.2 in
      record {
        valid = IsValid-Keeps (record { others = same; same_length = freed.same_length }) inv.valid;
        all = (
          record {
            counted = pos;
            within = omega (arith, chunks, left.0.within);
            used = λ c lo hi. freed.outside c (inl (omega arith)) ∙ left.0.used c lo (omega arith);
          },
          AllHold-Sets h h' rest held' freed chunks apart left.1,
        );
        pairwise =
            (part-DisjointFrom r (first r n) held' (omega arith) (omega arith) left.2, left.3);
      }
