-- ===== src/Heap/Client/Invariant.antt =====
-- The invariant of a client of the heap: its runs of chunks, their use and their overlap.
use allocator_builder.Base.{
  ℕ, ◌+◌, ◌≤◌, ◌<◌, ◌≡◌, arith, ◌⊎◌, inl, inr, List, [], ◌∷◌, ◌∙◌, dec_le, sym, max,
}
use allocator_builder.Block.{Block, empty_block}
use allocator_builder.Control.Chunks.{free, Sets, Sets-eq}
use allocator_builder.Heap.{Heap, deallocate}
use allocator_builder.Heap.Layout.{IsValid}
use allocator_builder.Heap.Granted.{Granted, same_run}
use allocator_builder.Heap.Allocate.{Granted-IsValid}
use allocator_builder.Heap.Deallocate.{IsTidy, deallocate_lem}
use allocator_builder.Heap.Client.{Run, block_of, Removes, here, there}

-- A run of the heap, all of it used
pub record Holds (h : Heap) (r : Run) : Type 0 where
  pub counted : 0 < r.count
  pub within : r.start + r.count ≤ h.number_of_chunks
  pub used : (c : ℕ) → r.start ≤ c → c < r.start + r.count → free h.control c ≡ 0

abbrev pub Disjoint : Run → Run → Type 0
Disjoint r s = (r.start + r.count ≤ s.start) ⊎ (s.start + s.count ≤ r.start)

abbrev pub AllHold : Heap → List Run → Type 0
AllHold h [] = Unit {0}
AllHold h (r ∷ held) = Holds h r × AllHold h held

abbrev pub DisjointFrom : Run → List Run → Type 0
DisjointFrom r [] = Unit {0}
DisjointFrom r (s ∷ held) = Disjoint r s × DisjointFrom r held

abbrev pub Pairwise : List Run → Type 0
Pairwise [] = Unit {0}
Pairwise (r ∷ held) = DisjointFrom r held × Pairwise held

pub record Inv (h : Heap) (held : List Run) : Type 0 where
  pub valid : IsValid h
  pub all : AllHold h held
  pub pairwise : Pairwise held

-- A change of the bit field at a run that is disjoint from the held ones leaves those used.
pub AllHold-Sets :
    (h h' : Heap) {v : ℕ} (r : Run) (held : List Run)
    → Sets v r.start r.count h.control h'.control
    → h'.number_of_chunks ≡ h.number_of_chunks
    → DisjointFrom r held
    → AllHold h held
    → AllHold h' held
AllHold-Sets h h' r [] s e d a = tt
AllHold-Sets h h' r (t ∷ held) s e d a = (
  record {
    counted = a.0.counted;
    within = omega (arith, a.0.within);
    used = λ c lo hi. s.outside c (ground arith) ∙ a.0.used c lo hi;
  },
  AllHold-Sets h h' r held s e d.1 a.1,
)

-- A run of free chunks is disjoint from each run that is used.
pub free_run_Disjoint :
    {h : Heap} (r s : Run)
    → 0 < r.count
    → ((c : ℕ) → r.start ≤ c → c < r.start + r.count → free h.control c ≡ 1)
    → Holds h s
    → Disjoint r s
free_run_Disjoint {h} r s pos were a = elim (dec_le (r.start + r.count) s.start) [
  | yes before ↦ inl before
  | no late ↦ elim (dec_le (s.start + s.count) r.start) [
    | yes behind ↦ inr behind
    | no early ↦ absurd (
        omega (
          arith,
          were (max r.start s.start) (omega arith) (omega (arith, a.counted)),
          a.used (max r.start s.start) (omega arith) (omega (arith, a.counted)),
        ))
  ]
]

pub free_run_DisjointFrom :
    (h : Heap) (r : Run) (held : List Run)
    → 0 < r.count
    → ((c : ℕ) → r.start ≤ c → c < r.start + r.count → free h.control c ≡ 1)
    → AllHold h held
    → DisjointFrom r held
free_run_DisjointFrom h r [] pos were a = tt
free_run_DisjointFrom h r (s ∷ held) pos were a =
    (free_run_Disjoint {h = h} r s pos were a.0, free_run_DisjointFrom h r held pos were a.1)

Disjoint-DisjointFrom :
    {r : Run} (s : Run) {held held' : List Run}
    → Removes r held held'
    → DisjointFrom s held
    → Disjoint r s × DisjointFrom s held'
Disjoint-DisjointFrom s here d = (ground arith, d.1)
Disjoint-DisjointFrom s (there m) d =
    let rest = Disjoint-DisjointFrom s m d.1 in (rest.0, (d.0, rest.1))

-- What is left when a run is given back
pub Removes-Inv :
    (h : Heap) {r : Run} {held held' : List Run}
    → Removes r held held'
    → AllHold h held
    → Pairwise held
    → Holds h r × AllHold h held' × DisjointFrom r held' × Pairwise held'
Removes-Inv h here a p = (a.0, a.1, p.0, p.1)
Removes-Inv h (there m) a p =
    let rest = Removes-Inv h m a.1 p.1 in
    let d = Disjoint-DisjointFrom _ m p.0 in (rest.0, (a.0, rest.1), (d.0, rest.2), (d.1, rest.3))

pub Granted-Inv :
    (h h' : Heap) (held : List Run) (r : Run) (k : ℕ) {b : Block}
    → 0 < k
    → Granted k h b h'
    → b ≡ block_of h r
    → Inv h held
    → Inv h' (r ∷ held)
Granted-Inv h h' held r k pos g e inv = record {
  valid = Granted-IsValid inv.valid g;
  all = (mine, AllHold-Sets h h' r held taken chunks apart inv.all);
  pairwise = (apart, inv.pairwise);
}
  where
    same : (g.start ≡ r.start) × (k ≡ r.count)
    same = same_run h g.start k r.start r.count inv.valid.chunky (sym g.placed ∙ e)

    chunks : h'.number_of_chunks ≡ h.number_of_chunks
    chunks = ground (arith, g.others)

    taken : Sets 0 r.start r.count h.control h'.control
    taken = Sets-eq same.0 same.1 g.takes.taken

    apart : DisjointFrom r held
    apart =
        free_run_DisjointFrom h r held (omega (arith, same))
          (λ c lo hi. g.takes.were_free c (omega (arith, same)) (omega (arith, same))) inv.all

    mine : Holds h' r
    mine = record {
      counted = omega (arith, same);
      within = omega (arith, same, g.within, chunks);
      used = taken.inside;
    }

pub released-Inv :
    (h : Heap) (held held' : List Run) (r : Run)
    → Removes r held held'
    → IsTidy r.start r.count
    → Inv h held
    → Inv (deallocate (block_of h r) h).1 held'
released-Inv h held held' r m tidy inv = record {
  valid = ground (arith, freed, freed.1.same_length, inv.valid);
  all = AllHold-Sets h (deallocate (block_of h r) h).1 r held' freed.1 chunks left.2 left.1;
  pairwise = left.3;
}
  where
    left : Holds h r × AllHold h held' × DisjointFrom r held' × Pairwise held'
    left = Removes-Inv h m inv.all inv.pairwise

    freed :
        let (b, h') = deallocate (block_of h r) h in
        (b ≡ empty_block)
        × Sets 1 r.start r.count h.control h'.control
        × (h' ≡ record h { control = h'.control })
    freed = deallocate_lem inv.valid r.start r.count left.0.counted left.0.within tidy

    chunks : (deallocate (block_of h r) h).1.number_of_chunks ≡ h.number_of_chunks
    chunks = ground (arith, freed.2)
