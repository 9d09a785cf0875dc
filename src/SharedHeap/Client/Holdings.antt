-- ===== src/SharedHeap/Client/Holdings.antt =====
-- What a thread holds: runs of chunks that are its own, apart from each other.
use allocator_builder.Base.{
  ℕ, zero, suc, ◌+◌, ◌%◌, ◌≤◌, ◌<◌, ◌≡◌, ◌≢◌, ◌⊎◌, inl, inr, refl, ◌∙◌, arith, Bool, true, false,
  Option, none, some, List, [], ◌∷◌, max, dec_le,
}
use allocator_builder.Block.{Block}
use allocator_builder.Heap.Client.{Run}
use allocator_builder.Heap.Client.Invariant.{Disjoint, DisjointFrom}
use allocator_builder.SharedHeap.{SharedHeap}
use allocator_builder.SharedHeap.Program.{Mode, outside}
use allocator_builder.SharedHeap.Logic.{View}
use allocator_builder.SharedHeap.Exchange.{not-both}
use allocator_builder.SharedHeap.Rules.{Assigns}
use allocator_builder.SharedHeap.Requests.{run_block}
use allocator_builder.SharedHeap.Client.{keep, pick}

-- A run of the thread's own
pub record Own (h : SharedHeap) (p : ℕ → Bool) (r : Run) : Type 0 where
  pub counted : 0 < r.count
  pub part : r.count % 64 ≢ 0
  pub within : r.start + r.count ≤ h.number_of_chunks
  pub own : (c : ℕ) → r.start ≤ c → c < r.start + r.count → p c ≡ true

-- The blocks are those of the runs.
pub data Holds (h : SharedHeap) (p : ℕ → Bool) : List Block → List Run → Type 0 where
  nothing : Holds h p [] []
  more :
      {held : List Block} {runs : List Run} (r : Run)
      → Own h p r
      → DisjointFrom r runs
      → Holds h p held runs
      → Holds h p (run_block h r.start r.count ∷ held) (r ∷ runs)

-- What a thread of this kind leaves when it returns
abbrev pub Returns : SharedHeap → List Block → Mode → View → Type 0
Returns h held m w = (m ≡ outside) × (runs : List Run) × Holds h w.mine held runs

-- A change apart from a run leaves it to the thread.
kept-Own :
    (h : SharedHeap) (b : Bool) (first n : ℕ) (p q : ℕ → Bool) (r : Run)
    → Assigns b first n p q
    → (r.start + r.count ≤ first) ⊎ (first + n ≤ r.start)
    → Own h p r
    → Own h q r
kept-Own h b first n p q r done apart o = record {
  counted = o.counted;
  part = o.part;
  within = o.within;
  own = λ c lo hi. done.outside c (ground arith) ∙ o.own c lo hi;
}

pub kept-Holds :
    (h : SharedHeap) (b : Bool) (r : Run) (p q : ℕ → Bool) (held : List Block) (runs : List Run)
    → Assigns b r.start r.count p q
    → DisjointFrom r runs
    → Holds h p held runs
    → Holds h q held runs
kept-Holds h b r p q [] [] done d nothing = nothing
kept-Holds h b r p q _ _ done d (more s o apart rest) =
    more s (kept-Own h b r.start r.count p q s done (ground arith) o) apart
      (kept-Holds h b r p q _ _ done d.1 rest)

-- What was taken is apart from what the thread had.
apart-Disjoint :
    (h : SharedHeap) (r s : Run) (p q : ℕ → Bool)
    → 0 < r.count
    → Assigns true r.start r.count p q
    → Own h p s
    → Disjoint r s
apart-Disjoint h r s p q pos done o = elim (dec_le (r.start + r.count) s.start) [
  | yes before ↦ inl before
  | no late ↦ elim (dec_le (s.start + s.count) r.start) [
    | yes behind ↦ inr behind
    | no early ↦
        let c = max r.start s.start in
        let new : p c ≡ false = done.before c (omega arith) (omega arith) in
        let old : p c ≡ true = o.own c (omega arith) (omega (arith, o.counted)) in
        absurd (not-both old new)
  ]
]

pub apart-DisjointFrom :
    (h : SharedHeap) (r : Run) (p q : ℕ → Bool) (held : List Block) (runs : List Run)
    → 0 < r.count
    → Assigns true r.start r.count p q
    → Holds h p held runs
    → DisjointFrom r runs
apart-DisjointFrom h r p q [] [] pos done nothing = tt
apart-DisjointFrom h r p q _ _ pos done (more s o apart rest) =
    (apart-Disjoint h r s p q pos done o, apart-DisjointFrom h r p q _ _ pos done rest)

-- The block that is picked from a list is one of the runs, and the others are left.
abbrev pub Picked : (h : SharedHeap) → (ℕ → Bool) → List Run → Option (Block × List Block) → Type 0
Picked h p runs none = Unit {0}
Picked h p runs (some (b, rest)) =
    (r : Run) × (left : List Run) × (b ≡ run_block h r.start r.count)
    × Own h p r
    × DisjointFrom r left
    × Holds h p rest left
    × ((s : Run) → DisjointFrom s runs → Disjoint s r × DisjointFrom s left)

keep-Picked :
    (h : SharedHeap) (p : ℕ → Bool) (s : Run) (runs : List Run)
    (found : Option (Block × List Block))
    → Own h p s
    → DisjointFrom s runs
    → Picked h p runs found
    → Picked h p (s ∷ runs) (keep (run_block h s.start s.count) found)
keep-Picked h p s runs none o apart picked = tt
keep-Picked h p s runs (some (b, rest)) o apart (r, left, e, o', apart', holds, others) = (
  r,
  s ∷ left,
  e,
  o',
  (ground (arith, (others s apart).0), apart'),
  more s o (others s apart).1 holds,
  λ t d. ((others t d.1).0, (d.0, (others t d.1).1)),
)

pub pick-Picked :
    (h : SharedHeap) (p : ℕ → Bool) (i : ℕ) (held : List Block) (runs : List Run)
    → Holds h p held runs
    → Picked h p runs (pick i held)
pick-Picked h p i _ _ nothing = tt
pick-Picked h p zero _ _ (more r o apart rest) = (r, _, refl, o, apart, rest, λ s d. (d.0, d.1))
pick-Picked h p (suc i) _ _ (more {held} {runs} r o apart rest) =
    keep-Picked h p r runs (pick i held) o apart (pick-Picked h p i held runs rest)
