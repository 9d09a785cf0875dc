-- ===== src/Allocator/Blocks.antt =====
-- Lists of blocks that a client holds: membership, disjointness, and splits between two allocators.
use allocator_builder.Base.{◌+◌, ◌≤◌, arith, ◌⊎◌, inl, inr, List, [], ◌∷◌}
use allocator_builder.Block.{Block}

-- Two blocks that share no byte
abbrev pub Apart : Block → Block → Type 0
Apart b c = (b.ptr + b.length ≤ c.ptr) ⊎ (c.ptr + c.length ≤ b.ptr)

abbrev pub All : (Block → Type 0) → List Block → Type 0
All P [] = Unit {0}
All P (b ∷ held) = P b × All P held

abbrev pub Pairwise : List Block → Type 0
Pairwise [] = Unit {0}
Pairwise (b ∷ held) = All (Apart b) held × Pairwise held

-- The third argument is the second without the block.
pub data Removes (b : Block) : List Block → List Block → Type 0 where
  here : {l : List Block} → Removes b (b ∷ l) l
  there : {c : Block} {l l' : List Block} → Removes b l l' → Removes b (c ∷ l) (c ∷ l')

-- Each block of the third list is in one of the two others.
pub data Merges : List Block → List Block → List Block → Type 0 where
  neither : Merges [] [] []
  left : {b : Block} {k l m : List Block} → Merges k l m → Merges (b ∷ k) l (b ∷ m)
  right : {b : Block} {k l m : List Block} → Merges k l m → Merges k (b ∷ l) (b ∷ m)

pub All-implies :
    {P Q : Block → Type 0} (held : List Block) → ((b : Block) → P b → Q b) → All P held → All Q held
All-implies [] f a = tt
All-implies (b ∷ held) f a = (f b a.0, All-implies held f a.1)

pub All-Removes :
    (P : Block → Type 0) {b : Block} {l l' : List Block} → Removes b l l' → All P l → P b × All P l'
All-Removes P here a = (a.0, a.1)
All-Removes P (there r) a = let rest = All-Removes P r a.1 in (rest.0, (a.0, rest.1))

pub All-Merges :
    (P : Block → Type 0) {k l m : List Block} → Merges k l m → All P k → All P l → All P m
All-Merges P neither a b = tt
All-Merges P (left s) a b = (a.0, All-Merges P s a.1 b)
All-Merges P (right s) a b = (b.0, All-Merges P s a b.1)

pub Apart-sym : (b c : Block) → Apart b c → Apart c b
Apart-sym b c a = ground arith

-- What is left is pairwise disjoint, and disjoint from the block that was removed.
pub Pairwise-Removes :
    {b : Block} {l l' : List Block} → Removes b l l' → Pairwise l → All (Apart b) l' × Pairwise l'
Pairwise-Removes here p = (p.0, p.1)
Pairwise-Removes {b} (there {c} r) p =
    let rest = Pairwise-Removes r p.1 in
    let a = All-Removes (Apart c) r p.0 in ((Apart-sym c b a.0, rest.0), (a.1, rest.1))

-- Two pairwise disjoint lists merge into one, if any blocks of the two are apart.
pub Pairwise-Merges :
    {P Q : Block → Type 0} {k l m : List Block}
    → ((b c : Block) → P b → Q c → Apart b c)
    → Merges k l m
    → All P k
    → All Q l
    → Pairwise k
    → Pairwise l
    → Pairwise m
Pairwise-Merges apart neither a b p q = tt
Pairwise-Merges apart (left {b} {k} {l} s) a c p q = (
  All-Merges (Apart b) s p.0 (All-implies l (λ x h. apart b x a.0 h) c),
  Pairwise-Merges apart s a.1 c p.1 q,
)
Pairwise-Merges apart (right {b} {k} {l} s) a c p q = (
  All-Merges (Apart b) s (All-implies k (λ x h. Apart-sym x b (apart x b h c.0)) a) q.0,
  Pairwise-Merges apart s a c.1 p q.1,
)

-- A block of the merged list is removed from one of the two.
pub record RemovesLeft (b : Block) (k l m' : List Block) : Type 0 where
  pub rest : List Block
  pub removes : Removes b k rest
  pub merges : Merges rest l m'

pub record RemovesRight (b : Block) (k l m' : List Block) : Type 0 where
  pub rest : List Block
  pub removes : Removes b l rest
  pub merges : Merges k rest m'

pub Removes-Merges :
    {b : Block} {k l m m' : List Block}
    → Merges k l m
    → Removes b m m'
    → RemovesLeft b k l m' ⊎ RemovesRight b k l m'
Removes-Merges neither r = elim r [ ]
Removes-Merges (left {k = k} s) here = inl (record { rest = k; removes = here; merges = s })
Removes-Merges (right {l = l} s) here = inr (record { rest = l; removes = here; merges = s })
Removes-Merges (left {b = c} s) (there r) = elim (Removes-Merges s r) [
  | inl x ↦ inl (record { rest = c ∷ x.rest; removes = there x.removes; merges = left x.merges })
  | inr x ↦ inr (record { rest = x.rest; removes = x.removes; merges = left x.merges })
]
Removes-Merges (right {b = c} s) (there r) = elim (Removes-Merges s r) [
  | inl x ↦ inl (record { rest = x.rest; removes = x.removes; merges = right x.merges })
  | inr x ↦ inr (record { rest = c ∷ x.rest; removes = there x.removes; merges = right x.merges })
]
