-- ===== src/Heap/Granted.antt =====
-- A block that the heap hands out, and the chunks behind it.
use native.Mathlib.Nat.{mul-div_left}
use allocator_builder.Base.{
  ◌/◌, ◌∙◌, sym, ap, ℕ, ◌+◌, ◌-◌, ◌*◌, ◌≤◌, ◌<◌, ◌≡◌, refl, arith, true, List, ◌⊎◌, inl, inr, none,
  some,
}
use allocator_builder.Block.{Block, empty_block, is_set}
use allocator_builder.Control.Search.{Found}
use allocator_builder.Control.Chunks.{free_in_range}
use allocator_builder.Control.Found.{Takes, Finds}
use allocator_builder.Heap.{Heap, of_found, to_block}
use allocator_builder.Heap.Layout.{IsValid, block_at, to_block-eq}

pub product_pos : (a b : ℕ) → 0 < a → 0 < b → 0 < a * b
product_pos a b p q = grind arith

-- The block `b` of `n` chunks was handed out: its chunks were free, and exactly they became used.
pub record Granted (n : ℕ) (h : Heap) (b : Block) (h' : Heap) : Type 0 where
  pub start : ℕ
  pub within : start + n ≤ h.number_of_chunks
  pub placed : b ≡ block_at h start n
  pub takes : Takes n start h.control h'.control
  pub others : h' ≡ record h { control = h'.control }

same_factor : (a b c : ℕ) → 0 < c → a * c ≡ b * c → a ≡ b
same_factor a b c pos e = sym (mul-div_left a pos) ∙ ap (λ t. t / c) e ∙ mul-div_left b pos

-- The chunks of a block are known from its bytes.
pub same_run :
    (h : Heap) (start k start' k' : ℕ)
    → 0 < h.chunk_size
    → block_at h start k ≡ block_at h start' k'
    → (start ≡ start') × (k ≡ k')
same_run h start k start' k' chunky e = (
  same_factor start start' h.chunk_size chunky (omega (arith, ap (λ b. b.ptr) e)),
  same_factor k k' h.chunk_size chunky (ap (λ b. b.length) e),
)

-- Nothing, and nothing changed, or a granted block
abbrev pub Outcome : ℕ → Heap → Block × Heap → Type 0
Outcome n h r = ((r.0 ≡ empty_block) × (r.1 ≡ h)) ⊎ Granted n h r.0 r.1

pub Takes-within :
    {n start : ℕ} {h : Heap} {control' : List ℕ}
    → IsValid h
    → 0 < n
    → Takes n start h.control control'
    → start + n ≤ h.number_of_chunks
Takes-within {n} {start} {h} v pos t = omega (
  arith,
  free_in_range h.control (start + n - 1) (t.were_free (start + n - 1) (omega arith) (omega arith)),
  v.counted,
)

pub found-Granted :
    {h : Heap} (n start : ℕ) (control' : List ℕ)
    → IsValid h
    → 0 < n
    → Finds n 0 h.control (some (start, control'))
    → Granted n h (to_block h n start) (record h { control = control' })
found-Granted {h} n start control' v pos (le, t) = record {
  start = start;
  within = in_heap;
  placed = to_block-eq v start n in_heap;
  takes = takes;
  others = refl;
}
  where
    takes : Takes n start h.control control'
    takes = let e : start - 0 * 64 ≡ start = omega arith in rw e at t

    in_heap : start + n ≤ h.number_of_chunks
    in_heap = Takes-within {h = h} v pos takes

pub of_found-Outcome :
    {h : Heap} (n : ℕ) (found : Found)
    → IsValid h
    → 0 < n
    → Finds n 0 h.control found
    → Outcome n h (of_found h n found)
unfolding of_found
of_found-Outcome n none v pos f = inl (refl, refl)
of_found-Outcome {h} n (some (start, control')) v pos f =
    inr (found-Granted {h = h} n start control' v pos f)

pub Granted-set :
    {n : ℕ} {h h' : Heap} {b : Block} → IsValid h → 0 < n → Granted n h b h' → is_set b ≡ true
Granted-set {n} {h} v pos g = ground (arith, g.placed, product_pos n h.chunk_size pos v.chunky)
