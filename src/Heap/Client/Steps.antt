-- ===== src/Heap/Client/Steps.antt =====
-- Every call of a client of the heap keeps the invariant.
use allocator_builder.Base.{◌/◌, arith, inl, inr, List, ◌∙◌, sym, ap}
use allocator_builder.Block.{round_to_alignment}
use allocator_builder.Heap.{Heap, expand, reallocate}
use allocator_builder.Heap.Layout.{IsValid}
use allocator_builder.Heap.Granted.{Granted-set, product_pos}
use allocator_builder.Heap.Allocate.{allocate_lem, chunks_for}
use allocator_builder.Heap.Expand.{expand_lem}
use allocator_builder.Heap.Shrink.{reallocate_shrinks, left_bounds}
use allocator_builder.Heap.Client.{
  Run, block_of, Step, refused, granted, released, expanded, shrunk, Reach, begin, next,
}
use allocator_builder.Heap.Client.Invariant.{Inv, Removes-Inv, Granted-Inv, released-Inv}
use allocator_builder.Heap.Client.InPlace.{Expanded-Inv, Shrunk-Inv}

-- Every call of the client keeps the invariant.
pub Step-Inv :
    {h h' : Heap} {held held' : List Run} → Step h held h' held' → Inv h held → Inv h' held'
Step-Inv {h} {h'} {held} {held'} (refused n fits e) inv = elim (allocate_lem n inv.valid fits) [
  | inl (_, same) ↦ rw same inv
  | inr (k, pos, _, _, g) ↦ absurd (ground (arith, Granted-set inv.valid pos g, e))
]
Step-Inv {h} {h'} {held} {held'} (granted n r fits pos e) inv =
    elim (allocate_lem n inv.valid fits) [
      | inl (none_left, _) ↦ absurd (
          omega (
            arith,
            ap (λ b. b.length) (sym e ∙ none_left),
            product_pos r.count h.chunk_size pos inv.valid.chunky,
          ))
      | inr (k, some_chunks, _, _, g) ↦ Granted-Inv h h' held r k some_chunks g e inv
    ]
Step-Inv {h} {h'} {held} {held'} (released r m tidy) inv = released-Inv h held held' r m tidy inv
Step-Inv {h} {h'} {held} {held'} (expanded r delta m inside some_bytes fits few) inv =
    let left = Removes-Inv h m inv.all inv.pairwise in
    let lem =
      expand_lem inv.valid r.start r.count left.0.counted left.0.within delta inside some_bytes fits
        few in
    let (some_chunks, _, _) = chunks_for delta h.chunk_size some_bytes inv.valid.chunky fits in
    Expanded-Inv r m inv (round_to_alignment h.chunk_size delta / h.chunk_size)
      (expand (block_of h r) delta h) some_chunks lem.2
Step-Inv {h} {h'} {held} {held'} (shrunk r n w m some_bytes fewer first_part) inv =
    let left = Removes-Inv h m inv.all inv.pairwise in
    let (some_chunks, less) =
      left_bounds inv.valid r.start r.count left.0.within n w some_bytes fewer in
    Shrunk-Inv r m inv (round_to_alignment h.chunk_size n / h.chunk_size) w
      (reallocate (block_of h r) n h w) some_chunks less
      (reallocate_shrinks inv.valid r.start r.count left.0.within n w some_bytes fewer first_part)

pub Reach-Inv : {h h' : Heap} {held : List Run} → IsValid h → Reach h h' held → Inv h' held
Reach-Inv v begin = record { valid = v; all = tt; pairwise = tt }
Reach-Inv v (next r st) = Step-Inv st (Reach-Inv v r)
