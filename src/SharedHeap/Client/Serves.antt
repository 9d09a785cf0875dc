-- ===== src/SharedHeap/Client/Serves.antt =====
-- Whatever a thread of this kind does, it keeps to the logic.
use allocator_builder.Base.{
  ℕ, ◌*◌, ◌%◌, ◌<◌, ◌≡◌, ◌≢◌, refl, sym, subst, arith, Bool, true, false, Option, none, some, List,
  [], ◌∷◌, length, ne→==, if◌then◌else◌,
}
use allocator_builder.Block.{Block, is_set}
use allocator_builder.Control.Register.{all_set}
use allocator_builder.Heap.Client.{Run}
use allocator_builder.Heap.Granted.{product_pos}
use allocator_builder.SharedHeap.{SharedHeap, allocate, deallocate}
use allocator_builder.SharedHeap.Program.{outside, Shared, ◌>>◌}
use allocator_builder.SharedHeap.Logic.{View, Ok, Ok-bind}
use allocator_builder.SharedHeap.Sound.{Inv}
use allocator_builder.SharedHeap.Exchange.{not-both}
use allocator_builder.SharedHeap.Requests.{
  IsValid, chunks_for, run_block, Granted, refused, granted, allocate-Ok, deallocate-Ok,
}
use allocator_builder.SharedHeap.Client.{Call, request, give_back, pick, client, Partial, clients}
use allocator_builder.SharedHeap.Client.Holdings.{
  Holds, nothing, more, Returns, kept-Holds, apart-DisjointFrom, Picked, pick-Picked,
}

module _ (attempts : ℕ) {h : SharedHeap} (v : IsValid h) where
  Granted-Ok :
      (calls : List Call) (k : ℕ) (held : List Block) (runs : List Run) (p : ℕ → Bool) (b : Block)
      (w : View)
      → 0 < k
      → k % 64 ≢ 0
      → ((held' : List Block) (runs' : List Run)
          → Holds h w.mine held' runs'
          → Ok h.control_size (client attempts h calls held') outside w (Returns h))
      → Holds h p held runs
      → Granted h k p w.mine b
      → Ok h.control_size
          (client attempts h calls (if is_set b then b ∷ held else held))
          outside
          w
          (Returns h)
  Granted-Ok calls k held runs p b w pos part later holds (refused same) =
      later held runs (subst (λ q. Holds h q held runs) (sym same) holds)
  Granted-Ok calls k held runs p b w pos part later holds (granted start within done) =
      let big : k * h.chunk_size ≢ 0 =
        λ e. omega (arith, product_pos k h.chunk_size pos v.chunky) in
      let r : Run = record { start = start; count = k } in
      let apart = apart-DisjointFrom h r p w.mine held runs pos done holds in
      rw (ne→== (k * h.chunk_size) 0 big) (
        later (run_block h start k ∷ held) (r ∷ runs) (
          more r (record { counted = pos; part = part; within = within; own = done.inside }) apart
            (kept-Holds h true r p w.mine held runs done apart holds)))

  Picked-Ok :
      (calls : List Call) (held : List Block) (runs : List Run) (w : View)
      → ((held' : List Block) (runs' : List Run) (w' : View)
          → Holds h w'.mine held' runs'
          → Ok h.control_size (client attempts h calls held') outside w' (Returns h))
      → Holds h w.mine held runs
      → (found : Option (Block × List Block)) → Picked h w.mine runs found
      → Ok h.control_size
          (elim found [
            | none ↦ client attempts h calls held
            | some (b, rest) ↦ deallocate attempts h b >> client attempts h calls rest
          ])
          outside
          w
          (Returns h)
  Picked-Ok calls held runs w later holds none picked = later held runs w holds
  Picked-Ok calls held runs w later holds (some (b, rest)) (r, left, e, o, apart, remaining, _) =
      rw e (
        Ok-bind h.control_size (deallocate attempts h (run_block h r.start r.count)) _ outside w _
          (Returns h) (deallocate-Ok attempts v r.start r.count w o.counted o.part o.within o.own)
          (λ b' m w' (em, done). rw em (
            later rest left w'
              (kept-Holds h false r w.mine w'.mine rest left done apart remaining))))

  client-Ok :
      (calls : List Call) (held : List Block) (runs : List Run) (w : View)
      → Partial h calls
      → Holds h w.mine held runs
      → Ok h.control_size (client attempts h calls held) outside w (Returns h)
  client-Ok [] held runs w part holds = (refl, runs, holds)
  client-Ok (request n ∷ calls) held runs w part holds =
      Ok-bind h.control_size (allocate attempts h n) _ outside w _ (Returns h)
        (allocate-Ok attempts v n w part.0)
        (λ b m w' (em, g). rw em (
          Granted-Ok calls (chunks_for h n) held runs w.mine b w' (omega arith) part.0
            (λ held' runs' holds'. client-Ok calls held' runs' w' part.1 holds') holds g))
  client-Ok (give_back i ∷ calls) held runs w part holds =
      Picked-Ok calls held runs w
        (λ held' runs' w' holds'. client-Ok calls held' runs' w' part holds') holds (pick i held)
        (pick-Picked h w.mine i held runs holds)

  pub clients-Inv :
      (calls : ℕ → List Call) (s : Shared)
      → length s.control ≡ h.control_size
      → s.all_set_member ≡ all_set
      → ((i : ℕ) → Partial h (calls i))
      → Inv h.control_size
          (Returns h)
          (clients attempts h calls s)
          (λ i. record { mine = λ c. false; seen = λ c. false })
  clients-Inv calls s sized member part = record {
    sized = sized;
    member = member;
    used = λ i c e. absurd (not-both e refl);
    apart = λ i j c e e'. absurd (not-both e refl);
    seen_free = λ i c e. absurd (not-both e refl);
    seen_alone = λ i c e. absurd (not-both e refl);
    alone = λ i j n e. refl;
    ok = λ i. client-Ok (calls i) [] [] _ (part i) nothing;
  }
