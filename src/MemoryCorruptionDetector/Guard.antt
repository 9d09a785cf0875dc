-- ===== src/MemoryCorruptionDetector/Guard.antt =====
-- When a guard holds its pattern.
use allocator_builder.Base.{
  ℕ, ◌+◌, ◌%◌, ◌^◌, ◌≤◌, ◌<◌, ◌≡◌, ◌↔◌, sym, ◌∙◌, arith, true, ==_iff, eq→==,
}
use allocator_builder.Block.{Memory}
use allocator_builder.Block.Bytes.{read_bytes, pow_pos, read-write_bytes, read_bytes_same}
use allocator_builder.MemoryCorruptionDetector.{construct, holds}

mod_fits : (v p : ℕ) → 0 < p → v % p ≡ v → v < p
mod_fits v p h e = grind arith

fits_mod : (v p : ℕ) → v < p → v % p ≡ v
fits_mod v p h = grind arith

-- As long as nobody writes into it, a guard holds its pattern exactly if the pattern fits into its
-- type: a wider one is cut by the constructor, but compared in full.
pub holds-construct :
    (size pattern a : ℕ) (m m' : Memory)
    → ((x : ℕ) → a ≤ x → x < a + size → m' x ≡ construct size pattern a m x)
    → (holds size pattern a m' ≡ true) ↔ (pattern < 256 ^ size)
unfolding holds construct
holds-construct size pattern a m m' same =
    let value : read_bytes size a m' ≡ pattern % 256 ^ size =
      read_bytes_same size a (construct size pattern a m) m' same
      ∙ read-write_bytes size a pattern m in
    (
      λ e.
          mod_fits pattern (256 ^ size) (pow_pos size)
            (sym value ∙ (==_iff (read_bytes size a m') pattern).0 e),
      λ fits. eq→== (read_bytes size a m') pattern (value ∙ fits_mod pattern (256 ^ size) fits),
    )
