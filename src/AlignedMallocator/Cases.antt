-- ===== src/AlignedMallocator/Cases.antt =====
-- A change of size in alb/aligned_mallocator.hpp, whether the system gives memory or refuses.
use allocator_builder.Base.{
  ℕ, ◌≡◌, ◌≢◌, refl, true, false, ◌==◌, if◌then◌else◌, inl, inr, ne→==, Bool-cases,
}
use allocator_builder.Block.{Block, is_set, Memory}
use allocator_builder.Op.{Op}
use allocator_builder.Reallocator.{is_handled_default}
use allocator_builder.AlignedMallocator.{reallocate, aligned_reallocate}

module _ {S : Type 0} (malloc : ℕ → ℕ → Op S ℕ) (realloc : ℕ → ℕ → ℕ → Op S ℕ)
    (free : ℕ → Op S (Unit {0})) (alignment : ℕ) where
  -- A set block that is to have another size, not 0, is left to the system: if that gives memory, it
  -- is the new block, else the block stays as it is, and either way the result says so.
  pub reallocate_resized :
      (b : Block) (n : ℕ) (s : S) (m : Memory)
      → is_set b ≡ true
      → n ≢ 0
      → b.length ≢ n
      → let (p, s', m') = realloc b.ptr n alignment s m in
        reallocate malloc realloc free alignment b n s m
        ≡ (if p == 0 then (false, b) else (true, record { ptr = p; length = n }), s', m')
  unfolding reallocate is_handled_default aligned_reallocate
  reallocate_resized b n s m set some_bytes other =
      elim (Bool-cases ((realloc b.ptr n alignment s m).0 == 0)) [
        | inl refused ↦ rw (ne→== b.length n other, ne→== n 0 some_bytes, set, refused) refl
        | inr given ↦ rw (ne→== b.length n other, ne→== n 0 some_bytes, set, given) refl
      ]
