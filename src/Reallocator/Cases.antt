-- ===== src/Reallocator/Cases.antt =====
-- `reallocateWithCopy` of alb/internal/reallocator.hpp: its two outcomes.
use allocator_builder.Base.{
  ℕ, ◌+◌, ◌<◌, min, ◌≡◌, refl, ◌∙◌, true, false, ◌⊎◌, inl, inr, Bool-cases,
}
use allocator_builder.Block.{Block, Memory, is_set}
use allocator_builder.Block.Copy.{block_copy_inside}
use allocator_builder.Op.{Op}
use allocator_builder.Reallocator.{reallocate_with_copy}

module _ {S : Type 0} (old_deallocate : Block → Op S Block) (new_allocate : ℕ → Op S Block) where
  -- If neither allocator writes to the memory, then a reallocation by copy either succeeds, and the
  -- new block is the one that the new allocator gave and holds the common prefix of the old
  -- contents, or it fails, and the block and the memory are as before.
  pub reallocate_with_copy_keeps_contents :
      (b : Block) (n : ℕ) (s : S) (m : Memory)
      → ((s' : S) (m' : Memory) → (new_allocate n s' m').2 ≡ m')
      → ((s' : S) (m' : Memory) → (old_deallocate b s' m').2 ≡ m')
      → let ((done, b'), s', m') = reallocate_with_copy old_deallocate new_allocate b n s m in
        ((done ≡ true)
          × (is_set b' ≡ true)
          × (b' ≡ (new_allocate n s m).0)
          × ((i : ℕ) → i < min b.length b'.length → m' (b'.ptr + i) ≡ m (b.ptr + i)))
        ⊎ ((done ≡ false) × (b' ≡ b) × (m' ≡ m))
  unfolding reallocate_with_copy
  reallocate_with_copy_keeps_contents b n s m quiet_new quiet_old =
      elim (Bool-cases (is_set (new_allocate n s m).0)) [
        | inl set ↦
            rw (set, reallocate_with_copy)
              (inl (
                refl,
                set,
                refl,
                λ i h.
                    rw quiet_old
                      (block_copy_inside b (new_allocate n s m).0 _ i h ∙ rw (quiet_new s m) refl),
              ))
        | inr unset ↦ rw (unset, reallocate_with_copy) (inr (refl, refl, quiet_new s m))
      ]
