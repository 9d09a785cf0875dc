-- ===== src/Block/Bytes.antt =====
-- Numbers in memory, in the byte order of x86-64: the guards of alb/memory_corruption_detector.hpp, the
-- length that alb/stl_allocator.hpp keeps before a block.
use native.Mathlib.Nat.{pow-suc}
use allocator_builder.Base.{
  ℕ, zero, suc, ◌+◌, ◌*◌, ◌/◌, ◌%◌, ◌^◌, ◌≤◌, ◌<◌, ◌≡◌, refl, ◌∙◌, arith, ◌==◌, eq→==, ne→==,
  if◌then◌else◌,
}
use allocator_builder.Block.{Memory}

-- A number of `size` bytes in memory, the lowest first
unfoldable pub write_bytes : (size : ℕ) → ℕ → ℕ → Memory → Memory
write_bytes zero a v m = m
write_bytes (suc size) a v m =
    write_bytes size (a + 1) (v / 256) (λ x. if x == a then v % 256 else m x)

unfoldable pub read_bytes : (size : ℕ) → ℕ → Memory → ℕ
read_bytes zero a m = 0
read_bytes (suc size) a m = m a + 256 * read_bytes size (a + 1) m

-- Writing keeps the bytes before the number.
write_bytes_before : (size a v : ℕ) (m : Memory) (x : ℕ) → x < a → write_bytes size a v m x ≡ m x
unfolding write_bytes
write_bytes_before zero a v m x h = refl
write_bytes_before (suc size) a v m x h =
    write_bytes_before size (a + 1) (v / 256) _ x (omega arith) ∙ rw (ne→== x a (omega arith)) refl

pub pow_pos : (n : ℕ) → 0 < 256 ^ n
pow_pos zero = omega arith
pow_pos (suc n) = rw pow-suc (omega (arith, pow_pos n))

digits : (v p : ℕ) → 0 < p → v % 256 + 256 * (v / 256 % p) ≡ v % (p * 256)
digits v p h = grind arith

pub read-write_bytes :
    (size a v : ℕ) (m : Memory) → read_bytes size a (write_bytes size a v m) ≡ v % 256 ^ size
unfolding read_bytes write_bytes
read-write_bytes zero a v m = omega arith
read-write_bytes (suc size) a v m =
    let first : write_bytes size (a + 1) (v / 256) (λ x. if x == a then v % 256 else m x) a
        ≡ v % 256 =
      write_bytes_before size (a + 1) (v / 256) _ a (omega arith) ∙ rw (eq→== a a refl) refl in
    rw (first, read-write_bytes size (a + 1) (v / 256) _, pow-suc)
      (digits v (256 ^ size) (pow_pos size))

-- Writes outside of the guard keep it.
pub read_bytes_same :
    (size a : ℕ) (m m' : Memory)
    → ((x : ℕ) → a ≤ x → x < a + size → m' x ≡ m x)
    → read_bytes size a m' ≡ read_bytes size a m
unfolding read_bytes
read_bytes_same zero a m m' same = refl
read_bytes_same (suc size) a m m' same =
    rw
      (
        same a (omega arith) (omega arith),
        read_bytes_same size (a + 1) m m' (λ x p q. same x (omega arith) (omega arith)),
      )
      refl
