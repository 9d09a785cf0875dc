-- ===== src/Control/Overlap.antt =====
-- The byte-wise search of `allocateWithRegisterOverlap`.
use allocator_builder.Base.{
  ℕ, zero, suc, ◌+◌, ◌-◌, ◌*◌, ◌/◌, ◌%◌, ◌≤◌, ◌<◌, ◌≡◌, refl, arith, ◌∙◌, inl, inr, List, [], ◌∷◌,
  ◌++◌, Option, none, some, length, get_or, dec_lt, dec_le, ap, sym, ℕ_discrete, eq→==, ne→==,
  le→leb, get_or-append_left, get_or-append_right, Option-cases, gt→leb,
}
use allocator_builder.Bits.{bit, bit-mod_pow, bit-ones_low, bit-div_pow}
use allocator_builder.Control.Search.{bytes_of, bytes, scan_bytes, start_or, search_overlap}
use allocator_builder.Control.Chunks.{free, free_head, free_tail}

pub low_byte : (register i : ℕ) → register % 256 ≡ 255 → i < 8 → bit register i ≡ 1
low_byte register i e h =
    sym (bit-mod_pow register 8 i h) ∙ ap (λ w. bit w i) e ∙ bit-ones_low 8 i h

pub length-bytes_of : (n register : ℕ) → length (bytes_of n register) ≡ n
unfolding bytes_of
length-bytes_of zero register = refl
length-bytes_of (suc n) register = ap suc (length-bytes_of n (register / 256))

-- A byte of eight ones stands for eight set bits.
byte_bits :
    (n register q i : ℕ)
    → q < n
    → get_or (bytes_of n register) q 0 ≡ 255
    → q * 8 ≤ i
    → i < q * 8 + 8
    → bit register i ≡ 1
unfolding bytes_of
byte_bits zero register q i h e lo hi = absurd (omega arith)
byte_bits (suc n) register zero i h e lo hi = low_byte register i e (omega arith)
byte_bits (suc n) register (suc q) i h e lo hi =
    ap (bit register) (let up : i ≡ 8 + (i - 8) = omega arith in up)
    ∙ sym (bit-div_pow register 8 (i - 8))
    ∙ byte_bits n (register / 256) q (i - 8) (omega arith) e (omega arith) (omega arith)

-- Eight free chunks for each byte of ones
pub byte_chunks :
    (control : List ℕ) (q c : ℕ)
    → get_or (bytes control) q 0 ≡ 255
    → q * 8 ≤ c
    → c < q * 8 + 8
    → free control c ≡ 1
unfolding bytes
byte_chunks [] q c e lo hi = absurd (omega arith)
byte_chunks (register ∷ control) q c e lo hi = elim (dec_lt q 8) [
  | yes first ↦
      free_head register control c (omega arith)
      ∙ byte_bits 8 register q c first
          (sym (
              get_or-append_left (bytes_of 8 register) (bytes control) q 0
                (omega (arith, length-bytes_of 8 register)))
            ∙ e)
          lo hi
  | no later ↦
      free_tail register control c (omega arith)
      ∙ byte_chunks control (q - 8) (c - 64)
          (sym (get_or-append_right (bytes_of 8 register) (bytes control) (q - 8) 0)
            ∙ ap (λ k. get_or (bytes_of 8 register ++ bytes control) k 0)
                (omega (arith, length-bytes_of 8 register))
            ∙ e)
          (omega arith) (omega arith)
]

-- The room that the scan gives consists of bytes of ones.
scan_bytes_run :
    (n p count : ℕ) (start : Option ℕ) (rest all : List ℕ)
    → ((k : ℕ) → get_or rest k 0 ≡ get_or all (p + k) 0)
    → start_or p start * 8 + count ≡ p * 8
    → ((q : ℕ) → start_or p start ≤ q → q < p → get_or all q 0 ≡ 255)
    → (s : ℕ) → scan_bytes n p count start rest ≡ some s
    → (q : ℕ) → s ≤ q
    → q * 8 < s * 8 + n
    → get_or all q 0 ≡ 255
unfolding scan_bytes start_or
scan_bytes_run n p count start [] all suffix counted run s e = cc
scan_bytes_run n p count start (byte ∷ rest) all suffix counted run s e =
    elim (ℕ_discrete byte 255) [
      | yes ones ↦ elim (dec_le n (count + 8)) [
        | yes enough ↦
            let e' : some (start_or p start) ≡ some s =
              rw (eq→== _ _ ones, le→leb _ _ enough) at e in
            let here : start_or p start ≡ s = cc e' in
            λ q lo hi. so_far ones q (omega arith) (omega arith)
        | no more ↦
            scan_bytes_run n (p + 1) (count + 8) (some (start_or p start)) rest all shifted
              (omega arith) (λ q lo hi. so_far ones q lo hi) s
              (rw (eq→== _ _ ones, gt→leb n (count + 8) (omega arith)) at e)
      ]
      | no used ↦
          scan_bytes_run n (p + 1) 0 none rest all shifted (omega arith)
            (λ q lo hi. absurd (omega arith)) s (rw (ne→== _ _ used) at e)
    ]
  where
    shifted : (k : ℕ) → get_or rest k 0 ≡ get_or all (p + 1 + k) 0
    shifted k = suffix (suc k) ∙ ap (λ j. get_or all j 0) (omega arith)

    so_far : byte ≡ 255 → (q : ℕ) → start_or p start ≤ q → q < p + 1 → get_or all q 0 ≡ 255
    so_far ones q lo hi = elim (dec_lt q p) [
      | yes before ↦ run q lo before
      | no at_end ↦
          ap (λ j. get_or all j 0) (let last : q ≡ p + 0 = omega arith in last)
          ∙ sym (suffix 0)
          ∙ ones
    ]

-- The chunks of the room that the search gives are free, and it starts at a byte.
pub search_overlap-free :
    (n : ℕ) (control : List ℕ) (start : ℕ)
    → search_overlap n control ≡ some start
    → (start % 8 ≡ 0) × ((c : ℕ) → start ≤ c → c < start + n → free control c ≡ 1)
unfolding search_overlap start_or
search_overlap-free n control start e =
    elim (Option-cases (scan_bytes n 0 0 none (bytes control))) [
      | inl nothing ↦ absurd (ground arith)
      | inr (s, found) ↦
          let here : s * 8 ≡ start = ground arith in
          (
            omega arith,
            λ c lo hi.
                byte_chunks control (c / 8) c
                  (scan_bytes_run n 0 0 none (bytes control) (bytes control)
                    (λ k. ap (λ j. get_or (bytes control) j 0) (omega arith)) refl
                    (λ q p h. absurd (omega arith)) s found (c / 8) (omega arith) (omega arith))
                  (omega arith) (omega arith),
          )
    ]
