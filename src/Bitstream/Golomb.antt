-- ===== src/Bitstream/Golomb.antt =====
-- The Exp-Golomb codes that `bs_write_ue` and `bs_write_se` write, and the final alignment.
use rockchip_vaapi.Base.{
  ℕ, zero, suc, ◌+◌, ◌*◌, ◌/◌, ◌%◌, ◌^◌, ◌≤◌, ◌<◌, ◌≡◌, ◌∙◌, List, ◌++◌, arith, length,
  length-append, append_assoc, ltb, inl, inr, Bool-cases,
}
use native.Mathlib.Nat.{pow-suc, pow-le-pow_right}
use native.Mathlib.Decide.{dec_le}
use rockchip_vaapi.Base.Int.{ℤ, pos, negsuc, pos_part, neg_part}
use rockchip_vaapi.Bitstream.{BsWriter, bs_write, bs_write_ue, log2_loop, unsigned_of}
use rockchip_vaapi.Bitstream.Content.{
  Holds, bits_of, length-bits_of, bs_write-Holds, bs_write-capacity,
}

abbrev pub IsLog2 : ℕ → ℕ → Type 0
IsLog2 n k = (2 ^ k ≤ n) × (n < 2 ^ suc k)

log2_loop-IsLog2 :
    (fuel tmp bits : ℕ)
    → 1 ≤ tmp
    → tmp < 2 ^ fuel
    → (k : ℕ) × (log2_loop fuel tmp bits ≡ bits + k) × IsLog2 tmp k × (k < fuel)
unfolding log2_loop
log2_loop-IsLog2 zero tmp bits lo hi = absurd (omega arith)
log2_loop-IsLog2 (suc fuel) tmp bits lo hi = elim (Bool-cases (ltb 1 tmp)) [
  | inl more ↦
      let (k, e, l, lt) =
        log2_loop-IsLog2 fuel (tmp / 2) (bits + 1) (ground arith) (omega (arith, pow-suc 2 fuel)) in
      (
        suc k,
        rw more (omega (arith, e)),
        (omega (arith, l, pow-suc 2 k), omega (arith, l, pow-suc 2 (suc k))),
        omega arith,
      )
  | inr done ↦ (0, rw done (omega arith), (omega arith, ground arith), omega arith)
]

-- The number of zeros in front of the code of `val`.
unfoldable pub ue_zeros : ℕ → ℕ
ue_zeros val = log2_loop 32 (val + 1) 0

pub ue_zeros-IsLog2 :
    (val : ℕ) → val + 1 < 2 ^ 32 → IsLog2 (val + 1) (ue_zeros val) × (ue_zeros val < 32)
unfolding ue_zeros
ue_zeros-IsLog2 val fits =
    let (k, e, l, lt) = log2_loop-IsLog2 32 (val + 1) 0 (omega arith) fits in
    let is : log2_loop 32 (val + 1) 0 ≡ k = omega (arith, e) in rw is (l, lt)

-- The code: as many zeros as `val + 1` has bits below its highest, then `val + 1`.
abbrev pub ue_bits : ℕ → List ℕ
ue_bits val = bits_of 0 (ue_zeros val) ++ bits_of (val + 1) (suc (ue_zeros val))

pub length-ue_bits : (val : ℕ) → length (ue_bits val) ≡ 2 * ue_zeros val + 1
length-ue_bits val = omega (
  arith,
  length-append (bits_of 0 (ue_zeros val)) (bits_of (val + 1) (suc (ue_zeros val))),
  length-bits_of 0 (ue_zeros val),
  length-bits_of (val + 1) (suc (ue_zeros val)),
)

-- Writing an unsigned code that fits appends its bits.
pub bs_write_ue-Holds :
    (bs : BsWriter) (bits : List ℕ) (val : ℕ)
    → Holds bs bits
    → val + 1 < 2 ^ 32
    → length bits + length (ue_bits val) ≤ 8 * bs.capacity
    → Holds (bs_write_ue bs val) (bits ++ ue_bits val)
unfolding bs_write_ue ue_zeros
bs_write_ue-Holds bs bits val h fits room =
    let k = log2_loop 32 (val + 1) 0 in
    let next : (val + 1) % 2 ^ 32 ≡ val + 1 = omega arith in
    let zeros = bs_write-Holds bs bits 0 k h (omega (arith, length-ue_bits val)) in
    let code : Holds (bs_write (bs_write bs 0 k) (val + 1) (suc k))
        ((bits ++ bits_of 0 k) ++ bits_of (val + 1) (suc k)) =
      bs_write-Holds (bs_write bs 0 k) (bits ++ bits_of 0 k) (val + 1) (suc k) zeros (
        omega (
          arith,
          length-append bits (bits_of 0 k),
          length-bits_of 0 k,
          bs_write-capacity bs 0 k,
          length-ue_bits val,
        )) in
    let count : k + 1 ≡ suc k = omega arith in rw (next, count) (rw append_assoc at code)

pub bs_write_ue-capacity : (bs : BsWriter) (val : ℕ) → (bs_write_ue bs val).capacity ≡ bs.capacity
unfolding bs_write_ue
bs_write_ue-capacity bs val =
    bs_write-capacity (bs_write bs 0 _) ((val + 1) % 2 ^ 32) _ ∙ bs_write-capacity bs 0 _

-- A signed value is coded below twice its magnitude, or as that.
pub unsigned_of-le : (z : ℤ) → unsigned_of z ≤ 2 * (pos_part z + neg_part z)
unfolding unsigned_of
unsigned_of-le (pos zero) = omega arith
unsigned_of-le (pos (suc n)) = omega arith
unsigned_of-le (negsuc n) = omega arith

-- A value below 2 ^ (k + 1) - 1 has a code of at most 2 * k + 1 bits.
pub length-ue_bits-le :
    (k val : ℕ) → val + 1 < 2 ^ suc k → val + 1 < 2 ^ 32 → length (ue_bits val) ≤ 2 * k + 1
length-ue_bits-le k val lt fits =
    let ((lo, hi), top) = ue_zeros-IsLog2 val fits in
    elim (dec_le (ue_zeros val) k) [
      | yes le ↦ omega (arith, length-ue_bits val)
      | no over ↦
          let above : suc k ≤ ue_zeros val = omega arith in
          absurd (omega (arith, pow-le-pow_right {n = 2} two_pos above))
    ]
  where
    two_pos : 0 < 2
    two_pos = omega arith
