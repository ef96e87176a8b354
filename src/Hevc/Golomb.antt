-- ===== src/Hevc/Golomb.antt =====
-- The reader of src/hevc.c on the bits that the writer of src/bs.h writes.
use rockchip_vaapi.Base.{
  ℕ, zero, suc, ◌+◌, ◌-◌, ◌*◌, ◌/◌, ◌%◌, ◌^◌, ◌<◌, ◌≤◌, ◌≡◌, ◌≢◌, ap, ◌∙◌, some, none, List, [],
  ◌∷◌, ◌++◌, arith, length, append-nil, ltb, ◌==◌, if◌then◌else◌,
}
use native.Mathlib.Nat.{
  pow-suc, zero-div, one-le-pow, mul-le-mul_left, mod-eq-sub-mod, mod-eq_of_lt, div-eq_of_lt-le,
  pow-le-pow_right,
}
use native.Mathlib.Decide.{ℕ_discrete}
use rockchip_vaapi.Base.Bits.{bit_or_above}
use rockchip_vaapi.Bitstream.{BsWriter, bs_write_ue, bs_bytes}
use rockchip_vaapi.Bitstream.Content.{Holds, bit_at, bits_of, length-bits_of}
use rockchip_vaapi.Bitstream.Golomb.{
  IsLog2, ue_zeros, ue_zeros-IsLog2, ue_bits, length-ue_bits, bs_write_ue-Holds,
}
use rockchip_vaapi.Bitstream.Stands.{Stands, Stands-append, Holds-Stands, bs_bytes-le}
use rockchip_vaapi.Hevc.Reader.{
  BitReader, br_read_bit, shift_in, read_loop, br_read_bits, zeros_loop, ue_value, br_read_ue,
  mod_pow_suc,
}

-- The reader, further on.
abbrev pub ahead : BitReader → ℕ → BitReader
ahead br n = record br { bit = br.bit + n }

abbrev pub Ahead : BitReader → List ℕ → Type 0
Ahead br bits = Stands br.bytes br.size br.bit bits

shift_in_sum : (out bit : ℕ) → out < 2 ^ 31 → bit < 2 → shift_in out bit ≡ out * 2 + bit
shift_in_sum out bit ho hb =
    let e : out * 2 % 2 ^ 32 ≡ out * 2 ^ 1 = omega arith in rw e (bit_or_above 1 out bit hb)

ahead_sum : (br : BitReader) (m n k : ℕ) → m + n ≡ k → ahead (ahead br m) n ≡ ahead br k
ahead_sum br m n k e = ap (λ (t : ℕ). record br { bit = t }) (omega (arith, e))

pub read_bit_lem :
    (br : BitReader) (b : ℕ)
    → br.bit < br.size * 8
    → bit_at br.bytes br.bit ≡ b
    → br_read_bit br ≡ some (b, ahead br 1)
unfolding br_read_bit
read_bit_lem br b lt here = ground arith

read_loop-suc :
    (n out b : ℕ) (br : BitReader)
    → br_read_bit br ≡ some (b, ahead br 1)
    → read_loop (suc n) out br ≡ read_loop n (shift_in out b) (ahead br 1)
unfolding read_loop
read_loop-suc n out b br e = rw (e, read_loop)

pow_pos : (n : ℕ) → 1 ≤ 2 ^ n
pow_pos n = one-le-pow n 2 (omega arith)

-- `n` bits of a number, read behind what has been read.
pub read_loop_lem :
    (n v out : ℕ) (br : BitReader)
    → Ahead br (bits_of v n)
    → out * 2 ^ n + v % 2 ^ n < 2 ^ 32
    → read_loop n out br ≡ some (out * 2 ^ n + v % 2 ^ n, ahead br n)
read_loop_lem zero v out br s fits =
    unfold read_loop in ground (arith, ap (λ (t : ℕ). record br { bit = t }) (zero_end br.bit))
  where
    zero_end : (b : ℕ) → b ≡ b + 0
    zero_end b = omega arith
read_loop_lem (suc n) v out br (lt, here, s) fits =
    let b : ℕ = v / 2 ^ n % 2 in
    let double : out * 2 ^ suc n ≡ 2 * (out * 2 ^ n) =
      omega (arith, ap (λ (t : ℕ). out * t) (pow-suc 2 n)) in
    let small : out < 2 ^ 31 = omega (arith, mul-le-mul_left out (pow_pos n), double) in
    let next : shift_in out b ≡ out * 2 + b = shift_in_sum out b small (omega arith) in
    let value : (out * 2 + b) * 2 ^ n + v % 2 ^ n ≡ out * 2 ^ suc n + v % 2 ^ suc n =
      omega (arith, mod_pow_suc v n) in
    read_loop-suc n out b br (read_bit_lem br b lt here)
    ∙ ap (λ (t : ℕ). read_loop n t (ahead br 1)) next
    ∙ read_loop_lem n v (out * 2 + b) (ahead br 1) s (omega arith)
    ∙ rw (value, ahead_sum br 1 n (suc n) (omega arith))

-- Reading `n ≤ 32` bits of a number gives its lowest `n` bits.
pub br_read_bits_lem :
    (n v : ℕ) (br : BitReader)
    → n ≤ 32
    → br.bit + n ≤ br.size * 8
    → Ahead br (bits_of v n)
    → v % 2 ^ n < 2 ^ 32
    → br_read_bits br n ≡ some (v % 2 ^ n, ahead br n)
unfolding br_read_bits
br_read_bits_lem n v br le room s fits = ground (arith, read_loop_lem n v 0 br s)

zeros_loop-suc :
    (fuel z b : ℕ) (br : BitReader)
    → br_read_bit br ≡ some (b, ahead br 1)
    → zeros_loop (suc fuel) z br ≡ (
        if b == 0
        then (if ltb 31 (z + 1) then none else zeros_loop fuel (z + 1) (ahead br 1))
        else some (z, ahead br 1))
unfolding zeros_loop
zeros_loop-suc fuel z b br e = rw (e, zeros_loop) (ground arith)

-- The zeros in front of a code, and the 1 behind them.
zeros_loop_lem :
    (k fuel z : ℕ) (br : BitReader) (rest : List ℕ)
    → k < fuel
    → z + k < 32
    → Ahead br (bits_of 0 k ++ 1 ∷ rest)
    → zeros_loop fuel z br ≡ some (z + k, ahead br (k + 1))
zeros_loop_lem k zero z br rest lt le s = absurd (omega arith)
zeros_loop_lem zero (suc fuel) z br rest lt le (in_size, here, s) =
    zeros_loop-suc fuel z 1 br (read_bit_lem br 1 in_size here) ∙ ground arith
zeros_loop_lem (suc k) (suc fuel) z br rest lt le (in_size, here, s) =
    let zero_bit : bit_at br.bytes br.bit ≡ 0 = here ∙ rw zero-div in
    zeros_loop-suc fuel z 0 br (read_bit_lem br 0 in_size zero_bit)
    ∙ ground (
      arith,
      zeros_loop_lem k fuel (z + 1) (ahead br 1) rest,
      s,
      ahead_sum br 1 (k + 1) (suc k + 1) (omega arith),
    )

-- The value that `br_read_ue` computes where the code of `val` stands: `val` itself up to
-- 2 ^ 31 - 2, and from there on `val + 2 ^ 31` in 32 bits.
abbrev pub ue_read : ℕ → ℕ
ue_read val = if ltb val (2 ^ 31 - 1) then val else (val + 2 ^ 31) % 2 ^ 32

ue_value_lem :
    (val k : ℕ)
    → val + 1 < 2 ^ 32
    → IsLog2 (val + 1) k
    → k < 32
    → ue_value k ((val + 1) % 2 ^ k) ≡ ue_read val
ue_value_lem val k fits (lo, hi) lt =
    let rest : (val + 1) % 2 ^ k ≡ val + 1 - 2 ^ k =
      mod-eq-sub-mod lo ∙ mod-eq_of_lt (omega (arith, pow-suc 2 k)) in
    rw rest (elim (ℕ_discrete k 31) [
      | yes top ↦
          let p : 2 ^ k ≡ 2 ^ 31 = ap (λ (t : ℕ). 2 ^ t) top in
          ground (arith, lo, hi, p, pow-suc 2 k)
      | no ne ↦ ground (arith, lo, hi, pow-suc 2 k, below k (omega arith))
    ])
  where
    below : (k : ℕ) → suc k ≤ 31 → 2 ^ suc k ≤ 2 ^ 31
    below k le = pow-le-pow_right (omega arith) le

read_ue_steps :
    (br br' br'' : BitReader) (z x : ℕ)
    → zeros_loop 32 0 br ≡ some (z, br')
    → read_loop z 0 br' ≡ some (x, br'')
    → br_read_ue br ≡ some (ue_value z x, br'')
unfolding br_read_ue
read_ue_steps br br' br'' z x e f = rw (e, br_read_ue) (rw f)

-- Where the code of a number below 2 ^ 32 - 1 stands, `br_read_ue` passes over it and gives
-- `ue_read`.
pub br_read_ue_lem :
    (val : ℕ) (br : BitReader) (rest : List ℕ)
    → val + 1 < 2 ^ 32
    → Ahead br (ue_bits val ++ rest)
    → br_read_ue br ≡ some (ue_read val, ahead br (2 * ue_zeros val + 1))
br_read_ue_lem val br rest fits s =
    let k = ue_zeros val in
    let ((lo, hi), lt) = ue_zeros-IsLog2 val fits in
    let (code, _) = Stands-append br.bytes br.size br.bit (ue_bits val) rest s in
    let (_, (_, _, digits)) = Stands-append br.bytes br.size br.bit (bits_of 0 k) _ code in
    let one : (val + 1) / 2 ^ k ≡ 1 =
      div-eq_of_lt-le (2 ^ k) (omega arith) (omega (arith, pow-suc 2 k)) in
    let top : (val + 1) / 2 ^ k % 2 ≡ 1 = omega (arith, one) in
    let prefix : zeros_loop 32 0 br ≡ some (k, ahead br (k + 1)) =
      zeros_loop_lem k 32 0 br (bits_of (val + 1) k) lt (omega arith) (rw top at code)
      ∙ ap (λ (t : ℕ). some (t, ahead br (k + 1))) (omega arith) in
    let start : br.bit + length (bits_of 0 k) + 1 ≡ br.bit + (k + 1) =
      omega (arith, length-bits_of 0 k) in
    let suffix : read_loop k 0 (ahead br (k + 1))
        ≡ some (0 * 2 ^ k + (val + 1) % 2 ^ k, ahead (ahead br (k + 1)) k) =
      read_loop_lem k (val + 1) 0 (ahead br (k + 1)) (rw start at digits) (omega arith) in
    let value : 0 * 2 ^ k + (val + 1) % 2 ^ k ≡ (val + 1) % 2 ^ k = omega arith in
    read_ue_steps br (ahead br (k + 1)) (ahead (ahead br (k + 1)) k) k _ prefix suffix
    ∙ rw (
      value,
      ue_value_lem val k fits (lo, hi) lt,
      ahead_sum br (k + 1) k (2 * k + 1) (omega arith),
    )

-- A reader over what a writer has written, from bit `bit` on.
abbrev pub reader_of : BsWriter → ℕ → BitReader
reader_of bs bit = record { bytes = bs.buffer; size = bs_bytes bs; bit = bit }

module _ (bs : BsWriter) (bits : List ℕ) (val : ℕ) (h : Holds bs bits)
    (room : length bits + 64 ≤ 8 * bs.capacity) where
  read_back :
      val + 1 < 2 ^ 32
      → br_read_ue (reader_of (bs_write_ue bs val) (length bits))
        ≡ some (
          ue_read val,
          ahead (reader_of (bs_write_ue bs val) (length bits)) (2 * ue_zeros val + 1),
        )
  read_back fits =
      let w =
        bs_write_ue-Holds bs bits val h fits
          (omega (arith, length-ue_bits val, ue_zeros-IsLog2 val fits)) in
      let s =
        Holds-Stands (bs_write_ue bs val) (bs_bytes (bs_write_ue bs val)) bits (ue_bits val) w
          (bs_bytes-le (bs_write_ue bs val) _ w) in
      br_read_ue_lem val (reader_of (bs_write_ue bs val) (length bits)) [] fits (rw append-nil s)

  -- A number below 2 ^ 31 - 1 that `bs_write_ue` writes behind the bits of a writer with 64 bits of
  -- room is the one that `br_read_ue` reads there, and the reader then stands behind its code.
  pub br_read_ue-bs_write_ue :
      val < 2 ^ 31 - 1
      → br_read_ue (reader_of (bs_write_ue bs val) (length bits))
        ≡ some (val, ahead (reader_of (bs_write_ue bs val) (length bits)) (2 * ue_zeros val + 1))
  br_read_ue-bs_write_ue lt = ground (arith, read_back)

  -- A number from 2 ^ 31 - 1 to 2 ^ 32 - 2 is read back as `val + 2 ^ 31` in 32 bits, which is
  -- another number: for 31 leading zeros the reader adds UINT32_MAX in place of 2 ^ 31 - 1.
  pub br_read_ue_misreads :
      2 ^ 31 - 1 ≤ val
      → val < 2 ^ 32 - 1
      → (br_read_ue (reader_of (bs_write_ue bs val) (length bits))
          ≡ some (
            (val + 2 ^ 31) % 2 ^ 32,
            ahead (reader_of (bs_write_ue bs val) (length bits)) (2 * ue_zeros val + 1),
          ))
        × ((val + 2 ^ 31) % 2 ^ 32 ≢ val)
  br_read_ue_misreads lo hi = (ground (arith, read_back), omega arith)
