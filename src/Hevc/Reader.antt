-- ===== src/Hevc/Reader.antt =====
-- src/hevc.c: the bit reader (`HEVCBitReader`). A reader that fails gives `none`: every caller stops
-- there, so the position that it leaves is not seen.
use rockchip_vaapi.Base.{
  ℕ, zero, suc, ◌+◌, ◌-◌, ◌*◌, ◌/◌, ◌%◌, ◌^◌, ◌≡◌, sym, ap, bit_or, ◌||◌, Option, none, some, List,
  arith, ltb, leb, ◌==◌, if◌then◌else◌,
}
use native.Mathlib.Nat.{div-div-eq-div-mul, div-add-mod, pow-suc}
use rockchip_vaapi.Bitstream.Content.{bit_at}

pub record BitReader : Type 0 where
  pub bytes : List ℕ
  pub size : ℕ
  pub bit : ℕ

unfoldable pub br_read_bit : BitReader → Option (ℕ × BitReader)
br_read_bit br =
    if leb (br.size * 8) br.bit
    then none
    else some (bit_at br.bytes br.bit, record br { bit = br.bit + 1 })

-- `(out << 1) | bit` in 32 bits.
abbrev pub shift_in : ℕ → ℕ → ℕ
shift_in out bit = bit_or (out * 2 % 2 ^ 32) bit

-- The loop over `count` bits that `br_read_bits` and the suffix of `br_read_ue` share.
unfoldable pub read_loop : ℕ → ℕ → BitReader → Option (ℕ × BitReader)
read_loop zero out br = some (out, br)
read_loop (suc count) out br = elim (br_read_bit br) [
  | none ↦ none
  | some (bit, br') ↦ read_loop count (shift_in out bit) br'
]

unfoldable pub br_read_bits : BitReader → ℕ → Option (ℕ × BitReader)
br_read_bits br count =
    if ltb 32 count || ltb (br.size * 8) br.bit || ltb (br.size * 8 - br.bit) count
    then none
    else read_loop count 0 br

unfoldable pub br_skip_bits : BitReader → ℕ → Option BitReader
br_skip_bits br count =
    if ltb (br.size * 8) br.bit || ltb (br.size * 8 - br.bit) count
    then none
    else some (record br { bit = br.bit + count })

-- `while (br_read_bit(br, &bit) && !bit) if (++zeros > 31) return false;`: at most 32 rounds, and
-- the reader stands behind the bit 1 that ends the loop.
unfoldable pub zeros_loop : ℕ → ℕ → BitReader → Option (ℕ × BitReader)
zeros_loop zero _ br = none
zeros_loop (suc fuel) zeros br = elim (br_read_bit br) [
  | none ↦ none
  | some (bit, br') ↦
      let more = zeros_loop fuel (zeros + 1) br' in
      if bit == 0 then (if ltb 31 (zeros + 1) then none else more) else some (zeros, br')
]

-- `(zeros == 31 ? UINT32_MAX : (1 << zeros) - 1) + suffix` in 32 bits.
abbrev pub ue_value : ℕ → ℕ → ℕ
ue_value zeros suffix = ((if zeros == 31 then 2 ^ 32 - 1 else 2 ^ zeros - 1) + suffix) % 2 ^ 32

unfoldable pub br_read_ue : BitReader → Option (ℕ × BitReader)
br_read_ue br = elim (zeros_loop 32 0 br) [
  | none ↦ none
  | some (zeros, br') ↦ elim (read_loop zeros 0 br') [
    | none ↦ none
    | some (suffix, br'') ↦ some (ue_value zeros suffix, br'')
  ]
]

-- The lowest `n + 1` bits of a number are bit `n` and the lowest `n`.
pub mod_pow_suc : (v n : ℕ) → v % 2 ^ suc n ≡ v / 2 ^ n % 2 * 2 ^ n + v % 2 ^ n
mod_pow_suc v n =
    let p = 2 ^ n in
    let halves : v / (p * 2) ≡ v / p / 2 = sym (div-div-eq-div-mul v p 2) in
    rw (pow-suc 2 n) (
      omega (
        arith,
        div-add-mod v (p * 2),
        div-add-mod v p,
        ap (λ (t : ℕ). p * 2 * t) halves,
        ap (λ (t : ℕ). p * t) (div-add-mod (v / p) 2),
      ))
