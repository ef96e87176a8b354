-- ===== src/Bitstream.antt =====
-- src/bs.h: the bit writer of the H.264 and HEVC parameter sets.
pub mod Content
pub mod Stands
pub mod Golomb
pub mod Trailing
mod Examples
pub mod Elements
pub mod Sized
pub mod Decoder
use rockchip_vaapi.Base.{
  ℕ, zero, suc, ◌+◌, ◌-◌, ◌*◌, ◌/◌, ◌%◌, ◌^◌, bit_or, Bool, true, false, List, [], ◌∷◌, ltb, leb,
  ◌==◌, if◌then◌else◌, get_or, set, replicate,
}
use rockchip_vaapi.Base.Int.{ℤ, pos, negsuc}

pub record BsWriter : Type 0 where
  pub buffer : List ℕ
  pub capacity : ℕ
  pub byte_pos : ℕ
  pub bit_pos : ℕ

pub bs_init : ℕ → BsWriter
bs_init capacity = record {
  buffer = replicate capacity 0;
  capacity = capacity;
  byte_pos = 0;
  bit_pos = 0;
}

-- `bit & 1` is `bit % 2`; the byte is stored back in 8 bits.
pub bs_write1 : BsWriter → ℕ → BsWriter
bs_write1 bs bit =
    let byte = bit_or (get_or bs.buffer bs.byte_pos 0) (bit % 2 * 2 ^ (7 - bs.bit_pos)) % 256 in
    let buffer = set bs.buffer bs.byte_pos byte in
    if leb bs.capacity bs.byte_pos
    then bs
    else if bs.bit_pos + 1 == 8
    then record bs { buffer = buffer; bit_pos = 0; byte_pos = bs.byte_pos + 1 }
    else record bs { buffer = buffer; bit_pos = bs.bit_pos + 1 }

-- The loop runs from bit `n - 1` of `val` down to bit 0.
pub bs_write : BsWriter → ℕ → ℕ → BsWriter
bs_write bs val zero = bs
bs_write bs val (suc i) = bs_write (bs_write1 bs (val / 2 ^ i % 2)) val i

-- `while (tmp > 1) { tmp >>= 1; bits++; }`, with a bound on the rounds.
unfoldable pub log2_loop : ℕ → ℕ → ℕ → ℕ
log2_loop zero tmp bits = bits
log2_loop (suc fuel) tmp bits =
    let more = log2_loop fuel (tmp / 2) (bits + 1) in if ltb 1 tmp then more else bits

-- `val++` wraps at 32 bits; a 32-bit number is halved at most 31 times.
pub bs_write_ue : BsWriter → ℕ → BsWriter
bs_write_ue bs val =
    let next = (val + 1) % 2 ^ 32 in
    let bits = log2_loop 32 next 0 in bs_write (bs_write bs 0 bits) next (bits + 1)

-- `(uint32_t)(-2 * val)` and `(uint32_t)(2 * val - 1)`.
pub unsigned_of : ℤ → ℕ
unsigned_of (pos zero) = 0
unsigned_of (pos (suc n)) = (2 * suc n - 1) % 2 ^ 32
unsigned_of (negsuc n) = 2 * (n + 1) % 2 ^ 32

pub bs_write_se : BsWriter → ℤ → BsWriter
bs_write_se bs val = bs_write_ue bs (unsigned_of val)

-- `while (bs->bit_pos != 0) bs_write1(bs, 0)`, with a bound on the rounds.
pub align_loop : ℕ → BsWriter → BsWriter
align_loop zero bs = bs
align_loop (suc fuel) bs =
    let more = align_loop fuel (bs_write1 bs 0) in if bs.bit_pos == 0 then bs else more

pub bs_rbsp_trailing : BsWriter → BsWriter
bs_rbsp_trailing bs = align_loop 8 (bs_write1 bs 1)

pub bs_bytes : BsWriter → ℕ
bs_bytes bs = bs.byte_pos + (if ltb 0 bs.bit_pos then 1 else 0)
