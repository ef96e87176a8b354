-- ===== src/Hevc/Rewrite.antt =====
-- src/hevc.c: the rewriting of slice NAL units (`rk_hevc_rewrite_slice_nal`) and the reference
-- picture sets that it writes and skips.
pub mod Positions
pub mod Copied
pub mod Sets
pub mod SetRead
mod SetExamples
pub mod Body
pub mod Rewritten
use rockchip_vaapi.Base.{
  ℕ, zero, suc, ◌+◌, ◌-◌, ◌*◌, ◌/◌, ◌%◌, ◌^◌, Bool, true, false, not, ◌&&◌, ◌||◌, Option, none,
  some, List, [], ◌∷◌, ◌++◌, ltb, leb, ◌==◌, if◌then◌else◌, get_or, drop, take, length, to_bit,
  require, ◌>>=◌, ◌>>◌,
}
use rockchip_vaapi.Base.Int.{ℤ, pos, negsuc, pos_part, neg_part, sub_ℕ}
use rockchip_vaapi.Bitstream.{BsWriter, bs_init, bs_write1, bs_rbsp_trailing, bs_bytes}
use rockchip_vaapi.Bitstream.Content.{bit_at}
use rockchip_vaapi.Bitstream.Elements.{Element, u, ue, put_all}
use rockchip_vaapi.Nal.{emulation_prevent, unescape_prefix}
use rockchip_vaapi.Hevc.Reader.{BitReader, br_read_bit, br_read_bits, br_skip_bits, br_read_ue}
use rockchip_vaapi.Hevc.Slice.{nal_offset, has_irap_flag}
use rockchip_vaapi.Hevc.Rps.{RpsEntry, Rps, collect_rps}
use rockchip_vaapi.Hevc.Parameters.{HevcParameters}
use rockchip_vaapi.Hevc.Validate.{width_ctbs, height_ctbs, validate_slice_syntax_bounds}

-- `while (max) { bits++; max >>= 1; }`, with a bound on the rounds.
unfoldable pub bits_needed : ℕ → ℕ → ℕ → ℕ
bits_needed zero max bits = bits
bits_needed (suc fuel) max bits =
    let more = bits_needed fuel (max / 2) (bits + 1) in if max == 0 then bits else more

unfoldable pub ceil_log2_u32 : ℕ → ℕ
ceil_log2_u32 value = bits_needed 32 (value - 1) 0

-- One of the two loops over the entries; the difference is taken in 32 bits.
unfoldable pub short_entries : ℕ → List RpsEntry → List Element
short_entries previous [] = []
short_entries previous (e ∷ es) =
    ue ((e.delta + 2 ^ 32 - previous + 2 ^ 32 - 1) % 2 ^ 32)
    ∷ u (to_bit e.used) 1
    ∷ short_entries e.delta es

unfoldable pub write_short_term_rps : Rps → ℕ → List Element
write_short_term_rps rps index =
    (if ltb 0 index then u 0 1 ∷ [] else [])
    ++ (ue (length rps.negative)
        ∷ ue (length rps.positive)
        ∷ (short_entries 0 rps.negative ++ short_entries 0 rps.positive))

abbrev pub poc_bits : HevcParameters → ℕ
poc_bits pp = pp.log2_max_pic_order_cnt_lsb_minus4 + 4

-- The 32-bit number as a signed one: `(int32_t)poc`.
abbrev pub signed_of : ℕ → ℤ
signed_of poc = if ltb poc (2 ^ 31) then pos poc else negsuc (2 ^ 32 - 1 - poc)

-- `(ref_lsb + current_poc - poc_lsb - ref_poc) / max_poc_lsb`, or `none` below 0. The quotient is
-- rounded to 0.
abbrev pub msb_cycle : HevcParameters → ℕ → ℕ → Option ℕ
msb_cycle pp poc_lsb poc =
    let current = pp.curr_pic.pic_order_cnt in
    let high = poc % 2 ^ poc_bits pp + pos_part current + neg_part (signed_of poc) in
    let low = neg_part current + poc_lsb + pos_part (signed_of poc) in
    if leb low high
    then some ((high - low) / 2 ^ poc_bits pp)
    else if (low - high) / 2 ^ poc_bits pp == 0
    then some 0
    else none

-- The loop, with the cycle of the entry before.
unfoldable pub long_entries : HevcParameters → ℕ → ℕ → List RpsEntry → Option (List Element)
long_entries pp poc_lsb previous_msb [] = some []
long_entries pp poc_lsb previous_msb (e ∷ es) = do
  msb ← msb_cycle pp poc_lsb e.poc
  require (leb previous_msb msb)
  require (ltb (msb - previous_msb) (2 ^ 32))
  rest ← long_entries pp poc_lsb msb es
  some (
      u (e.poc % 2 ^ poc_bits pp) (poc_bits pp)
      ∷ u (to_bit e.used) 1
      ∷ u 1 1
      ∷ ue (msb - previous_msb)
      ∷ rest)

unfoldable pub write_long_term_rps : Rps → HevcParameters → ℕ → Option (List Element)
write_long_term_rps rps pp poc_lsb =
    if pp.long_term_ref_pics_present_flag
    then (do
      entries ← long_entries pp poc_lsb 0 rps.long_term
      some (ue (length rps.long_term) ∷ entries))
    else some []

unfoldable pub copy_loop : ℕ → List ℕ → ℕ → BsWriter → BsWriter
copy_loop zero src bit bs = bs
copy_loop (suc count) src bit bs = copy_loop count src (bit + 1) (bs_write1 bs (bit_at src bit))

unfoldable pub copy_bits : BsWriter → List ℕ → ℕ → ℕ → Option BsWriter
copy_bits bs src start_bit end_bit =
    if ltb end_bit start_bit then none else some (copy_loop (end_bit - start_bit) src start_bit bs)

-- The loop down from a bit, with the number of bits above the lower end.
unfoldable pub alignment_loop : List ℕ → ℕ → ℕ → Option ℕ
alignment_loop rbsp rps_end_bit zero = none
alignment_loop rbsp rps_end_bit (suc left) =
    let candidate = rps_end_bit + left in
    let rest = alignment_loop rbsp rps_end_bit left in
    if bit_at rbsp candidate == 0 then rest else some candidate

unfoldable pub find_byte_alignment_start : List ℕ → ℕ → ℕ → Option ℕ
find_byte_alignment_start rbsp rps_end_bit slice_data_bit =
    if ltb slice_data_bit rps_end_bit
    then none
    else alignment_loop rbsp rps_end_bit (slice_data_bit - rps_end_bit)

-- The loop over the long-term pictures; `from_sps` of them are indices.
unfoldable pub skip_long_terms : HevcParameters → ℕ → ℕ → BitReader → Option BitReader
skip_long_terms pp from_sps zero br = some br
skip_long_terms pp from_sps (suc count) br = do
  br ←
      br_skip_bits br
        (if ltb 0 from_sps then ceil_log2_u32 pp.num_long_term_ref_pic_sps else poc_bits pp + 1)
  (delta_present, br) ← br_read_bit br
  br ← if delta_present == 0 then some br else (do (ignored, br) ← br_read_ue br; some br)
  skip_long_terms pp (from_sps - 1) count br

-- Where the long-term part starts and whether it is copied.
pub record LongTerms : Type 0 where
  pub lt_verbatim_bit : ℕ
  pub lt_verbatim : Bool

abbrev pub skip_short_terms : HevcParameters → BitReader → Option BitReader
skip_short_terms pp br = do
  (flag, br) ← br_read_bit br
  if flag == 0 then br_skip_bits br pp.st_rps_bits else (do
    require (not (pp.num_short_term_ref_pic_sets == 0))
    br_skip_bits br (ceil_log2_u32 pp.num_short_term_ref_pic_sets))

unfoldable pub skip_original_rps : BitReader → HevcParameters → Option (LongTerms × BitReader)
skip_original_rps br pp = do
  br ← skip_short_terms pp br
  if pp.long_term_ref_pics_present_flag
      then (do
        (num_lt_sps, br) ←
            if ltb 0 pp.num_long_term_ref_pic_sps then br_read_ue br else some (0, br)
        let start = br.bit
        (num_lt_pics, br) ← br_read_ue br
        require (leb num_lt_sps pp.num_long_term_ref_pic_sps)
        require (leb ((num_lt_sps + num_lt_pics) % 2 ^ 32) 15)
        br ← skip_long_terms pp num_lt_sps ((num_lt_sps + num_lt_pics) % 2 ^ 32) br
        some (record { lt_verbatim_bit = start; lt_verbatim = num_lt_sps == 0 }, br))
      else some (record { lt_verbatim_bit = 0; lt_verbatim = false }, br)

-- The slice header up to the reference picture set. A dependent segment has none.
pub data Front : Type 0 where
  dependent : Front
  independent : ℕ → BitReader → Front

-- The loop over the extra bits of the header.
unfoldable pub skip_extra : ℕ → BitReader → Option BitReader
skip_extra zero br = some br
skip_extra (suc count) br = do (ignored, br) ← br_read_bit br; skip_extra count br

unfoldable pub independent_front : HevcParameters → BitReader → Option Front
independent_front pp br = do
  br ← skip_extra pp.num_extra_slice_header_bits br
  (ignored, br) ← br_read_ue br
  br ← if pp.output_flag_present_flag then (do (ignored, br) ← br_read_bit br; some br) else some br
  br ← if pp.separate_colour_plane_flag then br_skip_bits br 2 else some br
  (poc_lsb, br) ← br_read_bits br (poc_bits pp)
  some (independent poc_lsb br)

-- The flag of a dependent segment and the address, which all but the first slice have.
unfoldable pub slice_address : HevcParameters → BitReader → Option (Bool × BitReader)
slice_address pp br = do
  (bit, br) ← if pp.dependent_slice_segments_enabled_flag then br_read_bit br else some (0, br)
  br ← br_skip_bits br (ceil_log2_u32 (width_ctbs pp * height_ctbs pp))
  some (not (bit == 0), br)

unfoldable pub slice_front : HevcParameters → ℕ → BitReader → Option Front
slice_front pp nal_type br = do
  (first_slice, br) ← br_read_bit br
  br ← if has_irap_flag nal_type then (do (ignored, br) ← br_read_bit br; some br) else some br
  (ignored, br) ← br_read_ue br
  (is_dependent, br) ← if first_slice == 0 then slice_address pp br else some (false, br)
  if is_dependent then some dependent else independent_front pp br

-- The header behind the reference picture set, up to the slice data and their alignment.
unfoldable pub write_suffix : List ℕ → ℕ → Option ℕ → BsWriter → Option BsWriter
write_suffix rbsp rps_end none bs = copy_bits bs rbsp rps_end (length rbsp * 8)
write_suffix rbsp rps_end (some slice_data_byte_offset) bs =
    if ltb slice_data_byte_offset 2 then copy_bits bs rbsp rps_end (length rbsp * 8) else (do
      let slice_data_bit = (slice_data_byte_offset - 2) * 8
      require (leb slice_data_bit (length rbsp * 8))
      align_start ← find_byte_alignment_start rbsp rps_end slice_data_bit
      bs ← copy_bits bs rbsp rps_end align_start
      copy_bits (bs_rbsp_trailing bs) rbsp slice_data_bit (length rbsp * 8))

-- The long-term part: the bits of the stream, or the entries of the collected set.
unfoldable pub write_long_terms :
    HevcParameters → Rps → ℕ → LongTerms → List ℕ → ℕ → BsWriter → Option BsWriter
write_long_terms pp rps poc_lsb lt rbsp rps_end bs =
    if lt.lt_verbatim
    then copy_bits bs rbsp lt.lt_verbatim_bit rps_end
    else (do elements ← write_long_term_rps rps pp poc_lsb; some (put_all elements bs))

-- The writer with the whole slice, in a buffer of 4096 bytes more than the NAL unit has.
unfoldable pub rewrite_body :
    ℕ → HevcParameters → Option ℕ → ℕ → List ℕ → ℕ → BitReader → Option BsWriter
rewrite_body invalid_surface pp sp nal_size rbsp poc_lsb br = do
  (lt, br') ← skip_original_rps br pp
  rps ← collect_rps invalid_surface pp.curr_pic.pic_order_cnt pp.reference_frames
  bs ← copy_bits (bs_init (nal_size + 4096)) rbsp 0 br.bit
  let short = put_all (u 0 1 ∷ write_short_term_rps rps 0) bs
  bs ← write_long_terms pp rps poc_lsb lt rbsp br'.bit short
  write_suffix rbsp br'.bit sp bs

-- The prefix, the two header bytes and the escaped slice, in `buf_size` bytes.
unfoldable pub finish_slice : ℕ → List ℕ → ℕ → ℕ → List ℕ → Option (List ℕ)
finish_slice buf_size prefix first second raw =
    if ltb buf_size (length prefix + 2)
    then none
    else elim (emulation_prevent raw (buf_size - (length prefix + 2))) [
      | none ↦ none
      | some escaped ↦
          if length escaped == 0 || ltb (2 ^ 31 - 1 - (length prefix + 2)) (length escaped)
          then none
          else some (prefix ++ first ∷ second ∷ escaped)
    ]

-- `memcpy` of the whole input.
abbrev pub copy_input : ℕ → List ℕ → Option (List ℕ)
copy_input buf_size input = if ltb buf_size (length input) then none else some input

-- What follows the checks of the NAL unit header; `memory` is whether both `malloc` calls succeed.
unfoldable pub rewrite_nal :
    Bool → ℕ → ℕ → List ℕ → HevcParameters → Option ℕ → List ℕ → List ℕ → Option (List ℕ)
rewrite_nal memory invalid_surface buf_size input pp sp prefix nal = do
  require memory
  let nal_type = get_or nal 0 0 / 2 % 64
  let rbsp = unescape_prefix (drop 2 nal) (length nal)
  front ← slice_front pp nal_type (record { bytes = rbsp; size = length rbsp; bit = 0 })
  elim front [
    | dependent ↦ copy_input buf_size input
    | independent poc_lsb br ↦ (do
      bs ← rewrite_body invalid_surface pp sp (length nal) rbsp poc_lsb br
      finish_slice buf_size prefix (get_or nal 0 0) (get_or nal 1 0) (take (bs_bytes bs) bs.buffer))
  ]

-- `sp` is the byte offset of the slice data, where there are slice parameters.
unfoldable pub rk_hevc_rewrite_slice_nal :
    Bool → ℕ → ℕ → List ℕ → HevcParameters → Option ℕ → Option (List ℕ)
rk_hevc_rewrite_slice_nal memory invalid_surface buf_size input pp sp = do
  require (validate_slice_syntax_bounds invalid_surface pp)
  let offset = nal_offset input
  let nal = drop offset input
  require (not (ltb (length nal) 3 || ltb (2 ^ 31 - 1) (length input)))
  let nal_type = get_or nal 0 0 / 2 % 64
  require
      (not (not (get_or nal 0 0 / 128 % 2 == 0) || (ltb 31 nal_type || get_or nal 1 0 % 8 == 0)))
  if nal_type == 19 || nal_type == 20
      then copy_input buf_size input
      else rewrite_nal memory invalid_surface buf_size input pp sp (take offset input) nal
