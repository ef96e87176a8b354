-- ===== src/Hevc/Slice.antt =====
-- src/hevc.c: the fields of a slice NAL unit that name its parameter sets
-- (`rk_hevc_parse_slice_info`). The size is the length of the list.
use rockchip_vaapi.Base.{
  ℕ, ◌/◌, ◌%◌, Bool, not, ◌&&◌, ◌||◌, Option, none, some, List, ltb, leb, ◌==◌, if◌then◌else◌,
  get_or, drop, length, require, ◌>>=◌, ◌>>◌,
}
use rockchip_vaapi.Nal.{unescape_prefix}
use rockchip_vaapi.Hevc.Reader.{BitReader, br_read_bit, br_read_ue}

-- `RKHEVCSliceInfo`.
pub record SliceInfo : Type 0 where
  pub nal_unit_type : ℕ
  pub temporal_id_plus1 : ℕ
  pub pps_id : ℕ
  pub first_slice_segment_in_pic : Bool

-- The length of the start code in front.
abbrev pub nal_offset : List ℕ → ℕ
nal_offset bytes =
    if leb 4 (length bytes)
      && (get_or bytes 0 0 == 0
          && (get_or bytes 1 0 == 0 && (get_or bytes 2 0 == 0 && get_or bytes 3 0 == 1)))
    then 4
    else if leb 3 (length bytes)
        && (get_or bytes 0 0 == 0 && (get_or bytes 1 0 == 0 && get_or bytes 2 0 == 1))
    then 3
    else 0

-- A random access picture has one more flag.
abbrev pub has_irap_flag : ℕ → Bool
has_irap_flag nal_type = leb 16 nal_type && leb nal_type 23

-- The part of the slice header that is read.
unfoldable pub read_slice : ℕ → ℕ → BitReader → Option SliceInfo
read_slice nal_type temporal_id_plus1 br = do
  (first, br) ← br_read_bit br
  br ← if has_irap_flag nal_type then (do (bit, br) ← br_read_bit br; some br) else some br
  (pps_id, br) ← br_read_ue br
  require (not (ltb 63 pps_id))
  some (record {
    nal_unit_type = nal_type;
    temporal_id_plus1 = temporal_id_plus1;
    pps_id = pps_id % 256;
    first_slice_segment_in_pic = not (first == 0);
  })

-- `rbsp` has 128 bytes.
abbrev pub slice_reader : List ℕ → BitReader
slice_reader payload =
    let rbsp = unescape_prefix payload 128 in record { bytes = rbsp; size = length rbsp; bit = 0 }

unfoldable pub parse_nal : List ℕ → Option SliceInfo
parse_nal nal =
    let nal_type = get_or nal 0 0 / 2 % 64 in
    let temporal_id_plus1 = get_or nal 1 0 % 8 in
    if ltb (length nal) 3
      || (not (get_or nal 0 0 / 128 % 2 == 0) || (ltb 31 nal_type || temporal_id_plus1 == 0))
    then none
    else read_slice nal_type temporal_id_plus1 (slice_reader (drop 2 nal))

unfoldable pub rk_hevc_parse_slice_info : List ℕ → Option SliceInfo
rk_hevc_parse_slice_info bytes = parse_nal (drop (nal_offset bytes) bytes)
