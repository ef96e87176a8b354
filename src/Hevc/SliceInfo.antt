-- ===== src/Hevc/SliceInfo.antt =====
-- `rk_hevc_parse_slice_info` of src/hevc.c on a slice NAL unit laid out from its fields.
use rockchip_vaapi.Base.{
  ℕ, ◌+◌, ◌-◌, ◌*◌, ◌/◌, ◌%◌, ◌^◌, ◌≤◌, ◌<◌, ◌≡◌, sym, subst, ap, ◌∙◌, Bool, not, some, inl, inr,
  append-nil, List, [], ◌∷◌, ◌++◌, arith, ◌==◌, if◌then◌else◌, Bool-cases, to_bit, take, length,
  length-take,
}
use rockchip_vaapi.Bitstream.Golomb.{ue_bits, ue_zeros, length-ue_bits-le}
use rockchip_vaapi.Bitstream.Stands.{Stands}
use rockchip_vaapi.Nal.{emulation_prevent, unescape_prefix, start_code}
use rockchip_vaapi.Nal.RoundTrip.{unescape_prefix-emulation_prevent, emulation_prevent-length}
use rockchip_vaapi.Nal.ParameterSet.{get_or-take}
use rockchip_vaapi.Hevc.Reader.{BitReader, br_read_ue}
use rockchip_vaapi.Hevc.Golomb.{ahead, Ahead, read_bit_lem, br_read_ue_lem}
use rockchip_vaapi.Hevc.Slice.{
  SliceInfo, nal_offset, has_irap_flag, read_slice, slice_reader, parse_nal,
  rk_hevc_parse_slice_info,
}

-- What a slice NAL unit says, with the layer identifier and the flag of a random access picture,
-- which are read over.
pub record Slice : Type 0 where
  pub nal_type : ℕ
  pub layer_id : ℕ
  pub temporal_id_plus1 : ℕ
  pub first : Bool
  pub no_output : Bool
  pub pps_id : ℕ

pub record SliceFits (s : Slice) : Type 0 where
  pub typed : s.nal_type < 32
  pub layer : s.layer_id < 64
  pub temporal : (1 ≤ s.temporal_id_plus1) × (s.temporal_id_plus1 < 8)
  pub pps : s.pps_id < 64

abbrev pub slice_bits : Slice → List ℕ
slice_bits s =
    to_bit s.first
    ∷ ((if has_irap_flag s.nal_type then to_bit s.no_output ∷ [] else []) ++ ue_bits s.pps_id)

-- The two bytes of the NAL unit header.
abbrev pub header_bytes : Slice → List ℕ → List ℕ
header_bytes s rest =
    (s.nal_type * 2 + s.layer_id / 32) ∷ (s.layer_id % 32 * 8 + s.temporal_id_plus1) ∷ rest

abbrev pub slice_info : Slice → SliceInfo
slice_info s = record {
  nal_unit_type = s.nal_type;
  temporal_id_plus1 = s.temporal_id_plus1;
  pps_id = s.pps_id;
  first_slice_segment_in_pic = s.first;
}

-- No start code, or one of three or four bytes.
pub data Prefix : Type 0 where
  bare : Prefix
  short : Prefix
  long : Prefix

abbrev pub prefixed : Prefix → List ℕ → List ℕ
prefixed bare nal = nal
prefixed short nal = 0 ∷ 0 ∷ 1 ∷ nal
prefixed long nal = start_code nal

Stands-take :
    (n : ℕ) (bytes : List ℕ) (pos : ℕ) (bits : List ℕ)
    → pos + length bits ≤ n * 8
    → Stands bytes (length bytes) pos bits
    → Stands (take n bytes) (length (take n bytes)) pos bits
Stands-take n bytes pos [] le s = tt
Stands-take n bytes pos (b ∷ bits) le (lt, here, s) = (
  omega (arith, length-take n bytes),
  ap (λ (byte : ℕ). byte / 2 ^ (7 - pos % 8) % 2) (get_or-take n (pos / 8) bytes (omega arith))
      ∙ here,
  Stands-take n bytes (pos + 1) bits (omega arith) s,
)

slice_bits-le : (s : Slice) → SliceFits s → length (slice_bits s) ≤ 15
slice_bits-le s f =
    let code = length-ue_bits-le 6 s.pps_id (omega arith) (omega (arith, f.pps)) in
    elim (Bool-cases (has_irap_flag s.nal_type)) [
      | inl e ↦ rw e (omega (arith, code))
      | inr e ↦ rw e (omega (arith, code))
    ]

-- The reader at the start of a slice header that stands in its bytes.
read_slice_lem :
    (s : Slice) (br : BitReader)
    → SliceFits s
    → Ahead br (slice_bits s)
    → read_slice s.nal_type s.temporal_id_plus1 br ≡ some (slice_info s)
unfolding read_slice
read_slice_lem s br f (lt, here, behind) =
    let low : s.pps_id % 256 ≡ s.pps_id = omega (arith, f.pps) in
    let one = read_bit_lem br (to_bit s.first) lt here in
    let flag : not (to_bit s.first == 0) ≡ s.first = ground arith in
    elim (Bool-cases (has_irap_flag s.nal_type)) [
      | inl e ↦
          let (lt', here', behind') = (rw e at behind) in
          let two = read_bit_lem (ahead br 1) (to_bit s.no_output) lt' here' in
          rw (one, e, two, id_code (ahead (ahead br 1) 1) behind')
            (ground (arith, f.pps, low, flag))
      | inr e ↦
          rw (one, e, id_code (ahead br 1) (rw e at behind)) (ground (arith, f.pps, low, flag))
    ]
  where
    id_code :
        (b : BitReader)
        → Ahead b (ue_bits s.pps_id)
        → br_read_ue b ≡ some (s.pps_id, ahead b (2 * ue_zeros s.pps_id + 1))
    id_code b a =
        let small = f.pps in
        let fits : s.pps_id + 1 < 2 ^ 32 = omega (arith, small) in
        ground (arith, small, br_read_ue_lem s.pps_id b [] fits (rw append-nil a))

parse_nal_lem :
    (s : Slice) (out : List ℕ)
    → SliceFits s
    → 1 ≤ length out
    → Ahead (slice_reader out) (slice_bits s)
    → parse_nal (header_bytes s out) ≡ some (slice_info s)
unfolding parse_nal
parse_nal_lem s out f some_bytes a =
    let high : (s.nal_type * 2 + s.layer_id / 32) / 128 % 2 ≡ 0 = omega (arith, f.typed, f.layer) in
    let type : (s.nal_type * 2 + s.layer_id / 32) / 2 % 64 ≡ s.nal_type =
      omega (arith, f.typed, f.layer) in
    let id : (s.layer_id % 32 * 8 + s.temporal_id_plus1) % 8 ≡ s.temporal_id_plus1 =
      omega (arith, f.temporal) in
    rw (high, type, id)
      (ground (arith, f.typed, f.temporal, some_bytes, read_slice_lem s (slice_reader out) f a))

-- A start code in front is dropped; the header of a NAL unit is none.
parse_prefixed :
    (p : Prefix) (s : Slice) (out : List ℕ)
    → SliceFits s
    → rk_hevc_parse_slice_info (prefixed p (header_bytes s out)) ≡ parse_nal (header_bytes s out)
unfolding rk_hevc_parse_slice_info
parse_prefixed bare s out f =
    let none_here : nal_offset (header_bytes s out) ≡ 0 = ground (arith, f.temporal) in rw none_here
parse_prefixed short s out f =
    let here : nal_offset (prefixed short (header_bytes s out)) ≡ 3 = ground arith in rw here
parse_prefixed long s out f =
    let here : nal_offset (prefixed long (header_bytes s out)) ≡ 4 = ground arith in rw here

-- For a slice NAL unit with its header, whose payload of escaped bytes starts with the fields of
-- the slice header, the fields are given as they stand there, with or without a start code.
pub rk_hevc_parse_slice_info_lem :
    (p : Prefix) (s : Slice) (raw out : List ℕ) (capacity : ℕ)
    → SliceFits s
    → Stands raw (length raw) 0 (slice_bits s)
    → emulation_prevent raw capacity ≡ some out
    → rk_hevc_parse_slice_info (prefixed p (header_bytes s out)) ≡ some (slice_info s)
rk_hevc_parse_slice_info_lem p s raw out capacity f stands e =
    let back : unescape_prefix out 128 ≡ take 128 raw =
      unescape_prefix-emulation_prevent raw out capacity 128 e in
    let taken = Stands-take 128 raw 0 (slice_bits s) (omega (arith, slice_bits-le s f)) stands in
    let ready : Stands (unescape_prefix out 128) (length (unescape_prefix out 128)) 0
        (slice_bits s) =
      subst (λ bytes. Stands bytes (length bytes) 0 (slice_bits s)) (sym back) taken in
    parse_prefixed p s out f
    ∙ parse_nal_lem s out f (emulation_prevent-length raw out capacity e (omega (arith, stands.0)))
        ready
