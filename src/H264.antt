-- ===== src/H264.antt =====
-- src/h264.c: the H.264 SPS and PPS that the driver rebuilds from VA-API parameters. The records
-- hold the fields that the code reads; a bit field is a number, a signed field an integer. Each
-- `bs_write` call is one element, in the order of the calls.
pub mod Level
pub mod Syntax
pub mod Sps
pub mod Scaling
pub mod Matrices
pub mod PpsSyntax
pub mod Pps
mod Examples
use rockchip_vaapi.Base.{
  ℕ, zero, suc, ◌+◌, ◌-◌, ◌*◌, ◌/◌, ◌%◌, ◌^◌, Bool, true, false, not, ◌&&◌, ◌||◌, Option, none,
  some, List, [], ◌∷◌, ◌++◌, ltb, leb, ◌==◌, if◌then◌else◌, get_or, take, length, ◌>>=◌, ◌>>◌,
  to_bit,
}
use rockchip_vaapi.Base.Int.{ℤ, pos, negsuc, sub_ℕ, ◌==ℤ◌}
use rockchip_vaapi.Bitstream.Elements.{Element, u, ue, se}
use rockchip_vaapi.Nal.{emulation_prevent, start_code}
use rockchip_vaapi.Nal.ParameterSet.{raw_bytes}

-- `VAPictureParameterBufferH264`.
pub record PictureParameters : Type 0 where
  pub picture_width_in_mbs_minus1 : ℕ
  pub picture_height_in_mbs_minus1 : ℕ
  pub bit_depth_luma_minus8 : ℕ
  pub bit_depth_chroma_minus8 : ℕ
  pub num_ref_frames : ℕ
  pub chroma_format_idc : ℕ
  pub residual_colour_transform_flag : ℕ
  pub gaps_in_frame_num_value_allowed_flag : ℕ
  pub frame_mbs_only_flag : ℕ
  pub mb_adaptive_frame_field_flag : ℕ
  pub direct_8x8_inference_flag : ℕ
  pub min_luma_bi_pred_size8x8 : ℕ
  pub log2_max_frame_num_minus4 : ℕ
  pub pic_order_cnt_type : ℕ
  pub log2_max_pic_order_cnt_lsb_minus4 : ℕ
  pub delta_pic_order_always_zero_flag : ℕ
  pub pic_init_qp_minus26 : ℤ
  pub pic_init_qs_minus26 : ℤ
  pub chroma_qp_index_offset : ℤ
  pub second_chroma_qp_index_offset : ℤ
  pub entropy_coding_mode_flag : ℕ
  pub weighted_pred_flag : ℕ
  pub weighted_bipred_idc : ℕ
  pub transform_8x8_mode_flag : ℕ
  pub constrained_intra_pred_flag : ℕ
  pub pic_order_present_flag : ℕ
  pub deblocking_filter_control_present_flag : ℕ
  pub redundant_pic_cnt_present_flag : ℕ

-- `VAIQMatrixBufferH264`: six lists of 16 and two of 64.
pub record IqMatrix : Type 0 where
  pub scaling_list4x4 : List (List ℕ)
  pub scaling_list8x8 : List (List ℕ)

pub record LevelLimit : Type 0 where
  pub level_idc : ℕ
  pub max_fs : ℕ
  pub max_dpb_mbs : ℕ

abbrev limit : ℕ → ℕ → ℕ → LevelLimit
limit level_idc max_fs max_dpb_mbs = record {
  level_idc = level_idc;
  max_fs = max_fs;
  max_dpb_mbs = max_dpb_mbs;
}

abbrev pub h264_level_limits : List LevelLimit
h264_level_limits =
    limit 10 99 396
    ∷ limit 11 396 900
    ∷ limit 12 396 2376
    ∷ limit 21 792 4752
    ∷ limit 22 1620 8100
    ∷ limit 31 3600 18000
    ∷ limit 32 5120 20480
    ∷ limit 40 8192 32768
    ∷ limit 42 8704 34816
    ∷ limit 50 22080 110400
    ∷ limit 51 36864 184320
    ∷ limit 60 139264 696320
    ∷ []

-- The tests of the loop under which it goes on to the next entry. Products are of 64 bits.
pub exceeds : PictureParameters → LevelLimit → Bool
exceeds pp l =
    let width_mbs = pp.picture_width_in_mbs_minus1 + 1 in
    let height_mbs = pp.picture_height_in_mbs_minus1 + 1 in
    let frame_mbs = width_mbs * height_mbs % 2 ^ 64 in
    let dpb_mbs = frame_mbs * pp.num_ref_frames % 2 ^ 64 in
    not (pp.min_luma_bi_pred_size8x8 == 0) && ltb l.level_idc 31
    || (ltb l.max_fs frame_mbs
        || ltb (8 * l.max_fs) (width_mbs * width_mbs % 2 ^ 64)
        || ltb (8 * l.max_fs) (height_mbs * height_mbs % 2 ^ 64)
        || ltb l.max_dpb_mbs dpb_mbs)

pub level_loop : PictureParameters → List LevelLimit → ℕ
level_loop pp [] = 62
level_loop pp (l ∷ rest) = if exceeds pp l then level_loop pp rest else l.level_idc

pub h264_derive_level_idc : PictureParameters → ℕ
h264_derive_level_idc pp = level_loop pp h264_level_limits

abbrev pub is_high_profile : ℕ → Bool
is_high_profile p =
    p == 100
    || (p == 110
        || (p == 122
            || (p == 244 || (p == 44 || (p == 83 || (p == 86 || (p == 118 || p == 128)))))))

-- Chroma and bit depth, for the High profiles.
abbrev pub chroma_elements : PictureParameters → ℕ → List Element
chroma_elements pp profile_idc =
    if is_high_profile profile_idc
    then ue pp.chroma_format_idc
      ∷ ((if pp.chroma_format_idc == 3 then u pp.residual_colour_transform_flag 1 ∷ [] else [])
          ++ (ue pp.bit_depth_luma_minus8 ∷ ue pp.bit_depth_chroma_minus8 ∷ u 0 1 ∷ u 0 1 ∷ []))
    else []

abbrev pub poc_elements : PictureParameters → List Element
poc_elements pp =
    ue pp.pic_order_cnt_type
    ∷ (if pp.pic_order_cnt_type == 0
        then ue pp.log2_max_pic_order_cnt_lsb_minus4 ∷ []
        else if pp.pic_order_cnt_type == 1
        then u pp.delta_pic_order_always_zero_flag 1 ∷ se (pos 0) ∷ se (pos 0) ∷ ue 0 ∷ []
        else [])

-- `(height + 1) / 2 - 1` in 32 bits for field coding.
abbrev pub ph_units : PictureParameters → ℕ
ph_units pp =
    if pp.frame_mbs_only_flag == 0
    then ((pp.picture_height_in_mbs_minus1 + 1) / 2 + 2 ^ 32 - 1) % 2 ^ 32
    else pp.picture_height_in_mbs_minus1

abbrev pub size_elements : PictureParameters → List Element
size_elements pp =
    ue pp.num_ref_frames
    ∷ u pp.gaps_in_frame_num_value_allowed_flag 1
    ∷ ue pp.picture_width_in_mbs_minus1
    ∷ ue (ph_units pp)
    ∷ u pp.frame_mbs_only_flag 1
    ∷ ((if pp.frame_mbs_only_flag == 0 then u pp.mb_adaptive_frame_field_flag 1 ∷ [] else [])
        ++ (u pp.direct_8x8_inference_flag 1 ∷ u 0 1 ∷ u 0 1 ∷ []))

pub sps_elements : PictureParameters → ℕ → List Element
sps_elements pp profile_idc =
    u 0x67 8
    ∷ u profile_idc 8
    ∷ u (to_bit (profile_idc == 66)) 1
    ∷ u (to_bit (profile_idc == 66 || profile_idc == 77)) 1
    ∷ u 0 1
    ∷ u 0 5
    ∷ u (h264_derive_level_idc pp) 8
    ∷ ue 0
    ∷ (chroma_elements pp profile_idc
        ++ (ue pp.log2_max_frame_num_minus4 ∷ (poc_elements pp ++ size_elements pp)))

-- The end of both writers: the size test, the start code and the escaped bytes. `none` is -1;
-- otherwise the length of the list is what is returned.
abbrev pub finish : ℕ → List ℕ → Option (List ℕ)
finish buf_size raw =
    if ltb buf_size (4 + length raw * 2)
    then none
    else elim (emulation_prevent raw (buf_size - 4)) [
      | none ↦ none
      | some out ↦ if length out == 0 then none else some (start_code out)
    ]

pub h264_write_sps : ℕ → PictureParameters → ℕ → Option (List ℕ)
h264_write_sps buf_size pp profile_idc =
    finish buf_size (raw_bytes 512 (sps_elements pp profile_idc))

abbrev pub scan4x4 : List ℕ
scan4x4 = 0 ∷ 1 ∷ 4 ∷ 8 ∷ 5 ∷ 2 ∷ 3 ∷ 6 ∷ 9 ∷ 12 ∷ 13 ∷ 10 ∷ 7 ∷ 11 ∷ 14 ∷ 15 ∷ []

abbrev pub scan8x8 : List ℕ
scan8x8 =
    0 ∷ 1 ∷ 8 ∷ 16 ∷ 9 ∷ 2 ∷ 3 ∷ 10 ∷ 17 ∷ 24 ∷ 32 ∷ 25 ∷ 18 ∷ 11 ∷ 4 ∷ 5 ∷ 12 ∷ 19 ∷ 26 ∷ 33 ∷ 40
    ∷ 48 ∷ 41 ∷ 34 ∷ 27 ∷ 20 ∷ 13 ∷ 6 ∷ 7 ∷ 14 ∷ 21 ∷ 28 ∷ 35 ∷ 42 ∷ 49 ∷ 56 ∷ 57 ∷ 50 ∷ 43 ∷ 36
    ∷ 29 ∷ 22 ∷ 15 ∷ 23 ∷ 30 ∷ 37 ∷ 44 ∷ 51 ∷ 58 ∷ 59 ∷ 52 ∷ 45 ∷ 38 ∷ 31 ∷ 39 ∷ 46 ∷ 53 ∷ 60 ∷ 61
    ∷ 54 ∷ 47 ∷ 55 ∷ 62 ∷ 63 ∷ []

-- A difference outside -128 to 127 is taken modulo 256.
abbrev pub wrap_delta : ℤ → ℤ
wrap_delta (pos n) = if ltb 127 n then sub_ℕ n 256 else pos n
wrap_delta (negsuc n) = if ltb 128 (n + 1) then sub_ℕ 256 (n + 1) else negsuc n

-- The loop of `write_scaling_list` over the scan, from the last value on; `none` is its -1.
pub write_scaling_list : List ℕ → List ℕ → ℕ → Option (List Element)
write_scaling_list values [] last_scale = some []
write_scaling_list values (at ∷ scan) last_scale =
    let next_scale = get_or values at 0 in
    let rest = write_scaling_list values scan next_scale in
    if next_scale == 0
    then none
    else (do deltas ← rest; some (se (wrap_delta (sub_ℕ next_scale last_scale)) ∷ deltas))

-- A present flag and a list, for each of the matrices.
pub write_scaling_lists : List (List ℕ) → List ℕ → Option (List Element)
unfolding write_scaling_list
write_scaling_lists [] scan = some []
write_scaling_lists (values ∷ rows) scan = do
  first ← write_scaling_list values scan 8
  rest ← write_scaling_lists rows scan
  some (u 1 1 ∷ (first ++ rest))

-- A negative default count is taken as 0.
abbrev pub clamp_negative : ℤ → ℕ
clamp_negative (pos n) = n
clamp_negative (negsuc n) = 0

abbrev pub matrix_elements : PictureParameters → Option IqMatrix → Option (List Element)
matrix_elements pp none = some []
matrix_elements pp (some iq) = do
  small ← write_scaling_lists (take 6 iq.scaling_list4x4) scan4x4
  large ←
      if pp.transform_8x8_mode_flag == 0
      then some []
      else write_scaling_lists (take 2 iq.scaling_list8x8) scan8x8
  some (small ++ large)

abbrev pub has_matrix : Option IqMatrix → Bool
has_matrix none = false
has_matrix (some iq) = true

-- The part that only the High profiles have.
abbrev pub high_elements : PictureParameters → Option IqMatrix → Option (List Element)
high_elements pp iq =
    if has_matrix iq
      || (not (pp.transform_8x8_mode_flag == 0)
          || not (pp.second_chroma_qp_index_offset ==ℤ pp.chroma_qp_index_offset))
    then (do
      lists ← matrix_elements pp iq
      some (
          u pp.transform_8x8_mode_flag 1
          ∷ u (to_bit (has_matrix iq)) 1
          ∷ (lists ++ (se pp.second_chroma_qp_index_offset ∷ []))))
    else some []

abbrev pub pps_head : PictureParameters → ℤ → ℤ → List Element
pps_head pp l0 l1 =
    u 0x68 8
    ∷ ue 0
    ∷ ue 0
    ∷ u pp.entropy_coding_mode_flag 1
    ∷ u pp.pic_order_present_flag 1
    ∷ ue 0
    ∷ ue (clamp_negative l0)
    ∷ ue (clamp_negative l1)
    ∷ u pp.weighted_pred_flag 1
    ∷ u pp.weighted_bipred_idc 2
    ∷ se pp.pic_init_qp_minus26
    ∷ se pp.pic_init_qs_minus26
    ∷ se pp.chroma_qp_index_offset
    ∷ u pp.deblocking_filter_control_present_flag 1
    ∷ u pp.constrained_intra_pred_flag 1
    ∷ u pp.redundant_pic_cnt_present_flag 1
    ∷ []

pub pps_elements : PictureParameters → Option IqMatrix → ℤ → ℤ → Option (List Element)
unfolding write_scaling_lists
pps_elements pp iq l0 l1 = do high ← high_elements pp iq; some (pps_head pp l0 l1 ++ high)

pub h264_write_pps : ℕ → PictureParameters → Option IqMatrix → ℤ → ℤ → Option (List ℕ)
unfolding pps_elements
h264_write_pps buf_size pp iq l0 l1 = do
  elements ← pps_elements pp iq l0 l1
  finish buf_size (raw_bytes 1024 elements)
