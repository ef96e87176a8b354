-- ===== src/H264/Syntax.antt =====
-- The sequence parameter set of 7.3.2.1.1, as a decoder reads what src/h264.c writes. Parts that the
-- driver never writes (cropping, VUI, offsets of a picture order cycle, scaling lists) are refused.
use rockchip_vaapi.Base.{
  ℕ, ◌+◌, ◌-◌, ◌*◌, ◌/◌, ◌%◌, Bool, false, ◌||◌, List, [], ◌∷◌, ◌==◌, if◌then◌else◌, to_bit,
}
use rockchip_vaapi.Base.Int.{ℤ, pos}
use rockchip_vaapi.Bitstream.Decoder.{Decoder, give, refuse, bits, golomb, signed}
use rockchip_vaapi.H264.{PictureParameters, h264_derive_level_idc}

pub record ChromaSyntax : Type 0 where
  pub chroma_format_idc : ℕ
  pub separate_colour_plane_flag : ℕ
  pub bit_depth_luma : ℕ
  pub bit_depth_chroma : ℕ
  pub qpprime_y_zero_transform_bypass_flag : ℕ

-- By `pic_order_cnt_type`: 0 with the bits of an LSB, 1 with an empty cycle, and 2.
pub data PocSyntax : Type 0 where
  by_lsb : ℕ → PocSyntax
  by_cycle : ℕ → ℤ → ℤ → PocSyntax
  by_output : PocSyntax

pub record SizeSyntax : Type 0 where
  pub max_num_ref_frames : ℕ
  pub gaps_in_frame_num_value_allowed_flag : ℕ
  pub pic_width_in_mbs : ℕ
  pub frame_height_in_mbs : ℕ
  pub frame_mbs_only_flag : ℕ
  pub mb_adaptive_frame_field_flag : ℕ
  pub direct_8x8_inference_flag : ℕ

pub record SpsSyntax : Type 0 where
  pub forbidden_zero_bit : ℕ
  pub nal_ref_idc : ℕ
  pub nal_unit_type : ℕ
  pub profile_idc : ℕ
  pub constraint_set0_flag : ℕ
  pub constraint_set1_flag : ℕ
  pub constraint_set2_flag : ℕ
  pub other_constraint_bits : ℕ
  pub level_idc : ℕ
  pub seq_parameter_set_id : ℕ
  pub chroma : ChromaSyntax
  pub log2_max_frame_num : ℕ
  pub poc : PocSyntax
  pub size : SizeSyntax

abbrev one_of : ℕ → List ℕ → Bool
one_of p [] = false
one_of p (q ∷ qs) = p == q || one_of p qs

-- The profiles whose sets say the chroma format.
abbrev pub has_chroma : ℕ → Bool
has_chroma p = one_of p (100 ∷ 110 ∷ 122 ∷ 244 ∷ 44 ∷ 83 ∷ 86 ∷ 118 ∷ 128 ∷ [])

abbrev plane_syntax : ℕ → (ℕ → Decoder SpsSyntax) → Decoder SpsSyntax
plane_syntax chroma_format_idc next = if chroma_format_idc == 3 then bits 1 next else next 0

abbrev pub chroma_syntax : ℕ → (ChromaSyntax → Decoder SpsSyntax) → Decoder SpsSyntax
chroma_syntax profile_idc next =
    if has_chroma profile_idc
    then golomb (λ format. plane_syntax format (λ plane. golomb (λ luma. golomb (λ chroma.
      bits 1 (λ bypass. bits 1 (λ scaling_matrix_present_flag.
        if scaling_matrix_present_flag == 0
        then next (record {
          chroma_format_idc = format;
          separate_colour_plane_flag = plane;
          bit_depth_luma = luma + 8;
          bit_depth_chroma = chroma + 8;
          qpprime_y_zero_transform_bypass_flag = bypass;
        })
        else refuse))))))
    else next (record {
      chroma_format_idc = 1;
      separate_colour_plane_flag = 0;
      bit_depth_luma = 8;
      bit_depth_chroma = 8;
      qpprime_y_zero_transform_bypass_flag = 0;
    })

abbrev pub poc_syntax : (PocSyntax → Decoder SpsSyntax) → Decoder SpsSyntax
poc_syntax next = golomb (λ pic_order_cnt_type.
    if pic_order_cnt_type == 0
    then golomb (λ lsb. next (by_lsb (lsb + 4)))
    else if pic_order_cnt_type == 1
    then bits 1 (λ always_zero. signed (λ non_ref. signed (λ top_to_bottom.
      golomb (λ num_ref_frames_in_cycle.
        if num_ref_frames_in_cycle == 0
        then next (by_cycle always_zero non_ref top_to_bottom)
        else refuse))))
    else next by_output)

abbrev pub field_syntax : ℕ → (ℕ → Decoder SpsSyntax) → Decoder SpsSyntax
field_syntax frame_mbs_only_flag next = if frame_mbs_only_flag == 0 then bits 1 next else next 0

-- Cropping and VUI are the last two flags.
abbrev pub size_syntax : (SizeSyntax → Decoder SpsSyntax) → Decoder SpsSyntax
size_syntax next = golomb (λ refs. bits 1 (λ gaps. golomb (λ width. golomb (λ map_units.
    bits 1 (λ frame_mbs_only. field_syntax frame_mbs_only (λ mbaff. bits 1 (λ direct.
      bits 1 (λ frame_cropping_flag. bits 1 (λ vui_parameters_present_flag.
        if frame_cropping_flag == 0
        then (if vui_parameters_present_flag == 0
            then next (record {
              max_num_ref_frames = refs;
              gaps_in_frame_num_value_allowed_flag = gaps;
              pic_width_in_mbs = width + 1;
              frame_height_in_mbs = (2 - frame_mbs_only) * (map_units + 1);
              frame_mbs_only_flag = frame_mbs_only;
              mb_adaptive_frame_field_flag = mbaff;
              direct_8x8_inference_flag = direct;
            })
            else refuse)
        else refuse)))))))))

abbrev pub sps_syntax : Decoder SpsSyntax
sps_syntax = bits 8 (λ nal. bits 8 (λ profile. bits 1 (λ set0. bits 1 (λ set1. bits 1 (λ set2.
    bits 5 (λ others. bits 8 (λ level. golomb (λ id. chroma_syntax profile (λ chroma.
      golomb (λ frame_num. poc_syntax (λ poc. size_syntax (λ size. give (record {
        forbidden_zero_bit = nal / 128;
        nal_ref_idc = nal / 32 % 4;
        nal_unit_type = nal % 32;
        profile_idc = profile;
        constraint_set0_flag = set0;
        constraint_set1_flag = set1;
        constraint_set2_flag = set2;
        other_constraint_bits = others;
        level_idc = level;
        seq_parameter_set_id = id;
        chroma = chroma;
        log2_max_frame_num = frame_num + 4;
        poc = poc;
        size = size;
      })))))))))))))

-- What the parameters of a picture say, in the words of the standard.
abbrev pub chroma_of : PictureParameters → ℕ → ChromaSyntax
chroma_of pp profile_idc =
    if has_chroma profile_idc
    then (record {
      chroma_format_idc = pp.chroma_format_idc;
      separate_colour_plane_flag =
          if pp.chroma_format_idc == 3 then pp.residual_colour_transform_flag else 0;
      bit_depth_luma = pp.bit_depth_luma_minus8 + 8;
      bit_depth_chroma = pp.bit_depth_chroma_minus8 + 8;
      qpprime_y_zero_transform_bypass_flag = 0;
    })
    else (record {
      chroma_format_idc = 1;
      separate_colour_plane_flag = 0;
      bit_depth_luma = 8;
      bit_depth_chroma = 8;
      qpprime_y_zero_transform_bypass_flag = 0;
    })

abbrev pub poc_of : PictureParameters → PocSyntax
poc_of pp =
    if pp.pic_order_cnt_type == 0
    then by_lsb (pp.log2_max_pic_order_cnt_lsb_minus4 + 4)
    else if pp.pic_order_cnt_type == 1
    then by_cycle pp.delta_pic_order_always_zero_flag (pos 0) (pos 0)
    else by_output

-- A frame of fields has an even number of rows of macroblocks.
abbrev pub size_of : PictureParameters → SizeSyntax
size_of pp = record {
  max_num_ref_frames = pp.num_ref_frames;
  gaps_in_frame_num_value_allowed_flag = pp.gaps_in_frame_num_value_allowed_flag;
  pic_width_in_mbs = pp.picture_width_in_mbs_minus1 + 1;
  frame_height_in_mbs =
      let height = pp.picture_height_in_mbs_minus1 + 1 in
      if pp.frame_mbs_only_flag == 0 then height / 2 * 2 else height;
  frame_mbs_only_flag = pp.frame_mbs_only_flag;
  mb_adaptive_frame_field_flag =
      if pp.frame_mbs_only_flag == 0 then pp.mb_adaptive_frame_field_flag else 0;
  direct_8x8_inference_flag = pp.direct_8x8_inference_flag;
}

abbrev pub sps_of : PictureParameters → ℕ → SpsSyntax
sps_of pp profile_idc = record {
  forbidden_zero_bit = 0;
  nal_ref_idc = 3;
  nal_unit_type = 7;
  profile_idc = profile_idc;
  constraint_set0_flag = to_bit (profile_idc == 66);
  constraint_set1_flag = to_bit (profile_idc == 66 || profile_idc == 77);
  constraint_set2_flag = 0;
  other_constraint_bits = 0;
  level_idc = h264_derive_level_idc pp;
  seq_parameter_set_id = 0;
  chroma = chroma_of pp profile_idc;
  log2_max_frame_num = pp.log2_max_frame_num_minus4 + 4;
  poc = poc_of pp;
  size = size_of pp;
}
