-- ===== src/H264/Examples.antt =====
-- The H.264 writers on a frame of 1920 by 1088 samples.
use rockchip_vaapi.Base.{ℕ, ◌≡◌, inr, refl, false, some, none, List, [], ◌∷◌, arith, replicate}
use rockchip_vaapi.Base.Int.{pos, negsuc}
use rockchip_vaapi.Bitstream.Elements.{Element}
use rockchip_vaapi.Nal.{start_code}
use rockchip_vaapi.Nal.Escape.{has_start_code}
use rockchip_vaapi.Bitstream.Decoder.{decode}
use rockchip_vaapi.H264.Syntax.{sps_syntax, sps_of}
use rockchip_vaapi.H264.{
  PictureParameters, IqMatrix, h264_write_sps, h264_derive_level_idc, h264_level_limits,
  write_scaling_list,
}
use rockchip_vaapi.H264.Level.{NoneBelow, IsAttained, h264_derive_level_idc_lem}
use rockchip_vaapi.H264.Sps.{SpsFieldsFit, h264_write_sps_lem}
use rockchip_vaapi.H264.Scaling.{IsCoded, write_scaling_list-IsCoded, write_scaling_list_refuses}

abbrev picture : PictureParameters
picture = record {
  picture_width_in_mbs_minus1 = 119;
  picture_height_in_mbs_minus1 = 67;
  bit_depth_luma_minus8 = 0;
  bit_depth_chroma_minus8 = 0;
  num_ref_frames = 4;
  chroma_format_idc = 1;
  residual_colour_transform_flag = 0;
  gaps_in_frame_num_value_allowed_flag = 0;
  frame_mbs_only_flag = 0;
  mb_adaptive_frame_field_flag = 1;
  direct_8x8_inference_flag = 1;
  min_luma_bi_pred_size8x8 = 1;
  log2_max_frame_num_minus4 = 0;
  pic_order_cnt_type = 0;
  log2_max_pic_order_cnt_lsb_minus4 = 2;
  delta_pic_order_always_zero_flag = 0;
  pic_init_qp_minus26 = negsuc 3;
  pic_init_qs_minus26 = pos 0;
  chroma_qp_index_offset = negsuc 1;
  second_chroma_qp_index_offset = negsuc 1;
  entropy_coding_mode_flag = 1;
  weighted_pred_flag = 0;
  weighted_bipred_idc = 2;
  transform_8x8_mode_flag = 1;
  constrained_intra_pred_flag = 0;
  pic_order_present_flag = 0;
  deblocking_filter_control_present_flag = 1;
  redundant_pic_cnt_present_flag = 0;
}

picture-SpsFieldsFit : SpsFieldsFit picture
picture-SpsFieldsFit = record {
  width = omega arith;
  height = omega arith;
  luma = omega arith;
  chroma = omega arith;
  refs = omega arith;
  chroma_format = omega arith;
  colour = omega arith;
  gaps = omega arith;
  frame_mbs_only = omega arith;
  mbaff = omega arith;
  direct_8x8 = omega arith;
  frame_num = omega arith;
  poc_type = omega arith;
  poc_lsb = omega arith;
  delta_zero = omega arith;
  field_rows = inr (omega arith);
}

-- Flat matrices, whose entries are all 16.
abbrev flat : IqMatrix
flat = record {
  scaling_list4x4 = replicate 6 (replicate 16 16);
  scaling_list8x8 = replicate 2 (replicate 64 16);
}

h264_write_sps_lem_example :
    (out : List ℕ) × (h264_write_sps 4096 picture 100 ≡ some (start_code out))
    × (has_start_code out ≡ false)
    × (decode sps_syntax out ≡ some (sps_of picture 100))
h264_write_sps_lem_example =
    h264_write_sps_lem picture picture-SpsFieldsFit 100 (omega arith) 4096 (omega arith)

h264_derive_level_idc_lem_example :
    NoneBelow picture (h264_derive_level_idc picture) h264_level_limits
    × IsAttained picture (h264_derive_level_idc picture) h264_level_limits
h264_derive_level_idc_lem_example =
    h264_derive_level_idc_lem picture (omega arith) (omega arith) (omega arith)

write_scaling_list-IsCoded_example :
    (deltas : List Element) × (write_scaling_list (255 ∷ 1 ∷ 20 ∷ 20 ∷ []) (0 ∷ 1 ∷ 3 ∷ 2 ∷ []) 8
      ≡ some deltas)
    × IsCoded 8 (255 ∷ 1 ∷ 20 ∷ 20 ∷ []) deltas
write_scaling_list-IsCoded_example =
    write_scaling_list-IsCoded (255 ∷ 1 ∷ 20 ∷ 20 ∷ []) (0 ∷ 1 ∷ 3 ∷ 2 ∷ []) 8 (omega arith)
      (ground arith)

write_scaling_list_refuses_example :
    write_scaling_list (255 ∷ 1 ∷ 0 ∷ 20 ∷ []) (0 ∷ 1 ∷ 2 ∷ 3 ∷ []) 8 ≡ none
write_scaling_list_refuses_example =
    write_scaling_list_refuses (255 ∷ 1 ∷ 0 ∷ 20 ∷ []) (0 ∷ 1 ∷ []) 2 (3 ∷ []) 8 refl
