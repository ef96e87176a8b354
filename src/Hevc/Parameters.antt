-- ===== src/Hevc/Parameters.antt =====
-- src/hevc.c: the VA-API structures that the HEVC writers read. A bit field of one bit is a Boolean,
-- any other field a number, a signed field an integer.
use rockchip_vaapi.Base.{ℕ, Bool, List}
use rockchip_vaapi.Base.Int.{ℤ}
use rockchip_vaapi.Hevc.Rps.{Picture}

-- `VAPictureParameterBufferHEVC`.
pub record HevcParameters : Type 0 where
  pub curr_pic : Picture
  pub reference_frames : List Picture
  pub column_width_minus1 : List ℕ
  pub row_height_minus1 : List ℕ
  pub pic_width_in_luma_samples : ℕ
  pub pic_height_in_luma_samples : ℕ
  pub chroma_format_idc : ℕ
  pub sps_max_dec_pic_buffering_minus1 : ℕ
  pub bit_depth_luma_minus8 : ℕ
  pub bit_depth_chroma_minus8 : ℕ
  pub pcm_sample_bit_depth_luma_minus1 : ℕ
  pub pcm_sample_bit_depth_chroma_minus1 : ℕ
  pub log2_min_luma_coding_block_size_minus3 : ℕ
  pub log2_diff_max_min_luma_coding_block_size : ℕ
  pub log2_min_transform_block_size_minus2 : ℕ
  pub log2_diff_max_min_transform_block_size : ℕ
  pub log2_min_pcm_luma_coding_block_size_minus3 : ℕ
  pub log2_diff_max_min_pcm_luma_coding_block_size : ℕ
  pub max_transform_hierarchy_depth_intra : ℕ
  pub max_transform_hierarchy_depth_inter : ℕ
  pub diff_cu_qp_delta_depth : ℕ
  pub log2_parallel_merge_level_minus2 : ℕ
  pub num_tile_columns_minus1 : ℕ
  pub num_tile_rows_minus1 : ℕ
  pub log2_max_pic_order_cnt_lsb_minus4 : ℕ
  pub num_short_term_ref_pic_sets : ℕ
  pub num_long_term_ref_pic_sps : ℕ
  pub num_ref_idx_l0_default_active_minus1 : ℕ
  pub num_ref_idx_l1_default_active_minus1 : ℕ
  pub num_extra_slice_header_bits : ℕ
  pub st_rps_bits : ℕ
  pub separate_colour_plane_flag : Bool
  pub pcm_enabled_flag : Bool
  pub scaling_list_enabled_flag : Bool
  pub transform_skip_enabled_flag : Bool
  pub amp_enabled_flag : Bool
  pub strong_intra_smoothing_enabled_flag : Bool
  pub sign_data_hiding_enabled_flag : Bool
  pub constrained_intra_pred_flag : Bool
  pub cu_qp_delta_enabled_flag : Bool
  pub weighted_pred_flag : Bool
  pub weighted_bipred_flag : Bool
  pub transquant_bypass_enabled_flag : Bool
  pub tiles_enabled_flag : Bool
  pub entropy_coding_sync_enabled_flag : Bool
  pub pps_loop_filter_across_slices_enabled_flag : Bool
  pub loop_filter_across_tiles_enabled_flag : Bool
  pub pcm_loop_filter_disabled_flag : Bool
  pub no_pic_reordering_flag : Bool
  pub lists_modification_present_flag : Bool
  pub long_term_ref_pics_present_flag : Bool
  pub sps_temporal_mvp_enabled_flag : Bool
  pub cabac_init_present_flag : Bool
  pub output_flag_present_flag : Bool
  pub dependent_slice_segments_enabled_flag : Bool
  pub pps_slice_chroma_qp_offsets_present_flag : Bool
  pub sample_adaptive_offset_enabled_flag : Bool
  pub deblocking_filter_override_enabled_flag : Bool
  pub pps_disable_deblocking_filter_flag : Bool
  pub slice_segment_header_extension_present_flag : Bool
  pub init_qp_minus26 : ℤ
  pub pps_cb_qp_offset : ℤ
  pub pps_cr_qp_offset : ℤ
  pub pps_beta_offset_div2 : ℤ
  pub pps_tc_offset_div2 : ℤ

-- `VAIQMatrixBufferHEVC`: six lists of 16, six of 64, six of 64 and two of 64, and the DC values.
pub record HevcMatrix : Type 0 where
  pub scaling_list4x4 : List (List ℕ)
  pub scaling_list8x8 : List (List ℕ)
  pub scaling_list16x16 : List (List ℕ)
  pub scaling_list32x32 : List (List ℕ)
  pub scaling_list_dc16x16 : List ℕ
  pub scaling_list_dc32x32 : List ℕ
