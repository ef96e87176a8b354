-- ===== src/Hevc/HeaderExamples.antt =====
-- Parameter sets for one picture, and a slice of it that is rewritten.
use rockchip_vaapi.Base.{arith, ℕ, ◌≡◌, ◌↔◌, refl, true, false, none, some, List, [], ◌∷◌}
use rockchip_vaapi.Base.Int.{ℤ, pos, negsuc}
use rockchip_vaapi.Hevc.Rps.{
  Picture, Rps, collect_loop, collect_rps, sort_entries, sort_loop, shift_insert,
}
use rockchip_vaapi.Hevc.Parameters.{HevcParameters}
use rockchip_vaapi.Hevc.Validate.{
  validate_slice_syntax_bounds, ranges_hold, blocks_hold, tile_spacing_is_uniform,
  validate_picture_parameters,
}
use rockchip_vaapi.Hevc.Validate.Tiles.{AreUniform, tile_spacing_is_uniform_lem}
use rockchip_vaapi.Hevc.Writers.Headers.{WidthsFit}
use rockchip_vaapi.Hevc.Writers.Written.{AreWritten, rk_hevc_write_parameter_sets_lem}

abbrev invalid_surface : ℕ
invalid_surface = 4294967295

abbrev picture : ℕ → ℤ → Picture
picture id poc = record {
  picture_id = id;
  pic_order_cnt = poc;
  invalid = false;
  field_pic = false;
  long_term_reference = false;
  st_curr_before = false;
  st_curr_after = false;
  lt_curr = false;
}

-- Picture 5 of 64 by 64 samples, with a short-term reference and a long-term one.
abbrev parameters : HevcParameters
parameters = record {
  curr_pic = picture 0 (pos 5);
  reference_frames =
      record (picture 1 (pos 3)) { st_curr_before = true }
      ∷ record (picture 2 (pos 1)) { lt_curr = true }
      ∷ [];
  column_width_minus1 = [];
  row_height_minus1 = [];
  pic_width_in_luma_samples = 64;
  pic_height_in_luma_samples = 64;
  chroma_format_idc = 1;
  sps_max_dec_pic_buffering_minus1 = 4;
  bit_depth_luma_minus8 = 0;
  bit_depth_chroma_minus8 = 0;
  pcm_sample_bit_depth_luma_minus1 = 0;
  pcm_sample_bit_depth_chroma_minus1 = 0;
  log2_min_luma_coding_block_size_minus3 = 0;
  log2_diff_max_min_luma_coding_block_size = 3;
  log2_min_transform_block_size_minus2 = 0;
  log2_diff_max_min_transform_block_size = 3;
  log2_min_pcm_luma_coding_block_size_minus3 = 0;
  log2_diff_max_min_pcm_luma_coding_block_size = 0;
  max_transform_hierarchy_depth_intra = 1;
  max_transform_hierarchy_depth_inter = 1;
  diff_cu_qp_delta_depth = 1;
  log2_parallel_merge_level_minus2 = 0;
  num_tile_columns_minus1 = 0;
  num_tile_rows_minus1 = 0;
  log2_max_pic_order_cnt_lsb_minus4 = 4;
  num_short_term_ref_pic_sets = 1;
  num_long_term_ref_pic_sps = 0;
  num_ref_idx_l0_default_active_minus1 = 0;
  num_ref_idx_l1_default_active_minus1 = 0;
  num_extra_slice_header_bits = 0;
  st_rps_bits = 0;
  separate_colour_plane_flag = false;
  pcm_enabled_flag = false;
  scaling_list_enabled_flag = false;
  transform_skip_enabled_flag = false;
  amp_enabled_flag = true;
  strong_intra_smoothing_enabled_flag = false;
  sign_data_hiding_enabled_flag = true;
  constrained_intra_pred_flag = false;
  cu_qp_delta_enabled_flag = true;
  weighted_pred_flag = false;
  weighted_bipred_flag = false;
  transquant_bypass_enabled_flag = false;
  tiles_enabled_flag = false;
  entropy_coding_sync_enabled_flag = false;
  pps_loop_filter_across_slices_enabled_flag = true;
  loop_filter_across_tiles_enabled_flag = false;
  pcm_loop_filter_disabled_flag = false;
  no_pic_reordering_flag = false;
  lists_modification_present_flag = false;
  long_term_ref_pics_present_flag = true;
  sps_temporal_mvp_enabled_flag = true;
  cabac_init_present_flag = false;
  output_flag_present_flag = false;
  dependent_slice_segments_enabled_flag = false;
  pps_slice_chroma_qp_offsets_present_flag = false;
  sample_adaptive_offset_enabled_flag = true;
  deblocking_filter_override_enabled_flag = false;
  pps_disable_deblocking_filter_flag = false;
  slice_segment_header_extension_present_flag = false;
  init_qp_minus26 = negsuc 1;
  pps_cb_qp_offset = pos 0;
  pps_cr_qp_offset = pos 2;
  pps_beta_offset_div2 = pos 0;
  pps_tc_offset_div2 = pos 0;
}

abbrev collected : Rps
collected = record {
  negative = record { delta = 2; poc = 3; used = true } ∷ [];
  positive = [];
  long_term = record { delta = 0; poc = 1; used = true } ∷ [];
}

collects : collect_rps invalid_surface (pos 5) parameters.reference_frames ≡ some collected
unfolding collect_rps collect_loop sort_entries sort_loop shift_insert
collects = refl

valid : validate_picture_parameters invalid_surface parameters none 1 ≡ some collected
unfolding validate_picture_parameters validate_slice_syntax_bounds ranges_hold blocks_hold
valid = collects

parameters-WidthsFit : WidthsFit parameters
parameters-WidthsFit = record {
  width = omega arith;
  height = omega arith;
  inter = omega arith;
  intra = omega arith;
  columns = tt;
  rows = tt;
}

rk_hevc_write_parameter_sets_lem_example :
    (vps sps pps : List ℕ) × AreWritten invalid_surface 131072 parameters none 3 1 vps sps pps
rk_hevc_write_parameter_sets_lem_example =
    rk_hevc_write_parameter_sets_lem invalid_surface 131072 parameters none 3 1 collected
      parameters-WidthsFit (record { columns = omega arith; rows = omega arith }) tt (omega arith)
      (omega arith) valid

-- Seven blocks in three columns, of 2, 2 and 3.
abbrev tiled : HevcParameters
tiled = record parameters {
  pic_width_in_luma_samples = 448;
  num_tile_columns_minus1 = 2;
  column_width_minus1 = 1 ∷ 1 ∷ [];
}

tile_spacing_is_uniform_lem_example :
    (tile_spacing_is_uniform tiled ≡ true) ↔ (AreUniform 7 3 (1 ∷ 1 ∷ []) × AreUniform 1 1 [])
tile_spacing_is_uniform_lem_example =
    tile_spacing_is_uniform_lem tiled 7 1 (record { enough = omega arith; needed = omega arith })
      (record { enough = omega arith; needed = omega arith }) (omega arith) (omega arith)
