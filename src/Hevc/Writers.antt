-- ===== src/Hevc/Writers.antt =====
-- src/hevc.c: the VPS, SPS and PPS that the driver rebuilds from VA-API parameters. Each `bs_write`
-- call is one element, in the order of the calls; a writer gives the bytes, or `none` for -1.
pub mod Headers
pub mod Pictures
pub mod Written
use rockchip_vaapi.Base.{
  ℕ, zero, suc, ◌+◌, ◌-◌, ◌*◌, ◌/◌, ◌%◌, ◌^◌, Bool, true, false, not, ◌&&◌, ◌||◌, Option, none,
  some, List, [], ◌∷◌, ◌++◌, ltb, leb, ◌==◌, if◌then◌else◌, get_or, take, length, to_bit, require,
  ◌>>=◌, ◌>>◌,
}
use rockchip_vaapi.Base.Int.{ℤ, pos, sub_ℕ, ◌==ℤ◌}
use rockchip_vaapi.Bitstream.Elements.{Element, u, ue, se}
use rockchip_vaapi.Nal.{finish_nal}
use rockchip_vaapi.Nal.ParameterSet.{raw_bytes}
use rockchip_vaapi.Hevc.Rps.{Rps}
use rockchip_vaapi.Hevc.Parameters.{HevcParameters, HevcMatrix}
use rockchip_vaapi.Hevc.Validate.{
  columns, rows, tile_spacing_is_uniform, validate_picture_parameters,
}
use rockchip_vaapi.Hevc.Matrices.{matrices_elements}

abbrev pub bit : Bool → Element
bit b = u (to_bit b) 1

abbrev pub write_nal_header : ℕ → List Element
write_nal_header nal_type = u 0 1 ∷ u nal_type 6 ∷ u 0 6 ∷ u 1 3 ∷ []

-- Products are of 64 bits.
unfoldable pub derive_level_idc : HevcParameters → ℕ
derive_level_idc pp =
    let samples = pp.pic_width_in_luma_samples * pp.pic_height_in_luma_samples % 2 ^ 64 in
    if leb samples 36864
    then 30
    else if leb samples 122880
    then 60
    else if leb samples 245760
    then 63
    else if leb samples 552960
    then 90
    else if leb samples 983040
    then 93
    else if leb samples 2228224
    then 123
    else if leb samples 8912896
    then 156
    else 186

-- The bits of the loop from `i` on, with the rounds that are left.
abbrev pub compatibility_flags : ℕ → ℕ → ℕ → List Element
compatibility_flags zero i profile_idc = []
compatibility_flags (suc rounds) i profile_idc =
    bit (i == profile_idc) ∷ compatibility_flags rounds (i + 1) profile_idc

abbrev pub constraint_elements : ℕ → List Element
constraint_elements profile_idc =
    if profile_idc == 2 then u 0 7 ∷ u 0 1 ∷ u 0 24 ∷ u 0 11 ∷ [] else u 0 24 ∷ u 0 19 ∷ []

unfoldable pub write_profile_tier_level : ℕ → ℕ → Bool → List Element
write_profile_tier_level profile_idc level_idc field_pic =
    u 0 2
    ∷ u 0 1
    ∷ u profile_idc 5
    ∷ (compatibility_flags 32 0 profile_idc
        ++ (bit (not field_pic)
            ∷ bit field_pic
            ∷ u 1 1
            ∷ bit (not field_pic)
            ∷ (constraint_elements profile_idc ++ (u 0 1 ∷ u level_idc 8 ∷ []))))

abbrev pub reorder : HevcParameters → ℕ
reorder pp = if pp.no_pic_reordering_flag then 0 else pp.sps_max_dec_pic_buffering_minus1

unfoldable pub vps_elements : HevcParameters → ℕ → List Element
vps_elements pp profile_idc =
    write_nal_header 32
    ++ ((u 0 4 ∷ u 1 1 ∷ u 1 1 ∷ u 0 6 ∷ u 0 3 ∷ u 1 1 ∷ u 0xffff 16 ∷ [])
        ++ (write_profile_tier_level profile_idc (derive_level_idc pp) pp.curr_pic.field_pic
            ++ (u 0 1
                ∷ ue pp.sps_max_dec_pic_buffering_minus1
                ∷ ue (reorder pp)
                ∷ ue 0
                ∷ u 0 6
                ∷ ue 0
                ∷ u 0 1
                ∷ u 0 1
                ∷ [])))

unfoldable pub write_vps : ℕ → HevcParameters → ℕ → Option (List ℕ)
write_vps buf_size pp profile_idc =
    finish_nal buf_size (raw_bytes 512 (vps_elements pp profile_idc))

abbrev pub pcm_elements : HevcParameters → List Element
pcm_elements pp =
    if pp.pcm_enabled_flag
    then u pp.pcm_sample_bit_depth_luma_minus1 4
      ∷ u pp.pcm_sample_bit_depth_chroma_minus1 4
      ∷ ue pp.log2_min_pcm_luma_coding_block_size_minus3
      ∷ ue pp.log2_diff_max_min_pcm_luma_coding_block_size
      ∷ bit pp.pcm_loop_filter_disabled_flag
      ∷ []
    else []

-- The picture size, the bit depths and the reordering.
abbrev pub picture_elements : HevcParameters → List Element
picture_elements pp =
    ue 0
    ∷ ue pp.chroma_format_idc
    ∷ ue pp.pic_width_in_luma_samples
    ∷ ue pp.pic_height_in_luma_samples
    ∷ u 0 1
    ∷ ue pp.bit_depth_luma_minus8
    ∷ ue pp.bit_depth_chroma_minus8
    ∷ ue pp.log2_max_pic_order_cnt_lsb_minus4
    ∷ u 0 1
    ∷ ue pp.sps_max_dec_pic_buffering_minus1
    ∷ ue (reorder pp)
    ∷ ue 0
    ∷ []

abbrev pub block_elements : HevcParameters → List Element
block_elements pp =
    ue pp.log2_min_luma_coding_block_size_minus3
    ∷ ue pp.log2_diff_max_min_luma_coding_block_size
    ∷ ue pp.log2_min_transform_block_size_minus2
    ∷ ue pp.log2_diff_max_min_transform_block_size
    ∷ ue pp.max_transform_hierarchy_depth_inter
    ∷ ue pp.max_transform_hierarchy_depth_intra
    ∷ bit pp.scaling_list_enabled_flag
    ∷ (if pp.scaling_list_enabled_flag then u 0 1 ∷ [] else [])

unfoldable pub hevc_sps_elements : HevcParameters → ℕ → List Element
hevc_sps_elements pp profile_idc =
    write_nal_header 33
    ++ ((u 0 4 ∷ u 0 3 ∷ u 1 1 ∷ [])
        ++ (write_profile_tier_level profile_idc (derive_level_idc pp) pp.curr_pic.field_pic
            ++ (picture_elements pp
                ++ (block_elements pp
                    ++ ((bit pp.amp_enabled_flag
                          ∷ bit pp.sample_adaptive_offset_enabled_flag
                          ∷ bit pp.pcm_enabled_flag
                          ∷ pcm_elements pp)
                        ++ (ue 0
                            ∷ bit pp.long_term_ref_pics_present_flag
                            ∷ ((if pp.long_term_ref_pics_present_flag then ue 0 ∷ [] else [])
                                ++ (bit pp.sps_temporal_mvp_enabled_flag
                                    ∷ bit pp.strong_intra_smoothing_enabled_flag
                                    ∷ u 0 1
                                    ∷ u 0 1
                                    ∷ []))))))))

unfoldable pub write_sps : ℕ → HevcParameters → ℕ → Option (List ℕ)
write_sps buf_size pp profile_idc =
    finish_nal buf_size (raw_bytes 32768 (hevc_sps_elements pp profile_idc))

abbrev pub deblock_present : HevcParameters → Bool
deblock_present pp =
    pp.deblocking_filter_override_enabled_flag
    || (pp.pps_disable_deblocking_filter_flag
        || (not (pp.pps_beta_offset_div2 ==ℤ pos 0) || not (pp.pps_tc_offset_div2 ==ℤ pos 0)))

abbrev pub deblock_elements : HevcParameters → List Element
deblock_elements pp =
    bit (deblock_present pp)
    ∷ (if deblock_present pp
        then bit pp.deblocking_filter_override_enabled_flag
          ∷ bit pp.pps_disable_deblocking_filter_flag
          ∷ (if pp.pps_disable_deblocking_filter_flag
              then []
              else se pp.pps_beta_offset_div2 ∷ se pp.pps_tc_offset_div2 ∷ [])
        else [])

-- `bs_write_ue` for each of the sizes.
abbrev pub size_list : List ℕ → List Element
size_list [] = []
size_list (size ∷ sizes) = ue size ∷ size_list sizes

abbrev pub tile_elements : HevcParameters → List Element
tile_elements pp =
    if pp.tiles_enabled_flag
    then ue pp.num_tile_columns_minus1
      ∷ ue pp.num_tile_rows_minus1
      ∷ bit (tile_spacing_is_uniform pp)
      ∷ ((if tile_spacing_is_uniform pp then [] else size_list (columns pp) ++ size_list (rows pp))
          ++ (bit pp.loop_filter_across_tiles_enabled_flag ∷ []))
    else []

abbrev pub pps_front : HevcParameters → ℕ → List Element
pps_front pp pps_id =
    ue pps_id
    ∷ ue 0
    ∷ bit pp.dependent_slice_segments_enabled_flag
    ∷ bit pp.output_flag_present_flag
    ∷ u pp.num_extra_slice_header_bits 3
    ∷ bit pp.sign_data_hiding_enabled_flag
    ∷ bit pp.cabac_init_present_flag
    ∷ ue pp.num_ref_idx_l0_default_active_minus1
    ∷ ue pp.num_ref_idx_l1_default_active_minus1
    ∷ se pp.init_qp_minus26
    ∷ bit pp.constrained_intra_pred_flag
    ∷ bit pp.transform_skip_enabled_flag
    ∷ bit pp.cu_qp_delta_enabled_flag
    ∷ (if pp.cu_qp_delta_enabled_flag then ue pp.diff_cu_qp_delta_depth ∷ [] else [])

abbrev pub pps_middle : HevcParameters → List Element
pps_middle pp =
    se pp.pps_cb_qp_offset
    ∷ se pp.pps_cr_qp_offset
    ∷ bit pp.pps_slice_chroma_qp_offsets_present_flag
    ∷ bit pp.weighted_pred_flag
    ∷ bit pp.weighted_bipred_flag
    ∷ bit pp.transquant_bypass_enabled_flag
    ∷ bit pp.tiles_enabled_flag
    ∷ bit pp.entropy_coding_sync_enabled_flag
    ∷ []

-- The matrices, where they are enabled; `none` is the -1 of a zero DC value.
abbrev pub enabled_matrices : HevcParameters → Option HevcMatrix → Option (List Element)
enabled_matrices pp none = some []
enabled_matrices pp (some iq) =
    if pp.scaling_list_enabled_flag then matrices_elements iq else some []

unfoldable pub hevc_pps_elements : HevcParameters → Option HevcMatrix → ℕ → Option (List Element)
hevc_pps_elements pp iq pps_id = do
  matrices ← enabled_matrices pp iq
  some (
      write_nal_header 34
      ++ (pps_front pp pps_id
          ++ (pps_middle pp
              ++ (tile_elements pp
                  ++ ((bit pp.pps_loop_filter_across_slices_enabled_flag ∷ deblock_elements pp)
                      ++ ((bit pp.scaling_list_enabled_flag ∷ matrices)
                          ++ (bit pp.lists_modification_present_flag
                              ∷ ue pp.log2_parallel_merge_level_minus2
                              ∷ bit pp.slice_segment_header_extension_present_flag
                              ∷ u 0 1
                              ∷ [])))))))

unfoldable pub write_pps : ℕ → HevcParameters → Option HevcMatrix → ℕ → Option (List ℕ)
write_pps buf_size pp iq pps_id = do
  elements ← hevc_pps_elements pp iq pps_id
  finish_nal buf_size (raw_bytes 32768 elements)

unfoldable pub write_sequence_parameter_sets : ℕ → HevcParameters → ℕ → Option (List ℕ)
write_sequence_parameter_sets buf_size pp profile_idc = do
  vps ← write_vps buf_size pp profile_idc
  sps ← write_sps (buf_size - length vps) pp profile_idc
  require (leb (length vps + length sps) (2 ^ 31 - 1))
  some (vps ++ sps)

unfoldable pub rk_hevc_write_sequence_parameter_sets :
    ℕ → ℕ → HevcParameters → Option HevcMatrix → ℕ → Option (List ℕ)
rk_hevc_write_sequence_parameter_sets invalid_surface buf_size pp iq profile_idc = do
  rps ← validate_picture_parameters invalid_surface pp iq profile_idc
  write_sequence_parameter_sets buf_size pp profile_idc

unfoldable pub rk_hevc_write_parameter_sets :
    ℕ → ℕ → HevcParameters → Option HevcMatrix → ℕ → ℕ → Option (List ℕ)
rk_hevc_write_parameter_sets invalid_surface buf_size pp iq pps_id profile_idc = do
  require (leb pps_id 63)
  rps ← validate_picture_parameters invalid_surface pp iq profile_idc
  sets ← write_sequence_parameter_sets buf_size pp profile_idc
  pps ← write_pps (buf_size - length sets) pp iq pps_id
  require (leb (length sets) (2 ^ 31 - 1 - length pps))
  some (sets ++ pps)

unfoldable pub rk_hevc_write_picture_parameter_set :
    ℕ → ℕ → HevcParameters → Option HevcMatrix → ℕ → ℕ → Option (List ℕ)
rk_hevc_write_picture_parameter_set invalid_surface buf_size pp iq pps_id profile_idc = do
  require (leb pps_id 63)
  rps ← validate_picture_parameters invalid_surface pp iq profile_idc
  write_pps buf_size pp iq pps_id
