-- ===== src/Hevc/PpsSyntax.antt =====
-- The picture parameter set of 7.3.2.3, as a decoder reads what src/hevc.c writes.
use rockchip_vaapi.Base.{
  ℕ, zero, suc, ◌+◌, Bool, ◌&&◌, Option, none, some, List, [], ◌∷◌, ◌==◌, if◌then◌else◌, to_bit,
  take,
}
use rockchip_vaapi.Base.Int.{ℤ, pos}
use rockchip_vaapi.Bitstream.Decoder.{Decoder, give, refuse, bits, golomb, signed}
use rockchip_vaapi.Hevc.Parameters.{HevcParameters, HevcMatrix}
use rockchip_vaapi.Hevc.Validate.{tile_spacing_is_uniform}
use rockchip_vaapi.Hevc.Syntax.{NalHeader, header_syntax, header_of}
use rockchip_vaapi.Hevc.Matrices.Syntax.{ListSyntax, scaling_list_data, lists_of}

pub record FrontSyntax : Type 0 where
  pub pps_pic_parameter_set_id : ℕ
  pub pps_seq_parameter_set_id : ℕ
  pub dependent_slice_segments_enabled_flag : ℕ
  pub output_flag_present_flag : ℕ
  pub num_extra_slice_header_bits : ℕ
  pub sign_data_hiding_enabled_flag : ℕ
  pub cabac_init_present_flag : ℕ
  pub num_ref_idx_l0_default_active : ℕ
  pub num_ref_idx_l1_default_active : ℕ
  pub init_qp_minus26 : ℤ
  pub constrained_intra_pred_flag : ℕ
  pub transform_skip_enabled_flag : ℕ
  pub cu_qp_delta_enabled_flag : ℕ
  pub diff_cu_qp_delta_depth : ℕ

pub record MiddleSyntax : Type 0 where
  pub pps_cb_qp_offset : ℤ
  pub pps_cr_qp_offset : ℤ
  pub pps_slice_chroma_qp_offsets_present_flag : ℕ
  pub weighted_pred_flag : ℕ
  pub weighted_bipred_flag : ℕ
  pub transquant_bypass_enabled_flag : ℕ
  pub entropy_coding_sync_enabled_flag : ℕ

-- The sizes are given where the spacing is not uniform.
pub record TileSyntax : Type 0 where
  pub num_tile_columns : ℕ
  pub num_tile_rows : ℕ
  pub explicit : Option (List ℕ × List ℕ)
  pub loop_filter_across_tiles_enabled_flag : ℕ

pub record DeblockSyntax : Type 0 where
  pub deblocking_filter_override_enabled_flag : ℕ
  pub pps_deblocking_filter_disabled_flag : ℕ
  pub pps_beta_offset_div2 : ℤ
  pub pps_tc_offset_div2 : ℤ

pub record PpsSyntax : Type 0 where
  pub header : NalHeader
  pub front : FrontSyntax
  pub middle : MiddleSyntax
  pub tiles : Option TileSyntax
  pub pps_loop_filter_across_slices_enabled_flag : ℕ
  pub deblocking : DeblockSyntax
  pub scaling_lists : Option (List ListSyntax)
  pub lists_modification_present_flag : ℕ
  pub log2_parallel_merge_level : ℕ
  pub slice_segment_header_extension_present_flag : ℕ

abbrev depth_syntax : ℕ → (ℕ → Decoder PpsSyntax) → Decoder PpsSyntax
depth_syntax enabled next = if enabled == 1 then golomb next else next 0

unfoldable pub front_syntax : (FrontSyntax → Decoder PpsSyntax) → Decoder PpsSyntax
front_syntax next = golomb (λ id. golomb (λ sps_id. bits 1 (λ dependent. bits 1 (λ output.
    bits 3 (λ extra. bits 1 (λ sign. bits 1 (λ cabac. golomb (λ l0. golomb (λ l1. signed (λ qp.
      bits 1 (λ constrained. bits 1 (λ skip. bits 1 (λ cu_qp_delta.
        depth_syntax cu_qp_delta (λ depth. next (record {
          pps_pic_parameter_set_id = id;
          pps_seq_parameter_set_id = sps_id;
          dependent_slice_segments_enabled_flag = dependent;
          output_flag_present_flag = output;
          num_extra_slice_header_bits = extra;
          sign_data_hiding_enabled_flag = sign;
          cabac_init_present_flag = cabac;
          num_ref_idx_l0_default_active = l0 + 1;
          num_ref_idx_l1_default_active = l1 + 1;
          init_qp_minus26 = qp;
          constrained_intra_pred_flag = constrained;
          transform_skip_enabled_flag = skip;
          cu_qp_delta_enabled_flag = cu_qp_delta;
          diff_cu_qp_delta_depth = depth;
        })))))))))))))))

unfoldable pub sizes_syntax : {A : Type 0} → ℕ → (List ℕ → Decoder A) → Decoder A
sizes_syntax zero next = next []
sizes_syntax (suc count) next = golomb (λ size. sizes_syntax count (λ sizes. next (size ∷ sizes)))

abbrev spacing_syntax :
    ℕ → ℕ → ℕ → (Option (List ℕ × List ℕ) → Decoder PpsSyntax) → Decoder PpsSyntax
spacing_syntax uniform columns_minus1 rows_minus1 next =
    if uniform == 1
    then next none
    else sizes_syntax columns_minus1
        (λ columns. sizes_syntax rows_minus1 (λ rows. next (some (columns, rows))))

unfoldable pub tile_syntax : ℕ → (Option TileSyntax → Decoder PpsSyntax) → Decoder PpsSyntax
tile_syntax enabled next =
    if enabled == 1
    then golomb (λ columns_minus1. golomb (λ rows_minus1. bits 1 (λ uniform_spacing_flag.
      spacing_syntax uniform_spacing_flag columns_minus1 rows_minus1 (λ explicit. bits 1 (λ filter.
        next (
          some (record {
            num_tile_columns = columns_minus1 + 1;
            num_tile_rows = rows_minus1 + 1;
            explicit = explicit;
            loop_filter_across_tiles_enabled_flag = filter;
          })))))))
    else next none

unfoldable pub middle_syntax :
    (MiddleSyntax → Option TileSyntax → Decoder PpsSyntax) → Decoder PpsSyntax
middle_syntax next = signed (λ cb. signed (λ cr. bits 1 (λ slice_offsets. bits 1 (λ weighted.
    bits 1 (λ bipred. bits 1 (λ bypass. bits 1 (λ tiles_enabled_flag. bits 1 (λ sync.
      tile_syntax tiles_enabled_flag (λ tiles.
        next
          (record {
            pps_cb_qp_offset = cb;
            pps_cr_qp_offset = cr;
            pps_slice_chroma_qp_offsets_present_flag = slice_offsets;
            weighted_pred_flag = weighted;
            weighted_bipred_flag = bipred;
            transquant_bypass_enabled_flag = bypass;
            entropy_coding_sync_enabled_flag = sync;
          })
          tiles)))))))))

abbrev offsets_syntax : ℕ → (ℤ → ℤ → Decoder PpsSyntax) → Decoder PpsSyntax
offsets_syntax disabled next =
    if disabled == 1 then next (pos 0) (pos 0) else signed (λ beta. signed (λ tc. next beta tc))

-- Absent fields are 0.
unfoldable pub deblock_syntax : (DeblockSyntax → Decoder PpsSyntax) → Decoder PpsSyntax
deblock_syntax next = bits 1 (λ deblocking_filter_control_present_flag.
    if deblocking_filter_control_present_flag == 1
    then bits 1 (λ override. bits 1 (λ disabled. offsets_syntax disabled (λ beta tc. next (record {
      deblocking_filter_override_enabled_flag = override;
      pps_deblocking_filter_disabled_flag = disabled;
      pps_beta_offset_div2 = beta;
      pps_tc_offset_div2 = tc;
    }))))
    else next (record {
      deblocking_filter_override_enabled_flag = 0;
      pps_deblocking_filter_disabled_flag = 0;
      pps_beta_offset_div2 = pos 0;
      pps_tc_offset_div2 = pos 0;
    }))

unfoldable pub matrix_syntax : (Option (List ListSyntax) → Decoder PpsSyntax) → Decoder PpsSyntax
matrix_syntax next = bits 1 (λ pps_scaling_list_data_present_flag.
    if pps_scaling_list_data_present_flag == 1
    then scaling_list_data (λ lists. next (some lists))
    else next none)

-- The fields behind the matrices.
abbrev pub end_syntax :
    FrontSyntax
    → MiddleSyntax
    → Option TileSyntax
    → ℕ
    → DeblockSyntax
    → Option (List ListSyntax)
    → Decoder PpsSyntax
end_syntax front middle tiles across deblocking lists = bits 1 (λ modification. golomb (λ merge.
    bits 1 (λ extension. bits 1 (λ pps_extension_flag.
      if pps_extension_flag == 1
      then refuse
      else give (record {
        header = header_of 34;
        front = front;
        middle = middle;
        tiles = tiles;
        pps_loop_filter_across_slices_enabled_flag = across;
        deblocking = deblocking;
        scaling_lists = lists;
        lists_modification_present_flag = modification;
        log2_parallel_merge_level = merge + 2;
        slice_segment_header_extension_present_flag = extension;
      })))))

-- The header has to be that of a PPS.
abbrev is_header : NalHeader → Bool
is_header header =
    header.forbidden_zero_bit == 0
    && (header.nal_unit_type == 34 && (header.nuh_layer_id == 0 && header.temporal_id == 0))

abbrev pub pps_syntax : Decoder PpsSyntax
pps_syntax = header_syntax (λ header.
    if is_header header
    then front_syntax (λ front. middle_syntax (λ middle tiles. bits 1 (λ across.
      deblock_syntax (λ deblocking.
        matrix_syntax (λ lists. end_syntax front middle tiles across deblocking lists)))))
    else refuse)

-- What the parameters say.
abbrev pub front_of : HevcParameters → ℕ → FrontSyntax
front_of pp pps_id = record {
  pps_pic_parameter_set_id = pps_id;
  pps_seq_parameter_set_id = 0;
  dependent_slice_segments_enabled_flag = to_bit pp.dependent_slice_segments_enabled_flag;
  output_flag_present_flag = to_bit pp.output_flag_present_flag;
  num_extra_slice_header_bits = pp.num_extra_slice_header_bits;
  sign_data_hiding_enabled_flag = to_bit pp.sign_data_hiding_enabled_flag;
  cabac_init_present_flag = to_bit pp.cabac_init_present_flag;
  num_ref_idx_l0_default_active = pp.num_ref_idx_l0_default_active_minus1 + 1;
  num_ref_idx_l1_default_active = pp.num_ref_idx_l1_default_active_minus1 + 1;
  init_qp_minus26 = pp.init_qp_minus26;
  constrained_intra_pred_flag = to_bit pp.constrained_intra_pred_flag;
  transform_skip_enabled_flag = to_bit pp.transform_skip_enabled_flag;
  cu_qp_delta_enabled_flag = to_bit pp.cu_qp_delta_enabled_flag;
  diff_cu_qp_delta_depth = if pp.cu_qp_delta_enabled_flag then pp.diff_cu_qp_delta_depth else 0;
}

abbrev pub middle_of : HevcParameters → MiddleSyntax
middle_of pp = record {
  pps_cb_qp_offset = pp.pps_cb_qp_offset;
  pps_cr_qp_offset = pp.pps_cr_qp_offset;
  pps_slice_chroma_qp_offsets_present_flag = to_bit pp.pps_slice_chroma_qp_offsets_present_flag;
  weighted_pred_flag = to_bit pp.weighted_pred_flag;
  weighted_bipred_flag = to_bit pp.weighted_bipred_flag;
  transquant_bypass_enabled_flag = to_bit pp.transquant_bypass_enabled_flag;
  entropy_coding_sync_enabled_flag = to_bit pp.entropy_coding_sync_enabled_flag;
}

abbrev pub tiles_of : HevcParameters → Option TileSyntax
tiles_of pp =
    if pp.tiles_enabled_flag
    then some (record {
      num_tile_columns = pp.num_tile_columns_minus1 + 1;
      num_tile_rows = pp.num_tile_rows_minus1 + 1;
      explicit =
          if tile_spacing_is_uniform pp
          then none
          else some (
            take pp.num_tile_columns_minus1 pp.column_width_minus1,
            take pp.num_tile_rows_minus1 pp.row_height_minus1,
          );
      loop_filter_across_tiles_enabled_flag = to_bit pp.loop_filter_across_tiles_enabled_flag;
    })
    else none

-- The offsets do not matter where the filter is off.
abbrev pub deblock_of : HevcParameters → DeblockSyntax
deblock_of pp = record {
  deblocking_filter_override_enabled_flag = to_bit pp.deblocking_filter_override_enabled_flag;
  pps_deblocking_filter_disabled_flag = to_bit pp.pps_disable_deblocking_filter_flag;
  pps_beta_offset_div2 =
      if pp.pps_disable_deblocking_filter_flag then pos 0 else pp.pps_beta_offset_div2;
  pps_tc_offset_div2 =
      if pp.pps_disable_deblocking_filter_flag then pos 0 else pp.pps_tc_offset_div2;
}

abbrev pub matrices_of : HevcParameters → Option HevcMatrix → Option (List ListSyntax)
matrices_of pp none = none
matrices_of pp (some iq) = if pp.scaling_list_enabled_flag then some (lists_of iq) else none

abbrev pub pps_of : HevcParameters → Option HevcMatrix → ℕ → PpsSyntax
pps_of pp iq pps_id = record {
  header = header_of 34;
  front = front_of pp pps_id;
  middle = middle_of pp;
  tiles = tiles_of pp;
  pps_loop_filter_across_slices_enabled_flag = to_bit pp.pps_loop_filter_across_slices_enabled_flag;
  deblocking = deblock_of pp;
  scaling_lists = matrices_of pp iq;
  lists_modification_present_flag = to_bit pp.lists_modification_present_flag;
  log2_parallel_merge_level = pp.log2_parallel_merge_level_minus2 + 2;
  slice_segment_header_extension_present_flag =
      to_bit pp.slice_segment_header_extension_present_flag;
}
