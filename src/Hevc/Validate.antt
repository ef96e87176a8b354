-- ===== src/Hevc/Validate.antt =====
-- src/hevc.c: the checks on the picture parameters (`validate_slice_syntax_bounds`,
-- `validate_picture_parameters`) and the test for uniform tiles. A list of conditions stands for an
-- `||` of their negations, which refuses.
pub mod Tiles
use rockchip_vaapi.Base.{
  ℕ, zero, suc, ◌+◌, ◌-◌, ◌*◌, ◌/◌, ◌%◌, ◌^◌, Bool, true, false, not, ◌&&◌, ◌||◌, Option, none,
  some, List, [], ◌∷◌, ltb, leb, ◌==◌, if◌then◌else◌, get_or, take, require, ◌>>=◌, ◌>>◌,
}
use rockchip_vaapi.Base.Int.{ℤ, pos_part, neg_part}
use rockchip_vaapi.Hevc.Rps.{Picture, Rps, valid_picture, collect_rps}
use rockchip_vaapi.Hevc.Parameters.{HevcParameters, HevcMatrix}

abbrev pub all_of : List Bool → Bool
all_of [] = true
all_of (c ∷ cs) = c && all_of cs

abbrev pub min_cb_log2 : HevcParameters → ℕ
min_cb_log2 pp = pp.log2_min_luma_coding_block_size_minus3 + 3

abbrev pub ctb_log2 : HevcParameters → ℕ
ctb_log2 pp = min_cb_log2 pp + pp.log2_diff_max_min_luma_coding_block_size

-- `1u << ctb_log2`, which every caller bounds by 6.
abbrev pub hevc_ctb_size : HevcParameters → ℕ
hevc_ctb_size pp = 2 ^ ctb_log2 pp

abbrev pub width_ctbs : HevcParameters → ℕ
width_ctbs pp = (pp.pic_width_in_luma_samples + hevc_ctb_size pp - 1) / hevc_ctb_size pp

abbrev pub height_ctbs : HevcParameters → ℕ
height_ctbs pp = (pp.pic_height_in_luma_samples + hevc_ctb_size pp - 1) / hevc_ctb_size pp

-- One of the two loops: the sizes from number `i` on, of `ctbs` blocks in `parts` parts.
pub spacing_loop : List ℕ → ℕ → ℕ → ℕ → Bool
spacing_loop [] i ctbs parts = true
spacing_loop (size ∷ sizes) i ctbs parts =
    let start = i * ctbs / parts in
    let end = (i + 1) * ctbs / parts in
    let rest = spacing_loop sizes (i + 1) ctbs parts in
    if leb end start || not (size == end - start - 1) then false else rest

-- The entries that the loops visit.
abbrev pub columns : HevcParameters → List ℕ
columns pp = take pp.num_tile_columns_minus1 pp.column_width_minus1

abbrev pub rows : HevcParameters → List ℕ
rows pp = take pp.num_tile_rows_minus1 pp.row_height_minus1

unfoldable pub tile_spacing_is_uniform : HevcParameters → Bool
unfolding spacing_loop
tile_spacing_is_uniform pp =
    spacing_loop (columns pp) 0 (width_ctbs pp) (pp.num_tile_columns_minus1 + 1)
    && spacing_loop (rows pp) 0 (height_ctbs pp) (pp.num_tile_rows_minus1 + 1)

abbrev pub syntax_conditions : ℕ → HevcParameters → List Bool
syntax_conditions invalid_surface pp =
    valid_picture invalid_surface pp.curr_pic
    ∷ ltb 0 pp.pic_width_in_luma_samples
    ∷ ltb 0 pp.pic_height_in_luma_samples
    ∷ leb pp.log2_min_luma_coding_block_size_minus3 3
    ∷ leb pp.log2_diff_max_min_luma_coding_block_size 3
    ∷ leb pp.log2_max_pic_order_cnt_lsb_minus4 12
    ∷ leb pp.num_short_term_ref_pic_sets 64
    ∷ leb pp.num_long_term_ref_pic_sps 32
    ∷ leb pp.num_extra_slice_header_bits 7
    ∷ leb (ctb_log2 pp) 6
    ∷ []

unfoldable pub validate_slice_syntax_bounds : ℕ → HevcParameters → Bool
validate_slice_syntax_bounds invalid_surface pp = all_of (syntax_conditions invalid_surface pp)

abbrev pub within : ℤ → ℕ → ℕ → Bool
within z low high = leb (neg_part z) low && leb (pos_part z) high

abbrev pub is_some_matrix : Option HevcMatrix → Bool
is_some_matrix none = false
is_some_matrix (some iq) = true

-- The first test, behind the bounds of the slice syntax.
abbrev pub range_conditions : HevcParameters → Option HevcMatrix → ℕ → List Bool
range_conditions pp iq profile_idc =
    (profile_idc == 1 || profile_idc == 2)
    ∷ (pp.chroma_format_idc == 1)
    ∷ not pp.separate_colour_plane_flag
    ∷ leb pp.sps_max_dec_pic_buffering_minus1 15
    ∷ (pp.bit_depth_luma_minus8 == pp.bit_depth_chroma_minus8)
    ∷ not (profile_idc == 1 && not (pp.bit_depth_luma_minus8 == 0))
    ∷ not (profile_idc == 2 && ltb 2 pp.bit_depth_luma_minus8)
    ∷ leb pp.log2_min_transform_block_size_minus2 3
    ∷ leb pp.log2_diff_max_min_transform_block_size 3
    ∷ leb pp.num_ref_idx_l0_default_active_minus1 14
    ∷ leb pp.num_ref_idx_l1_default_active_minus1 14
    ∷ within pp.pps_cb_qp_offset 12 12
    ∷ within pp.pps_cr_qp_offset 12 12
    ∷ within pp.pps_beta_offset_div2 6 6
    ∷ within pp.pps_tc_offset_div2 6 6
    ∷ leb pp.num_tile_columns_minus1 19
    ∷ leb pp.num_tile_rows_minus1 21
    ∷ not (pp.scaling_list_enabled_flag && not (is_some_matrix iq))
    ∷ within pp.init_qp_minus26 (26 + 6 * pp.bit_depth_luma_minus8) 25
    ∷ []

unfoldable pub ranges_hold : HevcParameters → Option HevcMatrix → ℕ → Bool
ranges_hold pp iq profile_idc = all_of (range_conditions pp iq profile_idc)

abbrev pub block_conditions : HevcParameters → List Bool
block_conditions pp =
    (pp.pic_width_in_luma_samples % 2 ^ min_cb_log2 pp == 0)
    ∷ (pp.pic_height_in_luma_samples % 2 ^ min_cb_log2 pp == 0)
    ∷ leb pp.log2_parallel_merge_level_minus2 (ctb_log2 pp - 2)
    ∷ not (
        pp.cu_qp_delta_enabled_flag
        && ltb pp.log2_diff_max_min_luma_coding_block_size pp.diff_cu_qp_delta_depth)
    ∷ []

unfoldable pub blocks_hold : HevcParameters → Bool
blocks_hold pp = all_of (block_conditions pp)

abbrev pub pcm_conditions : HevcParameters → List Bool
pcm_conditions pp =
    leb pp.pcm_sample_bit_depth_luma_minus1 15
    ∷ leb pp.pcm_sample_bit_depth_chroma_minus1 15
    ∷ leb pp.log2_min_pcm_luma_coding_block_size_minus3 2
    ∷ leb
        (pp.log2_min_pcm_luma_coding_block_size_minus3
          + pp.log2_diff_max_min_pcm_luma_coding_block_size)
        (ctb_log2 pp - 3)
    ∷ []

unfoldable pub pcm_holds : HevcParameters → Bool
pcm_holds pp = all_of (pcm_conditions pp)

-- `explicit_width` or `explicit_height`.
abbrev pub explicit_size : List ℕ → ℕ
explicit_size [] = 0
explicit_size (size ∷ sizes) = size + 1 + explicit_size sizes

abbrev pub tile_conditions : HevcParameters → List Bool
tile_conditions pp =
    leb (pp.num_tile_columns_minus1 + 1) (width_ctbs pp)
    ∷ leb (pp.num_tile_rows_minus1 + 1) (height_ctbs pp)
    ∷ ltb (explicit_size (columns pp)) (width_ctbs pp)
    ∷ ltb (explicit_size (rows pp)) (height_ctbs pp)
    ∷ []

unfoldable pub tiles_hold : HevcParameters → Bool
tiles_hold pp = all_of (tile_conditions pp)

-- `if (flag && test) return false;` with the test negated.
abbrev pub guarded : Bool → Bool → Bool
guarded flag holds = if flag then holds else true

-- Gives the reference picture set that it collects.
unfoldable pub validate_picture_parameters : ℕ → HevcParameters → Option HevcMatrix → ℕ → Option Rps
validate_picture_parameters invalid_surface pp iq profile_idc = do
  require (validate_slice_syntax_bounds invalid_surface pp)
  require (ranges_hold pp iq profile_idc)
  require (blocks_hold pp)
  require (guarded pp.pcm_enabled_flag (pcm_holds pp))
  require (guarded pp.tiles_enabled_flag (tiles_hold pp))
  collect_rps invalid_surface pp.curr_pic.pic_order_cnt pp.reference_frames
