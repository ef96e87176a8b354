-- ===== src/Hevc/Validated.antt =====
-- What the checks of src/hevc.c say of picture parameters that pass them.
use rockchip_vaapi.Base.{
  ℕ, ◌+◌, ◌-◌, ◌≤◌, ◌<◌, ◌≡◌, ◌⊎◌, inl, inr, Bool, true, false, Option, some, List, [], ◌∷◌, arith,
  All,
}
use rockchip_vaapi.Base.Int.{ℤ, pos_part, neg_part}
use rockchip_vaapi.Hevc.Rps.{Rps, collect_rps}
use rockchip_vaapi.Hevc.Parameters.{HevcParameters, HevcMatrix}
use rockchip_vaapi.Hevc.Validate.{
  all_of, syntax_conditions, range_conditions, block_conditions, pcm_conditions, ctb_log2,
  is_some_matrix, validate_slice_syntax_bounds, ranges_hold, blocks_hold, pcm_holds,
  validate_picture_parameters,
}

all_of-All : (cs : List Bool) → all_of cs ≡ true → All (λ c. c ≡ true) cs
all_of-All [] e = tt
all_of-All (c ∷ cs) e = (ground (arith, e), all_of-All cs (ground (arith, e)))

-- The bounds that every writer and the slice rewriter rely on.
pub record SyntaxBounds (pp : HevcParameters) : Type 0 where
  pub width : 0 < pp.pic_width_in_luma_samples
  pub height : 0 < pp.pic_height_in_luma_samples
  pub min_cb : pp.log2_min_luma_coding_block_size_minus3 ≤ 3
  pub diff_cb : pp.log2_diff_max_min_luma_coding_block_size ≤ 3
  pub poc_lsb : pp.log2_max_pic_order_cnt_lsb_minus4 ≤ 12
  pub short_terms : pp.num_short_term_ref_pic_sets ≤ 64
  pub long_terms : pp.num_long_term_ref_pic_sps ≤ 32
  pub extra_bits : pp.num_extra_slice_header_bits ≤ 7
  pub ctb : ctb_log2 pp ≤ 6

pub validate_slice_syntax_bounds_lem :
    (invalid_surface : ℕ) (pp : HevcParameters)
    → validate_slice_syntax_bounds invalid_surface pp ≡ true
    → SyntaxBounds pp
unfolding validate_slice_syntax_bounds
validate_slice_syntax_bounds_lem invalid_surface pp e =
    let (_, (w, (h, (a, (b, (c, (d, (l, (x, (t, _)))))))))) =
      all_of-All (syntax_conditions invalid_surface pp) e in
    record {
      width = ground (arith, w);
      height = ground (arith, h);
      min_cb = ground (arith, a);
      diff_cb = ground (arith, b);
      poc_lsb = ground (arith, c);
      short_terms = ground (arith, d);
      long_terms = ground (arith, l);
      extra_bits = ground (arith, x);
      ctb = ground (arith, t);
    }

abbrev pub Between : ℤ → ℕ → ℕ → Type 0
Between z low high = (neg_part z ≤ low) × (pos_part z ≤ high)

pub record Ranges (pp : HevcParameters) (iq : Option HevcMatrix) (profile_idc : ℕ) : Type 0 where
  pub profile : (profile_idc ≡ 1) ⊎ (profile_idc ≡ 2)
  pub chroma : pp.chroma_format_idc ≡ 1
  pub buffering : pp.sps_max_dec_pic_buffering_minus1 ≤ 15
  pub same_depth : pp.bit_depth_luma_minus8 ≡ pp.bit_depth_chroma_minus8
  pub depth : pp.bit_depth_luma_minus8 ≤ 2
  pub transform : pp.log2_min_transform_block_size_minus2 ≤ 3
  pub diff_transform : pp.log2_diff_max_min_transform_block_size ≤ 3
  pub l0 : pp.num_ref_idx_l0_default_active_minus1 ≤ 14
  pub l1 : pp.num_ref_idx_l1_default_active_minus1 ≤ 14
  pub cb_qp : Between pp.pps_cb_qp_offset 12 12
  pub cr_qp : Between pp.pps_cr_qp_offset 12 12
  pub beta : Between pp.pps_beta_offset_div2 6 6
  pub tc : Between pp.pps_tc_offset_div2 6 6
  pub tile_columns : pp.num_tile_columns_minus1 ≤ 19
  pub tile_rows : pp.num_tile_rows_minus1 ≤ 21
  pub matrix : (pp.scaling_list_enabled_flag ≡ false) ⊎ (is_some_matrix iq ≡ true)
  pub init_qp : Between pp.init_qp_minus26 38 25

ranges_hold_lem :
    (pp : HevcParameters) (iq : Option HevcMatrix) (profile_idc : ℕ)
    → ranges_hold pp iq profile_idc ≡ true
    → Ranges pp iq profile_idc
unfolding ranges_hold
ranges_hold_lem pp iq profile_idc e =
    let (
      p,
      (
        c,
        (
          _,
          (
            b,
            (
              d,
              (d1, (d2, (t, (t', (a0, (a1, (cb, (cr, (be, (tc, (co, (ro, (m, (qp, _)))))))))))))),
            ),
          ),
        ),
      ),
    ) =
      all_of-All (range_conditions pp iq profile_idc) e in
    record {
      profile = ground (arith, p);
      chroma = ground (arith, c);
      buffering = ground (arith, b);
      same_depth = ground (arith, d);
      depth = ground (arith, p, d1, d2);
      transform = ground (arith, t);
      diff_transform = ground (arith, t');
      l0 = ground (arith, a0);
      l1 = ground (arith, a1);
      cb_qp = ground (arith, cb);
      cr_qp = ground (arith, cr);
      beta = ground (arith, be);
      tc = ground (arith, tc);
      tile_columns = ground (arith, co);
      tile_rows = ground (arith, ro);
      matrix = ground (arith, m);
      init_qp = ground (arith, p, d1, d2, qp);
    }

pub record Blocks (pp : HevcParameters) : Type 0 where
  pub merge_level : pp.log2_parallel_merge_level_minus2 ≤ ctb_log2 pp - 2
  pub qp_depth :
      (pp.cu_qp_delta_enabled_flag ≡ false)
      ⊎ (pp.diff_cu_qp_delta_depth ≤ pp.log2_diff_max_min_luma_coding_block_size)

blocks_hold_lem : (pp : HevcParameters) → blocks_hold pp ≡ true → Blocks pp
unfolding blocks_hold
blocks_hold_lem pp e =
    let (_, (_, (m, (q, _)))) = all_of-All (block_conditions pp) e in
    record { merge_level = ground (arith, m); qp_depth = ground (arith, q) }

pub record Pcm (pp : HevcParameters) : Type 0 where
  pub luma : pp.pcm_sample_bit_depth_luma_minus1 ≤ 15
  pub chroma : pp.pcm_sample_bit_depth_chroma_minus1 ≤ 15
  pub min_size : pp.log2_min_pcm_luma_coding_block_size_minus3 ≤ 2
  pub diff_size :
      pp.log2_min_pcm_luma_coding_block_size_minus3
        + pp.log2_diff_max_min_pcm_luma_coding_block_size
      ≤ ctb_log2 pp - 3

pcm_holds_lem : (pp : HevcParameters) → pcm_holds pp ≡ true → Pcm pp
unfolding pcm_holds
pcm_holds_lem pp e =
    let (a, (b, (c, (d, _)))) = all_of-All (pcm_conditions pp) e in
    record {
      luma = ground (arith, a);
      chroma = ground (arith, b);
      min_size = ground (arith, c);
      diff_size = ground (arith, d);
    }

-- All that a successful validation says of the fields that the writers code.
pub record IsValidated (pp : HevcParameters) (iq : Option HevcMatrix) (profile_idc : ℕ)
    : Type 0 where
  pub syntax : SyntaxBounds pp
  pub ranges : Ranges pp iq profile_idc
  pub blocks : Blocks pp
  pub pcm : (pp.pcm_enabled_flag ≡ false) ⊎ Pcm pp

-- Where the validation passes and gives a reference picture set, the fields are within the bounds that
-- the writers and the slice parser rely on, the PCM fields where PCM is on, and the set is the one
-- that `collect_rps` gives.
pub validate_picture_parameters_lem :
    (invalid_surface : ℕ) (pp : HevcParameters) (iq : Option HevcMatrix) (profile_idc : ℕ)
    (rps : Rps)
    → validate_picture_parameters invalid_surface pp iq profile_idc ≡ some rps
    → IsValidated pp iq profile_idc
      × (collect_rps invalid_surface pp.curr_pic.pic_order_cnt pp.reference_frames ≡ some rps)
unfolding validate_picture_parameters
validate_picture_parameters_lem invalid_surface pp iq profile_idc rps e =
    let syntax : validate_slice_syntax_bounds invalid_surface pp ≡ true = ground (arith, e) in
    let ranges : ranges_hold pp iq profile_idc ≡ true = ground (arith, e) in
    let blocks : blocks_hold pp ≡ true = ground (arith, e) in
    let pcm : (pp.pcm_enabled_flag ≡ false) ⊎ (pcm_holds pp ≡ true) = ground (arith, e) in
    (
      record {
        syntax = validate_slice_syntax_bounds_lem invalid_surface pp syntax;
        ranges = ranges_hold_lem pp iq profile_idc ranges;
        blocks = blocks_hold_lem pp blocks;
        pcm = elim pcm [ inl off ↦ inl off | inr holds ↦ inr (pcm_holds_lem pp holds) ];
      },
      ground (arith, e),
    )
