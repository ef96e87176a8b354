-- ===== src/Hevc/Writers/Pictures.antt =====
-- The elements of the PPS of src/hevc.c: their values and the bits that they take.
use rockchip_vaapi.Base.{
  ℕ, ◌*◌, ◌^◌, ◌≤◌, ◌<◌, ◌≡◌, inl, inr, refl, Bool, true, Option, none, some, List, [], ◌∷◌, ◌++◌,
  arith, if◌then◌else◌, Bool-cases, All, length, length-take, take-All,
}
use rockchip_vaapi.Bitstream.Golomb.{unsigned_of-le}
use rockchip_vaapi.Bitstream.Elements.{Element, u, ue, AllFit}
use rockchip_vaapi.Bitstream.Sized.{Within, few-Within, Within-append, Within-le}
use rockchip_vaapi.Hevc.Parameters.{HevcParameters, HevcMatrix}
use rockchip_vaapi.Hevc.Validate.{columns, rows, tile_spacing_is_uniform, is_some_matrix}
use rockchip_vaapi.Hevc.Validated.{IsValidated}
use rockchip_vaapi.Hevc.Matrices.Coded.{MatrixFits, matrices_elements-Within}
use rockchip_vaapi.Hevc.Writers.{
  bit, write_nal_header, deblock_elements, size_list, tile_elements, pps_front, pps_middle,
  enabled_matrices, hevc_pps_elements,
}
use rockchip_vaapi.Hevc.Writers.Headers.{WidthsFit, write_nal_header-Within}

size_list-Within :
    (sizes : List ℕ) (n : ℕ)
    → All (λ size. size < 2 ^ 16) sizes
    → length sizes ≤ n
    → Within (size_list sizes) (61 * n)
size_list-Within sizes n a le =
    few-Within (size_list sizes) n (fits sizes a) (omega (arith, count sizes))
  where
    fits : (sizes : List ℕ) → All (λ size. size < 2 ^ 16) sizes → AllFit (size_list sizes)
    fits [] a = tt
    fits (size ∷ sizes) (lt, a) = (omega arith, fits sizes a)

    count : (sizes : List ℕ) → length (size_list sizes) ≡ length sizes
    count [] = refl
    count (size ∷ sizes) = omega (arith, count sizes)

bit-Within : (b : Bool) → Within (bit b ∷ []) 61
bit-Within b = few-Within (bit b ∷ []) 1 (ground arith) (omega arith)

-- The matrices that a PPS needs, where scaling lists are enabled.
abbrev pub MatricesFit : Option HevcMatrix → Type 0
MatricesFit none = Unit
MatricesFit (some iq) = MatrixFits iq

module _ (pp : HevcParameters) (w : WidthsFit pp) (iq : Option HevcMatrix) (profile_idc : ℕ)
    (v : IsValidated pp iq profile_idc) where
  pps_front-Within : (pps_id : ℕ) → pps_id ≤ 63 → Within (pps_front pp pps_id) 854
  pps_front-Within pps_id le =
      let qp = unsigned_of-le pp.init_qp_minus26 in
      few-Within (pps_front pp pps_id) 14
        (ground (
          arith, v.syntax.extra_bits, v.syntax.diff_cb, v.ranges.l0, v.ranges.l1, v.ranges.init_qp,
          qp, v.blocks.qp_depth, le,
        ))
        (ground arith)

  pps_middle-Within : Within (pps_middle pp) 488
  pps_middle-Within =
      few-Within (pps_middle pp) 8
        (ground (
          arith,
          v.ranges.cb_qp,
          v.ranges.cr_qp,
          unsigned_of-le pp.pps_cb_qp_offset,
          unsigned_of-le pp.pps_cr_qp_offset,
        ))
        (omega arith)

  deblock_elements-Within : Within (deblock_elements pp) 305
  deblock_elements-Within =
      few-Within (deblock_elements pp) 5
        (ground (
          arith,
          v.ranges.beta,
          v.ranges.tc,
          unsigned_of-le pp.pps_beta_offset_div2,
          unsigned_of-le pp.pps_tc_offset_div2,
        ))
        (ground arith)

  sizes_lem : Within (size_list (columns pp) ++ size_list (rows pp)) 2440
  sizes_lem =
      Within-append (size_list (columns pp)) (size_list (rows pp)) 1159 1281
        (size_list-Within (columns pp) 19
          (take-All (λ size. size < 2 ^ 16) pp.num_tile_columns_minus1 pp.column_width_minus1
            w.columns)
          (omega (
            arith,
            length-take pp.num_tile_columns_minus1 pp.column_width_minus1,
            v.ranges.tile_columns,
          )))
        (size_list-Within (rows pp) 21
          (take-All (λ size. size < 2 ^ 16) pp.num_tile_rows_minus1 pp.row_height_minus1 w.rows)
          (omega
            (arith, length-take pp.num_tile_rows_minus1 pp.row_height_minus1, v.ranges.tile_rows)))

  tile_elements-Within : Within (tile_elements pp) 2684
  unfolding tile_spacing_is_uniform
  tile_elements-Within = elim (Bool-cases pp.tiles_enabled_flag) [
    | inr off ↦ rw off (record { fits = tt; bits = omega arith })
    | inl on ↦
        let front : List Element =
          ue pp.num_tile_columns_minus1
          ∷ ue pp.num_tile_rows_minus1
          ∷ bit (tile_spacing_is_uniform pp)
          ∷ [] in
        let back : List Element = bit pp.loop_filter_across_tiles_enabled_flag ∷ [] in
        let sizes : Within
            (if tile_spacing_is_uniform pp
              then []
              else size_list (columns pp) ++ size_list (rows pp))
            2440 =
          elim (Bool-cases (tile_spacing_is_uniform pp)) [
            | inl e ↦ rw e (record { fits = tt; bits = omega arith })
            | inr e ↦ rw e sizes_lem
          ] in
        rw on (
          Within-append front _ 183 2501
            (few-Within front 3 (ground (arith, v.ranges.tile_columns, v.ranges.tile_rows))
              (omega arith))
            (Within-append _ back 2440 61 sizes (few-Within back 1 (ground arith) (omega arith))))
  ]

  enabled_matrices-Within :
      MatricesFit iq → (es : List Element) × (enabled_matrices pp iq ≡ some es) × Within es 24200
  enabled_matrices-Within m = elim (Bool-cases pp.scaling_list_enabled_flag) [
    | inr off ↦ ([], ground (arith, off), record { fits = tt; bits = omega arith })
    | inl on ↦ present iq m (ground (arith, v.ranges.matrix, on)) on
  ]
    where
      present :
          (iq : Option HevcMatrix)
          → MatricesFit iq
          → is_some_matrix iq ≡ true
          → pp.scaling_list_enabled_flag ≡ true
          → (es : List Element) × (enabled_matrices pp iq ≡ some es) × Within es 24200
      present none m e on = absurd (cc e)
      present (some iq) m e on =
          let (es, made, within) = matrices_elements-Within iq m in (es, rw on made, within)

  pub hevc_pps_elements-Within :
      (pps_id : ℕ)
      → pps_id ≤ 63
      → MatricesFit iq
      → (es : List Element) × (hevc_pps_elements pp iq pps_id ≡ some es) × Within es 30000
  unfolding hevc_pps_elements
  hevc_pps_elements-Within pps_id le m =
      let (matrices, e, within) = enabled_matrices-Within m in
      let filter : List Element =
        bit pp.pps_loop_filter_across_slices_enabled_flag ∷ deblock_elements pp in
      let scaling : List Element = bit pp.scaling_list_enabled_flag ∷ matrices in
      let back : List Element =
        bit pp.lists_modification_present_flag
        ∷ ue pp.log2_parallel_merge_level_minus2
        ∷ bit pp.slice_segment_header_extension_present_flag
        ∷ u 0 1
        ∷ [] in
      let es : List Element =
        write_nal_header 34
        ++ (pps_front pp pps_id
            ++ (pps_middle pp ++ (tile_elements pp ++ (filter ++ (scaling ++ back))))) in
      (
        es,
        rw e refl,
        Within-le es _ 30000 (omega arith) (
            Within-append (write_nal_header 34) _ 244 _ (write_nal_header-Within 34 (omega arith)) (
              Within-append (pps_front pp pps_id) _ 854 _ (pps_front-Within pps_id le) (
                Within-append (pps_middle pp) _ 488 _ pps_middle-Within (
                  Within-append (tile_elements pp) _ 2684 _ tile_elements-Within (
                    Within-append filter _ 366 _
                      (Within-append (bit pp.pps_loop_filter_across_slices_enabled_flag ∷ [])
                        (deblock_elements pp) 61 305
                        (bit-Within pp.pps_loop_filter_across_slices_enabled_flag)
                        deblock_elements-Within)
                      (Within-append scaling back 24261 244
                        (Within-append (bit pp.scaling_list_enabled_flag ∷ []) matrices 61 24200
                          (bit-Within pp.scaling_list_enabled_flag) within)
                        (few-Within back 4 (ground (arith, v.blocks.merge_level, v.syntax.ctb))
                          (omega arith)))))))),
      )
