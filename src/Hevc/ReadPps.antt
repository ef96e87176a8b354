-- ===== src/Hevc/ReadPps.antt =====
-- The decoder of the PPS on the elements that src/hevc.c writes.
use rockchip_vaapi.Base.{
  ℕ, ◌+◌, ◌^◌, ◌≤◌, ◌<◌, ◌≡◌, ◌⊎◌, refl, subst, ap, ◌∙◌, true, false, Option, none, some, List, [],
  ◌∷◌, ◌++◌, arith, Bool-cases, inl, inr, to_bit, length, length-take, append_assoc, Option-cases,
}
use mathlib.Core.Option.{some-injective}
use rockchip_vaapi.Base.Int.{ℤ, pos, negsuc, pos_part, neg_part, ◌==ℤ◌}
use rockchip_vaapi.Bitstream.{unsigned_of}
use rockchip_vaapi.Bitstream.Decoder.{
  Decoder, bits, signed, signed_value, feed, signed_value-unsigned_of,
}
use rockchip_vaapi.Bitstream.Elements.{Element, u, se}
use rockchip_vaapi.Hevc.Parameters.{HevcParameters, HevcMatrix}
use rockchip_vaapi.Hevc.Validate.{tile_spacing_is_uniform, is_some_matrix, columns, rows}
use rockchip_vaapi.Hevc.Validated.{IsValidated}
use rockchip_vaapi.Hevc.Writers.{
  bit, pps_front, pps_middle, tile_elements, size_list, deblock_present, deblock_elements,
  enabled_matrices, hevc_pps_elements,
}
use rockchip_vaapi.Hevc.Writers.Pictures.{MatricesFit}
use rockchip_vaapi.Hevc.Matrices.Syntax.{ListSyntax, matrices_elements-read}
use rockchip_vaapi.Hevc.PpsSyntax.{
  FrontSyntax, MiddleSyntax, TileSyntax, DeblockSyntax, PpsSyntax, front_syntax, sizes_syntax,
  tile_syntax, middle_syntax, deblock_syntax, matrix_syntax, end_syntax, pps_syntax, front_of,
  middle_of, tiles_of, deblock_of, matrices_of, pps_of,
}

-- se(v) on a small value.
signed_read :
    {A : Type 0} (z : ℤ) (rest : List Element) (next : ℤ → Decoder A)
    → pos_part z + neg_part z < 2 ^ 30
    → feed (signed next) (se z ∷ rest) ≡ feed (next z) rest
unfolding feed
signed_read z rest next small =
    ap (λ (z : ℤ). feed (next z) rest) (signed_value-unsigned_of z small)

sizes_read :
    {A : Type 0} (sizes : List ℕ) (rest : List Element) (next : List ℕ → Decoder A)
    → feed (sizes_syntax (length sizes) next) (size_list sizes ++ rest) ≡ feed (next sizes) rest
unfolding feed sizes_syntax
sizes_read [] rest next = refl
sizes_read (size ∷ sizes) rest next = sizes_read sizes rest (λ sizes. next (size ∷ sizes))

zero_lem : (z : ℤ) → (z ==ℤ pos 0) ≡ true → z ≡ pos 0
zero_lem (pos n) e = let none : n ≡ 0 = ground (arith, e) in ap pos none
zero_lem (negsuc n) e = absurd (ground (arith, e))

-- The arrays have an entry for each tile column and row but the last.
pub record SizesGiven (pp : HevcParameters) : Type 0 where
  pub columns : pp.num_tile_columns_minus1 ≤ length pp.column_width_minus1
  pub rows : pp.num_tile_rows_minus1 ≤ length pp.row_height_minus1

module _ (pp : HevcParameters) (iq : Option HevcMatrix) (profile_idc : ℕ)
    (v : IsValidated pp iq profile_idc) (given : SizesGiven pp) where
  front_read :
      (pps_id : ℕ) (next : FrontSyntax → Decoder PpsSyntax) (rest : List Element)
      → feed (front_syntax next) (pps_front pp pps_id ++ rest)
        ≡ feed (next (front_of pp pps_id)) rest
  unfolding feed front_syntax
  front_read pps_id next rest =
      let qp = signed_value-unsigned_of pp.init_qp_minus26 (omega (arith, v.ranges.init_qp)) in
      elim (Bool-cases pp.cu_qp_delta_enabled_flag) [
        | inl on ↦ rw (feed, qp, on) refl
        | inr off ↦ rw (feed, qp, off) refl
      ]

  explicit_read :
      (next : Option (List ℕ × List ℕ) → Decoder PpsSyntax) (rest : List Element)
      → feed
          (sizes_syntax pp.num_tile_columns_minus1
            (λ columns. sizes_syntax pp.num_tile_rows_minus1 (λ rows. next (some (columns, rows)))))
          ((size_list (columns pp) ++ size_list (rows pp)) ++ rest)
        ≡ feed (next (some (columns pp, rows pp))) rest
  explicit_read next rest =
      let count : length (columns pp) ≡ pp.num_tile_columns_minus1 =
        omega
          (arith, length-take pp.num_tile_columns_minus1 pp.column_width_minus1, given.columns) in
      let count' : length (rows pp) ≡ pp.num_tile_rows_minus1 =
        omega (arith, length-take pp.num_tile_rows_minus1 pp.row_height_minus1, given.rows) in
      let grouped : (size_list (columns pp) ++ size_list (rows pp)) ++ rest
          ≡ size_list (columns pp) ++ (size_list (rows pp) ++ rest) =
        append_assoc (size_list (columns pp)) (size_list (rows pp)) rest in
      let read_columns =
        sizes_read (columns pp) (size_list (rows pp) ++ rest)
          (λ columns. sizes_syntax (length (rows pp)) (λ rows. next (some (columns, rows)))) in
      let read_rows = sizes_read (rows pp) rest (λ rows'. next (some (columns pp, rows'))) in
      ap
        (λ (es : List Element).
          feed
            (sizes_syntax pp.num_tile_columns_minus1 (λ columns.
              sizes_syntax pp.num_tile_rows_minus1 (λ rows. next (some (columns, rows)))))
            es)
        grouped
      ∙ subst
          (λ (n : ℕ).
            feed
              (sizes_syntax n (λ columns.
                sizes_syntax pp.num_tile_rows_minus1 (λ rows. next (some (columns, rows)))))
              (size_list (columns pp) ++ (size_list (rows pp) ++ rest))
            ≡ feed (next (some (columns pp, rows pp))) rest)
          count
          (subst
            (λ (n : ℕ).
              feed
                (sizes_syntax (length (columns pp))
                  (λ columns. sizes_syntax n (λ rows. next (some (columns, rows)))))
                (size_list (columns pp) ++ (size_list (rows pp) ++ rest))
              ≡ feed (next (some (columns pp, rows pp))) rest)
            count' (read_columns ∙ read_rows))

  tile_read :
      (next : Option TileSyntax → Decoder PpsSyntax) (rest : List Element)
      → feed (tile_syntax (to_bit pp.tiles_enabled_flag) next) (tile_elements pp ++ rest)
        ≡ feed (next (tiles_of pp)) rest
  unfolding feed tile_syntax
  tile_read next rest = elim (Bool-cases pp.tiles_enabled_flag) [
    | inr off ↦ rw off refl
    | inl on ↦ elim (Bool-cases (tile_spacing_is_uniform pp)) [
      | inl even ↦ rw (even, on) refl
      | inr uneven ↦
          let filter = u (to_bit pp.loop_filter_across_tiles_enabled_flag) 1 in
          let sizes = size_list (columns pp) ++ size_list (rows pp) in
          let grouped : (sizes ++ (filter ∷ [])) ++ rest ≡ sizes ++ (filter ∷ rest) =
            append_assoc sizes (filter ∷ []) rest in
          let tiles : Option (List ℕ × List ℕ) → ℕ → TileSyntax = λ explicit filter. record {
            num_tile_columns = pp.num_tile_columns_minus1 + 1;
            num_tile_rows = pp.num_tile_rows_minus1 + 1;
            explicit = explicit;
            loop_filter_across_tiles_enabled_flag = filter;
          } in
          rw (uneven, on)
            (ap
                (λ (es : List Element).
                  feed
                    (sizes_syntax pp.num_tile_columns_minus1 (λ columns.
                      sizes_syntax pp.num_tile_rows_minus1 (λ rows.
                        bits 1 (λ filter. next (some (tiles (some (columns, rows)) filter))))))
                    es)
                grouped
              ∙ explicit_read (λ explicit. bits 1 (λ filter. next (some (tiles explicit filter))))
                  (filter ∷ rest))
    ]
  ]

  middle_read :
      (next : MiddleSyntax → Option TileSyntax → Decoder PpsSyntax) (rest : List Element)
      → feed (middle_syntax next) (pps_middle pp ++ (tile_elements pp ++ rest))
        ≡ feed (next (middle_of pp) (tiles_of pp)) rest
  unfolding feed middle_syntax
  middle_read next rest =
      let cb = signed_value-unsigned_of pp.pps_cb_qp_offset (omega (arith, v.ranges.cb_qp)) in
      let cr = signed_value-unsigned_of pp.pps_cr_qp_offset (omega (arith, v.ranges.cr_qp)) in
      ap
        (λ (z : ℤ).
          feed
            (tile_syntax (to_bit pp.tiles_enabled_flag) (
              next (record (middle_of pp) {
                pps_cb_qp_offset = z;
                pps_cr_qp_offset = signed_value (unsigned_of pp.pps_cr_qp_offset);
              })))
            (tile_elements pp ++ rest))
        cb
      ∙ ap
          (λ (z : ℤ).
            feed
              (tile_syntax (to_bit pp.tiles_enabled_flag)
                (next (record (middle_of pp) { pps_cr_qp_offset = z })))
              (tile_elements pp ++ rest))
          cr
      ∙ tile_read (next (middle_of pp)) rest

  deblock_read :
      (next : DeblockSyntax → Decoder PpsSyntax) (rest : List Element)
      → feed (deblock_syntax next) (deblock_elements pp ++ rest) ≡ feed (next (deblock_of pp)) rest
  unfolding feed deblock_syntax
  deblock_read next rest = elim (Bool-cases (deblock_present pp)) [
    | inl present ↦ elim (Bool-cases pp.pps_disable_deblocking_filter_flag) [
      | inl off ↦ rw (feed, present) (rw (feed, off) refl)
      | inr on ↦
          let beta =
            signed_value-unsigned_of pp.pps_beta_offset_div2 (omega (arith, v.ranges.beta)) in
          let tc = signed_value-unsigned_of pp.pps_tc_offset_div2 (omega (arith, v.ranges.tc)) in
          rw (feed, present) (rw (feed, on) (rw (feed, beta, tc) refl))
    ]
    | inr absent ↦
        let override : pp.deblocking_filter_override_enabled_flag ≡ false =
          ground (arith, absent) in
        let disabled : pp.pps_disable_deblocking_filter_flag ≡ false = ground (arith, absent) in
        let beta = zero_lem pp.pps_beta_offset_div2 (ground (arith, absent)) in
        let tc = zero_lem pp.pps_tc_offset_div2 (ground (arith, absent)) in
        rw (feed, absent) (rw (feed, override, disabled, beta, tc) refl)
  ]

  -- The matrices are there where they are enabled.
  matrices_read :
      (next : Option (List ListSyntax) → Decoder PpsSyntax) (lists rest : List Element)
      → MatricesFit iq
      → enabled_matrices pp iq ≡ some lists
      → feed (matrix_syntax next) ((bit pp.scaling_list_enabled_flag ∷ lists) ++ rest)
        ≡ feed (next (matrices_of pp iq)) rest
  unfolding feed matrix_syntax
  matrices_read next lists rest m e = by_matrix iq v.ranges.matrix m e
    where
      by_matrix :
          (iq : Option HevcMatrix)
          → (pp.scaling_list_enabled_flag ≡ false) ⊎ (is_some_matrix iq ≡ true)
          → MatricesFit iq
          → enabled_matrices pp iq ≡ some lists
          → feed (matrix_syntax next) ((bit pp.scaling_list_enabled_flag ∷ lists) ++ rest)
            ≡ feed (next (matrices_of pp iq)) rest
      by_matrix none (inr there) m e = absurd (cc there)
      by_matrix none (inl off) m e = rw (← some-injective [] lists e, feed, off) refl
      by_matrix (some iq) matrix m e = elim (Bool-cases pp.scaling_list_enabled_flag) [
        | inl on ↦
            rw (feed, on)
              (matrices_elements-read iq lists rest (λ lists. next (some lists)) m (rw on at e))
        | inr off ↦ rw (← some-injective [] lists (rw off at e), feed, off) refl
      ]

  pub hevc_pps_read :
      (pps_id : ℕ) (es : List Element)
      → MatricesFit iq
      → hevc_pps_elements pp iq pps_id ≡ some es
      → feed pps_syntax es ≡ some (pps_of pp iq pps_id)
  unfolding feed hevc_pps_elements
  hevc_pps_read pps_id es m e = elim (Option-cases (enabled_matrices pp iq)) [
    | inl refused ↦ absurd (cc (rw refused at e))
    | inr (lists, made) ↦
        let is = some-injective _ es (rw made at e) in
        rw (← is) (
          front_read pps_id
            (λ front. middle_syntax (λ middle tiles. bits 1 (λ across. deblock_syntax (λ deblocking.
              matrix_syntax (λ lists. end_syntax front middle tiles across deblocking lists)))))
            _
          ∙ middle_read
              (λ middle tiles. bits 1 (λ across. deblock_syntax (λ deblocking.
                matrix_syntax
                  (λ lists. end_syntax (front_of pp pps_id) middle tiles across deblocking lists))))
              _
          ∙ deblock_read
              (λ deblocking. matrix_syntax (λ lists.
                end_syntax (front_of pp pps_id) (middle_of pp) (tiles_of pp)
                  (to_bit pp.pps_loop_filter_across_slices_enabled_flag) deblocking lists))
              _
          ∙ matrices_read
              (λ lists.
                end_syntax (front_of pp pps_id) (middle_of pp) (tiles_of pp)
                  (to_bit pp.pps_loop_filter_across_slices_enabled_flag) (deblock_of pp) lists)
              lists _ m made)
  ]
