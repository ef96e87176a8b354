-- ===== src/H264/Sps.antt =====
-- `h264_write_sps` of src/h264.c and a decoder that reads its bytes.
use rockchip_vaapi.Base.{
  ℕ, ◌+◌, ◌-◌, ◌*◌, ◌^◌, ◌≤◌, ◌<◌, ◌≡◌, ◌⊎◌, inl, inr, refl, ◌∙◌, false, ◌||◌, some, List, [], ◌∷◌,
  ◌++◌, arith, ◌==◌, Bool-cases, length, length-append, to_bit,
}
use rockchip_vaapi.Bitstream.Golomb.{unsigned_of-le}
use rockchip_vaapi.Base.Int.{pos}
use rockchip_vaapi.Bitstream.Elements.{
  Element, u, ue, AllFit, AllFit-append, all_bits, length-all_bits-le,
}
use rockchip_vaapi.Bitstream.Decoder.{
  Decoder, give, golomb, decode, feed, decode-feed, signed_value-unsigned_of,
}
use rockchip_vaapi.H264.Syntax.{
  ChromaSyntax, PocSyntax, SizeSyntax, SpsSyntax, has_chroma, chroma_syntax, poc_syntax,
  size_syntax, sps_syntax, chroma_of, poc_of, size_of, sps_of,
}
use rockchip_vaapi.Nal.{start_code}
use rockchip_vaapi.Nal.Escape.{has_start_code}
use rockchip_vaapi.Nal.ParameterSet.{raw_bytes_lem, raw_bytes-length}
use rockchip_vaapi.H264.{
  PictureParameters, sps_elements, chroma_elements, poc_elements, size_elements, ph_units,
  h264_write_sps, h264_derive_level_idc, is_high_profile,
}
use rockchip_vaapi.H264.Level.{h264_derive_level_idc-le}

-- The widths of the fields in the VA-API structure, for the fields of an SPS.
pub record SpsFieldsFit (pp : PictureParameters) : Type 0 where
  pub width : pp.picture_width_in_mbs_minus1 < 2 ^ 16
  pub height : pp.picture_height_in_mbs_minus1 < 2 ^ 16
  pub luma : pp.bit_depth_luma_minus8 < 2 ^ 8
  pub chroma : pp.bit_depth_chroma_minus8 < 2 ^ 8
  pub refs : pp.num_ref_frames < 2 ^ 8
  pub chroma_format : pp.chroma_format_idc < 4
  pub colour : pp.residual_colour_transform_flag < 2
  pub gaps : pp.gaps_in_frame_num_value_allowed_flag < 2
  pub frame_mbs_only : pp.frame_mbs_only_flag < 2
  pub mbaff : pp.mb_adaptive_frame_field_flag < 2
  pub direct_8x8 : pp.direct_8x8_inference_flag < 2
  pub frame_num : pp.log2_max_frame_num_minus4 < 16
  pub poc_type : pp.pic_order_cnt_type < 4
  pub poc_lsb : pp.log2_max_pic_order_cnt_lsb_minus4 < 16
  pub delta_zero : pp.delta_pic_order_always_zero_flag < 2
  -- A field-coded picture has two rows of macroblocks at least.
  pub field_rows : (pp.frame_mbs_only_flag ≡ 1) ⊎ (1 ≤ pp.picture_height_in_mbs_minus1)

-- Both lists of profiles are one.
same_profiles : (p : ℕ) → has_chroma p ≡ is_high_profile p
same_profiles p = ground arith

-- The record of `sps_syntax`, behind the fields of one value.
abbrev sps_with : ℕ → ℕ → ChromaSyntax → ℕ → PocSyntax → SizeSyntax → SpsSyntax
sps_with profile_idc level chroma frame_num poc size = record {
  forbidden_zero_bit = 0;
  nal_ref_idc = 3;
  nal_unit_type = 7;
  profile_idc = profile_idc;
  constraint_set0_flag = to_bit (profile_idc == 66);
  constraint_set1_flag = to_bit (profile_idc == 66 || profile_idc == 77);
  constraint_set2_flag = 0;
  other_constraint_bits = 0;
  level_idc = level;
  seq_parameter_set_id = 0;
  chroma = chroma;
  log2_max_frame_num = frame_num + 4;
  poc = poc;
  size = size;
}

module _ (pp : PictureParameters) (f : SpsFieldsFit pp) where
  chroma_fit : (profile_idc : ℕ) → AllFit (chroma_elements pp profile_idc)
  chroma_fit profile_idc = elim (Bool-cases (is_high_profile profile_idc)) [
    | inl high ↦ rw high (elim (Bool-cases (pp.chroma_format_idc == 3)) [
      | inl e ↦ rw e (omega arith)
      | inr e ↦ rw e (omega arith)
    ])
    | inr plain ↦ rw plain tt
  ]

  poc_fit : AllFit (poc_elements pp)
  poc_fit = elim (Bool-cases (pp.pic_order_cnt_type == 0)) [
    | inl e ↦ rw e (omega (arith, f.poc_type, f.poc_lsb))
    | inr e ↦ rw e (elim (Bool-cases (pp.pic_order_cnt_type == 1)) [
      | inl e' ↦ rw e' (omega (arith, f.poc_type, f.delta_zero, unsigned_of-le (pos 0)))
      | inr e' ↦ rw e' (omega (arith, f.poc_type))
    ])
  ]

  rows_fit : ph_units pp < 2 ^ 31 - 1
  rows_fit = ground (arith, f.height, f.field_rows)

  size_fit : AllFit (size_elements pp)
  size_fit = elim (Bool-cases (pp.frame_mbs_only_flag == 0)) [
    | inl e ↦
        let rows = (rw e at rows_fit) in
        rw e (omega (arith, f.refs, f.gaps, f.width, f.mbaff, f.direct_8x8, f.frame_mbs_only, rows))
    | inr e ↦
        let rows = (rw e at rows_fit) in
        rw e (omega (arith, f.refs, f.gaps, f.width, f.direct_8x8, f.frame_mbs_only, rows))
  ]

  chroma_count : (profile_idc : ℕ) → length (chroma_elements pp profile_idc) ≤ 6
  chroma_count profile_idc = elim (Bool-cases (is_high_profile profile_idc)) [
    | inl high ↦ rw high (elim (Bool-cases (pp.chroma_format_idc == 3)) [
      | inl e ↦ rw e (omega arith)
      | inr e ↦ rw e (omega arith)
    ])
    | inr plain ↦ rw plain (omega arith)
  ]

  poc_count : length (poc_elements pp) ≤ 5
  poc_count = elim (Bool-cases (pp.pic_order_cnt_type == 0)) [
    | inl e ↦ rw e (omega arith)
    | inr e ↦ rw e (elim (Bool-cases (pp.pic_order_cnt_type == 1)) [
      | inl e' ↦ rw e' (omega arith)
      | inr e' ↦ rw e' (omega arith)
    ])
  ]

  size_count : length (size_elements pp) ≤ 9
  size_count = elim (Bool-cases (pp.frame_mbs_only_flag == 0)) [
    | inl e ↦ rw e (omega arith)
    | inr e ↦ rw e (omega arith)
  ]

  chroma_read :
      (profile_idc : ℕ) (next : ChromaSyntax → Decoder SpsSyntax) (rest : List Element)
      → feed (chroma_syntax profile_idc next) (chroma_elements pp profile_idc ++ rest)
        ≡ feed (next (chroma_of pp profile_idc)) rest
  unfolding feed
  chroma_read profile_idc next rest = elim (Bool-cases (is_high_profile profile_idc)) [
    | inr plain ↦ rw (same_profiles profile_idc, plain) refl
    | inl high ↦ elim (Bool-cases (pp.chroma_format_idc == 3)) [
      | inl e ↦ rw (same_profiles profile_idc, high) (rw (feed, e) refl)
      | inr e ↦ rw (same_profiles profile_idc, high) (rw (feed, e) refl)
    ]
  ]

  poc_read :
      (next : PocSyntax → Decoder SpsSyntax) (rest : List Element)
      → feed (poc_syntax next) (poc_elements pp ++ rest) ≡ feed (next (poc_of pp)) rest
  unfolding feed
  poc_read next rest = elim (Bool-cases (pp.pic_order_cnt_type == 0)) [
    | inl e ↦ rw (feed, e) refl
    | inr e ↦ elim (Bool-cases (pp.pic_order_cnt_type == 1)) [
      | inl e' ↦ rw (feed, e, e') (rw (feed, signed_value-unsigned_of (pos 0) (omega arith)) refl)
      | inr e' ↦ rw (feed, e, e') refl
    ]
  ]

  rows_lem : (2 - pp.frame_mbs_only_flag) * (ph_units pp + 1) ≡ (size_of pp).frame_height_in_mbs
  rows_lem = elim (Bool-cases (pp.frame_mbs_only_flag == 0)) [
    | inl fields ↦
        let flag : pp.frame_mbs_only_flag ≡ 0 = ground (arith, fields) in
        rw fields (rw flag (omega (arith, f.height, f.field_rows, flag)))
    | inr frames ↦
        let flag : pp.frame_mbs_only_flag ≡ 1 = ground (arith, frames, f.frame_mbs_only) in
        rw frames (rw flag (omega arith))
  ]

  size_read :
      (next : SizeSyntax → Decoder SpsSyntax)
      → feed (size_syntax next) (size_elements pp) ≡ feed (next (size_of pp)) []
  unfolding feed
  size_read next = size_with _ rows_lem
    where
      size_with :
          (height : ℕ)
          → (2 - pp.frame_mbs_only_flag) * (ph_units pp + 1) ≡ height
          → feed (size_syntax next) (size_elements pp)
            ≡ feed (next (record (size_of pp) { frame_height_in_mbs = height })) []
      size_with height e = elim (Bool-cases (pp.frame_mbs_only_flag == 0)) [
        | inl fields ↦ rw (← e) (rw fields refl)
        | inr frames ↦ rw (← e) (rw frames refl)
      ]

  module _ (profile_idc : ℕ) (profile : profile_idc < 2 ^ 8) where
    sps_fit : AllFit (sps_elements pp profile_idc)
    unfolding sps_elements
    sps_fit =
        let level = h264_derive_level_idc-le pp in
        let head : List Element =
          u 0x67 8
          ∷ u profile_idc 8
          ∷ u (to_bit (profile_idc == 66)) 1
          ∷ u (to_bit (profile_idc == 66 || profile_idc == 77)) 1
          ∷ u 0 1
          ∷ u 0 5
          ∷ u (h264_derive_level_idc pp) 8
          ∷ ue 0
          ∷ [] in
        AllFit-append head _ (ground (arith, level, profile)) (
          AllFit-append (chroma_elements pp profile_idc) _ (chroma_fit profile_idc) (
            omega (arith, f.frame_num),
            AllFit-append (poc_elements pp) (size_elements pp) poc_fit size_fit,
          ))

    sps_room : length (all_bits (sps_elements pp profile_idc)) + 8 ≤ 8 * 512
    sps_room =
        let count : length (sps_elements pp profile_idc) ≤ 29 =
          unfold sps_elements in
          omega (
            arith,
            length-append (chroma_elements pp profile_idc)
                (ue pp.log2_max_frame_num_minus4 ∷ (poc_elements pp ++ size_elements pp)),
            length-append (poc_elements pp) (size_elements pp),
            chroma_count profile_idc,
            poc_count,
            size_count,
          ) in
        omega (arith, length-all_bits-le (sps_elements pp profile_idc) sps_fit)

    sps_read : feed sps_syntax (sps_elements pp profile_idc) ≡ some (sps_of pp profile_idc)
    unfolding sps_elements feed
    sps_read =
        front
        ∙ chroma_read profile_idc
            (λ chroma. golomb (λ frame_num. poc_syntax (λ poc. size_syntax (λ size.
              give (sps_with profile_idc (h264_derive_level_idc pp) chroma frame_num poc size)))))
            (ue pp.log2_max_frame_num_minus4 ∷ (poc_elements pp ++ size_elements pp))
        ∙ poc_read
            (λ poc. size_syntax (λ size. give (
              sps_with profile_idc (h264_derive_level_idc pp) (chroma_of pp profile_idc)
                pp.log2_max_frame_num_minus4 poc size)))
            (size_elements pp)
        ∙ size_read (λ size. give (
            sps_with profile_idc (h264_derive_level_idc pp) (chroma_of pp profile_idc)
              pp.log2_max_frame_num_minus4 (poc_of pp) size))
      where
        front :
            feed sps_syntax (sps_elements pp profile_idc)
            ≡ feed
                (chroma_syntax profile_idc (λ chroma. golomb (λ frame_num. poc_syntax (λ poc.
                  size_syntax (λ size.
                    give (
                      sps_with profile_idc
                        (h264_derive_level_idc pp)
                        chroma
                        frame_num
                        poc
                        size))))))
                (chroma_elements pp profile_idc
                  ++ (ue pp.log2_max_frame_num_minus4 ∷ (poc_elements pp ++ size_elements pp)))
        front = refl

    -- With a buffer of 1,028 bytes or more, fields that fit their widths and a profile of one byte,
    -- an SPS is written: a start code and bytes without a start code in them, from which a decoder
    -- that drops the escapes and reads the syntax of the standard gets the profile, the derived
    -- level, and the format, depths, picture order, references and dimensions of the picture, whose
    -- rows are even in number where there are fields.
    pub h264_write_sps_lem :
        (buf_size : ℕ)
        → 4 + 2 * 512 ≤ buf_size
        → (out : List ℕ) × (h264_write_sps buf_size pp profile_idc ≡ some (start_code out))
          × (has_start_code out ≡ false)
          × (decode sps_syntax out ≡ some (sps_of pp profile_idc))
    unfolding h264_write_sps
    h264_write_sps_lem buf_size big =
        let es = sps_elements pp profile_idc in
        let sized = raw_bytes-length 512 es sps_fit sps_room in
        let (out, e, some_bytes, hidden, decodes) =
          raw_bytes_lem 512 es sps_fit sps_room (buf_size - 4) (omega (arith, sized)) in
        (
          out,
          ground (arith, sized, e, some_bytes),
          hidden,
          decode-feed sps_syntax es out (sps_of pp profile_idc) decodes sps_read,
        )
