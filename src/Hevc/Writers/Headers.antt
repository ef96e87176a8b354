-- ===== src/Hevc/Writers/Headers.antt =====
-- The elements of the VPS and SPS of src/hevc.c: their values and their number.
use rockchip_vaapi.Base.{
  ℕ, zero, suc, ◌+◌, ◌^◌, ◌≤◌, ◌<◌, ◌≡◌, inl, inr, refl, Bool, not, Option, List, [], ◌∷◌, ◌++◌,
  arith, ◌==◌, if◌then◌else◌, Bool-cases, All, length,
}
use rockchip_vaapi.Bitstream.Elements.{Element, u, ue, AllFit}
use rockchip_vaapi.Bitstream.Sized.{Within, few-Within, Within-append, Within-le}
use rockchip_vaapi.Hevc.Parameters.{HevcParameters, HevcMatrix}
use rockchip_vaapi.Hevc.Validated.{IsValidated}
use rockchip_vaapi.Hevc.Writers.{
  bit, write_nal_header, derive_level_idc, compatibility_flags, constraint_elements,
  write_profile_tier_level, reorder, vps_elements, pcm_elements, picture_elements, block_elements,
  hevc_sps_elements,
}

-- The widths of the fields that no check bounds.
pub record WidthsFit (pp : HevcParameters) : Type 0 where
  pub width : pp.pic_width_in_luma_samples < 2 ^ 16
  pub height : pp.pic_height_in_luma_samples < 2 ^ 16
  pub inter : pp.max_transform_hierarchy_depth_inter < 2 ^ 8
  pub intra : pp.max_transform_hierarchy_depth_intra < 2 ^ 8
  pub columns : All (λ size. size < 2 ^ 16) pp.column_width_minus1
  pub rows : All (λ size. size < 2 ^ 16) pp.row_height_minus1

derive_level_idc-le : (pp : HevcParameters) → derive_level_idc pp ≤ 186
unfolding derive_level_idc
derive_level_idc-le pp = ground arith

compatibility_flags-Within :
    (rounds i profile_idc : ℕ)
    → AllFit (compatibility_flags rounds i profile_idc)
      × (length (compatibility_flags rounds i profile_idc) ≡ rounds)
compatibility_flags-Within zero i profile_idc = (tt, refl)
compatibility_flags-Within (suc rounds) i profile_idc =
    let (fit, count) = compatibility_flags-Within rounds (i + 1) profile_idc in
    ((ground arith, fit), omega (arith, count))

pub bit-fit : (b : Bool) → AllFit (bit b ∷ [])
bit-fit b = ground arith

pub write_nal_header-Within :
    (nal_type : ℕ) → nal_type < 64 → Within (write_nal_header nal_type) 244
write_nal_header-Within nal_type lt =
    few-Within (write_nal_header nal_type) 4 (omega arith) (omega arith)

pub write_profile_tier_level-Within :
    (profile_idc level_idc : ℕ) (field_pic : Bool)
    → profile_idc < 32
    → level_idc < 256
    → Within (write_profile_tier_level profile_idc level_idc field_pic) 2745
unfolding write_profile_tier_level
write_profile_tier_level-Within profile_idc level_idc field_pic p l =
    let front : List Element = u 0 2 ∷ u 0 1 ∷ u profile_idc 5 ∷ [] in
    let flags = compatibility_flags 32 0 profile_idc in
    let source : List Element =
      bit (not field_pic) ∷ bit field_pic ∷ u 1 1 ∷ bit (not field_pic) ∷ [] in
    let back : List Element = u 0 1 ∷ u level_idc 8 ∷ [] in
    let (fit, count) = compatibility_flags-Within 32 0 profile_idc in
    let constraints : Within (constraint_elements profile_idc) 244 =
      elim (Bool-cases (profile_idc == 2)) [
        | inl e ↦
            rw e (few-Within (u 0 7 ∷ u 0 1 ∷ u 0 24 ∷ u 0 11 ∷ []) 4 (omega arith) (omega arith))
        | inr e ↦ rw e (
            Within-le (u 0 24 ∷ u 0 19 ∷ []) 122 244 (omega arith)
              (few-Within (u 0 24 ∷ u 0 19 ∷ []) 2 (omega arith) (omega arith)))
      ] in
    Within-append front _ 183 2562 (few-Within front 3 (omega (arith, p)) (omega arith)) (
      Within-append flags _ 1952 610 (few-Within flags 32 fit (omega (arith, count))) (
        Within-append source _ 244 366 (few-Within source 4 (ground arith) (omega arith)) (
          Within-append (constraint_elements profile_idc) back 244 122 constraints
            (few-Within back 2 (omega (arith, l)) (omega arith)))))

module _ (pp : HevcParameters) (w : WidthsFit pp) (iq : Option HevcMatrix) (profile_idc : ℕ)
    (v : IsValidated pp iq profile_idc) where
  profile_small : profile_idc < 32
  profile_small = ground (arith, v.ranges.profile)

  reorder-le : reorder pp ≤ 15
  reorder-le = ground (arith, v.ranges.buffering)

  level_elements-Within :
      Within (write_profile_tier_level profile_idc (derive_level_idc pp) pp.curr_pic.field_pic) 2745
  level_elements-Within =
      write_profile_tier_level-Within profile_idc (derive_level_idc pp) pp.curr_pic.field_pic
        profile_small (omega (arith, derive_level_idc-le pp))

  pub vps_elements-Within : Within (vps_elements pp profile_idc) 3904
  unfolding vps_elements
  vps_elements-Within =
      let front : List Element = u 0 4 ∷ u 1 1 ∷ u 1 1 ∷ u 0 6 ∷ u 0 3 ∷ u 1 1 ∷ u 0xffff 16 ∷ [] in
      let back : List Element =
        u 0 1
        ∷ ue pp.sps_max_dec_pic_buffering_minus1
        ∷ ue (reorder pp)
        ∷ ue 0
        ∷ u 0 6
        ∷ ue 0
        ∷ u 0 1
        ∷ u 0 1
        ∷ [] in
      Within-append (write_nal_header 32) _ 244 3660 (write_nal_header-Within 32 (omega arith)) (
        Within-append front _ 427 3233 (few-Within front 7 (omega arith) (omega arith)) (
          Within-append _ back 2745 488 level_elements-Within
            (few-Within back 8 (omega (arith, v.ranges.buffering, reorder-le)) (omega arith))))

  picture_elements-Within : Within (picture_elements pp) 732
  picture_elements-Within =
      few-Within (picture_elements pp) 12
        (omega (
          arith, v.ranges.chroma, w.width, w.height, v.ranges.depth, v.ranges.same_depth,
          v.syntax.poc_lsb, v.ranges.buffering, reorder-le,
        ))
        (omega arith)

  block_elements-Within : Within (block_elements pp) 488
  block_elements-Within =
      few-Within (block_elements pp) 8
        (ground (
          arith, v.syntax.min_cb, v.syntax.diff_cb, v.ranges.transform, v.ranges.diff_transform,
          w.inter, w.intra,
        ))
        (ground arith)

  pcm_elements-Within : Within (pcm_elements pp) 305
  pcm_elements-Within = elim v.pcm [
    | inl off ↦ rw off (record { fits = tt; bits = omega arith })
    | inr on ↦
        few-Within (pcm_elements pp) 5
          (ground (arith, on.luma, on.chroma, on.min_size, on.diff_size, v.syntax.ctb))
          (ground arith)
  ]

  pub hevc_sps_elements-Within : Within (hevc_sps_elements pp profile_idc) 6000
  unfolding hevc_sps_elements
  hevc_sps_elements-Within =
      let front : List Element = u 0 4 ∷ u 0 3 ∷ u 1 1 ∷ [] in
      let tools : List Element =
        bit pp.amp_enabled_flag
        ∷ bit pp.sample_adaptive_offset_enabled_flag
        ∷ bit pp.pcm_enabled_flag
        ∷ [] in
      let present : List Element = ue 0 ∷ bit pp.long_term_ref_pics_present_flag ∷ [] in
      let long : List Element = if pp.long_term_ref_pics_present_flag then ue 0 ∷ [] else [] in
      let back : List Element =
        bit pp.sps_temporal_mvp_enabled_flag
        ∷ bit pp.strong_intra_smoothing_enabled_flag
        ∷ u 0 1
        ∷ u 0 1
        ∷ [] in
      Within-append (write_nal_header 33) _ 244 5756 (write_nal_header-Within 33 (omega arith)) (
        Within-append front _ 183 5573 (few-Within front 3 (omega arith) (omega arith)) (
          Within-append _ _ 2745 2828 level_elements-Within (
            Within-append (picture_elements pp) _ 732 2096 picture_elements-Within (
              Within-append (block_elements pp) _ 488 1608 block_elements-Within (
                Within-append (tools ++ pcm_elements pp) _ 488 1120
                  (Within-append tools (pcm_elements pp) 183 305
                    (few-Within tools 3 (ground arith) (omega arith)) pcm_elements-Within)
                  (Within-append present _ 122 998
                    (few-Within present 2 (ground arith) (omega arith))
                    (Within-append long back 754 244
                      (Within-le long 61 754 (omega arith)
                        (few-Within long 1 (ground arith) (ground arith)))
                      (few-Within back 4 (ground arith) (omega arith)))))))))
