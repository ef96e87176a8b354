-- ===== src/Hevc/Read.antt =====
-- The decoders of the VPS and SPS on the elements that src/hevc.c writes.
use rockchip_vaapi.Base.{
  ℕ, ◌+◌, ◌≡◌, ◌⊎◌, inl, inr, refl, sym, subst, ◌∙◌, Bool, false, not, some, List, ◌∷◌, ◌++◌, [],
  arith, ◌==◌, if◌then◌else◌, Bool-cases, to_bit,
}
use rockchip_vaapi.Bitstream.Elements.{Element, u, ue}
use rockchip_vaapi.Bitstream.Decoder.{Decoder, give, golomb, bits, feed}
use rockchip_vaapi.Hevc.Parameters.{HevcParameters}
use rockchip_vaapi.Hevc.Writers.{
  derive_level_idc, write_profile_tier_level, vps_elements, picture_elements, block_elements,
  pcm_elements, hevc_sps_elements,
}
use rockchip_vaapi.Hevc.Syntax.{
  ProfileSyntax, OrderSyntax, order_syntax, order_of, profile_syntax, profile_of, header_of,
  vps_syntax, vps_of,
}
use rockchip_vaapi.Hevc.SpsSyntax.{
  SpsSyntax, PictureSyntax, BlockSyntax, ToolSyntax, picture_syntax, picture_of, block_syntax,
  blocks_of, tool_syntax, tools_of, sps_syntax, sps_of,
}

abbrev profile_at : ℕ → ℕ → Bool → ProfileSyntax
profile_at profile_idc level field_pic = record {
  general_profile_space = 0;
  general_tier_flag = 0;
  general_profile_idc = profile_idc;
  general_profile_compatibility_flags = if profile_idc == 1 then 1073741824 else 536870912;
  general_progressive_source_flag = to_bit (not field_pic);
  general_interlaced_source_flag = to_bit field_pic;
  general_non_packed_constraint_flag = 1;
  general_frame_only_constraint_flag = to_bit (not field_pic);
  general_one_picture_only_constraint_flag = 0;
  general_level_idc = level;
}

main_read :
    {A : Type 0} (level : ℕ) (field_pic : Bool) (next : ProfileSyntax → Decoder A)
    (rest : List Element)
    → feed (profile_syntax next) (write_profile_tier_level 1 level field_pic ++ rest)
      ≡ feed (next (profile_at 1 level field_pic)) rest
unfolding feed profile_syntax write_profile_tier_level
main_read level field_pic next rest = refl

main10_read :
    {A : Type 0} (level : ℕ) (field_pic : Bool) (next : ProfileSyntax → Decoder A)
    (rest : List Element)
    → feed (profile_syntax next) (write_profile_tier_level 2 level field_pic ++ rest)
      ≡ feed (next (profile_at 2 level field_pic)) rest
unfolding feed profile_syntax write_profile_tier_level
main10_read level field_pic next rest = refl

module _ (pp : HevcParameters) (profile_idc : ℕ)
    (main : (profile_idc ≡ 1) ⊎ (profile_idc ≡ 2)) where
  profile_read :
      {A : Type 0} (next : ProfileSyntax → Decoder A) (rest : List Element)
      → feed
          (profile_syntax next)
          (write_profile_tier_level profile_idc (derive_level_idc pp) pp.curr_pic.field_pic ++ rest)
        ≡ feed (next (profile_of pp profile_idc)) rest
  profile_read {A = A} next rest =
      let level = derive_level_idc pp in
      let field_pic = pp.curr_pic.field_pic in
      let Reads : ℕ → Type 0 = λ p.
        feed (profile_syntax next) (write_profile_tier_level p level field_pic ++ rest)
        ≡ feed (next (profile_of pp p)) rest in
      elim main [
        | inl one ↦ subst Reads (sym one) (main_read level field_pic next rest)
        | inr two ↦ subst Reads (sym two) (main10_read level field_pic next rest)
      ]

  order_lem :
      {A : Type 0} (next : OrderSyntax → Decoder A) (one : ℕ) (rest : List Element)
      → feed (order_syntax next) (
          u one 1
          ∷ ue pp.sps_max_dec_pic_buffering_minus1
          ∷ ue (if pp.no_pic_reordering_flag then 0 else pp.sps_max_dec_pic_buffering_minus1)
          ∷ ue 0
          ∷ rest)
        ≡ feed (next (order_of pp)) rest
  unfolding feed
  order_lem next one rest = refl

  pub vps_read : feed vps_syntax (vps_elements pp profile_idc) ≡ some (vps_of pp profile_idc)
  unfolding feed vps_elements
  vps_read =
      profile_read
        (λ profile. order_syntax (λ order. bits 6 (λ max_layer_id. golomb (λ layer_sets.
          bits 1 (λ timing. bits 1 (λ extension. give (record {
            header = header_of 32;
            vps_video_parameter_set_id = 0;
            vps_max_layers = 1;
            vps_max_sub_layers = 1;
            profile = profile;
            order = order;
            vps_max_layer_id = max_layer_id;
            vps_num_layer_sets = layer_sets + 1;
            vps_timing_info_present_flag = timing;
            vps_extension_flag = extension;
          })))))))
        _

  module _ (monochrome : pp.chroma_format_idc ≡ 1) where
    picture_read :
        (next : PictureSyntax → Decoder SpsSyntax) (rest : List Element)
        → feed (golomb (λ id. picture_syntax next)) (picture_elements pp ++ rest)
          ≡ feed (next (picture_of pp)) rest
    unfolding feed picture_syntax
    picture_read next rest =
        let other : (pp.chroma_format_idc == 3) ≡ false = ground (arith, monochrome) in
        rw (feed, other) refl

  block_read :
      (next : BlockSyntax → Decoder SpsSyntax) (rest : List Element)
      → feed (block_syntax next) (block_elements pp ++ rest) ≡ feed (next (blocks_of pp)) rest
  unfolding feed block_syntax
  block_read next rest = elim (Bool-cases pp.scaling_list_enabled_flag) [
    | inl on ↦ rw (feed, on) refl
    | inr off ↦ rw (feed, off) refl
  ]

  -- What `hevc_sps_elements` has behind the blocks.
  abbrev tool_elements : List Element
  tool_elements =
      (u (to_bit pp.amp_enabled_flag) 1
        ∷ u (to_bit pp.sample_adaptive_offset_enabled_flag) 1
        ∷ u (to_bit pp.pcm_enabled_flag) 1
        ∷ pcm_elements pp)
      ++ (ue 0
          ∷ u (to_bit pp.long_term_ref_pics_present_flag) 1
          ∷ ((if pp.long_term_ref_pics_present_flag then ue 0 ∷ [] else [])
              ++ (u (to_bit pp.sps_temporal_mvp_enabled_flag) 1
                  ∷ u (to_bit pp.strong_intra_smoothing_enabled_flag) 1
                  ∷ u 0 1
                  ∷ u 0 1
                  ∷ [])))

  tool_read :
      (next : ToolSyntax → Decoder SpsSyntax)
      → feed (tool_syntax next) tool_elements ≡ feed (next (tools_of pp)) []
  unfolding feed tool_syntax
  tool_read next = elim (Bool-cases pp.pcm_enabled_flag) [
    | inl on ↦ elim (Bool-cases pp.long_term_ref_pics_present_flag) [
      | inl long ↦ rw (feed, on, long) refl
      | inr short ↦ rw (feed, on, short) refl
    ]
    | inr off ↦ elim (Bool-cases pp.long_term_ref_pics_present_flag) [
      | inl long ↦ rw (feed, off, long) refl
      | inr short ↦ rw (feed, off, short) refl
    ]
  ]

  abbrev sps_with : ProfileSyntax → PictureSyntax → BlockSyntax → ToolSyntax → SpsSyntax
  sps_with profile picture blocks tools = record {
    header = header_of 33;
    sps_video_parameter_set_id = 0;
    sps_max_sub_layers = 1;
    profile = profile;
    sps_seq_parameter_set_id = 0;
    picture = picture;
    blocks = blocks;
    tools = tools;
  }

  pub hevc_sps_read :
      pp.chroma_format_idc ≡ 1
      → feed sps_syntax (hevc_sps_elements pp profile_idc) ≡ some (sps_of pp profile_idc)
  unfolding feed hevc_sps_elements
  hevc_sps_read monochrome =
      let profile = profile_of pp profile_idc in
      let picture = picture_of pp in
      let blocks = blocks_of pp in
      profile_read
        (λ profile. golomb (λ id. picture_syntax (λ picture. block_syntax (λ blocks.
          tool_syntax (λ tools. give (record {
            header = header_of 33;
            sps_video_parameter_set_id = 0;
            sps_max_sub_layers = 1;
            profile = profile;
            sps_seq_parameter_set_id = id;
            picture = picture;
            blocks = blocks;
            tools = tools;
          }))))))
        _
      ∙ picture_read monochrome
          (λ picture.
            block_syntax
              (λ blocks. tool_syntax (λ tools. give (sps_with profile picture blocks tools))))
          _
      ∙ block_read (λ blocks. tool_syntax (λ tools. give (sps_with profile picture blocks tools)))
          tool_elements
      ∙ tool_read (λ tools. give (sps_with profile picture blocks tools))
