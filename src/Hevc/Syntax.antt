-- ===== src/Hevc/Syntax.antt =====
-- The syntax of 7.3.1 to 7.3.2.2 (NAL unit header, profile, VPS and SPS), as a decoder reads what
-- src/hevc.c writes. Parts that the driver never writes are refused.
use rockchip_vaapi.Base.{ℕ, zero, suc, ◌+◌, ◌*◌, ◌^◌, ◌-◌, not, ◌==◌, if◌then◌else◌, to_bit}
use rockchip_vaapi.Bitstream.Decoder.{Decoder, give, bits, golomb}
use rockchip_vaapi.Hevc.Parameters.{HevcParameters}
use rockchip_vaapi.Hevc.Writers.{derive_level_idc}

pub record NalHeader : Type 0 where
  pub forbidden_zero_bit : ℕ
  pub nal_unit_type : ℕ
  pub nuh_layer_id : ℕ
  pub temporal_id : ℕ

abbrev pub header_syntax : {A : Type 0} → (NalHeader → Decoder A) → Decoder A
header_syntax next = bits 1 (λ forbidden. bits 6 (λ type. bits 6 (λ layer.
    bits 3 (λ temporal_id_plus1. next (record {
      forbidden_zero_bit = forbidden;
      nal_unit_type = type;
      nuh_layer_id = layer;
      temporal_id = temporal_id_plus1 - 1;
    })))))

abbrev pub header_of : ℕ → NalHeader
header_of type = record {
  forbidden_zero_bit = 0;
  nal_unit_type = type;
  nuh_layer_id = 0;
  temporal_id = 0;
}

-- The compatibility flags are one number, flag 0 first.
pub record ProfileSyntax : Type 0 where
  pub general_profile_space : ℕ
  pub general_tier_flag : ℕ
  pub general_profile_idc : ℕ
  pub general_profile_compatibility_flags : ℕ
  pub general_progressive_source_flag : ℕ
  pub general_interlaced_source_flag : ℕ
  pub general_non_packed_constraint_flag : ℕ
  pub general_frame_only_constraint_flag : ℕ
  pub general_one_picture_only_constraint_flag : ℕ
  pub general_level_idc : ℕ

abbrev flags_syntax : {A : Type 0} → ℕ → ℕ → (ℕ → Decoder A) → Decoder A
flags_syntax zero flags next = next flags
flags_syntax (suc count) flags next = bits 1 (λ flag. flags_syntax count (2 * flags + flag) next)

-- The 43 bits by profile, with the flag of the Main 10 profiles.
abbrev constraint_syntax : {A : Type 0} → ℕ → (ℕ → Decoder A) → Decoder A
constraint_syntax profile next =
    if profile == 2
    then bits 7
        (λ a. bits 1 (λ one_picture_only. bits 24 (λ b. bits 11 (λ c. next one_picture_only))))
    else bits 24 (λ a. bits 19 (λ b. next 0))

unfoldable pub profile_syntax : {A : Type 0} → (ProfileSyntax → Decoder A) → Decoder A
profile_syntax next = bits 2 (λ space. bits 1 (λ tier. bits 5 (λ profile.
    flags_syntax 32 0 (λ flags. bits 1 (λ progressive. bits 1 (λ interlaced. bits 1 (λ non_packed.
      bits 1 (λ frame_only. constraint_syntax profile (λ one_picture_only. bits 1 (λ reserved.
        bits 8 (λ level. next (record {
          general_profile_space = space;
          general_tier_flag = tier;
          general_profile_idc = profile;
          general_profile_compatibility_flags = flags;
          general_progressive_source_flag = progressive;
          general_interlaced_source_flag = interlaced;
          general_non_packed_constraint_flag = non_packed;
          general_frame_only_constraint_flag = frame_only;
          general_one_picture_only_constraint_flag = one_picture_only;
          general_level_idc = level;
        }))))))))))))

-- A picture of a field is interlaced; any other is progressive and of a frame.
abbrev pub profile_of : HevcParameters → ℕ → ProfileSyntax
profile_of pp profile_idc = record {
  general_profile_space = 0;
  general_tier_flag = 0;
  general_profile_idc = profile_idc;
  general_profile_compatibility_flags = 2 ^ (31 - profile_idc);
  general_progressive_source_flag = to_bit (not pp.curr_pic.field_pic);
  general_interlaced_source_flag = to_bit pp.curr_pic.field_pic;
  general_non_packed_constraint_flag = 1;
  general_frame_only_constraint_flag = to_bit (not pp.curr_pic.field_pic);
  general_one_picture_only_constraint_flag = 0;
  general_level_idc = derive_level_idc pp;
}

-- One sub-layer, so one entry of the buffer sizes.
pub record OrderSyntax : Type 0 where
  pub max_dec_pic_buffering : ℕ
  pub max_num_reorder_pics : ℕ
  pub max_latency_increase_plus1 : ℕ

abbrev pub order_syntax : {A : Type 0} → (OrderSyntax → Decoder A) → Decoder A
order_syntax next = bits 1 (λ sub_layer_ordering_info_present_flag. golomb (λ buffering.
    golomb (λ reorder. golomb (λ latency. next (record {
      max_dec_pic_buffering = buffering + 1;
      max_num_reorder_pics = reorder;
      max_latency_increase_plus1 = latency;
    })))))

abbrev pub order_of : HevcParameters → OrderSyntax
order_of pp = record {
  max_dec_pic_buffering = pp.sps_max_dec_pic_buffering_minus1 + 1;
  max_num_reorder_pics =
      if pp.no_pic_reordering_flag then 0 else pp.sps_max_dec_pic_buffering_minus1;
  max_latency_increase_plus1 = 0;
}

pub record VpsSyntax : Type 0 where
  pub header : NalHeader
  pub vps_video_parameter_set_id : ℕ
  pub vps_max_layers : ℕ
  pub vps_max_sub_layers : ℕ
  pub profile : ProfileSyntax
  pub order : OrderSyntax
  pub vps_max_layer_id : ℕ
  pub vps_num_layer_sets : ℕ
  pub vps_timing_info_present_flag : ℕ
  pub vps_extension_flag : ℕ

abbrev pub vps_syntax : Decoder VpsSyntax
vps_syntax = header_syntax (λ header. bits 4 (λ id. bits 1 (λ base_internal.
    bits 1 (λ base_available. bits 6 (λ layers. bits 3 (λ sub_layers. bits 1 (λ nesting.
      bits 16 (λ reserved. profile_syntax (λ profile. order_syntax (λ order. bits 6 (λ max_layer_id.
        golomb (λ layer_sets. bits 1 (λ timing. bits 1 (λ extension. give (record {
          header = header;
          vps_video_parameter_set_id = id;
          vps_max_layers = layers + 1;
          vps_max_sub_layers = sub_layers + 1;
          profile = profile;
          order = order;
          vps_max_layer_id = max_layer_id;
          vps_num_layer_sets = layer_sets + 1;
          vps_timing_info_present_flag = timing;
          vps_extension_flag = extension;
        })))))))))))))))

abbrev pub vps_of : HevcParameters → ℕ → VpsSyntax
vps_of pp profile_idc = record {
  header = header_of 32;
  vps_video_parameter_set_id = 0;
  vps_max_layers = 1;
  vps_max_sub_layers = 1;
  profile = profile_of pp profile_idc;
  order = order_of pp;
  vps_max_layer_id = 0;
  vps_num_layer_sets = 1;
  vps_timing_info_present_flag = 0;
  vps_extension_flag = 0;
}
