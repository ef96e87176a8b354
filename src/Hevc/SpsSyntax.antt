-- ===== src/Hevc/SpsSyntax.antt =====
-- The sequence parameter set of 7.3.2.2, as a decoder reads what src/hevc.c writes.
use rockchip_vaapi.Base.{ℕ, ◌+◌, Option, none, some, ◌==◌, if◌then◌else◌, to_bit}
use rockchip_vaapi.Bitstream.Decoder.{Decoder, give, refuse, bits, golomb}
use rockchip_vaapi.Hevc.Parameters.{HevcParameters}
use rockchip_vaapi.Hevc.Syntax.{
  NalHeader, ProfileSyntax, OrderSyntax, header_syntax, header_of, profile_syntax, profile_of,
  order_syntax, order_of,
}

pub record PictureSyntax : Type 0 where
  pub chroma_format_idc : ℕ
  pub pic_width_in_luma_samples : ℕ
  pub pic_height_in_luma_samples : ℕ
  pub bit_depth_luma : ℕ
  pub bit_depth_chroma : ℕ
  pub log2_max_pic_order_cnt_lsb : ℕ
  pub order : OrderSyntax

pub record BlockSyntax : Type 0 where
  pub min_cb_log2_size : ℕ
  pub ctb_log2_size : ℕ
  pub min_tb_log2_size : ℕ
  pub max_tb_log2_size : ℕ
  pub max_transform_hierarchy_depth_inter : ℕ
  pub max_transform_hierarchy_depth_intra : ℕ
  pub scaling_list_enabled_flag : ℕ

pub record PcmSyntax : Type 0 where
  pub pcm_bit_depth_luma : ℕ
  pub pcm_bit_depth_chroma : ℕ
  pub min_pcm_log2_size : ℕ
  pub max_pcm_log2_size : ℕ
  pub pcm_loop_filter_disabled_flag : ℕ

pub record ToolSyntax : Type 0 where
  pub amp_enabled_flag : ℕ
  pub sample_adaptive_offset_enabled_flag : ℕ
  pub pcm : Option PcmSyntax
  pub long_term_ref_pics_present_flag : ℕ
  pub sps_temporal_mvp_enabled_flag : ℕ
  pub strong_intra_smoothing_enabled_flag : ℕ

pub record SpsSyntax : Type 0 where
  pub header : NalHeader
  pub sps_video_parameter_set_id : ℕ
  pub sps_max_sub_layers : ℕ
  pub profile : ProfileSyntax
  pub sps_seq_parameter_set_id : ℕ
  pub picture : PictureSyntax
  pub blocks : BlockSyntax
  pub tools : ToolSyntax

-- A set with separate planes or a conformance window is refused.
unfoldable pub picture_syntax : (PictureSyntax → Decoder SpsSyntax) → Decoder SpsSyntax
picture_syntax next = golomb (λ chroma.
    if chroma == 3
    then refuse
    else golomb (λ width. golomb (λ height. bits 1 (λ conformance_window_flag.
      if conformance_window_flag == 1
      then refuse
      else golomb (λ luma_depth. golomb (λ chroma_depth. golomb (λ lsb. order_syntax (λ order.
        next (record {
          chroma_format_idc = chroma;
          pic_width_in_luma_samples = width;
          pic_height_in_luma_samples = height;
          bit_depth_luma = luma_depth + 8;
          bit_depth_chroma = chroma_depth + 8;
          log2_max_pic_order_cnt_lsb = lsb + 4;
          order = order;
        })))))))))

-- Lists in the set itself are refused.
abbrev enabled_syntax : ℕ → Decoder SpsSyntax → Decoder SpsSyntax
enabled_syntax enabled next =
    if enabled == 1
    then bits 1 (λ sps_scaling_list_data_present_flag.
      if sps_scaling_list_data_present_flag == 1 then refuse else next)
    else next

unfoldable pub block_syntax : (BlockSyntax → Decoder SpsSyntax) → Decoder SpsSyntax
block_syntax next = golomb (λ min_cb. golomb (λ diff_cb. golomb (λ min_tb. golomb (λ diff_tb.
    golomb (λ inter. golomb (λ intra. bits 1 (λ enabled. enabled_syntax enabled (
      next (record {
        min_cb_log2_size = min_cb + 3;
        ctb_log2_size = min_cb + 3 + diff_cb;
        min_tb_log2_size = min_tb + 2;
        max_tb_log2_size = min_tb + 2 + diff_tb;
        max_transform_hierarchy_depth_inter = inter;
        max_transform_hierarchy_depth_intra = intra;
        scaling_list_enabled_flag = enabled;
      })))))))))

abbrev pcm_syntax : ℕ → (Option PcmSyntax → Decoder SpsSyntax) → Decoder SpsSyntax
pcm_syntax enabled next =
    if enabled == 1
    then bits 4 (λ luma. bits 4 (λ chroma. golomb (λ min_size. golomb (λ diff_size.
      bits 1 (λ filter. next (
        some (record {
          pcm_bit_depth_luma = luma + 1;
          pcm_bit_depth_chroma = chroma + 1;
          min_pcm_log2_size = min_size + 3;
          max_pcm_log2_size = min_size + 3 + diff_size;
          pcm_loop_filter_disabled_flag = filter;
        })))))))
    else next none

-- Long-term candidates in the set are refused.
abbrev long_syntax : ℕ → Decoder SpsSyntax → Decoder SpsSyntax
long_syntax present next =
    if present == 1
    then golomb
        (λ num_long_term_ref_pics_sps. if num_long_term_ref_pics_sps == 0 then next else refuse)
    else next

-- Short-term candidates, a VUI and extensions are refused too.
unfoldable pub tool_syntax : (ToolSyntax → Decoder SpsSyntax) → Decoder SpsSyntax
tool_syntax next = bits 1 (λ amp. bits 1 (λ sao. bits 1 (λ pcm_enabled.
    pcm_syntax pcm_enabled (λ pcm. golomb (λ num_short_term_ref_pic_sets.
      if num_short_term_ref_pic_sets == 0
      then bits 1 (λ long_term. long_syntax long_term (
          bits 1 (λ mvp. bits 1 (λ smoothing. bits 1 (λ vui.
            if vui == 1
            then refuse
            else bits 1 (λ extension.
              if extension == 1
              then refuse
              else next (record {
                amp_enabled_flag = amp;
                sample_adaptive_offset_enabled_flag = sao;
                pcm = pcm;
                long_term_ref_pics_present_flag = long_term;
                sps_temporal_mvp_enabled_flag = mvp;
                strong_intra_smoothing_enabled_flag = smoothing;
              })))))))
      else refuse)))))

abbrev pub sps_syntax : Decoder SpsSyntax
sps_syntax = header_syntax (λ header. bits 4 (λ vps. bits 3 (λ sub_layers. bits 1 (λ nesting.
    profile_syntax (λ profile. golomb (λ id. picture_syntax (λ picture. block_syntax (λ blocks.
      tool_syntax (λ tools. give (record {
        header = header;
        sps_video_parameter_set_id = vps;
        sps_max_sub_layers = sub_layers + 1;
        profile = profile;
        sps_seq_parameter_set_id = id;
        picture = picture;
        blocks = blocks;
        tools = tools;
      }))))))))))

-- What the parameters say.
abbrev pub picture_of : HevcParameters → PictureSyntax
picture_of pp = record {
  chroma_format_idc = pp.chroma_format_idc;
  pic_width_in_luma_samples = pp.pic_width_in_luma_samples;
  pic_height_in_luma_samples = pp.pic_height_in_luma_samples;
  bit_depth_luma = pp.bit_depth_luma_minus8 + 8;
  bit_depth_chroma = pp.bit_depth_chroma_minus8 + 8;
  log2_max_pic_order_cnt_lsb = pp.log2_max_pic_order_cnt_lsb_minus4 + 4;
  order = order_of pp;
}

abbrev pub blocks_of : HevcParameters → BlockSyntax
blocks_of pp = record {
  min_cb_log2_size = pp.log2_min_luma_coding_block_size_minus3 + 3;
  ctb_log2_size =
      pp.log2_min_luma_coding_block_size_minus3 + 3 + pp.log2_diff_max_min_luma_coding_block_size;
  min_tb_log2_size = pp.log2_min_transform_block_size_minus2 + 2;
  max_tb_log2_size =
      pp.log2_min_transform_block_size_minus2 + 2 + pp.log2_diff_max_min_transform_block_size;
  max_transform_hierarchy_depth_inter = pp.max_transform_hierarchy_depth_inter;
  max_transform_hierarchy_depth_intra = pp.max_transform_hierarchy_depth_intra;
  scaling_list_enabled_flag = to_bit pp.scaling_list_enabled_flag;
}

abbrev pub pcm_of : HevcParameters → Option PcmSyntax
pcm_of pp =
    if pp.pcm_enabled_flag
    then some (record {
      pcm_bit_depth_luma = pp.pcm_sample_bit_depth_luma_minus1 + 1;
      pcm_bit_depth_chroma = pp.pcm_sample_bit_depth_chroma_minus1 + 1;
      min_pcm_log2_size = pp.log2_min_pcm_luma_coding_block_size_minus3 + 3;
      max_pcm_log2_size =
          pp.log2_min_pcm_luma_coding_block_size_minus3 + 3
          + pp.log2_diff_max_min_pcm_luma_coding_block_size;
      pcm_loop_filter_disabled_flag = to_bit pp.pcm_loop_filter_disabled_flag;
    })
    else none

abbrev pub tools_of : HevcParameters → ToolSyntax
tools_of pp = record {
  amp_enabled_flag = to_bit pp.amp_enabled_flag;
  sample_adaptive_offset_enabled_flag = to_bit pp.sample_adaptive_offset_enabled_flag;
  pcm = pcm_of pp;
  long_term_ref_pics_present_flag = to_bit pp.long_term_ref_pics_present_flag;
  sps_temporal_mvp_enabled_flag = to_bit pp.sps_temporal_mvp_enabled_flag;
  strong_intra_smoothing_enabled_flag = to_bit pp.strong_intra_smoothing_enabled_flag;
}

abbrev pub sps_of : HevcParameters → ℕ → SpsSyntax
sps_of pp profile_idc = record {
  header = header_of 33;
  sps_video_parameter_set_id = 0;
  sps_max_sub_layers = 1;
  profile = profile_of pp profile_idc;
  sps_seq_parameter_set_id = 0;
  picture = picture_of pp;
  blocks = blocks_of pp;
  tools = tools_of pp;
}
