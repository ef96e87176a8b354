-- ===== src/H264/Pps.antt =====
-- `h264_write_pps` of src/h264.c and a decoder that reads its bytes.
use rockchip_vaapi.Base.{ℕ, ◌+◌, ◌≤◌, ◌<◌, ◌≡◌, Option, none, some, List, length, take, All}
use rockchip_vaapi.Base.Int.{pos_part, neg_part}
use rockchip_vaapi.Bitstream.Elements.{Element, AllFit, all_bits}
use rockchip_vaapi.Bitstream.Decoder.{Decoder}
use rockchip_vaapi.H264.PpsSyntax.{PpsSyntax}
use rockchip_vaapi.H264.{PictureParameters, IqMatrix, scan4x4, scan8x8}
use rockchip_vaapi.H264.Scaling.{scanned, NonZero}

-- The widths of the fields in the VA-API structure, for the fields of a PPS.
pub record PpsFieldsFit (pp : PictureParameters) : Type 0 where
  pub entropy : pp.entropy_coding_mode_flag < 2
  pub order_present : pp.pic_order_present_flag < 2
  pub weighted : pp.weighted_pred_flag < 2
  pub bipred : pp.weighted_bipred_idc < 4
  pub deblocking : pp.deblocking_filter_control_present_flag < 2
  pub constrained : pp.constrained_intra_pred_flag < 2
  pub redundant : pp.redundant_pic_cnt_present_flag < 2
  pub transform : pp.transform_8x8_mode_flag < 2
  pub qp : pos_part pp.pic_init_qp_minus26 + neg_part pp.pic_init_qp_minus26 ≤ 128
  pub qs : pos_part pp.pic_init_qs_minus26 + neg_part pp.pic_init_qs_minus26 ≤ 128
  pub chroma : pos_part pp.chroma_qp_index_offset + neg_part pp.chroma_qp_index_offset ≤ 128
  pub second :
      pos_part pp.second_chroma_qp_index_offset + neg_part pp.second_chroma_qp_index_offset ≤ 128

-- Six lists and two; every entry of the matrices that the scans name is a byte other than 0.
abbrev pub MatrixFits : Option IqMatrix → Type 0
MatrixFits none = Unit
MatrixFits (some iq) =
    (length iq.scaling_list4x4 ≡ 6)
    × (length iq.scaling_list8x8 ≡ 2)
    × All (λ values. NonZero (scanned values scan4x4)) (take 6 iq.scaling_list4x4)
    × All (λ values. NonZero (scanned values scan8x8)) (take 2 iq.scaling_list8x8)

-- Elements that fit, of at most so many bits.
abbrev Within : List Element → ℕ → Type 0
Within es n = AllFit es × (length (all_bits es) ≤ n)
