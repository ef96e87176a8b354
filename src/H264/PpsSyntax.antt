-- ===== src/H264/PpsSyntax.antt =====
-- The picture parameter set of 7.3.2.2, as a decoder reads what src/h264.c writes.
use rockchip_vaapi.Base.{
  ℕ, ◌+◌, ◌/◌, ◌%◌, Bool, true, ◌||◌, not, Option, none, some, List, [], ◌++◌, ◌==◌, if◌then◌else◌,
  take,
}
use rockchip_vaapi.Base.Int.{ℤ, pos, negsuc, ◌==ℤ◌}
use rockchip_vaapi.Bitstream.Decoder.{Decoder, give, bits, golomb, signed}
use rockchip_vaapi.H264.{PictureParameters, IqMatrix}
use rockchip_vaapi.H264.Matrices.{zigzag, scaling_lists, scanned_lists}

-- The part behind `more_rbsp_data()`.
pub record HighSyntax : Type 0 where
  pub transform_8x8_mode_flag : ℕ
  pub lists : List (List ℕ)
  pub second_chroma_qp_index_offset : ℤ

pub record PpsSyntax : Type 0 where
  pub nal_ref_idc : ℕ
  pub nal_unit_type : ℕ
  pub pic_parameter_set_id : ℕ
  pub seq_parameter_set_id : ℕ
  pub entropy_coding_mode_flag : ℕ
  pub bottom_field_pic_order_in_frame_present_flag : ℕ
  pub num_slice_groups : ℕ
  pub num_ref_idx_l0_default_active : ℕ
  pub num_ref_idx_l1_default_active : ℕ
  pub weighted_pred_flag : ℕ
  pub weighted_bipred_idc : ℕ
  pub pic_init_qp_minus26 : ℤ
  pub pic_init_qs_minus26 : ℤ
  pub chroma_qp_index_offset : ℤ
  pub deblocking_filter_control_present_flag : ℕ
  pub constrained_intra_pred_flag : ℕ
  pub redundant_pic_cnt_present_flag : ℕ
  pub high : Option HighSyntax

-- Six lists of 16, and two of 64 with the 8x8 transform.
abbrev pub matrix_syntax : ℕ → ℕ → (List (List ℕ) → Decoder PpsSyntax) → Decoder PpsSyntax
matrix_syntax present transform next =
    if present == 0
    then next []
    else scaling_lists 6 16 (λ small.
      if transform == 0 then next small else scaling_lists 2 64 (λ large. next (small ++ large)))

abbrev pub high_syntax : (HighSyntax → Decoder PpsSyntax) → Decoder PpsSyntax
high_syntax next = bits 1 (λ transform. bits 1 (λ pic_scaling_matrix_present_flag.
    matrix_syntax pic_scaling_matrix_present_flag transform (λ lists. signed (λ second.
      next (record {
        transform_8x8_mode_flag = transform;
        lists = lists;
        second_chroma_qp_index_offset = second;
      })))))

abbrev pub end_syntax : Bool → (Option HighSyntax → Decoder PpsSyntax) → Decoder PpsSyntax
end_syntax more_rbsp_data next =
    if more_rbsp_data then high_syntax (λ high. next (some high)) else next none

abbrev pub pps_syntax : Bool → Decoder PpsSyntax
pps_syntax more_rbsp_data = bits 8 (λ nal. golomb (λ id. golomb (λ sps_id. bits 1 (λ entropy.
    bits 1 (λ order. golomb (λ groups. golomb (λ l0. golomb (λ l1. bits 1 (λ weighted.
      bits 2 (λ bipred. signed (λ qp. signed (λ qs. signed (λ chroma. bits 1 (λ deblocking.
        bits 1 (λ constrained. bits 1 (λ redundant. end_syntax more_rbsp_data (λ high.
          give (record {
            nal_ref_idc = nal / 32;
            nal_unit_type = nal % 32;
            pic_parameter_set_id = id;
            seq_parameter_set_id = sps_id;
            entropy_coding_mode_flag = entropy;
            bottom_field_pic_order_in_frame_present_flag = order;
            num_slice_groups = groups + 1;
            num_ref_idx_l0_default_active = l0 + 1;
            num_ref_idx_l1_default_active = l1 + 1;
            weighted_pred_flag = weighted;
            weighted_bipred_idc = bipred;
            pic_init_qp_minus26 = qp;
            pic_init_qs_minus26 = qs;
            chroma_qp_index_offset = chroma;
            deblocking_filter_control_present_flag = deblocking;
            constrained_intra_pred_flag = constrained;
            redundant_pic_cnt_present_flag = redundant;
            high = high;
          }))))))))))))))))))

-- What the parameters say: the matrices are those of the zig-zag scan.
abbrev pub lists_of : PictureParameters → Option IqMatrix → List (List ℕ)
lists_of pp none = []
lists_of pp (some iq) =
    scanned_lists (take 6 iq.scaling_list4x4) (zigzag 4)
    ++ (if pp.transform_8x8_mode_flag == 0
        then []
        else scanned_lists (take 2 iq.scaling_list8x8) (zigzag 8))

-- The High part is there where it says more than its absence would.
abbrev pub is_high : PictureParameters → Option IqMatrix → Bool
is_high pp none =
    not (pp.transform_8x8_mode_flag == 0)
    || not (pp.second_chroma_qp_index_offset ==ℤ pp.chroma_qp_index_offset)
is_high pp (some iq) = true

abbrev pub high_of : PictureParameters → Option IqMatrix → Option HighSyntax
high_of pp iq =
    if is_high pp iq
    then some (record {
      transform_8x8_mode_flag = pp.transform_8x8_mode_flag;
      lists = lists_of pp iq;
      second_chroma_qp_index_offset = pp.second_chroma_qp_index_offset;
    })
    else none

-- A default count below 0 stands for one reference.
abbrev pub count_of : ℤ → ℕ
count_of (pos n) = n + 1
count_of (negsuc n) = 1

abbrev pub pps_of : PictureParameters → Option IqMatrix → ℤ → ℤ → PpsSyntax
pps_of pp iq l0 l1 = record {
  nal_ref_idc = 3;
  nal_unit_type = 8;
  pic_parameter_set_id = 0;
  seq_parameter_set_id = 0;
  entropy_coding_mode_flag = pp.entropy_coding_mode_flag;
  bottom_field_pic_order_in_frame_present_flag = pp.pic_order_present_flag;
  num_slice_groups = 1;
  num_ref_idx_l0_default_active = count_of l0;
  num_ref_idx_l1_default_active = count_of l1;
  weighted_pred_flag = pp.weighted_pred_flag;
  weighted_bipred_idc = pp.weighted_bipred_idc;
  pic_init_qp_minus26 = pp.pic_init_qp_minus26;
  pic_init_qs_minus26 = pp.pic_init_qs_minus26;
  chroma_qp_index_offset = pp.chroma_qp_index_offset;
  deblocking_filter_control_present_flag = pp.deblocking_filter_control_present_flag;
  constrained_intra_pred_flag = pp.constrained_intra_pred_flag;
  redundant_pic_cnt_present_flag = pp.redundant_pic_cnt_present_flag;
  high = high_of pp iq;
}
