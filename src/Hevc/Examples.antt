-- ===== src/Hevc/Examples.antt =====
-- The HEVC readers on concrete bits: Golomb codes behind three bits, and a slice NAL unit.
use rockchip_vaapi.Base.{
  ℕ, ◌+◌, ◌*◌, ◌^◌, ◌≤◌, ◌≡◌, ◌≢◌, refl, List, [], ◌∷◌, true, false, some, arith, length,
}
use rockchip_vaapi.Bitstream.{BsWriter, bs_init, bs_write, bs_write_ue, log2_loop}
use rockchip_vaapi.Bitstream.Content.{
  Holds, bits_of, bs_init-Holds, bs_init-capacity, bs_write-Holds, bs_write-capacity,
}
use rockchip_vaapi.Bitstream.Golomb.{ue_zeros}
use rockchip_vaapi.Bitstream.Stands.{Stands}
use rockchip_vaapi.Nal.{emulation_prevent, emulation_loop}
use rockchip_vaapi.Hevc.Reader.{br_read_ue}
use rockchip_vaapi.Hevc.Slice.{rk_hevc_parse_slice_info}
use rockchip_vaapi.Hevc.SliceInfo.{
  Slice, SliceFits, slice_bits, slice_info, short, rk_hevc_parse_slice_info_lem,
}
use rockchip_vaapi.Hevc.Golomb.{reader_of, ahead, br_read_ue-bs_write_ue, br_read_ue_misreads}

abbrev three_bits : BsWriter
three_bits = bs_write (bs_init 16) 5 3

three_bits-Holds : Holds three_bits (bits_of 5 3)
three_bits-Holds =
    bs_write-Holds (bs_init 16) [] 5 3 (bs_init-Holds 16) (omega (arith, bs_init-capacity 16))

three_bits_room : length (bits_of 5 3) + 64 ≤ 8 * three_bits.capacity
three_bits_room = omega (arith, bs_write-capacity (bs_init 16) 5 3, bs_init-capacity 16)

br_read_ue-bs_write_ue_example :
    br_read_ue (reader_of (bs_write_ue three_bits 41) 3)
    ≡ some (41, ahead (reader_of (bs_write_ue three_bits 41) 3) (2 * ue_zeros 41 + 1))
br_read_ue-bs_write_ue_example =
    br_read_ue-bs_write_ue three_bits (bits_of 5 3) 41 three_bits-Holds three_bits_room
      (omega arith)

br_read_ue_misreads_example :
    (br_read_ue (reader_of (bs_write_ue three_bits (2 ^ 31)) 3)
      ≡ some (0, ahead (reader_of (bs_write_ue three_bits (2 ^ 31)) 3) (2 * ue_zeros (2 ^ 31) + 1)))
    × (0 ≢ 2 ^ 31)
br_read_ue_misreads_example =
    br_read_ue_misreads three_bits (bits_of 5 3) (2 ^ 31) three_bits-Holds three_bits_room
      (omega arith) (omega arith)

-- An IDR slice that is the first of its picture and names PPS 2, behind a start code.
abbrev slice : Slice
slice = record {
  nal_type = 19;
  layer_id = 0;
  temporal_id_plus1 = 1;
  first = true;
  no_output = false;
  pps_id = 2;
}

slice-SliceFits : SliceFits slice
slice-SliceFits = record {
  typed = omega arith;
  layer = omega arith;
  temporal = (omega arith, omega arith);
  pps = omega arith;
}

-- 10 011 000, and a byte that is not looked at.
abbrev payload : List ℕ
payload = 0x98 ∷ 0x80 ∷ []

payload-Stands : Stands payload 2 0 (slice_bits slice)
unfolding ue_zeros log2_loop
payload-Stands = ground arith

payload_plain : emulation_prevent payload 4 ≡ some payload
unfolding emulation_prevent emulation_loop
payload_plain = refl

rk_hevc_parse_slice_info_lem_example :
    rk_hevc_parse_slice_info (0 ∷ 0 ∷ 1 ∷ 0x26 ∷ 1 ∷ 0x98 ∷ 0x80 ∷ []) ≡ some (slice_info slice)
rk_hevc_parse_slice_info_lem_example =
    rk_hevc_parse_slice_info_lem short slice payload payload 4 slice-SliceFits payload-Stands
      payload_plain
