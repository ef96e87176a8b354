-- ===== src/Hevc/Rewrite/SetExamples.antt =====
-- The written set of one picture before the current one and one behind it.
use rockchip_vaapi.Base.{arith, ◌≡◌, refl, true, false, some, [], ◌∷◌}
use rockchip_vaapi.Bitstream.Decoder.{run}
use rockchip_vaapi.Bitstream.{log2_loop}
use rockchip_vaapi.Bitstream.Golomb.{ue_zeros}
use rockchip_vaapi.Hevc.Golomb.{Ahead}
use rockchip_vaapi.Bitstream.Elements.{u, all_bits}
use rockchip_vaapi.Hevc.Reader.{BitReader}
use rockchip_vaapi.Hevc.Rps.{Rps}
use rockchip_vaapi.Hevc.Rewrite.{short_entries, write_short_term_rps}
use rockchip_vaapi.Hevc.Rewrite.SetRead.{set_syntax, write_short_term_rps-read}

-- 0 010 010 010 1 1 0 and zeros.
abbrev reader : BitReader
reader = record { bytes = 0x24 ∷ 0xB0 ∷ []; size = 2; bit = 0 }

abbrev two : Rps
two = record {
  negative = record { delta = 2; poc = 3; used = true } ∷ [];
  positive = record { delta = 1; poc = 6; used = false } ∷ [];
  long_term = [];
}

two-Ahead : Ahead reader (all_bits (u 0 1 ∷ write_short_term_rps two 0))
unfolding write_short_term_rps short_entries ue_zeros log2_loop
two-Ahead = (
  omega arith,
  refl,
  (
    omega arith,
    refl,
    (
      omega arith,
      refl,
      (
        omega arith,
        refl,
        (
          omega arith,
          refl,
          (
            omega arith,
            refl,
            (
              omega arith,
              refl,
              (
                omega arith,
                refl,
                (
                  omega arith,
                  refl,
                  (
                    omega arith,
                    refl,
                    (omega arith, refl, (omega arith, refl, (omega arith, refl, tt))),
                  ),
                ),
              ),
            ),
          ),
        ),
      ),
    ),
  ),
)

write_short_term_rps-read_example :
    run set_syntax reader
    ≡ some
        (record { short_term_ref_pic_set_sps_flag = 0; before = (2, 1) ∷ []; behind = (1, 0) ∷ [] })
write_short_term_rps-read_example =
    write_short_term_rps-read two reader (omega arith) (omega arith, tt) (omega arith, tt)
      ((omega arith, omega arith), tt) ((omega arith, omega arith), tt) (omega arith) two-Ahead
