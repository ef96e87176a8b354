-- ===== src/Hevc/Writers/Written.antt =====
-- The VPS, SPS and PPS that src/hevc.c writes, and a decoder that reads their bytes.
use rockchip_vaapi.Base.{
  ℕ, ◌+◌, ◌-◌, ◌*◌, ◌^◌, ◌≤◌, ◌≡◌, refl, true, false, Option, some, List, ◌++◌, arith, leb, length,
  length-append,
}
use rockchip_vaapi.Bitstream.Elements.{Element}
use rockchip_vaapi.Bitstream.Decoder.{decode, decode-feed}
use rockchip_vaapi.Hevc.Syntax.{vps_syntax, vps_of}
use rockchip_vaapi.Hevc.SpsSyntax.{sps_syntax, sps_of}
use rockchip_vaapi.Hevc.PpsSyntax.{pps_syntax, pps_of}
use rockchip_vaapi.Hevc.Read.{vps_read, hevc_sps_read}
use rockchip_vaapi.Hevc.ReadPps.{SizesGiven, hevc_pps_read}
use rockchip_vaapi.Nal.{start_code}
use rockchip_vaapi.Nal.Escape.{has_start_code}
use rockchip_vaapi.Nal.ParameterSet.{finish_nal_lem, Decodes}
use rockchip_vaapi.Hevc.Rps.{Rps}
use rockchip_vaapi.Hevc.Parameters.{HevcParameters, HevcMatrix}
use rockchip_vaapi.Hevc.Validate.{validate_picture_parameters}
use rockchip_vaapi.Hevc.Validated.{IsValidated, validate_picture_parameters_lem}
use rockchip_vaapi.Hevc.Writers.{
  vps_elements, write_vps, hevc_sps_elements, write_sps, hevc_pps_elements, write_pps,
  write_sequence_parameter_sets, rk_hevc_write_parameter_sets,
}
use rockchip_vaapi.Hevc.Writers.Headers.{WidthsFit, vps_elements-Within, hevc_sps_elements-Within}
use rockchip_vaapi.Hevc.Writers.Pictures.{MatricesFit, hevc_pps_elements-Within}

-- The bytes behind a start code hold no start code, and decode to the elements.
abbrev pub IsNal : List ℕ → List Element → Type 0
IsNal out es = (has_start_code out ≡ false) × Decodes out es

module _ (pp : HevcParameters) (w : WidthsFit pp) (iq : Option HevcMatrix) (profile_idc : ℕ)
    (v : IsValidated pp iq profile_idc) where
  write_vps_lem :
      (buf_size : ℕ)
      → 4 + 2 * 512 ≤ buf_size
      → (out : List ℕ) × (write_vps buf_size pp profile_idc ≡ some (start_code out))
        × (length out ≤ 768)
        × IsNal out (vps_elements pp profile_idc)
  unfolding write_vps
  write_vps_lem buf_size big =
      let within = vps_elements-Within pp w iq profile_idc v in
      let (out, e, short, hidden, decodes) =
        finish_nal_lem 512 (vps_elements pp profile_idc) within.fits (omega (arith, within.bits))
          buf_size big (omega arith) in
      (out, e, omega (arith, short), (hidden, decodes))

  write_sps_lem :
      (buf_size : ℕ)
      → 4 + 2 * 32768 ≤ buf_size
      → (out : List ℕ) × (write_sps buf_size pp profile_idc ≡ some (start_code out))
        × (length out ≤ 49152)
        × IsNal out (hevc_sps_elements pp profile_idc)
  unfolding write_sps
  write_sps_lem buf_size big =
      let within = hevc_sps_elements-Within pp w iq profile_idc v in
      let (out, e, short, hidden, decodes) =
        finish_nal_lem 32768 (hevc_sps_elements pp profile_idc) within.fits
          (omega (arith, within.bits)) buf_size big (omega arith) in
      (out, e, omega (arith, short), (hidden, decodes))

  write_pps_lem :
      (buf_size pps_id : ℕ)
      → 4 + 2 * 32768 ≤ buf_size
      → pps_id ≤ 63
      → MatricesFit iq
      → (es : List Element) × (out : List ℕ) × (hevc_pps_elements pp iq pps_id ≡ some es)
        × (write_pps buf_size pp iq pps_id ≡ some (start_code out))
        × (length out ≤ 49152)
        × IsNal out es
  unfolding write_pps
  write_pps_lem buf_size pps_id big le m =
      let (es, made, within) = hevc_pps_elements-Within pp w iq profile_idc v pps_id le m in
      let (out, e, short, hidden, decodes) =
        finish_nal_lem 32768 es within.fits (omega (arith, within.bits)) buf_size big
          (omega arith) in
      (es, out, made, rw made e, omega (arith, short), (hidden, decodes))

  sets_lem :
      (buf_size : ℕ)
      → 2 ^ 17 ≤ buf_size
      → (vps sps : List ℕ) × (write_sequence_parameter_sets buf_size pp profile_idc
          ≡ some (start_code vps ++ start_code sps))
        × (length (start_code vps ++ start_code sps) ≤ 49928)
        × IsNal vps (vps_elements pp profile_idc)
        × IsNal sps (hevc_sps_elements pp profile_idc)
  unfolding write_sequence_parameter_sets
  sets_lem buf_size big =
      let (vps, e, le, nal) = write_vps_lem buf_size (omega arith) in
      let (sps, e', le', nal') =
        write_sps_lem (buf_size - length (start_code vps)) (omega (arith, le)) in
      let fits : leb (length (start_code vps) + length (start_code sps)) (2 ^ 31 - 1) ≡ true =
        ground (arith, le, le') in
      (
        vps,
        sps,
        rw (e, e', fits) refl,
        omega (arith, length-append (start_code vps) (start_code sps), le, le'),
        nal,
        nal',
      )

-- What the three writers give: each NAL unit behind its start code, without one inside, and with the
-- syntax of its parameter set.
pub record AreWritten (invalid_surface buf_size : ℕ) (pp : HevcParameters) (iq : Option HevcMatrix)
    (pps_id profile_idc : ℕ) (vps sps pps : List ℕ) : Type 0 where
  pub written :
      rk_hevc_write_parameter_sets invalid_surface buf_size pp iq pps_id profile_idc
      ≡ some ((start_code vps ++ start_code sps) ++ start_code pps)
  pub vps_hidden : has_start_code vps ≡ false
  pub sps_hidden : has_start_code sps ≡ false
  pub pps_hidden : has_start_code pps ≡ false
  pub vps_decoded : decode vps_syntax vps ≡ some (vps_of pp profile_idc)
  pub sps_decoded : decode sps_syntax sps ≡ some (sps_of pp profile_idc)
  pub pps_decoded : decode pps_syntax pps ≡ some (pps_of pp iq pps_id)

-- Where the parameters pass the validation, the fields that it does not bound fit their widths, the
-- arrays of tile sizes have an entry for each tile column and row but the last, the matrices are of
-- bytes with no zero DC value, `pps_id` is at most 63 and the buffer has 2 ^ 17 bytes, the bundle is
-- written: three start codes, each with bytes that hold no start code and from which a decoder that
-- drops the escapes and reads the VPS, SPS and PPS syntax of the standard gets each field of the
-- parameters in its place, and the matrices along the up-right diagonal scan.
pub rk_hevc_write_parameter_sets_lem :
    (invalid_surface buf_size : ℕ) (pp : HevcParameters) (iq : Option HevcMatrix)
    (pps_id profile_idc : ℕ) (rps : Rps)
    → WidthsFit pp
    → SizesGiven pp
    → MatricesFit iq
    → pps_id ≤ 63
    → 2 ^ 17 ≤ buf_size
    → validate_picture_parameters invalid_surface pp iq profile_idc ≡ some rps
    → (vps sps pps : List ℕ) × AreWritten invalid_surface buf_size pp iq pps_id profile_idc vps sps
        pps
unfolding rk_hevc_write_parameter_sets
rk_hevc_write_parameter_sets_lem invalid_surface buf_size pp iq pps_id profile_idc rps w given m le
      big valid =
    let (v, _) = validate_picture_parameters_lem invalid_surface pp iq profile_idc rps valid in
    let (vps, sps, e, short, nal, nal') = sets_lem pp w iq profile_idc v buf_size big in
    let sets = start_code vps ++ start_code sps in
    let (es, pps, made, e', short', nal'') =
      write_pps_lem pp w iq profile_idc v (buf_size - length sets) pps_id (omega (arith, short)) le
        m in
    let id : leb pps_id 63 ≡ true = ground (arith, le) in
    let fits : leb (length sets) (2 ^ 31 - 1 - length (start_code pps)) ≡ true =
      ground (arith, short, short') in
    let main = v.ranges.profile in
    (
      vps,
      sps,
      pps,
      record {
        written = rw (id, valid, e, e', fits) refl;
        vps_hidden = nal.0;
        sps_hidden = nal'.0;
        pps_hidden = nal''.0;
        vps_decoded =
            decode-feed vps_syntax (vps_elements pp profile_idc) vps (vps_of pp profile_idc) nal.1
              (vps_read pp profile_idc main);
        sps_decoded =
            decode-feed sps_syntax (hevc_sps_elements pp profile_idc) sps (sps_of pp profile_idc)
              nal'.1 (hevc_sps_read pp profile_idc main v.ranges.chroma);
        pps_decoded =
            decode-feed pps_syntax es pps (pps_of pp iq pps_id) nal''.1
              (hevc_pps_read pp iq profile_idc v given pps_id es m made);
      },
    )
