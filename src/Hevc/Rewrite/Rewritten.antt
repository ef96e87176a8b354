-- ===== src/Hevc/Rewrite/Rewritten.antt =====
-- The slice NAL unit that `rk_hevc_rewrite_slice_nal` of src/hevc.c gives.
use rockchip_vaapi.Base.{
  ℕ, zero, suc, ◌+◌, ◌-◌, ◌*◌, ◌/◌, ◌%◌, ◌^◌, ◌≤◌, ◌<◌, ◌≡◌, refl, ap, ◌∙◌, true, false, not, ◌||◌,
  Option, some, List, [], ◌∷◌, ◌++◌, arith, ltb, ◌==◌, length, length-append, length-take, take_all,
  get_or, drop, take,
}
use rockchip_vaapi.Bitstream.{BsWriter, bs_bytes}
use rockchip_vaapi.Bitstream.Content.{Holds, bits_of, length-bits_of}
use rockchip_vaapi.Bitstream.Elements.{u, all_bits}
use rockchip_vaapi.Bitstream.Stands.{Stands, Stands-same, Holds-Stands, bs_bytes-le, bs_bytes-lt}
use rockchip_vaapi.Nal.{unescape_prefix}
use rockchip_vaapi.Nal.Escape.{has_start_code, emulation_prevent_hides}
use rockchip_vaapi.Nal.RoundTrip.{unescape_prefix-emulation_prevent, length-unescape_prefix}
use rockchip_vaapi.Nal.ParameterSet.{get_or-take}
use rockchip_vaapi.Hevc.Reader.{BitReader}
use rockchip_vaapi.Hevc.Slice.{nal_offset}
use rockchip_vaapi.Hevc.Rps.{Rps}
use rockchip_vaapi.Hevc.Parameters.{HevcParameters}
use rockchip_vaapi.Hevc.Validate.{validate_slice_syntax_bounds}
use rockchip_vaapi.Hevc.Validated.{validate_slice_syntax_bounds_lem}
use rockchip_vaapi.Hevc.Rewrite.Copied.{bits_from}
use rockchip_vaapi.Hevc.Rewrite.{
  write_short_term_rps, LongTerms, independent, slice_front, finish_slice, rewrite_body,
  rewrite_nal, rk_hevc_rewrite_slice_nal,
}
use rockchip_vaapi.Hevc.Rewrite.Positions.{Later, FrontLater, Ends-some, slice_front-Later}
use rockchip_vaapi.Hevc.Rewrite.Body.{CanRewrite, RewrittenBits, rewrite_body_lem}

-- The prefix and the two bytes, and behind them bytes with no start code from which a decoder that
-- drops the escapes gets the bits, with less than a byte of padding.
abbrev pub IsSlice : List ℕ → ℕ → ℕ → List ℕ → List ℕ → Type 0
IsSlice prefix first second bits out =
    (escaped : List ℕ) × (out ≡ prefix ++ first ∷ second ∷ escaped)
    × (has_start_code escaped ≡ false)
    × Stands (unescape_prefix escaped (length escaped))
        (length (unescape_prefix escaped (length escaped))) 0 bits
    × (length (unescape_prefix escaped (length escaped)) * 8 < length bits + 8)

finish_slice_lem :
    (buf_size : ℕ) (prefix : List ℕ) (first second : ℕ) (bs : BsWriter) (bits : List ℕ)
    → Holds bs bits
    → 1 ≤ length bits
    → length bits ≤ 8 * bs.capacity
    → length prefix ≤ 4
    → bs.capacity ≤ 2 ^ 30
    → 6 + 2 * bs.capacity ≤ buf_size
    → (out : List ℕ) × (finish_slice buf_size prefix first second (take (bs_bytes bs) bs.buffer)
        ≡ some out)
      × IsSlice prefix first second bits out
unfolding finish_slice
finish_slice_lem buf_size prefix first second bs bits h has few short small big =
    let size = bs_bytes bs in
    let raw = take size bs.buffer in
    let limit = buf_size - (length prefix + 2) in
    let over = bs_bytes-lt bs bits h in
    let under = bs_bytes-le bs bits h in
    let whole : length raw ≡ size = omega (arith, length-take size bs.buffer, h.sized, over, few) in
    let (out, e, hidden, longer, bound) =
      emulation_prevent_hides raw limit (omega (arith, whole, over, few, big, short)) in
    let back : unescape_prefix out (length out) ≡ raw =
      unescape_prefix-emulation_prevent raw out limit (length out) e
      ∙ take_all (length out) raw longer in
    let stands : Stands raw size 0 bits =
      Stands-same bs.buffer raw size 0 bits (λ i lt. get_or-take size i bs.buffer lt)
        (Holds-Stands bs size [] bits h under) in
    let fits : ltb buf_size (length prefix + 2) ≡ false = ground (arith, big, short) in
    let nonempty : (length out == 0) ≡ false = ground (arith, longer, whole, under, has) in
    let int : ltb (2 ^ 31 - 1 - (length prefix + 2)) (length out) ≡ false =
      ground (arith, bound, whole, over, few, small, short) in
    (
      prefix ++ first ∷ second ∷ out,
      rw (fits, e, nonempty, int) refl,
      (out, refl, hidden, rw (back, whole) stands, rw (back, whole) over),
    )

-- The NAL unit behind the start code, its type, and the raw bytes of the slice.
abbrev pub nal_of : List ℕ → List ℕ
nal_of input = drop (nal_offset input) input

abbrev pub type_of : List ℕ → ℕ
type_of input = get_or (nal_of input) 0 0 / 2 % 64

abbrev pub rbsp_of : List ℕ → List ℕ
rbsp_of input = unescape_prefix (drop 2 (nal_of input)) (length (nal_of input))

-- A NAL unit of a slice that is not an IDR picture's.
pub record IsSliceNal (input : List ℕ) : Type 0 where
  pub long_enough : 3 ≤ length (nal_of input)
  pub not_too_long : length input ≤ 2 ^ 29
  pub forbidden_bit : get_or (nal_of input) 0 0 / 128 % 2 ≡ 0
  pub slice_type : type_of input ≤ 31
  pub temporal_id : 0 < get_or (nal_of input) 1 0 % 8
  pub no_idr : (type_of input == 19 || type_of input == 20) ≡ false

length-drop-le : (n : ℕ) (xs : List ℕ) → length (drop n xs) ≤ length xs
length-drop-le zero xs = omega arith
length-drop-le (suc n) [] = omega arith
length-drop-le (suc n) (x ∷ xs) = omega (arith, length-drop-le n xs)

nal_offset-le : (input : List ℕ) → nal_offset input ≤ 4
nal_offset-le input = ground arith

-- A slice that is not an IDR picture's and whose header is of an independent segment.
pub record IsSliceInput (input : List ℕ) (pp : HevcParameters) (poc_lsb : ℕ) (br : BitReader)
    : Type 0 where
  pub nal : IsSliceNal input
  pub front :
      slice_front pp
        (type_of input)
        (record { bytes = rbsp_of input; size = length (rbsp_of input); bit = 0 })
      ≡ some (independent poc_lsb br)

RewrittenBits-nonempty :
    (pp : HevcParameters) (rps : Rps) (poc_lsb : ℕ) (sp : Option ℕ) (rbsp : List ℕ)
    (start rps_end : ℕ) (lt : LongTerms) (bits : List ℕ)
    → RewrittenBits pp rps poc_lsb sp rbsp start rps_end lt bits
    → 1 ≤ length bits
RewrittenBits-nonempty pp rps poc_lsb sp rbsp start rps_end lt bits (long, suffix, _, _, e) =
    let kept = bits_from rbsp 0 start in
    let set = all_bits (u 0 1 ∷ write_short_term_rps rps 0) in
    let flag : 1 ≤ length set = omega (
      arith,
      length-append (bits_of 0 1) (all_bits (write_short_term_rps rps 0)),
      length-bits_of 0 1,
    ) in
    omega (
      arith,
      ap length e,
      length-append ((kept ++ set) ++ long) suffix,
      length-append (kept ++ set) long,
      length-append kept set,
      flag,
    )

-- The steps behind the checks, where each of them succeeds.
rewrite_nal_steps :
    (invalid_surface buf_size : ℕ) (input : List ℕ) (pp : HevcParameters) (sp : Option ℕ)
    (prefix nal : List ℕ) (poc_lsb : ℕ) (br : BitReader) (bs : BsWriter) (out : List ℕ)
    → (let rbsp = unescape_prefix (drop 2 nal) (length nal) in
        slice_front pp
          (get_or nal 0 0 / 2 % 64)
          (record { bytes = rbsp; size = length rbsp; bit = 0 })
        ≡ some (independent poc_lsb br))
    → rewrite_body invalid_surface pp sp
        (length nal)
        (unescape_prefix (drop 2 nal) (length nal))
        poc_lsb
        br
      ≡ some bs
    → finish_slice buf_size prefix (get_or nal 0 0) (get_or nal 1 0) (take (bs_bytes bs) bs.buffer)
      ≡ some out
    → rewrite_nal true invalid_surface buf_size input pp sp prefix nal ≡ some out
unfolding rewrite_nal
rewrite_nal_steps invalid_surface buf_size input pp sp prefix nal poc_lsb br bs out front body
      finish =
    rw (front, body, finish) refl

-- The checks pass a slice that is not an IDR picture's.
past_checks :
    (invalid_surface buf_size : ℕ) (input : List ℕ) (pp : HevcParameters) (sp : Option ℕ)
    (out : List ℕ)
    → validate_slice_syntax_bounds invalid_surface pp ≡ true
    → IsSliceNal input
    → rewrite_nal true invalid_surface buf_size input pp sp
        (take (nal_offset input) input)
        (nal_of input)
      ≡ some out
    → rk_hevc_rewrite_slice_nal true invalid_surface buf_size input pp sp ≡ some out
unfolding rk_hevc_rewrite_slice_nal
past_checks invalid_surface buf_size input pp sp out valid n done =
    let sizes : not (ltb (length (nal_of input)) 3 || ltb (2 ^ 31 - 1) (length input)) ≡ true =
      ground (arith, n.long_enough, n.not_too_long) in
    let header : not (
          not (get_or (nal_of input) 0 0 / 128 % 2 == 0)
          || (ltb 31 (type_of input) || get_or (nal_of input) 1 0 % 8 == 0))
        ≡ true =
      ground (arith, n.forbidden_bit, n.slice_type, n.temporal_id) in
    rw (valid, sizes, header, n.no_idr) done

-- Where the slice syntax is within bounds, the NAL unit is a slice of no IDR picture and its header one
-- of an independent segment that ends at a bit, the set behind it can be skipped, the references
-- collected with distances that rise, a long-term set that is written can be written, the slice data
-- are found behind an alignment bit, memory is allocated and the buffer has room for twice as many
-- bytes and 8,198 more: the slice is written. It has the prefix and the two header bytes of the
-- input, and behind them no start code. Without the escapes, its bits are those of the input up to
-- the reference picture set, the collected set, the long-term part, and the bits of the input behind
-- the set: the rest of the header, an alignment to the byte, and the slice data.
pub rk_hevc_rewrite_slice_nal_lem :
    (invalid_surface buf_size : ℕ) (input : List ℕ) (pp : HevcParameters) (sp : Option ℕ)
    (poc_lsb : ℕ) (br next : BitReader) (lt : LongTerms) (rps : Rps)
    → validate_slice_syntax_bounds invalid_surface pp ≡ true
    → IsSliceInput input pp poc_lsb br
    → CanRewrite invalid_surface pp sp (rbsp_of input) poc_lsb br next lt rps
    → 6 + 2 * (length input + 4096) ≤ buf_size
    → (out bits : List ℕ) × (rk_hevc_rewrite_slice_nal true invalid_surface buf_size input pp sp
        ≡ some out)
      × RewrittenBits pp rps poc_lsb sp (rbsp_of input) br.bit next.bit lt bits
      × IsSlice
          (take (nal_offset input) input)
          (get_or (nal_of input) 0 0)
          (get_or (nal_of input) 1 0)
          bits
          out
rk_hevc_rewrite_slice_nal_lem invalid_surface buf_size input pp sp poc_lsb br next lt rps valid ok
      can big =
    let nal = nal_of input in
    let rbsp = rbsp_of input in
    let reader : BitReader = record { bytes = rbsp; size = length rbsp; bit = 0 } in
    let syntax = validate_slice_syntax_bounds_lem invalid_surface pp valid in
    let later : Later reader br =
      Ends-some (FrontLater reader) _ (independent poc_lsb br)
        (slice_front-Later pp (type_of input) reader) ok.front in
    let (bits, rewritten, gives) =
      rewrite_body_lem invalid_surface pp sp (length nal) rbsp poc_lsb br next lt rps can
        (omega (arith, syntax.poc_lsb)) later.same_size
        (omega (arith, later.inside (omega arith), later.same_size))
        (length-unescape_prefix (drop 2 nal) (length nal)) in
    let (bs, e, h, cap, room) = gives in
    let prefix = take (nal_offset input) input in
    let short : length prefix ≤ 4 =
      omega (arith, length-take (nal_offset input) input, nal_offset-le input) in
    let smaller = length-drop-le (nal_offset input) input in
    let (out, finish, slice) =
      finish_slice_lem buf_size prefix (get_or nal 0 0) (get_or nal 1 0) bs bits h
        (RewrittenBits-nonempty pp rps poc_lsb sp rbsp br.bit next.bit lt bits rewritten)
        (omega (arith, cap, room)) short (omega (arith, cap, smaller, ok.nal.not_too_long))
        (omega (arith, cap, smaller, big)) in
    (
      out,
      bits,
      past_checks invalid_surface buf_size input pp sp out valid ok.nal (
          rewrite_nal_steps invalid_surface buf_size input pp sp prefix nal poc_lsb br bs out
            ok.front e finish),
      rewritten,
      slice,
    )
