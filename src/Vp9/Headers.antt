-- ===== src/Vp9/Headers.antt =====
-- The parser of src/vp9.c on the fields of a frame header.
use rockchip_vaapi.Base.{
  ℕ, ◌+◌, ◌-◌, ◌*◌, ◌/◌, ◌%◌, ◌^◌, ◌≤◌, ◌<◌, ◌≡◌, refl, ◌∙◌, Bool, true, false, not, Option, some,
  List, [], ◌∷◌, arith, ◌==◌, if◌then◌else◌, to_bit, ◌>>=◌,
}
use rockchip_vaapi.Bitstream.Content.{bits_of}
use rockchip_vaapi.Bitstream.Stands.{Stands}
use rockchip_vaapi.Vp9.{
  FrameInfo, Reader, read_bits, read_profile, skip_color_config, show_existing, parse_key,
  parse_inter, parse_frame_header, sync_code, parse_header, rk_vp9_parse_frame,
}
use rockchip_vaapi.Vp9.Reading.{read_bits_lem}
use rockchip_vaapi.Vp9.Fields.{
  Header, repeat, key, shown, hidden, intra, Fields, profile_of, flag, sync_fields, reset_field,
  body_fields, header_fields, Laid, Fits, info_of,
}

truth : (b : Bool) → not (to_bit b == 0) ≡ b
truth true = refl
truth false = refl

module _ (bytes : List ℕ) (size : ℕ) where
  abbrev read : Reader
  read = read_bits bytes (size * 8)

  bit_read :
      (v pos : ℕ) → v < 2 → Stands bytes size pos (bits_of v 1) → read pos 1 ≡ some (v, pos + 1)
  bit_read v pos lt s = read_bits_lem bytes size v 0 pos (omega arith) lt s

  flag_read :
      (b : Bool) (pos : ℕ)
      → Stands bytes size pos (bits_of (to_bit b) 1)
      → read pos 1 ≡ some (to_bit b, pos + 1)
  flag_read b pos s = bit_read (to_bit b) pos (ground arith) s

  read_profile_lem :
      (deep : Bool) (pos : ℕ)
      → Stands bytes size pos (bits_of 0 1)
      → Stands bytes size (pos + 1) (bits_of (to_bit deep) 1)
      → read_profile read pos ≡ some (profile_of deep, pos + 1 + 1)
  unfolding read_profile
  read_profile_lem false pos low high = ground (arith, bit_read 0 pos, bit_read 0 (pos + 1))
  read_profile_lem true pos low high = ground (arith, bit_read 0 pos, bit_read 1 (pos + 1))

  skip_color_config_lem :
      (color pos : ℕ)
      → color < 14
      → Laid bytes size pos ((0, 1) ∷ (color / 2, 3) ∷ (color % 2, 1) ∷ [])
      → skip_color_config read 2 pos ≡ some (pos + 1 + 3 + 1)
  unfolding skip_color_config
  skip_color_config_lem color pos lt (depth, (space, (range, _))) = ground (
    arith,
    bit_read 0 pos,
    read_bits_lem bytes size (color / 2) 2 (pos + 1) (omega arith) (omega arith) space,
    bit_read (color % 2) (pos + 1 + 3),
  )

  sync_code_lem :
      (deep : Bool) (color pos : ℕ) (rest : Fields)
      → color < 14
      → Laid bytes size pos (sync_fields deep color rest)
      → (next : ℕ) × (sync_code read (profile_of deep) pos ≡ some next) × Laid bytes size next rest
  sync_code_lem false color pos rest lt (code, s) = (
    pos + 24,
    ground (arith, read_bits_lem bytes size 0x498342 23 pos (omega arith) (omega arith) code),
    s,
  )
  sync_code_lem true color pos rest lt (code, (depth, (space, (range, s)))) = (
    pos + 24 + 1 + 3 + 1,
    ground (
      arith,
      read_bits_lem bytes size 0x498342 23 pos (omega arith) (omega arith) code,
      skip_color_config_lem color (pos + 24) lt (depth, (space, (range, tt))),
    ),
    s,
  )

  -- The two bits that are read and dropped where error resilience is off.
  reset_lem :
      (resilient : Bool) (reset pos : ℕ) (rest : Fields)
      → reset < 4
      → Laid bytes size pos (reset_field resilient reset rest)
      → (value next : ℕ) × ((if to_bit resilient == 0 then read pos 2 else some (0, pos))
          ≡ some (value, next))
        × Laid bytes size next rest
  reset_lem true reset pos rest lt s = (0, pos, refl, s)
  reset_lem false reset pos rest lt (here, s) =
      (reset, pos + 2, read_bits_lem bytes size reset 1 pos (omega arith) (omega arith) here, s)

  parse_inter_shown :
      (deep resilient : Bool) (reset refresh pos : ℕ)
      → reset < 4
      → refresh < 256
      → Laid bytes size pos (reset_field resilient reset ((refresh, 8) ∷ []))
      → parse_inter read (profile_of deep) true (to_bit resilient) pos
        ≡ some (info_of (shown resilient reset refresh))
  unfolding parse_inter
  parse_inter_shown deep resilient reset refresh pos lt fits s =
      let (value, next, e, (last, _)) = reset_lem resilient reset pos _ lt s in
      rw e
        (ground (arith, read_bits_lem bytes size refresh 7 next (omega arith) (omega arith) last))

  parse_inter_hidden :
      (deep resilient : Bool) (reset refresh pos : ℕ)
      → reset < 4
      → refresh < 256
      → Laid bytes size pos (flag false ∷ reset_field resilient reset ((refresh, 8) ∷ []))
      → parse_inter read (profile_of deep) false (to_bit resilient) pos
        ≡ some (info_of (hidden resilient reset refresh))
  unfolding parse_inter
  parse_inter_hidden deep resilient reset refresh pos lt fits (intra_only, s) =
      let (value, next, e, (last, _)) = reset_lem resilient reset (pos + 1) _ lt s in
      rw (bit_read 0 pos (omega arith) intra_only) (
        rw e (
          ground (arith, read_bits_lem bytes size refresh 7 next (omega arith) (omega arith) last)))

  parse_inter_intra :
      (deep resilient : Bool) (reset color refresh pos : ℕ)
      → reset < 4
      → color < 14
      → refresh < 256
      → Laid bytes size pos
          (flag true ∷ reset_field resilient reset (sync_fields deep color ((refresh, 8) ∷ [])))
      → parse_inter read (profile_of deep) false (to_bit resilient) pos
        ≡ some (info_of (intra resilient reset color refresh))
  unfolding parse_inter
  parse_inter_intra deep resilient reset color refresh pos lt space fits (intra_only, s) =
      let (value, next, e, s) = reset_lem resilient reset (pos + 1) _ lt s in
      let (next', e', (last, _)) = sync_code_lem deep color next ((refresh, 8) ∷ []) space s in
      rw (bit_read 1 pos (omega arith) intra_only) (
        rw e (
          rw e' (
            ground
              (arith, read_bits_lem bytes size refresh 7 next' (omega arith) (omega arith) last))))

  parse_key_lem :
      (deep show resilient : Bool) (color pos : ℕ)
      → color < 14
      → Laid bytes size pos (sync_fields deep color [])
      → parse_key read (profile_of deep) show pos ≡ some (info_of (key show resilient color))
  unfolding parse_key
  parse_key_lem deep show resilient color pos lt s =
      let (next, e, _) = sync_code_lem deep color pos [] lt s in rw e

  -- The three bits in front of every frame that is no repeat.
  frame_header_key :
      (deep show resilient : Bool) (pos : ℕ)
      → Laid bytes size pos (flag false ∷ flag show ∷ flag resilient ∷ [])
      → parse_frame_header read (profile_of deep) pos
        ≡ parse_key read (profile_of deep) show (pos + 1 + 1 + 1)
  unfolding parse_frame_header
  frame_header_key deep show resilient pos (a, (b, (c, _))) =
      rw
        (
          bit_read 0 pos (omega arith) a,
          flag_read show (pos + 1) b,
          flag_read resilient (pos + 1 + 1) c,
        )
        (rw (truth show))

  frame_header_inter :
      (deep show resilient : Bool) (pos : ℕ)
      → Laid bytes size pos (flag true ∷ flag show ∷ flag resilient ∷ [])
      → parse_frame_header read (profile_of deep) pos
        ≡ parse_inter read (profile_of deep) show (to_bit resilient) (pos + 1 + 1 + 1)
  unfolding parse_frame_header
  frame_header_inter deep show resilient pos (a, (b, (c, _))) =
      rw
        (
          bit_read 1 pos (omega arith) a,
          flag_read show (pos + 1) b,
          flag_read resilient (pos + 1 + 1) c,
        )
        (rw (truth show))

  show_existing_lem :
      (slot pos : ℕ)
      → slot < 8
      → Stands bytes size pos (bits_of slot 3)
      → show_existing read pos ≡ some (info_of (repeat slot))
  unfolding show_existing
  show_existing_lem slot pos lt s =
      ground (arith, read_bits_lem bytes size slot 2 pos (omega arith) lt s)

  -- What follows the profile.
  abbrev body : ℕ → ℕ → Option FrameInfo
  body profile pos = do
    (existing, pos) ← read pos 1
    if not (existing == 0) then show_existing read pos else parse_frame_header read profile pos

  parse_header_profile :
      (deep : Bool)
      → Laid bytes size 0 ((2, 2) ∷ (0, 1) ∷ flag deep ∷ [])
      → parse_header read (profile_of deep) ≡ body (profile_of deep) 4
  unfolding parse_header
  parse_header_profile false (marker, (low, (high, _))) = rw (
    read_bits_lem bytes size 2 1 0 (omega arith) (omega arith) marker,
    read_profile_lem false 2 low high,
  )
  parse_header_profile true (marker, (low, (high, _))) = rw (
    read_bits_lem bytes size 2 1 0 (omega arith) (omega arith) marker,
    read_profile_lem true 2 low high,
  )

  body_lem :
      (deep : Bool) (h : Header)
      → Fits h
      → Laid bytes size 4 (body_fields deep h)
      → body (profile_of deep) 4 ≡ some (info_of h)
  body_lem deep (repeat slot) fits (a, (s, _)) =
      rw (bit_read 1 4 (omega arith) a) (show_existing_lem slot 5 fits s)
  body_lem deep (key show resilient color) fits (a, (b, (c, (d, s)))) =
      rw (bit_read 0 4 (omega arith) a) (
        frame_header_key deep show resilient 5 (b, (c, (d, tt)))
        ∙ parse_key_lem deep show resilient color 8 fits s)
  body_lem deep (shown resilient reset refresh) (fr, ff) (a, (b, (c, (d, s)))) =
      rw (bit_read 0 4 (omega arith) a) (
        frame_header_inter deep true resilient 5 (b, (c, (d, tt)))
        ∙ parse_inter_shown deep resilient reset refresh 8 fr ff s)
  body_lem deep (hidden resilient reset refresh) (fr, ff) (a, (b, (c, (d, s)))) =
      rw (bit_read 0 4 (omega arith) a) (
        frame_header_inter deep false resilient 5 (b, (c, (d, tt)))
        ∙ parse_inter_hidden deep resilient reset refresh 8 fr ff s)
  body_lem deep (intra resilient reset color refresh) (fr, fc, ff) (a, (b, (c, (d, s)))) =
      rw (bit_read 0 4 (omega arith) a) (
        frame_header_inter deep false resilient 5 (b, (c, (d, tt)))
        ∙ parse_inter_intra deep resilient reset color refresh 8 fr fc ff s)

  -- Where the fields of a frame header of profile 0, or of profile 2 with 10-bit samples and a colour
  -- space other than RGB, stand at the start of a buffer of at most (2 ^ 64 - 1) / 8 bytes, the parser
  -- gives what they say: the slot that a repeat shows, all eight slots for a key frame, and the refresh
  -- flags of any other frame.
  pub rk_vp9_parse_frame_lem :
      (deep : Bool) (h : Header)
      → Fits h
      → size ≤ (2 ^ 64 - 1) / 8
      → Laid bytes size 0 (header_fields deep h)
      → rk_vp9_parse_frame bytes size (profile_of deep) ≡ some (info_of h)
  unfolding rk_vp9_parse_frame
  rk_vp9_parse_frame_lem deep h fits le (marker, (low, (high, s))) =
      enter deep le (omega (arith, marker.0))
        (parse_header_profile deep (marker, (low, (high, tt))) ∙ body_lem deep h fits s)
    where
      enter :
          (deep : Bool) {r : Option FrameInfo}
          → size ≤ (2 ^ 64 - 1) / 8
          → 0 < size
          → parse_header read (profile_of deep) ≡ r
          → rk_vp9_parse_frame bytes size (profile_of deep) ≡ r
      enter false le lt e = ground (arith, e)
      enter true le lt e = ground (arith, e)
