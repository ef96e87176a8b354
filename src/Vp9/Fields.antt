-- ===== src/Vp9/Fields.antt =====
-- The layout of a VP9 frame header, as fields of bits.
use rockchip_vaapi.Base.{
  ℕ, ◌+◌, ◌/◌, ◌%◌, ◌<◌, Bool, true, false, List, [], ◌∷◌, if◌then◌else◌, to_bit,
}
use rockchip_vaapi.Bitstream.Content.{bits_of}
use rockchip_vaapi.Bitstream.Stands.{Stands}
use rockchip_vaapi.Vp9.{FrameInfo}

-- A frame: a repeat of a slot, a key frame, or another frame with the slots that it refreshes.
-- `reset` is there only without error resilience, and is read and not used.
pub data Header : Type 0 where
  repeat : ℕ → Header
  key : Bool → Bool → ℕ → Header
  shown : Bool → ℕ → ℕ → Header
  hidden : Bool → ℕ → ℕ → Header
  intra : Bool → ℕ → ℕ → ℕ → Header

-- Profile 0, or profile 2 with 10-bit samples.
abbrev pub profile_of : Bool → ℕ
profile_of deep = if deep then 2 else 0

-- A field is a number and its width in bits.
abbrev pub Fields : Type 0
Fields = List (ℕ × ℕ)

abbrev pub flag : Bool → ℕ × ℕ
flag b = (to_bit b, 1)

-- Behind the sync code, profile 2 has the bit depth (0 is 10 bits), a colour space and a range bit.
abbrev pub sync_fields : Bool → ℕ → Fields → Fields
sync_fields deep color rest =
    (0x498342, 24) ∷ (if deep then (0, 1) ∷ (color / 2, 3) ∷ (color % 2, 1) ∷ rest else rest)

abbrev pub reset_field : Bool → ℕ → Fields → Fields
reset_field resilient reset rest = if resilient then rest else (reset, 2) ∷ rest

abbrev pub body_fields : Bool → Header → Fields
body_fields deep (repeat slot) = flag true ∷ (slot, 3) ∷ []
body_fields deep (key show resilient color) =
    flag false ∷ flag false ∷ flag show ∷ flag resilient ∷ sync_fields deep color []
body_fields deep (shown resilient reset refresh) =
    flag false
    ∷ flag true
    ∷ flag true
    ∷ flag resilient
    ∷ reset_field resilient reset ((refresh, 8) ∷ [])
body_fields deep (hidden resilient reset refresh) =
    flag false
    ∷ flag true
    ∷ flag false
    ∷ flag resilient
    ∷ flag false
    ∷ reset_field resilient reset ((refresh, 8) ∷ [])
body_fields deep (intra resilient reset color refresh) =
    flag false
    ∷ flag true
    ∷ flag false
    ∷ flag resilient
    ∷ flag true
    ∷ reset_field resilient reset (sync_fields deep color ((refresh, 8) ∷ []))

-- The frame marker, the profile with its low bit first, and the rest.
abbrev pub header_fields : Bool → Header → Fields
header_fields deep h = (2, 2) ∷ (0, 1) ∷ flag deep ∷ body_fields deep h

-- The fields stand in the buffer one behind the other, from a bit on.
abbrev pub Laid : List ℕ → ℕ → ℕ → Fields → Type 0
Laid bytes size pos [] = Unit
Laid bytes size pos ((v, n) ∷ rest) =
    Stands bytes size pos (bits_of v n) × Laid bytes size (pos + n) rest

-- The fields fit their widths, and the colour space is not RGB.
abbrev pub Fits : Header → Type 0
Fits (repeat slot) = slot < 8
Fits (key show resilient color) = color < 14
Fits (shown resilient reset refresh) = (reset < 4) × (refresh < 256)
Fits (hidden resilient reset refresh) = (reset < 4) × (refresh < 256)
Fits (intra resilient reset color refresh) = (reset < 4) × (color < 14) × (refresh < 256)

abbrev pub info_of : Header → FrameInfo
info_of (repeat slot) = record {
  show_existing_frame = true;
  show_frame = true;
  frame_to_show_map_idx = slot;
  refresh_frame_flags = 0;
}
info_of (key show resilient color) = record {
  show_existing_frame = false;
  show_frame = show;
  frame_to_show_map_idx = 0;
  refresh_frame_flags = 0xff;
}
info_of (shown resilient reset refresh) = record {
  show_existing_frame = false;
  show_frame = true;
  frame_to_show_map_idx = 0;
  refresh_frame_flags = refresh;
}
info_of (hidden resilient reset refresh) = record {
  show_existing_frame = false;
  show_frame = false;
  frame_to_show_map_idx = 0;
  refresh_frame_flags = refresh;
}
info_of (intra resilient reset color refresh) = record {
  show_existing_frame = false;
  show_frame = false;
  frame_to_show_map_idx = 0;
  refresh_frame_flags = refresh;
}
