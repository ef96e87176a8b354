-- ===== src/Vp9.antt =====
-- src/vp9.c: the VP9 frame header. The reader's buffer and size never change, so they are
-- arguments, and the position is passed along. A parse that returns false is `none`.
pub mod Reading
pub mod Fields
pub mod Headers
pub mod Safety
mod Examples
use rockchip_vaapi.Base.{
  ℕ, zero, suc, ◌+◌, ◌-◌, ◌*◌, ◌/◌, ◌%◌, ◌^◌, bit_or, Bool, true, false, not, ◌&&◌, ◌||◌, Option,
  none, some, List, ltb, leb, ◌==◌, if◌then◌else◌, require, ◌>>=◌, ◌>>◌,
}
use rockchip_vaapi.Bitstream.Content.{bit_at}

pub record FrameInfo : Type 0 where
  pub show_existing_frame : Bool
  pub show_frame : Bool
  pub frame_to_show_map_idx : ℕ
  pub refresh_frame_flags : ℕ

-- A reader: from a position and a count, the value and the next position.
abbrev pub Reader : Type 0
Reader = ℕ → ℕ → Option (ℕ × ℕ)

-- `result = (result << 1) | ((data[pos / 8] >> (7 - pos % 8)) & 1)` in 32 bits.
pub bits_loop : List ℕ → ℕ → ℕ → ℕ → ℕ × ℕ
bits_loop bytes zero result pos = (result, pos)
bits_loop bytes (suc count) result pos =
    bits_loop bytes count (bit_or (result * 2 % 2 ^ 32) (bit_at bytes pos)) (pos + 1)

pub read_bits : List ℕ → ℕ → Reader
read_bits bytes bit_size pos count =
    if ltb 32 count || ltb bit_size pos || ltb (bit_size - pos) count
    then none
    else some (bits_loop bytes count 0 pos)

pub read_profile : Reader → ℕ → Option (ℕ × ℕ)
read_profile read pos = do
  (low_bit, pos) ← read pos 1
  (high_bit, pos) ← read pos 1
  let parsed = bit_or low_bit (high_bit * 2)
  if parsed == 3
      then (do (reserved_zero, pos) ← read pos 1; require (reserved_zero == 0); some (parsed, pos))
      else some (parsed, pos)

-- Gives the position behind the colour configuration.
pub skip_color_config : Reader → ℕ → ℕ → Option ℕ
skip_color_config read profile pos = do
  pos ←
      if leb 2 profile
      then (do (value, pos) ← read pos 1; require (value == 0); some pos)
      else some pos
  (value, pos) ← read pos 3
  require (not (value == 7))
  (value, pos) ← read pos 1
  some pos

-- The sync code and, above profile 0, the colour configuration.
abbrev pub sync_code : Reader → ℕ → ℕ → Option ℕ
sync_code read profile pos = do
  (value, pos) ← read pos 24
  require (value == 0x498342)
  if ltb 0 profile then skip_color_config read profile pos else some pos

-- The rest of the header of a frame that is neither a repeat nor a key frame.
pub parse_inter : Reader → ℕ → Bool → ℕ → ℕ → Option FrameInfo
unfolding skip_color_config
parse_inter read profile show_frame error_resilient pos = do
  (intra_only, pos) ← if show_frame then some (0, pos) else read pos 1
  (value, pos) ← if error_resilient == 0 then read pos 2 else some (0, pos)
  pos ← if intra_only == 0 then some pos else sync_code read profile pos
  (value, pos) ← read pos 8
  some (record {
    show_existing_frame = false;
    show_frame = show_frame;
    frame_to_show_map_idx = 0;
    refresh_frame_flags = value % 256;
  })

-- The rest of the header of a repeat of a decoded frame.
pub show_existing : Reader → ℕ → Option FrameInfo
show_existing read pos = do
  (value, pos) ← read pos 3
  some (record {
    show_existing_frame = true;
    show_frame = true;
    frame_to_show_map_idx = value % 256;
    refresh_frame_flags = 0;
  })

pub parse_key : Reader → ℕ → Bool → ℕ → Option FrameInfo
parse_key read profile show_frame pos = do
  pos ← sync_code read profile pos
  some (record {
    show_existing_frame = false;
    show_frame = show_frame;
    frame_to_show_map_idx = 0;
    refresh_frame_flags = 0xff;
  })

-- The rest of the header of a frame that is no repeat.
pub parse_frame_header : Reader → ℕ → ℕ → Option FrameInfo
unfolding parse_inter parse_key
parse_frame_header read profile pos = do
  (frame_type, pos) ← read pos 1
  (show, pos) ← read pos 1
  (error_resilient, pos) ← read pos 1
  if frame_type == 0
      then parse_key read profile (not (show == 0)) pos
      else parse_inter read profile (not (show == 0)) error_resilient pos

-- The header from the frame marker on.
pub parse_header : Reader → ℕ → Option FrameInfo
unfolding read_profile show_existing parse_frame_header
parse_header read profile = do
  (marker, pos) ← read 0 2
  require (marker == 2)
  (parsed_profile, pos) ← read_profile read pos
  require (parsed_profile == profile)
  (existing, pos) ← read pos 1
  if not (existing == 0) then show_existing read pos else parse_frame_header read profile pos

unfoldable pub rk_vp9_parse_frame : List ℕ → ℕ → ℕ → Option FrameInfo
rk_vp9_parse_frame bytes size profile =
    if size == 0 || not (profile == 0 || profile == 2) || ltb ((2 ^ 64 - 1) / 8) size
    then none
    else parse_header (read_bits bytes (size * 8)) profile

-- The one byte of the packet; `none` is false.
unfoldable pub rk_vp9_make_show_existing : ℕ → ℕ → Option ℕ
rk_vp9_make_show_existing profile slot =
    if not (profile == 0 || profile == 2) || leb 8 slot
    then none
    else some (bit_or (bit_or 0x88 (if profile == 2 then 0x10 else 0)) slot)
