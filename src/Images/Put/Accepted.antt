-- ===== src/Images/Put/Accepted.antt =====
-- `rk_PutImage` of src/buffer.c where it accepts its arguments: what it reads and what it writes.
use rockchip_vaapi.Base.{ℕ, ◌/◌, ◌^◌, ◌<◌, ◌≡◌, ◌⊎◌, false, if◌then◌else◌}
use rockchip_vaapi.Images.{is_planar, Image, pitch_of}
use rockchip_vaapi.Images.Planes.{RowsFit}
use rockchip_vaapi.Images.Put.{Target, row_bytes_of}

-- Every row that is read lies within the bytes of the buffer.
pub record ReadsWithin (source : Image) (target : Target) (bytes : ℕ) : Type 0 where
  pub luma :
      RowsFit source 0
        (if is_planar source.fourcc then target.width else row_bytes_of target)
        target.height
        bytes
  pub first_chroma :
      RowsFit source 1
        (if is_planar source.fourcc then target.width / 2 else row_bytes_of target)
        (target.height / 2)
        bytes
  pub second_chroma :
      (is_planar source.fourcc ≡ false)
      ⊎ RowsFit source 2 (target.width / 2) (target.height / 2) bytes

-- The pitches of an image are of 32 bits.
abbrev pub PitchesFit : Image → Type 0
PitchesFit image = (plane : ℕ) → pitch_of image plane < 2 ^ 32
