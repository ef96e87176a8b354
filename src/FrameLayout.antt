-- ===== src/FrameLayout.antt =====
-- src/frame_layout.c: sizes of linear frame buffers, in 64-bit `size_t`. `none` is false.
pub mod Sizes
mod Examples
use rockchip_vaapi.Base.{
  ℕ, ◌+◌, ◌-◌, ◌*◌, ◌/◌, ◌%◌, ◌^◌, bit_or, Bool, true, false, not, ◌||◌, Option, none, some, ltb,
  ◌==◌, if◌then◌else◌, ◌>>=◌, ◌>>◌, require,
}

-- SIZE_MAX.
abbrev pub size_max : ℕ
size_max = 2 ^ 64 - 1

-- `x & ~(alignment - 1)` at a power of two, which is what every call gives.
abbrev pub clear_low : ℕ → ℕ → ℕ
clear_low x alignment = x / alignment * alignment

pub align_up : ℕ → ℕ → Option ℕ
align_up value alignment =
    if alignment == 0 || ltb (size_max - (alignment - 1)) value
    then none
    else some (clear_low ((value + alignment - 1) % 2 ^ 64) alignment)

unfoldable pub rk_nv12_layout_size : ℕ → ℕ → Option ℕ
rk_nv12_layout_size byte_stride vertical_stride =
    let luma_size = byte_stride * vertical_stride % 2 ^ 64 in
    if byte_stride == 0
      || vertical_stride == 0
      || not (vertical_stride % 2 == 0)
      || ltb (size_max / vertical_stride) byte_stride
    then none
    else if ltb (size_max - luma_size / 2) luma_size
    then none
    else some ((luma_size + luma_size / 2) % 2 ^ 64)

pub rk_p010_layout_size : ℕ → ℕ → Option ℕ
rk_p010_layout_size pixel_stride vertical_stride =
    if pixel_stride == 0 || ltb (size_max / 2) pixel_stride
    then none
    else rk_nv12_layout_size (pixel_stride * 2 % 2 ^ 64) vertical_stride

pub rk_surface_buffer_size : ℕ → ℕ → Option ℕ
rk_surface_buffer_size width height = do
  require (not (width == 0))
  require (not (height == 0))
  aligned_width ← align_up width 256
  aligned_height ← align_up height 64
  let vp9_stride = bit_or aligned_width 256
  require (not (ltb (size_max / aligned_height) vp9_stride))
  let luma_size = vp9_stride * aligned_height % 2 ^ 64
  require (not (ltb (size_max / 2) luma_size))
  some (luma_size * 2 % 2 ^ 64)

-- The larger of the conservative size and the P010 layout of the dimensions aligned to 16.
pub rk_surface_placeholder_size : ℕ → ℕ → Bool → Option ℕ
rk_surface_placeholder_size width height false = rk_surface_buffer_size width height
rk_surface_placeholder_size width height true = do
  conservative_size ← rk_surface_buffer_size width height
  pixel_stride ← align_up width 16
  vertical_stride ← align_up height 16
  p010_size ← rk_p010_layout_size pixel_stride vertical_stride
  some (if ltb conservative_size p010_size then p010_size else conservative_size)
