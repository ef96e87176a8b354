-- ===== src/Images.antt =====
-- src/buffer.c: images in system memory. The layout that `rk_CreateImage` gives an image, the test of
-- `image_plane_fits`, and the copy of `rk_PutImage` into the memory of a surface.
pub mod Planes
pub mod Layout
pub mod Put
mod Examples
use rockchip_vaapi.Base.{
  ℕ, zero, suc, ◌+◌, ◌-◌, ◌*◌, ◌/◌, ◌%◌, ◌^◌, Bool, true, false, not, ◌&&◌, ◌||◌, Option, none,
  some, List, [], ◌∷◌, ltb, leb, ◌==◌, if◌then◌else◌, get_or, require, ◌>>=◌, ◌>>◌,
}
use rockchip_vaapi.Base.Int.{ℤ, pos_part}
use rockchip_vaapi.FrameLayout.{size_max, rk_nv12_layout_size}
use rockchip_vaapi.Buffers.{
  Status, error_allocation_failed, error_invalid_parameter, error_unsupported_rt_format,
  error_operation_failed, Result, failed, done, Buffer, image_type, rk_create_buffer,
}

pub data Fourcc : Type 0 where
  nv12 p010 i420 yv12 : Fourcc
  other_fourcc : ℕ → Fourcc

abbrev pub is_planar : Fourcc → Bool
is_planar i420 = true
is_planar yv12 = true
is_planar _ = false

-- `RKImage` without its buffer.
pub record Image : Type 0 where
  pub fourcc : Fourcc
  pub width : ℕ
  pub height : ℕ
  pub num_planes : ℕ
  pub pitches : List ℕ
  pub offsets : List ℕ

-- The bytes of a sample, where the format and the dimensions have one.
abbrev pub sample_bytes : Fourcc → ℕ → ℕ → Result ℕ
sample_bytes nv12 width height = done 1
sample_bytes p010 width height = done 2
sample_bytes (other_fourcc n) width height = failed error_unsupported_rt_format
sample_bytes _ width height =
    if not (width % 2 == 0) || not (height % 2 == 0) then failed error_invalid_parameter else done 1

abbrev pub aligned_width_of : ℕ → ℕ
aligned_width_of width = (width + 15) / 16 * 16

-- `allocation_size`; `none` is the refusal of a size that overflows.
abbrev pub allocation_size_of : Bool → ℕ → ℕ → ℕ → Option ℕ
allocation_size_of planar image_pitch chroma_pitch height =
    let luma_size = image_pitch * height % 2 ^ 64 in
    let chroma_size = chroma_pitch * (height / 2) % 2 ^ 64 in
    if planar
    then if ltb ((size_max - luma_size) / 2) chroma_size
      then none
      else some ((luma_size + 2 * chroma_size) % 2 ^ 64)
    else rk_nv12_layout_size image_pitch height

-- The image object of a layout; the fields are of 32 bits.
abbrev pub image_of : Bool → Fourcc → ℕ → ℕ → ℕ → ℕ → Image
image_of planar fourcc width height image_pitch chroma_pitch =
    let first = image_pitch * height % 2 ^ 32 in
    record {
      fourcc = fourcc;
      width = width;
      height = height;
      num_planes = if planar then 3 else 2;
      pitches = image_pitch ∷ chroma_pitch ∷ (if planar then chroma_pitch else 0) ∷ [];
      offsets =
          0 ∷ first ∷ (if planar then (first + chroma_pitch * (height / 2)) % 2 ^ 32 else 0) ∷ [];
    }

-- The image and its buffer; `memory` is whether the buffer, and `more` whether the image gets memory
-- and a place in its heap.
unfoldable pub layout_image : Bool → Bool → Bool → Fourcc → ℕ → ℕ → ℕ → Result (Image × Buffer)
layout_image planar memory more fourcc width height bytes_per_sample =
    let aligned_width = aligned_width_of width in
    let image_pitch = aligned_width * bytes_per_sample % 2 ^ 32 in
    let chroma_pitch = if planar then aligned_width / 2 else image_pitch in
    if ltb ((2 ^ 32 - 1) / bytes_per_sample) aligned_width
    then failed error_allocation_failed
    else elim (allocation_size_of planar image_pitch chroma_pitch height) [
      | none ↦ failed error_allocation_failed
      | some allocation_size ↦
          if ltb (2 ^ 32 - 1) allocation_size
          then failed error_allocation_failed
          else elim (rk_create_buffer memory image_type allocation_size 1 none) [
            | failed status ↦ failed status
            | done buffer ↦
                if more
                then done (image_of planar fourcc width height image_pitch chroma_pitch, buffer)
                else failed error_allocation_failed
          ]
    ]

unfoldable pub rk_create_image : Bool → Bool → Fourcc → ℤ → ℤ → Result (Image × Buffer)
rk_create_image memory more fourcc width height =
    let w = pos_part width in
    let h = pos_part height in
    if w == 0 || h == 0 || ltb 65535 w || ltb 65535 h
    then failed error_invalid_parameter
    else elim (sample_bytes fourcc w h) [
      | failed status ↦ failed status
      | done bytes_per_sample ↦
          layout_image (is_planar fourcc) memory more fourcc w h bytes_per_sample
    ]

abbrev pub pitch_of : Image → ℕ → ℕ
pitch_of image plane = get_or image.pitches plane 0

abbrev pub offset_of : Image → ℕ → ℕ
offset_of image plane = get_or image.offsets plane 0

unfoldable pub image_plane_fits : Image → ℕ → ℕ → ℕ → ℕ → Bool
image_plane_fits image plane row_bytes rows capacity =
    let last_row = (rows - 1) * pitch_of image plane % 2 ^ 64 in
    let room = capacity - offset_of image plane in
    if leb image.num_planes plane
      || ltb (pitch_of image plane) row_bytes
      || ltb capacity (offset_of image plane)
    then false
    else if rows == 0
    then true
    else leb last_row room && leb row_bytes (room - last_row)
