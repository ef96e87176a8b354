-- ===== src/Images/Put.antt =====
-- `rk_PutImage` of src/buffer.c. Memory is a function from addresses to bytes; the surface is the fields
-- that the code reads of it. The tests on the buffer of the surface and the brackets of the access
-- are Booleans: what MPP and the kernel answer.
pub mod Copied
pub mod Accepted
use rockchip_vaapi.Base.{
  ℕ, zero, suc, ◌+◌, ◌-◌, ◌*◌, ◌/◌, ◌%◌, ◌^◌, Bool, true, false, not, ◌&&◌, ◌||◌, Option, none,
  some, List, [], ◌∷◌, ltb, leb, ◌==◌, if◌then◌else◌, get_or, require, ◌>>=◌, ◌>>◌,
}
use rockchip_vaapi.Base.Int.{ℤ, pos, ◌==ℤ◌}
use rockchip_vaapi.FrameLayout.{rk_nv12_layout_size}
use rockchip_vaapi.Buffers.{
  Status, error_operation_failed, error_invalid_surface, error_invalid_image, Buffer,
}
use rockchip_vaapi.Images.{
  Fourcc, nv12, p010, i420, yv12, other_fourcc, is_planar, Image, pitch_of, offset_of,
  image_plane_fits,
}

abbrev pub Memory : Type 0
Memory = ℕ → ℕ

abbrev pub memcpy : Memory → ℕ → Memory → ℕ → ℕ → Memory
memcpy dst to src from n =
    λ at. if leb to at && ltb at (to + n) then src (from + (at - to)) else dst at

-- `memset(dst, 0, n)`.
abbrev pub memset_zero : Memory → ℕ → Memory
memset_zero dst n = λ at. if ltb at n then 0 else dst at

-- `*address = byte`.
abbrev pub poke : Memory → ℕ → ℕ → Memory
poke dst address byte = λ at. if at == address then byte else dst at

-- A loop over rows: how many are left, and the next one.
unfoldable pub rows_loop : (ℕ → Memory → Memory) → ℕ → ℕ → Memory → Memory
rows_loop write zero row dst = dst
rows_loop write (suc left) row dst = rows_loop write left (row + 1) (write row dst)

-- A row of samples.
abbrev pub copy_row : Memory → ℕ → ℕ → ℕ → ℕ → ℕ → ℕ → Memory → Memory
copy_row src from src_pitch to dst_pitch row_bytes row dst =
    memcpy dst (to + row * dst_pitch) src (from + row * src_pitch) row_bytes

-- The loop over the columns of a row: one byte of each chroma plane.
unfoldable pub interleave : Memory → ℕ → ℕ → ℕ → ℕ → ℕ → Memory → Memory
interleave src u v to zero column dst = dst
interleave src u v to (suc left) column dst =
    interleave src u v to left (column + 1) (
      poke (poke dst (to + 2 * column) (src (u + column))) (to + 2 * column + 1) (src (v + column)))

abbrev pub interleave_row : Memory → Image → ℕ → ℕ → ℕ → ℕ → ℕ → ℕ → Memory → Memory
interleave_row src image u_plane v_plane to dst_pitch chroma_bytes row dst =
    interleave src (offset_of image u_plane + row * pitch_of image u_plane)
      (offset_of image v_plane + row * pitch_of image v_plane) (to + row * dst_pitch) chroma_bytes 0
      dst

-- `RKSurface`, as far as the code reads it; `destination` is the size of `priv_buf`.
pub record Target : Type 0 where
  pub width : ℕ
  pub height : ℕ
  pub hstride : ℕ
  pub vstride : ℕ
  pub fourcc : Fourcc
  pub ten_bit : Bool
  pub imported : Bool
  pub destination : Option ℕ
  pub mapped : Bool

abbrev pub sample_size : Target → ℕ
sample_size target = if target.ten_bit then 2 else 1

abbrev pub row_bytes_of : Target → ℕ
row_bytes_of target = target.width * sample_size target

abbrev pub dst_pitch_of : Target → ℕ
dst_pitch_of target = target.hstride * sample_size target

-- The planes with U and V samples: 1 and 2 for I420, 2 and 1 for YV12.
abbrev pub u_plane_of : Fourcc → ℕ
u_plane_of i420 = 1
u_plane_of _ = 2

abbrev pub v_plane_of : Fourcc → ℕ
v_plane_of i420 = 2
v_plane_of _ = 1

-- `memset` and the copies of the planes.
unfoldable pub put_pixels : Image → Memory → Target → ℕ → Memory → Memory
put_pixels image src target destination_size dst =
    let pitch = dst_pitch_of target in
    let chroma = pitch * target.vstride in
    let planar = is_planar image.fourcc in
    let row_bytes = if planar then target.width else row_bytes_of target in
    let luma =
      rows_loop (copy_row src (offset_of image 0) (pitch_of image 0) 0 pitch row_bytes)
        target.height 0 (memset_zero dst destination_size) in
    if planar
    then rows_loop
        (interleave_row src image (u_plane_of image.fourcc) (v_plane_of image.fourcc) chroma pitch
          (target.width / 2))
        (target.height / 2) 0 luma
    else rows_loop
        (copy_row src (offset_of image 1) (pitch_of image 1) chroma pitch (row_bytes_of target))
        (target.height / 2) 0 luma

-- The rectangles of a call.
pub record Region : Type 0 where
  pub src_x : ℤ
  pub src_y : ℤ
  pub dest_x : ℤ
  pub dest_y : ℤ
  pub src_width : ℕ
  pub src_height : ℕ
  pub dest_width : ℕ
  pub dest_height : ℕ

abbrev pub full_frame : Image → Target → Region → Bool
full_frame source target region =
    region.src_x ==ℤ pos 0
    && region.src_y ==ℤ pos 0
    && region.dest_x ==ℤ pos 0
    && region.dest_y ==ℤ pos 0
    && region.src_width == source.width
    && region.src_height == source.height
    && region.dest_width == target.width
    && region.dest_height == target.height
    && region.src_width == region.dest_width
    && region.src_height == region.dest_height

abbrev pub same_fourcc : Fourcc → Fourcc → Bool
same_fourcc nv12 nv12 = true
same_fourcc p010 p010 = true
same_fourcc i420 i420 = true
same_fourcc yv12 yv12 = true
same_fourcc (other_fourcc m) (other_fourcc n) = m == n
same_fourcc _ _ = false

abbrev pub source_layout_valid : Image → Target → ℕ → Bool
source_layout_valid source target capacity =
    let planar = is_planar source.fourcc in
    let chroma_bytes = target.width / 2 in
    let row_bytes = row_bytes_of target in
    image_plane_fits source 0 (if planar then target.width else row_bytes) target.height capacity
    && image_plane_fits source 1 (if planar then chroma_bytes else row_bytes) (target.height / 2)
        capacity
    && (not planar || image_plane_fits source 2 chroma_bytes (target.height / 2) capacity)

-- The first test behind the lookups.
unfoldable pub may_put : Image → Target → ℕ → Region → Bool
may_put source target capacity region =
    not target.imported
    && full_frame source target region
    && same_fourcc source.fourcc target.fourcc
    && not (is_planar source.fourcc && target.ten_bit)
    && source_layout_valid source target capacity

-- `destination_size`, where the layout of the surface has one that its buffer holds.
unfoldable pub destination_size_of : Image → Target → ℕ → Option ℕ
destination_size_of source target capacity = do
  size ← target.destination
  require (not (ltb (dst_pitch_of target) (row_bytes_of target)))
  destination_size ← rk_nv12_layout_size (dst_pitch_of target) target.vstride
  require (not (ltb size destination_size) && not (ltb capacity (offset_of source 0)))
  some destination_size

-- The memory behind the call, and the status where it is an error.
unfoldable pub rk_put_image :
    Bool → Bool → Option Target → Option (Image × Buffer) → Region → Memory → Memory × Option Status
rk_put_image sync_start sync_end none source region dst = (dst, some error_invalid_surface)
rk_put_image sync_start sync_end (some target) none region dst = (dst, some error_invalid_image)
rk_put_image sync_start sync_end (some target) (some (source, buffer)) region dst =
    if not (may_put source target buffer.capacity region)
    then (dst, some error_operation_failed)
    else elim (destination_size_of source target buffer.capacity) [
      | none ↦ (dst, some error_operation_failed)
      | some destination_size ↦
          if not (target.mapped && sync_start) then (dst, some error_operation_failed) else (
            put_pixels source (λ at. get_or buffer.contents at 0) target destination_size dst,
            if sync_end then none else some error_operation_failed,
          )
    ]
