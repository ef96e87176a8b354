-- ===== src/Images/Planes.antt =====
-- The planes of the images of src/buffer.c: which bytes `image_plane_fits` vouches for, and where
-- `rk_CreateImage` puts them.
use rockchip_vaapi.Base.{
  ℕ, ◌+◌, ◌-◌, ◌*◌, ◌%◌, ◌^◌, ◌≤◌, ◌<◌, ◌≡◌, ◌↔◌, true, arith, ◌==◌, Bool-cases, inl, inr,
}
use native.Mathlib.Nat.{mod-eq_of_lt, mul-le-mul, mul-le-mul_right}
use rockchip_vaapi.Images.{Image, pitch_of, offset_of, image_plane_fits}

-- Every byte of every row of the plane lies within the capacity.
pub record RowsFit (image : Image) (plane row_bytes rows capacity : ℕ) : Type 0 where
  pub exists : plane < image.num_planes
  pub in_pitch : row_bytes ≤ pitch_of image plane
  pub starts : offset_of image plane ≤ capacity
  pub each :
      (row : ℕ)
      → row < rows
      → offset_of image plane + row * pitch_of image plane + row_bytes ≤ capacity

-- For a pitch and a number of rows of 32 bits, `image_plane_fits` holds exactly where the plane
-- exists, its pitch spans a row, it starts within the capacity, and every row of it ends there.
pub image_plane_fits_lem :
    (image : Image) (plane row_bytes rows capacity : ℕ)
    → pitch_of image plane < 2 ^ 32
    → rows < 2 ^ 32
    → (image_plane_fits image plane row_bytes rows capacity ≡ true)
      ↔ RowsFit image plane row_bytes rows capacity
unfolding image_plane_fits
image_plane_fits_lem image plane row_bytes rows capacity small few =
    let pitch = pitch_of image plane in
    let area =
      mul-le-mul {n₁ = rows - 1} {m₁ = pitch} {n₂ = 2 ^ 32 - 1} {m₂ = 2 ^ 32 - 1}
        (omega (arith, few)) (omega (arith, small)) in
    let whole : (rows - 1) * pitch % 2 ^ 64 ≡ (rows - 1) * pitch =
      mod-eq_of_lt (omega (arith, area)) in
    (
      λ e. record {
        exists = ground (arith, e);
        in_pitch = ground (arith, e);
        starts = ground (arith, e);
        each = λ row lt.
            let le = mul-le-mul_right {m = row} {n = rows - 1} pitch (omega (arith, lt)) in
            ground (arith, e, whole, le, lt);
      },
      λ f. elim (Bool-cases (rows == 0)) [
        | inl empty ↦ ground (arith, f.exists, f.in_pitch, f.starts, empty)
        | inr positive ↦
            let last = f.each (rows - 1) (ground (arith, positive)) in
            ground (arith, f.exists, f.in_pitch, f.starts, positive, last, whole)
      ],
    )
