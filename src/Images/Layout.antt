-- ===== src/Images/Layout.antt =====
-- The layout of an image that `rk_CreateImage` of src/buffer.c creates.
use rockchip_vaapi.Base.{
  ℕ, ◌+◌, ◌-◌, ◌*◌, ◌/◌, ◌%◌, ◌^◌, ◌≤◌, ◌<◌, ◌≡◌, ◌⊎◌, refl, ap, ◌∙◌, true, false, ◌||◌, none, some,
  List, [], ◌∷◌, arith, ltb, ◌==◌, if◌then◌else◌, inl, inr, length, length-replicate,
}
use native.Mathlib.Nat.{mod-eq_of_lt}
use rockchip_vaapi.Base.Int.{pos}
use rockchip_vaapi.FrameLayout.{size_max, rk_nv12_layout_size}
use rockchip_vaapi.FrameLayout.Sizes.{rk_nv12_layout_size_lem}
use rockchip_vaapi.Buffers.{done, Buffer, image_type, too_many, rk_create_buffer}
use rockchip_vaapi.Buffers.Contents.{IsSized, rk_create_buffer_lem}
use rockchip_vaapi.Images.{
  Fourcc, nv12, p010, i420, yv12, other_fourcc, Image, aligned_width_of, allocation_size_of,
  image_of, layout_image, rk_create_image, pitch_of, offset_of,
}

-- Planes with a pitch, an offset and a number of rows that stand one behind the other up to an end.
abbrev pub Stacked : ℕ → ℕ → List (ℕ × ℕ × ℕ) → Type 0
Stacked at end [] = at ≡ end
Stacked at end ((pitch, offset, rows) ∷ planes) =
    (offset ≡ at) × Stacked (at + pitch * rows) end planes

abbrev pub planes_of : Image → List (ℕ × ℕ × ℕ)
planes_of image =
    let half = image.height / 2 in
    (pitch_of image 0, offset_of image 0, image.height)
    ∷ (pitch_of image 1, offset_of image 1, half)
    ∷ (if image.num_planes == 3 then (pitch_of image 2, offset_of image 2, half) ∷ [] else [])

-- The bytes that a sample of the format takes.
abbrev pub sample_of : Fourcc → ℕ
sample_of p010 = 2
sample_of _ = 1

-- An image of the format and dimensions, whose planes fill its buffer. A row of an interleaved chroma
-- plane has two samples for each pair of columns, a row of a planar one has one.
pub record IsLaidOut (fourcc : Fourcc) (width height : ℕ) (image : Image) (buffer : Buffer)
    : Type 0 where
  pub format : image.fourcc ≡ fourcc
  pub dimensions : (image.width ≡ width) × (image.height ≡ height)
  pub sized : IsSized buffer
  pub planes : Stacked 0 buffer.capacity (planes_of image)
  pub luma_row : width * sample_of fourcc ≤ pitch_of image 0
  pub chroma_row :
      if image.num_planes == 3
      then (width ≤ 2 * pitch_of image 1) × (width ≤ 2 * pitch_of image 2)
      else ((width + 1) / 2 * (2 * sample_of fourcc) ≤ pitch_of image 1)

created :
    (size : ℕ)
    → size ≤ 2 ^ 32 - 1
    → (buffer : Buffer) × (rk_create_buffer true image_type size 1 none ≡ done buffer)
      × IsSized buffer
      × (buffer.capacity ≡ size)
created size le =
    let few : too_many size 1 ≡ false = ground (arith, le) in
    let (buffer, e, sized, same) = rk_create_buffer_lem image_type size 1 none few tt in
    (
      buffer,
      e,
      sized,
      omega (arith, sized.filled, ap length same, length-replicate {A = ℕ} (size * 1) 0),
    )

module _ (width height : ℕ) (w : 0 < width) (w' : width ≤ 65535) (h : 0 < height)
    (h' : height ≤ 65535) (even : height % 2 ≡ 0) where
  aligned : (width ≤ aligned_width_of width) × (aligned_width_of width ≤ 65536)
  aligned = omega (arith, w, w')

  even_pitch : aligned_width_of width / 2 * 2 ≡ aligned_width_of width
  even_pitch = omega (arith, w, w')

  aligned_pairs : (width + 1) / 2 * 2 ≤ aligned_width_of width
  aligned_pairs = omega (arith, w, w')

  halves : (pitch : ℕ) → pitch * height + pitch * (height / 2) ≡ pitch * height + pitch * height / 2
  halves pitch =
      let twice : height ≡ 2 * (height / 2) = omega (arith, even) in
      let all : pitch * height ≡ 2 * (pitch * (height / 2)) =
        ap (λ (t : ℕ). pitch * t) twice ∙ omega arith in
      omega (arith, all)

  packed_lem :
      (fourcc : Fourcc) (bytes : ℕ)
      → ((bytes ≡ 1) ⊎ (bytes ≡ 2))
      → sample_of fourcc ≡ bytes
      → aligned_width_of width * bytes * height + aligned_width_of width * bytes * height / 2
        ≤ 2 ^ 32 - 1
      → (image : Image) × (buffer : Buffer) × (layout_image false true true fourcc width height
            bytes
          ≡ done (image, buffer))
        × IsLaidOut fourcc width height image buffer
  unfolding layout_image
  packed_lem fourcc bytes one_or_two same le =
      let pitch = aligned_width_of width * bytes in
      let (wide, bound) : (width ≤ pitch) × (pitch ≤ 131072) = elim one_or_two [
        | inl one ↦ rw one (omega (arith, aligned))
        | inr two ↦ rw two (omega (arith, aligned))
      ] in
      let across : width * bytes ≤ pitch = elim one_or_two [
        | inl one ↦ rw one (omega (arith, aligned))
        | inr two ↦ rw two (omega (arith, aligned))
      ] in
      let pairs : (width + 1) / 2 * (2 * bytes) ≤ pitch = elim one_or_two [
        | inl one ↦ rw one (omega (arith, aligned_pairs))
        | inr two ↦ rw two (omega (arith, aligned_pairs))
      ] in
      let enough : ltb ((2 ^ 32 - 1) / bytes) (aligned_width_of width) ≡ false = elim one_or_two [
        | inl one ↦ rw one (ground (arith, aligned))
        | inr two ↦ rw two (ground (arith, aligned))
      ] in
      let narrow : pitch % 2 ^ 32 ≡ pitch = mod-eq_of_lt (omega (arith, bound)) in
      let size : ℕ = pitch * height + pitch * height / 2 in
      let fits : ltb size_max size ≡ false = ground (arith, le) in
      let given : rk_nv12_layout_size pitch height ≡ some size =
        rw fits at (rk_nv12_layout_size_lem pitch height (omega (arith, wide, w)) h even) in
      let first : pitch * height % 2 ^ 32 ≡ pitch * height = mod-eq_of_lt (omega (arith, le)) in
      let (buffer, e, sized, cap) = created size le in
      let small : ltb (2 ^ 32 - 1) size ≡ false = ground (arith, le) in
      (
        image_of false fourcc width height pitch pitch,
        buffer,
        rw (enough, narrow, given, small, e)
            (ap (λ (p : ℕ). done (image_of false fourcc width height p p, buffer)) narrow),
        record {
          format = refl;
          dimensions = (refl, refl);
          sized = sized;
          planes = (refl, (omega (arith, first), omega (arith, cap, halves pitch)));
          luma_row = rw same across;
          chroma_row = rw same pairs;
        },
      )

  -- The chroma planes of half the pitch have a quarter of the luma plane each.
  planar_lem :
      (fourcc : Fourcc)
      → sample_of fourcc ≡ 1
      → aligned_width_of width * height + 2 * (aligned_width_of width / 2 * (height / 2))
        ≤ 2 ^ 32 - 1
      → (image : Image) × (buffer : Buffer) × (layout_image true true true fourcc width height 1
          ≡ done (image, buffer))
        × IsLaidOut fourcc width height image buffer
  unfolding layout_image
  planar_lem fourcc same le =
      let pitch = aligned_width_of width in
      let half = pitch / 2 in
      let halved : width ≤ 2 * half = omega (arith, aligned_pairs, even_pitch) in
      let luma = pitch * height in
      let chroma = half * (height / 2) in
      let one : pitch * 1 % 2 ^ 32 ≡ pitch = omega (arith, aligned) in
      let first : luma % 2 ^ 32 ≡ luma = mod-eq_of_lt (omega (arith, le)) in
      let second : (luma + chroma) % 2 ^ 32 ≡ luma + chroma = mod-eq_of_lt (omega (arith, le)) in
      let given : allocation_size_of true pitch half height ≡ some (luma + 2 * chroma) =
        ground (arith, le) in
      let enough : ltb ((2 ^ 32 - 1) / 1) pitch ≡ false = ground (arith, aligned) in
      let (buffer, e, sized, cap) = created (luma + 2 * chroma) le in
      let small : ltb (2 ^ 32 - 1) (luma + 2 * chroma) ≡ false = ground (arith, le) in
      (
        image_of true fourcc width height pitch half,
        buffer,
        rw (enough, one, given, small, e)
            (ap (λ (p : ℕ). done (image_of true fourcc width height p half, buffer)) one),
        record {
          format = refl;
          dimensions = (refl, refl);
          sized = sized;
          planes = (
            refl,
            (
              omega (arith, first),
              (
                ap (λ (t : ℕ). (t + chroma) % 2 ^ 32) first ∙ second ∙ omega arith,
                omega (arith, cap),
              ),
            ),
          );
          luma_row = rw same (omega (arith, aligned));
          chroma_row = omega (arith, halved);
        },
      )

-- The size of an image: one and a half times the luma plane, whose rows are of 16 samples aligned.
abbrev pub image_size : Fourcc → ℕ → ℕ → ℕ
image_size nv12 width height =
    aligned_width_of width * 1 * height + aligned_width_of width * 1 * height / 2
image_size p010 width height =
    aligned_width_of width * 2 * height + aligned_width_of width * 2 * height / 2
image_size _ width height =
    aligned_width_of width * height + 2 * (aligned_width_of width / 2 * (height / 2))

-- The four formats; the planar ones need an even width too.
abbrev pub IsSupported : Fourcc → ℕ → Type 0
IsSupported nv12 width = Unit
IsSupported p010 width = Unit
IsSupported (other_fourcc n) width = ⊥
IsSupported _ width = width % 2 ≡ 0

-- An image of one of the four formats, of 1 to 65,535 samples each way, with an even height, and an even
-- width where it is planar, that takes fewer than 2 ^ 32 bytes and gets its memory and its places is
-- created: its planes stand one behind the other and fill its buffer, and each pitch spans
-- the samples of a row, of two bytes each for P010.
pub rk_create_image_lem :
    (fourcc : Fourcc) (width height : ℕ)
    → 0 < width
    → width ≤ 65535
    → 0 < height
    → height ≤ 65535
    → height % 2 ≡ 0
    → IsSupported fourcc width
    → image_size fourcc width height ≤ 2 ^ 32 - 1
    → (image : Image) × (buffer : Buffer) × (rk_create_image true true fourcc
          (pos width)
          (pos height)
        ≡ done (image, buffer))
      × IsLaidOut fourcc width height image buffer
unfolding rk_create_image
rk_create_image_lem fourcc width height w w' h h' even ok le = by_format fourcc ok le
  where
    in_range : (width == 0 || height == 0 || ltb 65535 width || ltb 65535 height) ≡ false
    in_range = ground (arith, w, w', h, h')

    by_format :
        (fourcc : Fourcc)
        → IsSupported fourcc width
        → image_size fourcc width height ≤ 2 ^ 32 - 1
        → (image : Image) × (buffer : Buffer) × (rk_create_image true true fourcc
              (pos width)
              (pos height)
            ≡ done (image, buffer))
          × IsLaidOut fourcc width height image buffer
    by_format nv12 ok le =
        let (image, buffer, e, laid) =
          packed_lem width height w w' h h' even nv12 1 (inl refl) refl le in
        (image, buffer, rw in_range e, laid)
    by_format p010 ok le =
        let (image, buffer, e, laid) =
          packed_lem width height w w' h h' even p010 2 (inr refl) refl le in
        (image, buffer, rw in_range e, laid)
    by_format (other_fourcc n) ok le = absurd ok
    by_format i420 ok le =
        let (image, buffer, e, laid) = planar_lem width height w w' h h' even i420 refl le in
        (image, buffer, rw (in_range, ok, even) e, laid)
    by_format yv12 ok le =
        let (image, buffer, e, laid) = planar_lem width height w w' h h' even yv12 refl le in
        (image, buffer, rw (in_range, ok, even) e, laid)
