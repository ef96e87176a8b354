-- ===== src/FrameLayout/Sizes.antt =====
-- The sizes of src/frame_layout.c against products in unbounded arithmetic.
use rockchip_vaapi.Base.{
  ℕ, ◌+◌, ◌-◌, ◌*◌, ◌/◌, ◌%◌, ◌^◌, ◌≤◌, ◌<◌, ◌≡◌, ◌⊎◌, inl, inr, refl, ap, ◌∙◌, bit_or, Bool, true,
  false, none, some, arith, ltb, ◌==◌, ◌||◌, if◌then◌else◌, Bool-cases, ltb→lt,
}
use native.Mathlib.Nat.{div-mul-le_self, mul-le-mul, le_refl, div-add-mod, mod-lt}
use rockchip_vaapi.Base.Bits.{bit_or_shift, bit_or-one}
use rockchip_vaapi.FrameLayout.{
  size_max, align_up, rk_nv12_layout_size, rk_p010_layout_size, rk_surface_buffer_size,
  rk_surface_placeholder_size,
}

-- A product within a bound, from the guard that the code writes with a division.
mul_of_le_div : (a b m : ℕ) → 0 < b → a ≤ m / b → a * b ≤ m
mul_of_le_div a b m pos le = omega (arith, mul-le-mul le (le_refl b), div-mul-le_self m b)

lt_mul_of_div_lt : (a b m : ℕ) → 0 < b → m / b < a → m < a * b
lt_mul_of_div_lt a b m pos lt =
    omega (arith, div-add-mod m b, mod-lt m pos, mul-le-mul lt (le_refl b))

-- An NV12 layout of a stride and a positive even number of rows is one and a half times the luma
-- plane, and is given exactly where that fits 64 bits.
pub rk_nv12_layout_size_lem :
    (byte_stride vertical_stride : ℕ)
    → 0 < byte_stride
    → 0 < vertical_stride
    → vertical_stride % 2 ≡ 0
    → rk_nv12_layout_size byte_stride vertical_stride ≡ (
        if ltb size_max (byte_stride * vertical_stride + byte_stride * vertical_stride / 2)
        then none
        else some (byte_stride * vertical_stride + byte_stride * vertical_stride / 2))
unfolding rk_nv12_layout_size
rk_nv12_layout_size_lem byte_stride vertical_stride pos pos' even =
    elim (Bool-cases (ltb (size_max / vertical_stride) byte_stride)) [
      | inl over ↦ ground (
        arith,
        over,
        even,
        lt_mul_of_div_lt byte_stride vertical_stride size_max pos' (ltb→lt _ _ over),
      )
      | inr fits ↦ ground (
        arith,
        fits,
        even,
        mul_of_le_div byte_stride vertical_stride size_max pos' (ground (arith, fits)),
      )
    ]

-- A size that is given is that of the layout.
pub rk_nv12_layout_size-exact :
    (byte_stride vertical_stride size : ℕ)
    → rk_nv12_layout_size byte_stride vertical_stride ≡ some size
    → size ≡ byte_stride * vertical_stride + byte_stride * vertical_stride / 2
unfolding rk_nv12_layout_size
rk_nv12_layout_size-exact byte_stride vertical_stride size e =
    let pos : 0 < byte_stride = ground (arith, e) in
    let pos' : 0 < vertical_stride = ground (arith, e) in
    let even : vertical_stride % 2 ≡ 0 = ground (arith, e) in
    ground (arith, e, rk_nv12_layout_size_lem byte_stride vertical_stride pos pos' even)

-- A P010 layout has two bytes for each of the 3/2 samples a pixel has, where that fits 64 bits.
pub rk_p010_layout_size_lem :
    (pixel_stride vertical_stride : ℕ)
    → 0 < pixel_stride
    → 0 < vertical_stride
    → vertical_stride % 2 ≡ 0
    → rk_p010_layout_size pixel_stride vertical_stride ≡ (
        if ltb size_max (3 * (pixel_stride * vertical_stride))
        then none
        else some (3 * (pixel_stride * vertical_stride)))
unfolding rk_p010_layout_size
rk_p010_layout_size_lem p v pos pos' even = elim (Bool-cases (ltb (size_max / 2) p)) [
  | inl over ↦ ground (arith, over, mul-le-mul (le_refl p) pos')
  | inr fits ↦
      let wide : p * 2 % 2 ^ 64 ≡ p * 2 = ground (arith, fits) in
      let area : p * 2 * v ≡ 2 * (p * v) = omega arith in
      rw wide
        (ground (arith, fits, rk_nv12_layout_size_lem (p * 2) v (omega arith) pos' even, area))
]

-- Alignment to 16, 64 or 256 of a 32-bit number: the next multiple.
align_up_lem :
    (value alignment : ℕ)
    → value < 2 ^ 32
    → 0 < alignment
    → alignment ≤ 256
    → align_up value alignment ≡ some ((value + alignment - 1) / alignment * alignment)
unfolding align_up
align_up_lem value alignment fits pos le = ground (arith, wrap)
  where
    wrap : (value + alignment - 1) % 2 ^ 64 ≡ value + alignment - 1
    wrap = omega arith

-- `aligned | 256`: the next odd multiple of 256.
odd_stride : (q : ℕ) → bit_or (q * 256) 256 ≡ (2 * (q / 2) + 1) * 256
odd_stride q = bit_or_shift 8 q 1 ∙ ap (λ (t : ℕ). t * 256) (bit_or-one q)

-- The stride of a VP9 decode buffer and the rows above which it stands.
abbrev pub decode_stride : ℕ → ℕ
decode_stride width = (2 * ((width + 255) / 256 / 2) + 1) * 256

abbrev pub decode_rows : ℕ → ℕ
decode_rows height = (height + 63) / 64 * 64

surface_buffer_size_positive :
    (width height : ℕ)
    → 0 < width
    → width < 2 ^ 32
    → 0 < height
    → height < 2 ^ 32
    → rk_surface_buffer_size width height ≡ (
        if ltb size_max (2 * (decode_stride width * decode_rows height))
        then none
        else some (2 * (decode_stride width * decode_rows height)))
unfolding rk_surface_buffer_size
surface_buffer_size_positive width height pw lw ph lh =
    let aw : align_up width 256 ≡ some ((width + 255) / 256 * 256) =
      align_up_lem width 256 lw (omega arith) (omega arith)
      ∙ ap (λ (t : ℕ). some (t / 256 * 256)) (omega arith) in
    let ah : align_up height 64 ≡ some (decode_rows height) =
      align_up_lem height 64 lh (omega arith) (omega arith)
      ∙ ap (λ (t : ℕ). some (t / 64 * 64)) (omega arith) in
    let positive : 0 < decode_rows height = omega arith in
    elim (Bool-cases (ltb (size_max / decode_rows height) (decode_stride width))) [
      | inl over ↦ ground (
        arith,
        pw,
        ph,
        aw,
        ah,
        odd_stride ((width + 255) / 256),
        lt_mul_of_div_lt (decode_stride width) (decode_rows height) size_max positive
            (ltb→lt _ _ over),
        over,
      )
      | inr fits ↦ ground (
        arith,
        pw,
        ph,
        aw,
        ah,
        odd_stride ((width + 255) / 256),
        mul_of_le_div (decode_stride width) (decode_rows height) size_max positive
            (ground (arith, fits)),
        fits,
      )
    ]

-- The decode buffer of 32-bit dimensions is refused where one of them is 0 or the size does not fit 64
-- bits, and is given otherwise: twice the luma plane of an odd multiple of 256 bytes for each row and
-- rows to a multiple of 64.
pub rk_surface_buffer_size_lem :
    (width height : ℕ)
    → width < 2 ^ 32
    → height < 2 ^ 32
    → rk_surface_buffer_size width height ≡ (
        if width == 0
          || (height == 0 || ltb size_max (2 * (decode_stride width * decode_rows height)))
        then none
        else some (2 * (decode_stride width * decode_rows height)))
rk_surface_buffer_size_lem width height lw lh = elim (Bool-cases (width == 0)) [
  | inl no_width ↦ rw no_width (unfold rk_surface_buffer_size in rw no_width refl)
  | inr wide ↦ elim (Bool-cases (height == 0)) [
    | inl no_height ↦
        rw (wide, no_height) (unfold rk_surface_buffer_size in rw (wide, no_height) refl)
    | inr high ↦
        rw (wide, high)
          (surface_buffer_size_positive width height (ground (arith, wide)) lw
            (ground (arith, high)) lh)
  ]
]

area_mono : (w h w' h' : ℕ) → w ≤ w' → h ≤ h' → w * h ≤ w' * h'
area_mono w h w' h' p q = mul-le-mul p q

-- For 1 to 2 ^ 31 columns and rows the placeholder size is given, is at least the decode buffer's,
-- and covers the samples of the frame: two bytes for each pixel, and three with 10-bit samples.
pub rk_surface_placeholder_size_covers :
    (width height : ℕ) (is_10bit : Bool)
    → 0 < width
    → width ≤ 2 ^ 31
    → 0 < height
    → height ≤ 2 ^ 31
    → (size conservative : ℕ) × (rk_surface_placeholder_size width height is_10bit ≡ some size)
      × (rk_surface_buffer_size width height ≡ some conservative)
      × (conservative ≤ size)
      × (2 * (width * height) ≤ size)
      × ((is_10bit ≡ false) ⊎ (3 * (width * height) ≤ size))
unfolding rk_surface_placeholder_size
rk_surface_placeholder_size_covers width height is_10bit pw lw ph lh = go is_10bit
  where
    stride : ℕ
    stride = decode_stride width

    rows : ℕ
    rows = decode_rows height

    fits : stride * rows ≤ (2 ^ 31 + 512) * (2 ^ 31 + 64)
    fits = area_mono stride rows (2 ^ 31 + 512) (2 ^ 31 + 64) (omega arith) (omega arith)

    conservative : rk_surface_buffer_size width height ≡ some (2 * (stride * rows))
    conservative =
        ground
          (arith, surface_buffer_size_positive width height pw (omega arith) ph (omega arith), fits)

    covers : width * height ≤ stride * rows
    covers = area_mono width height stride rows (omega arith) (omega arith)

    columns : ℕ
    columns = (width + 15) / 16 * 16

    lines : ℕ
    lines = (height + 15) / 16 * 16

    deep : rk_p010_layout_size columns lines ≡ some (3 * (columns * lines))
    deep = ground (
      arith,
      rk_p010_layout_size_lem columns lines (omega arith) (omega arith) (omega arith),
      area_mono columns lines (2 ^ 31 + 16) (2 ^ 31 + 16) (omega arith) (omega arith),
    )

    covers_deep : width * height ≤ columns * lines
    covers_deep = area_mono width height columns lines (omega arith) (omega arith)

    aligned : (v : ℕ) → v ≤ 2 ^ 31 → align_up v 16 ≡ some ((v + 15) / 16 * 16)
    aligned v le =
        align_up_lem v 16 (omega arith) (omega arith) (omega arith)
        ∙ ap (λ (t : ℕ). some (t / 16 * 16)) (omega arith)

    size : ℕ
    size =
        if ltb (2 * (stride * rows)) (3 * (columns * lines))
        then 3 * (columns * lines)
        else 2 * (stride * rows)

    go :
        (b : Bool)
        → (size conservative : ℕ) × (rk_surface_placeholder_size width height b ≡ some size)
          × (rk_surface_buffer_size width height ≡ some conservative)
          × (conservative ≤ size)
          × (2 * (width * height) ≤ size)
          × ((b ≡ false) ⊎ (3 * (width * height) ≤ size))
    go false = (
      2 * (stride * rows),
      2 * (stride * rows),
      conservative,
      conservative,
      omega arith,
      omega (arith, covers),
      inl refl,
    )
    go true = (
      size,
      2 * (stride * rows),
      rw (conservative, aligned width lw, aligned height lh, deep) refl,
      conservative,
      ground arith,
      ground (arith, covers),
      inr (ground (arith, covers_deep)),
    )
