-- ===== src/Images/Put/Copied.antt =====
-- Where the bytes of an image are in the memory of a surface behind `rk_PutImage` of src/buffer.c.
use rockchip_vaapi.Base.{
  ℕ, zero, suc, ◌+◌, ◌-◌, ◌*◌, ◌/◌, ◌%◌, ◌≤◌, ◌<◌, ◌≡◌, ◌⊎◌, refl, ◌∙◌, true, false, ◌&&◌, arith,
  ltb, leb, ◌==◌, if◌then◌else◌, Bool-cases, inl, inr,
}
use native.Mathlib.Nat.{mul-le-mul_right}
use rockchip_vaapi.Images.{is_planar, Image, pitch_of, offset_of}
use rockchip_vaapi.Images.Put.{
  Memory, memcpy, memset_zero, poke, rows_loop, copy_row, interleave, interleave_row, Target,
  row_bytes_of, dst_pitch_of, put_pixels, u_plane_of, v_plane_of,
}

memcpy_at :
    (dst : Memory) (to : ℕ) (src : Memory) (from n i : ℕ)
    → i < n
    → memcpy dst to src from n (to + i) ≡ src (from + i)
memcpy_at dst to src from n i lt =
    let here : (leb to (to + i) && ltb (to + i) (to + n)) ≡ true = ground (arith, lt) in
    let offset : to + i - to ≡ i = omega arith in rw (here, offset) refl

memcpy_else :
    (dst : Memory) (to : ℕ) (src : Memory) (from n at : ℕ)
    → (at < to) ⊎ (to + n ≤ at)
    → memcpy dst to src from n at ≡ dst at
memcpy_else dst to src from n at out =
    let there : (leb to at && ltb at (to + n)) ≡ false = ground (arith, out) in rw there refl

-- A row is written in its place only, and what it writes there does not depend on the memory.
pub record WritesRows (write : ℕ → Memory → Memory) (to pitch n : ℕ) (value : ℕ → ℕ → ℕ)
    : Type 0 where
  pub narrow : n ≤ pitch
  pub inside :
      (row i : ℕ) (dst : Memory) → i < n → write row dst (to + row * pitch + i) ≡ value row i
  pub outside :
      (row at : ℕ) (dst : Memory)
      → (at < to + row * pitch) ⊎ (to + row * pitch + pitch ≤ at)
      → write row dst at ≡ dst at

module _ (write : ℕ → Memory → Memory) (to pitch n : ℕ) (value : ℕ → ℕ → ℕ)
    (w : WritesRows write to pitch n value) where
  below :
      (left row at : ℕ) (dst : Memory)
      → at < to + row * pitch
      → rows_loop write left row dst at ≡ dst at
  unfolding rows_loop
  below zero row at dst lt = refl
  below (suc left) row at dst lt =
      below left (row + 1) at (write row dst) (omega (arith, lt)) ∙ w.outside row at dst (inl lt)

  pub above :
      (left row at : ℕ) (dst : Memory)
      → to + (row + left) * pitch ≤ at
      → rows_loop write left row dst at ≡ dst at
  unfolding rows_loop
  above zero row at dst le = refl
  above (suc left) row at dst le =
      above left (row + 1) at (write row dst)
        (let same : row + 1 + left ≡ row + suc left = omega arith in rw same le)
      ∙ w.outside row at dst (
          inr (
            omega
              (arith, le, mul-le-mul_right {m = row + 1} {n = row + suc left} pitch (omega arith))))

  pub inside_rows :
      (left first row i : ℕ) (dst : Memory)
      → first ≤ row
      → row < first + left
      → i < n
      → rows_loop write left first dst (to + row * pitch + i) ≡ value row i
  unfolding rows_loop
  inside_rows zero first row i dst le lt lt' = absurd (omega (arith, le, lt))
  inside_rows (suc left) first row i dst le lt lt' = elim (Bool-cases (row == first)) [
    | inl here ↦
        let same : row ≡ first = ground (arith, here) in
        rw (← same) (
          below left (row + 1) (to + row * pitch + i) (write row dst) (omega (arith, lt', w.narrow))
          ∙ w.inside row i dst lt')
    | inr later ↦
        inside_rows left (first + 1) row i (write first dst) (ground (arith, le, later))
          (omega (arith, lt)) lt'
  ]

copy_row-WritesRows :
    (src : Memory) (from src_pitch to dst_pitch n : ℕ)
    → n ≤ dst_pitch
    → WritesRows
        (copy_row src from src_pitch to dst_pitch n)
        to
        dst_pitch
        n
        (λ row i. src (from + row * src_pitch + i))
copy_row-WritesRows src from src_pitch to dst_pitch n le = record {
  narrow = le;
  inside = λ row i dst lt. memcpy_at dst (to + row * dst_pitch) src (from + row * src_pitch) n i lt;
  outside = λ row at dst out.
      memcpy_else dst (to + row * dst_pitch) src (from + row * src_pitch) n at
        (elim out [ inl lt ↦ inl lt | inr ge ↦ inr (omega (arith, ge, le)) ]);
}

poke_else :
    (dst : Memory) (address byte at : ℕ)
    → (at == address) ≡ false
    → poke dst address byte at ≡ dst at
poke_else dst address byte at e = rw e refl

module _ (src : Memory) (u v to : ℕ) where
  pair : ℕ → Memory → Memory
  pair column dst =
      poke (poke dst (to + 2 * column) (src (u + column))) (to + 2 * column + 1) (src (v + column))

  pair_else :
      (column at : ℕ) (dst : Memory)
      → (at < to + 2 * column) ⊎ (to + 2 * column + 1 < at)
      → pair column dst at ≡ dst at
  unfolding pair
  pair_else column at dst out =
      let first : (at == to + 2 * column) ≡ false = ground (arith, out) in
      let second : (at == to + 2 * column + 1) ≡ false = ground (arith, out) in
      rw (first, second) refl

  interleave_else :
      (left column at : ℕ) (dst : Memory)
      → (at < to + 2 * column) ⊎ (to + 2 * (column + left) ≤ at)
      → interleave src u v to left column dst at ≡ dst at
  unfolding interleave pair
  interleave_else zero column at dst out = refl
  interleave_else (suc left) column at dst out =
      interleave_else left (column + 1) at (pair column dst)
        (elim out [ inl lt ↦ inl (omega (arith, lt)) | inr ge ↦ inr (omega (arith, ge)) ])
      ∙ pair_else column at dst (elim out [ inl lt ↦ inl lt | inr ge ↦ inr (omega (arith, ge)) ])

  interleave_at :
      (left first column : ℕ) (dst : Memory)
      → first ≤ column
      → column < first + left
      → (interleave src u v to left first dst (to + 2 * column) ≡ src (u + column))
        × (interleave src u v to left first dst (to + 2 * column + 1) ≡ src (v + column))
  unfolding interleave pair
  interleave_at zero first column dst le lt = absurd (omega (arith, le, lt))
  interleave_at (suc left) first column dst le lt = elim (Bool-cases (column == first)) [
    | inl here ↦
        let same : column ≡ first = ground (arith, here) in
        let apart : (to + 2 * column == to + 2 * column + 1) ≡ false = ground arith in
        let itself : (to + 2 * column == to + 2 * column) ≡ true = ground arith in
        let itself' : (to + 2 * column + 1 == to + 2 * column + 1) ≡ true = ground arith in
        rw (← same) (
          interleave_else left (column + 1) (to + 2 * column) (pair column dst) (inl (omega arith))
              ∙ rw (apart, itself) refl,
          interleave_else left (column + 1) (to + 2 * column + 1) (pair column dst)
                (inl (omega arith))
              ∙ rw itself' refl,
        )
    | inr later ↦
        interleave_at left (first + 1) column (pair first dst) (ground (arith, le, later))
          (omega (arith, lt))
  ]

-- The byte of a row of interleaved chroma: U at even places and V at odd ones.
abbrev pub chroma_byte : Memory → Image → ℕ → ℕ → ℕ → ℕ → ℕ
chroma_byte src image u_plane v_plane row i =
    let plane = if i % 2 == 0 then u_plane else v_plane in
    src (offset_of image plane + row * pitch_of image plane + i / 2)

interleave_row-WritesRows :
    (src : Memory) (image : Image) (u_plane v_plane to dst_pitch chroma_bytes : ℕ)
    → 2 * chroma_bytes ≤ dst_pitch
    → WritesRows
        (interleave_row src image u_plane v_plane to dst_pitch chroma_bytes)
        to
        dst_pitch
        (2 * chroma_bytes)
        (chroma_byte src image u_plane v_plane)
interleave_row-WritesRows src image u_plane v_plane to dst_pitch chroma_bytes le = record {
  narrow = le;
  inside = λ row i dst lt.
      let start = to + row * dst_pitch in
      let u = offset_of image u_plane + row * pitch_of image u_plane in
      let v = offset_of image v_plane + row * pitch_of image v_plane in
      let (even, odd) =
        interleave_at src u v start chroma_bytes 0 (i / 2) dst (omega arith) (omega (arith, lt)) in
      elim (Bool-cases (i % 2 == 0)) [
        | inl zero_bit ↦
            let place : start + i ≡ start + 2 * (i / 2) = ground (arith, zero_bit) in
            rw (place, zero_bit) even
        | inr one_bit ↦
            let place : start + i ≡ start + 2 * (i / 2) + 1 = ground (arith, one_bit) in
            rw (place, one_bit) odd
      ];
  outside = λ row at dst out.
      interleave_else src (offset_of image u_plane + row * pitch_of image u_plane)
        (offset_of image v_plane + row * pitch_of image v_plane) (to + row * dst_pitch) chroma_bytes
        0 at dst
        (elim out [ inl lt ↦ inl (omega (arith, lt)) | inr ge ↦ inr (omega (arith, ge, le)) ]);
}

-- What stands in the memory: each byte of the rows of the picture, from the planes of the image, and
-- behind the layout what was there.
pub record IsPut (image : Image) (src : Memory) (target : Target) (destination_size : ℕ)
    (dst next : Memory) : Type 0 where
  pub luma :
      (row i : ℕ)
      → row < target.height
      → i < (if is_planar image.fourcc then target.width else row_bytes_of target)
      → next (row * dst_pitch_of target + i) ≡ src (offset_of image 0 + row * pitch_of image 0 + i)
  pub packed_chroma :
      is_planar image.fourcc ≡ false
      → (row i : ℕ) → row < target.height / 2
      → i < row_bytes_of target
      → next (dst_pitch_of target * target.vstride + row * dst_pitch_of target + i)
        ≡ src (offset_of image 1 + row * pitch_of image 1 + i)
  pub planar_chroma :
      is_planar image.fourcc ≡ true
      → (row i : ℕ) → row < target.height / 2
      → i < 2 * (target.width / 2)
      → next (dst_pitch_of target * target.vstride + row * dst_pitch_of target + i)
        ≡ chroma_byte src image (u_plane_of image.fourcc) (v_plane_of image.fourcc) row i
  pub behind : (at : ℕ) → destination_size ≤ at → next at ≡ dst at

two_loops :
    (write write' : ℕ → Memory → Memory) (pitch n n' height half vstride : ℕ)
    (value value' : ℕ → ℕ → ℕ) (dst : Memory)
    → WritesRows write 0 pitch n value
    → WritesRows write' (pitch * vstride) pitch n' value'
    → height ≤ vstride
    → (row i : ℕ) → row < height
    → i < n
    → rows_loop write' half 0 (rows_loop write height 0 dst) (row * pitch + i) ≡ value row i
two_loops write write' pitch n n' height half vstride value value' dst w w' le row i lt lt' =
    let start : 0 + row * pitch + i ≡ row * pitch + i = omega arith in
    let fits = mul-le-mul_right {m = row + 1} {n = vstride} pitch (omega (arith, lt, le)) in
    below write' (pitch * vstride) pitch n' value' w' half 0 (row * pitch + i)
      (rows_loop write height 0 dst) (omega (arith, lt', w.narrow, fits))
    ∙ (rw start at (
        inside_rows write 0 pitch n value w height 0 row i dst (omega arith) (omega (arith, lt))
          lt'))

memset_zero_behind : (dst : Memory) (n at : ℕ) → n ≤ at → memset_zero dst n at ≡ dst at
memset_zero_behind dst n at le = let out : ltb at n ≡ false = ground (arith, le) in rw out refl

loops_behind :
    (write write' : ℕ → Memory → Memory) (pitch n n' height vstride size : ℕ)
    (value value' : ℕ → ℕ → ℕ) (dst : Memory)
    → WritesRows write 0 pitch n value
    → WritesRows write' (pitch * vstride) pitch n' value'
    → height ≤ vstride
    → size ≡ pitch * vstride + pitch * vstride / 2
    → (at : ℕ) → size ≤ at
    → rows_loop write' (height / 2) 0 (rows_loop write height 0 (memset_zero dst size)) at ≡ dst at
loops_behind write write' pitch n n' height vstride size value value' dst w w' le same at ge =
    let luma = mul-le-mul_right {m = height} {n = vstride} pitch le in
    let chroma = mul-le-mul_right {m = height / 2 * 2} {n = vstride} pitch (omega (arith, le)) in
    above write' (pitch * vstride) pitch n' value' w' (height / 2) 0 at
      (rows_loop write height 0 (memset_zero dst size)) (omega (arith, same, ge, chroma))
    ∙ above write 0 pitch n value w height 0 at (memset_zero dst size)
        (omega (arith, same, ge, luma))
    ∙ memset_zero_behind dst size at ge

wide_row : (target : Target) → target.width ≤ row_bytes_of target
wide_row target = elim (Bool-cases target.ten_bit) [
  | inl ten ↦ rw ten (omega arith)
  | inr eight ↦ rw eight (omega arith)
]

-- Where the pitch of the surface spans a row and its picture has no more rows than its layout, the
-- copy puts each byte of each row in its place and nothing behind the layout.
pub put_pixels_lem :
    (image : Image) (src : Memory) (target : Target) (destination_size : ℕ) (dst : Memory)
    → row_bytes_of target ≤ dst_pitch_of target
    → target.height ≤ target.vstride
    → destination_size
      ≡ dst_pitch_of target * target.vstride + dst_pitch_of target * target.vstride / 2
    → IsPut image src target destination_size dst (put_pixels image src target destination_size dst)
unfolding put_pixels
put_pixels_lem image src target destination_size dst wide le same =
    elim (Bool-cases (is_planar image.fourcc)) [
      | inl planar ↦
          let pitch = dst_pitch_of target in
          let w =
            copy_row-WritesRows src (offset_of image 0) (pitch_of image 0) 0 pitch target.width
              (omega (arith, wide, wide_row target)) in
          let w' =
            interleave_row-WritesRows src image (u_plane_of image.fourcc) (v_plane_of image.fourcc)
              (pitch * target.vstride) pitch (target.width / 2)
              (omega (arith, wide, wide_row target)) in
          let start = memset_zero dst destination_size in
          rw planar (record {
            luma = λ row i lt lt'.
                two_loops _ _ pitch _ _ target.height (target.height / 2) target.vstride _ _ start w
                  w' le row i lt (rw planar at lt');
            packed_chroma = λ packed. absurd (cc (planar, packed));
            planar_chroma = λ _ row i lt lt'.
                inside_rows _ (pitch * target.vstride) pitch _ _ w' (target.height / 2) 0 row i _
                  (omega arith) (omega (arith, lt)) lt';
            behind =
                loops_behind _ _ pitch _ _ target.height target.vstride destination_size _ _ dst w
                  w' le same;
          })
      | inr packed ↦
          let pitch = dst_pitch_of target in
          let w =
            copy_row-WritesRows src (offset_of image 0) (pitch_of image 0) 0 pitch
              (row_bytes_of target) wide in
          let w' =
            copy_row-WritesRows src (offset_of image 1) (pitch_of image 1) (pitch * target.vstride)
              pitch (row_bytes_of target) wide in
          let start = memset_zero dst destination_size in
          rw packed (record {
            luma = λ row i lt lt'.
                two_loops _ _ pitch _ _ target.height (target.height / 2) target.vstride _ _ start w
                  w' le row i lt (rw packed at lt');
            packed_chroma = λ _ row i lt lt'.
                inside_rows _ (pitch * target.vstride) pitch _ _ w' (target.height / 2) 0 row i _
                  (omega arith) (omega (arith, lt)) lt';
            planar_chroma = λ planar. absurd (cc (planar, packed));
            behind =
                loops_behind _ _ pitch _ _ target.height target.vstride destination_size _ _ dst w
                  w' le same;
          })
    ]
