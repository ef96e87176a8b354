-- ===== src/Hevc/Validate/Tiles.antt =====
-- `tile_spacing_is_uniform` of src/hevc.c against the sizes of 6.5.1.
use rockchip_vaapi.Base.{
  ℕ, zero, suc, ◌+◌, ◌-◌, ◌*◌, ◌/◌, ◌^◌, ◌≤◌, ◌<◌, ◌≡◌, ◌↔◌, refl, ap, ◌∙◌, true, List, [], ◌∷◌,
  arith, length, ltb, Bool-cases, inl, inr, get_or, take,
}
use native.Mathlib.Nat.{pow-le-pow_right, div-add-mod, mod-lt, mul-le-mul, le_refl}
use rockchip_vaapi.Hevc.Parameters.{HevcParameters}
use rockchip_vaapi.Hevc.Validate.{
  spacing_loop, width_ctbs, height_ctbs, ctb_log2, tile_spacing_is_uniform,
}

-- `colWidth[i]` with uniform spacing: the number of blocks from one boundary to the next.
abbrev pub uniform_size : ℕ → ℕ → ℕ → ℕ
uniform_size ctbs parts i = (i + 1) * ctbs / parts - i * ctbs / parts

-- Of `parts` parts, each but the last is given with its uniform size, less one in the field.
abbrev pub AreUniform : ℕ → ℕ → List ℕ → Type 0
AreUniform ctbs parts sizes =
    (i : ℕ) → i + 1 < parts → get_or sizes i 0 + 1 ≡ uniform_size ctbs parts i

-- So many blocks of a side cover so many samples, and one block fewer does not.
pub record Cover (samples side count : ℕ) : Type 0 where
  pub enough : samples ≤ count * side
  pub needed : count * side < samples + side

loop_lem :
    (n : ℕ) (sizes : List ℕ) (i ctbs parts : ℕ)
    → n ≤ length sizes
    → spacing_loop (take n sizes) i ctbs parts ≡ true
      ↔ ((k : ℕ) → k < n → get_or sizes k 0 + 1 ≡ uniform_size ctbs parts (i + k))
unfolding spacing_loop
loop_lem zero sizes i ctbs parts le = (λ e k lt. absurd (omega arith), λ u. refl)
loop_lem (suc n) [] i ctbs parts le = absurd (omega arith)
loop_lem (suc n) (size ∷ sizes) i ctbs parts le =
    let (there, back) = loop_lem n sizes (i + 1) ctbs parts (omega arith) in
    let start = i * ctbs / parts in
    let end = (i + 1) * ctbs / parts in
    (
      λ e. split e there,
      λ u.
          let head : size + 1 ≡ end - start =
            u 0 (omega arith) ∙ ap (uniform_size ctbs parts) (omega arith) in
          let rest =
            back (λ k lt. u (suc k) (omega arith) ∙ ap (uniform_size ctbs parts) (omega arith)) in
          ground (arith, head, rest),
    )
  where
    split :
        spacing_loop (take (suc n) (size ∷ sizes)) i ctbs parts ≡ true
        → (spacing_loop (take n sizes) (i + 1) ctbs parts ≡ true
            → (k : ℕ) → k < n
            → get_or sizes k 0 + 1 ≡ uniform_size ctbs parts (i + 1 + k))
        → (k : ℕ) → k < suc n
        → get_or (size ∷ sizes) k 0 + 1 ≡ uniform_size ctbs parts (i + k)
    split e there zero lt =
        let head : size + 1 ≡ uniform_size ctbs parts i = ground (arith, e) in
        head ∙ ap (uniform_size ctbs parts) (omega arith)
    split e there (suc k) lt =
        there (ground (arith, e)) k (omega arith) ∙ ap (uniform_size ctbs parts) (omega arith)

pow_positive : (k : ℕ) → 0 < 2 ^ k
pow_positive k =
    let least : 2 ^ 0 ≤ 2 ^ k =
      pow-le-pow_right {n = 2} (omega arith) {i = 0} {j = k} (omega arith) in
    omega (arith, least)

below : (a b : ℕ) → ltb a b ≡ true → a + 1 ≤ b
below a b e = ground (arith, e)

-- The rounded quotient is the count.
cover_lem :
    (samples side count : ℕ)
    → 0 < side
    → Cover samples side count
    → (samples + side - 1) / side ≡ count
cover_lem samples side count pos c =
    let whole = div-add-mod (samples + side - 1) side in
    let part = mod-lt (samples + side - 1) pos in
    let q = (samples + side - 1) / side in
    elim (Bool-cases (ltb q count)) [
      | inl less ↦
          let scaled : side * (q + 1) ≤ side * count =
            mul-le-mul (le_refl side) (below q count less) in
          absurd (omega (arith, whole, part, c.needed, scaled))
      | inr not_less ↦ elim (Bool-cases (ltb count q)) [
        | inl more ↦
            let scaled : side * (count + 1) ≤ side * q =
              mul-le-mul (le_refl side) (below count q more) in
            absurd (omega (arith, whole, part, c.enough, scaled))
        | inr not_more ↦ ground (arith, not_less, not_more)
      ]
    ]

-- For a picture of so many columns and rows of coding tree blocks, whose size is at most 2 ^ 6, and
-- arrays with an entry for each tile column and row but the last: the test holds exactly where each
-- explicit column and each explicit row has the size of 6.5.1.
pub tile_spacing_is_uniform_lem :
    (pp : HevcParameters) (blocks_across blocks_down : ℕ)
    → Cover pp.pic_width_in_luma_samples (2 ^ ctb_log2 pp) blocks_across
    → Cover pp.pic_height_in_luma_samples (2 ^ ctb_log2 pp) blocks_down
    → pp.num_tile_columns_minus1 ≤ length pp.column_width_minus1
    → pp.num_tile_rows_minus1 ≤ length pp.row_height_minus1
    → (tile_spacing_is_uniform pp ≡ true) ↔ (
        AreUniform blocks_across (pp.num_tile_columns_minus1 + 1) pp.column_width_minus1
        × AreUniform blocks_down (pp.num_tile_rows_minus1 + 1) pp.row_height_minus1)
unfolding tile_spacing_is_uniform
tile_spacing_is_uniform_lem pp blocks_across blocks_down cover cover' le le' =
    let nc = pp.num_tile_columns_minus1 in
    let nr = pp.num_tile_rows_minus1 in
    let positive : 0 < 2 ^ ctb_log2 pp = pow_positive (ctb_log2 pp) in
    let across : width_ctbs pp ≡ blocks_across = cover_lem _ _ _ positive cover in
    let down : height_ctbs pp ≡ blocks_down = cover_lem _ _ _ positive cover' in
    let (c, c') = loop_lem nc pp.column_width_minus1 0 blocks_across (nc + 1) le in
    let (r, r') = loop_lem nr pp.row_height_minus1 0 blocks_down (nr + 1) le' in
    rw (across, down)
      (
        λ e. (
          λ i lt.
              c (ground (arith, e)) i (omega arith)
              ∙ ap (uniform_size blocks_across (nc + 1)) (omega arith),
          λ i lt.
              r (ground (arith, e)) i (omega arith)
              ∙ ap (uniform_size blocks_down (nr + 1)) (omega arith),
        ),
        λ u.
            let left = c' (λ k lt.
              u.0 k (omega arith) ∙ ap (uniform_size blocks_across (nc + 1)) (omega arith)) in
            let right = r' (λ k lt.
              u.1 k (omega arith) ∙ ap (uniform_size blocks_down (nr + 1)) (omega arith)) in
            rw (left, right) refl,
      )
