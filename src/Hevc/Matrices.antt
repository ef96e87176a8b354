-- ===== src/Hevc/Matrices.antt =====
-- src/hevc.c: the scaling lists of a PPS (`write_scaling_lists`).
pub mod Coded
pub mod Syntax
use rockchip_vaapi.Base.{
  ℕ, zero, suc, ◌+◌, ◌-◌, ◌*◌, ◌/◌, Bool, true, false, Option, none, some, List, [], ◌∷◌, ◌++◌, ltb,
  leb, ◌==◌, if◌then◌else◌, get_or, ◌>>=◌,
}
use rockchip_vaapi.Base.Int.{ℤ, pos, negsuc, sub_ℕ}
use rockchip_vaapi.Bitstream.Elements.{Element, u, ue, se}
use rockchip_vaapi.H264.{wrap_delta}
use rockchip_vaapi.Hevc.Parameters.{HevcMatrix}

abbrev pub diag4x4_x : List ℕ
diag4x4_x = 0 ∷ 0 ∷ 1 ∷ 0 ∷ 1 ∷ 2 ∷ 0 ∷ 1 ∷ 2 ∷ 3 ∷ 1 ∷ 2 ∷ 3 ∷ 2 ∷ 3 ∷ 3 ∷ []

abbrev pub diag4x4_y : List ℕ
diag4x4_y = 0 ∷ 1 ∷ 0 ∷ 2 ∷ 1 ∷ 0 ∷ 3 ∷ 2 ∷ 1 ∷ 0 ∷ 3 ∷ 2 ∷ 1 ∷ 3 ∷ 2 ∷ 3 ∷ []

abbrev pub diag8x8_x : List ℕ
diag8x8_x =
    0 ∷ 0 ∷ 1 ∷ 0 ∷ 1 ∷ 2 ∷ 0 ∷ 1 ∷ 2 ∷ 3 ∷ 0 ∷ 1 ∷ 2 ∷ 3 ∷ 4 ∷ 0 ∷ 1 ∷ 2 ∷ 3 ∷ 4 ∷ 5 ∷ 0 ∷ 1 ∷ 2
    ∷ 3 ∷ 4 ∷ 5 ∷ 6 ∷ 0 ∷ 1 ∷ 2 ∷ 3 ∷ 4 ∷ 5 ∷ 6 ∷ 7 ∷ 1 ∷ 2 ∷ 3 ∷ 4 ∷ 5 ∷ 6 ∷ 7 ∷ 2 ∷ 3 ∷ 4 ∷ 5 ∷ 6
    ∷ 7 ∷ 3 ∷ 4 ∷ 5 ∷ 6 ∷ 7 ∷ 4 ∷ 5 ∷ 6 ∷ 7 ∷ 5 ∷ 6 ∷ 7 ∷ 6 ∷ 7 ∷ 7 ∷ []

abbrev pub diag8x8_y : List ℕ
diag8x8_y =
    0 ∷ 1 ∷ 0 ∷ 2 ∷ 1 ∷ 0 ∷ 3 ∷ 2 ∷ 1 ∷ 0 ∷ 4 ∷ 3 ∷ 2 ∷ 1 ∷ 0 ∷ 5 ∷ 4 ∷ 3 ∷ 2 ∷ 1 ∷ 0 ∷ 6 ∷ 5 ∷ 4
    ∷ 3 ∷ 2 ∷ 1 ∷ 0 ∷ 7 ∷ 6 ∷ 5 ∷ 4 ∷ 3 ∷ 2 ∷ 1 ∷ 0 ∷ 7 ∷ 6 ∷ 5 ∷ 4 ∷ 3 ∷ 2 ∷ 1 ∷ 7 ∷ 6 ∷ 5 ∷ 4 ∷ 3
    ∷ 2 ∷ 7 ∷ 6 ∷ 5 ∷ 4 ∷ 3 ∷ 7 ∷ 6 ∷ 5 ∷ 4 ∷ 7 ∷ 6 ∷ 5 ∷ 7 ∷ 6 ∷ 7 ∷ []

-- `width * y[i] + x[i]` for each `i`.
abbrev pub positions : ℕ → List ℕ → List ℕ → List ℕ
positions width (x ∷ xs) (y ∷ ys) = (width * y + x) ∷ positions width xs ys
positions width _ _ = []

abbrev pub diagonal : ℕ → List ℕ
diagonal size_id =
    if size_id == 0 then positions 4 diag4x4_x diag4x4_y else positions 8 diag8x8_x diag8x8_y

-- The inner loop: the differences of the entries at the positions, from the last value on. The two
-- tests of the code wrap as those of H.264 do, since no difference meets both.
unfoldable pub coded_entries : List ℕ → List ℕ → ℕ → List Element
coded_entries matrix [] next = []
coded_entries matrix (at ∷ scan) next =
    let value = get_or matrix at 0 in
    se (wrap_delta (sub_ℕ value next)) ∷ coded_entries matrix scan value

-- One matrix; `none` is the refusal of a zero DC value.
unfoldable pub matrix_element_list : ℕ → List ℕ → ℕ → Option (List Element)
matrix_element_list size_id matrix dc =
    if leb size_id 1
    then some (u 1 1 ∷ coded_entries matrix (diagonal size_id) 8)
    else if dc == 0
    then none
    else some (u 1 1 ∷ se (sub_ℕ dc 8) ∷ coded_entries matrix (diagonal size_id) dc)

-- The loop over the matrices of one size, from `matrix_id` on, with the number that is left.
unfoldable pub size_matrices : ℕ → (ℕ → List ℕ) → (ℕ → ℕ) → ℕ → ℕ → Option (List Element)
size_matrices size_id matrix dc zero matrix_id = some []
size_matrices size_id matrix dc (suc left) matrix_id = do
  first ← matrix_element_list size_id (matrix matrix_id) (dc matrix_id)
  rest ←
      size_matrices size_id matrix dc left (if size_id == 3 then matrix_id + 3 else matrix_id + 1)
  some (first ++ rest)

-- The entries of matrix `matrix_id`; none is read out of range.
abbrev pub scaling_matrix : HevcMatrix → ℕ → ℕ → List ℕ
scaling_matrix iq size_id matrix_id =
    if size_id == 0
    then get_or iq.scaling_list4x4 matrix_id []
    else if size_id == 1
    then get_or iq.scaling_list8x8 matrix_id []
    else if size_id == 2
    then get_or iq.scaling_list16x16 matrix_id []
    else get_or iq.scaling_list32x32 (matrix_id / 3) []

abbrev pub scaling_dc : HevcMatrix → ℕ → ℕ → ℕ
scaling_dc iq size_id matrix_id =
    if size_id == 2
    then get_or iq.scaling_list_dc16x16 matrix_id 0
    else if size_id == 3
    then get_or iq.scaling_list_dc32x32 (matrix_id / 3) 0
    else 8

-- `write_scaling_lists`: six matrices of each size, and two of the last.
unfoldable pub matrices_elements : HevcMatrix → Option (List Element)
matrices_elements iq = do
  a ← size_matrices 0 (scaling_matrix iq 0) (scaling_dc iq 0) 6 0
  b ← size_matrices 1 (scaling_matrix iq 1) (scaling_dc iq 1) 6 0
  c ← size_matrices 2 (scaling_matrix iq 2) (scaling_dc iq 2) 6 0
  d ← size_matrices 3 (scaling_matrix iq 3) (scaling_dc iq 3) 2 0
  some (a ++ (b ++ (c ++ d)))
