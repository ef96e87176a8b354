-- ===== src/Hevc/Matrices/Coded.antt =====
-- The scaling lists of src/hevc.c: the decoding of 7.3.4 and the bits that they take.
use rockchip_vaapi.Base.{
  ℕ, zero, suc, ◌+◌, ◌*◌, ◌/◌, ◌≤◌, ◌<◌, ◌≡◌, refl, false, some, List, [], ◌∷◌, ◌++◌, arith, leb,
  ◌==◌, if◌then◌else◌, Bool-cases, inl, inr, All, get_or, get_or-All, get_or-All_lt, length,
}
use rockchip_vaapi.Base.Int.{sub_ℕ}
use rockchip_vaapi.Bitstream.Golomb.{unsigned_of-le}
use rockchip_vaapi.Bitstream.Elements.{Element, u, se}
use rockchip_vaapi.Bitstream.Sized.{Within, few-Within, Within-append, Within-le}
use rockchip_vaapi.H264.Scaling.{scanned, IsCoded, IsCoded-cons, length-scanned}
use rockchip_vaapi.Hevc.Parameters.{HevcMatrix}
use rockchip_vaapi.Hevc.Matrices.{
  diagonal, coded_entries, matrix_element_list, size_matrices, scaling_matrix, scaling_dc,
  matrices_elements,
}

abbrev pub Bytes : List ℕ → Type 0
Bytes = All (λ v. v < 256)

-- For a matrix of bytes and a starting value that is one, the written differences fit the signed Golomb
-- code, are one for each scanned entry, and decode, each added to the value before in 8 bits, to the
-- entries of the matrix along the scan.
pub coded_entries-IsCoded :
    (matrix scan : List ℕ) (next : ℕ)
    → next < 256
    → Bytes matrix
    → IsCoded next (scanned matrix scan) (coded_entries matrix scan next)
unfolding coded_entries
coded_entries-IsCoded matrix [] next lt b = record {
  decoded = refl;
  count = refl;
  fit = tt;
  short = omega arith;
}
coded_entries-IsCoded matrix (at ∷ scan) next lt b =
    let value = get_or matrix at 0 in
    let small : value < 256 = get_or-All (λ v. v < 256) matrix at 0 b (omega arith) in
    IsCoded-cons next value (scanned matrix scan) (coded_entries matrix scan value) lt small
      (coded_entries-IsCoded matrix scan value small b)

coded_entries-Within :
    (matrix scan : List ℕ) (next : ℕ)
    → length scan ≤ 64
    → next < 256
    → Bytes matrix
    → Within (coded_entries matrix scan next) 1088
coded_entries-Within matrix scan next le lt b =
    let c = coded_entries-IsCoded matrix scan next lt b in
    record { fits = c.fit; bits = omega (arith, c.short, length-scanned matrix scan) }

diagonal-le : (size_id : ℕ) → length (diagonal size_id) ≤ 64
diagonal-le size_id = elim (Bool-cases (size_id == 0)) [
  | inl e ↦ rw e (omega arith)
  | inr e ↦ rw e (omega arith)
]

pub matrix_element_list-Within :
    (size_id : ℕ) (matrix : List ℕ) (dc : ℕ)
    → Bytes matrix
    → 0 < dc
    → dc < 256
    → (es : List Element) × (matrix_element_list size_id matrix dc ≡ some es) × Within es 1210
unfolding matrix_element_list
matrix_element_list-Within size_id matrix dc b lo hi =
    let flat = coded_entries matrix (diagonal size_id) 8 in
    let offset = coded_entries matrix (diagonal size_id) dc in
    let nonzero : (dc == 0) ≡ false = ground (arith, lo) in
    elim (Bool-cases (leb size_id 1)) [
      | inl e ↦ (
        u 1 1 ∷ flat,
        rw e refl,
        Within-le (u 1 1 ∷ flat) _ 1210 (omega arith) (
            Within-append (u 1 1 ∷ []) flat 61 1088
              (few-Within (u 1 1 ∷ []) 1 (omega arith) (omega arith))
              (coded_entries-Within matrix (diagonal size_id) 8 (diagonal-le size_id) (omega arith)
                b)),
      )
      | inr e ↦ (
        u 1 1 ∷ se (sub_ℕ dc 8) ∷ offset,
        rw (e, nonzero) refl,
        Within-append (u 1 1 ∷ se (sub_ℕ dc 8) ∷ []) offset 122 1088
            (few-Within (u 1 1 ∷ se (sub_ℕ dc 8) ∷ []) 2
              (ground (arith, unsigned_of-le (sub_ℕ dc 8), lo, hi)) (omega arith))
            (coded_entries-Within matrix (diagonal size_id) dc (diagonal-le size_id) hi b),
      )
    ]

abbrev step_of : ℕ → ℕ
step_of size_id = if size_id == 3 then 3 else 1

size_matrices-Within :
    (size_id : ℕ) (matrix : ℕ → List ℕ) (dc : ℕ → ℕ)
    → ((i : ℕ) → Bytes (matrix i))
    → ((i : ℕ) → i < 6 → (0 < dc i) × (dc i < 256))
    → (left matrix_id : ℕ) → matrix_id + step_of size_id * left ≤ 6
    → (es : List Element) × (size_matrices size_id matrix dc left matrix_id ≡ some es)
      × Within es (1210 * left)
unfolding size_matrices
size_matrices-Within size_id matrix dc b d zero matrix_id le =
    ([], refl, record { fits = tt; bits = omega arith })
size_matrices-Within size_id matrix dc b d (suc left) matrix_id le =
    let (lo, hi) = d matrix_id (ground (arith, le)) in
    let (first, e, w) =
      matrix_element_list-Within size_id (matrix matrix_id) (dc matrix_id) (b matrix_id) lo hi in
    let next = if size_id == 3 then matrix_id + 3 else matrix_id + 1 in
    let (rest, e', w') =
      size_matrices-Within size_id matrix dc b d left next (ground (arith, le)) in
    (
      first ++ rest,
      rw (e, e') refl,
      Within-le (first ++ rest) _ (1210 * suc left) (omega arith)
          (Within-append first rest 1210 (1210 * left) w w'),
    )

-- The entries are bytes, and no DC value is 0.
pub record MatrixFits (iq : HevcMatrix) : Type 0 where
  pub small : All Bytes iq.scaling_list4x4
  pub medium : All Bytes iq.scaling_list8x8
  pub large : All Bytes iq.scaling_list16x16
  pub huge : All Bytes iq.scaling_list32x32
  pub large_dc : All (λ dc. (0 < dc) × (dc < 256)) iq.scaling_list_dc16x16
  pub huge_dc : All (λ dc. (0 < dc) × (dc < 256)) iq.scaling_list_dc32x32
  pub large_count : length iq.scaling_list_dc16x16 ≡ 6
  pub huge_count : length iq.scaling_list_dc32x32 ≡ 2

module _ (iq : HevcMatrix) (m : MatrixFits iq) where
  pub scaling_matrix-Bytes : (size_id i : ℕ) → Bytes (scaling_matrix iq size_id i)
  scaling_matrix-Bytes size_id i = elim (Bool-cases (size_id == 0)) [
    | inl e ↦ rw e (get_or-All Bytes iq.scaling_list4x4 i [] m.small tt)
    | inr e ↦ elim (Bool-cases (size_id == 1)) [
      | inl e' ↦ rw (e, e') (get_or-All Bytes iq.scaling_list8x8 i [] m.medium tt)
      | inr e' ↦ elim (Bool-cases (size_id == 2)) [
        | inl e'' ↦ rw (e, e', e'') (get_or-All Bytes iq.scaling_list16x16 i [] m.large tt)
        | inr e'' ↦ rw (e, e', e'') (get_or-All Bytes iq.scaling_list32x32 (i / 3) [] m.huge tt)
      ]
    ]
  ]

  pub scaling_dc-positive :
      (size_id i : ℕ) → i < 6 → (0 < scaling_dc iq size_id i) × (scaling_dc iq size_id i < 256)
  scaling_dc-positive size_id i lt = elim (Bool-cases (size_id == 2)) [
    | inl e ↦ rw e (
        get_or-All_lt (λ dc. (0 < dc) × (dc < 256)) iq.scaling_list_dc16x16 i 0 m.large_dc
          (omega (arith, m.large_count)))
    | inr e ↦ elim (Bool-cases (size_id == 3)) [
      | inl e' ↦
          rw (e, e')
            (get_or-All_lt (λ dc. (0 < dc) × (dc < 256)) iq.scaling_list_dc32x32 (i / 3) 0 m.huge_dc
              (omega (arith, m.huge_count)))
      | inr e' ↦ rw (e, e') (omega arith)
    ]
  ]

  pub size_lem :
      (size_id left : ℕ)
      → step_of size_id * left ≤ 6
      → (es : List Element) × (size_matrices size_id
            (scaling_matrix iq size_id)
            (scaling_dc iq size_id)
            left
            0
          ≡ some es)
        × Within es (1210 * left)
  size_lem size_id left le =
      size_matrices-Within size_id (scaling_matrix iq size_id) (scaling_dc iq size_id)
        (scaling_matrix-Bytes size_id) (scaling_dc-positive size_id) left 0 (omega (arith, le))

  -- All twenty matrices are written.
  pub matrices_elements-Within :
      (es : List Element) × (matrices_elements iq ≡ some es) × Within es 24200
  unfolding matrices_elements
  matrices_elements-Within =
      let (a, ea, wa) = size_lem 0 6 (omega arith) in
      let (b, eb, wb) = size_lem 1 6 (omega arith) in
      let (c, ec, wc) = size_lem 2 6 (omega arith) in
      let (d, ed, wd) = size_lem 3 2 (omega arith) in
      (
        a ++ (b ++ (c ++ d)),
        rw (ea, eb, ec, ed) refl,
        Within-append a (b ++ (c ++ d)) 7260 16940 wa
            (Within-append b (c ++ d) 7260 9680 wb (Within-append c d 7260 2420 wc wd)),
      )
