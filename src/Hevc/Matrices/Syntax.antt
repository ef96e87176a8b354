-- ===== src/Hevc/Matrices/Syntax.antt =====
-- The scaling lists of 7.3.4 and the up-right diagonal scan of 6.5.3 against those of src/hevc.c.
use rockchip_vaapi.Base.{
  ℕ, zero, suc, ◌+◌, ◌-◌, ◌*◌, ◌^◌, ◌≤◌, ◌<◌, ◌≡◌, refl, sym, subst, ap, ◌∙◌, true, false, Option,
  none, some, List, [], ◌∷◌, ◌++◌, arith, ltb, leb, ◌==◌, if◌then◌else◌, Bool-cases, Option-cases,
  inl, inr, get_or, get_or-All, length, append_assoc,
}
use mathlib.Core.Option.{some-injective}
use rockchip_vaapi.Base.Int.{ℤ, sub_ℕ, pos_part, neg_part}
use rockchip_vaapi.Bitstream.Decoder.{Decoder, refuse, bits, signed, feed, signed_value-unsigned_of}
use rockchip_vaapi.Bitstream.Elements.{Element, se}
use rockchip_vaapi.H264.Matrices.{upwards}
use rockchip_vaapi.H264.Scaling.{next_scale, scanned, wrap_delta_lem}
use rockchip_vaapi.H264.{wrap_delta}
use rockchip_vaapi.Hevc.Parameters.{HevcMatrix}
use rockchip_vaapi.Hevc.Matrices.{
  diagonal, coded_entries, matrix_element_list, size_matrices, scaling_matrix, scaling_dc,
  matrices_elements,
}
use rockchip_vaapi.Hevc.Matrices.Coded.{
  Bytes, MatrixFits, scaling_matrix-Bytes, scaling_dc-positive, matrix_element_list-Within,
  size_lem,
}

abbrev walk : ℕ → ℕ → ℕ → List ℕ
walk n d zero = []
walk n d (suc left) =
    let first = d + 1 - n in upwards n d first (d + 1 - 2 * first) ++ walk n (d + 1) left

-- Every anti-diagonal of a square in turn, from its lower left to its upper right.
pub up_right : ℕ → List ℕ
up_right n = walk n 0 (2 * n - 1)

small_scan : diagonal 0 ≡ up_right 4
unfolding up_right
small_scan = refl

large_scan : diagonal 1 ≡ up_right 8
unfolding up_right
large_scan = refl

-- A list has its DC value where the matrix is larger than the list.
pub record ListSyntax : Type 0 where
  pub scaling_list_dc_coef : Option ℕ
  pub coefficients : List ℕ

-- So many coefficients, each a difference to the one before.
pub coefficients_syntax : {A : Type 0} → ℕ → ℕ → (List ℕ → Decoder A) → Decoder A
coefficients_syntax zero last next = next []
coefficients_syntax (suc count) last next = signed (λ delta.
    coefficients_syntax count (next_scale last delta)
      (λ coefficients. next (next_scale last delta ∷ coefficients)))

-- A list that is predicted from another one is refused.
pub list_syntax : {A : Type 0} → ℕ → (ListSyntax → Decoder A) → Decoder A
unfolding coefficients_syntax
list_syntax size_id next = bits 1 (λ scaling_list_pred_mode_flag.
    if scaling_list_pred_mode_flag == 0
    then refuse
    else if ltb 1 size_id
    then signed (λ dc_coef_minus8.
      coefficients_syntax 64 (8 + pos_part dc_coef_minus8 - neg_part dc_coef_minus8)
        (λ coefficients. next (record {
          scaling_list_dc_coef = some (8 + pos_part dc_coef_minus8 - neg_part dc_coef_minus8);
          coefficients = coefficients;
        })))
    else coefficients_syntax (if size_id == 0 then 16 else 64) 8 (λ coefficients.
      next (record { scaling_list_dc_coef = none; coefficients = coefficients })))

pub lists_syntax : {A : Type 0} → ℕ → ℕ → (List ListSyntax → Decoder A) → Decoder A
unfolding list_syntax
lists_syntax size_id zero next = next []
lists_syntax size_id (suc count) next =
    list_syntax size_id (λ list. lists_syntax size_id count (λ lists. next (list ∷ lists)))

-- Six lists for each size of matrix but the largest, which has two.
pub scaling_list_data : {A : Type 0} → (List ListSyntax → Decoder A) → Decoder A
unfolding lists_syntax
scaling_list_data next = lists_syntax 0 6 (λ a.
    lists_syntax 1 6
      (λ b. lists_syntax 2 6 (λ c. lists_syntax 3 2 (λ d. next (a ++ (b ++ (c ++ d)))))))

-- The lists of matrices that have no DC values, and of those that have: `count` from number `i` on.
abbrev pub plain_lists : List (List ℕ) → List ℕ → ℕ → ℕ → List ListSyntax
plain_lists rows scan zero i = []
plain_lists rows scan (suc count) i =
    record { scaling_list_dc_coef = none; coefficients = scanned (get_or rows i []) scan }
    ∷ plain_lists rows scan count (i + 1)

abbrev pub dc_lists : List (List ℕ) → List ℕ → List ℕ → ℕ → ℕ → List ListSyntax
dc_lists rows dcs scan zero i = []
dc_lists rows dcs scan (suc count) i =
    record {
      scaling_list_dc_coef = some (get_or dcs i 0);
      coefficients = scanned (get_or rows i []) scan;
    }
    ∷ dc_lists rows dcs scan count (i + 1)

pub lists_of : HevcMatrix → List ListSyntax
lists_of iq =
    plain_lists iq.scaling_list4x4 (up_right 4) 6 0
    ++ (plain_lists iq.scaling_list8x8 (up_right 8) 6 0
        ++ (dc_lists iq.scaling_list16x16 iq.scaling_list_dc16x16 (up_right 8) 6 0
            ++ dc_lists iq.scaling_list32x32 iq.scaling_list_dc32x32 (up_right 8) 2 0))

coded_entries-read :
    {A : Type 0} (matrix scan : List ℕ) (last : ℕ) (rest : List Element) (next : List ℕ → Decoder A)
    → last < 256
    → Bytes matrix
    → feed (coefficients_syntax (length scan) last next) (coded_entries matrix scan last ++ rest)
      ≡ feed (next (scanned matrix scan)) rest
unfolding feed coefficients_syntax coded_entries
coded_entries-read matrix [] last rest next lt b = refl
coded_entries-read matrix (at ∷ scan) last rest next lt b =
    let v = get_or matrix at 0 in
    let small : v < 256 = get_or-All (λ v. v < 256) matrix at 0 b (omega arith) in
    let (back, short) = wrap_delta_lem last v lt small in
    rw (feed, signed_value-unsigned_of (wrap_delta (sub_ℕ v last)) (omega (arith, short)), back)
      (coded_entries-read matrix scan v rest (λ entries. next (v ∷ entries)) small b)

count_lem : (size_id : ℕ) → length (diagonal size_id) ≡ (if size_id == 0 then 16 else 64)
count_lem size_id = elim (Bool-cases (size_id == 0)) [ inl e ↦ rw e refl | inr e ↦ rw e refl ]

abbrev item : ℕ → List ℕ → ℕ → ListSyntax
item size_id matrix dc = record {
  scaling_list_dc_coef = if ltb 1 size_id then some dc else none;
  coefficients = scanned matrix (diagonal size_id);
}

large_count : (size_id : ℕ) → ltb 1 size_id ≡ true → length (diagonal size_id) ≡ 64
large_count size_id e =
    let other : (size_id == 0) ≡ false = ground (arith, e) in count_lem size_id ∙ rw other refl

-- The DC value stands 8 below in the stream.
dc_lem :
    (dc : ℕ)
    → 0 < dc
    → dc < 256
    → (8 + pos_part (sub_ℕ dc 8) - neg_part (sub_ℕ dc 8) ≡ dc)
      × (pos_part (sub_ℕ dc 8) + neg_part (sub_ℕ dc 8) < 2 ^ 30)
dc_lem dc lo hi = ground arith

dc_read :
    {A : Type 0} (dc : ℕ) (tail : List Element) (next : ℕ → Decoder A)
    → 0 < dc
    → dc < 256
    → feed (signed (λ z. next (8 + pos_part z - neg_part z))) (se (sub_ℕ dc 8) ∷ tail)
      ≡ feed (next dc) tail
unfolding feed
dc_read dc tail next lo hi =
    let (back, small) = dc_lem dc lo hi in
    ap (λ (z : ℤ). feed (next (8 + pos_part z - neg_part z)) tail)
      (signed_value-unsigned_of (sub_ℕ dc 8) small)
    ∙ ap (λ (n : ℕ). feed (next n) tail) back

list_read :
    {A : Type 0} (size_id : ℕ) (matrix : List ℕ) (dc : ℕ) (es rest : List Element)
    (next : ListSyntax → Decoder A)
    → Bytes matrix
    → 0 < dc
    → dc < 256
    → matrix_element_list size_id matrix dc ≡ some es
    → feed (list_syntax size_id next) (es ++ rest) ≡ feed (next (item size_id matrix dc)) rest
unfolding feed list_syntax matrix_element_list
list_read size_id matrix dc es rest next b lo hi e = elim (Bool-cases (ltb 1 size_id)) [
  | inl large ↦
      let above : leb size_id 1 ≡ false = ground (arith, large) in
      let positive : (dc == 0) ≡ false = ground (arith, lo) in
      let is = some-injective _ es (rw (above, positive) at e) in
      let entries : List ℕ → ListSyntax =
        λ c. record { scaling_list_dc_coef = some dc; coefficients = c } in
      let read =
        subst
          (λ (n : ℕ).
            feed (coefficients_syntax n dc (λ c. next (entries c)))
              (coded_entries matrix (diagonal size_id) dc ++ rest)
            ≡ feed (next (entries (scanned matrix (diagonal size_id)))) rest)
          (large_count size_id large)
          (coded_entries-read matrix (diagonal size_id) dc rest (λ c. next (entries c)) hi b) in
      rw (← is) (
        rw (feed, large)
          (dc_read dc (coded_entries matrix (diagonal size_id) dc ++ rest)
              (λ n.
                coefficients_syntax 64 n
                  (λ c. next (record { scaling_list_dc_coef = some n; coefficients = c })))
              lo hi
            ∙ read))
  | inr flat ↦
      let below : leb size_id 1 ≡ true = ground (arith, flat) in
      let is = some-injective _ es (rw below at e) in
      let entries : List ℕ → ListSyntax =
        λ c. record { scaling_list_dc_coef = none; coefficients = c } in
      let read =
        subst
          (λ (n : ℕ).
            feed (coefficients_syntax n 8 (λ c. next (entries c)))
              (coded_entries matrix (diagonal size_id) 8 ++ rest)
            ≡ feed (next (entries (scanned matrix (diagonal size_id)))) rest)
          (count_lem size_id)
          (coded_entries-read matrix (diagonal size_id) 8 rest (λ c. next (entries c)) (omega arith)
            b) in
      rw (← is) (rw (feed, flat) read)
]

abbrev step_from : ℕ → ℕ → ℕ
step_from size_id i = if size_id == 3 then i + 3 else i + 1

items : ℕ → (ℕ → List ℕ) → (ℕ → ℕ) → ℕ → ℕ → List ListSyntax
items size_id matrix dc zero i = []
items size_id matrix dc (suc left) i =
    item size_id (matrix i) (dc i) ∷ items size_id matrix dc left (step_from size_id i)

items_read :
    {A : Type 0} (size_id : ℕ) (matrix : ℕ → List ℕ) (dc : ℕ → ℕ)
    → ((i : ℕ) → Bytes (matrix i))
    → ((i : ℕ) → i < 6 → (0 < dc i) × (dc i < 256))
    → (left i : ℕ) (es rest : List Element) (next : List ListSyntax → Decoder A)
    → i + step_from size_id 0 * left ≤ 6
    → size_matrices size_id matrix dc left i ≡ some es
    → feed (lists_syntax size_id left next) (es ++ rest)
      ≡ feed (next (items size_id matrix dc left i)) rest
unfolding feed lists_syntax items size_matrices
items_read size_id matrix dc b d zero i es rest next le e = rw (← some-injective [] es e) refl
items_read size_id matrix dc b d (suc left) i es rest next le e =
    let (lo, hi) = d i (ground (arith, le)) in
    let (first, made, _) = matrix_element_list-Within size_id (matrix i) (dc i) (b i) lo hi in
    elim (Option-cases (size_matrices size_id matrix dc left (step_from size_id i))) [
      | inl refused ↦ absurd (cc (rw (made, refused) at e))
      | inr (others, ok) ↦
          let is = some-injective _ es (rw (made, ok) at e) in
          rw (← is, append_assoc)
            (list_read size_id (matrix i) (dc i) first (others ++ rest)
                (λ list. lists_syntax size_id left (λ lists. next (list ∷ lists))) (b i) lo hi made
              ∙ items_read size_id matrix dc b d left (step_from size_id i) others rest
                  (λ lists. next (item size_id (matrix i) (dc i) ∷ lists)) (ground (arith, le)) ok)
    ]

module _ (iq : HevcMatrix) where
  sizes_lem :
      (items 0 (scaling_matrix iq 0) (scaling_dc iq 0) 6 0
        ≡ plain_lists iq.scaling_list4x4 (up_right 4) 6 0)
      × (items 1 (scaling_matrix iq 1) (scaling_dc iq 1) 6 0
          ≡ plain_lists iq.scaling_list8x8 (up_right 8) 6 0)
      × (items 2 (scaling_matrix iq 2) (scaling_dc iq 2) 6 0
          ≡ dc_lists iq.scaling_list16x16 iq.scaling_list_dc16x16 (up_right 8) 6 0)
      × (items 3 (scaling_matrix iq 3) (scaling_dc iq 3) 2 0
          ≡ dc_lists iq.scaling_list32x32 iq.scaling_list_dc32x32 (up_right 8) 2 0)
  unfolding items
  sizes_lem = (
    ap (λ (s : List ℕ). plain_lists iq.scaling_list4x4 s 6 0) small_scan,
    ap (λ (s : List ℕ). plain_lists iq.scaling_list8x8 s 6 0) large_scan,
    ap (λ (s : List ℕ). dc_lists iq.scaling_list16x16 iq.scaling_list_dc16x16 s 6 0) large_scan,
    ap (λ (s : List ℕ). dc_lists iq.scaling_list32x32 iq.scaling_list_dc32x32 s 2 0) large_scan,
  )

  joined :
      (a b c d : List ListSyntax)
      → a ≡ plain_lists iq.scaling_list4x4 (up_right 4) 6 0
      → b ≡ plain_lists iq.scaling_list8x8 (up_right 8) 6 0
      → c ≡ dc_lists iq.scaling_list16x16 iq.scaling_list_dc16x16 (up_right 8) 6 0
      → d ≡ dc_lists iq.scaling_list32x32 iq.scaling_list_dc32x32 (up_right 8) 2 0
      → a ++ (b ++ (c ++ d)) ≡ lists_of iq
  unfolding lists_of
  joined a b c d e e' e'' e3 =
      ap (λ (t : List ListSyntax). t ++ (b ++ (c ++ d))) e
      ∙ ap
          (λ (t : List ListSyntax).
            plain_lists iq.scaling_list4x4 (up_right 4) 6 0 ++ (t ++ (c ++ d)))
          e'
      ∙ ap
          (λ (t : List ListSyntax).
            plain_lists iq.scaling_list4x4 (up_right 4) 6 0
            ++ (plain_lists iq.scaling_list8x8 (up_right 8) 6 0 ++ t))
          (ap (λ (t : List ListSyntax). t ++ d) e''
            ∙ ap
                (λ (t : List ListSyntax).
                  dc_lists iq.scaling_list16x16 iq.scaling_list_dc16x16 (up_right 8) 6 0 ++ t)
                e3)

  pub matrices_elements-read :
      {A : Type 0} (es rest : List Element) (next : List ListSyntax → Decoder A)
      → MatrixFits iq
      → matrices_elements iq ≡ some es
      → feed (scaling_list_data next) (es ++ rest) ≡ feed (next (lists_of iq)) rest
  unfolding scaling_list_data matrices_elements
  matrices_elements-read es rest next m e =
      let (a, ea, _) = size_lem iq m 0 6 (omega arith) in
      let (b, eb, _) = size_lem iq m 1 6 (omega arith) in
      let (c, ec, _) = size_lem iq m 2 6 (omega arith) in
      let (d, ed, _) = size_lem iq m 3 2 (omega arith) in
      let is = some-injective _ es (rw (ea, eb, ec, ed) at e) in
      let (s0, s1, s2, s3) = sizes_lem in
      let l0 = items 0 (scaling_matrix iq 0) (scaling_dc iq 0) 6 0 in
      let l1 = items 1 (scaling_matrix iq 1) (scaling_dc iq 1) 6 0 in
      let l2 = items 2 (scaling_matrix iq 2) (scaling_dc iq 2) 6 0 in
      let l3 = items 3 (scaling_matrix iq 3) (scaling_dc iq 3) 2 0 in
      ap (λ (t : List Element). feed (scaling_list_data next) (t ++ rest)) (sym is)
      ∙ ap (feed (scaling_list_data next)) (regroup a b c d rest)
      ∙ items_read 0 (scaling_matrix iq 0) (scaling_dc iq 0) (scaling_matrix-Bytes iq m 0)
          (scaling_dc-positive iq m 0) 6 0 a (b ++ (c ++ (d ++ rest)))
          (λ a.
            lists_syntax 1 6
              (λ b. lists_syntax 2 6 (λ c. lists_syntax 3 2 (λ d. next (a ++ (b ++ (c ++ d)))))))
          (omega arith) ea
      ∙ items_read 1 (scaling_matrix iq 1) (scaling_dc iq 1) (scaling_matrix-Bytes iq m 1)
          (scaling_dc-positive iq m 1) 6 0 b (c ++ (d ++ rest))
          (λ b. lists_syntax 2 6 (λ c. lists_syntax 3 2 (λ d. next (l0 ++ (b ++ (c ++ d))))))
          (omega arith) eb
      ∙ items_read 2 (scaling_matrix iq 2) (scaling_dc iq 2) (scaling_matrix-Bytes iq m 2)
          (scaling_dc-positive iq m 2) 6 0 c (d ++ rest)
          (λ c. lists_syntax 3 2 (λ d. next (l0 ++ (l1 ++ (c ++ d))))) (omega arith) ec
      ∙ items_read 3 (scaling_matrix iq 3) (scaling_dc iq 3) (scaling_matrix-Bytes iq m 3)
          (scaling_dc-positive iq m 3) 2 0 d rest (λ d. next (l0 ++ (l1 ++ (l2 ++ d))))
          (omega arith) ed
      ∙ ap (λ (t : List ListSyntax). feed (next t) rest) (joined l0 l1 l2 l3 s0 s1 s2 s3)
    where
      regroup :
          (a b c d rest : List Element)
          → (a ++ (b ++ (c ++ d))) ++ rest ≡ a ++ (b ++ (c ++ (d ++ rest)))
      regroup a b c d rest = rw (append_assoc, append_assoc, append_assoc) refl
