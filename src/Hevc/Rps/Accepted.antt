-- ===== src/Hevc/Rps/Accepted.antt =====
-- When `collect_rps` of src/hevc.c accepts a list of references.
use rockchip_vaapi.Base.{
  ℕ, zero, suc, ◌+◌, ◌-◌, ◌^◌, ◌≤◌, ◌<◌, ◌≡◌, refl, ap, Bool, true, false, ◌||◌, none, some, List,
  [], ◌∷◌, ◌++◌, arith, ltb, leb, if◌then◌else◌, Bool-cases, inl, inr, ◌⊎◌, All, length,
  length-append, length-take, take,
}
use rockchip_vaapi.Base.Int.{ℤ, pos, negsuc, pos_part, neg_part}
use rockchip_vaapi.Hevc.Rps.{
  Picture, Rps, valid_picture, sort_entries, poc_delta, flag_count, is_long_term, entry,
  only_lt_curr, add_short_term, add_reference, collect_loop, no_references, collect_rps,
}
use rockchip_vaapi.Hevc.Rps.Collected.{
  before, after, lasting, entries_of, short_term_entries, total, add_reference-IsGrown,
}

-- At most one of the three flags; a short-term reference is another picture, less than 2 ^ 16 away.
pub record IsUsable (current : ℤ) (ref : Picture) : Type 0 where
  pub one_flag : flag_count ref ≤ 1
  pub near :
      (is_long_term ref ≡ true)
      ⊎ ((0
            < pos_part (poc_delta ref.pic_order_cnt current)
              + neg_part (poc_delta ref.pic_order_cnt current))
          × (pos_part (poc_delta ref.pic_order_cnt current)
                + neg_part (poc_delta ref.pic_order_cnt current)
              < 2 ^ 16))

abbrev pub AllUsable : ℕ → ℤ → List Picture → Type 0
AllUsable invalid_surface current =
    All (λ ref. (valid_picture invalid_surface ref ≡ false) ⊎ IsUsable current ref)

passes_guard :
    (c : Bool) (x : Rps) → c ≡ false → (g : Rps) × ((if c then none else some x) ≡ some g)
passes_guard true x e = absurd (cc e)
passes_guard false x e = (x, refl)

short_term_added :
    (d : ℤ) (ref : Picture) (rps : Rps)
    → 0 < pos_part d + neg_part d
    → pos_part d + neg_part d < 2 ^ 16
    → (grown : Rps) × (add_short_term d ref rps ≡ some grown)
short_term_added (pos zero) ref rps lo hi = absurd (omega arith)
short_term_added (pos (suc n)) ref rps lo hi =
    passes_guard (ltb (2 ^ 16 - 1) (suc n)) _ (ground arith)
short_term_added (negsuc n) ref rps lo hi = passes_guard (ltb (2 ^ 16 - 1) (suc n)) _ (ground arith)

reference_added :
    (current : ℤ) (ref : Picture) (rps : Rps)
    → total rps < 15
    → IsUsable current ref
    → (grown : Rps) × (add_reference current ref rps ≡ some grown)
reference_added current ref rps room u =
    let space : (ltb 1 (flag_count ref) || leb 15 (total rps)) ≡ false =
      ground (arith, u.one_flag) in
    elim (Bool-cases (is_long_term ref)) [
      | inl long ↦ (
        record rps { long_term = rps.long_term ++ entry 0 ref (only_lt_curr ref) ∷ [] },
        rw (space, long) refl,
      )
      | inr short ↦ elim u.near [
        | inl long ↦ absurd (cc (long, short))
        | inr (lo, hi) ↦
            let (grown, e) = short_term_added (poc_delta ref.pic_order_cnt current) ref rps lo hi in
            (grown, rw (space, short) e)
      ]
    ]

-- A reference makes one entry at most.
one_entry :
    (current : ℤ) (ref : Picture)
    → length (entries_of before current ref)
        + length (entries_of after current ref)
        + length (entries_of lasting current ref)
      ≤ 1
one_entry current ref = elim (Bool-cases (is_long_term ref)) [
  | inl long ↦ rw long (omega arith)
  | inr short ↦ rw short (by_sign (poc_delta ref.pic_order_cnt current))
]
  where
    by_sign :
        (d : ℤ)
        → length (short_term_entries before d ref)
            + length (short_term_entries after d ref)
            + length (short_term_entries lasting d ref)
          ≤ 1
    by_sign (pos zero) = omega arith
    by_sign (pos (suc n)) = omega arith
    by_sign (negsuc n) = omega arith

loop_ends :
    (invalid_surface : ℕ) (current : ℤ) (refs : List Picture) (rps : Rps)
    → total rps + length refs ≤ 15
    → AllUsable invalid_surface current refs
    → (grown : Rps) × (collect_loop invalid_surface current refs rps ≡ some grown)
unfolding collect_loop
loop_ends invalid_surface current [] rps room u = (rps, refl)
loop_ends invalid_surface current (ref ∷ refs) rps room (u, us) =
    elim (Bool-cases (valid_picture invalid_surface ref)) [
      | inr skipped ↦
          let (grown, e) = loop_ends invalid_surface current refs rps (omega arith) us in
          (grown, rw (skipped, collect_loop) e)
      | inl valid ↦ elim u [
        | inl skipped ↦ absurd (cc (valid, skipped))
        | inr usable ↦
            let (next, added) = reference_added current ref rps (omega arith) usable in
            let g = add_reference-IsGrown current ref rps next added in
            let more : total next ≤ total rps + 1 = omega (
              arith,
              one_entry current ref,
              ap length g.negatives,
              ap length g.positives,
              ap length g.lastings,
              length-append rps.negative (entries_of before current ref),
              length-append rps.positive (entries_of after current ref),
              length-append rps.long_term (entries_of lasting current ref),
            ) in
            let (grown, e) = loop_ends invalid_surface current refs next (omega (arith, more)) us in
            (grown, rw (valid, added, collect_loop) e)
      ]
    ]

-- `collect_rps` succeeds where each of the first 15 references is not valid, or has at most one of
-- the three flags and is long-term or another picture less than 2 ^ 16 away: 15 entries are enough.
pub collect_rps-accepts :
    (invalid_surface : ℕ) (current : ℤ) (refs : List Picture)
    → AllUsable invalid_surface current (take 15 refs)
    → (rps : Rps) × (collect_rps invalid_surface current refs ≡ some rps)
unfolding collect_rps
collect_rps-accepts invalid_surface current refs u =
    let (grown, e) =
      loop_ends invalid_surface current (take 15 refs) no_references
        (omega (arith, length-take 15 refs)) u in
    (
      record grown {
        negative = sort_entries grown.negative;
        positive = sort_entries grown.positive;
      },
      rw e refl,
    )
