-- ===== src/H264/Level.antt =====
-- `h264_derive_level_idc` of src/h264.c against the limits of Annex A.
use rockchip_vaapi.Base.{
  ℕ, suc, ◌+◌, ◌*◌, ◌%◌, ◌^◌, ◌≤◌, ◌<◌, ◌≡◌, ◌⊎◌, inl, inr, refl, sym, subst, Bool, true, false,
  not, ◌&&◌, ◌||◌, List, [], ◌∷◌, arith, ltb, ◌==◌, Bool-cases, All,
}
use native.Mathlib.Nat.{mul-le-mul, mod-eq_of_lt, le_trans}
use rockchip_vaapi.H264.{
  PictureParameters, LevelLimit, h264_level_limits, exceeds, level_loop, h264_derive_level_idc,
}

abbrev pub width_mbs : PictureParameters → ℕ
width_mbs pp = pp.picture_width_in_mbs_minus1 + 1

abbrev pub height_mbs : PictureParameters → ℕ
height_mbs pp = pp.picture_height_in_mbs_minus1 + 1

-- The constraints of Annex A on a picture, in unbounded arithmetic.
pub record Satisfies (pp : PictureParameters) (l : LevelLimit) : Type 0 where
  pub frame : width_mbs pp * height_mbs pp ≤ l.max_fs
  pub wide : width_mbs pp * width_mbs pp ≤ 8 * l.max_fs
  pub high : height_mbs pp * height_mbs pp ≤ 8 * l.max_fs
  pub stored : width_mbs pp * height_mbs pp * pp.num_ref_frames ≤ l.max_dpb_mbs
  pub bi_pred : (pp.min_luma_bi_pred_size8x8 ≡ 0) ⊎ (31 ≤ l.level_idc)

module _ (pp : PictureParameters) (w : width_mbs pp ≤ 2 ^ 16) (h : height_mbs pp ≤ 2 ^ 16)
    (r : pp.num_ref_frames < 2 ^ 8) where
  area : width_mbs pp * height_mbs pp ≤ 2 ^ 16 * 2 ^ 16
  area = mul-le-mul w h

  stored_fits : width_mbs pp * height_mbs pp * pp.num_ref_frames ≤ 2 ^ 16 * 2 ^ 16 * 2 ^ 8
  stored_fits = mul-le-mul {m₂ = 2 ^ 8} area (omega arith)

  -- No product of the loop wraps.
  plain :
      (width_mbs pp * height_mbs pp % 2 ^ 64 ≡ width_mbs pp * height_mbs pp)
      × (width_mbs pp * width_mbs pp % 2 ^ 64 ≡ width_mbs pp * width_mbs pp)
      × (height_mbs pp * height_mbs pp % 2 ^ 64 ≡ height_mbs pp * height_mbs pp)
      × (width_mbs pp * height_mbs pp * pp.num_ref_frames % 2 ^ 64
          ≡ width_mbs pp * height_mbs pp * pp.num_ref_frames)
  plain = (
    mod-eq_of_lt (le_trans (le_suc area) (omega arith)),
    mod-eq_of_lt (le_trans (le_suc (mul-le-mul w w)) (omega arith)),
    mod-eq_of_lt (le_trans (le_suc (mul-le-mul h h)) (omega arith)),
    mod-eq_of_lt (le_trans (le_suc stored_fits) (omega arith)),
  )
    where
      le_suc : {a b : ℕ} → a ≤ b → suc a ≤ suc b
      le_suc p = omega arith

  exceeds_lem :
      (l : LevelLimit)
      → exceeds pp l ≡ (
          not (pp.min_luma_bi_pred_size8x8 == 0) && ltb l.level_idc 31
          || (ltb l.max_fs (width_mbs pp * height_mbs pp)
              || ltb (8 * l.max_fs) (width_mbs pp * width_mbs pp)
              || ltb (8 * l.max_fs) (height_mbs pp * height_mbs pp)
              || ltb l.max_dpb_mbs (width_mbs pp * height_mbs pp * pp.num_ref_frames)))
  unfolding exceeds
  exceeds_lem l = rw (plain.0, plain.1, plain.2, plain.3)

  exceeds_cases :
      (l : LevelLimit)
      → ((exceeds pp l ≡ false) × Satisfies pp l) ⊎ ((exceeds pp l ≡ true) × (¬ Satisfies pp l))
  exceeds_cases l = elim (Bool-cases (exceeds pp l)) [
    | inl over ↦ inr (over, λ s. refuted s (exceeds_lem l) over)
    | inr within ↦ inl (within, met (exceeds_lem l) within)
  ]
    where
      test : (a b c d : ℕ) → Bool
      test a b c d =
          not (pp.min_luma_bi_pred_size8x8 == 0) && ltb l.level_idc 31
          || (ltb l.max_fs a || ltb (8 * l.max_fs) b || ltb (8 * l.max_fs) c || ltb l.max_dpb_mbs d)

      met :
          exceeds pp l
            ≡ test
                (width_mbs pp * height_mbs pp)
                (width_mbs pp * width_mbs pp)
                (height_mbs pp * height_mbs pp)
                (width_mbs pp * height_mbs pp * pp.num_ref_frames)
          → exceeds pp l ≡ false
          → Satisfies pp l
      met e f = record {
        frame = ground arith;
        wide = ground arith;
        high = ground arith;
        stored = ground arith;
        bi_pred = ground arith;
      }

      refuted :
          Satisfies pp l
          → exceeds pp l
            ≡ test
                (width_mbs pp * height_mbs pp)
                (width_mbs pp * width_mbs pp)
                (height_mbs pp * height_mbs pp)
                (width_mbs pp * height_mbs pp * pp.num_ref_frames)
          → exceeds pp l ≡ true
          → ⊥
      refuted s e f = ground (arith, s.frame, s.wide, s.high, s.stored, s.bi_pred)

-- No entry below `n` satisfies the constraints.
abbrev pub NoneBelow : PictureParameters → ℕ → List LevelLimit → Type 0
NoneBelow pp n = All (λ l. (¬ Satisfies pp l) ⊎ (n ≤ l.level_idc))

-- `n` is the level of an entry that satisfies the constraints, or 62.
abbrev pub IsAttained : PictureParameters → ℕ → List LevelLimit → Type 0
IsAttained pp n [] = n ≡ 62
IsAttained pp n (l ∷ rest) = (Satisfies pp l × (n ≡ l.level_idc)) ⊎ IsAttained pp n rest

abbrev AtLeast : ℕ → List LevelLimit → Type 0
AtLeast n = All (λ l. n ≤ l.level_idc)

abbrev Ascending : List LevelLimit → Type 0
Ascending [] = Unit
Ascending (l ∷ rest) = AtLeast l.level_idc rest × Ascending rest

AtLeast-NoneBelow :
    (pp : PictureParameters) (n : ℕ) (ls : List LevelLimit) → AtLeast n ls → NoneBelow pp n ls
AtLeast-NoneBelow pp n [] a = tt
AtLeast-NoneBelow pp n (l ∷ rest) (le, a) = (inr le, AtLeast-NoneBelow pp n rest a)

module _ (pp : PictureParameters) (w : width_mbs pp ≤ 2 ^ 16) (h : height_mbs pp ≤ 2 ^ 16)
    (r : pp.num_ref_frames < 2 ^ 8) where
  level_loop_within :
      (l : LevelLimit) (rest : List LevelLimit)
      → exceeds pp l ≡ false
      → level_loop pp (l ∷ rest) ≡ l.level_idc
  unfolding level_loop
  level_loop_within l rest e = rw e

  level_loop_over :
      (l : LevelLimit) (rest : List LevelLimit)
      → exceeds pp l ≡ true
      → level_loop pp (l ∷ rest) ≡ level_loop pp rest
  unfolding level_loop
  level_loop_over l rest e = rw e

  level_loop_lem :
      (ls : List LevelLimit)
      → Ascending ls
      → NoneBelow pp (level_loop pp ls) ls × IsAttained pp (level_loop pp ls) ls
  level_loop_lem [] a = unfold level_loop in (tt, refl)
  level_loop_lem (l ∷ rest) (above, a) =
      let good = λ (n : ℕ). NoneBelow pp n (l ∷ rest) × IsAttained pp n (l ∷ rest) in
      elim (exceeds_cases pp w h r l) [
        | inl (e, s) ↦
            subst good (sym (level_loop_within l rest e))
              ((inr (omega arith), AtLeast-NoneBelow pp l.level_idc rest above), inl (s, refl))
        | inr (e, no_fit) ↦
            let (none_below, attained) = level_loop_lem rest a in
            subst good (sym (level_loop_over l rest e)) ((inl no_fit, none_below), inr attained)
      ]

  -- For a picture of at most 2 ^ 16 by 2 ^ 16 macroblocks and at most 255 reference frames, the
  -- derived level is the lowest of the table whose frame, side and buffer limits the picture meets,
  -- from level 31 on where 8x8 bi-prediction asks for it, and 62 if there is none.
  pub h264_derive_level_idc_lem :
      NoneBelow pp (h264_derive_level_idc pp) h264_level_limits
      × IsAttained pp (h264_derive_level_idc pp) h264_level_limits
  unfolding h264_derive_level_idc
  h264_derive_level_idc_lem = level_loop_lem h264_level_limits (omega arith)

level_loop-le :
    (pp : PictureParameters) (ls : List LevelLimit)
    → All (λ l. l.level_idc ≤ 62) ls
    → level_loop pp ls ≤ 62
unfolding level_loop
level_loop-le pp [] a = omega arith
level_loop-le pp (l ∷ rest) (le, a) = ground (arith, level_loop-le pp rest a)

pub h264_derive_level_idc-le : (pp : PictureParameters) → h264_derive_level_idc pp ≤ 62
unfolding h264_derive_level_idc
h264_derive_level_idc-le pp = level_loop-le pp h264_level_limits (omega arith)
