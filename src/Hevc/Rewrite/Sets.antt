-- ===== src/Hevc/Rewrite/Sets.antt =====
-- The elements of the reference picture sets that src/hevc.c writes into a slice header: their
-- values and their number.
use rockchip_vaapi.Base.{
  ℕ, suc, ◌+◌, ◌-◌, ◌*◌, ◌/◌, ◌%◌, ◌^◌, ◌≤◌, ◌<◌, ◌≡◌, refl, Option, none, some, List, [], ◌∷◌,
  ◌++◌, arith, ltb, leb, ◌&&◌, length, length-append, to_bit, ◌>>=◌, inl, inr, Bool-cases,
  Option-cases,
}
use mathlib.Core.Option.{some-injective}
use native.Mathlib.Nat.{pow-le-pow_right, div-le_of_le-mul, mod-lt}
use rockchip_vaapi.Base.Int.{ℤ, pos_part, neg_part}
use rockchip_vaapi.Bitstream.Elements.{Element, u, ue, AllFit, AllFit-append}
use rockchip_vaapi.Bitstream.Sized.{Within, few-Within}
use rockchip_vaapi.Hevc.Rps.{RpsEntry, Rps}
use rockchip_vaapi.Hevc.Rps.Collected.{NearBy, total}
use rockchip_vaapi.Hevc.Parameters.{HevcParameters}
use rockchip_vaapi.Hevc.Rewrite.{
  short_entries, write_short_term_rps, poc_bits, signed_of, msb_cycle, long_entries,
  write_long_term_rps,
}

-- The distances rise from one entry to the next.
abbrev pub Steep : ℕ → List RpsEntry → Type 0
Steep previous [] = Unit
Steep previous (e ∷ es) = (previous < e.delta) × Steep e.delta es

short_entries-fit :
    (previous : ℕ) (es : List RpsEntry)
    → Steep previous es
    → NearBy es
    → AllFit (short_entries previous es) × (length (short_entries previous es) ≡ 2 * length es)
unfolding short_entries
short_entries-fit previous [] steep near = (tt, omega arith)
short_entries-fit previous (e ∷ es) (lt, steep) ((low, high), near) =
    let (fit, count) = short_entries-fit e.delta es steep near in
    ((omega (arith, lt, high), ((ground arith, omega arith), fit)), omega (arith, count))

module _ (rps : Rps) (bounded : total rps ≤ 15) where
  -- At most 32 elements, with the flag in front.
  pub write_short_term_rps-Within :
      Steep 0 rps.negative
      → Steep 0 rps.positive
      → NearBy rps.negative
      → NearBy rps.positive
      → Within (u 0 1 ∷ write_short_term_rps rps 0) (61 * 33)
  unfolding write_short_term_rps
  write_short_term_rps-Within steep steep' near near' =
      let (fit, count) = short_entries-fit 0 rps.negative steep near in
      let (fit', count') = short_entries-fit 0 rps.positive steep' near' in
      let ns = short_entries 0 rps.negative in
      let ps = short_entries 0 rps.positive in
      few-Within (u 0 1 ∷ ue (length rps.negative) ∷ ue (length rps.positive) ∷ (ns ++ ps)) 33
        (
          omega arith,
          (omega (arith, bounded), (omega (arith, bounded), AllFit-append ns ps fit fit')),
        )
        (omega (arith, bounded, count, count', length-append ns ps))

-- The numbers of 32 bits, with a sign.
abbrev pub InRange : ℤ → Type 0
InRange current = (pos_part current < 2 ^ 31) × (neg_part current ≤ 2 ^ 31)

signed_of-neg : (poc : ℕ) → neg_part (signed_of poc) ≤ 2 ^ 31
signed_of-neg poc = elim (Bool-cases (ltb poc (2 ^ 31))) [
  | inl e ↦ rw e (omega arith)
  | inr e ↦ rw e (ground (arith, e))
]

module _ (pp : HevcParameters) (small : poc_bits pp ≤ 16)
    (range : InRange pp.curr_pic.pic_order_cnt) (poc_lsb : ℕ) where
  one_lsb : 2 ^ poc_bits pp ≤ 2 ^ 16
  one_lsb = pow-le-pow_right {n = 2} (omega arith) small

  large : 2 ^ 4 ≤ 2 ^ poc_bits pp
  large = let four : 4 ≤ poc_bits pp = omega arith in pow-le-pow_right {n = 2} (omega arith) four

  -- The difference of the cycles is below the codes that the reader misreads.
  msb_cycle-bound : (poc msb : ℕ) → msb_cycle pp poc_lsb poc ≡ some msb → msb < 2 ^ 30
  msb_cycle-bound poc msb e =
      let current = pp.curr_pic.pic_order_cnt in
      let high = poc % 2 ^ poc_bits pp + pos_part current + neg_part (signed_of poc) in
      let low = neg_part current + poc_lsb + pos_part (signed_of poc) in
      let m = 2 ^ poc_bits pp in
      let below : poc % m < m = mod-lt _ (omega (arith, large)) in
      let quotient : (high - low) / m ≤ 2 ^ 29 =
        div-le_of_le-mul m (omega (arith, below, one_lsb, large, range, signed_of-neg poc)) in
      ground (arith, e, quotient)

  fit_step :
      (previous msb : ℕ) (e : RpsEntry) (es : List RpsEntry) (r : Option (List Element))
      (elements : List Element)
      → msb < 2 ^ 30
      → ((rest : List Element) → r ≡ some rest → AllFit rest × (length rest ≡ 4 * length es))
      → (do
        rest ← r
        some (
            u (e.poc % 2 ^ poc_bits pp) (poc_bits pp)
            ∷ u (to_bit e.used) 1
            ∷ u 1 1
            ∷ ue (msb - previous)
            ∷ rest))
        ≡ some elements
      → AllFit elements × (length elements ≡ 4 * suc (length es))
  fit_step previous msb e es none elements lt rec made = absurd (cc made)
  fit_step previous msb e es (some rest) elements lt rec made =
      let (fit, count) = rec rest refl in
      let below : e.poc % 2 ^ poc_bits pp < 2 ^ poc_bits pp = mod-lt _ (omega (arith, large)) in
      rw (← some-injective _ elements made) (
        (
          (below, omega (arith, small)),
          ((ground arith, omega arith), ((omega arith, omega arith), (omega (arith, lt), fit))),
        ),
        omega (arith, count),
      )

  long_entries-fit :
      (previous : ℕ) (es : List RpsEntry) (elements : List Element)
      → long_entries pp poc_lsb previous es ≡ some elements
      → AllFit elements × (length elements ≡ 4 * length es)
  unfolding long_entries
  long_entries-fit previous [] elements made =
      rw (← some-injective _ elements made) (tt, omega arith)
  long_entries-fit previous (e ∷ es) elements made =
      elim (Option-cases (msb_cycle pp poc_lsb e.poc)) [
        | inl refused ↦ absurd (cc (rw refused at made))
        | inr (msb, ok) ↦ elim (Bool-cases (leb previous msb && ltb (msb - previous) (2 ^ 32))) [
          | inr wide ↦ absurd (ground (arith, rw ok at made, wide))
          | inl narrow ↦
              fit_step previous msb e es (long_entries pp poc_lsb msb es) elements
                (msb_cycle-bound e.poc msb ok) (λ rest ok. long_entries-fit msb es rest ok)
                (ground (arith, rw ok at made, narrow))
        ]
      ]

  -- The long-term entries that are written take few bits.
  pub write_long_term_rps-Within :
      (rps : Rps) (elements : List Element)
      → total rps ≤ 15
      → write_long_term_rps rps pp poc_lsb ≡ some elements
      → Within elements (61 * 61)
  unfolding write_long_term_rps long_entries
  write_long_term_rps-Within rps elements bounded made =
      elim (Bool-cases pp.long_term_ref_pics_present_flag) [
        | inr off ↦
            let e = rw off at made in
            rw (← some-injective [] elements e) (few-Within [] 61 tt (omega arith))
        | inl on ↦ elim (Option-cases (long_entries pp poc_lsb 0 rps.long_term)) [
          | inl refused ↦ absurd (cc (rw (on, refused) at made))
          | inr (es, ok) ↦
              let (fit, count) = long_entries-fit 0 rps.long_term es ok in
              let e = rw (on, ok) at made in
              rw (← some-injective _ elements e) (
                few-Within (ue (length rps.long_term) ∷ es) 61 (omega (arith, bounded), fit)
                  (omega (arith, bounded, count)))
        ]
      ]
