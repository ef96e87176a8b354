-- ===== src/Hevc/Rps/Collected.antt =====
-- `collect_rps` of src/hevc.c against lists made from the references by kind.
use rockchip_vaapi.Base.{
  ℕ, zero, suc, ◌+◌, ◌^◌, ◌≤◌, ◌<◌, ◌≡◌, refl, sym, ap, ◌∙◌, subst, Bool, true, false, not, ◌||◌,
  Option, none, some, List, [], ◌∷◌, ◌++◌, arith, ltb, leb, ◌==◌, if◌then◌else◌, Bool-cases,
  Option-cases, inl, inr, All, length, length-append, take, append-nil, append_assoc,
}
use mathlib.Core.List.{Perm}
use rockchip_vaapi.Base.Int.{ℤ, pos, negsuc}
use rockchip_vaapi.Hevc.Rps.{
  Picture, RpsEntry, Rps, valid_picture, poc_delta, flag_count, only_lt_curr, is_long_term, entry,
  add_short_term, add_reference, collect_loop, no_references, collect_rps,
}
use rockchip_vaapi.Hevc.Rps.Sorted.{
  Ascending, sort_entries_lem, sort_entries-All, length-sort_entries,
}

-- The lists, in the order of the references: those before the current picture, those behind it, and
-- the long-term ones.
pub data Kind : Type 0 where
  before : Kind
  after : Kind
  lasting : Kind

abbrev pub short_term_entries : Kind → ℤ → Picture → List RpsEntry
short_term_entries before (negsuc n) ref = entry (suc n) ref (not (flag_count ref == 0)) ∷ []
short_term_entries after (pos (suc n)) ref = entry (suc n) ref (not (flag_count ref == 0)) ∷ []
short_term_entries _ _ ref = []

abbrev pub long_term_entries : Kind → Picture → List RpsEntry
long_term_entries lasting ref = entry 0 ref (only_lt_curr ref) ∷ []
long_term_entries _ ref = []

abbrev pub entries_of : Kind → ℤ → Picture → List RpsEntry
entries_of kind current ref =
    if is_long_term ref
    then long_term_entries kind ref
    else short_term_entries kind (poc_delta ref.pic_order_cnt current) ref

abbrev pub references : Kind → ℕ → ℤ → List Picture → List RpsEntry
references kind invalid_surface current [] = []
references kind invalid_surface current (ref ∷ refs) =
    if valid_picture invalid_surface ref
    then entries_of kind current ref ++ references kind invalid_surface current refs
    else references kind invalid_surface current refs

-- The distances of short-term entries are positive and of 16 bits.
abbrev pub NearBy : List RpsEntry → Type 0
NearBy = All (λ e. (0 < e.delta) × (e.delta < 2 ^ 16))

abbrev pub total : Rps → ℕ
total rps = length rps.negative + length rps.positive + length rps.long_term

-- The lists have grown by the given entries, and hold no more than 15 in all.
pub record IsGrown (rps grown : Rps) (n p l : List RpsEntry) : Type 0 where
  pub negatives : grown.negative ≡ rps.negative ++ n
  pub positives : grown.positive ≡ rps.positive ++ p
  pub lastings : grown.long_term ≡ rps.long_term ++ l
  pub near_negatives : NearBy n
  pub near_positives : NearBy p
  pub bounded : total grown ≤ 15

guarded_some :
    (c : Bool) (x y : Rps) → (if c then none else some x) ≡ some y → (c ≡ false) × (x ≡ y)
guarded_some true x y e = absurd (cc e)
guarded_some false x y e = (refl, ap (λ (o : Option Rps). elim o [ none ↦ x | some z ↦ z ]) e)

add_short_term-IsGrown :
    (d : ℤ) (ref : Picture) (rps grown : Rps)
    → total rps < 15
    → add_short_term d ref rps ≡ some grown
    → IsGrown rps grown (short_term_entries before d ref) (short_term_entries after d ref) []
add_short_term-IsGrown (pos zero) ref rps grown room e = absurd (cc e)
add_short_term-IsGrown (pos (suc n)) ref rps grown room e =
    let (near, made) = guarded_some _ _ grown e in
    let new = short_term_entries after (pos (suc n)) ref in
    subst (λ g. IsGrown rps g [] new []) made
      (record {
        negatives = sym (append-nil _);
        positives = refl;
        lastings = sym (append-nil _);
        near_negatives = tt;
        near_positives = ((omega arith, ground (arith, near)), tt);
        bounded = omega (arith, room, length-append rps.positive new);
      })
add_short_term-IsGrown (negsuc n) ref rps grown room e =
    let (near, made) = guarded_some _ _ grown e in
    let new = short_term_entries before (negsuc n) ref in
    subst (λ g. IsGrown rps g new [] []) made
      (record {
        negatives = refl;
        positives = sym (append-nil _);
        lastings = sym (append-nil _);
        near_negatives = ((omega arith, ground (arith, near)), tt);
        near_positives = tt;
        bounded = omega (arith, room, length-append rps.negative new);
      })

-- A reference that is added goes to the end of its list.
pub add_reference-IsGrown :
    (current : ℤ) (ref : Picture) (rps grown : Rps)
    → add_reference current ref rps ≡ some grown
    → IsGrown rps grown
        (entries_of before current ref)
        (entries_of after current ref)
        (entries_of lasting current ref)
add_reference-IsGrown current ref rps grown e =
    elim (Bool-cases (ltb 1 (flag_count ref) || leb 15 (total rps))) [
      | inl full ↦ absurd (cc (rw full at e))
      | inr space ↦
          let room : total rps < 15 = ground (arith, space) in
          elim (Bool-cases (is_long_term ref)) [
            | inl long ↦
                let added = guarded_some false _ grown (rw (space, long) at e) in
                rw long (
                  subst (λ g. IsGrown rps g [] [] (long_term_entries lasting ref)) added.1
                    (record {
                      negatives = sym (append-nil _);
                      positives = sym (append-nil _);
                      lastings = refl;
                      near_negatives = tt;
                      near_positives = tt;
                      bounded = omega (
                        arith,
                        room,
                        length-append rps.long_term (long_term_entries lasting ref),
                      );
                    }))
            | inr short ↦
                let d = poc_delta ref.pic_order_cnt current in
                rw (short, short_nothing d)
                  (add_short_term-IsGrown d ref rps grown room (rw (space, short) at e))
          ]
    ]
  where
    short_nothing : (d : ℤ) → short_term_entries lasting d ref ≡ []
    short_nothing (pos zero) = refl
    short_nothing (pos (suc n)) = refl
    short_nothing (negsuc n) = refl

NearBy-append : (es fs : List RpsEntry) → NearBy es → NearBy fs → NearBy (es ++ fs)
NearBy-append [] fs a b = b
NearBy-append (e ∷ es) fs (h, a) b = (h, NearBy-append es fs a b)

regrown : (a b c n n' : List RpsEntry) → b ≡ a ++ n → c ≡ b ++ n' → c ≡ a ++ (n ++ n')
regrown a b c n n' e e' = e' ∙ ap (λ (t : List RpsEntry). t ++ n') e ∙ append_assoc a n n'

IsGrown-trans :
    {a b c : Rps} {n p l n' p' l' : List RpsEntry}
    → IsGrown a b n p l
    → IsGrown b c n' p' l'
    → IsGrown a c (n ++ n') (p ++ p') (l ++ l')
IsGrown-trans {a} {b} {c} {n} {p} {l} {n'} {p'} {l'} f g = record {
  negatives = regrown a.negative b.negative c.negative n n' f.negatives g.negatives;
  positives = regrown a.positive b.positive c.positive p p' f.positives g.positives;
  lastings = regrown a.long_term b.long_term c.long_term l l' f.lastings g.lastings;
  near_negatives = NearBy-append n n' f.near_negatives g.near_negatives;
  near_positives = NearBy-append p p' f.near_positives g.near_positives;
  bounded = g.bounded;
}

-- The loop adds every valid reference to the list of its kind.
collect_loop-IsGrown :
    (invalid_surface : ℕ) (current : ℤ) (refs : List Picture) (rps grown : Rps)
    → total rps ≤ 15
    → collect_loop invalid_surface current refs rps ≡ some grown
    → IsGrown rps grown
        (references before invalid_surface current refs)
        (references after invalid_surface current refs)
        (references lasting invalid_surface current refs)
unfolding collect_loop
collect_loop-IsGrown invalid_surface current [] rps grown le e =
    let (_, same) = guarded_some false rps grown e in
    subst (λ g. IsGrown rps g [] [] []) same
      (record {
        negatives = sym (append-nil _);
        positives = sym (append-nil _);
        lastings = sym (append-nil _);
        near_negatives = tt;
        near_positives = tt;
        bounded = le;
      })
collect_loop-IsGrown invalid_surface current (ref ∷ refs) rps grown le e =
    elim (Bool-cases (valid_picture invalid_surface ref)) [
      | inr skipped ↦ rw skipped (
          collect_loop-IsGrown invalid_surface current refs rps grown le
            (rw (skipped, collect_loop) at e))
      | inl valid ↦ elim (Option-cases (add_reference current ref rps)) [
        | inl refused ↦ absurd (cc (rw (valid, refused, collect_loop) at e))
        | inr (next, added) ↦
            let step = add_reference-IsGrown current ref rps next added in
            rw valid (
              IsGrown-trans step (
                collect_loop-IsGrown invalid_surface current refs next grown step.bounded
                  (rw (valid, added, collect_loop) at e)))
      ]
    ]

-- What a collected set says of the references it was made from.
pub record IsCollected (invalid_surface : ℕ) (current : ℤ) (refs : List Picture) (rps : Rps)
    : Type 0 where
  pub negatives : Perm rps.negative (references before invalid_surface current refs)
  pub positives : Perm rps.positive (references after invalid_surface current refs)
  pub lastings : rps.long_term ≡ references lasting invalid_surface current refs
  pub negatives_ascend : Ascending rps.negative
  pub positives_ascend : Ascending rps.positive
  pub near_negatives : NearBy rps.negative
  pub near_positives : NearBy rps.positive
  pub bounded : total rps ≤ 15

-- Where `collect_rps` succeeds, each valid reference of the first 15 stands in exactly the list of
-- its kind: short-term ones before or behind the current picture, in ascending order of distance,
-- with distances from 1 to 65,535, and long-term ones in the given order; there are at most 15.
pub collect_rps_lem :
    (invalid_surface : ℕ) (current : ℤ) (refs : List Picture) (rps : Rps)
    → collect_rps invalid_surface current refs ≡ some rps
    → IsCollected invalid_surface current (take 15 refs) rps
unfolding collect_rps
collect_rps_lem invalid_surface current refs rps e =
    elim (Option-cases (collect_loop invalid_surface current (take 15 refs) no_references)) [
      | inl refused ↦ absurd (cc (rw refused at e))
      | inr (found, ok) ↦
          let g =
            collect_loop-IsGrown invalid_surface current (take 15 refs) no_references found
              (omega arith) ok in
          let sorted = guarded_some false _ rps (rw ok at e) in
          let n = sort_entries_lem found.negative in
          let p = sort_entries_lem found.positive in
          subst (λ r. IsCollected invalid_surface current (take 15 refs) r) sorted.1
            (record {
              negatives = rw (← g.negatives) n.1;
              positives = rw (← g.positives) p.1;
              lastings = g.lastings;
              negatives_ascend = n.0;
              positives_ascend = p.0;
              near_negatives =
                  sort_entries-All (λ e. (0 < e.delta) × (e.delta < 2 ^ 16)) found.negative
                    (rw (← g.negatives) at g.near_negatives);
              near_positives =
                  sort_entries-All (λ e. (0 < e.delta) × (e.delta < 2 ^ 16)) found.positive
                    (rw (← g.positives) at g.near_positives);
              bounded = omega (
                arith,
                g.bounded,
                length-sort_entries found.negative,
                length-sort_entries found.positive,
              );
            })
    ]
