-- ===== src/Hevc/Rps/Sorted.antt =====
-- `sort_entries` of src/hevc.c: order and permutations of entries.
use rockchip_vaapi.Base.{
  ℕ, ◌+◌, ◌≤◌, ◌≡◌, List, [], ◌∷◌, ◌++◌, arith, ltb, Bool-cases, inl, inr, All, length,
}
use mathlib.Core.List.{Perm, perm_middle}
use mathlib.Core.List.Perm
use rockchip_vaapi.Hevc.Rps.{RpsEntry, shift_insert, reverse_onto, sort_loop, sort_entries}

-- Every entry is at least, or at most, so far away.
abbrev pub AtLeast : ℕ → List RpsEntry → Type 0
AtLeast d = All (λ e. d ≤ e.delta)

abbrev pub AtMost : ℕ → List RpsEntry → Type 0
AtMost d = All (λ e. e.delta ≤ d)

abbrev pub Ascending : List RpsEntry → Type 0
Ascending [] = Unit
Ascending (e ∷ rest) = AtLeast e.delta rest × Ascending rest

abbrev Descending : List RpsEntry → Type 0
Descending [] = Unit
Descending (e ∷ rest) = AtMost e.delta rest × Descending rest

AtMost-le : (c d : ℕ) (es : List RpsEntry) → c ≤ d → AtMost c es → AtMost d es
AtMost-le c d [] le a = tt
AtMost-le c d (e ∷ es) le (h, a) = (omega (arith, h, le), AtMost-le c d es le a)

AtMost-shift_insert :
    (d : ℕ) (value : RpsEntry) (sorted : List RpsEntry)
    → value.delta ≤ d
    → AtMost d sorted
    → AtMost d (shift_insert value sorted)
unfolding shift_insert
AtMost-shift_insert d value [] le a = (le, tt)
AtMost-shift_insert d value (last ∷ before) le (h, a) =
    let rest = AtMost-shift_insert d value before le a in
    elim (Bool-cases (ltb value.delta last.delta)) [
      | inl e ↦ rw e (h, rest)
      | inr e ↦ rw e (le, (h, a))
    ]

shift_insert-Descending :
    (value : RpsEntry) (sorted : List RpsEntry)
    → Descending sorted
    → Descending (shift_insert value sorted)
unfolding shift_insert
shift_insert-Descending value [] d = (tt, tt)
shift_insert-Descending value (last ∷ before) (a, d) =
    let rest = shift_insert-Descending value before d in
    elim (Bool-cases (ltb value.delta last.delta)) [
      | inl e ↦ rw e (AtMost-shift_insert last.delta value before (ground (arith, e)) a, rest)
      | inr e ↦
          let le : last.delta ≤ value.delta = ground (arith, e) in
          rw e ((le, AtMost-le last.delta value.delta before le a), (a, d))
    ]

-- Every entry in front is at most as far away as every entry behind.
abbrev Joined : List RpsEntry → List RpsEntry → Type 0
Joined before behind = All (λ e. AtLeast e.delta behind) before

Joined-cons :
    (e : RpsEntry) (before behind : List RpsEntry)
    → AtMost e.delta before
    → Joined before behind
    → Joined before (e ∷ behind)
Joined-cons e [] behind a j = tt
Joined-cons e (b ∷ before) behind (h, a) (k, j) = ((h, k), Joined-cons e before behind a j)

reverse_onto-Ascending :
    (before behind : List RpsEntry)
    → Descending before
    → Ascending behind
    → Joined before behind
    → Ascending (reverse_onto before behind)
reverse_onto-Ascending [] behind d a j = a
reverse_onto-Ascending (e ∷ before) behind (m, d) a (h, j) =
    reverse_onto-Ascending before (e ∷ behind) d (h, a) (Joined-cons e before behind m j)

Joined-nil : (before : List RpsEntry) → Joined before []
Joined-nil [] = tt
Joined-nil (e ∷ before) = (tt, Joined-nil before)

sort_loop-Ascending :
    (sorted rest : List RpsEntry) → Descending sorted → Ascending (sort_loop sorted rest)
unfolding sort_loop
sort_loop-Ascending sorted [] d = reverse_onto-Ascending sorted [] d tt (Joined-nil sorted)
sort_loop-Ascending sorted (value ∷ rest) d =
    sort_loop-Ascending (shift_insert value sorted) rest (shift_insert-Descending value sorted d)

shift_insert-Perm :
    (value : RpsEntry) (sorted : List RpsEntry) → Perm (shift_insert value sorted) (value ∷ sorted)
unfolding shift_insert
shift_insert-Perm value [] = Perm.rfl
shift_insert-Perm value (last ∷ before) =
    let rest = shift_insert-Perm value before in
    elim (Bool-cases (ltb value.delta last.delta)) [
      | inl e ↦ rw e (Perm.trans (Perm.cons last rest) (Perm.swap value last before))
      | inr e ↦ rw e Perm.rfl
    ]

reverse_onto-Perm :
    (before behind : List RpsEntry) → Perm (reverse_onto before behind) (before ++ behind)
reverse_onto-Perm [] behind = Perm.rfl
reverse_onto-Perm (e ∷ before) behind =
    Perm.trans (reverse_onto-Perm before (e ∷ behind)) (perm_middle before behind)

sort_loop-Perm : (sorted rest : List RpsEntry) → Perm (sort_loop sorted rest) (sorted ++ rest)
unfolding sort_loop
sort_loop-Perm sorted [] = reverse_onto-Perm sorted []
sort_loop-Perm sorted (value ∷ rest) =
    Perm.trans (sort_loop-Perm (shift_insert value sorted) rest) (
      Perm.trans (Perm.append_right rest (shift_insert-Perm value sorted))
        (Perm.symm (perm_middle sorted rest)))

-- The entries of a list by insertion and reversal, for a property of each.
shift_insert-All :
    (P : RpsEntry → Type 0) (value : RpsEntry) (sorted : List RpsEntry)
    → P value
    → All P sorted
    → All P (shift_insert value sorted)
unfolding shift_insert
shift_insert-All P value [] v a = (v, tt)
shift_insert-All P value (last ∷ before) v (h, a) =
    let rest = shift_insert-All P value before v a in
    elim (Bool-cases (ltb value.delta last.delta)) [
      | inl e ↦ rw e (h, rest)
      | inr e ↦ rw e (v, (h, a))
    ]

reverse_onto-All :
    (P : RpsEntry → Type 0) (before behind : List RpsEntry)
    → All P before
    → All P behind
    → All P (reverse_onto before behind)
reverse_onto-All P [] behind a b = b
reverse_onto-All P (e ∷ before) behind (h, a) b = reverse_onto-All P before (e ∷ behind) a (h, b)

sort_loop-All :
    (P : RpsEntry → Type 0) (sorted rest : List RpsEntry)
    → All P sorted
    → All P rest
    → All P (sort_loop sorted rest)
unfolding sort_loop
sort_loop-All P sorted [] a b = reverse_onto-All P sorted [] a tt
sort_loop-All P sorted (value ∷ rest) a (h, b) =
    sort_loop-All P (shift_insert value sorted) rest (shift_insert-All P value sorted h a) b

pub sort_entries-All :
    (P : RpsEntry → Type 0) (values : List RpsEntry) → All P values → All P (sort_entries values)
unfolding sort_entries
sort_entries-All P values a = sort_loop-All P [] values tt a

length-shift_insert :
    (value : RpsEntry) (sorted : List RpsEntry)
    → length (shift_insert value sorted) ≡ length sorted + 1
unfolding shift_insert
length-shift_insert value [] = omega arith
length-shift_insert value (last ∷ before) = ground (arith, length-shift_insert value before)

length-reverse_onto :
    (before behind : List RpsEntry)
    → length (reverse_onto before behind) ≡ length before + length behind
length-reverse_onto [] behind = omega arith
length-reverse_onto (e ∷ before) behind = omega (arith, length-reverse_onto before (e ∷ behind))

length-sort_loop :
    (sorted rest : List RpsEntry) → length (sort_loop sorted rest) ≡ length sorted + length rest
unfolding sort_loop
length-sort_loop sorted [] = length-reverse_onto sorted []
length-sort_loop sorted (value ∷ rest) =
    omega
      (arith, length-sort_loop (shift_insert value sorted) rest, length-shift_insert value sorted)

pub length-sort_entries : (values : List RpsEntry) → length (sort_entries values) ≡ length values
unfolding sort_entries
length-sort_entries values = omega (arith, length-sort_loop [] values)

-- The sorted entries ascend by distance and are the given ones in some order.
pub sort_entries_lem :
    (values : List RpsEntry) → Ascending (sort_entries values) × Perm (sort_entries values) values
unfolding sort_entries
sort_entries_lem values = (sort_loop-Ascending [] values tt, sort_loop-Perm [] values)
