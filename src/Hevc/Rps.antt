-- ===== src/Hevc/Rps.antt =====
-- src/hevc.c: the reference picture sets (`collect_rps`). The flags of a picture are single bits and
-- stand as Booleans; the value of VA_INVALID_SURFACE is an argument. An array with its count is a
-- list of the entries in use.
pub mod Sorted
pub mod Collected
pub mod Accepted
mod Examples
use rockchip_vaapi.Base.{
  ℕ, zero, suc, ◌+◌, ◌-◌, ◌%◌, ◌^◌, Bool, true, false, not, ◌&&◌, ◌||◌, Option, none, some, List,
  [], ◌∷◌, ◌++◌, ltb, leb, ◌==◌, if◌then◌else◌, length, take, to_bit, ◌>>=◌,
}
use rockchip_vaapi.Base.Int.{ℤ, pos, negsuc, pos_part, neg_part, sub_ℕ}

-- `VAPictureHEVC`, with the bits of its flags.
pub record Picture : Type 0 where
  pub picture_id : ℕ
  pub pic_order_cnt : ℤ
  pub invalid : Bool
  pub field_pic : Bool
  pub long_term_reference : Bool
  pub st_curr_before : Bool
  pub st_curr_after : Bool
  pub lt_curr : Bool

-- `HEVCRPSEntry` and `HEVCRPS`.
pub record RpsEntry : Type 0 where
  pub delta : ℕ
  pub poc : ℕ
  pub used : Bool

pub record Rps : Type 0 where
  pub negative : List RpsEntry
  pub positive : List RpsEntry
  pub long_term : List RpsEntry

abbrev pub valid_picture : ℕ → Picture → Bool
valid_picture invalid_surface ref = not (ref.picture_id == invalid_surface) && not ref.invalid

-- The inner loop of the sort, on the sorted entries from the last one down.
unfoldable pub shift_insert : RpsEntry → List RpsEntry → List RpsEntry
shift_insert value [] = value ∷ []
shift_insert value (last ∷ before) =
    let rest = shift_insert value before in
    if ltb value.delta last.delta then last ∷ rest else value ∷ last ∷ before

abbrev pub reverse_onto : List RpsEntry → List RpsEntry → List RpsEntry
reverse_onto [] behind = behind
reverse_onto (e ∷ before) behind = reverse_onto before (e ∷ behind)

-- The sorted entries, last first, and those that are left.
unfoldable pub sort_loop : List RpsEntry → List RpsEntry → List RpsEntry
unfolding shift_insert
sort_loop sorted [] = reverse_onto sorted []
sort_loop sorted (value ∷ rest) = sort_loop (shift_insert value sorted) rest

unfoldable pub sort_entries : List RpsEntry → List RpsEntry
unfolding sort_loop
sort_entries values = sort_loop [] values

-- `(uint32_t)poc`.
abbrev pub word_of : ℤ → ℕ
word_of (pos n) = n % 2 ^ 32
word_of (negsuc n) = 2 ^ 32 - 1 - n % 2 ^ 32

-- `(int64_t)poc - current_poc`; two 32-bit numbers are no 64 bits apart.
abbrev pub poc_delta : ℤ → ℤ → ℤ
poc_delta poc current = sub_ℕ (pos_part poc + neg_part current) (neg_part poc + pos_part current)

-- How many of the three flags stand in `rps_flags`; two or more have a bit in `flags & (flags - 1)`.
abbrev pub flag_count : Picture → ℕ
flag_count ref = to_bit ref.st_curr_before + to_bit ref.st_curr_after + to_bit ref.lt_curr

-- `rps_flags == VA_PICTURE_HEVC_RPS_LT_CURR`, where at most one flag stands.
abbrev pub only_lt_curr : Picture → Bool
only_lt_curr ref = ref.lt_curr && flag_count ref == 1

abbrev pub is_long_term : Picture → Bool
is_long_term ref = ref.long_term_reference || only_lt_curr ref

abbrev pub entry : ℕ → Picture → Bool → RpsEntry
entry delta ref used = record { delta = delta; poc = word_of ref.pic_order_cnt; used = used }

-- The entry of a short-term reference, by the sign of the distance.
abbrev pub add_short_term : ℤ → Picture → Rps → Option Rps
add_short_term (pos zero) ref rps = none
add_short_term (pos (suc n)) ref rps =
    if ltb (2 ^ 16 - 1) (suc n)
    then none
    else some (record rps {
      positive = rps.positive ++ entry (suc n) ref (not (flag_count ref == 0)) ∷ [];
    })
add_short_term (negsuc n) ref rps =
    if ltb (2 ^ 16 - 1) (suc n)
    then none
    else some (record rps {
      negative = rps.negative ++ entry (suc n) ref (not (flag_count ref == 0)) ∷ [];
    })

-- The body of the loop for a valid picture.
abbrev pub add_reference : ℤ → Picture → Rps → Option Rps
add_reference current ref rps =
    if ltb 1 (flag_count ref)
      || leb 15 (length rps.negative + length rps.positive + length rps.long_term)
    then none
    else if is_long_term ref
    then some (record rps { long_term = rps.long_term ++ entry 0 ref (only_lt_curr ref) ∷ [] })
    else add_short_term (poc_delta ref.pic_order_cnt current) ref rps

unfoldable pub collect_loop : ℕ → ℤ → List Picture → Rps → Option Rps
collect_loop invalid_surface current [] rps = some rps
collect_loop invalid_surface current (ref ∷ refs) rps = elim (valid_picture invalid_surface ref) [
  | false ↦ collect_loop invalid_surface current refs rps
  | true ↦ elim (add_reference current ref rps) [
    | none ↦ none
    | some rps' ↦ collect_loop invalid_surface current refs rps'
  ]
]

abbrev pub no_references : Rps
no_references = record { negative = []; positive = []; long_term = [] }

unfoldable pub collect_rps : ℕ → ℤ → List Picture → Option Rps
unfolding sort_entries
collect_rps invalid_surface current refs = do
  rps ← collect_loop invalid_surface current (take 15 refs) no_references
  some (record rps { negative = sort_entries rps.negative; positive = sort_entries rps.positive })
