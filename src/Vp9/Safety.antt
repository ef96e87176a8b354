-- ===== src/Vp9/Safety.antt =====
-- The header that the driver builds for a repeat, and how far the parser looks.
use rockchip_vaapi.Base.{
  ℕ, zero, suc, ◌-◌, ◌*◌, ◌/◌, ◌%◌, ◌^◌, ◌<◌, ◌≡◌, refl, ap, Bool, true, false, some, List, [], ◌∷◌,
  ◌++◌, arith, length, get_or-append,
}
use mathlib.Core.Path.{fun_ext}
use rockchip_vaapi.Bitstream.Content.{bit_at}
use rockchip_vaapi.Vp9.{
  read_bits, parse_header, rk_vp9_parse_frame, rk_vp9_make_show_existing, bits_loop, read_profile,
  show_existing,
}
use rockchip_vaapi.Vp9.Reading.{read_bits_same}
use rockchip_vaapi.Vp9.Fields.{repeat, info_of, profile_of}

bit_at-append : (xs ys : List ℕ) (k : ℕ) → k < length xs * 8 → bit_at (xs ++ ys) k ≡ bit_at xs k
bit_at-append xs ys k lt =
    ap (λ (b : ℕ). b / 2 ^ (7 - k % 8) % 2) (ground (arith, get_or-append xs ys (k / 8) 0))

-- What lies behind the given size does not change the result: the parser reads no byte there.
pub rk_vp9_parse_frame-append :
    (xs ys : List ℕ) (profile : ℕ)
    → rk_vp9_parse_frame (xs ++ ys) (length xs) profile ≡ rk_vp9_parse_frame xs (length xs) profile
unfolding rk_vp9_parse_frame
rk_vp9_parse_frame-append xs ys profile =
    let same : read_bits (xs ++ ys) (length xs * 8) ≡ read_bits xs (length xs * 8) = fun_ext λ pos.
      fun_ext
        λ count. read_bits_same (xs ++ ys) xs (length xs * 8) pos count (bit_at-append xs ys) in
    rw same

abbrev pub IsRepeat : Bool → ℕ → Type 0
IsRepeat deep slot =
    (byte : ℕ) × (rk_vp9_make_show_existing (profile_of deep) slot ≡ some byte)
    × (byte < 256)
    × (rk_vp9_parse_frame (byte ∷ []) 1 (profile_of deep) ≡ some (info_of (repeat slot)))

-- For a slot below 8 the packet is one byte, which parses as the repeat of that slot, in the same
-- profile: 0, or 2 where `deep` holds.
pub parse-make_show_existing : (deep : Bool) (slot : ℕ) → slot < 8 → IsRepeat deep slot
unfolding rk_vp9_make_show_existing rk_vp9_parse_frame parse_header read_profile show_existing
    read_bits bits_loop
parse-make_show_existing false zero lt = (0x88, refl, omega arith, refl)
parse-make_show_existing false (suc zero) lt = (0x89, refl, omega arith, refl)
parse-make_show_existing false (suc (suc zero)) lt = (0x8a, refl, omega arith, refl)
parse-make_show_existing false (suc (suc (suc zero))) lt = (0x8b, refl, omega arith, refl)
parse-make_show_existing false (suc (suc (suc (suc zero)))) lt = (0x8c, refl, omega arith, refl)
parse-make_show_existing false (suc (suc (suc (suc (suc zero))))) lt =
    (0x8d, refl, omega arith, refl)
parse-make_show_existing false (suc (suc (suc (suc (suc (suc zero)))))) lt =
    (0x8e, refl, omega arith, refl)
parse-make_show_existing false (suc (suc (suc (suc (suc (suc (suc zero))))))) lt =
    (0x8f, refl, omega arith, refl)
parse-make_show_existing true zero lt = (0x98, refl, omega arith, refl)
parse-make_show_existing true (suc zero) lt = (0x99, refl, omega arith, refl)
parse-make_show_existing true (suc (suc zero)) lt = (0x9a, refl, omega arith, refl)
parse-make_show_existing true (suc (suc (suc zero))) lt = (0x9b, refl, omega arith, refl)
parse-make_show_existing true (suc (suc (suc (suc zero)))) lt = (0x9c, refl, omega arith, refl)
parse-make_show_existing true (suc (suc (suc (suc (suc zero))))) lt =
    (0x9d, refl, omega arith, refl)
parse-make_show_existing true (suc (suc (suc (suc (suc (suc zero)))))) lt =
    (0x9e, refl, omega arith, refl)
parse-make_show_existing true (suc (suc (suc (suc (suc (suc (suc zero))))))) lt =
    (0x9f, refl, omega arith, refl)
parse-make_show_existing _ (suc (suc (suc (suc (suc (suc (suc (suc slot)))))))) lt =
    absurd (omega arith)
