-- ===== src/Hevc/Rps/Examples.antt =====
-- A reference picture set of four pictures around picture 8.
use rockchip_vaapi.Base.{inl, inr, arith, ℕ, ◌≡◌, refl, Bool, true, false, some, List, [], ◌∷◌}
use rockchip_vaapi.Base.Int.{ℤ, pos}
use rockchip_vaapi.Hevc.Rps.{
  Picture, Rps, collect_loop, collect_rps, sort_entries, sort_loop, shift_insert,
}
use rockchip_vaapi.Hevc.Rps.Accepted.{AllUsable, collect_rps-accepts}
use rockchip_vaapi.Hevc.Rps.Collected.{IsCollected, collect_rps_lem}

abbrev short_term : ℕ → ℤ → Bool → Picture
short_term id poc used = record {
  picture_id = id;
  pic_order_cnt = poc;
  invalid = false;
  field_pic = false;
  long_term_reference = false;
  st_curr_before = used;
  st_curr_after = false;
  lt_curr = false;
}

abbrev lasting_one : Picture
lasting_one = record (short_term 5 (pos 0) false) { lt_curr = true }

abbrev pictures : List Picture
pictures =
    short_term 1 (pos 2) true
    ∷ short_term 2 (pos 6) true
    ∷ record (short_term 9 (pos 6) true) { invalid = true }
    ∷ short_term 3 (pos 12) false
    ∷ lasting_one
    ∷ []

abbrev collected : Rps
collected = record {
  negative =
      record { delta = 2; poc = 6; used = true } ∷ record { delta = 6; poc = 2; used = true } ∷ [];
  positive = record { delta = 4; poc = 12; used = false } ∷ [];
  long_term = record { delta = 0; poc = 0; used = true } ∷ [];
}

collects : collect_rps 4294967295 (pos 8) pictures ≡ some collected
unfolding collect_rps collect_loop sort_entries sort_loop shift_insert
collects = refl

collect_rps_lem_example : IsCollected 4294967295 (pos 8) pictures collected
collect_rps_lem_example = collect_rps_lem 4294967295 (pos 8) pictures collected collects

pictures-AllUsable : AllUsable 4294967295 (pos 8) pictures
pictures-AllUsable = (
  inr (record { one_flag = omega arith; near = inr (omega arith, omega arith) }),
  (
    inr (record { one_flag = omega arith; near = inr (omega arith, omega arith) }),
    (
      inl refl,
      (
        inr (record { one_flag = omega arith; near = inr (omega arith, omega arith) }),
        (inr (record { one_flag = omega arith; near = inl refl }), tt),
      ),
    ),
  ),
)

collect_rps-accepts_example : (rps : Rps) × (collect_rps 4294967295 (pos 8) pictures ≡ some rps)
collect_rps-accepts_example = collect_rps-accepts 4294967295 (pos 8) pictures pictures-AllUsable
