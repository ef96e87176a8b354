-- ===== src/Nal/Examples.antt =====
-- Emulation prevention on concrete bytes.
use rockchip_vaapi.Base.{ℕ, ◌*◌, ◌≤◌, ◌≡◌, refl, false, some, List, [], ◌∷◌, arith, length}
use rockchip_vaapi.Nal.{emulation_prevent, emulation_loop, unescape_prefix}
use rockchip_vaapi.Nal.Escape.{has_start_code, emulation_prevent_hides}
use rockchip_vaapi.Nal.RoundTrip.{unescape_prefix-emulation_prevent}

abbrev source : List ℕ
source = 0x67 ∷ 0 ∷ 0 ∷ 0 ∷ 0 ∷ 1 ∷ 0 ∷ 0 ∷ 5 ∷ []

abbrev escaped_source : List ℕ
escaped_source = 0x67 ∷ 0 ∷ 0 ∷ 3 ∷ 0 ∷ 0 ∷ 3 ∷ 1 ∷ 0 ∷ 0 ∷ 5 ∷ []

escaped : emulation_prevent source 20 ≡ some escaped_source
unfolding emulation_prevent emulation_loop
escaped = refl

unescape_prefix-emulation_prevent_example : unescape_prefix escaped_source 9 ≡ source
unescape_prefix-emulation_prevent_example =
    unescape_prefix-emulation_prevent source escaped_source 20 9 escaped

emulation_prevent_hides_example :
    (out : List ℕ) × (emulation_prevent source 20 ≡ some out)
    × (has_start_code out ≡ false)
    × (9 ≤ length out)
    × (2 * length out ≤ 27)
emulation_prevent_hides_example = emulation_prevent_hides source 20 (omega arith)
