-- ===== src/Hevc/Rewrite/SetRead.antt =====
-- The short-term reference picture set of 7.3.7, as a decoder reads what src/hevc.c writes.
use rockchip_vaapi.Base.{
  ℕ, zero, suc, ◌+◌, ◌-◌, ◌%◌, ◌^◌, ◌*◌, ◌≤◌, ◌<◌, ◌≡◌, refl, ap, ◌∙◌, some, List, [], ◌∷◌, ◌++◌,
  arith, length, to_bit, sym, append-nil,
}
use rockchip_vaapi.Bitstream.Decoder.{Decoder, give, bits, golomb, run, feed, run-feed}
use rockchip_vaapi.Bitstream.Elements.{Element, u, all_bits, all_bits-Reads}
use rockchip_vaapi.Hevc.Golomb.{Ahead}
use rockchip_vaapi.Hevc.Reader.{BitReader}
use rockchip_vaapi.Hevc.Rps.{RpsEntry, Rps}
use rockchip_vaapi.Hevc.Rps.Collected.{NearBy, total}
use rockchip_vaapi.Hevc.Rewrite.{short_entries, write_short_term_rps}
use rockchip_vaapi.Hevc.Rewrite.Sets.{Steep, write_short_term_rps-Within}

-- The distances to the current picture, with whether it uses the reference.
pub record SetSyntax : Type 0 where
  pub short_term_ref_pic_set_sps_flag : ℕ
  pub before : List (ℕ × ℕ)
  pub behind : List (ℕ × ℕ)

-- Each distance is coded as the difference to the one before, less 1.
pub distances_syntax : ℕ → ℕ → (List (ℕ × ℕ) → Decoder SetSyntax) → Decoder SetSyntax
distances_syntax zero distance next = next []
distances_syntax (suc count) distance next = golomb (λ delta_poc_minus1. bits 1 (λ used_by_curr_pic.
    distances_syntax count (distance + delta_poc_minus1 + 1)
      (λ rest. next ((distance + delta_poc_minus1 + 1, used_by_curr_pic) ∷ rest))))

-- The set of a slice header that is written behind no other one, with its first flag.
abbrev pub set_syntax : Decoder SetSyntax
set_syntax = bits 1 (λ short_term_ref_pic_set_sps_flag. golomb (λ num_negative_pics.
    golomb (λ num_positive_pics. distances_syntax num_negative_pics 0 (λ before.
      distances_syntax num_positive_pics 0 (λ behind. give (record {
        short_term_ref_pic_set_sps_flag = short_term_ref_pic_set_sps_flag;
        before = before;
        behind = behind;
      }))))))

abbrev pub distances_of : List RpsEntry → List (ℕ × ℕ)
distances_of [] = []
distances_of (e ∷ es) = (e.delta, to_bit e.used) ∷ distances_of es

difference : (a b : ℕ) → a < b → b ≤ 65535 → a + (b + 2 ^ 32 - a + 2 ^ 32 - 1) % 2 ^ 32 + 1 ≡ b
difference a b lt le = omega arith

distances_read :
    (es : List RpsEntry) (distance : ℕ) (rest : List Element)
    (next : List (ℕ × ℕ) → Decoder SetSyntax)
    → Steep distance es
    → NearBy es
    → feed (distances_syntax (length es) distance next) (short_entries distance es ++ rest)
      ≡ feed (next (distances_of es)) rest
unfolding feed distances_syntax short_entries
distances_read [] distance rest next steep near = refl
distances_read (e ∷ es) distance rest next (lt, steep) ((low, high), near) =
    let d : ℕ = distance + (e.delta + 2 ^ 32 - distance + 2 ^ 32 - 1) % 2 ^ 32 + 1 in
    let is : d ≡ e.delta = difference distance e.delta lt (omega (arith, high)) in
    ap
      (λ (n : ℕ).
        feed (distances_syntax (length es) n (λ rest. next ((n, to_bit e.used) ∷ rest)))
          (short_entries e.delta es ++ rest))
      is
    ∙ distances_read es e.delta rest (λ rest. next ((e.delta, to_bit e.used) ∷ rest)) steep near

-- Where the bits of a set of at most 15 references, with distances below 2 ^ 16 that rise in both
-- lists, stand in front of a reader behind the flag that the slice header has its own set, a decoder
-- of the syntax of the standard gets the distances of both lists, each with its use.
pub write_short_term_rps-read :
    (rps : Rps) (br : BitReader)
    → total rps ≤ 15
    → Steep 0 rps.negative
    → Steep 0 rps.positive
    → NearBy rps.negative
    → NearBy rps.positive
    → br.bit ≤ br.size * 8
    → Ahead br (all_bits (u 0 1 ∷ write_short_term_rps rps 0))
    → run set_syntax br
      ≡ some (record {
        short_term_ref_pic_set_sps_flag = 0;
        before = distances_of rps.negative;
        behind = distances_of rps.positive;
      })
unfolding feed write_short_term_rps
write_short_term_rps-read rps br few steep steep' near near' inside ahead =
    let es : List Element = u 0 1 ∷ write_short_term_rps rps 0 in
    let within = write_short_term_rps-Within rps few steep steep' near near' in
    run-feed set_syntax es br _ (all_bits-Reads es br within.fits inside ahead) (
      distances_read rps.negative 0 (short_entries 0 rps.positive)
        (λ before. distances_syntax (length rps.positive) 0 (λ behind.
          give (record { short_term_ref_pic_set_sps_flag = 0; before = before; behind = behind })))
        steep near
      ∙ positive_read)
  where
    positive_read :
        feed
          (distances_syntax (length rps.positive) 0 (λ behind. give (record {
            short_term_ref_pic_set_sps_flag = 0;
            before = distances_of rps.negative;
            behind = behind;
          })))
          (short_entries 0 rps.positive)
        ≡ some (record {
          short_term_ref_pic_set_sps_flag = 0;
          before = distances_of rps.negative;
          behind = distances_of rps.positive;
        })
    positive_read =
        ap
          (λ (es : List Element).
            feed
              (distances_syntax (length rps.positive) 0 (λ behind. give (record {
                short_term_ref_pic_set_sps_flag = 0;
                before = distances_of rps.negative;
                behind = behind;
              })))
              es)
          (sym (append-nil (short_entries 0 rps.positive)))
        ∙ distances_read rps.positive 0 []
            (λ behind. give (record {
              short_term_ref_pic_set_sps_flag = 0;
              before = distances_of rps.negative;
              behind = behind;
            }))
            steep' near'
