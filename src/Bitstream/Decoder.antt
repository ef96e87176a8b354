-- ===== src/Bitstream/Decoder.antt =====
-- A decoder of the syntax tables of a standard: what it reads next may depend on what it has read. It
-- reads with the reader of src/hevc.c, and knows nothing of the writers.
use rockchip_vaapi.Base.{
  ℕ, zero, suc, ◌+◌, ◌-◌, ◌*◌, ◌/◌, ◌%◌, ◌^◌, ◌<◌, ◌≡◌, refl, ap, true, false, Option, none, some,
  List, [], ◌∷◌, arith, ◌==◌, if◌then◌else◌, Bool-cases, inl, inr, length,
}
use rockchip_vaapi.Base.Int.{ℤ, pos, negsuc, pos_part, neg_part}
use rockchip_vaapi.Bitstream.{unsigned_of}
use rockchip_vaapi.Bitstream.Elements.{Element, u, ue, se, Reads}
use rockchip_vaapi.Hevc.Reader.{BitReader, br_read_bits, br_read_ue}
use rockchip_vaapi.Nal.{unescape_prefix}

-- `give` ends, `refuse` fails, `bits n` reads u(n), and `golomb` ue(v).
pub data Decoder (A : Type 0) : Type 0 where
  give : A → Decoder A
  refuse : Decoder A
  bits : ℕ → (ℕ → Decoder A) → Decoder A
  golomb : (ℕ → Decoder A) → Decoder A

abbrev pub minus : ℕ → ℤ
minus zero = pos 0
minus (suc n) = negsuc n

-- The mapping of 9.1.1: 1, -1, 2, -2, and so on.
pub signed_value : ℕ → ℤ
signed_value k = if k % 2 == 0 then minus (k / 2) else pos ((k + 1) / 2)

-- se(v).
abbrev pub signed : {A : Type 0} → (ℤ → Decoder A) → Decoder A
signed next = golomb (λ k. next (signed_value k))

pub run : {A : Type 0} → Decoder A → BitReader → Option A
run (give a) br = some a
run refuse br = none
run (bits n next) br = elim (br_read_bits br n) [ none ↦ none | some (v, br') ↦ run (next v) br' ]
run (golomb next) br = elim (br_read_ue br) [ none ↦ none | some (v, br') ↦ run (next v) br' ]

-- The bytes of a NAL unit without their escapes.
pub decode : {A : Type 0} → Decoder A → List ℕ → Option A
unfolding run
decode d escaped =
    let rbsp = unescape_prefix escaped (length escaped) in
    run d (record { bytes = rbsp; size = length rbsp; bit = 0 })

-- The decoder on elements, where each has to be of the kind that it reads.
unfoldable pub feed : {A : Type 0} → Decoder A → List Element → Option A
feed (give a) es = some a
feed (bits n next) (u v m ∷ es) = if n == m then feed (next v) es else none
feed (golomb next) (ue v ∷ es) = feed (next v) es
feed (golomb next) (se z ∷ es) = feed (next (unsigned_of z)) es
feed d es = none

pub run-feed :
    {A : Type 0} (d : Decoder A) (es : List Element) (br : BitReader) (a : A)
    → Reads br es
    → feed d es ≡ some a
    → run d br ≡ some a
unfolding run feed
run-feed (give a') es br a r e = e
run-feed refuse es br a r e = absurd (cc e)
run-feed (bits n next) [] br a r e = absurd (cc e)
run-feed (bits n next) (u v m ∷ es) br a (br', one, rest) e = elim (Bool-cases (n == m)) [
  | inr other ↦ absurd (cc (rw other at e))
  | inl same ↦
      let is : n ≡ m = ground (arith, same) in
      let read : br_read_bits br m ≡ some (v, br') = one in
      rw is (rw (run, read) (run-feed (next v) es br' a rest (rw same at e)))
]
run-feed (bits n next) (ue v ∷ es) br a r e = absurd (cc e)
run-feed (bits n next) (se z ∷ es) br a r e = absurd (cc e)
run-feed (golomb next) [] br a r e = absurd (cc e)
run-feed (golomb next) (u v m ∷ es) br a r e = absurd (cc e)
run-feed (golomb next) (ue v ∷ es) br a (br', one, rest) e =
    rw (run, one) (run-feed (next v) es br' a rest e)
run-feed (golomb next) (se z ∷ es) br a (br', one, rest) e =
    rw (run, one) (run-feed (next (unsigned_of z)) es br' a rest e)

pub decode-feed :
    {A : Type 0} (d : Decoder A) (es : List Element) (escaped : List ℕ) (a : A)
    → (let rbsp = unescape_prefix escaped (length escaped) in
        Reads (record { bytes = rbsp; size = length rbsp; bit = 0 }) es)
    → feed d es ≡ some a
    → decode d escaped ≡ some a
unfolding decode
decode-feed d es escaped a r e =
    let rbsp = unescape_prefix escaped (length escaped) in
    run-feed d es (record { bytes = rbsp; size = length rbsp; bit = 0 }) a r e

-- The mapping of the standard is undone.
pub signed_value-unsigned_of :
    (z : ℤ) → pos_part z + neg_part z < 2 ^ 30 → signed_value (unsigned_of z) ≡ z
unfolding signed_value unsigned_of
signed_value-unsigned_of (pos zero) lt = refl
signed_value-unsigned_of (pos (suc n)) lt =
    let k = (2 * suc n - 1) % 2 ^ 32 in
    let odd : (k % 2 == 0) ≡ false = ground arith in rw odd (ap pos (omega arith))
signed_value-unsigned_of (negsuc n) lt =
    let k = 2 * (n + 1) % 2 ^ 32 in
    let even : (k % 2 == 0) ≡ true = ground arith in
    let half : k / 2 ≡ suc n = omega arith in rw (even, half) refl
