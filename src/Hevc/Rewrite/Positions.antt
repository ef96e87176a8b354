-- ===== src/Hevc/Rewrite/Positions.antt =====
-- How far the readers of src/hevc.c go while a slice header is read.
use rockchip_vaapi.Base.{
  ℕ, zero, suc, ◌+◌, ◌-◌, ◌*◌, ◌%◌, ◌^◌, ◌≤◌, ◌<◌, ◌≡◌, ◌⊎◌, refl, ◌∙◌, subst, Bool, true, false,
  not, ◌||◌, Option, none, some, List, arith, ltb, leb, ◌==◌, if◌then◌else◌, Bool-cases, inl, inr,
  require, ◌>>=◌, ◌>>◌,
}
use rockchip_vaapi.Bitstream.Content.{bit_at}
use rockchip_vaapi.Hevc.Reader.{
  BitReader, br_read_bit, br_read_bits, br_skip_bits, br_read_ue, read_loop, zeros_loop, shift_in,
  ue_value,
}
use rockchip_vaapi.Hevc.Slice.{has_irap_flag}
use rockchip_vaapi.Hevc.Parameters.{HevcParameters}
use rockchip_vaapi.Hevc.Validate.{width_ctbs, height_ctbs}
use rockchip_vaapi.Hevc.Rewrite.{
  ceil_log2_u32, poc_bits, alignment_loop, find_byte_alignment_start, skip_long_terms, LongTerms,
  skip_short_terms, skip_original_rps, Front, dependent, independent, skip_extra, independent_front,
  slice_address, slice_front,
}

-- The same bytes, further on and within them.
pub record Later (br next : BitReader) : Type 0 where
  pub same_bytes : next.bytes ≡ br.bytes
  pub same_size : next.size ≡ br.size
  pub ahead : br.bit ≤ next.bit
  pub inside : br.bit ≤ br.size * 8 → next.bit ≤ next.size * 8

pub Later-refl : (br : BitReader) → Later br br
Later-refl br = record { same_bytes = refl; same_size = refl; ahead = omega arith; inside = λ h. h }

pub Later-trans : {a b c : BitReader} → Later a b → Later b c → Later a c
Later-trans {a} {b} {c} f g = record {
  same_bytes = g.same_bytes ∙ f.same_bytes;
  same_size = g.same_size ∙ f.same_size;
  ahead = omega (arith, f.ahead, g.ahead);
  inside = λ h. g.inside (f.inside h);
}

-- What every success of a computation satisfies, and the rules for the steps of a `do` block.
abbrev pub Ends {ℓ κ} : {A : Type ℓ} → (A → Type κ) → Option A → Type κ
Ends P none = Unit
Ends P (some a) = P a

Ends-bind {ℓ ℓ' κ κ'} :
    {A : Type ℓ} {B : Type ℓ'} (P : A → Type κ) (Q : B → Type κ') (r : Option A) (f : A → Option B)
    → Ends P r
    → ((a : A) → P a → Ends Q (f a))
    → Ends Q (r >>= f)
Ends-bind P Q none f e k = tt
Ends-bind P Q (some a) f e k = k a e

Ends-require {ℓ κ} :
    {B : Type ℓ} (Q : B → Type κ) (c : Bool) (m : Option B) → Ends Q m → Ends Q (require c >> m)
Ends-require Q true m e = e
Ends-require Q false m e = tt

Ends-if {ℓ κ} :
    {B : Type ℓ} (Q : B → Type κ) (c : Bool) (m n : Option B)
    → Ends Q m
    → Ends Q n
    → Ends Q (if c then m else n)
Ends-if Q true m n e f = e
Ends-if Q false m n e f = f

pub Ends-some {ℓ κ} :
    {A : Type ℓ} (P : A → Type κ) (r : Option A) (a : A) → Ends P r → r ≡ some a → P a
Ends-some P r a e s = subst (Ends P) s e

-- A value and a later reader.
abbrev pub After {ℓ} : {A : Type ℓ} → BitReader → A × BitReader → Type 0
After br p = Later br p.1

br_read_bit-Later : (br : BitReader) → Ends (After br) (br_read_bit br)
unfolding br_read_bit
br_read_bit-Later br = elim (Bool-cases (leb (br.size * 8) br.bit)) [
  | inl full ↦ rw full tt
  | inr room ↦ rw room (record {
    same_bytes = refl;
    same_size = refl;
    ahead = omega arith;
    inside = λ h. ground (arith, room);
  })
]

br_skip_bits-Later : (br : BitReader) (count : ℕ) → Ends (Later br) (br_skip_bits br count)
unfolding br_skip_bits
br_skip_bits-Later br count =
    elim (Bool-cases (ltb (br.size * 8) br.bit || ltb (br.size * 8 - br.bit) count)) [
      | inl short ↦ rw short tt
      | inr room ↦ rw room (record {
        same_bytes = refl;
        same_size = refl;
        ahead = omega arith;
        inside = λ h. ground (arith, room);
      })
    ]

further {ℓ} :
    {A : Type ℓ} {a b : BitReader} (r : Option (A × BitReader))
    → Later a b
    → Ends (After b) r
    → Ends (After a) r
further none f e = tt
further (some p) f e = Later-trans f e

moved : {a b : BitReader} (r : Option BitReader) → Later a b → Ends (Later b) r → Ends (Later a) r
moved none f e = tt
moved (some p) f e = Later-trans f e

loop_step :
    (n out : ℕ) (br : BitReader) (r : Option (ℕ × BitReader))
    → ((k : ℕ) (b : BitReader) → Ends (After b) (read_loop n k b))
    → Ends (After br) r
    → Ends
        (After br)
        (elim r [ none ↦ none | some (bit, br') ↦ read_loop n (shift_in out bit) br' ])
loop_step n out br none rec e = tt
loop_step n out br (some (bit, br')) rec e =
    further (read_loop n (shift_in out bit) br') e (rec (shift_in out bit) br')

read_loop-Later : (n out : ℕ) (br : BitReader) → Ends (After br) (read_loop n out br)
unfolding read_loop
read_loop-Later zero out br = Later-refl br
read_loop-Later (suc n) out br =
    loop_step n out br (br_read_bit br) (read_loop-Later n) (br_read_bit-Later br)

br_read_bits-Later : (br : BitReader) (count : ℕ) → Ends (After br) (br_read_bits br count)
unfolding br_read_bits
br_read_bits-Later br count =
    elim (Bool-cases
      (ltb 32 count || ltb (br.size * 8) br.bit || ltb (br.size * 8 - br.bit) count)) [
        | inl short ↦ rw short tt
        | inr room ↦ rw room (read_loop-Later count 0 br)
      ]

zeros_step :
    (fuel zeros : ℕ) (br : BitReader) (r : Option (ℕ × BitReader))
    → ((b : BitReader) → Ends (After b) (zeros_loop fuel (zeros + 1) b))
    → Ends (After br) r
    → Ends (After br) (elim r [
      | none ↦ none
      | some (bit, br') ↦
          let more = zeros_loop fuel (zeros + 1) br' in
          if bit == 0 then (if ltb 31 (zeros + 1) then none else more) else some (zeros, br')
    ])
zeros_step fuel n br none rec e = tt
zeros_step fuel zeros br (some (bit, br')) rec e =
    Ends-if (After br) (bit == 0) _ _
      (Ends-if (After br) (ltb 31 (zeros + 1)) none (zeros_loop fuel (zeros + 1) br') tt
        (further (zeros_loop fuel (zeros + 1) br') e (rec br')))
      e

zeros_loop-Later : (fuel zeros : ℕ) (br : BitReader) → Ends (After br) (zeros_loop fuel zeros br)
unfolding zeros_loop
zeros_loop-Later zero n br = tt
zeros_loop-Later (suc fuel) zeros br =
    zeros_step fuel zeros br (br_read_bit br) (zeros_loop-Later fuel (zeros + 1))
      (br_read_bit-Later br)

ue_step :
    (br : BitReader) (r : Option (ℕ × BitReader))
    → Ends (After br) r
    → Ends (After br) (elim r [
      | none ↦ none
      | some (zeros, br') ↦ elim (read_loop zeros 0 br') [
        | none ↦ none
        | some (suffix, br'') ↦ some (ue_value zeros suffix, br'')
      ]
    ])
ue_step br none e = tt
ue_step br (some (zeros, br')) e =
    value (read_loop zeros 0 br') (further (read_loop zeros 0 br') e (read_loop-Later zeros 0 br'))
  where
    value :
        (r : Option (ℕ × BitReader))
        → Ends (After br) r
        → Ends
            (After br)
            (elim r [ none ↦ none | some (suffix, br'') ↦ some (ue_value zeros suffix, br'') ])
    value none e = tt
    value (some (suffix, br'')) e = e

br_read_ue-Later : (br : BitReader) → Ends (After br) (br_read_ue br)
unfolding br_read_ue
br_read_ue-Later br = ue_step br (zeros_loop 32 0 br) (zeros_loop-Later 32 0 br)

skip_extra-Later : (count : ℕ) (br : BitReader) → Ends (Later br) (skip_extra count br)
unfolding skip_extra
skip_extra-Later zero br = Later-refl br
skip_extra-Later (suc count) br =
    Ends-bind (After br) (Later br) (br_read_bit br) _ (br_read_bit-Later br)
      (λ p l. moved (skip_extra count p.1) l (skip_extra-Later count p.1))

skip_long_terms-Later :
    (pp : HevcParameters) (from_sps count : ℕ) (br : BitReader)
    → Ends (Later br) (skip_long_terms pp from_sps count br)
unfolding skip_long_terms
skip_long_terms-Later pp from_sps zero br = Later-refl br
skip_long_terms-Later pp from_sps (suc count) br =
    Ends-bind (Later br) (Later br) _ _ (br_skip_bits-Later br _) (λ b l.
      Ends-bind (After br) (Later br) (br_read_bit b) _
        (further (br_read_bit b) l (br_read_bit-Later b))
        (λ p m.
          Ends-bind (Later br) (Later br) _ _
            (Ends-if (Later br) (p.0 == 0) _ _ m (
              Ends-bind (After br) (Later br) (br_read_ue p.1) _
                (further (br_read_ue p.1) m (br_read_ue-Later p.1)) (λ q n. n)))
            (λ c n.
              moved (skip_long_terms pp (from_sps - 1) count c) n
                (skip_long_terms-Later pp (from_sps - 1) count c))))

skip_short_terms-Later :
    (pp : HevcParameters) (br : BitReader) → Ends (Later br) (skip_short_terms pp br)
skip_short_terms-Later pp br =
    Ends-bind (After br) (Later br) (br_read_bit br) _ (br_read_bit-Later br) (λ p l.
      Ends-if (Later br) (p.0 == 0) _ _
        (moved (br_skip_bits p.1 pp.st_rps_bits) l (br_skip_bits-Later p.1 pp.st_rps_bits))
        (Ends-require (Later br) (not (pp.num_short_term_ref_pic_sets == 0)) _ (
          moved (br_skip_bits p.1 _) l
            (br_skip_bits-Later p.1 (ceil_log2_u32 pp.num_short_term_ref_pic_sets)))))

-- The reader behind the reference picture set, and a long-term part that lies before it.
abbrev pub Skipped : BitReader → LongTerms × BitReader → Type 0
Skipped br (lt, next) =
    Later br next
    × ((lt.lt_verbatim ≡ false) ⊎ ((br.bit ≤ lt.lt_verbatim_bit) × (lt.lt_verbatim_bit ≤ next.bit)))

pub skip_original_rps-Skipped :
    (br : BitReader) (pp : HevcParameters) → Ends (Skipped br) (skip_original_rps br pp)
unfolding skip_original_rps
skip_original_rps-Skipped br pp =
    Ends-bind (Later br) (Skipped br) _ _ (skip_short_terms-Later pp br) (λ a l.
      Ends-if (Skipped br) pp.long_term_ref_pics_present_flag _ _
        (Ends-bind (After br) (Skipped br) _ _
          (Ends-if (After br) (ltb 0 pp.num_long_term_ref_pic_sps) _ _
            (further (br_read_ue a) l (br_read_ue-Later a)) l)
          (λ p m.
            Ends-bind (After p.1) (Skipped br) (br_read_ue p.1) _ (br_read_ue-Later p.1) (λ q n.
              let count = (p.0 + q.0) % 2 ^ 32 in
              Ends-require (Skipped br) (leb p.0 pp.num_long_term_ref_pic_sps) _ (
                Ends-require (Skipped br) (leb count 15) _ (
                  Ends-bind (Later q.1) (Skipped br) _ _ (skip_long_terms-Later pp p.0 count q.1)
                    (λ b o. (
                      Later-trans m (Later-trans n o),
                      inr (m.ahead, omega (arith, n.ahead, o.ahead)),
                    )))))))
        (l, inl refl))

-- The reader at the end of the front of an independent segment.
abbrev pub FrontLater : BitReader → Front → Type 0
FrontLater br dependent = Unit
FrontLater br (independent poc_lsb next) = Later br next

independent_front-Later :
    (pp : HevcParameters) (a br : BitReader)
    → Later a br
    → Ends (FrontLater a) (independent_front pp br)
unfolding independent_front
independent_front-Later pp a br l =
    Ends-bind (Later a) (FrontLater a) _ _
      (moved (skip_extra pp.num_extra_slice_header_bits br) l
        (skip_extra-Later pp.num_extra_slice_header_bits br))
      (λ b l.
        Ends-bind (After a) (FrontLater a) (br_read_ue b) _
          (further (br_read_ue b) l (br_read_ue-Later b))
          (λ p l.
            Ends-bind (Later a) (FrontLater a) _ _
              (Ends-if (Later a) pp.output_flag_present_flag _ _
                (Ends-bind (After a) (Later a) (br_read_bit p.1) _
                  (further (br_read_bit p.1) l (br_read_bit-Later p.1)) (λ q n. n))
                l)
              (λ c l.
                Ends-bind (Later a) (FrontLater a) _ _
                  (Ends-if (Later a) pp.separate_colour_plane_flag _ _
                    (moved (br_skip_bits c 2) l (br_skip_bits-Later c 2)) l)
                  (λ d l.
                    Ends-bind (After a) (FrontLater a) _ _
                      (further (br_read_bits d (poc_bits pp)) l
                        (br_read_bits-Later d (poc_bits pp)))
                      (λ q n. n)))))

slice_address-Later : (pp : HevcParameters) (br : BitReader) → Ends (After br) (slice_address pp br)
unfolding slice_address
slice_address-Later pp br =
    Ends-bind (After br) (After br) _ _
      (Ends-if (After br) pp.dependent_slice_segments_enabled_flag _ _ (br_read_bit-Later br)
        (Later-refl br))
      (λ p l.
        Ends-bind (Later br) (After br) _ _
          (moved (br_skip_bits p.1 _) l
            (br_skip_bits-Later p.1 (ceil_log2_u32 (width_ctbs pp * height_ctbs pp))))
          (λ b n. n))

pub slice_front-Later :
    (pp : HevcParameters) (nal_type : ℕ) (br : BitReader)
    → Ends (FrontLater br) (slice_front pp nal_type br)
unfolding slice_front
slice_front-Later pp nal_type br =
    Ends-bind (After br) (FrontLater br) (br_read_bit br) _ (br_read_bit-Later br) (λ p l.
      Ends-bind (Later br) (FrontLater br) _ _
        (Ends-if (Later br) (has_irap_flag nal_type) _ _
          (Ends-bind (After br) (Later br) (br_read_bit p.1) _
            (further (br_read_bit p.1) l (br_read_bit-Later p.1)) (λ q n. n))
          l)
        (λ a l.
          Ends-bind (After br) (FrontLater br) (br_read_ue a) _
            (further (br_read_ue a) l (br_read_ue-Later a))
            (λ q l.
              Ends-bind (After br) (FrontLater br) _ _
                (Ends-if (After br) (p.0 == 0) _ _
                  (further (slice_address pp q.1) l (slice_address-Later pp q.1)) l)
                (λ r l.
                  Ends-if (FrontLater br) r.0 (some dependent) _ tt
                    (independent_front-Later pp br r.1 l)))))

alignment_loop-within :
    (rbsp : List ℕ) (rps_end left : ℕ)
    → Ends (λ a. (rps_end ≤ a) × (a < rps_end + left)) (alignment_loop rbsp rps_end left)
unfolding alignment_loop
alignment_loop-within rbsp rps_end zero = tt
alignment_loop-within rbsp rps_end (suc left) =
    elim (Bool-cases (bit_at rbsp (rps_end + left) == 0)) [
      | inl clear ↦
          rw clear
            (wider (alignment_loop rbsp rps_end left) (alignment_loop-within rbsp rps_end left))
      | inr set ↦ rw set (omega arith)
    ]
  where
    wider :
        (r : Option ℕ)
        → Ends (λ a. (rps_end ≤ a) × (a < rps_end + left)) r
        → Ends (λ a. (rps_end ≤ a) × (a < rps_end + suc left)) r
    wider none e = tt
    wider (some a) (lo, hi) = omega arith

-- The alignment starts behind the reference picture set and before the slice data.
pub find_byte_alignment_start_lem :
    (rbsp : List ℕ) (rps_end slice_data_bit a : ℕ)
    → find_byte_alignment_start rbsp rps_end slice_data_bit ≡ some a
    → (rps_end ≤ a) × (a < slice_data_bit)
unfolding find_byte_alignment_start
find_byte_alignment_start_lem rbsp rps_end slice_data_bit a e =
    elim (Bool-cases (ltb slice_data_bit rps_end)) [
      | inl short ↦ absurd (cc (rw short at e))
      | inr room ↦
          let bounds =
            Ends-some (λ a. (rps_end ≤ a) × (a < rps_end + (slice_data_bit - rps_end))) _ a
              (alignment_loop-within rbsp rps_end (slice_data_bit - rps_end)) (rw room at e) in
          ground (arith, room, bounds)
    ]
