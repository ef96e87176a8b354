-- ===== src/H264/Scaling.antt =====
-- `write_scaling_list` of src/h264.c against the decoding of 7.3.2.1.1.1.
use rockchip_vaapi.Base.{
  ℕ, suc, ◌+◌, ◌-◌, ◌*◌, ◌%◌, ◌≤◌, ◌<◌, ◌≡◌, refl, ap, ◌∙◌, none, some, List, [], ◌∷◌, ◌++◌, arith,
  ◌==◌, if◌then◌else◌, All, get_or, length, length-append, ◌>>=◌,
}
use rockchip_vaapi.Base.Int.{ℤ, sub_ℕ, pos_part, neg_part}
use rockchip_vaapi.Bitstream.{unsigned_of}
use rockchip_vaapi.Bitstream.Golomb.{ue_bits, unsigned_of-le, length-ue_bits-le}
use rockchip_vaapi.Bitstream.Elements.{Element, se, AllFit, all_bits}
use rockchip_vaapi.H264.{write_scaling_list, wrap_delta}

-- `nextScale = (lastScale + delta_scale + 256) % 256` of 7.3.2.1.1.1.
abbrev pub next_scale : ℕ → ℤ → ℕ
next_scale last delta = (last + pos_part delta + 256 - neg_part delta) % 256

abbrev pub decode_deltas : ℕ → List Element → List ℕ
decode_deltas last [] = []
decode_deltas last (se delta ∷ rest) =
    next_scale last delta ∷ decode_deltas (next_scale last delta) rest
decode_deltas last (e ∷ rest) = []

-- The coded difference of two bytes lies in -128 to 127, and takes the last to the next.
pub wrap_delta_lem :
    (last next : ℕ)
    → last < 256
    → next < 256
    → (next_scale last (wrap_delta (sub_ℕ next last)) ≡ next)
      × (pos_part (wrap_delta (sub_ℕ next last)) + neg_part (wrap_delta (sub_ℕ next last)) ≤ 128)
wrap_delta_lem last next hl hn = ground arith

-- The entries that the scan names, in its order.
abbrev pub scanned : List ℕ → List ℕ → List ℕ
scanned values [] = []
scanned values (at ∷ scan) = get_or values at 0 ∷ scanned values scan

pub length-scanned : (values scan : List ℕ) → length (scanned values scan) ≡ length scan
length-scanned values [] = refl
length-scanned values (at ∷ scan) = ap suc (length-scanned values scan)

-- What a written list says: it decodes to the scanned entries, and each code is short.
pub record IsCoded (last : ℕ) (entries : List ℕ) (deltas : List Element) : Type 0 where
  pub decoded : decode_deltas last deltas ≡ entries
  pub count : length deltas ≡ length entries
  pub fit : AllFit deltas
  pub short : length (all_bits deltas) ≤ 17 * length entries

pub write_step :
    (values scan : List ℕ) (at last : ℕ)
    → write_scaling_list values (at ∷ scan) last ≡ (
        if get_or values at 0 == 0
        then none
        else (write_scaling_list values scan (get_or values at 0) >>= λ deltas.
            some (se (wrap_delta (sub_ℕ (get_or values at 0) last)) ∷ deltas)))
unfolding write_scaling_list
write_step values scan at last = refl

pub IsCoded-cons :
    (last next : ℕ) (entries : List ℕ) (deltas : List Element)
    → last < 256
    → next < 256
    → IsCoded next entries deltas
    → IsCoded last (next ∷ entries) (se (wrap_delta (sub_ℕ next last)) ∷ deltas)
IsCoded-cons last next entries deltas hl hn c =
    let (back, small) = wrap_delta_lem last next hl hn in
    let delta = wrap_delta (sub_ℕ next last) in
    let coded = unsigned_of-le delta in
    record {
      decoded = rw back (ap (◌∷◌ next) c.decoded);
      count = ap suc c.count;
      fit = (omega arith, c.fit);
      short = omega (
        arith,
        length-append (ue_bits (unsigned_of delta)) (all_bits deltas),
        length-ue_bits-le 8 (unsigned_of delta) (omega arith) (omega arith),
        c.short,
      );
    }

-- Every entry that the scan names is a byte other than 0.
abbrev pub NonZero : List ℕ → Type 0
NonZero = All (λ v. (0 < v) × (v < 256))

-- A list with no zero among the entries of the scan is written, from any last byte on, and the
-- differences decode to those entries.
pub write_scaling_list-IsCoded :
    (values scan : List ℕ) (last : ℕ)
    → last < 256
    → NonZero (scanned values scan)
    → (deltas : List Element) × (write_scaling_list values scan last ≡ some deltas)
      × IsCoded last (scanned values scan) deltas
write_scaling_list-IsCoded values [] last hl nz = (
  [],
  unfold write_scaling_list in refl,
  record { decoded = refl; count = refl; fit = tt; short = omega arith },
)
write_scaling_list-IsCoded values (at ∷ scan) last hl ((lo, hi), nz) =
    let next = get_or values at 0 in
    let (deltas, e, c) = write_scaling_list-IsCoded values scan next hi nz in
    (
      se (wrap_delta (sub_ℕ next last)) ∷ deltas,
      write_step values scan at last ∙ rw e (ground arith),
      IsCoded-cons last next (scanned values scan) deltas hl hi c,
    )

-- A list with a zero among the entries of the scan is refused.
pub write_scaling_list_refuses :
    (values front : List ℕ) (at : ℕ) (back : List ℕ) (last : ℕ)
    → get_or values at 0 ≡ 0
    → write_scaling_list values (front ++ at ∷ back) last ≡ none
write_scaling_list_refuses values [] at back last zero_entry =
    write_step values back at last ∙ ground (arith, zero_entry)
write_scaling_list_refuses values (f ∷ front) at back last zero_entry =
    write_step values (front ++ at ∷ back) f last
    ∙ rw (write_scaling_list_refuses values front at back (get_or values f 0) zero_entry)
        (ground arith)
