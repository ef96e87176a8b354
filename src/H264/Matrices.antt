-- ===== src/H264/Matrices.antt =====
-- The scaling lists of 7.3.2.1.1.1 and the zig-zag scan of 6.4.8 against those of src/h264.c.
use rockchip_vaapi.Base.{
  ℕ, zero, suc, ◌+◌, ◌-◌, ◌*◌, ◌%◌, ◌<◌, ◌≡◌, refl, sym, ◌∙◌, some, List, [], ◌∷◌, ◌++◌, arith,
  ◌==◌, if◌then◌else◌, length, false, append_assoc, All, inl, inr,
}
use mathlib.Core.Option.{some-injective}
use rockchip_vaapi.Base.{get_or, Option-cases, subst}
use rockchip_vaapi.Base.Int.{sub_ℕ}
use rockchip_vaapi.Bitstream.Decoder.{Decoder, refuse, bits, signed, feed, signed_value-unsigned_of}
use rockchip_vaapi.Bitstream.Elements.{Element, se}
use rockchip_vaapi.H264.{write_scaling_list, write_scaling_lists, wrap_delta, scan4x4, scan8x8}
use rockchip_vaapi.H264.Scaling.{
  next_scale, scanned, NonZero, wrap_delta_lem, write_step, write_scaling_list-IsCoded,
}

-- The cells of anti-diagonal `d` of a square of side `n`: `left` of them, from column `x` upwards, or
-- from column `x` downwards.
abbrev pub upwards : ℕ → ℕ → ℕ → ℕ → List ℕ
upwards n d x zero = []
upwards n d x (suc left) = ((d - x) * n + x) ∷ upwards n d (x + 1) left

abbrev pub downwards : ℕ → ℕ → ℕ → ℕ → List ℕ
downwards n d x zero = []
downwards n d x (suc left) = ((d - x) * n + x) ∷ downwards n d (x - 1) left

abbrev cells_of : ℕ → ℕ → List ℕ
cells_of n d =
    let first = d + 1 - n in
    let count = d + 1 - 2 * first in
    if d % 2 == 0 then upwards n d first count else downwards n d (d - first) count

abbrev walk : ℕ → ℕ → ℕ → List ℕ
walk n d zero = []
walk n d (suc left) = cells_of n d ++ walk n (d + 1) left

-- All diagonals in turn, in changing directions.
pub zigzag : ℕ → List ℕ
zigzag n = walk n 0 (2 * n - 1)

scan4x4_lem : scan4x4 ≡ zigzag 4
unfolding zigzag
scan4x4_lem = refl

scan8x8_lem : scan8x8 ≡ zigzag 8
unfolding zigzag
scan8x8_lem = refl

-- So many entries, each a difference to the one before; the entry 0 that ends a list early is refused.
pub scaling_list : {A : Type 0} → ℕ → ℕ → (List ℕ → Decoder A) → Decoder A
scaling_list zero last next = next []
scaling_list (suc count) last next = signed (λ delta.
    if next_scale last delta == 0
    then refuse
    else scaling_list count (next_scale last delta)
        (λ entries. next (next_scale last delta ∷ entries)))

-- So many lists, each behind its present flag; an absent list is refused.
pub scaling_lists : {A : Type 0} → ℕ → ℕ → (List (List ℕ) → Decoder A) → Decoder A
unfolding scaling_list
scaling_lists zero size next = next []
scaling_lists (suc count) size next = bits 1 (λ present.
    if present == 1
    then scaling_list size 8 (λ entries. scaling_lists count size (λ lists. next (entries ∷ lists)))
    else refuse)

write_scaling_list-read :
    {A : Type 0} (values scan : List ℕ) (last : ℕ) (deltas rest : List Element)
    (next : List ℕ → Decoder A)
    → last < 256
    → NonZero (scanned values scan)
    → write_scaling_list values scan last ≡ some deltas
    → feed (scaling_list (length scan) last next) (deltas ++ rest)
      ≡ feed (next (scanned values scan)) rest
unfolding feed scaling_list
write_scaling_list-read values [] last deltas rest next hl nz e =
    let is : some [] ≡ some deltas = unfold write_scaling_list in e in
    rw (← some-injective [] deltas is) refl
write_scaling_list-read values (at ∷ scan) last deltas rest next hl ((lo, hi), nz) e =
    let v = get_or values at 0 in
    let (tail, e', _) = write_scaling_list-IsCoded values scan v hi nz in
    let delta = wrap_delta (sub_ℕ v last) in
    let made : write_scaling_list values (at ∷ scan) last ≡ some (se delta ∷ tail) =
      write_step values scan at last ∙ rw e' (ground (arith, lo)) in
    let is : se delta ∷ tail ≡ deltas = some-injective _ _ (sym made ∙ e) in
    let (back, small) = wrap_delta_lem last v hl hi in
    let positive : (v == 0) ≡ false = ground (arith, lo) in
    rw (← is) (
      rw (feed, signed_value-unsigned_of delta (omega (arith, small)), back, positive)
        (write_scaling_list-read values scan v tail rest (λ entries. next (v ∷ entries)) hi nz e'))

pub scanned_lists : List (List ℕ) → List ℕ → List (List ℕ)
scanned_lists [] scan = []
scanned_lists (values ∷ rows) scan = scanned values scan ∷ scanned_lists rows scan

write_scaling_lists-read :
    {A : Type 0} (rows : List (List ℕ)) (scan : List ℕ) (es rest : List Element)
    (next : List (List ℕ) → Decoder A)
    → All (λ values. NonZero (scanned values scan)) rows
    → write_scaling_lists rows scan ≡ some es
    → feed (scaling_lists (length rows) (length scan) next) (es ++ rest)
      ≡ feed (next (scanned_lists rows scan)) rest
unfolding feed scaling_list scaling_lists scanned_lists write_scaling_lists
write_scaling_lists-read [] scan es rest next nz e = rw (← some-injective [] es e) refl
write_scaling_lists-read (values ∷ rows) scan es rest next (here, nz) e =
    let (deltas, made, _) = write_scaling_list-IsCoded values scan 8 (omega arith) here in
    elim (Option-cases (write_scaling_lists rows scan)) [
      | inl refused ↦ absurd (cc (rw (made, refused) at e))
      | inr (others, ok) ↦
          let is = some-injective _ es (rw (made, ok) at e) in
          rw (← is) (
            rw (feed, append_assoc)
              (write_scaling_list-read values scan 8 deltas (others ++ rest)
                  (λ entries.
                    scaling_lists (length rows) (length scan) (λ lists. next (entries ∷ lists)))
                  (omega arith) here made
                ∙ write_scaling_lists-read rows scan others rest
                    (λ lists. next (scanned values scan ∷ lists)) nz ok))
    ]

-- Six lists of 16 and two of 64, along the zig-zag scan.
pub small_lists :
    {A : Type 0} (rows : List (List ℕ)) (es rest : List Element) (next : List (List ℕ) → Decoder A)
    → length rows ≡ 6
    → All (λ values. NonZero (scanned values scan4x4)) rows
    → write_scaling_lists rows scan4x4 ≡ some es
    → feed (scaling_lists 6 16 next) (es ++ rest) ≡ feed (next (scanned_lists rows (zigzag 4))) rest
small_lists rows es rest next six nz e =
    subst
      (λ (scan : List ℕ).
        feed (scaling_lists 6 16 next) (es ++ rest) ≡ feed (next (scanned_lists rows scan)) rest)
      scan4x4_lem
      (subst
        (λ (n : ℕ).
          feed (scaling_lists n 16 next) (es ++ rest)
          ≡ feed (next (scanned_lists rows scan4x4)) rest)
        six (write_scaling_lists-read rows scan4x4 es rest next nz e))

pub large_lists :
    {A : Type 0} (rows : List (List ℕ)) (es rest : List Element) (next : List (List ℕ) → Decoder A)
    → length rows ≡ 2
    → All (λ values. NonZero (scanned values scan8x8)) rows
    → write_scaling_lists rows scan8x8 ≡ some es
    → feed (scaling_lists 2 64 next) (es ++ rest) ≡ feed (next (scanned_lists rows (zigzag 8))) rest
large_lists rows es rest next two nz e =
    subst
      (λ (scan : List ℕ).
        feed (scaling_lists 2 64 next) (es ++ rest) ≡ feed (next (scanned_lists rows scan)) rest)
      scan8x8_lem
      (subst
        (λ (n : ℕ).
          feed (scaling_lists n 64 next) (es ++ rest)
          ≡ feed (next (scanned_lists rows scan8x8)) rest)
        two (write_scaling_lists-read rows scan8x8 es rest next nz e))
