-- ===== src/Bitstream/Stands.antt =====
-- Bits that stand in a buffer at a position, as a reader meets them.
use rockchip_vaapi.Base.{
  ℕ, suc, ◌+◌, ◌-◌, ◌*◌, ◌/◌, ◌%◌, ◌^◌, ◌<◌, ◌≤◌, ◌≡◌, sym, ap, ◌∙◌, List, [], ◌∷◌, ◌++◌, arith,
  length, length-append, append_assoc, get_or, get_or-append,
}
use rockchip_vaapi.Bitstream.{BsWriter, bs_bytes}
use rockchip_vaapi.Bitstream.Content.{Holds, bit_at}

-- The bits stand in the buffer from `pos` on, within its size.
abbrev pub Stands : List ℕ → ℕ → ℕ → List ℕ → Type 0
Stands bytes size pos [] = Unit
Stands bytes size pos (b ∷ bits) =
    (pos < size * 8) × (bit_at bytes pos ≡ b) × Stands bytes size (pos + 1) bits

pub Stands-append :
    (bytes : List ℕ) (size pos : ℕ) (xs ys : List ℕ)
    → Stands bytes size pos (xs ++ ys)
    → Stands bytes size pos xs × Stands bytes size (pos + length xs) ys
Stands-append bytes size pos [] ys s = let e : pos + 0 ≡ pos = omega arith in (tt, rw e s)
Stands-append bytes size pos (x ∷ xs) ys (lt, here, s) =
    let (l, r) = Stands-append bytes size (pos + 1) xs ys s in
    let e : pos + suc (length xs) ≡ pos + 1 + length xs = omega arith in ((lt, here, l), rw e r)

-- All that a writer holds lies within the bytes that it reports.
pub bs_bytes-le : (bs : BsWriter) (bits : List ℕ) → Holds bs bits → length bits ≤ bs_bytes bs * 8
unfolding bs_bytes
bs_bytes-le bs bits h = ground (arith, h.position, h.bit_bound)

-- The bytes that it reports have less than a byte of padding.
pub bs_bytes-lt :
    (bs : BsWriter) (bits : List ℕ) → Holds bs bits → bs_bytes bs * 8 < length bits + 8
unfolding bs_bytes
bs_bytes-lt bs bits h = ground (arith, h.position, h.bit_bound)

-- What a writer holds stands in its buffer.
pub Holds-Stands :
    (bs : BsWriter) (size : ℕ) (xs ys : List ℕ)
    → Holds bs (xs ++ ys)
    → length (xs ++ ys) ≤ size * 8
    → Stands bs.buffer size (length xs) ys
Holds-Stands bs size xs [] h le = tt
Holds-Stands bs size xs (y ∷ ys) h le =
    let regroup = sym (append_assoc xs (y ∷ []) ys) in
    let next : length (xs ++ y ∷ []) ≡ length xs + 1 = length-append xs (y ∷ []) in
    let none_over : length xs - length xs ≡ 0 = omega arith in
    (
      omega (arith, length-append xs (y ∷ ys)),
      h.content (length xs) ∙ ground (arith, get_or-append xs (y ∷ ys) (length xs) 0, none_over),
      rw next at (
          Holds-Stands bs size (xs ++ y ∷ []) ys (rw regroup at h)
            (omega (arith, ap length regroup))),
    )

pub Stands-within :
    (bytes : List ℕ) (size pos : ℕ) (bits : List ℕ)
    → pos ≤ size * 8
    → Stands bytes size pos bits
    → pos + length bits ≤ size * 8
Stands-within bytes size pos [] le s = omega arith
Stands-within bytes size pos (b ∷ bits) le (lt, here, s) =
    omega (arith, Stands-within bytes size (pos + 1) bits (omega arith) s)

-- Bits that stand in a buffer stand in any buffer with the same bytes up to its size.
pub Stands-same :
    (xs ys : List ℕ) (size pos : ℕ) (bits : List ℕ)
    → ((i : ℕ) → i < size → get_or ys i 0 ≡ get_or xs i 0)
    → Stands xs size pos bits
    → Stands ys size pos bits
Stands-same xs ys size pos [] same s = tt
Stands-same xs ys size pos (b ∷ bits) same (lt, here, s) = (
  lt,
  ap (λ (byte : ℕ). byte / 2 ^ (7 - pos % 8) % 2) (same (pos / 8) (omega arith)) ∙ here,
  Stands-same xs ys size (pos + 1) bits same s,
)

pub bs_bytes_aligned :
    (bs : BsWriter) (bits : List ℕ) → Holds bs bits → bs.bit_pos ≡ 0 → 8 * bs_bytes bs ≡ length bits
unfolding bs_bytes
bs_bytes_aligned bs bits h aligned = ground (arith, h.position, aligned)
