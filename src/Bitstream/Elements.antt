-- ===== src/Bitstream/Elements.antt =====
-- Syntax elements: the calls of the bit writer that write one value each, and reading them back
-- with the reader of src/hevc.c.
use rockchip_vaapi.Base.{
  ℕ, ◌+◌, ◌-◌, ◌*◌, ◌%◌, ◌^◌, ◌≤◌, ◌<◌, ◌≡◌, refl, ◌∙◌, Option, some, List, [], ◌∷◌, ◌++◌, arith,
  length, length-append, append_assoc, append-nil,
}
use native.Mathlib.Nat.{mod-eq_of_lt, pow-le-pow_right}
use rockchip_vaapi.Base.Int.{ℤ}
use rockchip_vaapi.Bitstream.{BsWriter, bs_write, bs_write_ue, bs_write_se, unsigned_of}
use rockchip_vaapi.Bitstream.Content.{
  Holds, bits_of, length-bits_of, bs_write-Holds, bs_write-capacity,
}
use rockchip_vaapi.Bitstream.Golomb.{
  ue_bits, length-ue_bits, length-ue_bits-le, ue_zeros, bs_write_ue-Holds, bs_write_ue-capacity,
}
use rockchip_vaapi.Bitstream.Stands.{Stands, Stands-append, Stands-within}
use rockchip_vaapi.Hevc.Reader.{BitReader, br_read_bits, br_read_ue}
use rockchip_vaapi.Hevc.Golomb.{ahead, Ahead, br_read_bits_lem, br_read_ue_lem}

-- `bs_write(bs, v, n)`, `bs_write_ue(bs, v)` and `bs_write_se(bs, v)`.
pub data Element : Type 0 where
  u : ℕ → ℕ → Element
  ue : ℕ → Element
  se : ℤ → Element

abbrev pub put : Element → BsWriter → BsWriter
put (u v n) bs = bs_write bs v n
put (ue v) bs = bs_write_ue bs v
put (se v) bs = bs_write_se bs v

-- The calls in order.
pub put_all : List Element → BsWriter → BsWriter
put_all [] bs = bs
put_all (e ∷ es) bs = put_all es (put e bs)

-- The number that stands for the value in the stream.
abbrev pub coded : Element → ℕ
coded (u v n) = v
coded (ue v) = v
coded (se v) = unsigned_of v

abbrev pub element_bits : Element → List ℕ
element_bits (u v n) = bits_of v n
element_bits (ue v) = ue_bits v
element_bits (se v) = ue_bits (unsigned_of v)

abbrev pub all_bits : List Element → List ℕ
all_bits [] = []
all_bits (e ∷ es) = element_bits e ++ all_bits es

-- The value fits its field; Golomb codes are short of the codes that the reader misreads.
abbrev pub IsFit : Element → Type 0
IsFit (u v n) = (v < 2 ^ n) × (n ≤ 32)
IsFit (ue v) = v < 2 ^ 31 - 1
IsFit (se v) = unsigned_of v < 2 ^ 31 - 1

abbrev pub AllFit : List Element → Type 0
AllFit [] = Unit
AllFit (e ∷ es) = IsFit e × AllFit es

put-capacity : (e : Element) (bs : BsWriter) → (put e bs).capacity ≡ bs.capacity
unfolding bs_write_se
put-capacity (u v n) bs = bs_write-capacity bs v n
put-capacity (ue v) bs = bs_write_ue-capacity bs v
put-capacity (se v) bs = bs_write_ue-capacity bs (unsigned_of v)

put-Holds :
    (e : Element) (bs : BsWriter) (bits : List ℕ)
    → Holds bs bits
    → IsFit e
    → length bits + length (element_bits e) ≤ 8 * bs.capacity
    → Holds (put e bs) (bits ++ element_bits e)
unfolding bs_write_se
put-Holds (u v n) bs bits h fit room =
    bs_write-Holds bs bits v n h (omega (arith, length-bits_of v n))
put-Holds (ue v) bs bits h fit room = bs_write_ue-Holds bs bits v h (omega arith) room
put-Holds (se v) bs bits h fit room = bs_write_ue-Holds bs bits (unsigned_of v) h (omega arith) room

-- Elements that fit, in value and in room, are all written one behind the other.
pub put_all-Holds :
    (es : List Element) (bs : BsWriter) (bits : List ℕ)
    → Holds bs bits
    → AllFit es
    → length bits + length (all_bits es) ≤ 8 * bs.capacity
    → Holds (put_all es bs) (bits ++ all_bits es) × ((put_all es bs).capacity ≡ bs.capacity)
unfolding put_all
put_all-Holds [] bs bits h fit room = (rw append-nil h, refl)
put_all-Holds (e ∷ es) bs bits h (fit, fits) room =
    let cap = put-capacity e bs in
    let one =
      put-Holds e bs bits h fit (omega (arith, length-append (element_bits e) (all_bits es))) in
    let (all, cap') = put_all-Holds es (put e bs) (bits ++ element_bits e) one fits (
      omega (
        arith,
        length-append bits (element_bits e),
        length-append (element_bits e) (all_bits es),
        cap,
      )) in
    (rw append_assoc at all, cap' ∙ cap)

-- Reading needs the kind of an element only.
pub data Kind : Type 0 where
  fixed : ℕ → Kind
  golomb : Kind

abbrev pub kind_of : Element → Kind
kind_of (u v n) = fixed n
kind_of (ue v) = golomb
kind_of (se v) = golomb

abbrev pub read_kind : Kind → BitReader → Option (ℕ × BitReader)
read_kind (fixed n) br = br_read_bits br n
read_kind golomb br = br_read_ue br

-- Reading one kind after the other gives the coded values of the elements.
abbrev pub Reads : BitReader → List Element → Type 0
Reads br [] = Unit
Reads br (e ∷ es) =
    (next : BitReader) × (read_kind (kind_of e) br ≡ some (coded e, next)) × Reads next es

two_pos : 0 < 2
two_pos = omega arith

read_golomb :
    (v : ℕ) (br : BitReader) (rest : List ℕ)
    → v < 2 ^ 31 - 1
    → br.bit ≤ br.size * 8
    → Ahead br (ue_bits v ++ rest)
    → (n : ℕ) × (br_read_ue br ≡ some (v, ahead br n))
      × (br.bit + n ≤ br.size * 8)
      × Stands br.bytes br.size (br.bit + n) rest
read_golomb v br rest fit within s =
    let (here, behind) = Stands-append br.bytes br.size br.bit (ue_bits v) rest s in
    let end = Stands-within br.bytes br.size br.bit (ue_bits v) within here in
    (
      2 * ue_zeros v + 1,
      ground (arith, fit, br_read_ue_lem v br rest (omega arith) s),
      omega (arith, end, length-ue_bits v),
      rw (length-ue_bits v) at behind,
    )

read_element :
    (e : Element) (br : BitReader) (rest : List ℕ)
    → IsFit e
    → br.bit ≤ br.size * 8
    → Ahead br (element_bits e ++ rest)
    → (n : ℕ) × (read_kind (kind_of e) br ≡ some (coded e, ahead br n))
      × (br.bit + n ≤ br.size * 8)
      × Stands br.bytes br.size (br.bit + n) rest
read_element (u v n) br rest (lt, le) within s =
    let (here, behind) = Stands-append br.bytes br.size br.bit (bits_of v n) rest s in
    let end = Stands-within br.bytes br.size br.bit (bits_of v n) within here in
    let room : br.bit + n ≤ br.size * 8 = omega (arith, end, length-bits_of v n) in
    let low : v % 2 ^ n ≡ v = mod-eq_of_lt lt in
    let word : v < 2 ^ 32 = omega (arith, pow-le-pow_right {n = 2} two_pos le) in
    (
      n,
      rw low at (br_read_bits_lem n v br le room here (rw low word)),
      room,
      rw (length-bits_of v n) at behind,
    )
read_element (ue v) br rest fit within s = read_golomb v br rest fit within s
read_element (se v) br rest fit within s = read_golomb (unsigned_of v) br rest fit within s

-- What all elements write, read back one after the other.
pub all_bits-Reads :
    (es : List Element) (br : BitReader)
    → AllFit es
    → br.bit ≤ br.size * 8
    → Ahead br (all_bits es)
    → Reads br es
all_bits-Reads [] br fit within s = tt
all_bits-Reads (e ∷ es) br (fit, fits) within s =
    let (n, r, within', s') = read_element e br (all_bits es) fit within s in
    (ahead br n, r, all_bits-Reads es (ahead br n) fits within' s')

pub AllFit-append : (es fs : List Element) → AllFit es → AllFit fs → AllFit (es ++ fs)
AllFit-append [] fs a b = b
AllFit-append (e ∷ es) fs (h, a) b = (h, AllFit-append es fs a b)

pub length-all_bits-append :
    (es fs : List Element)
    → length (all_bits (es ++ fs)) ≡ length (all_bits es) + length (all_bits fs)
length-all_bits-append [] fs = omega arith
length-all_bits-append (e ∷ es) fs = omega (
  arith,
  length-append (element_bits e) (all_bits (es ++ fs)),
  length-append (element_bits e) (all_bits es),
  length-all_bits-append es fs,
)

length-element_bits-le : (e : Element) → IsFit e → length (element_bits e) ≤ 61
length-element_bits-le (u v n) (lt, le) = omega (arith, length-bits_of v n)
length-element_bits-le (ue v) lt = omega (arith, length-ue_bits-le 30 v (omega arith) (omega arith))
length-element_bits-le (se v) lt =
    omega (arith, length-ue_bits-le 30 (unsigned_of v) (omega arith) (omega arith))

-- No element takes more than 61 bits.
pub length-all_bits-le : (es : List Element) → AllFit es → length (all_bits es) ≤ 61 * length es
length-all_bits-le [] a = omega arith
length-all_bits-le (e ∷ es) (h, a) = omega (
  arith,
  length-append (element_bits e) (all_bits es),
  length-element_bits-le e h,
  length-all_bits-le es a,
)
