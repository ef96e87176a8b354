-- ===== src/Bitstream/Content.antt =====
-- What the writer's buffer holds: the bits written so far, and zeros behind them.
use rockchip_vaapi.Base.{
  ℕ, zero, suc, ◌+◌, ◌-◌, ◌*◌, ◌/◌, ◌%◌, ◌^◌, ◌≤◌, ◌<◌, ◌≡◌, refl, ap, ◌∙◌, bit_or, List, [], ◌∷◌,
  ◌++◌, arith, length, length-set, length-append, length-replicate, get_or, set, get_or-set_self,
  get_or-set_ne, get_or-replicate, get_or_past, get_or-snoc, ◌==◌, if◌then◌else◌, Bool, true, not,
  ◌||◌, append-nil, append_assoc,
}
use rockchip_vaapi.Base.Bits.{passes, passes_at}
use native.Mathlib.Decide.{ℕ_discrete}
use native.Mathlib.Nat.{zero-div}
use rockchip_vaapi.Bitstream.{BsWriter, bs_init, bs_write1, bs_write}

-- Bit `q` of a byte, from the top.
abbrev pub byte_bit : ℕ → ℕ → ℕ
byte_bit byte q = byte / 2 ^ (7 - q) % 2

-- Bit `k` of a buffer, as the readers read it: `(data[k / 8] >> (7 - k % 8)) & 1`.
abbrev pub bit_at : List ℕ → ℕ → ℕ
bit_at buffer k = byte_bit (get_or buffer (k / 8) 0) (k % 8)

pub record Holds (bs : BsWriter) (bits : List ℕ) : Type 0 where
  pub bit_bound : bs.bit_pos < 8
  pub position : 8 * bs.byte_pos + bs.bit_pos ≡ length bits
  pub sized : length bs.buffer ≡ bs.capacity
  pub bytes : (i : ℕ) → get_or bs.buffer i 0 < 256
  pub content : (k : ℕ) → bit_at bs.buffer k ≡ get_or bits k 0

-- Adding a bit to a byte where it is clear: every other bit stays. All 256 bytes are checked.
or_bit_ok : ℕ → ℕ → ℕ → ℕ → Bool
or_bit_ok byte bit p q =
    not (byte_bit byte p == 0)
    || byte_bit (bit_or byte (bit * 2 ^ (7 - p)) % 256) q
      == (if p == q then bit else byte_bit byte q)

or_bit_table :
    passes (λ byte. passes (λ bit. passes (λ p. passes (λ q. or_bit_ok byte bit p q) 8) 8) 2) 256
    ≡ true
unfolding passes or_bit_ok
or_bit_table = refl

or_bit :
    (byte bit p q : ℕ)
    → byte < 256
    → bit < 2
    → p < 8
    → q < 8
    → byte_bit byte p ≡ 0
    → byte_bit (bit_or byte (bit * 2 ^ (7 - p)) % 256) q ≡ (if p == q then bit else byte_bit byte q)
unfolding or_bit_ok
or_bit byte bit p q hb hd hp hq clear =
    let at_byte = passes_at _ 256 or_bit_table byte hb in
    let at_bit = passes_at _ 2 at_byte bit hd in
    let at_p = passes_at _ 8 at_bit p hp in
    let row = passes_at _ 8 at_p q hq in ground (arith, row, clear)

pub bs_init-capacity : (capacity : ℕ) → (bs_init capacity).capacity ≡ capacity
unfolding bs_init
bs_init-capacity capacity = refl

-- A writer that has just been set up holds nothing.
pub bs_init-Holds : (capacity : ℕ) → Holds (bs_init capacity) []
unfolding bs_init
bs_init-Holds capacity = record {
  bit_bound = omega arith;
  position = omega arith;
  sized = length-replicate capacity 0;
  bytes = λ i. omega (arith, get_or-replicate {A = ℕ} capacity i 0);
  content = λ k.
      ap (λ (b : ℕ). byte_bit b (k % 8)) (get_or-replicate capacity (k / 8) 0)
      ∙ zero_bits (7 - k % 8);
}
  where
    zero_bits : (n : ℕ) → 0 / 2 ^ n % 2 ≡ 0
    zero_bits n = rw zero-div refl

module _ (bs : BsWriter) (bits : List ℕ) (bit : ℕ) (h : Holds bs bits)
    (room : bs.byte_pos < bs.capacity) where
  byte : ℕ
  byte = bit_or (get_or bs.buffer bs.byte_pos 0) (bit % 2 * 2 ^ (7 - bs.bit_pos)) % 256

  stored : List ℕ
  unfolding byte
  stored = set bs.buffer bs.byte_pos byte

  stored_bytes : (i : ℕ) → get_or stored i 0 < 256
  unfolding stored byte
  stored_bytes i = elim (ℕ_discrete bs.byte_pos i) [
    | yes same ↦ rw (← same) (
        rw (get_or-set_self bs.buffer bs.byte_pos byte 0 (omega (arith, h.sized, room)))
          (omega arith))
    | no ne ↦ rw (get_or-set_ne bs.buffer bs.byte_pos i byte 0 ne) (h.bytes i)
  ]

  clear : byte_bit (get_or bs.buffer bs.byte_pos 0) bs.bit_pos ≡ 0
  clear =
      let q : length bits / 8 ≡ bs.byte_pos = omega (arith, h.position, h.bit_bound) in
      let r : length bits % 8 ≡ bs.bit_pos = omega (arith, h.position, h.bit_bound) in
      rw (q, r) at (h.content (length bits)) ∙ get_or_past bits (length bits) 0 (omega arith)

  stored_bits : (k : ℕ) → bit_at stored k ≡ get_or (bits ++ bit % 2 ∷ []) k 0
  unfolding stored byte
  stored_bits k = elim (ℕ_discrete bs.byte_pos (k / 8)) [
    | yes same ↦ rw (← same) (
        rw (get_or-set_self bs.buffer bs.byte_pos byte 0 (omega (arith, h.sized, room))) (
          ground (
            arith,
            or_bit (get_or bs.buffer bs.byte_pos 0) (bit % 2) bs.bit_pos (k % 8),
            h.bytes bs.byte_pos,
            clear,
            h.content k,
            ap (λ (i : ℕ). byte_bit (get_or bs.buffer i 0) (k % 8)) same,
            get_or-snoc bits (bit % 2) k 0,
            h.position,
            h.bit_bound,
          )))
    | no ne ↦
        rw (get_or-set_ne bs.buffer bs.byte_pos (k / 8) byte 0 ne)
          (ground (arith, h.content k, get_or-snoc bits (bit % 2) k 0, h.position, h.bit_bound))
  ]

  -- What the branches of `bs_write1` leave, a byte that is full or not.
  fields :
      ((bs_write1 bs bit).buffer ≡ stored)
      × ((bs_write1 bs bit).capacity ≡ bs.capacity)
      × ((bs_write1 bs bit).bit_pos < 8)
      × (8 * (bs_write1 bs bit).byte_pos + (bs_write1 bs bit).bit_pos ≡ length bits + 1)
  unfolding bs_write1 stored byte
  fields = (
    ground arith,
    ground arith,
    ground (arith, h.bit_bound),
    ground (arith, h.position, h.bit_bound),
  )

  -- One bit more, where a byte is left for it.
  pub bs_write1-Holds : Holds (bs_write1 bs bit) (bits ++ bit % 2 ∷ [])
  bs_write1-Holds =
      let (buffer, capacity, bound, position) = fields in
      record {
        bit_bound = bound;
        position = omega (arith, position, length-append bits (bit % 2 ∷ []));
        sized =
            rw (buffer, capacity)
              (unfold stored in (length-set bs.buffer bs.byte_pos byte ∙ h.sized));
        bytes = λ i. rw buffer (stored_bytes i);
        content = λ k. rw buffer (stored_bits k);
      }

-- The bits of `val` from bit `n - 1` down.
abbrev pub bits_of : ℕ → ℕ → List ℕ
bits_of val zero = []
bits_of val (suc i) = val / 2 ^ i % 2 ∷ bits_of val i

pub length-bits_of : (val n : ℕ) → length (bits_of val n) ≡ n
length-bits_of val zero = refl
length-bits_of val (suc n) = ap suc (length-bits_of val n)

pub bs_write1-capacity : (bs : BsWriter) (bit : ℕ) → (bs_write1 bs bit).capacity ≡ bs.capacity
unfolding bs_write1
bs_write1-capacity bs bit = ground arith

pub bs_write-capacity : (bs : BsWriter) (val n : ℕ) → (bs_write bs val n).capacity ≡ bs.capacity
unfolding bs_write
bs_write-capacity bs val zero = refl
bs_write-capacity bs val (suc n) =
    bs_write-capacity (bs_write1 bs (val / 2 ^ n % 2)) val n
    ∙ bs_write1-capacity bs (val / 2 ^ n % 2)

-- A write that fits appends the low `n` bits of the value, highest first.
pub bs_write-Holds :
    (bs : BsWriter) (bits : List ℕ) (val n : ℕ)
    → Holds bs bits
    → length bits + n ≤ 8 * bs.capacity
    → Holds (bs_write bs val n) (bits ++ bits_of val n)
unfolding bs_write
bs_write-Holds bs bits val zero h fits = rw append-nil h
bs_write-Holds bs bits val (suc n) h fits =
    let bit : ℕ = val / 2 ^ n % 2 in
    let same : bit % 2 ≡ bit = omega arith in
    let one : Holds (bs_write1 bs bit) (bits ++ bit ∷ []) =
      rw same at (bs_write1-Holds bs bits bit h (omega (arith, h.position, h.bit_bound))) in
    rw append_assoc at (
      bs_write-Holds (bs_write1 bs bit) (bits ++ bit ∷ []) val n one
        (omega (arith, length-append bits (bit ∷ []), bs_write1-capacity bs bit)))
