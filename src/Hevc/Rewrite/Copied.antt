-- ===== src/Hevc/Rewrite/Copied.antt =====
-- What `copy_bits` of src/hevc.c writes.
use rockchip_vaapi.Base.{
  ℕ, zero, suc, ◌+◌, ◌-◌, ◌*◌, ◌%◌, ◌≤◌, ◌≡◌, refl, ap, ◌∙◌, false, some, List, [], ◌∷◌, ◌++◌,
  arith, ltb, length, length-append, append-nil, append_assoc,
}
use rockchip_vaapi.Bitstream.{BsWriter, bs_write1}
use rockchip_vaapi.Bitstream.Content.{Holds, bit_at, bs_write1-Holds, bs_write1-capacity}
use rockchip_vaapi.Hevc.Rewrite.{copy_loop, copy_bits}

-- Some bits of a buffer, from a position on.
abbrev pub bits_from : List ℕ → ℕ → ℕ → List ℕ
bits_from src bit zero = []
bits_from src bit (suc count) = bit_at src bit ∷ bits_from src (bit + 1) count

pub length-bits_from : (src : List ℕ) (bit count : ℕ) → length (bits_from src bit count) ≡ count
length-bits_from src bit zero = refl
length-bits_from src bit (suc count) = ap suc (length-bits_from src (bit + 1) count)

pub copy_loop-Holds :
    (count : ℕ) (src : List ℕ) (bit : ℕ) (bs : BsWriter) (bits : List ℕ)
    → Holds bs bits
    → length bits + count ≤ 8 * bs.capacity
    → Holds (copy_loop count src bit bs) (bits ++ bits_from src bit count)
      × ((copy_loop count src bit bs).capacity ≡ bs.capacity)
unfolding copy_loop
copy_loop-Holds zero src bit bs bits h room = (rw append-nil h, refl)
copy_loop-Holds (suc count) src bit bs bits h room =
    let b : ℕ = bit_at src bit in
    let same : b % 2 ≡ b = omega arith in
    let one : Holds (bs_write1 bs b) (bits ++ b ∷ []) =
      rw same at (bs_write1-Holds bs bits b h (omega (arith, h.position, h.bit_bound))) in
    let (all, cap) =
      copy_loop-Holds count src (bit + 1) (bs_write1 bs b) (bits ++ b ∷ []) one
        (omega (arith, length-append bits (b ∷ []), bs_write1-capacity bs b)) in
    (rw append_assoc at all, cap ∙ bs_write1-capacity bs b)

-- A copy that has room appends the bits between the two positions.
pub copy_bits-Holds :
    (src : List ℕ) (start end : ℕ) (bs : BsWriter) (bits : List ℕ)
    → start ≤ end
    → Holds bs bits
    → length bits + (end - start) ≤ 8 * bs.capacity
    → (next : BsWriter) × (copy_bits bs src start end ≡ some next)
      × Holds next (bits ++ bits_from src start (end - start))
      × (next.capacity ≡ bs.capacity)
unfolding copy_bits
copy_bits-Holds src start end bs bits le h room =
    let ordered : ltb end start ≡ false = ground (arith, le) in
    let (all, cap) = copy_loop-Holds (end - start) src start bs bits h room in
    (copy_loop (end - start) src start bs, rw ordered refl, all, cap)
