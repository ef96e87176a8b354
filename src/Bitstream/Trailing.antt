-- ===== src/Bitstream/Trailing.antt =====
-- The end of a parameter set: a bit 1 and zeros up to a whole byte.
use rockchip_vaapi.Base.{
  ℕ, zero, suc, ◌+◌, ◌≤◌, ◌<◌, ◌≡◌, refl, ◌∙◌, List, [], ◌∷◌, ◌++◌, arith, append_assoc, append-nil,
  ◌==◌, inl, inr, Bool-cases, true, replicate, ◌⊎◌,
}
use rockchip_vaapi.Bitstream.{BsWriter, bs_write1, align_loop, bs_rbsp_trailing}
use rockchip_vaapi.Bitstream.Content.{Holds, bs_write1-Holds, bs_write1-capacity}

one_more :
    (bs : BsWriter) (bit : ℕ)
    → bs.bit_pos < 8
    → bs.byte_pos < bs.capacity
    → (((bs_write1 bs bit).bit_pos ≡ 0) × (bs.bit_pos ≡ 7))
      ⊎ (((bs_write1 bs bit).bit_pos ≡ bs.bit_pos + 1)
          × ((bs_write1 bs bit).byte_pos ≡ bs.byte_pos))
unfolding bs_write1
one_more bs bit low room = ground arith

-- The loop writes nothing at the start of a byte, and otherwise the zeros that are left of it.
abbrev Pads : ℕ → ℕ → Type 0
Pads at n = ((at ≡ 0) × (n ≡ 0)) ⊎ ((0 < at) × (at + n ≡ 8))

align_loop-Holds :
    (fuel : ℕ) (bs : BsWriter) (bits : List ℕ)
    → Holds bs bits
    → (bs.bit_pos ≡ 0) ⊎ ((8 ≤ bs.bit_pos + fuel) × (bs.byte_pos < bs.capacity))
    → (n : ℕ) × Pads bs.bit_pos n
      × Holds (align_loop fuel bs) (bits ++ replicate n 0)
      × ((align_loop fuel bs).bit_pos ≡ 0)
unfolding align_loop
align_loop-Holds zero bs bits h near =
    let start : bs.bit_pos ≡ 0 = omega (arith, h.bit_bound) in
    (0, inl (start, refl), rw append-nil h, start)
align_loop-Holds (suc fuel) bs bits h (inl done) =
    let test : (bs.bit_pos == 0) ≡ true = ground arith in
    (0, inl (done, refl), rw (test, append-nil) h, rw test done)
align_loop-Holds (suc fuel) bs bits h (inr (near, room)) = elim (Bool-cases (bs.bit_pos == 0)) [
  | inl done ↦
      (0, inl (ground (arith, done), refl), rw (done, append-nil) h, rw done (ground arith))
  | inr more ↦
      let next = one_more bs 0 h.bit_bound room in
      let (n, pads, w, aligned) =
        align_loop-Holds fuel (bs_write1 bs 0) (bits ++ 0 ∷ []) (bs_write1-Holds bs bits 0 h room)
          (elim next [
            | inl (z, _) ↦ inl z
            | inr (b, y) ↦ inr (omega arith, omega (arith, y, bs_write1-capacity bs 0))
          ]) in
      let started : 0 < bs.bit_pos = ground (arith, more) in
      (
        suc n,
        inr (started, omega (arith, pads, next)),
        rw more (rw append_assoc at w),
        rw more aligned,
      )
]

-- The trailing bits behind what a writer holds, where a byte is left: a 1 and at most 7 zeros, which
-- are those that bring the writer to the start of the next byte.
pub bs_rbsp_trailing-Holds :
    (bs : BsWriter) (bits : List ℕ)
    → Holds bs bits
    → bs.byte_pos < bs.capacity
    → (n : ℕ) × (n ≤ 7)
      × Holds (bs_rbsp_trailing bs) (bits ++ 1 ∷ replicate n 0)
      × ((bs_rbsp_trailing bs).bit_pos ≡ 0)
unfolding bs_rbsp_trailing
bs_rbsp_trailing-Holds bs bits h room =
    let w = bs_write1-Holds bs bits 1 h room in
    let next = one_more bs 1 h.bit_bound room in
    let (n, pads, w', aligned) = align_loop-Holds 8 (bs_write1 bs 1) (bits ++ 1 ∷ []) w (elim next [
      | inl (z, _) ↦ inl z
      | inr (b, y) ↦ inr (omega arith, omega (arith, y, bs_write1-capacity bs 1))
    ]) in
    (n, omega (arith, pads), rw append_assoc at w', aligned)

align_loop-capacity : (fuel : ℕ) (bs : BsWriter) → (align_loop fuel bs).capacity ≡ bs.capacity
unfolding align_loop
align_loop-capacity zero bs = refl
align_loop-capacity (suc fuel) bs =
    ground (arith, align_loop-capacity fuel (bs_write1 bs 0), bs_write1-capacity bs 0)

pub bs_rbsp_trailing-capacity : (bs : BsWriter) → (bs_rbsp_trailing bs).capacity ≡ bs.capacity
unfolding bs_rbsp_trailing
bs_rbsp_trailing-capacity bs = align_loop-capacity 8 (bs_write1 bs 1) ∙ bs_write1-capacity bs 1
