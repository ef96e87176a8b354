-- ===== src/Nal/RoundTrip.antt =====
-- `unescape_prefix` of src/hevc.c on the output of `emulation_prevent`.
use rockchip_vaapi.Base.{
  ℕ, zero, suc, ◌≤◌, ◌<◌, length, ◌≡◌, refl, ap, ◌∙◌, true, false, ◌&&◌, some, List, [], ◌∷◌, leb,
  ◌==◌, take, arith, Bool-cases, inl, inr,
}
use rockchip_vaapi.Nal.{
  emulation_prevent, emulation_loop, zeros_after, needs_escape, unescape_loop, unescape_prefix,
}
use rockchip_vaapi.Nal.Escape.{escape, emulation_loop_lem}

skip_step :
    (n y room : ℕ) (ys : List ℕ)
    → leb 2 n ≡ true
    → leb y 3 ≡ true
    → unescape_loop (3 ∷ y ∷ ys) n (suc room) ≡ unescape_loop (y ∷ ys) 0 (suc room)
unfolding unescape_loop
skip_step n y room ys two small = ground (arith, two, small)

copy_step :
    (n x room : ℕ) (xs : List ℕ)
    → (leb 2 n && x == 3) ≡ false
    → unescape_loop (x ∷ xs) n (suc room) ≡ x ∷ unescape_loop xs (zeros_after n x) room
unfolding unescape_loop
copy_step n x room xs plain = ground (arith, plain)

unescape_loop-escape :
    (n room : ℕ) (xs : List ℕ) → unescape_loop (escape n xs) n room ≡ take room xs
unescape_loop-escape n zero [] = unfold unescape_loop in refl
unescape_loop-escape n (suc room) [] = unfold unescape_loop in refl
unescape_loop-escape n zero (x ∷ xs) = unfold unescape_loop in ground arith
unescape_loop-escape n (suc room) (x ∷ xs) = elim (Bool-cases (needs_escape n x)) [
  | inl e ↦ rw e (
      skip_step n x room (escape (zeros_after 0 x) xs) (ground arith) (ground arith)
      ∙ copy_step 0 x room (escape (zeros_after 0 x) xs) refl
      ∙ ap (◌∷◌ x) (unescape_loop-escape (zeros_after 0 x) room xs))
  | inr e ↦ rw e (
      copy_step n x room (escape (zeros_after n x) xs) (ground arith)
      ∙ ap (◌∷◌ x) (unescape_loop-escape (zeros_after n x) room xs))
]

-- Where `emulation_prevent` succeeds, `unescape_prefix` gives back the first `dst_size` bytes of
-- its input, and so the whole input where that is no longer.
pub unescape_prefix-emulation_prevent :
    (src out : List ℕ) (capacity dst_size : ℕ)
    → emulation_prevent src capacity ≡ some out
    → unescape_prefix out dst_size ≡ take dst_size src
unfolding unescape_prefix emulation_prevent
unescape_prefix-emulation_prevent src out capacity dst_size e =
    let is : escape 0 src ≡ out = ground (arith, emulation_loop_lem src 0 capacity) in
    rw (← is) (unescape_loop-escape 0 dst_size src)

-- Bytes are not lost: the output of any input but the empty one is not empty.
pub emulation_prevent-length :
    (src out : List ℕ) (capacity : ℕ)
    → emulation_prevent src capacity ≡ some out
    → 0 < length src
    → 1 ≤ length out
unfolding emulation_prevent emulation_loop
emulation_prevent-length [] out capacity e lt = absurd (omega arith)
emulation_prevent-length (x ∷ xs) [] capacity e lt = ground (arith, e)
emulation_prevent-length (x ∷ xs) (y ∷ out) capacity e lt = omega arith

length-unescape_loop : (xs : List ℕ) (n room : ℕ) → length (unescape_loop xs n room) ≤ room
unfolding unescape_loop
length-unescape_loop [] n room = omega arith
length-unescape_loop (x ∷ xs) n zero = omega arith
length-unescape_loop (x ∷ xs) n (suc room) =
    ground
      (arith, length-unescape_loop xs 0 (suc room), length-unescape_loop xs (zeros_after n x) room)

-- No more bytes than there is room for.
pub length-unescape_prefix :
    (src : List ℕ) (dst_size : ℕ) → length (unescape_prefix src dst_size) ≤ dst_size
unfolding unescape_prefix
length-unescape_prefix src dst_size = length-unescape_loop src 0 dst_size
