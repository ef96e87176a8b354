-- ===== src/Nal/Escape.antt =====
-- Emulation prevention of src/h264.c and src/hevc.c: its length and start codes.
use rockchip_vaapi.Base.{
  ℕ, zero, suc, ◌+◌, ◌-◌, ◌*◌, ◌≤◌, ◌≡◌, refl, ap, ◌∙◌, min, Bool, true, false, ◌&&◌, ◌||◌, none,
  some, List, [], ◌∷◌, ltb, leb, ◌==◌, if◌then◌else◌, length, arith, Bool-cases, inl, inr,
}
use rockchip_vaapi.Nal.{emulation_loop, emulation_prevent, emit, zeros_after, needs_escape}

-- The escaped bytes, with no bound on the output.
abbrev pub escape : ℕ → List ℕ → List ℕ
escape n [] = []
escape n (x ∷ xs) =
    let rest = escape (zeros_after (if needs_escape n x then 0 else n) x) xs in
    if needs_escape n x then 3 ∷ x ∷ rest else x ∷ rest

-- At most one byte is added for every two.
pub length-escape : (n : ℕ) (xs : List ℕ) → 2 * length (escape n xs) ≤ 3 * length xs + min n 2
length-escape n [] = omega arith
length-escape n (x ∷ xs) =
    ground (arith, length-escape (zeros_after (if needs_escape n x then 0 else n) x) xs)

emit_lem :
    (x room : ℕ) (ys : List ℕ)
    → emit x room (if leb (length ys) (room - 1) then some ys else none)
      ≡ (if leb (suc (length ys)) room then some (x ∷ ys) else none)
emit_lem x zero ys = ground arith
emit_lem x (suc room) ys = ground arith

-- With room for the escaped bytes, those are written; without, nothing is returned.
pub emulation_loop_lem :
    (xs : List ℕ) (n room : ℕ)
    → emulation_loop xs n room
      ≡ (if leb (length (escape n xs)) room then some (escape n xs) else none)
unfolding emulation_loop
emulation_loop_lem [] n room = ground arith
emulation_loop_lem (x ∷ xs) n room = elim (Bool-cases (needs_escape n x)) [
  | inl e ↦
      let ih = emulation_loop_lem xs (zeros_after 0 x) (room - 1 - 1) in
      rw e (
        rw ih (
          ap (emit 3 room) (emit_lem x (room - 1) (escape (zeros_after 0 x) xs))
          ∙ emit_lem 3 room (x ∷ escape (zeros_after 0 x) xs)))
  | inr e ↦
      let ih = emulation_loop_lem xs (zeros_after n x) (room - 1) in
      rw e (rw ih (emit_lem x room (escape (zeros_after n x) xs)))
]

-- Three bytes that stand at the front: 0, 0 and at most 2.
abbrev pub starts_code : List ℕ → Bool
starts_code (a ∷ b ∷ c ∷ rest) = a == 0 && (b == 0 && leb c 2)
starts_code _ = false

abbrev pub has_start_code : List ℕ → Bool
has_start_code [] = false
has_start_code (x ∷ xs) = starts_code (x ∷ xs) || has_start_code xs

-- After two zeros no byte below 3 follows.
abbrev Guarded : ℕ → List ℕ → Type 0
Guarded n [] = Unit
Guarded n (x ∷ xs) = ((ltb n 2 || leb 3 x) ≡ true) × Guarded (zeros_after n x) xs

escape-Guarded : (n : ℕ) (xs : List ℕ) → Guarded n (escape n xs)
escape-Guarded n [] = tt
escape-Guarded n (x ∷ xs) = elim (Bool-cases (needs_escape n x)) [
  | inl e ↦ rw e (ground arith, (refl, escape-Guarded (zeros_after 0 x) xs))
  | inr e ↦ rw e (ground arith, escape-Guarded (zeros_after n x) xs)
]

Guarded-no_start : (n : ℕ) (xs : List ℕ) → Guarded n xs → has_start_code xs ≡ false
Guarded-no_start n [] g = refl
Guarded-no_start n (x ∷ []) g = refl
Guarded-no_start n (x ∷ y ∷ []) g = refl
Guarded-no_start n (x ∷ y ∷ w ∷ rest) (a, (b, (c, g))) =
    ground (arith, Guarded-no_start (zeros_after n x) (y ∷ w ∷ rest) (b, (c, g)))

-- No start code stands in what `emulation_prevent` writes, and it writes at most three bytes for
-- every two: with that much room it does not fail.
pub emulation_prevent_hides :
    (src : List ℕ) (capacity : ℕ)
    → 3 * length src ≤ 2 * capacity
    → (out : List ℕ) × (emulation_prevent src capacity ≡ some out)
      × (has_start_code out ≡ false)
      × (length src ≤ length out)
      × (2 * length out ≤ 3 * length src)
unfolding emulation_prevent
emulation_prevent_hides src capacity room =
    let bound : 2 * length (escape 0 src) ≤ 3 * length src = omega (arith, length-escape 0 src) in
    (
      escape 0 src,
      rw (emulation_loop_lem src 0 capacity) (ground (arith, bound)),
      Guarded-no_start 0 (escape 0 src) (escape-Guarded 0 src),
      length-le-escape 0 src,
      bound,
    )
  where
    length-le-escape : (n : ℕ) (xs : List ℕ) → length xs ≤ length (escape n xs)
    length-le-escape n [] = omega arith
    length-le-escape n (x ∷ xs) =
        ground (arith, length-le-escape (zeros_after (if needs_escape n x then 0 else n) x) xs)
