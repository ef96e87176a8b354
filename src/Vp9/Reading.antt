-- ===== src/Vp9/Reading.antt =====
-- `read_bits` of src/vp9.c: what it reads where known bits stand, and what it depends on.
use rockchip_vaapi.Base.{
  ℕ, zero, suc, ◌+◌, ◌-◌, ◌*◌, ◌/◌, ◌%◌, ◌^◌, ◌≤◌, ◌<◌, ◌≡◌, refl, ap, ◌∙◌, bit_or, ◌||◌, some,
  List, arith, ltb, Bool-cases, inl, inr,
}
use native.Mathlib.Nat.{pow-suc, one-le-pow, mul-le-mul_left, pow-le-pow_right}
use rockchip_vaapi.Base.Bits.{bit_or_above}
use rockchip_vaapi.Bitstream.Content.{bit_at, bits_of}
use rockchip_vaapi.Bitstream.Stands.{Stands}
use rockchip_vaapi.Hevc.Reader.{mod_pow_suc}
use rockchip_vaapi.Vp9.{bits_loop, read_bits}

shift_sum : (out bit : ℕ) → out < 2 ^ 31 → bit < 2 → bit_or (out * 2 % 2 ^ 32) bit ≡ out * 2 + bit
shift_sum out bit ho hb =
    let e : out * 2 % 2 ^ 32 ≡ out * 2 ^ 1 = omega arith in rw e (bit_or_above 1 out bit hb)

bits_loop_lem :
    (bytes : List ℕ) (size n v out pos : ℕ)
    → Stands bytes size pos (bits_of v n)
    → out * 2 ^ n + v % 2 ^ n < 2 ^ 32
    → bits_loop bytes n out pos ≡ (out * 2 ^ n + v % 2 ^ n, pos + n)
unfolding bits_loop
bits_loop_lem bytes size zero v out pos s fits = ground arith
bits_loop_lem bytes size (suc n) v out pos (lt, here, s) fits =
    let b : ℕ = v / 2 ^ n % 2 in
    let double : out * 2 ^ suc n ≡ 2 * (out * 2 ^ n) =
      omega (arith, ap (λ (t : ℕ). out * t) (pow-suc 2 n)) in
    let small : out < 2 ^ 31 =
      omega (arith, mul-le-mul_left out (one-le-pow n 2 (omega arith)), double) in
    let next : bit_or (out * 2 % 2 ^ 32) (bit_at bytes pos) ≡ out * 2 + b =
      ap (λ (t : ℕ). bit_or (out * 2 % 2 ^ 32) t) here ∙ shift_sum out b small (omega arith) in
    let value : (out * 2 + b) * 2 ^ n + v % 2 ^ n ≡ out * 2 ^ suc n + v % 2 ^ suc n =
      omega (arith, mod_pow_suc v n) in
    let place : pos + 1 + n ≡ pos + suc n = omega arith in
    rw next
      (bits_loop_lem bytes size n v (out * 2 + b) (pos + 1) s (omega arith) ∙ rw (value, place))

-- The last of several bits lies within the size.
Stands-within :
    (bytes : List ℕ) (size v n pos : ℕ)
    → Stands bytes size pos (bits_of v (suc n))
    → pos + suc n ≤ size * 8
Stands-within bytes size v zero pos (lt, here, s) = omega arith
Stands-within bytes size v (suc n) pos (lt, here, s) =
    omega (arith, Stands-within bytes size v n (pos + 1) s)

-- Where `n` bits of a number stand, 1 to 32 of them, they are read.
pub read_bits_lem :
    (bytes : List ℕ) (size v n pos : ℕ)
    → suc n ≤ 32
    → v < 2 ^ suc n
    → Stands bytes size pos (bits_of v (suc n))
    → read_bits bytes (size * 8) pos (suc n) ≡ some (v, pos + suc n)
unfolding read_bits
read_bits_lem bytes size v n pos le lt s =
    let small : v < 2 ^ 32 = omega (arith, pow-le-pow_right {n = 2} (omega arith) le) in
    let low : v % 2 ^ suc n ≡ v = grind arith in
    ground
      (arith, Stands-within bytes size v n pos s, bits_loop_lem bytes size (suc n) v 0 pos s, low)

bits_loop_same :
    (xs ys : List ℕ) (n out pos : ℕ)
    → ((k : ℕ) → k < pos + n → bit_at xs k ≡ bit_at ys k)
    → bits_loop xs n out pos ≡ bits_loop ys n out pos
unfolding bits_loop
bits_loop_same xs ys zero out pos same = refl
bits_loop_same xs ys (suc n) out pos same =
    rw (same pos (omega arith)) (bits_loop_same xs ys n _ (pos + 1) (λ k lt. same k (omega arith)))

-- The reader looks at no bit from `bit_size` on.
pub read_bits_same :
    (xs ys : List ℕ) (bit_size pos count : ℕ)
    → ((k : ℕ) → k < bit_size → bit_at xs k ≡ bit_at ys k)
    → read_bits xs bit_size pos count ≡ read_bits ys bit_size pos count
unfolding read_bits
read_bits_same xs ys bit_size pos count same =
    elim (Bool-cases (ltb bit_size pos || ltb (bit_size - pos) count)) [
      | inl out ↦ ground (arith, out)
      | inr within ↦
          let e = bits_loop_same xs ys count 0 pos (λ k lt. same k (ground arith)) in rw e
    ]

two_pos : 0 < 2
two_pos = omega arith

bits_loop_range :
    (bytes : List ℕ) (n out pos k : ℕ)
    → out < 2 ^ k
    → n + k ≤ 32
    → ((bits_loop bytes n out pos).0 < 2 ^ (n + k)) × ((bits_loop bytes n out pos).1 ≡ pos + n)
unfolding bits_loop
bits_loop_range bytes zero out pos k lt le =
    let e : 0 + k ≡ k = omega arith in rw e (lt, omega arith)
bits_loop_range bytes (suc n) out pos k lt le =
    let low : k ≤ 31 = omega arith in
    let half : 2 ^ k ≤ 2 ^ 31 = pow-le-pow_right {n = 2} two_pos low in
    let next : bit_or (out * 2 % 2 ^ 32) (bit_at bytes pos) ≡ out * 2 + bit_at bytes pos =
      shift_sum out (bit_at bytes pos) (omega (arith, half)) (omega arith) in
    let step : bits_loop bytes (suc n) out pos
        ≡ bits_loop bytes n (out * 2 + bit_at bytes pos) (pos + 1) =
      ap (λ (t : ℕ). bits_loop bytes n t (pos + 1)) next in
    let count : suc n + k ≡ n + suc k = omega arith in
    let (value, place) =
      bits_loop_range bytes n (out * 2 + bit_at bytes pos) (pos + 1) (suc k)
        (omega (arith, pow-suc 2 k)) (omega arith) in
    rw (step, count) (value, place ∙ omega arith)

-- A value of `count` bits is below 2 ^ count, and they lie within the size.
pub read_bits_range :
    (bytes : List ℕ) (bit_size pos count value next : ℕ)
    → read_bits bytes bit_size pos count ≡ some (value, next)
    → (value < 2 ^ count) × (next ≡ pos + count) × (next ≤ bit_size)
unfolding read_bits
read_bits_range bytes bit_size pos count value next e =
    let none_yet : count + 0 ≡ count = omega arith in
    let p : 2 ^ (count + 0) ≡ 2 ^ count = ap (λ (t : ℕ). 2 ^ t) none_yet in
    ground (arith, bits_loop_range bytes count 0 pos 0, p)
