-- ===== src/Base/Bits.antt =====
-- The laws of `|` that the code relies on, from the digit recursion of the native operation, and
-- checks of small ranges by evaluation.
use Prim.Native.Nat.{
  ℕ, zero, suc, ◌+◌, ◌-◌, ◌*◌, ◌/◌, ◌%◌, ◌^◌, ◌≤◌, ◌<◌, max, bit_or, digits, bit_or-bitwise,
}
use mathlib.Core.Path.{◌≡◌, refl, ap}
use mathlib.Core.Logic.{◌⊎◌, inl, inr}
use mathlib.Core.Bool.{Bool, true, false}
use native.Mathlib.Omega.{arith}
use native.Mathlib.Nat.{pow-suc}
use rockchip_vaapi.Base.Tests.{if◌then◌else◌}

-- The test holds of every number below the bound, the highest checked first.
unfoldable pub passes : (ℕ → Bool) → ℕ → Bool
passes test zero = true
passes test (suc bound) = if test bound then passes test bound else false

passes-suc :
    (test : ℕ → Bool) (bound : ℕ)
    → passes test (suc bound) ≡ true
    → (test bound ≡ true) × (passes test bound ≡ true)
unfolding passes
passes-suc test bound all = ground (arith, all)

pub passes_at :
    (test : ℕ → Bool) (bound : ℕ) → passes test bound ≡ true → (i : ℕ) → i < bound → test i ≡ true
unfolding passes
passes_at test (suc bound) all i small =
    let (here, below) = passes-suc test bound all in
    let last : (i ≡ bound) ⊎ (i < bound) = omega (arith, small) in
    elim last [ inl e ↦ rw e here | inr lower ↦ passes_at test bound below i lower ]
passes_at test zero all i small = absurd (omega arith)

-- The native `|` is a recursion on digits with fuel; any fuel from the first number up gives it.
or_more_fuel : (d e a b : ℕ) → a ≤ d → digits (λ y. y) max (d + e) a b ≡ digits (λ y. y) max d a b
or_more_fuel zero zero zero b h = refl
or_more_fuel zero (suc e) zero b h = let s : zero + suc e ≡ suc e = omega arith in rw s
or_more_fuel zero e (suc a) b h = absurd (omega arith)
or_more_fuel (suc d) e zero b h = let s : suc d + e ≡ suc (d + e) = omega arith in rw s
or_more_fuel (suc d) e (suc a) b h =
    let s : suc d + e ≡ suc (d + e) = omega arith in
    rw s (omega (arith, or_more_fuel d e (suc a / 2) (b / 2) (omega arith)))

-- The lowest digit of `|`, and the rest.
or_low_digit : (a b : ℕ) → bit_or a b ≡ 2 * bit_or (a / 2) (b / 2) + max (a % 2) (b % 2)
or_low_digit zero b = rw (bit_or-bitwise 0 b) (rw (bit_or-bitwise (0 / 2) (b / 2)) (omega arith))
or_low_digit (suc a) b =
    let h : suc a / 2 ≤ a = omega arith in
    let s : suc a / 2 + (a - suc a / 2) ≡ a = omega arith in
    omega (
      arith,
      bit_or-bitwise (suc a) b,
      bit_or-bitwise (suc a / 2) (b / 2),
      ap (λ (t : ℕ). digits (λ y. y) max t (suc a / 2) (b / 2)) s,
      or_more_fuel (suc a / 2) (a - suc a / 2) (suc a / 2) (b / 2) (omega arith),
    )

or_nothing_below : (n a : ℕ) → a ≤ n → bit_or a 0 ≡ a
or_nothing_below n zero h = bit_or-bitwise 0 0
or_nothing_below zero (suc a) h = absurd (omega arith)
or_nothing_below (suc n) (suc a) h =
    omega (arith, or_low_digit (suc a) 0, or_nothing_below n (suc a / 2) (omega arith))

pub bit_or-zero : (a : ℕ) → bit_or a 0 ≡ a
bit_or-zero a = or_nothing_below a a (omega arith)

double_pow : (q k : ℕ) → q * 2 ^ suc k ≡ 2 * (q * 2 ^ k)
double_pow q k = omega (arith, ap (λ (t : ℕ). q * t) (pow-suc 2 k))

-- `|` of a shifted number and one that fits below the shift is their sum.
pub bit_or_above : (k q r : ℕ) → r < 2 ^ k → bit_or (q * 2 ^ k) r ≡ q * 2 ^ k + r
bit_or_above zero q r h = ground (arith, bit_or-zero q)
bit_or_above (suc k) q r h = ground (
  arith,
  or_low_digit (q * 2 ^ suc k) r,
  double_pow q k,
  bit_or_above k q (r / 2) (omega (arith, pow-suc 2 k)),
)

pub bit_or_shift : (k a b : ℕ) → bit_or (a * 2 ^ k) (b * 2 ^ k) ≡ bit_or a b * 2 ^ k
bit_or_shift zero a b = ground arith
bit_or_shift (suc k) a b = omega (
  arith,
  or_low_digit (a * 2 ^ suc k) (b * 2 ^ suc k),
  double_pow a k,
  double_pow b k,
  double_pow (bit_or a b) k,
  bit_or_shift k a b,
  ap (λ (t : ℕ). bit_or t (b * 2 ^ suc k / 2)) (halve a k),
  ap (λ (t : ℕ). bit_or (a * 2 ^ k) t) (halve b k),
)
  where
    halve : (q k : ℕ) → q * 2 ^ suc k / 2 ≡ q * 2 ^ k
    halve q k = omega (arith, double_pow q k)

pub bit_or-one : (a : ℕ) → bit_or a 1 ≡ 2 * (a / 2) + 1
bit_or-one a = omega (arith, or_low_digit a 1, bit_or-zero (a / 2))
