-- ===== src/Bitstream/Sized.antt =====
-- Lists of syntax elements with a bound on the bits that they take.
use rockchip_vaapi.Base.{ℕ, ◌+◌, ◌*◌, ◌≤◌, List, ◌++◌, arith, length}
use rockchip_vaapi.Bitstream.Elements.{
  Element, AllFit, AllFit-append, all_bits, length-all_bits-le, length-all_bits-append,
}

-- Elements that fit, of at most so many bits.
pub record Within (es : List Element) (n : ℕ) : Type 0 where
  pub fits : AllFit es
  pub bits : length (all_bits es) ≤ n

pub few-Within : (es : List Element) (n : ℕ) → AllFit es → length es ≤ n → Within es (61 * n)
few-Within es n fit le = record { fits = fit; bits = omega (arith, length-all_bits-le es fit) }

pub Within-append :
    (es fs : List Element) (m n : ℕ) → Within es m → Within fs n → Within (es ++ fs) (m + n)
Within-append es fs m n a b = record {
  fits = AllFit-append es fs a.fits b.fits;
  bits = omega (arith, length-all_bits-append es fs, a.bits, b.bits);
}

pub Within-le : (es : List Element) (m n : ℕ) → m ≤ n → Within es m → Within es n
Within-le es m n le a = record { fits = a.fits; bits = omega (arith, a.bits) }
