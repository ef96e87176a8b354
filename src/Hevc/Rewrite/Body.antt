-- ===== src/Hevc/Rewrite/Body.antt =====
-- The bits of a slice that `rk_hevc_rewrite_slice_nal` of src/hevc.c has rewritten.
use rockchip_vaapi.Base.{
  ℕ, ◌+◌, ◌-◌, ◌*◌, ◌%◌, ◌≤◌, ◌<◌, ◌≡◌, ◌⊎◌, refl, ap, ◌∙◌, true, false, Option, none, some, List,
  [], ◌∷◌, ◌++◌, arith, ltb, leb, length, length-append, append_assoc, replicate, length-replicate,
  ◌>>=◌, inl, inr,
}
use rockchip_vaapi.Bitstream.{BsWriter, bs_init, bs_rbsp_trailing}
use rockchip_vaapi.Bitstream.Content.{Holds, bs_init-Holds, bs_init-capacity}
use rockchip_vaapi.Bitstream.Trailing.{bs_rbsp_trailing-Holds, bs_rbsp_trailing-capacity}
use rockchip_vaapi.Bitstream.Elements.{Element, u, put_all, put_all-Holds, all_bits}
use rockchip_vaapi.Hevc.Reader.{BitReader}
use rockchip_vaapi.Hevc.Rps.{Rps, collect_rps}
use rockchip_vaapi.Hevc.Rps.Collected.{total, collect_rps_lem}
use rockchip_vaapi.Hevc.Parameters.{HevcParameters}
use rockchip_vaapi.Hevc.Rewrite.{
  LongTerms, poc_bits, skip_original_rps, write_short_term_rps, write_long_term_rps,
  write_long_terms, write_suffix, find_byte_alignment_start, copy_bits, rewrite_body,
}
use rockchip_vaapi.Hevc.Rewrite.Positions.{
  Skipped, Ends-some, skip_original_rps-Skipped, find_byte_alignment_start_lem,
}
use rockchip_vaapi.Hevc.Rewrite.Copied.{bits_from, length-bits_from, copy_bits-Holds}
use rockchip_vaapi.Hevc.Rewrite.Sets.{
  Steep, InRange, write_short_term_rps-Within, write_long_term_rps-Within,
}

-- A writer of some capacity that a step gives, and what it holds, which has room there.
abbrev pub Gives : Option BsWriter → ℕ → List ℕ → Type 0
Gives r capacity bits =
    (next : BsWriter) × (r ≡ some next)
    × Holds next bits
    × (next.capacity ≡ capacity)
    × (length bits ≤ 8 * capacity)

-- The bits of the long-term part: those of the stream, or the elements of the collected set.
abbrev pub LongBits : HevcParameters → Rps → ℕ → LongTerms → List ℕ → ℕ → List ℕ → Type 0
LongBits pp rps poc_lsb lt rbsp rps_end bits =
    ((lt.lt_verbatim ≡ true)
      × (bits ≡ bits_from rbsp lt.lt_verbatim_bit (rps_end - lt.lt_verbatim_bit)))
    ⊎ ((lt.lt_verbatim ≡ false)
        × (es : List Element) × (write_long_term_rps rps pp poc_lsb ≡ some es)
        × (bits ≡ all_bits es))

-- The bits behind the reference picture set: all of the rest, or up to the alignment, which a set bit
-- and `n` clear ones replace, and the slice data.
abbrev pub SuffixBits : List ℕ → ℕ → Option ℕ → ℕ → List ℕ → Type 0
SuffixBits rbsp rps_end none before bits = bits ≡ bits_from rbsp rps_end (length rbsp * 8 - rps_end)
SuffixBits rbsp rps_end (some offset) before bits =
    let slice_data_bit = (offset - 2) * 8 in
    ((offset < 2) × (bits ≡ bits_from rbsp rps_end (length rbsp * 8 - rps_end)))
    ⊎ ((2 ≤ offset)
        × (align_start n : ℕ) × (find_byte_alignment_start rbsp rps_end slice_data_bit
            ≡ some align_start)
        × (n ≤ 7)
        × ((before + (align_start - rps_end) + 1 + n) % 8 ≡ 0)
        × (bits
            ≡ (bits_from rbsp rps_end (align_start - rps_end) ++ (1 ∷ replicate n 0))
              ++ bits_from rbsp slice_data_bit (length rbsp * 8 - slice_data_bit)))

-- The slice parameters point at or before the end of the NAL unit, behind an alignment bit.
abbrev pub HasSliceData : List ℕ → ℕ → Option ℕ → Type 0
HasSliceData rbsp rps_end none = Unit
HasSliceData rbsp rps_end (some offset) =
    (offset < 2)
    ⊎ ((2 ≤ offset)
        × ((offset - 2) * 8 ≤ length rbsp * 8)
        × (align_start : ℕ) × (find_byte_alignment_start rbsp rps_end ((offset - 2) * 8)
            ≡ some align_start))

copied :
    (src : List ℕ) (start end capacity : ℕ) (bs : BsWriter) (bits : List ℕ)
    → start ≤ end
    → Holds bs bits
    → bs.capacity ≡ capacity
    → length bits + (end - start) ≤ 8 * capacity
    → Gives (copy_bits bs src start end) capacity (bits ++ bits_from src start (end - start))
copied src start end capacity bs bits le h cap room =
    let (next, e, h', cap') =
      copy_bits-Holds src start end bs bits le h (omega (arith, cap, room)) in
    (
      next,
      e,
      h',
      cap' ∙ cap,
      omega (
        arith,
        room,
        length-append bits (bits_from src start (end - start)),
        length-bits_from src start (end - start),
      ),
    )

regroup : (ws bs cs ds : List ℕ) → ((ws ++ bs) ++ cs) ++ ds ≡ ws ++ ((bs ++ cs) ++ ds)
regroup ws bs cs ds =
    ap (λ (t : List ℕ). t ++ ds) (append_assoc ws bs cs) ∙ append_assoc ws (bs ++ cs) ds

module _ (rbsp : List ℕ) (rps_end capacity : ℕ) (bs : BsWriter) (bits : List ℕ) (h : Holds bs bits)
    (cap : bs.capacity ≡ capacity) (within : rps_end ≤ length rbsp * 8)
    (room : length bits + (length rbsp * 8 - rps_end) + 16 ≤ 8 * capacity) where
  aligned_suffix :
      (slice_data_bit align_start : ℕ)
      → slice_data_bit ≤ length rbsp * 8
      → find_byte_alignment_start rbsp rps_end slice_data_bit ≡ some align_start
      → (n : ℕ) × (n ≤ 7)
        × ((length bits + (align_start - rps_end) + 1 + n) % 8 ≡ 0)
        × Gives
            (do
              bs ← copy_bits bs rbsp rps_end align_start
              copy_bits (bs_rbsp_trailing bs) rbsp slice_data_bit (length rbsp * 8))
            capacity
            (bits
              ++ ((bits_from rbsp rps_end (align_start - rps_end) ++ (1 ∷ replicate n 0))
                  ++ bits_from rbsp slice_data_bit (length rbsp * 8 - slice_data_bit)))
  aligned_suffix slice_data_bit align_start le found =
      let (lo, hi) = find_byte_alignment_start_lem rbsp rps_end slice_data_bit align_start found in
      let kept = bits_from rbsp rps_end (align_start - rps_end) in
      let count = length-bits_from rbsp rps_end (align_start - rps_end) in
      let (next, e, h', cap', _) =
        copied rbsp rps_end align_start capacity bs bits lo h cap
          (omega (arith, lo, hi, le, room)) in
      let behind = length-append bits kept in
      let (n, small, t, zero_bit) =
        bs_rbsp_trailing-Holds next (bits ++ kept) h'
          (omega (arith, h'.position, cap', behind, count, lo, hi, le, room)) in
      let pad : length (1 ∷ replicate {A = ℕ} n 0) ≡ 1 + n =
        omega (arith, length-replicate {A = ℕ} n 0) in
      let all = length-append (bits ++ kept) (1 ∷ replicate n 0) in
      let last =
        copied rbsp slice_data_bit (length rbsp * 8) capacity (bs_rbsp_trailing next) _ le t
          (bs_rbsp_trailing-capacity next ∙ cap')
          (omega (arith, all, pad, behind, count, small, lo, hi, le, room)) in
      (
        n,
        small,
        omega (arith, t.position, zero_bit, all, pad, behind, count),
        rw e (
            rw
              (regroup bits kept (1 ∷ replicate n 0)
                (bits_from rbsp slice_data_bit (length rbsp * 8 - slice_data_bit)))
              at last),
      )

  pub write_suffix_lem :
      (sp : Option ℕ)
      → HasSliceData rbsp rps_end sp
      → (more : List ℕ) × SuffixBits rbsp rps_end sp (length bits) more
        × Gives (write_suffix rbsp rps_end sp bs) capacity (bits ++ more)
  unfolding write_suffix
  write_suffix_lem none s = (
    _,
    refl,
    copied rbsp rps_end (length rbsp * 8) capacity bs bits within h cap (omega (arith, room)),
  )
  write_suffix_lem (some offset) (inl lt) =
      let small : ltb offset 2 ≡ true = ground (arith, lt) in
      (
        _,
        inl (lt, refl),
        rw small (
            copied rbsp rps_end (length rbsp * 8) capacity bs bits within h cap
              (omega (arith, room))),
      )
  write_suffix_lem (some offset) (inr (ge, le, align_start, found)) =
      let large : ltb offset 2 ≡ false = ground (arith, ge) in
      let inside : leb ((offset - 2) * 8) (length rbsp * 8) ≡ true = ground (arith, le) in
      let (n, small, on_byte, gives) = aligned_suffix ((offset - 2) * 8) align_start le found in
      (_, inr (ge, align_start, n, found, small, on_byte, refl), rw (large, inside, found) gives)

-- The collected long-term set can be written, where it is written.
abbrev pub HasLongTerms : HevcParameters → Rps → ℕ → LongTerms → Type 0
HasLongTerms pp rps poc_lsb lt =
    (lt.lt_verbatim ≡ true)
    ⊎ ((lt.lt_verbatim ≡ false)
        × (es : List Element) × (write_long_term_rps rps pp poc_lsb ≡ some es))

module _ (pp : HevcParameters) (small : poc_bits pp ≤ 16)
    (range : InRange pp.curr_pic.pic_order_cnt) (rps : Rps) (bounded : total rps ≤ 15) (poc_lsb : ℕ)
    (lt : LongTerms) (rbsp : List ℕ) (has_long : HasLongTerms pp rps poc_lsb lt) where
  write_long_terms_lem :
      (start rps_end capacity : ℕ) (bs : BsWriter) (bits : List ℕ)
      → Holds bs bits
      → bs.capacity ≡ capacity
      → ((lt.lt_verbatim ≡ false) ⊎ ((start ≤ lt.lt_verbatim_bit) × (lt.lt_verbatim_bit ≤ rps_end)))
      → length bits + (rps_end - start) + 61 * 61 ≤ 8 * capacity
      → (more : List ℕ) × LongBits pp rps poc_lsb lt rbsp rps_end more
        × (length more ≤ 61 * 61 + (rps_end - start))
        × Gives (write_long_terms pp rps poc_lsb lt rbsp rps_end bs) capacity (bits ++ more)
  unfolding write_long_terms
  write_long_terms_lem start rps_end capacity bs bits h same order room = elim has_long [
    | inl verbatim ↦
        let (lo, le) : (start ≤ lt.lt_verbatim_bit) × (lt.lt_verbatim_bit ≤ rps_end) = elim order [
          | inl off ↦ absurd (cc (verbatim, off))
          | inr o ↦ o
        ] in
        let count = length-bits_from rbsp lt.lt_verbatim_bit (rps_end - lt.lt_verbatim_bit) in
        (
          _,
          inl (verbatim, refl),
          omega (arith, count, lo),
          rw verbatim (
              copied rbsp lt.lt_verbatim_bit rps_end capacity bs bits le h same
                (omega (arith, room, lo))),
        )
    | inr (collected, es, made) ↦
        let w = write_long_term_rps-Within pp small range poc_lsb rps es bounded made in
        let (h', cap') = put_all-Holds es bs bits h w.fits (omega (arith, w.bits, room, same)) in
        (
          _,
          inr (collected, es, made, refl),
          omega (arith, w.bits),
          rw (collected, made)
              (
                put_all es bs,
                refl,
                h',
                cap' ∙ same,
                omega (arith, length-append bits (all_bits es), w.bits, room),
              ),
        )
  ]

-- The bits of the rewritten slice: those before the set, the flag and the new short-term set, the
-- long-term part, and those behind the set.
abbrev pub RewrittenBits :
    HevcParameters → Rps → ℕ → Option ℕ → List ℕ → ℕ → ℕ → LongTerms → List ℕ → Type 0
RewrittenBits pp rps poc_lsb sp rbsp start rps_end lt bits =
    (long suffix : List ℕ) × LongBits pp rps poc_lsb lt rbsp rps_end long
    × SuffixBits rbsp rps_end sp
        (length ((bits_from rbsp 0 start ++ all_bits (u 0 1 ∷ write_short_term_rps rps 0)) ++ long))
        suffix
    × (bits
        ≡ ((bits_from rbsp 0 start ++ all_bits (u 0 1 ∷ write_short_term_rps rps 0)) ++ long)
          ++ suffix)

kept_Gives :
    (rbsp : List ℕ) (start capacity : ℕ)
    → start ≤ 8 * capacity
    → Gives (copy_bits (bs_init capacity) rbsp 0 start) capacity (bits_from rbsp 0 start)
kept_Gives rbsp start capacity le =
    let all : start - 0 ≡ start = omega arith in
    rw all at (
      copied rbsp 0 start capacity (bs_init capacity) [] (omega arith) (bs_init-Holds capacity)
        (bs_init-capacity capacity) (omega (arith, le)))

-- What is asked of the pictures and of the slice.
pub record CanRewrite (invalid_surface : ℕ) (pp : HevcParameters) (sp : Option ℕ) (rbsp : List ℕ)
    (poc_lsb : ℕ) (br next : BitReader) (lt : LongTerms) (rps : Rps) : Type 0 where
  pub skipped : skip_original_rps br pp ≡ some (lt, next)
  pub collected :
      collect_rps invalid_surface pp.curr_pic.pic_order_cnt pp.reference_frames ≡ some rps
  pub rising_negatives : Steep 0 rps.negative
  pub rising_positives : Steep 0 rps.positive
  pub poc_range : InRange pp.curr_pic.pic_order_cnt
  pub has_long : HasLongTerms pp rps poc_lsb lt
  pub has_data : HasSliceData rbsp next.bit sp

body_Gives :
    (invalid_surface : ℕ) (pp : HevcParameters) (sp : Option ℕ) (nal_size : ℕ) (rbsp : List ℕ)
    (poc_lsb : ℕ) (br next : BitReader) (lt : LongTerms) (rps : Rps) (bs bs' : BsWriter)
    (capacity : ℕ) (bits : List ℕ)
    → skip_original_rps br pp ≡ some (lt, next)
    → collect_rps invalid_surface pp.curr_pic.pic_order_cnt pp.reference_frames ≡ some rps
    → copy_bits (bs_init (nal_size + 4096)) rbsp 0 br.bit ≡ some bs
    → write_long_terms pp rps poc_lsb lt rbsp next.bit
        (put_all (u 0 1 ∷ write_short_term_rps rps 0) bs)
      ≡ some bs'
    → Gives (write_suffix rbsp next.bit sp bs') capacity bits
    → Gives (rewrite_body invalid_surface pp sp nal_size rbsp poc_lsb br) capacity bits
unfolding rewrite_body
body_Gives invalid_surface pp sp nal_size rbsp poc_lsb br next lt rps bs bs' capacity bits s c e e'
      gives =
    rw (s, c, e, e') gives

-- Where that holds, the body of the rewriting succeeds and its writer holds the bits of the slice.
pub rewrite_body_lem :
    (invalid_surface : ℕ) (pp : HevcParameters) (sp : Option ℕ) (nal_size : ℕ) (rbsp : List ℕ)
    (poc_lsb : ℕ) (br next : BitReader) (lt : LongTerms) (rps : Rps)
    → CanRewrite invalid_surface pp sp rbsp poc_lsb br next lt rps
    → poc_bits pp ≤ 16
    → br.size ≡ length rbsp
    → br.bit ≤ length rbsp * 8
    → length rbsp ≤ nal_size
    → (bits : List ℕ) × RewrittenBits pp rps poc_lsb sp rbsp br.bit next.bit lt bits
      × Gives (rewrite_body invalid_surface pp sp nal_size rbsp poc_lsb br) (nal_size + 4096) bits
rewrite_body_lem invalid_surface pp sp nal_size rbsp poc_lsb br next lt rps c small sized within
      le =
    let capacity = nal_size + 4096 in
    let rps_ok =
      collect_rps_lem invalid_surface pp.curr_pic.pic_order_cnt pp.reference_frames rps
        c.collected in
    let (later, order) =
      Ends-some (Skipped br) (skip_original_rps br pp) (lt, next) (skip_original_rps-Skipped br pp)
        c.skipped in
    let start = br.bit in
    let kept = bits_from rbsp 0 start in
    let kept_length : length kept ≡ start = length-bits_from rbsp 0 start in
    let end : next.bit ≤ length rbsp * 8 =
      omega (arith, later.inside (omega (arith, sized, within)), later.same_size, sized) in
    let (bs, e, h, same, _) = kept_Gives rbsp start capacity (omega (arith, within, le)) in
    let set : List Element = u 0 1 ∷ write_short_term_rps rps 0 in
    let set_fits =
      write_short_term_rps-Within rps rps_ok.bounded c.rising_negatives c.rising_positives
        rps_ok.near_negatives rps_ok.near_positives in
    let (h', same') =
      put_all-Holds set bs kept h set_fits.fits
        (omega (arith, set_fits.bits, kept_length, same, within, le)) in
    let front = kept ++ all_bits set in
    let front_length = length-append kept (all_bits set) in
    let (long, long_ok, long_few, (bs', e', h2, same2, _)) =
      write_long_terms_lem pp small c.poc_range rps rps_ok.bounded poc_lsb lt rbsp c.has_long start
        next.bit capacity (put_all set bs) front h' (same' ∙ same) order
        (omega (arith, front_length, kept_length, set_fits.bits, later.ahead, end, le)) in
    let (suffix, suffix_ok, gives) =
      write_suffix_lem rbsp next.bit capacity bs' (front ++ long) h2 same2 end
        (omega (
          arith,
          length-append front long,
          long_few,
          front_length,
          kept_length,
          set_fits.bits,
          later.ahead,
          end,
          le,
        ))
        sp c.has_data in
    (
      _,
      (long, suffix, long_ok, suffix_ok, refl),
      body_Gives invalid_surface pp sp nal_size rbsp poc_lsb br next lt rps bs bs' capacity _
          c.skipped c.collected e e' gives,
    )
