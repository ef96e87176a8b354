-- ===== src/Nal/ParameterSet.antt =====
-- A parameter set: syntax elements, trailing bits, and the start code in front of the escaped bytes.
use rockchip_vaapi.Base.{
  ℕ, zero, suc, ◌+◌, ◌-◌, ◌^◌, ◌*◌, ◌≤◌, ◌<◌, ◌≡◌, refl, ◌∙◌, false, some, List, [], ◌∷◌, ◌++◌,
  arith, length, length-append, length-take, take, take_all, get_or, replicate, length-replicate,
}
use rockchip_vaapi.Bitstream.{BsWriter, bs_init, bs_rbsp_trailing, bs_bytes}
use rockchip_vaapi.Bitstream.Content.{Holds, bs_init-Holds, bs_init-capacity}
use rockchip_vaapi.Bitstream.Stands.{
  Stands, Stands-append, Stands-same, Holds-Stands, bs_bytes_aligned,
}
use rockchip_vaapi.Bitstream.Trailing.{bs_rbsp_trailing-Holds, bs_rbsp_trailing-capacity}
use rockchip_vaapi.Bitstream.Elements.{
  Element, put_all, put_all-Holds, all_bits, AllFit, Reads, all_bits-Reads,
}
use rockchip_vaapi.Nal.{emulation_prevent, unescape_prefix, start_code, finish_nal}
use rockchip_vaapi.Nal.Escape.{has_start_code, emulation_prevent_hides}
use rockchip_vaapi.Nal.RoundTrip.{unescape_prefix-emulation_prevent}

-- The raw bytes of elements and trailing bits, in a buffer of `capacity` bytes.
abbrev pub raw_writer : ℕ → List Element → BsWriter
raw_writer capacity es = bs_rbsp_trailing (put_all es (bs_init capacity))

abbrev pub raw_bytes : ℕ → List Element → List ℕ
raw_bytes capacity es = let bs = raw_writer capacity es in take (bs_bytes bs) bs.buffer

-- The first byte stream that a decoder unescapes gives the elements when it is read.
abbrev pub Decodes : List ℕ → List Element → Type 0
Decodes escaped es =
    let rbsp = unescape_prefix escaped (length escaped) in
    Reads (record { bytes = rbsp; size = length rbsp; bit = 0 }) es

pub get_or-take : (n i : ℕ) (xs : List ℕ) → i < n → get_or (take n xs) i 0 ≡ get_or xs i 0
get_or-take zero i xs lt = absurd (omega arith)
get_or-take (suc n) i [] lt = refl
get_or-take (suc n) zero (x ∷ xs) lt = refl
get_or-take (suc n) (suc i) (x ∷ xs) lt = get_or-take n i xs (omega arith)

module _ (capacity : ℕ) (es : List Element) (fit : AllFit es)
    (room : length (all_bits es) + 8 ≤ 8 * capacity) where
  written :
      Holds (put_all es (bs_init capacity)) (all_bits es)
      × ((put_all es (bs_init capacity)).capacity ≡ (bs_init capacity).capacity)
  written =
      put_all-Holds es (bs_init capacity) [] (bs_init-Holds capacity) fit
        (omega (arith, bs_init-capacity capacity))

  trailed :
      (n : ℕ) × (n ≤ 7)
      × Holds (raw_writer capacity es) (all_bits es ++ 1 ∷ replicate n 0)
      × ((raw_writer capacity es).bit_pos ≡ 0)
  trailed =
      let (h, cap) = written in
      bs_rbsp_trailing-Holds (put_all es (bs_init capacity)) (all_bits es) h
        (omega (arith, bs_init-capacity capacity, cap, h.position, h.bit_bound))

  tail : ℕ
  tail = trailed.0

  holds : Holds (raw_writer capacity es) (all_bits es ++ 1 ∷ replicate tail 0)
  unfolding tail
  holds = trailed.2

  aligned : (raw_writer capacity es).bit_pos ≡ 0
  aligned = trailed.3

  size : ℕ
  size = bs_bytes (raw_writer capacity es)

  size_lem : 8 * size ≡ length (all_bits es ++ 1 ∷ replicate tail 0)
  unfolding size
  size_lem = bs_bytes_aligned (raw_writer capacity es) _ holds aligned

  bits_length : length (all_bits es ++ 1 ∷ replicate tail 0) ≡ length (all_bits es) + 1 + tail
  bits_length =
      omega
        (arith, length-append (all_bits es) (1 ∷ replicate tail 0), length-replicate {A = ℕ} tail 0)

  small_tail : tail ≤ 7
  unfolding tail
  small_tail = trailed.1

  buffer_length : length (raw_writer capacity es).buffer ≡ capacity
  buffer_length =
      holds.sized
      ∙ bs_rbsp_trailing-capacity (put_all es (bs_init capacity))
      ∙ written.1
      ∙ bs_init-capacity capacity

  -- The raw bytes fill at least one byte and at most the buffer.
  pub raw_bytes-length :
      (1 ≤ length (raw_bytes capacity es)) × (length (raw_bytes capacity es) ≤ capacity)
  unfolding size
  raw_bytes-length = omega (
    arith,
    length-take size (raw_writer capacity es).buffer,
    size_lem,
    bits_length,
    small_tail,
    buffer_length,
  )

  raw_Stands : Stands (raw_bytes capacity es) size 0 (all_bits es)
  unfolding size
  raw_Stands =
      let full =
        Holds-Stands (raw_writer capacity es) size [] (all_bits es ++ 1 ∷ replicate tail 0) holds
          (omega (arith, size_lem)) in
      let (here, _) =
        Stands-append (raw_writer capacity es).buffer size 0 (all_bits es) (1 ∷ replicate tail 0)
          full in
      Stands-same (raw_writer capacity es).buffer (raw_bytes capacity es) size 0 (all_bits es)
        (λ i lt. get_or-take size i (raw_writer capacity es).buffer lt) here

  raw_Reads :
      Reads
        (record { bytes = raw_bytes capacity es; size = length (raw_bytes capacity es); bit = 0 })
        es
  unfolding size
  raw_Reads =
      let whole : length (raw_bytes capacity es) ≡ size = omega (
        arith,
        length-take size (raw_writer capacity es).buffer,
        size_lem,
        bits_length,
        small_tail,
        buffer_length,
      ) in
      rw whole (
        all_bits-Reads es (record { bytes = raw_bytes capacity es; size = size; bit = 0 }) fit
          (omega arith) raw_Stands)

  -- The raw bytes of elements that fit, escaped in a buffer with room for twice as many: there is no
  -- start code in them, there are at most three for every two, and they decode to the elements.
  pub raw_bytes_escaped :
      (limit : ℕ)
      → 2 * length (raw_bytes capacity es) ≤ limit
      → (out : List ℕ) × (emulation_prevent (raw_bytes capacity es) limit ≡ some out)
        × (1 ≤ length out)
        × (2 * length out ≤ 3 * capacity)
        × (has_start_code out ≡ false)
        × Decodes out es
  raw_bytes_escaped limit le =
      let raw = raw_bytes capacity es in
      let (out, e, hidden, longer, bound) = emulation_prevent_hides raw limit (omega arith) in
      let back : unescape_prefix out (length out) ≡ raw =
        unescape_prefix-emulation_prevent raw out limit (length out) e
        ∙ take_all (length out) raw longer in
      (
        out,
        e,
        omega (arith, longer, raw_bytes-length),
        omega (arith, bound, raw_bytes-length),
        hidden,
        rw back raw_Reads,
      )

  pub raw_bytes_lem :
      (limit : ℕ)
      → 2 * length (raw_bytes capacity es) ≤ limit
      → (out : List ℕ) × (emulation_prevent (raw_bytes capacity es) limit ≡ some out)
        × (1 ≤ length out)
        × (has_start_code out ≡ false)
        × Decodes out es
  raw_bytes_lem limit le =
      let (out, e, some_bytes, _, hidden, decodes) = raw_bytes_escaped limit le in
      (out, e, some_bytes, hidden, decodes)

  -- `finish_nal` on those bytes, in a buffer with room for twice the capacity behind the start code.
  pub finish_nal_lem :
      (buf_size : ℕ)
      → 4 + 2 * capacity ≤ buf_size
      → capacity ≤ 2 ^ 20
      → (out : List ℕ) × (finish_nal buf_size (raw_bytes capacity es) ≡ some (start_code out))
        × (2 * length out ≤ 3 * capacity)
        × (has_start_code out ≡ false)
        × Decodes out es
  unfolding finish_nal
  finish_nal_lem buf_size big small =
      let (out, e, some_bytes, bound, hidden, decodes) =
        raw_bytes_escaped (buf_size - 4) (omega (arith, raw_bytes-length)) in
      (out, ground (arith, e, some_bytes, bound, big, small), bound, hidden, decodes)
