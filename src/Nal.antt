-- ===== src/Nal.antt =====
-- Emulation prevention for NAL units: `emulation_prevent` of src/h264.c and src/hevc.c, and
-- `unescape_prefix` and `finish_nal` of src/hevc.c. The output buffer is the list that is written.
pub mod Escape
pub mod RoundTrip
pub mod ParameterSet
mod Examples
use rockchip_vaapi.Base.{
  ℕ, zero, suc, ◌+◌, ◌-◌, ◌^◌, Bool, true, false, ◌&&◌, ◌||◌, Option, none, some, List, [], ◌∷◌,
  ltb, leb, ◌==◌, if◌then◌else◌, length,
}

-- `zeros` after a byte.
abbrev pub zeros_after : ℕ → ℕ → ℕ
zeros_after n x = if x == 0 then n + 1 else 0

abbrev pub needs_escape : ℕ → ℕ → Bool
needs_escape n x = leb 2 n && leb x 3

-- `out[out_pos++] = x`, with the bytes that follow, where `room` bytes are left.
abbrev pub emit : ℕ → ℕ → Option (List ℕ) → Option (List ℕ)
emit x zero rest = none
emit x (suc room) none = none
emit x (suc room) (some rest) = some (x ∷ rest)

-- The loop, with the number of zeros before and the bytes left in the output. `none` is the early
-- `return 0`.
unfoldable pub emulation_loop : List ℕ → ℕ → ℕ → Option (List ℕ)
emulation_loop [] n room = some []
emulation_loop (x ∷ xs) n room =
    let escape = needs_escape n x in
    let left = if escape then room - 1 else room in
    let rest = emulation_loop xs (zeros_after (if escape then 0 else n) x) (left - 1) in
    if escape then emit 3 room (emit x left rest) else emit x room rest

unfoldable pub emulation_prevent : List ℕ → ℕ → Option (List ℕ)
emulation_prevent src capacity = emulation_loop src 0 capacity

-- Whether a 3 at this place is an escape: `i + 1 < src_size && src[i + 1] <= 3`.
abbrev pub next_small : List ℕ → Bool
next_small [] = false
next_small (y ∷ ys) = leb y 3

unfoldable pub unescape_loop : List ℕ → ℕ → ℕ → List ℕ
unescape_loop [] n room = []
unescape_loop (x ∷ xs) n zero = []
unescape_loop (x ∷ xs) n (suc room) = elim (leb 2 n && (x == 3 && next_small xs)) [
  | true ↦ unescape_loop xs 0 (suc room)
  | false ↦ x ∷ unescape_loop xs (zeros_after n x) room
]

unfoldable pub unescape_prefix : List ℕ → ℕ → List ℕ
unescape_prefix src dst_size = unescape_loop src 0 dst_size

abbrev pub start_code : List ℕ → List ℕ
start_code rest = 0 ∷ 0 ∷ 0 ∷ 1 ∷ rest

-- The bytes that `finish_nal` leaves in `buf`; their number is what it returns. `none` is -1.
unfoldable pub finish_nal : ℕ → List ℕ → Option (List ℕ)
finish_nal buf_size raw =
    if ltb buf_size 4 then none else elim (emulation_prevent raw (buf_size - 4)) [
      | none ↦ none
      | some escaped ↦
          if length escaped == 0 || ltb (2 ^ 31 - 1 - 4) (length escaped)
          then none
          else some (start_code escaped)
    ]
