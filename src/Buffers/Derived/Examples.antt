-- ===== src/Buffers/Derived/Examples.antt =====
-- The buffer of an NV12 surface of 64 by 32 samples, mapped while the surface moves to another buffer.
use rockchip_vaapi.Base.{ℕ, ◌+◌, ◌≡◌, true, false, Option, none, some, List, [], ◌∷◌}
use rockchip_vaapi.Buffers.Derived.{Bound, Layout, DerivedBuffer}
use rockchip_vaapi.Buffers.Derived.Balanced.{
  Call, map, unmap, acquire, replay, life_events, held_of, life_events-replay,
}

abbrev surface : Bound
surface = record {
  imported_multiplane = false;
  import_buf = none;
  backing_buf = none;
  frame = some 3;
  priv_buf = some 1;
  width = 64;
  height = 32;
  hstride = 64;
  vstride = 0;
  ten_bit = false;
}

abbrev layout_with : ℕ → Layout
layout_with fd = record { fd = fd; object_size = 4096; pitch = 64; chroma_offset = 2048 }

abbrev buffer : DerivedBuffer
buffer = record {
  derived_fd = 7;
  derived_size = 4096;
  derived_pitch = 64;
  derived_chroma_offset = 2048;
  derived_map = false;
  acquired_fd = none;
}

abbrev frame_buffer : ℕ → Option ℕ
frame_buffer frame = some (frame + 1)

abbrev fd_of : ℕ → Option ℕ
fd_of buf = some (buf + 5)

abbrev size_of : ℕ → ℕ
size_of buf = 4096

-- Two mappings and a handle, then a move to descriptor 9, a failed copy of it, a handle of a kind that is
-- not offered, and a stale layout.
abbrev calls : List Call
calls =
    map (some (layout_with 7)) true true
    ∷ acquire 0x20000000 0x20000000 (some (layout_with 7)) (some (layout_with 7)) (some 8)
    ∷ map (some (layout_with 9)) true false
    ∷ acquire 0x20000000 0 (some (layout_with 9)) (some (layout_with 9)) none
    ∷ acquire 0x20000000 4 none none none
    ∷ unmap true
    ∷ map none true true
    ∷ []

life_events-replay_example : replay (life_events calls buffer) (held_of buffer) ≡ some (none, none)
life_events-replay_example = life_events-replay calls buffer
