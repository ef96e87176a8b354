-- ===== src/Buffers/Derived/Current.antt =====
-- What a successful `rk_MapBuffer` on a derived image of src/buffer.c vouches for.
use rockchip_vaapi.Base.{
  ◌+◌, ◌/◌, ◌^◌, ◌≤◌, ◌<◌, ◌≡◌, true, Option, none, some, List, ◌++◌, ◌∷◌, [], ◌==◌, if◌then◌else◌,
  ◌==◌, ◌⊎◌, ◌>>=◌,
}
use rockchip_vaapi.Buffers.Derived.{Bound, Layout, DerivedBuffer, Event, mapped, Step}

-- The layout of the surface is that of the buffer, which stands for the same descriptor; the size of the
-- memory is that of the object where the descriptor is another one than before.
pub record IsCurrent (layout : Layout) (before buffer : DerivedBuffer) : Type 0 where
  pub same_fd : buffer.derived_fd ≡ layout.fd
  pub same_pitch : buffer.derived_pitch ≡ layout.pitch
  pub same_chroma : buffer.derived_chroma_offset ≡ layout.chroma_offset
  pub new_size :
      buffer.derived_size
      ≡ (if layout.fd == before.derived_fd then before.derived_size else layout.object_size)

-- A mapping that is still there is one of the same descriptor.
abbrev pub Kept : Layout → DerivedBuffer → Type 0
Kept layout before = (before.derived_map ≡ true) × (before.derived_fd ≡ layout.fd)

abbrev Follows : Option Layout → DerivedBuffer → Option (DerivedBuffer × List Event) → Type 0
Follows found before none = Unit
Follows found before (some (valid, events)) =
    (layout : Layout) × (found ≡ some layout)
    × IsCurrent layout before valid
    × (valid.derived_map ≡ true → Kept layout before)

-- The mapping was there for this descriptor, or the call maps its memory in the size of the buffer.
abbrev pub Maps : Layout → DerivedBuffer → DerivedBuffer → List Event → Type 0
Maps layout before buffer events =
    Kept layout before
    ⊎ ((more : List Event) × (events ≡ more ++ mapped layout.fd buffer.derived_size ∷ []))

-- A mapping that is given out.
abbrev pub IsMapped : Option Layout → DerivedBuffer → Step → Type 0
IsMapped found before step =
    (layout : Layout) × (found ≡ some layout)
    × IsCurrent layout before step.buffer
    × (step.buffer.derived_map ≡ true)
    × Maps layout before step.buffer step.events

-- The strides and dimensions of a surface are of 31 bits.
pub record IsBound (surface : Bound) : Type 0 where
  pub width : surface.width < 2 ^ 31
  pub height : surface.height < 2 ^ 31
  pub hstride : surface.hstride < 2 ^ 31
  pub vstride : surface.vstride < 2 ^ 31

-- No step changes the chroma offset.
abbrev SameChroma : DerivedBuffer → Option (DerivedBuffer × List Event) → Type 0
SameChroma buffer none = Unit
SameChroma buffer (some (valid, events)) =
    buffer.derived_chroma_offset ≡ valid.derived_chroma_offset

-- The memory of the buffer has both planes of its layout.
abbrev pub IsWhole : DerivedBuffer → Type 0
IsWhole buffer =
    buffer.derived_chroma_offset + buffer.derived_chroma_offset / 2 ≤ buffer.derived_size
