-- ===== src/Buffers/Derived.antt =====
-- src/buffer.c: the buffers of derived images, which stand for the memory of a surface. The layout of the
-- surface is that of `surface_linear_layout`; what MPP says of its buffers, and whether `mmap`, `dup` and
-- the brackets of an access succeed, are arguments. Each call gives the system calls that it makes.
pub mod Balanced
pub mod Current
mod Examples
use rockchip_vaapi.Base.{
  ℕ, zero, suc, ◌+◌, ◌-◌, ◌*◌, ◌/◌, ◌%◌, ◌^◌, Bool, true, false, not, ◌&&◌, ◌||◌, Option, none,
  some, List, [], ◌∷◌, ◌++◌, ltb, leb, ◌==◌, if◌then◌else◌, require, ◌>>=◌, ◌>>◌,
}
use rockchip_vaapi.Buffers.{
  Status, error_operation_failed, error_allocation_failed, error_unsupported_memory_type,
}

-- `RKSurface`, as far as `surface_linear_layout` reads it. A buffer of MPP is a number.
pub record Bound : Type 0 where
  pub imported_multiplane : Bool
  pub import_buf : Option ℕ
  pub backing_buf : Option ℕ
  pub frame : Option ℕ
  pub priv_buf : Option ℕ
  pub width : ℕ
  pub height : ℕ
  pub hstride : ℕ
  pub vstride : ℕ
  pub ten_bit : Bool

-- What `surface_linear_layout` gives.
pub record Layout : Type 0 where
  pub fd : ℕ
  pub object_size : ℕ
  pub pitch : ℕ
  pub chroma_offset : ℕ

abbrev pub active_buffer : (ℕ → Option ℕ) → Bound → Option ℕ
active_buffer frame_buffer surface = elim surface.import_buf [
  | some buf ↦ some buf
  | none ↦ elim surface.backing_buf [
    | some buf ↦ some buf
    | none ↦ elim surface.frame [ some frame ↦ frame_buffer frame | none ↦ surface.priv_buf ]
  ]
]

abbrev pub pitch_of_surface : Bound → ℕ
pitch_of_surface surface =
    let hstride = if surface.hstride == 0 then surface.width else surface.hstride in
    if surface.ten_bit then hstride * 2 % 2 ^ 32 else hstride

abbrev pub rows_of_surface : Bound → ℕ
rows_of_surface surface = if surface.vstride == 0 then surface.height else surface.vstride

-- The layout in a buffer with a descriptor and a size.
unfoldable pub layout_in : ℕ → ℕ → Bound → Option Layout
layout_in fd object_size surface =
    let pitch = pitch_of_surface surface in
    let chroma_offset = pitch * rows_of_surface surface % 2 ^ 64 in
    if object_size == 0 || ltb object_size ((chroma_offset + chroma_offset / 2) % 2 ^ 64)
    then none
    else some (record {
      fd = fd;
      object_size = object_size;
      pitch = pitch;
      chroma_offset = chroma_offset;
    })

-- `mpp_frame_get_buffer`, `mpp_buffer_get_fd` (`none` below 0) and `mpp_buffer_get_size` are arguments.
unfoldable pub surface_linear_layout :
    (ℕ → Option ℕ) → (ℕ → Option ℕ) → (ℕ → ℕ) → Bound → Option Layout
surface_linear_layout frame_buffer fd_of size_of surface = do
  require (not surface.imported_multiplane)
  active ← active_buffer frame_buffer surface
  fd ← fd_of active
  layout_in fd (size_of active) surface

-- The fields of `RKBuffer` for a derived image; `acquired_fd` is `none` below 0.
pub record DerivedBuffer : Type 0 where
  pub derived_fd : ℕ
  pub derived_size : ℕ
  pub derived_pitch : ℕ
  pub derived_chroma_offset : ℕ
  pub derived_map : Bool
  pub acquired_fd : Option ℕ

-- The system calls that succeed: mappings by their size, and descriptors.
pub data Event : Type 0 where
  mapped : ℕ → ℕ → Event
  unmapped : ℕ → Event
  duplicated : ℕ → Event
  closed : ℕ → Event

pub record Step : Type 0 where
  pub buffer : DerivedBuffer
  pub events : List Event
  pub status : Option Status

abbrev pub unmap_events : DerivedBuffer → List Event
unmap_events buffer = if buffer.derived_map then unmapped buffer.derived_size ∷ [] else []

abbrev pub close_events : DerivedBuffer → List Event
close_events buffer = elim buffer.acquired_fd [ none ↦ [] | some fd ↦ closed fd ∷ [] ]

-- `none` is false, which changes nothing. The layout is that of the surface at the time of the look.
unfoldable pub derived_still_valid :
    Option Layout → DerivedBuffer → Option (DerivedBuffer × List Event)
derived_still_valid none buffer = none
derived_still_valid (some layout) buffer =
    if not (layout.pitch == buffer.derived_pitch)
      || not (layout.chroma_offset == buffer.derived_chroma_offset)
    then none
    else if layout.fd == buffer.derived_fd
    then some (buffer, [])
    else some (
      record buffer {
        derived_fd = layout.fd;
        derived_size = layout.object_size;
        derived_map = false;
        acquired_fd = none;
      },
      unmap_events buffer ++ close_events buffer,
    )

abbrev pub refused : DerivedBuffer → List Event → Status → Step
refused buffer events status = record { buffer = buffer; events = events; status = some status }

abbrev pub synchronized : DerivedBuffer → List Event → Bool → Step
synchronized buffer events sync = record {
  buffer = buffer;
  events = events;
  status = if sync then none else some error_operation_failed;
}

-- `rk_MapBuffer` on a derived image, behind the look at the layout.
abbrev pub map_after : Bool → Bool → DerivedBuffer → Option (DerivedBuffer × List Event) → Step
map_after mmap sync buffer none = refused buffer [] error_operation_failed
map_after mmap sync buffer (some (valid, events)) =
    if valid.derived_map
    then synchronized valid events sync
    else if mmap
    then synchronized (record valid { derived_map = true })
        (events ++ (mapped valid.derived_fd valid.derived_size ∷ [])) sync
    else refused valid events error_operation_failed

abbrev pub map_derived : Option Layout → Bool → Bool → DerivedBuffer → Step
map_derived layout mmap sync buffer = map_after mmap sync buffer (derived_still_valid layout buffer)

-- `rk_UnmapBuffer` keeps the mapping.
abbrev pub unmap_derived : Bool → DerivedBuffer → Step
unmap_derived sync buffer = synchronized buffer [] (not buffer.derived_map || sync)

-- `rk_buffer_acquire_handle` behind `dup`, which gives a descriptor or fails, and the second look at the
-- layout.
abbrev pub duplicate_after : DerivedBuffer → List Event → Option (DerivedBuffer × List Event) → Step
duplicate_after buffer events none = refused buffer events error_operation_failed
duplicate_after buffer events (some (valid, more)) = elim valid.acquired_fd [
  | none ↦ refused valid (events ++ more) error_allocation_failed
  | some fd ↦ record { buffer = valid; events = events ++ more; status = none }
]

abbrev pub dup_events : Option ℕ → List Event
dup_events none = []
dup_events (some fd) = duplicated fd ∷ []

abbrev pub duplicate : Option Layout → Option ℕ → DerivedBuffer → List Event → Step
duplicate again dup buffer events =
    let open_buffer = record buffer { acquired_fd = dup } in
    duplicate_after open_buffer (events ++ dup_events dup) (derived_still_valid again open_buffer)

abbrev pub acquire_after :
    Option Layout → Option ℕ → DerivedBuffer → Option (DerivedBuffer × List Event) → Step
acquire_after again dup buffer none = refused buffer [] error_operation_failed
acquire_after again dup buffer (some (valid, events)) = elim valid.acquired_fd [
  | some fd ↦ record { buffer = valid; events = events; status = none }
  | none ↦ duplicate again dup valid events
]

-- `rk_buffer_acquire_handle` with the memory type of DRM PRIME, which libva gives, and that of the
-- caller; the handle is the descriptor that the buffer then holds.
abbrev pub acquire_handle : ℕ → ℕ → Option Layout → Option Layout → Option ℕ → DerivedBuffer → Step
acquire_handle drm_prime mem_type layout again dup buffer =
    if not (mem_type == 0) && not (mem_type == drm_prime)
    then refused buffer [] error_unsupported_memory_type
    else acquire_after again dup buffer (derived_still_valid layout buffer)

-- `rk_buffer_release_handle`.
abbrev pub release_handle : DerivedBuffer → Step
release_handle buffer = record {
  buffer = record buffer { acquired_fd = none };
  events = close_events buffer;
  status = none;
}

-- `buffer_destroy`: what it gives back.
abbrev pub destroy_events : DerivedBuffer → List Event
destroy_events buffer = unmap_events buffer ++ close_events buffer
