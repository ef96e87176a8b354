-- ===== src/Buffers/Derived/Balanced.antt =====
-- The system calls of the derived images of src/buffer.c: what is open and mapped behind them.
use rockchip_vaapi.Base.{
  ℕ, ◌≡◌, refl, ap, ◌∙◌, Bool, true, false, not, ◌||◌, ◌&&◌, Option, none, some, List, [], ◌∷◌,
  ◌++◌, arith, ◌==◌, if◌then◌else◌, Bool-cases, Option-cases, inl, inr,
}
use rockchip_vaapi.Buffers.Derived.{
  Layout, DerivedBuffer, Event, mapped, unmapped, duplicated, closed, Step, derived_still_valid,
  map_derived, map_after, duplicate_after, acquire_after, unmap_derived, dup_events, acquire_handle,
  release_handle, destroy_events,
}

-- What the system holds for a buffer: the size of a mapping, and a duplicated descriptor.
abbrev pub Held : Type 0
Held = Option ℕ × Option ℕ

-- A mapping or a descriptor more than one would leak, and one that is given back has to be the one that
-- is held: `none` is a leak or a wrong return.
abbrev pub replay_one : Event → Held → Option Held
replay_one (mapped fd size) (none, handle) = some (some size, handle)
replay_one (unmapped size) (some held, handle) = if size == held then some (none, handle) else none
replay_one (duplicated fd) (window, none) = some (window, some fd)
replay_one (closed fd) (window, some held) = if fd == held then some (window, none) else none
replay_one _ _ = none

abbrev pub replay : List Event → Held → Option Held
replay [] held = some held
replay (event ∷ events) held = elim (replay_one event held) [
  | none ↦ none
  | some next ↦ replay events next
]

abbrev pub held_of : DerivedBuffer → Held
held_of buffer = (if buffer.derived_map then some buffer.derived_size else none, buffer.acquired_fd)

replay-append :
    (events more : List Event) (held next : Held)
    → replay events held ≡ some next
    → replay (events ++ more) held ≡ replay more next
replay-append [] more held next e =
    ap (λ (r : Option Held). elim r [ none ↦ none | some h ↦ replay more h ]) e
replay-append (event ∷ events) more held next e =
    one (replay_one event held) (λ h. replay-append events more h next) e
  where
    one :
        (r : Option Held)
        → ((h : Held) → replay events h ≡ some next → replay (events ++ more) h ≡ replay more next)
        → (elim r [ none ↦ none | some h ↦ replay events h ]) ≡ some next
        → (elim r [ none ↦ none | some h ↦ replay (events ++ more) h ]) ≡ replay more next
    one none rest e = absurd (cc e)
    one (some h) rest e = rest h e

-- Nothing is held behind the destruction of a buffer.
destroy-replay :
    (buffer : DerivedBuffer) → replay (destroy_events buffer) (held_of buffer) ≡ some (none, none)
destroy-replay buffer = by_fields buffer.derived_map buffer.acquired_fd
  where
    by_fields :
        (map : Bool) (fd : Option ℕ)
        → replay
            ((if map then unmapped buffer.derived_size ∷ [] else [])
              ++ (elim fd [ none ↦ [] | some n ↦ closed n ∷ [] ]))
            ((if map then some buffer.derived_size else none), fd)
          ≡ some (none, none)
    by_fields true none = ground arith
    by_fields true (some n) = ground arith
    by_fields false none = refl
    by_fields false (some n) = ground arith

-- The calls on a buffer of a derived image, with what the system and the surface answer.
pub data Call : Type 0 where
  map : Option Layout → Bool → Bool → Call
  unmap : Bool → Call
  acquire : ℕ → ℕ → Option Layout → Option Layout → Option ℕ → Call
  release : Call

abbrev pub step_of : Call → DerivedBuffer → Step
step_of (map layout mmap sync) buffer = map_derived layout mmap sync buffer
step_of (unmap sync) buffer = unmap_derived sync buffer
step_of (acquire drm_prime mem_type layout again dup) buffer =
    acquire_handle drm_prime mem_type layout again dup buffer
step_of release buffer = release_handle buffer

-- The system calls of a sequence of calls, and of the destruction at its end.
abbrev pub life_events : List Call → DerivedBuffer → List Event
life_events [] buffer = destroy_events buffer
life_events (call ∷ calls) buffer =
    (step_of call buffer).events ++ life_events calls (step_of call buffer).buffer

-- The system calls of a step lead from what the buffer says is held to what it says then.
abbrev pub IsBalanced : DerivedBuffer → Step → Type 0
IsBalanced buffer step = replay step.events (held_of buffer) ≡ some (held_of step.buffer)

-- The look at the layout leads there too.
abbrev IsSound : DerivedBuffer → Option (DerivedBuffer × List Event) → Type 0
IsSound buffer none = Unit
IsSound buffer (some (valid, events)) = replay events (held_of buffer) ≡ some (held_of valid)

still_valid-IsSound :
    (layout : Option Layout) (buffer : DerivedBuffer)
    → IsSound buffer (derived_still_valid layout buffer)
unfolding derived_still_valid
still_valid-IsSound none buffer = tt
still_valid-IsSound (some layout) buffer =
    elim (Bool-cases (
      not (layout.pitch == buffer.derived_pitch)
      || not (layout.chroma_offset == buffer.derived_chroma_offset))) [
        | inl changed ↦ rw changed tt
        | inr same ↦ elim (Bool-cases (layout.fd == buffer.derived_fd)) [
          | inl kept ↦ rw (same, kept) refl
          | inr moved ↦ rw (same, moved) (destroy-replay buffer)
        ]
      ]

map-IsBalanced :
    (mmap sync : Bool) (buffer : DerivedBuffer) (r : Option (DerivedBuffer × List Event))
    → IsSound buffer r
    → IsBalanced buffer (map_after mmap sync buffer r)
map-IsBalanced mmap sync buffer none ok = refl
map-IsBalanced mmap sync buffer (some (valid, events)) ok = elim (Bool-cases valid.derived_map) [
  | inl on ↦ rw on (rw on at ok)
  | inr off ↦ elim (Bool-cases mmap) [
    | inr failed ↦ rw (off, failed) (rw off at ok)
    | inl succeeded ↦
        let all =
          replay-append events (mapped valid.derived_fd valid.derived_size ∷ []) (held_of buffer)
            (held_of valid) ok in
        let one : replay (mapped valid.derived_fd valid.derived_size ∷ []) (held_of valid)
            ≡ some (some valid.derived_size, valid.acquired_fd) =
          rw off refl in
        rw (off, succeeded) (all ∙ one)
  ]
]

duplicate-IsBalanced :
    (events : List Event) (start : Held) (buffer : DerivedBuffer)
    (r : Option (DerivedBuffer × List Event))
    → replay events start ≡ some (held_of buffer)
    → IsSound buffer r
    → replay (duplicate_after buffer events r).events start
      ≡ some (held_of (duplicate_after buffer events r).buffer)
duplicate-IsBalanced events start buffer none ok sound = ok
duplicate-IsBalanced events start buffer (some (valid, more)) ok sound =
    let all = replay-append events more start (held_of buffer) ok ∙ sound in
    elim (Option-cases valid.acquired_fd) [
      | inl lost ↦ rw lost (rw lost at all)
      | inr (fd, got) ↦ rw got (rw got at all)
    ]

acquire-IsBalanced :
    (again : Option Layout) (dup : Option ℕ) (buffer : DerivedBuffer)
    (r : Option (DerivedBuffer × List Event))
    → IsSound buffer r
    → IsBalanced buffer (acquire_after again dup buffer r)
acquire-IsBalanced again dup buffer none ok = refl
acquire-IsBalanced again dup buffer (some (valid, events)) ok =
    elim (Option-cases valid.acquired_fd) [
      | inr (fd, got) ↦ rw got (rw got at ok)
      | inl free ↦
          let open_buffer = record valid { acquired_fd = dup } in
          rw free (
            duplicate-IsBalanced (events ++ dup_events dup) (held_of buffer) open_buffer
              (derived_still_valid again open_buffer)
              (replay-append events (dup_events dup) (held_of buffer) (held_of valid) ok
                ∙ opened dup valid free)
              (still_valid-IsSound again open_buffer))
    ]
  where
    opened :
        (dup : Option ℕ) (valid : DerivedBuffer)
        → valid.acquired_fd ≡ none
        → replay (dup_events dup) (held_of valid) ≡ some ((held_of valid).0, dup)
    opened none valid free = rw free refl
    opened (some fd) valid free = rw free refl

release-IsBalanced : (buffer : DerivedBuffer) → IsBalanced buffer (release_handle buffer)
release-IsBalanced buffer = close buffer.acquired_fd
  where
    close :
        (fd : Option ℕ)
        → replay (elim fd [ none ↦ [] | some n ↦ closed n ∷ [] ]) ((held_of buffer).0, fd)
          ≡ some ((held_of buffer).0, none)
    close none = refl
    close (some n) = ground arith

step-IsBalanced : (call : Call) (buffer : DerivedBuffer) → IsBalanced buffer (step_of call buffer)
step-IsBalanced (map layout mmap sync) buffer =
    map-IsBalanced mmap sync buffer (derived_still_valid layout buffer)
      (still_valid-IsSound layout buffer)
step-IsBalanced (unmap sync) buffer = refl
step-IsBalanced (acquire drm_prime mem_type layout again dup) buffer =
    elim (Bool-cases (not (mem_type == 0) && not (mem_type == drm_prime))) [
      | inl other ↦ rw other refl
      | inr offered ↦ rw offered (
          acquire-IsBalanced again dup buffer (derived_still_valid layout buffer)
            (still_valid-IsSound layout buffer))
    ]
step-IsBalanced release buffer = release-IsBalanced buffer

-- Whatever calls are made on the buffer of a derived image, and however the surface changes and the
-- system answers between them, a mapping is made only where there is none and unmapped with its size,
-- a descriptor is duplicated only where there is none and closed once, and behind the destruction
-- of the buffer nothing is left mapped or open.
pub life_events-replay :
    (calls : List Call) (buffer : DerivedBuffer)
    → replay (life_events calls buffer) (held_of buffer) ≡ some (none, none)
life_events-replay [] buffer = destroy-replay buffer
life_events-replay (call ∷ calls) buffer =
    let step = step_of call buffer in
    replay-append step.events (life_events calls step.buffer) (held_of buffer) (held_of step.buffer)
      (step-IsBalanced call buffer)
    ∙ life_events-replay calls step.buffer
