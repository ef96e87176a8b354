-- ===== src/ObjectHeap/Removal.antt =====
-- What `rk_object_heap_remove` does, on every branch, to a well-formed heap.
use rockchip_vaapi.Base.{
  ℕ, ◌+◌, ◌/◌, ◌%◌, ◌^◌, ◌≤◌, ◌<◌, ◌≡◌, ◌≢◌, refl, ap, none, some, false, true, List, ◌∷◌, ◌⊎◌, inl,
  inr, arith, length, Option, Bool-cases, Option-cases, ◌==◌,
}
use rockchip_vaapi.ObjectHeap.{
  Heap, Slot, slot_at, is_some, no_slot, vacate, retire, recycle, rk_object_heap_remove, resolve,
}
use rockchip_vaapi.ObjectHeap.Invariant.{IsWellFormed}
use rockchip_vaapi.ObjectHeap.Chains.{slot_at-set_ne, slot_at-set_self}
use rockchip_vaapi.ObjectHeap.Operations.{retire-IsWellFormed, recycle-IsWellFormed}

-- The object left its slot, whose generation went up or which was retired; no other slot changed.
pub record IsRemoved (before after : Heap) (object id : ℕ) : Type 0 where
  pub index : ℕ
  pub index_of_id : index ≡ id % 2 ^ 20
  pub in_range : index < before.high_water
  pub held : (slot_at before.slots index).object ≡ some object
  pub was_live : (slot_at before.slots index).retired ≡ false
  pub was_generation : (slot_at before.slots index).generation ≡ id / 2 ^ 20 % 256
  pub now_empty : (slot_at after.slots index).object ≡ none
  pub aged :
      ((slot_at after.slots index).retired ≡ true)
      ⊎ ((slot_at after.slots index).generation ≡ (slot_at before.slots index).generation + 1)
  pub kept : (slot_at before.slots index).generation ≤ (slot_at after.slots index).generation
  pub others : (j : ℕ) → index ≢ j → slot_at after.slots j ≡ slot_at before.slots j
  pub same_type : after.type ≡ before.type
  pub same_high_water : after.high_water ≡ before.high_water

abbrev pub IsRemoval : Heap → ℕ → Heap × Option ℕ → Type 0
IsRemoval before id (after, none) = (after ≡ before) × (resolve before id ≡ none)
IsRemoval before id (after, some object) =
    ((free : List ℕ) × IsWellFormed after free) × IsRemoved before after object id

-- What `resolve` finds: a live slot of the identifier's generation.
abbrev pub IsFound : Heap → ℕ → ℕ → ℕ → Type 0
IsFound heap id index object =
    (index ≡ id % 2 ^ 20)
    × (index < heap.high_water)
    × ((slot_at heap.slots index).object ≡ some object)
    × ((slot_at heap.slots index).retired ≡ false)
    × ((slot_at heap.slots index).generation ≡ id / 2 ^ 20 % 256)
    × (id / 2 ^ 28 % 16 ≡ heap.type)

pub resolve-some :
    (heap : Heap) (id index object : ℕ)
    → resolve heap id ≡ some (index, object)
    → IsFound heap id index object
unfolding resolve
resolve-some heap id index object e = ground arith

module _ (heap : Heap) (free : List ℕ) (id index object : ℕ) (v : IsWellFormed heap free)
    (e : resolve heap id ≡ some (index, object)) where
  found : IsFound heap id index object
  found = resolve-some heap id index object e

  holds : is_some (slot_at heap.slots index).object ≡ true
  holds = ap is_some (found.2)

  inside : index < length heap.slots
  inside = omega (arith, found, v.sized, v.within)

  retired_branch :
      (slot_at heap.slots index).generation ≡ 255
      → IsRemoval heap id (retire heap index, some object)
  retired_branch last =
      let (i, lt, o, live, g, t) = found in
      let gone : Slot = record (slot_at heap.slots index) {
        object = none;
        retired = true;
        next_free = no_slot;
      } in
      let self = slot_at-set_self heap.slots index gone inside in
      (
        (free, retire-IsWellFormed heap free index v lt holds),
        record {
          index = index;
          index_of_id = i;
          in_range = lt;
          held = o;
          was_live = live;
          was_generation = g;
          now_empty = ap (λ (s : Slot). s.object) self;
          aged = inl (ap (λ (s : Slot). s.retired) self);
          kept = omega (arith, ap (λ (s : Slot). s.generation) self);
          others = λ j ne. slot_at-set_ne heap.slots index j gone ne;
          same_type = refl;
          same_high_water = refl;
        },
      )

  recycled_branch :
      (slot_at heap.slots index).generation < 255
      → IsRemoval heap id (recycle heap index, some object)
  recycled_branch low =
      let (i, lt, o, live, g, t) = found in
      let freed : Slot = record (slot_at heap.slots index) {
        object = none;
        generation = ((slot_at heap.slots index).generation + 1) % 256;
        next_free = heap.free_head;
      } in
      let self = slot_at-set_self heap.slots index freed inside in
      (
        (index ∷ free, recycle-IsWellFormed heap free index v lt holds low live),
        record {
          index = index;
          index_of_id = i;
          in_range = lt;
          held = o;
          was_live = live;
          was_generation = g;
          now_empty = ap (λ (s : Slot). s.object) self;
          aged = inr (omega (arith, ap (λ (s : Slot). s.generation) self));
          kept = omega (arith, ap (λ (s : Slot). s.generation) self);
          others = λ j ne. slot_at-set_ne heap.slots index j freed ne;
          same_type = refl;
          same_high_water = refl;
        },
      )

  vacated : IsRemoval heap id (vacate heap index, some object)
  vacated = elim (Bool-cases ((slot_at heap.slots index).generation == 255)) [
    | inl last ↦ rw last (retired_branch (ground arith))
    | inr low ↦ rw low (recycled_branch (ground (arith, v.live_generation index (found.1))))
  ]

-- Removing an identifier from a well-formed heap: it fails only where the identifier does not
-- resolve, and changes nothing then; otherwise the heap stays well formed and one slot is vacated.
pub remove-IsRemoval :
    (heap : Heap) (free : List ℕ) (id : ℕ)
    → IsWellFormed heap free
    → IsRemoval heap id (rk_object_heap_remove heap id)
unfolding rk_object_heap_remove
remove-IsRemoval heap free id v = elim (Option-cases (resolve heap id)) [
  | inl e ↦ rw (e, rk_object_heap_remove) (refl, e)
  | inr ((index, object), e) ↦ rw (e, rk_object_heap_remove) (vacated heap free id index object v e)
]
