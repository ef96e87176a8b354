-- ===== src/ObjectHeap/Insertion.antt =====
-- What `rk_object_heap_insert` does, on every branch, to a well-formed heap.
use rockchip_vaapi.Base.{
  ℕ, ◌-◌, ◌≤◌, ◌<◌, ◌≡◌, ◌≢◌, refl, ap, ◌∙◌, sym, none, some, false, List, [], ◌∷◌, ◌⊎◌, inl, inr,
  arith, set, Option, Bool, Option-cases,
}
use native.Mathlib.Decide.{ℕ_discrete}
use rockchip_vaapi.ObjectHeap.{
  Heap, Slot, slot_at, no_slot, index_limit, place, take_fresh, take_free, grow_heap, make_id, fill,
  extend, new_capacity, rk_object_heap_insert,
}
use rockchip_vaapi.ObjectHeap.Invariant.{IsWellFormed}
use rockchip_vaapi.ObjectHeap.Chains.{slot_at-set_ne, slot_at-set_self, slot_at-grow}
use rockchip_vaapi.ObjectHeap.Operations.{
  place_lem, fill-IsWellFormed, take_free-IsWellFormed, take_fresh-IsWellFormed, grow_heap_lem,
  extend-IsWellFormed,
}

-- The object went into one slot, which was empty and not retired, and whose generation makes the
-- identifier; no other slot changed.
pub record IsInserted (before after : Heap) (object id : ℕ) : Type 0 where
  pub index : ℕ
  pub generation : ℕ
  pub identifier : id ≡ make_id before.type generation index
  pub in_range : index < after.high_water
  pub positive : (1 ≤ generation) × (generation ≤ 255)
  pub was_empty : (slot_at before.slots index).object ≡ none
  pub was_live : (slot_at before.slots index).retired ≡ false
  pub was_generation :
      index < before.high_water → (slot_at before.slots index).generation ≡ generation
  pub now_object : (slot_at after.slots index).object ≡ some object
  pub now_live : (slot_at after.slots index).retired ≡ false
  pub now_generation : (slot_at after.slots index).generation ≡ generation
  pub others : (j : ℕ) → index ≢ j → slot_at after.slots j ≡ slot_at before.slots j
  pub same_type : after.type ≡ before.type
  pub grows : before.high_water ≤ after.high_water

-- No slot is free, and the heap is at its limit or could not get memory.
pub record IsFull (heap : Heap) (ok : Bool) : Type 0 where
  pub no_free : heap.free_head ≡ no_slot
  pub all_used : heap.high_water ≡ heap.capacity
  pub no_room : (heap.capacity ≡ index_limit) ⊎ (ok ≡ false)

abbrev pub IsInsertion : Heap → Bool → ℕ → Heap × Option ℕ → Type 0
IsInsertion before ok object (after, none) = (after ≡ before) × IsFull before ok
IsInsertion before ok object (after, some id) =
    ((free : List ℕ) × IsWellFormed after free) × IsInserted before after object id

-- Filling a slot of a heap that differs from `before` only where an insertion may change it.
fill-IsInserted :
    (before h : Heap) (free : List ℕ) (object i : ℕ)
    → IsWellFormed h free
    → i < h.high_water
    → (slot_at h.slots i).object ≡ none
    → (slot_at h.slots i).retired ≡ false
    → (slot_at before.slots i).object ≡ none
    → (slot_at before.slots i).retired ≡ false
    → (i < before.high_water → (slot_at before.slots i).generation ≡ (slot_at h.slots i).generation)
    → ((j : ℕ) → i ≢ j → slot_at h.slots j ≡ slot_at before.slots j)
    → h.type ≡ before.type
    → before.high_water ≤ h.high_water
    → IsInserted before (fill h object i) object (make_id h.type (slot_at h.slots i).generation i)
fill-IsInserted before h free object i v lt empty live empty' live' g others t grows = record {
  index = i;
  generation = (slot_at h.slots i).generation;
  identifier = ap (λ (k : ℕ). make_id k (slot_at h.slots i).generation i) t;
  in_range = lt;
  positive = v.live_generation i lt;
  was_empty = empty';
  was_live = live';
  was_generation = g;
  now_object = ap (λ (s : Slot). s.object) self;
  now_live = ap (λ (s : Slot). s.retired) self ∙ live;
  now_generation = ap (λ (s : Slot). s.generation) self;
  others = λ j ne. slot_at-set_ne h.slots i j filled ne ∙ others j ne;
  same_type = t;
  grows = grows;
}
  where
    filled : Slot
    filled = record (slot_at h.slots i) { object = some object; next_free = no_slot }

    self : slot_at (set h.slots i filled) i ≡ filled
    self = slot_at-set_self h.slots i filled (omega (arith, v.sized, v.within))

-- The branch that `rk_object_heap_insert` takes, by the state of the heap.
insert_free :
    (ok : Bool) (heap : Heap) (object i : ℕ) (rest : List ℕ)
    → IsWellFormed heap (i ∷ rest)
    → rk_object_heap_insert ok heap (some object) ≡ place (take_free heap) object i
unfolding rk_object_heap_insert
insert_free ok heap object i rest v = ground (arith, v.typed, v.chain.0, v.chain.1)

insert_fresh :
    (ok : Bool) (heap : Heap) (object : ℕ)
    → IsWellFormed heap []
    → heap.high_water < heap.capacity
    → rk_object_heap_insert ok heap (some object) ≡ place (take_fresh heap) object heap.high_water
unfolding rk_object_heap_insert
insert_fresh ok heap object v lt = ground (arith, v.typed, v.chain)

insert_grown :
    (ok : Bool) (heap grown : Heap) (object : ℕ)
    → IsWellFormed heap []
    → heap.high_water ≡ heap.capacity
    → grow_heap ok heap ≡ some grown
    → rk_object_heap_insert ok heap (some object) ≡ place (take_fresh grown) object grown.high_water
unfolding rk_object_heap_insert
insert_grown ok heap grown object v eq e = ground (arith, v.typed, v.chain)

insert_full :
    (ok : Bool) (heap : Heap) (object : ℕ)
    → IsWellFormed heap []
    → heap.high_water ≡ heap.capacity
    → grow_heap ok heap ≡ none
    → rk_object_heap_insert ok heap (some object) ≡ (heap, none)
unfolding rk_object_heap_insert
insert_full ok heap object v eq e = ground (arith, v.typed, v.chain)

-- Filling the first slot above the high-water mark of a heap that reads like `before`.
fresh-IsInsertion :
    (ok : Bool) (before h : Heap) (object : ℕ)
    → IsWellFormed h []
    → h.high_water < h.capacity
    → h.type ≡ before.type
    → h.high_water ≡ before.high_water
    → ((j : ℕ) → slot_at h.slots j ≡ slot_at before.slots j)
    → IsInsertion before ok object (place (take_fresh h) object h.high_water)
fresh-IsInsertion ok before h object v lt t same reads =
    rw (place_lem (take_fresh h) [] object hw w below empty live) (
      ([], fill-IsWellFormed (take_fresh h) [] object hw w below tt empty),
      fill-IsInserted before (take_fresh h) [] object hw w below empty live
          (ap (λ (s : Slot). s.object) (sym (reads hw)) ∙ (v.untouched hw (omega arith)).0)
          (ap (λ (s : Slot). s.retired) (sym (reads hw)) ∙ (v.untouched hw (omega arith)).1)
          (λ low. absurd (omega arith)) (λ j ne. slot_at-set_ne h.slots hw j first ne ∙ reads j) t
          (omega (arith, w.within)),
    )
  where
    hw : ℕ
    hw = h.high_water

    first : Slot
    first = record (slot_at h.slots hw) { generation = 1 }

    w : IsWellFormed (take_fresh h) []
    w = take_fresh-IsWellFormed h [] v lt

    below : hw < (take_fresh h).high_water
    below = omega (arith, v.limited)

    self : slot_at (take_fresh h).slots hw ≡ first
    self = slot_at-set_self h.slots hw first (omega (arith, v.sized))

    empty : (slot_at (take_fresh h).slots hw).object ≡ none
    empty = ap (λ (s : Slot). s.object) self ∙ (v.untouched hw (omega arith)).0

    live : (slot_at (take_fresh h).slots hw).retired ≡ false
    live = ap (λ (s : Slot). s.retired) self ∙ (v.untouched hw (omega arith)).1

grow_heap-none :
    (ok : Bool) (heap : Heap)
    → heap.capacity ≤ index_limit
    → grow_heap ok heap ≡ none
    → (heap.capacity ≡ index_limit) ⊎ (ok ≡ false)
unfolding grow_heap
grow_heap-none ok heap lim e = ground arith

full_branch :
    (ok : Bool) (heap : Heap) (object : ℕ)
    → IsWellFormed heap []
    → heap.high_water ≡ heap.capacity
    → IsInsertion heap ok object (rk_object_heap_insert ok heap (some object))
full_branch ok heap object v eq = elim (Option-cases (grow_heap ok heap)) [
  | inl e ↦ rw (insert_full ok heap object v eq e) (
    refl,
    record { no_free = v.chain; all_used = eq; no_room = grow_heap-none ok heap v.limited e },
  )
  | inr (grown, e) ↦
      let (is, more, lim) = grow_heap_lem ok heap grown e in
      let g : Heap = extend heap (new_capacity heap.capacity) in
      rw (insert_grown ok heap g object v eq (rw is at e)) (
        fresh-IsInsertion ok heap g object
          (extend-IsWellFormed heap [] (new_capacity heap.capacity) v (omega arith) lim)
          (omega arith) refl refl
          (λ j. slot_at-grow heap.slots (new_capacity heap.capacity - heap.capacity) j))
]

-- Inserting an object into a well-formed heap: it fails only on a full heap, which it leaves as it
-- was; otherwise the heap stays well formed and the object went into one empty slot.
pub insert-IsInsertion :
    (ok : Bool) (heap : Heap) (free : List ℕ) (object : ℕ)
    → IsWellFormed heap free
    → IsInsertion heap ok object (rk_object_heap_insert ok heap (some object))
insert-IsInsertion ok heap [] object v = elim (ℕ_discrete heap.high_water heap.capacity) [
  | yes eq ↦ full_branch ok heap object v eq
  | no ne ↦
      rw (insert_fresh ok heap object v (omega (arith, v.within)))
        (fresh-IsInsertion ok heap heap object v (omega (arith, v.within)) refl refl (λ j. refl))
]
insert-IsInsertion ok heap (i ∷ rest) object v =
    let w = take_free-IsWellFormed heap i rest v in
    rw (insert_free ok heap object i rest v) (
      rw (place_lem (take_free heap) rest object i w v.below.0 v.chain.2 v.chain.3) (
        (rest, fill-IsWellFormed (take_free heap) rest object i w v.below.0 v.distinct.0 v.chain.2),
        fill-IsInserted heap (take_free heap) rest object i w v.below.0 v.chain.2 v.chain.3
            v.chain.2 v.chain.3 (λ lt. refl) (λ j ne. refl) refl (omega arith),
      ))
