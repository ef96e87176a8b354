-- ===== src/ObjectHeap/Operations.antt =====
-- The steps of the operations of src/object_heap.c on the invariant.
use rockchip_vaapi.Base.{
  ℕ, ◌+◌, ◌-◌, ◌≤◌, ◌<◌, ◌≡◌, refl, ◌∙◌, sym, none, some, false, true, List, ◌∷◌, arith, length,
  length-set, length-append, length-replicate, set, replicate, Bool, ◌^◌, ◌%◌,
}
use native.Mathlib.Decide.{ℕ_discrete}
use rockchip_vaapi.ObjectHeap.{
  Heap, Slot, slot_at, zero_slot, is_some, no_slot, index_limit, place, take_fresh, take_free,
  extend, new_capacity, fill, retire, recycle, grow_heap, make_id,
}
use rockchip_vaapi.ObjectHeap.Invariant.{Avoids, occupied, IsWellFormed}
use rockchip_vaapi.ObjectHeap.Chains.{
  slot_at-set_ne, slot_at-set_self, FreeChain-set, FreeChain-same, occupied_Avoids, AllBelow-Avoids,
  AllBelow-mono, occupied-set, occupied-le-length, occupied-grow, slot_at-grow,
}

-- A write to one slot that the free list avoids keeps everything but the count.
written :
    (heap : Heap) (free : List ℕ) (i : ℕ) (s : Slot) (c : ℕ)
    → IsWellFormed heap free
    → i < heap.high_water
    → Avoids i free
    → (1 ≤ s.generation) × (s.generation ≤ 255)
    → c ≡ occupied (set heap.slots i s)
    → IsWellFormed (record heap { slots = set heap.slots i s; count = c }) free
written heap free i s c v lt a g e = record {
  typed = v.typed;
  sized = length-set heap.slots i s ∙ v.sized;
  within = v.within;
  limited = v.limited;
  chain = FreeChain-set heap.slots i s heap.free_head free a v.chain;
  distinct = v.distinct;
  below = v.below;
  live_generation = λ j lt'. elim (ℕ_discrete i j) [
    | yes p ↦
        let same : slot_at (set heap.slots i s) j ≡ s =
          rw (← p) (slot_at-set_self heap.slots i s (omega (arith, v.sized, v.within))) in
        rw same g
    | no p ↦ rw (slot_at-set_ne heap.slots i j s p) (v.live_generation j lt')
  ];
  untouched = λ j le. rw (slot_at-set_ne heap.slots i j s (omega arith)) (v.untouched j le);
  counted = e;
}

pub fill-IsWellFormed :
    (heap : Heap) (free : List ℕ) (object i : ℕ)
    → IsWellFormed heap free
    → i < heap.high_water
    → Avoids i free
    → (slot_at heap.slots i).object ≡ none
    → IsWellFormed (fill heap object i) free
fill-IsWellFormed heap free object i v lt a empty =
    written heap free i _ _ v lt a (v.live_generation i lt) (
      ground (
        arith,
        occupied-set heap.slots i
            (record (slot_at heap.slots i) { object = some object; next_free = no_slot })
            (omega (arith, v.sized, v.within)),
        occupied-le-length heap.slots,
        v.counted,
        v.sized,
        v.limited,
      ))

-- A filled slot: the result of `place` at a slot that is free and has a generation.
pub place_lem :
    (heap : Heap) (free : List ℕ) (object i : ℕ)
    → IsWellFormed heap free
    → i < heap.high_water
    → (slot_at heap.slots i).object ≡ none
    → (slot_at heap.slots i).retired ≡ false
    → place heap object i
      ≡ (fill heap object i, some (make_id heap.type (slot_at heap.slots i).generation i))
place_lem heap free object i v lt empty live = ground (arith, v.live_generation i lt, empty, live)

-- The start of an insertion from the free list.
pub take_free-IsWellFormed :
    (heap : Heap) (i : ℕ) (rest : List ℕ)
    → IsWellFormed heap (i ∷ rest)
    → IsWellFormed (take_free heap) rest
take_free-IsWellFormed heap i rest v = record {
  typed = v.typed;
  sized = v.sized;
  within = v.within;
  limited = v.limited;
  chain = rw (v.chain.0) (v.chain.4);
  distinct = v.distinct.1;
  below = v.below.1;
  live_generation = v.live_generation;
  untouched = v.untouched;
  counted = v.counted;
}

-- The start of an insertion above the high-water mark.
pub take_fresh-IsWellFormed :
    (heap : Heap) (free : List ℕ)
    → IsWellFormed heap free
    → heap.high_water < heap.capacity
    → IsWellFormed (take_fresh heap) free
take_fresh-IsWellFormed heap free v lt = record {
  typed = v.typed;
  sized = length-set heap.slots hw _ ∙ v.sized;
  within = omega (arith, v.limited);
  limited = v.limited;
  chain =
      FreeChain-set heap.slots hw _ heap.free_head free
        (AllBelow-Avoids hw hw free (omega arith) v.below) v.chain;
  distinct = v.distinct;
  below = AllBelow-mono hw _ free (omega (arith, v.limited)) v.below;
  live_generation = λ j lt'. elim (ℕ_discrete hw j) [
    | yes p ↦ rw (← p) (rw (slot_at-set_self heap.slots hw first inside) (omega arith))
    | no p ↦
        rw (slot_at-set_ne heap.slots hw j first p) (v.live_generation j (omega (arith, v.limited)))
  ];
  untouched = λ j le.
      rw (slot_at-set_ne heap.slots hw j first (omega (arith, v.limited)))
        (v.untouched j (omega (arith, v.limited)));
  counted =
      ground
        (arith, occupied-set heap.slots hw first inside, v.counted, v.untouched hw (omega arith));
}
  where
    hw : ℕ
    hw = heap.high_water

    first : Slot
    first = record (slot_at heap.slots hw) { generation = 1 }

    inside : hw < length heap.slots
    inside = omega (arith, v.sized)

-- A successful growth is by `extend`, to a larger capacity within the limit.
pub grow_heap_lem :
    (ok : Bool) (heap grown : Heap)
    → grow_heap ok heap ≡ some grown
    → (grown ≡ extend heap (new_capacity heap.capacity))
      × (heap.capacity < new_capacity heap.capacity)
      × (new_capacity heap.capacity ≤ index_limit)
unfolding grow_heap
grow_heap_lem ok heap grown e = ground arith

-- Growth keeps the invariant and moves nothing.
pub extend-IsWellFormed :
    (heap : Heap) (free : List ℕ) (capacity : ℕ)
    → IsWellFormed heap free
    → heap.capacity ≤ capacity
    → capacity ≤ index_limit
    → IsWellFormed (extend heap capacity) free
extend-IsWellFormed heap free capacity v le lim = record {
  typed = v.typed;
  sized = omega (
    arith,
    length-append heap.slots (replicate more zero_slot),
    length-replicate more zero_slot,
    v.sized,
  );
  within = omega (arith, v.within);
  limited = lim;
  chain = FreeChain-same heap.slots _ heap.free_head free (slot_at-grow heap.slots more) v.chain;
  distinct = v.distinct;
  below = v.below;
  live_generation = λ j lt. rw (slot_at-grow heap.slots more j) (v.live_generation j lt);
  untouched = λ j lt. rw (slot_at-grow heap.slots more j) (v.untouched j lt);
  counted = v.counted ∙ sym (occupied-grow heap.slots more);
}
  where
    more : ℕ
    more = capacity - heap.capacity

-- Retiring a slot that holds an object.
pub retire-IsWellFormed :
    (heap : Heap) (free : List ℕ) (i : ℕ)
    → IsWellFormed heap free
    → i < heap.high_water
    → is_some (slot_at heap.slots i).object ≡ true
    → IsWellFormed (retire heap i) free
retire-IsWellFormed heap free i v lt o =
    written heap free i _ _ v lt (occupied_Avoids heap.slots i heap.free_head free o v.chain)
      (v.live_generation i lt)
      (ground (
        arith,
        occupied-set heap.slots i
            (record (slot_at heap.slots i) { object = none; retired = true; next_free = no_slot })
            (omega (arith, v.sized, v.within)),
        occupied-le-length heap.slots,
        v.counted,
        v.sized,
        v.limited,
      ))

-- Recycling a slot that holds an object puts it in front of the free list.
pub recycle-IsWellFormed :
    (heap : Heap) (free : List ℕ) (i : ℕ)
    → IsWellFormed heap free
    → i < heap.high_water
    → is_some (slot_at heap.slots i).object ≡ true
    → (slot_at heap.slots i).generation < 255
    → (slot_at heap.slots i).retired ≡ false
    → IsWellFormed (recycle heap i) (i ∷ free)
recycle-IsWellFormed heap free i v lt o g live = record {
  typed = w.typed;
  sized = w.sized;
  within = w.within;
  limited = w.limited;
  chain =
      rw (slot_at-set_self heap.slots i freed (omega (arith, v.sized, v.within)))
        (refl, omega (arith, v.within, v.limited), refl, live, w.chain);
  distinct = (avoids, v.distinct);
  below = (lt, v.below);
  live_generation = w.live_generation;
  untouched = w.untouched;
  counted = w.counted;
}
  where
    avoids : Avoids i free
    avoids = occupied_Avoids heap.slots i heap.free_head free o v.chain

    freed : Slot
    freed = record (slot_at heap.slots i) {
      object = none;
      generation = ((slot_at heap.slots i).generation + 1) % 256;
      next_free = heap.free_head;
    }

    w :
        IsWellFormed
          (record heap {
            slots = set heap.slots i freed;
            count = (heap.count + 2 ^ 64 - 1) % 2 ^ 64;
          })
          free
    w = written heap free i _ _ v lt avoids (omega (arith, v.live_generation i lt)) (
        ground (
          arith,
          occupied-set heap.slots i freed (omega (arith, v.sized, v.within)),
          occupied-le-length heap.slots,
          v.counted,
          v.sized,
          v.limited,
        ))
