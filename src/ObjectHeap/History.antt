-- ===== src/ObjectHeap/History.antt =====
-- Sequences of operations on one object heap: what an identifier means over the life of the heap.
use rockchip_vaapi.Base.{
  ℕ, ◌/◌, ◌%◌, ◌^◌, ◌≤◌, ◌≡◌, refl, none, some, List, [], ◌∷◌, arith, Option, Bool,
}
use rockchip_vaapi.ObjectHeap.{
  Heap, no_slot, rk_object_heap_init, rk_object_heap_insert, rk_object_heap_remove,
}
use rockchip_vaapi.ObjectHeap.Ids.{make_id_sum}
use rockchip_vaapi.ObjectHeap.Invariant.{IsWellFormed}
use rockchip_vaapi.ObjectHeap.Insertion.{IsInserted, IsInsertion, insert-IsInsertion}
use rockchip_vaapi.ObjectHeap.Removal.{IsRemoval, remove-IsRemoval}

-- The slot and the generation that an identifier names.
abbrev pub index_of : ℕ → ℕ
index_of id = id % 2 ^ 20

abbrev pub generation_of : ℕ → ℕ
generation_of id = id / 2 ^ 20 % 256

-- The calls that change a heap; an insertion says whether `realloc` gives memory.
pub data Call : Type 0 where
  inserts : Bool → ℕ → Call
  removes : ℕ → Call

unfoldable pub step : Call → Heap → Heap × Option ℕ
step (inserts ok object) heap = rk_object_heap_insert ok heap (some object)
step (removes id) heap = rk_object_heap_remove heap id

unfoldable pub run : List Call → Heap → Heap
run [] heap = heap
run (c ∷ cs) heap = run cs (step c heap).0

abbrev pub IsKept : Heap → Type 0
IsKept heap = (free : List ℕ) × IsWellFormed heap free

insertion-IsKept :
    (ok : Bool) (before : Heap) (object : ℕ) (r : Heap × Option ℕ)
    → IsKept before
    → IsInsertion before ok object r
    → IsKept r.0
insertion-IsKept ok before object (after, none) k (same, full) = rw same k
insertion-IsKept ok before object (after, some id) k (w, t) = w

removal-IsKept :
    (before : Heap) (id : ℕ) (r : Heap × Option ℕ)
    → IsKept before
    → IsRemoval before id r
    → IsKept r.0
removal-IsKept before id (after, none) k (same, missing) = rw same k
removal-IsKept before id (after, some object) k (w, t) = w

-- Every call keeps the heap well formed.
pub step-IsKept : (c : Call) (heap : Heap) → IsKept heap → IsKept (step c heap).0
unfolding step
step-IsKept (inserts ok object) heap (free, v) =
    insertion-IsKept ok heap object _ (free, v) (insert-IsInsertion ok heap free object v)
step-IsKept (removes id) heap (free, v) =
    removal-IsKept heap id _ (free, v) (remove-IsRemoval heap free id v)

abbrev pub empty_heap : ℕ → Heap
empty_heap type = record {
  type = type;
  slots = [];
  capacity = 0;
  high_water = 0;
  free_head = no_slot;
  count = 0;
}

init_lem :
    (type : ℕ) (heap : Heap)
    → rk_object_heap_init type ≡ some heap
    → (heap ≡ empty_heap type) × (1 ≤ type) × (type ≤ 5)
unfolding rk_object_heap_init
init_lem type heap e = ground arith

-- A heap of a valid object type starts well formed, with no slot.
pub init-IsKept : (type : ℕ) (heap : Heap) → rk_object_heap_init type ≡ some heap → IsKept heap
init-IsKept type heap e =
    let (is, lo, hi) = init_lem type heap e in
    rw is (
      [],
      record {
        typed = (lo, hi);
        sized = refl;
        within = omega arith;
        limited = omega arith;
        chain = refl;
        distinct = tt;
        below = tt;
        live_generation = λ i lt. absurd (omega arith);
        untouched = λ i le. (refl, refl);
        counted = refl;
      },
    )

-- Any sequence of calls on a well-formed heap leaves it well formed.
pub run-IsKept : (cs : List Call) (heap : Heap) → IsKept heap → IsKept (run cs heap)
unfolding run
run-IsKept [] heap k = k
run-IsKept (c ∷ cs) heap k = run-IsKept cs (step c heap).0 (step-IsKept c heap k)

-- The identifier of an insertion names the slot and generation that were filled.
pub IsInserted-fields :
    (before after : Heap) (object id : ℕ) (free free' : List ℕ)
    → IsWellFormed before free
    → IsWellFormed after free'
    → (t : IsInserted before after object id)
    → (index_of id ≡ t.index) × (generation_of id ≡ t.generation)
IsInserted-fields before after object id free free' v w t = omega (
  arith,
  t.identifier,
  t.in_range,
  t.positive,
  w.within,
  w.limited,
  v.typed,
  make_id_sum before.type t.generation t.index (omega (arith, v.typed)) (omega (arith, t.positive))
      (omega (arith, t.in_range, w.within, w.limited)),
)
