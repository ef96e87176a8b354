-- ===== src/ObjectHeap.antt =====
-- src/object_heap.c and src/object_heap.h: reference-counted objects and the generation-tagged
-- heap of slots that maps VA identifiers to them. An object pointer is a number, NULL is `none`.
pub mod Ids
pub mod Chains
pub mod Invariant
pub mod Operations
pub mod Insertion
pub mod Removal
pub mod History
pub mod Stale
pub mod Fresh
pub mod References
mod Examples
use rockchip_vaapi.Base.{
  ℕ, zero, suc, ◌+◌, ◌-◌, ◌*◌, ◌/◌, ◌%◌, ◌^◌, bit_or, Bool, true, false, not, ◌&&◌, ◌||◌, Option,
  none, some, List, [], ◌∷◌, ◌++◌, ltb, leb, ◌==◌, if◌then◌else◌, get_or, set, replicate,
}

abbrev pub index_limit : ℕ
index_limit = 2 ^ 20

-- RK_OBJECT_NO_SLOT, UINT32_MAX.
abbrev pub no_slot : ℕ
no_slot = 2 ^ 32 - 1

abbrev pub initial_capacity : ℕ
initial_capacity = 16

-- RK_OBJECT_CONFIG to RK_OBJECT_IMAGE are 1 to 5; any other number is no object type.
abbrev pub valid_type : ℕ → Bool
valid_type type = leb 1 type && leb type 5

-- What `RKObjectBase` holds: the count, and whether there is a destroy function.
pub record ObjectBase : Type 0 where
  pub refs : ℕ
  pub destroy : Bool

-- The objects by address, and those whose destroy function has run, latest first.
pub record Store : Type 0 where
  pub objects : ℕ → ObjectBase
  pub destroyed : List ℕ

abbrev pub update : (ℕ → ObjectBase) → ℕ → ObjectBase → ℕ → ObjectBase
update f a b x = if a == x then b else f x

pub rk_object_init : ℕ → Bool → Store → Store
rk_object_init a destroy s = record s {
  objects = update s.objects a (record { refs = 1; destroy = destroy });
}

-- The compare-and-exchange loop as the one atomic step that its successful round makes.
pub rk_object_ref : ℕ → Store → Store × Bool
rk_object_ref a s =
    let refs = (s.objects a).refs in
    if refs == 0 || refs == 2 ^ 32 - 1 then (s, false) else (
      record s { objects = update s.objects a (record (s.objects a) { refs = refs + 1 }) },
      true,
    )

pub rk_object_unref : ℕ → Store → Store
rk_object_unref a s =
    let previous = (s.objects a).refs in
    let left : ObjectBase = record (s.objects a) { refs = (previous + 2 ^ 32 - 1) % 2 ^ 32 } in
    record {
      objects = update s.objects a left;
      destroyed = if previous == 1 && (s.objects a).destroy then a ∷ s.destroyed else s.destroyed;
    }

pub record Slot : Type 0 where
  pub object : Option ℕ
  pub next_free : ℕ
  pub generation : ℕ
  pub retired : Bool

-- What `memset` leaves in a slot.
abbrev pub zero_slot : Slot
zero_slot = record { object = none; next_free = 0; generation = 0; retired = false }

pub record Heap : Type 0 where
  pub type : ℕ
  pub slots : List Slot
  pub capacity : ℕ
  pub high_water : ℕ
  pub free_head : ℕ
  pub count : ℕ

-- `heap->slots[index]`. The invariant keeps every index in range.
abbrev pub slot_at : List Slot → ℕ → Slot
slot_at slots index = get_or slots index zero_slot

abbrev pub is_some : Option ℕ → Bool
is_some none = false
is_some (some a) = true

pub make_id : ℕ → ℕ → ℕ → ℕ
make_id type generation index = bit_or (bit_or (type * 2 ^ 28 % 2 ^ 32) (generation * 2 ^ 20)) index

pub decode_id : Heap → ℕ → Option (ℕ × ℕ)
decode_id heap id =
    let encoded_type = id / 2 ^ 28 % 16 in
    let encoded_generation = id / 2 ^ 20 % 256 in
    let encoded_index = id % 2 ^ 20 in
    if not (encoded_type == heap.type)
      || encoded_generation == 0
      || leb heap.high_water encoded_index
    then none
    else some (encoded_index, encoded_generation)

-- The capacity after growth, computed in 32 bits.
abbrev pub new_capacity : ℕ → ℕ
new_capacity capacity =
    let doubled = if capacity == 0 then initial_capacity else capacity * 2 % 2 ^ 32 in
    if ltb doubled capacity || ltb index_limit doubled then index_limit else doubled

-- `realloc` keeps the slots and `memset` clears the new ones.
abbrev pub extend : Heap → ℕ → Heap
extend heap capacity = record heap {
  slots = heap.slots ++ replicate (capacity - heap.capacity) zero_slot;
  capacity = capacity;
}

-- `realloc_ok` is whether `realloc` gives memory.
pub grow_heap : Bool → Heap → Option Heap
grow_heap realloc_ok heap =
    if leb index_limit heap.capacity
    then none
    else if realloc_ok
    then some (extend heap (new_capacity heap.capacity))
    else none

pub rk_object_heap_init : ℕ → Option Heap
rk_object_heap_init type =
    if valid_type type
    then some (record {
      type = type;
      slots = [];
      capacity = 0;
      high_water = 0;
      free_head = no_slot;
      count = 0;
    })
    else none

abbrev pub fill : Heap → ℕ → ℕ → Heap
fill heap object index =
    let filled : Slot = record (slot_at heap.slots index) {
      object = some object;
      next_free = no_slot;
    } in
    record heap { slots = set heap.slots index filled; count = (heap.count + 1) % 2 ^ 64 }

-- The end of an insertion: the slot that was taken is checked and filled.
abbrev pub place : Heap → ℕ → ℕ → Heap × Option ℕ
place heap object index =
    let slot = slot_at heap.slots index in
    if slot.retired || is_some slot.object || slot.generation == 0
    then (heap, none)
    else (fill heap object index, some (make_id heap.type slot.generation index))

-- A slot above the high-water mark starts at generation 1.
abbrev pub take_fresh : Heap → Heap
take_fresh heap =
    let slot : Slot = record (slot_at heap.slots heap.high_water) { generation = 1 } in
    record heap {
      slots = set heap.slots heap.high_water slot;
      high_water = (heap.high_water + 1) % 2 ^ 32;
    }

abbrev pub take_free : Heap → Heap
take_free heap = record heap { free_head = (slot_at heap.slots heap.free_head).next_free }

-- `none` for the identifier is `false`; the heap may have changed all the same.
pub rk_object_heap_insert : Bool → Heap → Option ℕ → Heap × Option ℕ
unfolding grow_heap
rk_object_heap_insert realloc_ok heap none = (heap, none)
rk_object_heap_insert realloc_ok heap (some object) =
    if not (valid_type heap.type)
    then (heap, none)
    else if not (heap.free_head == no_slot)
    then place (take_free heap) object heap.free_head
    else if heap.high_water == heap.capacity
    then elim (grow_heap realloc_ok heap) [
      | none ↦ (heap, none)
      | some grown ↦ place (take_fresh grown) object grown.high_water
    ]
    else place (take_fresh heap) object heap.high_water

-- The slot that an identifier names, if the identifier is live.
abbrev pub resolve_at : Heap → Option (ℕ × ℕ) → Option (ℕ × ℕ)
resolve_at heap none = none
resolve_at heap (some (index, generation)) =
    let slot = slot_at heap.slots index in
    elim slot.object [
      | none ↦ none
      | some object ↦
          if slot.retired || not (slot.generation == generation) then none else some (index, object)
    ]

-- The checks that acquire and remove share.
pub resolve : Heap → ℕ → Option (ℕ × ℕ)
unfolding decode_id
resolve heap id = resolve_at heap (decode_id heap id)

pub rk_object_heap_acquire : Heap → ℕ → Store → Store × Option ℕ
rk_object_heap_acquire heap id s = elim (resolve heap id) [
  | none ↦ (s, none)
  | some (index, object) ↦
      let (s', taken) = rk_object_ref object s in if taken then (s', some object) else (s, none)
]

abbrev pub retire : Heap → ℕ → Heap
retire heap index =
    let retired : Slot = record (slot_at heap.slots index) {
      object = none;
      retired = true;
      next_free = no_slot;
    } in
    record heap { slots = set heap.slots index retired; count = (heap.count + 2 ^ 64 - 1) % 2 ^ 64 }

abbrev pub recycle : Heap → ℕ → Heap
recycle heap index =
    let slot = slot_at heap.slots index in
    let freed : Slot = record slot {
      object = none;
      generation = (slot.generation + 1) % 256;
      next_free = heap.free_head;
    } in
    record heap {
      slots = set heap.slots index freed;
      count = (heap.count + 2 ^ 64 - 1) % 2 ^ 64;
      free_head = index;
    }

-- The last generation retires the slot; any other goes back to the free list with the next one.
abbrev pub vacate : Heap → ℕ → Heap
vacate heap index =
    if (slot_at heap.slots index).generation == 255 then retire heap index else recycle heap index

pub rk_object_heap_remove : Heap → ℕ → Heap × Option ℕ
rk_object_heap_remove heap id = elim (resolve heap id) [
  | none ↦ (heap, none)
  | some (index, object) ↦ (vacate heap index, some object)
]

-- Every object that is still held loses the heap's reference, in the order of the slots.
unfoldable pub release_slots : ℕ → List Slot → Store → Store
release_slots zero slots s = s
release_slots (suc n) [] s = s
release_slots (suc n) (slot ∷ rest) s = elim slot.object [
  | none ↦ release_slots n rest s
  | some object ↦ release_slots n rest (rk_object_unref object s)
]

pub rk_object_heap_finish : Heap → Store → Heap × Store
rk_object_heap_finish heap s = (
  record { type = 0; slots = []; capacity = 0; high_water = 0; free_head = 0; count = 0 },
  release_slots heap.high_water heap.slots s,
)

pub rk_object_heap_count : Heap → ℕ
rk_object_heap_count heap = heap.count
