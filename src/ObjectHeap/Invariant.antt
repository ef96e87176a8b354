-- ===== src/ObjectHeap/Invariant.antt =====
-- The well-formedness of an object heap.
use rockchip_vaapi.Base.{
  ℕ, ◌+◌, ◌≤◌, ◌<◌, ◌≡◌, ◌≢◌, none, false, List, [], ◌∷◌, length, if◌then◌else◌,
}
use rockchip_vaapi.ObjectHeap.{Heap, Slot, slot_at, is_some, no_slot, index_limit}

-- The slots that a chain of `next_free` links runs through, from `head` to NO_SLOT.
abbrev pub FreeChain : List Slot → ℕ → List ℕ → Type 0
FreeChain slots head [] = head ≡ no_slot
FreeChain slots head (i ∷ rest) =
    (head ≡ i)
    × (i < index_limit)
    × ((slot_at slots i).object ≡ none)
    × ((slot_at slots i).retired ≡ false)
    × FreeChain slots (slot_at slots i).next_free rest

-- No number of the list is `i`, and no number stands in the list twice.
abbrev pub Avoids : ℕ → List ℕ → Type 0
Avoids i [] = Unit
Avoids i (j ∷ rest) = (i ≢ j) × Avoids i rest

abbrev pub Distinct : List ℕ → Type 0
Distinct [] = Unit
Distinct (i ∷ rest) = Avoids i rest × Distinct rest

abbrev pub AllBelow : ℕ → List ℕ → Type 0
AllBelow n [] = Unit
AllBelow n (i ∷ rest) = (i < n) × AllBelow n rest

abbrev pub occupied : List Slot → ℕ
occupied [] = 0
occupied (slot ∷ rest) = (if is_some slot.object then 1 else 0) + occupied rest

pub record IsWellFormed (heap : Heap) (free : List ℕ) : Type 0 where
  pub typed : (1 ≤ heap.type) × (heap.type ≤ 5)
  pub sized : length heap.slots ≡ heap.capacity
  pub within : heap.high_water ≤ heap.capacity
  pub limited : heap.capacity ≤ index_limit
  pub chain : FreeChain heap.slots heap.free_head free
  pub distinct : Distinct free
  pub below : AllBelow heap.high_water free
  pub live_generation :
      (i : ℕ)
      → i < heap.high_water
      → (1 ≤ (slot_at heap.slots i).generation) × ((slot_at heap.slots i).generation ≤ 255)
  pub untouched :
      (i : ℕ)
      → heap.high_water ≤ i
      → ((slot_at heap.slots i).object ≡ none) × ((slot_at heap.slots i).retired ≡ false)
  pub counted : heap.count ≡ occupied heap.slots
