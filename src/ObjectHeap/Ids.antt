-- ===== src/ObjectHeap/Ids.antt =====
-- Identifiers of src/object_heap.c: the fields of `make_id` and of `decode_id`.
use rockchip_vaapi.Base.{ℕ, ◌+◌, ◌*◌, ◌/◌, ◌%◌, ◌^◌, ◌≤◌, ◌<◌, ◌≡◌, some, arith, bit_or}
use rockchip_vaapi.Base.Bits.{bit_or_above}
use rockchip_vaapi.ObjectHeap.{Heap, make_id, decode_id}

-- The three fields stand side by side.
pub make_id_sum :
    (type generation index : ℕ)
    → type < 16
    → generation < 256
    → index < 2 ^ 20
    → make_id type generation index ≡ type * 2 ^ 28 + generation * 2 ^ 20 + index
unfolding make_id
make_id_sum type generation index ht hg hi =
    let low : type * 2 ^ 28 % 2 ^ 32 ≡ type * 2 ^ 28 = omega arith in
    let upper : bit_or (type * 2 ^ 28) (generation * 2 ^ 20) ≡ (type * 256 + generation) * 2 ^ 20 =
      omega (arith, bit_or_above 28 type (generation * 2 ^ 20) (omega arith)) in
    rw (low, upper) (omega (arith, bit_or_above 20 (type * 256 + generation) index hi))

-- An identifier made for a slot below the high-water mark decodes to that slot and generation.
pub decode_id-make_id :
    (heap : Heap) (generation index : ℕ)
    → heap.type < 16
    → 0 < generation
    → generation < 256
    → index < heap.high_water
    → heap.high_water ≤ 2 ^ 20
    → decode_id heap (make_id heap.type generation index) ≡ some (index, generation)
unfolding decode_id
decode_id-make_id heap generation index ht hg hg' hi hw =
    rw (make_id_sum heap.type generation index ht hg' (omega arith)) (ground arith)

-- What an identifier decodes to lies in range.
pub decode_id_range :
    (heap : Heap) (id index generation : ℕ)
    → decode_id heap id ≡ some (index, generation)
    → (index < heap.high_water)
      × (0 < generation)
      × (generation < 256)
      × (id / 2 ^ 28 % 16 ≡ heap.type)
      × (id / 2 ^ 20 % 256 ≡ generation)
      × (id % 2 ^ 20 ≡ index)
unfolding decode_id
decode_id_range heap id index generation e = ground arith
