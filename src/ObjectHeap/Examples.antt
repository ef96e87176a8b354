-- ===== src/ObjectHeap/Examples.antt =====
-- The object heap on concrete calls: a heap of surfaces (type 3) with one object at address 7.
use rockchip_vaapi.Base.{ℕ, ◌+◌, ◌-◌, ◌*◌, ◌^◌, ◌≡◌, refl, none, some, false, true, [], ◌∷◌, arith}
use rockchip_vaapi.ObjectHeap.{
  Heap, Slot, Store, rk_object_heap_init, rk_object_heap_insert, rk_object_heap_remove,
  rk_object_heap_acquire, rk_object_heap_finish, resolve, decode_id, grow_heap, make_id,
}
use rockchip_vaapi.ObjectHeap.Invariant.{Distinct}
use rockchip_vaapi.ObjectHeap.Insertion.{IsInsertion, insert-IsInsertion}
use rockchip_vaapi.ObjectHeap.Removal.{IsRemoval, remove-IsRemoval}
use rockchip_vaapi.ObjectHeap.History.{
  inserts, removes, step, run, IsKept, empty_heap, init-IsKept, run-IsKept,
}
use rockchip_vaapi.ObjectHeap.Stale.{removed_forever}
use rockchip_vaapi.ObjectHeap.Fresh.{issued, issued-Distinct}
use rockchip_vaapi.ObjectHeap.References.{
  acquire-insert, referenced, unref_times, unref_times-destroys, held, finish_lem,
}

-- Slot 0 of generation 1.
abbrev first_id : ℕ
first_id = 3 * 2 ^ 28 + 2 ^ 20

abbrev one_object : Heap
one_object = run (inserts true 7 ∷ []) (empty_heap 3)

empty-IsKept : IsKept (empty_heap 3)
unfolding rk_object_heap_init
empty-IsKept = init-IsKept 3 (empty_heap 3) refl

one_object-IsKept : IsKept one_object
one_object-IsKept = run-IsKept (inserts true 7 ∷ []) (empty_heap 3) empty-IsKept

-- One object with two references and a destroy function.
abbrev store : Store
store = record { objects = λ a. record { refs = 2; destroy = true }; destroyed = [] }

first_insertion : rk_object_heap_insert true (empty_heap 3) (some 7) ≡ (one_object, some first_id)
unfolding rk_object_heap_insert grow_heap make_id step run
first_insertion = refl

first_removal :
    rk_object_heap_remove one_object first_id ≡ (run (removes first_id ∷ []) one_object, some 7)
unfolding rk_object_heap_insert rk_object_heap_remove resolve decode_id grow_heap make_id step run
first_removal = refl

removed_forever_example :
    (rk_object_heap_acquire
        (run (inserts true 8 ∷ inserts true 9 ∷ []) (run (removes first_id ∷ []) one_object))
        first_id
        store
      ≡ (store, none))
    × (rk_object_heap_remove
          (run (inserts true 8 ∷ inserts true 9 ∷ []) (run (removes first_id ∷ []) one_object))
          first_id
        ≡ (
          run (inserts true 8 ∷ inserts true 9 ∷ []) (run (removes first_id ∷ []) one_object),
          none,
        ))
removed_forever_example =
    removed_forever one_object (run (removes first_id ∷ []) one_object) one_object-IsKept.0 first_id
      7 (inserts true 8 ∷ inserts true 9 ∷ []) store one_object-IsKept.1 first_removal

issued-Distinct_example :
    Distinct (issued (inserts true 7 ∷ removes first_id ∷ inserts true 8 ∷ []) (empty_heap 3))
issued-Distinct_example =
    issued-Distinct (inserts true 7 ∷ removes first_id ∷ inserts true 8 ∷ []) (empty_heap 3)
      empty-IsKept

insert-IsInsertion_example :
    IsInsertion (empty_heap 3) true 7 (rk_object_heap_insert true (empty_heap 3) (some 7))
insert-IsInsertion_example = insert-IsInsertion true (empty_heap 3) empty-IsKept.0 7 empty-IsKept.1

remove-IsRemoval_example : IsRemoval one_object first_id (rk_object_heap_remove one_object first_id)
remove-IsRemoval_example =
    remove-IsRemoval one_object one_object-IsKept.0 first_id one_object-IsKept.1

acquire-insert_example :
    rk_object_heap_acquire one_object first_id store ≡ (referenced store 7, some 7)
acquire-insert_example =
    acquire-insert true (empty_heap 3) one_object empty-IsKept.0 7 first_id store empty-IsKept.1
      first_insertion (omega arith) (omega arith)

unref_times-destroys_example :
    ((unref_times 1 7 store).destroyed ≡ [])
    × (((unref_times 1 7 store).objects 7).refs ≡ 1)
    × ((unref_times 2 7 store).destroyed ≡ 7 ∷ [])
    × (((unref_times 2 7 store).objects 7).refs ≡ 0)
unref_times-destroys_example = unref_times-destroys 1 7 store refl (omega arith) refl

abbrev full_slot : Slot
full_slot = record { object = some 7; next_free = 0; generation = 1; retired = false }

abbrev full_heap : Heap
full_heap = record {
  type = 3;
  slots = full_slot ∷ [];
  capacity = 1;
  high_water = 1;
  free_head = 2 ^ 32 - 1;
  count = 1;
}

finish_lem_example :
    (((rk_object_heap_finish full_heap store).1.objects 7).refs + held 1 (full_slot ∷ []) 7 ≡ 2)
    × ((rk_object_heap_finish full_heap store).0.type ≡ 0)
    × ((rk_object_heap_finish full_heap store).0.slots ≡ [])
    × ((rk_object_heap_finish full_heap store).0.count ≡ 0)
finish_lem_example = finish_lem full_heap 7 store (omega arith) (omega arith)
