-- ===== src/ObjectHeap/Stale.antt =====
-- Identifiers of src/object_heap.c behind their removal.
use rockchip_vaapi.Base.{
  ℕ, ◌<◌, ◌≡◌, ap, none, some, true, List, [], ◌∷◌, ◌⊎◌, inl, inr, arith, Option, Bool,
  Option-cases,
}
use native.Mathlib.Decide.{ℕ_discrete}
use rockchip_vaapi.ObjectHeap.{
  Heap, Store, slot_at, rk_object_heap_remove, rk_object_heap_acquire, resolve,
}
use rockchip_vaapi.ObjectHeap.Invariant.{IsWellFormed}
use rockchip_vaapi.ObjectHeap.Insertion.{IsInserted, IsInsertion, insert-IsInsertion}
use rockchip_vaapi.ObjectHeap.History.{
  Call, inserts, removes, step, run, IsKept, index_of, generation_of, step-IsKept,
}
use rockchip_vaapi.ObjectHeap.Removal.{IsRemoved, IsRemoval, resolve-some, remove-IsRemoval}

-- The identifier has been removed: its slot is retired or has a later generation.
pub record IsDead (heap : Heap) (id : ℕ) : Type 0 where
  pub low : index_of id < heap.high_water
  pub past :
      ((slot_at heap.slots (index_of id)).retired ≡ true)
      ⊎ (generation_of id < (slot_at heap.slots (index_of id)).generation)

IsInserted-IsDead :
    {before after : Heap} {object new : ℕ} (id : ℕ)
    → IsInserted before after object new
    → IsDead before id
    → IsDead after id
IsInserted-IsDead {before} {after} id t d = elim (ℕ_discrete t.index (index_of id)) [
  | yes same ↦ record {
    low = omega (arith, d.low, t.grows);
    past = elim d.past [
      | inl r ↦ cc (ap (λ (k : ℕ). (slot_at before.slots k).retired) same, t.was_live, r)
      | inr g ↦ inr (
          omega (
            arith,
            g,
            d.low,
            t.was_generation (omega (arith, d.low)),
            t.now_generation,
            ap (λ (k : ℕ). (slot_at before.slots k).generation) same,
            ap (λ (k : ℕ). (slot_at after.slots k).generation) same,
          ))
    ];
  }
  | no ne ↦ record {
    low = omega (arith, d.low, t.grows);
    past = rw (t.others (index_of id) ne) d.past;
  }
]

IsRemoved-IsDead :
    {before after : Heap} {object other : ℕ} (id : ℕ)
    → IsRemoved before after object other
    → IsDead before id
    → IsDead after id
IsRemoved-IsDead {before} {after} id t d = elim (ℕ_discrete t.index (index_of id)) [
  | yes same ↦ record {
    low = omega (arith, d.low, t.same_high_water);
    past = elim d.past [
      | inl r ↦ cc (ap (λ (k : ℕ). (slot_at before.slots k).retired) same, t.was_live, r)
      | inr g ↦ inr (
          omega (
            arith,
            g,
            t.kept,
            ap (λ (k : ℕ). (slot_at before.slots k).generation) same,
            ap (λ (k : ℕ). (slot_at after.slots k).generation) same,
          ))
    ];
  }
  | no ne ↦ record {
    low = omega (arith, d.low, t.same_high_water);
    past = rw (t.others (index_of id) ne) d.past;
  }
]

removed-IsDead :
    {before after : Heap} {object id : ℕ} → IsRemoved before after object id → IsDead after id
removed-IsDead {before} {after} {object} {id} t = record {
  low = omega (arith, t.index_of_id, t.in_range, t.same_high_water);
  past =
      rw (← t.index_of_id)
        (elim t.aged [ inl r ↦ inl r | inr g ↦ inr (omega (arith, g, t.was_generation)) ]);
}

insertion-IsDead :
    (ok : Bool) (before : Heap) (object id : ℕ) (r : Heap × Option ℕ)
    → IsInsertion before ok object r
    → IsDead before id
    → IsDead r.0 id
insertion-IsDead ok before object id (after, none) (same, full) d = rw same d
insertion-IsDead ok before object id (after, some new) (w, t) d = IsInserted-IsDead id t d

removal-IsDead :
    (before : Heap) (other id : ℕ) (r : Heap × Option ℕ)
    → IsRemoval before other r
    → IsDead before id
    → IsDead r.0 id
removal-IsDead before other id (after, none) (same, missing) d = rw same d
removal-IsDead before other id (after, some object) (w, t) d = IsRemoved-IsDead id t d

step-IsDead :
    (c : Call) (heap : Heap) (id : ℕ) → IsKept heap → IsDead heap id → IsDead (step c heap).0 id
unfolding step
step-IsDead (inserts ok object) heap id (free, v) d =
    insertion-IsDead ok heap object id _ (insert-IsInsertion ok heap free object v) d
step-IsDead (removes other) heap id (free, v) d =
    removal-IsDead heap other id _ (remove-IsRemoval heap free other v) d

run-IsDead :
    (cs : List Call) (heap : Heap) (id : ℕ) → IsKept heap → IsDead heap id → IsDead (run cs heap) id
unfolding run
run-IsDead [] heap id k d = d
run-IsDead (c ∷ cs) heap id k d =
    run-IsDead cs (step c heap).0 id (step-IsKept c heap k) (step-IsDead c heap id k d)

resolve-IsDead : (heap : Heap) (id : ℕ) → IsDead heap id → resolve heap id ≡ none
resolve-IsDead heap id d = elim (Option-cases (resolve heap id)) [
  | inl e ↦ e
  | inr ((index, object), e) ↦
      let (i, lt, o, live, g, t) = resolve-some heap id index object e in
      elim d.past [
        | inl r ↦ cc (ap (λ (k : ℕ). (slot_at heap.slots k).retired) i, live, r)
        | inr h ↦ absurd (omega (arith, ap (λ (k : ℕ). (slot_at heap.slots k).generation) i, g, h))
      ]
]

removal_result :
    (before after : Heap) (object id : ℕ) (r : Heap × Option ℕ)
    → IsRemoval before id r
    → r ≡ (after, some object)
    → IsKept after × IsDead after id
removal_result before after object id (h, none) t e = cc (ap (λ (p : Heap × Option ℕ). p.1) e)
removal_result before after object id (h, some o) (w, t) e =
    let same : h ≡ after = ap (λ (p : Heap × Option ℕ). p.0) e in rw (← same) (w, removed-IsDead t)

acquire_none :
    (heap : Heap) (id : ℕ) (s : Store)
    → resolve heap id ≡ none
    → rk_object_heap_acquire heap id s ≡ (s, none)
unfolding rk_object_heap_acquire
acquire_none heap id s e = rw (e, rk_object_heap_acquire)

remove_none :
    (heap : Heap) (id : ℕ) → resolve heap id ≡ none → rk_object_heap_remove heap id ≡ (heap, none)
unfolding rk_object_heap_remove
remove_none heap id e = rw (e, rk_object_heap_remove)

-- Once an identifier has been removed from a well-formed heap, it stays unknown: after any further
-- insertions and removals, acquiring it gives NULL and takes no reference, and removing it again
-- gives NULL and changes nothing.
pub removed_forever :
    (heap after : Heap) (free : List ℕ) (id object : ℕ) (cs : List Call) (s : Store)
    → IsWellFormed heap free
    → rk_object_heap_remove heap id ≡ (after, some object)
    → (rk_object_heap_acquire (run cs after) id s ≡ (s, none))
      × (rk_object_heap_remove (run cs after) id ≡ (run cs after, none))
removed_forever heap after free id object cs s v e =
    let (k, d) = removal_result heap after object id _ (remove-IsRemoval heap free id v) e in
    let missing = resolve-IsDead (run cs after) id (run-IsDead cs after id k d) in
    (acquire_none (run cs after) id s missing, remove_none (run cs after) id missing)
