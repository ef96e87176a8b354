-- ===== src/ObjectHeap/Fresh.antt =====
-- The identifiers that the heap of src/object_heap.c gives over a history.
use rockchip_vaapi.Base.{
  ℕ, ◌+◌, ◌<◌, ◌≡◌, ap, subst, none, some, true, List, [], ◌∷◌, ◌⊎◌, inl, inr, arith, Option, Bool,
}
use native.Mathlib.Decide.{ℕ_discrete}
use rockchip_vaapi.ObjectHeap.{Heap, slot_at, is_some, rk_object_heap_insert}
use rockchip_vaapi.ObjectHeap.Invariant.{Avoids, Distinct}
use rockchip_vaapi.ObjectHeap.Insertion.{IsInserted, IsInsertion, insert-IsInsertion}
use rockchip_vaapi.ObjectHeap.History.{
  Call, inserts, removes, step, IsKept, index_of, generation_of, step-IsKept, IsInserted-fields,
}
use rockchip_vaapi.ObjectHeap.Removal.{IsRemoved, IsRemoval, remove-IsRemoval}

-- The heap has given the identifier: its slot still holds the object of that generation, or has
-- been vacated since.
pub record IsKnown (heap : Heap) (id : ℕ) : Type 0 where
  pub low : index_of id < heap.high_water
  pub past :
      ((slot_at heap.slots (index_of id)).retired ≡ true)
      ⊎ (generation_of id < (slot_at heap.slots (index_of id)).generation)
      ⊎ ((generation_of id ≡ (slot_at heap.slots (index_of id)).generation)
          × (is_some (slot_at heap.slots (index_of id)).object ≡ true))

inserted-IsKnown :
    {before after : Heap} {object new : ℕ}
    → IsKept before
    → IsKept after
    → IsInserted before after object new
    → IsKnown after new
inserted-IsKnown {before} {after} {object} {new} (free, v) (free', w) t =
    let (i, g) = IsInserted-fields before after object new free free' v w t in
    record {
      low = omega (arith, i, t.in_range);
      past = rw i (inr (inr (omega (arith, g, t.now_generation), ap is_some t.now_object)));
    }

inserted-not-IsKnown :
    {before after : Heap} {object new : ℕ}
    → IsKept before
    → IsKept after
    → IsInserted before after object new
    → ¬ IsKnown before new
inserted-not-IsKnown {before} {after} {object} {new} (free, v) (free', w) t k =
    let (i, g) = IsInserted-fields before after object new free free' v w t in
    elim k.past [
      | inl r ↦ cc (ap (λ (k : ℕ). (slot_at before.slots k).retired) i, t.was_live, r)
      | inr (inl h) ↦ absurd (
          omega (
            arith,
            k.low,
            h,
            ap (λ (k : ℕ). (slot_at before.slots k).generation) i,
            t.was_generation (omega (arith, k.low, i)),
          ))
      | inr (inr (h, o)) ↦
          cc (ap (λ (k : ℕ). is_some (slot_at before.slots k).object) i, ap is_some t.was_empty, o)
    ]

IsInserted-IsKnown :
    {before after : Heap} {object new : ℕ} (id : ℕ)
    → IsInserted before after object new
    → IsKnown before id
    → IsKnown after id
IsInserted-IsKnown {before} {after} {object} id t k = elim (ℕ_discrete t.index (index_of id)) [
  | yes same ↦
      let b = λ (n : ℕ). slot_at before.slots n in
      let a = λ (n : ℕ). slot_at after.slots n in
      record {
        low = omega (arith, k.low, t.grows);
        past = inr (
            rw (← same) (elim k.past [
              | inl r ↦ cc (ap (λ (n : ℕ). (b n).retired) same, t.was_live, r)
              | inr (inl g) ↦ inl (
                  omega (
                    arith,
                    k.low,
                    t.was_generation (omega (arith, k.low)),
                    t.now_generation,
                    g,
                    ap (λ (n : ℕ). (b n).generation) same,
                  ))
              | inr (inr (g, o)) ↦
                  cc (ap (λ (n : ℕ). is_some (b n).object) same, ap is_some t.was_empty, o)
            ]));
      }
  | no ne ↦ record {
    low = omega (arith, k.low, t.grows);
    past = rw (t.others (index_of id) ne) k.past;
  }
]

IsRemoved-IsKnown :
    {before after : Heap} {object other : ℕ} (id : ℕ)
    → IsRemoved before after object other
    → IsKnown before id
    → IsKnown after id
IsRemoved-IsKnown {before} {after} id t k = elim (ℕ_discrete t.index (index_of id)) [
  | yes same ↦ record {
    low = omega (arith, k.low, t.same_high_water);
    past = rw (← same) (aged_past t.aged (rw (← same) at k.past));
  }
  | no ne ↦ record {
    low = omega (arith, k.low, t.same_high_water);
    past = rw (t.others (index_of id) ne) k.past;
  }
]
  where
    aged_past :
        ((slot_at after.slots t.index).retired ≡ true)
          ⊎ ((slot_at after.slots t.index).generation
              ≡ (slot_at before.slots t.index).generation + 1)
        → ((slot_at before.slots t.index).retired ≡ true)
          ⊎ (generation_of id < (slot_at before.slots t.index).generation)
          ⊎ ((generation_of id ≡ (slot_at before.slots t.index).generation)
              × (is_some (slot_at before.slots t.index).object ≡ true))
        → ((slot_at after.slots t.index).retired ≡ true)
          ⊎ (generation_of id < (slot_at after.slots t.index).generation)
          ⊎ ((generation_of id ≡ (slot_at after.slots t.index).generation)
              × (is_some (slot_at after.slots t.index).object ≡ true))
    aged_past (inl r) p = inl r
    aged_past (inr g) (inl r) = cc (t.was_live, r)
    aged_past (inr g) (inr (inl h)) = inr (inl (omega (arith, g, h)))
    aged_past (inr g) (inr (inr (h, o))) = inr (inl (omega (arith, g, h)))

insertion-IsKnown :
    (ok : Bool) (before : Heap) (object id : ℕ) (r : Heap × Option ℕ)
    → IsInsertion before ok object r
    → IsKnown before id
    → IsKnown r.0 id
insertion-IsKnown ok before object id (after, none) (same, full) k = rw same k
insertion-IsKnown ok before object id (after, some new) (w, t) k = IsInserted-IsKnown id t k

removal-IsKnown :
    (before : Heap) (other id : ℕ) (r : Heap × Option ℕ)
    → IsRemoval before other r
    → IsKnown before id
    → IsKnown r.0 id
removal-IsKnown before other id (after, none) (same, missing) k = rw same k
removal-IsKnown before other id (after, some object) (w, t) k = IsRemoved-IsKnown id t k

-- The identifiers that the insertions of a history give, in order.
unfoldable pub issued : List Call → Heap → List ℕ
unfolding step
issued [] heap = []
issued (inserts ok object ∷ cs) heap =
    let (after, id) = step (inserts ok object) heap in
    let rest = issued cs after in elim id [ none ↦ rest | some new ↦ new ∷ rest ]
issued (removes id ∷ cs) heap = issued cs (step (removes id) heap).0

-- One insertion of a history: what follows about any list of later identifiers.
issued_step :
    (ok : Bool) (before : Heap) (object : ℕ) (r : Heap × Option ℕ) (rest : List ℕ) (id : ℕ)
    → IsKept before
    → IsInsertion before ok object r
    → (IsKnown r.0 id → Avoids id rest)
    → IsKnown before id
    → Avoids id (elim r.1 as (λ _. List ℕ) [ none ↦ rest | some new ↦ new ∷ rest ])
issued_step ok before object (after, none) rest id k (same, full) later known =
    later (rw same known)
issued_step ok before object (after, some new) rest id k (w, t) later known = (
  λ e. inserted-not-IsKnown k w t (subst (IsKnown before) e known),
  later (IsInserted-IsKnown id t known),
)

known-Avoids :
    (cs : List Call) (heap : Heap) (id : ℕ)
    → IsKept heap
    → IsKnown heap id
    → Avoids id (issued cs heap)
unfolding issued
known-Avoids [] heap id k known = tt
known-Avoids (inserts ok object ∷ cs) heap id (free, v) known =
    issued_step ok heap object (rk_object_heap_insert ok heap (some object)) _ id (free, v)
      (insert-IsInsertion ok heap free object v)
      (known-Avoids cs _ id (step-IsKept (inserts ok object) heap (free, v))) known
known-Avoids (removes other ∷ cs) heap id (free, v) known =
    known-Avoids cs _ id (step-IsKept (removes other) heap (free, v))
      (removal-IsKnown heap other id _ (remove-IsRemoval heap free other v) known)

Distinct-step :
    (ok : Bool) (before : Heap) (object : ℕ) (r : Heap × Option ℕ) (rest : List ℕ)
    → IsKept before
    → IsInsertion before ok object r
    → ((id : ℕ) → IsKnown r.0 id → Avoids id rest)
    → Distinct rest
    → Distinct (elim r.1 as (λ _. List ℕ) [ none ↦ rest | some new ↦ new ∷ rest ])
Distinct-step ok before object (after, none) rest k i later d = d
Distinct-step ok before object (after, some new) rest k (w, t) later d =
    (later new (inserted-IsKnown k w t), d)

-- Over any history of insertions and removals on a well-formed heap, no two insertions give the
-- same identifier, also where they reuse one slot.
pub issued-Distinct : (cs : List Call) (heap : Heap) → IsKept heap → Distinct (issued cs heap)
unfolding issued
issued-Distinct [] heap k = tt
issued-Distinct (inserts ok object ∷ cs) heap (free, v) =
    let k = step-IsKept (inserts ok object) heap (free, v) in
    Distinct-step ok heap object (rk_object_heap_insert ok heap (some object)) _ (free, v)
      (insert-IsInsertion ok heap free object v) (λ id. known-Avoids cs _ id k)
      (issued-Distinct cs _ k)
issued-Distinct (removes other ∷ cs) heap (free, v) =
    issued-Distinct cs _ (step-IsKept (removes other) heap (free, v))
