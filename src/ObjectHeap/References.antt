-- ===== src/ObjectHeap/References.antt =====
-- Reference counts: what acquiring, releasing and finishing do to the objects of a heap.
use rockchip_vaapi.Base.{
  ℕ, zero, suc, ◌+◌, ◌-◌, ◌^◌, ◌≤◌, ◌<◌, ◌≡◌, refl, ap, ◌∙◌, sym, none, some, false, true, List, [],
  ◌∷◌, inl, inr, arith, Option, Bool, Option-cases, ◌==◌, if◌then◌else◌,
}
use rockchip_vaapi.ObjectHeap.{
  Heap, Slot, Store, update, rk_object_ref, rk_object_unref, rk_object_heap_finish, release_slots,
  slot_at, make_id, rk_object_heap_insert, rk_object_heap_acquire, resolve, decode_id,
}
use rockchip_vaapi.ObjectHeap.Ids.{decode_id-make_id}
use rockchip_vaapi.ObjectHeap.Invariant.{IsWellFormed}
use rockchip_vaapi.ObjectHeap.Insertion.{IsInserted, IsInsertion, insert-IsInsertion}
use rockchip_vaapi.ObjectHeap.History.{IsKept}

decoded_resolves :
    (heap : Heap) (id index generation object : ℕ)
    → decode_id heap id ≡ some (index, generation)
    → (slot_at heap.slots index).object ≡ some object
    → (slot_at heap.slots index).retired ≡ false
    → (slot_at heap.slots index).generation ≡ generation
    → resolve heap id ≡ some (index, object)
unfolding resolve
decoded_resolves heap id index generation object d o live g = rw d (ground (arith, o, live, g))

inserted_resolves :
    (before after : Heap) (object id : ℕ)
    → IsKept before
    → IsKept after
    → (t : IsInserted before after object id) → resolve after id ≡ some (t.index, object)
inserted_resolves before after object id (free, v) (free', w) t =
    let made : id ≡ make_id after.type t.generation t.index =
      t.identifier ∙ ap (λ (k : ℕ). make_id k t.generation t.index) (sym t.same_type) in
    decoded_resolves after id t.index t.generation object
      (rw made (
        decode_id-make_id after t.generation t.index (omega (arith, w.typed))
          (omega (arith, t.positive)) (omega (arith, t.positive)) t.in_range
          (omega (arith, w.within, w.limited))))
      t.now_object t.now_live t.now_generation

insertion_resolves :
    (ok : Bool) (before after : Heap) (object id : ℕ) (r : Heap × Option ℕ)
    → IsKept before
    → IsInsertion before ok object r
    → r ≡ (after, some id)
    → (index : ℕ) × (resolve after id ≡ some (index, object))
insertion_resolves ok before after object id (h, none) k t e =
    cc (ap (λ (p : Heap × Option ℕ). p.1) e)
insertion_resolves ok before after object id (h, some new) k (w, t) e =
    let heaps : h ≡ after = ap (λ (p : Heap × Option ℕ). p.0) e in
    let ids : new ≡ id = ground (arith, ap (λ (p : Heap × Option ℕ). p.1) e) in
    (t.index, rw (← heaps, ← ids) (inserted_resolves before h object new k w t))

-- One more reference, where the count allows it.
abbrev pub referenced : Store → ℕ → Store
referenced s a = record s {
  objects = update s.objects a (record (s.objects a) { refs = (s.objects a).refs + 1 });
}

acquire_some :
    (heap : Heap) (id index object : ℕ) (s : Store)
    → resolve heap id ≡ some (index, object)
    → 0 < (s.objects object).refs
    → (s.objects object).refs < 2 ^ 32 - 1
    → rk_object_heap_acquire heap id s ≡ (referenced s object, some object)
unfolding rk_object_heap_acquire rk_object_ref
acquire_some heap id index object s e lo hi = rw (e, rk_object_heap_acquire) (ground arith)

-- An identifier that an insertion into a well-formed heap has given acquires the object that was
-- inserted, with one more reference, where its count is neither 0 nor UINT_MAX.
pub acquire-insert :
    (ok : Bool) (before after : Heap) (free : List ℕ) (object id : ℕ) (s : Store)
    → IsWellFormed before free
    → rk_object_heap_insert ok before (some object) ≡ (after, some id)
    → 0 < (s.objects object).refs
    → (s.objects object).refs < 2 ^ 32 - 1
    → rk_object_heap_acquire after id s ≡ (referenced s object, some object)
acquire-insert ok before after free object id s v e lo hi =
    let (index, r) =
      insertion_resolves ok before after object id _ (free, v)
        (insert-IsInsertion ok before free object v) e in
    acquire_some after id index object s r lo hi

-- `n` releases of one object in a row.
unfoldable pub unref_times : ℕ → ℕ → Store → Store
unref_times zero a s = s
unref_times (suc n) a s = unref_times n a (rk_object_unref a s)

-- Releases short of the count only lower it.
unref_times-lt :
    (n a : ℕ) (s : Store)
    → n < (s.objects a).refs
    → (s.objects a).refs < 2 ^ 32
    → (((unref_times n a s).objects a).refs ≡ (s.objects a).refs - n)
      × (((unref_times n a s).objects a).destroy ≡ (s.objects a).destroy)
      × ((unref_times n a s).destroyed ≡ s.destroyed)
unfolding unref_times rk_object_unref
unref_times-lt zero a s lt fits = (omega arith, refl, refl)
unref_times-lt (suc n) a s lt fits = ground (arith, unref_times-lt n a (rk_object_unref a s))

unref_last : (n a : ℕ) (s : Store) → unref_times (suc n) a s ≡ rk_object_unref a (unref_times n a s)
unfolding unref_times
unref_last zero a s = refl
unref_last (suc n) a s = unref_last n a (rk_object_unref a s)

-- An object with `n + 1` references and a destroy function: `n` releases run nothing, and the next
-- one brings the count to 0 and runs the destroy function once.
pub unref_times-destroys :
    (n a : ℕ) (s : Store)
    → (s.objects a).refs ≡ n + 1
    → n + 1 < 2 ^ 32
    → (s.objects a).destroy ≡ true
    → ((unref_times n a s).destroyed ≡ s.destroyed)
      × (((unref_times n a s).objects a).refs ≡ 1)
      × ((unref_times (suc n) a s).destroyed ≡ a ∷ s.destroyed)
      × (((unref_times (suc n) a s).objects a).refs ≡ 0)
unref_times-destroys n a s e fits d =
    let (r, d', l) = unref_times-lt n a s (omega arith) (omega arith) in
    let one : ((unref_times n a s).objects a).refs ≡ 1 = omega (arith, r, e) in
    (
      l,
      one,
      rw (unref_last n a s) (unfold rk_object_unref in ground (arith, one, d', l)),
      rw (unref_last n a s) (unfold rk_object_unref in ground (arith, one)),
    )

-- How many of the first `n` slots hold the object.
abbrev pub held : ℕ → List Slot → ℕ → ℕ
held zero slots a = 0
held (suc n) [] a = 0
held (suc n) (slot ∷ rest) a =
    (elim slot.object [ none ↦ 0 | some object ↦ (if object == a then 1 else 0) ]) + held n rest a

release_slots-refs :
    (n : ℕ) (slots : List Slot) (a : ℕ) (s : Store)
    → held n slots a ≤ (s.objects a).refs
    → (s.objects a).refs < 2 ^ 32
    → ((release_slots n slots s).objects a).refs + held n slots a ≡ (s.objects a).refs
unfolding release_slots rk_object_unref
release_slots-refs zero slots a s le fits = omega arith
release_slots-refs (suc n) [] a s le fits = omega arith
release_slots-refs (suc n) (slot ∷ rest) a s le fits = elim (Option-cases slot.object) [
  | inl e ↦ rw e (ground (arith, rw e at le, release_slots-refs n rest a s))
  | inr (o, e) ↦
      rw e (ground (arith, rw e at le, release_slots-refs n rest a (rk_object_unref o s)))
]

-- Finishing a heap takes from each object one reference for every used slot that holds it, where
-- the object has that many, and leaves a heap with no type, no slots and count 0.
pub finish_lem :
    (heap : Heap) (a : ℕ) (s : Store)
    → held heap.high_water heap.slots a ≤ (s.objects a).refs
    → (s.objects a).refs < 2 ^ 32
    → (((rk_object_heap_finish heap s).1.objects a).refs + held heap.high_water heap.slots a
        ≡ (s.objects a).refs)
      × ((rk_object_heap_finish heap s).0.type ≡ 0)
      × ((rk_object_heap_finish heap s).0.slots ≡ [])
      × ((rk_object_heap_finish heap s).0.count ≡ 0)
unfolding rk_object_heap_finish
finish_lem heap a s le fits =
    (release_slots-refs heap.high_water heap.slots a s le fits, refl, refl, refl)
