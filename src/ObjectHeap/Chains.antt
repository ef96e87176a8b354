-- ===== src/ObjectHeap/Chains.antt =====
-- How a write to one slot, and growth, act on the free list and on the number of occupied slots.
use rockchip_vaapi.Base.{
  ℕ, zero, suc, ◌+◌, ◌≤◌, ◌<◌, ◌≡◌, ◌≢◌, refl, ap, true, List, [], ◌∷◌, ◌++◌, arith, length, set,
  replicate, get_or-set_ne, get_or-set_self, get_or-replicate,
}
use rockchip_vaapi.ObjectHeap.{Slot, slot_at, zero_slot, is_some}
use rockchip_vaapi.ObjectHeap.Invariant.{FreeChain, Avoids, AllBelow, occupied}

pub slot_at-set_ne :
    (slots : List Slot) (i j : ℕ) (s : Slot) → i ≢ j → slot_at (set slots i s) j ≡ slot_at slots j
slot_at-set_ne slots i j s h = get_or-set_ne slots i j s zero_slot h

pub slot_at-set_self :
    (slots : List Slot) (i : ℕ) (s : Slot) → i < length slots → slot_at (set slots i s) i ≡ s
slot_at-set_self slots i s h = get_or-set_self slots i s zero_slot h

pub FreeChain-set :
    (slots : List Slot) (i : ℕ) (s : Slot) (head : ℕ) (free : List ℕ)
    → Avoids i free
    → FreeChain slots head free
    → FreeChain (set slots i s) head free
FreeChain-set slots i s head [] a c = c
FreeChain-set slots i s head (j ∷ rest) (ne, a) (here, low, empty, live, c) =
    rw (slot_at-set_ne slots i j s ne)
      (here, low, empty, live, FreeChain-set slots i s (slot_at slots j).next_free rest a c)

pub FreeChain-same :
    (xs ys : List Slot) (head : ℕ) (free : List ℕ)
    → ((i : ℕ) → slot_at ys i ≡ slot_at xs i)
    → FreeChain xs head free
    → FreeChain ys head free
FreeChain-same xs ys head [] same c = c
FreeChain-same xs ys head (j ∷ rest) same (here, low, empty, live, c) =
    rw (same j) (here, low, empty, live, FreeChain-same xs ys (slot_at xs j).next_free rest same c)

-- A slot that holds an object is not on the free list.
pub occupied_Avoids :
    (slots : List Slot) (i head : ℕ) (free : List ℕ)
    → is_some (slot_at slots i).object ≡ true
    → FreeChain slots head free
    → Avoids i free
occupied_Avoids slots i head [] o c = tt
occupied_Avoids slots i head (j ∷ rest) o (here, low, empty, live, c) = (
  λ e. cc (ap (λ (k : ℕ). is_some (slot_at slots k).object) e, ap is_some empty, o),
  occupied_Avoids slots i (slot_at slots j).next_free rest o c,
)

pub AllBelow-Avoids : (n i : ℕ) (free : List ℕ) → n ≤ i → AllBelow n free → Avoids i free
AllBelow-Avoids n i [] h b = tt
AllBelow-Avoids n i (j ∷ rest) h (lt, b) = (omega arith, AllBelow-Avoids n i rest h b)

pub AllBelow-mono : (n m : ℕ) (free : List ℕ) → n ≤ m → AllBelow n free → AllBelow m free
AllBelow-mono n m [] h b = tt
AllBelow-mono n m (j ∷ rest) h (lt, b) = (omega arith, AllBelow-mono n m rest h b)

-- The count of occupied slots changes by what the written slot changes.
pub occupied-set :
    (slots : List Slot) (i : ℕ) (s : Slot)
    → i < length slots
    → occupied (set slots i s) + occupied (slot_at slots i ∷ [])
      ≡ occupied slots + occupied (s ∷ [])
occupied-set [] i s h = absurd (omega arith)
occupied-set (x ∷ xs) zero s h = omega arith
occupied-set (x ∷ xs) (suc i) s h = omega (arith, occupied-set xs i s (omega arith))

pub occupied-le-length : (slots : List Slot) → occupied slots ≤ length slots
occupied-le-length [] = omega arith
occupied-le-length (x ∷ xs) = ground (arith, occupied-le-length xs)

occupied-replicate : (n : ℕ) → occupied (replicate n zero_slot) ≡ 0
occupied-replicate zero = refl
occupied-replicate (suc n) = omega (arith, occupied-replicate n)

pub occupied-grow : (xs : List Slot) (n : ℕ) → occupied (xs ++ replicate n zero_slot) ≡ occupied xs
occupied-grow [] n = occupied-replicate n
occupied-grow (x ∷ xs) n = omega (arith, occupied-grow xs n)

-- Growth leaves every slot readable as before.
pub slot_at-grow :
    (xs : List Slot) (n i : ℕ) → slot_at (xs ++ replicate n zero_slot) i ≡ slot_at xs i
slot_at-grow [] n i = get_or-replicate n i zero_slot
slot_at-grow (x ∷ xs) n zero = refl
slot_at-grow (x ∷ xs) n (suc i) = slot_at-grow xs n i
