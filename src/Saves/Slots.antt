-- ===== src/Saves/Slots.antt =====
-- The laws of the store in memory.
use kuula.Prelude.{
  ℕ, zero, suc, ◌+◌, ◌≤◌, ◌<◌, ◌≡◌, ◌≢◌, refl, sym, ap, ◌∙◌, Option, none, some, List, [], ◌∷◌,
  ◌++◌, length, get_or, set, replicate, All, arith, append_assoc, length-append,
}
use kuula.Prelude.Bytes.{Bytes}
use kuula.Prelude.Result.{Result, ok, err}
use kuula.Saves.{
  MemoryStore, SaveError, slot_count, slot_bytes, check_slot, check_size, empty, read, write,
  write_all, from_slots, slots_from, all_slots,
}

abbrev pub IsSlot : Option Bytes → Type 0
IsSlot none = Unit
IsSlot (some b) = length b ≤ slot_bytes

-- Eight slots, each empty or with no more bytes than a slot holds.
pub record IsStore (m : MemoryStore) : Type 0 where
  pub count : length m.slots ≡ slot_count
  pub sizes : All IsSlot m.slots

get_or-set_self :
    {A : Type 0} (xs : List A) (i : ℕ) (v d : A) → i < length xs → get_or (set xs i v) i d ≡ v
get_or-set_self [] i v d h = elim h [ ]
get_or-set_self (x ∷ xs) zero v d h = refl
get_or-set_self (x ∷ xs) (suc i) v d h = get_or-set_self xs i v d (omega arith)

get_or-set_ne :
    {A : Type 0} (xs : List A) (i j : ℕ) (v d : A) → i ≢ j → get_or (set xs i v) j d ≡ get_or xs j d
get_or-set_ne [] i j v d h = refl
get_or-set_ne (x ∷ xs) zero zero v d h = absurd (h refl)
get_or-set_ne (x ∷ xs) zero (suc j) v d h = refl
get_or-set_ne (x ∷ xs) (suc i) zero v d h = refl
get_or-set_ne (x ∷ xs) (suc i) (suc j) v d h = get_or-set_ne xs i j v d (λ e. h (ap suc e))

-- What is read after a write: the bytes, where the slot was written, and what was read before, in any
-- other slot.
pub read-write :
    (m : MemoryStore) (slot other : ℕ) (bytes : Bytes)
    → IsStore m
    → slot < slot_count
    → length bytes ≤ slot_bytes
    → other ≢ slot
    → ((read slot (write slot bytes m).0).1 ≡ ok (some bytes))
      × ((read other (write slot bytes m).0).1 ≡ (read other m).1)
unfolding read write check_slot check_size
read-write m slot other bytes v l s n = (
  ground (arith, l, s, get_or-set_self m.slots slot (some bytes) none (omega (arith, l, v.count))),
  ground (arith, l, s, get_or-set_ne m.slots slot other (some bytes) none (λ e. n (sym e))),
)

set-middle :
    (front back : List (Option Bytes)) (x y : Option Bytes)
    → set (front ++ x ∷ back) (length front) y ≡ front ++ y ∷ back
set-middle [] back x y = refl
set-middle (z ∷ front) back x y = ap (λ l. z ∷ l) (set-middle front back x y)

abbrev blank : List (Option Bytes) → List (Option Bytes)
blank xs = replicate (length xs) none

write-middle :
    (front back : List (Option Bytes)) (b : Bytes)
    → length front < slot_count
    → length b ≤ slot_bytes
    → write (length front) b (record { slots = front ++ none ∷ back })
      ≡ (record { slots = front ++ some b ∷ back }, ok tt)
unfolding write check_slot check_size
write-middle front back b l s = ground (arith, l, s, set-middle front back none (some b))

longer :
    (front : List (Option Bytes)) (x : Option Bytes) (k : ℕ)
    → length front ≡ k
    → length (front ++ x ∷ []) ≡ k + 1
longer front x k h = omega (arith, h, length-append front (x ∷ []))

store-eq :
    {xs ys : List (Option Bytes)}
    → xs ≡ ys
    → Path MemoryStore (record { slots = xs }) (record { slots = ys })
store-eq e = ap (λ l. record { slots = l }) e

write_all_step :
    (slot : ℕ) (b : Bytes) (rest : List (ℕ × Bytes)) (m : MemoryStore) {m' : MemoryStore}
    → write slot b m ≡ (m', ok tt)
    → write_all ((slot, b) ∷ rest) m ≡ write_all rest m'
unfolding write_all
write_all_step slot b rest m e =
    ap
      (λ (p : MemoryStore × Result SaveError (Unit {0})). elim p.1 [
        | err why ↦ err why
        | ok u ↦ write_all rest p.0
      ])
      e

write_all-slots_from :
    (front xs : List (Option Bytes)) (k : ℕ)
    → length front ≡ k
    → k + length xs ≡ slot_count
    → All IsSlot xs
    → write_all (slots_from k xs) (record { slots = front ++ blank xs })
      ≡ ok (record { slots = front ++ xs })
unfolding write_all slots_from
write_all-slots_from front [] k e h v = refl
write_all-slots_from front (none ∷ xs) k e h v =
    let next = append_assoc front (none ∷ []) in
    let ih =
      write_all-slots_from (front ++ none ∷ []) xs (k + 1) (longer front none k e)
        (omega (arith, h)) v.1 in
    ap (write_all (slots_from (k + 1) xs)) (store-eq (sym (next (blank xs))))
    ∙ ih
    ∙ ap ok (store-eq (next xs))
write_all-slots_from front (some b ∷ xs) k e h v =
    let next = append_assoc front (some b ∷ []) in
    let ih =
      write_all-slots_from (front ++ some b ∷ []) xs (k + 1) (longer front (some b) k e)
        (omega (arith, h)) v.1 in
    let w : write k b (record { slots = front ++ none ∷ blank xs })
        ≡ (record { slots = front ++ some b ∷ blank xs }, ok tt) =
      rw (← e) (write-middle front (blank xs) b (omega (arith, e, h)) v.0) in
    write_all_step k b (slots_from (k + 1) xs) (record { slots = front ++ none ∷ blank xs }) w
    ∙ ap (write_all (slots_from (k + 1) xs)) (store-eq (sym (next (blank xs))))
    ∙ ih
    ∙ ap ok (store-eq (next xs))

-- A store with its eight slots, none of them too large, is the same store after it is written out slot
-- by slot and read back.
pub from_slots-all_slots : (m : MemoryStore) → IsStore m → from_slots (all_slots m) ≡ ok m
unfolding from_slots all_slots empty
from_slots-all_slots m v =
    let blanks : replicate slot_count none ≡ blank m.slots =
      ap (λ n. replicate n none) (sym v.count) in
    ap (write_all (slots_from 0 m.slots)) (store-eq blanks)
    ∙ write_all-slots_from [] m.slots 0 refl (omega (arith, v.count)) v.sizes
