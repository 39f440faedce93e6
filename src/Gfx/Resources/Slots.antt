-- ===== src/Gfx/Resources/Slots.antt =====
-- The slots of a slab: what they are charged, which of them are free, and writing one of them.
use kuula.Prelude.{
  ℕ, zero, suc, ◌+◌, ◌<◌, ◌≡◌, ◌≢◌, ◌∙◌, arith, true, false, some, List, [], ◌∷◌, ◌++◌, length,
  get_elem?, set, get_elem?-set_ne, All,
}
use kuula.Gfx.Resources.{Slot, is_held}

unfoldable pub total_charged : List Slot → ℕ
total_charged [] = 0
total_charged (s ∷ ss) = s.charged + total_charged ss

-- The slot at an index is there, empty, and charged for nothing.
abbrev pub IsEmptyAt : List Slot → ℕ → Type 0
IsEmptyAt slots i =
    (s : Slot) × (get_elem? slots i ≡ some s) × (is_held s.buf ≡ false) × (s.charged ≡ 0)

unfoldable pub IsFreeList : List Slot → List ℕ → Type 0
IsFreeList slots [] = Unit
IsFreeList slots (i ∷ is) = IsEmptyAt slots i × All (λ j. i ≢ j) is × IsFreeList slots is

-- The screen stands in slot 0, of generation 0, and is not charged.
abbrev pub IsScreen : List Slot → Type 0
IsScreen slots =
    (s : Slot) × (get_elem? slots 0 ≡ some s)
    × (is_held s.buf ≡ true)
    × (s.generation ≡ 0)
    × (s.charged ≡ 0)

pub total_charged-set :
    (slots : List Slot) (i : ℕ) (old s : Slot)
    → get_elem? slots i ≡ some old
    → total_charged (set slots i s) + old.charged ≡ total_charged slots + s.charged
unfolding total_charged
total_charged-set [] i old s h = cc
total_charged-set (x ∷ xs) zero old s h = ground arith
total_charged-set (x ∷ xs) (suc i) old s h = omega (arith, total_charged-set xs i old s h)

pub total_charged-append :
    (slots : List Slot) (s : Slot)
    → total_charged (slots ++ s ∷ []) ≡ total_charged slots + s.charged
unfolding total_charged
total_charged-append [] s = omega arith
total_charged-append (x ∷ xs) s = omega (arith, total_charged-append xs s)

get_elem?-append :
    (slots : List Slot) (s old : Slot) (i : ℕ)
    → get_elem? slots i ≡ some old
    → get_elem? (slots ++ s ∷ []) i ≡ some old
get_elem?-append [] s old i h = cc
get_elem?-append (x ∷ xs) s old zero h = h
get_elem?-append (x ∷ xs) s old (suc i) h = get_elem?-append xs s old i h

pub get_elem?-lt :
    (slots : List Slot) (i : ℕ) (s : Slot) → get_elem? slots i ≡ some s → i < length slots
get_elem?-lt [] i s h = cc
get_elem?-lt (x ∷ xs) zero s h = omega arith
get_elem?-lt (x ∷ xs) (suc i) s h = omega (arith, get_elem?-lt xs i s h)

-- A slot that the free list does not name may change.
pub IsFreeList-set :
    (slots : List Slot) (i : ℕ) (s : Slot) (is : List ℕ)
    → All (λ j. i ≢ j) is
    → IsFreeList slots is
    → IsFreeList (set slots i s) is
unfolding IsFreeList
IsFreeList-set slots i s [] away h = tt
IsFreeList-set slots i s (j ∷ is) away ((e, there, empty, c), apart, rest) = (
  (e, get_elem?-set_ne slots i j s away.0 ∙ there, empty, c),
  apart,
  IsFreeList-set slots i s is away.1 rest,
)

IsFreeList-append :
    (slots : List Slot) (s : Slot) (is : List ℕ)
    → IsFreeList slots is
    → IsFreeList (slots ++ s ∷ []) is
unfolding IsFreeList
IsFreeList-append slots s [] h = tt
IsFreeList-append slots s (j ∷ is) ((e, there, empty, c), apart, rest) =
    ((e, get_elem?-append slots s e j there, empty, c), apart, IsFreeList-append slots s is rest)

-- A slot that holds a buffer is not in the free list.
pub held-apart :
    (slots : List Slot) (i : ℕ) (s : Slot) (is : List ℕ)
    → get_elem? slots i ≡ some s
    → is_held s.buf ≡ true
    → IsFreeList slots is
    → All (λ j. i ≢ j) is
unfolding IsFreeList
held-apart slots i s [] there held h = tt
held-apart slots i s (j ∷ is) there held ((e, at, empty, c), apart, rest) =
    (λ same. cc, held-apart slots i s is there held rest)

pub IsScreen-set :
    (slots : List Slot) (i : ℕ) (s : Slot) → i ≢ 0 → IsScreen slots → IsScreen (set slots i s)
IsScreen-set slots i s ne (top, at, held, g, c) =
    (top, get_elem?-set_ne slots i 0 s ne ∙ at, held, g, c)

pub IsScreen-append : (slots : List Slot) (s : Slot) → IsScreen slots → IsScreen (slots ++ s ∷ [])
IsScreen-append slots s (top, at, held, g, c) = (top, get_elem?-append slots s top 0 at, held, g, c)

pub screen-apart : (slots : List Slot) (i : ℕ) → IsScreen slots → IsEmptyAt slots i → i ≢ 0
screen-apart slots i (top, at, held, g, c) (s, there, empty, _) = λ same. cc
