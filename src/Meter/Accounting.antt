-- ===== src/Meter/Accounting.antt =====
-- What a charge does to the counters, and when it fails.
use mathlib.Core.List.{foldl}
use kuula.Prelude.{
  ℕ, zero, suc, ◌+◌, ◌≤◌, ◌<◌, ◌≡◌, refl, min, max, ◌∙◌, none, some, List, [], ◌∷◌, arith, length,
  get_or, set, All, length-set, ltb, ◌==◌, if◌then◌else◌,
}
use kuula.Prelude.Result.{ok, err}
use kuula.Prelude.Words.{saturating_add, saturating_add-le, u64_max}
use kuula.Meter.{
  Meter, Category, Fault, category_count, index, total, charge, profile, profile_get, is_dead,
}

-- The meter has a counter for each category, each a u64.
pub record IsMeter (m : Meter) : Type 0 where
  pub counters : length m.used ≡ category_count
  pub words : All (λ n. n ≤ u64_max) m.used

sum : List ℕ → ℕ
sum [] = 0
sum (x ∷ xs) = x + sum xs

foldl-sum :
    (acc : ℕ) (xs : List ℕ)
    → acc ≤ u64_max
    → foldl saturating_add acc xs ≡ min (acc + sum xs) u64_max
unfolding sum saturating_add
foldl-sum acc [] h = omega arith
foldl-sum acc (x ∷ xs) h = omega (arith, foldl-sum (saturating_add acc x) xs (omega arith))

total-sum : (m : Meter) → total m ≡ min (sum m.used) u64_max
unfolding total
total-sum m = omega (arith, foldl-sum 0 m.used (omega arith))

sum-set : (xs : List ℕ) (i v : ℕ) → i < length xs → sum (set xs i v) + get_or xs i 0 ≡ sum xs + v
unfolding sum
sum-set [] i v h = elim h [ ]
sum-set (x ∷ xs) zero v h = omega arith
sum-set (x ∷ xs) (suc i) v h = omega (arith, sum-set xs i v (omega arith))

get_or-le : (xs : List ℕ) (i : ℕ) → All (λ n. n ≤ u64_max) xs → get_or xs i 0 ≤ u64_max
get_or-le [] i h = omega arith
get_or-le (x ∷ xs) zero h = h.0
get_or-le (x ∷ xs) (suc i) h = get_or-le xs i h.1

get_or-le-sum : (xs : List ℕ) (i : ℕ) → get_or xs i 0 ≤ sum xs
unfolding sum
get_or-le-sum [] i = omega arith
get_or-le-sum (x ∷ xs) zero = omega arith
get_or-le-sum (x ∷ xs) (suc i) = omega (arith, get_or-le-sum xs i)

All-set :
    (xs : List ℕ) (i v : ℕ)
    → v ≤ u64_max
    → All (λ n. n ≤ u64_max) xs
    → All (λ n. n ≤ u64_max) (set xs i v)
All-set [] i v k h = tt
All-set (x ∷ xs) zero v k h = (k, h.1)
All-set (x ∷ xs) (suc i) v k h = (h.0, All-set xs i v k h.1)

index-lt : (c : Category) → index c < category_count
unfolding index
index-lt Category.lua = omega arith
index-lt _ = omega arith

index_injective : (c d : Category) → index c ≡ index d → c ≡ d
unfolding index
index_injective c d h = ground arith

-- Charging keeps the meter a meter.
pub charge-IsMeter : (c : Category) (n : ℕ) (m : Meter) → IsMeter m → IsMeter (charge c n m).0
unfolding charge
charge-IsMeter c n m v = record {
  counters = length-set m.used (index c) _ ∙ v.counters;
  words = All-set m.used (index c) _ (saturating_add-le _ _) v.words;
}

counter-lt : (c : Category) {m : Meter} → IsMeter m → index c < length m.used
counter-lt c v = omega (arith, index-lt c, v.counters)

get_or-set :
    (xs : List ℕ) (i j v : ℕ)
    → i < length xs
    → get_or (set xs i v) j 0 ≡ (if i == j then v else get_or xs j 0)
get_or-set [] i j v h = elim h [ ]
get_or-set (x ∷ xs) zero zero v h = refl
get_or-set (x ∷ xs) zero (suc j) v h = ground arith
get_or-set (x ∷ xs) (suc i) zero v h = ground arith
get_or-set (x ∷ xs) (suc i) (suc j) v h = ground (arith, get_or-set xs i j v (omega arith))

-- A charge on a well-formed meter adds its cycles, at least one, to the total, which saturates at
-- the largest u64.
pub total-charge :
    (c : Category) (n : ℕ) (m : Meter)
    → IsMeter m
    → total (charge c n m).0 ≡ saturating_add (total m) (max n 1)
unfolding charge saturating_add
total-charge c n m v = omega (
  arith,
  total-sum m,
  total-sum (charge c n m).0,
  index-lt c,
  v.counters,
  get_or-le m.used (index c) v.words,
  get_or-le-sum m.used (index c),
  sum-set m.used (index c) (saturating_add (get_or m.used (index c) 0) (max n 1)) (counter-lt c v),
)

-- On a well-formed meter, the counter of the category goes up by the charge, at least one, and no
-- other counter changes.
pub profile_get-charge :
    (c d : Category) (n mem : ℕ) (m : Meter)
    → IsMeter m
    → profile_get (profile mem (charge c n m).0) d ≡ (
        if index c == index d
        then saturating_add (profile_get (profile mem m) c) (max n 1)
        else profile_get (profile mem m) d)
unfolding charge profile_get profile
profile_get-charge c d n mem m v =
    get_or-set m.used (index c) (index d) (saturating_add (get_or m.used (index c) 0) (max n 1))
      (counter-lt c v)

-- A charge on a live meter fails exactly when the total passes the budget, and the error says by
-- which callback, how much was used and of how much.
pub charge-fails_iff :
    (c : Category) (n : ℕ) (m : Meter)
    → m.dead ≡ none
    → (charge c n m).1 ≡ (
        if ltb m.budget (total (charge c n m).0)
        then err
            (record { callback = m.callback; used = total (charge c n m).0; budget = m.budget })
        else ok tt)
unfolding charge is_dead
charge-fails_iff c n m alive = ground arith

-- A dead meter counts silently: no charge on it fails.
charge-dead :
    (c : Category) (n : ℕ) (m : Meter) (f : Fault) → m.dead ≡ some f → (charge c n m).1 ≡ ok tt
unfolding charge is_dead
charge-dead c n m f dead = ground arith

pub charge_keeps :
    (c : Category) (n : ℕ) (m : Meter)
    → ((charge c n m).0.dead ≡ m.dead)
      × ((charge c n m).0.budget ≡ m.budget)
      × ((charge c n m).0.callback ≡ m.callback)
unfolding charge
charge_keeps c n m = (refl, refl, refl)
