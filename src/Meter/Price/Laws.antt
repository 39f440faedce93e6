-- ===== src/Meter/Price/Laws.antt =====
-- No price is free, and prices grow with the work.
use kuula.Prelude.{ℕ, zero, suc, ◌+◌, ◌*◌, ◌/◌, ◌^◌, ◌≤◌, ◌<◌, ◌≡◌, arith, max}
use kuula.Prelude.Words.{saturating_mul, u64_max}
use native.Mathlib.Nat.{pow-suc}
use kuula.Meter.Price.{
  cls, pixels, map_price, text_price, bytes8, bytes128, compile, sort, sort_log, bits,
}

mul-le-mul : (a b c d : ℕ) → a ≤ b → c ≤ d → a * c ≤ b * d
mul-le-mul a b c d h k = grind arith

-- The prices of drawing, text, memory and compilation are at least one cycle and at most what a u64
-- holds, for work counted in u64.
prices_positive :
    (n t : ℕ)
    → n ≤ u64_max
    → t ≤ u64_max
    → (1 ≤ cls n)
      × (1 ≤ pixels n)
      × (1 ≤ map_price n t)
      × (1 ≤ text_price n t)
      × (1 ≤ bytes8 n)
      × (1 ≤ bytes128 n)
      × (1 ≤ compile n)
      × (cls n ≤ u64_max)
      × (pixels n ≤ u64_max)
      × (map_price n t ≤ u64_max)
      × (text_price n t ≤ u64_max)
unfolding cls pixels map_price text_price bytes8 bytes128 compile
prices_positive n t hn ht = omega arith

-- More work never costs less.
pub prices_mono :
    (n n' t t' : ℕ)
    → n ≤ n'
    → t ≤ t'
    → (cls n ≤ cls n')
      × (pixels n ≤ pixels n')
      × (map_price n t ≤ map_price n' t')
      × (text_price n t ≤ text_price n' t')
      × (bytes8 n ≤ bytes8 n')
      × (bytes128 n ≤ bytes128 n')
      × (compile n ≤ compile n')
unfolding cls pixels map_price text_price bytes8 bytes128 compile
prices_mono n n' t t' hn ht = omega arith

bits_mono : (k n n' : ℕ) → n ≤ n' → bits k n ≤ bits k n'
unfolding bits
bits_mono zero n n' h = omega arith
bits_mono (suc k) n n' h = ground (arith, bits_mono k (n / 2) (n' / 2))

bits-le : (k n : ℕ) → bits k n ≤ k
unfolding bits
bits-le zero n = omega arith
bits-le (suc k) n = ground (arith, bits-le k (n / 2))

-- `bits` is the bit length: the least power of two above `n`.
bits_lem : (k n : ℕ) → n < 2 ^ k → (n < 2 ^ bits k n) × (2 ^ bits k n ≤ max (2 * n) 1)
unfolding bits
bits_lem zero n h = (omega arith, omega arith)
bits_lem (suc k) n h =
    ground (arith, bits_lem k (n / 2) (omega (arith, pow-suc 2 k)), pow-suc 2 (bits k (n / 2)))

sort_log_mono : (n n' : ℕ) → n ≤ n' → sort_log n ≤ sort_log n'
unfolding sort_log
sort_log_mono n n' h = ground (arith, bits_mono 64 n n' h)

sort_log-le : (n : ℕ) → sort_log n ≤ 64
unfolding sort_log
sort_log-le n = ground (arith, bits-le 64 n)

-- The price of sorting is one cycle and one for each element and bit of the count, as long as there
-- are less than 2 ^ 57 elements: nothing saturates or wraps.
pub sort_exact :
    (n : ℕ) → 1 < n → n < 2 ^ 57 → (b : ℕ) × (sort n ≡ 1 + n * b) × (n < 2 ^ b) × (2 ^ b ≤ 2 * n)
unfolding sort saturating_mul
sort_exact n more small = (
  sort_log n,
  omega (arith, mul-le-mul n n (sort_log n) 64 (omega arith) (sort_log-le n)),
  unfold sort_log in ground (arith, bits_lem 64 n (omega arith)),
  unfold sort_log in ground (arith, bits_lem 64 n (omega arith)),
)

-- Sorting more elements, of less than 2 ^ 57, never costs less, and is never free.
sort_mono : (n n' : ℕ) → n ≤ n' → n' < 2 ^ 57 → (1 ≤ sort n) × (sort n ≤ sort n')
unfolding sort saturating_mul
sort_mono n n' h small = omega (
  arith,
  mul-le-mul n n' (sort_log n) (sort_log n') h (sort_log_mono n n' h),
  mul-le-mul n' n' (sort_log n') 64 (omega arith) (sort_log-le n'),
)
