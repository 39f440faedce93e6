-- ===== src/Prelude/Words.antt =====
-- Machine words as native numbers: Rust's saturating and wrapping operations on u16, u32 and u64.
-- A `usize` is taken to be 64 bits wide.
use Prim.Native.Nat.{ℕ, zero, suc, ◌+◌, ◌-◌, ◌*◌, ◌/◌, ◌%◌, ◌^◌, ◌≤◌, ◌<◌, min}
use mathlib.Core.Path.{◌≡◌, sym, ap, ◌∙◌}
use mathlib.Core.Bool.{Bool, true, ◌&&◌, not}
use native.Mathlib.Omega.{arith}
use native.Mathlib.Nat.{
  pow-suc, mul_assoc, add-mul-mod_self_right, mod-eq_of_lt, mod-add-div', mod-lt, mod-one,
}
use kuula.Prelude.Tests.{◌==◌}

abbrev pub u64_max : ℕ
u64_max = 18446744073709551615

abbrev pub u32_mod : ℕ
u32_mod = 4294967296

-- u64::saturating_add and u64::saturating_mul.
unfoldable pub saturating_add : ℕ → ℕ → ℕ
saturating_add a b = min (a + b) u64_max

unfoldable pub saturating_mul : ℕ → ℕ → ℕ
saturating_mul a b = min (a * b) u64_max

pub saturating_add-le : (a b : ℕ) → saturating_add a b ≤ u64_max
unfolding saturating_add
saturating_add-le a b = omega arith

-- `a & b` of two words of `k` bits, and bit `n` of a word.
unfoldable pub band : ℕ → ℕ → ℕ → ℕ
band zero a b = 0
band (suc k) a b = band k (a / 2) (b / 2) * 2 + min (a % 2) (b % 2)

unfoldable pub bit : ℕ → ℕ → Bool
bit zero w = w % 2 == 1
bit (suc n) w = bit n (w / 2)

-- `!w` of a u16.
abbrev pub complement : ℕ → ℕ
complement w = 65535 - w

pub band-lt : (k a b : ℕ) → band k a b < 2 ^ k
unfolding band
band-lt zero a b = omega arith
band-lt (suc k) a b = omega (arith, pow-suc 2 k, band-lt k (a / 2) (b / 2))

half_lem : (x m : ℕ) → m < 2 → (x * 2 + m) / 2 ≡ x
half_lem x m h = omega arith

pub bit-zero : (n : ℕ) → bit n 0 ≡ true → ⊥
unfolding bit
bit-zero zero h = cc
bit-zero (suc n) h = bit-zero n h

pub bit-band : (k n a b : ℕ) → n < k → bit n (band k a b) ≡ bit n a && bit n b
unfolding band bit
bit-band zero n a b h = absurd (omega (arith, h))
bit-band (suc k) zero a b h = ground arith
bit-band (suc k) (suc n) a b h =
    rw (half_lem (band k (a / 2) (b / 2)) (min (a % 2) (b % 2)) (omega arith))
      (bit-band k n (a / 2) (b / 2) (omega (arith, h)))

complement_low : (q p w : ℕ) → q ≡ p * 2 → w < q → bit 0 (q - 1 - w) ≡ not (bit 0 w)
unfolding bit
complement_low q p w e l = ground arith

complement_half : (q p w : ℕ) → q ≡ p * 2 → w < q → (q - 1 - w) / 2 ≡ p - 1 - w / 2
complement_half q p w e l = omega (arith, e, l)

pub bit-complement : (k n w : ℕ) → n < k → w < 2 ^ k → bit n (2 ^ k - 1 - w) ≡ not (bit n w)
unfolding bit
bit-complement zero n w h l = absurd (omega (arith, h))
bit-complement (suc k) zero w h l =
    let p : 2 ^ suc k ≡ 2 ^ k * 2 = pow-suc 2 k in complement_low (2 ^ suc k) (2 ^ k) w p l
bit-complement (suc k) (suc n) w h l =
    let p : 2 ^ suc k ≡ 2 ^ k * 2 = pow-suc 2 k in
    rw (complement_half (2 ^ suc k) (2 ^ k) w p l)
      (bit-complement k n (w / 2) (omega (arith, h)) (omega (arith, p, l)))

pow_pos : (k : ℕ) → 0 < 2 ^ k
pow_pos zero = omega arith
pow_pos (suc k) = omega (arith, pow-suc 2 k, pow_pos k)

half_split : (p w q r : ℕ) → 0 < p → q * p * 2 + r ≡ w → r < p * 2 → (w / 2) % p ≡ r / 2
half_split p w q r l e h =
    let half : w / 2 ≡ r / 2 + q * p = omega (arith, e) in
    rw (half, add-mul-mod_self_right (r / 2) q p) (mod-eq_of_lt (omega (arith, h)))

-- A word cut to its low bits, one bit further down.
half_cut : (k w : ℕ) → (w % 2 ^ suc k) / 2 ≡ (w / 2) % 2 ^ k
half_cut k w =
    let p : 2 ^ suc k ≡ 2 ^ k * 2 = pow-suc 2 k in
    let whole : w % 2 ^ suc k + w / 2 ^ suc k * 2 ^ suc k ≡ w = mod-add-div' w (2 ^ suc k) in
    let less : w % 2 ^ suc k < 2 ^ suc k = mod-lt w (pow_pos (suc k)) in
    let product : w / 2 ^ suc k * 2 ^ suc k ≡ w / 2 ^ suc k * 2 ^ k * 2 =
      ap (λ x. w / 2 ^ suc k * x) p ∙ sym (mul_assoc (w / 2 ^ suc k) (2 ^ k) 2) in
    sym (
      half_split (2 ^ k) w (w / 2 ^ suc k) (w % 2 ^ suc k) (pow_pos k)
        (omega (arith, whole, product)) (omega (arith, less, p)))

low_cut : (k w : ℕ) → (w % 2 ^ suc k) % 2 ≡ w % 2
low_cut k w =
    let p : 2 ^ suc k ≡ 2 ^ k * 2 = pow-suc 2 k in
    let whole : w % 2 ^ suc k + w / 2 ^ suc k * 2 ^ suc k ≡ w = mod-add-div' w (2 ^ suc k) in
    let product : w / 2 ^ suc k * 2 ^ suc k ≡ w / 2 ^ suc k * 2 ^ k * 2 =
      ap (λ x. w / 2 ^ suc k * x) p ∙ sym (mul_assoc (w / 2 ^ suc k) (2 ^ k) 2) in
    omega (arith, whole, product)

-- A bit of a word cut to its low bits is one of them, and a bit of the word.
pub bit-cut : (k n w : ℕ) → bit n (w % 2 ^ k) ≡ true → (n < k) × (bit n w ≡ true)
unfolding bit
bit-cut zero n w h = absurd (bit-zero n (rw (← mod-one w) h))
bit-cut (suc k) zero w h = (omega arith, rw (← low_cut k w) h)
bit-cut (suc k) (suc n) w h =
    let (l, b) = bit-cut k n (w / 2) (rw (← half_cut k w) h) in (omega (arith, l), b)
