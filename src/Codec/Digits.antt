-- ===== src/Codec/Digits.antt =====
-- The characters of base64 in crates/kuula-core/src/codec/mod.rs: `B64` and `val` are inverse.
use kuula.Prelude.{
  ℕ, zero, suc, ◌<◌, ◌≡◌, refl, sym, ap, ◌∙◌, Bool, true, false, ◌&&◌, Option, none, some, ltb,
  ◌==◌, arith, inl, inr, Bool-cases,
}
use mathlib.Core.Bool.{true≢false}
use kuula.Codec.{digit, val, pad_char}

-- A test that holds below a number.
below : (ℕ → Bool) → ℕ → Bool
below p zero = true
below p (suc n) = p n && below p n

both : (a b : Bool) → a && b ≡ true → (a ≡ true) × (b ≡ true)
both a b e = ground (arith, e)

below_lem : (p : ℕ → Bool) (n i : ℕ) → below p n ≡ true → i < n → p i ≡ true
unfolding below
below_lem p zero i h l = absurd (omega (arith, l))
below_lem p (suc n) i h l =
    let (top, rest) = both (p n) (below p n) h in
    elim (Bool-cases (i == n)) [
      | inl e ↦ let same : i ≡ n = ground (arith, e) in ap p same ∙ top
      | inr e ↦ below_lem p n i rest (ground (arith, e, l))
    ]

reads_as : Option ℕ → ℕ → Bool
reads_as none i = false
reads_as (some v) i = v == i

reads_as_lem : (o : Option ℕ) (i : ℕ) → reads_as o i ≡ true → o ≡ some i
unfolding reads_as
reads_as_lem none i e = absurd (true≢false (sym e))
reads_as_lem (some v) i e = let same : v ≡ i = ground (arith, e) in ap some same

all_read : below (λ i. reads_as (val (digit i)) i) 64 ≡ true
unfolding below reads_as val digit
all_read = refl

pub val-digit : (i : ℕ) → i < 64 → val (digit i) ≡ some i
val-digit i l =
    reads_as_lem (val (digit i)) i (below_lem (λ i. reads_as (val (digit i)) i) 64 i all_read l)

writes_as : Option ℕ → ℕ → Bool
writes_as none c = true
writes_as (some v) c = (digit v == c) && ltb v 64

all_written : below (λ c. writes_as (val c) c) 123 ≡ true
unfolding below writes_as val digit
all_written = refl

writes_as_lem :
    (o : Option ℕ) (c v : ℕ) → o ≡ some v → writes_as o c ≡ true → (digit v ≡ c) × (v < 64)
unfolding writes_as
writes_as_lem none c v e h = absurd (ground (arith, e))
writes_as_lem (some w) c v e h =
    let (a, b) = both (digit w == c) (ltb w 64) h in
    let same : w ≡ v = ground (arith, e) in
    let at : digit w ≡ c = ground (arith, a) in (ap digit (sym same) ∙ at, ground (arith, b, same))

val_bounded : (c v : ℕ) → val c ≡ some v → c < 123
unfolding val
val_bounded c v e = ground (arith, e)

pub digit-val : (c v : ℕ) → val c ≡ some v → (digit v ≡ c) × (v < 64)
digit-val c v e =
    writes_as_lem (val c) c v e
      (below_lem (λ c. writes_as (val c) c) 123 c all_written (val_bounded c v e))

pub val_apart : (c v : ℕ) → val c ≡ some v → (c == pad_char) ≡ false
unfolding val
val_apart c v e = ground (arith, e)
