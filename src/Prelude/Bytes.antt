-- ===== src/Prelude/Bytes.antt =====
-- Byte strings and big-endian integers (`to_be_bytes`, `from_be_bytes`).
use Prim.Native.Nat.{ℕ, zero, suc, ◌+◌, ◌*◌, ◌/◌, ◌%◌, ◌^◌, ◌≤◌, ◌<◌}
use Prim.Native.Char.{code}
use Prim.Native.String.{String}
use mathlib.Core.Path.{◌≡◌, refl, ap, ap₂, ◌∙◌}
use mathlib.Core.List.{List, [], ◌∷◌, ◌++◌}
use mathlib.Core.Logic.{◌↔◌}
use mathlib.Core.Bool.{Bool, true, false, ◌&&◌}
use native.Mathlib.Omega.{arith}
use native.Mathlib.Nat.{pow-suc}
use kuula.Prelude.Tests.{◌==◌, if◌then◌else◌}
use kuula.Prelude.Lists.{length, All, length-append, All-append}

abbrev pub Bytes : Type 0
Bytes = List ℕ

-- The bytes of an ASCII text.
abbrev pub codes : String → Bytes
codes String.[] = []
codes (String.◌∷◌ c s) = code c ∷ codes s

-- Every element fits in a byte.
abbrev pub AreBytes : Bytes → Type 0
AreBytes = All (λ b. b < 256)

-- The `k` big-endian bytes of `n`.
unfoldable pub be_bytes : ℕ → ℕ → Bytes
be_bytes zero n = []
be_bytes (suc k) n = be_bytes k (n / 256) ++ (n % 256 ∷ [])

-- The number of a big-endian byte string, after the bytes read so far.
unfoldable pub from_be : ℕ → Bytes → ℕ
from_be acc [] = acc
from_be acc (b ∷ bs) = from_be (acc * 256 + b) bs

from_be-append :
    (acc : ℕ) (xs : Bytes) (b : ℕ) → from_be acc (xs ++ b ∷ []) ≡ from_be acc xs * 256 + b
unfolding from_be
from_be-append acc [] b = refl
from_be-append acc (x ∷ xs) b = from_be-append (acc * 256 + x) xs b

pub length-be_bytes : (k n : ℕ) → length (be_bytes k n) ≡ k
unfolding be_bytes
length-be_bytes zero n = refl
length-be_bytes (suc k) n =
    omega (arith, length-append (be_bytes k (n / 256)) (n % 256 ∷ []), length-be_bytes k (n / 256))

pub be_bytes-AreBytes : (k n : ℕ) → AreBytes (be_bytes k n)
unfolding be_bytes
be_bytes-AreBytes zero n = tt
be_bytes-AreBytes (suc k) n =
    All-append _ (be_bytes k (n / 256)) (n % 256 ∷ []) (be_bytes-AreBytes k (n / 256))
      (omega arith, tt)

div-lt : (k n : ℕ) → n < 256 ^ suc k → n / 256 < 256 ^ k
div-lt k n h = let e : 256 ^ suc k ≡ 256 ^ k * 256 = pow-suc 256 k in omega arith

-- Reading the `k` bytes of a number that fits gives the number.
pub from_be-be_bytes : (k n : ℕ) → n < 256 ^ k → from_be 0 (be_bytes k n) ≡ n
unfolding be_bytes from_be
from_be-be_bytes zero n h = omega arith
from_be-be_bytes (suc k) n h =
    from_be-append 0 (be_bytes k (n / 256)) (n % 256)
    ∙ omega (arith, from_be-be_bytes k (n / 256) (div-lt k n h))

mul-le-mul_right : (a b c : ℕ) → a ≤ b → a * c ≤ b * c
mul-le-mul_right a b c h = grind arith

from_be-lt : (acc : ℕ) (bs : Bytes) → AreBytes bs → from_be acc bs < (acc + 1) * 256 ^ length bs
unfolding from_be
from_be-lt acc [] h = omega arith
from_be-lt acc (b ∷ bs) h = omega (
  arith,
  pow-suc 256 (length bs),
  ap (λ (t : ℕ). (acc + 1) * t) (pow-suc 256 (length bs)),
  from_be-lt (acc * 256 + b) bs h.1,
  mul-le-mul_right (b + 1) 256 (256 ^ length bs) (omega arith),
)

from_be_injective :
    (a a' : ℕ) (xs ys : Bytes)
    → length xs ≡ length ys
    → AreBytes xs
    → AreBytes ys
    → from_be a xs ≡ from_be a' ys
    → (a ≡ a') × (xs ≡ ys)
unfolding from_be
from_be_injective a a' [] [] e hx hy h = (h, refl)
from_be_injective a a' [] (y ∷ ys) e hx hy h = absurd (omega arith)
from_be_injective a a' (x ∷ xs) [] e hx hy h = absurd (omega arith)
from_be_injective a a' (x ∷ xs) (y ∷ ys) e hx hy h =
    let (p, q) = from_be_injective (a * 256 + x) (a' * 256 + y) xs ys (omega arith) hx.1 hy.1 h in
    (omega arith, ap₂ ◌∷◌ (omega arith) q)

-- The bytes of the number that a byte string of length `k` stands for are that string.
pub be_bytes-from_be : (bs : Bytes) → AreBytes bs → be_bytes (length bs) (from_be 0 bs) ≡ bs
be_bytes-from_be bs h =
    (from_be_injective 0 0 (be_bytes (length bs) (from_be 0 bs)) bs
      (length-be_bytes (length bs) (from_be 0 bs)) (be_bytes-AreBytes (length bs) (from_be 0 bs)) h
      (from_be-be_bytes (length bs) (from_be 0 bs) (omega (arith, from_be-lt 0 bs h)))).1

-- `==` on byte strings.
unfoldable pub same_bytes : Bytes → Bytes → Bool
same_bytes [] [] = true
same_bytes [] (b ∷ ys) = false
same_bytes (a ∷ xs) [] = false
same_bytes (a ∷ xs) (b ∷ ys) = a == b && same_bytes xs ys

pub same_bytes_iff : (xs ys : Bytes) → (same_bytes xs ys ≡ true) ↔ (xs ≡ ys)
unfolding same_bytes
same_bytes_iff [] [] = ground arith
same_bytes_iff [] (b ∷ ys) = ground arith
same_bytes_iff (a ∷ xs) [] = ground arith
same_bytes_iff (a ∷ xs) (b ∷ ys) = ground (arith, same_bytes_iff xs ys)

pub same_bytes_refl : (xs : Bytes) → same_bytes xs xs ≡ true
same_bytes_refl xs = (same_bytes_iff xs xs).1 refl

-- str::split on one ASCII character.
unfoldable pub onto_first : ℕ → List Bytes → List Bytes
onto_first c [] = (c ∷ []) ∷ []
onto_first c (piece ∷ pieces) = (c ∷ piece) ∷ pieces

unfoldable pub split : ℕ → Bytes → List Bytes
unfolding onto_first
split sep [] = [] ∷ []
split sep (c ∷ cs) =
    let pieces = split sep cs in if sep == c then [] ∷ pieces else onto_first c pieces
