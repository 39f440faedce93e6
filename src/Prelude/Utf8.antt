-- ===== src/Prelude/Utf8.antt =====
-- `std::str::from_utf8` and `str::is_char_boundary` over byte strings. A Rust `str` is its bytes.
use Prim.Native.Nat.{ℕ, zero, suc, ◌-◌, ◌≤◌, ◌<◌}
use mathlib.Core.Path.{◌≡◌, refl}
use mathlib.Core.Bool.{Bool, true, false, ◌&&◌, ◌||◌}
use mathlib.Core.Option.{Option, none, some}
use mathlib.Core.List.{[], ◌∷◌}
use native.Mathlib.Omega.{arith}
use kuula.Prelude.Tests.{ltb, leb, ◌==◌, if◌then◌else◌}
use kuula.Prelude.Lists.{take, All}
use kuula.Prelude.Bytes.{Bytes}

-- The bytes still missing of the character being read, and the range of the next one.
pub record Pending : Type 0 where
  pub low : ℕ
  pub high : ℕ
  pub left : ℕ

abbrev pub boundary : Pending
boundary = record { low = 128; high = 191; left = 0 }

-- What the first byte of a character asks for; a byte that starts none asks for an empty range.
lead : ℕ → Pending
lead b =
    if ltb b 0x80
    then boundary
    else if ltb b 0xc2
    then record { low = 191; high = 128; left = 1 }
    else if ltb b 0xe0
    then record { low = 128; high = 191; left = 1 }
    else if b == 0xe0
    then record { low = 0xa0; high = 191; left = 2 }
    else if b == 0xed
    then record { low = 128; high = 0x9f; left = 2 }
    else if ltb b 0xf0
    then record { low = 128; high = 191; left = 2 }
    else if b == 0xf0
    then record { low = 0x90; high = 191; left = 3 }
    else if ltb b 0xf4
    then record { low = 128; high = 191; left = 3 }
    else if b == 0xf4
    then record { low = 128; high = 0x8f; left = 3 }
    else record { low = 191; high = 128; left = 1 }

accepts : Pending → ℕ → Bool
accepts p b = p.left == 0 || (leb p.low b && leb b p.high)

advance : Pending → ℕ → Pending
unfolding lead
advance p b = if p.left == 0 then lead b else record { low = 128; high = 191; left = p.left - 1 }

utf8_from : Pending → Bytes → Bool
utf8_from p [] = p.left == 0
utf8_from p (b ∷ bs) = accepts p b && utf8_from (advance p b) bs

-- Whether the bytes are well-formed UTF-8.
unfoldable pub is_utf8 : Bytes → Bool
unfolding utf8_from accepts advance
is_utf8 bs = utf8_from boundary bs

-- std::str::from_utf8
unfoldable pub from_utf8 : Bytes → Option Bytes
unfolding is_utf8
from_utf8 bs = if is_utf8 bs then some bs else none

-- Whether a byte goes on with a character (`b as i8 < -0x40`).
unfoldable pub is_continuation : ℕ → Bool
is_continuation b = leb 0x80 b && ltb b 0xc0

-- str::is_char_boundary
unfoldable pub is_char_boundary : Bytes → ℕ → Bool
unfolding is_continuation
is_char_boundary s zero = true
is_char_boundary [] (suc i) = false
is_char_boundary (b ∷ []) (suc i) = i == 0
is_char_boundary (b ∷ c ∷ s) (suc i) =
    let rest = is_char_boundary (c ∷ s) i in
    if i == 0 then (if is_continuation c then false else true) else rest

-- `while !s.is_char_boundary(end) { end -= 1; }`
unfoldable pub floor_char_boundary : Bytes → ℕ → ℕ
unfolding is_char_boundary
floor_char_boundary s zero = 0
floor_char_boundary s (suc end) =
    let rest = floor_char_boundary s end in if is_char_boundary s (suc end) then suc end else rest

pub is_utf8_ascii : (bs : Bytes) → All (λ b. b < 128) bs → is_utf8 bs ≡ true
unfolding is_utf8 lead
is_utf8_ascii [] h = refl
is_utf8_ascii (b ∷ bs) h = ground (arith, is_utf8_ascii bs h.1)

pub floor_char_boundary-le : (s : Bytes) (end : ℕ) → floor_char_boundary s end ≤ end
unfolding floor_char_boundary
floor_char_boundary-le s zero = omega arith
floor_char_boundary-le s (suc end) = ground (arith, floor_char_boundary-le s end)

-- The range of a byte inside a character lies within the continuation bytes.
abbrev IsInner : Pending → Type 0
IsInner p = (128 ≤ p.low) × (p.high ≤ 191)

advance-IsInner : (p : Pending) (b : ℕ) → IsInner p → IsInner (advance p b)
unfolding advance
advance-IsInner p b h = ground arith

utf8_from-take :
    (p : Pending) (s : Bytes) (i : ℕ)
    → IsInner p
    → utf8_from p s ≡ true
    → 0 < i
    → is_char_boundary s i ≡ true
    → utf8_from p (take i s) ≡ true
unfolding utf8_from accepts is_char_boundary
utf8_from-take p s zero inner h pos e = absurd (omega arith)
utf8_from-take p [] (suc i) inner h pos e = cc
utf8_from-take p (b ∷ []) (suc zero) inner h pos e = h
utf8_from-take p (b ∷ []) (suc (suc i)) inner h pos e = ground arith
utf8_from-take p (b ∷ c ∷ s) (suc zero) inner h pos e = ground (arith, advance-IsInner p b inner)
utf8_from-take p (b ∷ c ∷ s) (suc (suc i)) inner h pos e =
    ground (arith, utf8_from-take (advance p b) (c ∷ s) (suc i) (advance-IsInner p b inner))

-- A text cut at a character boundary is a text.
pub is_utf8-take :
    (s : Bytes) (i : ℕ) → is_utf8 s ≡ true → is_char_boundary s i ≡ true → is_utf8 (take i s) ≡ true
unfolding utf8_from is_utf8
is_utf8-take s zero h e = refl
is_utf8-take s (suc i) h e = utf8_from-take boundary s (suc i) (omega arith) h (omega arith) e

pub is_char_boundary-floor :
    (s : Bytes) (end : ℕ) → is_char_boundary s (floor_char_boundary s end) ≡ true
unfolding floor_char_boundary
is_char_boundary-floor s zero = refl
is_char_boundary-floor s (suc end) = ground (arith, is_char_boundary-floor s end)
