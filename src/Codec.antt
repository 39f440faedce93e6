-- ===== src/Codec.antt =====
-- Base64 of crates/kuula-core/src/codec/mod.rs. Bytes and characters are numbers below 256; the one error
-- of the decoder, malformed base64, is `none`.
pub mod Digits
pub mod Base64
pub mod Reading
pub mod Strict
mod Tests
use kuula.Prelude.{
  ℕ, zero, suc, ◌+◌, ◌-◌, ◌*◌, ◌/◌, ◌%◌, ◌^◌, Bool, true, false, ◌&&◌, ◌||◌, not, Option, none,
  some, List, [], ◌∷◌, ◌++◌, ltb, length, take, ◌==◌, get_elem?, if◌then◌else◌,
}
use kuula.Prelude.Bytes.{Bytes, codes}

-- B64
abbrev pub b64 : Bytes
b64 = codes "ABCDEFGHIJKLMNOPQRSTUVWXYZabcdefghijklmnopqrstuvwxyz0123456789+/"

abbrev pub pad_char : ℕ
pad_char = 61

-- `B64[i]`, where `i` is below 64
unfoldable pub digit : ℕ → ℕ
digit i = elim (get_elem? b64 i) [ none ↦ 0 | some c ↦ c ]

-- The four characters of a chunk of `len` bytes, whose missing bytes are zero.
unfoldable pub quad : ℕ → ℕ → ℕ → ℕ → Bytes
unfolding digit
quad len b0 b1 b2 =
    let n = b0 * 2 ^ 16 + b1 * 2 ^ 8 + b2 in
    digit (n / 2 ^ 18 % 64)
    ∷ digit (n / 2 ^ 12 % 64)
    ∷ (if ltb 1 len then digit (n / 2 ^ 6 % 64) else pad_char)
    ∷ (if ltb 2 len then digit (n % 64) else pad_char)
    ∷ []

unfoldable pub base64_encode : Bytes → Bytes
unfolding quad
base64_encode [] = []
base64_encode (a ∷ []) = quad 1 a 0 0
base64_encode (a ∷ b ∷ []) = quad 2 a b 0
base64_encode (a ∷ b ∷ c ∷ rest) = quad 3 a b c ++ base64_encode rest

-- The closure `val`.
unfoldable pub val : ℕ → Option ℕ
val c =
    if ltb 64 c && ltb c 91
    then some (c - 65)
    else if ltb 96 c && ltb c 123
    then some (c - 97 + 26)
    else if ltb 47 c && ltb c 58
    then some (c - 48 + 52)
    else if c == 43
    then some 62
    else if c == 47
    then some 63
    else none

-- How many padding characters stand at the end of the four.
unfoldable pub padding : ℕ → ℕ → ℕ → ℕ → ℕ
padding p q r s =
    if s == pad_char
    then (if r == pad_char
        then (if q == pad_char then (if p == pad_char then 4 else 3) else 2)
        else 1)
    else 0

unfoldable pub has_pad : Bytes → Bool
has_pad [] = false
has_pad (c ∷ cs) = (c == pad_char) || has_pad cs

-- `n = n << 6 | val(c)?` for each character
unfoldable pub join_bits : ℕ → Bytes → Option ℕ
unfolding val
join_bits n [] = some n
join_bits n (c ∷ cs) = elim (val c) [ none ↦ none | some v ↦ join_bits (n * 2 ^ 6 + v) cs ]

-- The bytes of the four characters' number, whose padding bits must be zero.
unfoldable pub kept : ℕ → ℕ → Option Bytes
kept pad n =
    if (pad == 1) && not (n % 2 ^ 8 == 0) || (pad == 2) && not (n % 2 ^ 16 == 0)
    then none
    else some (take (3 - pad) (n / 2 ^ 16 % 256 ∷ n / 2 ^ 8 % 256 ∷ n % 256 ∷ []))

unfoldable pub decode_digits : ℕ → Bytes → Option Bytes
unfolding join_bits kept
decode_digits pad cs = elim (join_bits 0 cs) [ none ↦ none | some n ↦ kept pad (n * 2 ^ (6 * pad)) ]

-- Four characters with `pad` of them padding; `last` says that no more follow.
unfoldable pub decode_padded : Bool → ℕ → Bytes → Option Bytes
unfolding has_pad decode_digits
decode_padded last pad cs =
    if ltb 2 pad || ltb 0 pad && not last || has_pad (take (4 - pad) cs)
    then none
    else decode_digits pad (take (4 - pad) cs)

unfoldable pub is_nil : Bytes → Bool
is_nil [] = true
is_nil (c ∷ cs) = false

unfoldable pub and_then : Option Bytes → Option Bytes → Option Bytes
and_then none more = none
and_then (some bytes) none = none
and_then (some bytes) (some more) = some (bytes ++ more)

-- The loop over `text.chunks(4)`; a text of a length that is no multiple of 4 does not come here.
unfoldable pub decode_chunks : Bytes → Option Bytes
unfolding decode_padded padding is_nil and_then
decode_chunks [] = some []
decode_chunks (p ∷ q ∷ r ∷ s ∷ rest) =
    and_then (decode_padded (is_nil rest) (padding p q r s) (p ∷ q ∷ r ∷ s ∷ []))
      (decode_chunks rest)
decode_chunks (p ∷ []) = none
decode_chunks (p ∷ q ∷ []) = none
decode_chunks (p ∷ q ∷ r ∷ []) = none

unfoldable pub base64_decode : Bytes → Option Bytes
unfolding decode_chunks
base64_decode text = if length text % 4 == 0 then decode_chunks text else none
