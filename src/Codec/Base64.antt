-- ===== src/Codec/Base64.antt =====
-- Encoding and decoding of base64 in crates/kuula-core/src/codec/mod.rs are inverse.
use kuula.Prelude.{
  ℕ, ◌+◌, ◌*◌, ◌/◌, ◌%◌, ◌^◌, ◌<◌, ◌≡◌, refl, ap, ◌∙◌, Bool, true, false, Option, none, some, [],
  ◌∷◌, ◌==◌, length, take, arith,
}
use kuula.Prelude.Bytes.{Bytes, AreBytes}
use kuula.Codec.{
  pad_char, digit, quad, base64_encode, val, padding, has_pad, join_bits, kept, decode_digits,
  decode_padded, is_nil, and_then, decode_chunks, base64_decode,
}
use kuula.Codec.Digits.{val-digit, val_apart}

-- The bytes of a number of three.
abbrev pub three : ℕ → Bytes
three n = n / 2 ^ 16 % 256 ∷ n / 2 ^ 8 % 256 ∷ n % 256 ∷ []

val_step :
    (o : Option ℕ) (n m : ℕ) (cs : Bytes)
    → (elim o [ none ↦ none | some v ↦ join_bits (n * 2 ^ 6 + v) cs ]) ≡ some m
    → (v : ℕ) × (o ≡ some v) × (join_bits (n * 2 ^ 6 + v) cs ≡ some m)
val_step none n m cs e = absurd (ground (arith, e))
val_step (some v) n m cs e = (v, refl, e)

-- The first of the characters that are read.
pub join_bits_head :
    (n m c : ℕ) (cs : Bytes)
    → join_bits n (c ∷ cs) ≡ some m
    → (v : ℕ) × (val c ≡ some v) × (join_bits (n * 2 ^ 6 + v) cs ≡ some m)
unfolding join_bits
join_bits_head n m c cs e = val_step (val c) n m cs e

pub join_bits_cons :
    (n v c : ℕ) (cs : Bytes) → val c ≡ some v → join_bits n (c ∷ cs) ≡ join_bits (n * 2 ^ 6 + v) cs
unfolding join_bits
join_bits_cons n v c cs e = rw (join_bits, e) refl

has_pad_none : (n m : ℕ) (cs : Bytes) → join_bits n cs ≡ some m → has_pad cs ≡ false
unfolding has_pad
has_pad_none n m [] e = refl
has_pad_none n m (c ∷ cs) e =
    let (v, a, b) = join_bits_head n m c cs e in
    rw (val_apart c v a) (has_pad_none (n * 2 ^ 6 + v) m cs b)

decode_digits_lem :
    (pad n : ℕ) (cs : Bytes)
    → join_bits 0 cs ≡ some n
    → decode_digits pad cs ≡ kept pad (n * 2 ^ (6 * pad))
unfolding decode_digits
decode_digits_lem pad n cs e = rw (decode_digits, e) refl

full_step :
    (last : Bool) (p q r s n : ℕ)
    → join_bits 0 (p ∷ q ∷ r ∷ s ∷ []) ≡ some n
    → decode_padded last 0 (p ∷ q ∷ r ∷ s ∷ []) ≡ some (three n)
unfolding decode_padded kept
full_step last p q r s n e =
    rw (has_pad_none 0 n (p ∷ q ∷ r ∷ s ∷ []) e)
      (decode_digits_lem 0 n (p ∷ q ∷ r ∷ s ∷ []) e ∙ ap (λ m. some (three m)) (omega arith))

one_step :
    (p q r s n : ℕ)
    → join_bits 0 (p ∷ q ∷ r ∷ []) ≡ some n
    → n % 4 ≡ 0
    → decode_padded true 1 (p ∷ q ∷ r ∷ s ∷ []) ≡ some (take 2 (three (n * 64)))
unfolding decode_padded kept
one_step p q r s n e z =
    rw (has_pad_none 0 n (p ∷ q ∷ r ∷ []) e)
      (decode_digits_lem 1 n (p ∷ q ∷ r ∷ []) e ∙ ground (arith, z))

two_step :
    (p q r s n : ℕ)
    → join_bits 0 (p ∷ q ∷ []) ≡ some n
    → n % 16 ≡ 0
    → decode_padded true 2 (p ∷ q ∷ r ∷ s ∷ []) ≡ some (take 1 (three (n * 4096)))
unfolding decode_padded kept
two_step p q r s n e z =
    rw (has_pad_none 0 n (p ∷ q ∷ []) e) (decode_digits_lem 2 n (p ∷ q ∷ []) e ∙ ground (arith, z))

pub padding_full : (p q r s : ℕ) → (s == pad_char) ≡ false → padding p q r s ≡ 0
unfolding padding
padding_full p q r s e = rw e refl

pub padding_one : (p q r : ℕ) → (r == pad_char) ≡ false → padding p q r pad_char ≡ 1
unfolding padding
padding_one p q r e = rw e refl

pub padding_two : (p q : ℕ) → (q == pad_char) ≡ false → padding p q pad_char pad_char ≡ 2
unfolding padding
padding_two p q e = rw e refl

-- The four characters' part of the loop.
abbrev pub decode_quad : Bool → ℕ → ℕ → ℕ → ℕ → Option Bytes
decode_quad last p q r s = decode_padded last (padding p q r s) (p ∷ q ∷ r ∷ s ∷ [])

join_digit :
    (n v : ℕ) (cs : Bytes) → v < 64 → join_bits n (digit v ∷ cs) ≡ join_bits (n * 2 ^ 6 + v) cs
join_digit n v cs l = join_bits_cons n v (digit v) cs (val-digit v l)

digit_apart : (v : ℕ) → v < 64 → (digit v == pad_char) ≡ false
digit_apart v l = val_apart (digit v) v (val-digit v l)

join_two : (i j : ℕ) → i < 64 → j < 64 → join_bits 0 (digit i ∷ digit j ∷ []) ≡ some (i * 64 + j)
unfolding join_bits
join_two i j a b =
    join_digit 0 i (digit j ∷ []) a ∙ join_digit (0 * 2 ^ 6 + i) j [] b ∙ ap some (omega arith)

join_three :
    (i j k : ℕ)
    → i < 64
    → j < 64
    → k < 64
    → join_bits 0 (digit i ∷ digit j ∷ digit k ∷ []) ≡ some ((i * 64 + j) * 64 + k)
unfolding join_bits
join_three i j k a b c =
    join_digit 0 i (digit j ∷ digit k ∷ []) a
    ∙ join_digit (0 * 2 ^ 6 + i) j (digit k ∷ []) b
    ∙ join_digit ((0 * 2 ^ 6 + i) * 2 ^ 6 + j) k [] c
    ∙ ap some (omega arith)

join_four :
    (i j k l : ℕ)
    → i < 64
    → j < 64
    → k < 64
    → l < 64
    → join_bits 0 (digit i ∷ digit j ∷ digit k ∷ digit l ∷ [])
      ≡ some (((i * 64 + j) * 64 + k) * 64 + l)
unfolding join_bits
join_four i j k l a b c d =
    join_digit 0 i (digit j ∷ digit k ∷ digit l ∷ []) a
    ∙ join_digit (0 * 2 ^ 6 + i) j (digit k ∷ digit l ∷ []) b
    ∙ join_digit ((0 * 2 ^ 6 + i) * 2 ^ 6 + j) k (digit l ∷ []) c
    ∙ join_digit (((0 * 2 ^ 6 + i) * 2 ^ 6 + j) * 2 ^ 6 + k) l [] d
    ∙ ap some (omega arith)

-- The four characters of a number of three bytes, and of its first bytes where the rest is zero.
decode_full :
    (last : Bool) (i j k l : ℕ)
    → i < 64
    → j < 64
    → k < 64
    → l < 64
    → decode_quad last (digit i) (digit j) (digit k) (digit l)
      ≡ some (three (((i * 64 + j) * 64 + k) * 64 + l))
decode_full last i j k l a b c d =
    ap (λ n. decode_padded last n (digit i ∷ digit j ∷ digit k ∷ digit l ∷ []))
      (padding_full (digit i) (digit j) (digit k) (digit l) (digit_apart l d))
    ∙ full_step last (digit i) (digit j) (digit k) (digit l) (((i * 64 + j) * 64 + k) * 64 + l)
        (join_four i j k l a b c d)

decode_one :
    (i j k : ℕ)
    → i < 64
    → j < 64
    → k < 64
    → k % 4 ≡ 0
    → decode_quad true (digit i) (digit j) (digit k) pad_char
      ≡ some (take 2 (three (((i * 64 + j) * 64 + k) * 64)))
decode_one i j k a b c z =
    ap (λ n. decode_padded true n (digit i ∷ digit j ∷ digit k ∷ pad_char ∷ []))
      (padding_one (digit i) (digit j) (digit k) (digit_apart k c))
    ∙ one_step (digit i) (digit j) (digit k) pad_char ((i * 64 + j) * 64 + k)
        (join_three i j k a b c) (omega (arith, z))

decode_two :
    (i j : ℕ)
    → i < 64
    → j < 64
    → j % 16 ≡ 0
    → decode_quad true (digit i) (digit j) pad_char pad_char
      ≡ some (take 1 (three ((i * 64 + j) * 4096)))
decode_two i j a b z =
    ap (λ n. decode_padded true n (digit i ∷ digit j ∷ pad_char ∷ pad_char ∷ []))
      (padding_two (digit i) (digit j) (digit_apart j b))
    ∙ two_step (digit i) (digit j) pad_char pad_char (i * 64 + j) (join_two i j a b)
        (omega (arith, z))

three_lem :
    (a b c n : ℕ)
    → a < 256
    → b < 256
    → c < 256
    → n ≡ a * 2 ^ 16 + b * 2 ^ 8 + c
    → three n ≡ a ∷ b ∷ c ∷ []
three_lem a b c n p q r e =
    let x : n / 2 ^ 16 % 256 ≡ a = omega (arith, e) in
    let y : n / 2 ^ 8 % 256 ≡ b = omega (arith, e) in
    let z : n % 256 ≡ c = omega (arith, e) in
    ap (λ m. m ∷ n / 2 ^ 8 % 256 ∷ n % 256 ∷ []) x
    ∙ ap (λ m. a ∷ m ∷ n % 256 ∷ []) y
    ∙ ap (λ m. a ∷ b ∷ m ∷ []) z

decode_chunks-encode :
    (bytes : Bytes) → AreBytes bytes → decode_chunks (base64_encode bytes) ≡ some bytes
unfolding base64_encode quad decode_chunks is_nil and_then
decode_chunks-encode [] h = refl
decode_chunks-encode (a ∷ []) (p, u) =
    let n = a * 2 ^ 16 + 0 * 2 ^ 8 + 0 in
    let i = n / 2 ^ 18 % 64 in
    let j = n / 2 ^ 12 % 64 in
    ap (λ o. and_then o (some [])) (decode_two i j (omega arith) (omega arith) (omega arith))
    ∙ ap (λ xs. some (take 1 xs))
        (three_lem a 0 0 ((i * 64 + j) * 4096) p (omega arith) (omega arith) (omega (arith, p)))
decode_chunks-encode (a ∷ b ∷ []) (p, (q, u)) =
    let n = a * 2 ^ 16 + b * 2 ^ 8 + 0 in
    let i = n / 2 ^ 18 % 64 in
    let j = n / 2 ^ 12 % 64 in
    let k = n / 2 ^ 6 % 64 in
    ap (λ o. and_then o (some []))
      (decode_one i j k (omega arith) (omega arith) (omega arith) (omega arith))
    ∙ ap (λ xs. some (take 2 xs))
        (three_lem a b 0 (((i * 64 + j) * 64 + k) * 64) p q (omega arith) (omega (arith, p, q)))
decode_chunks-encode (a ∷ b ∷ c ∷ rest) (p, (q, (r, h))) =
    let n = a * 2 ^ 16 + b * 2 ^ 8 + c in
    let i = n / 2 ^ 18 % 64 in
    let j = n / 2 ^ 12 % 64 in
    let k = n / 2 ^ 6 % 64 in
    let l = n % 64 in
    let last = is_nil (base64_encode rest) in
    ap (λ o. and_then o (decode_chunks (base64_encode rest)))
      (decode_full last i j k l (omega arith) (omega arith) (omega arith) (omega arith)
        ∙ ap some
            (three_lem a b c (((i * 64 + j) * 64 + k) * 64 + l) p q r (omega (arith, p, q, r))))
    ∙ ap (λ o. and_then (some (a ∷ b ∷ c ∷ [])) o) (decode_chunks-encode rest h)

length-encode : (bytes : Bytes) → length (base64_encode bytes) % 4 ≡ 0
unfolding base64_encode quad
length-encode [] = refl
length-encode (a ∷ []) = refl
length-encode (a ∷ b ∷ []) = refl
length-encode (a ∷ b ∷ c ∷ rest) = omega (arith, length-encode rest)

-- The bytes that were encoded are decoded again.
pub base64_decode-encode :
    (bytes : Bytes) → AreBytes bytes → base64_decode (base64_encode bytes) ≡ some bytes
unfolding base64_decode
base64_decode-encode bytes h = ground (arith, length-encode bytes, decode_chunks-encode bytes h)
