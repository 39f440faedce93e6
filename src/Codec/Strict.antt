-- ===== src/Codec/Strict.antt =====
-- What the decoder of base64 in crates/kuula-core/src/codec/mod.rs takes is what the encoder writes.
use kuula.Prelude.{
  ℕ, ◌-◌, ◌*◌, ◌%◌, ◌^◌, ◌≡◌, refl, sym, ap, ◌∙◌, Bool, true, false, ◌&&◌, ◌||◌, not, Option, none,
  some, [], ◌∷◌, ◌++◌, ltb, ◌==◌, take, append-nil, arith, inl, inr, Bool-cases,
}
use mathlib.Core.Bool.{true≢false}
use mathlib.Core.Path.{subst}
use kuula.Prelude.Bytes.{Bytes}
use kuula.Codec.{
  pad_char, base64_encode, padding, has_pad, join_bits, kept, decode_digits, decode_padded, is_nil,
  and_then, decode_chunks, base64_decode,
}
use kuula.Codec.Reading.{
  IsQuad, of_three, of_two, of_one, some_inj, if_none, full-IsQuad, one-IsQuad, two-IsQuad,
}
use kuula.Codec.Base64.{three, padding_full, padding_one, padding_two, decode_quad}

digits_split :
    (o : Option ℕ) (pad : ℕ) (bs : Bytes)
    → (elim o [ none ↦ none | some n ↦ kept pad (n * 2 ^ (6 * pad)) ]) ≡ some bs
    → (n : ℕ) × (o ≡ some n) × (kept pad (n * 2 ^ (6 * pad)) ≡ some bs)
digits_split none pad bs e = absurd (ground (arith, e))
digits_split (some n) pad bs e = (n, refl, e)

guards : (a b c : Bool) → (a || b || c) ≡ false → (a ≡ false) × (b ≡ false)
guards a b c e = ground (arith, e)

-- What a chunk that is decoded passed.
record IsPassed (last : Bool) (pad : ℕ) (cs bs : Bytes) : Type 0 where
  few : ltb 2 pad ≡ false
  ends : (ltb 0 pad && not last) ≡ false
  number : ℕ
  joined : join_bits 0 (take (4 - pad) cs) ≡ some number
  bytes : kept pad (number * 2 ^ (6 * pad)) ≡ some bs

decode_padded-IsPassed :
    (last : Bool) (pad : ℕ) (cs bs : Bytes)
    → decode_padded last pad cs ≡ some bs
    → IsPassed last pad cs bs
unfolding decode_padded decode_digits
decode_padded-IsPassed last pad cs bs e =
    let (g, d) =
      if_none (ltb 2 pad || ltb 0 pad && not last || has_pad (take (4 - pad) cs))
        (decode_digits pad (take (4 - pad) cs)) bs e in
    let (a, b) = guards (ltb 2 pad) (ltb 0 pad && not last) (has_pad (take (4 - pad) cs)) g in
    let (n, i, k) = digits_split (join_bits 0 (take (4 - pad) cs)) pad bs d in
    record { few = a; ends = b; number = n; joined = i; bytes = k }

passed :
    (last : Bool) (p q r s k : ℕ) (bs : Bytes)
    → padding p q r s ≡ k
    → decode_quad last p q r s ≡ some bs
    → IsPassed last k (p ∷ q ∷ r ∷ s ∷ []) bs
passed last p q r s k bs k_lem e =
    decode_padded-IsPassed last k (p ∷ q ∷ r ∷ s ∷ []) bs
      (sym (ap (λ n. decode_padded last n (p ∷ q ∷ r ∷ s ∷ [])) k_lem) ∙ e)

full_passed :
    (last : Bool) (p q r s : ℕ) (bs : Bytes)
    → IsPassed last 0 (p ∷ q ∷ r ∷ s ∷ []) bs
    → IsQuad last (p ∷ q ∷ r ∷ s ∷ []) bs
unfolding kept
full_passed last p q r s bs v =
    let n = v.number in
    let same : three n ≡ bs =
      ap three {x = n} {y = n * 2 ^ (6 * 0)} (omega arith)
      ∙ some_inj (three (n * 2 ^ (6 * 0))) bs v.bytes in
    subst (IsQuad last (p ∷ q ∷ r ∷ s ∷ [])) same (full-IsQuad last p q r s n v.joined)

one_passed :
    (last : Bool) (p q r : ℕ) (bs : Bytes)
    → IsPassed last 1 (p ∷ q ∷ r ∷ pad_char ∷ []) bs
    → IsQuad last (p ∷ q ∷ r ∷ pad_char ∷ []) bs
unfolding kept
one_passed last p q r bs v =
    let n = v.number in
    let (g, b) =
      if_none (not (n * 64 % 2 ^ 8 == 0) || false) (some (take 2 (three (n * 64)))) bs v.bytes in
    subst (IsQuad last (p ∷ q ∷ r ∷ pad_char ∷ [])) (some_inj (take 2 (three (n * 64))) bs b)
      (one-IsQuad last p q r n (ground (arith, v.ends)) v.joined (ground (arith, g)))

two_passed :
    (last : Bool) (p q : ℕ) (bs : Bytes)
    → IsPassed last 2 (p ∷ q ∷ pad_char ∷ pad_char ∷ []) bs
    → IsQuad last (p ∷ q ∷ pad_char ∷ pad_char ∷ []) bs
unfolding kept
two_passed last p q bs v =
    let n = v.number in
    let (g, b) =
      if_none (not (n * 4096 % 2 ^ 16 == 0)) (some (take 1 (three (n * 4096)))) bs v.bytes in
    subst (IsQuad last (p ∷ q ∷ pad_char ∷ pad_char ∷ []))
      (some_inj (take 1 (three (n * 4096))) bs b)
      (two-IsQuad last p q n (ground (arith, v.ends)) v.joined (ground (arith, g)))

-- The padding counted from the end.
data Padding (p q r s : ℕ) : Type 0 where
  no_padding : (s == pad_char) ≡ false → Padding p q r s
  one_padding : s ≡ pad_char → (r == pad_char) ≡ false → Padding p q r s
  two_padding : s ≡ pad_char → r ≡ pad_char → (q == pad_char) ≡ false → Padding p q r s
  more_padding : ltb 2 (padding p q r s) ≡ true → Padding p q r s

count_split : (p q r s : ℕ) → Padding p q r s
unfolding padding
count_split p q r s = elim (Bool-cases (s == pad_char)) [
  | inr e ↦ no_padding e
  | inl e ↦ elim (Bool-cases (r == pad_char)) [
    | inr f ↦ one_padding (ground (arith, e)) f
    | inl f ↦ elim (Bool-cases (q == pad_char)) [
      | inr g ↦ two_padding (ground (arith, e)) (ground (arith, f)) g
      | inl g ↦ more_padding (ground (arith, e, f, g))
    ]
  ]
]

decode_quad-IsQuad :
    (last : Bool) (p q r s : ℕ) (bs : Bytes)
    → decode_quad last p q r s ≡ some bs
    → IsQuad last (p ∷ q ∷ r ∷ s ∷ []) bs
decode_quad-IsQuad last p q r s bs e = elim (count_split p q r s) [
  | no_padding a ↦ full_passed last p q r s bs (passed last p q r s 0 bs (padding_full p q r s a) e)
  | one_padding a b ↦
      subst (λ x. decode_quad last p q r x ≡ some bs → IsQuad last (p ∷ q ∷ r ∷ x ∷ []) bs) (sym a)
        (λ e. one_passed last p q r bs (passed last p q r pad_char 1 bs (padding_one p q r b) e)) e
  | two_padding a b c ↦
      subst (λ x. decode_quad last p q r x ≡ some bs → IsQuad last (p ∷ q ∷ r ∷ x ∷ []) bs) (sym a)
        (subst
          (λ y.
            decode_quad last p q y pad_char ≡ some bs → IsQuad last (p ∷ q ∷ y ∷ pad_char ∷ []) bs)
          (sym b)
          (λ e.
            two_passed last p q bs (passed last p q pad_char pad_char 2 bs (padding_two p q c) e)))
        e
  | more_padding a ↦
      absurd (true≢false (sym a ∙ (passed last p q r s (padding p q r s) bs refl e).few))
]

and_then_split :
    (a b : Option Bytes) (bytes : Bytes)
    → and_then a b ≡ some bytes
    → (x : Bytes) × (y : Bytes) × (a ≡ some x) × (b ≡ some y) × (x ++ y ≡ bytes)
unfolding and_then
and_then_split none b bytes e = absurd (ground (arith, e))
and_then_split (some x) none bytes e = absurd (ground (arith, e))
and_then_split (some x) (some y) bytes e = (x, y, refl, refl, some_inj (x ++ y) bytes e)

-- The encoding of a chunk and of what follows, which is nothing after padding.
encode_chunk :
    (last : Bool) (cs x y rest : Bytes)
    → IsQuad last cs x
    → (last ≡ true → y ≡ [])
    → (last ≡ true → rest ≡ [])
    → base64_encode y ≡ rest
    → base64_encode (x ++ y) ≡ cs ++ rest
unfolding base64_encode
encode_chunk last cs x y rest (of_three a b c q) ends ends' h =
    ap (λ xs. xs ++ base64_encode y) q ∙ ap (λ xs. cs ++ xs) h
encode_chunk last cs x y rest (of_two a b l q) ends ends' h =
    ap (λ ys. base64_encode (a ∷ b ∷ ys)) (ends l)
    ∙ q
    ∙ sym (append-nil cs)
    ∙ ap (λ xs. cs ++ xs) (sym (ends' l))
encode_chunk last cs x y rest (of_one a l q) ends ends' h =
    ap (λ ys. base64_encode (a ∷ ys)) (ends l)
    ∙ q
    ∙ sym (append-nil cs)
    ∙ ap (λ xs. cs ++ xs) (sym (ends' l))

nothing_after :
    (rest y : Bytes) → decode_chunks rest ≡ some y → is_nil rest ≡ true → (y ≡ []) × (rest ≡ [])
unfolding decode_chunks is_nil
nothing_after [] y e h = (sym (some_inj [] y e), refl)
nothing_after (c ∷ cs) y e h = absurd (true≢false (sym h))

base64_encode-decode_chunks :
    (text bytes : Bytes) → decode_chunks text ≡ some bytes → base64_encode bytes ≡ text
unfolding decode_chunks base64_encode
base64_encode-decode_chunks [] bytes e =
    ap base64_encode {x = bytes} {y = []} (sym (some_inj [] bytes e))
base64_encode-decode_chunks (p ∷ []) bytes e = absurd (ground (arith, e))
base64_encode-decode_chunks (p ∷ q ∷ []) bytes e = absurd (ground (arith, e))
base64_encode-decode_chunks (p ∷ q ∷ r ∷ []) bytes e = absurd (ground (arith, e))
base64_encode-decode_chunks (p ∷ q ∷ r ∷ s ∷ rest) bytes e =
    let (x, y, a, b, sum) =
      and_then_split (decode_quad (is_nil rest) p q r s) (decode_chunks rest) bytes e in
    ap base64_encode (sym sum)
    ∙ encode_chunk (is_nil rest) (p ∷ q ∷ r ∷ s ∷ []) x y rest
        (decode_quad-IsQuad (is_nil rest) p q r s x a) (λ l. (nothing_after rest y b l).0)
        (λ l. (nothing_after rest y b l).1) (base64_encode-decode_chunks rest y b)

-- A text that is decoded is the one text that the encoder writes for its bytes.
pub base64_encode-decode :
    (text bytes : Bytes) → base64_decode text ≡ some bytes → base64_encode bytes ≡ text
unfolding base64_decode
base64_encode-decode text bytes e = base64_encode-decode_chunks text bytes (ground (arith, e))
