-- ===== src/Codec/Reading.antt =====
-- The numbers that four characters of base64 are read as, crates/kuula-core/src/codec/mod.rs, and the
-- chunks that are written as these characters.
use kuula.Prelude.{
  ℕ, ◌+◌, ◌*◌, ◌/◌, ◌%◌, ◌^◌, ◌<◌, ◌≡◌, refl, ap, ◌∙◌, Bool, true, false, Option, none, some, [],
  ◌∷◌, ◌++◌, take, arith, if◌then◌else◌,
}
use kuula.Prelude.Bytes.{Bytes}
use kuula.Codec.{pad_char, digit, quad, join_bits}
use kuula.Codec.Digits.{digit-val}
use kuula.Codec.Base64.{three, join_bits_cons, join_bits_head}

-- The characters are those of three bytes, or, at the end, of two or one.
pub data IsQuad (last : Bool) (cs : Bytes) : Bytes → Type 0 where
  of_three : (a b c : ℕ) → quad 3 a b c ≡ cs → IsQuad last cs (a ∷ b ∷ c ∷ [])
  of_two : (a b : ℕ) → last ≡ true → quad 2 a b 0 ≡ cs → IsQuad last cs (a ∷ b ∷ [])
  of_one : (a : ℕ) → last ≡ true → quad 1 a 0 0 ≡ cs → IsQuad last cs (a ∷ [])

pub some_inj {ℓ} : {A : Type ℓ} (a b : A) → some a ≡ some b → a ≡ b
some_inj a b e = ap (λ o. elim o [ none ↦ a | some x ↦ x ]) e

pub if_none {ℓ} :
    {A : Type ℓ} (b : Bool) (o : Option A) (a : A)
    → (if b then none else o) ≡ some a
    → (b ≡ false) × (o ≡ some a)
if_none true o a e = absurd (ground (arith, e))
if_none false o a e = (refl, e)

-- The last character that is read, and the number before it.
record IsRead (n0 n : ℕ) (cs : Bytes) (c : ℕ) : Type 0 where
  before : ℕ
  value : ℕ
  joined : join_bits n0 cs ≡ some before
  small : value < 64
  written : digit value ≡ c
  sum : n ≡ before * 64 + value

join_bits-IsRead :
    (n0 n c : ℕ) (cs : Bytes) → join_bits n0 (cs ++ c ∷ []) ≡ some n → IsRead n0 n cs c
unfolding join_bits
join_bits-IsRead n0 n c [] e =
    let (v, a, x) = join_bits_head n0 n c [] e in
    let (d, l) = digit-val c v a in
    let sum : n0 * 2 ^ 6 + v ≡ n = some_inj (n0 * 2 ^ 6 + v) n x in
    record {
      before = n0;
      value = v;
      joined = refl;
      small = l;
      written = d;
      sum = omega (arith, sum);
    }
join_bits-IsRead n0 n c (b ∷ bs) e =
    let (v, a, x) = join_bits_head n0 n b (bs ++ c ∷ []) e in
    let r = join_bits-IsRead (n0 * 2 ^ 6 + v) n c bs x in
    record {
      before = r.before;
      value = r.value;
      joined = join_bits_cons n0 v b bs a ∙ r.joined;
      small = r.small;
      written = r.written;
      sum = r.sum;
    }

cons_four :
    (a b c d a' b' c' d' : ℕ)
    → a ≡ a'
    → b ≡ b'
    → c ≡ c'
    → d ≡ d'
    → (a ∷ b ∷ c ∷ d ∷ []) ≡ a' ∷ b' ∷ c' ∷ d' ∷ []
cons_four a b c d a' b' c' d' p q r s = cc

digit_of : {p : ℕ} (x y : ℕ) → digit y ≡ p → x ≡ y → digit x ≡ p
digit_of x y d e = ap digit e ∙ d

-- The first two characters.
two_read :
    (n p q : ℕ)
    → join_bits 0 (p ∷ q ∷ []) ≡ some n
    → (i : ℕ) × (j : ℕ) × (i < 64) × (j < 64) × (digit i ≡ p) × (digit j ≡ q) × (n ≡ i * 64 + j)
unfolding join_bits
two_read n p q e =
    let y = join_bits-IsRead 0 n q (p ∷ []) e in
    let x = join_bits-IsRead 0 y.before p [] y.joined in
    let zero_lem : 0 ≡ x.before = some_inj 0 x.before x.joined in
    (
      x.value,
      y.value,
      x.small,
      y.small,
      x.written,
      y.written,
      omega (arith, x.sum, y.sum, zero_lem),
    )

-- A chunk without padding is that of its three bytes.
pub full-IsQuad :
    (last : Bool) (p q r s n : ℕ)
    → join_bits 0 (p ∷ q ∷ r ∷ s ∷ []) ≡ some n
    → IsQuad last (p ∷ q ∷ r ∷ s ∷ []) (three n)
unfolding quad
full-IsQuad last p q r s n e =
    let w = join_bits-IsRead 0 n s (p ∷ q ∷ r ∷ []) e in
    let z = join_bits-IsRead 0 w.before r (p ∷ q ∷ []) w.joined in
    let (i, j, li, lj, di, dj, m) = two_read z.before p q z.joined in
    let a = n / 2 ^ 16 % 256 in
    let b = n / 2 ^ 8 % 256 in
    let c = n % 256 in
    let t = a * 2 ^ 16 + b * 2 ^ 8 + c in
    let lz : z.value < 64 = z.small in
    let lw : w.value < 64 = w.small in
    let total : n ≡ ((i * 64 + j) * 64 + z.value) * 64 + w.value = omega (arith, m, z.sum, w.sum) in
    let same : t ≡ n = omega (arith, total) in
    of_three a b c (
      cons_four (digit (t / 2 ^ 18 % 64)) (digit (t / 2 ^ 12 % 64)) (digit (t / 2 ^ 6 % 64))
        (digit (t % 64)) p q r s (digit_of (t / 2 ^ 18 % 64) i di (omega (arith, same, total)))
        (digit_of (t / 2 ^ 12 % 64) j dj (omega (arith, same, total)))
        (digit_of (t / 2 ^ 6 % 64) z.value z.written (omega (arith, same, total)))
        (digit_of (t % 64) w.value w.written (omega (arith, same, total))))

pub one-IsQuad :
    (last : Bool) (p q r n : ℕ)
    → last ≡ true
    → join_bits 0 (p ∷ q ∷ r ∷ []) ≡ some n
    → n * 64 % 256 ≡ 0
    → IsQuad last (p ∷ q ∷ r ∷ pad_char ∷ []) (take 2 (three (n * 64)))
unfolding quad
one-IsQuad last p q r n h e zero_bits =
    let z = join_bits-IsRead 0 n r (p ∷ q ∷ []) e in
    let (i, j, li, lj, di, dj, m) = two_read z.before p q z.joined in
    let a = n * 64 / 2 ^ 16 % 256 in
    let b = n * 64 / 2 ^ 8 % 256 in
    let t = a * 2 ^ 16 + b * 2 ^ 8 + 0 in
    let lz : z.value < 64 = z.small in
    let total : n ≡ (i * 64 + j) * 64 + z.value = omega (arith, m, z.sum) in
    let same : t ≡ n * 64 = omega (arith, total, zero_bits) in
    of_two a b h (
      cons_four (digit (t / 2 ^ 18 % 64)) (digit (t / 2 ^ 12 % 64)) (digit (t / 2 ^ 6 % 64))
        pad_char p q r pad_char (digit_of (t / 2 ^ 18 % 64) i di (omega (arith, same, total)))
        (digit_of (t / 2 ^ 12 % 64) j dj (omega (arith, same, total)))
        (digit_of (t / 2 ^ 6 % 64) z.value z.written (omega (arith, same, total))) refl)

pub two-IsQuad :
    (last : Bool) (p q n : ℕ)
    → last ≡ true
    → join_bits 0 (p ∷ q ∷ []) ≡ some n
    → n * 4096 % 65536 ≡ 0
    → IsQuad last (p ∷ q ∷ pad_char ∷ pad_char ∷ []) (take 1 (three (n * 4096)))
unfolding quad
two-IsQuad last p q n h e zero_bits =
    let (i, j, li, lj, di, dj, m) = two_read n p q e in
    let a = n * 4096 / 2 ^ 16 % 256 in
    let t = a * 2 ^ 16 + 0 * 2 ^ 8 + 0 in
    let same : t ≡ n * 4096 = omega (arith, m, zero_bits) in
    of_one a h (
      cons_four (digit (t / 2 ^ 18 % 64)) (digit (t / 2 ^ 12 % 64)) pad_char pad_char p q pad_char
        pad_char (digit_of (t / 2 ^ 18 % 64) i di (omega (arith, same, m)))
        (digit_of (t / 2 ^ 12 % 64) j dj (omega (arith, same, m))) refl refl)
