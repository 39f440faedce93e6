-- ===== src/Meter/Price/Shape/Grammar.antt =====
-- Lua patterns as items, and what `pattern_shape` counts in the text of such a pattern.
use kuula.Prelude.{
  ℕ, zero, suc, ◌+◌, ◌≤◌, ◌≡◌, ◌≢◌, refl, ◌∙◌, ap, Bool, true, false, List, [], ◌∷◌, ◌++◌, arith,
  ◌==◌, length, length-append, drop, All, if◌then◌else◌,
}
use kuula.Prelude.Bytes.{Bytes}
use kuula.Meter.Price.Shape.{
  is_quantifier, skip_body, skip_one, after_item, scan, is_anchored, pattern_shape,
}

-- What stands between the brackets of a set.
pub data SetItem : Type 0 where
  chr : ℕ → SetItem
  esc : ℕ → SetItem

-- `set negated bracket body` is `[`, a `^` if negated, a literal `]` if `bracket`, the body and `]`.
pub data Item : Type 0 where
  plain : ℕ → Item
  quantifier : ℕ → Item
  escape : ℕ → Item
  set : Bool → Bool → List SetItem → Item

print_body : List SetItem → Bytes
print_body [] = b']' ∷ []
print_body (chr c ∷ body) = c ∷ print_body body
print_body (esc c ∷ body) = b'%' ∷ c ∷ print_body body

optional : Bool → ℕ → Bytes → Bytes
optional true c p = c ∷ p
optional false c p = p

-- The first byte of an item, and the others.
head_byte : Item → ℕ
head_byte (plain c) = c
head_byte (quantifier c) = c
head_byte (escape c) = b'%'
head_byte (set negated bracket body) = b'['

tail_bytes : Item → Bytes
unfolding optional print_body
tail_bytes (plain c) = []
tail_bytes (quantifier c) = []
tail_bytes (escape c) = c ∷ []
tail_bytes (set negated bracket body) =
    optional negated b'^' (optional bracket b']' (print_body body))

-- The text of a pattern.
pub print : List Item → Bytes
unfolding head_byte tail_bytes
print [] = []
print (i ∷ items) = head_byte i ∷ (tail_bytes i ++ print items)

pub count : List Item → ℕ
count [] = 0
count (quantifier c ∷ items) = suc (count items)
count (i ∷ items) = count items

abbrev pub IsSetItem : SetItem → Type 0
IsSetItem (chr c) = (c ≢ b']') × (c ≢ b'%')
IsSetItem (esc c) = Unit

-- A body that follows no literal `]` has an item: a `]` in that place is the literal one.
abbrev IsNonempty : List SetItem → Type 0
IsNonempty [] = ⊥
IsNonempty (s ∷ body) = Unit

-- After the opening bracket alone the body starts with no `^`.
abbrev StartsPlain : List SetItem → Type 0
StartsPlain (chr c ∷ body) = c ≢ b'^'
StartsPlain body = Unit

abbrev pub IsItem : Item → Type 0
IsItem (plain c) = (is_quantifier c ≡ false) × (c ≢ b'%') × (c ≢ b'[')
IsItem (quantifier c) = is_quantifier c ≡ true
IsItem (escape c) = Unit
IsItem (set true true body) = All IsSetItem body
IsItem (set true false body) = All IsSetItem body × IsNonempty body
IsItem (set false true body) = All IsSetItem body
IsItem (set false false body) = All IsSetItem body × IsNonempty body × StartsPlain body

skip_body-chr : (c : ℕ) (p : Bytes) → c ≢ b']' → c ≢ b'%' → skip_body (c ∷ p) ≡ skip_body p
unfolding skip_body
skip_body-chr c [] h k = ground arith
skip_body-chr c (b ∷ p) h k = ground arith

skip_body-print :
    (body : List SetItem) (rest : Bytes)
    → All IsSetItem body
    → skip_body (print_body body ++ rest) ≡ b']' ∷ rest
unfolding skip_body print_body
skip_body-print [] [] h = refl
skip_body-print [] (b ∷ rest) h = refl
skip_body-print (chr c ∷ body) rest h =
    skip_body-chr c (print_body body ++ rest) h.0.0 h.0.1 ∙ skip_body-print body rest h.1
skip_body-print (esc c ∷ body) rest h = skip_body-print body rest h.1

skip_one-body :
    (body : List SetItem) (rest : Bytes)
    → All IsSetItem body
    → IsNonempty body
    → skip_one b']' (print_body body ++ rest) ≡ print_body body ++ rest
unfolding skip_one print_body
skip_one-body [] rest h n = absurd n
skip_one-body (chr c ∷ body) rest h n = ground arith
skip_one-body (esc c ∷ body) rest h n = refl

skip_one-plain :
    (body : List SetItem) (rest : Bytes)
    → StartsPlain body
    → skip_one b'^' (print_body body ++ rest) ≡ print_body body ++ rest
unfolding skip_one print_body
skip_one-plain [] rest h = refl
skip_one-plain (chr c ∷ body) rest h = ground arith
skip_one-plain (esc c ∷ body) rest h = refl

-- Behind its optional `^` and `]` a set is skipped as far as its closing `]`.
after_item-print :
    (i : Item) (rest : Bytes) → IsItem i → after_item (head_byte i) (tail_bytes i ++ rest) ≡ rest
unfolding after_item head_byte tail_bytes is_quantifier
after_item-print (plain c) rest h = ground arith
after_item-print (quantifier c) rest h = ground arith
after_item-print (escape c) rest h = refl
after_item-print (set true true body) rest h = ap (drop 1) (skip_body-print body rest h)
after_item-print (set true false body) rest h =
    rw (skip_one-body body rest h.0 h.1) (ap (drop 1) (skip_body-print body rest h.0))
after_item-print (set false true body) rest h = ap (drop 1) (skip_body-print body rest h)
after_item-print (set false false body) rest h =
    rw (skip_one-plain body rest h.2)
      (rw (skip_one-body body rest h.0 h.1) (ap (drop 1) (skip_body-print body rest h.0)))

-- A quantifier is counted, and no other item.
counted :
    (i : Item) (q : ℕ) (items : List Item)
    → IsItem i
    → (if is_quantifier (head_byte i) then q + 1 else q) + count items ≡ q + count (i ∷ items)
unfolding head_byte count
counted (plain c) q items h = ground arith
counted (quantifier c) q items h = ground arith
counted (escape c) q items h = unfold is_quantifier in refl
counted (set n b body) q items h = unfold is_quantifier in refl

scan-print :
    (items : List Item) (fuel quantifiers : ℕ)
    → All IsItem items
    → length (print items) ≤ fuel
    → scan fuel (print items) quantifiers ≡ quantifiers + count items
unfolding scan print count
scan-print [] zero q h enough = omega arith
scan-print [] (suc fuel) q h enough = omega arith
scan-print (i ∷ items) zero q h enough = absurd (omega arith)
scan-print (i ∷ items) (suc fuel) q h enough = rw (after_item-print i (print items) h.0) (
    scan-print items fuel _ h.1 (omega (arith, length-append (tail_bytes i) (print items)))
    ∙ counted i q items h.0)

pub starts_anchored : List Item → Bool
unfolding head_byte
starts_anchored [] = false
starts_anchored (i ∷ items) = head_byte i == b'^'

is_anchored-print : (items : List Item) → is_anchored (print items) ≡ starts_anchored items
unfolding is_anchored print starts_anchored
is_anchored-print [] = refl
is_anchored-print (i ∷ items) = refl

-- The shape of the text of well-formed items is the number of quantifiers among them, those that
-- are escaped or in a set not counted, and whether it starts with `^`.
pub pattern_shape-print :
    (items : List Item)
    → All IsItem items
    → pattern_shape (print items) ≡ (count items, starts_anchored items)
unfolding pattern_shape starts_anchored
pattern_shape-print items h =
    let counts : scan (length (print items)) (print items) 0 ≡ count items =
      omega (arith, scan-print items (length (print items)) 0 h (omega arith)) in
    λ i. (counts i, is_anchored-print items i)
