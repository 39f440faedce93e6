-- ===== src/Meter/Price/Shape.antt =====
-- `price::pattern_shape` of crates/kuula-core/src/meter.rs: the quantifiers of a Lua pattern.
pub mod Grammar
use kuula.Prelude.{
  ℕ, zero, suc, ◌+◌, Bool, true, false, ◌||◌, List, [], ◌∷◌, ◌==◌, length, drop, if◌then◌else◌,
}
use kuula.Prelude.Bytes.{Bytes}

unfoldable pub is_quantifier : ℕ → Bool
is_quantifier b = b == b'*' || b == b'+' || b == b'-' || b == b'?'

-- `while i < p.len() && p[i] != b']'`: what is left of the pattern, from the `]` on.
skip_body : Bytes → Bytes
skip_body [] = []
skip_body (b ∷ []) = if b == b']' then b ∷ [] else []
skip_body (b ∷ c ∷ p) =
    let escaped = skip_body p in
    let rest = skip_body (c ∷ p) in
    if b == b']' then b ∷ c ∷ p else if b == b'%' then escaped else rest

-- `if p.get(i) == Some(&byte) { i += 1; }`
skip_one : ℕ → Bytes → Bytes
skip_one byte [] = []
skip_one byte (b ∷ p) = if b == byte then p else b ∷ p

-- What is left after one round of the outer loop that reads `b` before `p`.
after_item : ℕ → Bytes → Bytes
unfolding skip_body skip_one
after_item b p =
    if b == b'%'
    then drop 1 p
    else if b == b'['
    then drop 1 (skip_body (skip_one b']' (skip_one b'^' p)))
    else p

-- The outer loop: a round reads at least one byte, so the length of the pattern is enough fuel.
scan : ℕ → Bytes → ℕ → ℕ
scan zero p quantifiers = quantifiers
scan (suc fuel) [] quantifiers = quantifiers
scan (suc fuel) (b ∷ p) quantifiers =
    scan fuel (after_item b p) (if is_quantifier b then quantifiers + 1 else quantifiers)

is_anchored : Bytes → Bool
is_anchored [] = false
is_anchored (b ∷ p) = b == b'^'

unfoldable pub pattern_shape : Bytes → ℕ × Bool
unfolding scan after_item is_quantifier is_anchored
pattern_shape p = (scan (length p) p 0, is_anchored p)
