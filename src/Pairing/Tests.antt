-- ===== src/Pairing/Tests.antt =====
-- A developer who is approved and revoked, and a limiter.
use kuula.Prelude.{
  ℕ, zero, suc, ◌≤◌, ◌<◌, ◌≡◌, refl, true, false, ◌&&◌, not, Option, none, some, List, ◌+◌, [], ◌∷◌,
  ◌++◌, All, arith, length, ltb, replicate, ap, sym, ◌∙◌, inl, inr, Bool-cases, if◌then◌else◌,
}
use mathlib.Core.Path.{subst}
use mathlib.Core.Option.{some_inj}
use kuula.Prelude.Bytes.{Bytes, same_bytes}
use kuula.Pairing.{max_approved, approved, approve, contains}
use kuula.Pairing.Lists.{IsCanonical}
use kuula.Pairing.Files.{approved-approve}
use kuula.Pairing.Limiter.{allow, last_of, touch, make_room, allow_all}
use kuula.Pairing.Interval.{allow_all-refuses}

-- An id, and a library that knows no other.
abbrev ann : Bytes
ann = replicate 64 97

abbrev reads : Bytes → Option Bytes
reads t = if same_bytes t ann then some ann else none

abbrev file : Option Bytes
file = none

only : (t id : Bytes) → reads t ≡ some id → ann ≡ id
only t id e = elim (Bool-cases (same_bytes t ann)) [
  | inl s ↦ some_inj.0 (sym (ap (λ b. if b then some ann else none) s) ∙ e)
  | inr s ↦ cc (sym (ap (λ b. if b then some ann else none) s) ∙ e)
]

ann_lem : reads ann ≡ some ann
unfolding same_bytes
ann_lem = refl

digits_lem : (n : ℕ) → All (λ b. (48 ≤ b) × (b < 128)) (replicate n 97)
digits_lem zero = tt
digits_lem (suc n) = ((omega arith, omega arith), digits_lem n)

reads-IsCanonical : IsCanonical reads
reads-IsCanonical = record {
  stable = λ t id e. subst (λ x. reads x ≡ some x) (only t id e) ann_lem;
  size = λ t id e. subst (λ x. length x ≡ 64) (only t id e) refl;
  digits = λ t id e. subst (All (λ b. (48 ≤ b) × (b < 128))) (only t id e) (digits_lem 64);
}

approved-approve_example : approved reads (approve reads none ann file).0 ≡ (
    if not (contains ann (approved reads file)) && ltb (length (approved reads file)) max_approved
    then approved reads file ++ ann ∷ []
    else approved reads file)
approved-approve_example = approved-approve reads reads-IsCanonical ann ann file ann_lem

-- Two others ask, one of them twice, and so does the id itself.
abbrev others : List (Bytes × ℕ)
others = (98 ∷ [], 6) ∷ (ann, 7) ∷ (99 ∷ [], 800) ∷ (98 ∷ [], 850) ∷ []

first_lem : (allow 1000 ann 5 []).1 ≡ true
unfolding allow last_of touch make_room
first_lem = refl

room_lem : length (allow 1000 ann 5 []).0 + length others ≤ 32
unfolding allow last_of touch make_room
room_lem = omega arith

allow_all-refuses_example :
    (allow 1000 ann 900 (allow_all 1000 others (allow 1000 ann 5 []).0)).1 ≡ false
allow_all-refuses_example =
    allow_all-refuses 1000 ann 5 900 [] others first_lem (omega arith) (omega arith) room_lem
