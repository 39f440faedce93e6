-- ===== src/Pairing/Lists.antt =====
-- The list of approved developers: what it holds, and what approving and revoking do to it.
use kuula.Prelude.{
  ◌≤◌, ◌<◌, ◌≡◌, refl, sym, inl, inr, false, ◌||◌, Option, some, List, [], ◌∷◌, ◌++◌, length, All,
  arith, Bool-cases,
}
use kuula.Prelude.Bytes.{Bytes, same_bytes, same_bytes_iff}
use kuula.Pairing.{max_approved, contains, without}

-- What the network library documents of an id's text: 64 lower-case hexadecimal digits, which read as
-- themselves.
pub record IsCanonical (parse_id : Bytes → Option Bytes) : Type 0 where
  pub stable : (t id : Bytes) → parse_id t ≡ some id → parse_id id ≡ some id
  pub size : (t id : Bytes) → parse_id t ≡ some id → length id ≡ 64
  pub digits : (t id : Bytes) → parse_id t ≡ some id → All (λ b. (48 ≤ b) × (b < 128)) id

-- No id stands in the list twice.
abbrev pub NoRepeat : List Bytes → Type 0
NoRepeat [] = Unit
NoRepeat (x ∷ xs) = (contains x xs ≡ false) × NoRepeat xs

module _ (parse_id : Bytes → Option Bytes) where
  -- At most 32 ids, each canonical and none twice.
  pub record IsApprovals (ids : List Bytes) : Type 0 where
    pub canonical : All (λ id. parse_id id ≡ some id) ids
    pub distinct : NoRepeat ids
    pub short : length ids ≤ max_approved

pub contains-append :
    (x y : Bytes) (xs : List Bytes) → contains x (xs ++ y ∷ []) ≡ (contains x xs || same_bytes x y)
unfolding contains
contains-append x y [] = ground arith
contains-append x y (z ∷ xs) = ground (arith, contains-append x y xs)

pub same_sym : (x y : Bytes) → same_bytes x y ≡ false → same_bytes y x ≡ false
same_sym x y h = elim (Bool-cases (same_bytes y x)) [
  | inr e ↦ e
  | inl e ↦ absurd (ground (arith, h, (same_bytes_iff x y).1 (sym ((same_bytes_iff y x).0 e))))
]

pub NoRepeat-append :
    (xs : List Bytes) (y : Bytes) → NoRepeat xs → contains y xs ≡ false → NoRepeat (xs ++ y ∷ [])
unfolding contains
NoRepeat-append [] y d h = (refl, tt)
NoRepeat-append (x ∷ xs) y d h =
    let apart : same_bytes x y ≡ false = same_sym y x (ground (arith, h)) in
    (
      ground (arith, contains-append x y xs, d.0, apart),
      NoRepeat-append xs y d.1 (ground (arith, h)),
    )

contains-without :
    (x id : Bytes) (xs : List Bytes) → contains x xs ≡ false → contains x (without id xs) ≡ false
unfolding contains without
contains-without x id [] h = refl
contains-without x id (y ∷ xs) h = elim (Bool-cases (same_bytes id y)) [
  | inl e ↦ ground (arith, e, h, contains-without x id xs)
  | inr e ↦ ground (arith, e, h, contains-without x id xs)
]

pub NoRepeat-without : (id : Bytes) (xs : List Bytes) → NoRepeat xs → NoRepeat (without id xs)
unfolding without
NoRepeat-without id [] d = tt
NoRepeat-without id (x ∷ xs) d = elim (Bool-cases (same_bytes id x)) [
  | inl e ↦ rw (without, e) (NoRepeat-without id xs d.1)
  | inr e ↦ rw (without, e) (contains-without x id xs d.0, NoRepeat-without id xs d.1)
]

pub All-without {κ} :
    (P : Bytes → Type κ) (id : Bytes) (xs : List Bytes) → All P xs → All P (without id xs)
unfolding without
All-without P id [] p = tt
All-without P id (x ∷ xs) p = elim (Bool-cases (same_bytes id x)) [
  | inl e ↦ rw (without, e) (All-without P id xs p.1)
  | inr e ↦ rw (without, e) (p.0, All-without P id xs p.1)
]

pub length-without : (id : Bytes) (xs : List Bytes) → length (without id xs) ≤ length xs
unfolding without
length-without id [] = omega arith
length-without id (x ∷ xs) = ground (arith, length-without id xs)

pub without_same :
    (id : Bytes) (xs : List Bytes) → length (without id xs) ≡ length xs → without id xs ≡ xs
unfolding without
without_same id [] h = refl
without_same id (x ∷ xs) h = elim (Bool-cases (same_bytes id x)) [
  | inl e ↦ absurd (ground (arith, e, h, length-without id xs))
  | inr e ↦ ground (arith, e, h, without_same id xs)
]
