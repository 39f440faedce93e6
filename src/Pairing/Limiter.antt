-- ===== src/Pairing/Limiter.antt =====
-- `Limiter` of crates/kuula-net/src/deploy/receiver.rs: each id at most once per interval. Times are
-- numbers of a clock that does not go back; `duration_since` of an earlier time is 0, as `-` on ℕ is.
use kuula.Prelude.{
  ℕ, zero, suc, ◌+◌, ◌-◌, ◌≤◌, ◌<◌, ◌≡◌, refl, inl, inr, Bool, true, false, Option, none, some,
  List, [], ◌∷◌, ◌++◌, ltb, ◌==◌, length, length-append, set, length-set, All, arith, Bool-cases,
  Option-cases, if◌then◌else◌,
}
use kuula.Prelude.Bytes.{Bytes, same_bytes, same_bytes_iff}

abbrev pub unpaired_ids : ℕ
unpaired_ids = 32

-- The ids and when each was last reported.
abbrev pub Entries : Type 0
Entries = List (Bytes × ℕ)

unfoldable pub last_of : Bytes → Entries → Option ℕ
unfolding same_bytes
last_of id [] = none
last_of id (e ∷ entries) =
    let rest = last_of id entries in if same_bytes e.0 id then some e.1 else rest

-- `entry.1 = now`, in the first entry of the id.
unfoldable pub touch : Bytes → ℕ → Entries → Entries
unfolding same_bytes
touch id now [] = []
touch id now (e ∷ entries) =
    let rest = touch id now entries in if same_bytes e.0 id then (e.0, now) ∷ entries else e ∷ rest

-- `min_by_key`: the position and the time of the first entry that is the oldest.
unfoldable pub oldest : Bytes × ℕ → Entries → ℕ × ℕ
oldest first [] = (0, first.1)
oldest first (e ∷ entries) =
    let (at, time) = oldest e entries in if ltb time first.1 then (at + 1, time) else (0, first.1)

unfoldable pub split_last : Bytes × ℕ → Entries → Entries × (Bytes × ℕ)
split_last first [] = ([], first)
split_last first (e ∷ entries) = let (front, last) = split_last e entries in (first ∷ front, last)

-- `swap_remove`: the last entry takes the place of the one that goes.
unfoldable pub swap_remove : ℕ → Entries → Entries
unfolding split_last
swap_remove at [] = []
swap_remove at (e ∷ entries) = let (front, last) = split_last e entries in set front at last

unfoldable pub make_room : Entries → Entries
unfolding oldest swap_remove
make_room [] = []
make_room (e ∷ entries) =
    if length (e ∷ entries) == unpaired_ids
    then swap_remove (oldest e entries).0 (e ∷ entries)
    else e ∷ entries

-- Limiter::allow
unfoldable pub allow : ℕ → Bytes → ℕ → Entries → Entries × Bool
unfolding last_of touch make_room
allow every id now entries = elim (last_of id entries) [
  | some last ↦ if ltb (now - last) every then (entries, false) else (touch id now entries, true)
  | none ↦ (make_room entries ++ (id, now) ∷ [], true)
]

-- The answers to a sequence of ids and times.
unfoldable pub allow_all : ℕ → List (Bytes × ℕ) → Entries → Entries
unfolding allow
allow_all every [] entries = entries
allow_all every (ask ∷ asks) entries = allow_all every asks (allow every ask.0 ask.1 entries).0

pub length-touch :
    (id : Bytes) (now : ℕ) (entries : Entries) → length (touch id now entries) ≡ length entries
unfolding touch
length-touch id now [] = refl
length-touch id now (e ∷ entries) = ground (arith, length-touch id now entries)

length-split_last :
    (first : Bytes × ℕ) (entries : Entries) → length (split_last first entries).0 ≡ length entries
unfolding split_last
length-split_last first [] = refl
length-split_last first (e ∷ entries) = omega (arith, length-split_last e entries)

pub make_room-lt :
    (entries : Entries) → length entries ≤ unpaired_ids → length (make_room entries) < unpaired_ids
unfolding make_room swap_remove
make_room-lt [] h = omega arith
make_room-lt (e ∷ entries) h = ground (
  arith,
  h,
  length-set (split_last e entries).0 (oldest e entries).0 (split_last e entries).1,
  length-split_last e entries,
)

allow-le :
    (every : ℕ) (id : Bytes) (now : ℕ) (entries : Entries)
    → length entries ≤ unpaired_ids
    → length (allow every id now entries).0 ≤ unpaired_ids
unfolding allow
allow-le every id now entries h = ground (
  arith,
  h,
  length-touch id now entries,
  make_room-lt entries h,
  length-append (make_room entries) ((id, now) ∷ []),
)

-- However many ids ask, the limiter remembers at most 32 of them.
pub allow_all-le :
    (every : ℕ) (asks : List (Bytes × ℕ)) → length (allow_all every asks []) ≤ unpaired_ids
unfolding allow_all
allow_all-le every asks = from asks [] (omega arith)
  where
    from :
        (asks : List (Bytes × ℕ)) (entries : Entries)
        → length entries ≤ unpaired_ids
        → length (allow_all every asks entries) ≤ unpaired_ids
    from [] entries h = h
    from (ask ∷ asks) entries h =
        from asks (allow every ask.0 ask.1 entries).0 (allow-le every ask.0 ask.1 entries h)

pub last_of-touch :
    (id : Bytes) (now : ℕ) (entries : Entries) (last : ℕ)
    → last_of id entries ≡ some last
    → last_of id (touch id now entries) ≡ some now
unfolding last_of touch
last_of-touch id now [] last h = cc
last_of-touch id now (e ∷ entries) last h = elim (Bool-cases (same_bytes e.0 id)) [
  | inl s ↦ ground (arith, s)
  | inr s ↦ ground (arith, s, h, last_of-touch id now entries last)
]

last_of-append :
    (id : Bytes) (now : ℕ) (entries : Entries)
    → last_of id entries ≡ none
    → last_of id (entries ++ (id, now) ∷ []) ≡ some now
unfolding last_of
last_of-append id now [] h = ground (arith, (same_bytes_iff id id).1 refl)
last_of-append id now (e ∷ entries) h = ground (arith, h, last_of-append id now entries)

-- No entry is the id's.
abbrev Unknown : Bytes → Entries → Type 0
Unknown id = All (λ (e : Bytes × ℕ). same_bytes e.0 id ≡ false)

last_of-none : (id : Bytes) (entries : Entries) → last_of id entries ≡ none → Unknown id entries
unfolding last_of
last_of-none id [] h = tt
last_of-none id (e ∷ entries) h = elim (Bool-cases (same_bytes e.0 id)) [
  | inl s ↦ absurd (ground (arith, s, h))
  | inr s ↦ (s, last_of-none id entries (ground (arith, s, h)))
]

none-last_of : (id : Bytes) (entries : Entries) → Unknown id entries → last_of id entries ≡ none
unfolding last_of
none-last_of id [] h = refl
none-last_of id (e ∷ entries) h = ground (arith, h.0, none-last_of id entries h.1)

split_last-Unknown :
    (id : Bytes) (first : Bytes × ℕ) (entries : Entries)
    → Unknown id (first ∷ entries)
    → Unknown id (split_last first entries).0
      × (same_bytes (split_last first entries).1.0 id ≡ false)
unfolding split_last
split_last-Unknown id first [] h = (tt, h.0)
split_last-Unknown id first (e ∷ entries) h =
    let (front, last) = split_last-Unknown id e entries h.1 in ((h.0, front), last)

set-Unknown :
    (id : Bytes) (entries : Entries) (at : ℕ) (x : Bytes × ℕ)
    → Unknown id entries
    → same_bytes x.0 id ≡ false
    → Unknown id (set entries at x)
set-Unknown id [] at x h k = tt
set-Unknown id (e ∷ entries) zero x h k = (k, h.1)
set-Unknown id (e ∷ entries) (suc at) x h k = (h.0, set-Unknown id entries at x h.1 k)

make_room-Unknown :
    (id : Bytes) (entries : Entries) → Unknown id entries → Unknown id (make_room entries)
unfolding make_room swap_remove
make_room-Unknown id [] h = tt
make_room-Unknown id (e ∷ entries) h = elim (Bool-cases (length (e ∷ entries) == unpaired_ids)) [
  | inl s ↦
      let (front, last) = split_last-Unknown id e entries h in
      rw (make_room, s)
        (set-Unknown id (split_last e entries).0 (oldest e entries).0 (split_last e entries).1 front
          last)
  | inr s ↦ rw (make_room, s) h
]

-- An id that was let through is known with the time of it.
pub allow-last_of :
    (every : ℕ) (id : Bytes) (now : ℕ) (entries : Entries)
    → (allow every id now entries).1 ≡ true
    → last_of id (allow every id now entries).0 ≡ some now
unfolding allow
allow-last_of every id now entries h = elim (Option-cases (last_of id entries)) [
  | inl e ↦
      let new : Unknown id (make_room entries) =
        make_room-Unknown id entries (last_of-none id entries e) in
      ground (
        arith,
        e,
        last_of-append id now (make_room entries) (none-last_of id (make_room entries) new),
      )
  | inr (last, e) ↦ ground (arith, e, h, last_of-touch id now entries last e)
]
