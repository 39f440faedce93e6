-- ===== src/Pairing/Interval.antt =====
-- The interval that `Limiter` of crates/kuula-net/src/deploy/receiver.rs keeps for an id, while others ask.
use kuula.Prelude.{
  ℕ, ◌+◌, ◌-◌, ◌≤◌, ◌<◌, ◌≡◌, refl, sym, ap, ◌∙◌, inl, inr, true, false, none, some, List, [], ◌∷◌,
  ◌++◌, ltb, length, length-append, arith, Bool-cases, Option-cases,
}
use mathlib.Core.Path.{subst}
use mathlib.Core.Option.{some_inj}
use kuula.Prelude.Bytes.{Bytes, same_bytes, same_bytes_iff}
use kuula.Pairing.Limiter.{
  Entries, unpaired_ids, last_of, touch, make_room, allow, allow_all, last_of-touch, allow-last_of,
  length-touch,
}

-- The id is known, and `soon` is within the interval that follows the time it has.
record IsRecent (every : ℕ) (id : Bytes) (soon : ℕ) (entries : Entries) : Type 0 where
  last : ℕ
  known : last_of id entries ≡ some last
  before : soon < last + every
  interval : 0 < every

IsRecent-refused :
    (every : ℕ) (id : Bytes) (soon : ℕ) (entries : Entries)
    → IsRecent every id soon entries
    → (allow every id soon entries).1 ≡ false
unfolding allow
IsRecent-refused every id soon entries v = ground (arith, v.known, v.before, v.interval)

last_of-grow :
    (id : Bytes) (entries : Entries) (e : Bytes × ℕ) (last : ℕ)
    → last_of id entries ≡ some last
    → last_of id (entries ++ e ∷ []) ≡ some last
unfolding last_of
last_of-grow id [] e last h = cc
last_of-grow id (x ∷ entries) e last h = ground (arith, h, last_of-grow id entries e last)

-- Another id's time does not touch the entry.
touch_other :
    (id other : Bytes) (now : ℕ) (entries : Entries)
    → same_bytes other id ≡ false
    → last_of id (touch other now entries) ≡ last_of id entries
unfolding last_of touch
touch_other id other now [] h = refl
touch_other id other now (e ∷ entries) h = elim (Bool-cases (same_bytes e.0 other)) [
  | inl s ↦
      let same : e.0 ≡ other = (same_bytes_iff e.0 other).0 s in
      let apart : same_bytes e.0 id ≡ false = ap (λ b. same_bytes b id) same ∙ h in
      ground (arith, s, apart)
  | inr s ↦ ground (arith, s, touch_other id other now entries h)
]

make_room_none : (entries : Entries) → length entries < unpaired_ids → make_room entries ≡ entries
unfolding make_room
make_room_none [] h = refl
make_room_none (e ∷ entries) h = ground (arith, h)

-- A touched entry has a time that is later still.
touch-IsRecent :
    (every : ℕ) (id other : Bytes) (soon now last : ℕ) (entries : Entries)
    → last_of other entries ≡ some last
    → ltb (now - last) every ≡ false
    → IsRecent every id soon entries
    → IsRecent every id soon (touch other now entries)
touch-IsRecent every id other soon now last entries known late v =
    elim (Bool-cases (same_bytes other id)) [
      | inr differs ↦ record {
        last = v.last;
        known = touch_other id other now entries differs ∙ v.known;
        before = v.before;
        interval = v.interval;
      }
      | inl same ↦
          let is_id : other ≡ id = (same_bytes_iff other id).0 same in
          let at : v.last ≡ last =
            some_inj.0 (sym v.known ∙ ap (λ b. last_of b entries) (sym is_id) ∙ known) in
          record {
            last = now;
            known =
                ap (λ b. last_of b (touch other now entries)) (sym is_id)
                ∙ last_of-touch other now entries last known;
            before = ground (arith, v.before, at, late);
            interval = v.interval;
          }
    ]

-- What an ask makes of the entries.
allow_new :
    (every : ℕ) (id : Bytes) (now : ℕ) (entries : Entries)
    → last_of id entries ≡ none
    → (allow every id now entries).0 ≡ make_room entries ++ (id, now) ∷ []
unfolding allow
allow_new every id now entries e = ground (arith, e)

allow_early :
    (every : ℕ) (id : Bytes) (now last : ℕ) (entries : Entries)
    → last_of id entries ≡ some last
    → ltb (now - last) every ≡ true
    → (allow every id now entries).0 ≡ entries
unfolding allow
allow_early every id now last entries e s = ground (arith, e, s)

allow_late :
    (every : ℕ) (id : Bytes) (now last : ℕ) (entries : Entries)
    → last_of id entries ≡ some last
    → ltb (now - last) every ≡ false
    → (allow every id now entries).0 ≡ touch id now entries
unfolding allow
allow_late every id now last entries e s = ground (arith, e, s)

-- An ask of any id at any time keeps the id known, if the limiter has room.
allow-IsRecent :
    (every : ℕ) (id other : Bytes) (soon now : ℕ) (entries : Entries)
    → length entries < unpaired_ids
    → IsRecent every id soon entries
    → IsRecent every id soon (allow every other now entries).0
allow-IsRecent every id other soon now entries h v = elim (Option-cases (last_of other entries)) [
  | inl new ↦ record {
    last = v.last;
    known =
        ap (last_of id) (
          allow_new every other now entries new
          ∙ ap (λ es. es ++ (other, now) ∷ []) (make_room_none entries h))
        ∙ last_of-grow id entries (other, now) v.last v.known;
    before = v.before;
    interval = v.interval;
  }
  | inr (last, known) ↦ elim (Bool-cases (ltb (now - last) every)) [
    | inl early ↦
        subst (IsRecent every id soon) (sym (allow_early every other now last entries known early))
          v
    | inr late ↦
        subst (IsRecent every id soon) (sym (allow_late every other now last entries known late))
          (touch-IsRecent every id other soon now last entries known late v)
  ]
]

allow-length-le :
    (every : ℕ) (id : Bytes) (now : ℕ) (entries : Entries)
    → length entries < unpaired_ids
    → length (allow every id now entries).0 ≤ length entries + 1
allow-length-le every id now entries h = elim (Option-cases (last_of id entries)) [
  | inl new ↦ omega (
    arith,
    ap length (allow_new every id now entries new),
    length-append (make_room entries) ((id, now) ∷ []),
    ap length (make_room_none entries h),
  )
  | inr (last, known) ↦ elim (Bool-cases (ltb (now - last) every)) [
    | inl early ↦ omega (arith, ap length (allow_early every id now last entries known early))
    | inr late ↦ omega (
      arith,
      ap length (allow_late every id now last entries known late),
      length-touch id now entries,
    )
  ]
]

allow_all-IsRecent :
    (every : ℕ) (id : Bytes) (soon : ℕ) (asks : List (Bytes × ℕ)) (entries : Entries)
    → length entries + length asks ≤ unpaired_ids
    → IsRecent every id soon entries
    → IsRecent every id soon (allow_all every asks entries)
unfolding allow_all
allow_all-IsRecent every id soon [] entries h v = v
allow_all-IsRecent every id soon (ask ∷ asks) entries h v =
    let room : length entries < unpaired_ids = omega (arith, h) in
    allow_all-IsRecent every id soon asks (allow every ask.0 ask.1 entries).0
      (omega (arith, h, allow-length-le every ask.0 ask.1 entries room))
      (allow-IsRecent every id ask.0 soon ask.1 entries room v)

-- An id that was let through is not let through again at a later time before the interval is over,
-- whatever ids have asked in between and at whatever times, if the limiter's 32 places have room for
-- an entry of each of these asks beside those it has.
pub allow_all-refuses :
    (every : ℕ) (id : Bytes) (now soon : ℕ) (entries : Entries) (asks : List (Bytes × ℕ))
    → (allow every id now entries).1 ≡ true
    → now ≤ soon
    → soon < now + every
    → length (allow every id now entries).0 + length asks ≤ unpaired_ids
    → (allow every id soon (allow_all every asks (allow every id now entries).0)).1 ≡ false
allow_all-refuses every id now soon entries asks h g l room =
    let known : IsRecent every id soon (allow every id now entries).0 = record {
      last = now;
      known = allow-last_of every id now entries h;
      before = l;
      interval = omega (arith, g, l);
    } in
    IsRecent-refused every id soon (allow_all every asks (allow every id now entries).0)
      (allow_all-IsRecent every id soon asks (allow every id now entries).0 room known)
