-- ===== src/Saves/Through.antt =====
-- The store that writes through: what the cart sees, what the disk gets, and what the host is told.
use kuula.Prelude.{
  ℕ, zero, suc, ◌+◌, ◌≤◌, ◌≡◌, ◌≢◌, refl, ap, ap₂, ◌∙◌, inl, inr, true, false, Option, List, [],
  ◌∷◌, ◌==◌, ==_iff, length, get_or, drop, arith, length-append, length-drop, Bool-cases,
  Option-cases,
}
use kuula.Prelude.Bytes.{Bytes}
use kuula.Prelude.Result.{Result, Result-cases}
use kuula.Saves.{
  MemoryStore, SaveError, SaveStore, WriteThroughStore, slot_count, max_kept_failures, not_read,
  read, write, seed, seed_all, blank, new, keep_failure, read_through, forward, write_through,
  take_failures,
}

-- What a cart and its host ask of a store.
pub data Op : Type 0 where
  reads : ℕ → Op
  writes : ℕ → Bytes → Op
  reports : Op

-- What a cart is told.
pub data Answer : Type 0 where
  got : Result SaveError (Option Bytes) → Answer
  done : Result SaveError (Unit {0}) → Answer
  nothing : Answer

-- The store in memory has no failures to report.
unfoldable pub on_memory : Op → MemoryStore → MemoryStore × Answer
unfolding read write
on_memory (reads slot) m = let (m', r) = read slot m in (m', got r)
on_memory (writes slot bytes) m = let (m', r) = write slot bytes m in (m', done r)
on_memory reports m = (m, nothing)

unfoldable pub all_on_memory : List Op → MemoryStore → MemoryStore × List Answer
unfolding on_memory
all_on_memory [] m = (m, [])
all_on_memory (o ∷ ops) m =
    let (m', a) = on_memory o m in let (m'', answers) = all_on_memory ops m' in (m'', a ∷ answers)

module _ {disk : SaveStore} where
  unfoldable pub perform : Op → WriteThroughStore disk → WriteThroughStore disk × Answer
  unfolding read_through write_through take_failures
  perform (reads slot) s = let (s', r) = read_through slot s in (s', got r)
  perform (writes slot bytes) s = let (s', r) = write_through slot bytes s in (s', done r)
  perform reports s = ((take_failures s).0, nothing)

  unfoldable pub perform_all :
      List Op → WriteThroughStore disk → WriteThroughStore disk × List Answer
  unfolding perform
  perform_all [] s = (s, [])
  perform_all (o ∷ ops) s =
      let (s', a) = perform o s in let (s'', answers) = perform_all ops s' in (s'', a ∷ answers)

  forward_keeps :
      (slot : ℕ) (bytes : Bytes) (s : WriteThroughStore disk)
      → ((forward slot bytes s).memory ≡ s.memory)
        × ((forward slot bytes s).unreadable ≡ s.unreadable)
  unfolding forward keep_failure
  forward_keeps slot bytes s = ground arith

  perform_unreadable :
      (o : Op) (s : WriteThroughStore disk) → (perform o s).0.unreadable ≡ s.unreadable
  unfolding perform read_through write_through take_failures
  perform_unreadable (reads slot) s = refl
  perform_unreadable (writes slot bytes) s = ground (arith, forward_keeps slot bytes)
  perform_unreadable reports s = refl

  perform-on_memory :
      (o : Op) (s : WriteThroughStore disk)
      → ((perform o s).0.memory ≡ (on_memory o s.memory).0)
        × ((perform o s).1 ≡ (on_memory o s.memory).1)
  unfolding perform on_memory read_through write_through take_failures
  perform-on_memory (reads slot) s = (refl, refl)
  perform-on_memory (writes slot bytes) s = ground (arith, forward_keeps slot bytes)
  perform-on_memory reports s = (refl, refl)

  -- Whatever the disk does and in whatever order a cart reads and writes, it is told what a store in
  -- memory with the same slots tells it, and the slots that it sees are those.
  pub perform_all-on_memory :
      (ops : List Op) (s : WriteThroughStore disk)
      → ((perform_all ops s).0.memory ≡ (all_on_memory ops s.memory).0)
        × ((perform_all ops s).1 ≡ (all_on_memory ops s.memory).1)
  unfolding perform_all all_on_memory
  perform_all-on_memory [] s = (refl, refl)
  perform_all-on_memory (o ∷ ops) s =
      let (m, a) = perform-on_memory o s in
      let (ms, answers) = perform_all-on_memory ops (perform o s).0 in
      (
        ms ∙ ap (λ x. (all_on_memory ops x).0) m,
        ap₂ (λ x y. x ∷ y) a (answers ∙ ap (λ x. (all_on_memory ops x).1) m),
      )

  module _ (slot : ℕ) (P : disk.World → Type 0)
      (others : (k : ℕ) (bytes : Bytes) (w : disk.World)
        → k ≢ slot
        → P w
        → P (disk.write k bytes w).0) where
    protected-forward :
        (k : ℕ) (bytes : Bytes) (s : WriteThroughStore disk)
        → get_or s.unreadable slot false ≡ true
        → P s.world
        → P (forward k bytes s).world
    unfolding forward keep_failure
    protected-forward k bytes s u p = elim (Bool-cases (k == slot)) [
      | inl e ↦
          let hit : get_or s.unreadable k false ≡ true =
            ap (λ x. get_or s.unreadable x false) ((==_iff k slot).0 e) ∙ u in
          rw (hit) p
      | inr e ↦
          let q : P (disk.write k bytes s.world).0 =
            others k bytes s.world (λ same. cc (e, (==_iff k slot).1 same)) p in
          elim (Bool-cases (get_or s.unreadable k false)) [
            | inl hit ↦ rw (hit) p
            | inr miss ↦ elim (Result-cases (disk.write k bytes s.world).1) [
              | inl (why, r) ↦ rw (miss, r) q
              | inr (u', r) ↦ rw (miss, r) q
            ]
          ]
    ]

    protected-perform :
        (o : Op) (s : WriteThroughStore disk)
        → get_or s.unreadable slot false ≡ true
        → P s.world
        → P (perform o s).0.world
    unfolding perform read_through write_through take_failures
    protected-perform (reads k) s u p = p
    protected-perform (writes k bytes) s u p = elim (Result-cases (write k bytes s.memory).1) [
      | inl (why, r) ↦ rw (perform, write_through, r) p
      | inr (u', r) ↦
          rw (perform, write_through, r)
            (protected-forward k bytes (record s { memory = (write k bytes s.memory).0 }) u p)
    ]
    protected-perform reports s u p = p

    -- A slot that is marked unreadable is never written to the disk: what holds of the disk and is
    -- kept by writes to every other slot holds for good, whatever the cart asks for.
    pub perform_all-protects :
        (ops : List Op) (s : WriteThroughStore disk)
        → get_or s.unreadable slot false ≡ true
        → P s.world
        → P (perform_all ops s).0.world
    unfolding perform_all
    perform_all-protects [] s u p = p
    perform_all-protects (o ∷ ops) s u p =
        perform_all-protects ops (perform o s).0
          (ap (λ x. get_or x slot false) (perform_unreadable o s) ∙ u) (protected-perform o s u p)

  keep_failure-le :
      (e : SaveError) (s : WriteThroughStore disk)
      → length s.failures ≤ max_kept_failures
      → length (keep_failure e s).failures ≤ max_kept_failures
  unfolding keep_failure
  keep_failure-le e s h = ground (
    arith,
    h,
    length-append s.failures (e ∷ []),
    length-append (drop 1 s.failures) (e ∷ []),
    length-drop 1 s.failures,
  )

  forward-le :
      (slot : ℕ) (bytes : Bytes) (s : WriteThroughStore disk)
      → length s.failures ≤ max_kept_failures
      → length (forward slot bytes s).failures ≤ max_kept_failures
  unfolding forward
  forward-le slot bytes s h =
      let s' : WriteThroughStore disk = record s { world = (disk.write slot bytes s.world).0 } in
      elim (Bool-cases (get_or s.unreadable slot false)) [
        | inl hit ↦ rw (forward, hit) (keep_failure-le (not_read slot) s h)
        | inr miss ↦ elim (Result-cases (disk.write slot bytes s.world).1) [
          | inl (e, r) ↦ rw (forward, miss, r) (keep_failure-le e s' h)
          | inr (u, r) ↦ rw (forward, miss, r) h
        ]
      ]

  perform-le :
      (o : Op) (s : WriteThroughStore disk)
      → length s.failures ≤ max_kept_failures
      → length (perform o s).0.failures ≤ max_kept_failures
  unfolding perform read_through write_through take_failures
  perform-le (reads slot) s h = h
  perform-le (writes slot bytes) s h =
      let s' : WriteThroughStore disk = record s { memory = (write slot bytes s.memory).0 } in
      ground (arith, h, forward-le slot bytes s' h)
  perform-le reports s h = omega arith

  seed-le :
      (slot : ℕ) (s : WriteThroughStore disk)
      → length (seed slot s).failures ≤ length s.failures + 1
  unfolding seed
  seed-le slot s = elim (Result-cases (disk.read slot s.world).1) [
    | inl (e, r) ↦ rw (seed, r) (omega (arith, length-append s.failures (e ∷ [])))
    | inr (o, r) ↦ elim (Option-cases o) [
      | inl q ↦ rw (seed, r, q) (omega arith)
      | inr (b, q) ↦ rw (seed, r, q) (omega arith)
    ]
  ]

  seed_all-le :
      (left slot : ℕ) (s : WriteThroughStore disk)
      → length (seed_all left slot s).failures ≤ length s.failures + left
  unfolding seed_all
  seed_all-le zero slot s = omega arith
  seed_all-le (suc left) slot s =
      omega (arith, seed_all-le left (slot + 1) (seed slot s), seed-le slot s)

  perform_all-le :
      (ops : List Op) (s : WriteThroughStore disk)
      → length s.failures ≤ max_kept_failures
      → length (perform_all ops s).0.failures ≤ max_kept_failures
  unfolding perform_all
  perform_all-le [] s h = h
  perform_all-le (o ∷ ops) s h = perform_all-le ops (perform o s).0 (perform-le o s h)

-- A store that is built on a disk never keeps more than 16 failures for its host, however often the
-- disk fails.
pub perform_all-new_le :
    (disk : SaveStore) (ops : List Op) (world : disk.World)
    → length (perform_all ops (new {disk = disk} world)).0.failures ≤ max_kept_failures
unfolding new blank
perform_all-new_le disk ops world =
    perform_all-le ops (new {disk = disk} world)
      (omega (arith, seed_all-le slot_count 0 (blank {disk = disk} world)))
