-- ===== src/Receiver/Chunks.antt =====
-- The rounds of `receive_data`, crates/kuula-net/src/deploy/receiver.rs, end, and what they leave.
use kuula.Prelude.{
  ℕ, zero, suc, ◌+◌, ◌-◌, ◌≤◌, ◌<◌, ◌≡◌, ◌≢◌, refl, ap, ◌∙◌, min, inl, inr, false, Option, none,
  some, [], ◌∷◌, ◌++◌, ltb, length, take, drop, arith, append_assoc, length-append, length-take,
  take-append-drop, Bool-cases, ltb→lt, not_ltb→le,
}
use kuula.Prelude.Bytes.{Bytes}
use kuula.Prelude.Result.{Result, ok, err, Result-cases}
use kuula.Wire.Deploy.{ok_code}
use kuula.Receiver.{World, Read, Round, stalled, failed, arrives, stop_asked, reads}
use kuula.Receiver.Reading.{
  Failure, Chunk, chunk, written, read_chunk, round, at_end, receive, receive_data,
}

-- A failure is never reported as a success.
abbrev pub Fails {ℓ} : {A : Type ℓ} → Result Failure A → Type 0
Fails (ok a) = Unit
Fails (err f) = f.code ≢ ok_code

Fails-err {ℓ} :
    {A : Type ℓ} (r : Result Failure A) (f : Failure) → Fails r → r ≡ err f → f.code ≢ ok_code
Fails-err (ok a) f p e = cc e
Fails-err (err g) f p e = λ q. p (ground (arith, e, q))

at_end-Fails : (rest : Bytes) (r : Read) → Fails (at_end rest r)
unfolding at_end
at_end-Fails rest stalled = λ e. cc e
at_end-Fails rest (failed why) = λ e. cc e
at_end-Fails [] (arrives n) = tt
at_end-Fails (b ∷ bs) (arrives n) = λ e. cc e

read_chunk-Fails :
    (want expect : ℕ) (rest : Bytes) (got : ℕ) (r : Read)
    → Fails (read_chunk want expect rest got r)
unfolding read_chunk
read_chunk-Fails want expect rest got stalled = λ e. cc e
read_chunk-Fails want expect rest got (failed why) = λ e. cc e
read_chunk-Fails want expect [] got (arrives n) = λ e. cc e
read_chunk-Fails want expect (b ∷ bs) got (arrives n) = tt

written-Fails : (why : Option Bytes) (c : Chunk) → Fails (written why c)
unfolding written
written-Fails none c = tt
written-Fails (some why) c = λ e. cc e

round-Fails :
    (want expect : ℕ) (rest : Bytes) (got : ℕ) (r : Round) → Fails (round want expect rest got r)
unfolding round
round-Fails want expect rest got stop_asked = λ e. cc e
round-Fails want expect rest got (reads r why) =
    elim (Result-cases (read_chunk want expect rest got r)) [
      | inl (f, q) ↦
          rw (round, q)
            (Fails-err (read_chunk want expect rest got r) f
              (read_chunk-Fails want expect rest got r) q)
      | inr (d, q) ↦ rw (round, q) (written-Fails why d)
    ]

-- A chunk of what is on the stream: at least one byte, and no more than were asked for.
record IsChunk (want : ℕ) (rest : Bytes) (c : Chunk) : Type 0 where
  pub whole : c.0 ++ c.1 ≡ rest
  pub some_byte : 1 ≤ length c.0
  pub within : length c.0 ≤ want

read_chunk-IsChunk :
    (want expect : ℕ) (rest : Bytes) (got : ℕ) (r : Read) (c : Chunk)
    → 1 ≤ want
    → read_chunk want expect rest got r ≡ ok c
    → IsChunk want rest c
unfolding read_chunk
read_chunk-IsChunk want expect rest got stalled c h e = cc
read_chunk-IsChunk want expect rest got (failed why) c h e = cc
read_chunk-IsChunk want expect [] got (arrives n) c h e = cc
read_chunk-IsChunk want expect (b ∷ bs) got (arrives n) c h e =
    let k = min (n + 1) want in
    let size : length (take k (b ∷ bs)) ≡ min k (length (b ∷ bs)) = length-take k (b ∷ bs) in
    let first : take k (b ∷ bs) ≡ c.0 = ground (arith, e) in
    let left : drop k (b ∷ bs) ≡ c.1 = ground (arith, e) in
    rw (← first, ← left)
      (record {
        whole = take-append-drop k (b ∷ bs);
        some_byte = omega (arith, size, h);
        within = omega (arith, size, h);
      })

written_same : (why : Option Bytes) (c d : Chunk) → written why c ≡ ok d → c ≡ d
unfolding written
written_same none c d e = ground (arith, e)
written_same (some why) c d e = cc

round-IsChunk :
    (want expect : ℕ) (rest : Bytes) (got : ℕ) (r : Round) (c : Chunk)
    → 1 ≤ want
    → round want expect rest got r ≡ ok c
    → IsChunk want rest c
unfolding round
round-IsChunk want expect rest got stop_asked c h e = cc
round-IsChunk want expect rest got (reads r why) c h e =
    elim (Result-cases (read_chunk want expect rest got r)) [
      | inl (f, q) ↦ cc (e, q)
      | inr (d, q) ↦
          let w : written why d ≡ ok c = ground (arith, e, q) in
          rw (← written_same why d c w) (read_chunk-IsChunk want expect rest got r d h q)
    ]

-- What came is a first part of the stream, no longer than the package, and all of it, with the stream
-- at its end, if that went well.
pub record IsReceived (expect : ℕ) (stream : Bytes) (out : Bytes × Result Failure (Unit {0}))
    : Type 0 where
  pub left : Bytes
  pub whole : out.0 ++ left ≡ stream
  pub short : length out.0 ≤ expect
  pub fails : Fails out.1
  pub full : out.1 ≡ ok tt → (length out.0 ≡ expect) × (left ≡ [])

at_end-nil : (rest : Bytes) (r : Read) → at_end rest r ≡ ok tt → rest ≡ []
unfolding at_end
at_end-nil rest stalled e = cc
at_end-nil rest (failed why) e = cc
at_end-nil [] (arrives n) e = refl
at_end-nil (b ∷ bs) (arrives n) e = cc

abbrev Received : ℕ → Bytes → Option (Bytes × Result Failure (Unit {0})) → Type 0
Received expect stream o =
    (out : Bytes × Result Failure (Unit {0})) × (o ≡ some out) × IsReceived expect stream out

finished_read :
    (expect : ℕ) (w : World) (rest got : Bytes)
    → length got ≤ expect
    → ltb (length got) expect ≡ false
    → IsReceived expect (got ++ rest) (got, at_end rest w.last)
finished_read expect w rest got h more = record {
  left = rest;
  whole = refl;
  short = h;
  fails = at_end-Fails rest w.last;
  full = λ e. (omega (arith, h, not_ltb→le (length got) expect more), at_end-nil rest w.last e);
}

pub receive-IsReceived :
    (fuel expect : ℕ) (w : World) (rest got : Bytes)
    → length got ≤ expect
    → expect ≤ length got + fuel
    → Received expect (got ++ rest) (receive fuel expect w rest got)
unfolding receive
receive-IsReceived zero expect w rest got h f = elim (Bool-cases (ltb (length got) expect)) [
  | inl more ↦ absurd (omega (arith, f, ltb→lt (length got) expect more))
  | inr enough ↦ ((got, at_end rest w.last), rw enough, finished_read expect w rest got h enough)
]
receive-IsReceived (suc fuel) expect w rest got h f = elim (Bool-cases (ltb (length got) expect)) [
  | inr enough ↦ ((got, at_end rest w.last), rw enough, finished_read expect w rest got h enough)
  | inl more ↦
      let less : length got < expect = ltb→lt (length got) expect more in
      let want = min (expect - length got) chunk in
      elim (Result-cases (round want expect rest (length got) (w.rounds (length got)))) [
        | inl (e, q) ↦
            let no : e.code ≢ ok_code =
              Fails-err (round want expect rest (length got) (w.rounds (length got))) e
                (round-Fails want expect rest (length got) (w.rounds (length got))) q in
            (
              (got, err e),
              rw (more, q),
              record { left = rest; whole = refl; short = h; fails = no; full = λ p. cc p },
            )
        | inr ((bytes, left), q) ↦
            let v : IsChunk want rest (bytes, left) =
              round-IsChunk want expect rest (length got) (w.rounds (length got)) (bytes, left)
                (omega (arith, less)) q in
            let n : length (got ++ bytes) ≡ length got + length bytes = length-append got bytes in
            let (out, e, r) =
              receive-IsReceived fuel expect w left (got ++ bytes)
                (omega (arith, n, v.within, less)) (omega (arith, n, v.some_byte, f)) in
            let same : (got ++ bytes) ++ left ≡ got ++ rest =
              append_assoc got bytes left ∙ ap (λ xs. got ++ xs) v.whole in
            (out, rw (more, q) e, rw (← same) r)
      ]
]

-- `receive_data` ends within as many rounds as bytes are expected.
pub receive_data-IsReceived :
    (expect : ℕ) (w : World) (rest : Bytes) → Received expect rest (receive_data expect w rest)
unfolding receive_data
receive_data-IsReceived expect w rest =
    receive-IsReceived expect expect w rest [] (omega arith) (omega arith)
