-- ===== src/Receiver/Reading.antt =====
-- `receive_data` of crates/kuula-net/src/deploy/receiver.rs: the package, chunk by chunk, and its end.
use kuula.Prelude.{
  ℕ, zero, suc, ◌+◌, ◌-◌, ◌*◌, min, Option, none, some, [], ◌∷◌, ◌++◌, ltb, length, take, drop,
  if◌then◌else◌,
}
use kuula.Prelude.Bytes.{Bytes}
use kuula.Prelude.Result.{Result, ok, err}
use kuula.Wire.Deploy.{DeployCode, offer, interrupted, install, cancelled}
use kuula.Receiver.{
  World, Why, Read, Round, stalled, failed, arrives, stop_asked, reads, no_data, ended_early,
  broken, broken_end, not_written, shutting_down, unfinished, trailing,
}

abbrev pub chunk : ℕ
chunk = 64 * 1024

-- A Refusal of this file.
pub record Failure : Type 0 where
  pub code : DeployCode
  pub why : Why

abbrev pub failure : DeployCode → Why → Failure
failure code why = record { code = code; why = why }

-- What is written to the file, and what stays on the stream.
abbrev pub Chunk : Type 0
Chunk = Bytes × Bytes

unfoldable pub written : Option Bytes → Chunk → Result Failure Chunk
written none c = ok c
written (some why) c = err (failure install (not_written why))

-- `recv.read(&mut buf[..want])` under its deadline.
unfoldable pub read_chunk : ℕ → ℕ → Bytes → ℕ → Read → Result Failure Chunk
read_chunk want expect rest got stalled = err (failure interrupted (no_data got expect))
read_chunk want expect rest got (failed why) = err (failure interrupted (broken got expect why))
read_chunk want expect [] got (arrives n) = err (failure interrupted (ended_early got expect))
read_chunk want expect (b ∷ bs) got (arrives n) =
    ok (take (min (n + 1) want) (b ∷ bs), drop (min (n + 1) want) (b ∷ bs))

unfoldable pub round : ℕ → ℕ → Bytes → ℕ → Round → Result Failure Chunk
unfolding read_chunk written
round want expect rest got stop_asked = err (failure cancelled shutting_down)
round want expect rest got (reads r why) = elim (read_chunk want expect rest got r) [
  | err e ↦ err e
  | ok c ↦ written why c
]

-- The read past the package: the stream has ended.
unfoldable pub at_end : Bytes → Read → Result Failure (Unit {0})
at_end rest stalled = err (failure interrupted unfinished)
at_end rest (failed why) = err (failure interrupted (broken_end why))
at_end [] (arrives n) = ok tt
at_end (b ∷ bs) (arrives n) = err (failure offer trailing)

-- The bytes of the file, and how the reading ended. `none` means that the fuel ran out.
unfoldable pub receive : ℕ → ℕ → World → Bytes → Bytes → Option (Bytes × Result Failure (Unit {0}))
unfolding round at_end
receive zero expect w rest got =
    if ltb (length got) expect then none else some (got, at_end rest w.last)
receive (suc fuel) expect w rest got =
    let next : Option (Bytes × Result Failure (Unit {0})) =
      elim (round (min (expect - length got) chunk) expect rest (length got)
        (w.rounds (length got))) [
          | err e ↦ some (got, err e)
          | ok (bytes, left) ↦ receive fuel expect w left (got ++ bytes)
        ] in
    if ltb (length got) expect then next else some (got, at_end rest w.last)

-- receive_data: a round takes at least one byte.
unfoldable pub receive_data : ℕ → World → Bytes → Option (Bytes × Result Failure (Unit {0}))
unfolding receive
receive_data expect w rest = receive expect expect w rest []
