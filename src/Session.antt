-- ===== src/Session.antt =====
-- The main loop of a play session, crates/kuula-net/src/session.rs. A turn of its biased select is a
-- function of what the world answers in it: whether the caller aborts, how a write to the stream
-- goes, and whether the caller's channel of events has room. The frames that the reader has queued and
-- the commands of the caller are lists, to which every turn may bring more before it is taken: a turn
-- whose queue of frames is empty serves a command, and frames may come after it. What was written,
-- delivered and measured is kept in order.
-- The time that a ping took is left to the caller's clock.
pub mod Turns
pub mod Delivery
pub mod Ending
mod Tests
use kuula.Prelude.{
  ℕ, zero, suc, ◌+◌, ◌*◌, Bool, true, false, Option, none, some, List, [], ◌∷◌, ◌++◌, ◌==◌, length,
  if◌then◌else◌,
}
use kuula.Prelude.Bytes.{Bytes, codes}
use kuula.Prelude.Result.{Result, ok, err}
use kuula.Wire.Play.{
  Frame, ping, pong, text, bye, cart_data, encode, Code, timeout, busy, protocol_mismatch, connect,
}

-- A NetError: its code, and its detail as text.
pub record NetError : Type 0 where
  pub code : Code
  pub detail : Bytes

pub data Event : Type 0 where
  text_of data_of : Bytes → Event
  peer_closed : Event
  peer_lost : Bytes → Event
  error : NetError → Event

-- An encoded frame, a request to time a ping, and the goodbye.
pub data Cmd : Type 0 where
  send : Bytes → Cmd
  time_ping leave : Cmd

pub data End : Type 0 where
  closed local : End
  lost : Bytes → End
  fault : NetError → End

pub data Inbound : Type 0 where
  inbound : Frame → Inbound
  ended : End → Inbound

pub data Outcome : Type 0 where
  close : ℕ → Option Event → Outcome
  report : Event → Outcome

-- The codes of `proto::close`.
abbrev pub code_bye : ℕ
code_bye = 0

abbrev pub code_busy : ℕ
code_busy = 1

abbrev pub code_protocol : ℕ
code_protocol = 2

abbrev pub code_timeout : ℕ
code_timeout = 3

abbrev pub code_shutdown : ℕ
code_shutdown = 4

-- The ends of a connection that the code tells apart, and the text of the others.
pub data Gone : Type 0 where
  application_closed : ℕ → Bytes → Gone
  no_application_protocol locally_closed timed_out : Gone
  other : Bytes → Gone

-- How a write under its deadline goes, and how the caller's channel takes an event.
pub data Wrote : Type 0 where
  fine closed_stream too_slow : Wrote
  connection_lost : Gone → Wrote
  failed : Bytes → Wrote

pub data Room : Type 0 where
  accepted full gone : Room

abbrev new_error : Code → Bytes → NetError
new_error code detail = record { code = code; detail = detail }

-- The text of a close with another code, which is formatted from the code and the reason.
unfoldable pub connection_end : (ℕ → Bytes → Bytes) → Gone → End
connection_end format (application_closed code reason) =
    if code == code_bye
    then closed
    else if code == code_busy
    then fault (new_error busy (codes "the listener is busy"))
    else lost (format code reason)
connection_end format no_application_protocol =
    fault (new_error protocol_mismatch (codes "the peer does not speak kuula/play/1"))
connection_end format locally_closed = local
connection_end format timed_out = lost (codes "the peer stopped answering")
connection_end format (other why) = lost why

-- The code that a fault closes with.
unfoldable pub fault_code : Code → ℕ
fault_code timeout = code_timeout
fault_code busy = code_shutdown
fault_code _ = code_protocol

unfoldable pub outcome_of : End → Outcome
unfolding fault_code
outcome_of closed = close code_bye (some peer_closed)
outcome_of (lost why) = report (peer_lost why)
outcome_of (fault e) = close (fault_code e.code) (some (error e))
outcome_of local = close code_shutdown none

-- The function `net_error`, for a connection that ends before there is a session.
unfoldable pub net_error : End → NetError
net_error closed = new_error connect (codes "the peer closed during the handshake")
net_error (lost why) = new_error connect why
net_error (fault e) = e
net_error local = new_error connect (codes "closed")

pub record Loop : Type 0 where
  pub next_nonce : ℕ
  pub pending : Option ℕ
  pub stalled : Option Event
  pub inbound : List Inbound
  pub cmds : List Cmd
  pub written : List Bytes
  pub delivered : List Event
  pub measured : List ℕ

-- What the world answers in a turn. `arrived` and `called` are what the reader and the caller have queued
-- since the turn before; `reader_gone` and `callers_gone` say that an empty queue is closed.
pub record World : Type 0 where
  pub arrived : List Inbound
  pub called : List Cmd
  pub aborted : Option (Option NetError)
  pub wrote : Wrote
  pub room : Room
  pub reader_gone : Bool
  pub callers_gone : Bool
  pub format : ℕ → Bytes → Bytes

-- write
unfoldable pub write : World → Option Outcome
unfolding connection_end outcome_of
write w = elim w.wrote [
  | fine ↦ none
  | closed_stream ↦ some (outcome_of local)
  | connection_lost c ↦ some (outcome_of (connection_end w.format c))
  | failed why ↦ some (outcome_of (lost why))
  | too_slow ↦ some (
      close code_timeout (some (error (new_error timeout (codes "the peer took no data for 5 s")))))
]

-- A frame that always encodes.
unfoldable pub frame_bytes : Frame → Bytes
unfolding encode
frame_bytes f = elim (encode f) [ ok bytes ↦ bytes | err e ↦ [] ]

-- `if let Some(o) = write(..).await { break o; }`, and then what follows.
unfoldable pub write_then : World → Bytes → Loop → Loop × Option Outcome
unfolding write
write_then w bytes l = elim (write w) [
  | some o ↦ (l, some o)
  | none ↦ (record l { written = l.written ++ bytes ∷ [] }, none)
]

-- `events.try_send`
unfoldable pub deliver : World → Event → Loop → Loop × Option Outcome
deliver w e l = elim w.room [
  | accepted ↦ (record l { delivered = l.delivered ++ e ∷ [] }, none)
  | full ↦ (record l { stalled = some e }, none)
  | gone ↦ (l, some (close code_shutdown none))
]

unfoldable pub take_pong : ℕ → Loop → Loop
take_pong n l = elim l.pending [
  | none ↦ l
  | some nonce ↦
      if nonce == n then record l { pending = none; measured = l.measured ++ n ∷ [] } else l
]

-- The arm of the peer's frames.
unfoldable pub on_inbound : World → Inbound → Loop → Loop × Option Outcome
unfolding outcome_of write_then frame_bytes take_pong deliver
on_inbound w (inbound (ping n)) l = write_then w (frame_bytes (pong n)) l
on_inbound w (inbound (pong n)) l = (take_pong n l, none)
on_inbound w (inbound (text t)) l = deliver w (text_of t) l
on_inbound w (inbound (cart_data d)) l = deliver w (data_of d) l
on_inbound w (inbound bye) l = (l, some (outcome_of closed))
on_inbound w (ended e) l = (l, some (outcome_of e))

-- The arm of the commands.
unfoldable pub on_cmd : World → Cmd → Loop → Loop × Option Outcome
unfolding write_then frame_bytes
on_cmd w (send bytes) l = write_then w bytes l
on_cmd w time_ping l₀ =
    let n = l₀.next_nonce + 1 in
    let (l, o) = write_then w (frame_bytes (ping n)) (record l₀ { next_nonce = n }) in
    elim o [ some out ↦ (l, some out) | none ↦ (record l { pending = some n }, none) ]
on_cmd w leave l₀ =
    let (l, o) = write_then w (frame_bytes bye) l₀ in
    elim o [ some out ↦ (l, some out) | none ↦ (l, some (close code_bye none)) ]

unfoldable pub serve_cmd : World → Loop → Loop × Option Outcome
unfolding on_cmd
serve_cmd w l = elim l.cmds [
  | [] ↦ (l, if w.callers_gone then some (close code_shutdown none) else none)
  | c ∷ rest ↦ on_cmd w c (record l { cmds = rest })
]

-- One turn of the biased select: the abort, then the peer's frames, or the stalled event while there
-- is one, then the commands. A turn in which nothing is ready changes nothing.
unfoldable pub turn : World → Loop → Loop × Option Outcome
unfolding on_inbound serve_cmd
turn w l = elim w.aborted [
  | some (some e) ↦ (l, some (close code_timeout (some (error e))))
  | some none ↦ (l, some (close code_shutdown none))
  | none ↦ elim l.stalled [
    | some e ↦ elim w.room [
      | accepted ↦ (record l { stalled = none; delivered = l.delivered ++ e ∷ [] }, none)
      | gone ↦ (l, some (close code_shutdown none))
      | full ↦ serve_cmd w l
    ]
    | none ↦ elim l.inbound [
      | i ∷ rest ↦ on_inbound w i (record l { inbound = rest })
      | [] ↦ if w.reader_gone then (l, some (close code_shutdown none)) else serve_cmd w l
    ]
  ]
]

-- `in_tx.send` of the reader and `cmd_tx.send` of the caller, before a turn.
unfoldable pub take_in : World → Loop → Loop
take_in w l = record l { inbound = l.inbound ++ w.arrived; cmds = l.cmds ++ w.called }

-- The loop, over the worlds of its turns, of which the first is that of the most fuel.
unfoldable pub serve : ℕ → (ℕ → World) → Loop → Loop × Option Outcome
unfolding turn take_in
serve zero world l = (l, none)
serve (suc fuel) world l =
    let (l', o) = turn (world fuel) (take_in (world fuel) l) in
    let later = serve fuel world l' in elim o [ some out ↦ (l', some out) | none ↦ later ]

-- The event that an outcome ends with.
unfoldable pub last_event : Outcome → Option Event
last_event (close code e) = e
last_event (report e) = some e

-- `try_send` of the stalled event and the bounded `send` of the last one.
unfoldable pub push_event : Room → Option Event → List Event → List Event
push_event accepted (some e) events = events ++ e ∷ []
push_event accepted none events = events
push_event full e events = events
push_event gone e events = events

-- What follows the loop.
unfoldable pub finish : Room → Room → Outcome → Loop → Loop
unfolding push_event last_event
finish room_for_stalled room_for_end o l = record l {
  stalled = none;
  cmds = [];
  delivered =
      push_event room_for_end (last_event o) (push_event room_for_stalled l.stalled l.delivered);
}

-- No frame has come yet; `cmds` is what the caller has queued.
unfoldable pub start : List Cmd → Loop
start cmds = record {
  next_nonce = 0;
  pending = none;
  stalled = none;
  inbound = [];
  cmds = cmds;
  written = [];
  delivered = [];
  measured = [];
}

-- What comes in the turns that the fuel gives.
unfoldable pub arrivals : ℕ → (ℕ → World) → List Inbound
arrivals zero world = []
arrivals (suc fuel) world = (world fuel).arrived ++ arrivals fuel world

unfoldable pub calls : ℕ → (ℕ → World) → List Cmd
calls zero world = []
calls (suc fuel) world = (world fuel).called ++ calls fuel world
