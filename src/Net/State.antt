-- ===== src/Net/State.antt =====
-- `NetState` of crates/kuula-core/src/net.rs: the cart's half of the network, driven by the events of
-- a frame and the cart's calls. The counters are u64 that do not reach their limit.
pub mod Roles
pub mod Bounds
pub mod Queues
pub mod Withdrawal
pub mod Used
mod Tests
use kuula.Prelude.{
  ℕ, zero, suc, ◌+◌, ◌-◌, min, Bool, true, false, ◌&&◌, ◌||◌, Option, none, some, List, [], ◌∷◌,
  ◌++◌, ltb, leb, length, if◌then◌else◌,
}
use kuula.Prelude.Bytes.{Bytes, codes}
use kuula.Net.{
  Command, Reason, FailCode, Event, is_control, failure, inbox_cap, max_batch, max_sends,
  max_commands,
}

pub data Status : Type 0 where
  off hosting joining connected ended : Status

pub record NetEnv : Type 0 where
  pub permitted : Bool
  pub invite : Option Bytes

pub record NetState : Type 0 where
  pub status : Status
  pub ticket : Option Bytes
  pub peer : Option ℕ
  pub permitted : Bool
  pub invite : Option Bytes
  pub inbox : List Event
  pub outbox : List Command
  pub admitted : List Event
  pub sent : ℕ
  pub received : ℕ
  pub dropped : ℕ
  pub remote_room : Option ℕ
  pub sends_this_frame : ℕ

unfoldable pub new : NetEnv → NetState
new env = record {
  status = off;
  ticket = none;
  peer = none;
  permitted = env.permitted;
  invite = env.invite;
  inbox = [];
  outbox = [];
  admitted = [];
  sent = 0;
  received = 0;
  dropped = 0;
  remote_room = none;
  sends_this_frame = 0;
}

unfoldable pub room : NetState → ℕ
room s = elim s.remote_room [
  | none ↦ min (inbox_cap - length s.inbox) max_batch
  | some r ↦ min r max_batch
]

-- `is_live` of a status: hosting, joining or connected.
unfoldable pub live : Status → Bool
live off = false
live ended = false
live hosting = true
live joining = true
live connected = true

unfoldable pub is_live : NetState → Bool
unfolding live
is_live s = live s.status

unfoldable pub used_link : NetState → Bool
used_link s = elim s.status [ off ↦ false | _ ↦ true ]

-- The status after a `Hosting` event.
abbrev after_hosting : Status → Status
after_hosting connected = connected
after_hosting _ = hosting

-- The status after a `Disconnected` event: `closed` answers a leave, and changes nothing.
abbrev after_disconnected : Reason → Option Bytes → Status → Status
after_disconnected Reason.closed ticket status = status
after_disconnected Reason.left (some t) status = hosting
after_disconnected Reason.left none status = ended
after_disconnected Reason.lost (some t) status = hosting
after_disconnected Reason.lost none status = ended

-- Whether a failure ends an attempt to host or to join.
abbrev is_attempt : Status → Option Bytes → Bool
is_attempt hosting none = true
is_attempt hosting (some t) = false
is_attempt joining ticket = true
is_attempt off ticket = false
is_attempt connected ticket = false
is_attempt ended ticket = false

abbrev after_failed : FailCode → NetState → NetState
after_failed FailCode.handshake s = record s { ticket = none; peer = none; status = ended }
after_failed _ s = if is_attempt s.status s.ticket then record s { status = ended } else s

abbrev after_withdrawal : Status → Status
after_withdrawal off = off
after_withdrawal _ = ended

unfoldable pub apply : Event → NetState → NetState
apply (Event.hosting t) s = record s { ticket = some t; status = after_hosting s.status }
apply (Event.connected n) s = record s { status = connected; peer = some n }
apply (Event.message n payload) s = record s { received = s.received + 1 }
apply (Event.disconnected reason) s = record s {
  peer = none;
  status = after_disconnected reason s.ticket s.status;
}
apply (Event.failed code detail) s = after_failed code s
apply (Event.permission true) s = record s { permitted = true }
apply (Event.permission false) s = record s {
  permitted = false;
  inbox = [];
  ticket = none;
  peer = none;
  status = after_withdrawal s.status;
}

-- The body of `admit`'s loop, after `apply`: an inbox that is full takes control events only.
unfoldable pub enqueue : Event → NetState → NetState
unfolding is_control
enqueue e s =
    if leb inbox_cap (length s.inbox) && (if is_control e then false else true)
    then record s { dropped = s.dropped + 1 }
    else record s { admitted = s.admitted ++ e ∷ []; inbox = s.inbox ++ e ∷ [] }

unfoldable pub admit : List Event → NetState → NetState
admit [] s = s
admit (e ∷ events) s = admit events (enqueue e (apply e s))

unfoldable pub begin_frame : List Event → NetState → NetState
begin_frame events s = admit events (record s { outbox = []; sends_this_frame = 0; admitted = [] })

-- Vec::pop, without the element.
abbrev pub pop_last {ℓ} : {A : Type ℓ} → List A → List A
pop_last [] = []
pop_last (x ∷ []) = []
pop_last (x ∷ y ∷ xs) = x ∷ pop_last (y ∷ xs)

unfoldable pub fail : FailCode → Bytes → NetState → NetState
fail code detail s =
    let s' = admit (failure code detail ∷ []) s in record s' { admitted = pop_last s'.admitted }

abbrev not_permitted : Bytes
not_permitted = codes "networking is not permitted"

abbrev already : Bytes
already = codes "already hosting, joining or connected"

abbrev too_many : Bytes
too_many = codes "too many commands this frame"

-- What `host` and `join` share: the guards, then the request.
request : Status → Command → NetState → NetState
unfolding is_live
request status command s =
    if (if s.permitted then false else true)
    then fail FailCode.denied not_permitted s
    else if is_live s
    then fail FailCode.declined already s
    else if leb max_commands (length s.outbox)
    then fail FailCode.declined too_many s
    else record s { status = status; ticket = none; outbox = s.outbox ++ command ∷ [] }

unfoldable pub host : NetState → NetState
unfolding request
host s = request hosting Command.host s

unfoldable pub join : Bytes → NetState → NetState
unfolding request
join t s = request joining (Command.join t) s

-- Whether the state is connected.
abbrev pub is_connected : Status → Bool
is_connected connected = true
is_connected _ = false

unfoldable pub send : Bytes → NetState → NetState × Bool
send payload s =
    if (if is_connected s.status then false else true)
    then (s, false)
    else if leb max_sends s.sends_this_frame || leb max_commands (length s.outbox)
    then (record s { dropped = s.dropped + 1 }, false)
    else (
      record s {
        sends_this_frame = s.sends_this_frame + 1;
        sent = s.sent + 1;
        outbox = s.outbox ++ Command.send payload ∷ [];
      },
      true,
    )

unfoldable pub leave : NetState → NetState
unfolding is_live
leave s = if (if is_live s then false else true) then s else record s {
  status = ended;
  ticket = none;
  peer = none;
  outbox = if ltb (length s.outbox) max_commands then s.outbox ++ Command.leave ∷ [] else s.outbox;
}

unfoldable pub recv : NetState → NetState × Option Event
recv s = elim s.inbox [ [] ↦ (s, none) | e ∷ rest ↦ (record s { inbox = rest }, some e) ]

-- What a cart calls during a frame, and what the host does at the top of one.
pub data Op : Type 0 where
  frame : List Event → Op
  hosts leaves receives : Op
  joins sends : Bytes → Op

unfoldable pub step : Op → NetState → NetState
step (frame events) s = begin_frame events s
step hosts s = host s
step (joins t) s = join t s
step (sends payload) s = (send payload s).0
step leaves s = leave s
step receives s = (recv s).0

unfoldable pub steps : List Op → NetState → NetState
steps [] s = s
steps (o ∷ ops) s = steps ops (step o s)
