-- ===== src/Net/Memory.antt =====
-- `MemoryTransport` of crates/kuula-core/src/net/memory.rs: two transports over one hub, each a handle
-- into it. The poll counters are u64 that do not reach their limit.
pub mod Sides
mod Tests
use kuula.Prelude.{
  ℕ, zero, suc, ◌+◌, ◌-◌, Bool, true, false, ◌&&◌, ◌||◌, not, Option, none, some, List, [], ◌∷◌,
  ◌++◌, ltb, leb, length, ◌==◌, if◌then◌else◌,
}
use kuula.Prelude.Bytes.{Bytes, codes, same_bytes}
use kuula.Net.{Command, Event, FailCode, Reason, failure, inbox_cap}
use kuula.Net.Link.{Transport}

pub data SideStatus : Type 0 where
  off hosting connected : SideStatus

pub record Side : Type 0 where
  pub status : Option SideStatus
  pub host : Bool
  pub queue : List (ℕ × Event)
  pub messages : ℕ
  pub polls : ℕ
  pub alive : Bool

-- Side::after_peer
unfoldable pub after_peer : Side → SideStatus
after_peer s = if s.host then hosting else off

-- Side::clear
unfoldable pub clear : Side → Side
clear s = record s { queue = []; messages = 0 }

-- The two indexes of `sides`.
pub data End : Type 0 where
  first second : End

unfoldable pub other : End → End
other first = second
other second = first

pub record Hub : Type 0 where
  pub sides : End → Side
  pub delay : ℕ
  pub capacity : ℕ

abbrev same_end : End → End → Bool
same_end first first = true
same_end second second = true
same_end first second = false
same_end second first = false

abbrev pub update : End → Side → (End → Side) → End → Side
update me s sides e = if same_end me e then s else sides e

-- A change of one side of the hub.
unfoldable pub modify : End → (Side → Side) → Hub → Hub
modify me f hub = record hub { sides = update me (f (hub.sides me)) hub.sides }

abbrev fresh : Side
fresh = record {
  status = some off;
  host = false;
  queue = [];
  messages = 0;
  polls = 0;
  alive = true;
}

-- The hub of `MemoryTransport::pair`, and its two knobs.
abbrev pub pair : Hub
pair = record { sides = λ e. fresh; delay = 0; capacity = inbox_cap }

unfoldable pub set_delay : ℕ → Hub → Hub
set_delay polls hub = record hub { delay = polls }

unfoldable pub set_capacity : ℕ → Hub → Hub
set_capacity n hub = record hub { capacity = n }

abbrev pub is_message : Event → Bool
is_message (Event.message n payload) = true
is_message _ = false

abbrev is_disconnected : Event → Bool
is_disconnected (Event.disconnected reason) = true
is_disconnected _ = false

-- `deliver` on the side it delivers to, once there is room.
append : ℕ → Event → Side → Side
append delay e s = record s {
  messages = if is_message e then s.messages + 1 else s.messages;
  queue = s.queue ++ (s.polls + delay, e) ∷ [];
}

-- Hub::deliver: a full queue takes the end of a session, in place of what it holds, and nothing else.
deliver_to : ℕ → Event → Side → Side
unfolding append clear
deliver_to delay e s =
    if leb inbox_cap (length s.queue)
    then (if is_disconnected e then append delay e (clear s) else s)
    else append delay e s

unfoldable pub deliver : End → Event → Hub → Hub
unfolding deliver_to
deliver to e hub = modify to (deliver_to hub.delay e) hub

abbrev set_status : SideStatus → Side → Side
set_status status s = record s { status = some status }

-- `status.unwrap_or(SideStatus::Off)`
abbrev status_of : Side → SideStatus
status_of s = elim s.status [ none ↦ off | some status ↦ status ]

abbrev pub is_connected : Option SideStatus → Bool
is_connected (some connected) = true
is_connected (some off) = false
is_connected (some hosting) = false
is_connected none = false

abbrev is_hosting : Option SideStatus → Bool
is_hosting (some hosting) = true
is_hosting (some off) = false
is_hosting (some connected) = false
is_hosting none = false

abbrev is_off : SideStatus → Bool
is_off off = true
is_off hosting = false
is_off connected = false

abbrev pub memory_ticket : Bytes
memory_ticket = codes "memory:pair"

join_arm : End → Bytes → Hub → Hub
join_arm me t hub =
    if (if same_bytes t memory_ticket then false else true)
    then deliver me (failure FailCode.ticket (codes "not a memory ticket")) hub
    else if (if (hub.sides (other me)).alive then false else true)
        || (if is_hosting (hub.sides (other me)).status then false else true)
    then deliver me (failure FailCode.connect (codes "no host is listening")) hub
    else deliver (other me) (Event.connected 1) (
        deliver me (Event.connected 1)
          (modify (other me) (set_status connected) (modify me (set_status connected) hub)))

send_arm : End → Bytes → Hub → Hub
send_arm me payload hub =
    if (if is_connected (some (status_of (hub.sides me))) then false else true)
    then deliver me (failure FailCode.declined (codes "no session")) hub
    else if leb inbox_cap (length (hub.sides (other me)).queue)
        || leb hub.capacity (hub.sides (other me)).messages
    then deliver me (failure FailCode.queue_full (codes "the peer's queue is full")) hub
    else deliver (other me) (Event.message 1 payload) hub

host_arm : End → Hub → Hub
host_arm me hub =
    if (if is_off (status_of (hub.sides me)) then false else true)
    then deliver me (failure FailCode.declined (codes "already hosting")) hub
    else deliver me (Event.hosting memory_ticket)
        (modify me (λ s. record s { status = some hosting; host = true }) hub)

-- The other side of a session that ends: it is told why and goes back to what it was.
hang_up : End → Reason → Hub → Hub
hang_up to reason hub =
    let hub' = deliver to (Event.disconnected reason) hub in
    modify to (λ s. set_status (after_peer s) s) hub'

leave_arm : End → Hub → Hub
leave_arm me hub =
    let hub' =
      if is_connected (some (status_of (hub.sides me)))
      then hang_up (other me) Reason.left hub
      else hub in
    modify me (λ s. clear (record s { status = some off; host = false })) hub'

-- Transport::push
unfoldable pub push : End → Command → Hub → Hub
unfolding host_arm join_arm send_arm leave_arm hang_up
push me Command.host hub = host_arm me hub
push me (Command.join t) hub = join_arm me t hub
push me (Command.send payload) hub = send_arm me payload hub
push me Command.leave hub = leave_arm me hub

-- The loop of `poll`: what is delivered, what stays, and the messages that still wait. `messages`
-- counts the queued ones, so the subtraction does not stop at 0.
unfoldable pub take_due : ℕ → ℕ → List (ℕ × Event) → ℕ → List Event × List (ℕ × Event) × ℕ
take_due zero polls queue messages = ([], queue, messages)
take_due (suc n) polls [] messages = ([], [], messages)
take_due (suc n) polls ((due, e) ∷ queue) messages =
    let (out, rest, left) =
      take_due n polls queue (if is_message e then messages - 1 else messages) in
    if ltb due polls then (e ∷ out, rest, left) else ([], (due, e) ∷ queue, messages)

-- Transport::poll
unfoldable pub poll : End → ℕ → Hub → List Event × Hub
poll me n hub =
    let s = hub.sides me in
    let (out, rest, left) = take_due n (s.polls + 1) s.queue s.messages in
    (out, modify me (λ s'. record s' { polls = s'.polls + 1; queue = rest; messages = left }) hub)

-- Drop::drop: the peer's status is set before it is told.
unfoldable pub drop : End → Hub → Hub
drop me hub =
    let hub' = modify me (λ s. record s { alive = false }) hub in
    let hub'' =
      if is_connected (hub'.sides me).status
      then (deliver (other me) (Event.disconnected Reason.lost)
          (modify (other me) (λ s. set_status (after_peer s) s) hub'))
      else hub' in
    modify me (set_status off) hub''

-- One end of the pair as a transport for a link; the pair exists before the link asks for it.
abbrev pub memory : End → Transport
memory me = record {
  Handle = End;
  World = Hub;
  make = λ hub. (me, hub);
  push = push;
  poll = poll;
  drop = drop;
}
