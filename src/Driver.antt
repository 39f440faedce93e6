-- ===== src/Driver.antt =====
-- The transport over a network, crates/kuula-net/src/transport.rs: the driver thread and the channels
-- between it and the cart's link. Endpoints, listeners, joins and sessions (crates/kuula-net/src/lib.rs,
-- over a QUIC library) are the operations of Nets. One round of the driver's loop is one step; the
-- link's calls come between rounds. The text for diagnostics is left out, and so is what dropping a
-- session, a listener or a network does to the world.
pub mod Rounds
pub mod Lines
pub mod Order
pub mod Roles
pub mod Held
pub mod Teardown
mod Tests
use kuula.Prelude.{
  ℕ, ◌+◌, Bool, true, false, ◌&&◌, ◌||◌, not, Option, none, some, List, [], ◌∷◌, ◌++◌, ltb, leb,
  length, take, drop, if◌then◌else◌,
}
use kuula.Prelude.Bytes.{Bytes, codes}
use kuula.Prelude.Result.{Result, ok, err}
use kuula.Wire.Play.{Code}
use kuula.Net.{Command, Event, FailCode, Reason, failure, inbox_cap}
use kuula.Session.{NetError, Event as SessionEvent}

abbrev pub backlog : ℕ
backlog = inbox_cap

abbrev pub stalled_cap : ℕ
stalled_cap = backlog

unfoldable pub fail_code : Code → FailCode
fail_code Code.disabled = FailCode.disabled
fail_code Code.no_address = FailCode.no_address
fail_code Code.ticket = FailCode.ticket
fail_code Code.connect = FailCode.connect
fail_code Code.protocol_mismatch = FailCode.protocol_mismatch
fail_code Code.handshake_failed = FailCode.handshake
fail_code Code.frame_failed = FailCode.frame
fail_code Code.timeout = FailCode.timeout
fail_code Code.busy = FailCode.busy
fail_code Code.cancelled = FailCode.cancelled
fail_code Code.queue_full = FailCode.queue_full

unfoldable pub failed : NetError → Event
unfolding fail_code
failed e = failure (fail_code e.code) e.detail

unfoldable pub is_queue_full : Code → Bool
is_queue_full Code.queue_full = true
is_queue_full _ = false

-- What the driver calls, over the state of the network.
pub record Nets : Type 1 where
  pub World : Type 0
  pub Net : Type 0
  pub Listener : Type 0
  pub Joining : Type 0
  pub Session : Type 0
  pub build : World → Result NetError Net × World
  pub listen : Net → World → Result NetError Listener × World
  pub ticket : Listener → Bytes
  pub join_start : Net → Bytes → World → Result NetError Joining × World
  pub poll_joining : Joining → World → Option (Result NetError Session) × World
  pub try_accept : Listener → World → Result NetError (Option Session) × World
  pub rearm : Listener → World → Result NetError (Unit {0}) × World
  pub try_send_data : Session → Bytes → World → Result NetError (Unit {0}) × World
  pub try_recv : Session → World → Result NetError (Option SessionEvent) × World
  pub close : Session → World → World

module _ (nets : Nets) where
  -- `queue` and `cmds` are the channels to and from the link, and `hung_up` says that the link has
  -- dropped its ends. `emitted` keeps what was reported, for the theorems.
  pub record Driver : Type 0 where
    pub net : Option nets.Net
    pub listener : Option nets.Listener
    pub joining : Option nets.Joining
    pub session : Option nets.Session
    pub stalled : List Event
    pub queue : List Event
    pub cmds : List Command
    pub hung_up : Bool
    pub emitted : List Event
    pub world : nets.World

abbrev pub is_some {ℓ} : {A : Type ℓ} → Option A → Bool
is_some none = false
is_some (some a) = true

-- Past the cap the oldest of the waiting events goes.
unfoldable pub trimmed : List Event → List Event
trimmed es = if ltb stalled_cap (length es) then drop 1 es else es

-- `flush` on the waiting events: the channel, what still waits, and whether the link is there.
unfoldable pub flush_into : Bool → List Event → List Event → List Event × List Event × Bool
flush_into gone queue [] = (queue, [], true)
flush_into gone queue (e ∷ es) =
    let rest = flush_into gone (queue ++ e ∷ []) es in
    if gone
    then (queue, es, false)
    else if ltb (length queue) backlog
    then rest
    else (queue, e ∷ es, true)

module _ {nets : Nets} where
  unfoldable pub new : nets.World → Driver nets
  new w = record {
    net = none;
    listener = none;
    joining = none;
    session = none;
    stalled = [];
    queue = [];
    cmds = [];
    hung_up = false;
    emitted = [];
    world = w;
  }

  -- IrohTransport::push, IrohTransport::poll and IrohTransport::drop
  unfoldable pub push : Command → Driver nets → Driver nets
  push cmd d = if d.hung_up then d else record d { cmds = d.cmds ++ cmd ∷ [] }

  unfoldable pub poll : ℕ → Driver nets → List Event × Driver nets
  poll max d = (take max d.queue, record d { queue = drop max d.queue })

  unfoldable pub hang_up : Driver nets → Driver nets
  hang_up d = record d { hung_up = true; queue = [] }

  unfoldable pub flush : Driver nets → Driver nets × Bool
  unfolding flush_into
  flush d =
      let (queue, stalled, there) = flush_into d.hung_up d.queue d.stalled in
      (record d { queue = queue; stalled = stalled }, there)

  -- Behind what already waits, or into the channel.
  unfoldable pub put : List Event → Event → Driver nets → Driver nets × Bool
  unfolding trimmed
  put (s ∷ ss) e d = (record d { stalled = trimmed ((s ∷ ss) ++ e ∷ []) }, true)
  put [] e d =
      if d.hung_up
      then (d, false)
      else if ltb (length d.queue) backlog
      then (record d { queue = d.queue ++ e ∷ [] }, true)
      else (record d { stalled = e ∷ [] }, true)

  unfoldable pub emit : Event → Driver nets → Driver nets × Bool
  unfolding put
  emit e d = put d.stalled e (record d { emitted = d.emitted ++ e ∷ [] })

  -- `for e in events`, until the link is gone.
  unfoldable pub emit_all : List Event → Driver nets → Driver nets × Bool
  unfolding emit
  emit_all [] d = (d, true)
  emit_all (e ∷ es) d =
      let (d', there) = emit e d in let rest = emit_all es d' in if there then rest else (d', false)

  -- `listener`, `session` or `joining` is there.
  unfoldable pub is_busy : Driver nets → Bool
  is_busy d = is_some d.listener || is_some d.session || is_some d.joining

  unfoldable pub built :
      Result NetError nets.Net × nets.World → Driver nets → Driver nets × Result NetError nets.Net
  built (ok n, w) d = (record d { world = w; net = some n }, ok n)
  built (err e, w) d = (record d { world = w }, err e)

  unfoldable pub net_of : Option nets.Net → Driver nets → Driver nets × Result NetError nets.Net
  unfolding built
  net_of (some n) d = (d, ok n)
  net_of none d = built (nets.build d.world) d

  -- Driver::net
  unfoldable pub the_net : Driver nets → Driver nets × Result NetError nets.Net
  unfolding net_of
  the_net d = net_of d.net d

  unfoldable pub drop_net : Driver nets → Driver nets
  drop_net d = record d { net = none }

  -- The arm of `Host`, with what the listener's start comes to.
  unfoldable pub started :
      Result NetError nets.Listener × nets.World → Driver nets → Driver nets × Bool
  unfolding emit drop_net failed
  started (ok l, w) d =
      emit (Event.hosting (nets.ticket l)) (record d { world = w; listener = some l })
  started (err e, w) d = emit (failed e) (drop_net (record d { world = w }))

  unfoldable pub host_on : Driver nets × Result NetError nets.Net → Driver nets × Bool
  unfolding started
  host_on (d, err e) = started (err e, d.world) d
  host_on (d, ok n) = started (nets.listen n d.world) d

  unfoldable pub host : Driver nets → Driver nets × Bool
  unfolding the_net host_on
  host d = host_on (the_net d)

  unfoldable pub joined :
      Result NetError nets.Joining × nets.World → Driver nets → Driver nets × Bool
  unfolding emit drop_net failed
  joined (ok j, w) d = (record d { world = w; joining = some j }, true)
  joined (err e, w) d = emit (failed e) (drop_net (record d { world = w }))

  unfoldable pub join_on : Bytes → Driver nets × Result NetError nets.Net → Driver nets × Bool
  unfolding joined
  join_on ticket (d, err e) = joined (err e, d.world) d
  join_on ticket (d, ok n) = joined (nets.join_start n ticket d.world) d

  unfoldable pub join : Bytes → Driver nets → Driver nets × Bool
  unfolding the_net join_on
  join ticket d = join_on ticket (the_net d)

  -- A send that fails but for a full queue is left to `pump`, which reports how the session went.
  unfoldable pub sent : Result NetError (Unit {0}) × nets.World → Driver nets → Driver nets × Bool
  unfolding emit failed is_queue_full
  sent (ok u, w) d = (record d { world = w }, true)
  sent (err e, w) d =
      if is_queue_full e.code
      then emit (failed e) (record d { world = w })
      else (record d { world = w }, true)

  unfoldable pub send_on : Option nets.Session → Bytes → Driver nets → Driver nets × Bool
  unfolding emit sent
  send_on none payload d = emit (failure FailCode.declined (codes "no session")) d
  send_on (some s) payload d = sent (nets.try_send_data s payload d.world) d

  unfoldable pub send : Bytes → Driver nets → Driver nets × Bool
  unfolding send_on
  send payload d = send_on d.session payload d

  unfoldable pub closed : Option nets.Session → Driver nets → nets.World
  closed none d = d.world
  closed (some s) d = nets.close s d.world

  -- The session is closed, and the rest is dropped.
  unfoldable pub leave : Driver nets → Driver nets
  unfolding closed
  leave d = record d {
    net = none;
    listener = none;
    joining = none;
    session = none;
    world = closed d.session d;
  }

  -- Driver::handle
  unfoldable pub handle : Command → Driver nets → Driver nets × Bool
  unfolding is_busy host join send leave emit
  handle Command.host d =
      if is_busy d then emit (failure FailCode.declined (codes "already hosting")) d else host d
  handle (Command.join ticket) d =
      if is_busy d
      then emit (failure FailCode.declined (codes "already joining")) d
      else join ticket d
  handle (Command.send payload) d = send payload d
  handle Command.leave d = (leave d, true)
