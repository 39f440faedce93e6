-- ===== src/Net/Link.antt =====
-- `Transport` and `Link` of crates/kuula-core/src/net.rs: the host's half of the network. A transport
-- is a handle into a world that its operations change, so that two transports may share one (the
-- pair of Net/Memory does). The factory closure is `make`, which changes the world too.
pub mod Gate
pub mod Runs
pub mod Closing
mod Tests
use kuula.Prelude.{
  ℕ, zero, suc, ◌+◌, ◌-◌, ◌≤◌, Bool, true, false, ◌&&◌, ◌||◌, Option, none, some, List, [], ◌∷◌,
  ◌++◌, ltb, leb, length, if◌then◌else◌,
}
use kuula.Prelude.Bytes.{Bytes, codes}
use kuula.Prelude.Result.{is_ok}
use kuula.Net.{Command, Event, FailCode, Reason, check_command, is_control, failure, pending_cap}

-- The trait's two calls, the factory that builds a transport, and what dropping one does.
pub record Transport : Type 1 where
  pub Handle : Type 0
  pub World : Type 0
  pub make : World → Handle × World
  pub push : Handle → Command → World → World
  pub poll : Handle → ℕ → World → List Event × World
  pub drop : Handle → World → World

-- What the trait documents: `poll` appends at most `max` events.
pub record Obeys (tr : Transport) : Type 0 where
  pub poll-le : (h : tr.Handle) (n : ℕ) (w : tr.World) → length (tr.poll h n w).0 ≤ n

module _ (tr : Transport) where
  open tr use {Handle, World}

  -- The link, with the world that its transport lives in. `factory` says whether there is one.
  pub record Link : Type 0 where
    pub transport : Option Handle
    pub factory : Bool
    pub permitted : Bool
    pub pending : List Event
    pub constructed : ℕ
    pub world : World

same : Bool → Bool → Bool
same true b = b
same false b = if b then false else true

abbrev one_session : Bytes
one_session = codes "one session per frame"

abbrev no_transport : Bytes
no_transport = codes "this host has no transport"

-- The events taken from the waiting ones, how many of them count, and what stays.
unfoldable pub take_pending : List Event → ℕ → ℕ → List Event × ℕ × List Event
take_pending [] room n = ([], n, [])
take_pending (e ∷ es) room n =
    let (out, m, rest) = take_pending es room (if is_control e then n else n + 1) in
    if (if is_control e then false else true) && leb room n
    then ([], n, e ∷ es)
    else (e ∷ out, m, rest)

module _ {tr : Transport} where
  -- Link::new and Link::offline
  unfoldable pub new : tr.World → Link tr
  new w = record {
    transport = none;
    factory = true;
    permitted = false;
    pending = [];
    constructed = 0;
    world = w;
  }

  unfoldable pub offline : tr.World → Link tr
  offline w = record {
    transport = none;
    factory = false;
    permitted = false;
    pending = [];
    constructed = 0;
    world = w;
  }

  unfoldable pub queue : Event → Link tr → Link tr
  unfolding is_control
  queue e l =
      if (if is_control e then false else true) && leb pending_cap (length l.pending)
      then l
      else record l { pending = l.pending ++ e ∷ [] }

  -- The transport is told to leave and then dropped.
  unfoldable pub close : Link tr → Link tr
  close l = elim l.transport [
    | none ↦ l
    | some h ↦ record l { transport = none; world = tr.drop h (tr.push h Command.leave l.world) }
  ]

  withdraw : Bool → Link tr → Link tr
  withdraw true l = l
  withdraw false l = let l' = close l in record l' { pending = [] }

  unfoldable pub set_permitted : Bool → Link tr → Link tr
  unfolding same withdraw
  set_permitted on l =
      if same on l.permitted
      then l
      else queue (Event.permission on) (withdraw on (record l { permitted = on }))

  -- `self.transport.as_mut().push(cmd)`, for the transport that is there.
  forward : Command → Link tr → Link tr
  forward cmd l = elim l.transport [
    | none ↦ l
    | some h ↦ record l { world = tr.push h cmd l.world }
  ]

  -- The arm of `Host` and `Join`: a transport is built if there is none, one for a frame.
  open_session : Command → Link tr × Bool → Link tr × Bool
  unfolding forward
  open_session cmd (l, built) = elim l.transport [
    | some h ↦ (forward cmd l, built)
    | none ↦
        if built
        then (queue (failure FailCode.declined one_session) l, built)
        else if l.factory
        then (let (h, w) = tr.make l.world in
            (
              forward cmd
                  (record l { transport = some h; world = w; constructed = l.constructed + 1 }),
              true,
            ))
        else (queue (failure FailCode.disabled no_transport) l, built)
  ]

  leave_session : Link tr → Link tr
  leave_session l = elim l.transport [
    | none ↦ l
    | some h ↦ queue (Event.disconnected Reason.closed) (close l)
  ]

  -- The `match` of the loop in `push`, on a command that passed its check.
  dispatch : Command → Link tr × Bool → Link tr × Bool
  unfolding open_session leave_session forward
  dispatch Command.leave (l, built) = (leave_session l, built)
  dispatch Command.host (l, built) =
      if l.permitted then open_session Command.host (l, built) else (l, built)
  dispatch (Command.join t) (l, built) =
      if l.permitted then open_session (Command.join t) (l, built) else (l, built)
  dispatch (Command.send p) (l, built) =
      if l.permitted then (forward (Command.send p) l, built) else (l, built)

  push_all : List Command → Link tr × Bool → Link tr × Bool
  unfolding dispatch
  push_all [] s = s
  push_all (cmd ∷ cmds) s = push_all cmds (if is_ok (check_command cmd) then dispatch cmd s else s)

  unfoldable pub push : List Command → Link tr → Link tr
  unfolding push_all
  push cmds l = (push_all cmds (l, false)).0

  unfoldable pub poll : ℕ → Link tr → List Event × Link tr
  poll room l =
      let (out, n, rest) = take_pending l.pending room 0 in
      let l' : Link tr = record l { pending = rest } in
      elim l.transport [
        | none ↦ (out, l')
        | some h ↦
            if ltb n room
            then (let (events, w) = tr.poll h (room - n) l.world in
                (out ++ events, record l' { world = w }))
            else (out, l')
      ]
