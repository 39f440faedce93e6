-- ===== src/Driver/Rounds.antt =====
-- `pump`, `finish` and the loop of `run` of crates/kuula-net/src/transport.rs.
use kuula.Prelude.{
  ℕ, zero, suc, Bool, true, false, Option, none, some, List, [], ◌∷◌, ◌++◌, if◌then◌else◌,
}
use kuula.Prelude.Result.{Result, ok, err}
use kuula.Net.{Command, Event, Reason}
use kuula.Session.{NetError, text_of, data_of, peer_closed, peer_lost, error, Event as SessionEvent}
use kuula.Driver.{
  Nets, Driver, backlog, failed, push, poll, hang_up, flush, emit, emit_all, handle, leave,
  drop_net,
}

-- How the reading of the session stops: it is quiet or the backlog full, the link is gone, or the
-- session ended with these reports.
pub data Reading : Type 0 where
  quiet link_gone : Reading
  ended : List Event → Reading

unfoldable pub is_nil {ℓ} : {A : Type ℓ} → List A → Bool
is_nil [] = true
is_nil (x ∷ xs) = false

module _ {nets : Nets} where
  -- After a message: it waits, or the reading goes on.
  unfoldable pub went_on :
      (Driver nets → Driver nets × Reading) → Driver nets × Bool → Driver nets × Reading
  unfolding is_nil
  went_on again (d, false) = (d, link_gone)
  went_on again (d, true) = elim (is_nil d.stalled) [ true ↦ again d | false ↦ (d, quiet) ]

  -- An event of the session, and then the further reading `again`.
  unfoldable pub on_event :
      (Driver nets → Driver nets × Reading) → SessionEvent → Driver nets → Driver nets × Reading
  unfolding emit failed went_on
  on_event again (data_of payload) d = went_on again (emit (Event.message 1 payload) d)
  on_event again (text_of t) d = again d
  on_event again peer_closed d = (d, ended (Event.disconnected Reason.left ∷ []))
  on_event again (peer_lost why) d = (d, ended (Event.disconnected Reason.lost ∷ []))
  on_event again (error e) d = (d, ended (failed e ∷ Event.disconnected Reason.lost ∷ []))

  unfoldable pub on_recv :
      (Driver nets → Driver nets × Reading)
      → Result NetError (Option SessionEvent)
      → Driver nets
      → Driver nets × Reading
  unfolding on_event
  on_recv again (err e) d = (d, ended (Event.disconnected Reason.lost ∷ []))
  on_recv again (ok none) d = (d, quiet)
  on_recv again (ok (some e)) d = on_event again e d

  unfoldable pub received :
      (Driver nets → Driver nets × Reading)
      → Result NetError (Option SessionEvent) × nets.World
      → Driver nets
      → Driver nets × Reading
  unfolding on_recv
  received again (r, w) d = on_recv again r (record d { world = w })

  unfoldable pub read_from :
      (Driver nets → Driver nets × Reading)
      → Option nets.Session
      → Driver nets
      → Driver nets × Reading
  unfolding received
  read_from again none d = (d, quiet)
  read_from again (some s) d = received again (nets.try_recv s d.world) d

  -- `for _ in 0..BACKLOG`
  unfoldable pub read_session : ℕ → Driver nets → Driver nets × Reading
  unfolding read_from
  read_session zero d = (d, quiet)
  read_session (suc n) d = read_from (read_session n) d.session d

  -- The end of a listener that cannot go on.
  unfoldable pub rearmed : Result NetError (Unit {0}) → Driver nets → Driver nets
  rearmed (ok u) d = d
  rearmed (err e) d = record d { listener = none; net = none }

  -- What follows the reports of an end: a host listens on, a joiner's network goes.
  unfoldable pub after_end : Option nets.Listener → Driver nets → Driver nets
  unfolding rearmed drop_net
  after_end none d = drop_net d
  after_end (some l) d =
      rearmed (nets.rearm l d.world).0 (record d { world = (nets.rearm l d.world).1 })

  unfoldable pub on_reading : Driver nets × Reading → Driver nets × Bool
  unfolding emit_all after_end
  on_reading (d, quiet) = (d, true)
  on_reading (d, link_gone) = (d, false)
  on_reading (d, ended events) =
      let (d', there) = emit_all events (record d { session = none }) in
      if there then (after_end d'.listener d', true) else (d', false)

  unfoldable pub read_on : Driver nets → Driver nets × Bool
  unfolding on_reading
  read_on d = on_reading (read_session backlog d)

  -- What a listener that is asked has: nothing, a session, or a joiner that failed, after which it is
  -- made ready before the failure is reported. `true` where the round goes on.
  unfoldable pub accepted :
      nets.Listener → Result NetError (Option nets.Session) → Driver nets → Driver nets × Bool
  unfolding emit failed rearmed read_on
  accepted l (ok none) d = read_on d
  accepted l (ok (some s)) d = emit (Event.connected 1) (record d { session = some s })
  accepted l (err e) d =
      let (d', there) = emit (failed e) (record d { world = (nets.rearm l d.world).1 }) in
      if there then read_on (rearmed (nets.rearm l d.world).0 d') else (d', false)

  unfoldable pub accept_on :
      Option nets.Session → Option nets.Listener → Driver nets → Driver nets × Bool
  unfolding accepted read_on
  accept_on (some s) l d = read_on d
  accept_on none none d = read_on d
  accept_on none (some l) d =
      accepted l (nets.try_accept l d.world).0 (record d { world = (nets.try_accept l d.world).1 })

  unfoldable pub accept : Driver nets → Driver nets × Bool
  unfolding accept_on
  accept d = accept_on d.session d.listener d

  unfoldable pub on_join : Option (Result NetError nets.Session) → Driver nets → Driver nets × Bool
  unfolding emit failed accept
  on_join none d = accept d
  on_join (some (ok s)) d = emit (Event.connected 1) (record d { joining = none; session = some s })
  on_join (some (err e)) d = emit (failed e) (record d { joining = none; net = none })

  unfoldable pub pump_on : Option nets.Joining → Driver nets → Driver nets × Bool
  unfolding on_join accept
  pump_on none d = accept d
  pump_on (some j) d =
      on_join (nets.poll_joining j d.world).0 (record d { world = (nets.poll_joining j d.world).1 })

  -- Driver::pump
  unfoldable pub pump : Driver nets → Driver nets × Bool
  unfolding pump_on is_nil
  pump d = elim (is_nil d.stalled) [ false ↦ (d, true) | true ↦ pump_on d.joining d ]

  -- The commands that wait, one after the other; `false` where the link is gone.
  unfoldable pub handle_all : List Command → Driver nets → Driver nets × Bool
  unfolding handle
  handle_all [] d = (d, true)
  handle_all (cmd ∷ cmds) d =
      let (d', there) = handle cmd (record d { cmds = cmds }) in
      let rest = handle_all cmds d' in if there then rest else (d', false)

  -- `finish` drops all that `Leave` drops, after the loop has ended.
  unfoldable pub finish : Driver nets → Driver nets
  unfolding leave
  finish d = leave d

  -- What follows the wait for commands: an empty channel whose link hung up ends the loop.
  unfoldable pub served : Driver nets × Bool → Driver nets × Bool
  unfolding pump
  served (d, there) = if there then pump d else (d, false)

  unfoldable pub commanded : List Command → Driver nets → Driver nets × Bool
  unfolding handle_all served pump
  commanded [] d = if d.hung_up then (d, false) else pump d
  commanded (cmd ∷ cmds) d = served (handle_all (cmd ∷ cmds) d)

  unfoldable pub flushed : Driver nets × Bool → Driver nets × Bool
  unfolding commanded
  flushed (d, there) = if there then commanded d.cmds d else (d, false)

  unfoldable pub ending : Driver nets × Bool → Driver nets × Bool
  unfolding finish
  ending (d, on) = if on then (d, true) else (finish d, false)

  -- One round of `run`. `false` says that the loop has ended and everything was dropped.
  unfoldable pub round : Driver nets → Driver nets × Bool
  unfolding flush flushed ending
  round d = ending (flushed (flush d))

-- The link's calls, and rounds of the driver, in any order. After the loop has ended there is no round.
pub data Op : Type 0 where
  pushes : Command → Op
  polls : ℕ → Op
  hangs_up rounds : Op

module _ {nets : Nets} where
  -- The driver, whether it still runs, and what the link has polled.
  unfoldable pub step : Op → Driver nets × Bool × List Event → Driver nets × Bool × List Event
  unfolding push poll hang_up round
  step (pushes cmd) (d, runs, got) = (push cmd d, runs, got)
  step (polls max) (d, runs, got) = let (es, d') = poll max d in (d', runs, got ++ es)
  step hangs_up (d, runs, got) = (hang_up d, runs, got)
  step rounds (d, runs, got) =
      if runs then (let (d', on) = round d in (d', on, got)) else (d, false, got)

  unfoldable pub steps : List Op → Driver nets × Bool × List Event → Driver nets × Bool × List Event
  unfolding step
  steps [] s = s
  steps (o ∷ ops) s = steps ops (step o s)
