-- ===== src/Net/Link/Runs.antt =====
-- A link over its whole life, and the transports that it builds.
use kuula.Prelude.{ℕ, ◌+◌, ◌≤◌, refl, Bool, true, false, List, [], ◌∷◌, arith, if◌then◌else◌}
use kuula.Prelude.Result.{is_ok}
use kuula.Net.{Command, Event, FailCode, Reason, check_command, failure}
use kuula.Net.State.Bounds.{count_plain}
use kuula.Net.Link.{
  Transport, Link, new, close, set_permitted, forward, open_session, leave_session, dispatch,
  push_all, push, poll, one_session, no_transport,
}
use kuula.Net.Link.Gate.{
  IsGated, set_permitted-IsGated, push-IsGated, poll-IsGated, queue_keeps, close_keeps,
}

-- What a host does with its link.
pub data Op : Type 0 where
  permits : Bool → Op
  pushes : List Command → Op
  polls : ℕ → Op

bit : Bool → ℕ
bit true = 1
bit false = 0

bit-le : (b : Bool) → bit b ≤ 1
unfolding bit
bit-le true = omega arith
bit-le false = omega arith

module _ {tr : Transport} where
  unfoldable pub run : List Op → Link tr → Link tr
  run [] l = l
  run (permits on ∷ ops) l = run ops (set_permitted on l)
  run (pushes cmds ∷ ops) l = run ops (push cmds l)
  run (polls room ∷ ops) l = run ops (poll room l).1

  run-IsGated : (ops : List Op) (l : Link tr) → IsGated l → IsGated (run ops l)
  unfolding run
  run-IsGated [] l v = v
  run-IsGated (permits on ∷ ops) l v =
      run-IsGated ops (set_permitted on l) (set_permitted-IsGated on l v)
  run-IsGated (pushes cmds ∷ ops) l v = run-IsGated ops (push cmds l) (push-IsGated cmds l v)
  run-IsGated (polls room ∷ ops) l v = run-IsGated ops (poll room l).1 (poll-IsGated room l v)

  -- From a fresh link, however permission is granted and withdrawn and whatever is pushed and
  -- polled: without permission there is no transport and only control events wait, and never more
  -- than 256 events wait that are no control events.
  pub run-new-IsGated : (ops : List Op) (w : tr.World) → IsGated (run ops (new {tr = tr} w))
  unfolding new count_plain
  run-new-IsGated ops w =
      run-IsGated ops (new w)
        (record { closed = λ d. refl; silent = λ d. tt; bounded = omega arith })

  dispatch-constructed :
      (c : Command) (l : Link tr) (built : Bool)
      → (dispatch c (l, built)).0.constructed + bit built
        ≤ l.constructed + bit (dispatch c (l, built)).1
  unfolding dispatch open_session leave_session forward bit
  dispatch-constructed Command.leave l built =
      ground (arith, queue_keeps (Event.disconnected Reason.closed) (close l), close_keeps l)
  dispatch-constructed Command.host l built = ground (
    arith,
    queue_keeps (failure FailCode.declined one_session) l,
    queue_keeps (failure FailCode.disabled no_transport) l,
  )
  dispatch-constructed (Command.join t) l built = ground (
    arith,
    queue_keeps (failure FailCode.declined one_session) l,
    queue_keeps (failure FailCode.disabled no_transport) l,
  )
  dispatch-constructed (Command.send p) l built = ground arith

  checked :
      (fine : Bool) (c : Command) (s : Link tr × Bool)
      → (if fine then dispatch c s else s).0.constructed + bit s.1
        ≤ s.0.constructed + bit (if fine then dispatch c s else s).1
  checked true c (l, built) = dispatch-constructed c l built
  checked false c (l, built) = omega arith

  push_all-constructed :
      (cmds : List Command) (s : Link tr × Bool)
      → (push_all cmds s).0.constructed + bit s.1 ≤ s.0.constructed + bit (push_all cmds s).1
  unfolding push_all
  push_all-constructed [] s = omega arith
  push_all-constructed (c ∷ cmds) s =
      let fine : Bool = is_ok (check_command c) in
      omega (arith, checked fine c s, push_all-constructed cmds (if fine then dispatch c s else s))

  -- A frame's commands build at most one transport, however often they host, join and leave.
  pub constructed-push :
      (cmds : List Command) (l : Link tr) → (push cmds l).constructed ≤ l.constructed + 1
  unfolding push bit
  constructed-push cmds l =
      omega (arith, push_all-constructed cmds (l, false), bit-le (push_all cmds (l, false)).1)
