-- ===== src/Driver/Tests.antt =====
-- A network whose listener has a session at once and whose session gives the messages of a list: a host
-- that polls the start, the joiner and two messages.
use kuula.Prelude.{◌≡◌, refl, true, false, none, some, List, [], ◌∷◌, Option, length}
use kuula.Prelude.Bytes.{codes}
use kuula.Prelude.Result.{Result, ok}
use kuula.Net.{Command}
use kuula.Session.{NetError, data_of, Event as SessionEvent}
use kuula.Driver.{
  Nets, Driver, new, hang_up, push, flush, handle, host, the_net, host_on, started, emit, put,
}
use kuula.Driver.Rounds.{
  step, round, flushed, commanded, served, handle_all, pump, pump_on, accept, accept_on, accepted,
  read_on, read_session, Op, pushes, polls, rounds, steps,
}
use kuula.Driver.Order.{IsBounded, steps-IsBounded}
use kuula.Driver.Roles.{IsRole}
use kuula.Driver.Held.{steps-new-IsRole}
use kuula.Driver.Teardown.{IsDown, steps_end}

taken : List SessionEvent → Result NetError (Option SessionEvent) × List SessionEvent
taken [] = (ok none, [])
taken (e ∷ es) = (ok (some e), es)

abbrev two_messages : Nets
two_messages = record {
  World = List SessionEvent;
  Net = Unit;
  Listener = Unit;
  Joining = Unit;
  Session = Unit;
  build = λ w. (ok tt, w);
  listen = λ n w. (ok tt, w);
  ticket = λ l. codes "ticket";
  join_start = λ n t w. (ok tt, w);
  poll_joining = λ j w. (some (ok tt), w);
  try_accept = λ l w. (ok (some tt), w);
  rearm = λ l w. (ok tt, w);
  try_send_data = λ s b w. (ok tt, w);
  try_recv = λ s w. taken w;
  close = λ s w. w;
}

abbrev hosting : List Op
hosting = pushes Command.host ∷ rounds ∷ rounds ∷ polls 1 ∷ rounds ∷ polls 4 ∷ []

abbrev start : Driver two_messages
start = new {nets = two_messages} (data_of (1 ∷ []) ∷ data_of (2 ∷ 3 ∷ []) ∷ [])

steps-IsBounded_example : IsBounded (steps hosting (start, true, [])).0
steps-IsBounded_example =
    steps-IsBounded two_messages hosting (data_of (1 ∷ []) ∷ data_of (2 ∷ 3 ∷ []) ∷ [])

hosting_lem : length (steps hosting (start, true, [])).0.emitted ≡ 4
unfolding steps step push round flush flushed commanded served handle_all handle host the_net
    host_on started emit put pump pump_on accept accept_on accepted read_on read_session taken new
hosting_lem = refl

steps-new-IsRole_example : IsRole (steps hosting (start, true, [])).0
steps-new-IsRole_example =
    steps-new-IsRole two_messages hosting (data_of (1 ∷ []) ∷ data_of (2 ∷ 3 ∷ []) ∷ [])

abbrev gone : Driver two_messages
gone = hang_up (steps hosting (start, true, [])).0

steps_end_example :
    ((steps (rounds ∷ rounds ∷ []) (gone, true, [])).1 ≡ false)
    × IsDown (steps (rounds ∷ rounds ∷ []) (gone, true, [])).0
unfolding hang_up
steps_end_example = steps_end gone [] refl
