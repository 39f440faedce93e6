-- ===== src/Session/Tests.antt =====
-- A peer that pings, sends two texts and goes on, and a caller that says goodbye without reading.
use kuula.Prelude.{
  ℕ, ◌+◌, ◌*◌, ◌≡◌, ◌≢◌, refl, true, false, none, some, List, [], ◌∷◌, ◌++◌, ◌≤◌, ◌==◌, get_elem?,
  if◌then◌else◌, arith, length,
}
use kuula.Prelude.Bytes.{codes}
use kuula.Wire.Play.{ping, text}
use kuula.Session.{
  Cmd, send, time_ping, leave, Inbound, inbound, close, World, accepted, full, fine, turn, serve,
  start, arrivals, calls, finish, on_inbound, on_cmd, serve_cmd, write_then, write, deliver,
}
use kuula.Session.Delivery.{IsReport, serve-IsReport}
use kuula.Session.Ending.{says_bye, serve-start_ends}

-- The fuel of a turn, and the frames that come before it: a command has been served by then.
abbrev frames_of : ℕ → List Inbound
frames_of turn_fuel =
    if turn_fuel == 7
    then inbound (ping 7) ∷ []
    else if turn_fuel == 6
    then inbound (text (codes "a")) ∷ inbound (text (codes "b")) ∷ []
    else []

abbrev busy_caller : ℕ → World
busy_caller n = record {
  arrived = frames_of n;
  called = [];
  aborted = none;
  wrote = fine;
  room = full;
  reader_gone = false;
  callers_gone = false;
  format = λ code reason. reason;
}

abbrev cmds : List Cmd
cmds = send (1 ∷ []) ∷ time_ping ∷ leave ∷ []

says_bye_lem : says_bye cmds ≡ true
unfolding says_bye
says_bye_lem = refl

enough : 2 * length (arrivals 9 busy_caller) + length (cmds ++ calls 9 busy_caller) ≤ 9
unfolding arrivals calls
enough = omega arith

serve-start_ends_example : (serve 9 busy_caller (start cmds)).1 ≢ none
serve-start_ends_example = serve-start_ends 9 cmds busy_caller says_bye_lem enough

outcome_lem : (serve 9 busy_caller (start cmds)).1 ≡ some (close 0 none)
unfolding serve turn on_inbound on_cmd serve_cmd write_then write deliver start
outcome_lem = refl

-- The command that was queued first was written before the answer to the ping came.
written_first : get_elem? (serve 9 busy_caller (start cmds)).0.written 0 ≡ some (1 ∷ [])
unfolding serve turn on_inbound on_cmd serve_cmd write_then write deliver start
written_first = refl

serve-IsReport_example :
    IsReport
      (arrivals 9 busy_caller)
      (close 0 none)
      (finish accepted accepted (close 0 none) (serve 9 busy_caller (start cmds)).0).delivered
serve-IsReport_example =
    serve-IsReport 9 busy_caller cmds accepted accepted (close 0 none) outcome_lem
