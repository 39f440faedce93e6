-- ===== src/Session/Ending.antt =====
-- A session in which the caller says goodbye ends.
use kuula.Prelude.{
  ℕ, zero, suc, ◌+◌, ◌*◌, ◌≤◌, ◌<◌, ◌≡◌, ◌≢◌, refl, sym, inl, inr, Bool, true, false, Option, none,
  some, List, [], ◌∷◌, ◌++◌, length, length-append, ap, arith, Option-cases, List-cases,
}
use mathlib.Core.Path.{subst}
use kuula.Prelude.Bytes.{Bytes}
use kuula.Wire.Play.{ping, pong, text, bye, cart_data}
use kuula.Session.{
  Event, Cmd, send, time_ping, leave, Inbound, inbound, ended, Outcome, World, Loop, frame_bytes,
  write_then, deliver, take_pong, on_inbound, on_cmd, serve_cmd, turn, serve, start, take_in,
  arrivals, calls,
}

-- Whether the caller's queue has a goodbye.
unfoldable pub says_bye : List Cmd → Bool
says_bye [] = false
says_bye (leave ∷ cmds) = true
says_bye (send bytes ∷ cmds) = says_bye cmds
says_bye (time_ping ∷ cmds) = says_bye cmds

abbrev stall : Option Event → ℕ
stall none = 0
stall (some e) = 1

-- The turns that a loop has left: two for a frame, which may stall its event, one for a stalled
-- event and one for a command.
abbrev pub turns : Loop → ℕ
turns l = 2 * length l.inbound + length l.cmds + stall l.stalled

-- A turn that does not end the loop made progress, and the goodbye still waits.
record IsProgress (l : Loop) (r : Loop × Option Outcome) : Type 0 where
  less : r.1 ≡ none → turns r.0 < turns l
  waits : r.1 ≡ none → says_bye r.0.cmds ≡ true

-- What a write and a delivery leave alone.
write_then_keeps :
    (w : World) (bytes : Bytes) (l : Loop)
    → ((write_then w bytes l).0.inbound ≡ l.inbound)
      × ((write_then w bytes l).0.cmds ≡ l.cmds)
      × ((write_then w bytes l).0.stalled ≡ l.stalled)
unfolding write_then
write_then_keeps w bytes l = ground arith

deliver_keeps :
    (w : World) (e : Event) (l : Loop)
    → ((deliver w e l).0.inbound ≡ l.inbound)
      × ((deliver w e l).0.cmds ≡ l.cmds)
      × (stall (deliver w e l).0.stalled ≤ stall l.stalled + 1)
unfolding deliver
deliver_keeps w e l = ground arith

take_pong_keeps :
    (n : ℕ) (l : Loop)
    → ((take_pong n l).inbound ≡ l.inbound)
      × ((take_pong n l).cmds ≡ l.cmds)
      × ((take_pong n l).stalled ≡ l.stalled)
unfolding take_pong
take_pong_keeps n l = ground arith

-- The arm of a frame leaves the queues alone and stalls at most one event.
on_inbound_keeps :
    (w : World) (i : Inbound) (l : Loop)
    → ((on_inbound w i l).0.inbound ≡ l.inbound)
      × ((on_inbound w i l).0.cmds ≡ l.cmds)
      × (stall (on_inbound w i l).0.stalled ≤ stall l.stalled + 1)
unfolding on_inbound
on_inbound_keeps w (inbound (ping n)) l =
    ground (arith, write_then_keeps w (frame_bytes (pong n)) l)
on_inbound_keeps w (inbound (pong n)) l = ground (arith, take_pong_keeps n l)
on_inbound_keeps w (inbound (text t)) l = deliver_keeps w _ l
on_inbound_keeps w (inbound (cart_data d)) l = deliver_keeps w _ l
on_inbound_keeps w (inbound bye) l = (refl, refl, omega arith)
on_inbound_keeps w (ended e) l = (refl, refl, omega arith)

on_cmd-IsProgress :
    (w : World) (c : Cmd) (rest : List Cmd) (l : Loop)
    → l.cmds ≡ c ∷ rest
    → says_bye l.cmds ≡ true
    → IsProgress l (on_cmd w c (record l { cmds = rest }))
unfolding on_cmd says_bye
on_cmd-IsProgress w (send bytes) rest l e b =
    ground (arith, e, b, write_then_keeps w bytes (record l { cmds = rest }))
on_cmd-IsProgress w time_ping rest l e b = ground (
  arith,
  e,
  b,
  write_then_keeps w (frame_bytes (ping (l.next_nonce + 1)))
      (record l { cmds = rest; next_nonce = l.next_nonce + 1 }),
)
on_cmd-IsProgress w leave rest l e b = ground (arith, e, b)

pub serve_cmd_lem :
    (w : World) (c : Cmd) (rest : List Cmd) (l : Loop)
    → l.cmds ≡ c ∷ rest
    → serve_cmd w l ≡ on_cmd w c (record l { cmds = rest })
unfolding serve_cmd
serve_cmd_lem w c rest l e = ground (arith, e)

serve_cmd-IsProgress :
    (w : World) (l : Loop) → says_bye l.cmds ≡ true → IsProgress l (serve_cmd w l)
unfolding serve_cmd says_bye
serve_cmd-IsProgress w l b = elim (List-cases l.cmds) [
  | inl e ↦ absurd (ground (arith, e, b))
  | inr (c, rest, e) ↦
      subst (IsProgress l) (sym (serve_cmd_lem w c rest l e)) (on_cmd-IsProgress w c rest l e b)
]

turn-IsProgress : (w : World) (l : Loop) → says_bye l.cmds ≡ true → IsProgress l (turn w l)
unfolding turn
turn-IsProgress w l b =
    let cmd : IsProgress l (serve_cmd w l) = serve_cmd-IsProgress w l b in
    elim (Option-cases w.aborted) [
      | inr (some e, a) ↦ rw (turn, a) (record { less = λ p. cc; waits = λ p. cc })
      | inr (none, a) ↦ rw (turn, a) (record { less = λ p. cc; waits = λ p. cc })
      | inl a ↦ elim (Option-cases l.stalled) [
        | inr (e, s) ↦ ground (arith, a, s, cmd, b)
        | inl s ↦ elim (List-cases l.inbound) [
          | inl i ↦ ground (arith, a, s, i, cmd)
          | inr (i, rest, q) ↦
              ground (arith, a, s, q, b, on_inbound_keeps w i (record l { inbound = rest }))
        ]
      ]
    ]

says_bye-append : (cmds more : List Cmd) → says_bye cmds ≡ true → says_bye (cmds ++ more) ≡ true
unfolding says_bye
says_bye-append [] more b = cc
says_bye-append (leave ∷ cmds) more b = refl
says_bye-append (send bytes ∷ cmds) more b = says_bye-append cmds more b
says_bye-append (time_ping ∷ cmds) more b = says_bye-append cmds more b

-- The turns that a loop has left, with what comes while it runs.
abbrev budget : ℕ → (ℕ → World) → Loop → ℕ
budget fuel world l = turns l + (2 * length (arrivals fuel world) + length (calls fuel world))

turns-take_in :
    (w : World) (l : Loop)
    → turns (take_in w l) ≡ turns l + (2 * length w.arrived + length w.called)
unfolding take_in
turns-take_in w l = omega (arith, length-append l.inbound w.arrived, length-append l.cmds w.called)

budget-suc :
    (fuel : ℕ) (world : ℕ → World) (l : Loop)
    → budget (suc fuel) world l ≡ budget fuel world (take_in (world fuel) l)
unfolding arrivals calls
budget-suc fuel world l = omega (
  arith,
  turns-take_in (world fuel) l,
  length-append (world fuel).arrived (arrivals fuel world),
  length-append (world fuel).called (calls fuel world),
)

-- A loop with a goodbye in its queue has a turn left.
turns_left : (l : Loop) → says_bye l.cmds ≡ true → 1 ≤ turns l
unfolding says_bye
turns_left l b = elim (List-cases l.cmds) [
  | inl e ↦ absurd (ground (arith, e, b))
  | inr (c, rest, e) ↦ omega (arith, ap length e)
]

taken_bye : (w : World) (l : Loop) → says_bye l.cmds ≡ true → says_bye (take_in w l).cmds ≡ true
unfolding take_in
taken_bye w l b = says_bye-append l.cmds w.called b

serve_ends :
    (fuel : ℕ) (world : ℕ → World) (l : Loop)
    → budget fuel world l ≤ fuel
    → says_bye l.cmds ≡ true
    → (serve fuel world l).1 ≢ none
unfolding serve
serve_ends zero world l h b = absurd (omega (arith, h, turns_left l b))
serve_ends (suc fuel) world l h b =
    let l₁ : Loop = take_in (world fuel) l in
    let b₁ : says_bye l₁.cmds ≡ true = taken_bye (world fuel) l b in
    let v : IsProgress l₁ (turn (world fuel) l₁) = turn-IsProgress (world fuel) l₁ b₁ in
    elim (Option-cases (turn (world fuel) l₁).1) [
      | inr (out, e) ↦ rw (serve, e) (λ p. cc)
      | inl e ↦
          rw (serve, e)
            (serve_ends fuel world (turn (world fuel) l₁).0
              (omega (arith, v.less e, h, budget-suc fuel world l)) (v.waits e))
    ]

-- A session whose caller has said goodbye ends, however the writes go, whether or not the caller takes
-- its events, and whenever the peer's frames and more commands come, if it is given two turns for
-- each frame that comes in them and one for each command.
pub serve-start_ends :
    (fuel : ℕ) (cmds : List Cmd) (world : ℕ → World)
    → says_bye cmds ≡ true
    → 2 * length (arrivals fuel world) + length (cmds ++ calls fuel world) ≤ fuel
    → (serve fuel world (start cmds)).1 ≢ none
unfolding start
serve-start_ends fuel cmds world b h =
    serve_ends fuel world (start cmds) (omega (arith, h, length-append cmds (calls fuel world))) b
