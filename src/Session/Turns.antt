-- ===== src/Session/Turns.antt =====
-- A turn of a session, crates/kuula-net/src/session.rs, and the messages that it delivers, stalls and leaves.
use kuula.Prelude.{
  ℕ, ◌+◌, ◌≡◌, refl, sym, ap, ap₂, ◌⊎◌, inl, inr, false, Option, none, some, List, [], ◌∷◌, ◌++◌,
  arith, append_assoc, Bool-cases, Option-cases, List-cases,
}
use mathlib.Core.Path.{subst}
use kuula.Prelude.Bytes.{Bytes}
use kuula.Wire.Play.{ping, pong, text, bye, cart_data}
use kuula.Session.{
  Event, text_of, data_of, Cmd, send, time_ping, leave, Inbound, inbound, ended, Outcome, World,
  Loop, Room, accepted, full, gone, frame_bytes, write_then, deliver, take_pong, on_inbound, on_cmd,
  serve_cmd, turn,
}
use kuula.Session.Ending.{serve_cmd_lem}

abbrev pub listed : Option Event → List Event
listed none = []
listed (some e) = e ∷ []

-- The messages among the frames of the peer.
unfoldable pub messages : List Inbound → List Event
messages [] = []
messages (inbound (text t) ∷ rest) = text_of t ∷ messages rest
messages (inbound (cart_data d) ∷ rest) = data_of d ∷ messages rest
messages (inbound (ping n) ∷ rest) = messages rest
messages (inbound (pong n) ∷ rest) = messages rest
messages (inbound bye ∷ rest) = messages rest
messages (ended e ∷ rest) = messages rest

-- Everything that was delivered, that is stalled and that is still to come.
abbrev pub stream : Loop → List Event
stream l = l.delivered ++ (listed l.stalled ++ messages l.inbound)

-- A turn loses a message only where the caller's channel is gone, which ends the loop.
stream-write_then :
    (w : World) (bytes : Bytes) (l : Loop) → stream (write_then w bytes l).0 ≡ stream l
unfolding write_then
stream-write_then w bytes l = ground arith

stream-take_pong : (n : ℕ) (l : Loop) → stream (take_pong n l) ≡ stream l
unfolding take_pong
stream-take_pong n l = ground arith

stream-on_cmd : (w : World) (c : Cmd) (l : Loop) → stream (on_cmd w c l).0 ≡ stream l
unfolding on_cmd
stream-on_cmd w (send bytes) l = stream-write_then w bytes l
stream-on_cmd w time_ping l =
    let l' : Loop = record l { next_nonce = l.next_nonce + 1 } in
    ground (arith, stream-write_then w (frame_bytes (ping (l.next_nonce + 1))) l')
stream-on_cmd w leave l = ground (arith, stream-write_then w (frame_bytes bye) l)

-- What was delivered, and what is stalled, are a first part of these messages; while the loop goes on,
-- the rest is still to come.
pub record IsFirst (all : List Event) (r : Loop × Option Outcome) : Type 0 where
  pub later : List Event
  pub split : r.0.delivered ++ (listed r.0.stalled ++ later) ≡ all
  pub rest : r.1 ≡ none → later ≡ messages r.0.inbound

keeps-IsFirst :
    (l : Loop) (r : Loop × Option Outcome) → stream r.0 ≡ stream l → IsFirst (stream l) r
keeps-IsFirst l r e = record { later = messages r.0.inbound; split = e; rest = λ p. refl }

pub Room-cases : (r : Room) → (r ≡ accepted) ⊎ ((r ≡ full) ⊎ (r ≡ gone))
Room-cases accepted = inl refl
Room-cases full = inr (inl refl)
Room-cases gone = inr (inr refl)

deliver-IsFirst :
    (w : World) (e : Event) (l : Loop)
    → l.stalled ≡ none
    → IsFirst (l.delivered ++ e ∷ messages l.inbound) (deliver w e l)
unfolding deliver
deliver-IsFirst w e l s = elim (Room-cases w.room) [
  | inl q ↦
      rw (deliver, q, s)
        (record {
          later = messages l.inbound;
          split = append_assoc l.delivered (e ∷ []) (messages l.inbound);
          rest = λ p. refl;
        })
  | inr (inl q) ↦
      rw (deliver, q) (record { later = messages l.inbound; split = refl; rest = λ p. refl })
  | inr (inr q) ↦
      rw (deliver, q, s) (record { later = e ∷ messages l.inbound; split = refl; rest = λ p. cc })
]

-- An arm that ends the loop and delivers nothing.
ends-IsFirst :
    (all : List Event) (l : Loop) (o : Outcome) → stream l ≡ all → IsFirst all (l, some o)
ends-IsFirst all l o e = record { later = messages l.inbound; split = e; rest = λ p. cc }

on_inbound-IsFirst :
    (w : World) (i : Inbound) (l : Loop)
    → l.stalled ≡ none
    → IsFirst (l.delivered ++ messages (i ∷ l.inbound)) (on_inbound w i l)
unfolding on_inbound messages
on_inbound-IsFirst w (inbound (ping n)) l s =
    subst (λ all. IsFirst all (on_inbound w (inbound (ping n)) l))
      (ap (λ o. l.delivered ++ (listed o ++ messages l.inbound)) s)
      (keeps-IsFirst l (on_inbound w (inbound (ping n)) l)
        (stream-write_then w (frame_bytes (pong n)) l))
on_inbound-IsFirst w (inbound (pong n)) l s =
    subst (λ all. IsFirst all (on_inbound w (inbound (pong n)) l))
      (ap (λ o. l.delivered ++ (listed o ++ messages l.inbound)) s)
      (keeps-IsFirst l (on_inbound w (inbound (pong n)) l) (stream-take_pong n l))
on_inbound-IsFirst w (inbound (text t)) l s = deliver-IsFirst w (text_of t) l s
on_inbound-IsFirst w (inbound (cart_data d)) l s = deliver-IsFirst w (data_of d) l s
on_inbound-IsFirst w (inbound bye) l s =
    ends-IsFirst _ l _ (ap (λ o. l.delivered ++ (listed o ++ messages l.inbound)) s)
on_inbound-IsFirst w (ended e) l s =
    ends-IsFirst _ l _ (ap (λ o. l.delivered ++ (listed o ++ messages l.inbound)) s)

serve_cmd-IsFirst : (w : World) (l : Loop) → IsFirst (stream l) (serve_cmd w l)
unfolding serve_cmd
serve_cmd-IsFirst w l = elim (List-cases l.cmds) [
  | inl e ↦ keeps-IsFirst l (serve_cmd w l) (ground (arith, e))
  | inr (c, rest, e) ↦ subst (IsFirst (stream l)) (sym (serve_cmd_lem w c rest l e)) (
      keeps-IsFirst l (on_cmd w c (record l { cmds = rest }))
        (stream-on_cmd w c (record l { cmds = rest })))
]

-- The turns that serve a command or a frame.
full_turn :
    (w : World) (l : Loop) (e : Event)
    → w.aborted ≡ none
    → l.stalled ≡ some e
    → w.room ≡ full
    → turn w l ≡ serve_cmd w l
unfolding turn
full_turn w l e a s q = ground (arith, a, s, q)

idle_turn :
    (w : World) (l : Loop)
    → w.aborted ≡ none
    → l.stalled ≡ none
    → l.inbound ≡ []
    → w.reader_gone ≡ false
    → turn w l ≡ serve_cmd w l
unfolding turn
idle_turn w l a s i g = ground (arith, a, s, i, g)

frame_turn :
    (w : World) (l : Loop) (i : Inbound) (rest : List Inbound)
    → w.aborted ≡ none
    → l.stalled ≡ none
    → l.inbound ≡ i ∷ rest
    → turn w l ≡ on_inbound w i (record l { inbound = rest })
unfolding turn
frame_turn w l i rest a s q = ground (arith, a, s, q)

waiting :
    (l : Loop) (i : Inbound) (rest : List Inbound)
    → l.stalled ≡ none
    → l.inbound ≡ i ∷ rest
    → stream l ≡ l.delivered ++ messages (i ∷ rest)
waiting l i rest s q = ap₂ (λ o m. l.delivered ++ (listed o ++ messages m)) s q

pub turn-IsFirst : (w : World) (l : Loop) → IsFirst (stream l) (turn w l)
unfolding turn
turn-IsFirst w l = elim (Option-cases w.aborted) [
  | inr (some e, a) ↦ rw (turn, a) (ends-IsFirst (stream l) l _ refl)
  | inr (none, a) ↦ rw (turn, a) (ends-IsFirst (stream l) l _ refl)
  | inl a ↦ elim (Option-cases l.stalled) [
    | inr (e, s) ↦ elim (Room-cases w.room) [
      | inl q ↦
          keeps-IsFirst l (turn w l)
            (ground (arith, a, s, q, append_assoc l.delivered (e ∷ []) (messages l.inbound)))
      | inr (inl q) ↦
          subst (IsFirst (stream l)) (sym (full_turn w l e a s q)) (serve_cmd-IsFirst w l)
      | inr (inr q) ↦ keeps-IsFirst l (turn w l) (ground (arith, a, s, q))
    ]
    | inl s ↦ elim (List-cases l.inbound) [
      | inl i ↦ elim (Bool-cases w.reader_gone) [
        | inl g ↦ keeps-IsFirst l (turn w l) (ground (arith, a, s, i, g))
        | inr g ↦ subst (IsFirst (stream l)) (sym (idle_turn w l a s i g)) (serve_cmd-IsFirst w l)
      ]
      | inr (i, rest, q) ↦
          let l' : Loop = record l { inbound = rest } in
          subst (IsFirst (stream l)) (sym (frame_turn w l i rest a s q)) (
            subst (λ all. IsFirst all (on_inbound w i l')) (sym (waiting l i rest s q))
              (on_inbound-IsFirst w i l' s))
    ]
  ]
]
