-- ===== src/Session/Delivery.antt =====
-- What a session delivers: the peer's messages in order, and then at most one end.
use kuula.Prelude.{
  ℕ, zero, suc, ◌≡◌, refl, sym, ap, ◌∙◌, ◌⊎◌, inl, inr, Option, none, some, List, [], ◌∷◌, ◌++◌,
  append-nil, append_assoc, Option-cases,
}
use mathlib.Core.Path.{subst}
use kuula.Wire.Play.{ping, pong, text, bye, cart_data}
use kuula.Session.{
  Event, text_of, data_of, Cmd, Inbound, inbound, ended, Outcome, World, Loop, Room, accepted, full,
  gone, turn, serve, start, take_in, arrivals, finish, push_event, last_event,
}
use kuula.Session.Turns.{listed, messages, stream, IsFirst, turn-IsFirst, Room-cases}

messages-append : (xs ys : List Inbound) → messages (xs ++ ys) ≡ messages xs ++ messages ys
unfolding messages
messages-append [] ys = refl
messages-append (inbound (text t) ∷ xs) ys = ap (λ m. text_of t ∷ m) (messages-append xs ys)
messages-append (inbound (cart_data d) ∷ xs) ys = ap (λ m. data_of d ∷ m) (messages-append xs ys)
messages-append (inbound (ping n) ∷ xs) ys = messages-append xs ys
messages-append (inbound (pong n) ∷ xs) ys = messages-append xs ys
messages-append (inbound bye ∷ xs) ys = messages-append xs ys
messages-append (ended e ∷ xs) ys = messages-append xs ys

-- Behind what is delivered and what is stalled.
behind :
    (front listed_one xs ys : List Event)
    → front ++ (listed_one ++ (xs ++ ys)) ≡ (front ++ (listed_one ++ xs)) ++ ys
behind front listed_one xs ys =
    ap (λ m. front ++ m) (sym (append_assoc listed_one xs ys))
    ∙ sym (append_assoc front (listed_one ++ xs) ys)

stream-take_in : (w : World) (l : Loop) → stream (take_in w l) ≡ stream l ++ messages w.arrived
unfolding take_in
stream-take_in w l =
    ap (λ m. l.delivered ++ (listed l.stalled ++ m)) (messages-append l.inbound w.arrived)
    ∙ behind l.delivered (listed l.stalled) (messages l.inbound) (messages w.arrived)

-- All that is to be delivered, with the messages that come while the loop runs.
abbrev whole : ℕ → (ℕ → World) → Loop → List Event
whole fuel world l = stream l ++ messages (arrivals fuel world)

whole-suc :
    (fuel : ℕ) (world : ℕ → World) (l : Loop)
    → whole (suc fuel) world l ≡ whole fuel world (take_in (world fuel) l)
unfolding arrivals
whole-suc fuel world l =
    ap (λ m. stream l ++ m) (messages-append (world fuel).arrived (arrivals fuel world))
    ∙ sym (append_assoc (stream l) (messages (world fuel).arrived) (messages (arrivals fuel world)))
    ∙ ap (λ m. m ++ messages (arrivals fuel world)) (sym (stream-take_in (world fuel) l))

serve-IsFirst :
    (fuel : ℕ) (world : ℕ → World) (l : Loop) → IsFirst (whole fuel world l) (serve fuel world l)
unfolding serve arrivals messages
serve-IsFirst zero world l = record {
  later = messages l.inbound;
  split = sym (append-nil (stream l));
  rest = λ p. refl;
}
serve-IsFirst (suc fuel) world l =
    let l₁ : Loop = take_in (world fuel) l in
    let first : IsFirst (stream l₁) (turn (world fuel) l₁) = turn-IsFirst (world fuel) l₁ in
    let l' = (turn (world fuel) l₁).0 in
    let coming = messages (arrivals fuel world) in
    elim (Option-cases (turn (world fuel) l₁).1) [
      | inr (o, e) ↦
          rw (serve, e)
            (record {
              later = first.later ++ coming;
              split =
                  behind l'.delivered (listed l'.stalled) first.later coming
                  ∙ ap (λ m. m ++ coming) first.split
                  ∙ sym (whole-suc fuel world l);
              rest = λ p. cc;
            })
      | inl e ↦
          let same : stream l' ≡ stream l₁ =
            ap (λ m. l'.delivered ++ (listed l'.stalled ++ m)) (sym (first.rest e)) ∙ first.split in
          rw (serve, e)
            (subst (λ all. IsFirst all (serve fuel world l'))
              (ap (λ m. m ++ coming) same ∙ sym (whole-suc fuel world l))
              (serve-IsFirst fuel world l'))
    ]

-- What a session has delivered in the end: a first part of the peer's messages, in order, and then at
-- most one event, that of its end.
pub record IsReport (frames : List Inbound) (o : Outcome) (events : List Event) : Type 0 where
  pub first : List Event
  pub later : List Event
  pub last : List Event
  pub whole : events ≡ first ++ last
  pub prefix : first ++ later ≡ messages frames
  pub one : (last ≡ []) ⊎ ((e : Event) × (last_event o ≡ some e) × (last ≡ e ∷ []))

end_lem :
    (frames : List Inbound) (room : Room) (o : Outcome) (first later : List Event)
    → first ++ later ≡ messages frames
    → IsReport frames o (push_event room (last_event o) first)
unfolding push_event
end_lem frames room o first later p = elim (Room-cases room) [
  | inl q ↦ elim (Option-cases (last_event o)) [
    | inl e ↦ rw (push_event, q, e) none_left
    | inr (e, h) ↦
        rw (push_event, q, h)
          (record {
            first = first;
            later = later;
            last = e ∷ [];
            whole = refl;
            prefix = p;
            one = inr (e, h, refl);
          })
  ]
  | inr (inl q) ↦ rw (push_event, q) none_left
  | inr (inr q) ↦ rw (push_event, q) none_left
]
  where
    none_left : IsReport frames o first
    none_left = record {
      first = first;
      later = later;
      last = [];
      whole = sym (append-nil first);
      prefix = p;
      one = inl refl;
    }

-- The stalled event goes out behind what was delivered, or is the first that is lost.
stalled_lem :
    (room : Room) (stalled : Option Event) (events later all : List Event)
    → events ++ (listed stalled ++ later) ≡ all
    → (rest : List Event) × (push_event room stalled events ++ rest ≡ all)
unfolding push_event
stalled_lem accepted (some e) events later all p = (later, append_assoc events (e ∷ []) later ∙ p)
stalled_lem accepted none events later all p = (later, p)
stalled_lem full o events later all p = (listed o ++ later, p)
stalled_lem gone o events later all p = (listed o ++ later, p)

from_start :
    (fuel : ℕ) (world : ℕ → World) (cmds : List Cmd)
    → IsFirst (messages (arrivals fuel world)) (serve fuel world (start cmds))
unfolding start messages
from_start fuel world cmds = serve-IsFirst fuel world (start cmds)

-- However a session goes, with the peer's frames and the caller's commands coming before any turns of
-- it, what it delivers when it has ended is a first part of the messages that came, in order and
-- without repetition, and then at most one event, that of its outcome.
pub serve-IsReport :
    (fuel : ℕ) (world : ℕ → World) (cmds : List Cmd) (room_for_stalled room_for_end : Room)
    (o : Outcome)
    → (serve fuel world (start cmds)).1 ≡ some o
    → IsReport
        (arrivals fuel world)
        o
        (finish room_for_stalled room_for_end o (serve fuel world (start cmds)).0).delivered
unfolding finish start
serve-IsReport fuel world cmds room_for_stalled room_for_end o e =
    let all = messages (arrivals fuel world) in
    let v : IsFirst all (serve fuel world (start cmds)) = from_start fuel world cmds in
    let l = (serve fuel world (start cmds)).0 in
    let (rest, p) = stalled_lem room_for_stalled l.stalled l.delivered v.later all v.split in
    end_lem (arrivals fuel world) room_for_end o (push_event room_for_stalled l.stalled l.delivered)
      rest p
