-- ===== src/Console/Linked.antt =====
-- A frame through a link keeps the bounds of a console that runs a networked cart.
use kuula.Prelude.{
  ℕ, ◌-◌, ◌≤◌, ◌≡◌, sym, inl, inr, false, none, some, List, [], ◌∷◌, ◌++◌, min, length, arith,
  Bool-cases, Option-cases,
}
use mathlib.Core.Path.{subst}
use kuula.Net.{Event, Command, max_batch}
use kuula.Net.State.{NetState, room}
use kuula.Net.State.Bounds.{count_plain, count_sends, count_plain-append, count_plain-le}
use kuula.Net.Link.{Transport, Obeys, Link, push, poll}
use kuula.Net.Link.Gate.{IsGated, poll-IsGated, push-IsGated, count_plain-poll}
use kuula.Console.{Runtime, State, Cart, Console}
use kuula.Console.Network.{clear_outbox, take_net_commands, net_room}
use kuula.Console.Invariants.{offered, step_with-kept}
use kuula.Console.Teardown.{Polite}
use kuula.Console.Sessions.{IfSome, if_some_of, IsRested, IsSound, IsSound-IsKept, step-IsSound}
use kuula.Console.Step.{step_with, step_linked}

room-le : (n : NetState) → room n ≤ max_batch
unfolding room
room-le n = ground arith

push_any :
    {tr : Transport} (cmds : List Command) (l : Link tr)
    → IsGated l
    → IsGated (elim cmds [ [] ↦ l | cmd ∷ rest ↦ push (cmd ∷ rest) l ])
push_any [] l v = v
push_any (cmd ∷ rest) l v = push-IsGated (cmd ∷ rest) l v

module _ {rt : Runtime} where
  offered-none :
      (events : List Event) (cart : Cart rt) → cart.state.net ≡ none → offered events cart ≡ cart
  offered-none events cart e = ground (arith, e)

  offered_keeps :
      (events : List Event) (cart : Cart rt) (n : NetState)
      → cart.state.net ≡ some n
      → ((offered events cart).net_pending ≡ cart.net_pending ++ events)
        × ((offered events cart).state ≡ cart.state)
  offered_keeps events cart n e = ground (arith, e)

  -- The events that a link polls for the room there is fit with those that wait.
  offered-IsSound :
      (events : List Event) (c : Console rt)
      → count_plain events ≤ net_room c
      → IsSound c.cart
      → IsSound (offered events c.cart)
  unfolding net_room
  offered-IsSound events c h v = elim (Option-cases c.cart.state.net) [
    | inl e ↦ subst IsSound (sym (offered-none events c.cart e)) v
    | inr (n, e) ↦
        let pending = c.cart.net_pending in
        let (q, s) = offered_keeps events c.cart n e in
        let fits : count_plain events ≤ min (room n - length pending) max_batch =
          ground (arith, h, e) in
        record {
          net = subst (λ (st : State rt). IfSome IsRested st.net) (sym s) v.net;
          pending = rw q (
              omega (
                arith,
                fits,
                room-le n,
                v.pending,
                count_plain-append pending events,
                count_plain-le pending,
              ));
        }
  ]

  clear_outbox-IsSound : (cart : Cart rt) → IsSound cart → IsSound (clear_outbox cart)
  unfolding clear_outbox count_sends
  clear_outbox-IsSound cart v = elim (Option-cases cart.state.net) [
    | inl e ↦ rw (e, clear_outbox) v
    | inr (n, e) ↦
        let rested : IsRested n = if_some_of IsRested cart.state.net e v.net in
        rw (e, clear_outbox)
          (record {
            net = record { inbox = rested.inbox; outbox = omega arith; rate = omega arith };
            pending = v.pending;
          })
  ]

  take-IsSound : (c : Console rt) → IsSound c.cart → IsSound (take_net_commands c).0.cart
  unfolding take_net_commands
  take-IsSound c v =
      let cart = c.cart in
      elim (Bool-cases cart.net_teardown) [
        | inl e ↦
            rw (e, take_net_commands)
              (clear_outbox-IsSound (record cart { net_teardown = false })
                (record { net = v.net; pending = v.pending }))
        | inr e ↦ elim (Option-cases cart.state.net) [
          | inl q ↦ rw (e, q, take_net_commands) v
          | inr (n, q) ↦ rw (e, q, take_net_commands) (clear_outbox-IsSound cart v)
        ]
      ]

  pub step_linked-IsSound :
      {tr : Transport}
      → Polite rt
      → Obeys tr
      → (input : ℕ) (c : Console rt) (l : Link tr) → IsSound c.cart
      → IsGated l
      → IsSound (step_linked input c l).0.cart × IsGated (step_linked input c l).1
  unfolding step_linked
  step_linked-IsSound {tr} polite obeys input c l v g =
      let room = net_room c in
      let events = (poll {tr = tr} room l).0 in
      let c₁ : Console rt = step_with input events c in
      let v₁ : IsSound c₁.cart =
        step_with-kept IsSound-IsKept (step-IsSound polite)
          (λ cart p. record { net = p.net; pending = p.pending }) input events c
          (offered-IsSound events c (count_plain-poll room l obeys) v) in
      (
        take-IsSound c₁ v₁,
        push_any (take_net_commands c₁).1 (poll {tr = tr} room l).1 (poll-IsGated room l g),
      )
