-- ===== src/Console/Endings.antt =====
-- A frame through a link: the session of a cart ends where the cart does.
use kuula.Prelude.{
  ℕ, ◌≡◌, ◌⊎◌, inl, inr, true, false, ◌&&◌, none, List, arith, Bool-cases, Option-cases,
}
use kuula.Net.{Event}
use kuula.Net.State.{used_link}
use kuula.Net.Link.{Transport, Link, poll}
use kuula.Net.Link.Closing.{push-closes}
use kuula.Console.{Runtime, Cart, Console, is_running}
use kuula.Console.Carts.{in_session}
use kuula.Console.Network.{clear_outbox, take_net_commands, net_room}
use kuula.Console.Invariants.{offered, step_with-kept}
use kuula.Console.Teardown.{Polite, owes, step_with-owes, IsEnded, IsEnded-IsKept, step-IsEnded}
use kuula.Console.Step.{step_with, step_linked}

module _ {rt : Runtime} where
  clear_outbox_keeps :
      (cart : Cart rt)
      → (in_session (clear_outbox cart) ≡ in_session cart)
        × ((clear_outbox cart).status ≡ cart.status)
  unfolding clear_outbox in_session used_link
  clear_outbox_keeps cart = elim (Option-cases cart.state.net) [
    | inl e ↦ ground (arith, e)
    | inr (n, e) ↦ ground (arith, e)
  ]

  take_keeps :
      (c : Console rt)
      → (in_session (take_net_commands c).0.cart ≡ in_session c.cart)
        × ((take_net_commands c).0.cart.status ≡ c.cart.status)
  unfolding take_net_commands in_session
  take_keeps c =
      let cart = c.cart in
      elim (Bool-cases cart.net_teardown) [
        | inl e ↦ ground (arith, e, clear_outbox_keeps (record cart { net_teardown = false }))
        | inr e ↦ elim (Option-cases cart.state.net) [
          | inl q ↦ ground (arith, e, q)
          | inr (n, q) ↦ ground (arith, e, q, clear_outbox_keeps cart)
        ]
      ]

  -- A cart that was torn down has its session closed in the same frame.
  torn_down_closes :
      {tr : Transport} (input : ℕ) (c : Console rt) (l : Link tr)
      → (step_with input (poll {tr = tr} (net_room c) l).0 c).cart.net_teardown ≡ true
      → (step_linked input c l).1.transport ≡ none
  unfolding step_linked take_net_commands
  torn_down_closes {tr} input c l e =
      rw (step_linked, e) (push-closes (poll {tr = tr} (net_room c) l).1)

  offered_runs :
      (events : List Event) (cart : Cart rt)
      → is_running (offered events cart).status ≡ is_running cart.status
  offered_runs events cart = elim (Option-cases cart.state.net) [
    | inl e ↦ ground (arith, e)
    | inr (n, e) ↦ ground (arith, e)
  ]

  goes_on :
      (cart after : Cart rt)
      → cart.net_teardown ≡ false
      → IsEnded cart
      → owes cart ≡ true
      → in_session after ≡ in_session cart
      → after.status ≡ cart.status
      → is_running after.status && in_session after ≡ true
  unfolding is_running
  goes_on cart after e ended owed same_session same_status =
      ground (arith, e, ended, owed, same_session, same_status)

  -- If the guests only make the calls of the `net` table, and a running cart has hosted or joined,
  -- then after a frame through a link either a cart is running that has hosted or joined, or the link
  -- has no transport: a session ends with its cart, whether the cart faults, is quit, is restarted or
  -- is replaced.
  pub step_linked_ends :
      {tr : Transport}
      → Polite rt
      → (input : ℕ) (c : Console rt) (l : Link tr) → is_running c.cart.status ≡ true
      → in_session c.cart ≡ true
      → (is_running (step_linked input c l).0.cart.status
            && in_session (step_linked input c l).0.cart
          ≡ true)
        ⊎ ((step_linked input c l).1.transport ≡ none)
  unfolding step_linked
  step_linked_ends {tr} polite input c l r s =
      let events = (poll {tr = tr} (net_room c) l).0 in
      let c₁ : Console rt = step_with input events c in
      let owed : owes c₁.cart ≡ true = step_with-owes polite input events c (ground (arith, s)) in
      let ended : IsEnded c₁.cart =
        step_with-kept IsEnded-IsKept step-IsEnded (λ cart p. p) input events c
          (λ f w. cc (f, offered_runs events c.cart, r)) in
      let (same_session, same_status) = take_keeps c₁ in
      elim (Bool-cases c₁.cart.net_teardown) [
        | inl e ↦ inr (torn_down_closes input c l e)
        | inr e ↦
            inl
              (goes_on c₁.cart (step_linked input c l).0.cart e ended owed same_session same_status)
      ]
