-- ===== src/Console/Invariants.antt =====
-- Invariants of the cart through a frame of the console: the events that are offered, the step of the
-- cart, the step of the shell and what the shell asks for.
use kuula.Prelude.{
  ℕ, ◌≡◌, inl, inr, Bool, none, some, List, [], ◌∷◌, ◌++◌, append-nil, arith, Bool-cases,
  Option-cases,
}
use kuula.Net.{Event}
use kuula.Input.{apply, for_cart}
use kuula.Console.{Runtime, Cart, Shell, Console}
use kuula.Console.Carts.{step}
use kuula.Console.Network.{observe_all, offer_net_events}
use kuula.Console.Requests.{IsKept, apply_all-kept, view_keeps_cart}
use kuula.Console.Step.{
  finish, cart_turn, cart_input, release, shell_turn, both_turns, step_both, clear_log, step_with,
  requests_of,
}

module _ {rt : Runtime} where
  -- The cart with the events that a host offers; one without a network state takes none.
  abbrev pub offered : List Event → Cart rt → Cart rt
  offered events cart = elim cart.state.net [
    | none ↦ cart
    | some n ↦ record cart { net_pending = cart.net_pending ++ events }
  ]

  abbrev pub unlogged : Cart rt → Cart rt
  unlogged cart = let state = cart.state in record cart { state = record state { log = [] } }

  offer_lem :
      (events : List Event) (c : Console rt)
      → (offer_net_events events c).cart ≡ offered events c.cart
  unfolding offer_net_events
  offer_lem [] c = elim (Option-cases c.cart.state.net) [
    | inl e ↦ ground (arith, e)
    | inr (n, e) ↦ ground (arith, e, append-nil c.cart.net_pending)
  ]
  offer_lem (x ∷ es) c = elim (Option-cases c.cart.state.net) [
    | inl e ↦ ground (arith, e)
    | inr (n, e) ↦ ground (arith, e, view_keeps_cart (observe_all (x ∷ es)) c)
  ]

  finish_keeps_cart : (b : ℕ) (active : Bool) (c : Console rt) → (finish b active c).cart ≡ c.cart
  unfolding finish
  finish_keeps_cart b active c = elim (Option-cases c.shell) [
    | inl e ↦ ground (arith, e)
    | inr (s, e) ↦ ground (arith, e)
  ]

  module _ {P : Cart rt → Type 0} (kept : IsKept P)
      (steps : (input : ℕ) (cart : Cart rt) → P cart → P (step input cart)) where
    cart_turn_kept : (b : ℕ) (s : Shell rt) (cart : Cart rt) → P cart → P (cart_turn b s cart)
    unfolding cart_turn
    cart_turn_kept b s cart p = elim (Bool-cases s.paused) [
      | inl e ↦ rw (e, cart_turn) p
      | inr e ↦ rw (e, cart_turn) (steps (cart_input b (release b s)) cart p)
    ]

    step_both-kept : (b : ℕ) (s : Shell rt) (c : Console rt) → P c.cart → P (step_both b s c).cart
    unfolding step_both both_turns
    step_both-kept b s c p =
        let turned : P (cart_turn b s c.cart) = cart_turn_kept b s c.cart p in
        let turn : Shell rt = shell_turn b s c in
        rw (finish_keeps_cart b _ (both_turns b s c))
          (apply_all-kept kept (requests_of turn) _ turned)

    -- An invariant that the steps of the cart keep, and the clearing of its log, holds after a frame
    -- if it holds with the events that are offered.
    pub step_with-kept :
        ((cart : Cart rt) → P cart → P (unlogged cart))
        → (input : ℕ) (events : List Event) (c : Console rt) → P (offered events c.cart)
        → P (step_with input events c).cart
    unfolding step_with clear_log
    step_with-kept logs input events c p =
        let c₀ : Console rt = offer_net_events events c in
        let c₁ : Console rt = clear_log c₀ in
        let p₁ : P c₁.cart = logs c₀.cart (rw (offer_lem events c) p) in
        let b = (apply input c₀.chord).0 in
        let chord = (apply input c₀.chord).1 in
        elim (Option-cases c₀.shell) [
          | inl e ↦ rw (e, step_with) (steps (for_cart b) c₁.cart p₁)
          | inr (s, e) ↦ rw (e, step_with) (step_both-kept b s (record c₁ { chord = chord }) p₁)
        ]
