-- ===== src/Console/Network.antt =====
-- crates/kuula-core/src/console/net_side.rs, but for the frame through a link, which is in
-- Console/Step.
use kuula.Prelude.{ℕ, ◌-◌, false, none, some, List, [], ◌∷◌, ◌++◌, min, length, ◌==◌, if◌then◌else◌}
use kuula.Net.{Event, Command, max_batch}
use kuula.Net.State.{NetEnv, room}
use kuula.Shell.{View, observe}
use kuula.Console.{Runtime, Cart, Console, with_sys}

unfoldable pub observe_all : List Event → View → View
observe_all [] v = v
observe_all (e ∷ es) v = observe_all es (observe e v)

module _ {rt : Runtime} where
  -- `network_view_mut()`, with what is done to the view.
  unfoldable pub with_view : (View → View) → Console rt → Console rt
  unfolding with_sys
  with_view change c = elim c.shell [
    | none ↦ c
    | some s ↦ record c {
      shell = some (with_sys (λ sys. record sys { network = change sys.network }) s);
    }
  ]

  unfoldable pub offer_net_events : List Event → Console rt → Console rt
  unfolding with_view observe_all
  offer_net_events [] c = c
  offer_net_events (e ∷ es) c = elim c.cart.state.net [
    | none ↦ c
    | some n ↦
        let c' : Console rt = with_view (observe_all (e ∷ es)) c in
        let cart = c'.cart in
        record c' { cart = record cart { net_pending = cart.net_pending ++ e ∷ es } }
  ]

  unfoldable pub net_room : Console rt → ℕ
  unfolding room
  net_room c = elim c.cart.state.net [
    | none ↦ 0
    | some n ↦ min (room n - length c.cart.net_pending) max_batch
  ]

  -- `net.outbox` emptied, where the cart has a network state.
  unfoldable pub clear_outbox : Cart rt → Cart rt
  clear_outbox cart = elim cart.state.net [
    | none ↦ cart
    | some n ↦
        let state = cart.state in
        record cart { state = record state { net = some (record n { outbox = [] }) } }
  ]

  unfoldable pub take_net_commands : Console rt → Console rt × List Command
  unfolding clear_outbox
  take_net_commands c =
      let cart = c.cart in
      if cart.net_teardown
      then (
        record c { cart = clear_outbox (record cart { net_teardown = false }) },
        Command.leave ∷ [],
      )
      else elim cart.state.net [
        | none ↦ (c, [])
        | some n ↦ (record c { cart = clear_outbox cart }, n.outbox)
      ]

  unfoldable pub set_net_env : NetEnv → Console rt → Console rt
  set_net_env env c =
      let c' : Console rt = record c { net_env = env } in
      if c.cart.frame == 0
      then elim c.cart.state.net [
        | none ↦ c'
        | some n ↦
            let cart = c.cart in
            let state = cart.state in
            record c' {
              cart = record cart {
                state = record state {
                  net = some (record n { permitted = env.permitted; invite = env.invite });
                };
              };
            }
      ]
      else c'
