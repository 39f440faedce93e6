-- ===== src/Console/Step.antt =====
-- `step_with` of crates/kuula-core/src/console.rs, one frame of the console, and `step_linked` of
-- console/net_side.rs.
use kuula.Prelude.{
  ℕ, ◌+◌, ◌^◌, Bool, true, false, ◌&&◌, ◌||◌, not, none, some, List, [], ◌∷◌, ◌==◌, if◌then◌else◌,
}
use kuula.Prelude.Bytes.{Bytes, codes}
use kuula.Prelude.Words.{band, bit, complement}
use kuula.Prelude.Result.{ok, err}
use kuula.Net.{Event}
use kuula.Net.State.{NetEnv}
use kuula.Net.Link.{Transport, Link, poll, push}
use kuula.Input.{for_cart, apply}
use kuula.Manifest.{Manifest, base_buttons, cart_buttons, mask}
use kuula.Shell.{SysRequest, status_name, compose}
use kuula.Console.{
  Runtime, Cart, Shell, Console, running, faulted, fault, network_overlay, with_sys,
}
use kuula.Console.Carts.{step}
use kuula.Console.Network.{offer_net_events, net_room, take_net_commands}
use kuula.Console.Frame.{is_some, overlay_up, apply_all}

abbrev start_select : ℕ
start_select = 2 ^ 12 + 2 ^ 13

abbrev menu_bit : ℕ
menu_bit = 15

abbrev start_bit : ℕ
start_bit = 12

abbrev a_bit : ℕ
a_bit = 4

-- `held |= BTN_A` on the shell's screens, where Start chooses as A does.
abbrev pub start_chooses : ℕ → ℕ
start_chooses held = if bit start_bit held && not (bit a_bit held) then held + 2 ^ 4 else held

module _ {rt : Runtime} where
  -- `shell.stale &= input.buttons` and `shell.shell_stale &= input.buttons`
  unfoldable pub release : ℕ → Shell rt → Shell rt
  unfolding band
  release b s = record s { stale = band 16 s.stale b; shell_stale = band 16 s.shell_stale b }

  -- `fresh`, of a shell whose stale buttons are those still held.
  unfoldable pub fresh_buttons : ℕ → Shell rt → ℕ
  unfolding band
  fresh_buttons b s = band 16 b (complement s.stale)

  unfoldable pub menu_held : ℕ → Bool → Manifest → Shell rt → Bool
  unfolding band fresh_buttons mask bit
  menu_held b active m s =
      bit menu_bit b
      || (not active
          && not (
              band 16 (fresh_buttons b s) (band 16 start_select (complement (mask m.buttons)))
              == 0))

  -- What the cart's step is given: nothing under the shell's network overlay.
  unfoldable pub cart_input : ℕ → Shell rt → ℕ
  unfolding network_overlay fresh_buttons
  cart_input b s = if network_overlay s then 0 else for_cart (fresh_buttons b s)

  unfoldable pub shell_input : ℕ → Bool → Shell rt → ℕ
  unfolding band bit
  shell_input b active s =
      if active
      then start_chooses (band 16 (band 16 b cart_buttons) (complement s.shell_stale))
      else 0

  -- The shell's data as it is before its step.
  unfoldable pub brief : Cart rt → NetEnv → Bool → Shell rt → Shell rt
  unfolding with_sys fault status_name
  brief cart env pressed s =
      let state = s.state in
      let shown : Bytes = elim cart.state.net [
        | none ↦ []
        | some n ↦ if env.permitted then elim n.ticket [ none ↦ [] | some t ↦ t ] else []
      ] in
      let status : Bytes = elim cart.state.net [
        | none ↦ codes "off"
        | some n ↦ status_name n.status
      ] in
      with_sys
        (λ sys.
          let view = sys.network in
          record sys {
            fault = fault cart.status;
            running = is_some cart.guest || is_some cart.source;
            paused = s.paused;
            menu_pressed = pressed;
            network = record view { status = status; ticket = shown };
          })
        (record s { state = record state { log = [] } })

  -- The shell's own step, unless it has faulted.
  unfoldable pub run_shell : ℕ → Shell rt → Shell rt
  run_shell input s = elim s.status [
    | faulted f ↦ s
    | running ↦
        let (g, state, r) = rt.guest_step s.guest input (s.frame + 1) s.state in
        record s {
          guest = g;
          state = state;
          frame = s.frame + 1;
          status = elim r [ ok u ↦ running | err f ↦ faulted f ];
        }
  ]

  -- `std::mem::take(&mut s.requests)`
  unfoldable pub requests_of : Shell rt → List SysRequest
  requests_of s = elim s.state.sys [ none ↦ [] | some sys ↦ sys.requests ]

  unfoldable pub take_requests : Shell rt → Shell rt
  unfolding with_sys
  take_requests s = with_sys (λ sys. record sys { requests = [] }) s

  -- Who gets the buttons from now on.
  unfoldable pub reassign : ℕ → Bool → Bool → Shell rt → Shell rt
  reassign b true true s = s
  reassign b true false s = record s { stale = b }
  reassign b false true s = record s { shell_stale = b }
  reassign b false false s = s

  -- The screen with the shell's overlay, unless the shell has faulted.
  unfoldable pub present : Cart rt → Shell rt → Shell rt
  unfolding compose
  present cart s = elim s.status [
    | faulted f ↦ s
    | running ↦ record s {
      presentation = compose (rt.pixels cart.state.media) (rt.pixels s.state.media);
    }
  ]

  -- What follows the requests.
  unfoldable pub finish : ℕ → Bool → Console rt → Console rt
  unfolding overlay_up reassign present
  finish b active c = elim c.shell [
    | none ↦ c
    | some s ↦ record c {
      shell = some (present c.cart (reassign b active (overlay_up s c.cart) s));
    }
  ]

  -- The cart's part of a frame: it steps unless it is paused.
  unfoldable pub cart_turn : ℕ → Shell rt → Cart rt → Cart rt
  unfolding release cart_input step
  cart_turn b s cart = if s.paused then cart else step (cart_input b (release b s)) cart

  -- The shell with its data for this frame; the cart's state is that after its own step, its manifest
  -- and whether the overlay is up are from before.
  unfoldable pub briefed : ℕ → Shell rt → Console rt → Shell rt
  unfolding overlay_up release menu_held brief cart_turn
  briefed b s₀ c =
      let s : Shell rt = release b s₀ in
      let menu = menu_held b (overlay_up s₀ c.cart) c.cart.manifest s in
      brief (cart_turn b s₀ c.cart) c.net_env (menu && not s.menu_was)
        (record s { menu_was = menu })

  -- The shell's part, up to the end of its step.
  unfoldable pub shell_turn : ℕ → Shell rt → Console rt → Shell rt
  unfolding overlay_up shell_input run_shell briefed
  shell_turn b s c = run_shell (shell_input b (overlay_up s c.cart) (briefed b s c)) (briefed b s c)

  -- Both guests step, and then the shell's requests are carried out.
  unfoldable pub both_turns : ℕ → Shell rt → Console rt → Console rt
  unfolding cart_turn shell_turn requests_of take_requests apply_all
  both_turns b s c =
      let turn : Shell rt = shell_turn b s c in
      apply_all (requests_of turn)
        (record c { cart = cart_turn b s c.cart; shell = some (take_requests turn) })

  -- The frame of a console with a shell, after the events and the chord.
  unfoldable pub step_both : ℕ → Shell rt → Console rt → Console rt
  unfolding overlay_up both_turns finish
  step_both b s c = finish b (overlay_up s c.cart) (both_turns b s c)

  unfoldable pub clear_log : Console rt → Console rt
  clear_log c =
      let cart = c.cart in
      let state = cart.state in
      record c { cart = record cart { state = record state { log = [] } } }

  -- Console::step_with
  unfoldable pub step_with : ℕ → List Event → Console rt → Console rt
  unfolding offer_net_events clear_log apply step step_both
  step_with input events c =
      let c' : Console rt = clear_log (offer_net_events events c) in
      let (b, chord) = apply input c'.chord in
      let c'' : Console rt = record c' { chord = chord } in
      elim c''.shell [
        | none ↦ record c'' { cart = step (for_cart b) c''.cart }
        | some s ↦ step_both b s c''
      ]

  -- Console::buttons_in_use
  unfoldable pub buttons_in_use : Console rt → ℕ
  unfolding overlay_up mask
  buttons_in_use c = elim c.shell [
    | none ↦ mask c.cart.manifest.buttons
    | some s ↦ if overlay_up s c.cart then base_buttons else mask c.cart.manifest.buttons
  ]

  -- Console::step_linked
  unfoldable pub step_linked : {tr : Transport} → ℕ → Console rt → Link tr → Console rt × Link tr
  unfolding net_room step_with take_net_commands poll push
  step_linked {tr} input c l =
      let (events, l') = poll {tr = tr} (net_room c) l in
      let (c', commands) = take_net_commands (step_with input events c) in
      (c', elim commands [ [] ↦ l' | cmd ∷ cmds ↦ push (cmd ∷ cmds) l' ])
