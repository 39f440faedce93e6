-- ===== src/Console/Stales.antt =====
-- The stale buttons through everything that the shell asks for and everything that the guests do.
use kuula.Prelude.{
  ℕ, ◌≡◌, refl, ap, ◌∙◌, inl, inr, false, Option, none, some, List, [], ◌∷◌, arith, Option-cases,
}
use kuula.Prelude.Bytes.{Bytes}
use kuula.Net.{Event}
use kuula.Shell.{SysRequest, SysState, Action, View, reset_session}
use kuula.Console.{Runtime, Cart, Shell, Console, with_sys}
use kuula.Console.Carts.{empty}
use kuula.Console.Network.{with_view, observe_all, offer_net_events}
use kuula.Console.Frame.{
  follow, install_cart, load_cart, clear_invite, on_shell, on_sys, run_shell_cart, forward, restart,
  apply_request, apply_all,
}
use kuula.Console.Step.{
  release, brief, run_shell, take_requests, requests_of, shell_turn, briefed, both_turns,
}

module _ {rt : Runtime} where
  abbrev pub pair_of : Shell rt → ℕ × ℕ
  pair_of s = (s.stale, s.shell_stale)

  -- The stale buttons of both sides, of a console with a shell.
  abbrev pub stales : Console rt → Option (ℕ × ℕ)
  stales c = elim c.shell [ none ↦ none | some s ↦ some (pair_of s) ]

  pub pair_of-with_sys :
      (change : SysState → SysState) (s : Shell rt) → pair_of (with_sys change s) ≡ pair_of s
  unfolding with_sys
  pair_of-with_sys change s = elim (Option-cases s.state.sys) [
    | inl e ↦ rw (e, with_sys) refl
    | inr (sys, e) ↦ rw (e, with_sys) refl
  ]

  pub pair_of-take_requests : (s : Shell rt) → pair_of (take_requests s) ≡ pair_of s
  unfolding take_requests
  pair_of-take_requests s = pair_of-with_sys _ s

  pair_of-follow : (w h : ℕ) (s : Shell rt) → pair_of (follow w h s) ≡ pair_of s
  unfolding follow
  pair_of-follow w h s = ground arith

  on_shell_lem :
      (change : Shell rt → Shell rt) (c : Console rt)
      → ((s : Shell rt) → pair_of (change s) ≡ pair_of s)
      → stales (on_shell change c) ≡ stales c
  unfolding on_shell
  on_shell_lem change c keeps = elim (Option-cases c.shell) [
    | inl e ↦ ground (arith, e)
    | inr (s, e) ↦ ground (arith, e, keeps s)
  ]

  stales-with_view :
      (change : View → View) (c : Console rt) → stales (with_view change c) ≡ stales c
  unfolding with_view
  stales-with_view change c = elim (Option-cases c.shell) [
    | inl e ↦ ground (arith, e)
    | inr (s, e) ↦
        ground (arith, e, pair_of-with_sys (λ sys. record sys { network = change sys.network }) s)
  ]

  stales-install_cart : (cart : Cart rt) (c : Console rt) → stales (install_cart cart c) ≡ stales c
  unfolding install_cart
  stales-install_cart cart c = elim (Option-cases c.shell) [
    | inl e ↦ ground (arith, e)
    | inr (s, e) ↦ ground (arith, e, λ (w : ℕ) (h : ℕ). pair_of-follow w h s)
  ]

  stales-load_cart :
      (source : rt.Source) (store : rt.Store) (c : Console rt)
      → stales (load_cart source store c) ≡ stales c
  unfolding load_cart
  stales-load_cart source store c = elim (Option-cases c.shell) [
    | inl e ↦ ground (arith, e)
    | inr (s, e) ↦ ground (arith, e, λ (cart : Cart rt). stales-install_cart cart c)
  ]

  stales-run_shell_cart :
      (name : Bytes) (c : Console rt) → stales (run_shell_cart name c) ≡ stales c
  unfolding run_shell_cart
  stales-run_shell_cart name c =
      let c' : Console rt = with_view reset_session c in
      ground (
        arith,
        stales-with_view reset_session c,
        λ (cart : Cart rt). stales-install_cart cart c',
        λ (source : rt.Source) (store : rt.Store). stales-load_cart source store c',
      )

  stales-forward : (r : SysRequest) (c : Console rt) → stales (forward r c) ≡ stales c
  unfolding forward
  stales-forward r c = on_shell_lem _ c (λ s. refl)

  stales-on_sys :
      (change : SysState → SysState) (c : Console rt) → stales (on_sys change c) ≡ stales c
  unfolding on_sys
  stales-on_sys change c = on_shell_lem (with_sys change) c (pair_of-with_sys change)

  stales-restart : (c : Console rt) → stales (restart c) ≡ stales c
  unfolding restart
  stales-restart c = elim (Option-cases c.cart.source) [
    | inl e ↦ ground (arith, e)
    | inr (source, e) ↦
        ground (arith, e, λ (store : rt.Store) (c' : Console rt). stales-load_cart source store c')
  ]

  -- No request of the shell touches the stale buttons.
  stales-apply_request : (r : SysRequest) (c : Console rt) → stales (apply_request r c) ≡ stales c
  unfolding apply_request clear_invite
  stales-apply_request (SysRequest.run_network name invite) c = stales-run_shell_cart name _
  stales-apply_request (SysRequest.network (Action.overlay on)) c = stales-with_view _ c
  stales-apply_request (SysRequest.network (Action.discovery on)) c = stales-forward _ c
  stales-apply_request (SysRequest.network (Action.browse t)) c = stales-forward _ c
  stales-apply_request (SysRequest.network (Action.edit t)) c = stales-forward _ c
  stales-apply_request (SysRequest.network (Action.text t)) c = stales-forward _ c
  stales-apply_request (SysRequest.network (Action.relay t o)) c = stales-forward _ c
  stales-apply_request (SysRequest.network Action.copy) c = stales-forward _ c
  stales-apply_request (SysRequest.network Action.paste) c = stales-forward _ c
  stales-apply_request (SysRequest.run name) c = stales-run_shell_cart name _
  stales-apply_request SysRequest.restart c = stales-restart _ ∙ stales-with_view reset_session c
  stales-apply_request SysRequest.quit c =
      let c₁ : Console rt = with_view reset_session (clear_invite c) in
      let c₂ : Console rt = on_shell (λ s. record s { paused = false }) c₁ in
      stales-install_cart empty c₂
      ∙ on_shell_lem _ c₁ (λ s. refl)
      ∙ stales-with_view reset_session _
  stales-apply_request (SysRequest.paused on) c = on_shell_lem _ c (λ s. refl)
  stales-apply_request SysRequest.exit c = stales-forward _ c
  stales-apply_request (SysRequest.dev answer) c = stales-forward _ c
  stales-apply_request (SysRequest.set_scale n) c = stales-forward _ _ ∙ stales-on_sys _ c
  stales-apply_request (SysRequest.set_volume v) c = stales-forward _ _ ∙ stales-on_sys _ c
  stales-apply_request (SysRequest.set_net on) c = stales-forward _ _ ∙ stales-on_sys _ c

  stales-apply_all : (rs : List SysRequest) (c : Console rt) → stales (apply_all rs c) ≡ stales c
  unfolding apply_all
  stales-apply_all [] c = refl
  stales-apply_all (r ∷ rs) c = stales-apply_all rs (apply_request r c) ∙ stales-apply_request r c

  pair_of-briefed :
      (b : ℕ) (s : Shell rt) (c : Console rt) → pair_of (briefed b s c) ≡ pair_of (release b s)
  unfolding briefed brief
  pair_of-briefed b s c = pair_of-with_sys _ _

  pair_of-run_shell : (input : ℕ) (s : Shell rt) → pair_of (run_shell input s) ≡ pair_of s
  unfolding run_shell
  pair_of-run_shell input s = ground arith

  pair_of-shell_turn :
      (b : ℕ) (s : Shell rt) (c : Console rt) → pair_of (shell_turn b s c) ≡ pair_of (release b s)
  unfolding shell_turn
  pair_of-shell_turn b s c = pair_of-run_shell _ (briefed b s c) ∙ pair_of-briefed b s c

  pub both_turns-stales :
      (b : ℕ) (s : Shell rt) (c : Console rt)
      → stales (both_turns b s c) ≡ some (pair_of (release b s))
  unfolding both_turns
  both_turns-stales b s c =
      let turn : Shell rt = shell_turn b s c in
      stales-apply_all (requests_of turn) _
      ∙ ap some (pair_of-take_requests turn ∙ pair_of-shell_turn b s c)

  pub offer_keeps :
      (events : List Event) (c : Console rt)
      → (stales (offer_net_events events c) ≡ stales c)
        × ((offer_net_events events c).chord ≡ c.chord)
  unfolding offer_net_events with_view
  offer_keeps [] c = (refl, refl)
  offer_keeps (e ∷ es) c = ground (arith, stales-with_view (observe_all (e ∷ es)) c)
