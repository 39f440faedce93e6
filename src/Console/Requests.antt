-- ===== src/Console/Requests.antt =====
-- What the shell's requests can do to the cart: an invariant of the cart that a fresh cart takes over
-- from the one before holds after any of them.
use kuula.Prelude.{
  ℕ, ◌≡◌, refl, ◌⊎◌, inl, inr, ◌||◌, false, Option, none, some, List, [], ◌∷◌, arith, Option-cases,
  Bool-cases, ◌∙◌,
}
use kuula.Prelude.Bytes.{Bytes}
use kuula.Prelude.Result.{Result, ok, Result-cases}
use kuula.Net.State.{NetEnv, new}
use kuula.Manifest.{Manifest, default_manifest, has_service, Service}
use kuula.Shell.{Fault, SysRequest, SysState, Action, View, reset_session}
use kuula.Console.{Runtime, State, Cart, Shell, Console, Preload, with_sys, new_state}
use kuula.Console.Carts.{start, empty, faulted_cart, load, load_with, read_manifest, in_session}
use kuula.Console.Network.{with_view}
use kuula.Console.Frame.{
  install_cart, load_cart, clear_invite, on_shell, on_sys, run_shell_cart, forward, restart,
  apply_request, apply_all, set_volume, settings,
}

module _ (rt : Runtime) where
  start_net :
      (source : rt.Source) (env : NetEnv) (m : Manifest)
      → ((start rt source env m).net ≡ none) ⊎ ((start rt source env m).net ≡ some (new env))
  unfolding start new_state
  start_net source env m = elim (Bool-cases (has_service Service.net m)) [
    | inl e ↦ rw (e) (inr refl)
    | inr e ↦ rw (e) (inl refl)
  ]

  load_with_net :
      (source : rt.Source) (factory : Bytes → Bytes → Result Fault rt.Guest) (preload : Preload)
      (env : NetEnv) (m : Manifest) (got : rt.Guest × State rt)
      → load_with rt source factory preload env m ≡ ok got
      → got.1.net ≡ (start rt source env m).net
  unfolding load_with
  load_with_net source factory preload env m got e = ground (arith, e)

module _ {rt : Runtime} where
  -- A cart that has not started: no events wait for it, and its network state is new.
  pub record IsFresh (cart : Cart rt) : Type 0 where
    pub pending : cart.net_pending ≡ []
    pub net : (cart.state.net ≡ none) ⊎ ((env : NetEnv) × (cart.state.net ≡ some (new env)))

  faulted_cart-IsFresh :
      (f : Fault) (m : Manifest) (source : Option rt.Source) → IsFresh (faulted_cart f m source)
  unfolding faulted_cart new_state
  faulted_cart-IsFresh f m source = record { pending = refl; net = inl refl }

  pub empty-IsFresh : IsFresh (empty {rt = rt})
  unfolding empty new_state
  empty-IsFresh = record { pending = refl; net = inl refl }

  pub load-IsFresh :
      (source : rt.Source) (factory : Bytes → Bytes → Result Fault rt.Guest) (preload : Preload)
      (env : NetEnv)
      → IsFresh (load source factory preload env)
  unfolding load
  load-IsFresh source factory preload env = elim (Result-cases (read_manifest rt source)) [
    | inl (f, e) ↦ rw (e, load) (faulted_cart-IsFresh f default_manifest (some source))
    | inr (m, e) ↦ elim (Result-cases (load_with rt source factory preload env m)) [
      | inl (f, q) ↦ rw (e, q, load) (faulted_cart-IsFresh f m (some source))
      | inr (got, q) ↦
          rw (e, q, load)
            (record {
              pending = refl;
              net = elim (start_net rt source env m) [
                | inl n ↦ inl (load_with_net rt source factory preload env m got q ∙ n)
                | inr n ↦ inr (env, load_with_net rt source factory preload env m got q ∙ n)
              ];
            })
    ]
  ]

  -- An invariant of the cart in the console.
  pub record IsKept (P : Cart rt → Type 0) : Type 0 where
    pub replace :
        (fresh old : Cart rt)
        → IsFresh fresh
        → P old
        → P (record fresh { net_teardown = old.net_teardown || in_session old })
    pub volume : (v : ℕ) (cart : Cart rt) → P cart → P (set_volume v cart)
    pub saves :
        (store : rt.Store) (cart : Cart rt)
        → P cart
        → P (let state = cart.state in record cart { state = record state { saves = store } })

  abbrev with_saves : rt.Store → Cart rt → Cart rt
  with_saves store cart =
      let state = cart.state in record cart { state = record state { saves = store } }

  pub keeps_cart :
      (change : Shell rt → Shell rt) (c : Console rt) → (on_shell change c).cart ≡ c.cart
  unfolding on_shell
  keeps_cart change c = elim (Option-cases c.shell) [
    | inl e ↦ ground (arith, e)
    | inr (s, e) ↦ ground (arith, e)
  ]

  pub view_keeps_cart : (change : View → View) (c : Console rt) → (with_view change c).cart ≡ c.cart
  unfolding with_view
  view_keeps_cart change c = elim (Option-cases c.shell) [
    | inl e ↦ ground (arith, e)
    | inr (s, e) ↦ ground (arith, e)
  ]

  module _ {P : Cart rt → Type 0} (kept : IsKept P) where
    install-kept :
        (fresh : Cart rt) (c : Console rt)
        → IsFresh fresh
        → P c.cart
        → P (install_cart fresh c).cart
    unfolding install_cart set_volume
    install-kept fresh c v p = elim (Option-cases c.shell) [
      | inl e ↦ rw (e, install_cart) (kept.replace fresh c.cart v p)
      | inr (s, e) ↦
          rw (e, install_cart)
            (kept.replace (set_volume (settings s).volume fresh) c.cart
              (record { pending = v.pending; net = v.net }) p)
    ]

    pub load_cart-kept :
        (source : rt.Source) (store : rt.Store) (c : Console rt)
        → P c.cart
        → P (load_cart source store c).cart
    unfolding load_cart
    load_cart-kept source store c p = elim (Option-cases c.shell) [
      | inl e ↦ rw (e, load_cart) p
      | inr (s, e) ↦
          let fresh : Cart rt = load source s.factory s.preload c.net_env in
          let v : IsFresh fresh = load-IsFresh source s.factory s.preload c.net_env in
          rw (e, load_cart)
            (install-kept (with_saves store fresh) c (record { pending = v.pending; net = v.net })
              p)
    ]

    run_shell_cart-kept :
        (name : Bytes) (c : Console rt) → P c.cart → P (run_shell_cart name c).cart
    unfolding run_shell_cart
    run_shell_cart-kept name c p =
        let c' : Console rt = with_view reset_session c in
        let p' : P c'.cart = rw (view_keeps_cart reset_session c) p in
        elim (Option-cases c.shell) [
          | inl e ↦ rw (e, run_shell_cart) p'
          | inr (s, e) ↦ elim (Result-cases (s.opener name)) [
            | inl (f, q) ↦
                rw (e, q, run_shell_cart)
                  (install-kept (faulted_cart f default_manifest none) c'
                    (faulted_cart-IsFresh f default_manifest none) p')
            | inr (got, q) ↦ rw (e, q, run_shell_cart) (load_cart-kept got.0 got.1 c' p')
          ]
        ]

    restart-kept : (c : Console rt) → P c.cart → P (restart c).cart
    unfolding restart
    restart-kept c p = elim (Option-cases c.cart.source) [
      | inl e ↦ rw (e, restart) p
      | inr (source, e) ↦
          rw (e, restart)
            (load_cart-kept source c.cart.state.saves
              (record c { cart = with_saves rt.memory_store c.cart })
              (kept.saves rt.memory_store c.cart p))
    ]

    forward-kept : (r : SysRequest) (c : Console rt) → P c.cart → P (forward r c).cart
    unfolding forward
    forward-kept r c p = rw (keeps_cart _ c) p

    on_sys-kept :
        (change : SysState → SysState) (c : Console rt) → P c.cart → P (on_sys change c).cart
    unfolding on_sys
    on_sys-kept change c p = rw (keeps_cart (with_sys change) c) p

    apply_request-kept : (r : SysRequest) (c : Console rt) → P c.cart → P (apply_request r c).cart
    unfolding apply_request clear_invite
    apply_request-kept (SysRequest.run_network name invite) c p =
        let env = c.net_env in
        run_shell_cart-kept name (record c { net_env = record env { invite = invite } }) p
    apply_request-kept (SysRequest.network (Action.overlay on)) c p = rw (view_keeps_cart _ c) p
    apply_request-kept (SysRequest.network (Action.discovery on)) c p = forward-kept _ c p
    apply_request-kept (SysRequest.network (Action.browse t)) c p = forward-kept _ c p
    apply_request-kept (SysRequest.network (Action.edit t)) c p = forward-kept _ c p
    apply_request-kept (SysRequest.network (Action.text t)) c p = forward-kept _ c p
    apply_request-kept (SysRequest.network (Action.relay t o)) c p = forward-kept _ c p
    apply_request-kept (SysRequest.network Action.copy) c p = forward-kept _ c p
    apply_request-kept (SysRequest.network Action.paste) c p = forward-kept _ c p
    apply_request-kept (SysRequest.run name) c p = run_shell_cart-kept name (clear_invite c) p
    apply_request-kept SysRequest.restart c p =
        restart-kept (with_view reset_session c) (rw (view_keeps_cart reset_session c) p)
    apply_request-kept SysRequest.quit c p =
        let c₁ : Console rt = with_view reset_session (clear_invite c) in
        let c₂ : Console rt = on_shell (λ s. record s { paused = false }) c₁ in
        let p₁ : P c₁.cart = rw (view_keeps_cart reset_session (clear_invite c)) p in
        install-kept empty c₂ empty-IsFresh (rw (keeps_cart _ c₁) p₁)
    apply_request-kept (SysRequest.paused on) c p = rw (keeps_cart _ c) p
    apply_request-kept SysRequest.exit c p = forward-kept _ c p
    apply_request-kept (SysRequest.dev answer) c p = forward-kept _ c p
    apply_request-kept (SysRequest.set_scale n) c p = forward-kept _ _ (on_sys-kept _ c p)
    apply_request-kept (SysRequest.set_volume v) c p =
        forward-kept _ _ (kept.volume v _ (on_sys-kept _ c p))
    apply_request-kept (SysRequest.set_net on) c p = forward-kept _ _ (on_sys-kept _ c p)

    -- Whatever the shell asks for, the invariant holds after it.
    pub apply_all-kept :
        (rs : List SysRequest) (c : Console rt) → P c.cart → P (apply_all rs c).cart
    unfolding apply_all
    apply_all-kept [] c p = p
    apply_all-kept (r ∷ rs) c p = apply_all-kept rs (apply_request r c) (apply_request-kept r c p)
