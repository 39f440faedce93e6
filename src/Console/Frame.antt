-- ===== src/Console/Frame.antt =====
-- `impl Console` of crates/kuula-core/src/console.rs: replacing the cart, the shell's requests and the
-- frame of both guests, and `step_linked` of console/net_side.rs.
use kuula.Prelude.{
  ℕ, ◌%◌, Bool, true, false, ◌&&◌, ◌||◌, not, Option, none, some, List, [], ◌∷◌, ◌++◌, ◌==◌,
  if◌then◌else◌,
}
use kuula.Prelude.Bytes.{Bytes}
use kuula.Prelude.Result.{Result, ok, err}
use kuula.Net.State.{NetEnv}
use kuula.Input.{fresh}
use kuula.Manifest.{ScreenMode, default_manifest, size}
use kuula.Shell.{
  Fault, CartEntry, Settings, SysState, SysRequest, Action, default_settings, new_sys,
  reset_session,
}
use kuula.Console.{
  Runtime, State, Cart, Shell, Console, Preload, running, fault, new_state, network_overlay,
  with_sys,
}
use kuula.Console.Carts.{faulted_cart, empty, load, in_session}
use kuula.Console.Network.{with_view}

abbrev pub is_some {ℓ} : {A : Type ℓ} → Option A → Bool
is_some none = false
is_some (some a) = true

abbrev no_env : NetEnv
no_env = record { permitted = false; invite = none }

module _ {rt : Runtime} where
  -- overlay_up
  unfoldable pub overlay_up : Shell rt → Cart rt → Bool
  unfolding network_overlay fault
  overlay_up s c =
      network_overlay s || s.paused || not (is_some c.guest) || is_some (fault c.status)

  -- Console::from_cart
  unfoldable pub from_cart : Cart rt → Console rt
  from_cart cart = record { cart = cart; shell = none; chord = fresh; net_env = no_env }

  -- Console::new_with, and Console::new with `Preload::Decode`
  unfoldable pub new_with :
      rt.Source → (Bytes → Bytes → Result Fault rt.Guest) → Preload → Console rt
  unfolding from_cart load
  new_with source factory preload = from_cart (load source factory preload no_env)

  unfoldable pub from_guest : rt.Guest → Console rt
  unfolding from_cart empty
  from_guest g = let cart : Cart rt = empty in from_cart (record cart { guest = some g })

  unfoldable pub with_shell :
      rt.Guest
      → List CartEntry
      → Settings
      → (Bytes → Result Fault (rt.Source × rt.Store))
      → (Bytes → Bytes → Result Fault rt.Guest)
      → Preload
      → Console rt
  unfolding from_cart empty new_state size new_sys
  with_shell g carts settings opener factory preload =
      let state : State rt = new_state rt (size ScreenMode.high) rt.empty_source in
      let c : Console rt = from_cart empty in
      record c {
        shell = some (record {
          guest = g;
          state = record state { sys = some (new_sys carts settings) };
          frame = 0;
          status = running;
          presentation = [];
          paused = false;
          menu_was = false;
          stale = 0;
          shell_stale = 0;
          opener = opener;
          factory = factory;
          preload = preload;
          host_requests = [];
        });
      }

  -- Shell::settings
  unfoldable pub settings : Shell rt → Settings
  settings s = elim s.state.sys [ none ↦ default_settings | some sys ↦ sys.settings ]

  -- The overlay follows the size of the cart's screen.
  unfoldable pub follow : ℕ → ℕ → Shell rt → Shell rt
  unfolding new_state
  follow w h s =
      if s.state.width == w && s.state.height == h
      then s
      else (let state : State rt = new_state rt (w, h) rt.empty_source in
          record s { state = record state { sys = s.state.sys } })

  -- The master volume of a cart; the volume is cut to a byte.
  unfoldable pub set_volume : ℕ → Cart rt → Cart rt
  set_volume v cart =
      let state = cart.state in
      record cart { state = record state { media = rt.set_master (v % 256) state.media } }

  unfoldable pub install_cart : Cart rt → Console rt → Console rt
  unfolding set_volume settings follow in_session
  install_cart cart₀ c =
      let owed = c.cart.net_teardown || in_session c.cart in
      elim c.shell [
        | none ↦ record c { cart = record cart₀ { net_teardown = owed } }
        | some s ↦
            let cart : Cart rt = set_volume (settings s).volume cart₀ in
            let s' : Shell rt = follow cart.state.width cart.state.height s in
            record c {
              cart = record cart { net_teardown = owed };
              shell = some (record s' { paused = false });
            }
      ]

  unfoldable pub load_cart : rt.Source → rt.Store → Console rt → Console rt
  unfolding load install_cart
  load_cart source store c = elim c.shell [
    | none ↦ c
    | some s ↦
        let cart : Cart rt = load source s.factory s.preload c.net_env in
        let state = cart.state in
        install_cart (record cart { state = record state { saves = store } }) c
  ]

  unfoldable pub clear_invite : Console rt → Console rt
  clear_invite c = let env = c.net_env in record c { net_env = record env { invite = none } }

  unfoldable pub on_shell : (Shell rt → Shell rt) → Console rt → Console rt
  on_shell change c = elim c.shell [ none ↦ c | some s ↦ record c { shell = some (change s) } ]

  unfoldable pub host_load_cart : rt.Source → rt.Store → Console rt → Console rt
  unfolding clear_invite with_view reset_session load_cart on_shell with_sys
  host_load_cart source store c = elim c.shell [
    | none ↦ c
    | some s ↦
        on_shell (with_sys (λ sys. record sys { host_started = true }))
          (load_cart source store (with_view reset_session (clear_invite c)))
  ]

  unfoldable pub run_shell_cart : Bytes → Console rt → Console rt
  unfolding with_view reset_session load_cart install_cart faulted_cart
  run_shell_cart name c =
      let c' : Console rt = with_view reset_session c in
      elim c.shell [
        | none ↦ c'
        | some s ↦ elim (s.opener name) [
          | ok got ↦ load_cart got.0 got.1 c'
          | err f ↦ install_cart (faulted_cart f default_manifest none) c'
        ]
      ]

  -- The request goes on to the host.
  unfoldable pub forward : SysRequest → Console rt → Console rt
  unfolding on_shell
  forward r c = on_shell (λ s. record s { host_requests = s.host_requests ++ r ∷ [] }) c

  unfoldable pub on_sys : (SysState → SysState) → Console rt → Console rt
  unfolding on_shell with_sys
  on_sys change c = on_shell (with_sys change) c

  -- The arm of `Restart`, after the view: the cart's saves go on, and a fresh store takes their place.
  unfoldable pub restart : Console rt → Console rt
  unfolding load_cart
  restart c = elim c.cart.source [
    | none ↦ c
    | some source ↦
        let cart = c.cart in
        let state = cart.state in
        load_cart source state.saves
          (record c { cart = record cart { state = record state { saves = rt.memory_store } } })
  ]

  -- Console::apply
  unfoldable pub apply_request : SysRequest → Console rt → Console rt
  unfolding run_shell_cart forward on_sys on_shell with_view reset_session restart clear_invite
      install_cart empty set_volume
  apply_request (SysRequest.run_network name invite) c =
      let env = c.net_env in
      run_shell_cart name (record c { net_env = record env { invite = invite } })
  apply_request (SysRequest.network (Action.overlay on)) c =
      with_view (λ v. record v { overlay = on }) c
  apply_request (SysRequest.network action) c = forward (SysRequest.network action) c
  apply_request (SysRequest.run name) c = run_shell_cart name (clear_invite c)
  apply_request SysRequest.restart c = restart (with_view reset_session c)
  apply_request SysRequest.quit c =
      install_cart empty
        (on_shell (λ s. record s { paused = false }) (with_view reset_session (clear_invite c)))
  apply_request (SysRequest.paused on) c = on_shell (λ s. record s { paused = on }) c
  apply_request SysRequest.exit c = forward SysRequest.exit c
  apply_request (SysRequest.dev answer) c = forward (SysRequest.dev answer) c
  apply_request (SysRequest.set_scale n) c = forward (SysRequest.set_scale n) (
      on_sys (λ sys. let now = sys.settings in record sys { settings = record now { scale = n } })
        c)
  apply_request (SysRequest.set_volume v) c =
      let c' : Console rt =
        on_sys
          (λ sys. let now = sys.settings in record sys { settings = record now { volume = v } })
          c in
      forward (SysRequest.set_volume v) (record c' { cart = set_volume v c'.cart })
  apply_request (SysRequest.set_net on) c =
      let c' : Console rt =
        on_sys (λ sys. let now = sys.settings in record sys { settings = record now { net = on } })
          c in
      let env = c'.net_env in
      forward (SysRequest.set_net on) (record c' { net_env = record env { permitted = on } })

  unfoldable pub apply_all : List SysRequest → Console rt → Console rt
  unfolding apply_request
  apply_all [] c = c
  apply_all (r ∷ rs) c = apply_all rs (apply_request r c)
