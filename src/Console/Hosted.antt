-- ===== src/Console/Hosted.antt =====
-- A console from its start, and what a host does with it and with its link: crates/kuula-core/src/console.rs
-- and console/net_side.rs.
use kuula.Prelude.{
  ℕ, ◌≡◌, refl, sym, inl, inr, Bool, true, Option, none, some, List, [], ◌∷◌, ◌==◌, arith,
  if_either, if◌then◌else◌, Option-cases,
}
use mathlib.Core.Path.{subst}
use kuula.Prelude.Bytes.{Bytes}
use kuula.Prelude.Result.{Result}
use kuula.Net.State.{NetState, NetEnv}
use kuula.Net.Link.{Transport, Obeys, Link, set_permitted, new as new_link}
use kuula.Net.Link.Gate.{IsGated, set_permitted-IsGated}
use kuula.Net.Link.Runs.{run, run-new-IsGated}
use kuula.Shell.{Fault, CartEntry, Settings, reset_session}
use kuula.Console.{Runtime, Shell, Console, Preload, with_sys}
use kuula.Console.Carts.{empty, load}
use kuula.Console.Frame.{
  from_cart, new_with, from_guest, with_shell, host_load_cart, load_cart, clear_invite, on_shell,
}
use kuula.Console.Network.{set_net_env, with_view}
use kuula.Console.Requests.{
  IsFresh, empty-IsFresh, load-IsFresh, keeps_cart, view_keeps_cart, load_cart-kept,
}
use kuula.Console.Teardown.{Polite}
use kuula.Console.Sessions.{if_some_of, IsRested, IsSound, IsSound-IsKept, fresh-IsSound}
use kuula.Console.Linked.{step_linked-IsSound}
use kuula.Console.Step.{step_linked}

-- How a console begins: with a cart, with a guest alone, or with a shell.
pub data Begin (rt : Runtime) : Type 0 where
  with_cart : rt.Source → (Bytes → Bytes → Result Fault rt.Guest) → Preload → Begin rt
  with_guest : rt.Guest → Begin rt
  shelled :
      rt.Guest
      → List CartEntry
      → Settings
      → (Bytes → Result Fault (rt.Source × rt.Store))
      → (Bytes → Bytes → Result Fault rt.Guest)
      → Preload
      → Begin rt

-- A frame with its buttons, the person's permission for the link and for the console, and a cart that the
-- host loads.
pub data HostOp (rt : Runtime) : Type 0 where
  frames : ℕ → HostOp rt
  permits : Bool → HostOp rt
  tells : NetEnv → HostOp rt
  loads : rt.Source → rt.Store → HostOp rt

module _ {rt : Runtime} where
  unfoldable pub begin : Begin rt → Console rt
  unfolding new_with from_guest with_shell
  begin (with_cart source factory preload) = new_with source factory preload
  begin (with_guest g) = from_guest g
  begin (shelled g carts settings opener factory preload) =
      with_shell g carts settings opener factory preload

  unfoldable pub host_step :
      {tr : Transport} → HostOp rt → Console rt × Link tr → Console rt × Link tr
  unfolding step_linked set_permitted set_net_env host_load_cart
  host_step (frames input) (c, l) = step_linked input c l
  host_step (permits on) (c, l) = (c, set_permitted on l)
  host_step (tells env) (c, l) = (set_net_env env c, l)
  host_step (loads source store) (c, l) = (host_load_cart source store c, l)

  unfoldable pub run_hosted :
      {tr : Transport} → List (HostOp rt) → Console rt × Link tr → Console rt × Link tr
  unfolding host_step
  run_hosted [] s = s
  run_hosted (o ∷ ops) s = run_hosted ops (host_step o s)

  begin-IsSound : (b : Begin rt) → IsSound (begin b).cart
  unfolding begin new_with from_guest with_shell from_cart
  begin-IsSound (with_cart source factory preload) =
      fresh-IsSound (load source factory preload _) (load-IsFresh source factory preload _)
  begin-IsSound (with_guest g) =
      let v : IsFresh {rt = rt} empty = empty-IsFresh in
      fresh-IsSound (record empty { guest = some g }) (record { pending = v.pending; net = v.net })
  begin-IsSound (shelled g carts settings opener factory preload) =
      fresh-IsSound empty empty-IsFresh

  -- The permission and the invitation do not touch what waits.
  told : NetEnv → Console rt → Option NetState → Console rt
  told env c none = record c { net_env = env }
  told env c (some n) =
      let cart = c.cart in
      let state = cart.state in
      record c {
        net_env = env;
        cart = record cart {
          state = record state {
            net = some (record n { permitted = env.permitted; invite = env.invite });
          };
        };
      }

  told-IsSound :
      (env : NetEnv) (c : Console rt) (o : Option NetState)
      → c.cart.state.net ≡ o
      → IsSound c.cart
      → IsSound (told env c o).cart
  unfolding told
  told-IsSound env c none e v = record { net = v.net; pending = v.pending }
  told-IsSound env c (some n) e v =
      let rested : IsRested n = if_some_of IsRested c.cart.state.net e v.net in
      record {
        net = record { inbox = rested.inbox; outbox = rested.outbox; rate = rested.rate };
        pending = v.pending;
      }

  set_net_env-told :
      (env : NetEnv) (c : Console rt)
      → set_net_env env c
        ≡ (if c.cart.frame == 0 then told env c c.cart.state.net else record c { net_env = env })
  unfolding set_net_env told
  set_net_env-told env c = elim (Option-cases c.cart.state.net) [
    | inl e ↦ ground (arith, e)
    | inr (n, e) ↦ ground (arith, e)
  ]

  set_net_env-IsSound :
      (env : NetEnv) (c : Console rt) → IsSound c.cart → IsSound (set_net_env env c).cart
  set_net_env-IsSound env c v =
      subst (λ (x : Console rt). IsSound x.cart) (sym (set_net_env-told env c))
        (if_either (λ (x : Console rt). IsSound x.cart) (c.cart.frame == 0)
          (told env c c.cart.state.net) (record c { net_env = env })
          (λ e. told-IsSound env c c.cart.state.net refl v) (λ e. v))

  hosted :
      (source : rt.Source) (store : rt.Store) (c : Console rt) (s : Shell rt)
      → c.shell ≡ some s
      → host_load_cart source store c
        ≡ on_shell
            (with_sys (λ sys. record sys { host_started = true }))
            (load_cart source store (with_view reset_session (clear_invite c)))
  unfolding host_load_cart
  hosted source store c s e = ground (arith, e)

  host_load_cart-IsSound :
      (source : rt.Source) (store : rt.Store) (c : Console rt)
      → IsSound c.cart
      → IsSound (host_load_cart source store c).cart
  unfolding host_load_cart clear_invite
  host_load_cart-IsSound source store c v = elim (Option-cases c.shell) [
    | inl e ↦ rw (host_load_cart, e) v
    | inr (s, e) ↦
        let c₁ : Console rt = with_view reset_session (clear_invite c) in
        let v₁ : IsSound c₁.cart =
          subst IsSound (sym (view_keeps_cart reset_session (clear_invite c))) v in
        let c₂ : Console rt = load_cart source store c₁ in
        let change : Shell rt → Shell rt = with_sys (λ sys. record sys { host_started = true }) in
        let v₂ : IsSound c₂.cart = load_cart-kept IsSound-IsKept source store c₁ v₁ in
        let v₃ : IsSound (on_shell change c₂).cart =
          subst IsSound (sym (keeps_cart change c₂)) v₂ in
        subst (λ (x : Console rt). IsSound x.cart) (sym (hosted source store c s e)) v₃
  ]

  host_step-IsSound :
      {tr : Transport}
      → Polite rt
      → Obeys tr
      → (o : HostOp rt) (c : Console rt) (l : Link tr) → IsSound c.cart
      → IsGated l
      → IsSound (host_step o (c, l)).0.cart × IsGated (host_step o (c, l)).1
  unfolding host_step
  host_step-IsSound polite obeys (frames input) c l v g =
      step_linked-IsSound polite obeys input c l v g
  host_step-IsSound polite obeys (permits on) c l v g = (v, set_permitted-IsGated on l g)
  host_step-IsSound polite obeys (tells env) c l v g = (set_net_env-IsSound env c v, g)
  host_step-IsSound polite obeys (loads source store) c l v g =
      (host_load_cart-IsSound source store c v, g)

  run_hosted-IsSound :
      {tr : Transport}
      → Polite rt
      → Obeys tr
      → (ops : List (HostOp rt)) (c : Console rt) (l : Link tr) → IsSound c.cart
      → IsGated l
      → IsSound (run_hosted ops (c, l)).0.cart × IsGated (run_hosted ops (c, l)).1
  unfolding run_hosted
  run_hosted-IsSound polite obeys [] c l v g = (v, g)
  run_hosted-IsSound polite obeys (o ∷ ops) c l v g =
      let (v', g') = host_step-IsSound polite obeys o c l v g in
      run_hosted-IsSound polite obeys ops (host_step o (c, l)).0 (host_step o (c, l)).1 v' g'

  -- If the guests only make the calls of the `net` table and the transport polls no more than it is
  -- asked for, then for a console from its start and a fresh link, after any frames through the link,
  -- any permissions and any carts that the host loads, whatever the shell asks for in them: at most 64
  -- plain events wait for the cart and 256 in its inbox, its outbox holds at most 32 commands and 16
  -- sends, and the link keeps its permission gate and its own bound.
  pub run_hosted-begin-IsSound :
      {tr : Transport}
      → Polite rt
      → Obeys tr
      → (ops : List (HostOp rt)) (b : Begin rt) (w : tr.World)
      → IsSound (run_hosted ops (begin b, new_link {tr = tr} w)).0.cart
        × IsGated (run_hosted ops (begin b, new_link {tr = tr} w)).1
  unfolding run new_link
  run_hosted-begin-IsSound {tr} polite obeys ops b w =
      run_hosted-IsSound polite obeys ops (begin b) (new_link {tr = tr} w) (begin-IsSound b)
        (run-new-IsGated {tr = tr} [] w)
