-- ===== src/Console/Teardown.antt =====
-- The sessions of carts: a session does not outlive its cart.
use kuula.Prelude.{
  ℕ, ◌+◌, ◌≡◌, refl, ap, ◌⊎◌, ◌∙◌, inl, inr, Bool, true, false, ◌||◌, none, some, List, [], min,
  take, length, arith, All, Bool-cases, Option-cases,
}
use kuula.Prelude.Result.{Result, ok, err}
use kuula.Net.{max_batch, Event}
use kuula.Net.State.{Op, frame, steps, used_link, new}
use kuula.Net.State.Used.{steps-IsUsed, begin_frame-IsUsed}
use kuula.Shell.{Fault}
use kuula.Console.{Runtime, State, Cart, Console, ConsoleState, running, faulted, is_running}
use kuula.Console.Carts.{in_session, admit_batch, settle, run_guest, declared, render, step}
use kuula.Console.Network.{clear_outbox, take_net_commands}
use kuula.Console.Frame.{set_volume}
use kuula.Console.Requests.{IsKept}
use kuula.Console.Invariants.{offered, step_with-kept}
use kuula.Console.Step.{step_with}

-- A call that a cart makes, and not the frame that the host begins.
abbrev pub IsCall : Op → Type 0
IsCall (frame events) = ⊥
IsCall _ = Unit

-- What a guest may do to the network state of its draw state: the calls of the `net` table, in any
-- order; where there is none it makes none.
pub record Polite (rt : Runtime) : Type 0 where
  pub calls :
      (g : rt.Guest) (input frame : ℕ) (s : State rt)
      → (ops : List Op) × All IsCall ops
        × ((rt.guest_step g input frame s).1.net
            ≡ (elim s.net [ none ↦ none | some n ↦ some (steps ops n) ]))

pub status_cases : (s : ConsoleState) → (s ≡ running) ⊎ ((f : Fault) × (s ≡ faulted f))
status_cases running = inl refl
status_cases (faulted f) = inr (f, refl)

module _ {rt : Runtime} where
  -- The host is owed, or will be owed, the end of a session.
  abbrev pub owes : Cart rt → Bool
  owes cart = cart.net_teardown || in_session cart

  -- Taking the commands leaves none to take, in any state: a `Leave` is given once.
  pub take-take_net_commands : (c : Console rt) → (take_net_commands (take_net_commands c).0).1 ≡ []
  unfolding take_net_commands clear_outbox
  take-take_net_commands c = ground arith

  admit_batch-owes : (cart : Cart rt) → owes cart ≡ true → owes (admit_batch cart) ≡ true
  unfolding admit_batch in_session
  admit_batch-owes cart v = elim (Option-cases cart.state.net) [
    | inl e ↦ ground (arith, e, v)
    | inr (n, e) ↦ ground (
      arith,
      e,
      v,
      begin_frame-IsUsed (take (min (length cart.net_pending) max_batch) cart.net_pending) n,
    )
  ]

  -- The state that the guest leaves is in a session if the one it got was.
  guest_step-in_session :
      Polite rt
      → (g : rt.Guest) (input : ℕ) (cart : Cart rt) → in_session cart ≡ true
      → in_session (record cart { state = (rt.guest_step g input cart.frame cart.state).1 }) ≡ true
  unfolding in_session
  guest_step-in_session polite g input cart v =
      let (ops, calls, e) = polite.calls g input cart.frame cart.state in
      elim (Option-cases cart.state.net) [
        | inl q ↦ ground (arith, q, v)
        | inr (n, q) ↦ ground (arith, q, v, e, steps-IsUsed ops n)
      ]

  settle-owes :
      (got : rt.Guest × State rt × Result Fault (Unit {0})) (cart : Cart rt)
      → cart.net_teardown || in_session (record cart { state = got.1 }) ≡ true
      → owes (settle got cart) ≡ true
  unfolding settle
  settle-owes (g, state, ok tt) cart v = v
  settle-owes (g, state, err f) cart v = ground (arith, v)

  run_guest-owes :
      Polite rt
      → (input : ℕ) (g : rt.Guest) (cart : Cart rt) → owes cart ≡ true
      → owes (run_guest input g cart) ≡ true
  unfolding run_guest
  run_guest-owes polite input g cart v =
      let cart' : Cart rt = admit_batch (record cart { frame = cart.frame + 1 }) in
      let v' : owes cart' ≡ true = admit_batch-owes (record cart { frame = cart.frame + 1 }) v in
      settle-owes (rt.guest_step g input cart'.frame cart'.state) cart'
        (elim (Bool-cases cart'.net_teardown) [
          | inl e ↦ ground (arith, e)
          | inr e ↦ ground (arith, e, v', guest_step-in_session polite g input cart')
        ])

  pub step-owes :
      Polite rt → (input : ℕ) (cart : Cart rt) → owes cart ≡ true → owes (step input cart) ≡ true
  unfolding step render in_session
  step-owes polite input cart v = elim (Option-cases cart.guest) [
    | inl e ↦ ground (arith, e, v)
    | inr (g, e) ↦
        ground (arith, e, v, run_guest-owes polite (declared cart.manifest input) g cart v)
  ]

  -- A cart that takes another's place owes what that one owed.
  owes-IsKept : IsKept {rt = rt} (λ cart. owes cart ≡ true)
  unfolding set_volume in_session
  owes-IsKept = record {
    replace = λ fresh old v p. ground (arith, p);
    volume = λ v cart p. p;
    saves = λ store cart p. p;
  }

  offered-owes :
      (events : List Event) (cart : Cart rt) → owes cart ≡ true → owes (offered events cart) ≡ true
  unfolding in_session
  offered-owes events cart v = elim (Option-cases cart.state.net) [
    | inl e ↦ ground (arith, e, v)
    | inr (n, e) ↦ ground (arith, e, v)
  ]

  -- What the host is owed is still owed after a frame, whichever cart the console has then.
  pub step_with-owes :
      Polite rt
      → (input : ℕ) (events : List Event) (c : Console rt) → owes c.cart ≡ true
      → owes (step_with input events c).cart ≡ true
  unfolding in_session
  step_with-owes polite input events c v =
      step_with-kept owes-IsKept (step-owes polite) (λ cart p. p) input events c
        (offered-owes events c.cart v)

  -- A cart that has faulted in a session owes its end.
  abbrev pub IsEnded : Cart rt → Type 0
  IsEnded cart = is_running cart.status ≡ false → in_session cart ≡ true → cart.net_teardown ≡ true

  pub IsEnded-IsKept : IsKept {rt = rt} IsEnded
  unfolding set_volume in_session used_link new
  IsEnded-IsKept = record {
    replace = λ fresh old v p f s. ground (arith, v.net, s);
    volume = λ v cart p. p;
    saves = λ store cart p. p;
  }

  settle-IsEnded :
      (got : rt.Guest × State rt × Result Fault (Unit {0})) (cart : Cart rt)
      → is_running cart.status ≡ true
      → IsEnded (settle got cart)
  unfolding settle is_running in_session
  settle-IsEnded (g, state, ok tt) cart r f s = ground (arith, r, f)
  settle-IsEnded (g, state, err why) cart r f s = ground (arith, s)

  admit_batch_status : (cart : Cart rt) → (admit_batch cart).status ≡ cart.status
  unfolding admit_batch
  admit_batch_status cart = elim (Option-cases cart.state.net) [
    | inl e ↦ ground (arith, e)
    | inr (n, e) ↦ ground (arith, e)
  ]

  run_guest-IsEnded :
      (input : ℕ) (g : rt.Guest) (cart : Cart rt)
      → is_running cart.status ≡ true
      → IsEnded (run_guest input g cart)
  unfolding run_guest
  run_guest-IsEnded input g cart r =
      let cart' : Cart rt = admit_batch (record cart { frame = cart.frame + 1 }) in
      settle-IsEnded (rt.guest_step g input cart'.frame cart'.state) cart'
        (ap is_running (admit_batch_status (record cart { frame = cart.frame + 1 })) ∙ r)

  render_keeps : (cart : Cart rt) → IsEnded cart → IsEnded (render cart)
  unfolding render in_session
  render_keeps cart p = p

  pub step-IsEnded : (input : ℕ) (cart : Cart rt) → IsEnded cart → IsEnded (step input cart)
  unfolding step is_running
  step-IsEnded input cart p = elim (status_cases cart.status) [
    | inl e ↦ elim (Option-cases cart.guest) [
      | inl n ↦ rw (e, n, step) (render_keeps cart p)
      | inr (g, n) ↦
          let input' = declared cart.manifest input in
          rw (e, n, step)
            (render_keeps (run_guest input' g cart)
              (run_guest-IsEnded input' g cart (ground (arith, e))))
    ]
    | inr (f, e) ↦ rw (e, step) (render_keeps cart p)
  ]
