-- ===== src/Console/Sessions.antt =====
-- The bounds of what waits for a cart and from it, through the steps of the cart.
use kuula.Prelude.{
  ℕ, ◌+◌, ◌≤◌, ◌≡◌, inl, inr, Bool, Option, none, some, List, [], ◌∷◌, min, take, drop, length,
  arith, zero, suc, Option-cases,
}
use mathlib.Core.Path.{subst}
use mathlib.Core.Option.{some_inj}
use kuula.Prelude.Result.{Result, ok, err}
use kuula.Net.{Event, inbox_cap, max_batch, max_commands, max_sends}
use kuula.Net.State.{NetState, new}
use kuula.Net.State.Bounds.{
  IsBounded, count_plain, count_sends, begin_frame-IsBounded, steps-IsBounded, new-IsBounded,
}
use kuula.Shell.{Fault}
use kuula.Console.{Runtime, State, Cart}
use kuula.Console.Carts.{admit_batch, settle, run_guest, declared, render, step}
use kuula.Console.Frame.{set_volume}
use kuula.Console.Requests.{IsKept, IsFresh}
use kuula.Console.Teardown.{Polite, status_cases}

-- The queues of a cart's network state between two frames.
pub record IsRested (n : NetState) : Type 0 where
  pub inbox : count_plain n.inbox ≤ inbox_cap
  pub outbox : length n.outbox ≤ max_commands
  pub rate : count_sends n.outbox ≤ max_sends

count_plain-drop : (k : ℕ) (es : List Event) → count_plain (drop k es) ≤ count_plain es
unfolding count_plain
count_plain-drop zero es = omega arith
count_plain-drop (suc k) [] = omega arith
count_plain-drop (suc k) (e ∷ es) = omega (arith, count_plain-drop k es)

bounded_rests : (n : NetState) → IsBounded n → IsRested n
bounded_rests n v = record {
  inbox = v.inbox;
  outbox = v.outbox;
  rate = omega (arith, v.counted, v.rate);
}

-- A predicate on what an option holds.
abbrev pub IfSome {ℓ κ} : {A : Type ℓ} → (A → Type κ) → Option A → Type κ
IfSome P none = Unit
IfSome P (some a) = P a

IfSome-map {ℓ κ μ} :
    {A : Type ℓ} {P : A → Type κ} {Q : A → Type μ} (o : Option A)
    → ((a : A) → P a → Q a)
    → IfSome P o
    → IfSome Q o
IfSome-map none f p = tt
IfSome-map (some a) f p = f a p

pub if_some_of {ℓ κ} :
    {A : Type ℓ} (P : A → Type κ) (o : Option A) {a : A} → o ≡ some a → IfSome P o → P a
if_some_of P none e p = cc
if_some_of P (some b) e p = subst P (some_inj.0 e) p

module _ {rt : Runtime} where
  -- What waits for a cart, in both directions, is bounded.
  pub record IsSound (cart : Cart rt) : Type 0 where
    pub net : IfSome IsRested cart.state.net
    pub pending : count_plain cart.net_pending ≤ max_batch

  pub fresh-IsSound : (fresh : Cart rt) → IsFresh fresh → IsSound fresh
  unfolding count_plain
  fresh-IsSound fresh v = record {
    net = elim v.net [
      | inl q ↦ rw (q) tt
      | inr (env, q) ↦ rw (q) (bounded_rests (new env) (new-IsBounded env))
    ];
    pending = rw (v.pending) (omega arith);
  }

  replace-IsSound :
      (fresh : Cart rt) (owed : Bool)
      → IsFresh fresh
      → IsSound (record fresh { net_teardown = owed })
  replace-IsSound fresh owed v =
      let sound : IsSound fresh = fresh-IsSound fresh v in
      record { net = sound.net; pending = sound.pending }

  pub IsSound-IsKept : IsKept {rt = rt} IsSound
  unfolding set_volume
  IsSound-IsKept = record {
    replace = λ fresh old v p. replace-IsSound fresh _ v;
    volume = λ v cart p. record { net = p.net; pending = p.pending };
    saves = λ store cart p. record { net = p.net; pending = p.pending };
  }

  -- Once the frame has begun the network state is within the bounds of a frame.
  record IsBegun (cart : Cart rt) : Type 0 where
    net : IfSome IsBounded cart.state.net
    pending : count_plain cart.net_pending ≤ max_batch

  admit_batch-IsBegun : (cart : Cart rt) → IsSound cart → IsBegun (admit_batch cart)
  unfolding admit_batch
  admit_batch-IsBegun cart v = elim (Option-cases cart.state.net) [
    | inl e ↦ rw (e, admit_batch) (record { net = rw (e) tt; pending = v.pending })
    | inr (n, e) ↦
        let k = min (length cart.net_pending) max_batch in
        let rested : IsRested n = if_some_of IsRested cart.state.net e v.net in
        rw (e, admit_batch)
          (record {
            net = begin_frame-IsBounded (take k cart.net_pending) n rested.inbox;
            pending = omega (arith, count_plain-drop k cart.net_pending, v.pending);
          })
  ]

  settle-IsSound :
      (got : rt.Guest × State rt × Result Fault (Unit {0})) (cart : Cart rt)
      → IfSome IsBounded got.1.net
      → count_plain cart.net_pending ≤ max_batch
      → IsSound (settle got cart)
  unfolding settle
  settle-IsSound (g, state, ok tt) cart v p = record {
    net = IfSome-map state.net bounded_rests v;
    pending = p;
  }
  settle-IsSound (g, state, err f) cart v p = record {
    net = IfSome-map state.net bounded_rests v;
    pending = p;
  }

  guest_step-IsBounded :
      Polite rt
      → (g : rt.Guest) (input frame : ℕ) (s : State rt) → IfSome IsBounded s.net
      → IfSome IsBounded (rt.guest_step g input frame s).1.net
  guest_step-IsBounded polite g input frame s v =
      let (ops, calls, e) = polite.calls g input frame s in
      elim (Option-cases s.net) [
        | inl q ↦ rw (e, q) tt
        | inr (n, q) ↦
            let v' : IsBounded n = if_some_of IsBounded s.net q v in
            rw (e, q) (steps-IsBounded ops n v')
      ]

  run_guest-IsSound :
      Polite rt
      → (input : ℕ) (g : rt.Guest) (cart : Cart rt) → IsSound cart
      → IsSound (run_guest input g cart)
  unfolding run_guest
  run_guest-IsSound polite input g cart v =
      let cart' : Cart rt = admit_batch (record cart { frame = cart.frame + 1 }) in
      let begun : IsBegun cart' =
        admit_batch-IsBegun (record cart { frame = cart.frame + 1 })
          (record { net = v.net; pending = v.pending }) in
      settle-IsSound (rt.guest_step g input cart'.frame cart'.state) cart'
        (guest_step-IsBounded polite g input cart'.frame cart'.state begun.net) begun.pending

  render-IsSound : (cart : Cart rt) → IsSound cart → IsSound (render cart)
  unfolding render
  render-IsSound cart v = record { net = v.net; pending = v.pending }

  pub step-IsSound :
      Polite rt → (input : ℕ) (cart : Cart rt) → IsSound cart → IsSound (step input cart)
  unfolding step
  step-IsSound polite input cart v = elim (status_cases cart.status) [
    | inr (f, e) ↦ rw (e, step) (render-IsSound cart v)
    | inl e ↦ elim (Option-cases cart.guest) [
      | inl n ↦ rw (e, n, step) (render-IsSound cart v)
      | inr (g, n) ↦
          let input' = declared cart.manifest input in
          rw (e, n, step)
            (render-IsSound (run_guest input' g cart) (run_guest-IsSound polite input' g cart v))
    ]
  ]
