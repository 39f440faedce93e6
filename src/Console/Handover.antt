-- ===== src/Console/Handover.antt =====
-- The buttons held when the shell and the cart hand over to each other.
use kuula.Prelude.{
  ℕ, ◌<◌, ◌≡◌, refl, ap₂, ◌∙◌, inl, inr, Bool, true, false, ◌&&◌, not, none, some, List, arith,
  Option-cases, if◌then◌else◌,
}
use kuula.Prelude.Words.{band, bit, bit-band}
use kuula.Net.{Event}
use kuula.Input.{apply}
use kuula.Console.{Runtime, Cart, Shell, Console, network_overlay}
use kuula.Console.Stales.{pair_of, stales, offer_keeps, both_turns-stales}
use kuula.Console.Network.{offer_net_events}
use kuula.Console.Frame.{overlay_up}
use kuula.Console.Step.{
  release, finish, step_both, clear_log, step_with, both_turns, reassign, present,
}

module _ {rt : Runtime} where
  -- What the stale buttons of the cart become in a frame: those still held, or all that are held where
  -- the shell hands over.
  abbrev pub IsStale : ℕ → Console rt → Type 0
  IsStale n c = elim c.shell [ none ↦ ⊥ | some s ↦ bit n s.stale ≡ true ]

  -- Neither touches what the overlay depends on.
  present_keeps :
      (cart : Cart rt) (s : Shell rt)
      → (pair_of (present cart s) ≡ pair_of s)
        × ((present cart s).state ≡ s.state)
        × ((present cart s).paused ≡ s.paused)
  unfolding present
  present_keeps cart s = ground arith

  reassign_keeps :
      (b : ℕ) (active now : Bool) (s : Shell rt)
      → ((reassign b active now s).state ≡ s.state) × ((reassign b active now s).paused ≡ s.paused)
  unfolding reassign
  reassign_keeps b true true s = (refl, refl)
  reassign_keeps b true false s = (refl, refl)
  reassign_keeps b false true s = (refl, refl)
  reassign_keeps b false false s = (refl, refl)

  reassign_moves :
      (b : ℕ) (active : Bool) (s : Shell rt)
      → pair_of (reassign b active (not active) s)
        ≡ (if active then (b, s.shell_stale) else (s.stale, b))
  unfolding reassign
  reassign_moves b true s = refl
  reassign_moves b false s = refl

  reassign_stale :
      (n b : ℕ) (active now : Bool) (s : Shell rt)
      → bit n b ≡ true
      → bit n s.stale ≡ true
      → bit n (reassign b active now s).stale ≡ true
  unfolding reassign
  reassign_stale n b true true s h v = v
  reassign_stale n b true false s h v = h
  reassign_stale n b false true s h v = v
  reassign_stale n b false false s h v = v

  IsStale-finish :
      (n b : ℕ) (active : Bool) (c : Console rt)
      → bit n b ≡ true
      → IsStale n c
      → IsStale n (finish b active c)
  unfolding finish
  IsStale-finish n b active c h v = elim (Option-cases c.shell) [
    | inl e ↦ ground (arith, e, v)
    | inr (s, e) ↦
        let now = overlay_up s c.cart in
        ground (
          arith,
          e,
          v,
          present_keeps c.cart (reassign b active now s),
          reassign_stale n b active now s h,
        )
  ]

  IsStale-stales : (n : ℕ) (c c' : Console rt) → stales c' ≡ stales c → IsStale n c → IsStale n c'
  IsStale-stales n c c' e v = ground (arith, e, v)

  IsStale-pair_of :
      (n : ℕ) (c : Console rt) (s : Shell rt)
      → stales c ≡ some (pair_of s)
      → bit n s.stale ≡ true
      → IsStale n c
  IsStale-pair_of n c s e v = ground (arith, e, v)

  step_both-IsStale :
      (n b : ℕ) (s : Shell rt) (c : Console rt)
      → n < 16
      → bit n b ≡ true
      → bit n s.stale ≡ true
      → IsStale n (step_both b s c)
  unfolding step_both release
  step_both-IsStale n b s c l h v =
      let still : bit n (band 16 s.stale b) ≡ true =
        bit-band 16 n s.stale b l ∙ ap₂ (λ x y. x && y) v h in
      IsStale-finish n b (overlay_up s c.cart) (both_turns b s c) h
        (IsStale-pair_of n (both_turns b s c) (release b s) (both_turns-stales b s c) still)

  -- While a button that the cart must not see is held on, it stays one that it must not see: whatever
  -- events come, whatever both guests do, and whatever the shell asks for.
  pub step_with-IsStale :
      (n input : ℕ) (events : List Event) (c : Console rt)
      → n < 16
      → bit n (apply input c.chord).0 ≡ true
      → IsStale n c
      → IsStale n (step_with input events c)
  unfolding step_with clear_log
  step_with-IsStale n input events c l h v =
      let c₁ : Console rt = clear_log (offer_net_events events c) in
      let (kept, chord) = offer_keeps events c in
      let v₁ : IsStale n c₁ = IsStale-stales n c c₁ kept v in
      let h₁ : bit n (apply input c₁.chord).0 ≡ true = ground (arith, h, chord) in
      elim (Option-cases c₁.shell) [
        | inl e ↦ ground (arith, e, v₁)
        | inr (s, e) ↦ ground (
          arith,
          e,
          v₁,
          step_both-IsStale n (apply input c₁.chord).0 s
              (record c₁ { chord = (apply input c₁.chord).1 }) l h₁,
        )
      ]

  overlay_up-present :
      (b : ℕ) (active now : Bool) (s : Shell rt) (cart : Cart rt)
      → overlay_up (present cart (reassign b active now s)) cart ≡ overlay_up s cart
  unfolding overlay_up network_overlay
  overlay_up-present b active now s cart =
      ground (arith, present_keeps cart (reassign b active now s), reassign_keeps b active now s)

  finish-handover :
      (b : ℕ) (active : Bool) (c : Console rt) (s : Shell rt)
      → (finish b active c).shell ≡ some s
      → (overlay_up s (finish b active c).cart ≡ not active)
      → pair_of s ≡ (if active then (b, s.shell_stale) else (s.stale, b))
  unfolding finish
  finish-handover b active c s e o = elim (Option-cases c.shell) [
    | inl q ↦ absurd (ground (arith, e, q))
    | inr (s', q) ↦
        let now = overlay_up s' c.cart in
        let s₂ : Shell rt = reassign b active now s' in
        ground (
          arith,
          e,
          q,
          o,
          overlay_up-present b active now s' c.cart,
          present_keeps c.cart s₂,
          reassign_moves b active s',
        )
  ]

  -- In a frame in which the buttons change sides, between the shell's overlay and the cart, exactly
  -- the buttons that are held become stale for the side that gets them.
  pub step_both-handover :
      (b : ℕ) (before : Shell rt) (c : Console rt) (after : Shell rt)
      → (step_both b before c).shell ≡ some after
      → overlay_up after (step_both b before c).cart ≡ not (overlay_up before c.cart)
      → pair_of after
        ≡ (if overlay_up before c.cart then (b, after.shell_stale) else (after.stale, b))
  unfolding step_both
  step_both-handover b before c after e o =
      finish-handover b (overlay_up before c.cart) (both_turns b before c) after e o
