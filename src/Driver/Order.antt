-- ===== src/Driver/Order.antt =====
-- The events that the driver of crates/kuula-net/src/transport.rs reports, on their way to the link.
use kuula.Prelude.{
  ◌+◌, ◌≤◌, ◌<◌, ◌≡◌, refl, ap, Bool, true, false, List, [], ◌∷◌, ◌++◌, inl, inr, arith, ltb,
  length, length-append, length-drop, Bool-cases, ltb→lt,
}
use kuula.Net.{Event}
use kuula.Driver.{
  Nets, Driver, backlog, stalled_cap, trimmed, flush_into, new, push, poll, hang_up, flush, put,
  emit,
}
use kuula.Driver.Lines.{SameLines, round-keeps}
use kuula.Driver.Rounds.{Op, pushes, polls, hangs_up, rounds, round, step, steps}

trimmed-le : (es : List Event) → length es ≤ stalled_cap + 1 → length (trimmed es) ≤ stalled_cap
unfolding trimmed
trimmed-le es h = ground (arith, length-drop 1 es)

flush_into-le :
    (gone : Bool) (queue es : List Event)
    → length queue ≤ backlog
    → (length (flush_into gone queue es).0 ≤ backlog)
      × (length (flush_into gone queue es).1 ≤ length es)
unfolding flush_into
flush_into-le gone queue [] h = (h, omega arith)
flush_into-le true queue (e ∷ es) h = (h, omega arith)
flush_into-le false queue (e ∷ es) h =
    let n : length (queue ++ e ∷ []) ≡ length queue + 1 = length-append queue (e ∷ []) in
    elim (Bool-cases (ltb (length queue) backlog)) [
      | inr full ↦ rw full (h, omega arith)
      | inl room ↦
          let less : length queue < backlog = ltb→lt (length queue) backlog room in
          let (a, b) = flush_into-le false (queue ++ e ∷ []) es (omega (arith, n, less)) in
          rw room (a, omega (arith, b))
    ]

module _ {nets : Nets} where
  pub record IsBounded (d : Driver nets) : Type 0 where
    pub queue : length d.queue ≤ backlog
    pub stalled : length d.stalled ≤ stalled_cap

  put-IsBounded :
      (es : List Event) (e : Event) (d : Driver nets)
      → d.stalled ≡ es
      → IsBounded d
      → IsBounded (put es e d).0
  unfolding put
  put-IsBounded (s ∷ ss) e d q v =
      let n : length ((s ∷ ss) ++ e ∷ []) ≡ length (s ∷ ss) + 1 = length-append (s ∷ ss) (e ∷ []) in
      record {
        queue = v.queue;
        stalled = trimmed-le ((s ∷ ss) ++ e ∷ []) (omega (arith, n, v.stalled, ap length q));
      }
  put-IsBounded [] e d q v = ground (arith, v, length-append d.queue (e ∷ []))

  emit-IsBounded : (e : Event) (d : Driver nets) → IsBounded d → IsBounded (emit e d).0
  unfolding emit
  emit-IsBounded e d v =
      put-IsBounded d.stalled e (record d { emitted = d.emitted ++ e ∷ [] }) refl
        (record { queue = v.queue; stalled = v.stalled })

  move-IsBounded : (d d' : Driver nets) → SameLines d d' → IsBounded d → IsBounded d'
  move-IsBounded d d' (q, s, e, h, c) v = record {
    queue = omega (arith, ap length q, v.queue);
    stalled = omega (arith, ap length s, v.stalled);
  }

  flush-IsBounded : (d : Driver nets) → IsBounded d → IsBounded (flush d).0
  unfolding flush
  flush-IsBounded d v =
      let (a, b) = flush_into-le d.hung_up d.queue d.stalled v.queue in
      record { queue = a; stalled = omega (arith, b, v.stalled) }

  round-IsBounded : (d : Driver nets) → IsBounded d → IsBounded (round d).0
  round-IsBounded d v =
      round-keeps IsBounded emit-IsBounded
        (λ cs d v. record { queue = v.queue; stalled = v.stalled }) move-IsBounded d
        (flush-IsBounded d v)

  step-IsBounded :
      (o : Op) (s : Driver nets × Bool × List Event) → IsBounded s.0 → IsBounded (step o s).0
  unfolding step push poll hang_up
  step-IsBounded (pushes c) (d, runs, got) v = ground (arith, v)
  step-IsBounded (polls n) (d, runs, got) v = record {
    queue = omega (arith, length-drop n d.queue, v.queue);
    stalled = v.stalled;
  }
  step-IsBounded hangs_up (d, runs, got) v = record { queue = omega arith; stalled = v.stalled }
  step-IsBounded rounds (d, true, got) v = round-IsBounded d v
  step-IsBounded rounds (d, false, got) v = v

  any_start :
      (ops : List Op) (s : Driver nets × Bool × List Event)
      → IsBounded s.0
      → IsBounded (steps ops s).0
  unfolding steps
  any_start [] s v = v
  any_start (o ∷ ops) s v = any_start ops (step o s) (step-IsBounded o s v)

  -- What the link has polled, what is in the channel and what waits, in order, are all that the driver
  -- has reported, if what the link has not polled fits in the channel.
  abbrev InOrder : List Event → Driver nets → Type 0
  InOrder got d =
      d.hung_up ≡ false
      → length d.emitted ≤ length got + stalled_cap
      → got ++ (d.queue ++ d.stalled) ≡ d.emitted

  -- What the link has not polled fits in the channel after every step.
  unfoldable pub Fits : List Op → Driver nets × Bool × List Event → Type 0
  unfolding step
  Fits [] s = length s.0.emitted ≤ length s.2 + stalled_cap
  Fits (o ∷ ops) s = (length s.0.emitted ≤ length s.2 + stalled_cap) × Fits ops (step o s)

module _ (nets : Nets) where
  -- From a fresh driver, however the link calls and the driver runs, at most 256 events are in the channel
  -- and 256 more wait for it.
  pub steps-IsBounded :
      (ops : List Op) (w : nets.World) → IsBounded (steps ops (new {nets = nets} w, true, [])).0
  unfolding new
  steps-IsBounded ops w =
      any_start ops (new {nets = nets} w, true, [])
        (record { queue = omega arith; stalled = omega arith })
