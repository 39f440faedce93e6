-- ===== src/Net/Link/Gate.antt =====
-- The permission gate and the bounds of the link.
use kuula.Prelude.{
  ℕ, ◌+◌, ◌-◌, ◌≤◌, ◌<◌, ◌≡◌, refl, sym, ◌∙◌, inl, inr, Bool, true, false, none, some, List, [],
  ◌∷◌, ◌++◌, leb, arith, All, All-append, Option-cases, Bool-cases, if◌then◌else◌,
}
use kuula.Prelude.Result.{is_ok}
use kuula.Net.{Command, Event, FailCode, Reason, check_command, is_control, failure, pending_cap}
use kuula.Net.State.Bounds.{count_plain, count_plain-append, count_plain-le}
use kuula.Net.Link.{
  Transport, Obeys, Link, queue, close, withdraw, set_permitted, forward, open_session,
  leave_session, dispatch, push_all, push, take_pending, poll, one_session, no_transport,
}

abbrev pub IsControl : Event → Type 0
IsControl e = is_control e ≡ true

-- Without permission there is no transport and only control events wait; and what waits is bounded
-- whether or not the cart reads.
pub record IsGated {tr : Transport} (l : Link tr) : Type 0 where
  pub closed : l.permitted ≡ false → l.transport ≡ none
  pub silent : l.permitted ≡ false → All IsControl l.pending
  pub bounded : count_plain l.pending ≤ pending_cap

control_lem : IsControl (Event.permission false)
unfolding is_control
control_lem = refl

module _ {tr : Transport} where
  pub queue_keeps :
      (e : Event) (l : Link tr)
      → ((queue e l).permitted ≡ l.permitted)
        × ((queue e l).transport ≡ l.transport)
        × ((queue e l).constructed ≡ l.constructed)
  unfolding queue
  queue_keeps e l = ground arith

  queue-silent :
      (e : Event) (l : Link tr)
      → IsControl e
      → All IsControl l.pending
      → All IsControl (queue e l).pending
  unfolding queue
  queue-silent e l c h = ground (arith, All-append IsControl l.pending (e ∷ []) h (c, tt))

  queue-IsGated :
      (e : Event) (l : Link tr)
      → (l.permitted ≡ false → IsControl e)
      → IsGated l
      → IsGated (queue e l)
  unfolding queue count_plain
  queue-IsGated e l control v = record {
    closed = ground (arith, v.closed);
    silent = λ denied.
        let d : l.permitted ≡ false = sym (queue_keeps e l).0 ∙ denied in
        queue-silent e l (control d) (v.silent d);
    bounded =
        ground (arith, v.bounded, count_plain-append l.pending (e ∷ []), count_plain-le l.pending);
  }

  close-IsGated : (l : Link tr) → IsGated l → IsGated (close l)
  unfolding close
  close-IsGated l v = ground (arith, v.closed, v.silent, v.bounded)

  pub close_keeps :
      (l : Link tr)
      → ((close l).permitted ≡ l.permitted)
        × ((close l).pending ≡ l.pending)
        × ((close l).transport ≡ none)
        × ((close l).constructed ≡ l.constructed)
  unfolding close
  close_keeps l = ground arith

  set_rule :
      (on : Bool) (l : Link tr)
      → IsGated l
      → IsGated (queue (Event.permission on) (withdraw on (record l { permitted = on })))
      → IsGated (set_permitted on l)
  unfolding set_permitted
  set_rule on l v v' = ground (arith, v, v')

  -- Granting and withdrawing permission keep the gate, from any link.
  pub set_permitted-IsGated : (on : Bool) (l : Link tr) → IsGated l → IsGated (set_permitted on l)
  unfolding withdraw count_plain
  set_permitted-IsGated true l v = set_rule true l v (
      queue-IsGated (Event.permission true) (record l { permitted = true }) (λ d. cc)
        (record { closed = λ d. cc; silent = λ d. cc; bounded = v.bounded }))
  set_permitted-IsGated false l v =
      set_rule false l v (queue-IsGated (Event.permission false) _ (λ d. control_lem) withdrawn)
    where
      l₀ : Link tr
      l₀ = record l { permitted = false }

      withdrawn : IsGated (withdraw false l₀)
      withdrawn = record {
        closed = λ d. (close_keeps l₀).2;
        silent = λ d. tt;
        bounded = omega arith;
      }

  forward-IsGated : (c : Command) (l : Link tr) → IsGated l → IsGated (forward c l)
  unfolding forward
  forward-IsGated c l v = ground (arith, v.closed, v.silent, v.bounded)

  permitted_of :
      {l : Link tr} (h : tr.Handle) → IsGated l → l.transport ≡ some h → l.permitted ≡ false → ⊥
  permitted_of h v e d = cc (v.closed d, e)

  leave_session-IsGated : (l : Link tr) → IsGated l → IsGated (leave_session l)
  unfolding leave_session
  leave_session-IsGated l v = elim (Option-cases l.transport) [
    | inl e ↦ rw (e, leave_session) v
    | inr (h, e) ↦
        rw (e, leave_session)
          (queue-IsGated (Event.disconnected Reason.closed) (close l)
            (λ d. absurd (permitted_of h v e (sym (close_keeps l).0 ∙ d))) (close-IsGated l v))
  ]

  open_session-IsGated :
      (c : Command) (l : Link tr) (built : Bool)
      → l.permitted ≡ true
      → IsGated l
      → IsGated (open_session c (l, built)).0
  unfolding open_session forward
  open_session-IsGated c l built on v = ground (
    arith,
    v.bounded,
    queue-IsGated (failure FailCode.declined one_session) l (λ d. cc) v,
    queue-IsGated (failure FailCode.disabled no_transport) l (λ d. cc) v,
  )

  dispatch-IsGated :
      (c : Command) (l : Link tr) (built : Bool) → IsGated l → IsGated (dispatch c (l, built)).0
  unfolding dispatch
  dispatch-IsGated Command.leave l built v = leave_session-IsGated l v
  dispatch-IsGated Command.host l built v =
      ground (arith, v, λ (on : l.permitted ≡ true). open_session-IsGated Command.host l built on v)
  dispatch-IsGated (Command.join t) l built v =
      ground
        (arith, v, λ (on : l.permitted ≡ true). open_session-IsGated (Command.join t) l built on v)
  dispatch-IsGated (Command.send p) l built v =
      ground (arith, v, forward-IsGated (Command.send p) l v)

  checked :
      (fine : Bool) (c : Command) (l : Link tr) (built : Bool)
      → IsGated l
      → IsGated (if fine then dispatch c (l, built) else (l, built)).0
  checked true c l built v = dispatch-IsGated c l built v
  checked false c l built v = v

  push_all-IsGated :
      (cmds : List Command) (s : Link tr × Bool) → IsGated s.0 → IsGated (push_all cmds s).0
  unfolding push_all
  push_all-IsGated [] s v = v
  push_all-IsGated (c ∷ cmds) (l, built) v =
      push_all-IsGated cmds _ (checked (is_ok (check_command c)) c l built v)

  -- Whatever commands the cart sends, the gate holds after them.
  pub push-IsGated : (cmds : List Command) (l : Link tr) → IsGated l → IsGated (push cmds l)
  unfolding push
  push-IsGated cmds l v = push_all-IsGated cmds (l, false) v

-- What is taken and what stays are the waiting events in order; as many plain ones are taken as were
-- counted, within the room.
record IsSplit (es : List Event) (room n : ℕ) (r : List Event × ℕ × List Event) : Type 0 where
  whole : r.0 ++ r.2 ≡ es
  count : r.1 ≡ n + count_plain r.0
  within : r.1 ≤ room
  rest : count_plain r.2 ≤ count_plain es
  controls : All IsControl es → All IsControl r.0 × All IsControl r.2

not_leb→lt : (a b : ℕ) → leb a b ≡ false → b < a
not_leb→lt a b h = ground arith

take_pending-IsSplit :
    (es : List Event) (room n : ℕ) → n ≤ room → IsSplit es room n (take_pending es room n)
unfolding take_pending count_plain
take_pending-IsSplit [] room n h = record {
  whole = refl;
  count = omega arith;
  within = h;
  rest = omega arith;
  controls = λ c. (tt, tt);
}
take_pending-IsSplit (e ∷ es) room n h = elim (Bool-cases (is_control e)) [
  | inl c ↦
      let ih : IsSplit es room n (take_pending es room n) = take_pending-IsSplit es room n h in
      ground (arith, c, ih)
  | inr c ↦ elim (Bool-cases (leb room n)) [
    | inl full ↦ ground (arith, c, full)
    | inr free ↦
        let ih : IsSplit es room (n + 1) (take_pending es room (n + 1)) =
          take_pending-IsSplit es room (n + 1) (omega (arith, not_leb→lt room n free)) in
        ground (arith, c, free, ih)
  ]
]

module _ {tr : Transport} (room : ℕ) (l : Link tr) where
  abbrev taken : List Event × ℕ × List Event
  taken = take_pending l.pending room 0

  split : IsSplit l.pending room 0 taken
  split = take_pending-IsSplit l.pending room 0 (omega arith)

  -- A frame is given at most as many events that are no control events as it has room for, if the
  -- transport polls at most as many as it is asked for.
  pub count_plain-poll : Obeys tr → count_plain (poll room l).0 ≤ room
  unfolding poll
  count_plain-poll obeys = elim (Option-cases l.transport) [
    | inl e ↦ rw (e, poll) (omega (arith, split.count, split.within))
    | inr (h, e) ↦
        let polled : List Event × tr.World = tr.poll h (room - taken.1) l.world in
        rw (e, poll)
          (ground (
            arith,
            split.count,
            split.within,
            count_plain-append taken.0 polled.0,
            count_plain-le polled.0,
            obeys.poll-le h (room - taken.1) l.world,
          ))
  ]

  poll_keeps :
      ((poll room l).1.permitted ≡ l.permitted)
      × ((poll room l).1.transport ≡ l.transport)
      × ((poll room l).1.pending ≡ taken.2)
  unfolding poll
  poll_keeps = ground arith

  -- Polling keeps the gate and the bound.
  pub poll-IsGated : IsGated l → IsGated (poll room l).1
  poll-IsGated v =
      let (p, t, q) = poll_keeps in
      record {
        closed = λ d. t ∙ v.closed (sym p ∙ d);
        silent = λ d. rw q (split.controls (v.silent (sym p ∙ d))).1;
        bounded = rw q (omega (arith, split.rest, v.bounded));
      }

  -- A gated link without permission delivers nothing but changes of the permission.
  pub poll-denied : IsGated l → l.permitted ≡ false → All IsControl (poll room l).0
  unfolding poll
  poll-denied v d = rw (v.closed d, poll) (split.controls (v.silent d)).0
