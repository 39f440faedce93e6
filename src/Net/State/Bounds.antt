-- ===== src/Net/State/Bounds.antt =====
-- The bounds of the inbox and the outbox.
use kuula.Prelude.{
  ℕ, suc, ◌+◌, ◌≤◌, ◌≡◌, refl, ◌⊎◌, inl, inr, true, false, List, [], ◌∷◌, ◌++◌, arith, length,
  length-append, if◌then◌else◌,
}
use kuula.Prelude.Bytes.{Bytes}
use kuula.Net.{Event, Command, FailCode, is_control, failure, inbox_cap, max_sends, max_commands}
use kuula.Net.State.{
  NetState, NetEnv, Status, Op, frame, hosts, joins, sends, leaves, receives, new, apply, enqueue,
  admit, begin_frame, fail, host, join, send, leave, recv, step, steps, request, not_permitted,
  already, too_many,
}

-- The events of a list that are no control events.
unfoldable pub count_plain : List Event → ℕ
count_plain [] = 0
count_plain (e ∷ es) = (if is_control e then 0 else 1) + count_plain es

-- The `Send` commands of a list.
unfoldable pub count_sends : List Command → ℕ
count_sends [] = 0
count_sends (Command.send p ∷ cs) = suc (count_sends cs)
count_sends (c ∷ cs) = count_sends cs

pub record IsBounded (s : NetState) : Type 0 where
  pub inbox : count_plain s.inbox ≤ inbox_cap
  pub outbox : length s.outbox ≤ max_commands
  pub counted : count_sends s.outbox ≡ s.sends_this_frame
  pub rate : s.sends_this_frame ≤ max_sends

pub count_plain-append :
    (xs ys : List Event) → count_plain (xs ++ ys) ≡ count_plain xs + count_plain ys
unfolding count_plain
count_plain-append [] ys = omega arith
count_plain-append (x ∷ xs) ys = omega (arith, count_plain-append xs ys)

pub count_plain-le : (es : List Event) → count_plain es ≤ length es
unfolding count_plain
count_plain-le [] = omega arith
count_plain-le (e ∷ es) = ground (arith, count_plain-le es)

count_sends-append :
    (xs ys : List Command) → count_sends (xs ++ ys) ≡ count_sends xs + count_sends ys
unfolding count_sends
count_sends-append [] ys = omega arith
count_sends-append (Command.send p ∷ xs) ys = omega (arith, count_sends-append xs ys)
count_sends-append (Command.host ∷ xs) ys = count_sends-append xs ys
count_sends-append (Command.leave ∷ xs) ys = count_sends-append xs ys
count_sends-append (Command.join t ∷ xs) ys = count_sends-append xs ys

-- What `apply` leaves alone, and an inbox it at most clears.
pub apply_keeps :
    (e : Event) (s : NetState)
    → ((apply e s).outbox ≡ s.outbox)
      × ((apply e s).sends_this_frame ≡ s.sends_this_frame)
      × (((apply e s).inbox ≡ s.inbox) ⊎ ((apply e s).inbox ≡ []))
unfolding apply
apply_keeps (Event.hosting t) s = (refl, refl, inl refl)
apply_keeps (Event.connected n) s = (refl, refl, inl refl)
apply_keeps (Event.message n p) s = (refl, refl, inl refl)
apply_keeps (Event.disconnected r) s = (refl, refl, inl refl)
apply_keeps (Event.failed FailCode.handshake d) s = (refl, refl, inl refl)
apply_keeps (Event.failed c d) s = ground arith
apply_keeps (Event.permission true) s = (refl, refl, inl refl)
apply_keeps (Event.permission false) s = (refl, refl, inr refl)

apply-IsBounded : (e : Event) (s : NetState) → IsBounded s → IsBounded (apply e s)
unfolding count_plain
apply-IsBounded e s v = ground (arith, apply_keeps e s)

enqueue-IsBounded : (e : Event) (s : NetState) → IsBounded s → IsBounded (enqueue e s)
unfolding enqueue count_plain
enqueue-IsBounded e s v =
    ground (arith, count_plain-append s.inbox (e ∷ []), count_plain-le s.inbox)

admit-IsBounded : (events : List Event) (s : NetState) → IsBounded s → IsBounded (admit events s)
unfolding admit
admit-IsBounded [] s v = v
admit-IsBounded (e ∷ events) s v =
    admit-IsBounded events (enqueue e (apply e s))
      (enqueue-IsBounded e (apply e s) (apply-IsBounded e s v))

fail-IsBounded : (c : FailCode) (d : Bytes) (s : NetState) → IsBounded s → IsBounded (fail c d s)
unfolding fail
fail-IsBounded c d s v =
    let v' : IsBounded (admit (failure c d ∷ []) s) = admit-IsBounded (failure c d ∷ []) s v in
    record { inbox = v'.inbox; outbox = v'.outbox; counted = v'.counted; rate = v'.rate }

request-IsBounded :
    (status : Status) (c : Command) (s : NetState)
    → count_sends (c ∷ []) ≡ 0
    → IsBounded s
    → IsBounded (request status c s)
unfolding request
request-IsBounded status c s none_sent v = ground (
  arith,
  fail-IsBounded FailCode.denied not_permitted s v,
  fail-IsBounded FailCode.declined already s v,
  fail-IsBounded FailCode.declined too_many s v,
  count_sends-append s.outbox (c ∷ []),
  length-append s.outbox (c ∷ []),
)

send-IsBounded : (p : Bytes) (s : NetState) → IsBounded s → IsBounded (send p s).0
unfolding send count_sends
send-IsBounded p s v = ground (
  arith,
  count_sends-append s.outbox (Command.send p ∷ []),
  length-append s.outbox (Command.send p ∷ []),
)

leave-IsBounded : (s : NetState) → IsBounded s → IsBounded (leave s)
unfolding leave count_sends
leave-IsBounded s v = ground (
  arith,
  count_sends-append s.outbox (Command.leave ∷ []),
  length-append s.outbox (Command.leave ∷ []),
)

recv-IsBounded : (s : NetState) → IsBounded s → IsBounded (recv s).0
unfolding recv count_plain
recv-IsBounded s v = ground arith

-- A new frame is within the bounds if the inbox is.
pub begin_frame-IsBounded :
    (events : List Event) (s : NetState)
    → count_plain s.inbox ≤ inbox_cap
    → IsBounded (begin_frame events s)
unfolding begin_frame count_sends
begin_frame-IsBounded events s h =
    admit-IsBounded events _
      (record { inbox = h; outbox = omega arith; counted = refl; rate = omega arith })

step-IsBounded : (o : Op) (s : NetState) → IsBounded s → IsBounded (step o s)
unfolding step host join count_sends
step-IsBounded (frame events) s v = begin_frame-IsBounded events s v.inbox
step-IsBounded hosts s v = request-IsBounded Status.hosting Command.host s refl v
step-IsBounded (joins t) s v = request-IsBounded Status.joining (Command.join t) s refl v
step-IsBounded (sends p) s v = send-IsBounded p s v
step-IsBounded leaves s v = leave-IsBounded s v
step-IsBounded receives s v = recv-IsBounded s v

pub steps-IsBounded : (ops : List Op) (s : NetState) → IsBounded s → IsBounded (steps ops s)
unfolding steps
steps-IsBounded [] s v = v
steps-IsBounded (o ∷ ops) s v = steps-IsBounded ops (step o s) (step-IsBounded o s v)

pub new-IsBounded : (env : NetEnv) → IsBounded (new env)
unfolding new count_plain count_sends
new-IsBounded env = record {
  inbox = omega arith;
  outbox = omega arith;
  counted = refl;
  rate = omega arith;
}

-- After any events and any calls of the cart, however many and in any order: the inbox holds at
-- most 256 events that are no control events, a frame's outbox at most 32 commands, and at most 16
-- of them are sends, as many as were counted.
pub steps-new-IsBounded : (env : NetEnv) (ops : List Op) → IsBounded (steps ops (new env))
steps-new-IsBounded env ops = steps-IsBounded ops (new env) (new-IsBounded env)
