-- ===== src/Net/State/Roles.antt =====
-- What the status says of the ticket and the peer.
use kuula.Prelude.{
  ◌≡◌, refl, ◌⊎◌, inl, inr, Bool, true, false, Option, none, some, List, [], ◌∷◌, arith,
}
use kuula.Prelude.Bytes.{Bytes}
use kuula.Net.{Event, Command, FailCode, failure}
use kuula.Net.State.{
  NetState, NetEnv, Status, Op, frame, hosts, joins, sends, leaves, receives, is_connected, new,
  apply, enqueue, admit, begin_frame, fail, host, join, send, leave, recv, step, steps, live,
  request, not_permitted, already, too_many,
}

abbrev pub is_some {ℓ} : {A : Type ℓ} → Option A → Bool
is_some none = false
is_some (some a) = true

abbrev pub advertises : Status → Bool
advertises Status.hosting = true
advertises Status.connected = true
advertises _ = false

-- There is a peer only while connected, and a ticket only while hosting or connected.
pub record IsConsistent (s : NetState) : Type 0 where
  pub peer_of : is_some s.peer ≡ true → is_connected s.status ≡ true
  pub ticket_of : is_some s.ticket ≡ true → advertises s.status ≡ true

apply-IsConsistent : (e : Event) (s : NetState) → IsConsistent s → IsConsistent (apply e s)
unfolding apply
apply-IsConsistent (Event.hosting t) s v = ground arith
apply-IsConsistent (Event.connected n) s v = ground arith
apply-IsConsistent (Event.message n p) s v = record { peer_of = v.peer_of; ticket_of = v.ticket_of }
apply-IsConsistent (Event.disconnected r) s v = ground arith
apply-IsConsistent (Event.failed c d) s v = ground arith
apply-IsConsistent (Event.permission g) s v = ground arith

enqueue-IsConsistent : (e : Event) (s : NetState) → IsConsistent s → IsConsistent (enqueue e s)
unfolding enqueue
enqueue-IsConsistent e s v = ground arith

admit-IsConsistent :
    (events : List Event) (s : NetState) → IsConsistent s → IsConsistent (admit events s)
unfolding admit
admit-IsConsistent [] s v = v
admit-IsConsistent (e ∷ events) s v =
    admit-IsConsistent events (enqueue e (apply e s))
      (enqueue-IsConsistent e (apply e s) (apply-IsConsistent e s v))

fail-IsConsistent :
    (c : FailCode) (d : Bytes) (s : NetState) → IsConsistent s → IsConsistent (fail c d s)
unfolding fail
fail-IsConsistent c d s v =
    let v' : IsConsistent (admit (failure c d ∷ []) s) =
      admit-IsConsistent (failure c d ∷ []) s v in
    record { peer_of = v'.peer_of; ticket_of = v'.ticket_of }

request_rule :
    (status : Status) (c : Command) (s : NetState)
    → advertises status ≡ true ⊎ (live status ≡ true)
    → IsConsistent s
    → IsConsistent (request status c s)
unfolding request
request_rule status c s new_status v = ground (
  arith,
  fail-IsConsistent FailCode.denied not_permitted s v,
  fail-IsConsistent FailCode.declined already s v,
  fail-IsConsistent FailCode.declined too_many s v,
)

host-IsConsistent : (s : NetState) → IsConsistent s → IsConsistent (host s)
unfolding host
host-IsConsistent s v = request_rule Status.hosting Command.host s (inl refl) v

join-IsConsistent : (t : Bytes) (s : NetState) → IsConsistent s → IsConsistent (join t s)
unfolding join
join-IsConsistent t s v = request_rule Status.joining (Command.join t) s (inr refl) v

send-IsConsistent : (p : Bytes) (s : NetState) → IsConsistent s → IsConsistent (send p s).0
unfolding send
send-IsConsistent p s v = ground arith

leave-IsConsistent : (s : NetState) → IsConsistent s → IsConsistent (leave s)
unfolding leave
leave-IsConsistent s v = ground arith

recv-IsConsistent : (s : NetState) → IsConsistent s → IsConsistent (recv s).0
unfolding recv
recv-IsConsistent s v = ground arith

step-IsConsistent : (o : Op) (s : NetState) → IsConsistent s → IsConsistent (step o s)
unfolding step begin_frame
step-IsConsistent (frame events) s v =
    admit-IsConsistent events _ (record { peer_of = v.peer_of; ticket_of = v.ticket_of })
step-IsConsistent hosts s v = host-IsConsistent s v
step-IsConsistent (joins t) s v = join-IsConsistent t s v
step-IsConsistent (sends p) s v = send-IsConsistent p s v
step-IsConsistent leaves s v = leave-IsConsistent s v
step-IsConsistent receives s v = recv-IsConsistent s v

new-IsConsistent : (env : NetEnv) → IsConsistent (new env)
unfolding new
new-IsConsistent env = record { peer_of = λ h. cc; ticket_of = λ h. cc }

steps-IsConsistent : (ops : List Op) (s : NetState) → IsConsistent s → IsConsistent (steps ops s)
unfolding steps
steps-IsConsistent [] s v = v
steps-IsConsistent (o ∷ ops) s v = steps-IsConsistent ops (step o s) (step-IsConsistent o s v)

-- After any events and any calls of the cart, in any order, there is a peer only while the session
-- is connected, and a ticket is held only while hosting or connected.
pub steps-new-IsConsistent : (env : NetEnv) (ops : List Op) → IsConsistent (steps ops (new env))
steps-new-IsConsistent env ops = steps-IsConsistent ops (new env) (new-IsConsistent env)
