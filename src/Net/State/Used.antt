-- ===== src/Net/State/Used.antt =====
-- A cart that has hosted or joined is never again one that has not.
use kuula.Prelude.{◌≡◌, refl, true, List, [], ◌∷◌, arith}
use kuula.Prelude.Bytes.{Bytes}
use kuula.Net.{Event, Command, FailCode, failure}
use kuula.Net.State.{
  NetState, Status, Op, frame, hosts, joins, sends, leaves, receives, used_link, apply, enqueue,
  admit, begin_frame, fail, host, join, send, leave, recv, step, steps, request, not_permitted,
  already, too_many, live,
}

abbrev pub IsUsed : NetState → Type 0
IsUsed s = used_link s ≡ true

apply-IsUsed : (e : Event) (s : NetState) → IsUsed s → IsUsed (apply e s)
unfolding apply used_link
apply-IsUsed (Event.hosting t) s v = ground arith
apply-IsUsed (Event.connected n) s v = ground arith
apply-IsUsed (Event.message n p) s v = ground arith
apply-IsUsed (Event.disconnected r) s v = ground arith
apply-IsUsed (Event.failed c d) s v = ground arith
apply-IsUsed (Event.permission g) s v = ground arith

enqueue-IsUsed : (e : Event) (s : NetState) → IsUsed s → IsUsed (enqueue e s)
unfolding enqueue used_link
enqueue-IsUsed e s v = ground arith

admit-IsUsed : (events : List Event) (s : NetState) → IsUsed s → IsUsed (admit events s)
unfolding admit
admit-IsUsed [] s v = v
admit-IsUsed (e ∷ events) s v =
    admit-IsUsed events (enqueue e (apply e s)) (enqueue-IsUsed e (apply e s) (apply-IsUsed e s v))

pub begin_frame-IsUsed :
    (events : List Event) (s : NetState) → IsUsed s → IsUsed (begin_frame events s)
unfolding begin_frame used_link
begin_frame-IsUsed events s v = admit-IsUsed events _ v

fail-IsUsed : (c : FailCode) (d : Bytes) (s : NetState) → IsUsed s → IsUsed (fail c d s)
unfolding fail used_link
fail-IsUsed c d s v = admit-IsUsed (failure c d ∷ []) s v

request-IsUsed :
    (status : Status) (c : Command) (s : NetState)
    → live status ≡ true
    → IsUsed s
    → IsUsed (request status c s)
unfolding request used_link live
request-IsUsed status c s l v = ground (
  arith,
  v,
  fail-IsUsed FailCode.denied not_permitted s v,
  fail-IsUsed FailCode.declined already s v,
  fail-IsUsed FailCode.declined too_many s v,
)

host-IsUsed : (s : NetState) → IsUsed s → IsUsed (host s)
unfolding host live
host-IsUsed s v = request-IsUsed Status.hosting Command.host s refl v

join-IsUsed : (t : Bytes) (s : NetState) → IsUsed s → IsUsed (join t s)
unfolding join live
join-IsUsed t s v = request-IsUsed Status.joining (Command.join t) s refl v

send-IsUsed : (p : Bytes) (s : NetState) → IsUsed s → IsUsed (send p s).0
unfolding send used_link
send-IsUsed p s v = ground arith

leave-IsUsed : (s : NetState) → IsUsed s → IsUsed (leave s)
unfolding leave used_link
leave-IsUsed s v = ground arith

recv-IsUsed : (s : NetState) → IsUsed s → IsUsed (recv s).0
unfolding recv used_link
recv-IsUsed s v = ground arith

step-IsUsed : (o : Op) (s : NetState) → IsUsed s → IsUsed (step o s)
unfolding step
step-IsUsed (frame events) s v = begin_frame-IsUsed events s v
step-IsUsed hosts s v = host-IsUsed s v
step-IsUsed (joins t) s v = join-IsUsed t s v
step-IsUsed (sends p) s v = send-IsUsed p s v
step-IsUsed leaves s v = leave-IsUsed s v
step-IsUsed receives s v = recv-IsUsed s v

pub steps-IsUsed : (ops : List Op) (s : NetState) → IsUsed s → IsUsed (steps ops s)
unfolding steps
steps-IsUsed [] s v = v
steps-IsUsed (o ∷ ops) s v = steps-IsUsed ops (step o s) (step-IsUsed o s v)
