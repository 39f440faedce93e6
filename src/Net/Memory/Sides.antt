-- ===== src/Net/Memory/Sides.antt =====
-- The queues of the two sides, and the law of a transport.
use kuula.Prelude.{
  ℕ, zero, suc, ◌+◌, ◌-◌, ◌≤◌, ◌<◌, ◌≡◌, refl, sym, ap, ◌∙◌, Bool, true, false, some, List, [], ◌∷◌,
  ◌++◌, arith, length, length-append, if◌then◌else◌,
}
use kuula.Prelude.Bytes.{Bytes}
use kuula.Net.{Command, Event, Reason, inbox_cap}
use kuula.Net.Link.{Obeys}
use kuula.Net.Memory.{
  Side, SideStatus, Hub, End, first, second, other, pair, modify, is_message, append, deliver_to,
  deliver, clear, push, poll, drop, take_due, memory, set_status, host_arm, join_arm, send_arm,
  leave_arm, hang_up, after_peer,
}

-- The messages that wait in a queue.
pub count_messages : List (ℕ × Event) → ℕ
count_messages [] = 0
count_messages ((due, e) ∷ q) = (if is_message e then 1 else 0) + count_messages q

-- The counter is the number of messages that wait, and the queue is bounded.
pub record IsSide (s : Side) : Type 0 where
  pub counted : s.messages ≡ count_messages s.queue
  pub bounded : length s.queue ≤ inbox_cap

pub record IsHub (hub : Hub) : Type 0 where
  pub at : (e : End) → IsSide (hub.sides e)

count_messages-append :
    (xs ys : List (ℕ × Event)) → count_messages (xs ++ ys) ≡ count_messages xs + count_messages ys
unfolding count_messages
count_messages-append [] ys = omega arith
count_messages-append ((due, e) ∷ xs) ys = omega (arith, count_messages-append xs ys)

append-IsSide :
    (delay : ℕ) (e : Event) (s : Side)
    → s.messages ≡ count_messages s.queue
    → length s.queue < inbox_cap
    → IsSide (append delay e s)
unfolding append count_messages
append-IsSide delay e s counted room = ground (
  arith,
  count_messages-append s.queue ((s.polls + delay, e) ∷ []),
  length-append s.queue ((s.polls + delay, e) ∷ []),
)

deliver_to-IsSide : (delay : ℕ) (e : Event) (s : Side) → IsSide s → IsSide (deliver_to delay e s)
unfolding deliver_to clear count_messages
deliver_to-IsSide delay e s v = ground (
  arith,
  v.counted,
  v.bounded,
  append-IsSide delay e s v.counted,
  append-IsSide delay e (clear s) refl (omega arith),
)

-- A change of one side that keeps it right keeps the hub right.
modify-IsHub :
    (me : End) (f : Side → Side) (hub : Hub)
    → (IsSide (hub.sides me) → IsSide (f (hub.sides me)))
    → IsHub hub
    → IsHub (modify me f hub)
unfolding modify
modify-IsHub first f hub keep v = record {
  at = elim [ first ↦ keep (v.at first) | second ↦ v.at second ];
}
modify-IsHub second f hub keep v = record {
  at = elim [ first ↦ v.at first | second ↦ keep (v.at second) ];
}

deliver-IsHub : (to : End) (e : Event) (hub : Hub) → IsHub hub → IsHub (deliver to e hub)
unfolding deliver
deliver-IsHub to e hub =
    modify-IsHub to (deliver_to hub.delay e) hub (deliver_to-IsSide hub.delay e _)

set_status-IsHub :
    (me : End) (st : SideStatus) (hub : Hub) → IsHub hub → IsHub (modify me (set_status st) hub)
set_status-IsHub me st hub =
    modify-IsHub me (set_status st) hub (λ v. record { counted = v.counted; bounded = v.bounded })

if-IsHub : (b : Bool) (g h : Hub) → IsHub g → IsHub h → IsHub (if b then g else h)
if-IsHub true g h v w = v
if-IsHub false g h v w = w

hang_up-IsHub : (to : End) (r : Reason) (hub : Hub) → IsHub hub → IsHub (hang_up to r hub)
unfolding hang_up
hang_up-IsHub to r hub v =
    modify-IsHub to (λ s. set_status (after_peer s) s) (deliver to (Event.disconnected r) hub)
      (λ w. record { counted = w.counted; bounded = w.bounded })
      (deliver-IsHub to (Event.disconnected r) hub v)

keep_queue-IsHub :
    (me : End) (f : Side → Side) (hub : Hub)
    → ((s : Side) → ((f s).messages ≡ s.messages) × ((f s).queue ≡ s.queue))
    → IsHub hub
    → IsHub (modify me f hub)
keep_queue-IsHub me f hub same = modify-IsHub me f hub (λ v.
    let (m, q) = same (hub.sides me) in
    record { counted = m ∙ v.counted ∙ ap count_messages (sym q); bounded = rw q v.bounded })

ruleset hub_rules = (if-IsHub, deliver-IsHub, set_status-IsHub, hang_up-IsHub)

host_arm-IsHub : (me : End) (hub : Hub) → IsHub hub → IsHub (host_arm me hub)
unfolding host_arm
host_arm-IsHub me hub v =
    let started : IsHub
        (modify me (λ s. record s { status = some SideStatus.hosting; host = true }) hub) =
      keep_queue-IsHub me _ hub (λ s. (refl, refl)) v in
    search hub_rules

join_arm-IsHub : (me : End) (t : Bytes) (hub : Hub) → IsHub hub → IsHub (join_arm me t hub)
unfolding join_arm
join_arm-IsHub me t hub v = search hub_rules depth 8

send_arm-IsHub : (me : End) (p : Bytes) (hub : Hub) → IsHub hub → IsHub (send_arm me p hub)
unfolding send_arm
send_arm-IsHub me p hub v = search hub_rules

leave_arm-IsHub : (me : End) (hub : Hub) → IsHub hub → IsHub (leave_arm me hub)
unfolding leave_arm clear count_messages
leave_arm-IsHub me hub v =
    modify-IsHub me _ _ (λ w. record { counted = refl; bounded = omega arith }) (search hub_rules)

-- Whatever one end is told to do, if on both sides the counter of messages is the number that wait
-- and the queue is within 256 events, it stays so.
pub push-IsHub : (me : End) (c : Command) (hub : Hub) → IsHub hub → IsHub (push me c hub)
unfolding push
push-IsHub me Command.host hub v = host_arm-IsHub me hub v
push-IsHub me (Command.join t) hub v = join_arm-IsHub me t hub v
push-IsHub me (Command.send p) hub v = send_arm-IsHub me p hub v
push-IsHub me Command.leave hub v = leave_arm-IsHub me hub v

-- Dropping either end keeps, on both sides, the counter exact and the queue within 256 events.
pub drop-IsHub : (me : End) (hub : Hub) → IsHub hub → IsHub (drop me hub)
unfolding drop
drop-IsHub me hub v =
    let gone : IsHub (modify me (λ s. record s { alive = false }) hub) =
      keep_queue-IsHub me (λ s. record s { alive = false }) hub (λ s. (refl, refl)) v in
    let told : IsHub (
        modify (other me) (λ s. set_status (after_peer s) s)
          (modify me (λ s. record s { alive = false }) hub)) =
      keep_queue-IsHub (other me) (λ s. set_status (after_peer s) s) _ (λ s. (refl, refl)) gone in
    search hub_rules

-- What `poll` takes and leaves of a queue.
record IsTaken (n : ℕ) (q : List (ℕ × Event)) (r : List Event × List (ℕ × Event) × ℕ) : Type 0 where
  few : length r.0 ≤ n
  counted : r.2 ≡ count_messages r.1
  shorter : length r.0 + length r.1 ≡ length q

drop_count :
    (x : Event) (m : ℕ) (q : List (ℕ × Event))
    → m ≡ (if is_message x then 1 else 0) + count_messages q
    → (if is_message x then m - 1 else m) ≡ count_messages q
drop_count x m q e = ground arith

take_due-IsTaken :
    (n polls : ℕ) (q : List (ℕ × Event)) (m : ℕ)
    → m ≡ count_messages q
    → IsTaken n q (take_due n polls q m)
unfolding take_due count_messages
take_due-IsTaken zero polls q m e = record { few = omega arith; counted = e; shorter = omega arith }
take_due-IsTaken (suc n) polls [] m e = record {
  few = omega arith;
  counted = e;
  shorter = omega arith;
}
take_due-IsTaken (suc n) polls ((due, x) ∷ q) m e =
    let m' : ℕ = if is_message x then m - 1 else m in
    let ih : IsTaken n q (take_due n polls q m') =
      take_due-IsTaken n polls q m' (drop_count x m q e) in
    ground (arith, ih)

-- Both sides start right.
pub pair-IsHub : IsHub pair
unfolding count_messages
pair-IsHub = record { at = λ e. record { counted = refl; bounded = omega arith } }

-- Polling either end keeps, on both sides, the counter exact and the queue within 256 events.
pub poll-IsHub : (me : End) (n : ℕ) (hub : Hub) → IsHub hub → IsHub (poll me n hub).1
unfolding poll
poll-IsHub me n hub v =
    let s : Side = hub.sides me in
    let t : IsTaken n s.queue (take_due n (s.polls + 1) s.queue s.messages) =
      take_due-IsTaken n (s.polls + 1) s.queue s.messages (v.at me).counted in
    modify-IsHub me _ hub
      (λ w. record { counted = t.counted; bounded = omega (arith, t.shorter, w.bounded) }) v

length-take_due : (n polls : ℕ) (q : List (ℕ × Event)) (m : ℕ) → length (take_due n polls q m).0 ≤ n
unfolding take_due
length-take_due zero polls q m = omega arith
length-take_due (suc n) polls [] m = omega arith
length-take_due (suc n) polls ((due, x) ∷ q) m =
    ground (arith, length-take_due n polls q (if is_message x then m - 1 else m))

-- Either end of the pair is a transport that polls at most as many events as it is asked for.
pub memory-Obeys : (me : End) → Obeys (memory me)
unfolding poll
memory-Obeys me = record {
  poll-le = λ e n hub.
      length-take_due n ((hub.sides e).polls + 1) (hub.sides e).queue (hub.sides e).messages;
}
