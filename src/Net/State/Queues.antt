-- ===== src/Net/State/Queues.antt =====
-- What happens to the events that a frame offers, and to the failures that a cart's calls decide.
use kuula.Prelude.{
  suc, ◌+◌, ◌-◌, ◌≤◌, ◌<◌, ◌≡◌, refl, ap, sym, Bool, true, false, none, List, [], ◌∷◌, ◌++◌,
  append-nil, append_assoc, arith, length, length-append, All, leb, if◌then◌else◌,
}
use kuula.Prelude.Bytes.{Bytes}
use kuula.Net.{Event, FailCode, is_control, failure, inbox_cap}
use kuula.Net.State.{NetState, apply, enqueue, room, admit, begin_frame, fail, pop_last}
use kuula.Net.State.Bounds.{count_plain}

abbrev pub IsPlain : Event → Type 0
IsPlain e = is_control e ≡ false

apply_plain :
    (e : Event) (s : NetState)
    → IsPlain e
    → ((apply e s).inbox ≡ s.inbox)
      × ((apply e s).admitted ≡ s.admitted)
      × ((apply e s).dropped ≡ s.dropped)
unfolding apply is_control
apply_plain (Event.hosting t) s p = (refl, refl, refl)
apply_plain (Event.connected n) s p = (refl, refl, refl)
apply_plain (Event.message n d) s p = (refl, refl, refl)
apply_plain (Event.disconnected r) s p = (refl, refl, refl)
apply_plain (Event.failed FailCode.handshake d) s p = (refl, refl, refl)
apply_plain (Event.failed c d) s p = ground arith
apply_plain (Event.permission g) s p = cc

apply_counts :
    (e : Event) (s : NetState)
    → ((apply e s).admitted ≡ s.admitted)
      × ((apply e s).dropped ≡ s.dropped)
      × (length (apply e s).inbox ≤ length s.inbox)
unfolding apply
apply_counts (Event.failed FailCode.handshake d) s = (refl, refl, omega arith)
apply_counts (Event.failed c d) s = ground arith
apply_counts (Event.permission true) s = (refl, refl, omega arith)
apply_counts (Event.permission false) s = (refl, refl, omega arith)
apply_counts _ s = (refl, refl, omega arith)

-- A plain event that finds room goes to the end of the inbox and of the batch.
enqueue_room :
    (e : Event) (s : NetState)
    → length s.inbox < inbox_cap
    → ((enqueue e s).inbox ≡ s.inbox ++ e ∷ [])
      × ((enqueue e s).admitted ≡ s.admitted ++ e ∷ [])
      × ((enqueue e s).dropped ≡ s.dropped)
unfolding enqueue
enqueue_room e s h = ground arith

admit_room :
    (events : List Event) (s : NetState)
    → All IsPlain events
    → length s.inbox + length events ≤ inbox_cap
    → ((admit events s).inbox ≡ s.inbox ++ events)
      × ((admit events s).admitted ≡ s.admitted ++ events)
      × ((admit events s).dropped ≡ s.dropped)
unfolding admit
admit_room [] s p h = (sym (append-nil s.inbox), sym (append-nil s.admitted), refl)
admit_room (e ∷ events) s p h =
    let (i, j, k) = apply_plain e s p.0 in
    let (x, y, z) = enqueue_room e (apply e s) (omega (arith, ap length i)) in
    let (u, v, w) =
      admit_room events (enqueue e (apply e s)) p.1
        (omega (arith, ap length i, ap length x, length-append (apply e s).inbox (e ∷ []))) in
    (
      cc (i, x, u, append_assoc s.inbox (e ∷ []) events),
      cc (j, y, v, append_assoc s.admitted (e ∷ []) events),
      cc (k, z, w),
    )

room-le :
    (s : NetState)
    → s.remote_room ≡ none
    → length s.inbox ≤ inbox_cap
    → length s.inbox + room s ≤ inbox_cap
unfolding room
room-le s local h = ground arith

-- For a console whose own inbox is the real one and holds at most 256 events: a batch of events
-- that are no control events, as many as there is room for, is admitted whole and in order, and
-- nothing is dropped.
pub begin_frame-room :
    (events : List Event) (s : NetState)
    → s.remote_room ≡ none
    → length s.inbox ≤ inbox_cap
    → All IsPlain events
    → length events ≤ room s
    → ((begin_frame events s).inbox ≡ s.inbox ++ events)
      × ((begin_frame events s).admitted ≡ events)
      × ((begin_frame events s).dropped ≡ s.dropped)
unfolding begin_frame
begin_frame-room events s local full p fits =
    admit_room events (record s { outbox = []; sends_this_frame = 0; admitted = [] }) p
      (omega (arith, room-le s local full))

-- One event more is admitted or dropped, and it is dropped only on a full inbox.
enqueue_counts :
    (e : Event) (s : NetState)
    → (length (enqueue e s).admitted + (enqueue e s).dropped ≡ suc (length s.admitted + s.dropped))
      × (length (enqueue e s).inbox + (enqueue e s).dropped ≡ suc (length s.inbox + s.dropped))
      × (s.dropped < (enqueue e s).dropped → inbox_cap ≤ length s.inbox)
      × (length s.inbox ≤ length (enqueue e s).inbox)
unfolding enqueue
enqueue_counts e s =
    ground (arith, length-append s.admitted (e ∷ []), length-append s.inbox (e ∷ []))

-- Every event that is offered is admitted or counted as dropped.
admit_counts :
    (events : List Event) (s : NetState)
    → length (admit events s).admitted + (admit events s).dropped
      ≡ length s.admitted + s.dropped + length events
unfolding admit
admit_counts [] s = omega arith
admit_counts (e ∷ events) s = omega (
  arith,
  admit_counts events (enqueue e (apply e s)),
  (enqueue_counts e (apply e s)).0,
  ap length (apply_counts e s).0,
  (apply_counts e s).1,
)

admit_drops :
    (events : List Event) (s : NetState)
    → (admit events s).dropped ≤ s.dropped + (length s.inbox + length events - inbox_cap)
unfolding admit
admit_drops [] s = omega arith
admit_drops (e ∷ events) s = ground (
  arith,
  admit_drops events (enqueue e (apply e s)),
  enqueue_counts e (apply e s),
  apply_counts e s,
)

-- For a console whose own inbox is the real one and holds at most 256 events: if the events of a
-- batch that are no control events fit in the room, at most as many events are dropped as there
-- are control events in the batch.
pub begin_frame_drops :
    (events : List Event) (s : NetState)
    → s.remote_room ≡ none
    → length s.inbox ≤ inbox_cap
    → count_plain events ≤ room s
    → (begin_frame events s).dropped ≤ s.dropped + (length events - count_plain events)
unfolding begin_frame
begin_frame_drops events s local full fits = omega (
  arith,
  room-le s local full,
  admit_drops events (record s { outbox = []; sends_this_frame = 0; admitted = [] }),
)

pop_last-append {ℓ} : {A : Type ℓ} (xs : List A) (x : A) → pop_last (xs ++ x ∷ []) ≡ xs
pop_last-append [] x = refl
pop_last-append (y ∷ []) x = refl
pop_last-append (y ∷ z ∷ xs) x = ap (λ l. y ∷ l) (pop_last-append (z ∷ xs) x)

enqueue_plain :
    (e : Event) (s : NetState)
    → IsPlain e
    → (enqueue e s).admitted
      ≡ (if leb inbox_cap (length s.inbox) then s.admitted else s.admitted ++ e ∷ [])
unfolding enqueue
enqueue_plain e s p = ground arith

failure-IsPlain : (c : FailCode) (d : Bytes) → IsPlain (failure c d)
unfolding failure is_control
failure-IsPlain c d = refl

fail_once :
    (full : Bool) (xs : List Event) (e : Event)
    → pop_last (if full then xs else xs ++ e ∷ []) ≡ (if full then pop_last xs else xs)
fail_once true xs e = refl
fail_once false xs e = pop_last-append xs e

-- A failure decided locally leaves the batch of the frame alone while the inbox has room. On a full
-- inbox the failure itself is dropped, and the last event of the host's batch goes in its place.
pub fail-admitted :
    (c : FailCode) (d : Bytes) (s : NetState)
    → (fail c d s).admitted
      ≡ (if leb inbox_cap (length s.inbox) then pop_last s.admitted else s.admitted)
unfolding fail admit
fail-admitted c d s =
    let (i, j, k) = apply_plain (failure c d) s (failure-IsPlain c d) in
    rw (enqueue_plain (failure c d) (apply (failure c d) s) (failure-IsPlain c d), i, j)
      (fail_once (leb inbox_cap (length s.inbox)) s.admitted (failure c d))
