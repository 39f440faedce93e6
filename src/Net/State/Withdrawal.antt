-- ===== src/Net/State/Withdrawal.antt =====
-- A cart whose permission was withdrawn asks for nothing.
use kuula.Prelude.{◌≡◌, refl, ◌∙◌, false, List, [], ◌∷◌, ◌++◌, arith, All, All-append}
use kuula.Prelude.Bytes.{Bytes}
use kuula.Net.{Event, Command, FailCode, is_control, failure}
use kuula.Net.State.{
  NetState, Op, frame, hosts, joins, sends, leaves, receives, apply, enqueue, admit, begin_frame,
  fail, host, join, send, leave, recv, step, steps, request, not_permitted,
}
use kuula.Net.State.Bounds.{apply_keeps}

abbrev pub IsNoRequest : Command → Type 0
IsNoRequest Command.host = ⊥
IsNoRequest (Command.join t) = ⊥
IsNoRequest (Command.send p) = Unit
IsNoRequest Command.leave = Unit

-- A call of the cart, not the start of a frame.
abbrev pub IsCall : Op → Type 0
IsCall (frame events) = ⊥
IsCall _ = Unit

-- A cart without permission, and what its calls have asked for.
record IsDenied (s : NetState) : Type 0 where
  unpermitted : s.permitted ≡ false
  quiet : All IsNoRequest s.outbox

apply-failed :
    (c : FailCode) (d : Bytes) (s : NetState)
    → ((apply (Event.failed c d) s).permitted ≡ s.permitted)
      × ((apply (Event.failed c d) s).outbox ≡ s.outbox)
unfolding apply
apply-failed FailCode.handshake d s = (refl, refl)
apply-failed c d s = ground arith

enqueue_keeps :
    (e : Event) (s : NetState)
    → ((enqueue e s).permitted ≡ s.permitted) × ((enqueue e s).outbox ≡ s.outbox)
unfolding enqueue
enqueue_keeps e s = ground arith

fail_keeps :
    (c : FailCode) (d : Bytes) (s : NetState)
    → ((fail c d s).permitted ≡ s.permitted) × ((fail c d s).outbox ≡ s.outbox)
unfolding fail admit failure
fail_keeps c d s =
    let f : Event = failure c d in
    let (i, j) = apply-failed c _ s in let (x, y) = enqueue_keeps f (apply f s) in (x ∙ i, y ∙ j)

call-IsDenied : (o : Op) (s : NetState) → IsCall o → IsDenied s → IsDenied (step o s)
unfolding step host join request send leave recv
call-IsDenied (frame events) s call v = absurd call
call-IsDenied hosts s call v = ground (arith, fail_keeps FailCode.denied not_permitted s)
call-IsDenied (joins t) s call v = ground (arith, fail_keeps FailCode.denied not_permitted s)
call-IsDenied (sends p) s call v =
    ground (arith, All-append IsNoRequest s.outbox (Command.send p ∷ []) v.quiet (tt, tt))
call-IsDenied leaves s call v =
    ground (arith, All-append IsNoRequest s.outbox (Command.leave ∷ []) v.quiet (tt, tt))
call-IsDenied receives s call v = ground arith

calls-IsDenied :
    (ops : List Op) (s : NetState) → All IsCall ops → IsDenied s → IsDenied (steps ops s)
unfolding steps
calls-IsDenied [] s calls v = v
calls-IsDenied (o ∷ ops) s calls v =
    calls-IsDenied ops (step o s) calls.1 (call-IsDenied o s calls.0 v)

withdrawn :
    (events : List Event) (s : NetState)
    → s.outbox ≡ []
    → IsDenied (admit (events ++ Event.permission false ∷ []) s)
unfolding admit enqueue apply is_control
withdrawn [] s e = record { unpermitted = refl; quiet = rw e tt }
withdrawn (x ∷ events) s e =
    withdrawn events (enqueue x (apply x s))
      ((enqueue_keeps x (apply x s)).1 ∙ (apply_keeps x s).0 ∙ e)

-- From the frame in which permission was withdrawn, and until a frame grants it, nothing that the
-- cart calls puts a request to host or to join into the outbox.
pub withdrawn-IsNoRequest :
    (ops : List Op) (events : List Event) (s : NetState)
    → All IsCall ops
    → All IsNoRequest (steps ops (begin_frame (events ++ Event.permission false ∷ []) s)).outbox
unfolding begin_frame
withdrawn-IsNoRequest ops events s calls =
    (calls-IsDenied ops _ calls (withdrawn events _ refl)).quiet
