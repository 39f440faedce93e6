-- ===== src/Driver/Roles.antt =====
-- What the driver of crates/kuula-net/src/transport.rs holds at a time: nothing, a join, a session that it
-- joined, or a listener with its session; and a network exactly while it holds one of these.
use kuula.Prelude.{
  if_either, ◌≡◌, refl, ap, ◌∙◌, Bool, true, false, ◌&&◌, ◌||◌, not, Option, none, some, List, [],
  ◌∷◌, ◌++◌, inl, inr, Bool-cases, ltb, length, arith, if◌then◌else◌,
}
use kuula.Prelude.Bytes.{Bytes}
use kuula.Prelude.Result.{Result, ok, err}
use mathlib.Core.Bool.{true≢false}
use kuula.Net.{Command, Event}
use kuula.Session.{NetError}
use kuula.Driver.{
  Nets, Driver, backlog, failed, is_some, put, emit, emit_all, is_busy, built, net_of, the_net,
  drop_net, started, host_on, host, joined, join_on, join, sent, send_on, send, is_queue_full,
  leave, handle,
}

-- Which of the network, the listener, the join and the session may be there together.
unfoldable pub is_role : Bool → Bool → Bool → Bool → Bool
is_role net true true session = false
is_role net true false session = net
is_role net false true session = net && not session
is_role net false false true = net
is_role net false false false = not net

pub is_none_of {ℓ} : {A : Type ℓ} (o : Option A) → is_some o ≡ false → o ≡ none
is_none_of none e = refl
is_none_of (some a) e = absurd (true≢false e)

none_of_three : (l s j : Bool) → (l || s || j) ≡ false → (l ≡ false) × (s ≡ false) × (j ≡ false)
none_of_three l s j e = ground (arith, e)

module _ {nets : Nets} where
  abbrev pub IsRole : Driver nets → Type 0
  IsRole d =
      is_role (is_some d.net) (is_some d.listener) (is_some d.joining) (is_some d.session) ≡ true

  -- What two drivers hold is the same.
  abbrev pub SameRole : Driver nets → Driver nets → Type 0
  SameRole d d' =
      (d'.net ≡ d.net)
      × (d'.listener ≡ d.listener)
      × (d'.joining ≡ d.joining)
      × (d'.session ≡ d.session)

  pub move-IsRole : (d d' : Driver nets) → SameRole d d' → IsRole d → IsRole d'
  move-IsRole d d' (n, l, j, s) r =
      ap (λ x. is_role (is_some x) (is_some d'.listener) (is_some d'.joining) (is_some d'.session))
        n
      ∙ ap (λ x. is_role (is_some d.net) (is_some x) (is_some d'.joining) (is_some d'.session)) l
      ∙ ap (λ x. is_role (is_some d.net) (is_some d.listener) (is_some x) (is_some d'.session)) j
      ∙ ap (λ x. is_role (is_some d.net) (is_some d.listener) (is_some d.joining) (is_some x)) s
      ∙ r

  put-SameRole : (es : List Event) (e : Event) (d : Driver nets) → SameRole d (put es e d).0
  unfolding put
  put-SameRole (s ∷ ss) e d = (refl, refl, refl, refl)
  put-SameRole [] e d =
      let in_queue : Driver nets × Bool = (record d { queue = d.queue ++ e ∷ [] }, true) in
      let waits : Driver nets × Bool = (record d { stalled = e ∷ [] }, true) in
      if_either (λ (x : Driver nets × Bool). SameRole d x.0) d.hung_up (d, false)
        (if ltb (length d.queue) backlog then in_queue else waits) (λ p. (refl, refl, refl, refl))
        (λ p.
          if_either (λ (x : Driver nets × Bool). SameRole d x.0) (ltb (length d.queue) backlog)
            in_queue waits (λ q. (refl, refl, refl, refl)) (λ q. (refl, refl, refl, refl)))

  pub emit-SameRole : (e : Event) (d : Driver nets) → SameRole d (emit e d).0
  unfolding emit
  emit-SameRole e d = put-SameRole d.stalled e (record d { emitted = d.emitted ++ e ∷ [] })

  pub emit-IsRole : (e : Event) (d : Driver nets) → IsRole d → IsRole (emit e d).0
  emit-IsRole e d r = move-IsRole d (emit e d).0 (emit-SameRole e d) r

  pub same_trans : (a b c : Driver nets) → SameRole a b → SameRole b c → SameRole a c
  same_trans a b c (n, l, j, s) (n', l', j', s') = (n' ∙ n, l' ∙ l, j' ∙ j, s' ∙ s)

  pub emit_all-SameRole : (es : List Event) (d : Driver nets) → SameRole d (emit_all es d).0
  unfolding emit_all
  emit_all-SameRole [] d = (refl, refl, refl, refl)
  emit_all-SameRole (e ∷ es) d = elim (Bool-cases (emit e d).1) [
    | inl there ↦ rw there (
        same_trans d (emit e d).0 (emit_all es (emit e d).0).0 (emit-SameRole e d)
          (emit_all-SameRole es (emit e d).0))
    | inr gone ↦ rw gone (emit-SameRole e d)
  ]

  -- Nothing is held but perhaps a network.
  abbrev pub Bare : Driver nets → Type 0
  Bare d = (d.listener ≡ none) × (d.joining ≡ none) × (d.session ≡ none)

  -- A network that was asked for is there.
  Answered {ℓ} : {A : Type ℓ} → Driver nets × Result NetError A → Type 0
  Answered (d, ok n) = Bare d × (is_some d.net ≡ true)
  Answered (d, err e) = Bare d

  answer-Answered {ℓ} :
      {A : Type ℓ} (r : Result NetError A) (d : Driver nets)
      → Bare d
      → is_some d.net ≡ true
      → Answered (d, r)
  unfolding Answered
  answer-Answered (ok a) d b up = (b, up)
  answer-Answered (err e) d b up = b

  built-Answered :
      (r : Result NetError nets.Net × nets.World) (d : Driver nets) → Bare d → Answered (built r d)
  unfolding built Answered
  built-Answered (ok n, w) d b = (b, refl)
  built-Answered (err e, w) d b = b

  net_of-Answered :
      (o : Option nets.Net) (d : Driver nets) → d.net ≡ o → Bare d → Answered (net_of o d)
  unfolding net_of Answered
  net_of-Answered (some n) d e b = (b, ap is_some e)
  net_of-Answered none d e b = built-Answered (nets.build d.world) d b

  pub from_flags :
      (d : Driver nets) (n l j s : Bool)
      → is_some d.net ≡ n
      → is_some d.listener ≡ l
      → is_some d.joining ≡ j
      → is_some d.session ≡ s
      → is_role n l j s ≡ true
      → IsRole d
  from_flags d n l j s a b c e r =
      ap (λ x. is_role x (is_some d.listener) (is_some d.joining) (is_some d.session)) a
      ∙ ap (λ x. is_role n x (is_some d.joining) (is_some d.session)) b
      ∙ ap (λ x. is_role n l x (is_some d.session)) c
      ∙ ap (λ x. is_role n l j x) e
      ∙ r

  pub drop_net-IsRole : (d : Driver nets) → Bare d → IsRole (drop_net d)
  unfolding drop_net is_role
  drop_net-IsRole d (a, b, c) =
      from_flags (drop_net d) false false false false refl (ap is_some a) (ap is_some b)
        (ap is_some c) refl

  started-IsRole :
      (r : Result NetError nets.Listener × nets.World) (d : Driver nets)
      → Answered (d, r.0)
      → IsRole (started r d).0
  unfolding started Answered is_role
  started-IsRole (err e, w) d b =
      emit-IsRole (failed e) (drop_net (record d { world = w }))
        (drop_net-IsRole (record d { world = w }) b)
  started-IsRole (ok l, w) d ((a, b, c), up) =
      let d' : Driver nets = record d { world = w; listener = some l } in
      emit-IsRole (Event.hosting (nets.ticket l)) d'
        (from_flags d' true true false false up refl (ap is_some b) (ap is_some c) refl)

  host_on-IsRole : (x : Driver nets × Result NetError nets.Net) → Answered x → IsRole (host_on x).0
  unfolding host_on Answered
  host_on-IsRole (d, err e) b = started-IsRole (err e, d.world) d b
  host_on-IsRole (d, ok n) (b, up) =
      let r = nets.listen n d.world in started-IsRole r d (answer-Answered r.0 d b up)

  joined-IsRole :
      (r : Result NetError nets.Joining × nets.World) (d : Driver nets)
      → Answered (d, r.0)
      → IsRole (joined r d).0
  unfolding joined Answered is_role
  joined-IsRole (err e, w) d b =
      emit-IsRole (failed e) (drop_net (record d { world = w }))
        (drop_net-IsRole (record d { world = w }) b)
  joined-IsRole (ok j, w) d ((a, b, c), up) =
      from_flags (record d { world = w; joining = some j }) true false true false up (ap is_some a)
        refl (ap is_some c) refl

  join_on-IsRole :
      (t : Bytes) (x : Driver nets × Result NetError nets.Net) → Answered x → IsRole (join_on t x).0
  unfolding join_on Answered
  join_on-IsRole t (d, err e) b = joined-IsRole (err e, d.world) d b
  join_on-IsRole t (d, ok n) (b, up) =
      let r = nets.join_start n t d.world in joined-IsRole r d (answer-Answered r.0 d b up)

  is_busy-Bare : (d : Driver nets) → is_busy d ≡ false → Bare d
  unfolding is_busy
  is_busy-Bare d e =
      let (l, s, j) =
        none_of_three (is_some d.listener) (is_some d.session) (is_some d.joining) e in
      (is_none_of d.listener l, is_none_of d.joining j, is_none_of d.session s)

  sent-IsRole :
      (r : Result NetError (Unit {0}) × nets.World) (d : Driver nets)
      → IsRole d
      → IsRole (sent r d).0
  unfolding sent
  sent-IsRole (ok u, w) d r = r
  sent-IsRole (err e, w) d r = elim (Bool-cases (is_queue_full e.code)) [
    | inl full ↦ rw (sent, full) (emit-IsRole (failed e) (record d { world = w }) r)
    | inr other ↦ rw (sent, other) r
  ]

  send_on-IsRole :
      (o : Option nets.Session) (b : Bytes) (d : Driver nets) → IsRole d → IsRole (send_on o b d).0
  unfolding send_on
  send_on-IsRole none b d r = emit-IsRole _ d r
  send_on-IsRole (some s) b d r = sent-IsRole (nets.try_send_data s b d.world) d r

  pub leave-IsRole : (d : Driver nets) → IsRole (leave d)
  unfolding leave is_role
  leave-IsRole d = refl

  pub handle-IsRole : (c : Command) (d : Driver nets) → IsRole d → IsRole (handle c d).0
  unfolding handle host join send the_net
  handle-IsRole Command.host d r = elim (Bool-cases (is_busy d)) [
    | inl busy ↦ rw busy (emit-IsRole _ d r)
    | inr free ↦
        rw free (host_on-IsRole (the_net d) (net_of-Answered d.net d refl (is_busy-Bare d free)))
  ]
  handle-IsRole (Command.join t) d r = elim (Bool-cases (is_busy d)) [
    | inl busy ↦ rw busy (emit-IsRole _ d r)
    | inr free ↦
        rw free (join_on-IsRole t (the_net d) (net_of-Answered d.net d refl (is_busy-Bare d free)))
  ]
  handle-IsRole (Command.send b) d r = send_on-IsRole d.session b d r
  handle-IsRole Command.leave d r = leave-IsRole d
