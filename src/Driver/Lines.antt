-- ===== src/Driver/Lines.antt =====
-- What the driver of crates/kuula-net/src/transport.rs does to the events that wait, it does by `emit`
-- and `flush`: a property of these lines that both keep is kept by every part of a round.
use kuula.Prelude.{
  ℕ, zero, suc, ◌≡◌, refl, Bool, true, false, Option, none, some, List, [], ◌∷◌, Bool-cases, inl,
  inr, if◌then◌else◌,
}
use kuula.Prelude.Bytes.{Bytes}
use kuula.Prelude.Result.{Result, ok, err}
use kuula.Net.{Command, Event}
use kuula.Session.{NetError, text_of, data_of, peer_closed, peer_lost, error, Event as SessionEvent}
use kuula.Driver.{
  Nets, Driver, backlog, failed, flush, emit, emit_all, handle, leave, drop_net, is_busy, built,
  net_of, the_net, started, host_on, host, joined, join_on, join, sent, send_on, send,
  is_queue_full,
}
use kuula.Driver.Rounds.{
  Reading, quiet, link_gone, ended, is_nil, went_on, on_event, on_recv, received, read_from,
  read_session, rearmed, after_end, on_reading, read_on, accepted, accept_on, accept, on_join,
  pump_on, pump, handle_all, finish, served, commanded, flushed, ending, round,
}

-- The lines of events of two drivers are the same, and so are the commands that wait.
module _ {nets : Nets} where
  abbrev pub SameLines : Driver nets → Driver nets → Type 0
  SameLines d d' =
      (d'.queue ≡ d.queue)
      × (d'.stalled ≡ d.stalled)
      × (d'.emitted ≡ d.emitted)
      × (d'.hung_up ≡ d.hung_up)
      × (d'.cmds ≡ d.cmds)

module _ {nets : Nets} (P : Driver nets → Type 0)
    (on_emit : (e : Event) (d : Driver nets) → P d → P (emit e d).0)
    (move : (d d' : Driver nets) → SameLines d d' → P d → P d') where
  emit_all-keeps : (es : List Event) (d : Driver nets) → P d → P (emit_all es d).0
  unfolding emit_all
  emit_all-keeps [] d p = p
  emit_all-keeps (e ∷ es) d p = elim (Bool-cases (emit e d).1) [
    | inl there ↦ rw there (emit_all-keeps es (emit e d).0 (on_emit e d p))
    | inr gone ↦ rw gone (on_emit e d p)
  ]

  built-keeps :
      (r : Result NetError nets.Net × nets.World) (d : Driver nets) → P d → P (built r d).0
  unfolding built
  built-keeps (ok n, w) d p = move d _ (refl, refl, refl, refl, refl) p
  built-keeps (err e, w) d p = move d _ (refl, refl, refl, refl, refl) p

  net_of-keeps : (o : Option nets.Net) (d : Driver nets) → P d → P (net_of o d).0
  unfolding net_of
  net_of-keeps (some n) d p = p
  net_of-keeps none d p = built-keeps (nets.build d.world) d p

  started-keeps :
      (r : Result NetError nets.Listener × nets.World) (d : Driver nets) → P d → P (started r d).0
  unfolding started drop_net
  started-keeps (ok l, w) d p = on_emit _ _ (move d _ (refl, refl, refl, refl, refl) p)
  started-keeps (err e, w) d p = on_emit _ _ (move d _ (refl, refl, refl, refl, refl) p)

  host_on-keeps : (x : Driver nets × Result NetError nets.Net) → P x.0 → P (host_on x).0
  unfolding host_on
  host_on-keeps (d, err e) p = started-keeps (err e, d.world) d p
  host_on-keeps (d, ok n) p = started-keeps (nets.listen n d.world) d p

  joined-keeps :
      (r : Result NetError nets.Joining × nets.World) (d : Driver nets) → P d → P (joined r d).0
  unfolding joined drop_net
  joined-keeps (ok j, w) d p = move d _ (refl, refl, refl, refl, refl) p
  joined-keeps (err e, w) d p = on_emit _ _ (move d _ (refl, refl, refl, refl, refl) p)

  join_on-keeps :
      (t : Bytes) (x : Driver nets × Result NetError nets.Net) → P x.0 → P (join_on t x).0
  unfolding join_on
  join_on-keeps t (d, err e) p = joined-keeps (err e, d.world) d p
  join_on-keeps t (d, ok n) p = joined-keeps (nets.join_start n t d.world) d p

  sent-keeps :
      (r : Result NetError (Unit {0}) × nets.World) (d : Driver nets) → P d → P (sent r d).0
  unfolding sent
  sent-keeps (ok u, w) d p = move d _ (refl, refl, refl, refl, refl) p
  sent-keeps (err e, w) d p = elim (Bool-cases (is_queue_full e.code)) [
    | inl full ↦ rw (sent, full) (on_emit (failed e) _ (move d _ (refl, refl, refl, refl, refl) p))
    | inr other ↦ rw (sent, other) (move d _ (refl, refl, refl, refl, refl) p)
  ]

  send_on-keeps :
      (o : Option nets.Session) (b : Bytes) (d : Driver nets) → P d → P (send_on o b d).0
  unfolding send_on
  send_on-keeps none b d p = on_emit _ d p
  send_on-keeps (some s) b d p = sent-keeps (nets.try_send_data s b d.world) d p

  pub handle-keeps : (c : Command) (d : Driver nets) → P d → P (handle c d).0
  unfolding handle host join send leave the_net
  handle-keeps Command.host d p = elim (Bool-cases (is_busy d)) [
    | inl busy ↦ rw busy (on_emit _ d p)
    | inr free ↦ rw free (host_on-keeps (the_net d) (net_of-keeps d.net d p))
  ]
  handle-keeps (Command.join t) d p = elim (Bool-cases (is_busy d)) [
    | inl busy ↦ rw busy (on_emit _ d p)
    | inr free ↦ rw free (join_on-keeps t (the_net d) (net_of-keeps d.net d p))
  ]
  handle-keeps (Command.send b) d p = send_on-keeps d.session b d p
  handle-keeps Command.leave d p = move d _ (refl, refl, refl, refl, refl) p

  -- A reading that goes on keeps the property.
  abbrev Keeps : (Driver nets → Driver nets × Reading) → Type 0
  Keeps again = (d : Driver nets) → P d → P (again d).0

  went_on-keeps :
      (again : Driver nets → Driver nets × Reading) (x : Driver nets × Bool)
      → Keeps again
      → P x.0
      → P (went_on again x).0
  unfolding went_on
  went_on-keeps again (d, false) keeps p = p
  went_on-keeps again (d, true) keeps p = elim (Bool-cases (is_nil d.stalled)) [
    | inl e ↦ rw (went_on, e) (keeps d p)
    | inr e ↦ rw (went_on, e) p
  ]

  on_recv-keeps :
      (again : Driver nets → Driver nets × Reading) (r : Result NetError (Option SessionEvent))
      (d : Driver nets)
      → Keeps again
      → P d
      → P (on_recv again r d).0
  unfolding on_recv on_event
  on_recv-keeps again (err e) d keeps p = p
  on_recv-keeps again (ok none) d keeps p = p
  on_recv-keeps again (ok (some (data_of b))) d keeps p =
      went_on-keeps again (emit (Event.message 1 b) d) keeps (on_emit _ d p)
  on_recv-keeps again (ok (some (text_of t))) d keeps p = keeps d p
  on_recv-keeps again (ok (some peer_closed)) d keeps p = p
  on_recv-keeps again (ok (some (peer_lost why))) d keeps p = p
  on_recv-keeps again (ok (some (error e))) d keeps p = p

  read_from-keeps :
      (again : Driver nets → Driver nets × Reading) (o : Option nets.Session) (d : Driver nets)
      → Keeps again
      → P d
      → P (read_from again o d).0
  unfolding read_from received
  read_from-keeps again none d keeps p = p
  read_from-keeps again (some s) d keeps p =
      on_recv-keeps again (nets.try_recv s d.world).0 _ keeps
        (move d _ (refl, refl, refl, refl, refl) p)

  read_session-keeps : (n : ℕ) (d : Driver nets) → P d → P (read_session n d).0
  unfolding read_session
  read_session-keeps zero d p = p
  read_session-keeps (suc n) d p =
      read_from-keeps (read_session n) d.session d (read_session-keeps n) p

  rearmed-keeps : (r : Result NetError (Unit {0})) (d : Driver nets) → P d → P (rearmed r d)
  unfolding rearmed
  rearmed-keeps (ok u) d p = p
  rearmed-keeps (err e) d p = move d _ (refl, refl, refl, refl, refl) p

  after_end-keeps : (o : Option nets.Listener) (d : Driver nets) → P d → P (after_end o d)
  unfolding after_end drop_net
  after_end-keeps none d p = move d _ (refl, refl, refl, refl, refl) p
  after_end-keeps (some l) d p =
      rearmed-keeps (nets.rearm l d.world).0 _ (move d _ (refl, refl, refl, refl, refl) p)

  on_reading-keeps : (x : Driver nets × Reading) → P x.0 → P (on_reading x).0
  unfolding on_reading
  on_reading-keeps (d, quiet) p = p
  on_reading-keeps (d, link_gone) p = p
  on_reading-keeps (d, ended es) p =
      let d' : Driver nets = record d { session = none } in
      let q : P (emit_all es d').0 =
        emit_all-keeps es d' (move d d' (refl, refl, refl, refl, refl) p) in
      elim (Bool-cases (emit_all es d').1) [
        | inl there ↦ rw there (after_end-keeps (emit_all es d').0.listener (emit_all es d').0 q)
        | inr gone ↦ rw gone q
      ]

  read_on-keeps : (d : Driver nets) → P d → P (read_on d).0
  unfolding read_on
  read_on-keeps d p = on_reading-keeps (read_session backlog d) (read_session-keeps backlog d p)

  accepted-keeps :
      (l : nets.Listener) (r : Result NetError (Option nets.Session)) (d : Driver nets)
      → P d
      → P (accepted l r d).0
  unfolding accepted
  accepted-keeps l (ok none) d p = read_on-keeps d p
  accepted-keeps l (ok (some s)) d p = on_emit _ _ (move d _ (refl, refl, refl, refl, refl) p)
  accepted-keeps l (err e) d p =
      let d' : Driver nets = record d { world = (nets.rearm l d.world).1 } in
      let q : P (emit (failed e) d').0 =
        on_emit (failed e) d' (move d d' (refl, refl, refl, refl, refl) p) in
      elim (Bool-cases (emit (failed e) d').1) [
        | inl there ↦
            rw there
              (read_on-keeps _ (rearmed-keeps (nets.rearm l d.world).0 (emit (failed e) d').0 q))
        | inr gone ↦ rw gone q
      ]

  accept_on-keeps :
      (s : Option nets.Session) (o : Option nets.Listener) (d : Driver nets)
      → P d
      → P (accept_on s o d).0
  unfolding accept_on
  accept_on-keeps (some s) o d p = read_on-keeps d p
  accept_on-keeps none none d p = read_on-keeps d p
  accept_on-keeps none (some l) d p =
      accepted-keeps l (nets.try_accept l d.world).0 _ (move d _ (refl, refl, refl, refl, refl) p)

  on_join-keeps :
      (r : Option (Result NetError nets.Session)) (d : Driver nets) → P d → P (on_join r d).0
  unfolding on_join accept
  on_join-keeps none d p = accept_on-keeps d.session d.listener d p
  on_join-keeps (some (ok s)) d p = on_emit _ _ (move d _ (refl, refl, refl, refl, refl) p)
  on_join-keeps (some (err e)) d p = on_emit _ _ (move d _ (refl, refl, refl, refl, refl) p)

  pump_on-keeps : (o : Option nets.Joining) (d : Driver nets) → P d → P (pump_on o d).0
  unfolding pump_on accept
  pump_on-keeps none d p = accept_on-keeps d.session d.listener d p
  pump_on-keeps (some j) d p =
      on_join-keeps (nets.poll_joining j d.world).0 _ (move d _ (refl, refl, refl, refl, refl) p)

  pub pump-keeps : (d : Driver nets) → P d → P (pump d).0
  unfolding pump
  pump-keeps d p = elim (Bool-cases (is_nil d.stalled)) [
    | inl e ↦ rw (pump, e) (pump_on-keeps d.joining d p)
    | inr e ↦ rw (pump, e) p
  ]

module _ {nets : Nets} (P : Driver nets → Type 0)
    (on_emit : (e : Event) (d : Driver nets) → P d → P (emit e d).0)
    (on_take : (cs : List Command) (d : Driver nets) → P d → P (record d { cmds = cs }))
    (move : (d d' : Driver nets) → SameLines d d' → P d → P d') where
  handle_all-keeps : (cs : List Command) (d : Driver nets) → P d → P (handle_all cs d).0
  unfolding handle_all
  handle_all-keeps [] d p = p
  handle_all-keeps (c ∷ cs) d p =
      let d' : Driver nets = record d { cmds = cs } in
      let q : P (handle c d').0 = handle-keeps P on_emit move c d' (on_take cs d p) in
      elim (Bool-cases (handle c d').1) [
        | inl there ↦ rw there (handle_all-keeps cs (handle c d').0 q)
        | inr gone ↦ rw gone q
      ]

  if_keeps : (b : Bool) (x y : Driver nets × Bool) → P x.0 → P y.0 → P (if b then x else y).0
  if_keeps true x y p q = p
  if_keeps false x y p q = q

  commanded-keeps : (cs : List Command) (d : Driver nets) → P d → P (commanded cs d).0
  unfolding commanded served
  commanded-keeps [] d p = if_keeps d.hung_up (d, false) (pump d) p (pump-keeps P on_emit move d p)
  commanded-keeps (c ∷ cs) d p =
      let q : P (handle_all (c ∷ cs) d).0 = handle_all-keeps (c ∷ cs) d p in
      elim (Bool-cases (handle_all (c ∷ cs) d).1) [
        | inl there ↦ rw there (pump-keeps P on_emit move (handle_all (c ∷ cs) d).0 q)
        | inr gone ↦ rw gone q
      ]

  flushed-keeps : (x : Driver nets × Bool) → P x.0 → P (flushed x).0
  unfolding flushed
  flushed-keeps (d, there) p =
      if_keeps there (commanded d.cmds d) (d, false) (commanded-keeps d.cmds d p) p

  ending-keeps : (x : Driver nets × Bool) → P x.0 → P (ending x).0
  unfolding ending finish leave
  ending-keeps (d, true) p = p
  ending-keeps (d, false) p = move d _ (refl, refl, refl, refl, refl) p

  -- A round keeps what `emit`, `flush`, the taking of a command and changes elsewhere in the driver keep.
  pub round-keeps : (d : Driver nets) → P (flush d).0 → P (round d).0
  unfolding round
  round-keeps d p = ending-keeps (flushed (flush d)) (flushed-keeps (flush d) p)
