-- ===== src/Driver/Held.antt =====
-- A round of the driver of crates/kuula-net/src/transport.rs ends with what it may hold.
use kuula.Prelude.{
  if_either, ℕ, zero, suc, ◌≡◌, refl, sym, ap, ◌∙◌, Bool, true, false, Option, none, some, List, [],
  ◌∷◌, ◌++◌, inl, inr, Bool-cases, arith,
}
use kuula.Prelude.Result.{Result, ok, err}
use mathlib.Core.Bool.{true≢false}
use kuula.Net.{Command, Event}
use kuula.Session.{NetError, text_of, data_of, peer_closed, peer_lost, error, Event as SessionEvent}
use kuula.Driver.{
  new, Nets, Driver, failed, is_some, push, poll, hang_up, flush, emit, emit_all, handle,
}
use kuula.Driver.Rounds.{
  Reading, quiet, link_gone, ended, is_nil, went_on, on_event, on_recv, received, read_from,
  read_session, rearmed, after_end, on_reading, read_on, accepted, accept_on, accept, on_join,
  pump_on, pump, handle_all, finish, served, commanded, flushed, ending, round, Op, pushes, polls,
  hangs_up, rounds, step, steps,
}
use kuula.Driver.Roles.{
  is_role, is_none_of, IsRole, SameRole, move-IsRole, same_trans, emit-SameRole, emit-IsRole,
  emit_all-SameRole, from_flags, drop_net-IsRole, handle-IsRole, leave-IsRole,
}

joins_alone :
    (n l j s : Bool) → j ≡ true → is_role n l j s ≡ true → (n ≡ true) × (l ≡ false) × (s ≡ false)
unfolding is_role
joins_alone n l j s e r = ground (arith, e, r)

session_alone : (n l j s : Bool) → s ≡ true → is_role n l j s ≡ true → j ≡ false
unfolding is_role
session_alone n l j s e r = ground (arith, e, r)

listens_up : (n l j s : Bool) → l ≡ true → is_role n l j s ≡ true → (n ≡ true) × (j ≡ false)
unfolding is_role
listens_up n l j s e r = ground (arith, e, r)

module _ {nets : Nets} where
  abbrev Stays : (Driver nets → Driver nets × Reading) → Type 0
  Stays again = (d : Driver nets) → SameRole d (again d).0

  went_on-SameRole :
      (again : Driver nets → Driver nets × Reading) (x : Driver nets × Bool)
      → Stays again
      → SameRole x.0 (went_on again x).0
  unfolding went_on
  went_on-SameRole again (d, false) stays = (refl, refl, refl, refl)
  went_on-SameRole again (d, true) stays = elim (Bool-cases (is_nil d.stalled)) [
    | inl e ↦ rw (went_on, e) (stays d)
    | inr e ↦ rw (went_on, e) (refl, refl, refl, refl)
  ]

  on_recv-SameRole :
      (again : Driver nets → Driver nets × Reading) (r : Result NetError (Option SessionEvent))
      (d : Driver nets)
      → Stays again
      → SameRole d (on_recv again r d).0
  unfolding on_recv on_event
  on_recv-SameRole again (err e) d stays = (refl, refl, refl, refl)
  on_recv-SameRole again (ok none) d stays = (refl, refl, refl, refl)
  on_recv-SameRole again (ok (some (data_of b))) d stays =
      let x = emit (Event.message 1 b) d in
      same_trans d x.0 (went_on again x).0 (emit-SameRole (Event.message 1 b) d)
        (went_on-SameRole again x stays)
  on_recv-SameRole again (ok (some (text_of t))) d stays = stays d
  on_recv-SameRole again (ok (some peer_closed)) d stays = (refl, refl, refl, refl)
  on_recv-SameRole again (ok (some (peer_lost why))) d stays = (refl, refl, refl, refl)
  on_recv-SameRole again (ok (some (error e))) d stays = (refl, refl, refl, refl)

  read_from-SameRole :
      (again : Driver nets → Driver nets × Reading) (o : Option nets.Session) (d : Driver nets)
      → Stays again
      → SameRole d (read_from again o d).0
  unfolding read_from received
  read_from-SameRole again none d stays = (refl, refl, refl, refl)
  read_from-SameRole again (some s) d stays =
      on_recv-SameRole again (nets.try_recv s d.world).0
        (record d { world = (nets.try_recv s d.world).1 }) stays

  read_session-SameRole : (n : ℕ) → Stays (read_session n)
  unfolding read_session
  read_session-SameRole zero d = (refl, refl, refl, refl)
  read_session-SameRole (suc n) d =
      read_from-SameRole (read_session n) d.session d (read_session-SameRole n)

  -- What is held is right where the round goes on; where it does not, everything is dropped next.
  abbrev Held : Driver nets × Bool → Type 0
  Held x = x.1 ≡ true → IsRole x.0

  rearmed-IsRole :
      (r : Result NetError (Unit {0})) (d : Driver nets)
      → d.joining ≡ none
      → d.session ≡ none
      → IsRole d
      → IsRole (rearmed r d)
  unfolding rearmed is_role
  rearmed-IsRole (ok u) d j s r = r
  rearmed-IsRole (err e) d j s r =
      from_flags (record d { listener = none; net = none }) false false false false refl refl
        (ap is_some j) (ap is_some s) refl

  -- A listener that goes on after its session.
  after_end-IsRole :
      (o : Option nets.Listener) (d : Driver nets)
      → d.listener ≡ o
      → (is_some d.listener ≡ true → is_some d.net ≡ true)
      → d.joining ≡ none
      → d.session ≡ none
      → IsRole (after_end o d)
  unfolding after_end is_role
  after_end-IsRole none d l up j s = drop_net-IsRole d (l, j, s)
  after_end-IsRole (some a) d l up j s =
      let d' : Driver nets = record d { world = (nets.rearm a d.world).1 } in
      rearmed-IsRole (nets.rearm a d.world).0 d' j s (
        from_flags d' true true false false (up (ap is_some l)) (ap is_some l) (ap is_some j)
          (ap is_some s) refl)

  on_reading-Held :
      (x : Driver nets × Reading) → IsRole x.0 → is_some x.0.joining ≡ false → Held (on_reading x)
  unfolding on_reading
  on_reading-Held (d, quiet) r j = λ h. r
  on_reading-Held (d, link_gone) r j = λ h. r
  on_reading-Held (d, ended es) r j =
      let d' : Driver nets = record d { session = none } in
      let (a, b, c, e) = emit_all-SameRole es d' in
      elim (Bool-cases (emit_all es d').1) [
        | inl there ↦ rw there (λ h.
            after_end-IsRole (emit_all es d').0.listener (emit_all es d').0 refl
              (λ up.
                ap is_some a
                ∙ (listens_up (is_some d.net) (is_some d.listener) (is_some d.joining)
                    (is_some d.session) (sym (ap is_some b) ∙ up) r).0)
              (c ∙ is_none_of d.joining j) e)
        | inr gone ↦ rw gone (λ h. absurd (true≢false (sym h)))
      ]

  read_from-Held :
      (n : ℕ) (o : Option nets.Session) (d : Driver nets)
      → d.session ≡ o
      → IsRole d
      → Held (on_reading (read_from (read_session n) o d))
  unfolding read_from on_reading
  read_from-Held n none d e r = λ h. r
  read_from-Held n (some s) d e r =
      let x = read_from (read_session n) (some s) d in
      let same : SameRole d x.0 =
        read_from-SameRole (read_session n) (some s) d (read_session-SameRole n) in
      let (n', l, j, s') = same in
      let alone : is_some d.joining ≡ false =
        session_alone (is_some d.net) (is_some d.listener) (is_some d.joining) (is_some d.session)
          (ap is_some e) r in
      on_reading-Held x (move-IsRole d x.0 same r) (ap is_some j ∙ alone)

  read_on-Held : (d : Driver nets) → IsRole d → Held (read_on d)
  unfolding read_on read_session
  read_on-Held d r = read_from-Held 255 d.session d refl r

  accepted-Held :
      (l : nets.Listener) (r : Result NetError (Option nets.Session)) (d : Driver nets)
      → is_some d.listener ≡ true
      → d.session ≡ none
      → IsRole d
      → Held (accepted l r d)
  unfolding accepted is_role
  accepted-Held l (ok none) d e s r = read_on-Held d r
  accepted-Held l (ok (some a)) d e s r =
      let (up, j) =
        listens_up (is_some d.net) (is_some d.listener) (is_some d.joining) (is_some d.session) e
          r in
      let d' : Driver nets = record d { session = some a } in
      λ h. emit-IsRole (Event.connected 1) d' (from_flags d' true true false true up e j refl refl)
  accepted-Held l (err a) d e s r =
      let (up, j) =
        listens_up (is_some d.net) (is_some d.listener) (is_some d.joining) (is_some d.session) e
          r in
      let d' : Driver nets = record d { world = (nets.rearm l d.world).1 } in
      let (n', l', j', s') = emit-SameRole (failed a) d' in
      elim (Bool-cases (emit (failed a) d').1) [
        | inl there ↦ rw there (
            read_on-Held (rearmed (nets.rearm l d.world).0 (emit (failed a) d').0) (
              rearmed-IsRole (nets.rearm l d.world).0 (emit (failed a) d').0
                (j' ∙ is_none_of d.joining j) (s' ∙ s) (emit-IsRole (failed a) d' r)))
        | inr gone ↦ rw gone (λ h. absurd (true≢false (sym h)))
      ]

  accept_on-Held :
      (s : Option nets.Session) (o : Option nets.Listener) (d : Driver nets)
      → d.session ≡ s
      → d.listener ≡ o
      → IsRole d
      → Held (accept_on s o d)
  unfolding accept_on
  accept_on-Held (some s) o d e l r = read_on-Held d r
  accept_on-Held none none d e l r = read_on-Held d r
  accept_on-Held none (some a) d e l r =
      accepted-Held a (nets.try_accept a d.world).0
        (record d { world = (nets.try_accept a d.world).1 }) (ap is_some l) e r

  accept-Held : (d : Driver nets) → IsRole d → Held (accept d)
  unfolding accept
  accept-Held d r = accept_on-Held d.session d.listener d refl refl r

  on_join-Held :
      (a : Option (Result NetError nets.Session)) (d : Driver nets)
      → is_some d.joining ≡ true
      → IsRole d
      → Held (on_join a d)
  unfolding on_join is_role
  on_join-Held none d e r = accept-Held d r
  on_join-Held (some (ok s)) d e r =
      let (up, l, s') =
        joins_alone (is_some d.net) (is_some d.listener) (is_some d.joining) (is_some d.session) e
          r in
      let d' : Driver nets = record d { joining = none; session = some s } in
      λ h.
        emit-IsRole (Event.connected 1) d' (from_flags d' true false false true up l refl refl refl)
  on_join-Held (some (err a)) d e r =
      let (up, l, s') =
        joins_alone (is_some d.net) (is_some d.listener) (is_some d.joining) (is_some d.session) e
          r in
      let d' : Driver nets = record d { joining = none; net = none } in
      λ h. emit-IsRole (failed a) d' (from_flags d' false false false false refl l refl s' refl)

  pump_on-Held :
      (o : Option nets.Joining) (d : Driver nets) → d.joining ≡ o → IsRole d → Held (pump_on o d)
  unfolding pump_on
  pump_on-Held none d e r = accept-Held d r
  pump_on-Held (some j) d e r =
      on_join-Held (nets.poll_joining j d.world).0
        (record d { world = (nets.poll_joining j d.world).1 }) (ap is_some e) r

  pump-Held : (d : Driver nets) → IsRole d → Held (pump d)
  unfolding pump
  pump-Held d r = elim (Bool-cases (is_nil d.stalled)) [
    | inl e ↦ rw (pump, e) (pump_on-Held d.joining d refl r)
    | inr e ↦ rw (pump, e) (λ h. r)
  ]

  handle_all-IsRole : (cs : List Command) (d : Driver nets) → IsRole d → IsRole (handle_all cs d).0
  unfolding handle_all
  handle_all-IsRole [] d r = r
  handle_all-IsRole (c ∷ cs) d r =
      let x = handle c (record d { cmds = cs }) in
      let r' : IsRole x.0 = handle-IsRole c (record d { cmds = cs }) r in
      elim (Bool-cases x.1) [
        | inl there ↦ rw there (handle_all-IsRole cs x.0 r')
        | inr gone ↦ rw gone r'
      ]

  served-Held : (x : Driver nets × Bool) → IsRole x.0 → Held (served x)
  unfolding served
  served-Held (d, true) r = pump-Held d r
  served-Held (d, false) r = λ h. r

  commanded-Held : (cs : List Command) (d : Driver nets) → IsRole d → Held (commanded cs d)
  unfolding commanded
  commanded-Held [] d r =
      if_either Held d.hung_up (d, false) (pump d) (λ e h. r) (λ e. pump-Held d r)
  commanded-Held (c ∷ cs) d r = served-Held (handle_all (c ∷ cs) d) (handle_all-IsRole (c ∷ cs) d r)

  flushed-Held : (x : Driver nets × Bool) → IsRole x.0 → Held (flushed x)
  unfolding flushed
  flushed-Held (d, true) r = commanded-Held d.cmds d r
  flushed-Held (d, false) r = λ h. r

  ending-IsRole : (x : Driver nets × Bool) → Held x → IsRole (ending x).0
  unfolding ending finish
  ending-IsRole (d, true) held = held refl
  ending-IsRole (d, false) held = leave-IsRole d

  round-IsRole : (d : Driver nets) → IsRole d → IsRole (round d).0
  unfolding round flush
  round-IsRole d r = ending-IsRole (flushed (flush d)) (flushed-Held (flush d) r)

  step-IsRole : (o : Op) (s : Driver nets × Bool × List Event) → IsRole s.0 → IsRole (step o s).0
  unfolding step push poll hang_up
  step-IsRole (pushes c) (d, runs, got) r =
      if_either IsRole d.hung_up d (record d { cmds = d.cmds ++ c ∷ [] }) (λ e. r) (λ e. r)
  step-IsRole (polls n) (d, runs, got) r = r
  step-IsRole hangs_up (d, runs, got) r = r
  step-IsRole rounds (d, true, got) r = round-IsRole d r
  step-IsRole rounds (d, false, got) r = r

  steps-IsRole :
      (ops : List Op) (s : Driver nets × Bool × List Event) → IsRole s.0 → IsRole (steps ops s).0
  unfolding steps
  steps-IsRole [] s r = r
  steps-IsRole (o ∷ ops) s r = steps-IsRole ops (step o s) (step-IsRole o s r)

module _ (nets : Nets) where
  -- From a fresh driver, however the link calls and the driver runs, the driver holds one of: nothing; a
  -- join; a session that it joined; a listener, with a session or without; and it holds a network exactly in
  -- the last three.
  pub steps-new-IsRole :
      (ops : List Op) (w : nets.World) → IsRole (steps ops (new {nets = nets} w, true, [])).0
  unfolding new is_role
  steps-new-IsRole ops w = steps-IsRole ops (new {nets = nets} w, true, []) refl
