-- ===== src/Driver/Teardown.antt =====
-- How the driver of crates/kuula-net/src/transport.rs ends when the link has dropped its ends.
use kuula.Prelude.{
  if_either, ◌≡◌, refl, sym, ◌∙◌, Bool, true, false, none, List, [], ◌∷◌, ◌++◌, inl, inr,
  Bool-cases, ltb, length, arith, if◌then◌else◌,
}
use mathlib.Core.Bool.{true≢false}
use kuula.Net.{Command, Event}
use kuula.Driver.{Nets, Driver, backlog, flush, put, emit, handle, leave}
use kuula.Driver.Rounds.{
  pump, handle_all, finish, served, commanded, flushed, ending, round, rounds, step, steps,
}
use kuula.Driver.Lines.{SameLines, handle-keeps, pump-keeps, round-keeps}

module _ {nets : Nets} where
  put_commands :
      (es : List Event) (e : Event) (d : Driver nets)
      → ((put es e d).0.cmds ≡ d.cmds) × ((put es e d).0.hung_up ≡ d.hung_up)
  unfolding put
  put_commands (s ∷ ss) e d = (refl, refl)
  put_commands [] e d =
      let Same : Driver nets × Bool → Type 0 =
        λ x. (x.0.cmds ≡ d.cmds) × (x.0.hung_up ≡ d.hung_up) in
      let in_queue : Driver nets × Bool = (record d { queue = d.queue ++ e ∷ [] }, true) in
      let waits : Driver nets × Bool = (record d { stalled = e ∷ [] }, true) in
      if_either Same d.hung_up (d, false) (if ltb (length d.queue) backlog then in_queue else waits)
        (λ p. (refl, refl))
        (λ p.
          if_either Same (ltb (length d.queue) backlog) in_queue waits (λ q. (refl, refl))
            (λ q. (refl, refl)))

  abbrev Left : List Command → Driver nets → Type 0
  Left cs d = d.cmds ≡ cs

  emit-Left : (cs : List Command) (e : Event) (d : Driver nets) → Left cs d → Left cs (emit e d).0
  unfolding emit
  emit-Left cs e d p = (put_commands d.stalled e (record d { emitted = d.emitted ++ e ∷ [] })).0 ∙ p

  move-Left : (cs : List Command) (d d' : Driver nets) → SameLines d d' → Left cs d → Left cs d'
  move-Left cs d d' (q, s, e, h, c) p = c ∙ p

  abbrev pub HungUp : Driver nets → Type 0
  HungUp d = d.hung_up ≡ true

  emit-HungUp : (e : Event) (d : Driver nets) → HungUp d → HungUp (emit e d).0
  unfolding emit
  emit-HungUp e d p = (put_commands d.stalled e (record d { emitted = d.emitted ++ e ∷ [] })).1 ∙ p

  flush-HungUp : (d : Driver nets) → HungUp d → HungUp (flush d).0
  unfolding flush
  flush-HungUp d p = p

  round-HungUp : (d : Driver nets) → HungUp d → HungUp (round d).0
  round-HungUp d p =
      round-keeps HungUp emit-HungUp (λ cs d p. p) (λ d d' (q, s, e, h, c) p. h ∙ p) d
        (flush-HungUp d p)

  -- The commands are all taken, where the link is still there after them.
  handle_all-Left :
      (cs : List Command) (d : Driver nets)
      → Left cs d
      → (handle_all cs d).1 ≡ true
      → Left [] (handle_all cs d).0
  unfolding handle_all
  handle_all-Left [] d p = λ h. p
  handle_all-Left (c ∷ cs) d p =
      let x = handle c (record d { cmds = cs }) in
      let q : Left cs x.0 =
        handle-keeps (Left cs) (emit-Left cs) (move-Left cs) c (record d { cmds = cs }) refl in
      elim (Bool-cases x.1) [
        | inl there ↦ rw there (λ h. handle_all-Left cs x.0 q h)
        | inr gone ↦ rw gone (λ h. absurd (true≢false (sym h)))
      ]

  -- Where a round goes on, no command is left.
  abbrev Served : Driver nets × Bool → Type 0
  Served x = x.1 ≡ true → Left [] x.0

  served-Served : (x : Driver nets × Bool) → Served x → Served (served x)
  unfolding served
  served-Served (d, true) p h = pump-keeps (Left []) (emit-Left []) (move-Left []) d (p refl)
  served-Served (d, false) p h = absurd (true≢false (sym h))

  commanded-Served :
      (cs : List Command) (d : Driver nets) → Left cs d → HungUp d → Served (commanded cs d)
  unfolding commanded
  commanded-Served [] d p g =
      if_either Served d.hung_up (d, false) (pump d) (λ e h. p)
        (λ e. absurd (true≢false (sym g ∙ e)))
  commanded-Served (c ∷ cs) d p g =
      served-Served (handle_all (c ∷ cs) d) (handle_all-Left (c ∷ cs) d p)

  flushed-Served : (x : Driver nets × Bool) → HungUp x.0 → Served (flushed x)
  unfolding flushed
  flushed-Served (d, true) g = commanded-Served d.cmds d refl g
  flushed-Served (d, false) g = λ h. absurd (true≢false (sym h))

  ending-Served : (x : Driver nets × Bool) → Served x → Served (ending x)
  unfolding ending
  ending-Served (d, true) p = p
  ending-Served (d, false) p = λ h. absurd (true≢false (sym h))

  round-Served : (d : Driver nets) → HungUp d → Served (round d)
  unfolding round flush
  round-Served d g = ending-Served (flushed (flush d)) (flushed-Served (flush d) g)

  -- Nothing is held any more.
  pub record IsDown (d : Driver nets) : Type 0 where
    pub net : d.net ≡ none
    pub listener : d.listener ≡ none
    pub joining : d.joining ≡ none
    pub session : d.session ≡ none

  abbrev Ended : Driver nets × Bool → Type 0
  Ended x = (x.1 ≡ false) × IsDown x.0

  commanded_ends :
      (cs : List Command) (d : Driver nets) → cs ≡ [] → HungUp d → (commanded cs d).1 ≡ false
  unfolding commanded
  commanded_ends [] d p g =
      if_either (λ (x : Driver nets × Bool). x.1 ≡ false) d.hung_up (d, false) (pump d) (λ e. refl)
        (λ e. absurd (true≢false (sym g ∙ e)))
  commanded_ends (c ∷ cs) d p g = absurd (ground (arith, p))

  flushed_ends : (x : Driver nets × Bool) → Left [] x.0 → HungUp x.0 → (flushed x).1 ≡ false
  unfolding flushed
  flushed_ends (d, true) p g = commanded_ends d.cmds d p g
  flushed_ends (d, false) p g = refl

  ending-Ended : (x : Driver nets × Bool) → (ending x).1 ≡ false → Ended (ending x)
  unfolding ending finish leave
  ending-Ended (d, true) e = absurd (true≢false e)
  ending-Ended (d, false) e =
      (refl, record { net = refl; listener = refl; joining = refl; session = refl })

  ending_last : (x : Driver nets × Bool) → x.1 ≡ false → (ending x).1 ≡ false
  unfolding ending
  ending_last (d, true) e = absurd (true≢false e)
  ending_last (d, false) e = refl

  round_ends : (d : Driver nets) → Left [] d → HungUp d → (round d).1 ≡ false
  unfolding round flush
  round_ends d p g = ending_last (flushed (flush d)) (flushed_ends (flush d) p g)

  round-Ended : (d : Driver nets) → (round d).1 ≡ false → Ended (round d)
  unfolding round
  round-Ended d e = ending-Ended (flushed (flush d)) e

  -- Once the link has dropped its ends of the channels, a running driver's loop ends within two rounds,
  -- and then the driver holds no network, listener, join or session.
  pub steps_end :
      (d : Driver nets) (got : List Event)
      → HungUp d
      → ((steps (rounds ∷ rounds ∷ []) (d, true, got)).1 ≡ false)
        × IsDown (steps (rounds ∷ rounds ∷ []) (d, true, got)).0
  unfolding steps step
  steps_end d got g = elim (Bool-cases (round d).1) [
    | inl on ↦
        let p : Left [] (round d).0 = round-Served d g on in
        rw on (round-Ended (round d).0 (round_ends (round d).0 p (round-HungUp d g)))
    | inr off ↦ rw off (refl, (round-Ended d off).1)
  ]
