-- ===== src/Net/Link/Closing.antt =====
-- What a `Leave` does to the link.
use kuula.Prelude.{◌≡◌, ◌∙◌, inl, inr, none, [], ◌∷◌, Option-cases}
use kuula.Net.{Command, Event, Reason, check_command}
use kuula.Net.Link.{Transport, Link, close, leave_session, dispatch, push_all, push}
use kuula.Net.Link.Gate.{queue_keeps, close_keeps}

module _ {tr : Transport} where
  leave_session-closes : (l : Link tr) → (leave_session l).transport ≡ none
  unfolding leave_session
  leave_session-closes l = elim (Option-cases l.transport) [
    | inl e ↦ rw (e, leave_session) e
    | inr (h, e) ↦
        rw (e, leave_session)
          ((queue_keeps (Event.disconnected Reason.closed) (close l)).1 ∙ (close_keeps l).2)
  ]

  -- A single `Leave` leaves the link without a transport.
  pub push-closes : (l : Link tr) → (push (Command.leave ∷ []) l).transport ≡ none
  unfolding push push_all dispatch check_command
  push-closes l = leave_session-closes l
