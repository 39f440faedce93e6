-- ===== src/Net/State/Tests.antt =====
-- A console that hosts, plays and loses its permission, and the theorems at it.
use kuula.Prelude.{◌≡◌, refl, true, none, List, [], ◌∷◌}
use kuula.Prelude.Bytes.{Bytes, codes}
use kuula.Net.{Event, Reason}
use kuula.Net.State.{
  NetEnv, Status, Op, frame, hosts, joins, sends, leaves, receives, new, begin_frame, admit, apply,
  enqueue, host, send, recv, is_live, step, steps,
}
use kuula.Net.State.Bounds.{IsBounded, steps-new-IsBounded}
use kuula.Net.State.Roles.{IsConsistent, steps-new-IsConsistent}

abbrev allowed : NetEnv
allowed = record { permitted = true; invite = none }

abbrev ticket : Bytes
ticket = codes "memory:pair"

-- Hosting, a player joins, says hello and leaves.
abbrev evening : List Op
evening =
    hosts
    ∷ frame (Event.hosting ticket ∷ Event.connected 1 ∷ [])
    ∷ sends (codes "hello")
    ∷ frame (Event.message 1 (codes "hi") ∷ Event.disconnected Reason.left ∷ [])
    ∷ receives
    ∷ []

back_to_hosting : (steps evening (new allowed)).status ≡ Status.hosting
unfolding steps step host is_live begin_frame admit apply enqueue send recv new
back_to_hosting = refl

steps-new-IsConsistent_example : IsConsistent (steps evening (new allowed))
steps-new-IsConsistent_example = steps-new-IsConsistent allowed evening

steps-new-IsBounded_example : IsBounded (steps evening (new allowed))
steps-new-IsBounded_example = steps-new-IsBounded allowed evening

abbrev two_messages : List Event
two_messages = Event.message 1 (codes "a") ∷ Event.message 1 (codes "b") ∷ []

abbrev calls : List Op
calls = hosts ∷ joins ticket ∷ sends (codes "x") ∷ leaves ∷ receives ∷ []
