-- ===== src/Net/Memory/Tests.antt =====
-- Two ends that host, join and send, and the theorems at them.
use kuula.Prelude.{◌≡◌, refl, [], ◌∷◌}
use kuula.Prelude.Bytes.{codes, same_bytes}
use kuula.Net.{Command, Event}
use kuula.Net.Memory.{
  Hub, first, second, pair, push, poll, take_due, modify, deliver, other, memory_ticket,
}

-- The first end hosts, the second joins and says hello.
abbrev talking : Hub
talking =
    push second (Command.send (codes "hello"))
      (push second (Command.join memory_ticket) (push first Command.host pair))

heard :
    (poll first 8 talking).0
    ≡ Event.hosting memory_ticket ∷ Event.connected 1 ∷ Event.message 1 (codes "hello") ∷ []
unfolding poll take_due push modify deliver same_bytes other
heard = refl
