-- ===== src/Net/Link/Tests.antt =====
-- Links over the transport in memory, and the theorems at them.
use kuula.Prelude.{◌≡◌, refl, true, false, List, [], ◌∷◌}
use kuula.Net.{Command, check_command}
use kuula.Net.Memory.{first, pair, memory}
use kuula.Net.Link.{Link, new, set_permitted, push, poll, queue, take_pending, close}
use kuula.Net.Link.Gate.{IsGated}
use kuula.Net.Link.Runs.{Op, permits, pushes, polls, run, run-new-IsGated}

-- Permission, a session that hosts, a poll, and the withdrawal of the permission.
abbrev life : List Op
life = permits true ∷ pushes (Command.host ∷ []) ∷ polls 8 ∷ permits false ∷ []

abbrev start : Link (memory first)
start = new {tr = memory first} pair

run-new-IsGated_example : IsGated (run life start)
run-new-IsGated_example = run-new-IsGated {tr = memory first} life pair

life_denied : (run life start).permitted ≡ false
unfolding new run set_permitted poll push check_command queue take_pending close
life_denied = refl
