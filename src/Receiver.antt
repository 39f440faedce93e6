-- ===== src/Receiver.antt =====
-- The deploy receiver, crates/kuula-net/src/deploy/receiver.rs: one connection from its handshake to the
-- result. The directories of carts and of staged files are functions from a name to what the file
-- holds. What the connection, the file system and the console answer is a record, World; the hash, the
-- checks of a package and the texts are those of Library.
pub mod Reading
pub mod Transfer
pub mod Chunks
pub mod Install
pub mod Atomic
pub mod Handled
pub mod Honest
mod Tests
use kuula.Prelude.{
  ℕ, ◌+◌, ◌-◌, Bool, true, false, Option, none, some, List, [], ◌∷◌, ◌++◌, ◌==◌, if◌then◌else◌,
}
use kuula.Prelude.Bytes.{Bytes, same_bytes}
use kuula.Prelude.Result.{Result}
use kuula.Wire.Deploy.{DeployCode, Restart, Detail, not_run}

-- The texts that a result or an event carries.
pub data Why : Type 0 where
  no_offer late_offer shutting_down no_answer_taken unfinished trailing console_gone nothing : Why
  offer_lost : Why
  refused_offer : Detail → Why
  not_created not_written not_flushed not_replaced : Bytes → Why
  no_data ended_early : ℕ → ℕ → Why
  broken : ℕ → ℕ → Bytes → Why
  broken_end : Bytes → Why
  digests : Bytes → Bytes → Why
  invalid_package : Bytes → Why
  answered : Bytes → Why

pub record Done : Type 0 where
  pub name : Bytes
  pub bytes : ℕ
  pub code : DeployCode
  pub restart : Restart
  pub detail : Why

-- Done::fail
abbrev pub fail : Bytes → ℕ → DeployCode → Why → Done
fail name bytes code why = record {
  name = name;
  bytes = bytes;
  code = code;
  restart = not_run;
  detail = why;
}

-- What a sender that is not approved offered: a name and a size.
pub record Asked : Type 0 where
  pub name : Bytes
  pub bytes : ℕ
  pub from : Bytes

pub data DeployEvent : Type 0 where
  unpaired_event : Bytes → Option Asked → DeployEvent
  busy_event : Bytes → DeployEvent
  offered : Bytes → Bytes → ℕ → DeployEvent
  finished : Bytes → Done → DeployEvent

-- Ctx, with the files and the events that it has reported.
pub record Ctx : Type 0 where
  pub carts : Bytes → Option Bytes
  pub parts : ℕ → Option Bytes
  pub next_part : ℕ
  pub active : Bool
  pub events : List DeployEvent

-- What was sent on the stream, whether its reading was stopped, and the code of the close.
pub record Conn : Type 0 where
  pub sent : List Bytes
  pub reading_stopped : Bool
  pub closed : Option ℕ

-- A wait that the receiver's stop or a deadline may cut short.
pub data Waited {ℓ} (A : Type ℓ) : Type ℓ where
  stopped late : Waited A
  done : A → Waited A

-- A read that waits too long, fails, or gets at most so many bytes and one more.
pub data Read : Type 0 where
  stalled : Read
  failed : Bytes → Read
  arrives : ℕ → Read

-- A round of `receive_data`: the stop, or a read and how the write of what came to the file fails.
pub data Round : Type 0 where
  stop_asked : Round
  reads : Read → Option Bytes → Round

-- The console's side of a restart.
pub data Console : Type 0 where
  absent console_left silent : Console
  answers : Restart → Bytes → Console

pub record World : Type 0 where
  pub opened : Waited (Result Bytes (Unit {0}))
  pub incoming : Bytes
  pub offer_read : Waited (Unit {0})
  pub created : Option Bytes
  pub answer_taken : Bool
  -- the round that follows so many bytes
  pub rounds : ℕ → Round
  pub last : Read
  pub flushed : Option Bytes
  -- whether a staged file that is let go can be deleted
  pub removed : Bool
  pub replaced : Option Bytes
  pub console : Console

pub record Library : Type 0 where
  pub sha256 : Bytes → Bytes
  pub check_package_file : Bytes → Option Bytes
  pub format : Why → Bytes

-- The close codes of `wire::close`.
abbrev pub close_bye : ℕ
close_bye = 0

abbrev pub close_busy : ℕ
close_busy = 1

abbrev pub close_timeout : ℕ
close_timeout = 3

abbrev pub close_shutdown : ℕ
close_shutdown = 4

abbrev pub close_unpaired : ℕ
close_unpaired = 5

abbrev pub fresh : Conn
fresh = record { sent = []; reading_stopped = false; closed = none }

unfoldable pub send_bytes : Bytes → Conn → Conn
send_bytes bytes c = record c { sent = c.sent ++ bytes ∷ [] }

unfoldable pub close : ℕ → Conn → Conn
close code c = record c { closed = some code }

unfoldable pub emit : DeployEvent → Ctx → Ctx
emit e ctx = record ctx { events = ctx.events ++ e ∷ [] }

-- A file of a directory, written or deleted.
unfoldable pub with_part : ℕ → Option Bytes → Ctx → Ctx
with_part n content ctx = record ctx { parts = λ k. if k == n then content else ctx.parts k }

unfoldable pub with_cart : Bytes → Bytes → Ctx → Ctx
unfolding same_bytes
with_cart name content ctx = record ctx {
  carts = λ n. if same_bytes n name then some content else ctx.carts n;
}
