-- ===== src/Net.antt =====
-- What a cart asks the network for and what it is told: the commands, the events and their checks in
-- crates/kuula-core/src/net.rs. A `String` is its bytes. The cart's half is in Net/State, the host's
-- half in Net/Link and the transport in memory in Net/Memory.
pub mod State
pub mod Link
pub mod Memory
use kuula.Prelude.{
  ℕ, ◌<◌, ◌≤◌, Bool, true, false, ◌||◌, Option, none, some, [], ltb, ◌==◌, length, take,
  if◌then◌else◌,
}
use kuula.Prelude.Bytes.{Bytes}
use kuula.Prelude.Utf8.{floor_char_boundary}
use kuula.Prelude.Result.{Result, ok, err}

abbrev pub max_data : ℕ
max_data = 1024

abbrev pub max_ticket : ℕ
max_ticket = 1024

abbrev pub max_detail : ℕ
max_detail = 256

abbrev pub inbox_cap : ℕ
inbox_cap = 256

abbrev pub max_batch : ℕ
max_batch = 64

abbrev pub max_sends : ℕ
max_sends = 16

abbrev pub max_commands : ℕ
max_commands = 32

abbrev pub pending_cap : ℕ
pending_cap = inbox_cap

pub data Command : Type 0 where
  host leave : Command
  join send : Bytes → Command

pub data Reason : Type 0 where
  left lost closed : Reason

pub data FailCode : Type 0 where
  denied declined queue_full disabled no_address ticket connect protocol_mismatch : FailCode
  handshake frame timeout busy cancelled : FailCode

pub data Event : Type 0 where
  hosting : Bytes → Event
  connected : ℕ → Event
  message : ℕ → Bytes → Event
  disconnected : Reason → Event
  failed : FailCode → Bytes → Event
  permission : Bool → Event

-- The texts of the checks' errors, as what they are built from.
pub data Malformed : Type 0 where
  ticket_of data_of detail_of peer_of : ℕ → Malformed

-- `data.is_empty() || data.len() > MAX_DATA`
abbrev pub bad_data : Bytes → Bool
bad_data payload = length payload == 0 || ltb max_data (length payload)

-- Command::check
unfoldable pub check_command : Command → Result Malformed (Unit {0})
check_command (join t) = if ltb max_ticket (length t) then err (ticket_of (length t)) else ok tt
check_command (send payload) = if bad_data payload then err (data_of (length payload)) else ok tt
check_command host = ok tt
check_command leave = ok tt

-- Event::check
unfoldable pub check_event : Event → Result Malformed (Unit {0})
check_event (hosting t) = if ltb max_ticket (length t) then err (ticket_of (length t)) else ok tt
check_event (connected n) = if n == 1 then ok tt else err (peer_of n)
check_event (message n payload) =
    if n == 1
    then (if bad_data payload then err (data_of (length payload)) else ok tt)
    else err (peer_of n)
check_event (failed code detail) =
    if ltb max_detail (length detail) then err (detail_of (length detail)) else ok tt
check_event (disconnected reason) = ok tt
check_event (permission granted) = ok tt

-- Event::is_control
unfoldable pub is_control : Event → Bool
is_control (permission granted) = true
is_control (hosting t) = false
is_control (connected n) = false
is_control (message n payload) = false
is_control (disconnected reason) = false
is_control (failed code detail) = false

-- Event::failed: the detail is cut at a character boundary.
unfoldable pub failure : FailCode → Bytes → Event
unfolding floor_char_boundary
failure code detail = failed code (
    if ltb max_detail (length detail)
    then take (floor_char_boundary detail max_detail) detail
    else detail)
