-- ===== src/Shell.antt =====
-- The shell's side of the console: crates/kuula-core/src/shell.rs and shell/network.rs. A `String` is
-- its bytes.
pub mod Overlay
use kuula.Prelude.{
  ℕ, Bool, true, false, Option, none, some, List, [], ◌∷◌, ◌++◌, ltb, length, ◌==◌, if◌then◌else◌,
}
use kuula.Prelude.Bytes.{Bytes, codes}
use kuula.Net.{Event, Reason, FailCode}
use kuula.Net.State.{Status}
use kuula.Manifest.{License}

-- crates/kuula-core/src/fault.rs
pub record Fault : Type 0 where
  pub code : Bytes
  pub message : Bytes
  pub file : Bytes
  pub line : Option ℕ

pub record CartEntry : Type 0 where
  pub name : Bytes
  pub title : Bytes
  pub network : Bool
  pub author : Bytes
  pub license : Option License

pub record Settings : Type 0 where
  pub scale : ℕ
  pub volume : ℕ
  pub net : Bool

abbrev pub default_settings : Settings
default_settings = record { scale = 2; volume = 100; net = false }

pub data Action : Type 0 where
  overlay discovery : Bool → Action
  browse edit text : Bytes → Action
  relay : Bytes → Bool → Action
  copy paste : Action

pub data DevAction : Type 0 where
  approve refuse : DevAction

pub data SysRequest : Type 0 where
  run : Bytes → SysRequest
  run_network : Bytes → Option Bytes → SysRequest
  network : Action → SysRequest
  quit restart exit : SysRequest
  set_scale set_volume : ℕ → SysRequest
  set_net paused : Bool → SysRequest
  dev : DevAction → SysRequest

pub record Candidate : Type 0 where
  pub title : Bytes
  pub ticket : Bytes

-- network::View
pub record View : Type 0 where
  pub unavailable : Bytes
  pub overlay : Bool
  pub ended : Bool
  pub status : Bytes
  pub detail : Bytes
  pub ticket : Bytes
  pub path : Bytes
  pub relay : Bytes
  pub relay_only : Bool
  pub discovery : Bool
  pub discovery_detail : Bytes
  pub candidates : List Candidate
  pub editing : Bytes
  pub text : Bytes
  pub network_profile : Bytes

abbrev pub default_view : View
default_view = record {
  unavailable = [];
  overlay = false;
  ended = false;
  status = [];
  detail = [];
  ticket = [];
  path = [];
  relay = [];
  relay_only = false;
  discovery = false;
  discovery_detail = [];
  candidates = [];
  editing = [];
  text = [];
  network_profile = [];
}

unfoldable pub reset_session : View → View
reset_session v = record v { ended = false; status = []; detail = []; path = [] }

-- Status::as_str and FailCode::as_str
unfoldable pub status_name : Status → Bytes
status_name Status.off = codes "off"
status_name Status.hosting = codes "hosting"
status_name Status.joining = codes "joining"
status_name Status.connected = codes "connected"
status_name Status.ended = codes "ended"

unfoldable pub code_name : FailCode → Bytes
code_name FailCode.denied = codes "net_denied"
code_name FailCode.declined = codes "net_declined"
code_name FailCode.queue_full = codes "net_queue_full"
code_name FailCode.disabled = codes "net_disabled"
code_name FailCode.no_address = codes "net_no_address"
code_name FailCode.ticket = codes "net_ticket"
code_name FailCode.connect = codes "net_connect"
code_name FailCode.protocol_mismatch = codes "net_protocol_mismatch"
code_name FailCode.handshake = codes "net_handshake"
code_name FailCode.frame = codes "net_frame"
code_name FailCode.timeout = codes "net_timeout"
code_name FailCode.busy = codes "net_busy"
code_name FailCode.cancelled = codes "net_cancelled"

abbrev peer_gone : Bytes
peer_gone = codes "Peer disconnected. This round has ended; start a fresh session."

abbrev net_off : Bytes
net_off = codes "Networking is off. Sessions and discovery are closed."

unfoldable pub observe : Event → View → View
unfolding code_name
observe (Event.hosting t) v = record v { detail = [] }
observe (Event.connected n) v = record v { detail = []; ended = false }
observe (Event.disconnected Reason.closed) v = v
observe (Event.disconnected Reason.left) v = record v { ended = true; detail = peer_gone }
observe (Event.disconnected Reason.lost) v = record v { ended = true; detail = peer_gone }
observe (Event.failed code detail) v = record v { detail = code_name code ++ codes ": " ++ detail }
observe (Event.permission false) v = record v { detail = net_off; path = []; candidates = [] }
observe (Event.permission true) v = v
observe (Event.message n payload) v = v

pub record DevView : Type 0 where
  pub active : Bool
  pub pending : Bytes
  pub cart : Bytes
  pub bytes : ℕ
  pub from : Bytes
  pub note : Bytes

pub record SysState : Type 0 where
  pub carts : List CartEntry
  pub settings : Settings
  pub fault : Option Fault
  pub running : Bool
  pub paused : Bool
  pub menu_pressed : Bool
  pub host_started : Bool
  pub single : Bool
  pub requests : List SysRequest
  pub network : View
  pub dev : DevView

unfoldable pub new_sys : List CartEntry → Settings → SysState
new_sys carts settings = record {
  carts = carts;
  settings = settings;
  fault = none;
  running = false;
  paused = false;
  menu_pressed = false;
  host_started = false;
  single = false;
  requests = [];
  network = default_view;
  dev = record { active = false; pending = []; cart = []; bytes = 0; from = []; note = [] };
}

abbrev pub max_requests : ℕ
max_requests = 64

-- SysState::request
unfoldable pub ask : SysRequest → SysState → SysState
ask r s =
    if ltb (length s.requests) max_requests then record s { requests = s.requests ++ r ∷ [] } else s

-- compose: the pixels go together up to the shorter screen.
unfoldable pub compose : List ℕ → List ℕ → List ℕ
compose [] above = []
compose (c ∷ below) [] = []
compose (c ∷ below) (o ∷ above) = (if o == 0 then c else o) ∷ compose below above
