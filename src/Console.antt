-- ===== src/Console.antt =====
-- The console of crates/kuula-core/src/console.rs: a cart's guest, a shell's guest over it, and the
-- frames of both. What a guest draws and plays with (buffers, pen, palette, profile, mixer), the cart
-- sources, the saves and the guests themselves stand behind the operations of `Runtime`; the network
-- state of a cart and the data of the shell are those of Net/State and Shell.
pub mod Carts
pub mod Network
pub mod Frame
pub mod Step
pub mod Buttons
pub mod Stales
pub mod Handover
pub mod Requests
pub mod Invariants
pub mod Teardown
pub mod Endings
pub mod Sessions
pub mod Linked
pub mod Hosted
mod Tests
use kuula.Prelude.{ℕ, Bool, true, false, Option, none, some, List, [], ◌∷◌, if◌then◌else◌}
use kuula.Prelude.Bytes.{Bytes, codes}
use kuula.Prelude.Utf8.{is_utf8}
use kuula.Prelude.Result.{Result, ok, err}
use kuula.Net.{Event}
use kuula.Net.State.{NetState, NetEnv}
use kuula.Input.{Chord}
use kuula.Shell.{Fault, SysState, SysRequest}
use kuula.Manifest.{Manifest, Library, Problem}

-- DrawState: `media` is what the console only hands on.
pub record DrawState (Store Media : Type 0) : Type 0 where
  pub width : ℕ
  pub height : ℕ
  pub log : List Bytes
  pub saves : Store
  pub sys : Option SysState
  pub net : Option NetState
  pub media : Media

-- What the console calls: guests, cart sources, stores, drawing and sound.
pub record Runtime : Type 1 where
  pub Guest : Type 0
  pub Source : Type 0
  pub Store : Type 0
  pub Media : Type 0
  -- Guest::step, with the guest and the state it leaves
  pub guest_step :
      Guest
      → ℕ
      → ℕ
      → DrawState Store Media
      → Guest × DrawState Store Media × Result Fault (Unit {0})
  -- CartSource::exists and CartSource::read, whose error is its text
  pub exists : Source → Bytes → Bool
  pub read : Source → Bytes → Result Bytes Bytes
  pub library : Library
  -- the text of a manifest's error, formatted by the standard library
  pub format : Problem → Bytes
  pub empty_source : Source
  pub memory_store : Store
  -- Resources::new, Mixer::new and the rest of DrawState::new
  pub new_media : ℕ → ℕ → Source → Media
  pub load_sheet : Bytes → Media → Result Fault Media
  pub load_map : Bytes → Media → Result Fault Media
  -- Mixer::stop_all, Mixer::render and Mixer::set_master
  pub stop_all : Media → Media
  pub render : Media → Media
  pub set_master : ℕ → Media → Media
  pub pixels : Media → List ℕ

pub data Preload : Type 0 where
  decode skip : Preload

pub data ConsoleState : Type 0 where
  running : ConsoleState
  faulted : Fault → ConsoleState

unfoldable pub fault : ConsoleState → Option Fault
fault running = none
fault (faulted f) = some f

unfoldable pub is_running : ConsoleState → Bool
is_running running = true
is_running (faulted f) = false

module _ (rt : Runtime) where
  abbrev pub State : Type 0
  State = DrawState rt.Store rt.Media

  pub record Cart : Type 0 where
    pub guest : Option rt.Guest
    pub state : State
    pub frame : ℕ
    pub status : ConsoleState
    pub manifest : Manifest
    pub source : Option rt.Source
    pub net_pending : List Event
    pub net_teardown : Bool

  pub record Shell : Type 0 where
    pub guest : rt.Guest
    pub state : State
    pub frame : ℕ
    pub status : ConsoleState
    pub presentation : List ℕ
    pub paused : Bool
    pub menu_was : Bool
    pub stale : ℕ
    pub shell_stale : ℕ
    pub opener : Bytes → Result Fault (rt.Source × rt.Store)
    pub factory : Bytes → Bytes → Result Fault rt.Guest
    pub preload : Preload
    pub host_requests : List SysRequest

  pub record Console : Type 0 where
    pub cart : Cart
    pub shell : Option Shell
    pub chord : Chord
    pub net_env : NetEnv

module _ (rt : Runtime) where
  -- DrawState::new
  unfoldable pub new_state : ℕ × ℕ → rt.Source → State rt
  new_state (w, h) source = record {
    width = w;
    height = h;
    log = [];
    saves = rt.memory_store;
    sys = none;
    net = none;
    media = rt.new_media w h source;
  }

module _ {rt : Runtime} where
  -- `shell.state.sys.as_ref().is_some_and(|s| s.network.overlay)`
  unfoldable pub network_overlay : Shell rt → Bool
  network_overlay s = elim s.state.sys [ none ↦ false | some sys ↦ sys.network.overlay ]

  -- The changes to `sys`, where there is one.
  unfoldable pub with_sys : (SysState → SysState) → Shell rt → Shell rt
  with_sys change s = elim s.state.sys [
    | none ↦ s
    | some sys ↦
        let state = s.state in record s { state = record state { sys = some (change sys) } }
  ]
