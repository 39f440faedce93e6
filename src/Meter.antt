-- ===== src/Meter.antt =====
-- The cycle meter: crates/kuula-core/src/meter.rs, with the fault record of
-- crates/kuula-core/src/fault.rs. The price list is in Meter/Price, the guest that charges through
-- the meter (crates/kuula-lua/src/meter.rs) in Meter/Guest. Cycles are u64, sums saturate.
pub mod Price
pub mod Guest
pub mod Accounting
pub mod Containment
mod Tests
use Prim.Native.String.{String}
use mathlib.Core.List.{foldl}
use kuula.Prelude.{
  ℕ, ◌*◌, max, Bool, true, false, ◌&&◌, Option, none, some, List, [], ◌∷◌, ltb, get_or, set,
  replicate, if◌then◌else◌,
}
use kuula.Prelude.Result.{Result, ok, err}
use kuula.Prelude.Words.{saturating_add}

-- A text that the code builds by `format!` is the data it is built from.
pub data Message : Type 0 where
  text : String → Message
  spent : String → ℕ → ℕ → Message

pub record Fault : Type 0 where
  pub code : String
  pub message : Message
  pub file : String
  pub line : Option ℕ

abbrev pub budget_exceeded : String
budget_exceeded = "budget_exceeded"

abbrev pub frame_budget : ℕ
frame_budget = 279620

abbrev pub init_budget : ℕ
init_budget = 60 * frame_budget

abbrev pub hook_interval : ℕ
hook_interval = 1000

abbrev pub cycles_per_instruction : ℕ
cycles_per_instruction = 2

abbrev pub hook_charge : ℕ
hook_charge = hook_interval * cycles_per_instruction

pub data Category : Type 0 where
  lua draw text buf asset str api : Category

abbrev pub category_count : ℕ
category_count = 7

unfoldable pub index : Category → ℕ
index lua = 0
index draw = 1
index Category.text = 2
index buf = 3
index asset = 4
index str = 5
index api = 6

pub record FrameProfile : Type 0 where
  pub cycles : List ℕ
  pub budget : ℕ
  pub lua_mem : ℕ

pub record BudgetExceeded : Type 0 where
  pub callback : String
  pub used : ℕ
  pub budget : ℕ

-- BudgetExceeded::message
abbrev pub message : BudgetExceeded → Message
message e = spent e.callback e.used e.budget

pub record Meter : Type 0 where
  pub used : List ℕ
  pub budget : ℕ
  pub callback : String
  pub dead : Option Fault

-- `fold(0, saturating_add)` over the counters, of a meter and of a profile.
unfoldable pub total_of : List ℕ → ℕ
unfolding saturating_add
total_of used = foldl saturating_add 0 used

-- FrameProfile::total and FrameProfile::get
unfoldable pub profile_total : FrameProfile → ℕ
unfolding total_of
profile_total p = total_of p.cycles

unfoldable pub profile_get : FrameProfile → Category → ℕ
unfolding index
profile_get p c = get_or p.cycles (index c) 0

unfoldable pub new : Meter
new = record {
  used = replicate category_count 0;
  budget = frame_budget;
  callback = "";
  dead = none;
}

unfoldable pub begin_frame : ℕ → Meter → Meter
begin_frame budget m = record m { used = replicate category_count 0; budget = budget }

unfoldable pub set_callback : String → Meter → Meter
set_callback name m = record m { callback = name }

unfoldable pub total : Meter → ℕ
unfolding total_of
total m = total_of m.used

unfoldable pub is_dead : Meter → Bool
is_dead m = elim m.dead [ none ↦ false | some f ↦ true ]

-- `charge` after the counter has been raised: fails if the total passed the budget of a live meter.
verdict : Meter → Result BudgetExceeded (Unit {0})
unfolding total is_dead
verdict m =
    if ltb m.budget (total m) && (if is_dead m then false else true)
    then err (record { callback = m.callback; used = total m; budget = m.budget })
    else ok tt

-- Writes past the counters change nothing; every category's index is in range.
raise_counter : Category → ℕ → Meter → Meter
unfolding index saturating_add
raise_counter cat n m = record m {
  used = set m.used (index cat) (saturating_add (get_or m.used (index cat) 0) n);
}

unfoldable pub charge : Category → ℕ → Meter → Meter × Result BudgetExceeded (Unit {0})
unfolding verdict raise_counter
charge cat n m = let m' = raise_counter cat (max n 1) m in (m', verdict m')

unfoldable pub kill : Fault → Meter → Meter
kill fault m = elim m.dead [ none ↦ record m { dead = some fault } | some f ↦ m ]

unfoldable pub profile : ℕ → Meter → FrameProfile
profile lua_mem m = record { cycles = m.used; budget = m.budget; lua_mem = lua_mem }
