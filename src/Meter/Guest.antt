-- ===== src/Meter/Guest.antt =====
-- The guest's side of the meter: crates/kuula-lua/src/meter.rs. The Lua state holds the meter and
-- the interval of its instruction hook; the place that a fault is blamed on is read from the Lua
-- stack, and is an argument here.
use Prim.Native.String.{String}
use kuula.Prelude.{ℕ, Option, none, some, List, [], ◌∷◌}
use kuula.Prelude.Result.{Result, ok, err}
use kuula.Meter.{
  Meter, Category, lua, BudgetExceeded, Fault, message, budget_exceeded, hook_charge, hook_interval,
  charge, kill, new,
}

pub record Guest : Type 0 where
  pub meter : Meter
  pub every : ℕ

-- What `install` puts in a fresh state.
unfoldable pub install : Guest
unfolding new
install = record { meter = new; every = hook_interval }

-- arm
unfoldable pub arm : ℕ → Guest → Guest
arm every g = record g { every = every }

-- The fault of `trip`: `main.lua` with no line where the caller is no Lua function.
abbrev pub fault_at : BudgetExceeded → Option (String × ℕ) → Fault
fault_at over none = record {
  code = budget_exceeded;
  message = message over;
  file = "main.lua";
  line = none;
}
fault_at over (some (file, line)) = record {
  code = budget_exceeded;
  message = message over;
  file = file;
  line = some line;
}

unfoldable pub trip : BudgetExceeded → Option (String × ℕ) → Guest → Guest × Result Fault (Unit {0})
unfolding kill arm
trip over loc g =
    (arm 1 (record g { meter = kill (fault_at over loc) g.meter }), err (fault_at over loc))

-- What follows a charge on the core's meter.
unfoldable pub settle :
    Option (String × ℕ)
    → Meter × Result BudgetExceeded (Unit {0})
    → Guest
    → Guest × Result Fault (Unit {0})
unfolding trip
settle loc (m, ok tt) g = (record g { meter = m }, ok tt)
settle loc (m, err over) g = trip over loc (record g { meter = m })

-- `charge` of a binding; `hook` is the same with its own category and price.
unfoldable pub spend : Category → ℕ → Option (String × ℕ) → Guest → Guest × Result Fault (Unit {0})
unfolding settle
spend cat n loc g = elim g.meter.dead [
  | some f ↦ (g, err f)
  | none ↦ settle loc (charge cat n g.meter) g
]

unfoldable pub hook : Option (String × ℕ) → Guest → Guest × Result Fault (Unit {0})
unfolding spend
hook loc g = spend lua hook_charge loc g

-- One thing that a running cart does: a priced call of a binding, or an interval of instructions.
pub data Work : Type 0 where
  binding : Category → ℕ → Option (String × ℕ) → Work
  instructions : Option (String × ℕ) → Work

unfoldable pub perform : Work → Guest → Guest × Result Fault (Unit {0})
unfolding spend hook
perform (binding cat n loc) g = spend cat n loc g
perform (instructions loc) g = hook loc g

-- A cart's work, however it handles the errors: the guest and the results, in order.
unfoldable pub run : List Work → Guest → Guest × List (Result Fault (Unit {0}))
run [] g = (g, [])
run (w ∷ ws) g = let (g', r) = perform w g in let (g'', rs) = run ws g' in (g'', r ∷ rs)
