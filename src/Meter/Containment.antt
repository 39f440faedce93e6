-- ===== src/Meter/Containment.antt =====
-- A cart cannot spend past its budget, nor go on after the fault.
use Prim.Native.String.{String}
use kuula.Prelude.{ℕ, ◌+◌, ◌≤◌, ◌<◌, ◌≡◌, refl, max, Option, none, some, List, [], ◌∷◌, arith, All}
use kuula.Prelude.Result.{Result, ok, err}
use kuula.Prelude.Words.{saturating_add, u64_max}
use kuula.Meter.{Meter, Fault, Category, lua, hook_charge, total, begin_frame, kill}
use kuula.Meter.Accounting.{IsMeter, charge-IsMeter, total-charge, charge-fails_iff, charge_keeps}
use kuula.Meter.Guest.{Guest, Work, binding, instructions, spend, hook, perform, run}

-- The counters are well formed, a live meter is within its budget, and on a dead one the hook fires
-- at every instruction.
pub record IsContained (g : Guest) : Type 0 where
  pub meter : IsMeter g.meter
  pub within : g.meter.dead ≡ none → total g.meter ≤ g.meter.budget
  pub armed : (f : Fault) → g.meter.dead ≡ some f → g.every ≡ 1

-- The cycles that a piece of work asks for.
abbrev pub price : Work → ℕ
price (binding cat n loc) = max n 1
price (instructions loc) = hook_charge

pub total_price : List Work → ℕ
total_price [] = 0
total_price (w ∷ ws) = price w + total_price ws

spend-IsContained :
    (c : Category) (n : ℕ) (loc : Option (String × ℕ)) (g : Guest)
    → IsContained g
    → IsContained (spend c n loc g).0
unfolding spend kill
spend-IsContained c n loc g v = record {
  meter = ground (arith, v.meter, charge-IsMeter c n g.meter v.meter);
  within = ground (arith, v.within, charge-fails_iff c n g.meter, charge_keeps c n g.meter);
  armed = ground (arith, charge_keeps c n g.meter);
}

perform-IsContained : (w : Work) (g : Guest) → IsContained g → IsContained (perform w g).0
unfolding perform
perform-IsContained (binding c n loc) g v = spend-IsContained c n loc g v
perform-IsContained (instructions loc) g v =
    unfold hook in spend-IsContained lua hook_charge loc g v

-- Whatever a cart does, priced calls and instructions in any order and with its errors swallowed,
-- a contained guest stays so: its meter is well formed, within its budget while alive, and once it
-- is dead the hook fires at every instruction.
pub run-IsContained : (ws : List Work) (g : Guest) → IsContained g → IsContained (run ws g).0
unfolding run
run-IsContained [] g v = v
run-IsContained (w ∷ ws) g v = run-IsContained ws (perform w g).0 (perform-IsContained w g v)

perform-dead : (w : Work) (g : Guest) (f : Fault) → g.meter.dead ≡ some f → perform w g ≡ (g, err f)
unfolding perform hook spend
perform-dead (binding c n loc) g f dead = ground arith
perform-dead (instructions loc) g f dead = ground arith

-- Once the meter is dead nothing that the cart does is counted or allowed: every priced call and
-- every instruction hook is refused with the fault that was recorded.
run-dead :
    (ws : List Work) (g : Guest) (f : Fault)
    → g.meter.dead ≡ some f
    → ((run ws g).0 ≡ g) × All (λ r. r ≡ err f) (run ws g).1
unfolding run
run-dead [] g f dead = (refl, tt)
run-dead (w ∷ ws) g f dead =
    rw (perform-dead w g f dead)
      (let (same, refused) = run-dead ws g f dead in (same, (refl, refused)))

-- A failed piece of work leaves a dead meter that holds the fault it raised.
perform-err :
    (w : Work) (g : Guest) (f : Fault)
    → (perform w g).1 ≡ err f
    → (perform w g).0.meter.dead ≡ some f
unfolding perform hook spend kill
perform-err (binding c n loc) g f h = ground (arith, charge_keeps c n g.meter)
perform-err (instructions loc) g f h = ground (arith, charge_keeps lua hook_charge g.meter)

-- After the first failure, whatever the cart does next, the same fault comes back.
pub run-perform_err :
    (w : Work) (ws : List Work) (g : Guest) (f : Fault)
    → (perform w g).1 ≡ err f
    → ((run ws (perform w g).0).0 ≡ (perform w g).0)
      × All (λ r. r ≡ err f) (run ws (perform w g).0).1
run-perform_err w ws g f h = run-dead ws (perform w g).0 f (perform-err w g f h)

abbrev pub Succeeds : Result Fault (Unit {0}) → Type 0
Succeeds r = r ≡ ok tt

perform_spends :
    (w : Work) (g : Guest)
    → IsContained g
    → (perform w g).1 ≡ ok tt
    → (total (perform w g).0.meter ≡ saturating_add (total g.meter) (price w))
      × ((perform w g).0.meter.budget ≡ g.meter.budget)
      × ((perform w g).0.meter.dead ≡ none)
      × (g.meter.dead ≡ none)
unfolding perform hook spend
perform_spends (binding c n loc) g v h =
    ground (arith, total-charge c n g.meter v.meter, charge_keeps c n g.meter)
perform_spends (instructions loc) g v h =
    ground
      (arith, total-charge lua hook_charge g.meter v.meter, charge_keeps lua hook_charge g.meter)

-- Work that succeeds throughout asks for no more cycles than the budget has left, if the budget is
-- below the largest u64.
total_price-le :
    (ws : List Work) (g : Guest)
    → IsContained g
    → g.meter.dead ≡ none
    → g.meter.budget < u64_max
    → All Succeeds (run ws g).1
    → total g.meter + total_price ws ≤ g.meter.budget
unfolding run total_price saturating_add
total_price-le [] g v alive small h = omega (arith, v.within alive)
total_price-le (w ∷ ws) g v alive small h =
    let (spent, budget, live, _) = perform_spends w g v h.0 in
    omega (
      arith,
      spent,
      budget,
      (perform-IsContained w g v).within live,
      total_price-le ws (perform w g).0 (perform-IsContained w g v) live (omega arith) h.1,
    )

IsMeter-begin_frame : (b : ℕ) (m : Meter) → IsMeter (begin_frame b m)
unfolding begin_frame
IsMeter-begin_frame b m = record { counters = refl; words = omega arith }

total-begin_frame : (b : ℕ) (m : Meter) → total (begin_frame b m) ≡ 0
unfolding begin_frame total saturating_add
total-begin_frame b m = refl

begin_frame-IsContained :
    (b every : ℕ) (m : Meter)
    → m.dead ≡ none
    → IsContained (record { meter = begin_frame b m; every = every })
begin_frame-IsContained b every m alive = record {
  meter = IsMeter-begin_frame b m;
  within = λ _. omega (arith, total-begin_frame b m);
  armed = λ f dead. unfold begin_frame in cc;
}

-- In a frame of a live guest whose budget is below the largest u64, work that succeeds throughout
-- asks for at most the budget in all.
pub frame_within_budget :
    (budget every : ℕ) (m : Meter) (ws : List Work)
    → m.dead ≡ none
    → budget < u64_max
    → All Succeeds (run ws (record { meter = begin_frame budget m; every = every })).1
    → total_price ws ≤ budget
unfolding begin_frame
frame_within_budget budget every m ws alive small h =
    let g : Guest = record { meter = begin_frame budget m; every = every } in
    omega (
      arith,
      total-begin_frame budget m,
      total_price-le ws g (begin_frame-IsContained budget every m alive) alive small h,
    )
