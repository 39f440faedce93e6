-- ===== src/Meter/Tests.antt =====
-- Runs of the meter on small budgets, and the theorems at them.
use kuula.Prelude.{
  ℕ, zero, suc, replicate, ◌≢◌, ◌≤◌, ◌≡◌, refl, arith, false, none, List, [], ◌∷◌, All, ◌==◌,
}
use kuula.Prelude.Result.{ok, err}
use kuula.Prelude.Words.{u64_max}
use kuula.Meter.{Fault, draw, new, total, charge, begin_frame, budget_exceeded, kill, spent}
use kuula.Meter.Accounting.{IsMeter}
use kuula.Meter.Guest.{
  Guest, Work, binding, instructions, install, perform, run, hook, spend, settle, trip, arm,
}
use kuula.Meter.Containment.{
  IsContained, total_price, Succeeds, frame_within_budget, run-perform_err,
}
use kuula.Meter.Price.{cls, pixels, map_price, text_price, bytes8, bytes128, compile}
use kuula.Meter.Price.Laws.{prices_mono}
use kuula.Meter.Price.Shape.{pattern_shape, is_quantifier}
use kuula.Meter.Price.Shape.Grammar.{
  IsItem, Item, plain, quantifier, escape, set, chr, print, count, starts_anchored,
  pattern_shape-print,
}

abbrev small_frame : Guest
small_frame = record { meter = begin_frame 5000 new; every = 1000 }

abbrev two_works : List Work
two_works = binding draw 30 none ∷ instructions none ∷ []

-- The third interval of instructions passes a budget of 5000 cycles.
abbrev greedy : List Work
greedy = instructions none ∷ instructions none ∷ instructions none ∷ []

abbrev over : Fault
over = record {
  code = budget_exceeded;
  message = spent "" 6000 5000;
  file = "main.lua";
  line = none;
}

greedy_faults : (run greedy small_frame).1 ≡ ok tt ∷ ok tt ∷ err over ∷ []
unfolding run perform hook spend trip settle kill arm charge total begin_frame new
greedy_faults = refl

zeros : (n : ℕ) → All (λ k. k ≤ u64_max) (replicate n 0)
zeros zero = tt
zeros (suc n) = (omega arith, zeros n)

new-IsMeter : IsMeter new
unfolding new
new-IsMeter = record { counters = refl; words = zeros 7 }

install-IsContained : IsContained install
unfolding install new total
install-IsContained = record { meter = new-IsMeter; within = λ e. omega arith; armed = λ f e. cc }

two_works_succeed : All Succeeds (run two_works small_frame).1
unfolding run perform hook spend settle charge total begin_frame new
two_works_succeed = (refl, (refl, tt))

new_alive : new.dead ≡ none
unfolding new
new_alive = refl

frame_within_budget_example : total_price two_works ≤ 5000
frame_within_budget_example =
    frame_within_budget 5000 1000 new two_works new_alive (omega arith) two_works_succeed

dear_fails : (perform (binding draw 6000 none) small_frame).1 ≡ err over
unfolding perform spend settle trip charge total begin_frame new
dear_fails = refl

run-perform_err_example :
    ((run greedy (perform (binding draw 6000 none) small_frame).0).0
      ≡ (perform (binding draw 6000 none) small_frame).0)
    × All (λ r. r ≡ err over) (run greedy (perform (binding draw 6000 none) small_frame).0).1
run-perform_err_example =
    run-perform_err (binding draw 6000 none) greedy small_frame over dear_fails

prices_mono_example :
    (cls 10 ≤ cls 300)
    × (pixels 10 ≤ pixels 300)
    × (map_price 10 4 ≤ map_price 300 9)
    × (text_price 10 4 ≤ text_price 300 9)
    × (bytes8 10 ≤ bytes8 300)
    × (bytes128 10 ≤ bytes128 300)
    × (compile 10 ≤ compile 300)
prices_mono_example = prices_mono 10 300 4 9 (omega arith) (omega arith)

-- `^a+%*[x]`
abbrev anchored : List Item
anchored =
    plain b'^' ∷ plain b'a' ∷ quantifier b'+' ∷ escape b'*' ∷ set false false (chr b'x' ∷ []) ∷ []

ne : (a b : ℕ) → (a == b) ≡ false → a ≢ b
ne a b h = ground (arith, h)

anchored-IsItem : All IsItem anchored
unfolding is_quantifier
anchored-IsItem = (
  (refl, ne b'^' b'%' refl, ne b'^' b'[' refl),
  (
    (refl, ne b'a' b'%' refl, ne b'a' b'[' refl),
    (refl, (tt, ((((ne b'x' b']' refl, ne b'x' b'%' refl), tt), tt, ne b'x' b'^' refl), tt))),
  ),
)

pattern_shape-print_example :
    pattern_shape (print anchored) ≡ (count anchored, starts_anchored anchored)
pattern_shape-print_example = pattern_shape-print anchored anchored-IsItem
