-- ===== src/Pacing.antt =====
-- Frame pacing: `Scheduler` of crates/kuula-host-common/src/pacing.rs. A `Duration` is its nanoseconds,
-- and what the clock shows is an argument.
mod Tests
use kuula.Prelude.{
  ℕ, zero, suc, ◌+◌, ◌-◌, ◌*◌, ◌≤◌, ◌<◌, ◌≡◌, ◌⊎◌, inl, inr, refl, arith, Bool, true, false, Option,
  none, some, ltb, leb, if◌then◌else◌,
}

abbrev pub resync_after : ℕ
resync_after = 500 * 1000000

abbrev pub max_steps : ℕ
max_steps = 4

pub record Scheduler : Type 0 where
  pub period : ℕ
  pub next : ℕ

-- Scheduler::new
abbrev pub new : ℕ → ℕ → Scheduler
new now period = record { period = period; next = now + period }

-- The loop of `steps_due`, with the steps that may still be added.
catch_up : ℕ → ℕ → ℕ → Scheduler → ℕ × Scheduler
catch_up zero now steps s = (steps, s)
catch_up (suc spare) now steps s =
    let further =
      catch_up spare now (steps + 1) (record { period = s.period; next = s.next + s.period }) in
    if leb s.next now then further else (steps, s)

-- Scheduler::steps_due
unfoldable pub steps_due : ℕ → Scheduler → ℕ × Scheduler
unfolding catch_up
steps_due now s = catch_up (max_steps - 1) now 1 s

-- Scheduler::wait: the deadline that was waited for, and the time slept until, if it slept.
unfoldable pub wait : ℕ → Scheduler → ℕ × Option ℕ × Scheduler
wait now s =
    if ltb now s.next
    then (s.next, some s.next, record { period = s.period; next = s.next + s.period })
    else if ltb resync_after (now - s.next)
    then (s.next, none, record { period = s.period; next = now + s.period })
    else (s.next, none, record { period = s.period; next = s.next + s.period })

-- At least one frame is stepped and at most four. Each one after the first is taken off the
-- schedule, and was a whole period late; and unless four are stepped, the schedule ends in the future.
pub steps_due_lem :
    (now : ℕ) (s : Scheduler)
    → (1 ≤ (steps_due now s).0)
      × ((steps_due now s).0 ≤ max_steps)
      × ((steps_due now s).1.next ≡ s.next + ((steps_due now s).0 - 1) * s.period)
      × ((steps_due now s).1.period ≡ s.period)
      × (((steps_due now s).0 ≡ 1) ⊎ (s.next + ((steps_due now s).0 - 2) * s.period ≤ now))
      × (((steps_due now s).0 ≡ max_steps) ⊎ (now < (steps_due now s).1.next))
unfolding steps_due catch_up
steps_due_lem now s = ground arith

-- A wait answers the deadline it was for, and sleeps until then if it is still to come. The next
-- deadline is one period later, or one period from now when the loop was over half a second late.
wait_lem :
    (now : ℕ) (s : Scheduler)
    → ((wait now s).0 ≡ s.next)
      × ((wait now s).1 ≡ (if ltb now s.next then some s.next else none))
      × ((wait now s).2.next
          ≡ (if ltb (s.next + resync_after) now then now + s.period else s.next + s.period))
      × ((wait now s).2.period ≡ s.period)
unfolding wait
wait_lem now s = ground arith
