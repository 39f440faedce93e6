-- ===== src/Pacing/Tests.antt =====
-- A display that is late, and the theorems at it.
use kuula.Prelude.{◌+◌, ◌-◌, ◌*◌, ◌≤◌, ◌<◌, ◌≡◌, ◌⊎◌, refl}
use kuula.Pacing.{new, steps_due, max_steps, steps_due_lem}

late_by_two : steps_due 35 (new 0 10) ≡ (4, record { period = 10; next = 40 })
unfolding steps_due
late_by_two = refl

steps_due_lem_example :
    (1 ≤ (steps_due 25 (new 0 10)).0)
    × ((steps_due 25 (new 0 10)).0 ≤ max_steps)
    × ((steps_due 25 (new 0 10)).1.next
        ≡ (new 0 10).next + ((steps_due 25 (new 0 10)).0 - 1) * (new 0 10).period)
    × ((steps_due 25 (new 0 10)).1.period ≡ (new 0 10).period)
    × (((steps_due 25 (new 0 10)).0 ≡ 1)
        ⊎ ((new 0 10).next + ((steps_due 25 (new 0 10)).0 - 2) * (new 0 10).period ≤ 25))
    × (((steps_due 25 (new 0 10)).0 ≡ max_steps) ⊎ (25 < (steps_due 25 (new 0 10)).1.next))
steps_due_lem_example = steps_due_lem 25 (new 0 10)
