-- ===== src/Tests/Schedule.antt =====
-- Two schedules at the moment 100, one of them due twice over.
use aizk.Base.{ℕ, ◌≡◌, ◌+◌, refl, Bool, false, some, List, [], ◌∷◌, codes, All, arith, length, ◌≤◌}
use aizk.Queue.Schedule.{QueueSchedule, Schedules, Cron, is_due, fire_schedules, install_schedules}
use aizk.Queue.Schedule.Firing.{moments, fire_schedules_lem}

abbrev hourly : Cron
hourly expression moment = moment + 60

abbrev schedules : Schedules
schedules = (1, codes "0 * * * *") ∷ (2, codes "0 * * * *") ∷ []

abbrev nobody : ℕ → Bool
nobody name = false

abbrev clock : ℕ → ℕ
clock round = 100

abbrev schedule : ℕ → ℕ → QueueSchedule
schedule name next_run = record { name = name; expression = codes "0 * * * *"; next_run = next_run }

abbrev rows : List QueueSchedule
rows = schedule 1 30 ∷ schedule 2 130 ∷ []

fire_run :
    fire_schedules hourly schedules nobody clock 5 0 rows
    ≡ some (schedule 1 160 ∷ schedule 2 130 ∷ [], 1 ∷ [])
unfolding fire_schedules
fire_run = refl

-- A second installation keeps the cursors.
install_run : install_schedules hourly 0 schedules rows ≡ rows
unfolding install_schedules
install_run = refl

fire_schedules_lem_example :
    (left : List QueueSchedule) × (fired : List ℕ) × (fire_schedules hourly schedules nobody clock
        71 0 rows
      ≡ some (left, fired))
    × (length fired ≤ moments 100 rows)
    × All (λ r. is_due schedules nobody (clock (0 + length fired)) r ≡ false) left
fire_schedules_lem_example =
    fire_schedules_lem hourly schedules nobody clock 100 (λ e n. omega arith) (λ i. omega arith) 71
      0 rows ((refl, tt), (tt, tt)) (omega arith)
