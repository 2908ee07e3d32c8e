-- ===== src/Queue/Schedule.antt =====
-- The cron schedules of `PortableWorker` in src/aizk/background/portable.py. A schedule's name is its
-- place in the alphabetical order; `next_after` is what croniter computes from an expression.
pub mod Firing
use aizk.Base.{
  ℕ, zero, suc, ◌+◌, Bool, true, false, not, ◌&&◌, ◌||◌, Option, none, some, List, [], ◌∷◌, ◌++◌,
  Text, ltb, leb, ◌==◌, any_by, filter_by, sort_by, map, if◌then◌else◌,
}

pub record QueueSchedule : Type 0 where
  pub name : ℕ
  pub expression : Text
  pub next_run : ℕ

-- `self.schedules`, the callbacks left out.
abbrev pub Schedules : Type 0
Schedules = List (ℕ × Text)

abbrev pub Cron : Type 0
Cron = Text → ℕ → ℕ

abbrev pub is_named : ℕ → QueueSchedule → Bool
is_named name r = r.name == name

-- One upsert: a row that is there keeps its cursor.
unfoldable pub upsert : Cron → ℕ → ℕ → Text → List QueueSchedule → List QueueSchedule
upsert next_after now name expression rows =
    if any_by (is_named name) rows
    then map (λ r. if is_named name r then record r { expression = expression } else r) rows
    else rows
      ++ record { name = name; expression = expression; next_run = next_after expression now } ∷ []

unfoldable pub install_schedules : Cron → ℕ → Schedules → List QueueSchedule → List QueueSchedule
unfolding upsert
install_schedules next_after now [] rows = rows
install_schedules next_after now ((name, expression) ∷ rest) rows =
    install_schedules next_after now rest (upsert next_after now name expression rows)

abbrev pub has : ℕ → Schedules → Bool
has name schedules = any_by (λ (s : ℕ × Text). s.0 == name) schedules

-- `self.schedules[name]`, for a name that is there.
abbrev pub expression_of : ℕ → Schedules → Text
expression_of name [] = []
expression_of name ((n, e) ∷ rest) =
    let later = expression_of name rest in if n == name then e else later

abbrev pub is_due : Schedules → (ℕ → Bool) → ℕ → QueueSchedule → Bool
is_due schedules locked now r = has r.name schedules && (leb r.next_run now && not (locked r.name))

-- `ORDER BY next_run, name`
abbrev pub runs_before : QueueSchedule → QueueSchedule → Bool
runs_before a b = ltb a.next_run b.next_run || ((a.next_run == b.next_run) && leb a.name b.name)

abbrev pub head_of : List QueueSchedule → Option QueueSchedule
head_of [] = none
head_of (r ∷ rs) = some r

unfoldable pub first_due : Schedules → (ℕ → Bool) → ℕ → List QueueSchedule → Option QueueSchedule
first_due schedules locked now rows =
    head_of (sort_by runs_before (filter_by (is_due schedules locked now) rows))

unfoldable pub advance : ℕ → ℕ → List QueueSchedule → List QueueSchedule
advance name at rows = map (λ r. if is_named name r then record r { next_run = at } else r) rows

abbrev pub and_fired :
    ℕ → Option (List QueueSchedule × List ℕ) → Option (List QueueSchedule × List ℕ)
and_fired name none = none
and_fired name (some (rows, fired)) = some (rows, name ∷ fired)

module _ (next_after : Cron) (schedules : Schedules) (locked : ℕ → Bool) (clock : ℕ → ℕ) where
  -- The loop of `fire_schedules` from one round on, on fuel: `none` says that the fuel ran out.
  -- `clock` is the moment that each round reads; the answer names what was fired.
  unfoldable pub fire_schedules : ℕ → ℕ → List QueueSchedule → Option (List QueueSchedule × List ℕ)
  unfolding first_due advance
  fire_schedules zero round rows = elim (first_due schedules locked (clock round) rows) [
    | none ↦ some (rows, [])
    | some r ↦ none
  ]
  fire_schedules (suc fuel) round rows = elim (first_due schedules locked (clock round) rows) [
    | none ↦ some (rows, [])
    | some r ↦ and_fired r.name (
        fire_schedules fuel (round + 1)
          (advance r.name (next_after (expression_of r.name schedules) (clock round)) rows))
  ]
