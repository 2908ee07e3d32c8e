-- ===== src/Queue/Schedule/Firing.antt =====
-- The loop of `fire_schedules` in src/aizk/background/portable.py: how it ends.
use aizk.Base.{
  ℕ, zero, suc, ◌+◌, ◌-◌, ◌≤◌, ◌<◌, ◌≡◌, refl, sym, ap, subst, ◌⊎◌, inl, inr, Bool, true, false,
  none, some, List, [], ◌∷◌, Text, ◌==◌, ==_iff, filter_by, sort_by, In-sort_by, In-filter_by, In,
  All, All-of_In, All-In, arith, Bool-cases, length,
}
use aizk.Queue.Schedule.{
  QueueSchedule, Schedules, Cron, is_due, runs_before, expression_of, head_of, first_due, advance,
  fire_schedules,
}

-- The primary key.
abbrev pub UniqueNames : List QueueSchedule → Type 0
UniqueNames [] = Unit
UniqueNames (r ∷ rs) = All (λ (u : QueueSchedule). (u.name == r.name) ≡ false) rs × UniqueNames rs

-- How many moments up to the last one each cursor has before it.
abbrev pub moments : ℕ → List QueueSchedule → ℕ
moments last [] = 0
moments last (r ∷ rs) = last + 1 - r.next_run + moments last rs

advance-others :
    (name at : ℕ) (rs : List QueueSchedule)
    → All (λ (u : QueueSchedule). (u.name == name) ≡ false) rs
    → advance name at rs ≡ rs
unfolding advance
advance-others name at [] h = refl
advance-others name at (r ∷ rs) h =
    rw (h.0) (ap (λ (x : List QueueSchedule). r ∷ x) (advance-others name at rs h.1))

All-advance :
    (n name at : ℕ) (rs : List QueueSchedule)
    → All (λ (u : QueueSchedule). (u.name == n) ≡ false) rs
    → All (λ (u : QueueSchedule). (u.name == n) ≡ false) (advance name at rs)
unfolding advance
All-advance n name at [] h = tt
All-advance n name at (r ∷ rs) h = elim (Bool-cases (r.name == name)) [
  | inl e ↦ rw e (h.0, All-advance n name at rs h.1)
  | inr e ↦ rw e (h.0, All-advance n name at rs h.1)
]

UniqueNames-advance :
    (name at : ℕ) (rs : List QueueSchedule) → UniqueNames rs → UniqueNames (advance name at rs)
unfolding advance
UniqueNames-advance name at [] h = tt
UniqueNames-advance name at (r ∷ rs) h = elim (Bool-cases (r.name == name)) [
  | inl e ↦ rw e (All-advance r.name name at rs h.0, UniqueNames-advance name at rs h.1)
  | inr e ↦ rw e (All-advance r.name name at rs h.0, UniqueNames-advance name at rs h.1)
]

moments-advance :
    (last at : ℕ) (r : QueueSchedule) (rs : List QueueSchedule)
    → UniqueNames rs
    → In r rs
    → r.next_run ≤ last
    → r.next_run < at
    → moments last (advance r.name at rs) + 1 ≤ moments last rs
unfolding advance
moments-advance last at r [] u m le lt = elim m [ ]
moments-advance last at r (s ∷ rs) u (inl e) le lt =
    let same : s.name ≡ r.name = ap (λ (x : QueueSchedule). x.name) e in
    let run : s.next_run ≡ r.next_run = ap (λ (x : QueueSchedule). x.next_run) e in
    let own : (s.name == r.name) ≡ true = (==_iff s.name r.name).1 same in
    let apart : All (λ (v : QueueSchedule). (v.name == r.name) ≡ false) rs =
      subst (λ (n : ℕ). All (λ (v : QueueSchedule). (v.name == n) ≡ false) rs) same u.0 in
    let rest : moments last (advance r.name at rs) ≡ moments last rs =
      ap (moments last) (advance-others r.name at rs apart) in
    rw own (omega (arith, rest, run, le, lt))
moments-advance last at r (s ∷ rs) u (inr m) le lt =
    let apart : (r.name == s.name) ≡ false =
      All-In (λ (v : QueueSchedule). (v.name == s.name) ≡ false) r rs u.0 m in
    let other : (s.name == r.name) ≡ false = ground (arith, apart) in
    rw other (omega (arith, moments-advance last at r rs u.1 m le lt))

due_run :
    (schedules : Schedules) (locked : ℕ → Bool) (now : ℕ) (r : QueueSchedule)
    → is_due schedules locked now r ≡ true
    → r.next_run ≤ now
due_run schedules locked now r d = ground (arith, d)

module _ (schedules : Schedules) (locked : ℕ → Bool) (now : ℕ) where
  first_due-cases :
      (rows : List QueueSchedule)
      → ((first_due schedules locked now rows ≡ none)
          × All (λ r. is_due schedules locked now r ≡ false) rows)
        ⊎ ((r : QueueSchedule) × (first_due schedules locked now rows ≡ some r)
            × In r rows
            × (is_due schedules locked now r ≡ true))
  unfolding first_due
  first_due-cases rows =
      go (sort_by runs_before (filter_by (is_due schedules locked now) rows)) refl
    where
      go :
          (sorted : List QueueSchedule)
          → sort_by runs_before (filter_by (is_due schedules locked now) rows) ≡ sorted
          → ((head_of sorted ≡ none) × All (λ r. is_due schedules locked now r ≡ false) rows)
            ⊎ ((r : QueueSchedule) × (head_of sorted ≡ some r)
                × In r rows
                × (is_due schedules locked now r ≡ true))
      go [] e = inl (
        refl,
        All-of_In _ rows (λ r m. elim (Bool-cases (is_due schedules locked now r)) [
          | inr f ↦ f
          | inl d ↦ absurd (
              subst (In r) e (
                (In-sort_by runs_before r _).1
                  ((In-filter_by r (is_due schedules locked now) rows).1 (m, d))))
        ]),
      )
      go (r ∷ rs) e =
          let (there, d) =
            (In-filter_by r (is_due schedules locked now) rows).0
              ((In-sort_by runs_before r _).0 (subst (In r) (sym e) (inl refl))) in
          inr (r, refl, there, d)

add_suc : (round n : ℕ) → round + 1 + n ≡ round + suc n
add_suc round n = omega arith

module _ (next_after : Cron) (schedules : Schedules) (locked : ℕ → Bool) (clock : ℕ → ℕ) where
  -- When the next run of every expression lies behind the moment it is computed from, names are
  -- unique, and the clock stays at or below the moment `last`, the loop ends: fuel for as many
  -- rounds as there are moments between the cursors and `last` gives an answer. Every round but the
  -- last fires one schedule, there are at most as many such rounds as there were moments, and at the
  -- moment of the round after them no schedule is due any more.
  pub fire_schedules_lem :
      (last : ℕ)
      → ((e : Text) (n : ℕ) → n < next_after e n)
      → ((i : ℕ) → clock i ≤ last)
      → (fuel round : ℕ) (rows : List QueueSchedule) → UniqueNames rows
      → moments last rows ≤ fuel
      → (left : List QueueSchedule) × (fired : List ℕ) × (fire_schedules next_after schedules locked
            clock fuel round rows
          ≡ some (left, fired))
        × (length fired ≤ moments last rows)
        × All (λ r. is_due schedules locked (clock (round + length fired)) r ≡ false) left
  unfolding fire_schedules
  fire_schedules_lem last law early zero round rows u w =
      elim (first_due-cases schedules locked (clock round) rows) [
        | inl (e, quiet) ↦ (
          rows,
          [],
          rw (e, fire_schedules) refl,
          omega arith,
          subst (λ (i : ℕ). All (λ r. is_due schedules locked (clock i) r ≡ false) rows)
              (omega arith) quiet,
        )
        | inr (r, e, m, d) ↦ absurd (
            omega (
              arith,
              w,
              early round,
              law [] (clock round),
              due_run schedules locked (clock round) r d,
              moments-advance last (last + 1) r rows u m
                  (omega (arith, early round, due_run schedules locked (clock round) r d))
                  (omega (arith, early round, due_run schedules locked (clock round) r d)),
            ))
      ]
  fire_schedules_lem last law early (suc fuel) round rows u w =
      elim (first_due-cases schedules locked (clock round) rows) [
        | inl (e, quiet) ↦ (
          rows,
          [],
          rw (e, fire_schedules) refl,
          omega arith,
          subst (λ (i : ℕ). All (λ r. is_due schedules locked (clock i) r ≡ false) rows)
              (omega arith) quiet,
        )
        | inr (r, e, m, d) ↦
            let now = clock round in
            let at = next_after (expression_of r.name schedules) now in
            let due = due_run schedules locked now r d in
            let fewer =
              moments-advance last at r rows u m (omega (arith, early round, due))
                (omega (arith, law (expression_of r.name schedules) now, due)) in
            let (left, fired, ends, few, quiet) =
              fire_schedules_lem last law early fuel (round + 1) (advance r.name at rows)
                (UniqueNames-advance r.name at rows u) (omega (arith, w, fewer)) in
            (
              left,
              r.name ∷ fired,
              rw (e, ends, fire_schedules) refl,
              omega (arith, few, fewer),
              subst (λ (i : ℕ). All (λ q. is_due schedules locked (clock i) q ≡ false) left)
                  (add_suc round (length fired)) quiet,
            )
      ]
