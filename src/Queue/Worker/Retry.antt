-- ===== src/Queue/Worker/Retry.antt =====
-- `PortableWorker.fail` and `finish` of src/aizk/background/portable.py, and repeated failures.
use mathlib.Core.Option
use aizk.Base.{
  ℕ, suc, ◌+◌, ◌-◌, ◌*◌, ◌^◌, ◌<◌, ◌≡◌, ◌≢◌, refl, none, some, List, [], ◌∷◌, ◌++◌, ◌==◌, leb,
  length, Bool-cases, ==_iff, inl, inr, arith, if◌then◌else◌, ◌⊎◌, not, ◌&&◌, true, false, All,
  All-In, All-of_In, In, any_by-cases,
}
use aizk.Queue.Table.{
  queued, successful, failed, QueueTask, Store, is_active, holds_key, same_key, update_ids,
}
use aizk.Queue.Worker.{Settings, Failure, leased, get, finish, finished, fail, retried}

-- What `session.get` finds after the row `id` was changed.
module _ (f : QueueTask → QueueTask) (same : (t : QueueTask) → (f t).id ≡ t.id) where
  pub get-update_self :
      (id : ℕ) (ts : List QueueTask) → get id (update_ids (id ∷ []) f ts) ≡ Option.map f (get id ts)
  get-update_self id [] = refl
  get-update_self id (t ∷ ts) = ground (arith, same t, get-update_self id ts)

  pub get-update_ne :
      (id j : ℕ) (ts : List QueueTask) → j ≢ id → get j (update_ids (id ∷ []) f ts) ≡ get j ts
  get-update_ne id j [] ne = refl
  get-update_ne id j (t ∷ ts) ne = ground (arith, same t, get-update_ne id j ts ne)

  pub get-update :
      (id j : ℕ) (ts : List QueueTask) (t : QueueTask)
      → get id ts ≡ some t
      → get j (update_ids (id ∷ []) f ts) ≡ (if j == id then some (f t) else get j ts)
  get-update id j ts t found = elim (Bool-cases (j == id)) [
    | inl e ↦ let own : j ≡ id = (==_iff j id).0 e in rw (e, own, get-update_self id ts, found) refl
    | inr e ↦
        let ne : j ≢ id = λ (own : j ≡ id). ground (arith, own, e) in
        rw (e, get-update_ne id j ts ne) refl
  ]

-- A failure of a stored row changes nothing exactly when some other active row holds the row's
-- deduplication key. Otherwise it turns the row, whatever its status was, into one that is held as
-- failed if its attempts are spent, and otherwise is queued again with a delay that doubles with each
-- attempt, and appends one event that carries the error; what is found under any other identifier `j`
-- is as before.
pub fail_lem :
    (cfg : Settings) (id : ℕ) (error : Failure) (now : ℕ) (s : Store) (t : QueueTask) (j : ℕ)
    → get id s.tasks ≡ some t
    → ((u : QueueTask) × In u s.tasks
        × (u.id ≢ t.id)
        × (is_active u.status ≡ true)
        × (same_key t.dedupe_key u.dedupe_key ≡ true)
        × (fail cfg id error now s ≡ s))
      ⊎ All (λ u. u.id ≢ t.id → holds_key t.dedupe_key u ≡ false) s.tasks
        × (get j (fail cfg id error now s).tasks ≡ (
            if j == id
            then some (record t {
              status = if leb t.max_attempts t.attempts then failed else queued;
              available_at = now + cfg.retry_base * 2 ^ (t.attempts - 1);
              heartbeat_at = none;
              error_type = some error.kind;
              error_message = some error.message;
              updated_at = now;
            })
            else get j s.tasks))
        × ((fail cfg id error now s).events
            ≡ s.events
              ++ record {
                task_id = t.id;
                created_at = now;
                entrypoint = t.entrypoint;
                status = failed;
                attempts = t.attempts;
                error_type = some error.kind;
                error_message = some error.message;
              }
                ∷ [])
unfolding fail
fail_lem cfg id error now s t j found =
    elim (any_by-cases (λ u. not (u.id == t.id) && holds_key t.dedupe_key u) s.tasks) [
      | inl (u, m, holds, taken) ↦
          let (apart, active, key) = taken_by u holds in
          inl (u, m, apart, active, key, rw (found, taken, fail) refl)
      | inr (free, none_holds) ↦ inr (
        All-of_In _ s.tasks (λ u m. untaken u (
            All-In (λ x. (not (x.id == t.id) && holds_key t.dedupe_key x) ≡ false) u s.tasks
              none_holds m)),
        (rw (found, free, fail)
            (get-update (retried cfg error now) (λ u. refl) id j s.tasks t found)),
        rw (found, free, fail) refl,
      )
    ]
  where
    taken_by :
        (u : QueueTask)
        → (not (u.id == t.id) && holds_key t.dedupe_key u) ≡ true
        → (u.id ≢ t.id) × (is_active u.status ≡ true) × (same_key t.dedupe_key u.dedupe_key ≡ true)
    taken_by u h = (λ e. ground (arith, h, e), ground arith, ground arith)

    untaken :
        (u : QueueTask)
        → (not (u.id == t.id) && holds_key t.dedupe_key u) ≡ false
        → u.id ≢ t.id
        → holds_key t.dedupe_key u ≡ false
    untaken u h ne = elim (Bool-cases (u.id == t.id)) [
      | inl e ↦ elim (ne ((==_iff u.id t.id).0 e)) [ ]
      | inr e ↦ rw e at h
    ]

-- Finishing a stored row makes it successful whatever its status was, clears its lease and its
-- error, and appends one event without an error. What is found under any other identifier `j` is as
-- before.
pub finish_lem :
    (id now : ℕ) (s : Store) (t : QueueTask) (j : ℕ)
    → get id s.tasks ≡ some t
    → (get j (finish id now s).tasks ≡ (
        if j == id
        then some (record t {
          status = successful;
          heartbeat_at = none;
          error_type = none;
          error_message = none;
          updated_at = now;
        })
        else get j s.tasks))
      × ((finish id now s).events
          ≡ s.events
            ++ record {
              task_id = t.id;
              created_at = now;
              entrypoint = t.entrypoint;
              status = successful;
              attempts = t.attempts;
              error_type = none;
              error_message = none;
            }
              ∷ [])
unfolding finish
finish_lem id now s t j found =
    rw (found, finish) (get-update (finished now) (λ u. refl) id j s.tasks t found, refl)

-- A row through a series of attempts that all fail: each is a lease and a failure.
pub attempts_of : Settings → List (Failure × ℕ × ℕ) → QueueTask → QueueTask
attempts_of cfg [] t = t
attempts_of cfg ((error, leased_at, failed_at) ∷ rest) t =
    attempts_of cfg rest (retried cfg error failed_at (leased leased_at t))

-- A task whose handler always fails is queued again after each of its first failures and held as
-- failed from the one that spends its attempts on.
pub status-attempts_of :
    (cfg : Settings) (fs : List (Failure × ℕ × ℕ)) (t : QueueTask)
    → 0 < length fs
    → ((attempts_of cfg fs t).attempts ≡ t.attempts + length fs)
      × ((attempts_of cfg fs t).status
          ≡ (if leb t.max_attempts (t.attempts + length fs) then failed else queued))
unfolding attempts_of
status-attempts_of cfg [] t h = absurd (omega arith)
status-attempts_of cfg ((error, a, b) ∷ []) t h = (refl, refl)
status-attempts_of cfg ((error, a, b) ∷ f ∷ fs) t h =
    let n : ℕ = length fs in
    let sum : t.attempts + 1 + suc n ≡ t.attempts + suc (suc n) = omega arith in
    rw sum at (status-attempts_of cfg (f ∷ fs) (retried cfg error b (leased a t)) (omega arith))
