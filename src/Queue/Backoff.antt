-- ===== src/Queue/Backoff.antt =====
-- The delay of `PortableWorker.fail` in src/aizk/background/portable.py, against what comes later.
use aizk.Base.{
  ℕ, ◌+◌, ◌-◌, ◌*◌, ◌^◌, ◌≤◌, ◌<◌, ◌≡◌, ◌≢◌, refl, sym, ap, ◌∙◌, Bool, true, false, ◌&&◌, ◌||◌, not,
  some, List, [], ◌∷◌, elem, ◌==◌, any_by, All, In, All-In, All-of_In, All-map, All-append, In-map,
  Bool-cases, Option-cases, String, Text, inl, inr, arith, if◌then◌else◌,
}
use aizk.Queue.Table.{QueueTask, Store, is_picked, holds_key, update_ids, ids_of}
use aizk.Queue.Client.{Job, enqueue, new_task}
use aizk.Queue.Worker.{
  Settings, Failure, is_stale, expired, release_stale, is_ready, leased, claimable, claim, get,
  heartbeat, finish, finished, fail, is_taken, retried, backoff,
}
use aizk.Queue.Worker.Claims.{In-claimable}
use aizk.Queue.Invariant.{UniqueIds}
use aizk.Queue.Invariant.Rows.{unique_row, named_row}
use aizk.Queue.Invariant.Steps.{get-In}

abbrev IsWaiting : ℕ → ℕ → QueueTask → Type 0
IsWaiting id until t = t.id ≡ id → (is_picked t.status ≡ false) × (until ≤ t.available_at)

release_stale-IsWaiting :
    (cfg : Settings) (locked : ℕ → Bool) (id until now : ℕ) (ts : List QueueTask)
    → All (IsWaiting id until) ts
    → All (IsWaiting id until) (release_stale cfg locked now ts)
unfolding release_stale
release_stale-IsWaiting cfg locked id until now ts waiting =
    All-map (IsWaiting id until) _ ts
      (All-of_In _ ts λ t m. row t (All-In (IsWaiting id until) t ts waiting m))
  where
    clash :
        (t : QueueTask)
        → (is_stale cfg now t && not (locked t.id)) ≡ true
        → is_picked t.status ≡ false
        → ⊥
    clash t a b = ground arith

    row :
        (t : QueueTask)
        → IsWaiting id until t
        → IsWaiting id until (if is_stale cfg now t && not (locked t.id) then expired now t else t)
    row t p = elim (Bool-cases (is_stale cfg now t && not (locked t.id))) [
      | inl out ↦ rw out (λ e. absurd (clash t out (p e).0))
      | inr stays ↦ rw stays p
    ]

fail-IsWaiting :
    (cfg : Settings) (id : ℕ) (error : Failure) (now : ℕ) (s : Store) (t : QueueTask)
    → UniqueIds s.tasks
    → get id s.tasks ≡ some t
    → is_taken t s.tasks ≡ false
    → All (IsWaiting id (now + backoff cfg t)) (fail cfg id error now s).tasks
unfolding fail
fail-IsWaiting cfg id error now s t unique found free =
    let (there, named) = get-In id t s.tasks found in
    rw (found, free, fail)
      (All-map (IsWaiting id (now + backoff cfg t)) _ s.tasks (
        All-of_In _ s.tasks
          λ u m. row u (λ e. unique_row t u s.tasks unique there m (e ∙ sym named))))
  where
    clash : (u : QueueTask) → elem u.id (id ∷ []) ≡ false → u.id ≡ id → ⊥
    clash u a e = ground arith

    due :
        (u : QueueTask)
        → u ≡ t
        → (is_picked (retried cfg error now u).status ≡ false)
          × (now + backoff cfg t ≤ (retried cfg error now u).available_at)
    due u e = rw e (ground arith, omega arith)

    row :
        (u : QueueTask)
        → (u.id ≡ id → u ≡ t)
        → IsWaiting id
            (now + backoff cfg t)
            (if elem u.id (id ∷ []) then retried cfg error now u else u)
    row u same = elim (Bool-cases (elem u.id (id ∷ []))) [
      | inl own ↦ rw own (λ e. due u (same e))
      | inr other ↦ rw other (λ e. absurd (clash u other e))
    ]

module _ (id until : ℕ) where
  -- An update of rows that leaves the waiting ones waiting.
  update-IsWaiting :
      (names : List ℕ) (f : QueueTask → QueueTask) (ts : List QueueTask)
      → ((u : QueueTask)
          → In u ts
          → elem u.id names ≡ true
          → IsWaiting id until u
          → IsWaiting id until (f u))
      → All (IsWaiting id until) ts
      → All (IsWaiting id until) (update_ids names f ts)
  update-IsWaiting names f ts keeps waiting =
      All-map (IsWaiting id until) _ ts
        (All-of_In _ ts λ u m. row u m (All-In (IsWaiting id until) u ts waiting m))
    where
      row :
          (u : QueueTask)
          → In u ts
          → IsWaiting id until u
          → IsWaiting id until (if elem u.id names then f u else u)
      row u m p = elim (Bool-cases (elem u.id names)) [
        | inl e ↦ rw e (keeps u m e p)
        | inr e ↦ rw e p
      ]

  ready_not_waiting :
      (locked : ℕ → Bool) (now : ℕ) (u : QueueTask)
      → now < until
      → is_ready locked now u ≡ true
      → IsWaiting id until u
      → u.id ≢ id
  ready_not_waiting locked now u early ready waiting e = clash (waiting e).1
    where
      clash : until ≤ u.available_at → ⊥
      clash h = ground arith

  claim-IsWaiting :
      (cfg : Settings) (locked : ℕ → Bool) (now : ℕ) (s : Store)
      → now < until
      → All (IsWaiting id until) s.tasks
      → All (IsWaiting id until) (claim cfg locked now s).0.tasks
  unfolding claim
  claim-IsWaiting cfg locked now s early waiting =
      let released = release_stale cfg locked now s.tasks in
      let kept = release_stale-IsWaiting cfg locked id until now s.tasks waiting in
      let chosen = claimable cfg locked now released in
      update-IsWaiting (ids_of chosen) (leased now) released
        (λ u m e p.
          let (c, k, same) = named_row u.id chosen e in
          let (there, ready) = In-claimable cfg locked now released c k in
          λ own.
            elim (ready_not_waiting locked now c early ready
              (All-In (IsWaiting id until) c released kept there) (same ∙ own)) [ ])
        kept

  other_row : (d : ℕ) (u : QueueTask) → d ≢ id → elem u.id (d ∷ []) ≡ true → u.id ≢ id
  other_row d u ne e own = ne (ground arith)

  enqueue-IsWaiting :
      (job : Job) (payload : Text) (key : String) (d now : ℕ) (s : Store)
      → d ≢ id
      → All (IsWaiting id until) s.tasks
      → All (IsWaiting id until) (enqueue job payload key d now s).0.tasks
  unfolding enqueue
  enqueue-IsWaiting job payload key d now s ne waiting =
      elim (Bool-cases (any_by (λ t. holds_key (some key) t || (t.id == d)) s.tasks)) [
        | inl refused ↦ rw refused waiting
        | inr free ↦ rw free (
            All-append (IsWaiting id until) s.tasks (new_task job payload key d now ∷ []) waiting
              ((λ e. elim (ne e) [ ]), tt))
      ]

  heartbeat-IsWaiting :
      (d now : ℕ) (s : Store)
      → All (IsWaiting id until) s.tasks
      → All (IsWaiting id until) (heartbeat d now s).0.tasks
  unfolding heartbeat
  heartbeat-IsWaiting d now s waiting = elim (Option-cases (get d s.tasks)) [
    | inl absent ↦ rw (absent, heartbeat) waiting
    | inr (t, found) ↦ elim (Bool-cases (is_picked t.status)) [
      | inl running ↦
          rw (found, running, heartbeat)
            (update-IsWaiting (d ∷ []) (λ t. record t { heartbeat_at = some now; updated_at = now })
              s.tasks (λ u m e p. p) waiting)
      | inr other ↦ rw (found, other, heartbeat) waiting
    ]
  ]

  finish-IsWaiting :
      (d now : ℕ) (s : Store)
      → All (IsWaiting id until) s.tasks
      → All (IsWaiting id until) (finish d now s).tasks
  unfolding finish
  finish-IsWaiting d now s waiting = elim (Option-cases (get d s.tasks)) [
    | inl absent ↦ rw (absent, finish) waiting
    | inr (t, found) ↦
        rw (found, finish)
          (update-IsWaiting (d ∷ []) (finished now) s.tasks (λ u m e p own. (refl, (p own).1))
            waiting)
  ]

  fail_other-IsWaiting :
      (cfg : Settings) (d : ℕ) (error : Failure) (now : ℕ) (s : Store)
      → d ≢ id
      → All (IsWaiting id until) s.tasks
      → All (IsWaiting id until) (fail cfg d error now s).tasks
  unfolding fail
  fail_other-IsWaiting cfg d error now s ne waiting = elim (Option-cases (get d s.tasks)) [
    | inl absent ↦ rw (absent, fail) waiting
    | inr (t, found) ↦ elim (Bool-cases (is_taken t s.tasks)) [
      | inl refused ↦ rw (found, refused, fail) waiting
      | inr free ↦
          rw (found, free, fail)
            (update-IsWaiting (d ∷ []) (retried cfg error now) s.tasks
              (λ u m e p own. elim (other_row d u ne e own) [ ]) waiting)
    ]
  ]

  -- Transactions of any worker or client while the task `id` waits for the moment `until`: claims
  -- before it, heartbeats and finishes of any task, enqueues and failures of others. An operator's
  -- recovery, which makes tasks that are held as failed available at once, is not among them.
  pub data Meanwhile (cfg : Settings) (from : Store) : Store → Type 0 where
    nothing_yet : Meanwhile cfg from from
    claimed :
        {s : Store} (locked : ℕ → Bool) (now : ℕ)
        → Meanwhile cfg from s
        → now < until
        → Meanwhile cfg from (claim cfg locked now s).0
    enqueued :
        {s : Store} (job : Job) (payload : Text) (key : String) (d now : ℕ)
        → Meanwhile cfg from s
        → d ≢ id
        → Meanwhile cfg from (enqueue job payload key d now s).0
    beat : {s : Store} (d now : ℕ) → Meanwhile cfg from s → Meanwhile cfg from (heartbeat d now s).0
    succeeded : {s : Store} (d now : ℕ) → Meanwhile cfg from s → Meanwhile cfg from (finish d now s)
    other_failed :
        {s : Store} (d : ℕ) (error : Failure) (now : ℕ)
        → Meanwhile cfg from s
        → d ≢ id
        → Meanwhile cfg from (fail cfg d error now s)

  Meanwhile-IsWaiting :
      (cfg : Settings) {from s : Store}
      → Meanwhile cfg from s
      → All (IsWaiting id until) from.tasks
      → All (IsWaiting id until) s.tasks
  Meanwhile-IsWaiting cfg nothing_yet h = h
  Meanwhile-IsWaiting cfg (claimed {s} locked now m early) h =
      claim-IsWaiting cfg locked now s early (Meanwhile-IsWaiting cfg m h)
  Meanwhile-IsWaiting cfg (enqueued {s} job payload key d now m ne) h =
      enqueue-IsWaiting job payload key d now s ne (Meanwhile-IsWaiting cfg m h)
  Meanwhile-IsWaiting cfg (beat {s} d now m) h =
      heartbeat-IsWaiting d now s (Meanwhile-IsWaiting cfg m h)
  Meanwhile-IsWaiting cfg (succeeded {s} d now m) h =
      finish-IsWaiting d now s (Meanwhile-IsWaiting cfg m h)
  Meanwhile-IsWaiting cfg (other_failed {s} d error now m ne) h =
      fail_other-IsWaiting cfg d error now s ne (Meanwhile-IsWaiting cfg m h)

-- In tables with distinct identifiers, a task whose failure at `now` after its n-th attempt is not
-- refused by the index is in no batch that is claimed before `now` plus the base delay times
-- 2 ^ (n - 1), whatever claims before that moment, heartbeats, finishes, enqueues and failures of
-- other tasks come in between, as long as no recovery does.
pub fail_waits :
    (cfg : Settings) (id : ℕ) (error : Failure) (now : ℕ) (s u : Store) (t : QueueTask)
    (locked : ℕ → Bool) (later : ℕ) (c : QueueTask)
    → UniqueIds s.tasks
    → get id s.tasks ≡ some t
    → is_taken t s.tasks ≡ false
    → Meanwhile id (now + cfg.retry_base * 2 ^ (t.attempts - 1)) cfg (fail cfg id error now s) u
    → later < now + cfg.retry_base * 2 ^ (t.attempts - 1)
    → In c (claim cfg locked later u).1
    → c.id ≢ id
unfolding claim
fail_waits cfg id error now s u t locked later c unique found free steps early m e =
    let until = now + backoff cfg t in
    let waiting =
      Meanwhile-IsWaiting id until cfg steps
        (fail-IsWaiting cfg id error now s t unique found free) in
    let released = release_stale cfg locked later u.tasks in
    let (r, k, same) = In-map (leased later) c (claimable cfg locked later released) m in
    let (there, ready) = In-claimable cfg locked later released r k in
    let kept = release_stale-IsWaiting cfg locked id until later u.tasks waiting in
    ready_not_waiting id until locked later r early ready
      (All-In (IsWaiting id until) r released kept there) (ap (λ (x : QueueTask). x.id) same ∙ e)
