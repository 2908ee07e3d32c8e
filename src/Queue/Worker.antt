-- ===== src/Queue/Worker.antt =====
-- src/aizk/background/portable.py: the transactions of `PortableWorker`. `lease`, `base` and the
-- batch size are the settings, in ticks.
pub mod Order
pub mod Claims
pub mod Retry
use aizk.Base.{
  ℕ, ◌+◌, ◌-◌, ◌*◌, ◌^◌, ◌≡◌, Bool, true, false, not, ◌&&◌, ◌||◌, Option, none, some, List, [], ◌∷◌,
  ◌++◌, String, Text, ltb, leb, ◌==◌, find_by, any_by, filter_by, take, length, sort_by, map,
  if◌then◌else◌,
}
use aizk.Queue.Table.{
  Status, queued, picked, successful, failed, QueueTask, QueueEvent, Store, is_queued, is_picked,
  holds_key, update_ids, ids_of,
}

pub record Settings : Type 0 where
  pub lease : ℕ
  pub retry_base : ℕ
  pub batch_size : ℕ

-- `status == picked AND heartbeat_at < now - lease`; a null heartbeat compares as unknown.
abbrev pub is_stale : Settings → ℕ → QueueTask → Bool
is_stale cfg now t =
    is_picked t.status && elim t.heartbeat_at [ none ↦ false | some h ↦ ltb (h + cfg.lease) now ]

abbrev pub expired : ℕ → QueueTask → QueueTask
expired now t = record t {
  status = queued;
  available_at = now;
  heartbeat_at = none;
  error_type = some "WorkerLeaseExpired";
  error_message = some "worker heartbeat lease expired";
  updated_at = now;
}

unfoldable pub release_stale : Settings → (ℕ → Bool) → ℕ → List QueueTask → List QueueTask
release_stale cfg locked now ts =
    map (λ t. if is_stale cfg now t && not (locked t.id) then expired now t else t) ts

abbrev pub is_ready : (ℕ → Bool) → ℕ → QueueTask → Bool
is_ready locked now t = is_queued t.status && (leb t.available_at now && not (locked t.id))

-- `ORDER BY priority DESC, created_at, id`
unfoldable pub outranks : QueueTask → QueueTask → Bool
outranks a b =
    ltb b.priority a.priority
    || ((a.priority == b.priority)
        && (ltb a.created_at b.created_at || ((a.created_at == b.created_at) && leb a.id b.id)))

abbrev pub leased : ℕ → QueueTask → QueueTask
leased now t = record t {
  status = picked;
  heartbeat_at = some now;
  attempts = t.attempts + 1;
  updated_at = now;
}

-- The rows that the second query of `claim` returns.
unfoldable pub claimable : Settings → (ℕ → Bool) → ℕ → List QueueTask → List QueueTask
unfolding outranks
claimable cfg locked now ts =
    take cfg.batch_size (sort_by outranks (filter_by (is_ready locked now) ts))

-- `claim`: the new store, and the batch as it was leased.
unfoldable pub claim : Settings → (ℕ → Bool) → ℕ → Store → Store × List QueueTask
unfolding release_stale claimable
claim cfg locked now s =
    let released = release_stale cfg locked now s.tasks in
    let chosen = claimable cfg locked now released in
    (record s { tasks = update_ids (ids_of chosen) (leased now) released }, map (leased now) chosen)

-- `session.get(QueueTask, id)`
abbrev pub get : ℕ → List QueueTask → Option QueueTask
get id ts = find_by (λ t. t.id == id) ts

-- One turn of the `heartbeat` loop: the new store, and whether the loop goes on.
unfoldable pub heartbeat : ℕ → ℕ → Store → Store × Bool
heartbeat id now s = elim (get id s.tasks) [
  | none ↦ (s, false)
  | some t ↦
      if is_picked t.status
      then (
        record s {
          tasks =
              update_ids (id ∷ []) (λ t. record t { heartbeat_at = some now; updated_at = now })
                s.tasks;
        },
        true,
      )
      else (s, false)
]

abbrev pub finished : ℕ → QueueTask → QueueTask
finished now t = record t {
  status = successful;
  heartbeat_at = none;
  error_type = none;
  error_message = none;
  updated_at = now;
}

abbrev pub event_of : ℕ → Status → QueueTask → QueueEvent
event_of now status t = record {
  task_id = t.id;
  created_at = now;
  entrypoint = t.entrypoint;
  status = status;
  attempts = t.attempts;
  error_type = t.error_type;
  error_message = t.error_message;
}

unfoldable pub finish : ℕ → ℕ → Store → Store
finish id now s = elim (get id s.tasks) [
  | none ↦ s
  | some t ↦ record {
    tasks = update_ids (id ∷ []) (finished now) s.tasks;
    events = s.events ++ event_of now successful (finished now t) ∷ [];
  }
]

-- `type(error).__name__` and `str(error)`
pub record Failure : Type 0 where
  pub kind : String
  pub message : String

abbrev pub is_terminal : QueueTask → Bool
is_terminal t = leb t.max_attempts t.attempts

abbrev pub backoff : Settings → QueueTask → ℕ
backoff cfg t = cfg.retry_base * 2 ^ (t.attempts - 1)

abbrev pub retried : Settings → Failure → ℕ → QueueTask → QueueTask
retried cfg error now t = record t {
  status = if is_terminal t then failed else queued;
  available_at = now + backoff cfg t;
  heartbeat_at = none;
  error_type = some error.kind;
  error_message = some error.message;
  updated_at = now;
}

-- Whether another row holds the task's key in `uq_queue_task_active_dedupe`.
abbrev pub is_taken : QueueTask → List QueueTask → Bool
is_taken t ts = any_by (λ u. not (u.id == t.id) && holds_key t.dedupe_key u) ts

-- A failed task is queued or failed, which the index counts as active: when another active row holds
-- its key by then, the commit raises and the transaction leaves no trace.
unfoldable pub fail : Settings → ℕ → Failure → ℕ → Store → Store
fail cfg id error now s = elim (get id s.tasks) [
  | none ↦ s
  | some t ↦ if is_taken t s.tasks then s else record {
    tasks = update_ids (id ∷ []) (retried cfg error now) s.tasks;
    events = s.events ++ event_of now failed (retried cfg error now t) ∷ [];
  }
]
