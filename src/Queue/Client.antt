-- ===== src/Queue/Client.antt =====
-- src/aizk/background/queue.py, the CockroachDB branch of `Queue`: each method is one transaction.
-- A row that another transaction has locked is skipped: `locked` says which are.
use aizk.Base.{
  ℕ, Bool, true, false, not, ◌&&◌, ◌||◌, Option, none, some, List, [], ◌∷◌, ◌++◌, String, str_eq,
  Text, ltb, leb, ◌==◌, any_by, filter_by, take, length, sort_by, map, if◌then◌else◌,
}
use aizk.Queue.Table.{
  Status, queued, QueueTask, QueueEvent, Store, is_queued, is_picked, is_successful, is_failed,
  is_active, holds_key, update_ids, ids_of,
}

-- `type[QueueJob]`: what the class of a job declares.
pub record Job : Type 0 where
  pub entrypoint : String
  pub priority : ℕ
  pub max_attempts : ℕ

-- The row of `Queue.enqueue`, under the fresh identifier `id`.
abbrev pub new_task : Job → Text → String → ℕ → ℕ → QueueTask
new_task job payload dedupe_key id now = record {
  id = id;
  created_at = now;
  updated_at = now;
  entrypoint = job.entrypoint;
  payload = payload;
  priority = job.priority;
  dedupe_key = some dedupe_key;
  status = queued;
  attempts = 0;
  max_attempts = job.max_attempts;
  available_at = now;
  heartbeat_at = none;
  error_type = none;
  error_message = none;
}

-- `insert(...).on_conflict_do_nothing()`, and whether a row came back
unfoldable pub enqueue : Job → Text → String → ℕ → ℕ → Store → Store × Bool
enqueue job payload dedupe_key id now s =
    if any_by (λ t. holds_key (some dedupe_key) t || (t.id == id)) s.tasks
    then (s, false)
    else (record s { tasks = s.tasks ++ new_task job payload dedupe_key id now ∷ [] }, true)

abbrev pub below_cycles : Option ℕ → QueueTask → Bool
below_cycles none t = true
below_cycles (some n) t = ltb t.attempts n

abbrev pub requeueable : String → Option ℕ → (ℕ → Bool) → QueueTask → Bool
requeueable entrypoint max_cycles locked t =
    is_failed t.status
    && (str_eq t.entrypoint entrypoint && (below_cycles max_cycles t && not (locked t.id)))

-- `ORDER BY updated_at, id`
abbrev pub updated_first : QueueTask → QueueTask → Bool
updated_first a b =
    ltb a.updated_at b.updated_at || ((a.updated_at == b.updated_at) && leb a.id b.id)

abbrev pub requeued : ℕ → QueueTask → QueueTask
requeued now t = record t {
  status = queued;
  available_at = now;
  error_type = none;
  error_message = none;
  updated_at = now;
}

unfoldable pub requeue_rows : Job → ℕ → Option ℕ → (ℕ → Bool) → Store → List QueueTask
requeue_rows job limit max_cycles locked s =
    take limit
      (sort_by updated_first (filter_by (requeueable job.entrypoint max_cycles locked) s.tasks))

unfoldable pub requeue_failed : Job → ℕ → Option ℕ → (ℕ → Bool) → ℕ → Store → Store × ℕ
unfolding requeue_rows
requeue_failed job limit max_cycles locked now s =
    let rows = requeue_rows job limit max_cycles locked s in
    (record s { tasks = update_ids (ids_of rows) (requeued now) s.tasks }, length rows)

unfoldable pub active_payloads : String → Store → List Text
active_payloads entrypoint s =
    map (λ (t : QueueTask). t.payload)
      (filter_by (λ t. str_eq t.entrypoint entrypoint && is_active t.status) s.tasks)

pub record QueueSnapshot : Type 0 where
  pub pending : ℕ
  pub running : ℕ
  pub failing : ℕ
  pub last_success : Option ℕ
  pub oldest_queued : Option ℕ

abbrev count_status : (Status → Bool) → List QueueTask → ℕ
count_status p ts = length (filter_by (λ (t : QueueTask). p t.status) ts)

-- SQL's `max` and `min`, which are null over no row.
abbrev newest : List QueueEvent → Option ℕ
newest [] = none
newest (e ∷ es) = elim (newest es) [
  | none ↦ some e.created_at
  | some t ↦ some (if ltb t e.created_at then e.created_at else t)
]

abbrev oldest : List QueueTask → Option ℕ
oldest [] = none
oldest (e ∷ es) = elim (oldest es) [
  | none ↦ some e.created_at
  | some t ↦ some (if ltb e.created_at t then e.created_at else t)
]

unfoldable pub snapshot : Store → QueueSnapshot
snapshot s = record {
  pending = count_status is_queued s.tasks;
  running = count_status is_picked s.tasks;
  failing = count_status is_failed s.tasks;
  last_success = newest (filter_by (λ (e : QueueEvent). is_successful e.status) s.events);
  oldest_queued = oldest (filter_by (λ (t : QueueTask). is_queued t.status) s.tasks);
}
