-- ===== src/Queue/Table.antt =====
-- src/aizk/store/models/tables/queue.py and background/enum.py: the queue's rows, and the store
-- that a transaction reads and writes. Identifiers and moments are numbers; a moment counts ticks.
use aizk.Base.{
  ℕ, Bool, true, false, ◌&&◌, ◌||◌, Option, none, some, List, [], ◌∷◌, String, opt_str_eq, Text,
  map, if◌then◌else◌, elem,
}

-- `QueueStatus`
pub data Status : Type 0 where
  queued picked successful canceled deleted exception failed : Status

pub record QueueTask : Type 0 where
  pub id : ℕ
  pub created_at : ℕ
  pub updated_at : ℕ
  pub entrypoint : String
  pub payload : Text
  pub priority : ℕ
  pub dedupe_key : Option String
  pub status : Status
  pub attempts : ℕ
  pub max_attempts : ℕ
  pub available_at : ℕ
  pub heartbeat_at : Option ℕ
  pub error_type : Option String
  pub error_message : Option String

pub record QueueEvent : Type 0 where
  pub task_id : ℕ
  pub created_at : ℕ
  pub entrypoint : String
  pub status : Status
  pub attempts : ℕ
  pub error_type : Option String
  pub error_message : Option String

pub record Store : Type 0 where
  pub tasks : List QueueTask
  pub events : List QueueEvent

abbrev pub is_queued : Status → Bool
is_queued queued = true
is_queued _ = false

abbrev pub is_picked : Status → Bool
is_picked picked = true
is_picked _ = false

abbrev pub is_successful : Status → Bool
is_successful successful = true
is_successful _ = false

abbrev pub is_failed : Status → Bool
is_failed failed = true
is_failed _ = false

-- The statuses of the partial unique index `uq_queue_task_active_dedupe`.
abbrev pub is_active : Status → Bool
is_active s = is_queued s || (is_picked s || is_failed s)

-- Two rows that the index would refuse to hold side by side.
abbrev pub same_key : Option String → Option String → Bool
same_key none other = false
same_key (some k) other = opt_str_eq (some k) other

abbrev pub holds_key : Option String → QueueTask → Bool
holds_key key t = is_active t.status && same_key key t.dedupe_key

-- `UPDATE ... WHERE id IN ids`
abbrev pub update_ids : List ℕ → (QueueTask → QueueTask) → List QueueTask → List QueueTask
update_ids ids f ts = map (λ t. if elem t.id ids then f t else t) ts

abbrev pub ids_of : List QueueTask → List ℕ
ids_of [] = []
ids_of (t ∷ ts) = t.id ∷ ids_of ts
