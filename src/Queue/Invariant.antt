-- ===== src/Queue/Invariant.antt =====
-- The well-formedness of the queue's tables, and what an update of rows must do to keep it.
pub mod Rows
pub mod Steps
pub mod Failing
pub mod Recovery
use aizk.Base.{ℕ, ◌≤◌, ◌≡◌, ◌≢◌, Bool, true, false, ◌&&◌, List, [], ◌∷◌, ◌==◌, All}
use aizk.Queue.Table.{Status, failed, QueueTask, Store, is_active, is_failed, holds_key}

-- The primary key.
abbrev pub UniqueIds : List QueueTask → Type 0
UniqueIds [] = Unit
UniqueIds (t ∷ ts) = All (λ u. (u.id == t.id) ≡ false) ts × UniqueIds ts

-- The index would refuse the two rows.
abbrev pub conflict : QueueTask → QueueTask → Bool
conflict t u = is_active t.status && holds_key t.dedupe_key u

-- The partial unique index `uq_queue_task_active_dedupe`.
abbrev pub UniqueKeys : List QueueTask → Type 0
UniqueKeys [] = Unit
UniqueKeys (t ∷ ts) = All (λ u. conflict t u ≡ false) ts × UniqueKeys ts

-- A row that is held as failed has spent its attempts.
abbrev pub IsSpent : QueueTask → Type 0
IsSpent t = is_failed t.status ≡ true → t.max_attempts ≤ t.attempts

pub record IsSound (ts : List QueueTask) : Type 0 where
  pub ids : UniqueIds ts
  pub keys : UniqueKeys ts
  pub spent : All IsSpent ts
