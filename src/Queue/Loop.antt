-- ===== src/Queue/Loop.antt =====
-- `PortableWorker.execute` and the batch of `run_once` in src/aizk/background/portable.py. What the
-- registered handlers do is the parameter `jobs`.
use Prim.Native.String.{◌++◌}
use aizk.Base.{ℕ, Option, none, some, List, [], ◌∷◌, String, Text}
use aizk.Queue.Table.{QueueTask, Store}
use aizk.Queue.Worker.{Settings, Failure, finish, fail}

-- How `handle_encoded` ends: it returns, raises an error, or is cancelled, which `execute` passes
-- on without touching the row.
pub data Outcome : Type 0 where
  returned : Outcome
  raised : Failure → Outcome
  cancelled : Outcome

-- `self.jobs`: a job for each registered entrypoint.
abbrev pub Jobs : Type 0
Jobs = String → Option (Text → Outcome)

abbrev pub unregistered : String → Failure
unregistered entrypoint = record {
  kind = "LookupError";
  message = "unregistered job " ++ entrypoint;
}

-- What `execute` writes, in one transaction at the moment `now`.
abbrev pub settle : Settings → ℕ → Outcome → ℕ → Store → Store
settle cfg id returned now s = finish id now s
settle cfg id (raised error) now s = fail cfg id error now s
settle cfg id cancelled now s = s

abbrev pub outcome_of : Jobs → QueueTask → Outcome
outcome_of jobs task = elim (jobs task.entrypoint) [
  | none ↦ raised (unregistered task.entrypoint)
  | some handler ↦ handler task.payload
]

unfoldable pub execute : Settings → Jobs → QueueTask → ℕ → Store → Store
execute cfg jobs task now s = settle cfg task.id (outcome_of jobs task) now s

-- `asyncio.gather`: the tasks of the batch settle in the order of the list, each at its moment.
unfoldable pub execute_all : Settings → Jobs → List QueueTask → ℕ → Store → Store
unfolding execute
execute_all cfg jobs [] now s = s
execute_all cfg jobs (t ∷ ts) now s = execute_all cfg jobs ts now (execute cfg jobs t now s)
