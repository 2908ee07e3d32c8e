-- ===== src/Tests/Queue.antt =====
-- Two conversions in the queue, one of them leased, failed or finished.
use aizk.Base.{
  ℕ, ◌≡◌, ◌≢◌, ◌⊎◌, refl, Bool, true, false, inl, none, some, [], ◌∷◌, codes, map, str_eq, All, In,
  arith,
}
use aizk.Queue.Table.{queued, failed, QueueTask, QueueEvent, Store, is_active, same_key, holds_key}
use aizk.Queue.Client.{Job, enqueue, new_task, requeue_failed}
use aizk.Queue.Worker.{Settings, Failure, claim, get, heartbeat, leased, expired, finished, fail}
use aizk.Queue.Worker.Retry.{fail_lem}
use aizk.Queue.Invariant.{IsSound}
use aizk.Queue.Invariant.Recovery.{
  enqueued, claimed, failing, empty, Reach, start, next, Reach-IsSound, requeue_failed-capped,
}
use aizk.Queue.Exclusion.{Leased, taken, lease_exclusive}
use aizk.Queue.Backoff.{Meanwhile, fail_waits}

abbrev cfg : Settings
cfg = record { lease = 10; retry_base = 5; batch_size = 1 }

abbrev conversion : Job
conversion = record { entrypoint = "artifact_conversion"; priority = 1; max_attempts = 5 }

-- A job of a single attempt.
abbrev projection : Job
projection = record { entrypoint = "chunk_projection"; priority = 0; max_attempts = 1 }

abbrev nobody : ℕ → Bool
nobody id = false

abbrev one_task : Store
one_task = record { tasks = new_task conversion (codes "a") "a" 1 0 ∷ []; events = [] }

abbrev two_tasks : Store
two_tasks = record one_task {
  tasks = new_task conversion (codes "a") "a" 1 0 ∷ new_task conversion (codes "b") "b" 2 1 ∷ [];
}

abbrev first_task : QueueTask
first_task = leased 2 (new_task conversion (codes "a") "a" 1 0)

abbrev second_task : QueueTask
second_task = leased 3 (new_task conversion (codes "b") "b" 2 1)

abbrev leased_once : Store
leased_once = record {
  tasks = first_task ∷ new_task conversion (codes "b") "b" 2 1 ∷ [];
  events = [];
}

abbrev timeout : Failure
timeout = record { kind = "TimeoutError"; message = "timed out" }

-- A second enqueue under an active key adds nothing.
enqueue_twice : (enqueue conversion (codes "c") "a" 3 2 two_tasks).1 ≡ false
unfolding enqueue
enqueue_twice = refl

claim_first : (claim cfg nobody 2 two_tasks).1 ≡ first_task ∷ []
unfolding claim
claim_first = refl

first_task-Leased : Leased cfg 1 2 leased_once
unfolding claim
first_task-Leased = taken nobody 2 two_tasks leased_once first_task (inl refl) refl refl

second_claimed : In second_task (claim cfg nobody 3 leased_once).1
unfolding claim
second_claimed = inl refl

lease_exclusive_example : second_task.id ≢ 1
lease_exclusive_example =
    lease_exclusive cfg 1 nobody 3 second_task first_task-Leased (omega arith) second_claimed

one_task-Reach : Reach cfg one_task
unfolding enqueue
one_task-Reach = next start (enqueued conversion (codes "a") "a" 1 0 refl)

two_tasks-Reach : Reach cfg two_tasks
unfolding enqueue
two_tasks-Reach = next one_task-Reach (enqueued conversion (codes "b") "b" 2 1 refl)

leased_once-Reach : Reach cfg leased_once
unfolding claim
leased_once-Reach = next two_tasks-Reach (claimed nobody 2 refl)

Reach-IsSound_example : IsSound leased_once.tasks
Reach-IsSound_example = Reach-IsSound cfg leased_once-Reach

-- A job of a single attempt whose handler failed, and whose task is held as failed.
abbrev one_failed : Store
one_failed =
    fail cfg 1 timeout 3 ((claim cfg nobody 2 (enqueue projection (codes "a") "a" 1 0 empty).0).0)

one_failed-held : map (λ (t : QueueTask). t.status) one_failed.tasks ≡ failed ∷ []
unfolding fail claim enqueue
one_failed-held = refl

one_failed-Reach : Reach cfg one_failed
one_failed-Reach =
    next (next (next start (enqueued projection (codes "a") "a" 1 0 refl)) (claimed nobody 2 refl))
      (failing 1 timeout 3 refl)

one_failed-declared :
    All
      (λ t.
        str_eq t.entrypoint projection.entrypoint ≡ true → t.max_attempts ≡ projection.max_attempts)
      one_failed.tasks
unfolding fail claim enqueue
one_failed-declared = (λ e. refl, tt)

-- Without the cap the recovery takes the failed task.
recovered_uncapped : (requeue_failed projection 10 none nobody 4 one_failed).1 ≡ 1
unfolding requeue_failed fail claim enqueue
recovered_uncapped = refl

requeue_failed-capped_example :
    requeue_failed projection 10 (some 1) nobody 4 one_failed ≡ (one_failed, 0)
requeue_failed-capped_example =
    requeue_failed-capped cfg projection 1 10 nobody 4 one_failed-Reach (omega arith)
      one_failed-declared

abbrev failed_task : QueueTask
failed_task = record first_task {
  status = queued;
  available_at = 9;
  heartbeat_at = none;
  error_type = some "TimeoutError";
  error_message = some "timed out";
  updated_at = 4;
}

abbrev failed_event : QueueEvent
failed_event = record {
  task_id = 1;
  created_at = 4;
  entrypoint = "artifact_conversion";
  status = failed;
  attempts = 1;
  error_type = some "TimeoutError";
  error_message = some "timed out";
}

fail_lem_example :
    ((u : QueueTask) × In u leased_once.tasks
      × (u.id ≢ first_task.id)
      × (is_active u.status ≡ true)
      × (same_key first_task.dedupe_key u.dedupe_key ≡ true)
      × (fail cfg 1 timeout 4 leased_once ≡ leased_once))
    ⊎ All (λ u. u.id ≢ first_task.id → holds_key first_task.dedupe_key u ≡ false) leased_once.tasks
      × (get 1 (fail cfg 1 timeout 4 leased_once).tasks ≡ some failed_task)
      × ((fail cfg 1 timeout 4 leased_once).events ≡ failed_event ∷ [])
fail_lem_example = fail_lem cfg 1 timeout 4 leased_once first_task 1 refl

-- The failure of the leased task is committed.
fail_run : get 1 (fail cfg 1 timeout 4 leased_once).tasks ≡ some failed_task
unfolding fail
fail_run = refl

-- A task that was completed by another worker while a second one was enqueued under its key: the late
-- failure of its first worker is refused by the index.
abbrev completed_twin : Store
completed_twin = record {
  tasks = finished 3 first_task ∷ new_task conversion (codes "a") "a" 2 3 ∷ [];
  events = [];
}

refused_failure : fail cfg 1 timeout 4 completed_twin ≡ completed_twin
unfolding fail
refused_failure = refl

-- A lease of a single tick.
abbrev short : Settings
short = record cfg { lease = 1 }

-- The other task, with its lease run out, and leased anew.
abbrev second_again : QueueTask
second_again = leased 8 (expired 8 (record second_task { heartbeat_at = some 6; updated_at = 6 }))

-- The other task is claimed and renewed while the first one waits, and its lease runs out.
abbrev in_between : Store
in_between = (heartbeat 2 6 (claim short nobody 5 (fail short 1 timeout 4 leased_once)).0).0

-- Before the moment 9 a claim can only hand out the other task.
second_after_failure : In second_again (claim short nobody 8 in_between).1
unfolding claim fail heartbeat
second_after_failure = inl refl

fail_waits_example : second_again.id ≢ 1
fail_waits_example =
    fail_waits short 1 timeout 4 leased_once in_between first_task nobody 8 second_again
      ((refl, tt), (tt, tt)) refl refl
      (Meanwhile.beat 2 6 (Meanwhile.claimed nobody 5 Meanwhile.nothing_yet (omega arith)))
      (omega arith) second_after_failure
