-- ===== src/Queue/Invariant/Recovery.antt =====
-- The stores that the queue's transactions reach, and the capped recovery of `requeue_failed` there.
use mathlib.Core.List.{map-id}
use aizk.Base.{
  ℕ, ap, ◌≤◌, ◌≡◌, refl, Bool, true, Option, some, List, [], ◌∷◌, String, Text, All, In, All-In,
  inl, arith, str_eq,
}
use aizk.Queue.Table.{QueueTask, Store}
use aizk.Queue.Client.{Job, enqueue, requeue_rows, requeue_failed}
use aizk.Queue.Worker.{Settings, Failure, claim, heartbeat, finish, fail}
use aizk.Queue.Invariant.{IsSpent, IsSound}
use aizk.Queue.Invariant.Steps.{
  claim-IsSound, requeue_failed-IsSound, In-requeue_rows, finish-IsSound, heartbeat-IsSound,
  enqueue-IsSound,
}
use aizk.Queue.Invariant.Failing.{fail-IsSound}

-- One transaction of any client or worker; one that the unique index refuses changes nothing.
pub data Step (cfg : Settings) (s u : Store) : Type 0 where
  enqueued :
      (job : Job) (payload : Text) (key : String) (id now : ℕ)
      → u ≡ (enqueue job payload key id now s).0
      → Step cfg s u
  recovered :
      (job : Job) (limit : ℕ) (max_cycles : Option ℕ) (locked : ℕ → Bool) (now : ℕ)
      → u ≡ (requeue_failed job limit max_cycles locked now s).0
      → Step cfg s u
  claimed : (locked : ℕ → Bool) (now : ℕ) → u ≡ (claim cfg locked now s).0 → Step cfg s u
  beat : (id now : ℕ) → u ≡ (heartbeat id now s).0 → Step cfg s u
  succeeded : (id now : ℕ) → u ≡ finish id now s → Step cfg s u
  failing : (id : ℕ) (error : Failure) (now : ℕ) → u ≡ fail cfg id error now s → Step cfg s u

abbrev pub empty : Store
empty = record { tasks = []; events = [] }

pub data Reach (cfg : Settings) : Store → Type 0 where
  start : Reach cfg empty
  next : {s u : Store} → Reach cfg s → Step cfg s u → Reach cfg u

Step-IsSound : (cfg : Settings) (s u : Store) → Step cfg s u → IsSound s.tasks → IsSound u.tasks
Step-IsSound cfg s u (enqueued job payload key id now e) h =
    rw e (enqueue-IsSound job payload key id now s h)
Step-IsSound cfg s u (recovered job limit max_cycles locked now e) h =
    rw e (requeue_failed-IsSound job limit max_cycles locked now s h)
Step-IsSound cfg s u (claimed locked now e) h = rw e (claim-IsSound cfg locked now s h)
Step-IsSound cfg s u (beat id now e) h = rw e (heartbeat-IsSound id now s h)
Step-IsSound cfg s u (succeeded id now e) h = rw e (finish-IsSound id now s h)
Step-IsSound cfg s u (failing id error now e) h = rw e (fail-IsSound cfg id error now s h)

-- In every store that enqueues, recoveries, claims, heartbeats, finishes and failures reach from an
-- empty one, in any order, at any moments and of whatever rows: identifiers are distinct, no two
-- active tasks hold one deduplication key, and a task held as failed has spent its attempts.
pub Reach-IsSound : (cfg : Settings) {s : Store} → Reach cfg s → IsSound s.tasks
Reach-IsSound cfg start = record { ids = tt; keys = tt; spent = tt }
Reach-IsSound cfg (next {s} {u} r step) = Step-IsSound cfg s u step (Reach-IsSound cfg r)

-- Under a cap at or below the job's attempts, no held failure of that job qualifies.
no_rows :
    (job : Job) (cap limit : ℕ) (locked : ℕ → Bool) (s : Store)
    → cap ≤ job.max_attempts
    → All
        (λ t. str_eq t.entrypoint job.entrypoint ≡ true → t.max_attempts ≡ job.max_attempts)
        s.tasks
    → IsSound s.tasks
    → (rows : List QueueTask)
    → ((c : QueueTask) → In c rows → In c (requeue_rows job limit (some cap) locked s))
    → rows ≡ []
no_rows job cap limit locked s low declared sound [] sub = refl
no_rows job cap limit locked s low declared sound (c ∷ rows) sub =
    let (there, chosen) = In-requeue_rows job limit (some cap) locked s c (sub c (inl refl)) in
    absurd (
      ground (arith, All-In _ c s.tasks declared there, All-In IsSpent c s.tasks sound.spent there))

-- In every reachable store where the rows of a job carry the attempts that its class declares, an
-- automatic recovery of that job whose cap on cycles is at most those attempts changes nothing
-- and requeues nothing, whatever failed tasks the store holds.
pub requeue_failed-capped :
    (cfg : Settings) (job : Job) (cap limit : ℕ) (locked : ℕ → Bool) (now : ℕ) {s : Store}
    → Reach cfg s
    → cap ≤ job.max_attempts
    → All
        (λ t. str_eq t.entrypoint job.entrypoint ≡ true → t.max_attempts ≡ job.max_attempts)
        s.tasks
    → requeue_failed job limit (some cap) locked now s ≡ (s, 0)
unfolding requeue_failed
requeue_failed-capped cfg job cap limit locked now {s} r low declared =
    rw
      (no_rows job cap limit locked s low declared (Reach-IsSound cfg r)
        (requeue_rows job limit (some cap) locked s) (λ c m. m))
      (ap (λ ts. (record s { tasks = ts }, 0)) (map-id s.tasks))
