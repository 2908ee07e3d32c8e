-- ===== src/Queue/Exclusion.antt =====
-- The leases of src/aizk/background/portable.py while other workers and clients go on.
use aizk.Base.{
  ℕ, ◌+◌, ◌≤◌, ◌≡◌, ◌≢◌, refl, sym, subst, ◌∙◌, Bool, true, false, Option, none, some, List, [],
  ◌∷◌, String, Text, elem, All, In, All-In, All-of_In, All-map, All-append, if_both, Bool-cases,
  Option-cases, inl, inr, arith, if◌then◌else◌,
}
use aizk.Queue.Table.{QueueTask, Store, is_picked, update_ids, ids_of}
use aizk.Queue.Client.{Job, enqueue, new_task, requeue_rows, requeue_failed, requeued}
use aizk.Queue.Worker.{
  Settings, Failure, leased, claimable, release_stale, claim, get, heartbeat, finish, finished,
  fail, is_taken, retried,
}
use aizk.Queue.Worker.Claims.{
  IsHeld, IsHeld-update, claim-ne-held, claim-IsHeld, release_stale-IsHeld, leased-IsHeld,
}
use aizk.Queue.Invariant.Rows.{named_row}
use aizk.Queue.Invariant.Steps.{In-requeue_rows, get-In}

-- A transaction of somebody else, within the lease of the task `id` that was last seen at `h`.
pub data Elsewhere (cfg : Settings) (id h : ℕ) (s u : Store) : Type 0 where
  enqueued :
      (job : Job) (payload : Text) (key : String) (other now : ℕ)
      → other ≢ id
      → u ≡ (enqueue job payload key other now s).0
      → Elsewhere cfg id h s u
  recovered :
      (job : Job) (limit : ℕ) (max_cycles : Option ℕ) (locked : ℕ → Bool) (now : ℕ)
      → u ≡ (requeue_failed job limit max_cycles locked now s).0
      → Elsewhere cfg id h s u
  claimed :
      (locked : ℕ → Bool) (now : ℕ)
      → h ≤ now
      → now ≤ h + cfg.lease
      → u ≡ (claim cfg locked now s).0
      → Elsewhere cfg id h s u
  beat : (other now : ℕ) → h ≤ now → u ≡ (heartbeat other now s).0 → Elsewhere cfg id h s u
  succeeded : (other now : ℕ) → other ≢ id → u ≡ finish other now s → Elsewhere cfg id h s u
  failing :
      (other : ℕ) (error : Failure) (now : ℕ)
      → other ≢ id
      → u ≡ fail cfg other error now s
      → Elsewhere cfg id h s u

-- `s` is reached after a claim handed out the task `id`, which was last renewed at `h`.
pub data Leased (cfg : Settings) (id : ℕ) : ℕ → Store → Type 0 where
  taken :
      (locked : ℕ → Bool) (now : ℕ) (s u : Store) (c : QueueTask)
      → In c (claim cfg locked now s).1
      → c.id ≡ id
      → u ≡ (claim cfg locked now s).0
      → Leased cfg id now u
  meanwhile : {h : ℕ} {s u : Store} → Leased cfg id h s → Elsewhere cfg id h s u → Leased cfg id h u
  renewed :
      {h : ℕ} {s u : Store} (now : ℕ)
      → Leased cfg id h s
      → u ≡ (heartbeat id now s).0
      → Leased cfg id now u

-- A row with another identifier is not concerned.
update_other :
    (f : QueueTask → QueueTask) (other id h : ℕ) (ts : List QueueTask)
    → ((t : QueueTask) → (f t).id ≡ t.id)
    → other ≢ id
    → All (IsHeld id h) ts
    → All (IsHeld id h) (update_ids (other ∷ []) f ts)
update_other f other id h ts same ne =
    IsHeld-update (other ∷ []) f id h ts
      (λ t p named e. absurd (ne (named_one t named ∙ (sym (same t) ∙ e))))
  where
    named_one : (t : QueueTask) → elem t.id (other ∷ []) ≡ true → other ≡ t.id
    named_one t e = ground arith

enqueue-IsHeld :
    (job : Job) (payload : Text) (key : String) (other now id h : ℕ) (s : Store)
    → other ≢ id
    → All (IsHeld id h) s.tasks
    → All (IsHeld id h) (enqueue job payload key other now s).0.tasks
unfolding enqueue
enqueue-IsHeld job payload key other now id h s ne held =
    if_both (λ (r : Store × Bool). All (IsHeld id h) r.0.tasks) _ (s, false) _ held
      (All-append (IsHeld id h) s.tasks (new_task job payload key other now ∷ []) held
        ((λ e. absurd (ne e)), tt))

requeue_failed-IsHeld :
    (job : Job) (limit : ℕ) (max_cycles : Option ℕ) (locked : ℕ → Bool) (now id h : ℕ) (s : Store)
    → All (IsHeld id h) s.tasks
    → All (IsHeld id h) (requeue_failed job limit max_cycles locked now s).0.tasks
unfolding requeue_failed
requeue_failed-IsHeld job limit max_cycles locked now id h s held =
    let rows = requeue_rows job limit max_cycles locked s in
    IsHeld-update (ids_of rows) (requeued now) id h s.tasks
      (λ t p named e.
        let (c, m, same) = named_row t.id rows named in
        let (there, chosen) = In-requeue_rows job limit max_cycles locked s c m in
        let (run, _) = All-In (IsHeld id h) c s.tasks held there (same ∙ e) in
        absurd (ground arith))
      held

claim-keeps-IsHeld :
    (cfg : Settings) (locked : ℕ → Bool) (now id h : ℕ) (s : Store)
    → h ≤ now
    → now ≤ h + cfg.lease
    → All (IsHeld id h) s.tasks
    → All (IsHeld id h) (claim cfg locked now s).0.tasks
unfolding claim
claim-keeps-IsHeld cfg locked now id h s le early held =
    let released = release_stale cfg locked now s.tasks in
    IsHeld-update (ids_of (claimable cfg locked now released)) (leased now) id h released
      (λ t p named. leased-IsHeld id h now t le)
      (release_stale-IsHeld cfg locked id h now s.tasks early held)

finish-IsHeld :
    (other now id h : ℕ) (s : Store)
    → other ≢ id
    → All (IsHeld id h) s.tasks
    → All (IsHeld id h) (finish other now s).tasks
unfolding finish
finish-IsHeld other now id h s ne held = elim (Option-cases (get other s.tasks)) [
  | inl absent ↦ rw (absent, finish) held
  | inr (t, found) ↦
      rw (found, finish) (update_other (finished now) other id h s.tasks (λ u. refl) ne held)
]

fail-IsHeld :
    (cfg : Settings) (other : ℕ) (error : Failure) (now id h : ℕ) (s : Store)
    → other ≢ id
    → All (IsHeld id h) s.tasks
    → All (IsHeld id h) (fail cfg other error now s).tasks
unfolding fail
fail-IsHeld cfg other error now id h s ne held = elim (Option-cases (get other s.tasks)) [
  | inl absent ↦ rw (absent, fail) held
  | inr (t, found) ↦ elim (Bool-cases (is_taken t s.tasks)) [
    | inl refused ↦ rw (found, refused, fail) held
    | inr free ↦
        rw (found, free, fail)
          (update_other (retried cfg error now) other id h s.tasks (λ u. refl) ne held)
  ]
]

abbrev renewal : ℕ → QueueTask → QueueTask
renewal now t = record t { heartbeat_at = some now; updated_at = now }

heartbeat-IsHeld :
    (other now id h : ℕ) (s : Store)
    → h ≤ now
    → All (IsHeld id h) s.tasks
    → All (IsHeld id h) (heartbeat other now s).0.tasks
unfolding heartbeat
heartbeat-IsHeld other now id h s le held = elim (Option-cases (get other s.tasks)) [
  | inl absent ↦ rw (absent, heartbeat) held
  | inr (t, found) ↦
      rw (found, heartbeat)
        (if_both (λ (r : Store × Bool). All (IsHeld id h) r.0.tasks) (is_picked t.status) _
          (s, false)
          (IsHeld-update (other ∷ []) (renewal now) id h s.tasks
            (λ u p named e. ((p e).0, (now, refl, le))) held)
          held)
]

get-none : (id : ℕ) (ts : List QueueTask) (t : QueueTask) → get id ts ≡ none → In t ts → t.id ≢ id
get-none id [] t h m e = elim m [ ]
get-none id (u ∷ ts) t h m e = ground (arith, get-none id ts t)

-- The owner's heartbeat moves the lease to its own moment.
renewal-IsHeld :
    (now id h : ℕ) (s : Store)
    → All (IsHeld id h) s.tasks
    → All (IsHeld id now) (heartbeat id now s).0.tasks
unfolding heartbeat
renewal-IsHeld now id h s held = elim (Option-cases (get id s.tasks)) [
  | inl absent ↦
      rw (absent, heartbeat)
        (All-of_In (IsHeld id now) s.tasks (λ u m e. absurd (get-none id s.tasks u absent m e)))
  | inr (t, found) ↦
      let (there, named) = get-In id t s.tasks found in
      let (run, _) = All-In (IsHeld id h) t s.tasks held there named in
      rw (found, run, heartbeat)
        (All-map (IsHeld id now) _ s.tasks
          (All-of_In _ s.tasks (λ u m. row u (All-In (IsHeld id h) u s.tasks held m))))
]
  where
    clash : (u : QueueTask) → elem u.id (id ∷ []) ≡ false → u.id ≡ id → ⊥
    clash u a e = ground arith

    row :
        (u : QueueTask)
        → IsHeld id h u
        → IsHeld id now (if elem u.id (id ∷ []) then renewal now u else u)
    row u p = elim (Bool-cases (elem u.id (id ∷ []))) [
      | inl own ↦ rw own (λ e. ((p e).0, (now, refl, omega arith)))
      | inr other ↦ rw other (λ e. absurd (clash u other e))
    ]

Elsewhere-IsHeld :
    (cfg : Settings) (id h : ℕ) (s u : Store)
    → Elsewhere cfg id h s u
    → All (IsHeld id h) s.tasks
    → All (IsHeld id h) u.tasks
Elsewhere-IsHeld cfg id h s u (enqueued job payload key other now ne e) held =
    rw e (enqueue-IsHeld job payload key other now id h s ne held)
Elsewhere-IsHeld cfg id h s u (recovered job limit max_cycles locked now e) held =
    rw e (requeue_failed-IsHeld job limit max_cycles locked now id h s held)
Elsewhere-IsHeld cfg id h s u (claimed locked now le early e) held =
    rw e (claim-keeps-IsHeld cfg locked now id h s le early held)
Elsewhere-IsHeld cfg id h s u (beat other now le e) held =
    rw e (heartbeat-IsHeld other now id h s le held)
Elsewhere-IsHeld cfg id h s u (succeeded other now ne e) held =
    rw e (finish-IsHeld other now id h s ne held)
Elsewhere-IsHeld cfg id h s u (failing other error now ne e) held =
    rw e (fail-IsHeld cfg other error now id h s ne held)

Leased-IsHeld :
    (cfg : Settings) (id : ℕ) {h : ℕ} {s : Store} → Leased cfg id h s → All (IsHeld id h) s.tasks
Leased-IsHeld cfg id {h} (taken locked now s u c m named e) = rw e (
    subst (λ n. All (IsHeld n h) (claim cfg locked h s).0.tasks) named
      (claim-IsHeld cfg locked h s c m))
Leased-IsHeld cfg id {h} (meanwhile {s = s} {u = u} l step) =
    Elsewhere-IsHeld cfg id h s u step (Leased-IsHeld cfg id l)
Leased-IsHeld cfg id (renewed {h = k} {s = s} now l e) =
    rw e (renewal-IsHeld now id k s (Leased-IsHeld cfg id l))

-- After a claim handed out a task, and while its last heartbeat is no older than the lease, no
-- other claim hands it out again, whatever clients enqueue under other identifiers or requeue, and
-- whatever other workers claim within the lease, renew since that heartbeat, or finish or fail of
-- other tasks, in between.
pub lease_exclusive :
    (cfg : Settings) (id : ℕ) {h : ℕ} {s : Store} (locked : ℕ → Bool) (now : ℕ) (c : QueueTask)
    → Leased cfg id h s
    → now ≤ h + cfg.lease
    → In c (claim cfg locked now s).1
    → c.id ≢ id
lease_exclusive cfg id {h} {s} locked now c l early m =
    claim-ne-held cfg locked id h now s c early (Leased-IsHeld cfg id l) m
