-- ===== src/Queue/Invariant/Steps.antt =====
-- Each transaction of the queue against the well-formedness of its tables.
use aizk.Base.{
  ℕ, ◌≡◌, refl, Bool, true, false, not, ◌&&◌, ◌||◌, Option, none, some, List, [], ◌∷◌, ◌++◌, String,
  Text, elem, ◌==◌, subst, str_eq_iff, Option-cases, All-append, In, All-of_In, Bool-cases, inl,
  inr, arith, if◌then◌else◌, filter_by, In-filter_by, In-sort_by, In-take, any_by,
}
use aizk.Queue.Table.{
  QueueTask, Store, is_active, is_picked, holds_key, same_key, ids_of, update_ids,
}
use aizk.Queue.Client.{
  Job, enqueue, new_task, requeue_rows, requeue_failed, requeueable, requeued, updated_first,
}
use aizk.Queue.Worker.{
  Settings, is_stale, expired, release_stale, is_ready, leased, claimable, claim, get, heartbeat,
  finish, finished,
}
use aizk.Queue.Worker.Claims.{In-claimable}
use aizk.Queue.Invariant.{UniqueIds, UniqueKeys, conflict, IsSpent, IsSound}
use aizk.Queue.Invariant.Rows.{Replaces, Replaces-self, IsSound-map, In-of_named}

Replaces-if :
    (b : Bool) (t u : QueueTask) → (b ≡ true → Replaces t u) → Replaces t (if b then u else t)
Replaces-if true t u h = h refl
Replaces-if false t u h = Replaces-self t

-- An update of some rows of the table, each by a row that may replace it.
IsSound-update :
    (f : QueueTask → QueueTask) (rows ts : List QueueTask)
    → ((c : QueueTask) → In c rows → In c ts × Replaces c (f c))
    → IsSound ts
    → IsSound (update_ids (ids_of rows) f ts)
IsSound-update f rows ts h sound =
    IsSound-map _ ts
      (All-of_In _ ts λ t m.
        Replaces-if (elem t.id (ids_of rows)) t (f t)
          λ named. (h t (In-of_named t ts rows sound.ids (λ c k. (h c k).0) m named)).1)
      sound

expired-Replaces :
    (cfg : Settings) (now : ℕ) (t : QueueTask)
    → is_stale cfg now t ≡ true
    → Replaces t (expired now t)
expired-Replaces cfg now t h = ground arith

pub release_stale-IsSound :
    (cfg : Settings) (locked : ℕ → Bool) (now : ℕ) (ts : List QueueTask)
    → IsSound ts
    → IsSound (release_stale cfg locked now ts)
unfolding release_stale
release_stale-IsSound cfg locked now ts sound =
    IsSound-map _ ts
      (All-of_In _ ts λ t m.
        Replaces-if (is_stale cfg now t && not (locked t.id)) t (expired now t)
          λ h. expired-Replaces cfg now t (ground arith))
      sound

leased-Replaces :
    (locked : ℕ → Bool) (now : ℕ) (t : QueueTask)
    → is_ready locked now t ≡ true
    → Replaces t (leased now t)
leased-Replaces locked now t h = ground arith

pub claim-IsSound :
    (cfg : Settings) (locked : ℕ → Bool) (now : ℕ) (s : Store)
    → IsSound s.tasks
    → IsSound (claim cfg locked now s).0.tasks
unfolding claim
claim-IsSound cfg locked now s sound =
    let released = release_stale cfg locked now s.tasks in
    IsSound-update (leased now) (claimable cfg locked now released) released
      (λ c m.
        let (there, ready) = In-claimable cfg locked now released c m in
        (there, leased-Replaces locked now c ready))
      (release_stale-IsSound cfg locked now s.tasks sound)

requeued-Replaces :
    (entrypoint : String) (max_cycles : Option ℕ) (locked : ℕ → Bool) (now : ℕ) (t : QueueTask)
    → requeueable entrypoint max_cycles locked t ≡ true
    → Replaces t (requeued now t)
requeued-Replaces entrypoint max_cycles locked now t h = ground arith

-- The rows that `requeue_failed` takes.
pub In-requeue_rows :
    (job : Job) (limit : ℕ) (max_cycles : Option ℕ) (locked : ℕ → Bool) (s : Store) (c : QueueTask)
    → In c (requeue_rows job limit max_cycles locked s)
    → In c s.tasks × (requeueable job.entrypoint max_cycles locked c ≡ true)
unfolding requeue_rows
In-requeue_rows job limit max_cycles locked s c m =
    (In-filter_by c (requeueable job.entrypoint max_cycles locked) s.tasks).0 (
      (In-sort_by updated_first c
          (filter_by (requeueable job.entrypoint max_cycles locked) s.tasks)).0
        (In-take c limit _ m))

pub requeue_failed-IsSound :
    (job : Job) (limit : ℕ) (max_cycles : Option ℕ) (locked : ℕ → Bool) (now : ℕ) (s : Store)
    → IsSound s.tasks
    → IsSound (requeue_failed job limit max_cycles locked now s).0.tasks
unfolding requeue_failed
requeue_failed-IsSound job limit max_cycles locked now s =
    IsSound-update (requeued now) (requeue_rows job limit max_cycles locked s) s.tasks λ c m.
      let (there, chosen) = In-requeue_rows job limit max_cycles locked s c m in
      (there, requeued-Replaces job.entrypoint max_cycles locked now c chosen)

pub get-In :
    (id : ℕ) (t : QueueTask) (ts : List QueueTask) → get id ts ≡ some t → In t ts × (t.id ≡ id)
get-In id t [] h = cc
get-In id t (u ∷ ts) h = ground (arith, get-In id t ts)

-- An update of the row that `session.get` finds.
IsSound-update_one :
    (f : QueueTask → QueueTask) (id : ℕ) (t : QueueTask) (ts : List QueueTask)
    → get id ts ≡ some t
    → Replaces t (f t)
    → IsSound ts
    → IsSound (update_ids (id ∷ []) f ts)
IsSound-update_one f id t ts found r sound =
    let (there, named) = get-In id t ts found in
    subst (λ n. IsSound (update_ids (n ∷ []) f ts)) named
      (IsSound-update f (t ∷ []) ts (λ c m. only c m there) sound)
  where
    only : (c : QueueTask) → In c (t ∷ []) → In t ts → In c ts × Replaces c (f c)
    only c (inr m) there = elim m [ ]
    only c (inl e) there = subst (λ x. In x ts × Replaces x (f x)) e (there, r)

finished-Replaces : (now : ℕ) (t : QueueTask) → Replaces t (finished now t)
finished-Replaces now t = ground arith

pub finish-IsSound : (id now : ℕ) (s : Store) → IsSound s.tasks → IsSound (finish id now s).tasks
unfolding finish
finish-IsSound id now s sound = elim (Option-cases (get id s.tasks)) [
  | inl absent ↦ rw (absent, finish) sound
  | inr (t, found) ↦
      rw (found, finish)
        (IsSound-update_one (finished now) id t s.tasks found (finished-Replaces now t) sound)
]

abbrev renewed : ℕ → QueueTask → QueueTask
renewed now t = record t { heartbeat_at = some now; updated_at = now }

renewed-Replaces : (now : ℕ) (t : QueueTask) → Replaces t (renewed now t)
renewed-Replaces now t = ground arith

pub heartbeat-IsSound :
    (id now : ℕ) (s : Store) → IsSound s.tasks → IsSound (heartbeat id now s).0.tasks
unfolding heartbeat
heartbeat-IsSound id now s sound = elim (Option-cases (get id s.tasks)) [
  | inl absent ↦ rw (absent, heartbeat) sound
  | inr (t, found) ↦ elim (Bool-cases (is_picked t.status)) [
    | inl running ↦
        rw (found, running, heartbeat)
          (IsSound-update_one (renewed now) id t s.tasks found (renewed-Replaces now t) sound)
    | inr other ↦ rw (found, other, heartbeat) sound
  ]
]

pub same_key_sym : (a b : Option String) → same_key a b ≡ same_key b a
same_key_sym none none = refl
same_key_sym none (some b) = refl
same_key_sym (some a) none = refl
same_key_sym (some a) (some b) = ground (arith, str_eq_iff a b, str_eq_iff b a)

-- No row of the table clashes with the new one.
abbrev clashes : Option String → ℕ → QueueTask → Bool
clashes key id t = holds_key key t || (t.id == id)

module _ (n : QueueTask) (fresh : is_active n.status ≡ true) where
  UniqueIds-snoc :
      (ts : List QueueTask)
      → any_by (clashes n.dedupe_key n.id) ts ≡ false
      → UniqueIds ts
      → UniqueIds (ts ++ n ∷ [])
  UniqueIds-snoc [] free h = (tt, tt)
  UniqueIds-snoc (t ∷ ts) free h = (
    All-append (λ u. (u.id == t.id) ≡ false) ts (n ∷ []) h.0 (ground arith, tt),
    UniqueIds-snoc ts (ground arith) h.1,
  )

  UniqueKeys-snoc :
      (ts : List QueueTask)
      → any_by (clashes n.dedupe_key n.id) ts ≡ false
      → UniqueKeys ts
      → UniqueKeys (ts ++ n ∷ [])
  UniqueKeys-snoc [] free h = (tt, tt)
  UniqueKeys-snoc (t ∷ ts) free h = (
    All-append (λ u. conflict t u ≡ false) ts (n ∷ []) h.0
        (ground (arith, same_key_sym t.dedupe_key n.dedupe_key), tt),
    UniqueKeys-snoc ts (ground arith) h.1,
  )

pub enqueue-IsSound :
    (job : Job) (payload : Text) (dedupe_key : String) (id now : ℕ) (s : Store)
    → IsSound s.tasks
    → IsSound (enqueue job payload dedupe_key id now s).0.tasks
unfolding enqueue
enqueue-IsSound job payload dedupe_key id now s sound =
    elim (Bool-cases (any_by (clashes (some dedupe_key) id) s.tasks)) [
      | inl refused ↦ rw refused sound
      | inr free ↦
          let n = new_task job payload dedupe_key id now in
          rw free (record {
            ids = UniqueIds-snoc n refl s.tasks free sound.ids;
            keys = UniqueKeys-snoc n refl s.tasks free sound.keys;
            spent = All-append IsSpent s.tasks (n ∷ []) sound.spent ((λ e. cc), tt);
          })
    ]
