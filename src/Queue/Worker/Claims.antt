-- ===== src/Queue/Worker/Claims.antt =====
-- `PortableWorker.claim` of src/aizk/background/portable.py: what it leases.
use aizk.Base.{
  ℕ, ◌+◌, ◌≤◌, ◌≡◌, refl, ap, ◌∙◌, ◌⊎◌, inl, inr, Bool, true, false, not, ◌&&◌, some, List, [], ◌∷◌,
  elem, All, In, All-In, All-of_In, IsSorted, sort_by, sort_by-IsSorted, take-sorted, filter_by,
  In-filter_by, In-sort_by, length, length-take, IsSorted-take, Bool-cases, arith, if◌then◌else◌,
  All-map, In-map, In-take, ◌≢◌, ==_refl,
}
use aizk.Queue.Table.{QueueTask, Store, is_picked, update_ids, ids_of}
use aizk.Queue.Worker.{
  Settings, is_stale, expired, release_stale, is_ready, outranks, leased, claimable, claim,
}
use aizk.Queue.Worker.Order.{outranks_total, outranks_trans}

-- The rows that `claim` takes are rows of the table, ready and not locked.
pub In-claimable :
    (cfg : Settings) (locked : ℕ → Bool) (now : ℕ) (ts : List QueueTask) (c : QueueTask)
    → In c (claimable cfg locked now ts)
    → In c ts × (is_ready locked now c ≡ true)
unfolding claimable
In-claimable cfg locked now ts c m =
    (In-filter_by c (is_ready locked now) ts).0 (
      (In-sort_by outranks c (filter_by (is_ready locked now) ts)).0 (In-take c cfg.batch_size _ m))

-- The rows that a claim takes are at most a batch, the best first. A ready row of the table is one
-- of them, or the batch is full and each of its rows outranks it.
pub claimable_lem :
    (cfg : Settings) (locked : ℕ → Bool) (now : ℕ) (ts : List QueueTask) (t : QueueTask)
    → In t ts
    → is_ready locked now t ≡ true
    → (length (claimable cfg locked now ts) ≤ cfg.batch_size)
      × IsSorted outranks (claimable cfg locked now ts)
      × (In t (claimable cfg locked now ts)
          ⊎ (length (claimable cfg locked now ts) ≡ cfg.batch_size)
            × All (λ c. outranks c t ≡ true) (claimable cfg locked now ts))
unfolding claimable
claimable_lem cfg locked now ts t m h =
    let ready = filter_by (is_ready locked now) ts in
    let sorted = sort_by-IsSorted outranks outranks_total outranks_trans ready in
    (
      length-take cfg.batch_size (sort_by outranks ready),
      IsSorted-take outranks cfg.batch_size (sort_by outranks ready) sorted,
      take-sorted outranks cfg.batch_size t (sort_by outranks ready) sorted
          ((In-sort_by outranks t ready).1 ((In-filter_by t (is_ready locked now) ts).1 (m, h))),
    )

elem-ids_of : (t : QueueTask) (rows : List QueueTask) → In t rows → elem t.id (ids_of rows) ≡ true
elem-ids_of t [] m = elim m [ ]
elem-ids_of t (c ∷ rows) (inl e) = rw e (rw (==_refl t.id))
elem-ids_of t (c ∷ rows) (inr m) = rw (elem-ids_of t rows m) (ground arith)

-- The task is leased since `h` or later.
abbrev pub IsHeld : ℕ → ℕ → QueueTask → Type 0
IsHeld id h t =
    t.id ≡ id → (is_picked t.status ≡ true) × ((k : ℕ) × (t.heartbeat_at ≡ some k) × (h ≤ k))

not_stale-IsHeld :
    (cfg : Settings) (id h now : ℕ) (t : QueueTask)
    → now ≤ h + cfg.lease
    → IsHeld id h t
    → t.id ≡ id
    → is_stale cfg now t ≡ false
not_stale-IsHeld cfg id h now t early held e =
    let (run, (k, beat, le)) = held e in rw (run, beat) (ground arith)

pub release_stale-IsHeld :
    (cfg : Settings) (locked : ℕ → Bool) (id h now : ℕ) (ts : List QueueTask)
    → now ≤ h + cfg.lease
    → All (IsHeld id h) ts
    → All (IsHeld id h) (release_stale cfg locked now ts)
unfolding release_stale
release_stale-IsHeld cfg locked id h now ts early held =
    All-map (IsHeld id h) _ ts (All-of_In _ ts λ t m. row t (All-In (IsHeld id h) t ts held m))
  where
    clash :
        (t : QueueTask)
        → (is_stale cfg now t && not (locked t.id)) ≡ true
        → is_stale cfg now t ≡ false
        → ⊥
    clash t a b = ground arith

    row :
        (t : QueueTask)
        → IsHeld id h t
        → IsHeld id h (if is_stale cfg now t && not (locked t.id) then expired now t else t)
    row t p = elim (Bool-cases (is_stale cfg now t && not (locked t.id))) [
      | inl out ↦ rw out (λ e. absurd (clash t out (not_stale-IsHeld cfg id h now t early p e)))
      | inr stays ↦ rw stays p
    ]

-- A task leased since `h` or later is in no batch that is claimed within the lease.
pub claim-ne-held :
    (cfg : Settings) (locked : ℕ → Bool) (id h now : ℕ) (s : Store) (c : QueueTask)
    → now ≤ h + cfg.lease
    → All (IsHeld id h) s.tasks
    → In c (claim cfg locked now s).1
    → c.id ≢ id
unfolding claim
claim-ne-held cfg locked id h now s c early held m e =
    let released = release_stale cfg locked now s.tasks in
    let (t, k, same) = In-map (leased now) c (claimable cfg locked now released) m in
    let (there, ready) = In-claimable cfg locked now released t k in
    let kept = release_stale-IsHeld cfg locked id h now s.tasks early held in
    clash t ready
      (All-In (IsHeld id h) t released kept there (ap (λ (x : QueueTask). x.id) same ∙ e)).0
  where
    clash : (t : QueueTask) → is_ready locked now t ≡ true → is_picked t.status ≡ true → ⊥
    clash t a b = ground arith

pub IsHeld-update :
    (ids : List ℕ) (f : QueueTask → QueueTask) (id h : ℕ) (ts : List QueueTask)
    → ((t : QueueTask) → IsHeld id h t → elem t.id ids ≡ true → IsHeld id h (f t))
    → All (IsHeld id h) ts
    → All (IsHeld id h) (update_ids ids f ts)
IsHeld-update ids f id h ts keep held =
    All-map (IsHeld id h) _ ts (All-of_In _ ts λ t m. row t (All-In (IsHeld id h) t ts held m))
  where
    row : (t : QueueTask) → IsHeld id h t → IsHeld id h (if elem t.id ids then f t else t)
    row t p = elim (Bool-cases (elem t.id ids)) [
      | inl chosen ↦ rw chosen (keep t p chosen)
      | inr other ↦ rw other p
    ]

pub leased-IsHeld : (id h now : ℕ) (t : QueueTask) → h ≤ now → IsHeld id h (leased now t)
leased-IsHeld id h now t le e = (refl, (now, refl, le))

-- Whoever is in a batch is held from that moment on.
pub claim-IsHeld :
    (cfg : Settings) (locked : ℕ → Bool) (now : ℕ) (s : Store) (c : QueueTask)
    → In c (claim cfg locked now s).1
    → All (IsHeld c.id now) (claim cfg locked now s).0.tasks
unfolding claim
claim-IsHeld cfg locked now s c m =
    let released = release_stale cfg locked now s.tasks in
    let rows = claimable cfg locked now released in
    let (t, k, same) = In-map (leased now) c rows m in
    All-map (IsHeld c.id now) _ released (All-of_In _ released λ u n. row u rows t k same)
  where
    row :
        (u : QueueTask) (rows : List QueueTask) (t : QueueTask)
        → In t rows
        → leased now t ≡ c
        → IsHeld c.id now (if elem u.id (ids_of rows) then leased now u else u)
    row u rows t k same = elim (Bool-cases (elem u.id (ids_of rows))) [
      | inl chosen ↦ rw chosen (leased-IsHeld c.id now now u (omega arith))
      | inr other ↦
          rw other
            (λ e. absurd (cc (other, elem-ids_of t rows k, e, ap (λ (x : QueueTask). x.id) same)))
    ]
