-- ===== src/Watermark/Passes.antt =====
-- src/aizk/graph/profiles.py, src/aizk/background/jobs/maintenance.py: what a maintenance pass leaves
-- in the counters while other transactions write.
use aizk.Base.{
  ℕ, ◌+◌, ◌-◌, ◌≡◌, inl, inr, refl, sym, ◌∙◌, subst, Bool, true, false, not, ◌&&◌, Bool-cases,
  Option, none, some, List, [], ◌∷◌, Text, take, one_of, text_eq, text_eq_iff, text_eq_refl, ltb,
  if◌then◌else◌, arith, All, All-of_In, All-take, All-sort_by, All-map, In-filter_by, filter_by,
  sort_by,
}
use aizk.Watermark.{
  Kind, entity_dirty, Key, key_of, global, same_scope, key_eq, Watermark, read, oldest_first,
  pending_refs, amount, set_value, Statement, bumped, bumped_many, consumed, set_to, performed,
  refresh_dirty, ran_unless, run_if_grown,
}
use aizk.Watermark.Rows.{key_eq→eq, key_eq_refl}
use aizk.Watermark.Refines.{
  counts_after, counts_of, counts, or_zero, read-consume, read-set_value, read-performed,
}
use aizk.Watermark.Unique.{IsUnique, IsUnique-performed, read-In}

-- The statements that only raise counters, and by how much they raise one.
abbrev pub Raises : Statement → Type 0
Raises (bumped k by now) = Unit
Raises (bumped_many scopes kind refs by now) = Unit
Raises _ = ⊥

abbrev pub raise_of : Statement → Key → ℕ
raise_of (bumped k by now) l = if key_eq l k then by else 0
raise_of (bumped_many scopes kind refs by now) l =
    if same_scope scopes kind l && one_of l.ref refs then by else 0
raise_of _ l = 0

abbrev pub raises_of : List Statement → Key → ℕ
raises_of [] l = 0
raises_of (s ∷ ss) l = raise_of s l + raises_of ss l

if_add : (b : Bool) (x by : ℕ) → (if b then x + by else x) ≡ x + (if b then by else 0)
if_add true x by = refl
if_add false x by = omega arith

counts_after-Raises :
    (s : Statement) (f : Key → ℕ) (l : Key) → Raises s → counts_after s f l ≡ f l + raise_of s l
counts_after-Raises (bumped k by now) f l r = if_add (key_eq l k) (f l) by
counts_after-Raises (bumped_many scopes kind refs by now) f l r =
    if_add (same_scope scopes kind l && one_of l.ref refs) (f l) by
counts_after-Raises (consumed scopes kind counters now) f l r = elim r [ ]
counts_after-Raises (set_to k counter payload now) f l r = elim r [ ]

counts_of-Raises :
    (ss : List Statement) (f : Key → ℕ) (l : Key)
    → All Raises ss
    → counts_of ss f l ≡ f l + raises_of ss l
counts_of-Raises [] f l h = omega arith
counts_of-Raises (s ∷ ss) f l h =
    let first = counts_after-Raises s f l h.0 in
    let rest = counts_of-Raises ss (counts_after s f) l h.1 in omega (arith, first, rest)

-- A snapshot holds for each reference what its key reads.
abbrev Holds : List ℕ → Kind → List Watermark → Text × ℕ → Type 0
Holds scopes kind rows (ref, n) = read (key_of scopes kind ref) rows ≡ n

in_scope_key :
    (scopes : List ℕ) (kind : Kind) (k : Key)
    → same_scope scopes kind k ≡ true
    → k ≡ key_of scopes kind k.ref
in_scope_key scopes kind k e =
    key_eq→eq k (key_of scopes kind k.ref) (rw (e, text_eq_refl k.ref) refl)

and_left : (a b : Bool) → (a && b) ≡ true → a ≡ true
and_left true b e = refl
and_left false b e = cc

pending-Holds :
    (less : Text → Text → Bool) (scopes : List ℕ) (kind : Kind) (limit : ℕ) (rows : List Watermark)
    → IsUnique rows
    → All (Holds scopes kind rows) (pending_refs less scopes kind limit rows)
unfolding pending_refs
pending-Holds less scopes kind limit rows u =
    let dirty = λ (r : Watermark). same_scope scopes kind r.key && ltb 0 r.counter in
    let P = λ (r : Watermark). Holds scopes kind rows (r.key.ref, r.counter) in
    let found = All-of_In P (filter_by dirty rows) (λ r m.
      let (there, e) = (In-filter_by r dirty rows).0 m in
      subst (λ (k : Key). read k rows ≡ r.counter)
        (in_scope_key scopes kind r.key
          (and_left (same_scope scopes kind r.key) (ltb 0 r.counter) e))
        (read-In r rows u there)) in
    All-map (Holds scopes kind rows) (λ (r : Watermark). (r.key.ref, r.counter))
      (take limit (sort_by (oldest_first less) (filter_by dirty rows)))
      (All-take P limit (sort_by (oldest_first less) (filter_by dirty rows))
        (All-sort_by (oldest_first less) P (filter_by dirty rows) found))

amount-Holds :
    (scopes : List ℕ) (kind : Kind) (rows : List Watermark) (ref : Text) (n : ℕ)
    (snapshot : List (Text × ℕ))
    → All (Holds scopes kind rows) snapshot
    → amount ref snapshot ≡ some n
    → read (key_of scopes kind ref) rows ≡ n
amount-Holds scopes kind rows ref n [] h e = cc
amount-Holds scopes kind rows ref n ((other, m) ∷ snapshot) h e =
    elim (Bool-cases (text_eq other ref)) [
      | inl b ↦
          let same = (text_eq_iff other ref).0 b in
          subst (λ (t : Text). read (key_of scopes kind t) rows ≡ m) same h.0 ∙ ground arith
      | inr b ↦ amount-Holds scopes kind rows ref n snapshot h.1 (ground arith)
    ]

-- What a pass over dirty references leaves of a count: the increments since its snapshot, for a
-- reference of the snapshot; the whole count, for any other.
abbrev pub left_over : Option ℕ → ℕ → ℕ → ℕ
left_over none before since = before + since
left_over (some n) before since = since

taken_off :
    (o : Option ℕ) (before since : ℕ)
    → ((n : ℕ) → o ≡ some n → before ≡ n)
    → (before + since) - or_zero o ≡ left_over o before since
taken_off none before since h = omega arith
taken_off (some n) before since h = omega (arith, h n refl)

-- In every table that statements lead to, a refresh of the dirty profiles consumes exactly what its
-- snapshot saw: when other transactions only raise counters between the snapshot and the consumption,
-- a reference of the snapshot is left with exactly their increments, and any other reference of the
-- scope with its count and their increments. No increment is lost and none is counted twice.
pub refresh_dirty_lem :
    (less : Text → Text → Bool) (scopes : List ℕ) (batch_size now : ℕ)
    (history meanwhile : List Statement) (l : Key)
    → All Raises meanwhile
    → same_scope scopes entity_dirty l ≡ true
    → let rows = performed history [] in
      read l (refresh_dirty less scopes batch_size meanwhile now rows)
      ≡ left_over
          (amount l.ref (pending_refs less scopes entity_dirty batch_size rows))
          (read l rows)
          (raises_of meanwhile l)
unfolding refresh_dirty
refresh_dirty_lem less scopes batch_size now history meanwhile l raising mine =
    let rows = performed history [] in
    let snapshot = pending_refs less scopes entity_dirty batch_size rows in
    let holds =
      pending-Holds less scopes entity_dirty batch_size rows (IsUnique-performed history [] tt) in
    let since =
      read-performed meanwhile rows l ∙ counts_of-Raises meanwhile (counts rows) l raising in
    read-consume l scopes entity_dirty snapshot now (performed meanwhile rows)
    ∙ rw (mine, since)
        (taken_off (amount l.ref snapshot) (read l rows) (raises_of meanwhile l) (λ n e.
          subst (λ (k : Key). read k rows ≡ n) (sym (in_scope_key scopes entity_dirty l mine))
            (amount-Holds scopes entity_dirty rows l.ref n snapshot holds e)))

-- After a pass that ran with a count, the next one runs exactly when the count that it reads has grown
-- by the threshold since, whatever statements on other keys came between; what was recorded during the
-- build counts as growth.
pub run_if_grown_lem :
    (scopes : List ℕ) (kind : Kind) (threshold current later now next : ℕ)
    (meanwhile after : List Statement) (rows : List Watermark)
    → (run_if_grown scopes kind threshold current meanwhile now rows).0 ≡ true
    → ((f : Key → ℕ)
        → counts_of after f (key_of scopes kind global) ≡ f (key_of scopes kind global))
    → (run_if_grown scopes kind threshold later [] next
        (performed after (run_if_grown scopes kind threshold current meanwhile now rows).1)).0
      ≡ not (ltb later (current + threshold))
unfolding run_if_grown performed
run_if_grown_lem scopes kind threshold current later now next meanwhile after rows ran still =
    let k = key_of scopes kind global in
    let left = set_value k current [] now (performed meanwhile rows) in
    let skipped = ltb current (read k rows + threshold) in
    let went = has_run skipped rows left ran in
    let value =
      read-performed after left k
      ∙ still (counts left)
      ∙ read-set_value k k current [] now (performed meanwhile rows)
      ∙ rw (key_eq_refl k) refl in
    rw (went, value)
      (whether (ltb later (current + threshold)) (performed after left)
        (set_value k later [] next (performed after left)))
  where
    has_run : (b : Bool) (x y : List Watermark) → (ran_unless b x y).0 ≡ true → b ≡ false
    has_run true x y e = cc
    has_run false x y e = refl

    whether : (b : Bool) (x y : List Watermark) → (ran_unless b x y).0 ≡ not b
    whether true x y = refl
    whether false x y = refl
