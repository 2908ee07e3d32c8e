-- ===== src/Watermark.antt =====
-- src/aizk/store/models/tables/watermark.py: the counters of the maintenance passes, with the passes
-- of src/aizk/graph/profiles.py and src/aizk/background/jobs/maintenance.py that read and reset them.
-- Each method is one statement. A set of scopes is its sorted list.
pub mod Rows
pub mod Refines
pub mod Unique
pub mod Passes
use aizk.Base.{
  ℕ, ◌+◌, ◌-◌, Bool, true, false, not, ◌&&◌, ◌||◌, Option, none, some, List, [], ◌∷◌, ◌++◌, Text,
  codes, map, take, filter_by, any_by, find_by, sort_by, first_of, text_eq, ltb, leb, ◌==◌,
  if◌then◌else◌,
}

pub data Kind : Type 0 where
  entity_dirty fact_count raptor_fact_count config : Kind

abbrev pub kind_rank : Kind → ℕ
kind_rank entity_dirty = 0
kind_rank fact_count = 1
kind_rank raptor_fact_count = 2
kind_rank config = 3

-- The unique constraint.
pub record Key : Type 0 where
  pub scopes : List ℕ
  pub kind : Kind
  pub ref : Text

abbrev pub same_scope : List ℕ → Kind → Key → Bool
same_scope scopes kind k = text_eq k.scopes scopes && (kind_rank k.kind == kind_rank kind)

abbrev pub key_eq : Key → Key → Bool
key_eq k l = same_scope l.scopes l.kind k && text_eq k.ref l.ref

abbrev pub global : Text
global = codes "global"

abbrev pub key_of : List ℕ → Kind → Text → Key
key_of scopes kind ref = record { scopes = scopes; kind = kind; ref = ref }

-- A row; a payload is a text.
pub record Watermark : Type 0 where
  pub key : Key
  pub counter : ℕ
  pub payload : Text
  pub updated_at : ℕ

abbrev pub has_row : Key → List Watermark → Bool
has_row k rows = any_by (λ (r : Watermark). key_eq r.key k) rows

abbrev pub row_of : Key → List Watermark → Option Watermark
row_of k rows = find_by (λ (r : Watermark). key_eq r.key k) rows

-- INSERT … ON CONFLICT DO UPDATE
abbrev pub upsert : Watermark → (Watermark → Watermark) → List Watermark → List Watermark
upsert fresh change rows =
    if has_row fresh.key rows
    then map (λ (r : Watermark). if key_eq r.key fresh.key then change r else r) rows
    else rows ++ fresh ∷ []

abbrev pub counted : Option Watermark → ℕ
counted none = 0
counted (some r) = r.counter

unfoldable pub read : Key → List Watermark → ℕ
read k rows = counted (row_of k rows)

abbrev pub paid : Option Watermark → Text
paid none = []
paid (some r) = r.payload

unfoldable pub read_payload : Key → List Watermark → Text
read_payload k rows = paid (row_of k rows)

abbrev pub fresh_row : Key → ℕ → ℕ → Watermark
fresh_row k by now = record { key = k; counter = by; payload = []; updated_at = now }

abbrev pub raised : ℕ → ℕ → Watermark → Watermark
raised by now r = record {
  key = r.key;
  counter = r.counter + by;
  payload = r.payload;
  updated_at = now;
}

unfoldable pub bump : Key → ℕ → ℕ → List Watermark → List Watermark
bump k by now rows = upsert (fresh_row k by now) (raised by now) rows

abbrev pub bump_each : List ℕ → Kind → List Text → ℕ → ℕ → List Watermark → List Watermark
bump_each scopes kind [] by now rows = rows
bump_each scopes kind (ref ∷ refs) by now rows =
    bump_each scopes kind refs by now (bump (key_of scopes kind ref) by now rows)

unfoldable pub bump_many : List ℕ → Kind → List Text → ℕ → ℕ → List Watermark → List Watermark
bump_many scopes kind refs by now rows = bump_each scopes kind (first_of [] refs) by now rows

-- `order_by(updated_at, ref)`; how the database compares two references is a parameter.
abbrev pub oldest_first : (Text → Text → Bool) → Watermark → Watermark → Bool
oldest_first less a b =
    ltb a.updated_at b.updated_at || ((a.updated_at == b.updated_at) && less a.key.ref b.key.ref)

unfoldable pub pending_refs :
    (Text → Text → Bool) → List ℕ → Kind → ℕ → List Watermark → List (Text × ℕ)
pending_refs less scopes kind limit rows =
    map (λ (r : Watermark). (r.key.ref, r.counter))
      (take limit (
        sort_by (oldest_first less)
          (filter_by (λ (r : Watermark). same_scope scopes kind r.key && ltb 0 r.counter) rows)))

-- What a snapshot holds for a reference.
abbrev pub amount : Text → List (Text × ℕ) → Option ℕ
amount ref [] = none
amount ref ((other, n) ∷ counters) =
    let rest = amount ref counters in if text_eq other ref then some n else rest

abbrev pub lowered : ℕ → Option ℕ → Watermark → Watermark
lowered now none r = r
lowered now (some n) r = record {
  key = r.key;
  counter = r.counter - n;
  payload = r.payload;
  updated_at = now;
}

unfoldable pub consume : List ℕ → Kind → List (Text × ℕ) → ℕ → List Watermark → List Watermark
consume scopes kind counters now rows =
    map
      (λ (r : Watermark).
        if same_scope scopes kind r.key then lowered now (amount r.key.ref counters) r else r)
      rows

abbrev pub replaced : ℕ → Text → ℕ → Watermark → Watermark
replaced counter payload now r = record {
  key = r.key;
  counter = counter;
  payload = payload;
  updated_at = now;
}

unfoldable pub set_value : Key → ℕ → Text → ℕ → List Watermark → List Watermark
set_value k counter payload now rows =
    upsert (record { key = k; counter = counter; payload = payload; updated_at = now })
      (replaced counter payload now) rows

-- The statements that change the table.
pub data Statement : Type 0 where
  bumped : Key → ℕ → ℕ → Statement
  bumped_many : List ℕ → Kind → List Text → ℕ → ℕ → Statement
  consumed : List ℕ → Kind → List (Text × ℕ) → ℕ → Statement
  set_to : Key → ℕ → Text → ℕ → Statement

abbrev pub perform : Statement → List Watermark → List Watermark
perform (bumped k by now) rows = bump k by now rows
perform (bumped_many scopes kind refs by now) rows = bump_many scopes kind refs by now rows
perform (consumed scopes kind counters now) rows = consume scopes kind counters now rows
perform (set_to k counter payload now) rows = set_value k counter payload now rows

unfoldable pub performed : List Statement → List Watermark → List Watermark
performed [] rows = rows
performed (s ∷ ss) rows = performed ss (perform s rows)

-- `refresh_dirty_profiles`: the snapshot of one transaction, what others do while the profiles are
-- written, and the transaction that consumes the snapshot.
unfoldable pub refresh_dirty :
    (Text → Text → Bool) → List ℕ → ℕ → List Statement → ℕ → List Watermark → List Watermark
refresh_dirty less scopes batch_size meanwhile now rows =
    consume scopes entity_dirty (pending_refs less scopes entity_dirty batch_size rows) now
      (performed meanwhile rows)

abbrev pub ran_unless : Bool → List Watermark → List Watermark → Bool × List Watermark
ran_unless true rows built = (false, rows)
ran_unless false rows built = (true, built)

-- `run_if_grown`: whether the pass ran, with what others do during the build.
unfoldable pub run_if_grown :
    List ℕ → Kind → ℕ → ℕ → List Statement → ℕ → List Watermark → Bool × List Watermark
run_if_grown scopes kind threshold current meanwhile now rows =
    ran_unless (ltb current (read (key_of scopes kind global) rows + threshold)) rows
      (set_value (key_of scopes kind global) current [] now (performed meanwhile rows))
