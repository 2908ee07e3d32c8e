-- ===== src/Quota.antt =====
-- src/aizk/store/quota.py and store/models/tables/quota.py: the monthly quota. The counter table is
-- the function from a primary key to the `used` of its row. A period is the month's number.
pub mod Charges
pub mod Attempts
use aizk.Base.{
  ℕ, zero, suc, ◌+◌, ◌-◌, ◌≤◌, ◌≡◌, Bool, true, false, ◌&&◌, Option, none, some, List, [], ◌∷◌,
  ◌++◌, leb, ◌==◌, if◌then◌else◌,
}

pub data QuotaKind : Type 0 where
  operation keep web : QuotaKind

-- `UsageEvent.Operation`
pub data Operation : Type 0 where
  find_memory keep_text keep_file share artifact_read web_search web_fetch : Operation

-- The primary key of `MonthlyQuotaCounter`.
pub record Key : Type 0 where
  pub subject_id : ℕ
  pub period : ℕ
  pub kind : QuotaKind

abbrev pub kind_eq : QuotaKind → QuotaKind → Bool
kind_eq operation operation = true
kind_eq keep keep = true
kind_eq web web = true
kind_eq _ _ = false

abbrev pub key_eq : Key → Key → Bool
key_eq a b = (a.subject_id == b.subject_id) && ((a.period == b.period) && kind_eq a.kind b.kind)

abbrev pub Counters : Type 0
Counters = Key → Option ℕ

abbrev pub set_row : Key → ℕ → Counters → Counters
set_row key used counters k = if key_eq key k then some used else counters k

-- `MonthlyQuotaCounter.consume`: the row that the opening select yields is inserted, or on a
-- conflict the old row is updated under its guard; `none` if no row came back.
unfoldable pub consume_row : Key → ℕ → ℕ → Counters → Option Counters
consume_row key limit units counters =
    if leb units limit
    then (elim (counters key) [
      | none ↦ some (set_row key units counters)
      | some used ↦
          if leb used (limit - units) then some (set_row key (used + units) counters) else none
    ])
    else none

pub record Settings : Type 0 where
  pub system_user_id : ℕ
  pub total_operation_limit : Option ℕ
  pub total_keep_limit : Option ℕ
  pub total_web_limit : Option ℕ
  pub user_operation_limit : Option ℕ
  pub user_keep_limit : Option ℕ
  pub user_web_limit : Option ℕ

pub record Limit : Type 0 where
  pub subject_id : ℕ
  pub kind : QuotaKind
  pub limit : ℕ

abbrev pub is_keep : Operation → Bool
is_keep keep_text = true
is_keep keep_file = true
is_keep _ = false

abbrev pub is_web : Operation → Bool
is_web web_search = true
is_web web_fetch = true
is_web _ = false

-- One entry of `configured`, left out of the result where its limit is unset.
abbrev pub entry : ℕ → QuotaKind → Option ℕ → List Limit
entry subject kind none = []
entry subject kind (some n) = record { subject_id = subject; kind = kind; limit = n } ∷ []

unfoldable pub limits : Settings → ℕ → Operation → List Limit
limits cfg user_id op =
    entry cfg.system_user_id operation cfg.total_operation_limit
    ++ (entry user_id operation cfg.user_operation_limit
        ++ ((if is_keep op
              then entry cfg.system_user_id keep cfg.total_keep_limit
                ++ entry user_id keep cfg.user_keep_limit
              else [])
            ++ (if is_web op
                then entry cfg.system_user_id web cfg.total_web_limit
                  ++ entry user_id web cfg.user_web_limit
                else [])))

abbrev pub key_of : ℕ → Limit → Key
key_of period l = record { subject_id = l.subject_id; period = period; kind = l.kind }

-- One transaction: the kind whose limit is reached, which rolls everything back, or the new table.
pub data Charged : Type 0 where
  refused : QuotaKind → Charged
  charged : Counters → Charged

unfoldable pub consume_limits : ℕ → ℕ → List Limit → Counters → Charged
consume_limits period units [] counters = charged counters
consume_limits period units (l ∷ ls) counters =
    elim (consume_row (key_of period l) l.limit units counters) [
      | none ↦ refused l.kind
      | some counters' ↦ consume_limits period units ls counters'
    ]

-- What the database does with an attempt: its statements and its commit go through, or one of them
-- fails with SQLSTATE 40001 or otherwise.
pub data Answer : Type 0 where
  completes conflicts breaks : Answer

pub data Outcome : Type 0 where
  unlimited : Outcome
  accepted : ℕ → Counters → Outcome
  exceeded : QuotaKind → Outcome
  database_error : ℕ → Outcome

-- How an attempt ends that the database lets through.
abbrev pub ended : ℕ → Charged → Outcome
ended attempt (refused kind) = exceeded kind
ended attempt (charged table) = accepted attempt table

-- The loop of `consume` at the attempt `attempt`, with `left` more behind it. `seen` is the table
-- that an attempt reads, which other processes may change in between.
unfoldable pub consume_from : (ℕ → Answer) → (ℕ → Counters) → ℕ → ℕ → List Limit → ℕ → ℕ → Outcome
consume_from answer seen period units ls zero attempt = elim (answer attempt) [
  | completes ↦ ended attempt (consume_limits period units ls (seen attempt))
  | conflicts ↦ database_error attempt
  | breaks ↦ database_error attempt
]
consume_from answer seen period units ls (suc left) attempt =
    let again = consume_from answer seen period units ls left (attempt + 1) in
    elim (answer attempt) [
      | completes ↦ ended attempt (consume_limits period units ls (seen attempt))
      | conflicts ↦ again
      | breaks ↦ database_error attempt
    ]

-- `consume`, for `attempts` at least 1, as the constructor demands.
unfoldable pub consume :
    Settings → ℕ → (ℕ → Answer) → (ℕ → Counters) → ℕ → ℕ → Operation → ℕ → Outcome
unfolding limits consume_from
consume cfg attempts answer seen period user_id op units = elim (limits cfg user_id op) [
  | [] ↦ unlimited
  | l ∷ ls ↦ consume_from answer seen period units (l ∷ ls) (attempts - 1) 1
]
