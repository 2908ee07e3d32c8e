-- ===== src/Quota/Charges.antt =====
-- One transaction of src/aizk/store/quota.py: what it charges, and when it is refused.
use aizk.Base.{
  ℕ, ◌+◌, ◌*◌, ◌≤◌, ◌≡◌, ◌≢◌, refl, ap, sym, ◌∙◌, ◌↔◌, Bool, true, false, Option, none, some, List,
  [], ◌∷◌, leb, leb→le, if◌then◌else◌, all_by, All, arith, Bool-cases, inl, inr,
}
use aizk.Quota.{
  QuotaKind, operation, Operation, Key, key_eq, Counters, set_row, consume_row, Limit, key_of,
  Charged, charged, refused, consume_limits, Settings, limits,
}

-- What a counter has used; a counter without a row has used nothing.
abbrev pub or_zero : Option ℕ → ℕ
or_zero none = 0
or_zero (some n) = n

abbrev pub used : Counters → Key → ℕ
used counters k = or_zero (counters k)

or_zero-if :
    (b : Bool) (n : ℕ) (o : Option ℕ)
    → or_zero (if b then some n else o) ≡ (if b then n else or_zero o)
or_zero-if true n o = refl
or_zero-if false n o = refl

used-set_row :
    (key : Key) (n : ℕ) (counters : Counters) (k : Key)
    → used (set_row key n counters) k ≡ (if key_eq key k then n else used counters k)
used-set_row key n counters k = or_zero-if (key_eq key k) n (counters k)

pub key_eq_iff : (a b : Key) → (key_eq a b ≡ true) ↔ (a ≡ b)
key_eq_iff a b = ground arith

-- A counter is charged exactly when it has room for all the units.
pub consume_row_lem :
    (key : Key) (limit units : ℕ) (counters : Counters)
    → consume_row key limit units counters ≡ (
        if leb (used counters key + units) limit
        then some (set_row key (used counters key + units) counters)
        else none)
unfolding consume_row
consume_row_lem key limit units counters = ground arith

abbrev table_of : Charged → Counters → Counters
table_of (charged table) d = table
table_of (refused kind) d = d

refused-ne-charged : (kind : QuotaKind) (table : Counters) → refused kind ≡ charged table → ⊥
refused-ne-charged kind table e = cc

key_eq_sym : (a b : Key) → key_eq a b ≡ key_eq b a
key_eq_sym a b = ground arith

module _ (period : ℕ) where
  -- How often a counter stands among the limits of one operation.
  abbrev pub occurrences : Key → List Limit → ℕ
  occurrences k [] = 0
  occurrences k (l ∷ ls) = (if key_eq (key_of period l) k then 1 else 0) + occurrences k ls

  -- No counter stands twice among them.
  abbrev pub AreDistinct : List Limit → Type 0
  AreDistinct [] = Unit
  AreDistinct (l ∷ ls) =
      All (λ m. key_eq (key_of period l) (key_of period m) ≡ false) ls × AreDistinct ls

module _ (period units : ℕ) where
  abbrev pub has_room : Counters → Limit → Bool
  has_room counters l = leb (used counters (key_of period l) + units) l.limit

  abbrev charge_one : Counters → Limit → Counters
  charge_one counters l =
      set_row (key_of period l) (used counters (key_of period l) + units) counters

  abbrev pub charge_all : List Limit → Counters → Counters
  charge_all [] counters = counters
  charge_all (l ∷ ls) counters = charge_all ls (charge_one counters l)

  -- The first limit without room.
  abbrev pub reached : List Limit → Counters → QuotaKind → QuotaKind
  reached [] counters kind = kind
  reached (l ∷ ls) counters kind =
      let rest = reached ls counters kind in if has_room counters l then rest else l.kind

  has_room-charge_one :
      (counters : Counters) (l m : Limit)
      → key_eq (key_of period l) (key_of period m) ≡ false
      → has_room (charge_one counters l) m ≡ has_room counters m
  has_room-charge_one counters l m h =
      ap (λ n. leb (n + units) m.limit)
        (used-set_row (key_of period l) (used counters (key_of period l) + units) counters
            (key_of period m)
          ∙ ap
              (λ b.
                if b
                then used counters (key_of period l) + units
                else used counters (key_of period m))
              h)

  has_room_rest :
      (counters : Counters) (l : Limit) (ls : List Limit) (kind : QuotaKind)
      → All (λ m. key_eq (key_of period l) (key_of period m) ≡ false) ls
      → (all_by (has_room (charge_one counters l)) ls ≡ all_by (has_room counters) ls)
        × (reached ls (charge_one counters l) kind ≡ reached ls counters kind)
  has_room_rest counters l [] kind h = (refl, refl)
  has_room_rest counters l (m ∷ ms) kind h =
      let (a, b) = has_room_rest counters l ms kind h.1 in
      rw (has_room-charge_one counters l m h.0) (rw (a, b) (refl, refl))

  -- When no two limits of the operation stand for one counter, one transaction charges every limit if
  -- all have room for the units, and otherwise charges none and names the first that has none.
  pub consume_limits_atomic :
      (ls : List Limit) (counters : Counters)
      → AreDistinct period ls
      → consume_limits period units ls counters ≡ (
          if all_by (has_room counters) ls
          then charged (charge_all ls counters)
          else refused (reached ls counters operation))
  unfolding consume_limits
  consume_limits_atomic [] counters h = refl
  consume_limits_atomic (l ∷ ls) counters h =
      let (a, b) = has_room_rest counters l ls operation h.0 in
      elim (Bool-cases (has_room counters l)) [
        | inl room ↦
            rw (consume_row_lem (key_of period l) l.limit units counters, room, consume_limits)
              (rw (consume_limits_atomic ls (charge_one counters l) h.1, a, b) refl)
        | inr full ↦
            rw (consume_row_lem (key_of period l) l.limit units counters, full, consume_limits) refl
      ]

  used-charge_one :
      (counters : Counters) (l : Limit) (k : Key)
      → used (charge_one counters l) k
        ≡ used counters k + units * (if key_eq (key_of period l) k then 1 else 0)
  used-charge_one counters l k =
      used-set_row (key_of period l) (used counters (key_of period l) + units) counters k
      ∙ elim (Bool-cases (key_eq (key_of period l) k)) [
        | inl same ↦ rw (same, (key_eq_iff (key_of period l) k).0 same) (omega arith)
        | inr other ↦ rw other (omega arith)
      ]

  -- A transaction that is not refused adds the units to each counter once for every limit of the
  -- operation that the counter stands for, and leaves all other counters alone.
  pub consume_limits_adds :
      (ls : List Limit) (counters table : Counters) (k : Key)
      → consume_limits period units ls counters ≡ charged table
      → used table k ≡ used counters k + units * occurrences period k ls
  unfolding consume_limits
  consume_limits_adds [] counters table k h =
      ap (λ (c : Counters). used c k) (sym (ap (λ r. table_of r counters) h)) ∙ omega arith
  consume_limits_adds (l ∷ ls) counters table k h = elim (Bool-cases (has_room counters l)) [
    | inl room ↦
        let rest =
          rw (consume_row_lem (key_of period l) l.limit units counters, room, consume_limits) at
            h in
        omega (
          arith,
          consume_limits_adds ls (charge_one counters l) table k rest,
          used-charge_one counters l k,
        )
    | inr full ↦ absurd (
        refused-ne-charged l.kind table (
          rw (consume_row_lem (key_of period l) l.limit units counters, full, consume_limits) at h))
  ]

  occurrences-none :
      (k : Key) (ls : List Limit)
      → All (λ m. key_eq k (key_of period m) ≡ false) ls
      → occurrences period k ls ≡ 0
  occurrences-none k [] h = refl
  occurrences-none k (m ∷ ms) h =
      rw (key_eq_sym (key_of period m) k ∙ h.0) (omega (arith, occurrences-none k ms h.1))

  -- A transaction that is not refused leaves every counter of the operation within its limit.
  pub consume_limits_within :
      (ls : List Limit) (counters table : Counters)
      → AreDistinct period ls
      → consume_limits period units ls counters ≡ charged table
      → All (λ l. used table (key_of period l) ≤ l.limit) ls
  unfolding consume_limits
  consume_limits_within [] counters table d h = tt
  consume_limits_within (l ∷ ls) counters table d h = elim (Bool-cases (has_room counters l)) [
    | inl room ↦
        let rest =
          rw (consume_row_lem (key_of period l) l.limit units counters, room, consume_limits) at
            h in
        let key = key_of period l in
        let once : used (charge_one counters l) key ≡ used counters key + units * 1 =
          used-charge_one counters l key
          ∙ ap (λ b. used counters key + units * (if b then 1 else 0))
              ((key_eq_iff key key).1 refl) in
        (
          omega (
            arith,
            leb→le (used counters key + units) l.limit room,
            once,
            consume_limits_adds ls (charge_one counters l) table key rest,
            ap (λ (n : ℕ). units * n) (occurrences-none key ls d.0),
          ),
          consume_limits_within ls (charge_one counters l) table d.1 rest,
        )
    | inr full ↦ absurd (
        refused-ne-charged l.kind table (
          rw (consume_row_lem (key_of period l) l.limit units counters, full, consume_limits) at h))
  ]

-- For a caller other than the system user, no counter stands twice among an operation's limits.
pub limits-AreDistinct :
    (cfg : Settings) (period user_id : ℕ) (op : Operation)
    → user_id ≢ cfg.system_user_id
    → AreDistinct period (limits cfg user_id op)
unfolding limits
limits-AreDistinct cfg period user_id op ne = ground arith
