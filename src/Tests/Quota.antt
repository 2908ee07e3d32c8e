-- ===== src/Tests/Quota.antt =====
-- A keep of one user under three limits, whose first transaction meets a conflict.
use aizk.Base.{
  ℕ, ◌≡◌, ◌≤◌, ◌+◌, ◌*◌, ◌⊎◌, refl, none, some, List, [], ◌∷◌, All, arith, ◌==◌, if◌then◌else◌,
  all_by,
}
use aizk.Quota.{
  QuotaKind, operation, keep, keep_text, Key, Counters, set_row, Settings, Limit, limits, key_of,
  charged, refused, consume_limits, consume_row, Answer, completes, conflicts, unlimited, accepted,
  consume,
}
use aizk.Quota.Charges.{used, occurrences, has_room, charge_all, reached, consume_limits_atomic}
use aizk.Quota.Attempts.{Explains, consume-Explains, consume_accepted}

abbrev cfg : Settings
cfg = record {
  system_user_id = 0;
  total_operation_limit = some 100;
  total_keep_limit = none;
  total_web_limit = none;
  user_operation_limit = some 10;
  user_keep_limit = some 5;
  user_web_limit = some 5;
}

abbrev answer : ℕ → Answer
answer attempt = if attempt == 1 then conflicts else completes

abbrev fresh : Counters
fresh k = none

abbrev counter : ℕ → QuotaKind → Key
counter subject kind = record { subject_id = subject; period = 3; kind = kind }

-- The table after the keep of two units.
abbrev kept_two : Counters
kept_two =
    set_row (counter 7 keep) 2
      (set_row (counter 7 operation) 2 (set_row (counter 0 operation) 2 fresh))

two_kept : consume cfg 3 answer (λ i. fresh) 3 7 keep_text 2 ≡ accepted 2 kept_two
unfolding consume consume_limits consume_row
two_kept = refl

consume_accepted_example :
    All (λ l. used kept_two (key_of 3 l) ≤ l.limit) (limits cfg 7 keep_text)
    × ((k : Key) → used kept_two k ≡ used fresh k + 2 * occurrences 3 k (limits cfg 7 keep_text))
consume_accepted_example =
    consume_accepted cfg 3 answer (λ i. fresh) 3 7 keep_text 2 2 kept_two (omega arith)
      (λ e. absurd (omega (arith, e))) two_kept

consume-Explains_example :
    (limits cfg 7 keep_text ≡ []) × (consume cfg 3 answer (λ i. fresh) 3 7 keep_text 2 ≡ unlimited)
    ⊎ Explains answer
        (λ i. fresh)
        3
        2
        (limits cfg 7 keep_text)
        1
        3
        (consume cfg 3 answer (λ i. fresh) 3 7 keep_text 2)
consume-Explains_example = consume-Explains cfg 3 answer (λ i. fresh) 3 7 keep_text 2 (omega arith)

abbrev operations_of : ℕ → ℕ → Limit
operations_of subject limit = record { subject_id = subject; kind = operation; limit = limit }

abbrev two_limits : List Limit
two_limits = operations_of 0 100 ∷ operations_of 7 1 ∷ []

-- The second limit has no room for two units, so the first counter is not charged either.
consume_limits_atomic_example : consume_limits 3 2 two_limits fresh ≡ (
    if all_by (has_room 3 2 fresh) two_limits
    then charged (charge_all 3 2 two_limits fresh)
    else refused (reached 3 2 two_limits fresh operation))
consume_limits_atomic_example = consume_limits_atomic 3 2 two_limits fresh ((refl, tt), (tt, tt))
