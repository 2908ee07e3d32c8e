-- ===== src/Quota/Attempts.antt =====
-- The retry loop of `MonthlyQuota.consume` in src/aizk/store/quota.py: how it ends.
use native.Mathlib.Decide.{ℕ_discrete}
use aizk.Base.{
  ℕ, zero, suc, ◌+◌, ◌-◌, ◌*◌, ◌≤◌, ◌<◌, ◌≡◌, ◌≢◌, refl, sym, subst, ◌⊎◌, inl, inr, List, [], ◌∷◌,
  All, arith,
}
use aizk.Quota.{
  Key, Counters, Limit, Settings, Operation, limits, Charged, charged, refused, consume_limits,
  Answer, completes, conflicts, breaks, ended, Outcome, unlimited, accepted, exceeded,
  database_error, consume_from, consume, key_of,
}
use aizk.Quota.Charges.{
  used, occurrences, limits-AreDistinct, consume_limits_adds, consume_limits_within,
}

-- The loop comes to the attempt `i`: every attempt before it met a conflict.
abbrev pub Reaches : (ℕ → Answer) → ℕ → ℕ → ℕ → Type 0
Reaches answer first last i =
    (first ≤ i) × (i ≤ last) × ((j : ℕ) → first ≤ j → j < i → answer j ≡ conflicts)

-- What each way to end says, for a loop that starts at the attempt `first`.
abbrev pub Explains : (ℕ → Answer) → (ℕ → Counters) → ℕ → ℕ → List Limit → ℕ → ℕ → Outcome → Type 0
Explains answer seen period units ls first last unlimited = ⊥
Explains answer seen period units ls first last (accepted i table) =
    Reaches answer first last i
    × (answer i ≡ completes)
    × (consume_limits period units ls (seen i) ≡ charged table)
Explains answer seen period units ls first last (exceeded kind) =
    (i : ℕ) × Reaches answer first last i
    × (answer i ≡ completes)
    × (consume_limits period units ls (seen i) ≡ refused kind)
Explains answer seen period units ls first last (database_error i) =
    Reaches answer first last i × ((answer i ≡ breaks) ⊎ (answer i ≡ conflicts) × (i ≡ last))

Answer-cases : (a : Answer) → (a ≡ completes) ⊎ ((a ≡ conflicts) ⊎ (a ≡ breaks))
Answer-cases completes = inl refl
Answer-cases conflicts = inr (inl refl)
Answer-cases breaks = inr (inr refl)

module _ (answer : ℕ → Answer) (seen : ℕ → Counters) (period units : ℕ) (ls : List Limit) where
  Reaches-first : (first last : ℕ) → first ≤ last → Reaches answer first last first
  Reaches-first first last le = (omega arith, le, λ j p q. absurd (omega arith))

  Reaches-earlier :
      (first last i : ℕ)
      → answer first ≡ conflicts
      → Reaches answer (first + 1) last i
      → Reaches answer first last i
  Reaches-earlier first last i c h = (
    omega arith,
    h.1,
    λ j a b. elim (ℕ_discrete first j) [ yes e ↦ rw (sym e) c | no n ↦ h.2 j (omega arith) b ],
  )

  earlier :
      (first last : ℕ) (o : Outcome)
      → answer first ≡ conflicts
      → Explains answer seen period units ls (first + 1) last o
      → Explains answer seen period units ls first last o
  earlier first last unlimited c h = h
  earlier first last (accepted i table) c h = (Reaches-earlier first last i c h.0, h.1, h.2)
  earlier first last (exceeded kind) c h = (h.0, Reaches-earlier first last h.0 c h.1, h.2, h.3)
  earlier first last (database_error i) c h = (Reaches-earlier first last i c h.0, h.1)

  ended-Explains :
      (first last : ℕ) (c : Charged)
      → first ≤ last
      → answer first ≡ completes
      → consume_limits period units ls (seen first) ≡ c
      → Explains answer seen period units ls first last (ended first c)
  ended-Explains first last (refused kind) le a e = (first, Reaches-first first last le, a, e)
  ended-Explains first last (charged table) le a e = (Reaches-first first last le, a, e)

  consume_from-Explains :
      (left first : ℕ)
      → Explains answer seen period units ls first
          (first + left)
          (consume_from answer seen period units ls left first)
  unfolding consume_from
  consume_from-Explains zero first = elim (Answer-cases (answer first)) [
    | inl a ↦ rw (a, consume_from) (ended-Explains first (first + 0) _ (omega arith) a refl)
    | inr (inl a) ↦
        rw (a, consume_from) (Reaches-first first (first + 0) (omega arith), inr (a, omega arith))
    | inr (inr a) ↦ rw (a, consume_from) (Reaches-first first (first + 0) (omega arith), inl a)
  ]
  consume_from-Explains (suc left) first =
      let later = consume_from-Explains left (first + 1) in
      let sum : first + 1 + left ≡ first + suc left = omega arith in
      elim (Answer-cases (answer first)) [
        | inl a ↦
            rw (a, consume_from) (ended-Explains first (first + suc left) _ (omega arith) a refl)
        | inr (inl a) ↦
            rw (a, consume_from) (earlier first (first + suc left) _ a (rw sum at later))
        | inr (inr a) ↦
            rw (a, consume_from) (Reaches-first first (first + suc left) (omega arith), inl a)
      ]

module _ (cfg : Settings) (attempts : ℕ) (answer : ℕ → Answer) (seen : ℕ → Counters)
    (period user_id : ℕ) (op : Operation) (units : ℕ) where
  -- With at least one attempt, an operation that has a limit ends within its attempts, and every
  -- attempt before the one that ends it met a conflict: it is accepted with the counters of a
  -- transaction that charged every limit, refused by a transaction that could not charge one, or
  -- ends with a database error that is no conflict or is the conflict of the last attempt. An
  -- operation without a limit ends at once.
  pub consume-Explains :
      1 ≤ attempts
      → (limits cfg user_id op ≡ [])
          × (consume cfg attempts answer seen period user_id op units ≡ unlimited)
        ⊎ Explains answer seen period units
            (limits cfg user_id op)
            1
            attempts
            (consume cfg attempts answer seen period user_id op units)
  unfolding consume
  consume-Explains h = go (limits cfg user_id op) refl
    where
      sum : 1 + (attempts - 1) ≡ attempts
      sum = omega arith

      go :
          (ls : List Limit)
          → limits cfg user_id op ≡ ls
          → (ls ≡ []) × (consume cfg attempts answer seen period user_id op units ≡ unlimited)
            ⊎ Explains answer seen period units ls 1 attempts
                (consume cfg attempts answer seen period user_id op units)
      go [] e = inl (refl, rw (e, consume) refl)
      go (l ∷ ls) e = inr (
          rw (e, consume)
            (rw sum at (consume_from-Explains answer seen period units (l ∷ ls) (attempts - 1) 1)))

  -- What an accepted operation of a caller other than the system user leaves in the table: every
  -- counter of the operation is within its limit, and each counter has grown by the units for
  -- every limit that it stands for, from the table that its transaction saw.
  pub consume_accepted :
      (i : ℕ) (table : Counters)
      → 1 ≤ attempts
      → user_id ≢ cfg.system_user_id
      → consume cfg attempts answer seen period user_id op units ≡ accepted i table
      → All (λ l. used table (key_of period l) ≤ l.limit) (limits cfg user_id op)
        × ((k : Key)
            → used table k ≡ used (seen i) k + units * occurrences period k (limits cfg user_id op))
  consume_accepted i table h ne e = elim (consume-Explains h) [
    | inl (none_set, free) ↦ absurd (cc (free, e))
    | inr x ↦
        let ends =
          (subst (Explains answer seen period units (limits cfg user_id op) 1 attempts) e x).2 in
        (
          consume_limits_within period units (limits cfg user_id op) (seen i) table
              (limits-AreDistinct cfg period user_id op ne) ends,
          λ k. consume_limits_adds period units (limits cfg user_id op) (seen i) table k ends,
        )
  ]
