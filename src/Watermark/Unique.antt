-- ===== src/Watermark/Unique.antt =====
-- src/aizk/store/models/tables/watermark.py: no statement makes two rows of one key, which the unique
-- constraint demands.
use aizk.Base.{
  ℕ, ◌≡◌, inl, inr, refl, sym, ◌∙◌, subst, true, false, Bool-cases, Option, none, some, List, [],
  ◌∷◌, ◌++◌, Text, map, first_of, if◌then◌else◌, arith, In,
}
use aizk.Watermark.{
  Kind, Key, key_of, same_scope, key_eq, Watermark, has_row, upsert, read, fresh_row, raised, bump,
  bump_each, bump_many, amount, lowered, consume, replaced, set_value, Statement, bumped,
  bumped_many, consumed, set_to, perform, performed,
}
use aizk.Watermark.Rows.{key_eq→eq, key_eq_refl}

-- No two rows of one key, which the table's unique constraint demands.
abbrev pub IsUnique : List Watermark → Type 0
IsUnique [] = Unit
IsUnique (r ∷ rows) = (has_row r.key rows ≡ false) × IsUnique rows

has_row-map :
    (k : Key) (g : Watermark → Watermark) (rows : List Watermark)
    → ((r : Watermark) → (g r).key ≡ r.key)
    → has_row k (map g rows) ≡ has_row k rows
has_row-map k g [] same = refl
has_row-map k g (r ∷ rows) same = rw (same r, has_row-map k g rows same) refl

IsUnique-map :
    (g : Watermark → Watermark) (rows : List Watermark)
    → ((r : Watermark) → (g r).key ≡ r.key)
    → IsUnique rows
    → IsUnique (map g rows)
IsUnique-map g [] same h = tt
IsUnique-map g (r ∷ rows) same h = (
  subst (λ (k : Key). has_row k (map g rows) ≡ false) (sym (same r))
      (has_row-map r.key g rows same ∙ h.0),
  IsUnique-map g rows same h.1,
)

has_row-append :
    (k : Key) (fresh : Watermark) (rows : List Watermark)
    → has_row k rows ≡ false
    → key_eq fresh.key k ≡ false
    → has_row k (rows ++ fresh ∷ []) ≡ false
has_row-append k fresh [] h e = rw e refl
has_row-append k fresh (r ∷ rows) h e = elim (Bool-cases (key_eq r.key k)) [
  | inl b ↦ ground arith
  | inr b ↦ rw (b, has_row-append k fresh rows (ground arith) e) refl
]

IsUnique-append :
    (fresh : Watermark) (rows : List Watermark)
    → has_row fresh.key rows ≡ false
    → IsUnique rows
    → IsUnique (rows ++ fresh ∷ [])
IsUnique-append fresh [] h u = (refl, tt)
IsUnique-append fresh (r ∷ rows) h u = elim (Bool-cases (key_eq r.key fresh.key)) [
  | inl b ↦ ground arith
  | inr b ↦ (
    has_row-append r.key fresh rows u.0 (elim (Bool-cases (key_eq fresh.key r.key)) [
      | inl c ↦
          let same =
            subst (λ (x : Key). key_eq x fresh.key ≡ true) (key_eq→eq fresh.key r.key c)
              (key_eq_refl fresh.key) in
          cc
      | inr c ↦ c
    ]),
    IsUnique-append fresh rows (ground arith) u.1,
  )
]

IsUnique-upsert :
    (fresh : Watermark) (change : Watermark → Watermark) (rows : List Watermark)
    → ((r : Watermark) → (change r).key ≡ r.key)
    → IsUnique rows
    → IsUnique (upsert fresh change rows)
IsUnique-upsert fresh change rows same u = elim (Bool-cases (has_row fresh.key rows)) [
  | inl present ↦ rw present (IsUnique-map update rows kept u)
  | inr absent ↦ rw absent (IsUnique-append fresh rows absent u)
]
  where
    update : Watermark → Watermark
    update r = if key_eq r.key fresh.key then change r else r

    kept : (r : Watermark) → (update r).key ≡ r.key
    kept r = elim (Bool-cases (key_eq r.key fresh.key)) [
      | inl c ↦ simp (c, same r)
      | inr c ↦ simp c
    ]

IsUnique-bump :
    (k : Key) (by now : ℕ) (rows : List Watermark) → IsUnique rows → IsUnique (bump k by now rows)
unfolding bump
IsUnique-bump k by now rows u =
    IsUnique-upsert (fresh_row k by now) (raised by now) rows (λ r. refl) u

IsUnique-bump_each :
    (scopes : List ℕ) (kind : Kind) (refs : List Text) (by now : ℕ) (rows : List Watermark)
    → IsUnique rows
    → IsUnique (bump_each scopes kind refs by now rows)
IsUnique-bump_each scopes kind [] by now rows u = u
IsUnique-bump_each scopes kind (ref ∷ refs) by now rows u =
    IsUnique-bump_each scopes kind refs by now (bump (key_of scopes kind ref) by now rows)
      (IsUnique-bump (key_of scopes kind ref) by now rows u)

lowered_key : (now : ℕ) (o : Option ℕ) (r : Watermark) → (lowered now o r).key ≡ r.key
lowered_key now none r = refl
lowered_key now (some n) r = refl

IsUnique-perform :
    (s : Statement) (rows : List Watermark) → IsUnique rows → IsUnique (perform s rows)
unfolding bump_many consume set_value
IsUnique-perform (bumped k by now) rows u = IsUnique-bump k by now rows u
IsUnique-perform (bumped_many scopes kind refs by now) rows u =
    IsUnique-bump_each scopes kind (first_of [] refs) by now rows u
IsUnique-perform (consumed scopes kind counters now) rows u =
    IsUnique-map
      (λ (r : Watermark).
        if same_scope scopes kind r.key then lowered now (amount r.key.ref counters) r else r)
      rows kept u
  where
    kept :
        (r : Watermark)
        → (if same_scope scopes kind r.key
            then lowered now (amount r.key.ref counters) r
            else r).key
          ≡ r.key
    kept r = elim (Bool-cases (same_scope scopes kind r.key)) [
      | inl c ↦ simp (c, lowered_key now (amount r.key.ref counters) r)
      | inr c ↦ simp c
    ]
IsUnique-perform (set_to k counter payload now) rows u =
    IsUnique-upsert (record { key = k; counter = counter; payload = payload; updated_at = now })
      (replaced counter payload now) rows (λ r. refl) u

pub IsUnique-performed :
    (ss : List Statement) (rows : List Watermark) → IsUnique rows → IsUnique (performed ss rows)
unfolding performed
IsUnique-performed [] rows u = u
IsUnique-performed (s ∷ ss) rows u =
    IsUnique-performed ss (perform s rows) (IsUnique-perform s rows u)

In-has_row : (r : Watermark) (rows : List Watermark) → In r rows → has_row r.key rows ≡ true
In-has_row r [] m = elim m [ ]
In-has_row r (x ∷ rows) (inl e) = rw (e, key_eq_refl r.key) refl
In-has_row r (x ∷ rows) (inr m) = elim (Bool-cases (key_eq x.key r.key)) [
  | inl b ↦ rw b refl
  | inr b ↦ rw (b, In-has_row r rows m) refl
]

-- Each row of such a table is what its key reads.
pub read-In :
    (r : Watermark) (rows : List Watermark)
    → IsUnique rows
    → In r rows
    → read r.key rows ≡ r.counter
unfolding read
read-In r [] u m = elim m [ ]
read-In r (x ∷ rows) u (inl e) = rw e (simp (key_eq_refl r.key))
read-In r (x ∷ rows) u (inr m) = elim (Bool-cases (key_eq x.key r.key)) [
  | inl b ↦
      let there =
        subst (λ (k : Key). has_row k rows ≡ true) (sym (key_eq→eq x.key r.key b))
          (In-has_row r rows m) in
      let absent = u.0 in cc
  | inr b ↦ simp (b, read-In r rows u.1 m)
]
