-- ===== src/Watermark/Refines.antt =====
-- src/aizk/store/models/tables/watermark.py: the table as a function from keys to counts, in which a
-- row that is not there counts as zero.
use aizk.Base.{
  ℕ, ◌+◌, ◌-◌, ◌≡◌, ◌⊎◌, inl, inr, refl, ap, sym, ◌∙◌, subst, Bool, true, false, not, ◌&&◌, ◌||◌,
  Bool-cases, Option, none, some, List, [], ◌∷◌, Text, one_of, first_of, text_eq, text_eq_iff,
  if◌then◌else◌, arith,
}
use aizk.Watermark.{
  Kind, Key, key_of, same_scope, key_eq, Watermark, has_row, read, fresh_row, raised, bump,
  bump_each, bump_many, amount, lowered, consume, replaced, set_value, Statement, bumped,
  bumped_many, consumed, set_to, perform, performed,
}
use aizk.Watermark.Rows.{read-map, read-absent, read-upsert}

abbrev pub Counts : Type 0
Counts = Key → ℕ

abbrev pub or_zero : Option ℕ → ℕ
or_zero none = 0
or_zero (some n) = n

-- What each statement means for the counts.
abbrev pub counts_after : Statement → Counts → Counts
counts_after (bumped k by now) f = λ l. if key_eq l k then f l + by else f l
counts_after (bumped_many scopes kind refs by now) f =
    λ l. if same_scope scopes kind l && one_of l.ref refs then f l + by else f l
counts_after (consumed scopes kind counters now) f =
    λ l. if same_scope scopes kind l then f l - or_zero (amount l.ref counters) else f l
counts_after (set_to k counter payload now) f = λ l. if key_eq l k then counter else f l

abbrev pub counts_of : List Statement → Counts → Counts
counts_of [] f = f
counts_of (s ∷ ss) f = counts_of ss (counts_after s f)

abbrev pub counts : List Watermark → Counts
counts rows = λ k. read k rows

pub read-bump :
    (l k : Key) (by now : ℕ) (rows : List Watermark)
    → read l (bump k by now rows) ≡ (if key_eq l k then read l rows + by else read l rows)
unfolding bump
read-bump l k by now rows =
    read-upsert l (fresh_row k by now) (raised by now) (λ n. n + by) rows (λ r. refl) (λ r. refl)
      (omega arith)

pub read-set_value :
    (l k : Key) (counter : ℕ) (payload : Text) (now : ℕ) (rows : List Watermark)
    → read l (set_value k counter payload now rows) ≡ (if key_eq l k then counter else read l rows)
unfolding set_value
read-set_value l k counter payload now rows =
    read-upsert l (record { key = k; counter = counter; payload = payload; updated_at = now })
      (replaced counter payload now) (λ n. counter) rows (λ r. refl) (λ r. refl) refl

pub read-consume :
    (l : Key) (scopes : List ℕ) (kind : Kind) (counters : List (Text × ℕ)) (now : ℕ)
    (rows : List Watermark)
    → read l (consume scopes kind counters now rows) ≡ (
        if same_scope scopes kind l
        then read l rows - or_zero (amount l.ref counters)
        else read l rows)
unfolding consume
read-consume l scopes kind counters now rows = elim (Bool-cases (same_scope scopes kind l)) [
  | inl b ↦
      read-map l change (λ n. n - or_zero (amount l.ref counters)) rows kept (λ r e. hit b r e)
      ∙ rw b (or_absent (Bool-cases (has_row l rows)) (or_zero (amount l.ref counters)))
  | inr b ↦
      read-map l change (λ n. n) rows kept (λ r e. missed b r e)
      ∙ rw b (or_absent_id (Bool-cases (has_row l rows)))
]
  where
    change : Watermark → Watermark
    change r = if same_scope scopes kind r.key then lowered now (amount r.key.ref counters) r else r

    kept_by : (o : Option ℕ) (r : Watermark) → (lowered now o r).key ≡ r.key
    kept_by none r = refl
    kept_by (some n) r = refl

    kept : (r : Watermark) → (change r).key ≡ r.key
    kept r = elim (Bool-cases (same_scope scopes kind r.key)) [
      | inl c ↦ simp (c, kept_by (amount r.key.ref counters) r)
      | inr c ↦ simp c
    ]

    taken : (o : Option ℕ) (r : Watermark) → (lowered now o r).counter ≡ r.counter - or_zero o
    taken none r = omega arith
    taken (some n) r = refl

    hit :
        same_scope scopes kind l ≡ true
        → (r : Watermark) → r.key ≡ l
        → (change r).counter ≡ r.counter - or_zero (amount l.ref counters)
    hit b r e =
        let c = subst (λ (x : Key). same_scope scopes kind x ≡ true) (sym e) b in
        subst (λ (x : Key). (change r).counter ≡ r.counter - or_zero (amount x.ref counters)) e
          (simp (c, taken (amount r.key.ref counters) r))

    missed :
        same_scope scopes kind l ≡ false
        → (r : Watermark) → r.key ≡ l
        → (change r).counter ≡ r.counter
    missed b r e = let c = subst (λ (x : Key). same_scope scopes kind x ≡ false) (sym e) b in simp c

    or_absent :
        (has_row l rows ≡ true) ⊎ (has_row l rows ≡ false)
        → (n : ℕ) → (if has_row l rows then read l rows - n else 0) ≡ read l rows - n
    or_absent (inl c) n = rw c refl
    or_absent (inr c) n = rw (c, read-absent l rows c) (omega arith)

    or_absent_id :
        (has_row l rows ≡ true) ⊎ (has_row l rows ≡ false)
        → (if has_row l rows then read l rows else 0) ≡ read l rows
    or_absent_id (inl c) = rw c refl
    or_absent_id (inr c) = rw c (sym (read-absent l rows c))

old_ref :
    (s t r n : Bool) (x y : ℕ)
    → (t ≡ true → n ≡ true)
    → (if s && (r && not n) then x else y) ≡ (if s && ((t || r) && not n) then x else y)
old_ref s false r n x y h = refl
old_ref s true r n x y h = rw (h refl) (no_one (s) (r) x y)
  where
    no_one :
        (s r : Bool) (x y : ℕ)
        → (if s && (r && false) then x else y) ≡ (if s && false then x else y)
    no_one s true x y = refl
    no_one s false x y = refl

new_ref :
    (s t r n : Bool) (by x : ℕ)
    → (t ≡ true → n ≡ false)
    → (if s && (r && not (t || n))
        then (if s && t then x + by else x) + by
        else (if s && t then x + by else x))
      ≡ (if s && ((t || r) && not n) then x + by else x)
new_ref false t r n by x h = refl
new_ref true false r n by x h = refl
new_ref true true r n by x h = rw (h refl) (just_once r (x + by))
  where
    just_once : (r : Bool) (y : ℕ) → (if r && false then y + by else y) ≡ y
    just_once true y = refl
    just_once false y = refl

-- Each reference of a batch is raised once, also when it is named twice.
read-bump_each :
    (l : Key) (scopes : List ℕ) (kind : Kind) (refs seen : List Text) (by now : ℕ)
    (rows : List Watermark)
    → read l (bump_each scopes kind (first_of seen refs) by now rows) ≡ (
        if same_scope scopes kind l && (one_of l.ref refs && not (one_of l.ref seen))
        then read l rows + by
        else read l rows)
read-bump_each l scopes kind [] seen by now rows = elim (Bool-cases (same_scope scopes kind l)) [
  | inl b ↦ rw b refl
  | inr b ↦ rw b refl
]
read-bump_each l scopes kind (ref ∷ refs) seen by now rows = elim (Bool-cases (one_of ref seen)) [
  | inl old ↦ rw old (
      read-bump_each l scopes kind refs seen by now rows
      ∙ old_ref (same_scope scopes kind l) (text_eq l.ref ref) (one_of l.ref refs)
          (one_of l.ref seen) (read l rows + by) (read l rows) (as_ref true old))
  | inr new ↦
      let later = bump (key_of scopes kind ref) by now rows in
      let value = λ (n : ℕ).
        if same_scope scopes kind l && (one_of l.ref refs && not (one_of l.ref (ref ∷ seen)))
        then n + by
        else n in
      rw new (
        read-bump_each l scopes kind refs (ref ∷ seen) by now later
        ∙ ap value (read-bump l (key_of scopes kind ref) by now rows)
        ∙ new_ref (same_scope scopes kind l) (text_eq l.ref ref) (one_of l.ref refs)
            (one_of l.ref seen) by (read l rows) (as_ref false new))
]
  where
    as_ref : (b : Bool) → one_of ref seen ≡ b → text_eq l.ref ref ≡ true → one_of l.ref seen ≡ b
    as_ref b e t = subst (λ (x : Text). one_of x seen ≡ b) (sym ((text_eq_iff l.ref ref).0 t)) e

perform-refines :
    (l : Key) (s : Statement) (rows : List Watermark)
    → read l (perform s rows) ≡ counts_after s (counts rows) l
unfolding bump_many
perform-refines l (bumped k by now) rows = read-bump l k by now rows
perform-refines l (bumped_many scopes kind refs by now) rows =
    read-bump_each l scopes kind refs [] by now rows
    ∙ not_seen (same_scope scopes kind l) (one_of l.ref refs) (read l rows + by) (read l rows)
  where
    not_seen :
        (s r : Bool) (x y : ℕ) → (if s && (r && true) then x else y) ≡ (if s && r then x else y)
    not_seen s true x y = refl
    not_seen s false x y = refl
perform-refines l (consumed scopes kind counters now) rows =
    read-consume l scopes kind counters now rows
perform-refines l (set_to k counter payload now) rows = read-set_value l k counter payload now rows

counts_of-ext :
    (ss : List Statement) (f g : Counts)
    → ((k : Key) → f k ≡ g k)
    → (k : Key) → counts_of ss f k ≡ counts_of ss g k
counts_of-ext ss f g h k = ap (λ (x : Counts). counts_of ss x k) (λ i. λ l. h l i)

-- Any sequence of statements changes what every key reads as its meaning on counts says: a table in
-- which missing rows, rows that are there, and references that a batch names twice cannot be told
-- apart but by their counts.
pub read-performed :
    (ss : List Statement) (rows : List Watermark) (l : Key)
    → read l (performed ss rows) ≡ counts_of ss (counts rows) l
unfolding performed
read-performed [] rows l = refl
read-performed (s ∷ ss) rows l =
    read-performed ss (perform s rows) l
    ∙ counts_of-ext ss (counts (perform s rows)) (counts_after s (counts rows))
        (λ k. perform-refines k s rows) l
