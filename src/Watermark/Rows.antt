-- ===== src/Watermark/Rows.antt =====
-- src/aizk/store/models/tables/watermark.py: what one key reads after an upsert or an update.
use aizk.Base.{
  ℕ, ◌≡◌, ◌⊎◌, inl, inr, refl, ap, sym, ◌∙◌, subst, Bool, true, false, ◌&&◌, Bool-cases, List, [],
  ◌∷◌, ◌++◌, map, text_eq, text_eq_iff, text_eq_refl, ◌==◌, ==_iff, ==_refl, if◌then◌else◌, arith,
}
use aizk.Watermark.{
  Kind, entity_dirty, fact_count, raptor_fact_count, config, kind_rank, Key, same_scope, key_eq,
  Watermark, has_row, row_of, upsert, counted, read,
}

abbrev kind_of : ℕ → Kind
kind_of n =
    if n == 0
    then entity_dirty
    else if n == 1
    then fact_count
    else if n == 2
    then raptor_fact_count
    else config

kind_of-rank : (a : Kind) → kind_of (kind_rank a) ≡ a
kind_of-rank entity_dirty = refl
kind_of-rank fact_count = refl
kind_of-rank raptor_fact_count = refl
kind_of-rank config = refl

kind_rank_inj : (a b : Kind) → kind_rank a ≡ kind_rank b → a ≡ b
kind_rank_inj a b e = sym (kind_of-rank a) ∙ ap kind_of e ∙ kind_of-rank b

and_both : (a b : Bool) → (a && b) ≡ true → (a ≡ true) × (b ≡ true)
and_both true true e = (refl, refl)
and_both true false e = cc
and_both false b e = cc

same_fields : (k l : Key) → k.scopes ≡ l.scopes → k.kind ≡ l.kind → k.ref ≡ l.ref → k ≡ l
same_fields k l e f g = cc

pub key_eq→eq : (k l : Key) → key_eq k l ≡ true → k ≡ l
key_eq→eq k l e =
    let (a, b) = and_both (same_scope l.scopes l.kind k) (text_eq k.ref l.ref) e in
    let (c, d) = and_both (text_eq k.scopes l.scopes) (kind_rank k.kind == kind_rank l.kind) a in
    same_fields k l ((text_eq_iff k.scopes l.scopes).0 c)
      (kind_rank_inj k.kind l.kind ((==_iff (kind_rank k.kind) (kind_rank l.kind)).0 d))
      ((text_eq_iff k.ref l.ref).0 b)

pub key_eq_refl : (k : Key) → key_eq k k ≡ true
key_eq_refl k = rw (text_eq_refl k.scopes, ==_refl (kind_rank k.kind), text_eq_refl k.ref) refl

-- A change of every row that keeps the keys changes what is read as it changes the counter.
pub read-map :
    (k : Key) (g : Watermark → Watermark) (h : ℕ → ℕ) (rows : List Watermark)
    → ((r : Watermark) → (g r).key ≡ r.key)
    → ((r : Watermark) → r.key ≡ k → (g r).counter ≡ h r.counter)
    → read k (map g rows) ≡ (if has_row k rows then h (read k rows) else 0)
unfolding read
read-map k g h [] same changed = refl
read-map k g h (r ∷ rows) same changed = elim (Bool-cases (key_eq r.key k)) [
  | inl e ↦ simp (same r, e, changed r (key_eq→eq r.key k e))
  | inr e ↦ simp (same r, e, read-map k g h rows same changed)
]

pub read-absent : (k : Key) (rows : List Watermark) → has_row k rows ≡ false → read k rows ≡ 0
unfolding read
read-absent k [] e = refl
read-absent k (r ∷ rows) e = elim (Bool-cases (key_eq r.key k)) [
  | inl b ↦ ground arith
  | inr b ↦ simp (b, read-absent k rows (ground arith))
]

read-append :
    (k : Key) (fresh : Watermark) (rows : List Watermark)
    → has_row fresh.key rows ≡ false
    → read k (rows ++ fresh ∷ []) ≡ (if key_eq k fresh.key then fresh.counter else read k rows)
unfolding read
read-append k fresh rows e = elim (Bool-cases (key_eq k fresh.key)) [
  | inl b ↦ let same = key_eq→eq k fresh.key b in rw (b, same) (at_end rows e)
  | inr b ↦ rw b (not_here b rows)
]
  where
    at_end :
        (rows : List Watermark)
        → has_row fresh.key rows ≡ false
        → counted (row_of fresh.key (rows ++ fresh ∷ [])) ≡ fresh.counter
    at_end [] e = simp (key_eq_refl fresh.key)
    at_end (r ∷ rows) e = elim (Bool-cases (key_eq r.key fresh.key)) [
      | inl c ↦ ground arith
      | inr c ↦ simp (c, at_end rows (ground arith))
    ]

    flipped : key_eq k fresh.key ≡ false → key_eq fresh.key k ≡ false
    flipped b = elim (Bool-cases (key_eq fresh.key k)) [
      | inl c ↦
          let same = key_eq→eq fresh.key k c in
          let again = subst (λ (x : Key). key_eq x fresh.key ≡ true) same (key_eq_refl fresh.key) in
          cc
      | inr c ↦ c
    ]

    not_here :
        key_eq k fresh.key ≡ false
        → (rows : List Watermark)
        → counted (row_of k (rows ++ fresh ∷ [])) ≡ counted (row_of k rows)
    not_here b [] = simp (flipped b)
    not_here b (r ∷ rows) = elim (Bool-cases (key_eq r.key k)) [
      | inl c ↦ simp c
      | inr c ↦ simp (c, not_here b rows)
    ]

-- What an upsert makes of the counter of every key.
pub read-upsert :
    (k : Key) (fresh : Watermark) (change : Watermark → Watermark) (h : ℕ → ℕ)
    (rows : List Watermark)
    → ((r : Watermark) → (change r).key ≡ r.key)
    → ((r : Watermark) → (change r).counter ≡ h r.counter)
    → fresh.counter ≡ h 0
    → read k (upsert fresh change rows)
      ≡ (if key_eq k fresh.key then h (read k rows) else read k rows)
read-upsert k fresh change h rows same changed start = elim (Bool-cases (has_row fresh.key rows)) [
  | inr absent ↦
      rw (absent, read-append k fresh rows absent)
        (fresh_one absent (Bool-cases (key_eq k fresh.key)))
  | inl present ↦ rw present (elim (Bool-cases (key_eq k fresh.key)) [
    | inl b ↦
        let there =
          subst (λ (x : Key). has_row x rows ≡ true) (sym (key_eq→eq k fresh.key b)) present in
        read-map k update h rows kept (λ r e. hit r (e ∙ key_eq→eq k fresh.key b))
        ∙ rw (there, b) refl
    | inr b ↦
        read-map k update (λ n. n) rows kept
          (λ r e. missed r (subst (λ (x : Key). key_eq x fresh.key ≡ false) (sym e) b))
        ∙ rw b (or_absent (Bool-cases (has_row k rows)))
  ])
]
  where
    update : Watermark → Watermark
    update r = if key_eq r.key fresh.key then change r else r

    kept : (r : Watermark) → (update r).key ≡ r.key
    kept r = elim (Bool-cases (key_eq r.key fresh.key)) [
      | inl c ↦ simp (c, same r)
      | inr c ↦ simp c
    ]

    hit : (r : Watermark) → r.key ≡ fresh.key → (update r).counter ≡ h r.counter
    hit r e =
        let c = subst (λ (x : Key). key_eq x fresh.key ≡ true) (sym e) (key_eq_refl fresh.key) in
        simp (c, changed r)

    missed : (r : Watermark) → key_eq r.key fresh.key ≡ false → (update r).counter ≡ r.counter
    missed r c = simp c

    or_absent :
        (has_row k rows ≡ true) ⊎ (has_row k rows ≡ false)
        → (if has_row k rows then read k rows else 0) ≡ read k rows
    or_absent (inl c) = rw c refl
    or_absent (inr c) = rw c (sym (read-absent k rows c))

    fresh_one :
        has_row fresh.key rows ≡ false
        → (key_eq k fresh.key ≡ true) ⊎ (key_eq k fresh.key ≡ false)
        → (if key_eq k fresh.key then fresh.counter else read k rows)
          ≡ (if key_eq k fresh.key then h (read k rows) else read k rows)
    fresh_one absent (inr b) = rw b refl
    fresh_one absent (inl b) =
        let none_there =
          subst (λ (x : Key). has_row x rows ≡ false) (sym (key_eq→eq k fresh.key b)) absent in
        rw (b, read-absent k rows none_there) start
