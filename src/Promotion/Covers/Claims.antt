-- ===== src/Promotion/Covers/Claims.antt =====
-- src/aizk/graph/dedupe.py: the rows of a batch of claims, and the table after their insert.
use aizk.Base.{
  ℕ, suc, ◌≡◌, refl, ◌∙◌, subst, ap, inl, inr, Bool, true, false, ◌&&◌, ◌||◌, Bool-cases, none,
  List, [], ◌∷◌, ◌==◌, ==_iff, ==_refl, any_by, All, text_eq, text_eq_iff, text_eq_refl, Text,
}
use aizk.Promotion.{FactClaim, is_open}
use aizk.Promotion.Ground.{same_statement, put, unique_from, is_standing, insert_claims}

abbrev pub has_key : ℕ → Text → FactClaim → Bool
has_key content perspective d = (d.content_id == content) && text_eq d.perspective_key perspective

-- An open claim on the statement in the target.
abbrev pub open_with : List ℕ → ℕ → Text → FactClaim → Bool
open_with target content perspective d =
    is_open d.recorded_to && (has_key content perspective d && text_eq d.scopes target)

key-eq :
    (a b : FactClaim)
    → same_statement a b ≡ true
    → (a.content_id ≡ b.content_id) × (a.perspective_key ≡ b.perspective_key)
key-eq a b e = elim (Bool-cases (a.content_id == b.content_id)) [
  | inl x ↦
      let y : text_eq a.perspective_key b.perspective_key ≡ true =
        subst (λ (t : Bool). (t && text_eq a.perspective_key b.perspective_key) ≡ true) x e in
      (
        (==_iff a.content_id b.content_id).0 x,
        (text_eq_iff a.perspective_key b.perspective_key).0 y,
      )
  | inr x ↦ cc (subst (λ (t : Bool). (t && text_eq a.perspective_key b.perspective_key) ≡ true) x e)
]

has_key-same :
    (content : ℕ) (perspective : Text) (a b : FactClaim)
    → same_statement a b ≡ true
    → has_key content perspective a ≡ has_key content perspective b
has_key-same content perspective a b e =
    let (x, y) = key-eq a b e in
    ap (λ (n : ℕ). (n == content) && text_eq a.perspective_key perspective) x
    ∙ ap (λ (t : Text). (b.content_id == content) && text_eq t perspective) y

or_right : (a b : Bool) → b ≡ true → (a || b) ≡ true
or_right true b e = refl
or_right false b e = e

or_mono : (a b c : Bool) → (b ≡ true → c ≡ true) → (a || b) ≡ true → (a || c) ≡ true
or_mono true b c f e = refl
or_mono false b c f e = f e

has_key_self : (c : FactClaim) → has_key c.content_id c.perspective_key c ≡ true
has_key_self c = rw (==_refl c.content_id, text_eq_refl c.perspective_key) refl

module _ (content : ℕ) (perspective : Text) where
  put-keeps :
      (c : FactClaim) (ds : List FactClaim)
      → any_by (has_key content perspective) ds ≡ true
      → any_by (has_key content perspective) (put c ds) ≡ true
  put-keeps c [] e = cc
  put-keeps c (d ∷ ds) e = elim (Bool-cases (same_statement d c)) [
    | inl b ↦ rw b (rw (← has_key-same content perspective d c b) e)
    | inr b ↦ rw b (
        or_mono (has_key content perspective d) (any_by (has_key content perspective) ds)
          (any_by (has_key content perspective) (put c ds)) (put-keeps c ds) e)
  ]

  unique-keeps :
      (rows done : List FactClaim)
      → any_by (has_key content perspective) done ≡ true
      → any_by (has_key content perspective) (unique_from done rows) ≡ true
  unique-keeps [] done e = e
  unique-keeps (c ∷ cs) done e = unique-keeps cs (put c done) (put-keeps c done e)

put-has :
    (c : FactClaim) (ds : List FactClaim)
    → any_by (has_key c.content_id c.perspective_key) (put c ds) ≡ true
put-has c [] = rw (has_key_self c) refl
put-has c (d ∷ ds) = elim (Bool-cases (same_statement d c)) [
  | inl b ↦ rw (b, has_key_self c) refl
  | inr b ↦ rw b (or_right (has_key c.content_id c.perspective_key d) _ (put-has c ds))
]

-- The batch keeps a row for each statement that it names.
pub unique-has :
    (rows done : List FactClaim)
    → All
        (λ (c : FactClaim).
          any_by (has_key c.content_id c.perspective_key) (unique_from done rows) ≡ true)
        rows
unique-has [] done = tt
unique-has (c ∷ cs) done = (
  unique-keeps c.content_id c.perspective_key cs (put c done) (put-has c done),
  unique-has cs (put c done),
)

-- The rows of a batch are open and stand in the target.
abbrev pub IsRow : List ℕ → FactClaim → Type 0
IsRow target c = (c.recorded_to ≡ none) × (c.scopes ≡ target)

module _ (target : List ℕ) where
  put-IsRow :
      (c : FactClaim) (ds : List FactClaim)
      → IsRow target c
      → All (IsRow target) ds
      → All (IsRow target) (put c ds)
  put-IsRow c [] h hs = (h, tt)
  put-IsRow c (d ∷ ds) h hs = elim (Bool-cases (same_statement d c)) [
    | inl b ↦ rw b (h, hs.1)
    | inr b ↦ rw b (hs.0, put-IsRow c ds h hs.1)
  ]

  pub unique-IsRow :
      (rows done : List FactClaim)
      → All (IsRow target) rows
      → All (IsRow target) done
      → All (IsRow target) (unique_from done rows)
  unique-IsRow [] done hs hd = hd
  unique-IsRow (c ∷ cs) done hs hd = unique-IsRow cs (put c done) hs.1 (put-IsRow c done hs.0 hd)

module _ (p : FactClaim → Bool) where
  insert-keeps :
      (rows : List FactClaim) (n : ℕ) (claims : List FactClaim)
      → any_by p claims ≡ true
      → any_by p (insert_claims n rows claims).1 ≡ true
  insert-keeps [] n claims e = e
  insert-keeps (c ∷ cs) n claims e = elim (Bool-cases (any_by (is_standing c) claims)) [
    | inl b ↦ rw b (insert-keeps cs n claims e)
    | inr b ↦ rw b (
        insert-keeps cs (suc n) (record c { id = n } ∷ claims)
          (or_right (p (record c { id = n })) (any_by p claims) e))
  ]

pub insert-stands :
    (target : List ℕ) (rows : List FactClaim) (n : ℕ) (claims : List FactClaim)
    → All (IsRow target) rows
    → All (λ (c : FactClaim). any_by (is_standing c) (insert_claims n rows claims).1 ≡ true) rows
insert-stands target [] n claims h = tt
insert-stands target (c ∷ cs) n claims h =
    let Stands = λ (r : ℕ × List FactClaim).
      All (λ (x : FactClaim). any_by (is_standing x) r.1 ≡ true) (c ∷ cs) in
    elim (Bool-cases (any_by (is_standing c) claims)) [
      | inl b ↦
          let skips : insert_claims n cs claims ≡ insert_claims n (c ∷ cs) claims = rw b refl in
          subst Stands skips
            (insert-keeps (is_standing c) cs n claims b, insert-stands target cs n claims h.1)
      | inr b ↦
          let new : FactClaim = record c { id = n } in
          let stands : is_standing c new ≡ true =
            simp (
              h.0.0,
              ==_refl c.content_id,
              text_eq_refl c.perspective_key,
              text_eq_refl c.scopes,
            ) in
          let adds : insert_claims (suc n) cs (new ∷ claims) ≡ insert_claims n (c ∷ cs) claims =
            rw b refl in
          subst Stands adds (
            insert-keeps (is_standing c) cs (suc n) (new ∷ claims) (rw stands refl),
            insert-stands target cs (suc n) (new ∷ claims) h.1,
          )
    ]

-- The row that is kept for a statement stands for it.
pub stands_with :
    (target : List ℕ) (content : ℕ) (perspective : Text) (rows claims : List FactClaim)
    → All (IsRow target) rows
    → any_by (has_key content perspective) rows ≡ true
    → All (λ (c : FactClaim). any_by (is_standing c) claims ≡ true) rows
    → any_by (open_with target content perspective) claims ≡ true
stands_with target content perspective [] claims h e st = cc
stands_with target content perspective (c ∷ cs) claims h e st =
    elim (Bool-cases (has_key content perspective c)) [
      | inl b ↦
          let (x, y) = key-eq c (at_key content perspective c) b in
          subst (λ (n : ℕ). any_by (open_with target n perspective) claims ≡ true) x
            (subst (λ (t : Text). any_by (open_with target c.content_id t) claims ≡ true) y
              (subst
                (λ (sc : List ℕ).
                  any_by (open_with sc c.content_id c.perspective_key) claims ≡ true)
                h.0.1 st.0))
      | inr b ↦
          stands_with target content perspective cs claims h.1
            (subst (λ (t : Bool). (t || any_by (has_key content perspective) cs) ≡ true) b e) st.1
    ]
  where
    at_key : ℕ → Text → FactClaim → FactClaim
    at_key n t c = record c { content_id = n; perspective_key = t }
