-- ===== src/Promotion/Standing/Finding.antt =====
-- src/aizk/graph/promote.py: rows found in a table of documents, before and after an insert or an
-- update.
use aizk.Base.{
  ℕ, ◌≡◌, refl, sym, ◌∙◌, subst, ap, inl, inr, ◌<◌, ◌≤◌, Bool, true, false, Bool-cases, none, some,
  List, [], ◌∷◌, map, ◌==◌, ==_iff, find_by, elem, In, if◌then◌else◌, arith,
}
use aizk.Promotion.{Document}
use aizk.Promotion.Carry.{row_of, at_row}

module _ {A : Type 0} (p : A → Bool) where
  pub find_by-In : (x : A) (xs : List A) → find_by p xs ≡ some x → In x xs × (p x ≡ true)
  find_by-In x [] e = cc
  find_by-In x (y ∷ ys) e = elim (Bool-cases (p y)) [
    | inl b ↦ let same : y ≡ x = ground arith in (inl same, subst (λ (t : A). p t ≡ true) same b)
    | inr b ↦ let (m, h) = find_by-In x ys (ground arith) in (inr m, h)
  ]

  -- A change of the rows that the test does not see.
  pub find_by-map :
      (g : A → A) (xs : List A) (x : A)
      → ((y : A) → p (g y) ≡ p y)
      → find_by p xs ≡ some x
      → find_by p (map g xs) ≡ some (g x)
  find_by-map g [] x h e = cc
  find_by-map g (y ∷ ys) x h e = elim (Bool-cases (p y)) [
    | inl b ↦ let same : y ≡ x = ground arith in rw (h y, b, same) refl
    | inr b ↦ rw (h y, b) (find_by-map g ys x h (ground arith))
  ]

  pub find_by-map-none :
      (g : A → A) (xs : List A)
      → ((y : A) → p (g y) ≡ p y)
      → find_by p xs ≡ none
      → find_by p (map g xs) ≡ none
  find_by-map-none g [] h e = refl
  find_by-map-none g (y ∷ ys) h e = elim (Bool-cases (p y)) [
    | inl b ↦ cc (subst (λ (t : Bool). (if t then some y else find_by p ys) ≡ none) b e)
    | inr b ↦ rw (h y, b) (find_by-map-none g ys h (ground arith))
  ]

abbrev pub ids_of : List Document → List ℕ
ids_of documents = map (λ (d : Document). d.id) documents

-- A table of documents: every identifier is below the next one, and stands once.
abbrev pub IsTable : ℕ → List Document → Type 0
IsTable next [] = Unit
IsTable next (d ∷ ds) = (d.id < next) × (elem d.id (ids_of ds) ≡ false) × IsTable next ds

pub IsTable-later :
    (n m : ℕ) (documents : List Document) → n ≤ m → IsTable n documents → IsTable m documents
IsTable-later n m [] le t = tt
IsTable-later n m (d ∷ ds) le t = (omega (arith, t.0), t.1, IsTable-later n m ds le t.2)

pub IsTable-In :
    (next : ℕ) (documents : List Document) (d : Document)
    → IsTable next documents
    → In d documents
    → d.id < next
IsTable-In next [] d t m = elim m [ ]
IsTable-In next (e ∷ ds) d t (inl same) = subst (λ (x : Document). x.id < next) same t.0
IsTable-In next (e ∷ ds) d t (inr m) = IsTable-In next ds d t.2 m

pub elem-ids_of :
    (d : Document) (documents : List Document)
    → In d documents
    → elem d.id (ids_of documents) ≡ true
elem-ids_of d [] m = elim m [ ]
elem-ids_of d (e ∷ ds) (inl same) = ground (arith, ap (λ (x : Document). x.id) same)
elem-ids_of d (e ∷ ds) (inr m) = ground (arith, elem-ids_of d ds m)

-- Nothing has an identifier that was not handed out yet.
pub elem-next :
    (next : ℕ) (documents : List Document)
    → IsTable next documents
    → elem next (ids_of documents) ≡ false
elem-next next [] t = refl
elem-next next (d ∷ ds) t = ground (arith, elem-next next ds t.2, t.0)

pub IsTable-unique :
    (next : ℕ) (documents : List Document) (c d : Document)
    → IsTable next documents
    → In c documents
    → In d documents
    → c.id ≡ d.id
    → c ≡ d
IsTable-unique next [] c d t m k e = elim m [ ]
IsTable-unique next (x ∷ xs) c d t (inl a) (inl b) e = sym a ∙ b
IsTable-unique next (x ∷ xs) c d t (inl a) (inr k) e =
    cc (elem-ids_of d xs k, t.1, ap (λ (y : Document). y.id) a, e)
IsTable-unique next (x ∷ xs) c d t (inr m) (inl b) e =
    cc (elem-ids_of c xs m, t.1, ap (λ (y : Document). y.id) b, e)
IsTable-unique next (x ∷ xs) c d t (inr m) (inr k) e = IsTable-unique next xs c d t.2 m k e

-- An update of one row that keeps its identifier.
module _ (i : ℕ) (g : Document → Document) (keeps : (d : Document) → (g d).id ≡ d.id) where
  pub at_row-id : (d : Document) → (at_row i g d).id ≡ d.id
  at_row-id d = elim (Bool-cases (d.id == i)) [ inl b ↦ rw b (keeps d) | inr b ↦ rw b refl ]

  pub ids_of-at_row :
      (documents : List Document) → ids_of (map (at_row i g) documents) ≡ ids_of documents
  ids_of-at_row [] = refl
  ids_of-at_row (d ∷ ds) = rw (at_row-id d, ids_of-at_row ds) refl

  pub IsTable-at_row :
      (next : ℕ) (documents : List Document)
      → IsTable next documents
      → IsTable next (map (at_row i g) documents)
  IsTable-at_row next [] t = tt
  IsTable-at_row next (d ∷ ds) t =
      (rw (at_row-id d) t.0, rw (at_row-id d, ids_of-at_row ds) t.1, IsTable-at_row next ds t.2)

  pub row_of-at_row :
      (j : ℕ) (documents : List Document)
      → (i == j) ≡ false
      → row_of j (map (at_row i g) documents) ≡ row_of j documents
  row_of-at_row j [] other = refl
  row_of-at_row j (d ∷ ds) other =
      let rest = row_of-at_row j ds other in
      elim (Bool-cases (d.id == i)) [
        | inl b ↦
            let same = (==_iff d.id i).0 b in
            let e : (d.id == j) ≡ false = subst (λ (n : ℕ). (n == j) ≡ false) (sym same) other in
            rw (at_row-id d, e) rest
        | inr b ↦ rw (b, rest) refl
      ]
