-- ===== src/Promotion/Move/Sources.antt =====
-- src/aizk/graph/promote.py: the sources that a batch names, each once, and the rows found for them.
use aizk.Base.{
  ℕ, ◌≡◌, refl, subst, ap, inl, inr, Bool, true, false, ◌&&◌, Bool-cases, Option, none, some, List,
  [], ◌∷◌, ◌==◌, ==_iff, ==_refl, All-In, All-of_In, elem, filter_by, text_eq, arith,
}
use aizk.Promotion.{Document}
use aizk.Promotion.Rows.{distinct}
use aizk.Promotion.Share.{Attempt, gave, refused}
use aizk.Promotion.Carry.{row_of, prepend, found_or, find_all, is_cached, refuse, sources}
use aizk.Promotion.Standing.Finding.{ids_of}
use aizk.Promotion.Standing.Effects.{sequel}
use aizk.Promotion.Standing.Rounds.{Apart, Known, row_of-id}
use aizk.Promotion.Standing.Batch.{Once}

pub distinct-seen :
    (j : ℕ) (seen ids : List ℕ) → elem j seen ≡ true → elem j (distinct seen ids) ≡ false
distinct-seen j seen [] e = refl
distinct-seen j seen (i ∷ ids) e = elim (Bool-cases (elem i seen)) [
  | inl b ↦ rw b (distinct-seen j seen ids e)
  | inr b ↦ elim (Bool-cases (i == j)) [
    | inl same ↦ cc (ap (λ (n : ℕ). elem n seen) ((==_iff i j).0 same), b, e)
    | inr other ↦ rw (b, other) (distinct-seen j (i ∷ seen) ids (rw other e))
  ]
]

pub distinct-Once : (seen ids : List ℕ) → Once (distinct seen ids)
distinct-Once seen [] = tt
distinct-Once seen (i ∷ ids) = elim (Bool-cases (elem i seen)) [
  | inl b ↦ rw b (distinct-Once seen ids)
  | inr b ↦
      rw b (distinct-seen i (i ∷ seen) ids (rw (==_refl i) refl), distinct-Once (i ∷ seen) ids)
]

distinct-elem :
    (j : ℕ) (seen ids : List ℕ) → elem j ids ≡ false → elem j (distinct seen ids) ≡ false
distinct-elem j seen [] e = refl
distinct-elem j seen (i ∷ ids) e = elim (Bool-cases (elem i seen)) [
  | inl b ↦ rw b (distinct-elem j seen ids (ground arith))
  | inr b ↦
      let (head, tail) : ((i == j) ≡ false) × (elem j ids ≡ false) = ground arith in
      rw (b, head) (distinct-elem j (i ∷ seen) ids tail)
]

both-false : (a b c : Bool) → (b ≡ false → c ≡ false) → (a && b) ≡ false → (a && c) ≡ false
both-false true b c f e = f e
both-false false b c f e = refl

pub Apart-distinct :
    (target ids : List ℕ) (documents : List Document)
    → Apart target ids documents
    → Apart target (distinct [] ids) documents
Apart-distinct target ids documents apart =
    let P = λ (d : Document). (text_eq d.scopes target && elem d.id ids) ≡ false in
    All-of_In (λ (d : Document). (text_eq d.scopes target && elem d.id (distinct [] ids)) ≡ false)
      documents
      λ d m.
        both-false (text_eq d.scopes target) (elem d.id ids) (elem d.id (distinct [] ids))
          (distinct-elem d.id [] ids) (All-In P d documents apart m)

-- Each identifier with the row that it names.
abbrev pub Names : List ℕ → List Document → List Document → Type 0
Names [] documents [] = Unit
Names [] documents (d ∷ ds) = ⊥
Names (i ∷ ids) documents [] = ⊥
Names (i ∷ ids) documents (d ∷ ds) = (row_of i documents ≡ some d) × Names ids documents ds

prepend-eq-gave :
    (d : Document) (r : Attempt (List Document)) (found : List Document)
    → prepend d r ≡ gave found
    → (ds : List Document) × (r ≡ gave ds) × (d ∷ ds ≡ found)
prepend-eq-gave d (gave ds) found e = (ds, refl, cc)
prepend-eq-gave d (refused x) found e = cc

named_first :
    (i : ℕ) (o : Option Document) (r : Attempt (List Document)) (found : List Document)
    → found_or i o r ≡ gave found
    → (d : Document) × (ds : List Document) × (o ≡ some d) × (r ≡ gave ds) × (d ∷ ds ≡ found)
named_first i none r found e = cc
named_first i (some d) r found e =
    let (ds, h, same) = prepend-eq-gave d r found e in (d, ds, refl, h, same)

find_all-Names :
    (ids : List ℕ) (documents found : List Document)
    → find_all ids documents ≡ gave found
    → Names ids documents found
find_all-Names [] documents found e =
    let none_left : [] ≡ found = cc in subst (Names [] documents) none_left tt
find_all-Names (i ∷ ids) documents found e =
    let (d, ds, here, rest, same) = named_first i (row_of i documents) _ found e in
    subst (Names (i ∷ ids) documents) same (here, find_all-Names ids documents ds rest)

pub Names-find_all :
    (ids : List ℕ) (documents found : List Document)
    → Names ids documents found
    → find_all ids documents ≡ gave found
Names-find_all [] documents [] h = refl
Names-find_all [] documents (d ∷ ds) h = elim h [ ]
Names-find_all (i ∷ ids) documents [] h = elim h [ ]
Names-find_all (i ∷ ids) documents (d ∷ ds) h = rw (h.0, Names-find_all ids documents ds h.1) refl

refuse-eq-gave :
    (cached found kept : List Document)
    → refuse cached found ≡ gave kept
    → (cached ≡ []) × (found ≡ kept)
refuse-eq-gave [] found kept e = (refl, cc)
refuse-eq-gave (d ∷ ds) found kept e = cc

-- What a batch that starts has read: a row for each identifier, none of them a cached page.
pub sources-eq-gave :
    (ids : List ℕ) (documents found : List Document)
    → sources ids documents ≡ gave found
    → Names ids documents found × (filter_by is_cached found ≡ [])
unfolding sources
sources-eq-gave ids documents found e =
    let (ds, h, kept) = sequel (find_all ids documents) _ e in
    let (no_cached, same) = refuse-eq-gave (filter_by is_cached ds) ds found kept in
    subst (λ (r : List Document). Names ids documents r × (filter_by is_cached r ≡ [])) same
      (find_all-Names ids documents ds h, no_cached)

pub eq-gave-sources :
    (ids : List ℕ) (documents found : List Document)
    → Names ids documents found
    → filter_by is_cached found ≡ []
    → sources ids documents ≡ gave found
unfolding sources
eq-gave-sources ids documents found h none_cached =
    rw (Names-find_all ids documents found h, none_cached) refl

pub Names-ids_of :
    (ids : List ℕ) (documents found : List Document)
    → Names ids documents found
    → ids_of found ≡ ids
Names-ids_of [] documents [] h = refl
Names-ids_of [] documents (d ∷ ds) h = elim h [ ]
Names-ids_of (i ∷ ids) documents [] h = elim h [ ]
Names-ids_of (i ∷ ids) documents (d ∷ ds) h =
    rw (row_of-id i documents d h.0, Names-ids_of ids documents ds h.1) refl

pub Names-Known :
    (ids : List ℕ) (documents found : List Document)
    → Names ids documents found
    → Known ids documents
Names-Known [] documents found h = tt
Names-Known (i ∷ ids) documents [] h = elim h [ ]
Names-Known (i ∷ ids) documents (d ∷ ds) h = ((d, h.0), Names-Known ids documents ds h.1)
