-- ===== src/Promotion/Move/Passages.antt =====
-- src/aizk/graph/promote.py: the chunks of the documents while one of them is shared and grounded.
use aizk.Base.{
  append_nil, ℕ, suc, ◌≡◌, refl, sym, ◌∙◌, ap, inl, inr, false, not, Bool-cases, Option, none, some,
  List, [], ◌∷◌, ◌++◌, map, filter_by, find_by, ◌==◌, ==_refl, Text, arith,
}
use aizk.Promotion.{Document, Chunk, Artifact, ArtifactContent, Store}
use aizk.Promotion.Share.{
  gave, Promoter, standing_artifact, standing_content, shares_artifact, holds_blob, shared, paired,
  share_of, share,
}
use aizk.Promotion.Ground.{LiveFact, copies_of, ground_copy}

-- The chunks of a document, and what is read of one: its place and its text.
abbrev pub of_document : ℕ → List Chunk → List Chunk
of_document j chunks = filter_by (λ (c : Chunk). c.document_id == j) chunks

abbrev pub passages : List Chunk → List (ℕ × Text)
passages chunks = map (λ (c : Chunk). (c.ord, c.text)) chunks

artifact-chunks :
    (p : Promoter) (source : Artifact) (a : Option Artifact) (s : Store)
    → (standing_artifact p source a s).1.chunks ≡ s.chunks
artifact-chunks p source (some a) s = refl
artifact-chunks p source none s = refl

content-chunks :
    (p : Promoter) (content : ArtifactContent) (id : ℕ) (c : Option ArtifactContent) (s : Store)
    → (standing_content p content id c s).1.chunks ≡ s.chunks
content-chunks p content id (some c) s = refl
content-chunks p content id none s = refl

shared-chunks :
    (p : Promoter) (a : Artifact) (c : ArtifactContent) (s : Store)
    → (shared p a c s).1.chunks ≡ s.chunks
shared-chunks p a c s =
    let found = find_by (shares_artifact p.target a) s.artifacts in
    let made = standing_artifact p a found s in
    content-chunks p c made.0 (find_by (holds_blob made.0 c) made.1.artifact_contents) made.1
    ∙ artifact-chunks p a found s

paired-chunks :
    (p : Promoter) (d : Document) (a : Option Artifact) (c : Option ArtifactContent) (s : Store)
    {x : Option ℕ × Option ℕ} {t : Store}
    → paired p d a c s ≡ gave (x, t)
    → t.chunks ≡ s.chunks
paired-chunks p d (some a) (some c) s {t = t} e =
    let same : (shared p a c s).1 ≡ t = ground arith in
    ap (λ (u : Store). u.chunks) (sym same) ∙ shared-chunks p a c s
paired-chunks p d (some a) none s e = cc
paired-chunks p d none c s e = cc

share_of-chunks :
    (p : Promoter) (d : Document) (a c : Option ℕ) (s : Store) {x : Option ℕ × Option ℕ} {t : Store}
    → share_of p d a c s ≡ gave (x, t)
    → t.chunks ≡ s.chunks
share_of-chunks p d none c s {t = t} e =
    let same : s ≡ t = cc in ap (λ (u : Store). u.chunks) (sym same)
share_of-chunks p d (some a) none s {t = t} e =
    let same : s ≡ t = cc in ap (λ (u : Store). u.chunks) (sym same)
share_of-chunks p d (some a) (some c) s e = paired-chunks p d _ _ s e

pub share-chunks :
    (p : Promoter) (d : Document) (s : Store) {x : Option ℕ × Option ℕ} {t : Store}
    → share p d s ≡ gave (x, t)
    → t.chunks ≡ s.chunks
unfolding share
share-chunks p d s e = share_of-chunks p d d.artifact_id d.artifact_content_id s e

of_document-append :
    (j : ℕ) (xs ys : List Chunk) → of_document j (xs ++ ys) ≡ of_document j xs ++ of_document j ys
of_document-append j [] ys = refl
of_document-append j (x ∷ xs) ys = elim (Bool-cases (x.document_id == j)) [
  | inl e ↦ rw e (ap (λ (r : List Chunk). x ∷ r) (of_document-append j xs ys))
  | inr e ↦ rw e (of_document-append j xs ys)
]

abbrev copied : Promoter → ℕ → ℕ → List Chunk → List Chunk
copied p destination next chunks =
    map (λ (c : ℕ × Chunk). c.1) (copies_of p destination next chunks)

copied-passages :
    (p : Promoter) (destination next : ℕ) (chunks : List Chunk)
    → passages (copied p destination next chunks) ≡ passages chunks
copied-passages p destination next [] = refl
copied-passages p destination next (c ∷ cs) =
    ap (λ (r : List (ℕ × Text)). (c.ord, c.text) ∷ r) (copied-passages p destination (suc next) cs)

copied-own :
    (p : Promoter) (destination next : ℕ) (chunks : List Chunk)
    → of_document destination (copied p destination next chunks) ≡ copied p destination next chunks
copied-own p destination next [] = refl
copied-own p destination next (c ∷ cs) =
    rw (==_refl destination, copied-own p destination (suc next) cs) refl

copied-other :
    (p : Promoter) (destination j next : ℕ) (chunks : List Chunk)
    → (destination == j) ≡ false
    → of_document j (copied p destination next chunks) ≡ []
copied-other p destination j next [] e = refl
copied-other p destination j next (c ∷ cs) e = rw e (copied-other p destination j (suc next) cs e)

pub deleted-own :
    (d : ℕ) (chunks : List Chunk)
    → of_document d (filter_by (λ (c : Chunk). not (c.document_id == d)) chunks) ≡ []
deleted-own d [] = refl
deleted-own d (c ∷ cs) = elim (Bool-cases (c.document_id == d)) [
  | inl e ↦ rw e (deleted-own d cs)
  | inr e ↦ rw (e, e) (deleted-own d cs)
]

pub deleted-other :
    (d j : ℕ) (chunks : List Chunk)
    → (d == j) ≡ false
    → of_document j (filter_by (λ (c : Chunk). not (c.document_id == d)) chunks)
      ≡ of_document j chunks
deleted-other d j [] ne = refl
deleted-other d j (c ∷ cs) ne = elim (Bool-cases (c.document_id == d)) [
  | inl e ↦
      let out : (c.document_id == j) ≡ false = ground (arith, ne, e) in
      rw (e, out) (deleted-other d j cs ne)
  | inr e ↦ elim (Bool-cases (c.document_id == j)) [
    | inl f ↦ rw (e, f) (ap (λ (r : List Chunk). c ∷ r) (deleted-other d j cs ne))
    | inr f ↦ rw (e, f) (deleted-other d j cs ne)
  ]
]

module _ (p : Promoter) (d : ℕ) (chunks : List Chunk) (facts : List LiveFact) (s : Store) where
  pub ground-passages :
      of_document d s.chunks ≡ []
      → passages (of_document d (ground_copy p d chunks facts s).chunks) ≡ passages chunks
  unfolding ground_copy
  ground-passages free =
      ap passages (
        of_document-append d (copied p d s.next_id chunks) s.chunks
        ∙ ap (λ (r : List Chunk). of_document d (copied p d s.next_id chunks) ++ r) free
        ∙ append_nil (of_document d (copied p d s.next_id chunks))
        ∙ copied-own p d s.next_id chunks)
      ∙ copied-passages p d s.next_id chunks

  pub ground-others :
      (j : ℕ)
      → (d == j) ≡ false
      → of_document j (ground_copy p d chunks facts s).chunks ≡ of_document j s.chunks
  unfolding ground_copy
  ground-others j ne =
      of_document-append j (copied p d s.next_id chunks) s.chunks
      ∙ ap (λ (r : List Chunk). r ++ of_document j s.chunks)
          (copied-other p d j s.next_id chunks ne)
