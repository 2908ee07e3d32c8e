-- ===== src/Promotion/Standing/Effects.antt =====
-- src/aizk/graph/promote.py: what one round of a batch does to the table of documents.
use aizk.Base.{
  ℕ, suc, ◌≡◌, refl, sym, ◌∙◌, subst, inl, inr, ◌≤◌, true, false, Bool-cases, Option, none, some,
  List, [], ◌∷◌, map, any_by, find_by, codes, ap, not, ◌&&◌, ◌==◌, arith,
}
use aizk.Promotion.{Document, Chunk, FactClaim, Artifact, ArtifactContent, Store, collides}
use aizk.Promotion.Rows.{retract_from_documents}
use aizk.Promotion.Share.{
  Attempt, gave, refused, ◌>>=◌, Promoter, standing_artifact, standing_content, shares_artifact,
  holds_blob, shared, paired, share_of, share,
}
use aizk.Promotion.Ground.{LiveFact, next_after, insert_claims, ground_copy, is_standing}
use aizk.Promotion.Carry.{
  created, refreshed, current, Promotion, stands_for, Work, fresh_copy, insert_document, Settled,
  create, assigned, at_row, update_document, delete_chunks, refresh, settle_with, settle_work,
}

-- A store whose documents are the same and whose counter has not gone back.
abbrev pub Keeps : Store → Store → Type 0
Keeps s t = (t.documents ≡ s.documents) × (s.next_id ≤ t.next_id)

artifact-Keeps :
    (p : Promoter) (source : Artifact) (a : Option Artifact) (s : Store)
    → Keeps s (standing_artifact p source a s).1
artifact-Keeps p source (some a) s = (refl, omega arith)
artifact-Keeps p source none s = (refl, omega arith)

content-Keeps :
    (p : Promoter) (content : ArtifactContent) (id : ℕ) (c : Option ArtifactContent) (s : Store)
    → Keeps s (standing_content p content id c s).1
content-Keeps p content id (some c) s = (refl, omega arith)
content-Keeps p content id none s = (refl, omega arith)

Keeps-trans : (s t u : Store) → Keeps s t → Keeps t u → Keeps s u
Keeps-trans s t u a b = (b.0 ∙ a.0, omega (arith, a.1, b.1))

shared-Keeps :
    (p : Promoter) (a : Artifact) (c : ArtifactContent) (s : Store) → Keeps s (shared p a c s).1
shared-Keeps p a c s =
    let found = find_by (shares_artifact p.target a) s.artifacts in
    let made = standing_artifact p a found s in
    let held = find_by (holds_blob made.0 c) made.1.artifact_contents in
    Keeps-trans s made.1 (standing_content p c made.0 held made.1).1 (artifact-Keeps p a found s)
      (content-Keeps p c made.0 held made.1)

paired-Keeps :
    (p : Promoter) (d : Document) (a : Option Artifact) (c : Option ArtifactContent) (s : Store)
    {x : Option ℕ × Option ℕ} {t : Store}
    → paired p d a c s ≡ gave (x, t)
    → Keeps s t
paired-Keeps p d (some a) (some c) s {t = t} e =
    let same : (shared p a c s).1 ≡ t = ground arith in subst (Keeps s) same (shared-Keeps p a c s)
paired-Keeps p d (some a) none s e = cc
paired-Keeps p d none c s e = cc

share_of-Keeps :
    (p : Promoter) (d : Document) (a c : Option ℕ) (s : Store) {x : Option ℕ × Option ℕ} {t : Store}
    → share_of p d a c s ≡ gave (x, t)
    → Keeps s t
share_of-Keeps p d none c s {t = t} e =
    let same : s ≡ t = cc in subst (Keeps s) same (refl, omega arith)
share_of-Keeps p d (some a) none s {t = t} e =
    let same : s ≡ t = cc in subst (Keeps s) same (refl, omega arith)
share_of-Keeps p d (some a) (some c) s e = paired-Keeps p d _ _ s e

pub share-Keeps :
    (p : Promoter) (d : Document) (s : Store) {x : Option ℕ × Option ℕ} {t : Store}
    → share p d s ≡ gave (x, t)
    → Keeps s t
unfolding share
share-Keeps p d s e = share_of-Keeps p d d.artifact_id d.artifact_content_id s e

next_after-le : (n : ℕ) (chunks : List Chunk) → n ≤ next_after n chunks
next_after-le n [] = omega arith
next_after-le n (c ∷ cs) = omega (arith, next_after-le (suc n) cs)

insert_claims-le : (n : ℕ) (rows claims : List FactClaim) → n ≤ (insert_claims n rows claims).0
insert_claims-le n [] claims = omega arith
insert_claims-le n (c ∷ cs) claims = elim (Bool-cases (any_by (is_standing c) claims)) [
  | inl b ↦ rw b (insert_claims-le n cs claims)
  | inr b ↦ rw b (omega (arith, insert_claims-le (suc n) cs (record c { id = n } ∷ claims)))
]

pub ground-Keeps :
    (p : Promoter) (destination : ℕ) (chunks : List Chunk) (facts : List LiveFact) (s : Store)
    → Keeps s (ground_copy p destination chunks facts s)
unfolding ground_copy
ground-Keeps p destination chunks facts s =
    (refl, omega (arith, next_after-le s.next_id chunks, insert_claims-le _ _ s.claims))

-- The three ways a round ends, by the row of the copy that it found.
pub data Effect (p : Promoter) (now : ℕ) (w : Work) (s : Store) (q : Promotion) (t : Store)
    : Type 0 where
  made :
      (a c : Option ℕ)
      → w.copy ≡ none
      → q ≡ record { source = w.source.id; destination = s.next_id; outcome = created }
      → t.documents ≡ fresh_copy p w.source s.next_id a c ∷ s.documents
      → suc s.next_id ≤ t.next_id
      → Effect p now w s q t
  renewed :
      (a c : Option ℕ) (copy : Document)
      → w.copy ≡ some copy
      → stands_for copy w.source now ≡ false
      → q ≡ record { source = w.source.id; destination = copy.id; outcome = refreshed }
      → t.documents ≡ map (at_row copy.id (assigned w.source now a c)) s.documents
      → s.next_id ≤ t.next_id
      → Effect p now w s q t
  kept :
      (copy : Document)
      → w.copy ≡ some copy
      → stands_for copy w.source now ≡ true
      → q ≡ record { source = w.source.id; destination = copy.id; outcome = current }
      → t ≡ s
      → Effect p now w s q t

-- A chain that gave a value had a first step that gave one.
pub sequel :
    {X Y : Type 0} (first : Attempt X) (next : X → Attempt Y) {y : Y}
    → (first >>= next) ≡ gave y
    → (x : X) × (first ≡ gave x) × (next x ≡ gave y)
sequel (refused why) next h = cc
sequel (gave x) next h = (x, refl, h)

pub insert_document-eq-gave :
    (d : Document) (s t : Store)
    → insert_document d s ≡ gave t
    → record s { documents = d ∷ s.documents } ≡ t
insert_document-eq-gave d s t e = elim (Bool-cases (any_by (collides d) s.documents)) [
  | inl b ↦ ground arith
  | inr b ↦ ground arith
]

pub update_document-eq-gave :
    (i : ℕ) (g : Document → Document) (after : Document) (s t : Store)
    → update_document i g after s ≡ gave t
    → record s { documents = map (at_row i g) s.documents } ≡ t
update_document-eq-gave i g after s t e =
    elim (Bool-cases (any_by (λ (d : Document). not (d.id == i) && collides after d) s.documents)) [
      | inl b ↦ ground arith
      | inr b ↦ ground arith
    ]

create-Effect :
    (p : Promoter) (now : ℕ) (w : Work) (s : Store) (q : Promotion) (t : Store)
    → w.copy ≡ none
    → create p w s ≡ gave (q, t)
    → Effect p now w s q t
unfolding create
create-Effect p now w s q t absent e =
    let (((a, c), s1), h1, e1) =
      sequel (share p w.source (record s { next_id = suc s.next_id })) _ e in
    let (s2, h2, e2) = sequel (insert_document (fresh_copy p w.source s.next_id a c) s1) _ e1 in
    let k1 = share-Keeps p w.source (record s { next_id = suc s.next_id }) h1 in
    let k2 = insert_document-eq-gave (fresh_copy p w.source s.next_id a c) s1 s2 h2 in
    let k3 = ground-Keeps p s.next_id w.chunks w.facts s2 in
    let same : ground_copy p s.next_id w.chunks w.facts s2 ≡ t = cc in
    made a c absent (cc)
      (ap (λ (x : Store). x.documents) (sym same)
        ∙ k3.0
        ∙ ap (λ (x : Store). x.documents) (sym k2)
        ∙ ap (λ (ds : List Document). fresh_copy p w.source s.next_id a c ∷ ds) k1.0)
      (omega
        (arith, k1.1, ap (λ (x : Store). x.next_id) k2, k3.1, ap (λ (x : Store). x.next_id) same))

refresh-Effect :
    (p : Promoter) (now : ℕ) (copy : Document) (w : Work) (s : Store) (q : Promotion) (t : Store)
    → w.copy ≡ some copy
    → stands_for copy w.source now ≡ false
    → refresh p now copy w s ≡ gave (q, t)
    → Effect p now w s q t
unfolding refresh retract_from_documents
refresh-Effect p now copy w s q t there stale e =
    let s0 =
      delete_chunks copy.id (retract_from_documents (copy.id ∷ []) (codes "refreshed") now s) in
    let (((a, c), s1), h1, e1) = sequel (share p w.source s0) _ e in
    let g = assigned w.source now a c in
    let (s2, h2, e2) = sequel (update_document copy.id g (g copy) s1) _ e1 in
    let k1 = share-Keeps p w.source s0 h1 in
    let k2 = update_document-eq-gave copy.id g (g copy) s1 s2 h2 in
    let k3 = ground-Keeps p copy.id w.chunks w.facts s2 in
    let same : ground_copy p copy.id w.chunks w.facts s2 ≡ t = cc in
    renewed a c copy there stale (cc)
      (ap (λ (x : Store). x.documents) (sym same)
        ∙ k3.0
        ∙ ap (λ (x : Store). x.documents) (sym k2)
        ∙ ap (λ (ds : List Document). map (at_row copy.id g) ds) k1.0)
      (omega
        (arith, k1.1, ap (λ (x : Store). x.next_id) k2, k3.1, ap (λ (x : Store). x.next_id) same))

settle_with-Effect :
    (p : Promoter) (now : ℕ) (w : Work) (o : Option Document) (s : Store) (q : Promotion)
    (t : Store)
    → w.copy ≡ o
    → settle_with p now w o s ≡ gave (q, t)
    → Effect p now w s q t
settle_with-Effect p now w none s q t o e = create-Effect p now w s q t o e
settle_with-Effect p now w (some copy) s q t o e =
    elim (Bool-cases (stands_for copy w.source now)) [
      | inl b ↦
          let answer : Settled =
            (record { source = w.source.id; destination = copy.id; outcome = current }, s) in
          let done : gave answer ≡ gave (q, t) = ground arith in kept copy o b (cc) (cc)
      | inr b ↦ refresh-Effect p now copy w s q t o b (ground arith)
    ]

pub settle_work-Effect :
    (p : Promoter) (now : ℕ) (w : Work) (s : Store) (q : Promotion) (t : Store)
    → settle_work p now w s ≡ gave (q, t)
    → Effect p now w s q t
settle_work-Effect p now w s q t e = settle_with-Effect p now w w.copy s q t refl e
