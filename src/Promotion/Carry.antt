-- ===== src/Promotion/Carry.antt =====
-- src/aizk/graph/promote.py: carrying documents into one destination scope set, and the transfer that
-- retires the originals. The locks and the log are left out: the model is one transaction, and a
-- refusal rolls back what it had written. `began` is the moment of the transaction, which the database
-- reads, and `now` the moment that Python reads. The table order decides between several copies of one
-- source, of which the unique index lets there be one.
use aizk.Base.{
  ℕ, suc, Bool, ◌&&◌, ◌||◌, not, Option, none, some, List, [], ◌∷◌, text_eq, codes, ◌==◌, opt_eq,
  any_by, find_by, filter_by, map, if◌then◌else◌,
}
use aizk.Promotion.{is_web_cache, Document, Chunk, FactClaim, Store, active_at, among, collides}
use aizk.Promotion.Rows.{chunk_ids, retract_from_documents, retire_documents, distinct}
use aizk.Promotion.Share.{
  not_visible, quarantined, conflict, Attempt, gave, refused, ◌>>=◌, Promoter, share,
}
use aizk.Promotion.Ground.{LiveFact, live_facts, chunks_of, ground_copy}

-- `Promotion.Outcome`
pub data Outcome : Type 0 where
  created : Outcome
  refreshed : Outcome
  current : Outcome

pub record Promotion : Type 0 where
  pub source : ℕ
  pub destination : ℕ
  pub outcome : Outcome

-- `Promoter.stands_for`
abbrev pub stands_for : Document → Document → ℕ → Bool
stands_for copy source moment =
    (copy.content_hash == source.content_hash)
    && (active_at copy moment || not (active_at source moment))

-- `Promoter.inherited_expiry`
abbrev pub inherited_expiry : Document → Document → ℕ → Option ℕ
inherited_expiry copy source moment =
    if active_at source moment || not (active_at copy moment)
    then source.expires_at
    else copy.expires_at

abbrev pub row_of : ℕ → List Document → Option Document
row_of i documents = find_by (λ (d : Document). d.id == i) documents

abbrev pub prepend : Document → Attempt (List Document) → Attempt (List Document)
prepend d (gave ds) = gave (d ∷ ds)
prepend d (refused e) = refused e

abbrev pub found_or : ℕ → Option Document → Attempt (List Document) → Attempt (List Document)
found_or i none rest = refused (not_visible i)
found_or i (some d) rest = prepend d rest

abbrev pub find_all : List ℕ → List Document → Attempt (List Document)
find_all [] documents = gave []
find_all (i ∷ ids) documents = found_or i (row_of i documents) (find_all ids documents)

abbrev pub is_cached : Document → Bool
is_cached d = is_web_cache d.origin

abbrev pub refuse : List Document → List Document → Attempt (List Document)
refuse [] found = gave found
refuse (d ∷ ds) found = refused (quarantined (map (λ (x : Document). x.id) (d ∷ ds)))

-- `Promoter.reject_quarantined`
abbrev pub reject_quarantined : List Document → Attempt (List Document)
reject_quarantined found = refuse (filter_by is_cached found) found

-- `Promoter.sources`: the sources in the order in which they are first named.
unfoldable pub sources : List ℕ → List Document → Attempt (List Document)
sources ids documents = do found ← find_all ids documents; reject_quarantined found

-- A copy of the source in the target.
abbrev pub is_copy : List ℕ → ℕ → Document → Bool
is_copy target source d = opt_eq d.promoted_from (some source) && text_eq d.scopes target

-- `standing_copies`, for one source.
abbrev pub standing_copy : List ℕ → ℕ → List Document → Option Document
standing_copy target source documents = find_by (is_copy target source) documents

-- What the batch read about one source before it wrote.
pub record Work : Type 0 where
  pub source : Document
  pub chunks : List Chunk
  pub facts : List LiveFact
  pub copy : Option Document

abbrev pub work_of : Promoter → ℕ → Store → Document → Work
work_of p began s source = record {
  source = source;
  chunks = chunks_of source.id s;
  facts = live_facts source.id began s;
  copy = standing_copy p.target source.id s.documents;
}

abbrev pub fresh_copy : Promoter → Document → ℕ → Option ℕ → Option ℕ → Document
fresh_copy p source destination artifact_id artifact_content_id = record {
  id = destination;
  title = source.title;
  subject_type = source.subject_type;
  source_uri = source.source_uri;
  observed_at = source.observed_at;
  expires_at = source.expires_at;
  artifact_id = artifact_id;
  artifact_content_id = artifact_content_id;
  content_hash = source.content_hash;
  origin = source.origin;
  created_by = p.user_id;
  scopes = p.target;
  promoted_from = some source.id;
}

-- An insert that a unique index may refuse.
abbrev pub insert_document : Document → Store → Attempt Store
insert_document d s =
    if any_by (collides d) s.documents
    then refused conflict
    else gave (record s { documents = d ∷ s.documents })

abbrev pub Settled : Type 0
Settled = Promotion × Store

-- `Promoter.create`
unfoldable pub create : Promoter → Work → Store → Attempt Settled
unfolding ground_copy
create p w s = do
  ((artifact, content), s1) ← share p w.source (record s { next_id = suc s.next_id })
  s2 ← insert_document (fresh_copy p w.source s.next_id artifact content) s1
  gave (
    record { source = w.source.id; destination = s.next_id; outcome = created },
    ground_copy p s.next_id w.chunks w.facts s2,
  )

-- The assignments of a refresh to the copy.
abbrev pub assigned : Document → ℕ → Option ℕ → Option ℕ → Document → Document
assigned source moment artifact_id artifact_content_id copy = record copy {
  title = source.title;
  subject_type = source.subject_type;
  source_uri = source.source_uri;
  observed_at = source.observed_at;
  expires_at = inherited_expiry copy source moment;
  artifact_id = artifact_id;
  artifact_content_id = artifact_content_id;
  content_hash = source.content_hash;
  origin = source.origin;
}

abbrev pub at_row : ℕ → (Document → Document) → Document → Document
at_row i g d = if d.id == i then g d else d

-- An update of the row of the copy, that a unique index may refuse.
abbrev pub update_document : ℕ → (Document → Document) → Document → Store → Attempt Store
update_document i g after s =
    if any_by (λ (d : Document). not (d.id == i) && collides after d) s.documents
    then refused conflict
    else gave (record s { documents = map (at_row i g) s.documents })

-- Deleting a chunk sets the references to it to null.
abbrev pub unground : List ℕ → FactClaim → FactClaim
unground ids c = if among c.source_chunk_id ids then record c { source_chunk_id = none } else c

abbrev pub delete_chunks : ℕ → Store → Store
delete_chunks document_id s = record s {
  chunks = filter_by (λ (c : Chunk). not (c.document_id == document_id)) s.chunks;
  claims = map (unground (chunk_ids (document_id ∷ []) s.chunks)) s.claims;
}

-- `Promoter.refresh`
unfoldable pub refresh : Promoter → ℕ → Document → Work → Store → Attempt Settled
unfolding retract_from_documents ground_copy
refresh p now copy w s = do
  ((artifact, content), s1) ←
      share p w.source
        (delete_chunks copy.id (retract_from_documents (copy.id ∷ []) (codes "refreshed") now s))
  s2 ←
      update_document copy.id (assigned w.source now artifact content)
        (assigned w.source now artifact content copy) s1
  gave (
    record { source = w.source.id; destination = copy.id; outcome = refreshed },
    ground_copy p copy.id w.chunks w.facts s2,
  )

-- One round of `Promoter.carry`.
abbrev pub settle_with : Promoter → ℕ → Work → Option Document → Store → Attempt Settled
settle_with p now w none s = create p w s
settle_with p now w (some copy) s =
    if stands_for copy w.source now
    then gave (record { source = w.source.id; destination = copy.id; outcome = current }, s)
    else refresh p now copy w s

abbrev pub settle_work : Promoter → ℕ → Work → Store → Attempt Settled
settle_work p now w s = settle_with p now w w.copy s

abbrev pub carry_from : Promoter → ℕ → List Work → Store → Attempt (List Promotion × Store)
carry_from p now [] s = gave ([], s)
carry_from p now (w ∷ ws) s = do
  (first, s1) ← settle_work p now w s
  (rest, s2) ← carry_from p now ws s1
  gave (first ∷ rest, s2)

-- `Promoter.carry`
unfoldable pub carry : Promoter → ℕ → ℕ → List ℕ → Store → Attempt (List Promotion × Store)
unfolding sources create refresh
carry p began now ids s = do
  found ← sources (distinct [] ids) s.documents
  carry_from p now (map (work_of p began s) found) s

-- `retire`
unfoldable pub retire : ℕ → ℕ → List ℕ → Store → Store
unfolding retract_from_documents retire_documents
retire began now ids s =
    retire_documents ids began (retract_from_documents ids (codes "moved") now s)

-- `transfer`
unfoldable pub transfer :
    Promoter → ℕ → ℕ → List ℕ → Bool → Store → Attempt (List Promotion × Store)
unfolding carry retire
transfer p began now ids move s = do
  (promotions, s1) ← carry p began now ids s
  gave (
    promotions,
    if move then retire began now (map (λ (q : Promotion). q.source) promotions) s1 else s1,
  )
