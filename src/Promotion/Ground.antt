-- ===== src/Promotion/Ground.antt =====
-- src/aizk/graph/promote.py (live facts, `ground`), src/aizk/graph/dedupe.py and
-- src/aizk/store/models/tables/entity.py: a copy's chunks, and the claims that they ground.
-- The entities are claimed in the order of the facts, where the code sorts them: it is the order in which
-- rows are inserted, and says nothing.
use aizk.Base.{
  ℕ, suc, Bool, ◌&&◌, Option, none, some, List, [], ◌∷◌, ◌++◌, text_eq, ◌==◌, any_by, find_by,
  filter_by, sort_by, leb, map, if◌then◌else◌,
}
use aizk.Promotion.{Chunk, FactClaim, FactContent, EntityClaim, Store, is_current, is_open, among}
use aizk.Promotion.Rows.{chunk_ids}
use aizk.Promotion.Share.{Promoter}

-- A row of the view `live_fact`: a current claim with its content.
pub record LiveFact : Type 0 where
  pub claim : FactClaim
  pub subject_id : ℕ
  pub object_id : Option ℕ

abbrev pub joined : FactClaim → Option FactContent → List LiveFact → List LiveFact
joined c none rest = rest
joined c (some k) rest =
    record { claim = c; subject_id = k.subject_id; object_id = k.object_id } ∷ rest

abbrev pub live_view : List FactContent → ℕ → List FactClaim → List LiveFact
live_view contents now [] = []
live_view contents now (c ∷ cs) =
    let rest = live_view contents now cs in
    if is_current c now
    then joined c (find_by (λ (k : FactContent). k.id == c.content_id) contents) rest
    else rest

-- `Promoter.live_facts`, for one source.
unfoldable pub live_facts : ℕ → ℕ → Store → List LiveFact
live_facts document_id now s =
    filter_by
      (λ (f : LiveFact). among f.claim.source_chunk_id (chunk_ids (document_id ∷ []) s.chunks))
      (live_view s.contents now s.claims)

-- The chunks of a document in the order of the relationship, by `ord`.
abbrev pub chunks_of : ℕ → Store → List Chunk
chunks_of document_id s =
    sort_by (λ (a b : Chunk). leb a.ord b.ord)
      (filter_by (λ (c : Chunk). c.document_id == document_id) s.chunks)

-- The copies, with the identifiers of the chunks that they copy.
abbrev pub copies_of : Promoter → ℕ → ℕ → List Chunk → List (ℕ × Chunk)
copies_of p destination next [] = []
copies_of p destination next (c ∷ cs) =
    (
      c.id,
      record c { id = next; document_id = destination; created_by = p.user_id; scopes = p.target },
    )
    ∷ copies_of p destination (suc next) cs

abbrev pub next_after : ℕ → List Chunk → ℕ
next_after next [] = next
next_after next (c ∷ cs) = next_after (suc next) cs

-- `copies[source_chunk_id].id`
abbrev pub copy_id : Option ℕ → List (ℕ × Chunk) → Option ℕ
copy_id none copies = none
copy_id (some n) [] = none
copy_id (some n) ((old, c) ∷ copies) = if old == n then some c.id else copy_id (some n) copies

-- `claim_entities`: one insert for each content, that does nothing against a standing claim.
abbrev pub claim_entity : Promoter → ℕ → List EntityClaim → List EntityClaim
claim_entity p content entities =
    if any_by (λ (e : EntityClaim). (e.content_id == content) && text_eq e.scopes p.target) entities
    then entities
    else record { content_id = content; created_by = p.user_id; scopes = p.target } ∷ entities

abbrev pub with_object : Option ℕ → List ℕ → List ℕ
with_object none rest = rest
with_object (some o) rest = o ∷ rest

abbrev pub entities_of : List LiveFact → List ℕ
entities_of [] = []
entities_of (f ∷ fs) = f.subject_id ∷ with_object f.object_id (entities_of fs)

abbrev pub claim_entities : Promoter → List ℕ → List EntityClaim → List EntityClaim
claim_entities p [] entities = entities
claim_entities p (c ∷ cs) entities = claim_entities p cs (claim_entity p c entities)

-- The claim that re-states a fact, before it has an identifier.
abbrev pub re_claimed : Promoter → List (ℕ × Chunk) → LiveFact → FactClaim
re_claimed p copies f = record {
  id = 0;
  content_id = f.claim.content_id;
  valid_from = f.claim.valid_from;
  valid_to = f.claim.valid_to;
  recorded_to = none;
  attributes = f.claim.attributes;
  perspective_key = f.claim.perspective_key;
  source_chunk_id = copy_id f.claim.source_chunk_id copies;
  promoted_from = some f.claim.id;
  created_by = p.user_id;
  scopes = p.target;
}

abbrev pub same_statement : FactClaim → FactClaim → Bool
same_statement a b = (a.content_id == b.content_id) && text_eq a.perspective_key b.perspective_key

-- `unique[key] = claim`: the place of the first, the value of the last.
abbrev pub put : FactClaim → List FactClaim → List FactClaim
put c [] = c ∷ []
put c (d ∷ ds) = let rest = put c ds in if same_statement d c then c ∷ ds else d ∷ rest

abbrev pub unique_from : List FactClaim → List FactClaim → List FactClaim
unique_from done [] = done
unique_from done (c ∷ cs) = unique_from (put c done) cs

-- The index `uq_fact_claim_live`.
abbrev pub is_standing : FactClaim → FactClaim → Bool
is_standing c d = is_open d.recorded_to && (same_statement d c && text_eq d.scopes c.scopes)

-- `INSERT ... ON CONFLICT DO NOTHING`, with the next identifier.
abbrev pub insert_claims : ℕ → List FactClaim → List FactClaim → ℕ × List FactClaim
insert_claims next [] claims = (next, claims)
insert_claims next (c ∷ cs) claims =
    let skipped = insert_claims next cs claims in
    let inserted = insert_claims (suc next) cs (record c { id = next } ∷ claims) in
    if any_by (is_standing c) claims then skipped else inserted

-- `claim_facts`
abbrev pub claim_facts : ℕ → List FactClaim → List FactClaim → ℕ × List FactClaim
claim_facts next rows claims = insert_claims next (unique_from [] rows) claims

-- `Promoter.ground`
unfoldable pub ground_copy : Promoter → ℕ → List Chunk → List LiveFact → Store → Store
ground_copy p destination chunks facts s =
    let copies = copies_of p destination s.next_id chunks in
    let added =
      claim_facts (next_after s.next_id chunks) (map (re_claimed p copies) facts) s.claims in
    record s {
      next_id = added.0;
      chunks = map (λ (c : ℕ × Chunk). c.1) copies ++ s.chunks;
      claims = added.1;
      entities = claim_entities p (entities_of facts) s.entities;
    }
