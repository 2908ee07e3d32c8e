-- ===== src/Promotion/Rows.antt =====
-- src/aizk/store/models/tables/document.py, fact.py: the statements that retire documents and close
-- claims, and Python's dictionaries of rows.
use aizk.Base.{
  ℕ, Bool, ◌&&◌, some, List, [], ◌∷◌, Text, text_eq, map, filter_by, elem, if◌then◌else◌,
}
use aizk.Promotion.{Document, Chunk, FactClaim, Store, active_at, among, is_open}

-- `attributes || {reason: moment}`
abbrev pub stamped : Text → ℕ → List (Text × ℕ) → List (Text × ℕ)
stamped reason moment [] = (reason, moment) ∷ []
stamped reason moment ((key, value) ∷ rest) =
    let others = stamped reason moment rest in
    if text_eq key reason then (reason, moment) ∷ rest else (key, value) ∷ others

abbrev pub closed : Text → ℕ → FactClaim → FactClaim
closed reason now c = record c {
  recorded_to = some now;
  attributes = stamped reason now c.attributes;
}

abbrev pub chunk_ids : List ℕ → List Chunk → List ℕ
chunk_ids document_ids chunks =
    map (λ (c : Chunk). c.id) (filter_by (λ (c : Chunk). elem c.document_id document_ids) chunks)

-- Whether a live claim is derived from one of the documents.
abbrev pub derived : List ℕ → List Chunk → FactClaim → Bool
derived document_ids chunks c =
    is_open c.recorded_to && among c.source_chunk_id (chunk_ids document_ids chunks)

-- `FactClaim._close`, on the claims that a test selects.
abbrev pub close_if : (FactClaim → Bool) → Text → ℕ → List FactClaim → List FactClaim
close_if selected reason now [] = []
close_if selected reason now (c ∷ cs) =
    (if selected c then closed reason now c else c) ∷ close_if selected reason now cs

unfoldable pub retract_from_documents : List ℕ → Text → ℕ → Store → Store
retract_from_documents document_ids reason now s = record s {
  claims = close_if (derived document_ids s.chunks) reason now s.claims;
}

abbrev pub expired_now : List ℕ → ℕ → Document → Document
expired_now ids now d =
    if elem d.id ids && active_at d now then record d { expires_at = some now } else d

-- `Document.retire`
unfoldable pub retire_documents : List ℕ → ℕ → Store → Store
retire_documents ids now s = record s { documents = map (expired_now ids now) s.documents }

-- `list(dict.fromkeys(ids))`
abbrev pub distinct : List ℕ → List ℕ → List ℕ
distinct seen [] = []
distinct seen (i ∷ ids) =
    let again = distinct seen ids in
    let next = distinct (i ∷ seen) ids in if elem i seen then again else i ∷ next
