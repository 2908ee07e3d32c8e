-- ===== src/Tests/Merit.antt =====
-- Three candidates: a scored one, a named source that is scored lower, and one beyond the depth.
use aizk.Base.{ℕ, ◌≡◌, refl, Bool, true, false, none, some, List, [], ◌∷◌, Text, codes}
use aizk.Provenance.{settled}
use aizk.Retrieval.Candidate.{LaneKind, facts, sources, overview, Candidate}
use aizk.Retrieval.Merit.{reordered, merit_order}

abbrev item : LaneKind → Text → ℕ → Bool → Candidate
item lane line id direct = record {
  lane = lane;
  line = line;
  fact_id = none;
  source_chunk_id = none;
  source_title = some line;
  source_uri = none;
  artifact_id = none;
  artifact_content_id = none;
  document_id = none;
  document_created_at = none;
  created_by = none;
  scopes = [];
  evidence_id = some id;
  direct = direct;
  web_cache = false;
  document_expires_at = none;
  stance = settled;
}

abbrev ranked : List Candidate
ranked =
    item facts (codes "other") 1 false
    ∷ item sources (codes "Atlas Plan") 2 true
    ∷ item sources (codes "Atlas") 3 true
    ∷ item overview (codes "late") 4 false
    ∷ []

abbrev scores : List Text → List ℕ
scores lines = 7 ∷ 2 ∷ 9 ∷ []

-- The shadowed title ranks by its score alone.
ranked-merit :
    merit_order (λ t. t) 3 scores ranked
    ≡ some (
        item sources (codes "Atlas Plan") 2 true
        ∷ item sources (codes "Atlas") 3 true
        ∷ item facts (codes "other") 1 false
        ∷ item overview (codes "late") 4 false
        ∷ [])
unfolding merit_order reordered
ranked-merit = refl

-- Two candidates of one score, one of which has no identifier: the sort raises.
unsortable :
    merit_order
      (λ t. t)
      2
      (λ lines. 7 ∷ 7 ∷ [])
      (item facts (codes "one") 1 false
        ∷ record (item facts (codes "two") 2 false) { evidence_id = none }
        ∷ [])
    ≡ none
unfolding merit_order reordered
unsortable = refl
