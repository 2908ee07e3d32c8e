-- ===== src/Tests/Retrieval.antt =====
-- The evidence budget and the stances. Three ranked items: a fact, the excerpt that it comes from,
-- and an item that is too long.
use aizk.Base.{ℕ, ◌≡◌, ◌≤◌, refl, false, Option, none, some, List, [], ◌∷◌, Text, codes, arith}
use aizk.Provenance.{settled}
use aizk.Retrieval.Candidate.{
  Settings, LaneKind, facts, sources, overview, Candidate, token_count, annotation_chars,
}
use aizk.Retrieval.Packing.{deduplicate, pack}
use aizk.Retrieval.Packing.Budget.{total_cost, HandlesFit, pack-le_budget}
use aizk.Retrieval.Packing.Dedupe.{without_repeats, deduplicate-eq-without_repeats}

abbrev cfg : Settings
cfg = record {
  chars = 4;
  tokens = 1;
  printer = record { uuid = λ n. codes "id"; day = λ n. codes "day" };
}

abbrev item : LaneKind → Text → Option ℕ → Candidate
item lane line chunk = record {
  lane = lane;
  line = line;
  fact_id = none;
  source_chunk_id = chunk;
  source_title = none;
  source_uri = none;
  artifact_id = none;
  artifact_content_id = none;
  document_id = none;
  document_created_at = none;
  created_by = none;
  scopes = [];
  evidence_id = none;
  direct = false;
  web_cache = false;
  document_expires_at = none;
  stance = settled;
}

abbrev fact : Candidate
fact = item facts (codes "water boils") (some 4)

abbrev excerpt : Candidate
excerpt = item sources (codes "at sea level water boils at 100 C") (some 4)

abbrev other : Candidate
other = item overview (codes "heat") none

abbrev ranking : List Candidate
ranking = fact ∷ excerpt ∷ other ∷ []

pack_run : pack cfg ranking 6 ≡ fact ∷ other ∷ []
unfolding pack token_count annotation_chars
pack_run = refl

dedupe_run : deduplicate ranking ≡ fact ∷ other ∷ []
unfolding deduplicate
dedupe_run = refl

fact_fits : HandlesFit cfg 3 ranking
unfolding annotation_chars
fact_fits = omega arith

-- A budget of three holds no item, so the first one is trimmed.
pack-le_budget_example : total_cost cfg (pack cfg ranking 3) ≤ 3
pack-le_budget_example = pack-le_budget cfg ranking 3 (omega arith) (omega arith) fact_fits

deduplicate-eq-without_repeats_example : deduplicate ranking ≡ without_repeats [] ranking
deduplicate-eq-without_repeats_example = deduplicate-eq-without_repeats ranking

abbrev alice : ℕ
alice = 1

abbrev bob : ℕ
bob = 2
