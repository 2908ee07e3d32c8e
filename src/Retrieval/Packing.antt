-- ===== src/Retrieval/Packing.antt =====
-- src/aizk/retrieval/packing/budget.py: `deduplicate` and `pack`. A set of chunk identifiers is a
-- list of them.
pub mod Dedupe
pub mod Budget
use aizk.Base.{
  ℕ, ◌+◌, ◌-◌, ◌&&◌, Bool, true, false, Option, none, some, List, [], ◌∷◌, leb, elem, if◌then◌else◌,
}
use aizk.Provenance.{Stance, is_settled}
use aizk.Retrieval.Candidate.{Candidate, LaneKind, sources, Settings, token_count, trimmed}

abbrev pub is_sources : LaneKind → Bool
is_sources sources = true
is_sources _ = false

-- The body of the loop for a candidate with a source chunk: whether it is kept.
abbrev pub repeats : List ℕ → Candidate → Bool
repeats represented c = elim c.source_chunk_id [
  | none ↦ false
  | some k ↦ is_sources c.lane && elem k represented
]

-- `represented` after the candidate
abbrev pub speaks : List ℕ → Candidate → List ℕ
speaks represented c = elim c.source_chunk_id [
  | none ↦ represented
  | some k ↦
      if is_sources c.lane && elem k represented
      then represented
      else if is_settled c.stance
      then k ∷ represented
      else represented
]

unfoldable pub dedupe_from : List ℕ → List Candidate → List Candidate
dedupe_from represented [] = []
dedupe_from represented (c ∷ cs) =
    let rest = dedupe_from (speaks represented c) cs in
    if repeats represented c then rest else c ∷ rest

unfoldable pub deduplicate : List Candidate → List Candidate
unfolding dedupe_from
deduplicate candidates = dedupe_from [] candidates

-- The walk: `remaining` falls by the cost of what is kept.
unfoldable pub walk : Settings → List Candidate → ℕ → List Candidate
walk s [] remaining = []
walk s (c ∷ cs) remaining =
    let cost = token_count s c + 1 in
    let rest = walk s cs (if leb cost remaining then remaining - cost else remaining) in
    if leb cost remaining then c ∷ rest else rest

-- `if kept or not candidates: return kept`
abbrev pub or_trimmed : Settings → ℕ → List Candidate → List Candidate → List Candidate
or_trimmed s budget (k ∷ kept) candidates = k ∷ kept
or_trimmed s budget [] [] = []
or_trimmed s budget [] (c ∷ cs) = trimmed s c budget ∷ []

unfoldable pub pack : Settings → List Candidate → ℕ → List Candidate
unfolding walk
pack s candidates budget = or_trimmed s budget (walk s candidates budget) candidates
