-- ===== src/Web/Router.antt =====
-- src/aizk/web/router.py: the signals of memory, and the decision whether a question may go out.
-- A rerank score is counted from 0, which is what a missing one reads as.
use aizk.Base.{
  ℕ, Bool, true, false, not, ◌&&◌, ◌||◌, Option, none, some, List, Text, length, filter_by, any_by,
  leb, one_of, contains, if◌then◌else◌,
}
use aizk.Retrieval.Candidate.{Candidate, current_at}
use aizk.Web.{
  WebQueryPlan, SanctionedPlan, SearchLane, no_lane, Refusal, memory_answered, private_subject,
  planner_unavailable, planner_declined, sanitizer_refused,
}

-- `MemorySignals`, less the summary for the planner.
pub record MemorySignals : Type 0 where
  pub strong : ℕ
  pub direct : ℕ
  pub answering : ℕ
  pub roster_hit : Bool
  pub world_marker : Bool

-- The settings that the router reads.
pub record RouterSettings : Type 0 where
  pub rerank_floor : ℕ
  pub world_markers : List Text
  pub sufficient_candidates : ℕ

abbrev pub current : ℕ → Candidate → Bool
current moment c = not c.web_cache || current_at c moment

module _ (cfg : RouterSettings) (lower : Text → Text) (scores : Option ℕ → ℕ) where
  abbrev pub is_strong : Candidate → Bool
  is_strong c = leb cfg.rerank_floor (scores c.evidence_id)

  -- `signals`, of candidates that are different objects.
  unfoldable pub signals : Text → List Candidate → List Text → List Text → ℕ → MemorySignals
  signals query candidates mentions roster now =
      let usable = filter_by (current now) candidates in
      record {
        strong = length (filter_by is_strong usable);
        direct = length (filter_by (λ (c : Candidate). c.direct) usable);
        answering = length (filter_by (λ (c : Candidate). is_strong c || c.direct) usable);
        roster_hit = any_by (λ m. one_of (lower m) roster) mentions;
        world_marker = any_by (λ marker. contains marker (lower query)) cfg.world_markers;
      }

abbrev pub sufficient : MemorySignals → ℕ → Bool
sufficient s floor = leb floor s.answering

-- What the router says of the planner's answer.
abbrev pub is_none : SearchLane → Bool
is_none no_lane = true
is_none _ = false

pub data Routed : Type 0 where
  stopped : Refusal → Routed
  sanctioned : SanctionedPlan → Routed

abbrev pub with_query : Option Text → WebQueryPlan → Routed
with_query none plan = stopped sanitizer_refused
with_query (some query) plan =
    if is_none plan.lane
    then stopped sanitizer_refused
    else sanctioned (record { query = query; lane = plan.lane; freshness = plan.freshness })

abbrev pub weighed : Bool → Option WebQueryPlan → Routed
weighed skip_sufficiency none = stopped planner_unavailable
weighed skip_sufficiency (some plan) =
    if plan.needs_web || skip_sufficiency
    then with_query plan.search_query plan
    else stopped planner_declined

-- `plan`: what it says, and whether it asked the planner.
unfoldable pub route :
    RouterSettings → MemorySignals → Bool → Bool → Option WebQueryPlan → Routed × Bool
route cfg s skip_sufficiency skip_roster answer =
    if not skip_sufficiency && sufficient s cfg.sufficient_candidates
    then (stopped memory_answered, false)
    else if not skip_roster && (s.roster_hit && not s.world_marker)
    then (stopped private_subject, false)
    else (weighed skip_sufficiency answer, true)
