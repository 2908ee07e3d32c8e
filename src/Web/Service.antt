-- ===== src/Web/Service.antt =====
-- src/aizk/web/service.py, models.py: `WebSearch.run` with its switches and its deadline, and the
-- words of the receipt. The scopes a page is stored under are the ingestion's.
use aizk.Base.{
  ℕ, Bool, true, false, not, ◌||◌, Option, none, some, List, [], ◌∷◌, ◌++◌, Text, codes, elem, map,
  take, filter_by, one_of, if◌then◌else◌,
}
use aizk.Identity.{IdentitySettings, Organization, User, is_anonymous, write_scope}
use aizk.Retrieval.Candidate.{Candidate}
use aizk.Web.{
  WebMode, auto, off, force, SearchLane, keyword, semantic, no_lane, Freshness, Refusal,
  memory_answered, private_subject, web_off, not_permitted, planner_unavailable, planner_declined,
  sanitizer_refused, quota_exhausted, provider_failure, planned, SanctionedPlan, Provider, Event,
  asked, World, WebOutcome, refused, fruitless, sent,
}
use aizk.Web.Router.{RouterSettings, Routed, stopped, sanctioned, signals, route}
use aizk.Web.Sanitizer.{Letters, refuses}
use aizk.Web.Egress.{Egress, PageSettings, egress}

-- The caller, with the names of the entities in its writable scopes, as the store lists them.
pub record Caller : Type 0 where
  pub user : User
  pub stored_names : List Text

pub record Evidence : Type 0 where
  pub candidates : List Candidate
  pub scores : Option ℕ → ℕ
  pub mentions : List Text

pub record WebSettings : Type 0 where
  pub enabled : Bool
  pub identity : IdentitySettings
  pub organization : Text
  pub router : RouterSettings
  pub page : PageSettings
  pub roster_min_chars : ℕ
  -- the providers that are configured and could be built
  pub searchers : SearchLane → List Provider
  pub fetchers : Freshness → List Provider

-- What becomes of a call after its switches: it runs to its end, its deadline strikes, or an error that
-- `egress` does not catch, such as one of the database behind the allowance, is raised. The number
-- says how many events had happened by then.
pub data Cut : Type 0 where
  in_time : Cut
  timed_out broke : ℕ → Cut

module _ (cfg : WebSettings) (lib : Letters) (w : World) where
  abbrev pub permitted : User → Option Refusal
  permitted user =
      if not cfg.enabled || is_anonymous cfg.identity user
      then some not_permitted
      else if not (one_of cfg.organization (map (λ (o : Organization). o.name) user.organizations))
      then some not_permitted
      else none

  abbrev pub roster : Caller → List Text
  roster caller =
      caller.stored_names
      ++ map (λ (o : Organization). lib.lower o.name)
          (filter_by (λ (o : Organization). elem o.id caller.user.scopes.write_scopes)
            caller.user.organizations)

  abbrev pub start : Bool → Egress
  start asks = record { events = if asks then asked ∷ [] else []; providers = [] }

  abbrev pub sanitized : Option Refusal → SanctionedPlan → Egress → WebOutcome × Egress
  sanitized (some r) plan s = (refused r, s)
  sanitized none plan s =
      egress w cfg.page plan (cfg.searchers plan.lane) (cfg.fetchers plan.freshness) s

  abbrev pub decided : List Text → Routed × Bool → WebOutcome × Egress
  decided names (stopped r, asks) = (refused r, start asks)
  decided names (sanctioned plan, asks) =
      sanitized (refuses lib cfg.roster_min_chars names w.mentions plan.query) plan (start asks)

  abbrev pub is_force : WebMode → Bool
  is_force force = true
  is_force _ = false

  unfoldable pub decide : Caller → Text → Evidence → WebMode → Bool → ℕ → WebOutcome × Egress
  decide caller query evidence mode fresh now =
      let names = roster caller in
      let known =
        signals cfg.router lib.lower evidence.scores query evidence.candidates evidence.mentions
          names now in
      decided names (route cfg.router known (is_force mode || fresh) (is_force mode) w.ask)

  -- What is left of a call; an error that is raised is `none`.
  abbrev pub deadline : Cut → WebOutcome × Egress → Option WebOutcome × List Event
  deadline in_time (outcome, s) = (some outcome, s.events)
  deadline (timed_out n) (outcome, s) = (some (refused provider_failure), take n s.events)
  deadline (broke n) (outcome, s) = (none, take n s.events)

  -- Where a page would be stored is settled before the clock starts; a name that is not writable
  -- raises.
  abbrev pub targeted :
      Option (List ℕ) → Option WebOutcome × List Event → Option WebOutcome × List Event
  targeted none rest = (none, [])
  targeted (some target) rest = rest

  abbrev pub barred :
      Option Refusal → Option WebOutcome × List Event → Option WebOutcome × List Event
  barred (some r) rest = (some (refused r), [])
  barred none rest = rest

  abbrev pub attempted :
      Caller
      → Text
      → Evidence
      → WebMode
      → Bool
      → Option (List Text)
      → ℕ
      → Cut
      → Option WebOutcome × List Event
  attempted caller query evidence mode fresh scopes now late = barred (permitted caller.user) (
      targeted (write_scope caller.user scopes)
        (deadline late (decide caller query evidence mode fresh now)))

  unfoldable pub run :
      Caller
      → Text
      → Evidence
      → WebMode
      → Bool
      → Option (List Text)
      → ℕ
      → Cut
      → Option WebOutcome × List Event
  run caller query evidence off fresh scopes now late = (some (refused web_off), [])
  run caller query evidence auto fresh scopes now late =
      attempted caller query evidence auto fresh scopes now late
  run caller query evidence force fresh scopes now late =
      attempted caller query evidence force fresh scopes now late

-- `Refusal.because`
abbrev pub because : Refusal → Text
because memory_answered = codes "your own memory already answered it"
because private_subject = codes "the question is about your own notes, people or projects"
because web_off = codes "web access was off for this call"
because not_permitted = codes "this deployment or account may not reach the web"
because planner_unavailable = codes "the planner could not decide, so nothing was searched"
because planner_declined = codes "the planner judged that the public web could not help"
because sanitizer_refused =
    codes "the question cannot be asked publicly without naming something private"
because quota_exhausted = codes "the monthly web allowance is spent"
because provider_failure = codes "no search provider answered"

abbrev pub lane_value : SearchLane → Text
lane_value keyword = codes "keyword"
lane_value semantic = codes "semantic"
lane_value no_lane = codes "none"

-- `', '.join` of the names, each in backticks.
abbrev pub named_list : List Text → Text
named_list [] = []
named_list (p ∷ []) = codes "`" ++ p ++ codes "`"
named_list (p ∷ q ∷ ps) = codes "`" ++ p ++ codes "`, " ++ named_list (q ∷ ps)

abbrev pub planning : Text
planning =
    codes
      "Your question went to the configured extraction endpoint under zero data retention so the search could be planned"

abbrev pub receipt : WebOutcome → Text
receipt (refused reason) =
    if planned reason
    then codes "Privacy receipt. "
      ++ planning
      ++ codes ", and no search provider was contacted, because "
      ++ because reason
      ++ codes "."
    else codes "Privacy receipt. Nothing left this machine, because " ++ because reason ++ codes "."
receipt (fruitless reason query lane providers) =
    codes "Privacy receipt. "
    ++ planning
    ++ codes ", and the rewritten question `"
    ++ query
    ++ codes "` was sent to the "
    ++ lane_value lane
    ++ codes " lane through "
    ++ named_list providers
    ++ codes ", which returned nothing usable, because "
    ++ because reason
    ++ codes "."
receipt (sent findings query lane providers) =
    codes "Privacy receipt. "
    ++ planning
    ++ codes ". Only the rewritten question `"
    ++ query
    ++ codes "` reached the "
    ++ lane_value lane
    ++ codes " lane through "
    ++ named_list providers
    ++ codes ", and it carries nothing that identifies you."
