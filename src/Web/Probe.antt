-- ===== src/Web/Probe.antt =====
-- src/aizk/web/service.py, router.py: the operator's probe, which says what a question would send.
use aizk.Base.{ℕ, Bool, true, false, Option, none, some, List, [], Text, map}
use aizk.Identity.{User}
use aizk.Web.{Refusal, SanctionedPlan, WebResult, World}
use aizk.Web.Router.{Routed, stopped, sanctioned, signals, route}
use aizk.Web.Sanitizer.{Letters, refuses}
use aizk.Web.Egress.{Egress, Searched, exceeded, nobody, answered, search}
use aizk.Web.Service.{Caller, Evidence, WebSettings, permitted, roster, start}

-- `RouterProbe`, less what it only repeats, and with what the probe did.
pub record RouterProbe : Type 0 where
  pub plan : Option SanctionedPlan
  pub refusal : Option Refusal
  pub sanitizer : Option Refusal
  pub findings : List Text
  pub did : Egress

abbrev pub egress_query_of : Option SanctionedPlan → Option Refusal → Option Text
egress_query_of none r = none
egress_query_of (some plan) (some r) = none
egress_query_of (some plan) none = some plan.query

abbrev pub egress_query : RouterProbe → Option Text
egress_query p = egress_query_of p.plan p.sanitizer

module _ (cfg : WebSettings) (lib : Letters) (w : World) where
  abbrev pub urls_of : Searched × Egress → List Text × Egress
  urls_of (answered results p, s) = (map (λ (r : WebResult). r.url) results, s)
  urls_of (exceeded, s) = ([], s)
  urls_of (nobody, s) = ([], s)

  abbrev pub if_permitted : Option Refusal → Egress → List Text × Egress → List Text × Egress
  if_permitted none s rest = rest
  if_permitted (some r) s rest = ([], s)

  unfoldable pub rehearse : User → SanctionedPlan → Egress → List Text × Egress
  rehearse user plan s =
      if_permitted (permitted cfg lib w user) s
        (urls_of (search w plan.query 0 (cfg.searchers plan.lane) s))

  -- Providers are called only when the operator asks for it and the sanitizer lets the query pass.
  abbrev pub rehearsed : User → SanctionedPlan → Bool → Option Refusal → Egress → List Text × Egress
  rehearsed user plan true none s = rehearse user plan s
  rehearsed user plan true (some r) s = ([], s)
  rehearsed user plan false refusal s = ([], s)

  abbrev pub probed : Caller → Bool → Routed × Bool → RouterProbe
  probed caller execute (stopped r, asks) = record {
    plan = none;
    refusal = some r;
    sanitizer = none;
    findings = [];
    did = start cfg lib w asks;
  }
  probed caller execute (sanctioned plan, asks) =
      let refusal =
        refuses lib cfg.roster_min_chars (roster cfg lib w caller) w.mentions plan.query in
      let found = rehearsed caller.user plan execute refusal (start cfg lib w asks) in
      record {
        plan = some plan;
        refusal = none;
        sanitizer = refusal;
        findings = found.0;
        did = found.1;
      }

  unfoldable pub probe : Caller → Text → Evidence → Bool → Bool → ℕ → RouterProbe
  probe caller query evidence fresh execute now =
      let names = roster cfg lib w caller in
      let known =
        signals cfg.router lib.lower evidence.scores query evidence.candidates evidence.mentions
          names now in
      probed caller execute (route cfg.router known fresh false w.ask)
