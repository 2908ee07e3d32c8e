-- ===== src/Web/Egress.antt =====
-- src/aizk/web/service.py, cache.py, models.py: the calls that leave the machine, in the order in
-- which the code makes them, and the outcome they end in.
use aizk.Base.{
  first_of, ℕ, ◌+◌, ◌-◌, Bool, true, false, Option, none, some, List, [], ◌∷◌, ◌++◌, Text, codes,
  length, take, leb, if◌then◌else◌,
}
use aizk.Web.{
  Freshness, stable, dated, volatile, Refusal, quota_exhausted, provider_failure, SanctionedPlan,
  Provider, WebResult, preview, WebPage, WebFinding, Event, charged_search, charged_fetch, searched,
  fetched, accounted_search, accounted_fetch, cached, Verdict, clean, rejected, unavailable, World,
  WebOutcome, refused, fruitless, sent,
}

-- What one call has done so far, and the names of the providers it reached.
pub record Egress : Type 0 where
  pub events : List Event
  pub providers : List Text

abbrev pub did : Egress → List Event → Egress
did s es = record { events = s.events ++ es; providers = s.providers }

abbrev pub named : Egress → Provider → Egress
named s p = record { events = s.events; providers = s.providers ++ p.name ∷ [] }

pub data Searched : Type 0 where
  exceeded nobody : Searched
  answered : List WebResult → Provider → Searched

abbrev pub settled :
    Option (List WebResult) → Provider → Egress → Searched × Egress → Searched × Egress
settled none p s rest = rest
settled (some []) p s rest = rest
settled (some (r ∷ rs)) p s rest = (answered (r ∷ rs) p, s)

abbrev pub opened : Option WebPage → Egress → Option WebPage × Egress → Option WebPage × Egress
opened none s rest = rest
opened (some page) s rest = (some page, s)

abbrev pub reached : Refusal → SanctionedPlan → List Text → WebOutcome
reached reason plan [] = refused reason
reached reason plan (p ∷ ps) = fruitless reason plan.query plan.lane (p ∷ ps)

abbrev pub nothing_found : Refusal → SanctionedPlan → List Text → WebOutcome
nothing_found reason plan providers = reached reason plan (first_of [] providers)

-- The settings that bound a page: how many of them, how long, and the days of each freshness.
pub record PageSettings : Type 0 where
  pub pages : ℕ
  pub max_chars : ℕ
  pub stable_days : ℕ
  pub dated_days : ℕ
  pub volatile_days : ℕ

module _ (w : World) where
  -- One attempt of `search` that the allowance admitted, with the answer still out.
  abbrev pub sending : Text → Provider → Egress → Egress
  sending query p s = did (named s p) (charged_search p p.spend ∷ searched p query ∷ [])

  unfoldable pub search : Text → ℕ → List Provider → Egress → Searched × Egress
  search query attempt [] s = (nobody, s)
  search query attempt (p ∷ ps) s =
      let open_call = sending query p s in
      let closed_call = did open_call (accounted_search p attempt ∷ []) in
      let rest = search query (attempt + 1) ps closed_call in
      if w.admits s.events p.spend
      then settled (w.search open_call.events p query) p closed_call rest
      else (exceeded, s)

  abbrev pub fetching : Text → Provider → Egress → Egress
  fetching url p s = did (named s p) (charged_fetch p 1 ∷ fetched p url ∷ [])

  -- `fetch`, whose ordinal is how many providers were reached before this one.
  unfoldable pub fetch : Text → List Provider → Egress → Option WebPage × Egress
  fetch url [] s = (none, s)
  fetch url (p ∷ ps) s =
      let open_call = fetching url p s in
      let closed_call = did open_call (accounted_fetch p (length open_call.providers - 1) ∷ []) in
      let rest = fetch url ps closed_call in
      if w.admits s.events 1
      then opened (w.fetch open_call.events p url) closed_call rest
      else (none, s)

  module _ (cfg : PageSettings) where
    abbrev pub trimmed : Text → Text
    trimmed markdown =
        if leb (length markdown) cfg.max_chars
        then markdown
        else take cfg.max_chars markdown ++ codes "…"

    abbrev pub preview_finding : WebResult → Provider → WebFinding
    preview_finding result searcher = record {
      url = result.url;
      text = take cfg.max_chars (preview result);
      provider = searcher.name;
      title = result.title;
      persistable = false;
    }

    abbrev pub page_finding : WebPage → WebFinding
    page_finding page = record {
      url = page.url;
      text = trimmed page.markdown;
      provider = page.provider;
      title = page.title;
      persistable = page.persistable;
    }

    abbrev pub finding : WebResult → Provider → Option WebPage → WebFinding
    finding result searcher none = preview_finding result searcher
    finding result searcher (some page) = page_finding page

    unfoldable pub read :
        List WebResult → Provider → List Provider → Egress → List WebFinding × Egress
    read [] searcher fetchers s = ([], s)
    read (result ∷ results) searcher fetchers s =
        let page = fetch result.url fetchers s in
        let rest = read results searcher fetchers page.1 in
        (finding result searcher page.0 ∷ rest.0, rest.1)

    abbrev pub expiry_days : Freshness → ℕ
    expiry_days stable = cfg.stable_days
    expiry_days dated = cfg.dated_days
    expiry_days volatile = cfg.volatile_days

    abbrev pub store : WebFinding → ℕ → Egress → Egress
    store f days s = if w.takes f.url then did s (cached f.url days ∷ []) else s

    -- What the scan says of a page that may be stored: whether it is kept, and what is then stored.
    abbrev pub scanned : Verdict → WebFinding → ℕ → Egress → List WebFinding × Egress
    scanned clean f days s = (f ∷ [], store f days s)
    scanned rejected f days s = ([], s)
    scanned unavailable f days s = (f ∷ [], s)

    -- Only a page that its provider licensed is scanned.
    abbrev pub kept : Bool → WebFinding → ℕ → Egress → List WebFinding × Egress
    kept true f days s = scanned (w.scan f.text) f days s
    kept false f days s = (f ∷ [], s)

    unfoldable pub keep : List WebFinding → ℕ → Egress → List WebFinding × Egress
    keep [] days s = ([], s)
    keep (f ∷ fs) days s =
        let here = kept f.persistable f days s in
        let rest = keep fs days here.1 in (here.0 ++ rest.0, rest.1)

    abbrev pub after_search :
        SanctionedPlan → List Provider → Searched × Egress → WebOutcome × Egress
    after_search plan fetchers (exceeded, s) = (nothing_found quota_exhausted plan s.providers, s)
    after_search plan fetchers (nobody, s) = (nothing_found provider_failure plan s.providers, s)
    after_search plan fetchers (answered results searcher, s) =
        let findings = read (take cfg.pages results) searcher fetchers s in
        let kept = keep findings.0 (expiry_days plan.freshness) findings.1 in
        (sent kept.0 plan.query plan.lane (first_of [] kept.1.providers), kept.1)

    -- The chains of a lane and of a freshness are what the configuration names.
    unfoldable pub egress :
        SanctionedPlan → List Provider → List Provider → Egress → WebOutcome × Egress
    egress plan searchers fetchers s = after_search plan fetchers (search plan.query 0 searchers s)
