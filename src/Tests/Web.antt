-- ===== src/Tests/Web.antt =====
-- A forced question that two search providers see and one page of which is stored.
use aizk.Base.{
  Option, ◌≡◌, refl, inl, inr, Bool, true, false, ◌&&◌, none, some, List, [], ◌∷◌, ◌++◌, Text,
  codes, length, map, filter_by, leb, ◌==◌, text_eq, In, if◌then◌else◌,
}
use aizk.Identity.{IdentitySettings, authorized, write_scope}
use aizk.Web.{
  auto, force, keyword, dated, provider_failure, Provider, WebResult, WebPage, WebFinding, Event,
  asked, searched, fetched, charged_search, charged_fetch, accounted_search, accounted_fetch,
  cached, clean, rejected, unavailable, World, WebOutcome, refused,
}
use aizk.Web.Router.{signals, route}
use aizk.Web.Sanitizer.{Letters, refuses}
use aizk.Web.Egress.{Egress, search, fetch, read, keep, egress}
use aizk.Web.Service.{Caller, Evidence, WebSettings, in_time, timed_out, broke, decide, run}
use aizk.Web.Trace.{Paid}
use aizk.Web.Cleared.{Sanction, run-searched}
use aizk.Web.Receipts.{Truthful, run-Truthful, run-Paid}
use aizk.Web.Probe.{egress_query, probe}
use aizk.Web.Rehearsal.{probe-run}
use aizk.Web.Cache.{survives, storable, stored, keep_lem}

abbrev letters : Letters
letters = record {
  is_word = λ c. leb 97 c && leb c 122;
  same_letter = λ c d. c == d;
  lower = λ t. t;
}

abbrev brave : Provider
brave = record { name = codes "brave"; spend = 2 }

abbrev exa : Provider
exa = record { name = codes "exa"; spend = 3 }

abbrev reader : Provider
reader = record { name = codes "reader"; spend = 1 }

abbrev question : Text
question = codes "tide tables"

abbrev ids : IdentitySettings
ids = record {
  anonymous_user_id = 0;
  system_user_id = 1;
  reports_scope_id = 2;
  admin_role = codes "admin";
}

abbrev cfg : WebSettings
cfg = record {
  enabled = true;
  identity = ids;
  organization = codes "harbour";
  router = record {
    rerank_floor = 5;
    world_markers = codes "latest" ∷ [];
    sufficient_candidates = 2;
  };
  page = record { pages = 2; max_chars = 4; stable_days = 90; dated_days = 14; volatile_days = 1 };
  roster_min_chars = 4;
  searchers = λ lane. brave ∷ exa ∷ [];
  fetchers = λ freshness. reader ∷ [];
}

abbrev hit : Text → WebResult
hit url = record { url = url; title = none; snippet = some (codes "a snippet") }

abbrev page : Text → WebPage
page url = record {
  url = url;
  markdown = codes "low water";
  provider = codes "reader";
  title = none;
  persistable = true;
}

-- The first provider is down, the second finds two links, and only the first of them can be read.
abbrev world : World
world = record {
  admits = λ es n. leb (length es) 20;
  search = λ es p q.
      if text_eq p.name (codes "exa") then some (hit (codes "u") ∷ hit (codes "v") ∷ []) else none;
  fetch = λ es p u. if text_eq u (codes "u") then some (page u) else none;
  ask = some (record {
    needs_web = true;
    search_query = some question;
    lane = keyword;
    freshness = dated;
  });
  mentions = λ t. some [];
  scan = λ t. clean;
  takes = λ u. true;
}

abbrev user : Caller
user = record {
  user =
      authorized ids 7
        (record { read_scopes = 7 ∷ 9 ∷ []; write_scopes = 7 ∷ []; public_scopes = [] }) none none
        none [] (record { id = 9; name = codes "harbour"; writable = true } ∷ []);
  stored_names = codes "project" ∷ [];
}

abbrev nothing_known : Evidence
nothing_known = record { candidates = []; scores = λ i. 0; mentions = [] }

abbrev whole : Option WebOutcome × List Event
whole = run cfg letters world user (codes "my tides") nothing_known force false none 0 in_time

abbrev happened : List Event
happened =
    asked
    ∷ charged_search brave 2
    ∷ searched brave question
    ∷ accounted_search brave 0
    ∷ charged_search exa 3
    ∷ searched exa question
    ∷ accounted_search exa 1
    ∷ charged_fetch reader 1
    ∷ fetched reader (codes "u")
    ∷ accounted_fetch reader 2
    ∷ charged_fetch reader 1
    ∷ fetched reader (codes "v")
    ∷ accounted_fetch reader 3
    ∷ cached (codes "u") 14
    ∷ []

whole-happened : whole.1 ≡ happened
unfolding run write_scope decide signals route refuses egress search fetch read keep
whole-happened = refl

-- An error of the counters after the first request leaves the same behind, without any receipt.
broken_run :
    run cfg letters world user (codes "my tides") nothing_known force false none 0 (broke 3)
    ≡ (none, asked ∷ charged_search brave 2 ∷ searched brave question ∷ [])
unfolding run write_scope decide signals route refuses egress search fetch read keep
broken_run = refl

-- When the deadline strikes after the first request, the outcome still says that no search provider
-- was contacted.
late_outcome :
    run cfg letters world user (codes "my tides") nothing_known force false none 0 (timed_out 3) ≡ (
      some (refused provider_failure),
      asked ∷ charged_search brave 2 ∷ searched brave question ∷ [],
    )
unfolding run write_scope decide signals route refuses egress search fetch read keep
late_outcome = refl

searched_late :
    In
      (searched brave question)
      (run cfg letters world user
        (codes "my tides")
        nothing_known
        force
        false
        none
        0
        (timed_out 3)).1
unfolding run write_scope decide signals route refuses egress search fetch read keep
searched_late = inr (inr (inl refl))

run-searched_example : Sanction cfg letters world user force question
run-searched_example =
    run-searched cfg letters world user (codes "my tides") nothing_known force false none 0
      (timed_out 3) brave question searched_late

run-Truthful_example : Truthful whole
run-Truthful_example =
    run-Truthful cfg letters world user (codes "my tides") nothing_known force false none 0

run-Paid_example : Paid world [] whole.1
run-Paid_example =
    run-Paid cfg letters world user (codes "my tides") nothing_known force false none 0 in_time

abbrev found : Text → Bool → WebFinding
found url licensed = record {
  url = url;
  text = url;
  provider = codes "reader";
  title = none;
  persistable = licensed;
}

abbrev strict : World
strict = record {
  admits = world.admits;
  search = world.search;
  fetch = world.fetch;
  ask = none;
  mentions = world.mentions;
  scan = λ t.
      if text_eq t (codes "bad")
      then rejected
      else if text_eq t (codes "new")
      then unavailable
      else clean;
  takes = λ u. true;
}

abbrev pages : List WebFinding
pages =
    found (codes "bad") true
    ∷ found (codes "bad") false
    ∷ found (codes "new") true
    ∷ found (codes "ok") true
    ∷ []

abbrev idle : Egress
idle = record { events = []; providers = [] }

keep_lem_example :
    ((keep strict cfg.page pages 14 idle).0 ≡ filter_by (survives strict) pages)
    × ((keep strict cfg.page pages 14 idle).1.events
        ≡ [] ++ map (stored strict 14) (filter_by (storable strict) pages))
keep_lem_example = keep_lem strict cfg.page pages 14 idle

-- The same planner and detector, with no allowance and no provider.
abbrev deaf : World
deaf = record {
  admits = λ es n. false;
  search = λ es p q. none;
  fetch = λ es p u. none;
  ask = world.ask;
  mentions = world.mentions;
  scan = world.scan;
  takes = λ u. false;
}

searched_auto :
    In
      (searched brave question)
      (run cfg letters world user
        (codes "my tides")
        nothing_known
        auto
        false
        none
        0
        (timed_out 3)).1
unfolding run write_scope decide signals route refuses egress search fetch read keep
searched_auto = inr (inr (inl refl))

probe-run_example :
    egress_query (probe cfg letters deaf user (codes "my tides") nothing_known false false 0)
    ≡ some question
probe-run_example =
    probe-run cfg letters world user (codes "my tides") nothing_known false false none 0
      (timed_out 3) brave question deaf refl refl searched_auto
