-- ===== src/Web/Rehearsal.antt =====
-- src/aizk/web/service.py: what the operator's probe shows, against what a call then sends.
use aizk.Base.{
  ℕ, ◌≡◌, inl, inr, refl, ap, sym, ◌∙◌, subst, Bool, true, false, Option, none, some, List, Text,
  All, All-In, In,
}
use aizk.Identity.{write_scope}
use aizk.Web.{auto, Refusal, SanctionedPlan, Provider, Event, searched, World, WebOutcome}
use aizk.Web.Router.{Routed, stopped, sanctioned, signals, route}
use aizk.Web.Sanitizer.{Letters, refuses}
use aizk.Web.Egress.{search, egress}
use aizk.Web.Trace.{begin, Carries, Trace-IsSound}
use aizk.Web.Chains.{search-Trace}
use aizk.Web.Endings.{Honest, route-Honest, after_search-Cleared}
use aizk.Web.Cleared.{start-IsSound, deadline-In}
use aizk.Web.Service.{
  Caller, Evidence, WebSettings, Cut, permitted, roster, start, sanitized, decided, decide,
  deadline, targeted, barred, run,
}
use aizk.Web.Probe.{egress_query, probed, probe}

module _ (cfg : WebSettings) (lib : Letters) (w : World) where
  egress-Carries :
      (plan : SanctionedPlan)
      → All
          (Carries plan.query)
          (egress w cfg.page plan
            (cfg.searchers plan.lane)
            (cfg.fetchers plan.freshness)
            (start cfg lib w true)).1.events
  unfolding egress
  egress-Carries plan =
      let begun = start cfg lib w true in
      let chain = cfg.searchers plan.lane in
      let (b, steps, says) =
        after_search-Cleared cfg lib w plan (cfg.fetchers plan.freshness)
          (search w plan.query 0 chain begun)
          (search-Trace w plan.query begun 0 chain begun refl begin) in
      (Trace-IsSound w plan.query (start-IsSound cfg lib w true plan.query) steps).carried

  idle :
      (asks : Bool) (p : Provider) (t : Text) → In (searched p t) (start cfg lib w asks).events → ⊥
  idle true p t (inl e) = cc
  idle true p t (inr k) = elim k [ ]
  idle false p t k = elim k [ ]

  decided-probed :
      (caller : Caller) (execute : Bool) (x : Routed × Bool) (p : Provider) (t : Text)
      → Honest w.ask x
      → In (searched p t) (decided cfg lib w (roster cfg lib w caller) x).1.events
      → egress_query (probed cfg lib w caller execute x) ≡ some t
  decided-probed caller execute (stopped r, asks) p t h m = elim (idle asks p t m) [ ]
  decided-probed caller execute (sanctioned plan, asks) p t (e, known, a, q) m =
      go (refuses lib cfg.roster_min_chars (roster cfg lib w caller) w.mentions plan.query) refl (
        subst
          (λ (b : Bool).
            In (searched p t)
              (decided cfg lib w (roster cfg lib w caller) (sanctioned plan, b)).1.events)
          e m)
    where
      go :
          (o : Option Refusal)
          → refuses lib cfg.roster_min_chars (roster cfg lib w caller) w.mentions plan.query ≡ o
          → In
              (searched p t)
              (sanitized cfg lib w
                (refuses lib cfg.roster_min_chars (roster cfg lib w caller) w.mentions plan.query)
                plan
                (start cfg lib w true)).1.events
          → egress_query (probed cfg lib w caller execute (sanctioned plan, asks)) ≡ some t
      go (some r) c k =
          elim (idle true p t (
            subst
              (λ (o : Option Refusal).
                In (searched p t) (sanitized cfg lib w o plan (start cfg lib w true)).1.events)
              c k)) [ ]
      go none c k =
          let same =
            All-In (Carries plan.query) (searched p t)
              (egress w cfg.page plan (cfg.searchers plan.lane) (cfg.fetchers plan.freshness)
                (start cfg lib w true)).1.events
              (egress-Carries plan)
              (subst
                (λ (o : Option Refusal).
                  In (searched p t) (sanitized cfg lib w o plan (start cfg lib w true)).1.events)
                c k) in
          rw c (ap some (sym same))

  decide-probe :
      (caller : Caller) (query : Text) (evidence : Evidence) (fresh execute : Bool) (now : ℕ)
      (p : Provider) (t : Text)
      → In (searched p t) (decide cfg lib w caller query evidence auto fresh now).1.events
      → egress_query (probe cfg lib w caller query evidence fresh execute now) ≡ some t
  unfolding decide probe
  decide-probe caller query evidence fresh execute now p t m =
      let known =
        signals cfg.router lib.lower evidence.scores query evidence.candidates evidence.mentions
          (roster cfg lib w caller) now in
      decided-probed caller execute (route cfg.router known fresh false w.ask) p t
        (route-Honest cfg.router known fresh false w.ask) m

  targeted-In :
      (o : Option Refusal) (target : Option (List ℕ)) (x : Option WebOutcome × List Event)
      (e : Event)
      → In e (barred cfg lib w o (targeted cfg lib w target x)).1
      → In e x.1
  targeted-In none none x e m = elim m [ ]
  targeted-In none (some target) x e m = m
  targeted-In (some r) target x e m = elim m [ ]

  -- What a probe shows depends only on the answers of the planner and of the detector of names.
  probed-same :
      (v : World) (caller : Caller) (execute : Bool) (x : Routed × Bool)
      → v.mentions ≡ w.mentions
      → egress_query (probed cfg lib v caller execute x)
        ≡ egress_query (probed cfg lib w caller execute x)
  probed-same v caller execute (stopped r, asks) e = refl
  probed-same v caller execute (sanctioned plan, asks) e = rw e refl

  probe-same :
      (v : World) (caller : Caller) (query : Text) (evidence : Evidence) (fresh execute : Bool)
      (now : ℕ)
      → v.ask ≡ w.ask
      → v.mentions ≡ w.mentions
      → egress_query (probe cfg lib v caller query evidence fresh execute now)
        ≡ egress_query (probe cfg lib w caller query evidence fresh execute now)
  unfolding probe
  probe-same v caller query evidence fresh execute now asks e =
      let known =
        signals cfg.router lib.lower evidence.scores query evidence.candidates evidence.mentions
          (roster cfg lib w caller) now in
      ap
        (λ answer.
          egress_query
            (probed cfg lib v caller execute (route cfg.router known fresh false answer)))
        asks
      ∙ probed-same v caller execute (route cfg.router known fresh false w.ask) e

  -- Whatever query a call in the ordinary mode sends to a search provider, at whatever moment it is
  -- cut, is the query that the operator's probe shows for the same question, evidence and moment, when
  -- the planner and the detector of names answer the probe as they answer the call. The two may differ
  -- in everything else: what the allowance admits, what the providers answer, and whether the probe was
  -- asked to call providers itself.
  pub probe-run :
      (caller : Caller) (query : Text) (evidence : Evidence) (fresh execute : Bool)
      (scopes : Option (List Text)) (now : ℕ) (late : Cut) (p : Provider) (t : Text) (v : World)
      → v.ask ≡ w.ask
      → v.mentions ≡ w.mentions
      → In (searched p t) (run cfg lib w caller query evidence auto fresh scopes now late).1
      → egress_query (probe cfg lib v caller query evidence fresh execute now) ≡ some t
  unfolding run
  probe-run caller query evidence fresh execute scopes now late p t v asks e m =
      let x = decide cfg lib w caller query evidence auto fresh now in
      probe-same v caller query evidence fresh execute now asks e
      ∙ decide-probe caller query evidence fresh execute now p t (
          deadline-In cfg lib w late x (searched p t) (
            targeted-In (permitted cfg lib w caller.user) (write_scope caller.user scopes)
              (deadline cfg lib w late x) (searched p t) m))
