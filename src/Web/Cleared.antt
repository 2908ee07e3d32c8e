-- ===== src/Web/Cleared.antt =====
-- src/aizk/web/service.py: what has to hold before a query leaves the machine.
use aizk.Base.{
  ℕ, ◌≡◌, ◌≢◌, inl, inr, refl, ap, sym, ◌∙◌, subst, Bool, true, false, Option, none, some, List,
  Text, All-In, In, In-take,
}
use aizk.Identity.{write_scope}
use aizk.Web.{
  Refusal, WebMode, auto, off, force, WebQueryPlan, Provider, Event, searched, planned, World,
  WebOutcome,
}
use aizk.Web.Sanitizer.{Letters, refuses}
use aizk.Web.Egress.{Egress}
use aizk.Web.Trace.{Carries, IsSound, Trace-IsSound}
use aizk.Web.Endings.{IsCleared, IsStopped, decide-Ending}
use aizk.Web.Service.{
  Caller, Evidence, WebSettings, Cut, in_time, timed_out, broke, permitted, roster, start, decide,
  deadline, targeted, barred, attempted, run,
}

module _ (cfg : WebSettings) (lib : Letters) (w : World) where
  pub start-IsSound : (asks : Bool) (query : Text) → IsSound w query (start cfg lib w asks)
  start-IsSound true query = record {
    carried = (tt, tt);
    paid = (tt, tt);
    contacted = refl;
    ledger = refl;
  }
  start-IsSound false query = record { carried = tt; paid = tt; contacted = refl; ledger = refl }

  -- The state that a call ends in is sound, for the query it was cleared for.
  pub Cleared-IsSound :
      (names : List Text) (x : WebOutcome × Egress) (c : IsCleared cfg lib w names x)
      → IsSound w c.query x.1
  Cleared-IsSound names x c = Trace-IsSound w c.query (start-IsSound true c.query) c.steps

  pub Stopped-IsSound :
      (query : Text) (x : WebOutcome × Egress) → IsStopped cfg lib w x → IsSound w query x.1
  Stopped-IsSound query x c =
      subst (λ (y : WebOutcome × Egress). IsSound w query y.1) (sym c.ends)
        (start-IsSound (planned c.reason) query)

  -- What a query that goes out has behind it.
  pub record Sanction (user : Caller) (mode : WebMode) (query : Text) : Type 0 where
    pub switched_on : mode ≢ off
    pub allowed : permitted cfg lib w user.user ≡ none
    pub plan : WebQueryPlan
    pub planned_so : w.ask ≡ some plan
    pub rewritten : plan.search_query ≡ some query
    pub clear : refuses lib cfg.roster_min_chars (roster cfg lib w user) w.mentions query ≡ none

  stopped_nothing :
      (x : WebOutcome × Egress) (p : Provider) (t : Text)
      → IsStopped cfg lib w x
      → In (searched p t) x.1.events
      → ⊥
  stopped_nothing x p t c m =
      go (planned c.reason)
        (subst (λ (y : WebOutcome × Egress). In (searched p t) y.1.events) c.ends m)
    where
      go : (asks : Bool) → In (searched p t) (start cfg lib w asks).events → ⊥
      go true (inl e) = cc
      go true (inr k) = elim k [ ]
      go false k = elim k [ ]

  decide-searched :
      (user : Caller) (query : Text) (evidence : Evidence) (mode : WebMode) (fresh : Bool) (now : ℕ)
      (p : Provider) (t : Text)
      → mode ≢ off
      → permitted cfg lib w user.user ≡ none
      → In (searched p t) (decide cfg lib w user query evidence mode fresh now).1.events
      → Sanction user mode t
  decide-searched user query evidence mode fresh now p t on may m =
      let x = decide cfg lib w user query evidence mode fresh now in
      elim (decide-Ending cfg lib w user query evidence mode fresh now) [
        | inl c ↦ elim (stopped_nothing x p t c m) [ ]
        | inr c ↦
            let same =
              All-In (Carries c.query) (searched p t) x.1.events
                (Cleared-IsSound (roster cfg lib w user) x c).carried m in
            record {
              switched_on = on;
              allowed = may;
              plan = c.plan;
              planned_so = c.answered_plan;
              rewritten = c.rewritten ∙ ap some (sym same);
              clear =
                  subst
                    (λ (q : Text).
                      refuses lib cfg.roster_min_chars (roster cfg lib w user) w.mentions q ≡ none)
                    (sym same) c.clear;
            }
      ]

  pub deadline-In :
      (late : Cut) (x : WebOutcome × Egress) (e : Event)
      → In e (deadline cfg lib w late x).1
      → In e x.1.events
  deadline-In in_time x e m = m
  deadline-In (timed_out n) x e m = In-take e n x.1.events m
  deadline-In (broke n) x e m = In-take e n x.1.events m

  targeted-searched :
      (user : Caller) (mode : WebMode) (p : Provider) (t : Text) (o : Option Refusal)
      (target : Option (List ℕ)) (x : Option WebOutcome × List Event)
      → permitted cfg lib w user.user ≡ o
      → (permitted cfg lib w user.user ≡ none → In (searched p t) x.1 → Sanction user mode t)
      → In (searched p t) (barred cfg lib w o (targeted cfg lib w target x)).1
      → Sanction user mode t
  targeted-searched user mode p t none none x e k m = elim m [ ]
  targeted-searched user mode p t none (some target) x e k m = k e m
  targeted-searched user mode p t (some r) target x e k m = elim m [ ]

  attempted-searched :
      (user : Caller) (query : Text) (evidence : Evidence) (mode : WebMode) (fresh : Bool)
      (scopes : Option (List Text)) (now : ℕ) (late : Cut) (p : Provider) (t : Text)
      → mode ≢ off
      → In (searched p t) (attempted cfg lib w user query evidence mode fresh scopes now late).1
      → Sanction user mode t
  attempted-searched user query evidence mode fresh scopes now late p t on m =
      let x = decide cfg lib w user query evidence mode fresh now in
      targeted-searched user mode p t (permitted cfg lib w user.user) (write_scope user.user scopes)
        (deadline cfg lib w late x) refl
        (λ may k.
          decide-searched user query evidence mode fresh now p t on may
            (deadline-In late x (searched p t) k))
        m

  -- Whatever query a search provider is sent, at whatever moment the deadline strikes or an error is
  -- raised: the mode
  -- was not off, the caller may reach the web, the planner answered with exactly that rewritten
  -- query, and the sanitizer cleared that query against the caller's whole roster.
  pub run-searched :
      (user : Caller) (query : Text) (evidence : Evidence) (mode : WebMode) (fresh : Bool)
      (scopes : Option (List Text)) (now : ℕ) (late : Cut) (p : Provider) (t : Text)
      → In (searched p t) (run cfg lib w user query evidence mode fresh scopes now late).1
      → Sanction user mode t
  unfolding run
  run-searched user query evidence off fresh scopes now late p t m = elim m [ ]
  run-searched user query evidence auto fresh scopes now late p t m =
      attempted-searched user query evidence auto fresh scopes now late p t (λ e. cc) m
  run-searched user query evidence force fresh scopes now late p t m =
      attempted-searched user query evidence force fresh scopes now late p t (λ e. cc) m
