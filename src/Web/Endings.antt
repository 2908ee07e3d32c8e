-- ===== src/Web/Endings.antt =====
-- src/aizk/web/service.py: the ways in which `decide` can end.
use aizk.Base.{
  first_of, ℕ, ◌≡◌, ◌≢◌, ◌⊎◌, inl, inr, refl, ◌∙◌, Bool, true, false, not, ◌&&◌, ◌||◌, Bool-cases,
  Option, none, some, List, [], ◌∷◌, Text, take, arith,
}
use aizk.Web.{
  Refusal, planned, sanitizer_refused, quota_exhausted, provider_failure, WebMode, WebQueryPlan,
  SanctionedPlan, Provider, asked, World, WebOutcome, refused, fruitless, sent,
}
use aizk.Web.Router.{
  Routed, stopped, sanctioned, RouterSettings, MemorySignals, sufficient, weighed, with_query,
  is_none, signals, route,
}
use aizk.Web.Sanitizer.{Letters, refuses}
use aizk.Web.Egress.{
  Egress, Searched, exceeded, nobody, answered, search, read, expiry_days, reached, nothing_found,
  after_search, egress,
}
use aizk.Web.Trace.{Trace, begin}
use aizk.Web.Chains.{search-Trace, read-Trace, keep-Trace, Trace-quiet}
use aizk.Web.Service.{Caller, Evidence, WebSettings, roster, start, decided, is_force, decide}

-- What the router's answer rests on.
abbrev pub Honest : Option WebQueryPlan → Routed × Bool → Type 0
Honest answer (stopped r, asks) = planned r ≡ asks
Honest answer (sanctioned p, asks) =
    (asks ≡ true)
    × (plan : WebQueryPlan) × (answer ≡ some plan)
    × (plan.search_query ≡ some p.query)

with_query-Honest :
    (q : Option Text) (plan : WebQueryPlan) (answer : Option WebQueryPlan)
    → answer ≡ some plan
    → plan.search_query ≡ q
    → Honest answer (with_query q plan, true)
with_query-Honest none plan answer e h = refl
with_query-Honest (some q) plan answer e h = elim (Bool-cases (is_none plan.lane)) [
  | inl b ↦ rw b refl
  | inr b ↦ rw b (refl, plan, e, h)
]

weighed-Honest :
    (skip : Bool) (answer given : Option WebQueryPlan)
    → given ≡ answer
    → Honest given (weighed skip answer, true)
weighed-Honest skip none given e = refl
weighed-Honest skip (some plan) given e = elim (Bool-cases (plan.needs_web || skip)) [
  | inl b ↦ rw b (with_query-Honest plan.search_query plan given e refl)
  | inr b ↦ rw b refl
]

pub route-Honest :
    (cfg : RouterSettings) (s : MemorySignals) (skip skip_roster : Bool)
    (answer : Option WebQueryPlan)
    → Honest answer (route cfg s skip skip_roster answer)
unfolding route
route-Honest cfg s skip skip_roster answer =
    elim (Bool-cases (not skip && sufficient s cfg.sufficient_candidates)) [
      | inl b ↦ rw b refl
      | inr b ↦ elim (Bool-cases (not skip_roster && (s.roster_hit && not s.world_marker))) [
        | inl c ↦ rw (b, c) refl
        | inr c ↦ rw (b, c) (weighed-Honest skip answer answer refl)
      ]
    ]

-- What an outcome says, against the state that the call ended in.
abbrev pub Says : Text → WebOutcome → Egress → Type 0
Says query (refused r) s = (planned r ≡ true) × (s.events ≡ asked ∷ [])
Says query (fruitless r q lane ps) s =
    (planned r ≡ true) × (q ≡ query) × (ps ≡ first_of [] s.providers) × (ps ≢ [])
Says query (sent fs q lane ps) s = (q ≡ query) × (ps ≡ first_of [] s.providers)

module _ (cfg : WebSettings) (lib : Letters) (w : World) where
  reached-Says :
      (reason : Refusal) (plan : SanctionedPlan) (providers contacted : List Text) (s : Egress)
      → planned reason ≡ true
      → contacted ≡ first_of [] s.providers
      → s.providers ≡ providers
      → (s.providers ≡ [] → s.events ≡ asked ∷ [])
      → (contacted ≡ [] → providers ≡ [])
      → Says plan.query (reached reason plan contacted) s
  reached-Says reason plan providers [] s e h k quiet full = (e, quiet (k ∙ full refl))
  reached-Says reason plan providers (p ∷ ps) s e h k quiet full = (e, refl, h, λ x. cc)

  first_of-nil : (ps : List Text) → first_of [] ps ≡ [] → ps ≡ []
  first_of-nil [] h = refl
  first_of-nil (p ∷ ps) h = cc

  nothing_found-Says :
      (reason : Refusal) (plan : SanctionedPlan) (s : Egress)
      → planned reason ≡ true
      → (s.providers ≡ [] → s.events ≡ asked ∷ [])
      → Says plan.query (nothing_found reason plan s.providers) s
  nothing_found-Says reason plan s e quiet =
      reached-Says reason plan s.providers (first_of [] s.providers) s e refl refl quiet
        (first_of-nil s.providers)

  -- A call that went out: the plan it rests on, and the steps it took.
  pub record IsCleared (names : List Text) (x : WebOutcome × Egress) : Type 0 where
    pub query : Text
    pub plan : WebQueryPlan
    pub answered_plan : w.ask ≡ some plan
    pub rewritten : plan.search_query ≡ some query
    pub clear : refuses lib cfg.roster_min_chars names w.mentions query ≡ none
    pub stored : Bool
    pub steps : Trace w query (start cfg lib w true) stored x.1
    pub says : Says query x.0 x.1

  pub record IsStopped (x : WebOutcome × Egress) : Type 0 where
    pub reason : Refusal
    pub ends : x ≡ (refused reason, start cfg lib w (planned reason))

  pub after_search-Cleared :
      (plan : SanctionedPlan) (fetchers : List Provider) (x : Searched × Egress)
      → Trace w plan.query (start cfg lib w true) false x.1
      → let y = after_search w cfg.page plan fetchers x in
        (b : Bool) × Trace w plan.query (start cfg lib w true) b y.1 × Says plan.query y.0 y.1
  after_search-Cleared plan fetchers (exceeded, s) h = (
    false,
    h,
    nothing_found-Says quota_exhausted plan s refl
        (λ e. Trace-quiet w plan.query (start cfg lib w true) refl e h),
  )
  after_search-Cleared plan fetchers (nobody, s) h = (
    false,
    h,
    nothing_found-Says provider_failure plan s refl
        (λ e. Trace-quiet w plan.query (start cfg lib w true) refl e h),
  )
  after_search-Cleared plan fetchers (answered results searcher, s) h =
      let begun = start cfg lib w true in
      let found = read w cfg.page (take cfg.page.pages results) searcher fetchers s in
      let (b, k) =
        keep-Trace w plan.query begun cfg.page found.0 (expiry_days w cfg.page plan.freshness)
          found.1
          (read-Trace w plan.query begun cfg.page (take cfg.page.pages results) searcher fetchers s
            h) in
      (b, k, (refl, refl))

  abbrev pub IsEnding : List Text → WebOutcome × Egress → Type 0
  IsEnding names x = IsStopped x ⊎ IsCleared names x

  refuses-planned :
      (names : List Text) (q : Text)
      → (refuses lib cfg.roster_min_chars names w.mentions q ≡ none)
        ⊎ (refuses lib cfg.roster_min_chars names w.mentions q ≡ some sanitizer_refused)
  unfolding refuses
  refuses-planned names q = ground arith

  sanctioned-Ending :
      (names : List Text) (p : SanctionedPlan) (plan : WebQueryPlan)
      → w.ask ≡ some plan
      → plan.search_query ≡ some p.query
      → IsEnding names (decided cfg lib w names (sanctioned p, true))
  unfolding egress
  sanctioned-Ending names p plan e h = elim (refuses-planned names p.query) [
    | inl c ↦
        let begun = start cfg lib w true in
        let chain = cfg.searchers p.lane in
        let (b, k, says) =
          after_search-Cleared p (cfg.fetchers p.freshness) (search w p.query 0 chain begun)
            (search-Trace w p.query begun 0 chain begun refl begin) in
        rw c (
          inr (record {
            query = p.query;
            plan = plan;
            answered_plan = e;
            rewritten = h;
            clear = c;
            stored = b;
            steps = k;
            says = says;
          }))
    | inr c ↦ rw c (inl (record { reason = sanitizer_refused; ends = refl }))
  ]

  decided-Ending :
      (names : List Text) (x : Routed × Bool)
      → Honest w.ask x
      → IsEnding names (decided cfg lib w names x)
  decided-Ending names (stopped r, asks) h = inl (record { reason = r; ends = rw h refl })
  decided-Ending names (sanctioned p, asks) (e, plan, a, q) =
      rw e (sanctioned-Ending names p plan a q)

  pub decide-Ending :
      (user : Caller) (query : Text) (evidence : Evidence) (mode : WebMode) (fresh : Bool) (now : ℕ)
      → IsStopped (decide cfg lib w user query evidence mode fresh now)
        ⊎ IsCleared (roster cfg lib w user) (decide cfg lib w user query evidence mode fresh now)
  unfolding decide
  decide-Ending user query evidence mode fresh now =
      let names = roster cfg lib w user in
      let known =
        signals cfg.router lib.lower evidence.scores query evidence.candidates evidence.mentions
          names now in
      decided-Ending names
        (route cfg.router known (is_force cfg lib w mode || fresh) (is_force cfg lib w mode) w.ask)
        (route-Honest cfg.router known (is_force cfg lib w mode || fresh) (is_force cfg lib w mode)
          w.ask)
