-- ===== src/Web/Receipts.antt =====
-- src/aizk/web/service.py, models.py: what the receipt, the charges and the ledger of a call say,
-- against what the call did.
use aizk.Base.{
  first_of, ℕ, zero, suc, ◌≡◌, ◌≢◌, inl, inr, refl, ap, sym, ◌∙◌, subst, Bool, true, false, Option,
  none, some, List, [], ◌∷◌, ◌++◌, Text, length, take, All, In, if◌then◌else◌, arith,
}
use aizk.Identity.{User, write_scope}
use aizk.Web.{
  Refusal, planned, web_off, WebMode, auto, off, force, Event, asked, World, WebOutcome, refused,
  fruitless, sent,
}
use aizk.Web.Sanitizer.{Letters}
use aizk.Web.Egress.{Egress}
use aizk.Web.Trace.{Carries, Paid, contacts, ordinals, upto, IsSound}
use aizk.Web.Chains.{Trace-In}
use aizk.Web.Endings.{Says, decide-Ending}
use aizk.Web.Cleared.{Cleared-IsSound, Stopped-IsSound}
use aizk.Web.Service.{
  Caller, Evidence, WebSettings, Cut, in_time, timed_out, broke, permitted, roster, start, decide,
  deadline, targeted, barred, run,
}

-- What the three receipts claim of the events of a call.
abbrev pub Truthful : Option WebOutcome × List Event → Type 0
Truthful (none, es) = es ≡ []
Truthful (some (refused r), es) = es ≡ (if planned r then asked ∷ [] else [])
Truthful (some (fruitless r query lane ps), es) =
    In asked es × (ps ≡ first_of [] (contacts es)) × (ps ≢ []) × All (Carries query) es
Truthful (some (sent findings query lane ps), es) =
    In asked es × (ps ≡ first_of [] (contacts es)) × All (Carries query) es

module _ (cfg : WebSettings) (lib : Letters) (w : World) where
  Says-Truthful :
      (query : Text) (o : WebOutcome) (s : Egress)
      → IsSound w query s
      → In asked s.events
      → Says query o s
      → Truthful (some o, s.events)
  Says-Truthful query (refused r) s h m (p, e) = rw p e
  Says-Truthful query (fruitless r q lane ps) s h m (p, same, reached, some_one) =
      (m, reached ∙ ap (first_of []) (sym h.contacted), some_one, rw same h.carried)
  Says-Truthful query (sent fs q lane ps) s h m (same, reached) =
      (m, reached ∙ ap (first_of []) (sym h.contacted), rw same h.carried)

  decide-Truthful :
      (user : Caller) (query : Text) (evidence : Evidence) (mode : WebMode) (fresh : Bool) (now : ℕ)
      → let x = decide cfg lib w user query evidence mode fresh now in
        Truthful (some x.0, x.1.events)
  decide-Truthful user query evidence mode fresh now =
      let x = decide cfg lib w user query evidence mode fresh now in
      elim (decide-Ending cfg lib w user query evidence mode fresh now) [
        | inl c ↦
            subst (λ (y : WebOutcome × Egress). Truthful (some y.0, y.1.events)) (sym c.ends) refl
        | inr c ↦
            Says-Truthful c.query x.0 x.1 (Cleared-IsSound cfg lib w (roster cfg lib w user) x c)
              (Trace-In w c.query (start cfg lib w true) asked (inl refl) c.steps) c.says
      ]

  attempted-cases :
      (P : Option WebOutcome × List Event → Type 0) (o : Option Refusal) (target : Option (List ℕ))
      (x : Option WebOutcome × List Event)
      → ((r : Refusal) → o ≡ some r → P (some (refused r), []))
      → P (none, [])
      → P x
      → P (barred cfg lib w o (targeted cfg lib w target x))
  attempted-cases P (some r) target x q n h = q r refl
  attempted-cases P none none x q n h = n
  attempted-cases P none (some target) x q n h = h

  -- What holds of a run: it did nothing and was refused for a reason that needs no planner, or
  -- raised, or it is what `decide` gave, cut where it ended.
  run-cases :
      (P : Option WebOutcome × List Event → Type 0) (user : Caller) (query : Text)
      (evidence : Evidence) (mode : WebMode) (fresh : Bool) (scopes : Option (List Text)) (now : ℕ)
      (late : Cut)
      → P (some (refused web_off), [])
      → ((r : Refusal) → permitted cfg lib w user.user ≡ some r → P (some (refused r), []))
      → P (none, [])
      → P (deadline cfg lib w late (decide cfg lib w user query evidence mode fresh now))
      → P (run cfg lib w user query evidence mode fresh scopes now late)
  unfolding run
  run-cases P user query evidence off fresh scopes now late p q n h = p
  run-cases P user query evidence auto fresh scopes now late p q n h =
      attempted-cases P (permitted cfg lib w user.user) (write_scope user.user scopes)
        (deadline cfg lib w late (decide cfg lib w user query evidence auto fresh now)) q n h
  run-cases P user query evidence force fresh scopes now late p q n h =
      attempted-cases P (permitted cfg lib w user.user) (write_scope user.user scopes)
        (deadline cfg lib w late (decide cfg lib w user query evidence force fresh now)) q n h

  permitted-unplanned :
      (user : User) (r : Refusal) → permitted cfg lib w user ≡ some r → planned r ≡ false
  permitted-unplanned user r e = grind arith

  -- A call that neither its deadline nor an error of the services it uses cuts gives a true account of
  -- itself. When it raises nonetheless, over a scope that is not writable, nothing happened; when it
  -- reports a refusal nothing happened at all, or only the planner was asked, as the reason says; when it reports that
  -- nothing came back or that a query was sent, it names exactly the providers that were contacted,
  -- each once and in the order of the first contact, and every searched query is the one it names.
  pub run-Truthful :
      (user : Caller) (query : Text) (evidence : Evidence) (mode : WebMode) (fresh : Bool)
      (scopes : Option (List Text)) (now : ℕ)
      → Truthful (run cfg lib w user query evidence mode fresh scopes now in_time)
  run-Truthful user query evidence mode fresh scopes now =
      run-cases Truthful user query evidence mode fresh scopes now in_time refl
        (λ r e. rw (permitted-unplanned user.user r e) refl) refl
        (decide-Truthful user query evidence mode fresh now)

  decide-IsSound :
      (user : Caller) (query : Text) (evidence : Evidence) (mode : WebMode) (fresh : Bool) (now : ℕ)
      → (q : Text) × IsSound w q (decide cfg lib w user query evidence mode fresh now).1
  decide-IsSound user query evidence mode fresh now =
      let x = decide cfg lib w user query evidence mode fresh now in
      elim (decide-Ending cfg lib w user query evidence mode fresh now) [
        | inl c ↦ (query, Stopped-IsSound cfg lib w query x c)
        | inr c ↦ (c.query, Cleared-IsSound cfg lib w (roster cfg lib w user) x c)
      ]

  Paid-take : (n : ℕ) (before es : List Event) → Paid w before es → Paid w before (take n es)
  Paid-take zero before es h = tt
  Paid-take (suc n) before [] h = tt
  Paid-take (suc n) before (e ∷ es) h = (h.0, Paid-take n (before ++ e ∷ []) es h.1)

  deadline-Paid :
      (late : Cut) (x : WebOutcome × Egress)
      → Paid w [] x.1.events
      → Paid w [] (deadline cfg lib w late x).1
  deadline-Paid in_time x h = h
  deadline-Paid (timed_out n) x h = Paid-take n [] x.1.events h
  deadline-Paid (broke n) x h = Paid-take n [] x.1.events h

  -- Every request to a search provider or to a page reader follows directly on its charge, which the
  -- allowance admitted in the light of everything that had happened, also when the deadline
  -- strikes or an error is raised.
  pub run-Paid :
      (user : Caller) (query : Text) (evidence : Evidence) (mode : WebMode) (fresh : Bool)
      (scopes : Option (List Text)) (now : ℕ) (late : Cut)
      → Paid w [] (run cfg lib w user query evidence mode fresh scopes now late).1
  run-Paid user query evidence mode fresh scopes now late =
      run-cases (λ x. Paid w [] x.1) user query evidence mode fresh scopes now late tt (λ r e. tt)
        tt
        (deadline-Paid late (decide cfg lib w user query evidence mode fresh now)
          (decide-IsSound user query evidence mode fresh now).1.paid)

  abbrev Numbered : List Event → Type 0
  Numbered es = ordinals es ≡ upto (length (contacts es))

  sound-Numbered : (q : Text) (s : Egress) → IsSound w q s → Numbered s.events
  sound-Numbered q s h = h.ledger ∙ ap (λ ps. upto (length ps)) (sym h.contacted)

  -- The rows that a call writes to the ledger, when neither its deadline nor an error cuts it, bear the ordinals
  -- 0, 1, 2, … in order, one for each request that was made, so no two of them collide.
  pub run-ordinals :
      (user : Caller) (query : Text) (evidence : Evidence) (mode : WebMode) (fresh : Bool)
      (scopes : Option (List Text)) (now : ℕ)
      → let es = (run cfg lib w user query evidence mode fresh scopes now in_time).1 in
        ordinals es ≡ upto (length (contacts es))
  run-ordinals user query evidence mode fresh scopes now =
      let (q, h) = decide-IsSound user query evidence mode fresh now in
      run-cases (λ x. Numbered x.1) user query evidence mode fresh scopes now in_time refl
        (λ r e. refl) refl
        (sound-Numbered q (decide cfg lib w user query evidence mode fresh now).1 h)
