-- ===== src/Consolidation/Known.antt =====
-- Which claims `_revisions` and `_settle_contradictions` of src/aizk/graph/writer.py name.
use aizk.Base.{
  ℕ, ◌+◌, ◌≡◌, refl, sym, ap, subst, inl, inr, true, Option, none, some, List, [], ◌∷◌, ◌++◌, In,
  All, All-append, All-of_In, elem, arith, Bool-cases, if_both, ◌==◌,
}
use aizk.Consolidation.{
  FactMatch, Action, add, update, noop, refute, ConsolidationVerdict, FactCandidate, Distances,
  is_state, ids_of, is_known, FactPlan, plan_facts, ambiguous, resolve, merged_verdicts,
  verdicts_of, Write, is_noop, writes, revised_by, tagged, revisions, contradicted, set_ordinal,
  Standoff, settle_one, settle_claim, settle_contradictions,
}
use aizk.Provenance.{decisive}
use aizk.Consolidation.Verdicts.{Fits, FitAll, Keeps, merged_verdicts-FitAll}

-- The claims that a round names: those it revises, closes as refuted, or marks disputed.
abbrev pub keys_of : List (ℕ × ℕ) → List ℕ
keys_of [] = []
keys_of ((c, o) ∷ rest) = c ∷ keys_of rest

abbrev pub revised_ids : List (ℕ × ℕ) → List ℕ
revised_ids [] = []
revised_ids ((o, id) ∷ rest) = id ∷ revised_ids rest

-- A claim that one of the plans matched.
abbrev pub IsMatched : List FactPlan → ℕ → Type 0
IsMatched ps id = (p : FactPlan) × In p ps × In id (ids_of p.matches)

IsOwn : List FactPlan → Write → Type 0
IsOwn ps w = In w.plan ps × Fits w.plan.matches w.verdict

elem-In : (id : ℕ) (ids : List ℕ) → elem id ids ≡ true → In id ids
elem-In id [] h = cc
elem-In id (i ∷ ids) h = ground (arith, elem-In id ids)

writes-IsOwn :
    (all : List FactPlan) (ordinal : ℕ) (ps : List FactPlan) (vs : List ConsolidationVerdict)
    → All (λ p. In p all) ps
    → FitAll ps vs
    → All (IsOwn all) (writes ordinal ps vs)
unfolding writes IsOwn
writes-IsOwn all ordinal [] [] m f = tt
writes-IsOwn all ordinal [] (v ∷ vs) m f = tt
writes-IsOwn all ordinal (p ∷ ps) [] m f = tt
writes-IsOwn all ordinal (p ∷ ps) (v ∷ vs) m f =
    if_both (All (IsOwn all)) (is_noop v.action) _ _ (writes-IsOwn all (ordinal + 1) ps vs m.1 f.1)
      ((m.0, f.0), writes-IsOwn all (ordinal + 1) ps vs m.1 f.1)

module _ (all : List FactPlan) (n : ℕ) (p : FactPlan) (m : In p all) where
  every_match : All (IsMatched all) (ids_of p.matches)
  every_match = All-of_In (IsMatched all) (ids_of p.matches) (λ id k. (p, m, k))

  revised_by-lem :
      (a : Action) (s : Option ℕ)
      → Fits p.matches (record { action = a; supersedes = s })
      → All (IsMatched all) (
          revised_by
            (record { ordinal = n; plan = p; verdict = record { action = a; supersedes = s } }))
  revised_by-lem add s f = tt
  revised_by-lem noop s f = tt
  revised_by-lem refute s f = tt
  revised_by-lem update none f = tt
  revised_by-lem update (some id) f =
      if_both (All (IsMatched all)) (is_state p.candidate.policy) _ _ every_match
        ((p, m, elem-In id (ids_of p.matches) f), tt)

  contradicted-lem :
      (a : Action) (s : Option ℕ)
      → Fits p.matches (record { action = a; supersedes = s })
      → (id : ℕ) → contradicted (record { action = a; supersedes = s }) ≡ some id
      → IsMatched all id
  contradicted-lem add s f id e = cc
  contradicted-lem noop s f id e = cc
  contradicted-lem update s f id e = cc
  contradicted-lem refute none f id e = cc
  contradicted-lem refute (some k) f id e = (
    p,
    m,
    elem-In id (ids_of p.matches) (subst (λ (o : Option ℕ). is_known o p.matches ≡ true) e f),
  )

revised_by-IsMatched :
    (all : List FactPlan) (w : Write) → IsOwn all w → All (IsMatched all) (revised_by w)
unfolding IsOwn
revised_by-IsMatched all w o =
    revised_by-lem all w.ordinal w.plan o.0 w.verdict.action w.verdict.supersedes o.1

contradicted-IsMatched :
    (all : List FactPlan) (w : Write)
    → IsOwn all w
    → (id : ℕ) → contradicted w.verdict ≡ some id
    → IsMatched all id
unfolding IsOwn
contradicted-IsMatched all w o id e =
    contradicted-lem all w.ordinal w.plan o.0 w.verdict.action w.verdict.supersedes o.1 id e

revised_ids-tagged :
    (n : ℕ) (ids : List ℕ) (rest : List (ℕ × ℕ))
    → revised_ids (tagged n ids ++ rest) ≡ ids ++ revised_ids rest
revised_ids-tagged n [] rest = refl
revised_ids-tagged n (id ∷ ids) rest = ap (λ (x : List ℕ). id ∷ x) (revised_ids-tagged n ids rest)

set_ordinal-All {ℓ} :
    (P : ℕ → Type ℓ) (c o : ℕ) (l : List (ℕ × ℕ))
    → P c
    → All P (keys_of l)
    → All P (keys_of (set_ordinal c o l))
set_ordinal-All P c o [] h a = (h, tt)
set_ordinal-All P c o ((d, n) ∷ rest) h a = elim (Bool-cases (d == c)) [
  | inl e ↦ rw e a
  | inr e ↦ rw e (a.0, set_ordinal-All P c o rest h a.1)
]

settle_claim-IsMatched :
    (all : List FactPlan) (claim : Option ℕ) (w : Write) (s : Standoff)
    → ((id : ℕ) → claim ≡ some id → IsMatched all id)
    → All (IsMatched all) s.retracted
    → All (IsMatched all) (keys_of s.contested)
    → All (IsMatched all) (settle_claim claim w s).retracted
      × All (IsMatched all) (keys_of (settle_claim claim w s).contested)
settle_claim-IsMatched all none w s own r c = (r, c)
settle_claim-IsMatched all (some id) w s own r c =
    elim (Bool-cases (decisive w.plan.candidate.stance)) [
      | inl d ↦ rw d (All-append (IsMatched all) s.retracted (id ∷ []) r (own id refl, tt), c)
      | inr d ↦ rw d (r, set_ordinal-All (IsMatched all) id w.ordinal s.contested (own id refl) c)
    ]

revisions-IsMatched :
    (all : List FactPlan) (ws : List Write)
    → All (IsOwn all) ws
    → All (IsMatched all) (revised_ids (revisions ws))
unfolding revisions
revisions-IsMatched all [] h = tt
revisions-IsMatched all (w ∷ ws) h =
    subst (λ (x : List ℕ). All (IsMatched all) x)
      (sym (revised_ids-tagged w.ordinal (revised_by w) (revisions ws)))
      (All-append (IsMatched all) (revised_by w) (revised_ids (revisions ws))
        (revised_by-IsMatched all w h.0) (revisions-IsMatched all ws h.1))

settle-IsMatched :
    (all : List FactPlan) (ws : List Write) (s : Standoff)
    → All (IsOwn all) ws
    → All (IsMatched all) s.retracted
    → All (IsMatched all) (keys_of s.contested)
    → All (IsMatched all) (settle_contradictions ws s).retracted
      × All (IsMatched all) (keys_of (settle_contradictions ws s).contested)
unfolding settle_contradictions
settle-IsMatched all [] s h r c = (r, c)
settle-IsMatched all (w ∷ ws) s h r c =
    let (r', c') =
      settle_claim-IsMatched all (contradicted w.verdict) w s (contradicted-IsMatched all w h.0) r
        c in
    settle-IsMatched all ws (settle_one w s) h.1 r' c'

abbrev pub no_standoff : Standoff
no_standoff = record { retracted = []; contested = [] }

-- Whatever the model answers to the ambiguous facts of a round, every plan gets a verdict, which is
-- that of the rules where the rules gave one. A verdict that updates or refutes names a claim that
-- its own plan matched, and every claim that the round revises, retracts or disputes is one that a
-- plan of the round matched.
pub round_lem :
    (d : Distances) (found : List (FactCandidate × List FactMatch))
    (resolution : List ConsolidationVerdict)
    → (vs : List ConsolidationVerdict) × (merged_verdicts
          (verdicts_of (plan_facts d found))
          (resolve 0 (ambiguous (plan_facts d found)) resolution)
        ≡ some vs)
      × FitAll (plan_facts d found) vs
      × Keeps (plan_facts d found) vs
      × All
          (IsMatched (plan_facts d found))
          (revised_ids (revisions (writes 0 (plan_facts d found) vs)))
      × All
          (IsMatched (plan_facts d found))
          (settle_contradictions (writes 0 (plan_facts d found) vs) no_standoff).retracted
      × All
          (IsMatched (plan_facts d found))
          (keys_of (settle_contradictions (writes 0 (plan_facts d found) vs) no_standoff).contested)
round_lem d found resolution =
    let ps = plan_facts d found in
    let (vs, m, f, k) = merged_verdicts-FitAll d found resolution 0 in
    let own = writes-IsOwn ps 0 ps vs (All-of_In (λ p. In p ps) ps (λ p i. i)) f in
    let (r, c) = settle-IsMatched ps (writes 0 ps vs) no_standoff own tt tt in
    (vs, m, f, k, revisions-IsMatched ps (writes 0 ps vs) own, r, c)
