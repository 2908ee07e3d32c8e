-- ===== src/Consolidation/Verdicts.antt =====
-- The verdicts of one round: `decide`, `_resolved_verdict` and `merged_verdicts`.
use aizk.Base.{
  ℕ, ◌+◌, ◌≡◌, refl, subst, inl, inr, true, ◌&&◌, Option, none, some, List, [], ◌∷◌, length,
  get_elem?, arith, Bool-cases, Option-cases, if_both, opt_eq, ltb, ◌==◌,
}
use aizk.Consolidation.{
  FactMatch, Action, add, update, noop, refute, ConsolidationVerdict, plain, FactCandidate,
  Distances, is_state, decide, is_known, checked, resolved_verdict, FactPlan, plan_facts, ambiguous,
  resolve, merged_verdicts, verdicts_of,
}

-- A verdict that names a claim names one of the matches; one that adds or skips names none.
abbrev pub Fits : List FactMatch → ConsolidationVerdict → Type 0
Fits ms v = elim v.action [
  | add ↦ v.supersedes ≡ none
  | noop ↦ v.supersedes ≡ none
  | update ↦ is_known v.supersedes ms ≡ true
  | refute ↦ is_known v.supersedes ms ≡ true
]

abbrev pub FitAll : List FactPlan → List ConsolidationVerdict → Type 0
FitAll [] [] = Unit
FitAll [] (v ∷ vs) = ⊥
FitAll (p ∷ ps) [] = ⊥
FitAll (p ∷ ps) (v ∷ vs) = Fits p.matches v × FitAll ps vs

abbrev FitsMaybe : List FactMatch → Option ConsolidationVerdict → Type 0
FitsMaybe ms none = Unit
FitsMaybe ms (some v) = Fits ms v

decide-FitsMaybe :
    (d : Distances) (c : FactCandidate) (ms : List FactMatch) → FitsMaybe ms (decide d c ms)
unfolding decide
decide-FitsMaybe d c [] = refl
decide-FitsMaybe d c (best ∷ others) = if_both P c.contests _ _ tt (
    if_both P (is_state c.policy) _ _
      (if_both P ((length others == 0) && opt_eq best.object_id c.object_id) _ _ refl
        (ground (arith)))
      (if_both P (ltb d.borderline best.distance) _ _ refl (
        if_both P (ltb d.automatic best.distance) _ _ tt
          (if_both P (opt_eq best.object_id c.object_id) _ _ refl refl))))
  where
    P : Option ConsolidationVerdict → Type 0
    P v = FitsMaybe (best ∷ others) v

checked-Fits :
    (ms : List FactMatch) (a : Action) (s : Option ℕ)
    → Fits ms (checked ms (record { action = a; supersedes = s }))
checked-Fits ms add s = refl
checked-Fits ms noop s = refl
checked-Fits ms update s = ground (arith, Bool-cases (is_known s ms))
checked-Fits ms refute s = ground (arith, Bool-cases (is_known s ms))

resolved_verdict-Fits :
    (ms : List FactMatch) (answer : Option ConsolidationVerdict)
    → Fits ms (elim answer [ none ↦ plain add | some v ↦ checked ms v ])
resolved_verdict-Fits ms none = refl
resolved_verdict-Fits ms (some v) = checked-Fits ms v.action v.supersedes

-- The verdicts that the rules gave are the ones that a merge keeps.
abbrev pub Keeps : List FactPlan → List ConsolidationVerdict → Type 0
Keeps [] vs = Unit
Keeps (p ∷ ps) [] = ⊥
Keeps (p ∷ ps) (v ∷ vs) = elim p.verdict [ none ↦ Unit | some w ↦ v ≡ w ] × Keeps ps vs

pub merged_verdicts-FitAll :
    (d : Distances) (found : List (FactCandidate × List FactMatch))
    (resolution : List ConsolidationVerdict) (index : ℕ)
    → (vs : List ConsolidationVerdict) × (merged_verdicts
          (verdicts_of (plan_facts d found))
          (resolve index (ambiguous (plan_facts d found)) resolution)
        ≡ some vs)
      × FitAll (plan_facts d found) vs
      × Keeps (plan_facts d found) vs
unfolding merged_verdicts
merged_verdicts-FitAll d [] resolution index = ([], refl, tt, tt)
merged_verdicts-FitAll d ((c, ms) ∷ rest) resolution index = elim (Option-cases (decide d c ms)) [
  | inl e ↦
      let (vs, m, f, k) = merged_verdicts-FitAll d rest resolution (index + 1) in
      (
        resolved_verdict index ms resolution ∷ vs,
        rw (e, m, merged_verdicts) refl,
        (resolved_verdict-Fits ms (get_elem? resolution index), f),
        (rw e tt, k),
      )
  | inr (v, e) ↦
      let (vs, m, f, k) = merged_verdicts-FitAll d rest resolution index in
      (
        v ∷ vs,
        rw (e, m, merged_verdicts) refl,
        (subst (FitsMaybe ms) e (decide-FitsMaybe d c ms), f),
        (rw e refl, k),
      )
]
