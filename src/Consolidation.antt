-- ===== src/Consolidation.antt =====
-- src/aizk/graph/consolidation.py and graph/writer.py: the verdict on each new fact against the
-- live claims that match it, and what the write round does with the verdicts. Identifiers,
-- moments and distances are numbers.
pub mod Verdicts
pub mod Known
pub mod Standoffs
use aizk.Base.{
  ℕ, zero, suc, ◌+◌, Bool, true, false, not, ◌&&◌, ◌||◌, Option, none, some, List, [], ◌∷◌, ◌++◌,
  map, length, get_elem?, ltb, ◌==◌, opt_eq, elem, if◌then◌else◌,
}
use aizk.Provenance.{Stance, decisive}

pub data RelationPolicy : Type 0 where
  set state event : RelationPolicy

pub record FactMatch : Type 0 where
  pub id : ℕ
  pub object_id : Option ℕ
  pub distance : ℕ

pub data Action : Type 0 where
  add update noop refute : Action

pub record ConsolidationVerdict : Type 0 where
  pub action : Action
  pub supersedes : Option ℕ

-- `ConsolidationVerdict(action=...)`, which supersedes nothing.
abbrev pub plain : Action → ConsolidationVerdict
plain a = record { action = a; supersedes = none }

-- What a plan carries of its candidate fact, with the policy of its relation.
pub record FactCandidate : Type 0 where
  pub policy : RelationPolicy
  pub object_id : Option ℕ
  pub contests : Bool
  pub stance : Stance

pub record Distances : Type 0 where
  pub borderline : ℕ
  pub automatic : ℕ

abbrev pub is_state : RelationPolicy → Bool
is_state state = true
is_state _ = false

abbrev pub ids_of : List FactMatch → List ℕ
ids_of [] = []
ids_of (m ∷ ms) = m.id ∷ ids_of ms

-- `decide`; `none` leaves the candidate to the model.
unfoldable pub decide : Distances → FactCandidate → List FactMatch → Option ConsolidationVerdict
decide d c [] = some (plain add)
decide d c (best ∷ others) =
    if c.contests
    then none
    else if is_state c.policy
    then (if (length others == 0) && opt_eq best.object_id c.object_id
        then some (plain noop)
        else some (record { action = update; supersedes = some best.id }))
    else if ltb d.borderline best.distance
    then some (plain add)
    else if ltb d.automatic best.distance
    then none
    else if opt_eq best.object_id c.object_id
    then some (plain noop)
    else some (plain add)

abbrev pub is_known : Option ℕ → List FactMatch → Bool
is_known none existing = false
is_known (some id) existing = elem id (ids_of existing)

abbrev pub checked : List FactMatch → ConsolidationVerdict → ConsolidationVerdict
checked existing v = elim v.action [
  | add ↦ plain add
  | noop ↦ plain noop
  | update ↦ if is_known v.supersedes existing then v else plain add
  | refute ↦ if is_known v.supersedes existing then v else plain add
]

-- `_resolved_verdict`, over the verdicts that the model answered with.
abbrev pub resolved_verdict : ℕ → List FactMatch → List ConsolidationVerdict → ConsolidationVerdict
resolved_verdict index existing resolution = elim (get_elem? resolution index) [
  | none ↦ plain add
  | some v ↦ checked existing v
]

-- `FactPlan`, less the vector.
pub record FactPlan : Type 0 where
  pub candidate : FactCandidate
  pub matches : List FactMatch
  pub verdict : Option ConsolidationVerdict

-- `plan_facts`, on the matches that the database ranked.
abbrev pub plan_facts : Distances → List (FactCandidate × List FactMatch) → List FactPlan
plan_facts d [] = []
plan_facts d ((c, ms) ∷ rest) =
    record { candidate = c; matches = ms; verdict = decide d c ms } ∷ plan_facts d rest

abbrev pub ambiguous : List FactPlan → List FactPlan
ambiguous [] = []
ambiguous (p ∷ ps) = let rest = ambiguous ps in elim p.verdict [ none ↦ p ∷ rest | some v ↦ rest ]

-- `resolve`, on the ambiguous plans from one position on.
abbrev pub resolve : ℕ → List FactPlan → List ConsolidationVerdict → List ConsolidationVerdict
resolve index [] resolution = []
resolve index (p ∷ ps) resolution =
    resolved_verdict index p.matches resolution ∷ resolve (index + 1) ps resolution

abbrev pub and_then :
    ConsolidationVerdict → Option (List ConsolidationVerdict) → Option (List ConsolidationVerdict)
and_then v none = none
and_then v (some vs) = some (v ∷ vs)

-- `merged_verdicts`; `none` says that `next` found no verdict left.
unfoldable pub merged_verdicts :
    List (Option ConsolidationVerdict)
    → List ConsolidationVerdict
    → Option (List ConsolidationVerdict)
merged_verdicts [] pending = some []
merged_verdicts (some v ∷ vs) pending = and_then v (merged_verdicts vs pending)
merged_verdicts (none ∷ vs) [] = none
merged_verdicts (none ∷ vs) (r ∷ pending) = and_then r (merged_verdicts vs pending)

abbrev pub verdicts_of : List FactPlan → List (Option ConsolidationVerdict)
verdicts_of [] = []
verdicts_of (p ∷ ps) = p.verdict ∷ verdicts_of ps

pub record Write : Type 0 where
  pub ordinal : ℕ
  pub plan : FactPlan
  pub verdict : ConsolidationVerdict

abbrev pub is_noop : Action → Bool
is_noop noop = true
is_noop _ = false

-- `_writes`, from one ordinal on.
unfoldable pub writes : ℕ → List FactPlan → List ConsolidationVerdict → List Write
writes ordinal (p ∷ ps) (v ∷ vs) =
    let rest = writes (ordinal + 1) ps vs in
    if is_noop v.action then rest else record { ordinal = ordinal; plan = p; verdict = v } ∷ rest
writes ordinal _ _ = []

-- `_revisions`, less the validity interval: the claims that each write closes.
abbrev pub revised_by : Write → List ℕ
revised_by w = elim w.verdict.action [
  | update ↦ elim w.verdict.supersedes [
    | none ↦ []
    | some id ↦ if is_state w.plan.candidate.policy then ids_of w.plan.matches else id ∷ []
  ]
  | _ ↦ []
]

abbrev pub tagged : ℕ → List ℕ → List (ℕ × ℕ)
tagged ordinal [] = []
tagged ordinal (id ∷ ids) = (ordinal, id) ∷ tagged ordinal ids

unfoldable pub revisions : List Write → List (ℕ × ℕ)
revisions [] = []
revisions (w ∷ ws) = tagged w.ordinal (revised_by w) ++ revisions ws

-- `ConsolidationVerdict.contradicted`
abbrev pub contradicted : ConsolidationVerdict → Option ℕ
contradicted v = elim v.action [ refute ↦ v.supersedes | _ ↦ none ]

-- Assignment to a dict: a key that is there keeps its place.
abbrev pub set_ordinal : ℕ → ℕ → List (ℕ × ℕ) → List (ℕ × ℕ)
set_ordinal claim ordinal [] = (claim, ordinal) ∷ []
set_ordinal claim ordinal ((c, o) ∷ rest) =
    let tail = set_ordinal claim ordinal rest in
    if c == claim then (c, ordinal) ∷ rest else (c, o) ∷ tail

pub record Standoff : Type 0 where
  pub retracted : List ℕ
  pub contested : List (ℕ × ℕ)

abbrev pub settle_claim : Option ℕ → Write → Standoff → Standoff
settle_claim none w s = s
settle_claim (some claim) w s =
    if decisive w.plan.candidate.stance
    then record s { retracted = s.retracted ++ claim ∷ [] }
    else record s { contested = set_ordinal claim w.ordinal s.contested }

abbrev pub settle_one : Write → Standoff → Standoff
settle_one w s = settle_claim (contradicted w.verdict) w s

-- The loop of `_settle_contradictions`.
unfoldable pub settle_contradictions : List Write → Standoff → Standoff
settle_contradictions [] s = s
settle_contradictions (w ∷ ws) s = settle_contradictions ws (settle_one w s)

abbrev pub ordinals_of : List (ℕ × ℕ) → List ℕ
ordinals_of [] = []
ordinals_of ((c, o) ∷ rest) = o ∷ ordinals_of rest

-- `_write_rows`: the stance that a write's own claim is stored with.
abbrev pub stored_stance : Standoff → Write → Stance
stored_stance s w =
    if elem w.ordinal (ordinals_of s.contested) then Stance.disputed else w.plan.candidate.stance
