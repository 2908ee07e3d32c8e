-- ===== src/Consolidation/Standoffs.antt =====
-- `_settle_contradictions` of src/aizk/graph/writer.py: which refuted claims are retracted and which
-- are left in dispute, and on whose account.
use aizk.Base.{
  ℕ, ◌≡◌, ◌≢◌, refl, ap, ◌∙◌, inl, inr, Bool, false, not, ◌&&◌, ◌||◌, Option, none, some, List, [],
  ◌∷◌, ◌++◌, elem, arith, Bool-cases, if◌then◌else◌, ◌==◌, ==_refl,
}
use aizk.Consolidation.{
  Write, contradicted, set_ordinal, Standoff, settle_one, settle_claim, settle_contradictions,
  stored_stance,
}
use aizk.Consolidation.Known.{no_standoff}
use aizk.Provenance.{Stance, decisive}

-- Reading the dict of contested claims.
abbrev pub ordinal_of : ℕ → List (ℕ × ℕ) → Option ℕ
ordinal_of claim [] = none
ordinal_of claim ((c, o) ∷ rest) =
    let later = ordinal_of claim rest in if c == claim then some o else later

abbrev pub names : ℕ → Option ℕ → Bool
names claim none = false
names claim (some c) = c == claim

abbrev pub refutes : ℕ → Write → Bool
refutes claim w = names claim (contradicted w.verdict)

-- The last write that refutes a claim without being definite about it.
abbrev pub last_doubt : ℕ → List Write → Option ℕ → Option ℕ
last_doubt claim [] before = before
last_doubt claim (w ∷ ws) before =
    last_doubt claim ws
      (if refutes claim w && not (decisive w.plan.candidate.stance) then some w.ordinal else before)

-- Whether a write that is definite refutes the claim.
abbrev pub refuted_by : ℕ → List Write → Bool
refuted_by claim [] = false
refuted_by claim (w ∷ ws) =
    (refutes claim w && decisive w.plan.candidate.stance) || refuted_by claim ws

ordinal_of-set_ordinal :
    (claim c o : ℕ) (l : List (ℕ × ℕ))
    → ordinal_of claim (set_ordinal c o l) ≡ (if c == claim then some o else ordinal_of claim l)
ordinal_of-set_ordinal claim c o [] = ground arith
ordinal_of-set_ordinal claim c o ((d, n) ∷ rest) =
    ground (arith, ordinal_of-set_ordinal claim c o rest)

elem-append : (n : ℕ) (xs : List ℕ) (y : ℕ) → elem n (xs ++ y ∷ []) ≡ (elem n xs || (y == n))
elem-append n [] y = ground arith
elem-append n (x ∷ xs) y = ground (arith, elem-append n xs y)

settle_claim-lem :
    (claim : ℕ) (c : Option ℕ) (w : Write) (s : Standoff)
    → (ordinal_of claim (settle_claim c w s).contested ≡ (
        if names claim c && not (decisive w.plan.candidate.stance)
        then some w.ordinal
        else ordinal_of claim s.contested))
      × (elem claim (settle_claim c w s).retracted
          ≡ (elem claim s.retracted || (names claim c && decisive w.plan.candidate.stance)))
settle_claim-lem claim none w s = (refl, ground arith)
settle_claim-lem claim (some c) w s = elim (Bool-cases (decisive w.plan.candidate.stance)) [
  | inl d ↦ rw d (ground arith, ground (arith, elem-append claim s.retracted c))
  | inr d ↦
      rw d (ground (arith, ordinal_of-set_ordinal claim c w.ordinal s.contested), ground arith)
]

-- After the writes of a round, a claim is retracted exactly when it was before or a definite write
-- refutes it, and it is disputed on account of the last write that refutes it without being
-- definite, or as before when there is none.
pub settle_lem :
    (claim : ℕ) (ws : List Write) (s : Standoff)
    → (ordinal_of claim (settle_contradictions ws s).contested
        ≡ last_doubt claim ws (ordinal_of claim s.contested))
      × (elem claim (settle_contradictions ws s).retracted
          ≡ (elem claim s.retracted || refuted_by claim ws))
unfolding settle_contradictions
settle_lem claim [] s = (refl, ground arith)
settle_lem claim (w ∷ ws) s =
    let (o, e) = settle_claim-lem claim (contradicted w.verdict) w s in
    let (os, es) = settle_lem claim ws (settle_one w s) in
    (os ∙ ap (last_doubt claim ws) o, ground (arith, e, es))

-- In a round of exactly two writes that refute the same claim, with different ordinals and neither
-- definite, only the second one's own claim is stored as disputed; the first one's keeps the stance
-- that it came with.
pub first_doubt_kept :
    (first second : Write) (claim : ℕ)
    → contradicted first.verdict ≡ some claim
    → contradicted second.verdict ≡ some claim
    → decisive first.plan.candidate.stance ≡ false
    → decisive second.plan.candidate.stance ≡ false
    → first.ordinal ≢ second.ordinal
    → (stored_stance (settle_contradictions (first ∷ second ∷ []) no_standoff) first
        ≡ first.plan.candidate.stance)
      × (stored_stance (settle_contradictions (first ∷ second ∷ []) no_standoff) second
          ≡ Stance.disputed)
unfolding settle_contradictions
first_doubt_kept first second claim a b c d e =
    rw (a, b, c, d, ==_refl claim) (ground arith, ground arith)
