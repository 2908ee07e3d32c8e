-- ===== src/Retrieval/Packing/Dedupe.antt =====
-- `deduplicate` of src/aizk/retrieval/packing/budget.py against a description by the ranking alone.
use aizk.Base.{
  ℕ, ◌≡◌, refl, ap, ◌&&◌, Bool, true, false, not, none, some, List, [], ◌∷◌, elem, any_by,
  filter_by, opt_eq, Option-cases, Bool-cases, inl, inr, arith, if◌then◌else◌, Subseq, done, keep,
  skip,
}
use aizk.Provenance.{is_settled}
use aizk.Retrieval.Candidate.{Candidate}
use aizk.Retrieval.Packing.{is_sources, repeats, speaks, dedupe_from, deduplicate}

-- A settled candidate from the span `k`.
abbrev pub speaks_for : ℕ → Candidate → Bool
speaks_for k d = is_settled d.stance && opt_eq d.source_chunk_id (some k)

-- The excerpt `c` comes from a span for which a settled candidate of `before` speaks.
abbrev pub repeated_by : List Candidate → Candidate → Bool
repeated_by before c = elim c.source_chunk_id [
  | none ↦ false
  | some k ↦ is_sources c.lane && any_by (speaks_for k) before
]

-- Drops each excerpt that something ranked above it repeats, whether that was kept or not.
abbrev pub without_repeats : List Candidate → List Candidate → List Candidate
without_repeats before [] = []
without_repeats before (c ∷ cs) =
    let rest = without_repeats (c ∷ before) cs in if repeated_by before c then rest else c ∷ rest

-- `represented` holds the spans that a settled candidate of `before` comes from.
abbrev Represents : List ℕ → List Candidate → Type 0
Represents represented before = (k : ℕ) → elem k represented ≡ any_by (speaks_for k) before

speaks-Represents :
    (represented : List ℕ) (before : List Candidate) (c : Candidate)
    → Represents represented before
    → Represents (speaks represented c) (c ∷ before)
speaks-Represents represented before c h k = elim (Option-cases c.source_chunk_id) [
  | inl absent ↦ rw absent (ground (arith, h k))
  | inr (j, given) ↦ rw given (ground (arith, h k, h j))
]

repeats-eq-repeated_by :
    (represented : List ℕ) (before : List Candidate) (c : Candidate)
    → Represents represented before
    → repeats represented c ≡ repeated_by before c
repeats-eq-repeated_by represented before c h = elim (Option-cases c.source_chunk_id) [
  | inl absent ↦ rw absent
  | inr (j, given) ↦ rw (given, h j)
]

dedupe_from-eq :
    (represented : List ℕ) (before cs : List Candidate)
    → Represents represented before
    → dedupe_from represented cs ≡ without_repeats before cs
unfolding dedupe_from
dedupe_from-eq represented before [] h = refl
dedupe_from-eq represented before (c ∷ cs) h = rw (
  repeats-eq-repeated_by represented before c h,
  dedupe_from-eq (speaks represented c) (c ∷ before) cs (speaks-Represents represented before c h),
)

-- An item is dropped exactly when it is a source excerpt from a span that a settled item ranked
-- above it comes from. That item may itself have been dropped.
pub deduplicate-eq-without_repeats : (cs : List Candidate) → deduplicate cs ≡ without_repeats [] cs
unfolding deduplicate
deduplicate-eq-without_repeats cs = dedupe_from-eq [] [] cs (λ k. refl)

-- Every item that is no source excerpt is kept, in its order.
pub others-deduplicate :
    (cs : List Candidate)
    → filter_by (λ c. not (is_sources c.lane)) (deduplicate cs)
      ≡ filter_by (λ c. not (is_sources c.lane)) cs
unfolding deduplicate
others-deduplicate cs = go [] cs
  where
    go :
        (r : List ℕ) (cs : List Candidate)
        → filter_by (λ c. not (is_sources c.lane)) (dedupe_from r cs)
          ≡ filter_by (λ c. not (is_sources c.lane)) cs
    go r [] = refl
    go r (c ∷ cs) = ground (arith, go (speaks r c) cs)

speaks-of_repeats : (r : List ℕ) (c : Candidate) → repeats r c ≡ true → speaks r c ≡ r
speaks-of_repeats r c h = ground arith

dedupe_from_idem :
    (r : List ℕ) (cs : List Candidate) → dedupe_from r (dedupe_from r cs) ≡ dedupe_from r cs
unfolding dedupe_from
dedupe_from_idem r [] = refl
dedupe_from_idem r (c ∷ cs) = elim (Bool-cases (repeats r c)) [
  | inl drop ↦ rw drop (rw (speaks-of_repeats r c drop) (dedupe_from_idem r cs))
  | inr kept ↦ rw kept (rw kept (ap (λ t. c ∷ t) (dedupe_from_idem (speaks r c) cs)))
]

-- A second pass drops nothing more.
pub deduplicate_idem : (cs : List Candidate) → deduplicate (deduplicate cs) ≡ deduplicate cs
unfolding deduplicate
deduplicate_idem = dedupe_from_idem []

dedupe_from-Subseq : (r : List ℕ) (cs : List Candidate) → Subseq (dedupe_from r cs) cs
unfolding dedupe_from
dedupe_from-Subseq r [] = done
dedupe_from-Subseq r (c ∷ cs) = elim (Bool-cases (repeats r c)) [
  | inl drop ↦ rw drop (skip (dedupe_from-Subseq (speaks r c) cs))
  | inr kept ↦ rw kept (keep (dedupe_from-Subseq (speaks r c) cs))
]

pub deduplicate-Subseq : (cs : List Candidate) → Subseq (deduplicate cs) cs
unfolding deduplicate
deduplicate-Subseq = dedupe_from-Subseq []
