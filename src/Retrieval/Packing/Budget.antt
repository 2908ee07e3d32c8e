-- ===== src/Retrieval/Packing/Budget.antt =====
-- `pack` of src/aizk/retrieval/packing/budget.py: the budget, the merit order, and the trimmed item.
use mathlib.Core.List.{cons≢nil}
use aizk.Base.{
  length-take, All, subst, ℕ, ◌+◌, ◌-◌, ◌*◌, ◌/◌, ◌≤◌, ◌<◌, zero, suc, ◌≡◌, ◌≢◌, ◌⊎◌, inl, inr,
  refl, ap, ◌∙◌, List, [], ◌∷◌, ◌++◌, leb, length, take, length-append, Subseq, done, keep, skip,
  Bool-cases, arith, if◌then◌else◌,
}
use native.Mathlib.Nat.{le-div_iff_mul-le, div-lt_iff_lt-mul}
use aizk.Retrieval.Candidate.{
  Candidate, Settings, token_count, trimmed, annotation_chars, trim_room, trim_marker,
}
use aizk.Retrieval.Packing.{walk, pack, or_trimmed}

-- What a pack costs: every item's tokens, and one for the line break behind it.
abbrev pub total_cost : Settings → List Candidate → ℕ
total_cost s [] = 0
total_cost s (c ∷ cs) = token_count s c + 1 + total_cost s cs

pub walk-Subseq : (s : Settings) (cs : List Candidate) (room : ℕ) → Subseq (walk s cs room) cs
unfolding walk
walk-Subseq s [] room = done
walk-Subseq s (c ∷ cs) room = elim (Bool-cases (leb (token_count s c + 1) room)) [
  | inl fits ↦ rw fits (keep (walk-Subseq s cs (room - (token_count s c + 1))))
  | inr large ↦ rw large (skip (walk-Subseq s cs room))
]

pub total_cost-walk :
    (s : Settings) (cs : List Candidate) (room : ℕ) → total_cost s (walk s cs room) ≤ room
unfolding walk
total_cost-walk s [] room = omega arith
total_cost-walk s (c ∷ cs) room =
    let cost = token_count s c + 1 in
    ground (arith, total_cost-walk s cs (room - cost), total_cost-walk s cs room)

-- The walk over what is ranked lower starts with the room that the kept items above it leave.
walk-append :
    (s : Settings) (before rest : List Candidate) (room : ℕ)
    → walk s (before ++ rest) room
      ≡ walk s before room ++ walk s rest (room - total_cost s (walk s before room))
unfolding walk
walk-append s [] rest room = ap (walk s rest) (omega arith)
walk-append s (b ∷ before) rest room =
    let cost = token_count s b + 1 in
    let spent : ℕ = total_cost s (walk s before (room - cost)) in
    let same : room - cost - spent ≡ room - (cost + spent) = omega arith in
    elim (Bool-cases (leb cost room)) [
      | inl fits ↦ rw fits (cc (walk-append s before rest (room - cost), same))
      | inr large ↦ rw large (walk-append s before rest room)
    ]

-- An item is offered the room that the kept items ranked above it leave, and is kept exactly when
-- it fits that room: an oversized item takes no room and what is ranked below it is still offered.
pub walk_greedy :
    (s : Settings) (before : List Candidate) (c : Candidate) (after : List Candidate) (room : ℕ)
    → walk s (before ++ c ∷ after) room ≡ (
        let left = room - total_cost s (walk s before room) in
        walk s before room
        ++ (if leb (token_count s c + 1) left
            then c ∷ walk s after (left - (token_count s c + 1))
            else walk s after left))
unfolding walk
walk_greedy s before c after room =
    walk-append s before (c ∷ after) room ∙ ap (λ t. walk s before room ++ t) (ground arith)

pub length-trimmed-line :
    (s : Settings) (c : Candidate) (budget : ℕ)
    → annotation_chars s.printer c + 1 ≤ trim_room s budget
    → length (trimmed s c budget).line + annotation_chars s.printer c ≤ trim_room s budget
unfolding trimmed
length-trimmed-line s c budget h =
    let keep = trim_room s budget - annotation_chars s.printer c - 1 in
    omega (arith, length-append (take keep c.line) trim_marker, length-take keep c.line)

ceil-le : (n m c t : ℕ) → 0 < c → 0 < t → n ≤ m * c / t → (n * t + (c - 1)) / c ≤ m
ceil-le n m c t hc ht h =
    let small : n * t ≤ m * c = (le-div_iff_mul-le ht).0 h in
    let below : (n * t + (c - 1)) / c < m + 1 = (div-lt_iff_lt-mul hc).1 (grind (arith)) in
    omega arith

annotation_chars-trimmed :
    (s : Settings) (c : Candidate) (budget : ℕ)
    → annotation_chars s.printer (trimmed s c budget) ≡ annotation_chars s.printer c
unfolding trimmed annotation_chars
annotation_chars-trimmed s c budget = refl

cost-trimmed-le :
    (s : Settings) (c : Candidate) (budget : ℕ)
    → 0 < s.chars
    → 0 < s.tokens
    → annotation_chars s.printer c + 1 ≤ trim_room s budget
    → token_count s (trimmed s c budget) + 1 ≤ budget
unfolding token_count
cost-trimmed-le s c zero hc ht h = absurd (omega arith)
cost-trimmed-le s c (suc b) hc ht h = rw annotation_chars-trimmed (
    omega (
      arith,
      ceil-le (length (trimmed s c (suc b)).line + annotation_chars s.printer c) (suc b - 1) s.chars
          s.tokens hc ht (length-trimmed-line s c (suc b) h),
    ))

-- The best item's handles and the marker fit the budget.
abbrev pub HandlesFit : Settings → ℕ → List Candidate → Type 0
HandlesFit s budget [] = Unit
HandlesFit s budget (c ∷ cs) = annotation_chars s.printer c + 1 ≤ trim_room s budget

-- A pack never costs more than the budget, the trimmed one included, as soon as the budget holds
-- the handles of the best item and the marker behind its text.
pub pack-le_budget :
    (s : Settings) (cs : List Candidate) (budget : ℕ)
    → 0 < s.chars
    → 0 < s.tokens
    → HandlesFit s budget cs
    → total_cost s (pack s cs budget) ≤ budget
unfolding pack
pack-le_budget s [] budget hc ht h = omega arith
pack-le_budget s (c ∷ cs) budget hc ht h =
    go (walk s (c ∷ cs) budget) (total_cost-walk s (c ∷ cs) budget)
  where
    go :
        (kept : List Candidate)
        → total_cost s kept ≤ budget
        → total_cost s (or_trimmed s budget kept (c ∷ cs)) ≤ budget
    go [] fits = omega (arith, cost-trimmed-le s c budget hc ht h)
    go (k ∷ kept) fits = fits

walk-nil :
    (s : Settings) (cs : List Candidate) (room : ℕ)
    → walk s cs room ≡ []
    → All (λ c. room < token_count s c + 1) cs
unfolding walk
walk-nil s [] room h = tt
walk-nil s (c ∷ cs) room h = elim (Bool-cases (leb (token_count s c + 1) room)) [
  | inl fits ↦ absurd (cons≢nil (rw fits at h))
  | inr large ↦ (ground arith, walk-nil s cs room (rw large at h))
]

-- The pack of a ranking that is not empty is the ranking with some, but not all, items left out;
-- or no item fits the budget, and the pack is the best item alone and trimmed.
pub pack_cases :
    (s : Settings) (c : Candidate) (cs : List Candidate) (budget : ℕ)
    → (pack s (c ∷ cs) budget ≢ []) × Subseq (pack s (c ∷ cs) budget) (c ∷ cs)
      ⊎ All (λ d. budget < token_count s d + 1) (c ∷ cs)
        × (pack s (c ∷ cs) budget ≡ trimmed s c budget ∷ [])
unfolding pack
pack_cases s c cs budget = go (walk s (c ∷ cs) budget) refl
  where
    go :
        (kept : List Candidate)
        → walk s (c ∷ cs) budget ≡ kept
        → (or_trimmed s budget kept (c ∷ cs) ≢ [])
            × Subseq (or_trimmed s budget kept (c ∷ cs)) (c ∷ cs)
          ⊎ All (λ d. budget < token_count s d + 1) (c ∷ cs)
            × (or_trimmed s budget kept (c ∷ cs) ≡ trimmed s c budget ∷ [])
    go [] e = inr (walk-nil s (c ∷ cs) budget e, refl)
    go (k ∷ kept) e =
        inl (cons≢nil, subst (λ t. Subseq t (c ∷ cs)) e (walk-Subseq s (c ∷ cs) budget))
