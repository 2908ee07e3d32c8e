-- ===== src/Boilerplate/Sections.antt =====
-- `WebBoilerplateCleaner.prune` of src/aizk/artifacts/boilerplate.py against the sections of a page.
use aizk.Base.{
  ℕ, ◌≤◌, ◌≡◌, refl, Bool, true, false, not, none, some, List, [], ◌∷◌, leb, arith, Bool-cases, inl,
  inr, if◌then◌else◌, Option-cases,
}
use aizk.Boilerplate.{MarkdownBlock}
use aizk.Boilerplate.Cleaner.{is_empty_section, prune}

-- Whether a block that is no heading comes before the next heading of this level or above.
abbrev pub has_body : ℕ → List MarkdownBlock → Bool
has_body level [] = false
has_body level (b ∷ bs) =
    let rest = has_body level bs in
    elim b.heading_level [ none ↦ true | some l ↦ if leb l level then false else rest ]

-- Every heading judged by the whole page below it.
abbrev pub without_empty_sections : List MarkdownBlock → List MarkdownBlock
without_empty_sections [] = []
without_empty_sections (b ∷ bs) =
    let rest = without_empty_sections bs in
    elim b.heading_level [
      | none ↦ b ∷ rest
      | some level ↦ if has_body level bs then b ∷ rest else rest
    ]

has_body-deeper :
    (level l : ℕ) (bs : List MarkdownBlock)
    → level ≤ l
    → has_body l bs ≡ true
    → has_body level bs ≡ true
has_body-deeper level l [] below h = absurd (cc)
has_body-deeper level l (b ∷ bs) below h = elim (Option-cases b.heading_level) [
  | inl e ↦ rw e refl
  | inr (k, e) ↦
      let h' : (if leb k l then false else has_body l bs) ≡ true = rw e at h in
      rw e (ground (arith, has_body-deeper level l bs below))
]

empty-has_body :
    (level : ℕ) (bs : List MarkdownBlock)
    → is_empty_section level (prune bs) ≡ not (has_body level bs)
unfolding prune
empty-has_body level [] = refl
empty-has_body level (b ∷ bs) = elim (Option-cases b.heading_level) [
  | inl e ↦ rw e (rw e refl)
  | inr (l, e) ↦
      let rest = empty-has_body level bs in
      let own = empty-has_body l bs in
      let deeper = has_body-deeper level l bs in
      let shallower = has_body-deeper l level bs in
      rw e (elim (Bool-cases (has_body l bs)) [
        | inl some_body ↦ rw (own, some_body) (rw e (ground (arith, deeper)))
        | inr no_body ↦ rw (own, no_body, rest) (ground (arith, shallower))
      ])
]

-- `prune` is the page without its empty sections: a block that is no heading stays, and a heading
-- stays exactly when a block that is no heading comes before the next heading of its level or above.
pub prune-eq-without_empty_sections :
    (bs : List MarkdownBlock) → prune bs ≡ without_empty_sections bs
unfolding prune
prune-eq-without_empty_sections [] = refl
prune-eq-without_empty_sections (b ∷ bs) = elim (Option-cases b.heading_level) [
  | inl e ↦ rw (e, prune-eq-without_empty_sections bs) refl
  | inr (l, e) ↦
      rw (e, empty-has_body l bs, prune-eq-without_empty_sections bs)
        (ground (arith, Bool-cases (has_body l bs)))
]
