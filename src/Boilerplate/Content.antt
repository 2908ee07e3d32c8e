-- ===== src/Boilerplate/Content.antt =====
-- `WebBoilerplateCleaner.clean` of src/aizk/artifacts/boilerplate.py: what it keeps of a page.
use aizk.Base.{
  ℕ, ◌+◌, ◌≤◌, ◌≡◌, ◌≢◌, ◌∙◌, subst, refl, sym, ap, Bool, true, false, not, ◌&&◌, Option, none,
  List, [], ◌∷◌, leb, le→leb, arith, Bool-cases, inl, inr, ◌⊎◌, Option-cases, Subseq, done, keep,
  skip, Subseq-trans, In, Text,
}
use aizk.Boilerplate.{MarkdownBlock, Texts}
use aizk.Boilerplate.Cleaner.{
  Cleaner, below_density, content_like, in_chrome_headings, chrome, placed, closed, select,
  is_empty_section, prune, clean,
}

-- What `prune` does with one block.
prune-cases :
    (b : MarkdownBlock) (bs : List MarkdownBlock)
    → (prune (b ∷ bs) ≡ b ∷ prune bs) ⊎ ((prune (b ∷ bs) ≡ prune bs) × (b.heading_level ≢ none))
unfolding prune
prune-cases b bs = elim (Option-cases b.heading_level) [
  | inl e ↦ inl (simp (e))
  | inr (l, e) ↦ elim (Bool-cases (is_empty_section l (prune bs))) [
    | inl empty ↦ inr (simp (e, empty), λ h. cc)
    | inr full ↦ inl (simp (e, full))
  ]
]

prune-Subseq : (bs : List MarkdownBlock) → Subseq (prune bs) bs
unfolding prune
prune-Subseq [] = done
prune-Subseq (b ∷ bs) = elim (prune-cases b bs) [
  | inl e ↦ subst (λ (x : List MarkdownBlock). Subseq x (b ∷ bs)) (sym e) (keep (prune-Subseq bs))
  | inr (e, h) ↦
      subst (λ (x : List MarkdownBlock). Subseq x (b ∷ bs)) (sym e) (skip (prune-Subseq bs))
]

prune-In :
    (b : MarkdownBlock) (bs : List MarkdownBlock)
    → b.heading_level ≡ none
    → In b bs
    → In b (prune bs)
prune-In b [] h m = elim m [ ]
prune-In b (c ∷ bs) h m = elim (prune-cases c bs) [
  | inl e ↦
      subst (λ (x : List MarkdownBlock). In b x) (sym e)
        (elim m [ inl s ↦ inl s | inr n ↦ inr (prune-In b bs h n) ])
  | inr (e, other) ↦
      subst (λ (x : List MarkdownBlock). In b x) (sym e)
        (elim m [
          | inl s ↦ absurd (other (ap (λ (x : MarkdownBlock). x.heading_level) s ∙ h))
          | inr n ↦ prune-In b bs h n
        ])
]

-- A block of the article: a fenced one, or one with enough prose that is not mostly links.
abbrev pub IsProse : Cleaner → MarkdownBlock → Type 0
IsProse cfg b =
    (b.heading_level ≡ none)
    × (b.title ≡ none)
    × ((b.fenced ≡ true)
        ⊎ ((cfg.min_prose_chars ≤ b.prose_chars)
            × (cfg.min_intro_chars ≤ b.prose_chars)
            × (below_density cfg b ≡ true)))

prose-content_like : (cfg : Cleaner) (b : MarkdownBlock) → IsProse cfg b → content_like cfg b ≡ true
prose-content_like cfg b p = elim (p.2) [
  | inl f ↦ ground (arith, p.0, f)
  | inr q ↦
      let a = le→leb cfg.min_intro_chars b.prose_chars q.1 in
      ground (arith, p.0, q.2, a, Bool-cases b.fenced)
]

prose-untitled :
    (cfg : Cleaner) (b : MarkdownBlock) → IsProse cfg b → in_chrome_headings cfg b ≡ false
prose-untitled cfg b p = ground (arith, p.1)

module _ (cfg : Cleaner) (lib : Texts) (host : Text) (page : List MarkdownBlock) where
  prose-chrome :
      (b : MarkdownBlock)
      → IsProse cfg b
      → (index : ℕ) (level : Option ℕ)
      → chrome cfg lib host b (placed cfg lib host page index level b) ≡ false
  prose-chrome b p index level = elim (p.2) [
    | inl f ↦ simp f
    | inr q ↦
        let enough : leb cfg.min_prose_chars b.prose_chars ≡ true =
          le→leb cfg.min_prose_chars b.prose_chars q.0 in
        ground (arith, enough, Bool-cases b.fenced)
  ]

  -- What the loop does with one block, in the state that the block closes sections to.
  abbrev Selects : ℕ → Option ℕ × Bool → MarkdownBlock → List MarkdownBlock → Type 0
  Selects index state b bs =
      ((after : Option ℕ × Bool) × (select cfg lib host page index state (b ∷ bs)
          ≡ b ∷ select cfg lib host page (index + 1) after bs))
      ⊎ ((¬ IsProse cfg b)
          × (after : Option ℕ × Bool) × (select cfg lib host page index state (b ∷ bs)
              ≡ select cfg lib host page (index + 1) after bs))

  select-cases :
      (index : ℕ) (state : Option ℕ × Bool) (b : MarkdownBlock) (bs : List MarkdownBlock)
      → Selects index state b bs
  unfolding select
  select-cases index state b bs = elim (Bool-cases (in_chrome_headings cfg b)) [
    | inl title ↦ inr (titled title, (b.heading_level, true), rw (title, select) refl)
    | inr other ↦ elim (Bool-cases ((closed state b).1 && not (content_like cfg b))) [
      | inl dropped ↦
          inr (menu_text dropped, ((closed state b).0, true), rw (other, dropped, select) refl)
      | inr shown ↦
          elim (Bool-cases
            (chrome cfg lib host b (placed cfg lib host page index (closed state b).0 b))) [
              | inl menu ↦ inr (
                is_chrome menu,
                ((closed state b).0, false),
                rw (other, shown, menu, select) refl,
              )
              | inr text ↦ inl (((closed state b).0, false), rw (other, shown, text, select) refl)
            ]
    ]
  ]
    where
      titled : in_chrome_headings cfg b ≡ true → ¬ IsProse cfg b
      titled e p = cc (e, prose-untitled cfg b p)

      menu_text : ((closed state b).1 && not (content_like cfg b)) ≡ true → ¬ IsProse cfg b
      menu_text e p = ground (arith, e, prose-content_like cfg b p)

      is_chrome :
          chrome cfg lib host b (placed cfg lib host page index (closed state b).0 b) ≡ true
          → ¬ IsProse cfg b
      is_chrome e p = cc (e, prose-chrome b p index (closed state b).0)

  select-Subseq :
      (index : ℕ) (state : Option ℕ × Bool) (bs : List MarkdownBlock)
      → Subseq (select cfg lib host page index state bs) bs
  unfolding select
  select-Subseq index state [] = done
  select-Subseq index state (b ∷ bs) = elim (select-cases index state b bs) [
    | inl (after, e) ↦
        subst (λ (x : List MarkdownBlock). Subseq x (b ∷ bs)) (sym e)
          (keep (select-Subseq (index + 1) after bs))
    | inr (q, after, e) ↦
        subst (λ (x : List MarkdownBlock). Subseq x (b ∷ bs)) (sym e)
          (skip (select-Subseq (index + 1) after bs))
  ]

  select-In :
      (b : MarkdownBlock)
      → IsProse cfg b
      → (index : ℕ) (state : Option ℕ × Bool) (bs : List MarkdownBlock) → In b bs
      → In b (select cfg lib host page index state bs)
  select-In b p index state [] m = elim m [ ]
  select-In b p index state (c ∷ bs) m = elim (select-cases index state c bs) [
    | inl (after, e) ↦
        subst (λ (x : List MarkdownBlock). In b x) (sym e)
          (elim m [ inl s ↦ inl s | inr n ↦ inr (select-In b p (index + 1) after bs n) ])
    | inr (q, after, e) ↦
        subst (λ (x : List MarkdownBlock). In b x) (sym e)
          (elim m [
            | inl s ↦ absurd (q (subst (IsProse cfg) (sym s) p))
            | inr n ↦ select-In b p (index + 1) after bs n
          ])
  ]

-- The cleaned page is made of the page's own blocks in their order, and keeps every block that is
-- neither a heading nor titled when it is fenced, or when it has enough prose for the article and
-- for an introduction and its share of link labels is below the density.
pub clean-keeps :
    (cfg : Cleaner) (lib : Texts) (host : Text) (blocks : List MarkdownBlock) (b : MarkdownBlock)
    → IsProse cfg b
    → In b blocks
    → Subseq (clean cfg lib host blocks) blocks × In b (clean cfg lib host blocks)
unfolding clean
clean-keeps cfg lib host blocks b p m = (
  Subseq-trans (select-Subseq cfg lib host blocks 0 (none, false) blocks)
      (prune-Subseq (select cfg lib host blocks 0 (none, false) blocks)),
  prune-In b (select cfg lib host blocks 0 (none, false) blocks) p.0
      (select-In cfg lib host blocks b p 0 (none, false) blocks m),
)
