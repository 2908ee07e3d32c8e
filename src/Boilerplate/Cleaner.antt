-- ===== src/Boilerplate/Cleaner.antt =====
-- src/aizk/artifacts/boilerplate.py: `WebBoilerplateCleaner` over the blocks of one page. A share
-- of characters is compared as a fraction, by products.
use aizk.Base.{
  text_eq, one_of, ℕ, ◌+◌, ◌*◌, Bool, true, false, not, ◌&&◌, ◌||◌, Option, none, some, List, [],
  ◌∷◌, Text, length, ltb, leb, ◌==◌, if◌then◌else◌,
}
use aizk.Boilerplate.{
  MarkdownBlock, Texts, is_heading, has_links, visible_chars, signature, site_local,
}

pub record BlockPlacement : Type 0 where
  pub repeated : Bool
  pub outside : Bool
  pub sectioned : Bool

abbrev pub corroborates : BlockPlacement → Bool
corroborates p = p.outside || p.sectioned

-- `link_density` is `density_top / density_bottom`.
pub record Cleaner : Type 0 where
  pub density_top : ℕ
  pub density_bottom : ℕ
  pub min_prose_chars : ℕ
  pub min_intro_chars : ℕ
  pub min_menu_links : ℕ
  pub max_menu_chars : ℕ
  pub chrome_headings : List Text

-- The positions from the first to before the second.
abbrev pub Span : Type 0
Span = ℕ × ℕ

abbrev pub within : ℕ → Span → Bool
within i (first, stop) = leb first i && ltb i stop

-- Whether one heading closes the chrome section that a shallower heading opened.
abbrev pub outranks : MarkdownBlock → ℕ → Bool
outranks b chrome_level = elim b.heading_level [ none ↦ false | some l ↦ leb l chrome_level ]

-- The chrome section that is open when the block comes, and whether it is discarded.
abbrev pub closed : Option ℕ × Bool → MarkdownBlock → Option ℕ × Bool
closed (none, discarding) b = (none, discarding)
closed (some level, discarding) b =
    if outranks b level then (none, false) else (some level, discarding)

module _ (cfg : Cleaner) where
  -- `link_share < link_density`; a block without readable characters has the share 1.
  abbrev pub below_density : MarkdownBlock → Bool
  below_density b =
      if visible_chars b == 0
      then ltb cfg.density_bottom cfg.density_top
      else ltb (b.label_chars * cfg.density_bottom) (cfg.density_top * visible_chars b)

  abbrev pub content_like : MarkdownBlock → Bool
  content_like b =
      if is_heading b
      then false
      else b.fenced || (leb cfg.min_intro_chars b.prose_chars && below_density b)

  -- The positions of the blocks with enough prose, the first of them counted from `index`.
  abbrev pub body : ℕ → List MarkdownBlock → List ℕ
  body index [] = []
  body index (b ∷ bs) =
      let rest = body (index + 1) bs in
      if leb cfg.min_prose_chars b.prose_chars then index ∷ rest else rest

  abbrev pub last_of : ℕ → List ℕ → ℕ
  last_of n [] = n
  last_of n (m ∷ ms) = last_of m ms

  abbrev pub article : List MarkdownBlock → Span
  article bs = elim (body 0 bs) [
    | [] ↦ (0, length bs)
    | first ∷ rest ↦ (first, last_of first rest + 1)
  ]

  abbrev pub in_chrome_headings : MarkdownBlock → Bool
  in_chrome_headings b = elim b.title [ none ↦ false | some t ↦ one_of t cfg.chrome_headings ]

  module _ (lib : Texts) (host : Text) where
    abbrev pub chrome : MarkdownBlock → BlockPlacement → Bool
    chrome b placement =
        if b.fenced || (is_heading b || not (has_links b))
        then false
        else if leb cfg.min_prose_chars b.prose_chars
        then false
        else if (visible_chars b == 0) || placement.repeated
        then true
        else if not (below_density b) && site_local lib b host
        then (if corroborates placement
            then leb cfg.min_menu_links (length b.links) || leb (visible_chars b) cfg.max_menu_chars
            else false)
        else false

    abbrev pub occurs : Text → List MarkdownBlock → ℕ
    occurs s [] = 0
    occurs s (b ∷ bs) =
        (if (has_links b && not b.fenced) && text_eq (signature lib b) s then 1 else 0)
        + occurs s bs

    abbrev pub placed : List MarkdownBlock → ℕ → Option ℕ → MarkdownBlock → BlockPlacement
    placed page index chrome_level b = record {
      repeated = ltb 1 (occurs (signature lib b) page);
      outside = not (within index (article page));
      sectioned = elim chrome_level [ none ↦ false | some l ↦ true ];
    }

    -- The loop of `clean` over the page's blocks from one position on.
    unfoldable pub select :
        List MarkdownBlock → ℕ → Option ℕ × Bool → List MarkdownBlock → List MarkdownBlock
    select page index state [] = []
    select page index state (b ∷ bs) =
        let (level, discarding) = closed state b in
        elim (in_chrome_headings b) [
          | true ↦ select page (index + 1) (b.heading_level, true) bs
          | false ↦ elim (discarding && not (content_like b)) [
            | true ↦ select page (index + 1) (level, true) bs
            | false ↦
                let rest = select page (index + 1) (level, false) bs in
                if chrome b (placed page index level b) then rest else b ∷ rest
          ]
        ]

-- Whether `prune` leaves out a heading, by the block that it kept after it.
abbrev pub is_empty_section : ℕ → List MarkdownBlock → Bool
is_empty_section level [] = true
is_empty_section level (next ∷ kept) = elim next.heading_level [
  | none ↦ false
  | some l ↦ leb l level
]

-- `prune`: from the last block to the first.
unfoldable pub prune : List MarkdownBlock → List MarkdownBlock
prune [] = []
prune (b ∷ bs) =
    let kept = prune bs in
    elim b.heading_level [
      | none ↦ b ∷ kept
      | some level ↦ if is_empty_section level kept then kept else b ∷ kept
    ]

-- `clean`, less the cutting into blocks before it and the joining after it.
unfoldable pub clean : Cleaner → Texts → Text → List MarkdownBlock → List MarkdownBlock
unfolding select prune
clean cfg lib host blocks = prune (select cfg lib host blocks 0 (none, false) blocks)
