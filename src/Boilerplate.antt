-- ===== src/Boilerplate.antt =====
-- src/aizk/artifacts/boilerplate.py: the measured blocks of a converted web page, and the cleaner
-- that drops the blocks of the site's chrome. How Markdown is cut into blocks is not modelled.
pub mod Cleaner
pub mod Sections
pub mod Content
use aizk.Base.{
  text_eq, one_of, ℕ, zero, suc, ◌+◌, ◌*◌, Bool, true, false, not, ◌&&◌, ◌||◌, Option, none, some,
  List, [], ◌∷◌, ◌++◌, Text, length, any_by, filter_by, map, ltb, leb, ◌==◌, if◌then◌else◌,
}

-- `MarkdownBlock`: its text and what `parse` measured of it.
pub record MarkdownBlock : Type 0 where
  pub text : Text
  pub fenced : Bool
  pub heading_level : Option ℕ
  pub title : Option Text
  pub links : List Text
  pub label_chars : ℕ
  pub prose_chars : ℕ

abbrev pub is_heading : MarkdownBlock → Bool
is_heading b = elim b.heading_level [ none ↦ false | some l ↦ true ]

abbrev pub has_links : MarkdownBlock → Bool
has_links b = elim b.links [ [] ↦ false | l ∷ ls ↦ true ]

abbrev pub visible_chars : MarkdownBlock → ℕ
visible_chars b = b.label_chars + b.prose_chars

-- Python's `endswith`: a text ends with itself, or without its first character.
abbrev pub ends_with : Text → Text → Bool
ends_with [] suffix = text_eq [] suffix
ends_with (c ∷ s) suffix = text_eq (c ∷ s) suffix || ends_with s suffix

-- Python's `strip` with a set of characters.
abbrev pub lstrip : List ℕ → Text → Text
lstrip cs [] = []
lstrip cs (c ∷ t) = let rest = lstrip cs t in if any_by (λ d. d == c) cs then rest else c ∷ t

abbrev pub rstrip : List ℕ → Text → Text
rstrip cs [] = []
rstrip cs (c ∷ t) = elim (rstrip cs t) [
  | [] ↦ if any_by (λ d. d == c) cs then [] else c ∷ []
  | d ∷ rest ↦ c ∷ d ∷ rest
]

abbrev pub strip : List ℕ → Text → Text
strip cs t = rstrip cs (lstrip cs t)

-- Python's `" ".join`.
abbrev pub join_words : List Text → Text
join_words [] = []
join_words (w ∷ []) = w
join_words (w ∷ v ∷ ws) = w ++ 32 ∷ join_words (v ∷ ws)

-- What the cleaner takes from Python: `urlsplit(...).hostname`, `str.split()` and `str.casefold`.
pub record Texts : Type 0 where
  pub hostname : Text → Option Text
  pub words : Text → List Text
  pub casefold : Text → Text

module _ (lib : Texts) where
  abbrev pub signature : MarkdownBlock → Text
  signature b = lib.casefold (join_words (lib.words b.text))

  -- `same_site`; 60 and 62 are the angle brackets, 46 the dot.
  abbrev pub same_site : Text → Text → Bool
  same_site destination host = elim (lib.hostname (strip (60 ∷ 62 ∷ []) destination)) [
    | none ↦ true
    | some target ↦
        text_eq target host || (ends_with target (46 ∷ host) || ends_with host (46 ∷ target))
  ]

  abbrev pub site_local : MarkdownBlock → Text → Bool
  site_local b host = leb (length b.links) (length (filter_by (λ l. same_site l host) b.links) * 2)
