-- ===== src/Grounding.antt =====
-- src/aizk/graph/grounding.py: how a quote is located in its source. A text is its code points.
pub mod Ascents
pub mod Offsets
use aizk.Base.{
  starts_with, ℕ, zero, suc, ◌+◌, ◌-◌, Bool, true, false, not, ◌&&◌, ◌||◌, Option, none, some, List,
  [], ◌∷◌, ◌++◌, Text, map, length, get_elem?, ◌==◌, if◌then◌else◌,
}

-- What the code takes from Python: `str.isspace` and `str.casefold` of one character.
pub record Chars : Type 0 where
  pub is_space : ℕ → Bool
  pub casefold : ℕ → Text

abbrev pub is_empty : Text → Bool
is_empty [] = true
is_empty (c ∷ t) = false

-- The pieces of one character, each with the character's offset.
abbrev pub pieces : ℕ → Text → List (ℕ × ℕ)
pieces offset [] = []
pieces offset (p ∷ ps) = (p, offset) ∷ pieces offset ps

-- The space that is due before a character, at the offset before it.
abbrev pub space_due : Bool → ℕ → List (ℕ × ℕ)
space_due pending offset = if pending then (32, offset - 1) ∷ [] else []

abbrev pub texts_of : List (ℕ × ℕ) → Text
texts_of [] = []
texts_of ((p, o) ∷ rest) = p ∷ texts_of rest

abbrev pub offsets_of : List (ℕ × ℕ) → List ℕ
offsets_of [] = []
offsets_of ((p, o) ∷ rest) = o ∷ offsets_of rest

module _ (lib : Chars) where
  -- The loop of `normalized_map` from one offset on: whether anything was folded before it, and
  -- whether a space is due. 96 is the backtick.
  unfoldable pub fold_from : ℕ → Bool → Bool → Text → List (ℕ × ℕ)
  fold_from offset started pending [] = []
  fold_from offset started pending (c ∷ text) = elim (c == 96) [
    | true ↦ fold_from (offset + 1) started pending text
    | false ↦ elim (lib.is_space c) [
      | true ↦ fold_from (offset + 1) started started text
      | false ↦
          space_due pending offset
          ++ (pieces offset (lib.casefold c)
              ++ fold_from (offset + 1) (started || (pending || not (is_empty (lib.casefold c))))
                  false text)
    ]
  ]

  -- `normalized_map`: the two lists as one.
  abbrev pub normalized_map : Text → List (ℕ × ℕ)
  normalized_map text = fold_from 0 false false text

-- Python's `find` from one position on.
abbrev pub find_from : ℕ → Text → Text → Option ℕ
find_from start quote [] = if is_empty quote then some start else none
find_from start quote (c ∷ text) =
    let later = find_from (start + 1) quote text in
    if starts_with quote (c ∷ text) then some start else later

abbrev pub find : Text → Text → Option ℕ
find quote text = find_from 0 quote text

-- `str.strip()`
abbrev pub lstrip : (ℕ → Bool) → Text → Text
lstrip space [] = []
lstrip space (c ∷ t) = let rest = lstrip space t in if space c then rest else c ∷ t

abbrev pub rstrip : (ℕ → Bool) → Text → Text
rstrip space [] = []
rstrip space (c ∷ t) = elim (rstrip space t) [
  | [] ↦ if space c then [] else c ∷ []
  | d ∷ rest ↦ c ∷ d ∷ rest
]

abbrev pub strip : (ℕ → Bool) → Text → Text
strip space t = rstrip space (lstrip space t)

-- The interval from the offset of the first folded character to behind that of the last one.
abbrev pub spanned : Option ℕ → Option ℕ → Option (ℕ × ℕ)
spanned none last = none
spanned (some first) none = none
spanned (some first) (some last) = some (first, last + 1)

-- The stretch of `size` folded characters at a position.
abbrev pub stretch : Option ℕ → ℕ → List (ℕ × ℕ) → Option (ℕ × ℕ)
stretch none size folded = none
stretch (some start) size folded =
    spanned (get_elem? (offsets_of folded) start) (get_elem? (offsets_of folded) (start + size - 1))

abbrev pub folded_interval : Text → List (ℕ × ℕ) → Option (ℕ × ℕ)
folded_interval [] folded = none
folded_interval (q ∷ qs) folded = stretch (find (q ∷ qs) (texts_of folded)) (length (q ∷ qs)) folded

-- The exact occurrence, if there is one.
abbrev pub exact_or : Option ℕ → ℕ → Option (ℕ × ℕ) → Option (ℕ × ℕ)
exact_or none size folded = folded
exact_or (some start) size folded = some (start, start + size)

abbrev pub located : Chars → Text → Text → Option (ℕ × ℕ)
located lib [] text = none
located lib (q ∷ qs) text =
    exact_or (find (q ∷ qs) text) (length (q ∷ qs))
      (folded_interval (texts_of (normalized_map lib (q ∷ qs))) (normalized_map lib text))

-- `quote_interval`
unfoldable pub quote_interval : Chars → Option Text → Text → Option (ℕ × ℕ)
unfolding fold_from
quote_interval lib none text = none
quote_interval lib (some quote) text = located lib (strip lib.is_space quote) text
