-- ===== src/Grounding/Offsets.antt =====
-- Where `quote_interval` of src/aizk/graph/grounding.py locates a quote.
use aizk.Base.{
  starts_with, ℕ, zero, suc, ◌+◌, ◌-◌, ◌≡◌, true, some, [], ◌∷◌, Text, length, get_elem?,
}
use aizk.Grounding.{Chars, texts_of, offsets_of, normalized_map}

abbrev pub drop : ℕ → Text → Text
drop zero t = t
drop (suc n) [] = []
drop (suc n) (c ∷ t) = drop n t

-- The text has the quote at the position.
abbrev pub StandsAt : Text → Text → ℕ → Type 0
StandsAt quote text start = starts_with quote (drop start text) ≡ true

-- The interval is that of the stretch of the normal form, at its position `k`, which reads as the
-- normal form of the quote.
abbrev pub SpansFolded : Chars → Text → Text → ℕ → ℕ → Type 0
SpansFolded lib quote text a b =
    (k : ℕ) × (last : ℕ) × StandsAt (texts_of (normalized_map lib quote))
      (texts_of (normalized_map lib text)) k
    × (get_elem? (offsets_of (normalized_map lib text)) k ≡ some a)
    × (get_elem? (offsets_of (normalized_map lib text))
          (k + length (texts_of (normalized_map lib quote)) - 1)
        ≡ some last)
    × (b ≡ last + 1)

module _ (lib : Chars) (text : Text) where
  -- What a stretch of the folded source says, for a search that gave its position.
  Stretch : Text → ℕ → ℕ → Type 0
  Stretch folded a b =
      (k : ℕ) × (last : ℕ) × StandsAt folded (texts_of (normalized_map lib text)) k
      × (get_elem? (offsets_of (normalized_map lib text)) k ≡ some a)
      × (get_elem? (offsets_of (normalized_map lib text)) (k + length folded - 1) ≡ some last)
      × (b ≡ last + 1)
