-- ===== src/Web/Sanitizer.antt =====
-- src/aizk/web/sanitizer.py: the last check of a rewritten query. The word characters of regular
-- expressions, their equality without case, and `str.lower` are Python's.
use aizk.Base.{
  ℕ, Bool, true, false, ◌&&◌, Option, none, some, List, [], ◌∷◌, ◌++◌, Text, codes, length,
  filter_by, any_by, leb, contains, if◌then◌else◌,
}
use aizk.Web.{Refusal, sanitizer_refused}

pub record Letters : Type 0 where
  pub is_word : ℕ → Bool
  pub same_letter : ℕ → ℕ → Bool
  pub lower : Text → Text

module _ (lib : Letters) where
  -- The runs of word characters, which is what stands between word boundaries.
  abbrev ended : Text → List Text → List Text
  ended [] rest = rest
  ended (c ∷ run) rest = (c ∷ run) ∷ rest

  abbrev pub words_from : Text → Text → List Text
  words_from run [] = ended run []
  words_from run (c ∷ text) =
      let longer = words_from (run ++ c ∷ []) text in
      let fresh = words_from [] text in if lib.is_word c then longer else ended run fresh

  abbrev pub words : Text → List Text
  words text = words_from [] text

  abbrev pub same_word : Text → Text → Bool
  same_word [] [] = true
  same_word [] (d ∷ t) = false
  same_word (c ∷ s) [] = false
  same_word (c ∷ s) (d ∷ t) = lib.same_letter c d && same_word s t

  abbrev pub pronouns : List Text
  pronouns =
      codes "i"
      ∷ codes "me"
      ∷ codes "my"
      ∷ codes "mine"
      ∷ codes "myself"
      ∷ codes "we"
      ∷ codes "us"
      ∷ codes "our"
      ∷ codes "ours"
      ∷ codes "ourselves"
      ∷ []

  -- `_FIRST_PERSON.search`
  abbrev pub first_person : Text → Bool
  first_person text = any_by (λ w. any_by (same_word w) pronouns) (words text)

  -- The roster names that are long enough to be identifying.
  abbrev pub guarded : ℕ → List Text → List Text
  guarded min_chars roster = filter_by (λ name. leb min_chars (length name)) roster

  abbrev pub names_someone : ℕ → List Text → Text → Bool
  names_someone min_chars roster text =
      any_by (λ name. contains name (lib.lower text)) (guarded min_chars roster)

  abbrev pub detected : Option (List Text) → Bool
  detected none = true
  detected (some []) = false
  detected (some (m ∷ ms)) = true

  -- `refuses`, with the detector's answer, which is `none` when it cannot be reached.
  unfoldable pub refuses : ℕ → List Text → (Text → Option (List Text)) → Text → Option Refusal
  refuses min_chars roster mentions rewritten =
      if first_person rewritten
      then some sanitizer_refused
      else if names_someone min_chars roster rewritten
      then some sanitizer_refused
      else if detected (mentions rewritten)
      then some sanitizer_refused
      else none
