-- ===== src/Retrieval/Candidate.antt =====
-- src/aizk/retrieval/models/candidate.py: one evidence row. Identifiers and moments are numbers,
-- a text is its code points, and `settings.find_chars_per_token` is the ratio `chars / tokens`,
-- taken exactly. How an identifier and a day are printed is the parameter `Printer`.
use aizk.Base.{
  Text, codes, ℕ, ◌+◌, ◌-◌, ◌*◌, ◌/◌, Bool, true, Option, none, some, List, [], ◌∷◌, ◌++◌, ltb,
  length, take,
}
use aizk.Provenance.{Stance}

-- `str(uuid)` and `f"{moment:%Y-%m-%d}"`
pub record Printer : Type 0 where
  pub uuid : ℕ → Text
  pub day : ℕ → Text

pub record Settings : Type 0 where
  pub chars : ℕ
  pub tokens : ℕ
  pub printer : Printer

-- `Lane.Kind`
pub data LaneKind : Type 0 where
  profile overview communities facts working_memory sources : LaneKind

pub record Candidate : Type 0 where
  pub lane : LaneKind
  pub line : Text
  pub fact_id : Option ℕ
  pub source_chunk_id : Option ℕ
  pub source_title : Option Text
  pub source_uri : Option Text
  pub artifact_id : Option ℕ
  pub artifact_content_id : Option ℕ
  pub document_id : Option ℕ
  pub document_created_at : Option ℕ
  pub created_by : Option ℕ
  pub scopes : List ℕ
  pub evidence_id : Option ℕ
  pub direct : Bool
  pub web_cache : Bool
  pub document_expires_at : Option ℕ
  pub stance : Stance

abbrev pub current_at : Candidate → ℕ → Bool
current_at c moment = elim c.document_expires_at [ none ↦ true | some t ↦ ltb moment t ]

-- A field that both of two optional parts must be there for.
abbrev pub both : {A B C : Type 0} → (A → B → C) → Option A → Option B → Option C
both f none b = none
both f (some a) none = none
both f (some a) (some b) = some (f a b)

unfoldable pub document_note : Printer → Candidate → Option Text
document_note p c =
    both (λ d t. p.uuid d ++ (codes " kept " ++ p.day t)) c.document_id c.document_created_at

unfoldable pub resource_uri : Printer → Candidate → Option Text
resource_uri p c =
    both (λ a k. codes "aizk://artifacts/" ++ (p.uuid a ++ (codes "/contents/" ++ p.uuid k)))
      c.artifact_id c.artifact_content_id

abbrev pub given : {A : Type 0} → Option A → List A
given none = []
given (some a) = a ∷ []

unfoldable pub annotations : Printer → Candidate → List Text
unfolding document_note resource_uri
annotations p c = given (document_note p c) ++ given (resource_uri p c)

-- `len("\n\n    Document ``")`
abbrev pub annotation_markup : ℕ
annotation_markup = 17

abbrev pub markup_chars : List Text → ℕ
markup_chars [] = 0
markup_chars (note ∷ notes) = length note + annotation_markup + markup_chars notes

unfoldable pub annotation_chars : Printer → Candidate → ℕ
unfolding annotations
annotation_chars p c = markup_chars (annotations p c)

-- `ceil(n / (chars / tokens))`
unfoldable pub token_count : Settings → Candidate → ℕ
token_count s c =
    ((length c.line + annotation_chars s.printer c) * s.tokens + (s.chars - 1)) / s.chars

-- `"…"`
abbrev pub trim_marker : Text
trim_marker = 0x2026 ∷ []

-- `floor((budget - 1) * (chars / tokens))`
abbrev pub trim_room : Settings → ℕ → ℕ
trim_room s budget = (budget - 1) * s.chars / s.tokens

unfoldable pub trimmed : Settings → Candidate → ℕ → Candidate
trimmed s c budget = record c {
  line =
      take (trim_room s budget - annotation_chars s.printer c - length trim_marker) c.line
      ++ trim_marker;
}
