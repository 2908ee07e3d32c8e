-- ===== src/LongText.antt =====
-- src/aizk/serving/extract/long_text.py: a long text cut into overlapping windows, and the results of
-- the windows merged into one. A confidence is a number on one scale; what counts as white space is
-- Python's.
pub mod Windows
pub mod Strongest
pub mod Keys
pub mod Merge
use aizk.Base.{
  ℕ, zero, suc, ◌+◌, ◌-◌, min, Bool, true, false, not, ◌&&◌, ◌||◌, Option, none, some, List, [],
  ◌∷◌, ◌++◌, Text, length, get_elem?, take, map, first_of, filter_by, sort_by, text_eq, leb, ltb,
  ◌==◌, if◌then◌else◌,
}

-- Where a word starts and where it ends.
pub record Word : Type 0 where
  pub start : ℕ
  pub end : ℕ

pub record TextWindow : Type 0 where
  pub text : Text
  pub offset : ℕ

abbrev pub closed : Option ℕ → ℕ → List Word → List Word
closed none i rest = rest
closed (some s) i rest = record { start = s; end = i } ∷ rest

abbrev pub opened_at : Option ℕ → ℕ → Option ℕ
opened_at none i = some i
opened_at (some s) i = some s

-- `finditer(r"\S+", text)`, from a position, with the word that is open there.
abbrev pub words_from : (ℕ → Bool) → ℕ → Option ℕ → Text → List Word
words_from is_space i word [] = closed word i []
words_from is_space i word (c ∷ text) =
    let outside = words_from is_space (i + 1) none text in
    let inside = words_from is_space (i + 1) (opened_at word i) text in
    if is_space c then closed word i outside else inside

-- `range(start, stop, step)`, with fuel for its members.
abbrev pub range_from : ℕ → ℕ → ℕ → ℕ → List ℕ
range_from zero start stop step = []
range_from (suc fuel) start stop step =
    let rest = range_from fuel (start + step) stop step in
    if ltb start stop then start ∷ rest else []

abbrev pub drop : ℕ → Text → Text
drop zero text = text
drop (suc n) [] = []
drop (suc n) (c ∷ text) = drop n text

abbrev pub slice : ℕ → ℕ → Text → Text
slice start stop text = take (stop - start) (drop start text)

-- One window: `none` is an index out of range.
abbrev pub from_words : Text → Option Word → Option Word → Option TextWindow
from_words text (some first) (some last) =
    some (record { text = slice first.start last.end text; offset = first.start })
from_words text (some first) none = none
from_words text none last = none

abbrev pub window_at : Text → List Word → ℕ → ℕ → Option TextWindow
window_at text words size start =
    from_words text (get_elem? words start)
      (get_elem? words (min (start + size) (length words) - 1))

abbrev pub with_window : Option TextWindow → Option (List TextWindow) → Option (List TextWindow)
with_window none rest = none
with_window (some w) none = none
with_window (some w) (some ws) = some (w ∷ ws)

abbrev pub windows_at : Text → List Word → ℕ → List ℕ → Option (List TextWindow)
windows_at text words size [] = some []
windows_at text words size (start ∷ starts) =
    with_window (window_at text words size start) (windows_at text words size starts)

abbrev pub starts_of : ℕ → ℕ → ℕ → List ℕ
starts_of count size overlap = range_from count 0 (count - overlap) (size - overlap)

unfoldable pub windows : (ℕ → Bool) → ℕ → ℕ → Text → Option (List TextWindow)
windows is_space size overlap text =
    let words = words_from is_space 0 none text in
    if leb (length words) size
    then some (record { text = text; offset = 0 } ∷ [])
    else windows_at text words size (starts_of (length words) size overlap)

pub record Span : Type 0 where
  pub text : Text
  pub start : ℕ
  pub end : ℕ
  pub confidence : ℕ

pub record Relation : Type 0 where
  pub head : Span
  pub tail : Span

-- One window's result: the spans of each kind and the relations of each predicate.
pub record GraphResult : Type 0 where
  pub entities : List (Text × List Span)
  pub relation_extraction : List (Text × List Relation)

abbrev pub shift : Span → ℕ → Span
shift span offset = record {
  text = span.text;
  start = span.start + offset;
  end = span.end + offset;
  confidence = span.confidence;
}

abbrev pub shift_relation : Relation → ℕ → Relation
shift_relation r offset = record { head = shift r.head offset; tail = shift r.tail offset }

abbrev pub confidence_of : Relation → ℕ
confidence_of r = min r.head.confidence r.tail.confidence

-- A dict from a key to its strongest value so far: a stronger value takes the place of the one that is
-- there, a new key goes to the end.
module _ {V : Type 0} (same : V → V → Bool) (weight : V → ℕ) where
  abbrev pub strengthen : V → List V → List V
  strengthen v [] = v ∷ []
  strengthen v (u ∷ us) =
      let rest = strengthen v us in
      if same u v then (if ltb (weight u) (weight v) then v ∷ us else u ∷ us) else u ∷ rest

  abbrev pub strengthen_all : List V → List V → List V
  strengthen_all [] kept = kept
  strengthen_all (v ∷ vs) kept = strengthen_all vs (strengthen v kept)

-- A value under its kind or its predicate.
pub record Named (V : Type 0) : Type 0 where
  pub kind : Text
  pub value : V

abbrev pub same_entity : Named Span → Named Span → Bool
same_entity a b =
    text_eq a.kind b.kind && ((a.value.start == b.value.start) && (a.value.end == b.value.end))

abbrev pub same_relation : Named Relation → Named Relation → Bool
same_relation a b =
    text_eq a.kind b.kind
    && ((a.value.head.start == b.value.head.start)
        && ((a.value.head.end == b.value.head.end)
            && ((a.value.tail.start == b.value.tail.start)
                && (a.value.tail.end == b.value.tail.end))))

abbrev pub entity_weight : Named Span → ℕ
entity_weight a = a.value.confidence

abbrev pub relation_weight : Named Relation → ℕ
relation_weight a = confidence_of a.value

abbrev pub spans_of : ℕ → List (Text × List Span) → List (Named Span)
spans_of offset [] = []
spans_of offset ((kind, spans) ∷ rest) =
    map (λ (s : Span). record { kind = kind; value = shift s offset }) spans ++ spans_of offset rest

abbrev pub relations_of : ℕ → List (Text × List Relation) → List (Named Relation)
relations_of offset [] = []
relations_of offset ((predicate, found) ∷ rest) =
    map (λ (r : Relation). record { kind = predicate; value = shift_relation r offset }) found
    ++ relations_of offset rest

-- The loop of `merge` over the windows and their results.
abbrev pub merge_from :
    List TextWindow
    → List GraphResult
    → List (Named Span)
    → List (Named Relation)
    → Option (List (Named Span) × List (Named Relation))
merge_from [] [] entities relations = some (entities, relations)
merge_from [] (r ∷ rs) entities relations = none
merge_from (w ∷ ws) [] entities relations = none
merge_from (w ∷ ws) (r ∷ rs) entities relations =
    merge_from ws rs
      (strengthen_all same_entity entity_weight (spans_of w.offset r.entities) entities)
      (strengthen_all same_relation relation_weight (relations_of w.offset r.relation_extraction)
        relations)

-- Python's order on the pairs that the results are sorted by.
abbrev pub pair_before : ℕ → ℕ → ℕ → ℕ → Bool
pair_before a b c d = ltb a c || ((a == c) && leb b d)

module _ {V : Type 0} (before : V → V → Bool) where
  -- The values by kind, the kinds in the order of their first value.
  abbrev pub grouped : List (Named V) → List (Text × List V)
  grouped values =
      map
        (λ (kind : Text). (
          kind,
          sort_by before (
              map (λ (v : Named V). v.value)
                (filter_by (λ (v : Named V). text_eq v.kind kind) values)),
        ))
        (first_of [] (map (λ (v : Named V). v.kind) values))

abbrev pub span_before : Span → Span → Bool
span_before a b = pair_before a.start a.end b.start b.end

abbrev pub relation_before : Relation → Relation → Bool
relation_before a b = pair_before a.head.start a.tail.start b.head.start b.tail.start

abbrev pub result_of : Option (List (Named Span) × List (Named Relation)) → Option GraphResult
result_of none = none
result_of (some (entities, relations)) = some (record {
  entities = grouped span_before entities;
  relation_extraction = grouped relation_before relations;
})

-- `merge`: `none` is the error of a window without its result.
unfoldable pub merge : List TextWindow → List GraphResult → Option GraphResult
merge ws rs = result_of (merge_from ws rs [] [])
