-- ===== src/Tests/LongText.antt =====
-- Five words in windows of three that share one, and a span that two windows found.
use aizk.Base.{
  ℕ, ◌+◌, ◌≡◌, ◌⊎◌, refl, arith, Bool, none, some, List, [], ◌∷◌, Text, codes, In, ◌==◌,
}
use aizk.LongText.{
  TextWindow, words_from, windows, Span, Relation, GraphResult, Named, merge, merge_from,
}
use aizk.LongText.Windows.{HoldsBoth, windows_lem}
use aizk.LongText.Strongest.{IsKept, IsAbsent}
use aizk.LongText.Keys.{SameSpan, SameRelation, confidence, weaker}
use aizk.LongText.Merge.{all_spans, all_relations, merge_from_lem}

abbrev blank : ℕ → Bool
blank c = c == 32

abbrev tides : Text
tides = codes "ebb and flow at noon"

tides_cut :
    windows blank 3 1 tides
    ≡ some (
        record { text = codes "ebb and flow"; offset = 0 }
        ∷ record { text = codes "flow at noon"; offset = 8 }
        ∷ [])
unfolding windows
tides_cut = refl

windows_lem_example :
    (ws : List TextWindow) × (windows blank 3 1 tides ≡ some ws)
    × (w : TextWindow) × In w ws
    × HoldsBoth tides (words_from blank 0 none tides) 2 3 w
windows_lem_example =
    windows_lem blank 3 1 tides 2 3 (omega arith) (omega arith) (omega arith) (omega arith)

abbrev flow : ℕ → ℕ → Span
flow start confidence = record {
  text = codes "flow";
  start = start;
  end = start + 4;
  confidence = confidence;
}

abbrev cut : List TextWindow
cut =
    record { text = codes "ebb and flow"; offset = 0 }
    ∷ record { text = codes "flow at noon"; offset = 8 }
    ∷ []

abbrev found : List GraphResult
found =
    record { entities = (codes "tide", flow 8 3 ∷ []) ∷ []; relation_extraction = [] }
    ∷ record { entities = (codes "tide", flow 0 7 ∷ []) ∷ []; relation_extraction = [] }
    ∷ []

found_merged :
    merge cut found
    ≡ some (record { entities = (codes "tide", flow 8 7 ∷ []) ∷ []; relation_extraction = [] })
unfolding merge
found_merged = refl

abbrev entity : Named Span
entity = record { kind = codes "tide"; value = flow 8 0 }

abbrev relation : Named Relation
relation = record { kind = codes "causes"; value = record { head = flow 8 0; tail = flow 8 0 } }

merge_from_lem_example :
    (es : List (Named Span)) × (vs : List (Named Relation)) × (merge_from cut found [] []
      ≡ some (es, vs))
    × (IsKept confidence SameSpan entity (all_spans cut found) es
        ⊎ IsAbsent SameSpan entity (all_spans cut found) es)
    × (IsKept weaker SameRelation relation (all_relations cut found) vs
        ⊎ IsAbsent SameRelation relation (all_relations cut found) vs)
merge_from_lem_example = merge_from_lem cut found entity relation refl
