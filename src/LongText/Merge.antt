-- ===== src/LongText/Merge.antt =====
-- src/aizk/serving/extract/long_text.py: the loop of `merge` against all candidates of all windows.
use aizk.Base.{
  ℕ, suc, ◌+◌, ◌≡◌, refl, sym, ap, ◌∙◌, map, ◌⊎◌, Bool, some, List, [], ◌∷◌, ◌++◌, Text, length,
  arith,
}
use aizk.LongText.{
  TextWindow, Span, Relation, GraphResult, Named, strengthen, strengthen_all, same_entity,
  same_relation, entity_weight, relation_weight, spans_of, relations_of, merge_from,
}
use aizk.LongText.Strongest.{held-IsBest, IsKept, IsAbsent, IsBest-IsKept}
use aizk.LongText.Keys.{
  SameSpan, SameRelation, confidence, weaker, same_entity-IsKey, same_relation-IsKey, says_span,
  tests_span, says_relation, tests_relation,
}

-- All that the windows found, each span moved by the offset of its window, window by window.
abbrev pub put_in_place : ℕ → Span → Span
put_in_place offset s = record {
  text = s.text;
  start = s.start + offset;
  end = s.end + offset;
  confidence = s.confidence;
}

abbrev pub spans_in_place : ℕ → List (Text × List Span) → List (Named Span)
spans_in_place offset [] = []
spans_in_place offset ((kind, spans) ∷ rest) =
    map (λ (s : Span). record { kind = kind; value = put_in_place offset s }) spans
    ++ spans_in_place offset rest

abbrev pub relations_in_place : ℕ → List (Text × List Relation) → List (Named Relation)
relations_in_place offset [] = []
relations_in_place offset ((predicate, found) ∷ rest) =
    map
      (λ (r : Relation). record {
        kind = predicate;
        value = record { head = put_in_place offset r.head; tail = put_in_place offset r.tail };
      })
      found
    ++ relations_in_place offset rest

abbrev pub all_spans : List TextWindow → List GraphResult → List (Named Span)
all_spans [] rs = []
all_spans (w ∷ ws) [] = []
all_spans (w ∷ ws) (r ∷ rs) = spans_in_place w.offset r.entities ++ all_spans ws rs

abbrev pub all_relations : List TextWindow → List GraphResult → List (Named Relation)
all_relations [] rs = []
all_relations (w ∷ ws) [] = []
all_relations (w ∷ ws) (r ∷ rs) =
    relations_in_place w.offset r.relation_extraction ++ all_relations ws rs

spans_of-spans_in_place :
    (offset : ℕ) (found : List (Text × List Span))
    → spans_of offset found ≡ spans_in_place offset found
spans_of-spans_in_place offset [] = refl
spans_of-spans_in_place offset ((kind, spans) ∷ rest) =
    ap (λ t. map (λ (s : Span). record { kind = kind; value = put_in_place offset s }) spans ++ t)
      (spans_of-spans_in_place offset rest)

relations_of-relations_in_place :
    (offset : ℕ) (found : List (Text × List Relation))
    → relations_of offset found ≡ relations_in_place offset found
relations_of-relations_in_place offset [] = refl
relations_of-relations_in_place offset ((predicate, found) ∷ rest) =
    ap
      (λ t.
        map
          (λ (r : Relation). record {
            kind = predicate;
            value = record { head = put_in_place offset r.head; tail = put_in_place offset r.tail };
          })
          found
        ++ t)
      (relations_of-relations_in_place offset rest)

strengthen_all-append :
    {V : Type 0} (same : V → V → Bool) (weight : V → ℕ) (xs ys kept : List V)
    → strengthen_all same weight (xs ++ ys) kept
      ≡ strengthen_all same weight ys (strengthen_all same weight xs kept)
strengthen_all-append same weight [] ys kept = refl
strengthen_all-append same weight (x ∷ xs) ys kept =
    strengthen_all-append same weight xs ys (strengthen same weight x kept)

merge_from-all :
    (ws : List TextWindow) (rs : List GraphResult) (es : List (Named Span))
    (vs : List (Named Relation))
    → length ws ≡ length rs
    → merge_from ws rs es vs
      ≡ some (
        strengthen_all same_entity entity_weight (all_spans ws rs) es,
        strengthen_all same_relation relation_weight (all_relations ws rs) vs,
      )
merge_from-all [] [] es vs h = refl
merge_from-all [] (r ∷ rs) es vs h = elim (none_left h) [ ]
  where
    none_left : 0 ≡ suc (length rs) → ⊥
    none_left e = omega (arith, e)
merge_from-all (w ∷ ws) [] es vs h = elim (none_left h) [ ]
  where
    none_left : suc (length ws) ≡ 0 → ⊥
    none_left e = omega (arith, e)
merge_from-all (w ∷ ws) (r ∷ rs) es vs h =
    merge_from-all ws rs
      (strengthen_all same_entity entity_weight (spans_of w.offset r.entities) es)
      (strengthen_all same_relation relation_weight (relations_of w.offset r.relation_extraction)
        vs)
      (omega (arith, h))
    ∙ rw
        (
          sym (spans_of-spans_in_place w.offset r.entities),
          sym (relations_of-relations_in_place w.offset r.relation_extraction),
          strengthen_all-append same_entity entity_weight (spans_of w.offset r.entities)
              (all_spans ws rs) es,
          strengthen_all-append same_relation relation_weight
              (relations_of w.offset r.relation_extraction) (all_relations ws rs) vs,
        )
        refl

-- With one result for each window the merge does not fail. For every kind with its two ends it keeps a
-- span that some window found there, moved to its place in the whole text, and no window found a more
-- confident one there; or it keeps none and no window found one. The same holds for every predicate
-- with the ends of its two spans, where the confidence is that of the weaker span.
pub merge_from_lem :
    (ws : List TextWindow) (rs : List GraphResult) (entity : Named Span) (relation : Named Relation)
    → length ws ≡ length rs
    → (es : List (Named Span)) × (vs : List (Named Relation)) × (merge_from ws rs [] []
        ≡ some (es, vs))
      × (IsKept confidence SameSpan entity (all_spans ws rs) es
          ⊎ IsAbsent SameSpan entity (all_spans ws rs) es)
      × (IsKept weaker SameRelation relation (all_relations ws rs) vs
          ⊎ IsAbsent SameRelation relation (all_relations ws rs) vs)
merge_from_lem ws rs entity relation h =
    let es = strengthen_all same_entity entity_weight (all_spans ws rs) [] in
    let vs = strengthen_all same_relation relation_weight (all_relations ws rs) [] in
    (
      es,
      vs,
      merge_from-all ws rs [] [] h,
      IsBest-IsKept same_entity entity_weight SameSpan says_span tests_span entity (all_spans ws rs)
          es
          (held-IsBest same_entity entity_weight same_entity-IsKey.symmetric
            same_entity-IsKey.transitive entity (all_spans ws rs)),
      IsBest-IsKept same_relation relation_weight SameRelation says_relation tests_relation relation
          (all_relations ws rs) vs
          (held-IsBest same_relation relation_weight same_relation-IsKey.symmetric
            same_relation-IsKey.transitive relation (all_relations ws rs)),
    )
