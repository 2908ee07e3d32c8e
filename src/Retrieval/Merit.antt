-- ===== src/Retrieval/Merit.antt =====
-- src/aizk/retrieval/rerank/rescore.py: the order in which the evidence of all lanes is packed. A
-- score is a natural number, the scores that the service gives are an argument, and `casefold` is
-- Python's. An error that is raised is `none`.
pub mod Keys
pub mod Order
use aizk.Base.{
  ℕ, ◌+◌, Bool, true, false, not, ◌&&◌, ◌||◌, Option, none, some, List, [], ◌∷◌, ◌++◌, Text, map,
  take, filter_by, any_by, one_of, contains, text_eq, opt_eq, sort_by, ltb, leb, ◌==◌,
  if◌then◌else◌,
}
use aizk.Retrieval.Candidate.{Candidate}

-- `dict(zip(ids, scores, strict=True))`, `none` when the lengths differ.
abbrev pub with_pair : Option ℕ → ℕ → Option (List (Option ℕ × ℕ)) → Option (List (Option ℕ × ℕ))
with_pair id score none = none
with_pair id score (some rest) = some ((id, score) ∷ rest)

abbrev pub zipped : List Candidate → List ℕ → Option (List (Option ℕ × ℕ))
zipped [] [] = some []
zipped [] (s ∷ ss) = none
zipped (c ∷ cs) [] = none
zipped (c ∷ cs) (s ∷ ss) = with_pair c.evidence_id s (zipped cs ss)

abbrev pub later_score : Option ℕ → Option ℕ → Option ℕ
later_score (some s) here = some s
later_score none here = here

-- The score of an identifier: of two pairs with one identifier the later counts.
abbrev pub score_of : List (Option ℕ × ℕ) → Option ℕ → Option ℕ
score_of [] id = none
score_of ((other, s) ∷ scores) id =
    later_score (score_of scores id) (if opt_eq other id then some s else none)

abbrev pub folded : (Text → Text) → Option Text → Option Text
folded casefold none = none
folded casefold (some title) = some (casefold title)

abbrev pub direct_title : (Text → Text) → Candidate → Option Text
direct_title casefold c = if c.direct then folded casefold c.source_title else none

abbrev pub or_none : Option Text → List Text → List Text
or_none none rest = rest
or_none (some t) rest = t ∷ rest

abbrev pub direct_titles : (Text → Text) → List Candidate → List Text
direct_titles casefold [] = []
direct_titles casefold (c ∷ cs) = or_none (direct_title casefold c) (direct_titles casefold cs)

abbrev pub shadowed_titles : List Text → List Text
shadowed_titles titles =
    filter_by (λ title. any_by (λ other. not (text_eq title other) && contains title other) titles)
      titles

abbrev pub is_shadowed : List Text → Option Text → Bool
is_shadowed shadowed none = false
is_shadowed shadowed (some title) = one_of title shadowed

-- The sort key of a scored candidate: 0 for a named source, then the score, then the identifier.
abbrev pub group_of : (Text → Text) → List Text → Candidate → ℕ
group_of casefold shadowed c =
    if c.direct && not (is_shadowed shadowed (direct_title casefold c)) then 0 else 1

abbrev pub or_lowest : Option ℕ → ℕ
or_lowest none = 0
or_lowest (some n) = n

abbrev pub id_rank : Option ℕ → ℕ
id_rank none = 0
id_rank (some n) = n + 1

abbrev pub lex : ℕ → ℕ → ℕ → ℕ → ℕ → ℕ → Bool
lex g s i h t j = ltb g h || ((g == h) && (ltb t s || ((s == t) && leb i j)))

abbrev pub has_score : List (Option ℕ × ℕ) → Candidate → Bool
has_score scores c = elim (score_of scores c.evidence_id) [ none ↦ false | some s ↦ true ]

abbrev pub ranks_before :
    (Text → Text) → List Text → List (Option ℕ × ℕ) → Candidate → Candidate → Bool
ranks_before casefold shadowed scores a b =
    lex (group_of casefold shadowed a) (or_lowest (score_of scores a.evidence_id))
      (id_rank a.evidence_id) (group_of casefold shadowed b)
      (or_lowest (score_of scores b.evidence_id)) (id_rank b.evidence_id)

abbrev pub lacks_id : Option ℕ → Bool
lacks_id none = true
lacks_id (some id) = false

-- Two keys that differ only in the identifier, which one of them misses: their comparison raises. A
-- sort cannot avoid it, since such a pair is adjacent somewhere in any order that it could give.
abbrev pub raises : (Text → Text) → List Text → List (Option ℕ × ℕ) → Candidate → Candidate → Bool
raises casefold shadowed scores a b =
    (group_of casefold shadowed a == group_of casefold shadowed b)
    && ((or_lowest (score_of scores a.evidence_id) == or_lowest (score_of scores b.evidence_id))
        && (lacks_id a.evidence_id && not (lacks_id b.evidence_id)))

abbrev pub any_raises : (Text → Text) → List Text → List (Option ℕ × ℕ) → List Candidate → Bool
any_raises casefold shadowed scores cs =
    any_by (λ a. any_by (λ b. raises casefold shadowed scores a b) cs) cs

unfoldable pub reordered :
    (Text → Text) → List Candidate → List (Option ℕ × ℕ) → Option (List Candidate)
reordered casefold candidates scores =
    let shadowed = shadowed_titles (direct_titles casefold candidates) in
    let scored = filter_by (has_score scores) candidates in
    if any_raises casefold shadowed scores scored
    then none
    else some (
        sort_by (ranks_before casefold shadowed scores) scored
        ++ filter_by (λ c. not (has_score scores c)) candidates)

abbrev pub ordered :
    (Text → Text) → List Candidate → Option (List (Option ℕ × ℕ)) → Option (List Candidate)
ordered casefold candidates none = none
ordered casefold candidates (some scores) = reordered casefold candidates scores

-- `merit_order`: only the first candidates are scored.
unfoldable pub merit_order :
    (Text → Text) → ℕ → (List Text → List ℕ) → List Candidate → Option (List Candidate)
merit_order casefold depth rerank candidates =
    let evidence = take depth candidates in
    ordered casefold candidates
      (zipped evidence (rerank (map (λ (c : Candidate). c.line) evidence)))
