-- ===== src/Retrieval/Merit/Keys.antt =====
-- src/aizk/retrieval/rerank/rescore.py: the sort key, and the order that it stands for.
use aizk.Base.{
  ℕ, ◌+◌, ◌≤◌, ◌≡◌, subst, ◌&&◌, ◌==◌, any_by, All-of_In, All-In, refl, Bool, true, false, not,
  Option, some, List, [], ◌∷◌, Text, All, IsSorted, if◌then◌else◌, arith,
}
use aizk.Retrieval.Candidate.{Candidate}
use aizk.Retrieval.Merit.{
  lex, ranks_before, group_of, or_lowest, id_rank, score_of, shadowed_titles, is_shadowed,
  direct_title, direct_titles, lacks_id, raises,
}

pub lex_total : (g s i h t j : ℕ) → lex g s i h t j ≡ false → lex h t j g s i ≡ true
lex_total g s i h t j e = ground arith

pub lex_trans :
    (g s i h t j k u l : ℕ)
    → lex g s i h t j ≡ true
    → lex h t j k u l ≡ true
    → lex g s i k u l ≡ true
lex_trans g s i h t j k u l e f = ground arith

-- A candidate of a source that the query names by a title not shadowed by another such title.
abbrev pub is_named : (Text → Text) → List Candidate → Candidate → Bool
is_named casefold candidates c =
    c.direct
    && not (
        is_shadowed (shadowed_titles (direct_titles casefold candidates)) (direct_title casefold c))

-- What the order promises of a candidate and one behind it.
pub record Precedes (named : Candidate → Bool) (scores : List (Option ℕ × ℕ)) (a b : Candidate)
    : Type 0 where
  pub names_first : named b ≡ true → named a ≡ true
  pub by_score :
      (s t : ℕ)
      → named a ≡ named b
      → score_of scores a.evidence_id ≡ some s
      → score_of scores b.evidence_id ≡ some t
      → t ≤ s
  pub by_id :
      (s i j : ℕ)
      → named a ≡ named b
      → score_of scores a.evidence_id ≡ some s
      → score_of scores b.evidence_id ≡ some s
      → a.evidence_id ≡ some i
      → b.evidence_id ≡ some j
      → i ≤ j

abbrev pub InOrder :
    (named : Candidate → Bool) (scores : List (Option ℕ × ℕ)) (cs : List Candidate) → Type 0
InOrder named scores [] = Unit
InOrder named scores (c ∷ cs) = All (Precedes named scores c) cs × InOrder named scores cs

ranks_before-Precedes :
    (casefold : Text → Text) (candidates : List Candidate) (scores : List (Option ℕ × ℕ))
    (a b : Candidate)
    → ranks_before casefold (shadowed_titles (direct_titles casefold candidates)) scores a b ≡ true
    → Precedes (is_named casefold candidates) scores a b
ranks_before-Precedes casefold candidates scores a b h =
    let p = is_named casefold candidates a in
    let q = is_named casefold candidates b in
    record {
      names_first =
          named_first p q (or_lowest (score_of scores a.evidence_id)) (id_rank a.evidence_id)
            (or_lowest (score_of scores b.evidence_id)) (id_rank b.evidence_id) h;
      by_score = λ s t same e f.
          falling p q s (id_rank a.evidence_id) t (id_rank b.evidence_id) same (rw (e, f) at h);
      by_id = λ s i j same e f k l. rising p q s i j same (ids s i j e f k l);
    }
  where
    named_first :
        (p q : Bool) (s i t j : ℕ)
        → lex (if p then 0 else 1) s i (if q then 0 else 1) t j ≡ true
        → q ≡ true
        → p ≡ true
    named_first p q s i t j h e = ground arith

    falling :
        (p q : Bool) (s i t j : ℕ)
        → p ≡ q
        → lex (if p then 0 else 1) s i (if q then 0 else 1) t j ≡ true
        → t ≤ s
    falling p q s i t j e h = ground arith

    rising :
        (p q : Bool) (s i j : ℕ)
        → p ≡ q
        → lex (if p then 0 else 1) s (i + 1) (if q then 0 else 1) s (j + 1) ≡ true
        → i ≤ j
    rising p q s i j e h = ground arith

    ids :
        (s i j : ℕ)
        → score_of scores a.evidence_id ≡ some s
        → score_of scores b.evidence_id ≡ some s
        → a.evidence_id ≡ some i
        → b.evidence_id ≡ some j
        → lex
            (if is_named casefold candidates a then 0 else 1)
            s
            (i + 1)
            (if is_named casefold candidates b then 0 else 1)
            s
            (j + 1)
          ≡ true
    ids s i j e f k l =
        subst
          (λ (o : Option ℕ).
            lex (if is_named casefold candidates a then 0 else 1) s (id_rank o)
              (if is_named casefold candidates b then 0 else 1) s (j + 1)
            ≡ true)
          k
          (subst
            (λ (o : Option ℕ).
              lex (if is_named casefold candidates a then 0 else 1) s (id_rank a.evidence_id)
                (if is_named casefold candidates b then 0 else 1) s (id_rank o)
              ≡ true)
            l
            (subst
              (λ (o : Option ℕ).
                lex (if is_named casefold candidates a then 0 else 1) s (id_rank a.evidence_id)
                  (if is_named casefold candidates b then 0 else 1) (or_lowest o)
                  (id_rank b.evidence_id)
                ≡ true)
              f
              (subst
                (λ (o : Option ℕ).
                  lex (if is_named casefold candidates a then 0 else 1) (or_lowest o)
                    (id_rank a.evidence_id) (if is_named casefold candidates b then 0 else 1)
                    (or_lowest (score_of scores b.evidence_id)) (id_rank b.evidence_id)
                  ≡ true)
                e h)))

pub InOrder-sorted :
    (casefold : Text → Text) (candidates : List Candidate) (scores : List (Option ℕ × ℕ))
    (front : List Candidate)
    → IsSorted
        (ranks_before casefold (shadowed_titles (direct_titles casefold candidates)) scores)
        front
    → InOrder (is_named casefold candidates) scores front
InOrder-sorted casefold candidates scores [] h = tt
InOrder-sorted casefold candidates scores (c ∷ cs) h = (
  All-of_In _ cs
      (λ d m. ranks_before-Precedes casefold candidates scores c d (All-In _ d cs h.0 m)),
  InOrder-sorted casefold candidates scores cs h.1,
)

-- A candidate with an identifier never makes the comparison raise.
pub none_raises :
    (casefold : Text → Text) (shadowed : List Text) (scores : List (Option ℕ × ℕ))
    (cs ds : List Candidate)
    → All (λ (c : Candidate). lacks_id c.evidence_id ≡ false) cs
    → any_by (λ a. any_by (λ b. raises casefold shadowed scores a b) ds) cs ≡ false
none_raises casefold shadowed scores [] ds h = refl
none_raises casefold shadowed scores (c ∷ cs) ds h =
    rw (one ds, none_raises casefold shadowed scores cs ds h.1) refl
  where
    quiet : (a b m : Bool) → (a && (b && (false && m))) ≡ false
    quiet a b m = ground arith

    one : (es : List Candidate) → any_by (λ b. raises casefold shadowed scores c b) es ≡ false
    one [] = refl
    one (e ∷ es) =
        rw
          (
            h.0,
            quiet (group_of casefold shadowed c == group_of casefold shadowed e)
                (or_lowest (score_of scores c.evidence_id)
                  == or_lowest (score_of scores e.evidence_id))
                (not (lacks_id e.evidence_id)),
            one es,
          )
          refl
