-- ===== src/Promotion/Covers/Facts.antt =====
-- src/aizk/graph/promote.py: the facts of a source in the destination.
use aizk.Base.{
  ℕ, suc, ◌≡◌, ◌≢◌, refl, sym, subst, ap, inl, inr, true, Bool-cases, Option, none, some, List, [],
  ◌∷◌, map, any_by, All, All-map, All-of_In, In, codes, arith,
}
use aizk.Promotion.{Document, Chunk, FactClaim, Store}
use aizk.Promotion.Rows.{retract_from_documents}
use aizk.Promotion.Share.{gave, Promoter, share}
use aizk.Promotion.Ground.{
  LiveFact, copies_of, next_after, re_claimed, unique_from, claim_facts, ground_copy,
}
use aizk.Promotion.Carry.{
  current, Promotion, stands_for, Work, fresh_copy, insert_document, create, assigned,
  update_document, delete_chunks, refresh, settle_with, settle_work,
}
use aizk.Promotion.Standing.Effects.{sequel}
use aizk.Promotion.Covers.Claims.{
  has_key, open_with, IsRow, unique-has, unique-IsRow, insert-stands, stands_with,
}

-- The destination holds an open claim on what the fact states, from the same perspective.
abbrev pub Covers : List ℕ → List FactClaim → LiveFact → Type 0
Covers target claims f =
    any_by (open_with target f.claim.content_id f.claim.perspective_key) claims ≡ true

claim_facts-Covers :
    (p : Promoter) (copies : List (ℕ × Chunk)) (n : ℕ) (facts : List LiveFact)
    (claims : List FactClaim)
    → All (Covers p.target (claim_facts n (map (re_claimed p copies) facts) claims).1) facts
claim_facts-Covers p copies n facts claims =
    let rows = map (re_claimed p copies) facts in
    let shapes =
      unique-IsRow p.target rows []
        (All-map (IsRow p.target) (re_claimed p copies) facts (
          All-of_In (λ (f : LiveFact). IsRow p.target (re_claimed p copies f)) facts
            λ f m. (refl, refl)))
        tt in
    let standing = insert-stands p.target (unique_from [] rows) n claims shapes in
    All-of_In (Covers p.target (claim_facts n rows claims).1) facts λ f m.
      stands_with p.target f.claim.content_id f.claim.perspective_key (unique_from [] rows)
        (claim_facts n rows claims).1 shapes (named f facts m (unique-has rows [])) standing
  where
    named :
        (f : LiveFact) (fs : List LiveFact)
        → In f fs
        → All
            (λ (c : FactClaim).
              any_by
                (has_key c.content_id c.perspective_key)
                (unique_from [] (map (re_claimed p copies) facts))
              ≡ true)
            (map (re_claimed p copies) fs)
        → any_by
            (has_key f.claim.content_id f.claim.perspective_key)
            (unique_from [] (map (re_claimed p copies) facts))
          ≡ true
    named f [] m h = elim m [ ]
    named f (g ∷ fs) (inl e) h =
        subst
          (λ (x : LiveFact).
            any_by (has_key x.claim.content_id x.claim.perspective_key)
              (unique_from [] (map (re_claimed p copies) facts))
            ≡ true)
          e h.0
    named f (g ∷ fs) (inr m) h = named f fs m h.1

ground-Covers :
    (p : Promoter) (destination : ℕ) (chunks : List Chunk) (facts : List LiveFact) (s : Store)
    → All (Covers p.target (ground_copy p destination chunks facts s).claims) facts
unfolding ground_copy
ground-Covers p destination chunks facts s =
    claim_facts-Covers p (copies_of p destination s.next_id chunks) (next_after s.next_id chunks)
      facts s.claims

refresh-Covers :
    (p : Promoter) (now : ℕ) (copy : Document) (w : Work) (s : Store) (q : Promotion) (t : Store)
    → refresh p now copy w s ≡ gave (q, t)
    → All (Covers p.target t.claims) w.facts
unfolding refresh
refresh-Covers p now copy w s q t e =
    let s0 =
      delete_chunks copy.id (retract_from_documents (copy.id ∷ []) (codes "refreshed") now s) in
    let (((a, c), s1), h1, e1) = sequel (share p w.source s0) _ e in
    let g = assigned w.source now a c in
    let (s2, h2, e2) = sequel (update_document copy.id g (g copy) s1) _ e1 in
    let same : ground_copy p copy.id w.chunks w.facts s2 ≡ t = cc in
    subst (λ (x : Store). All (Covers p.target x.claims) w.facts) same
      (ground-Covers p copy.id w.chunks w.facts s2)

settle_with-Covers :
    (p : Promoter) (now : ℕ) (w : Work) (o : Option Document) (s : Store) (q : Promotion)
    (t : Store)
    → q.outcome ≢ current
    → settle_with p now w o s ≡ gave (q, t)
    → All (Covers p.target t.claims) w.facts
unfolding create
settle_with-Covers p now w none s q t written e =
    let (((a, c), s1), h1, e1) =
      sequel (share p w.source (record s { next_id = suc s.next_id })) _ e in
    let (s2, h2, e2) = sequel (insert_document (fresh_copy p w.source s.next_id a c) s1) _ e1 in
    let same : ground_copy p s.next_id w.chunks w.facts s2 ≡ t = cc in
    subst (λ (x : Store). All (Covers p.target x.claims) w.facts) same
      (ground-Covers p s.next_id w.chunks w.facts s2)
settle_with-Covers p now w (some copy) s q t written e =
    elim (Bool-cases (stands_for copy w.source now)) [
      | inl b ↦
          let answer : Promotion × Store =
            (record { source = w.source.id; destination = copy.id; outcome = current }, s) in
          let done : gave answer ≡ gave (q, t) = ground arith in
          let same : answer.0 ≡ q = cc in
          absurd (written (ap (λ (x : Promotion). x.outcome) (sym same)))
      | inr b ↦ refresh-Covers p now copy w s q t (ground arith)
    ]

-- A round of a batch that wrote the destination, created or refreshed, leaves an open claim in the
-- target on the statement of every live fact of the source, from the same perspective.
pub settle_work-Covers :
    (p : Promoter) (now : ℕ) (w : Work) (s : Store) (q : Promotion) (t : Store)
    → q.outcome ≢ current
    → settle_work p now w s ≡ gave (q, t)
    → All (Covers p.target t.claims) w.facts
settle_work-Covers p now w s q t written e = settle_with-Covers p now w w.copy s q t written e
