-- ===== src/Promotion/Move/Arrivals.antt =====
-- src/aizk/graph/promote.py: the chunks that a batch copies, and that they are still there at its end.
use aizk.Base.{
  ℕ, suc, ◌≡◌, ◌≢◌, ◌≤◌, refl, sym, ◌∙◌, subst, ap, inl, inr, true, false, Bool-cases, Option, none,
  some, List, [], ◌∷◌, map, elem, ◌==◌, ==_iff, codes, arith,
}
use aizk.Promotion.{Document, Chunk, Store}
use aizk.Promotion.Rows.{retract_from_documents}
use aizk.Promotion.Share.{gave, Promoter, share}
use aizk.Promotion.Ground.{ground_copy}
use aizk.Promotion.Carry.{
  current, Promotion, stands_for, Work, fresh_copy, insert_document, Settled, create, assigned,
  update_document, delete_chunks, refresh, settle_with, settle_work, carry_from,
}
use aizk.Promotion.Standing.Effects.{
  sequel, insert_document-eq-gave, update_document-eq-gave, share-Keeps, ground-Keeps,
}
use aizk.Promotion.Standing.Batch.{Once}
use aizk.Promotion.Move.Passages.{
  of_document, passages, share-chunks, deleted-own, deleted-other, ground-passages, ground-others,
}

-- What a round does to the chunks: when it wrote the destination, and had not yet anything under the
-- identifier it handed out, the destination has the source's passages and no other; no other document
-- is touched.
record Wrote (w : Work) (s : Store) (q : Promotion) (t : Store) : Type 0 where
  of_source : q.source ≡ w.source.id
  passages_there :
      q.outcome ≢ current
      → (s.next_id ≤ q.destination → of_document q.destination s.chunks ≡ [])
      → passages (of_document q.destination t.chunks) ≡ passages w.chunks
  others : (j : ℕ) → (q.destination == j) ≡ false → of_document j t.chunks ≡ of_document j s.chunks
  not_back : s.next_id ≤ t.next_id

create-Wrote :
    (p : Promoter) (w : Work) (s : Store) (q : Promotion) (t : Store)
    → create p w s ≡ gave (q, t)
    → Wrote w s q t
unfolding create
create-Wrote p w s q t e =
    let begun = record s { next_id = suc s.next_id } in
    let (((a, c), s1), h1, e1) = sequel (share p w.source begun) _ e in
    let (s2, h2, e2) = sequel (insert_document (fresh_copy p w.source s.next_id a c) s1) _ e1 in
    let k1 = share-Keeps p w.source begun h1 in
    let k2 = insert_document-eq-gave (fresh_copy p w.source s.next_id a c) s1 s2 h2 in
    let k3 = ground-Keeps p s.next_id w.chunks w.facts s2 in
    let held : s2.chunks ≡ s.chunks =
      ap (λ (x : Store). x.chunks) (sym k2) ∙ share-chunks p w.source begun h1 in
    let same : ground_copy p s.next_id w.chunks w.facts s2 ≡ t = cc in
    let source : w.source.id ≡ q.source = cc in
    let there : s.next_id ≡ q.destination = cc in
    record {
      of_source = sym source;
      passages_there = λ written free.
          subst (λ (n : ℕ). passages (of_document n t.chunks) ≡ passages w.chunks) there
            (subst (λ (x : Store). passages (of_document s.next_id x.chunks) ≡ passages w.chunks)
              same
              (ground-passages p s.next_id w.chunks w.facts s2 (
                ap (of_document s.next_id) held
                ∙ subst (λ (n : ℕ). s.next_id ≤ n → of_document n s.chunks ≡ []) (sym there) free
                    (omega arith))));
      others = λ j ne.
          subst (λ (x : Store). of_document j x.chunks ≡ of_document j s.chunks) same
            (ground-others p s.next_id w.chunks w.facts s2 j
                (subst (λ (n : ℕ). (n == j) ≡ false) (sym there) ne)
              ∙ ap (of_document j) held);
      not_back =
          omega (
            arith,
            k1.1,
            ap (λ (x : Store). x.next_id) k2,
            k3.1,
            ap (λ (x : Store). x.next_id) same,
          );
    }

refresh-Wrote :
    (p : Promoter) (now : ℕ) (copy : Document) (w : Work) (s : Store) (q : Promotion) (t : Store)
    → refresh p now copy w s ≡ gave (q, t)
    → Wrote w s q t
unfolding refresh retract_from_documents
refresh-Wrote p now copy w s q t e =
    let s0 =
      delete_chunks copy.id (retract_from_documents (copy.id ∷ []) (codes "refreshed") now s) in
    let (((a, c), s1), h1, e1) = sequel (share p w.source s0) _ e in
    let g = assigned w.source now a c in
    let (s2, h2, e2) = sequel (update_document copy.id g (g copy) s1) _ e1 in
    let k1 = share-Keeps p w.source s0 h1 in
    let k2 = update_document-eq-gave copy.id g (g copy) s1 s2 h2 in
    let k3 = ground-Keeps p copy.id w.chunks w.facts s2 in
    let held : s2.chunks ≡ s0.chunks =
      ap (λ (x : Store). x.chunks) (sym k2) ∙ share-chunks p w.source s0 h1 in
    let same : ground_copy p copy.id w.chunks w.facts s2 ≡ t = cc in
    let source : w.source.id ≡ q.source = cc in
    let there : copy.id ≡ q.destination = cc in
    record {
      of_source = sym source;
      passages_there = λ written free.
          subst (λ (n : ℕ). passages (of_document n t.chunks) ≡ passages w.chunks) there
            (subst (λ (x : Store). passages (of_document copy.id x.chunks) ≡ passages w.chunks) same
              (ground-passages p copy.id w.chunks w.facts s2
                (ap (of_document copy.id) held ∙ deleted-own copy.id s.chunks)));
      others = λ j ne.
          let apart : (copy.id == j) ≡ false = subst (λ (n : ℕ). (n == j) ≡ false) (sym there) ne in
          subst (λ (x : Store). of_document j x.chunks ≡ of_document j s.chunks) same
            (ground-others p copy.id w.chunks w.facts s2 j apart
              ∙ ap (of_document j) held
              ∙ deleted-other copy.id j s.chunks apart);
      not_back =
          omega (
            arith,
            k1.1,
            ap (λ (x : Store). x.next_id) k2,
            k3.1,
            ap (λ (x : Store). x.next_id) same,
          );
    }

settle_with-Wrote :
    (p : Promoter) (now : ℕ) (w : Work) (o : Option Document) (s : Store) (q : Promotion)
    (t : Store)
    → settle_with p now w o s ≡ gave (q, t)
    → Wrote w s q t
settle_with-Wrote p now w none s q t e = create-Wrote p w s q t e
settle_with-Wrote p now w (some copy) s q t e = elim (Bool-cases (stands_for copy w.source now)) [
  | inl b ↦
      let answer : Settled =
        (record { source = w.source.id; destination = copy.id; outcome = current }, s) in
      let done : gave answer ≡ gave (q, t) = ground arith in
      let same : answer.0 ≡ q = cc in
      let store : s ≡ t = cc in
      record {
        of_source = ap (λ (x : Promotion). x.source) (sym same);
        passages_there =
            λ written free. absurd (written (ap (λ (x : Promotion). x.outcome) (sym same)));
        others = λ j ne. ap (λ (x : Store). of_document j x.chunks) (sym store);
        not_back = omega (arith, ap (λ (x : Store). x.next_id) store);
      }
  | inr b ↦ refresh-Wrote p now copy w s q t (ground arith)
]

abbrev pub destinations : List Promotion → List ℕ
destinations qs = map (λ (q : Promotion). q.destination) qs

-- Each work's destination has the passages of its source, where its round wrote it.
abbrev pub ArrivedAll : List Chunk → List Work → List Promotion → Type 0
ArrivedAll chunks [] [] = Unit
ArrivedAll chunks [] (q ∷ qs) = ⊥
ArrivedAll chunks (w ∷ ws) [] = ⊥
ArrivedAll chunks (w ∷ ws) (q ∷ qs) =
    ((q.source ≡ w.source.id)
      × (q.outcome ≢ current → passages (of_document q.destination chunks) ≡ passages w.chunks))
    × ArrivedAll chunks ws qs

-- What a chain of rounds leaves.
pub record Chain (ws : List Work) (s : Store) (qs : List Promotion) (t : Store) : Type 0 where
  pub arrived : ArrivedAll t.chunks ws qs
  pub untouched :
      (j : ℕ) → elem j (destinations qs) ≡ false → of_document j t.chunks ≡ of_document j s.chunks

Chain-cons :
    (w : Work) (ws : List Work) (s s1 s2 : Store) (q : Promotion) (qs : List Promotion)
    → Wrote w s q s1
    → Chain ws s1 qs s2
    → (s.next_id ≤ q.destination → of_document q.destination s.chunks ≡ [])
    → elem q.destination (destinations qs) ≡ false
    → Chain (w ∷ ws) s (q ∷ qs) s2
Chain-cons w ws s s1 s2 q qs first rest free once = record {
  arrived = (
    (
      first.of_source,
      λ written.
          ap passages (rest.untouched q.destination once) ∙ first.passages_there written free,
    ),
    rest.arrived,
  );
  untouched = λ j out. let (ne, far) = apart j out in rest.untouched j far ∙ first.others j ne;
}
  where
    apart :
        (j : ℕ)
        → elem j (q.destination ∷ destinations qs) ≡ false
        → ((q.destination == j) ≡ false) × (elem j (destinations qs) ≡ false)
    apart j e = ground arith

pub carry_from-Chain :
    (p : Promoter) (now bound : ℕ) (ws : List Work) (s : Store) (qs : List Promotion) (t : Store)
    → bound ≤ s.next_id
    → Once (destinations qs)
    → ((j : ℕ) → bound ≤ j → elem j (destinations qs) ≡ true → of_document j s.chunks ≡ [])
    → carry_from p now ws s ≡ gave (qs, t)
    → Chain ws s qs t
carry_from-Chain p now bound [] s qs t low once free e =
    let none_left : [] ≡ qs = cc in
    let same : s ≡ t = cc in
    subst (λ (r : List Promotion). Chain [] s r t) none_left
      (subst (λ (x : Store). Chain [] s [] x) same
        (record { arrived = tt; untouched = λ j m. refl }))
carry_from-Chain p now bound (w ∷ ws) s qs t low once free e =
    let ((q, s1), h1, e1) = sequel (settle_work p now w s) _ e in
    let ((rest, s2), h2, e2) = sequel (carry_from p now ws s1) _ e1 in
    let first = settle_with-Wrote p now w w.copy s q s1 h1 in
    let ends : q ∷ rest ≡ qs = cc in
    let same : s2 ≡ t = cc in
    let once' = subst (λ (r : List Promotion). Once (destinations r)) (sym ends) once in
    let free' =
      subst
        (λ (r : List Promotion).
          (j : ℕ) → bound ≤ j → elem j (destinations r) ≡ true → of_document j s.chunks ≡ [])
        (sym ends) free in
    let others =
      carry_from-Chain p now bound ws s1 rest s2 (omega (arith, low, first.not_back)) once'.1
        (λ j far m.
          first.others j (differs q.destination j (destinations rest) once'.0 m)
          ∙ free' j far (later_one q.destination j (destinations rest) m))
        h2 in
    subst (λ (r : List Promotion). Chain (w ∷ ws) s r t) ends
      (subst (λ (x : Store). Chain (w ∷ ws) s (q ∷ rest) x) same
        (Chain-cons w ws s s1 s2 q rest first others
          (λ far.
            free' q.destination (omega (arith, low, far)) (here q.destination (destinations rest)))
          once'.0))
  where
    differs : (a j : ℕ) (is : List ℕ) → elem a is ≡ false → elem j is ≡ true → (a == j) ≡ false
    differs a j is out m = elim (Bool-cases (a == j)) [
      | inr e ↦ e
      | inl e ↦ absurd (cc (ap (λ (n : ℕ). elem n is) ((==_iff a j).0 e), out, m))
    ]

    later_one : (a j : ℕ) (is : List ℕ) → elem j is ≡ true → elem j (a ∷ is) ≡ true
    later_one a j is m = ground arith

    here : (a : ℕ) (is : List ℕ) → elem a (a ∷ is) ≡ true
    here a is = ground arith
