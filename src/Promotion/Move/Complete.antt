-- ===== src/Promotion/Move/Complete.antt =====
-- src/aizk/graph/promote.py: what a move that succeeds has done.
use aizk.Base.{
  ℕ, ◌≡◌, ◌≢◌, ◌<◌, ◌≤◌, refl, ◌==◌, ==_refl, false, arith, sym, ◌∙◌, subst, ap, true, List, [],
  ◌∷◌, map, All, All-of_In, elem, codes,
}
use aizk.Promotion.{Document, Chunk, Store}
use aizk.Promotion.Ground.{chunks_of}
use aizk.Promotion.Rows.{retract_from_documents, expired_now, retire_documents, distinct}
use aizk.Promotion.Share.{gave, Promoter}
use aizk.Promotion.Carry.{
  Promotion, current, is_copy, sources, work_of, row_of, carry, retire, transfer,
}
use aizk.Promotion.Standing.Finding.{find_by-In, IsTable, IsTable-unique, ids_of}
use aizk.Promotion.Standing.Effects.{sequel}
use aizk.Promotion.Move.Passages.{of_document, passages}
use aizk.Promotion.Move.Arrivals.{destinations, ArrivedAll, carry_from-Chain}
use aizk.Promotion.Standing.Rounds.{Apart, Delivered, row_of-id, ne-false, copy_source}
use aizk.Promotion.Standing.Batch.{Once, DeliveredAll, In-elem}
use aizk.Promotion.Move.Sources.{distinct-Once, Names, Names-ids_of}
use aizk.Promotion.Move.Retired.{Unclaimed, close_if-Unclaimed, row-expired, expired_now-ended}
use aizk.Promotion.Move.Moved.{carry-Batch, promoted_ids-found, MovedAll, DeliveredAll-expired}

-- The store of a move is that of its batch with the sources retired.
pub transfer-eq-gave :
    (p : Promoter) (began now : ℕ) (ids : List ℕ) (s : Store) (qs : List Promotion) (t : Store)
    → transfer p began now ids true s ≡ gave (qs, t)
    → (u : Store) × (carry p began now ids s ≡ gave (qs, u))
      × (retire began now (map (λ (q : Promotion). q.source) qs) u ≡ t)
unfolding transfer
transfer-eq-gave p began now ids s qs t e =
    let ((rs, u), h, e1) = sequel (carry p began now ids s) _ e in
    let same : rs ≡ qs = cc in
    let left : retire began now (map (λ (q : Promotion). q.source) rs) u ≡ t = cc in
    (
      u,
      h ∙ ap (λ (r : List Promotion). gave (r, u)) same,
      subst (λ (r : List Promotion). retire began now (map (λ (q : Promotion). q.source) r) u ≡ t)
          same left,
    )

moved_from :
    (target ids named : List ℕ) (began now : ℕ) (before after : List Document)
    (found : List Document) (qs : List Promotion)
    → ((j : ℕ) → elem j ids ≡ true → row_of j after ≡ row_of j before)
    → All (λ (j : ℕ). elem j ids ≡ true) named
    → Names named before found
    → DeliveredAll target now (map (expired_now ids began) after) found qs
    → MovedAll target began now before (map (expired_now ids began) after) named qs
moved_from target ids [] began now before after [] [] rows m n h = tt
moved_from target ids [] began now before after [] (q ∷ qs) rows m n h = elim h [ ]
moved_from target ids [] began now before after (d ∷ ds) qs rows m n h = elim n [ ]
moved_from target ids (i ∷ is) began now before after [] qs rows m n h = elim n [ ]
moved_from target ids (i ∷ is) began now before after (d ∷ ds) [] rows m n h = elim h [ ]
moved_from target ids (i ∷ is) began now before after (d ∷ ds) (q ∷ qs) rows m n h =
    let here = rows i m.0 ∙ n.0 in
    let named : elem d.id ids ≡ true =
      subst (λ (j : ℕ). elem j ids ≡ true) (sym (row_of-id i before d n.0)) m.0 in
    (
      record {
        source = d;
        retired = expired_now ids began d;
        was = n.0;
        stays = row-expired ids began after i d here;
        ended = expired_now-ended ids began d named;
        delivered = h.0;
      },
      moved_from target ids is began now before after ds qs rows m.1 n.1 h.1,
    )

pub all_named : (ids : List ℕ) → All (λ (j : ℕ). elem j ids ≡ true) ids
all_named ids = All-of_In (λ (j : ℕ). elem j ids ≡ true) ids (λ j m. In-elem j ids m)

-- Two promotions of different sources have different destinations.
destined_apart :
    (target : List ℕ) (now next : ℕ) (documents : List Document) (d : Document) (q : Promotion)
    (found : List Document) (qs : List Promotion)
    → IsTable next documents
    → Delivered target now documents d q
    → DeliveredAll target now documents found qs
    → elem d.id (ids_of found) ≡ false
    → elem q.destination (destinations qs) ≡ false
destined_apart target now next documents d q [] [] t h all out = refl
destined_apart target now next documents d q [] (r ∷ rs) t h all out = elim all [ ]
destined_apart target now next documents d q (x ∷ xs) [] t h all out = elim all [ ]
destined_apart target now next documents d q (x ∷ xs) (r ∷ rs) t h all out =
    let (ne, far) = apart out in
    neither (ne-false r.destination q.destination (λ e. clash ne e))
      (destined_apart target now next documents d q xs rs t h all.1 far)
  where
    apart :
        elem d.id (x.id ∷ ids_of xs) ≡ false
        → ((x.id == d.id) ≡ false) × (elem d.id (ids_of xs) ≡ false)
    apart e = ground arith

    neither :
        (r.destination == q.destination) ≡ false
        → elem q.destination (destinations rs) ≡ false
        → elem q.destination (r.destination ∷ destinations rs) ≡ false
    neither a b = ground arith

    clash : (x.id == d.id) ≡ false → r.destination ≡ q.destination → ⊥
    clash ne e =
        let (m, a) = find_by-In (is_copy target d.id) h.copy documents h.stands in
        let (k, b) = find_by-In (is_copy target x.id) all.0.copy documents all.0.stands in
        let same =
          IsTable-unique next documents h.copy all.0.copy t m k
            (h.destined ∙ sym e ∙ sym all.0.destined) in
        let from_d = copy_source target d.id h.copy a in
        let from_x = copy_source target x.id all.0.copy b in
        cc (same, from_d, from_x, ne, ==_refl d.id)

destinations-Once :
    (target : List ℕ) (now next : ℕ) (documents found : List Document) (qs : List Promotion)
    → IsTable next documents
    → DeliveredAll target now documents found qs
    → Once (ids_of found)
    → Once (destinations qs)
destinations-Once target now next documents [] [] t all once = tt
destinations-Once target now next documents [] (q ∷ qs) t all once = elim all [ ]
destinations-Once target now next documents (d ∷ ds) [] t all once = elim all [ ]
destinations-Once target now next documents (d ∷ ds) (q ∷ qs) t all once = (
  destined_apart target now next documents d q ds qs t all.0 all.1 once.0,
  destinations-Once target now next documents ds qs t all.1 once.1,
)

-- A document that is not there yet has no chunks.
no_chunks :
    (next j : ℕ) (chunks : List Chunk)
    → All (λ (c : Chunk). c.document_id < next) chunks
    → next ≤ j
    → of_document j chunks ≡ []
no_chunks next j [] h far = refl
no_chunks next j (c ∷ cs) h far =
    let out : (c.document_id == j) ≡ false =
      ne-false c.document_id j (λ e. omega (arith, h.0, far, e)) in
    rw out (no_chunks next j cs h.1 far)

-- The chunks of the source are at the destination: their texts, in their order, and no others.
abbrev pub IsCopied : Store → Store → Promotion → Type 0
IsCopied before after q =
    q.outcome ≢ current
    → passages (of_document q.destination after.chunks) ≡ passages (chunks_of q.source before)

arrived-IsCopied :
    (p : Promoter) (began : ℕ) (s t : Store) (found : List Document) (qs : List Promotion)
    → ArrivedAll t.chunks (map (work_of p began s) found) qs
    → All (IsCopied s t) qs
arrived-IsCopied p began s t [] [] h = tt
arrived-IsCopied p began s t [] (q ∷ qs) h = elim h [ ]
arrived-IsCopied p began s t (d ∷ ds) [] h = elim h [ ]
arrived-IsCopied p began s t (d ∷ ds) (q ∷ qs) h = (
  (λ written. h.0.1 written ∙ ap (λ (n : ℕ). passages (chunks_of n s)) (sym h.0.0)),
  arrived-IsCopied p began s t ds qs h.1,
)

carry-IsCopied :
    (p : Promoter) (began now : ℕ) (ids : List ℕ) (s : Store) (qs : List Promotion) (u : Store)
    → All (λ (c : Chunk). c.document_id < s.next_id) s.chunks
    → Once (destinations qs)
    → carry p began now ids s ≡ gave (qs, u)
    → All (IsCopied s u) qs
unfolding carry
carry-IsCopied p began now ids s qs u placed once e =
    let (found, h, e1) = sequel (sources (distinct [] ids) s.documents) _ e in
    let chain =
      carry_from-Chain p now s.next_id (map (work_of p began s) found) s qs u (omega arith) once
        (λ j far m. no_chunks s.next_id j s.chunks placed far) e1 in
    arrived-IsCopied p began s u found qs chain.arrived

-- In tables of rows that the caller may read and write, where no named document stands in the target
-- and every chunk belongs to a document, a move that succeeds leaves, for each named document once and
-- in the order of the promotions: the original expired at the moment of the transaction, and in the
-- target one copy, that the promotion names, with the original's content hash and still valid if the
-- original was. Where the promotion made or refreshed the copy, its chunks are the texts of the
-- original's chunks, in their order, and no others. No open claim is left that is derived from an
-- original.
pub transfer_lem :
    (p : Promoter) (began now : ℕ) (ids : List ℕ) (s : Store) (qs : List Promotion) (t : Store)
    → IsTable s.next_id s.documents
    → Apart p.target ids s.documents
    → All (λ (c : Chunk). c.document_id < s.next_id) s.chunks
    → transfer p began now ids true s ≡ gave (qs, t)
    → MovedAll p.target began now s.documents t.documents (distinct [] ids) qs
      × All (IsCopied s t) qs
      × Unclaimed (distinct [] ids) t.chunks t.claims
unfolding retire retract_from_documents retire_documents
transfer_lem p began now ids s qs t table apart placed e =
    let (u, h, left) = transfer-eq-gave p began now ids s qs t e in
    let named = distinct [] ids in
    let b = carry-Batch p began now ids s qs u table apart h in
    let same : map (λ (q : Promotion). q.source) qs ≡ named =
      promoted_ids-found p.target now u.documents b.found qs b.delivered
      ∙ Names-ids_of named s.documents b.found b.names in
    let once =
      destinations-Once p.target now u.next_id u.documents b.found qs b.table b.delivered (
        subst Once (sym (Names-ids_of named s.documents b.found b.names)) (distinct-Once [] ids)) in
    let left' = subst (λ (r : List ℕ). retire began now r u ≡ t) same left in
    subst
      (λ (x : Store).
        MovedAll p.target began now s.documents x.documents named qs
        × All (IsCopied s x) qs
        × Unclaimed named x.chunks x.claims)
      left'
      (
        moved_from p.target named named began now s.documents u.documents b.found qs b.rows
            (all_named named) b.names
            (DeliveredAll-expired p.target named began now u.documents b.found qs b.apart
              b.delivered),
        carry-IsCopied p began now ids s qs u placed once h,
        close_if-Unclaimed named u.chunks (codes "moved") now u.claims,
      )
