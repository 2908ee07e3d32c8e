-- ===== src/Promotion/Move/Again.antt =====
-- src/aizk/graph/promote.py: a move that is repeated.
use aizk.Base.{
  ℕ, ◌≡◌, refl, sym, ◌∙◌, subst, ap, inl, inr, ◌≤◌, Bool, true, false, ◌||◌, Option, some, List, [],
  ◌∷◌, map, ◌==◌, ==_iff, All, elem, filter_by, codes, Bool-cases,
}
use aizk.Promotion.{Document, Store, active_at}
use aizk.Promotion.Rows.{
  derived, close_if, retract_from_documents, expired_now, retire_documents, distinct,
}
use aizk.Promotion.Share.{gave, Promoter}
use aizk.Promotion.Carry.{
  current, Promotion, row_of, stands_for, standing_copy, is_cached, work_of, settle_work,
  settle_with, carry_from, carry, retire, transfer,
}
use aizk.Promotion.Standing.Finding.{IsTable}
use aizk.Promotion.Standing.Rounds.{Apart, Delivered}
use aizk.Promotion.Standing.Batch.{DeliveredAll}
use aizk.Promotion.Move.Sources.{Names, Names-ids_of, eq-gave-sources}
use aizk.Promotion.Move.Retired.{
  close_if-Unclaimed, close_if-same, row-expired, expired_now-id, expired_now-cached,
  expired_now-hash, expired_now-ended, expired_now-other, inactive-later,
}
use aizk.Promotion.Move.Moved.{
  Batch, carry-Batch, promoted_ids-found, DeliveredAll-expired, named_rows,
}
use aizk.Promotion.Move.Complete.{transfer-eq-gave, all_named}

-- The promotion that finds the same copy current.
abbrev pub unchanged : Promotion → Promotion
unchanged q = record q { outcome = current }

module _ (ids : List ℕ) (began : ℕ) where
  expired-Names :
      (named : List ℕ) (before after found : List Document)
      → ((j : ℕ) → elem j ids ≡ true → row_of j after ≡ row_of j before)
      → All (λ (j : ℕ). elem j ids ≡ true) named
      → Names named before found
      → Names named (map (expired_now ids began) after) (map (expired_now ids began) found)
  expired-Names [] before after [] rows m n = tt
  expired-Names [] before after (d ∷ ds) rows m n = elim n [ ]
  expired-Names (i ∷ is) before after [] rows m n = elim n [ ]
  expired-Names (i ∷ is) before after (d ∷ ds) rows m n = (
    row-expired ids began after i d (rows i m.0 ∙ n.0),
    expired-Names is before after ds rows m.1 n.1,
  )

  expired-uncached :
      (found : List Document)
      → filter_by is_cached (map (expired_now ids began) found)
        ≡ map (expired_now ids began) (filter_by is_cached found)
  expired-uncached [] = refl
  expired-uncached (d ∷ ds) =
      let same = expired_now-cached ids began d in
      elim (Bool-cases (is_cached d)) [
        | inl b ↦ rw (same, b, expired-uncached ds) refl
        | inr b ↦ rw (same, b, expired-uncached ds) refl
      ]

  -- A document that was retired is not retired again.
  expired-twice :
      (later : ℕ) (d : Document)
      → began ≤ later
      → expired_now ids later (expired_now ids began d) ≡ expired_now ids began d
  expired-twice later d le = elim (Bool-cases (elem d.id ids)) [
    | inl b ↦
        let ended =
          inactive-later (expired_now ids began d) began later le
            (expired_now-ended ids began d b) in
        not_twice (expired_now ids began d) ended
    | inr b ↦
        let same = expired_now-other ids began d b in
        ap (expired_now ids later) same ∙ expired_now-other ids later d b ∙ sym same
  ]
    where
      not_twice : (x : Document) → active_at x later ≡ false → expired_now ids later x ≡ x
      not_twice x e = elim (Bool-cases (elem x.id ids)) [
        | inl b ↦ rw (b, e) refl
        | inr b ↦ rw b refl
      ]

  expired-all_twice :
      (later : ℕ) (documents : List Document)
      → began ≤ later
      → map (expired_now ids later) (map (expired_now ids began) documents)
        ≡ map (expired_now ids began) documents
  expired-all_twice later [] le = refl
  expired-all_twice later (d ∷ ds) le =
      rw (expired-twice later d le, expired-all_twice later ds le) refl

-- A copy with the source's content stands for a source that has ended.
stands_for-ended :
    (copy source : Document) (now : ℕ)
    → copy.content_hash ≡ source.content_hash
    → active_at source now ≡ false
    → stands_for copy source now ≡ true
stands_for-ended copy source now same ended =
    let e : (copy.content_hash == source.content_hash) ≡ true =
      (==_iff copy.content_hash source.content_hash).1 same in
    rw (e, ended) (or_true (active_at copy now))
  where
    or_true : (b : Bool) → (b || true) ≡ true
    or_true true = refl
    or_true false = refl

settled_again :
    (p : Promoter) (began' now now' : ℕ) (s : Store) (d x : Document) (q : Promotion)
    → x.id ≡ d.id
    → x.content_hash ≡ d.content_hash
    → active_at x now' ≡ false
    → Delivered p.target now s.documents d q
    → settle_work p now' (work_of p began' s x) s ≡ gave (unchanged q, s)
settled_again p began' now now' s d x q same hash ended h =
    let found : standing_copy p.target x.id s.documents ≡ some h.copy =
      ap (λ (i : ℕ). standing_copy p.target i s.documents) same ∙ h.stands in
    let fresh = stands_for-ended h.copy x now' (h.same_content ∙ sym hash) ended in
    let answer =
      ap (λ (o : Option Document). settle_with p now' (work_of p began' s x) o s) found in
    answer ∙ rw (fresh, same, sym h.of_source, h.destined) refl

carried_again :
    (p : Promoter) (ids : List ℕ) (began began' now now' : ℕ) (s : Store) (found : List Document)
    (qs : List Promotion)
    → began ≤ now'
    → All (λ (d : Document). elem d.id ids ≡ true) found
    → DeliveredAll p.target now s.documents found qs
    → carry_from p now' (map (work_of p began' s) (map (expired_now ids began) found)) s
      ≡ gave (map unchanged qs, s)
carried_again p ids began began' now now' s [] [] le m h = refl
carried_again p ids began began' now now' s [] (q ∷ qs) le m h = elim h [ ]
carried_again p ids began began' now now' s (d ∷ ds) [] le m h = elim h [ ]
carried_again p ids began began' now now' s (d ∷ ds) (q ∷ qs) le m h =
    let x = expired_now ids began d in
    let ended = inactive-later x began now' le (expired_now-ended ids began d m.0) in
    let first =
      settled_again p began' now now' s d x q (expired_now-id ids began d)
        (expired_now-hash ids began d) ended h.0 in
    rw (first, carried_again p ids began began' now now' s ds qs le m.1 h.1) refl

unchanged_sources :
    (qs : List Promotion)
    → map (λ (q : Promotion). q.source) (map unchanged qs) ≡ map (λ (q : Promotion). q.source) qs
unchanged_sources [] = refl
unchanged_sources (q ∷ qs) = ap (λ (r : List ℕ). q.source ∷ r) (unchanged_sources qs)

named_found :
    (named : List ℕ) (documents found : List Document)
    → Names named documents found
    → All (λ (d : Document). elem d.id named ≡ true) found
named_found named documents found n =
    subst (λ (r : List ℕ). All (λ (d : Document). elem d.id r ≡ true) found)
      (Names-ids_of named documents found n) (named_rows found)

retired_again :
    (ids : List ℕ) (began began' now now' : ℕ) (u : Store)
    → began ≤ began'
    → retire began' now' ids (retire began now ids u) ≡ retire began now ids u
unfolding retire retract_from_documents retire_documents
retired_again ids began began' now now' u le =
    let claims = close_if (derived ids u.chunks) (codes "moved") now u.claims in
    let closed =
      close_if-same ids u.chunks (codes "moved") now' claims
        (close_if-Unclaimed ids u.chunks (codes "moved") now u.claims) in
    rw (closed, expired-all_twice ids began began' u.documents le) refl

Batch-again :
    (p : Promoter) (began began' now now' : ℕ) (ids : List ℕ) (s u : Store) (qs : List Promotion)
    → began ≤ now'
    → Batch p began now (distinct [] ids) s qs u
    → carry p began' now' ids (retire began now (distinct [] ids) u)
      ≡ gave (map unchanged qs, retire began now (distinct [] ids) u)
unfolding carry retire retract_from_documents retire_documents
Batch-again p began began' now now' ids s u qs le b =
    let named = distinct [] ids in
    let r = retire began now named u in
    let found = map (expired_now named began) b.found in
    let names =
      expired-Names named began named s.documents u.documents b.found b.rows (all_named named)
        b.names in
    let uncached =
      expired-uncached named began b.found ∙ ap (map (expired_now named began)) b.uncached in
    rw (eq-gave-sources named r.documents found names uncached) (
      carried_again p named began began' now now' r b.found qs le
        (named_found named s.documents b.found b.names)
        (DeliveredAll-expired p.target named began now u.documents b.found qs b.apart b.delivered))

-- In a table of documents none of which stands in the target and is named, a move that succeeded and is
-- repeated at any later moment succeeds, finds every copy current at the destination that it had, and
-- changes nothing in the store.
pub transfer_again :
    (p : Promoter) (began began' now now' : ℕ) (ids : List ℕ) (s : Store) (qs : List Promotion)
    (t : Store)
    → IsTable s.next_id s.documents
    → Apart p.target ids s.documents
    → began ≤ began'
    → began ≤ now'
    → transfer p began now ids true s ≡ gave (qs, t)
    → transfer p began' now' ids true t ≡ gave (map unchanged qs, t)
unfolding transfer
transfer_again p began began' now now' ids s qs t table apart le le' e =
    let (u, h, left) = transfer-eq-gave p began now ids s qs t e in
    let named = distinct [] ids in
    let b = carry-Batch p began now ids s qs u table apart h in
    let same : map (λ (q : Promotion). q.source) qs ≡ named =
      promoted_ids-found p.target now u.documents b.found qs b.delivered
      ∙ Names-ids_of named s.documents b.found b.names in
    let left' = subst (λ (r : List ℕ). retire began now r u ≡ t) same left in
    let again = Batch-again p began began' now now' ids s u qs le' b in
    let still = retired_again named began began' now now' u le in
    subst (λ (x : Store). transfer p began' now' ids true x ≡ gave (map unchanged qs, x)) left'
      (rw (again, unchanged_sources qs, same, still) refl)
