-- ===== src/Promotion/Move/Retired.antt =====
-- src/aizk/graph/promote.py, src/aizk/store/models/tables/document.py, fact.py: what the retirement at
-- the end of a move leaves.
use aizk.Base.{
  ℕ, ◌≡◌, refl, ◌∙◌, ap, inl, inr, ◌≤◌, true, false, ◌&&◌, Bool-cases, Option, none, some, List, [],
  ◌∷◌, map, ◌==◌, All, All-In, elem, text_eq, Text, if◌then◌else◌, arith,
}
use aizk.Promotion.{Document, Chunk, FactClaim, active_at, ends_after}
use aizk.Promotion.Rows.{derived, closed, close_if, expired_now}
use aizk.Promotion.Carry.{row_of, is_copy, standing_copy, is_cached}
use aizk.Promotion.Standing.Finding.{find_by-In, find_by-map}
use aizk.Promotion.Standing.Rounds.{Apart, copy_scopes}

-- No open claim is derived from the documents.
abbrev pub Unclaimed : List ℕ → List Chunk → List FactClaim → Type 0
Unclaimed ids chunks claims = All (λ (c : FactClaim). derived ids chunks c ≡ false) claims

closed-derived :
    (ids : List ℕ) (chunks : List Chunk) (reason : Text) (now : ℕ) (c : FactClaim)
    → derived ids chunks (if derived ids chunks c then closed reason now c else c) ≡ false
closed-derived ids chunks reason now c = elim (Bool-cases (derived ids chunks c)) [
  | inl b ↦ rw b refl
  | inr b ↦ rw b b
]

pub close_if-Unclaimed :
    (ids : List ℕ) (chunks : List Chunk) (reason : Text) (now : ℕ) (claims : List FactClaim)
    → Unclaimed ids chunks (close_if (derived ids chunks) reason now claims)
close_if-Unclaimed ids chunks reason now [] = tt
close_if-Unclaimed ids chunks reason now (c ∷ cs) =
    (closed-derived ids chunks reason now c, close_if-Unclaimed ids chunks reason now cs)

pub close_if-same :
    (ids : List ℕ) (chunks : List Chunk) (reason : Text) (now : ℕ) (claims : List FactClaim)
    → Unclaimed ids chunks claims
    → close_if (derived ids chunks) reason now claims ≡ claims
close_if-same ids chunks reason now [] h = refl
close_if-same ids chunks reason now (c ∷ cs) h =
    rw (h.0, close_if-same ids chunks reason now cs h.1) refl

module _ (ids : List ℕ) (began : ℕ) (d : Document) where
  pub expired_now-id : (expired_now ids began d).id ≡ d.id
  expired_now-id = elim (Bool-cases (elem d.id ids && active_at d began)) [
    | inl b ↦ rw b refl
    | inr b ↦ rw b refl
  ]

  pub expired_now-is_copy :
      (target : List ℕ) (source : ℕ)
      → is_copy target source (expired_now ids began d) ≡ is_copy target source d
  expired_now-is_copy target source = elim (Bool-cases (elem d.id ids && active_at d began)) [
    | inl b ↦ rw b refl
    | inr b ↦ rw b refl
  ]

  pub expired_now-cached : is_cached (expired_now ids began d) ≡ is_cached d
  expired_now-cached = elim (Bool-cases (elem d.id ids && active_at d began)) [
    | inl b ↦ rw b refl
    | inr b ↦ rw b refl
  ]

  pub expired_now-hash : (expired_now ids began d).content_hash ≡ d.content_hash
  expired_now-hash = elim (Bool-cases (elem d.id ids && active_at d began)) [
    | inl b ↦ rw b refl
    | inr b ↦ rw b refl
  ]

  pub expired_now-other : elem d.id ids ≡ false → expired_now ids began d ≡ d
  expired_now-other e = rw e refl

  pub expired_now-ended : elem d.id ids ≡ true → active_at (expired_now ids began d) began ≡ false
  expired_now-ended e = elim (Bool-cases (active_at d began)) [
    | inl b ↦ rw (e, b) (ground arith)
    | inr b ↦ rw (e, b) b
  ]

ended-later : (o : Option ℕ) (m n : ℕ) → m ≤ n → ends_after o m ≡ false → ends_after o n ≡ false
ended-later none m n le e = e
ended-later (some x) m n le e = ground arith

-- What has ended stays ended.
pub inactive-later :
    (d : Document) (m n : ℕ) → m ≤ n → active_at d m ≡ false → active_at d n ≡ false
inactive-later d m n le e = ended-later d.expires_at m n le e

-- A retirement touches no document of the target.
pub copy-kept :
    (target ids : List ℕ) (began : ℕ) (documents : List Document) (source : ℕ) (copy : Document)
    → Apart target ids documents
    → standing_copy target source documents ≡ some copy
    → standing_copy target source (map (expired_now ids began) documents) ≡ some copy
copy-kept target ids began documents source copy apart e =
    let (m, h) = find_by-In (is_copy target source) copy documents e in
    let out =
      All-In (λ (d : Document). (text_eq d.scopes target && elem d.id ids) ≡ false) copy documents
        apart m in
    let unnamed : elem copy.id ids ≡ false = ground (arith, copy_scopes target source copy h) in
    find_by-map (is_copy target source) (expired_now ids began) documents copy
      (λ d. expired_now-is_copy ids began d target source) e
    ∙ ap some (expired_now-other ids began copy unnamed)

pub row-expired :
    (ids : List ℕ) (began : ℕ) (documents : List Document) (i : ℕ) (d : Document)
    → row_of i documents ≡ some d
    → row_of i (map (expired_now ids began) documents) ≡ some (expired_now ids began d)
row-expired ids began documents i d e =
    find_by-map (λ (x : Document). x.id == i) (expired_now ids began) documents d
      (λ x. ap (λ (n : ℕ). n == i) (expired_now-id ids began x)) e
