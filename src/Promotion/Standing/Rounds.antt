-- ===== src/Promotion/Standing/Rounds.antt =====
-- src/aizk/graph/promote.py: what a round of a batch leaves of the rows that the other rounds look for.
use aizk.Base.{
  ℕ, ◌≡◌, refl, inl, inr, Bool, true, false, ◌&&◌, ◌||◌, not, Bool-cases, Option, some, List, ◌==◌,
  ==_iff, All, elem, text_eq, opt_eq, opt_eq_iff,
}
use aizk.Promotion.{Document, active_at, ends_after}
use aizk.Promotion.Carry.{
  Promotion, stands_for, row_of, is_copy, standing_copy, assigned, at_row, inherited_expiry,
}
use aizk.Promotion.Standing.Finding.{find_by-In}

-- No document of the target is among the named ones: `selection` drops those before a share.
abbrev pub Apart : List ℕ → List ℕ → List Document → Type 0
Apart target ids documents =
    All (λ (d : Document). (text_eq d.scopes target && elem d.id ids) ≡ false) documents

-- Each identifier names the row of a document.
abbrev pub Known : List ℕ → List Document → Type 0
Known ids documents = All (λ (j : ℕ). (d : Document) × (row_of j documents ≡ some d)) ids

-- The destination of a promotion holds the one copy of the source in the target: with the source's
-- content, and still valid if the source is.
pub record Delivered (target : List ℕ) (now : ℕ) (documents : List Document) (source : Document)
    (q : Promotion) : Type 0 where
  pub copy : Document
  pub of_source : q.source ≡ source.id
  pub stands : standing_copy target source.id documents ≡ some copy
  pub destined : copy.id ≡ q.destination
  pub same_content : copy.content_hash ≡ source.content_hash
  pub holds : (not (active_at source now) || active_at copy now) ≡ true

pub and_right : (a b : Bool) → (a && b) ≡ true → b ≡ true
and_right true b e = e
and_right false b e = cc

pub and_left : (a b : Bool) → (a && b) ≡ true → a ≡ true
and_left true b e = refl
and_left false b e = cc

pub copy_scopes :
    (target : List ℕ) (source : ℕ) (d : Document)
    → is_copy target source d ≡ true
    → text_eq d.scopes target ≡ true
copy_scopes target source d e = and_right (opt_eq d.promoted_from (some source)) _ e

pub copy_source :
    (target : List ℕ) (source : ℕ) (d : Document)
    → is_copy target source d ≡ true
    → d.promoted_from ≡ some source
copy_source target source d e =
    (opt_eq_iff d.promoted_from (some source)).0
      (and_left (opt_eq d.promoted_from (some source)) (text_eq d.scopes target) e)

-- A row is found by its identifier.
pub row_of-id :
    (j : ℕ) (documents : List Document) (d : Document) → row_of j documents ≡ some d → d.id ≡ j
row_of-id j documents d e =
    (==_iff d.id j).0 (find_by-In (λ (x : Document). x.id == j) d documents e).1

pub ne-false : (a b : ℕ) → (a ≡ b → ⊥) → (a == b) ≡ false
ne-false a b h = elim (Bool-cases (a == b)) [ inl e ↦ absurd (h ((==_iff a b).0 e)) | inr e ↦ e ]

pub at_row-is_copy :
    (target : List ℕ) (i j moment : ℕ) (source : Document) (a c : Option ℕ) (d : Document)
    → is_copy target j (at_row i (assigned source moment a c) d) ≡ is_copy target j d
at_row-is_copy target i j moment source a c d = elim (Bool-cases (d.id == i)) [
  | inl b ↦ rw b refl
  | inr b ↦ rw b refl
]

or_swap : (a b : Bool) → (a || b) ≡ true → (b || a) ≡ true
or_swap true true e = refl
or_swap true false e = refl
or_swap false true e = refl
or_swap false false e = e

pub not_or_self : (b : Bool) → (not b || b) ≡ true
not_or_self true = refl
not_or_self false = refl

pub inherited-active :
    (copy source : Document) (moment : ℕ)
    → (not (active_at source moment) || ends_after (inherited_expiry copy source moment) moment)
      ≡ true
inherited-active copy source moment = elim (Bool-cases (active_at source moment)) [
  | inl b ↦ simp (b, b)
  | inr b ↦ simp b
]

pub stands_for-active :
    (copy source : Document) (moment : ℕ)
    → stands_for copy source moment ≡ true
    → (not (active_at source moment) || active_at copy moment) ≡ true
stands_for-active copy source moment e =
    or_swap (active_at copy moment) (not (active_at source moment))
      (and_right (copy.content_hash == source.content_hash) _ e)
