-- ===== src/Promotion/Standing/Confined.antt =====
-- src/aizk/graph/promote.py: the rows of other scopes and the cached pages, under an update of a copy.
use aizk.Base.{
  ℕ, ◌≡◌, refl, sym, ◌∙◌, subst, inl, inr, Bool, true, false, not, ◌&&◌, Bool-cases, Option, List,
  [], ◌∷◌, map, ◌==◌, ==_iff, In, All, All-of_In, filter_by, Subseq, keep, skip, done, text_eq,
  if◌then◌else◌,
}
use aizk.Promotion.{Document}
use aizk.Promotion.Carry.{is_cached, assigned, at_row}
use aizk.Promotion.Standing.Finding.{IsTable, IsTable-unique}

abbrev pub outside : List ℕ → Document → Bool
outside target d = not (text_eq d.scopes target)

-- The rows outside the target are the same, and no cached page is new.
pub record Confined (target : List ℕ) (before after : List Document) : Type 0 where
  pub elsewhere : filter_by (outside target) after ≡ filter_by (outside target) before
  pub pages : Subseq (filter_by is_cached after) (filter_by is_cached before)

module _ (target : List ℕ) (i : ℕ) (source : Document) (moment : ℕ) (a c : Option ℕ) where
  elsewhere-at_row :
      (documents : List Document)
      → All (λ (d : Document). ((d.id == i) && outside target d) ≡ false) documents
      → filter_by (outside target) (map (at_row i (assigned source moment a c)) documents)
        ≡ filter_by (outside target) documents
  elsewhere-at_row [] h = refl
  elsewhere-at_row (d ∷ ds) h =
      let rest = elsewhere-at_row ds h.1 in
      elim (Bool-cases (d.id == i)) [
        | inl b ↦
            let out : not (text_eq d.scopes target) ≡ false =
              subst (λ (t : Bool). (t && outside target d) ≡ false) b h.0 in
            rw (b, out, rest) refl
        | inr b ↦ rw (b, rest) refl
      ]

  pages-at_row :
      (documents : List Document)
      → is_cached source ≡ false
      → Subseq
          (filter_by is_cached (map (at_row i (assigned source moment a c)) documents))
          (filter_by is_cached documents)
  pages-at_row [] h = done
  pages-at_row (d ∷ ds) h =
      let rest = pages-at_row ds h in
      elim (Bool-cases (d.id == i)) [
        | inl b ↦ rw (b, h) (dropped (is_cached d) d rest)
        | inr b ↦ rw b (either_way (is_cached d) d rest)
      ]
    where
      dropped :
          (b : Bool) (x : Document) {xs ys : List Document}
          → Subseq xs ys
          → Subseq xs (if b then x ∷ ys else ys)
      dropped true x s = skip s
      dropped false x s = s

      either_way :
          (b : Bool) (x : Document) {xs ys : List Document}
          → Subseq xs ys
          → Subseq (if b then x ∷ xs else xs) (if b then x ∷ ys else ys)
      either_way true x s = keep s
      either_way false x s = s

  pub Confined-at_row :
      (next : ℕ) (documents : List Document) (copy : Document)
      → IsTable next documents
      → In copy documents
      → copy.id ≡ i
      → text_eq copy.scopes target ≡ true
      → is_cached source ≡ false
      → Confined target documents (map (at_row i (assigned source moment a c)) documents)
  Confined-at_row next documents copy t m same there uncached = record {
    elsewhere = elsewhere-at_row documents (
        All-of_In (λ (d : Document). ((d.id == i) && outside target d) ≡ false) documents
          λ d k. elim (Bool-cases (d.id == i)) [
            | inl b ↦
                let equal =
                  IsTable-unique next documents copy d t m k (same ∙ sym ((==_iff d.id i).0 b)) in
                let out = subst (λ (x : Document). text_eq x.scopes target ≡ true) equal there in
                rw (b, out) refl
            | inr b ↦ rw b refl
          ]);
    pages = pages-at_row documents uncached;
  }
