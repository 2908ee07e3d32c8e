-- ===== src/Promotion/Move/Moved.antt =====
-- src/aizk/graph/promote.py: the end of a move.
use aizk.Base.{
  ℕ, ◌≡◌, refl, sym, ◌∙◌, subst, ap, inl, inr, Bool, true, false, some, List, [], ◌∷◌, map, All,
  All-of_In, In, elem, filter_by, if◌then◌else◌,
}
use aizk.Promotion.{Document, Store, active_at}
use aizk.Promotion.Rows.{expired_now, distinct}
use aizk.Promotion.Share.{gave, Promoter}
use aizk.Promotion.Carry.{Promotion, row_of, is_cached, work_of, sources, carry}
use aizk.Promotion.Standing.Finding.{IsTable, ids_of}
use aizk.Promotion.Standing.Effects.{sequel}
use aizk.Promotion.Standing.Confined.{Confined}
use aizk.Promotion.Standing.Rounds.{Apart, Delivered}
use aizk.Promotion.Standing.Batch.{
  Once, DeliveredAll, sources_of, source_ids, IsRead, In-elem, carry_from-Carried,
}
use aizk.Promotion.Move.Sources.{
  distinct-Once, Apart-distinct, Names, sources-eq-gave, Names-ids_of, Names-Known,
}
use aizk.Promotion.Move.Retired.{copy-kept}

sources_of-works :
    (p : Promoter) (began : ℕ) (s : Store) (found : List Document)
    → sources_of (map (work_of p began s) found) ≡ found
sources_of-works p began s [] = refl
sources_of-works p began s (d ∷ ds) =
    ap (λ (r : List Document). d ∷ r) (sources_of-works p began s ds)

source_ids-works :
    (p : Promoter) (began : ℕ) (s : Store) (found : List Document)
    → source_ids (map (work_of p began s) found) ≡ ids_of found
source_ids-works p began s [] = refl
source_ids-works p began s (d ∷ ds) = ap (λ (r : List ℕ). d.id ∷ r) (source_ids-works p began s ds)

works-IsRead :
    (p : Promoter) (began : ℕ) (s : Store) (ids : List ℕ) (found : List Document)
    → All (λ (d : Document). elem d.id ids ≡ true) found
    → filter_by is_cached found ≡ []
    → All (IsRead p.target ids s.documents) (map (work_of p began s) found)
works-IsRead p began s ids [] h none_cached = tt
works-IsRead p began s ids (d ∷ ds) h none_cached =
    let (head, tail) : (is_cached d ≡ false) × (filter_by is_cached ds ≡ []) =
      first_uncached (is_cached d) d (filter_by is_cached ds) none_cached in
    ((refl, h.0, head), works-IsRead p began s ids ds h.1 tail)
  where
    first_uncached :
        (b : Bool) (x : Document) (xs : List Document)
        → (if b then x ∷ xs else xs) ≡ []
        → (b ≡ false) × (xs ≡ [])
    first_uncached true x xs e = cc
    first_uncached false x xs e = (refl, e)

pub named_rows :
    (found : List Document) → All (λ (d : Document). elem d.id (ids_of found) ≡ true) found
named_rows found =
    All-of_In (λ (d : Document). elem d.id (ids_of found) ≡ true) found
      λ d m. In-elem d.id (ids_of found) (In-ids d found m)
  where
    In-ids : (d : Document) (ds : List Document) → In d ds → In d.id (ids_of ds)
    In-ids d [] m = elim m [ ]
    In-ids d (e ∷ ds) (inl same) = inl (ap (λ (x : Document). x.id) same)
    In-ids d (e ∷ ds) (inr m) = inr (In-ids d ds m)

-- What a batch that succeeded had found, and what it left.
pub record Batch (p : Promoter) (began now : ℕ) (ids : List ℕ) (s : Store) (qs : List Promotion)
    (t : Store) : Type 0 where
  pub found : List Document
  pub names : Names ids s.documents found
  pub uncached : filter_by is_cached found ≡ []
  pub table : IsTable t.next_id t.documents
  pub apart : Apart p.target ids t.documents
  pub rows : (j : ℕ) → elem j ids ≡ true → row_of j t.documents ≡ row_of j s.documents
  pub delivered : DeliveredAll p.target now t.documents found qs
  pub confined : Confined p.target s.documents t.documents

pub carry-Batch :
    (p : Promoter) (began now : ℕ) (ids : List ℕ) (s : Store) (qs : List Promotion) (t : Store)
    → IsTable s.next_id s.documents
    → Apart p.target ids s.documents
    → carry p began now ids s ≡ gave (qs, t)
    → Batch p began now (distinct [] ids) s qs t
unfolding carry
carry-Batch p began now ids s qs t table apart e =
    let named = distinct [] ids in
    let (found, h, e1) = sequel (sources named s.documents) _ e in
    let (names, uncached) = sources-eq-gave named s.documents found h in
    let works = map (work_of p began s) found in
    let same = Names-ids_of named s.documents found names in
    let c =
      carry_from-Carried p now named works s qs t table
        (Apart-distinct p.target ids s.documents apart) (Names-Known named s.documents found names)
        (subst Once (sym same ∙ sym (source_ids-works p began s found)) (distinct-Once [] ids))
        (works-IsRead p began s named found
          (subst (λ (r : List ℕ). All (λ (d : Document). elem d.id r ≡ true) found) same
            (named_rows found))
          uncached)
        e1 in
    record {
      found = found;
      names = names;
      uncached = uncached;
      table = c.table;
      apart = c.apart;
      rows = c.rows;
      delivered =
          subst (λ (r : List Document). DeliveredAll p.target now t.documents r qs)
            (sources_of-works p began s found) c.delivered;
      confined = c.confined;
    }

pub promoted_ids-found :
    (target : List ℕ) (now : ℕ) (documents found : List Document) (qs : List Promotion)
    → DeliveredAll target now documents found qs
    → map (λ (q : Promotion). q.source) qs ≡ ids_of found
promoted_ids-found target now documents [] [] h = refl
promoted_ids-found target now documents [] (q ∷ qs) h = elim h [ ]
promoted_ids-found target now documents (d ∷ ds) [] h = elim h [ ]
promoted_ids-found target now documents (d ∷ ds) (q ∷ qs) h =
    rw (h.0.of_source, promoted_ids-found target now documents ds qs h.1) refl

-- What a move leaves of one document: the original has ended, and the copy of the target that the
-- promotion names holds its content, still valid if the original was.
pub record Moved (target : List ℕ) (began now : ℕ) (before after : List Document) (i : ℕ)
    (q : Promotion) : Type 0 where
  pub source : Document
  pub retired : Document
  pub was : row_of i before ≡ some source
  pub stays : row_of i after ≡ some retired
  pub ended : active_at retired began ≡ false
  pub delivered : Delivered target now after source q

abbrev pub MovedAll :
    List ℕ → ℕ → ℕ → List Document → List Document → List ℕ → List Promotion → Type 0
MovedAll target began now before after [] [] = Unit
MovedAll target began now before after [] (q ∷ qs) = ⊥
MovedAll target began now before after (i ∷ is) [] = ⊥
MovedAll target began now before after (i ∷ is) (q ∷ qs) =
    Moved target began now before after i q × MovedAll target began now before after is qs

Delivered-expired :
    (target ids : List ℕ) (began now : ℕ) (documents : List Document) (d : Document) (q : Promotion)
    → Apart target ids documents
    → Delivered target now documents d q
    → Delivered target now (map (expired_now ids began) documents) d q
Delivered-expired target ids began now documents d q apart h = record {
  copy = h.copy;
  of_source = h.of_source;
  stands = copy-kept target ids began documents d.id h.copy apart h.stands;
  destined = h.destined;
  same_content = h.same_content;
  holds = h.holds;
}

pub DeliveredAll-expired :
    (target ids : List ℕ) (began now : ℕ) (documents found : List Document) (qs : List Promotion)
    → Apart target ids documents
    → DeliveredAll target now documents found qs
    → DeliveredAll target now (map (expired_now ids began) documents) found qs
DeliveredAll-expired target ids began now documents [] [] apart h = tt
DeliveredAll-expired target ids began now documents [] (q ∷ qs) apart h = elim h [ ]
DeliveredAll-expired target ids began now documents (d ∷ ds) [] apart h = elim h [ ]
DeliveredAll-expired target ids began now documents (d ∷ ds) (q ∷ qs) apart h = (
  Delivered-expired target ids began now documents d q apart h.0,
  DeliveredAll-expired target ids began now documents ds qs apart h.1,
)
