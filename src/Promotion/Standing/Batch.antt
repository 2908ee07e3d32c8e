-- ===== src/Promotion/Standing/Batch.antt =====
-- src/aizk/graph/promote.py: what the rounds of a batch leave together.
use aizk.Base.{
  ℕ, ◌≡◌, refl, sym, ◌∙◌, subst, ap, inl, inr, true, false, some, List, [], ◌∷◌, map, ◌==◌, In,
  Subseq-refl, Subseq-trans, filter_by, All, All-In, All-of_In, elem, arith,
}
use aizk.Promotion.{Document, Store}
use aizk.Promotion.Share.{gave, Promoter}
use aizk.Promotion.Carry.{
  Promotion, row_of, standing_copy, Work, settle_work, carry_from, is_cached,
}
use aizk.Promotion.Standing.Finding.{IsTable}
use aizk.Promotion.Standing.Effects.{sequel, settle_work-Effect}
use aizk.Promotion.Standing.Confined.{Confined}
use aizk.Promotion.Standing.Rounds.{Apart, Known, Delivered}
use aizk.Promotion.Standing.Leaves.{Effect-Leaves}

-- Each source with its promotion, in order.
abbrev pub DeliveredAll : List ℕ → ℕ → List Document → List Document → List Promotion → Type 0
DeliveredAll target now documents [] [] = Unit
DeliveredAll target now documents [] (q ∷ qs) = ⊥
DeliveredAll target now documents (d ∷ ds) [] = ⊥
DeliveredAll target now documents (d ∷ ds) (q ∷ qs) =
    Delivered target now documents d q × DeliveredAll target now documents ds qs

abbrev pub sources_of : List Work → List Document
sources_of ws = map (λ (w : Work). w.source) ws

abbrev pub source_ids : List Work → List ℕ
source_ids ws = map (λ (w : Work). w.source.id) ws

-- Each once.
abbrev pub Once : List ℕ → Type 0
Once [] = Unit
Once (i ∷ is) = (elem i is ≡ false) × Once is

-- The work was read from these documents.
abbrev pub IsRead : List ℕ → List ℕ → List Document → Work → Type 0
IsRead target ids documents w =
    (w.copy ≡ standing_copy target w.source.id documents)
    × (elem w.source.id ids ≡ true)
    × (is_cached w.source ≡ false)

pub record Carried (p : Promoter) (now : ℕ) (ids : List ℕ) (ws : List Work) (before : List Document)
    (qs : List Promotion) (next : ℕ) (after : List Document) : Type 0 where
  pub table : IsTable next after
  pub apart : Apart p.target ids after
  pub rows : (j : ℕ) → elem j ids ≡ true → row_of j after ≡ row_of j before
  pub copies :
      (j : ℕ)
      → elem j (source_ids ws) ≡ false
      → standing_copy p.target j after ≡ standing_copy p.target j before
  pub delivered : DeliveredAll p.target now after (sources_of ws) qs
  pub confined : Confined p.target before after

Confined-trans :
    (target : List ℕ) (before middle after : List Document)
    → Confined target before middle
    → Confined target middle after
    → Confined target before after
Confined-trans target before middle after f g = record {
  elsewhere = g.elsewhere ∙ f.elsewhere;
  pages = Subseq-trans f.pages g.pages;
}

redelivered :
    (target : List ℕ) (now : ℕ) (before after : List Document) (d : Document) (q : Promotion)
    → standing_copy target d.id after ≡ standing_copy target d.id before
    → Delivered target now before d q
    → Delivered target now after d q
redelivered target now before after d q e h = record {
  copy = h.copy;
  of_source = h.of_source;
  stands = e ∙ h.stands;
  destined = h.destined;
  same_content = h.same_content;
  holds = h.holds;
}

elem-head :
    (a i : ℕ) (is : List ℕ) → elem i (a ∷ is) ≡ false → ((a == i) ≡ false) × (elem i is ≡ false)
elem-head a i is e = ground arith

-- Every other identifier of a list that holds `a` not.
other_ids : (a j : ℕ) (is : List ℕ) → elem a is ≡ false → In j is → (a == j) ≡ false
other_ids a j [] e m = elim m [ ]
other_ids a j (i ∷ is) e (inl same) = ground (arith, e, same)
other_ids a j (i ∷ is) e (inr m) = other_ids a j is (elem-head i a is e).1 m

In-source_ids : (w : Work) (ws : List Work) → In w ws → In w.source.id (source_ids ws)
In-source_ids w [] m = elim m [ ]
In-source_ids w (v ∷ ws) (inl e) = inl (ap (λ (x : Work). x.source.id) e)
In-source_ids w (v ∷ ws) (inr m) = inr (In-source_ids w ws m)

Known-after :
    (ids : List ℕ) (before after : List Document)
    → ((j : ℕ) → elem j ids ≡ true → row_of j after ≡ row_of j before)
    → ((j : ℕ) → In j ids → elem j ids ≡ true)
    → Known ids before
    → Known ids after
Known-after ids before after same holds known =
    All-of_In (λ (j : ℕ). (d : Document) × (row_of j after ≡ some d)) ids
      λ j m.
        let (d, e) =
          All-In (λ (i : ℕ). (x : Document) × (row_of i before ≡ some x)) j ids known m in
        (d, same j (holds j m) ∙ e)

pub In-elem : (n : ℕ) (xs : List ℕ) → In n xs → elem n xs ≡ true
In-elem n [] m = elim m [ ]
In-elem n (x ∷ xs) (inl e) = ground (arith, e)
In-elem n (x ∷ xs) (inr m) = ground (arith, In-elem n xs m)

pub carry_from-Carried :
    (p : Promoter) (now : ℕ) (ids : List ℕ) (ws : List Work) (s : Store) (qs : List Promotion)
    (t : Store)
    → IsTable s.next_id s.documents
    → Apart p.target ids s.documents
    → Known ids s.documents
    → Once (source_ids ws)
    → All (IsRead p.target ids s.documents) ws
    → carry_from p now ws s ≡ gave (qs, t)
    → Carried p now ids ws s.documents qs t.next_id t.documents
carry_from-Carried p now ids [] s qs t table apart known once reads e =
    let none_left : [] ≡ qs = cc in
    let same : s ≡ t = cc in
    subst (λ (r : List Promotion). Carried p now ids [] s.documents r t.next_id t.documents)
      none_left
      (subst (λ (x : Store). Carried p now ids [] s.documents [] x.next_id x.documents) same
        (record {
          table = table;
          apart = apart;
          rows = λ j m. refl;
          copies = λ j m. refl;
          delivered = tt;
          confined = record {
            elsewhere = refl;
            pages = Subseq-refl (filter_by is_cached s.documents);
          };
        }))
carry_from-Carried p now ids (w ∷ ws) s qs t table apart known once reads e =
    let ((q, s1), h1, e1) = sequel (settle_work p now w s) _ e in
    let ((rest, s2), h2, e2) = sequel (carry_from p now ws s1) _ e1 in
    let first =
      Effect-Leaves p now ids w s q s1 table apart known reads.0.0 reads.0.2
        (settle_work-Effect p now w s q s1 h1) in
    let reads' = All-of_In (IsRead p.target ids s1.documents) ws (λ v m.
      let (sync, named, uncached) = All-In (IsRead p.target ids s.documents) v ws reads.1 m in
      (
        sync
            ∙ sym (
                first.copies v.source.id (
                  other_ids w.source.id v.source.id (source_ids ws) once.0 (In-source_ids v ws m))),
        named,
        uncached,
      )) in
    let others =
      carry_from-Carried p now ids ws s1 rest s2 first.table first.apart
        (Known-after ids s.documents s1.documents first.rows (λ j. In-elem j ids) known) once.1
        reads' h2 in
    let ends : q ∷ rest ≡ qs = cc in
    let same : s2 ≡ t = cc in
    subst (λ (r : List Promotion). Carried p now ids (w ∷ ws) s.documents r t.next_id t.documents)
      ends
      (subst
        (λ (x : Store). Carried p now ids (w ∷ ws) s.documents (q ∷ rest) x.next_id x.documents)
        same
        (record {
          table = others.table;
          apart = others.apart;
          rows = λ j m. others.rows j m ∙ first.rows j m;
          copies = λ j m.
              let (ne, out) = elem-head w.source.id j (source_ids ws) m in
              others.copies j out ∙ first.copies j ne;
          delivered = (
            redelivered p.target now s1.documents s2.documents w.source q
                (others.copies w.source.id once.0) first.delivered,
            others.delivered,
          );
          confined =
              Confined-trans p.target s.documents s1.documents s2.documents first.confined
                others.confined;
        }))
