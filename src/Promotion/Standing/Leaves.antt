-- ===== src/Promotion/Standing/Leaves.antt =====
-- src/aizk/graph/promote.py: what one round leaves of the documents, in each of its three outcomes.
use aizk.Base.{
  ℕ, suc, ◌≡◌, refl, sym, ◌∙◌, subst, ap, inl, inr, ◌≤◌, true, false, ◌&&◌, Bool-cases,
  Option-cases, Option, none, some, List, [], ◌∷◌, map, ◌==◌, ==_iff, ==_refl, In, filter_by,
  Subseq-refl, All-In, All-of_In, All-map, elem, text_eq, text_eq_refl, arith,
}
use aizk.Promotion.{Document, Store, active_at}
use aizk.Promotion.Share.{Promoter}
use aizk.Promotion.Carry.{
  Promotion, stands_for, row_of, is_copy, standing_copy, Work, fresh_copy, assigned, at_row,
  is_cached,
}
use aizk.Promotion.Standing.Confined.{Confined, Confined-at_row}
use aizk.Promotion.Standing.Finding.{
  find_by-In, find_by-map, find_by-map-none, IsTable, IsTable-later, IsTable-In, elem-next,
  IsTable-unique, IsTable-at_row, row_of-at_row,
}
use aizk.Promotion.Standing.Effects.{Effect, made, renewed, kept}
use aizk.Promotion.Standing.Rounds.{
  Apart, Known, Delivered, and_left, copy_scopes, copy_source, row_of-id, ne-false, at_row-is_copy,
  not_or_self, inherited-active, stands_for-active,
}

-- What a round leaves: the table, and the rows by which the other rounds find theirs.
pub record Leaves (p : Promoter) (now : ℕ) (ids : List ℕ) (w : Work) (before : List Document)
    (q : Promotion) (next : ℕ) (after : List Document) : Type 0 where
  pub table : IsTable next after
  pub apart : Apart p.target ids after
  pub rows : (j : ℕ) → elem j ids ≡ true → row_of j after ≡ row_of j before
  pub copies :
      (j : ℕ)
      → (w.source.id == j) ≡ false
      → standing_copy p.target j after ≡ standing_copy p.target j before
  pub delivered : Delivered p.target now after w.source q
  pub confined : Confined p.target before after

elem-In : (n : ℕ) (xs : List ℕ) → elem n xs ≡ true → In n xs
elem-In n [] h = cc
elem-In n (x ∷ xs) h = ground (arith, elem-In n xs)

-- An identifier that was not handed out yet is not a named one.
next-false :
    (next : ℕ) (ids : List ℕ) (documents : List Document)
    → IsTable next documents
    → Known ids documents
    → elem next ids ≡ false
next-false next ids documents t k = elim (Bool-cases (elem next ids)) [
  | inl e ↦
      let (d, found) =
        All-In (λ (j : ℕ). (d : Document) × (row_of j documents ≡ some d)) next ids k
          (elem-In next ids e) in
      let (m, h) = find_by-In (λ (x : Document). x.id == next) d documents found in
      absurd (omega (arith, IsTable-In next documents d t m, row_of-id next documents d found))
  | inr e ↦ e
]

module _ (p : Promoter) (now : ℕ) (ids : List ℕ) (w : Work) (next : ℕ) (before : List Document)
    (t : IsTable next before) (apart : Apart p.target ids before) (known : Known ids before)
    (sync : w.copy ≡ standing_copy p.target w.source.id before)
    (uncached : is_cached w.source ≡ false) where
  made-Leaves :
      (a c : Option ℕ) (q : Promotion) (later : ℕ)
      → w.copy ≡ none
      → q.source ≡ w.source.id
      → q.destination ≡ next
      → suc next ≤ later
      → Leaves p now ids w before q later (fresh_copy p w.source next a c ∷ before)
  made-Leaves a c q later absent source destination le = record {
    table = (omega arith, elem-next next before t, IsTable-later next later before (omega arith) t);
    apart = (rw (text_eq_refl p.target) (next-false next ids before t known), apart);
    rows = λ j m.
        let (d, found) =
          All-In (λ (i : ℕ). (d : Document) × (row_of i before ≡ some d)) j ids known
            (elem-In j ids m) in
        let below =
          IsTable-In next before d t (find_by-In (λ (x : Document). x.id == j) d before found).0 in
        rw (ne-false next j (λ e. omega (arith, below, row_of-id j before d found))) refl;
    copies = λ j other. rw other refl;
    delivered = record {
      copy = fresh_copy p w.source next a c;
      of_source = source;
      stands = rw (==_refl w.source.id, text_eq_refl p.target) refl;
      destined = sym destination;
      same_content = refl;
      holds = not_or_self (active_at w.source now);
    };
    confined = record {
      elsewhere = rw (text_eq_refl p.target) refl;
      pages = rw uncached (Subseq-refl (filter_by is_cached before));
    };
  }

  -- The copy that the round found.
  module _ (copy : Document) (there : w.copy ≡ some copy) where
    standing : standing_copy p.target w.source.id before ≡ some copy
    standing = sym sync ∙ there

    found_copy : In copy before × (is_copy p.target w.source.id copy ≡ true)
    found_copy = find_by-In (is_copy p.target w.source.id) copy before standing

    copy-unnamed : elem copy.id ids ≡ false
    copy-unnamed =
        let here =
          All-In (λ (d : Document). (text_eq d.scopes p.target && elem d.id ids) ≡ false) copy
            before apart found_copy.0 in
        ground (arith, copy_scopes p.target w.source.id copy found_copy.1)

    copy-other :
        (j : ℕ) (d : Document)
        → (w.source.id == j) ≡ false
        → standing_copy p.target j before ≡ some d
        → (d.id == copy.id) ≡ false
    copy-other j d other e =
        let (m, h) = find_by-In (is_copy p.target j) d before e in
        ne-false d.id copy.id λ same.
          let equal = IsTable-unique next before d copy t m found_copy.0 same in
          let from_j = copy_source p.target j d h in
          let from_source = copy_source p.target w.source.id copy found_copy.1 in
          cc (equal, from_j, from_source, other, ==_refl j)

    module _ (a c : Option ℕ) where
      after_with : List Document
      after_with = map (at_row copy.id (assigned w.source now a c)) before

      renewed-copies :
          (j : ℕ)
          → (w.source.id == j) ≡ false
          → standing_copy p.target j after_with ≡ standing_copy p.target j before
      unfolding after_with
      renewed-copies j other =
          let g = at_row copy.id (assigned w.source now a c) in
          let same = at_row-is_copy p.target copy.id j now w.source a c in
          elim (Option-cases (standing_copy p.target j before)) [
            | inl e ↦ find_by-map-none (is_copy p.target j) g before same e ∙ sym e
            | inr (d, e) ↦
                let out : (d.id == copy.id) ≡ false = copy-other j d other e in
                let still : g d ≡ d = rw out refl in
                find_by-map (is_copy p.target j) g before d same e ∙ ap some still ∙ sym e
          ]

      renewed-Apart : Apart p.target ids after_with
      unfolding after_with
      renewed-Apart =
          let P = λ (d : Document). (text_eq d.scopes p.target && elem d.id ids) ≡ false in
          let g = at_row copy.id (assigned w.source now a c) in
          All-map P g before (
            All-of_In (λ (d : Document). P (g d)) before
              λ d m. elim (Bool-cases (d.id == copy.id)) [
                | inl b ↦ rw b (All-In P d before apart m)
                | inr b ↦ rw b (All-In P d before apart m)
              ])

      renewed-Leaves :
          (q : Promotion) (later : ℕ)
          → q.source ≡ w.source.id
          → q.destination ≡ copy.id
          → next ≤ later
          → Leaves p now ids w before q later after_with
      unfolding after_with
      renewed-Leaves q later source destination le =
          let g = assigned w.source now a c in
          let here : at_row copy.id g copy ≡ g copy = rw (==_refl copy.id) refl in
          record {
            table =
                IsTable-later next later after_with le
                  (IsTable-at_row copy.id g (λ d. refl) next before t);
            apart = renewed-Apart;
            rows = λ j m.
                row_of-at_row copy.id g (λ d. refl) j before
                  (ne-false copy.id j λ e. cc (ap (λ (n : ℕ). elem n ids) e, copy-unnamed, m));
            copies = renewed-copies;
            delivered = record {
              copy = g copy;
              of_source = source;
              stands =
                  find_by-map (is_copy p.target w.source.id) (at_row copy.id g) before copy
                    (at_row-is_copy p.target copy.id w.source.id now w.source a c) standing
                  ∙ ap some here;
              destined = sym destination;
              same_content = refl;
              holds = inherited-active copy w.source now;
            };
            confined =
                Confined-at_row p.target copy.id w.source now a c next before copy t found_copy.0
                  refl (copy_scopes p.target w.source.id copy found_copy.1) uncached;
          }

    kept-Leaves :
        (q : Promotion)
        → stands_for copy w.source now ≡ true
        → q.source ≡ w.source.id
        → q.destination ≡ copy.id
        → Leaves p now ids w before q next before
    kept-Leaves q e source destination = record {
      table = t;
      apart = apart;
      rows = λ j m. refl;
      copies = λ j other. refl;
      delivered = record {
        copy = copy;
        of_source = source;
        stands = standing;
        destined = sym destination;
        same_content =
            (==_iff copy.content_hash w.source.content_hash).0
              (and_left (copy.content_hash == w.source.content_hash) _ e);
        holds = stands_for-active copy w.source now e;
      };
      confined = record { elsewhere = refl; pages = Subseq-refl (filter_by is_cached before) };
    }

module _ (p : Promoter) (now : ℕ) (ids : List ℕ) (w : Work) (s : Store) (q : Promotion) (u : Store)
    (t : IsTable s.next_id s.documents) (apart : Apart p.target ids s.documents)
    (known : Known ids s.documents) (sync : w.copy ≡ standing_copy p.target w.source.id s.documents)
    (uncached : is_cached w.source ≡ false) where
  pub Effect-Leaves : Effect p now w s q u → Leaves p now ids w s.documents q u.next_id u.documents
  unfolding after_with
  Effect-Leaves (made a c absent answer documents le) =
      subst (Leaves p now ids w s.documents q u.next_id) (sym documents) (
        made-Leaves p now ids w s.next_id s.documents t apart known sync uncached a c q u.next_id
          absent (ap (λ (x : Promotion). x.source) answer)
          (ap (λ (x : Promotion). x.destination) answer) le)
  Effect-Leaves (renewed a c copy there stale answer documents le) =
      subst (Leaves p now ids w s.documents q u.next_id) (sym documents) (
        renewed-Leaves p now ids w s.next_id s.documents t apart known sync uncached copy there a c
          q u.next_id (ap (λ (x : Promotion). x.source) answer)
          (ap (λ (x : Promotion). x.destination) answer) le)
  Effect-Leaves (kept copy there fresh answer same) =
      subst (λ (x : Store). Leaves p now ids w s.documents q x.next_id x.documents) (sym same)
        (kept-Leaves p now ids w s.next_id s.documents t apart known sync uncached copy there q
          fresh (ap (λ (x : Promotion). x.source) answer)
          (ap (λ (x : Promotion). x.destination) answer))
