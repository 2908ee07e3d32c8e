-- ===== src/LongText/Keys.antt =====
-- src/aizk/serving/extract/long_text.py: by which key `merge` tells its findings apart.
use aizk.Base.{
  ℕ, ◌≡◌, refl, sym, ◌∙◌, min, Bool, true, false, ◌&&◌, Text, text_eq, text_eq_iff, ◌==◌, ==_iff,
}
use aizk.LongText.{Span, Relation, Named, same_entity, same_relation}

and_both : (a b : Bool) → (a && b) ≡ true → (a ≡ true) × (b ≡ true)
and_both true true e = (refl, refl)
and_both true false e = cc
and_both false b e = cc

both_and : (a b : Bool) → a ≡ true → b ≡ true → (a && b) ≡ true
both_and true b e f = f
both_and false b e f = cc

text_sym : (s t : Text) → text_eq s t ≡ true → text_eq t s ≡ true
text_sym s t e = (text_eq_iff t s).1 (sym ((text_eq_iff s t).0 e))

text_trans : (s t u : Text) → text_eq s t ≡ true → text_eq t u ≡ true → text_eq s u ≡ true
text_trans s t u e f = (text_eq_iff s u).1 ((text_eq_iff s t).0 e ∙ (text_eq_iff t u).0 f)

eq_sym : (a b : ℕ) → (a == b) ≡ true → (b == a) ≡ true
eq_sym a b e = (==_iff b a).1 (sym ((==_iff a b).0 e))

eq_trans : (a b c : ℕ) → (a == b) ≡ true → (b == c) ≡ true → (a == c) ≡ true
eq_trans a b c e f = (==_iff a c).1 ((==_iff a b).0 e ∙ (==_iff b c).0 f)

-- A test made of two tests is symmetric and transitive where they are.
pub record IsKey {V : Type 0} (test : V → V → Bool) : Type 0 where
  pub symmetric : (u v : V) → test u v ≡ true → test v u ≡ true
  pub transitive : (u v x : V) → test u v ≡ true → test v x ≡ true → test u x ≡ true

both-IsKey : {V : Type 0} (p q : V → V → Bool) → IsKey p → IsKey q → IsKey (λ u v. p u v && q u v)
both-IsKey p q h k = record {
  symmetric = λ u v e.
      let (a, b) = and_both (p u v) (q u v) e in
      both_and (p v u) (q v u) (h.symmetric u v a) (k.symmetric u v b);
  transitive = λ u v x e f.
      let (a, b) = and_both (p u v) (q u v) e in
      let (c, d) = and_both (p v x) (q v x) f in
      both_and (p u x) (q u x) (h.transitive u v x a c) (k.transitive u v x b d);
}

number-IsKey : {V : Type 0} (g : V → ℕ) → IsKey (λ u v. g u == g v)
number-IsKey g = record {
  symmetric = λ u v e. eq_sym (g u) (g v) e;
  transitive = λ u v x e f. eq_trans (g u) (g v) (g x) e f;
}

text-IsKey : {V : Type 0} (g : V → Text) → IsKey (λ u v. text_eq (g u) (g v))
text-IsKey g = record {
  symmetric = λ u v e. text_sym (g u) (g v) e;
  transitive = λ u v x e f. text_trans (g u) (g v) (g x) e f;
}

pub same_entity-IsKey : IsKey same_entity
same_entity-IsKey =
    both-IsKey (λ a b. text_eq a.kind b.kind)
      (λ a b. (a.value.start == b.value.start) && (a.value.end == b.value.end))
      (text-IsKey (λ (a : Named Span). a.kind))
      (both-IsKey (λ a b. a.value.start == b.value.start) (λ a b. a.value.end == b.value.end)
        (number-IsKey (λ (a : Named Span). a.value.start))
        (number-IsKey (λ (a : Named Span). a.value.end)))

pub same_relation-IsKey : IsKey same_relation
same_relation-IsKey =
    both-IsKey (λ a b. text_eq a.kind b.kind)
      (λ a b.
        (a.value.head.start == b.value.head.start)
        && ((a.value.head.end == b.value.head.end)
            && ((a.value.tail.start == b.value.tail.start)
                && (a.value.tail.end == b.value.tail.end))))
      (text-IsKey (λ (a : Named Relation). a.kind))
      (both-IsKey (λ a b. a.value.head.start == b.value.head.start)
        (λ a b.
          (a.value.head.end == b.value.head.end)
          && ((a.value.tail.start == b.value.tail.start) && (a.value.tail.end == b.value.tail.end)))
        (number-IsKey (λ (a : Named Relation). a.value.head.start))
        (both-IsKey (λ a b. a.value.head.end == b.value.head.end)
          (λ a b.
            (a.value.tail.start == b.value.tail.start) && (a.value.tail.end == b.value.tail.end))
          (number-IsKey (λ (a : Named Relation). a.value.head.end))
          (both-IsKey (λ a b. a.value.tail.start == b.value.tail.start)
            (λ a b. a.value.tail.end == b.value.tail.end)
            (number-IsKey (λ (a : Named Relation). a.value.tail.start))
            (number-IsKey (λ (a : Named Relation). a.value.tail.end)))))

-- Two spans at one place under one kind, and two relations between such places.
abbrev pub SamePlace : Span → Span → Type 0
SamePlace s t = (s.start ≡ t.start) × (s.end ≡ t.end)

abbrev pub SameSpan : Named Span → Named Span → Type 0
SameSpan a b = (a.kind ≡ b.kind) × SamePlace a.value b.value

abbrev pub SameRelation : Named Relation → Named Relation → Type 0
SameRelation a b =
    (a.kind ≡ b.kind) × SamePlace a.value.head b.value.head × SamePlace a.value.tail b.value.tail

abbrev pub confidence : Named Span → ℕ
confidence a = a.value.confidence

-- The confidence of the weaker span.
abbrev pub weaker : Named Relation → ℕ
weaker a = min a.value.head.confidence a.value.tail.confidence

pub says_span : (a b : Named Span) → same_entity a b ≡ true → SameSpan a b
says_span a b h =
    let (k, p) = and_both _ _ h in
    let (s, e) = and_both _ _ p in
    ((text_eq_iff a.kind b.kind).0 k, ((==_iff _ _).0 s, (==_iff _ _).0 e))

pub tests_span : (a b : Named Span) → SameSpan a b → same_entity a b ≡ true
tests_span a b (k, (s, e)) =
    both_and _ _ ((text_eq_iff a.kind b.kind).1 k) (
      both_and _ _ ((==_iff a.value.start b.value.start).1 s)
        ((==_iff a.value.end b.value.end).1 e))

pub says_relation : (a b : Named Relation) → same_relation a b ≡ true → SameRelation a b
says_relation a b h =
    let (k, p) = and_both _ _ h in
    let (hs, q) = and_both _ _ p in
    let (he, r) = and_both _ _ q in
    let (ts, te) = and_both _ _ r in
    (
      (text_eq_iff a.kind b.kind).0 k,
      ((==_iff _ _).0 hs, (==_iff _ _).0 he),
      ((==_iff _ _).0 ts, (==_iff _ _).0 te),
    )

pub tests_relation : (a b : Named Relation) → SameRelation a b → same_relation a b ≡ true
tests_relation a b (k, (hs, he), (ts, te)) = both_and _ _ ((text_eq_iff a.kind b.kind).1 k) (
    both_and _ _ ((==_iff a.value.head.start b.value.head.start).1 hs) (
      both_and _ _ ((==_iff a.value.head.end b.value.head.end).1 he) (
        both_and _ _ ((==_iff a.value.tail.start b.value.tail.start).1 ts)
          ((==_iff a.value.tail.end b.value.tail.end).1 te))))
