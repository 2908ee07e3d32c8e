-- ===== src/Queue/Invariant/Rows.antt =====
-- Updates in place of the queue's rows, and what they must do to keep the tables well-formed.
use aizk.Base.{
  ℕ, ◌≡◌, refl, sym, ap, subst, ◌∙◌, inl, inr, Bool, true, false, ◌&&◌, List, [], ◌∷◌, map, elem,
  ◌==◌, ==_iff, All, In, All-In, Bool-cases, arith,
}
use aizk.Queue.Table.{QueueTask, is_active, same_key, ids_of}
use aizk.Queue.Invariant.{UniqueIds, UniqueKeys, conflict, IsSpent, IsSound}

-- `u` may replace the row `t`.
pub record Replaces (t u : QueueTask) : Type 0 where
  pub same_id : u.id ≡ t.id
  pub same_dedupe : u.dedupe_key ≡ t.dedupe_key
  pub was_active : is_active u.status ≡ true → is_active t.status ≡ true
  pub is_spent : IsSpent t → IsSpent u

pub Replaces-self : (t : QueueTask) → Replaces t t
Replaces-self t = record {
  same_id = refl;
  same_dedupe = refl;
  was_active = λ h. h;
  is_spent = λ h. h;
}

fewer :
    (a a' b b' k : Bool)
    → (a' ≡ true → a ≡ true)
    → (b' ≡ true → b ≡ true)
    → (a && (b && k)) ≡ false
    → (a' && (b' && k)) ≡ false
fewer a a' b b' k h q e = ground arith

conflict_of_replaced :
    (t u t' u' : QueueTask)
    → Replaces t t'
    → Replaces u u'
    → conflict t u ≡ false
    → conflict t' u' ≡ false
conflict_of_replaced t u t' u' r q h =
    rw (r.same_dedupe, q.same_dedupe)
      (fewer (is_active t.status) (is_active t'.status) (is_active u.status) (is_active u'.status)
        (same_key t.dedupe_key u.dedupe_key) r.was_active q.was_active h)

module _ (g : QueueTask → QueueTask) where
  UniqueIds-map :
      (ts : List QueueTask) → All (λ t. Replaces t (g t)) ts → UniqueIds ts → UniqueIds (map g ts)
  UniqueIds-map [] r h = tt
  UniqueIds-map (t ∷ ts) r h = (go ts r.1 h.0, UniqueIds-map ts r.1 h.1)
    where
      go :
          (us : List QueueTask)
          → All (λ u. Replaces u (g u)) us
          → All (λ u. (u.id == t.id) ≡ false) us
          → All (λ u. (u.id == (g t).id) ≡ false) (map g us)
      go [] q k = tt
      go (u ∷ us) q k = (rw (r.0.same_id, q.0.same_id) k.0, go us q.1 k.1)

  UniqueKeys-map :
      (ts : List QueueTask) → All (λ t. Replaces t (g t)) ts → UniqueKeys ts → UniqueKeys (map g ts)
  UniqueKeys-map [] r h = tt
  UniqueKeys-map (t ∷ ts) r h = (go ts r.1 h.0, UniqueKeys-map ts r.1 h.1)
    where
      go :
          (us : List QueueTask)
          → All (λ u. Replaces u (g u)) us
          → All (λ u. conflict t u ≡ false) us
          → All (λ u. conflict (g t) u ≡ false) (map g us)
      go [] q k = tt
      go (u ∷ us) q k = (conflict_of_replaced t u (g t) (g u) r.0 q.0 k.0, go us q.1 k.1)

  IsSpent-map :
      (ts : List QueueTask)
      → All (λ t. Replaces t (g t)) ts
      → All IsSpent ts
      → All IsSpent (map g ts)
  IsSpent-map [] r h = tt
  IsSpent-map (t ∷ ts) r h = (r.0.is_spent h.0, IsSpent-map ts r.1 h.1)

  pub IsSound-map :
      (ts : List QueueTask) → All (λ t. Replaces t (g t)) ts → IsSound ts → IsSound (map g ts)
  IsSound-map ts r h = record {
    ids = UniqueIds-map ts r h.ids;
    keys = UniqueKeys-map ts r h.keys;
    spent = IsSpent-map ts r h.spent;
  }

-- An identifier names one row.
pub unique_row :
    (t u : QueueTask) (ts : List QueueTask) → UniqueIds ts → In t ts → In u ts → u.id ≡ t.id → u ≡ t
unique_row t u [] h m k e = elim m [ ]
unique_row t u (x ∷ ts) h (inl a) (inl b) e = sym b ∙ a
unique_row t u (x ∷ ts) h (inl a) (inr k) e = absurd (
    clash u (All-In (λ y. (y.id == x.id) ≡ false) u ts h.0 k)
      (e ∙ ap (λ (y : QueueTask). y.id) (sym a)))
  where
    clash : (y : QueueTask) → (y.id == x.id) ≡ false → y.id ≡ x.id → ⊥
    clash y f p = ground arith
unique_row t u (x ∷ ts) h (inr m) (inl b) e = absurd (
    clash t (All-In (λ y. (y.id == x.id) ≡ false) t ts h.0 m)
      (sym e ∙ ap (λ (y : QueueTask). y.id) (sym b)))
  where
    clash : (y : QueueTask) → (y.id == x.id) ≡ false → y.id ≡ x.id → ⊥
    clash y f p = ground arith
unique_row t u (x ∷ ts) h (inr m) (inr k) e = unique_row t u ts h.1 m k e

pub named_row :
    (n : ℕ) (rows : List QueueTask)
    → elem n (ids_of rows) ≡ true
    → (c : QueueTask) × In c rows × (c.id ≡ n)
named_row n [] h = cc
named_row n (c ∷ rows) h = elim (Bool-cases (c.id == n)) [
  | inl here ↦ (c, inl refl, (==_iff _ _).0 here)
  | inr not_here ↦ let (d, m, e) = named_row n rows (rw not_here at h) in (d, inr m, e)
]

-- A row of the table whose identifier is among those of some rows of it is one of them.
pub In-of_named :
    (t : QueueTask) (ts rows : List QueueTask)
    → UniqueIds ts
    → ((c : QueueTask) → In c rows → In c ts)
    → In t ts
    → elem t.id (ids_of rows) ≡ true
    → In t rows
In-of_named t ts rows h sub m named =
    let (c, k, e) = named_row t.id rows named in
    subst (λ x. In x rows) (unique_row t c ts h m (sub c k) e) k
