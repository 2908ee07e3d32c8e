-- ===== src/Queue/Invariant/Failing.antt =====
-- `PortableWorker.fail` of src/aizk/background/portable.py against the well-formedness of the tables:
-- also a row that was no longer active may be queued again.
use aizk.Base.{
  ℕ, ◌≡◌, ◌≢◌, refl, sym, ap, subst, ◌∙◌, inl, inr, Bool, true, false, not, ◌&&◌, Option, some,
  Option-cases, String, List, [], ◌∷◌, map, elem, ◌==◌, ==_iff, any_by-cases, All, All-of_In,
  All-In, All-map, Bool-cases, arith, if◌then◌else◌,
}
use aizk.Queue.Table.{QueueTask, Store, is_active, holds_key, same_key, update_ids}
use aizk.Queue.Worker.{Settings, Failure, get, fail, retried}
use aizk.Queue.Invariant.{UniqueIds, UniqueKeys, conflict, IsSpent, IsSound}
use aizk.Queue.Invariant.Rows.{unique_row}
use aizk.Queue.Invariant.Steps.{get-In, same_key_sym}

module _ (g : QueueTask → QueueTask) (id : ℕ) (key : Option String)
    (same_id : (t : QueueTask) → (g t).id ≡ t.id)
    (same_key_of : (t : QueueTask) → (g t).dedupe_key ≡ t.dedupe_key) where
  abbrev put_row : QueueTask → QueueTask
  put_row t = if elem t.id (id ∷ []) then g t else t

  -- The row under `id` holds the key, and no active row under another identifier does.
  abbrev Fits : QueueTask → Type 0
  Fits t = (t.id ≡ id → t.dedupe_key ≡ key) × (t.id ≢ id → holds_key key t ≡ false)

  put_row-id : (t : QueueTask) → (put_row t).id ≡ t.id
  put_row-id t = elim (Bool-cases (elem t.id (id ∷ []))) [
    | inl e ↦ rw e (same_id t)
    | inr e ↦ rw e refl
  ]

  own : (t : QueueTask) → elem t.id (id ∷ []) ≡ true → t.id ≡ id
  own t e = ground arith

  other : (t : QueueTask) → elem t.id (id ∷ []) ≡ false → t.id ≢ id
  other t e h = ground arith

  conflict-left :
      (y u : QueueTask) → y.dedupe_key ≡ key → holds_key key u ≡ false → conflict y u ≡ false
  conflict-left y u e h =
      subst (λ k. (is_active y.status && holds_key k u) ≡ false) (sym e)
        (falls (is_active y.status) (holds_key key u) h)
    where
      falls : (p q : Bool) → q ≡ false → (p && q) ≡ false
      falls p q h = ground arith

  conflict-right :
      (x y : QueueTask) → y.dedupe_key ≡ key → holds_key key x ≡ false → conflict x y ≡ false
  conflict-right x y e h =
      subst (λ k. (is_active x.status && (is_active y.status && same_key x.dedupe_key k)) ≡ false)
        (sym e)
        (rw (same_key_sym x.dedupe_key key)
          (drops (is_active x.status) (is_active y.status) (same_key key x.dedupe_key) h))
    where
      drops : (p q k : Bool) → (p && k) ≡ false → (p && (q && k)) ≡ false
      drops p q k h = ground arith

  conflict-put_row :
      (x u : QueueTask)
      → Fits x
      → Fits u
      → (u.id == x.id) ≡ false
      → conflict x u ≡ false
      → conflict (put_row x) (put_row u) ≡ false
  conflict-put_row x u a b apart free = elim (Bool-cases (elem x.id (id ∷ []))) [
    | inl e ↦ elim (Bool-cases (elem u.id (id ∷ []))) [
      | inl f ↦ absurd (ground (arith, own x e, own u f))
      | inr f ↦ rw (e, f) (conflict-left (g x) u (same_key_of x ∙ a.0 (own x e)) (b.1 (other u f)))
    ]
    | inr e ↦ elim (Bool-cases (elem u.id (id ∷ []))) [
      | inl f ↦ rw (e, f) (conflict-right x (g u) (same_key_of u ∙ b.0 (own u f)) (a.1 (other x e)))
      | inr f ↦ rw (e, f) free
    ]
  ]

  UniqueIds-put_row : (ts : List QueueTask) → UniqueIds ts → UniqueIds (map put_row ts)
  UniqueIds-put_row [] h = tt
  UniqueIds-put_row (t ∷ ts) h = (
    All-map (λ u. (u.id == (put_row t).id) ≡ false) put_row ts
        (All-of_In _ ts λ u m.
          rw (put_row-id t, put_row-id u)
            (All-In (λ (v : QueueTask). (v.id == t.id) ≡ false) u ts h.0 m)),
    UniqueIds-put_row ts h.1,
  )

  UniqueKeys-put_row :
      (ts : List QueueTask)
      → All Fits ts
      → UniqueIds ts
      → UniqueKeys ts
      → UniqueKeys (map put_row ts)
  UniqueKeys-put_row [] fits h k = tt
  UniqueKeys-put_row (t ∷ ts) fits h k = (
    All-map (λ u. conflict (put_row t) u ≡ false) put_row ts
        (All-of_In _ ts λ u m.
          conflict-put_row t u fits.0 (All-In Fits u ts fits.1 m)
            (All-In (λ (v : QueueTask). (v.id == t.id) ≡ false) u ts h.0 m)
            (All-In (λ (v : QueueTask). conflict t v ≡ false) u ts k.0 m)),
    UniqueKeys-put_row ts fits.1 h.1 k.1,
  )

retried-IsSpent :
    (cfg : Settings) (error : Failure) (now : ℕ) (t : QueueTask) → IsSpent (retried cfg error now t)
retried-IsSpent cfg error now t = ground arith

fail-committed :
    (cfg : Settings) (id : ℕ) (error : Failure) (now : ℕ) (ts : List QueueTask) (t : QueueTask)
    → get id ts ≡ some t
    → All (λ u. (not (u.id == t.id) && holds_key t.dedupe_key u) ≡ false) ts
    → IsSound ts
    → IsSound (update_ids (id ∷ []) (retried cfg error now) ts)
fail-committed cfg id error now ts t found free sound =
    let (there, named) = get-In id t ts found in
    let g = retried cfg error now in
    record {
      ids = UniqueIds-put_row g id t.dedupe_key (λ u. refl) (λ u. refl) ts sound.ids;
      keys =
          UniqueKeys-put_row g id t.dedupe_key (λ u. refl) (λ u. refl) ts
            (All-of_In _ ts λ u m. (
              (λ e.
                  ap (λ (x : QueueTask). x.dedupe_key)
                    (unique_row t u ts sound.ids there m (e ∙ sym named))),
              λ ne. unheld u t named ne (
                  All-In (λ x. (not (x.id == t.id) && holds_key t.dedupe_key x) ≡ false) u ts free
                    m),
            ))
            sound.ids sound.keys;
      spent =
          All-map IsSpent (put_row g id t.dedupe_key (λ u. refl) (λ u. refl)) ts
            (All-of_In _ ts λ u m. row u (All-In IsSpent u ts sound.spent m));
    }
  where
    unheld :
        (u t : QueueTask)
        → t.id ≡ id
        → u.id ≢ id
        → (not (u.id == t.id) && holds_key t.dedupe_key u) ≡ false
        → holds_key t.dedupe_key u ≡ false
    unheld u t named ne h = elim (Bool-cases (u.id == t.id)) [
      | inl e ↦ elim (ne ((==_iff u.id t.id).0 e ∙ named)) [ ]
      | inr e ↦ rw e at h
    ]

    row :
        (u : QueueTask)
        → IsSpent u
        → IsSpent (if elem u.id (id ∷ []) then retried cfg error now u else u)
    row u h = elim (Bool-cases (elem u.id (id ∷ []))) [
      | inl e ↦ rw e (retried-IsSpent cfg error now u)
      | inr e ↦ rw e h
    ]

pub fail-IsSound :
    (cfg : Settings) (id : ℕ) (error : Failure) (now : ℕ) (s : Store)
    → IsSound s.tasks
    → IsSound (fail cfg id error now s).tasks
unfolding fail
fail-IsSound cfg id error now s sound = elim (Option-cases (get id s.tasks)) [
  | inl absent ↦ rw (absent, fail) sound
  | inr (t, found) ↦
      elim (any_by-cases (λ u. not (u.id == t.id) && holds_key t.dedupe_key u) s.tasks) [
        | inl (u, m, k, taken) ↦ rw (found, taken, fail) sound
        | inr (untaken, free) ↦
            rw (found, untaken, fail) (fail-committed cfg id error now s.tasks t found free sound)
      ]
]
