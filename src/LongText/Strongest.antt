-- ===== src/LongText/Strongest.antt =====
-- src/aizk/serving/extract/long_text.py: which of the copies that several windows found is kept.
use aizk.Base.{
  append_assoc, append_nil, ℕ, ◌≤◌, ◌≡◌, inl, inr, ◌⊎◌, refl, ap, sym, ◌∙◌, subst, Bool, true,
  false, Bool-cases, Option, none, some, List, [], ◌∷◌, ◌++◌, find_by, All, All-append, In,
  In-append_left, In-append_right, ltb, ltb→lt, if◌then◌else◌, arith,
}
use aizk.LongText.{strengthen, strengthen_all}

-- What is kept for a key, by a description `Same` of the keys and by their weights: one of the values
-- that were found for it, which none of them outweighs, or nothing, when nothing was found for it.
abbrev pub IsKept : {V : Type 0} → (V → ℕ) → (V → V → Type 0) → V → List V → List V → Type 0
IsKept {V} weight Same key found kept =
    (u : V) × In u kept
    × Same u key
    × In u found
    × All (λ v. Same v key → weight v ≤ weight u) found

abbrev pub IsAbsent : {V : Type 0} → (V → V → Type 0) → V → List V → List V → Type 0
IsAbsent Same key found kept = All (λ v. ¬ Same v key) kept × All (λ v. ¬ Same v key) found

-- The first of the heaviest values that are the same as a given one.
module _ {V : Type 0} (same : V → V → Bool) (weight : V → ℕ) where
  abbrev pub heavier : Option V → V → Option V
  heavier none v = some v
  heavier (some u) v = if ltb (weight u) (weight v) then some v else some u

  abbrev pub strongest : V → List V → Option V → Option V
  strongest key [] best = best
  strongest key (v ∷ vs) best = strongest key vs (if same v key then heavier best v else best)

  abbrev pub held : V → List V → Option V
  held key kept = find_by (λ u. same u key) kept

  module _ (sym_same : (u v : V) → same u v ≡ true → same v u ≡ true)
      (trans_same : (u v x : V) → same u v ≡ true → same v x ≡ true → same u x ≡ true) where
    same_as : (u v key : V) → same u v ≡ true → (b : Bool) → same v key ≡ b → same u key ≡ b
    same_as u v key e true h = trans_same u v key e h
    same_as u v key e false h = elim (Bool-cases (same u key)) [
      | inl c ↦ let back = trans_same v u key (sym_same u v e) c in cc
      | inr c ↦ c
    ]

    held-strengthen :
        (key v : V) (kept : List V)
        → held key (strengthen same weight v kept)
          ≡ (if same v key then heavier (held key kept) v else held key kept)
    held-strengthen key v [] = refl
    held-strengthen key v (u ∷ us) = elim (Bool-cases (same u v)) [
      | inl e ↦ elim (Bool-cases (same v key)) [
        | inl b ↦ elim (Bool-cases (ltb (weight u) (weight v))) [
          | inl c ↦ rw (e, c, b, same_as u v key e true b, c) refl
          | inr c ↦ rw (e, c, b, same_as u v key e true b, c) refl
        ]
        | inr b ↦ elim (Bool-cases (ltb (weight u) (weight v))) [
          | inl c ↦ rw (e, c, b, same_as u v key e false b) refl
          | inr c ↦ rw (e, c, b, same_as u v key e false b) refl
        ]
      ]
      | inr e ↦ elim (Bool-cases (same u key)) [
        | inl b ↦ elim (Bool-cases (same v key)) [
          | inl c ↦ elim (clash (trans_same u key v b (sym_same v key c)) e) [ ]
          | inr c ↦ rw (e, b, c) refl
        ]
        | inr b ↦ rw (e, b) (held-strengthen key v us)
      ]
    ]
      where
        clash : {b : Bool} → b ≡ true → b ≡ false → ⊥
        clash h k = cc

    pub held-strengthen_all :
        (key : V) (vs kept : List V)
        → held key (strengthen_all same weight vs kept) ≡ strongest key vs (held key kept)
    held-strengthen_all key [] kept = refl
    held-strengthen_all key (v ∷ vs) kept =
        held-strengthen_all key vs (strengthen same weight v kept)
        ∙ ap (strongest key vs) (held-strengthen key v kept)

  -- What a list of candidates gives for a key.
  abbrev pub IsBest : V → List V → Option V → Type 0
  IsBest key vs none = All (λ v. same v key ≡ false) vs
  IsBest key vs (some u) =
      In u vs × (same u key ≡ true) × All (λ v. same v key ≡ true → weight v ≤ weight u) vs

  others :
      (key u : V) (vs : List V)
      → All (λ v. same v key ≡ false) vs
      → All (λ v. same v key ≡ true → weight v ≤ weight u) vs
  others key u [] h = tt
  others key u (v ∷ vs) h = (λ e. elim (clash_here (same v key) h.0 e) [ ], others key u vs h.1)
    where
      clash_here : (b : Bool) → b ≡ false → b ≡ true → ⊥
      clash_here b e f = cc

  raised_bar :
      (key u v : V) (vs : List V)
      → weight u ≤ weight v
      → All (λ x. same x key ≡ true → weight x ≤ weight u) vs
      → All (λ x. same x key ≡ true → weight x ≤ weight v) vs
  raised_bar key u v [] l h = tt
  raised_bar key u v (x ∷ xs) l h = (λ e. omega (arith, l, h.0 e), raised_bar key u v xs l h.1)

  heavier-IsBest :
      (key v : V) (seen : List V) (best : Option V)
      → same v key ≡ true
      → IsBest key seen best
      → IsBest key (seen ++ v ∷ []) (heavier best v)
  heavier-IsBest key v seen none e h = (
    In-append_right v seen (v ∷ []) (inl refl),
    e,
    All-append (λ x. same x key ≡ true → weight x ≤ weight v) seen (v ∷ []) (others key v seen h)
        ((λ k. omega arith), tt),
  )
  heavier-IsBest key v seen (some u) e h = elim (Bool-cases (ltb (weight u) (weight v))) [
    | inl b ↦ rw b (
      In-append_right v seen (v ∷ []) (inl refl),
      e,
      All-append (λ x. same x key ≡ true → weight x ≤ weight v) seen (v ∷ [])
          (raised_bar key u v seen (omega (arith, ltb→lt (weight u) (weight v) b)) h.2)
          ((λ k. omega arith), tt),
    )
    | inr b ↦ rw b (
      In-append_left u seen (v ∷ []) h.0,
      h.1,
      All-append (λ x. same x key ≡ true → weight x ≤ weight u) seen (v ∷ []) h.2
          ((λ k. not_ltb (weight u) (weight v) b), tt),
    )
  ]
    where
      not_ltb : (m n : ℕ) → ltb m n ≡ false → n ≤ m
      not_ltb m n h = ground arith

  missed-IsBest :
      (key v : V) (seen : List V) (best : Option V)
      → same v key ≡ false
      → IsBest key seen best
      → IsBest key (seen ++ v ∷ []) best
  missed-IsBest key v seen none e h = All-append (λ x. same x key ≡ false) seen (v ∷ []) h (e, tt)
  missed-IsBest key v seen (some u) e h = (
    In-append_left u seen (v ∷ []) h.0,
    h.1,
    All-append (λ x. same x key ≡ true → weight x ≤ weight u) seen (v ∷ []) h.2
        ((λ k. elim (clash_here (same v key) e k) [ ]), tt),
  )
    where
      clash_here : (b : Bool) → b ≡ false → b ≡ true → ⊥
      clash_here b e f = cc

  strongest-IsBest :
      (key : V) (vs seen : List V) (best : Option V)
      → IsBest key seen best
      → IsBest key (seen ++ vs) (strongest key vs best)
  strongest-IsBest key [] seen best h =
      subst (λ (x : List V). IsBest key x best) (sym (append_nil seen)) h
  strongest-IsBest key (v ∷ vs) seen best h =
      subst (λ (x : List V). IsBest key x (strongest key (v ∷ vs) best))
        (append_assoc seen (v ∷ []) vs)
        (elim (Bool-cases (same v key)) [
          | inl b ↦ rw b (
              strongest-IsBest key vs (seen ++ v ∷ []) (heavier best v)
                (heavier-IsBest key v seen best b h))
          | inr b ↦
              rw b
                (strongest-IsBest key vs (seen ++ v ∷ []) best (missed-IsBest key v seen best b h))
        ])

  -- What a dict of the values is left with for a key is the best of them.
  pub held-IsBest :
      (sym_same : (u v : V) → same u v ≡ true → same v u ≡ true)
      (trans_same : (u v x : V) → same u v ≡ true → same v x ≡ true → same u x ≡ true) (key : V)
      (vs : List V)
      → IsBest key vs (held key (strengthen_all same weight vs []))
  held-IsBest sym_same trans_same key vs =
      subst (IsBest key vs) (sym (held-strengthen_all sym_same trans_same key vs []))
        (strongest-IsBest key vs [] none tt)

  module _ (Same : V → V → Type 0) (says : (u v : V) → same u v ≡ true → Same u v)
      (tests : (u v : V) → Same u v → same u v ≡ true) where
    others_differ :
        (key : V) (vs : List V) → All (λ v. same v key ≡ false) vs → All (λ v. ¬ Same v key) vs
    others_differ key [] h = tt
    others_differ key (v ∷ vs) h = (λ e. clash (tests v key e) h.0, others_differ key vs h.1)
      where
        clash : {b : Bool} → b ≡ true → b ≡ false → ⊥
        clash e k = cc

    lighter_all :
        (key u : V) (vs : List V)
        → All (λ v. same v key ≡ true → weight v ≤ weight u) vs
        → All (λ v. Same v key → weight v ≤ weight u) vs
    lighter_all key u [] h = tt
    lighter_all key u (v ∷ vs) h = (λ e. h.0 (tests v key e), lighter_all key u vs h.1)

    found_none : (key : V) (vs : List V) → held key vs ≡ none → All (λ v. same v key ≡ false) vs
    found_none key [] h = tt
    found_none key (v ∷ vs) h = elim (Bool-cases (same v key)) [
      | inl e ↦ absurd (cc (rw e at h))
      | inr e ↦ (e, found_none key vs (rw e at h))
    ]

    found_some : (key u : V) (vs : List V) → held key vs ≡ some u → In u vs
    found_some key u [] h = cc
    found_some key u (v ∷ vs) h = elim (Bool-cases (same v key)) [
      | inl e ↦ inl (some_inj (rw e at h))
      | inr e ↦ inr (found_some key u vs (rw e at h))
    ]
      where
        some_inj : {a b : V} → some a ≡ some b → a ≡ b
        some_inj e = cc

    pub IsBest-IsKept :
        (key : V) (vs kept : List V)
        → IsBest key vs (held key kept)
        → IsKept weight Same key vs kept ⊎ IsAbsent Same key vs kept
    IsBest-IsKept key vs kept best = go (held key kept) refl best
      where
        go :
            (o : Option V)
            → held key kept ≡ o
            → IsBest key vs o
            → IsKept weight Same key vs kept ⊎ IsAbsent Same key vs kept
        go none e h = inr (others_differ key kept (found_none key kept e), others_differ key vs h)
        go (some u) e h =
            inl (u, found_some key u kept e, says u key h.1, h.0, lighter_all key u vs h.2)
