-- ===== src/Grounding/Ascents.antt =====
-- The offsets that `normalized_map` of src/aizk/graph/grounding.py gives.
use aizk.Base.{
  ℕ, zero, suc, ◌+◌, ◌-◌, ◌≤◌, ◌<◌, ◌≡◌, inl, inr, sym, Bool, true, false, not, ◌||◌, some, List,
  [], ◌∷◌, ◌++◌, Text, length, get_elem?, ◌==◌, arith, Bool-cases,
}
use aizk.Grounding.{Chars, is_empty, pieces, space_due, offsets_of, fold_from}

-- The offsets never fall, and lie between two bounds.
abbrev pub Ascends : ℕ → ℕ → List (ℕ × ℕ) → Type 0
Ascends low high [] = Unit
Ascends low high ((p, o) ∷ rest) = (low ≤ o) × (o < high) × Ascends o high rest

Ascends-lower :
    (low l high : ℕ) (xs : List (ℕ × ℕ)) → low ≤ l → Ascends l high xs → Ascends low high xs
Ascends-lower low l high [] le h = tt
Ascends-lower low l high ((p, o) ∷ rest) le h = (omega (arith, h.0), h.1, h.2)

Ascends-pieces :
    (low high o : ℕ) (ps : Text) (rest : List (ℕ × ℕ))
    → low ≤ o
    → o < high
    → Ascends o high rest
    → Ascends low high (pieces o ps ++ rest)
Ascends-pieces low high o [] rest le lt h = Ascends-lower low o high rest le h
Ascends-pieces low high o (p ∷ ps) rest le lt h =
    (le, lt, Ascends-pieces o high o ps rest (omega arith) lt h)

pub fold_from-Ascends :
    (lib : Chars) (offset : ℕ) (started pending : Bool) (text : Text) (low : ℕ)
    → low ≤ offset - 1
    → Ascends low (offset + length text) (fold_from lib offset started pending text)
unfolding fold_from
fold_from-Ascends lib offset started pending [] low h = tt
fold_from-Ascends lib offset started pending (c ∷ text) low h =
    let sum : offset + 1 + length text ≡ offset + length (c ∷ text) = omega arith in
    elim (Bool-cases (c == 96)) [
      | inl tick ↦
          rw (tick, fold_from)
            (rw sum at (fold_from-Ascends lib (offset + 1) started pending text low (omega arith)))
      | inr other ↦ elim (Bool-cases (lib.is_space c)) [
        | inl space ↦
            rw (other, space, fold_from)
              (rw sum at
                (fold_from-Ascends lib (offset + 1) started started text low (omega arith)))
        | inr seen ↦
            let rest = rw sum at (
              fold_from-Ascends lib (offset + 1)
                (started || (pending || not (is_empty (lib.casefold c)))) false text offset
                (omega arith)) in
            rw (other, seen, fold_from)
              (due pending _ (
                Ascends-pieces (offset - 1) (offset + length (c ∷ text)) offset (lib.casefold c) _
                  (omega arith) (omega arith) rest))
      ]
    ]
  where
    due :
        (b : Bool) (xs : List (ℕ × ℕ))
        → Ascends (offset - 1) (offset + suc (length text)) xs
        → Ascends low (offset + suc (length text)) (space_due b offset ++ xs)
    due true xs a = (h, omega arith, a)
    due false xs a = Ascends-lower low (offset - 1) _ xs h a

pub some-injective : (a b : ℕ) → some a ≡ some b → a ≡ b
some-injective a b e = cc

-- One reading of ascending offsets, and two.
Ascends-get_one :
    (low high : ℕ) (xs : List (ℕ × ℕ)) (i a : ℕ)
    → Ascends low high xs
    → get_elem? (offsets_of xs) i ≡ some a
    → (low ≤ a) × (a < high)
Ascends-get_one low high [] i a h e = absurd (cc)
Ascends-get_one low high ((p, o) ∷ xs) zero a h e = rw (sym (some-injective o a e)) (h.0, h.1)
Ascends-get_one low high ((p, o) ∷ xs) (suc i) a h e =
    let (l, u) = Ascends-get_one o high xs i a h.2 e in (omega (arith, l, h.0), u)

pub Ascends-get :
    (low high : ℕ) (xs : List (ℕ × ℕ)) (i j a b : ℕ)
    → Ascends low high xs
    → i ≤ j
    → get_elem? (offsets_of xs) i ≡ some a
    → get_elem? (offsets_of xs) j ≡ some b
    → (low ≤ a) × (a ≤ b) × (b < high)
Ascends-get low high [] i j a b h le ea eb = absurd (cc)
Ascends-get low high ((p, o) ∷ xs) zero j a b h le ea eb =
    let same : o ≡ a = some-injective o a ea in
    let (l, u) = Ascends-get_one o high ((p, o) ∷ xs) j b (omega arith, h.1, h.2) eb in
    (omega (arith, h.0, same), omega (arith, l, same), u)
Ascends-get low high ((p, o) ∷ xs) (suc i) zero a b h le ea eb = absurd (omega (arith, le))
Ascends-get low high ((p, o) ∷ xs) (suc i) (suc j) a b h le ea eb =
    let (l, m, u) = Ascends-get o high xs i j a b h.2 (omega (arith, le)) ea eb in
    (omega (arith, l, h.0), m, u)
