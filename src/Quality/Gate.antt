-- ===== src/Quality/Gate.antt =====
-- src/aizk/artifacts/quality.py: what the gate lets through.
use aizk.Base.{
  ℕ, ◌+◌, ◌*◌, ◌≤◌, ◌<◌, ◌≡◌, ◌≢◌, ◌⊎◌, inl, inr, refl, Bool, true, false, ◌&&◌, Bool-cases, Option,
  Option-cases, none, some, Text, leb, ltb, ◌==◌, ==_iff, if◌then◌else◌, arith,
}
use aizk.Quality.{
  Normal, Ratio, TextQuality, measure, Rejection, removed_all, inflated, truncated, above,
  tenth_above, length_ratio, lost_script, rejection, assess,
}

not_above_itself : (r : Ratio) → tenth_above r r ≡ false
not_above_itself r = below (10 * (r.part * r.whole)) (r.whole * r.whole)
  where
    below : (a b : ℕ) → ltb (a + b) a ≡ false
    below a b = ground arith

and_false : (a : Bool) → (a && false) ≡ false
and_false true = refl
and_false false = refl

kept_script : (q : TextQuality) → lost_script q q ≡ false
kept_script q =
    let n = q.kana_ratio.part * q.kana_ratio.whole in
    rw (not_less n, and_false (leb 20 q.cjk_characters))
      (and_false
        (leb 20 q.cjk_characters && leb (2 * q.kana_ratio.whole) (100 * q.kana_ratio.part)))
  where
    not_less : (n : ℕ) → ltb (100 * n) (35 * n) ≡ false
    not_less n = ground arith

rejection_same : (q : TextQuality) → rejection q q ≡ none
unfolding rejection
rejection_same q = elim (Bool-cases (q.characters == 0)) [
  | inl b ↦ simp b
  | inr b ↦ simp (
    b,
    not_more q.characters,
    not_less q.characters,
    not_above_itself q.repeated_line_ratio,
    and_false (above (length_ratio q q) 150),
    and_false (above q.repeated_line_ratio 45),
    kept_script q,
  )
]
  where
    not_more : (n : ℕ) → ltb (250 * n) (100 * n) ≡ false
    not_more n = ground arith

    not_less : (n : ℕ) → ltb (100 * n) (35 * n) ≡ false
    not_less n = ground arith

-- What the first tests of a chain leave, when nothing of it speaks against the candidate.
first_tests :
    (a b c d : Bool) (rest : Option Rejection)
    → (if a
        then none
        else if b
        then some removed_all
        else if c
        then some inflated
        else if d
        then some truncated
        else rest)
      ≡ none
    → (a ≡ true) ⊎ ((b ≡ false) × (c ≡ false) × (d ≡ false))
first_tests true b c d rest h = inl refl
first_tests false true c d rest h = cc
first_tests false false true d rest h = cc
first_tests false false false true rest h = cc
first_tests false false false false rest h = inr (refl, refl, refl)

some_there : (m : ℕ) → (m == 0) ≡ false → 0 < m
some_there m e = ground arith

some-not_none : {o : Option Rejection} {r : Rejection} → o ≡ some r → o ≢ none
some-not_none h e = cc

-- Over nothing, anything passes.
let_all :
    (current candidate : TextQuality)
    → (current.characters == 0) ≡ true
    → rejection current candidate ≡ none
unfolding rejection
let_all current candidate e = rw e refl

let_through :
    (current candidate : TextQuality)
    → rejection current candidate ≡ none
    → 0 < current.characters
    → (0 < candidate.characters)
      × (35 * current.characters ≤ 100 * candidate.characters)
      × (100 * candidate.characters ≤ 250 * current.characters)
unfolding rejection
let_through current candidate h live =
    elim (first_tests (current.characters == 0) (candidate.characters == 0)
      (above (length_ratio current candidate) 250)
      (ltb (100 * candidate.characters) (35 * current.characters)) _ h) [
        | inl e ↦ elim (nothing_there e) [ ]
        | inr (b, c, d) ↦ (
          some_there candidate.characters b,
          not_ltb (100 * candidate.characters) (35 * current.characters) d,
          not_ltb (250 * current.characters) (100 * candidate.characters) c,
        )
      ]
  where
    nothing_there : (current.characters == 0) ≡ true → ⊥
    nothing_there e = omega (arith, live, (==_iff current.characters 0).0 e)

    not_ltb : (m k : ℕ) → ltb m k ≡ false → k ≤ m
    not_ltb m k e = ground arith

-- The text that is live is always let through again. Over a live text without characters every
-- candidate is let through; over any other, a candidate is refused for some reason, or it is not empty
-- either and has at least 0.35 and at most 2.5 times the live text's characters.
pub assess_lem :
    (n : Normal) (live candidate : Text)
    → (assess n (some live) live ≡ none)
      × (((measure n live).characters ≡ 0) × (assess n (some live) candidate ≡ none)
          ⊎ (0 < (measure n live).characters)
            × ((assess n (some live) candidate ≢ none)
                ⊎ (0 < (measure n candidate).characters)
                  × (35 * (measure n live).characters ≤ 100 * (measure n candidate).characters)
                  × (100 * (measure n candidate).characters ≤ 250 * (measure n live).characters)))
unfolding assess
assess_lem n live candidate =
    let q = measure n live in
    let r = measure n candidate in
    (
      rejection_same q,
      elim (Bool-cases (q.characters == 0)) [
        | inl e ↦ inl ((==_iff q.characters 0).0 e, let_all q r e)
        | inr e ↦
            let there = some_there q.characters e in
            inr (
              there,
              elim (Option-cases (rejection q r)) [
                | inr (reason, h) ↦ inl (some-not_none h)
                | inl h ↦ inr (let_through q r h there)
              ],
            )
      ],
    )
