-- ===== src/LongText/Windows.antt =====
-- src/aizk/serving/extract/long_text.py: which words stand together in a window.
use aizk.Base.{
  ℕ, zero, suc, ◌+◌, ◌-◌, ◌≤◌, ◌<◌, min, ◌≡◌, ◌⊎◌, inl, inr, refl, subst, Bool, true, false,
  Bool-cases, Option, none, some, List, [], ◌∷◌, Text, length, get_elem?, In, leb, ltb, ltb→lt,
  lt→ltb, arith,
}
use aizk.LongText.{
  Word, TextWindow, words_from, range_from, slice, window_at, windows_at, starts_of, windows,
}

not_ltb : (m n : ℕ) → ltb m n ≡ false → n ≤ m
not_ltb m n h = ground arith

not_leb : (m n : ℕ) → leb m n ≡ false → n < m
not_leb m n h = ground arith

range_step :
    (fuel start stop step : ℕ)
    → ltb start stop ≡ true
    → range_from (suc fuel) start stop step ≡ start ∷ range_from fuel (start + step) stop step
range_step fuel start stop step b = rw b refl

range_end :
    (fuel start stop step : ℕ) → ltb start stop ≡ false → range_from (suc fuel) start stop step ≡ []
range_end fuel start stop step b = rw b refl

-- All members of the range are below its end.
range_below : (fuel start stop step : ℕ) (s : ℕ) → In s (range_from fuel start stop step) → s < stop
range_below zero start stop step s m = elim m [ ]
range_below (suc fuel) start stop step s m = elim (Bool-cases (ltb start stop)) [
  | inr b ↦ elim (subst (λ (x : List ℕ). In s x) (range_end fuel start stop step b) m) [ ]
  | inl b ↦ elim (subst (λ (x : List ℕ). In s x) (range_step fuel start stop step b) m) [
    | inl e ↦ omega (arith, ltb→lt start stop b, e)
    | inr k ↦ range_below fuel (start + step) stop step s k
  ]
]

-- Some member is the last one not above a given index, or the last one of all.
range_hits :
    (fuel start stop step i : ℕ)
    → 0 < step
    → start < stop
    → start ≤ i
    → stop ≤ start + fuel
    → (s : ℕ) × In s (range_from fuel start stop step)
      × (s ≤ i)
      × ((i < s + step) ⊎ (stop ≤ s + step))
range_hits zero start stop step i p h l f = elim (absurd h f) [ ]
  where
    absurd : start < stop → stop ≤ start + 0 → ⊥
    absurd h f = omega (arith, h, f)
range_hits (suc fuel) start stop step i p h l f =
    rw (lt→ltb start stop h) (elim (Bool-cases (ltb i (start + step))) [
      | inl near ↦ (start, inl refl, l, inl (ltb→lt i (start + step) near))
      | inr far ↦ elim (Bool-cases (ltb (start + step) stop)) [
        | inr last ↦ (start, inl refl, l, inr (not_ltb (start + step) stop last))
        | inl more ↦
            let (s, m, below, reach) =
              range_hits fuel (start + step) stop step i p (ltb→lt (start + step) stop more)
                (not_ltb i (start + step) far) (omega (arith, p, f)) in
            (s, inr m, below, reach)
      ]
    ])

get_in_range :
    {A : Type 0} (xs : List A) (i : ℕ) → i < length xs → (a : A) × (get_elem? xs i ≡ some a)
get_in_range [] i h = elim (none_below i h) [ ]
  where
    none_below : (i : ℕ) → i < 0 → ⊥
    none_below i h = omega (arith, h)
get_in_range (x ∷ xs) zero h = (x, refl)
get_in_range (x ∷ xs) (suc i) h = get_in_range xs i (omega (arith, h))

-- A window that starts at a word in range is cut at the start and the end of words.
window_found :
    (text : Text) (words : List Word) (size start : ℕ)
    → 0 < size
    → start < length words
    → (w : TextWindow) × (first : Word) × (last : Word) × (window_at text words size start ≡ some w)
      × (get_elem? words start ≡ some first)
      × (get_elem? words (min (start + size) (length words) - 1) ≡ some last)
      × (w.text ≡ slice first.start last.end text)
      × (w.offset ≡ first.start)
window_found text words size start p h =
    let (first, e) = get_in_range words start h in
    let (last, k) =
      get_in_range words (min (start + size) (length words) - 1) (omega (arith, p, h)) in
    (
      record { text = slice first.start last.end text; offset = first.start },
      first,
      last,
      rw (e, k) refl,
      e,
      k,
      refl,
      refl,
    )

windows_all :
    (text : Text) (words : List Word) (size : ℕ) (starts : List ℕ)
    → 0 < size
    → ((s : ℕ) → In s starts → s < length words)
    → (ws : List TextWindow) × (windows_at text words size starts ≡ some ws)
      × ((s : ℕ)
          → In s starts
          → (w : TextWindow) × In w ws × (window_at text words size s ≡ some w))
windows_all text words size [] p h = ([], refl, λ s m. elim m [ ])
windows_all text words size (start ∷ starts) p h =
    let (w, first, last, e, e', l, t, o) =
      window_found text words size start p (h start (inl refl)) in
    let (ws, k, each) = windows_all text words size starts p (λ s m. h s (inr m)) in
    (
      w ∷ ws,
      rw (e, k) refl,
      λ s m. elim m [
        | inl same ↦ (w, inl refl, subst (λ (x : ℕ). window_at text words size x ≡ some w) same e)
        | inr m' ↦ let (v, n, q) = each s m' in (v, inr n, q)
      ],
    )

-- A window that has two words in it: it is the whole text, or it is cut from the start of a word at or
-- before the first to the end of a word at or after the second.
abbrev pub HoldsBoth : Text → List Word → ℕ → ℕ → TextWindow → Type 0
HoldsBoth text words i j w =
    ((w.text ≡ text) × (w.offset ≡ 0))
    ⊎ ((s : ℕ) × (e : ℕ) × (first : Word) × (last : Word) × (s ≤ i)
        × (j ≤ e)
        × (get_elem? words s ≡ some first)
        × (get_elem? words e ≡ some last)
        × (w.text ≡ slice first.start last.end text)
        × (w.offset ≡ first.start))

-- When the overlap is less than the window size, the cutting never runs out of range, and any two
-- words that are at most `overlap` words apart stand together in one of the windows.
pub windows_lem :
    (is_space : ℕ → Bool) (size overlap : ℕ) (text : Text) (i j : ℕ)
    → overlap < size
    → i ≤ j
    → j ≤ i + overlap
    → j < length (words_from is_space 0 none text)
    → (ws : List TextWindow) × (windows is_space size overlap text ≡ some ws)
      × (w : TextWindow) × In w ws
      × HoldsBoth text (words_from is_space 0 none text) i j w
unfolding windows
windows_lem is_space size overlap text i j less order near inside =
    let words = words_from is_space 0 none text in
    let n = length words in
    elim (Bool-cases (leb n size)) [
      | inl short ↦
          let whole : TextWindow = record { text = text; offset = 0 } in
          rw short (whole ∷ [], refl, whole, inl refl, inl (refl, refl))
      | inr long ↦
          let more = not_leb n size long in
          let (s, m, below, reach) =
            range_hits n 0 (n - overlap) (size - overlap) i (omega (arith, less))
              (omega (arith, less, more)) (omega arith) (omega arith) in
          let in_range = λ (x : ℕ) (k : In x (starts_of n size overlap)).
            below_count x n overlap (range_below n 0 (n - overlap) (size - overlap) x k) in
          let (ws, found, each) =
            windows_all text words size (starts_of n size overlap) (omega (arith, less)) in_range in
          let (w, there, made) = each s m in
          let (v, first, last, e, f, l, t, o) =
            window_found text words size s (omega (arith, less)) (in_range s m) in
          let same = same_window (window_at text words size s) v w e made in
          rw long (
            ws,
            found,
            w,
            there,
            inr (
              s,
              min (s + size) n - 1,
              first,
              last,
              below,
              last_word s n size overlap i j below order near inside less reach,
              f,
              l,
              subst (λ (x : TextWindow). x.text ≡ slice first.start last.end text) same t,
              subst (λ (x : TextWindow). x.offset ≡ first.start) same o,
            ),
          )
    ]
  where
    below_count : (x n overlap : ℕ) → x < n - overlap → x < n
    below_count x n overlap h = omega (arith, h)

    same_window : (o : Option TextWindow) (v w : TextWindow) → o ≡ some v → o ≡ some w → v ≡ w
    same_window o v w e k = cc

    last_word :
        (s n size overlap i j : ℕ)
        → s ≤ i
        → i ≤ j
        → j ≤ i + overlap
        → j < n
        → overlap < size
        → (i < s + (size - overlap)) ⊎ (n - overlap ≤ s + (size - overlap))
        → j ≤ min (s + size) n - 1
    last_word s n size overlap i j a b c d e (inl f) = omega (arith, a, b, c, d, e, f)
    last_word s n size overlap i j a b c d e (inr f) = omega (arith, a, b, c, d, e, f)
