-- ===== src/Base/Lists.antt =====
-- Lists over the native numbers, under the library's names where it has them.
use Prim.Native.Nat.{ℕ, zero, suc, ◌+◌, ◌≤◌}
use mathlib.Core.Path.{◌≡◌, refl, subst, ap}
use mathlib.Core.Logic.{◌↔◌, ◌⊎◌, inl, inr}
use mathlib.Core.Bool.{Bool, true, false, ◌&&◌, ◌||◌}
use mathlib.Core.Option.{Option, none, some}
use mathlib.Core.List.{List, [], ◌∷◌, ◌++◌, map}
use native.Mathlib.Omega.{arith}
use aizk.Base.Tests.{if◌then◌else◌, ◌==◌, Bool-cases}

module _ {ℓ} {A : Type ℓ} where
  abbrev pub length : List A → ℕ
  length [] = 0
  length (x ∷ xs) = suc (length xs)

  abbrev pub get_elem? : List A → ℕ → Option A
  get_elem? [] i = none
  get_elem? (x ∷ xs) zero = some x
  get_elem? (x ∷ xs) (suc i) = get_elem? xs i

  abbrev pub take : ℕ → List A → List A
  take zero xs = []
  take (suc n) [] = []
  take (suc n) (x ∷ xs) = x ∷ take n xs

  pub length-append : (xs ys : List A) → length (xs ++ ys) ≡ length xs + length ys
  length-append [] ys = omega arith
  length-append (x ∷ xs) ys = omega (arith, length-append xs ys)

  -- The members that pass a test, in order (a Python comprehension with an `if`).
  abbrev pub filter_by : (A → Bool) → List A → List A
  filter_by p [] = []
  filter_by p (x ∷ xs) = let rest = filter_by p xs in if p x then x ∷ rest else rest

  -- Python's `any` and `all` over a generator.
  abbrev pub any_by : (A → Bool) → List A → Bool
  any_by p [] = false
  any_by p (x ∷ xs) = p x || any_by p xs

  abbrev pub all_by : (A → Bool) → List A → Bool
  all_by p [] = true
  all_by p (x ∷ xs) = p x && all_by p xs

  -- `next((x for x in xs if p(x)), None)`.
  abbrev pub find_by : (A → Bool) → List A → Option A
  find_by p [] = none
  find_by p (x ∷ xs) = let rest = find_by p xs in if p x then some x else rest

  abbrev pub All {κ} : (A → Type κ) → List A → Type κ
  All P [] = Unit
  All P (x ∷ xs) = P x × All P xs

  -- The members of the first list stand in the second in the same order, as often.
  pub data Subseq : List A → List A → Type ℓ where
    done : Subseq [] []
    keep : {x : A} {xs ys : List A} → Subseq xs ys → Subseq (x ∷ xs) (x ∷ ys)
    skip : {x : A} {xs ys : List A} → Subseq xs ys → Subseq xs (x ∷ ys)

-- Membership by recursion, so that the tactics see through it.
abbrev pub In : {A : Type 0} → A → List A → Type 0
In a [] = ⊥
In a (x ∷ xs) = (x ≡ a) ⊎ In a xs

-- The identifiers of a set, as a list.
abbrev pub elem : ℕ → List ℕ → Bool
elem n xs = any_by (λ x. x == n) xs

module _ {ℓ} {A : Type ℓ} where
  pub Subseq-refl : (xs : List A) → Subseq xs xs
  Subseq-refl [] = done
  Subseq-refl (x ∷ xs) = keep (Subseq-refl xs)

  pub Subseq-nil : (xs : List A) → Subseq [] xs
  Subseq-nil [] = done
  Subseq-nil (x ∷ xs) = skip (Subseq-nil xs)

  pub Subseq-trans : {ys zs : List A} → Subseq ys zs → {xs : List A} → Subseq xs ys → Subseq xs zs
  Subseq-trans done s = s
  Subseq-trans (skip t) s = skip (Subseq-trans t s)
  Subseq-trans (keep t) (keep s) = keep (Subseq-trans t s)
  Subseq-trans (keep t) (skip s) = skip (Subseq-trans t s)

  pub length-Subseq : {xs ys : List A} → Subseq xs ys → length xs ≤ length ys
  length-Subseq done = omega arith
  length-Subseq (keep s) = omega (arith, length-Subseq s)
  length-Subseq (skip s) = omega (arith, length-Subseq s)

  Subseq-if :
      (b : Bool) (x : A) {xs ys : List A}
      → Subseq xs ys
      → Subseq (if b then x ∷ xs else xs) (x ∷ ys)
  Subseq-if true x s = keep s
  Subseq-if false x s = skip s

  pub filter_by-Subseq : (p : A → Bool) (xs : List A) → Subseq (filter_by p xs) xs
  filter_by-Subseq p [] = done
  filter_by-Subseq p (x ∷ xs) = Subseq-if (p x) x (filter_by-Subseq p xs)

  pub All-append {κ} : (P : A → Type κ) (xs ys : List A) → All P xs → All P ys → All P (xs ++ ys)
  All-append P [] ys hx hy = hy
  All-append P (x ∷ xs) ys hx hy = (hx.0, All-append P xs ys hx.1 hy)

module _ {A : Type 0} (a : A) where
  pub Subseq-In : {xs ys : List A} → Subseq xs ys → In a xs → In a ys
  Subseq-In done m = m
  Subseq-In (keep s) (inl e) = inl e
  Subseq-In (keep s) (inr m) = inr (Subseq-In s m)
  Subseq-In (skip s) m = inr (Subseq-In s m)

  pub In-append_left : (xs ys : List A) → In a xs → In a (xs ++ ys)
  In-append_left [] ys m = elim m [ ]
  In-append_left (x ∷ xs) ys (inl e) = inl e
  In-append_left (x ∷ xs) ys (inr m) = inr (In-append_left xs ys m)

  pub In-append_right : (xs ys : List A) → In a ys → In a (xs ++ ys)
  In-append_right [] ys m = m
  In-append_right (x ∷ xs) ys m = inr (In-append_right xs ys m)

  pub In-append : (xs ys : List A) → In a (xs ++ ys) → In a xs ⊎ In a ys
  In-append [] ys m = inr m
  In-append (x ∷ xs) ys (inl e) = inl (inl e)
  In-append (x ∷ xs) ys (inr m) = elim (In-append xs ys m) [ inl l ↦ inl (inr l) | inr r ↦ inr r ]

  pub In-filter_by : (p : A → Bool) (xs : List A) → In a (filter_by p xs) ↔ (In a xs × (p a ≡ true))
  In-filter_by p [] = ((λ m. elim m [ ]), (λ m. elim m.0 [ ]))
  In-filter_by p (x ∷ xs) = ground (arith, In-filter_by p xs)

module _ {A : Type 0} (P : A → Type 0) where
  pub All-In : (a : A) (xs : List A) → All P xs → In a xs → P a
  All-In a [] h m = elim m [ ]
  All-In a (x ∷ xs) h (inl e) = subst P e h.0
  All-In a (x ∷ xs) h (inr m) = All-In a xs h.1 m

  pub All-of_In : (xs : List A) → ((a : A) → In a xs → P a) → All P xs
  All-of_In [] h = tt
  All-of_In (x ∷ xs) h = (h x (inl refl), All-of_In xs (λ a m. h a (inr m)))

  pub All-take : (n : ℕ) (xs : List A) → All P xs → All P (take n xs)
  All-take zero xs h = tt
  All-take (suc n) [] h = tt
  All-take (suc n) (x ∷ xs) h = (h.0, All-take n xs h.1)

  pub All-filter_by : (p : A → Bool) (xs : List A) → All P xs → All P (filter_by p xs)
  All-filter_by p [] h = tt
  All-filter_by p (x ∷ xs) h = elim (Bool-cases (p x)) [
    | inl b ↦ rw b (h.0, All-filter_by p xs h.1)
    | inr b ↦ rw b (All-filter_by p xs h.1)
  ]

pub filter_by-All :
    {A : Type 0} (p : A → Bool) (xs : List A) → All (λ a. p a ≡ true) (filter_by p xs)
filter_by-All p [] = tt
filter_by-All p (x ∷ xs) = elim (Bool-cases (p x)) [
  | inl b ↦ rw b (b, filter_by-All p xs)
  | inr b ↦ rw b (filter_by-All p xs)
]

pub length-take {ℓ} : {A : Type ℓ} (n : ℕ) (xs : List A) → length (take n xs) ≤ n
length-take zero xs = omega arith
length-take (suc n) [] = omega arith
length-take (suc n) (x ∷ xs) = omega (arith, length-take n xs)

pub In-take : {A : Type 0} (a : A) (n : ℕ) (xs : List A) → In a (take n xs) → In a xs
In-take a zero xs m = elim m [ ]
In-take a (suc n) [] m = elim m [ ]
In-take a (suc n) (x ∷ xs) (inl e) = inl e
In-take a (suc n) (x ∷ xs) (inr m) = inr (In-take a n xs m)

pub any_by-cases :
    {A : Type 0} (p : A → Bool) (xs : List A)
    → ((x : A) × In x xs × (p x ≡ true) × (any_by p xs ≡ true))
      ⊎ ((any_by p xs ≡ false) × All (λ x. p x ≡ false) xs)
any_by-cases p [] = inr (refl, tt)
any_by-cases p (x ∷ xs) = elim (Bool-cases (p x)) [
  | inl e ↦ inl (x, inl refl, e, rw e refl)
  | inr e ↦ elim (any_by-cases p xs) [
    | inl (y, m, k, all) ↦ inl (y, inr m, k, rw (e, all) refl)
    | inr (all, k) ↦ inr (rw (e, all) refl, (e, k))
  ]
]

pub All-map {ℓ} :
    {A B : Type 0} (P : B → Type ℓ) (g : A → B) (xs : List A)
    → All (λ x. P (g x)) xs
    → All P (map g xs)
All-map P g [] h = tt
All-map P g (x ∷ xs) h = (h.0, All-map P g xs h.1)

pub In-map :
    {A B : Type 0} (g : A → B) (b : B) (xs : List A)
    → In b (map g xs)
    → (a : A) × In a xs × (g a ≡ b)
In-map g b [] m = elim m [ ]
In-map g b (x ∷ xs) (inl e) = (x, inl refl, e)
In-map g b (x ∷ xs) (inr m) = let (a, k, e) = In-map g b xs m in (a, inr k, e)

pub append_assoc {ℓ} : {A : Type ℓ} (xs ys zs : List A) → (xs ++ ys) ++ zs ≡ xs ++ (ys ++ zs)
append_assoc [] ys zs = refl
append_assoc (x ∷ xs) ys zs = ap (λ t. x ∷ t) (append_assoc xs ys zs)

pub append_nil {ℓ} : {A : Type ℓ} (xs : List A) → xs ++ [] ≡ xs
append_nil [] = refl
append_nil (x ∷ xs) = ap (λ t. x ∷ t) (append_nil xs)
