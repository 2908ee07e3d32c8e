-- ===== src/Logto/Empty.antt =====
-- src/aizk/integrations/logto/policy.py: when a list that a plan is put together from is empty.
use aizk.Base.{
  ◌≡◌, refl, inl, inr, ◌↔◌, Bool, true, false, not, ◌||◌, Bool-cases, Option, none, some, List, [],
  ◌∷◌, ◌++◌, Text, text_eq_iff, first_of, map, filter_by, All, insert_by, sort_by, arith,
}
use aizk.Logto.{Change, says, same_flag, is_missing, is_user, RoleType, user, machine_to_machine}
use aizk.Logto.Plan.{when, flat_map, some_missing}

module _ {A B C : Type 0} where
  pub chain : A ↔ B → B ↔ C → A ↔ C
  chain f g = ((λ a. g.0 (f.0 a)), (λ c. f.1 (g.1 c)))

  pub pair_iff : {D : Type 0} → A ↔ B → C ↔ D → (A × C) ↔ (B × D)
  pair_iff f g = ((λ x. (f.0 x.0, g.0 x.1)), (λ y. (f.1 y.0, g.1 y.1)))

pub All_iff :
    {A : Type 0} (P Q : A → Type 0) (xs : List A) → ((x : A) → P x ↔ Q x) → All P xs ↔ All Q xs
All_iff P Q [] f = ((λ h. tt), (λ h. tt))
All_iff P Q (x ∷ xs) f =
    ((λ h. ((f x).0 h.0, (All_iff P Q xs f).0 h.1)), (λ h. ((f x).1 h.0, (All_iff P Q xs f).1 h.1)))

module _ {A : Type 0} where
  pub append-nil_iff : (xs ys : List A) → (xs ++ ys ≡ []) ↔ ((xs ≡ []) × (ys ≡ []))
  append-nil_iff [] ys = ((λ e. (refl, e)), (λ h. h.1))
  append-nil_iff (x ∷ xs) ys = ((λ e. cc), (λ h. cc h.0))

  pub map-nil_iff : {B : Type 0} (f : A → B) (xs : List A) → (map f xs ≡ []) ↔ (xs ≡ [])
  map-nil_iff f [] = ((λ e. refl), (λ e. refl))
  map-nil_iff f (x ∷ xs) = ((λ e. cc), (λ e. cc))

  pub filter-nil_iff :
      (p : A → Bool) (xs : List A) → (filter_by p xs ≡ []) ↔ All (λ (x : A). p x ≡ false) xs
  filter-nil_iff p [] = ((λ e. tt), (λ h. refl))
  filter-nil_iff p (x ∷ xs) = elim (Bool-cases (p x)) [
    | inl b ↦ rw b ((λ e. cc), (λ h. cc h.0))
    | inr b ↦ rw b ((λ e. (refl, (filter-nil_iff p xs).0 e)), (λ h. (filter-nil_iff p xs).1 h.1))
  ]

  insert-ne-nil : (before : A → A → Bool) (x : A) (ys : List A) → insert_by before x ys ≡ [] → ⊥
  insert-ne-nil before x [] e = cc
  insert-ne-nil before x (y ∷ ys) e = elim (Bool-cases (before x y)) [
    | inl b ↦ ground (arith, b, e)
    | inr b ↦ ground (arith, b, e)
  ]

  pub sort-nil_iff : (before : A → A → Bool) (xs : List A) → (sort_by before xs ≡ []) ↔ (xs ≡ [])
  sort-nil_iff before [] = ((λ e. refl), (λ e. refl))
  sort-nil_iff before (x ∷ xs) =
      ((λ e. absurd (insert-ne-nil before x (sort_by before xs) e)), (λ e. cc))

pub flat_map-nil_iff :
    {A : Type 0} (f : A → List Change) (xs : List A)
    → (flat_map f xs ≡ []) ↔ All (λ (x : A). f x ≡ []) xs
flat_map-nil_iff f [] = ((λ e. tt), (λ h. refl))
flat_map-nil_iff f (x ∷ xs) =
    chain (append-nil_iff (f x) (flat_map f xs))
      ((λ h. (h.0, (flat_map-nil_iff f xs).0 h.1)), (λ h. (h.0, (flat_map-nil_iff f xs).1 h.1)))

pub when-nil_iff : (b : Bool) (c : Change) → (when b c ≡ []) ↔ (b ≡ false)
when-nil_iff true c = ((λ e. cc), (λ e. cc))
when-nil_iff false c = ((λ e. refl), (λ e. refl))

pub first_of-nil_iff : (xs : List Text) → (first_of [] xs ≡ []) ↔ (xs ≡ [])
first_of-nil_iff [] = ((λ e. refl), (λ e. refl))
first_of-nil_iff (x ∷ xs) = ((λ e. cc), (λ e. cc))

pub some_missing_iff : (ns : List Text) → (some_missing ns ≡ false) ↔ (ns ≡ [])
some_missing_iff [] = ((λ e. refl), (λ e. refl))
some_missing_iff (n ∷ ns) = ((λ e. cc), (λ e. cc))

-- Two guards, neither of which holds.
pub neither_iff : (a b : Bool) → ((not a || not b) ≡ false) ↔ ((a ≡ true) × (b ≡ true))
neither_iff true true = ((λ e. (refl, refl)), (λ h. refl))
neither_iff true false = ((λ e. cc), (λ h. cc h.1))
neither_iff false b = ((λ e. cc), (λ h. cc h.0))

pub not-false_iff : (b : Bool) → (not b ≡ false) ↔ (b ≡ true)
not-false_iff true = ((λ e. refl), (λ e. refl))
not-false_iff false = ((λ e. cc), (λ e. cc))

pub says_iff : (o : Option Text) (t : Text) → (says o t ≡ true) ↔ (o ≡ some t)
says_iff none t = ((λ e. cc), (λ e. cc))
says_iff (some s) t = ground (arith, text_eq_iff s t)

pub same_flag_iff : (a b : Bool) → (same_flag a b ≡ true) ↔ (a ≡ b)
same_flag_iff true true = ((λ e. refl), (λ e. refl))
same_flag_iff true false = ((λ e. cc), (λ e. cc))
same_flag_iff false true = ((λ e. cc), (λ e. cc))
same_flag_iff false false = ((λ e. refl), (λ e. refl))

pub is_user_iff : (k : RoleType) → (is_user k ≡ true) ↔ (k ≡ user)
is_user_iff user = ((λ e. refl), (λ e. refl))
is_user_iff machine_to_machine = ((λ e. cc), (λ e. cc))

-- Something stands there.
abbrev pub Present : {A : Type 0} → Option A → Type 0
Present none = ⊥
Present (some a) = Unit

pub missing_iff : {A : Type 0} (o : Option A) → (is_missing o ≡ false) ↔ Present o
missing_iff none = ((λ e. cc), (λ h. elim h [ ]))
missing_iff (some a) = ((λ e. tt), (λ h. refl))
