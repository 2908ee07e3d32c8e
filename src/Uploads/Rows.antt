-- ===== src/Uploads/Rows.antt =====
-- src/aizk/artifacts/uploads.py: the rows of one capability under the statements of the box.
use aizk.Base.{
  ℕ, ◌≤◌, ◌<◌, ◌≡◌, ◌≢◌, inl, inr, refl, subst, Bool, true, false, Bool-cases, Option, none, some,
  List, [], ◌∷◌, ◌++◌, leb, ltb, leb→le, ltb→lt, ◌==◌, filter_by, arith,
}
use aizk.Identity.{User, write_scope}
use aizk.Uploads.{
  UploadRequest, Codec, UploadCapability, Box, Minted, refused_grant, granted, too_large, no_scope,
  too_many_grants, capability_taken, still_live, held_by, has_capability, new_row, stored, mint,
  without,
}

pub filter_by-append {ℓ} :
    {A : Type ℓ} (p : A → Bool) (xs ys : List A)
    → filter_by p (xs ++ ys) ≡ filter_by p xs ++ filter_by p ys
filter_by-append p [] ys = refl
filter_by-append p (x ∷ xs) ys = elim (Bool-cases (p x)) [
  | inl b ↦ rw (b, filter_by-append p xs ys) refl
  | inr b ↦ rw (b, filter_by-append p xs ys) refl
]

pub filter_by_comm {ℓ} :
    {A : Type ℓ} (p q : A → Bool) (xs : List A)
    → filter_by p (filter_by q xs) ≡ filter_by q (filter_by p xs)
filter_by_comm p q [] = refl
filter_by_comm p q (x ∷ xs) = elim (Bool-cases (p x)) [
  | inl b ↦ elim (Bool-cases (q x)) [
    | inl c ↦ simp (b, c, filter_by_comm p q xs)
    | inr c ↦ simp (b, c, filter_by_comm p q xs)
  ]
  | inr b ↦ elim (Bool-cases (q x)) [
    | inl c ↦ simp (b, c, filter_by_comm p q xs)
    | inr c ↦ simp (b, c, filter_by_comm p q xs)
  ]
]

module _ (codec : Codec) where
  abbrev pub of_capability : ℕ → List (UploadCapability codec) → List (UploadCapability codec)
  of_capability c rows = filter_by (λ (r : UploadCapability codec). r.capability == c) rows

  pub without-other :
      (c d : ℕ) (rows : List (UploadCapability codec))
      → d ≢ c
      → of_capability c (without codec d rows) ≡ of_capability c rows
  without-other c d [] h = refl
  without-other c d (r ∷ rows) h = elim (Bool-cases (r.capability == d)) [
    | inl b ↦ simp (b, without-other c d rows h, other_row r b)
    | inr b ↦ simp (b, without-other c d rows h)
  ]
    where
      other_row :
          (r : UploadCapability codec) → (r.capability == d) ≡ true → (r.capability == c) ≡ false
      other_row r b = ground arith

  pub without-same :
      (c : ℕ) (rows : List (UploadCapability codec)) → of_capability c (without codec c rows) ≡ []
  without-same c [] = refl
  without-same c (r ∷ rows) = elim (Bool-cases (r.capability == c)) [
    | inl b ↦ simp (b, without-same c rows)
    | inr b ↦ simp (b, without-same c rows)
  ]

  pub none_held :
      (c : ℕ) (rows : List (UploadCapability codec))
      → has_capability codec c rows ≡ false
      → of_capability c rows ≡ []
  none_held c [] h = refl
  none_held c (r ∷ rows) h = elim (Bool-cases (r.capability == c)) [
    | inl b ↦ ground arith
    | inr b ↦ simp (b, none_held c rows (ground arith))
  ]

  -- What a grant says: everything that `mint` checked, and the rows it leaves.
  pub record IsGrant (box : Box) (user : User) (declared : UploadRequest) (c now : ℕ)
      (rows after : List (UploadCapability codec)) : Type 0 where
    pub target : List ℕ
    pub in_bounds : declared.size ≤ box.upload_byte_limit
    pub scoped : write_scope user declared.scopes ≡ some target
    pub room : held_by codec user.id (still_live codec now rows) < box.live_grants_per_caller
    pub free : has_capability codec c (still_live codec now rows) ≡ false
    pub left :
        after ≡ still_live codec now rows ++ new_row codec box user declared target c now ∷ []

  -- What each answer of `mint` says.
  abbrev pub Explained :
      Box → User → UploadRequest → ℕ → ℕ → List (UploadCapability codec) → Minted codec → Type 0
  Explained box user declared c now rows (granted d after) =
      (d ≡ c) × IsGrant box user declared c now rows after
  Explained box user declared c now rows (refused_grant too_large) =
      box.upload_byte_limit < declared.size
  Explained box user declared c now rows (refused_grant no_scope) =
      (declared.size ≤ box.upload_byte_limit) × (write_scope user declared.scopes ≡ none)
  Explained box user declared c now rows (refused_grant too_many_grants) =
      (declared.size ≤ box.upload_byte_limit)
      × (box.live_grants_per_caller ≤ held_by codec user.id (still_live codec now rows))
  Explained box user declared c now rows (refused_grant capability_taken) =
      (declared.size ≤ box.upload_byte_limit)
      × (held_by codec user.id (still_live codec now rows) < box.live_grants_per_caller)
      × (has_capability codec c (still_live codec now rows) ≡ true)

  stored_lem :
      (box : Box) (user : User) (declared : UploadRequest) (c now : ℕ)
      (rows : List (UploadCapability codec)) (o : Option (List ℕ))
      → declared.size ≤ box.upload_byte_limit
      → write_scope user declared.scopes ≡ o
      → Explained box user declared c now rows (stored codec box user declared c now rows o)
  stored_lem box user declared c now rows none b e = (b, e)
  stored_lem box user declared c now rows (some target) b e =
      elim (Bool-cases
        (leb box.live_grants_per_caller (held_by codec user.id (still_live codec now rows)))) [
          | inl full ↦ rw full (
            b,
            leb→le box.live_grants_per_caller (held_by codec user.id (still_live codec now rows))
                full,
          )
          | inr room ↦
              let below =
                not_leb box.live_grants_per_caller
                  (held_by codec user.id (still_live codec now rows)) room in
              elim (Bool-cases (has_capability codec c (still_live codec now rows))) [
                | inl taken ↦ rw (room, taken) (b, below, taken)
                | inr free ↦
                    rw (room, free)
                      (
                        refl,
                        record {
                          target = target;
                          in_bounds = b;
                          scoped = e;
                          room = below;
                          free = free;
                          left = refl;
                        },
                      )
              ]
        ]
    where
      not_leb : (m n : ℕ) → leb m n ≡ false → n < m
      not_leb m n h = ground arith

  -- `mint` refuses a file over the byte limit, then a target that the caller cannot write, then a
  -- caller whose live grants are at the cap, then a capability that is already there; otherwise it
  -- grants the capability, drops the rows that have expired and adds one row.
  pub mint_lem :
      (box : Box) (user : User) (declared : UploadRequest) (c now : ℕ)
      (rows : List (UploadCapability codec))
      → Explained box user declared c now rows (mint codec box user declared c now rows)
  unfolding mint
  mint_lem box user declared c now rows =
      elim (Bool-cases (ltb box.upload_byte_limit declared.size)) [
        | inl over ↦ rw over (ltb→lt box.upload_byte_limit declared.size over)
        | inr within ↦ rw within (
            stored_lem box user declared c now rows (write_scope user declared.scopes)
              (not_ltb box.upload_byte_limit declared.size within) refl)
      ]
    where
      not_ltb : (m n : ℕ) → ltb m n ≡ false → n ≤ m
      not_ltb m n h = ground arith

  pub granted-IsGrant :
      (box : Box) (user : User) (declared : UploadRequest) (c d now : ℕ)
      (rows after : List (UploadCapability codec))
      → mint codec box user declared c now rows ≡ granted d after
      → (d ≡ c) × IsGrant box user declared c now rows after
  granted-IsGrant box user declared c d now rows after e =
      subst (Explained box user declared c now rows) e (mint_lem box user declared c now rows)
