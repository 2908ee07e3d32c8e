-- ===== src/Uploads/Live.antt =====
-- src/aizk/artifacts/uploads.py: the rows that any sequence of mints and claims can leave.
use aizk.Base.{
  ℕ, ◌+◌, ◌≤◌, ◌<◌, ◌≡◌, inl, inr, refl, ap, sym, ◌∙◌, subst, Bool, true, false, not, Bool-cases,
  List, [], ◌∷◌, ◌++◌, length, length-append, length-Subseq, filter_by-Subseq, ltb, ◌==◌, ==_iff,
  filter_by, if◌then◌else◌, arith,
}
use aizk.Identity.{IdentitySettings, User}
use aizk.Uploads.{
  UploadRequest, Codec, UploadCapability, Box, granted, still_live, held_by, new_row, mint, claim,
}
use aizk.Uploads.Rows.{
  of_capability, IsGrant, granted-IsGrant, filter_by-append, filter_by_comm, none_held,
}

module _ (codec : Codec) (cfg : IdentitySettings) (box : Box) where
  -- The tables that are reached from an empty one; a mint that fails rolls back.
  pub data Reach : List (UploadCapability codec) → Type 0 where
    empty : Reach []
    minted :
        {rows after : List (UploadCapability codec)} (user : User) (declared : UploadRequest)
        (c d now : ℕ)
        → Reach rows
        → mint codec box user declared c now rows ≡ granted d after
        → Reach after
    claimed :
        {rows : List (UploadCapability codec)} (c now : ℕ)
        → Reach rows
        → Reach (claim codec cfg c now rows).1

  pub record IsBounded (rows : List (UploadCapability codec)) : Type 0 where
    pub capped : (user_id : ℕ) → held_by codec user_id rows ≤ box.live_grants_per_caller
    pub single : (c : ℕ) → length (of_capability codec c rows) ≤ 1

  -- Fewer rows are within the bounds as well.
  fewer :
      (p : UploadCapability codec → Bool) (rows : List (UploadCapability codec))
      → IsBounded rows
      → IsBounded (filter_by p rows)
  fewer p rows h = record {
    capped = λ u.
        let q = λ (r : UploadCapability codec). r.created_by == u in
        let swapped = ap length (filter_by_comm q p rows) in
        let shorter = length-Subseq (filter_by-Subseq p (filter_by q rows)) in
        let bound = h.capped u in omega (arith, swapped, shorter, bound);
    single = λ c.
        let q = λ (r : UploadCapability codec). r.capability == c in
        let swapped = ap length (filter_by_comm q p rows) in
        let shorter = length-Subseq (filter_by-Subseq p (filter_by q rows)) in
        let bound = h.single c in omega (arith, swapped, shorter, bound);
  }

  held-add :
      (u : ℕ) (rows : List (UploadCapability codec)) (r : UploadCapability codec)
      → held_by codec u (rows ++ r ∷ [])
        ≡ held_by codec u rows + (if r.created_by == u then 1 else 0)
  held-add u rows r =
      ap length (filter_by-append (λ (x : UploadCapability codec). x.created_by == u) rows (r ∷ []))
      ∙ length-append (filter_by (λ (x : UploadCapability codec). x.created_by == u) rows)
          (filter_by (λ (x : UploadCapability codec). x.created_by == u) (r ∷ []))
      ∙ ap (λ n. held_by codec u rows + n) (one_row (r.created_by == u) r)
    where
      one_row :
          (b : Bool) (x : UploadCapability codec)
          → length (if b then x ∷ [] else []) ≡ (if b then 1 else 0)
      one_row true x = refl
      one_row false x = refl

  capped_after : (n m u v : ℕ) → n ≤ m → (v ≡ u → n < m) → n + (if v == u then 1 else 0) ≤ m
  capped_after n m u v h k = elim (Bool-cases (v == u)) [
    | inl e ↦ rw e (ground (arith, k (ground arith)))
    | inr e ↦ rw e (ground arith)
  ]

  granted-IsBounded :
      (user : User) (declared : UploadRequest) (c now : ℕ)
      (rows after : List (UploadCapability codec))
      → IsBounded rows
      → IsGrant codec box user declared c now rows after
      → IsBounded after
  granted-IsBounded user declared c now rows after h g =
      let live = still_live codec now rows in
      let new = new_row codec box user declared g.target c now in
      let k = fewer (λ (r : UploadCapability codec). not (ltb r.expires_at now)) rows h in
      subst IsBounded (sym g.left) (record {
        capped = λ u.
            subst (λ n. n ≤ box.live_grants_per_caller) (sym (held-add u live new))
              (capped_after (held_by codec u live) box.live_grants_per_caller u user.id (k.capped u)
                (λ e. subst (λ v. held_by codec v live < box.live_grants_per_caller) e g.room));
        single = λ x. one_of_each live new x (none_held codec c live g.free) (k.single x);
      })
    where
      one_of_each :
          (live : List (UploadCapability codec)) (new : UploadCapability codec) (x : ℕ)
          → of_capability codec new.capability live ≡ []
          → length (of_capability codec x live) ≤ 1
          → length (of_capability codec x (live ++ new ∷ [])) ≤ 1
      one_of_each live new x free few = elim (Bool-cases (new.capability == x)) [
        | inl e ↦
            let same = (==_iff new.capability x).0 e in
            let nothing = ap length (subst (λ c. of_capability codec c live ≡ []) same free) in
            rw
              (
                filter_by-append (λ (r : UploadCapability codec). r.capability == x) live
                    (new ∷ []),
                e,
              )
              (omega (arith, nothing, length-append (of_capability codec x live) (new ∷ [])))
        | inr e ↦
            rw
              (
                filter_by-append (λ (r : UploadCapability codec). r.capability == x) live
                    (new ∷ []),
                e,
              )
              (omega (arith, few, length-append (of_capability codec x live) []))
      ]

  -- In every table that mints and claims lead to, in any order, by any callers and at any moments, no
  -- caller holds more rows than the cap, and no capability has two rows.
  pub Reach-IsBounded : {rows : List (UploadCapability codec)} → Reach rows → IsBounded rows
  unfolding claim
  Reach-IsBounded empty = record { capped = λ u. omega arith; single = λ c. omega arith }
  Reach-IsBounded (minted {rows} {after} user declared c d now t e) =
      granted-IsBounded user declared c now rows after (Reach-IsBounded t)
        (granted-IsGrant codec box user declared c d now rows after e).1
  Reach-IsBounded (claimed {rows} c now t) =
      fewer (λ (r : UploadCapability codec). not (r.capability == c)) rows (Reach-IsBounded t)
