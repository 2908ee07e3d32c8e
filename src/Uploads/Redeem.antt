-- ===== src/Uploads/Redeem.antt =====
-- src/aizk/artifacts/uploads.py, src/aizk/api/app.py: what a capability is good for, and how often.
use aizk.Base.{
  append_nil, ℕ, ◌+◌, ◌≤◌, ◌≡◌, ◌≢◌, inl, inr, refl, ap, ◌∙◌, Bool, true, false, not, Bool-cases,
  Option, none, some, List, [], ◌∷◌, ◌++◌, Text, ltb, ◌==◌, ==_iff, ==_refl, if◌then◌else◌, arith,
}
use aizk.Identity.{IdentitySettings, User, covers, covered, named_target, write_scope}
use aizk.Uploads.{
  UploadRequest, UploadTicket, TicketRecord, Codec, UploadCapability, Box, granted, unknown_or_used,
  ticket_of, still_live, new_row, mint, first_row, redeemed, packed, restore, claim,
}
use aizk.Uploads.Rows.{
  of_capability, IsGrant, granted-IsGrant, filter_by-append, filter_by_comm, none_held,
  without-other, without-same,
}

covered-covers :
    (u : User) (o : Option (List ℕ)) (target : List ℕ)
    → covered u o ≡ some target
    → covers u.scopes.write_scopes target ≡ true
covered-covers u none target e = cc
covered-covers u (some names) target e = elim (Bool-cases (covers u.scopes.write_scopes names)) [
  | inl b ↦ ground arith
  | inr b ↦ ground arith
]

-- A target that was resolved is one that the caller may write.
pub write_scope-covers :
    (u : User) (names : Option (List Text)) (target : List ℕ)
    → write_scope u names ≡ some target
    → covers u.scopes.write_scopes target ≡ true
unfolding write_scope
write_scope-covers u names target e = covered-covers u (named_target u names) target e

module _ (codec : Codec) (cfg : IdentitySettings) (box : Box) where
  -- What may happen while a capability waits, up to a moment: grants of other capabilities, which
  -- sweep away what has expired, and claims of other capabilities.
  pub data Meanwhile (c limit : ℕ) (from : List (UploadCapability codec))
      : List (UploadCapability codec) → Type 0 where
    nothing_yet : Meanwhile c limit from from
    minted :
        {rows after : List (UploadCapability codec)} (user : User) (declared : UploadRequest)
        (d e now : ℕ)
        → Meanwhile c limit from rows
        → d ≢ c
        → now ≤ limit
        → mint codec box user declared d now rows ≡ granted e after
        → Meanwhile c limit from after
    claimed :
        {rows : List (UploadCapability codec)} (d now : ℕ)
        → Meanwhile c limit from rows
        → d ≢ c
        → Meanwhile c limit from (claim codec cfg d now rows).1

  -- A sweep keeps a row that has not expired.
  swept_one :
      (now limit : ℕ) (r : UploadCapability codec)
      → now ≤ limit
      → r.expires_at ≡ limit
      → still_live codec now (r ∷ []) ≡ r ∷ []
  swept_one now limit r h e = elim (Bool-cases (ltb r.expires_at now)) [
    | inl b ↦ ground arith
    | inr b ↦ simp b
  ]

  granted_other :
      (c : ℕ) (user : User) (declared : UploadRequest) (d now : ℕ)
      (rows after : List (UploadCapability codec))
      → d ≢ c
      → IsGrant codec box user declared d now rows after
      → of_capability codec c after ≡ still_live codec now (of_capability codec c rows)
  granted_other c user declared d now rows after h g =
      let live = still_live codec now rows in
      let new = new_row codec box user declared g.target d now in
      ap (of_capability codec c) g.left
      ∙ filter_by-append (λ (r : UploadCapability codec). r.capability == c) live (new ∷ [])
      ∙ ap (λ t. of_capability codec c live ++ t) (not_this (d == c) refl new)
      ∙ append_nil (of_capability codec c live)
      ∙ filter_by_comm (λ (r : UploadCapability codec). r.capability == c)
          (λ (r : UploadCapability codec). not (ltb r.expires_at now)) rows
    where
      not_this :
          (b : Bool) → (d == c) ≡ b → (r : UploadCapability codec) → (if b then r ∷ [] else []) ≡ []
      not_this true e r = elim (h ((==_iff d c).0 e)) [ ]
      not_this false e r = refl

  stays_one :
      (c limit : ℕ) (r : UploadCapability codec) {from rows : List (UploadCapability codec)}
      → r.expires_at ≡ limit
      → of_capability codec c from ≡ r ∷ []
      → Meanwhile c limit from rows
      → of_capability codec c rows ≡ r ∷ []
  unfolding claim
  stays_one c limit r e h nothing_yet = h
  stays_one c limit r e h (minted {rows} {after} user declared d d' now t other before ok) =
      granted_other c user declared d now rows after other
        (granted-IsGrant codec box user declared d d' now rows after ok).1
      ∙ ap (still_live codec now) (stays_one c limit r e h t)
      ∙ swept_one now limit r before e
  stays_one c limit r e h (claimed {rows} d now t other) =
      without-other codec c d rows other ∙ stays_one c limit r e h t

  stays_none :
      (c limit : ℕ) {from rows : List (UploadCapability codec)}
      → of_capability codec c from ≡ []
      → Meanwhile c limit from rows
      → of_capability codec c rows ≡ []
  unfolding claim
  stays_none c limit h nothing_yet = h
  stays_none c limit h (minted {rows} {after} user declared d d' now t other before ok) =
      granted_other c user declared d now rows after other
        (granted-IsGrant codec box user declared d d' now rows after ok).1
      ∙ ap (still_live codec now) (stays_none c limit h t)
  stays_none c limit h (claimed {rows} d now t other) =
      without-other codec c d rows other ∙ stays_none c limit h t

  -- Once a capability has been claimed, with whatever answer, a later claim of it finds nothing, as
  -- long as the same capability is not minted anew.
  pub claim_once :
      (c now later limit : ℕ) (before rows : List (UploadCapability codec))
      → Meanwhile c limit (claim codec cfg c now before).1 rows
      → (claim codec cfg c later rows).0 ≡ unknown_or_used
  unfolding claim
  claim_once c now later limit before rows t =
      ap (λ found. redeemed codec cfg later (first_row codec found))
        (stays_none c limit (without-same codec c before) t)

  fresh_row :
      (user : User) (declared : UploadRequest) (c now : ℕ)
      (rows after : List (UploadCapability codec))
      (g : IsGrant codec box user declared c now rows after)
      → of_capability codec c after ≡ new_row codec box user declared g.target c now ∷ []
  fresh_row user declared c now rows after g =
      let live = still_live codec now rows in
      let new = new_row codec box user declared g.target c now in
      ap (of_capability codec c) g.left
      ∙ filter_by-append (λ (r : UploadCapability codec). r.capability == c) live (new ∷ [])
      ∙ ap (λ t. t ++ of_capability codec c (new ∷ [])) (none_held codec c live g.free)
      ∙ this (c == c) (==_refl c) new
    where
      this :
          (b : Bool) → b ≡ true → (r : UploadCapability codec) → (if b then r ∷ [] else []) ≡ r ∷ []
      this true e r = refl
      this false e r = cc

  redeemed_live :
      (t limit : ℕ) (r : UploadCapability codec) (ticket : TicketRecord)
      → t ≤ limit
      → r.expires_at ≡ limit
      → codec.validate r.ticket ≡ some ticket
      → redeemed codec cfg t (some r) ≡ ticket_of (restore cfg ticket)
  redeemed_live t limit r ticket h e v = elim (Bool-cases (ltb r.expires_at t)) [
    | inl b ↦ ground arith
    | inr b ↦ rw (b, v) refl
  ]

  -- A granted capability, claimed before it expires, after any grants and claims of others, gives back
  -- the declaration and the target that was authorized, for a caller with the minter's identifier whose
  -- scopes for reading and for writing are exactly that target and who has no public scope; and the
  -- minter could write all of that target. It rests on the row's ticket being read back as it was
  -- written.
  pub mint-claim :
      (user : User) (declared : UploadRequest) (c d now t : ℕ)
      (before after rows : List (UploadCapability codec))
      → ((r : TicketRecord) → codec.validate (codec.dump r) ≡ some r)
      → mint codec box user declared c now before ≡ granted d after
      → Meanwhile c (now + box.ttl) after rows
      → t ≤ now + box.ttl
      → (target : List ℕ) × (write_scope user declared.scopes ≡ some target)
        × (covers user.scopes.write_scopes target ≡ true)
        × (ticket : UploadTicket) × ((claim codec cfg c t rows).0 ≡ ticket_of ticket)
        × (ticket.declared ≡ declared)
        × (ticket.target ≡ target)
        × (ticket.user.id ≡ user.id)
        × (ticket.user.scopes.write_scopes ≡ target)
        × (ticket.user.scopes.read_scopes ≡ target)
        × (ticket.user.scopes.public_scopes ≡ [])
  unfolding claim restore
  mint-claim user declared c d now t before after rows codec_law e quiet in_time =
      let (same, g) = granted-IsGrant codec box user declared c d now before after e in
      let new = new_row codec box user declared g.target c now in
      let kept =
        stays_one c (now + box.ttl) new refl (fresh_row user declared c now before after g) quiet in
      (
        g.target,
        g.scoped,
        write_scope-covers user declared.scopes g.target g.scoped,
        restore cfg (packed user declared g.target),
        (ap (λ found. redeemed codec cfg t (first_row codec found)) kept
            ∙ redeemed_live t (now + box.ttl) new (packed user declared g.target) in_time refl
                (codec_law (packed user declared g.target))),
        refl,
        refl,
        refl,
        refl,
        refl,
        refl,
      )
