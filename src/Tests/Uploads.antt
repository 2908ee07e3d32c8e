-- ===== src/Tests/Uploads.antt =====
-- A grant, what happens meanwhile, and its redemption.
use aizk.Base.{ℕ, ◌≡◌, refl, true, none, some, List, [], ◌∷◌, codes, arith}
use aizk.Identity.{IdentitySettings, User, authorized, covers, write_scope}
use aizk.Uploads.{
  UploadRequest, UploadTicket, TicketRecord, Codec, UploadCapability, Box, granted, refused_grant,
  too_many_grants, unknown_or_used, ticket_of, packed, mint, claim, receive_upload,
}
use aizk.Uploads.Live.{Reach, empty, IsBounded, Reach-IsBounded}
use aizk.Uploads.Redeem.{Meanwhile, nothing_yet, mint-claim, claim_once}
use aizk.Uploads.Bodies.{Explains, receive_upload_lem}

-- A row that keeps the record as it is.
abbrev codec : Codec
codec = record { Json = TicketRecord; dump = λ r. r; validate = λ r. some r }

abbrev ids : IdentitySettings
ids = record {
  anonymous_user_id = 0;
  system_user_id = 1;
  reports_scope_id = 2;
  admin_role = codes "admin";
}

abbrev box : Box
box = record { upload_byte_limit = 100; ttl = 10; live_grants_per_caller = 2 }

abbrev user : User
user =
    authorized ids 7
      (record { read_scopes = 7 ∷ 9 ∷ []; write_scopes = 7 ∷ 9 ∷ []; public_scopes = [] }) none
      (some (codes "Ada")) none [] (record { id = 9; name = codes "harbour"; writable = true } ∷ [])

abbrev declared : UploadRequest
declared = record {
  filename = codes "tides.pdf";
  media_type = codes "application/pdf";
  size = 3;
  sha256 = codes "same";
  scopes = some (codes "harbour" ∷ []);
  companion_text = none;
}

abbrev row : ℕ → ℕ → UploadCapability codec
row c expires = record {
  capability = c;
  created_by = 7;
  ticket = packed user declared (9 ∷ []);
  expires_at = expires;
}

granted_first : mint codec box user declared 40 100 [] ≡ granted 40 (row 40 110 ∷ [])
unfolding mint write_scope
granted_first = refl

granted_second :
    mint codec box user declared 41 105 (row 40 110 ∷ [])
    ≡ granted 41 (row 40 110 ∷ row 41 115 ∷ [])
unfolding mint write_scope
granted_second = refl

refused_third :
    mint codec box user declared 42 106 (row 40 110 ∷ row 41 115 ∷ [])
    ≡ refused_grant too_many_grants
unfolding mint write_scope
refused_third = refl

abbrev waiting : List (UploadCapability codec)
waiting = row 40 110 ∷ row 41 115 ∷ []

meanwhile : Meanwhile codec ids box 40 110 (row 40 110 ∷ []) waiting
meanwhile =
    Meanwhile.minted user declared 41 41 105 nothing_yet (λ e. omega (arith, e)) (omega arith)
      granted_second

mint-claim_example :
    (target : List ℕ) × (write_scope user (some (codes "harbour" ∷ [])) ≡ some target)
    × (covers user.scopes.write_scopes target ≡ true)
    × (ticket : UploadTicket) × ((claim codec ids 40 109 waiting).0 ≡ ticket_of ticket)
    × (ticket.declared ≡ declared)
    × (ticket.target ≡ target)
    × (ticket.user.id ≡ user.id)
    × (ticket.user.scopes.write_scopes ≡ target)
    × (ticket.user.scopes.read_scopes ≡ target)
    × (ticket.user.scopes.public_scopes ≡ [])
mint-claim_example =
    mint-claim codec ids box user declared 40 40 100 109 [] (row 40 110 ∷ []) waiting (λ r. refl)
      granted_first meanwhile (omega arith)

claim_once_example : (claim codec ids 40 110 (claim codec ids 40 109 waiting).1).0 ≡ unknown_or_used
claim_once_example =
    claim_once codec ids box 40 109 110 110 waiting (claim codec ids 40 109 waiting).1 nothing_yet

Reach-IsBounded_example : IsBounded codec ids box waiting
Reach-IsBounded_example = Reach-IsBounded codec ids box (
    Reach.minted user declared 41 41 105 (Reach.minted user declared 40 40 100 empty granted_first)
      granted_second)

receive_upload_lem_example :
    Explains codec
      (λ body. codes "same")
      ids
      40
      109
      ((1 ∷ 2 ∷ []) ∷ (3 ∷ []) ∷ [])
      waiting
      (receive_upload codec
        (λ body. codes "same")
        ids
        40
        ((1 ∷ 2 ∷ []) ∷ (3 ∷ []) ∷ [])
        109
        waiting).0
receive_upload_lem_example =
    receive_upload_lem codec (λ body. codes "same") ids 40 ((1 ∷ 2 ∷ []) ∷ (3 ∷ []) ∷ []) 109
      waiting
