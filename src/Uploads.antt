-- ===== src/Uploads.antt =====
-- src/aizk/artifacts/uploads.py: upload capabilities that are minted by one process and redeemed
-- once by any other, over the rows of the table `upload_capability`.
pub mod Rows
pub mod Live
pub mod Redeem
pub mod Bodies
use aizk.Base.{
  ℕ, suc, ◌+◌, ◌*◌, Bool, true, false, not, ◌&&◌, ◌||◌, Option, none, some, List, [], ◌∷◌, ◌++◌,
  Text, length, leb, ltb, ◌==◌, text_eq, any_by, all_by, filter_by, map, if◌then◌else◌,
}
use aizk.Identity.{IdentitySettings, User, write_scope, authorized}

-- `UploadRequest`
pub record UploadRequest : Type 0 where
  pub filename : Text
  pub media_type : Text
  pub size : ℕ
  pub sha256 : Text
  pub scopes : Option (List Text)
  pub companion_text : Option Text

-- The bounds of the deployment, and what the conversion service accepts as a name and a type.
pub record Declarations : Type 0 where
  pub scope_names_max : ℕ
  pub companion_max_chars : ℕ
  pub is_safe : Text → Text → Bool
  pub is_readable : Text → Bool
  pub strip : Text → Text

abbrev pub is_hex : ℕ → Bool
is_hex c = (leb 48 c && leb c 57) || (leb 97 c && leb c 102)

-- `Sha256Hex`
abbrev pub is_sha256 : Text → Bool
is_sha256 t = (length t == 64) && all_by is_hex t

abbrev pub companion_length : Option Text → ℕ
companion_length none = 0
companion_length (some text) = length text

abbrev pub is_named : Text → Bool
is_named t = ltb 0 (length t)

abbrev pub at_most : ℕ → Option (List Text) → Bool
at_most limit none = true
at_most limit (some names) = leb (length names) limit && all_by is_named names

abbrev pub stripped : (Text → Text) → Option (List Text) → Option (List Text)
stripped strip none = none
stripped strip (some names) = some (map strip names)

-- Validation: `none` when the declaration is refused.
unfoldable pub validated : Declarations → UploadRequest → Option UploadRequest
validated d r =
    if is_named (d.strip r.filename)
      && (is_named (d.strip r.media_type)
          && (ltb 0 r.size
              && (is_sha256 r.sha256
                  && (at_most d.scope_names_max (stripped d.strip r.scopes)
                      && (leb (companion_length r.companion_text) d.companion_max_chars
                          && (d.is_safe (d.strip r.filename) (d.strip r.media_type)
                              && d.is_readable (d.strip r.media_type)))))))
    then some (record {
      filename = d.strip r.filename;
      media_type = d.strip r.media_type;
      size = r.size;
      sha256 = r.sha256;
      scopes = stripped d.strip r.scopes;
      companion_text = r.companion_text;
    })
    else none

pub record UploadTicket : Type 0 where
  pub user : User
  pub declared : UploadRequest
  pub target : List ℕ

-- What a row keeps of the caller that minted it.
pub record TicketRecord : Type 0 where
  pub user_id : ℕ
  pub name : Option Text
  pub username : Option Text
  pub target : List ℕ
  pub declared : UploadRequest

abbrev pub packed : User → UploadRequest → List ℕ → TicketRecord
packed user declared target = record {
  user_id = user.id;
  name = user.name;
  username = user.username;
  target = target;
  declared = declared;
}

unfoldable pub restore : IdentitySettings → TicketRecord → UploadTicket
restore cfg r = record {
  user =
      authorized cfg r.user_id
        (record { read_scopes = r.target; write_scopes = r.target; public_scopes = [] }) none r.name
        r.username [] [];
  declared = r.declared;
  target = r.target;
}

-- How a ticket is written into a row and validated when it is read: pydantic's.
pub record Codec : Type 1 where
  pub Json : Type 0
  pub dump : TicketRecord → Json
  pub validate : Json → Option TicketRecord

module _ (codec : Codec) where
  -- A row of `upload_capability`.
  pub record UploadCapability : Type 0 where
    pub capability : ℕ
    pub created_by : ℕ
    pub ticket : codec.Json
    pub expires_at : ℕ

-- The settings of a box, in the unit of its clock.
pub record Box : Type 0 where
  pub upload_byte_limit : ℕ
  pub ttl : ℕ
  pub live_grants_per_caller : ℕ

pub data MintError : Type 0 where
  too_large no_scope too_many_grants capability_taken : MintError

module _ (codec : Codec) where
  pub data Minted : Type 0 where
    refused_grant : MintError → Minted
    -- the capability, and the rows after the transaction
    granted : ℕ → List (UploadCapability codec) → Minted

  abbrev pub still_live : ℕ → List (UploadCapability codec) → List (UploadCapability codec)
  still_live now rows = filter_by (λ (r : UploadCapability codec). not (ltb r.expires_at now)) rows

  abbrev pub held_by : ℕ → List (UploadCapability codec) → ℕ
  held_by user_id rows =
      length (filter_by (λ (r : UploadCapability codec). r.created_by == user_id) rows)

  abbrev pub has_capability : ℕ → List (UploadCapability codec) → Bool
  has_capability c rows = any_by (λ (r : UploadCapability codec). r.capability == c) rows

  abbrev pub new_row : Box → User → UploadRequest → List ℕ → ℕ → ℕ → UploadCapability codec
  new_row box user declared target capability now = record {
    capability = capability;
    created_by = user.id;
    ticket = codec.dump (packed user declared target);
    expires_at = now + box.ttl;
  }

  -- The transaction of `mint`, in which any error leaves the rows as they were.
  abbrev pub stored :
      Box → User → UploadRequest → ℕ → ℕ → List (UploadCapability codec) → Option (List ℕ) → Minted
  stored box user declared capability now rows none = refused_grant no_scope
  stored box user declared capability now rows (some target) =
      let live = still_live now rows in
      if leb box.live_grants_per_caller (held_by user.id live)
      then refused_grant too_many_grants
      else if has_capability capability live
      then refused_grant capability_taken
      else granted capability (live ++ new_row box user declared target capability now ∷ [])

  -- `mint`, with the random token and the clock as arguments.
  unfoldable pub mint : Box → User → UploadRequest → ℕ → ℕ → List (UploadCapability codec) → Minted
  mint box user declared capability now rows =
      if ltb box.upload_byte_limit declared.size
      then refused_grant too_large
      else stored box user declared capability now rows (write_scope user declared.scopes)

  pub data Claimed : Type 0 where
    unknown_or_used expired invalid_ticket : Claimed
    ticket_of : UploadTicket → Claimed

  abbrev pub first_row : List (UploadCapability codec) → Option (UploadCapability codec)
  first_row [] = none
  first_row (r ∷ rs) = some r

  abbrev pub restored : IdentitySettings → Option TicketRecord → Claimed
  restored cfg none = invalid_ticket
  restored cfg (some r) = ticket_of (restore cfg r)

  abbrev pub redeemed : IdentitySettings → ℕ → Option (UploadCapability codec) → Claimed
  redeemed cfg now none = unknown_or_used
  redeemed cfg now (some r) =
      if ltb r.expires_at now then expired else restored cfg (codec.validate r.ticket)

  abbrev pub without : ℕ → List (UploadCapability codec) → List (UploadCapability codec)
  without c rows = filter_by (λ (r : UploadCapability codec). not (r.capability == c)) rows

  -- `claim`: the row is gone whatever the answer is.
  unfoldable pub claim :
      IdentitySettings
      → ℕ
      → ℕ
      → List (UploadCapability codec)
      → Claimed × List (UploadCapability codec)
  claim cfg capability now rows = (
    redeemed cfg now
        (first_row (filter_by (λ (r : UploadCapability codec). r.capability == capability) rows)),
    without capability rows,
  )

-- `gather`: the chunks of a body, `none` once they pass the budget.
abbrev pub gathered : List ℕ → List (List ℕ) → ℕ → Option (List ℕ)
gathered received [] budget = some received
gathered received (chunk ∷ chunks) budget =
    let rest = gathered (received ++ chunk) chunks budget in
    if ltb budget (length received + length chunk) then none else rest

unfoldable pub gather : List (List ℕ) → ℕ → Option (List ℕ)
gather chunks budget = gathered [] chunks budget

pub record Artifact : Type 0 where
  pub content : List ℕ
  pub filename : Text
  pub media_type : Text

-- What the intake is called with, or why it is not.
pub data Delivery : Type 0 where
  wrong_size wrong_hash : Delivery
  accepted : User → Artifact → List ℕ → Option Text → Delivery

-- `deliver`; the digest is the library's.
unfoldable pub deliver : (List ℕ → Text) → UploadTicket → List ℕ → Delivery
deliver sha256 ticket content =
    if not (length content == ticket.declared.size)
    then wrong_size
    else if not (text_eq (sha256 content) ticket.declared.sha256)
    then wrong_hash
    else accepted ticket.user
        (record {
          content = content;
          filename = ticket.declared.filename;
          media_type = ticket.declared.media_type;
        })
        ticket.target ticket.declared.companion_text

-- `receive_upload` of src/aizk/api/app.py: the answer to one PUT.
pub data Received : Type 0 where
  not_claimed over_budget : Received
  delivered : Delivery → Received

module _ (codec : Codec) (sha256 : List ℕ → Text) where
  abbrev pub body_of : UploadTicket → Option (List ℕ) → Received
  body_of ticket none = over_budget
  body_of ticket (some content) = delivered (deliver sha256 ticket content)

  abbrev pub answered : List (List ℕ) → Claimed codec → Received
  answered chunks (ticket_of ticket) = body_of ticket (gather chunks ticket.declared.size)
  answered chunks _ = not_claimed

  unfoldable pub receive_upload :
      IdentitySettings
      → ℕ
      → List (List ℕ)
      → ℕ
      → List (UploadCapability codec)
      → Received × List (UploadCapability codec)
  receive_upload cfg capability chunks now rows =
      let (got, left) = claim codec cfg capability now rows in (answered chunks got, left)
