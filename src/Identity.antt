-- ===== src/Identity.antt =====
-- src/aizk/store/identity/user.py: a caller and the scopes it may read and write. A scope is an
-- identifier, and a set of scopes a list of them.
use aizk.Base.{
  ℕ, Bool, Option, none, some, List, [], ◌∷◌, Text, map, all_by, elem, text_eq, one_of, ◌==◌,
  if◌then◌else◌,
}

-- `OrganizationStanding`, less what is only shown.
pub record Organization : Type 0 where
  pub id : ℕ
  pub name : Text
  pub writable : Bool

pub record ScopeTable : Type 0 where
  pub read_scopes : List ℕ
  pub write_scopes : List ℕ
  pub public_scopes : List ℕ

-- The settings that an identity reads.
pub record IdentitySettings : Type 0 where
  pub anonymous_user_id : ℕ
  pub system_user_id : ℕ
  pub reports_scope_id : ℕ
  pub admin_role : Text

pub record User : Type 0 where
  pub id : ℕ
  pub name : Option Text
  pub username : Option Text
  pub roles : List Text
  pub operator : Bool
  pub scopes : ScopeTable
  pub organizations : List Organization

abbrev pub or_else : Option Text → Option Text → Option Text
or_else none label = label
or_else (some []) label = label
or_else (some (c ∷ cs)) label = some (c ∷ cs)

module _ (cfg : IdentitySettings) where
  abbrev pub is_operator : List Text → Bool
  is_operator roles = one_of cfg.admin_role roles

  abbrev pub authorized :
      ℕ
      → ScopeTable
      → Option Text
      → Option Text
      → Option Text
      → List Text
      → List Organization
      → User
  authorized user_id table label name username roles organizations = record {
    id = user_id;
    name = or_else name label;
    username = username;
    roles = roles;
    operator = is_operator roles;
    scopes = table;
    organizations =
        map
          (λ (o : Organization). record {
            id = o.id;
            name = o.name;
            writable = elem o.id table.write_scopes;
          })
          organizations;
  }

  -- A caller with one set of scopes for reading and writing, and nothing else.
  abbrev pub standing : ℕ → List ℕ → User
  standing user_id key =
      authorized user_id (record { read_scopes = key; write_scopes = key; public_scopes = [] }) none
        none none [] []

  abbrev pub private : ℕ → User
  private user_id = standing user_id (if user_id == cfg.anonymous_user_id then [] else user_id ∷ [])

  abbrev pub or_system : List ℕ → List ℕ
  or_system [] = cfg.system_user_id ∷ []
  or_system (s ∷ ss) = s ∷ ss

  abbrev pub system : List ℕ → User
  system scopes = standing cfg.system_user_id (or_system scopes)

  abbrev pub is_anonymous : User → Bool
  is_anonymous u = u.id == cfg.anonymous_user_id

  -- `report_scope`, whose refusal is `none`.
  abbrev pub report_scope : User → Option (List ℕ)
  report_scope u =
      if elem cfg.reports_scope_id u.scopes.write_scopes
      then some (cfg.reports_scope_id ∷ [])
      else none

-- `organization_ids.get(name)`: of two organizations of one name the later counts.
abbrev pub later : Option ℕ → Option ℕ → Option ℕ
later (some i) here = some i
later none here = here

abbrev pub organization_id : Text → List Organization → Option ℕ
organization_id name [] = none
organization_id name (o ∷ os) =
    later (organization_id name os) (if text_eq o.name name then some o.id else none)

abbrev pub and_then : Option ℕ → Option (List ℕ) → Option (List ℕ)
and_then none rest = none
and_then (some i) none = none
and_then (some i) (some is) = some (i ∷ is)

abbrev pub resolved : List Organization → List Text → Option (List ℕ)
resolved os [] = some []
resolved os (name ∷ names) = and_then (organization_id name os) (resolved os names)

abbrev pub named_target : User → Option (List Text) → Option (List ℕ)
named_target u none = some (u.id ∷ [])
named_target u (some []) = some (u.id ∷ [])
named_target u (some (name ∷ names)) = resolved u.organizations (name ∷ names)

abbrev pub covers : List ℕ → List ℕ → Bool
covers held target = all_by (λ s. elem s held) target

abbrev pub covered : User → Option (List ℕ) → Option (List ℕ)
covered u none = none
covered u (some target) = if covers u.scopes.write_scopes target then some target else none

-- `write_scope`: `none` is the `ScopeNotFoundError` of a name that is not there or not writable.
unfoldable pub write_scope : User → Option (List Text) → Option (List ℕ)
write_scope u names = covered u (named_target u names)
