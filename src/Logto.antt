-- ===== src/Logto.antt =====
-- src/aizk/integrations/logto/policy.py: the rows that the Management API of a tenant answers with, the
-- settings of the policy, and the changes that a plan holds. The sets of the settings are lists, and
-- `sorted` orders texts by their code points.
pub mod Plan
pub mod Apply
pub mod Empty
pub mod Conforms
pub mod Stages
pub mod Permissions
pub mod Audit
pub mod Rightful
pub mod Safety
use aizk.Base.{
  ℕ, Bool, true, false, not, ◌&&◌, ◌||◌, Option, none, some, List, [], ◌∷◌, Text, text_eq, any_by,
  ltb, ◌==◌, sort_by, codes, if◌then◌else◌,
}

pub data RoleType : Type 0 where
  user : RoleType
  machine_to_machine : RoleType

-- `_Scope`, `_Resource`, `_Role` and `_OrganizationRole`
pub record Scope : Type 0 where
  pub id : Text
  pub name : Text
  pub description : Option Text

pub record Resource : Type 0 where
  pub id : Text
  pub name : Text
  pub indicator : Text
  pub access_token_ttl : ℕ

pub record Role : Type 0 where
  pub id : Text
  pub name : Text
  pub description : Option Text
  pub kind : RoleType
  pub is_default : Bool

pub record OrganizationRole : Type 0 where
  pub id : Text
  pub name : Text
  pub description : Option Text
  pub kind : RoleType
  pub scopes : List Scope

-- `_Managed`
pub record Managed : Type 0 where
  pub name : Text
  pub description : Text
  pub label : Text
  pub default : Bool

pub record PolicySettings : Type 0 where
  pub mcp_resource_id : Text
  pub logto_api_name : Text
  pub logto_api_token_seconds : ℕ
  pub logto_required_scopes : List Text
  pub logto_scope_descriptions : Text → Text
  pub logto_user_role : Text
  pub logto_user_role_description : Text
  pub logto_admin_role : Text
  pub logto_admin_role_description : Text
  pub logto_managed_role_prefix : Text
  pub logto_organization_permissions : List (Text × Text)
  pub logto_retired_organization_permissions : List Text
  pub logto_organization_roles : List (Text × Text)
  pub logto_role_permissions : Text → List Text

-- What the pages of the Management API hold while a plan reads them.
pub record Tenant : Type 0 where
  pub resources : List Resource
  pub resource_scopes : Text → List Scope
  pub roles : List Role
  pub role_scopes : Text → List Scope
  pub organization_scopes : List Scope
  pub organization_roles : List OrganizationRole

-- `_Change`: one constructor for each method and path, with the identifiers in the path and the payload.
pub data Change : Type 0 where
  create_resource : Change
  update_resource : Text → Change
  create_scope : Text → Text → Text → Change
  delete_role : Text → Change
  create_role : Managed → List Text → Change
  update_role : Text → Managed → Change
  grant_scopes : Text → List Text → Change
  create_organization_scope : Text → Text → Change
  update_organization_scope : Text → Text → Change
  delete_organization_scope : Text → Change
  create_organization_role : Text → Text → List Text → Change
  update_organization_role : Text → Text → Change
  grant_permissions : Text → List Text → Change
  revoke_permission : Text → Text → Change

abbrev pub is_user : RoleType → Bool
is_user user = true
is_user machine_to_machine = false

-- Python's `==` of an optional text and a text.
abbrev pub says : Option Text → Text → Bool
says none t = false
says (some s) t = text_eq s t

abbrev pub same_flag : Bool → Bool → Bool
same_flag true b = b
same_flag false b = not b

-- Python's `sorted` of texts.
abbrev pub text_before : Text → Text → Bool
text_before [] t = true
text_before (c ∷ s) [] = false
text_before (c ∷ s) (d ∷ t) = ltb c d || (c == d) && text_before s t

abbrev pub sorted : List Text → List Text
sorted ts = sort_by text_before ts

abbrev pub or_earlier {ℓ} : {A : Type ℓ} → Option A → Option A → Option A
or_earlier (some a) earlier = some a
or_earlier none earlier = earlier

-- `{item.name: item for item in items}.get(name)`: the last of that name.
abbrev pub last_by {ℓ} : {A : Type ℓ} → (A → Bool) → List A → Option A
last_by p [] = none
last_by p (x ∷ xs) = or_earlier (last_by p xs) (if p x then some x else none)

abbrev pub scope_named : Text → List Scope → Option Scope
scope_named name scopes = last_by (λ (s : Scope). text_eq s.name name) scopes

abbrev pub role_named : Text → List Role → Option Role
role_named name roles = last_by (λ (r : Role). text_eq r.name name) roles

abbrev pub organization_role_named : Text → List OrganizationRole → Option OrganizationRole
organization_role_named name roles = last_by (λ (r : OrganizationRole). text_eq r.name name) roles

abbrev pub is_missing {ℓ} : {A : Type ℓ} → Option A → Bool
is_missing none = true
is_missing (some a) = false

-- `_managed_roles`
abbrev pub managed_roles : PolicySettings → List Managed
managed_roles cfg =
    record {
      name = cfg.logto_user_role;
      description = cfg.logto_user_role_description;
      label = codes "default user role";
      default = true;
    }
    ∷ record {
      name = cfg.logto_admin_role;
      description = cfg.logto_admin_role_description;
      label = codes "operator role";
      default = false;
    }
    ∷ []
