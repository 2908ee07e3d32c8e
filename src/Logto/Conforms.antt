-- ===== src/Logto/Conforms.antt =====
-- src/aizk/integrations/logto/policy.py: a tenant that conforms to the policy, said without the plan.
use aizk.Base.{◌≡◌, ◌⊎◌, true, false, Option, none, some, List, Text, one_of, starts_with, All}
use aizk.Logto.{
  user, machine_to_machine, Scope, Resource, Role, OrganizationRole, Managed, PolicySettings,
  Tenant, scope_named, role_named, organization_role_named, managed_roles,
}
use aizk.Logto.Plan.{own_resource, required_ids, scope_ids, owned_names, managed_names}
use aizk.Logto.Empty.{Present}

-- A global role that the policy owns: for people, with its description, its flag and every permission.
abbrev pub OwnedRole : Tenant → List Text → Managed → Option Role → Type 0
OwnedRole t required spec none = ⊥
OwnedRole t required spec (some role) =
    (role.kind ≡ user)
    × (((role.description ≡ some spec.description) × (role.is_default ≡ spec.default))
        × All (λ (i : Text). one_of i (scope_ids (t.role_scopes role.id)) ≡ true) required)

-- A role that the policy leaves alone: a machine's, one without the prefix, or one that it owns.
abbrev pub Allowed : PolicySettings → Role → Type 0
Allowed cfg role =
    (role.kind ≡ machine_to_machine)
    ⊎ ((starts_with cfg.logto_managed_role_prefix role.name ≡ false)
        ⊎ (one_of role.name (owned_names cfg) ≡ true))

abbrev pub SaysOf : Text → Option Scope → Type 0
SaysOf description none = ⊥
SaysOf description (some s) = s.description ≡ some description

-- An organization permission stands with its description.
abbrev pub Permitted : List Scope → Text × Text → Type 0
Permitted scopes (name, description) = SaysOf description (scope_named name scopes)

abbrev pub Absent : Option Scope → Type 0
Absent none = Unit
Absent (some s) = ⊥

-- Every wanted permission, and no other managed one.
abbrev pub Granted : PolicySettings → List Scope → List Text → Type 0
Granted cfg scopes wanted =
    All (λ (n : Text). Present (scope_named n scopes)) wanted
    × All (λ (n : Text). Absent (scope_named n scopes) ⊎ (one_of n wanted ≡ true))
        (managed_names cfg)

abbrev pub OrganizationRoleStands : PolicySettings → Text × Text → Option OrganizationRole → Type 0
OrganizationRoleStands cfg (name, description) none = ⊥
OrganizationRoleStands cfg (name, description) (some role) =
    ((role.description ≡ some description) × (role.kind ≡ user))
    × Granted cfg role.scopes (cfg.logto_role_permissions name)

-- The permissions and roles of organizations, and no retired permission.
abbrev pub Organized : PolicySettings → Tenant → Type 0
Organized cfg t =
    All (Permitted t.organization_scopes) cfg.logto_organization_permissions
    × (All
          (λ (p : Text × Text).
            OrganizationRoleStands cfg p (organization_role_named p.0 t.organization_roles))
          cfg.logto_organization_roles
        × All (λ (n : Text). Absent (scope_named n t.organization_scopes))
            cfg.logto_retired_organization_permissions)

abbrev pub Staffed : PolicySettings → Tenant → List Text → Type 0
Staffed cfg t required =
    All (λ (spec : Managed). OwnedRole t required spec (role_named spec.name t.roles))
      (managed_roles cfg)
    × All (Allowed cfg) t.roles

abbrev pub ConformsWith : PolicySettings → Tenant → Option Resource → Type 0
ConformsWith cfg t none = ⊥
ConformsWith cfg t (some r) =
    ((r.name ≡ cfg.logto_api_name) × (r.access_token_ttl ≡ cfg.logto_api_token_seconds))
    × (All (λ (n : Text). Present (scope_named n (t.resource_scopes r.id)))
          cfg.logto_required_scopes
        × (Staffed cfg t (required_ids cfg t r) × Organized cfg t))

-- The tenant has the API resource, its permissions, the owned global roles, no obsolete one, the
-- permissions and roles of organizations, and no retired permission.
abbrev pub Conforms : PolicySettings → Tenant → Type 0
Conforms cfg t = ConformsWith cfg t (own_resource cfg t)
