-- ===== src/Logto/Plan.antt =====
-- src/aizk/integrations/logto/policy.py: the plan of the changes that a tenant needs next. What the code
-- appends to one list is what each function here returns, in the same order.
use aizk.Base.{
  Bool, true, false, not, ◌&&◌, ◌||◌, Option, none, some, List, [], ◌∷◌, ◌++◌, Text, text_eq,
  one_of, first_of, starts_with, filter_by, find_by, map, ◌==◌, if◌then◌else◌,
}
use aizk.Logto.{
  is_user, Scope, Resource, Role, OrganizationRole, Managed, PolicySettings, Tenant, Change,
  create_resource, update_resource, create_scope, delete_role, create_role, update_role,
  grant_scopes, create_organization_scope, update_organization_scope, delete_organization_scope,
  create_organization_role, update_organization_role, grant_permissions, revoke_permission, says,
  same_flag, sorted, scope_named, role_named, organization_role_named, is_missing, managed_roles,
}

abbrev pub when : Bool → Change → List Change
when b c = if b then c ∷ [] else []

abbrev pub flat_map {ℓ} : {A : Type ℓ} → (A → List Change) → List A → List Change
flat_map f [] = []
flat_map f (x ∷ xs) = f x ++ flat_map f xs

abbrev pub own_resource : PolicySettings → Tenant → Option Resource
own_resource cfg t = find_by (λ (r : Resource). text_eq r.indicator cfg.mcp_resource_id) t.resources

-- `_resource`, for the resource that it finds.
abbrev pub resource_changes : PolicySettings → Option Resource → List Change
resource_changes cfg none = create_resource ∷ []
resource_changes cfg (some r) =
    when
      (not (text_eq r.name cfg.logto_api_name)
        || not (r.access_token_ttl == cfg.logto_api_token_seconds))
      (update_resource r.id)

abbrev pub missing_names : List Text → List Scope → List Text
missing_names names scopes = filter_by (λ (n : Text). is_missing (scope_named n scopes)) names

-- `[scopes[name].id for name in names]`, over names that are there.
abbrev pub id_or : Option Scope → List Text → List Text
id_or none rest = rest
id_or (some s) rest = s.id ∷ rest

abbrev pub ids_named : List Text → List Scope → List Text
ids_named [] scopes = []
ids_named (n ∷ ns) scopes = id_or (scope_named n scopes) (ids_named ns scopes)

-- `_resource_scopes`
abbrev pub scope_changes : PolicySettings → Tenant → Resource → List Change
scope_changes cfg t r =
    map (λ (n : Text). create_scope r.id n (cfg.logto_scope_descriptions n))
      (sorted (missing_names cfg.logto_required_scopes (t.resource_scopes r.id)))

abbrev pub required_ids : PolicySettings → Tenant → Resource → List Text
required_ids cfg t r = ids_named (sorted cfg.logto_required_scopes) (t.resource_scopes r.id)

abbrev pub scope_ids : List Scope → List Text
scope_ids scopes = map (λ (s : Scope). s.id) scopes

abbrev pub some_missing : List Text → Bool
some_missing [] = false
some_missing (n ∷ ns) = true

abbrev pub missing_ids : Tenant → Role → List Text → List Text
missing_ids t role required =
    filter_by (λ (i : Text). not (one_of i (scope_ids (t.role_scopes role.id)))) required

-- `_managed_role_drift`
abbrev pub role_drift : Tenant → List Text → Managed → Role → List Change
role_drift t required spec role =
    when
      (not (says role.description spec.description) || not (same_flag role.is_default spec.default))
      (update_role role.id spec)
    ++ when (some_missing (missing_ids t role required))
        (grant_scopes role.id (missing_ids t role required))

-- `_managed_role`
abbrev pub managed_role_changes : Tenant → List Text → Managed → Option Role → List Change
managed_role_changes t required spec none = create_role spec required ∷ []
managed_role_changes t required spec (some role) =
    if is_user role.kind then role_drift t required spec role else delete_role role.id ∷ []

abbrev pub is_ready : Option Role → Bool
is_ready none = true
is_ready (some role) = is_user role.kind

abbrev pub all_ready : List Managed → Tenant → Bool
all_ready [] t = true
all_ready (spec ∷ specs) t = is_ready (role_named spec.name t.roles) && all_ready specs t

abbrev pub owned_names : PolicySettings → List Text
owned_names cfg = map (λ (spec : Managed). spec.name) (managed_roles cfg)

abbrev pub is_obsolete : PolicySettings → Role → Bool
is_obsolete cfg role =
    is_user role.kind
    && (starts_with cfg.logto_managed_role_prefix role.name
        && not (one_of role.name (owned_names cfg)))

-- `_global_roles`: the owned roles, then the obsolete ones.
abbrev pub role_changes : PolicySettings → Tenant → List Text → List Change
role_changes cfg t required =
    flat_map
      (λ (spec : Managed). managed_role_changes t required spec (role_named spec.name t.roles))
      (managed_roles cfg)

abbrev pub obsolete_changes : PolicySettings → Tenant → List Change
obsolete_changes cfg t =
    map (λ (role : Role). delete_role role.id) (filter_by (is_obsolete cfg) t.roles)

-- `_organization_scopes`
abbrev pub create_missing : List Scope → Text × Text → List Change
create_missing scopes (name, description) =
    when (is_missing (scope_named name scopes)) (create_organization_scope name description)

abbrev pub described : Text → Option Scope → List Change
described description none = []
described description (some s) =
    when (not (says s.description description)) (update_organization_scope s.id description)

abbrev pub update_present : List Scope → Text × Text → List Change
update_present scopes (name, description) = described description (scope_named name scopes)

abbrev pub organization_scope_changes : PolicySettings → Tenant → List Change
organization_scope_changes cfg t =
    flat_map (create_missing t.organization_scopes) cfg.logto_organization_permissions
    ++ flat_map (update_present t.organization_scopes) cfg.logto_organization_permissions

abbrev pub permission_names : PolicySettings → List Text
permission_names cfg = map (λ (p : Text × Text). p.0) cfg.logto_organization_permissions

abbrev pub managed_names : PolicySettings → List Text
managed_names cfg = permission_names cfg ++ cfg.logto_retired_organization_permissions

abbrev pub unwanted_names : PolicySettings → OrganizationRole → List Text → List Text
unwanted_names cfg role wanted =
    filter_by (λ (n : Text). not (is_missing (scope_named n role.scopes)) && not (one_of n wanted))
      (managed_names cfg)

abbrev pub revoke : Text → Option Scope → List Change
revoke role_id none = []
revoke role_id (some s) = revoke_permission role_id s.id ∷ []

-- `_organization_role_scopes`
abbrev pub permission_changes : PolicySettings → Tenant → OrganizationRole → List Text → List Change
permission_changes cfg t role wanted =
    let missing = missing_names wanted role.scopes in
    when (some_missing missing)
      (grant_permissions role.id (ids_named (sorted missing) t.organization_scopes))
    ++ flat_map (λ (n : Text). revoke role.id (scope_named n role.scopes))
        (sorted (first_of [] (unwanted_names cfg role wanted)))

-- `_organization_role`
abbrev pub organization_role_changes :
    PolicySettings → Tenant → Text × Text → Option OrganizationRole → List Change
organization_role_changes cfg t (name, description) none =
    create_organization_role name description
      (ids_named (sorted (cfg.logto_role_permissions name)) t.organization_scopes)
    ∷ []
organization_role_changes cfg t (name, description) (some role) =
    when (not (says role.description description) || not (is_user role.kind))
      (update_organization_role role.id description)
    ++ permission_changes cfg t role (cfg.logto_role_permissions name)

-- `_organization_roles`
abbrev pub organization_changes : PolicySettings → Tenant → List Change
organization_changes cfg t =
    flat_map
      (λ (p : Text × Text).
        organization_role_changes cfg t p (organization_role_named p.0 t.organization_roles))
      cfg.logto_organization_roles

abbrev pub retire : Option Scope → List Change
retire none = []
retire (some s) = delete_organization_scope s.id ∷ []

-- `_retired_organization_scopes`
abbrev pub retired_changes : PolicySettings → Tenant → List Change
retired_changes cfg t =
    flat_map (λ (n : Text). retire (scope_named n t.organization_scopes))
      (sorted cfg.logto_retired_organization_permissions)

-- What follows when every managed permission of an organization is there.
abbrev pub after_organization_scopes : PolicySettings → Tenant → List Text → List Change
after_organization_scopes cfg t [] = organization_changes cfg t ++ retired_changes cfg t
after_organization_scopes cfg t (n ∷ ns) = []

abbrev pub after_roles : PolicySettings → Tenant → Bool → List Change
after_roles cfg t false = []
after_roles cfg t true =
    obsolete_changes cfg t
    ++ (organization_scope_changes cfg t
        ++ after_organization_scopes cfg t
            (missing_names (permission_names cfg) t.organization_scopes))

abbrev pub after_scopes : PolicySettings → Tenant → Resource → List Text → List Change
after_scopes cfg t r [] =
    role_changes cfg t (required_ids cfg t r) ++ after_roles cfg t (all_ready (managed_roles cfg) t)
after_scopes cfg t r (n ∷ ns) = []

abbrev pub after_resource : PolicySettings → Tenant → Option Resource → List Change
after_resource cfg t none = []
after_resource cfg t (some r) =
    scope_changes cfg t r
    ++ after_scopes cfg t r (missing_names cfg.logto_required_scopes (t.resource_scopes r.id))

-- `LogtoPolicy._plan`
unfoldable pub plan : PolicySettings → Tenant → List Change
plan cfg t = resource_changes cfg (own_resource cfg t) ++ after_resource cfg t (own_resource cfg t)
