-- ===== src/Logto/Safety.antt =====
-- src/aizk/integrations/logto/policy.py: what a whole plan takes away from a tenant.
use aizk.Base.{
  ◌≡◌, refl, sym, subst, Bool, true, false, not, ◌&&◌, Option, none, some, List, [], ◌∷◌, ◌++◌,
  Text, text_eq, text_eq_iff, one_of, first_of, In, In-filter_by, All, All-In, All-of_In, All-map,
  All-append, All-sort_by,
}
use aizk.Logto.{
  Scope, Resource, OrganizationRole, Managed, PolicySettings, Tenant, create_scope, text_before,
  sorted, scope_named, role_named, organization_role_named, is_missing, managed_roles,
}
use aizk.Logto.Plan.{
  own_resource, resource_changes, missing_names, scope_changes, required_ids, managed_role_changes,
  all_ready, role_changes, obsolete_changes, create_missing, described, update_present,
  organization_scope_changes, permission_names, managed_names, unwanted_names, revoke,
  permission_changes, organization_role_changes, organization_changes, retire, retired_changes,
  after_organization_scopes, after_roles, after_scopes, after_resource, plan,
}
use aizk.Logto.Permissions.{All-first_of}
use aizk.Logto.Rightful.{
  Rightful, last_by-In, All-flat_map, All-when, one_of-In, owned_role, obsolete_roles,
}

module _ (cfg : PolicySettings) (t : Tenant) where
  described_scope :
      (description : Text) (o : Option Scope) → All (Rightful cfg t) (described description o)
  described_scope description none = tt
  described_scope description (some s) = All-when (Rightful cfg t) _ _ tt

  organization_scopes : All (Rightful cfg t) (organization_scope_changes cfg t)
  organization_scopes =
      let ps = cfg.logto_organization_permissions in
      let scopes = t.organization_scopes in
      All-append (Rightful cfg t) _ _
        (All-flat_map (Rightful cfg t) (create_missing scopes) ps (
          All-of_In (λ (p : Text × Text). All (Rightful cfg t) (create_missing scopes p)) ps
            λ p m. All-when (Rightful cfg t) _ _ tt))
        (All-flat_map (Rightful cfg t) (update_present scopes) ps (
          All-of_In (λ (p : Text × Text). All (Rightful cfg t) (update_present scopes p)) ps
            λ p m. described_scope p.1 (scope_named p.0 scopes)))

  -- One permission that is taken from an organization role.
  revoked :
      (role : OrganizationRole) (n : Text) (o : Option Scope)
      → In role t.organization_roles
      → scope_named n role.scopes ≡ o
      → (one_of n (managed_names cfg) ≡ true)
        × (one_of n (cfg.logto_role_permissions role.name) ≡ false)
      → All (Rightful cfg t) (revoke role.id o)
  revoked role n none m e h = tt
  revoked role n (some s) m e h =
      let (there, named) = last_by-In (λ (x : Scope). text_eq x.name n) s role.scopes e in
      let same = sym ((text_eq_iff s.name n).0 named) in
      (
        (
          role,
          s,
          m,
          refl,
          there,
          refl,
          (
            subst (λ (x : Text). one_of x (managed_names cfg) ≡ true) same h.0,
            subst (λ (x : Text). one_of x (cfg.logto_role_permissions role.name) ≡ false) same h.1,
          ),
        ),
        tt,
      )

  unwanted-Fits :
      (role : OrganizationRole) (wanted : List Text) (n : Text)
      → In n (unwanted_names cfg role wanted)
      → (one_of n (managed_names cfg) ≡ true) × (one_of n wanted ≡ false)
  unwanted-Fits role wanted n m =
      let unwanted =
        λ (x : Text). not (is_missing (scope_named x role.scopes)) && not (one_of x wanted) in
      let (there, e) = (In-filter_by n unwanted (managed_names cfg)).0 m in
      (one_of-In n (managed_names cfg) there, not_and (is_missing (scope_named n role.scopes)) _ e)
    where
      not_and : (a b : Bool) → (not a && not b) ≡ true → b ≡ false
      not_and true b e = cc
      not_and false true e = cc
      not_and false false e = refl

  permissions :
      (role : OrganizationRole)
      → In role t.organization_roles
      → All (Rightful cfg t) (permission_changes cfg t role (cfg.logto_role_permissions role.name))
  permissions role m =
      let wanted = cfg.logto_role_permissions role.name in
      let Fits = λ (n : Text). (one_of n (managed_names cfg) ≡ true) × (one_of n wanted ≡ false) in
      let names = unwanted_names cfg role wanted in
      let ns = sorted (first_of [] names) in
      let fit : All Fits ns =
        All-sort_by text_before Fits (first_of [] names)
          (All-first_of Fits [] names (All-of_In Fits names (unwanted-Fits role wanted))) in
      All-append (Rightful cfg t) _ _ (All-when (Rightful cfg t) _ _ tt) (
        All-flat_map (Rightful cfg t) (λ (n : Text). revoke role.id (scope_named n role.scopes)) ns
          (All-of_In
            (λ (n : Text). All (Rightful cfg t) (revoke role.id (scope_named n role.scopes))) ns
            λ n k. revoked role n (scope_named n role.scopes) m refl (All-In Fits n ns fit k)))

  organization_role :
      (p : Text × Text) (o : Option OrganizationRole)
      → organization_role_named p.0 t.organization_roles ≡ o
      → All (Rightful cfg t) (organization_role_changes cfg t p o)
  organization_role (name, description) none e = (tt, tt)
  organization_role (name, description) (some role) e =
      let (there, named) =
        last_by-In (λ (r : OrganizationRole). text_eq r.name name) role t.organization_roles e in
      All-append (Rightful cfg t) _ _ (All-when (Rightful cfg t) _ _ tt) (
        subst
          (λ (n : Text).
            All (Rightful cfg t) (permission_changes cfg t role (cfg.logto_role_permissions n)))
          ((text_eq_iff role.name name).0 named) (permissions role there))

  retire_one :
      (n : Text) (o : Option Scope)
      → one_of n cfg.logto_retired_organization_permissions ≡ true
      → scope_named n t.organization_scopes ≡ o
      → All (Rightful cfg t) (retire o)
  retire_one n none h e = tt
  retire_one n (some s) h e =
      let (there, named) = last_by-In (λ (x : Scope). text_eq x.name n) s t.organization_scopes e in
      (
        (
          s,
          there,
          refl,
          subst (λ (x : Text). one_of x cfg.logto_retired_organization_permissions ≡ true)
              (sym ((text_eq_iff s.name n).0 named)) h,
        ),
        tt,
      )

  retired_scopes : All (Rightful cfg t) (retired_changes cfg t)
  retired_scopes =
      let retired = cfg.logto_retired_organization_permissions in
      let P = λ (n : Text). one_of n retired ≡ true in
      let fit =
        All-sort_by text_before P retired (All-of_In P retired (λ n m. one_of-In n retired m)) in
      All-flat_map (Rightful cfg t) (λ (n : Text). retire (scope_named n t.organization_scopes))
        (sorted retired)
        (All-of_In
          (λ (n : Text). All (Rightful cfg t) (retire (scope_named n t.organization_scopes)))
          (sorted retired)
          λ n m.
            retire_one n (scope_named n t.organization_scopes) (All-In P n (sorted retired) fit m)
              refl)

  organizations : All (Rightful cfg t) (organization_changes cfg t)
  organizations =
      let changes = λ (p : Text × Text).
        organization_role_changes cfg t p (organization_role_named p.0 t.organization_roles) in
      All-flat_map (Rightful cfg t) changes cfg.logto_organization_roles (
        All-of_In (λ (p : Text × Text). All (Rightful cfg t) (changes p))
          cfg.logto_organization_roles
          λ p m. organization_role p (organization_role_named p.0 t.organization_roles) refl)

  last_stage :
      (missing : List Text) → All (Rightful cfg t) (after_organization_scopes cfg t missing)
  last_stage [] = All-append (Rightful cfg t) _ _ organizations retired_scopes
  last_stage (n ∷ ns) = tt

  role_stage : (ready : Bool) → All (Rightful cfg t) (after_roles cfg t ready)
  role_stage false = tt
  role_stage true = All-append (Rightful cfg t) (obsolete_changes cfg t) _ (obsolete_roles cfg t) (
      All-append (Rightful cfg t) (organization_scope_changes cfg t) _ organization_scopes
        (last_stage (missing_names (permission_names cfg) t.organization_scopes)))

  owned_stage : (required : List Text) → All (Rightful cfg t) (role_changes cfg t required)
  owned_stage required =
      let changes =
        λ (spec : Managed). managed_role_changes t required spec (role_named spec.name t.roles) in
      All-flat_map (Rightful cfg t) changes (managed_roles cfg) (
        All-of_In (λ (spec : Managed). All (Rightful cfg t) (changes spec)) (managed_roles cfg)
          λ spec m. owned_role cfg t required spec (role_named spec.name t.roles) m refl)

  scope_stage :
      (r : Resource) (missing : List Text) → All (Rightful cfg t) (after_scopes cfg t r missing)
  scope_stage r [] =
      All-append (Rightful cfg t) (role_changes cfg t (required_ids cfg t r)) _
        (owned_stage (required_ids cfg t r)) (role_stage (all_ready (managed_roles cfg) t))
  scope_stage r (n ∷ ns) = tt

  resource_stage :
      (o : Option Resource)
      → All (Rightful cfg t) (resource_changes cfg o ++ after_resource cfg t o)
  resource_stage none = (tt, tt)
  resource_stage (some r) =
      All-append (Rightful cfg t) (resource_changes cfg (some r)) (after_resource cfg t (some r))
        (All-when (Rightful cfg t) _ _ tt)
        (All-append (Rightful cfg t) (scope_changes cfg t r) _
          (All-map (Rightful cfg t)
            (λ (n : Text). create_scope r.id n (cfg.logto_scope_descriptions n))
            (sorted (missing_names cfg.logto_required_scopes (t.resource_scopes r.id)))
            (All-of_In (λ (n : Text). Unit {0})
              (sorted (missing_names cfg.logto_required_scopes (t.resource_scopes r.id)))
              λ n m. tt))
          (scope_stage r (missing_names cfg.logto_required_scopes (t.resource_scopes r.id))))

  -- Every change of a plan that takes something away is rightful: it deletes a machine's role that holds
  -- an owned name or a role for people under the managed prefix that is not owned, deletes a retired
  -- permission of organizations, or takes from an organization role a managed permission that the policy
  -- does not want there. Other resources, roles and permissions of the tenant are never deleted.
  pub plan-Rightful : All (Rightful cfg t) (plan cfg t)
  unfolding plan
  plan-Rightful = resource_stage (own_resource cfg t)
