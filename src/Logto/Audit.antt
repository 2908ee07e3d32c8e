-- ===== src/Logto/Audit.antt =====
-- src/aizk/integrations/logto/policy.py: what it means that an audit is clean.
use aizk.Base.{
  ◌≡◌, refl, sym, ◌∙◌, ap, ◌↔◌, true, Option, none, some, List, [], ◌∷◌, ◌++◌, Text, text_eq,
  text_eq_iff, map, All, ◌==◌, ==_iff,
}
use aizk.Logto.{
  Scope, Resource, PolicySettings, Tenant, Change, create_scope, sorted, scope_named,
  organization_role_named, managed_roles,
}
use aizk.Logto.Plan.{
  own_resource, resource_changes, missing_names, scope_changes, required_ids, all_ready,
  role_changes, obsolete_changes, organization_scope_changes, permission_names,
  organization_role_changes, organization_changes, retire, retired_changes,
  after_organization_scopes, after_roles, after_scopes, after_resource, plan,
}
use aizk.Logto.Empty.{
  chain, pair_iff, All_iff, append-nil_iff, map-nil_iff, flat_map-nil_iff, when-nil_iff,
  neither_iff, Present,
}
use aizk.Logto.Conforms.{
  SaysOf, Permitted, Absent, OrganizationRoleStands, Organized, Staffed, ConformsWith, Conforms,
}
use aizk.Logto.Stages.{
  missing-nil_iff, sorted-nil_iff, ready_of, obsolete_iff, role_changes_iff,
  organization_scopes_iff, retire_iff,
}
use aizk.Logto.Permissions.{All-sorted_iff, organization_role_iff}

-- A stage that is done, and what follows it.
staged :
    {P Q : Type 0} (xs after next : List Change)
    → (xs ≡ []) ↔ P
    → (P → after ≡ next)
    → (next ≡ []) ↔ Q
    → ((xs ++ after) ≡ []) ↔ (P × Q)
staged xs after next f goes g = (
  (λ e.
      let (first, rest) = (append-nil_iff xs after).0 e in
      let p = f.0 first in (p, g.0 (sym (goes p) ∙ rest))),
  (λ h. (append-nil_iff xs after).1 (f.1 h.0, goes h.0 ∙ g.1 h.1)),
)

Present-of : (description : Text) (o : Option Scope) → SaysOf description o → Present o
Present-of description none h = elim h [ ]
Present-of description (some s) h = tt

all-Present :
    (scopes : List Scope) (ps : List (Text × Text))
    → All (Permitted scopes) ps
    → All (λ (n : Text). Present (scope_named n scopes)) (map (λ (p : Text × Text). p.0) ps)
all-Present scopes [] h = tt
all-Present scopes ((name, description) ∷ ps) h =
    (Present-of description (scope_named name scopes) h.0, all-Present scopes ps h.1)

organizations_iff :
    (cfg : PolicySettings) (t : Tenant)
    → ((organization_changes cfg t ++ retired_changes cfg t) ≡ []) ↔ (
        All
          (λ (p : Text × Text).
            OrganizationRoleStands cfg p (organization_role_named p.0 t.organization_roles))
          cfg.logto_organization_roles
        × All
            (λ (n : Text). Absent (scope_named n t.organization_scopes))
            cfg.logto_retired_organization_permissions)
organizations_iff cfg t =
    let role_of = λ (p : Text × Text). organization_role_named p.0 t.organization_roles in
    let retires = λ (n : Text). retire (scope_named n t.organization_scopes) in
    chain (append-nil_iff (organization_changes cfg t) (retired_changes cfg t)) (
      pair_iff
        (chain
          (flat_map-nil_iff (λ (p : Text × Text). organization_role_changes cfg t p (role_of p))
            cfg.logto_organization_roles)
          (All_iff (λ (p : Text × Text). organization_role_changes cfg t p (role_of p) ≡ [])
            (λ (p : Text × Text). OrganizationRoleStands cfg p (role_of p))
            cfg.logto_organization_roles λ p. organization_role_iff cfg t p (role_of p)))
        (chain (flat_map-nil_iff retires (sorted cfg.logto_retired_organization_permissions)) (
          chain
            (All-sorted_iff (λ (n : Text). retires n ≡ [])
              cfg.logto_retired_organization_permissions)
            (All_iff (λ (n : Text). retires n ≡ [])
              (λ (n : Text). Absent (scope_named n t.organization_scopes))
              cfg.logto_retired_organization_permissions
              λ n. retire_iff (scope_named n t.organization_scopes)))))

Organized-iff :
    (cfg : PolicySettings) (t : Tenant)
    → ((organization_scope_changes cfg t
          ++ after_organization_scopes cfg t
              (missing_names (permission_names cfg) t.organization_scopes))
        ≡ [])
      ↔ Organized cfg t
Organized-iff cfg t =
    staged (organization_scope_changes cfg t) _
      (organization_changes cfg t ++ retired_changes cfg t) (organization_scopes_iff cfg t)
      (λ h.
        let none_missing =
          (missing-nil_iff (permission_names cfg) t.organization_scopes).1
            (all-Present t.organization_scopes cfg.logto_organization_permissions h) in
        ap (after_organization_scopes cfg t) none_missing)
      (organizations_iff cfg t)

Staffed-iff :
    (cfg : PolicySettings) (t : Tenant) (required : List Text)
    → ((role_changes cfg t required ++ after_roles cfg t (all_ready (managed_roles cfg) t)) ≡ [])
      ↔ (Staffed cfg t required × Organized cfg t)
Staffed-iff cfg t required =
    chain
      (staged (role_changes cfg t required) _ (after_roles cfg t true)
        (role_changes_iff cfg t required)
        (λ h. ap (after_roles cfg t) (ready_of t required (managed_roles cfg) h))
        (chain (append-nil_iff (obsolete_changes cfg t) _)
          (pair_iff (obsolete_iff cfg t) (Organized-iff cfg t))))
      ((λ h. ((h.0, h.1.0), h.1.1)), (λ h. (h.0.0, (h.0.1, h.1))))

scope_changes_iff :
    (cfg : PolicySettings) (t : Tenant) (r : Resource)
    → (scope_changes cfg t r ≡ [])
      ↔ All
          (λ (n : Text). Present (scope_named n (t.resource_scopes r.id)))
          cfg.logto_required_scopes
scope_changes_iff cfg t r =
    let missing = missing_names cfg.logto_required_scopes (t.resource_scopes r.id) in
    chain
      (map-nil_iff (λ (n : Text). create_scope r.id n (cfg.logto_scope_descriptions n))
        (sorted missing))
      (chain (sorted-nil_iff missing)
        (missing-nil_iff cfg.logto_required_scopes (t.resource_scopes r.id)))

plan_for :
    (cfg : PolicySettings) (t : Tenant) (o : Option Resource)
    → ((resource_changes cfg o ++ after_resource cfg t o) ≡ []) ↔ ConformsWith cfg t o
plan_for cfg t none = ((λ e. cc), (λ h. elim h [ ]))
plan_for cfg t (some r) =
    staged (resource_changes cfg (some r)) (after_resource cfg t (some r))
      (after_resource cfg t (some r))
      (chain (when-nil_iff _ _) (
        chain
          (neither_iff (text_eq r.name cfg.logto_api_name)
            (r.access_token_ttl == cfg.logto_api_token_seconds))
          (pair_iff (text_eq_iff r.name cfg.logto_api_name)
            (==_iff r.access_token_ttl cfg.logto_api_token_seconds))))
      (λ h. refl)
      (staged (scope_changes cfg t r) _
        (role_changes cfg t (required_ids cfg t r)
          ++ after_roles cfg t (all_ready (managed_roles cfg) t))
        (scope_changes_iff cfg t r)
        (λ h.
          ap (after_scopes cfg t r)
            ((missing-nil_iff cfg.logto_required_scopes (t.resource_scopes r.id)).1 h))
        (Staffed-iff cfg t (required_ids cfg t r)))

-- A plan is empty exactly when the tenant conforms to the policy: an audit reports it clean when nothing
-- is missing, nothing owned has drifted and nothing obsolete or retired is left, and only then.
pub plan-nil_iff : (cfg : PolicySettings) (t : Tenant) → (plan cfg t ≡ []) ↔ Conforms cfg t
unfolding plan
plan-nil_iff cfg t = plan_for cfg t (own_resource cfg t)
