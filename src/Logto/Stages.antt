-- ===== src/Logto/Stages.antt =====
-- src/aizk/integrations/logto/policy.py: the stages of a plan that have nothing to change.
use aizk.Base.{
  ◌≡◌, refl, inl, inr, ◌⊎◌, ◌↔◌, Bool, true, false, not, ◌&&◌, Option, none, some, List, [], ◌∷◌,
  Text, one_of, starts_with, filter_by, All, if◌then◌else◌, arith,
}
use aizk.Logto.{
  RoleType, user, machine_to_machine, is_user, Scope, Role, Managed, PolicySettings, Tenant, says,
  same_flag, text_before, sorted, scope_named, role_named, is_missing, managed_roles, delete_role,
  create_organization_scope,
}
use aizk.Logto.Plan.{
  when, flat_map, missing_names, scope_ids, missing_ids, role_drift, managed_role_changes, is_ready,
  all_ready, owned_names, is_obsolete, role_changes, obsolete_changes, create_missing, described,
  update_present, organization_scope_changes, retire,
}
use aizk.Logto.Empty.{
  chain, pair_iff, All_iff, append-nil_iff, map-nil_iff, filter-nil_iff, sort-nil_iff,
  flat_map-nil_iff, when-nil_iff, some_missing_iff, neither_iff, not-false_iff, says_iff,
  same_flag_iff, is_user_iff, Present, missing_iff,
}
use aizk.Logto.Conforms.{OwnedRole, Allowed, SaysOf, Permitted, Absent}

pub missing-nil_iff :
    (names : List Text) (scopes : List Scope)
    → (missing_names names scopes ≡ []) ↔ All (λ (n : Text). Present (scope_named n scopes)) names
missing-nil_iff names scopes =
    chain (filter-nil_iff (λ (n : Text). is_missing (scope_named n scopes)) names) (
      All_iff (λ (n : Text). is_missing (scope_named n scopes) ≡ false)
        (λ (n : Text). Present (scope_named n scopes)) names
        λ n. missing_iff (scope_named n scopes))

pub sorted-nil_iff : (ns : List Text) → (sorted ns ≡ []) ↔ (ns ≡ [])
sorted-nil_iff ns = sort-nil_iff text_before ns

drift_iff :
    (t : Tenant) (required : List Text) (spec : Managed) (role : Role)
    → (role_drift t required spec role ≡ []) ↔ (
        ((role.description ≡ some spec.description) × (role.is_default ≡ spec.default))
        × All (λ (i : Text). one_of i (scope_ids (t.role_scopes role.id)) ≡ true) required)
drift_iff t required spec role =
    let held = λ (i : Text). one_of i (scope_ids (t.role_scopes role.id)) in
    chain (append-nil_iff _ _) (
      pair_iff
        (chain (when-nil_iff _ _) (
          chain
            (neither_iff (says role.description spec.description)
              (same_flag role.is_default spec.default))
            (pair_iff (says_iff role.description spec.description)
              (same_flag_iff role.is_default spec.default))))
        (chain (when-nil_iff _ _) (
          chain (some_missing_iff (missing_ids t role required)) (
            chain (filter-nil_iff (λ (i : Text). not (held i)) required) (
              All_iff (λ (i : Text). not (held i) ≡ false) (λ (i : Text). held i ≡ true) required
                λ i. not-false_iff (held i))))))

managed_role_iff :
    (t : Tenant) (required : List Text) (spec : Managed) (o : Option Role)
    → (managed_role_changes t required spec o ≡ []) ↔ OwnedRole t required spec o
managed_role_iff t required spec none = ((λ e. cc), (λ h. elim h [ ]))
managed_role_iff t required spec (some role) =
    by_kind role.kind (is_user_iff role.kind) (drift_iff t required spec role)
  where
    by_kind :
        {D : Type 0} (k : RoleType)
        → (is_user k ≡ true) ↔ (k ≡ user)
        → (role_drift t required spec role ≡ []) ↔ D
        → ((if is_user k then role_drift t required spec role else delete_role role.id ∷ []) ≡ [])
          ↔ ((k ≡ user) × D)
    by_kind user f g = ((λ e. (refl, g.0 e)), (λ h. g.1 h.1))
    by_kind machine_to_machine f g = ((λ e. cc), (λ h. cc h.0))

pub ready_of :
    (t : Tenant) (required : List Text) (specs : List Managed)
    → All (λ (spec : Managed). OwnedRole t required spec (role_named spec.name t.roles)) specs
    → all_ready specs t ≡ true
ready_of t required [] h = refl
ready_of t required (spec ∷ specs) h =
    rw (one spec (role_named spec.name t.roles) h.0) (ready_of t required specs h.1)
  where
    one : (spec : Managed) (o : Option Role) → OwnedRole t required spec o → is_ready o ≡ true
    one spec none h = elim h [ ]
    one spec (some role) h = (is_user_iff role.kind).1 h.0

Allowed-iff :
    (cfg : PolicySettings) (role : Role) → (is_obsolete cfg role ≡ false) ↔ Allowed cfg role
Allowed-iff cfg role =
    by_cases role.kind (starts_with cfg.logto_managed_role_prefix role.name)
      (one_of role.name (owned_names cfg))
  where
    by_cases :
        (k : RoleType) (b c : Bool)
        → ((is_user k && (b && not c)) ≡ false)
          ↔ ((k ≡ machine_to_machine) ⊎ ((b ≡ false) ⊎ (c ≡ true)))
    by_cases machine_to_machine b c = ((λ e. inl refl), (λ h. refl))
    by_cases user false c = ((λ e. inr (inl refl)), (λ h. refl))
    by_cases user true true = ((λ e. inr (inr refl)), (λ h. refl))
    by_cases user true false = ((λ e. cc), (λ h. ground arith))

pub obsolete_iff :
    (cfg : PolicySettings) (t : Tenant) → (obsolete_changes cfg t ≡ []) ↔ All (Allowed cfg) t.roles
obsolete_iff cfg t =
    chain (map-nil_iff (λ (role : Role). delete_role role.id) (filter_by (is_obsolete cfg) t.roles))
      (chain (filter-nil_iff (is_obsolete cfg) t.roles)
        (All_iff (λ (r : Role). is_obsolete cfg r ≡ false) (Allowed cfg) t.roles (Allowed-iff cfg)))

pub role_changes_iff :
    (cfg : PolicySettings) (t : Tenant) (required : List Text)
    → (role_changes cfg t required ≡ [])
      ↔ All
          (λ (spec : Managed). OwnedRole t required spec (role_named spec.name t.roles))
          (managed_roles cfg)
role_changes_iff cfg t required =
    chain
      (flat_map-nil_iff
        (λ (spec : Managed). managed_role_changes t required spec (role_named spec.name t.roles))
        (managed_roles cfg))
      (All_iff
        (λ (spec : Managed).
          managed_role_changes t required spec (role_named spec.name t.roles) ≡ [])
        (λ (spec : Managed). OwnedRole t required spec (role_named spec.name t.roles))
        (managed_roles cfg) λ spec. managed_role_iff t required spec (role_named spec.name t.roles))

-- A permission needs neither a creation nor an update.
Permitted-iff :
    (scopes : List Scope) (p : Text × Text)
    → ((create_missing scopes p ≡ []) × (update_present scopes p ≡ [])) ↔ Permitted scopes p
Permitted-iff scopes (name, description) = by_row (scope_named name scopes)
  where
    by_row :
        (o : Option Scope)
        → ((when (is_missing o) (create_organization_scope name description) ≡ [])
            × (described description o ≡ []))
          ↔ SaysOf description o
    by_row none = ((λ h. cc h.0), (λ h. elim h [ ]))
    by_row (some s) =
        chain ((λ h. h.1), (λ h. (refl, h)))
          (chain (when-nil_iff (not (says s.description description)) _) (
            chain (not-false_iff (says s.description description))
              (says_iff s.description description)))

All_pair_iff :
    {A : Type 0} (P Q : A → Type 0) (xs : List A)
    → (All P xs × All Q xs) ↔ All (λ (x : A). P x × Q x) xs
All_pair_iff P Q [] = ((λ h. tt), (λ h. (tt, tt)))
All_pair_iff P Q (x ∷ xs) =
    let f = All_pair_iff P Q xs in
    (
      (λ h. ((h.0.0, h.1.0), f.0 (h.0.1, h.1.1))),
      (λ h. ((h.0.0, (f.1 h.1).0), (h.0.1, (f.1 h.1).1))),
    )

pub organization_scopes_iff :
    (cfg : PolicySettings) (t : Tenant)
    → (organization_scope_changes cfg t ≡ [])
      ↔ All (Permitted t.organization_scopes) cfg.logto_organization_permissions
organization_scopes_iff cfg t =
    let scopes = t.organization_scopes in
    let ps = cfg.logto_organization_permissions in
    chain
      (append-nil_iff (flat_map (create_missing scopes) ps) (flat_map (update_present scopes) ps))
      (chain
        (pair_iff (flat_map-nil_iff (create_missing scopes) ps)
          (flat_map-nil_iff (update_present scopes) ps))
        (chain
          (All_pair_iff (λ (p : Text × Text). create_missing scopes p ≡ [])
            (λ (p : Text × Text). update_present scopes p ≡ []) ps)
          (All_iff
            (λ (p : Text × Text). (create_missing scopes p ≡ []) × (update_present scopes p ≡ []))
            (Permitted scopes) ps (Permitted-iff scopes))))

pub retire_iff : (o : Option Scope) → (retire o ≡ []) ↔ Absent o
retire_iff none = ((λ e. tt), (λ h. refl))
retire_iff (some s) = ((λ e. cc), (λ h. elim h [ ]))
