-- ===== src/Logto/Rightful.antt =====
-- src/aizk/integrations/logto/policy.py: what a plan takes away from a tenant.
use aizk.Base.{
  ◌≡◌, refl, sym, ◌∙◌, subst, ap, inl, inr, ◌⊎◌, Bool, true, false, not, ◌&&◌, ◌||◌, Bool-cases,
  Option-cases, Option, none, some, List, [], ◌∷◌, Text, text_eq, text_eq_iff, text_eq_refl, one_of,
  starts_with, map, filter_by, In, In-filter_by, All, All-of_In, All-map, All-append, if◌then◌else◌,
  arith, any_by,
}
use aizk.Logto.{
  RoleType, user, machine_to_machine, is_user, Scope, Role, OrganizationRole, Managed,
  PolicySettings, Tenant, Change, delete_role, update_role, grant_scopes, delete_organization_scope,
  revoke_permission, says, same_flag, last_by, role_named, managed_roles,
}
use aizk.Logto.Plan.{
  when, flat_map, some_missing, missing_ids, role_drift, managed_role_changes, owned_names,
  is_obsolete, obsolete_changes, managed_names,
}

-- A global role that the policy may delete: an owned name that a machine's role holds, or a role for
-- people under the managed prefix that it does not own.
abbrev pub MayGo : PolicySettings → Role → Type 0
MayGo cfg role =
    ((role.kind ≡ machine_to_machine) × (one_of role.name (owned_names cfg) ≡ true))
    ⊎ ((role.kind ≡ user)
        × (starts_with cfg.logto_managed_role_prefix role.name ≡ true)
        × (one_of role.name (owned_names cfg) ≡ false))

-- A permission that the policy may take from an organization role: one that it manages and does not want
-- there.
abbrev pub MayLose : PolicySettings → Text → Scope → Type 0
MayLose cfg role s =
    (one_of s.name (managed_names cfg) ≡ true)
    × (one_of s.name (cfg.logto_role_permissions role) ≡ false)

-- A change takes away only what the policy owns or has retired; every other change adds or updates.
abbrev pub Rightful : PolicySettings → Tenant → Change → Type 0
Rightful cfg t (delete_role id) = (role : Role) × In role t.roles × (role.id ≡ id) × MayGo cfg role
Rightful cfg t (delete_organization_scope id) =
    (s : Scope) × In s t.organization_scopes
    × (s.id ≡ id)
    × (one_of s.name cfg.logto_retired_organization_permissions ≡ true)
Rightful cfg t (revoke_permission role_id id) =
    (role : OrganizationRole) × (s : Scope) × In role t.organization_roles
    × (role.id ≡ role_id)
    × In s role.scopes
    × (s.id ≡ id)
    × MayLose cfg role.name s
Rightful cfg t _ = Unit

pub last_by-In :
    {A : Type 0} (p : A → Bool) (x : A) (xs : List A)
    → last_by p xs ≡ some x
    → In x xs × (p x ≡ true)
last_by-In p x [] e = cc
last_by-In p x (y ∷ ys) e = elim (Option-cases (last_by p ys)) [
  | inl none_later ↦ elim (Bool-cases (p y)) [
    | inl b ↦
        let same : y ≡ x = ground (arith, none_later, b) in
        (inl same, subst (λ (z : _). p z ≡ true) same b)
    | inr b ↦ absurd (ground (arith, none_later, b))
  ]
  | inr (z, later) ↦
      let same : z ≡ x = ground (arith, later) in
      let (m, h) = last_by-In p x ys (later ∙ ap some same) in (inr m, h)
]

module _ (P : Change → Type 0) where
  pub All-flat_map :
      {A : Type 0} (f : A → List Change) (xs : List A)
      → All (λ (x : A). All P (f x)) xs
      → All P (flat_map f xs)
  All-flat_map f [] h = tt
  All-flat_map f (x ∷ xs) h = All-append P (f x) (flat_map f xs) h.0 (All-flat_map f xs h.1)

  pub All-when : (b : Bool) (c : Change) → P c → All P (when b c)
  All-when true c h = (h, tt)
  All-when false c h = tt

pub one_of-In : (name : Text) (ts : List Text) → In name ts → one_of name ts ≡ true
one_of-In name [] m = elim m [ ]
one_of-In name (x ∷ xs) (inl e) = rw (ap (text_eq name) e) (self_or name xs)
  where
    self_or : (n : Text) (rest : List Text) → (text_eq n n || any_by (text_eq n) rest) ≡ true
    self_or n rest = rw (text_eq_refl n) refl
one_of-In name (x ∷ xs) (inr m) = either (text_eq name x) (one_of-In name xs m)
  where
    either : (a : Bool) {b : Bool} → b ≡ true → (a || b) ≡ true
    either true e = refl
    either false e = e

In-name :
    (spec : Managed) (specs : List Managed)
    → In spec specs
    → In spec.name (map (λ (s : Managed). s.name) specs)
In-name spec [] m = elim m [ ]
In-name spec (s ∷ ss) (inl same) = inl (ap (λ (x : Managed). x.name) same)
In-name spec (s ∷ ss) (inr m) = inr (In-name spec ss m)

obsolete-MayGo : (cfg : PolicySettings) (role : Role) → is_obsolete cfg role ≡ true → MayGo cfg role
obsolete-MayGo cfg role e =
    by_cases role.kind (starts_with cfg.logto_managed_role_prefix role.name)
      (one_of role.name (owned_names cfg)) e
  where
    by_cases :
        (k : RoleType) (b c : Bool)
        → (is_user k && (b && not c)) ≡ true
        → ((k ≡ machine_to_machine) × (c ≡ true)) ⊎ ((k ≡ user) × (b ≡ true) × (c ≡ false))
    by_cases machine_to_machine b c e = cc
    by_cases user false c e = cc
    by_cases user true true e = cc
    by_cases user true false e = inr (refl, refl, refl)

module _ (cfg : PolicySettings) (t : Tenant) where
  drift :
      (required : List Text) (spec : Managed) (role : Role)
      → All (Rightful cfg t) (role_drift t required spec role)
  drift required spec role =
      let drifted =
        not (says role.description spec.description)
        || not (same_flag role.is_default spec.default) in
      let missing = missing_ids t role required in
      let update = update_role role.id spec in
      let grant = grant_scopes role.id missing in
      All-append (Rightful cfg t) (when drifted update) (when (some_missing missing) grant)
        (All-when (Rightful cfg t) drifted update tt)
        (All-when (Rightful cfg t) (some_missing missing) grant tt)

  pub owned_role :
      (required : List Text) (spec : Managed) (o : Option Role)
      → In spec (managed_roles cfg)
      → role_named spec.name t.roles ≡ o
      → All (Rightful cfg t) (managed_role_changes t required spec o)
  owned_role required spec none m e = (tt, tt)
  owned_role required spec (some role) m e = by_kind role.kind refl
    where
      found : In role t.roles × (text_eq role.name spec.name ≡ true)
      found = last_by-In (λ (r : Role). text_eq r.name spec.name) role t.roles e

      owned : one_of role.name (owned_names cfg) ≡ true
      owned = one_of-In role.name (owned_names cfg) (
          subst (λ (n : Text). In n (owned_names cfg))
            (sym ((text_eq_iff role.name spec.name).0 found.1))
            (In-name spec (managed_roles cfg) m))

      by_kind :
          (k : RoleType)
          → role.kind ≡ k
          → All
              (Rightful cfg t)
              (if is_user k then role_drift t required spec role else delete_role role.id ∷ [])
      by_kind user h = drift required spec role
      by_kind machine_to_machine h = ((role, found.0, refl, inl (h, owned)), tt)

  pub obsolete_roles : All (Rightful cfg t) (obsolete_changes cfg t)
  obsolete_roles =
      let gone = filter_by (is_obsolete cfg) t.roles in
      All-map (Rightful cfg t) (λ (role : Role). delete_role role.id) gone
        (All-of_In (λ (role : Role). Rightful cfg t (delete_role role.id)) gone
          λ role m.
            let (there, obsolete) = (In-filter_by role (is_obsolete cfg) t.roles).0 m in
            (role, there, refl, obsolete-MayGo cfg role obsolete))
