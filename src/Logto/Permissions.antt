-- ===== src/Logto/Permissions.antt =====
-- src/aizk/integrations/logto/policy.py: the permissions of an organization role that need no change.
use aizk.Base.{
  ◌≡◌, refl, inl, inr, ◌⊎◌, ◌↔◌, Bool, true, false, not, ◌&&◌, Bool-cases, Option, none, some, List,
  [], ◌∷◌, ◌++◌, Text, one_of, first_of, All, All-In, All-of_In, All-sort_by, In-sort_by,
  filter_by-All,
}
use aizk.Logto.{
  is_user, Scope, OrganizationRole, PolicySettings, Tenant, Change, says, text_before, sorted,
  scope_named, is_missing,
}
use aizk.Logto.Plan.{
  flat_map, missing_names, managed_names, unwanted_names, revoke, organization_role_changes,
}
use aizk.Logto.Empty.{
  chain, pair_iff, All_iff, append-nil_iff, filter-nil_iff, when-nil_iff, first_of-nil_iff,
  some_missing_iff, neither_iff, says_iff, is_user_iff,
}
use aizk.Logto.Conforms.{Absent, OrganizationRoleStands}
use aizk.Logto.Stages.{missing-nil_iff, sorted-nil_iff}

pub All-first_of : (P : Text → Type 0) (seen xs : List Text) → All P xs → All P (first_of seen xs)
All-first_of P seen [] h = tt
All-first_of P seen (x ∷ xs) h = elim (Bool-cases (one_of x seen)) [
  | inl b ↦ rw b (All-first_of P seen xs h.1)
  | inr b ↦ rw b (h.0, All-first_of P (x ∷ seen) xs h.1)
]

pub All-sorted_iff : (P : Text → Type 0) (ns : List Text) → All P (sorted ns) ↔ All P ns
All-sorted_iff P ns = (
  (λ h. All-of_In P ns (λ n m. All-In P n (sorted ns) h ((In-sort_by text_before n ns).1 m))),
  (λ h. All-sort_by text_before P ns h),
)

revoke-ne-nil :
    (id : Text) (o : Option Scope) (rest : List Change)
    → is_missing o ≡ false
    → revoke id o ++ rest ≡ []
    → ⊥
revoke-ne-nil id none rest here e = cc
revoke-ne-nil id (some s) rest here e = cc

module _ (cfg : PolicySettings) (role : OrganizationRole) where
  revokes : Text → List Change
  revokes n = revoke role.id (scope_named n role.scopes)

  no_revokes :
      (ns : List Text)
      → All (λ (n : Text). is_missing (scope_named n role.scopes) ≡ false) ns
      → (flat_map revokes ns ≡ []) ↔ (ns ≡ [])
  unfolding revokes
  no_revokes [] h = ((λ e. refl), (λ e. refl))
  no_revokes (n ∷ ns) h =
      ((λ e. absurd (revoke-ne-nil role.id (scope_named n role.scopes) _ h.0 e)), (λ e. cc))

  kept_iff :
      (o : Option Scope) (b : Bool)
      → ((not (is_missing o) && not b) ≡ false) ↔ (Absent o ⊎ (b ≡ true))
  kept_iff none b = ((λ e. inl tt), (λ h. refl))
  kept_iff (some s) true = ((λ e. inr refl), (λ h. refl))
  kept_iff (some s) false = ((λ e. cc), (λ h. elim h [ inl x ↦ elim x [ ] | inr x ↦ cc x ]))

  here_of :
      (o : Option Scope) (b : Bool) → (not (is_missing o) && not b) ≡ true → is_missing o ≡ false
  here_of none b e = cc
  here_of (some s) b e = refl

  unwanted_here :
      (wanted : List Text)
      → All
          (λ (n : Text). is_missing (scope_named n role.scopes) ≡ false)
          (sorted (first_of [] (unwanted_names cfg role wanted)))
  unwanted_here wanted =
      let P = λ (n : Text). is_missing (scope_named n role.scopes) ≡ false in
      let unwanted =
        λ (n : Text). not (is_missing (scope_named n role.scopes)) && not (one_of n wanted) in
      let ns = unwanted_names cfg role wanted in
      All-sort_by text_before P (first_of [] ns) (
        All-first_of P [] ns (
          All-of_In P ns λ n m. here_of (scope_named n role.scopes) (one_of n wanted) (
            All-In (λ (x : Text). unwanted x ≡ true) n ns
              (filter_by-All unwanted (managed_names cfg)) m)))

  unwanted_iff :
      (wanted : List Text)
      → (flat_map revokes (sorted (first_of [] (unwanted_names cfg role wanted))) ≡ [])
        ↔ All
            (λ (n : Text). Absent (scope_named n role.scopes) ⊎ (one_of n wanted ≡ true))
            (managed_names cfg)
  unwanted_iff wanted =
      let unwanted =
        λ (n : Text). not (is_missing (scope_named n role.scopes)) && not (one_of n wanted) in
      let ns = first_of [] (unwanted_names cfg role wanted) in
      chain (no_revokes (sorted ns) (unwanted_here wanted)) (
        chain (sorted-nil_iff ns) (
          chain (first_of-nil_iff (unwanted_names cfg role wanted)) (
            chain (filter-nil_iff unwanted (managed_names cfg)) (
              All_iff (λ (n : Text). unwanted n ≡ false)
                (λ (n : Text). Absent (scope_named n role.scopes) ⊎ (one_of n wanted ≡ true))
                (managed_names cfg) λ n. kept_iff (scope_named n role.scopes) (one_of n wanted)))))

pub organization_role_iff :
    (cfg : PolicySettings) (t : Tenant) (p : Text × Text) (o : Option OrganizationRole)
    → (organization_role_changes cfg t p o ≡ []) ↔ OrganizationRoleStands cfg p o
unfolding revokes
organization_role_iff cfg t (name, description) none = ((λ e. cc), (λ h. elim h [ ]))
organization_role_iff cfg t (name, description) (some role) =
    let wanted = cfg.logto_role_permissions name in
    chain (append-nil_iff _ _) (
      pair_iff
        (chain (when-nil_iff _ _) (
          chain (neither_iff (says role.description description) (is_user role.kind))
            (pair_iff (says_iff role.description description) (is_user_iff role.kind))))
        (chain (append-nil_iff _ _) (
          pair_iff
            (chain (when-nil_iff _ _) (
              chain (some_missing_iff (missing_names wanted role.scopes))
                (missing-nil_iff wanted role.scopes)))
            (unwanted_iff cfg role wanted))))
