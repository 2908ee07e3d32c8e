-- ===== src/Tests/Logto.antt =====
-- A tenant that conforms to the policy but for one role that the policy named once.
use aizk.Base.{
  ◌≡◌, refl, ◌↔◌, Bool, true, false, not, some, List, [], ◌∷◌, Text, codes, length, ◌<◌, All,
  filter_by, text_eq,
}
use aizk.Logto.{user, Scope, Role, PolicySettings, Tenant, Change, delete_role, create_resource}
use aizk.Logto.Plan.{plan}
use aizk.Logto.Conforms.{Conforms}
use aizk.Logto.Audit.{plan-nil_iff}
use aizk.Logto.Rightful.{Rightful}
use aizk.Logto.Safety.{plan-Rightful}
use aizk.Logto.Apply.{Client, clean, apply, Follows, concat, apply-clean}

abbrev cfg : PolicySettings
cfg = record {
  mcp_resource_id = codes "mcp";
  logto_api_name = codes "api";
  logto_api_token_seconds = 60;
  logto_required_scopes = codes "c" ∷ [];
  logto_scope_descriptions = λ n. codes "d";
  logto_user_role = codes "p-u";
  logto_user_role_description = codes "d";
  logto_admin_role = codes "p-a";
  logto_admin_role_description = codes "d";
  logto_managed_role_prefix = codes "p-";
  logto_organization_permissions = (codes "w", codes "d") ∷ [];
  logto_retired_organization_permissions = codes "r" ∷ [];
  logto_organization_roles = [];
  logto_role_permissions = λ n. [];
}

abbrev scope : Text → Scope
scope name = record { id = name; name = name; description = some (codes "d") }

abbrev role : Text → Bool → Role
role name default = record {
  id = name;
  name = name;
  description = some (codes "d");
  kind = user;
  is_default = default;
}

abbrev tenant : List Role → Tenant
tenant others = record {
  resources =
      record { id = codes "1"; name = codes "api"; indicator = codes "mcp"; access_token_ttl = 60 }
      ∷ [];
  resource_scopes = λ id. scope (codes "c") ∷ [];
  roles = role (codes "p-u") true ∷ role (codes "p-a") false ∷ others;
  role_scopes = λ id. scope (codes "c") ∷ [];
  organization_scopes = scope (codes "w") ∷ [];
  organization_roles = [];
}

-- Two roles that the policy does not name, of which one has its prefix.
abbrev before : Tenant
before = tenant (role (codes "p-x") false ∷ role (codes "x") false ∷ [])

plans_deletion : plan cfg before ≡ delete_role (codes "p-x") ∷ []
unfolding plan
plans_deletion = refl

nothing_there : plan cfg (record before { resources = [] }) ≡ create_resource ∷ []
unfolding plan
nothing_there = refl

-- A client that deletes roles and answers every request.
abbrev deleted : Tenant → Change → Tenant × Bool
deleted t (delete_role id) =
    (record t { roles = filter_by (λ (r : Role). not (text_eq r.id id)) t.roles }, true)
deleted t _ = (t, true)

abbrev client : Client
client = record { State = Tenant; pages = λ t. t; management = deleted; invalidate_all = λ t. t }

abbrev after : Tenant
after = tenant (role (codes "x") false ∷ [])

applied : apply cfg client before ≡ clean (delete_role (codes "p-x") ∷ []) after
unfolding apply plan
applied = refl

apply-clean_example :
    (made : List (List Change)) × (concat cfg client made ≡ delete_role (codes "p-x") ∷ [])
    × (length made < 8)
    × Follows cfg client made before after
    × Conforms cfg after
apply-clean_example = apply-clean cfg client before (delete_role (codes "p-x") ∷ []) after applied

plan-nil_iff_example : (plan cfg before ≡ []) ↔ Conforms cfg before
plan-nil_iff_example = plan-nil_iff cfg before

plan-Rightful_example : All (Rightful cfg before) (plan cfg before)
plan-Rightful_example = plan-Rightful cfg before
