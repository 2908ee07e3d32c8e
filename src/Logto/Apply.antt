-- ===== src/Logto/Apply.antt =====
-- src/aizk/integrations/logto/policy.py: applying the plan until an audit is clean. The Management API is
-- a parameter: what a state of the tenant answers, and what a request makes of it.
use aizk.Base.{
  ℕ, zero, suc, ◌≡◌, ◌≢◌, refl, sym, ◌∙◌, subst, ap, ◌<◌, Bool, true, false, List, [], ◌∷◌, ◌++◌,
  append_assoc, append_nil, length, if◌then◌else◌, arith,
}
use aizk.Logto.{PolicySettings, Tenant, Change}
use aizk.Logto.Plan.{plan}
use aizk.Logto.Conforms.{Conforms}
use aizk.Logto.Audit.{plan-nil_iff}

-- The pages that a plan reads, `management` of the client with whether it returned or raised, and
-- `caches.invalidate_all`.
pub record Client : Type 1 where
  pub State : Type 0
  pub pages : State → Tenant
  pub management : State → Change → State × Bool
  pub invalidate_all : State → State

-- `PolicyReport`, or what `apply` raises, with the state that it leaves.
pub data Applied (S : Type 0) : Type 0 where
  clean : List Change → S → Applied S
  failed : S → Applied S
  diverged : S → Applied S

abbrev pub is_nothing : List Change → Bool
is_nothing [] = true
is_nothing (c ∷ cs) = false

-- `audit`
unfoldable pub audit : PolicySettings → Tenant → Bool × List Change
audit cfg t = (is_nothing (plan cfg t), plan cfg t)

module _ (cfg : PolicySettings) (client : Client) where
  -- The requests of a pass until one fails: the state they leave, and whether all were answered.
  abbrev pub requests : List Change → client.State → client.State × Bool
  requests [] s = (s, true)
  requests (c ∷ cs) s =
      let (u, answered) = client.management s c in
      let rest = requests cs u in if answered then rest else (u, false)

  abbrev pub next_pass :
      (List Change → client.State → Applied client.State)
      → List Change
      → List Change
      → client.State × Bool
      → Applied client.State
  next_pass again applied changes (s, true) = again (applied ++ changes) (client.invalidate_all s)
  next_pass again applied changes (s, false) = failed (client.invalidate_all s)

  -- What a pass does with the plan that it made.
  abbrev pub pass :
      (List Change → client.State → Applied client.State)
      → List Change
      → List Change
      → client.State
      → Applied client.State
  pass again applied [] s = clean applied s
  pass again applied (c ∷ cs) s = next_pass again applied (c ∷ cs) (requests (c ∷ cs) s)

  abbrev pub passes : ℕ → List Change → client.State → Applied client.State
  passes zero applied s = diverged s
  passes (suc n) applied s =
      pass (λ (a : List Change) (u : client.State). passes n a u) applied
        (plan cfg (client.pages s)) s

  -- `apply`
  unfoldable pub apply : client.State → Applied client.State
  apply s = passes 8 [] s

  -- The passes that lead from one state to another: each makes the whole plan of its state, which is
  -- not empty.
  abbrev pub Follows : List (List Change) → client.State → client.State → Type 0
  Follows [] s t = s ≡ t
  Follows (cs ∷ rest) s t =
      (cs ≡ plan cfg (client.pages s))
      × (cs ≢ [])
      × ((requests cs s).1 ≡ true)
      × Follows rest (client.invalidate_all (requests cs s).0) t

  abbrev pub concat : List (List Change) → List Change
  concat [] = []
  concat (cs ∷ rest) = cs ++ concat rest

  -- What a clean report says, with the passes that are left and the changes that were already made.
  record Cleared (n : ℕ) (before : List Change) (s : client.State) (applied : List Change)
      (t : client.State) : Type 0 where
    pub made : List (List Change)
    pub all_made : before ++ concat made ≡ applied
    pub in_time : length made < n
    pub follows : Follows made s t
    pub nothing_left : plan cfg (client.pages t) ≡ []

  one_more :
      (n : ℕ) (before applied cs : List Change) (s t : client.State) (r : client.State × Bool)
      → cs ≡ plan cfg (client.pages s)
      → cs ≢ []
      → requests cs s ≡ r
      → ((a : List Change) (u : client.State)
          → passes n a u ≡ clean applied t
          → Cleared n a u applied t)
      → next_pass (λ (a : List Change) (u : client.State). passes n a u) before cs r
        ≡ clean applied t
      → Cleared (suc n) before s applied t
  one_more n before applied cs s t (v, true) planned some_left ran again e =
      let c = again (before ++ cs) (client.invalidate_all v) e in
      record {
        made = cs ∷ c.made;
        all_made = sym (append_assoc before cs (concat c.made)) ∙ c.all_made;
        in_time = omega (arith, c.in_time);
        follows = (
          planned,
          some_left,
          ap (λ (x : client.State × Bool). x.1) ran,
          subst (λ (x : client.State × Bool). Follows c.made (client.invalidate_all x.0) t)
              (sym ran) c.follows,
        );
        nothing_left = c.nothing_left;
      }
  one_more n before applied cs s t (v, false) planned some_left ran again e = cc

  pass-Cleared :
      (n : ℕ) (before applied cs : List Change) (s t : client.State)
      → cs ≡ plan cfg (client.pages s)
      → ((a : List Change) (u : client.State)
          → passes n a u ≡ clean applied t
          → Cleared n a u applied t)
      → pass (λ (a : List Change) (u : client.State). passes n a u) before cs s ≡ clean applied t
      → Cleared (suc n) before s applied t
  pass-Cleared n before applied [] s t planned again e =
      let same : s ≡ t = cc in
      let made : before ≡ applied = cc in
      record {
        made = [];
        all_made = append_nil before ∙ made;
        in_time = omega arith;
        follows = same;
        nothing_left =
            subst (λ (x : client.State). plan cfg (client.pages x) ≡ []) same (sym planned);
      }
  pass-Cleared n before applied (c ∷ cs) s t planned again e =
      one_more n before applied (c ∷ cs) s t (requests (c ∷ cs) s) planned (λ h. cc) refl again e

  passes-Cleared :
      (n : ℕ) (before applied : List Change) (s t : client.State)
      → passes n before s ≡ clean applied t
      → Cleared n before s applied t
  passes-Cleared zero before applied s t e = cc
  passes-Cleared (suc n) before applied s t e =
      pass-Cleared n before applied (plan cfg (client.pages s)) s t refl
        (λ a u. passes-Cleared n a applied u t) e

  -- When applying the policy reports clean, the tenant that it leaves conforms to the policy; fewer than
  -- eight passes lead there, each of which made the whole plan of the state it found, every request
  -- answered, and the report lists their changes in order.
  pub apply-clean :
      (s : client.State) (applied : List Change) (t : client.State)
      → apply s ≡ clean applied t
      → (made : List (List Change)) × (concat made ≡ applied)
        × (length made < 8)
        × Follows made s t
        × Conforms cfg (client.pages t)
  unfolding apply
  apply-clean s applied t e =
      let c = passes-Cleared 8 [] applied s t e in
      (
        c.made,
        c.all_made,
        c.in_time,
        c.follows,
        (plan-nil_iff cfg (client.pages t)).0 c.nothing_left,
      )
