-- ===== src/Grants/Applications.antt =====
-- Object lookups are bounded by `authorized_application_ids` and `apply_application_filter`: what
-- the pair lets through is what the grants authorize.
use octonomy.Prelude.{
  String, ◌≡◌, ◌∙◌, inl, inr, refl, Bool, true, false, ◌&&◌, ◌||◌, not, Option, none, some, List,
  [], ◌∷◌, filter, any, contains, contains-set_add, contains-filter, is_none, ◌==◌, string_eq,
  option_eq, arith, Bool-cases, Option-cases, set_add,
}
use text.Mathlib.TextEquality.{eq_iff}
use octonomy.Scope.{Namespace, application_q}
use octonomy.Grants.{
  Grant, skipped, grant_authorizes, some_grant_authorizes, tenant_grants, collect_applications,
  authorized_application_ids,
}
use octonomy.Grants.Laws.{some_grant_authorizes-tenant_grants}

-- A bound on the applications admits one.
abbrev admits : Option (List String) → String → Bool
admits none a = true
admits (some ids) a = contains ids a

-- A grant that the loop does not skip, for this application.
counts : Namespace → String → String → Grant → Bool
counts s required a g =
    not (skipped s (some required) g) && (is_none g.application_id || g.application_id == some a)

admits-collect :
    (s : Namespace) (required : String) (gs : List Grant) (ids : List String) (a : String)
    → admits (collect_applications s (some required) gs ids) a
      ≡ (contains ids a || any (counts s required a) gs)
unfolding collect_applications any counts
admits-collect s r [] ids a = ground arith
admits-collect s r (g ∷ gs) ids a = elim (Bool-cases (skipped s (some r) g)) [
  | inl skip ↦ ground (arith, admits-collect s r gs ids a)
  | inr used ↦ elim (Option-cases g.application_id) [
    | inl wide ↦ ground arith
    | inr (b, app) ↦ ground (
      arith,
      admits-collect s r gs (set_add b ids) a,
      contains-set_add b ids a,
      eq_iff a b,
      eq_iff b a,
    )
  ]
]

counts-eq-grant_authorizes :
    (s : Namespace) (required a tenant_id : String) (g : Grant)
    → (required == "") ≡ false
    → (g.tenant_id == tenant_id) ≡ true
    → counts s required a g ≡ grant_authorizes g tenant_id (some a) s required
unfolding counts skipped grant_authorizes
counts-eq-grant_authorizes s r a t g ne same = ground arith

any-counts :
    (s : Namespace) (required a tenant_id : String) (gs : List Grant)
    → (required == "") ≡ false
    → any (counts s required a) (tenant_grants gs tenant_id)
      ≡ some_grant_authorizes (tenant_grants gs tenant_id) tenant_id (some a) s required
unfolding tenant_grants filter some_grant_authorizes any
any-counts s r a t [] ne = refl
any-counts s r a t (g ∷ gs) ne = elim (Bool-cases (g.tenant_id == t)) [
  | inl same ↦
      ground (arith, any-counts s r a t gs ne, counts-eq-grant_authorizes s r a t g ne same)
  | inr other ↦ ground (arith, any-counts s r a t gs ne)
]

-- For a named API scope and application, the bound of an object lookup lets a row of the
-- application through exactly when some grant of the caller authorizes that application in the
-- tenant and namespace for the API scope.
pub application_q-authorized :
    (gs : List Grant) (tenant_id : String) (s : Namespace) (required a : String)
    (include_shared : Bool)
    → (required == "") ≡ false
    → (a == "") ≡ false
    → application_q
        (authorized_application_ids gs tenant_id s (some required))
        include_shared
        (some a)
      ≡ some_grant_authorizes gs tenant_id (some a) s required
application_q-authorized gs t s r a shared ner nea =
    bound (authorized_application_ids gs t s (some r))
    ∙ collected
    ∙ any-counts s r a t gs ner
    ∙ some_grant_authorizes-tenant_grants gs t (some a) s r
  where
    bound : (ids : Option (List String)) → application_q ids shared (some a) ≡ admits ids a
    bound none = unfold application_q in refl
    bound (some ids) =
        unfold application_q in ground (arith, contains-filter (λ i. not (i == "")) ids a)

    collected :
        admits (authorized_application_ids gs t s (some r)) a
        ≡ any (counts s r a) (tenant_grants gs t)
    collected =
        unfold authorized_application_ids contains in admits-collect s r (tenant_grants gs t) [] a
