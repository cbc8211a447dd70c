-- ===== src/Grants/Laws.antt =====
-- What a client's grants authorize, and what they do not.
use octonomy.Prelude.{
  String, ◌≡◌, ◌↔◌, ◌⊎◌, inl, inr, refl, true, false, Option, none, List, [], ◌∷◌, filter, any,
  contains, is_none, ◌==◌, string_eq, option_eq, option_beq_iff, arith, Bool-cases,
}
use text.Mathlib.TextEquality.{eq_iff}
use octonomy.Scope.{Namespace, is_global, IsScope}
use octonomy.Grants.{
  Grant, grant_matches_namespace, grant_authorizes, some_grant_authorizes, tenant_grants,
}

-- A grant reaches a namespace: it is a wildcard, or is for that very partition.
abbrev pub Reaches : Grant → Namespace → Type 0
Reaches g s = (g.namespace_wildcard ≡ true) ⊎ (g.namespace ≡ s)

-- The whole of what one grant authorizes.
pub record Covers (g : Grant) (tenant_id : String) (application_id : Option String) (s : Namespace)
    (required : String) : Type 0 where
  pub tenant : g.tenant_id ≡ tenant_id
  pub scope : contains g.scopes required ≡ true
  pub application : (g.application_id ≡ none) ⊎ (g.application_id ≡ application_id)
  pub parent : (is_global s ≡ true) ⊎ (is_none application_id ≡ false)
  pub namespace : Reaches g s

Reaches-iff :
    (g : Grant) (s : Namespace) → IsScope s → (grant_matches_namespace g s ≡ true) ↔ Reaches g s
unfolding grant_matches_namespace
Reaches-iff g s w = (forward w, backward w)
  where
    forward : IsScope s → grant_matches_namespace g s ≡ true → Reaches g s
    forward (inl e) h = ground arith
    forward (inr (t, i, e, bt, rt, bi)) h = ground (
      arith,
      option_beq_iff g.namespace.namespace_type s.namespace_type,
      option_beq_iff g.namespace.namespace_id s.namespace_id,
    )

    backward : IsScope s → Reaches g s → grant_matches_namespace g s ≡ true
    backward (inl e) h = ground arith
    backward (inr (t, i, e, bt, rt, bi)) h = ground (
      arith,
      option_beq_iff g.namespace.namespace_type s.namespace_type,
      option_beq_iff g.namespace.namespace_id s.namespace_id,
    )

grant_authorizes_tests :
    (g : Grant) (tenant_id : String) (application_id : Option String) (s : Namespace)
    (required : String)
    → (grant_authorizes g tenant_id application_id s required ≡ true) ↔ (
        ((g.tenant_id == tenant_id) ≡ true)
        × (contains g.scopes required ≡ true)
        × ((g.application_id ≡ none) ⊎ (g.application_id ≡ application_id))
        × ((is_global s ≡ true) ⊎ (is_none application_id ≡ false))
        × (grant_matches_namespace g s ≡ true))
unfolding grant_authorizes
grant_authorizes_tests g t a s r = (
  λ h. ground (arith, option_beq_iff g.application_id a),
  λ h. ground (arith, option_beq_iff g.application_id a),
)

-- For a well-formed scope, a grant authorizes a request exactly when it is the tenant's, carries
-- the API scope, is tenant-wide or for the request's application, and reaches the namespace, and
-- the request is global or names an application.
pub grant_authorizes_iff :
    (g : Grant) (tenant_id : String) (application_id : Option String) (s : Namespace)
    (required : String)
    → IsScope s
    → (grant_authorizes g tenant_id application_id s required ≡ true)
      ↔ Covers g tenant_id application_id s required
grant_authorizes_iff g t a s r w = (
  λ h.
      let (ct, cs, ca, cp, cn) = (grant_authorizes_tests g t a s r).0 h in
      record {
        tenant = (eq_iff g.tenant_id t).0 ct;
        scope = cs;
        application = ca;
        parent = cp;
        namespace = (Reaches-iff g s w).0 cn;
      },
  λ c. (grant_authorizes_tests g t a s r).1 (
    (eq_iff g.tenant_id t).1 c.tenant,
    c.scope,
    c.application,
    c.parent,
    (Reaches-iff g s w).1 c.namespace,
  ),
)

-- Loading one tenant's grants from the database decides as the client's whole grant list does.
pub some_grant_authorizes-tenant_grants :
    (gs : List Grant) (tenant_id : String) (application_id : Option String) (s : Namespace)
    (required : String)
    → some_grant_authorizes (tenant_grants gs tenant_id) tenant_id application_id s required
      ≡ some_grant_authorizes gs tenant_id application_id s required
unfolding some_grant_authorizes tenant_grants filter any
some_grant_authorizes-tenant_grants [] t a s r = refl
some_grant_authorizes-tenant_grants (g ∷ gs) t a s r = elim (Bool-cases (g.tenant_id == t)) [
  | inl same ↦ ground (arith, some_grant_authorizes-tenant_grants gs t a s r)
  | inr other ↦
      let shut : grant_authorizes g t a s r ≡ false = unfold grant_authorizes in ground arith in
      ground (arith, some_grant_authorizes-tenant_grants gs t a s r)
]
