-- ===== src/Versioning/Laws.antt =====
-- What a request's namespace headers lead to, on either API version.
use text.Mathlib.TextEquality.{eq_iff}
use octonomy.Prelude.{
  String, ◌≡◌, ◌↔◌, ◌⊎◌, ◌≤◌, inl, inr, refl, true, false, Option, none, some, [], ◌∷◌, ◌==◌,
  string_eq, arith, Bool-cases,
}
use octonomy.Prelude.Text.{has_code, len, is_blank}
use octonomy.Errors.{Error, ok, err, ◌>>=◌, >>=-eq-ok, namespace_header, validation}
use octonomy.Scope.{
  Settings, Namespace, IsScope, global_scope, is_global, scope_context, reserved_global,
}
use octonomy.Scope.Laws.{scope_context-IsScope, scope_context_cases, partition}
use octonomy.Request.{Request}
use octonomy.Versioning.{
  Requested, scope_from_headers, resolve_scope_context, set_scope, wants_global,
  reject_if_v2_api_disabled,
}

-- A header value that the parser takes: not blank, sent once, and within its column.
abbrev pub IsHeaderValue : String → Type 0
IsHeaderValue v = (is_blank v ≡ false) × (has_code b',' v ≡ false) × (len v ≤ 100)

scope_from_headers_pair :
    (t i : String) (s : Namespace)
    → scope_from_headers (some t) (some i) ≡ ok s
    → (scope_context (some t) (some i) ≡ ok s)
      × (has_code b',' t ≡ false)
      × (has_code b',' i ≡ false)
      × (len t ≤ 100)
      × (len i ≤ 100)
unfolding scope_from_headers
scope_from_headers_pair t i s h = ground arith

scope_from_headers_accepts :
    (t i : String)
    → IsHeaderValue t
    → IsHeaderValue i
    → (t == reserved_global) ≡ false
    → scope_from_headers (some t) (some i) ≡ ok (partition t i)
unfolding scope_from_headers
scope_from_headers_accepts t i ht hi r = ground arith

-- A pair of namespace headers is accepted exactly when both values are header values and the type
-- is not the reserved one, and then it stands for that very partition.
pub scope_from_headers_iff :
    (t i : String) (s : Namespace)
    → (scope_from_headers (some t) (some i) ≡ ok s)
      ↔ ((s ≡ partition t i) × IsHeaderValue t × IsHeaderValue i × ((t == reserved_global) ≡ false))
scope_from_headers_iff t i s = (
  λ h.
      let (c, ft, fi, lt, li) = scope_from_headers_pair t i s h in
      let (e, bt, rt, bi) = scope_context_cases t i s c in (e, (bt, ft, lt), (bi, fi, li), rt),
  λ (e, ht, hi, r). rw e (scope_from_headers_accepts t i ht hi r),
)

abbrev pub IsHeaderError : Error → Type 0
IsHeaderError e =
    (e ≡ namespace_header) ⊎ (e ≡ validation "X-Namespace-Type") ⊎ (e ≡ validation "X-Namespace-ID")

-- Whatever the headers, a refusal is one of the client errors of the header contract: the
-- ValueError of ScopeContext never escapes as a server error.
pub scope_from_headers_errors :
    (t i : Option String) (e : Error) → scope_from_headers t i ≡ err e → IsHeaderError e
unfolding scope_from_headers
scope_from_headers_errors none none e h = cc
scope_from_headers_errors none (some i) e h = inl (cc)
scope_from_headers_errors (some t) none e h = inl (cc)
scope_from_headers_errors (some t) (some i) e h = ground arith

scope_from_headers-IsScope :
    (t i : Option String) (s : Namespace)
    → scope_from_headers t i ≡ ok s
    → IsScope s × (s ≡ record { namespace_type = t; namespace_id = i })
scope_from_headers-IsScope none none s h =
    unfold scope_from_headers in scope_context-IsScope none none s (unfold scope_context in h)
scope_from_headers-IsScope none (some i) s h = unfold scope_from_headers in cc
scope_from_headers-IsScope (some t) none s h = unfold scope_from_headers in cc
scope_from_headers-IsScope (some t) (some i) s h =
    scope_context-IsScope (some t) (some i) s (scope_from_headers_pair t i s h).0

-- What a request may ask for once its scope is resolved.
pub record IsRequested (settings : Settings) (r : Request) (version : String) (q : Requested)
    : Type 0 where
  pub well_formed : IsScope q.scope_context
  pub from_headers :
      q.scope_context ≡ record { namespace_type = r.namespace_type; namespace_id = r.namespace_id }
  pub gated :
      (is_global q.scope_context ≡ true)
      ⊎ (((version == "v2") ≡ true) × (settings.namespace_v2_api_enabled ≡ true))
  pub asked :
      (q.requested_scope_contexts ≡ q.scope_context ∷ [])
      ⊎ ((q.requested_scope_contexts ≡ q.scope_context ∷ global_scope ∷ [])
          × (wants_global r ≡ true))

resolve_v2 :
    (settings : Settings) (r : Request) (q : Requested) (s : Namespace)
    → scope_from_headers r.namespace_type r.namespace_id ≡ ok s
    → (reject_if_v2_api_disabled settings s >>= λ _. ok (set_scope s (wants_global r))) ≡ ok q
    → IsRequested settings r "v2" q
resolve_v2 settings r q s e h =
    let (w, f) = scope_from_headers-IsScope r.namespace_type r.namespace_id s e in
    unfold reject_if_v2_api_disabled set_scope in ground arith

v2_parts :
    (settings : Settings) (r : Request) (q : Requested)
    → resolve_scope_context settings r "v2" ≡ ok q
    → (s : Namespace) × (scope_from_headers r.namespace_type r.namespace_id ≡ ok s)
      × ((reject_if_v2_api_disabled settings s >>= λ _. ok (set_scope s (wants_global r))) ≡ ok q)
unfolding resolve_scope_context
v2_parts settings r q h = >>=-eq-ok _ _ h

no_headers :
    (settings : Settings) (r : Request) (version : String) (q : Requested)
    → (version == "v2") ≡ false
    → resolve_scope_context settings r version ≡ ok q
    → (r.namespace_type ≡ none)
      × (r.namespace_id ≡ none)
      × (q.scope_context ≡ global_scope)
      × (q.requested_scope_contexts ≡ global_scope ∷ [])
unfolding resolve_scope_context
no_headers settings r version q v h = ground arith

-- A request that gets through scope resolution has a well-formed scope, the one of its headers; it
-- is global, or came to v2 while the namespaced surface is on; and it asks for its own scope, and
-- for the global one beside it only where it said so.
pub resolve_scope_context-IsRequested :
    (settings : Settings) (r : Request) (version : String) (q : Requested)
    → resolve_scope_context settings r version ≡ ok q
    → IsRequested settings r version q
unfolding is_global
resolve_scope_context-IsRequested settings r version q h = elim (Bool-cases (version == "v2")) [
  | inl v2 ↦
      let e = (eq_iff version "v2").0 v2 in
      let (s, p, rest) = v2_parts settings r q (rw e at h) in
      rw e (resolve_v2 settings r q s p rest)
  | inr other ↦
      let (t, i, e, asked) = no_headers settings r version q other h in
      record {
        well_formed = inl e;
        from_headers = rw (t, i) e;
        gated = inl (rw e refl);
        asked = inl (rw e asked);
      }
]
