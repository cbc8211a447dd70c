-- ===== src/Resolution/Deterministic.antt =====
-- The rungs of the ladder of octonomy/tags/alias_services.py under the unique constraints of
-- octonomy/tags/models.py.
use octonomy.Prelude.{
  Eq, ℕ, String, ◌≡◌, inl, inr, sym, ◌∙◌, Bool, true, false, Option, none, some, List, arith,
  string_eq, option_eq, option_beq_iff, nat_eq, nat_beq, ◌==◌, if◌then◌else◌,
}
use octonomy.Scope.{
  Namespace, IsScope, global_scope, is_global, row_is_global, same_namespace, same_namespace_iff,
  namespace_q, namespace_scope_check,
}
use octonomy.Catalog.{Tag, TagAlias, tags_clash, aliases_clash}
use octonomy.Resolution.{
  truthy, resolution_priority, in_application, has_type, resolves_tag, resolves_alias, tag_priority,
  alias_priority,
}

-- The application and the namespace that one rung of the ladder stands for.
abbrev rung_application : String → Namespace → ℕ → Option String
rung_application a s n =
    if nat_beq n 0
    then some a
    else if is_global s
    then none
    else if nat_beq n 1
    then some a
    else none

abbrev rung_namespace : Namespace → ℕ → Namespace
rung_namespace s n = if nat_beq n 0 then s else global_scope

module _ (a : String) (s : Namespace) (include_global : Bool) (application_id : Option String)
    (row : Namespace) (n : ℕ)
    (priority : resolution_priority (some a) s application_id row ≡ some n)
    (within : in_application (some a) s application_id row ≡ true)
    (seen : namespace_q s include_global row ≡ true)
    (checked : namespace_scope_check row application_id ≡ true) where
  rung_application_lem : application_id ≡ rung_application a s n
  unfolding resolution_priority in_application namespace_q namespace_scope_check
  rung_application_lem = ground (arith, option_beq_iff application_id (some a))

  row_global : row_is_global row ≡ true → row ≡ global_scope
  unfolding row_is_global
  row_global h = ground arith

  rung_namespace_lem : IsScope s → row ≡ rung_namespace s n
  unfolding resolution_priority in_application namespace_q namespace_scope_check
  rung_namespace_lem (inl e) = ground (arith, row_global, same_namespace_iff row s)
  rung_namespace_lem (inr (t, i, e, _, _, _)) = ground (arith, row_global, same_namespace_iff row s)

both : {A : Type 0} ⦃e : Eq A⦄ (x y z : A) → (x == z) ≡ true → (y == z) ≡ true → (x == y) ≡ true
both ⦃e⦄ x y z p q = (e.beq_iff x y).1 ((e.beq_iff x z).0 p ∙ sym ((e.beq_iff y z).0 q))

-- Two rows on one rung share their application and namespace.
same_rung :
    (a : String) (s : Namespace) (g : Bool) (ta ua : Option String) (tn un : Namespace) (n : ℕ)
    → IsScope s
    → (resolution_priority (some a) s ta tn ≡ some n)
      × (in_application (some a) s ta tn ≡ true)
      × (namespace_q s g tn ≡ true)
      × (namespace_scope_check tn ta ≡ true)
    → (resolution_priority (some a) s ua un ≡ some n)
      × (in_application (some a) s ua un ≡ true)
      × (namespace_q s g un ≡ true)
      × (namespace_scope_check un ua ≡ true)
    → ((ta == ua) ≡ true) × (same_namespace tn un ≡ true)
same_rung a s g ta ua tn un n w (p, i, q, c) (p', i', q', c') = (
  (option_beq_iff ta ua).1 (
      rung_application_lem a s g ta tn n p i q c
      ∙ sym (rung_application_lem a s g ua un n p' i' q' c')),
  (same_namespace_iff tn un).1 (
      rung_namespace_lem a s g ta tn n p i q c w
      ∙ sym (rung_namespace_lem a s g ua un n p' i' q' c' w)),
)

-- A list of rows that all pass a test, all stand on one rung and never clash has no second row.
module _ (tenant_id slug a ty : String) (s : Namespace) (g : Bool) (w : IsScope s)
    (app : (a == "") ≡ false) (typed : (ty == "") ≡ false) where
  abbrev pub OnRung : ℕ → Tag → Type 0
  OnRung n t =
      (resolves_tag tenant_id slug (some a) (some ty) s g t ≡ true)
      × (namespace_scope_check t.namespace t.application_id ≡ true)
      × (tag_priority (some a) s t ≡ some n)

  OnRung-inv :
      (n : ℕ) (t : Tag)
      → OnRung n t
      → ((t.tenant_id == tenant_id) ≡ true)
        × (t.is_active ≡ true)
        × ((t.slug == slug) ≡ true)
        × ((t.type == ty) ≡ true)
        × (resolution_priority (some a) s t.application_id t.namespace ≡ some n)
        × (in_application (some a) s t.application_id t.namespace ≡ true)
        × (namespace_q s g t.namespace ≡ true)
        × (namespace_scope_check t.namespace t.application_id ≡ true)
  unfolding resolves_tag truthy has_type
  OnRung-inv n t h = ground arith

  pub tags_clash-OnRung : (n : ℕ) (t u : Tag) → OnRung n t → OnRung n u → tags_clash t u ≡ true
  unfolding tags_clash
  tags_clash-OnRung n t u h k =
      let (ht, ha, hs, hy, hp, hi, hq, hc) = OnRung-inv n t h in
      let (kt, ka, ks, ky, kp, ki, kq, kc) = OnRung-inv n u k in
      let (same_app, same_ns) =
        same_rung a s g t.application_id u.application_id t.namespace u.namespace n w
          (hp, hi, hq, hc) (kp, ki, kq, kc) in
      let tenant = both t.tenant_id u.tenant_id tenant_id ht kt in
      let named = both t.slug u.slug slug hs ks in
      let kind = both t.type u.type ty hy ky in ground arith

  abbrev pub AliasOnRung : List Tag → ℕ → TagAlias → Type 0
  AliasOnRung tags n b =
      (resolves_alias tags tenant_id slug (some a) s g b ≡ true)
      × (namespace_scope_check b.namespace b.application_id ≡ true)
      × (alias_priority (some a) s b ≡ some n)

  AliasOnRung-inv :
      (tags : List Tag) (n : ℕ) (b : TagAlias)
      → AliasOnRung tags n b
      → ((b.tenant_id == tenant_id) ≡ true)
        × (b.is_active ≡ true)
        × ((b.slug == slug) ≡ true)
        × (resolution_priority (some a) s b.application_id b.namespace ≡ some n)
        × (in_application (some a) s b.application_id b.namespace ≡ true)
        × (namespace_q s g b.namespace ≡ true)
        × (namespace_scope_check b.namespace b.application_id ≡ true)
  unfolding resolves_alias truthy
  AliasOnRung-inv tags n b h = ground arith

  pub aliases_clash-OnRung :
      (tags : List Tag) (n : ℕ) (b c : TagAlias)
      → AliasOnRung tags n b
      → AliasOnRung tags n c
      → aliases_clash b c ≡ true
  unfolding aliases_clash
  aliases_clash-OnRung tags n b c h k =
      let (ht, ha, hs, hp, hi, hq, hc) = AliasOnRung-inv tags n b h in
      let (kt, ka, ks, kp, ki, kq, kc) = AliasOnRung-inv tags n c k in
      let (same_app, same_ns) =
        same_rung a s g b.application_id c.application_id b.namespace c.namespace n w
          (hp, hi, hq, hc) (kp, ki, kq, kc) in
      let tenant = both b.tenant_id c.tenant_id tenant_id ht kt in
      let named = both b.slug c.slug slug hs ks in ground arith
