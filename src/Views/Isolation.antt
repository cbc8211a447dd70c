-- ===== src/Views/Isolation.antt =====
-- That a write through octonomy/tags/views.py changes no tag outside the request's tenant and namespace.
use octonomy.Prelude.{
  ℕ, String, ◌≡◌, ◌≢◌, ◌⊎◌, inl, inr, refl, ap, sym, ◌∙◌, subst, Bool, true, false, ◌&&◌, Option,
  some, List, [], ◌∷◌, In, find, nat_beq, nat_beq_iff, arith, Bool-cases, Option-cases, ◌==◌,
  string_eq,
}
use octonomy.Errors.{Error, Result, ok, err}
use octonomy.Scope.{Settings, Namespace, IsScope, namespace_q}
use octonomy.Scope.Laws.{namespace_q-eq-row_matches_scope, row_matches_scope_iff}
use octonomy.Request.{reject_null_namespaced_application_id}
use octonomy.Catalog.{Tag}
use octonomy.Catalog.Table.{Table, find_row, write_over, save_row, IsTable}
use octonomy.Catalog.Table.Laws.{find_row-In, find_row-inv, save_row-inv}
use octonomy.Store.{AuditContext, Db, Source}
use octonomy.Store.Kept.{>>=-inv, lift-inv}
use octonomy.Services.{tag_table, vocabulary_table}
use octonomy.Services.Patch.{TagPatch, patched_tag}
use octonomy.Services.Tags.{update_tag, deactivate_tag}
use octonomy.Services.References.{Place, tag_place, vocabulary_place, HasCatalog}
use octonomy.Services.TagUpdates.{update_tag-Updated}
use octonomy.Services.Deactivation.{deactivate_tag-Deactivated}
use octonomy.Views.{
  require_tenant, Bounds, detail_bounds, within, get_or_404, Answer, TagPayload, validated_tag,
  referenced, Asked, detail_object,
}
use octonomy.Views.Detail.{patch_tag, delete_tag, tag_detail}

module _ {A : Type 0} (table : Table A) where
  -- Writing over one id leaves the rows of the others.
  pub In-write_over :
      (row : A) (rows : List A) (x : A)
      → In x rows
      → table.id_of x ≢ table.id_of row
      → In x (write_over table row rows)
  unfolding write_over
  In-write_over row [] x m n = absurd m.lower
  In-write_over row (y ∷ ys) x (inl e) n =
      elim (Bool-cases (nat_beq (table.id_of y) (table.id_of row))) [
        | inl same ↦
            absurd
              (n (ap table.id_of (sym e) ∙ (nat_beq_iff (table.id_of y) (table.id_of row)).0 same))
        | inr other ↦ rw other (inl e)
      ]
  In-write_over row (y ∷ ys) x (inr m) n =
      elim (Bool-cases (nat_beq (table.id_of y) (table.id_of row))) [
        | inl same ↦ rw same (inr m)
        | inr other ↦ rw other (inr (In-write_over row ys x m n))
      ]

  -- A saved row leaves the other rows.
  pub In-save_row :
      (row : A) (rows later : List A) (x : A)
      → save_row table row rows ≡ ok later
      → In x rows
      → table.id_of x ≢ table.id_of row
      → In x later
  In-save_row row rows later x h m n =
      let (e, _, _) = save_row-inv table row rows later h in
      subst (λ ys. In x ys) (sym e) (In-write_over row rows x m n)

  find-inv :
      (p : A → Bool) (rows : List A) (x : A) → find p rows ≡ some x → In x rows × (p x ≡ true)
  unfolding find
  find-inv p [] x h = cc
  find-inv p (y ∷ ys) x h = elim (Bool-cases (p y)) [
    | inl hit ↦ let e : y ≡ x = ground arith in (inl e, ap p (sym e) ∙ hit)
    | inr miss ↦ let (m, q) = find-inv p ys x (ground arith) in (inr m, q)
  ]

  -- Of two stored rows with one id, both are the same.
  same_row :
      (rows : List A) (x y : A)
      → IsTable table rows
      → In x rows
      → In y rows
      → table.id_of x ≡ table.id_of y
      → x ≡ y
  same_row rows x y w m n e =
      let fx = find_row-In table x rows w.0 m in
      let fy = find_row-In table y rows w.0 n in cc (fx, fy, ap (λ i. find_row table i rows) e)

-- A write looks for its object in the very namespace of the request.
exact : (s row : Namespace) → IsScope s → namespace_q s false row ≡ true → row ≡ s
exact s row w h =
    elim ((row_matches_scope_iff row s false w).0
      (sym (namespace_q-eq-row_matches_scope s row false) ∙ h)) [
        | inl e ↦ e
        | inr (never, _) ↦ absurd (ground (arith, never))
      ]

Result-cases : {A : Type 0} (r : Result A) → ((x : A) × (r ≡ ok x)) ⊎ ((e : Error) × (r ≡ err e))
Result-cases (err e) = inr (e, refl)
Result-cases (ok x) = inl (x, refl)

get_or_404-inv :
    {A : Type 0} (table : Table A) (place : A → Place) (b : Bounds) (i : ℕ) (rows : List A) (x : A)
    → get_or_404 table place b i rows ≡ ok x
    → In x rows × (within b (place x) ≡ true)
unfolding get_or_404
get_or_404-inv {A = A} table place b i rows x h =
    let p = λ (y : A). nat_beq (table.id_of y) i && within b (place y) in
    elim (Option-cases (find p rows)) [
      | inl missing ↦ absurd (ground arith)
      | inr (y, found) ↦
          let same : y ≡ x = ground arith in
          let (m, q) = find-inv table p rows y found in
          (subst (λ z. In z rows) same m, ap (λ z. within b (place z)) (sym same) ∙ ground arith)
    ]

-- Loading the relations of a payload changes nothing.
validated_tag-same :
    (tenant_id : String) (s : Namespace) (references : Bool) (payload : TagPayload) (db : Db)
    (patch : TagPatch) (v : Db)
    → validated_tag tenant_id s references payload db ≡ ok (patch, v)
    → db ≡ v
unfolding validated_tag
validated_tag-same tenant_id s references payload db patch v h =
    let (_, _, h₁) =
      lift-inv
        (referenced tag_table tag_place tenant_id s references "parent_id" db.tags
          payload.parent_id)
        _ db h in
    let (_, _, h₂) =
      lift-inv
        (referenced vocabulary_table vocabulary_place tenant_id s references "vocabulary_id"
          db.vocabularies payload.vocabulary_id)
        _ db h₁ in
    ground arith

module _ (c : Asked TagPayload) (tenant_id : String) (scoped : IsScope c.scope_context)
    (asked : require_tenant c.request ≡ ok tenant_id)
    (writes : (c.request.method == "GET") ≡ false) where
  -- The object of a write: stored, of the tenant, and in the namespace.
  pub detail_object-inv :
      (i : ℕ) (rows : List Tag) (tenant : String) (t : Tag)
      → detail_object tag_table tag_place c i rows ≡ ok (tenant, t)
      → In t rows × (t.tenant_id ≡ tenant_id) × (t.namespace ≡ c.scope_context)
  unfolding detail_object within detail_bounds
  detail_object-inv i rows tenant t h =
      let b = detail_bounds c.request c.scope_context c.include_global c.authorized tenant_id in
      elim (Result-cases (get_or_404 tag_table tag_place b i rows)) [
        | inr (e, bad) ↦ absurd (ground arith)
        | inl (x, good) ↦
            let same : x ≡ t = ground arith in
            let (m, w) = get_or_404-inv tag_table tag_place b i rows x good in
            let own : (x.tenant_id == tenant_id) ≡ true = ground arith in
            let q : namespace_q c.scope_context false x.namespace ≡ true = ground arith in
            (
              subst (λ y. In y rows) same m,
              ap (λ (y : Tag). y.tenant_id) (sym same)
                  ∙ (string_eq.beq_iff x.tenant_id tenant_id).0 own,
              ap (λ (y : Tag). y.namespace) (sym same) ∙ exact c.scope_context x.namespace scoped q,
            )
      ]

  module _ (settings : Settings) (source : Source) (context : Option AuditContext) (db : Db)
      (w : HasCatalog db) (t x : Tag) (stored : In t db.tags) (other : In x db.tags)
      (apart : x.id ≢ t.id) where
    delete_tag-In :
        (answer : Answer Tag) (v : Db)
        → delete_tag settings source context t db ≡ ok (answer, v)
        → In x v.tags
    unfolding delete_tag
    delete_tag-In answer v h =
        let (b, u, run, rest) = >>=-inv (deactivate_tag settings source context t) _ db h in
        let last : u ≡ v = ground arith in
        let d = deactivate_tag-Deactivated settings source context t db b u run in
        subst (λ (y : Db). In x y.tags) last
          (elim d.outcome [
            | inl (_, _, same) ↦ subst (λ (y : Db). In x y.tags) (sym same) other
            | inr (r, _) ↦
                let (now, row) = r.turned_off in
                let (_, id) = find_row-inv tag_table t.id db.tags d.locked d.found in
                In-save_row tag_table r.off db.tags u.tags x r.saved other
                  (λ e. apart (e ∙ ap (λ (y : Tag). y.id) row ∙ id))
          ])

    patch_tag-In :
        (tenant : String) (answer : Answer Tag) (v : Db)
        → patch_tag settings source context c tenant t db ≡ ok (answer, v)
        → In x v.tags
    unfolding patch_tag validated_tag patched_tag
    patch_tag-In tenant answer v h =
        let (_, _, h₁) =
          lift-inv (reject_null_namespaced_application_id c.request.body c.scope_context) _ db h in
        let (payload, _, h₂) = lift-inv c.payload _ db h₁ in
        let (patch, u, loading, h₃) =
          >>=-inv (validated_tag tenant c.scope_context c.global_references payload) _ db h₂ in
        let still =
          validated_tag-same tenant c.scope_context c.global_references payload db patch u
            loading in
        let (t', u', run, h₄) = >>=-inv (update_tag settings source context t _) _ u h₃ in
        let last : u' ≡ v = ground arith in
        let d = update_tag-Updated settings source context t _ u t' u' run in
        let there = subst (λ (y : Db). In x y.tags) still other in
        subst (λ (y : Db). In x y.tags) last
          (elim d.outcome [
            | inl (_, _, same) ↦ subst (λ (y : Db). In x y.tags) (sym same) there
            | inr saved ↦
                let (now, row) = saved.row in
                subst (λ ts. In x ts) (sym saved.wrote.kept.tags)
                  (In-save_row tag_table t' u.tags saved.wrote.after x saved.wrote.wrote there
                    (λ e. apart (e ∙ ap (λ (y : Tag). y.id) row)))
          ])

  -- A call of `tag_detail` that is no GET and succeeds, for a request with a tenant and a
  -- well-formed scope, from a store that keeps the catalog's invariant: every stored tag of
  -- another tenant or of another namespace, a global one included unless the request is global,
  -- is in the table afterwards exactly as it was.
  pub tag_detail-isolated :
      (settings : Settings) (source : Source) (context : Option AuditContext) (i : ℕ) (db : Db)
      (answer : Answer Tag) (v : Db)
      → tag_detail settings source context c i db ≡ ok (answer, v)
      → HasCatalog db
      → (x : Tag) → In x db.tags
      → (x.tenant_id ≢ tenant_id) ⊎ (x.namespace ≢ c.scope_context)
      → In x v.tags
  unfolding tag_detail
  tag_detail-isolated settings source context i db answer v h w x m outside =
      let (found, e, h₁) = lift-inv (detail_object tag_table tag_place c i db.tags) _ db h in
      let (stored, tenant, home) = detail_object-inv i db.tags found.0 found.1 e in
      let apart : x.id ≢ found.1.id = λ q.
        let same = same_row tag_table db.tags x found.1 w.tag_rows m stored q in
        elim outside [
          | inl n ↦ n (ap (λ (y : Tag). y.tenant_id) same ∙ tenant)
          | inr n ↦ n (ap (λ (y : Tag). y.namespace) same ∙ home)
        ] in
      elim (Bool-cases (c.request.method == "DELETE")) [
        | inl delete ↦
            delete_tag-In settings source context db w found.1 x stored m apart answer v
              (ground arith)
        | inr patch ↦
            patch_tag-In settings source context db w found.1 x stored m apart found.0 answer v
              (ground arith)
      ]
