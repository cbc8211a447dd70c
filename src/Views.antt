-- ===== src/Views.antt =====
-- What the views of one tag, one alias and one vocabulary share, octonomy/tags/views.py,
-- octonomy/tags/alias_views.py and octonomy/tags/vocabulary_views.py, behind the permission: the lookup of the
-- object, and of what a payload refers to. What the framework parses of a body is a field of
-- the call; rendering the answer, and the usage count in it, are not modelled here.
pub mod Detail
pub mod Listing
pub mod Isolation
mod Tests
use octonomy.Prelude.{
  ℕ, String, Bool, true, false, ◌&&◌, Option, none, some, List, find, nat_beq, ◌==◌, string_eq,
  if◌then◌else◌,
}
use octonomy.Errors.{Result, ok, err, validation, http_404}
use octonomy.Scope.{Settings, Namespace, ScopePatch, namespace_q, application_q}
use octonomy.Request.{Request, application_filter_params, reject_null_namespaced_application_id}
use octonomy.Catalog.{Tag, TagAlias, Vocabulary}
use octonomy.Catalog.Table.{Table}
use octonomy.Store.{AuditContext, Source, Tx, ◌>>=◌, ◌>>◌, pure, lift}
use octonomy.Services.{tag_table, alias_table, vocabulary_table}
use octonomy.Services.Patch.{TagPatch, AliasPatch, VocabularyPatch}
use octonomy.Services.Tags.{update_tag, deactivate_tag}
use octonomy.Services.Aliases.{update_tag_alias, deactivate_tag_alias}
use octonomy.Services.Vocabularies.{update_vocabulary, deactivate_vocabulary}
use octonomy.Services.References.{Place, tag_place, alias_place, vocabulary_place}

-- `require_tenant`
unfoldable pub require_tenant : Request → Result String
require_tenant r = elim r.tenant_id [
  | none ↦ err (validation "X-Tenant-ID")
  | some value ↦ if value == "" then err (validation "X-Tenant-ID") else ok value
]

-- What bounds the lookup of an object.
pub record Bounds : Type 0 where
  pub tenant_id : String
  pub scope_context : Namespace
  pub include_global : Bool
  pub application_ids : Option (List String)
  pub include_shared : Bool

-- The bounds that the detail views compute: `reads_global` is `request_include_global`, which only
-- a read asks for, and `authorized` is `authorized_application_ids`.
unfoldable pub detail_bounds : Request → Namespace → Bool → Option (List String) → String → Bounds
detail_bounds r s reads_global authorized tenant_id =
    let params = application_filter_params authorized r in
    record {
      tenant_id = tenant_id;
      scope_context = s;
      include_global = if r.method == "GET" then reads_global else false;
      application_ids = params.0;
      include_shared = params.1;
    }

-- The conditions of `tags_for_tenant`, `aliases_for_tenant` and `vocabularies_for_tenant` with
-- `apply_application_filter`.
unfoldable pub within : Bounds → Place → Bool
within b p =
    p.tenant_id == b.tenant_id
    && namespace_q b.scope_context b.include_global p.namespace
    && application_q b.application_ids b.include_shared p.application_id

-- `get_tag_or_404`, `get_alias_or_404` and `get_vocabulary_or_404`.
unfoldable pub get_or_404 : {A : Type 0} → Table A → (A → Place) → Bounds → ℕ → List A → Result A
unfolding within
get_or_404 table place b i rows =
    elim (find (λ x. nat_beq (table.id_of x) i && within b (place x)) rows) [
      | none ↦ err http_404
      | some x ↦ ok x
    ]

-- What a view answers with.
pub data Answer (A : Type 0) : Type 0 where
  shown : A → Answer A
  no_content : Answer A

-- `update_data_with_body_scope`: the namespace fields of the body, put back into the payload.
unfoldable pub with_body_scope :
    Option (Option String) → Option (Option String) → ScopePatch → ScopePatch
with_body_scope body_type body_id patch = record patch {
  namespace_type = elim body_type [ none ↦ patch.namespace_type | some v ↦ some v ];
  namespace_id = elim body_id [ none ↦ patch.namespace_id | some v ↦ some v ];
}

-- `validate_parent_id`, `validate_vocabulary_id` and `validate_tag_id` of the serializers: the row of
-- the tenant that the request's scope lets a payload refer to, a null staying null.
unfoldable pub referenced :
    {A : Type 0}
    → Table A
    → (A → Place)
    → String
    → Namespace
    → Bool
    → String
    → List A
    → Option (Option ℕ)
    → Result (Option (Option A))
referenced table place tenant_id s include_global key rows none = ok none
referenced table place tenant_id s include_global key rows (some none) = ok (some none)
referenced table place tenant_id s include_global key rows (some (some i)) =
    elim (find
      (λ x.
        nat_beq (table.id_of x) i
        && (place x).tenant_id == tenant_id
        && namespace_q s include_global (place x).namespace)
      rows) [ none ↦ err (validation key) | some x ↦ ok (some (some x)) ]

-- A parsed payload, whose relations are ids.
pub record TagPayload : Type 0 where
  pub patch : TagPatch
  pub parent_id : Option (Option ℕ)
  pub vocabulary_id : Option (Option ℕ)

pub record AliasPayload : Type 0 where
  pub patch : AliasPatch
  pub tag_id : Option ℕ

-- `serializer.validated_data`, with its relations loaded.
unfoldable pub validated_tag : String → Namespace → Bool → TagPayload → Tx TagPatch
validated_tag tenant_id s references payload = do
  parent ← λ db.
      lift
        (referenced tag_table tag_place tenant_id s references "parent_id" db.tags
          payload.parent_id)
        db
  vocabulary ← λ db.
      lift
        (referenced vocabulary_table vocabulary_place tenant_id s references "vocabulary_id"
          db.vocabularies payload.vocabulary_id)
        db
  pure (record payload.patch { parent = parent; vocabulary = vocabulary })

abbrev present : Option ℕ → Option (Option ℕ)
present none = none
present (some i) = some (some i)

abbrev loaded_tag : Option (Option Tag) → Option Tag
loaded_tag none = none
loaded_tag (some t) = t

unfoldable pub validated_alias : String → Namespace → Bool → AliasPayload → Tx AliasPatch
validated_alias tenant_id s references payload = do
  t ← λ db.
      lift
        (referenced tag_table tag_place tenant_id s references "tag_id" db.tags
          (present payload.tag_id))
        db
  pure (record payload.patch { tag = loaded_tag t })

-- The request as the permission has left it, with what the framework parses of its body: the
-- namespace fields, and the payload or the error of the serializer.
pub record Asked (P : Type 0) : Type 0 where
  pub request : Request
  pub scope_context : Namespace
  pub include_global : Bool
  pub global_references : Bool
  pub authorized : Option (List String)
  pub body_type : Option (Option String)
  pub body_id : Option (Option String)
  pub payload : Result P

-- The object of a detail view.
unfoldable pub detail_object :
    {A P : Type 0} → Table A → (A → Place) → Asked P → ℕ → List A → Result (String × A)
detail_object table place c i rows = elim (require_tenant c.request) [
  | err e ↦ err e
  | ok tenant_id ↦
      elim (get_or_404 table place
        (detail_bounds c.request c.scope_context c.include_global c.authorized tenant_id) i rows) [
          | err e ↦ err e
          | ok x ↦ ok (tenant_id, x)
        ]
]
