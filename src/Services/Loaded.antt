-- ===== src/Services/Loaded.antt =====
-- Rows that a caller has loaded before it calls a service of octonomy/tags/services.py or
-- octonomy/tags/alias_services.py, and what the validations then establish about the references to them.
use octonomy.Prelude.{
  String, ◌≡◌, refl, Bool, true, Option, none, some, List, arith, string_eq, option_eq, nat_eq,
}
use octonomy.Errors.{ok}
use octonomy.Scope.{Namespace}
use octonomy.Scope.Laws.{scope_context-IsScope}
use octonomy.Catalog.{Tag, Vocabulary}
use octonomy.Services.{scope_of_columns}
use octonomy.Services.Tags.{validate_tag_parent, validate_tag_vocabulary}
use octonomy.Services.References.{
  tag_place, vocabulary_place, tag_place_at, vocabulary_place_at, may_refer, refers, refers_to,
}

-- The store still has the row, where it was. Its other columns may have changed since.
abbrev pub LoadedTag : List Tag → Option Tag → Type 0
LoadedTag tags none = Unit
LoadedTag tags (some t) = tag_place_at tags t.id ≡ some (tag_place t)

abbrev pub LoadedVocabulary : List Vocabulary → Option Vocabulary → Type 0
LoadedVocabulary vocabularies none = Unit
LoadedVocabulary vocabularies (some v) =
    vocabulary_place_at vocabularies v.id ≡ some (vocabulary_place v)

pub scope_of_columns-same : (s scope : Namespace) → scope_of_columns s ≡ ok scope → scope ≡ s
scope_of_columns-same s scope h = (scope_context-IsScope s.namespace_type s.namespace_id scope h).1

-- A validated parent may be referred to.
pub validate_tag_parent-refers :
    (tags : List Tag) (tenant_id : String) (application_id : Option String) (s : Namespace)
    (parent : Option Tag)
    → LoadedTag tags parent
    → validate_tag_parent tenant_id application_id parent s ≡ ok tt
    → refers
        (elim parent [ none ↦ none | some t ↦ some t.id ])
        (tag_place_at tags)
        (record { tenant_id = tenant_id; application_id = application_id; namespace = s })
      ≡ true
unfolding validate_tag_parent may_refer
validate_tag_parent-refers tags tenant_id application_id s none l h = unfold refers in refl
validate_tag_parent-refers tags tenant_id application_id s (some t) l h =
    refers_to t.id (tag_place_at tags)
      (record { tenant_id = tenant_id; application_id = application_id; namespace = s })
      (tag_place t) l (ground arith)

pub validate_tag_vocabulary-refers :
    (vocabularies : List Vocabulary) (tenant_id : String) (application_id : Option String)
    (s : Namespace) (vocabulary : Option Vocabulary) (require_active : Bool)
    → LoadedVocabulary vocabularies vocabulary
    → validate_tag_vocabulary tenant_id application_id vocabulary s require_active ≡ ok tt
    → refers
        (elim vocabulary [ none ↦ none | some v ↦ some v.id ])
        (vocabulary_place_at vocabularies)
        (record { tenant_id = tenant_id; application_id = application_id; namespace = s })
      ≡ true
unfolding validate_tag_vocabulary may_refer
validate_tag_vocabulary-refers vocabularies tenant_id application_id s none r l h =
    unfold refers in refl
validate_tag_vocabulary-refers vocabularies tenant_id application_id s (some v) r l h =
    refers_to v.id (vocabulary_place_at vocabularies)
      (record { tenant_id = tenant_id; application_id = application_id; namespace = s })
      (vocabulary_place v) l (ground arith)
