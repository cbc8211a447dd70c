-- ===== src/Services.antt =====
-- What octonomy/tags/services.py, octonomy/tags/alias_services.py and
-- octonomy/tags/vocabulary_services.py share: the tables that they write, the handling of an entity
-- write, and the audit row and event that follow it.
pub mod Patch
pub mod Tags
pub mod Aliases
pub mod Vocabularies
pub mod Writes
pub mod References
pub mod Cascade
pub mod Tables
pub mod Loaded
pub mod TagLaws
pub mod TagUpdates
pub mod TagFlags
pub mod Deactivation
pub mod AliasLaws
pub mod AliasFlags
pub mod VocabularyLaws
pub mod History
pub mod Decided
pub mod Recorded
pub mod Runs
pub mod Comeback
pub mod Revival
mod Tests
use octonomy.Prelude.{
  ℕ, String, Bool, Option, none, some, List, [], ◌∷◌, ◌==◌, string_eq, if◌then◌else◌,
}
use octonomy.Errors.{Result, ok, err, conflict, validation, does_not_exist}
use octonomy.Json.{Json, is_object, bool, pair, single}
use octonomy.Scope.{Namespace, scope_context, namespace_scope_check}
use octonomy.Catalog.{
  Tag, TagAlias, Vocabulary, tags_clash, aliases_clash, vocabularies_clash, tag_checks,
}
use octonomy.Catalog.Clash.{tags_clash_sym, aliases_clash_sym, vocabularies_clash_sym}
use octonomy.Catalog.Table.{Table, get_row}
use octonomy.Store.{AuditContext, Db, Source, Tx, ◌>>=◌, ◌>>◌, pure, except_integrity_error}
use octonomy.Store.Changes.{Change, record_changes}

abbrev pub tag_table : Table Tag
tag_table = record {
  id_of = λ t. t.id;
  checks = tag_checks;
  clash = tags_clash;
  clash_sym = tags_clash_sym;
}

abbrev pub alias_table : Table TagAlias
alias_table = record {
  id_of = λ a. a.id;
  checks = λ a. namespace_scope_check a.namespace a.application_id;
  clash = aliases_clash;
  clash_sym = aliases_clash_sym;
}

abbrev pub vocabulary_table : Table Vocabulary
vocabulary_table = record {
  id_of = λ v. v.id;
  checks = λ v. namespace_scope_check v.namespace v.application_id;
  clash = vocabularies_clash;
  clash_sym = vocabularies_clash_sym;
}

-- A write to one table of the store, which `rows` reads and `put` replaces.
unfoldable pub on_table :
    {A : Type 0} → (Db → List A) → (List A → Db → Db) → (List A → Result (List A)) → Tx (Unit {0})
on_table rows put write db = elim (write (rows db)) [
  | err e ↦ err e
  | ok after ↦ ok (tt, put after db)
]

abbrev pub put_tags : List Tag → Db → Db
put_tags rows db = record db { tags = rows }

abbrev pub put_aliases : List TagAlias → Db → Db
put_aliases rows db = record db { aliases = rows }

abbrev pub put_vocabularies : List Vocabulary → Db → Db
put_vocabularies rows db = record db { vocabularies = rows }

abbrev pub on_tags : (List Tag → Result (List Tag)) → Tx (Unit {0})
on_tags = on_table (λ db. db.tags) put_tags

abbrev pub on_aliases : (List TagAlias → Result (List TagAlias)) → Tx (Unit {0})
on_aliases = on_table (λ db. db.aliases) put_aliases

abbrev pub on_vocabularies : (List Vocabulary → Result (List Vocabulary)) → Tx (Unit {0})
on_vocabularies = on_table (λ db. db.vocabularies) put_vocabularies

-- `objects.get(id=..., tenant_id=...)`: the row of the primary key, if it is the tenant's.
unfoldable pub get_in_tenant :
    {A : Type 0} → Table A → (A → String) → ℕ → String → List A → Result A
unfolding get_row
get_in_tenant table tenant_of i tenant_id rows = elim (get_row table i rows) [
  | err e ↦ err e
  | ok x ↦ if tenant_of x == tenant_id then ok x else err does_not_exist
]

-- `scope_context_from_values` of a row's namespace columns, or of a payload's.
abbrev pub scope_of_columns : Namespace → Result Namespace
scope_of_columns s = scope_context s.namespace_type s.namespace_id

-- `validate_metadata`
unfoldable pub validate_metadata : Json → Result (Unit {0})
validate_metadata value = if is_object value then ok tt else err (validation "metadata")

-- `{"before": {"is_active": ...}, "after": {"is_active": ...}}`
abbrev pub flag_change : Bool → Bool → Json
flag_change old new =
    pair "before" (single "is_active" (bool old)) "after" (single "is_active" (bool new))

-- An entity write that answers a violated constraint with a 409, and one that lets it pass.
unfoldable pub or_conflict : Tx (Unit {0}) → Tx (Unit {0})
or_conflict write = except_integrity_error write (λ db. err (conflict "slug"))

-- What the services do with a changed entity: the write, its audit row, its event.
unfoldable pub written :
    {A : Type 0} → Source → Option AuditContext → Tx (Unit {0}) → Change → A → Tx A
written source context write change entity = do
  write
  record_changes source context (change ∷ [])
  pure entity
