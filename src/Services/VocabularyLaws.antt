-- ===== src/Services/VocabularyLaws.antt =====
-- What the services of octonomy/tags/vocabulary_services.py do when they succeed.
use octonomy.Prelude.{
  ℕ, suc, String, ◌≡◌, inl, inr, refl, ap, ◌∙◌, Bool, true, false, Option, none, some, arith,
  Bool-cases,
}
use octonomy.Errors.{ok}
use octonomy.Scope.{Settings, guard_namespace_write_enabled, guard_scope_immutable}
use octonomy.Catalog.{Vocabulary}
use octonomy.Catalog.Table.{find_row, insert_row, save_row, update_row}
use octonomy.Catalog.Table.Laws.{find_row-inv, update_row-inv}
use octonomy.Store.{AuditContext, Db, Source, Tx, pure}
use octonomy.Store.Changes.{Change}
use octonomy.Store.Kept.{lift-inv}
use octonomy.Services.{
  vocabulary_table, put_vocabularies, scope_of_columns, get_in_tenant, validate_metadata,
}
use octonomy.Services.Patch.{VocabularyPatch, is_unchanged, vocabulary_diff, patched_vocabulary}
use octonomy.Services.Vocabularies.{
  VocabularyData, flag_vocabulary, create_vocabulary, save_vocabulary, update_vocabulary,
  revive_vocabulary, reactivate_vocabulary, retire_vocabulary, deactivate_vocabulary,
}
use octonomy.Services.Writes.{Wrote, or_conflict-Wrote, plain-Wrote}
use octonomy.Services.References.{HasCatalog, HasCatalog-Kept}
use octonomy.Services.Tables.{insert_vocabulary-IsCatalog, save_vocabulary-IsCatalog}

module _ (settings : Settings) (source : Source) (context : Option AuditContext) where
  pub create_vocabulary-HasCatalog :
      (tenant_id : String) (payload : VocabularyData) (db : Db) (c : Vocabulary) (v : Db)
      → create_vocabulary settings source context tenant_id payload db ≡ ok (c, v)
      → HasCatalog db
      → HasCatalog v
  unfolding create_vocabulary octonomy.Store.draw_uuid octonomy.Store.read_clock
  create_vocabulary-HasCatalog tenant_id payload db c v h w =
      let (_, _, h₁) = lift-inv (validate_metadata payload.metadata) _ db h in
      let (scope, _, h₂) = lift-inv (scope_of_columns payload.namespace) _ db h₁ in
      let (_, _, h₃) = lift-inv (guard_namespace_write_enabled settings scope) _ db h₂ in
      let (wrote, _) =
        or_conflict-Wrote (λ x. x.vocabularies) put_vocabularies (insert_row vocabulary_table _)
          source context _ _ c _ v h₃ in
      HasCatalog-Kept (put_vocabularies wrote.after (record db { reads = _; draws = _ })) v
        wrote.kept
        (insert_vocabulary-IsCatalog db.tags db.aliases db.vocabularies w _ wrote.after wrote.wrote)

  save_vocabulary-HasCatalog :
      (c : Vocabulary) (patch : VocabularyPatch) (db : Db) (c' : Vocabulary) (v : Db)
      → save_vocabulary settings source context c patch db ≡ ok (c', v)
      → find_row vocabulary_table c.id db.vocabularies ≡ some c
      → HasCatalog db
      → HasCatalog v
  unfolding save_vocabulary octonomy.Store.read_clock patched_vocabulary
  save_vocabulary-HasCatalog c patch db c' v h was w =
      let (wrote, _) =
        or_conflict-Wrote (λ x. x.vocabularies) put_vocabularies (save_row vocabulary_table _)
          source context _ _ c' _ v h in
      HasCatalog-Kept (put_vocabularies wrote.after (record db { reads = _ })) v wrote.kept (
        save_vocabulary-IsCatalog db.tags db.aliases db.vocabularies w _ c wrote.after was refl
          wrote.wrote)

  pub update_vocabulary-HasCatalog :
      (c : Vocabulary) (patch : VocabularyPatch) (db : Db) (c' : Vocabulary) (v : Db)
      → update_vocabulary settings source context c patch db ≡ ok (c', v)
      → find_row vocabulary_table c.id db.vocabularies ≡ some c
      → HasCatalog db
      → HasCatalog v
  unfolding update_vocabulary
  update_vocabulary-HasCatalog c patch db c' v h was w =
      let (scope, _, h₁) = lift-inv (scope_of_columns c.namespace) _ db h in
      let (_, _, h₂) = lift-inv (guard_namespace_write_enabled settings scope) _ db h₁ in
      let (_, _, h₃) =
        lift-inv (guard_scope_immutable c.namespace c.application_id patch.scope) _ db h₂ in
      let (_, _, h₄) =
        lift-inv (elim patch.metadata [ none ↦ ok tt | some value ↦ validate_metadata value ]) _ db
          h₃ in
      elim (Bool-cases (is_unchanged (vocabulary_diff c patch))) [
        | inl quiet ↦ let same : v ≡ db = ground arith in rw same w
        | inr changed ↦ save_vocabulary-HasCatalog c patch db c' v (ground arith) was w
      ]

  -- A flag turned on the stored row leaves it in its place.
  flagged :
      (active : Bool) (now i : ℕ) (db v : Db) (change : Change)
      → Wrote
          (λ x. x.vocabularies)
          put_vocabularies
          (update_row vocabulary_table (flag_vocabulary active now) i)
          context
          change
          (record db { reads = suc db.reads })
          v
      → HasCatalog db
      → HasCatalog v
  flagged active now i db v change wrote w =
      let (x, found, saved) =
        update_row-inv vocabulary_table (flag_vocabulary active now) i db.vocabularies wrote.after
          wrote.wrote in
      let (_, id) = find_row-inv vocabulary_table i db.vocabularies x found in
      HasCatalog-Kept (put_vocabularies wrote.after (record db { reads = _ })) v wrote.kept (
        save_vocabulary-IsCatalog db.tags db.aliases db.vocabularies w
          (flag_vocabulary active now x) x wrote.after
          (ap (λ j. find_row vocabulary_table j db.vocabularies) id ∙ found) refl saved)

  revive_vocabulary-HasCatalog :
      (locked : Vocabulary) (db : Db) (c' : Vocabulary) (v : Db)
      → revive_vocabulary settings source context locked db ≡ ok (c', v)
      → HasCatalog db
      → HasCatalog v
  unfolding revive_vocabulary octonomy.Store.read_clock
  revive_vocabulary-HasCatalog locked db c' v h w =
      flagged true (source.now db.reads) locked.id db v _
        (or_conflict-Wrote (λ x. x.vocabularies) put_vocabularies (update_row vocabulary_table _ _)
          source context _ _ c' _ v h).0
        w

  pub reactivate_vocabulary-HasCatalog :
      (c : Vocabulary) (db : Db) (c' : Vocabulary) (v : Db)
      → reactivate_vocabulary settings source context c db ≡ ok (c', v)
      → HasCatalog db
      → HasCatalog v
  unfolding reactivate_vocabulary
  reactivate_vocabulary-HasCatalog c db c' v h w =
      let (scope, _, h₁) = lift-inv (scope_of_columns c.namespace) _ db h in
      let (_, _, h₂) = lift-inv (guard_namespace_write_enabled settings scope) _ db h₁ in
      let (locked, _, h₃) =
        lift-inv
          (get_in_tenant vocabulary_table (λ x. x.tenant_id) c.id c.tenant_id db.vocabularies) _ db
          h₂ in
      elim (Bool-cases locked.is_active) [
        | inl on ↦ let same : v ≡ db = ground arith in rw same w
        | inr off ↦ revive_vocabulary-HasCatalog locked db c' v (ground arith) w
      ]

  retire_vocabulary-HasCatalog :
      (c : Vocabulary) (db : Db) (b : Bool) (v : Db)
      → retire_vocabulary settings source context c db ≡ ok (b, v)
      → HasCatalog db
      → HasCatalog v
  unfolding retire_vocabulary octonomy.Store.read_clock
  retire_vocabulary-HasCatalog c db b v h w =
      flagged false (source.now db.reads) c.id db v _
        (plain-Wrote (λ x. x.vocabularies) put_vocabularies (update_row vocabulary_table _ _) source
          context _ _ b _ v h).0
        w

  pub deactivate_vocabulary-HasCatalog :
      (c : Vocabulary) (db : Db) (b : Bool) (v : Db)
      → deactivate_vocabulary settings source context c db ≡ ok (b, v)
      → HasCatalog db
      → HasCatalog v
  unfolding deactivate_vocabulary
  deactivate_vocabulary-HasCatalog c db b v h w =
      let (scope, _, h₁) = lift-inv (scope_of_columns c.namespace) _ db h in
      let (_, _, h₂) = lift-inv (guard_namespace_write_enabled settings scope) _ db h₁ in
      elim (Bool-cases c.is_active) [
        | inl on ↦ retire_vocabulary-HasCatalog c db b v (ground arith) w
        | inr off ↦ let same : v ≡ db = ground arith in rw same w
      ]
