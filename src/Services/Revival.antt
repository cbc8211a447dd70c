-- ===== src/Services/Revival.antt =====
-- `reactivate_tag` of octonomy/tags/services.py: what a tag that comes back is classified by.
use octonomy.Prelude.{
  ℕ, String, ◌≡◌, inl, inr, ap, sym, ◌∙◌, subst, true, false, Option, none, some, arith,
}
use octonomy.Errors.{ok}
use octonomy.Scope.{Settings, Namespace}
use octonomy.Catalog.{Tag, Vocabulary}
use octonomy.Catalog.Table.{find_row}
use octonomy.Catalog.Table.Laws.{find_row-inv, update_row-inv, save_row-inv, find_row-write_over}
use octonomy.Store.{AuditContext, Db, Source}
use octonomy.Store.Kept.{lift-inv}
use octonomy.Services.{tag_table, vocabulary_table, get_in_tenant}
use octonomy.Services.Tags.{validate_tag_vocabulary, locked_vocabulary, flag_tag, reactivate_tag}
use octonomy.Services.TagFlags.{get_in_tenant-inv, reactivate_tag-Reactivated, Revived}

locked_vocabulary-found :
    (o : Option ℕ) (tenant_id : String) (db : Db) (r : Option Vocabulary) (v : Db) (i : ℕ)
    → locked_vocabulary o tenant_id db ≡ ok (r, v)
    → o ≡ some i
    → (c : Vocabulary) × (find_row vocabulary_table i db.vocabularies ≡ some c) × (r ≡ some c)
unfolding locked_vocabulary
locked_vocabulary-found none tenant_id db r v i h e = cc
locked_vocabulary-found (some j) tenant_id db r v i h e =
    let (c, f, rest) =
      lift-inv (get_in_tenant vocabulary_table (λ y. y.tenant_id) j tenant_id db.vocabularies) _ db
        h in
    let (found, _) =
      get_in_tenant-inv vocabulary_table (λ y. y.tenant_id) j tenant_id db.vocabularies c f in
    let same : j ≡ i = cc in
    (c, ap (λ k. find_row vocabulary_table k db.vocabularies) (sym same) ∙ found, ground arith)

validated_active :
    (tenant_id : String) (application_id : Option String) (c : Vocabulary) (s : Namespace)
    → validate_tag_vocabulary tenant_id application_id (some c) s true ≡ ok tt
    → c.is_active ≡ true
unfolding validate_tag_vocabulary
validated_active tenant_id application_id c s h = ground arith

module _ (settings : Settings) (source : Source) (context : Option AuditContext) where
  vocabulary_active :
      (locked : Tag) (db : Db) (t' : Tag) (v : Db)
      → Revived settings source context locked db t' v
      → (i : ℕ) → locked.vocabulary_id ≡ some i
      → (c : Vocabulary) × (find_row vocabulary_table i db.vocabularies ≡ some c)
        × (c.is_active ≡ true)
  vocabulary_active locked db t' v revived i e =
      let (r, run, valid) = revived.vocabulary in
      let (c, found, same) =
        locked_vocabulary-found locked.vocabulary_id locked.tenant_id db r db i run e in
      (
        c,
        found,
        validated_active locked.tenant_id locked.application_id c locked.namespace (
            subst
              (λ x.
                validate_tag_vocabulary locked.tenant_id locked.application_id x locked.namespace
                  true
                ≡ ok tt)
              same valid),
      )

  revived_stored :
      (t locked : Tag) (db : Db) (t' : Tag) (v : Db)
      → find_row tag_table t.id db.tags ≡ some locked
      → Revived settings source context locked db t' v
      → find_row tag_table t.id v.tags ≡ some t'
  revived_stored t locked db t' v found revived =
      let (now, row, wrote) = revived.row in
      let (x, there, saved) =
        update_row-inv tag_table (flag_tag true now) locked.id db.tags wrote.after wrote.wrote in
      let (e, _, _) = save_row-inv tag_table (flag_tag true now x) db.tags wrote.after saved in
      let (_, id) = find_row-inv tag_table t.id db.tags locked found in
      let same : x ≡ locked = cc (there, found, id) in
      let mine : x.id ≡ t.id = ap (λ (y : Tag). y.id) same ∙ id in
      ap (find_row tag_table t.id) (wrote.kept.tags ∙ e)
      ∙ find_row-write_over tag_table t.id db.tags (flag_tag true now x)
      ∙ ground (arith, mine)
      ∙ ap (λ y. some (flag_tag true now y)) same
      ∙ ap some (sym row)

  -- A successful `reactivate_tag`, of a tag that the caller has loaded with its stored namespace,
  -- answers an active tag, which is what the table then holds; and if the stored tag was off and
  -- has a vocabulary, that vocabulary is stored and active.
  pub reactivate_tag-active :
      (t : Tag) (db : Db) (t' : Tag) (v : Db)
      → reactivate_tag settings source context t db ≡ ok (t', v)
      → ((x : Tag) → find_row tag_table t.id db.tags ≡ some x → x.namespace ≡ t.namespace)
      → (t'.is_active ≡ true)
        × (find_row tag_table t.id v.tags ≡ some t')
        × ((x : Tag)
            → find_row tag_table t.id db.tags ≡ some x
            → x.is_active ≡ false
            → (i : ℕ) → x.vocabulary_id ≡ some i
            → (c : Vocabulary) × (find_row vocabulary_table i db.vocabularies ≡ some c)
              × (c.is_active ≡ true))
  reactivate_tag-active t db t' v h home =
      let r = reactivate_tag-Reactivated settings source context t db t' v h home in
      elim r.outcome [
        | inl (on, same, still) ↦ (
          ap (λ (x : Tag). x.is_active) same ∙ on,
          ap (λ (x : Db). find_row tag_table t.id x.tags) still ∙ r.found ∙ ap some (sym same),
          λ x found off i e.
              let same : x ≡ r.locked = cc (found, r.found) in
              absurd (ground (arith, ap (λ (y : Tag). y.is_active) same, off, on)),
        )
        | inr revived ↦
            let (now, row, _) = revived.row in
            (
              ap (λ (x : Tag). x.is_active) row,
              revived_stored t r.locked db t' v r.found revived,
              λ x found off i e.
                  let same : x ≡ r.locked = cc (found, r.found) in
                  vocabulary_active r.locked db t' v revived i
                    (ap (λ (y : Tag). y.vocabulary_id) (sym same) ∙ e),
            )
      ]
