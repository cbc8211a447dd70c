-- ===== src/Services/TagFlags.antt =====
-- `reactivate_tag` and `deactivate_tag` of octonomy/tags/services.py when they succeed.
use octonomy.Prelude.{
  ℕ, suc, String, ◌≡◌, ◌⊎◌, inl, inr, refl, ap, sym, ◌∙◌, subst, true, false, Option, none, some,
  List, In-All, arith, Bool-cases, if◌then◌else◌, string_eq, ◌==◌,
}
use octonomy.Errors.{Result, ok, err}
use octonomy.Scope.{Settings, guard_namespace_write_enabled}
use octonomy.Catalog.{Tag, Vocabulary}
use octonomy.Catalog.Table.{Table, find_row, get_row, update_row}
use octonomy.Catalog.Table.Laws.{get_row-inv, find_row-inv, update_row-inv}
use octonomy.Store.{AuditContext, Db, Source, Tx, pure}
use octonomy.Store.Kept.{>>=-inv, lift-inv}
use octonomy.Services.{
  tag_table, vocabulary_table, put_tags, get_in_tenant, scope_of_columns, flag_change,
}
use octonomy.Services.Tags.{
  validate_tag_parent, validate_tag_vocabulary, tag_change, related_tag, locked_vocabulary,
  flag_tag, revive_tag, reactivate_tag,
}
use octonomy.Services.Writes.{Wrote, or_conflict-Wrote}
use octonomy.Services.References.{tag_fits, HasCatalog, HasCatalog-Kept}
use octonomy.Services.Tables.{save_tag-IsCatalog}
use octonomy.Services.Loaded.{scope_of_columns-same}
use octonomy.Services.TagLaws.{related_tag-inv}

pub get_in_tenant-inv :
    {A : Type 0} (table : Table A) (tenant_of : A → String) (i : ℕ) (tenant_id : String)
    (rows : List A) (x : A)
    → get_in_tenant table tenant_of i tenant_id rows ≡ ok x
    → (find_row table i rows ≡ some x) × ((tenant_of x == tenant_id) ≡ true)
unfolding get_in_tenant
get_in_tenant-inv {A = A} table tenant_of i tenant_id rows x h =
    opened (get_row table i rows) refl h
  where
    opened :
        (r : Result A)
        → get_row table i rows ≡ r
        → (elim r [
          | err e ↦ err e
          | ok y ↦ if tenant_of y == tenant_id then ok y else err octonomy.Errors.does_not_exist
        ])
          ≡ ok x
        → (find_row table i rows ≡ some x) × ((tenant_of x == tenant_id) ≡ true)
    opened (err e) p q = cc
    opened (ok y) p q = elim (Bool-cases (tenant_of y == tenant_id)) [
      | inl own ↦
          let same : y ≡ x = ground arith in
          (
            get_row-inv table i rows y p ∙ ap some same,
            ap (λ z. tenant_of z == tenant_id) (sym same) ∙ own,
          )
      | inr other ↦ absurd (ground arith)
    ]

-- The stored row fits.
pub stored_fits :
    (db : Db) (i : ℕ) (t : Tag)
    → HasCatalog db
    → find_row tag_table i db.tags ≡ some t
    → tag_fits db.tags db.vocabularies t ≡ true
stored_fits db i t w found =
    In-All (λ x. tag_fits db.tags db.vocabularies x ≡ true) db.tags t
      (find_row-inv tag_table i db.tags t found).0 w.tag_references

locked_vocabulary-inv :
    (o : Option ℕ) (tenant_id : String) (db : Db) (r : Option Vocabulary) (v : Db)
    → locked_vocabulary o tenant_id db ≡ ok (r, v)
    → db ≡ v
unfolding locked_vocabulary
locked_vocabulary-inv none tenant_id db r v h = ground arith
locked_vocabulary-inv (some i) tenant_id db r v h =
    let (x, _, rest) =
      lift-inv (get_in_tenant vocabulary_table (λ y. y.tenant_id) i tenant_id db.vocabularies) _ db
        h in
    ground arith

module _ (settings : Settings) (source : Source) (context : Option AuditContext) where
  -- What `reactivate_tag` does to a tag that is off.
  pub record Revived (locked : Tag) (db : Db) (t' : Tag) (v : Db) : Type 0 where
    pub was_off : locked.is_active ≡ false
    pub vocabulary :
        (r : Option Vocabulary) × (locked_vocabulary locked.vocabulary_id locked.tenant_id db
          ≡ ok (r, db))
        × (validate_tag_vocabulary locked.tenant_id locked.application_id r locked.namespace true
            ≡ ok tt)
    pub row :
        (now : ℕ) × (t' ≡ flag_tag true now locked)
        × Wrote
            (λ x. x.tags)
            put_tags
            (update_row tag_table (flag_tag true now) locked.id)
            context
            (tag_change "tag.updated" t' (flag_change false true))
            (record db { reads = suc db.reads })
            v

  revive_tag-Revived :
      (locked : Tag) (db : Db) (t' : Tag) (v : Db)
      → locked.is_active ≡ false
      → revive_tag settings source context locked locked.namespace db ≡ ok (t', v)
      → Revived locked db t' v
  unfolding revive_tag octonomy.Store.read_clock
  revive_tag-Revived locked db t' v off h =
      let (r, db₁, e, h₁) =
        >>=-inv (locked_vocabulary locked.vocabulary_id locked.tenant_id) _ db h in
      let same₁ = locked_vocabulary-inv locked.vocabulary_id locked.tenant_id db r db₁ e in
      let (parent, db₂, p, h₂) = >>=-inv (related_tag locked.parent_id) _ db₁ h₁ in
      let (same₂, _, _) = related_tag-inv locked.parent_id db₁ parent db₂ p in
      let (_, _, h₃) =
        lift-inv
          (validate_tag_parent locked.tenant_id locked.application_id parent locked.namespace) _ db₂
          h₂ in
      let (_, k, h₄) =
        lift-inv
          (validate_tag_vocabulary locked.tenant_id locked.application_id r locked.namespace true) _
          db₂ h₃ in
      let (wrote, row) =
        or_conflict-Wrote (λ x. x.tags) put_tags
          (update_row tag_table (flag_tag true (source.now db₂.reads)) locked.id) source context _ _
          t' (record db₂ { reads = suc db₂.reads }) v h₄ in
      record {
        was_off = off;
        vocabulary = (
          r,
          subst (λ x. locked_vocabulary locked.vocabulary_id locked.tenant_id db ≡ ok (r, x))
              (sym same₁) e,
          k,
        );
        row = (
          source.now db₂.reads,
          row,
          subst
              (λ (x : Db).
                Wrote (λ y. y.tags) put_tags
                  (update_row tag_table (flag_tag true (source.now db₂.reads)) locked.id) context
                  (tag_change "tag.updated" t' (flag_change false true))
                  (record x { reads = suc x.reads }) v)
              (sym (same₁ ∙ same₂))
              (subst
                (λ (x : Tag).
                  Wrote (λ y. y.tags) put_tags
                    (update_row tag_table (flag_tag true (source.now db₂.reads)) locked.id) context
                    (tag_change "tag.updated" x (flag_change false true))
                    (record db₂ { reads = suc db₂.reads }) v)
                (sym row) wrote),
        );
      }

  -- What `reactivate_tag` found and did.
  pub record Reactivated (t : Tag) (db : Db) (t' : Tag) (v : Db) : Type 0 where
    pub locked : Tag
    pub found : find_row tag_table t.id db.tags ≡ some locked
    pub outcome : ((locked.is_active ≡ true) × (t' ≡ locked) × (v ≡ db)) ⊎ Revived locked db t' v

  reactivated_outcome :
      (t locked : Tag) (db : Db) (t' : Tag) (v : Db)
      → (if locked.is_active
            then pure locked
            else revive_tag settings source context locked locked.namespace)
          db
        ≡ ok (t', v)
      → ((locked.is_active ≡ true) × (t' ≡ locked) × (v ≡ db)) ⊎ Revived locked db t' v
  reactivated_outcome t locked db t' v h = elim (Bool-cases locked.is_active) [
    | inl on ↦ inl (on, ground arith, ground arith)
    | inr off ↦ inr (revive_tag-Revived locked db t' v off (ground arith))
  ]

  -- For a caller whose row is the stored one in its namespace.
  pub reactivate_tag-Reactivated :
      (t : Tag) (db : Db) (t' : Tag) (v : Db)
      → reactivate_tag settings source context t db ≡ ok (t', v)
      → ((x : Tag) → find_row tag_table t.id db.tags ≡ some x → x.namespace ≡ t.namespace)
      → Reactivated t db t' v
  unfolding reactivate_tag
  reactivate_tag-Reactivated t db t' v h home =
      let (scope, e, h₁) = lift-inv (scope_of_columns t.namespace) _ db h in
      let (_, g, h₂) = lift-inv (guard_namespace_write_enabled settings scope) _ db h₁ in
      let (locked, f, h₃) =
        lift-inv (get_in_tenant tag_table (λ x. x.tenant_id) t.id t.tenant_id db.tags) _ db h₂ in
      let (found, _) =
        get_in_tenant-inv tag_table (λ x. x.tenant_id) t.id t.tenant_id db.tags locked f in
      let same = scope_of_columns-same t.namespace scope e ∙ sym (home locked found) in
      record {
        locked = locked;
        found = found;
        outcome = reactivated_outcome t locked db t' v (
            subst
              (λ s.
                (if locked.is_active
                    then pure locked
                    else revive_tag settings source context locked s)
                  db
                ≡ ok (t', v))
              same h₃);
      }

  pub reactivate_tag-HasCatalog :
      (t : Tag) (db : Db) (t' : Tag) (v : Db)
      → reactivate_tag settings source context t db ≡ ok (t', v)
      → ((x : Tag) → find_row tag_table t.id db.tags ≡ some x → x.namespace ≡ t.namespace)
      → HasCatalog db
      → HasCatalog v
  reactivate_tag-HasCatalog t db t' v h home w =
      let r = reactivate_tag-Reactivated t db t' v h home in
      elim r.outcome [
        | inl (_, _, same) ↦ rw same w
        | inr revived ↦
            let (now, row, wrote) = revived.row in
            let (x, found, saved) =
              update_row-inv tag_table (flag_tag true now) r.locked.id db.tags wrote.after
                wrote.wrote in
            let (_, id) = find_row-inv tag_table r.locked.id db.tags x found in
            HasCatalog-Kept (put_tags wrote.after (record db { reads = _ })) v wrote.kept (
              save_tag-IsCatalog db.tags db.aliases db.vocabularies w (flag_tag true now x) x
                wrote.after (ap (λ i. find_row tag_table i db.tags) id ∙ found) refl (λ _. refl)
                saved (unfold tag_fits in stored_fits db r.locked.id x w found))
      ]
