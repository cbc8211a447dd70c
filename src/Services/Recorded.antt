-- ===== src/Services/Recorded.antt =====
-- What `update_tag` and `create_tag` of octonomy/tags/services.py answer and record.
use octonomy.Prelude.{
  ℕ, String, ◌≡◌, ◌⊎◌, inl, inr, refl, ap, sym, ◌∙◌, subst, Bool, true, false, Option, none, some,
  [], ◌∷◌, ◌++◌, In, arith, Bool-cases, string_eq, option_eq,
}
use octonomy.Errors.{ok}
use octonomy.Json.{Json, text, opt_text, opt_uuid, bool, json_beq}
use octonomy.Scope.{Settings}
use octonomy.Catalog.{Tag, TagAlias}
use octonomy.Catalog.Table.{find_row}
use octonomy.Catalog.Table.Laws.{save_row-inv, find_row-write_over}
use octonomy.Store.{AuditContext, Db, Source}
use octonomy.Store.Changes.{Change, build_audit_log, build_outbox_event}
use octonomy.Services.{tag_table}
use octonomy.Services.Patch.{
  TagPatch, Diff, is_unchanged, diff_body, tag_diff, patched_tag, noted, assigned, no_diff,
  same_text, same_note, same_id, bool_beq, parent_ids, vocabulary_ids,
}
use octonomy.Services.Tags.{tag_change, update_tag}
use octonomy.Services.Writes.{Recorded}
use octonomy.Services.References.{tag_place, active_at, active_at-found, alias_fits}
use octonomy.Services.TagUpdates.{update_tag-Updated, Saved}

-- A turn of the loop that notes nothing sets nothing, and leaves the rest of what was noted.
noted-quiet :
    {A : Type 0} (same : A → A → Bool) (key : String) (show : A → Json) (current : A)
    (value : Option A) (rest : Diff)
    → is_unchanged (noted same key show current value rest) ≡ true
    → (assigned same current value ≡ current) × (is_unchanged rest ≡ true)
unfolding noted assigned
noted-quiet same key show current none rest h = (refl, h)
noted-quiet same key show current (some value) rest h = elim (Bool-cases (same current value)) [
  | inl e ↦ (rw e refl, ground arith)
  | inr e ↦ absurd (ground arith)
]

-- If the loop of `update_tag` notes no change, it has set no field.
pub patched_tag-unchanged :
    (t : Tag) (patch : TagPatch) → is_unchanged (tag_diff t patch) ≡ true → patched_tag t patch ≡ t
unfolding tag_diff patched_tag
patched_tag-unchanged t patch h =
    let d₈ =
      noted same_id "vocabulary_id" opt_uuid t.vocabulary_id (vocabulary_ids patch) no_diff in
    let d₇ = noted same_id "parent_id" opt_uuid t.parent_id (parent_ids patch) d₈ in
    let d₆ = noted bool_beq "is_active" bool t.is_active patch.is_active d₇ in
    let d₅ = noted json_beq "metadata" (λ j. j) t.metadata patch.metadata d₆ in
    let d₄ = noted same_note "description" opt_text t.description patch.description d₅ in
    let d₃ = noted same_text "type" text t.type patch.type d₄ in
    let d₂ = noted same_text "slug" text t.slug patch.slug d₃ in
    let (e₁, h₁) = noted-quiet same_text "name" text t.name patch.name d₂ h in
    let (e₂, h₂) = noted-quiet same_text "slug" text t.slug patch.slug d₃ h₁ in
    let (e₃, h₃) = noted-quiet same_text "type" text t.type patch.type d₄ h₂ in
    let (e₄, h₄) =
      noted-quiet same_note "description" opt_text t.description patch.description d₅ h₃ in
    let (e₅, h₅) = noted-quiet json_beq "metadata" (λ j. j) t.metadata patch.metadata d₆ h₄ in
    let (e₆, h₆) = noted-quiet bool_beq "is_active" bool t.is_active patch.is_active d₇ h₅ in
    let (e₇, h₇) = noted-quiet same_id "parent_id" opt_uuid t.parent_id (parent_ids patch) d₈ h₆ in
    let (e₈, h₈) =
      noted-quiet same_id "vocabulary_id" opt_uuid t.vocabulary_id (vocabulary_ids patch) no_diff
        h₇ in
    rw (e₁, e₂, e₃, e₄, e₅, e₆, e₇, e₈) refl

Recorded-same :
    (context : Option AuditContext) (change : Change) (db u v : Db)
    → u.audit_logs ≡ db.audit_logs
    → u.outbox_events ≡ db.outbox_events
    → Recorded context change u v
    → Recorded context change db v
Recorded-same none change db u v p q (r, s) = (r ∙ p, s ∙ q)
Recorded-same (some c) change db u v p q (i, n, j, m, r, s) = (
  i,
  n,
  j,
  m,
  r ∙ ap (λ xs. xs ++ build_audit_log c change i n ∷ []) p,
  s ∙ ap (λ xs. xs ++ build_outbox_event c change j m ∷ []) q,
)

-- What an update of a stored tag comes to: the tag keeps its id and its place, the answer is what
-- the table then holds, and either nothing is written or the changed row, one audit row and one
-- event are, which carry the noted changes.
pub record IsUpdate (context : Option AuditContext) (t : Tag) (patch : TagPatch) (db : Db)
    (t' : Tag) (v : Db) : Type 0 where
  pub id : t'.id ≡ t.id
  pub place : tag_place t' ≡ tag_place t
  pub stored : find_row tag_table t.id v.tags ≡ some t'
  pub outcome :
      ((patched_tag t patch ≡ t) × (t' ≡ t) × (v ≡ db))
      ⊎ ((is_unchanged (tag_diff t patch) ≡ false)
          × ((now : ℕ) × (t' ≡ record (patched_tag t patch) { updated_at = now }))
          × Recorded context (tag_change "tag.updated" t' (diff_body (tag_diff t patch))) db v)

module _ (settings : Settings) (source : Source) (context : Option AuditContext) where
  saved_stored :
      (t : Tag) (patch : TagPatch) (db : Db) (t' : Tag) (v : Db)
      → Saved settings source context t patch db t' v
      → (t'.id ≡ t.id) × (find_row tag_table t.id v.tags ≡ some t')
  unfolding patched_tag
  saved_stored t patch db t' v saved =
      let (now, row) = saved.row in
      let id : t'.id ≡ t.id = ap (λ (x : Tag). x.id) row in
      let (e, _, _) = save_row-inv tag_table t' db.tags saved.wrote.after saved.wrote.wrote in
      (
        id,
        ap (find_row tag_table t.id) (saved.wrote.kept.tags ∙ e)
            ∙ find_row-write_over tag_table t.id db.tags t'
            ∙ ground (arith, id),
      )

  -- A successful `update_tag` of the stored row keeps the tag's id, tenant, application and
  -- namespace, and answers what the table then holds. Either the payload sets no field to another
  -- value, and nothing is written, or the changed row is written, and with an audit context one
  -- audit row and one event, both with the changes that the loop noted.
  pub update_tag-IsUpdate :
      (t : Tag) (patch : TagPatch) (db : Db) (t' : Tag) (v : Db)
      → update_tag settings source context t patch db ≡ ok (t', v)
      → find_row tag_table t.id db.tags ≡ some t
      → IsUpdate context t patch db t' v
  unfolding patched_tag
  update_tag-IsUpdate t patch db t' v h was =
      let u = update_tag-Updated settings source context t patch db t' v h in
      elim u.outcome [
        | inl (quiet, same, still) ↦ record {
          id = ap (λ (x : Tag). x.id) same;
          place = ap tag_place same;
          stored = ap (λ (x : Db). find_row tag_table t.id x.tags) still ∙ was ∙ ap some (sym same);
          outcome = inl (patched_tag-unchanged t patch quiet, same, still);
        }
        | inr saved ↦
            let (id, stored) = saved_stored t patch db t' v saved in
            record {
              id = id;
              place = ap tag_place saved.row.1;
              stored = stored;
              outcome = inr (
                saved.changed,
                saved.row,
                Recorded-same context _ db _ v refl refl saved.wrote.recorded,
              );
            }
      ]

  -- `update_tag` of the stored row, with a payload that turns an active tag off, leaves an active
  -- alias of the tag in the table as it was: an active alias of an inactive tag.
  pub update_tag-leaves_aliases :
      (t : Tag) (patch : TagPatch) (db : Db) (t' : Tag) (v : Db)
      → update_tag settings source context t patch db ≡ ok (t', v)
      → find_row tag_table t.id db.tags ≡ some t
      → t.is_active ≡ true
      → patch.is_active ≡ some false
      → (a : TagAlias) → In a db.aliases
      → a.tag_id ≡ t.id
      → a.is_active ≡ true
      → In a v.aliases × (alias_fits v.tags a ≡ false)
  update_tag-leaves_aliases t patch db t' v h was on off a m target live =
      let u = update_tag-Updated settings source context t patch db t' v h in
      elim u.outcome [
        | inl (quiet, _, _) ↦ absurd (
            unset (
              sym (turned_off t patch on off)
              ∙ ap (λ (x : Tag). x.is_active) (patched_tag-unchanged t patch quiet)
              ∙ on))
        | inr saved ↦
            let (_, stored) = saved_stored t patch db t' v saved in
            let silent : t'.is_active ≡ false =
              ap (λ (x : Tag). x.is_active) saved.row.1 ∙ turned_off t patch on off in
            let dead : active_at v.tags a.tag_id ≡ false =
              ap (active_at v.tags) target ∙ active_at-found v.tags t.id t' stored ∙ silent in
            (
              subst (λ rows. In a rows) (sym saved.wrote.kept.aliases) m,
              unfold alias_fits in ground (arith, dead, live),
            )
      ]
    where
      unset : false ≡ true → ⊥
      unset e = cc

      turned_off :
          (t : Tag) (patch : TagPatch)
          → t.is_active ≡ true
          → patch.is_active ≡ some false
          → (patched_tag t patch).is_active ≡ false
      turned_off t patch on off = unfold patched_tag in unfold assigned in ground (arith, on, off)
