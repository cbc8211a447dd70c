-- ===== src/Services/TagUpdates.antt =====
-- `update_tag` and `reactivate_tag` of octonomy/tags/services.py when they succeed.
use octonomy.Prelude.{
  ℕ, suc, ◌≡◌, ◌⊎◌, inl, inr, refl, ap, sym, ◌∙◌, subst, Bool, true, false, Option, none, some,
  List, arith, Bool-cases, Option-cases, if◌then◌else◌, option_beq_iff, nat_eq, option_eq,
}
use octonomy.Errors.{ok}
use octonomy.Scope.{Settings, guard_namespace_write_enabled, guard_scope_immutable}
use octonomy.Catalog.{Tag, Vocabulary}
use octonomy.Catalog.Table.{find_row, save_row}
use octonomy.Store.{AuditContext, Db, Source, Tx, pure}
use octonomy.Store.Kept.{>>=-inv, lift-inv}
use octonomy.Services.{tag_table, put_tags, scope_of_columns}
use octonomy.Services.Patch.{
  TagPatch, is_unchanged, diff_body, tag_diff, patched_tag, assigned, same_id,
}
use octonomy.Services.Tags.{
  validate_tag_parent, validate_tag_vocabulary, tag_change, related_tag, related_vocabulary, given,
  vocabulary_changed, save_tag, update_tag,
}
use octonomy.Services.Writes.{Wrote, or_conflict-Wrote}
use octonomy.Services.References.{tag_fits, HasCatalog, HasCatalog-Kept}
use octonomy.Services.Tables.{save_tag-IsCatalog}
use octonomy.Services.Loaded.{
  LoadedTag, LoadedVocabulary, scope_of_columns-same, validate_tag_parent-refers,
  validate_tag_vocabulary-refers,
}
use octonomy.Services.TagLaws.{related_tag-inv, related_vocabulary-inv}

-- The ids of optional rows.
abbrev tag_ids_of : Option Tag → Option ℕ
tag_ids_of r = elim r [ none ↦ none | some t ↦ some t.id ]

abbrev vocabulary_ids_of : Option Vocabulary → Option ℕ
vocabulary_ids_of r = elim r [ none ↦ none | some v ↦ some v.id ]

assigned_id : (current value : Option ℕ) → assigned same_id current (some value) ≡ value
unfolding assigned
assigned_id current value = elim (Bool-cases (same_id current value)) [
  | inl same ↦ rw same ((option_beq_iff current value).0 same)
  | inr other ↦ rw other refl
]

-- The loop leaves the ids of the relations that were validated.
patched_parent :
    (t : Tag) (patch : TagPatch) (old : Option Tag)
    → t.parent_id ≡ tag_ids_of old
    → (patched_tag t patch).parent_id ≡ tag_ids_of (given patch.parent old)
unfolding patched_tag
patched_parent t patch old e = elim (Option-cases patch.parent) [
  | inl absent ↦ rw absent (unfold assigned in e)
  | inr (none, q) ↦ rw q (assigned_id t.parent_id none)
  | inr (some p, q) ↦ rw q (assigned_id t.parent_id (some p.id))
]

patched_vocabulary_id :
    (t : Tag) (patch : TagPatch) (old : Option Vocabulary)
    → t.vocabulary_id ≡ vocabulary_ids_of old
    → (patched_tag t patch).vocabulary_id ≡ vocabulary_ids_of (given patch.vocabulary old)
unfolding patched_tag
patched_vocabulary_id t patch old e = elim (Option-cases patch.vocabulary) [
  | inl absent ↦ rw absent (unfold assigned in e)
  | inr (none, q) ↦ rw q (assigned_id t.vocabulary_id none)
  | inr (some p, q) ↦ rw q (assigned_id t.vocabulary_id (some p.id))
]

-- The rows that a payload names are loaded.
abbrev GivenTag : List Tag → Option (Option Tag) → Type 0
GivenTag tags none = Unit
GivenTag tags (some r) = LoadedTag tags r

abbrev GivenVocabulary : List Vocabulary → Option (Option Vocabulary) → Type 0
GivenVocabulary vocabularies none = Unit
GivenVocabulary vocabularies (some r) = LoadedVocabulary vocabularies r

abbrev pub LoadedPatch : Db → TagPatch → Type 0
LoadedPatch db patch =
    GivenTag db.tags patch.parent × GivenVocabulary db.vocabularies patch.vocabulary

given_tag :
    (tags : List Tag) (o : Option (Option Tag)) (old : Option Tag)
    → LoadedTag tags old
    → GivenTag tags o
    → LoadedTag tags (given o old)
given_tag tags none old l k = l
given_tag tags (some p) old l k = k

given_vocabulary :
    (vocabularies : List Vocabulary) (o : Option (Option Vocabulary)) (old : Option Vocabulary)
    → LoadedVocabulary vocabularies old
    → GivenVocabulary vocabularies o
    → LoadedVocabulary vocabularies (given o old)
given_vocabulary vocabularies none old l k = l
given_vocabulary vocabularies (some p) old l k = k

-- A tag whose relations were validated fits once the loop has set them.
patched_fits :
    (t : Tag) (patch : TagPatch) (db : Db) (old_parent : Option Tag)
    (old_vocabulary : Option Vocabulary) (require_active : Bool)
    → (t.parent_id ≡ tag_ids_of old_parent) × LoadedTag db.tags old_parent
    → (t.vocabulary_id ≡ vocabulary_ids_of old_vocabulary)
      × LoadedVocabulary db.vocabularies old_vocabulary
    → validate_tag_parent t.tenant_id t.application_id (given patch.parent old_parent) t.namespace
      ≡ ok tt
    → validate_tag_vocabulary t.tenant_id t.application_id
        (given patch.vocabulary old_vocabulary)
        t.namespace
        require_active
      ≡ ok tt
    → LoadedPatch db patch
    → tag_fits db.tags db.vocabularies (patched_tag t patch) ≡ true
unfolding tag_fits
patched_fits t patch db old_parent old_vocabulary r (p, l) (q, m) h k (g, g') =
    rw (patched_parent t patch old_parent p, patched_vocabulary_id t patch old_vocabulary q)
      (unfold patched_tag in
        ground (
          arith,
          validate_tag_parent-refers db.tags t.tenant_id t.application_id t.namespace
              (given patch.parent old_parent) (given_tag db.tags patch.parent old_parent l g) h,
          validate_tag_vocabulary-refers db.vocabularies t.tenant_id t.application_id t.namespace
              (given patch.vocabulary old_vocabulary) r
              (given_vocabulary db.vocabularies patch.vocabulary old_vocabulary m g') k,
        ))

module _ (settings : Settings) (source : Source) (context : Option AuditContext) where
  -- The write of `update_tag`.
  pub record Saved (t : Tag) (patch : TagPatch) (db : Db) (t' : Tag) (v : Db) : Type 0 where
    pub changed : is_unchanged (tag_diff t patch) ≡ false
    pub row : (now : ℕ) × (t' ≡ record (patched_tag t patch) { updated_at = now })
    pub wrote :
        Wrote
          (λ x. x.tags)
          put_tags
          (save_row tag_table t')
          context
          (tag_change "tag.updated" t' (diff_body (tag_diff t patch)))
          (record db { reads = suc db.reads })
          v

  save_tag-Saved :
      (t : Tag) (patch : TagPatch) (db : Db) (t' : Tag) (v : Db)
      → is_unchanged (tag_diff t patch) ≡ false
      → save_tag settings source context t patch db ≡ ok (t', v)
      → Saved t patch db t' v
  unfolding save_tag octonomy.Store.read_clock
  save_tag-Saved t patch db t' v changed h =
      let (wrote, row) =
        or_conflict-Wrote (λ x. x.tags) put_tags (save_row tag_table _) source context _ _ t' _ v
          h in
      record {
        changed = changed;
        row = (source.now db.reads, row);
        wrote =
            subst
              (λ (x : Tag).
                Wrote (λ y. y.tags) put_tags (save_row tag_table x) context
                  (tag_change "tag.updated" x (diff_body (tag_diff t patch)))
                  (record db { reads = suc db.reads }) v)
              (sym row) wrote;
      }

  -- What `update_tag` went through.
  pub record Updated (t : Tag) (patch : TagPatch) (db : Db) (t' : Tag) (v : Db) : Type 0 where
    pub allowed : guard_namespace_write_enabled settings t.namespace ≡ ok tt
    pub immutable : guard_scope_immutable t.namespace t.application_id patch.scope ≡ ok tt
    pub fits : LoadedPatch db patch → tag_fits db.tags db.vocabularies (patched_tag t patch) ≡ true
    pub outcome :
        ((is_unchanged (tag_diff t patch) ≡ true) × (t' ≡ t) × (v ≡ db)) ⊎ Saved t patch db t' v

  updated_outcome :
      (t : Tag) (patch : TagPatch) (db : Db) (t' : Tag) (v : Db)
      → (if is_unchanged (tag_diff t patch)
            then pure t
            else save_tag settings source context t patch)
          db
        ≡ ok (t', v)
      → ((is_unchanged (tag_diff t patch) ≡ true) × (t' ≡ t) × (v ≡ db)) ⊎ Saved t patch db t' v
  updated_outcome t patch db t' v h = elim (Bool-cases (is_unchanged (tag_diff t patch))) [
    | inl quiet ↦ inl (quiet, ground arith, ground arith)
    | inr changed ↦ inr (save_tag-Saved t patch db t' v changed (ground arith))
  ]

  pub update_tag-Updated :
      (t : Tag) (patch : TagPatch) (db : Db) (t' : Tag) (v : Db)
      → update_tag settings source context t patch db ≡ ok (t', v)
      → Updated t patch db t' v
  unfolding update_tag
  update_tag-Updated t patch db t' v h =
      let (scope, e, h₁) = lift-inv (scope_of_columns t.namespace) _ db h in
      let (_, g, h₂) = lift-inv (guard_namespace_write_enabled settings scope) _ db h₁ in
      let (_, i, h₃) =
        lift-inv (guard_scope_immutable t.namespace t.application_id patch.scope) _ db h₂ in
      let (old_parent, db₁, r, h₄) = >>=-inv (related_tag t.parent_id) _ db h₃ in
      let (same₁, l, p) = related_tag-inv t.parent_id db old_parent db₁ r in
      let (old_vocabulary, db₂, r', h₅) = >>=-inv (related_vocabulary t.vocabulary_id) _ db₁ h₄ in
      let (same₂, m, q) = related_vocabulary-inv t.vocabulary_id db₁ old_vocabulary db₂ r' in
      let (_, k, h₆) =
        lift-inv
          (validate_tag_parent t.tenant_id t.application_id (given patch.parent old_parent) scope) _
          db₂ h₅ in
      let (_, n, h₇) =
        lift-inv
          (validate_tag_vocabulary t.tenant_id t.application_id
            (given patch.vocabulary old_vocabulary) scope (vocabulary_changed t patch))
          _ db₂ h₆ in
      let same = scope_of_columns-same t.namespace scope e in
      record {
        allowed = subst (λ s. guard_namespace_write_enabled settings s ≡ ok tt) same g;
        immutable = i;
        fits =
            patched_fits t patch db old_parent old_vocabulary (vocabulary_changed t patch) (p, l)
              (q, subst (λ (x : Db). LoadedVocabulary x.vocabularies old_vocabulary) (sym same₁) m)
              (subst
                (λ s.
                  validate_tag_parent t.tenant_id t.application_id (given patch.parent old_parent) s
                  ≡ ok tt)
                same k)
              (subst
                (λ s.
                  validate_tag_vocabulary t.tenant_id t.application_id
                    (given patch.vocabulary old_vocabulary) s (vocabulary_changed t patch)
                  ≡ ok tt)
                same n);
        outcome = updated_outcome t patch db t' v (
            ap
              (if is_unchanged (tag_diff t patch)
                then pure t
                else save_tag settings source context t patch)
              (same₁ ∙ same₂)
            ∙ h₇);
      }

  -- An update keeps the invariant, unless it turns the tag off.
  pub update_tag-HasCatalog :
      (t : Tag) (patch : TagPatch) (db : Db) (t' : Tag) (v : Db)
      → update_tag settings source context t patch db ≡ ok (t', v)
      → find_row tag_table t.id db.tags ≡ some t
      → LoadedPatch db patch
      → (t.is_active ≡ true → (patched_tag t patch).is_active ≡ true)
      → HasCatalog db
      → HasCatalog v
  update_tag-HasCatalog t patch db t' v h was loaded on w =
      let u = update_tag-Updated t patch db t' v h in
      elim u.outcome [
        | inl (_, _, same) ↦ rw same w
        | inr saved ↦
            let (now, row) = saved.row in
            HasCatalog-Kept (put_tags saved.wrote.after (record db { reads = _ })) v
              saved.wrote.kept
              (save_tag-IsCatalog db.tags db.aliases db.vocabularies w t' t saved.wrote.after
                (rw row (unfold patched_tag in was)) (rw row (unfold patched_tag in refl))
                (λ a. rw row (on a)) saved.wrote.wrote (rw row (unfold tag_fits in u.fits loaded)))
      ]
