-- ===== src/Services/Deactivation.antt =====
-- `deactivate_tag` of octonomy/tags/services.py when it succeeds: the tag is off, and so is every alias
-- of it.
use octonomy.Prelude.{
  ℕ, suc, String, ◌≡◌, ◌⊎◌, inl, inr, refl, ap, sym, ◌∙◌, subst, Bool, true, false, ◌&&◌, ◌||◌, not,
  Option, none, some, List, [], ◌∷◌, map, In, In-All, arith, Bool-cases, Option-cases,
  if◌then◌else◌,
}
use octonomy.Errors.{ok}
use octonomy.Scope.{Settings, guard_namespace_write_enabled}
use octonomy.Catalog.{Tag, TagAlias}
use octonomy.Catalog.Table.{find_row, get_row, save_row, update_row, write_over}
use octonomy.Catalog.Table.Laws.{
  get_row-inv, find_row-inv, update_row-inv, save_row-inv, find_row-write_over,
}
use octonomy.Store.{AuditContext, Db, Source, Tx, pure, ◌>>=◌, ◌>>◌}
use octonomy.Store.Changes.{create_audit_logs, create_outbox_events}
use octonomy.Store.Kept.{>>=-inv, lift-inv, Kept, Kept_trans, audit_logs_kept, events_kept}
use octonomy.Services.{tag_table, put_tags, put_aliases, on_tags, scope_of_columns}
use octonomy.Services.Tags.{
  tag_change, flag_tag, cascaded, cascade_row, cascade, guard_each, retire_tag, deactivate_tag,
  cascade_change, deactivation_body, record_deactivation,
}
use octonomy.Services.Writes.{on_table-inv}
use octonomy.Services.References.{tag_fits, alias_fits, active_at, active_at-found, HasCatalog}
use octonomy.Services.Tables.{deactivate_tag-IsCatalog}
use octonomy.Services.TagFlags.{stored_fits}

map_nothing : (now : ℕ) (rows : List TagAlias) → map (cascade_row [] now) rows ≡ rows
unfolding cascade_row octonomy.Prelude.contains
map_nothing now [] = refl
map_nothing now (a ∷ rows) = ap (λ as'. a ∷ as') (map_nothing now rows)

module _ (settings : Settings) (source : Source) (context : Option AuditContext) where
  cascade-inv :
      (ids : List ℕ) (db u : Db)
      → cascade settings source context ids db ≡ ok (tt, u)
      → (now : ℕ) × Kept (put_aliases (map (cascade_row ids now) db.aliases) db) u
  unfolding cascade octonomy.Store.read_clock
  cascade-inv [] db u h =
      let same : db ≡ u = ground arith in
      (
        0,
        subst (Kept (put_aliases (map (cascade_row [] 0) db.aliases) db)) same (record {
          tags = refl;
          aliases = sym (map_nothing 0 db.aliases);
          vocabularies = refl;
          assignments = refl;
        }),
      )
  cascade-inv (i ∷ is) db u h =
      let now = source.now db.reads in
      let (after, e, same) =
        on_table-inv (λ x. x.aliases) put_aliases (λ rows. ok (map (cascade_row (i ∷ is) now) rows))
          (record db { reads = suc db.reads }) u h in
      let q : map (cascade_row (i ∷ is) now) db.aliases ≡ after = ground arith in
      (
        now,
        subst (Kept _) same
            (record { tags = refl; aliases = sym q; vocabularies = refl; assignments = refl }),
      )

  record_deactivation-Kept :
      (t : Tag) (active : List TagAlias) (db v : Db)
      → record_deactivation settings source context t active db ≡ ok (tt, v)
      → Kept db v
  unfolding record_deactivation
  record_deactivation-Kept t active db v h =
      let change = tag_change "tag.deactivated" t (deactivation_body (map (λ a. a.id) active)) in
      let (u₁, e₁, k₁) = audit_logs_kept source context (change ∷ []) db in
      let (u₂, e₂, k₂) = events_kept source context (change ∷ []) u₁ in
      let (u₃, e₃, k₃) = events_kept source context (map (cascade_change t) active) u₂ in
      let (_, x₁, f₁, h₁) = >>=-inv (create_audit_logs source context (change ∷ [])) _ db h in
      let (_, x₂, f₂, h₂) = >>=-inv (create_outbox_events source context (change ∷ [])) _ x₁ h₁ in
      let p : x₁ ≡ u₁ = ground arith in
      let q : x₂ ≡ u₂ = ground arith in
      let r : u₃ ≡ v = ground arith in subst (Kept db) r (Kept_trans k₁ (Kept_trans k₂ k₃))

  -- What `deactivate_tag` does to the stored row when it is on.
  pub record Retired (locked : Tag) (db v : Db) : Type 0 where
    pub was_on : locked.is_active ≡ true
    pub off : Tag
    pub turned_off : (now : ℕ) × (off ≡ flag_tag false now locked)
    pub saved : save_row tag_table off db.tags ≡ ok v.tags
    pub cascade :
        (now : ℕ) × (v.aliases
          ≡ map (cascade_row (map (λ a. a.id) (cascaded locked db.aliases)) now) db.aliases)
    pub vocabularies : v.vocabularies ≡ db.vocabularies

  retire_tag-Retired :
      (locked : Tag) (db : Db) (b : Bool) (v : Db)
      → find_row tag_table locked.id db.tags ≡ some locked
      → locked.is_active ≡ true
      → retire_tag settings source context locked db ≡ ok (b, v)
      → Retired locked db v × (b ≡ true)
  unfolding retire_tag octonomy.Store.read_clock
  retire_tag-Retired locked db b v was on h =
      let now = source.now db.reads in
      let (_, u₁, e₁, h₁) =
        >>=-inv (on_tags (update_row tag_table (flag_tag false now) locked.id)) _
          (record db { reads = suc db.reads }) h in
      let (after, wrote, same₁) =
        on_table-inv (λ x. x.tags) put_tags (update_row tag_table (flag_tag false now) locked.id)
          (record db { reads = suc db.reads }) u₁ e₁ in
      let (x, found, saved) =
        update_row-inv tag_table (flag_tag false now) locked.id db.tags after wrote in
      let active = cascaded locked u₁.aliases in
      let (_, _, h₂) = lift-inv (guard_each settings source context active) _ u₁ h₁ in
      let (_, u₂, e₂, h₃) =
        >>=-inv (cascade settings source context (map (λ a. a.id) active)) _ u₁ h₂ in
      let (later, k₁) = cascade-inv (map (λ a. a.id) active) u₁ u₂ e₂ in
      let (_, u₃, e₃, h₄) =
        >>=-inv (record_deactivation settings source context locked active) _ u₂ h₃ in
      let k = Kept_trans k₁ (record_deactivation-Kept locked active u₂ u₃ e₃) in
      let last : u₃ ≡ v = ground arith in
      let stored : x ≡ locked = cc (found, was) in
      let final = ap (λ (y : Db). y.aliases) (sym last) ∙ k.aliases in
      (
        record {
          was_on = on;
          off = flag_tag false now x;
          turned_off = (now, ap (flag_tag false now) stored);
          saved =
              saved
              ∙ ap ok (ap (λ (y : Db). y.tags) same₁ ∙ sym k.tags ∙ ap (λ (y : Db). y.tags) last);
          cascade = (
            later,
            subst
                (λ rows.
                  v.aliases ≡ map (cascade_row (map (λ a. a.id) (cascaded locked rows)) later) rows)
                (ap (λ (y : Db). y.aliases) (sym same₁)) final,
          );
          vocabularies =
              ap (λ (y : Db). y.vocabularies) (sym last)
              ∙ k.vocabularies
              ∙ ap (λ (y : Db). y.vocabularies) (sym same₁);
        },
        ground arith,
      )

  -- What `deactivate_tag` found and did.
  pub record Deactivated (t : Tag) (db : Db) (b : Bool) (v : Db) : Type 0 where
    pub locked : Tag
    pub found : find_row tag_table t.id db.tags ≡ some locked
    pub outcome :
        ((locked.is_active ≡ false) × (b ≡ false) × (v ≡ db)) ⊎ (Retired locked db v × (b ≡ true))

  pub deactivate_tag-Deactivated :
      (t : Tag) (db : Db) (b : Bool) (v : Db)
      → deactivate_tag settings source context t db ≡ ok (b, v)
      → Deactivated t db b v
  unfolding deactivate_tag
  deactivate_tag-Deactivated t db b v h =
      let (scope, _, h₁) = lift-inv (scope_of_columns t.namespace) _ db h in
      let (_, _, h₂) = lift-inv (guard_namespace_write_enabled settings scope) _ db h₁ in
      let (locked, f, h₃) = lift-inv (get_row tag_table t.id db.tags) _ db h₂ in
      let found = get_row-inv tag_table t.id db.tags locked f in
      let (_, id) = find_row-inv tag_table t.id db.tags locked found in
      record {
        locked = locked;
        found = found;
        outcome = elim (Bool-cases locked.is_active) [
          | inl on ↦ inr (
              retire_tag-Retired locked db b v (ap (λ i. find_row tag_table i db.tags) id ∙ found)
                on (ground arith))
          | inr off ↦ inl (off, ground arith, ground arith)
        ];
      }

  pub deactivate_tag-HasCatalog :
      (t : Tag) (db : Db) (b : Bool) (v : Db)
      → deactivate_tag settings source context t db ≡ ok (b, v)
      → HasCatalog db
      → HasCatalog v
  unfolding tag_fits
  deactivate_tag-HasCatalog t db b v h w =
      let d = deactivate_tag-Deactivated t db b v h in
      elim d.outcome [
        | inl (_, _, same) ↦ rw same w
        | inr (r, _) ↦
            let (now, row) = r.turned_off in
            let (later, aliases) = r.cascade in
            let (_, id) = find_row-inv tag_table t.id db.tags d.locked d.found in
            rw (aliases, r.vocabularies)
              (deactivate_tag-IsCatalog db.tags db.aliases db.vocabularies w d.locked r.off later
                v.tags (ap (λ i. find_row tag_table i db.tags) id ∙ d.found) (rw row refl)
                (rw row refl) (rw row (stored_fits db t.id d.locked w d.found)) r.saved)
      ]

  -- The tag is off once the service has answered.
  off_after :
      (t : Tag) (db : Db) (b : Bool) (v : Db)
      → deactivate_tag settings source context t db ≡ ok (b, v)
      → active_at v.tags t.id ≡ false
  off_after t db b v h =
      let d = deactivate_tag-Deactivated t db b v h in
      elim d.outcome [
        | inl (off, _, same) ↦
            ap (λ (x : Db). active_at x.tags t.id) same
            ∙ active_at-found db.tags t.id d.locked d.found
            ∙ off
        | inr (r, _) ↦
            let (now, row) = r.turned_off in
            let (e, _, _) = save_row-inv tag_table r.off db.tags v.tags r.saved in
            let (_, id) = find_row-inv tag_table t.id db.tags d.locked d.found in
            let mine : r.off.id ≡ t.id = ap (λ (x : Tag). x.id) row ∙ id in
            let hit : find_row tag_table t.id (write_over tag_table r.off db.tags) ≡ some r.off =
              find_row-write_over tag_table t.id db.tags r.off ∙ ground (arith, mine) in
            ap (λ ts. active_at ts t.id) e
            ∙ active_at-found (write_over tag_table r.off db.tags) t.id r.off hit
            ∙ ap (λ (x : Tag). x.is_active) row
      ]

  -- After `deactivate_tag` has answered, from a store that keeps the catalog's invariant, whether or
  -- not the tag was active before: no alias in the table that points at the tag is active.
  pub deactivate_tag-no_active_alias :
      (t : Tag) (db : Db) (b : Bool) (v : Db)
      → deactivate_tag settings source context t db ≡ ok (b, v)
      → HasCatalog db
      → (a : TagAlias) → In a v.aliases
      → a.tag_id ≡ t.id
      → a.is_active ≡ false
  unfolding alias_fits
  deactivate_tag-no_active_alias t db b v h w a m target =
      let fits =
        In-All (λ x. alias_fits v.tags x ≡ true) v.aliases a m
          (deactivate_tag-HasCatalog t db b v h w).alias_references in
      let off = ap (active_at v.tags) target ∙ off_after t db b v h in ground (arith, fits, off)
