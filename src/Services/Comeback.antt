-- ===== src/Services/Comeback.antt =====
-- `reactivate_tag_alias` of octonomy/tags/alias_services.py on a catalog that nothing else changes: an
-- alias whose tag is active, and whose slug is free, comes back.
use octonomy.Prelude.{
  ℕ, suc, String, ◌≡◌, refl, ap, ◌∙◌, true, false, ◌&&◌, not, Option, some, List, [], ◌∷◌, In-All,
  any, arith, nat_beq, nat_beq_iff, ◌==◌, string_eq, option_eq, beq_refl, nat_eq,
}
use octonomy.Errors.{Result, ok}
use octonomy.Scope.{Settings, guard_namespace_write_enabled}
use octonomy.Catalog.{Tag, TagAlias, aliases_clash}
use octonomy.Catalog.Clash.{beq_sym}
use octonomy.Catalog.Table.{Table, find_row, get_row, write_over, save_row, update_row}
use octonomy.Catalog.Table.Laws.{find_row-inv, find_row-write_over}
use octonomy.Store.{
  AuditContext, Db, Source, Tx, ◌>>=◌, ◌>>◌, carry_on, lift, except_integrity_error, pure,
}
use octonomy.Store.Changes.{Change}
use octonomy.Store.Kept.{Kept, changes_kept}
use octonomy.Services.{
  tag_table, alias_table, put_aliases, on_table, scope_of_columns, or_conflict, written,
  get_in_tenant, flag_change,
}
use octonomy.Services.Aliases.{
  validate_alias_tag, alias_change, flag_alias, revive_alias, attempt_locked, attempt, attempts,
  or_again, reactivate_tag_alias,
}
use octonomy.Services.References.{
  tag_place, may_refer, refers, place_at-found, alias_fits, HasCatalog,
}

get_in_tenant-ok :
    {A : Type 0} (table : Table A) (tenant_of : A → String) (i : ℕ) (tenant_id : String)
    (rows : List A) (x : A)
    → find_row table i rows ≡ some x
    → (tenant_of x == tenant_id) ≡ true
    → get_in_tenant table tenant_of i tenant_id rows ≡ ok x
unfolding get_in_tenant get_row
get_in_tenant-ok table tenant_of i tenant_id rows x found own = ground arith

update_row-ok :
    {A : Type 0} (table : Table A) (f : A → A) (i : ℕ) (rows : List A) (x : A)
    → find_row table i rows ≡ some x
    → table.checks (f x) ≡ true
    → any (λ y. not (nat_beq (table.id_of y) (table.id_of (f x))) && table.clash y (f x)) rows
      ≡ false
    → update_row table f i rows ≡ ok (write_over table (f x) rows)
unfolding update_row save_row
update_row-ok table f i rows x found c k = ground arith

-- An entity write that the constraints allow goes through, with its records.
written-ok :
    {A B : Type 0} (source : Source) (context : Option AuditContext) (rows : Db → List A)
    (put : List A → Db → Db) (write : List A → Result (List A)) (change : Change) (entity : B)
    (db : Db) (after : List A)
    → write (rows db) ≡ ok after
    → (v : Db) × (written source context (or_conflict (on_table rows put write)) change entity db
        ≡ ok (entity, v))
      × Kept (put after db) v
unfolding written or_conflict except_integrity_error on_table
written-ok source context rows put write change entity db after h =
    let (v, e, k) = changes_kept source context (change ∷ []) (put after db) in
    (v, ground (arith, e), k)

-- The tag of an alias that fits, when it is active, passes the validation.
alias_fits-validate_alias_tag :
    (tags : List Tag) (t : Tag) (a : TagAlias)
    → find_row tag_table a.tag_id tags ≡ some t
    → t.is_active ≡ true
    → alias_fits tags a ≡ true
    → ((t.tenant_id == a.tenant_id) ≡ true)
      × (validate_alias_tag a.tenant_id a.application_id t a.namespace ≡ ok tt)
unfolding alias_fits refers may_refer validate_alias_tag
alias_fits-validate_alias_tag tags t a found on fits =
    let place = place_at-found tag_table tag_place tags a.tag_id t found in
    (ground (arith, place), ground (arith, place, beq_sym a.application_id t.application_id))

module _ (settings : Settings) (source : Source) (context : Option AuditContext) (a : TagAlias)
    (t : Tag) (db : Db) (w : HasCatalog db) (stored : find_row alias_table a.id db.aliases ≡ some a)
    (off : a.is_active ≡ false) (there : find_row tag_table a.tag_id db.tags ≡ some t)
    (on : t.is_active ≡ true)
    (free : any (λ x. not (nat_beq x.id a.id) && aliases_clash x (flag_alias true 0 a)) db.aliases
      ≡ false) where
  revive_alias-ok :
      (v : Db) × (revive_alias settings source context a t a.namespace db
        ≡ ok (flag_alias true (source.now db.reads) a, v))
      × Kept
          (put_aliases
            (write_over alias_table (flag_alias true (source.now db.reads) a) db.aliases)
            (record db { reads = suc db.reads }))
          v
  unfolding revive_alias octonomy.Store.read_clock aliases_clash
  revive_alias-ok =
      let (m, _) = find_row-inv alias_table a.id db.aliases a stored in
      let fits = In-All (λ y. alias_fits db.tags y ≡ true) db.aliases a m w.alias_references in
      let (_, valid) = alias_fits-validate_alias_tag db.tags t a there on fits in
      let checked = In-All (λ y. alias_table.checks y ≡ true) db.aliases a m w.alias_rows.1 in
      let now = source.now db.reads in
      let (v, run, k) =
        written-ok source context (λ x. x.aliases) put_aliases
          (update_row alias_table (flag_alias true now) a.id)
          (alias_change "tag_alias.updated" (flag_alias true now a) (flag_change false true))
          (flag_alias true now a) (record db { reads = suc db.reads })
          (write_over alias_table (flag_alias true now a) db.aliases)
          (update_row-ok alias_table (flag_alias true now) a.id db.aliases a stored checked free) in
      (v, rw valid run, k)

  attempt_locked-ok :
      (a' : TagAlias) (v : Db)
      → revive_alias settings source context a t a.namespace db ≡ ok (a', v)
      → attempt_locked settings source context a.namespace a.tag_id t a db ≡ ok (some a', v)
  unfolding attempt_locked
  attempt_locked-ok a' v run =
      let again : (revive_alias settings source context a t a.namespace >>= λ x. pure (some x)) db
          ≡ ok (some a', v) =
        rw run refl in
      ground (arith, (nat_beq_iff a.tag_id a.tag_id).1 refl, again)

  attempt-ok :
      (a' : TagAlias) (v : Db)
      → revive_alias settings source context a t a.namespace db ≡ ok (a', v)
      → attempt settings source context (λ x. x) a a.namespace db ≡ ok (some a', v)
  unfolding attempt
  attempt-ok a' v run =
      let (m, _) = find_row-inv alias_table a.id db.aliases a stored in
      let fits = In-All (λ y. alias_fits db.tags y ≡ true) db.aliases a m w.alias_references in
      let (own, _) = alias_fits-validate_alias_tag db.tags t a there on fits in
      let seen =
        get_in_tenant-ok alias_table (λ x. x.tenant_id) a.id a.tenant_id db.aliases a stored
          (beq_refl a.tenant_id) in
      let locked =
        get_in_tenant-ok tag_table (λ x. x.tenant_id) a.tag_id a.tenant_id db.tags t there own in
      rw seen (rw locked (rw seen (attempt_locked-ok a' v run)))

  -- From a store that keeps the catalog's invariant, and with no other transaction in between,
  -- `reactivate_tag_alias` of a stored alias that is off succeeds if the alias's namespace is
  -- well-formed and may be written, the alias's tag is stored and active, and no other active
  -- alias has its slug in its scope. The answer is active, and is what the table then holds.
  pub reactivate_tag_alias-ok :
      scope_of_columns a.namespace ≡ ok a.namespace
      → guard_namespace_write_enabled settings a.namespace ≡ ok tt
      → (a' : TagAlias) × (v : Db) × (reactivate_tag_alias settings source context (λ n x. x) a db
          ≡ ok (a', v))
        × (a'.is_active ≡ true)
        × (find_row alias_table a.id v.aliases ≡ some a')
  unfolding reactivate_tag_alias attempts
  reactivate_tag_alias-ok s g =
      let (v, run, k) = revive_alias-ok in
      let a' = flag_alias true (source.now db.reads) a in
      (
        a',
        v,
        rw (s, g)
            (ap
              (λ r.
                carry_on r (or_again (attempts settings source context (λ n x. x) a a.namespace 2)))
              (attempt-ok a' v run)),
        refl,
        ap (find_row alias_table a.id) k.aliases
            ∙ find_row-write_over alias_table a.id db.aliases a'
            ∙ ground (arith, beq_refl a.id),
      )
