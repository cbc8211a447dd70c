-- ===== src/Services/AliasFlags.antt =====
-- `reactivate_tag_alias` and `deactivate_tag_alias` of octonomy/tags/alias_services.py when they
-- succeed, whatever other transactions commit during a reactivation.
use octonomy.Prelude.{
  ℕ, zero, suc, String, ◌≡◌, ◌⊎◌, inl, inr, refl, ap, sym, ◌∙◌, subst, Bool, true, false, Option,
  none, some, In-All, nat_beq, nat_beq_iff, arith, Bool-cases,
}
use octonomy.Errors.{ok}
use octonomy.Scope.{Settings, Namespace, guard_namespace_write_enabled}
use octonomy.Catalog.{Tag, TagAlias}
use octonomy.Catalog.Table.{find_row, update_row}
use octonomy.Catalog.Table.Laws.{find_row-inv, update_row-inv}
use octonomy.Store.{AuditContext, Db, Source, Tx, pure, ◌>>=◌}
use octonomy.Store.Changes.{Change}
use octonomy.Store.Kept.{>>=-inv, lift-inv}
use octonomy.Services.{tag_table, alias_table, put_aliases, scope_of_columns, get_in_tenant}
use octonomy.Services.Aliases.{
  validate_alias_tag, flag_alias, revive_alias, attempt_locked, attempt, attempts, or_again,
  reactivate_tag_alias, retire_alias, deactivate_tag_alias,
}
use octonomy.Services.Writes.{Wrote, or_conflict-Wrote, plain-Wrote}
use octonomy.Services.References.{active_at-found, alias_fits, HasCatalog, HasCatalog-Kept}
use octonomy.Services.Tables.{save_alias-IsCatalog}
use octonomy.Services.TagFlags.{get_in_tenant-inv}

-- A stored alias fits beside an active tag, whatever its own flag.
flag_alias-alias_fits :
    (db : Db) (i : ℕ) (x : TagAlias) (active : Bool) (now : ℕ)
    → HasCatalog db
    → find_row alias_table i db.aliases ≡ some x
    → (active ≡ false)
      ⊎ ((t : Tag) × (find_row tag_table x.tag_id db.tags ≡ some t) × (t.is_active ≡ true))
    → alias_fits db.tags (flag_alias active now x) ≡ true
unfolding alias_fits
flag_alias-alias_fits db i x active now w found why =
    let fits =
      In-All (λ y. alias_fits db.tags y ≡ true) db.aliases x
        (find_row-inv alias_table i db.aliases x found).0 w.alias_references in
    elim why [
      | inl off ↦ ground (arith, fits)
      | inr (t, there, on) ↦ ground (arith, fits, active_at-found db.tags x.tag_id t there)
    ]

module _ (settings : Settings) (source : Source) (context : Option AuditContext) where
  flagged :
      (active : Bool) (now i : ℕ) (db v : Db) (change : Change)
      → Wrote
          (λ x. x.aliases)
          put_aliases
          (update_row alias_table (flag_alias active now) i)
          context
          change
          (record db { reads = suc db.reads })
          v
      → ((x : TagAlias)
          → find_row alias_table i db.aliases ≡ some x
          → (active ≡ false)
            ⊎ ((t : Tag) × (find_row tag_table x.tag_id db.tags ≡ some t) × (t.is_active ≡ true)))
      → HasCatalog db
      → HasCatalog v
  flagged active now i db v change wrote why w =
      let (x, found, saved) =
        update_row-inv alias_table (flag_alias active now) i db.aliases wrote.after wrote.wrote in
      HasCatalog-Kept (put_aliases wrote.after (record db { reads = _ })) v wrote.kept (
        save_alias-IsCatalog db.tags db.aliases db.vocabularies w (flag_alias active now x)
          wrote.after saved (flag_alias-alias_fits db i x active now w found (why x found)))

  validated_active :
      (tenant_id : String) (application_id : Option String) (t : Tag) (s : Namespace)
      → validate_alias_tag tenant_id application_id t s ≡ ok tt
      → t.is_active ≡ true
  unfolding validate_alias_tag
  validated_active tenant_id application_id t s h = ground arith

  revive_alias-HasCatalog :
      (locked : TagAlias) (t : Tag) (scope : Namespace) (db : Db) (a' : TagAlias) (v : Db)
      → revive_alias settings source context locked t scope db ≡ ok (a', v)
      → find_row alias_table locked.id db.aliases ≡ some locked
      → find_row tag_table locked.tag_id db.tags ≡ some t
      → HasCatalog db
      → HasCatalog v
  unfolding revive_alias octonomy.Store.read_clock
  revive_alias-HasCatalog locked t scope db a' v h was there w =
      let (_, k, h₁) =
        lift-inv (validate_alias_tag locked.tenant_id locked.application_id t scope) _ db h in
      flagged true (source.now db.reads) locked.id db v _
        (or_conflict-Wrote (λ x. x.aliases) put_aliases (update_row alias_table _ _) source context
          _ _ a' _ v h₁).0
        (λ x found.
          let same : locked ≡ x = cc (was, found) in
          inr (
            t,
            ap (λ (y : TagAlias). find_row tag_table y.tag_id db.tags) (sym same) ∙ there,
            validated_active locked.tenant_id locked.application_id t scope k,
          ))
        w

  attempt_locked-HasCatalog :
      (scope : Namespace) (tag_id : ℕ) (t : Tag) (locked : TagAlias) (db : Db) (o : Option TagAlias)
      (v : Db)
      → attempt_locked settings source context scope tag_id t locked db ≡ ok (o, v)
      → find_row alias_table locked.id db.aliases ≡ some locked
      → find_row tag_table tag_id db.tags ≡ some t
      → HasCatalog db
      → HasCatalog v
  unfolding attempt_locked
  attempt_locked-HasCatalog scope tag_id t locked db o v h was there w =
      elim (Bool-cases (nat_beq locked.tag_id tag_id)) [
        | inr moved ↦ let same : v ≡ db = ground arith in rw same w
        | inl still ↦ elim (Bool-cases locked.is_active) [
          | inl on ↦ let same : v ≡ db = ground arith in rw same w
          | inr off ↦
              let going : (revive_alias settings source context locked t scope >>= λ a.
              pure (some a))
                    db
                  ≡ ok (o, v) =
                ground arith in
              let (a', u, run, last) =
                >>=-inv (revive_alias settings source context locked t scope) (λ a. pure (some a))
                  db going in
              let same : u ≡ v = ground arith in
              subst HasCatalog same (
                revive_alias-HasCatalog locked t scope db a' u run was
                  (ap (λ i. find_row tag_table i db.tags)
                      ((nat_beq_iff locked.tag_id tag_id).0 still)
                    ∙ there)
                  w)
        ]
      ]

  attempt-HasCatalog :
      (meanwhile : Db → Db) (a : TagAlias) (scope : Namespace) (db : Db) (o : Option TagAlias)
      (v : Db)
      → attempt settings source context meanwhile a scope db ≡ ok (o, v)
      → ((x : Db) → HasCatalog x → HasCatalog (meanwhile x))
      → HasCatalog db
      → HasCatalog v
  unfolding attempt
  attempt-HasCatalog meanwhile a scope db o v h keeps w =
      let own = λ (x : TagAlias). x.tenant_id in
      let db' = meanwhile db in
      let (seen, _, h₁) =
        lift-inv (get_in_tenant alias_table own a.id a.tenant_id db.aliases) _ db h in
      let (t, e, h₂) =
        lift-inv (get_in_tenant tag_table (λ x. x.tenant_id) seen.tag_id a.tenant_id db'.tags) _ db'
          h₁ in
      let (locked, f, h₃) =
        lift-inv (get_in_tenant alias_table own a.id a.tenant_id db'.aliases) _ db' h₂ in
      let (there, _) =
        get_in_tenant-inv tag_table (λ x. x.tenant_id) seen.tag_id a.tenant_id db'.tags t e in
      let (found, _) = get_in_tenant-inv alias_table own a.id a.tenant_id db'.aliases locked f in
      let (_, id) = find_row-inv alias_table a.id db'.aliases locked found in
      attempt_locked-HasCatalog scope seen.tag_id t locked db' o v h₃
        (ap (λ i. find_row alias_table i db'.aliases) id ∙ found) there (keeps db w)

  attempts-HasCatalog :
      (meanwhile : ℕ → Db → Db) (a : TagAlias) (scope : Namespace) (n : ℕ) (db : Db) (a' : TagAlias)
      (v : Db)
      → attempts settings source context meanwhile a scope n db ≡ ok (a', v)
      → ((i : ℕ) (x : Db) → HasCatalog x → HasCatalog (meanwhile i x))
      → HasCatalog db
      → HasCatalog v
  unfolding attempts
  attempts-HasCatalog meanwhile a scope zero db a' v h keeps w = cc
  attempts-HasCatalog meanwhile a scope (suc n) db a' v h keeps w =
      let (o, u, one, rest) =
        >>=-inv (attempt settings source context (meanwhile n) a scope) _ db h in
      let kept = attempt-HasCatalog (meanwhile n) a scope db o u one (keeps n) w in
      next (λ x e. attempts-HasCatalog meanwhile a scope n x a' v e keeps) o u rest kept
    where
      next :
          ((x : Db)
            → attempts settings source context meanwhile a scope n x ≡ ok (a', v)
            → HasCatalog x
            → HasCatalog v)
          → (o : Option TagAlias) (u : Db)
          → or_again (attempts settings source context meanwhile a scope n) o u ≡ ok (a', v)
          → HasCatalog u
          → HasCatalog v
      next later none u rest kept = later u rest kept
      next later (some revived) u rest kept =
          let same : u ≡ v = ground arith in subst HasCatalog same kept

  pub reactivate_tag_alias-HasCatalog :
      (meanwhile : ℕ → Db → Db) (a : TagAlias) (db : Db) (a' : TagAlias) (v : Db)
      → reactivate_tag_alias settings source context meanwhile a db ≡ ok (a', v)
      → ((i : ℕ) (x : Db) → HasCatalog x → HasCatalog (meanwhile i x))
      → HasCatalog db
      → HasCatalog v
  unfolding reactivate_tag_alias
  reactivate_tag_alias-HasCatalog meanwhile a db a' v h keeps w =
      let (scope, _, h₁) = lift-inv (scope_of_columns a.namespace) _ db h in
      let (_, _, h₂) = lift-inv (guard_namespace_write_enabled settings scope) _ db h₁ in
      attempts-HasCatalog meanwhile a scope 3 db a' v h₂ keeps w

  retire_alias-HasCatalog :
      (a : TagAlias) (db : Db) (b : Bool) (v : Db)
      → retire_alias settings source context a db ≡ ok (b, v)
      → HasCatalog db
      → HasCatalog v
  unfolding retire_alias octonomy.Store.read_clock
  retire_alias-HasCatalog a db b v h w =
      flagged false (source.now db.reads) a.id db v _
        (plain-Wrote (λ x. x.aliases) put_aliases (update_row alias_table _ _) source context _ _ b
          _ v h).0
        (λ x found. inl refl) w

  pub deactivate_tag_alias-HasCatalog :
      (a : TagAlias) (db : Db) (b : Bool) (v : Db)
      → deactivate_tag_alias settings source context a db ≡ ok (b, v)
      → HasCatalog db
      → HasCatalog v
  unfolding deactivate_tag_alias
  deactivate_tag_alias-HasCatalog a db b v h w =
      let (scope, _, h₁) = lift-inv (scope_of_columns a.namespace) _ db h in
      let (_, _, h₂) = lift-inv (guard_namespace_write_enabled settings scope) _ db h₁ in
      elim (Bool-cases a.is_active) [
        | inl on ↦ retire_alias-HasCatalog a db b v (ground arith) w
        | inr off ↦ let same : v ≡ db = ground arith in rw same w
      ]
