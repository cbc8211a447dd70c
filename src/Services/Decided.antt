-- ===== src/Services/Decided.antt =====
-- What the services of octonomy/tags/services.py and octonomy/tags/alias_services.py together promise
-- to the resolution of slugs.
use octonomy.Prelude.{
  String, ◌≡◌, ◌⊎◌, Bool, true, false, some, List, [], ◌∷◌, All, All-map_imp, is_empty, arith, ◌==◌,
  string_eq,
}
use octonomy.Errors.{ok, err, validation}
use octonomy.Scope.{Settings, Namespace, IsScope}
use octonomy.Catalog.{Tag, TagAlias, Pairs, tag_checks, TagConstraints, AliasConstraints}
use octonomy.Catalog.Table.{Table, Apart}
use octonomy.Store.{Db, Source}
use octonomy.Resolution.{Match}
use octonomy.Resolution.Resolve.{
  active_tags_for_resolution, active_aliases_for_resolution, resolve_in_scope,
}
use octonomy.Resolution.Decided.{resolve_in_scope-decided}
use octonomy.Services.{tag_table, alias_table}
use octonomy.Services.References.{HasCatalog}
use octonomy.Services.History.{Calls, Calls-HasCatalog}

module _ {A : Type 0} (table : Table A) where
  unclashing :
      (x : A) (xs : List A) → All (Apart table x) xs → All (λ y. table.clash x y ≡ false) xs
  unclashing x xs h = All-map_imp xs (λ y a. a.1) h

  Pairs-unclashing :
      (xs : List A) → Pairs (Apart table) xs → Pairs (λ x y. table.clash x y ≡ false) xs
  Pairs-unclashing [] p = tt
  Pairs-unclashing (x ∷ xs) p = (unclashing x xs p.0, Pairs-unclashing xs p.1)

pub HasCatalog-TagConstraints : (db : Db) → HasCatalog db → TagConstraints db.tags
unfolding tag_checks
HasCatalog-TagConstraints db w = (
  Pairs-unclashing tag_table db.tags w.tag_rows.0,
  All-map_imp db.tags (λ t h. ground arith) w.tag_rows.1,
)

pub HasCatalog-AliasConstraints : (db : Db) → HasCatalog db → AliasConstraints db.aliases
HasCatalog-AliasConstraints db w =
    (Pairs-unclashing alias_table db.aliases w.alias_rows.0, w.alias_rows.1)

module _ (settings : Settings) (source : Source) where
  -- After any sequence of successful calls of the services in which an updated row is the stored
  -- one, a named parent or vocabulary is in its place, and no update turns an active tag off, from a
  -- store that keeps the catalog's invariant: for a well-formed scope, a slug asked for in a named
  -- application and type resolves, or is refused because neither query finds a row. No ambiguity is
  -- ever reported.
  pub Calls-decided :
      (db v : Db)
      → Calls settings source db v
      → HasCatalog db
      → (tag_before : Tag → Tag → Bool) (alias_before : TagAlias → TagAlias → Bool)
        (tenant_id slug a ty : String) (s : Namespace) (include_global : Bool)
      → IsScope s
      → (a == "") ≡ false
      → (ty == "") ≡ false
      → let r =
          resolve_in_scope v.tags v.aliases tag_before alias_before tenant_id slug
            (some a)
            (some ty)
            s
            include_global in
        ((m : Match) × (r ≡ ok m))
        ⊎ ((r ≡ err (validation "slug"))
            × (is_empty (
                  active_tags_for_resolution v.tags v.aliases tag_before alias_before tenant_id slug
                    (some a)
                    (some ty)
                    s
                    include_global)
                ≡ true)
            × (is_empty (
                  active_aliases_for_resolution v.tags v.aliases tag_before alias_before tenant_id
                    slug
                    (some a)
                    s
                    include_global)
                ≡ true))
  Calls-decided db v calls w tag_before alias_before tenant_id slug a ty s include_global scoped app
        typed =
      let kept = Calls-HasCatalog settings source db v calls w in
      resolve_in_scope-decided v.tags v.aliases tag_before alias_before tenant_id slug a ty s
        include_global scoped app typed (HasCatalog-TagConstraints v kept)
        (HasCatalog-AliasConstraints v kept)
