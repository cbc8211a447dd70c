-- ===== src/Services/Tables.antt =====
-- That the writes of one table which octonomy/tags/services.py and its neighbours make keep the
-- catalog's invariant, when the written row's own references are good.
use octonomy.Prelude.{
  ℕ, ◌≡◌, ap, true, List, [], ◌∷◌, ◌++◌, All, All-append, All-map_imp, All-map_In, In-All, some,
  map, ◌∙◌, nat_eq,
}
use octonomy.Errors.{ok}
use octonomy.Catalog.{Tag, TagAlias, Vocabulary}
use octonomy.Catalog.Table.{find_row, insert_row, write_over, save_row}
use octonomy.Catalog.Table.Laws.{
  insert_row-inv, insert_row-IsTable, save_row-inv, save_row-IsTable, All-write_over,
}
use octonomy.Services.{tag_table, alias_table, vocabulary_table}
use octonomy.Services.Tags.{cascaded, cascade_row}
use octonomy.Services.Cascade.{cascade-IsTable, cascade-alias_fits}
use octonomy.Services.References.{
  Extends, Extends-append, Extends-write_over, tag_place, vocabulary_place, vocabulary_place_at,
  active_at-append, active_at-write_over, tag_fits, tag_fits-Extends, alias_fits,
  alias_fits-Extends, IsCatalog,
}

module _ (tags : List Tag) (aliases : List TagAlias) (vocabularies : List Vocabulary)
    (w : IsCatalog tags aliases vocabularies) where
  pub insert_tag-IsCatalog :
      (t : Tag) (later : List Tag)
      → insert_row tag_table t tags ≡ ok later
      → tag_fits tags vocabularies t ≡ true
      → IsCatalog later aliases vocabularies
  insert_tag-IsCatalog t later h fits =
      let (e, _, _) = insert_row-inv tag_table t tags later h in
      let f = Extends-append tag_table tag_place tags t in
      let move = λ (x : Tag) (p : tag_fits tags vocabularies x ≡ true).
        tag_fits-Extends tags (tags ++ t ∷ []) vocabularies vocabularies x f (λ i s q. q) p in
      record {
        tag_rows = insert_row-IsTable tag_table t tags later h w.tag_rows;
        alias_rows = w.alias_rows;
        vocabulary_rows = w.vocabulary_rows;
        tag_references = rw e (
            All-append (λ x. tag_fits (tags ++ t ∷ []) vocabularies x ≡ true) tags t
              (All-map_imp tags move w.tag_references) (move t fits));
        alias_references = rw e (
            All-map_imp aliases
              (λ a p.
                alias_fits-Extends tags (tags ++ t ∷ []) a f (active_at-append tags t a.tag_id) p)
              w.alias_references);
      }

  -- A save that leaves a tag in its place and does not turn it off.
  pub save_tag-IsCatalog :
      (t old : Tag) (later : List Tag)
      → find_row tag_table t.id tags ≡ some old
      → tag_place t ≡ tag_place old
      → (old.is_active ≡ true → t.is_active ≡ true)
      → save_row tag_table t tags ≡ ok later
      → tag_fits tags vocabularies t ≡ true
      → IsCatalog later aliases vocabularies
  save_tag-IsCatalog t old later was stays on h fits =
      let (e, _, _) = save_row-inv tag_table t tags later h in
      let f = Extends-write_over tag_table tag_place tags t old was stays in
      let move = λ (x : Tag) (p : tag_fits tags vocabularies x ≡ true).
        tag_fits-Extends tags (write_over tag_table t tags) vocabularies vocabularies x f
          (λ i s q. q) p in
      record {
        tag_rows = save_row-IsTable tag_table t tags later h w.tag_rows;
        alias_rows = w.alias_rows;
        vocabulary_rows = w.vocabulary_rows;
        tag_references = rw e (
            All-write_over tag_table
              (λ x. tag_fits (write_over tag_table t tags) vocabularies x ≡ true) t tags
              (move t fits) (All-map_imp tags move w.tag_references));
        alias_references = rw e (
            All-map_imp aliases
              (λ a p.
                alias_fits-Extends tags (write_over tag_table t tags) a f
                  (active_at-write_over tags t old a.tag_id was on) p)
              w.alias_references);
      }

  pub insert_alias-IsCatalog :
      (a : TagAlias) (later : List TagAlias)
      → insert_row alias_table a aliases ≡ ok later
      → alias_fits tags a ≡ true
      → IsCatalog tags later vocabularies
  insert_alias-IsCatalog a later h fits =
      let (e, _, _) = insert_row-inv alias_table a aliases later h in
      record {
        tag_rows = w.tag_rows;
        alias_rows = insert_row-IsTable alias_table a aliases later h w.alias_rows;
        vocabulary_rows = w.vocabulary_rows;
        tag_references = w.tag_references;
        alias_references =
            rw e (All-append (λ x. alias_fits tags x ≡ true) aliases a w.alias_references fits);
      }

  pub save_alias-IsCatalog :
      (a : TagAlias) (later : List TagAlias)
      → save_row alias_table a aliases ≡ ok later
      → alias_fits tags a ≡ true
      → IsCatalog tags later vocabularies
  save_alias-IsCatalog a later h fits =
      let (e, _, _) = save_row-inv alias_table a aliases later h in
      record {
        tag_rows = w.tag_rows;
        alias_rows = save_row-IsTable alias_table a aliases later h w.alias_rows;
        vocabulary_rows = w.vocabulary_rows;
        tag_references = w.tag_references;
        alias_references = rw e (
            All-write_over alias_table (λ x. alias_fits tags x ≡ true) a aliases fits
              w.alias_references);
      }

  vocabularies_replaced :
      (later : List Vocabulary)
      → Extends (vocabulary_place_at vocabularies) (vocabulary_place_at later)
      → All (λ t. tag_fits tags later t ≡ true) tags
  vocabularies_replaced later g =
      All-map_imp tags (λ t p. tag_fits-Extends tags tags vocabularies later t (λ i s q. q) g p)
        w.tag_references

  pub insert_vocabulary-IsCatalog :
      (v : Vocabulary) (later : List Vocabulary)
      → insert_row vocabulary_table v vocabularies ≡ ok later
      → IsCatalog tags aliases later
  insert_vocabulary-IsCatalog v later h =
      let (e, _, _) = insert_row-inv vocabulary_table v vocabularies later h in
      record {
        tag_rows = w.tag_rows;
        alias_rows = w.alias_rows;
        vocabulary_rows =
            insert_row-IsTable vocabulary_table v vocabularies later h w.vocabulary_rows;
        tag_references = rw e (
            vocabularies_replaced (vocabularies ++ v ∷ [])
              (Extends-append vocabulary_table vocabulary_place vocabularies v));
        alias_references = w.alias_references;
      }

  pub save_vocabulary-IsCatalog :
      (v old : Vocabulary) (later : List Vocabulary)
      → find_row vocabulary_table v.id vocabularies ≡ some old
      → vocabulary_place v ≡ vocabulary_place old
      → save_row vocabulary_table v vocabularies ≡ ok later
      → IsCatalog tags aliases later
  save_vocabulary-IsCatalog v old later was stays h =
      let (e, _, _) = save_row-inv vocabulary_table v vocabularies later h in
      record {
        tag_rows = w.tag_rows;
        alias_rows = w.alias_rows;
        vocabulary_rows =
            save_row-IsTable vocabulary_table v vocabularies later h w.vocabulary_rows;
        tag_references = rw e (
            vocabularies_replaced (write_over vocabulary_table v vocabularies)
              (Extends-write_over vocabulary_table vocabulary_place vocabularies v old was stays));
        alias_references = w.alias_references;
      }

  -- The deactivation of a tag with its cascade.
  pub deactivate_tag-IsCatalog :
      (t off : Tag) (now : ℕ) (later : List Tag)
      → find_row tag_table t.id tags ≡ some t
      → off.id ≡ t.id
      → tag_place off ≡ tag_place t
      → tag_fits tags vocabularies off ≡ true
      → save_row tag_table off tags ≡ ok later
      → IsCatalog later
          (map (cascade_row (map (λ x. x.id) (cascaded t aliases)) now) aliases)
          vocabularies
  deactivate_tag-IsCatalog t off now later was same stays fits h =
      let (e, _, _) = save_row-inv tag_table off tags later h in
      let f =
        Extends-write_over tag_table tag_place tags off t
          (ap (λ i. find_row tag_table i tags) same ∙ was) stays in
      let move = λ (x : Tag) (p : tag_fits tags vocabularies x ≡ true).
        tag_fits-Extends tags (write_over tag_table off tags) vocabularies vocabularies x f
          (λ i s q. q) p in
      let ids = map (λ x. x.id) (cascaded t aliases) in
      record {
        tag_rows = save_row-IsTable tag_table off tags later h w.tag_rows;
        alias_rows = cascade-IsTable ids now aliases w.alias_rows;
        vocabulary_rows = w.vocabulary_rows;
        tag_references = rw e (
            All-write_over tag_table
              (λ x. tag_fits (write_over tag_table off tags) vocabularies x ≡ true) off tags
              (move off fits) (All-map_imp tags move w.tag_references));
        alias_references = rw e (
            All-map_In (λ x. alias_fits (write_over tag_table off tags) x ≡ true)
              (cascade_row ids now) aliases
              (λ a m.
                cascade-alias_fits tags t off aliases now was same stays a m
                  (In-All (λ x. alias_fits tags x ≡ true) aliases a m w.alias_references)));
      }
