-- ===== src/Services/References.antt =====
-- What the references between vocabularies, tags and aliases must satisfy, by the validations of
-- octonomy/tags/services.py and octonomy/tags/alias_services.py, and that the writes of one table leave
-- the references into it as good as they were.
use octonomy.Prelude.{
  ℕ, String, ◌≡◌, inl, inr, refl, ap, ◌∙◌, Bool, true, false, ◌&&◌, ◌||◌, not, Option, none, some,
  List, [], ◌∷◌, ◌++◌, All, is_none, nat_beq, nat_beq_iff, arith, Bool-cases, Option-cases, ◌==◌,
  string_eq, option_eq,
}
use octonomy.Scope.{Namespace, row_matches_scope}
use octonomy.Catalog.{Tag, TagAlias, Vocabulary}
use octonomy.Catalog.Table.{Table, find_row, write_over, IsTable}
use octonomy.Catalog.Table.Laws.{find_row-append, find_row-write_over}
use octonomy.Store.{Db}
use octonomy.Store.Kept.{Kept}
use octonomy.Services.{tag_table, alias_table, vocabulary_table}

-- Where a row lives.
pub record Place : Type 0 where
  pub tenant_id : String
  pub application_id : Option String
  pub namespace : Namespace

abbrev pub tag_place : Tag → Place
tag_place t = record {
  tenant_id = t.tenant_id;
  application_id = t.application_id;
  namespace = t.namespace;
}

abbrev pub alias_place : TagAlias → Place
alias_place a = record {
  tenant_id = a.tenant_id;
  application_id = a.application_id;
  namespace = a.namespace;
}

abbrev pub vocabulary_place : Vocabulary → Place
vocabulary_place v = record {
  tenant_id = v.tenant_id;
  application_id = v.application_id;
  namespace = v.namespace;
}

-- A row here may refer to a row there: same tenant, shared or of the same application, and global
-- or of the same namespace.
unfoldable pub may_refer : Place → Place → Bool
may_refer here there =
    there.tenant_id == here.tenant_id
    && (is_none there.application_id || there.application_id == here.application_id)
    && row_matches_scope there.namespace here.namespace true

module _ {A : Type 0} (table : Table A) (place : A → Place) where
  -- Where the row with this id lives, if there is one.
  unfoldable pub place_at : List A → ℕ → Option Place
  place_at rows i = elim (find_row table i rows) [ none ↦ none | some x ↦ some (place x) ]

  pub place_at-found :
      (rows : List A) (i : ℕ) (x : A)
      → find_row table i rows ≡ some x
      → place_at rows i ≡ some (place x)
  unfolding place_at
  place_at-found rows i x h = ground arith

  pub place_at-inv :
      (rows : List A) (i : ℕ) (s : Place)
      → place_at rows i ≡ some s
      → (x : A) × (find_row table i rows ≡ some x) × (place x ≡ s)
  unfolding place_at
  place_at-inv rows i s h = elim (Option-cases (find_row table i rows)) [
    | inl missing ↦ absurd (ground arith)
    | inr (x, found) ↦ (x, found, ground arith)
  ]

-- What is known of the places of ids stays known.
abbrev pub Extends : (ℕ → Option Place) → (ℕ → Option Place) → Type 0
Extends at later = (i : ℕ) (s : Place) → at i ≡ some s → later i ≡ some s

module _ {A : Type 0} (table : Table A) (place : A → Place) where
  pub Extends-append :
      (rows : List A) (row : A)
      → Extends (place_at table place rows) (place_at table place (rows ++ row ∷ []))
  Extends-append rows row i s h =
      let (x, found, e) = place_at-inv table place rows i s h in
      place_at-found table place (rows ++ row ∷ []) i x (find_row-append table i rows row x found)
      ∙ ap some e

  pub Extends-write_over :
      (rows : List A) (row old : A)
      → find_row table (table.id_of row) rows ≡ some old
      → place row ≡ place old
      → Extends (place_at table place rows) (place_at table place (write_over table row rows))
  Extends-write_over rows row old was stays i s h =
      let (x, found, e) = place_at-inv table place rows i s h in
      elim (Bool-cases (nat_beq (table.id_of row) i)) [
        | inl same ↦
            let q : old ≡ x = cc (
              was,
              found,
              ap (λ j. find_row table j rows) ((nat_beq_iff (table.id_of row) i).0 same),
            ) in
            place_at-found table place (write_over table row rows) i row
              (ground (arith, find_row-write_over table i rows row))
            ∙ ap some (stays ∙ ap place q ∙ e)
        | inr other ↦
            place_at-found table place (write_over table row rows) i x
              (ground (arith, find_row-write_over table i rows row))
            ∙ ap some e
      ]

-- A foreign key, which may be null, leads to a row that may be referred to.
unfoldable pub refers : Option ℕ → (ℕ → Option Place) → Place → Bool
unfolding may_refer
refers none at here = true
refers (some i) at here = elim (at i) [ none ↦ false | some there ↦ may_refer here there ]

pub refers_to :
    (i : ℕ) (at : ℕ → Option Place) (here there : Place)
    → at i ≡ some there
    → may_refer here there ≡ true
    → refers (some i) at here ≡ true
unfolding refers
refers_to i at here there h k = ground arith

pub refers-Extends :
    (o : Option ℕ) (at later : ℕ → Option Place) (here : Place)
    → Extends at later
    → refers o at here ≡ true
    → refers o later here ≡ true
unfolding refers
refers-Extends none at later here f h = refl
refers-Extends (some i) at later here f h = elim (Option-cases (at i)) [
  | inl missing ↦ absurd (ground arith)
  | inr (there, e) ↦ refers_to i later here there (f i there e) (ground arith)
]

abbrev pub tag_place_at : List Tag → ℕ → Option Place
tag_place_at = place_at tag_table tag_place

abbrev pub vocabulary_place_at : List Vocabulary → ℕ → Option Place
vocabulary_place_at = place_at vocabulary_table vocabulary_place

-- The tag with this id is active.
unfoldable pub active_at : List Tag → ℕ → Bool
active_at tags i = elim (find_row tag_table i tags) [ none ↦ false | some t ↦ t.is_active ]

pub active_at-found :
    (tags : List Tag) (i : ℕ) (t : Tag)
    → find_row tag_table i tags ≡ some t
    → active_at tags i ≡ t.is_active
unfolding active_at
active_at-found tags i t h = ground arith

unfoldable pub tag_fits : List Tag → List Vocabulary → Tag → Bool
tag_fits tags vocabularies t =
    refers t.parent_id (tag_place_at tags) (tag_place t)
    && refers t.vocabulary_id (vocabulary_place_at vocabularies) (tag_place t)

-- An active alias needs an active tag.
unfoldable pub alias_fits : List Tag → TagAlias → Bool
alias_fits tags a =
    refers (some a.tag_id) (tag_place_at tags) (alias_place a)
    && (not a.is_active || active_at tags a.tag_id)

-- The tables keep their constraints, and every reference is a good one.
pub record IsCatalog (tags : List Tag) (aliases : List TagAlias) (vocabularies : List Vocabulary)
    : Type 0 where
  pub tag_rows : IsTable tag_table tags
  pub alias_rows : IsTable alias_table aliases
  pub vocabulary_rows : IsTable vocabulary_table vocabularies
  pub tag_references : All (λ t. tag_fits tags vocabularies t ≡ true) tags
  pub alias_references : All (λ a. alias_fits tags a ≡ true) aliases

abbrev pub HasCatalog : Db → Type 0
HasCatalog db = IsCatalog db.tags db.aliases db.vocabularies

pub HasCatalog-Kept : (u v : Db) → Kept u v → HasCatalog u → HasCatalog v
HasCatalog-Kept u v k w = rw (k.tags, k.aliases, k.vocabularies) w

-- What a step does not take away from tags, and from aliases.
pub tag_fits-Extends :
    (tags later : List Tag) (vocabularies vocabularies' : List Vocabulary) (t : Tag)
    → Extends (tag_place_at tags) (tag_place_at later)
    → Extends (vocabulary_place_at vocabularies) (vocabulary_place_at vocabularies')
    → tag_fits tags vocabularies t ≡ true
    → tag_fits later vocabularies' t ≡ true
unfolding tag_fits
tag_fits-Extends tags later vocabularies vocabularies' t f g h = ground (
  arith,
  refers-Extends t.parent_id (tag_place_at tags) (tag_place_at later) (tag_place t) f
      (ground arith),
  refers-Extends t.vocabulary_id (vocabulary_place_at vocabularies)
      (vocabulary_place_at vocabularies') (tag_place t) g (ground arith),
)

pub alias_fits-Extends :
    (tags later : List Tag) (a : TagAlias)
    → Extends (tag_place_at tags) (tag_place_at later)
    → (active_at tags a.tag_id ≡ true → active_at later a.tag_id ≡ true)
    → alias_fits tags a ≡ true
    → alias_fits later a ≡ true
unfolding alias_fits
alias_fits-Extends tags later a f g h =
    let kept =
      refers-Extends (some a.tag_id) (tag_place_at tags) (tag_place_at later) (alias_place a) f
        (ground arith) in
    elim (Bool-cases (active_at tags a.tag_id)) [
      | inl on ↦ ground (arith, kept, g on)
      | inr off ↦ ground (arith, kept)
    ]

pub active_at-append :
    (tags : List Tag) (t : Tag) (i : ℕ)
    → active_at tags i ≡ true
    → active_at (tags ++ t ∷ []) i ≡ true
unfolding active_at
active_at-append tags t i h = elim (Option-cases (find_row tag_table i tags)) [
  | inl missing ↦ absurd (ground arith)
  | inr (x, found) ↦ ground (arith, find_row-append tag_table i tags t x found)
]

pub active_at-write_over :
    (tags : List Tag) (t old : Tag) (i : ℕ)
    → find_row tag_table t.id tags ≡ some old
    → (old.is_active ≡ true → t.is_active ≡ true)
    → active_at tags i ≡ true
    → active_at (write_over tag_table t tags) i ≡ true
unfolding active_at
active_at-write_over tags t old i was stays h = elim (Bool-cases (nat_beq t.id i)) [
  | inl same ↦
      let q = ap (λ j. find_row tag_table j tags) ((nat_beq_iff t.id i).0 same) in
      let on : old.is_active ≡ true = ground (arith, q) in
      ground (arith, find_row-write_over tag_table i tags t, stays on)
  | inr other ↦ ground (arith, find_row-write_over tag_table i tags t)
]
