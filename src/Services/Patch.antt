-- ===== src/Services/Patch.antt =====
-- The update payloads of octonomy/tags/services.py, octonomy/tags/alias_services.py and
-- octonomy/tags/vocabulary_services.py, and the loop that applies one and notes what it changes. A key that
-- the payload lacks is `none`; the fields stand in the order in which the serializers hand them on.
use octonomy.Prelude.{
  ℕ, String, Bool, true, false, Option, none, some, ◌==◌, string_eq, nat_eq, option_eq,
  if◌then◌else◌,
}
use octonomy.Json.{Json, Fields, end, field, object, text, opt_text, opt_uuid, bool, pair, json_beq}
use octonomy.Scope.{ScopePatch}
use octonomy.Catalog.{Tag, TagAlias, Vocabulary}

pub record TagPatch : Type 0 where
  pub scope : ScopePatch
  pub name : Option String
  pub slug : Option String
  pub type : Option String
  pub description : Option (Option String)
  pub metadata : Option Json
  pub is_active : Option Bool
  pub parent : Option (Option Tag)
  pub vocabulary : Option (Option Vocabulary)

pub record AliasPatch : Type 0 where
  pub scope : ScopePatch
  pub name : Option String
  pub slug : Option String
  pub metadata : Option Json
  pub is_active : Option Bool
  pub tag : Option Tag

pub record VocabularyPatch : Type 0 where
  pub scope : ScopePatch
  pub name : Option String
  pub slug : Option String
  pub description : Option (Option String)
  pub metadata : Option Json
  pub is_active : Option Bool

-- `changed_before` and `changed_after`.
pub record Diff : Type 0 where
  pub before : Fields
  pub after : Fields

abbrev pub no_diff : Diff
no_diff = record { before = end; after = end }

-- `not changed_before`
abbrev pub is_unchanged : Diff → Bool
is_unchanged d = elim d.before [ end ↦ true | field k v rest ↦ false ]

-- `{"before": changed_before, "after": changed_after}`
abbrev pub diff_body : Diff → Json
diff_body d = pair "before" (object d.before) "after" (object d.after)

module _ {A : Type 0} (same : A → A → Bool) where
  -- One turn of `for field, value in data.items()`: what it notes, and what `setattr` leaves.
  unfoldable pub noted : String → (A → Json) → A → Option A → Diff → Diff
  noted key show current none rest = rest
  noted key show current (some value) rest = if same current value then rest else record {
    before = field key (show current) rest.before;
    after = field key (show value) rest.after;
  }

  unfoldable pub assigned : A → Option A → A
  assigned current none = current
  assigned current (some value) = if same current value then current else value

abbrev pub bool_beq : Bool → Bool → Bool
bool_beq true b = b
bool_beq false true = false
bool_beq false false = true

abbrev pub same_text : String → String → Bool
same_text a b = a == b

abbrev pub same_note : Option String → Option String → Bool
same_note a b = a == b

abbrev pub same_id : Option ℕ → Option ℕ → Bool
same_id a b = a == b

-- The ids of the rows that a payload names.
abbrev pub parent_ids : TagPatch → Option (Option ℕ)
parent_ids patch = elim patch.parent [
  | none ↦ none
  | some none ↦ some none
  | some (some t) ↦ some (some t.id)
]

abbrev pub vocabulary_ids : TagPatch → Option (Option ℕ)
vocabulary_ids patch = elim patch.vocabulary [
  | none ↦ none
  | some none ↦ some none
  | some (some v) ↦ some (some v.id)
]

abbrev pub tag_ids : AliasPatch → Option (Option ℕ)
tag_ids patch = elim patch.tag [ none ↦ none | some t ↦ some (some t.id) ]

-- The loops of `update_tag`, `update_tag_alias` and `update_vocabulary`.
unfoldable pub tag_diff : Tag → TagPatch → Diff
unfolding noted
tag_diff t p = noted same_text "name" text t.name p.name (
    noted same_text "slug" text t.slug p.slug (
      noted same_text "type" text t.type p.type (
        noted same_note "description" opt_text t.description p.description (
          noted json_beq "metadata" (λ j. j) t.metadata p.metadata
            (noted bool_beq "is_active" bool t.is_active p.is_active (
              noted same_id "parent_id" opt_uuid t.parent_id (parent_ids p) (
                noted same_id "vocabulary_id" opt_uuid t.vocabulary_id (vocabulary_ids p)
                  no_diff)))))))

unfoldable pub patched_tag : Tag → TagPatch → Tag
unfolding assigned
patched_tag t p = record t {
  name = assigned same_text t.name p.name;
  slug = assigned same_text t.slug p.slug;
  type = assigned same_text t.type p.type;
  description = assigned same_note t.description p.description;
  metadata = assigned json_beq t.metadata p.metadata;
  is_active = assigned bool_beq t.is_active p.is_active;
  parent_id = assigned same_id t.parent_id (parent_ids p);
  vocabulary_id = assigned same_id t.vocabulary_id (vocabulary_ids p);
}

-- `alias.tag` is never null.
abbrev assigned_tag : ℕ → Option Tag → ℕ
assigned_tag current none = current
assigned_tag current (some t) = t.id

unfoldable pub alias_diff : TagAlias → AliasPatch → Diff
unfolding noted
alias_diff a p = noted same_text "name" text a.name p.name (
    noted same_text "slug" text a.slug p.slug (
      noted json_beq "metadata" (λ j. j) a.metadata p.metadata
        (noted bool_beq "is_active" bool a.is_active p.is_active
          (noted same_id "tag_id" opt_uuid (some a.tag_id) (tag_ids p) no_diff))))

unfoldable pub patched_alias : TagAlias → AliasPatch → TagAlias
unfolding assigned
patched_alias a p = record a {
  name = assigned same_text a.name p.name;
  slug = assigned same_text a.slug p.slug;
  metadata = assigned json_beq a.metadata p.metadata;
  is_active = assigned bool_beq a.is_active p.is_active;
  tag_id = assigned_tag a.tag_id p.tag;
}

unfoldable pub vocabulary_diff : Vocabulary → VocabularyPatch → Diff
unfolding noted
vocabulary_diff v p = noted same_text "name" text v.name p.name (
    noted same_text "slug" text v.slug p.slug (
      noted same_note "description" opt_text v.description p.description (
        noted json_beq "metadata" (λ j. j) v.metadata p.metadata
          (noted bool_beq "is_active" bool v.is_active p.is_active no_diff))))

unfoldable pub patched_vocabulary : Vocabulary → VocabularyPatch → Vocabulary
unfolding assigned
patched_vocabulary v p = record v {
  name = assigned same_text v.name p.name;
  slug = assigned same_text v.slug p.slug;
  description = assigned same_note v.description p.description;
  metadata = assigned json_beq v.metadata p.metadata;
  is_active = assigned bool_beq v.is_active p.is_active;
}
