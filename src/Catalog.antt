-- ===== src/Catalog.antt =====
-- octonomy/tags/models.py: the rows of vocabularies, tags and aliases, with the constraints of the
-- tables.
pub mod Clash
pub mod Table
use octonomy.Prelude.{
  ℕ, String, ◌≡◌, Bool, true, false, ◌&&◌, not, Option, some, List, [], ◌∷◌, find, nat_beq, nat_eq,
  ◌==◌, string_eq, option_eq, All,
}
use octonomy.Json.{Json}
use octonomy.Scope.{Namespace, same_namespace, namespace_scope_check}

pub record Vocabulary : Type 0 where
  pub id : ℕ
  pub tenant_id : String
  pub application_id : Option String
  pub namespace : Namespace
  pub name : String
  pub slug : String
  pub description : Option String
  pub metadata : Json
  pub is_active : Bool
  pub created_at : ℕ
  pub updated_at : ℕ

pub record Tag : Type 0 where
  pub id : ℕ
  pub tenant_id : String
  pub application_id : Option String
  pub namespace : Namespace
  pub name : String
  pub slug : String
  pub type : String
  pub description : Option String
  pub parent_id : Option ℕ
  pub vocabulary_id : Option ℕ
  pub metadata : Json
  pub is_active : Bool
  pub created_at : ℕ
  pub updated_at : ℕ

pub record TagAlias : Type 0 where
  pub id : ℕ
  pub tenant_id : String
  pub application_id : Option String
  pub namespace : Namespace
  pub tag_id : ℕ
  pub name : String
  pub slug : String
  pub metadata : Json
  pub is_active : Bool
  pub created_at : ℕ
  pub updated_at : ℕ

-- `alias.tag`
unfoldable pub tag_of : List Tag → TagAlias → Option Tag
tag_of tags a = find (λ t. nat_beq t.id a.tag_id) tags

-- The three unique constraints of tags together: two active rows clash if they have one tenant,
-- application, namespace, type and slug.
unfoldable pub tags_clash : Tag → Tag → Bool
tags_clash a b =
    a.is_active
    && b.is_active
    && a.tenant_id == b.tenant_id
    && a.application_id == b.application_id
    && same_namespace a.namespace b.namespace
    && a.type == b.type
    && a.slug == b.slug

-- The unique constraints of aliases.
unfoldable pub aliases_clash : TagAlias → TagAlias → Bool
aliases_clash a b =
    a.is_active
    && b.is_active
    && a.tenant_id == b.tenant_id
    && a.application_id == b.application_id
    && same_namespace a.namespace b.namespace
    && a.slug == b.slug

-- The unique constraints of vocabularies.
unfoldable pub vocabularies_clash : Vocabulary → Vocabulary → Bool
vocabularies_clash a b =
    a.is_active
    && b.is_active
    && a.tenant_id == b.tenant_id
    && a.application_id == b.application_id
    && same_namespace a.namespace b.namespace
    && a.slug == b.slug

-- The check constraints of the tags: the namespace's, and `tag_parent_cannot_be_self`.
unfoldable pub tag_checks : Tag → Bool
tag_checks t = namespace_scope_check t.namespace t.application_id && not (t.parent_id == some t.id)

-- What holds of every two rows of a list.
abbrev pub Pairs {ℓ κ} : {A : Type ℓ} → (A → A → Type κ) → List A → Type κ
Pairs R [] = Unit
Pairs R (x ∷ xs) = All (R x) xs × Pairs R xs

-- The constraints that the tables of tags and aliases enforce.
abbrev pub TagConstraints : List Tag → Type 0
TagConstraints tags =
    Pairs (λ a b. tags_clash a b ≡ false) tags
    × All (λ t. namespace_scope_check t.namespace t.application_id ≡ true) tags

abbrev pub AliasConstraints : List TagAlias → Type 0
AliasConstraints aliases =
    Pairs (λ a b. aliases_clash a b ≡ false) aliases
    × All (λ a. namespace_scope_check a.namespace a.application_id ≡ true) aliases
