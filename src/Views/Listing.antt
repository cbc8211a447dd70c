-- ===== src/Views/Listing.antt =====
-- The rows of the list views and the usage counts: octonomy/tags/selectors.py,
-- octonomy/tags/vocabulary_selectors.py, octonomy/assignments/selectors.py and octonomy/audit/selectors.py. A query
-- set is the list of the rows that it selects, before its ordering and paging. The database's
-- case-insensitive search is a parameter.
use octonomy.Prelude.{
  ℕ, String, ◌≡◌, refl, ap, Bool, true, false, ◌&&◌, ◌||◌, not, Option, none, some, List, [], ◌∷◌,
  filter, contains, contains-filter, inl, inr, is_empty, is_none, length, nat_beq, nat_eq, ◌==◌,
  string_eq, option_eq, arith, Bool-cases, if◌then◌else◌,
}
use octonomy.Prelude.Text.{lower_is}
use octonomy.Scope.{Namespace, namespace_q}
use octonomy.Catalog.{Tag, Vocabulary}
use octonomy.Store.{TagAssignment, AuditLog}

-- `if value: queryset.filter(field=value)`
unfoldable pub matches : Option String → Option String → Bool
matches none column = true
matches (some value) column = if value == "" then true else column == some value

-- The query parameters of a list of tags or vocabularies; the ids as the database reads them.
pub record ListParams : Type 0 where
  pub application_id : Option String
  pub include_shared : Option String
  pub type : Option String
  pub slug : Option String
  pub parent_id : Option ℕ
  pub vocabulary_id : Option ℕ
  pub is_active : Option String
  pub q : Option String

-- The application filter of `filter_tags` and `filter_vocabularies`.
unfoldable pub lists_application : ListParams → Option String → Bool
lists_application p row_application = elim p.application_id [
  | none ↦ true
  | some a ↦
      if a == ""
      then true
      else if (elim p.include_shared [ none ↦ true | some v ↦ not (lower_is v "false") ])
      then row_application == some a || is_none row_application
      else row_application == some a
]

-- `is_active`, which defaults to the active rows.
unfoldable pub lists_active : Option String → Bool → Bool
lists_active none row_active = row_active
lists_active (some value) row_active = if lower_is value "true" then row_active else not row_active

unfoldable pub matches_id : Option ℕ → Option ℕ → Bool
matches_id none column = true
matches_id (some i) column = column == some i

-- `if q: queryset.filter(Q(name__icontains=q) | Q(slug__icontains=q))`
unfoldable pub searches : (String → String → Bool) → Option String → String → String → Bool
searches icontains none name slug = true
searches icontains (some q) name slug =
    if q == "" then true else icontains name q || icontains slug q

-- `filter_tags`
unfoldable pub filter_tags : (String → String → Bool) → ListParams → List Tag → List Tag
unfolding matches lists_application lists_active matches_id searches
filter_tags icontains p tags =
    filter
      (λ t.
        lists_application p t.application_id
        && matches p.type (some t.type)
        && matches p.slug (some t.slug)
        && matches_id p.parent_id t.parent_id
        && matches_id p.vocabulary_id t.vocabulary_id
        && lists_active p.is_active t.is_active
        && searches icontains p.q t.name t.slug)
      tags

-- `filter_vocabularies`
unfoldable pub filter_vocabularies :
    (String → String → Bool) → ListParams → List Vocabulary → List Vocabulary
unfolding matches lists_application lists_active searches
filter_vocabularies icontains p vocabularies =
    filter
      (λ v.
        lists_application p v.application_id
        && matches p.slug (some v.slug)
        && lists_active p.is_active v.is_active
        && searches icontains p.q v.name v.slug)
      vocabularies

-- `tags_for_tenant`, `vocabularies_for_tenant`, `assignments_for_tenant` and
-- `audit_logs_for_tenant` as conditions on a row's tenant and namespace.
unfoldable pub for_tenant : String → Namespace → Bool → String → Namespace → Bool
for_tenant tenant_id s include_global row_tenant row =
    row_tenant == tenant_id && namespace_q s include_global row

-- The tags of a list view.
unfoldable pub listed_tags :
    (String → String → Bool) → String → Namespace → Bool → ListParams → List Tag → List Tag
unfolding filter_tags for_tenant
listed_tags icontains tenant_id s include_global p tags =
    filter_tags icontains p
      (filter (λ t. for_tenant tenant_id s include_global t.tenant_id t.namespace) tags)

-- `filter_tag_resources`
unfoldable pub filter_tag_resources :
    Option String → Option String → List TagAssignment → List TagAssignment
unfolding matches
filter_tag_resources application_id resource_type rows =
    filter
      (λ a.
        matches application_id (some a.application_id)
        && matches resource_type (some a.resource_type))
      rows

-- `filter_resource_tags`, on assignments with their tags.
unfoldable pub filter_resource_tags :
    Option String → Option String → List (TagAssignment × Tag) → List (TagAssignment × Tag)
unfolding matches
filter_resource_tags include_inactive tag_type rows =
    let inactive : Bool = elim include_inactive [ none ↦ false | some v ↦ lower_is v "true" ] in
    filter (λ r. (inactive || r.1.is_active) && matches tag_type (some r.1.type)) rows

-- The query parameters of the audit log, the ids as the database reads them.
pub record AuditParams : Type 0 where
  pub application_id : Option String
  pub action : Option String
  pub entity_type : Option String
  pub entity_id : Option ℕ
  pub tag_id : Option ℕ
  pub resource_type : Option String
  pub resource_id : Option String
  pub actor_id : Option String
  pub operation_id : Option ℕ

-- `filter_audit_logs`
unfoldable pub filter_audit_logs : AuditParams → List AuditLog → List AuditLog
unfolding matches matches_id
filter_audit_logs p rows =
    filter
      (λ a.
        matches p.application_id a.application_id
        && matches p.action (some a.action)
        && matches p.entity_type (some a.entity_type)
        && matches_id p.entity_id (some a.entity_id)
        && matches_id p.tag_id a.tag_id
        && matches p.resource_type a.resource_type
        && matches p.resource_id a.resource_id
        && matches p.actor_id a.actor_id
        && matches_id p.operation_id (some a.operation_id))
      rows

-- `usage_count_filter` as a condition on an assignment: `visible` or `legacy`.
unfoldable pub usage_counted : Namespace → Bool → List String → Bool → TagAssignment → Bool
usage_counted s visible application_ids include_global a =
    if visible
    then (let ids = filter (λ i. not (i == "")) application_ids in
        namespace_q s include_global a.namespace && (is_empty ids || contains ids a.application_id))
    else true

-- The `usage_count` of `annotate_usage_count` and `apply_usage_counts`.
unfoldable pub usage_count : Namespace → Bool → List String → Bool → List TagAssignment → Tag → ℕ
unfolding usage_counted
usage_count s visible application_ids include_global rows t = length (
    filter (λ a. nat_beq a.tag_id t.id && usage_counted s visible application_ids include_global a)
      rows)

-- The rows that a visible count may look at.
abbrev pub countable : Namespace → List String → Bool → TagAssignment → Bool
countable s application_ids include_global a =
    namespace_q s include_global a.namespace && contains application_ids a.application_id

filter-filter :
    (p q : TagAssignment → Bool)
    → ((a : TagAssignment) → p a ≡ true → q a ≡ true)
    → (rows : List TagAssignment) → filter p (filter q rows) ≡ filter p rows
unfolding filter
filter-filter p q f [] = refl
filter-filter p q f (a ∷ rows) = elim (Bool-cases (p a)) [
  | inl hit ↦ rw (f a hit, hit, filter-filter p q f rows) refl
  | inr miss ↦ elim (Bool-cases (q a)) [
    | inl keep ↦ rw (keep, miss, filter-filter p q f rows) refl
    | inr drop ↦ rw (drop, miss, filter-filter p q f rows) refl
  ]
]

contains-named :
    (ids : List String) (a : String)
    → is_empty (filter (λ i. not (i == "")) ids) ≡ false
    → (is_empty (filter (λ i. not (i == "")) ids) || contains (filter (λ i. not (i == "")) ids) a)
      ≡ true
    → contains ids a ≡ true
contains-named ids a full h = ground (arith, contains-filter (λ i. not (i == "")) ids a)

-- In a request that names applications, a visible usage count is the same with only those
-- assignments in the table that lie in the request's namespace, or are global while global rows are
-- asked for, and in a named application: no other assignment has a part in it.
pub usage_count-isolated :
    (s : Namespace) (ids : List String) (include_global : Bool) (rows : List TagAssignment)
    (t : Tag)
    → is_empty (filter (λ i. not (i == "")) ids) ≡ false
    → usage_count s true ids include_global (filter (countable s ids include_global) rows) t
      ≡ usage_count s true ids include_global rows t
unfolding usage_count
usage_count-isolated s ids g rows t full = ap length (
    filter-filter (λ a. nat_beq a.tag_id t.id && usage_counted s true ids g a) (countable s ids g)
      (λ a h.
        unfold usage_counted in
        ground (arith, contains-named ids a.application_id full (ground arith)))
      rows)
