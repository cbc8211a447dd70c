-- ===== src/Assignment/Replace.antt =====
-- The assignments that replace_resource_tags of octonomy/assignments/services.py leaves.
use octonomy.Prelude.{
  ℕ, String, ◌≡◌, inl, inr, refl, ap, sym, ◌∙◌, Bool, true, false, ◌&&◌, not, Option, List, [], ◌∷◌,
  map, filter, any, contains, All, All-filter_test, arith, Bool-cases, nat_beq, nat_beq_iff, nat_eq,
  ◌==◌, string_eq, and-true,
}
use octonomy.Errors.{ok}
use octonomy.Scope.{Settings, Namespace, guard_namespace_write_enabled}
use octonomy.Catalog.{Tag, Pairs}
use octonomy.Assignment.Newest.{NoNewer, newest_first-Pairs}
use octonomy.Resolution.{order_by}
use octonomy.Resolution.Order.{All-order_by}
use octonomy.Store.{TagAssignment, AuditContext, Db, Source}
use octonomy.Assignment.{Resource, of_resource, get_assignable_tags, is_known}
use octonomy.Assignment.Services.{
  newest_first, remove_selected, assign_missing, assigned_tags, load_tags, replace_with,
  replace_resource_tags, Replaced,
}
use octonomy.Assignment.Rows.{
  has_tag, has_tag-kept, contains-tags, others, others-removed, DistinctIds,
}
use octonomy.Store.Kept.{>>=-inv, lift-inv}
use octonomy.Assignment.Steps.{assign_missing-tags, remove_selected-rows}

abbrev pub ids : List Tag → List ℕ
ids ts = map (λ t. t.id) ts

known_in :
    (ts : List Tag) (s : Namespace) (g : Bool) (i : ℕ)
    → is_known ts s g i ≡ true
    → contains (ids ts) i ≡ true
unfolding is_known any contains
known_in [] s g i h = cc
known_in (t ∷ ts) s g i h = elim (Bool-cases (nat_beq i t.id)) [
  | inl same ↦ ground arith
  | inr other ↦
      let back : nat_beq t.id i ≡ false = ground arith in
      ground (arith, known_in ts s g i (ground arith))
]

ids_only :
    (wanted : List ℕ) (ts : List Tag) (i : ℕ)
    → All (λ t. contains wanted t.id ≡ true) ts
    → contains (ids ts) i ≡ true
    → contains wanted i ≡ true
unfolding contains
ids_only wanted [] i h k = cc
ids_only wanted (t ∷ ts) i h k = elim (Bool-cases (nat_beq i t.id)) [
  | inl same ↦ ap (contains wanted) ((nat_beq_iff i t.id).0 same) ∙ h.0
  | inr other ↦ ids_only wanted ts i h.1 (ground arith)
]

all_known :
    (ts : List Tag) (s : Namespace) (g : Bool) (wanted : List ℕ) (i : ℕ)
    → any (λ j. not (is_known ts s g j)) wanted ≡ false
    → contains wanted i ≡ true
    → is_known ts s g i ≡ true
unfolding any contains
all_known ts s g [] i h k = cc
all_known ts s g (j ∷ wanted) i h k = elim (Bool-cases (nat_beq i j)) [
  | inl same ↦
      let first : is_known ts s g j ≡ true = ground arith in
      ap (is_known ts s g) ((nat_beq_iff i j).0 same) ∙ first
  | inr other ↦ all_known ts s g wanted i (ground arith) (ground arith)
]

-- The tags that a request is granted are exactly those that it names.
pub get_assignable_tags-ids :
    (settings : Settings) (before : Tag → Tag → Bool) (tags : List Tag)
    (tenant_id application_id : String) (wanted : List ℕ) (s : Namespace) (g : Bool) (ts : List Tag)
    (i : ℕ)
    → get_assignable_tags settings before tags tenant_id application_id wanted s g ≡ ok ts
    → contains (ids ts) i ≡ contains wanted i
unfolding get_assignable_tags
get_assignable_tags-ids settings before tags tenant_id application_id wanted s g ts i h =
    let test = λ (t : Tag). t.tenant_id == tenant_id && contains wanted t.id in
    let found = order_by before (filter test tags) in
    let same : ts ≡ found = ground arith in
    let complete : any (λ j. not (is_known found s g j)) wanted ≡ false = ground arith in
    let only =
      All-order_by before (λ t. contains wanted t.id ≡ true) (filter test tags)
        (named (filter test tags) (All-filter_test test tags)) in
    elim (Bool-cases (contains wanted i)) [
      | inl want ↦
          rw (same, want) (known_in found s g i (all_known found s g wanted i complete want))
      | inr no_want ↦ elim (Bool-cases (contains (ids found) i)) [
        | inl have ↦ absurd (ground (arith, ids_only wanted found i only have))
        | inr lack ↦ rw (same, lack, no_want) refl
      ]
    ]
  where
    named :
        (us : List Tag)
        → All (λ t. (t.tenant_id == tenant_id && contains wanted t.id) ≡ true) us
        → All (λ t. contains wanted t.id ≡ true) us
    named [] k = tt
    named (u ∷ us) k =
        ((and-true (u.tenant_id == tenant_id) (contains wanted u.id) k.0).1, named us k.1)

-- What a replacement leaves behind.
pub record IsReplaced (r : Resource) (wanted : List ℕ) (rows : List TagAssignment) (v : Db)
    (answer : Replaced) : Type 0 where
  pub tags : (i : ℕ) → contains (assigned_tags r v) i ≡ contains wanted i
  pub kept : others r v.assignments ≡ others r rows
  pub answered : answer.assignments ≡ order_by newest_first (filter (of_resource r) v.assignments)
  pub newest : Pairs NoNewer (order_by newest_first (filter (of_resource r) v.assignments))

module _ (settings : Settings) (source : Source) (context : Option AuditContext)
    (tag_before : Tag → Tag → Bool) (r : Resource) (include_global : Bool)
    (assigned_by : Option String) where
  replace_with-IsReplaced :
      (ts : List Tag) (db : Db) (answer : Replaced) (v : Db)
      → DistinctIds db.assignments
      → replace_with settings source context r include_global assigned_by ts db ≡ ok (answer, v)
      → IsReplaced r (ids ts) db.assignments v answer
  unfolding replace_with
  replace_with-IsReplaced ts db answer v distinct h =
      let unwanted = λ (a : TagAssignment). of_resource r a && not (contains (ids ts) a.tag_id) in
      let (m, u, removed, h₁) = >>=-inv (remove_selected settings source context unwanted) _ db h in
      let rows = remove_selected-rows settings source context r unwanted db m u distinct removed in
      let (n, w, added, h₂) =
        >>=-inv
          (λ (x : Db).
            assign_missing settings source context r include_global assigned_by (assigned_tags r x)
              ts 0 x)
          _ u h₁ in
      let (tags, kept) =
        assign_missing-tags settings source context r include_global assigned_by (assigned_tags r u)
          ts 0 u n w added in
      let same : v ≡ w = ground arith in
      let told : answer.assignments ≡ order_by newest_first (filter (of_resource r) w.assignments) =
        ground arith in
      record {
        tags = λ i.
            let left : has_tag r u.assignments i
                ≡ (has_tag r db.assignments i && contains (ids ts) i) =
              ap (λ (xs : List TagAssignment). has_tag r xs i) rows
              ∙ has_tag-kept r (ids ts) db.assignments i in
            let known = contains-tags r u.assignments i in
            let now = contains-tags r w.assignments i in
            let step = tags i in
            ap (λ (x : Db). contains (assigned_tags r x) i) same
            ∙ ground (arith, left, known, now, step);
        kept =
            ap (λ (x : Db). others r x.assignments) same
            ∙ kept
            ∙ ap (others r) rows
            ∙ others-removed r (λ a. not (contains (ids ts) a.tag_id)) db.assignments;
        answered =
            told
            ∙ ap (λ (x : Db). order_by newest_first (filter (of_resource r) x.assignments))
                (sym same);
        newest = newest_first-Pairs (filter (of_resource r) v.assignments);
      }

  -- If the rows have distinct ids, a replacement that goes through leaves the resource, in its exact
  -- tenant, application and namespace, with exactly the tags that were asked for, answers with its
  -- rows, the newest first, and leaves the rows of every other resource and scope as they were.
  pub replace_resource_tags-IsReplaced :
      (wanted : List ℕ) (db : Db) (answer : Replaced) (v : Db)
      → DistinctIds db.assignments
      → replace_resource_tags settings source context tag_before r include_global assigned_by wanted
          db
        ≡ ok (answer, v)
      → IsReplaced r wanted db.assignments v answer
  unfolding replace_resource_tags load_tags
  replace_resource_tags-IsReplaced wanted db answer v distinct h =
      let (_, _, h₁) = lift-inv (guard_namespace_write_enabled settings r.namespace) _ db h in
      let (ts, granted, h₂) =
        lift-inv
          (get_assignable_tags settings tag_before db.tags r.tenant_id r.application_id wanted
            r.namespace include_global)
          _ db h₁ in
      let done = replace_with-IsReplaced ts db answer v distinct h₂ in
      record {
        tags = λ i.
            done.tags i
            ∙ get_assignable_tags-ids settings tag_before db.tags r.tenant_id r.application_id
                wanted r.namespace include_global ts i granted;
        kept = done.kept;
        answered = done.answered;
        newest = done.newest;
      }
