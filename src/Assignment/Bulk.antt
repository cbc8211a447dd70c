-- ===== src/Assignment/Bulk.antt =====
-- What bulk_assign_tags of octonomy/assignments/services.py leaves in the tables.
use octonomy.Prelude.{
  ℕ, ◌+◌, suc, String, ◌≡◌, ◌⊎◌, inl, inr, refl, ap, sym, ◌∙◌, subst, Bool, true, false, ◌||◌, not,
  Option, none, some, List, [], ◌∷◌, ◌++◌, map, filter, length, length-append, length-filter_split,
  contains, arith, Bool-cases, Option-cases, nat_beq, nat_eq, string_eq,
}
use octonomy.Errors.{ok, err, integrity_error}
use octonomy.Scope.{Settings, guard_namespace_write_enabled}
use octonomy.Catalog.{Tag}
use octonomy.Store.{TagAssignment, AuditContext, Db, Source, except_integrity_error}
use octonomy.Store.Changes.{assignment_change, record_changes}
use octonomy.Store.Kept.{>>=-inv, lift-inv, changes_kept}
use octonomy.Assignment.{
  Resource, matching, validate_tag_for_assignment, new_assignment, get_or_create, get_existing,
  row_checks, get_assignable_tags,
}
use octonomy.Assignment.Services.{
  get_or_create_assignment, assign_each, load_tags, bulk_assign_tags, BulkAssigned,
}
use octonomy.Assignment.Rows.{has_tag, others}
use octonomy.Assignment.Inserts.{get_or_create-old, get_or_create-new, get_or_create-refused}
use octonomy.Assignment.Steps.{Gains, Gains-old, Gains-new}
use octonomy.Assignment.Replace.{ids, get_assignable_tags-ids}

length-map : {A B : Type 0} (f : A → B) (xs : List A) → length (map f xs) ≡ length xs
length-map f [] = refl
length-map f (x ∷ xs) = ap suc (length-map f xs)

-- What a bulk assignment leaves behind.
pub record IsBulkAssigned (r : Resource) (wanted : List ℕ) (db v : Db) (answer : BulkAssigned)
    : Type 0 where
  pub tags : (i : ℕ) → has_tag r v.assignments i ≡ (has_tag r db.assignments i || contains wanted i)
  pub kept : others r v.assignments ≡ others r db.assignments
  pub created : length v.assignments ≡ length db.assignments + answer.created
  pub existing : answer.created + answer.existing ≡ length answer.assignments

-- The number of rows that one step made.
abbrev made : Bool → ℕ
made true = 1
made false = 0

module _ (settings : Settings) (source : Source) (context : Option AuditContext) (r : Resource)
    (assigned_by : Option String) where
  get_or_create-cases :
      (tag_id : ℕ) (db : Db)
      → ((a : TagAssignment) × (matching r tag_id db.assignments ≡ some a)
          × (get_or_create source r tag_id assigned_by db ≡ ok ((a, false), db)))
        ⊎ ((v : Db) × (get_or_create source r tag_id assigned_by db
              ≡ ok ((new_assignment source r tag_id assigned_by db, true), v))
            × (v.assignments
                ≡ db.assignments ++ new_assignment source r tag_id assigned_by db ∷ []))
        ⊎ ((matching r tag_id db.assignments ≡ none)
            × (get_or_create source r tag_id assigned_by db ≡ err integrity_error))
  get_or_create-cases tag_id db = elim (Option-cases (matching r tag_id db.assignments)) [
    | inr (a, e) ↦ inl (a, e, get_or_create-old source r tag_id assigned_by db a e)
    | inl e ↦ elim (Bool-cases (row_checks (new_assignment source r tag_id assigned_by db))) [
      | inl fine ↦ inr (inl (_, get_or_create-new source r tag_id assigned_by db e fine, refl))
      | inr bad ↦ inr (inr (e, get_or_create-refused source r tag_id assigned_by db e bad))
    ]
  ]

  -- One step of the loop: the resource gains the tag, and the table grows by what was made.
  one_more :
      (t : Tag) (db : Db) (d : TagAssignment × Bool) (v : Db)
      → get_or_create_assignment settings source context r assigned_by t db ≡ ok (d, v)
      → Gains settings source context r t.id db.assignments v.assignments
        × (length v.assignments ≡ length db.assignments + made d.1)
  unfolding get_or_create_assignment except_integrity_error get_existing
  one_more t db d v h =
      let (_, _, h₁) = lift-inv (guard_namespace_write_enabled settings r.namespace) _ db h in
      let (_, _, h₂) =
        lift-inv (validate_tag_for_assignment t r.tenant_id r.application_id r.namespace true) _ db
          h₁ in
      elim (get_or_create-cases t.id db) [
        | inl (a, e, run) ↦
            let same : v ≡ db = ground arith in
            let old : d.1 ≡ false = ground arith in
            let size = ap (λ (x : Db). length x.assignments) same in
            let none_made = ap made old in
            (
              subst (λ u. Gains settings source context r t.id db.assignments u.assignments)
                  (sym same) (Gains-old settings source context r t.id db.assignments a e),
              omega (arith, size, none_made),
            )
        | inr (inl (u, run, k)) ↦
            let same : v ≡ u = ground arith in
            let new : d.1 ≡ true = ground arith in
            let size = ap (λ (x : Db). length x.assignments) same in
            let longer = ap length k in
            let grown = length-append db.assignments _ in
            let one_made = ap made new in
            (
              subst (λ x. Gains settings source context r t.id db.assignments x.assignments)
                  (sym same) (Gains-new settings source context r t.id assigned_by db u k),
              size ∙ longer ∙ grown ∙ ap (λ n. length db.assignments + n) (sym one_made),
            )
        | inr (inr (e, run)) ↦ absurd (ground arith)
      ]

  number_made :
      (d : TagAssignment × Bool) (done : List (TagAssignment × Bool))
      → length (filter (λ x. x.1) (d ∷ done)) ≡ made d.1 + length (filter (λ x. x.1) done)
  unfolding filter
  number_made (a, true) done = omega arith
  number_made (a, false) done = omega arith

  joined :
      (t : Tag) (ts : List Tag) (i : ℕ) (u w db : Db)
      → has_tag r w.assignments i ≡ (has_tag r u.assignments i || contains (ids ts) i)
      → has_tag r u.assignments i ≡ (has_tag r db.assignments i || nat_beq t.id i)
      → has_tag r w.assignments i ≡ (has_tag r db.assignments i || contains (ids (t ∷ ts)) i)
  unfolding contains
  joined t ts i u w db k g = elim (Bool-cases (nat_beq i t.id)) [
    | inl same ↦ let back : nat_beq t.id i ≡ true = ground arith in ground arith
    | inr other ↦ let back : nat_beq t.id i ≡ false = ground arith in ground arith
  ]

  -- The loop gives the resource the tags, and the table grows by the rows that it made.
  assign_each-tags :
      (ts : List Tag) (db : Db) (done : List (TagAssignment × Bool)) (v : Db)
      → assign_each settings source context r assigned_by ts db ≡ ok (done, v)
      → ((i : ℕ) → has_tag r v.assignments i ≡ (has_tag r db.assignments i || contains (ids ts) i))
        × (others r v.assignments ≡ others r db.assignments)
        × (length v.assignments ≡ length db.assignments + length (filter (λ d. d.1) done))
  unfolding assign_each contains filter
  assign_each-tags [] db done v h =
      let same : v ≡ db = ground arith in
      let nothing : done ≡ [] = ground arith in
      (
        λ i. ap (λ (x : Db). has_tag r x.assignments i) same ∙ ground arith,
        ap (λ (x : Db). others r x.assignments) same,
        ap (λ (x : Db). length x.assignments) same ∙ rw nothing (omega arith),
      )
  assign_each-tags (t ∷ ts) db done v h =
      let (d, u, one, h₁) =
        >>=-inv (get_or_create_assignment settings source context r assigned_by t) _ db h in
      let (more, w, rest, h₂) =
        >>=-inv (assign_each settings source context r assigned_by ts) _ u h₁ in
      let same : w ≡ v = ground arith in
      let all : done ≡ d ∷ more = ground arith in
      let (gain, size) = one_more t db d u one in
      let (tags, kept, sizes) = assign_each-tags ts u more w rest in
      let number = ap (λ ds. length (filter (λ x. x.1) ds)) all ∙ number_made d more in
      let last = ap (λ (x : Db). length x.assignments) same in
      (
        λ i.
            let g = gain.tags i in
            let k = tags i in
            ap (λ (x : Db). has_tag r x.assignments i) (sym same) ∙ joined t ts i u w db k g,
        ap (λ (x : Db). others r x.assignments) (sym same) ∙ kept ∙ gain.kept,
        omega (arith, number, size, sizes, last),
      )

module _ (settings : Settings) (source : Source) (context : Option AuditContext)
    (tag_before : Tag → Tag → Bool) (r : Resource) (include_global : Bool)
    (assigned_by : Option String) where
  -- A bulk assignment that goes through adds exactly the tags that were asked for to the resource, in
  -- its exact tenant, application and namespace, and takes none away; it leaves the rows of every
  -- other resource and scope as they were, adds as many rows as it reports as created, and answers
  -- with one row for each tag that it reports as created or existing.
  pub bulk_assign_tags-IsBulkAssigned :
      (wanted : List ℕ) (db : Db) (answer : BulkAssigned) (v : Db)
      → bulk_assign_tags settings source context tag_before r include_global assigned_by wanted db
        ≡ ok (answer, v)
      → IsBulkAssigned r wanted db v answer
  unfolding bulk_assign_tags load_tags
  bulk_assign_tags-IsBulkAssigned wanted db answer v h =
      let (_, _, h₁) = lift-inv (guard_namespace_write_enabled settings r.namespace) _ db h in
      let (ts, granted, h₂) =
        lift-inv
          (get_assignable_tags settings tag_before db.tags r.tenant_id r.application_id wanted
            r.namespace include_global)
          _ db h₁ in
      let (done, u, run, h₃) =
        >>=-inv (assign_each settings source context r assigned_by ts) _ db h₂ in
      let cs =
        map (λ (d : TagAssignment × Bool). assignment_change "assignment.created" "after" d.0)
          (filter (λ d. d.1) done) in
      let (w, c, k) = changes_kept source context cs u in
      let (_, x, c', h₄) = >>=-inv (record_changes source context cs) _ u h₃ in
      let (tags, kept, size) =
        assign_each-tags settings source context r assigned_by ts db done u run in
      let same : x ≡ w = ground arith in
      let last : v ≡ x = ground arith in
      let rows : v.assignments ≡ u.assignments =
        ap (λ (y : Db). y.assignments) (last ∙ same) ∙ k.assignments in
      let number : answer.created ≡ length (filter (λ d. d.1) done) = ground arith in
      let rest : answer.existing ≡ length (filter (λ d. not d.1) done) = ground arith in
      let listed : answer.assignments ≡ map (λ d. d.0) done = ground arith in
      record {
        tags = λ i.
            ap (λ xs. has_tag r xs i) rows
            ∙ tags i
            ∙ ap (λ b. has_tag r db.assignments i || b)
                (get_assignable_tags-ids settings tag_before db.tags r.tenant_id r.application_id
                  wanted r.namespace include_global ts i granted);
        kept = ap (others r) rows ∙ kept;
        created = ap length rows ∙ size ∙ ap (λ n. length db.assignments + n) (sym number);
        existing =
            let split = length-filter_split (λ (d : TagAssignment × Bool). d.1) done in
            let whole = ap length listed ∙ length-map (λ d. d.0) done in
            omega (arith, number, rest, split, whole);
      }
