-- ===== src/Assignment/Steps.antt =====
-- What each step of octonomy/assignments/services.py does to the assignments of one resource.
use octonomy.Prelude.{
  ℕ, suc, ◌+◌, String, ◌≡◌, ◌⊎◌, inl, inr, refl, ap, sym, subst, ◌∙◌, Bool, true, false, ◌&&◌, ◌||◌,
  not, Option, none, some, List, [], ◌∷◌, ◌++◌, map, filter, contains, arith, Bool-cases,
  Option-cases, nat_beq, nat_beq_iff, nat_eq, if◌then◌else◌, string_eq, beq_refl,
}
use octonomy.Errors.{ok, err, integrity_error}
use octonomy.Scope.{Settings, same_namespace_iff, guard_namespace_write_enabled}
use octonomy.Catalog.{Tag}
use octonomy.Store.{TagAssignment, AuditContext, Db, Source, except_integrity_error}
use octonomy.Store.Changes.{assignment_change, record_changes}
use octonomy.Assignment.{
  Resource, of_resource, matching, validate_tag_for_assignment, new_assignment, get_existing,
  row_checks,
}
use octonomy.Resolution.{order_by}
use octonomy.Assignment.Services.{
  newest_first, record_created, assign_row, assign_tag, delete_rows, remove_rows, remove_selected,
  assign_missing,
}
use octonomy.Assignment.Rows.{
  has_tag, has_tag-append, has_tag-matching, others, others-append, DistinctIds, delete_by_id,
  ids_of,
}
use octonomy.Store.Kept.{>>=-inv, lift-inv, changes_kept}
use octonomy.Assignment.Inserts.{get_or_create-old, get_or_create-new, get_or_create-refused}

module _ (settings : Settings) (source : Source) (context : Option AuditContext) where
  -- The outcomes of the `try` block of `assign_tag`.
  assign_row-cases :
      (r : Resource) (tag_id : ℕ) (assigned_by : Option String) (db : Db)
      → ((a : TagAssignment) × (matching r tag_id db.assignments ≡ some a)
          × (assign_row settings source context r tag_id assigned_by db ≡ ok ((a, false), db)))
        ⊎ ((v : Db) × (assign_row settings source context r tag_id assigned_by db
              ≡ ok ((new_assignment source r tag_id assigned_by db, true), v))
            × (v.assignments
                ≡ db.assignments ++ new_assignment source r tag_id assigned_by db ∷ []))
        ⊎ ((matching r tag_id db.assignments ≡ none)
            × (assign_row settings source context r tag_id assigned_by db ≡ err integrity_error))
  unfolding assign_row record_created
  assign_row-cases r tag_id assigned_by db =
      elim (Option-cases (matching r tag_id db.assignments)) [
        | inr (a, e) ↦ inl (a, e, rw (get_or_create-old source r tag_id assigned_by db a e) refl)
        | inl e ↦
            let row = new_assignment source r tag_id assigned_by db in
            elim (Bool-cases (row_checks row)) [
              | inl fine ↦
                  let (v, c, k) =
                    changes_kept source context
                      (assignment_change "assignment.created" "after" row ∷ [])
                      (record db {
                        assignments = db.assignments ++ row ∷ [];
                        reads = suc db.reads;
                        draws = suc db.draws;
                      }) in
                  inr (
                    inl (
                      v,
                      rw (get_or_create-new source r tag_id assigned_by db e fine) (rw c refl),
                      k.assignments,
                    ))
              | inr bad ↦
                  inr
                    (inr (e, rw (get_or_create-refused source r tag_id assigned_by db e bad) refl))
            ]
      ]

  -- The resource gains one tag, or has it already, and the other resources keep theirs.
  pub record Gains (r : Resource) (tag_id : ℕ) (rows rows' : List TagAssignment) : Type 0 where
    pub tags : (i : ℕ) → has_tag r rows' i ≡ (has_tag r rows i || nat_beq tag_id i)
    pub kept : others r rows' ≡ others r rows

  pub Gains-old :
      (r : Resource) (tag_id : ℕ) (rows : List TagAssignment) (a : TagAssignment)
      → matching r tag_id rows ≡ some a
      → Gains r tag_id rows rows
  Gains-old r tag_id rows a e = record {
    tags = λ i. elim (Bool-cases (nat_beq tag_id i)) [
      | inl same ↦
          let here : has_tag r rows i ≡ true =
            ap (has_tag r rows) (sym ((nat_beq_iff tag_id i).0 same))
            ∙ has_tag-matching r tag_id rows a e in
          ground arith
      | inr other ↦ ground arith
    ];
    kept = refl;
  }

  of_resource-new :
      (r : Resource) (tag_id : ℕ) (assigned_by : Option String) (db : Db)
      → of_resource r (new_assignment source r tag_id assigned_by db) ≡ true
  unfolding of_resource
  of_resource-new r tag_id assigned_by db = ground (
    arith,
    beq_refl r.tenant_id,
    beq_refl r.application_id,
    beq_refl r.resource_type,
    beq_refl r.resource_id,
    (same_namespace_iff r.namespace r.namespace).1 refl,
  )

  pub Gains-new :
      (r : Resource) (tag_id : ℕ) (assigned_by : Option String) (db v : Db)
      → v.assignments ≡ db.assignments ++ new_assignment source r tag_id assigned_by db ∷ []
      → Gains r tag_id db.assignments v.assignments
  Gains-new r tag_id assigned_by db v e =
      let row = new_assignment source r tag_id assigned_by db in
      let mine = of_resource-new r tag_id assigned_by db in
      record {
        tags = λ i. ap (λ rows. has_tag r rows i) e ∙ has_tag-append r db.assignments row i mine;
        kept = ap (others r) e ∙ others-append r db.assignments row mine;
      }

  assigned :
      (r : Resource) (tag_id : ℕ) (assigned_by : Option String) (db : Db) (d : TagAssignment × Bool)
      (v : Db)
      → except_integrity_error
          (assign_row settings source context r tag_id assigned_by)
          (get_existing r tag_id)
          db
        ≡ ok (d, v)
      → Gains r tag_id db.assignments v.assignments
  unfolding except_integrity_error get_existing
  assigned r tag_id assigned_by db d v h = elim (assign_row-cases r tag_id assigned_by db) [
    | inl (a, e, run) ↦
        let same : v ≡ db = ground arith in
        subst (λ u. Gains r tag_id db.assignments u.assignments) (sym same)
          (Gains-old r tag_id db.assignments a e)
    | inr (inl (u, run, k)) ↦
        let same : v ≡ u = ground arith in
        subst (λ x. Gains r tag_id db.assignments x.assignments) (sym same)
          (Gains-new r tag_id assigned_by db u k)
    | inr (inr (e, run)) ↦ absurd (ground arith)
  ]

  pub assign_tag-Gains :
      (r : Resource) (include_global : Bool) (assigned_by : Option String) (t : Tag) (db : Db)
      (d : TagAssignment × Bool) (v : Db)
      → assign_tag settings source context r include_global assigned_by t db ≡ ok (d, v)
      → Gains r t.id db.assignments v.assignments
  unfolding assign_tag
  assign_tag-Gains r include_global assigned_by t db d v h =
      let (_, _, h₁) = lift-inv (guard_namespace_write_enabled settings r.namespace) _ db h in
      let (_, _, h₂) =
        lift-inv
          (validate_tag_for_assignment t r.tenant_id r.application_id r.namespace include_global) _
          db h₁ in
      assigned r t.id assigned_by db d v h₂

  -- The loop over the tags of a request gives the resource each of them, but those that remain.
  pub assign_missing-tags :
      (r : Resource) (include_global : Bool) (assigned_by : Option String) (remaining : List ℕ)
      (ts : List Tag) (n : ℕ) (db : Db) (m : ℕ) (v : Db)
      → assign_missing settings source context r include_global assigned_by remaining ts n db
        ≡ ok (m, v)
      → ((i : ℕ)
          → has_tag r v.assignments i ≡ (
              has_tag r db.assignments i
              || (contains (map (λ t. t.id) ts) i && not (contains remaining i))))
        × (others r v.assignments ≡ others r db.assignments)
  unfolding assign_missing contains
  assign_missing-tags r g by rem [] n db m v h =
      let same : v ≡ db = ground arith in
      (
        λ i. ap (λ (u : Db). has_tag r u.assignments i) same ∙ ground arith,
        ap (λ (u : Db). others r u.assignments) same,
      )
  assign_missing-tags r g by rem (t ∷ ts) n db m v h = elim (Bool-cases (contains rem t.id)) [
    | inl stays ↦
        let (tags, kept) = assign_missing-tags r g by rem ts n db m v (ground arith) in
        (λ i. skip i stays (tags i), kept)
    | inr lacks ↦
        let (d, u, one, rest) =
          >>=-inv (assign_tag settings source context r g by t)
            (λ done.
              assign_missing settings source context r g by rem ts (if done.1 then n + 1 else n))
            db (ground arith) in
        let gain = assign_tag-Gains r g by t db d u one in
        let (tags, kept) =
          assign_missing-tags r g by rem ts (if d.1 then n + 1 else n) u m v rest in
        (λ i. add u.assignments i lacks (tags i) (gain.tags i), kept ∙ gain.kept)
  ]
    where
      skip :
          (i : ℕ)
          → contains rem t.id ≡ true
          → has_tag r v.assignments i ≡ (
              has_tag r db.assignments i
              || (contains (map (λ x. x.id) ts) i && not (contains rem i)))
          → has_tag r v.assignments i ≡ (
              has_tag r db.assignments i
              || ((nat_beq i t.id || contains (map (λ x. x.id) ts) i) && not (contains rem i)))
      skip i stays e = elim (Bool-cases (nat_beq i t.id)) [
        | inl same ↦
            let here : contains rem i ≡ true =
              ap (contains rem) ((nat_beq_iff i t.id).0 same) ∙ stays in
            ground arith
        | inr other ↦ ground arith
      ]

      add :
          (w : List TagAssignment) (i : ℕ)
          → contains rem t.id ≡ false
          → has_tag r v.assignments i
            ≡ (has_tag r w i || (contains (map (λ x. x.id) ts) i && not (contains rem i)))
          → has_tag r w i ≡ (has_tag r db.assignments i || nat_beq t.id i)
          → has_tag r v.assignments i ≡ (
              has_tag r db.assignments i
              || ((nat_beq i t.id || contains (map (λ x. x.id) ts) i) && not (contains rem i)))
      add w i lacks e f = elim (Bool-cases (nat_beq i t.id)) [
        | inl same ↦
            let here : contains rem i ≡ false =
              ap (contains rem) ((nat_beq_iff i t.id).0 same) ∙ lacks in
            let back : nat_beq t.id i ≡ true = ground arith in ground arith
        | inr other ↦ let back : nat_beq t.id i ≡ false = ground arith in ground arith
      ]

  -- A removal of some of the resource's rows leaves what was not selected.
  pub remove_selected-rows :
      (r : Resource) (p : TagAssignment → Bool) (db : Db) (m : ℕ) (v : Db)
      → DistinctIds db.assignments
      → remove_selected settings source context p db ≡ ok (m, v)
      → v.assignments ≡ filter (λ a. not (p a)) db.assignments
  unfolding remove_selected remove_rows delete_rows
  remove_selected-rows r p db m v distinct h =
      let cs =
        map (assignment_change "assignment.removed" "before")
          (order_by newest_first (filter p db.assignments)) in
      let (u, c, k) = changes_kept source context cs db in
      let (_, x, c', rest) =
        >>=-inv (record_changes source context cs)
          (λ done. delete_rows (order_by newest_first (filter p db.assignments))) db h in
      let same : x ≡ u = ground arith in
      let gone : v.assignments
          ≡ filter
              (λ a. not (contains (ids_of (order_by newest_first (filter p db.assignments))) a.id))
              x.assignments =
        ground arith in
      gone
      ∙ ap
          (λ (y : Db).
            filter
              (λ a. not (contains (ids_of (order_by newest_first (filter p db.assignments))) a.id))
              y.assignments)
          same
      ∙ ap
          (filter
            (λ a. not (contains (ids_of (order_by newest_first (filter p db.assignments))) a.id)))
          k.assignments
      ∙ delete_by_id newest_first p db.assignments distinct
