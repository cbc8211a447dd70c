-- ===== src/Assignment/Removal.antt =====
-- What bulk_remove_tags of octonomy/assignments/services.py leaves in the tables.
use octonomy.Prelude.{
  ℕ, ◌+◌, ◌≡◌, refl, ap, ◌∙◌, Bool, ◌&&◌, not, some, List, [], ◌∷◌, ◌++◌, map, filter, length,
  length-filter_split, contains, arith, nat_eq, string_eq, ltb, if◌then◌else◌,
}
use octonomy.Errors.{ok, err, validation}
use octonomy.Scope.{Settings, guard_namespace_write_enabled}
use octonomy.Store.{TagAssignment, AuditContext, Db, Source}
use octonomy.Store.Changes.{assignment_change, record_changes}
use octonomy.Store.Kept.{>>=-inv, lift-inv, changes_kept, changes-announced, announced}
use octonomy.Assignment.{Resource, of_resource}
use octonomy.Resolution.{order_by}
use octonomy.Catalog.{Pairs}
use octonomy.Assignment.Newest.{NoNewer, newest_first-Pairs}
use octonomy.Assignment.Services.{
  newest_first, delete_rows, remove_rows, remove_selected, bulk_remove_tags,
}
use octonomy.Assignment.Rows.{DistinctIds, ids_of}
use octonomy.Assignment.Steps.{remove_selected-rows}

-- A removal of the selected rows: the others stay, in their order, the answer is the number of the
-- removed, and the outbox has one event for each of them, in an order in which none is followed by
-- one that was assigned later.
pub record IsRemoved (selected : TagAssignment → Bool) (db v : Db) (answer : ℕ) : Type 0 where
  pub rows : v.assignments ≡ filter (λ a. not (selected a)) db.assignments
  pub counted : answer + length v.assignments ≡ length db.assignments
  pub events :
      map announced v.outbox_events
      ≡ map announced db.outbox_events
        ++ map
            (λ a. ("assignment.removed", a.id))
            (order_by newest_first (filter selected db.assignments))
  pub newest : Pairs NoNewer (order_by newest_first (filter selected db.assignments))

map-map :
    {A B C : Type 0} (f : A → B) (g : B → C) (xs : List A)
    → map g (map f xs) ≡ map (λ x. g (f x)) xs
map-map f g [] = refl
map-map f g (x ∷ xs) = ap (λ ys. g (f x) ∷ ys) (map-map f g xs)

module _ (settings : Settings) (source : Source) (context : AuditContext) where
  remove_selected-IsRemoved :
      (r : Resource) (p : TagAssignment → Bool) (db : Db) (m : ℕ) (v : Db)
      → DistinctIds db.assignments
      → remove_selected settings source (some context) p db ≡ ok (m, v)
      → IsRemoved p db v m
  unfolding remove_selected remove_rows delete_rows assignment_change
  remove_selected-IsRemoved r p db m v distinct h =
      let chosen = order_by newest_first (filter p db.assignments) in
      let cs = map (assignment_change "assignment.removed" "before") chosen in
      let gone = λ (a : TagAssignment). contains (ids_of chosen) a.id in
      let (u, c, k) = changes_kept source (some context) cs db in
      let (_, x, c', rest) =
        >>=-inv (record_changes source (some context) cs) (λ done. delete_rows chosen) db h in
      let same : x ≡ u = ground arith in
      let still : x.assignments ≡ db.assignments =
        ap (λ (y : Db). y.assignments) same ∙ k.assignments in
      let rows = remove_selected-rows settings source (some context) r p db m v distinct h in
      let number : m ≡ length (filter gone x.assignments) = ground arith in
      let left : v.assignments ≡ filter (λ a. not (gone a)) x.assignments = ground arith in
      let told : v.outbox_events ≡ x.outbox_events = ground arith in
      record {
        rows = rows;
        counted =
            let split = length-filter_split gone x.assignments in
            let whole = ap length still in
            let rest_of = ap length left in omega (arith, number, split, whole, rest_of);
        events =
            ap (map announced) told
            ∙ changes-announced source context cs db x c'
            ∙ ap (λ ys. map announced db.outbox_events ++ ys)
                (map-map (assignment_change "assignment.removed" "before") _ chosen);
        newest = newest_first-Pairs (filter p db.assignments);
      }

  -- If the rows have distinct ids, a bulk removal that goes through, with an audit context, leaves
  -- exactly the rows that are not the resource's, in its exact tenant, application and namespace,
  -- with one of the named tags, answers with the number of the others, and appends to the outbox one
  -- removal event for each of them, the latest assigned first and, of one instant, the lowest id.
  pub bulk_remove_tags-IsRemoved :
      (r : Resource) (wanted : List ℕ) (db : Db) (m : ℕ) (v : Db)
      → DistinctIds db.assignments
      → bulk_remove_tags settings source (some context) r wanted db ≡ ok (m, v)
      → IsRemoved (λ a. of_resource r a && contains wanted a.tag_id) db v m
  unfolding bulk_remove_tags
  bulk_remove_tags-IsRemoved r wanted db m v distinct h =
      let (_, _, h₁) = lift-inv (guard_namespace_write_enabled settings r.namespace) _ db h in
      let (_, _, h₂) =
        lift-inv
          (if ltb settings.max_bulk_tags (length wanted) then err (validation "tag_ids") else ok tt)
          _ db h₁ in
      remove_selected-IsRemoved r (λ a. of_resource r a && contains wanted a.tag_id) db m v distinct
        h₂
