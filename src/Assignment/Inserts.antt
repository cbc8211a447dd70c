-- ===== src/Assignment/Inserts.antt =====
-- The single insert of octonomy/assignments/services.py.
use octonomy.Prelude.{
  ℕ, suc, String, ◌≡◌, true, false, Option, none, some, [], ◌∷◌, ◌++◌, arith, nat_eq, string_eq,
}
use octonomy.Errors.{ok, err, integrity_error}
use octonomy.Store.{TagAssignment, Db, Source}
use octonomy.Assignment.{
  Resource, matching, new_assignment, create_assignment, get_or_create, row_checks,
}

module _ (source : Source) (r : Resource) (tag_id : ℕ) (assigned_by : Option String) (db : Db) where
  -- The table with the new row.
  abbrev pub inserted : Db
  inserted = record db {
    assignments = db.assignments ++ new_assignment source r tag_id assigned_by db ∷ [];
    reads = suc db.reads;
    draws = suc db.draws;
  }

  pub get_or_create-old :
      (a : TagAssignment)
      → matching r tag_id db.assignments ≡ some a
      → get_or_create source r tag_id assigned_by db ≡ ok ((a, false), db)
  unfolding get_or_create
  get_or_create-old a e = ground arith

  pub get_or_create-new :
      matching r tag_id db.assignments ≡ none
      → row_checks (new_assignment source r tag_id assigned_by db) ≡ true
      → get_or_create source r tag_id assigned_by db
        ≡ ok ((new_assignment source r tag_id assigned_by db, true), inserted)
  unfolding get_or_create create_assignment
  get_or_create-new e fine = ground arith

  pub get_or_create-refused :
      matching r tag_id db.assignments ≡ none
      → row_checks (new_assignment source r tag_id assigned_by db) ≡ false
      → get_or_create source r tag_id assigned_by db ≡ err integrity_error
  unfolding get_or_create create_assignment
  get_or_create-refused e bad = ground arith
