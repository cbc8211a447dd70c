-- ===== src/Services/Writes.antt =====
-- The entity writes of octonomy/tags/services.py and its neighbours, when they succeed: the table that
-- they wrote, the tables that they left alone, and the audit row and event that describe them.
use octonomy.Prelude.{
  ℕ, suc, ◌≡◌, refl, ap, sym, subst, ◌∙◌, Option, none, some, List, [], ◌∷◌, ◌++◌, arith,
}
use octonomy.Errors.{Result, ok, err, conflict, integrity_error}
use octonomy.Store.{AuditContext, Db, Source, Tx, except_integrity_error}
use octonomy.Store.Changes.{
  Change, build_audit_log, build_outbox_event, create_audit_logs, create_outbox_events,
  record_changes,
}
use octonomy.Store.Kept.{>>=-inv, Kept, changes_kept}
use octonomy.Services.{on_table, or_conflict, written}

-- One audit row and one event describe the change, if there is an audit context.
abbrev pub Recorded : Option AuditContext → Change → Db → Db → Type 0
Recorded none change db v = (v.audit_logs ≡ db.audit_logs) × (v.outbox_events ≡ db.outbox_events)
Recorded (some context) change db v =
    (i : ℕ) × (now : ℕ) × (j : ℕ) × (later : ℕ) × (v.audit_logs
      ≡ db.audit_logs ++ build_audit_log context change i now ∷ [])
    × (v.outbox_events ≡ db.outbox_events ++ build_outbox_event context change j later ∷ [])

pub record_changes-Recorded :
    (source : Source) (context : Option AuditContext) (change : Change) (db v : Db)
    → record_changes source context (change ∷ []) db ≡ ok (tt, v)
    → Recorded context change db v
unfolding record_changes create_audit_logs create_outbox_events
record_changes-Recorded source none change db v h =
    let same : v ≡ db = ground arith in
    (ap (λ (x : Db). x.audit_logs) same, ap (λ (x : Db). x.outbox_events) same)
record_changes-Recorded source (some context) change db v h =
    let same : db_after ≡ v = opened h in
    (
      source.uuid4 db.draws,
      source.now db.reads,
      source.uuid4 (suc db.draws),
      source.now (suc db.reads),
      ap (λ (x : Db). x.audit_logs) (sym same),
      ap (λ (x : Db). x.outbox_events) (sym same),
    )
  where
    db_after : Db
    db_after = record db {
      audit_logs =
          db.audit_logs
          ++ build_audit_log context change (source.uuid4 db.draws) (source.now db.reads) ∷ [];
      outbox_events =
          db.outbox_events
          ++ build_outbox_event context change (source.uuid4 (suc db.draws))
              (source.now (suc db.reads))
            ∷ [];
      reads = suc (suc db.reads);
      draws = suc (suc db.draws);
    }

    opened : ◌≡◌ {A = Result (Unit {0} × Db)} (ok (tt, db_after)) (ok (tt, v)) → db_after ≡ v
    opened e = cc

or_conflict-inv :
    (write : Tx (Unit {0})) (db u : Db) → or_conflict write db ≡ ok (tt, u) → write db ≡ ok (tt, u)
unfolding or_conflict except_integrity_error
or_conflict-inv write db u h = opened (write db) refl h
  where
    opened :
        (x : Result (Unit {0} × Db))
        → write db ≡ x
        → (elim x [
          | ok done ↦ ok done
          | err integrity_error ↦ err (conflict "slug")
          | err raised ↦ err raised
        ])
          ≡ ok (tt, u)
        → write db ≡ ok (tt, u)
    opened (err raised) p q = ground arith
    opened (ok done) p q = p ∙ q

-- What a successful entity write with its records went through.
pub written-inv :
    {A : Type 0} (source : Source) (context : Option AuditContext) (write : Tx (Unit {0}))
    (change : Change) (entity b : A) (db v : Db)
    → written source context write change entity db ≡ ok (b, v)
    → (u : Db) × (write db ≡ ok (tt, u)) × Kept u v × Recorded context change u v × (b ≡ entity)
unfolding written
written-inv source context write change entity b db v h =
    let (_, u, wrote, rest) = >>=-inv write _ db h in
    let (_, x, recorded, done) = >>=-inv (record_changes source context (change ∷ [])) _ u rest in
    let (y, e, kept) = changes_kept source context (change ∷ []) u in
    let last : x ≡ v = ground arith in
    let same : y ≡ v = ground arith in
    (
      u,
      wrote,
      subst (Kept u) same kept,
      subst (Recorded context change u) last
          (record_changes-Recorded source context change u x recorded),
      ground arith,
    )

module _ {A : Type 0} (rows : Db → List A) (put : List A → Db → Db)
    (write : List A → Result (List A)) where
  pub on_table-inv :
      (db u : Db)
      → on_table rows put write db ≡ ok (tt, u)
      → (after : List A) × (write (rows db) ≡ ok after) × (put after db ≡ u)
  unfolding on_table
  on_table-inv db u h = opened (write (rows db)) refl h
    where
      opened :
          (x : Result (List A))
          → write (rows db) ≡ x
          → ◌≡◌ {A = Result (Unit {0} × Db)}
              (elim x [ err e ↦ err e | ok after ↦ ok (tt, put after db) ])
              (ok (tt, u))
          → (after : List A) × (write (rows db) ≡ ok after) × (put after db ≡ u)
      opened (err e) p q = cc
      opened (ok after) p q = (after, p, ground arith)

  -- One table is written, the others are left alone, and the change is recorded.
  pub record Wrote (context : Option AuditContext) (change : Change) (db v : Db) : Type 0 where
    pub after : List A
    pub wrote : write (rows db) ≡ ok after
    pub kept : Kept (put after db) v
    pub recorded : Recorded context change (put after db) v

  module _ {B : Type 0} (source : Source) (context : Option AuditContext) (change : Change)
      (entity b : B) (db v : Db) where
    written-Wrote :
        (u : Db)
        → on_table rows put write db ≡ ok (tt, u)
        → Kept u v
        → Recorded context change u v
        → Wrote context change db v
    written-Wrote u h kept recorded =
        let (after, wrote, same) = on_table-inv db u h in
        record {
          after = after;
          wrote = wrote;
          kept = subst (λ x. Kept x v) (sym same) kept;
          recorded = subst (λ x. Recorded context change x v) (sym same) recorded;
        }

    pub plain-Wrote :
        written source context (on_table rows put write) change entity db ≡ ok (b, v)
        → Wrote context change db v × (b ≡ entity)
    plain-Wrote h =
        let (u, wrote, kept, recorded, e) =
          written-inv source context (on_table rows put write) change entity b db v h in
        (written-Wrote u wrote kept recorded, e)

    pub or_conflict-Wrote :
        written source context (or_conflict (on_table rows put write)) change entity db ≡ ok (b, v)
        → Wrote context change db v × (b ≡ entity)
    or_conflict-Wrote h =
        let (u, wrote, kept, recorded, e) =
          written-inv source context (or_conflict (on_table rows put write)) change entity b db v
            h in
        (written-Wrote u (or_conflict-inv (on_table rows put write) db u wrote) kept recorded, e)
