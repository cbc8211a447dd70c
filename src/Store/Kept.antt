-- ===== src/Store/Kept.antt =====
-- The chaining of steps on the store, and what the writes of audit rows and outbox events keep.
use octonomy.Prelude.{
  ℕ, String, ◌≡◌, refl, ap, sym, ◌∙◌, Option, none, some, List, [], ◌∷◌, ◌++◌, map, append_nil,
  map-snoc, arith,
}
use octonomy.Outbox.{OutboxEvent}
use octonomy.Errors.{Result, ok, err}
use octonomy.Store.{AuditContext, Db, Source, Tx, ◌>>=◌, lift, carry_on}
use octonomy.Store.Changes.{Change, create_audit_logs, create_outbox_events, record_changes}

pub >>=-inv :
    {A B : Type 0} (m : Tx A) (f : A → Tx B) (db : Db) {d : B × Db}
    → (m >>= f) db ≡ ok d
    → (a : A) × (v : Db) × (m db ≡ ok (a, v)) × (f a v ≡ ok d)
>>=-inv {A = A} {B = B} m f db {d} h = opened (m db) refl h
  where
    opened :
        (x : Result (A × Db))
        → m db ≡ x
        → carry_on x f ≡ ok d
        → (a : A) × (v : Db) × (m db ≡ ok (a, v)) × (f a v ≡ ok d)
    opened (err e) p q = cc
    opened (ok (a, v)) p q = (a, v, p, q)

pub lift-inv :
    {A B : Type 0} (m : Result A) (f : A → Tx B) (db : Db) {d : B × Db}
    → (lift m >>= f) db ≡ ok d
    → (a : A) × (m ≡ ok a) × (f a db ≡ ok d)
lift-inv (err e) f db h = cc
lift-inv (ok a) f db h = (a, refl, h)

-- What writes that concern no row of the catalog or of the assignments leave alone.
pub record Kept (db v : Db) : Type 0 where
  pub tags : v.tags ≡ db.tags
  pub aliases : v.aliases ≡ db.aliases
  pub vocabularies : v.vocabularies ≡ db.vocabularies
  pub assignments : v.assignments ≡ db.assignments

abbrev pub Kept_refl : (db : Db) → Kept db db
Kept_refl db = record { tags = refl; aliases = refl; vocabularies = refl; assignments = refl }

pub Kept_trans : {db u v : Db} → Kept db u → Kept u v → Kept db v
Kept_trans k l = record {
  tags = l.tags ∙ k.tags;
  aliases = l.aliases ∙ k.aliases;
  vocabularies = l.vocabularies ∙ k.vocabularies;
  assignments = l.assignments ∙ k.assignments;
}

-- Audit rows and events leave the rows alone.
pub audit_logs_kept :
    (source : Source) (context : Option AuditContext) (cs : List Change) (db : Db)
    → (v : Db) × (create_audit_logs source context cs db ≡ ok (tt, v)) × Kept db v
unfolding create_audit_logs
audit_logs_kept source none [] db = (db, refl, Kept_refl db)
audit_logs_kept source (some context) [] db = (db, refl, Kept_refl db)
audit_logs_kept source none (c ∷ cs) db = audit_logs_kept source none cs db
audit_logs_kept source (some context) (c ∷ cs) db =
    let (v, e, k) = audit_logs_kept source (some context) cs _ in
    (
      v,
      e,
      record {
        tags = k.tags;
        aliases = k.aliases;
        vocabularies = k.vocabularies;
        assignments = k.assignments;
      },
    )

pub events_kept :
    (source : Source) (context : Option AuditContext) (cs : List Change) (db : Db)
    → (v : Db) × (create_outbox_events source context cs db ≡ ok (tt, v)) × Kept db v
unfolding create_outbox_events
events_kept source none [] db = (db, refl, Kept_refl db)
events_kept source (some context) [] db = (db, refl, Kept_refl db)
events_kept source none (c ∷ cs) db = events_kept source none cs db
events_kept source (some context) (c ∷ cs) db =
    let (v, e, k) = events_kept source (some context) cs _ in
    (
      v,
      e,
      record {
        tags = k.tags;
        aliases = k.aliases;
        vocabularies = k.vocabularies;
        assignments = k.assignments;
      },
    )

pub changes_kept :
    (source : Source) (context : Option AuditContext) (cs : List Change) (db : Db)
    → (v : Db) × (record_changes source context cs db ≡ ok (tt, v)) × Kept db v
unfolding record_changes
changes_kept source context cs db =
    let (u, e, k) = audit_logs_kept source context cs db in
    let (v, e', k') = events_kept source context cs u in (v, rw e e', Kept_trans k k')

-- What an event and a change are about.
abbrev pub announced : OutboxEvent → String × ℕ
announced e = (e.event_type, e.aggregate_id)

abbrev pub concerned : Change → String × ℕ
concerned c = (c.action, c.entity_id)

audit_logs-quiet :
    (source : Source) (context : AuditContext) (cs : List Change) (db v : Db)
    → create_audit_logs source (some context) cs db ≡ ok (tt, v)
    → v.outbox_events ≡ db.outbox_events
unfolding create_audit_logs
audit_logs-quiet source context [] db v h = ground arith
audit_logs-quiet source context (c ∷ cs) db v h = audit_logs-quiet source context cs _ v h

events-announced :
    (source : Source) (context : AuditContext) (cs : List Change) (db v : Db)
    → create_outbox_events source (some context) cs db ≡ ok (tt, v)
    → map announced v.outbox_events ≡ map announced db.outbox_events ++ map concerned cs
unfolding create_outbox_events
events-announced source context [] db v h =
    let same : v ≡ db = ground arith in
    ap (λ (x : Db). map announced x.outbox_events) same
    ∙ sym (append_nil (map announced db.outbox_events))
events-announced source context (c ∷ cs) db v h =
    events-announced source context cs _ v h
    ∙ map-snoc announced db.outbox_events _ (map concerned cs)

-- With an audit context, changes append one event each to the outbox, in their order.
pub changes-announced :
    (source : Source) (context : AuditContext) (cs : List Change) (db v : Db)
    → record_changes source (some context) cs db ≡ ok (tt, v)
    → map announced v.outbox_events ≡ map announced db.outbox_events ++ map concerned cs
unfolding record_changes
changes-announced source context cs db v h =
    let (_, u, e, h₁) =
      >>=-inv (create_audit_logs source (some context) cs)
        (λ done. create_outbox_events source (some context) cs) db h in
    events-announced source context cs u v h₁
    ∙ ap (λ es. map announced es ++ map concerned cs) (audit_logs-quiet source context cs db u e)
