-- ===== src/Store.antt =====
-- The database as the services see it, one transaction at a time: the rows of
-- octonomy/assignments/models.py and octonomy/audit/models.py beside those of the catalog. An error
-- leaves the tables as they were, as `transaction.atomic` does. A UUID is drawn and the clock read
-- where a row is saved; that the UUIDs of two assignments, audit rows or events collide is not
-- modelled.
pub mod Snapshots
pub mod Changes
pub mod Kept
use octonomy.Prelude.{ℕ, suc, String, Option, List}
use octonomy.Errors.{Result, ok, err, integrity_error}
use octonomy.Json.{Json}
use octonomy.Scope.{Namespace}
use octonomy.Catalog.{Tag, TagAlias, Vocabulary}
use octonomy.Outbox.{OutboxEvent}

pub record TagAssignment : Type 0 where
  pub id : ℕ
  pub tenant_id : String
  pub application_id : String
  pub namespace : Namespace
  pub tag_id : ℕ
  pub resource_type : String
  pub resource_id : String
  pub assigned_by : Option String
  pub assigned_at : ℕ

pub record AuditLog : Type 0 where
  pub id : ℕ
  pub tenant_id : String
  pub application_id : Option String
  pub namespace : Namespace
  pub action : String
  pub entity_type : String
  pub entity_id : ℕ
  pub tag_id : Option ℕ
  pub resource_type : Option String
  pub resource_id : Option String
  pub actor_id : Option String
  pub request_id : Option String
  pub operation_id : ℕ
  pub changes : Json
  pub metadata : Json
  pub created_at : ℕ

-- octonomy/core/audit.py
pub record AuditContext : Type 0 where
  pub actor_id : Option String
  pub request_id : Option String
  pub operation_id : ℕ

pub record Db : Type 0 where
  pub tags : List Tag
  pub aliases : List TagAlias
  pub vocabularies : List Vocabulary
  pub assignments : List TagAssignment
  pub audit_logs : List AuditLog
  pub outbox_events : List OutboxEvent
  pub reads : ℕ
  pub draws : ℕ

-- The clock and the UUIDs, as functions of how many were taken.
pub record Source : Type 0 where
  pub now : ℕ → ℕ
  pub uuid4 : ℕ → ℕ

abbrev pub Tx : Type 0 → Type 0
Tx A = Db → Result (A × Db)

-- What follows a step, unless it raised.
abbrev pub carry_on : {A B : Type 0} → Result (A × Db) → (A → Tx B) → Result (B × Db)
carry_on (err raised) rest = err raised
carry_on (ok (a, db)) rest = rest a db

infixl 5 ◌>>=◌ ◌>>◌
abbrev pub ◌>>=◌ : {A B : Type 0} → Tx A → (A → Tx B) → Tx B
◌>>=◌ m f db = carry_on (m db) f

abbrev pub ◌>>◌ : {B : Type 0} → Tx (Unit {0}) → Tx B → Tx B
check >> rest = check >>= λ done. rest

abbrev pub pure : {A : Type 0} → A → Tx A
pure a db = ok (a, db)

-- A check that reads nothing.
abbrev pub lift : {A : Type 0} → Result A → Tx A
lift (err raised) db = err raised
lift (ok a) db = ok (a, db)

-- `except IntegrityError`: the block is rolled back, and the handler runs.
unfoldable pub except_integrity_error : {A : Type 0} → Tx A → Tx A → Tx A
except_integrity_error block handler db = elim (block db) [
  | ok done ↦ ok done
  | err integrity_error ↦ handler db
  | err raised ↦ err raised
]

-- `timezone.now()`
unfoldable pub read_clock : Source → Tx ℕ
read_clock source db = ok (source.now db.reads, record db { reads = suc db.reads })

-- `uuid.uuid4()`
unfoldable pub draw_uuid : Source → Tx ℕ
draw_uuid source db = ok (source.uuid4 db.draws, record db { draws = suc db.draws })
