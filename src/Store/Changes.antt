-- ===== src/Store/Changes.antt =====
-- The audit rows and outbox events that the services write: octonomy/audit/services.py and
-- octonomy/events/services.py.
use octonomy.Prelude.{ℕ, suc, String, Option, none, some, List, [], ◌∷◌, ◌++◌}
use octonomy.Errors.{ok}
use octonomy.Json.{Json, empty_object, single}
use octonomy.Scope.{Namespace}
use octonomy.Outbox.{OutboxEvent, Status}
use octonomy.Store.{TagAssignment, AuditLog, AuditContext, Source, Tx, ◌>>◌}
use octonomy.Store.Snapshots.{assignment_snapshot}

-- The arguments that a service passes to both `create_audit_log` and `create_outbox_event`, the
-- change being the audit row's `changes` and the event's `payload`.
pub record Change : Type 0 where
  pub tenant_id : String
  pub application_id : Option String
  pub namespace : Namespace
  pub action : String
  pub entity_type : String
  pub entity_id : ℕ
  pub tag_id : Option ℕ
  pub resource_type : Option String
  pub resource_id : Option String
  pub body : Json

-- The change of an assignment that is made or removed.
unfoldable pub assignment_change : String → String → TagAssignment → Change
unfolding assignment_snapshot
assignment_change action side a = record {
  tenant_id = a.tenant_id;
  application_id = some a.application_id;
  namespace = a.namespace;
  action = action;
  entity_type = "tag_assignment";
  entity_id = a.id;
  tag_id = some a.tag_id;
  resource_type = some a.resource_type;
  resource_id = some a.resource_id;
  body = single side (assignment_snapshot a);
}

-- `build_audit_log`
unfoldable pub build_audit_log : AuditContext → Change → ℕ → ℕ → AuditLog
build_audit_log context c id now = record {
  id = id;
  tenant_id = c.tenant_id;
  application_id = c.application_id;
  namespace = c.namespace;
  action = c.action;
  entity_type = c.entity_type;
  entity_id = c.entity_id;
  tag_id = c.tag_id;
  resource_type = c.resource_type;
  resource_id = c.resource_id;
  actor_id = context.actor_id;
  request_id = context.request_id;
  operation_id = context.operation_id;
  changes = c.body;
  metadata = empty_object;
  created_at = now;
}

-- `build_outbox_event`
unfoldable pub build_outbox_event : AuditContext → Change → ℕ → ℕ → OutboxEvent
build_outbox_event context c id now = record {
  id = id;
  tenant_id = c.tenant_id;
  application_id = c.application_id;
  namespace = c.namespace;
  event_type = c.action;
  aggregate_type = c.entity_type;
  aggregate_id = c.entity_id;
  payload = c.body;
  metadata = empty_object;
  status = Status.pending;
  attempts = 0;
  recoveries = 0;
  last_error = "";
  available_at = now;
  claim_id = none;
  claimed_at = none;
  claim_expires_at = none;
  published_at = none;
  operation_id = some context.operation_id;
  request_id = context.request_id;
  actor_id = context.actor_id;
  tag_id = c.tag_id;
  resource_type = c.resource_type;
  resource_id = c.resource_id;
  created_at = now;
  updated_at = now;
}

module _ (source : Source) where
  -- `create_audit_logs`; without an audit context nothing is written.
  unfoldable pub create_audit_logs : Option AuditContext → List Change → Tx (Unit {0})
  unfolding build_audit_log
  create_audit_logs context [] db = ok (tt, db)
  create_audit_logs none (c ∷ cs) db = create_audit_logs none cs db
  create_audit_logs (some context) (c ∷ cs) db = create_audit_logs (some context) cs (record db {
    audit_logs =
        db.audit_logs
        ++ build_audit_log context c (source.uuid4 db.draws) (source.now db.reads) ∷ [];
    reads = suc db.reads;
    draws = suc db.draws;
  })

  -- `create_outbox_events`
  unfoldable pub create_outbox_events : Option AuditContext → List Change → Tx (Unit {0})
  unfolding build_outbox_event
  create_outbox_events context [] db = ok (tt, db)
  create_outbox_events none (c ∷ cs) db = create_outbox_events none cs db
  create_outbox_events (some context) (c ∷ cs) db =
      create_outbox_events (some context) cs (record db {
        outbox_events =
            db.outbox_events
            ++ build_outbox_event context c (source.uuid4 db.draws) (source.now db.reads) ∷ [];
        reads = suc db.reads;
        draws = suc db.draws;
      })

  -- The pair of them, as every service calls it.
  unfoldable pub record_changes : Option AuditContext → List Change → Tx (Unit {0})
  record_changes context cs = do create_audit_logs context cs; create_outbox_events context cs
