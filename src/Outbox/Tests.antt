-- ===== src/Outbox/Tests.antt =====
-- A small outbox and one dispatcher.
use octonomy.Prelude.{
  ◌≡◌, ◌≢◌, ◌≤◌, ◌<◌, ◌⊎◌, ◌+◌, ◌*◌, min, arith, inl, inr, refl, ℕ, suc, String, Bool, true, false,
  Option, none, some, List, [], ◌∷◌, map, All, Any,
}
use octonomy.Errors as E
use octonomy.Json.{empty_object}
use octonomy.Scope.{global_scope}
use octonomy.Scope.Laws.{partition}
use octonomy.Outbox.{OutboxEvent, Status}
use octonomy.Outbox.Retry.{
  pos, negsuc, Options, Requested, clamp_options, retry_delay_seconds, retry_delay_bounds,
}
use octonomy.Outbox.World.{World, Environment, replace, Summary, comes_before}
use octonomy.Outbox.Dispatch.{
  claim_next_event, settle, publish_claimed_event, recover_next, next_event,
}
use octonomy.Outbox.Run.{run, dispatch_outbox_events}
use octonomy.Outbox.Run.Bounds.{settled, dispatch_outbox_events-bound}
use octonomy.Outbox.Run.Queue.{Withheld, next_event-first, kill_switch_withholds}
use octonomy.Outbox.Run.Round.{IsAlone, publish_claimed_event-delivers}
use octonomy.Outbox.Run.Drains.{IsDrained, run-drains}
use octonomy.Outbox.Machine.{Settlement}
use octonomy.Outbox.Machine.Rows.{Rows, UniqueIds}
use octonomy.Outbox.Machine.Refines.{MayClaim}
use octonomy.Outbox.Machine.Settles.{reported}
use octonomy.Outbox.Interleave.{Reach, claims, settles, here, next}
use octonomy.Outbox.Interleave.Laws.{IsValid, Reach-IsValid, Reach-keeps_final}
use octonomy.Outbox.Interleave.Fencing.{settle-stale_claim}

abbrev waiting : OutboxEvent
waiting = record {
  id = 1;
  tenant_id = "t1";
  application_id = some "shop";
  namespace = partition "merchant" "a";
  event_type = "tag.created";
  aggregate_type = "tag";
  aggregate_id = 10;
  payload = empty_object;
  metadata = empty_object;
  status = Status.pending;
  attempts = 0;
  recoveries = 0;
  last_error = "";
  available_at = 100;
  claim_id = none;
  claimed_at = none;
  claim_expires_at = none;
  published_at = none;
  operation_id = none;
  request_id = none;
  actor_id = none;
  tag_id = none;
  resource_type = none;
  resource_id = none;
  created_at = 100;
  updated_at = 100;
}

abbrev delivered : OutboxEvent
delivered = record waiting {
  id = 2;
  namespace = global_scope;
  status = Status.published;
  attempts = 1;
  published_at = some 150;
}

abbrev in_flight : OutboxEvent
in_flight = record waiting {
  id = 3;
  status = Status.processing;
  claim_id = some 7;
  claimed_at = some 120;
  claim_expires_at = some 180;
}

abbrev table : World
table = record { events = waiting ∷ delivered ∷ in_flight ∷ []; reads = 0; draws = 0 }

-- A clock that goes on by one, fresh UUIDs, no other transaction, and a transport that fails.
abbrev environment : Environment
environment = record {
  now = λ n. 1000 + n;
  uuid4 = λ n. 500 + n;
  locked = λ w e. false;
  namespace_write_enabled = true;
  publish = λ e w. (some "no route", w);
}

abbrev options : Options
options = record {
  limit = 5;
  retry_failed = true;
  max_attempts = 3;
  retry_base_seconds = 30;
  retry_max_seconds = 3600;
  claim_timeout_seconds = 60;
}

table-UniqueIds : UniqueIds table.events
table-UniqueIds = ground arith

table-IsValid : IsValid 3 table
table-IsValid = record {
  rows = (
    ((refl, refl, refl), omega arith, refl),
    (
      ((refl, refl, refl), omega arith, omega arith, refl),
      ((refl, refl, refl, omega arith, refl), tt),
    ),
  );
  ids = table-UniqueIds;
}

abbrev claimed_table : World
claimed_table = (claim_next_event environment true 60 table).1

abbrev settled_table : World
settled_table = (settle environment options 3 (some 7) (some "no route") claimed_table).1

-- A claim by one dispatcher, and a failed delivery that another settles.
interleaving : Reach 3 table settled_table (500 ∷ [])
interleaving =
    next (next here (claims environment options refl refl refl))
      (settles environment options 3 (some 7) (some "no route") refl refl refl)

Reach-IsValid_example : IsValid 3 settled_table
Reach-IsValid_example = Reach-IsValid 3 table (omega arith) interleaving table-IsValid

Reach-keeps_final_example : Any (λ x. x ≡ delivered) settled_table.events
Reach-keeps_final_example =
    Reach-keeps_final 3 table delivered (omega arith) interleaving table-IsValid (inl refl)
      (inr (inl refl))

settle-stale_claim_example :
    settle environment options 3 (some 8) none settled_table ≡ (none, settled_table)
settle-stale_claim_example =
    settle-stale_claim 3 8 table environment options 3 none interleaving (ground arith)
      (ground arith)

environment-IsAlone : IsAlone environment
environment-IsAlone = record { unlocked = λ w e. refl; quiet = λ e w. refl }

abbrev claimed_waiting : OutboxEvent
claimed_waiting = record waiting {
  status = Status.processing;
  claim_id = some 500;
  claimed_at = some 1001;
  claim_expires_at = some 60001001;
  updated_at = 1002;
}

waiting_claimed : (claim_next_event environment true 60 table).0 ≡ some claimed_waiting
unfolding claim_next_event next_event octonomy.Outbox.World.first_by octonomy.Prelude.filter
    octonomy.Outbox.Dispatch.is_due octonomy.Outbox.World.status_beq
    octonomy.Outbox.Dispatch.gate_namespaced_dispatch octonomy.Outbox.Dispatch.claim_found
    octonomy.Outbox.Dispatch.claim octonomy.Outbox.World.save
waiting_claimed = refl

publish_claimed_event-delivers_example :
    let u = (environment.publish claimed_waiting claimed_table).1 in
    (z : OutboxEvent) × Settlement true options 1
      (some 500)
      (some "no route")
      (environment.now u.reads)
      claimed_waiting
      z
    × ((publish_claimed_event environment options claimed_waiting claimed_table).0
        ≡ some (reported z.status))
    × ((publish_claimed_event environment options claimed_waiting claimed_table).1.events
        ≡ map (replace z) claimed_table.events)
publish_claimed_event-delivers_example =
    publish_claimed_event-delivers environment options environment-IsAlone table claimed_waiting
      table-UniqueIds waiting_claimed

run-drains_example :
    let (s, v) = run environment options table in (s.recovered ≡ 5) ⊎ IsDrained environment v
run-drains_example = run-drains environment options table

-- The waiting event is due, and is the one that is found.
next_event-first_example :
    All
      (λ x.
        MayClaim environment true 1000 (record table { reads = 1 }) x
        → (e : OutboxEvent) × (some waiting ≡ some e)
          × (comes_before (λ y. y.available_at) x e ≡ false))
      table.events
unfolding next_event octonomy.Outbox.World.first_by octonomy.Prelude.filter
    octonomy.Outbox.Dispatch.is_due octonomy.Outbox.World.status_beq
    octonomy.Outbox.Dispatch.gate_namespaced_dispatch
next_event-first_example = next_event-first environment true table (some waiting) refl

abbrev switched_off : Environment
switched_off = record environment { namespace_write_enabled = false }

kill_switch_withholds_example :
    Rows Withheld table.events (claim_next_event switched_off true 60 table).1.events
    × Rows Withheld table.events (recover_next switched_off options table).1.events
kill_switch_withholds_example =
    kill_switch_withholds switched_off options table refl table-UniqueIds

abbrev asked : Requested
asked = record {
  limit = negsuc 0;
  retry_failed = true;
  max_attempts = pos 3;
  retry_base_seconds = pos 0;
  retry_max_seconds = pos 3600;
  claim_timeout_seconds = pos 60;
}

retry_delay_bounds_example :
    let o = clamp_options asked in
    let delay = λ (k : ℕ). retry_delay_seconds k o.retry_base_seconds o.retry_max_seconds in
    (1 ≤ o.retry_base_seconds)
    × (o.retry_base_seconds ≤ delay 2)
    × (delay 2 ≤ delay 4)
    × (delay 4 ≤ o.retry_max_seconds)
    × (delay 1 ≡ o.retry_base_seconds)
    × (delay 4 ≡ min o.retry_max_seconds (2 * delay 3))
retry_delay_bounds_example = retry_delay_bounds asked 2 4 (omega arith)

dispatch_outbox_events-bound_example :
    ((t : ℕ) × (some 90 ≡ some t)
      × ((clamp_options asked).claim_timeout_seconds ≤ t)
      × (dispatch_outbox_events environment (some 90) asked table ≡ E.err E.improperly_configured))
    ⊎ ((s : Summary) × (w' : World) × (dispatch_outbox_events environment (some 90) asked table
          ≡ E.ok (s, w'))
        × (settled s ≤ (clamp_options asked).limit)
        × (s.recovered ≤ (clamp_options asked).limit)
        × ((t : ℕ) → some 90 ≡ some t → t < (clamp_options asked).claim_timeout_seconds))
dispatch_outbox_events-bound_example =
    dispatch_outbox_events-bound environment (some 90) asked table
