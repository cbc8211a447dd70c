-- ===== src/Outbox/Dispatch.antt =====
-- octonomy/events/dispatch.py: claiming, publishing and recovering outbox events. One dispatcher
-- runs here; what other processes do to the table while it publishes is part of the transport.

use octonomy.Prelude.{
  ℕ, ◌+◌, String, Bool, false, ◌&&◌, ◌||◌, not, Option, none, some, max, filter, is_none, leb,
  nat_beq, nat_eq, option_eq, ◌==◌, if◌then◌else◌,
}
use octonomy.Token.{seconds}
use octonomy.Outbox.{OutboxEvent, Status}
use octonomy.Outbox.Retry.{Options, retry_delay_seconds}
use octonomy.Outbox.World.{
  M, ◌>>=◌, ◌>>◌, pure, Outcome, Environment, status_beq, comes_before, first_by, deadline,
  timezone_now, draw_uuid, save, published, failed, dead_lettered, recovered,
}

module _ (env : Environment) where
  -- `_gate_namespaced_dispatch`
  unfoldable pub gate_namespaced_dispatch : OutboxEvent → Bool
  gate_namespaced_dispatch e = env.namespace_write_enabled || is_none e.namespace.namespace_type

  -- The condition of `_next_event`.
  unfoldable pub is_due : Bool → ℕ → OutboxEvent → Bool
  is_due retry_failed now e =
      (status_beq e.status Status.pending || (retry_failed && status_beq e.status Status.failed))
      && leb e.available_at now
      && gate_namespaced_dispatch e

  -- `_next_event`
  unfoldable pub next_event : Bool → M (Option OutboxEvent)
  next_event retry_failed = do
    now ← timezone_now env
    λ w. (
      first_by (comes_before (λ e. e.available_at))
          (filter (λ e. is_due retry_failed now e && not (env.locked w e)) w.events),
      w,
    )

  -- The assignments of `_claim_next_event`.
  unfoldable pub claim : ℕ → OutboxEvent → M OutboxEvent
  claim claim_timeout_seconds e = do
    c ← draw_uuid env
    t ← timezone_now env
    save env (record e {
      status = Status.processing;
      claim_id = some c;
      claimed_at = some t;
      claim_expires_at = some (t + seconds claim_timeout_seconds);
    })

  -- `if event is None: return None`
  unfoldable pub claim_found : ℕ → Option OutboxEvent → M (Option OutboxEvent)
  claim_found claim_timeout_seconds none = pure none
  claim_found claim_timeout_seconds (some e) = do
    claimed ← claim claim_timeout_seconds e
    pure (some claimed)

  -- `_claim_next_event`
  unfoldable pub claim_next_event : Bool → ℕ → M (Option OutboxEvent)
  claim_next_event retry_failed claim_timeout_seconds = do
    found ← next_event retry_failed
    claim_found claim_timeout_seconds found

  -- The condition of `_claimed_event`.
  unfoldable pub holds_claim : ℕ → Option ℕ → OutboxEvent → Bool
  holds_claim event_id claim_id e =
      nat_beq e.id event_id && e.claim_id == claim_id && status_beq e.status Status.processing

  -- `_claimed_event`
  unfoldable pub claimed_event : ℕ → Option ℕ → M (Option OutboxEvent)
  claimed_event event_id claim_id w = (
    first_by (comes_before (λ e. e.created_at))
        (filter (λ e. holds_claim event_id claim_id e && not (env.locked w e)) w.events),
    w,
  )

  -- `_mark_published`
  unfoldable pub mark_published : OutboxEvent → M Outcome
  mark_published e = do
    t ← timezone_now env
    save env (record e {
      status = Status.published;
      attempts = e.attempts + 1;
      last_error = "";
      published_at = some t;
      claim_id = none;
      claimed_at = none;
      claim_expires_at = none;
    })
    pure published

  -- The fields that `_mark_failed` writes on either branch.
  unfoldable pub failed_attempt : OutboxEvent → String → OutboxEvent
  failed_attempt e error = record e {
    attempts = e.attempts + 1;
    last_error = error;
    claim_id = none;
    claimed_at = none;
    claim_expires_at = none;
  }

  -- `_mark_failed`
  unfoldable pub mark_failed : Options → OutboxEvent → String → M Outcome
  unfolding failed_attempt
  mark_failed o event error =
      let e = failed_attempt event error in
      if leb o.max_attempts e.attempts
      then (do save env (record e { status = Status.dead_letter }); pure dead_lettered)
      else (do
        t ← timezone_now env
        save env (record e {
          status = Status.failed;
          available_at =
              t + seconds (retry_delay_seconds e.attempts o.retry_base_seconds o.retry_max_seconds);
        })
        pure failed)

  -- The fields that `_mark_recovered` writes: the event waits for the longer of the delays that its
  -- recoveries and its attempts have earned.
  unfoldable pub requeued : Options → ℕ → OutboxEvent → OutboxEvent
  requeued o t e =
      let delay = λ (n : ℕ). retry_delay_seconds n o.retry_base_seconds o.retry_max_seconds in
      record e {
        recoveries = e.recoveries + 1;
        last_error = "outbox claim expired before publish completed";
        status = Status.pending;
        available_at = t + seconds (max (delay (e.recoveries + 1)) (delay e.attempts));
        claim_id = none;
        claimed_at = none;
        claim_expires_at = none;
      }

  -- `_mark_recovered`
  unfoldable pub mark_recovered : Options → OutboxEvent → M Outcome
  unfolding requeued
  mark_recovered o e = do t ← timezone_now env; save env (requeued o t e); pure recovered

  -- The condition of `_next_expired_claim`.
  unfoldable pub is_expired_claim : ℕ → OutboxEvent → Bool
  is_expired_claim now e =
      status_beq e.status Status.processing
      && (elim e.claim_expires_at [ none ↦ false | some t ↦ leb t now ])
      && gate_namespaced_dispatch e

  -- `_next_expired_claim`
  unfoldable pub next_expired_claim : M (Option OutboxEvent)
  next_expired_claim = do
    now ← timezone_now env
    λ w. (
      first_by (comes_before deadline)
          (filter (λ e. is_expired_claim now e && not (env.locked w e)) w.events),
      w,
    )

  -- What follows `transport.publish`: the claim is looked up again, and the event is marked only
  -- if this dispatcher still holds it.
  unfoldable pub settle_found : Options → Option String → Option OutboxEvent → M (Option Outcome)
  settle_found o error none = pure none
  settle_found o none (some e) = do outcome ← mark_published e; pure (some outcome)
  settle_found o (some error) (some e) = do outcome ← mark_failed o e error; pure (some outcome)

  unfoldable pub settle : Options → ℕ → Option ℕ → Option String → M (Option Outcome)
  settle o event_id claim_id error = do
    found ← claimed_event event_id claim_id
    settle_found o error found

  -- `_publish_claimed_event`
  unfoldable pub publish_claimed_event : Options → OutboxEvent → M (Option Outcome)
  publish_claimed_event o e = do error ← env.publish e; settle o e.id e.claim_id error

  unfoldable pub recover_found : Options → Option OutboxEvent → M (Option Outcome)
  recover_found o none = pure none
  recover_found o (some e) = do outcome ← mark_recovered o e; pure (some outcome)

  -- One transaction of `_recover_expired_claims`.
  unfoldable pub recover_next : Options → M (Option Outcome)
  recover_next o = do found ← next_expired_claim; recover_found o found
