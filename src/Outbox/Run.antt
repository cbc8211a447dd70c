-- ===== src/Outbox/Run.antt =====
-- The two loops of a dispatch run, octonomy/events/dispatch.py (dispatch_outbox_events and
-- _recover_expired_claims). The metric that the run emits at its end is not modelled.
pub mod Bounds
pub mod Queue
pub mod Round
pub mod Drains
use octonomy.Prelude.{ℕ, zero, suc, Option, none, some, ◌+◌, leb, if◌then◌else◌}
use octonomy.Errors as E
use octonomy.Outbox.{OutboxEvent}
use octonomy.Outbox.Retry.{Options, Requested, clamp_options}
use octonomy.Outbox.World.{
  World, Environment, M, ◌>>=◌, pure, Outcome, Summary, empty_summary, count_some,
}
use octonomy.Outbox.Dispatch.{claim_next_event, publish_claimed_event, recover_next}

module _ (env : Environment) (o : Options) where
  -- One round of the publishing loop after the claim: `break` where there was none, and else
  -- `rest`, the rounds that follow.
  unfoldable pub publish_found : (Summary → M Summary) → Summary → Option OutboxEvent → M Summary
  publish_found rest s none = pure s
  publish_found rest s (some e) = do
    outcome ← publish_claimed_event env o e
    rest (count_some outcome s)

  -- `for _ in range(limit)`: claim, publish, and go on until nothing is due.
  unfoldable pub publish_loop : ℕ → Summary → M Summary
  publish_loop zero s = pure s
  publish_loop (suc n) s = do
    found ← claim_next_event env o.retry_failed o.claim_timeout_seconds
    publish_found (publish_loop n) s found

  -- One round of recovery after its transaction.
  unfoldable pub recover_counted : (ℕ → M ℕ) → ℕ → Option Outcome → M ℕ
  recover_counted rest n none = pure n
  recover_counted rest n (some r) = rest (n + 1)

  -- The loop of `_recover_expired_claims`, with the count of its summary.
  unfoldable pub recover_loop : ℕ → ℕ → M ℕ
  recover_loop zero n = pure n
  recover_loop (suc k) n = do
    outcome ← recover_next env o
    recover_counted (recover_loop k) n outcome

  -- Both loops, each of at most `limit` rounds.
  unfoldable pub run : M Summary
  run = do
    s ← publish_loop o.limit empty_summary
    n ← recover_loop o.limit 0
    pure (record s { recovered = s.recovered + n })

-- `dispatch_outbox_events`, with the timeout of its transport if that is a webhook.
unfoldable pub dispatch_outbox_events :
    Environment → Option ℕ → Requested → World → E.Result (Summary × World)
unfolding clamp_options
dispatch_outbox_events env webhook_timeout r w =
    let o = clamp_options r in
    let done = E.ok (run env o w) in
    elim webhook_timeout [
      | none ↦ done
      | some timeout ↦
          if leb o.claim_timeout_seconds timeout then E.err E.improperly_configured else done
    ]
