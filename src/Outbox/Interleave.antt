-- ===== src/Outbox/Interleave.antt =====
-- Any number of dispatchers at once, octonomy/events/dispatch.py: their transactions, and the
-- inserts of the services, in any order. Each dispatcher has its own environment and options, and
-- may settle a delivery long after its claim was lost; all allow the same number of attempts.
pub mod Laws
pub mod Fencing
use octonomy.Prelude.{
  ℕ, suc, ◌+◌, ◌<◌, ◌≡◌, ◌≢◌, String, Option, none, some, List, [], ◌∷◌, ◌++◌, All,
}
use octonomy.Outbox.{OutboxEvent, Status}
use octonomy.Outbox.Retry.{Options}
use octonomy.Outbox.World.{World, Environment}
use octonomy.Outbox.Dispatch.{claim_next_event, settle, recover_next}
use octonomy.Outbox.Machine.{Unclaimed}

-- What `build_outbox_event` saves: the defaults of the model's dispatch fields.
pub record IsNew (e : OutboxEvent) : Type 0 where
  pub status : e.status ≡ Status.pending
  pub attempts : e.attempts ≡ 0
  pub unclaimed : Unclaimed e
  pub published_at : e.published_at ≡ none

-- One transaction, and the UUIDs that it draws for a claim.
pub data Step (top : ℕ) (w w' : World) (drawn : List ℕ) : Type 0 where
  claims :
      (env : Environment) (o : Options)
      → o.max_attempts ≡ top
      → drawn ≡ env.uuid4 w.draws ∷ []
      → w' ≡ (claim_next_event env o.retry_failed o.claim_timeout_seconds w).1
      → Step top w w' drawn
  settles :
      (env : Environment) (o : Options) (event_id : ℕ) (claim_id : Option ℕ) (error : Option String)
      → o.max_attempts ≡ top
      → drawn ≡ []
      → w' ≡ (settle env o event_id claim_id error w).1
      → Step top w w' drawn
  recovers :
      (env : Environment) (o : Options)
      → o.max_attempts ≡ top
      → drawn ≡ []
      → w' ≡ (recover_next env o w).1
      → Step top w w' drawn
  enqueues :
      (e : OutboxEvent)
      → IsNew e
      → All (λ x. x.id ≢ e.id) w.events
      → drawn ≡ []
      → w' ≡ record w { events = w.events ++ e ∷ [] }
      → Step top w w' drawn

pub data Reach (top : ℕ) (w : World) : World → List ℕ → Type 0 where
  here : Reach top w w []
  next :
      {v v' : World} {drawn drawn' : List ℕ}
      → Reach top w v drawn
      → Step top v v' drawn'
      → Reach top w v' (drawn' ++ drawn)
