-- ===== src/Outbox/Machine.antt =====
-- The state machine that one outbox event goes through, stated apart from the code: what a
-- dispatcher may do to a row. Machine/Refines, Settles and Expiry relate the transactions of
-- octonomy/events/dispatch.py to it.
pub mod Laws
pub mod Rows
pub mod Refines
pub mod Settles
pub mod Expiry
use octonomy.Prelude.{
  ℕ, suc, ◌+◌, ◌≤◌, ◌<◌, ◌≡◌, ◌⊎◌, String, Bool, true, false, Option, none, some, is_none, max,
}
use octonomy.Token.{seconds}
use octonomy.Outbox.{OutboxEvent, Status}
use octonomy.Outbox.Retry.{Options, retry_delay_seconds}

-- Off duty: no claim.
abbrev pub Unclaimed : OutboxEvent → Type 0
Unclaimed e = (e.claim_id ≡ none) × (e.claimed_at ≡ none) × (e.claim_expires_at ≡ none)

-- `y` is `x` but for its dispatch fields: an event is never rewritten.
pub record SameEvent (x y : OutboxEvent) : Type 0 where
  pub id : y.id ≡ x.id
  pub tenant_id : y.tenant_id ≡ x.tenant_id
  pub application_id : y.application_id ≡ x.application_id
  pub namespace : y.namespace ≡ x.namespace
  pub event_type : y.event_type ≡ x.event_type
  pub aggregate_type : y.aggregate_type ≡ x.aggregate_type
  pub aggregate_id : y.aggregate_id ≡ x.aggregate_id
  pub payload : y.payload ≡ x.payload
  pub metadata : y.metadata ≡ x.metadata
  pub created_at : y.created_at ≡ x.created_at

-- The kill-switch lets a dispatcher take the row.
abbrev pub IsOpen : Bool → OutboxEvent → Type 0
IsOpen enabled e = (enabled ≡ true) ⊎ (is_none e.namespace.namespace_type ≡ true)

-- The row that a dispatcher holds: the event and the claim are those of its delivery.
pub record Holds (event_id : ℕ) (claim_id : Option ℕ) (x : OutboxEvent) : Type 0 where
  pub id : x.id ≡ event_id
  pub claim : x.claim_id ≡ claim_id
  pub status : x.status ≡ Status.processing

module _ (enabled : Bool) (o : Options) where
  -- A waiting event that is due at `now` gets the claim, at the instant `at`.
  pub record Claims (now claim at : ℕ) (x y : OutboxEvent) : Type 0 where
    pub waiting :
        (x.status ≡ Status.pending) ⊎ ((o.retry_failed ≡ true) × (x.status ≡ Status.failed))
    pub due : x.available_at ≤ now
    pub open_to : IsOpen enabled x
    pub status : y.status ≡ Status.processing
    pub claim_id : y.claim_id ≡ some claim
    pub claimed_at : y.claimed_at ≡ some at
    pub claim_expires_at : y.claim_expires_at ≡ some (at + seconds o.claim_timeout_seconds)
    pub attempts : y.attempts ≡ x.attempts
    pub recoveries : y.recoveries ≡ x.recoveries
    pub available_at : y.available_at ≡ x.available_at
    pub published_at : y.published_at ≡ x.published_at

  -- A delivered event is published, for good.
  pub record Publishes (at : ℕ) (x y : OutboxEvent) : Type 0 where
    pub held : x.status ≡ Status.processing
    pub status : y.status ≡ Status.published
    pub attempts : y.attempts ≡ x.attempts + 1
    pub recoveries : y.recoveries ≡ x.recoveries
    pub last_error : y.last_error ≡ ""
    pub published_at : y.published_at ≡ some at
    pub unclaimed : Unclaimed y

  -- A failed delivery waits for its next attempt, while there is one left.
  pub record Fails (error : String) (at : ℕ) (x y : OutboxEvent) : Type 0 where
    pub held : x.status ≡ Status.processing
    pub left : x.attempts + 1 < o.max_attempts
    pub status : y.status ≡ Status.failed
    pub attempts : y.attempts ≡ x.attempts + 1
    pub recoveries : y.recoveries ≡ x.recoveries
    pub last_error : y.last_error ≡ error
    pub available_at :
        y.available_at
        ≡ at
          + seconds (retry_delay_seconds (x.attempts + 1) o.retry_base_seconds o.retry_max_seconds)
    pub published_at : y.published_at ≡ x.published_at
    pub unclaimed : Unclaimed y

  -- The last failed delivery is dead-lettered, for good.
  pub record Buries (error : String) (x y : OutboxEvent) : Type 0 where
    pub held : x.status ≡ Status.processing
    pub spent : o.max_attempts ≤ x.attempts + 1
    pub status : y.status ≡ Status.dead_letter
    pub attempts : y.attempts ≡ x.attempts + 1
    pub recoveries : y.recoveries ≡ x.recoveries
    pub last_error : y.last_error ≡ error
    pub published_at : y.published_at ≡ x.published_at
    pub unclaimed : Unclaimed y

  -- A claim whose deadline has passed at `now` is taken back at the instant `at`: no attempt is
  -- counted, and the event waits as long as its recoveries or its attempts have earned.
  pub record Recovers (now at : ℕ) (x y : OutboxEvent) : Type 0 where
    pub held : x.status ≡ Status.processing
    pub deadline : ℕ
    pub claimed : x.claim_expires_at ≡ some deadline
    pub over : deadline ≤ now
    pub open_to : IsOpen enabled x
    pub status : y.status ≡ Status.pending
    pub attempts : y.attempts ≡ x.attempts
    pub recoveries : y.recoveries ≡ x.recoveries + 1
    pub available_at :
        y.available_at
        ≡ at
          + seconds (
              max
                (retry_delay_seconds (x.recoveries + 1) o.retry_base_seconds o.retry_max_seconds)
                (retry_delay_seconds x.attempts o.retry_base_seconds o.retry_max_seconds))
    pub published_at : y.published_at ≡ x.published_at
    pub unclaimed : Unclaimed y

  -- What one kind of transaction does to the row that it selects. A settlement is of one delivery,
  -- whose transport raised the error, if it did.
  pub data Claim (now claim at : ℕ) (x y : OutboxEvent) : Type 0 where
    claims : SameEvent x y → Claims now claim at x y → Claim now claim at x y

  pub data Settlement (event_id : ℕ) (claim_id : Option ℕ) (error : Option String) (at : ℕ)
      (x y : OutboxEvent) : Type 0 where
    publishes :
        Holds event_id claim_id x
        → error ≡ none
        → SameEvent x y
        → Publishes at x y
        → Settlement event_id claim_id error at x y
    fails :
        Holds event_id claim_id x
        → (text : String) → error ≡ some text
        → SameEvent x y
        → Fails text at x y
        → Settlement event_id claim_id error at x y
    buries :
        Holds event_id claim_id x
        → (text : String) → error ≡ some text
        → SameEvent x y
        → Buries text x y
        → Settlement event_id claim_id error at x y

  pub data Recovery (now at : ℕ) (x y : OutboxEvent) : Type 0 where
    recovers : SameEvent x y → Recovers now at x y → Recovery now at x y

  pub data Move (x y : OutboxEvent) : Type 0 where
    stay : y ≡ x → Move x y
    claim : (now c at : ℕ) → Claim now c at x y → Move x y
    settle :
        (event_id : ℕ) (claim_id : Option ℕ) (error : Option String) (at : ℕ)
        → Settlement event_id claim_id error at x y
        → Move x y
    recover : (now at : ℕ) → Recovery now at x y → Move x y
