-- ===== src/Outbox/Machine/Refines.antt =====
-- The claim of octonomy/events/dispatch.py as a step of the machine.
use octonomy.Prelude.{
  ℕ, suc, ◌≤◌, ◌≡◌, ◌⊎◌, refl, sym, subst, Bool, true, false, ◌&&◌, not, Option, none, some, List,
  map, filter, All, All-map_imp, Any, arith,
}
use octonomy.Outbox.{OutboxEvent, Status}
use octonomy.Outbox.Retry.{Options}
use octonomy.Outbox.World.{World, Environment, replace, save, first_by, comes_before, status_beq}
use octonomy.Outbox.Dispatch.{
  claim, claim_next_event, claim_found, next_event, is_due, gate_namespaced_dispatch,
}
use octonomy.Outbox.Machine.Rows.{One, UniqueIds, One-refl, One-saved, selected, none_selected}
use octonomy.Outbox.Machine.{IsOpen, Claim, claims}

-- A row that a dispatcher may claim at `now`, in words: it waits, its time has come, the kill-switch
-- lets it through, and no other transaction holds it.
abbrev pub MayClaim : Environment → Bool → ℕ → World → OutboxEvent → Type 0
MayClaim env retry_failed now w e =
    ((e.status ≡ Status.pending) ⊎ ((retry_failed ≡ true) × (e.status ≡ Status.failed)))
    × (e.available_at ≤ now)
    × IsOpen env.namespace_write_enabled e
    × (env.locked w e ≡ false)

pub MayClaim-test :
    (env : Environment) (retry_failed : Bool) (now : ℕ) (w : World) (e : OutboxEvent)
    → MayClaim env retry_failed now w e
    → (is_due env retry_failed now e && not (env.locked w e)) ≡ true
unfolding is_due status_beq gate_namespaced_dispatch
MayClaim-test env retry_failed now w e h = ground arith

MayClaim-guard :
    (env : Environment) (retry_failed : Bool) (now : ℕ) (w : World) (e : OutboxEvent)
    → (is_due env retry_failed now e && not (env.locked w e)) ≡ true
    → MayClaim env retry_failed now w e
unfolding is_due status_beq gate_namespaced_dispatch
MayClaim-guard env retry_failed now w e h = ground arith

-- The table as a query sees it after the clock was read.
abbrev pub clock_read : World → World
clock_read w = record w { reads = suc w.reads }

-- What a claim does to a table, and answers: nothing, where no row may be claimed at this reading of
-- the clock; and else one such row gets the next UUID as its claim, and is the answer.
pub data Claimed (env : Environment) (o : Options) (w : World) (answer : Option OutboxEvent)
    (es : List OutboxEvent) : Type 0 where
  nothing :
      answer ≡ none
      → es ≡ w.events
      → All (λ x. ¬ (MayClaim env o.retry_failed (env.now w.reads) (clock_read w) x)) w.events
      → Claimed env o w answer es
  one :
      (x y : OutboxEvent)
      → Any (λ z. z ≡ x) w.events
      → env.locked (clock_read w) x ≡ false
      → Claim env.namespace_write_enabled o
          (env.now w.reads)
          (env.uuid4 w.draws)
          (env.now (suc w.reads))
          x
          y
      → answer ≡ some y
      → es ≡ map (replace y) w.events
      → Claimed env o w answer es

module _ (env : Environment) (o : Options) (w : World) where
  abbrev may : OutboxEvent → Bool
  may e = is_due env o.retry_failed (env.now w.reads) e && not (env.locked (clock_read w) e)

  claim_found-Claimed :
      (before : OutboxEvent → OutboxEvent → Bool) (found : Option OutboxEvent)
      → first_by before (filter may w.events) ≡ found
      → let (answer, v) = claim_found env o.claim_timeout_seconds found (clock_read w) in
        Claimed env o w answer v.events
  unfolding claim_found claim save
  claim_found-Claimed before none found = nothing refl refl (
      All-map_imp w.events
        (λ x shut open_now.
          let test = MayClaim-test env o.retry_failed (env.now w.reads) (clock_read w) x open_now in
          ground arith)
        (none_selected before may w.events found))
  claim_found-Claimed before (some e) found =
      let (is_in, guard) = selected before may w.events e found in
      let (waiting, due, open_to, free) =
        MayClaim-guard env o.retry_failed (env.now w.reads) (clock_read w) e guard in
      one e _ is_in free
        (claims (ground arith) (record {
          waiting = waiting;
          due = due;
          open_to = open_to;
          status = refl;
          claim_id = refl;
          claimed_at = refl;
          claim_expires_at = refl;
          attempts = refl;
          recoveries = refl;
          available_at = refl;
          published_at = refl;
        }))
        refl refl

  pub claim_next_event-Claimed :
      let (answer, v) = claim_next_event env o.retry_failed o.claim_timeout_seconds w in
      Claimed env o w answer v.events
  unfolding claim_next_event next_event
  claim_next_event-Claimed = claim_found-Claimed (comes_before (λ e. e.available_at)) _ refl

  -- With distinct ids, at most one row differs after a claim.
  pub claim_next_event-One :
      UniqueIds w.events
      → One
          (Claim env.namespace_write_enabled o
            (env.now w.reads)
            (env.uuid4 w.draws)
            (env.now (suc w.reads)))
          w.events
          (claim_next_event env o.retry_failed o.claim_timeout_seconds w).1.events
  claim_next_event-One u = elim claim_next_event-Claimed [
    | nothing _ same _ ↦ subst (One R w.events) (sym same) (One-refl R w.events)
    | one x y is_in _ (claims s c) _ saved ↦
        subst (One R w.events) (sym saved) (One-saved R x y w.events u is_in s.id (claims s c))
  ]
    where
      R : OutboxEvent → OutboxEvent → Type 0
      R =
          Claim env.namespace_write_enabled o (env.now w.reads) (env.uuid4 w.draws)
            (env.now (suc w.reads))
