-- ===== src/Outbox/Machine/Settles.antt =====
-- The transaction of octonomy/events/dispatch.py after a delivery moves one row by a step of the
-- machine.
use octonomy.Prelude.{
  ℕ, ◌+◌, ◌≡◌, inl, inr, refl, sym, subst, String, Bool, true, false, ◌&&◌, not, Option, none, some,
  List, map, filter, All, All-map_imp, Any, arith, leb, Bool-cases, leb→le, nat_beq, nat_beq_iff,
  ◌==◌, option_beq_iff, nat_eq, option_eq,
}
use octonomy.Outbox.{OutboxEvent, Status}
use octonomy.Outbox.Retry.{Options}
use octonomy.Outbox.World.{
  World, Environment, Outcome, published, failed, dead_lettered, recovered, save, first_by,
  comes_before, replace, status_beq,
}
use octonomy.Outbox.Dispatch.{
  holds_claim, mark_published, mark_failed, settle, settle_found, claimed_event,
}
use octonomy.Outbox.Machine.Rows.{One, UniqueIds, One-refl, One-saved, selected, none_selected}
use octonomy.Outbox.Machine.{Holds, Settlement, publishes, fails, buries}

-- What the run counts for a row that ends in this status.
abbrev pub reported : Status → Outcome
reported Status.pending = recovered
reported Status.processing = recovered
reported Status.published = published
reported Status.failed = failed
reported Status.dead_letter = dead_lettered

-- What settling a delivery does to a table, and answers: nothing, where no row that is not locked
-- holds the claim; and else the row that does is settled by the machine, and its new status told.
pub data Settled (env : Environment) (o : Options) (event_id : ℕ) (claim_id : Option ℕ)
    (error : Option String) (w : World) (answer : Option Outcome) (es : List OutboxEvent)
    : Type 0 where
  lost :
      answer ≡ none
      → es ≡ w.events
      → All (λ x. Holds event_id claim_id x → ¬ (env.locked w x ≡ false)) w.events
      → Settled env o event_id claim_id error w answer es
  one :
      (x y : OutboxEvent)
      → Any (λ z. z ≡ x) w.events
      → env.locked w x ≡ false
      → Settlement env.namespace_write_enabled o event_id claim_id error (env.now w.reads) x y
      → answer ≡ some (reported y.status)
      → es ≡ map (replace y) w.events
      → Settled env o event_id claim_id error w answer es

pub Settlement-id :
    {enabled : Bool} {o : Options} {event_id : ℕ} {claim_id : Option ℕ} {error : Option String}
    {at : ℕ} (x y : OutboxEvent)
    → Settlement enabled o event_id claim_id error at x y
    → y.id ≡ x.id
Settlement-id x y (publishes _ _ s _) = s.id
Settlement-id x y (fails _ _ _ s _) = s.id
Settlement-id x y (buries _ _ _ s _) = s.id

pub Settlement-Holds :
    {enabled : Bool} {o : Options} {event_id : ℕ} {claim_id : Option ℕ} {error : Option String}
    {at : ℕ} (x y : OutboxEvent)
    → Settlement enabled o event_id claim_id error at x y
    → Holds event_id claim_id x
Settlement-Holds x y (publishes h _ _ _) = h
Settlement-Holds x y (fails h _ _ _ _) = h
Settlement-Holds x y (buries h _ _ _ _) = h

module _ (env : Environment) (o : Options) (event_id : ℕ) (claim_id : Option ℕ) (w : World) where
  abbrev held_row : OutboxEvent → Bool
  held_row e = holds_claim env event_id claim_id e && not (env.locked w e)

  Holds-guard :
      (e : OutboxEvent) → held_row e ≡ true → Holds event_id claim_id e × (env.locked w e ≡ false)
  Holds-guard e h =
      let parts : (nat_beq e.id event_id ≡ true)
          × ((e.claim_id == claim_id) ≡ true)
          × (e.status ≡ Status.processing)
          × (env.locked w e ≡ false) =
        unfold holds_claim status_beq in ground arith in
      let (id, claim, status, free) = parts in
      (
        record {
          id = (nat_beq_iff e.id event_id).0 id;
          claim = (option_beq_iff e.claim_id claim_id).0 claim;
          status = status;
        },
        free,
      )

  Holds-test :
      (e : OutboxEvent) → Holds event_id claim_id e → env.locked w e ≡ false → held_row e ≡ true
  unfolding holds_claim status_beq
  Holds-test e h free =
      let id = (nat_beq_iff e.id event_id).1 h.id in
      let claim = (option_beq_iff e.claim_id claim_id).1 h.claim in ground (arith, h.status)

  publishes-Settled :
      (e : OutboxEvent)
      → Any (λ z. z ≡ e) w.events
      → Holds event_id claim_id e
      → env.locked w e ≡ false
      → let (outcome, v) = mark_published env e w in
        Settled env o event_id claim_id none w (some outcome) v.events
  unfolding mark_published save
  publishes-Settled e is_in h free =
      one e _ is_in free
        (publishes h refl (ground arith) (record {
          held = h.status;
          status = refl;
          attempts = refl;
          recoveries = refl;
          last_error = refl;
          published_at = refl;
          unclaimed = (refl, refl, refl);
        }))
        refl refl

  buries-Settled :
      (e : OutboxEvent) (text : String)
      → Any (λ z. z ≡ e) w.events
      → Holds event_id claim_id e
      → env.locked w e ≡ false
      → leb o.max_attempts (e.attempts + 1) ≡ true
      → let (outcome, v) = mark_failed env o e text w in
        Settled env o event_id claim_id (some text) w (some outcome) v.events
  unfolding mark_failed save
  buries-Settled e text is_in h free spent = rw spent (
      one e _ is_in free
        (buries h text refl (ground arith) (record {
          held = h.status;
          spent = leb→le o.max_attempts (e.attempts + 1) spent;
          status = refl;
          attempts = refl;
          recoveries = refl;
          last_error = refl;
          published_at = refl;
          unclaimed = (refl, refl, refl);
        }))
        refl refl)

  fails-Settled :
      (e : OutboxEvent) (text : String)
      → Any (λ z. z ≡ e) w.events
      → Holds event_id claim_id e
      → env.locked w e ≡ false
      → leb o.max_attempts (e.attempts + 1) ≡ false
      → let (outcome, v) = mark_failed env o e text w in
        Settled env o event_id claim_id (some text) w (some outcome) v.events
  unfolding mark_failed save
  fails-Settled e text is_in h free left = rw left (
      one e _ is_in free
        (fails h text refl (ground arith) (record {
          held = h.status;
          left = ground arith;
          status = refl;
          attempts = refl;
          recoveries = refl;
          last_error = refl;
          available_at = refl;
          published_at = refl;
          unclaimed = (refl, refl, refl);
        }))
        refl refl)

  settle_found-Settled :
      (before : OutboxEvent → OutboxEvent → Bool) (error : Option String)
      (found : Option OutboxEvent)
      → first_by before (filter held_row w.events) ≡ found
      → let (answer, v) = settle_found env o error found w in
        Settled env o event_id claim_id error w answer v.events
  unfolding settle_found
  settle_found-Settled before error none found = lost refl refl (
      All-map_imp w.events (λ x shut h free. let test = Holds-test x h free in ground arith)
        (none_selected before held_row w.events found))
  settle_found-Settled before none (some e) found =
      let (is_in, guard) = selected before held_row w.events e found in
      let (h, free) = Holds-guard e guard in publishes-Settled e is_in h free
  settle_found-Settled before (some text) (some e) found =
      let (is_in, guard) = selected before held_row w.events e found in
      let (h, free) = Holds-guard e guard in
      elim (Bool-cases (leb o.max_attempts (e.attempts + 1))) [
        | inl spent ↦ buries-Settled e text is_in h free spent
        | inr left ↦ fails-Settled e text is_in h free left
      ]

  pub settle-Settled :
      (error : Option String)
      → let (answer, v) = settle env o event_id claim_id error w in
        Settled env o event_id claim_id error w answer v.events
  unfolding settle claimed_event
  settle-Settled error = settle_found-Settled (comes_before (λ e. e.created_at)) error _ refl

  -- With distinct ids, at most one row differs after a settlement.
  pub settle-One :
      (error : Option String)
      → UniqueIds w.events
      → One
          (Settlement env.namespace_write_enabled o event_id claim_id error (env.now w.reads))
          w.events
          (settle env o event_id claim_id error w).1.events
  settle-One error u = elim (settle-Settled error) [
    | lost _ same _ ↦ subst (One R w.events) (sym same) (One-refl R w.events)
    | one x y is_in _ m _ saved ↦
        subst (One R w.events) (sym saved)
          (One-saved R x y w.events u is_in (Settlement-id x y m) m)
  ]
    where
      R : OutboxEvent → OutboxEvent → Type 0
      R = Settlement env.namespace_write_enabled o event_id claim_id error (env.now w.reads)
