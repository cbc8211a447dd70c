-- ===== src/Outbox/Run/Round.antt =====
-- One round of a dispatch run of octonomy/events/dispatch.py without interference: what is claimed is
-- delivered, and what the transport says of the delivery is recorded on that very event.
use octonomy.Prelude.{
  ℕ, ◌≡◌, ◌≢◌, inl, inr, refl, ap, sym, subst, ◌∙◌, true, false, some, List, [], ◌∷◌, map, All, Any,
  arith, nat_beq, nat_beq_iff,
}
use octonomy.Outbox.{OutboxEvent, Status}
use octonomy.Outbox.Retry.{Options}
use octonomy.Outbox.World.{World, Environment, replace}
use octonomy.Outbox.Dispatch.{claim_next_event, publish_claimed_event}
use octonomy.Outbox.Machine.{Holds, Settlement, claims, Move, stay, claim}
use octonomy.Outbox.Machine.Rows.{Rows-One, UniqueIds}
use octonomy.Outbox.Machine.Laws.{Rows-UniqueIds}
use octonomy.Outbox.Machine.Refines.{nothing, one, claim_next_event-Claimed, claim_next_event-One}
use octonomy.Outbox.Machine.Settles.{
  lost, one as settled, reported, settle-Settled, Settlement-Holds,
}

-- The dispatcher is alone: nothing is locked, and the transport leaves the table as it is.
pub record IsAlone (env : Environment) : Type 0 where
  pub unlocked : (w : World) (e : OutboxEvent) → env.locked w e ≡ false
  pub quiet : (e : OutboxEvent) (w : World) → (env.publish e w).1.events ≡ w.events

saved_is_in :
    (x y : OutboxEvent) (es : List OutboxEvent)
    → Any (λ z. z ≡ x) es
    → y.id ≡ x.id
    → Any (λ z. z ≡ y) (map (replace y) es)
saved_is_in x y [] h same = absurd h.lower
saved_is_in x y (z ∷ es) (inl e) same =
    let hit : nat_beq z.id y.id ≡ true =
      (nat_beq_iff z.id y.id).1 (ap (λ (u : OutboxEvent). u.id) e ∙ sym same) in
    inl (rw hit refl)
saved_is_in x y (z ∷ es) (inr h) same = inr (saved_is_in x y es h same)

other_id :
    (x : OutboxEvent) (i : ℕ) (es : List OutboxEvent)
    → All (λ z. z.id ≢ i) es
    → Any (λ z. z ≡ x) es
    → x.id ≢ i
other_id x i [] h m = absurd m.lower
other_id x i (z ∷ es) h (inl e) = subst (λ (u : OutboxEvent). u.id ≢ i) e h.0
other_id x i (z ∷ es) h (inr m) = other_id x i es h.1 m

same_row :
    (x y : OutboxEvent) (es : List OutboxEvent)
    → UniqueIds es
    → Any (λ z. z ≡ x) es
    → Any (λ z. z ≡ y) es
    → x.id ≡ y.id
    → x ≡ y
same_row x y [] u m n e = absurd m.lower
same_row x y (z ∷ es) u (inl p) (inl q) e = sym p ∙ q
same_row x y (z ∷ es) u (inl p) (inr n) e =
    absurd (other_id y z.id es u.0 n (sym e ∙ ap (λ (v : OutboxEvent). v.id) (sym p)))
same_row x y (z ∷ es) u (inr m) (inl q) e =
    absurd (other_id x z.id es u.0 m (e ∙ ap (λ (v : OutboxEvent). v.id) (sym q)))
same_row x y (z ∷ es) u (inr m) (inr n) e = same_row x y es u.1 m n e

All-Any :
    (P : OutboxEvent → Type 0) (x : OutboxEvent) (es : List OutboxEvent)
    → All P es
    → Any (λ z. z ≡ x) es
    → P x
All-Any P x [] h m = absurd m.lower
All-Any P x (z ∷ es) h (inl e) = subst P e h.0
All-Any P x (z ∷ es) h (inr m) = All-Any P x es h.1 m

module _ (env : Environment) (o : Options) (alone : IsAlone env) where
  -- What a claim answers with is in the table after it, in processing.
  answer_is_in :
      (w : World) (y : OutboxEvent)
      → let (answer, v) = claim_next_event env o.retry_failed o.claim_timeout_seconds w in
        answer ≡ some y → Any (λ z. z ≡ y) v.events × (y.status ≡ Status.processing)
  answer_is_in w y h = elim (claim_next_event-Claimed env o w) [
    | nothing none_claimed _ _ ↦ absurd (ground arith)
    | one x z is_in _ (claims s c) answered saved ↦
        let same : z ≡ y = ground arith in
        subst
          (λ e.
            Any (λ u. u ≡ e)
              (claim_next_event env o.retry_failed o.claim_timeout_seconds w).1.events
            × (e.status ≡ Status.processing))
          same
          (subst (Any (λ u. u ≡ z)) (sym saved) (saved_is_in x z w.events is_in s.id), c.status)
  ]

  after_claim-UniqueIds :
      (w : World)
      → UniqueIds w.events
      → UniqueIds (claim_next_event env o.retry_failed o.claim_timeout_seconds w).1.events
  after_claim-UniqueIds w u =
      Rows-UniqueIds env.namespace_write_enabled o w.events _
        (Rows-One _ (Move env.namespace_write_enabled o) (λ x. stay refl) (λ x y m. claim _ _ _ m)
          w.events _ (claim_next_event-One env o w u))
        u

  -- On a table with distinct ids, where no row is locked and the transport leaves the table as it is:
  -- the event that a claim answers with is the one that its delivery settles, by what the transport
  -- said of it. It is published, if the transport raised no error, and else failed or dead-lettered
  -- with that error; the delivery answers with what became of it, and no row of another id changes
  -- after the claim.
  pub publish_claimed_event-delivers :
      (w : World) (y : OutboxEvent)
      → UniqueIds w.events
      → let (answer, v) = claim_next_event env o.retry_failed o.claim_timeout_seconds w in
        let (error, u) = env.publish y v in
        answer ≡ some y
        → (z : OutboxEvent) × Settlement env.namespace_write_enabled o y.id y.claim_id error
            (env.now u.reads)
            y
            z
          × ((publish_claimed_event env o y v).0 ≡ some (reported z.status))
          × ((publish_claimed_event env o y v).1.events ≡ map (replace z) v.events)
  unfolding publish_claimed_event
  publish_claimed_event-delivers w y unique h =
      let (answer, v) = claim_next_event env o.retry_failed o.claim_timeout_seconds w in
      let (error, u) = env.publish y v in
      let (is_in, busy) = answer_is_in w y h in
      let still : u.events ≡ v.events = alone.quiet y v in
      let there : Any (λ z. z ≡ y) u.events = subst (Any (λ z. z ≡ y)) (sym still) is_in in
      let ids : UniqueIds u.events = subst UniqueIds (sym still) (after_claim-UniqueIds w unique) in
      elim (settle-Settled env o y.id y.claim_id u error) [
        | lost _ _ free_of ↦ absurd (
            All-Any (λ x. Holds y.id y.claim_id x → ¬ (env.locked u x ≡ false)) y u.events free_of
              there (record { id = refl; claim = refl; status = busy }) (alone.unlocked u y))
        | settled x z member _ m told saved ↦
            let same = same_row x y u.events ids member there (Settlement-Holds x z m).id in
            (
              z,
              subst
                  (λ e.
                    Settlement env.namespace_write_enabled o y.id y.claim_id error (env.now u.reads)
                      e z)
                  same m,
              told,
              saved ∙ ap (map (replace z)) still,
            )
      ]
