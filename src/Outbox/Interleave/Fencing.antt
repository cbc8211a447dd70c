-- ===== src/Outbox/Interleave/Fencing.antt =====
-- Settling a delivery of octonomy/events/dispatch.py under a claim that no row carries any more.
use octonomy.Prelude.{
  ℕ, suc, ◌+◌, ◌≡◌, ◌≢◌, inl, inr, refl, sym, subst, ◌&&◌, not, String, Option, none, some, List,
  [], ◌∷◌, ◌++◌, map, filter, All, arith, leb, nat_beq, Bool-cases, option_beq_iff, nat_eq,
  option_eq,
}
use octonomy.Outbox.{OutboxEvent}
use octonomy.Outbox.Retry.{Options}
use octonomy.Outbox.World.{World, Environment, replace, save, first_by}
use octonomy.Outbox.Dispatch.{
  claim, claim_found, claim_next_event, next_event, settle, settle_found, claimed_event,
  holds_claim, mark_published, mark_failed, mark_recovered, recover_next, recover_found,
  next_expired_claim,
}
use octonomy.Outbox.Interleave.{Step, claims, settles, recovers, enqueues, Reach, here, next}

-- No row carries the claim.
abbrev pub Lost : ℕ → List OutboxEvent → Type 0
Lost c es = All (λ e. e.claim_id ≢ some c) es

Lost-replace :
    (c : ℕ) (new : OutboxEvent) (es : List OutboxEvent)
    → new.claim_id ≢ some c
    → Lost c es
    → Lost c (map (replace new) es)
Lost-replace c new [] n h = tt
Lost-replace c new (e ∷ es) n h = elim (Bool-cases (nat_beq e.id new.id)) [
  | inl hit ↦ (rw hit n, Lost-replace c new es n h.1)
  | inr miss ↦ (rw miss h.0, Lost-replace c new es n h.1)
]

Lost-snoc :
    (c : ℕ) (es : List OutboxEvent) (e : OutboxEvent)
    → Lost c es
    → e.claim_id ≢ some c
    → Lost c (es ++ e ∷ [])
Lost-snoc c [] e h n = (n, tt)
Lost-snoc c (x ∷ es) e h n = (h.0, Lost-snoc c es e h.1 n)

module _ (env : Environment) (o : Options) (c : ℕ) where
  claim_found-Lost :
      (found : Option OutboxEvent) (w : World)
      → env.uuid4 w.draws ≢ c
      → Lost c w.events
      → Lost c (claim_found env o.claim_timeout_seconds found w).1.events
  unfolding claim_found claim save
  claim_found-Lost none w n h = h
  claim_found-Lost (some e) w n h = Lost-replace c _ w.events (λ same. n (ground arith)) h

  claim_next_event-Lost :
      (w : World)
      → env.uuid4 w.draws ≢ c
      → Lost c w.events
      → Lost c (claim_next_event env o.retry_failed o.claim_timeout_seconds w).1.events
  unfolding claim_next_event next_event
  claim_next_event-Lost w n h = claim_found-Lost _ (record w { reads = suc w.reads }) n h

  mark_failed-Lost :
      (e : OutboxEvent) (error : String) (w : World)
      → Lost c w.events
      → Lost c (mark_failed env o e error w).1.events
  unfolding mark_failed save
  mark_failed-Lost e error w h = elim (Bool-cases (leb o.max_attempts (e.attempts + 1))) [
    | inl spent ↦ rw spent (Lost-replace c _ w.events (λ same. cc) h)
    | inr left ↦ rw left (Lost-replace c _ w.events (λ same. cc) h)
  ]

  settle_found-Lost :
      (error : Option String) (found : Option OutboxEvent) (w : World)
      → Lost c w.events
      → Lost c (settle_found env o error found w).1.events
  unfolding settle_found mark_published save
  settle_found-Lost error none w h = h
  settle_found-Lost none (some e) w h = Lost-replace c _ w.events (λ same. cc) h
  settle_found-Lost (some error) (some e) w h = mark_failed-Lost e error w h

  settle-Lost :
      (id : ℕ) (claim_id : Option ℕ) (error : Option String) (w : World)
      → Lost c w.events
      → Lost c (settle env o id claim_id error w).1.events
  unfolding settle claimed_event
  settle-Lost id claim_id error w h = settle_found-Lost error _ w h

  recover_found-Lost :
      (found : Option OutboxEvent) (w : World)
      → Lost c w.events
      → Lost c (recover_found env o found w).1.events
  unfolding recover_found mark_recovered save
  recover_found-Lost none w h = h
  recover_found-Lost (some e) w h = Lost-replace c _ w.events (λ same. cc) h

  recover_next-Lost : (w : World) → Lost c w.events → Lost c (recover_next env o w).1.events
  unfolding recover_next next_expired_claim
  recover_next-Lost w h = recover_found-Lost _ (record w { reads = suc w.reads }) h

Step-Lost :
    (top c : ℕ) {w w' : World} {drawn : List ℕ}
    → Step top w w' drawn
    → All (λ d. d ≢ c) drawn
    → Lost c w.events
    → Lost c w'.events
Step-Lost top c {w} (claims env o t d e) n h =
    subst (λ v. Lost c v.events) (sym e)
      (claim_next_event-Lost env o c w (subst (All (λ x. x ≢ c)) d n).0 h)
Step-Lost top c {w} (settles env o i k error t d e) n h =
    subst (λ v. Lost c v.events) (sym e) (settle-Lost env o c i k error w h)
Step-Lost top c {w} (recovers env o t d e) n h =
    subst (λ v. Lost c v.events) (sym e) (recover_next-Lost env o c w h)
Step-Lost top c {w} (enqueues x new fresh d e) n h =
    subst (λ v. Lost c v.events) (sym e)
      (Lost-snoc c w.events x h (λ same. ground (arith, new.unclaimed)))

All-append_split : (P : ℕ → Type 0) (xs ys : List ℕ) → All P (xs ++ ys) → All P xs × All P ys
All-append_split P [] ys h = (tt, h)
All-append_split P (x ∷ xs) ys h = let (a, b) = All-append_split P xs ys h.1 in ((h.0, a), b)

Reach-Lost :
    (top c : ℕ) (w : World) {w' : World} {drawn : List ℕ}
    → Reach top w w' drawn
    → All (λ d. d ≢ c) drawn
    → Lost c w.events
    → Lost c w'.events
Reach-Lost top c w here n h = h
Reach-Lost top c w (next {drawn = ds} {drawn' = es} r s) n h =
    let (new, old) = All-append_split (λ d. d ≢ c) es ds n in
    Step-Lost top c s new (Reach-Lost top c w r old h)

none_held :
    (env : Environment) (id c : ℕ) (v : World) (es : List OutboxEvent)
    → Lost c es
    → filter (λ e. holds_claim env id (some c) e && not (env.locked v e)) es ≡ []
unfolding filter holds_claim
none_held env id c v [] h = refl
none_held env id c v (e ∷ es) h =
    ground (arith, none_held env id c v es h.1, option_beq_iff e.claim_id (some c))

-- Once no row carries a claim, settling a delivery under it changes nothing and counts nothing,
-- after any number of transactions that do not draw the same UUID again.
pub settle-stale_claim :
    (top c : ℕ) (w : World) {w' : World} {drawn : List ℕ} (env : Environment) (o : Options)
    (event_id : ℕ) (error : Option String)
    → Reach top w w' drawn
    → All (λ d. d ≢ c) drawn
    → Lost c w.events
    → settle env o event_id (some c) error w' ≡ (none, w')
unfolding settle claimed_event settle_found first_by
settle-stale_claim top c w {w'} env o id error r n h =
    rw (none_held env id c w' w'.events (Reach-Lost top c w r n h)) refl
