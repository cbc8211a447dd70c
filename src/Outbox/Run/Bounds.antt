-- ===== src/Outbox/Run/Bounds.antt =====
-- The limit of a dispatch run of octonomy/events/dispatch.py.
use octonomy.Prelude.{
  ℕ, zero, suc, ◌+◌, ◌≤◌, ◌≡◌, ◌≢◌, refl, ◌∙◌, ◌<◌, leb→le, Option, none, some, String, arith, leb,
  Bool-cases, ◌⊎◌, inl, inr,
}
use octonomy.Errors as E
use octonomy.Outbox.{OutboxEvent}
use octonomy.Outbox.Retry.{Options, Requested, clamp_options}
use octonomy.Outbox.World.{
  World, Environment, M, Outcome, Summary, empty_summary, count, count_some,
}
use octonomy.Outbox.Dispatch.{
  claim_next_event, publish_claimed_event, settle, settle_found, claimed_event, mark_published,
  mark_failed, recover_next,
}
use octonomy.Outbox.Run.{
  publish_found, publish_loop, recover_counted, recover_loop, run, dispatch_outbox_events,
}

-- Deliveries that the summary counts.
abbrev pub settled : Summary → ℕ
settled s = s.published + s.failed + s.dead_lettered

module _ (env : Environment) (o : Options) where
  mark_failed-outcome :
      (e : OutboxEvent) (error : String) (w : World)
      → (mark_failed env o e error w).0 ≢ Outcome.recovered
  unfolding mark_failed
  mark_failed-outcome e error w h = ground arith

  settle_found-count :
      (error : Option String) (found : Option OutboxEvent) (s : Summary) (w : World)
      → let s' = count_some (settle_found env o error found w).0 s in
        (settled s' ≤ settled s + 1) × (s'.recovered ≡ s.recovered)
  unfolding settle_found mark_published count_some count
  settle_found-count error none s w = (omega arith, refl)
  settle_found-count none (some e) s w = (omega arith, refl)
  settle_found-count (some error) (some e) s w = ground (arith, mark_failed-outcome e error w)

  publish-count :
      (e : OutboxEvent) (s : Summary) (w : World)
      → let s' = count_some (publish_claimed_event env o e w).0 s in
        (settled s' ≤ settled s + 1) × (s'.recovered ≡ s.recovered)
  unfolding publish_claimed_event settle claimed_event
  publish-count e s w = let (error, v) = env.publish e w in settle_found-count error _ s v

  -- A run of rounds from any summary and table counts at most `n` deliveries, and no recovery.
  abbrev AtMost : ℕ → (Summary → M Summary) → Type 0
  AtMost n rest =
      (s : Summary) (w : World)
      → (settled (rest s w).0 ≤ settled s + n) × ((rest s w).0.recovered ≡ s.recovered)

  publish_found-bound :
      (n : ℕ) (rest : Summary → M Summary) (s : Summary) (found : Option OutboxEvent) (w : World)
      → AtMost n rest
      → (settled (publish_found env o rest s found w).0 ≤ settled s + suc n)
        × ((publish_found env o rest s found w).0.recovered ≡ s.recovered)
  unfolding publish_found
  publish_found-bound n rest s none w ih = (omega arith, refl)
  publish_found-bound n rest s (some e) w ih =
      let (outcome, v) = publish_claimed_event env o e w in
      let (few, same) = publish-count e s w in
      let (more, kept) = ih (count_some outcome s) v in (omega arith, kept ∙ same)

  pub publish_loop-bound : (n : ℕ) → AtMost n (publish_loop env o n)
  unfolding publish_loop
  publish_loop-bound zero s w = (omega arith, refl)
  publish_loop-bound (suc n) s w =
      let (found, v) = claim_next_event env o.retry_failed o.claim_timeout_seconds w in
      publish_found-bound n (publish_loop env o n) s found v (publish_loop-bound n)

  recover_loop-bound : (k n : ℕ) (w : World) → (recover_loop env o k n w).0 ≤ n + k
  unfolding recover_loop
  recover_loop-bound zero n w = omega arith
  recover_loop-bound (suc k) n w =
      let (outcome, v) = recover_next env o w in step outcome v (recover_loop-bound k)
    where
      step :
          (outcome : Option Outcome) (v : World)
          → ((m : ℕ) (u : World) → (recover_loop env o k m u).0 ≤ m + k)
          → (recover_counted env o (recover_loop env o k) n outcome v).0 ≤ n + suc k
      step none v ih = unfold recover_counted in omega arith
      step (some r) v ih = unfold recover_counted in omega (arith, ih (n + 1) v)

  -- A run settles at most `limit` deliveries and takes at most `limit` claims back, whatever the
  -- transport and the other processes do.
  pub run-bound :
      (w : World) → (settled (run env o w).0 ≤ o.limit) × ((run env o w).0.recovered ≤ o.limit)
  unfolding run
  run-bound w =
      let (s, v) = publish_loop env o o.limit empty_summary w in
      let (few, none_yet) = publish_loop-bound o.limit empty_summary w in
      (omega arith, omega (arith, recover_loop-bound o.limit 0 v))

-- `dispatch_outbox_events` refuses a claim timeout that a webhook delivery may outlast, and else
-- settles at most `limit` deliveries and takes at most `limit` claims back, a negative limit being
-- none.
pub dispatch_outbox_events-bound :
    (env : Environment) (webhook_timeout : Option ℕ) (r : Requested) (w : World)
    → let o = clamp_options r in
      ((t : ℕ) × (webhook_timeout ≡ some t)
        × (o.claim_timeout_seconds ≤ t)
        × (dispatch_outbox_events env webhook_timeout r w ≡ E.err E.improperly_configured))
      ⊎ ((s : Summary) × (w' : World) × (dispatch_outbox_events env webhook_timeout r w
            ≡ E.ok (s, w'))
          × (settled s ≤ o.limit)
          × (s.recovered ≤ o.limit)
          × ((t : ℕ) → webhook_timeout ≡ some t → t < o.claim_timeout_seconds))
unfolding dispatch_outbox_events
dispatch_outbox_events-bound env none r w =
    let (few, back) = run-bound env (clamp_options r) w in
    inr
      ((run env (clamp_options r) w).0, (run env (clamp_options r) w).1, refl, few, back, λ t h. cc)
dispatch_outbox_events-bound env (some t) r w =
    let (few, back) = run-bound env (clamp_options r) w in
    elim (Bool-cases (leb (clamp_options r).claim_timeout_seconds t)) [
      | inl short ↦ inl (t, refl, leb→le _ t short, rw short)
      | inr enough ↦ inr (
        (run env (clamp_options r) w).0,
        (run env (clamp_options r) w).1,
        rw enough,
        few,
        back,
        λ u h. ground arith,
      )
    ]
