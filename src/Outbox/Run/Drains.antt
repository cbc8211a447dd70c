-- ===== src/Outbox/Run/Drains.antt =====
-- The recovery loop of a dispatch run, octonomy/events/dispatch.py, ends with no claim left to take
-- back, or at its limit.
use octonomy.Prelude.{
  ℕ, zero, suc, ◌+◌, ◌≡◌, ◌⊎◌, inl, inr, refl, sym, subst, Option, none, some, All, arith,
}
use octonomy.Outbox.Retry.{Options}
use octonomy.Outbox.World.{World, Environment, M, Outcome, empty_summary}
use octonomy.Outbox.Dispatch.{recover_next}
use octonomy.Outbox.Machine.Expiry.{MayRecover, Recovered, nothing, one, recover_next-Recovered}
use octonomy.Outbox.Run.{publish_loop, recover_counted, recover_loop, run}
use octonomy.Outbox.Run.Bounds.{publish_loop-bound}

-- At the last reading of the clock, no claim of the table may be taken back.
pub record IsDrained (env : Environment) (w : World) : Type 0 where
  pub last : ℕ
  pub read : w.reads ≡ suc last
  pub rows : All (λ x. ¬ (MayRecover env (env.now last) w x)) w.events

module _ (env : Environment) (o : Options) where
  -- One round, before the rounds that follow.
  round_drains :
      (rest : ℕ → M ℕ) (k n : ℕ) (w : World) (outcome : Option Outcome) (v : World)
      → Recovered env o w outcome v
      → ((m : ℕ) (u : World) → ((rest m u).0 ≡ m + k) ⊎ IsDrained env (rest m u).1)
      → ((recover_counted env o rest n outcome v).0 ≡ n + suc k)
        ⊎ IsDrained env (recover_counted env o rest n outcome v).1
  unfolding recover_counted
  round_drains rest k n w none v (nothing _ same rows) ih =
      inr (subst (IsDrained env) (sym same) (record { last = w.reads; read = refl; rows = rows }))
  round_drains rest k n w none v (one x y _ _ _ told saved) ih = absurd (ground arith)
  round_drains rest k n w (some r) v (nothing told same rows) ih = absurd (ground arith)
  round_drains rest k n w (some r) v (one x y _ _ _ told saved) ih = elim (ih (n + 1) v) [
    | inl full ↦ inl (omega (arith, full))
    | inr drained ↦ inr drained
  ]

  recover_loop-drains :
      (k n : ℕ) (w : World)
      → ((recover_loop env o k n w).0 ≡ n + k) ⊎ IsDrained env (recover_loop env o k n w).1
  unfolding recover_loop
  recover_loop-drains zero n w = inl (omega arith)
  recover_loop-drains (suc k) n w =
      let (outcome, v) = recover_next env o w in
      round_drains (recover_loop env o k) k n w outcome v (recover_next-Recovered env o w)
        (recover_loop-drains k)

  -- A run takes as many expired claims back as its limit, or ends in a table where no claim has run
  -- out at its last reading of the clock, of a row that is open to dispatch and not locked.
  pub run-drains :
      (w : World) → let (s, v) = run env o w in (s.recovered ≡ o.limit) ⊎ IsDrained env v
  unfolding run
  run-drains w =
      let (s, v) = publish_loop env o o.limit empty_summary w in
      let (_, none_yet) = publish_loop-bound env o o.limit empty_summary w in
      elim (recover_loop-drains o.limit 0 v) [
        | inl full ↦ inl (omega (arith, full, none_yet))
        | inr drained ↦ inr drained
      ]
