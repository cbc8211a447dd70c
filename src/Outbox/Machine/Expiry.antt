-- ===== src/Outbox/Machine/Expiry.antt =====
-- The transaction of octonomy/events/dispatch.py that takes an expired claim back moves one row by a
-- step of the machine.
use octonomy.Prelude.{
  ℕ, suc, ◌≤◌, ◌≡◌, refl, sym, subst, Bool, true, false, ◌&&◌, not, Option, none, some, map, filter,
  All, All-map_imp, Any, arith,
}
use octonomy.Outbox.{OutboxEvent, Status}
use octonomy.Outbox.Retry.{Options}
use octonomy.Outbox.World.{
  World, Environment, Outcome, recovered, save, first_by, comes_before, deadline, replace,
  status_beq,
}
use octonomy.Outbox.Dispatch.{
  gate_namespaced_dispatch, mark_recovered, is_expired_claim, next_expired_claim, recover_next,
  recover_found,
}
use octonomy.Outbox.Machine.Rows.{One, UniqueIds, One-refl, One-saved, selected, none_selected}
use octonomy.Outbox.Machine.{IsOpen, Recovery, recovers}
use octonomy.Outbox.Machine.Refines.{clock_read}

-- A claim that a dispatcher may take back at `now`: its deadline has passed, the kill-switch lets it
-- through, and no other transaction holds the row.
abbrev pub MayRecover : Environment → ℕ → World → OutboxEvent → Type 0
MayRecover env now w e =
    (e.status ≡ Status.processing)
    × ((t : ℕ) × (e.claim_expires_at ≡ some t) × (t ≤ now))
    × IsOpen env.namespace_write_enabled e
    × (env.locked w e ≡ false)

-- What one transaction of recovery does to a table, and answers: nothing but a reading of the clock,
-- where no claim may be taken back at it; and else one such claim is taken back.
pub data Recovered (env : Environment) (o : Options) (w : World) (answer : Option Outcome)
    (v : World) : Type 0 where
  nothing :
      answer ≡ none
      → v ≡ clock_read w
      → All (λ x. ¬ (MayRecover env (env.now w.reads) (clock_read w) x)) w.events
      → Recovered env o w answer v
  one :
      (x y : OutboxEvent)
      → Any (λ z. z ≡ x) w.events
      → env.locked (clock_read w) x ≡ false
      → Recovery env.namespace_write_enabled o (env.now w.reads) (env.now (suc w.reads)) x y
      → answer ≡ some recovered
      → v.events ≡ map (replace y) w.events
      → Recovered env o w answer v

module _ (env : Environment) (o : Options) (w : World) where
  abbrev may : OutboxEvent → Bool
  may e = is_expired_claim env (env.now w.reads) e && not (env.locked (clock_read w) e)

  MayRecover-guard :
      (e : OutboxEvent) → may e ≡ true → MayRecover env (env.now w.reads) (clock_read w) e
  unfolding is_expired_claim status_beq gate_namespaced_dispatch
  MayRecover-guard e h = ground arith

  MayRecover-test :
      (e : OutboxEvent) → MayRecover env (env.now w.reads) (clock_read w) e → may e ≡ true
  unfolding is_expired_claim status_beq gate_namespaced_dispatch
  MayRecover-test e (held, (t, claimed, over), open_to, free) =
      rw claimed (ground (arith, held, over, open_to, free))

  recover_found-Recovered :
      (before : OutboxEvent → OutboxEvent → Bool) (found : Option OutboxEvent)
      → first_by before (filter may w.events) ≡ found
      → let (answer, v) = recover_found env o found (clock_read w) in Recovered env o w answer v
  unfolding recover_found mark_recovered save
  recover_found-Recovered before none found = nothing refl refl (
      All-map_imp w.events
        (λ x shut open_now. let test = MayRecover-test x open_now in ground arith)
        (none_selected before may w.events found))
  recover_found-Recovered before (some e) found =
      let (is_in, guard) = selected before may w.events e found in
      let (held, (t, claimed, over), open_to, free) = MayRecover-guard e guard in
      one e _ is_in free
        (recovers (ground arith) (record {
          held = held;
          deadline = t;
          claimed = claimed;
          over = over;
          open_to = open_to;
          status = refl;
          attempts = refl;
          recoveries = refl;
          available_at = refl;
          published_at = refl;
          unclaimed = (refl, refl, refl);
        }))
        refl refl

  pub recover_next-Recovered : let (answer, v) = recover_next env o w in Recovered env o w answer v
  unfolding recover_next next_expired_claim
  recover_next-Recovered = recover_found-Recovered (comes_before deadline) _ refl

  -- With distinct ids, at most one row differs after a recovery.
  pub recover_next-One :
      UniqueIds w.events
      → One
          (Recovery env.namespace_write_enabled o (env.now w.reads) (env.now (suc w.reads)))
          w.events
          (recover_next env o w).1.events
  recover_next-One u = elim recover_next-Recovered [
    | nothing _ same _ ↦
        subst (λ (v : World). One R w.events v.events) (sym same) (One-refl R w.events)
    | one x y is_in _ (recovers s c) _ saved ↦
        subst (One R w.events) (sym saved) (One-saved R x y w.events u is_in s.id (recovers s c))
  ]
    where
      R : OutboxEvent → OutboxEvent → Type 0
      R = Recovery env.namespace_write_enabled o (env.now w.reads) (env.now (suc w.reads))
