-- ===== src/Outbox/Interleave/Laws.antt =====
-- What holds of the outbox after any interleaving of dispatchers and inserts.
use octonomy.Prelude.{
  ℕ, ◌≤◌, ◌≡◌, ◌≢◌, ◌⊎◌, inl, inr, refl, ap, sym, subst, Bool, List, [], ◌∷◌, ◌++◌, All, Any, arith,
}
use octonomy.Outbox.{OutboxEvent, Status}
use octonomy.Outbox.Retry.{Options}
use octonomy.Outbox.World.{World}
use octonomy.Outbox.Machine.{Move, stay, claim, settle, recover}
use octonomy.Outbox.Machine.Rows.{Rows, UniqueIds, Rows-One}
use octonomy.Outbox.Machine.Laws.{
  IsConsistent, close_status, Rows-IsConsistent, Rows-UniqueIds, Rows-keeps, Move-final,
}
use octonomy.Outbox.Machine.Refines.{claim_next_event-One}
use octonomy.Outbox.Machine.Settles.{settle-One}
use octonomy.Outbox.Machine.Expiry.{recover_next-One}
use octonomy.Outbox.Interleave.{IsNew, Step, claims, settles, recovers, enqueues, Reach, here, next}

-- Every row is consistent with its status, and no two have one id.
pub record IsValid (top : ℕ) (w : World) : Type 0 where
  pub rows : All (IsConsistent top) w.events
  pub ids : UniqueIds w.events

-- A transaction either moves rows by the machine or inserts one new row.
data Effect (top : ℕ) (es fs : List OutboxEvent) : Type 0 where
  moves :
      (enabled : Bool) (o : Options)
      → o.max_attempts ≡ top
      → Rows (Move enabled o) es fs
      → Effect top es fs
  inserts :
      (e : OutboxEvent) → IsNew e → All (λ x. x.id ≢ e.id) es → fs ≡ es ++ e ∷ [] → Effect top es fs

abbrev rows_of : World → List OutboxEvent
rows_of w = w.events

Step-Effect :
    (top : ℕ) {w w' : World} {drawn : List ℕ}
    → Step top w w' drawn
    → UniqueIds w.events
    → Effect top w.events w'.events
Step-Effect top {w} {w'} (claims env o t d e) u = moves env.namespace_write_enabled o t (
    subst (λ v. Rows (Move env.namespace_write_enabled o) w.events v.events) (sym e)
      (Rows-One _ (Move env.namespace_write_enabled o) (λ x. stay refl) (λ x y m. claim _ _ _ m)
        w.events _ (claim_next_event-One env o w u)))
Step-Effect top {w} {w'} (settles env o i c error t d e) u = moves env.namespace_write_enabled o t (
    subst (λ v. Rows (Move env.namespace_write_enabled o) w.events v.events) (sym e)
      (Rows-One _ (Move env.namespace_write_enabled o) (λ x. stay refl)
        (λ x y m. settle i c error _ m) w.events _ (settle-One env o i c w error u)))
Step-Effect top {w} {w'} (recovers env o t d e) u = moves env.namespace_write_enabled o t (
    subst (λ v. Rows (Move env.namespace_write_enabled o) w.events v.events) (sym e)
      (Rows-One _ (Move env.namespace_write_enabled o) (λ x. stay refl) (λ x y m. recover _ _ m)
        w.events _ (recover_next-One env o w u)))
Step-Effect top (enqueues n new fresh d e) u = inserts n new fresh (ap rows_of e)

All-snoc :
    (P : OutboxEvent → Type 0) (es : List OutboxEvent) (e : OutboxEvent)
    → All P es
    → P e
    → All P (es ++ e ∷ [])
All-snoc P [] e h p = (p, tt)
All-snoc P (x ∷ es) e h p = (h.0, All-snoc P es e h.1 p)

UniqueIds-snoc :
    (es : List OutboxEvent) (e : OutboxEvent)
    → UniqueIds es
    → All (λ x. x.id ≢ e.id) es
    → UniqueIds (es ++ e ∷ [])
UniqueIds-snoc [] e u h = (tt, tt)
UniqueIds-snoc (x ∷ es) e u h =
    (All-snoc (λ y. y.id ≢ x.id) es e u.0 (λ same. h.0 (sym same)), UniqueIds-snoc es e u.1 h.1)

Any-snoc :
    (P : OutboxEvent → Type 0) (es : List OutboxEvent) (e : OutboxEvent)
    → Any P es
    → Any P (es ++ e ∷ [])
Any-snoc P [] e h = absurd h.lower
Any-snoc P (x ∷ es) e (inl p) = inl p
Any-snoc P (x ∷ es) e (inr h) = inr (Any-snoc P es e h)

new-IsConsistent : (top : ℕ) (e : OutboxEvent) → 1 ≤ top → IsNew e → IsConsistent top e
new-IsConsistent top e h n =
    close_status top e Status.pending n.status
      (n.unclaimed, omega (arith, n.attempts), n.published_at)

Effect-IsValid :
    (top : ℕ) (w w' : World)
    → 1 ≤ top
    → Effect top w.events w'.events
    → IsValid top w
    → IsValid top w'
Effect-IsValid top w w' h (moves enabled o t r) v = record {
  rows =
      subst (λ n. All (IsConsistent n) w'.events) t
        (Rows-IsConsistent enabled o w.events w'.events r
          (subst (λ n. All (IsConsistent n) w.events) (sym t) v.rows));
  ids = Rows-UniqueIds enabled o w.events w'.events r v.ids;
}
Effect-IsValid top w w' h (inserts e new fresh same) v = record {
  rows =
      subst (All (IsConsistent top)) (sym same)
        (All-snoc (IsConsistent top) w.events e v.rows (new-IsConsistent top e h new));
  ids = subst UniqueIds (sym same) (UniqueIds-snoc w.events e v.ids fresh);
}

-- From a valid table, where all dispatchers allow the same number of attempts, at least one:
-- whatever claims, settlements, recoveries and inserts happen and in whatever order, every row stays
-- consistent with its status and the ids stay distinct. A row is claimed exactly while it is in
-- processing and has an instant of publication exactly when it is published; while it is pending,
-- in processing or failed it has an attempt left; a published row has used one attempt at least and
-- at most all of them, a failed one has used one at least, and a dead-lettered one all of them.
pub Reach-IsValid :
    (top : ℕ) (w : World) {w' : World} {drawn : List ℕ}
    → 1 ≤ top
    → Reach top w w' drawn
    → IsValid top w
    → IsValid top w'
Reach-IsValid top w h here v = v
Reach-IsValid top w h (next {v = u} {v' = u'} r s) v =
    let before = Reach-IsValid top w h r v in
    Effect-IsValid top u u' h (Step-Effect top s before.ids) before

Effect-keeps :
    (top : ℕ) (es fs : List OutboxEvent) (e : OutboxEvent)
    → (e.status ≡ Status.published) ⊎ (e.status ≡ Status.dead_letter)
    → Effect top es fs
    → Any (λ x. x ≡ e) es
    → Any (λ x. x ≡ e) fs
Effect-keeps top es fs e final (moves enabled o t r) h =
    Rows-keeps enabled o e (λ y m. Move-final enabled o e y m final) es fs r h
Effect-keeps top es fs e final (inserts n new fresh same) h =
    subst (Any (λ x. x ≡ e)) (sym same) (Any-snoc (λ x. x ≡ e) es n h)

-- From a valid table, and with at least one attempt allowed, an event that was published or
-- dead-lettered stays in the table exactly as it was, after any transactions in any order.
pub Reach-keeps_final :
    (top : ℕ) (w : World) {w' : World} {drawn : List ℕ} (e : OutboxEvent)
    → 1 ≤ top
    → Reach top w w' drawn
    → IsValid top w
    → (e.status ≡ Status.published) ⊎ (e.status ≡ Status.dead_letter)
    → Any (λ x. x ≡ e) w.events
    → Any (λ x. x ≡ e) w'.events
Reach-keeps_final top w e h here v final is_in = is_in
Reach-keeps_final top w e h (next {v = u} {v' = u'} r s) v final is_in =
    Effect-keeps top u.events u'.events e final (Step-Effect top s (Reach-IsValid top w h r v).ids)
      (Reach-keeps_final top w e h r v final is_in)
