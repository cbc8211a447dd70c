-- ===== src/Outbox/Run/Queue.antt =====
-- Which event a dispatcher of octonomy/events/dispatch.py takes, and which it leaves.
use octonomy.Prelude.{
  ℕ, suc, ◌≡◌, inl, inr, refl, sym, subst, Bool, true, false, ◌&&◌, not, Option, none, some, List,
  [], ◌∷◌, filter, All, All-map_imp, arith, is_none, Bool-cases, Option-cases, if◌then◌else◌,
}
use octonomy.Outbox.{OutboxEvent}
use octonomy.Outbox.Retry.{Options}
use octonomy.Outbox.World.{World, Environment, first_by, comes_before}
use octonomy.Outbox.Dispatch.{is_due, next_event, claim_next_event, recover_next}
use octonomy.Outbox.Machine.{claims, recovers, IsOpen}
use octonomy.Outbox.Machine.Rows.{first_by-none, Rows, One, UniqueIds, Rows-One}
use octonomy.Outbox.Machine.Refines.{MayClaim, MayClaim-test, claim_next_event-One}
use octonomy.Outbox.Machine.Expiry.{recover_next-One}

module _ (key : OutboxEvent → ℕ) where
  abbrev before : OutboxEvent → OutboxEvent → Bool
  before = comes_before key

  before_trans : (x f e : OutboxEvent) → before x f ≡ false → before f e ≡ true → before e f ≡ false
  unfolding comes_before
  before_trans x f e h b = ground arith

  before_chain :
      (x f e : OutboxEvent) → before x f ≡ false → before f e ≡ false → before x e ≡ false
  unfolding comes_before
  before_chain x f e h b = ground arith

  before_self : (e : OutboxEvent) → before e e ≡ false
  unfolding comes_before
  before_self e = ground arith

  All-chain :
      (f e : OutboxEvent) (es : List OutboxEvent)
      → before f e ≡ false
      → All (λ x. before x f ≡ false) es
      → All (λ x. before x e ≡ false) es
  All-chain f e [] b h = tt
  All-chain f e (x ∷ es) b h = (before_chain x f e h.0 b, All-chain f e es b h.1)

  -- Nothing comes before the first row of an ordered query.
  first_by-least :
      (es : List OutboxEvent) (e : OutboxEvent)
      → first_by before es ≡ some e
      → All (λ x. before x e ≡ false) es
  unfolding first_by
  first_by-least [] e h = tt
  first_by-least (x ∷ es) e h = elim (Option-cases (first_by before es)) [
    | inl empty ↦
        let same : x ≡ e = ground arith in
        let nil : es ≡ [] = first_by-none before es empty in
        rw nil (subst (λ y. before x y ≡ false) same (before_self x), tt)
    | inr (f, found) ↦ elim (Bool-cases (before f x)) [
      | inl b ↦
          let same : f ≡ e = ground arith in
          subst (λ y. (before x y ≡ false) × All (λ z. before z y ≡ false) es) same
            (before_trans f f x (before_self f) b, first_by-least es f found)
      | inr b ↦
          let same : x ≡ e = ground arith in
          subst (λ y. (before x y ≡ false) × All (λ z. before z y ≡ false) es) same
            (before_self x, All-chain f x es b (first_by-least es f found))
    ]
  ]

module _ (env : Environment) (retry_failed : Bool) where
  All-unfilter :
      (P : OutboxEvent → Type 0) (p : OutboxEvent → Bool) (es : List OutboxEvent)
      → All P (filter p es)
      → All (λ x. p x ≡ true → P x) es
  unfolding filter
  All-unfilter P p [] h = tt
  All-unfilter P p (x ∷ es) h = elim (Bool-cases (p x)) [
    | inl t ↦
        let g = subst (λ b. All P (if b then x ∷ filter p es else filter p es)) t h in
        (λ _. g.0, All-unfilter P p es g.1)
    | inr f ↦
        let g = subst (λ b. All P (if b then x ∷ filter p es else filter p es)) f h in
        (λ t. absurd (ground arith), All-unfilter P p es g)
  ]

  -- At one reading of the clock, no row that may be claimed comes before the one that the query
  -- for the next event finds, in order of availability, creation and id; and where it finds
  -- none, none may be claimed.
  pub next_event-first :
      (w : World) (found : Option OutboxEvent)
      → (next_event env retry_failed w).0 ≡ found
      → let after = (next_event env retry_failed w).1 in
        All
          (λ x.
            MayClaim env retry_failed (env.now w.reads) after x
            → (e : OutboxEvent) × (found ≡ some e)
              × (comes_before (λ y. y.available_at) x e ≡ false))
          w.events
  unfolding next_event
  next_event-first w none h =
      let after = record w { reads = suc w.reads } in
      let p : OutboxEvent → Bool =
        λ x. is_due env retry_failed (env.now w.reads) x && not (env.locked after x) in
      let empty : filter p w.events ≡ [] =
        first_by-none (comes_before (λ y. y.available_at)) (filter p w.events) h in
      let none_due = All-unfilter (λ _. ⊥) p w.events (subst (All (λ _. ⊥)) (sym empty) tt) in
      All-map_imp w.events
        (λ x never may.
          absurd (never (MayClaim-test env retry_failed (env.now w.reads) after x may)))
        none_due
  next_event-first w (some e) h =
      let after = record w { reads = suc w.reads } in
      let p : OutboxEvent → Bool =
        λ x. is_due env retry_failed (env.now w.reads) x && not (env.locked after x) in
      let least =
        All-unfilter (λ x. comes_before (λ y. y.available_at) x e ≡ false) p w.events
          (first_by-least (λ y. y.available_at) (filter p w.events) e h) in
      All-map_imp w.events
        (λ x later may.
          (e, refl, later (MayClaim-test env retry_failed (env.now w.reads) after x may)))
        least

-- A namespaced row that stays as it is.
abbrev pub Withheld : OutboxEvent → OutboxEvent → Type 0
Withheld x y = is_none x.namespace.namespace_type ≡ false → y ≡ x

Withheld-One :
    (R : OutboxEvent → OutboxEvent → Type 0)
    → ((x y : OutboxEvent) → R x y → Withheld x y)
    → (es fs : List OutboxEvent) → One R es fs
    → Rows Withheld es fs
Withheld-One R f es fs h = Rows-One R Withheld (λ x _. refl) f es fs h

-- While the write kill-switch is off, and with distinct ids, neither claiming nor recovery
-- changes a namespaced row.
pub kill_switch_withholds :
    (env : Environment) (o : Options) (w : World)
    → env.namespace_write_enabled ≡ false
    → UniqueIds w.events
    → Rows Withheld w.events
        (claim_next_event env o.retry_failed o.claim_timeout_seconds w).1.events
      × Rows Withheld w.events (recover_next env o w).1.events
kill_switch_withholds env o w off u = (
  Withheld-One _ (λ x y m. elim m [ claims s c ↦ λ named. absurd (shut x c.open_to named) ])
      w.events _ (claim_next_event-One env o w u),
  Withheld-One _ (λ x y m. elim m [ recovers s c ↦ λ named. absurd (shut x c.open_to named) ])
      w.events _ (recover_next-One env o w u),
)
  where
    shut :
        (x : OutboxEvent)
        → IsOpen env.namespace_write_enabled x
        → is_none x.namespace.namespace_type ≡ false
        → ⊥
    shut x open_to named = ground arith
