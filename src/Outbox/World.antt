-- ===== src/Outbox/World.antt =====
-- The outbox table of octonomy/events/models.py as the dispatcher sees it, the state monad of its
-- transactions, the queries of one row and the saving of one.
use octonomy.Prelude.{
  ℕ, suc, ◌+◌, String, Bool, true, false, ◌&&◌, ◌||◌, Option, none, some, List, [], ◌∷◌, map, ltb,
  nat_beq, if◌then◌else◌,
}
use octonomy.Outbox.{OutboxEvent, Status}

-- The table, and how often the clock was read and a UUID drawn.
pub record World : Type 0 where
  pub events : List OutboxEvent
  pub reads : ℕ
  pub draws : ℕ

abbrev pub M : Type 0 → Type 0
M A = World → A × World

infixl 5 ◌>>=◌ ◌>>◌
abbrev pub ◌>>=◌ : {A B : Type 0} → M A → (A → M B) → M B
◌>>=◌ m f w = let (a, w') = m w in f a w'

abbrev pub ◌>>◌ : {A B : Type 0} → M A → M B → M B
m >> k = m >>= λ _. k

abbrev pub pure : {A : Type 0} → A → M A
pure a w = (a, w)

-- The keys of the run's summary.
pub data Outcome : Type 0 where
  published failed dead_lettered recovered : Outcome

-- What the program takes from outside: the clock, the UUIDs, which rows another transaction holds
-- locked at a query (`skip_locked`), the write kill-switch, and the transport, which returns the
-- text of the exception that `publish` raised, if it did, and the table as it stands afterwards.
pub record Environment : Type 0 where
  pub now : ℕ → ℕ
  pub uuid4 : ℕ → ℕ
  pub locked : World → OutboxEvent → Bool
  pub namespace_write_enabled : Bool
  pub publish : OutboxEvent → M (Option String)

unfoldable pub status_beq : Status → Status → Bool
status_beq Status.pending Status.pending = true
status_beq Status.processing Status.processing = true
status_beq Status.published Status.published = true
status_beq Status.failed Status.failed = true
status_beq Status.dead_letter Status.dead_letter = true
status_beq _ _ = false

-- `order_by(key, "created_at", "id")`
unfoldable pub comes_before : (OutboxEvent → ℕ) → OutboxEvent → OutboxEvent → Bool
comes_before key a b =
    ltb (key a) (key b)
    || (nat_beq (key a) (key b)
        && (ltb a.created_at b.created_at || (nat_beq a.created_at b.created_at && ltb a.id b.id)))

-- `queryset.order_by(...).first()`
unfoldable pub first_by : (OutboxEvent → OutboxEvent → Bool) → List OutboxEvent → Option OutboxEvent
first_by before [] = none
first_by before (e ∷ es) = elim (first_by before es) [
  | none ↦ some e
  | some f ↦ some (if before f e then f else e)
]

-- A null deadline sorts last, and no query orders one.
abbrev pub deadline : OutboxEvent → ℕ
deadline e = elim e.claim_expires_at [ none ↦ 0 | some t ↦ t ]

abbrev pub replace : OutboxEvent → OutboxEvent → OutboxEvent
replace new old = if nat_beq old.id new.id then new else old

module _ (env : Environment) where
  abbrev pub timezone_now : M ℕ
  timezone_now w = (env.now w.reads, record w { reads = suc w.reads })

  abbrev pub draw_uuid : M ℕ
  draw_uuid w = (env.uuid4 w.draws, record w { draws = suc w.draws })

  -- `event.save(update_fields=...)`: the row was read in the same transaction, so the fields that
  -- are not named have not changed. `updated_at` is set by the save.
  unfoldable pub save : OutboxEvent → M OutboxEvent
  save event w =
      let saved = record event { updated_at = env.now w.reads } in
      (saved, record w { events = map (replace saved) w.events; reads = suc w.reads })

-- The run's summary.
pub record Summary : Type 0 where
  pub published : ℕ
  pub failed : ℕ
  pub dead_lettered : ℕ
  pub recovered : ℕ

abbrev pub empty_summary : Summary
empty_summary = record { published = 0; failed = 0; dead_lettered = 0; recovered = 0 }

-- `summary[result] += 1`
unfoldable pub count : Outcome → Summary → Summary
count Outcome.published s = record s { published = s.published + 1 }
count Outcome.failed s = record s { failed = s.failed + 1 }
count Outcome.dead_lettered s = record s { dead_lettered = s.dead_lettered + 1 }
count Outcome.recovered s = record s { recovered = s.recovered + 1 }

-- `if result is None: continue`
unfoldable pub count_some : Option Outcome → Summary → Summary
count_some none s = s
count_some (some outcome) s = count outcome s
