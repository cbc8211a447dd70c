-- ===== src/Outbox/Machine/Laws.antt =====
-- What every step of the event machine keeps.
use octonomy.Prelude.{
  ℕ, String, ◌≤◌, ◌<◌, ◌≡◌, ◌≢◌, ◌⊎◌, inl, inr, ap, sym, subst, ◌∙◌, Bool, true, none, is_some,
  List, [], ◌∷◌, All, Any, arith,
}
use octonomy.Outbox.{OutboxEvent, Status}
use octonomy.Outbox.Retry.{Options}
use octonomy.Outbox.Machine.{
  Unclaimed, Claims, Publishes, Fails, Buries, Recovers, Move, stay, claim, settle, recover, claims,
  publishes, fails, buries, recovers,
}
use octonomy.Outbox.Machine.Rows.{Rows, UniqueIds}

-- What a row in one status looks like, when every dispatcher allows `top` attempts.
abbrev pub InStatus : ℕ → OutboxEvent → Status → Type 0
InStatus top e Status.pending = Unclaimed e × (e.attempts < top) × (e.published_at ≡ none)
InStatus top e Status.processing =
    (is_some e.claim_id ≡ true)
    × (is_some e.claimed_at ≡ true)
    × (is_some e.claim_expires_at ≡ true)
    × (e.attempts < top)
    × (e.published_at ≡ none)
InStatus top e Status.published =
    Unclaimed e × (1 ≤ e.attempts) × (e.attempts ≤ top) × (is_some e.published_at ≡ true)
InStatus top e Status.failed =
    Unclaimed e × (1 ≤ e.attempts) × (e.attempts < top) × (e.published_at ≡ none)
InStatus top e Status.dead_letter = Unclaimed e × (e.attempts ≡ top) × (e.published_at ≡ none)

abbrev pub IsConsistent : ℕ → OutboxEvent → Type 0
IsConsistent top e = InStatus top e e.status

module _ (top : ℕ) (e : OutboxEvent) (s : Status) (is_in : e.status ≡ s) where
  pub open_status : IsConsistent top e → InStatus top e s
  open_status h = subst (InStatus top e) is_in h

  pub close_status : InStatus top e s → IsConsistent top e
  close_status h = subst (InStatus top e) (sym is_in) h

module _ (enabled : Bool) (o : Options) (x y : OutboxEvent) where
  waiting_room :
      ((x.status ≡ Status.pending) ⊎ ((o.retry_failed ≡ true) × (x.status ≡ Status.failed)))
      → IsConsistent o.max_attempts x
      → (x.attempts < o.max_attempts) × (x.published_at ≡ none)
  waiting_room (inl p) h = let (_, a, b) = open_status o.max_attempts x Status.pending p h in (a, b)
  waiting_room (inr (_, p)) h =
      let (_, _, a, b) = open_status o.max_attempts x Status.failed p h in (a, b)

  Claims-IsConsistent :
      {now c at : ℕ}
      → Claims enabled o now c at x y
      → IsConsistent o.max_attempts x
      → IsConsistent o.max_attempts y
  Claims-IsConsistent m h =
      let (room, never) = waiting_room m.waiting h in
      close_status o.max_attempts y Status.processing m.status (
        ap is_some m.claim_id,
        ap is_some m.claimed_at,
        ap is_some m.claim_expires_at,
        omega arith,
        m.published_at ∙ never,
      )

  Publishes-IsConsistent :
      {at : ℕ}
      → Publishes enabled o at x y
      → IsConsistent o.max_attempts x
      → IsConsistent o.max_attempts y
  Publishes-IsConsistent m h =
      let (_, _, _, room, _) = open_status o.max_attempts x Status.processing m.held h in
      close_status o.max_attempts y Status.published m.status
        (m.unclaimed, omega arith, omega arith, ap is_some m.published_at)

  Fails-IsConsistent :
      {error : String} {at : ℕ}
      → Fails enabled o error at x y
      → IsConsistent o.max_attempts x
      → IsConsistent o.max_attempts y
  Fails-IsConsistent m h =
      let (_, _, _, room, never) = open_status o.max_attempts x Status.processing m.held h in
      close_status o.max_attempts y Status.failed m.status
        (m.unclaimed, omega arith, omega arith, m.published_at ∙ never)

  Buries-IsConsistent :
      {error : String}
      → Buries enabled o error x y
      → IsConsistent o.max_attempts x
      → IsConsistent o.max_attempts y
  Buries-IsConsistent m h =
      let (_, _, _, room, never) = open_status o.max_attempts x Status.processing m.held h in
      close_status o.max_attempts y Status.dead_letter m.status
        (m.unclaimed, omega arith, m.published_at ∙ never)

  Recovers-IsConsistent :
      {now at : ℕ}
      → Recovers enabled o now at x y
      → IsConsistent o.max_attempts x
      → IsConsistent o.max_attempts y
  Recovers-IsConsistent m h =
      let (_, _, _, room, never) = open_status o.max_attempts x Status.processing m.held h in
      close_status o.max_attempts y Status.pending m.status
        (m.unclaimed, omega arith, m.published_at ∙ never)

  pub Move-IsConsistent :
      Move enabled o x y → IsConsistent o.max_attempts x → IsConsistent o.max_attempts y
  Move-IsConsistent (stay e) h = rw e h
  Move-IsConsistent (claim _ _ _ (claims _ m)) h = Claims-IsConsistent m h
  Move-IsConsistent (settle _ _ _ _ (publishes _ _ _ m)) h = Publishes-IsConsistent m h
  Move-IsConsistent (settle _ _ _ _ (fails _ _ _ _ m)) h = Fails-IsConsistent m h
  Move-IsConsistent (settle _ _ _ _ (buries _ _ _ _ m)) h = Buries-IsConsistent m h
  Move-IsConsistent (recover _ _ (recovers _ m)) h = Recovers-IsConsistent m h

  -- An event that has reached its end stays exactly as it is.
  pub Move-final :
      Move enabled o x y → (x.status ≡ Status.published) ⊎ (x.status ≡ Status.dead_letter) → y ≡ x
  Move-final (stay e) h = e
  Move-final (claim _ _ _ (claims _ m)) h = ground (arith, m.waiting)
  Move-final (settle _ _ _ _ (publishes _ _ _ m)) h = ground (arith, m.held)
  Move-final (settle _ _ _ _ (fails _ _ _ _ m)) h = ground (arith, m.held)
  Move-final (settle _ _ _ _ (buries _ _ _ _ m)) h = ground (arith, m.held)
  Move-final (recover _ _ (recovers _ m)) h = ground (arith, m.held)

  pub Move-id : Move enabled o x y → y.id ≡ x.id
  Move-id (stay e) = ap (λ (z : OutboxEvent). z.id) e
  Move-id (claim _ _ _ (claims s _)) = s.id
  Move-id (settle _ _ _ _ (publishes _ _ s _)) = s.id
  Move-id (settle _ _ _ _ (fails _ _ _ s _)) = s.id
  Move-id (settle _ _ _ _ (buries _ _ _ s _)) = s.id
  Move-id (recover _ _ (recovers s _)) = s.id

-- The machine on whole tables.
module _ (enabled : Bool) (o : Options) where
  pub Rows-IsConsistent :
      (xs ys : List OutboxEvent)
      → Rows (Move enabled o) xs ys
      → All (IsConsistent o.max_attempts) xs
      → All (IsConsistent o.max_attempts) ys
  Rows-IsConsistent [] [] r h = tt
  Rows-IsConsistent [] (y ∷ ys) r h = absurd r
  Rows-IsConsistent (x ∷ xs) [] r h = absurd r
  Rows-IsConsistent (x ∷ xs) (y ∷ ys) r h =
      (Move-IsConsistent enabled o x y r.0 h.0, Rows-IsConsistent xs ys r.1 h.1)

  Rows-apart :
      (i : ℕ) (xs ys : List OutboxEvent)
      → Rows (Move enabled o) xs ys
      → All (λ x. x.id ≢ i) xs
      → All (λ y. y.id ≢ i) ys
  Rows-apart i [] [] r h = tt
  Rows-apart i [] (y ∷ ys) r h = absurd r
  Rows-apart i (x ∷ xs) [] r h = absurd r
  Rows-apart i (x ∷ xs) (y ∷ ys) r h =
      (λ e. h.0 (sym (Move-id enabled o x y r.0) ∙ e), Rows-apart i xs ys r.1 h.1)

  pub Rows-UniqueIds :
      (xs ys : List OutboxEvent) → Rows (Move enabled o) xs ys → UniqueIds xs → UniqueIds ys
  Rows-UniqueIds [] [] r u = tt
  Rows-UniqueIds [] (y ∷ ys) r u = absurd r
  Rows-UniqueIds (x ∷ xs) [] r u = absurd r
  Rows-UniqueIds (x ∷ xs) (y ∷ ys) r u =
      let same = Move-id enabled o x y r.0 in
      (
        subst (λ i. All (λ z. z.id ≢ i) ys) (sym same) (Rows-apart x.id xs ys r.1 u.0),
        Rows-UniqueIds xs ys r.1 u.1,
      )

  -- A row that a step leaves alone stays in the table.
  pub Rows-keeps :
      (e : OutboxEvent)
      → ((y : OutboxEvent) → Move enabled o e y → y ≡ e)
      → (xs ys : List OutboxEvent) → Rows (Move enabled o) xs ys
      → Any (λ x. x ≡ e) xs
      → Any (λ y. y ≡ e) ys
  Rows-keeps e frozen [] ys r h = absurd h.lower
  Rows-keeps e frozen (x ∷ xs) [] r h = absurd r
  Rows-keeps e frozen (x ∷ xs) (y ∷ ys) r (inl same) =
      inl (frozen y (subst (λ z. Move enabled o z y) same r.0))
  Rows-keeps e frozen (x ∷ xs) (y ∷ ys) r (inr h) = inr (Rows-keeps e frozen xs ys r.1 h)
