-- ===== src/Catalog/Table/Laws.antt =====
-- What the writes of rows do to a table: its constraints hold after each, and a lookup by id sees the
-- row that was written and no other change.
use octonomy.Prelude.{
  ℕ, ◌≡◌, ◌≢◌, inl, inr, refl, ap, sym, ◌∙◌, true, false, ◌&&◌, not, some, List, [], ◌∷◌, ◌++◌, any,
  find, All, In, All-append, nat_beq, nat_beq_iff, arith, Bool-cases, Option-cases, if◌then◌else◌,
}
use octonomy.Errors.{ok}
use octonomy.Catalog.{Pairs}
use octonomy.Catalog.Table.{
  Table, find_row, get_row, insert_row, write_over, save_row, update_row, Apart, IsTable,
}

module _ {A : Type 0} (table : Table A) where
  Pairs-append :
      (rows : List A) (row : A)
      → Pairs (Apart table) rows
      → All (λ x. Apart table x row) rows
      → Pairs (Apart table) (rows ++ row ∷ [])
  Pairs-append [] row p h = (tt, tt)
  Pairs-append (x ∷ xs) row p h =
      (All-append (Apart table x) xs row p.0 h.0, Pairs-append xs row p.1 h.1)

  All-Apart :
      (rows : List A) (row : A)
      → any (λ x. nat_beq (table.id_of x) (table.id_of row)) rows ≡ false
      → any (λ x. table.clash x row) rows ≡ false
      → All (λ x. Apart table x row) rows
  unfolding any
  All-Apart [] row h k = tt
  All-Apart (x ∷ xs) row h k = (
    (λ e. ground (arith, (nat_beq_iff (table.id_of x) (table.id_of row)).1 (sym e)), ground arith),
    All-Apart xs row (ground arith) (ground arith),
  )

  pub insert_row-inv :
      (row : A) (rows rows' : List A)
      → insert_row table row rows ≡ ok rows'
      → (rows' ≡ rows ++ row ∷ []) × (table.checks row ≡ true) × All (λ x. Apart table x row) rows
  unfolding insert_row
  insert_row-inv row rows rows' h =
      elim (Bool-cases (
        table.checks row
        && not (any (λ x. nat_beq (table.id_of x) (table.id_of row)) rows)
        && not (any (λ x. table.clash x row) rows))) [
          | inl fine ↦
              (ground arith, ground arith, All-Apart rows row (ground arith) (ground arith))
          | inr bad ↦ absurd (ground arith)
        ]

  pub insert_row-IsTable :
      (row : A) (rows rows' : List A)
      → insert_row table row rows ≡ ok rows'
      → IsTable table rows
      → IsTable table rows'
  insert_row-IsTable row rows rows' h w =
      let (e, c, apart) = insert_row-inv row rows rows' h in
      rw e (Pairs-append rows row w.0 apart, All-append (λ x. table.checks x ≡ true) rows row w.1 c)

  -- Rows that the unique constraint leaves beside a row that is written over its id.
  abbrev pub Beside : A → A → Type 0
  Beside row x = table.id_of x ≢ table.id_of row → table.clash x row ≡ false

  All-Beside :
      (row : A) (rows : List A)
      → any (λ x. not (nat_beq (table.id_of x) (table.id_of row)) && table.clash x row) rows ≡ false
      → All (Beside row) rows
  unfolding any
  All-Beside row [] h = tt
  All-Beside row (x ∷ xs) h = (λ n. ground arith, All-Beside row xs (ground arith))

  pub All-write_over {κ} :
      (P : A → Type κ) (row : A) (rows : List A)
      → P row
      → All P rows
      → All P (write_over table row rows)
  unfolding write_over
  All-write_over P row [] p h = (p, tt)
  All-write_over P row (x ∷ xs) p h =
      elim (Bool-cases (nat_beq (table.id_of x) (table.id_of row))) [
        | inl same ↦ rw same (p, h.1)
        | inr other ↦ rw other (h.0, All-write_over P row xs p h.1)
      ]

  replaced :
      (row x : A) (xs : List A)
      → table.id_of x ≡ table.id_of row
      → All (Apart table x) xs
      → All (Beside row) xs
      → All (Apart table row) xs
  replaced row x [] e h b = tt
  replaced row x (y ∷ ys) e h b =
      let n : table.id_of y ≢ table.id_of row = λ q. h.0.0 (q ∙ sym e) in
      ((n, table.clash_sym y row (b.0 n)), replaced row x ys e h.1 b.1)

  pub Pairs-write_over :
      (row : A) (rows : List A)
      → Pairs (Apart table) rows
      → All (Beside row) rows
      → Pairs (Apart table) (write_over table row rows)
  unfolding write_over
  Pairs-write_over row [] p b = (tt, tt)
  Pairs-write_over row (x ∷ xs) p b =
      elim (Bool-cases (nat_beq (table.id_of x) (table.id_of row))) [
        | inl same ↦ rw same (
          replaced row x xs ((nat_beq_iff (table.id_of x) (table.id_of row)).0 same) p.0 b.1,
          p.1,
        )
        | inr other ↦
            let n : table.id_of x ≢ table.id_of row =
              λ e. ground (arith, (nat_beq_iff (table.id_of x) (table.id_of row)).1 e) in
            rw other (
              All-write_over (Apart table x) row xs ((λ e. n (sym e)), b.0 n) p.0,
              Pairs-write_over row xs p.1 b.1,
            )
      ]

  pub save_row-inv :
      (row : A) (rows rows' : List A)
      → save_row table row rows ≡ ok rows'
      → (rows' ≡ write_over table row rows) × (table.checks row ≡ true) × All (Beside row) rows
  unfolding save_row
  save_row-inv row rows rows' h =
      elim (Bool-cases (
        table.checks row
        && not (
            any (λ x. not (nat_beq (table.id_of x) (table.id_of row)) && table.clash x row)
              rows))) [
                | inl fine ↦ (ground arith, ground arith, All-Beside row rows (ground arith))
                | inr bad ↦ absurd (ground arith)
              ]

  pub write_over-IsTable :
      (row : A) (rows : List A)
      → table.checks row ≡ true
      → All (Beside row) rows
      → IsTable table rows
      → IsTable table (write_over table row rows)
  write_over-IsTable row rows c b w =
      (Pairs-write_over row rows w.0 b, All-write_over (λ x. table.checks x ≡ true) row rows c w.1)

  pub save_row-IsTable :
      (row : A) (rows rows' : List A)
      → save_row table row rows ≡ ok rows'
      → IsTable table rows
      → IsTable table rows'
  save_row-IsTable row rows rows' h w =
      let (e, c, b) = save_row-inv row rows rows' h in rw e (write_over-IsTable row rows c b w)

  -- Lookups.
  pub find_row-append :
      (i : ℕ) (rows : List A) (row x : A)
      → find_row table i rows ≡ some x
      → find_row table i (rows ++ row ∷ []) ≡ some x
  unfolding find_row find
  find_row-append i [] row x h = cc
  find_row-append i (y ∷ ys) row x h = elim (Bool-cases (nat_beq (table.id_of y) i)) [
    | inl hit ↦ ground arith
    | inr miss ↦ ground (arith, find_row-append i ys row x (ground arith))
  ]

  pub find_row-write_over :
      (i : ℕ) (rows : List A) (row : A)
      → find_row table i (write_over table row rows)
        ≡ (if nat_beq (table.id_of row) i then some row else find_row table i rows)
  unfolding find_row find write_over
  find_row-write_over i [] row = refl
  find_row-write_over i (x ∷ xs) row =
      elim (Bool-cases (nat_beq (table.id_of x) (table.id_of row))) [
        | inl same ↦ ground arith
        | inr other ↦ ground (arith, find_row-write_over i xs row)
      ]

  absent : (i : ℕ) (x : A) (rows : List A) → All (Apart table x) rows → In x rows → ⊥
  absent i x [] h m = absurd m.lower
  absent i x (y ∷ ys) h (inl e) = h.0.0 (ap table.id_of e)
  absent i x (y ∷ ys) h (inr m) = absent i x ys h.1 m

  pub find_row-In :
      (x : A) (rows : List A)
      → Pairs (Apart table) rows
      → In x rows
      → find_row table (table.id_of x) rows ≡ some x
  unfolding find_row find
  find_row-In x [] p m = absurd m.lower
  find_row-In x (y ∷ ys) p (inl e) =
      rw ((nat_beq_iff (table.id_of y) (table.id_of x)).1 (ap table.id_of e)) (ap some e)
  find_row-In x (y ∷ ys) p (inr m) = elim (Bool-cases (nat_beq (table.id_of y) (table.id_of x))) [
    | inl hit ↦ absurd (later ys p.0 m ((nat_beq_iff (table.id_of y) (table.id_of x)).0 hit))
    | inr miss ↦ rw miss (find_row-In x ys p.1 m)
  ]
    where
      later : (zs : List A) → All (Apart table y) zs → In x zs → table.id_of y ≡ table.id_of x → ⊥
      later [] h m q = absurd m.lower
      later (z ∷ zs) h (inl e) q = h.0.0 (ap table.id_of e ∙ sym q)
      later (z ∷ zs) h (inr m) q = later zs h.1 m q

  pub find_row-inv :
      (i : ℕ) (rows : List A) (x : A)
      → find_row table i rows ≡ some x
      → In x rows × (table.id_of x ≡ i)
  unfolding find_row find
  find_row-inv i [] x h = cc
  find_row-inv i (y ∷ ys) x h = elim (Bool-cases (nat_beq (table.id_of y) i)) [
    | inl hit ↦
        let e : y ≡ x = ground arith in
        (inl e, ap table.id_of (sym e) ∙ (nat_beq_iff (table.id_of y) i).0 hit)
    | inr miss ↦ let (m, q) = find_row-inv i ys x (ground arith) in (inr m, q)
  ]

  pub get_row-inv :
      (i : ℕ) (rows : List A) (x : A) → get_row table i rows ≡ ok x → find_row table i rows ≡ some x
  unfolding get_row
  get_row-inv i rows x h = elim (Option-cases (find_row table i rows)) [
    | inl missing ↦ absurd (ground arith)
    | inr (y, found) ↦ ground arith
  ]

  pub update_row-inv :
      (f : A → A) (i : ℕ) (rows rows' : List A)
      → update_row table f i rows ≡ ok rows'
      → (x : A) × (find_row table i rows ≡ some x) × (save_row table (f x) rows ≡ ok rows')
  unfolding update_row
  update_row-inv f i rows rows' h = elim (Option-cases (find_row table i rows)) [
    | inl missing ↦ absurd (ground arith)
    | inr (x, found) ↦ (x, found, ground arith)
  ]
