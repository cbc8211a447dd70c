-- ===== src/Catalog/Table.antt =====
-- A table with a primary key, check constraints and a unique constraint, as octonomy/tags/models.py
-- declares three of them, and the writes of rows that the services make.
pub mod Laws
use octonomy.Prelude.{
  ℕ, ◌≡◌, ◌≢◌, ◌⊎◌, inl, inr, refl, ap, sym, ◌∙◌, Bool, true, false, ◌&&◌, ◌||◌, not, Option, none,
  some, List, [], ◌∷◌, ◌++◌, any, find, All, In, All-append, nat_beq, nat_beq_iff, arith,
  Bool-cases, if◌then◌else◌,
}
use octonomy.Errors.{Result, ok, err, integrity_error, database_error, does_not_exist}
use octonomy.Catalog.{Pairs}

pub record Table (A : Type 0) : Type 0 where
  pub id_of : A → ℕ
  pub checks : A → Bool
  pub clash : A → A → Bool
  pub clash_sym : (a b : A) → clash a b ≡ false → clash b a ≡ false

module _ {A : Type 0} (table : Table A) where
  -- The row with this id.
  unfoldable pub find_row : ℕ → List A → Option A
  find_row i rows = find (λ x. nat_beq (table.id_of x) i) rows

  -- `objects.get(id=...)`
  unfoldable pub get_row : ℕ → List A → Result A
  unfolding find_row
  get_row i rows = elim (find_row i rows) [ none ↦ err does_not_exist | some x ↦ ok x ]

  -- `objects.create(...)`: an INSERT.
  unfoldable pub insert_row : A → List A → Result (List A)
  insert_row row rows =
      if table.checks row
        && not (any (λ x. nat_beq (table.id_of x) (table.id_of row)) rows)
        && not (any (λ x. table.clash x row) rows)
      then ok (rows ++ row ∷ [])
      else err integrity_error

  -- The row of this id written over, and appended if there is none.
  unfoldable pub write_over : A → List A → List A
  write_over row [] = row ∷ []
  write_over row (x ∷ xs) =
      let rest = write_over row xs in
      if nat_beq (table.id_of x) (table.id_of row) then row ∷ xs else x ∷ rest

  -- `row.save()`: an UPDATE, and an INSERT if there is no such row.
  unfoldable pub save_row : A → List A → Result (List A)
  unfolding write_over
  save_row row rows =
      if table.checks row
        && not
            (any (λ x. not (nat_beq (table.id_of x) (table.id_of row)) && table.clash x row) rows)
      then ok (write_over row rows)
      else err integrity_error

  -- `row.save(update_fields=...)`: an UPDATE of some columns, which must find its row.
  unfoldable pub update_row : (A → A) → ℕ → List A → Result (List A)
  unfolding find_row save_row
  update_row f i rows = elim (find_row i rows) [
    | none ↦ err database_error
    | some x ↦ save_row (f x) rows
  ]

  -- What the constraints leave possible.
  abbrev pub Apart : A → A → Type 0
  Apart a b = (table.id_of b ≢ table.id_of a) × (table.clash a b ≡ false)

  abbrev pub IsTable : List A → Type 0
  IsTable rows = Pairs Apart rows × All (λ x. table.checks x ≡ true) rows
