-- ===== src/Assignment/Newest.antt =====
-- The order of the rows of tag_assignments, Meta.ordering of octonomy/assignments/models.py.
use octonomy.Prelude.{◌≤◌, ◌<◌, ◌≡◌, ◌⊎◌, false, List, [], ◌∷◌, All-map_imp, arith, nat_eq}
use octonomy.Catalog.{Pairs}
use octonomy.Resolution.{order_by}
use octonomy.Resolution.Sorting.{IsOrder, order_by-Sorted}
use octonomy.Store.{TagAssignment}
use octonomy.Assignment.Services.{newest_first}

-- Of two rows in this order, the second was assigned earlier, or at the same instant and its id is
-- not lower.
abbrev pub NoNewer : TagAssignment → TagAssignment → Type 0
NoNewer a b = (b.assigned_at < a.assigned_at) ⊎ ((b.assigned_at ≡ a.assigned_at) × (a.id ≤ b.id))

newest_first-IsOrder : IsOrder newest_first
unfolding newest_first
newest_first-IsOrder = record { asym = λ x y h. ground arith; trans = λ x y z h k. ground arith }

NoNewer-test : (a b : TagAssignment) → newest_first b a ≡ false → NoNewer a b
unfolding newest_first
NoNewer-test a b h = ground arith

Pairs-NoNewer :
    (xs : List TagAssignment) → Pairs (λ a b. newest_first b a ≡ false) xs → Pairs NoNewer xs
Pairs-NoNewer [] p = tt
Pairs-NoNewer (x ∷ xs) p = (All-map_imp xs (λ b. NoNewer-test x b) p.0, Pairs-NoNewer xs p.1)

-- No row of an ordered list is followed by a newer one.
pub newest_first-Pairs : (xs : List TagAssignment) → Pairs NoNewer (order_by newest_first xs)
newest_first-Pairs xs = Pairs-NoNewer _ (order_by-Sorted newest_first newest_first-IsOrder xs)
