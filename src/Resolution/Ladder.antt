-- ===== src/Resolution/Ladder.antt =====
-- When one row is more specific than another for a request, octonomy/tags/alias_selectors.py, stated
-- on the rows' own fields.
use octonomy.Prelude.{
  String, ◌≡◌, ◌≢◌, ◌≤◌, true, false, Option, none, some, arith, option_eq, option_beq_iff,
  string_eq, nat_eq,
}
use octonomy.Scope.{Namespace, is_global, row_is_global, same_namespace_iff}
use octonomy.Resolution.{rank, resolution_priority}

-- The row `u` shadows the row `t`, for a request into the scope `s` that names an application or
-- none: in the global scope the application's rows shadow the rest; in a namespace the
-- application's rows of that namespace shadow the rest, and next its global rows the shared ones;
-- and where no application is named, the rows of the namespace shadow the rest.
pub data Shadows (application_id : Option String) (s : Namespace) (ua : Option String)
    (un : Namespace) (ta : Option String) (tn : Namespace) : Type 0 where
  application :
      (a : String)
      → application_id ≡ some a
      → is_global s ≡ true
      → ua ≡ some a
      → ta ≢ some a
      → Shadows application_id s ua un ta tn
  namespace :
      (a : String)
      → application_id ≡ some a
      → is_global s ≡ false
      → ua ≡ some a
      → un ≡ s
      → ¬ ((ta ≡ some a) × (tn ≡ s))
      → Shadows application_id s ua un ta tn
  application_wide :
      (a : String)
      → application_id ≡ some a
      → is_global s ≡ false
      → ua ≡ some a
      → row_is_global un ≡ true
      → ta ≢ some a
      → Shadows application_id s ua un ta tn
  unnamed :
      application_id ≡ none
      → is_global s ≡ false
      → un ≡ s
      → tn ≢ s
      → Shadows application_id s ua un ta tn

-- A row with no later priority is not shadowed.
pub unshadowed_lem :
    (application_id : Option String) (s : Namespace) (ua : Option String) (un : Namespace)
    (ta : Option String) (tn : Namespace)
    → rank (resolution_priority application_id s ta tn)
      ≤ rank (resolution_priority application_id s ua un)
    → ¬ (Shadows application_id s ua un ta tn)
unfolding resolution_priority rank
unshadowed_lem none s ua un ta tn h (application a e g own other) = cc
unshadowed_lem none s ua un ta tn h (namespace a e g own home other) = cc
unshadowed_lem none s ua un ta tn h (application_wide a e g own wide other) = cc
unshadowed_lem none s ua un ta tn h (unnamed e g home away) =
    let here = (same_namespace_iff un s).1 home in ground (arith, same_namespace_iff tn s)
unshadowed_lem (some b) s ua un ta tn h (application a e g own other) =
    ground (arith, option_beq_iff ua (some b), option_beq_iff ta (some b))
unshadowed_lem (some b) s ua un ta tn h (namespace a e g own home other) = ground (
  arith,
  option_beq_iff ua (some b),
  option_beq_iff ta (some b),
  same_namespace_iff un s,
  same_namespace_iff tn s,
)
unshadowed_lem (some b) s ua un ta tn h (application_wide a e g own wide other) =
    ground (arith, option_beq_iff ua (some b), option_beq_iff ta (some b))
unshadowed_lem (some b) s ua un ta tn h (unnamed e g home away) = cc
