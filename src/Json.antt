-- ===== src/Json.antt =====
-- JSON values as the program writes them: snapshots, change sets, payloads and metadata. An instant
-- and a UUID are kept as the numbers that they print.
use octonomy.Prelude.{
  ℕ, suc, String, Bool, true, false, ◌&&◌, Option, none, some, ◌==◌, string_eq, nat_eq, option_eq,
  if◌then◌else◌,
}

mutual
  pub data Json : Type 0 where
    null : Json
    text : String → Json
    bool : Bool → Json
    num : ℕ → Json
    uuid : ℕ → Json
    instant : ℕ → Json
    list : Items → Json
    object : Fields → Json

  pub data Items : Type 0 where
    nil : Items
    cons : Json → Items → Items

  pub data Fields : Type 0 where
    end : Fields
    field : String → Json → Fields → Fields

-- `isinstance(value, dict)`
abbrev pub is_object : Json → Bool
is_object (object fs) = true
is_object v = false

abbrev pub empty_object : Json
empty_object = object end

abbrev pub opt_text : Option String → Json
opt_text none = null
opt_text (some s) = text s

abbrev pub opt_uuid : Option ℕ → Json
opt_uuid none = null
opt_uuid (some n) = uuid n

abbrev pub pair : String → Json → String → Json → Json
pair k v j w = object (field k v (field j w end))

abbrev pub single : String → Json → Json
single k v = object (field k v end)

-- `d.get(key)`, and `len(d)`.
abbrev lookup_field : Fields → String → Option Json
lookup_field end k = none
lookup_field (field j v fs) k = let rest = lookup_field fs k in if j == k then some v else rest

abbrev size_of : Fields → ℕ
size_of end = 0
size_of (field j v fs) = suc (size_of fs)

-- Booleans are the numbers 0 and 1.
abbrev as_number : Json → Option ℕ
as_number (bool b) = some (if b then 1 else 0)
as_number (num n) = some n
as_number v = none

-- Python's `==` of two values: dictionaries compare without regard to the order of their keys.
unfoldable mutual
  pub json_beq : Json → Json → Bool
  json_beq null w = elim w [ null ↦ true | _ ↦ false ]
  json_beq (text s) w = elim w [ text t ↦ s == t | _ ↦ false ]
  json_beq (bool b) w = as_number w == some (if b then 1 else 0)
  json_beq (num n) w = as_number w == some n
  json_beq (uuid n) w = elim w [ uuid m ↦ n == m | _ ↦ false ]
  json_beq (instant n) w = elim w [ instant m ↦ n == m | _ ↦ false ]
  json_beq (list xs) w = elim w [ list ys ↦ items_beq xs ys | _ ↦ false ]
  json_beq (object fs) w = elim w [
    | object gs ↦ size_of fs == size_of gs && fields_within fs gs
    | _ ↦ false
  ]

  items_beq : Items → Items → Bool
  items_beq nil ys = elim ys [ nil ↦ true | _ ↦ false ]
  items_beq (cons x xs) ys = elim ys [ nil ↦ false | cons y ys' ↦ json_beq x y && items_beq xs ys' ]

  fields_within : Fields → Fields → Bool
  fields_within end gs = true
  fields_within (field k v fs) gs =
      (elim (lookup_field gs k) [ none ↦ false | some w ↦ json_beq v w ]) && fields_within fs gs
