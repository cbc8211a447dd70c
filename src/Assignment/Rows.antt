-- ===== src/Assignment/Rows.antt =====
-- What the writes of octonomy/assignments/services.py do to the table of assignments.
use octonomy.Prelude.{
  ℕ, ◌≡◌, ◌≢◌, inl, inr, refl, ap, Bool, true, false, ◌&&◌, ◌||◌, not, some, List, [], ◌∷◌, ◌++◌,
  map, filter, any, find, contains, All, All-map_imp, ◌∙◌, arith, Bool-cases, nat_beq, nat_beq_iff,
  nat_eq, if◌then◌else◌,
}
use octonomy.Catalog.{Pairs}
use octonomy.Store.{TagAssignment}
use octonomy.Resolution.{insert_by, order_by}
use octonomy.Assignment.{Resource, of_resource, matching}

-- The resource has the tag.
unfoldable pub has_tag : Resource → List TagAssignment → ℕ → Bool
has_tag r rows i = any (λ a. of_resource r a && nat_beq a.tag_id i) rows

abbrev pub ids_of : List TagAssignment → List ℕ
ids_of rows = map (λ a. a.id) rows

abbrev pub DistinctIds : List TagAssignment → Type 0
DistinctIds rows = Pairs (λ a b. b.id ≢ a.id) rows

pub contains-tags :
    (r : Resource) (rows : List TagAssignment) (i : ℕ)
    → contains (map (λ a. a.tag_id) (filter (of_resource r) rows)) i ≡ has_tag r rows i
unfolding contains has_tag any filter
contains-tags r [] i = refl
contains-tags r (a ∷ rows) i = elim (Bool-cases (of_resource r a)) [
  | inl t ↦ ground (arith, contains-tags r rows i)
  | inr f ↦ ground (arith, contains-tags r rows i)
]

absent_id :
    (p : TagAssignment → Bool) (rows : List TagAssignment) (i : ℕ)
    → All (λ b. b.id ≢ i) rows
    → contains (ids_of (filter p rows)) i ≡ false
unfolding contains filter
absent_id p [] i h = refl
absent_id p (b ∷ rows) i h = ground (arith, absent_id p rows i h.1, h.0)

agree_later :
    (x : TagAssignment) (p : TagAssignment → Bool) (chosen : List TagAssignment)
    (rows : List TagAssignment)
    → All (λ b. b.id ≢ x.id) rows
    → All (λ a. contains (ids_of chosen) a.id ≡ p a) rows
    → All (λ a. contains (ids_of (if p x then x ∷ chosen else chosen)) a.id ≡ p a) rows
unfolding contains
agree_later x p chosen [] d h = tt
agree_later x p chosen (a ∷ rows) d h =
    (ground (arith, d.0, h.0), agree_later x p chosen rows d.1 h.1)

-- With distinct ids, the ids of the selected rows select exactly those.
selected_by_id :
    (p : TagAssignment → Bool) (rows : List TagAssignment)
    → DistinctIds rows
    → All (λ a. contains (ids_of (filter p rows)) a.id ≡ p a) rows
unfolding filter contains
selected_by_id p [] d = tt
selected_by_id p (x ∷ rows) d = (
  ground (arith, absent_id p rows x.id d.0),
  agree_later x p (filter p rows) rows d.0 (selected_by_id p rows d.1),
)

filter_agree :
    (p q : TagAssignment → Bool) (rows : List TagAssignment)
    → All (λ a. p a ≡ q a) rows
    → filter (λ a. not (p a)) rows ≡ filter (λ a. not (q a)) rows
unfolding filter
filter_agree p q [] h = refl
filter_agree p q (x ∷ rows) h = rw (h.0, filter_agree p q rows h.1) refl

contains-insert_by :
    (before : TagAssignment → TagAssignment → Bool) (x : TagAssignment) (rows : List TagAssignment)
    (i : ℕ)
    → contains (ids_of (insert_by before x rows)) i ≡ contains (ids_of (x ∷ rows)) i
unfolding contains insert_by
contains-insert_by before x [] i = refl
contains-insert_by before x (y ∷ rows) i = ground (arith, contains-insert_by before x rows i)

-- The order of rows is nothing to their ids.
contains-order_by :
    (before : TagAssignment → TagAssignment → Bool) (rows : List TagAssignment) (i : ℕ)
    → contains (ids_of (order_by before rows)) i ≡ contains (ids_of rows) i
unfolding contains order_by
contains-order_by before [] i = refl
contains-order_by before (x ∷ rows) i =
    contains-insert_by before x (order_by before rows) i
    ∙ unfold contains in ap (λ b. nat_beq i x.id || b) (contains-order_by before rows i)

-- Deleting the selected rows by their ids, in whatever order they were listed, leaves the rows that were not selected.
pub delete_by_id :
    (before : TagAssignment → TagAssignment → Bool) (p : TagAssignment → Bool)
    (rows : List TagAssignment)
    → DistinctIds rows
    → filter (λ a. not (contains (ids_of (order_by before (filter p rows))) a.id)) rows
      ≡ filter (λ a. not (p a)) rows
delete_by_id before p rows d =
    filter_agree (λ a. contains (ids_of (order_by before (filter p rows))) a.id) p rows
      (All-map_imp rows (λ a same. contains-order_by before (filter p rows) a.id ∙ same)
        (selected_by_id p rows d))

-- The rows of all other resources.
abbrev pub others : Resource → List TagAssignment → List TagAssignment
others r rows = filter (λ a. not (of_resource r a)) rows

-- Taking rows of the resource alone from the table leaves the others.
pub others-removed :
    (r : Resource) (p : TagAssignment → Bool) (rows : List TagAssignment)
    → others r (filter (λ a. not (of_resource r a && p a)) rows) ≡ others r rows
unfolding filter
others-removed r p [] = refl
others-removed r p (a ∷ rows) = ground (arith, others-removed r p rows)

pub others-append :
    (r : Resource) (rows : List TagAssignment) (a : TagAssignment)
    → of_resource r a ≡ true
    → others r (rows ++ a ∷ []) ≡ others r rows
unfolding filter
others-append r [] a h = ground arith
others-append r (b ∷ rows) a h = ground (arith, others-append r rows a h)

pub has_tag-append :
    (r : Resource) (rows : List TagAssignment) (a : TagAssignment) (i : ℕ)
    → of_resource r a ≡ true
    → has_tag r (rows ++ a ∷ []) i ≡ (has_tag r rows i || nat_beq a.tag_id i)
unfolding has_tag any
has_tag-append r [] a i h = ground arith
has_tag-append r (b ∷ rows) a i h = ground (arith, has_tag-append r rows a i h)

-- Taking away the tags that are not wanted leaves those that are.
pub has_tag-kept :
    (r : Resource) (wanted : List ℕ) (rows : List TagAssignment) (i : ℕ)
    → has_tag r (filter (λ a. not (of_resource r a && not (contains wanted a.tag_id))) rows) i
      ≡ (has_tag r rows i && contains wanted i)
unfolding has_tag any filter
has_tag-kept r wanted [] i = refl
has_tag-kept r wanted (a ∷ rows) i = elim (Bool-cases (nat_beq a.tag_id i)) [
  | inl same ↦
      let e : contains wanted a.tag_id ≡ contains wanted i =
        ap (contains wanted) ((nat_beq_iff a.tag_id i).0 same) in
      ground (arith, has_tag-kept r wanted rows i, e)
  | inr other ↦ ground (arith, has_tag-kept r wanted rows i)
]

-- A row that the lookup finds is the tag's.
pub has_tag-matching :
    (r : Resource) (tag_id : ℕ) (rows : List TagAssignment) (a : TagAssignment)
    → matching r tag_id rows ≡ some a
    → has_tag r rows tag_id ≡ true
unfolding has_tag any matching find
has_tag-matching r tag_id [] a h = cc
has_tag-matching r tag_id (b ∷ rows) a h =
    elim (Bool-cases (of_resource r b && nat_beq b.tag_id tag_id)) [
      | inl hit ↦ ground arith
      | inr miss ↦ ground (arith, has_tag-matching r tag_id rows a (ground arith))
    ]
