-- ===== src/StopLoss/Sorted.antt =====
-- The order in which `applyOrderQuery` of src/modules/stop-loss.ts returns the orders of a user.
use mathlib.Core.Path.{subst}
use mathlib.Core.List.{Perm}
use mathlib.Core.List.Perm
use coralswap_sdk.Common.{
  ◌≡◌, inl, inr, refl, ap, arith, Bool, true, false, ◌&&◌, or_else, List, [], ◌∷◌, keep, All,
  Bool-cases, ◌≤ℤ◌,
}
use coralswap_sdk.StopLoss.{StopLossOrder}
use coralswap_sdk.StopLoss.Query.{
  SortKey, created_at, SortDirection, asc, desc, StopLossOrderQuery, has_status, has_trigger,
  sort_value, belongs_after, insert, sort, apply_order_query,
}

-- `left` may stand before `right`.
abbrev pub Before : SortKey → SortDirection → (left right : StopLossOrder) → Type 0
Before key asc left right = sort_value key left ≤ℤ sort_value key right
Before key desc left right = sort_value key right ≤ℤ sort_value key left

-- Every order may stand before all that follow it.
abbrev pub Sorted : SortKey → SortDirection → List StopLossOrder → Type 0
Sorted key direction [] = Unit
Sorted key direction (order ∷ rest) =
    All (Before key direction order) rest × Sorted key direction rest

module _ (key : SortKey) where
  after :
      (d : SortDirection) (a b : StopLossOrder) → belongs_after key d a b ≡ true → Before key d b a
  after asc a b h = ground arith
  after desc a b h = ground arith

  not_after :
      (d : SortDirection) (a b : StopLossOrder) → belongs_after key d a b ≡ false → Before key d a b
  not_after asc a b h = ground arith
  not_after desc a b h = ground arith

  Before-trans :
      (d : SortDirection) (a b c : StopLossOrder)
      → Before key d a b
      → Before key d b c
      → Before key d a c
  Before-trans asc a b c h k = ground arith
  Before-trans desc a b c h k = ground arith

  module _ (d : SortDirection) where
    All-Before :
        (a b : StopLossOrder) (l : List StopLossOrder)
        → Before key d a b
        → All (Before key d b) l
        → All (Before key d a) l
    All-Before a b [] h all = tt
    All-Before a b (x ∷ l) h (hx, all) = (Before-trans d a b x h hx, All-Before a b l h all)

    All-insert :
        (P : StopLossOrder → Type 0) (a : StopLossOrder) (l : List StopLossOrder)
        → P a
        → All P l
        → All P (insert key d a l)
    unfolding insert
    All-insert P a [] pa all = (pa, tt)
    All-insert P a (x ∷ l) pa (px, all) = elim (Bool-cases (belongs_after key d a x)) [
      | inl later ↦ rw later (px, All-insert P a l pa all)
      | inr now ↦ rw now (pa, (px, all))
    ]

    insert-Sorted :
        (a : StopLossOrder) (l : List StopLossOrder)
        → Sorted key d l
        → Sorted key d (insert key d a l)
    unfolding insert
    insert-Sorted a [] h = (tt, tt)
    insert-Sorted a (x ∷ l) (hx, h) = elim (Bool-cases (belongs_after key d a x)) [
      | inl later ↦
          rw later (All-insert (Before key d x) a l (after d a x later) hx, insert-Sorted a l h)
      | inr now ↦
          let first = not_after d a x now in rw now ((first, All-Before a x l first hx), (hx, h))
    ]

    sort-Sorted : (l : List StopLossOrder) → Sorted key d (sort key d l)
    unfolding sort
    sort-Sorted [] = tt
    sort-Sorted (a ∷ l) = insert-Sorted a (sort key d l) (sort-Sorted l)

    insert-perm : (a : StopLossOrder) (l : List StopLossOrder) → Perm (insert key d a l) (a ∷ l)
    unfolding insert
    insert-perm a [] = Perm.refl _
    insert-perm a (x ∷ l) = elim (Bool-cases (belongs_after key d a x)) [
      | inl later ↦ rw later (Perm.trans (Perm.cons x (insert-perm a l)) (Perm.swap a x l))
      | inr now ↦ rw now (Perm.refl _)
    ]

    sort-perm : (l : List StopLossOrder) → Perm (sort key d l) l
    unfolding sort
    sort-perm [] = Perm.refl _
    sort-perm (a ∷ l) = Perm.trans (insert-perm a (sort key d l)) (Perm.cons a (sort-perm l))

and_false : (b : Bool) → (b && false) ≡ false
and_false true = refl
and_false false = refl

keep_both :
    (p q : StopLossOrder → Bool) (l : List StopLossOrder)
    → keep p (keep q l) ≡ keep (λ order. p order && q order) l
keep_both p q [] = refl
keep_both p q (x ∷ l) = elim (Bool-cases (q x)) [
  | inl yes_q ↦ elim (Bool-cases (p x)) [
    | inl yes_p ↦ rw (yes_q, yes_p) (ap (λ (t : List StopLossOrder). x ∷ t) (keep_both p q l))
    | inr no_p ↦ rw (yes_q, no_p) (keep_both p q l)
  ]
  | inr no_q ↦ rw (no_q, and_false (p x)) (keep_both p q l)
]

-- A query returns the orders that have one of its statuses and its trigger state, each as often as it was
-- there, and sorted by its key in its direction (by the time of creation, and downwards, where it has none).
pub apply_order_query-Sorted :
    (orders : List StopLossOrder) (query : StopLossOrderQuery)
    → Sorted
        (or_else query.sort_by created_at)
        (or_else query.sort_direction desc)
        (apply_order_query orders query)
      × Perm (apply_order_query orders query) (
          keep
            (λ order. has_trigger query.triggered order && has_status query.statuses order)
            orders)
unfolding apply_order_query
apply_order_query-Sorted orders query =
    let key = or_else query.sort_by created_at in
    let direction = or_else query.sort_direction desc in
    let kept = keep (has_trigger query.triggered) (keep (has_status query.statuses) orders) in
    (
      sort-Sorted key direction kept,
      subst (λ l. Perm (sort key direction kept) l)
          (keep_both (has_trigger query.triggered) (has_status query.statuses) orders)
          (sort-perm key direction kept),
    )
