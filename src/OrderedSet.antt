-- ===== src/OrderedSet.antt =====
-- The ordered sets of include/swirly/elm/{Rec,Request,Order,Posn}.hpp: each wraps an intrusive set,
-- which is the sequence of its elements in the order that its comparison gives.
use swirlyc.Common.{Bool, true, false, Option, none, some, List, [], ◌∷◌, Ordering}
pub mod Laws

module _ {ℓ} {A : Type ℓ} where
  -- The element that a key equals; the argument compares the key with an element.
  unfoldable pub find : (A → Ordering) → List A → Option A
  find key [] = none
  find key (y ∷ ys) = elim (key y) [
    | Ordering.lt ↦ none
    | Ordering.eq ↦ some y
    | Ordering.gt ↦ find key ys
  ]

  -- `insert`: nothing is inserted where an equal element stands.
  unfoldable pub insert : (A → A → Ordering) → A → List A → List A
  insert cmp x [] = x ∷ []
  insert cmp x (y ∷ ys) = elim (cmp x y) [
    | Ordering.lt ↦ x ∷ y ∷ ys
    | Ordering.eq ↦ y ∷ ys
    | Ordering.gt ↦ y ∷ insert cmp x ys
  ]

  -- `insertOrReplace`.
  unfoldable pub insert_or_replace : (A → A → Ordering) → A → List A → List A
  insert_or_replace cmp x [] = x ∷ []
  insert_or_replace cmp x (y ∷ ys) = elim (cmp x y) [
    | Ordering.lt ↦ x ∷ y ∷ ys
    | Ordering.eq ↦ x ∷ ys
    | Ordering.gt ↦ y ∷ insert_or_replace cmp x ys
  ]

  -- `remove`: the elements that equal a value are erased.
  unfoldable pub remove : (A → A → Ordering) → A → List A → List A
  remove cmp x [] = []
  remove cmp x (y ∷ ys) = elim (cmp x y) [
    | Ordering.lt ↦ y ∷ ys
    | Ordering.eq ↦ ys
    | Ordering.gt ↦ y ∷ remove cmp x ys
  ]

  -- Write through a pointer to the element that a key equals.
  unfoldable pub modify : (A → Ordering) → (A → A) → List A → List A
  modify key f [] = []
  modify key f (y ∷ ys) = elim (key y) [
    | Ordering.lt ↦ y ∷ ys
    | Ordering.eq ↦ f y ∷ ys
    | Ordering.gt ↦ y ∷ modify key f ys
  ]
