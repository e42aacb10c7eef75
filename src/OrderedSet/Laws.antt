-- ===== src/OrderedSet/Laws.antt =====
-- What the ordered sets promise where the comparison is an order on keys.
use swirlyc.Common.{
  ◌≢◌, ap, sym, ◌∙◌, Option, none, some, compare, arith, ◌≡◌, refl, List, [], ◌∷◌, Ordering, ◌⊎◌,
  inl, inr, All, All-map,
}
use swirlyc.OrderedSet.{find, insert, modify}

-- A comparison of keys that is an order.
pub record IsOrder {ℓ} {K : Type ℓ} (cmp : K → K → Ordering) : Type ℓ where
  pub cmp_refl : (a : K) → cmp a a ≡ Ordering.eq
  pub cmp_eq : (a b : K) → cmp a b ≡ Ordering.eq → a ≡ b
  pub cmp_flip : (a b : K) → cmp a b ≡ Ordering.gt → cmp b a ≡ Ordering.lt
  pub cmp_trans :
      (a b c : K) → cmp a b ≡ Ordering.lt → cmp b c ≡ Ordering.lt → cmp a c ≡ Ordering.lt

abbrev pub map_option {ℓ κ} : {A : Type ℓ} {B : Type κ} → (A → B) → Option A → Option B
map_option f none = none
map_option f (some x) = some (f x)

abbrev pub or_else {ℓ} : {A : Type ℓ} → A → Option A → A
or_else x none = x
or_else x (some y) = y

pub Ordering-cases : (o : Ordering) → ((o ≡ Ordering.lt) ⊎ (o ≡ Ordering.eq)) ⊎ (o ≡ Ordering.gt)
Ordering-cases Ordering.lt = inl (inl refl)
Ordering-cases Ordering.eq = inl (inr refl)
Ordering-cases Ordering.gt = inr refl

module _ {ℓ κ} {A : Type ℓ} {K : Type κ} (key : A → K) (cmp : K → K → Ordering)
    (order : IsOrder cmp) where
  abbrev pub cmp_key : A → A → Ordering
  cmp_key x y = cmp (key x) (key y)

  -- The keys rise strictly.
  abbrev pub IsSorted : List A → Type 0
  IsSorted [] = Unit {0}
  IsSorted (x ∷ xs) = All (λ y. cmp (key x) (key y) ≡ Ordering.lt) xs × IsSorted xs

  All-insert {μ} :
      (P : A → Type μ) (x : A) (xs : List A) → P x → All P xs → All P (insert cmp_key x xs)
  unfolding insert
  All-insert P x [] p h = (p, tt)
  All-insert P x (y ∷ ys) p h = elim (Ordering-cases (cmp (key x) (key y))) [
    | inl (inl e) ↦ rw (e, insert) (p, h)
    | inl (inr e) ↦ rw (e, insert) h
    | inr e ↦ rw (e, insert) (h.0, All-insert P x ys p h.1)
  ]

  pub insert-IsSorted : (x : A) (xs : List A) → IsSorted xs → IsSorted (insert cmp_key x xs)
  unfolding insert
  insert-IsSorted x [] s = (tt, tt)
  insert-IsSorted x (y ∷ ys) s = elim (Ordering-cases (cmp (key x) (key y))) [
    | inl (inl e) ↦
        rw (e, insert) ((e, All-map _ _ ys (λ z l. order.cmp_trans _ (key y) _ e l) s.0), s)
    | inl (inr e) ↦ rw (e, insert) s
    | inr e ↦
        rw (e, insert) (All-insert _ x ys (order.cmp_flip _ _ e) s.0, insert-IsSorted x ys s.1)
  ]

  -- The element that a key equals.
  abbrev pub at : K → List A → Option A
  at k xs = find (λ y. cmp k (key y)) xs

  -- After an insertion the key finds the element that was there, or else the new one.
  pub at-insert_self :
      (x : A) (xs : List A) → at (key x) (insert cmp_key x xs) ≡ some (or_else x (at (key x) xs))
  unfolding find insert
  at-insert_self x [] = rw (order.cmp_refl (key x), find) refl
  at-insert_self x (y ∷ ys) = elim (Ordering-cases (cmp (key x) (key y))) [
    | inl (inl e) ↦ rw (e, insert, find, order.cmp_refl (key x)) refl
    | inl (inr e) ↦ rw (e, insert, find, e) refl
    | inr e ↦ rw (e, insert, find, e) (at-insert_self x ys)
  ]

  -- Other keys find what they found.
  pub at-insert_ne :
      (k : K) (x : A) (xs : List A)
      → cmp k (key x) ≢ Ordering.eq
      → at k (insert cmp_key x xs) ≡ at k xs
  unfolding find insert
  at-insert_ne k x [] n = elim (Ordering-cases (cmp k (key x))) [
    | inl (inl e) ↦ rw (e, find) refl
    | inl (inr e) ↦ absurd (n e)
    | inr e ↦ rw (e, find) refl
  ]
  at-insert_ne k x (y ∷ ys) n = elim (Ordering-cases (cmp (key x) (key y))) [
    | inl (inl e) ↦ elim (Ordering-cases (cmp k (key x))) [
      | inl (inl e') ↦ rw (e, insert, find, e', order.cmp_trans _ _ _ e' e) refl
      | inl (inr e') ↦ absurd (n e')
      | inr e' ↦ rw (e, insert, find, e') refl
    ]
    | inl (inr e) ↦ rw (e, insert) refl
    | inr e ↦
        rw (e, insert)
          (elim (Ordering-cases (cmp k (key y))) [
            | inl (inl e') ↦ rw (e', find) refl
            | inl (inr e') ↦ rw (e', find) refl
            | inr e' ↦ rw (e', find) (at-insert_ne k x ys n)
          ])
  ]

  -- The element that a key finds has this key.
  pub at-key : (k : K) (x : A) (xs : List A) → at k xs ≡ some x → key x ≡ k
  unfolding find
  at-key k x [] h = ground arith
  at-key k x (y ∷ ys) h = elim (Ordering-cases (cmp k (key y))) [
    | inl (inl e) ↦ absurd (ground (arith, h, e))
    | inl (inr e) ↦ ground (arith, h, e, order.cmp_eq k (key y) e)
    | inr e ↦ at-key k x ys (ground (arith, h, e))
  ]

  -- A write that does not change the element that is found changes nothing.
  pub modify_found :
      (f : A → A) (k : K) (x : A) (xs : List A)
      → at k xs ≡ some x
      → f x ≡ x
      → modify (λ y. cmp k (key y)) f xs ≡ xs
  unfolding find modify
  modify_found f k x [] h e = refl
  modify_found f k x (y ∷ ys) h e = elim (Ordering-cases (cmp k (key y))) [
    | inl (inl p) ↦ rw (p, modify) refl
    | inl (inr p) ↦
        let same : y ≡ x = ground (arith, h, p) in
        rw (p, modify) (ap (λ z. z ∷ ys) (ap f same ∙ e ∙ sym same))
    | inr p ↦ rw (p, modify) (ap (λ zs. y ∷ zs) (modify_found f k x ys (ground (arith, h, p)) e))
  ]

  -- A write that keeps the key: the key of the write finds the written element, other keys find
  -- what they found.
  module _ (f : A → A) (same : (x : A) → key (f x) ≡ key x) where
    pub at-modify_self :
        (k : K) (xs : List A) → at k (modify (λ y. cmp k (key y)) f xs) ≡ map_option f (at k xs)
    unfolding find modify
    at-modify_self k [] = refl
    at-modify_self k (y ∷ ys) = elim (Ordering-cases (cmp k (key y))) [
      | inl (inl e) ↦ rw (e, modify, find, e) refl
      | inl (inr e) ↦ rw (e, modify, find, same y, e) refl
      | inr e ↦ rw (e, modify, find, e) (at-modify_self k ys)
    ]

    pub at-modify_ne :
        (k j : K) (xs : List A)
        → cmp j k ≢ Ordering.eq
        → at j (modify (λ y. cmp k (key y)) f xs) ≡ at j xs
    unfolding find modify
    at-modify_ne k j [] n = refl
    at-modify_ne k j (y ∷ ys) n = elim (Ordering-cases (cmp k (key y))) [
      | inl (inl e) ↦ rw (e, modify) refl
      | inl (inr e) ↦
          rw (e, modify, find, same y)
            (elim (Ordering-cases (cmp j (key y))) [
              | inl (inl e') ↦ rw e' refl
              | inl (inr e') ↦ absurd (n (ap (cmp j) (order.cmp_eq k (key y) e) ∙ e'))
              | inr e' ↦ rw e' refl
            ])
      | inr e ↦
          rw (e, modify, find)
            (elim (Ordering-cases (cmp j (key y))) [
              | inl (inl e') ↦ rw (e', find) refl
              | inl (inr e') ↦ rw (e', find) refl
              | inr e' ↦ rw (e', find) (at-modify_ne k j ys n)
            ])
    ]

pub compare-IsOrder : IsOrder compare
compare-IsOrder = record {
  cmp_refl = λ a. ground arith;
  cmp_eq = λ a b h. ground arith;
  cmp_flip = λ a b h. ground arith;
  cmp_trans = λ a b c h k. ground arith;
}

-- By the first component, then by the second.
module _ {ℓ κ} {K : Type ℓ} {L : Type κ} (cmp : K → K → Ordering) (cmp' : L → L → Ordering) where
  abbrev pub compare_pair : K × L → K × L → Ordering
  compare_pair (a, b) (c, d) = elim (cmp a c) [
    | Ordering.lt ↦ Ordering.lt
    | Ordering.eq ↦ cmp' b d
    | Ordering.gt ↦ Ordering.gt
  ]

  module _ (o : IsOrder cmp) (o' : IsOrder cmp') where
    pair_refl : (p : K × L) → compare_pair p p ≡ Ordering.eq
    pair_refl (a, b) = rw (compare_pair, o.cmp_refl a) (o'.cmp_refl b)

    pair_eq : (p q : K × L) → compare_pair p q ≡ Ordering.eq → p ≡ q
    pair_eq (a, b) (c, d) h = ground (arith, o.cmp_eq a c, o'.cmp_eq b d)

    pair_flip : (p q : K × L) → compare_pair p q ≡ Ordering.gt → compare_pair q p ≡ Ordering.lt
    pair_flip (a, b) (c, d) h =
        ground (arith, o.cmp_eq a c, o.cmp_refl a, o.cmp_flip a c, o'.cmp_flip b d)

    pair_trans :
        (p q r : K × L)
        → compare_pair p q ≡ Ordering.lt
        → compare_pair q r ≡ Ordering.lt
        → compare_pair p r ≡ Ordering.lt
    pair_trans (a, b) (c, d) (e, f) h k =
        ground
          (arith, o.cmp_eq a c, o.cmp_eq c e, o.cmp_trans a c e, o'.cmp_trans b d f, o.cmp_refl a)

    pub pair-IsOrder : IsOrder compare_pair
    pair-IsOrder = record {
      cmp_refl = pair_refl;
      cmp_eq = pair_eq;
      cmp_flip = pair_flip;
      cmp_trans = pair_trans;
    }
