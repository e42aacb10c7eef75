-- ===== src/Book/Sorted.antt =====
-- src/elm/BookSide.cpp, `insertOrder`: price-time priority as an insertion into a plain list.
use swirlyc.Common.{
  ◌==◌, if◌then◌else◌, Bool-cases, ℤ, ◌≤ℤ◌, ltb_ℤ, ◌≡◌, refl, sym, ap, ap₂, ◌∙◌, false, List, [],
  ◌∷◌, ◌++◌, All, arith, append_assoc, inl, inr, All-map, lt→ltb_ℤ, ltb_ℤ→lt, le_of_not_ltb_ℤ,
  not_ltb_ℤ_of_lt,
}
use swirlyc.Domain.{Side, compose_key}
use swirlyc.Order.{Addr, Cells, Order}
use swirlyc.Book.Level.{Level, order_key, new_level, add_order}
use swirlyc.Book.Distinct.{NotIn, Distinct}
use swirlyc.Book.Groups.{Group, members, orders_of, RestsAt, IsGroup, Above, Ascending}
use swirlyc.Book.Insert.{insert_group}

-- Price-time priority, with no levels: behind every order at this price or a better one.
abbrev pub insert_sorted : Cells → Addr → List Addr → List Addr
insert_sorted h a [] = a ∷ []
insert_sorted h a (b ∷ os) =
    if ltb_ℤ (order_key (h a)) (order_key (h b)) then a ∷ b ∷ os else b ∷ insert_sorted h a os

pub rests_key :
    (side : Side) (l : Level) (o : Order)
    → l.key ≡ compose_key side l.ticks
    → RestsAt side l o
    → order_key o ≡ l.key
unfolding order_key
rests_key side l o e r = ap₂ compose_key r.side_eq r.ticks_eq ∙ sym e

-- All the orders of a list have the key k.
abbrev KeyIs : Cells → ℤ → List Addr → Type 0
KeyIs h k os = All (λ b. order_key (h b) ≡ k) os

members-KeyIs :
    (h : Cells) (side : Side) (g : Group) → IsGroup h side g → KeyIs h g.level.key (members g)
members-KeyIs h side g v =
    All-map _ _ (members g) (λ b r. rests_key side g.level (h b) v.key_eq r) v.rests

insert_sorted_skip :
    (h : Cells) (a : Addr) (k : ℤ) (xs os : List Addr)
    → KeyIs h k xs
    → ltb_ℤ (order_key (h a)) k ≡ false
    → insert_sorted h a (xs ++ os) ≡ xs ++ insert_sorted h a os
insert_sorted_skip h a k [] os e n = refl
insert_sorted_skip h a k (x ∷ xs) os e n =
    rw (e.0, n) (ap (◌∷◌ x) (insert_sorted_skip h a k xs os e.1 n))

insert_sorted_front :
    (h : Cells) (side : Side) (a : Addr) (gs : List Group)
    → All (IsGroup h side) gs
    → Above (order_key (h a)) gs
    → insert_sorted h a (orders_of gs) ≡ a ∷ orders_of gs
insert_sorted_front h side a [] v up = refl
insert_sorted_front h side a (g ∷ gs) v up = rw ((members-KeyIs h side g v.0).0, lt→ltb_ℤ _ _ up.0)

pub Above-le : (j k : ℤ) (gs : List Group) → j ≤ℤ k → Above k gs → Above j gs
Above-le j k gs le up = All-map _ _ gs (λ g lt. omega (arith, lt)) up

pub insert_sorted-groups :
    (h : Cells) (side : Side) (a : Addr) (gs : List Group)
    → All (IsGroup h side) gs
    → Ascending gs
    → insert_sorted h a (orders_of gs) ≡ orders_of (insert_group a (h a) gs)
unfolding insert_group new_level add_order
insert_sorted-groups h side a [] v asc = refl
insert_sorted-groups h side a (g ∷ gs) v asc =
    elim (Bool-cases (ltb_ℤ g.level.key (order_key (h a)))) [
      | inl below ↦
          rw (below, insert_group)
            (insert_sorted_skip h a g.level.key (members g) (orders_of gs)
                (members-KeyIs h side g v.0)
                (not_ltb_ℤ_of_lt g.level.key (order_key (h a))
                  (ltb_ℤ→lt g.level.key (order_key (h a)) below))
              ∙ ap (◌++◌ (members g)) (insert_sorted-groups h side a gs v.1 asc.1))
      | inr not_below ↦ elim (Bool-cases (ltb_ℤ (order_key (h a)) g.level.key)) [
        | inl above ↦ rw (not_below, above, (members-KeyIs h side g v.0).0, above) refl
        | inr same ↦
            rw (not_below, same)
              (insert_sorted_skip h a g.level.key (members g) (orders_of gs)
                  (members-KeyIs h side g v.0) same
                ∙ ap (◌++◌ (members g)) (
                    insert_sorted_front h side a gs v.1 (
                      Above-le (order_key (h a)) g.level.key gs
                        (le_of_not_ltb_ℤ g.level.key (order_key (h a)) not_below) asc.0))
                ∙ sym (append_assoc (members g) (a ∷ []) (orders_of gs)))
      ]
    ]

insert_sorted-NotIn :
    (h : Cells) (a b : Addr) (os : List Addr)
    → (b == a) ≡ false
    → NotIn b os
    → NotIn b (insert_sorted h a os)
insert_sorted-NotIn h a b [] e n = (e, tt)
insert_sorted-NotIn h a b (c ∷ os) e n = ground (arith, insert_sorted-NotIn h a b os e n.1)

pub insert_sorted-Distinct :
    (h : Cells) (a : Addr) (os : List Addr)
    → NotIn a os
    → Distinct os
    → Distinct (insert_sorted h a os)
insert_sorted-Distinct h a [] n d = (tt, tt)
insert_sorted-Distinct h a (b ∷ os) n d =
    ground (
      arith,
      insert_sorted-Distinct h a os n.1 d.1,
      insert_sorted-NotIn h a b os (ground arith) d.0,
    )
