-- ===== src/Book/Insert.antt =====
-- src/elm/BookSide.cpp, `insertOrder`: the insertion through the level set keeps the side's
-- invariant, and puts the order behind all orders at its price or a better one.
use swirlyc.Common.{
  if◌then◌else◌, Bool-cases, ltb_ℤ, ◌≡◌, refl, sym, ap, ◌∙◌, List, [], ◌∷◌, ◌++◌, arith,
  append_assoc, inl, inr,
}
use swirlyc.Order.{Addr, Order}
use swirlyc.Book.Level.{order_key, insert_level, new_level, add_order, skip}
use swirlyc.Book.Side.{place, insert_before}
use swirlyc.Book.Distinct.{
  Distinct-NotIn_left, Distinct-drop_middle, Distinct-right, NotIn, Distinct,
}
use swirlyc.Book.Groups.{Group, members, levels_of, orders_of}

abbrev pub new_group : Addr → Order → Group
new_group a o = record { level = new_level a o; rest = [] }

abbrev pub join_group : Addr → Order → Group → Group
join_group a o g = record { level = add_order o g.level; rest = g.rest ++ a ∷ [] }

-- The insertion, on groups.
unfoldable pub insert_group : Addr → Order → List Group → List Group
insert_group a o [] = new_group a o ∷ []
insert_group a o (g ∷ gs) =
    if ltb_ℤ g.level.key (order_key o)
    then g ∷ insert_group a o gs
    else if ltb_ℤ (order_key o) g.level.key
    then new_group a o ∷ g ∷ gs
    else join_group a o g ∷ gs

unfoldable pub groups_after : Addr → Order → List Group → List Group
groups_after a o [] = []
groups_after a o (g ∷ gs) =
    if ltb_ℤ g.level.key (order_key o)
    then groups_after a o gs
    else if ltb_ℤ (order_key o) g.level.key
    then g ∷ gs
    else gs

pub insert_level-groups :
    (a : Addr) (o : Order) (gs : List Group)
    → insert_level a o (levels_of gs)
      ≡ record { levels = levels_of (insert_group a o gs); next = levels_of (groups_after a o gs) }
unfolding insert_level insert_group groups_after skip
insert_level-groups a o [] = refl
insert_level-groups a o (g ∷ gs) = ground (arith, insert_level-groups a o gs)

place_front :
    (a : Addr) (gs : List Group) → place a (levels_of gs) (orders_of gs) ≡ a ∷ orders_of gs
unfolding place
place_front a [] = refl
place_front a (g ∷ gs) = ground arith

insert_before_skip :
    (a next : Addr) (xs os : List Addr)
    → NotIn next xs
    → insert_before a next (xs ++ os) ≡ xs ++ insert_before a next os
unfolding insert_before
insert_before_skip a next [] os n = refl
insert_before_skip a next (x ∷ xs) os n = ground (arith, insert_before_skip a next xs os)

-- The first orders of the groups do not stand in xs.
abbrev Apart : List Addr → List Group → Type 0
Apart xs [] = Unit {0}
Apart xs (g ∷ gs) = NotIn g.level.first_order xs × Apart xs gs

place_skip :
    (a : Addr) (xs os : List Addr) (gs : List Group)
    → Apart xs gs
    → place a (levels_of gs) (xs ++ os) ≡ xs ++ place a (levels_of gs) os
unfolding place
place_skip a xs os [] n = append_assoc xs os (a ∷ [])
place_skip a xs os (g ∷ gs) n = insert_before_skip a g.level.first_order xs os n.0

after-Apart :
    (xs : List Addr) (a : Addr) (o : Order) (gs : List Group)
    → Apart xs gs
    → Apart xs (groups_after a o gs)
unfolding groups_after
after-Apart xs a o [] n = tt
after-Apart xs a o (g ∷ gs) n = ground (arith, after-Apart xs a o gs)

-- Distinct orders of a group and of the later ones.
Apart-of_Distinct : (xs : List Addr) (gs : List Group) → Distinct (xs ++ orders_of gs) → Apart xs gs
Apart-of_Distinct xs [] d = tt
Apart-of_Distinct xs (g ∷ gs) d = (
  Distinct-NotIn_left g.level.first_order xs (g.rest ++ orders_of gs) d,
  Apart-of_Distinct xs gs (Distinct-drop_middle xs (members g) (orders_of gs) d),
)

pub orders-insert_group :
    (a : Addr) (o : Order) (gs : List Group)
    → Distinct (orders_of gs)
    → place a (levels_of (groups_after a o gs)) (orders_of gs) ≡ orders_of (insert_group a o gs)
unfolding insert_group groups_after new_level add_order
orders-insert_group a o [] d = place_front a []
orders-insert_group a o (g ∷ gs) d = elim (Bool-cases (ltb_ℤ g.level.key (order_key o))) [
  | inl below ↦
      rw (below, groups_after, insert_group)
        (place_skip a (members g) (orders_of gs) (groups_after a o gs)
            (after-Apart (members g) a o gs (Apart-of_Distinct (members g) gs d))
          ∙ ap (◌++◌ (members g))
              (orders-insert_group a o gs (Distinct-right (members g) (orders_of gs) d)))
  | inr not_below ↦ elim (Bool-cases (ltb_ℤ (order_key o) g.level.key)) [
    | inl above ↦ rw (not_below, above) (place_front a (g ∷ gs))
    | inr same ↦
        rw (not_below, same)
          (place_skip a (members g) (orders_of gs) gs (Apart-of_Distinct (members g) gs d)
            ∙ ap (◌++◌ (members g)) (place_front a gs)
            ∙ sym (append_assoc (members g) (a ∷ []) (orders_of gs)))
  ]
]
