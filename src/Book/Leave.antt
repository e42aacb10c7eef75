-- ===== src/Book/Leave.antt =====
-- src/elm/BookSide.cpp, `removeOrder`: the groups of a side without an order.
use swirlyc.Common.{
  ℕ, suc, ◌==◌, eq_of_==, Bool-cases, ℤ, pos, ◌-ℤ◌, ◌<ℤ◌, eqb_ℤ, eqb_ℤ_of_eq, ne_of_lt_ℤ, ◌≡◌, refl,
  sym, ap, ◌∙◌, true, false, List, [], ◌∷◌, ◌++◌, All, All-append, length, arith, append_assoc, inl,
  inr, some, Option, subst, if◌then◌else◌,
}
use swirlyc.Domain.{Side}
use swirlyc.Order.{Addr, Cells, Order}
use swirlyc.Book.Level.{Level, sub_order, set_first_order, modify_level}
use swirlyc.Book.Side.{remove, next_order, settle}
use swirlyc.Book.Distinct.{
  NotIn, has, NotIn-of_has, has-append_right, All-has, remove-append, remove_skip, next_order_skip,
}
use swirlyc.Book.Groups.{Group, members, levels_of, orders_of, IsGroup, Above, Ascending}

-- A group with these members, if there are any.
unfoldable pub group_of : Level → List Addr → List Group
group_of l [] = []
group_of l (b ∷ os) = record { level = set_first_order b l; rest = os } ∷ []

orders_of-group_of :
    (l : Level) (os : List Addr) (gs : List Group)
    → orders_of (group_of l os ++ gs) ≡ os ++ orders_of gs
unfolding group_of set_first_order
orders_of-group_of l [] gs = refl
orders_of-group_of l (b ∷ os) gs = refl

levels_of-append : (xs ys : List Group) → levels_of (xs ++ ys) ≡ levels_of xs ++ levels_of ys
levels_of-append [] ys = refl
levels_of-append (g ∷ xs) ys = ap (◌∷◌ g.level) (levels_of-append xs ys)

pub group_of-Above : (j : ℤ) (l : Level) (os : List Addr) → j <ℤ l.key → Above j (group_of l os)
unfolding group_of set_first_order
group_of-Above j l [] lt = tt
group_of-Above j l (b ∷ os) lt = (lt, tt)

pub group_of-Ascending :
    (l : Level) (os : List Addr) (gs : List Group)
    → Above l.key gs
    → Ascending gs
    → Ascending (group_of l os ++ gs)
unfolding group_of set_first_order
group_of-Ascending l [] gs up asc = asc
group_of-Ascending l (b ∷ os) gs up asc = (up, asc)

unfoldable pub leave_group : ℤ → Addr → Order → List Group → List Group
leave_group k a o [] = []
leave_group k a o (g ∷ gs) =
    if eqb_ℤ g.level.key k
    then group_of (sub_order o g.level) (remove a (members g)) ++ gs
    else g ∷ leave_group k a o gs

some_inj : {j k : ℤ} → ◌≡◌ {A = Option ℤ} (some j) (some k) → j ≡ k
some_inj e = cc

-- The order at a rests in this group, so the pointer k is to its level.
pub key_of_member :
    (h : Cells) (side : Side) (a : Addr) (k : ℤ) (g : Group)
    → IsGroup h side g
    → has a (members g) ≡ true
    → (h a).level ≡ some k
    → g.level.key ≡ k
key_of_member h side a k g v m e = some_inj (sym (All-has _ a (members g) v.rests m).level_eq ∙ e)

-- It rests in a later group, so the pointer is to a later level.
pub key_of_later :
    (h : Cells) (side : Side) (a : Addr) (j k : ℤ) (gs : List Group)
    → All (IsGroup h side) gs
    → Above j gs
    → has a (orders_of gs) ≡ true
    → (h a).level ≡ some k
    → j <ℤ k
unfolding has
key_of_later h side a j k [] v up m e = cc
key_of_later h side a j k (g ∷ gs) v up m e = elim (Bool-cases (has a (members g))) [
  | inl here ↦ subst (λ i. j <ℤ i) (key_of_member h side a k g v.0 here e) up.0
  | inr later ↦
      key_of_later h side a j k gs v.1 up.1 (has-append_right a (members g) (orders_of gs) m later)
        e
]

count_one : (c : ℤ) → c ≡ pos 1 → eqb_ℤ (c -ℤ pos 1) (pos 0) ≡ true
unfolding ◌-ℤ◌
count_one c e = ground arith

count_more : (c : ℤ) (n : ℕ) → c ≡ pos (suc (suc n)) → eqb_ℤ (c -ℤ pos 1) (pos 0) ≡ false
unfolding ◌-ℤ◌
count_more c n e = ground arith

next_order_first :
    (a f y : Addr) (pre ys : List Addr) → f ≡ a → NotIn a pre → next_order a (pre ++ f ∷ y ∷ ys) ≡ y
next_order_first a f y pre ys e n = rw e (next_order_skip a y pre ys n)

-- `settle` on a level that counts its orders leaves the level of the orders that stay.
settle-group :
    (a : Addr) (o : Order) (l : Level) (rest os pre post : List Addr)
    → os ≡ pre ++ ((l.first_order ∷ rest) ++ post)
    → NotIn a pre
    → has a (l.first_order ∷ rest) ≡ true
    → l.count ≡ pos (suc (length rest))
    → settle a os (sub_order o l)
      ≡ levels_of (group_of (sub_order o l) (remove a (l.first_order ∷ rest)))
unfolding settle sub_order group_of remove set_first_order has
settle-group a o l [] os pre post e n m c = rw (count_one l.count c) (ground arith)
settle-group a o l (y ∷ ys) os pre post e n m c =
    rw (count_more l.count (length ys) c) (elim (Bool-cases (a == l.first_order)) [
      | inl same ↦
          let f : l.first_order ≡ a = sym (eq_of_== a l.first_order same) in
          ground (arith, next_order_first a l.first_order y pre (ys ++ post) f n)
      | inr other ↦ ground arith
    ])

pub modify_level-leave :
    (h : Cells) (side : Side) (a : Addr) (k : ℤ) (gs : List Group) (os pre : List Addr)
    → os ≡ pre ++ orders_of gs
    → NotIn a pre
    → has a (orders_of gs) ≡ true
    → (h a).level ≡ some k
    → All (IsGroup h side) gs
    → Ascending gs
    → modify_level k (λ l. settle a os (sub_order (h a) l)) (levels_of gs)
      ≡ levels_of (leave_group k a (h a) gs)
unfolding modify_level leave_group has
modify_level-leave h side a k [] os pre e n m p v asc = refl
modify_level-leave h side a k (g ∷ gs) os pre e n m p v asc =
    elim (Bool-cases (has a (members g))) [
      | inl here ↦ rw (eqb_ℤ_of_eq g.level.key k (key_of_member h side a k g v.0 here p)) (
          ap (λ ls. ls ++ levels_of gs)
            (settle-group a (h a) g.level g.rest os pre (orders_of gs) e n here v.0.count_eq)
          ∙ sym (levels_of-append (group_of (sub_order (h a) g.level) (remove a (members g))) gs))
      | inr later ↦
          let m' : has a (orders_of gs) ≡ true =
            has-append_right a (members g) (orders_of gs) m later in
          rw (ne_of_lt_ℤ g.level.key k (key_of_later h side a g.level.key k gs v.1 asc.0 m' p)) (
            ap (◌∷◌ g.level) (
              modify_level-leave h side a k gs os (pre ++ members g)
                (e ∙ sym (append_assoc pre (members g) (orders_of gs)))
                (All-append _ pre (members g) n (NotIn-of_has a (members g) later)) m' p v.1 asc.1))
    ]

pub remove-leave :
    (h : Cells) (side : Side) (a : Addr) (k : ℤ) (gs : List Group)
    → has a (orders_of gs) ≡ true
    → (h a).level ≡ some k
    → All (IsGroup h side) gs
    → Ascending gs
    → remove a (orders_of gs) ≡ orders_of (leave_group k a (h a) gs)
unfolding leave_group has
remove-leave h side a k [] m p v asc = cc
remove-leave h side a k (g ∷ gs) m p v asc = elim (Bool-cases (has a (members g))) [
  | inl here ↦ rw (eqb_ℤ_of_eq g.level.key k (key_of_member h side a k g v.0 here p)) (
      remove-append a (members g) (orders_of gs) here
      ∙ sym (orders_of-group_of (sub_order (h a) g.level) (remove a (members g)) gs))
  | inr later ↦
      let m' : has a (orders_of gs) ≡ true =
        has-append_right a (members g) (orders_of gs) m later in
      rw (ne_of_lt_ℤ g.level.key k (key_of_later h side a g.level.key k gs v.1 asc.0 m' p)) (
        remove_skip a (members g) (orders_of gs) (NotIn-of_has a (members g) later)
        ∙ ap (◌++◌ (members g)) (remove-leave h side a k gs m' p v.1 asc.1))
]
