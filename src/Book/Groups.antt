-- ===== src/Book/Groups.antt =====
-- The invariant of one side of the book: the order list falls into groups, one to a level, in the
-- order of the levels' keys; each level sums up its group.
use swirlyc.Common.{
  ◌==◌, ℤ, pos, ◌+ℤ◌, ◌<ℤ◌, ◌≡◌, refl, sym, ap, ap₂, ◌∙◌, false, List, [], ◌∷◌, ◌++◌, some, All,
  length, All-map, All-append_left, All-append_right, arith, subst,
}
use swirlyc.Domain.{Side, compose_key}
use swirlyc.Order.{Addr, Cells, Order, modify}
use swirlyc.Book.Level.{Level}
use swirlyc.Book.Side.{BookSide}
use swirlyc.Book.Distinct.{NotIn, Distinct}

-- A level with the orders behind its first one.
pub record Group : Type 0 where
  pub level : Level
  pub rest : List Addr

abbrev pub members : Group → List Addr
members g = g.level.first_order ∷ g.rest

abbrev pub levels_of : List Group → List Level
levels_of [] = []
levels_of (g ∷ gs) = g.level ∷ levels_of gs

abbrev pub orders_of : List Group → List Addr
orders_of [] = []
orders_of (g ∷ gs) = members g ++ orders_of gs

abbrev pub sum_resd : Cells → List Addr → ℤ
sum_resd h [] = pos 0
sum_resd h (a ∷ os) = (h a).resd +ℤ sum_resd h os

-- An order that rests at level l of a side.
pub record RestsAt (side : Side) (l : Level) (o : Order) : Type 0 where
  pub level_eq : o.level ≡ some l.key
  pub side_eq : o.side ≡ side
  pub ticks_eq : o.ticks ≡ l.ticks
  pub resd_pos : pos 0 <ℤ o.resd

pub record IsGroup (h : Cells) (side : Side) (g : Group) : Type 0 where
  pub key_eq : g.level.key ≡ compose_key side g.level.ticks
  pub rests : All (λ a. RestsAt side g.level (h a)) (members g)
  pub resd_eq : g.level.resd ≡ sum_resd h (members g)
  pub count_eq : g.level.count ≡ pos (length (members g))

-- Each later key is greater.
abbrev pub Above : ℤ → List Group → Type 0
Above k gs = All (λ g. k <ℤ g.level.key) gs

abbrev pub Ascending : List Group → Type 0
Ascending [] = Unit {0}
Ascending (g ∷ gs) = Above g.level.key gs × Ascending gs

pub record IsGrouped (h : Cells) (side : Side) (gs : List Group) : Type 0 where
  pub groups : All (IsGroup h side) gs
  pub ascending : Ascending gs
  pub distinct : Distinct (orders_of gs)

-- The side's two containers are read off its groups.
pub record IsSide (h : Cells) (side : Side) (s : BookSide) : Type 0 where
  pub groups : List Group
  pub levels_eq : s.levels ≡ levels_of groups
  pub orders_eq : s.orders ≡ orders_of groups
  pub grouped : IsGrouped h side groups

pub modify_self : (a : Addr) (f : Order → Order) (h : Cells) → modify a f h a ≡ f (h a)
unfolding modify
modify_self a f h = ground arith

pub modify_ne :
    (a b : Addr) (f : Order → Order) (h : Cells) → (a == b) ≡ false → modify a f h b ≡ h b
unfolding modify
modify_ne a b f h e = ground arith

-- Two stores that agree on a group's orders agree on the group.
abbrev pub Agree : Cells → Cells → List Addr → Type 0
Agree h h' os = All (λ a. h' a ≡ h a) os

pub modify-Agree :
    (a : Addr) (f : Order → Order) (h : Cells) (os : List Addr)
    → NotIn a os
    → Agree h (modify a f h) os
modify-Agree a f h os n = All-map _ _ os (λ b e. modify_ne a b f h e) n

pub sum_resd-Agree :
    (h h' : Cells) (os : List Addr) → Agree h h' os → sum_resd h' os ≡ sum_resd h os
sum_resd-Agree h h' [] g = refl
sum_resd-Agree h h' (a ∷ os) g =
    ap₂ ◌+ℤ◌ (ap (λ (o : Order). o.resd) g.0) (sum_resd-Agree h h' os g.1)

pub rests-Agree :
    (side : Side) (l : Level) (h h' : Cells) (os : List Addr)
    → Agree h h' os
    → All (λ a. RestsAt side l (h a)) os
    → All (λ a. RestsAt side l (h' a)) os
rests-Agree side l h h' [] g r = tt
rests-Agree side l h h' (a ∷ os) g r =
    (subst (RestsAt side l) (sym g.0) r.0, rests-Agree side l h h' os g.1 r.1)

-- Only the key and the price of the level matter.
pub rests-level :
    (side : Side) (l l' : Level) (h : Cells) (os : List Addr)
    → l'.key ≡ l.key
    → l'.ticks ≡ l.ticks
    → All (λ a. RestsAt side l (h a)) os
    → All (λ a. RestsAt side l' (h a)) os
rests-level side l l' h os k t r =
    All-map _ _ os
      (λ b v. record {
        level_eq = v.level_eq ∙ ap some (sym k);
        side_eq = v.side_eq;
        ticks_eq = v.ticks_eq ∙ sym t;
        resd_pos = v.resd_pos;
      })
      r

pub IsGroup-Agree :
    (h h' : Cells) (side : Side) (g : Group)
    → Agree h h' (members g)
    → IsGroup h side g
    → IsGroup h' side g
IsGroup-Agree h h' side g e v = record {
  key_eq = v.key_eq;
  rests = rests-Agree side g.level h h' (members g) e v.rests;
  resd_eq = v.resd_eq ∙ sym (sum_resd-Agree h h' (members g) e);
  count_eq = v.count_eq;
}

pub groups-Agree :
    (h h' : Cells) (side : Side) (gs : List Group)
    → Agree h h' (orders_of gs)
    → All (IsGroup h side) gs
    → All (IsGroup h' side) gs
groups-Agree h h' side [] e v = tt
groups-Agree h h' side (g ∷ gs) e v = (
  IsGroup-Agree h h' side g (All-append_left _ (members g) (orders_of gs) e) v.0,
  groups-Agree h h' side gs (All-append_right _ (members g) (orders_of gs) e) v.1,
)
