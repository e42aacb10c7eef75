-- ===== src/Book/Level.antt =====
-- include/swirly/elm/Level.hpp and src/elm/Level.cpp: a price level, and the level set. The set is
-- the sequence of its levels in the order of their keys; an iterator is the sequence that is left.
use swirlyc.Common.{if◌then◌else◌, ℤ, pos, ◌+ℤ◌, ◌-ℤ◌, eqb_ℤ, ltb_ℤ, List, [], ◌∷◌, ◌++◌}
use swirlyc.Domain.{Lots, Ticks, compose_key}
use swirlyc.Order.{Order, Addr}

pub record Level : Type 0 where
  pub first_order : Addr
  pub key : ℤ
  pub ticks : Ticks
  pub resd : Lots
  pub count : ℤ

unfoldable pub order_key : Order → ℤ
order_key o = compose_key o.side o.ticks

-- The level of its first order, which stands at address a.
unfoldable pub new_level : Addr → Order → Level
unfolding order_key
new_level a o = record {
  first_order = a;
  key = order_key o;
  ticks = o.ticks;
  resd = o.resd;
  count = pos 1;
}

unfoldable pub set_first_order : Addr → Level → Level
set_first_order a l = record l { first_order = a }

unfoldable pub reduce : Lots → Level → Level
reduce delta l = record l { resd = l.resd -ℤ delta }

unfoldable pub add_order : Order → Level → Level
add_order o l = record l { resd = l.resd +ℤ o.resd; count = l.count +ℤ pos 1 }

unfoldable pub sub_order : Order → Level → Level
sub_order o l = record l { resd = l.resd -ℤ o.resd; count = l.count -ℤ pos 1 }

-- The set, and the levels behind the iterator that an insertion returns.
pub record Placed : Type 0 where
  pub levels : List Level
  pub next : List Level

unfoldable pub skip : Level → Placed → Placed
skip l p = record p { levels = l ∷ p.levels }

-- `findHint` walks to the first level whose key is not below the order's; the order opens a level
-- there, or joins the one with its key.
unfoldable pub insert_level : Addr → Order → List Level → Placed
insert_level a o [] = record { levels = new_level a o ∷ []; next = [] }
insert_level a o (l ∷ ls) =
    if ltb_ℤ l.key (order_key o)
    then skip l (insert_level a o ls)
    else if ltb_ℤ (order_key o) l.key
    then record { levels = new_level a o ∷ l ∷ ls; next = l ∷ ls }
    else record { levels = add_order o l ∷ ls; next = ls }

-- Write through a pointer to the level with key k.
unfoldable pub modify_level : ℤ → (Level → List Level) → List Level → List Level
modify_level k f [] = []
modify_level k f (l ∷ ls) = if eqb_ℤ l.key k then f l ++ ls else l ∷ modify_level k f ls
