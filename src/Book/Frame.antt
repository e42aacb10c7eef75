-- ===== src/Book/Frame.antt =====
-- src/elm/BookSide.cpp: what the operations of a side leave alone. Each writes to the one order
-- that it is given, and none changes a price.
use swirlyc.Common.{
  ◌==◌, eq_of_==, Bool-cases, ℤ, ltb_ℤ, ◌≡◌, refl, ap, ◌∙◌, false, inl, inr, some, none, Option,
  Option-cases, subst,
}
use swirlyc.Domain.{Lots, Millis}
use swirlyc.Order.{Addr, Cells, Order, modify, set_level, trade}
use swirlyc.Book.Level.{order_key}
use swirlyc.Book.Side
use swirlyc.Book.Side.{BookSide}
use swirlyc.Book.Groups.{modify_ne, modify_self}

-- Only the order at a is written to.
abbrev pub SameElse : Addr → Cells → Cells → Type 0
SameElse a h h' = (b : Addr) → (a == b) ≡ false → h' b ≡ h b

pub modify-SameElse : (a : Addr) (f : Order → Order) (h : Cells) → SameElse a h (modify a f h)
modify-SameElse a f h b n = modify_ne a b f h n

pub insert_order-SameElse :
    (a : Addr) (s : BookSide) (h : Cells) → SameElse a h (Side.insert_order a (s, h)).1
unfolding Side.insert_order
insert_order-SameElse a s h = modify-SameElse a (set_level (some (order_key (h a)))) h

pub reduce_level-SameElse :
    (k : ℤ) (a : Addr) (delta : Lots) (s : BookSide) (h : Cells)
    → SameElse a h (Side.reduce_level k a delta (s, h)).1
unfolding Side.reduce_level Side.leave_level
reduce_level-SameElse k a delta s h b n = elim (Bool-cases (ltb_ℤ delta (h a).resd)) [
  | inl more ↦ rw (more, Side.reduce_level)
  | inr all ↦ rw (all, Side.reduce_level) (modify_ne a b (set_level none) h n)
]

pub at_level-SameElse :
    (a : Addr) (f : ℤ → BookSide × Cells → BookSide × Cells) (s : BookSide) (h : Cells)
    → ((k : ℤ) → SameElse a h (f k (s, h)).1)
    → SameElse a h (Side.at_level a f (s, h)).1
unfolding Side.at_level
at_level-SameElse a f s h e b n = elim (Option-cases ((h a).level)) [
  | inl p ↦ rw (p, Side.at_level)
  | inr (k, p) ↦ rw (p, Side.at_level) (e k b n)
]

pub update_order-SameElse :
    (a : Addr) (f : Order → Order) (sh : BookSide × Cells) (h : Cells)
    → SameElse a h sh.1
    → SameElse a h (Side.update_order a f sh).1
unfolding Side.update_order
update_order-SameElse a f sh h e b n = modify_ne a b f sh.1 n ∙ e b n

pub take_order-SameElse :
    (a : Addr) (lots : Lots) (now : Millis) (s : BookSide) (h : Cells)
    → SameElse a h (Side.take_order a lots now (s, h)).1
unfolding Side.take_order
take_order-SameElse a lots now s h =
    update_order-SameElse a (λ o. trade lots o.ticks now o)
      (Side.at_level a (λ k. Side.reduce_level k a lots) (s, h)) h
      (at_level-SameElse a (λ k. Side.reduce_level k a lots) s h
        (λ k. reduce_level-SameElse k a lots s h))

-- No operation changes a price.
abbrev pub KeepsTicks : Cells → Cells → Type 0
KeepsTicks h h' = (x : Addr) → (h' x).ticks ≡ (h x).ticks

pub modify-KeepsTicks :
    (a : Addr) (f : Order → Order) (h : Cells)
    → ((o : Order) → (f o).ticks ≡ o.ticks)
    → KeepsTicks h (modify a f h)
modify-KeepsTicks a f h k x = elim (Bool-cases (a == x)) [
  | inl same ↦
      subst (λ y. (modify a f h y).ticks ≡ (h y).ticks) (eq_of_== a x same)
        (ap (λ (o : Order). o.ticks) (modify_self a f h) ∙ k (h a))
  | inr other ↦ ap (λ (o : Order). o.ticks) (modify_ne a x f h other)
]

set_level-ticks : (l : Option ℤ) (o : Order) → (set_level l o).ticks ≡ o.ticks
unfolding set_level
set_level-ticks l o = refl

trade-ticks : (lots : Lots) (now : Millis) (o : Order) → (trade lots o.ticks now o).ticks ≡ o.ticks
unfolding trade
trade-ticks lots now o = refl

pub insert_order-KeepsTicks :
    (a : Addr) (s : BookSide) (h : Cells) → KeepsTicks h (Side.insert_order a (s, h)).1
unfolding Side.insert_order
insert_order-KeepsTicks a s h =
    modify-KeepsTicks a (set_level (some (order_key (h a)))) h
      (set_level-ticks (some (order_key (h a))))

pub leave_level-KeepsTicks :
    (k : ℤ) (a : Addr) (s : BookSide) (h : Cells) → KeepsTicks h (Side.leave_level k a (s, h)).1
unfolding Side.leave_level
leave_level-KeepsTicks k a s h = modify-KeepsTicks a (set_level none) h (set_level-ticks none)

pub reduce_level-KeepsTicks :
    (k : ℤ) (a : Addr) (delta : Lots) (s : BookSide) (h : Cells)
    → KeepsTicks h (Side.reduce_level k a delta (s, h)).1
unfolding Side.reduce_level
reduce_level-KeepsTicks k a delta s h x = elim (Bool-cases (ltb_ℤ delta (h a).resd)) [
  | inl more ↦ rw (more, Side.reduce_level)
  | inr all ↦ rw (all, Side.reduce_level) (leave_level-KeepsTicks k a s h x)
]

pub at_level-KeepsTicks :
    (a : Addr) (f : ℤ → BookSide × Cells → BookSide × Cells) (s : BookSide) (h : Cells)
    → ((k : ℤ) → KeepsTicks h (f k (s, h)).1)
    → KeepsTicks h (Side.at_level a f (s, h)).1
unfolding Side.at_level
at_level-KeepsTicks a f s h e x = elim (Option-cases ((h a).level)) [
  | inl p ↦ rw (p, Side.at_level)
  | inr (k, p) ↦ rw (p, Side.at_level) (e k x)
]

pub take_order-KeepsTicks :
    (a : Addr) (lots : Lots) (now : Millis) (s : BookSide) (h : Cells)
    → KeepsTicks h (Side.take_order a lots now (s, h)).1
unfolding Side.take_order Side.update_order
take_order-KeepsTicks a lots now s h x =
    modify-KeepsTicks a (λ o. trade lots o.ticks now o)
      (Side.at_level a (λ k. Side.reduce_level k a lots) (s, h)).1 (trade-ticks lots now) x
    ∙ at_level-KeepsTicks a (λ k. Side.reduce_level k a lots) s h
        (λ k. reduce_level-KeepsTicks k a lots s h) x

pub remove_order-KeepsTicks :
    (a : Addr) (s : BookSide) (h : Cells) → KeepsTicks h (Side.remove_order a (s, h)).1
unfolding Side.remove_order
remove_order-KeepsTicks a s h =
    at_level-KeepsTicks a (λ k. Side.leave_level k a) s h (λ k. leave_level-KeepsTicks k a s h)

pub remove_order-SameElse :
    (a : Addr) (s : BookSide) (h : Cells) → SameElse a h (Side.remove_order a (s, h)).1
unfolding Side.remove_order Side.leave_level
remove_order-SameElse a s h =
    at_level-SameElse a (λ k. Side.leave_level k a) s h (λ k. modify-SameElse a (set_level none) h)
