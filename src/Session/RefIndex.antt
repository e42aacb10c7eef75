-- ===== src/Session/RefIndex.antt =====
-- include/swirly/elm/Order.hpp, `OrderRefSet`: the index of a session's orders by reference, which
-- is searched by reference, but keeps one order only for each contract and settlement day.
use swirlyc.Common.{
  ◌≡◌, ◌≢◌, refl, ◌∙◌, List, [], ◌∷◌, Option, none, Ordering, compare, arith, inl, inr, ap,
  Bool-cases,
}
use swirlyc.Text.{Str, compare_str}
use swirlyc.Text.Order.{compare_str_refl, eq_of_compare_str}
use swirlyc.Order.{Addr, Cells}
use swirlyc.OrderedSet
use swirlyc.OrderedSet.Laws.{Ordering-cases}
use swirlyc.Session.{TraderSess, insert_order, compare_ref_value, is_empty}

-- `OrderRefSet::find`.
unfoldable pub find_ref : Cells → Str → List Addr → Option Addr
unfolding OrderedSet.find
find_ref h ref os = OrderedSet.find (λ a. compare_str ref (h a).ref) os

compare_refl : (n : _) → compare n n ≡ Ordering.eq
compare_refl n = ground arith

-- Orders for one contract and settlement day are one to the index.
compare_ref_value_same :
    (h : Cells) (a b : Addr)
    → (h a).contr ≡ (h b).contr
    → (h a).settl_day ≡ (h b).settl_day
    → compare_ref_value h a b ≡ Ordering.eq
unfolding compare_ref_value
compare_ref_value_same h a b e e' =
    let c : compare_str (h a).contr (h b).contr ≡ Ordering.eq =
      ap (λ s. compare_str s (h b).contr) e ∙ compare_str_refl (h b).contr in
    let d : compare (h a).settl_day (h b).settl_day ≡ Ordering.eq =
      ap (λ n. compare n (h b).settl_day) e' ∙ compare_refl (h b).settl_day in
    rw (c, compare_ref_value) d

insert_same :
    (cmp : Addr → Addr → Ordering) (a b : Addr)
    → cmp a b ≡ Ordering.eq
    → OrderedSet.insert cmp a (b ∷ []) ≡ b ∷ []
unfolding OrderedSet.insert
insert_same cmp a b e = rw (e, OrderedSet.insert) refl

find_other : (h : Cells) (ref : Str) (b : Addr) → ref ≢ (h b).ref → find_ref h ref (b ∷ []) ≡ none
unfolding find_ref OrderedSet.find
find_other h ref b n = elim (Ordering-cases (compare_str ref (h b).ref)) [
  | inl (inl lt) ↦ rw (lt, find_ref, OrderedSet.find) refl
  | inl (inr same) ↦ absurd (n (eq_of_compare_str ref (h b).ref same))
  | inr gt ↦ rw (gt, find_ref, OrderedSet.find) refl
]

-- When a session's only indexed order has the contract and settlement day of a new order, but
-- another reference, then the new order is not found by its reference after its insertion.
pub insert_order_not_found :
    (h : Cells) (a b : Addr) (t : TraderSess)
    → t.ref_idx ≡ b ∷ []
    → (h a).contr ≡ (h b).contr
    → (h a).settl_day ≡ (h b).settl_day
    → (h a).ref ≢ (h b).ref
    → find_ref h (h a).ref (insert_order h a t).ref_idx ≡ none
unfolding insert_order
insert_order_not_found h a b t idx e e' n =
    let kept : OrderedSet.insert (compare_ref_value h) a t.ref_idx ≡ b ∷ [] =
      ap (OrderedSet.insert (compare_ref_value h) a) idx
      ∙ insert_same (compare_ref_value h) a b (compare_ref_value_same h a b e e') in
    elim (Bool-cases (is_empty (h a).ref)) [
      | inl none_given ↦
          rw (none_given, insert_order) (ap (find_ref h (h a).ref) idx ∙ find_other h (h a).ref b n)
      | inr given ↦
          rw (given, insert_order) (ap (find_ref h (h a).ref) kept ∙ find_other h (h a).ref b n)
    ]
