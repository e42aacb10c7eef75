-- ===== src/Session.antt =====
-- include/swirly/fig/TraderSess.hpp, src/fig/TraderSess.cpp and the sets that a session owns: the
-- orders, trades and positions of one trader.
use swirlyc.Common.{
  Bool, true, false, Option, none, some, List, [], ◌∷◌, Ordering, compare, if◌then◌else◌, ◌==◌,
  length,
}
use swirlyc.Domain.{Iden, Jday}
use swirlyc.Text.{Str, compare_str}
use swirlyc.OrderedSet
use swirlyc.Order.{Addr, Cells, Order, Request}
use swirlyc.Exec.{Exec}
use swirlyc.Posn.{Posn, new_posn}
pub mod RefIndex
pub mod Keys

-- `TraderSess` with the fields of `Trader` and `Rec`.
pub record TraderSess : Type 0 where
  pub mnem : Str
  pub display : Str
  pub email : Str
  pub orders : List Addr
  pub trades : List Exec
  pub posns : List Posn
  pub ref_idx : List Addr

-- `RequestIdSet`: by market and identifier.
unfoldable pub compare_request : Request → Request → Ordering
compare_request a b = elim (compare_str a.market b.market) [
  | Ordering.lt ↦ Ordering.lt
  | Ordering.eq ↦ compare a.id b.id
  | Ordering.gt ↦ Ordering.gt
]

unfoldable pub compare_order : Cells → Addr → Addr → Ordering
unfolding compare_request
compare_order h a b = compare_request (h a).request (h b).request

unfoldable pub compare_exec : Exec → Exec → Ordering
unfolding compare_request
compare_exec a b = compare_request a.request b.request

-- `TraderPosnSet`: by contract and settlement day.
unfoldable pub compare_posn_key : Str × Jday → Str × Jday → Ordering
compare_posn_key (c, d) (c', d') = elim (compare_str c c') [
  | Ordering.lt ↦ Ordering.lt
  | Ordering.eq ↦ compare d d'
  | Ordering.gt ↦ Ordering.gt
]

abbrev pub posn_key : Posn → Str × Jday
posn_key p = (p.contr, p.settl_day)

unfoldable pub compare_posn : Posn → Posn → Ordering
unfolding compare_posn_key
compare_posn p q = compare_posn_key (posn_key p) (posn_key q)

-- `OrderRefSet::ValueCompare`. The set is searched by reference, but ordered by this.
unfoldable pub compare_ref_value : Cells → Addr → Addr → Ordering
compare_ref_value h a b = elim (compare_str (h a).contr (h b).contr) [
  | Ordering.lt ↦ Ordering.lt
  | Ordering.eq ↦ compare (h a).settl_day (h b).settl_day
  | Ordering.gt ↦ Ordering.gt
]

unfoldable pub is_empty : Str → Bool
is_empty s = length s == 0

unfoldable pub insert_order : Cells → Addr → TraderSess → TraderSess
unfolding OrderedSet.insert compare_order compare_ref_value is_empty
insert_order h a t = record t {
  orders = OrderedSet.insert (compare_order h) a t.orders;
  ref_idx =
      if is_empty (h a).ref then t.ref_idx else OrderedSet.insert (compare_ref_value h) a t.ref_idx;
}

unfoldable pub remove_order : Cells → Addr → TraderSess → TraderSess
unfolding OrderedSet.remove compare_order compare_ref_value is_empty
remove_order h a t = record t {
  orders = OrderedSet.remove (compare_order h) a t.orders;
  ref_idx =
      if is_empty (h a).ref then t.ref_idx else OrderedSet.remove (compare_ref_value h) a t.ref_idx;
}

unfoldable pub insert_trade : Exec → TraderSess → TraderSess
unfolding OrderedSet.insert compare_exec
insert_trade e t = record t { trades = OrderedSet.insert compare_exec e t.trades }

-- `removeOrder(const Exec&)`.
unfoldable pub remove_trade : Exec → TraderSess → TraderSess
unfolding OrderedSet.remove compare_exec
remove_trade e t = record t { trades = OrderedSet.remove compare_exec e t.trades }

unfoldable pub insert_posn : Posn → TraderSess → TraderSess
unfolding OrderedSet.insert compare_posn
insert_posn p t = record t { posns = OrderedSet.insert compare_posn p t.posns }

-- The position in a contract, which is opened if there is none. A position is pointed to by its
-- key, which is unique in the session.
unfoldable pub lazy_posn : Str → Jday → TraderSess → TraderSess
unfolding insert_posn
lazy_posn contr settl_day t = insert_posn (new_posn t.mnem contr settl_day) t

-- Write through a pointer to a position.
unfoldable pub modify_posn : Str → Jday → (Posn → Posn) → TraderSess → TraderSess
unfolding OrderedSet.modify compare_posn_key
modify_posn contr settl_day f t = record t {
  posns = OrderedSet.modify (λ p. compare_posn_key (contr, settl_day) (posn_key p)) f t.posns;
}
