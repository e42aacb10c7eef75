-- ===== src/Session/Keys.antt =====
-- include/swirly/elm/Request.hpp and include/swirly/elm/Posn.hpp: the comparisons of the sets are
-- orders on the keys.
use swirlyc.Common.{ℕ, ◌≡◌, refl, Ordering, compare}
use swirlyc.Domain.{Iden, Jday}
use swirlyc.Text.{Str, compare_str}
use swirlyc.Text.Order.{compare_str-IsOrder}
use swirlyc.Order.{Request}
use swirlyc.OrderedSet.Laws.{IsOrder, compare_pair, pair-IsOrder, compare-IsOrder}
use swirlyc.Session.{compare_request, compare_posn_key}

abbrev pub request_key : Request → Str × Iden
request_key r = (r.market, r.id)

abbrev pub compare_key : Str × ℕ → Str × ℕ → Ordering
compare_key = compare_pair compare_str compare

pub compare_key-IsOrder : IsOrder compare_key
compare_key-IsOrder = pair-IsOrder compare_str compare compare_str-IsOrder compare-IsOrder

pub compare_request-key :
    (a b : Request) → compare_request a b ≡ compare_key (request_key a) (request_key b)
unfolding compare_request
compare_request-key a b = refl

pub compare_posn_key_lem : (p q : Str × Jday) → compare_posn_key p q ≡ compare_key p q
unfolding compare_posn_key
compare_posn_key_lem (c, d) (c', d') = refl
