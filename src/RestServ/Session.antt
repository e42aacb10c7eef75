-- ===== src/RestServ/Session.antt =====
-- src/swirlyd/RestServ.cpp: the handlers below /api/sess.
use swirlyc.Common.{ℕ, ℤ, ◌%◌, Bool, true, false, not, List, [], ◌∷◌, if◌then◌else◌}
use swirlyc.Domain.{Iden}
use swirlyc.Text.{Str}
use swirlyc.Text.Number.{stou64}
use swirlyc.Tokeniser.{Tokeniser, empty, top, pop}
use swirlyc.Bits.{Bits, or, bits_eq}
use swirlyc.EntitySet.{order_bit, trade_bit, posn_bit, view_bit, many, parse}
use swirlyc.Exception.{Exception, ok, throw}
use swirlyc.RestRequest
use swirlyc.RestRequest.{RestRequest, valid}
use swirlyc.RestRequest.Actions.{signed32}
use swirlyc.RestServ.{
  Call, Query, Reply, no_match, path_only, calls, throws, throws_early, faults, get_only, on_method,
  parse_ids, view_request,
}

-- `header(...).empty()`.
abbrev pub is_empty : Str → Bool
is_empty [] = true
is_empty (c ∷ s) = false

-- `reqFields` and `optFields`.
abbrev pub post_order_required : Bits
post_order_required = or (or RestRequest.side_bit RestRequest.lots_bit) RestRequest.ticks_bit

abbrev pub post_order_optional : Bits
post_order_optional = or RestRequest.ref_bit RestRequest.min_lots_bit

-- The body of POST /api/sess/order/MARKET.
unfoldable pub post_order_request : Str → Query → Reply
unfolding valid
post_order_request market q =
    let r = q.request in
    if is_empty q.user
    then throws Exception.unauthorized
    else if not (valid post_order_required post_order_optional r)
    then throws Exception.invalid
    else calls (Call.post_order q.user market r.ref r.side r.lots r.ticks r.min_lots)

-- A call with `ids_[0]`.
abbrev pub with_first : (Iden → Call) → List Iden → Reply
with_first f [] = faults
with_first f (i ∷ is) = calls (f i)

-- A call with `ids()`, which takes the address of `ids_[0]`.
abbrev pub with_all : (List Iden → Call) → List Iden → Reply
with_all f [] = faults
with_all f (i ∷ is) = calls (f (i ∷ is))

-- The last part of `orderRequest` and of `tradeRequest`, where identifiers are given.
unfoldable pub order_ids_request : Query → Str → List Iden → Reply
order_ids_request q market ids =
    on_method q.method (with_first (Call.get_order market) ids) path_only
      (with_all (Call.put_order market) ids) (with_all (Call.delete_order market) ids)

unfoldable pub trade_ids_request : Query → Str → List Iden → Reply
trade_ids_request q market ids =
    on_method q.method (with_first (Call.get_trade market) ids) path_only path_only
      (with_all (Call.delete_trade market) ids)

-- `orderRequest`.
unfoldable pub order_request : Query → Tokeniser → Reply
unfolding empty top pop post_order_request parse_ids order_ids_request
order_request q t =
    let t' = pop b'/' t in
    if empty t
    then get_only q Call.get_orders
    else if empty t'
    then on_method q.method (calls (Call.get_market_orders (top t))) (post_order_request (top t) q)
        path_only path_only
    else if empty (pop b'/' t')
    then order_ids_request q (top t) (parse_ids (top t'))
    else no_match

-- `tradeRequest`.
unfoldable pub trade_request : Query → Tokeniser → Reply
unfolding empty top pop parse_ids trade_ids_request
trade_request q t =
    let t' = pop b'/' t in
    if empty t
    then get_only q Call.get_trades
    else if empty t'
    then on_method q.method (calls (Call.get_market_trades (top t)))
        (calls (Call.post_trade (top t))) path_only path_only
    else if empty (pop b'/' t')
    then trade_ids_request q (top t) (parse_ids (top t'))
    else no_match

-- `box<IsoDate>` of a number keeps 32 bits, and a sign.
abbrev pub iso_date : ℕ → ℤ
iso_date n = signed32 (n % 4294967296)

-- `posnRequest`.
unfoldable pub posn_request : Query → Tokeniser → Reply
unfolding empty top pop stou64
posn_request q t =
    let t' = pop b'/' t in
    if empty t
    then get_only q Call.get_posns
    else if empty t'
    then get_only q (Call.get_contr_posns (top t))
    else if empty (pop b'/' t')
    then get_only q (Call.get_posn (top t) (iso_date (stou64 (top t'))))
    else no_match

-- The switch of `sessRequest` on a set that has not many entities.
unfoldable pub sess_entity : Query → Bits → Tokeniser → Reply
unfolding order_request trade_request posn_request view_request
sess_entity q es t =
    if bits_eq es order_bit
    then order_request q t
    else if bits_eq es trade_bit
    then trade_request q t
    else if bits_eq es posn_bit
    then posn_request q t
    else if bits_eq es view_bit
    then view_request q t
    else no_match

-- `sessRequest`.
unfoldable pub sess_request : Query → Tokeniser → Reply
unfolding empty top pop parse many sess_entity
sess_request q t =
    if empty t
    then get_only q (Call.get_sess (or (or (or order_bit trade_bit) posn_bit) view_bit))
    else elim (parse (top t)) [
      | throw e ↦ throws_early e
      | ok es ↦
          if many es
          then (if empty (pop b'/' t) then get_only q (Call.get_sess es) else no_match)
          else sess_entity q es (pop b'/' t)
    ]
