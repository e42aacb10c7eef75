-- ===== src/RestServ/Records.antt =====
-- src/swirlyd/RestServ.cpp: the handlers below /api/rec.
use swirlyc.Common.{not, Option, none, some, if◌then◌else◌}
use swirlyc.Text.{Str}
use swirlyc.Tokeniser.{Tokeniser, empty, top, pop}
use swirlyc.Bits.{Bits, zeros, or, and, nonzero, bits_eq}
use swirlyc.EntitySet.{asset_bit, contr_bit, market_bit, trader_bit, many, parse}
use swirlyc.Exception.{Exception, ok, throw}
use swirlyc.RestRequest
use swirlyc.RestRequest.{RestRequest, valid, has_fields}
use swirlyc.RestServ.{
  Call, Query, Reply, no_match, path_only, calls, throws, throws_early, get_only, on_method,
}

-- `assetRequest`.
unfoldable pub asset_request : Query → Tokeniser → Reply
unfolding empty top pop
asset_request q t =
    if empty t
    then get_only q Call.get_assets
    else if empty (pop b'/' t)
    then get_only q (Call.get_asset (top t))
    else no_match

-- `contrRequest`.
unfoldable pub contr_request : Query → Tokeniser → Reply
unfolding empty top pop
contr_request q t =
    if empty t
    then get_only q Call.get_contrs
    else if empty (pop b'/' t)
    then get_only q (Call.get_contr (top t))
    else no_match

-- `reqFields` and `optFields`.
abbrev pub post_market_required : Bits
post_market_required = or (or RestRequest.mnem_bit RestRequest.display_bit) RestRequest.contr_bit

abbrev pub post_market_optional : Bits
post_market_optional =
    or (or RestRequest.settl_date_bit RestRequest.expiry_date_bit) RestRequest.state_bit

abbrev pub put_market_optional : Bits
put_market_optional = or RestRequest.display_bit RestRequest.state_bit

abbrev pub post_trader_required : Bits
post_trader_required = or RestRequest.mnem_bit RestRequest.display_bit

-- The body of POST /api/rec/market.
unfoldable pub post_market_request : RestRequest → Reply
unfolding valid
post_market_request r =
    if not (valid post_market_required post_market_optional r)
    then throws Exception.invalid
    else calls (Call.post_market r.mnem r.display r.contr r.settl_date r.expiry_date r.state)

-- A field's value, where the field is given.
abbrev pub given {ℓ} : {A : Type ℓ} → RestRequest → Bits → A → Option A
given r b a = if nonzero (and r.fields b) then some a else none

-- The body of PUT /api/rec/market/MNEM.
unfoldable pub put_market_request : Str → RestRequest → Reply
unfolding valid
put_market_request mnem r =
    if not (valid (zeros 32) put_market_optional r)
    then throws Exception.invalid
    else calls (
        Call.put_market mnem (given r RestRequest.display_bit r.display)
          (given r RestRequest.state_bit r.state))

-- `marketRequest`.
unfoldable pub market_request : Query → Tokeniser → Reply
unfolding empty top pop post_market_request put_market_request
market_request q t =
    if empty t
    then on_method q.method (calls Call.get_markets) (post_market_request q.request) path_only
        path_only
    else if empty (pop b'/' t)
    then on_method q.method (calls (Call.get_market (top t))) path_only
        (put_market_request (top t) q.request) path_only
    else no_match

-- The body of POST /api/rec/trader.
unfoldable pub post_trader_request : RestRequest → Reply
unfolding valid
post_trader_request r =
    if not (valid post_trader_required RestRequest.email_bit r)
    then throws Exception.invalid
    else calls (Call.post_trader r.mnem r.display r.email)

-- The body of PUT /api/rec/trader/MNEM.
unfoldable pub put_trader_request : Str → RestRequest → Reply
unfolding has_fields
put_trader_request mnem r =
    if not (has_fields RestRequest.display_bit r)
    then throws Exception.invalid
    else calls (Call.put_trader mnem r.display)

-- `traderRequest`.
unfoldable pub trader_request : Query → Tokeniser → Reply
unfolding empty top pop post_trader_request put_trader_request
trader_request q t =
    if empty t
    then on_method q.method (calls Call.get_traders) (post_trader_request q.request) path_only
        path_only
    else if empty (pop b'/' t)
    then on_method q.method (calls (Call.get_trader (top t))) path_only
        (put_trader_request (top t) q.request) path_only
    else no_match

-- The switch of `recRequest` on a set that has not many entities.
unfoldable pub rec_entity : Query → Bits → Tokeniser → Reply
unfolding asset_request contr_request market_request trader_request
rec_entity q es t =
    if bits_eq es asset_bit
    then asset_request q t
    else if bits_eq es contr_bit
    then contr_request q t
    else if bits_eq es market_bit
    then market_request q t
    else if bits_eq es trader_bit
    then trader_request q t
    else no_match

-- `recRequest`.
unfoldable pub rec_request : Query → Tokeniser → Reply
unfolding empty top pop parse many rec_entity
rec_request q t =
    if empty t
    then get_only q (Call.get_rec (or (or asset_bit contr_bit) market_bit))
    else elim (parse (top t)) [
      | throw e ↦ throws_early e
      | ok es ↦
          if many es
          then (if empty (pop b'/' t) then get_only q (Call.get_rec es) else no_match)
          else rec_entity q es (pop b'/' t)
    ]
