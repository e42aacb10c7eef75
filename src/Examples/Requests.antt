-- ===== src/Examples/Requests.antt =====
-- The theorems on the interface at concrete messages. The parser of bodies gives one request, the
-- business day is fixed, and the journal accepts.
use swirlyc.Common.{length, ◌≤◌, ap, subst, arith, ◌≡◌, refl, true, [], Option, some, pos}
use swirlyc.Domain.{Jday, Millis, Side}
use swirlyc.Text.{Str, codes, str_eq}
use swirlyc.Tokeniser.{reset, empty, top, pop}
use swirlyc.Exception.{Exception, Result, ok, kind_of, http_status}
use swirlyc.Bits.{or}
use swirlyc.RestRequest
use swirlyc.RestRequest.{RestRequest, valid}
use swirlyc.Rest.{Journal, Engine, perform, find_asset}
use swirlyc.Registry.Maintain.{create_trader}
use swirlyc.Registry.{find_trader, find_email, is_mnem, insert_trader}
use swirlyc.Rec.{new_trader, trader_rec, new_rec}
use swirlyc.EntitySet.{parse, many}
use swirlyc.RestServ.{calls, method_of}
use swirlyc.RestServ.Records.{
  rec_request, rec_entity, trader_request, post_trader_request, asset_request,
}
use swirlyc.RestServ.Route.{rest_request}
use swirlyc.RestServ.Http.{
  Message, Answer, answered, checked, http_request, api_request, read_body, run,
}
use swirlyc.RestServ.Answers.{
  AnsweredBy, engine_after, http_request-ok, http_request-failed, http_request-get,
}
use swirlyc.RestServ.Orders.{http_request-order, order_call}
use swirlyc.Examples.Market.{cells}
use swirlyc.Examples.Records.{no_records, one_trader}

abbrev trader_body : RestRequest
trader_body = record RestRequest.reset {
  fields = or (or RestRequest.mnem_bit RestRequest.display_bit) RestRequest.email_bit;
  mnem = codes "MARAYL";
  display = codes "Mark";
  email = codes "m@x";
}

abbrev order_body : RestRequest
order_body = record RestRequest.reset {
  fields = or (or RestRequest.side_bit RestRequest.lots_bit) RestRequest.ticks_bit;
  side = some Side.buy;
  lots = pos 5;
  ticks = pos 100;
}

abbrev parse_to : RestRequest → Str → Result (Option RestRequest)
parse_to r s = ok (some r)

abbrev pub day : Millis → Jday
day now = 2457388

abbrev pub accept : Journal
accept = record { stores = λ market execs. true; refusal = Exception.service_unavailable }

abbrev pub engine : Engine
engine = record { registry = no_records; cells = cells; next = 3 }

abbrev engine_with_trader : Engine
engine_with_trader = record { registry = one_trader; cells = cells; next = 3 }

abbrev pub message : Str → Str → Str → Message
message method uri user = record { method = method; uri = uri; user = user; body = codes "{}" }

abbrev trader_message : Message
trader_message = message (codes "POST") (codes "/api/rec/trader") []

posted :
    http_request (parse_to trader_body) day accept 7 trader_message engine
    ≡ Answer.status 200 engine_with_trader
unfolding http_request api_request read_body run rest_request rec_request rec_entity trader_request
    post_trader_request valid answered checked perform create_trader find_trader find_email is_mnem
    insert_trader new_trader trader_rec new_rec parse many method_of str_eq reset empty top pop
posted = refl

http_request-ok_example :
    AnsweredBy (parse_to trader_body) day accept 7 trader_message engine engine_with_trader
http_request-ok_example =
    http_request-ok (parse_to trader_body) day accept 7 trader_message engine engine_with_trader
      posted

abbrev asset_message : Message
asset_message = message (codes "GET") (codes "/api/rec/asset/EUR") []

missing :
    http_request (parse_to trader_body) day accept 7 asset_message engine ≡ Answer.status 404 engine
unfolding http_request api_request read_body run rest_request rec_request rec_entity asset_request
    answered kind_of http_status perform find_asset parse many method_of str_eq reset empty top pop
missing = refl

http_request-failed_example : engine ≡ engine
unfolding kind_of http_status
http_request-failed_example =
    http_request-failed (parse_to trader_body) day accept 7 asset_message engine engine 404 missing
      (omega arith) (omega arith)

http_request-get_example :
    engine_after engine (http_request (parse_to trader_body) day accept 7 asset_message engine)
    ≡ engine
unfolding method_of str_eq
http_request-get_example =
    http_request-get (parse_to trader_body) day accept 7 asset_message engine refl

abbrev order_message : Message
order_message = message (codes "POST") (codes "/api/sess/order/EURUSD") (codes "MARAYL")

http_request-order_example :
    http_request (parse_to order_body) day accept 7 order_message engine
    ≡ answered
        (calls (order_call (codes "MARAYL") (codes "EURUSD") order_body))
        (perform day accept 7 (order_call (codes "MARAYL") (codes "EURUSD") order_body) engine)
unfolding method_of str_eq read_body valid
http_request-order_example =
    http_request-order (parse_to order_body) day accept 7 order_message engine order_body b'E'
      (codes "URUSD") refl (refl, (refl, (refl, (refl, (refl, (refl, tt)))))) refl refl refl refl

request_of : Result (Option RestRequest) → RestRequest
request_of (ok (some r)) = r
request_of _ = RestRequest.reset

parsed_fits :
    (s : Str) (r : RestRequest) → parse_to trader_body s ≡ ok (some r) → length r.email ≤ 64
unfolding request_of
parsed_fits s r h = subst (λ q. length q.email ≤ 64) (ap request_of h) (omega arith)
