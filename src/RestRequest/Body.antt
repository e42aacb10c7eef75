-- ===== src/RestRequest/Body.antt =====
-- src/swirlyd/RestServ.cpp, `httpRequest`: the reading of a body by the parser of
-- src/fir/RestRequest.cpp, which is reset before each message. What it reads is in order.
use swirlyc.Common.{◌≡◌, subst, true, Option, none, some}
use swirlyc.Text.{Str}
use swirlyc.Exception.{Exception, Result, ok, throw}
use swirlyc.RestRequest.{RestRequest}
use swirlyc.RestRequest.Actions.{Parser, reset_parser}
use swirlyc.RestRequest.Machine.{Parsed, parse}
use swirlyc.RestRequest.Bounds.{IsRequest}
use swirlyc.RestRequest.Invariant.{Parses, parse-IsParser, reset_parser-IsParser}

unfoldable pub read : Parsed → Result (Option RestRequest)
read (Parsed.threw p) = throw Exception.bad_request
read (Parsed.partial p) = ok none
read (Parsed.complete p) = ok (some p.request)
read Parsed.fault = throw Exception.other

module _ (old : Parser) where
  -- The parser as the last message left it is reset.
  unfoldable pub parse_body : Str → Result (Option RestRequest)
  unfolding reset_parser parse read
  parse_body s = read (parse s (reset_parser true old))

-- A request is in order, where there is one.
abbrev InOrder : Result (Option RestRequest) → Type 0
InOrder (ok (some r)) = IsRequest r
InOrder (ok none) = Unit
InOrder (throw x) = Unit

read-InOrder : (m : Parsed) → Parses m → InOrder (read m)
unfolding read
read-InOrder (Parsed.threw p) h = tt
read-InOrder (Parsed.partial p) h = tt
read-InOrder (Parsed.complete p) h = h.0.request
read-InOrder Parsed.fault h = absurd h

module _ (old : Parser) where
  -- Whatever the body is, and however the last message left the parser, each string of the request that
  -- is read fits its field, and the request has a side if its bit says so.
  pub parse_body-IsRequest :
      (s : Str) (r : RestRequest) → parse_body old s ≡ ok (some r) → IsRequest r
  unfolding parse_body
  parse_body-IsRequest s r h = subst InOrder h (
      read-InOrder (parse s (reset_parser true old))
        (parse-IsParser s (reset_parser true old) (reset_parser-IsParser old).0))
