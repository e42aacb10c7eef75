-- ===== src/Examples/Parser.antt =====
-- The theorems on the parser of request bodies at concrete bodies.
use swirlyc.Common.{pos, ◌≡◌, refl, arith, Bool, true, false, [], ◌∷◌, ◌++◌, some, negsuc}
use swirlyc.Domain.{Side}
use swirlyc.Bits.{or}
use swirlyc.Text.{Str, codes}
use swirlyc.Text.Number.Decimal.{print}
use swirlyc.Exception.{ok}
use swirlyc.RestRequest
use swirlyc.RestRequest.{RestRequest}
use swirlyc.RestRequest.Actions.{TextField, NumField, Scratch, Parser, reset_parser}
use swirlyc.RestRequest.Machine.{transition, Parsed, parse}
use swirlyc.RestRequest.Invariant.{IsParser, Parses, parse-IsParser, reset_parser-IsParser}
use swirlyc.RestRequest.Chosen.{Chosen, transition-Chosen}
use swirlyc.RestRequest.Pieces.{continue, parse-append}
use swirlyc.RestRequest.Printing
use swirlyc.RestRequest.Printing.{name, escape, opening, closing, at_end}
use swirlyc.RestRequest.Strings.{parse-escape}
use swirlyc.RestRequest.Digits
use swirlyc.RestRequest.Digits.{minus}
use swirlyc.RestRequest.Numbers.{at_close, parse-print}
use swirlyc.RestRequest.Body.{parse_body}
use swirlyc.RestServ.{Query, Method}
use swirlyc.RestServ.Route.{rest_request}
use swirlyc.RestServ.Http.{read_body, http_request}
use swirlyc.RestServ.Answers.{engine_after}
use swirlyc.RestServ.Bodies.{HasSide, rest_request-HasSide, http_request_body-IsRegistry}
use swirlyc.Registry.Emails.{IsRegistry}
use swirlyc.Tokeniser.{reset}
use swirlyc.Examples.Records.{no_records-IsRegistry}
use swirlyc.Examples.Requests.{day, accept, engine, message}

abbrev fresh : Parser
fresh = record { cs = 1; scratch = Scratch.unset; request = RestRequest.reset }

fresh-IsParser : IsParser fresh
unfolding reset_parser
fresh-IsParser = (reset_parser-IsParser fresh).0

abbrev side_body : Str
side_body =
    b'{' ∷ 34 ∷ codes "side"
    ++ 34 ∷ b':' ∷ 34 ∷ codes "BUY"
    ++ 34 ∷ b',' ∷ 34 ∷ codes "lots"
    ++ 34 ∷ codes ": -5 }"

abbrev side_request : RestRequest
side_request = record RestRequest.reset {
  fields = or RestRequest.side_bit RestRequest.lots_bit;
  side = some Side.buy;
  lots = negsuc 4;
}

-- An object that is not closed, and a body that is none.
abbrev is_partial : Parsed → Bool
is_partial (Parsed.partial p) = true
is_partial _ = false

abbrev has_thrown : Parsed → Bool
has_thrown (Parsed.threw p) = true
has_thrown _ = false

not_closed : is_partial (parse (codes "{ ") fresh) ≡ true
unfolding parse
not_closed = refl

no_object : has_thrown (parse (codes "[]") fresh) ≡ true
unfolding parse
no_object = refl

parse-IsParser_example : Parses (parse side_body fresh)
parse-IsParser_example = parse-IsParser side_body fresh fresh-IsParser

transition-Chosen_example : Chosen 207 b'7' (transition 207 b'7')
transition-Chosen_example = transition-Chosen 207 b'7' (omega arith)

parse-append_example :
    parse (codes "{ " ++ codes "}") fresh ≡ continue (parse (codes "{ ") fresh) (parse (codes "}"))
parse-append_example = parse-append (codes "{ ") (codes "}") fresh

abbrev quoted : Str
quoted = b'a' ∷ 34 ∷ 92 ∷ b'@' ∷ []

parse-escape_example :
    parse (Printing.opening (Printing.name TextField.email) ++ (escape quoted ++ closing)) fresh
    ≡ Parsed.complete (at_end TextField.email quoted RestRequest.reset)
parse-escape_example =
    parse-escape TextField.email quoted Scratch.unset RestRequest.reset
      (omega arith, (omega arith, (omega arith, (omega arith, tt)))) (omega arith)

parse-print_example :
    parse
      ((Digits.opening (Digits.name NumField.settl_date) ++ minus true) ++ (print 120 ++ b'}' ∷ []))
      fresh
    ≡ Parsed.complete (at_close NumField.settl_date true 120 RestRequest.reset)
parse-print_example =
    parse-print NumField.settl_date true 120 Scratch.unset RestRequest.reset (omega arith)

http_request_body-IsRegistry_example :
    IsRegistry
      (engine_after engine (
        http_request
          (parse_body fresh)
          day
          accept
          7
          (message (codes "POST") (codes "/api/rec/trader") [])
          engine)).registry
http_request_body-IsRegistry_example =
    http_request_body-IsRegistry fresh day accept 7
      (message (codes "POST") (codes "/api/rec/trader") []) engine no_records-IsRegistry

abbrev order_query : Query
order_query = record { method = Method.post; user = codes "MARAYL"; request = side_request }

side_body_read : read_body (parse_body fresh) day accept 7 side_body ≡ ok side_request
unfolding read_body parse_body
side_body_read = refl

rest_request-HasSide_example :
    HasSide (rest_request order_query (reset b'/' (codes "sess/order/EURUSD"))).outcome
rest_request-HasSide_example =
    rest_request-HasSide fresh day accept 7 order_query side_body
      (reset b'/' (codes "sess/order/EURUSD")) side_body_read

-- What a parsed body says; a fresh request where it is not complete.
abbrev request_read : Parsed → RestRequest
request_read (Parsed.complete p) = p.request
request_read _ = RestRequest.reset

abbrev overflow : Str
overflow = b'{' ∷ 34 ∷ codes "lots" ++ 34 ∷ codes ":18446744073709551617}"

abbrev line_feed : Str
line_feed = b'{' ∷ 34 ∷ codes "ref" ++ 34 ∷ b':' ∷ 34 ∷ 92 ∷ b'n' ∷ 34 ∷ b'}' ∷ []

-- Digits past 64 bits wrap around.
wrapped : (request_read (parse overflow fresh)).lots ≡ pos 1
unfolding parse
wrapped = refl

-- A backslash with any character is this character.
letter_read : (request_read (parse line_feed fresh)).ref ≡ codes "n"
unfolding parse
letter_read = refl
