-- ===== src/RestServ/Bodies.antt =====
-- src/swirlyd/RestServ.cpp, `httpRequest`: the interface with the parser of src/fir/RestRequest.cpp.
use swirlyc.Common.{
  inl, inr, ◌≡◌, refl, ap, subst, ◌∙◌, arith, Bool, true, false, [], ◌∷◌, none, some, ◌&&◌,
}
use swirlyc.Domain.{Jday, Millis}
use swirlyc.Text.{Str}
use swirlyc.Bits.{Bits, and, bits_eq}
use swirlyc.Tokeniser.{Tokeniser}
use swirlyc.Exception.{Result, ok, throw, Result-cases}
use swirlyc.RestRequest
use swirlyc.RestRequest.{RestRequest, valid}
use swirlyc.RestRequest.Actions.{Parser}
use swirlyc.RestRequest.Bounds.{IsRequest, is_some, bit_at, bit_at-and}
use swirlyc.RestRequest.Body.{parse_body, parse_body-IsRequest}
use swirlyc.Registry.Emails.{IsRegistry}
use swirlyc.Rest.{Journal, Engine}
use swirlyc.RestServ.{Call, Query, Reply, Outcome}
use swirlyc.RestServ.Session.{post_order_required, post_order_optional}
use swirlyc.RestServ.Route.{rest_request}
use swirlyc.RestServ.Allowed.{Allowed, Made}
use swirlyc.RestServ.Allowed.Route.{rest_request-Made}
use swirlyc.RestServ.Http.{Message, read_body, http_request}
use swirlyc.RestServ.Answers.{engine_after}
use swirlyc.RestServ.Emails.{http_request-IsRegistry}

module _ (old : Parser) (bus_day : Millis → Jday) (journ : Journal) (now : Millis) where
  -- Whatever the message is and however it is answered, the registry's invariant is kept.
  pub http_request_body-IsRegistry :
      (m : Message) (e : Engine)
      → IsRegistry e.registry
      → IsRegistry (engine_after e (http_request (parse_body old) bus_day journ now m e)).registry
  http_request_body-IsRegistry m e i =
      http_request-IsRegistry (parse_body old) bus_day journ now
        (λ s r h. (parse_body-IsRequest old s r h).0.2) m e i

bits_eq→eq : (a b : Bits) → bits_eq a b ≡ true → a ≡ b
bits_eq→eq [] [] h = refl
bits_eq→eq [] (y ∷ b) h = absurd (ground (arith, h))
bits_eq→eq (x ∷ a) [] h = absurd (ground (arith, h))
bits_eq→eq (true ∷ a) (true ∷ b) h = ap (λ c. true ∷ c) (bits_eq→eq a b h)
bits_eq→eq (false ∷ a) (false ∷ b) h = ap (λ c. false ∷ c) (bits_eq→eq a b h)
bits_eq→eq (true ∷ a) (false ∷ b) h = absurd (ground (arith, h))
bits_eq→eq (false ∷ a) (true ∷ b) h = absurd (ground (arith, h))

and_left : (a b : Bool) → (a && b) ≡ true → a ≡ true
and_left a b h = ground (arith, h)

-- A valid request for an order has its side.
valid_side :
    (r : RestRequest)
    → IsRequest r
    → valid post_order_required post_order_optional r ≡ true
    → is_some r.side ≡ true
unfolding valid
valid_side r i h =
    i.1
      (bit_at-and 9 r.fields post_order_required (
        ap (bit_at 9)
          (bits_eq→eq (and r.fields post_order_required) post_order_required (and_left _ _ h)))).0

abbrev Orderly : Result RestRequest → Type 0
Orderly (ok r) = IsRequest r
Orderly (throw x) = Unit

-- The side of an order, where the call is that of an order.
abbrev pub HasSide : Outcome → Type 0
HasSide (Outcome.called (Call.post_order trader market ref side lots ticks min_lots)) =
    is_some side ≡ true
HasSide _ = Unit

Allowed-HasSide :
    (q : Query) (c : Call) → IsRequest q.request → Allowed q c → HasSide (Outcome.called c)
Allowed-HasSide q (Call.post_order trader market ref side lots ticks min_lots) i a =
    ap is_some a.5 ∙ valid_side q.request i a.3
Allowed-HasSide q c i a = tt

Made-HasSide : (q : Query) (y : Reply) → IsRequest q.request → Made q y → HasSide y.outcome
Made-HasSide q y i Made.unmatched = tt
Made-HasSide q y i (Made.matched_path n) = tt
Made-HasSide q y i (Made.called c a) = Allowed-HasSide q c i a
Made-HasSide q y i (Made.invalid n) = tt
Made-HasSide q y i (Made.unauthorized m) = tt
Made-HasSide q y i Made.unknown = tt
Made-HasSide q y i Made.faulted = tt

query-HasSide :
    (q : Query) (t : Tokeniser) → IsRequest q.request → HasSide (rest_request q t).outcome
query-HasSide q t i = Made-HasSide q (rest_request q t) i (rest_request-Made q t)

no_fields-IsRequest : IsRequest RestRequest.reset
no_fields-IsRequest = (ground arith, λ e. absurd (ground (arith, e)))

module _ (old : Parser) (bus_day : Millis → Jday) (journ : Journal) (now : Millis) where
  body-IsRequest :
      (s : Str) (r : RestRequest)
      → read_body (parse_body old) bus_day journ now s ≡ ok r
      → IsRequest r
  unfolding read_body
  body-IsRequest [] r h = subst (λ m. Orderly m) h no_fields-IsRequest
  body-IsRequest (c ∷ s) r h = elim (Result-cases (parse_body old (c ∷ s))) [
    | inl (none, e) ↦ absurd (ground (arith, e, h))
    | inl (some q, e) ↦ parse_body-IsRequest old (c ∷ s) r (ground (arith, e, h))
    | inr (x, e) ↦ absurd (ground (arith, e, h))
  ]

  -- Whatever the method, the user, the path and the body of a message are, a call that places an order
  -- gives a side that is an enumerator.
  pub rest_request-HasSide :
      (q : Query) (s : Str) (t : Tokeniser)
      → read_body (parse_body old) bus_day journ now s ≡ ok q.request
      → HasSide (rest_request q t).outcome
  rest_request-HasSide q s t h = query-HasSide q t (body-IsRequest s q.request h)
