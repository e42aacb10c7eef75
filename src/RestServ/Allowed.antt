-- ===== src/RestServ/Allowed.antt =====
-- src/swirlyd/RestServ.cpp: what a request must be for a handler to make a call.
pub mod Records
pub mod Session
pub mod Route
use swirlyc.Common.{
  ℕ, zero, suc, ◌%◌, ◌==◌, ◌≡◌, ap, sym, ◌∙◌, ◌≢◌, ◌⊎◌, inl, inr, refl, Bool, true, false, not,
  Bool-cases, List, [], ◌∷◌, Option, none, some, if◌then◌else◌,
}
use swirlyc.Domain.{Iden}
use swirlyc.Text.{Str, str_eq, codes}
use swirlyc.Tokeniser.{Tokeniser, empty, top, pop}
use swirlyc.Bits.{Bits, zeros, or, and, nonzero, bits_eq}
use swirlyc.EntitySet.{
  asset_bit, contr_bit, market_bit, trader_bit, order_bit, trade_bit, posn_bit, view_bit, many,
  parse, entity_bit, parse_loop,
}
use swirlyc.Exception.{Exception, Result, ok, throw, Result-cases}
use swirlyc.EntitySet.Parse.{parse_throws}
use swirlyc.RestRequest
use swirlyc.RestRequest.{RestRequest, valid, has_fields}
use swirlyc.RestServ.{
  on_method, Method, Call, Outcome, Query, Reply, no_match, path_only, calls, throws, throws_early,
  faults, get_only, view_request, parse_ids,
}
use swirlyc.RestServ.Records.{
  asset_request, contr_request, market_request, trader_request, rec_entity, rec_request,
  post_market_request, put_market_request, post_trader_request, put_trader_request,
  post_market_required, post_market_optional, put_market_optional, post_trader_required, given,
}
use swirlyc.RestServ.Session.{
  is_empty, with_first, post_order_required, post_order_optional, post_order_request,
  order_ids_request, trade_ids_request, order_request, trade_request, posn_request, sess_entity,
  sess_request,
}
use swirlyc.RestServ.Route.{rest_request}

-- The method, the user and the fields that each call asks for.
abbrev pub Allowed : Query → Call → Type 0
Allowed q (Call.post_market mnem display contr settl_date expiry_date state) =
    (q.method ≡ Method.post) × (valid post_market_required post_market_optional q.request ≡ true)
Allowed q (Call.put_market mnem display state) =
    (q.method ≡ Method.put) × (valid (zeros 32) put_market_optional q.request ≡ true)
Allowed q (Call.post_trader mnem display email) =
    (q.method ≡ Method.post)
    × (valid post_trader_required RestRequest.email_bit q.request ≡ true)
    × (mnem ≡ q.request.mnem)
    × (display ≡ q.request.display)
    × (email ≡ q.request.email)
Allowed q (Call.put_trader mnem display) =
    (q.method ≡ Method.put) × (has_fields RestRequest.display_bit q.request ≡ true)
Allowed q (Call.post_order trader market ref side lots ticks min_lots) =
    (q.method ≡ Method.post)
    × (is_empty q.user ≡ false)
    × (trader ≡ q.user)
    × (valid post_order_required post_order_optional q.request ≡ true)
    × (ref ≡ q.request.ref)
    × (side ≡ q.request.side)
    × (lots ≡ q.request.lots)
    × (ticks ≡ q.request.ticks)
    × (min_lots ≡ q.request.min_lots)
Allowed q (Call.put_order market ids) = q.method ≡ Method.put
Allowed q (Call.delete_order market ids) = q.method ≡ Method.delete
Allowed q (Call.delete_trade market ids) = q.method ≡ Method.delete
Allowed q (Call.post_trade market) = q.method ≡ Method.post
Allowed q _ = q.method ≡ Method.get

abbrev pub is_get : Method → Bool
is_get Method.get = true
is_get _ = false

-- How a reply comes about.
pub data Made (q : Query) : Reply → Type 0 where
  unmatched : Made q no_match
  matched_path : is_get q.method ≡ false → Made q path_only
  called : (c : Call) → Allowed q c → Made q (calls c)
  invalid : is_get q.method ≡ false → Made q (throws Exception.invalid)
  unauthorized : q.method ≡ Method.post → Made q (throws Exception.unauthorized)
  unknown : Made q (throws_early Exception.not_found)
  faulted : Made q faults

module _ (q : Query) where
  pub on_method-Made :
      (m : Method) {a b c d : Reply}
      → q.method ≡ m
      → (q.method ≡ Method.get → Made q a)
      → (q.method ≡ Method.post → Made q b)
      → (q.method ≡ Method.put → Made q c)
      → (q.method ≡ Method.delete → Made q d)
      → Made q (on_method m a b c d)
  on_method-Made Method.get e f g h i = f e
  on_method-Made Method.post e f g h i = g e
  on_method-Made Method.put e f g h i = h e
  on_method-Made Method.delete e f g h i = i e
  on_method-Made Method.other e f g h i = Made.matched_path (ap is_get e)

  pub if-Made : (b : Bool) {x y : Reply} → Made q x → Made q y → Made q (if b then x else y)
  if-Made true f g = f
  if-Made false f g = g

  pub no_case : {m : Method} → is_get m ≡ false → q.method ≡ m → Made q path_only
  no_case n e = Made.matched_path (ap is_get e ∙ n)

  pub get_only-Made : (c : Call) → (q.method ≡ Method.get → Allowed q c) → Made q (get_only q c)
  get_only-Made c h =
      on_method-Made q.method refl (λ e. Made.called c (h e)) (no_case refl) (no_case refl)
        (no_case refl)

  -- A resource with one part below it.
  pub two-Made :
      (t : Tokeniser) {x y : Reply}
      → Made q x
      → Made q y
      → Made q (if empty t then x else if empty (pop b'/' t) then y else no_match)
  two-Made t f g = if-Made (empty t) f (if-Made (empty (pop b'/' t)) g Made.unmatched)

  -- Where a test of the fields passes, the call; else the fields are invalid.
  pub tested-Made :
      (b : Bool) (c : Call)
      → is_get q.method ≡ false
      → (b ≡ true → Allowed q c)
      → Made q (if not b then throws Exception.invalid else calls c)
  tested-Made true c n h = Made.called c (h refl)
  tested-Made false c n h = Made.invalid n
