-- ===== src/RestServ/Orders.antt =====
-- src/swirlyd/RestServ.cpp: the way of POST /api/sess/order/MARKET from the message to the call.
use swirlyc.Common.{ℕ, ◌≡◌, refl, ap, ◌∙◌, true, false, [], ◌∷◌, ◌++◌, Option}
use swirlyc.Domain.{Jday, Millis}
use swirlyc.Text.{Str, codes, str_eq}
use swirlyc.Tokeniser.{Tokeniser, reset, empty, top, pop}
use swirlyc.Tokeniser.Split.{IsWord, word, top-reset, pop-reset, word_all, after_all}
use swirlyc.EntitySet.{parse, many, order_bit}
use swirlyc.EntitySet.Parse.{Entity, parse-join}
use swirlyc.Exception.{Result, ok}
use swirlyc.RestRequest.{RestRequest, valid}
use swirlyc.Rest.{Journal, Engine, perform}
use swirlyc.RestServ.{Method, Call, Query, calls, method_of}
use swirlyc.RestServ.Session.{
  is_empty, post_order_required, post_order_optional, post_order_request, order_request,
  sess_entity, sess_request,
}
use swirlyc.RestServ.Route.{rest_request}
use swirlyc.RestServ.Http.{
  Message, strip_slash, answered, read_body, run, api_request, http_request,
}

-- The call of a request for an order in a market.
abbrev pub order_call : Str → Str → RestRequest → Call
order_call user market r = Call.post_order user market r.ref r.side r.lots r.ticks r.min_lots

last_word :
    (s : Str) → IsWord b'/' s → (top (reset b'/' s) ≡ s) × (empty (pop b'/' (reset b'/' s)) ≡ true)
unfolding empty reset
last_word s h = (
  top-reset b'/' s ∙ word_all b'/' s h,
  ap empty (pop-reset b'/' s) ∙ ap (λ t. empty (reset b'/' t)) (after_all b'/' s h),
)

sess_step :
    (q : Query) (t : Tokeniser)
    → empty t ≡ false
    → parse (top t) ≡ ok order_bit
    → sess_request q t ≡ order_request q (pop b'/' t)
unfolding sess_request sess_entity many
sess_step q t a b = rw (a, b, sess_request) refl

rest_step :
    (q : Query) (t : Tokeniser)
    → empty t ≡ false
    → top t ≡ codes "sess"
    → rest_request q t ≡ sess_request q (pop b'/' t)
unfolding rest_request str_eq
rest_step q t a b = rw (a, b, rest_request) refl

order_step :
    (q : Query) (t : Tokeniser) (market : Str)
    → empty t ≡ false
    → top t ≡ market
    → empty (pop b'/' t) ≡ true
    → q.method ≡ Method.post
    → order_request q t ≡ post_order_request market q
unfolding order_request
order_step q t market a b c m = rw (a, b, c, m, order_request) refl

post_step :
    (q : Query) (market : Str)
    → is_empty q.user ≡ false
    → valid post_order_required post_order_optional q.request ≡ true
    → post_order_request market q ≡ calls (order_call q.user market q.request)
unfolding post_order_request
post_step q market a b = rw (a, b, post_order_request) refl

not_empty : (c : ℕ) (s : Str) → empty (reset b'/' (c ∷ s)) ≡ false
unfolding empty reset
not_empty c s = refl

module _ (q : Query) (c : ℕ) (w : Str) (word : IsWord b'/' (c ∷ w)) (post : q.method ≡ Method.post)
    (named : is_empty q.user ≡ false)
    (fields : valid post_order_required post_order_optional q.request ≡ true) where
  order_stage : order_request q (reset b'/' (c ∷ w)) ≡ calls (order_call q.user (c ∷ w) q.request)
  order_stage =
      let l = last_word (c ∷ w) word in
      order_step q _ (c ∷ w) (not_empty c w) l.0 l.1 post ∙ post_step q (c ∷ w) named fields

  sess_stage :
      sess_request q (reset b'/' (codes "order/" ++ c ∷ w))
      ≡ calls (order_call q.user (c ∷ w) q.request)
  sess_stage =
      let s = codes "order/" ++ c ∷ w in
      sess_step q (reset b'/' s) (not_empty _ _)
        (ap parse (top-reset b'/' s) ∙ parse-join (Entity.order ∷ []))
      ∙ ap (order_request q) (pop-reset b'/' s)
      ∙ order_stage

  rest_stage :
      rest_request q (reset b'/' (codes "sess/order/" ++ c ∷ w))
      ≡ calls (order_call q.user (c ∷ w) q.request)
  rest_stage =
      let s = codes "sess/order/" ++ c ∷ w in
      rest_step q (reset b'/' s) (not_empty _ _) (top-reset b'/' s)
      ∙ ap (sess_request q) (pop-reset b'/' s)
      ∙ sess_stage

module _ (parse : Str → Result (Option RestRequest)) (bus_day : Millis → Jday) (journ : Journal)
    (now : Millis) where
  api_step :
      (m : Message) (t : Tokeniser) (e : Engine) (r : RestRequest) (call : Call)
      → read_body parse bus_day journ now m.body ≡ ok r
      → rest_request (record { method = method_of m.method; user = m.user; request = r }) t
        ≡ calls call
      → api_request parse bus_day journ now m t e
        ≡ answered (calls call) (perform bus_day journ now call e)
  unfolding api_request run
  api_step m t e r call a b = rw (a, b, api_request) refl

  http_step :
      (m : Message) (s : Str) (e : Engine)
      → strip_slash m.uri ≡ s
      → empty (reset b'/' s) ≡ false
      → top (reset b'/' s) ≡ codes "api"
      → http_request parse bus_day journ now m e
        ≡ api_request parse bus_day journ now m (pop b'/' (reset b'/' s)) e
  unfolding http_request str_eq
  http_step m s e u a b = rw (u, a, b, http_request) refl

  -- A POST of an order to a market's path, by a named user and with the fields of an order, is answered
  -- by the call that places this order for the user in this market.
  pub http_request-order :
      (m : Message) (e : Engine) (r : RestRequest) (c : ℕ) (w : Str)
      → m.uri ≡ codes "/api/sess/order/" ++ c ∷ w
      → IsWord b'/' (c ∷ w)
      → method_of m.method ≡ Method.post
      → is_empty m.user ≡ false
      → read_body parse bus_day journ now m.body ≡ ok r
      → valid post_order_required post_order_optional r ≡ true
      → http_request parse bus_day journ now m e
        ≡ answered
            (calls (order_call m.user (c ∷ w) r))
            (perform bus_day journ now (order_call m.user (c ∷ w) r) e)
  http_request-order m e r c w uri word post named body fields =
      let s = codes "api/sess/order/" ++ c ∷ w in
      http_step m s e (ap strip_slash uri) (not_empty _ _) (top-reset b'/' s)
      ∙ ap (λ t. api_request parse bus_day journ now m t e) (pop-reset b'/' s)
      ∙ api_step m _ e r _ body (
          rest_stage (record { method = method_of m.method; user = m.user; request = r }) c w word
            post named fields)
