-- ===== src/RestServ/Allowed/Session.antt =====
-- src/swirlyd/RestServ.cpp: how the replies below /api/sess and /api/view come about.
use swirlyc.Common.{◌≡◌, ap, inl, inr, refl, Bool-cases, List, [], ◌∷◌}
use swirlyc.Domain.{Iden}
use swirlyc.Text.{Str}
use swirlyc.Tokeniser.{Tokeniser, empty, top, pop}
use swirlyc.Bits.{Bits, bits_eq}
use swirlyc.EntitySet.{order_bit, trade_bit, posn_bit, view_bit, many, parse}
use swirlyc.Exception.{Result-cases}
use swirlyc.EntitySet.Parse.{parse_throws}
use swirlyc.RestRequest.{valid}
use swirlyc.RestServ.{Method, Call, Query, view_request, parse_ids}
use swirlyc.RestServ.Session.{
  is_empty, with_first, with_all, post_order_required, post_order_optional, post_order_request,
  order_ids_request, trade_ids_request, order_request, trade_request, posn_request, sess_entity,
  sess_request,
}
use swirlyc.RestServ.Allowed.{
  Allowed, Made, is_get, on_method-Made, if-Made, no_case, get_only-Made, two-Made, tested-Made,
}

module _ (q : Query) where
  pub view_request-Made : (t : Tokeniser) → Made q (view_request q t)
  unfolding view_request
  view_request-Made t =
      two-Made q t (get_only-Made q Call.get_views (λ m. m))
        (get_only-Made q (Call.get_view (top t)) (λ m. m))

  post_order-Made : (market : Str) → q.method ≡ Method.post → Made q (post_order_request market q)
  unfolding post_order_request
  post_order-Made market m = elim (Bool-cases (is_empty q.user)) [
    | inl e ↦ rw e (Made.unauthorized m)
    | inr e ↦ rw e (
        let r = q.request in
        tested-Made q (valid post_order_required post_order_optional r)
          (Call.post_order q.user market r.ref r.side r.lots r.ticks r.min_lots) (ap is_get m)
          (λ v. (m, e, refl, v, refl, refl, refl, refl, refl)))
  ]

  first-Made :
      (f : Iden → Call) (ids : List Iden)
      → ((i : Iden) → q.method ≡ Method.get → Allowed q (f i))
      → q.method ≡ Method.get
      → Made q (with_first f ids)
  first-Made f [] h m = Made.faulted
  first-Made f (i ∷ is) h m = Made.called (f i) (h i m)

  all-Made : (f : List Iden → Call) (ids : List Iden) → Allowed q (f ids) → Made q (with_all f ids)
  all-Made f [] a = Made.faulted
  all-Made f (i ∷ is) a = Made.called (f (i ∷ is)) a

  order_request-Made : (t : Tokeniser) → Made q (order_request q t)
  unfolding order_request order_ids_request
  order_request-Made t =
      let ids = parse_ids (top (pop b'/' t)) in
      if-Made q (empty t) (get_only-Made q Call.get_orders (λ m. m)) (
        two-Made q (pop b'/' t)
          (on_method-Made q q.method refl (Made.called (Call.get_market_orders (top t)))
            (post_order-Made (top t)) (no_case q refl) (no_case q refl))
          (on_method-Made q q.method refl (first-Made (Call.get_order (top t)) ids (λ i m. m))
            (no_case q refl) (all-Made (Call.put_order (top t)) ids)
            (all-Made (Call.delete_order (top t)) ids)))

  trade_request-Made : (t : Tokeniser) → Made q (trade_request q t)
  unfolding trade_request trade_ids_request
  trade_request-Made t =
      let ids = parse_ids (top (pop b'/' t)) in
      if-Made q (empty t) (get_only-Made q Call.get_trades (λ m. m)) (
        two-Made q (pop b'/' t)
          (on_method-Made q q.method refl (Made.called (Call.get_market_trades (top t)))
            (Made.called (Call.post_trade (top t))) (no_case q refl) (no_case q refl))
          (on_method-Made q q.method refl (first-Made (Call.get_trade (top t)) ids (λ i m. m))
            (no_case q refl) (no_case q refl) (all-Made (Call.delete_trade (top t)) ids)))

  posn_request-Made : (t : Tokeniser) → Made q (posn_request q t)
  unfolding posn_request
  posn_request-Made t = if-Made q (empty t) (get_only-Made q Call.get_posns (λ m. m)) (
      two-Made q (pop b'/' t) (get_only-Made q (Call.get_contr_posns (top t)) (λ m. m))
        (get_only-Made q (Call.get_posn (top t) _) (λ m. m)))

  sess_entity-Made : (es : Bits) (t : Tokeniser) → Made q (sess_entity q es t)
  unfolding sess_entity
  sess_entity-Made es t = if-Made q (bits_eq es order_bit) (order_request-Made t) (
      if-Made q (bits_eq es trade_bit) (trade_request-Made t) (
        if-Made q (bits_eq es posn_bit) (posn_request-Made t)
          (if-Made q (bits_eq es view_bit) (view_request-Made t) Made.unmatched)))

  pub sess_request-Made : (t : Tokeniser) → Made q (sess_request q t)
  unfolding sess_request
  sess_request-Made t =
      if-Made q (empty t) (get_only-Made q (Call.get_sess _) (λ m. m))
        (elim (Result-cases (parse (top t))) [
          | inl (es, e) ↦ rw e (
              if-Made q (many es)
                (if-Made q (empty (pop b'/' t)) (get_only-Made q (Call.get_sess es) (λ m. m))
                  Made.unmatched)
                (sess_entity-Made es (pop b'/' t)))
          | inr (x, e) ↦ rw (e, parse_throws (top t) x e) Made.unknown
        ])
