-- ===== src/RestServ/Allowed/Records.antt =====
-- src/swirlyd/RestServ.cpp: how the replies below /api/rec come about.
use swirlyc.Common.{◌≡◌, ap, inl, inr, refl}
use swirlyc.Text.{Str}
use swirlyc.Tokeniser.{Tokeniser, empty, top, pop}
use swirlyc.Bits.{Bits, zeros, bits_eq}
use swirlyc.EntitySet.{asset_bit, contr_bit, market_bit, trader_bit, many, parse}
use swirlyc.Exception.{Result-cases}
use swirlyc.EntitySet.Parse.{parse_throws}
use swirlyc.RestRequest
use swirlyc.RestRequest.{RestRequest, valid, has_fields}
use swirlyc.RestServ.{Method, Call, Query}
use swirlyc.RestServ.Records.{
  asset_request, contr_request, market_request, trader_request, rec_entity, rec_request,
  post_market_request, put_market_request, post_trader_request, put_trader_request,
  post_market_required, post_market_optional, put_market_optional, post_trader_required, given,
}
use swirlyc.RestServ.Allowed.{
  Made, is_get, on_method-Made, if-Made, no_case, get_only-Made, two-Made, tested-Made,
}

module _ (q : Query) where
  asset_request-Made : (t : Tokeniser) → Made q (asset_request q t)
  unfolding asset_request
  asset_request-Made t =
      two-Made q t (get_only-Made q Call.get_assets (λ m. m))
        (get_only-Made q (Call.get_asset (top t)) (λ m. m))

  contr_request-Made : (t : Tokeniser) → Made q (contr_request q t)
  unfolding contr_request
  contr_request-Made t =
      two-Made q t (get_only-Made q Call.get_contrs (λ m. m))
        (get_only-Made q (Call.get_contr (top t)) (λ m. m))

  post_market-Made : q.method ≡ Method.post → Made q (post_market_request q.request)
  unfolding post_market_request
  post_market-Made m =
      let r = q.request in
      tested-Made q (valid post_market_required post_market_optional r)
        (Call.post_market r.mnem r.display r.contr r.settl_date r.expiry_date r.state) (ap is_get m)
        (λ v. (m, v))

  put_market-Made :
      (mnem : Str) → q.method ≡ Method.put → Made q (put_market_request mnem q.request)
  unfolding put_market_request
  put_market-Made mnem m =
      let r = q.request in
      tested-Made q (valid (zeros 32) put_market_optional r)
        (Call.put_market mnem (given r RestRequest.display_bit r.display)
          (given r RestRequest.state_bit r.state))
        (ap is_get m) (λ v. (m, v))

  post_trader-Made : q.method ≡ Method.post → Made q (post_trader_request q.request)
  unfolding post_trader_request
  post_trader-Made m =
      let r = q.request in
      tested-Made q (valid post_trader_required RestRequest.email_bit r)
        (Call.post_trader r.mnem r.display r.email) (ap is_get m) (λ v. (m, v, refl, refl, refl))

  put_trader-Made :
      (mnem : Str) → q.method ≡ Method.put → Made q (put_trader_request mnem q.request)
  unfolding put_trader_request
  put_trader-Made mnem m =
      let r = q.request in
      tested-Made q (has_fields RestRequest.display_bit r) (Call.put_trader mnem r.display)
        (ap is_get m) (λ v. (m, v))

  market_request-Made : (t : Tokeniser) → Made q (market_request q t)
  unfolding market_request
  market_request-Made t =
      two-Made q t
        (on_method-Made q q.method refl (Made.called Call.get_markets) post_market-Made
          (no_case q refl) (no_case q refl))
        (on_method-Made q q.method refl (Made.called (Call.get_market (top t))) (no_case q refl)
          (put_market-Made (top t)) (no_case q refl))

  trader_request-Made : (t : Tokeniser) → Made q (trader_request q t)
  unfolding trader_request
  trader_request-Made t =
      two-Made q t
        (on_method-Made q q.method refl (Made.called Call.get_traders) post_trader-Made
          (no_case q refl) (no_case q refl))
        (on_method-Made q q.method refl (Made.called (Call.get_trader (top t))) (no_case q refl)
          (put_trader-Made (top t)) (no_case q refl))

  rec_entity-Made : (es : Bits) (t : Tokeniser) → Made q (rec_entity q es t)
  unfolding rec_entity
  rec_entity-Made es t = if-Made q (bits_eq es asset_bit) (asset_request-Made t) (
      if-Made q (bits_eq es contr_bit) (contr_request-Made t) (
        if-Made q (bits_eq es market_bit) (market_request-Made t)
          (if-Made q (bits_eq es trader_bit) (trader_request-Made t) Made.unmatched)))

  pub rec_request-Made : (t : Tokeniser) → Made q (rec_request q t)
  unfolding rec_request
  rec_request-Made t =
      if-Made q (empty t) (get_only-Made q (Call.get_rec _) (λ m. m))
        (elim (Result-cases (parse (top t))) [
          | inl (es, e) ↦ rw e (
              if-Made q (many es)
                (if-Made q (empty (pop b'/' t)) (get_only-Made q (Call.get_rec es) (λ m. m))
                  Made.unmatched)
                (rec_entity-Made es (pop b'/' t)))
          | inr (x, e) ↦ rw (e, parse_throws (top t) x e) Made.unknown
        ])
