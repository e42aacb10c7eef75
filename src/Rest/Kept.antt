-- ===== src/Rest/Kept.antt =====
-- src/fir/Rest.cpp: which calls leave the engine as it was.
use swirlyc.Common.{
  ◌≡◌, ◌⊎◌, inl, inr, refl, ap, ◌∙◌, arith, if◌then◌else◌, Bool, true, false, List, ◌∷◌, Option,
  none, some, Option-cases, Bool-cases,
}
use swirlyc.Domain.{Jday, Millis}
use swirlyc.Text.{Str, compare_str}
use swirlyc.Book.Market.{MarketBook}
use swirlyc.OrderedSet.Laws
use swirlyc.Text.Order.{compare_str-IsOrder}
use swirlyc.Serv.Create.{
  create_order, Error, NewOrder, is_expired, bad_lots, match_and_place, alloc_order, trades_of,
  commit, undo,
}
use swirlyc.Serv.State.{World}
use swirlyc.Exception.{Exception}
use swirlyc.Registry.{find_market, find_trader, modify_market, market_key}
use swirlyc.Rest.{
  Journal, Engine, perform, place_order, post_order, put_back, new_order, world_of, lookup,
  thrown_of,
}
use swirlyc.RestServ.{Method, Call, Query}
use swirlyc.RestServ.Allowed.{Allowed}

-- Writing what a key finds back to it changes nothing.
modify_same :
    (mnem : Str) (b : MarketBook) (bs : List MarketBook)
    → find_market mnem bs ≡ some b
    → modify_market mnem (λ _. b) bs ≡ bs
unfolding find_market modify_market
modify_same mnem b bs h =
    Laws.modify_found market_key compare_str compare_str-IsOrder (λ _. b) mnem b bs h refl

put_back_same :
    (mnem : Str) (b : MarketBook) (e : Engine)
    → find_market mnem e.registry.markets ≡ some b
    → put_back mnem (world_of b e) e ≡ e
unfolding put_back
put_back_same mnem b e h =
    ap (λ bs. record e { registry = record e.registry { markets = bs } })
      (modify_same mnem b e.registry.markets h)

module _ (bus_day : Millis → Jday) (journ : Journal) (now : Millis) where
  lookup_kept {ℓ} : {A : Type ℓ} (x : Exception) (o : Option A) (e : Engine) → (lookup x o e).0 ≡ e
  lookup_kept x none e = refl
  lookup_kept x (some a) e = refl

  -- A call that a GET may make leaves the engine as it was.
  pub perform_get :
      (q : Query) (c : Call) (e : Engine)
      → q.method ≡ Method.get
      → Allowed q c
      → (perform bus_day journ now c e).0 ≡ e
  unfolding perform
  perform_get q c e m h = ground (arith, m, h)

  store : Bool → World → World → World × Option Error
  store stored w v = if stored then (w, none) else (v, some Error.journal_failed)

  journalled :
      (stored : Bool) (w v : World)
      → ((store stored w v).1 ≡ none) ⊎ ((store stored w v).1 ≡ some Error.journal_failed)
  unfolding store
  journalled true w v = inl refl
  journalled false w v = inr refl

  -- createOrder throws before it changes anything, or because the journal refuses.
  create_order_early :
      (q : NewOrder) (w : World)
      → (create_order bus_day journ.stores q w ≡ (w, some Error.market_closed))
        ⊎ (create_order bus_day journ.stores q w ≡ (w, some Error.invalid_lots))
        ⊎ ((create_order bus_day journ.stores q w).1 ≡ none)
        ⊎ ((create_order bus_day journ.stores q w).1 ≡ some Error.journal_failed)
  unfolding create_order store
  create_order_early q w = elim (Bool-cases (is_expired w.book (bus_day q.now))) [
    | inl e ↦ inl (rw (e, create_order) refl)
    | inr e ↦ elim (Bool-cases (bad_lots q)) [
      | inl f ↦ inr (inl (rw (e, f, create_order) refl))
      | inr f ↦
          let a = w.next in
          let p = match_and_place q.now a (alloc_order q w) in
          inr (
            inr (
              rw (e, f, create_order)
                (journalled (journ.stores w.book.mnem (p.exec ∷ trades_of p.matches)) (commit q a p)
                  (undo a p.world))))
    ]
  ]

  pub place_order_thrown :
      (market : Str) (q : NewOrder) (b : MarketBook) (e : Engine) (x : Exception)
      → find_market market e.registry.markets ≡ some b
      → (place_order bus_day journ now market q b e).1 ≡ some x
      → (x ≡ journ.refusal) ⊎ ((place_order bus_day journ now market q b e).0 ≡ e)
  unfolding place_order
  place_order_thrown market q b e x found h =
      let w = world_of b e in
      let same = put_back_same market b e found in
      elim (create_order_early q w) [
        | inl p ↦ inr (ap (λ r. put_back market r.0 e) p ∙ same)
        | inr (inl p) ↦ inr (ap (λ r. put_back market r.0 e) p ∙ same)
        | inr (inr (inl p)) ↦ absurd (ground (arith, h, ap (thrown_of journ) p))
        | inr (inr (inr p)) ↦ inl (ground (arith, h, ap (thrown_of journ) p))
      ]

  post_order_thrown :
      (market : Str) (q : NewOrder) (e : Engine) (x : Exception)
      → (post_order bus_day journ now market q e).1 ≡ some x
      → (x ≡ journ.refusal) ⊎ ((post_order bus_day journ now market q e).0 ≡ e)
  unfolding post_order
  post_order_thrown market q e x h = elim (Option-cases (find_trader q.trader e.registry.traders)) [
    | inl f ↦ inr (rw (f, post_order) refl)
    | inr (t, f) ↦ elim (Option-cases (find_market market e.registry.markets)) [
      | inl g ↦ inr (rw (f, g, post_order) refl)
      | inr (b, g) ↦
          rw (f, g, post_order) (place_order_thrown market q b e x g (rw (f, g, post_order) at h))
    ]
  ]

  -- A call that throws leaves the engine as it was, unless the exception is the journal's.
  pub perform_thrown :
      (c : Call) (e : Engine) (x : Exception)
      → (perform bus_day journ now c e).1 ≡ some x
      → (x ≡ journ.refusal) ⊎ ((perform bus_day journ now c e).0 ≡ e)
  unfolding perform
  perform_thrown (Call.post_order trader market ref (some side) lots ticks min_lots) e x h =
      post_order_thrown market (new_order bus_day journ now trader ref side lots ticks min_lots) e x
        h
  perform_thrown c e x h = ground (arith, h)
