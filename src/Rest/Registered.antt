-- ===== src/Rest/Registered.antt =====
-- src/fir/Rest.cpp: the calls keep the index of the emails.
use swirlyc.Common.{
  ◌≢◌, ℕ, ◌≡◌, ◌≤◌, refl, ap, ◌∙◌, inl, inr, arith, length, List, [], ◌∷◌, Option, none, some,
  Option-cases,
}
use swirlyc.Domain.{Jday, Millis}
use swirlyc.Text.{Str, compare_str}
use swirlyc.Session.{TraderSess}
use swirlyc.Exception.{Exception, Result, ok, throw}
use swirlyc.OrderedSet
use swirlyc.OrderedSet.Laws.{Ordering-cases}
use swirlyc.Serv.Create.{NewOrder}
use swirlyc.Serv.Names.{identity, identities, create_order-same}
use swirlyc.JulianDay.Signed.{day_of}
use swirlyc.Registry.{Registry, find_contr, find_market, find_trader, modify_trader}
use swirlyc.Registry.Maintain.{update_market, create_trader, update_trader, set_trader_display}
use swirlyc.Registry.Created.{create_market_ok}
use swirlyc.Registry.Emails.{IsRegistry, create_trader-IsRegistry}
use swirlyc.Registry.Identities.{identities-IsRegistry}
use swirlyc.Rest.{
  negative_day, post_market, Journal, find_asset, Engine, perform, place_order, post_order,
  put_back, new_order, world_of, lookup, change,
}
use swirlyc.RestServ.{Call}

-- An email that fits its field.
abbrev pub EmailFits : Call → Type 0
EmailFits (Call.post_trader mnem display email) = length email ≤ 64
EmailFits _ = Unit {0}

modify_trader_same :
    (mnem : Str) (display : Str) (ts : List TraderSess)
    → identities (modify_trader mnem (set_trader_display display) ts) ≡ identities ts
unfolding modify_trader OrderedSet.modify set_trader_display
modify_trader_same mnem display [] = refl
modify_trader_same mnem display (t ∷ ts) = elim (Ordering-cases (compare_str mnem t.mnem)) [
  | inl (inl e) ↦ rw (e, modify_trader, OrderedSet.modify) refl
  | inl (inr e) ↦ rw (e, modify_trader, OrderedSet.modify) refl
  | inr e ↦
      rw (e, modify_trader, OrderedSet.modify)
        (ap (λ ids. identity t ∷ ids) (modify_trader_same mnem display ts))
]

-- A change keeps the invariant where the records that it gives do.
change_kept :
    (m : Result Registry) (e : Engine)
    → ((r : Registry) → m ≡ ok r → IsRegistry r)
    → IsRegistry e.registry
    → IsRegistry (change m e).0.registry
change_kept (ok r) e h i = h r refl
change_kept (throw x) e h i = i

lookup_kept {ℓ} :
    {A : Type ℓ} (x : Exception) (o : Option A) (e : Engine)
    → IsRegistry e.registry
    → IsRegistry (lookup x o e).0.registry
lookup_kept x none e i = i
lookup_kept x (some a) e i = i

update_trader_kept :
    (mnem display : Str) (r r' : Registry)
    → update_trader mnem display r ≡ ok r'
    → IsRegistry r
    → IsRegistry r'
unfolding update_trader
update_trader_kept mnem display r r' h i = elim (Option-cases (find_trader mnem r.traders)) [
  | inl f ↦ absurd (ground (arith, f, h))
  | inr (t, f) ↦
      let eq : r'
          ≡ record r { traders = modify_trader mnem (set_trader_display display) r.traders } =
        ground (arith, f, h) in
      identities-IsRegistry r r'
        (ap (λ q. identities q.traders) eq ∙ modify_trader_same mnem display r.traders)
        (ap (λ q. q.email_idx) eq) i
]

update_market_kept :
    (mnem : Str) (display : Option Str) (state : Option ℕ) (r r' : Registry)
    → update_market mnem display state r ≡ ok r'
    → (r'.traders ≡ r.traders) × (r'.email_idx ≡ r.email_idx)
unfolding update_market
update_market_kept mnem display state r r' h = elim (Option-cases (find_market mnem r.markets)) [
  | inl f ↦ absurd (ground (arith, f, h))
  | inr (b, f) ↦ ground (arith, f, h)
]

negative_day_throws : (c : Str) (r r' : Registry) → negative_day c r ≢ ok r'
unfolding find_contr
negative_day_throws c r r' h = elim (Option-cases (find_contr c r.contrs)) [
  | inl e ↦ ground (arith, e, h)
  | inr (k, e) ↦ ground (arith, e, h)
]

module _ (bus_day : Millis → Jday) (journ : Journal) (now : Millis) where
  post_order_kept :
      (market : Str) (q : NewOrder) (e : Engine)
      → IsRegistry e.registry
      → IsRegistry (post_order bus_day journ now market q e).0.registry
  unfolding post_order place_order put_back
  post_order_kept market q e i = elim (Option-cases (find_trader q.trader e.registry.traders)) [
    | inl f ↦ rw (f, post_order) i
    | inr (t, f) ↦ elim (Option-cases (find_market market e.registry.markets)) [
      | inl g ↦ rw (f, g, post_order) i
      | inr (b, g) ↦
          rw (f, g, post_order)
            (identities-IsRegistry e.registry _
              (create_order-same bus_day journ.stores q (world_of b e)) refl i)
    ]
  ]

  post_market_kept :
      (m d c : Str) (s x : Option Jday) (t : ℕ) (r r' : Registry)
      → post_market bus_day journ now m d c s x t r ≡ ok r'
      → IsRegistry r
      → IsRegistry r'
  unfolding post_market
  post_market_kept m d c (some s) (some x) t r r' h i =
      let k = create_market_ok bus_day m d c s x t now r r' h in
      identities-IsRegistry r r' (ap (λ q. identities q.traders) k.4) (ap (λ q. q.email_idx) k.4) i
  post_market_kept m d c none x t r r' h i = absurd (negative_day_throws c r r' h)
  post_market_kept m d c (some s) none t r r' h i = absurd (negative_day_throws c r r' h)

  -- Every call keeps the registry's invariant, whether it throws or not, where a new trader's email
  -- fits its field.
  pub perform-IsRegistry :
      (c : Call) (e : Engine)
      → EmailFits c
      → IsRegistry e.registry
      → IsRegistry (perform bus_day journ now c e).0.registry
  unfolding perform
  perform-IsRegistry (Call.post_market m d c s x t) e f i =
      change_kept (post_market bus_day journ now m d c (day_of s) (day_of x) t e.registry) e
        (λ r h. post_market_kept m d c (day_of s) (day_of x) t e.registry r h i) i
  perform-IsRegistry (Call.put_market m d s) e f i =
      change_kept (update_market m d s e.registry) e
        (λ r h.
          let k = update_market_kept m d s e.registry r h in
          identities-IsRegistry e.registry r (ap identities k.0) k.1 i)
        i
  perform-IsRegistry (Call.post_trader m d x) e f i =
      change_kept (create_trader m d x e.registry) e
        (λ r h. create_trader-IsRegistry m d x e.registry r f h i) i
  perform-IsRegistry (Call.put_trader m d) e f i =
      change_kept (update_trader m d e.registry) e (λ r h. update_trader_kept m d e.registry r h i)
        i
  perform-IsRegistry (Call.post_order t m r (some s) l k n) e f i =
      post_order_kept m (new_order bus_day journ now t r s l k n) e i
  perform-IsRegistry (Call.get_asset m) e f i =
      lookup_kept Exception.not_found (find_asset m e.registry.assets) e i
  perform-IsRegistry (Call.get_contr m) e f i =
      lookup_kept Exception.not_found (find_contr m e.registry.contrs) e i
  perform-IsRegistry (Call.get_market m) e f i =
      lookup_kept Exception.not_found (find_market m e.registry.markets) e i
  perform-IsRegistry (Call.get_trader m) e f i =
      lookup_kept Exception.not_found (find_trader m e.registry.traders) e i
  perform-IsRegistry c e f i = i
