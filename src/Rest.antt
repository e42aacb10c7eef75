-- ===== src/Rest.antt =====
-- src/fir/Rest.cpp: what each call of the REST interface does to the engine. The text that is
-- printed is not modelled; the calls that the source leaves unimplemented print and change nothing.
pub mod Kept
pub mod Registered
use swirlyc.Common.{ℕ, suc, Bool, List, [], ◌∷◌, Option, none, some, ◌≡◌}
use swirlyc.Domain.{Jday, Millis, Side, Lots, Ticks}
use swirlyc.Text.{Str, compare_str}
use swirlyc.Order.{Addr, Cells}
use swirlyc.OrderedSet
use swirlyc.Exec.{Exec}
use swirlyc.Book.Market.{MarketBook}
use swirlyc.Session.{TraderSess}
use swirlyc.Serv.State.{World, Response}
use swirlyc.Serv.Create.{Error, NewOrder, create_order}
use swirlyc.Exception.{Exception, Result, ok, throw, ◌>>=◌}
use swirlyc.Rec.{Asset}
use swirlyc.Registry.{
  get_or_throw, Registry, find_contr, find_market, find_trader, modify_market, market, trader,
}
use swirlyc.Registry.Maintain.{create_market, update_market, create_trader, update_trader}
use swirlyc.JulianDay.Signed.{day_of}
use swirlyc.RestServ.{Call}

-- The service with its orders: the records, and the store of orders with its next free address.
pub record Engine : Type 0 where
  pub registry : Registry
  pub cells : Cells
  pub next : Addr

-- The engine after a call, and the exception if one is thrown.
abbrev pub After : Type 0
After = Engine × Option Exception

abbrev pub unchanged : Engine → After
unchanged e = (e, none)

abbrev pub refused : Exception → Engine → After
refused x e = (e, some x)

-- A lookup throws where nothing is found.
abbrev pub lookup {ℓ} : {A : Type ℓ} → Exception → Option A → Engine → After
lookup x none e = refused x e
lookup x (some a) e = unchanged e

-- A change of the records, which happens unless it throws.
abbrev pub change : Result Registry → Engine → After
change (throw x) e = refused x e
change (ok r) e = unchanged (record e { registry = r })

-- The assets are found by mnemonic as the other records are.
unfoldable pub find_asset : Str → List Asset → Option Asset
unfolding OrderedSet.find
find_asset mnem assets = OrderedSet.find (λ (a : Asset). compare_str mnem a.mnem) assets

-- The `Journ` of a request: what it stores, and the exception that it throws where it does not, of
-- whatever class. A request writes to it once at most.
pub record Journal : Type 0 where
  pub stores : Str → List Exec → Bool
  pub refusal : Exception

-- The classes of createOrder's exceptions; the journal's is passed on.
abbrev pub exception_of : Journal → Error → Exception
exception_of journ Error.market_closed = Exception.market_closed
exception_of journ Error.invalid_lots = Exception.invalid_lots
exception_of journ Error.journal_failed = journ.refusal

abbrev pub thrown_of : Journal → Option Error → Option Exception
thrown_of journ none = none
thrown_of journ (some x) = some (exception_of journ x)

-- What createOrder sees of the engine, and the engine after it.
abbrev pub world_of : MarketBook → Engine → World
world_of b e = record {
  cells = e.cells;
  next = e.next;
  traders = e.registry.traders;
  book = b;
  resp = record { orders = []; execs = []; posn = none };
}

unfoldable pub put_back : Str → World → Engine → Engine
unfolding modify_market
put_back mnem w e = record {
  registry = record e.registry {
    markets = modify_market mnem (λ b. w.book) e.registry.markets;
    traders = w.traders;
  };
  cells = w.cells;
  next = w.next;
}

-- The contract is looked up, and the tests of the days refuse.
abbrev pub negative_day : Str → Registry → Result Registry
negative_day contr r = do
  c ← get_or_throw Exception.not_found (find_contr contr r.contrs)
  throw Exception.invalid

module _ (bus_day : Millis → Jday) (journ : Journal) (now : Millis) where
  -- `postOrder`, where both the trader and the market are there.
  unfoldable pub place_order : Str → NewOrder → MarketBook → Engine → After
  unfolding create_order put_back
  place_order market q b e =
      let p = create_order bus_day journ.stores q (world_of b e) in
      (put_back market p.0 e, thrown_of journ p.1)

  -- `postOrder`: the trader is looked up first.
  unfoldable pub post_order : Str → NewOrder → Engine → After
  unfolding find_trader find_market place_order
  post_order market q e = elim (find_trader q.trader e.registry.traders) [
    | none ↦ refused Exception.trader_not_found e
    | some t ↦ elim (find_market market e.registry.markets) [
      | none ↦ refused Exception.market_not_found e
      | some b ↦ place_order market q b e
    ]
  ]

  -- `createMarket` on days of which one may be negative. Then the tests of the days refuse, since a
  -- business day is not negative; before them only the contract is tested.
  unfoldable pub post_market :
      Str → Str → Str → Option Jday → Option Jday → ℕ → Registry → Result Registry
  unfolding create_market find_contr
  post_market mnem display contr (some settl_day) (some expiry_day) state r =
      create_market bus_day mnem display contr settl_day expiry_day state now r
  post_market mnem display contr none expiry_day state r = negative_day contr r
  post_market mnem display contr (some settl_day) none state r = negative_day contr r

  abbrev pub new_order : Str → Str → Side → Lots → Ticks → Lots → NewOrder
  new_order trader ref side lots ticks min_lots = record {
    trader = trader;
    ref = ref;
    side = side;
    lots = lots;
    ticks = ticks;
    min_lots = min_lots;
    now = now;
  }

  -- A call of `Rest`. A `postOrder` whose side is no enumerator is outside of the model: the engine
  -- is left as it was.
  unfoldable pub perform : Call → Engine → After
  unfolding find_asset find_contr find_market find_trader update_market create_trader update_trader
      day_of post_market post_order
  perform (Call.get_rec es) e = unchanged e
  perform Call.get_assets e = unchanged e
  perform Call.get_contrs e = unchanged e
  perform Call.get_markets e = unchanged e
  perform Call.get_traders e = unchanged e
  perform (Call.get_asset mnem) e = lookup Exception.not_found (find_asset mnem e.registry.assets) e
  perform (Call.get_contr mnem) e = lookup Exception.not_found (find_contr mnem e.registry.contrs) e
  perform (Call.get_market mnem) e =
      lookup Exception.not_found (find_market mnem e.registry.markets) e
  perform (Call.get_trader mnem) e =
      lookup Exception.not_found (find_trader mnem e.registry.traders) e
  perform (Call.post_market mnem display contr settl_date expiry_date state) e =
      change
        (post_market mnem display contr (day_of settl_date) (day_of expiry_date) state e.registry) e
  perform (Call.put_market mnem display state) e =
      change (update_market mnem display state e.registry) e
  perform (Call.post_trader mnem display email) e =
      change (create_trader mnem display email e.registry) e
  perform (Call.put_trader mnem display) e = change (update_trader mnem display e.registry) e
  perform (Call.get_sess es) e = unchanged e
  perform Call.get_orders e = unchanged e
  perform Call.get_trades e = unchanged e
  perform Call.get_posns e = unchanged e
  perform Call.get_views e = unchanged e
  perform (Call.get_market_orders market) e = unchanged e
  perform (Call.get_market_trades market) e = unchanged e
  perform (Call.get_contr_posns contr) e = unchanged e
  perform (Call.get_view market) e = unchanged e
  perform (Call.get_order market id) e = unchanged e
  perform (Call.get_trade market id) e = unchanged e
  perform (Call.get_posn contr settl_date) e = unchanged e
  perform (Call.post_order trader market ref none lots ticks min_lots) e = unchanged e
  perform (Call.post_order trader market ref (some side) lots ticks min_lots) e =
      post_order market (new_order trader ref side lots ticks min_lots) e
  perform (Call.put_order market ids) e = unchanged e
  perform (Call.delete_order market ids) e = unchanged e
  perform (Call.delete_trade market ids) e = unchanged e
  perform (Call.post_trade market) e = unchanged e
