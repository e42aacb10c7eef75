-- ===== src/Examples/Market.antt =====
-- A market with one resting offer, and an incoming bid.
use swirlyc.Common.{zero, suc, pos, ◌+ℤ◌, refl, List, [], ◌∷◌, none, some, arith}
use swirlyc.Domain.{Side, State, compose_key}
use swirlyc.Text.{Str}
use swirlyc.Order.{Cells, Order}
use swirlyc.Session.{TraderSess}
use swirlyc.Book.Level.{Level}
use swirlyc.Book.Side.{BookSide}
use swirlyc.Book.Market.{MarketBook, side}
use swirlyc.Book.Groups.{IsSide}
use swirlyc.Book.Distinct.{NotIn}
use swirlyc.Book.Whole.{IsBook}
use swirlyc.Serv.Placing.{Pending}

abbrev pub marayl : Str
marayl = 77 ∷ []

abbrev pub goshea : Str
goshea = 71 ∷ []

abbrev pub eurusd : Str
eurusd = 69 ∷ []

-- Ten lots offered at 100, at rest.
abbrev pub ask : Order
ask = record {
  request = record {
    trader = marayl;
    market = eurusd;
    contr = eurusd;
    settl_day = 0;
    id = 1;
    ref = [];
    side = Side.sell;
    lots = pos 10;
    created = 1;
  };
  level = some (pos 100);
  state = State.new;
  ticks = pos 100;
  resd = pos 10;
  exec = pos 0;
  cost = pos 0;
  last_lots = pos 0;
  last_ticks = pos 0;
  min_lots = pos 0;
  modified = 1;
}

-- Four lots bid at 101, not in the book.
abbrev pub bid : Order
bid = record {
  request = record {
    trader = goshea;
    market = eurusd;
    contr = eurusd;
    settl_day = 0;
    id = 2;
    ref = [];
    side = Side.buy;
    lots = pos 4;
    created = 2;
  };
  level = none;
  state = State.new;
  ticks = pos 101;
  resd = pos 4;
  exec = pos 0;
  cost = pos 0;
  last_lots = pos 0;
  last_ticks = pos 0;
  min_lots = pos 0;
  modified = 2;
}

abbrev pub cells : Cells
cells zero = ask
cells (suc n) = bid

abbrev pub ask_level : Level
ask_level = record { first_order = 0; key = pos 100; ticks = pos 100; resd = pos 10; count = pos 1 }

abbrev pub empty_side : BookSide
empty_side = record { levels = []; orders = [] }

abbrev pub offers : BookSide
offers = record { levels = ask_level ∷ []; orders = 0 ∷ [] }

abbrev pub book : MarketBook
book = record {
  mnem = eurusd;
  display = eurusd;
  contr = eurusd;
  settl_day = 0;
  expiry_day = 0;
  state = 0;
  last_lots = pos 0;
  last_ticks = pos 0;
  last_time = 0;
  bid_side = empty_side;
  offer_side = offers;
  max_order_id = 2;
  max_exec_id = 2;
}

abbrev pub session : Str → TraderSess
session mnem = record {
  mnem = mnem;
  display = mnem;
  email = mnem;
  orders = [];
  trades = [];
  posns = [];
  ref_idx = [];
}

abbrev pub sessions : List TraderSess
sessions = session marayl ∷ session goshea ∷ []

pub empty_side-IsSide : (h : Cells) (d : Side) → IsSide h d empty_side
empty_side-IsSide h d = record {
  groups = [];
  levels_eq = refl;
  orders_eq = refl;
  grouped = record { groups = tt; ascending = tt; distinct = tt };
}

pub offers-IsSide : IsSide cells Side.sell offers
unfolding compose_key ◌+ℤ◌
offers-IsSide = record {
  groups = record { level = ask_level; rest = [] } ∷ [];
  levels_eq = refl;
  orders_eq = refl;
  grouped = record {
    groups = (
      record {
        key_eq = refl;
        rests = (
          record { level_eq = refl; side_eq = refl; ticks_eq = refl; resd_pos = omega arith },
          tt,
        );
        resd_eq = refl;
        count_eq = refl;
      },
      tt,
    );
    ascending = (tt, tt);
    distinct = (tt, tt);
  };
}

pub book-IsBook : IsBook cells book
book-IsBook = record { bids = empty_side-IsSide cells Side.buy; offers = offers-IsSide }

pub bid_away : (d : Side) → NotIn 1 (side d book).orders
unfolding side
bid_away Side.buy = tt
bid_away Side.sell = (refl, tt)

pub bid-Pending : Pending cells book 1
bid-Pending = record { is_book = book-IsBook; away = bid_away; live = omega arith }
