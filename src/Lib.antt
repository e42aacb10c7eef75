-- ===== src/Lib.antt =====
-- Verification library of the matching engine.
--
-- The engine keeps one book for each market. A client's order reaches `Serv::createOrder`
-- (src/fig/Serv.cpp), which allocates it, matches it with the resting orders of the other side,
-- places what is left of it in its own side, journals the executions, and then commits: it reduces
-- the makers in the book, records the trades in the sessions of both parties and adds them to
-- positions.
--
-- The parts, and the files that model them:
--
-- Common: names of the libraries passed on, integers over the native numbers, list lemmas.
--
-- Domain, Domain/Names: the enumerations and units of include/swirly/elm/Types.hpp, their names
-- (src/elm/Types.cpp), `composeKey` and `cost`. `Lots`, `Ticks` and `Cost` wrap `int64_t`; here
-- they are unbounded integers, so that a sum or product past 64 bits, which is undefined in C++,
-- is a larger integer. Identifiers, days and times are natural numbers.
--
-- Text: `String` of include/swirly/ash/String.hpp, as the list of its bytes.
--
-- OrderedSet: `RequestIdSet`, `OrderRefSet` and `TraderPosnSet` of include/swirly/elm, which wrap
-- Boost's intrusive sets, as the sequences of their elements.
--
-- Order: `Request` and `Order` (include/swirly/elm/Request.hpp, include/swirly/elm/Order.hpp), and
-- the store. Orders are shared by pointer between book, sessions and responses; an address names a
-- cell of the store, and each operation that writes to an order takes and returns the store.
--
-- Book: Level.antt is `Level` and `LevelSet`, Side.antt is `BookSide` with `OrderList`,
-- Market.antt is `MarketBook`. An order's pointer to its level is the level's key, since a level
-- is found by its key, which is constant and unique in its side. The invariant is in Groups.antt
-- (a side) and Whole.antt (a book): the order list falls into groups, one to a level, in the order
-- of the levels' keys, and each level sums up its group. Insert, Join, Leave, Remove, Cut and
-- Reduce follow the operations on groups; Sorted and Priority compare an insertion with one into a
-- plain sorted list; Frame says what operations leave alone; Uncrossed says when bids and offers
-- do not cross.
--
-- Tokeniser, Tokeniser/Split: `Tokeniser` of include/swirly/ash/Tokeniser.hpp, and the words that
-- it reads. `tokens` counts its rounds; a string has at most as many words as characters.
--
-- Exec, Posn, Session: `Exec`, `Posn` and `TraderSess`, with the factory's constructors. A pointer
-- to a position is its trader, contract and settlement day.
--
-- Serv: State.antt has the matches, the response and the world that a call works on; Match.antt is
-- `spread`, `newMatch` and `matchOrders`; Commit.antt is `commitMatches`; Create.antt is
-- `createOrder`. Fill, Trades and LastTrade are about the loop; Placing, Outcome and Standing
-- follow an order from its allocation to the journal; Taking is about the commit; Safety,
-- Invariant and Kept are about whole calls. Positions is about the sums of all positions, Presence
-- and Opened about the positions that are there when trades are added, Booked and Conserved about
-- the commit, Gains and NetZero about a call. Ranked is about the prices in the order lists.
-- Filling says when an order is filled.
--
-- Rec, Registry: the records of include/swirly/elm (Rec.hpp, Asset.hpp, Contr.hpp, Trader.hpp) and
-- their sets in `Serv::Impl`. Registry.antt has the sets, the lookups and `TraderSessSet`
-- (src/fig/TraderSessSet.hpp); Maintain.antt is `createMarket`, `updateMarket`, `createTrader` and
-- `updateTrader`. Created, Emails and Answers say what these calls test and do; Identities, with
-- Serv/Names, that the emails do not depend on orders and trades. A call that throws has changed
-- nothing by then, so that it is a result or an exception (Exception,
-- include/swirly/elm/Exception.hpp).
--
-- JulianDay, JulianDay/Calendar, JulianDay/Signed: include/swirly/ash/JulianDay.hpp. The formulas
-- are computed on natural numbers, which is exact from the year 0 on; Calendar compares them with
-- the months of the calendar. JulianDay/Signed has `isoToJd` of a date that is negative, with the
-- division of C++. A Julian day that is negative, which no market has, is refused where a market
-- is created, as `createMarket` does by its tests of the days.
--
-- Text/Number: `stou64` (src/ash/String.cpp), on 64 bits; Decimal has the decimal digits of a
-- number.
--
-- Bits, EntitySet, RestRequest: the bit sets of include/swirly/fir/EntitySet.hpp and
-- include/swirly/fir/RestRequest.hpp, as 32 bits in two's complement. `parse` counts its rounds; a
-- string has at most as many words as characters. The parser of src/fir/RestRequest.cpp is a
-- machine that Ragel generated: States and Transitions are its tables, Actions what it keeps, Act
-- the cases of its switch, Machine the searches of a key (which count their rounds, at most one
-- for each key) and the loop. A field's buffer is the string of the bytes that count; the union is
-- the part that was written last. Search, Ranges and Chosen are about the searches, Kinds about
-- what each state needs of the union, Bounds, Safe and Invariant about what `parse` keeps, Pieces
-- about a body in pieces, Printing to Numbers about what is printed and read again, Body about its
-- use in RestServ.
--
-- RestServ: src/swirlyd/RestServ.cpp. A handler's reply is the two flags of `state_` with the call
-- of `Rest` that it makes, an exception, or a fault (an element of an empty vector). Records and
-- Session are the handlers, Route is `restRequest`, Http is `httpRequest` with the status of its
-- answer. Allowed says how a reply comes about, Statuses and Answers what an answer tells, Orders
-- follows the way of a new order. Emails follows the index of the emails through any message,
-- Bodies joins the interface with the parser. Rest: src/fir/Rest.cpp, what a call does to the
-- engine, which is the registry with the store of orders; Kept says which calls leave the engine
-- as it was, Registered that the index of the emails is kept.
--
-- Examples: the theorems at a market with one offer, at concrete records, dates and messages.
--
-- Parameters: the business day of a time, which comes from a time-zone library, and the journal,
-- an interface that may refuse, with an exception of any class (`Journal` in Rest.antt), so that
-- its status may be that of an exception of the service; and the parser of request bodies (Http),
-- which Bodies replaces by the one of RestRequest. Every other loop goes over a finite list.
--
-- Not modelled: failures of memory allocation; reference counts (an object that is still shared is
-- not freed); asserts, which are hypotheses of the theorems; JSON printing; the reading of the
-- model at start-up but for the index of the emails; the measurement of latency, logging and the
-- vendored HTTP server.
pub mod Common
pub mod Domain
pub mod Text
pub mod Tokeniser
pub mod JulianDay
pub mod OrderedSet
pub mod Order
pub mod Book
pub mod Exec
pub mod Posn
pub mod Session
pub mod Bits
pub mod EntitySet
pub mod Exception
pub mod Rec
pub mod Registry
pub mod RestRequest
pub mod Serv
pub mod Rest
pub mod RestServ
pub mod Examples
