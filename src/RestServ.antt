-- ===== src/RestServ.antt =====
-- src/swirlyd/RestServ.hpp and src/swirlyd/RestServ.cpp: what a request to the server calls. The bits
-- of `state_` are the request's method and the two flags of a reply.
use swirlyc.Common.{
  ℕ, zero, suc, ℤ, Bool, true, false, not, ◌==◌, List, [], ◌∷◌, Option, none, some, length,
  if◌then◌else◌,
}
use swirlyc.Domain.{Iden, Lots, Ticks, Side}
use swirlyc.Text.{Str, str_eq, codes}
use swirlyc.Text.Number.{stou64}
use swirlyc.Tokeniser.{Tokeniser, reset, top, empty, pop}
use swirlyc.Bits.{Bits}
use swirlyc.Exception.{Exception}
use swirlyc.RestRequest.{RestRequest}
pub mod Records
pub mod Session
pub mod Route
pub mod Http
pub mod Allowed
pub mod Statuses
pub mod Answers
pub mod Orders
pub mod Emails
pub mod Bodies

pub data Method : Type 0 where
  get post put delete other : Method

unfoldable pub method_of : Str → Method
method_of s =
    if str_eq s (codes "GET")
    then Method.get
    else if str_eq s (codes "POST")
    then Method.post
    else if str_eq s (codes "PUT")
    then Method.put
    else if str_eq s (codes "DELETE")
    then Method.delete
    else Method.other

-- The calls of `Rest`, with their arguments but for the time and the stream.
pub data Call : Type 0 where
  get_rec : Bits → Call
  get_assets get_contrs get_markets get_traders : Call
  get_asset get_contr get_market get_trader : Str → Call
  post_market : Str → Str → Str → ℤ → ℤ → ℕ → Call
  put_market : Str → Option Str → Option ℕ → Call
  post_trader : Str → Str → Str → Call
  put_trader : Str → Str → Call
  get_sess : Bits → Call
  get_orders get_trades get_posns get_views : Call
  get_market_orders get_market_trades get_contr_posns get_view : Str → Call
  get_order get_trade : Str → ℕ → Call
  get_posn : Str → ℤ → Call
  post_order : Str → Str → Str → Option Side → Lots → Ticks → Lots → Call
  put_order delete_order delete_trade : Str → List Iden → Call
  post_trade : Str → Call

-- How a handler ends. A fault is a read past the end of a vector, which is undefined.
pub data Outcome : Type 0 where
  nothing fault : Outcome
  called : Call → Outcome
  thrown : Exception → Outcome

pub record Reply : Type 0 where
  pub match_uri : Bool
  pub match_method : Bool
  pub outcome : Outcome

-- What a handler reads of a request: the header that names the user, and the parsed body.
pub record Query : Type 0 where
  pub method : Method
  pub user : Str
  pub request : RestRequest

-- The ends of a handler: no match, a match of the path alone, of path and method with a call or an
-- exception, and an exception before any match.
abbrev pub no_match : Reply
no_match = record { match_uri = false; match_method = false; outcome = Outcome.nothing }

abbrev pub path_only : Reply
path_only = record { match_uri = true; match_method = false; outcome = Outcome.nothing }

abbrev pub calls : Call → Reply
calls c = record { match_uri = true; match_method = true; outcome = Outcome.called c }

abbrev pub throws : Exception → Reply
throws e = record { match_uri = true; match_method = true; outcome = Outcome.thrown e }

abbrev pub throws_early : Exception → Reply
throws_early e = record { match_uri = false; match_method = false; outcome = Outcome.thrown e }

abbrev pub faults : Reply
faults = record { match_uri = true; match_method = true; outcome = Outcome.fault }

-- The switch on the method: what GET, POST, PUT and DELETE answer. A method without a case is given
-- the match of the path alone, and so is every other method.
abbrev pub on_method : Method → Reply → Reply → Reply → Reply → Reply
on_method Method.get a b c d = a
on_method Method.post a b c d = b
on_method Method.put a b c d = c
on_method Method.delete a b c d = d
on_method Method.other a b c d = path_only

-- A resource that only answers GET.
abbrev pub get_only : Query → Call → Reply
get_only q c = on_method q.method (calls c) path_only path_only path_only

-- `parseIds`, in at most n rounds.
unfoldable pub ids_loop : ℕ → Tokeniser → List Iden
unfolding stou64 empty top pop
ids_loop zero t = []
ids_loop (suc n) t = elim (empty t) [ true ↦ [] | false ↦ stou64 (top t) ∷ ids_loop n (pop b',' t) ]

unfoldable pub parse_ids : Str → List Iden
unfolding ids_loop reset
parse_ids s = ids_loop (length s) (reset b',' s)

-- `viewRequest`.
unfoldable pub view_request : Query → Tokeniser → Reply
unfolding empty top pop
view_request q t =
    if empty t
    then get_only q Call.get_views
    else if empty (pop b'/' t)
    then get_only q (Call.get_view (top t))
    else no_match
