-- ===== src/RestServ/Http.antt =====
-- src/swirlyd/RestServ.cpp, `httpRequest`: from a message to the status of its answer. The parser of
-- the body is a parameter: it throws, or tells whether the body is complete and what it says. The
-- measurement of latency and the serving of files are left out.
use swirlyc.Common.{ℕ, ◌==◌, not, [], ◌∷◌, Option, none, some, if◌then◌else◌}
use swirlyc.Domain.{Jday, Millis}
use swirlyc.Text.{Str, str_eq, codes}
use swirlyc.Tokeniser.{Tokeniser, reset, empty, top, pop}
use swirlyc.Exception.{Exception, Result, ok, throw, kind_of, http_status}
use swirlyc.RestRequest
use swirlyc.RestRequest.{RestRequest}
use swirlyc.Rest.{Journal, Engine, After, perform}
use swirlyc.RestServ.{Outcome, Reply, method_of}
use swirlyc.RestServ.Route.{rest_request}

pub record Message : Type 0 where
  pub method : Str
  pub uri : Str
  pub user : Str
  pub body : Str

-- A message that is not the interface's is answered from the files; a fault has no answer.
pub data Answer : Type 0 where
  file fault : Answer
  status : ℕ → Engine → Answer

-- `reset` of the path. A message has a path that is not empty.
abbrev pub strip_slash : Str → Str
strip_slash [] = []
strip_slash (c ∷ s) = if c == b'/' then s else c ∷ s

abbrev pub status_of : Exception → ℕ
status_of x = http_status (kind_of x)

-- The tests after `restRequest`.
unfoldable pub checked : Reply → Engine → Answer
unfolding kind_of http_status
checked r e =
    if not r.match_uri
    then Answer.status (status_of Exception.not_found) e
    else if not r.match_method
    then Answer.status (status_of Exception.method_not_allowed) e
    else Answer.status 200 e

-- The end of a call: an exception is answered by its status.
unfoldable pub answered : Reply → After → Answer
unfolding checked kind_of http_status
answered r (e, none) = checked r e
answered r (e, some x) = Answer.status (status_of x) e

module _ (parse : Str → Result (Option RestRequest)) (bus_day : Millis → Jday) (journ : Journal)
    (now : Millis) where
  -- The body's fields, or none where the body is empty.
  unfoldable pub read_body : Str → Result RestRequest
  read_body [] = ok RestRequest.reset
  read_body (c ∷ s) = elim (parse (c ∷ s)) [
    | throw x ↦ throw x
    | ok none ↦ throw Exception.bad_request
    | ok (some r) ↦ ok r
  ]

  unfoldable pub run : Reply → Engine → Answer
  unfolding perform answered checked kind_of http_status
  run r e = elim (r.outcome) [
    | Outcome.nothing ↦ checked r e
    | Outcome.fault ↦ Answer.fault
    | Outcome.called c ↦ answered r (perform bus_day journ now c e)
    | Outcome.thrown x ↦ Answer.status (status_of x) e
  ]

  -- Below /api: the tokeniser stands after this word.
  unfoldable pub api_request : Message → Tokeniser → Engine → Answer
  unfolding method_of read_body rest_request run kind_of http_status
  api_request m t e = elim (read_body m.body) [
    | throw x ↦ Answer.status (status_of x) e
    | ok r ↦
        run (rest_request (record { method = method_of m.method; user = m.user; request = r }) t) e
  ]

  unfoldable pub http_request : Message → Engine → Answer
  unfolding reset empty top pop api_request
  http_request m e =
      let t = reset b'/' (strip_slash m.uri) in
      if empty t
      then Answer.file
      else if not (str_eq (top t) (codes "api"))
      then Answer.file
      else api_request m (pop b'/' t) e
