-- ===== src/RestServ/Allowed/Route.antt =====
-- src/swirlyd/RestServ.cpp: how the replies of `restRequest` come about.
use swirlyc.Text.{str_eq, codes}
use swirlyc.Tokeniser.{Tokeniser, empty, top, pop}
use swirlyc.RestServ.{Query}
use swirlyc.RestServ.Route.{rest_request}
use swirlyc.RestServ.Allowed.{Made, if-Made}
use swirlyc.RestServ.Allowed.Records.{rec_request-Made}
use swirlyc.RestServ.Allowed.Session.{view_request-Made, sess_request-Made}

module _ (q : Query) where
  -- Every reply comes about in one of these ways; a call is made only for a request with its method,
  -- its user and its fields.
  pub rest_request-Made : (t : Tokeniser) → Made q (rest_request q t)
  unfolding rest_request
  rest_request-Made t = if-Made q (empty t) Made.unmatched (
      if-Made q (str_eq (top t) (codes "rec")) (rec_request-Made q (pop b'/' t)) (
        if-Made q (str_eq (top t) (codes "sess")) (sess_request-Made q (pop b'/' t)) (
          if-Made q (str_eq (top t) (codes "view")) (view_request-Made q (pop b'/' t))
            Made.unmatched)))
