-- ===== src/RestServ/Route.antt =====
-- src/swirlyd/RestServ.cpp, `restRequest`: the choice between the parts of the interface.
use swirlyc.Common.{if◌then◌else◌}
use swirlyc.Text.{str_eq, codes}
use swirlyc.Tokeniser.{Tokeniser, empty, top, pop}
use swirlyc.RestServ.{Query, Reply, no_match, view_request}
use swirlyc.RestServ.Records.{rec_request}
use swirlyc.RestServ.Session.{sess_request}

-- `restRequest`.
unfoldable pub rest_request : Query → Tokeniser → Reply
unfolding empty top pop rec_request sess_request view_request
rest_request q t =
    let t' = pop b'/' t in
    if empty t
    then no_match
    else if str_eq (top t) (codes "rec")
    then rec_request q t'
    else if str_eq (top t) (codes "sess")
    then sess_request q t'
    else if str_eq (top t) (codes "view")
    then view_request q t'
    else no_match
