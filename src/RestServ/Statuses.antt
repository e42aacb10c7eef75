-- ===== src/RestServ/Statuses.antt =====
-- src/swirlyd/RestServ.cpp, `httpRequest`: what the status of an answer tells of the engine.
use swirlyc.Common.{◌≡◌, inl, inr, refl, sym, ap, subst, ◌∙◌, Bool-cases, Option, none, some}
use swirlyc.Domain.{Jday, Millis}
use swirlyc.Text.{Str, str_eq, codes}
use swirlyc.Tokeniser.{Tokeniser, reset, empty, top}
use swirlyc.Exception.{Exception, Result, ok, Result-cases, kind_of, http_status}
use swirlyc.RestRequest.{RestRequest}
use swirlyc.Rest.{Journal, Engine, After, perform}
use swirlyc.Rest.Kept.{perform_thrown}
use swirlyc.RestServ.{Call, Reply, Query, method_of, calls}
use swirlyc.RestServ.Allowed.{Allowed, Made}
use swirlyc.RestServ.Allowed.Route.{rest_request-Made}
use swirlyc.RestServ.Http.{
  Message, Answer, strip_slash, status_of, checked, answered, read_body, run, api_request,
  http_request,
}

-- What is said of an answer to a request, in terms of the call that was made.
module _ (parse : Str → Result (Option RestRequest)) (bus_day : Millis → Jday) (journ : Journal)
    (now : Millis) where
  abbrev pub query : Message → RestRequest → Query
  query m r = record { method = method_of m.method; user = m.user; request = r }

  -- How an answer to a message comes about: from the files, as a fault a
  -- request without identifiers, by a call that the request allows and that threw nothing, by an
  -- exception that left the engine as it was, or by a call that threw the journal's exception.
  pub data Told (m : Message) (e : Engine) : Answer → Type 0 where
    static : Told m e Answer.file
    undefined : Told m e Answer.fault
    succeeded :
        (r : RestRequest) (c : Call) (e' : Engine)
        → read_body parse bus_day journ now m.body ≡ ok r
        → Allowed (query m r) c
        → perform bus_day journ now c e ≡ (e', none)
        → Told m e (Answer.status 200 e')
    failed : (x : Exception) → Told m e (Answer.status (status_of x) e)
    lost :
        (r : RestRequest) (c : Call) (e' : Engine)
        → read_body parse bus_day journ now m.body ≡ ok r
        → Allowed (query m r) c
        → perform bus_day journ now c e ≡ (e', some journ.refusal)
        → Told m e (Answer.status (status_of journ.refusal) e')

  module _ (m : Message) (e : Engine) (r : RestRequest)
      (read : read_body parse bus_day journ now m.body ≡ ok r) where
    called-Told :
        (c : Call) (p : After)
        → Allowed (query m r) c
        → perform bus_day journ now c e ≡ p
        → Told m e (answered (calls c) p)
    unfolding answered checked kind_of http_status
    called-Told c (e', none) a h = Told.succeeded r c e' read a h
    called-Told c (e', some x) a h =
        elim (perform_thrown bus_day journ now c e x (ap (λ p. p.1) h)) [
          | inl other ↦ rw other (Told.lost r c e' read a (h ∙ ap (λ y. (e', some y)) other))
          | inr same ↦
              subst (λ f. Told m e (Answer.status (status_of x) f)) (sym same ∙ ap (λ p. p.0) h)
                (Told.failed x)
        ]

    run-Told : (y : Reply) → Made (query m r) y → Told m e (run parse bus_day journ now y e)
    unfolding run checked kind_of http_status
    run-Told y Made.unmatched = Told.failed Exception.not_found
    run-Told y (Made.matched_path n) = Told.failed Exception.method_not_allowed
    run-Told y (Made.called c a) = called-Told c (perform bus_day journ now c e) a refl
    run-Told y (Made.invalid n) = Told.failed Exception.invalid
    run-Told y (Made.unauthorized m) = Told.failed Exception.unauthorized
    run-Told y Made.unknown = Told.failed Exception.not_found
    run-Told y (Made.faulted) = Told.undefined

  api_request-Told :
      (m : Message) (t : Tokeniser) (e : Engine)
      → Told m e (api_request parse bus_day journ now m t e)
  unfolding api_request
  api_request-Told m t e = elim (Result-cases (read_body parse bus_day journ now m.body)) [
    | inl (r, h) ↦ rw (h, api_request) (run-Told m e r h _ (rest_request-Made _ t))
    | inr (x, h) ↦ rw (h, api_request) (Told.failed x)
  ]

  -- Every answer comes about in one of these ways.
  pub http_request-Told :
      (m : Message) (e : Engine) → Told m e (http_request parse bus_day journ now m e)
  unfolding http_request
  http_request-Told m e = elim (Bool-cases (empty (reset b'/' (strip_slash m.uri)))) [
    | inl h ↦ rw (h, http_request) Told.static
    | inr h ↦ elim (Bool-cases (str_eq (top (reset b'/' (strip_slash m.uri))) (codes "api"))) [
      | inl g ↦ rw (h, g, http_request) (api_request-Told m _ e)
      | inr g ↦ rw (h, g, http_request) Told.static
    ]
  ]
