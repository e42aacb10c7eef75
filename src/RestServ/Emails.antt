-- ===== src/RestServ/Emails.antt =====
-- src/swirlyd/RestServ.cpp, `httpRequest`: the interface keeps the index of the emails.
use swirlyc.Common.{◌≡◌, ◌≤◌, sym, subst, inl, inr, arith, length, [], ◌∷◌, Option, none, some}
use swirlyc.Domain.{Jday, Millis}
use swirlyc.Text.{Str}
use swirlyc.Exception.{Result, ok, Result-cases}
use swirlyc.RestRequest.{RestRequest}
use swirlyc.Registry.Emails.{IsRegistry}
use swirlyc.Rest.{Journal, Engine}
use swirlyc.Rest.Registered.{EmailFits, perform-IsRegistry}
use swirlyc.RestServ.{Call, Query}
use swirlyc.RestServ.Allowed.{Allowed}
use swirlyc.RestServ.Http.{Message, Answer, read_body, http_request}
use swirlyc.RestServ.Statuses.{Told, http_request-Told}
use swirlyc.RestServ.Answers.{engine_after}

email_fits : (q : Query) (c : Call) → length q.request.email ≤ 64 → Allowed q c → EmailFits c
email_fits q (Call.post_trader m d x) le a = subst (λ s. length s ≤ 64) (sym a.4) le
email_fits q c le a = tt

module _ (parse : Str → Result (Option RestRequest)) (bus_day : Millis → Jday) (journ : Journal)
    (now : Millis)
    (bounded : (s : Str) (r : RestRequest) → parse s ≡ ok (some r) → length r.email ≤ 64) where
  body_fits :
      (s : Str) (r : RestRequest) → read_body parse bus_day journ now s ≡ ok r → length r.email ≤ 64
  unfolding read_body
  body_fits [] r h = ground (arith, h)
  body_fits (c ∷ s) r h = elim (Result-cases (parse (c ∷ s))) [
    | inl (none, e) ↦ absurd (ground (arith, e, h))
    | inl (some q, e) ↦ bounded (c ∷ s) r (ground (arith, e, h))
    | inr (x, e) ↦ absurd (ground (arith, e, h))
  ]

  registered :
      (m : Message) (e : Engine) (a : Answer)
      → Told parse bus_day journ now m e a
      → IsRegistry e.registry
      → IsRegistry (engine_after e a).registry
  registered m e a Told.static i = i
  registered m e a Told.undefined i = i
  registered m e a (Told.succeeded r c e' b h p) i =
      subst (λ q. IsRegistry q.0.registry) p
        (perform-IsRegistry bus_day journ now c e (email_fits _ c (body_fits m.body r b) h) i)
  registered m e a (Told.failed x) i = i
  registered m e a (Told.lost r c e' b h p) i =
      subst (λ q. IsRegistry q.0.registry) p
        (perform-IsRegistry bus_day journ now c e (email_fits _ c (body_fits m.body r b) h) i)

  -- Whatever the message is and however it is answered, the registry's invariant is kept, where the
  -- parser gives emails that fit their field.
  pub http_request-IsRegistry :
      (m : Message) (e : Engine)
      → IsRegistry e.registry
      → IsRegistry (engine_after e (http_request parse bus_day journ now m e)).registry
  http_request-IsRegistry m e i = registered m e _ (http_request-Told parse bus_day journ now m e) i
