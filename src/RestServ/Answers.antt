-- ===== src/RestServ/Answers.antt =====
-- src/swirlyd/RestServ.cpp, `httpRequest`: the promises of the interface to its clients.
use swirlyc.Common.{
  ℕ, ◌≡◌, ◌≢◌, ◌==◌, ◌||◌, refl, sym, ap, subst, ◌∙◌, arith, Bool, true, Option, none,
}
use swirlyc.Domain.{Jday, Millis}
use swirlyc.Text.{Str}
use swirlyc.Exception.{Exception, Result, ok, kind_of, http_status}
use swirlyc.RestRequest.{RestRequest}
use swirlyc.Rest.{Journal, Engine, perform}
use swirlyc.Rest.Kept.{perform_get}
use swirlyc.RestServ.{Method, Call, method_of}
use swirlyc.RestServ.Allowed.{Allowed}
use swirlyc.RestServ.Http.{Message, Answer, status_of, http_request, read_body}
use swirlyc.RestServ.Statuses.{Told, http_request-Told, query}

-- The statuses that an answer can have.
abbrev pub is_status : ℕ → Bool
is_status s =
    (s == 200)
    || (s == 400)
    || (s == 401)
    || (s == 403)
    || (s == 404)
    || (s == 405)
    || (s == 500)
    || (s == 503)

status_of_lem : (x : Exception) → (is_status (status_of x) ≡ true) × (status_of x ≢ 200)
unfolding kind_of http_status
status_of_lem x = ground arith

-- The engine that an answer leaves.
abbrev pub engine_after : Engine → Answer → Engine
engine_after e Answer.file = e
engine_after e Answer.fault = e
engine_after e (Answer.status s e') = e'

abbrev status_or : ℕ → Answer → ℕ
status_or d Answer.file = d
status_or d Answer.fault = d
status_or d (Answer.status s e) = s

-- The number of an answer, where it has one.
abbrev pub Has : (ℕ → Engine → Type 0) → Answer → Type 0
Has P Answer.file = Unit {0}
Has P Answer.fault = Unit {0}
Has P (Answer.status s e) = P s e

module _ (parse : Str → Result (Option RestRequest)) (bus_day : Millis → Jday) (journ : Journal)
    (now : Millis) where
  known_status :
      (m : Message) (e : Engine) (a : Answer)
      → Told parse bus_day journ now m e a
      → Has (λ s e'. is_status s ≡ true) a
  known_status m e a Told.static = tt
  known_status m e a Told.undefined = tt
  known_status m e a (Told.succeeded r c e' b h p) = refl
  known_status m e a (Told.failed x) = (status_of_lem x).0
  known_status m e a (Told.lost r c e' b h p) = (status_of_lem journ.refusal).0

  -- Whatever the message and the engine are, the status of an answer is one of 200, 400, 401, 403, 404,
  -- 405, 500 and 503.
  pub http_request_status :
      (m : Message) (e : Engine)
      → Has (λ s e'. is_status s ≡ true) (http_request parse bus_day journ now m e)
  http_request_status m e = known_status m e _ (http_request-Told parse bus_day journ now m e)

  kept_by_get :
      (m : Message) (e : Engine) (a : Answer)
      → Told parse bus_day journ now m e a
      → method_of m.method ≡ Method.get
      → engine_after e a ≡ e
  kept_by_get m e a Told.static g = refl
  kept_by_get m e a Told.undefined g = refl
  kept_by_get m e a (Told.succeeded r c e' b h p) g =
      sym (ap (λ q. q.0) p) ∙ perform_get bus_day journ now _ c e g h
  kept_by_get m e a (Told.failed x) g = refl
  kept_by_get m e a (Told.lost r c e' b h p) g =
      sym (ap (λ q. q.0) p) ∙ perform_get bus_day journ now _ c e g h

  -- A GET leaves the engine as it was, whatever is asked and answered.
  pub http_request-get :
      (m : Message) (e : Engine)
      → method_of m.method ≡ Method.get
      → engine_after e (http_request parse bus_day journ now m e) ≡ e
  http_request-get m e g = kept_by_get m e _ (http_request-Told parse bus_day journ now m e) g

  kept_by_failure :
      (m : Message) (e : Engine) (a : Answer)
      → Told parse bus_day journ now m e a
      → Has (λ s e'. (s ≢ 200) → (s ≢ status_of journ.refusal) → e' ≡ e) a
  kept_by_failure m e a Told.static = tt
  kept_by_failure m e a Told.undefined = tt
  kept_by_failure m e a (Told.succeeded r c e' b h p) = λ n k. absurd (n refl)
  kept_by_failure m e a (Told.failed x) = λ n k. refl
  kept_by_failure m e a (Told.lost r c e' b h p) = λ n k. absurd (k refl)

  -- One call was made, which the message's method, its user and the fields of its body allow; it threw
  -- nothing and left this engine.
  abbrev pub AnsweredBy : Message → Engine → Engine → Type 0
  AnsweredBy m e e' =
      (r : RestRequest) × (c : Call) × (read_body parse bus_day journ now m.body ≡ ok r)
      × Allowed (query parse bus_day journ now m r) c
      × (perform bus_day journ now c e ≡ (e', none))

  caused_ok :
      (m : Message) (e : Engine) (a : Answer)
      → Told parse bus_day journ now m e a
      → Has (λ s e'. s ≡ 200 → AnsweredBy m e e') a
  caused_ok m e a Told.static = tt
  caused_ok m e a Told.undefined = tt
  caused_ok m e a (Told.succeeded r c e' b h p) = λ k. (r, c, b, h, p)
  caused_ok m e a (Told.failed x) = λ k. absurd ((status_of_lem x).1 k)
  caused_ok m e a (Told.lost r c e' b h p) = λ k. absurd ((status_of_lem journ.refusal).1 k)

  -- An answer leaves the engine as it was if its status is neither 200 nor that of the exception that
  -- the journal throws where it does not store.
  pub http_request-failed :
      (m : Message) (e e' : Engine) (s : ℕ)
      → http_request parse bus_day journ now m e ≡ Answer.status s e'
      → s ≢ 200
      → s ≢ status_of journ.refusal
      → e' ≡ e
  http_request-failed m e e' s h n k =
      subst (Has (λ s e'. (s ≢ 200) → (s ≢ status_of journ.refusal) → e' ≡ e)) h
        (kept_by_failure m e _ (http_request-Told parse bus_day journ now m e)) n k

  -- The answer 200 means that one call was made, which the message's method, its user and the fields of
  -- its body allow, that it threw nothing, and that the engine is the one that it left.
  pub http_request-ok :
      (m : Message) (e e' : Engine)
      → http_request parse bus_day journ now m e ≡ Answer.status 200 e'
      → AnsweredBy m e e'
  http_request-ok m e e' h =
      subst (Has (λ s e'. s ≡ 200 → AnsweredBy m e e')) h
        (caused_ok m e _ (http_request-Told parse bus_day journ now m e)) refl
