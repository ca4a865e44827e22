-- ===== src/Reconcilers/Webhook/Delivery.antt =====
-- The goroutine of `sendWebhookIfConfigured` of
-- internal/controller/session_phases/reconcilers/active_reconciler.go: what it writes to the
-- standard error. `net/http` and `json.Marshal` are outside; the marshalled payload is a text.
use kube_debug_sess.Prelude.{
  ℕ, ◌<◌, ◌≤◌, ◌≡◌, ◌↔◌, inl, inr, Bool, ◌||◌, String, Option, none, some, ◌<>◌, ltb, leb,
  if◌then◌else◌, arith,
}
use kube_debug_sess.SessionPhases.Outcome.{seconds}
use kube_debug_sess.Prelude.Int.{ℤ}
use kube_debug_sess.Kube.{Fallible, Fallible-cases, ok, err}

-- A POST request, with its header and the timeout of the client that sends it.
record PostRequest : Type 0 where
  url : String
  body : String
  content_type : String
  timeout : ℤ

record HttpResponse : Type 0 where
  status_code : ℕ
  status : String

-- `http.NewRequest` and `client.Do`.
record HttpClient : Type 0 where
  new_request : String → String → Fallible String (Unit {0})
  do_request : PostRequest → Fallible String HttpResponse

abbrev post_request : String → String → PostRequest
post_request url body = record {
  url = url;
  body = body;
  content_type = "application/json";
  timeout = seconds 5;
}

abbrev is_non_2xx : ℕ → Bool
is_non_2xx code = ltb code 200 || leb 300 code

unfoldable deliver : HttpClient → String → String → Option String
deliver client url body = elim (client.new_request url body) [
  | err e ↦ some ("failed to create webhook request: " <> (e <> "\n"))
  | ok _ ↦ elim (client.do_request (post_request url body)) [
    | err e ↦ some ("failed to send webhook: " <> (e <> "\n"))
    | ok r ↦
        if is_non_2xx r.status_code
        then some ("webhook returned non-2xx status: " <> (r.status <> "\n"))
        else none
  ]
]

-- The request was made and answered with a status from 200 to 299.
record Delivered (client : HttpClient) (url body : String) : Type 0 where
  made : client.new_request url body ≡ ok tt
  response : HttpResponse
  answered : client.do_request (post_request url body) ≡ ok response
  from : 200 ≤ response.status_code
  below : response.status_code < 300

Delivered-deliver :
    (client : HttpClient) (url body : String)
    → Delivered client url body
    → deliver client url body ≡ none
unfolding deliver
Delivered-deliver client url body d = ground (arith, d.made, d.answered, d.from, d.below)

deliver-Delivered :
    (client : HttpClient) (url body : String)
    → deliver client url body ≡ none
    → Delivered client url body
unfolding deliver
deliver-Delivered client url body e = elim (Fallible-cases (client.new_request url body)) [
  | inl (_, made) ↦ elim (Fallible-cases (client.do_request (post_request url body))) [
    | inl (r, answered) ↦ record {
      made = made;
      response = r;
      answered = answered;
      from = ground arith;
      below = ground arith;
    }
    | inr (x, failed) ↦ absurd (ground arith)
  ]
  | inr (x, failed) ↦ absurd (ground arith)
]

-- What is reported tells whether the message was delivered.
deliver_iff :
    (client : HttpClient) (url body : String)
    → (deliver client url body ≡ none) ↔ Delivered client url body
deliver_iff client url body = (deliver-Delivered client url body, Delivered-deliver client url body)
