-- ===== src/Http/Access.antt =====
-- The access log of the API: what the logging of internal/middleware/logging.go says of the requests
-- that the router's handlers answer.
use go_ordersvc.Prelude.{
  ℕ, true, false, String, Option, none, some, List, ◌∷◌, ◌++◌, ◌≡◌, refl, ◌∙◌, ap, All,
}
use go_ordersvc.Json.{Json}
use go_ordersvc.Platform.{Platform}
use go_ordersvc.Http.Handlers.{HttpRequest, Reply, OrderHandler}
use go_ordersvc.Http.Health.{HealthHandler}
use go_ordersvc.Http.Router.{Endpoint, Route}
use go_ordersvc.Http.Routes.{documented}
use go_ordersvc.Http.Served.{
  header_call, body_call, write_reply, endpoint_calls, IsFinal, get_order-IsFinal,
  list_orders-IsFinal, delete_order-IsFinal, update_order_status-IsFinal, update_order-IsFinal,
  create_order-IsFinal, healthz-IsFinal, readyz-IsFinal,
}
use go_ordersvc.Middleware.Writer.{
  WriterCall, perform_all, Response, fresh, is_final, net_http, client_status, Request, returns,
  handler, writes_header, send,
}
use go_ordersvc.Middleware.Logging.{LogLine, logging}
use go_ordersvc.Middleware.Logged.{logged, header_first, after_header, send-final, logging-status}

module _ {B : Type 0} where
  header_first-header_call :
      (key : String) (value : Option String) (calls : List (WriterCall B))
      → header_first false (header_call key value ++ calls) ≡ header_first false calls
  header_first-header_call key none calls = refl
  header_first-header_call key (some value) calls = refl

  -- The headers of a reply do not send anything yet.
  unsent :
      (key : String) (value : Option String) (calls : List (WriterCall B)) (r : Response B)
      → r.status ≡ none
      → (r' : Response B) × (r'.status ≡ none)
        × (perform_all net_http (header_call key value ++ calls) r ≡ perform_all net_http calls r')
  unsent key none calls r h = (r, h, refl)
  unsent key (some value) calls r h = (net_http.set_header key value r, h, refl)

module _ {p : Platform} where
  open p use {Float64}

  abbrev answer_of : Reply p → Response (Json Float64)
  answer_of reply = perform_all net_http (write_reply reply) fresh

  abbrev rest_of : Reply p → List (WriterCall (Json Float64))
  rest_of reply = writes_header reply.status ∷ body_call reply.body

  write_reply-header_first :
      (reply : Reply p)
      → is_final reply.status ≡ true
      → header_first false (write_reply reply) ≡ true
  write_reply-header_first reply h =
      header_first-header_call "Content-Type" reply.content_type
        (header_call "Location" reply.location ++ rest_of reply)
      ∙ header_first-header_call "Location" reply.location (rest_of reply)
      ∙ h

  write_reply-status :
      (reply : Reply p)
      → is_final reply.status ≡ true
      → client_status (answer_of reply) ≡ reply.status
  write_reply-status reply h =
      let (r₁, none₁, same₁) =
        unsent "Content-Type" reply.content_type
          (header_call "Location" reply.location ++ rest_of reply) fresh refl in
      let (r₂, none₂, same₂) = unsent "Location" reply.location (rest_of reply) r₁ none₁ in
      ap client_status (same₁ ∙ same₂)
      ∙ (after_header (body_call reply.body) (send reply.status r₂.status r₂) reply.status
          (send-final reply.status r₂ h none₂)).1

module _ {p : Platform} {S : Type 0} (logger : LogLine → S → S) (now : S → ℕ × S)
    (read : Request → HttpRequest p) where
  open p use {Float64}

  -- A request to an endpoint: one line is logged, with the status of the reply, which is the status
  -- that the client gets.
  abbrev pub LogsItsStatus : Endpoint p S → Type 0
  LogsItsStatus endpoint =
      (r : Request) (s : S)
      → let reply = (endpoint (read r) (now s).1).0 in
        let answered = perform_all net_http (write_reply reply) fresh in
        (logging logger now (handler (endpoint_calls read endpoint)) (Response (Json Float64))
            net_http r fresh s
          ≡ (returns, answered, logged logger now r reply.status s (endpoint (read r) (now s).1).1))
        × (client_status answered ≡ reply.status)

  logs :
      (endpoint : Endpoint p S)
      → ((r : HttpRequest p) → IsFinal (endpoint r))
      → LogsItsStatus endpoint
  unfolding IsFinal
  logs endpoint h r s =
      let (reply, s') = endpoint (read r) (now s).1 in
      let final = h (read r) (now s).1 in
      let status = write_reply-status reply final in
      (
        logging-status logger now (endpoint_calls read endpoint) r s s' (write_reply reply) refl
              (write_reply-header_first reply final)
            ∙ rw status refl,
        status,
      )

  -- For each endpoint that docs/API.md documents and any request: behind the logging middleware one
  -- line is logged, after the handler has returned, with the status of the reply of the handler,
  -- which is the status that the client gets; and the client gets what the handler writes.
  pub documented-LogsItsStatus :
      (orders : OrderHandler p S) (health : HealthHandler S)
      → All (λ (e : Route (Endpoint p S)). LogsItsStatus e.endpoint) (documented orders health)
  documented-LogsItsStatus orders health = (
    logs _ (create_order-IsFinal p orders.service),
    (
      logs _ (get_order-IsFinal p orders.service),
      (
        logs _ (list_orders-IsFinal p orders.service),
        (
          logs _ (update_order-IsFinal p orders.service),
          (
            logs _ (update_order_status-IsFinal p orders.service),
            (
              logs _ (delete_order-IsFinal p orders.service),
              (logs _ (λ _. healthz-IsFinal p health), (logs _ (λ _. readyz-IsFinal p health), tt)),
            ),
          ),
        ),
      ),
    ),
  )
