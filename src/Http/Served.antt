-- ===== src/Http/Served.antt =====
-- The replies of the handlers, as they write them through the middleware.
use go_ordersvc.Prelude.{
  ℕ, ⊤, Bool, true, false, String, Option, none, some, List, [], ◌∷◌, ◌++◌, ◌≡◌, refl, arith, inl,
  inr, str_eq, Bool-cases, is_empty, if◌then◌else◌,
}
use go_ordersvc.Json.{Json}
use go_ordersvc.Platform.{Platform}
use go_ordersvc.Effect.{Result, ok, err, Action, Result-cases}
use go_ordersvc.Domain.Errors.{Error, DomainError}
use go_ordersvc.Domain.Order.{Order}
use go_ordersvc.Service.Interface.{OrderService}
use go_ordersvc.Http.Handlers.{
  HttpRequest, Reply, create_order, get_order, list_orders, update_order_status, update_order,
  json_reply, write_error, service_error_reply, handle_service_error, order_reply, respond,
  orders_reply, created_reply, no_content, with_id, with_body, delete_order, cause,
}
use go_ordersvc.Http.Messages.{decode_create, decode_update, decode_status}
use go_ordersvc.Http.Params.{list_request}
use go_ordersvc.Http.Health.{
  HealthChecker, HealthHandler, healthz, readyz, check_database, answer_ping,
}
use go_ordersvc.Http.Router.{Endpoint}
use go_ordersvc.Middleware.Writer.{
  WriterCall, sets_header, writes_header, writes, is_final, Request, returns, Calls,
}

abbrev pub header_call : {B : Type 0} → String → Option String → List (WriterCall B)
header_call key none = []
header_call key (some value) = sets_header key value ∷ []

abbrev pub body_call : {B : Type 0} → Option B → List (WriterCall B)
body_call none = []
body_call (some body) = writes body ∷ []

module _ {p : Platform} where
  open p use {Float64}

  -- `w.Header().Set(…)`, `w.WriteHeader(status)` and the encoding of the body, as CreateOrder ends;
  -- the other replies, those of writeError too, are written the same way and have no Location.
  abbrev pub write_reply : Reply p → List (WriterCall (Json Float64))
  write_reply reply =
      header_call "Content-Type" reply.content_type
      ++ (header_call "Location" reply.location
          ++ (writes_header reply.status ∷ body_call reply.body))

  -- A handler of the service, with what chi and net/http read of the request for it.
  abbrev pub endpoint_calls :
      {S : Type 0} → (Request → HttpRequest p) → Endpoint p S → Calls (Json Float64) S
  endpoint_calls read endpoint r s =
      let (reply, s') = endpoint (read r) s in (returns, write_reply reply, s')

  -- What answers with a final status code.
  unfoldable pub IsFinal : {S : Type 0} → (S → Reply p × S) → Type 0
  IsFinal {S} k = (s : S) → is_final (k s).0.status ≡ true

module _ (p : Platform) where
  service_error_reply-final :
      (cause : Option DomainError) → is_final (service_error_reply {p = p} cause).status ≡ true
  unfolding service_error_reply write_error json_reply
  service_error_reply-final cause = ground arith

  handle_service_error-final : (e : Error) → is_final (handle_service_error {p = p} e).status ≡ true
  unfolding handle_service_error
  handle_service_error-final e = service_error_reply-final (cause e)

  module _ {S : Type 0} (service : OrderService p S) where
    respond-IsFinal :
        {A : Type 0} (call : Action S A) (reply : A → Reply p)
        → ((a : A) → is_final (reply a).status ≡ true)
        → IsFinal (respond service call reply)
    unfolding IsFinal
    respond-IsFinal call reply h s = elim (Result-cases (call s).0) [
      | inl (a, e) ↦ rw (e, respond) (h a)
      | inr (x, e) ↦ rw (e, respond) (handle_service_error-final x)
    ]

    with_id-IsFinal :
        (r : HttpRequest p) (k : S → Reply p × S) → IsFinal k → IsFinal (with_id service r k)
    unfolding IsFinal write_error json_reply
    with_id-IsFinal r k h s = elim (Bool-cases (str_eq r.id "")) [
      | inl empty ↦ rw (empty, with_id) refl
      | inr given ↦ rw (given, with_id) (h s)
    ]

    with_body-IsFinal :
        {A : Type 0} (body : Option A) (k : A → S → Reply p × S)
        → ((a : A) → IsFinal (k a))
        → IsFinal (with_body service body k)
    unfolding IsFinal write_error json_reply
    with_body-IsFinal none k h s = refl
    with_body-IsFinal (some a) k h s = h a s

    -- A check that answers with 400.
    refused_or-IsFinal :
        (test : Bool) (message code : String) (k : S → Reply p × S)
        → IsFinal k
        → IsFinal (λ s. if test then (write_error 400 message code, s) else k s)
    unfolding IsFinal write_error json_reply
    refused_or-IsFinal true message code k h s = refl
    refused_or-IsFinal false message code k h s = h s

    order_reply-final :
        (status : ℕ) (o : Order p)
        → is_final status ≡ true
        → is_final (order_reply status o).status ≡ true
    unfolding order_reply json_reply
    order_reply-final status o h = h

    answers_order :
        (status : ℕ) (call : Action S (Order p))
        → is_final status ≡ true
        → IsFinal (respond service call (order_reply status))
    answers_order status call h =
        respond-IsFinal call (order_reply status) λ o. order_reply-final status o h

    pub get_order-IsFinal : (r : HttpRequest p) → IsFinal (get_order service r)
    unfolding get_order
    get_order-IsFinal r =
        with_id-IsFinal r _ (answers_order 200 (service.get_order_by_id r.id) refl)

    pub list_orders-IsFinal : (r : HttpRequest p) → IsFinal (list_orders service r)
    unfolding list_orders json_reply
    list_orders-IsFinal r =
        respond-IsFinal (service.list_orders (list_request r.query)) (orders_reply service r.query)
          λ result. refl

    pub delete_order-IsFinal : (r : HttpRequest p) → IsFinal (delete_order service r)
    unfolding delete_order
    delete_order-IsFinal r =
        with_id-IsFinal r _
          (respond-IsFinal (service.delete_order r.id) (no_content service) λ _. refl)

    pub update_order_status-IsFinal : (r : HttpRequest p) → IsFinal (update_order_status service r)
    unfolding update_order_status
    update_order_status-IsFinal r = with_id-IsFinal r _ (
        with_body-IsFinal (decode_status p r.body) _ λ status.
          refused_or-IsFinal (str_eq status "") _ _ _
            (answers_order 200 (service.update_order_status r.id status) refl))

    pub update_order-IsFinal : (r : HttpRequest p) → IsFinal (update_order service r)
    unfolding update_order
    update_order-IsFinal r = with_id-IsFinal r _ (
        with_body-IsFinal (decode_update p r.body) _
          λ req. refused_or-IsFinal (is_empty req.items) _ _ _ (answers_order 200 _ refl))

    pub create_order-IsFinal : (r : HttpRequest p) → IsFinal (create_order service r)
    unfolding create_order order_reply json_reply
    create_order-IsFinal r = with_body-IsFinal (decode_create p r.body) _ λ req.
        refused_or-IsFinal (str_eq req.customer_id "") _ _ _ (
          refused_or-IsFinal (is_empty req.items) _ _ _
            (respond-IsFinal _ (created_reply service) λ o. refl))

  pub healthz-IsFinal : {S : Type 0} (h : HealthHandler S) → IsFinal (healthz {p = p} h)
  unfolding IsFinal healthz json_reply
  healthz-IsFinal h s = refl

  check_database-IsFinal :
      {S : Type 0} (version : String) (checker : Option (HealthChecker S))
      → IsFinal (check_database {p = p} version checker)
  unfolding IsFinal json_reply
  check_database-IsFinal {S} version none s = refl
  check_database-IsFinal {S} version (some checker) s = answer (checker.ping s).0 (checker.ping s).1
    where
      answer :
          (r : Result ⊤) (s' : S) → is_final (answer_ping {p = p} version (r, s')).0.status ≡ true
      answer (ok _) s' = refl
      answer (err e) s' = refl

  pub readyz-IsFinal : {S : Type 0} (h : HealthHandler S) → IsFinal (readyz {p = p} h)
  unfolding readyz
  readyz-IsFinal h = check_database-IsFinal h.version h.db_checker
