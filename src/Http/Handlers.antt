-- ===== src/Http/Handlers.antt =====
-- internal/handler/http/order_handler.go. A handler takes a request and writes one reply; the
-- state is whatever the service acts on.
use go_ordersvc.Prelude.{ℕ, ⊤, String, Option, none, some, str_eq, is_empty, if◌then◌else◌}
use go_ordersvc.Json.{Json}
use go_ordersvc.Platform.{Platform}
use go_ordersvc.Effect.{ok, err, Action}
use go_ordersvc.Domain.Errors.{
  DomainError, order_not_found, invalid_customer_id, no_items, invalid_transition,
  order_already_deleted, concurrent_modification, Error, domain, outside, wrapped,
}
use go_ordersvc.Domain.Order.{Order, PaginatedOrders}
use go_ordersvc.Service.Interface.{OrderService, CreateOrderDto, UpdateOrderDto}
use go_ordersvc.Http.Params.{query_limit, query_offset, list_request}
use go_ordersvc.Http.Messages.{
  decode_create, decode_update, decode_status, map_request_to_order_items, map_order_to_response,
  map_orders_to_response, encode_order, encode_orders, encode_error,
}
use Prim.Native.String

-- What `errors.Is` finds at the end of a chain of wrapped errors. Every sentinel value stands alone
-- there, so that at most one case of the switch below holds.
abbrev pub cause : Error → Option DomainError
cause (domain e) = some e
cause (outside _) = none
cause (wrapped _ e) = cause e

module _ (p : Platform) where
  open p use {Float64}

  -- A request: `chi.URLParam(r, "id")`, the query, and the body's first JSON value, if it has one.
  pub record HttpRequest : Type 0 where
    pub id : String
    pub query : String → String
    pub body : Option (Json Float64)

  -- A reply: the status code, two headers, and the body, if one was written.
  pub record Reply : Type 0 where
    pub status : ℕ
    pub content_type : Option String
    pub location : Option String
    pub body : Option (Json Float64)

module _ {p : Platform} where
  open p use {Float64, uuid_string}

  unfoldable pub json_reply : ℕ → Option (Json Float64) → Reply p
  json_reply status body = record {
    status = status;
    content_type = some "application/json";
    location = none;
    body = body;
  }

  unfoldable pub write_error : ℕ → String → String → Reply p
  unfolding json_reply
  write_error status message code = json_reply status (some (encode_error p message code))

  -- The switch on a service's error, by its cause.
  unfoldable pub service_error_reply : Option DomainError → Reply p
  unfolding write_error
  service_error_reply (some order_not_found) = write_error 404 "order not found" "ORDER_NOT_FOUND"
  service_error_reply (some invalid_transition) =
      write_error 400 "invalid status transition" "INVALID_TRANSITION"
  service_error_reply (some concurrent_modification) =
      write_error 409 "order was modified by another process" "CONCURRENT_MODIFICATION"
  service_error_reply (some invalid_customer_id) =
      write_error 400 "invalid customer ID" "INVALID_CUSTOMER_ID"
  service_error_reply (some no_items) =
      write_error 400 "order must have at least one item" "NO_ITEMS"
  service_error_reply (some order_already_deleted) =
      write_error 404 "order not found" "ORDER_NOT_FOUND"
  service_error_reply _ = write_error 500 "internal server error" "INTERNAL_ERROR"

  unfoldable pub handle_service_error : Error → Reply p
  unfolding service_error_reply
  handle_service_error e = service_error_reply (cause e)

  unfoldable pub order_reply : ℕ → Order p → Reply p
  unfolding json_reply
  order_reply status order = json_reply status (encode_order p (map_order_to_response p order))

module _ {p : Platform} {S : Type 0} (service : OrderService p S) where
  open p use {Float64, uuid_string}

  -- A call of the service, and the reply to how it ended.
  abbrev pub respond : {A : Type 0} → Action S A → (A → Reply p) → S → Reply p × S
  respond call reply s =
      let (r, s') = call s in elim r [ ok a ↦ (reply a, s') | err e ↦ (handle_service_error e, s') ]

  -- A handler of a path with an id.
  abbrev pub with_id : HttpRequest p → (S → Reply p × S) → S → Reply p × S
  with_id r k s =
      if str_eq r.id "" then (write_error 400 "order ID is required" "MISSING_ID", s) else k s

  -- A handler that reads its body.
  abbrev pub with_body : {A : Type 0} → Option A → (A → S → Reply p × S) → S → Reply p × S
  with_body none k s = (write_error 400 "invalid request body" "INVALID_REQUEST", s)
  with_body (some req) k s = k req s

  abbrev pub created_reply : Order p → Reply p
  created_reply order = record (order_reply 201 order) {
    location = some (String.◌++◌ "/api/v1/orders/" (uuid_string order.id));
  }

  unfoldable pub create_order : HttpRequest p → S → Reply p × S
  create_order r = with_body (decode_create p r.body) λ req s.
      if str_eq req.customer_id ""
      then (write_error 400 "customer_id is required" "MISSING_CUSTOMER_ID", s)
      else if is_empty req.items
      then (write_error 400 "items are required" "MISSING_ITEMS", s)
      else let dto : CreateOrderDto p = record {
        customer_id = req.customer_id;
        items = map_request_to_order_items p req.items;
      } in
        respond (service.create_order dto) created_reply s

  unfoldable pub get_order : HttpRequest p → S → Reply p × S
  get_order r = with_id r (respond (service.get_order_by_id r.id) (order_reply 200))

  abbrev pub orders_reply : (String → String) → PaginatedOrders p → Reply p
  orders_reply query result = json_reply 200 (
      encode_orders p (record {
        orders = map_orders_to_response p result.orders;
        total = result.total_count;
        limit = query_limit query;
        offset = query_offset query;
      }))

  unfoldable pub list_orders : HttpRequest p → S → Reply p × S
  list_orders r = respond (service.list_orders (list_request r.query)) (orders_reply r.query)

  unfoldable pub update_order_status : HttpRequest p → S → Reply p × S
  update_order_status r = with_id r (
      with_body (decode_status p r.body) λ status s.
        if str_eq status ""
        then (write_error 400 "status is required" "MISSING_STATUS", s)
        else respond (service.update_order_status r.id status) (order_reply 200) s)

  unfoldable pub update_order : HttpRequest p → S → Reply p × S
  update_order r = with_id r (
      with_body (decode_update p r.body) λ req s.
        if is_empty req.items
        then (write_error 400 "items are required" "MISSING_ITEMS", s)
        else let dto : UpdateOrderDto p = record {
          items = map_request_to_order_items p req.items;
          status = none;
        } in
          respond (service.update_order r.id dto) (order_reply 200) s)

  abbrev pub no_content : ⊤ → Reply p
  no_content _ = record { status = 204; content_type = none; location = none; body = none }

  unfoldable pub delete_order : HttpRequest p → S → Reply p × S
  delete_order r = with_id r (respond (service.delete_order r.id) no_content)

module _ (p : Platform) (S : Type 0) where
  pub record OrderHandler : Type 0 where
    pub service : OrderService p S

abbrev pub new_order_handler : {p : Platform} {S : Type 0} → OrderService p S → OrderHandler p S
new_order_handler svc = record { service = svc }
