-- ===== src/Grpc/Handlers.antt =====
-- internal/handler/grpc/order_handler.go: GetOrder, ListOrders, and the codes of errors.
use go_ordersvc.Prelude.{String, Option, none, some, map, str_eq, if◌then◌else◌}
use go_ordersvc.Prelude.Int.{ℤ, int32}
use go_ordersvc.Platform.{Platform}
use go_ordersvc.Effect.{ok, err, Action}
use go_ordersvc.Domain.Errors.{
  order_not_found, invalid_customer_id, no_items, invalid_product_id, invalid_product_name,
  invalid_quantity, invalid_price, invalid_transition, concurrent_modification, Error, domain,
  error_text,
}
use go_ordersvc.Domain.Order.{PaginatedOrders}
use go_ordersvc.Service.Interface.{OrderService, ListOrdersRequest}
use go_ordersvc.Grpc.Messages.{ProtoOrder, ListOrdersResponse, order_to_proto}

-- The codes that the handlers use.
pub data Code : Type 0 where
  not_found invalid_argument aborted internal unavailable : Code

-- `domainToGRPCError`, which compares by `==`: a wrapped error is internal.
unfoldable pub code_of : Error → Code
code_of (domain order_not_found) = not_found
code_of (domain invalid_customer_id) = invalid_argument
code_of (domain no_items) = invalid_argument
code_of (domain invalid_quantity) = invalid_argument
code_of (domain invalid_price) = invalid_argument
code_of (domain invalid_product_id) = invalid_argument
code_of (domain invalid_product_name) = invalid_argument
code_of (domain invalid_transition) = invalid_argument
code_of (domain concurrent_modification) = aborted
code_of _ = internal

unfoldable pub domain_to_grpc_error : Error → Code × String
unfolding code_of
domain_to_grpc_error e = (code_of e, error_text e)

-- A filter of a request that is not the empty text.
abbrev pub filter_of : String → Option String
filter_of text = if str_eq text "" then none else some text

pub record GrpcListRequest : Type 0 where
  pub page : ℤ
  pub page_size : ℤ
  pub status : String
  pub customer_id : String

-- How a call ends: with a response, or with a status code and a message.
pub data Response (A : Type 0) : Type 0 where
  answer : A → Response A
  status_error : Code → String → Response A

module _ {p : Platform} {S : Type 0} (service : OrderService p S) where
  abbrev pub respond : {A B : Type 0} → Action S A → (A → B) → S → Response B × S
  respond call reply s =
      let (r, s') = call s in
      elim r [
        | ok a ↦ (answer (reply a), s')
        | err e ↦ let (code, text) = domain_to_grpc_error e in (status_error code text, s')
      ]

  unfoldable pub get_order : String → S → Response (ProtoOrder p) × S
  get_order order_id = respond (service.get_order_by_id order_id) (order_to_proto p)

  abbrev pub list_response : PaginatedOrders p → ListOrdersResponse p
  list_response result = record {
    orders = map (order_to_proto p) result.orders;
    page = int32 result.page;
    page_size = int32 result.page_size;
    total_count = result.total_count;
    total_pages = int32 result.total_pages;
  }

  unfoldable pub list_orders : GrpcListRequest → S → Response (ListOrdersResponse p) × S
  list_orders req =
      let list_req : ListOrdersRequest = record {
        page = req.page;
        page_size = req.page_size;
        status = filter_of req.status;
        customer_id = filter_of req.customer_id;
      } in
      respond (service.list_orders list_req) list_response
