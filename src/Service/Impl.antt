-- ===== src/Service/Impl.antt =====
-- internal/service/order_service_impl.go. An action's state is whatever the dependencies act on;
-- the context is left out, since the service hands it on and does not read it.
use go_ordersvc.Prelude.{⊤, String, Option, none, some, str_eq, if◌then◌else◌, is_empty}
use go_ordersvc.Prelude.Int.{pos}
use go_ordersvc.Platform.{Platform}
use go_ordersvc.Effect.{Action, pure, run, throw, check, ◌>>=◌, ◌>>◌}
use go_ordersvc.Domain.Errors.{invalid_customer_id, no_items}
use go_ordersvc.Domain.Status.{OrderStatus, pending}
use go_ordersvc.Domain.Order
use go_ordersvc.Domain.Order.{Order, PaginatedOrders, calculate_total}
use go_ordersvc.Repository.Interface.{OrderRepository}
use go_ordersvc.Cache.Interface.{OrderCache}
use go_ordersvc.Service.Steps.{
  new_items, find_existing, cache_lookup, cache_store, cache_invalidate, replace_items,
  replace_status, publish, query, total_pages, effective_page, effective_page_size, list_options,
}
use go_ordersvc.Service.Interface.{
  CreateOrderDto, UpdateOrderDto, ListOrdersRequest, EventPublisher, OrderService, Runtime,
}

module _ (p : Platform) (S : Type 0) where
  -- `orderServiceImpl`; a nil interface is `none`.
  pub record OrderServiceImpl : Type 0 where
    pub repo : OrderRepository p S
    pub cache : Option (OrderCache p S)
    pub publisher : Option (EventPublisher p S)

module _ {p : Platform} {S : Type 0} (rt : Runtime p S) where
  open p use {UUID, uuid_string, float_zero, of_int, float_div, ceil_int}

  unfoldable pub create_order : OrderServiceImpl p S → CreateOrderDto p → Action S (Order p)
  create_order svc dto =
      if str_eq dto.customer_id ""
      then throw invalid_customer_id
      else if is_empty dto.items
      then throw no_items
      else do
        items ← new_items rt dto.items
        id ← run rt.new_uuid
        created_at ← run rt.now
        updated_at ← run rt.now
        let untotalled : Order p = record {
          id = id;
          customer_id = dto.customer_id;
          items = items;
          status = pending;
          total = float_zero;
          version = pos 0;
          created_at = created_at;
          updated_at = updated_at;
          deleted_at = none;
        }
        let order : Order p = record untotalled { total = calculate_total untotalled }
        check (Order.validate order)
        saved ← svc.repo.create order
        publish rt svc.publisher "failed to publish order.created event" saved
            (λ publisher. publisher.publish_order_created saved)
        pure saved

  -- `GetOrderByID` on a miss.
  abbrev pub fetch_and_cache : OrderServiceImpl p S → String → Action S (Order p)
  fetch_and_cache svc id = do
    order ← find_existing svc.repo id
    cache_store rt svc.cache id order
    pure order

  unfoldable pub get_order_by_id : OrderServiceImpl p S → String → Action S (Order p)
  get_order_by_id svc id = do
    cached ← cache_lookup rt svc.cache id
    elim cached [ some order ↦ pure order | none ↦ fetch_and_cache svc id ]

  unfoldable pub update_order :
      OrderServiceImpl p S → String → UpdateOrderDto p → Action S (Order p)
  update_order svc id dto = do
    order ← find_existing svc.repo id
    with_items ← replace_items rt dto.items order
    with_status ← replace_status dto.status with_items
    updated_at ← run rt.now
    saved ← svc.repo.update (record with_status { updated_at = updated_at })
    publish rt svc.publisher "failed to publish order.updated event" saved
        (λ publisher. publisher.publish_order_updated saved)
    pure saved

  unfoldable pub delete_order : OrderServiceImpl p S → String → Action S ⊤
  delete_order svc id = do order ← find_existing svc.repo id; svc.repo.delete id

  unfoldable pub update_order_status :
      OrderServiceImpl p S → String → OrderStatus → Action S (Order p)
  update_order_status svc id new_status = do
    order ← find_existing svc.repo id
    moved ← replace_status (some new_status) order
    updated_at ← run rt.now
    saved ← svc.repo.update (record moved { updated_at = updated_at })
    publish rt svc.publisher "failed to publish order.status_changed event" saved
        (λ publisher. publisher.publish_order_status_changed saved order.status new_status)
    cache_invalidate rt svc.cache id
    pure saved

  unfoldable pub list_orders :
      OrderServiceImpl p S → ListOrdersRequest → Action S (PaginatedOrders p)
  unfolding list_options
  list_orders svc req = do
    (orders, total_count) ← query svc.repo req.customer_id (list_options req)
    pure (record {
      orders = orders;
      page = effective_page req;
      page_size = effective_page_size req;
      total_count = total_count;
      total_pages = total_pages p total_count (effective_page_size req);
    })

  -- `NewOrderService`
  unfoldable pub new_order_service :
      OrderRepository p S → Option (OrderCache p S) → Option (EventPublisher p S) → OrderService p S
  unfolding create_order get_order_by_id update_order delete_order list_orders update_order_status
  new_order_service repo cache publisher =
      let svc : OrderServiceImpl p S = record {
        repo = repo;
        cache = cache;
        publisher = publisher;
      } in
      record {
        create_order = create_order svc;
        get_order_by_id = get_order_by_id svc;
        update_order = update_order svc;
        delete_order = delete_order svc;
        list_orders = list_orders svc;
        update_order_status = update_order_status svc;
      }
