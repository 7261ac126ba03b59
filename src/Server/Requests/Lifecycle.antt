-- ===== src/Server/Requests/Lifecycle.antt =====
-- Any requests to the service move the orders through the state machine.
use go_ordersvc.Prelude.{String, List, [], ◌∷◌, refl}
use go_ordersvc.Platform.{Platform}
use go_ordersvc.Domain.Status.{OrderStatus}
use go_ordersvc.Domain.Order.{Order}
use go_ordersvc.Repository.Table.{IsTable}
use go_ordersvc.Repository.Traffic.{◌⟹*◌, stay}
use go_ordersvc.Repository.Traffic.Moves.{Moves}
use go_ordersvc.Repository.Traffic.Lifecycle.{traffic-Moves}
use go_ordersvc.Service.Interface.{CreateOrderDto, UpdateOrderDto, ListOrdersRequest}
use go_ordersvc.Service.Impl.{
  create_order, get_order_by_id, update_order, delete_order, list_orders, update_order_status,
}
use go_ordersvc.Server.{World, runtime, dependencies}
use go_ordersvc.Server.Requests.Runs.{traffic_of, ⟹*-trans}
use go_ordersvc.Server.Requests.Writing.{update_order-Runs, update_order_status-Runs}
use go_ordersvc.Server.Requests.Plain.{
  create_order-Runs, get_order_by_id-Runs, delete_order-Runs, list_orders-Runs,
}

module _ (p : Platform) where
  -- A call of the service, by its operation.
  pub data Request : Type 0 where
    create_request : CreateOrderDto p → Request
    get_request : String → Request
    update_request : String → UpdateOrderDto p → Request
    delete_request : String → Request
    list_request : ListOrdersRequest → Request
    status_request : String → OrderStatus → Request

module _ {p : Platform} (brokers : List String) where
  -- The world after a call, whatever it returned.
  abbrev pub after_request : Request p → World p → World p
  after_request (create_request dto) w = (create_order (runtime p) (dependencies p brokers) dto w).1
  after_request (get_request id) w = (get_order_by_id (runtime p) (dependencies p brokers) id w).1
  after_request (update_request id dto) w =
      (update_order (runtime p) (dependencies p brokers) id dto w).1
  after_request (delete_request id) w = (delete_order (runtime p) (dependencies p brokers) id w).1
  after_request (list_request req) w = (list_orders (runtime p) (dependencies p brokers) req w).1
  after_request (status_request id status) w =
      (update_order_status (runtime p) (dependencies p brokers) id status w).1

  abbrev pub after_requests : List (Request p) → World p → World p
  after_requests [] w = w
  after_requests (request ∷ requests) w = after_requests requests (after_request request w)

  -- A call is traffic.
  request-traffic :
      (request : Request p) (w : World p) (held : List (Order p))
      → (held' : List (Order p)) × (traffic_of w held ⟹* traffic_of (after_request request w) held')
  request-traffic (create_request dto) w held =
      let (held', path, _) = create_order-Runs brokers dto w held in (held', path)
  request-traffic (get_request id) w held =
      let (held', path, _) = get_order_by_id-Runs brokers id w held in (held', path)
  request-traffic (update_request id dto) w held =
      let (held', path, _) = update_order-Runs brokers id dto w held in (held', path)
  request-traffic (delete_request id) w held =
      let (held', path, _) = delete_order-Runs brokers id w held in (held', path)
  request-traffic (list_request req) w held =
      let (held', path, _) = list_orders-Runs brokers req w held in (held', path)
  request-traffic (status_request id status) w held =
      let (held', path, _) = update_order_status-Runs brokers id status w held in (held', path)

  requests-traffic :
      (requests : List (Request p)) (w : World p) (held : List (Order p))
      → (held' : List (Order p)) × (traffic_of w held
          ⟹* traffic_of (after_requests requests w) held')
  requests-traffic [] w held = (held, stay)
  requests-traffic (request ∷ requests) w held =
      let (held', path) = request-traffic request w held in
      let (held'', path') = requests-traffic requests (after_request request w) held' in
      (held'', ⟹*-trans path path')

  -- Any requests to the service, one after the other, valid or not and with any faults of the
  -- database, the cache and the topic: a table that met its constraints still meets them, and the
  -- status of every row has come from the status that the row of its id had at first, or from pending
  -- if there was none, by steps that CanTransitionTo accepts.
  pub requests-Moves :
      (requests : List (Request p)) (w : World p)
      → IsTable w.database.content
      → IsTable (after_requests requests w).database.content
        × Moves w.database.content (after_requests requests w).database.content
  requests-Moves requests w valid =
      let (held, path) = requests-traffic requests w [] in
      traffic-Moves (traffic_of w []) (traffic_of (after_requests requests w) held) valid refl path
