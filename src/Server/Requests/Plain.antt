-- ===== src/Server/Requests/Plain.antt =====
-- The requests that do not write an order back.
use mathlib.Core.List.{Memᴰ}
use go_ordersvc.Prelude.{
  String, Option, none, some, List, ◌≡◌, refl, inl, inr, Bool-cases, str_eq, is_empty,
}
use go_ordersvc.Platform.{Platform}
use go_ordersvc.Effect.{Action, ◌>>=◌, ◌>>◌, pure, check}
use go_ordersvc.Domain.Order
use go_ordersvc.Domain.Order.{Order}
use go_ordersvc.Repository.Interface.{ListOptions}
use go_ordersvc.Repository.Postgres
use go_ordersvc.Repository.Listing
use go_ordersvc.Repository.Listing.{new_order_repository}
use go_ordersvc.Repository.Calls.{create_call, delete_call, list_call, customer_call}
use go_ordersvc.Messaging.Kafka.{new_publisher, noop_publisher}
use go_ordersvc.Service.Interface.{CreateOrderDto, ListOrdersRequest}
use go_ordersvc.Service.Steps.{
  new_items, find_existing, publish, query, list_options, cache_store, cache_lookup,
}
use go_ordersvc.Service.Impl.{
  create_order, get_order_by_id, delete_order, list_orders, fetch_and_cache,
}
use go_ordersvc.Repository.Traffic.{stay}
use go_ordersvc.Domain.Status.{pending}
use go_ordersvc.Server.Untouched.{Leaves, >>=-Leaves, new_items-Leaves, check-Leaves}
use go_ordersvc.Server.Requests.Silent.{
  database_of, publish-Leaves, cache_store-Leaves, cache_lookup-Leaves,
}
use go_ordersvc.Server.Requests.Runs.{
  Runs, Any, >>=-Runs, still-Runs, call-Runs, find_existing-Runs,
}
use go_ordersvc.Server.{World, runtime, repository, order_cache, publisher_for, dependencies}

module _ {p : Platform} where
  pub delete_order-Runs :
      (brokers : List String) (id : String) (w : World p) (held : List (Order p))
      → Runs w held Any (delete_order (runtime p) (dependencies p brokers) id w)
  unfolding delete_order dependencies repository new_order_repository
  delete_order-Runs brokers id w held =
      >>=-Runs {P = Memᴰ} {Q = Any} w held (find_existing (repository p) id) _
        (find_existing-Runs id w held)
        (λ order w' held' read.
          call-Runs (Postgres.delete id) (delete_call id) tt (λ db. refl) w' held')

  query-Runs :
      (customer : Option String) (opts : ListOptions) (w : World p) (held : List (Order p))
      → Runs w held Any (query (repository p) customer opts w)
  unfolding repository new_order_repository
  query-Runs none opts w held =
      call-Runs (Listing.list opts) (list_call opts) tt (λ db. refl) w held
  query-Runs (some customer_id) opts w held = elim (Bool-cases (str_eq customer_id "")) [
    | inl t ↦ rw t (call-Runs (Listing.list opts) (list_call opts) tt (λ db. refl) w held)
    | inr f ↦ rw f (
        call-Runs (Listing.find_by_customer_id customer_id opts) (customer_call customer_id opts) tt
          (λ db. refl) w held)
  ]

  pub list_orders-Runs :
      (brokers : List String) (req : ListOrdersRequest) (w : World p) (held : List (Order p))
      → Runs w held Any (list_orders (runtime p) (dependencies p brokers) req w)
  unfolding list_orders dependencies
  list_orders-Runs brokers req w held =
      >>=-Runs {P = Any} {Q = Any} w held (query (repository p) req.customer_id (list_options req))
        _ (query-Runs req.customer_id (list_options req) w held)
        (λ result w' held' _. (held', stay, λ a h. tt))

  fetch_and_cache-Runs :
      (brokers : List String) (id : String) (w : World p) (held : List (Order p))
      → Runs w held Any (fetch_and_cache (runtime p) (dependencies p brokers) id w)
  unfolding dependencies
  fetch_and_cache-Runs brokers id w held =
      >>=-Runs {P = Memᴰ} {Q = Any} w held (find_existing (repository p) id) _
        (find_existing-Runs id w held)
        (λ order w' held' read.
          let store = cache_store (runtime p) (some (order_cache p)) id order in
          still-Runs w' held' ((store >> pure order) w')
            (>>=-Leaves database_of store (λ _. pure order) (cache_store-Leaves id order)
              (λ _ x. refl) w')
            (λ a h. tt))

  -- `GetOrderByID` after the cache was asked.
  abbrev looked_up : List String → String → Option (Order p) → Action (World p) (Order p)
  looked_up brokers id cached = elim cached [
    | some order ↦ pure order
    | none ↦ fetch_and_cache (runtime p) (dependencies p brokers) id
  ]

  looked_up-Runs :
      (brokers : List String) (id : String) (cached : Option (Order p)) (w : World p)
      (held : List (Order p))
      → Runs w held Any (looked_up brokers id cached w)
  looked_up-Runs brokers id none w held = fetch_and_cache-Runs brokers id w held
  looked_up-Runs brokers id (some order) w held = (held, stay, λ a h. tt)

  pub get_order_by_id-Runs :
      (brokers : List String) (id : String) (w : World p) (held : List (Order p))
      → Runs w held Any (get_order_by_id (runtime p) (dependencies p brokers) id w)
  unfolding get_order_by_id dependencies
  get_order_by_id-Runs brokers id w held =
      >>=-Runs {P = Any} {Q = Any} w held (cache_lookup (runtime p) (some (order_cache p)) id)
        (looked_up brokers id)
        (still-Runs w held (cache_lookup (runtime p) (some (order_cache p)) id w)
          (cache_lookup-Leaves id w) (λ a h. tt))
        (λ cached w' held' _. looked_up-Runs brokers id cached w' held')

  abbrev created_rest : List String → Order p → Action (World p) (Order p)
  created_rest brokers saved =
      publish (runtime p) (some (publisher_for p brokers)) "failed to publish order.created event"
        saved (λ publisher. publisher.publish_order_created saved)
      >> pure saved

  created_rest-Leaves :
      (brokers : List String) (saved : Order p) → Leaves database_of (created_rest brokers saved)
  unfolding new_publisher noop_publisher
  created_rest-Leaves brokers saved =
      >>=-Leaves database_of
        (publish (runtime p) (some (publisher_for p brokers))
          "failed to publish order.created event" saved
          (λ publisher. publisher.publish_order_created saved))
        (λ _. pure saved)
        (publish-Leaves brokers "failed to publish order.created event" saved
          (λ publisher. publisher.publish_order_created saved) (λ w. refl) (λ w. refl))
        (λ _ w. refl)

  -- A valid new order is put into the table.
  inserted-Runs :
      (brokers : List String) (order : Order p)
      → order.status ≡ pending
      → (w : World p) (held : List (Order p))
      → Runs w held Any (
          (check (Order.validate order) >> ((repository p).create order >>= created_rest brokers))
            w)
  unfolding repository new_order_repository
  inserted-Runs brokers order new w held =
      >>=-Runs {P = Any} {Q = Any} w held (check (Order.validate order))
        (λ _. (repository p).create order >>= created_rest brokers)
        (still-Runs w held (check (Order.validate order) w)
          (check-Leaves database_of (Order.validate order) w) (λ a h. tt))
        (λ _ w' held' _.
          >>=-Runs {P = Any} {Q = Any} w' held' ((repository p).create order) (created_rest brokers)
            (call-Runs (Postgres.create order) (create_call order) new (λ db. refl) w' held')
            (λ saved w₁ held₁ _.
              still-Runs w₁ held₁ (created_rest brokers saved w₁)
                (created_rest-Leaves brokers saved w₁) (λ a h. tt)))

  pub create_order-Runs :
      (brokers : List String) (dto : CreateOrderDto p) (w : World p) (held : List (Order p))
      → Runs w held Any (create_order (runtime p) (dependencies p brokers) dto w)
  unfolding create_order dependencies
  create_order-Runs brokers dto w held = elim (Bool-cases (str_eq dto.customer_id "")) [
    | inl anonymous ↦ rw anonymous (held, stay, λ a h. tt)
    | inr named ↦ elim (Bool-cases (is_empty dto.items)) [
      | inl empty ↦ rw (named, empty) (held, stay, λ a h. tt)
      | inr filled ↦
          rw (named, filled)
            (>>=-Runs {P = Any} {Q = Any} w held (new_items (runtime p) dto.items) _
              (still-Runs w held (new_items (runtime p) dto.items w)
                (new_items-Leaves database_of (λ x n. refl) dto.items w) (λ a h. tt))
              (λ items w' held' _. inserted-Runs brokers _ refl _ held'))
    ]
  ]
