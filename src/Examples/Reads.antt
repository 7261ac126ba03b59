-- ===== src/Examples/Reads.antt =====
-- Reads that follow a change, over the server of one order.
use go_ordersvc.Prelude.{none, some, [], ◌∷◌, ◌≡◌, ◌≢◌, refl, ◌∙◌, sym}
use go_ordersvc.Prelude.Int.{int64, ◌+ℤ◌, ◌*ℤ◌}
use go_ordersvc.Json.Items.{unmarshal_items}
use go_ordersvc.Json.Orders.{marshal_order}
use go_ordersvc.Json.Items.{marshal_items}
use go_ordersvc.Effect.{Result, ok, err}
use go_ordersvc.Outside.{execute}
use go_ordersvc.Domain.Status.{confirmed, can_transition_to}
use go_ordersvc.Domain.Item.{validate}
use go_ordersvc.Domain.Order
use go_ordersvc.Domain.Order.{Order, add_subtotal}
use go_ordersvc.Repository.Postgres
use go_ordersvc.Repository.Postgres.{find_by_id, read_order}
use go_ordersvc.Cache.Redis
use go_ordersvc.Cache.Redis.{Keys, Entry, new_order_cache, order_key}
use go_ordersvc.Service.Interface.{CreateOrderDto}
use go_ordersvc.Service.Steps.{find_existing}
use go_ordersvc.Service.Impl.{OrderServiceImpl, create_order, get_order_by_id, update_order_status}
use go_ordersvc.Service.Creation.{IsDraftOf}
use go_ordersvc.Server.{World, runtime, repository, dependencies}
use go_ordersvc.Outside.{condition, clear}
use go_ordersvc.Service.Steps.{new_items}
use go_ordersvc.Domain.Item.{calculate_subtotal}
use go_ordersvc.Domain.Status.{valid_statuses}
use go_ordersvc.Messaging.Kafka.{publish_order_created}
use go_ordersvc.Messaging.Event.{marshal_event}
use go_ordersvc.Server.Freshness.{get_order_by_id-update_order_status}
use go_ordersvc.Service.Steps.{replace_status}
use go_ordersvc.Messaging.Kafka.{publish_order_status_changed}
use go_ordersvc.Cache.Laws.{condition_after}
use go_ordersvc.Server.Created.{get_order_by_id-create_order}
use go_ordersvc.Repository.Creation.{first_version, Stored}
use go_ordersvc.Examples.Concrete.{sample, item, order, row, world_of}

abbrev svc : OrderServiceImpl sample (World sample)
svc = dependencies sample ("kafka:9092" ∷ [])

abbrev world : World sample
world = world_of (row ∷ []) []

abbrev dto : CreateOrderDto sample
dto = record { customer_id = "c1"; items = item ∷ [] }

-- The order that `CreateOrder` returns, and the world after it.
abbrev saved : Order sample
saved = elim (create_order (runtime sample) svc dto world).0 [ ok o ↦ o | err e ↦ order ]

abbrev created_world : World sample
created_world = (create_order (runtime sample) svc dto world).1

order_created :
    create_order (runtime sample) (dependencies sample ("kafka:9092" ∷ [])) dto world
    ≡ (ok saved, created_world)
unfolding create_order new_items validate ◌*ℤ◌ Order.validate dependencies Postgres.create
    marshal_items calculate_subtotal execute valid_statuses publish_order_created marshal_event
    Order.calculate_total
order_created = refl

created_missed : (Redis.get {p = sample} saved.id created_world.redis).0 ≡ ok none
unfolding create_order new_items validate ◌*ℤ◌ Order.validate dependencies Postgres.create
    marshal_items calculate_subtotal execute valid_statuses publish_order_created marshal_event
    Order.calculate_total Redis.get order_key
created_missed = refl

created_not_cached :
    (o : Order sample) → (Redis.get {p = sample} saved.id created_world.redis).0 ≢ ok (some o)
created_not_cached o h = differ (sym created_missed ∙ h)
  where
    differ : ok none ≡ ok (some o) → ⊥
    differ e = cc

read_is_clear : (condition created_world.database).fault ≡ clear
unfolding create_order new_items validate ◌*ℤ◌ Order.validate dependencies Postgres.create
    marshal_items calculate_subtotal execute valid_statuses publish_order_created marshal_event
    Order.calculate_total
read_is_clear = refl

get_order_by_id-create_order_example :
    (o stored : Order sample) × IsDraftOf dto o
    × (saved ≡ first_version o)
    × Stored o stored
    × ((get_order_by_id (runtime sample) svc saved.id created_world).0 ≡ ok stored)
get_order_by_id-create_order_example =
    get_order_by_id-create_order ("kafka:9092" ∷ []) dto world created_world saved order_created
      created_not_cached read_is_clear

-- The world after the order was confirmed, though the cache held it as it was before.
abbrev stale_world : World sample
stale_world = record world { redis = (Redis.set order 100 world.redis).1 }

abbrev confirmed_result : Result (Order sample) × World sample
confirmed_result = update_order_status (runtime sample) svc "u1" confirmed stale_world

abbrev moved : Order sample
moved = elim confirmed_result.0 [ ok o ↦ o | err e ↦ order ]

order_moved :
    update_order_status
      (runtime sample)
      (dependencies sample ("kafka:9092" ∷ []))
      "u1"
      confirmed
      stale_world
    ≡ (ok moved, confirmed_result.1)
unfolding update_order_status dependencies find_by_id execute unmarshal_items replace_status
    can_transition_to Postgres.update marshal_items valid_statuses ◌+ℤ◌ publish_order_status_changed
    marshal_event Redis.delete Redis.set marshal_order int64
order_moved = refl

removal_is_clear : (condition stale_world.redis).fault ≡ clear
unfolding Redis.set marshal_order marshal_items execute
removal_is_clear = refl

look_up_is_clear : (condition_after stale_world.redis).fault ≡ clear
unfolding Redis.set marshal_order marshal_items execute
look_up_is_clear = refl

get_order_by_id-update_order_status_example :
    (w : World sample) × (w.database ≡ confirmed_result.1.database)
    × ((get_order_by_id (runtime sample) svc "u1" confirmed_result.1).0
        ≡ (find_existing (repository sample) "u1" w).0)
get_order_by_id-update_order_status_example =
    get_order_by_id-update_order_status ("kafka:9092" ∷ []) "u1" confirmed stale_world
      confirmed_result.1 moved order_moved removal_is_clear look_up_is_clear
