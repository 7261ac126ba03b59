-- ===== src/Examples/Services.antt =====
-- The service's theorems over the server of one order.
use mathlib.Core.List.{foldl}
use go_ordersvc.Prelude.{
  ℕ, suc, ◌*◌, ◌≤◌, none, some, List, [], ◌∷◌, ◌≡◌, ◌≢◌, refl, arith, Matches,
}
use go_ordersvc.Prelude.Int.{pos, ◌+ℤ◌, ◌*ℤ◌}
use go_ordersvc.Json.Items.{unmarshal_items, unmarshal_elems}
use go_ordersvc.Json.Orders.{unmarshal_order, marshal_order}
use go_ordersvc.Json.Items.{marshal_items}
use go_ordersvc.Effect.{ok, err}
use go_ordersvc.Outside.{execute}
use go_ordersvc.Domain.Errors.{domain, invalid_transition, invalid_quantity}
use go_ordersvc.Domain.Status.{pending, confirmed, delivered, can_transition_to}
use go_ordersvc.Domain.Lifecycle.{◌⟶◌, confirm, can_transition_to_iff}
use go_ordersvc.Domain.Item.{OrderItem, validate}
use go_ordersvc.Domain.Order
use go_ordersvc.Domain.Order.{Order, add_subtotal}
use go_ordersvc.Repository.Postgres
use go_ordersvc.Repository.Postgres.{find_by_id, read_order}
use go_ordersvc.Repository.Listing.{new_order_repository}
use go_ordersvc.Cache.Redis
use go_ordersvc.Cache.Redis.{Keys, Entry, new_order_cache, order_key}
use go_ordersvc.Service.Interface.{CreateOrderDto, UpdateOrderDto, ListOrdersRequest}
use go_ordersvc.Service.Steps.{effective_page, effective_page_size, list_options, find_existing}
use go_ordersvc.Service.Impl.{
  OrderServiceImpl, create_order, get_order_by_id, update_order, delete_order, update_order_status,
}
use go_ordersvc.Service.Creation.{create_order_valid, create_order_refused, IsDraftOf, IsMadeFrom}
use go_ordersvc.Service.Changes.{
  update_order_status_refused, update_order_status_allowed, update_order_valid,
}
use go_ordersvc.Service.Reading.{get_order_by_id_uncached}
use go_ordersvc.Service.Paging.{list_options-bounds}
use go_ordersvc.Config.{load_from_env}
use go_ordersvc.Config.Brokers.{publisher_for-load_from_env}
use go_ordersvc.Server.{
  publisher_for, kafka_publisher, World, runtime, repository, order_cache, dependencies,
}
use go_ordersvc.Server.Staleness.{deleted_still_served, updated_still_served}
use go_ordersvc.Examples.Concrete.{sample, item, order, row, database_of, world_of}

abbrev svc : OrderServiceImpl sample (World sample)
svc = dependencies sample ("kafka:9092" ∷ [])

abbrev world : World sample
world = world_of (row ∷ []) []

abbrev dto : CreateOrderDto sample
dto = record { customer_id = "c1"; items = item ∷ [] }

abbrev bad_dto : CreateOrderDto sample
bad_dto = record { customer_id = "c1"; items = record item { quantity = pos 0 } ∷ [] }

create_order_valid_example :
    (o : Order sample) × (w : World sample) × IsDraftOf dto o
    × (Order.validate o ≡ none)
    × ((create_order (runtime sample) svc dto world).0 ≡ (svc.repo.create o w).0)
unfolding validate ◌*ℤ◌
create_order_valid_example = create_order_valid (runtime sample) svc dto world refl

create_order_refused_example :
    ((create_order (runtime sample) svc bad_dto world).0 ≡ err (domain invalid_quantity))
    × (create_order (runtime sample) svc bad_dto world
        ≡ create_order (runtime sample) (record svc { cache = none }) bad_dto world)
unfolding validate
create_order_refused_example =
    create_order_refused (runtime sample) svc (record svc { cache = none }) bad_dto world
      invalid_quantity refl

-- The world after the database was asked once.
abbrev asked : World sample
asked = record world { database = record (database_of (row ∷ [])) { executed = 1 } }

order_found : svc.repo.find_by_id "u1" world ≡ (ok (some order), asked)
unfolding dependencies repository new_order_repository find_by_id execute read_order unmarshal_items
    unmarshal_elems
order_found = refl

update_order_status_allowed_example :
    (update_order_status (runtime sample) svc "u1" confirmed world).0
    ≡ (svc.repo.update
        (record order { status = confirmed; updated_at = 0 })
        (record asked { drawn = 1 })).0
update_order_status_allowed_example =
    update_order_status_allowed (runtime sample) svc "u1" confirmed order world asked order_found
      (confirm refl refl)

pending_not_delivered : pending ⟶ delivered → ⊥
unfolding can_transition_to
pending_not_delivered step =
    let accepted = (can_transition_to_iff pending delivered).1 step in cc accepted

update_order_status_refused_example :
    update_order_status (runtime sample) svc "u1" delivered world
    ≡ (err (domain invalid_transition), asked)
update_order_status_refused_example =
    update_order_status_refused (runtime sample) svc "u1" delivered order world asked order_found
      pending_not_delivered

abbrev change : UpdateOrderDto sample
change = record { items = item ∷ []; status = none }

update_order_valid_example :
    (items : List (OrderItem sample)) × (w : World sample) × Matches IsMadeFrom (item ∷ []) items
    × ((update_order (runtime sample) svc "u1" change world).0
        ≡ (svc.repo.update
            (record order {
              items = items;
              total = foldl (add_subtotal {p = sample}) (pos 0, 1) items;
              updated_at = ((runtime sample).now w).0;
            })
            ((runtime sample).now w).1).0)
unfolding validate ◌*ℤ◌
update_order_valid_example =
    update_order_valid (runtime sample) svc "u1" change order world asked order_found refl refl refl

cached_by : svc.cache ≡ some (order_cache sample)
unfolding dependencies
cached_by = refl

cache_missed_first : (o : Order sample) → ((order_cache sample).get "u1" world).0 ≢ ok (some o)
unfolding order_cache new_order_cache Redis.get order_key execute
cache_missed_first o h = cc h

get_order_by_id_uncached_example :
    (w : World sample) × ((get_order_by_id (runtime sample) svc "u1" world).0
      ≡ (find_existing svc.repo "u1" w).0)
get_order_by_id_uncached_example =
    get_order_by_id_uncached (runtime sample) svc (order_cache sample) "u1" world cached_by
      cache_missed_first

-- The world once its one order was put into the cache.
abbrev cached_world : World sample
cached_world = record world { redis = (Redis.set order 100 world.redis).1 }

order_cached : (Redis.get "u1" cached_world.redis).0 ≡ ok (some order)
unfolding Redis.get Redis.set order_key execute marshal_order marshal_items unmarshal_order
    unmarshal_items unmarshal_elems
order_cached = refl

deleted_still_served_example :
    (get_order_by_id
      (runtime sample)
      svc
      "u1"
      (delete_order (runtime sample) svc "u1" cached_world).1).0
    ≡ ok order
deleted_still_served_example =
    deleted_still_served ("kafka:9092" ∷ []) "u1" order cached_world order_cached

updated_still_served_example :
    (get_order_by_id
      (runtime sample)
      svc
      "u1"
      (update_order (runtime sample) svc "u1" change cached_world).1).0
    ≡ ok order
updated_still_served_example =
    updated_still_served ("kafka:9092" ∷ []) "u1" change order cached_world order_cached

-- The deletion that the order outlives in the cache succeeds.
cached_order_deleted : (delete_order (runtime sample) svc "u1" cached_world).0 ≡ ok tt
unfolding delete_order dependencies repository new_order_repository find_by_id Postgres.delete
    execute read_order unmarshal_items unmarshal_elems ◌+ℤ◌
cached_order_deleted = refl

abbrev list_req : ListOrdersRequest
list_req = record { page = pos 3; page_size = pos 500; status = none; customer_id = none }

list_options-bounds_example :
    (n : ℕ) × (m : ℕ) × (effective_page list_req ≡ pos (suc n))
    × (effective_page_size list_req ≡ pos (suc m))
    × (suc m ≤ 100)
    × (list_options list_req
        ≡ record { limit = pos (suc m); offset = pos (n * suc m); status = list_req.status })
list_options-bounds_example = list_options-bounds list_req (omega arith)

publisher_for-load_from_env_example :
    publisher_for sample (load_from_env (λ name. "")).kafka.brokers ≡ kafka_publisher sample
publisher_for-load_from_env_example = publisher_for-load_from_env sample (λ name. "")
