-- ===== src/Server/Staleness.antt =====
-- A cached order outlives its deletion and its update: what `DeleteOrder` and `UpdateOrder` leave in
-- the cache.
use go_ordersvc.Prelude.{
  ℕ, ⊤, String, Option, none, some, List, [], ◌∷◌, ◌≡◌, refl, ◌∙◌, ap, inl, inr, Bool-cases, str_eq,
}
use go_ordersvc.Platform.{Platform}
use go_ordersvc.Effect.{Result, ok, err, Action, ◌>>=◌, ◌>>◌, pure, run}
use go_ordersvc.Domain.Order.{Order}
use go_ordersvc.Repository.Postgres
use go_ordersvc.Repository.Listing.{new_order_repository}
use go_ordersvc.Cache.Redis
use go_ordersvc.Cache.Redis.{RedisServer, new_order_cache}
use go_ordersvc.Messaging.Kafka.{new_publisher, noop_publisher}
use go_ordersvc.Service.Interface.{UpdateOrderDto}
use go_ordersvc.Service.Steps.{
  find_existing, or_not_found, replace_items, replace_status, warn_about, publish,
}
use go_ordersvc.Service.Impl.{get_order_by_id, delete_order, update_order}
use go_ordersvc.Service.Reading.{get_order_by_id_cached}
use go_ordersvc.Server.Untouched.{Leaves, >>=-Leaves, replace_items-Leaves, replace_status-Leaves}
use go_ordersvc.Server.{
  World, on_database, runtime, repository, order_cache, dependencies, publisher_for,
}

module _ {p : Platform} where
  abbrev pub cache_of : World p → RedisServer p
  cache_of w = w.redis

  -- An action that leaves the cache as it is.
  abbrev pub IsUncached : {A : Type 0} → Action (World p) A → Type 0
  IsUncached m = Leaves cache_of m

  pub find_existing-IsUncached : (id : String) → IsUncached (find_existing (repository p) id)
  unfolding repository new_order_repository
  find_existing-IsUncached id =
      >>=-Leaves cache_of (on_database (Postgres.find_by_id id)) or_not_found (λ w. refl) found
    where
      found : (o : Option (Order p)) → IsUncached (or_not_found o)
      found none w = refl
      found (some o) w = refl

  delete_order-IsUncached :
      (brokers : List String) (id : String)
      → IsUncached (delete_order (runtime p) (dependencies p brokers) id)
  unfolding delete_order dependencies repository new_order_repository
  delete_order-IsUncached brokers id =
      >>=-Leaves cache_of (find_existing (repository p) id)
        (λ order. on_database (Postgres.delete id)) (find_existing-IsUncached id) (λ order w. refl)

  pub warn_about-IsUncached :
      (text id : String) (r : Result ⊤) (w : World p)
      → (warn_about (runtime p) text id r w).1.redis ≡ w.redis
  warn_about-IsUncached text id (ok _) w = refl
  warn_about-IsUncached text id (err e) w = refl

  publish_order_updated-IsUncached :
      (brokers : List String) (order : Order p)
      → IsUncached ((publisher_for p brokers).publish_order_updated order)
  unfolding publisher_for new_publisher noop_publisher
  publish_order_updated-IsUncached [] order w = refl
  publish_order_updated-IsUncached (broker ∷ brokers) order w =
      elim (Bool-cases (str_eq broker "")) [
        | inl absent ↦ rw absent refl
        | inr present ↦ rw present refl
      ]

  -- The steps of `UpdateOrder` from the last to the first.
  abbrev announced : List String → Order p → Action (World p) ⊤
  announced brokers saved =
      publish (runtime p) (some (publisher_for p brokers)) "failed to publish order.updated event"
        saved (λ publisher. publisher.publish_order_updated saved)

  abbrev announce : List String → Order p → Action (World p) (Order p)
  announce brokers saved = announced brokers saved >> pure saved

  abbrev save : List String → Order p → ℕ → Action (World p) (Order p)
  save brokers order t =
      on_database (Postgres.update (record order { updated_at = t })) >>= announce brokers

  abbrev stamp : List String → Order p → Action (World p) (Order p)
  stamp brokers order = run (runtime p).now >>= save brokers order

  abbrev restate : List String → UpdateOrderDto p → Order p → Action (World p) (Order p)
  restate brokers dto order = replace_status dto.status order >>= stamp brokers

  abbrev change : List String → UpdateOrderDto p → Order p → Action (World p) (Order p)
  change brokers dto order = replace_items (runtime p) dto.items order >>= restate brokers dto

  announce-IsUncached :
      (brokers : List String) (saved : Order p) → IsUncached (announce brokers saved)
  announce-IsUncached brokers saved =
      >>=-Leaves cache_of (announced brokers saved) (λ _. pure saved)
        (λ w.
          warn_about-IsUncached "failed to publish order.updated event" (p.uuid_string saved.id)
            ((publisher_for p brokers).publish_order_updated saved w).0
            ((publisher_for p brokers).publish_order_updated saved w).1
          ∙ publish_order_updated-IsUncached brokers saved w)
        (λ _ w. refl)

  stamp-IsUncached : (brokers : List String) (order : Order p) → IsUncached (stamp brokers order)
  stamp-IsUncached brokers order =
      >>=-Leaves cache_of (run (runtime p).now) (save brokers order) (λ w. refl)
        (λ t.
          >>=-Leaves cache_of (on_database (Postgres.update (record order { updated_at = t })))
            (announce brokers) (λ w. refl) (announce-IsUncached brokers))

  change-IsUncached :
      (brokers : List String) (dto : UpdateOrderDto p) (order : Order p)
      → IsUncached (change brokers dto order)
  change-IsUncached brokers dto order =
      >>=-Leaves cache_of (replace_items (runtime p) dto.items order) (restate brokers dto)
        (replace_items-Leaves cache_of (λ w n. refl) dto.items order)
        (λ with_items.
          >>=-Leaves cache_of (replace_status dto.status with_items) (stamp brokers)
            (replace_status-Leaves cache_of dto.status with_items) (stamp-IsUncached brokers))

  update_order-IsUncached :
      (brokers : List String) (id : String) (dto : UpdateOrderDto p)
      → IsUncached (update_order (runtime p) (dependencies p brokers) id dto)
  unfolding update_order dependencies repository new_order_repository
  update_order-IsUncached brokers id dto =
      >>=-Leaves cache_of (find_existing (repository p) id) (change brokers dto)
        (find_existing-IsUncached id) (change-IsUncached brokers dto)

  -- A read after an action that leaves the cache as it is returns what the cache held before it.
  served_after :
      (brokers : List String) (id : String) (o : Order p) (w w' : World p)
      → w'.redis ≡ w.redis
      → (Redis.get id w.redis).0 ≡ ok (some o)
      → (get_order_by_id (runtime p) (dependencies p brokers) id w').0 ≡ ok o
  unfolding dependencies order_cache new_order_cache
  served_after brokers id o w w' same cached =
      let hit : (Redis.get id w'.redis).0 ≡ ok (some o) =
        ap (λ c. (Redis.get id c).0) same ∙ cached in
      ap (λ (x : Result (Order p) × World p). x.0)
        (get_order_by_id_cached (runtime p) (dependencies p brokers) (order_cache p) id o w' _ refl
          (ap (λ r. (r, record w' { redis = (Redis.get id w'.redis).1 })) hit))

  -- Where the cache would answer with an order before a `DeleteOrder`, `GetOrderByID` returns that
  -- order after it still, also where the order was deleted: for the same text, and the same
  -- circumstances of the cache's next call.
  pub deleted_still_served :
      (brokers : List String) (id : String) (o : Order p) (w : World p)
      → (Redis.get id w.redis).0 ≡ ok (some o)
      → (get_order_by_id
          (runtime p)
          (dependencies p brokers)
          id
          (delete_order (runtime p) (dependencies p brokers) id w).1).0
        ≡ ok o
  deleted_still_served brokers id o w cached =
      served_after brokers id o w (delete_order (runtime p) (dependencies p brokers) id w).1
        (delete_order-IsUncached brokers id w) cached

  -- Where the cache would answer with an order before an `UpdateOrder`, `GetOrderByID` returns that
  -- order after it still, as it was before the update: for the same text, and the same circumstances
  -- of the cache's next call.
  pub updated_still_served :
      (brokers : List String) (id : String) (dto : UpdateOrderDto p) (o : Order p) (w : World p)
      → (Redis.get id w.redis).0 ≡ ok (some o)
      → (get_order_by_id
          (runtime p)
          (dependencies p brokers)
          id
          (update_order (runtime p) (dependencies p brokers) id dto w).1).0
        ≡ ok o
  updated_still_served brokers id dto o w cached =
      served_after brokers id o w (update_order (runtime p) (dependencies p brokers) id dto w).1
        (update_order-IsUncached brokers id dto w) cached
